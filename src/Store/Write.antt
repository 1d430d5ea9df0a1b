-- ===== src/Store/Write.antt =====
-- writeRecord of supabase/functions/dtp-store/handlers/records.ts, from the validated envelope on: the
-- checks on the store that it reads, and the transaction on the store as it is then. The hooks write
-- to other tables only; a hook that throws undoes the transaction.
pub mod Commit
pub mod Parties
pub mod Grants
pub mod Granted
pub mod Linear
pub mod Heads
mod Tests
use direct_trade_protocol.Prelude.{
  ℕ, Bool, true, false, not, ◌&&◌, ◌||◌, ◌==◌, Option, none, some, List, [], ◌∷◌, any, all, map,
  length, if◌then◌else◌, is_some, Text, codes, ◌===◌, includes, Result, ok, err, ◌>>=◌, ◌>>◌,
  demand, refuse,
}
use direct_trade_protocol.Prelude.Int.{ℤ}
use direct_trade_protocol.Canonical.{Json, Members}
use direct_trade_protocol.Authority.Charter.{uuid}
use direct_trade_protocol.Scopes.{write}
use direct_trade_protocol.Store.Authz.{
  GrantRow, Visibility, public, counterparties, granted, private, Principal, company, module_id,
  Row, has_grant, can_read,
}
use direct_trade_protocol.Store.Transitions.{
  TypeInfo, PartyContext, TransitionError, get, is_text, text_of, status_of, check_write,
}
use direct_trade_protocol.Store.Integrity.{IntegrityError, check_integrity}

-- The codes of a StoreError that the pipeline throws, and the errors of its parts.
pub data WriteError : Type 0 where
  bad_request schema_invalid auth_required issuer_mismatch forbidden grant_missing : WriteError
  issuer_not_party not_found duplicate_record_id supersedes_conflict internal : WriteError
  transition : TransitionError → WriteError
  integrity : IntegrityError → WriteError

-- A principal with the key of its token; `is_root` is the role.
pub record Caller : Type 0 where
  pub principal : Principal
  pub key_id : Text
  pub is_root : Bool

pub record Registered : Type 0 where
  pub machine : TypeInfo
  pub namespace : Text
  pub subject : Text
  pub writable_by : List Text

-- A validated envelope with its payload hash.
pub record Envelope : Type 0 where
  pub record_id : Text
  pub root_id : Text
  pub type : Text
  pub namespace : Text
  pub subject_company_id : Text
  pub counterparty_ids : List Text
  pub key_id : Text
  pub company_id : Text
  pub module_id : Option Text
  pub visibility : Visibility
  pub supersedes : Option Text
  pub body : Members
  pub payload_hash : Text

pub record RecordRow : Type 0 where
  pub envelope : Envelope
  pub is_head : Bool
  pub status : Option Text
  pub seq : ℕ

-- The tables that the pipeline reads; a grant stands with its grantee.
pub record Store : Type 0 where
  pub companies : List Text
  pub grants : List (Text × GrantRow)
  pub records : List RecordRow

abbrev pub row_id : RecordRow → Text
row_id r = r.envelope.record_id

-- `select ... where r.record_id = $1`
unfoldable pub find_row : List RecordRow → Text → Option RecordRow
find_row [] id = none
find_row (r ∷ rs) id = if row_id r === id then some r else find_row rs id

unfoldable pub fetch_record_row : Store → Text → Option RecordRow
unfolding find_row uuid
fetch_record_row s id = if uuid id then find_row s.records id else none

abbrev pub grants_of : List (Text × GrantRow) → Text → List GrantRow
grants_of [] id = []
grants_of ((grantee, g) ∷ gs) id =
    let rest = grants_of gs id in if grantee === id then g ∷ rest else rest

-- `kind === 'module' ? grantsForModule(db, id) : []`
unfoldable pub caller_grants : Store → Principal → List GrantRow
caller_grants s (company id) = []
caller_grants s (module_id id) = grants_of s.grants id

abbrev pub visible_row : RecordRow → Row
visible_row r = record {
  visibility = r.envelope.visibility;
  subject_company_id = r.envelope.subject_company_id;
  counterparty_ids = r.envelope.counterparty_ids;
  type = r.envelope.type;
  namespace = r.envelope.namespace;
  body_module = text_of (get r.envelope.body (codes "module_id"));
}

unfoldable pub same_set : List Text → List Text → Bool
same_set a b = length a == length b && all (includes a) b

abbrev pub same_visibility : Visibility → Visibility → Bool
same_visibility public public = true
same_visibility counterparties counterparties = true
same_visibility granted granted = true
same_visibility private private = true
same_visibility _ _ = false

abbrev is_module : Option Text → Text → Bool
is_module none id = false
is_module (some m) id = m === id

-- The parties of the record as it exists, or of a first one.
unfoldable pub parties : Option RecordRow → Envelope → List Text
parties none env = env.subject_company_id ∷ env.counterparty_ids
parties (some prev) env = prev.envelope.subject_company_id ∷ prev.envelope.counterparty_ids

abbrev is_identity : Text → Bool
is_identity t = t === codes "core.company" || t === codes "core.module"

-- `v !== undefined` and so on are of the declared type: an option.
abbrev pub body_of : Option RecordRow → Option Members
body_of none = none
body_of (some prev) = some prev.envelope.body

-- What the checks end with: a retry of a stored record, or a record to write after the previous one.
pub data Outcome : Type 0 where
  retry : RecordRow → Outcome
  fresh : Option RecordRow → Outcome

unfoldable pub check_key : Caller → Registered → Envelope → Result WriteError (Unit {0})
check_key p info env = do
  demand (env.key_id === p.key_id) issuer_mismatch
  elim p.principal [
    | company id ↦ do
      refuse (is_some env.module_id) issuer_mismatch
      demand (env.company_id === id) issuer_mismatch
      refuse (info.namespace === codes "core" && not p.is_root) forbidden
    | module_id id ↦ do
      demand (is_module env.module_id id) issuer_mismatch
      demand (includes info.writable_by (codes "module")) forbidden
      refuse (info.namespace === codes "core") forbidden
  ]

unfoldable pub check_kept : Envelope → Envelope → Result WriteError (Unit {0})
unfolding same_set
check_kept prev env = do
  demand (prev.type === env.type) supersedes_conflict
  demand (prev.subject_company_id === env.subject_company_id) supersedes_conflict
  demand (prev.root_id === env.root_id) supersedes_conflict
  demand (same_set prev.counterparty_ids env.counterparty_ids) supersedes_conflict
  demand (same_visibility prev.visibility env.visibility) supersedes_conflict

unfoldable pub check_chain : Option RecordRow → Envelope → Result WriteError (Unit {0})
unfolding check_kept
check_chain none env = ok tt
check_chain (some prev) env = do
  demand prev.is_head supersedes_conflict
  check_kept prev.envelope env

unfoldable pub check_companies : Store → Envelope → Result WriteError (Unit {0})
check_companies s env = do
  demand (includes s.companies env.subject_company_id) not_found
  demand (all (includes s.companies) env.counterparty_ids) not_found

unfoldable pub check_machine :
    Registered → Option RecordRow → Envelope → Result WriteError (Unit {0})
check_machine info prev env =
    elim (check_write info.machine (body_of prev) env.body record {
      issuer_company_id = env.company_id;
      subject_company_id = env.subject_company_id;
      counterparty_ids = env.counterparty_ids;
    }) [ ok _ ↦ ok tt | err e ↦ err (transition e) ]

unfoldable pub check_invariants : Option RecordRow → Envelope → Result WriteError (Unit {0})
check_invariants prev env =
    elim (check_integrity
      record {
        type = env.type;
        record_id = env.record_id;
        issuer_company_id = env.company_id;
        body = env.body;
      }
      (body_of prev)) [ ok _ ↦ ok tt | err e ↦ err (integrity e) ]

unfoldable pub check_binding : Registered → Envelope → Result WriteError (Unit {0})
check_binding info env = do
  refuse (not (is_some env.supersedes) && is_identity env.type) bad_request
  demand
      (info.subject === codes "self" || is_text (get env.body info.subject) env.subject_company_id)
      schema_invalid

module _ (date_time : Text → Option ℤ) where
  unfoldable pub check_grant : Store → Principal → Envelope → ℤ → Result WriteError (Unit {0})
  unfolding caller_grants
  check_grant s (company id) env now = ok tt
  check_grant s (module_id id) env now =
      demand
        (has_grant date_time (caller_grants s (module_id id)) env.company_id env.type write now)
        grant_missing

  unfoldable pub authorize_write :
      Store → Caller → Registered → Envelope → Option RecordRow → ℤ → Result WriteError (Unit {0})
  unfolding check_key parties check_grant
  authorize_write s p info env prev now = do
    check_key p info env
    demand (includes (parties prev env) env.company_id) issuer_not_party
    check_grant s p.principal env now

  unfoldable pub readable : Store → Caller → ℤ → RecordRow → Bool
  unfolding caller_grants
  readable s p now r =
      can_read date_time (visible_row r) (some p.principal) (caller_grants s p.principal) now

  -- The supersession target.
  unfoldable pub find_previous :
      Store → Caller → ℤ → Option Text → Result WriteError (Option RecordRow)
  unfolding fetch_record_row readable
  find_previous s p now none = ok none
  find_previous s p now (some id) = elim (fetch_record_row s id) [
    | none ↦ err not_found
    | some prev ↦ if readable s p now prev then ok (some prev) else err not_found
  ]

  -- The answer when the record's id is taken.
  unfoldable pub check_existing :
      Store → Caller → ℤ → Envelope → RecordRow → Result WriteError Outcome
  unfolding readable
  check_existing s p now env existing = do
    demand (readable s p now existing) not_found
    demand (existing.envelope.payload_hash === env.payload_hash) duplicate_record_id
    ok (retry existing)

  unfoldable pub check_fresh :
      Store → Registered → Envelope → Option RecordRow → Result WriteError Outcome
  unfolding check_chain check_companies check_machine check_invariants
  check_fresh s info env prev = do
    check_chain prev env
    check_companies s env
    check_machine info prev env
    check_invariants prev env
    ok (fresh prev)

  unfoldable pub write_checks :
      Store → Option Caller → Registered → Envelope → ℤ → Result WriteError Outcome
  unfolding check_binding find_previous authorize_write fetch_record_row check_existing check_fresh
  write_checks s caller info env now = do
    check_binding info env
    elim caller [
      | none ↦ err auth_required
      | some p ↦ do
        prev ← find_previous s p now env.supersedes
        authorize_write s p info env prev now
        elim (fetch_record_row s env.record_id) [
          | some existing ↦ check_existing s p now env existing
          | none ↦ check_fresh s info env prev
        ]
    ]
