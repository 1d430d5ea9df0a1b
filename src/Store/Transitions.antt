-- ===== src/Store/Transitions.antt =====
-- supabase/functions/dtp-store/transitions.ts: role continuity and the status machines, read from a
-- type's x-dtp keywords, and their use on a write by handlers/records.ts. An error keeps which
-- `throw` it is, without its message.
pub mod Roles
pub mod Status
pub mod Frozen
pub mod Outsiders
mod Tests
use direct_trade_protocol.Prelude.{
  Bool, true, false, not, ◌&&◌, ◌||◌, Option, none, some, List, [], ◌∷◌, ◌++◌, any, keep, Text,
  codes, ◌===◌, includes, Result, ok, err, ◌>>=◌, ◌>>◌, demand, refuse, if◌then◌else◌,
}
use direct_trade_protocol.Canonical.{
  Json, null, undefined, bool, num, str, Members, end, member, CanonicalError, canonicalize,
}
use direct_trade_protocol.Prelude.Int.{ℤ, is_zero, ◌-ℤ◌}

pub record Transition : Type 0 where
  pub from : Text
  pub to : Text
  pub by : List Text

pub record Transitions : Type 0 where
  pub status_field : Option Text
  pub initial_status : List Text
  pub initial_by : List Text
  pub transitions : List Transition

-- What these functions read of a `TypeInfo`, its schema's keywords included.
pub record TypeInfo : Type 0 where
  pub transitions : Option Transitions
  pub roles : List (Text × Text)
  pub third_party_roles : List Text
  pub append_only : Bool
  pub lock_after_statuses : Option (List Text)
  pub immutable_fields : List Text
  pub revision_by : Option (List Text)

pub record PartyContext : Type 0 where
  pub issuer_company_id : Text
  pub subject_company_id : Text
  pub counterparty_ids : List Text

pub data TransitionError : Type 0 where
  not_third_party role_changed append_only_type immutable_field not_subject : TransitionError
  wrong_creator wrong_start wrong_mover wrong_reviser no_transition : TransitionError
  not_canonical : CanonicalError → TransitionError

-- `body[field]`
unfoldable pub get : Members → Text → Json
get end field = undefined
get (member k v m) field = if k === field then v else get m field

-- `v ?? null`
abbrev pub or_null : Json → Json
or_null undefined = null
or_null v = v

-- `v === text`
unfoldable pub is_text : Json → Text → Bool
is_text (str s) t = s === t
is_text v t = false

abbrev pub same_bool : Bool → Bool → Bool
same_bool true b = b
same_bool false b = not b

-- `v === w`. The arrays and objects of two bodies are different objects, and a body holds no
-- fractional number, since it has passed `assertNoFloats`.
unfoldable pub same_value : Json → Json → Bool
same_value null null = true
same_value undefined undefined = true
same_value (bool a) (bool b) = same_bool a b
same_value (num a) (num b) = is_zero (a -ℤ b)
same_value (str s) (str t) = s === t
same_value _ _ = false

abbrev pub is_null : Json → Bool
is_null null = true
is_null _ = false

-- `parties.has(v)`
unfoldable pub names_one : List Text → Json → Bool
names_one parties (str s) = includes parties s
names_one parties v = false

abbrev pub when : Bool → Text → List Text
when true role = role ∷ []
when false role = []

unfoldable pub held_roles : List (Text × Text) → Members → Text → List Text
unfolding get is_text
held_roles [] body issuer = []
held_roles ((role, field) ∷ entries) body issuer =
    when (is_text (get body field) issuer) role ++ held_roles entries body issuer

-- A Set, of which only membership is used.
unfoldable pub roles_of : TypeInfo → Members → PartyContext → List Text
unfolding held_roles
roles_of info body party =
    codes "any" ∷ when (party.issuer_company_id === party.subject_company_id) (codes "subject")
    ++ when (includes party.counterparty_ids party.issuer_company_id) (codes "counterparty")
    ++ held_roles info.roles body party.issuer_company_id

abbrev pub text_of : Json → Option Text
text_of (str s) = some s
text_of _ = none

-- `null` and '' are both falsy.
abbrev pub status_at : Option Text → Members → Option Text
status_at none body = none
status_at (some []) body = none
status_at (some (c ∷ field)) body = text_of (get body (c ∷ field))

unfoldable pub status_of : TypeInfo → Members → Option Text
status_of info body = elim info.transitions [ none ↦ none | some t ↦ status_at t.status_field body ]

abbrev pub parties_of : PartyContext → List Text
parties_of party = party.subject_company_id ∷ party.counterparty_ids

-- The value of a role's field is another one, and no appointment of a third party.
unfoldable pub changed_role : Bool → Option Members → Text → Json → Bool
unfolding get same_value
changed_role third none field next = false
changed_role third (some prev) field next =
    not (same_value (or_null (get prev field)) next)
    && not (is_null (or_null (get prev field)) && third)

-- One turn of the loop over the roles.
unfoldable pub check_role :
    TypeInfo
    → Option Members
    → Members
    → PartyContext
    → Text
    → Text
    → Result TransitionError (Unit {0})
unfolding changed_role names_one
check_role info prev new party role field = do
  refuse
      (includes info.third_party_roles role
        && names_one (parties_of party) (or_null (get new field)))
      not_third_party
  refuse (changed_role (includes info.third_party_roles role) prev field (or_null (get new field)))
      role_changed

unfoldable pub check_roles :
    TypeInfo
    → Option Members
    → Members
    → PartyContext
    → List (Text × Text)
    → Result TransitionError (Unit {0})
unfolding check_role
check_roles info prev new party [] = ok tt
check_roles info prev new party ((role, field) ∷ entries) = do
  check_role info prev new party role field
  check_roles info prev new party entries

unfoldable pub check_role_continuity :
    TypeInfo → Option Members → Members → PartyContext → Result TransitionError (Unit {0})
unfolding check_roles
check_role_continuity info prev new party = check_roles info prev new party info.roles

unfoldable pub canonical : Json → Result TransitionError Text
canonical v = elim (canonicalize v) [ ok t ↦ ok t | err e ↦ err (not_canonical e) ]

unfoldable pub check_frozen : List Text → Members → Members → Result TransitionError (Unit {0})
unfolding canonical
check_frozen [] prev new = ok tt
check_frozen (field ∷ fields) prev new = do
  a ← canonical (or_null (get prev field))
  b ← canonical (or_null (get new field))
  demand (a === b) immutable_field
  check_frozen fields prev new

-- `String(status)`
abbrev pub status_text : Option Text → Text
status_text none = codes "null"
status_text (some s) = s

abbrev pub is_locked : Option (List Text) → Option Text → Bool
is_locked none status = true
is_locked (some after) status = includes after (status_text status)

unfoldable pub check_lock : TypeInfo → Members → Members → Result TransitionError (Unit {0})
unfolding check_frozen
check_lock info prev new = do
  refuse info.append_only append_only_type
  if is_locked info.lock_after_statuses (status_of info prev)
      then check_frozen info.immutable_fields prev new
      else ok tt

unfoldable pub allowed : List Text → List Text → Bool
allowed by roles = any (λ r. includes roles r) by

-- `status === text`
abbrev pub is_status : Option Text → Text → Bool
is_status none t = false
is_status (some s) t = t === s

abbrev pub same_status : Option Text → Option Text → Bool
same_status none none = true
same_status (some s) (some t) = s === t
same_status _ _ = false

unfoldable pub is_move : Option Text → Option Text → Transition → Bool
is_move prev next tr = is_status prev tr.from && is_status next tr.to

abbrev pub is_set : Option Text → Bool
is_set none = false
is_set (some []) = false
is_set (some (c ∷ s)) = true

abbrev pub some_of : {A : Type 0} → List A → Bool
some_of [] = false
some_of (x ∷ xs) = true

abbrev pub starts : List Text → Option Text → Bool
starts initial none = false
starts initial (some s) = includes initial s

unfoldable pub check_genesis :
    Transitions → Option Text → List Text → Result TransitionError (Unit {0})
unfolding allowed
check_genesis t next roles = do
  demand (allowed t.initial_by roles) wrong_creator
  refuse (is_set t.status_field && some_of t.initial_status && not (starts t.initial_status next))
      wrong_start

abbrev pub revisers : Option (List Text) → List Text
revisers none = codes "subject" ∷ []
revisers (some by) = by

unfoldable pub check_revision :
    TypeInfo → Option Text → Option Text → List Text → Result TransitionError (Unit {0})
unfolding allowed
check_revision info prev next roles =
    if same_status prev next
    then demand (allowed (revisers info.revision_by) roles) wrong_reviser
    else err no_transition

unfoldable pub check_move :
    TypeInfo
    → List Transition
    → Option Text
    → Option Text
    → List Text
    → Result TransitionError (Unit {0})
unfolding check_revision is_move
check_move info moves prev next roles =
    let found = keep (is_move prev next) moves in
    if some_of found
    then demand (any (λ (tr : Transition). allowed tr.by roles) found) wrong_mover
    else check_revision info prev next roles

unfoldable pub check_supersede :
    TypeInfo → Transitions → Members → Members → List Text → Result TransitionError (Unit {0})
unfolding check_move
check_supersede info t prev new roles =
    if is_set t.status_field
    then check_move info t.transitions (status_of info prev) (status_of info new) roles
    else demand (includes roles (codes "subject")) not_subject

unfoldable pub check_start :
    Option Transitions → Option Text → List Text → Result TransitionError (Unit {0})
unfolding check_genesis
check_start none next roles = ok tt
check_start (some t) next roles = check_genesis t next roles

unfoldable pub check_transition :
    TypeInfo → Option Members → Members → List Text → Result TransitionError (Unit {0})
unfolding check_lock check_start check_supersede
check_transition info none new roles = check_start info.transitions (status_of info new) roles
check_transition info (some prev) new roles = do
  check_lock info prev new
  elim info.transitions [
    | none ↦ demand (includes roles (codes "subject")) not_subject
    | some t ↦ check_supersede info t prev new roles
  ]

abbrev pub roles_source : Option Members → Members → Members
roles_source none new = new
roles_source (some prev) new = prev

-- The roles are those of the record being superseded, and of the written one for a genesis.
unfoldable pub check_write :
    TypeInfo → Option Members → Members → PartyContext → Result TransitionError (Unit {0})
unfolding check_role_continuity check_transition roles_of
check_write info prev new party = do
  check_role_continuity info prev new party
  check_transition info prev new (roles_of info (roles_source prev new) party)
