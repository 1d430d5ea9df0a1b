-- ===== src/Store/Write/Granted.antt =====
-- Whose writes the checks of writeRecord let through, and what a write after a record keeps of it.
use mathlib.Core.List.{Memᴰ}
use direct_trade_protocol.Prelude.{
  ◌≡◌, ◌≢◌, refl, true, false, Option, none, some, Text, ◌===◌, ===_iff, includes, includes-Mem,
  ◌∷◌, ok, >>=-elim, demand-eq-ok, is_some, ◌∙◌, demand-elim, refuse-elim, Option-cases, Bool-cases,
  inl, inr, ap, ok-injective, arith,
}
use mathlib.Core.Path.{subst}
use direct_trade_protocol.Prelude.Int.{ℤ}
use direct_trade_protocol.Store.Authz.{Visibility, Principal, company, module_id}
use direct_trade_protocol.Store.Write.{
  duplicate_record_id, supersedes_conflict, issuer_mismatch, grant_missing, not_found,
  issuer_not_party, Caller, Registered, Envelope, RecordRow, Store, fetch_record_row, caller_grants,
  parties, same_set, same_visibility, check_binding, check_key, check_kept, check_chain,
  check_companies, check_machine, check_invariants, check_grant, authorize_write, readable,
  find_previous, check_existing, check_fresh, write_checks, fresh, is_module,
}
use direct_trade_protocol.Store.Write.Grants.{IsGranted, has_grant-IsGranted}
use direct_trade_protocol.Store.Write.Parties.{SameTexts, same_set-SameTexts}

-- What a superseding envelope keeps.
pub record Follows (prev env : Envelope) : Type 0 where
  pub type : prev.type ≡ env.type
  pub subject : prev.subject_company_id ≡ env.subject_company_id
  pub root : prev.root_id ≡ env.root_id
  pub parties : SameTexts prev.counterparty_ids env.counterparty_ids
  pub visibility : prev.visibility ≡ env.visibility

same_visibility-eq : (v w : Visibility) → same_visibility v w ≡ true → v ≡ w
same_visibility-eq v w h = ground arith

check_kept-Follows : (prev env : Envelope) → check_kept prev env ≡ ok tt → Follows prev env
unfolding check_kept
check_kept-Follows prev env h =
    demand-elim (prev.type === env.type) supersedes_conflict _ h λ type h1.
      demand-elim (prev.subject_company_id === env.subject_company_id) supersedes_conflict _ h1
        λ subject h2. demand-elim (prev.root_id === env.root_id) supersedes_conflict _ h2 λ root h3.
          demand-elim (same_set prev.counterparty_ids env.counterparty_ids) supersedes_conflict _ h3
            λ same visible. record {
              type = (===_iff prev.type env.type).0 type;
              subject = (===_iff prev.subject_company_id env.subject_company_id).0 subject;
              root = (===_iff prev.root_id env.root_id).0 root;
              parties = same_set-SameTexts prev.counterparty_ids env.counterparty_ids same;
              visibility = same_visibility-eq prev.visibility env.visibility (
                  demand-eq-ok (same_visibility prev.visibility env.visibility) supersedes_conflict
                    visible);
            }

-- The issuing company is the subject or a counterparty of the record superseded, or of a first one.
abbrev pub IsParty : Option RecordRow → Envelope → Type 0
IsParty none env = Memᴰ env.company_id (env.subject_company_id ∷ env.counterparty_ids)
IsParty (some prev) env =
    Memᴰ env.company_id (prev.envelope.subject_company_id ∷ prev.envelope.counterparty_ids)

includes-IsParty :
    (prev : Option RecordRow) (env : Envelope)
    → includes (parties prev env) env.company_id ≡ true
    → IsParty prev env
unfolding parties
includes-IsParty none env h =
    includes-Mem (env.subject_company_id ∷ env.counterparty_ids) env.company_id h
includes-IsParty (some prev) env h =
    includes-Mem (prev.envelope.subject_company_id ∷ prev.envelope.counterparty_ids) env.company_id
      h

module _ (date_time : Text → Option ℤ) where
  -- The issuer is the company of the key, or a module with a live write grant of the company.
  pub data ActsFor (s : Store) (env : Envelope) (now : ℤ) : Principal → Type 0 where
    as_company :
        {id : Text} → env.company_id ≡ id → env.module_id ≡ none → ActsFor s env now (company id)
    as_module :
        {id : Text}
        → env.module_id ≡ some id
        → IsGranted date_time s.grants id env.company_id env.type now
        → ActsFor s env now (module_id id)

  -- The record superseded, if any: one that the caller reads, a head, and followed.
  pub data Links (s : Store) (p : Caller) (env : Envelope) (now : ℤ)
      : Option Text → Option RecordRow → Type 0 where
    genesis : Links s p env now none none
    successor :
        {id : Text} {row : RecordRow}
        → fetch_record_row s id ≡ some row
        → readable date_time s p now row ≡ true
        → row.is_head ≡ true
        → Follows row.envelope env
        → Links s p env now (some id) (some row)

  pub record Granted (s : Store) (p : Caller) (env : Envelope) (prev : Option RecordRow) (now : ℤ)
      : Type 0 where
    pub key : env.key_id ≡ p.key_id
    pub party : IsParty prev env
    pub authority : ActsFor s env now p.principal
    pub link : Links s p env now env.supersedes prev

  check_key-key :
      (p : Caller) (info : Registered) (env : Envelope)
      → check_key p info env ≡ ok tt
      → env.key_id ≡ p.key_id
  unfolding check_key
  check_key-key p info env h =
      demand-elim (env.key_id === p.key_id) issuer_mismatch _ h
        λ same _. (===_iff env.key_id p.key_id).0 same

  is_some-false : (o : Option Text) → is_some o ≡ false → o ≡ none
  is_some-false none h = refl
  is_some-false (some t) h = absurd (cc h)

  is_module-eq : (o : Option Text) (id : Text) → is_module o id ≡ true → o ≡ some id
  is_module-eq none id h = absurd (cc h)
  is_module-eq (some m) id h = ap some ((===_iff m id).0 h)

  -- By the kind of the principal, which stands for `p.principal`.
  acts_for :
      (s : Store) (p : Caller) (info : Registered) (env : Envelope) (now : ℤ) (who : Principal)
      → p.principal ≡ who
      → check_key p info env ≡ ok tt
      → check_grant date_time s who env now ≡ ok tt
      → ActsFor s env now who
  unfolding check_key check_grant caller_grants
  acts_for s p info env now (company id) is h grant =
      demand-elim (env.key_id === p.key_id) issuer_mismatch _ h λ _ h1.
        let as_kind = rw is at h1 in
        refuse-elim (is_some env.module_id) issuer_mismatch _ as_kind λ alone h2.
          demand-elim (env.company_id === id) issuer_mismatch _ h2 λ same _.
            as_company ((===_iff env.company_id id).0 same) (is_some-false env.module_id alone)
  acts_for s p info env now (module_id id) is h grant =
      demand-elim (env.key_id === p.key_id) issuer_mismatch _ h λ _ h1.
        let as_kind = rw is at h1 in
        demand-elim (is_module env.module_id id) issuer_mismatch _ as_kind λ same _.
          as_module (is_module-eq env.module_id id same) (
            has_grant-IsGranted date_time s.grants id env.company_id env.type now
              (demand-eq-ok _ grant_missing grant))

  after_row :
      (s : Store) (p : Caller) (env : Envelope) (now : ℤ) (id : Text) (row : RecordRow)
      → fetch_record_row s id ≡ some row
      → readable date_time s p now row ≡ true
      → check_chain (some row) env ≡ ok tt
      → Links s p env now (some id) (some row)
  unfolding check_chain
  after_row s p env now id row found seen h =
      demand-elim row.is_head supersedes_conflict _ h
        λ head kept. successor found seen head (check_kept-Follows row.envelope env kept)

  find_previous-Links :
      (s : Store) (p : Caller) (env : Envelope) (now : ℤ) (o : Option Text)
      (prev : Option RecordRow)
      → find_previous date_time s p now o ≡ ok prev
      → check_chain prev env ≡ ok tt
      → Links s p env now o prev
  unfolding find_previous check_chain
  find_previous-Links s p env now none prev h chain =
      let same = ok-injective h in subst (λ r. Links s p env now none r) same genesis
  find_previous-Links s p env now (some id) prev h chain =
      elim (Option-cases (fetch_record_row s id)) [
        | inl missing ↦ let refused = rw missing at h in absurd (cc refused)
        | inr (row, found) ↦
            let shown = rw found at h in
            elim (Bool-cases (readable date_time s p now row)) [
              | inr hidden ↦ let refused = rw hidden at shown in absurd (cc refused)
              | inl seen ↦
                  let hit = rw seen at shown in
                  let same : some row ≡ prev = ok-injective hit in
                  let checked = ap (λ r. check_chain r env) same ∙ chain in
                  subst (λ r. Links s p env now (some id) r) same
                    (after_row s p env now id row found seen checked)
            ]
      ]

  -- What the checks after authorization end with.
  check_fresh-chain :
      (s : Store) (info : Registered) (env : Envelope) (found prev : Option RecordRow)
      → check_fresh date_time s info env found ≡ ok (fresh prev)
      → (found ≡ prev) × (check_chain found env ≡ ok tt)
  unfolding check_fresh
  check_fresh-chain s info env found prev h = >>=-elim (check_chain found env) _ h λ _ chain h1.
      >>=-elim (check_companies s env) _ h1 λ _ _ h2.
        >>=-elim (check_machine info found env) _ h2 λ _ _ h3.
          >>=-elim (check_invariants found env) _ h3
            λ _ _ h4. let same = ok-injective h4 in (cc same, chain)

  check_existing-retry :
      (s : Store) (p : Caller) (now : ℤ) (env : Envelope) (existing : RecordRow)
      (prev : Option RecordRow)
      → check_existing date_time s p now env existing ≢ ok (fresh prev)
  unfolding check_existing
  check_existing-retry s p now env existing prev h =
      demand-elim (readable date_time s p now existing) not_found _ h λ _ h1.
        demand-elim (existing.envelope.payload_hash === env.payload_hash) duplicate_record_id _ h1
          λ _ h2. let other = ok-injective h2 in cc other

  authorize_write-Granted :
      (s : Store) (p : Caller) (info : Registered) (env : Envelope) (now : ℤ)
      (prev : Option RecordRow)
      → authorize_write date_time s p info env prev now ≡ ok tt
      → Links s p env now env.supersedes prev
      → Granted s p env prev now
  unfolding authorize_write
  authorize_write-Granted s p info env now prev h link =
      >>=-elim (check_key p info env) _ h λ _ key h1.
        demand-elim (includes (parties prev env) env.company_id) issuer_not_party _ h1
          λ party grant. record {
            key = check_key-key p info env key;
            party = includes-IsParty prev env party;
            authority = acts_for s p info env now p.principal refl key grant;
            link = link;
          }

  -- A write that the checks let through is signed by the key of the caller's token; the issuing
  -- company is the subject or a counterparty of the record that it supersedes, or of the first record
  -- itself; the caller is that company, or a module to which the company gives an active grant with a
  -- scope that writes the type and with no time of expiry that has come; and the record superseded is
  -- a head that the caller may read, of the same type, subject, root and visibility. It has as many
  -- counterparties as the write, all of the write's are among them, and they are all among the
  -- write's unless the write names one twice.
  pub write_checks-Granted :
      (s : Store) (p : Caller) (info : Registered) (env : Envelope) (now : ℤ)
      (prev : Option RecordRow)
      → write_checks date_time s (some p) info env now ≡ ok (fresh prev)
      → Granted s p env prev now
  unfolding write_checks authorize_write check_fresh
  write_checks-Granted s p info env now prev h = >>=-elim (check_binding info env) _ h λ _ _ h1.
      >>=-elim (find_previous date_time s p now env.supersedes) _ h1 λ found looked h2.
        >>=-elim (authorize_write date_time s p info env found now) _ h2 λ _ allowed h3.
          elim (Option-cases (fetch_record_row s env.record_id)) [
            | inr (existing, taken) ↦
                let answered = rw taken at h3 in
                absurd (check_existing-retry s p now env existing prev answered)
            | inl free ↦
                let checked = rw free at h3 in
                let (same, chain) = check_fresh-chain s info env found prev checked in
                subst (λ r. Granted s p env r now) same
                  (authorize_write-Granted s p info env now found allowed
                    (find_previous-Links s p env now env.supersedes found looked chain))
          ]
