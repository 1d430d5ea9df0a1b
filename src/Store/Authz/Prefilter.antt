-- ===== src/Store/Authz/Prefilter.antt =====
-- The SQL condition admits exactly the rows that `canRead` admits.
use direct_trade_protocol.Prelude.{
  ◌≡◌, refl, ap, Bool, true, false, not, ◌&&◌, ◌||◌, Option, none, some, List, [], ◌∷◌, map, any,
  arith, Text, codes, ◌===◌, ===_sym, includes, inl, inr, Bool-cases,
}
use direct_trade_protocol.Prelude.Int.{ℤ}
use direct_trade_protocol.Scopes.{
  Access, read, write, Scope, namespace_of, truthy, access_ok, namespace_covers, target_covers,
  scope_covers, grant_covers, is_grant_live,
}
use direct_trade_protocol.Store.Authz.{
  GrantRow, Principal, company, module_id, Row, is_counterparties, is_public, is_private, names,
  grantors, has_grant, can_read, Clause, holds, any_of, is_public_row, grant_names,
  namespace_clause, target_clause, scope_clause, grant_clause, grant_clauses, read_prefilter,
}

holds-any_of : (cs : List Clause) (r : Row) → holds (any_of cs) r ≡ any (λ c. holds c r) cs
unfolding any_of holds
holds-any_of [] r = refl
holds-any_of (c ∷ []) r = ground arith
holds-any_of (c ∷ d ∷ cs) r = ap (λ (b : Bool). holds c r || b) (holds-any_of (d ∷ cs) r)

includes-any :
    (l : List Text) (id : Text) (covered : Bool)
    → any (λ c. id === c && covered) l ≡ (includes l id && covered)
unfolding includes
includes-any [] id covered = refl
includes-any (c ∷ l) id covered = ground (arith, includes-any l id covered, ===_sym id c)

or_assoc : (a b c : Bool) → (a || (b || c)) ≡ ((a || b) || c)
or_assoc a b c = ground arith

module _ (r : Row) (own_namespace : r.namespace ≡ namespace_of r.type) where
  holds-namespace : (n : Option Text) → holds (namespace_clause n) r ≡ namespace_covers n r.type
  unfolding holds namespace_covers
  holds-namespace none = refl
  holds-namespace (some n) = elim (Bool-cases (n === codes "*")) [
    | inl star ↦ rw star
    | inr plain ↦ rw (plain, own_namespace) (===_sym (namespace_of r.type) n)
  ]

  holds-target : (t n : Option Text) → holds (target_clause t n) r ≡ target_covers t n r.type
  unfolding holds target_covers
  holds-target none n = holds-namespace n
  holds-target (some t) n = ===_sym r.type t

  any_access_reads : (a : Access) → access_ok a read ≡ true
  any_access_reads read = refl
  any_access_reads write = refl

  holds-scope : (s : Scope) → holds (scope_clause s) r ≡ scope_covers s r.type read
  unfolding scope_clause scope_covers
  holds-scope s = rw any_access_reads (holds-target (truthy s.type) (truthy s.namespace))

  holds-scopes :
      (ss : List Scope)
      → any (λ c. holds c r) (map scope_clause ss) ≡ any (λ s. scope_covers s r.type read) ss
  holds-scopes [] = refl
  holds-scopes (s ∷ ss) = rw (holds-scope s, holds-scopes ss)

  module _ (date_time : Text → Option ℤ) (now : ℤ) where
    covers : GrantRow → Bool
    covers g = grant_covers date_time g.grant r.type read now

    party : Text → Bool
    party id =
        r.subject_company_id === id
        || (is_counterparties r.visibility && includes r.counterparty_ids id)

    grantors-any :
        (id : Text) (covered : Bool)
        → any (λ c. id === c && covered) (grantors r) ≡ (party id && covered)
    unfolding grantors party includes
    grantors-any id covered = elim (Bool-cases (is_counterparties r.visibility)) [
      | inl shown ↦
          rw (shown, includes-any r.counterparty_ids id covered)
            (ground (arith, ===_sym r.subject_company_id id))
      | inr hidden ↦ rw hidden (ground (arith, ===_sym r.subject_company_id id))
    ]

    has_grant-cons :
        (g : GrantRow) (gs : List GrantRow) (cs : List Text)
        → any (λ c. has_grant date_time (g ∷ gs) c r.type read now) cs ≡ (
            any (λ c. g.grantor_company_id === c && covers g) cs
            || any (λ c. has_grant date_time gs c r.type read now) cs)
    unfolding has_grant covers
    has_grant-cons g gs [] = refl
    has_grant-cons g gs (c ∷ cs) = ground (arith, has_grant-cons g gs cs)

    no_grant : (cs : List Text) → any (λ c. has_grant date_time [] c r.type read now) cs ≡ false
    unfolding has_grant
    no_grant [] = refl
    no_grant (c ∷ cs) = no_grant cs

    company_covered : GrantRow → Bool
    company_covered g = party g.grantor_company_id && covers g

    covered : List GrantRow → Bool
    covered gs = any (λ c. has_grant date_time gs c r.type read now) (grantors r)

    covered-cons :
        (g : GrantRow) (gs : List GrantRow) → covered (g ∷ gs) ≡ (company_covered g || covered gs)
    unfolding covered company_covered
    covered-cons g gs =
        rw (has_grant-cons g gs (grantors r), grantors-any g.grantor_company_id (covers g))

    holds-grant_clause :
        (id : Text) (ss : List Scope)
        → holds (grant_clause id ss) r ≡ (
            not (is_private r.visibility) && (any (λ s. scope_covers s r.type read) ss && party id))
    unfolding holds grant_clause party
    holds-grant_clause id ss = rw (holds-any_of (map scope_clause ss) r, holds-scopes ss)

    scopes-clauses :
        (id : Text) (ss : List Scope) (rest : List Clause)
        → any
            (λ c. holds c r)
            (elim ss [ [] ↦ rest | s ∷ more ↦ grant_clause id (s ∷ more) ∷ rest ])
          ≡ ((not (is_private r.visibility)
                && (any (λ s. scope_covers s r.type read) ss && party id))
              || any (λ c. holds c r) rest)
    scopes-clauses id [] rest = ground arith
    scopes-clauses id (s ∷ ss) rest =
        ap (λ (b : Bool). b || any (λ c. holds c r) rest) (holds-grant_clause id (s ∷ ss))

    company_covered-live :
        (g : GrantRow)
        → is_grant_live date_time g.grant now ≡ true
        → company_covered g
          ≡ (any (λ s. scope_covers s r.type read) g.grant.scopes && party g.grantor_company_id)
    unfolding company_covered covers grant_covers
    company_covered-live g live = rw live (ground arith)

    company_covered-dead :
        (g : GrantRow) → is_grant_live date_time g.grant now ≡ false → company_covered g ≡ false
    unfolding company_covered covers grant_covers
    company_covered-dead g dead = rw dead (ground arith)

    covered-nil : covered [] ≡ false
    unfolding covered
    covered-nil = no_grant (grantors r)

    holds-grant_clauses :
        (gs : List GrantRow)
        → any (λ c. holds c r) (grant_clauses date_time gs now)
          ≡ (not (is_private r.visibility) && covered gs)
    unfolding grant_clauses
    holds-grant_clauses [] = rw covered-nil (ground arith)
    holds-grant_clauses (g ∷ gs) = elim (Bool-cases (is_grant_live date_time g.grant now)) [
      | inl live ↦
          rw
            (
              live,
              covered-cons g gs,
              scopes-clauses g.grantor_company_id g.grant.scopes (grant_clauses date_time gs now),
              company_covered-live g live,
              holds-grant_clauses gs,
            )
            (ground arith)
      | inr dead ↦ rw (dead, covered-cons g gs, company_covered-dead g dead, holds-grant_clauses gs)
    ]

    -- For a row whose `namespace` column is the part of its type before the first full stop, the
    -- condition that `readPrefilter` puts into the query holds of the row exactly when `canRead` lets
    -- the principal read it, for no principal, a company and a module, with any grants and at any time.
    pub read_prefilter-can_read :
        (principal : Option Principal) (grants : List GrantRow)
        → holds (read_prefilter date_time principal grants now) r
          ≡ can_read date_time r principal grants now
    unfolding read_prefilter can_read holds covered
    read_prefilter-can_read none grants = refl
    read_prefilter-can_read (some (company id)) grants = ground arith
    read_prefilter-can_read (some (module_id id)) grants =
        rw
          (
            holds-any_of (is_public_row ∷ grant_names id ∷ grant_clauses date_time grants now) r,
            holds-grant_clauses grants,
          )
          (or_assoc (is_public r.visibility)
            (r.type === codes "core.grant" && names r.body_module id)
            (not (is_private r.visibility) && covered grants))
