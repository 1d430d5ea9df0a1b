-- ===== src/Store/Authz.antt =====
-- supabase/functions/dtp-store/authz.ts: the reader model, and the SQL condition that filters rows
-- before a limit is applied. The condition is modelled as a tree in place of its text.
pub mod Prefilter
mod Tests
use direct_trade_protocol.Prelude.{
  ℕ, Bool, true, false, not, ◌&&◌, ◌||◌, Option, none, some, List, [], ◌∷◌, ◌++◌, map, any, keep,
  if◌then◌else◌, Text, codes, ◌===◌, includes,
}
use direct_trade_protocol.Prelude.Int.{ℤ}
use direct_trade_protocol.Scopes.{
  Access, read, write, Scope, GrantStatus, GrantLike, grant_covers, is_grant_live, truthy,
}

pub record GrantRow : Type 0 where
  pub grantor_company_id : Text
  pub grant : GrantLike

pub data Visibility : Type 0 where
  public counterparties granted private : Visibility

pub data Principal : Type 0 where
  company module_id : (id : Text) → Principal

-- `body_module` is `row.body?.module_id`; `namespace` is a column of the row's table.
pub record Row : Type 0 where
  pub visibility : Visibility
  pub subject_company_id : Text
  pub counterparty_ids : List Text
  pub type : Text
  pub namespace : Text
  pub body_module : Option Text

abbrev pub is_counterparties : Visibility → Bool
is_counterparties counterparties = true
is_counterparties _ = false

abbrev pub is_public : Visibility → Bool
is_public public = true
is_public _ = false

abbrev pub is_private : Visibility → Bool
is_private private = true
is_private _ = false

unfoldable pub names : Option Text → Text → Bool
names none id = false
names (some m) id = m === id

unfoldable pub grantors : Row → List Text
grantors r =
    r.subject_company_id ∷ (if is_counterparties r.visibility then r.counterparty_ids else [])

module _ (date_time : Text → Option ℤ) where
  unfoldable pub has_grant : List GrantRow → Text → Text → Access → ℤ → Bool
  has_grant grants id type access now =
      any (λ g. g.grantor_company_id === id && grant_covers date_time g.grant type access now)
        grants

  unfoldable pub can_read : Row → Option Principal → List GrantRow → ℤ → Bool
  unfolding has_grant grantors names
  can_read r none grants now = is_public r.visibility
  can_read r (some (company id)) grants now =
      is_public r.visibility
      || r.subject_company_id === id
      || (is_counterparties r.visibility && includes r.counterparty_ids id)
  can_read r (some (module_id id)) grants now =
      is_public r.visibility
      || (r.type === codes "core.grant" && names r.body_module id)
      || (not (is_private r.visibility)
          && any (λ c. has_grant grants c r.type read now) (grantors r))

-- The conditions that `readPrefilter` writes.
pub data Clause : Type 0 where
  is_public_row : Clause
  subject_is counterparty_is grant_names : Text → Clause
  of_type of_namespace : Text → Clause
  always never not_private when_counterparties : Clause
  both either : Clause → Clause → Clause

-- What the database answers for a row.
unfoldable pub holds : Clause → Row → Bool
unfolding names
holds is_public_row r = is_public r.visibility
holds (subject_is id) r = r.subject_company_id === id
holds (counterparty_is id) r = includes r.counterparty_ids id
holds (grant_names id) r = r.type === codes "core.grant" && names r.body_module id
holds (of_type t) r = r.type === t
holds (of_namespace n) r = r.namespace === n
holds always r = true
holds never r = false
holds not_private r = not (is_private r.visibility)
holds when_counterparties r = is_counterparties r.visibility
holds (both a b) r = holds a r && holds b r
holds (either a b) r = holds a r || holds b r

-- `clauses.join(' or ')`
unfoldable pub any_of : List Clause → Clause
any_of [] = never
any_of (c ∷ []) = c
any_of (c ∷ d ∷ cs) = either c (any_of (d ∷ cs))

abbrev namespace_clause : Option Text → Clause
namespace_clause none = never
namespace_clause (some n) = if n === codes "*" then always else of_namespace n

abbrev target_clause : Option Text → Option Text → Clause
target_clause (some t) namespace = of_type t
target_clause none namespace = namespace_clause namespace

unfoldable pub scope_clause : Scope → Clause
scope_clause s = target_clause (truthy s.type) (truthy s.namespace)

unfoldable pub grant_clause : Text → List Scope → Clause
unfolding any_of scope_clause
grant_clause id scopes = both not_private (
    both (any_of (map scope_clause scopes))
      (either (subject_is id) (both when_counterparties (counterparty_is id))))

module _ (date_time : Text → Option ℤ) where
  -- The loop over the grants; every `Access` is read or write, so the filter keeps all scopes.
  unfoldable pub grant_clauses : List GrantRow → ℤ → List Clause
  unfolding grant_clause
  grant_clauses [] now = []
  grant_clauses (g ∷ gs) now =
      let rest = grant_clauses gs now in
      if not (is_grant_live date_time g.grant now) then rest else elim g.grant.scopes [
        | [] ↦ rest
        | s ∷ ss ↦ grant_clause g.grantor_company_id (s ∷ ss) ∷ rest
      ]

  unfoldable pub read_prefilter : Option Principal → List GrantRow → ℤ → Clause
  unfolding grant_clauses
  read_prefilter none grants now = is_public_row
  read_prefilter (some (company id)) grants now =
      either is_public_row (either (subject_is id) (both when_counterparties (counterparty_is id)))
  read_prefilter (some (module_id id)) grants now =
      any_of (is_public_row ∷ grant_names id ∷ grant_clauses grants now)
