-- ===== src/Scopes.antt =====
-- sdk/src/scopes.ts, and `namespaceOf` of sdk/src/envelope.ts: what a grant lets a module read or write.
pub mod Readable
mod Tests
use direct_trade_protocol.Prelude.{
  ℕ, Bool, true, false, not, ◌&&◌, ◌||◌, Option, none, some, List, [], ◌∷◌, ◌++◌, map, any, ◌==◌,
  if◌then◌else◌, Text, codes, ◌===◌,
}
use direct_trade_protocol.Prelude.Int.{ℤ, ltb_ℤ}

pub data Access : Type 0 where
  read write : Access

abbrev pub same_access : Access → Access → Bool
same_access read read = true
same_access write write = true
same_access _ _ = false

pub record Scope : Type 0 where
  pub namespace : Option Text
  pub type : Option Text
  pub access : Access

pub data GrantStatus : Type 0 where
  active revoked : GrantStatus

pub record GrantLike : Type 0 where
  pub scopes : List Scope
  pub status : GrantStatus
  pub expires_at : Option Text

-- The part of a type's name before its first full stop.
unfoldable pub namespace_of : Text → Text
namespace_of [] = []
namespace_of (c ∷ s) = if c == b'.' then [] else c ∷ namespace_of s

-- A text that is there and not empty: what JavaScript takes for true.
abbrev pub truthy : Option Text → Option Text
truthy none = none
truthy (some []) = none
truthy (some (c ∷ s)) = some (c ∷ s)

abbrev pub access_ok : Access → Access → Bool
access_ok granted wanted = same_access granted write || same_access granted wanted

unfoldable pub namespace_covers : Option Text → Text → Bool
unfolding namespace_of
namespace_covers none type = false
namespace_covers (some n) type = n === codes "*" || n === namespace_of type

unfoldable pub target_covers : Option Text → Option Text → Text → Bool
unfolding namespace_covers
target_covers (some t) namespace type = t === type
target_covers none namespace type = namespace_covers namespace type

unfoldable pub scope_covers : Scope → Text → Access → Bool
unfolding target_covers
scope_covers s type access =
    access_ok s.access access && target_covers (truthy s.type) (truthy s.namespace) type

abbrev pub is_active : GrantStatus → Bool
is_active active = true
is_active revoked = false

abbrev pub as_read : Scope → Scope
as_read s = record s { access = read }

-- `date_time` is `new Date(text).getTime()`, `none` for NaN.
module _ (date_time : Text → Option ℤ) where
  -- `new Date(expires_at).getTime() <= now`; a comparison with NaN is false.
  unfoldable pub expired : Option Text → ℤ → Bool
  expired none now = false
  expired (some t) now = elim (date_time t) [ none ↦ false | some at ↦ not (ltb_ℤ now at) ]

  unfoldable pub is_grant_live : GrantLike → ℤ → Bool
  unfolding expired
  is_grant_live g now = is_active g.status && not (expired (truthy g.expires_at) now)

  unfoldable pub grant_covers : GrantLike → Text → Access → ℤ → Bool
  unfolding is_grant_live scope_covers
  grant_covers g type access now =
      is_grant_live g now && any (λ s. scope_covers s type access) g.scopes

  unfoldable pub readable_scopes : List GrantLike → ℤ → List Scope
  unfolding is_grant_live
  readable_scopes [] now = []
  readable_scopes (g ∷ gs) now =
      let rest = readable_scopes gs now in
      if is_grant_live g now then map as_read g.scopes ++ rest else rest
