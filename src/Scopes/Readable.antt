-- ===== src/Scopes/Readable.antt =====
-- The union of the readable scopes decides reading as the grants do.
use direct_trade_protocol.Prelude.{
  ◌≡◌, refl, Bool, true, ◌||◌, Option, List, [], ◌∷◌, ◌++◌, map, any, arith, Text, inl, inr,
  Bool-cases,
}
use direct_trade_protocol.Prelude.Int.{ℤ}
use direct_trade_protocol.Scopes.{
  read, write, Scope, GrantLike, scope_covers, is_grant_live, grant_covers, as_read,
  readable_scopes,
}

any-append : (p : Scope → Bool) (xs ys : List Scope) → any p (xs ++ ys) ≡ (any p xs || any p ys)
any-append p [] ys = refl
any-append p (x ∷ xs) ys = ground (arith, any-append p xs ys)

-- A scope that covers writing a type covers reading it.
scope_covers-write :
    (s : Scope) (type : Text) → scope_covers s type write ≡ true → scope_covers s type read ≡ true
unfolding scope_covers
scope_covers-write s type h = ground arith

scope_covers-as_read :
    (s : Scope) (type : Text) → scope_covers (as_read s) type read ≡ scope_covers s type read
unfolding scope_covers
scope_covers-as_read s type = ground arith

any-as_read :
    (type : Text) (scopes : List Scope)
    → any (λ s. scope_covers s type read) (map as_read scopes)
      ≡ any (λ s. scope_covers s type read) scopes
any-as_read type [] = refl
any-as_read type (s ∷ scopes) = rw (scope_covers-as_read s type, any-as_read type scopes)

module _ (date_time : Text → Option ℤ) where
  -- A type is readable under one of the scopes that `readableScopes` collects exactly when one of the
  -- grants covers reading it: the union drops no live grant, and takes nothing from an expired or
  -- revoked one.
  pub readable_scopes-cover :
      (gs : List GrantLike) (type : Text) (now : ℤ)
      → any (λ s. scope_covers s type read) (readable_scopes date_time gs now)
        ≡ any (λ g. grant_covers date_time g type read now) gs
  unfolding readable_scopes grant_covers
  readable_scopes-cover [] type now = refl
  readable_scopes-cover (g ∷ gs) type now = elim (Bool-cases (is_grant_live date_time g now)) [
    | inl live ↦ rw (
      live,
      any-append (λ s. scope_covers s type read) (map as_read g.scopes)
          (readable_scopes date_time gs now),
      any-as_read type g.scopes,
      readable_scopes-cover gs type now,
    )
    | inr dead ↦ rw (dead, readable_scopes-cover gs type now)
  ]
