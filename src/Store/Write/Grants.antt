-- ===== src/Store/Write/Grants.antt =====
-- What a live write grant is, in terms of the table of grants.
use mathlib.Core.List.{Memᴰ}
use mathlib.Core.List.Memᴰ.{head, tail}
use direct_trade_protocol.Prelude.{
  ◌≡◌, refl, ap, ◌∙◌, Bool, true, false, not, ◌||◌, Option, none, some, List, [], ◌∷◌, any, arith,
  Text, codes, ◌===◌, ===_iff, Bool-cases, Option-cases, ◌⊎◌, inl, inr, and-true,
}
use direct_trade_protocol.Prelude.Int.{ℤ, ltb_ℤ}
use direct_trade_protocol.Scopes.{
  Access, read, write, Scope, GrantStatus, is_active, active, revoked, GrantLike, namespace_of,
  truthy, access_ok, namespace_covers, target_covers, scope_covers, expired, is_grant_live,
  grant_covers,
}
use direct_trade_protocol.Store.Authz.{GrantRow, has_grant}
use direct_trade_protocol.Store.Write.{grants_of}

-- The scope names the type or, naming none, its namespace or every namespace.
pub data Names (scope : Scope) (type : Text) : Type 0 where
  by_type : truthy scope.type ≡ some type → Names scope type
  by_namespace :
      (n : Text)
      → truthy scope.type ≡ none
      → truthy scope.namespace ≡ some n
      → (n ≡ codes "*") ⊎ (n ≡ namespace_of type)
      → Names scope type

any-Mem {ℓ} :
    {A : Type ℓ} (p : A → Bool) (l : List A) → any p l ≡ true → (a : A) × Memᴰ a l × (p a ≡ true)
any-Mem p [] h = absurd (cc h)
any-Mem p (a ∷ l) h = elim (Bool-cases (p a)) [
  | inl fits ↦ (a, head refl, fits)
  | inr unfit ↦ let (b, place, fits) = any-Mem p l (rw unfit at h) in (b, tail place, fits)
]

grants_of-listed :
    (gs : List (Text × GrantRow)) (id : Text) (g : GrantRow)
    → Memᴰ g (grants_of gs id)
    → Memᴰ (id, g) gs
grants_of-listed [] id g m = elim m [ ]
grants_of-listed ((grantee, row) ∷ gs) id g m = elim (Bool-cases (grantee === id)) [
  | inr other ↦ tail (grants_of-listed gs id g (rw other at m))
  | inl same ↦
      let its : Memᴰ g (row ∷ grants_of gs id) = rw same at m in
      elim its [
        | head e ↦ let is : grantee ≡ id = (===_iff grantee id).0 same in head (cc (e, is))
        | tail n ↦ tail (grants_of-listed gs id g n)
      ]
]

not-true : (b : Bool) → not b ≡ true → b ≡ false
not-true b h = ground arith

not-false : (b : Bool) → not b ≡ false → b ≡ true
not-false b h = ground arith

is_active-eq : (status : GrantStatus) → is_active status ≡ true → status ≡ active
is_active-eq active h = refl
is_active-eq revoked h = absurd (cc h)

access_ok-eq : (a : Access) → access_ok a write ≡ true → a ≡ write
access_ok-eq write h = refl
access_ok-eq read h = absurd (cc h)

either_true : (a b : Bool) → (a || b) ≡ true → (a ≡ true) ⊎ (b ≡ true)
either_true true b h = inl refl
either_true false b h = inr h

-- By what the scope names, which stands for the two options.
target_covers-Names :
    (s : Scope) (type : Text) (t n : Option Text)
    → truthy s.type ≡ t
    → truthy s.namespace ≡ n
    → target_covers t n type ≡ true
    → Names s type
unfolding target_covers namespace_covers
target_covers-Names s type (some t) n is in_space h = by_type (is ∙ ap some ((===_iff t type).0 h))
target_covers-Names s type none none is in_space h = absurd (cc h)
target_covers-Names s type none (some n) is in_space h =
    by_namespace n is in_space (elim (either_true (n === codes "*") (n === namespace_of type) h) [
      | inl star ↦ inl ((===_iff n (codes "*")).0 star)
      | inr same ↦ inr ((===_iff n (namespace_of type)).0 same)
    ])

scope_covers-Names :
    (s : Scope) (type : Text) → scope_covers s type write ≡ true → (s.access ≡ write) × Names s type
unfolding scope_covers
scope_covers-Names s type h =
    let (writes, named) =
      and-true (access_ok s.access write) (target_covers (truthy s.type) (truthy s.namespace) type)
        h in
    (
      access_ok-eq s.access writes,
      target_covers-Names s type (truthy s.type) (truthy s.namespace) refl refl named,
    )

module _ (date_time : Text → Option ℤ) where
  -- No time is set, or it does not read as a time, or it is after `now`.
  pub data Unexpired (g : GrantLike) (now : ℤ) : Type 0 where
    untimed : truthy g.expires_at ≡ none → Unexpired g now
    unread : (t : Text) → truthy g.expires_at ≡ some t → date_time t ≡ none → Unexpired g now
    before :
        (t : Text) (at : ℤ)
        → truthy g.expires_at ≡ some t
        → date_time t ≡ some at
        → ltb_ℤ now at ≡ true
        → Unexpired g now

  -- A grant of the company to the module that is active, not expired, and has a scope that writes
  -- the type.
  pub record IsGranted (grants : List (Text × GrantRow)) (grantee company type : Text) (now : ℤ)
      : Type 0 where
    pub row : GrantRow
    pub listed : Memᴰ (grantee, row) grants
    pub grantor : row.grantor_company_id ≡ company
    pub live : row.grant.status ≡ active
    pub unexpired : Unexpired row.grant now
    pub scope : Scope
    pub among : Memᴰ scope row.grant.scopes
    pub writes : scope.access ≡ write
    pub names : Names scope type

  expired-Unexpired :
      (g : GrantLike) (now : ℤ) (o : Option Text)
      → truthy g.expires_at ≡ o
      → expired date_time o now ≡ false
      → Unexpired g now
  unfolding expired
  expired-Unexpired g now none is h = untimed is
  expired-Unexpired g now (some t) is h = elim (Option-cases (date_time t)) [
    | inl no_time ↦ unread t is no_time
    | inr (at, found) ↦
        let ended = rw (found, expired) at h in
        before t at is found (not-false (ltb_ℤ now at) ended)
  ]

  is_grant_live-Unexpired :
      (g : GrantLike) (now : ℤ)
      → is_grant_live date_time g now ≡ true
      → (g.status ≡ active) × Unexpired g now
  unfolding is_grant_live
  is_grant_live-Unexpired g now h =
      let (live, timely) =
        and-true (is_active g.status) (not (expired date_time (truthy g.expires_at) now)) h in
      (
        is_active-eq g.status live,
        expired-Unexpired g now (truthy g.expires_at) refl
            (not-true (expired date_time (truthy g.expires_at) now) timely),
      )

  pub has_grant-IsGranted :
      (gs : List (Text × GrantRow)) (grantee company type : Text) (now : ℤ)
      → has_grant date_time (grants_of gs grantee) company type write now ≡ true
      → IsGranted gs grantee company type now
  unfolding has_grant grant_covers
  has_grant-IsGranted gs grantee company type now h =
      let (row, place, fits) = any-Mem _ (grants_of gs grantee) h in
      let (given, covers) =
        and-true (row.grantor_company_id === company)
          (grant_covers date_time row.grant type write now) fits in
      let (live, some_scope) =
        and-true (is_grant_live date_time row.grant now)
          (any (λ s. scope_covers s type write) row.grant.scopes) covers in
      let (status, timely) = is_grant_live-Unexpired row.grant now live in
      let (scope, among, scoped) = any-Mem _ row.grant.scopes some_scope in
      let (writes, named) = scope_covers-Names scope type scoped in
      record {
        row = row;
        listed = grants_of-listed gs grantee row place;
        grantor = (===_iff row.grantor_company_id company).0 given;
        live = status;
        unexpired = timely;
        scope = scope;
        among = among;
        writes = writes;
        names = named;
      }
