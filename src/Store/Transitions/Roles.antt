-- ===== src/Store/Transitions/Roles.antt =====
-- Role fields through a chain of supersedes.
use mathlib.Core.List.{Memᴰ}
use mathlib.Core.List.Memᴰ.{head, tail}
use direct_trade_protocol.Prelude.Int.{ℤ, pos, negsuc, ◌-ℤ◌, is_zero}
use direct_trade_protocol.Prelude.{
  ◌≡◌, refl, ap, ◌∙◌, Bool, true, false, ◌&&◌, Option, some, List, [], ◌∷◌, Text, ===_iff, ok,
  refuse, >>=-elim, refuse-eq-ok, arith, includes, includes_mem, ◌≢◌,
}
use direct_trade_protocol.Canonical.{Json, Members, null, undefined, bool, num, str}
use direct_trade_protocol.Store.Transitions.{
  not_third_party, role_changed, PartyContext, TypeInfo, get, or_null, same_value, is_null,
  names_one, parties_of, changed_role, check_role, check_roles, check_role_continuity, check_write,
}

zero-difference : (a b : ℤ) → is_zero (a -ℤ b) ≡ true → a ≡ b
unfolding ◌-ℤ◌
zero-difference (pos m) (pos n) h = ground arith
zero-difference (pos m) (negsuc n) h = ground arith
zero-difference (negsuc m) (pos n) h = ground arith
zero-difference (negsuc m) (negsuc n) h = ground arith

pub same_value-eq : (v w : Json) → same_value v w ≡ true → v ≡ w
unfolding same_value
same_value-eq null null h = refl
same_value-eq undefined undefined h = refl
same_value-eq (bool true) (bool true) h = refl
same_value-eq (bool false) (bool false) h = refl
same_value-eq (num a) (num b) h = ap num (zero-difference a b h)
same_value-eq (str s) (str t) h = ap str ((===_iff s t).0 h)
same_value-eq _ _ h = cc

-- A role's field after a supersede: the same value, unless it was null and the role is a third
-- party's.
unchanged :
    (third : Bool) (prev : Members) (field : Text) (next : Json)
    → changed_role third (some prev) field next ≡ false
    → (is_null (or_null (get prev field)) && third) ≡ false
    → or_null (get prev field) ≡ next
unfolding changed_role
unchanged third prev field next h free =
    same_value-eq (or_null (get prev field)) next (ground arith)

check_roles-turn :
    (info : TypeInfo) (prev : Option Members) (new : Members) (party : PartyContext)
    (entries : List (Text × Text)) (role field : Text)
    → check_roles info prev new party entries ≡ ok tt
    → Memᴰ (role, field) entries
    → check_role info prev new party role field ≡ ok tt
unfolding check_roles
check_roles-turn info prev new party [] role field h m = elim m [ ]
check_roles-turn info prev new party ((r, f) ∷ entries) role field h m =
    >>=-elim (check_role info prev new party r f) _ h λ _ turn h1. elim m [
      | head e ↦ rw (ap (λ (p : Text × Text). p.0) e, ap (λ (p : Text × Text). p.1) e) turn
      | tail n ↦ check_roles-turn info prev new party entries role field h1 n
    ]

module _ (info : TypeInfo) (role field : Text) where
  third : Bool
  third = includes info.third_party_roles role

  value : Members → Json
  value body = or_null (get body field)

  check_role-unchanged :
      (prev new : Members) (party : PartyContext)
      → check_role info (some prev) new party role field ≡ ok tt
      → (is_null (value prev) && third) ≡ false
      → value prev ≡ value new
  unfolding check_role value third
  check_role-unchanged prev new party h free =
      let outside =
        includes info.third_party_roles role
        && names_one (parties_of party) (or_null (get new field)) in
      >>=-elim (refuse outside not_third_party) _ h λ _ _ h1.
        unchanged (includes info.third_party_roles role) prev field (or_null (get new field))
          (refuse-eq-ok
            (changed_role (includes info.third_party_roles role) (some prev) field
              (or_null (get new field)))
            role_changed h1)
          free

  check_role-third :
      (prev : Option Members) (new : Members) (party : PartyContext)
      → check_role info prev new party role field ≡ ok tt
      → third ≡ true
      → names_one (parties_of party) (value new) ≡ false
  unfolding check_role value third
  check_role-third prev new party h is_third =
      let outside =
        includes info.third_party_roles role
        && names_one (parties_of party) (or_null (get new field)) in
      >>=-elim (refuse outside not_third_party) _ h λ _ passed _.
        let kept : outside ≡ false = refuse-eq-ok outside not_third_party passed in ground arith

check_write-roles :
    (info : TypeInfo) (prev : Option Members) (new : Members) (party : PartyContext)
    (role field : Text)
    → check_write info prev new party ≡ ok tt
    → Memᴰ (role, field) info.roles
    → check_role info prev new party role field ≡ ok tt
unfolding check_write check_role_continuity
check_write-roles info prev new party role field h m =
    >>=-elim (check_roles info prev new party info.roles) _ h
      λ _ passed _. check_roles-turn info prev new party info.roles role field passed m

-- The heads that accepted supersedes make of a record, each by a writer of its own.
pub data Later (info : TypeInfo) : Members → Members → Type 0 where
  now : {b : Members} → Later info b b
  superseded :
      {b prev : Members} (new : Members) (party : PartyContext)
      → Later info b prev
      → check_write info (some prev) new party ≡ ok tt
      → Later info b new

-- Along every chain of accepted supersedes a role's field keeps its value, whoever writes: always
-- when the role is no third party's, and from its appointment on when it is.
pub Later-role :
    (info : TypeInfo) {b b' : Members} (role field : Text)
    → Later info b b'
    → Memᴰ (role, field) info.roles
    → (is_null (or_null (get b field)) && includes info.third_party_roles role) ≡ false
    → or_null (get b field) ≡ or_null (get b' field)
unfolding value third
Later-role info role field now m fixed = refl
Later-role info role field (superseded {b} {prev} new party l h) m fixed =
    let before = Later-role info role field l m fixed in
    let turn = check_write-roles info (some prev) new party role field h m in
    before ∙ check_role-unchanged info role field prev new party turn (rw before at fixed)

names-str :
    (party : PartyContext) (v : Json) (id : Text)
    → names_one (parties_of party) (or_null v) ≡ false
    → v ≡ str id
    → includes (party.subject_company_id ∷ party.counterparty_ids) id ≡ false
unfolding names_one
names-str party v id h is = rw is at h

-- The company that a third party's field names after an accepted write, a genesis or a supersede,
-- is neither the subject of the record nor one of its counterparties.
pub check_write-third :
    (info : TypeInfo) (prev : Option Members) (new : Members) (party : PartyContext)
    (role field id : Text)
    → check_write info prev new party ≡ ok tt
    → Memᴰ (role, field) info.roles
    → Memᴰ role info.third_party_roles
    → get new field ≡ str id
    → (id ≢ party.subject_company_id) × ¬ Memᴰ id party.counterparty_ids
unfolding value third
check_write-third info prev new party role field id h m is_third named =
    let set =
      check_role-third info role field prev new party
        (check_write-roles info prev new party role field h m)
        (includes_mem info.third_party_roles role is_third) in
    let ids = party.subject_company_id ∷ party.counterparty_ids in
    let outside = names-str party (get new field) id set named in
    let absent : ¬ Memᴰ id ids = λ inside. cc (outside, includes_mem ids id inside) in
    (λ same. absent (head same), λ among. absent (tail among))
