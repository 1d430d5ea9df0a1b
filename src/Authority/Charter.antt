-- ===== src/Authority/Charter.antt =====
-- checkPolicy of sdk/src/v04/permissions.ts, and `uuid` of sdk/src/v04/wire.ts. A grant has its declared
-- members and no others.
pub mod Allows
mod Tests
use mathlib.Core.List.{Memᴰ}
use mathlib.Core.List.Memᴰ.{head, tail}
use direct_trade_protocol.Prelude.{
  ℕ, ◌+◌, ◌≤◌, ◌≡◌, refl, sym, ap, Bool, true, false, not, ◌&&◌, ◌||◌, ◌==◌, Option, none, some,
  List, [], ◌∷◌, arith, Text, codes, ◌===◌, includes, distinct, any, all, length, ltb, leb, Result,
  ok, err, ◌>>=◌, ◌>>◌, demand, >>=-elim, demand-eq-ok, and-true, if◌then◌else◌,
}
use direct_trade_protocol.Prelude.Int.{ℤ, pos, ltb_ℤ, ◌+ℤ◌}
use direct_trade_protocol.Prelude.Assoc.{lookup}
use direct_trade_protocol.Decimal.{is_digit}
use direct_trade_protocol.Authority.{
  DtpError, invalid, forbidden, type_error, DataAction, same_action, Membership, Organization,
  Grant, Policy, State, instant, active_member, grant_current,
}

-- A policy with the members that only `checkPolicy` reads.
pub record Charter : Type 0 where
  pub policy : Policy
  pub classification : Text
  pub stewards : List Text
  pub threshold : ℤ

-- `/^[0-9a-f]{8}-[0-9a-f]{4}-[0-9a-f]{4}-[0-9a-f]{4}-[0-9a-f]{12}$/`, by a template in which `h`
-- stands for a hexadecimal digit.
unfoldable pub fits_hex : Text → Text → Bool
fits_hex [] [] = true
fits_hex (t ∷ ts) (c ∷ s) =
    (if t == b'h' then is_digit c || (leb b'a' c && leb c b'f') else c == t) && fits_hex ts s
fits_hex _ _ = false

unfoldable pub uuid : Text → Bool
unfolding fits_hex
uuid s = fits_hex (codes "hhhhhhhh-hhhh-hhhh-hhhh-hhhhhhhhhhhh") s

abbrev pub distinct_actions : List DataAction → Bool
distinct_actions [] = true
distinct_actions (a ∷ l) = not (any (same_action a) l) && distinct_actions l

unfoldable pub actions_ok : List DataAction → Bool
actions_ok l = ltb 0 (length l) && leb (length l) 3 && distinct_actions l

unfoldable pub resources_ok : Option (List Text) → Bool
unfolding uuid
resources_ok none = true
resources_ok (some ids) = ltb 0 (length ids) && leb (length ids) 128 && distinct ids && all uuid ids

-- 366 * 86400000
abbrev pub year : ℤ
year = pos 31622400000

module _ (epoch : Text → Option ℤ) where
  -- `stewards.every(...)`
  unfoldable pub every_active : State → Organization → List Text → ℤ → Result DtpError Bool
  every_active s org [] now = ok true
  every_active s org (id ∷ ids) now = do
    here ← active_member epoch s org id now
    let rest = every_active s org ids now
    if here then rest else ok false

  unfoldable pub check_stewards : State → Organization → Charter → ℤ → Result DtpError (Unit {0})
  unfolding every_active
  check_stewards s org charter now = do
    demand
        (ltb 0 (length charter.stewards)
          && leb (length charter.stewards) 8
          && distinct charter.stewards)
        invalid
    active ← every_active s org charter.stewards now
    demand active invalid
    demand
        (not (ltb_ℤ charter.threshold (pos 1))
          && not (ltb_ℤ (pos (length charter.stewards)) charter.threshold))
        invalid

  unfoldable pub check_outlives : Organization → Grant → ℤ → Result DtpError (Unit {0})
  check_outlives org g ends = if includes org.controllers g.person_id then ok tt else (do
    m ← elim (lookup g.person_id org.members) [ none ↦ err type_error | some m ↦ ok m ]
    limit ← instant epoch m.expires_at
    demand (not (ltb_ℤ limit ends)) forbidden)

  -- One turn of the loop over the grants.
  unfoldable pub check_grant :
      State → Organization → Policy → Grant → ℤ → Result DtpError (Unit {0})
  unfolding check_outlives
  check_grant s org policy g now = do
    member ← active_member epoch s org g.person_id now
    demand (member && actions_ok g.actions) invalid
    demand (resources_ok g.resource_ids) invalid
    ends ← instant epoch g.expires_at
    demand (ltb_ℤ now ends && not (ltb_ℤ (now +ℤ year) ends)) invalid
    check_outlives org g ends
    current ← grant_current epoch org policy g.person_id
    demand current invalid

  unfoldable pub check_grants :
      State → Organization → Policy → List Grant → ℤ → Result DtpError (Unit {0})
  unfolding check_grant
  check_grants s org policy [] now = ok tt
  check_grants s org policy (g ∷ gs) now = do
    check_grant s org policy g now
    check_grants s org policy gs now

  unfoldable pub check_policy : State → Organization → Charter → ℤ → Result DtpError (Unit {0})
  unfolding check_stewards check_grants
  check_policy s org charter now = do
    demand
        (uuid charter.policy.id
          && charter.policy.organization_id === org.id
          && includes (codes "business" ∷ codes "personnel" ∷ []) charter.classification)
        invalid
    check_stewards s org charter now
    demand (leb (length charter.policy.grants) 256) invalid
    check_grants s org charter.policy charter.policy.grants now

  pub check_grants-Mem :
      (s : State) (org : Organization) (policy : Policy) (gs : List Grant) (g : Grant) (now : ℤ)
      → check_grants s org policy gs now ≡ ok tt
      → Memᴰ g gs
      → check_grant s org policy g now ≡ ok tt
  unfolding check_grants
  check_grants-Mem s org policy [] g now h m = elim m [ ]
  check_grants-Mem s org policy (x ∷ gs) g now h m =
      >>=-elim (check_grant s org policy x now) _ h λ _ turn h1. elim m [
        | head e ↦ rw e turn
        | tail n ↦ check_grants-Mem s org policy gs g now h1 n
      ]

  pub check_grant-current :
      (s : State) (org : Organization) (policy : Policy) (g : Grant) (now : ℤ)
      → check_grant s org policy g now ≡ ok tt
      → (active_member epoch s org g.person_id now ≡ ok true)
        × (grant_current epoch org policy g.person_id ≡ ok true)
        × ((ends : ℤ) × (instant epoch g.expires_at ≡ ok ends)
            × (ltb_ℤ now ends ≡ true)
            × (check_outlives org g ends ≡ ok tt))
  unfolding check_grant
  check_grant-current s org policy g now h =
      >>=-elim (active_member epoch s org g.person_id now) _ h λ member is_member h1.
        >>=-elim (demand (member && actions_ok g.actions) invalid) _ h1 λ _ inside h2.
          >>=-elim (demand (resources_ok g.resource_ids) invalid) _ h2 λ _ _ h3.
            >>=-elim (instant epoch g.expires_at) _ h3 λ ends read h4.
              let in_time = ltb_ℤ now ends && not (ltb_ℤ (now +ℤ year) ends) in
              >>=-elim (demand in_time invalid) _ h4 λ _ timely h5.
                >>=-elim (check_outlives org g ends) _ h5 λ _ outlived h6.
                  >>=-elim (grant_current epoch org policy g.person_id) _ h6
                    λ current is_current h7.
                      let is_in =
                        and-true member (actions_ok g.actions)
                          (demand-eq-ok (member && actions_ok g.actions) invalid inside) in
                      let before =
                        and-true (ltb_ℤ now ends) (not (ltb_ℤ (now +ℤ year) ends))
                          (demand-eq-ok in_time invalid timely) in
                      (
                        rw is_in.0 at is_member,
                        rw (demand-eq-ok current invalid h7) at is_current,
                        (ends, read, before.0, outlived),
                      )

  pub check_policy-grants :
      (s : State) (org : Organization) (charter : Charter) (g : Grant) (now : ℤ)
      → check_policy s org charter now ≡ ok tt
      → Memᴰ g charter.policy.grants
      → (active_member epoch s org g.person_id now ≡ ok true)
        × (grant_current epoch org charter.policy g.person_id ≡ ok true)
        × ((ends : ℤ) × (instant epoch g.expires_at ≡ ok ends)
            × (ltb_ℤ now ends ≡ true)
            × (check_outlives org g ends ≡ ok tt))
  unfolding check_policy
  check_policy-grants s org charter g now h m =
      let named =
        uuid charter.policy.id
        && charter.policy.organization_id === org.id
        && includes (codes "business" ∷ codes "personnel" ∷ []) charter.classification in
      >>=-elim (demand named invalid) _ h λ _ _ h1.
        >>=-elim (check_stewards s org charter now) _ h1 λ _ _ h2.
          >>=-elim (demand (leb (length charter.policy.grants) 256) invalid) _ h2 λ _ _ h3.
            check_grant-current s org charter.policy g now
              (check_grants-Mem s org charter.policy charter.policy.grants g now h3 m)
