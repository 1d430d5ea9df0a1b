-- ===== src/Authority/Charter/Allows.antt =====
-- A policy that is accepted gives the access that its grants say.
use mathlib.Core.List.{Memᴰ}
use mathlib.Core.List.Memᴰ.{head, tail}
use direct_trade_protocol.Prelude.{
  ◌≡◌, sym, ap, ◌∙◌, Bool, true, false, ◌&&◌, Option, some, List, [], ◌∷◌, Text, codes, ◌===◌,
  ===_refl, includes, any, length, leb, ok, demand, >>=-elim, demand-eq-ok, and-true, Bool-cases,
  inl, inr, ok-injective,
}
use direct_trade_protocol.Prelude.Int.{ℤ, ltb_ℤ}
use direct_trade_protocol.Scopes.{truthy}
use direct_trade_protocol.Authority.{
  invalid, DataAction, same_action, Actor, person, Command, Organization, Grant, Policy, State,
  instant, in_resources, grant_live, some_grant, person_granted, human_granted, acting_human,
  actor_allows, data_allowed,
}
use direct_trade_protocol.Authority.Charter.{
  Charter, uuid, check_stewards, check_grant, check_grants, check_policy, check_grant-current,
  check_policy-grants,
}

module _ (epoch : Text → Option ℤ) where
  grant_live-total :
      (g : Grant) (id resource : Text) (action : DataAction) (now ends : ℤ)
      → instant epoch g.expires_at ≡ ok ends
      → (b : Bool) × (grant_live epoch g id resource action now ≡ ok b)
  unfolding grant_live
  grant_live-total g id resource action now ends read =
      elim (Bool-cases (g.person_id === id && any (same_action action) g.actions)) [
        | inl applies ↦ (ltb_ℤ now ends && in_resources g.resource_ids resource, rw (applies, read))
        | inr other ↦ (false, rw other)
      ]

  grant_live-own :
      (g : Grant) (resource : Text) (action : DataAction) (now ends : ℤ)
      → instant epoch g.expires_at ≡ ok ends
      → ltb_ℤ now ends ≡ true
      → any (same_action action) g.actions ≡ true
      → in_resources g.resource_ids resource ≡ true
      → grant_live epoch g g.person_id resource action now ≡ ok true
  unfolding grant_live
  grant_live-own g resource action now ends read before acts covers =
      rw (===_refl g.person_id, acts, read, before, covers)

  some_grant-finds :
      (s : State) (org : Organization) (policy : Policy) (gs : List Grant) (g : Grant)
      (id resource : Text) (action : DataAction) (now : ℤ)
      → check_grants epoch s org policy gs now ≡ ok tt
      → Memᴰ g gs
      → grant_live epoch g id resource action now ≡ ok true
      → some_grant epoch gs id resource action now ≡ ok true
  unfolding some_grant check_grants
  some_grant-finds s org policy [] g id resource action now h m live = elim m [ ]
  some_grant-finds s org policy (x ∷ gs) g id resource action now h m live =
      >>=-elim (check_grant epoch s org policy x now) _ h λ _ turn h1.
        let (_, _, (ends, read, _, _)) = check_grant-current epoch s org policy x now turn in
        let (b, answers) = grant_live-total x id resource action now ends read in
        elim (Bool-cases b) [
          | inl yes_b ↦ rw (answers, yes_b)
          | inr no_b ↦ elim m [
            | head e ↦
                let same =
                  sym live
                  ∙ ap (λ (y : Grant). grant_live epoch y id resource action now) e
                  ∙ answers in
                let is_true = ok-injective same in absurd (cc (is_true, no_b))
            | tail n ↦
                rw (answers, no_b)
                  (some_grant-finds s org policy gs g id resource action now h1 n live)
          ]
        ]

  check_policy-own :
      (s : State) (org : Organization) (charter : Charter) (now : ℤ)
      → check_policy epoch s org charter now ≡ ok tt
      → ((charter.policy.organization_id === org.id) ≡ true)
        × (check_grants epoch s org charter.policy charter.policy.grants now ≡ ok tt)
  unfolding check_policy
  check_policy-own s org charter now h =
      let kind = includes (codes "business" ∷ codes "personnel" ∷ []) charter.classification in
      let named = uuid charter.policy.id && charter.policy.organization_id === org.id && kind in
      >>=-elim (demand named invalid) _ h λ _ passed h1.
        >>=-elim (check_stewards epoch s org charter now) _ h1 λ _ _ h2.
          >>=-elim (demand (leb (length charter.policy.grants) 256) invalid) _ h2 λ _ _ h3.
            let fine : named ≡ true = demand-eq-ok named invalid passed in
            let first =
              and-true (uuid charter.policy.id && charter.policy.organization_id === org.id) kind
                fine in
            (
              (and-true (uuid charter.policy.id) (charter.policy.organization_id === org.id)
                  first.0).1,
              h3,
            )

  person_allowed :
      (s : State) (org : Organization) (policy : Policy) (resource : Text) (action : DataAction)
      (c : Command) (now : ℤ) (id : Text) (actor : Actor)
      → c.actor ≡ person id
      → truthy (some id) ≡ some id
      → (policy.organization_id === org.id) ≡ true
      → org.active ≡ true
      → person_granted epoch s org policy resource action id now ≡ ok true
      → data_allowed epoch s org policy resource action c now ≡ ok true
  unfolding data_allowed acting_human actor_allows human_granted
  person_allowed s org policy resource action c now id actor acts named own active h =
      rw (own, active, acts, named) h

  -- A policy that `checkPolicy` accepts gives, at that time and while the company is active, the access
  -- that its grants say: a person acting for themselves is allowed each action that one of the grants
  -- lists, on each resource that this grant covers.
  pub check_policy-allows :
      (s : State) (org : Organization) (charter : Charter) (g : Grant) (resource : Text)
      (action : DataAction) (c : Command) (now : ℤ)
      → check_policy epoch s org charter now ≡ ok tt
      → Memᴰ g charter.policy.grants
      → any (same_action action) g.actions ≡ true
      → in_resources g.resource_ids resource ≡ true
      → org.active ≡ true
      → c.actor ≡ person g.person_id
      → truthy (some g.person_id) ≡ some g.person_id
      → data_allowed epoch s org charter.policy resource action c now ≡ ok true
  unfolding person_granted
  check_policy-allows s org charter g resource action c now h m acts covers active actor named =
      let (member, current, (ends, read, before, _)) =
        check_policy-grants epoch s org charter g now h m in
      let (own, checked) = check_policy-own s org charter now h in
      let live = grant_live-own g resource action now ends read before acts covers in
      let found =
        some_grant-finds s org charter.policy charter.policy.grants g g.person_id resource action
          now checked m live in
      person_allowed s org charter.policy resource action c now g.person_id c.actor actor named own
        active (rw (member, current) found)
