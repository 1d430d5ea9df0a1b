-- ===== src/Authority/Terms.antt =====
-- What it means, in terms of the records, that a person stands in a company, a command acts for a
-- person, a policy is current and a grant allows; and that the tests of sdk/src/v04/permissions.ts say so.
use mathlib.Core.List.{Memᴰ}
use mathlib.Core.List.Memᴰ.{head, tail}
use direct_trade_protocol.Prelude.{
  ◌≡◌, ◌≢◌, refl, ap, ◌∙◌, true, ◌&&◌, Option, none, some, List, [], ◌∷◌, ◌++◌, any, All, Text,
  codes, ◌===◌, ===_iff, includes, includes-Mem, ok, >>=-elim, demand-elim, Bool-cases,
  Option-cases, ◌⊎◌, inl, inr, and-true, ok-injective,
}
use direct_trade_protocol.Prelude.Int.{ℤ, ltb_ℤ}
use direct_trade_protocol.Prelude.Assoc.{lookup}
use direct_trade_protocol.Scopes.{truthy}
use direct_trade_protocol.Authority.{
  invalid, DataAction, read, write, export, same_action, Actor, person, installation, Command,
  Membership, Installation, Organization, Grant, Policy, Person, State, in_resources, instant_shape,
  acting_human, instant, member_live, active_member, grant_live, installation_allows, actor_allows,
}

module _ (epoch : Text → Option ℤ) where
  -- The text is a time after `now`.
  pub record IsUnexpired (expires_at : Text) (now : ℤ) : Type 0 where
    pub at : ℤ
    pub read : epoch expires_at ≡ some at
    pub after : ltb_ℤ now at ≡ true

  -- A controller, or a member whose membership is active and not expired.
  pub data Standing (org : Organization) (id : Text) (now : ℤ) : Type 0 where
    controls : Memᴰ id org.controllers → Standing org id now
    belongs :
        (m : Membership)
        → lookup id org.members ≡ some m
        → m.active ≡ true
        → IsUnexpired m.expires_at now
        → Standing org id now

  -- The person acts, or an installation does that is active, not expired, and listed for the policy
  -- and the action: at the person's request or, without one, with the person as its sponsor.
  pub data ActsFor (org : Organization) (policy : Policy) (action : DataAction) (c : Command)
      (now : ℤ) (human : Text) : Type 0 where
    in_person : c.actor ≡ person human → ActsFor org policy action c now human
    through :
        (id : Text) (i : Installation)
        → c.actor ≡ installation id
        → lookup id org.installations ≡ some i
        → i.active ≡ true
        → IsUnexpired i.expires_at now
        → Memᴰ policy.id i.policy_ids
        → Memᴰ action i.actions
        → (c.requested_by ≡ some human) ⊎ ((c.requested_by ≡ none) × (i.sponsor_id ≡ human))
        → ActsFor org policy action c now human

  -- The command does not revoke the person's membership, or was issued before the time.
  pub data IsBefore (at : ℤ) (human : Text) (c : Command) : Type 0 where
    of_other_action : c.action ≢ codes "membership.revoke" → IsBefore at human c
    of_other_person : c.payload_person ≢ some human → IsBefore at human c
    earlier : (u : ℤ) → epoch c.issued_at ≡ some u → ltb_ℤ u at ≡ true → IsBefore at human c

  -- The last revision of the policy is newer than each revocation of the person's membership.
  pub record IsCurrent (org : Organization) (policy : Policy) (human : Text) : Type 0 where
    pub before : List Command
    pub last : Command
    pub at : ℤ
    pub revisions : policy.history ≡ before ++ last ∷ []
    pub read : epoch last.issued_at ≡ some at
    pub newer : All (IsBefore at human) org.history

  -- The grant is the person's, not expired, and for the action and the resource.
  pub record Allows (g : Grant) (human resource : Text) (action : DataAction) (now : ℤ)
      : Type 0 where
    pub owner : g.person_id ≡ human
    pub allowed : Memᴰ action g.actions
    pub unexpired : IsUnexpired g.expires_at now
    pub for_resource :
        (g.resource_ids ≡ none)
        ⊎ ((ids : List Text) × (g.resource_ids ≡ some ids) × Memᴰ resource ids)

  pub record Granted (s : State) (org : Organization) (policy : Policy) (resource : Text)
      (action : DataAction) (c : Command) (now : ℤ) : Type 0 where
    pub own : policy.organization_id ≡ org.id
    pub active : org.active ≡ true
    pub human : Text
    pub acts : ActsFor org policy action c now human
    pub known : (p : Person) × (lookup human s.persons ≡ some p)
    pub standing : Standing org human now
    pub current : IsCurrent org policy human
    pub grant : Grant
    pub listed : Memᴰ grant policy.grants
    pub allows : Allows grant human resource action now

  pub instant-epoch : (s : Text) (t : ℤ) → instant epoch s ≡ ok t → epoch s ≡ some t
  unfolding instant
  instant-epoch s t h = demand-elim (instant_shape s) invalid _ h λ _ h1.
      elim (Option-cases (epoch s)) [
        | inl unread ↦ let stops = rw unread at h1 in absurd (cc stops)
        | inr (u, found) ↦ let is = ok-injective (rw found at h1) in found ∙ ap some is
      ]

  same_action-eq : (a b : DataAction) → same_action a b ≡ true → a ≡ b
  same_action-eq read read h = refl
  same_action-eq write write h = refl
  same_action-eq export export h = refl
  same_action-eq _ _ h = absurd (cc h)

  any-Mem : (a : DataAction) (l : List DataAction) → any (same_action a) l ≡ true → Memᴰ a l
  any-Mem a [] h = absurd (cc h)
  any-Mem a (b ∷ l) h = elim (Bool-cases (same_action a b)) [
    | inl same ↦ head (same_action-eq a b same)
    | inr other ↦ tail (any-Mem a l (rw other at h))
  ]

  resources :
      (scope : Option (List Text)) (resource : Text)
      → in_resources scope resource ≡ true
      → (scope ≡ none) ⊎ ((ids : List Text) × (scope ≡ some ids) × Memᴰ resource ids)
  resources none resource h = inl refl
  resources (some ids) resource h = inr (ids, refl, includes-Mem ids resource h)

  pub grant_live-Allows :
      (g : Grant) (human resource : Text) (action : DataAction) (now : ℤ)
      → grant_live epoch g human resource action now ≡ ok true
      → Allows g human resource action now
  unfolding grant_live
  grant_live-Allows g human resource action now h =
      let fits = g.person_id === human && any (same_action action) g.actions in
      elim (Bool-cases fits) [
        | inr unfit ↦ let stops = rw unfit at h in absurd (cc stops)
        | inl yes_fits ↦
            let (owned, acted) =
              and-true (g.person_id === human) (any (same_action action) g.actions) yes_fits in
            >>=-elim (instant epoch g.expires_at) _ (rw yes_fits at h) λ at found h1.
              let (late, inside) =
                and-true (ltb_ℤ now at) (in_resources g.resource_ids resource) (ok-injective h1) in
              record {
                owner = (===_iff g.person_id human).0 owned;
                allowed = any-Mem action g.actions acted;
                unexpired = record {
                  at = at;
                  read = instant-epoch g.expires_at at found;
                  after = late;
                };
                for_resource = resources g.resource_ids resource inside;
              }
      ]

  instant-IsUnexpired :
      (text : Text) (at now : ℤ)
      → instant epoch text ≡ ok at
      → ltb_ℤ now at ≡ true
      → IsUnexpired text now
  instant-IsUnexpired text at now found late = record {
    at = at;
    read = instant-epoch text at found;
    after = late;
  }

  member_live-Standing :
      (org : Organization) (id : Text) (now : ℤ) (o : Option Membership)
      → lookup id org.members ≡ o
      → member_live epoch o now ≡ ok true
      → Standing org id now
  unfolding member_live
  member_live-Standing org id now none is h = absurd (cc h)
  member_live-Standing org id now (some m) is h = elim (Bool-cases m.active) [
    | inr ended ↦ let stops = rw ended at h in absurd (cc stops)
    | inl live ↦ >>=-elim (instant epoch m.expires_at) _ (rw live at h) λ at found h1.
        belongs m is live (instant-IsUnexpired m.expires_at at now found (ok-injective h1))
  ]

  pub active_member-Standing :
      (s : State) (org : Organization) (id : Text) (now : ℤ)
      → active_member epoch s org id now ≡ ok true
      → ((p : Person) × (lookup id s.persons ≡ some p)) × Standing org id now
  unfolding active_member
  active_member-Standing s org id now h = elim (Option-cases (lookup id s.persons)) [
    | inl unknown ↦ let stops = rw unknown at h in absurd (cc stops)
    | inr (p, found) ↦
        let h1 = rw found at h in
        elim (Bool-cases (includes org.controllers id)) [
          | inl steers ↦ ((p, found), controls (includes-Mem org.controllers id steers))
          | inr plain ↦ (
            (p, found),
            member_live-Standing org id now (lookup id org.members) refl (rw plain at h1),
          )
        ]
  ]

  pub truthy-some : (o : Option Text) (t : Text) → truthy o ≡ some t → o ≡ some t
  truthy-some none t h = absurd (cc h)
  truthy-some (some []) t h = absurd (cc h)
  truthy-some (some (x ∷ s)) t h = h

  acting_human-asked :
      (c : Command) (org : Organization) (id : Text) (i : Installation) (human : Text)
      → c.actor ≡ installation id
      → lookup id org.installations ≡ some i
      → acting_human c org ≡ some human
      → (c.requested_by ≡ some human) ⊎ ((c.requested_by ≡ none) × (i.sponsor_id ≡ human))
  unfolding acting_human
  acting_human-asked c org id i human is found acts = elim (Option-cases c.requested_by) [
    | inr (t, asked) ↦
        let names = rw (is, asked) at acts in
        let same : t ≡ human = cc names in inl (asked ∙ ap some same)
    | inl unasked ↦ let names = rw (is, unasked, found) at acts in inr (unasked, cc names)
  ]

  pub acts_by :
      (org : Organization) (policy : Policy) (action : DataAction) (c : Command) (now : ℤ)
      (human : Text) (who : Actor)
      → c.actor ≡ who
      → acting_human c org ≡ some human
      → actor_allows epoch org policy action who now ≡ ok true
      → ActsFor org policy action c now human
  unfolding acting_human actor_allows installation_allows
  acts_by org policy action c now human (person id) is acts allows =
      let same : id ≡ human = cc (rw is at acts) in in_person (is ∙ ap person same)
  acts_by org policy action c now human (installation id) is acts allows =
      elim (Option-cases (lookup id org.installations)) [
        | inl missing ↦ let stops = rw missing at allows in absurd (cc stops)
        | inr (i, found) ↦
            let allowed = rw found at allows in
            elim (Bool-cases i.active) [
              | inr ended ↦ let stops = rw ended at allowed in absurd (cc stops)
              | inl live ↦
                  >>=-elim (instant epoch i.expires_at) _ (rw live at allowed) λ at timed h1.
                    let (first, acted) =
                      and-true (ltb_ℤ now at && includes i.policy_ids policy.id)
                        (any (same_action action) i.actions) (ok-injective h1) in
                    let (late, listed) =
                      and-true (ltb_ℤ now at) (includes i.policy_ids policy.id) first in
                    through id i is found live (instant-IsUnexpired i.expires_at at now timed late)
                      (includes-Mem i.policy_ids policy.id listed) (any-Mem action i.actions acted)
                      (acting_human-asked c org id i human is found acts)
            ]
      ]
