-- ===== src/Authority/Access.antt =====
-- What access to data needs, and that a revocation ends it.
use mathlib.Core.List.{Memᴰ}
use mathlib.Core.List.Memᴰ.{head, tail}
use direct_trade_protocol.Prelude.{
  ◌≡◌, ◌≢◌, refl, sym, ap, ◌∙◌, Bool, true, false, not, ◌&&◌, Option, none, some, List, [], ◌∷◌,
  arith, Text, ◌===◌, Result, ok, >>=-elim, if◌then◌else◌, Bool-cases, inl, inr, and-true,
  ok-injective,
}
use direct_trade_protocol.Prelude.Int.{ℤ, ltb_ℤ}
use direct_trade_protocol.Scopes.{truthy}
use direct_trade_protocol.Authority.{
  DtpError, DataAction, Command, Organization, Grant, Policy, State, revokes, later, is_after,
  last_issued, acting_human, instant, active_member, seen_revocation, revoked_from, revoked_at,
  grant_current, grant_live, some_grant, person_granted, human_granted, actor_allows, data_allowed,
}

unless-eq-ok :
    (b : Bool) (m : Result DtpError Bool)
    → (if b then ok false else m) ≡ ok true
    → (b ≡ false) × (m ≡ ok true)
unless-eq-ok true m h = absurd (cc h)
unless-eq-ok false m h = (refl, h)

when-eq-ok :
    (b : Bool) (m : Result DtpError Bool)
    → (if b then m else ok false) ≡ ok true
    → (b ≡ true) × (m ≡ ok true)
when-eq-ok true m h = (refl, h)
when-eq-ok false m h = absurd (cc h)

some-injective : {a b : Text} → ◌≡◌ {A = Option Text} (some a) (some b) → a ≡ b
some-injective h = cc

not-false : (b : Bool) → not b ≡ false → b ≡ true
not-false true h = refl
not-false false h = absurd (cc h)

module _ (epoch : Text → Option ℤ) where
  -- The tests that an allowed access passes, with the person who acts and the grant found.
  pub record Passed (s : State) (org : Organization) (policy : Policy) (resource : Text)
      (action : DataAction) (c : Command) (now : ℤ) : Type 0 where
    pub human : Text
    pub grant : Grant
    pub acts : truthy (acting_human c org) ≡ some human
    pub allows : actor_allows epoch org policy action c.actor now ≡ ok true
    pub own : (policy.organization_id === org.id) ≡ true
    pub active : org.active ≡ true
    pub member : active_member epoch s org human now ≡ ok true
    pub current : grant_current epoch org policy human ≡ ok true
    pub listed : Memᴰ grant policy.grants
    pub live : grant_live epoch grant human resource action now ≡ ok true

  some_grant-listed :
      (gs : List Grant) (id resource : Text) (action : DataAction) (now : ℤ)
      → some_grant epoch gs id resource action now ≡ ok true
      → (g : Grant) × Memᴰ g gs × (grant_live epoch g id resource action now ≡ ok true)
  unfolding some_grant
  some_grant-listed [] id resource action now h = absurd (cc h)
  some_grant-listed (g ∷ gs) id resource action now h =
      >>=-elim (grant_live epoch g id resource action now) _ h λ here found h1.
        elim (Bool-cases here) [
          | inl live ↦ (g, head refl, rw live at found)
          | inr dead ↦
              let (g', m, live) = some_grant-listed gs id resource action now (rw dead at h1) in
              (g', tail m, live)
        ]

  person_granted-Passed :
      (s : State) (org : Organization) (policy : Policy) (resource : Text) (action : DataAction)
      (c : Command) (now : ℤ) (id : Text)
      → truthy (acting_human c org) ≡ some id
      → (policy.organization_id === org.id) ≡ true
      → org.active ≡ true
      → actor_allows epoch org policy action c.actor now ≡ ok true
      → person_granted epoch s org policy resource action id now ≡ ok true
      → Passed s org policy resource action c now
  unfolding person_granted
  person_granted-Passed s org policy resource action c now id acts own active allows h =
      >>=-elim (active_member epoch s org id now) _ h λ member is_member h1.
        let (outside, h2) = unless-eq-ok (not member) _ h1 in
        >>=-elim (grant_current epoch org policy id) _ h2 λ current is_current h3.
          let (fresh, h4) = when-eq-ok current _ h3 in
          let (g, m, live) = some_grant-listed policy.grants id resource action now h4 in
          let inside : member ≡ true = not-false member outside in
          record {
            human = id;
            grant = g;
            acts = acts;
            allows = allows;
            own = own;
            active = active;
            member = rw inside at is_member;
            current = rw fresh at is_current;
            listed = m;
            live = live;
          }

  human_granted-Passed :
      (s : State) (org : Organization) (policy : Policy) (resource : Text) (action : DataAction)
      (c : Command) (now : ℤ) (o : Option Text)
      → truthy (acting_human c org) ≡ o
      → (policy.organization_id === org.id) ≡ true
      → org.active ≡ true
      → actor_allows epoch org policy action c.actor now ≡ ok true
      → human_granted epoch s org policy resource action o now ≡ ok true
      → Passed s org policy resource action c now
  unfolding human_granted
  human_granted-Passed s org policy resource action c now none acts own active allows h =
      absurd (cc h)
  human_granted-Passed s org policy resource action c now (some id) acts own active allows h =
      person_granted-Passed s org policy resource action c now id acts own active allows h

  -- What an allowed access has passed.
  pub data_allowed-Passed :
      (s : State) (org : Organization) (policy : Policy) (resource : Text) (action : DataAction)
      (c : Command) (now : ℤ)
      → data_allowed epoch s org policy resource action c now ≡ ok true
      → Passed s org policy resource action c now
  unfolding data_allowed
  data_allowed-Passed s org policy resource action c now h =
      let in_scope = (policy.organization_id === org.id) && org.active in
      let (in_company, h1) = unless-eq-ok (not in_scope) _ h in
      let scoped : in_scope ≡ true = not-false in_scope in_company in
      let both = and-true (policy.organization_id === org.id) org.active scoped in
      >>=-elim (actor_allows epoch org policy action c.actor now) _ h1 λ allowed granted h2.
        let (let_in, h3) = when-eq-ok allowed _ h2 in
        human_granted-Passed s org policy resource action c now (truthy (acting_human c org)) refl
          both.0 both.1 (rw let_in at granted) h3

  -- The latest revocation seen is not before `t`.
  abbrev covers : ℤ → Option ℤ → Bool
  covers t none = false
  covers t (some at) = not (ltb_ℤ at t)

  covers-later :
      (t u : ℤ) (at : Option ℤ) → covers t at ≡ true → covers t (some (later at u)) ≡ true
  covers-later t u none h = absurd (cc h)
  covers-later t u (some at) h = ground arith

  covers-new : (t : ℤ) (at : Option ℤ) → covers t (some (later at t)) ≡ true
  covers-new t none = ground arith
  covers-new t (some at) = ground arith

  seen-yes :
      (at next : Option ℤ) (c : Command) (id : Text)
      → seen_revocation epoch at c id ≡ ok next
      → revokes c id ≡ true
      → (u : ℤ) × (instant epoch c.issued_at ≡ ok u) × (some (later at u) ≡ next)
  unfolding seen_revocation
  seen-yes at next c id h revoking =
      >>=-elim (instant epoch c.issued_at) _ (rw revoking at h)
        λ u read h1. (u, read, ok-injective h1)

  seen-no :
      (at next : Option ℤ) (c : Command) (id : Text)
      → seen_revocation epoch at c id ≡ ok next
      → revokes c id ≡ false
      → at ≡ next
  unfolding seen_revocation
  seen-no at next c id h other = ok-injective (rw other at h)

  seen-covers :
      (t : ℤ) (at next : Option ℤ) (c : Command) (id : Text)
      → seen_revocation epoch at c id ≡ ok next
      → covers t at ≡ true
      → covers t next ≡ true
  seen-covers t at next c id h before = elim (Bool-cases (revokes c id)) [
    | inl revoking ↦
        let (u, read, e) = seen-yes at next c id h revoking in
        sym (ap (covers t) e) ∙ covers-later t u at before
    | inr other ↦ rw (seen-no at next c id h other) at before
  ]

  rest-covers :
      (t : ℤ) (at last : Option ℤ) (cs : List Command) (id : Text)
      → revoked_from epoch at cs id ≡ ok last
      → covers t at ≡ true
      → covers t last ≡ true
  unfolding revoked_from
  rest-covers t at last [] id h before = rw (ok-injective h) at before
  rest-covers t at last (c ∷ cs) id h before =
      >>=-elim (seen_revocation epoch at c id) _ h
        λ next seen h1. rest-covers t next last cs id h1 (seen-covers t at next c id seen before)

  here-covers :
      (t : ℤ) (at next : Option ℤ) (c d : Command) (id : Text)
      → c ≡ d
      → seen_revocation epoch at d id ≡ ok next
      → revokes c id ≡ true
      → instant epoch c.issued_at ≡ ok t
      → covers t next ≡ true
  here-covers t at next c d id same seen revoking read =
      let (u, read', e) = seen-yes at next c id (rw (← same) at seen) revoking in
      let u_is_t : u ≡ t = ok-injective (sym read' ∙ read) in
      sym (ap (covers t) e) ∙ ap (λ (x : ℤ). covers t (some (later at x))) u_is_t ∙ covers-new t at

  revoked_from-covers :
      (t : ℤ) (c : Command) (at last : Option ℤ) (cs : List Command) (id : Text)
      → revoked_from epoch at cs id ≡ ok last
      → Memᴰ c cs
      → revokes c id ≡ true
      → instant epoch c.issued_at ≡ ok t
      → covers t last ≡ true
  unfolding revoked_from
  revoked_from-covers t c at last [] id h m revoking read = elim m [ ]
  revoked_from-covers t c at last (d ∷ cs) id h m revoking read =
      >>=-elim (seen_revocation epoch at d id) _ h λ next seen h1. elim m [
        | head same ↦
            rest-covers t next last cs id h1 (here-covers t at next c d id same seen revoking read)
        | tail below ↦ revoked_from-covers t c next last cs id h1 below revoking read
      ]

  not-after :
      (t u : ℤ) (at : Option ℤ) → covers t at ≡ true → ltb_ℤ t u ≡ false → is_after u at ≡ false
  not-after t u none h late = absurd (cc h)
  not-after t u (some at) h late = ground arith

  revoked-grant :
      (org : Organization) (policy : Policy) (id issued : Text) (c : Command) (t u : ℤ)
      → Memᴰ c org.history
      → revokes c id ≡ true
      → instant epoch c.issued_at ≡ ok t
      → last_issued policy.history ≡ ok issued
      → instant epoch issued ≡ ok u
      → ltb_ℤ t u ≡ false
      → grant_current epoch org policy id ≢ ok true
  unfolding grant_current revoked_at
  revoked-grant org policy id issued c t u m revoking read last revision late h =
      >>=-elim (last_issued policy.history) _ h λ issued' last' h1.
        let same_text : issued' ≡ issued = ok-injective (sym last' ∙ last) in
        >>=-elim (instant epoch issued') _ h1 λ u' revision' h2.
          let same_time : u' ≡ u =
            ok-injective (sym revision' ∙ ap (instant epoch) same_text ∙ revision) in
          >>=-elim (revoked_from epoch none org.history id) _ h2 λ at found h3.
            let covered = revoked_from-covers t c none at org.history id found m revoking read in
            let blocked = not-after t u at covered late in
            let passed : is_after u' at ≡ true = ok-injective h3 in cc (blocked, passed, same_time)

  -- A revocation of a person's membership in the company's history, signed at or after the latest
  -- revision of a policy, ends the person's access under that policy: nothing is allowed to a command
  -- on which that person acts, whatever grants the policy holds, at any time and for any resource.
  pub data_allowed-revoked :
      (s : State) (org : Organization) (policy : Policy) (resource : Text) (action : DataAction)
      (c revocation : Command) (now : ℤ) (id issued : Text) (t u : ℤ)
      → truthy (acting_human c org) ≡ some id
      → Memᴰ revocation org.history
      → revokes revocation id ≡ true
      → instant epoch revocation.issued_at ≡ ok t
      → last_issued policy.history ≡ ok issued
      → instant epoch issued ≡ ok u
      → ltb_ℤ t u ≡ false
      → data_allowed epoch s org policy resource action c now ≢ ok true
  data_allowed-revoked s org policy resource action c revocation now id issued t u acts m revoking
        read last revision late h =
      let granted = data_allowed-Passed s org policy resource action c now h in
      let same_person : granted.human ≡ id = some-injective (sym granted.acts ∙ acts) in
      revoked-grant org policy id issued revocation t u m revoking read last revision late
        (rw same_person at granted.current)
