-- ===== src/Authority/Grounds.antt =====
-- On what grounds an access to data is allowed.
use direct_trade_protocol.Prelude.{
  ◌≡◌, refl, ap, ◌∙◌, true, false, Option, none, some, List, [], ◌∷◌, ◌++◌, All, arith, Text, codes,
  ◌===◌, ===_iff, ===_refl, ok, >>=-elim, Bool-cases, inl, inr, ok-injective,
}
use direct_trade_protocol.Prelude.Int.{ℤ, ltb_ℤ}
use direct_trade_protocol.Authority.{
  DataAction, Command, Organization, Policy, State, revokes, later, is_after, last_issued,
  acting_human, instant, seen_revocation, revoked_from, revoked_at, grant_current, data_allowed,
}
use direct_trade_protocol.Authority.Access.{data_allowed-Passed}
use direct_trade_protocol.Authority.Terms.{
  IsBefore, IsCurrent, Granted, instant-epoch, grant_live-Allows, active_member-Standing,
  truthy-some, acts_by, of_other_action, of_other_person, earlier,
}

module _ (epoch : Text → Option ℤ) where
  last_issued-last :
      (cs : List Command) (issued : Text)
      → last_issued cs ≡ ok issued
      → (before : List Command) × (last : Command) × (cs ≡ before ++ last ∷ [])
        × (last.issued_at ≡ issued)
  unfolding last_issued
  last_issued-last [] issued h = absurd (cc h)
  last_issued-last (c ∷ []) issued h = ([], c, refl, ok-injective h)
  last_issued-last (c ∷ d ∷ cs) issued h =
      let (before, last, split, same) = last_issued-last (d ∷ cs) issued h in
      (c ∷ before, last, ap (λ (l : List Command). c ∷ l) split, same)

  -- The revocations seen so far, and one more, are not after the latest.
  later-old : (u v : ℤ) (at : ℤ) → ltb_ℤ (later (some u) v) at ≡ true → ltb_ℤ u at ≡ true
  later-old u v at h = ground arith

  later-new : (o : Option ℤ) (v at : ℤ) → ltb_ℤ (later o v) at ≡ true → ltb_ℤ v at ≡ true
  later-new none v at h = h
  later-new (some u) v at h = ground arith

  is_after-later :
      (o : Option ℤ) (v at : ℤ) → is_after at (some (later o v)) ≡ true → is_after at o ≡ true
  is_after-later none v at h = refl
  is_after-later (some u) v at h = later-old u v at h

  unrevoked :
      (at : ℤ) (human : Text) (c : Command) → revokes c human ≡ false → IsBefore epoch at human c
  unfolding revokes
  unrevoked at human c h = elim (Bool-cases (c.action === codes "membership.revoke")) [
    | inr other ↦
        of_other_action (λ same. cc (other, (===_iff c.action (codes "membership.revoke")).1 same))
    | inl revoking ↦ of_other_person (λ same. cc (rw (revoking, same, ===_refl human) at h))
  ]

  seen_revocation-IsBefore :
      (at : ℤ) (o next : Option ℤ) (c : Command) (human : Text)
      → seen_revocation epoch o c human ≡ ok next
      → is_after at next ≡ true
      → IsBefore epoch at human c × (is_after at o ≡ true)
  unfolding seen_revocation
  seen_revocation-IsBefore at o next c human h newer = elim (Bool-cases (revokes c human)) [
    | inr other ↦
        let same : o ≡ next = ok-injective (rw other at h) in
        (unrevoked at human c other, ap (is_after at) same ∙ newer)
    | inl revoking ↦ >>=-elim (instant epoch c.issued_at) _ (rw revoking at h) λ v found h1.
        let same : some (later o v) ≡ next = ok-injective h1 in
        let passed = ap (is_after at) same ∙ newer in
        (
          earlier v (instant-epoch epoch c.issued_at v found) (later-new o v at passed),
          is_after-later o v at passed,
        )
  ]

  revoked_from-IsBefore :
      (at : ℤ) (o last : Option ℤ) (cs : List Command) (human : Text)
      → revoked_from epoch o cs human ≡ ok last
      → is_after at last ≡ true
      → All (IsBefore epoch at human) cs × (is_after at o ≡ true)
  unfolding revoked_from
  revoked_from-IsBefore at o last [] human h newer = (tt, ap (is_after at) (ok-injective h) ∙ newer)
  revoked_from-IsBefore at o last (c ∷ cs) human h newer =
      >>=-elim (seen_revocation epoch o c human) _ h λ next seen h1.
        let (rest, still) = revoked_from-IsBefore at next last cs human h1 newer in
        let (here, before) = seen_revocation-IsBefore at o next c human seen still in
        ((here, rest), before)

  grant_current-IsCurrent :
      (org : Organization) (policy : Policy) (human : Text)
      → grant_current epoch org policy human ≡ ok true
      → IsCurrent epoch org policy human
  unfolding grant_current revoked_at
  grant_current-IsCurrent org policy human h =
      >>=-elim (last_issued policy.history) _ h λ issued last_is h1.
        >>=-elim (instant epoch issued) _ h1 λ at found h2.
          >>=-elim (revoked_from epoch none org.history human) _ h2 λ latest seen h3.
            let (before, last, split, same) = last_issued-last policy.history issued last_is in
            record {
              before = before;
              last = last;
              at = at;
              revisions = split;
              read = ap epoch same ∙ instant-epoch epoch issued at found;
              newer =
                  (revoked_from-IsBefore at none latest org.history human seen (ok-injective h3)).0;
            }

  -- Access to data is allowed only under a policy of the company, while the company is active, and
  -- for a known person: the one who acts, or whom an active and unexpired installation that is listed
  -- for the policy and the action acts for. That person is a controller or an active, unexpired
  -- member of the company; the last revision of the policy is newer than each revocation of the
  -- membership in the company's history; and a grant of the policy is that person's, for the action
  -- and the resource, and has not expired.
  pub data_allowed-Granted :
      (s : State) (org : Organization) (policy : Policy) (resource : Text) (action : DataAction)
      (c : Command) (now : ℤ)
      → data_allowed epoch s org policy resource action c now ≡ ok true
      → Granted epoch s org policy resource action c now
  data_allowed-Granted s org policy resource action c now h =
      let passed = data_allowed-Passed epoch s org policy resource action c now h in
      let human_is = truthy-some epoch (acting_human c org) passed.human passed.acts in
      let (known, standing) = active_member-Standing epoch s org passed.human now passed.member in
      record {
        own = (===_iff policy.organization_id org.id).0 passed.own;
        active = passed.active;
        human = passed.human;
        acts =
            acts_by epoch org policy action c now passed.human c.actor refl human_is passed.allows;
        known = known;
        standing = standing;
        current = grant_current-IsCurrent org policy passed.human passed.current;
        grant = passed.grant;
        listed = passed.listed;
        allows = grant_live-Allows epoch passed.grant passed.human resource action now passed.live;
      }
