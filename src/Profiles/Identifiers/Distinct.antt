-- ===== src/Profiles/Identifiers/Distinct.antt =====
-- What the loop over identifiers accepts.
use direct_trade_protocol.Prelude.{
  ℕ, suc, ◌≡◌, true, false, List, ◌∷◌, Text, String, ok, includes, >>=-elim, some, Option-cases,
  inl, inr,
}
use direct_trade_protocol.Canonical.{Json, Items, nil, item, Members}
use direct_trade_protocol.Profiles.Issues.{
  Checked, pass, &_elim, fail_if-pass, fail_unless-pass, canonical_pair,
}
use direct_trade_protocol.Profiles.Shapes.{text, scheme_ok}
use direct_trade_protocol.Profiles.Identifiers.{scheme_of, value_of, identifier, check_identifiers}

-- The list is one of identifiers with a good scheme and value, whose keys are new and distinct.
pub data AreDistinct : List Text → Items → Type 0 where
  none_left : {seen : List Text} → AreDistinct seen nil
  one_more :
      {seen : List Text} {v : Json} {vs : Items} (id : Members) (key : Text)
      → identifier v ≡ some id
      → scheme_ok (scheme_of id) ≡ true
      → text (value_of id) 128 ≡ true
      → canonical_pair (scheme_of id) (value_of id) ≡ ok key
      → includes seen key ≡ false
      → AreDistinct (key ∷ seen) vs
      → AreDistinct seen (item v vs)

module _ (scheme_message : String) (own : Members → Text → Checked) where
  pub check_identifiers-AreDistinct :
      (seen : List Text) (path : Text) (i : ℕ) (vs : Items)
      → check_identifiers scheme_message own seen path i vs ≡ pass
      → AreDistinct seen vs
  unfolding check_identifiers
  check_identifiers-AreDistinct seen path i nil h = none_left
  check_identifiers-AreDistinct seen path i (item v vs) h = elim (Option-cases (identifier v)) [
    | inl absent ↦
        let refused = rw (absent, check_identifiers) at h in
        &_elim _ _ refused λ wrong _. absurd (cc wrong)
    | inr (id, present) ↦
        let shown = rw (present, check_identifiers) at h in
        &_elim _ _ shown λ scheme h1. &_elim _ _ h1 λ value h2.
          >>=-elim (canonical_pair (scheme_of id) (value_of id)) _ h2 λ key made h3.
            &_elim _ _ h3 λ new h4. &_elim _ _ h4 λ _ h5.
              one_more id key present (fail_unless-pass _ _ _ scheme) (fail_unless-pass _ _ _ value)
                made (fail_if-pass _ _ _ new)
                (check_identifiers-AreDistinct (key ∷ seen) path (suc i) vs h5)
  ]
