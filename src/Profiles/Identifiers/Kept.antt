-- ===== src/Profiles/Identifiers/Kept.antt =====
-- Identifiers by their keys, and what it means that none is removed.
use mathlib.Core.List.{Memᴰ}
use mathlib.Core.List.Memᴰ.{head, tail}
use direct_trade_protocol.Prelude.{
  ◌≡◌, refl, sym, ap, ◌∙◌, true, false, List, [], ◌∷◌, Text, ◌===◌, ===_iff, ok, includes, >>=-elim,
  ok-injective, Bool-cases, inl, inr,
}
use direct_trade_protocol.Profiles.Identifiers.{Identifier, key_of, keys, lacks_some}

-- The list has an identifier with that key.
abbrev pub HasKey : Text → List Identifier → Type 0
HasKey key ids = (id : Identifier) × Memᴰ id ids × (key_of id ≡ ok key)

includes_tail : (k t : Text) (l : List Text) → (k === t) ≡ false → includes (k ∷ l) t ≡ includes l t
unfolding includes
includes_tail k t l h = rw (h) refl

pub keys-HasKey :
    (ids : List Identifier) (ks : List Text) (key : Text)
    → keys ids ≡ ok ks
    → includes ks key ≡ true
    → HasKey key ids
unfolding keys includes
keys-HasKey [] ks key made found =
    let none_made = ok-injective made in absurd (cc (found, ap (λ l. includes l key) none_made))
keys-HasKey (id ∷ ids) ks key made found = >>=-elim (key_of id) _ made λ k first h1.
    >>=-elim (keys ids) _ h1 λ rest others h2.
      let all_keys = ok-injective h2 in
      let present = ap (λ l. includes l key) all_keys ∙ found in
      elim (Bool-cases (k === key)) [
        | inl same ↦ (id, head refl, first ∙ ap ok ((===_iff k key).0 same))
        | inr other ↦
            let (found_id, place, has) =
              keys-HasKey ids rest key others (sym (includes_tail k key rest other) ∙ present) in
            (found_id, tail place, has)
      ]

-- An identifier that is not missing has its key among those kept.
pub lacks_some-includes :
    (kept : List Text) (ids : List Identifier) (id : Identifier) (key : Text)
    → lacks_some kept ids ≡ ok false
    → Memᴰ id ids
    → key_of id ≡ ok key
    → includes kept key ≡ true
unfolding lacks_some
lacks_some-includes kept [] id key h m made = elim m [ ]
lacks_some-includes kept (i ∷ ids) id key h m made = >>=-elim (key_of i) _ h λ k first h1.
    elim (Bool-cases (includes kept k)) [
      | inl here ↦ elim m [
        | head e ↦
            let same = ok-injective (sym first ∙ ap key_of (sym e) ∙ made) in
            ap (includes kept) (sym same) ∙ here
        | tail n ↦ let rest = rw here at h1 in lacks_some-includes kept ids id key rest n made
      ]
      | inr missing ↦ let stops = rw missing at h1 in absurd (cc stops)
    ]

-- Where none is missing, every identifier was given a key.
pub lacks_some-keyed :
    (kept : List Text) (ids : List Identifier) (id : Identifier)
    → lacks_some kept ids ≡ ok false
    → Memᴰ id ids
    → (key : Text) × (key_of id ≡ ok key)
unfolding lacks_some
lacks_some-keyed kept [] id h m = elim m [ ]
lacks_some-keyed kept (i ∷ ids) id h m = >>=-elim (key_of i) _ h λ k first h1. elim m [
  | head e ↦ (k, ap key_of e ∙ first)
  | tail n ↦ elim (Bool-cases (includes kept k)) [
    | inl here ↦ let rest = rw here at h1 in lacks_some-keyed kept ids id rest n
    | inr missing ↦ let stops = rw missing at h1 in absurd (cc stops)
  ]
]
