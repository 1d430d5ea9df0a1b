-- ===== src/Base58/Tests.antt =====
-- Known texts, with leading zero bytes, and a unit that is no digit.
use direct_trade_protocol.Prelude.{ℕ, ◌≡◌, refl, List, [], ◌∷◌, codes, ok, err}
use direct_trade_protocol.Base58.{base58_encode, base58_decode}

abbrev bytes : List ℕ
bytes = 0 ∷ 0 ∷ 40 ∷ 127 ∷ 180 ∷ 205 ∷ []

encoded :
    (base58_encode bytes ≡ codes "11233QC4")
    × (base58_decode (codes "11233QC4") ≡ ok bytes)
    × (base58_decode (codes "1O") ≡ err 79)
    × (base58_encode [] ≡ [])
unfolding base58_encode base58_decode
encoded = (refl, refl, refl, refl)
