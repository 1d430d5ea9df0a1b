-- ===== src/Prelude/Texts.antt =====
-- JavaScript strings: a text is the list of its UTF-16 code units.
use Prim.Native.Char.{code}
use Prim.Native.Nat.{ℕ}
use Prim.Native.String.{String}
use mathlib.Core.Path.{◌≡◌, refl, sym}
use mathlib.Core.Logic.{◌↔◌, inl, inr}
use mathlib.Core.Bool.{Bool, true, false, not, ◌&&◌, ◌||◌}
use mathlib.Core.List.{List, [], ◌∷◌, Memᴰ}
use mathlib.Core.List.Memᴰ.{head, tail}
use native.Mathlib.Omega.{arith}
use direct_trade_protocol.Prelude.Tests.{◌==◌, Bool-cases}

abbrev pub Text : Type 0
Text = List ℕ

-- An ASCII literal.
abbrev pub codes : String → Text
codes String.[] = []
codes (String.◌∷◌ c s) = code c ∷ codes s

-- `===` on strings
infix 50 ◌===◌
unfoldable pub ◌===◌ : Text → Text → Bool
[] === [] = true
(a ∷ s) === (b ∷ t) = a == b && s === t
_ === _ = false

pub ===_iff : (s t : Text) → ((s === t) ≡ true) ↔ (s ≡ t)
unfolding ◌===◌
===_iff [] [] = (λ _. refl, λ _. refl)
===_iff [] (b ∷ t) = (λ h. cc, λ h. cc)
===_iff (a ∷ s) [] = (λ h. cc, λ h. cc)
===_iff (a ∷ s) (b ∷ t) = ground (arith, ===_iff s t)

pub ===_refl : (s : Text) → (s === s) ≡ true
===_refl s = (===_iff s s).1 refl

-- Array.prototype.includes, and Set.prototype.has
unfoldable pub includes : List Text → Text → Bool
includes [] t = false
includes (s ∷ l) t = s === t || includes l t

pub includes-Mem : (l : List Text) (t : Text) → includes l t ≡ true → Memᴰ t l
unfolding includes
includes-Mem [] t h = absurd (cc h)
includes-Mem (s ∷ l) t h = elim (Bool-cases (s === t)) [
  | inl same ↦ head (sym ((===_iff s t).0 same))
  | inr other ↦ tail (includes-Mem l t (rw other at h))
]

pub includes_mem : (l : List Text) (t : Text) → Memᴰ t l → includes l t ≡ true
unfolding includes
includes_mem [] t m = elim m [ ]
includes_mem (s ∷ l) t m = elim m [
  | head e ↦ let same : (s === t) ≡ true = (===_iff s t).1 (sym e) in ground (arith, same)
  | tail n ↦ ground (arith, includes_mem l t n)
]

-- `new Set(l).size === l.length`
unfoldable pub distinct : List Text → Bool
unfolding includes
distinct [] = true
distinct (s ∷ l) = not (includes l s) && distinct l

pub ===_sym : (s t : Text) → (s === t) ≡ (t === s)
unfolding ◌===◌
===_sym [] [] = refl
===_sym [] (b ∷ t) = refl
===_sym (a ∷ s) [] = refl
===_sym (a ∷ s) (b ∷ t) = ground (arith, ===_sym s t)
