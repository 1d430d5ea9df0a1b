-- ===== src/Prelude/Throws.antt =====
-- A computation that may throw: the value, or the error that was thrown.
use mathlib.Core.Path.{◌≡◌, refl}
use mathlib.Core.Bool.{Bool, true, false}

pub data Result {ℓ κ} (E : Type κ) (A : Type ℓ) : Type (ℓ ⊔ κ) where
  ok : A → Result E A
  err : E → Result E A

module _ {ι κ} {E : Type ι} {B : Type κ} where
  infixl 5 ◌>>=◌ ◌>>◌
  abbrev pub ◌>>=◌ {ℓ} : {A : Type ℓ} → Result E A → (A → Result E B) → Result E B
  err thrown >>= rest = err thrown
  ok a >>= rest = rest a

  abbrev pub ◌>>◌ : Result E (Unit {0}) → Result E B → Result E B
  first >> rest = first >>= λ done. rest

-- `if (!test) throw e`
abbrev pub demand {ι} : {E : Type ι} → Bool → E → Result E (Unit {0})
demand true e = ok tt
demand false e = err e

-- `if (test) throw e`
abbrev pub refuse {ι} : {E : Type ι} → Bool → E → Result E (Unit {0})
refuse true e = err e
refuse false e = ok tt

-- A bind that returns: its first part returned a value, and the rest returned on that value. What
-- follows is handed the value as a variable.
module _ {ι ℓ κ} {E : Type ι} {A : Type ℓ} {B : Type κ} where
  pub >>=-elim {υ} :
      {P : Type υ} (m : Result E A) (rest : A → Result E B) {b : B}
      → (m >>= rest) ≡ ok b
      → ((a : A) → m ≡ ok a → rest a ≡ ok b → P)
      → P
  >>=-elim (ok a) rest h then_prove = then_prove a refl h
  >>=-elim (err e) rest h then_prove = absurd (cc)

  -- The same as a tuple.
  pub >>=-eq-ok :
      (m : Result E A) (rest : A → Result E B) {b : B}
      → (m >>= rest) ≡ ok b
      → (a : A) × (m ≡ ok a) × (rest a ≡ ok b)
  >>=-eq-ok m rest h = >>=-elim m rest h λ a returned continued. (a, returned, continued)

pub demand-eq-ok {ι} : {E : Type ι} (b : Bool) (e : E) {u : Unit {0}} → demand b e ≡ ok u → b ≡ true
demand-eq-ok true e h = refl
demand-eq-ok false e h = cc

pub refuse-eq-ok {ι} :
    {E : Type ι} (b : Bool) (e : E) {u : Unit {0}} → refuse b e ≡ ok u → b ≡ false
refuse-eq-ok false e h = refl
refuse-eq-ok true e h = cc

pub ok-injective {ℓ κ} :
    {E : Type κ} {A : Type ℓ} {a b : A} → ◌≡◌ {A = Result E A} (ok a) (ok b) → a ≡ b
ok-injective h = cc

-- A chain that returned passed its first test.
module _ {ι κ υ} {E : Type ι} {B : Type κ} {P : Type υ} where
  pub demand-elim :
      (b : Bool) (e : E) (rest : Unit {0} → Result E B) {x : B}
      → (demand b e >>= rest) ≡ ok x
      → (b ≡ true → rest tt ≡ ok x → P)
      → P
  demand-elim true e rest h then_prove = then_prove refl h
  demand-elim false e rest h then_prove = absurd (cc)

  pub refuse-elim :
      (b : Bool) (e : E) (rest : Unit {0} → Result E B) {x : B}
      → (refuse b e >>= rest) ≡ ok x
      → (b ≡ false → rest tt ≡ ok x → P)
      → P
  refuse-elim false e rest h then_prove = then_prove refl h
  refuse-elim true e rest h then_prove = absurd (cc)
