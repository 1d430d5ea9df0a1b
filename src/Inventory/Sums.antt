-- ===== src/Inventory/Sums.antt =====
-- The sum of the reservations under insertion and removal of one of them.
use direct_trade_protocol.Prelude.{
  ℕ, ◌+◌, ◌≤◌, ◌≡◌, refl, sym, ap, ◌∙◌, false, Option, none, some, List, [], ◌∷◌, arith, Result, ok,
  >>=-eq-ok, ok-injective, Text, ◌===◌, inl, inr, Bool-cases,
}
use direct_trade_protocol.Prelude.Int.{ℤ, pos, negsuc, +ℤ_pos, is_negative}
use direct_trade_protocol.Prelude.Assoc.{Assoc, lookup, insert, remove, values}
use direct_trade_protocol.Decimal.{DecimalError, parse_decimal}
use direct_trade_protocol.Decimal.Bounds.{parse_decimal-bounds}
use direct_trade_protocol.Inventory.Reducer.{sum_values, held}

nonneg-pos : (v : ℤ) → is_negative v ≡ false → (n : ℕ) × (v ≡ pos n)
nonneg-pos (pos n) h = (n, refl)
nonneg-pos (negsuc n) h = cc

-- An amount read without the sign rule is a natural number.
pub parse-pos : (t : Text) (v : ℤ) → parse_decimal t 3 false ≡ ok v → (n : ℕ) × (v ≡ pos n)
parse-pos t v h = nonneg-pos v (ground (arith, (parse_decimal-bounds t 3 false v h).2))

pub held-pos : (o : Option Text) (v : ℤ) → held o ≡ ok v → (n : ℕ) × (v ≡ pos n)
unfolding held
held-pos none v h = (0, ok-injective (sym h))
held-pos (some t) v h = parse-pos t v h

-- The texts are amounts whose sum is `n`.
pub data Sums : List Text → ℕ → Type 0 where
  zero : {n : ℕ} → n ≡ 0 → Sums [] n
  add :
      {t : Text} {ts : List Text} {n : ℕ} (m k : ℕ)
      → parse_decimal t 3 false ≡ ok (pos m)
      → Sums ts k
      → n ≡ m + k
      → Sums (t ∷ ts) n

pub sum_values-Sums :
    (a : ℕ) (ts : List Text) (v : ℤ)
    → sum_values (pos a) ts ≡ ok v
    → (n : ℕ) × (v ≡ pos (a + n)) × Sums ts n
unfolding sum_values
sum_values-Sums a [] v h = (0, ok-injective (sym h) ∙ ap pos (omega arith), Sums.zero refl)
sum_values-Sums a (t ∷ ts) v h =
    let (w, read, h1) = >>=-eq-ok (parse_decimal t 3 false) _ h in
    let (m, e) = parse-pos t w read in
    let (n, sum, rest) = sum_values-Sums (a + m) ts v (rw (e, +ℤ_pos a m) at h1) in
    (m + n, sum ∙ ap pos (omega arith), Sums.add m n (read ∙ ap ok e) rest refl)

pub Sums-sum_values :
    (a : ℕ) (ts : List Text) (n : ℕ) → Sums ts n → sum_values (pos a) ts ≡ ok (pos (a + n))
unfolding sum_values
Sums-sum_values a [] n (zero e) = ap (λ (k : ℕ). ok (pos k)) (omega arith)
Sums-sum_values a (t ∷ ts) n (add m k read rest e) =
    rw (read, +ℤ_pos a m, Sums-sum_values (a + m) ts k rest)
      (ap (λ (k : ℕ). ok (pos k)) (omega arith))

pos_eq : {a b : ℕ} → ◌≡◌ {A = Result DecimalError ℤ} (ok (pos a)) (ok (pos b)) → a ≡ b
pos_eq h = cc

-- Writing a reservation: what it held before is exchanged for what it holds now.
pub Sums-insert :
    (k t : Text) (m : Assoc Text) (old new n : ℕ)
    → Sums (values m) n
    → held (lookup k m) ≡ ok (pos old)
    → parse_decimal t 3 false ≡ ok (pos new)
    → (s : ℕ) × Sums (values (insert k t m)) s × (s + old ≡ n + new)
unfolding held lookup insert values
Sums-insert k t [] old new n (zero e) h r =
    let none_held : old ≡ 0 = cc in
    (new, Sums.add new 0 r (Sums.zero refl) (omega arith), omega arith)
Sums-insert k t ((j, u) ∷ m) old new n (add a b read rest e) h r = elim (Bool-cases (j === k)) [
  | inl here ↦
      let same : a ≡ old = pos_eq (sym read ∙ rw here at h) in
      rw here (new + b, Sums.add new b r rest refl, omega arith)
  | inr there ↦
      let (s, sum, balance) = Sums-insert k t m old new b rest (rw there at h) r in
      rw there (a + s, Sums.add a s read sum refl, omega arith)
]

-- Deleting a reservation: what it held is taken off.
pub Sums-remove :
    (k : Text) (m : Assoc Text) (old n : ℕ)
    → Sums (values m) n
    → held (lookup k m) ≡ ok (pos old)
    → (s : ℕ) × Sums (values (remove k m)) s × (s + old ≡ n)
unfolding held lookup remove values
Sums-remove k [] old n (zero e) h = let none_held : old ≡ 0 = cc in (0, Sums.zero refl, omega arith)
Sums-remove k ((j, u) ∷ m) old n (add a b read rest e) h = elim (Bool-cases (j === k)) [
  | inl here ↦
      let same : a ≡ old = pos_eq (sym read ∙ rw here at h) in rw here (b, rest, omega arith)
  | inr there ↦
      let (s, sum, balance) = Sums-remove k m old b rest (rw there at h) in
      rw there (a + s, Sums.add a s read sum refl, omega arith)
]

-- A reservation holds no more than all of them.
pub held-le-Sums :
    (k : Text) (m : Assoc Text) (old n : ℕ)
    → Sums (values m) n
    → held (lookup k m) ≡ ok (pos old)
    → old ≤ n
held-le-Sums k m old n sums h = let (s, _, balance) = Sums-remove k m old n sums h in omega arith
