-- ===== src/Decimal/Padding.antt =====
-- Padding with zeros on the right and removing them again.
use direct_trade_protocol.Prelude.{
  ℕ, zero, suc, ◌-◌, ◌≤◌, ◌≡◌, refl, ap, true, [], ◌∷◌, ◌++◌, arith, ◌==◌, ==_iff, length, all,
  replicate, length-append, length-replicate, all-append, all-replicate, inl, inr, Bool-cases, Text,
  some, none, Option,
}
use direct_trade_protocol.Decimal.{
  is_digit, digits_value, pad_start, pad_end, strip_zeros, put_unless_zero, fraction_suffix,
  fraction_shape, split_dot, fraction_text,
}
use mathlib.Core.List.{append-nil}

pub length-strip_zeros : (s : Text) → length (strip_zeros s) ≤ length s
unfolding strip_zeros
length-strip_zeros [] = omega arith
length-strip_zeros (c ∷ s) = ground (arith, length-strip_zeros s)

pub strip_zeros-IsDigits : (s : Text) → all is_digit s ≡ true → all is_digit (strip_zeros s) ≡ true
unfolding strip_zeros
strip_zeros-IsDigits [] h = refl
strip_zeros-IsDigits (c ∷ s) h = ground (arith, strip_zeros-IsDigits s)

sub-one-suc : (n : ℕ) → suc n - 1 ≡ n
sub-one-suc n = omega arith

pad_end-put :
    (c n : ℕ) (t s : Text)
    → length t ≤ n
    → pad_end n t ≡ s
    → pad_end (suc n) (put_unless_zero c t) ≡ c ∷ s
pad_end-put c n [] s fits h =
    let e : suc n - 0 ≡ suc n = omega arith in
    let e' : n - 0 ≡ n = omega arith in
    let h' : replicate {A = ℕ} n b'0' ≡ s = rw e' at h in
    elim (Bool-cases (c == b'0')) [
      | inl zeros ↦ rw (zeros, e) (cc ((==_iff c b'0').0 zeros))
      | inr other ↦ rw (other, sub-one-suc n) (ap (λ (u : Text). c ∷ u) h')
    ]
pad_end-put c n (d ∷ t) s fits h =
    let e : suc n - suc (suc (length t)) ≡ n - suc (length t) = omega arith in
    rw e (ap (λ (u : Text). c ∷ u) h)

-- What `strip_zeros` removes are zeros.
pub pad_end-strip_zeros : (s : Text) → pad_end (length s) (strip_zeros s) ≡ s
unfolding strip_zeros
pad_end-strip_zeros [] = refl
pad_end-strip_zeros (c ∷ s) =
    pad_end-put c (length s) (strip_zeros s) s (length-strip_zeros s) (pad_end-strip_zeros s)

pub length-pad_start : (n : ℕ) (s : Text) → length s ≤ n → length (pad_start n s) ≡ n
length-pad_start n s h =
    rw
      (
        length-append (replicate (n - length s) b'0') s,
        length-replicate {A = ℕ} (n - length s) b'0',
      )
      (omega arith)

digits_value-zeros : (n : ℕ) (s : Text) → digits_value 0 (replicate n b'0' ++ s) ≡ digits_value 0 s
unfolding digits_value
digits_value-zeros zero s = refl
digits_value-zeros (suc n) s = digits_value-zeros n s

-- Zeros in front do not change the value.
pub digits_value-pad_start : (n : ℕ) (s : Text) → digits_value 0 (pad_start n s) ≡ digits_value 0 s
digits_value-pad_start n s = digits_value-zeros (n - length s) s

pub pad_start-IsDigits :
    (n : ℕ) (s : Text) → all is_digit s ≡ true → all is_digit (pad_start n s) ≡ true
pad_start-IsDigits n s h =
    rw
      (
        all-append is_digit (replicate (n - length s) b'0') s,
        all-replicate is_digit (n - length s) b'0' refl,
      )
      h

-- Cutting a printed amount at its full stop.
split_dot-digits : (s t : Text) → all is_digit s ≡ true → split_dot (s ++ b'.' ∷ t) ≡ (s, some t)
unfolding split_dot
split_dot-digits [] t h = refl
split_dot-digits (c ∷ s) t h = ground (arith, split_dot-digits s t)

split_dot-whole : (s : Text) → all is_digit s ≡ true → split_dot s ≡ (s, none)
unfolding split_dot
split_dot-whole [] h = refl
split_dot-whole (c ∷ s) h = ground (arith, split_dot-whole s)

-- What follows the whole part in a printed amount.
abbrev pub suffix_part : Text → Option Text
suffix_part [] = none
suffix_part (c ∷ s) = some (c ∷ s)

pub split_dot-suffix :
    (w f : Text) → all is_digit w ≡ true → split_dot (w ++ fraction_suffix f) ≡ (w, suffix_part f)
split_dot-suffix w [] h = rw append-nil (split_dot-whole w h)
split_dot-suffix w (c ∷ f) h = split_dot-digits w (c ∷ f) h

pub fraction_text-suffix_part : (f : Text) → fraction_text (suffix_part f) ≡ f
fraction_text-suffix_part [] = refl
fraction_text-suffix_part (c ∷ f) = refl

pub suffix_part-shape : (f : Text) → all is_digit f ≡ true → fraction_shape (suffix_part f) ≡ true
suffix_part-shape [] h = refl
suffix_part-shape (c ∷ f) h = h
