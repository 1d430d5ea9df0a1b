-- ===== src/SafeJson/Offsets.antt =====
-- Where the scanner says that an escape sequence is.
use direct_trade_protocol.Prelude.{
  ℕ, suc, ◌+◌, ◌≡◌, refl, Bool, true, false, [], ◌∷◌, ◌∙◌, Text, Result, ok, err, arith, ◌⊎◌, inl,
  inr,
}
use direct_trade_protocol.SafeJson.{
  unsafe_member_name, Scan, Mode, outside, in_string, in_number, end_string, scan_string,
  scan_number, scan_unit, scan_end, scan, assert_safe_json_text,
}

-- The unit at an offset of a text.
pub data IsAt : Text → ℕ → ℕ → Type 0 where
  here : {c : ℕ} {s : Text} → IsAt (c ∷ s) 0 c
  later : {c d i : ℕ} {s : Text} → IsAt s i d → IsAt (c ∷ s) (suc i) d

end_string-safe :
    (is_name : Bool) (start j : ℕ) (name : Text) (opens : _)
    → end_string is_name start name opens ≡ err (unsafe_member_name, j)
    → ⊥
unfolding end_string
end_string-safe is_name start j name opens h = ground (arith, h)

scan_string-escape :
    (is_name escaped : Bool) (start : ℕ) (read : Text) (s : Scan) (i c j : ℕ)
    → scan_string is_name escaped start read s i c ≡ err (unsafe_member_name, j)
    → (c ≡ 92) × (j ≡ i)
unfolding scan_string end_string
scan_string-escape is_name true start read s i c j h = absurd (cc h)
scan_string-escape is_name false start read s i c j h = ground (arith, h)

scan_number-safe :
    (integers : Bool) (start : ℕ) (s : Scan) (i c j : ℕ)
    → scan_number integers start s i c ≡ err (unsafe_member_name, j)
    → ⊥
unfolding scan_number
scan_number-safe integers start s i c j h = ground (arith, h)

mode-escape :
    (integers : Bool) (mode : Mode) (names : _) (expect : Bool) (i c j : ℕ)
    → scan_unit integers record { mode = mode; names = names; expect_name = expect } i c
      ≡ err (unsafe_member_name, j)
    → (c ≡ 92) × (j ≡ i)
unfolding scan_unit
mode-escape integers outside names expect i c j h = absurd (cc h)
mode-escape integers (in_string is_name escaped start read) names expect i c j h =
    scan_string-escape is_name escaped start read _ i c j h
mode-escape integers (in_number start) names expect i c j h =
    absurd (scan_number-safe integers start _ i c j h)

scan_end-safe :
    (mode : Mode) (names : _) (expect : Bool) (j : ℕ)
    → scan_end record { mode = mode; names = names; expect_name = expect }
      ≡ err (unsafe_member_name, j)
    → ⊥
unfolding scan_end
scan_end-safe outside names expect j h = cc h
scan_end-safe (in_string is_name escaped start read) names expect j h =
    end_string-safe is_name start j read names h
scan_end-safe (in_number start) names expect j h = cc h

Result-cases : {E A : Type 0} (r : Result E A) → ((a : A) × (r ≡ ok a)) ⊎ ((e : E) × (r ≡ err e))
Result-cases (ok a) = inl (a, refl)
Result-cases (err e) = inr (e, refl)

scan-escape :
    (integers : Bool) (s : Scan) (i : ℕ) (text : Text) (j : ℕ)
    → scan integers s i text ≡ err (unsafe_member_name, j)
    → (k : ℕ) × (j ≡ i + k) × IsAt text k 92
unfolding scan
scan-escape integers s i [] j h = absurd (scan_end-safe s.mode s.names s.expect_name j h)
scan-escape integers s i (c ∷ text) j h = elim (Result-cases (scan_unit integers s i c)) [
  | inl (t, is) ↦
      let (k, j_is, at_k) = scan-escape integers t (suc i) text j (rw (is, scan) at h) in
      (suc k, omega (arith, j_is), later at_k)
  | inr (e, is) ↦
      let (c_is, j_is) =
        mode-escape integers s.mode s.names s.expect_name i c j (is ∙ (rw (is, scan) at h)) in
      (0, omega (arith, j_is), rw c_is here)
]

-- Where the scanner refuses a text for a name with an escape sequence, the unit at the offset of
-- the error is a reverse solidus.
pub assert_safe_json_text-escape :
    (integers : Bool) (text : Text) (j : ℕ)
    → assert_safe_json_text integers text ≡ err (unsafe_member_name, j)
    → IsAt text j 92
unfolding assert_safe_json_text
assert_safe_json_text-escape integers text j h =
    let (k, j_is, at_k) = scan-escape integers _ 0 text j h in
    let same : j ≡ k = omega (arith, j_is) in rw same at_k
