-- ===== src/Profiles/Issues.antt =====
-- The issues that a validator of sdk/src/profiles collects, `issues` and `fail` of each file. What a
-- part of a validator adds to the list is a value, and `&` runs one part after the other.
use direct_trade_protocol.Prelude.{
  ℕ, ◌≡◌, refl, ap, Bool, true, false, not, List, [], ◌∷◌, ◌++◌, Text, codes, Result, ok, err,
  ◌>>=◌, >>=-elim, ok-injective, String,
}
use direct_trade_protocol.Decimal.{to_digits}
use direct_trade_protocol.Canonical.{Json, CanonicalError, canonicalize, arr, item, nil}

-- An issue with its path and its message.
pub data Issue : Type 0 where
  issue : Text → Text → Issue

-- What a validator throws: the error of `canonicalize`, or the RangeError of `toISOString`.
pub data ProfileError : Type 0 where
  not_canonical : CanonicalError → ProfileError
  invalid_time : ProfileError

abbrev pub Checked : Type 0
Checked = Result ProfileError (List Issue)

abbrev pub pass : Checked
pass = ok []

abbrev pub fail : Text → String → Checked
fail path message = ok (issue path (codes message) ∷ [])

-- `if (test) fail(path, message)`
unfoldable pub fail_if : Bool → Text → String → Checked
fail_if true path message = fail path message
fail_if false path message = pass

infixr 4 ◌&◌
unfoldable pub ◌&◌ : Checked → Checked → Checked
first & rest = do a ← first; b ← rest; ok (a ++ b)

-- `canonicalize(v)`
unfoldable pub canonical : Json → Result ProfileError Text
canonical v = elim (canonicalize v) [ ok t ↦ ok t | err e ↦ err (not_canonical e) ]

-- `canonicalize([v, w])`
unfoldable pub canonical_pair : Json → Json → Result ProfileError Text
unfolding canonical
canonical_pair v w = canonical (arr (item v (item w nil)))

-- `${path}[${i}]`
unfoldable pub at : Text → ℕ → Text
at path i = path ++ codes "[" ++ to_digits i ++ codes "]"

-- `${path}.${name}`
unfoldable pub dot : Text → String → Text
dot path name = path ++ codes "." ++ codes name

append-nil : (xs ys : List Issue) → xs ++ ys ≡ [] → (xs ≡ []) × (ys ≡ [])
append-nil [] ys h = (refl, h)
append-nil (x ∷ xs) ys h = absurd (cc h)

-- A run of two parts finds nothing only when each finds nothing.
pub &_elim {ℓ} : {P : Type ℓ} (a b : Checked) → (a & b) ≡ pass → (a ≡ pass → b ≡ pass → P) → P
unfolding ◌&◌
&_elim a b h then_prove = >>=-elim a _ h λ x first h1. >>=-elim b _ h1 λ y second h2.
    let (x_nil, y_nil) = append-nil x y (ok-injective h2) in
    let none_first = rw x_nil at first in
    let none_second = rw y_nil at second in then_prove none_first none_second

pub fail_if-pass : (b : Bool) (path : Text) (m : String) → fail_if b path m ≡ pass → b ≡ false
unfolding fail_if
fail_if-pass false path m h = refl
fail_if-pass true path m h = absurd (cc h)

pub fail_unless-pass :
    (b : Bool) (path : Text) (m : String) → fail_if (not b) path m ≡ pass → b ≡ true
unfolding fail_if
fail_unless-pass true path m h = refl
fail_unless-pass false path m h = absurd (cc h)

-- What is caught and thrown again is a value where it was one.
caught-ok :
    (r : Result CanonicalError Text) (t : Text)
    → elim r as (λ _. Result ProfileError Text) [ ok s ↦ ok s | err e ↦ err (not_canonical e) ]
      ≡ ok t
    → r ≡ ok t
caught-ok (ok s) t h = ap ok (ok-injective h)
caught-ok (err e) t h = absurd (cc h)

pub canonical-ok : (v : Json) (t : Text) → canonical v ≡ ok t → canonicalize v ≡ ok t
unfolding canonical
canonical-ok v t h = caught-ok (canonicalize v) t h

-- A run of two parts throws when the second part does.
pub &_throws :
    (a b : Checked) (e : ProfileError)
    → b ≡ err e
    → (thrown : ProfileError) × ((a & b) ≡ err thrown)
unfolding ◌&◌
&_throws (err first) b e h = (first, refl)
&_throws (ok x) b e h = (e, rw h refl)

pub &_throws_first : (a b : Checked) (e : ProfileError) → a ≡ err e → (a & b) ≡ err e
unfolding ◌&◌
&_throws_first a b e h = rw h refl
