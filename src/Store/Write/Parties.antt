-- ===== src/Store/Write/Parties.antt =====
-- What the comparison of two lists of counterparties in writeRecord says of them.
use mathlib.Core.List.{Memᴰ}
use direct_trade_protocol.Prelude.{
  suc, ◌≤◌, ◌≡◌, refl, ◌∙◌, Bool, true, false, not, ◌||◌, ◌==◌, ==_iff, List, [], ◌∷◌, all, length,
  arith, Text, ◌===◌, ===_iff, ===_sym, ===_refl, includes, includes-Mem, distinct, All, Bool-cases,
  ◌⊎◌, inl, inr, and-true, if◌then◌else◌,
}
use direct_trade_protocol.Store.Write.{same_set}

-- The list without the first occurrence of a text.
drop_one : Text → List Text → List Text
drop_one t [] = []
drop_one t (s ∷ l) = let rest = drop_one t l in if s === t then l else s ∷ rest

length-drop_one :
    (t : Text) (l : List Text) → includes l t ≡ true → suc (length (drop_one t l)) ≡ length l
unfolding drop_one includes
length-drop_one t [] h = absurd (cc h)
length-drop_one t (s ∷ l) h = ground (arith, h, length-drop_one t l)

includes-drop_one :
    (t x : Text) (l : List Text)
    → includes l x ≡ true
    → (t === x) ≡ false
    → includes (drop_one t l) x ≡ true
unfolding drop_one includes
includes-drop_one t x [] h other = absurd (cc h)
includes-drop_one t x (s ∷ l) h other =
    ground (arith, h, other, ===_iff s t, ===_iff s x, ===_iff t x, includes-drop_one t x l)

or_left : (a b : Bool) → (a || b) ≡ false → a ≡ false
or_left a b h = ground arith

or_right : (a b : Bool) → (a || b) ≡ false → b ≡ false
or_right a b h = ground arith

not-true : (b : Bool) → not b ≡ true → b ≡ false
not-true b h = ground arith

all-drop_one :
    (t : Text) (xs l : List Text)
    → includes xs t ≡ false
    → all (includes l) xs ≡ true
    → all (includes (drop_one t l)) xs ≡ true
unfolding includes
all-drop_one t [] l absent h = refl
all-drop_one t (x ∷ xs) l absent h =
    let (here, there) = and-true (includes l x) (all (includes l) xs) h in
    let other : (t === x) ≡ false = ===_sym t x ∙ or_left (x === t) (includes xs t) absent in
    let rest = all-drop_one t xs l (or_right (x === t) (includes xs t) absent) there in
    ground (arith, includes-drop_one t x l here other, rest)

-- A list that repeats nothing is no longer than one that has all its texts.
length-distinct :
    (xs l : List Text) → distinct xs ≡ true → all (includes l) xs ≡ true → length xs ≤ length l
unfolding distinct
length-distinct [] l once h = omega arith
length-distinct (x ∷ xs) l once h =
    let (absent, once_more) = and-true (not (includes xs x)) (distinct xs) once in
    let (here, there) = and-true (includes l x) (all (includes l) xs) h in
    let shorter =
      length-distinct xs (drop_one x l) once_more
        (all-drop_one x xs l (not-true (includes xs x) absent) there) in
    omega (arith, shorter, length-drop_one x l here)

all-All : (xs l : List Text) → all (includes l) xs ≡ true → All (λ x. Memᴰ x l) xs
all-All [] l h = tt
all-All (x ∷ xs) l h =
    let (here, there) = and-true (includes l x) (all (includes l) xs) h in
    (includes-Mem l x here, all-All xs l there)

-- As many texts in each, and each of the second among the first; and each of the first among the
-- second, where the second repeats none.
pub record SameTexts (old new : List Text) : Type 0 where
  pub count : length old ≡ length new
  pub among : All (λ t. Memᴰ t old) new
  pub all_there : (distinct new ≡ false) ⊎ All (λ t. Memᴰ t new) old

includes_more :
    (s : Text) (l xs : List Text) → all (includes l) xs ≡ true → all (includes (s ∷ l)) xs ≡ true
unfolding includes
includes_more s l [] h = refl
includes_more s l (x ∷ xs) h =
    let (here, there) = and-true (includes l x) (all (includes l) xs) h in
    ground (arith, here, includes_more s l xs there)

all-own : (l : List Text) → all (includes l) l ≡ true
unfolding includes
all-own [] = refl
all-own (s ∷ l) = ground (arith, ===_refl s, includes_more s l l (all-own l))

covered :
    (xs old new : List Text)
    → length old ≡ length new
    → all (includes old) new ≡ true
    → distinct new ≡ true
    → all (includes old) xs ≡ true
    → All (λ t. Memᴰ t new) xs
unfolding distinct
covered [] old new count among once h = tt
covered (x ∷ xs) old new count among once h =
    let (here, there) = and-true (includes old x) (all (includes old) xs) h in
    let rest = covered xs old new count among once there in
    elim (Bool-cases (includes new x)) [
      | inl kept ↦ (includes-Mem new x kept, rest)
      | inr lost ↦
          let once_more : distinct (x ∷ new) ≡ true = ground (arith, lost, once) in
          let more : all (includes old) (x ∷ new) ≡ true = ground (arith, here, among) in
          let longer = length-distinct (x ∷ new) old once_more more in
          absurd (omega (arith, longer, count))
    ]

pub same_set-SameTexts : (old new : List Text) → same_set old new ≡ true → SameTexts old new
unfolding same_set
same_set-SameTexts old new h =
    let (counted, among) = and-true (length old == length new) (all (includes old) new) h in
    let count = (==_iff (length old) (length new)).0 counted in
    record {
      count = count;
      among = all-All new old among;
      all_there = elim (Bool-cases (distinct new)) [
        | inr repeats ↦ inl repeats
        | inl once ↦ inr (covered old old new count among once (all-own old))
      ];
    }
