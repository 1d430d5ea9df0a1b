-- ===== src/Canonical/Order.antt =====
-- The canonical text does not depend on the order in which an object lists its members.
use native.Mathlib.Decide.{ℕ_discrete}
use direct_trade_protocol.Prelude.{
  ◌≡◌, ◌≢◌, refl, ap, ◌∙◌, true, false, not, List, [], ◌∷◌, arith, Text,
}
use direct_trade_protocol.Canonical.{
  Json, undefined, obj, Members, member, Part, before, place, sorted_parts, serialize, canonicalize,
}

-- `before` is a strict order in which distinct names are comparable.
before_total : (s t : Text) → s ≢ t → before s t ≡ not (before t s)
unfolding before
before_total [] [] h = absurd (h refl)
before_total [] (b ∷ t) h = refl
before_total (a ∷ s) [] h = refl
before_total (a ∷ s) (b ∷ t) h = elim (ℕ_discrete a b) [
  | yes e ↦ ground (arith, before_total s t (λ p. h (cc (e, p))))
  | no n ↦ ground arith
]

pub before_squeeze : (r p q : Text) → before r p ≡ false → before r q ≡ true → before p q ≡ true
unfolding before
before_squeeze r p [] h k = cc
before_squeeze r [] (c ∷ q) h k = refl
before_squeeze [] (b ∷ p) (c ∷ q) h k = cc
before_squeeze (a ∷ r) (b ∷ p) (c ∷ q) h k = ground (arith, before_squeeze r p q)

place_comm : (p q : Part) (l : List Part) → p.0 ≢ q.0 → place p (place q l) ≡ place q (place p l)
unfolding place
place_comm p q [] h = ground (arith, before_total p.0 q.0 h)
place_comm p q (r ∷ l) h = ground (
  arith,
  before_total p.0 q.0 h,
  before_squeeze r.0 p.0 q.0,
  before_squeeze r.0 q.0 p.0,
  place_comm p q l h,
)

-- Two listings of the same members: an object's names are distinct, so neighbours that change
-- places have different names.
pub data Reordered : Members → Members → Type 0 where
  same : {m n : Members} → m ≡ n → Reordered m n
  keep :
      (k : Text) (v : Json) {m n : Members}
      → Reordered m n
      → Reordered (member k v m) (member k v n)
  swap :
      (j k : Text) (v w : Json) {m : Members}
      → j ≢ k
      → Reordered (member j v (member k w m)) (member k w (member j v m))
  chain : {m n o : Members} → Reordered m n → Reordered n o → Reordered m o

-- What a member contributes to the sorted parts.
contribute : Text → Json → List Part → List Part
contribute k undefined ps = ps
contribute k v ps = place (k, serialize v) ps

sorted_parts-member :
    (k : Text) (v : Json) (m : Members)
    → sorted_parts (member k v m) ≡ contribute k v (sorted_parts m)
unfolding sorted_parts contribute
sorted_parts-member k undefined m = refl
sorted_parts-member k _ m = refl

contribute_comm :
    (j k : Text) (v w : Json) (ps : List Part)
    → j ≢ k
    → contribute j v (contribute k w ps) ≡ contribute k w (contribute j v ps)
unfolding contribute
contribute_comm j k undefined w ps h = refl
contribute_comm j k v undefined ps h = refl
contribute_comm j k v w ps h = place_comm (j, serialize v) (k, serialize w) ps h

sorted_parts-Reordered : {m n : Members} → Reordered m n → sorted_parts m ≡ sorted_parts n
sorted_parts-Reordered (same e) = ap sorted_parts e
sorted_parts-Reordered (keep k v {m} {n} r) =
    rw (sorted_parts-member k v m, sorted_parts-member k v n, sorted_parts-Reordered r)
sorted_parts-Reordered (swap j k v w {m} h) =
    rw
      (
        sorted_parts-member j v (member k w m),
        sorted_parts-member k w m,
        sorted_parts-member k w (member j v m),
        sorted_parts-member j v m,
      )
      (contribute_comm j k v w (sorted_parts m) h)
sorted_parts-Reordered (chain r s) = sorted_parts-Reordered r ∙ sorted_parts-Reordered s

-- Two objects with the same members in different orders have the same canonical text, or are
-- refused with the same error.
pub canonicalize-Reordered :
    {m n : Members} → Reordered m n → canonicalize (obj m) ≡ canonicalize (obj n)
unfolding canonicalize
canonicalize-Reordered r = rw (sorted_parts-Reordered r)
