-- ===== src/Sequence/Numbers.antt =====
-- The numbers of a store through every company that is added, every record and every snapshot.
use mathlib.Core.Path.{subst}
use mathlib.Core.List.{Memᴰ}
use mathlib.Core.List.Memᴰ.{head, tail, append_cases, eq_of_singleton}
use direct_trade_protocol.Prelude.{
  ℕ, ◌+◌, ◌<◌, ◌≡◌, refl, sym, ap, ◌∙◌, true, false, not, ◌&&◌, none, some, List, [], ◌∷◌, ◌++◌,
  all, arith, length, if◌then◌else◌, Text, ◌===◌, ===_iff, ===_refl, includes, Bool-cases, inl, inr,
  and-true, ltb,
}
use direct_trade_protocol.Prelude.Assoc.{lookup, insert, lookup-insert}
use direct_trade_protocol.Sequence.{
  BusinessRecord, State, highest_from, next_record_seq, create_organization, append_record,
  number_from, is_importable, apply_snapshot,
}
use direct_trade_protocol.Sequence.Growth.{
  IsNumbered, appended, append_record-eq-some, appended-IsNumbered, highest_from-Mem, when-some,
}

-- Every record belongs to a company of the store.
abbrev pub IsHoused : State → Type 0
IsHoused s =
    (r : BusinessRecord) → Memᴰ r s.records → includes s.organizations r.organization_id ≡ true

-- The states of a store: one without any counter yet, whose records belong to its companies; and what
-- the creation of a company, an append and an imported snapshot make of one.
pub data Stored : State → Type 0 where
  uncounted : {s : State} → s.record_seq ≡ [] → IsHoused s → Stored s
  create : {s s' : State} (o : Text) → Stored s → create_organization s o ≡ some s' → Stored s'
  append : {s s' : State} (o : Text) → Stored s → append_record s o ≡ some s' → Stored s'
  import :
      {s s' : State} (o : Text) (rs : List BusinessRecord)
      → Stored s
      → apply_snapshot s o rs ≡ some s'
      → Stored s'

-- More companies.
includes-append : (l m : List Text) (t : Text) → includes l t ≡ true → includes (l ++ m) t ≡ true
unfolding includes
includes-append [] m t h = absurd (cc h)
includes-append (x ∷ l) m t h = ground (arith, h, includes-append l m t)

includes_last : (l : List Text) (t : Text) → includes (l ++ t ∷ []) t ≡ true
unfolding includes
includes_last [] t = ground (arith, ===_refl t)
includes_last (x ∷ l) t = ground (arith, includes_last l t)

-- Records of a snapshot, numbered afresh.
number_from-Mem :
    (n : ℕ) (rs : List BusinessRecord) (o : Text) (r : BusinessRecord)
    → Memᴰ r (number_from n rs)
    → all (λ x. x.organization_id === o) rs ≡ true
    → (r.seq < n + length rs) × ((r.organization_id === o) ≡ true)
unfolding number_from
number_from-Mem n [] o r m own = elim m [ ]
number_from-Mem n (x ∷ rs) o r m own =
    let (first, others) =
      and-true (x.organization_id === o) (all (λ x. x.organization_id === o) rs) own in
    elim m [
      | head e ↦
          let same : r.seq ≡ n = ap (λ (y : BusinessRecord). y.seq) e in
          (omega (arith, same), ap (λ (y : BusinessRecord). y.organization_id === o) e ∙ first)
      | tail k ↦
          let (below, its) = number_from-Mem (n + 1) rs o r k others in (omega (arith, below), its)
    ]

-- Records of another company do not count.
highest_from-numbered :
    (h n : ℕ) (rs : List BusinessRecord) (o p : Text)
    → all (λ x. x.organization_id === o) rs ≡ true
    → (o === p) ≡ false
    → highest_from h (number_from n rs) p ≡ h
unfolding highest_from number_from
highest_from-numbered h n [] o p own other = refl
highest_from-numbered h n (x ∷ rs) o p own other =
    let (first, others) =
      and-true (x.organization_id === o) (all (λ x. x.organization_id === o) rs) own in
    let same : x.organization_id ≡ o = (===_iff x.organization_id o).0 first in
    let outside : (x.organization_id === p) ≡ false = ap (λ t. t === p) same ∙ other in
    rw (outside, highest_from) (highest_from-numbered h (n + 1) rs o p others other)

highest_from-append :
    (h n : ℕ) (xs rs : List BusinessRecord) (o p : Text)
    → all (λ x. x.organization_id === o) rs ≡ true
    → (o === p) ≡ false
    → highest_from h (xs ++ number_from n rs) p ≡ highest_from h xs p
unfolding highest_from
highest_from-append h n [] rs o p own other = highest_from-numbered h n rs o p own other
highest_from-append h n (x ∷ xs) rs o p own other =
    highest_from-append (if x.organization_id === p && ltb h x.seq then x.seq else h) n xs rs o p
      own other

unfoldable imported : State → Text → List BusinessRecord → State
imported s o rs = record {
  organizations = s.organizations ++ o ∷ [];
  records = s.records ++ number_from 1 rs;
  record_seq = insert o (1 + length rs) s.record_seq;
}

imported_own :
    (s : State) (o p : Text) (rs : List BusinessRecord)
    → (o === p) ≡ true
    → next_record_seq (imported s o rs) p ≡ 1 + length rs
unfolding next_record_seq imported
imported_own s o p rs own = rw (lookup-insert o p (1 + length rs) s.record_seq, own)

imported_other :
    (s : State) (o p : Text) (rs : List BusinessRecord)
    → all (λ x. x.organization_id === o) rs ≡ true
    → (o === p) ≡ false
    → next_record_seq (imported s o rs) p ≡ next_record_seq s p
unfolding next_record_seq imported
imported_other s o p rs own other = rw (
  lookup-insert o p (1 + length rs) s.record_seq,
  other,
  highest_from-append 0 1 s.records rs o p own other,
)

module _ (s : State) (o : Text) (rs : List BusinessRecord)
    (own : all (λ x. x.organization_id === o) rs ≡ true)
    (absent : includes s.organizations o ≡ false) where
  imported-IsNumbered : IsHoused s → IsNumbered s → IsNumbered (imported s o rs)
  unfolding imported
  imported-IsNumbered housed numbered p r m its = elim (append_cases s.records m) [
    | inl old ↦ elim (Bool-cases (o === p)) [
      | inl same ↦
          let company : r.organization_id ≡ o =
            (===_iff r.organization_id p).0 its ∙ sym ((===_iff o p).0 same) in
          let there = ap (includes s.organizations) (sym company) ∙ housed r old in
          absurd (cc (absent, there))
      | inr other ↦ rw (imported_other s o p rs own other) (numbered p r old its)
    ]
    | inr new ↦
        let (below, company) = number_from-Mem 1 rs o r new own in
        let same : (o === p) ≡ true =
          ap (λ t. t === p) (sym ((===_iff r.organization_id o).0 company)) ∙ its in
        omega (arith, below, imported_own s o p rs same)
  ]

  imported-IsHoused : IsHoused s → IsHoused (imported s o rs)
  unfolding imported
  imported-IsHoused housed r m = elim (append_cases s.records m) [
    | inl old ↦ includes-append s.organizations (o ∷ []) r.organization_id (housed r old)
    | inr new ↦
        let (_, company) = number_from-Mem 1 rs o r new own in
        let is : r.organization_id ≡ o = (===_iff r.organization_id o).0 company in
        rw is (includes_last s.organizations o)
  ]

appended-IsHoused :
    (s : State) (o : Text)
    → includes s.organizations o ≡ true
    → IsHoused s
    → IsHoused (appended s o)
unfolding appended
appended-IsHoused s o there housed r m = elim (append_cases s.records m) [
  | inl old ↦ housed r old
  | inr new ↦
      let is : r.organization_id ≡ o =
        ap (λ (y : BusinessRecord). y.organization_id) (eq_of_singleton new) in
      rw is there
]

uncounted-IsNumbered : (s : State) → s.record_seq ≡ [] → IsNumbered s
unfolding next_record_seq lookup
uncounted-IsNumbered s e p r m own =
    let none_stored : lookup p s.record_seq ≡ none = rw e refl in
    rw none_stored (omega (arith, highest_from-Mem 0 s.records p r m own))

created-eq :
    (s s' : State) (o : Text)
    → create_organization s o ≡ some s'
    → record s { organizations = s.organizations ++ o ∷ [] } ≡ s'
unfolding create_organization
created-eq s s' o h =
    when-some (not (includes s.organizations o))
      (record s { organizations = s.organizations ++ o ∷ [] }) s' h

append_record-known :
    (s s' : State) (o : Text) → append_record s o ≡ some s' → includes s.organizations o ≡ true
unfolding append_record
append_record-known s s' o h = ground (arith, h)

apply_snapshot-eq-some :
    (s s' : State) (o : Text) (rs : List BusinessRecord)
    → apply_snapshot s o rs ≡ some s'
    → imported s o rs ≡ s'
unfolding apply_snapshot imported
apply_snapshot-eq-some s s' o rs h = when-some (is_importable s o rs) (imported s o rs) s' h

apply_snapshot-importable :
    (s s' : State) (o : Text) (rs : List BusinessRecord)
    → apply_snapshot s o rs ≡ some s'
    → is_importable s o rs ≡ true
unfolding apply_snapshot
apply_snapshot-importable s s' o rs h = ground (arith, h)

is_importable-own :
    (s : State) (o : Text) (rs : List BusinessRecord)
    → is_importable s o rs ≡ true
    → (all (λ x. x.organization_id === o) rs ≡ true) × (includes s.organizations o ≡ false)
unfolding is_importable
is_importable-own s o rs h = ground (arith, h)

Stored-invariants : {s : State} → Stored s → IsNumbered s × IsHoused s
unfolding next_record_seq
Stored-invariants (uncounted {s} e housed) = (uncounted-IsNumbered s e, housed)
Stored-invariants (create {s} {s'} o before h) =
    let (numbered, housed) = Stored-invariants before in
    subst (λ t. IsNumbered t × IsHoused t) (created-eq s s' o h)
      (numbered, λ r m. includes-append s.organizations (o ∷ []) r.organization_id (housed r m))
Stored-invariants (append {s} {s'} o before h) =
    let (numbered, housed) = Stored-invariants before in
    let known = append_record-known s s' o h in
    let both : IsNumbered (appended s o) × IsHoused (appended s o) =
      (appended-IsNumbered s o numbered, appended-IsHoused s o known housed) in
    subst (λ t. IsNumbered t × IsHoused t) (append_record-eq-some s s' o h) both
Stored-invariants (import {s} {s'} o rs before h) =
    let (numbered, housed) = Stored-invariants before in
    let (own, absent) = is_importable-own s o rs (apply_snapshot-importable s s' o rs h) in
    let both : IsNumbered (imported s o rs) × IsHoused (imported s o rs) = (
      imported-IsNumbered s o rs own absent housed numbered,
      imported-IsHoused s o rs own absent housed,
    ) in
    subst (λ t. IsNumbered t × IsHoused t) (apply_snapshot-eq-some s s' o rs h) both

-- Through every creation of a company, every append and every import of a snapshot, the number that
-- a company's next record takes is above the numbers of all its records, also when the store began
-- without counters, if its records belonged to its companies.
pub Stored-next :
    {s : State} (o : Text) (r : BusinessRecord)
    → Stored s
    → Memᴰ r s.records
    → (r.organization_id === o) ≡ true
    → r.seq < next_record_seq s o
Stored-next o r stored m own = (Stored-invariants stored).0 o r m own
