-- ===== src/Sequence/Growth.antt =====
-- A company's numbers grow, whatever other companies write.
use mathlib.Core.List.{Memᴰ}
use mathlib.Core.List.Memᴰ.{head, tail, append_cases, eq_of_singleton}
use direct_trade_protocol.Prelude.{
  ℕ, ◌+◌, ◌≤◌, ◌<◌, ◌≡◌, sym, ap, ◌∙◌, Bool, true, false, ◌&&◌, none, some, List, [], ◌∷◌, ◌++◌,
  arith, ltb, if◌then◌else◌, Text, ◌===◌, ===_iff, includes, Bool-cases, inl, inr,
}
use direct_trade_protocol.Prelude.Assoc.{insert, lookup-insert}
use direct_trade_protocol.Sequence.{
  BusinessRecord, State, highest_from, next_record_seq, take_record_seq, has_capacity,
  append_record,
}

highest_from-start : (h : ℕ) (rs : List BusinessRecord) (o : Text) → h ≤ highest_from h rs o
unfolding highest_from
highest_from-start h [] o = omega arith
highest_from-start h (r ∷ rs) o =
    let higher = if r.organization_id === o && ltb h r.seq then r.seq else h in
    let step : h ≤ higher = ground arith in omega (arith, step, highest_from-start higher rs o)

pub highest_from-Mem :
    (h : ℕ) (rs : List BusinessRecord) (o : Text) (r : BusinessRecord)
    → Memᴰ r rs
    → (r.organization_id === o) ≡ true
    → r.seq ≤ highest_from h rs o
unfolding highest_from
highest_from-Mem h [] o r m own = elim m [ ]
highest_from-Mem h (x ∷ rs) o r m own =
    let higher = if x.organization_id === o && ltb h x.seq then x.seq else h in
    elim m [
      | head e ↦
          let own_x : (x.organization_id === o) ≡ true =
            sym (ap (λ (y : BusinessRecord). y.organization_id === o) e) ∙ own in
          let same : r.seq ≡ x.seq = ap (λ (y : BusinessRecord). y.seq) e in
          let step : x.seq ≤ higher = ground arith in
          omega (arith, same, step, highest_from-start higher rs o)
      | tail n ↦ highest_from-Mem higher rs o r n own
    ]

highest_from-other :
    (h : ℕ) (rs : List BusinessRecord) (o : Text) (r : BusinessRecord)
    → (r.organization_id === o) ≡ false
    → highest_from h (rs ++ r ∷ []) o ≡ highest_from h rs o
unfolding highest_from
highest_from-other h [] o r other = rw other
highest_from-other h (x ∷ rs) o r other =
    highest_from-other (if x.organization_id === o && ltb h x.seq then x.seq else h) rs o r other

-- Every record's number is below the number that its company's next record takes.
abbrev pub IsNumbered : State → Type 0
IsNumbered s =
    (o : Text) (r : BusinessRecord)
    → Memᴰ r s.records
    → (r.organization_id === o) ≡ true
    → r.seq < next_record_seq s o

-- What an accepted append makes of the state.
unfoldable pub appended : State → Text → State
appended s o = record {
  organizations = s.organizations;
  records = s.records ++ record { organization_id = o; seq = next_record_seq s o } ∷ [];
  record_seq = insert o (next_record_seq s o + 1) s.record_seq;
}

pub when-some : (b : Bool) (x y : State) → (if b then some x else none) ≡ some y → x ≡ y
when-some true x y h = cc
when-some false x y h = absurd (cc h)

pub append_record-eq-some :
    (s s' : State) (o : Text) → append_record s o ≡ some s' → appended s o ≡ s'
unfolding append_record take_record_seq appended
append_record-eq-some s s' o h =
    when-some (includes s.organizations o && has_capacity (next_record_seq s o)) (appended s o) s' h

next-own :
    (s : State) (o p : Text)
    → (o === p) ≡ true
    → next_record_seq (appended s o) p ≡ next_record_seq s o + 1
unfolding next_record_seq appended
next-own s o p own = rw (lookup-insert o p (next_record_seq s o + 1) s.record_seq, own)

next-other :
    (s : State) (o p : Text)
    → (o === p) ≡ false
    → next_record_seq (appended s o) p ≡ next_record_seq s p
unfolding next_record_seq appended
next-other s o p other = rw (
  lookup-insert o p (next_record_seq s o + 1) s.record_seq,
  other,
  highest_from-other 0 s.records p (record { organization_id = o; seq = next_record_seq s o })
      other,
)

kept :
    (s : State) (o p : Text) (r : BusinessRecord)
    → r.seq < next_record_seq s p
    → r.seq < next_record_seq (appended s o) p
kept s o p r below = elim (Bool-cases (o === p)) [
  | inl own ↦
      let grows = next-own s o p own in
      let same : next_record_seq s o ≡ next_record_seq s p =
        ap (next_record_seq s) ((===_iff o p).0 own) in
      omega (arith, grows, same)
  | inr other ↦ rw (next-other s o p other) below
]

newest :
    (s : State) (o p : Text) (r : BusinessRecord)
    → r ≡ record { organization_id = o; seq = next_record_seq s o }
    → (r.organization_id === p) ≡ true
    → r.seq < next_record_seq (appended s o) p
newest s o p r e own =
    let same : r.seq ≡ next_record_seq s o = ap (λ (y : BusinessRecord). y.seq) e in
    let own_o : (o === p) ≡ true =
      sym (ap (λ (y : BusinessRecord). y.organization_id === p) e) ∙ own in
    omega (arith, same, next-own s o p own_o)

pub appended-IsNumbered : (s : State) (o : Text) → IsNumbered s → IsNumbered (appended s o)
unfolding appended
appended-IsNumbered s o numbered p r m own = elim (append_cases s.records m) [
  | inl old ↦ kept s o p r (numbered p r old own)
  | inr new ↦ newest s o p r (eq_of_singleton new) own
]

-- An append by one company leaves every other company's next number as it was.
pub append_record-other :
    (s s' : State) (o p : Text)
    → append_record s o ≡ some s'
    → (o === p) ≡ false
    → next_record_seq s' p ≡ next_record_seq s p
append_record-other s s' o p h other =
    rw (append_record-eq-some s s' o h) at (next-other s o p other)
