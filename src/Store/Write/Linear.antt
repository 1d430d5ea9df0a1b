-- ===== src/Store/Write/Linear.antt =====
-- Tables of records in which heads and superseded rows fit together, when a row comes.
use direct_trade_protocol.Prelude.{
  ◌≡◌, refl, sym, ap, ◌∙◌, Bool, true, false, not, ◌||◌, Option, none, some, List, [], ◌∷◌, map,
  All, Text, ◌===◌, ===_iff, ===_sym, is_some, Bool-cases, inl, inr,
}
use direct_trade_protocol.Store.Write.{RecordRow, row_id, find_row}
use direct_trade_protocol.Store.Write.Commit.{is_superseded, unhead}

abbrev pub is_present : List RecordRow → Option Text → Bool
is_present rs none = true
is_present rs (some id) = is_some (find_row rs id)

-- A row is a head exactly when no row supersedes it, and the row that it supersedes is there.
abbrev pub IsLinked : List RecordRow → RecordRow → Type 0
IsLinked rs r =
    (r.is_head ≡ not (is_superseded rs (row_id r))) × (is_present rs r.envelope.supersedes ≡ true)

abbrev pub IsLinear : List RecordRow → Type 0
IsLinear rs = All (IsLinked rs) rs

-- Taking the head's mark away changes no link.
is_superseded-unhead :
    (p id : Text) (rs : List RecordRow) → is_superseded (map (unhead p) rs) id ≡ is_superseded rs id
unfolding is_superseded
is_superseded-unhead p id [] = refl
is_superseded-unhead p id (r ∷ rs) = elim (Bool-cases (row_id r === p)) [
  | inl same ↦ rw (same, is_superseded-unhead p id rs) refl
  | inr other ↦ rw (other, is_superseded-unhead p id rs) refl
]

find_row-unhead :
    (p id : Text) (rs : List RecordRow)
    → is_some (find_row (map (unhead p) rs) id) ≡ is_some (find_row rs id)
unfolding find_row
find_row-unhead p id [] = refl
find_row-unhead p id (r ∷ rs) = elim (Bool-cases (row_id r === p)) [
  | inl same ↦ elim (Bool-cases (row_id r === id)) [
    | inl here ↦ rw (same, here) refl
    | inr there ↦ rw (same, there) (find_row-unhead p id rs)
  ]
  | inr other ↦ elim (Bool-cases (row_id r === id)) [
    | inl here ↦ rw (other, here) refl
    | inr there ↦ rw (other, there) (find_row-unhead p id rs)
  ]
]

-- What is superseded once a row after the row `p` has come.
superseded_after :
    (p id : Text) (row : RecordRow) (rs : List RecordRow)
    → row.envelope.supersedes ≡ some p
    → is_superseded (map (unhead p) (row ∷ rs)) id ≡ (p === id || is_superseded rs id)
unfolding is_superseded
superseded_after p id row rs after =
    is_superseded-unhead p id (row ∷ rs)
    ∙ ap (λ o. elim o as (λ _. Bool) [ none ↦ false | some q ↦ q === id ] || is_superseded rs id)
        after

found_behind :
    (id : Text) (row : RecordRow) (rs : List RecordRow)
    → is_some (find_row rs id) ≡ true
    → is_some (find_row (row ∷ rs) id) ≡ true
unfolding find_row
found_behind id row rs h = elim (Bool-cases (row_id row === id)) [
  | inl here ↦ rw here refl
  | inr there ↦ rw there h
]

found_after :
    (p id : Text) (row : RecordRow) (rs : List RecordRow)
    → is_some (find_row rs id) ≡ true
    → is_some (find_row (map (unhead p) (row ∷ rs)) id) ≡ true
unfolding find_row
found_after p id row rs h = find_row-unhead p id (row ∷ rs) ∙ found_behind id row rs h

present_after :
    (p : Text) (row : RecordRow) (rs : List RecordRow) (o : Option Text)
    → is_present rs o ≡ true
    → is_present (map (unhead p) (row ∷ rs)) o ≡ true
present_after p row rs none h = refl
present_after p row rs (some id) h = found_after p id row rs h

names_absent :
    (all : List RecordRow) (o : Option Text) (id : Text)
    → is_present all o ≡ true
    → is_some (find_row all id) ≡ false
    → elim o as (λ _. Bool) [ none ↦ false | some q ↦ q === id ] ≡ false
names_absent all none id present absent = refl
names_absent all (some q) id present absent = elim (Bool-cases (q === id)) [
  | inr other ↦ other
  | inl same ↦
      let found = ap (λ x. is_some (find_row all x)) (sym ((===_iff q id).0 same)) ∙ present in
      absurd (cc (found, absent))
]

present_behind :
    (row : RecordRow) (rs : List RecordRow) (o : Option Text)
    → is_present rs o ≡ true
    → is_present (row ∷ rs) o ≡ true
present_behind row rs none h = refl
present_behind row rs (some id) h = found_behind id row rs h

pub superseded_first :
    (id : Text) (row : RecordRow) (rs : List RecordRow)
    → row.envelope.supersedes ≡ none
    → is_superseded (row ∷ rs) id ≡ is_superseded rs id
unfolding is_superseded
superseded_first id row rs first =
    ap (λ o. elim o as (λ _. Bool) [ none ↦ false | some q ↦ q === id ] || is_superseded rs id)
      first

-- Nothing supersedes an id that no row has.
pub none_superseded :
    (all rs : List RecordRow) (id : Text)
    → All (IsLinked all) rs
    → is_some (find_row all id) ≡ false
    → is_superseded rs id ≡ false
unfolding is_superseded
none_superseded all [] id links absent = refl
none_superseded all (r ∷ rs) id (linked, links) absent =
    let here = names_absent all r.envelope.supersedes id linked.1 absent in
    let later = none_superseded all rs id links absent in rw (here, later) refl

unhead_envelope : (p : Text) (r : RecordRow) → (unhead p r).envelope ≡ r.envelope
unhead_envelope p r = elim (Bool-cases (row_id r === p)) [
  | inl same ↦ rw same refl
  | inr other ↦ rw other refl
]

-- The mark of a row, where the rows superseded are those of before and `p`.
unhead_mark :
    (p : Text) (r : RecordRow) (before : Bool)
    → r.is_head ≡ not before
    → (unhead p r).is_head ≡ not (p === row_id r || before)
unhead_mark p r before head = elim (Bool-cases (row_id r === p)) [
  | inl same ↦ let turned = ===_sym p (row_id r) ∙ same in rw (same, turned) refl
  | inr other ↦ let turned = ===_sym p (row_id r) ∙ other in rw (other, turned) head
]

-- A row that was there stays linked when a row after `p` comes.
unhead-IsLinked :
    (p : Text) (row r : RecordRow) (rs : List RecordRow)
    → row.envelope.supersedes ≡ some p
    → (r.is_head ≡ not (is_superseded rs (row_id r)))
    → is_present rs r.envelope.supersedes ≡ true
    → IsLinked (map (unhead p) (row ∷ rs)) (unhead p r)
unhead-IsLinked p row r rs after head link = (
  unhead_mark p r (is_superseded rs (row_id r)) head
      ∙ ap not (sym (superseded_after p (row_id r) row rs after))
      ∙ ap (λ e. not (is_superseded (map (unhead p) (row ∷ rs)) e.record_id))
          (sym (unhead_envelope p r)),
  ap (λ e. is_present (map (unhead p) (row ∷ rs)) e.supersedes) (unhead_envelope p r)
      ∙ present_after p row rs r.envelope.supersedes link,
)

pub unhead_previous-IsLinked :
    (p : Text) (row : RecordRow) (rs some_rows : List RecordRow)
    → row.envelope.supersedes ≡ some p
    → All (IsLinked rs) some_rows
    → All (IsLinked (map (unhead p) (row ∷ rs))) (map (unhead p) some_rows)
unhead_previous-IsLinked p row rs [] after links = tt
unhead_previous-IsLinked p row rs (r ∷ some_rows) after ((head, link), links) = (
  unhead-IsLinked p row r rs after head link,
  unhead_previous-IsLinked p row rs some_rows after links,
)

-- The new row is linked too: no row has its id, so none supersedes it.
pub new-IsLinked :
    (p : Text) (row : RecordRow) (rs : List RecordRow)
    → row.envelope.supersedes ≡ some p
    → row.is_head ≡ true
    → is_some (find_row rs (row_id row)) ≡ false
    → is_some (find_row rs p) ≡ true
    → IsLinear rs
    → IsLinked (map (unhead p) (row ∷ rs)) (unhead p row)
new-IsLinked p row rs after head absent present linear =
    unhead-IsLinked p row row rs after
      (head ∙ ap not (sym (none_superseded rs rs (row_id row) linear absent)))
      (ap (is_present rs) after ∙ present)

-- The rows that were there stay linked when a row comes that supersedes none.
pub plain-IsLinked :
    (row : RecordRow) (rs some_rows : List RecordRow)
    → row.envelope.supersedes ≡ none
    → All (IsLinked rs) some_rows
    → All (IsLinked (row ∷ rs)) some_rows
plain-IsLinked row rs [] first links = tt
plain-IsLinked row rs (r ∷ some_rows) first ((head, link), links) = (
  (
    head ∙ ap not (sym (superseded_first (row_id r) row rs first)),
    present_behind row rs r.envelope.supersedes link,
  ),
  plain-IsLinked row rs some_rows first links,
)
