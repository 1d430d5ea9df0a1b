-- ===== src/Store/Write/Heads.antt =====
-- The table of records under any interleaving of writes: which rows are heads.
use mathlib.Core.Path.{subst}
use direct_trade_protocol.Prelude.{
  ℕ, ◌≡◌, refl, sym, ap, ◌∙◌, true, not, Option, none, some, List, [], ◌∷◌, Text, ◌===◌, ===_iff,
  ok, refuse-elim, demand-eq-ok, is_some, >>=-elim, ok-injective, Bool-cases, inl, inr,
}
use direct_trade_protocol.Prelude.Int.{ℤ}
use direct_trade_protocol.Store.Transitions.{status_of}
use direct_trade_protocol.Authority.Charter.{uuid}
use direct_trade_protocol.Store.Authz.{GrantRow}
use direct_trade_protocol.Store.Write.Granted.{Links, genesis, successor, write_checks-Granted}
use direct_trade_protocol.Store.Write.{
  Caller, Registered, Envelope, RecordRow, Store, fresh, row_id, find_row, fetch_record_row,
  write_checks,
}
use direct_trade_protocol.Store.Write.Commit.{
  records_pkey, records_one_successor, records_supersedes, is_superseded, check_link,
  unhead_previous, commit,
}
use direct_trade_protocol.Store.Write.Linear.{
  IsLinear, is_present, unhead_previous-IsLinked, new-IsLinked, plain-IsLinked, none_superseded,
  superseded_first,
}

-- The row to supersede is one of that id.
data IsPrevious : Option Text → Option RecordRow → Type 0 where
  no_previous : IsPrevious none none
  previous : {id : Text} {row : RecordRow} → row_id row ≡ id → IsPrevious (some id) (some row)

-- The row that a write stores.
abbrev new_row : Registered → Envelope → ℕ → RecordRow
new_row info env seq = record {
  envelope = env;
  is_head = true;
  status = status_of info.machine env.body;
  seq = seq;
}

-- The transaction keeps the table linear, by the envelope's `supersedes` and the row of that id.
commit-IsLinear :
    {o : Option Text} {prev : Option RecordRow} (rs out : List RecordRow) (info : Registered)
    (env : Envelope) (seq : ℕ)
    → IsPrevious o prev
    → env.supersedes ≡ o
    → commit rs info env prev seq ≡ ok out
    → IsLinear rs
    → IsLinear out
unfolding commit unhead_previous check_link
commit-IsLinear rs out info env seq no_previous sup h linear =
    refuse-elim (is_some (find_row rs env.record_id)) records_pkey _ h λ absent h1.
      >>=-elim (check_link rs env.supersedes) _ h1 λ _ _ h2.
        let row = new_row info env seq in
        let unnamed = none_superseded rs rs env.record_id linear absent in
        subst IsLinear (ok-injective h2) (
          (
            ap not (sym (superseded_first env.record_id row rs sup ∙ unnamed)),
            ap (is_present (row ∷ rs)) sup,
          ),
          plain-IsLinked row rs rs sup linear,
        )
commit-IsLinear rs out info env seq (previous {id} {row} same) sup h linear =
    refuse-elim (is_some (find_row rs env.record_id)) records_pkey _ h λ absent h1.
      >>=-elim (check_link rs env.supersedes) _ h1 λ _ linked h2.
        let named = sup ∙ ap some (sym same) in
        let checked = ap (check_link rs) (sym named) ∙ linked in
        refuse-elim (is_superseded rs (row_id row)) records_one_successor _ checked λ _ found.
          let present =
            demand-eq-ok (is_some (find_row rs (row_id row))) records_supersedes found in
          subst IsLinear (ok-injective h2) (
            new-IsLinked (row_id row) (new_row info env seq) rs named refl absent present linear,
            unhead_previous-IsLinked (row_id row) (new_row info env seq) rs rs named linear,
          )

find_row-id :
    (rs : List RecordRow) (id : Text) (row : RecordRow)
    → find_row rs id ≡ some row
    → row_id row ≡ id
unfolding find_row
find_row-id [] id row h = absurd (cc h)
find_row-id (r ∷ rs) id row h = elim (Bool-cases (row_id r === id)) [
  | inl here ↦
      let shown = rw here at h in
      let same : r ≡ row = cc shown in ap row_id (sym same) ∙ (===_iff (row_id r) id).0 here
  | inr there ↦ let shown = rw there at h in find_row-id rs id row shown
]

fetch_record_row-id :
    (s : Store) (id : Text) (row : RecordRow) → fetch_record_row s id ≡ some row → row_id row ≡ id
unfolding fetch_record_row
fetch_record_row-id s id row h = elim (Bool-cases (uuid id)) [
  | inl shape ↦ let shown = rw shape at h in find_row-id s.records id row shown
  | inr other ↦ let shown = rw other at h in absurd (cc shown)
]

module _ (date_time : Text → Option ℤ) where
  Links-IsPrevious :
      (s : Store) (p : Caller) (env : Envelope) (now : ℤ) {o : Option Text}
      {prev : Option RecordRow}
      → Links date_time s p env now o prev
      → IsPrevious o prev
  Links-IsPrevious s p env now genesis = no_previous
  Links-IsPrevious s p env now (successor {id} {row} found _ _ _) =
      previous (fetch_record_row-id s id row found)

  -- Stores that writes lead to. A write was checked on a store `t` that may be another one than
  -- the store that its transaction finds; the genesis of a company or a module supersedes none;
  -- and other tables change at any time.
  pub data Reach : Store → Type 0 where
    opened :
        {companies : List Text} {grants : List (Text × GrantRow)}
        → Reach record { companies = companies; grants = grants; records = [] }
    wrote :
        {s : Store} {rs : List RecordRow} (t : Store) (p : Caller) (info : Registered)
        (env : Envelope) (now : ℤ) (prev : Option RecordRow) (seq : ℕ)
        → Reach s
        → write_checks date_time t (some p) info env now ≡ ok (fresh prev)
        → commit s.records info env prev seq ≡ ok rs
        → Reach (record s { records = rs })
    founded :
        {s : Store} {rs : List RecordRow} (info : Registered) (env : Envelope) (seq : ℕ)
        → Reach s
        → env.supersedes ≡ none
        → commit s.records info env none seq ≡ ok rs
        → Reach (record s { records = rs })
    changed :
        {s : Store} {companies : List Text} {grants : List (Text × GrantRow)}
        → Reach s
        → Reach (record s { companies = companies; grants = grants })

  -- In every store that writes lead to, whatever state of the store each of them was checked on
  -- before its transaction, a record is a head exactly when no record supersedes it, and the
  -- record that it supersedes is there.
  pub Reach-IsLinear : {s : Store} → Reach s → IsLinear s.records
  Reach-IsLinear opened = tt
  Reach-IsLinear (wrote {s} {rs} t p info env now prev seq reach checked written) =
      let granted = write_checks-Granted date_time t p info env now prev checked in
      commit-IsLinear s.records rs info env seq (Links-IsPrevious t p env now granted.link) refl
        written (Reach-IsLinear reach)
  Reach-IsLinear (founded {s} {rs} info env seq reach none_before written) =
      commit-IsLinear s.records rs info env seq no_previous none_before written
        (Reach-IsLinear reach)
  Reach-IsLinear (changed reach) = Reach-IsLinear reach
