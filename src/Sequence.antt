-- ===== src/Sequence.antt =====
-- nextRecordSeq and takeRecordSeq of sdk/src/v04/model.ts, and the parts of sdk/src/v04/engine.ts and
-- sdk/src/v04/snapshot.ts that add companies and records: the sequence numbers that a store gives to
-- the records of each company.
pub mod Growth
pub mod Numbers
mod Tests
use direct_trade_protocol.Prelude.{
  ℕ, ◌++◌, leb, suc, ◌+◌, Bool, true, false, ◌&&◌, Option, none, some, List, [], ◌∷◌, ltb, not, all,
  length, includes, if◌then◌else◌, Text, ◌===◌,
}
use direct_trade_protocol.Prelude.Assoc.{Assoc, lookup, insert}
use direct_trade_protocol.Canonical.{max_safe}

-- The members of a `BusinessRecord` that the numbering reads.
pub record BusinessRecord : Type 0 where
  pub organization_id : Text
  pub seq : ℕ

-- `organizations` and `records` are `Object.keys(s.organizations)` and `Object.values(s.records)`.
pub record State : Type 0 where
  pub organizations : List Text
  pub records : List BusinessRecord
  pub record_seq : Assoc ℕ

-- The loop over the records.
unfoldable pub highest_from : ℕ → List BusinessRecord → Text → ℕ
highest_from highest [] organization = highest
highest_from highest (r ∷ rs) organization =
    highest_from
      (if r.organization_id === organization && ltb highest r.seq then r.seq else highest) rs
      organization

abbrev pub stored_or : Option ℕ → ℕ → ℕ
stored_or none n = n
stored_or (some stored) n = stored

unfoldable pub next_record_seq : State → Text → ℕ
unfolding highest_from
next_record_seq s organization =
    stored_or (lookup organization s.record_seq) (highest_from 0 s.records organization + 1)

-- The number, and the state after it is taken.
unfoldable pub take_record_seq : State → Text → ℕ × State
unfolding next_record_seq
take_record_seq s organization =
    let seq = next_record_seq s organization in
    (seq, record s { record_seq = insert organization (seq + 1) s.record_seq })

-- The capacity that `record.append` asks for before it takes a number.
unfoldable pub has_capacity : ℕ → Bool
has_capacity next = leb 1 next && ltb next max_safe

-- What `organization.create` adds when its other conditions hold.
unfoldable pub create_organization : State → Text → Option State
create_organization s organization =
    if not (includes s.organizations organization)
    then some (record s { organizations = s.organizations ++ organization ∷ [] })
    else none

-- What `record.append` does to the numbering when its other conditions hold: the company is there,
-- and the record that it adds takes the company's next number.
unfoldable pub append_record : State → Text → Option State
unfolding take_record_seq has_capacity
append_record s organization =
    let taken = take_record_seq s organization in
    let r : BusinessRecord = record { organization_id = organization; seq = taken.0 } in
    let next : State = record {
      organizations = s.organizations;
      records = s.records ++ r ∷ [];
      record_seq = taken.1.record_seq;
    } in
    if includes s.organizations organization && has_capacity (next_record_seq s organization)
    then some next
    else none

-- `{ ...r, seq: seq++ }` for each record
unfoldable pub number_from : ℕ → List BusinessRecord → List BusinessRecord
number_from seq [] = []
number_from seq (r ∷ rs) = record r { seq = seq } ∷ number_from (seq + 1) rs

abbrev pub all_own : Text → List BusinessRecord → Bool
all_own organization rs = all (λ r. r.organization_id === organization) rs

-- Of validateSnapshot: the records are the company's own, and the company is new. The records' ids
-- are new too, so that each is added to those of the store.
unfoldable pub is_importable : State → Text → List BusinessRecord → Bool
is_importable s organization rs =
    all_own organization rs && not (includes s.organizations organization)

-- What applySnapshot does to the numbering: the company's records are numbered afresh.
unfoldable pub apply_snapshot : State → Text → List BusinessRecord → Option State
unfolding number_from is_importable
apply_snapshot s organization rs =
    if is_importable s organization rs
    then some record {
      organizations = s.organizations ++ organization ∷ [];
      records = s.records ++ number_from 1 rs;
      record_seq = insert organization (1 + length rs) s.record_seq;
    }
    else none
