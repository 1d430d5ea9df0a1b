-- ===== src/Store/Write/Commit.antt =====
-- The transaction of writeRecord of supabase/functions/dtp-store/handlers/records.ts on the table of
-- records, under the constraints that supabase/migrations/20260903000000_protocol_store.sql declares.
use direct_trade_protocol.Prelude.{
  ℕ, Bool, true, false, Option, none, some, List, ◌∷◌, any, map, if◌then◌else◌, is_some, Text,
  ◌===◌, Result, ok, err, ◌>>◌, demand, refuse,
}
use direct_trade_protocol.Store.Transitions.{status_of}
use direct_trade_protocol.Store.Write.{
  WriteError, duplicate_record_id, supersedes_conflict, internal, Registered, Envelope, RecordRow,
  Store, row_id, find_row, fetch_record_row,
}

-- The constraints of the table of records: its key, one successor to a record, and that the record
-- it supersedes is there.
pub data Violation : Type 0 where
  records_pkey records_one_successor records_supersedes : Violation

abbrev pub supersedes_id : Text → RecordRow → Bool
supersedes_id id r = elim r.envelope.supersedes [ none ↦ false | some p ↦ p === id ]

unfoldable pub is_superseded : List RecordRow → Text → Bool
is_superseded rs id = any (supersedes_id id) rs

unfoldable pub check_link : List RecordRow → Option Text → Result Violation (Unit {0})
unfolding is_superseded find_row
check_link rs none = ok tt
check_link rs (some id) = do
  refuse (is_superseded rs id) records_one_successor
  demand (is_some (find_row rs id)) records_supersedes

-- `update protocol.records set is_head = false where record_id = $1`
abbrev pub unhead : Text → RecordRow → RecordRow
unhead id r = if row_id r === id then record r { is_head = false } else r

unfoldable pub unhead_previous : Option RecordRow → List RecordRow → List RecordRow
unhead_previous none rs = rs
unhead_previous (some prev) rs = map (unhead (row_id prev)) rs

-- The transaction on the table of records; the database numbers the event.
unfoldable pub commit :
    List RecordRow
    → Registered
    → Envelope
    → Option RecordRow
    → ℕ
    → Result Violation (List RecordRow)
unfolding check_link find_row unhead_previous
commit rs info env prev seq = do
  refuse (is_some (find_row rs env.record_id)) records_pkey
  check_link rs env.supersedes
  let row : RecordRow = record {
    envelope = env;
    is_head = true;
    status = status_of info.machine env.body;
    seq = seq;
  }
  ok (unhead_previous prev (row ∷ rs))

-- What a violation is answered with.
unfoldable pub answer_violation : Store → Envelope → Violation → Result WriteError RecordRow
unfolding fetch_record_row
answer_violation s env records_pkey = elim (fetch_record_row s env.record_id) [
  | none ↦ err duplicate_record_id
  | some now ↦
      if now.envelope.payload_hash === env.payload_hash then ok now else err duplicate_record_id
]
answer_violation s env records_one_successor = err supersedes_conflict
answer_violation s env records_supersedes = err internal
