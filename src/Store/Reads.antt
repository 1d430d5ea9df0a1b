-- ===== src/Store/Reads.antt =====
-- getRecord and listRecords of supabase/functions/dtp-store/handlers/records.ts. A page holds the rows
-- themselves, whose members rowToRecord copies; a sequence number is written as a number.
pub mod Pages
mod Tests
use direct_trade_protocol.Prelude.{
  ℕ, suc, Bool, true, false, ◌&&◌, Option, none, some, List, [], ◌∷◌, take, keep, length, ltb, leb,
  if◌then◌else◌, Text, ◌===◌, includes, Result, ok, err,
}
use direct_trade_protocol.Prelude.Int.{ℤ, pos, negsuc, ltb_ℤ}
use direct_trade_protocol.Authority.Charter.{uuid}
use direct_trade_protocol.Scopes.{truthy}
use direct_trade_protocol.Store.Authz.{GrantRow, Principal, can_read, holds, read_prefilter}
use direct_trade_protocol.Store.Write.{
  RecordRow, Store, WriteError, not_found, fetch_record_row, caller_grants, visible_row,
}

pub record ListQuery : Type 0 where
  pub subject : Option Text
  pub type : Option Text
  pub namespace : Option Text
  pub counterparty : Option Text
  pub root_id : Option Text
  pub include_superseded : Bool
  pub after : Option ℤ
  pub limit : Option ℤ

-- A condition on a column, added when the query has a text for it that is not empty.
abbrev pub column_is : Option Text → Text → Bool
column_is none value = true
column_is (some wanted) value = value === wanted

abbrev pub lists_party : Option Text → List Text → Bool
lists_party none ids = true
lists_party (some id) ids = includes ids id

abbrev pub is_after : Option ℤ → ℕ → Bool
is_after none seq = true
is_after (some after) seq = ltb_ℤ after (pos seq)

-- The conditions of the query, without the reader's.
unfoldable pub matches : ListQuery → RecordRow → Bool
matches q r =
    column_is (truthy q.subject) r.envelope.subject_company_id
    && column_is (truthy q.type) r.envelope.type
    && column_is (truthy q.namespace) r.envelope.namespace
    && lists_party (truthy q.counterparty) r.envelope.counterparty_ids
    && column_is (truthy q.root_id) r.envelope.root_id
    && (if q.include_superseded then true else r.is_head)
    && is_after q.after r.seq

-- `order by r.seq asc`
unfoldable pub insert_row : RecordRow → List RecordRow → List RecordRow
insert_row r [] = r ∷ []
insert_row r (s ∷ rows) =
    let rest = insert_row r rows in if leb r.seq s.seq then r ∷ s ∷ rows else s ∷ rest

unfoldable pub by_seq : List RecordRow → List RecordRow
unfolding insert_row
by_seq [] = []
by_seq (r ∷ rows) = insert_row r (by_seq rows)

-- `Math.min(Math.max(q.limit ?? 50, 1), 500)`
unfoldable pub page_limit : Option ℤ → ℕ
page_limit none = 50
page_limit (some (negsuc n)) = 1
page_limit (some (pos n)) = if ltb n 1 then 1 else if ltb 500 n then 500 else n

unfoldable pub reader_grants : Store → Option Principal → List GrantRow
unfolding caller_grants
reader_grants s none = []
reader_grants s (some p) = caller_grants s p

pub record Page : Type 0 where
  pub records : List RecordRow
  pub next_cursor : Option ℕ

abbrev pub last_seq : List RecordRow → Option ℕ
last_seq [] = none
last_seq (r ∷ []) = some r.seq
last_seq (r ∷ s ∷ rows) = last_seq (s ∷ rows)

abbrev pub root_ok : Option Text → Bool
root_ok none = true
root_ok (some id) = uuid id

module _ (date_time : Text → Option ℤ) where
  unfoldable pub reads : Store → Option Principal → ℤ → RecordRow → Bool
  reads s p now r = can_read date_time (visible_row r) p (reader_grants s p) now

  unfoldable pub get_record : Store → Option Principal → ℤ → Text → Result WriteError RecordRow
  unfolding fetch_record_row reads
  get_record s p now id = elim (fetch_record_row s id) [
    | none ↦ err not_found
    | some r ↦ if reads s p now r then ok r else err not_found
  ]

  -- What the database answers, at most one row more than the limit.
  unfoldable pub select_rows : Store → Option Principal → ℤ → ListQuery → List RecordRow
  unfolding matches by_seq
  select_rows s p now q = take (suc (page_limit q.limit)) (
      keep
        (λ r.
          matches q r && holds (read_prefilter date_time p (reader_grants s p) now) (visible_row r))
        (by_seq s.records))

  unfoldable pub list_records : Store → Option Principal → ℤ → ListQuery → Page
  unfolding select_rows reads
  list_records s p now q =
      let limit = page_limit q.limit in
      let rows = select_rows s p now q in
      let page = take limit (keep (reads s p now) rows) in
      if root_ok q.root_id
      then record {
        records = page;
        next_cursor = if ltb limit (length rows) then last_seq page else none;
      }
      else record { records = []; next_cursor = none }
