-- ===== src/Store/Reads/Pages.antt =====
-- The pages of listRecords against the records that the caller may read.
use direct_trade_protocol.Prelude.{
  ℕ, zero, suc, ◌≡◌, refl, ap, ◌∙◌, Bool, true, false, ◌&&◌, Option, none, List, [], ◌∷◌, take,
  keep, length, ltb, leb, All, if◌then◌else◌, Text, arith, Bool-cases, inl, inr,
}
use direct_trade_protocol.Prelude.Int.{ℤ}
use direct_trade_protocol.Scopes.{namespace_of}
use direct_trade_protocol.Store.Authz.{Principal}
use direct_trade_protocol.Store.Authz.Prefilter.{read_prefilter-can_read}
use direct_trade_protocol.Store.Write.{RecordRow, Store, visible_row}
use direct_trade_protocol.Store.Reads.{
  ListQuery, matches, insert_row, by_seq, page_limit, reader_grants, last_seq, root_ok, reads,
  select_rows, list_records,
}

and_right : (a b : Bool) → (a && b) ≡ true → b ≡ true
and_right a b h = ground arith

module _ {ℓ} {A : Type ℓ} where
  take-take : (n : ℕ) (xs : List A) → take n (take (suc n) xs) ≡ take n xs
  take-take zero xs = refl
  take-take (suc n) [] = refl
  take-take (suc n) (x ∷ xs) = ap (λ ys. x ∷ ys) (take-take n xs)

  ltb-length : (n : ℕ) (xs : List A) → ltb n (length (take (suc n) xs)) ≡ ltb n (length xs)
  ltb-length zero [] = refl
  ltb-length zero (x ∷ xs) = ground arith
  ltb-length (suc n) [] = refl
  ltb-length (suc n) (x ∷ xs) = ground (arith, ltb-length n xs)

  keep-All : (m p : A → Bool) (xs : List A) → All (λ x. p x ≡ true) (keep (λ x. m x && p x) xs)
  keep-All m p [] = tt
  keep-All m p (x ∷ xs) = elim (Bool-cases (m x && p x)) [
    | inl kept ↦ rw (kept, keep, All) (and_right (m x) (p x) kept, keep-All m p xs)
    | inr dropped ↦ rw (dropped, keep, All) (keep-All m p xs)
  ]

  keep-take :
      (p : A → Bool) (n : ℕ) (xs : List A)
      → All (λ x. p x ≡ true) xs
      → keep p (take n xs) ≡ take n xs
  keep-take p zero xs h = refl
  keep-take p (suc n) [] h = refl
  keep-take p (suc n) (x ∷ xs) (h, hs) = rw (h, keep-take p n xs hs) refl

module _ {ℓ κ} {A : Type ℓ} (P : A → Type κ) (p q : A → Bool)
    (same : (x : A) → P x → p x ≡ q x) where
  keep_same : (xs : List A) → All P xs → keep p xs ≡ keep q xs
  keep_same [] h = refl
  keep_same (x ∷ xs) (hx, hs) =
      ap (λ b. elim b [ true ↦ x ∷ keep p xs | false ↦ keep p xs ]) (same x hx)
      ∙ ap (λ rest. elim (q x) [ true ↦ x ∷ rest | false ↦ rest ]) (keep_same xs hs)

-- The column of the namespace holds that of the type.
abbrev pub IsFiled : RecordRow → Type 0
IsFiled r = r.envelope.namespace ≡ namespace_of r.envelope.type

insert_row-All :
    (r : RecordRow) (rows : List RecordRow)
    → IsFiled r
    → All IsFiled rows
    → All IsFiled (insert_row r rows)
unfolding insert_row
insert_row-All r [] h hs = (h, tt)
insert_row-All r (s ∷ rows) h (hs, hss) = elim (Bool-cases (leb r.seq s.seq)) [
  | inl at_end ↦ rw at_end (h, (hs, hss))
  | inr further ↦ rw further (hs, insert_row-All r rows h hss)
]

by_seq-All : (rows : List RecordRow) → All IsFiled rows → All IsFiled (by_seq rows)
unfolding by_seq
by_seq-All [] h = tt
by_seq-All (r ∷ rows) (h, hs) = insert_row-All r (by_seq rows) h (by_seq-All rows hs)

module _ (date_time : Text → Option ℤ) (s : Store) (p : Option Principal) (now : ℤ)
    (q : ListQuery) where
  -- The records that the query asks for and the caller may read, in order.
  abbrev pub view : List RecordRow
  view = keep (λ r. matches q r && reads date_time s p now r) (by_seq s.records)

  select_rows-view :
      All IsFiled s.records → select_rows date_time s p now q ≡ take (suc (page_limit q.limit)) view
  unfolding select_rows reads
  select_rows-view filed = ap (take (suc (page_limit q.limit))) (
      keep_same IsFiled _ _
        (λ r h.
          ap (λ b. matches q r && b)
            (read_prefilter-can_read (visible_row r) h date_time now p (reader_grants s p)))
        (by_seq s.records) (by_seq-All s.records filed))

  -- A page is the start of the records that the query asks for and the caller may read, in order, as
  -- long as the limit allows; it has a cursor, the number of its last record, when there are more of
  -- them. The rows that the database leaves out never make a page short. The query's root, if any,
  -- is a UUID, and the column of each row's namespace holds that of its type.
  pub list_records-view :
      All IsFiled s.records
      → root_ok q.root_id ≡ true
      → list_records date_time s p now q ≡ record {
        records = take (page_limit q.limit) view;
        next_cursor =
            if ltb (page_limit q.limit) (length view)
            then last_seq (take (page_limit q.limit) view)
            else none;
      }
  unfolding list_records
  list_records-view filed root_is =
      let limit = page_limit q.limit in
      let test = reads date_time s p now in
      let rows_are = select_rows-view filed in
      let readable =
        keep-take test (suc limit) view (keep-All (matches q) test (by_seq s.records)) in
      let page_is : take limit (keep test (select_rows date_time s p now q)) ≡ take limit view =
        ap (λ rows. take limit (keep test rows)) rows_are
        ∙ (ap (take limit) readable ∙ take-take limit view) in
      let more_is : ltb limit (length (select_rows date_time s p now q)) ≡ ltb limit (length view) =
        ap (λ rows. ltb limit (length rows)) rows_are ∙ ltb-length limit view in
      rw (root_is, page_is, more_is) refl
