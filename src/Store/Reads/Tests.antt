-- ===== src/Store/Reads/Tests.antt =====
-- A company's private records in pages of one; another caller sees none of them.
use direct_trade_protocol.Prelude.{
  ℕ, ◌≡◌, refl, take, length, ltb, if◌then◌else◌, true, false, Option, none, some, List, [], ◌∷◌,
  Text, codes, ok, err, ◌===◌, includes,
}
use direct_trade_protocol.Prelude.Int.{ℤ, pos}
use direct_trade_protocol.Authority.Charter.{uuid}
use direct_trade_protocol.Canonical.{end}
use direct_trade_protocol.Scopes.{namespace_of}
use direct_trade_protocol.Store.Authz.{Principal, company, private, holds, read_prefilter, can_read}
use direct_trade_protocol.Store.Write.{RecordRow, Store, not_found}
use direct_trade_protocol.Store.Reads.{ListQuery, page_limit, last_seq, get_record, list_records}
use direct_trade_protocol.Store.Reads.Pages.{view, list_records-view}

abbrev no_dates : Text → Option ℤ
no_dates t = none

abbrev id : Text
id = codes "00000000-0000-0000-0000-000000000001"

abbrev row : ℕ → RecordRow
row seq = record {
  envelope = record {
    record_id = id;
    root_id = id;
    type = codes "trade.note";
    namespace = codes "trade";
    subject_company_id = codes "us";
    counterparty_ids = [];
    key_id = codes "key";
    company_id = codes "us";
    module_id = none;
    visibility = private;
    supersedes = none;
    body = end;
    payload_hash = id;
  };
  is_head = true;
  status = none;
  seq = seq;
}

abbrev store : Store
store = record { companies = codes "us" ∷ []; grants = []; records = row 3 ∷ row 2 ∷ row 1 ∷ [] }

abbrev us : Option Principal
us = some (company (codes "us"))

abbrev them : Option Principal
them = some (company (codes "them"))

abbrev one_after : ℤ → ListQuery
one_after seq = record {
  subject = none;
  type = some (codes "trade.note");
  namespace = none;
  counterparty = none;
  root_id = some id;
  include_superseded = false;
  after = some seq;
  limit = some (pos 1);
}

pages :
    (list_records no_dates store us (pos 0) (one_after (pos 1))
      ≡ record { records = row 2 ∷ []; next_cursor = some 2 })
    × (list_records no_dates store us (pos 0) (one_after (pos 2))
        ≡ record { records = row 3 ∷ []; next_cursor = none })
    × (list_records no_dates store them (pos 0) (one_after (pos 1))
        ≡ record { records = []; next_cursor = none })
    × (get_record no_dates store them (pos 0) id ≡ err not_found)
    × (get_record no_dates store us (pos 0) id ≡ ok (row 3))
unfolding list_records get_record ◌===◌ includes uuid page_limit holds read_prefilter can_read
pages = (refl, refl, refl, refl, refl)

filed : codes "trade" ≡ namespace_of (codes "trade.note")
unfolding namespace_of
filed = refl

id_ok : uuid id ≡ true
unfolding uuid
id_ok = refl

abbrev later : List RecordRow
later = view no_dates store us (pos 0) (one_after (pos 1))

list_records-view_example : list_records no_dates store us (pos 0) (one_after (pos 1)) ≡ record {
  records = take (page_limit (some (pos 1))) later;
  next_cursor =
      if ltb (page_limit (some (pos 1))) (length later)
      then last_seq (take (page_limit (some (pos 1))) later)
      else none;
}
list_records-view_example =
    list_records-view no_dates store us (pos 0) (one_after (pos 1)) (filed, (filed, (filed, tt)))
      id_ok
