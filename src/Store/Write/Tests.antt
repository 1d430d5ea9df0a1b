-- ===== src/Store/Write/Tests.antt =====
-- A company writes a note, writes it anew, and is refused a second successor.
use direct_trade_protocol.Prelude.{
  ◌≡◌, refl, Bool, true, false, Option, none, some, List, [], ◌∷◌, Text, codes, ok, err, ◌===◌,
  includes,
}
use direct_trade_protocol.Prelude.Int.{ℤ, pos, ◌-ℤ◌}
use direct_trade_protocol.Canonical.{end, canonicalize}
use direct_trade_protocol.Authority.Charter.{uuid}
use direct_trade_protocol.Store.Authz.{company, public, can_read}
use direct_trade_protocol.Store.Transitions.{get, is_text, check_write, status_of}
use direct_trade_protocol.Store.Integrity.{check_integrity}
use direct_trade_protocol.Store.Write.{
  Caller, Registered, Envelope, RecordRow, Store, fresh, retry, write_checks, supersedes_conflict,
}
use direct_trade_protocol.Store.Write.Commit.{commit, records_one_successor}
use direct_trade_protocol.Store.Write.Granted.{Granted, write_checks-Granted}
use direct_trade_protocol.Store.Write.Linear.{IsLinear}
use direct_trade_protocol.Store.Write.Heads.{opened, wrote, Reach-IsLinear}

writes : Unit {0}
unfolding write_checks commit can_read check_write check_integrity canonicalize uuid get is_text
    status_of ◌===◌ includes ◌-ℤ◌
writes = tt

abbrev no_dates : Text → Option ℤ
no_dates t = none

abbrev note_type : Registered
note_type = record {
  machine = record {
    transitions = none;
    roles = [];
    third_party_roles = [];
    append_only = false;
    lock_after_statuses = none;
    immutable_fields = [];
    revision_by = none;
  };
  namespace = codes "trade";
  subject = codes "self";
  writable_by = codes "company" ∷ [];
}

abbrev root_id : Text
root_id = codes "00000000-0000-0000-0000-000000000001"

abbrev next_id : Text
next_id = codes "00000000-0000-0000-0000-000000000002"

abbrev note : Text → Option Text → Envelope
note id supersedes = record {
  record_id = id;
  root_id = root_id;
  type = codes "trade.note";
  namespace = codes "trade";
  subject_company_id = codes "us";
  counterparty_ids = [];
  key_id = codes "key";
  company_id = codes "us";
  module_id = none;
  visibility = public;
  supersedes = supersedes;
  body = end;
  payload_hash = id;
}

abbrev us : Caller
us = record { principal = company (codes "us"); key_id = codes "key"; is_root = true }

abbrev row : Text → Option Text → Bool → RecordRow
row id supersedes head = record {
  envelope = note id supersedes;
  is_head = head;
  status = none;
  seq = 1;
}

abbrev holding : List RecordRow → Store
holding rs = record { companies = codes "us" ∷ []; grants = []; records = rs }

abbrev one_note : List RecordRow
one_note = row root_id none true ∷ []

abbrev two_notes : List RecordRow
two_notes = row next_id (some root_id) true ∷ row root_id none false ∷ []

first_note :
    (write_checks no_dates (holding []) (some us) note_type (note root_id none) (pos 0)
      ≡ ok (fresh none))
    × (commit [] note_type (note root_id none) none 1 ≡ ok one_note)
unfolding writes
first_note = (refl, refl)

second_note :
    (write_checks no_dates
        (holding one_note)
        (some us)
        note_type
        (note next_id (some root_id))
        (pos 0)
      ≡ ok (fresh (some (row root_id none true))))
    × (commit one_note note_type (note next_id (some root_id)) (some (row root_id none true)) 1
        ≡ ok two_notes)
unfolding writes
second_note = (refl, refl)

-- A retry is answered with the stored record; another successor is refused by the checks, and by the
-- transaction when the checks were made on an earlier state.
later_writes :
    (write_checks no_dates
        (holding two_notes)
        (some us)
        note_type
        (note next_id (some root_id))
        (pos 0)
      ≡ ok (retry (row next_id (some root_id) true)))
    × (write_checks no_dates
          (holding two_notes)
          (some us)
          note_type
          (note (codes "00000000-0000-0000-0000-000000000003") (some root_id))
          (pos 0)
        ≡ err supersedes_conflict)
    × (commit two_notes note_type
          (note (codes "00000000-0000-0000-0000-000000000003") (some root_id))
          (some (row root_id none true))
          1
        ≡ err records_one_successor)
unfolding writes
later_writes = (refl, refl, refl)

write_checks-Granted_example :
    Granted no_dates
      (holding one_note)
      us
      (note next_id (some root_id))
      (some (row root_id none true))
      (pos 0)
write_checks-Granted_example =
    write_checks-Granted no_dates (holding one_note) us note_type (note next_id (some root_id))
      (pos 0) (some (row root_id none true)) second_note.0

Reach-IsLinear_example : IsLinear two_notes
Reach-IsLinear_example = Reach-IsLinear no_dates {s = holding two_notes} (
    wrote {s = holding one_note} {rs = two_notes} (holding one_note) us note_type
      (note next_id (some root_id)) (pos 0) (some (row root_id none true)) 1
      (wrote {s = holding []} {rs = one_note} (holding []) us note_type (note root_id none) (pos 0)
        none 1 opened first_note.0 first_note.1)
      second_note.0 second_note.1)
