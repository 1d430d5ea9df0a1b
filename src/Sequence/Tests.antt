-- ===== src/Sequence/Tests.antt =====
-- A store without counters, in which two companies write in turn, and which imports a third.
use mathlib.Core.List.Memᴰ.{head, eq_of_singleton}
use direct_trade_protocol.Prelude.{
  ◌<◌, ◌≡◌, refl, ap, none, includes, some, [], ◌∷◌, codes, ◌===◌, Text,
}
use direct_trade_protocol.Prelude.Assoc.{lookup, insert}
use direct_trade_protocol.Sequence.{
  BusinessRecord, State, next_record_seq, create_organization, append_record, apply_snapshot,
}
use direct_trade_protocol.Sequence.Growth.{append_record-other}
use direct_trade_protocol.Sequence.Numbers.{
  IsHoused, Stored, uncounted, append, import, Stored-next,
}

sequence : Unit {0}
unfolding append_record create_organization apply_snapshot includes lookup insert ◌===◌
sequence = tt

abbrev numbered : Text → BusinessRecord
numbered company = record { organization_id = company; seq = 7 }

abbrev old_store : State
old_store = record {
  organizations = codes "a" ∷ codes "b" ∷ [];
  records = numbered (codes "a") ∷ [];
  record_seq = [];
}

abbrev after_a : State
after_a = record {
  organizations = codes "a" ∷ codes "b" ∷ [];
  records = numbered (codes "a") ∷ record { organization_id = codes "a"; seq = 8 } ∷ [];
  record_seq = (codes "a", 9) ∷ [];
}

appended_a : append_record old_store (codes "a") ≡ some after_a
unfolding sequence
appended_a = refl

first_number : next_record_seq after_a (codes "b") ≡ 1
unfolding sequence
first_number = refl

abbrev after_import : State
after_import = record {
  organizations = codes "a" ∷ codes "b" ∷ codes "c" ∷ [];
  records =
      numbered (codes "a")
      ∷ record { organization_id = codes "a"; seq = 8 }
      ∷ record { organization_id = codes "c"; seq = 1 }
      ∷ [];
  record_seq = (codes "a", 9) ∷ (codes "c", 2) ∷ [];
}

imported_c : apply_snapshot after_a (codes "c") (numbered (codes "c") ∷ []) ≡ some after_import
unfolding sequence
imported_c = refl

created_b :
    (create_organization old_store (codes "b") ≡ none)
    × (append_record old_store (codes "c") ≡ none)
unfolding sequence
created_b = (refl, refl)

housed : IsHoused old_store
unfolding sequence
housed r m =
    ap (λ (x : BusinessRecord). includes old_store.organizations x.organization_id)
      (eq_of_singleton m)

abbrev is_stored : Stored after_import
is_stored =
    import {s = after_a} (codes "c") (numbered (codes "c") ∷ [])
      (append (codes "a") (uncounted {s = old_store} refl housed) appended_a) imported_c

Stored-next_example : 7 < next_record_seq after_import (codes "a")
unfolding sequence
Stored-next_example =
    Stored-next {s = after_import} (codes "a") (numbered (codes "a")) is_stored (head refl) refl

append_record-other_example :
    next_record_seq after_a (codes "b") ≡ next_record_seq old_store (codes "b")
unfolding sequence
append_record-other_example =
    append_record-other old_store after_a (codes "a") (codes "b") appended_a refl
