-- ===== src/Store/Transitions/Frozen.antt =====
-- What the check of the immutable fields keeps.
use mathlib.Core.List.{Memᴰ}
use mathlib.Core.List.Memᴰ.{head, tail}
use direct_trade_protocol.Prelude.{
  ◌≡◌, true, some, List, [], ◌∷◌, Text, ◌===◌, ===_iff, ok, demand, refuse, >>=-elim, demand-eq-ok,
  arith,
}
use direct_trade_protocol.Canonical.{Json, Members, canonicalize}
use direct_trade_protocol.Store.Transitions.{
  immutable_field, append_only_type, PartyContext, TypeInfo, get, or_null, canonical, check_frozen,
  is_locked, status_of, check_lock, check_transition, check_role_continuity, check_write,
}

-- The two bodies agree on the canonical text of a field.
pub record SameText (prev new : Members) (field : Text) : Type 0 where
  pub text : Text
  pub before : canonicalize (or_null (get prev field)) ≡ ok text
  pub after : canonicalize (or_null (get new field)) ≡ ok text

canonical-eq-ok : (v : Json) (t : Text) → canonical v ≡ ok t → canonicalize v ≡ ok t
unfolding canonical
canonical-eq-ok v t h = ground arith

agreed :
    (prev new : Members) (f field a b : Text)
    → canonical (or_null (get prev f)) ≡ ok a
    → canonical (or_null (get new f)) ≡ ok b
    → (a === b) ≡ true
    → field ≡ f
    → SameText prev new field
agreed prev new f field a b read written agree e = record {
  text = a;
  before = rw e (canonical-eq-ok (or_null (get prev f)) a read);
  after = rw (e, (===_iff a b).0 agree) (canonical-eq-ok (or_null (get new f)) b written);
}

check_frozen-SameText :
    (fields : List Text) (prev new : Members) (field : Text)
    → check_frozen fields prev new ≡ ok tt
    → Memᴰ field fields
    → SameText prev new field
unfolding check_frozen
check_frozen-SameText [] prev new field h m = elim m [ ]
check_frozen-SameText (f ∷ fields) prev new field h m =
    >>=-elim (canonical (or_null (get prev f))) _ h λ a read h1.
      >>=-elim (canonical (or_null (get new f))) _ h1 λ b written h2.
        >>=-elim (demand (a === b) immutable_field) _ h2 λ _ agree h3. elim m [
          | head e ↦
              agreed prev new f field a b read written
                (demand-eq-ok (a === b) immutable_field agree) e
          | tail n ↦ check_frozen-SameText fields prev new field h3 n
        ]

check_lock-SameText :
    (info : TypeInfo) (prev new : Members) (field : Text)
    → check_lock info prev new ≡ ok tt
    → is_locked info.lock_after_statuses (status_of info prev) ≡ true
    → Memᴰ field info.immutable_fields
    → SameText prev new field
unfolding check_lock
check_lock-SameText info prev new field h locked m =
    >>=-elim (refuse info.append_only append_only_type) _ h
      λ _ _ h1. check_frozen-SameText info.immutable_fields prev new field (rw locked at h1) m

-- When a supersede is accepted and the type is locked in the status of the superseded record, each
-- immutable field has the same canonical text before and after.
pub check_write-SameText :
    (info : TypeInfo) (prev new : Members) (party : PartyContext) (field : Text)
    → check_write info (some prev) new party ≡ ok tt
    → is_locked info.lock_after_statuses (status_of info prev) ≡ true
    → Memᴰ field info.immutable_fields
    → SameText prev new field
unfolding check_write check_transition
check_write-SameText info prev new party field h locked m =
    >>=-elim (check_role_continuity info (some prev) new party) _ h λ _ _ h1.
      >>=-elim (check_lock info prev new) _ h1
        λ _ kept h2. check_lock-SameText info prev new field kept locked m
