-- ===== src/Store/Transitions/Tests.antt =====
-- A sale that the seller opens and the buyer holds, appointing an arbiter, and the theorems at it.
use mathlib.Core.List.{Memᴰ}
use mathlib.Core.List.Memᴰ.{head, tail}
use direct_trade_protocol.Prelude.{
  ◌≡◌, ◌≢◌, refl, true, false, none, some, [], ◌∷◌, Text, codes, ◌===◌, includes, ok, err,
}
use direct_trade_protocol.Prelude.Int.{pos, ◌-ℤ◌}
use direct_trade_protocol.Canonical.{Json, null, num, str, Members, end, member, canonicalize}
use direct_trade_protocol.Store.Transitions.{
  PartyContext, Transitions, TypeInfo, get, or_null, status_of, roles_of, check_write, wrong_mover,
  immutable_field, role_changed, not_third_party, no_transition,
}
use direct_trade_protocol.Store.Transitions.Frozen.{SameText, check_write-SameText}
use direct_trade_protocol.Store.Transitions.Roles.{
  Later, now, superseded, Later-role, check_write-third,
}
use direct_trade_protocol.Store.Transitions.Status.{Step, Leads, check_write-Step, Later-status}
use direct_trade_protocol.Store.Transitions.Outsiders.{check_write-outsider}

transitions : Unit {0}
unfolding check_write status_of canonicalize ◌===◌ includes ◌-ℤ◌
transitions = tt

abbrev machine : Transitions
machine = record {
  status_field = some (codes "status");
  initial_status = codes "open" ∷ [];
  initial_by = codes "seller" ∷ [];
  transitions = record { from = codes "open"; to = codes "held"; by = codes "buyer" ∷ [] } ∷ [];
}

abbrev sale : TypeInfo
sale = record {
  transitions = some machine;
  roles =
      (codes "seller", codes "s") ∷ (codes "buyer", codes "b") ∷ (codes "arbiter", codes "a") ∷ [];
  third_party_roles = codes "arbiter" ∷ [];
  append_only = false;
  lock_after_statuses = none;
  immutable_fields = codes "price" ∷ [];
  revision_by = none;
}

abbrev body : Text → Json → Json → Members
body status price arbiter = member (codes "s") (str (codes "S")) (
    member (codes "b") (str (codes "B")) (
      member (codes "a") arbiter
        (member (codes "status") (str status) (member (codes "price") price end))))

abbrev opened : Members
opened = body (codes "open") (num (pos 5)) null

abbrev sale_body : Members
sale_body = body (codes "held") (num (pos 5)) (str (codes "A"))

abbrev by : Text → PartyContext
by issuer = record {
  issuer_company_id = issuer;
  subject_company_id = codes "S";
  counterparty_ids = codes "B" ∷ [];
}

genesis_accepted : check_write sale none opened (by (codes "S")) ≡ ok tt
unfolding transitions
genesis_accepted = refl

move_accepted : check_write sale (some opened) sale_body (by (codes "B")) ≡ ok tt
unfolding transitions
move_accepted = refl

refusals :
    (check_write sale (some opened) sale_body (by (codes "S")) ≡ err wrong_mover)
    × (check_write sale (some opened) (body (codes "held") (num (pos 6)) null) (by (codes "B"))
        ≡ err immutable_field)
    × (check_write sale
          (some opened)
          (body (codes "held") (num (pos 5)) (str (codes "S")))
          (by (codes "B"))
        ≡ err not_third_party)
    × (check_write sale (some sale_body) (body (codes "held") (num (pos 5)) null) (by (codes "S"))
        ≡ err role_changed)
    × (check_write sale
          (some sale_body)
          (body (codes "open") (num (pos 5)) (str (codes "A")))
          (by (codes "S"))
        ≡ err no_transition)
unfolding transitions
refusals = (refl, refl, refl, refl, refl)

check_write-SameText_example : SameText opened sale_body (codes "price")
check_write-SameText_example =
    check_write-SameText sale opened sale_body (by (codes "B")) (codes "price") move_accepted refl
      (head refl)

chain : Later sale opened sale_body
chain = superseded sale_body (by (codes "B")) now move_accepted

buyer_fixed : or_null (get opened (codes "b")) ≡ str (codes "B")
unfolding transitions
buyer_fixed = refl

Later-role_example : or_null (get opened (codes "b")) ≡ or_null (get sale_body (codes "b"))
unfolding transitions
Later-role_example = Later-role sale (codes "buyer") (codes "b") chain (tail (head refl)) refl

arbiter_named : get sale_body (codes "a") ≡ str (codes "A")
unfolding transitions
arbiter_named = refl

check_write-third_example :
    (codes "A" ≢ codes "S") × ¬ Memᴰ (codes "A") (by (codes "B")).counterparty_ids
check_write-third_example =
    check_write-third sale (some opened) sale_body (by (codes "B")) (codes "arbiter") (codes "a")
      (codes "A") move_accepted (tail (tail (head refl))) (head refl) arbiter_named

check_write-Step_example :
    Step sale machine
      (status_of sale opened)
      (status_of sale sale_body)
      (roles_of sale opened (by (codes "B")))
check_write-Step_example =
    check_write-Step sale machine opened sale_body (by (codes "B")) move_accepted refl refl

Later-status_example :
    (s : Text) × (includes machine.initial_status s ≡ true)
    × Leads machine.transitions (some s) (status_of sale sale_body)
Later-status_example =
    Later-status sale machine (by (codes "S")) genesis_accepted chain refl refl refl

check_write-outsider_example :
    check_write sale
      (some opened)
      (body (codes "held") (num (pos 5)) (str (codes "X")))
      (by (codes "X"))
    ≢ ok tt
unfolding transitions
check_write-outsider_example =
    check_write-outsider sale opened (body (codes "held") (num (pos 5)) (str (codes "X")))
      (by (codes "X")) refl refl
