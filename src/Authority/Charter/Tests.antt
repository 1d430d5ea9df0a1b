-- ===== src/Authority/Charter/Tests.antt =====
-- A policy of one controller, who gets the access that it lists.
use mathlib.Core.List.Memᴰ.{head}
use direct_trade_protocol.Prelude.{
  ◌≡◌, refl, true, Option, none, some, [], ◌∷◌, Text, codes, ◌===◌, includes, distinct, ok, err,
  if◌then◌else◌,
}
use direct_trade_protocol.Prelude.Int.{ℤ, pos, ◌+ℤ◌}
use direct_trade_protocol.Prelude.Assoc.{lookup}
use direct_trade_protocol.Authority.{
  invalid, read, person, Command, Organization, Grant, State, instant, active_member, grant_current,
  data_allowed,
}
use direct_trade_protocol.Authority.Charter.{Charter, uuid, actions_ok, resources_ok, check_policy}
use direct_trade_protocol.Authority.Charter.Allows.{check_policy-allows}

charters : Unit {0}
unfolding check_policy uuid actions_ok resources_ok active_member grant_current instant lookup
    includes distinct ◌===◌ ◌+ℤ◌
charters = tt

abbrev early : Text
early = codes "2026-01-01T00:00:00.000Z"

abbrev far : Text
far = codes "2026-03-01T00:00:00.000Z"

abbrev clock : Text → Option ℤ
clock t = if t === early then some (pos 1) else some (pos 9)

abbrev command : Text → Command
command action = record {
  actor = person (codes "u");
  requested_by = some (codes "u");
  action = action;
  payload_person = none;
  issued_at = early;
}

abbrev company : Organization
company = record {
  id = codes "o";
  controllers = codes "u" ∷ [];
  active = true;
  members = [];
  installations = [];
  history = [];
}

abbrev reading : Text → Grant
reading id = record { person_id = id; actions = read ∷ []; resource_ids = none; expires_at = far }

abbrev charter : Grant → Charter
charter g = record {
  policy = record {
    id = codes "00000000-0000-4000-8000-00000000000a";
    organization_id = codes "o";
    grants = g ∷ [];
    history = command (codes "policy.create") ∷ [];
  };
  classification = codes "business";
  stewards = codes "u" ∷ [];
  threshold = pos 1;
}

abbrev store : State
store = record { persons = (codes "u", record { keys = [] }) ∷ [] }

policy_tests :
    (check_policy clock store company (charter (reading (codes "u"))) (pos 3) ≡ ok tt)
    × (check_policy clock store company (charter (reading (codes "v"))) (pos 3) ≡ err invalid)
    × (check_policy clock store company (charter (reading (codes "u"))) (pos 9) ≡ err invalid)
unfolding charters
policy_tests = (refl, refl, refl)

check_policy-allows_example :
    data_allowed clock store company
      ((charter (reading (codes "u"))).policy)
      (codes "r")
      read
      (command (codes "record.get"))
      (pos 3)
    ≡ ok true
check_policy-allows_example =
    check_policy-allows clock store company (charter (reading (codes "u"))) (reading (codes "u"))
      (codes "r") read (command (codes "record.get")) (pos 3) policy_tests.0 (head refl) refl refl
      refl refl refl
