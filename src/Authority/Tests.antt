-- ===== src/Authority/Tests.antt =====
-- A member with a grant, and the same member after a revocation and a new membership.
use mathlib.Core.List.Memᴰ.{head}
use direct_trade_protocol.Prelude.{
  ◌≡◌, ◌≢◌, refl, true, false, Option, none, some, List, [], ◌∷◌, Text, codes, ◌===◌, includes, ok,
  if◌then◌else◌,
}
use direct_trade_protocol.Prelude.Int.{ℤ, pos}
use direct_trade_protocol.Prelude.Assoc.{lookup}
use direct_trade_protocol.Authority.{
  read, write, person, Command, Organization, Policy, State, revokes, last_issued, instant,
  data_allowed,
}
use direct_trade_protocol.Authority.Access.{data_allowed-revoked}
use direct_trade_protocol.Authority.Terms.{Granted}
use direct_trade_protocol.Authority.Grounds.{data_allowed-Granted}

authority : Unit {0}
unfolding data_allowed revokes last_issued instant lookup includes ◌===◌
authority = tt

abbrev early : Text
early = codes "2026-01-01T00:00:00.000Z"

abbrev late : Text
late = codes "2026-02-01T00:00:00.000Z"

abbrev far : Text
far = codes "2026-03-01T00:00:00.000Z"

abbrev clock : Text → Option ℤ
clock t = if t === early then some (pos 1) else if t === late then some (pos 2) else some (pos 9)

abbrev command : Text → Option Text → Text → Command
command action payload_person at = record {
  actor = person (codes "u");
  requested_by = some (codes "u");
  action = action;
  payload_person = payload_person;
  issued_at = at;
}

abbrev company : List Command → Organization
company history = record {
  id = codes "o";
  controllers = [];
  active = true;
  members = (codes "u", record { permissions = []; expires_at = far; active = true }) ∷ [];
  installations = [];
  history = history;
}

abbrev sales : Policy
sales = record {
  id = codes "p";
  organization_id = codes "o";
  grants =
      record { person_id = codes "u"; actions = read ∷ []; resource_ids = none; expires_at = far }
      ∷ [];
  history = command (codes "policy.create") none early ∷ [];
}

abbrev store : State
store = record { persons = (codes "u", record { keys = [] }) ∷ [] }

abbrev view : Command
view = command (codes "record.get") none late

abbrev revocation : Command
revocation = command (codes "membership.revoke") (some (codes "u")) late

access_tests :
    (data_allowed clock store (company []) sales (codes "r") read view (pos 3) ≡ ok true)
    × (data_allowed clock store (company []) sales (codes "r") write view (pos 3) ≡ ok false)
    × (data_allowed clock store (company []) sales (codes "r") read view (pos 9) ≡ ok false)
    × (data_allowed clock store (company (revocation ∷ [])) sales (codes "r") read view (pos 3)
        ≡ ok false)
unfolding authority
access_tests = (refl, refl, refl, refl)

data_allowed-Granted_example : Granted clock store (company []) sales (codes "r") read view (pos 3)
data_allowed-Granted_example =
    data_allowed-Granted clock store (company []) sales (codes "r") read view (pos 3) access_tests.0

data_allowed-revoked_example :
    data_allowed clock store (company (revocation ∷ [])) sales (codes "r") read view (pos 3)
    ≢ ok true
unfolding authority
data_allowed-revoked_example =
    data_allowed-revoked clock store (company (revocation ∷ [])) sales (codes "r") read view
      revocation (pos 3) (codes "u") early (pos 2) (pos 1) refl (head refl) refl refl refl refl refl
