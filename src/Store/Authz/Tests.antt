-- ===== src/Store/Authz/Tests.antt =====
-- A row shared with a counterparty that has granted a module its namespace.
use direct_trade_protocol.Prelude.{
  ◌≡◌, refl, true, false, Option, none, some, [], ◌∷◌, Text, codes, ◌===◌, includes,
}
use direct_trade_protocol.Prelude.Int.{ℤ, pos}
use direct_trade_protocol.Scopes.{read, active, namespace_of, grant_covers}
use direct_trade_protocol.Store.Authz.{
  GrantRow, counterparties, company, module_id, Row, can_read, holds, read_prefilter,
}
use direct_trade_protocol.Store.Authz.Prefilter.{read_prefilter-can_read}

abbrev clock : Text → Option ℤ
clock t = none

abbrev row : Row
row = record {
  visibility = counterparties;
  subject_company_id = codes "c1";
  counterparty_ids = codes "c2" ∷ [];
  type = codes "trade.order";
  namespace = codes "trade";
  body_module = none;
}

abbrev granted_by : Text → GrantRow
granted_by id = record {
  grantor_company_id = id;
  grant = record {
    scopes = record { namespace = some (codes "trade"); type = none; access = read } ∷ [];
    status = active;
    expires_at = none;
  };
}

can_read_tests :
    (can_read clock row (some (module_id (codes "m"))) (granted_by (codes "c2") ∷ []) (pos 0)
      ≡ true)
    × (can_read clock row (some (module_id (codes "m"))) (granted_by (codes "c3") ∷ []) (pos 0)
        ≡ false)
    × (can_read clock row (some (company (codes "c2"))) [] (pos 0) ≡ true)
    × (can_read clock row none [] (pos 0) ≡ false)
unfolding can_read grant_covers ◌===◌ includes
can_read_tests = (refl, refl, refl, refl)

row_namespace : row.namespace ≡ namespace_of row.type
unfolding namespace_of
row_namespace = refl

read_prefilter-can_read_example :
    holds
      (read_prefilter clock (some (module_id (codes "m"))) (granted_by (codes "c2") ∷ []) (pos 0))
      row
    ≡ can_read clock row (some (module_id (codes "m"))) (granted_by (codes "c2") ∷ []) (pos 0)
read_prefilter-can_read_example =
    read_prefilter-can_read row row_namespace clock (pos 0) (some (module_id (codes "m")))
      (granted_by (codes "c2") ∷ [])
