-- ===== src/Scopes/Tests.antt =====
-- A grant that is live until a time, and the theorems at it.
use direct_trade_protocol.Prelude.{
  ◌≡◌, refl, true, false, Option, none, some, [], ◌∷◌, any, Text, codes, ◌===◌,
}
use direct_trade_protocol.Prelude.Int.{ℤ, pos}
use direct_trade_protocol.Scopes.{
  read, write, Scope, active, revoked, GrantLike, scope_covers, grant_covers, readable_scopes,
}
use direct_trade_protocol.Scopes.Readable.{readable_scopes-cover}

abbrev trade_writes : Scope
trade_writes = record { namespace = some (codes "trade"); type = none; access = write }

abbrev products_only : Scope
products_only = record {
  namespace = some (codes "*");
  type = some (codes "catalog.product");
  access = read;
}

-- The one time that this clock reads.
abbrev clock : Text → Option ℤ
clock t = some (pos 100)

abbrev until_100 : GrantLike
until_100 = record { scopes = trade_writes ∷ []; status = active; expires_at = some (codes "2026") }

abbrev withdrawn : GrantLike
withdrawn = record { scopes = products_only ∷ []; status = revoked; expires_at = none }

scope_tests :
    (scope_covers trade_writes (codes "trade.order") write ≡ true)
    × (scope_covers products_only (codes "trade.order") read ≡ false)
    × (scope_covers products_only (codes "catalog.product") write ≡ false)
unfolding scope_covers ◌===◌
scope_tests = (refl, refl, refl)

grant_tests :
    (grant_covers clock until_100 (codes "trade.order") read (pos 99) ≡ true)
    × (grant_covers clock until_100 (codes "trade.order") read (pos 100) ≡ false)
    × (grant_covers clock withdrawn (codes "catalog.product") read (pos 0) ≡ false)
unfolding grant_covers ◌===◌
grant_tests = (refl, refl, refl)

readable_scopes-cover_example :
    any
      (λ s. scope_covers s (codes "trade.order") read)
      (readable_scopes clock (withdrawn ∷ until_100 ∷ []) (pos 99))
    ≡ any
        (λ g. grant_covers clock g (codes "trade.order") read (pos 99))
        (withdrawn ∷ until_100 ∷ [])
readable_scopes-cover_example =
    readable_scopes-cover clock (withdrawn ∷ until_100 ∷ []) (codes "trade.order") (pos 99)
