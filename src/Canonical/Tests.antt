-- ===== src/Canonical/Tests.antt =====
-- Runs of `canonicalize`, and an object listed in two orders.
use direct_trade_protocol.Prelude.{◌≡◌, ◌≢◌, ◌===◌, ===_iff, refl, ok, err, codes}
use direct_trade_protocol.Prelude.Int.{pos, negsuc}
use direct_trade_protocol.Canonical.{
  Json, null, fractional, num, str, arr, obj, nil, item, end, member, canonicalize, unsafe_name,
  float_not_allowed,
}
use direct_trade_protocol.Canonical.Order.{swap, canonicalize-Reordered}

abbrev sample : Json
sample = obj (
    member (codes "b") (num (negsuc 4))
      (member (codes "a") (arr (item null (item (str (codes "x\"y")) nil))) end))

canonicalize_tests :
    (canonicalize sample ≡ ok (codes "{\"a\":[null,\"x\\\"y\"],\"b\":-5}"))
    × (canonicalize (obj (member (codes "a\"") null end)) ≡ err unsafe_name)
    × (canonicalize (arr (item fractional nil)) ≡ err float_not_allowed)
unfolding canonicalize
canonicalize_tests = (refl, refl, refl)

b_is_not_a : codes "b" ≢ codes "a"
unfolding ◌===◌
b_is_not_a h = let e = (===_iff (codes "b") (codes "a")).1 h in absurd (cc e)

canonicalize-Reordered_example :
    canonicalize (obj (member (codes "b") (num (pos 1)) (member (codes "a") null end)))
    ≡ canonicalize (obj (member (codes "a") null (member (codes "b") (num (pos 1)) end)))
canonicalize-Reordered_example =
    canonicalize-Reordered (swap (codes "b") (codes "a") (num (pos 1)) null b_is_not_a)
