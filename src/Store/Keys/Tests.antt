-- ===== src/Store/Keys/Tests.antt =====
-- A company replaces its root key: the old one is left out of the list and revoked.
use direct_trade_protocol.Prelude.{
  ◌≡◌, refl, true, false, some, List, [], ◌∷◌, Text, codes, ok, err, ◌===◌, includes, distinct,
}
use direct_trade_protocol.Canonical.{str, end, member}
use direct_trade_protocol.Profiles.Stringify.{stringify}
use direct_trade_protocol.Store.Write.{forbidden}
use direct_trade_protocol.Store.Keys.{
  KeyRow, Owner, company, ListedKey, active, revoked, Role, root, delegate, KeyStatus, sync_keys,
  ids, is_of,
}
use direct_trade_protocol.Store.Keys.Roots.{HasRoot, sync_keys-HasRoot}

keys : Unit {0}
unfolding sync_keys is_of stringify ◌===◌ includes distinct
keys = tt

abbrev us : Owner
us = record { kind = company; id = codes "us" }

abbrev row : Text → Role → KeyStatus → KeyRow
row id role status = record {
  key_id = id;
  owner_kind = company;
  owner_id = codes "us";
  role = role;
  status = status;
}

abbrev listed : Text → Role → ListedKey
listed id role = record {
  key_id = id;
  role = role;
  status = active;
  source = member (codes "key_id") (str id) end;
}

abbrev before : List KeyRow
before = row (codes "old") root active ∷ row (codes "aide") delegate active ∷ []

abbrev after : List KeyRow
after =
    row (codes "new") root active
    ∷ row (codes "old") root revoked
    ∷ row (codes "aide") delegate active
    ∷ []

abbrev list_before : List ListedKey
list_before = listed (codes "old") root ∷ listed (codes "aide") delegate ∷ []

abbrev list_after : List ListedKey
list_after = listed (codes "aide") delegate ∷ listed (codes "new") root ∷ []

replaced :
    (sync_keys before us list_after (some list_before) true ≡ ok (after, codes "new" ∷ []))
    × (sync_keys before us list_after (some list_before) false ≡ err forbidden)
    × (sync_keys after us list_before (some list_after) true ≡ err forbidden)
    × (sync_keys before us (listed (codes "aide") delegate ∷ []) (some list_before) true
        ≡ err forbidden)
unfolding keys
replaced = (refl, refl, refl, refl)

distinct_keys : distinct (ids list_after) ≡ true
unfolding keys
distinct_keys = refl

sync_keys-HasRoot_example :
    (id : Text) × (includes (ids list_after) id ≡ true) × HasRoot us id after
sync_keys-HasRoot_example =
    sync_keys-HasRoot before after us list_after (some list_before) true (codes "new" ∷ [])
      distinct_keys replaced.0
