-- ===== src/Store/Keys.antt =====
-- syncKeys of supabase/functions/dtp-store/handlers/records.ts: the keys that a company or a module
-- lists, and the table of keys. A body has passed its schema, so its keys are objects. The public key
-- and the token of a row are left out; a key with a new token is one of those minted.
pub mod Rows
pub mod Roots
mod Tests
use direct_trade_protocol.Prelude.{
  Bool, true, false, not, ◌&&◌, Option, none, some, List, [], ◌∷◌, map, any, keep, if◌then◌else◌,
  is_some, Text, codes, ◌===◌, includes, Result, ok, err, ◌>>=◌, ◌>>◌, demand, refuse,
}
use direct_trade_protocol.Canonical.{Json, obj, arr, Items, nil, item, Members}
use direct_trade_protocol.Store.Transitions.{get, is_text}
use direct_trade_protocol.Store.Write.{WriteError, forbidden}
use direct_trade_protocol.Profiles.Stringify.{stringify}

pub data OwnerKind : Type 0 where
  company module_key : OwnerKind

pub data Role : Type 0 where
  root delegate : Role

pub data KeyStatus : Type 0 where
  active revoked : KeyStatus

pub record KeyRow : Type 0 where
  pub key_id : Text
  pub owner_kind : OwnerKind
  pub owner_id : Text
  pub role : Role
  pub status : KeyStatus

pub record Owner : Type 0 where
  pub kind : OwnerKind
  pub id : Text

-- A listed key: the members that are read, and the object that they are members of.
pub record ListedKey : Type 0 where
  pub key_id : Text
  pub role : Role
  pub status : KeyStatus
  pub source : Members

abbrev pub same_kind : OwnerKind → OwnerKind → Bool
same_kind company company = true
same_kind module_key module_key = true
same_kind _ _ = false

abbrev pub same_role : Role → Role → Bool
same_role root root = true
same_role delegate delegate = true
same_role _ _ = false

abbrev pub is_active : KeyStatus → Bool
is_active active = true
is_active revoked = false

abbrev pub is_root : Role → Bool
is_root root = true
is_root delegate = false

abbrev pub is_active_root : ListedKey → Bool
is_active_root k = is_root k.role && is_active k.status

abbrev sources : List ListedKey → Items
sources [] = nil
sources (k ∷ ks) = item (obj k.source) (sources ks)

-- `JSON.stringify(prevKeys) !== JSON.stringify(keys)`, of previous keys that are there
unfoldable pub changed : Option (List ListedKey) → List ListedKey → Bool
unfolding stringify
changed none keys = false
changed (some previous) keys =
    not (stringify (arr (sources previous)) === stringify (arr (sources keys)))

unfoldable pub is_of : Owner → KeyRow → Bool
is_of owner r = same_kind r.owner_kind owner.kind && r.owner_id === owner.id

-- `byId.get(id)`; a key's id is the primary key of the table
unfoldable pub find_key : List KeyRow → Text → Option KeyRow
find_key [] id = none
find_key (r ∷ rs) id = if r.key_id === id then some r else find_key rs id

-- `update protocol.keys set status = 'revoked' ... where key_id = $1`
abbrev pub revoke : Text → KeyRow → KeyRow
revoke id r = if r.key_id === id then record r { status = revoked } else r

-- `update protocol.keys set role = $2 where key_id = $1`
abbrev pub set_role : Text → Role → KeyRow → KeyRow
set_role id role r = if r.key_id === id then record r { role = role } else r

abbrev pub new_key : Owner → ListedKey → KeyRow
new_key owner k = record {
  key_id = k.key_id;
  owner_kind = owner.kind;
  owner_id = owner.id;
  role = k.role;
  status = k.status;
}

-- The change of status of a key that the owner has.
unfoldable pub sync_status : List KeyRow → KeyStatus → ListedKey → Result WriteError (List KeyRow)
sync_status table active k = ok (if is_active k.status then table else map (revoke k.key_id) table)
sync_status table revoked k = if is_active k.status then err forbidden else ok table

unfoldable pub sync_role : List KeyRow → Role → ListedKey → List KeyRow
sync_role table role k =
    if same_role role k.role then table else map (set_role k.key_id k.role) table

-- One turn over the keys listed; `cur` is the row before the loop.
unfoldable pub sync_one :
    Owner → Option KeyRow → List KeyRow → ListedKey → Result WriteError (List KeyRow)
unfolding find_key sync_status sync_role
sync_one owner none table k = do
  refuse (is_some (find_key table k.key_id)) forbidden
  ok (new_key owner k ∷ table)
sync_one owner (some cur) table k = do
  changed_rows ← sync_status table cur.status k
  ok (sync_role changed_rows cur.role k)

-- `existing` are the owner's rows before the loop.
unfoldable pub sync_each :
    Owner → List KeyRow → List KeyRow → List ListedKey → Result WriteError (List KeyRow)
unfolding sync_one
sync_each owner existing table [] = ok table
sync_each owner existing table (k ∷ ks) = do
  next ← sync_one owner (find_key existing k.key_id) table k
  sync_each owner existing next ks

-- Keys removed from the list are revoked.
unfoldable pub revoke_unlisted : List Text → List KeyRow → List KeyRow → List KeyRow
revoke_unlisted listed [] table = table
revoke_unlisted listed (r ∷ rs) table = revoke_unlisted listed rs (
    if not (includes listed r.key_id) && is_active r.status
    then map (revoke r.key_id) table
    else table)

abbrev listed_id : ListedKey → Text
listed_id k = k.key_id

abbrev pub ids : List ListedKey → List Text
ids = map listed_id

-- The keys that get a token.
abbrev pub is_minted : List KeyRow → ListedKey → Bool
is_minted existing k = not (is_some (find_key existing k.key_id)) && is_active k.status

unfoldable pub minted : List KeyRow → List ListedKey → List Text
minted existing keys = ids (keep (is_minted existing) keys)

-- The table after, and the ids of the keys minted; `signer_is_root` is the role of the caller.
unfoldable pub sync_keys :
    List KeyRow
    → Owner
    → List ListedKey
    → Option (List ListedKey)
    → Bool
    → Result WriteError (List KeyRow × List Text)
unfolding changed sync_each revoke_unlisted minted
sync_keys table owner keys previous signer_is_root = do
  demand (any is_active_root keys) forbidden
  refuse (changed previous keys && not signer_is_root) forbidden
  let existing = keep (is_of owner) table
  synced ← sync_each owner existing table keys
  ok (revoke_unlisted (ids keys) existing synced, minted existing keys)
