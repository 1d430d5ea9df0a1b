-- ===== src/Store/Keys/Roots.antt =====
-- An identity keeps an active root key.
use mathlib.Core.List.{Memᴰ}
use mathlib.Core.List.Memᴰ.{head, tail}
use mathlib.Core.Path.{subst}
use direct_trade_protocol.Prelude.{
  ◌≡◌, refl, sym, ap, ◌∙◌, Bool, true, false, not, ◌&&◌, Option, none, some, List, [], ◌∷◌, any,
  keep, is_some, Text, ◌===◌, ===_iff, ===_refl, includes, distinct, ok, >>=-elim, ok-injective,
  demand-elim, refuse-elim, Bool-cases, inl, inr, and-true, arith,
}
use direct_trade_protocol.Store.Write.{forbidden}
use direct_trade_protocol.Store.Keys.{
  KeyRow, Owner, OwnerKind, company, module_key, same_kind, ListedKey, KeyStatus, active, revoked,
  Role, root, delegate, same_role, is_active, is_root, is_active_root, is_of, find_key, set_role,
  new_key, sync_status, sync_role, sync_one, sync_each, ids, sync_keys, changed,
}
use direct_trade_protocol.Store.Keys.Rows.{
  mem-image, sync_one-mem, sync_each-mem, differs_from_listed, revoke_unlisted-mem,
}

-- A row of the owner that is an active root key, under one of the ids.
pub record HasRoot (owner : Owner) (id : Text) (table : List KeyRow) : Type 0 where
  pub row : KeyRow
  pub listed : Memᴰ row table
  pub key : row.key_id ≡ id
  pub own : is_of owner row ≡ true
  pub root : row.role ≡ root
  pub active : row.status ≡ active

root_of : (r : Role) → is_root r ≡ true → r ≡ root
root_of root h = refl
root_of delegate h = absurd (cc h)

active_of : (s : KeyStatus) → is_active s ≡ true → s ≡ active
active_of active h = refl
active_of revoked h = absurd (cc h)

same_role-eq : (a b : Role) → same_role a b ≡ true → a ≡ b
same_role-eq a b h = ground arith

same_kind_refl : (kind : OwnerKind) → same_kind kind kind ≡ true
same_kind_refl company = refl
same_kind_refl module_key = refl

new_key-own : (owner : Owner) (k : ListedKey) → is_of owner (new_key owner k) ≡ true
unfolding is_of
new_key-own owner k = rw (same_kind_refl owner.kind, ===_refl owner.id) refl

set_role-own :
    (owner : Owner) (id : Text) (role : Role) (r : KeyRow)
    → is_of owner (set_role id role r) ≡ is_of owner r
unfolding is_of
set_role-own owner id role r = elim (Bool-cases (r.key_id === id)) [
  | inl same ↦ rw same refl
  | inr other ↦ rw other refl
]

-- The turn for a listed active root key of which the owner has an active row.
sync_role-HasRoot :
    (owner : Owner) (table : List KeyRow) (k : ListedKey) (c : KeyRow)
    → k.role ≡ root
    → c.status ≡ active
    → c.key_id ≡ k.key_id
    → is_of owner c ≡ true
    → Memᴰ c table
    → HasRoot owner k.key_id (sync_role table c.role k)
unfolding sync_role
sync_role-HasRoot owner table k c is_root_key live key own m =
    elim (Bool-cases (same_role c.role k.role)) [
      | inl same ↦ rw same record {
        row = c;
        listed = m;
        key = key;
        own = own;
        root = same_role-eq c.role k.role same ∙ is_root_key;
        active = live;
      }
      | inr differs ↦
          let hit = (===_iff c.key_id k.key_id).1 key in
          rw differs record {
            row = set_role k.key_id k.role c;
            listed = mem-image (set_role k.key_id k.role) c table m;
            key = rw hit key;
            own = set_role-own owner k.key_id k.role c ∙ own;
            root = rw hit is_root_key;
            active = rw hit live;
          }
    ]

-- A row stays active when an active key is listed.
sync_status-active :
    (table out : List KeyRow) (status : KeyStatus) (k : ListedKey)
    → k.status ≡ active
    → sync_status table status k ≡ ok out
    → (status ≡ active) × (table ≡ out)
unfolding sync_status
sync_status-active table out active k live h = let kept = rw live at h in (refl, ok-injective kept)
sync_status-active table out revoked k live h = let refused = rw live at h in absurd (cc refused)

-- The turn for a listed active root key: its row was there and stays active, or it is new.
sync_one-HasRoot :
    (owner : Owner) (cur : Option KeyRow) (table out : List KeyRow) (k : ListedKey)
    → sync_one owner cur table k ≡ ok out
    → k.role ≡ root
    → k.status ≡ active
    → ((c : KeyRow) → cur ≡ some c → Memᴰ c table × (is_of owner c ≡ true) × (c.key_id ≡ k.key_id))
    → HasRoot owner k.key_id out
unfolding sync_one
sync_one-HasRoot owner none table out k h is_root_key live known =
    refuse-elim (is_some (find_key table k.key_id)) forbidden _ h λ _ added.
      subst (HasRoot owner k.key_id) (ok-injective added) record {
        row = new_key owner k;
        listed = head refl;
        key = refl;
        own = new_key-own owner k;
        root = is_root_key;
        active = live;
      }
sync_one-HasRoot owner (some c) table out k h is_root_key live known =
    let (m, own, key) = known c refl in
    >>=-elim (sync_status table c.status k) _ h λ rows updated h1.
      let (alive, same) = sync_status-active table rows c.status k live updated in
      subst (HasRoot owner k.key_id) (ok-injective h1)
        (sync_role-HasRoot owner rows k c is_root_key alive key own (subst (Memᴰ c) same m))

-- What the search in the owner's rows finds.
find_key-mem :
    (rows : List KeyRow) (id : Text) (c : KeyRow)
    → find_key rows id ≡ some c
    → Memᴰ c rows × (c.key_id ≡ id)
unfolding find_key
find_key-mem [] id c h = absurd (cc h)
find_key-mem (r ∷ rows) id c h = elim (Bool-cases (r.key_id === id)) [
  | inl here ↦
      let shown = rw here at h in
      let same : r ≡ c = cc shown in
      (head (sym same), ap (λ x. x.key_id) (sym same) ∙ (===_iff r.key_id id).0 here)
  | inr there ↦
      let shown = rw there at h in let (m, key) = find_key-mem rows id c shown in (tail m, key)
]

-- The owner's rows are rows of the table.
keep-mem :
    (owner : Owner) (table : List KeyRow) (c : KeyRow)
    → Memᴰ c (keep (is_of owner) table)
    → Memᴰ c table × (is_of owner c ≡ true)
keep-mem owner [] c m = elim m [ ]
keep-mem owner (r ∷ table) c m = elim (Bool-cases (is_of owner r)) [
  | inl own ↦
      let here = rw (own, keep) at m in
      elim here [
        | head e ↦ (head e, ap (is_of owner) e ∙ own)
        | tail n ↦ let (there, mine) = keep-mem owner table c n in (tail there, mine)
      ]
  | inr other ↦
      let later = rw (other, keep) at m in
      let (there, mine) = keep-mem owner table c later in (tail there, mine)
]

-- The ids after the first one's differ from it, where the ids are distinct.
distinct-first :
    (k : ListedKey) (ks : List ListedKey)
    → distinct (ids (k ∷ ks)) ≡ true
    → (includes (ids ks) k.key_id ≡ false) × (distinct (ids ks) ≡ true)
unfolding distinct
distinct-first k ks h = ground (arith, h)

listed_first :
    (k : ListedKey) (ks : List ListedKey) (id : Text)
    → id ≡ k.key_id
    → includes (ids (k ∷ ks)) id ≡ true
unfolding includes
listed_first k ks id same = let hit = (===_iff k.key_id id).1 (sym same) in rw hit refl

listed_later :
    (k : ListedKey) (ks : List ListedKey) (id : Text)
    → includes (ids ks) id ≡ true
    → includes (ids (k ∷ ks)) id ≡ true
unfolding includes
listed_later k ks id h = ground (arith, h)

any_rest :
    (p : ListedKey → Bool) (k : ListedKey) (ks : List ListedKey)
    → p k ≡ false
    → any p (k ∷ ks) ≡ true
    → any p ks ≡ true
any_rest p k ks h found = ground (arith, h, found)

-- The row that a turn is handed is the owner's, and in the table as long as its key has had no turn.
sync_each-HasRoot :
    (owner : Owner) (existing table out : List KeyRow) (ks : List ListedKey)
    → any is_active_root ks ≡ true
    → distinct (ids ks) ≡ true
    → ((c : KeyRow)
        → Memᴰ c existing
        → includes (ids ks) c.key_id ≡ true
        → Memᴰ c table × (is_of owner c ≡ true))
    → sync_each owner existing table ks ≡ ok out
    → (id : Text) × (includes (ids ks) id ≡ true) × HasRoot owner id out
unfolding sync_each includes
sync_each-HasRoot owner existing table out [] some_root apart known h = absurd (cc some_root)
sync_each-HasRoot owner existing table out (k ∷ ks) some_root apart known h =
    let (unique, apart_rest) = distinct-first k ks apart in
    >>=-elim (sync_one owner (find_key existing k.key_id) table k) _ h λ next turned rest.
      elim (Bool-cases (is_active_root k)) [
        | inl good ↦
            let (is_root_key, live) = and-true (is_root k.role) (is_active k.status) good in
            let made =
              sync_one-HasRoot owner (find_key existing k.key_id) table next k turned
                (root_of k.role is_root_key) (active_of k.status live)
                (λ c found.
                  let (m, key) = find_key-mem existing k.key_id c found in
                  let (there, own) = known c m (listed_first k ks c.key_id key) in
                  (there, own, key)) in
            (
              k.key_id,
              listed_first k ks k.key_id refl,
              record {
                row = made.row;
                listed =
                    sync_each-mem owner existing next out ks made.row rest
                      (ap (includes (ids ks)) made.key ∙ unique) made.listed;
                key = made.key;
                own = made.own;
                root = made.root;
                active = made.active;
              },
            )
        | inr other ↦
            let others = any_rest is_active_root k ks other some_root in
            let (id, there, has) =
              sync_each-HasRoot owner existing next out ks others apart_rest
                (λ c m in_rest.
                  let (here, own) = known c m (listed_later k ks c.key_id in_rest) in
                  (
                    sync_one-mem owner (find_key existing k.key_id) table next k c turned
                        (differs_from_listed (ids ks) c.key_id k.key_id in_rest unique) here,
                    own,
                  ))
                rest in
            (id, listed_later k ks id there, has)
      ]

-- When the keys of an identity are brought in line with a list of distinct keys, some key of the
-- list is, in the table after, an active root key of that identity.
pub sync_keys-HasRoot :
    (table out : List KeyRow) (owner : Owner) (keys : List ListedKey)
    (previous : Option (List ListedKey)) (signer_is_root : Bool) (tokens : List Text)
    → distinct (ids keys) ≡ true
    → sync_keys table owner keys previous signer_is_root ≡ ok (out, tokens)
    → (id : Text) × (includes (ids keys) id ≡ true) × HasRoot owner id out
unfolding sync_keys
sync_keys-HasRoot table out owner keys previous signer_is_root tokens apart h =
    demand-elim (any is_active_root keys) forbidden _ h λ some_root h1.
      refuse-elim (changed previous keys && not signer_is_root) forbidden _ h1 λ _ h2.
        >>=-elim (sync_each owner (keep (is_of owner) table) table keys) _ h2 λ synced turned h3.
          let (id, there, has) =
            sync_each-HasRoot owner (keep (is_of owner) table) table synced keys some_root apart
              (λ c m _. keep-mem owner table c m) turned in
          let ended = ap (λ x. x.0) (ok-injective h3) in
          (
            id,
            there,
            record {
              row = has.row;
              listed = subst (Memᴰ has.row) ended (
                  revoke_unlisted-mem (ids keys) (keep (is_of owner) table) synced has.row
                    (ap (includes (ids keys)) has.key ∙ there) has.listed);
              key = has.key;
              own = has.own;
              root = has.root;
              active = has.active;
            },
          )
