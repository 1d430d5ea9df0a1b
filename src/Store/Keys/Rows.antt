-- ===== src/Store/Keys/Rows.antt =====
-- Which rows of the table of keys stay through the turns of syncKeys.
use mathlib.Core.List.{Memᴰ}
use mathlib.Core.List.Memᴰ.{head, tail}
use mathlib.Core.Path.{subst}
use direct_trade_protocol.Prelude.{
  ◌≡◌, refl, sym, ap, ◌∙◌, true, false, Option, none, some, List, [], ◌∷◌, map, is_some, Text,
  ◌===◌, ===_iff, ===_sym, includes, ok, >>=-elim, ok-injective, refuse-elim, Bool-cases, inl, inr,
  arith,
}
use direct_trade_protocol.Store.Write.{forbidden}
use direct_trade_protocol.Store.Keys.{
  KeyRow, Owner, ListedKey, KeyStatus, active, revoked, Role, same_role, is_active, find_key,
  revoke, set_role, sync_status, sync_role, sync_one, sync_each, revoke_unlisted, ids,
}

-- A row stays in the table when an update leaves it as it is.
mem-map :
    (f : KeyRow → KeyRow) (r : KeyRow) (rs : List KeyRow) → Memᴰ r rs → f r ≡ r → Memᴰ r (map f rs)
mem-map f r [] m same = elim m [ ]
mem-map f r (q ∷ rs) m same = elim m [
  | head e ↦ head (sym same ∙ ap f e)
  | tail n ↦ tail (mem-map f r rs n same)
]

-- The image of a row is in the updated table.
pub mem-image :
    (f : KeyRow → KeyRow) (r : KeyRow) (rs : List KeyRow) → Memᴰ r rs → Memᴰ (f r) (map f rs)
mem-image f r [] m = elim m [ ]
mem-image f r (q ∷ rs) m = elim m [ head e ↦ head (ap f e) | tail n ↦ tail (mem-image f r rs n) ]

revoke-other : (id : Text) (r : KeyRow) → (r.key_id === id) ≡ false → revoke id r ≡ r
revoke-other id r other = rw other refl

set_role-other :
    (id : Text) (role : Role) (r : KeyRow) → (r.key_id === id) ≡ false → set_role id role r ≡ r
set_role-other id role r other = rw other refl

-- A turn for another key keeps a row.
sync_status-mem :
    (table out : List KeyRow) (status : KeyStatus) (k : ListedKey) (r : KeyRow)
    → sync_status table status k ≡ ok out
    → (r.key_id === k.key_id) ≡ false
    → Memᴰ r table
    → Memᴰ r out
unfolding sync_status
sync_status-mem table out active k r h other m = elim (Bool-cases (is_active k.status)) [
  | inl kept ↦ let same = rw kept at h in subst (Memᴰ r) (ok-injective same) m
  | inr ended ↦
      let updated = rw ended at h in
      subst (Memᴰ r) (ok-injective updated)
        (mem-map (revoke k.key_id) r table m (revoke-other k.key_id r other))
]
sync_status-mem table out revoked k r h other m = elim (Bool-cases (is_active k.status)) [
  | inl again ↦ let refused = rw again at h in absurd (cc refused)
  | inr still ↦ let same = rw still at h in subst (Memᴰ r) (ok-injective same) m
]

sync_role-mem :
    (table : List KeyRow) (role : Role) (k : ListedKey) (r : KeyRow)
    → (r.key_id === k.key_id) ≡ false
    → Memᴰ r table
    → Memᴰ r (sync_role table role k)
unfolding sync_role
sync_role-mem table role k r other m = elim (Bool-cases (same_role role k.role)) [
  | inl same ↦ rw same m
  | inr differs ↦
      rw differs
        (mem-map (set_role k.key_id k.role) r table m (set_role-other k.key_id k.role r other))
]

pub sync_one-mem :
    (owner : Owner) (cur : Option KeyRow) (table out : List KeyRow) (k : ListedKey) (r : KeyRow)
    → sync_one owner cur table k ≡ ok out
    → (r.key_id === k.key_id) ≡ false
    → Memᴰ r table
    → Memᴰ r out
unfolding sync_one
sync_one-mem owner none table out k r h other m =
    refuse-elim (is_some (find_key table k.key_id)) forbidden _ h
      λ _ added. subst (Memᴰ r) (ok-injective added) (tail m)
sync_one-mem owner (some cur) table out k r h other m =
    >>=-elim (sync_status table cur.status k) _ h λ rows updated h1.
      subst (Memᴰ r) (ok-injective h1) (
        sync_role-mem rows cur.role k r other
          (sync_status-mem table rows cur.status k r updated other m))

-- An id that no key has differs from the first one's, and none of the others has it.
not_listed :
    (k : ListedKey) (ks : List ListedKey) (id : Text)
    → includes (ids (k ∷ ks)) id ≡ false
    → ((id === k.key_id) ≡ false) × (includes (ids ks) id ≡ false)
unfolding includes
not_listed k ks id h = ground (arith, h, ===_sym id k.key_id)

pub sync_each-mem :
    (owner : Owner) (existing table out : List KeyRow) (ks : List ListedKey) (r : KeyRow)
    → sync_each owner existing table ks ≡ ok out
    → includes (ids ks) r.key_id ≡ false
    → Memᴰ r table
    → Memᴰ r out
unfolding sync_each
sync_each-mem owner existing table out [] r h other m = subst (Memᴰ r) (ok-injective h) m
sync_each-mem owner existing table out (k ∷ ks) r h other m =
    let (here, later) = not_listed k ks r.key_id other in
    >>=-elim (sync_one owner (find_key existing k.key_id) table k) _ h λ next turned rest.
      sync_each-mem owner existing next out ks r rest later
        (sync_one-mem owner (find_key existing k.key_id) table next k r turned here m)

pub differs_from_listed :
    (listed : List Text) (a b : Text)
    → includes listed a ≡ true
    → includes listed b ≡ false
    → (a === b) ≡ false
differs_from_listed listed a b h k = elim (Bool-cases (a === b)) [
  | inr other ↦ other
  | inl same ↦ let moved = ap (includes listed) ((===_iff a b).0 same) in absurd (cc (moved, h, k))
]

pub revoke_unlisted-mem :
    (listed : List Text) (rows table : List KeyRow) (r : KeyRow)
    → includes listed r.key_id ≡ true
    → Memᴰ r table
    → Memᴰ r (revoke_unlisted listed rows table)
unfolding revoke_unlisted
revoke_unlisted-mem listed [] table r h m = m
revoke_unlisted-mem listed (q ∷ rows) table r h m = elim (Bool-cases (includes listed q.key_id)) [
  | inl there ↦ rw there (revoke_unlisted-mem listed rows table r h m)
  | inr gone ↦ elim (Bool-cases (is_active q.status)) [
    | inr ended ↦ rw (gone, ended) (revoke_unlisted-mem listed rows table r h m)
    | inl live ↦
        rw (gone, live)
          (revoke_unlisted-mem listed rows (map (revoke q.key_id) table) r h (
            mem-map (revoke q.key_id) r table m
              (revoke-other q.key_id r (differs_from_listed listed r.key_id q.key_id h gone))))
  ]
]
