-- ===== src/Profiles/Party/Versions.antt =====
-- checkPartyContinuity of sdk/src/profiles/party.ts, on bodies that have passed validateParty: the
-- members that it reads.
use direct_trade_protocol.Prelude.{
  ℕ, ◌≡◌, refl, sym, ap, ◌∙◌, Bool, true, false, not, Option, none, some, [], ◌∷◌, Text, codes,
  ◌===◌, ===_iff, ok, ◌>>=◌, >>=-elim, ok-injective, ◌≢◌, arith, ◌⊎◌, inl, inr,
}
use direct_trade_protocol.Canonical.{
  Json, Members, canonicalize, serialize, join, sorted_parts, null, str, obj, end, member,
}
use direct_trade_protocol.Profiles.Issues.{
  Checked, canonical-ok, pass, fail_if, ◌&◌, &_elim, fail_unless-pass, canonical,
}

pub data PartyKind : Type 0 where
  organization person unit : PartyKind

-- `protocol_identity` is the organization's id.
pub record PartyBody : Type 0 where
  pub kind : PartyKind
  pub protocol_identity : Option Text
  pub parent : Option Text

abbrev pub same_kind : PartyKind → PartyKind → Bool
same_kind organization organization = true
same_kind person person = true
same_kind unit unit = true
same_kind _ _ = false

abbrev pub same_parent : Option Text → Option Text → Bool
same_parent none none = true
same_parent (some a) (some b) = a === b
same_parent _ _ = false

abbrev pub identity_json : Option Text → Json
identity_json none = null
identity_json (some id) = obj (member (codes "organization_id") (str id) end)

unfoldable pub check_identity : Option Text → Option Text → Checked
check_identity none next = pass
check_identity (some id) next = do
  a ← canonical (identity_json (some id))
  b ← canonical (identity_json next)
  fail_if (not (a === b)) (codes "$.protocol_identity")
      "a protocol identity claim, once made, cannot be changed or withdrawn; a different identity is a new party"

unfoldable pub check_party_continuity : PartyBody → PartyBody → Checked
unfolding check_identity
check_party_continuity previous next =
    fail_if (not (same_kind previous.kind next.kind)) (codes "$.kind")
      "kind is immutable; a different kind of party is a new party"
    & check_identity previous.protocol_identity next.protocol_identity
    & fail_if (not (same_parent previous.parent next.parent)) (codes "$.parent")
        "the parent party is immutable"

same_kind-eq : (k l : PartyKind) → same_kind k l ≡ true → k ≡ l
same_kind-eq k l h = ground arith

same_parent-eq : (p q : Option Text) → same_parent p q ≡ true → p ≡ q
same_parent-eq none none h = refl
same_parent-eq (some a) (some b) h = ap some ((===_iff a b).0 h)
same_parent-eq none (some b) h = absurd (cc h)
same_parent-eq (some a) none h = absurd (cc h)

-- What a party keeps of an earlier version.
pub record Kept (old new : PartyBody) : Type 0 where
  pub kind : old.kind ≡ new.kind
  pub parent : old.parent ≡ new.parent
  pub identity :
      (old.protocol_identity ≡ none)
      ⊎ (canonical (identity_json old.protocol_identity)
          ≡ canonical (identity_json new.protocol_identity))

check_identity-Same :
    (old new : Option Text)
    → check_identity old new ≡ pass
    → (old ≡ none) ⊎ (canonical (identity_json old) ≡ canonical (identity_json new))
unfolding check_identity
check_identity-Same none new h = inl refl
check_identity-Same (some id) new h =
    >>=-elim (canonical (identity_json (some id))) _ h λ a read h1.
      >>=-elim (canonical (identity_json new)) _ h1 λ b written h2.
        inr (read ∙ ap ok ((===_iff a b).0 (fail_unless-pass _ _ _ h2)) ∙ sym written)

continuity-Kept : (old new : PartyBody) → check_party_continuity old new ≡ pass → Kept old new
unfolding check_party_continuity
continuity-Kept old new h = &_elim _ _ h λ kind h1. &_elim _ _ h1 λ identity parent. record {
  kind = same_kind-eq old.kind new.kind (fail_unless-pass _ _ _ kind);
  parent = same_parent-eq old.parent new.parent (fail_unless-pass _ _ _ parent);
  identity = check_identity-Same old.protocol_identity new.protocol_identity identity;
}

-- Parties that accepted versions lead to, one after the other.
pub data Versions : PartyBody → PartyBody → Type 0 where
  unchanged : {a : PartyBody} → Versions a a
  superseded : {a b c : PartyBody} → Versions a b → check_party_continuity b c ≡ pass → Versions a c

abbrev first_unit : Text → ℕ
first_unit [] = 0
first_unit (c ∷ s) = c

-- The canonical text of an object is not that of null.
object-not-null : (ms : Members) → canonicalize (obj ms) ≢ ok (codes "null")
unfolding canonicalize serialize
object-not-null ms h =
    >>=-elim (join (sorted_parts ms)) _ h
      λ t _ whole. omega (arith, ap first_unit (ok-injective whole))

canonical_null : canonical null ≡ ok (codes "null")
unfolding canonical canonicalize
canonical_null = refl

no_identity :
    (i j : Option Text)
    → canonical (identity_json i) ≡ canonical (identity_json j)
    → j ≡ none
    → i ≡ none
no_identity none j same gone = refl
no_identity (some id) j same gone = absurd (
    object-not-null (member (codes "organization_id") (str id) end) (
      canonical-ok (identity_json (some id)) (codes "null")
        (same ∙ ap (λ o. canonical (identity_json o)) gone ∙ canonical_null)))

-- Along every chain of versions in which the continuity check finds no issue, the kind and the
-- parent of a party stay, and a protocol identity, once there, keeps its canonical text.
pub Versions-Kept : {a b : PartyBody} → Versions a b → Kept a b
Versions-Kept (unchanged {a}) = record { kind = refl; parent = refl; identity = inr refl }
Versions-Kept (superseded {a} {b} {c} chain h) =
    let first = Versions-Kept chain in
    let last = continuity-Kept b c h in
    record {
      kind = first.kind ∙ last.kind;
      parent = first.parent ∙ last.parent;
      identity = elim first.identity [
        | inl none_yet ↦ inl none_yet
        | inr same ↦ elim last.identity [
          | inl gone ↦ inl (no_identity a.protocol_identity b.protocol_identity same gone)
          | inr later ↦ inr (same ∙ later)
        ]
      ];
    }
