-- ===== src/Profiles/Object/Found.antt =====
-- What a chain of accepted revisions of an object keeps, and what finding a retired one takes.
use mathlib.Core.List.{Memᴰ}
use mathlib.Core.List.Memᴰ.{head, tail}
use direct_trade_protocol.Prelude.{
  ◌≡◌, refl, sym, ap, ◌∙◌, List, [], ◌∷◌, All, ===_iff, ok, >>=-elim,
}
use direct_trade_protocol.Profiles.Issues.{pass, &_elim, fail_if-pass, fail_unless-pass}
use direct_trade_protocol.Profiles.Identifiers.{Identifier, key_of, keys, lacks_some}
use direct_trade_protocol.Profiles.Identifiers.Kept.{
  keys-HasKey, lacks_some-includes, lacks_some-keyed,
}
use direct_trade_protocol.Profiles.Object.{ObjectBody, check_object_continuity}

-- Objects that accepted revisions lead to, one after the other.
pub data Revised : ObjectBody → ObjectBody → Type 0 where
  unrevised : {a : ObjectBody} → Revised a a
  revised : {a b c : ObjectBody} → Revised a b → check_object_continuity b c ≡ pass → Revised a c

continuity-class :
    (old new : ObjectBody)
    → check_object_continuity old new ≡ pass
    → old.class_name ≡ new.class_name
unfolding check_object_continuity
continuity-class old new h =
    &_elim _ _ h λ same _. (===_iff old.class_name new.class_name).0 (fail_unless-pass _ _ _ same)

-- The list has an identifier with the key of this one, or with the same error in its place.
abbrev pub HasSame : List Identifier → Identifier → Type 0
HasSame ids id = (same : Identifier) × Memᴰ same ids × (key_of id ≡ key_of same)

continuity-HasSame :
    (old new : ObjectBody) (id : Identifier)
    → check_object_continuity old new ≡ pass
    → Memᴰ id old.identifiers
    → HasSame new.identifiers id
unfolding check_object_continuity
continuity-HasSame old new id h place = &_elim _ _ h λ _ h1. &_elim _ _ h1 λ kept_all _.
    >>=-elim (keys new.identifiers) _ kept_all λ kept read h2.
      >>=-elim (lacks_some kept old.identifiers) _ h2 λ lost looked h3.
        let none_lost = looked ∙ ap ok (fail_if-pass lost _ _ h3) in
        let (key, made) = lacks_some-keyed kept old.identifiers id none_lost place in
        let (same, there, has) =
          keys-HasKey new.identifiers kept key read
            (lacks_some-includes kept old.identifiers id key none_lost place made) in
        (same, there, made ∙ sym has)

HasSame-Later :
    (old new : ObjectBody) (ids : List Identifier)
    → check_object_continuity old new ≡ pass
    → All (HasSame old.identifiers) ids
    → All (HasSame new.identifiers) ids
HasSame-Later old new [] h has = tt
HasSame-Later old new (id ∷ ids) h ((same, place, key), rest) =
    let (later, there, as_later) = continuity-HasSame old new same h place in
    ((later, there, key ∙ as_later), HasSame-Later old new ids h rest)

within :
    (ids more : List Identifier)
    → All (HasSame more) ids
    → (id : Identifier) → All (HasSame (id ∷ more)) ids
within [] more has id = tt
within (i ∷ ids) more ((same, place, key), rest) id =
    ((same, tail place, key), within ids more rest id)

own : (ids : List Identifier) → All (HasSame ids) ids
own [] = tt
own (id ∷ ids) = ((id, head refl, refl), within ids ids (own ids) id)

-- Along every chain of revisions in which the continuity check finds no issue, the class of an
-- object stays, and each identifier that it has had is there in every later version, by its
-- canonical text.
pub Revised-HasSame :
    {a b : ObjectBody}
    → Revised a b
    → (a.class_name ≡ b.class_name) × All (HasSame b.identifiers) a.identifiers
Revised-HasSame (unrevised {a}) = (refl, own a.identifiers)
Revised-HasSame (revised {a} {b} {c} chain h) =
    let (same, there) = Revised-HasSame chain in
    (same ∙ continuity-class b c h, HasSame-Later b c a.identifiers h there)
