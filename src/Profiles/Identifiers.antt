-- ===== src/Profiles/Identifiers.antt =====
-- The loop over external identifiers, a scheme and a value each, that the order, party and object
-- profiles repeat.
pub mod Distinct
pub mod Kept
use direct_trade_protocol.Prelude.{
  ℕ, suc, Bool, true, false, not, ◌&&◌, List, [], ◌∷◌, ◌++◌, Text, codes, String, Result, ok, ◌>>=◌,
  includes, Option, none, some,
}
use direct_trade_protocol.Canonical.{Json, str, Items, nil, item, Members}
use direct_trade_protocol.Store.Transitions.{get}
use direct_trade_protocol.Profiles.Issues.{
  ProfileError, Checked, pass, fail, fail_if, ◌&◌, canonical_pair, at, dot,
}
use direct_trade_protocol.Profiles.Shapes.{exact_object, text, scheme_ok}

-- An identifier of its declared type.
abbrev pub Identifier : Type 0
Identifier = Text × Text

-- `canonicalize([id.scheme, id.value])`
unfoldable pub key_of : Identifier → Result ProfileError Text
key_of (scheme, value) = canonical_pair (str scheme) (str value)

-- `ids.map(id => key(id))`
unfoldable pub keys : List Identifier → Result ProfileError (List Text)
unfolding key_of
keys [] = ok []
keys (id ∷ ids) = do k ← key_of id; ks ← keys ids; ok (k ∷ ks)

-- `ids.some(id => !kept.has(key(id)))`, which stops at the first one
unfoldable pub lacks_some : List Text → List Identifier → Result ProfileError Bool
unfolding key_of
lacks_some kept [] = ok false
lacks_some kept (id ∷ ids) = do
  k ← key_of id
  elim (includes kept k) [ true ↦ lacks_some kept ids | false ↦ ok true ]

abbrev pub scheme_of : Members → Json
scheme_of id = get id (codes "scheme")

abbrev pub value_of : Members → Json
value_of id = get id (codes "value")

unfoldable pub identifier : Json → Option Members
identifier v = exact_object v (codes "scheme" ∷ codes "value" ∷ [])

-- `own` is the rest of one turn, after the test for duplicates; `seen` holds the keys of the turns
-- before.
module _ (scheme_message : String) (own : Members → Text → Checked) where
  unfoldable pub check_identifiers : List Text → Text → ℕ → Items → Checked
  check_identifiers seen path i nil = pass
  check_identifiers seen path i (item v vs) = elim (identifier v) [
    | none ↦ fail (at path i) "scheme and value required" & check_identifiers seen path (suc i) vs
    | some id ↦
        fail_if (not (scheme_ok (scheme_of id))) (dot (at path i) "scheme") scheme_message
        & fail_if (not (text (value_of id) 128)) (dot (at path i) "value")
            "bounded nonempty value required"
        & (do
          key ← canonical_pair (scheme_of id) (value_of id)
          fail_if (includes seen key) (at path i) "duplicate identifier"
              & own id (at path i)
              & check_identifiers (key ∷ seen) path (suc i) vs)
  ]
