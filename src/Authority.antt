-- ===== src/Authority.antt =====
-- sdk/src/v04/model.ts, sdk/src/v04/permissions.ts and `instant` of sdk/src/v04/wire.ts: who may read,
-- write or export what a policy guards. Records keep the members that these functions read; an error
-- keeps its code. Identities are UUIDs, so none is a name of Object.prototype.
pub mod Access
pub mod Terms
pub mod Grounds
pub mod Charter
mod Tests
use direct_trade_protocol.Prelude.{
  ℕ, Bool, true, false, not, ◌&&◌, ◌||◌, Option, none, some, List, [], ◌∷◌, Text, codes, ◌===◌,
  includes, any, Result, ok, err, ◌>>=◌, ◌>>◌, demand, if◌then◌else◌, is_some,
}
use direct_trade_protocol.Prelude.Int.{ℤ, ltb_ℤ}
use direct_trade_protocol.Prelude.Assoc.{Assoc, lookup, has}
use direct_trade_protocol.Inventory.{template}
use direct_trade_protocol.Scopes.{truthy}

pub data DtpError : Type 0 where
  invalid forbidden approval_required type_error : DtpError

pub data DataAction : Type 0 where
  read write export : DataAction

abbrev pub same_action : DataAction → DataAction → Bool
same_action read read = true
same_action write write = true
same_action export export = true
same_action _ _ = false

pub data Actor : Type 0 where
  person installation : (id : Text) → Actor

-- `payload_person` is `payload.person_id`.
pub record Command : Type 0 where
  pub actor : Actor
  pub requested_by : Option Text
  pub action : Text
  pub payload_person : Option Text
  pub issued_at : Text

pub record Membership : Type 0 where
  pub permissions : List Text
  pub expires_at : Text
  pub active : Bool

pub record Installation : Type 0 where
  pub policy_ids : List Text
  pub actions : List DataAction
  pub sponsor_id : Text
  pub expires_at : Text
  pub active : Bool

-- `active` says that the status is not migrated.
pub record Organization : Type 0 where
  pub id : Text
  pub controllers : List Text
  pub active : Bool
  pub members : Assoc Membership
  pub installations : Assoc Installation
  pub history : List Command

-- `resource_ids` is `none` for the star.
pub record Grant : Type 0 where
  pub person_id : Text
  pub actions : List DataAction
  pub resource_ids : Option (List Text)
  pub expires_at : Text

pub record Policy : Type 0 where
  pub id : Text
  pub organization_id : Text
  pub grants : List Grant
  pub history : List Command

pub record Person : Type 0 where
  pub keys : List Text

pub record State : Type 0 where
  pub persons : Assoc Person

-- `/^\d{4}-\d\d-\d\dT\d\d:\d\d:\d\d\.\d{3}Z$/`
abbrev pub is_empty : Option Text → Bool
is_empty (some []) = true
is_empty _ = false

unfoldable pub instant_shape : Text → Bool
unfolding template
instant_shape s = is_empty (template (codes "dddd-dd-ddTdd:dd:dd.dddZ") s)

-- `id` is the value of a key that is there.
unfoldable pub revokes : Command → Text → Bool
revokes c id =
    c.action === codes "membership.revoke"
    && elim c.payload_person [ none ↦ false | some p ↦ p === id ]

-- `Math.max(at, t)`, where `none` is -Infinity.
abbrev pub later : Option ℤ → ℤ → ℤ
later none t = t
later (some at) t = if ltb_ℤ at t then t else at

-- `t > at`
abbrev pub is_after : ℤ → Option ℤ → Bool
is_after t none = true
is_after t (some at) = ltb_ℤ at t

unfoldable pub last_issued : List Command → Result DtpError Text
last_issued [] = err type_error
last_issued (c ∷ []) = ok c.issued_at
last_issued (c ∷ d ∷ cs) = last_issued (d ∷ cs)

abbrev pub in_resources : Option (List Text) → Text → Bool
in_resources none resource = true
in_resources (some ids) resource = includes ids resource

unfoldable pub acting_human : Command → Organization → Option Text
acting_human c org = elim c.actor [
  | person id ↦ some id
  | installation id ↦ elim c.requested_by [
    | some human ↦ some human
    | none ↦ elim (lookup id org.installations) [ none ↦ none | some i ↦ some i.sponsor_id ]
  ]
]

-- `epoch` is `Date.parse(text)` where that is finite and its `toISOString()` is the text again.
module _ (epoch : Text → Option ℤ) where
  unfoldable pub instant : Text → Result DtpError ℤ
  unfolding instant_shape
  instant s = do
    demand (instant_shape s) invalid
    elim (epoch s) [ none ↦ err invalid | some t ↦ ok t ]

  unfoldable pub member_live : Option Membership → ℤ → Result DtpError Bool
  unfolding instant
  member_live none now = ok false
  member_live (some m) now =
      if m.active then (do t ← instant m.expires_at; ok (ltb_ℤ now t)) else ok false

  unfoldable pub active_member : State → Organization → Text → ℤ → Result DtpError Bool
  unfolding member_live
  active_member s org id now =
      if not (has id s.persons)
      then ok false
      else if includes org.controllers id
      then ok true
      else member_live (lookup id org.members) now

  unfoldable pub seen_revocation : Option ℤ → Command → Text → Result DtpError (Option ℤ)
  unfolding revokes instant
  seen_revocation at c id =
      if revokes c id then (do t ← instant c.issued_at; ok (some (later at t))) else ok at

  -- The loop over the company's history.
  unfoldable pub revoked_from : Option ℤ → List Command → Text → Result DtpError (Option ℤ)
  unfolding seen_revocation
  revoked_from at [] id = ok at
  revoked_from at (c ∷ cs) id = do next ← seen_revocation at c id; revoked_from next cs id

  unfoldable pub revoked_at : Organization → Text → Result DtpError (Option ℤ)
  unfolding revoked_from
  revoked_at org id = revoked_from none org.history id

  unfoldable pub grant_current : Organization → Policy → Text → Result DtpError Bool
  unfolding revoked_at last_issued
  grant_current org policy id = do
    issued ← last_issued policy.history
    t ← instant issued
    at ← revoked_at org id
    ok (is_after t at)

  unfoldable pub grant_live : Grant → Text → Text → DataAction → ℤ → Result DtpError Bool
  unfolding instant
  grant_live g id resource action now =
      if g.person_id === id && any (same_action action) g.actions
      then (do t ← instant g.expires_at; ok (ltb_ℤ now t && in_resources g.resource_ids resource))
      else ok false

  -- `policy.grants.some(...)`
  unfoldable pub some_grant : List Grant → Text → Text → DataAction → ℤ → Result DtpError Bool
  unfolding grant_live
  some_grant [] id resource action now = ok false
  some_grant (g ∷ gs) id resource action now = do
    here ← grant_live g id resource action now
    let rest = some_grant gs id resource action now
    if here then ok true else rest

  unfoldable pub person_granted :
      State → Organization → Policy → Text → DataAction → Text → ℤ → Result DtpError Bool
  unfolding active_member grant_current some_grant
  person_granted s org policy resource action id now = do
    member ← active_member s org id now
    if not member then ok false else (do
      current ← grant_current org policy id
      if current then some_grant policy.grants id resource action now else ok false)

  unfoldable pub human_granted :
      State → Organization → Policy → Text → DataAction → Option Text → ℤ → Result DtpError Bool
  unfolding person_granted
  human_granted s org policy resource action none now = ok false
  human_granted s org policy resource action (some id) now =
      person_granted s org policy resource action id now

  unfoldable pub installation_allows :
      Option Installation → Policy → DataAction → ℤ → Result DtpError Bool
  unfolding instant
  installation_allows none policy action now = ok false
  installation_allows (some i) policy action now = if not i.active then ok false else (do
    t ← instant i.expires_at
    ok (ltb_ℤ now t && includes i.policy_ids policy.id && any (same_action action) i.actions))

  unfoldable pub actor_allows :
      Organization → Policy → DataAction → Actor → ℤ → Result DtpError Bool
  unfolding installation_allows
  actor_allows org policy action (person id) now = ok true
  actor_allows org policy action (installation id) now =
      installation_allows (lookup id org.installations) policy action now

  unfoldable pub data_allowed :
      State → Organization → Policy → Text → DataAction → Command → ℤ → Result DtpError Bool
  unfolding actor_allows human_granted acting_human
  data_allowed s org policy resource action c now =
      if not (policy.organization_id === org.id && org.active) then ok false else (do
        allowed ← actor_allows org policy action c.actor now
        if allowed
            then human_granted s org policy resource action (truthy (acting_human c org)) now
            else ok false)
