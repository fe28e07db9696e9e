-- ===== src/Core/Realtime.antt =====
-- Realtime hints (core/realtime): the channels of an audience, the envelope and its rules, and the
-- publisher, which never raises.
pub mod Published
use allocation_key_simulatio.Base.{
  ℕ, zero, suc, Text, codes, show, contains, List, [], ◌∷◌, ◌++◌, map, Option, none, some, Bool,
  true, false, not, ◌&&◌, ◌||◌, ◌==◌, leb, is_empty, any, all, if◌then◌else◌,
}
use allocation_key_simulatio.Worker.Json.{
  Json, null, bool, integer, negative, decimal, text, array, object, Fields, end, field,
}

pub data Tier : Type 0 where
  member manager : Tier

abbrev pub tier_value : Tier → Text
tier_value Tier.member = codes "MEMBER"
tier_value Tier.manager = codes "MANAGER"

abbrev pub channel_prefix : Text
channel_prefix = codes "notify:v1"

unfoldable pub user_channel : ℕ → Text
user_channel internal_user_id = channel_prefix ++ codes ":u:" ++ show internal_user_id

unfoldable pub community_channel : ℕ → Tier → Text
community_channel internal_community_id tier =
    channel_prefix ++ codes ":c:" ++ show internal_community_id ++ codes ":" ++ tier_value tier

pub data Audience : Type 0 where
  user_audience : ℕ → Audience
  users_audience : List ℕ → Audience
  community_audience : ℕ → Tier → Audience

abbrev pub is_member : ℕ → List ℕ → Bool
is_member n ids = any (λ m. m == n) ids

-- `dict.fromkeys(ids)`: the first of each, in order; `seen` are the ones taken.
unfoldable pub from_keys : List ℕ → List ℕ → List ℕ
from_keys seen [] = []
from_keys seen (n ∷ ids) =
    let rest = from_keys (if is_member n seen then seen else n ∷ seen) ids in
    if is_member n seen then rest else n ∷ rest

-- `audience.channels()`
unfoldable pub channels : Audience → List Text
unfolding user_channel community_channel from_keys
channels (user_audience user_id) = user_channel user_id ∷ []
channels (users_audience user_ids) = map user_channel (from_keys [] user_ids)
channels (community_audience community_id tier) = community_channel community_id tier ∷ []

abbrev pub max_envelope_bytes : ℕ
max_envelope_bytes = 1024

abbrev pub topics : List Text
topics =
    codes "notification.created"
    ∷ codes "generation.finished"
    ∷ codes "simulation.finished"
    ∷ codes "billing_run.finished"
    ∷ codes "session.revoked"
    ∷ []

-- `_is_scalar`
unfoldable pub is_scalar : Json → Bool
is_scalar null = true
is_scalar (bool b) = true
is_scalar (integer n) = true
is_scalar (negative n) = true
is_scalar (decimal t) = true
is_scalar (text t) = true
is_scalar (array items) = false
is_scalar (object fields) = false

unfoldable pub all_scalar : Fields → Bool
unfolding is_scalar
all_scalar end = true
all_scalar (field k v fields) = is_scalar v && all_scalar fields

-- What a hint is made of: its topic, what it is about, the flat data and the scope.
pub record HintInput : Type 0 where
  pub topic : Text
  pub kind : Text
  pub ref_id : Option Text
  pub hint : Fields
  pub scope_community_id : Json

abbrev pub text_field : Text → Text → Fields → Fields
text_field name value rest = field name (text value) rest

unfoldable pub envelope : HintInput → Text → Text → Text → Json
envelope h ref_id token now = object (
    field (codes "v") (integer 1) (
      text_field (codes "id") token (
        text_field (codes "topic") h.topic (
          text_field (codes "at") now (
            field (codes "scope") (object (field (codes "community_id") h.scope_community_id end)) (
              field (codes "ref")
                (object (text_field (codes "kind") h.kind (text_field (codes "id") ref_id end)))
                (field (codes "hint") (object h.hint) end)))))))

-- `json.dumps(…)` and its length in bytes; the token and the time.
pub record Envelopes : Type 0 where
  pub byte_length : Json → ℕ
  pub token_hex : Text
  pub now : Text

module _ (made : Envelopes) where
  abbrev pub small : Json → Option Json
  small e = if leb (made.byte_length e) max_envelope_bytes then some e else none

  abbrev pub with_ref : HintInput → Option Text → Option Json
  with_ref h none = none
  with_ref h (some ref_id) =
      if all_scalar h.hint then small (envelope h ref_id made.token_hex made.now) else none

  unfoldable pub build_envelope : HintInput → Option Json
  unfolding all_scalar
  build_envelope h =
      if not (contains h.topic topics)
      then none
      else if is_empty h.kind
      then none
      else with_ref h h.ref_id

  -- The publishes of the loop: the first that raises, or the timeout, ends it. The number counts
  -- the channels before.
  unfoldable pub publish_all : (ℕ → Bool) → ℕ → List Text → Json → List (Text × Json)
  publish_all fails n [] body = []
  publish_all fails n (channel ∷ rest) body =
      let more = publish_all fails (suc n) rest body in
      if fails n then [] else (channel, body) ∷ more

  abbrev pub publish_envelope : (ℕ → Bool) → List Text → Option Json → List (Text × Json)
  publish_envelope fails to none = []
  publish_envelope fails to (some body) = publish_all fails zero to body

  -- `emit`: what reaches the broker.
  unfoldable pub emit :
      (enabled : Bool) (redis_url : Text) → (ℕ → Bool) → Audience → HintInput → List (Text × Json)
  unfolding build_envelope publish_all
  emit enabled redis_url fails audience h =
      if not enabled || is_empty redis_url
      then []
      else publish_envelope fails (channels audience) (build_envelope h)
