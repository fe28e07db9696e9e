-- ===== src/Core/Queue.antt =====
-- The durable consumer's settings and the event that a message carries (core/queue/helper.py).
pub mod Reconciled
pub mod RoundTrip
use allocation_key_simulatio.Base.{
  ℕ, suc, Text, codes, same_text, contains, List, [], ◌∷◌, map, keep, Option, none, some, Bool,
  true, false, not, is_empty, if◌then◌else◌, Result, ok, raised,
}
use allocation_key_simulatio.Worker.Json.{Json, text, integer, object, field, end, Event}

-- A setting's value, `none` for the default: two values are compared as their texts.
abbrev pub Value : Type 0
Value = Option Text

unfoldable pub same_value : Value → Value → Bool
same_value none none = true
same_value none (some t) = false
same_value (some s) none = false
same_value (some s) (some t) = same_text s t

-- A `ConsumerConfig`: the fields in their order, each by its name.
abbrev pub ConsumerConfig : Type 0
ConsumerConfig = List (Text × Value)

-- `getattr(config, name)`
unfoldable pub get_value : Text → ConsumerConfig → Value
get_value name [] = none
get_value name ((k, v) ∷ config) =
    let rest = get_value name config in if same_text k name then v else rest

abbrev pub reconciled_consumer_fields : List Text
reconciled_consumer_fields =
    codes "ack_wait" ∷ codes "max_deliver" ∷ codes "max_ack_pending" ∷ codes "backoff" ∷ []

-- What `_declared_consumer_fields` raises, and `ensure_consumer_config` from the broker.
pub data QueueError : Type 0 where
  value_error : QueueError
  runtime_error : QueueError
  broker_error : QueueError

-- The fields that differ from the defaults.
unfoldable pub set_fields : ConsumerConfig → ConsumerConfig → ConsumerConfig
set_fields defaults config = keep (λ f. not (same_value f.1 (get_value f.0 defaults))) config

abbrev pub is_reconciled : Text × Value → Bool
is_reconciled f = contains f.0 reconciled_consumer_fields

-- `_declared_consumer_fields`
unfoldable pub declared_consumer_fields :
    ConsumerConfig → ConsumerConfig → Result QueueError ConsumerConfig
unfolding set_fields
declared_consumer_fields defaults config =
    let declared = set_fields defaults config in
    if is_empty (keep (λ f. not (is_reconciled f)) declared)
    then ok declared
    else raised value_error

unfoldable pub drift_of : ConsumerConfig → ConsumerConfig → ConsumerConfig
drift_of declared current = keep (λ f. not (same_value (get_value f.0 current) f.1)) declared

-- `current.evolve(**drift)`
unfoldable pub evolve : ConsumerConfig → ConsumerConfig → ConsumerConfig
evolve drift [] = []
evolve drift ((k, v) ∷ config) =
    let rest = evolve drift config in
    if contains k (map (λ f. f.0) drift) then (k, get_value k drift) ∷ rest else (k, v) ∷ rest

-- What the broker holds for a durable, and whether it refuses a change of it.
pub record Broker : Type 0 where
  pub consumer : Option ConsumerConfig
  pub refuses : Bool
  pub writes : ℕ  -- the `add_consumer` calls so far

abbrev pub write_config : ConsumerConfig → Broker → Result QueueError (Unit {0}) × Broker
write_config config b = elim b.refuses [
  | true ↦ (raised runtime_error, b)
  | false ↦ (ok tt, record { consumer = some config; refuses = b.refuses; writes = suc b.writes })
]

abbrev pub update_consumer :
    ConsumerConfig → ConsumerConfig → Broker → Result QueueError (Unit {0}) × Broker
update_consumer drift current b =
    if is_empty drift then (ok tt, b) else write_config (evolve drift current) b

unfoldable pub reconcile :
    Result QueueError ConsumerConfig → Broker → Result QueueError (Unit {0}) × Broker
unfolding drift_of evolve
reconcile (raised e) b = (raised e, b)
reconcile (ok declared) b = elim b.consumer [
  | none ↦ (ok tt, b)
  | some current ↦ update_consumer (drift_of declared current) current b
]

-- `ensure_consumer_config`
unfoldable pub ensure_consumer_config :
    ConsumerConfig → ConsumerConfig → Broker → Result QueueError (Unit {0}) × Broker
unfolding declared_consumer_fields reconcile
ensure_consumer_config defaults config b = reconcile (declared_consumer_fields defaults config) b

-- `Event.encode`, before `json.dumps`.
unfoldable pub encode : Event → Json
encode event = object (
    field (codes "type") event.kind
      (field (codes "version") event.version (field (codes "data") event.content end)))

-- `Event(type="simulation.requested", data={"simulation_id": id})`, of version 1.
unfoldable pub requested : ℕ → Event
requested id = record {
  kind = text (codes "simulation.requested");
  version = integer 1;
  content = object (field (codes "simulation_id") (integer id) end);
}
