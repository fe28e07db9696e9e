-- ===== src/Core/Tests.antt =====
-- A durable whose delivery limit has changed, the event of a run, and a hint to a community.
use allocation_key_simulatio.Base.{
  ℕ, ◌≡◌, ◌⊎◌, refl, Text, codes, same_text, contains, [], ◌∷◌, map, take, none, some, true, false,
  is_empty, ok,
}
use allocation_key_simulatio.Worker.Json.{Json, integer, end, decode, simulation_id, id}
use allocation_key_simulatio.Core.Queue.{
  ConsumerConfig, get_value, same_value, set_fields, declared_consumer_fields, drift_of, evolve,
  Broker, reconcile, ensure_consumer_config, encode, requested,
}
use allocation_key_simulatio.Core.Queue.Reconciled.{
  distinct, names, Holds, ensure_consumer_config-Holds,
}
use allocation_key_simulatio.Core.Queue.RoundTrip.{decode-encode}
use allocation_key_simulatio.Core.Realtime.{
  Tier, Audience, community_audience, channels, HintInput, Envelopes, emit,
}
use allocation_key_simulatio.Core.Realtime.Published.{IsAllowed, emit-IsAllowed}

abbrev max_deliver : Text
max_deliver = codes "max_deliver"

abbrev defaults : ConsumerConfig
defaults = (max_deliver, none) ∷ (codes "durable_name", none) ∷ []

abbrev declared : ConsumerConfig
declared = (max_deliver, some (codes "11")) ∷ (codes "durable_name", none) ∷ []

abbrev stored : ConsumerConfig
stored = (max_deliver, some (codes "5")) ∷ (codes "durable_name", some (codes "worker")) ∷ []

abbrev broker : Broker
broker = record { consumer = some stored; refuses = false; writes = 0 }

one_change : distinct (names (set_fields defaults declared)) ≡ true
unfolding distinct set_fields get_value same_value contains same_text
one_change = refl

is_stored : contains max_deliver (names stored) ≡ true
unfolding contains same_text
is_stored = refl

returns : (ensure_consumer_config defaults declared broker).0 ≡ ok tt
unfolding ensure_consumer_config declared_consumer_fields reconcile set_fields get_value same_value
    contains same_text drift_of evolve
returns = refl

ensure_consumer_config-Holds_example :
    Holds
      (ensure_consumer_config defaults declared broker).1
      (set_fields defaults declared)
      stored
      max_deliver
ensure_consumer_config-Holds_example =
    ensure_consumer_config-Holds defaults declared stored broker max_deliver one_change refl
      is_stored returns

decode-encode_example :
    (decode (some (encode (requested 3))) ≡ some (requested 3))
    × (simulation_id (requested 3).content ≡ id 3)
decode-encode_example = decode-encode (requested 3) 3

abbrev made : Envelopes
made = record {
  byte_length = λ e. 200;
  token_hex = codes "0a1b";
  now = codes "2025-01-01T00:00:00Z";
}

abbrev finished : HintInput
finished = record {
  topic = codes "simulation.finished";
  kind = codes "simulation";
  ref_id = some (codes "3");
  hint = end;
  scope_community_id = integer 4;
}

abbrev to_managers : Audience
to_managers = community_audience 4 Tier.manager

emit-IsAllowed_example :
    ((emit made true (codes "redis") (λ n. false) to_managers finished ≡ [])
      × (true ≡ true
          → is_empty (codes "redis") ≡ false
          → (body : Json) → ¬ IsAllowed made finished body))
    ⊎ ((body : Json) × IsAllowed made finished body
        × (true ≡ true)
        × (is_empty (codes "redis") ≡ false)
        × (k : ℕ) × (emit made true (codes "redis") (λ n. false) to_managers finished
            ≡ take k (map (λ (c : Text). (c, body)) (channels to_managers)))
        × (((m : ℕ) → false ≡ false)
            → emit made true (codes "redis") (λ n. false) to_managers finished
              ≡ map (λ (c : Text). (c, body)) (channels to_managers)))
emit-IsAllowed_example = emit-IsAllowed made true (codes "redis") (λ n. false) to_managers finished
