-- ===== src/Core/Queue/RoundTrip.antt =====
-- What the API publishes is what the worker reads.
use allocation_key_simulatio.Base.{ℕ, ◌≡◌, refl, some, same_text}
use allocation_key_simulatio.Worker.Json.{Event, decode, get_field, simulation_id, id}
use allocation_key_simulatio.Core.Queue.{encode, requested}

-- An event decodes to itself once encoded, and the id of a requested simulation is the one that
-- the handler finds in the decoded event.
pub decode-encode :
    (event : Event) (n : ℕ)
    → (decode (some (encode event)) ≡ some event) × (simulation_id (requested n).content ≡ id n)
unfolding decode encode get_field same_text simulation_id requested
decode-encode event n = (refl, refl)
