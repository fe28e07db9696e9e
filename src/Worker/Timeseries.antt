-- ===== src/Worker/Timeseries.antt =====
-- A run's series as a JSON document (worker/timeseries.py): the writer, piece by piece, and the
-- result without its series. `json.dumps` of a number, a text and a series is a parameter.
use allocation_key_simulatio.Base.{ℕ, Text, codes, List, [], ◌∷◌, ◌++◌, map}
use allocation_key_simulatio.Simulation.Outcome.{
  ConsumerSimResult, IterationSimResult, KeySimResult,
}
use allocation_key_simulatio.Shared.Loading.{Bytes}

pub record Dumps (N : Type 0) : Type 0 where
  pub number : ℕ → Bytes
  pub text : Text → Bytes
  pub series : List N → Bytes

module _ {N : Type 0} (dumps : Dumps N) where
  -- `_write_member`
  unfoldable pub write_member : Text → List N → Bytes
  write_member name value = codes ", " ++ (dumps.text name ++ (codes ": " ++ dumps.series value))

  write_members : List (Text × List N) → Bytes
  write_members [] = []
  write_members ((name, value) ∷ ms) = write_member name value ++ write_members ms

  -- `_CONSUMER_SERIES` and `_ITERATION_SERIES`, with the values that `getattr` reads.
  abbrev pub consumer_series : ConsumerSimResult N → List (Text × List N)
  consumer_series c =
      (codes "consumption", c.consumption)
      ∷ (codes "energy_allocated", c.energy_allocated)
      ∷ (codes "energy_allocated_consumed", c.energy_allocated_consumed)
      ∷ (codes "residual_volume", c.residual_volume)
      ∷ (codes "surplus", c.surplus)
      ∷ []

  abbrev pub iteration_series : IterationSimResult N → List (Text × List N)
  iteration_series it =
      (codes "consumption", it.consumption)
      ∷ (codes "energy_allocated", it.energy_allocated)
      ∷ (codes "energy_allocated_consumed", it.energy_allocated_consumed)
      ∷ (codes "residual_volume", it.residual_volume)
      ∷ (codes "surplus", it.surplus)
      ∷ (codes "sharing_rate", it.sharing_rate)
      ∷ (codes "self_sufficiency_rate", it.self_sufficiency_rate)
      ∷ []

  -- What is written for the elements of an array, `", "` before each but the first.
  separated : List Bytes → Bytes
  separated [] = []
  separated (b ∷ []) = b
  separated (b ∷ c ∷ bs) = b ++ (codes ", " ++ separated (c ∷ bs))

  write_consumer : ConsumerSimResult N → Bytes
  unfolding write_members
  write_consumer c =
      codes "{\"name\": " ++ (dumps.text c.name ++ (write_members (consumer_series c) ++ codes "}"))

  write_iteration : IterationSimResult N → Bytes
  unfolding write_members write_consumer separated
  write_iteration it =
      codes "{\"number\": "
      ++ (dumps.number it.number
          ++ (write_members (iteration_series it)
              ++ (codes ", \"consumers\": ["
                  ++ (separated (map write_consumer it.consumers) ++ codes "]}"))))

  unfoldable pub write_json : KeySimResult N → Bytes
  unfolding write_iteration separated
  write_json result =
      codes "{\"iterations\": ["
      ++ (separated (map write_iteration result.iterations) ++ codes "]}")

module _ {N : Type 0} where
  consumer_without_series : ConsumerSimResult N → ConsumerSimResult N
  consumer_without_series c = record c {
    consumption = [];
    energy_allocated = [];
    energy_allocated_consumed = [];
    residual_volume = [];
    surplus = [];
  }

  iteration_without_series : IterationSimResult N → IterationSimResult N
  unfolding consumer_without_series
  iteration_without_series it = record it {
    consumption = [];
    energy_allocated = [];
    energy_allocated_consumed = [];
    residual_volume = [];
    surplus = [];
    sharing_rate = [];
    self_sufficiency_rate = [];
    consumers = map consumer_without_series it.consumers;
  }

  unfoldable pub without_series : KeySimResult N → KeySimResult N
  unfolding iteration_without_series
  without_series result = record result {
    iterations = map iteration_without_series result.iterations;
  }
