-- ===== src/Shared/Tests.antt =====
-- A table of two consumers and a producer, in whole numbers, and a period of readings.
use allocation_key_simulatio.Base.{
  ℕ, zero, suc, inl, arith, map, false, ◌+◌, ◌≡◌, ◌↔◌, refl, List, [], ◌∷◌, All, Text, codes,
  contains, true, ok, raised, same_text, length, some, subst, ok-injective,
}
use allocation_key_simulatio.Simulation.Number.Integers.{ℤ, pos, integers}
use allocation_key_simulatio.Simulation.Inputs.{SimulationKeyInput}
use allocation_key_simulatio.Simulation.Outcome.{KeySimResult}
use allocation_key_simulatio.Simulation.Compute.{consumption_shape, run_simulation}
use allocation_key_simulatio.Simulation.Compute.Energy.{Covers}
use allocation_key_simulatio.Shared.Metering.{CrmDataSummary}
use allocation_key_simulatio.Shared.Preflight.{normalize_participant, evaluate, is_ok}
use allocation_key_simulatio.Shared.Preflight.Verdict.{
  count, has_meter, IsUsable, evaluate-is_ok, evaluate_splits,
}
use allocation_key_simulatio.Shared.Loading.{
  Pandas, SimulationRawData, positions_from, selected_positions, read_columns, series_of, tile,
  require_finite, to_simulation_raw_data,
}
use allocation_key_simulatio.Shared.Loading.Converted.{
  HasHeight, LabelsOne, occurrences, IsConverted, to_simulation_raw_data-IsConverted,
  load_then_run_total,
}
use allocation_key_simulatio.Shared.Loading.Repeated.{LabelsMore, load_then_run-repeated}

abbrev pub house : Text
house = codes "h"

abbrev pub farm : Text
farm = codes "f"

abbrev pub sun : Text
sun = codes "sun"

-- The table's columns: the house's cells, the farm's, and the production's.
unfoldable pub cells : ℕ → List ℤ
cells zero = pos 3 ∷ pos 5 ∷ []
cells (suc zero) = pos 4 ∷ pos 1 ∷ []
cells (suc (suc position)) = pos 6 ∷ pos 2 ∷ []

-- A pandas of one table.
abbrev pub table : Pandas integers
table = record {
  Frame = Unit {0};
  read_csv = λ content. ok tt;
  read_excel = λ content. raised (codes "no sheet");
  columns = λ frame. house ∷ farm ∷ sun ∷ [];
  height = λ frame. 2;
  to_numpy = λ frame position. ok (cells position);
  isfinite = λ x. true;
  Pivot = Unit {0};
  pivot = λ rows. ok tt;
  pivot_columns = λ p. house ∷ farm ∷ [];
  assemble = λ p rows eans label. tt;
}

length-cells : (position : ℕ) → length (cells position) ≡ 2
unfolding cells
length-cells zero = refl
length-cells (suc zero) = refl
length-cells (suc (suc n)) = refl

table-HasHeight : HasHeight integers table
table-HasHeight frame position column h =
    subst (λ c. length c ≡ 2) {x = cells position} (ok-injective h) (length-cells position)

labelled : LabelsOne integers table tt (house ∷ farm ∷ [])
unfolding occurrences same_text
labelled = (refl, (refl, tt))

injected : LabelsOne integers table tt (sun ∷ [])
unfolding occurrences same_text
injected = (refl, tt)

abbrev pub raw : SimulationRawData integers
raw = record {
  C = record { width = 2; rows = (pos 3 ∷ pos 5 ∷ []) ∷ (pos 4 ∷ pos 1 ∷ []) ∷ [] };
  va = record { width = 2; rows = (pos 6 ∷ pos 2 ∷ []) ∷ (pos 6 ∷ pos 2 ∷ []) ∷ [] };
  consumer_names = house ∷ farm ∷ [];
}

converts : to_simulation_raw_data integers table tt sun (house ∷ farm ∷ []) ≡ ok raw
unfolding to_simulation_raw_data positions_from selected_positions read_columns series_of tile
    require_finite same_text contains cells
converts = refl

to_simulation_raw_data-IsConverted_example : IsConverted integers table (house ∷ farm ∷ []) raw
to_simulation_raw_data-IsConverted_example =
    to_simulation_raw_data-IsConverted integers table table-HasHeight tt sun (house ∷ farm ∷ [])
      labelled injected converts

abbrev pub key : SimulationKeyInput ℤ
key = record {
  name = codes "k";
  description = codes "";
  iterations =
      record {
        number = 1;
        energy_allocated_percentage = pos 1;
        consumers =
            record { name = house; energy_allocated_percentage = pos 1 }
            ∷ record { name = farm; energy_allocated_percentage = pos 0 }
            ∷ [];
      }
      ∷ [];
}

covered : All (λ it. Covers integers (house ∷ farm ∷ []) it.consumers) key.iterations
unfolding same_text
covered = ((refl, (refl, tt)), tt)

load_then_run_total_example :
    (r : KeySimResult ℤ) × (run_simulation integers key raw.C raw.va raw.consumer_names ≡ ok r)
    × (length r.iterations ≡ 1)
load_then_run_total_example =
    load_then_run_total integers table table-HasHeight tt sun (house ∷ farm ∷ []) key labelled
      injected converts refl covered

-- The same table with the house's label over two columns.
abbrev pub doubled : Pandas integers
doubled = record {
  Frame = Unit {0};
  read_csv = λ content. ok tt;
  read_excel = λ content. raised (codes "no sheet");
  columns = λ frame. house ∷ house ∷ farm ∷ sun ∷ [];
  height = λ frame. 2;
  to_numpy = λ frame position. ok (cells position);
  isfinite = λ x. true;
  Pivot = Unit {0};
  pivot = λ rows. ok tt;
  pivot_columns = λ p. house ∷ farm ∷ [];
  assemble = λ p rows eans label. tt;
}

abbrev pub raw_doubled : SimulationRawData integers
raw_doubled = record {
  C = record {
    width = 2;
    rows = (pos 3 ∷ pos 5 ∷ []) ∷ (pos 4 ∷ pos 1 ∷ []) ∷ (pos 6 ∷ pos 2 ∷ []) ∷ [];
  };
  va = record { width = 2; rows = (pos 6 ∷ pos 2 ∷ []) ∷ (pos 6 ∷ pos 2 ∷ []) ∷ [] };
  consumer_names = house ∷ farm ∷ [];
}

converts_doubled :
    to_simulation_raw_data integers doubled tt sun (house ∷ farm ∷ []) ≡ ok raw_doubled
unfolding to_simulation_raw_data positions_from selected_positions read_columns series_of tile
    require_finite same_text contains cells
converts_doubled = refl

repeated : LabelsMore (house ∷ house ∷ farm ∷ sun ∷ []) (house ∷ farm ∷ [])
unfolding occurrences same_text
repeated = inl (omega arith)

load_then_run-repeated_example :
    run_simulation integers key raw_doubled.C raw_doubled.va raw_doubled.consumer_names
    ≡ raised consumption_shape
load_then_run-repeated_example =
    load_then_run-repeated integers doubled tt sun (house ∷ farm ∷ []) key repeated converts_doubled
      refl

-- Two readings of each consumer; the farm's second one repeats a timestamp.
abbrev readings : CrmDataSummary ℤ
readings = record {
  eans =
      record {
        ean = house;
        row_count = 2;
        distinct_ts = 2;
        consumption_kwh = pos 8;
        injection_kwh = pos 0;
      }
      ∷ record {
        ean = farm;
        row_count = 2;
        distinct_ts = 1;
        consumption_kwh = pos 5;
        injection_kwh = pos 8;
      }
      ∷ [];
  grid_size = 2;
  first_timestamp = some 0;
  last_timestamp = some 15;
}

evaluate-is_ok_example :
    (is_ok (evaluate integers readings (codes " h" ∷ farm ∷ []) 1) ≡ true)
    ↔ IsUsable integers readings (codes " h" ∷ farm ∷ []) 1
evaluate-is_ok_example = evaluate-is_ok integers readings (codes " h" ∷ farm ∷ []) 1

evaluate_splits_example :
    ((evaluate integers readings (codes " h" ∷ codes "x" ∷ []) 1).participants
      ≡ map normalize_participant (codes " h" ∷ codes "x" ∷ []))
    × ((p : Text)
        → count p (evaluate integers readings (codes " h" ∷ codes "x" ∷ []) 1).matched
            + count p (evaluate integers readings (codes " h" ∷ codes "x" ∷ []) 1).unmatched
          ≡ count p (map normalize_participant (codes " h" ∷ codes "x" ∷ [])))
    × All
        (λ p. has_meter integers readings p ≡ true)
        (evaluate integers readings (codes " h" ∷ codes "x" ∷ []) 1).matched
    × All
        (λ p. has_meter integers readings p ≡ false)
        (evaluate integers readings (codes " h" ∷ codes "x" ∷ []) 1).unmatched
evaluate_splits_example = evaluate_splits integers readings (codes " h" ∷ codes "x" ∷ []) 1
