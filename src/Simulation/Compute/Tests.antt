-- ===== src/Simulation/Compute/Tests.antt =====
-- A key of two iterations over two consumers and two timesteps, in whole numbers: the first
-- consumer is FIXED at the whole production, then the second takes what it left.
use allocation_key_simulatio.Base.{
  ◌≡◌, refl, List, [], ◌∷◌, map, All, Text, codes, none, ok, raised, Result, same_text, length,
}
use allocation_key_simulatio.Simulation.Number.Integers.{
  ℤ, pos, integers, integers-IsExact, ◌+ℤ◌, ◌-ℤ◌, ◌*ℤ◌, ◌/ℤ◌, abs_ℤ,
}
use allocation_key_simulatio.Simulation.Inputs.{SimulationConsumerInput, SimulationKeyInput}
use allocation_key_simulatio.Simulation.Outcome.{KeySimResult}
use allocation_key_simulatio.Simulation.Series.{
  Series, Matrix, total, sum_axis0, relu_at, safe_divide_at,
}
use allocation_key_simulatio.Simulation.Compute.{
  SimulationInputError, Grid, run_simulation, run_iterations, pcts, run_iteration, available,
  demand, consumers_out, consumer_result, multiplier, prorata_weights, iteration_result,
  rate_series, rate_total, carry_of, key_result,
}
use allocation_key_simulatio.Simulation.Compute.Chained.{
  IsChained, IsRolledUp, labels, run_simulation-IsChained,
}
use allocation_key_simulatio.Simulation.Compute.Balance.{IsBalancedIteration}
use allocation_key_simulatio.Simulation.Compute.Energy.{
  IsRunnable, run_simulation-balances, run_simulation_total,
}

abbrev share : Text → ℤ → SimulationConsumerInput ℤ
share name pct = record { name = name; energy_allocated_percentage = pct }

abbrev house : Text
house = codes "h"

abbrev farm : Text
farm = codes "f"

abbrev key : SimulationKeyInput ℤ
key = record {
  name = codes "k";
  description = codes "";
  iterations =
      record {
        number = 1;
        energy_allocated_percentage = pos 1;
        consumers = share house (pos 1) ∷ share farm (pos 0) ∷ [];
      }
      ∷ record {
        number = 2;
        energy_allocated_percentage = pos 0;
        consumers = share farm (pos 1) ∷ share house (pos 0) ∷ [];
      }
      ∷ [];
}

-- The house needs 3 and 5, the farm 4 and 1; 6 are produced, then 2.
abbrev consumption : Grid integers
consumption = record { width = 2; rows = (pos 3 ∷ pos 5 ∷ []) ∷ (pos 4 ∷ pos 1 ∷ []) ∷ [] }

abbrev production : Grid integers
production = record { width = 2; rows = (pos 6 ∷ pos 2 ∷ []) ∷ (pos 6 ∷ pos 2 ∷ []) ∷ [] }

abbrev names : List Text
names = house ∷ farm ∷ []

abbrev totals : Result SimulationInputError (KeySimResult ℤ) → List ℤ
totals (raised e) = []
totals (ok r) =
    r.consumption_total ∷ r.energy_allocated_total ∷ r.energy_allocated_consumed_total
    ∷ r.residual_volume_total ∷ r.surplus_total ∷ []

run-totals :
    totals (run_simulation integers key consumption production names)
    ≡ pos 13 ∷ pos 8 ∷ pos 8 ∷ pos 5 ∷ pos 0 ∷ []
unfolding run_simulation run_iterations pcts run_iteration available demand consumers_out
    consumer_result multiplier relu_at prorata_weights safe_divide_at iteration_result rate_series
    rate_total carry_of key_result same_text ◌+ℤ◌ ◌-ℤ◌ ◌*ℤ◌ ◌/ℤ◌ abs_ℤ
run-totals = refl

runnable : IsRunnable integers key consumption production names
unfolding same_text
runnable = record {
  iterates = refl;
  named = refl;
  rows = refl;
  same_width = refl;
  produces = refl;
  covers = ((refl, (refl, tt)), ((refl, (refl, tt)), tt));
}

run_simulation_total_example :
    (r : KeySimResult ℤ) × (run_simulation integers key consumption production names ≡ ok r)
    × (length r.iterations ≡ 2)
run_simulation_total_example =
    run_simulation_total integers key consumption production names runnable

abbrev result : KeySimResult ℤ
result = run_simulation_total_example.0

run_simulation-balances_example :
    (result.energy_allocated_consumed_total +ℤ result.residual_volume_total
      ≡ result.consumption_total)
    × (result.consumption_total ≡ total integers (sum_axis0 integers 2 consumption.rows))
    × All (IsBalancedIteration integers) result.iterations
run_simulation-balances_example =
    run_simulation-balances integers integers-IsExact key consumption production names
      (refl, (refl, tt)) (refl, (refl, tt)) run_simulation_total_example.1

run_simulation-IsChained_example :
    (shared_out : Series integers) × (more : Matrix integers) × (production.rows
      ≡ shared_out ∷ more)
    × IsChained integers consumption shared_out none result.iterations
    × (labels integers result.iterations
        ≡ map (λ it. (it.number, it.energy_allocated_percentage)) key.iterations)
    × IsRolledUp integers result
run_simulation-IsChained_example =
    run_simulation-IsChained integers integers-IsExact key consumption production names
      (refl, (refl, tt)) (refl, (refl, tt)) run_simulation_total_example.1
