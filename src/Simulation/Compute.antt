-- ===== src/Simulation/Compute.antt =====
-- The solver, `run_simulation` of simulation/compute.py. Row j of each of its matrices is a series
-- of the j-th consumer's result, so the matrices of an iteration are kept as those results.
pub mod Cell
pub mod Shape
pub mod Balance
pub mod Cascade
pub mod Chained
pub mod Energy
mod Tests
use allocation_key_simulatio.Base.{
  ℕ, Text, List, [], ◌∷◌, map, Bool, true, false, ◌&&◌, ◌||◌, not, Option, none, some, zip_with,
  replicate, length, is_empty, all, if◌then◌else◌, ◌==◌, ltb, same_text, Result, ok, raised, ◌>>=◌,
}
use allocation_key_simulatio.Simulation.Number.{Arith}
use allocation_key_simulatio.Simulation.Inputs.{
  SimulationConsumerInput, SimulationIterationInput, SimulationKeyInput,
}
use allocation_key_simulatio.Simulation.Outcome.{
  ConsumerSimResult, IterationSimResult, KeySimResult,
}
use allocation_key_simulatio.Simulation.Series.{
  Series, Matrix, relu, safe_divide, plus, minus, times, scale, zeros, total, sum_axis0,
}

-- `SimulationInputError`, by the check that raises it.
pub data SimulationInputError : Type 0 where
  no_iterations no_consumers consumption_shape production_shape : SimulationInputError
  missing_consumer : ℕ → Text → SimulationInputError

module _ (a : Arith) where
  open a use {Num, nought, minus_one, ◌⊕◌, ◌⊘◌, minimum, same, less}

  infixl 65 ◌⊕◌
  infixl 70 ◌⊘◌
  -- A two-dimensional array: its rows, and the length that they share (`shape[1]`).
  pub record Grid : Type 0 where
    pub width : ℕ
    pub rows : Matrix a

  -- `name_to_pct[name]`, in the dict made from the consumers: a later entry replaces an earlier one.
  abbrev pub pct_of : Text → List (SimulationConsumerInput Num) → Option Num
  pct_of name [] = none
  pct_of name (c ∷ cs) =
      let here = if same_text c.name name then some c.energy_allocated_percentage else none in
      let later = pct_of name cs in elim later [ some p ↦ some p | none ↦ here ]

  -- `pcts`, each beside its name; the first name with no entry raises.
  unfoldable pub pcts :
      ℕ
      → List (SimulationConsumerInput Num)
      → List Text
      → Result SimulationInputError (List (Text × Num))
  pcts number cs [] = ok []
  pcts number cs (name ∷ names) =
      let rest = pcts number cs names in
      elim (pct_of name cs) [
        | some p ↦ rest >>= λ ps. ok ((name, p) ∷ ps)
        | none ↦ raised (missing_consumer number name)
      ]

  -- One row of `multiplier`: the fixed fraction, or the prorata weights.
  unfoldable pub multiplier : ℕ → Num → Series a → Series a
  multiplier timesteps pct weights = if less minus_one pct then replicate timesteps pct else weights

  -- The rows of one consumer in the matrices of an iteration, and its entry of `consumers_out`.
  unfoldable pub consumer_result : Text → Num → Series a → Series a → ConsumerSimResult Num
  consumer_result name pct consumption allocated =
      let residual = relu a (minus a consumption allocated) in
      let surplus = relu a (minus a allocated consumption) in
      let consumed = zip_with minimum consumption allocated in
      record {
        name = name;
        energy_allocated_percentage = pct;
        consumption = consumption;
        consumption_total = total a consumption;
        energy_allocated = allocated;
        energy_allocated_total = total a allocated;
        energy_allocated_consumed = consumed;
        energy_allocated_consumed_total = total a consumed;
        residual_volume = residual;
        residual_volume_total = total a residual;
        surplus = surplus;
        surplus_total = total a surplus;
      }

  unfoldable pub consumers_out :
      ℕ → Series a → List (Text × Num) → Matrix a → Matrix a → List (ConsumerSimResult Num)
  consumers_out t va [] weights cs = []
  consumers_out t va (p ∷ ps) [] cs = []
  consumers_out t va (p ∷ ps) (w ∷ ws) [] = []
  consumers_out t va (p ∷ ps) (w ∷ ws) (c ∷ cs) =
      consumer_result p.0 p.1 c (times a va (multiplier t p.1 w)) ∷ consumers_out t va ps ws cs

  -- What one iteration hands to the next.
  pub record Carry : Type 0 where
    pub residual_matrix : Matrix a
    pub surplus_series : Series a

  -- A rate, per timestep and in total: 0 if either total is 0.
  unfoldable pub rate_series : ℕ → Num → Num → Series a → Series a → Series a
  rate_series t den_total consumed_total consumed den =
      if same den_total nought || same consumed_total nought
      then zeros a t
      else safe_divide a consumed den

  unfoldable pub rate_total : Num → Num → Num
  rate_total den_total consumed_total =
      if same den_total nought || same consumed_total nought
      then nought
      else consumed_total ⊘ den_total

  -- The aggregates of an iteration over its consumers.
  unfoldable pub iteration_result :
      ℕ → ℕ → Num → Series a → List (ConsumerSimResult Num) → IterationSimResult Num
  iteration_result t number pct va consumers =
      let consumption = sum_axis0 a t (map (λ c. c.consumption) consumers) in
      let consumed = sum_axis0 a t (map (λ c. c.energy_allocated_consumed) consumers) in
      let residual = sum_axis0 a t (map (λ c. c.residual_volume) consumers) in
      let surplus = sum_axis0 a t (map (λ c. c.surplus) consumers) in
      let allocated_total = total a va in
      let consumed_total = total a consumed in
      let consumption_total = total a consumption in
      record {
        number = number;
        energy_allocated_percentage = pct;
        consumption = consumption;
        consumption_total = consumption_total;
        energy_allocated = va;
        energy_allocated_total = allocated_total;
        energy_allocated_consumed = consumed;
        energy_allocated_consumed_total = consumed_total;
        residual_volume = residual;
        residual_volume_total = total a residual;
        surplus = surplus;
        surplus_total = total a surplus;
        sharing_rate = rate_series t allocated_total consumed_total consumed va;
        sharing_rate_total = rate_total allocated_total consumed_total;
        self_sufficiency_rate = rate_series t consumption_total consumed_total consumed consumption;
        self_sufficiency_rate_total = rate_total consumption_total consumed_total;
        consumers = consumers;
      }

  -- The production that an iteration shares out, and the consumption that it meets.
  unfoldable pub available : Series a → Num → Option Carry → Series a
  available production pct none = scale a pct production
  available production pct (some prev) = plus a (scale a pct production) prev.surplus_series

  unfoldable pub demand : Matrix a → Option Carry → Matrix a
  demand C none = C
  demand C (some prev) = prev.residual_matrix

  unfoldable pub carry_of : IterationSimResult Num → Carry
  carry_of r = record {
    residual_matrix = map (λ c. c.residual_volume) r.consumers;
    surplus_series = r.surplus;
  }

  -- The body of the loop behind the percentages.
  unfoldable pub run_iteration :
      Grid
      → Series a
      → Matrix a
      → SimulationIterationInput Num
      → Option Carry
      → List (Text × Num)
      → IterationSimResult Num
  run_iteration C production weights it prev ps =
      let va = available production it.energy_allocated_percentage prev in
      iteration_result C.width it.number it.energy_allocated_percentage va
        (consumers_out C.width va ps weights (demand C.rows prev))

  unfoldable pub run_iterations :
      Grid
      → Series a
      → Matrix a
      → List Text
      → List (SimulationIterationInput Num)
      → Option Carry
      → Result SimulationInputError (List (IterationSimResult Num))
  run_iterations C production weights names [] prev = ok []
  run_iterations C production weights names (it ∷ its) prev = do
    ps ← pcts it.number it.consumers names
    let r = run_iteration C production weights it prev ps
    rest ← run_iterations C production weights names its (some (carry_of r))
    ok (r ∷ rest)

  -- `prorata_weights`: each consumer's share of the total consumption per timestep.
  unfoldable pub prorata_weights : Grid → Matrix a
  prorata_weights C =
      let sums = sum_axis0 a C.width C.rows in map (λ row. safe_divide a row sums) C.rows

  abbrev pub last_of :
      IterationSimResult Num → List (IterationSimResult Num) → IterationSimResult Num
  last_of r [] = r
  last_of r (s ∷ rest) = last_of s rest

  -- A key-level rate: 0 when the denominator is falsy.
  unfoldable pub key_rate : Num → Num → Num
  key_rate consumed den = if same den nought then nought else consumed ⊘ den

  unfoldable pub key_result :
      SimulationKeyInput Num
      → IterationSimResult Num
      → List (IterationSimResult Num)
      → KeySimResult Num
  unfolding key_rate
  key_result key first rest =
      let consumed = total a (map (λ it. it.energy_allocated_consumed_total) (first ∷ rest)) in
      record {
        name = key.name;
        description = key.description;
        consumption_total = first.consumption_total;
        energy_allocated_total = first.energy_allocated_total;
        energy_allocated_consumed_total = consumed;
        residual_volume_total = (last_of first rest).residual_volume_total;
        surplus_total = (last_of first rest).surplus_total;
        self_sufficiency_rate_total = key_rate consumed first.consumption_total;
        sharing_rate_total = key_rate consumed first.energy_allocated_total;
        iterations = first ∷ rest;
      }

  -- The roll-up; a loop over no iterations does not reach it.
  abbrev pub finish :
      SimulationKeyInput Num
      → List (IterationSimResult Num)
      → Result SimulationInputError (KeySimResult Num)
  finish key [] = raised no_iterations
  finish key (first ∷ rest) = ok (key_result key first rest)

  abbrev pub production_rows : Bool → Matrix a → Result SimulationInputError (Series a)
  production_rows same_width [] = raised production_shape
  production_rows same_width (row ∷ rows) = if same_width then ok row else raised production_shape

  -- `VA` has at least one row, of the timesteps of `C`; its first row is the production.
  abbrev pub production_of : Grid → Grid → Result SimulationInputError (Series a)
  production_of C VA = production_rows (VA.width == C.width) VA.rows

  unfoldable pub run_simulation :
      SimulationKeyInput Num
      → Grid
      → Grid
      → List Text
      → Result SimulationInputError (KeySimResult Num)
  run_simulation key C VA consumer_names =
      if is_empty key.iterations
      then raised no_iterations
      else if is_empty consumer_names
      then raised no_consumers
      else if not (length C.rows == length consumer_names)
      then raised consumption_shape
      else do
        production ← production_of C VA
        results ← run_iterations C production (prorata_weights C) consumer_names key.iterations none
        finish key results
