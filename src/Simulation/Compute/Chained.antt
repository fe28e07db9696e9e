-- ===== src/Simulation/Compute/Chained.antt =====
-- A whole run told by its results alone: what each iteration takes over from the one before, its
-- sums, and the totals of the key.
use allocation_key_simulatio.Base.{
  ℕ, ◌≡◌, refl, sym, ap, ◌∙◌, Text, List, [], ◌∷◌, map, none, some, Option, Result, ok, raised,
  >>=-eq-ok, ok-injective, Bool, true, false, ◌==◌,
}
use allocation_key_simulatio.Simulation.Number.{Arith, IsExact}
use allocation_key_simulatio.Simulation.Inputs.{SimulationIterationInput, SimulationKeyInput}
use allocation_key_simulatio.Simulation.Outcome.{IterationSimResult, KeySimResult}
use allocation_key_simulatio.Simulation.Series.{Series, Matrix, total, sum_axis0, scale, plus}
use allocation_key_simulatio.Simulation.Compute.{
  SimulationInputError, production_shape, Grid, Carry, pcts, run_iteration, run_iterations,
  carry_of, available, demand, iteration_result, last_of, key_result, production_rows,
  prorata_weights, run_simulation,
}
use allocation_key_simulatio.Simulation.Compute.Shape.{run_simulation-ok}
use allocation_key_simulatio.Simulation.Compute.Balance.{IsBalancedIteration}
use allocation_key_simulatio.Simulation.Compute.Cascade.{
  IsGrid, IsStage, IsCascade, run_simulation-IsCascade,
}

module _ (a : Arith) where
  open a use {Num}

  -- The consumption that is still unmet before an iteration: all of it, then what its predecessor
  -- left of each consumer's.
  abbrev pub unmet : Grid a → Option (IterationSimResult Num) → Matrix a
  unmet C none = C.rows
  unmet C (some p) = map (λ c. c.residual_volume) p.consumers

  -- The production that it shares out: its part of the whole, and what its predecessor's consumers
  -- were allocated beyond their consumption.
  abbrev pub shared : Grid a → Series a → Num → Option (IterationSimResult Num) → Series a
  shared C production pct none = scale a pct production
  shared C production pct (some p) =
      plus a (scale a pct production) (sum_axis0 a C.width (map (λ c. c.surplus) p.consumers))

  pub record IsLink (C : Grid a) (production : Series a) (prev : Option (IterationSimResult Num))
      (r : IterationSimResult Num) : Type 0 where
    pub balanced : IsBalancedIteration a r
    pub meets : map (λ c. c.consumption) r.consumers ≡ unmet C prev
    pub shares : r.energy_allocated ≡ shared C production r.energy_allocated_percentage prev
    pub consumption : r.consumption ≡ sum_axis0 a C.width (map (λ c. c.consumption) r.consumers)
    pub consumed :
        r.energy_allocated_consumed
        ≡ sum_axis0 a C.width (map (λ c. c.energy_allocated_consumed) r.consumers)
    pub residual :
        r.residual_volume ≡ sum_axis0 a C.width (map (λ c. c.residual_volume) r.consumers)
    pub surplus : r.surplus ≡ sum_axis0 a C.width (map (λ c. c.surplus) r.consumers)
    pub consumption_total : r.consumption_total ≡ total a r.consumption
    pub allocated_total : r.energy_allocated_total ≡ total a r.energy_allocated
    pub consumed_total : r.energy_allocated_consumed_total ≡ total a r.energy_allocated_consumed
    pub residual_total : r.residual_volume_total ≡ total a r.residual_volume
    pub surplus_total : r.surplus_total ≡ total a r.surplus

  abbrev pub IsChained :
      Grid a → Series a → Option (IterationSimResult Num) → List (IterationSimResult Num) → Type 0
  IsChained C production prev [] = Unit
  IsChained C production prev (r ∷ rs) =
      IsLink C production prev r × IsChained C production (some r) rs

  abbrev pub final : IterationSimResult Num → List (IterationSimResult Num) → IterationSimResult Num
  final r [] = r
  final r (s ∷ rest) = final s rest

  -- The totals of a key: demand and production are the first iteration's, the self-consumption is
  -- that of all, and what is left over is the last one's.
  pub record IsRolledUp (r : KeySimResult Num) : Type 0 where
    pub first : IterationSimResult Num
    pub rest : List (IterationSimResult Num)
    pub iterations : r.iterations ≡ first ∷ rest
    pub consumption_total : r.consumption_total ≡ first.consumption_total
    pub allocated_total : r.energy_allocated_total ≡ first.energy_allocated_total
    pub consumed_total :
        r.energy_allocated_consumed_total
        ≡ total a (map (λ it. it.energy_allocated_consumed_total) r.iterations)
    pub residual_total : r.residual_volume_total ≡ (final first rest).residual_volume_total
    pub surplus_total : r.surplus_total ≡ (final first rest).surplus_total

  abbrev carried : Option (IterationSimResult Num) → Option (Carry a)
  carried none = none
  carried (some p) = some (carry_of a p)

  abbrev IsSummed : Grid a → Option (IterationSimResult Num) → Type 0
  IsSummed C none = Unit
  IsSummed C (some p) = p.surplus ≡ sum_axis0 a C.width (map (λ c. c.surplus) p.consumers)

  demand-unmet :
      (C : Grid a) (prev : Option (IterationSimResult Num))
      → demand a C.rows (carried prev) ≡ unmet C prev
  unfolding demand carry_of
  demand-unmet C none = refl
  demand-unmet C (some p) = refl

  available-shared :
      (C : Grid a) (production : Series a) (pct : Num) (prev : Option (IterationSimResult Num))
      → IsSummed C prev
      → available a production pct (carried prev) ≡ shared C production pct prev
  unfolding available carry_of
  available-shared C production pct none h = refl
  available-shared C production pct (some p) h = ap (plus a (scale a pct production)) h

  IsStage-IsLink :
      (C : Grid a) (production : Series a) (prev : Option (IterationSimResult Num))
      (r : IterationSimResult Num)
      → IsSummed C prev
      → IsStage a C production (carried prev) r
      → IsLink C production prev r
  IsStage-IsLink C production prev r h s = record {
    balanced = s.balanced;
    meets = s.meets ∙ demand-unmet C prev;
    shares = s.shares ∙ available-shared C production r.energy_allocated_percentage prev h;
    consumption = s.consumption;
    consumed = s.consumed;
    residual = s.residual;
    surplus = s.surplus;
    consumption_total = s.consumption_sum ∙ ap (total a) (sym s.consumption);
    allocated_total = s.allocated_total;
    consumed_total = s.consumed_total;
    residual_total = s.residual_sum ∙ ap (total a) (sym s.residual);
    surplus_total = s.surplus_total;
  }

  IsCascade-IsChained :
      (C : Grid a) (production : Series a) (prev : Option (IterationSimResult Num))
      (rs : List (IterationSimResult Num))
      → IsSummed C prev
      → IsCascade a C production (carried prev) rs
      → IsChained C production prev rs
  IsCascade-IsChained C production prev [] h c = tt
  IsCascade-IsChained C production prev (r ∷ rs) h c = (
    IsStage-IsLink C production prev r h c.0,
    IsCascade-IsChained C production (some r) rs c.0.surplus c.1,
  )

  last_of-final :
      (r : IterationSimResult Num) (rs : List (IterationSimResult Num))
      → last_of a r rs ≡ final r rs
  last_of-final r [] = refl
  last_of-final r (s ∷ rs) = last_of-final s rs

  key_result-IsRolledUp :
      (key : SimulationKeyInput Num) (first : IterationSimResult Num)
      (rest : List (IterationSimResult Num))
      → IsRolledUp (key_result a key first rest)
  unfolding key_result
  key_result-IsRolledUp key first rest = record {
    first = first;
    rest = rest;
    iterations = refl;
    consumption_total = refl;
    allocated_total = refl;
    consumed_total = refl;
    residual_total =
        ap (λ (r : IterationSimResult Num). r.residual_volume_total) (last_of-final first rest);
    surplus_total = ap (λ (r : IterationSimResult Num). r.surplus_total) (last_of-final first rest);
  }

  no_production :
      (production : Series a)
      → ◌≡◌ {A = Result SimulationInputError (Series a)} (raised production_shape) (ok production)
      → ⊥
  no_production production h = cc

  production-first :
      (same_width : Bool) (rows : Matrix a) (production : Series a)
      → production_rows a same_width rows ≡ ok production
      → (more : Matrix a) × (rows ≡ production ∷ more)
  production-first b [] production h = absurd (no_production production h)
  production-first true (row ∷ rows) production h =
      (rows, ap (λ (p : Series a). p ∷ rows) (ok-injective h))
  production-first false (row ∷ rows) production h = absurd (no_production production h)

  -- An iteration keeps the number and the percentage of its input.
  abbrev pub labels : List (IterationSimResult Num) → List (ℕ × Num)
  labels rs = map (λ r. (r.number, r.energy_allocated_percentage)) rs

  run_iterations-labels :
      (C : Grid a) (production : Series a) (ws : Matrix a) (names : List Text)
      (its : List (SimulationIterationInput Num)) (prev : Option (Carry a))
      (rs : List (IterationSimResult Num))
      → run_iterations a C production ws names its prev ≡ ok rs
      → labels rs ≡ map (λ it. (it.number, it.energy_allocated_percentage)) its
  unfolding run_iterations run_iteration iteration_result
  run_iterations-labels C production ws names [] prev [] h = refl
  run_iterations-labels C production ws names [] prev (r ∷ rs) h = cc
  run_iterations-labels C production ws names (it ∷ its) prev rs h =
      let (ps, found, h1) = >>=-eq-ok (pcts a it.number it.consumers names) _ h in
      let (rest, ran, h2) = >>=-eq-ok _ _ h1 in
      sym (ap labels (ok-injective h2))
      ∙ ap (λ (ls : List (ℕ × Num)). (it.number, it.energy_allocated_percentage) ∷ ls)
          (run_iterations-labels C production ws names its _ rest ran)

  run_simulation-labels :
      (key : SimulationKeyInput Num) (C VA : Grid a) (names : List Text) {r : KeySimResult Num}
      → run_simulation a key C VA names ≡ ok r
      → labels r.iterations ≡ map (λ it. (it.number, it.energy_allocated_percentage)) key.iterations
  unfolding key_result
  run_simulation-labels key C VA names h =
      let (production, first, rest, found, ran, e, n) = run_simulation-ok a key C VA names h in
      rw e (
        run_iterations-labels C production (prorata_weights a C) names key.iterations none
          (first ∷ rest) ran)

  -- A successful run over well-shaped arrays, in exact arithmetic. Its iterations are the key's, in
  -- order. The first meets the whole consumption, and each later one what every consumer lacked
  -- after its predecessor; each shares its percentage of the first row of VA, and each later one
  -- also the surplus of its predecessor's consumers. An iteration's series are the sums over its
  -- consumers, its totals the sums of its series, and it balances per consumer, per timestep and in
  -- total. The key's consumption and production are the first iteration's, its self-consumption is
  -- that of all iterations, and its residual volume and surplus are the last one's.
  pub run_simulation-IsChained :
      (x : IsExact a) (key : SimulationKeyInput Num) (C VA : Grid a) (names : List Text)
      {r : KeySimResult Num}
      → IsGrid a C
      → IsGrid a VA
      → run_simulation a key C VA names ≡ ok r
      → (production : Series a) × (more : Matrix a) × (VA.rows ≡ production ∷ more)
        × IsChained C production none r.iterations
        × (labels r.iterations
            ≡ map (λ it. (it.number, it.energy_allocated_percentage)) key.iterations)
        × IsRolledUp r
  unfolding key_result
  run_simulation-IsChained x key C VA names g gv h =
      let (production, first, rest, found, e, casc) =
        run_simulation-IsCascade a x key C VA names g gv h in
      let (more, rows) = production-first (VA.width == C.width) VA.rows production found in
      let same = run_simulation-labels key C VA names h in
      (
        production,
        more,
        rows,
        rw e (IsCascade-IsChained C production none (first ∷ rest) tt casc),
        same,
        rw e (key_result-IsRolledUp key first rest),
      )
