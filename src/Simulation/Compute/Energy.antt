-- ===== src/Simulation/Compute/Energy.antt =====
-- The energy of a whole run, and when a run has a result at all.
use allocation_key_simulatio.Base.{
  ℕ, suc, ◌≡◌, refl, sym, ap, ◌∙◌, Text, List, [], ◌∷◌, map, true, none, some, Option, arith,
  length, All, is_empty, ◌==◌, ==_iff, false, ok, is_some, Option-cases, inl, inr,
}
use allocation_key_simulatio.Simulation.Number.{Arith, IsExact}
use allocation_key_simulatio.Simulation.Inputs.{
  SimulationConsumerInput, SimulationIterationInput, SimulationKeyInput,
}
use allocation_key_simulatio.Simulation.Outcome.{IterationSimResult, KeySimResult}
use allocation_key_simulatio.Simulation.Series.{Series, Matrix, total, sum_axis0}
use allocation_key_simulatio.Simulation.Compute.{
  Grid, Carry, pct_of, pcts, run_iteration, run_iterations, carry_of, prorata_weights, last_of,
  key_result, finish, production_rows, run_simulation, demand,
}
use allocation_key_simulatio.Simulation.Compute.Balance.{IsBalancedIteration}
use allocation_key_simulatio.Simulation.Compute.Cascade.{
  IsGrid, IsCascade, run_simulation-IsCascade,
}

module _ (a : Arith) where
  open a use {Num, ◌⊕◌}

  infixl 65 ◌⊕◌
  All-balanced :
      (C : Grid a) (production : Series a) (prev : Option (Carry a))
      (rs : List (IterationSimResult Num))
      → IsCascade a C production prev rs
      → All (IsBalancedIteration a) rs
  All-balanced C production prev [] h = tt
  All-balanced C production prev (r ∷ rs) h =
      (h.0.balanced, All-balanced C production (some (carry_of a r)) rs h.1)

  demand-carry_of :
      (C : Grid a) (r : IterationSimResult Num)
      → demand a C.rows (some (carry_of a r)) ≡ map (λ c. c.residual_volume) r.consumers
  unfolding demand carry_of
  demand-carry_of C r = refl

  module _ (x : IsExact a) where
    cascade_total :
        (C : Grid a) (production : Series a) (prev : Option (Carry a)) (r : IterationSimResult Num)
        (rs : List (IterationSimResult Num))
        → IsCascade a C production prev (r ∷ rs)
        → total a (map (λ it. it.energy_allocated_consumed_total) (r ∷ rs))
            ⊕ (last_of a r rs).residual_volume_total
          ≡ r.consumption_total
    cascade_total C production prev r [] h =
        ap (λ p. p ⊕ r.residual_volume_total) (x.add-nought _) ∙ h.0.balanced.demand_total
    cascade_total C production prev r (s ∷ rs) h =
        x.add_assoc _ _ _
        ∙ ap (λ p. r.energy_allocated_consumed_total ⊕ p)
            (cascade_total C production (some (carry_of a r)) s rs h.1 ∙ meets_rest)
        ∙ h.0.balanced.demand_total
      where
        meets_rest : s.consumption_total ≡ r.residual_volume_total
        meets_rest =
            h.1.0.consumption_sum
            ∙ ap (λ m. total a (sum_axis0 a C.width m)) (h.1.0.meets ∙ demand-carry_of C r)
            ∙ sym h.0.residual_sum

    -- A run over well-shaped arrays conserves energy, in exact arithmetic: over the whole key, what
    -- was self-consumed and what is left unmet make the consumption of the input, which is the
    -- first iteration's; and each iteration balances, per timestep, in total and per consumer.
    pub run_simulation-balances :
        (key : SimulationKeyInput Num) (C VA : Grid a) (names : List Text) {r : KeySimResult Num}
        → IsGrid a C
        → IsGrid a VA
        → run_simulation a key C VA names ≡ ok r
        → (r.energy_allocated_consumed_total ⊕ r.residual_volume_total ≡ r.consumption_total)
          × (r.consumption_total ≡ total a (sum_axis0 a C.width C.rows))
          × All (IsBalancedIteration a) r.iterations
    unfolding key_result demand
    run_simulation-balances key C VA names g gv h =
        let (production, first, rest, found, e, casc) =
          run_simulation-IsCascade a x key C VA names g gv h in
        rw e (
          cascade_total C production none first rest casc,
          casc.0.consumption_sum ∙ ap (λ m. total a (sum_axis0 a C.width m)) casc.0.meets,
          All-balanced C production none (first ∷ rest) casc,
        )

  -- Every name of the run has a percentage in every iteration of the key.
  abbrev pub Covers : List Text → List (SimulationConsumerInput Num) → Type 0
  Covers names cs = All (λ name. is_some (pct_of a name cs) ≡ true) names

  pcts_total :
      (number : ℕ) (cs : List (SimulationConsumerInput Num)) (names : List Text)
      → Covers names cs
      → (ps : List (Text × Num)) × (pcts a number cs names ≡ ok ps)
  unfolding pcts
  pcts_total number cs [] h = ([], refl)
  pcts_total number cs (name ∷ names) h = elim (Option-cases (pct_of a name cs)) [
    | inl e ↦ absurd (ground arith)
    | inr (p, e) ↦
        let (ps, found) = pcts_total number cs names h.1 in ((name, p) ∷ ps, ground arith)
  ]

  run_iterations_total :
      (C : Grid a) (production : Series a) (ws : Matrix a) (names : List Text)
      (its : List (SimulationIterationInput Num)) (prev : Option (Carry a))
      → All (λ it. Covers names it.consumers) its
      → (rs : List (IterationSimResult Num)) × (run_iterations a C production ws names its prev
          ≡ ok rs)
        × (length rs ≡ length its)
  unfolding run_iterations
  run_iterations_total C production ws names [] prev h = ([], refl, refl)
  run_iterations_total C production ws names (it ∷ its) prev h =
      let (ps, found) = pcts_total it.number it.consumers names h.0 in
      let r = run_iteration a C production ws it prev ps in
      let (rs, ran, n) = run_iterations_total C production ws names its (some (carry_of a r)) h.1 in
      (r ∷ rs, rw (found, ran), ap suc n)

  -- The inputs that `run_simulation` accepts: at least one iteration and one name, a row of
  -- consumption for each name, a production row of the same timesteps, and a percentage for every
  -- name in every iteration.
  pub record IsRunnable (key : SimulationKeyInput Num) (C VA : Grid a) (names : List Text)
      : Type 0 where
    pub iterates : is_empty key.iterations ≡ false
    pub named : is_empty names ≡ false
    pub rows : length C.rows ≡ length names
    pub same_width : VA.width ≡ C.width
    pub produces : is_empty VA.rows ≡ false
    pub covers : All (λ it. Covers names it.consumers) key.iterations

  production_total :
      (C : Grid a) (width : ℕ) (rows : Matrix a)
      → width ≡ C.width
      → is_empty rows ≡ false
      → (p : Series a) × (production_rows a (width == C.width) rows ≡ ok p)
  production_total C width [] h e = absurd (ground arith)
  production_total C width (row ∷ rows) h e = (row, ground arith)

  finish_total :
      (key : SimulationKeyInput Num) (rs : List (IterationSimResult Num))
      → length rs ≡ length key.iterations
      → is_empty key.iterations ≡ false
      → (r : KeySimResult Num) × (finish a key rs ≡ ok r)
        × (length r.iterations ≡ length key.iterations)
  unfolding key_result
  finish_total key (first ∷ rest) h e = (key_result a key first rest, refl, h)
  finish_total key [] h e = absurd (grind arith)

  -- Such inputs have a result, with one entry for each iteration of the key.
  pub run_simulation_total :
      (key : SimulationKeyInput Num) (C VA : Grid a) (names : List Text)
      → IsRunnable key C VA names
      → (r : KeySimResult Num) × (run_simulation a key C VA names ≡ ok r)
        × (length r.iterations ≡ length key.iterations)
  unfolding run_simulation
  run_simulation_total key C VA names h =
      let (p, found) = production_total C VA.width VA.rows h.same_width h.produces in
      let (rs, ran, n) =
        run_iterations_total C p (prorata_weights a C) names key.iterations none h.covers in
      let (r, done, m) = finish_total key rs n h.iterates in
      (r, rw (h.iterates, h.named, (==_iff _ _).1 h.rows, found, ran) done, m)
