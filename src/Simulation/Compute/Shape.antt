-- ===== src/Simulation/Compute/Shape.antt =====
-- The shapes of the solver's arrays, and what a successful run went through.
use allocation_key_simulatio.Base.{
  ℕ, ◌≡◌, Text, List, [], ◌∷◌, map, none, inl, inr, arith, length, is_empty, ◌==◌, ok, >>=-eq-ok,
  if-raised-eq-ok, not, length-replicate, Bool-cases, Option-cases,
}
use allocation_key_simulatio.Simulation.Number.{Arith}
use allocation_key_simulatio.Simulation.Inputs.{SimulationConsumerInput, SimulationKeyInput}
use allocation_key_simulatio.Simulation.Outcome.{IterationSimResult, KeySimResult}
use allocation_key_simulatio.Simulation.Series.{Series, Matrix}
use allocation_key_simulatio.Simulation.Series.Sums.{IsWide}
use allocation_key_simulatio.Simulation.Compute.{
  Grid, pct_of, pcts, multiplier, prorata_weights, production_of, run_iterations, key_result,
  finish, run_simulation,
}

module _ (a : Arith) where
  open a use {Num}

  -- Percentages are found for the names asked for, in their order.
  pub pcts-names :
      (number : ℕ) (cs : List (SimulationConsumerInput Num)) (names : List Text)
      (ps : List (Text × Num))
      → pcts a number cs names ≡ ok ps
      → map (λ p. p.0) ps ≡ names
  unfolding pcts
  pcts-names number cs [] ps h = ground arith
  pcts-names number cs (name ∷ names) ps h = elim (Option-cases (pct_of a name cs)) [
    | inl e ↦ ground arith
    | inr (p, e) ↦
        let (qs, found, same) = >>=-eq-ok (pcts a number cs names) _ (rw (e, pcts) at h) in
        ground (arith, pcts-names number cs names qs found)
  ]

  -- A percentage, a row of weights and a row of consumption for each consumer, of `t` timesteps.
  abbrev pub IsAligned : ℕ → List (Text × Num) → Matrix a → Matrix a → Type 0
  IsAligned t [] [] [] = Unit
  IsAligned t (p ∷ ps) (w ∷ ws) (c ∷ cs) = (length w ≡ t) × (length c ≡ t) × IsAligned t ps ws cs
  IsAligned t _ _ _ = ⊥

  pub IsAligned-of_length :
      (t : ℕ) (ps : List (Text × Num)) (ws cs : Matrix a)
      → length ws ≡ length ps
      → length cs ≡ length ps
      → IsWide t ws
      → IsWide t cs
      → IsAligned t ps ws cs
  IsAligned-of_length t [] [] [] hw hc ww wc = tt
  IsAligned-of_length t [] (w ∷ ws) cs hw hc ww wc = absurd (omega arith)
  IsAligned-of_length t [] [] (c ∷ cs) hw hc ww wc = absurd (omega arith)
  IsAligned-of_length t (p ∷ ps) [] cs hw hc ww wc = absurd (omega arith)
  IsAligned-of_length t (p ∷ ps) (w ∷ ws) [] hw hc ww wc = absurd (omega arith)
  IsAligned-of_length t (p ∷ ps) (w ∷ ws) (c ∷ cs) hw hc ww wc =
      (ww.0, wc.0, IsAligned-of_length t ps ws cs (omega arith) (omega arith) ww.1 wc.1)

  pub length-multiplier :
      (t : ℕ) (pct : Num) (w : Series a) → length w ≡ t → length (multiplier a t pct w) ≡ t
  unfolding multiplier
  length-multiplier t pct w h = elim (Bool-cases (a.less a.minus_one pct)) [
    | inl e ↦ rw e (length-replicate t pct)
    | inr e ↦ rw e h
  ]

  -- What run_simulation has gone through when it returns a result.
  pub run_simulation-ok :
      (key : SimulationKeyInput Num) (C VA : Grid a) (names : List Text) {r : KeySimResult Num}
      → run_simulation a key C VA names ≡ ok r
      → (production : Series a) × (first : IterationSimResult Num) × (rest : List
          (IterationSimResult Num))
        × (production_of a C VA ≡ ok production)
        × (run_iterations a C production (prorata_weights a C) names key.iterations none
            ≡ ok (first ∷ rest))
        × (r ≡ key_result a key first rest)
        × (length C.rows ≡ length names)
  unfolding run_simulation
  run_simulation-ok key C VA names {r} h =
      let (some_iteration, h1) = if-raised-eq-ok (is_empty key.iterations) _ _ h in
      let (some_name, h2) = if-raised-eq-ok (is_empty names) _ _ h1 in
      let (same_rows, h3) = if-raised-eq-ok (not (length C.rows == length names)) _ _ h2 in
      let (production, found, h4) = >>=-eq-ok (production_of a C VA) _ h3 in
      let (results, ran, h5) = >>=-eq-ok _ _ h4 in
      run_simulation-ok_results production results found ran h5 (ground arith)
    where
      run_simulation-ok_results :
          (production : Series a) (results : List (IterationSimResult Num))
          → production_of a C VA ≡ ok production
          → run_iterations a C production (prorata_weights a C) names key.iterations none
            ≡ ok results
          → finish a key results ≡ ok r
          → length C.rows ≡ length names
          → (production : Series a) × (first : IterationSimResult Num) × (rest : List
              (IterationSimResult Num))
            × (production_of a C VA ≡ ok production)
            × (run_iterations a C production (prorata_weights a C) names key.iterations none
                ≡ ok (first ∷ rest))
            × (r ≡ key_result a key first rest)
            × (length C.rows ≡ length names)
      run_simulation-ok_results production [] found ran done rows = cc
      run_simulation-ok_results production (first ∷ rest) found ran done rows =
          (production, first, rest, found, ran, ground arith, rows)
