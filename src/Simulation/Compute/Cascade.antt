-- ===== src/Simulation/Compute/Cascade.antt =====
-- The loop over the iterations: each meets the demand that the one before left, and shares what it
-- left over. The energy of the whole key balances.
use allocation_key_simulatio.Base.{
  ℕ, ◌≡◌, refl, sym, ap, ◌∙◌, Text, List, [], ◌∷◌, map, none, some, Option, arith, length,
  length-map, ok, ◌==◌, >>=-eq-ok, ok-injective, subst,
}
use allocation_key_simulatio.Simulation.Number.{Arith, IsExact}
use allocation_key_simulatio.Simulation.Inputs.{SimulationIterationInput, SimulationKeyInput}
use allocation_key_simulatio.Simulation.Outcome.{IterationSimResult, KeySimResult}
use allocation_key_simulatio.Simulation.Series.{Series, Matrix, total, sum_axis0, safe_divide}
use allocation_key_simulatio.Simulation.Series.Sums.{IsWide, length-zip_with, length-sum_axis0}
use allocation_key_simulatio.Simulation.Compute.{
  Grid, Carry, pcts, consumer_result, consumers_out, available, demand, iteration_result, carry_of,
  run_iteration, run_iterations, prorata_weights, production_of, production_rows, key_result,
  run_simulation,
}
use allocation_key_simulatio.Simulation.Compute.Shape.{
  IsAligned, IsAligned-of_length, pcts-names, run_simulation-ok,
}
use allocation_key_simulatio.Simulation.Compute.Balance.{
  IsBalancedIteration, IsWide-map, consumers_out-IsBalanced, consumers_out-IsWideResult,
  iteration_result-IsBalanced,
}

module _ (a : Arith) where
  open a use {Num, ◌⊕◌}

  infixl 65 ◌⊕◌
  -- An array as numpy makes them: every row has the declared width.
  abbrev pub IsGrid : Grid a → Type 0
  IsGrid g = IsWide g.width g.rows

  abbrev pub IsFit : ℕ → ℕ → Option (Carry a) → Type 0
  IsFit t n none = Unit
  IsFit t n (some c) =
      IsWide t c.residual_matrix × (length c.residual_matrix ≡ n) × (length c.surplus_series ≡ t)

  -- How an iteration's result `r` hangs on what came before it, `prev`: its consumers have the
  -- demand that was left, its production is its share of the injection and what was left over,
  -- and its aggregates are the sums over its consumers.
  pub record IsStage (C : Grid a) (production : Series a) (prev : Option (Carry a))
      (r : IterationSimResult Num) : Type 0 where
    pub balanced : IsBalancedIteration a r
    pub meets : map (λ c. c.consumption) r.consumers ≡ demand a C.rows prev
    pub shares : r.energy_allocated ≡ available a production r.energy_allocated_percentage prev
    pub consumption_sum :
        r.consumption_total ≡ total a (sum_axis0 a C.width (map (λ c. c.consumption) r.consumers))
    pub residual_sum :
        r.residual_volume_total
        ≡ total a (sum_axis0 a C.width (map (λ c. c.residual_volume) r.consumers))
    pub consumption : r.consumption ≡ sum_axis0 a C.width (map (λ c. c.consumption) r.consumers)
    pub consumed :
        r.energy_allocated_consumed
        ≡ sum_axis0 a C.width (map (λ c. c.energy_allocated_consumed) r.consumers)
    pub residual :
        r.residual_volume ≡ sum_axis0 a C.width (map (λ c. c.residual_volume) r.consumers)
    pub surplus : r.surplus ≡ sum_axis0 a C.width (map (λ c. c.surplus) r.consumers)
    pub allocated_total : r.energy_allocated_total ≡ total a r.energy_allocated
    pub consumed_total : r.energy_allocated_consumed_total ≡ total a r.energy_allocated_consumed
    pub surplus_total : r.surplus_total ≡ total a r.surplus

  abbrev pub IsCascade :
      Grid a → Series a → Option (Carry a) → List (IterationSimResult Num) → Type 0
  IsCascade C production prev [] = Unit
  IsCascade C production prev (r ∷ rs) =
      IsStage C production prev r × IsCascade C production (some (carry_of a r)) rs

  map-consumption :
      (t : ℕ) (va : Series a) (ps : List (Text × Num)) (ws cs : Matrix a)
      → IsAligned a t ps ws cs
      → map (λ c. c.consumption) (consumers_out a t va ps ws cs) ≡ cs
  unfolding consumers_out consumer_result
  map-consumption t va [] [] [] h = refl
  map-consumption t va [] [] (c ∷ cs) h = absurd h
  map-consumption t va [] (w ∷ ws) cs h = absurd h
  map-consumption t va (p ∷ ps) [] cs h = absurd h
  map-consumption t va (p ∷ ps) (w ∷ ws) [] h = absurd h
  map-consumption t va (p ∷ ps) (w ∷ ws) (c ∷ cs) (hw, hc, h) =
      ap (λ l. c ∷ l) (map-consumption t va ps ws cs h)

  IsWide-demand :
      (C : Grid a) (n : ℕ) (prev : Option (Carry a))
      → IsGrid C
      → length C.rows ≡ n
      → IsFit C.width n prev
      → IsWide C.width (demand a C.rows prev) × (length (demand a C.rows prev) ≡ n)
  unfolding demand
  IsWide-demand C n none g rows fit = (g, rows)
  IsWide-demand C n (some c) g rows fit = (fit.0, fit.1)

  length-available :
      (t n : ℕ) (production : Series a) (pct : Num) (prev : Option (Carry a))
      → length production ≡ t
      → IsFit t n prev
      → length (available a production pct prev) ≡ t
  unfolding available
  length-available t n production pct none h fit = length-map _ production ∙ h
  length-available t n production pct (some c) h fit =
      length-zip_with ◌⊕◌ t _ _ (length-map _ production ∙ h) fit.2

  length-consumers_out :
      (t : ℕ) (va : Series a) (ps : List (Text × Num)) (ws cs : Matrix a)
      → IsAligned a t ps ws cs
      → length (consumers_out a t va ps ws cs) ≡ length cs
  length-consumers_out t va ps ws cs h =
      sym (length-map (λ c. c.consumption) (consumers_out a t va ps ws cs))
      ∙ ap length (map-consumption t va ps ws cs h)

  module _ (x : IsExact a) where
    run_iteration-IsStage :
        (C : Grid a) (n : ℕ) (production : Series a) (ws : Matrix a)
        (it : SimulationIterationInput Num) (prev : Option (Carry a)) (ps : List (Text × Num))
        → length production ≡ C.width
        → IsFit C.width n prev
        → IsAligned a C.width ps ws (demand a C.rows prev)
        → IsStage C production prev (run_iteration a C production ws it prev ps)
    unfolding run_iteration iteration_result
    run_iteration-IsStage C n production ws it prev ps hp fit al =
        let va = available a production it.energy_allocated_percentage prev in
        let hva : length va ≡ C.width = length-available C.width n production _ prev hp fit in
        record {
          balanced =
              iteration_result-IsBalanced a x C.width it.number _ va _
                (consumers_out-IsBalanced a x C.width va ps ws _ hva al)
                (consumers_out-IsWideResult a C.width va ps ws _ hva al);
          meets = map-consumption C.width va ps ws _ al;
          shares = refl;
          consumption_sum = refl;
          residual_sum = refl;
          consumption = refl;
          consumed = refl;
          residual = refl;
          surplus = refl;
          allocated_total = refl;
          consumed_total = refl;
          surplus_total = refl;
        }

    run_iteration-IsFit :
        (C : Grid a) (n : ℕ) (production : Series a) (ws : Matrix a)
        (it : SimulationIterationInput Num) (prev : Option (Carry a)) (ps : List (Text × Num))
        → length production ≡ C.width
        → IsFit C.width n prev
        → length (demand a C.rows prev) ≡ n
        → IsAligned a C.width ps ws (demand a C.rows prev)
        → IsFit C.width n (some (carry_of a (run_iteration a C production ws it prev ps)))
    unfolding run_iteration iteration_result carry_of
    run_iteration-IsFit C n production ws it prev ps hp fit hd al =
        let va = available a production it.energy_allocated_percentage prev in
        let wide =
          consumers_out-IsWideResult a C.width va ps ws _
            (length-available C.width n production it.energy_allocated_percentage prev hp fit) al in
        (
          IsWide-map a (λ c. c.residual_volume) C.width _ (λ c k. k.wide_residual) wide,
          length-map _ (consumers_out a C.width va ps ws (demand a C.rows prev))
              ∙ length-consumers_out C.width va ps ws (demand a C.rows prev) al
              ∙ hd,
          length-sum_axis0 a x C.width _
              (IsWide-map a (λ c. c.surplus) C.width _ (λ c k. k.wide_surplus) wide),
        )

    pub run_iterations-IsCascade :
        (C : Grid a) (production : Series a) (ws : Matrix a) (names : List Text)
        → IsGrid C
        → length C.rows ≡ length names
        → length production ≡ C.width
        → IsWide C.width ws
        → length ws ≡ length names
        → (its : List (SimulationIterationInput Num)) (prev : Option (Carry a))
          (rs : List (IterationSimResult Num))
        → IsFit C.width (length names) prev
        → run_iterations a C production ws names its prev ≡ ok rs
        → IsCascade C production prev rs
    unfolding run_iterations
    run_iterations-IsCascade C production ws names g hr hp ww hw [] prev [] fit h = tt
    run_iterations-IsCascade C production ws names g hr hp ww hw [] prev (r ∷ rs) fit h = cc
    run_iterations-IsCascade C production ws names g hr hp ww hw (it ∷ its) prev rs fit h =
        let (ps, found, h1) = >>=-eq-ok (pcts a it.number it.consumers names) _ h in
        let (rest, ran, h2) = >>=-eq-ok _ _ h1 in
        let (wd, ld) = IsWide-demand C (length names) prev g hr fit in
        let lp : length ps ≡ length names =
          sym (length-map (λ p. p.0) ps)
          ∙ ap length (pcts-names a it.number it.consumers names ps found) in
        let al =
          IsAligned-of_length a C.width ps ws (demand a C.rows prev) (hw ∙ sym lp) (ld ∙ sym lp) ww
            wd in
        let fit' = run_iteration-IsFit C (length names) production ws it prev ps hp fit ld al in
        let r = run_iteration a C production ws it prev ps in
        subst (IsCascade C production prev) {x = r ∷ rest} (ok-injective h2) (
          run_iteration-IsStage C (length names) production ws it prev ps hp fit al,
          run_iterations-IsCascade C production ws names g hr hp ww hw its (some (carry_of a r))
              rest fit' ran,
        )

    IsWide-prorata :
        (t : ℕ) (sums : Series a) (rows : Matrix a)
        → length sums ≡ t
        → IsWide t rows
        → IsWide t (map (λ row. safe_divide a row sums) rows)
    IsWide-prorata t sums [] hs h = tt
    IsWide-prorata t sums (row ∷ rows) hs h =
        (length-zip_with _ t row sums h.0 hs, IsWide-prorata t sums rows hs h.1)

    length-production :
        (C VA : Grid a) (production : Series a)
        → IsGrid VA
        → production_of a C VA ≡ ok production
        → length production ≡ C.width
    length-production C VA production g h = go VA.rows g h
      where
        go :
            (rows : Matrix a)
            → IsWide VA.width rows
            → production_rows a (VA.width == C.width) rows ≡ ok production
            → length production ≡ C.width
        go [] w e = cc
        go (row ∷ rows) w e = ground arith

    -- A successful run is such a cascade, over the first row of VA.
    pub run_simulation-IsCascade :
        (key : SimulationKeyInput Num) (C VA : Grid a) (names : List Text) {r : KeySimResult Num}
        → IsGrid C
        → IsGrid VA
        → run_simulation a key C VA names ≡ ok r
        → (production : Series a) × (first : IterationSimResult Num) × (rest : List
            (IterationSimResult Num))
          × (production_of a C VA ≡ ok production)
          × (r ≡ key_result a key first rest)
          × IsCascade C production none (first ∷ rest)
    unfolding prorata_weights
    run_simulation-IsCascade key C VA names g gv h =
        let (production, first, rest, found, ran, e, rows) = run_simulation-ok a key C VA names h in
        let sums = sum_axis0 a C.width C.rows in
        (
          production,
          first,
          rest,
          found,
          e,
          run_iterations-IsCascade C production (prorata_weights a C) names g rows
              (length-production C VA production gv found)
              (IsWide-prorata C.width sums C.rows (length-sum_axis0 a x C.width C.rows g) g)
              (length-map _ C.rows ∙ rows) key.iterations none (first ∷ rest) tt ran,
        )
