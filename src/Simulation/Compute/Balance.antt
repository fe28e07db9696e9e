-- ===== src/Simulation/Compute/Balance.antt =====
-- The energy balance of one consumer, and of one iteration over its consumers.
use allocation_key_simulatio.Base.{
  ℕ, zero, suc, ◌≡◌, refl, sym, ap, ap₂, ◌∙◌, Text, List, [], ◌∷◌, map, arith, length, zip_with,
  All, length-map,
}
use allocation_key_simulatio.Simulation.Number.{Arith, IsExact}
use allocation_key_simulatio.Simulation.Outcome.{ConsumerSimResult, IterationSimResult}
use allocation_key_simulatio.Simulation.Series.{Series, Matrix, relu, plus, minus, total, sum_axis0}
use allocation_key_simulatio.Simulation.Series.Sums.{
  IsWide, length-zip_with, length-sum_axis0, sum_axis0-plus, total-plus,
}
use allocation_key_simulatio.Simulation.Compute.{consumer_result, consumers_out, iteration_result}
use allocation_key_simulatio.Simulation.Compute.Cell.{minimum-add-relu, minimum-add-relu_right}
use allocation_key_simulatio.Simulation.Compute.Shape.{IsAligned, length-multiplier}

module _ (a : Arith) where
  open a use {Num, ◌⊕◌, ◌⊗◌, ◌⊖◌, minimum}

  infixl 65 ◌⊕◌
  -- What a consumer takes and what it lacks make its consumption; what it takes and what it
  -- leaves make its allocation: at every timestep, and in total.
  pub record IsBalanced (c : ConsumerSimResult Num) : Type 0 where
    pub demand_split : plus a c.energy_allocated_consumed c.residual_volume ≡ c.consumption
    pub supply_split : plus a c.energy_allocated_consumed c.surplus ≡ c.energy_allocated
    pub demand_total :
        c.energy_allocated_consumed_total ⊕ c.residual_volume_total ≡ c.consumption_total
    pub supply_total :
        c.energy_allocated_consumed_total ⊕ c.surplus_total ≡ c.energy_allocated_total

  -- The same of the sums over an iteration's consumers.
  pub record IsBalancedIteration (r : IterationSimResult Num) : Type 0 where
    pub each_consumer : All IsBalanced r.consumers
    pub demand_split : plus a r.energy_allocated_consumed r.residual_volume ≡ r.consumption
    pub demand_total :
        r.energy_allocated_consumed_total ⊕ r.residual_volume_total ≡ r.consumption_total

  module _ (x : IsExact a) where
    pub minimum-plus-relu :
        (t : ℕ) (ps qs : Series a)
        → length ps ≡ t
        → length qs ≡ t
        → plus a (zip_with minimum ps qs) (relu a (minus a ps qs)) ≡ ps
    minimum-plus-relu t [] qs hp hq = refl
    minimum-plus-relu t (p ∷ ps) [] hp hq = absurd (omega arith)
    minimum-plus-relu zero (p ∷ ps) (q ∷ qs) hp hq = absurd (omega arith)
    minimum-plus-relu (suc t) (p ∷ ps) (q ∷ qs) hp hq =
        ap₂ ◌∷◌ (minimum-add-relu a x p q) (minimum-plus-relu t ps qs (omega arith) (omega arith))

    pub minimum-plus-relu_right :
        (t : ℕ) (ps qs : Series a)
        → length ps ≡ t
        → length qs ≡ t
        → plus a (zip_with minimum ps qs) (relu a (minus a qs ps)) ≡ qs
    minimum-plus-relu_right t [] [] hp hq = refl
    minimum-plus-relu_right t [] (q ∷ qs) hp hq = absurd (omega arith)
    minimum-plus-relu_right t (p ∷ ps) [] hp hq = absurd (omega arith)
    minimum-plus-relu_right zero (p ∷ ps) (q ∷ qs) hp hq = absurd (omega arith)
    minimum-plus-relu_right (suc t) (p ∷ ps) (q ∷ qs) hp hq =
        ap₂ ◌∷◌ (minimum-add-relu_right a x p q)
          (minimum-plus-relu_right t ps qs (omega arith) (omega arith))

  length-relu-minus :
      (t : ℕ) (ps qs : Series a)
      → length ps ≡ t
      → length qs ≡ t
      → length (relu a (minus a ps qs)) ≡ t
  length-relu-minus t ps qs hp hq = length-map _ (minus a ps qs) ∙ length-zip_with ◌⊖◌ t ps qs hp hq

  -- The series of a consumer all have the timesteps of the iteration.
  pub record IsWideResult (t : ℕ) (c : ConsumerSimResult Num) : Type 0 where
    pub wide_consumption : length c.consumption ≡ t
    pub wide_consumed : length c.energy_allocated_consumed ≡ t
    pub wide_residual : length c.residual_volume ≡ t
    pub wide_surplus : length c.surplus ≡ t

  pub consumer_result-IsWideResult :
      (t : ℕ) (name : Text) (pct : Num) (c al : Series a)
      → length c ≡ t
      → length al ≡ t
      → IsWideResult t (consumer_result a name pct c al)
  unfolding consumer_result
  consumer_result-IsWideResult t name pct c al hc hal = record {
    wide_consumption = hc;
    wide_consumed = length-zip_with minimum t c al hc hal;
    wide_residual = length-relu-minus t c al hc hal;
    wide_surplus = length-relu-minus t al c hal hc;
  }

  module _ (x : IsExact a) where
    pub consumer_result-IsBalanced :
        (t : ℕ) (name : Text) (pct : Num) (c al : Series a)
        → length c ≡ t
        → length al ≡ t
        → IsBalanced (consumer_result a name pct c al)
    unfolding consumer_result
    consumer_result-IsBalanced t name pct c al hc hal =
        let consumed : length (zip_with minimum c al) ≡ t = length-zip_with minimum t c al hc hal in
        record {
          demand_split = minimum-plus-relu x t c al hc hal;
          supply_split = minimum-plus-relu_right x t c al hc hal;
          demand_total =
              sym (total-plus a x t _ _ consumed (length-relu-minus t c al hc hal))
              ∙ ap (total a) (minimum-plus-relu x t c al hc hal);
          supply_total =
              sym (total-plus a x t _ _ consumed (length-relu-minus t al c hal hc))
              ∙ ap (total a) (minimum-plus-relu_right x t c al hc hal);
        }

    pub consumers_out-IsBalanced :
        (t : ℕ) (va : Series a) (ps : List (Text × Num)) (ws cs : Matrix a)
        → length va ≡ t
        → IsAligned a t ps ws cs
        → All IsBalanced (consumers_out a t va ps ws cs)
    unfolding consumers_out
    consumers_out-IsBalanced t va [] ws cs hva h = tt
    consumers_out-IsBalanced t va (p ∷ ps) [] cs hva h = tt
    consumers_out-IsBalanced t va (p ∷ ps) (w ∷ ws) [] hva h = tt
    consumers_out-IsBalanced t va (p ∷ ps) (w ∷ ws) (c ∷ cs) hva (hw, hc, h) = (
      consumer_result-IsBalanced t p.0 p.1 c _ hc
          (length-zip_with ◌⊗◌ t va _ hva (length-multiplier a t p.1 w hw)),
      consumers_out-IsBalanced t va ps ws cs hva h,
    )

  pub consumers_out-IsWideResult :
      (t : ℕ) (va : Series a) (ps : List (Text × Num)) (ws cs : Matrix a)
      → length va ≡ t
      → IsAligned a t ps ws cs
      → All (IsWideResult t) (consumers_out a t va ps ws cs)
  unfolding consumers_out
  consumers_out-IsWideResult t va [] ws cs hva h = tt
  consumers_out-IsWideResult t va (p ∷ ps) [] cs hva h = tt
  consumers_out-IsWideResult t va (p ∷ ps) (w ∷ ws) [] hva h = tt
  consumers_out-IsWideResult t va (p ∷ ps) (w ∷ ws) (c ∷ cs) hva (hw, hc, h) = (
    consumer_result-IsWideResult t p.0 p.1 c _ hc
        (length-zip_with ◌⊗◌ t va _ hva (length-multiplier a t p.1 w hw)),
    consumers_out-IsWideResult t va ps ws cs hva h,
  )

  pub IsWide-map :
      (f : ConsumerSimResult Num → Series a) (t : ℕ) (cs : List (ConsumerSimResult Num))
      → ((c : ConsumerSimResult Num) → IsWideResult t c → length (f c) ≡ t)
      → All (IsWideResult t) cs
      → IsWide t (map f cs)
  IsWide-map f t [] wide h = tt
  IsWide-map f t (c ∷ cs) wide h = (wide c h.0, IsWide-map f t cs wide h.1)

  pub All-demand_split :
      (cs : List (ConsumerSimResult Num))
      → All IsBalanced cs
      → All (λ c. plus a c.energy_allocated_consumed c.residual_volume ≡ c.consumption) cs
  All-demand_split [] h = tt
  All-demand_split (c ∷ cs) h = (h.0.demand_split, All-demand_split cs h.1)

  module _ (x : IsExact a) where
    pub iteration_result-IsBalanced :
        (t number : ℕ) (pct : Num) (va : Series a) (cs : List (ConsumerSimResult Num))
        → All IsBalanced cs
        → All (IsWideResult t) cs
        → IsBalancedIteration (iteration_result a t number pct va cs)
    unfolding iteration_result
    iteration_result-IsBalanced t number pct va cs h w = record {
      each_consumer = h;
      demand_split = split;
      demand_total =
          sym (
            total-plus a x t _ _
              (length-sum_axis0 a x t _
                (IsWide-map (λ c. c.energy_allocated_consumed) t cs (λ c k. k.wide_consumed) w))
              (length-sum_axis0 a x t _
                (IsWide-map (λ c. c.residual_volume) t cs (λ c k. k.wide_residual) w)))
          ∙ ap (total a) split;
    }
      where
        split :
            plus a
              (sum_axis0 a t (map (λ c. c.energy_allocated_consumed) cs))
              (sum_axis0 a t (map (λ c. c.residual_volume) cs))
            ≡ sum_axis0 a t (map (λ c. c.consumption) cs)
        split =
            sum_axis0-plus a x (λ c. c.energy_allocated_consumed) (λ c. c.residual_volume)
              (λ c. c.consumption) t cs (All-demand_split cs h)
