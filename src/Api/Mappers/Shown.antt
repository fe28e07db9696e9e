-- ===== src/Api/Mappers/Shown.antt =====
-- What is shown of a finished run is what was computed, its iterations in the order of their
-- numbers.
use allocation_key_simulatio.Base.{
  ℕ, subst, sym, true, ◌≤◌, ◌≡◌, refl, ap, ◌∙◌, List, [], ◌∷◌, map, false, leb, ◌==◌, le→leb,
  leb→le, if◌then◌else◌, inl, inr, Bool-cases, arith,
}
use allocation_key_simulatio.Simulation.Outcome.{
  ConsumerSimResult, IterationSimResult, KeySimResult,
}
use allocation_key_simulatio.Shared.Models.{
  SimulationKeyResultModel, SimulationIterationResultModel,
}
use allocation_key_simulatio.Worker.Persistence.{build_consumer, build_iteration, build_key_result}
use allocation_key_simulatio.Api.Mappers.{
  ConsumerResult, IterationResult, KeyResult, to_consumer_result_schema, to_iteration_result_schema,
  insert_iteration, sorted_iterations, to_key_result_schema,
}

leb-false : (a b : ℕ) → leb a b ≡ false → b ≤ a
leb-false a b h = ground arith

other_number : (a b n : ℕ) → leb a b ≡ false → (b == n) ≡ true → (a == n) ≡ false
other_number a b n l e = ground arith

-- Ascending numbers, the first above `low` or equal.
abbrev pub IsAscending : ℕ → List ℕ → Type 0
IsAscending low [] = Unit
IsAscending low (n ∷ ns) = (low ≤ n) × IsAscending n ns

module _ {N : Type 0} where
  -- The scalars of the solver's result.
  unfoldable pub consumer_of : ConsumerSimResult N → ConsumerResult N
  consumer_of c = record {
    name = c.name;
    energy_allocated_percentage = c.energy_allocated_percentage;
    consumption_total = c.consumption_total;
    energy_allocated_total = c.energy_allocated_total;
    energy_allocated_consumed_total = c.energy_allocated_consumed_total;
    residual_volume_total = c.residual_volume_total;
    surplus_total = c.surplus_total;
  }

  unfoldable pub iteration_of : IterationSimResult N → IterationResult N
  iteration_of it = record {
    number = it.number;
    energy_allocated_percentage = it.energy_allocated_percentage;
    consumption_total = it.consumption_total;
    energy_allocated_total = it.energy_allocated_total;
    energy_allocated_consumed_total = it.energy_allocated_consumed_total;
    residual_volume_total = it.residual_volume_total;
    surplus_total = it.surplus_total;
    sharing_rate_total = it.sharing_rate_total;
    self_sufficiency_rate_total = it.self_sufficiency_rate_total;
    consumers = map consumer_of it.consumers;
  }

  unfoldable pub result_of : KeySimResult N → KeyResult N
  unfolding iteration_of consumer_of
  result_of r = record {
    name = r.name;
    description = r.description;
    consumption_total = r.consumption_total;
    energy_allocated_total = r.energy_allocated_total;
    energy_allocated_consumed_total = r.energy_allocated_consumed_total;
    residual_volume_total = r.residual_volume_total;
    surplus_total = r.surplus_total;
    self_sufficiency_rate_total = r.self_sufficiency_rate_total;
    sharing_rate_total = r.sharing_rate_total;
    iterations = map iteration_of r.iterations;
  }

  consumers-shown :
      (community : ℕ) (cs : List (ConsumerSimResult N))
      → map to_consumer_result_schema (map (build_consumer community) cs) ≡ map consumer_of cs
  unfolding to_consumer_result_schema build_consumer consumer_of
  consumers-shown community [] = refl
  consumers-shown community (c ∷ cs) =
      ap (λ (r : List (ConsumerResult N)). consumer_of c ∷ r) (consumers-shown community cs)

  iteration-shown :
      (community : ℕ) (it : IterationSimResult N)
      → to_iteration_result_schema (build_iteration community it) ≡ iteration_of it
  unfolding to_iteration_result_schema build_iteration iteration_of
  iteration-shown community it = rw (consumers-shown community it.consumers) refl

  iterations-shown :
      (community : ℕ) (its : List (IterationSimResult N))
      → map to_iteration_result_schema (map (build_iteration community) its) ≡ map iteration_of its
  iterations-shown community [] = refl
  iterations-shown community (it ∷ its) =
      rw (iteration-shown community it, iterations-shown community its) refl

  unfoldable pub numbers : List (IterationSimResult N) → List ℕ
  numbers its = map (λ it. it.number) its

  in_front :
      (community : ℕ) (it x : IterationSimResult N) (its : List (IterationSimResult N))
      → it.number ≤ x.number
      → insert_iteration (build_iteration community it) (map (build_iteration community) (x ∷ its))
        ≡ map (build_iteration community) (it ∷ x ∷ its)
  unfolding insert_iteration build_iteration
  in_front community it x its h = rw (le→leb it.number x.number h) refl

  sorted_already :
      (community low : ℕ) (its : List (IterationSimResult N))
      → IsAscending low (numbers its)
      → sorted_iterations (map (build_iteration community) its)
        ≡ map (build_iteration community) its
  unfolding sorted_iterations numbers
  sorted_already community low [] h = refl
  sorted_already community low (it ∷ []) h = unfold insert_iteration in refl
  sorted_already community low (it ∷ x ∷ its) h =
      rw (sorted_already community it.number (x ∷ its) h.1) (in_front community it x its h.1.0)

  -- What the API shows of a result tree that the worker stored is what the solver computed, field by
  -- field, where the iterations have ascending numbers.
  pub to_key_result_schema-build :
      (r : KeySimResult N) (simulation_id community_id : ℕ)
      → IsAscending 0 (numbers r.iterations)
      → to_key_result_schema (build_key_result r simulation_id community_id) ≡ result_of r
  unfolding to_key_result_schema build_key_result result_of
  to_key_result_schema-build r simulation_id community_id h =
      rw (sorted_already community_id 0 r.iterations h, iterations-shown community_id r.iterations)
        refl

  unfoldable pub model_numbers : List (SimulationIterationResultModel N) → List ℕ
  model_numbers its = map (λ it. it.number) its

  -- The iterations of a number, in order: the stored ones, and the shown ones.
  unfoldable pub stored_with :
      ℕ → List (SimulationIterationResultModel N) → List (SimulationIterationResultModel N)
  stored_with n [] = []
  stored_with n (it ∷ its) =
      let rest = stored_with n its in if it.number == n then it ∷ rest else rest

  unfoldable pub shown_with : ℕ → List (IterationResult N) → List (IterationResult N)
  shown_with n [] = []
  shown_with n (it ∷ its) =
      let rest = shown_with n its in if it.number == n then it ∷ rest else rest

  insert-IsAscending :
      (low : ℕ) (it : SimulationIterationResultModel N)
      (xs : List (SimulationIterationResultModel N))
      → low ≤ it.number
      → IsAscending low (model_numbers xs)
      → IsAscending low (model_numbers (insert_iteration it xs))
  unfolding insert_iteration model_numbers
  insert-IsAscending low it [] l h = (l, tt)
  insert-IsAscending low it (x ∷ xs) l (p, h) = elim (Bool-cases (leb it.number x.number)) [
    | inl t ↦ rw t (l, (leb→le it.number x.number t, h))
    | inr f ↦
        rw f
          (p, insert-IsAscending x.number it xs (omega (arith, leb-false it.number x.number f)) h)
  ]

  insert-stored_with :
      (n : ℕ) (it : SimulationIterationResultModel N) (xs : List (SimulationIterationResultModel N))
      → stored_with n (insert_iteration it xs) ≡ stored_with n (it ∷ xs)
  unfolding insert_iteration stored_with
  insert-stored_with n it [] = refl
  insert-stored_with n it (x ∷ xs) =
      let ih = insert-stored_with n it xs in
      elim (Bool-cases (leb it.number x.number)) [
        | inl t ↦ rw t refl
        | inr f ↦ rw f (elim (Bool-cases (x.number == n)) [
          | inl p ↦ let q = other_number it.number x.number n f p in rw (p, ih, q) refl
          | inr p ↦ rw (p, ih) refl
        ])
      ]

  sorted_iterations-stored_with :
      (n : ℕ) (its : List (SimulationIterationResultModel N))
      → stored_with n (sorted_iterations its) ≡ stored_with n its
  unfolding sorted_iterations stored_with
  sorted_iterations-stored_with n [] = refl
  sorted_iterations-stored_with n (it ∷ its) =
      insert-stored_with n it (sorted_iterations its)
      ∙ rw (sorted_iterations-stored_with n its) refl

  shown_with-map :
      (n : ℕ) (its : List (SimulationIterationResultModel N))
      → shown_with n (map to_iteration_result_schema its)
        ≡ map to_iteration_result_schema (stored_with n its)
  unfolding shown_with stored_with to_iteration_result_schema
  shown_with-map n [] = refl
  shown_with-map n (it ∷ its) =
      let ih = shown_with-map n its in
      elim (Bool-cases (it.number == n)) [ inl t ↦ rw (t, ih) refl | inr f ↦ rw (f, ih) refl ]

  sorted_iterations-IsAscending :
      (its : List (SimulationIterationResultModel N))
      → IsAscending 0 (model_numbers (sorted_iterations its))
  unfolding sorted_iterations model_numbers
  sorted_iterations-IsAscending [] = tt
  sorted_iterations-IsAscending (it ∷ its) =
      insert-IsAscending 0 it (sorted_iterations its) (omega arith)
        (sorted_iterations-IsAscending its)

  unfoldable pub shown_numbers : List (IterationResult N) → List ℕ
  shown_numbers its = map (λ it. it.number) its

  shown_numbers-map :
      (its : List (SimulationIterationResultModel N))
      → shown_numbers (map to_iteration_result_schema its) ≡ model_numbers its
  unfolding shown_numbers model_numbers to_iteration_result_schema
  shown_numbers-map [] = refl
  shown_numbers-map (it ∷ its) = ap (λ (ns : List ℕ). it.number ∷ ns) (shown_numbers-map its)

  -- What is shown of a stored result tree has its iterations in ascending order of their numbers,
  -- and shows for each number exactly the stored iterations of that number, whole and in the order
  -- in which they were stored.
  pub to_key_result_schema-IsAscending :
      (k : SimulationKeyResultModel N)
      → IsAscending 0 (shown_numbers (to_key_result_schema k).iterations)
        × ((n : ℕ)
            → shown_with n (to_key_result_schema k).iterations
              ≡ map to_iteration_result_schema (stored_with n k.iterations))
  unfolding to_key_result_schema
  to_key_result_schema-IsAscending k = (
    subst (IsAscending 0) (sym (shown_numbers-map (sorted_iterations k.iterations)))
        (sorted_iterations-IsAscending k.iterations),
    λ n.
        shown_with-map n (sorted_iterations k.iterations)
        ∙ ap (map to_iteration_result_schema) (sorted_iterations-stored_with n k.iterations),
  )
