-- ===== src/Simulation/Inputs.antt =====
-- The allocation key as the solver reads it (simulation/inputs.py) and its mapping from the CRM's
-- tree (simulation/key_mapping.py). `N` is the type of the float fields.
use allocation_key_simulatio.Base.{ℕ, Text, List, [], ◌∷◌, map, true, false, leb}

pub record SimulationConsumerInput (N : Type 0) : Type 0 where
  pub name : Text
  pub energy_allocated_percentage : N

pub record SimulationIterationInput (N : Type 0) : Type 0 where
  pub number : ℕ
  pub energy_allocated_percentage : N
  pub consumers : List (SimulationConsumerInput N)

pub record SimulationKeyInput (N : Type 0) : Type 0 where
  pub name : Text
  pub description : Text
  pub iterations : List (SimulationIterationInput N)

-- The CRM's rows, of which the mapping reads these columns (shared/models/crm_models.py).
pub record ConsumerModel (N : Type 0) : Type 0 where
  pub name : Text
  pub energy_allocated_percentage : N

pub record IterationModel (N : Type 0) : Type 0 where
  pub number : ℕ
  pub energy_allocated_percentage : N
  pub consumers : List (ConsumerModel N)

pub record AllocationKeyModel (N : Type 0) : Type 0 where
  pub id : ℕ
  pub id_community : ℕ
  pub name : Text
  pub description : Text
  pub iterations : List (IterationModel N)

-- Python's `sorted`, which is stable: a row goes before the later rows of an equal number.
unfoldable pub insert_by {ℓ} : {A : Type ℓ} → (A → ℕ) → A → List A → List A
insert_by key x [] = x ∷ []
insert_by key x (y ∷ ys) =
    let rest = insert_by key x ys in
    elim (leb (key x) (key y)) [ true ↦ x ∷ y ∷ ys | false ↦ y ∷ rest ]

unfoldable pub sorted {ℓ} : {A : Type ℓ} → (A → ℕ) → List A → List A
sorted key [] = []
sorted key (x ∷ xs) = insert_by key x (sorted key xs)

module _ {N : Type 0} where
  consumer_input : ConsumerModel N → SimulationConsumerInput N
  consumer_input c = record {
    name = c.name;
    energy_allocated_percentage = c.energy_allocated_percentage;
  }

  iteration_input : IterationModel N → SimulationIterationInput N
  iteration_input it = record {
    number = it.number;
    energy_allocated_percentage = it.energy_allocated_percentage;
    consumers = map consumer_input it.consumers;
  }

  unfoldable pub from_crm_allocation_key : AllocationKeyModel N → SimulationKeyInput N
  unfolding iteration_input consumer_input
  from_crm_allocation_key key = record {
    name = key.name;
    description = key.description;
    iterations = map iteration_input (sorted (λ it. it.number) key.iterations);
  }

  names_of_first : List (SimulationIterationInput N) → List Text
  names_of_first [] = []
  names_of_first (it ∷ rest) = map (λ c. c.name) it.consumers

  unfoldable pub consumer_names_of : SimulationKeyInput N → List Text
  unfolding names_of_first
  consumer_names_of key = names_of_first key.iterations
