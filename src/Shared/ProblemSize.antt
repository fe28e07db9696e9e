-- ===== src/Shared/ProblemSize.antt =====
-- How large a simulation may be (shared/problem_size.py).
use allocation_key_simulatio.Base.{
  ℕ, ◌*◌, ◌≤◌, ◌≡◌, ◌↔◌, Text, codes, show, ◌++◌, Option, none, some, leb, if◌then◌else◌, arith,
}

abbrev pub max_simulation_cells : ℕ
max_simulation_cells = 5000000

unfoldable pub too_large_detail : ℕ → ℕ → ℕ → Text
too_large_detail participants timesteps iterations =
    show participants
    ++ codes " participants x "
    ++ show timesteps
    ++ codes " timesteps x "
    ++ show iterations
    ++ codes " iterations = "
    ++ show (participants * timesteps * iterations)
    ++ codes " cells exceed the "
    ++ show max_simulation_cells
    ++ codes " limit; shorten the period, or simulate a key with fewer participants or iterations"

unfoldable pub too_large : ℕ → ℕ → ℕ → Option Text
too_large participants timesteps iterations =
    let cells = participants * timesteps * iterations in
    if leb cells max_simulation_cells
    then none
    else some (too_large_detail participants timesteps iterations)

pub too_large-none : (p t i : ℕ) → (too_large p t i ≡ none) ↔ (p * t * i ≤ max_simulation_cells)
unfolding too_large
too_large-none p t i = (λ h. ground arith, λ h. ground arith)
