-- ===== src/Simulation/Series.antt =====
-- The array operations of the solver (simulation/compute.py, `_relu`, `_safe_divide`) on series,
-- lists with one number per timestep, and on matrices, lists with one series per consumer. numpy
-- works elementwise; `.sum()` is taken as a plain sum, whose order exact arithmetic does not see.
pub mod Sums
use allocation_key_simulatio.Base.{ℕ, List, [], ◌∷◌, map, zip_with, replicate, if◌then◌else◌}
use allocation_key_simulatio.Simulation.Number.{Arith}

module _ (a : Arith) where
  open a use {Num, nought, two, ◌⊕◌, ◌⊖◌, ◌⊗◌, ◌⊘◌, abs, same}

  infixl 65 ◌⊕◌ ◌⊖◌
  infixl 70 ◌⊗◌ ◌⊘◌
  abbrev pub Series : Type 0
  Series = List Num

  abbrev pub Matrix : Type 0
  Matrix = List (List Num)

  -- One element of `_relu`, by its `(x + |x|) / 2` form.
  unfoldable pub relu_at : Num → Num
  relu_at x = (x ⊕ abs x) ⊘ two

  abbrev pub relu : Series → Series
  relu = map relu_at

  -- One element of `_safe_divide`.
  unfoldable pub safe_divide_at : Num → Num → Num
  safe_divide_at num den = if same den nought then nought else num ⊘ den

  abbrev pub safe_divide : Series → Series → Series
  safe_divide = zip_with safe_divide_at

  abbrev pub plus : Series → Series → Series
  plus = zip_with ◌⊕◌

  abbrev pub minus : Series → Series → Series
  minus = zip_with ◌⊖◌

  abbrev pub times : Series → Series → Series
  times = zip_with ◌⊗◌

  abbrev pub scale : Num → Series → Series
  scale p = map (λ x. x ⊗ p)

  abbrev pub zeros : ℕ → Series
  zeros t = replicate t nought

  -- `series.sum()`
  abbrev pub total : Series → Num
  total [] = nought
  total (x ∷ xs) = x ⊕ total xs

  -- `matrix.sum(axis=0)`, for series of `t` timesteps.
  abbrev pub sum_axis0 : ℕ → Matrix → Series
  sum_axis0 t [] = zeros t
  sum_axis0 t (row ∷ rows) = plus row (sum_axis0 t rows)
