-- ===== src/Api/Service/Cells.antt =====
-- The cells of a run of an uploaded file, against the limit.
use allocation_key_simulatio.Base.{
  ℕ, ◌*◌, ◌≤◌, ◌<◌, ◌≡◌, refl, subst, length, Option, none, some, true, false, leb, leb→le,
  Bool-cases, Option-cases, inl, inr, arith,
}
use allocation_key_simulatio.Simulation.Inputs.{SimulationKeyInput, consumer_names_of}
use allocation_key_simulatio.Shared.ProblemSize.{max_simulation_cells, too_large, too_large-none}
use allocation_key_simulatio.Api.Upload.{Shape}
use allocation_key_simulatio.Api.Service.{is_oversize}

no_shape : (s : Shape) → ◌≡◌ {A = Option Shape} none (some s) → ⊥
no_shape s h = cc

some_shape : {x y : Shape} → ◌≡◌ {A = Option Shape} (some x) (some y) → x ≡ y
some_shape h = cc

false-true : false ≡ true → ⊥
false-true h = cc

leb-false_lt : (a b : ℕ) → leb a b ≡ false → b < a
leb-false_lt a b h = ground arith

-- The cells of a run, from the rows that were counted.
module _ {N : Type 0} where
  abbrev pub cells : SimulationKeyInput N → Shape → ℕ
  cells key s = length (consumer_names_of key) * s.data_rows * length key.iterations

  pub is_oversize-false :
      (shape : Option Shape) (key : SimulationKeyInput N)
      → is_oversize shape key ≡ false
      → (s : Shape) → shape ≡ some s
      → cells key s ≤ max_simulation_cells
  unfolding is_oversize
  is_oversize-false none key h s e = absurd (no_shape s e)
  is_oversize-false (some shape) key h s e =
      elim (Option-cases
        (too_large (length (consumer_names_of key)) shape.data_rows (length key.iterations))) [
          | inl n ↦
              subst (λ (x : Shape). cells key x ≤ max_simulation_cells) (some_shape e)
                ((too_large-none _ _ _).0 n)
          | inr (d, q) ↦ let h2 = rw (q, is_oversize) at h in cc
        ]

  pub is_oversize-true :
      (shape : Option Shape) (key : SimulationKeyInput N)
      → is_oversize shape key ≡ true
      → (s : Shape) × (shape ≡ some s) × (max_simulation_cells < cells key s)
  unfolding is_oversize
  is_oversize-true none key h = absurd (false-true h)
  is_oversize-true (some s) key h = (
    s,
    refl,
    elim (Bool-cases (leb (cells key s) max_simulation_cells)) [
      | inl t ↦
          let n = (too_large-none _ _ _).1 (leb→le _ _ t) in
          absurd (false-true (rw (n, is_oversize) at h))
      | inr f ↦ leb-false_lt (cells key s) max_simulation_cells f
    ],
  )
