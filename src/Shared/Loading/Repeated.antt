-- ===== src/Shared/Loading/Repeated.antt =====
-- A label that stands twice: what the converter makes of it (to_simulation_raw_data in
-- shared/data_loading.py), and what the solver says of that.
use allocation_key_simulatio.Base.{
  ℕ, suc, ◌≤◌, ◌<◌, ◌≡◌, ◌⊎◌, refl, ap, subst, sym, ◌∙◌, Text, contains, List, [], ◌∷◌, true, false,
  not, keep, is_empty, all, length, length-append, ◌==◌, same_text, raise_if, arith, ok, raised,
  >>=-eq-ok, if-raised-eq-ok, ok-injective, Bool-cases, inl, inr, All,
}
use allocation_key_simulatio.Simulation.Number.{Arith}
use allocation_key_simulatio.Simulation.Inputs.{SimulationKeyInput}
use allocation_key_simulatio.Simulation.Series.{Matrix}
use allocation_key_simulatio.Simulation.Compute.{consumption_shape, run_simulation}
use allocation_key_simulatio.Shared.Loading.{
  Pandas, SimulationRawData, lift_error, unexpected, non_finite_value, positions_from,
  selected_positions, read_columns, series_of, require_finite, to_simulation_raw_data,
}
use allocation_key_simulatio.Shared.Loading.Converted.{occurrences, length-positions_from}

-- One of the names is the label of several columns.
abbrev pub LabelsMore : List Text → List Text → Type 0
LabelsMore labels [] = ⊥
LabelsMore labels (name ∷ names) = (2 ≤ occurrences name labels) ⊎ LabelsMore labels names

occurrences-contains :
    (name : Text) (labels : List Text) → contains name labels ≡ true → 1 ≤ occurrences name labels
unfolding occurrences contains
occurrences-contains name [] h = absurd (ground arith)
occurrences-contains name (label ∷ labels) h = elim (Bool-cases (same_text label name)) [
  | inl t ↦ rw t (omega arith)
  | inr f ↦ rw f (occurrences-contains name labels (rw (f, contains) at h))
]

-- No name is missing from the labels.
stands :
    (labels names : List Text)
    → is_empty (keep (λ name. not (contains name labels)) names) ≡ true
    → All (λ name. 1 ≤ occurrences name labels) names
stands labels [] h = tt
stands labels (name ∷ names) h = elim (Bool-cases (contains name labels)) [
  | inl t ↦ (occurrences-contains name labels t, stands labels names (rw (t, keep) at h))
  | inr f ↦ absurd (ground (arith, f))
]

length-selected :
    (labels names : List Text)
    → All (λ name. 1 ≤ occurrences name labels) names
    → length names ≤ length (selected_positions labels names)
unfolding selected_positions
length-selected labels [] h = omega arith
length-selected labels (name ∷ names) (one, h) = omega (
  arith,
  length-append (positions_from 0 name labels) (selected_positions labels names),
  length-positions_from 0 name labels,
  one,
  length-selected labels names h,
)

length-selected_more :
    (labels names : List Text)
    → All (λ name. 1 ≤ occurrences name labels) names
    → LabelsMore labels names
    → length names < length (selected_positions labels names)
unfolding selected_positions
length-selected_more labels [] h more = absurd more
length-selected_more labels (name ∷ names) (one, h) (inl two) = omega (
  arith,
  length-append (positions_from 0 name labels) (selected_positions labels names),
  length-positions_from 0 name labels,
  two,
  length-selected labels names h,
)
length-selected_more labels (name ∷ names) (one, h) (inr more) = omega (
  arith,
  length-append (positions_from 0 name labels) (selected_positions labels names),
  length-positions_from 0 name labels,
  one,
  length-selected_more labels names h more,
)

unequal : (m n : ℕ) → n < m → (m == n) ≡ false
unequal m n h = ground arith

module _ (a : Arith) (pandas : Pandas a) where
  open a use {Num}
  open pandas use {Frame, columns, height, to_numpy, isfinite}

  length-read_columns :
      (f : Frame) (positions : List ℕ) (rows : Matrix a)
      → read_columns a pandas f positions ≡ ok rows
      → length rows ≡ length positions
  unfolding read_columns
  length-read_columns f [] [] h = refl
  length-read_columns f [] (row ∷ rows) h = cc
  length-read_columns f (position ∷ positions) rows h =
      let (column, found, h1) = >>=-eq-ok (lift_error unexpected (to_numpy f position)) _ h in
      let (rest, more, h2) = >>=-eq-ok (read_columns a pandas f positions) _ h1 in
      subst (λ r. length r ≡ suc (length positions)) {x = column ∷ rest} (ok-injective h2)
        (ap suc (length-read_columns f positions rest more))

  -- What the converter returns for the names has a row for each position of their labels.
  converted_rows :
      (f : Frame) (injection : Text) (names : List Text) {raw : SimulationRawData a}
      → to_simulation_raw_data a pandas f injection names ≡ ok raw
      → (is_empty names ≡ false)
        × (raw.consumer_names ≡ names)
        × (length raw.C.rows ≡ length (selected_positions (columns f) names))
        × All (λ name. 1 ≤ occurrences name (columns f)) names
  unfolding to_simulation_raw_data
  converted_rows f injection names {raw} h =
      let missing = keep (λ name. not (contains name (columns f))) names in
      let (named, h1) = if-raised-eq-ok (is_empty names) _ _ h in
      let (has_injection, h2) = if-raised-eq-ok (not (contains injection (columns f))) _ _ h1 in
      let (has_names, h3) = if-raised-eq-ok (not (is_empty missing)) _ _ h2 in
      let (rows, found, h4) =
        >>=-eq-ok (read_columns a pandas f (selected_positions (columns f) names)) _ h3 in
      let (injected, produced, h5) =
        >>=-eq-ok (read_columns a pandas f (positions_from 0 injection (columns f))) _ h4 in
      let (_, finite, h6) = >>=-eq-ok (require_finite a pandas rows names) _ h5 in
      let (_, finite_production, h7) =
        >>=-eq-ok
          (raise_if
            (not (all (λ row. all isfinite row) (series_of a pandas (height f) injected).rows))
            (non_finite_value injection))
          _ h6 in
      (
        named,
        ap (λ r. r.consumer_names) (sym (ok-injective h7)),
        ap (λ r. length r.C.rows) (sym (ok-injective h7)) ∙ length-read_columns f _ rows found,
        stands (columns f) names (ground (arith, has_names)),
      )

  -- Where the converter accepts a frame in which one of the names asked for is the label of several
  -- columns, the solver refuses what it returns: the consumption has too many rows.
  pub load_then_run-repeated :
      (f : Frame) (injection : Text) (names : List Text) {raw : SimulationRawData a}
      (key : SimulationKeyInput Num)
      → LabelsMore (columns f) names
      → to_simulation_raw_data a pandas f injection names ≡ ok raw
      → is_empty key.iterations ≡ false
      → run_simulation a key raw.C raw.va raw.consumer_names ≡ raised consumption_shape
  unfolding run_simulation
  load_then_run-repeated f injection names {raw} key more h iterates =
      let (named, same, rows, stand) = converted_rows f injection names h in
      let many = length-selected_more (columns f) names stand more in
      rw (same, iterates, named, rows, unequal _ _ many) refl
