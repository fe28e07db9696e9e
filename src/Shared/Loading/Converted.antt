-- ===== src/Shared/Loading/Converted.antt =====
-- What the converter hands to the solver: arrays that pass every shape check of `run_simulation`,
-- with finite numbers only.
use allocation_key_simulatio.Base.{
  ℕ, zero, ◌≡◌, refl, ap, subst, Text, contains, List, [], ◌∷◌, true, false, not, keep, is_empty,
  all, length, length-append, same_text, suc, ◌∙◌, if◌then◌else◌, raise_if, arith, All, Result, ok,
  raised, >>=-eq-ok, if-raised-eq-ok, ok-injective, Bool-cases, inl, inr,
}
use allocation_key_simulatio.Simulation.Number.{Arith}
use allocation_key_simulatio.Simulation.Inputs.{SimulationKeyInput}
use allocation_key_simulatio.Simulation.Outcome.{KeySimResult}
use allocation_key_simulatio.Simulation.Series.{Series, Matrix}
use allocation_key_simulatio.Simulation.Series.Sums.{IsWide}
use allocation_key_simulatio.Simulation.Compute.{run_simulation}
use allocation_key_simulatio.Simulation.Compute.Cascade.{IsGrid}
use allocation_key_simulatio.Simulation.Compute.Energy.{Covers, run_simulation_total}
use allocation_key_simulatio.Shared.Loading.{
  LoadError, Pandas, SimulationRawData, lift_error, unexpected, non_finite_value, positions_from,
  selected_positions, read_columns, series_of, tile, first_invalid, require_finite,
  to_simulation_raw_data,
}

lift_error-ok {ℓ} :
    {A : Type ℓ} (f : Text → LoadError) (m : Result Text A) {v : A}
    → lift_error f m ≡ ok v
    → m ≡ ok v
lift_error-ok f (ok w) h = ap ok (ok-injective h)
lift_error-ok f (raised e) h = cc

-- How many columns have a label.
unfoldable pub occurrences : Text → List Text → ℕ
occurrences name [] = 0
occurrences name (label ∷ labels) =
    let rest = occurrences name labels in if same_text label name then suc rest else rest

pub length-positions_from :
    (at : ℕ) (name : Text) (labels : List Text)
    → length (positions_from at name labels) ≡ occurrences name labels
unfolding positions_from occurrences
length-positions_from at name [] = refl
length-positions_from at name (label ∷ labels) =
    let ih = length-positions_from (suc at) name labels in grind (arith, ih)

module _ (a : Arith) (pandas : Pandas a) where
  open a use {Num}
  open pandas use {Frame, columns, height, to_numpy, isfinite}

  -- A column has a cell for each row of its frame.
  abbrev pub HasHeight : Type 0
  HasHeight =
      (f : Frame) (position : ℕ) (column : List Num)
      → to_numpy f position ≡ ok column
      → length column ≡ height f

  -- Each name is the label of one column.
  abbrev pub LabelsOne : Frame → List Text → Type 0
  LabelsOne f names = All (λ name. occurrences name (columns f) ≡ 1) names

  abbrev pub IsFinite : Matrix a → Type 0
  IsFinite rows = All (λ row. all isfinite row ≡ true) rows

  read_columns-shape :
      (columns_have_height : HasHeight) (f : Frame) (positions : List ℕ) (rows : Matrix a)
      → read_columns a pandas f positions ≡ ok rows
      → IsWide (height f) rows × (length rows ≡ length positions)
  unfolding read_columns
  read_columns-shape hh f [] [] h = (tt, refl)
  read_columns-shape hh f [] (row ∷ rows) h = cc
  read_columns-shape hh f (position ∷ positions) rows h =
      let (column, found, h1) = >>=-eq-ok (lift_error unexpected (to_numpy f position)) _ h in
      let (rest, more, h2) = >>=-eq-ok (read_columns a pandas f positions) _ h1 in
      let (wide, n) = read_columns-shape hh f positions rest more in
      subst (λ r. IsWide (height f) r × (length r ≡ length (position ∷ positions)))
        {x = column ∷ rest} (ok-injective h2)
        ((hh f position column (lift_error-ok unexpected _ found), wide), ap suc n)

  length-selected_positions :
      (f : Frame) (names : List Text)
      → LabelsOne f names
      → length (selected_positions (columns f) names) ≡ length names
  unfolding selected_positions
  length-selected_positions f [] h = refl
  length-selected_positions f (name ∷ names) (one, h) =
      length-append (positions_from 0 name (columns f)) _
      ∙ omega (
        arith,
        length-positions_from 0 name (columns f),
        one,
        length-selected_positions f names h,
      )

  first_invalid-IsFinite :
      (rows : Matrix a) (names : List Text)
      → first_invalid a pandas rows names ≡ ok tt
      → IsFinite rows
  unfolding first_invalid
  first_invalid-IsFinite [] names h = tt
  first_invalid-IsFinite (row ∷ rows) [] h = absurd (ground arith)
  first_invalid-IsFinite (row ∷ rows) (name ∷ names) h = elim (Bool-cases (all isfinite row)) [
    | inl e ↦ (e, first_invalid-IsFinite rows names (rw (e, first_invalid) at h))
    | inr e ↦ absurd (ground (arith, e))
  ]

  all_finite-IsFinite :
      (rows : Matrix a) → all (λ row. all isfinite row) rows ≡ true → IsFinite rows
  all_finite-IsFinite [] h = tt
  all_finite-IsFinite (row ∷ rows) h =
      (ground (arith, h), all_finite-IsFinite rows (ground (arith, h)))

  require_finite-IsFinite :
      (rows : Matrix a) (names : List Text)
      → require_finite a pandas rows names ≡ ok tt
      → IsFinite rows
  unfolding require_finite
  require_finite-IsFinite rows names h = elim (Bool-cases (all (λ row. all isfinite row) rows)) [
    | inl e ↦ all_finite-IsFinite rows e
    | inr e ↦ first_invalid-IsFinite rows names (rw e at h)
  ]

  -- What a converted input is, for the names asked for.
  pub record IsConverted (names : List Text) (raw : SimulationRawData a) : Type 0 where
    pub same_names : raw.consumer_names ≡ names
    pub named : is_empty names ≡ false
    pub grid : IsGrid a raw.C
    pub production_grid : IsGrid a raw.va
    pub rows : length raw.C.rows ≡ length names
    pub same_width : raw.va.width ≡ raw.C.width
    pub production_rows : length raw.va.rows ≡ length names
    pub finite : IsFinite raw.C.rows
    pub finite_production : IsFinite raw.va.rows

  tile-IsWide : (n : ℕ) (v : Series a) → IsWide (length v) (tile a pandas n (v ∷ []))
  unfolding tile
  tile-IsWide zero v = tt
  tile-IsWide (suc n) v = (refl, tile-IsWide n v)

  length-tile : (n : ℕ) (v : Series a) → length (tile a pandas n (v ∷ [])) ≡ n
  unfolding tile
  length-tile zero v = refl
  length-tile (suc n) v = ap suc (length-tile n v)

  tile-IsFinite :
      (n : ℕ) (v : Series a) → all isfinite v ≡ true → IsFinite (tile a pandas n (v ∷ []))
  unfolding tile
  tile-IsFinite zero v h = tt
  tile-IsFinite (suc n) v h = (h, tile-IsFinite n v h)

  one_row : (rows : Matrix a) → length rows ≡ 1 → (row : Series a) × (rows ≡ row ∷ [])
  one_row [] h = absurd (omega (arith, h))
  one_row (row ∷ []) h = (row, refl)
  one_row (row ∷ more ∷ rows) h = absurd (omega (arith, h))

  finite_row :
      (v : Series a) (e : LoadError)
      → raise_if (not (all (λ row. all isfinite row) (v ∷ []))) e ≡ ok tt
      → all isfinite v ≡ true
  finite_row v e h = elim (Bool-cases (all isfinite v)) [
    | inl t ↦ t
    | inr f ↦ let h' = rw f at h in cc
  ]

  -- Where each name asked for, and the injection's, is the label of one column, every successful
  -- conversion is one: a row for each name, a production row for each, of one width, and finite
  -- cells only.
  pub to_simulation_raw_data-IsConverted :
      (columns_have_height : HasHeight) (f : Frame) (injection : Text) (names : List Text)
      {raw : SimulationRawData a}
      → LabelsOne f names
      → LabelsOne f (injection ∷ [])
      → to_simulation_raw_data a pandas f injection names ≡ ok raw
      → IsConverted names raw
  unfolding to_simulation_raw_data series_of
  to_simulation_raw_data-IsConverted hh f injection names {raw} ones one h =
      let missing = keep (λ name. not (contains name (columns f))) names in
      let (named, h1) = if-raised-eq-ok (is_empty names) _ _ h in
      let (has_injection, h2) = if-raised-eq-ok (not (contains injection (columns f))) _ _ h1 in
      let (has_names, h3) = if-raised-eq-ok (not (is_empty missing)) _ _ h2 in
      let (rows, found, h4) =
        >>=-eq-ok (read_columns a pandas f (selected_positions (columns f) names)) _ h3 in
      let (injected, produced, h5) =
        >>=-eq-ok (read_columns a pandas f (positions_from 0 injection (columns f))) _ h4 in
      let (wide, n) = read_columns-shape hh f _ rows found in
      let (wide_injected, m) = read_columns-shape hh f _ injected produced in
      let (production, single) =
        one_row injected (m ∙ length-positions_from 0 injection (columns f) ∙ one.0) in
      let h6 = rw single at h5 in
      let (_, finite, h7) = >>=-eq-ok (require_finite a pandas rows names) _ h6 in
      let (_, finite_production, h8) =
        >>=-eq-ok
          (raise_if (not (all (λ row. all isfinite row) (production ∷ [])))
            (non_finite_value injection))
          _ h7 in
      let width : length production ≡ height f = (rw single at wide_injected).0 in
      let rows_named = n ∙ length-selected_positions f names ones in
      subst (IsConverted names) (ok-injective h8) (record {
        same_names = refl;
        named = named;
        grid = wide;
        production_grid = tile-IsWide (length names) production;
        rows = rows_named;
        same_width = width;
        production_rows = length-tile (length names) production;
        finite = require_finite-IsFinite rows names finite;
        finite_production =
            tile-IsFinite (length names) production (finite_row production _ finite_production);
      })

  is_empty-of_length {ℓ κ} :
      {A : Type ℓ} {B : Type κ} (xs : List A) (ys : List B)
      → length xs ≡ length ys
      → is_empty ys ≡ false
      → is_empty xs ≡ false
  is_empty-of_length [] [] n h = h
  is_empty-of_length [] (y ∷ ys) n h = absurd (omega arith)
  is_empty-of_length (x ∷ xs) ys n h = refl

  -- Where each name asked for, and the injection's, is the label of one column, a converted input
  -- never fails the solver's shape checks: for a key with iterations that all have a percentage for
  -- every name, the run has a result.
  pub load_then_run_total :
      (columns_have_height : HasHeight) (f : Frame) (injection : Text) (names : List Text)
      {raw : SimulationRawData a} (key : SimulationKeyInput Num)
      → LabelsOne f names
      → LabelsOne f (injection ∷ [])
      → to_simulation_raw_data a pandas f injection names ≡ ok raw
      → is_empty key.iterations ≡ false
      → All (λ it. Covers a names it.consumers) key.iterations
      → (r : KeySimResult Num) × (run_simulation a key raw.C raw.va raw.consumer_names ≡ ok r)
        × (length r.iterations ≡ length key.iterations)
  load_then_run_total hh f injection names {raw} key ones one h iterates covers =
      let c = to_simulation_raw_data-IsConverted hh f injection names ones one h in
      rw c.same_names (
        run_simulation_total a key raw.C raw.va names (record {
          iterates = iterates;
          named = c.named;
          rows = c.rows;
          same_width = c.same_width;
          produces = is_empty-of_length raw.va.rows names c.production_rows c.named;
          covers = covers;
        }))
