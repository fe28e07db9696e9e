-- ===== src/Shared/Loading.antt =====
-- From a file or from meter readings to the solver's arrays (shared/data_loading.py,
-- shared/crm_timeseries.py). pandas is a parameter: reading a file, the columns of a frame, one
-- column as floats, and the pivot of readings.
pub mod Converted
pub mod Repeated
use allocation_key_simulatio.Base.{
  ℕ, zero, suc, ◌+◌, ◌≡◌, Text, codes, contains, same_text, List, [], ◌∷◌, ◌++◌, map, reverse,
  Option, none, some, Bool, true, false, not, ◌||◌, keep, is_empty, all, any, length, ltb, leb,
  ◌==◌, if◌then◌else◌, Result, ok, raised, ◌>>=◌, raise_if,
}
use allocation_key_simulatio.Simulation.Number.{Arith}
use allocation_key_simulatio.Simulation.Series.{Series, Matrix}
use allocation_key_simulatio.Simulation.Compute.{Grid}
use allocation_key_simulatio.Shared.Metering.{ConsumptionRow}

abbrev pub Bytes : Type 0
Bytes = List ℕ

pub record Pandas (a : Arith) : Type 1 where
  pub Frame : Type 0
  pub read_csv : Bytes → Result Text Frame
  pub read_excel : Bytes → Result Text Frame
  -- The labels, as `rename(columns=str)` makes them, and the number of rows.
  pub columns : Frame → List Text
  pub height : Frame → ℕ
  -- The column at a position, by `to_numpy(dtype=float64)`.
  pub to_numpy : Frame → ℕ → Result Text (List a.Num)
  pub isfinite : a.Num → Bool
  -- `frame.pivot(index="timestamp", columns="ean", values="gross")`, its columns, and the frame
  -- that reindexing, filling, the grouped injection and the sort make of it.
  pub Pivot : Type 0
  pub pivot : List (ConsumptionRow a.Num) → Result Text Pivot
  pub pivot_columns : Pivot → List Text
  pub assemble : Pivot → List (ConsumptionRow a.Num) → List Text → Text → Frame

-- The exceptions of the two modules, with their messages, and any other exception.
pub data LoadError : Type 0 where
  invalid_injection_column unsupported_file_format consumer_columns : Text → LoadError
  non_finite_value crm_pivot unexpected : Text → LoadError

abbrev lower : ℕ → ℕ
lower c = if ltb 64 c then (if ltb c 91 then c + 32 else c) else c

-- The part behind the last dot; all of it where there is none.
after_last_dot : Text → Text → Text
after_last_dot acc [] = acc
after_last_dot acc (c ∷ s) = after_last_dot (if c == 46 then [] else acc ++ (c ∷ [])) s

-- `file_name.rsplit(".", 1)[-1].lower()`, on ASCII letters.
unfoldable pub extension : Text → Text
unfolding after_last_dot
extension file_name = map lower (after_last_dot [] file_name)

abbrev pub lift_error {ℓ} : {A : Type ℓ} → (Text → LoadError) → Result Text A → Result LoadError A
lift_error f (ok v) = ok v
lift_error f (raised e) = raised (f e)

-- The positions of a label, the first one being `at`.
unfoldable pub positions_from : ℕ → Text → List Text → List ℕ
positions_from at name [] = []
positions_from at name (label ∷ labels) =
    let rest = positions_from (suc at) name labels in
    if same_text label name then at ∷ rest else rest

-- The positions that `frame[names]` selects: for each name, those of all columns of that label.
unfoldable pub selected_positions : List Text → List Text → List ℕ
unfolding positions_from
selected_positions labels [] = []
selected_positions labels (name ∷ names) =
    positions_from 0 name labels ++ selected_positions labels names

module _ {A : Type 0} where
  abbrev heads : List (List A) → List A
  heads [] = []
  heads ([] ∷ columns) = heads columns
  heads ((x ∷ column) ∷ columns) = x ∷ heads columns

  abbrev tails : List (List A) → List (List A)
  tails [] = []
  tails ([] ∷ columns) = [] ∷ tails columns
  tails ((x ∷ column) ∷ columns) = column ∷ tails columns

  -- The rows of columns of a height.
  unfoldable pub transposed : ℕ → List (List A) → List (List A)
  transposed zero columns = []
  transposed (suc height) columns = heads columns ∷ transposed height (tails columns)

module _ (a : Arith) where
  pub record SimulationRawData : Type 0 where
    pub C : Grid a
    pub va : Grid a
    pub consumer_names : List Text

module _ (a : Arith) (pandas : Pandas a) where
  open a use {Num}
  open pandas use {
    Frame, read_csv, read_excel, columns, height, to_numpy, isfinite, pivot, pivot_columns,
    assemble,
  }

  unfoldable pub parse_file : Bytes → Text → Result LoadError Frame
  parse_file content file_name =
      let ext = extension file_name in
      if same_text ext (codes "csv")
      then lift_error unexpected (read_csv content)
      else if same_text ext (codes "xlsx") || same_text ext (codes "xls")
      then lift_error unexpected (read_excel content)
      else raised (unsupported_file_format (codes "Unsupported file extension: " ++ ext))

  -- The columns at the positions.
  unfoldable pub read_columns : Frame → List ℕ → Result LoadError (Matrix a)
  read_columns frame [] = ok []
  read_columns frame (position ∷ positions) = do
    column ← lift_error unexpected (to_numpy frame position)
    rest ← read_columns frame positions
    ok (column ∷ rest)

  -- `frame[name]` as an array, of one row where the label stands once, else of a row per timestep.
  unfoldable pub series_of : ℕ → Matrix a → Grid a
  unfolding transposed
  series_of height (column ∷ []) = record { width = length column; rows = column ∷ [] }
  series_of height columns = record { width = length columns; rows = transposed height columns }

  -- `np.tile(rows, (count, 1))`
  unfoldable pub tile : ℕ → Matrix a → Matrix a
  tile zero rows = []
  tile (suc count) rows = rows ++ tile count rows

  abbrev all_finite : Matrix a → Bool
  all_finite rows = all (λ row. all isfinite row) rows

  -- The loop of `_require_finite`; a strict `zip` raises where one side is longer.
  unfoldable pub first_invalid : Matrix a → List Text → Result LoadError (Unit {0})
  first_invalid [] [] = ok tt
  first_invalid [] (name ∷ names) = raised (unexpected (codes "zip() argument 2 is shorter"))
  first_invalid (row ∷ rows) [] = raised (unexpected (codes "zip() argument 1 is shorter"))
  first_invalid (row ∷ rows) (name ∷ names) =
      let rest = first_invalid rows names in
      if all isfinite row then rest else raised (non_finite_value name)

  -- `_require_finite`: the first column with a cell that is not a finite number raises.
  unfoldable pub require_finite : Matrix a → List Text → Result LoadError (Unit {0})
  unfolding first_invalid
  require_finite rows names = if all_finite rows then ok tt else first_invalid rows names

  unfoldable pub to_simulation_raw_data :
      Frame → Text → List Text → Result LoadError (SimulationRawData a)
  to_simulation_raw_data frame injection_name consumer_names =
      let missing = keep (λ name. not (contains name (columns frame))) consumer_names in
      if is_empty consumer_names
      then raised (LoadError.consumer_columns (codes "no consumer columns requested"))
      else if not (contains injection_name (columns frame))
      then raised (invalid_injection_column injection_name)
      else if not (is_empty missing)
      then raised (LoadError.consumer_columns (codes "file is missing consumer column(s)"))
      else do
        consumption ← read_columns frame (selected_positions (columns frame) consumer_names)
        injected ← read_columns frame (positions_from 0 injection_name (columns frame))
        let production = series_of (height frame) injected
        finite ← require_finite consumption consumer_names
        finite_production ←
            raise_if (not (all_finite production.rows)) (non_finite_value injection_name)
        ok (record {
          C = record { width = height frame; rows = consumption };
          va = record {
            width = production.width;
            rows = tile (length consumer_names) production.rows;
          };
          consumer_names = consumer_names;
        })

  unfoldable pub load : Bytes → Text → Text → List Text → Result LoadError (SimulationRawData a)
  load content file_name injection_name consumer_names = parse_file content file_name >>= λ frame.
      to_simulation_raw_data frame injection_name consumer_names

  abbrev pub injection_column : Text
  injection_column = codes "__injection__"

  unfoldable pub build_dataframe : List (ConsumptionRow Num) → List Text → Result LoadError Frame
  build_dataframe rows consumer_eans =
      if is_empty rows
      then raised (crm_pivot (codes "no readings to pivot"))
      else if is_empty consumer_eans
      then raised (crm_pivot (codes "no consumer EANs requested"))
      else if contains injection_column consumer_eans
      then raised (crm_pivot (codes "'__injection__' is reserved and cannot be a participant"))
      else do
        consumption ← lift_error crm_pivot (pivot rows)
        let missing = keep (λ ean. not (contains ean (pivot_columns consumption))) consumer_eans
        known ←
            raise_if (not (is_empty missing))
              (crm_pivot (codes "no readings for requested participant(s)"))
        ok (assemble consumption rows consumer_eans injection_column)

  -- What the worker makes of fetched readings: the pivoted frame, converted like an upload.
  unfoldable pub convert_readings :
      List (ConsumptionRow Num) → List Text → Result LoadError (SimulationRawData a)
  convert_readings rows participants = build_dataframe rows participants >>= λ frame.
      to_simulation_raw_data frame injection_column participants
