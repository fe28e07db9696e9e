-- ===== src/Api/Repository.antt =====
-- The community's simulations, filtered, ordered and cut into pages (api/simulation/repository.py,
-- core/database/with_community.py). `ILIKE` and `ORDER BY` are PostgreSQL's.
pub mod Pages
use allocation_key_simulatio.Base.{
  ℕ, zero, suc, ◌+◌, ◌-◌, ◌*◌, Text, codes, same_text, List, [], ◌∷◌, ◌++◌, map, Option, none, some,
  Bool, true, false, ◌==◌, ltb, keep, length, is_empty, take, drop, ceil_div, if◌then◌else◌, Result,
  ok, raised, ◌>>=◌,
}
use allocation_key_simulatio.Simulation.Number.Integers.{ℤ, pos, negsuc}
use allocation_key_simulatio.Shared.Models.{SimulationModel, SimulationStatus}
use allocation_key_simulatio.Worker.World.{find_row}

abbrev pub status_code : SimulationStatus → ℕ
status_code SimulationStatus.pending = 0
status_code SimulationStatus.success = 1
status_code SimulationStatus.failed = 2

pub data Column : Type 0 where
  id name status : Column

pub data Direction : Type 0 where
  ascending descending : Direction

pub record Clause : Type 0 where
  pub column : Column
  pub direction : Direction

-- `query_param`, a dict of strings: a name and its value, first one first.
abbrev pub QueryParam : Type 0
QueryParam = List (Text × Text)

pub record Sql : Type 0 where
  -- `name ILIKE '%…%'`
  pub ilike : Text → Text → Bool
  pub order_by : List Clause → List SimulationModel → List SimulationModel
  -- `int(…)`, `none` where it raises.
  pub parse_int : Text → Option ℤ
  pub lower : Text → Text

-- `query_param.get(key)`, with an empty value taken for a missing one, as the tests on it do.
unfoldable pub get_param : Text → QueryParam → Option Text
get_param key [] = none
get_param key ((k, []) ∷ params) =
    let rest = get_param key params in if same_text k key then none else rest
get_param key ((k, c ∷ v) ∷ params) =
    let rest = get_param key params in if same_text k key then some (c ∷ v) else rest

-- `with_community_scope`: no community in the context, no results.
unfoldable pub with_community_scope : Option ℕ → List SimulationModel → List SimulationModel
with_community_scope none rows = []
with_community_scope (some internal_id) rows = keep (λ r. r.id_community == internal_id) rows

-- An integer that is not a number makes the request fail.
pub data ListError : Type 0 where
  value_error zero_division negative_offset : ListError

module _ (sql : Sql) where
  unfoldable pub filter_name : Option Text → List SimulationModel → List SimulationModel
  filter_name none rows = rows
  filter_name (some text) rows = keep (λ r. sql.ilike text r.name) rows

  unfoldable pub filter_code :
      Option ℤ → List SimulationModel → Result ListError (List SimulationModel)
  filter_code none rows = raised value_error
  -- No row has a negative code.
  filter_code (some (negsuc code)) rows = ok []
  filter_code (some (pos code)) rows = ok (keep (λ r. status_code r.status == code) rows)

  unfoldable pub filter_status :
      Option Text → List SimulationModel → Result ListError (List SimulationModel)
  unfolding filter_code
  filter_status none rows = ok rows
  filter_status (some text) rows = filter_code (sql.parse_int text) rows

  unfoldable pub clause_of : Column → Option Text → List Clause
  clause_of column none = []
  clause_of column (some text) =
      if same_text (sql.lower text) (codes "desc")
      then record { column = column; direction = descending } ∷ []
      else if same_text (sql.lower text) (codes "asc")
      then record { column = column; direction = ascending } ∷ []
      else []

  unfoldable pub sort_clauses : QueryParam → List Clause
  unfolding clause_of
  sort_clauses params =
      clause_of Column.id (get_param (codes "sort_id") params)
      ++ (clause_of Column.name (get_param (codes "sort_name") params)
          ++ clause_of Column.status (get_param (codes "sort_status") params))

  abbrev pub or_newest : List Clause → List Clause
  or_newest [] = record { column = Column.id; direction = descending } ∷ []
  or_newest (c ∷ clauses) = c ∷ clauses

  -- The statement before it is cut into pages. With no parameter there is no filter, and the
  -- newest come first.
  unfoldable pub selected :
      Option ℕ → QueryParam → List SimulationModel → Result ListError (List SimulationModel)
  unfolding filter_name filter_status sort_clauses
  selected community params rows = do
    let scoped = with_community_scope community rows
    filtered ←
        filter_status (get_param (codes "status") params)
          (filter_name (get_param (codes "name") params) scoped)
    ok (sql.order_by (or_newest (sort_clauses params)) filtered)

  -- `stmt.offset((page - 1) * page_size).limit(page_size)`; PostgreSQL refuses a negative offset.
  unfoldable pub page_of : List SimulationModel → ℕ → ℕ → Result ListError (List SimulationModel)
  page_of rows zero zero = ok []
  page_of rows zero (suc size) = raised negative_offset
  page_of rows (suc page) page_size = ok (take page_size (drop (page * page_size) rows))

  -- `get_list_simulations`
  unfoldable pub get_list_simulations :
      Option ℕ
      → QueryParam
      → List SimulationModel
      → ℕ
      → ℕ
      → Result ListError (List SimulationModel × ℕ)
  unfolding selected page_of
  get_list_simulations community params rows page page_size = do
    matching ← selected community params rows
    shown ← page_of matching page page_size
    ok (shown, length matching)

-- `get_simulation_row`
unfoldable pub get_simulation_row : Option ℕ → ℕ → List SimulationModel → Option SimulationModel
get_simulation_row community wanted rows = find_row wanted (with_community_scope community rows)
