-- ===== src/Api/Service/Stored.antt =====
-- Reading and deleting a stored run (api/simulation/service.py): its row and time series, and its
-- deletion with the objects that it names. A missing row is a 404, also where it belongs to another
-- community.
use allocation_key_simulatio.Base.{
  ℕ, ◌*◌, Text, List, [], ◌∷◌, length, Option, none, some, not, keep, ltb, ◌==◌, if◌then◌else◌,
  Result, ok, raised,
}
use allocation_key_simulatio.Simulation.Number.{Arith}
use allocation_key_simulatio.Shared.Errors.{Error}
use allocation_key_simulatio.Shared.Models.{SimulationModel, SimulationKeyResultModel}
use allocation_key_simulatio.Shared.Loading.{Bytes}
use allocation_key_simulatio.Worker.World.{simulation_deleted, find_entry}
use allocation_key_simulatio.Worker.Action.{
  Action, Exc, object_not_found, pure, raise, gets, modify, capture, call, ◌>>=◌, ◌>>◌,
}
use allocation_key_simulatio.Worker.Outside.{Outside}
use allocation_key_simulatio.Worker.Dispatcher.{delete_safely}
use allocation_key_simulatio.Api.Repository.{get_simulation_row}
use allocation_key_simulatio.Api.Timeseries.Response.{Response, as_api_response}
use allocation_key_simulatio.Api.Service.{Front, refuse, log_audit}
use allocation_key_simulatio.Api.Service.Requests.{route}

-- `FULL_TIMESERIES_MAX_BYTES`
unfoldable pub full_timeseries_max_bytes : ℕ
full_timeseries_max_bytes = 64 * 1024 * 1024

-- An empty key counts as none.
abbrev pub filled : Option Text → Option Text
filled none = none
filled (some []) = none
filled (some (c ∷ key)) = some (c ∷ key)

unfoldable pub drop_row : ℕ → List SimulationModel → List SimulationModel
drop_row id rows = keep (λ r. not (r.id == id)) rows

module _ {N : Type 0} where
  -- The foreign keys cascade.
  unfoldable pub drop_results :
      ℕ → List (SimulationKeyResultModel N) → List (SimulationKeyResultModel N)
  drop_results id trees = keep (λ t. not (t.id_simulation == id)) trees

-- How storage cuts an object into the chunks that it streams: `body.read` may return less than it
-- was asked for.
abbrev pub Chunking : Type 0
Chunking = Bytes → List Bytes

module _ (a : Arith) (o : Outside a) (front : Front) (community : Option ℕ) where
  open a use {Num}

  unfoldable pub key_of_row : Option SimulationModel → Action Num Text
  key_of_row none = refuse Error.simulation_not_found 404
  key_of_row (some sim) = elim (filled sim.result_storage_key) [
    | none ↦ refuse Error.result_not_found 404
    | some key ↦ pure key
  ]

  -- `_result_storage_key`
  unfoldable pub result_key : ℕ → Action Num Text
  unfolding key_of_row
  result_key id = do
    call o.local_db
    row ← gets (λ w. get_simulation_row community id w.rows)
    key_of_row row

  abbrev pub sized : Bytes → Action Num Bytes
  sized content =
      if ltb full_timeseries_max_bytes (length content)
      then refuse Error.timeseries_too_large 422
      else pure content

  -- The first `anext` of `iter_object`, in the `try` of `stream_timeseries`.
  unfoldable pub first_chunk : Option Bytes → Action Num Bytes
  first_chunk none = refuse Error.result_not_found 404
  first_chunk (some content) = sized content

  unfoldable pub opened : Result Exc (Unit {0}) → Text → Action Num Bytes
  unfolding first_chunk
  opened (raised object_not_found) key = refuse Error.result_not_found 404
  opened (raised e) key = raise e
  opened (ok u) key = do found ← gets (λ w. find_entry key w.objects); first_chunk found

  -- `stream_timeseries`, up to the response's body.
  unfoldable pub stream_timeseries : Chunking → ℕ → Action Num Response
  unfolding result_key opened
  stream_timeseries chunking id = do
    key ← result_key id
    r ← capture (call o.download)
    content ← opened r key
    pure (as_api_response (chunking content))

  unfoldable pub delete_row : ℕ → Option SimulationModel → Action Num (Unit {0})
  delete_row id none = refuse Error.simulation_not_found 404
  delete_row id (some simulation) = do
    call o.local_db
    call o.local_db
    modify (λ w. record w { rows = drop_row id w.rows; results = drop_results id w.results })
    delete_safely a o simulation.file_storage_key
    delete_safely a o (filled simulation.result_storage_key)
    log_audit a o front simulation_deleted id simulation.id_community

  unfoldable pub delete_simulation : ℕ → Action Num (Unit {0})
  unfolding delete_row
  delete_simulation id = do
    call o.local_db
    row ← gets (λ w. get_simulation_row community id w.rows)
    delete_row id row

  -- `DELETE /{id}`
  unfoldable pub delete_route : ℕ → Action Num (Unit {0})
  unfolding delete_simulation
  delete_route id = route Error.delete_simulation (delete_simulation id)
