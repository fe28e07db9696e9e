-- ===== src/Worker/Sources.antt =====
-- Step 3 of a delivery (worker/dispatcher.py): the input, from the uploaded file or from the CRM.
use allocation_key_simulatio.Base.{
  ℕ, Text, codes, List, [], ◌∷◌, ◌++◌, Option, none, some, if◌then◌else◌, Result, ok, raised,
}
use allocation_key_simulatio.Simulation.Number.{Arith}
use allocation_key_simulatio.Shared.Models.{DataSource, SimulationStatus}
use allocation_key_simulatio.Shared.Metering.{ConsumptionRow}
use allocation_key_simulatio.Shared.Preflight.{Blocker, Preflight, evaluate, is_ok}
use allocation_key_simulatio.Shared.Loading.{
  Bytes, LoadError, SimulationRawData, unsupported_file_format, crm_pivot, unexpected, load,
  convert_readings,
}
use allocation_key_simulatio.Worker.World.{find_entry}
use allocation_key_simulatio.Worker.Action.{
  Action, Exc, transient_error, object_not_found, transient_storage, exc_text, pure, raise, gets,
  capture, call, ◌>>=◌, ◌>>◌,
}
use allocation_key_simulatio.Worker.Outside.{Outside, Period}
use allocation_key_simulatio.Worker.Persistence.{save_failure}

-- `_SimulationSnapshot`
pub record SimulationSnapshot : Type 0 where
  pub id : ℕ
  pub source : DataSource
  pub file_storage_key : Option Text
  pub file_name : Option Text
  pub injection_name : Option Text
  pub id_sharing_operation : Option ℕ
  pub period_start : Option ℕ
  pub period_end : Option ℕ
  pub id_key : ℕ
  pub id_community : ℕ
  pub status : SimulationStatus

-- `_Terminal`
pub record Terminal : Type 0 where
  pub storage_key : Option Text

-- `SimulationRawData | _Terminal`
pub data Loaded (R : Type 0) : Type 0 where
  loaded : R → Loaded R
  stopped : Terminal → Loaded R

abbrev pub or_empty : Option Text → Text
or_empty none = []
or_empty (some t) = t

-- The prefix of the failure's message: an exception of the `except` clause, or any other.
unfoldable pub parse_failure : LoadError → Text
parse_failure (unexpected t) = codes "parse_failed_unexpected: "
parse_failure (crm_pivot t) = codes "parse_failed_unexpected: "
parse_failure _ = codes "parse_failed: "

unfoldable pub pivot_failure : LoadError → Text
pivot_failure (unexpected t) = codes "crm_pivot_failed_unexpected: "
pivot_failure (unsupported_file_format t) = codes "crm_pivot_failed_unexpected: "
pivot_failure _ = codes "crm_pivot_failed: "

-- `"; ".join(b.detail for b in preflight.blockers)`
unfoldable pub join_details : List Blocker → Text
join_details [] = []
join_details (b ∷ []) = b.detail
join_details (b ∷ c ∷ bs) = b.detail ++ codes "; " ++ join_details (c ∷ bs)

module _ (a : Arith) (o : Outside a) where
  open a use {Num}

  -- A deterministic failure of this delivery: the row is marked and the handler acks.
  unfoldable pub fail : ℕ → Text → Option Text → Action Num Terminal
  fail simulation_id message storage_key = do
    save_failure a o simulation_id message
    pure (record { storage_key = storage_key })

  unfoldable pub fail_loading : ℕ → Text → Option Text → Action Num (Loaded (SimulationRawData a))
  unfolding fail
  fail_loading simulation_id message storage_key = do
    t ← fail simulation_id message storage_key
    pure (stopped t)

  abbrev pub content_of : Option Bytes → Action Num Bytes
  content_of none = raise object_not_found
  content_of (some content) = pure content

  -- `storage.download`
  unfoldable pub download : Text → Action Num Bytes
  download key = do call o.download; found ← gets (λ w. find_entry key w.objects); content_of found

  unfoldable pub parsed :
      ℕ → Text → Result LoadError (SimulationRawData a) → Action Num (Loaded (SimulationRawData a))
  parsed id key (ok raw) = pure (loaded raw)
  parsed id key (raised e) = fail_loading id (parse_failure e ++ o.load_error_text e) (some key)

  unfoldable pub downloaded :
      SimulationSnapshot
      → List Text
      → Text
      → Text
      → Result Exc Bytes
      → Action Num (Loaded (SimulationRawData a))
  unfolding parsed
  downloaded snapshot names key file_name (ok content) =
      parsed snapshot.id key
        (load a o.pandas content file_name (or_empty snapshot.injection_name) names)
  downloaded snapshot names key file_name (raised object_not_found) =
      fail_loading snapshot.id (codes "storage_object_missing") none
  downloaded snapshot names key file_name (raised (transient_storage t)) =
      raise (transient_error (codes "storage download: " ++ t))
  downloaded snapshot names key file_name (raised e) = raise e

  unfoldable pub from_file :
      SimulationSnapshot
      → List Text
      → Option Text
      → Option Text
      → Action Num (Loaded (SimulationRawData a))
  unfolding downloaded
  from_file snapshot names (some key) (some file_name) = do
    content ← capture (download key)
    downloaded snapshot names key file_name content
  from_file snapshot names none file_name =
      fail_loading snapshot.id (codes "file_source_incomplete") none
  from_file snapshot names (some key) none =
      fail_loading snapshot.id (codes "file_source_incomplete") none

  unfoldable pub load_from_file :
      SimulationSnapshot → List Text → Action Num (Loaded (SimulationRawData a))
  unfolding from_file
  load_from_file snapshot names =
      from_file snapshot names snapshot.file_storage_key snapshot.file_name

  -- The reads of the `try` block: the pre-flight, and the readings if it lets the period through.
  unfoldable pub read_crm :
      Period → List Text → ℕ → Action Num (Preflight Num × List (ConsumptionRow Num))
  read_crm period names iterations = do
    summary ← gets (λ w. o.summarize w.clock period)
    call o.crm_db
    let preflight = evaluate a summary names iterations
    rows ← gets (λ w. o.fetch_rows w.clock period)
    if is_ok preflight then (call o.crm_db >> pure (preflight, rows)) else pure (preflight, [])

  unfoldable pub pivoted :
      ℕ → Result LoadError (SimulationRawData a) → Action Num (Loaded (SimulationRawData a))
  pivoted id (ok raw) = pure (loaded raw)
  pivoted id (raised e) = fail_loading id (pivot_failure e ++ o.load_error_text e) none

  unfoldable pub crm_read :
      ℕ
      → Result Exc (Preflight Num × List (ConsumptionRow Num))
      → Action Num (Loaded (SimulationRawData a))
  unfolding pivoted
  crm_read id (raised e) = raise (transient_error (codes "crm read: " ++ exc_text e))
  crm_read id (ok (preflight, rows)) =
      if is_ok preflight
      then pivoted id (convert_readings a o.pandas rows preflight.participants)
      else fail_loading id (codes "crm_data_rejected: " ++ join_details preflight.blockers) none

  unfoldable pub from_crm :
      SimulationSnapshot
      → List Text
      → ℕ
      → Option ℕ
      → Option ℕ
      → Option ℕ
      → Action Num (Loaded (SimulationRawData a))
  unfolding read_crm crm_read
  from_crm snapshot names iterations (some operation) (some start) (some end) = do
    r ← capture (
        read_crm
          (record {
            id_community = snapshot.id_community;
            id_sharing_operation = operation;
            period_start = start;
            period_end = end;
          })
          names iterations)
    crm_read snapshot.id r
  from_crm snapshot names iterations none start end =
      fail_loading snapshot.id (codes "crm_source_incomplete") none
  from_crm snapshot names iterations (some operation) none end =
      fail_loading snapshot.id (codes "crm_source_incomplete") none
  from_crm snapshot names iterations (some operation) (some start) none =
      fail_loading snapshot.id (codes "crm_source_incomplete") none

  unfoldable pub load_from_crm :
      SimulationSnapshot → List Text → ℕ → Action Num (Loaded (SimulationRawData a))
  unfolding from_crm
  load_from_crm snapshot names iterations =
      from_crm snapshot names iterations snapshot.id_sharing_operation snapshot.period_start
        snapshot.period_end
