-- ===== src/Api/Service.antt =====
-- Starting a simulation from an uploaded file or from the CRM (api/simulation/service.py): every
-- check, the stored object, the PENDING row, the audit entry, and the event for the worker.
pub mod Requests
pub mod Started
pub mod Cells
pub mod Answered
pub mod Oversized
pub mod Marking
pub mod Audit
pub mod Stored
pub mod Deleted
pub mod Delivered
mod Tests
use allocation_key_simulatio.Base.{
  ℕ, Text, codes, show, List, [], ◌∷◌, ◌++◌, length, Option, none, some, Bool, true, false, ltb,
  is_empty, if◌then◌else◌, Result, ok, raised,
}
use allocation_key_simulatio.Simulation.Number.{Arith}
use allocation_key_simulatio.Simulation.Inputs.{
  AllocationKeyModel, SimulationKeyInput, from_crm_allocation_key, consumer_names_of,
}
use allocation_key_simulatio.Shared.Errors.{Error, ErrorException}
use allocation_key_simulatio.Shared.Models.{SimulationModel, SimulationStatus, DataSource}
use allocation_key_simulatio.Shared.ProblemSize.{too_large}
use allocation_key_simulatio.Shared.Preflight.{Blocker, Preflight, evaluate}
use allocation_key_simulatio.Shared.Loading.{Bytes}
use allocation_key_simulatio.Worker.World.{
  World, AuditAction, AuditEntry, simulation_created, simulation_queue_failed, find_row, update_row,
  put_entry,
}
use allocation_key_simulatio.Worker.Action.{
  Action, Exc, error_exception, exc_text, pure, raise, gets, modify, capture, call, ◌>>=◌, ◌>>◌,
}
use allocation_key_simulatio.Worker.Outside.{Outside, Period}
use allocation_key_simulatio.Worker.Persistence.{set_failed, record_audit}
use allocation_key_simulatio.Worker.Process.{read_crm_key}
use allocation_key_simulatio.Worker.Dispatcher.{delete_safely}
use allocation_key_simulatio.Api.Upload.{
  Formats, Shape, read_within_cap, upload_max_body_bytes, measure,
}

-- What the API calls beside what the worker does.
pub record Front : Type 0 where
  -- `js.publish`, and whether the broker stored the message of a publish that raised.
  pub publish : ℕ → Option Exc
  pub publish_stored : ℕ → Bool
  pub sharing_operation_exists : ℕ → ℕ → ℕ → Bool
  pub uuid4 : ℕ → Text
  -- The id that the database's sequence gives to a new row.
  pub next_id : List SimulationModel → ℕ
  pub formats : Formats

pub record UploadFile : Type 0 where
  pub filename : Option Text
  pub chunks : List Bytes

pub record SimulateRequest : Type 0 where
  pub name : Text
  pub id_key : ℕ
  pub injection_name : Text

pub record SimulateFromCrmRequest : Type 0 where
  pub name : Text
  pub id_key : ℕ
  pub id_sharing_operation : ℕ
  pub period_start : ℕ
  pub period_end : ℕ

-- `file.filename or "uploaded-file"`
unfoldable pub file_name_of : Option Text → Text
file_name_of none = codes "uploaded-file"
file_name_of (some []) = codes "uploaded-file"
file_name_of (some (c ∷ name)) = c ∷ name

unfoldable pub upload_storage_key : ℕ → Text → Text → Text
upload_storage_key community_id uuid file_name =
    codes "simulations/" ++ show community_id ++ codes "/" ++ uuid ++ codes "/" ++ file_name

-- The row of an upload, and of a request on the CRM's data.
unfoldable pub file_row : SimulateRequest → ℕ → Text → Text → Text → ℕ → SimulationModel
file_row req community_id storage_key file_name key_name id = record {
  id = id;
  name = req.name;
  id_community = community_id;
  source = DataSource.file;
  file_storage_key = some storage_key;
  file_name = some file_name;
  injection_name = some req.injection_name;
  id_sharing_operation = none;
  period_start = none;
  period_end = none;
  id_key = req.id_key;
  key_name = key_name;
  status = SimulationStatus.pending;
  error_message = none;
  result_storage_key = none;
  data_warnings = none;
}

module _ {N : Type 0} where
  unfoldable pub crm_row : SimulateFromCrmRequest → ℕ → Preflight N → Text → ℕ → SimulationModel
  crm_row req community_id preflight key_name id = record {
    id = id;
    name = req.name;
    id_community = community_id;
    source = DataSource.crm;
    file_storage_key = none;
    file_name = none;
    injection_name = none;
    id_sharing_operation = some req.id_sharing_operation;
    period_start = some req.period_start;
    period_end = some req.period_end;
    id_key = req.id_key;
    key_name = key_name;
    status = SimulationStatus.pending;
    error_message = none;
    result_storage_key = none;
    data_warnings = preflight.warnings;
  }

  -- More cells than a run may have; `false` where the shape is unknown.
  unfoldable pub is_oversize : Option Shape → SimulationKeyInput N → Bool
  is_oversize none key_input = false
  is_oversize (some shape) key_input =
      elim (too_large (length (consumer_names_of key_input)) shape.data_rows
        (length key_input.iterations)) [ none ↦ false | some detail ↦ true ]

module _ {N A : Type 0} where
  -- `raise ErrorException(error=…, status_code=…)`
  unfoldable pub refuse : Error → ℕ → Action N A
  refuse error status_code =
      raise (error_exception (record { error = error; status_code = status_code }))

module _ (a : Arith) (o : Outside a) (front : Front) where
  open a use {Num}

  -- `AuditLogService.log` on the request's own session: staged there, its failures swallowed.
  unfoldable pub log_audit : AuditAction → ℕ → ℕ → Action Num (Unit {0})
  log_audit action simulation_id community_id = do
    lost ← gets (λ w. o.audit_lost w.clock)
    modify (λ w. if lost then w else record w {
      staged =
          record { action = action; entity_id = simulation_id; id_community = community_id }
          ∷ w.staged;
    })

  -- `create_simulation` (a flush, which gives the id) and the commit.
  unfoldable pub create_row : (ℕ → SimulationModel) → Action Num ℕ
  create_row row = do
    call o.local_db
    id ← gets (λ w. front.next_id w.rows)
    call o.local_db
    modify (λ w. record w { rows = row id ∷ w.rows })
    pure id

  -- The broker may have stored the message of a publish that raised.
  unfoldable pub published : ℕ → Bool → Result Exc (Unit {0}) → Action Num (Unit {0})
  published id stored (ok u) = modify (λ w. record w { events = id ∷ w.events })
  published id stored (raised e) = do
    modify (λ w. if stored then record w { events = id ∷ w.events } else w)
    raise e

  -- `send_event`
  unfoldable pub send_event : ℕ → Action Num (Unit {0})
  unfolding published
  send_event id = do
    stored ← gets (λ w. front.publish_stored w.clock)
    r ← capture (call front.publish)
    published id stored r

  unfoldable pub mark_row : ℕ → Text → Option SimulationModel → Action Num (Unit {0})
  mark_row id reason none = pure tt
  mark_row id reason (some row) = do
    call o.local_db
    modify (λ w. record w {
      rows = update_row id (set_failed (codes "failed_to_queue: " ++ reason)) w.rows;
      completed = SimulationStatus.failed ∷ w.completed;
    })
    record_audit a o simulation_queue_failed id row.id_community

  -- `_mark_failed_to_queue`, in sessions of its own.
  unfoldable pub mark_failed_to_queue : ℕ → Text → Action Num (Unit {0})
  unfolding mark_row
  mark_failed_to_queue id reason = do
    call o.local_db
    row ← gets (λ w. find_row id w.rows)
    mark_row id reason row

  unfoldable pub enqueued : ℕ → Option Text → Result Exc (Unit {0}) → Action Num ℕ
  enqueued id storage_key (ok u) = pure id
  enqueued id storage_key (raised e) = do
    mark_failed_to_queue id (exc_text e)
    delete_safely a o storage_key
    refuse Error.start_simulation 500

  -- What follows the commit of a PENDING row: the audit entry and the event. The object that a
  -- failed publish deletes is there for an upload only.
  unfoldable pub enqueue : ℕ → Option Text → ℕ → Action Num ℕ
  unfolding enqueued
  enqueue community_id storage_key id = do
    log_audit simulation_created id community_id
    r ← capture (send_event id)
    enqueued id storage_key r
