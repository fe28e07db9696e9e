-- ===== src/Worker/Persistence.antt =====
-- Finalising a run (worker/persistence.py): the claim of a PENDING row, the scalar result tree, the
-- stored series, the audit entry and the realtime hint.
pub mod Transitions
pub mod Keeps
pub mod Settles
pub mod Consistency
use allocation_key_simulatio.Base.{
  ℕ, suc, ◌≡◌, Text, codes, show, take, List, [], ◌∷◌, ◌++◌, map, Option, none, some, Bool, true,
  false, if◌then◌else◌,
}
use allocation_key_simulatio.Simulation.Number.{Arith}
use allocation_key_simulatio.Simulation.Outcome.{
  ConsumerSimResult, IterationSimResult, KeySimResult,
}
use allocation_key_simulatio.Shared.Models.{
  SimulationModel, SimulationStatus, SimulationConsumerResultModel, SimulationIterationResultModel,
  SimulationKeyResultModel, is_pending,
}
use allocation_key_simulatio.Worker.World.{
  World, AuditAction, AuditEntry, Hint, find_row, update_row, find_entry, put_entry,
  simulation_succeeded, simulation_failed,
}
use allocation_key_simulatio.Worker.Action.{
  Action, other, pure, raise, gets, modify, call, ◌>>=◌, ◌>>◌,
}
use allocation_key_simulatio.Shared.Loading.{Bytes}
use allocation_key_simulatio.Worker.Outside.{Outside}

abbrev pub error_message_max_len : ℕ
error_message_max_len = 2000

unfoldable pub result_storage_key : ℕ → ℕ → Text
result_storage_key community_id simulation_id =
    codes "simulations/"
    ++ show community_id
    ++ codes "/"
    ++ show simulation_id
    ++ codes "/result.json"

module _ {N : Type 0} where
  unfoldable pub build_consumer : ℕ → ConsumerSimResult N → SimulationConsumerResultModel N
  build_consumer community_id c = record {
    name = c.name;
    energy_allocated_percentage = c.energy_allocated_percentage;
    consumption_total = c.consumption_total;
    energy_allocated_total = c.energy_allocated_total;
    energy_allocated_consumed_total = c.energy_allocated_consumed_total;
    residual_volume_total = c.residual_volume_total;
    surplus_total = c.surplus_total;
    id_community = community_id;
  }

  unfoldable pub build_iteration : ℕ → IterationSimResult N → SimulationIterationResultModel N
  unfolding build_consumer
  build_iteration community_id it = record {
    number = it.number;
    energy_allocated_percentage = it.energy_allocated_percentage;
    consumption_total = it.consumption_total;
    energy_allocated_total = it.energy_allocated_total;
    energy_allocated_consumed_total = it.energy_allocated_consumed_total;
    residual_volume_total = it.residual_volume_total;
    surplus_total = it.surplus_total;
    sharing_rate_total = it.sharing_rate_total;
    self_sufficiency_rate_total = it.self_sufficiency_rate_total;
    id_community = community_id;
    consumers = map (build_consumer community_id) it.consumers;
  }

  -- `_build_key_result`
  unfoldable pub build_key_result : KeySimResult N → ℕ → ℕ → SimulationKeyResultModel N
  unfolding build_iteration
  build_key_result result simulation_id community_id = record {
    name = result.name;
    description = result.description;
    consumption_total = result.consumption_total;
    energy_allocated_total = result.energy_allocated_total;
    energy_allocated_consumed_total = result.energy_allocated_consumed_total;
    residual_volume_total = result.residual_volume_total;
    surplus_total = result.surplus_total;
    self_sufficiency_rate_total = result.self_sufficiency_rate_total;
    sharing_rate_total = result.sharing_rate_total;
    id_simulation = simulation_id;
    id_community = community_id;
    iterations = map (build_iteration community_id) result.iterations;
  }

-- What the two conditional UPDATEs write.
unfoldable pub set_success : Text → SimulationModel → SimulationModel
set_success key r = record r {
  status = SimulationStatus.success;
  error_message = none;
  result_storage_key = some key;
}

unfoldable pub set_failed : Text → SimulationModel → SimulationModel
set_failed message r = record r {
  status = SimulationStatus.failed;
  error_message = some (take error_message_max_len message);
}

-- The row as the claim's `WHERE id = … AND status = PENDING` finds it.
abbrev pub claims : Option SimulationModel → Bool
claims none = false
claims (some r) = is_pending r.status

module _ (a : Arith) (o : Outside a) where
  open a use {Num}

  -- The audit entry in its own CRM transaction; `AuditLogService.log` swallows a failed insert.
  unfoldable pub record_audit : AuditAction → ℕ → ℕ → Action Num (Unit {0})
  record_audit action simulation_id community_id = do
    lost ← gets (λ w. o.audit_lost w.clock)
    call o.crm_db
    modify (λ w. if lost then w else record w {
      audits =
          record { action = action; entity_id = simulation_id; id_community = community_id }
          ∷ w.audits;
    })

  -- `emit`, which never raises.
  unfoldable pub emit_finished : ℕ → ℕ → SimulationStatus → Action Num (Unit {0})
  emit_finished simulation_id community_id status = do
    lost ← gets (λ w. o.hint_lost w.clock)
    modify (λ w. if lost then w else record w {
      hints =
          record { simulation = simulation_id; community = community_id; status = status }
          ∷ w.hints;
    })

  -- What follows the commit of a final status.
  unfoldable pub announce : AuditAction → ℕ → ℕ → SimulationStatus → Action Num (Unit {0})
  announce action simulation_id community_id status = do
    modify (λ w. record w { completed = status ∷ w.completed })
    record_audit action simulation_id community_id
    emit_finished simulation_id community_id status

  abbrev pub upload_content : Text → Option Bytes → Action Num (Unit {0})
  upload_content key none = raise (other (codes "no such file"))
  upload_content key (some content) = do
    call o.upload
    modify (λ w. record w { objects = put_entry key content w.objects })

  -- `storage.upload_file`: the file's content becomes the object at `key`.
  unfoldable pub upload_file : Text → Text → Action Num (Unit {0})
  upload_file key path = do
    content ← gets (λ w. find_entry path w.files)
    upload_content key content

  unfoldable pub commit_success : ℕ → ℕ → KeySimResult Num → Action Num (Unit {0})
  commit_success simulation_id community_id result = do
    call o.local_db
    modify (λ w. record w {
      rows =
          update_row simulation_id (set_success (result_storage_key community_id simulation_id))
            w.rows;
      results = build_key_result result simulation_id community_id ∷ w.results;
    })

  unfoldable pub finish_success : ℕ → ℕ → KeySimResult Num → Text → Action Num (Unit {0})
  unfolding commit_success
  finish_success simulation_id community_id result timeseries_path = do
    call o.local_db
    upload_file (result_storage_key community_id simulation_id) timeseries_path
    commit_success simulation_id community_id result
    announce simulation_succeeded simulation_id community_id SimulationStatus.success

  unfoldable pub success_of :
      Option SimulationModel → ℕ → KeySimResult Num → Text → Action Num (Unit {0})
  unfolding finish_success
  success_of none simulation_id result timeseries_path = pure tt
  success_of (some simulation) simulation_id result timeseries_path = do
    call o.local_db
    claimed ← gets (λ w. claims (find_row simulation_id w.rows))
    if claimed
        then finish_success simulation_id simulation.id_community result timeseries_path
        else pure tt

  -- A claim that is not committed is rolled back, so the row is written at the commit.
  unfoldable pub save_success : ℕ → KeySimResult Num → Text → Action Num (Unit {0})
  unfolding success_of
  save_success simulation_id result timeseries_path = do
    call o.local_db
    row ← gets (λ w. find_row simulation_id w.rows)
    success_of row simulation_id result timeseries_path

  unfoldable pub finish_failure : ℕ → ℕ → Text → Action Num (Unit {0})
  finish_failure simulation_id community_id error_message = do
    call o.local_db
    modify (λ w. record w { rows = update_row simulation_id (set_failed error_message) w.rows })
    announce simulation_failed simulation_id community_id SimulationStatus.failed

  unfoldable pub failure_of : Option SimulationModel → ℕ → Text → Action Num (Unit {0})
  unfolding finish_failure
  failure_of none simulation_id error_message = pure tt
  failure_of (some simulation) simulation_id error_message = do
    call o.local_db
    claimed ← gets (λ w. claims (find_row simulation_id w.rows))
    if claimed then finish_failure simulation_id simulation.id_community error_message else pure tt

  unfoldable pub save_failure : ℕ → Text → Action Num (Unit {0})
  unfolding failure_of
  save_failure simulation_id error_message = do
    call o.local_db
    row ← gets (λ w. find_row simulation_id w.rows)
    failure_of row simulation_id error_message
