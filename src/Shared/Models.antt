-- ===== src/Shared/Models.antt =====
-- The simulation's row and its enumerations (shared/const.py, shared/models/local_models.py). The
-- timestamps that the database fills in are left out.
use allocation_key_simulatio.Base.{ℕ, Text, List, Option, Bool, true, false}

pub data SimulationStatus : Type 0 where
  pending success failed : SimulationStatus

pub data DataSource : Type 0 where
  file crm : DataSource

-- One entry of the pre-flight's warnings.
pub record IncompleteMeter : Type 0 where
  pub ean : Text
  pub readings : ℕ
  pub expected : ℕ
  pub missing : ℕ

pub record SimulationModel : Type 0 where
  pub id : ℕ
  pub name : Text
  pub id_community : ℕ
  pub source : DataSource
  pub file_storage_key : Option Text
  pub file_name : Option Text
  pub injection_name : Option Text
  pub id_sharing_operation : Option ℕ
  pub period_start : Option ℕ
  pub period_end : Option ℕ
  pub id_key : ℕ
  pub key_name : Text
  pub status : SimulationStatus
  pub error_message : Option Text
  pub result_storage_key : Option Text
  pub data_warnings : Option (List IncompleteMeter)

abbrev pub is_pending : SimulationStatus → Bool
is_pending SimulationStatus.pending = true
is_pending SimulationStatus.success = false
is_pending SimulationStatus.failed = false

-- The scalar result tree.
pub record SimulationConsumerResultModel (N : Type 0) : Type 0 where
  pub name : Text
  pub energy_allocated_percentage : N
  pub consumption_total : N
  pub energy_allocated_total : N
  pub energy_allocated_consumed_total : N
  pub residual_volume_total : N
  pub surplus_total : N
  pub id_community : ℕ

pub record SimulationIterationResultModel (N : Type 0) : Type 0 where
  pub number : ℕ
  pub energy_allocated_percentage : N
  pub consumption_total : N
  pub energy_allocated_total : N
  pub energy_allocated_consumed_total : N
  pub residual_volume_total : N
  pub surplus_total : N
  pub sharing_rate_total : N
  pub self_sufficiency_rate_total : N
  pub id_community : ℕ
  pub consumers : List (SimulationConsumerResultModel N)

pub record SimulationKeyResultModel (N : Type 0) : Type 0 where
  pub name : Text
  pub description : Text
  pub consumption_total : N
  pub energy_allocated_total : N
  pub energy_allocated_consumed_total : N
  pub residual_volume_total : N
  pub surplus_total : N
  pub self_sufficiency_rate_total : N
  pub sharing_rate_total : N
  pub id_simulation : ℕ
  pub id_community : ℕ
  pub iterations : List (SimulationIterationResultModel N)
