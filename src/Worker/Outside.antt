-- ===== src/Worker/Outside.antt =====
-- What the worker calls and does not implement, as it answers at each moment: PostgreSQL (two
-- databases), the object store, the broker, the solver processes, the disk, and the texts of
-- exceptions. A fault is an exception that the call raises at that moment.
use allocation_key_simulatio.Base.{ℕ, Text, List, Option, Bool}
use allocation_key_simulatio.Simulation.Number.{Arith}
use allocation_key_simulatio.Simulation.Inputs.{AllocationKeyModel}
use allocation_key_simulatio.Simulation.Compute.{SimulationInputError}
use allocation_key_simulatio.Shared.Metering.{CrmDataSummary, ConsumptionRow}
use allocation_key_simulatio.Shared.Loading.{LoadError, Pandas}
use allocation_key_simulatio.Worker.Action.{Exc}
use allocation_key_simulatio.Worker.Timeseries.{Dumps}

-- A solver process that died (leaving a half-written file, or not), or any other exception of the
-- executor.
pub data SolverFault : Type 0 where
  crashed : Bool → Text → SolverFault
  failed : Text → SolverFault

-- What a CRM read is asked for.
pub record Period : Type 0 where
  pub id_community : ℕ
  pub id_sharing_operation : ℕ
  pub period_start : ℕ
  pub period_end : ℕ

pub record Outside (a : Arith) : Type 1 where
  pub pandas : Pandas a
  pub dumps : Dumps a.Num
  pub local_db : ℕ → Option Exc
  pub crm_db : ℕ → Option Exc
  pub upload : ℕ → Option Exc
  pub download : ℕ → Option Exc
  pub reply : ℕ → Option Exc
  pub solver : ℕ → Option SolverFault
  pub write_file : ℕ → Option Exc
  pub temp_path : ℕ → Text
  -- `storage.delete` and the audit log swallow their failures; a hint may be dropped.
  pub delete_lost : ℕ → Bool
  pub audit_lost : ℕ → Bool
  pub hint_lost : ℕ → Bool
  -- The CRM's data at a moment.
  pub allocation_key : ℕ → ℕ → ℕ → Option (AllocationKeyModel a.Num)
  pub summarize : ℕ → Period → CrmDataSummary a.Num
  pub fetch_rows : ℕ → Period → List (ConsumptionRow a.Num)
  -- `str(exc)`
  pub input_error_text : SimulationInputError → Text
  pub load_error_text : LoadError → Text
