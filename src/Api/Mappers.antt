-- ===== src/Api/Mappers.antt =====
-- What the API shows of a run and of a CRM period (api/simulation/mappers.py, schemas.py).
pub mod Shown
use allocation_key_simulatio.Base.{
  ℕ, ◌-◌, Text, contains, List, [], ◌∷◌, map, keep, length, Option, none, some, Bool, true, false,
  leb, is_some, if◌then◌else◌,
}
use allocation_key_simulatio.Simulation.Number.{Arith}
use allocation_key_simulatio.Shared.Errors.{Error, error_code, error_key}
use allocation_key_simulatio.Shared.Models.{
  SimulationModel, SimulationStatus, IncompleteMeter, SimulationConsumerResultModel,
  SimulationIterationResultModel, SimulationKeyResultModel,
}
use allocation_key_simulatio.Shared.Metering.{
  CrmDataSummary, EanCoverage, total_rows, incomplete, total_consumption_kwh, total_injection_kwh,
}
use allocation_key_simulatio.Shared.Preflight.{Blocker, Preflight, is_ok}

pub record Simulation : Type 0 where
  pub id : ℕ
  pub name : Text
  pub status : SimulationStatus
  pub id_key : ℕ
  pub key_name : Text

pub record ConsumerResult (N : Type 0) : Type 0 where
  pub name : Text
  pub energy_allocated_percentage : N
  pub consumption_total : N
  pub energy_allocated_total : N
  pub energy_allocated_consumed_total : N
  pub residual_volume_total : N
  pub surplus_total : N

pub record IterationResult (N : Type 0) : Type 0 where
  pub number : ℕ
  pub energy_allocated_percentage : N
  pub consumption_total : N
  pub energy_allocated_total : N
  pub energy_allocated_consumed_total : N
  pub residual_volume_total : N
  pub surplus_total : N
  pub sharing_rate_total : N
  pub self_sufficiency_rate_total : N
  pub consumers : List (ConsumerResult N)

pub record KeyResult (N : Type 0) : Type 0 where
  pub name : Text
  pub description : Text
  pub consumption_total : N
  pub energy_allocated_total : N
  pub energy_allocated_consumed_total : N
  pub residual_volume_total : N
  pub surplus_total : N
  pub self_sufficiency_rate_total : N
  pub sharing_rate_total : N
  pub iterations : List (IterationResult N)

pub record SimulationDetail (N : Type 0) : Type 0 where
  pub summary : Simulation
  pub error_message : Option Text
  pub has_timeseries : Bool
  pub key_result : Option (KeyResult N)

pub record PreviewBlocker : Type 0 where
  pub error_code : ℕ
  pub message : Text
  pub detail : Text

pub record CrmDataPreview (N : Type 0) : Type 0 where
  pub can_simulate : Bool
  pub matched_participants : List Text
  pub unmatched_participants : List Text
  pub meter_count : ℕ
  pub reading_count : ℕ
  pub first_timestamp : Option ℕ
  pub last_timestamp : Option ℕ
  pub total_consumption_kwh : N
  pub total_injection_kwh : N
  pub incomplete_meters : List IncompleteMeter
  pub blockers : List PreviewBlocker

unfoldable pub to_simulation_schema : SimulationModel → Simulation
to_simulation_schema simulation = record {
  id = simulation.id;
  name = simulation.name;
  status = simulation.status;
  id_key = simulation.id_key;
  key_name = simulation.key_name;
}

module _ {N : Type 0} where
  unfoldable pub to_consumer_result_schema : SimulationConsumerResultModel N → ConsumerResult N
  to_consumer_result_schema consumer = record {
    name = consumer.name;
    energy_allocated_percentage = consumer.energy_allocated_percentage;
    consumption_total = consumer.consumption_total;
    energy_allocated_total = consumer.energy_allocated_total;
    energy_allocated_consumed_total = consumer.energy_allocated_consumed_total;
    residual_volume_total = consumer.residual_volume_total;
    surplus_total = consumer.surplus_total;
  }

  unfoldable pub to_iteration_result_schema : SimulationIterationResultModel N → IterationResult N
  unfolding to_consumer_result_schema
  to_iteration_result_schema iteration = record {
    number = iteration.number;
    energy_allocated_percentage = iteration.energy_allocated_percentage;
    consumption_total = iteration.consumption_total;
    energy_allocated_total = iteration.energy_allocated_total;
    energy_allocated_consumed_total = iteration.energy_allocated_consumed_total;
    residual_volume_total = iteration.residual_volume_total;
    surplus_total = iteration.surplus_total;
    sharing_rate_total = iteration.sharing_rate_total;
    self_sufficiency_rate_total = iteration.self_sufficiency_rate_total;
    consumers = map to_consumer_result_schema iteration.consumers;
  }

  -- Before the first with a greater number: a stable insertion.
  unfoldable pub insert_iteration :
      SimulationIterationResultModel N
      → List (SimulationIterationResultModel N)
      → List (SimulationIterationResultModel N)
  insert_iteration it [] = it ∷ []
  insert_iteration it (x ∷ xs) =
      let rest = insert_iteration it xs in if leb it.number x.number then it ∷ x ∷ xs else x ∷ rest

  -- `sorted(iterations, key=lambda it: it.number)`
  unfoldable pub sorted_iterations :
      List (SimulationIterationResultModel N) → List (SimulationIterationResultModel N)
  unfolding insert_iteration
  sorted_iterations [] = []
  sorted_iterations (it ∷ its) = insert_iteration it (sorted_iterations its)

  unfoldable pub to_key_result_schema : SimulationKeyResultModel N → KeyResult N
  unfolding to_iteration_result_schema sorted_iterations
  to_key_result_schema key_result = record {
    name = key_result.name;
    description = key_result.description;
    consumption_total = key_result.consumption_total;
    energy_allocated_total = key_result.energy_allocated_total;
    energy_allocated_consumed_total = key_result.energy_allocated_consumed_total;
    residual_volume_total = key_result.residual_volume_total;
    surplus_total = key_result.surplus_total;
    self_sufficiency_rate_total = key_result.self_sufficiency_rate_total;
    sharing_rate_total = key_result.sharing_rate_total;
    iterations = map to_iteration_result_schema (sorted_iterations key_result.iterations);
  }

  abbrev pub shown_result : Option (SimulationKeyResultModel N) → Option (KeyResult N)
  shown_result none = none
  shown_result (some key_result) = some (to_key_result_schema key_result)

  -- A row with its result tree.
  unfoldable pub to_simulation_detail :
      SimulationModel → Option (SimulationKeyResultModel N) → SimulationDetail N
  unfolding to_key_result_schema
  to_simulation_detail simulation key_result = record {
    summary = record {
      id = simulation.id;
      name = simulation.name;
      status = simulation.status;
      id_key = simulation.id_key;
      key_name = simulation.key_name;
    };
    error_message = simulation.error_message;
    has_timeseries = is_some simulation.result_storage_key;
    key_result = shown_result key_result;
  }

-- `translate(key, locale=locale)`
abbrev pub Translate : Type 0
Translate = Text → Text → Text

unfoldable pub preview_blocker : Translate → Text → Blocker → PreviewBlocker
preview_blocker translate locale b = record {
  error_code = error_code b.error;
  message = translate (error_key b.error) locale;
  detail = b.detail;
}

module _ (a : Arith) where
  open a use {Num}

  unfoldable pub gap : ℕ → EanCoverage Num → IncompleteMeter
  gap grid_size e = record {
    ean = e.ean;
    readings = e.distinct_ts;
    expected = grid_size;
    missing = grid_size - e.distinct_ts;
  }

  unfoldable pub to_crm_data_preview : Translate → Preflight Num → Text → CrmDataPreview Num
  unfolding gap preview_blocker
  to_crm_data_preview translate preflight locale =
      let summary = preflight.summary in
      record {
        can_simulate = is_ok preflight;
        matched_participants = preflight.matched;
        unmatched_participants = preflight.unmatched;
        meter_count = length summary.eans;
        reading_count = total_rows summary;
        first_timestamp = summary.first_timestamp;
        last_timestamp = summary.last_timestamp;
        total_consumption_kwh = total_consumption_kwh a summary;
        total_injection_kwh = total_injection_kwh a summary;
        incomplete_meters =
            map (gap summary.grid_size)
              (keep (λ e. contains e.ean preflight.matched) (incomplete summary));
        blockers = map (preview_blocker translate locale) preflight.blockers;
      }
