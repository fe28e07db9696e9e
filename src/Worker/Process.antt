-- ===== src/Worker/Process.antt =====
-- Steps 1 to 4 of `_process` (worker/dispatcher.py): the snapshot, the delivery limit, the key, the
-- input and its size.
use allocation_key_simulatio.Base.{
  ℕ, Text, codes, show, ◌++◌, map, length, Option, none, some, Bool, false, leb, if◌then◌else◌,
  Result, ok, raised,
}
use allocation_key_simulatio.Simulation.Number.{Arith}
use allocation_key_simulatio.Simulation.Inputs.{
  SimulationConsumerInput, SimulationIterationInput, SimulationKeyInput, AllocationKeyModel,
  from_crm_allocation_key, consumer_names_of,
}
use allocation_key_simulatio.Shared.Models.{SimulationModel, DataSource, is_pending}
use allocation_key_simulatio.Shared.ProblemSize.{too_large}
use allocation_key_simulatio.Shared.Preflight.{normalize_participant}
use allocation_key_simulatio.Shared.Loading.{SimulationRawData}
use allocation_key_simulatio.Worker.Json.{simulation_id}
use allocation_key_simulatio.Worker.World.{find_row}
use allocation_key_simulatio.Worker.Action.{
  Action, Exc, transient_error, exc_text, pure, raise, gets, capture, call, ◌>>=◌, ◌>>◌,
}
use allocation_key_simulatio.Worker.Outside.{Outside}
use allocation_key_simulatio.Worker.Solving.{run, delivery_text}
use allocation_key_simulatio.Worker.Sources.{
  SimulationSnapshot, Terminal, Loaded, loaded, stopped, fail, load_from_file, load_from_crm,
}

abbrev pub max_deliveries : ℕ
max_deliveries = 10

-- The consumer's `max_deliver`.
abbrev pub max_deliver : ℕ
max_deliver = 11

-- `_snapshot_simulation` of a row that was found.
unfoldable pub snapshot_of : SimulationModel → SimulationSnapshot
snapshot_of row = record {
  id = row.id;
  source = row.source;
  file_storage_key = row.file_storage_key;
  file_name = row.file_name;
  injection_name = row.injection_name;
  id_sharing_operation = row.id_sharing_operation;
  period_start = row.period_start;
  period_end = row.period_end;
  id_key = row.id_key;
  id_community = row.id_community;
  status = row.status;
}

-- `delivered is not None and delivered >= limit`
unfoldable pub reached : ℕ → Option ℕ → Bool
reached limit none = false
reached limit (some n) = leb limit n

module _ {N : Type 0} where
  trimmed_consumer : SimulationConsumerInput N → SimulationConsumerInput N
  trimmed_consumer c = record {
    name = normalize_participant c.name;
    energy_allocated_percentage = c.energy_allocated_percentage;
  }

  trimmed_iteration : SimulationIterationInput N → SimulationIterationInput N
  unfolding trimmed_consumer
  trimmed_iteration it = record {
    number = it.number;
    energy_allocated_percentage = it.energy_allocated_percentage;
    consumers = map trimmed_consumer it.consumers;
  }

  unfoldable pub with_trimmed_participants : SimulationKeyInput N → SimulationKeyInput N
  unfolding trimmed_iteration
  with_trimmed_participants key = record {
    name = key.name;
    description = key.description;
    iterations = map trimmed_iteration key.iterations;
  }

  -- The key of step 2, trimmed for a CRM source.
  abbrev pub key_for : DataSource → SimulationKeyInput N → SimulationKeyInput N
  key_for DataSource.crm key = with_trimmed_participants key
  key_for DataSource.file key = key

module _ (a : Arith) (o : Outside a) where
  open a use {Num}

  abbrev pub run_sized :
      SimulationSnapshot
      → Option ℕ
      → SimulationKeyInput Num
      → SimulationRawData a
      → Option Text
      → Action Num Terminal
  run_sized snapshot delivered key raw (some detail) =
      fail a o snapshot.id (codes "simulation_too_large: " ++ detail) snapshot.file_storage_key
  run_sized snapshot delivered key raw none = run a o snapshot delivered key raw

  -- Step 4.
  unfoldable pub check_size :
      SimulationSnapshot
      → Option ℕ
      → SimulationKeyInput Num
      → Loaded (SimulationRawData a)
      → Action Num Terminal
  check_size snapshot delivered key (stopped t) = pure t
  check_size snapshot delivered key (loaded raw) =
      run_sized snapshot delivered key raw
        (too_large (length raw.C.rows) raw.C.width (length key.iterations))

  unfoldable pub load_source :
      DataSource
      → SimulationSnapshot
      → SimulationKeyInput Num
      → Action Num (Loaded (SimulationRawData a))
  load_source DataSource.crm snapshot key =
      load_from_crm a o snapshot (consumer_names_of key) (length key.iterations)
  load_source DataSource.file snapshot key = load_from_file a o snapshot (consumer_names_of key)

  -- Step 3.
  unfoldable pub with_key :
      SimulationSnapshot → Option ℕ → SimulationKeyInput Num → Action Num Terminal
  unfolding load_source
  with_key snapshot delivered key = do
    l ← load_source snapshot.source snapshot key
    check_size snapshot delivered key l

  -- `_read_crm_key`
  unfoldable pub read_crm_key : ℕ → ℕ → Action Num (Option (AllocationKeyModel Num))
  read_crm_key id_key id_community = do
    key ← gets (λ w. o.allocation_key w.clock id_key id_community)
    call o.crm_db
    pure key

  unfoldable pub after_key :
      SimulationSnapshot
      → Option ℕ
      → Result Exc (Option (AllocationKeyModel Num))
      → Action Num Terminal
  after_key snapshot delivered (raised e) =
      raise (transient_error (codes "crm read: " ++ exc_text e))
  after_key snapshot delivered (ok none) =
      fail a o snapshot.id (codes "key_not_found: " ++ show snapshot.id_key)
        snapshot.file_storage_key
  after_key snapshot delivered (ok (some key_model)) =
      with_key snapshot delivered (key_for snapshot.source (from_crm_allocation_key key_model))

  -- Steps 1b and 2, of a row that is still PENDING.
  unfoldable pub process_pending : SimulationSnapshot → Option ℕ → Action Num Terminal
  process_pending snapshot delivered =
      if reached max_deliveries delivered
      then fail a o snapshot.id
          (codes "delivery_limit_reached: delivery "
            ++ delivery_text delivered
            ++ codes
                ", the earlier ones ended without a result (transient failures, or the worker stopped mid-run)")
          snapshot.file_storage_key
      else do
        r ← capture (read_crm_key snapshot.id_key snapshot.id_community)
        after_key snapshot delivered r

  unfoldable pub process_row : Option ℕ → Option SimulationModel → Action Num Terminal
  process_row delivered none = pure (record { storage_key = none })
  process_row delivered (some row) =
      if is_pending row.status
      then process_pending (snapshot_of row) delivered
      else pure (record { storage_key = row.file_storage_key })

  -- `_process`
  unfoldable pub process : ℕ → Option ℕ → Action Num Terminal
  process simulation_id delivered = do
    call o.local_db
    row ← gets (λ w. find_row simulation_id w.rows)
    process_row delivered row
