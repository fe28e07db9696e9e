-- ===== src/Worker/Dispatcher.antt =====
-- The handler of a delivered message (worker/dispatcher.py): the failure classes of `_handle_message`,
-- and what the broker is told. The heartbeat and the log lines are left out.
pub mod Keeps
pub mod Outcomes
pub mod LastDelivery
pub mod Deliveries
pub mod Settles
pub mod Handler
use allocation_key_simulatio.Base.{
  ℕ, Text, codes, show, List, [], ◌∷◌, ◌++◌, map, length, Option, none, some, Bool, true, false,
  ltb, leb, if◌then◌else◌, Result, ok, raised,
}
use allocation_key_simulatio.Simulation.Number.{Arith}
use allocation_key_simulatio.Simulation.Inputs.{
  SimulationConsumerInput, SimulationIterationInput, SimulationKeyInput, AllocationKeyModel,
  from_crm_allocation_key, consumer_names_of,
}
use allocation_key_simulatio.Simulation.Outcome.{KeySimResult}
use allocation_key_simulatio.Simulation.Compute.{SimulationInputError, run_simulation}
use allocation_key_simulatio.Shared.Models.{SimulationModel, DataSource, is_pending}
use allocation_key_simulatio.Shared.ProblemSize.{too_large}
use allocation_key_simulatio.Shared.Preflight.{normalize_participant}
use allocation_key_simulatio.Shared.Loading.{SimulationRawData}
use allocation_key_simulatio.Worker.Json.{
  Json, Event, decode, SimulationId, id, below_zero, invalid, simulation_id,
}
use allocation_key_simulatio.Worker.Timeseries.{write_json, without_series}
use allocation_key_simulatio.Worker.World.{
  World, Reply, MessageOutcome, drop_decode, drop_invalid_id, ack_unhandled, find_row, put_entry,
  drop_entry,
}
use allocation_key_simulatio.Worker.Action.{
  Action, Exc, transient_error, solver_crash, simulation_input, other, exc_text, pure, raise, gets,
  modify, capture, call, ◌>>=◌, ◌>>◌,
}
use allocation_key_simulatio.Worker.Outside.{Outside, SolverFault, crashed, failed}
use allocation_key_simulatio.Worker.Persistence.{save_success, save_failure}
use allocation_key_simulatio.Worker.Sources.{
  SimulationSnapshot, Terminal, Loaded, loaded, stopped, fail, load_from_file, load_from_crm,
}
use allocation_key_simulatio.Worker.Process.{process}

abbrev pub nak_retry_delay_seconds : ℕ
nak_retry_delay_seconds = 30

-- A message: its payload as `json.loads` reads it, and `_delivery_count`.
pub record Msg : Type 0 where
  pub payload : Option Json
  pub delivered : Option ℕ

module _ (a : Arith) (o : Outside a) where
  open a use {Num}

  -- `msg.ack()`, `msg.nak(delay)`
  unfoldable pub answer_broker : Reply → Action Num (Unit {0})
  answer_broker r = do call o.reply; modify (λ w. record w { replies = r ∷ w.replies })

  unfoldable pub count : MessageOutcome → Action Num (Unit {0})
  count m = modify (λ w. record w { outcomes = m ∷ w.outcomes })

  -- `storage.delete`, which swallows its failures.
  unfoldable pub delete_safely : Option Text → Action Num (Unit {0})
  delete_safely none = pure tt
  delete_safely (some key) = do
    lost ← gets (λ w. o.delete_lost w.clock)
    modify (λ w. if lost then w else record w { objects = drop_entry key w.objects })

  -- What the handler does with the outcome of `_process`; `mark` is its `save_failure`.
  unfoldable pub settle : Action Num (Unit {0}) → Result Exc Terminal → Action Num (Unit {0})
  settle mark (ok t) = do
    answer_broker Reply.ack
    delete_safely t.storage_key
    count MessageOutcome.ack
  settle mark (raised (transient_error text)) = do
    answer_broker (Reply.nak nak_retry_delay_seconds)
    count MessageOutcome.nak
  settle mark (raised e) = do mark; answer_broker Reply.ack; count ack_unhandled

  abbrev pub discard : MessageOutcome → Action Num (Unit {0})
  discard m = answer_broker Reply.ack >> count m

  unfoldable pub handle_id : Option ℕ → SimulationId → Action Num (Unit {0})
  handle_id delivered invalid = discard drop_invalid_id
  handle_id delivered (id n) = do
    r ← capture (process a o n delivered)
    settle (save_failure a o n (codes "unhandled_worker_error")) r
  -- No row has a negative id: both reads of it find none.
  handle_id delivered below_zero = do
    r ← capture (call o.local_db >> pure (record { storage_key = none }))
    settle (call o.local_db) r

  unfoldable pub handle_event : Option ℕ → Option Event → Action Num (Unit {0})
  handle_event delivered none = discard drop_decode
  handle_event delivered (some event) = handle_id delivered (simulation_id event.content)

  -- `_handle_message`
  unfoldable pub handle_message : Msg → Action Num (Unit {0})
  handle_message msg = handle_event msg.delivered (decode msg.payload)
