-- ===== src/Worker/Dispatcher/Handler.antt =====
-- The handler (worker/dispatcher.py) and the rows and results that it moves.
use allocation_key_simulatio.Base.{ℕ, Text, Option, none, some, Result, ok, raised}
use allocation_key_simulatio.Simulation.Number.{Arith}
use allocation_key_simulatio.Worker.Json.{Event, SimulationId, id, below_zero, invalid}
use allocation_key_simulatio.Worker.World.{Reply, MessageOutcome}
use allocation_key_simulatio.Worker.Action.{
  Action, Exc, transient_error, solver_crash, simulation_input, other, object_not_found,
  transient_storage, error_exception, call,
}
use allocation_key_simulatio.Worker.Action.Keeps.{
  Keeps, Keeps-pure, Keeps-gets, Keeps-capture, Keeps-bind, Keeps-modify, Keeps-call, Keeps-unless,
  keeps_rules,
}
use allocation_key_simulatio.Worker.Outside.{Outside}
use allocation_key_simulatio.Worker.Sources.{Terminal}
use allocation_key_simulatio.Worker.Persistence.Transitions.{
  Saved, Reached, Keeps-save_success, Keeps-save_failure,
}
use allocation_key_simulatio.Worker.Process.{process}
use allocation_key_simulatio.Worker.Dispatcher.{
  Msg, answer_broker, count, delete_safely, settle, handle_id, handle_event, handle_message,
}
use allocation_key_simulatio.Worker.Dispatcher.Keeps.{Keeps-process}

module _ (a : Arith) (o : Outside a) (s : Saved a.Num) where
  open a use {Num}

  Keeps-calls : (fault : ℕ → Option Exc) → Keeps (Reached s) (call fault)
  Keeps-calls fault = Keeps-call fault (λ w p. p)

  Keeps-answer_broker : (r : Reply) → Keeps (Reached s) (answer_broker a o r)
  unfolding answer_broker
  Keeps-answer_broker r = Keeps-bind _ _ (Keeps-calls _) (λ u. Keeps-modify _ (λ w p. p))

  Keeps-count : (m : MessageOutcome) → Keeps (Reached s) (count a o m)
  unfolding count
  Keeps-count m = Keeps-modify _ (λ w p. p)

  Keeps-delete_safely : (k : Option Text) → Keeps (Reached s) (delete_safely a o k)
  unfolding delete_safely
  Keeps-delete_safely none = Keeps-pure _
  Keeps-delete_safely (some k) =
      Keeps-bind _ _ (Keeps-gets _) (λ lost. Keeps-unless lost _ (λ w p. p))

  Keeps-settle :
      (mark : Action Num (Unit {0})) (r : Result Exc Terminal)
      → Keeps (Reached s) mark
      → Keeps (Reached s) (settle a o mark r)
  unfolding settle
  Keeps-settle mark (ok t) k =
      search (keeps_rules, Keeps-answer_broker, Keeps-delete_safely, Keeps-count)
  Keeps-settle mark (raised (transient_error t)) k =
      search (keeps_rules, Keeps-answer_broker, Keeps-count)
  Keeps-settle mark (raised (solver_crash t)) k =
      search (keeps_rules, Keeps-answer_broker, Keeps-count)
  Keeps-settle mark (raised (simulation_input t)) k =
      search (keeps_rules, Keeps-answer_broker, Keeps-count)
  Keeps-settle mark (raised (other t)) k = search (keeps_rules, Keeps-answer_broker, Keeps-count)
  Keeps-settle mark (raised object_not_found) k =
      search (keeps_rules, Keeps-answer_broker, Keeps-count)
  Keeps-settle mark (raised (transient_storage t)) k =
      search (keeps_rules, Keeps-answer_broker, Keeps-count)
  Keeps-settle mark (raised (error_exception t)) k =
      search (keeps_rules, Keeps-answer_broker, Keeps-count)

  Keeps-processed : (n : ℕ) (d : Option ℕ) → Keeps (Reached s) (process a o n d)
  Keeps-processed n d =
      Keeps-process a o (Reached s) (λ w p. p) (λ w fs p. p) (Keeps-save_success a o s)
        (Keeps-save_failure a o s) n d

  Keeps-handle_id : (d : Option ℕ) (i : SimulationId) → Keeps (Reached s) (handle_id a o d i)
  unfolding handle_id
  Keeps-handle_id d invalid = search (keeps_rules, Keeps-answer_broker, Keeps-count)
  Keeps-handle_id d (id n) =
      Keeps-bind _ _ (Keeps-capture _ (Keeps-processed n d))
        (λ r. Keeps-settle _ r (Keeps-save_failure a o s n _))
  Keeps-handle_id d below_zero =
      Keeps-bind _ _ (Keeps-capture _ (Keeps-bind _ _ (Keeps-calls _) (λ u. Keeps-pure _)))
        (λ r. Keeps-settle _ r (Keeps-calls _))

  Keeps-handle_event : (d : Option ℕ) (e : Option Event) → Keeps (Reached s) (handle_event a o d e)
  unfolding handle_event
  Keeps-handle_event d none = search (keeps_rules, Keeps-answer_broker, Keeps-count)
  Keeps-handle_event d (some event) = Keeps-handle_id d _

  pub Keeps-handle_message : (msg : Msg) → Keeps (Reached s) (handle_message a o msg)
  unfolding handle_message
  Keeps-handle_message msg = Keeps-handle_event _ _
