-- ===== src/Worker/Solving.antt =====
-- Steps 5 and 6 of `_process` (worker/dispatcher.py): the solve, what follows a crash of it, and the
-- result. The semaphore only delays a solve.
use allocation_key_simulatio.Base.{
  ℕ, Text, codes, show, [], ◌++◌, Option, none, some, Bool, false, ltb, if◌then◌else◌, Result, ok,
  raised,
}
use allocation_key_simulatio.Simulation.Number.{Arith}
use allocation_key_simulatio.Simulation.Inputs.{SimulationKeyInput}
use allocation_key_simulatio.Simulation.Outcome.{KeySimResult}
use allocation_key_simulatio.Simulation.Compute.{SimulationInputError, run_simulation}
use allocation_key_simulatio.Shared.Loading.{SimulationRawData}
use allocation_key_simulatio.Worker.Json.{simulation_id}
use allocation_key_simulatio.Worker.Timeseries.{write_json, without_series}
use allocation_key_simulatio.Worker.World.{put_entry, drop_entry}
use allocation_key_simulatio.Worker.Action.{
  Action, Exc, transient_error, solver_crash, simulation_input, other, exc_text, pure, raise, gets,
  modify, capture, call, ◌>>=◌, ◌>>◌,
}
use allocation_key_simulatio.Worker.Outside.{Outside, SolverFault, crashed, failed}
use allocation_key_simulatio.Worker.Persistence.{save_success}
use allocation_key_simulatio.Worker.Sources.{SimulationSnapshot, Terminal, fail}

abbrev pub max_solver_crash_deliveries : ℕ
max_solver_crash_deliveries = 3

-- `delivered is not None and delivered < limit`
unfoldable pub is_below : ℕ → Option ℕ → Bool
is_below limit none = false
is_below limit (some n) = ltb n limit

unfoldable pub delivery_text : Option ℕ → Text
delivery_text none = codes "unknown"
delivery_text (some n) = show n

module _ (N : Type 0) where
  -- `_Solved`
  pub record Solved : Type 0 where
    pub outcome : KeySimResult N
    pub timeseries_path : Text

module _ (a : Arith) (o : Outside a) where
  open a use {Num}

  -- `timeseries.to_temp_file` and the totals; nothing is left behind when writing fails.
  unfoldable pub solved :
      Text → Result SimulationInputError (KeySimResult Num) → Action Num (Solved Num)
  solved path (raised e) = raise (simulation_input (o.input_error_text e))
  solved path (ok result) = do
    call o.write_file
    modify (λ w. record w { files = put_entry path (write_json o.dumps result) w.files })
    pure (record { outcome = without_series result; timeseries_path = path })

  -- A fault of the executor; a process that dies may leave the file that it was writing.
  unfoldable pub solve_fault : Text → SolverFault → Action Num (Solved Num)
  solve_fault path (crashed leaves_file text) = do
    modify (λ w. if leaves_file then record w { files = put_entry path [] w.files } else w)
    raise (solver_crash text)
  solve_fault path (failed text) = raise (other text)

  abbrev pub attempted :
      Text
      → Option SolverFault
      → Result SimulationInputError (KeySimResult Num)
      → Action Num (Solved Num)
  attempted path (some f) r = solve_fault path f
  attempted path none r = solved path r

  -- `_run_simulation` and `_run_simulation_subprocess`
  unfoldable pub solve : SimulationKeyInput Num → SimulationRawData a → Action Num (Solved Num)
  solve key raw = do
    fault ← gets (λ w. o.solver w.clock)
    path ← gets (λ w. o.temp_path w.clock)
    attempted path fault (run_simulation a key raw.C raw.va raw.consumer_names)

  unfoldable pub after_solver_crash : ℕ → Option ℕ → Text → Option Text → Action Num Terminal
  after_solver_crash simulation_id delivered text storage_key =
      if is_below max_solver_crash_deliveries delivered
      then raise (
          transient_error (
            codes "solver crashed on delivery "
            ++ delivery_text delivered
            ++ codes " of "
            ++ show max_solver_crash_deliveries
            ++ codes ": "
            ++ text))
      else fail a o simulation_id
          (codes "solver_crashed (likely out of memory) on delivery "
            ++ delivery_text delivered
            ++ codes ": "
            ++ text)
          storage_key

  unfoldable pub stored : Option Text → Result Exc (Unit {0}) → Action Num Terminal
  stored storage_key (ok u) = pure (record { storage_key = storage_key })
  stored storage_key (raised e) = raise (transient_error (codes "persist failed: " ++ exc_text e))

  -- Step 6; the temporary file is removed in either case.
  unfoldable pub persist : ℕ → Option Text → Solved Num → Action Num Terminal
  unfolding stored
  persist simulation_id storage_key s = do
    r ← capture (save_success a o simulation_id s.outcome s.timeseries_path)
    modify (λ w. record w { files = drop_entry s.timeseries_path w.files })
    stored storage_key r

  unfoldable pub after_solve :
      ℕ → Option ℕ → Option Text → Result Exc (Solved Num) → Action Num Terminal
  after_solve simulation_id delivered storage_key (ok s) = persist simulation_id storage_key s
  after_solve simulation_id delivered storage_key (raised (solver_crash text)) =
      after_solver_crash simulation_id delivered text storage_key
  after_solve simulation_id delivered storage_key (raised e) =
      fail a o simulation_id (codes "simulation_failed: " ++ exc_text e) storage_key

  -- Step 5.
  unfoldable pub run :
      SimulationSnapshot
      → Option ℕ
      → SimulationKeyInput Num
      → SimulationRawData a
      → Action Num Terminal
  run snapshot delivered key raw = do
    r ← capture (solve key raw)
    after_solve snapshot.id delivered snapshot.file_storage_key r
