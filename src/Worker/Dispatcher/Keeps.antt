-- ===== src/Worker/Dispatcher/Keeps.antt =====
-- What a step of `_process` keeps: any property that the clock, the temporary files and the two
-- functions of worker/persistence.py keep.
use allocation_key_simulatio.Base.{
  ℕ, suc, Text, List, Option, none, some, Bool, true, false, if◌then◌else◌, Result, ok, raised,
}
use allocation_key_simulatio.Simulation.Number.{Arith}
use allocation_key_simulatio.Simulation.Inputs.{SimulationKeyInput, AllocationKeyModel}
use allocation_key_simulatio.Simulation.Outcome.{KeySimResult}
use allocation_key_simulatio.Simulation.Compute.{SimulationInputError}
use allocation_key_simulatio.Shared.Models.{SimulationModel, DataSource}
use allocation_key_simulatio.Shared.Preflight.{Preflight}
use allocation_key_simulatio.Shared.Metering.{ConsumptionRow}
use allocation_key_simulatio.Shared.Loading.{SimulationRawData, LoadError, Bytes}
use allocation_key_simulatio.Worker.World.{World}
use allocation_key_simulatio.Worker.Action.{
  Exc, transient_error, solver_crash, simulation_input, other, object_not_found, transient_storage,
  error_exception, modify, call,
}
use allocation_key_simulatio.Worker.Action.Keeps.{
  Keeps, Keeps-pure, Keeps-raise, Keeps-capture, Keeps-bind, Keeps-modify, Keeps-call, keeps_rules,
}
use allocation_key_simulatio.Worker.Outside.{Outside, Period, SolverFault, crashed, failed}
use allocation_key_simulatio.Worker.Persistence.{save_success, save_failure}
use allocation_key_simulatio.Worker.Sources.{
  SimulationSnapshot, Loaded, loaded, stopped, fail, fail_loading, load_from_file, load_from_crm,
  download, content_of, parsed, downloaded, from_file, read_crm, pivoted, crm_read, from_crm,
}
use allocation_key_simulatio.Worker.Solving.{
  Solved, solved, stored, attempted, solve_fault, solve, after_solver_crash, persist, after_solve,
  run,
}
use allocation_key_simulatio.Worker.Process.{
  load_source, run_sized, check_size, with_key, read_crm_key, after_key, process_pending,
  process_row, process,
}

module _ (a : Arith) (o : Outside a) (P : World a.Num → Type 0)
    (tick : (w : World a.Num) → P w → P (record w { clock = suc w.clock }))
    (write : (w : World a.Num) (fs : List (Text × Bytes)) → P w → P (record w { files = fs }))
    (success : (id : ℕ) (r : KeySimResult a.Num) (path : Text)
      → Keeps P (save_success a o id r path))
    (failure : (id : ℕ) (message : Text) → Keeps P (save_failure a o id message)) where
  open a use {Num}

  Keeps-calls : (fault : ℕ → Option Exc) → Keeps P (call fault)
  Keeps-calls fault = Keeps-call fault tick

  Keeps-fail : (id : ℕ) (m : Text) (k : Option Text) → Keeps P (fail a o id m k)
  unfolding fail
  Keeps-fail id m k = search (keeps_rules, failure)

  Keeps-files :
      (b : Bool) (f : World Num → List (Text × Bytes))
      → Keeps P (modify (λ w. if b then record w { files = f w } else w))
  Keeps-files true f = Keeps-modify _ (λ w p. write w _ p)
  Keeps-files false f = Keeps-modify _ (λ w p. p)

  Keeps-solve_fault : (path : Text) (f : SolverFault) → Keeps P (solve_fault a o path f)
  unfolding solve_fault
  Keeps-solve_fault path (crashed b t) = search (keeps_rules, Keeps-files)
  Keeps-solve_fault path (failed t) = search (keeps_rules)

  Keeps-solved :
      (path : Text) (r : Result SimulationInputError (KeySimResult Num))
      → Keeps P (solved a o path r)
  unfolding solved
  Keeps-solved path (raised e) = search (keeps_rules)
  Keeps-solved path (ok r) = search (keeps_rules, Keeps-calls, write)

  Keeps-attempted :
      (path : Text) (f : Option SolverFault) (r : Result SimulationInputError (KeySimResult Num))
      → Keeps P (attempted a o path f r)
  Keeps-attempted path (some f) r = Keeps-solve_fault path f
  Keeps-attempted path none r = Keeps-solved path r

  Keeps-solve :
      (key : SimulationKeyInput Num) (raw : SimulationRawData a) → Keeps P (solve a o key raw)
  unfolding solve
  Keeps-solve key raw = search (keeps_rules, Keeps-attempted)

  Keeps-after_solver_crash :
      (id : ℕ) (d : Option ℕ) (t : Text) (k : Option Text)
      → Keeps P (after_solver_crash a o id d t k)
  unfolding after_solver_crash
  Keeps-after_solver_crash id d t k = search (keeps_rules, Keeps-fail)

  Keeps-stored : (k : Option Text) (r : Result Exc (Unit {0})) → Keeps P (stored a o k r)
  unfolding stored
  Keeps-stored k (ok u) = search (keeps_rules)
  Keeps-stored k (raised e) = search (keeps_rules)

  Keeps-persist : (id : ℕ) (k : Option Text) (s : Solved Num) → Keeps P (persist a o id k s)
  unfolding persist
  Keeps-persist id k s =
      Keeps-bind _ _ (Keeps-capture _ (success _ _ _))
        (λ r. Keeps-bind _ _ (Keeps-files true _) (λ u. Keeps-stored k r))

  Keeps-after_solve :
      (id : ℕ) (d : Option ℕ) (k : Option Text) (r : Result Exc (Solved Num))
      → Keeps P (after_solve a o id d k r)
  unfolding after_solve
  Keeps-after_solve id d k (ok s) = Keeps-persist id k s
  Keeps-after_solve id d k (raised (solver_crash t)) = Keeps-after_solver_crash id d t k
  Keeps-after_solve id d k (raised (transient_error t)) = Keeps-fail id _ k
  Keeps-after_solve id d k (raised (simulation_input t)) = Keeps-fail id _ k
  Keeps-after_solve id d k (raised (other t)) = Keeps-fail id _ k
  Keeps-after_solve id d k (raised object_not_found) = Keeps-fail id _ k
  Keeps-after_solve id d k (raised (transient_storage t)) = Keeps-fail id _ k
  Keeps-after_solve id d k (raised (error_exception t)) = Keeps-fail id _ k

  Keeps-run_sized :
      (s : SimulationSnapshot) (d : Option ℕ) (key : SimulationKeyInput Num)
      (raw : SimulationRawData a) (t : Option Text)
      → Keeps P (run_sized a o s d key raw t)
  unfolding run
  Keeps-run_sized s d key raw (some detail) = Keeps-fail _ _ _
  Keeps-run_sized s d key raw none = search (keeps_rules, Keeps-solve, Keeps-after_solve)

  Keeps-check_size :
      (s : SimulationSnapshot) (d : Option ℕ) (key : SimulationKeyInput Num)
      (l : Loaded (SimulationRawData a))
      → Keeps P (check_size a o s d key l)
  unfolding check_size
  Keeps-check_size s d key (stopped t) = search (keeps_rules)
  Keeps-check_size s d key (loaded raw) = Keeps-run_sized s d key raw _

  Keeps-fail_loading : (id : ℕ) (m : Text) (k : Option Text) → Keeps P (fail_loading a o id m k)
  unfolding fail_loading
  Keeps-fail_loading id m k = search (keeps_rules, Keeps-fail)

  Keeps-content_of : (c : Option Bytes) → Keeps P (content_of a o c)
  Keeps-content_of none = Keeps-raise _
  Keeps-content_of (some c) = Keeps-pure c

  Keeps-download : (key : Text) → Keeps P (download a o key)
  unfolding download
  Keeps-download key = search (keeps_rules, Keeps-calls, Keeps-content_of)

  Keeps-parsed :
      (id : ℕ) (key : Text) (r : Result LoadError (SimulationRawData a))
      → Keeps P (parsed a o id key r)
  unfolding parsed
  Keeps-parsed id key (ok raw) = Keeps-pure _
  Keeps-parsed id key (raised e) = Keeps-fail_loading _ _ _

  Keeps-downloaded :
      (s : SimulationSnapshot) (names : List Text) (key name : Text) (r : Result Exc Bytes)
      → Keeps P (downloaded a o s names key name r)
  unfolding downloaded
  Keeps-downloaded s names key name (ok content) = Keeps-parsed _ _ _
  Keeps-downloaded s names key name (raised (solver_crash t)) = Keeps-raise _
  Keeps-downloaded s names key name (raised (transient_error t)) = Keeps-raise _
  Keeps-downloaded s names key name (raised (simulation_input t)) = Keeps-raise _
  Keeps-downloaded s names key name (raised (other t)) = Keeps-raise _
  Keeps-downloaded s names key name (raised object_not_found) = Keeps-fail_loading _ _ _
  Keeps-downloaded s names key name (raised (transient_storage t)) = Keeps-raise _
  Keeps-downloaded s names key name (raised (error_exception t)) = Keeps-raise _

  Keeps-from_file :
      (s : SimulationSnapshot) (names : List Text) (key name : Option Text)
      → Keeps P (from_file a o s names key name)
  unfolding from_file
  Keeps-from_file s names (some key) (some name) =
      search (keeps_rules, Keeps-download, Keeps-downloaded)
  Keeps-from_file s names none name = Keeps-fail_loading _ _ _
  Keeps-from_file s names (some key) none = Keeps-fail_loading _ _ _

  Keeps-read_crm :
      (p : Period) (names : List Text) (iterations : ℕ) → Keeps P (read_crm a o p names iterations)
  unfolding read_crm
  Keeps-read_crm p names iterations = search (keeps_rules, Keeps-calls) depth 8

  Keeps-pivoted : (id : ℕ) (r : Result LoadError (SimulationRawData a)) → Keeps P (pivoted a o id r)
  unfolding pivoted
  Keeps-pivoted id (ok raw) = Keeps-pure _
  Keeps-pivoted id (raised e) = Keeps-fail_loading _ _ _

  Keeps-crm_read :
      (id : ℕ) (r : Result Exc (Preflight Num × List (ConsumptionRow Num)))
      → Keeps P (crm_read a o id r)
  unfolding crm_read
  Keeps-crm_read id (raised e) = Keeps-raise _
  Keeps-crm_read id (ok (preflight, rows)) = search (keeps_rules, Keeps-pivoted, Keeps-fail_loading)

  Keeps-from_crm :
      (s : SimulationSnapshot) (names : List Text) (iterations : ℕ) (op start end : Option ℕ)
      → Keeps P (from_crm a o s names iterations op start end)
  unfolding from_crm
  Keeps-from_crm s names iterations (some op) (some start) (some end) =
      search (keeps_rules, Keeps-read_crm, Keeps-crm_read)
  Keeps-from_crm s names iterations none start end = Keeps-fail_loading _ _ _
  Keeps-from_crm s names iterations (some op) none end = Keeps-fail_loading _ _ _
  Keeps-from_crm s names iterations (some op) (some start) none = Keeps-fail_loading _ _ _

  Keeps-load_source :
      (d : DataSource) (s : SimulationSnapshot) (key : SimulationKeyInput Num)
      → Keeps P (load_source a o d s key)
  unfolding load_source load_from_crm load_from_file
  Keeps-load_source DataSource.crm s key = Keeps-from_crm s _ _ _ _ _
  Keeps-load_source DataSource.file s key = Keeps-from_file s _ _ _

  Keeps-with_key :
      (s : SimulationSnapshot) (d : Option ℕ) (key : SimulationKeyInput Num)
      → Keeps P (with_key a o s d key)
  unfolding with_key
  Keeps-with_key s d key = search (keeps_rules, Keeps-load_source, Keeps-check_size)

  Keeps-read_crm_key : (k c : ℕ) → Keeps P (read_crm_key a o k c)
  unfolding read_crm_key
  Keeps-read_crm_key k c = search (keeps_rules, Keeps-calls)

  Keeps-after_key :
      (s : SimulationSnapshot) (d : Option ℕ) (r : Result Exc (Option (AllocationKeyModel Num)))
      → Keeps P (after_key a o s d r)
  unfolding after_key
  Keeps-after_key s d (raised e) = Keeps-raise _
  Keeps-after_key s d (ok none) = Keeps-fail _ _ _
  Keeps-after_key s d (ok (some key_model)) = Keeps-with_key _ _ _

  Keeps-process_pending :
      (s : SimulationSnapshot) (d : Option ℕ) → Keeps P (process_pending a o s d)
  unfolding process_pending
  Keeps-process_pending s d = search (keeps_rules, Keeps-fail, Keeps-read_crm_key, Keeps-after_key)

  Keeps-process_row : (d : Option ℕ) (r : Option SimulationModel) → Keeps P (process_row a o d r)
  unfolding process_row
  Keeps-process_row d none = Keeps-pure _
  Keeps-process_row d (some row) = search (keeps_rules, Keeps-process_pending)

  pub Keeps-process : (id : ℕ) (d : Option ℕ) → Keeps P (process a o id d)
  unfolding process
  Keeps-process id d = search (keeps_rules, Keeps-calls, Keeps-process_row)
