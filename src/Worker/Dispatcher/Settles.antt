-- ===== src/Worker/Dispatcher/Settles.antt =====
-- Where `_process` (worker/dispatcher.py) returns: the row's status, and the object that it names for
-- deletion.
use allocation_key_simulatio.Base.{
  ℕ, ◌≡◌, refl, sym, ◌∙◌, ap, subst, Text, List, Option, none, some, ◌⊎◌, inl, inr, Result, ok,
  raised,
}
use allocation_key_simulatio.Simulation.Number.{Arith}
use allocation_key_simulatio.Simulation.Inputs.{SimulationKeyInput, AllocationKeyModel}
use allocation_key_simulatio.Shared.Models.{SimulationModel, DataSource, is_pending}
use allocation_key_simulatio.Shared.Preflight.{Preflight, is_ok}
use allocation_key_simulatio.Shared.Metering.{ConsumptionRow}
use allocation_key_simulatio.Shared.Loading.{SimulationRawData, LoadError, Bytes}
use allocation_key_simulatio.Worker.World.{World, find_row, drop_entry}
use allocation_key_simulatio.Worker.World.Rows.{id_of_found}
use allocation_key_simulatio.Worker.Action.{
  Action, Exc, transient_error, solver_crash, simulation_input, other, object_not_found,
  transient_storage, error_exception,
}
use allocation_key_simulatio.Worker.Action.Ends.{
  Ends, Anything, Post, Ends-pure, Ends-raise, Ends-bind, Ends-gets, Ends-modify, Ends-call,
  Ends-if, Ends-capture,
}
use allocation_key_simulatio.Worker.Outside.{Outside}
use allocation_key_simulatio.Worker.Persistence.{claims}
use allocation_key_simulatio.Worker.Persistence.Settles.{
  Closed, Ends-save_failure, Ends-save_success,
}
use allocation_key_simulatio.Worker.Sources.{
  SimulationSnapshot, Terminal, Loaded, loaded, stopped, fail, fail_loading, load_from_file,
  load_from_crm, parsed, downloaded, from_file, pivoted, crm_read, from_crm,
}
use allocation_key_simulatio.Worker.Solving.{
  Solved, is_below, max_solver_crash_deliveries, stored, persist, after_solver_crash, after_solve,
  run,
}
use allocation_key_simulatio.Worker.Process.{
  reached, max_deliveries, run_sized, check_size, load_source, with_key, after_key, process_pending,
  process_row, process, snapshot_of,
}

-- The uploaded file of a row.
abbrev pub file_of : Option SimulationModel → Option Text
file_of none = none
file_of (some row) = row.file_storage_key

-- The deletable object is none, or the given one.
abbrev pub Releases : Option Text → Terminal → Type 0
Releases k t = (t.storage_key ≡ none) ⊎ (t.storage_key ≡ k)

module _ {N : Type 0} where
  abbrev pub Done : ℕ → Option Text → Terminal → World N → Type 0
  Done id k t w = Closed id w × Releases k t

  abbrev pub Stops : {R : Type 0} → ℕ → Option Text → Loaded R → World N → Type 0
  Stops id k (loaded r) w = Unit {0}
  Stops id k (stopped t) w = Done id k t w

module _ (a : Arith) (o : Outside a) where
  open a use {Num}

  abbrev Start : World Num → Type 0
  Start w = Unit {0}

  Ends-any : {A : Type 0} (m : Action Num A) → Ends Start (λ v. Start) Anything m
  Ends-any {A = A} m = record { at = λ w p. any (m w).0 (m w).1 }
    where
      any : (r : Result Exc A) (w : World Num) → Post (λ v. Start) Anything r w
      any (ok v) w = tt
      any (raised e) w = tt

  Ends-fail :
      (id : ℕ) (m : Text) (k j : Option Text)
      → (j ≡ none) ⊎ (j ≡ k)
      → Ends Start (Done id k) Anything (fail a o id m j)
  unfolding fail
  Ends-fail id m k j h =
      Ends-bind {R = λ u. Closed id} _ _ (Ends-save_failure a o id m)
        (λ u. Ends-pure _ (λ w p. (p, h)))

  Ends-fail_loading :
      (id : ℕ) (m : Text) (k j : Option Text)
      → (j ≡ none) ⊎ (j ≡ k)
      → Ends Start (Stops id k) Anything (fail_loading a o id m j)
  unfolding fail_loading
  Ends-fail_loading id m k j h =
      Ends-bind {R = Done id k} _ _ (Ends-fail id m k j h) (λ t. Ends-pure _ (λ w p. p))

  Ends-persist :
      (id : ℕ) (k : Option Text) (s : Solved Num)
      → Ends Start (Done id k) Anything (persist a o id k s)
  unfolding persist
  Ends-persist id k s =
      Ends-bind {R = Post (λ u. Closed id) Anything} _ _
        (Ends-capture _ (Ends-save_success a o id _ _))
        (λ r.
          Ends-bind {R = λ u. Post (λ v. Closed id) Anything r} _ _
            (Ends-modify _ (λ w p. kept r w p)) (λ u. Ends-stored r))
    where
      kept :
          (r : Result Exc (Unit {0})) (w : World Num)
          → Post (λ v. Closed id) Anything r w
          → Post
              (λ v. Closed id)
              Anything
              r
              (record w { files = drop_entry s.timeseries_path w.files })
      kept (ok u) w p = p
      kept (raised e) w p = tt

      Ends-stored :
          (r : Result Exc (Unit {0}))
          → Ends (Post (λ v. Closed id) Anything r) (Done id k) Anything (stored a o k r)
      Ends-stored (ok u) = Ends-pure _ (λ w p. (p, inr refl))
      Ends-stored (raised e) = Ends-raise _ (λ w p. tt)

  Ends-after_solver_crash :
      (id : ℕ) (d : Option ℕ) (t : Text) (k : Option Text)
      → Ends Start (Done id k) Anything (after_solver_crash a o id d t k)
  unfolding after_solver_crash
  Ends-after_solver_crash id d t k =
      Ends-if (is_below max_solver_crash_deliveries d) _ _ (λ q. Ends-raise _ (λ w p. tt))
        (λ q. Ends-fail id _ k k (inr refl))

  Ends-after_solve :
      (id : ℕ) (d : Option ℕ) (k : Option Text) (r : Result Exc (Solved Num))
      → Ends Start (Done id k) Anything (after_solve a o id d k r)
  unfolding after_solve
  Ends-after_solve id d k (ok s) = Ends-persist id k s
  Ends-after_solve id d k (raised (solver_crash t)) = Ends-after_solver_crash id d t k
  Ends-after_solve id d k (raised (transient_error t)) = Ends-fail id _ k k (inr refl)
  Ends-after_solve id d k (raised (simulation_input t)) = Ends-fail id _ k k (inr refl)
  Ends-after_solve id d k (raised (other t)) = Ends-fail id _ k k (inr refl)
  Ends-after_solve id d k (raised object_not_found) = Ends-fail id _ k k (inr refl)
  Ends-after_solve id d k (raised (transient_storage t)) = Ends-fail id _ k k (inr refl)
  Ends-after_solve id d k (raised (error_exception t)) = Ends-fail id _ k k (inr refl)

  Ends-run_sized :
      (s : SimulationSnapshot) (d : Option ℕ) (key : SimulationKeyInput Num)
      (raw : SimulationRawData a) (t : Option Text)
      → Ends Start (Done s.id s.file_storage_key) Anything (run_sized a o s d key raw t)
  unfolding run
  Ends-run_sized s d key raw (some detail) = Ends-fail s.id _ _ _ (inr refl)
  Ends-run_sized s d key raw none =
      Ends-bind {R = λ r. Start} _ _ (Ends-any _)
        (λ r. Ends-after_solve s.id d s.file_storage_key r)

  Ends-check_size :
      (s : SimulationSnapshot) (d : Option ℕ) (key : SimulationKeyInput Num)
      (l : Loaded (SimulationRawData a))
      → Ends
          (Stops s.id s.file_storage_key l)
          (Done s.id s.file_storage_key)
          Anything
          (check_size a o s d key l)
  unfolding check_size
  Ends-check_size s d key (stopped t) = Ends-pure _ (λ w p. p)
  Ends-check_size s d key (loaded raw) = Ends-run_sized s d key raw _

  Ends-parsed :
      (id : ℕ) (key : Text) (r : Result LoadError (SimulationRawData a))
      → Ends Start (Stops id (some key)) Anything (parsed a o id key r)
  unfolding parsed
  Ends-parsed id key (ok raw) = Ends-pure _ (λ w p. tt)
  Ends-parsed id key (raised e) = Ends-fail_loading id _ (some key) _ (inr refl)

  Ends-downloaded :
      (s : SimulationSnapshot) (names : List Text) (key name : Text) (r : Result Exc Bytes)
      → Ends Start (Stops s.id (some key)) Anything (downloaded a o s names key name r)
  unfolding downloaded
  Ends-downloaded s names key name (ok content) = Ends-parsed s.id key _
  Ends-downloaded s names key name (raised (solver_crash t)) = Ends-raise _ (λ w p. tt)
  Ends-downloaded s names key name (raised (transient_error t)) = Ends-raise _ (λ w p. tt)
  Ends-downloaded s names key name (raised (simulation_input t)) = Ends-raise _ (λ w p. tt)
  Ends-downloaded s names key name (raised (other t)) = Ends-raise _ (λ w p. tt)
  Ends-downloaded s names key name (raised object_not_found) =
      Ends-fail_loading s.id _ (some key) _ (inl refl)
  Ends-downloaded s names key name (raised (transient_storage t)) = Ends-raise _ (λ w p. tt)
  Ends-downloaded s names key name (raised (error_exception t)) = Ends-raise _ (λ w p. tt)

  Ends-from_file :
      (s : SimulationSnapshot) (names : List Text) (key name : Option Text)
      → Ends Start (Stops s.id key) Anything (from_file a o s names key name)
  unfolding from_file
  Ends-from_file s names (some key) (some name) =
      Ends-bind {R = λ r. Start} _ _ (Ends-any _) (λ r. Ends-downloaded s names key name r)
  Ends-from_file s names none name = Ends-fail_loading s.id _ none _ (inl refl)
  Ends-from_file s names (some key) none = Ends-fail_loading s.id _ (some key) _ (inl refl)

  Ends-pivoted :
      (id : ℕ) (k : Option Text) (r : Result LoadError (SimulationRawData a))
      → Ends Start (Stops id k) Anything (pivoted a o id r)
  unfolding pivoted
  Ends-pivoted id k (ok raw) = Ends-pure _ (λ w p. tt)
  Ends-pivoted id k (raised e) = Ends-fail_loading id _ k _ (inl refl)

  Ends-crm_read :
      (id : ℕ) (k : Option Text) (r : Result Exc (Preflight Num × List (ConsumptionRow Num)))
      → Ends Start (Stops id k) Anything (crm_read a o id r)
  unfolding crm_read
  Ends-crm_read id k (raised e) = Ends-raise _ (λ w p. tt)
  Ends-crm_read id k (ok (preflight, rows)) =
      Ends-if (is_ok preflight) _ _ (λ q. Ends-pivoted id k _)
        (λ q. Ends-fail_loading id _ k _ (inl refl))

  Ends-from_crm :
      (s : SimulationSnapshot) (names : List Text) (iterations : ℕ) (op start end : Option ℕ)
      → Ends Start
          (Stops s.id s.file_storage_key)
          Anything
          (from_crm a o s names iterations op start end)
  unfolding from_crm
  Ends-from_crm s names iterations (some op) (some start) (some end) =
      Ends-bind {R = λ r. Start} _ _ (Ends-any _) (λ r. Ends-crm_read s.id s.file_storage_key r)
  Ends-from_crm s names iterations none start end =
      Ends-fail_loading s.id _ s.file_storage_key _ (inl refl)
  Ends-from_crm s names iterations (some op) none end =
      Ends-fail_loading s.id _ s.file_storage_key _ (inl refl)
  Ends-from_crm s names iterations (some op) (some start) none =
      Ends-fail_loading s.id _ s.file_storage_key _ (inl refl)

  Ends-load_source :
      (d : DataSource) (s : SimulationSnapshot) (key : SimulationKeyInput Num)
      → Ends Start (Stops s.id s.file_storage_key) Anything (load_source a o d s key)
  unfolding load_source load_from_crm load_from_file
  Ends-load_source DataSource.crm s key = Ends-from_crm s _ _ _ _ _
  Ends-load_source DataSource.file s key = Ends-from_file s _ _ _

  Ends-with_key :
      (s : SimulationSnapshot) (d : Option ℕ) (key : SimulationKeyInput Num)
      → Ends Start (Done s.id s.file_storage_key) Anything (with_key a o s d key)
  unfolding with_key
  Ends-with_key s d key =
      Ends-bind {R = Stops s.id s.file_storage_key} _ _ (Ends-load_source s.source s key)
        (λ l. Ends-check_size s d key l)

  Ends-after_key :
      (s : SimulationSnapshot) (d : Option ℕ) (r : Result Exc (Option (AllocationKeyModel Num)))
      → Ends Start (Done s.id s.file_storage_key) Anything (after_key a o s d r)
  unfolding after_key
  Ends-after_key s d (raised e) = Ends-raise _ (λ w p. tt)
  Ends-after_key s d (ok none) = Ends-fail s.id _ s.file_storage_key _ (inr refl)
  Ends-after_key s d (ok (some key_model)) = Ends-with_key s d _

  Ends-process_pending :
      (s : SimulationSnapshot) (d : Option ℕ)
      → Ends Start (Done s.id s.file_storage_key) Anything (process_pending a o s d)
  unfolding process_pending
  Ends-process_pending s d =
      Ends-if (reached max_deliveries d) _ _ (λ q. Ends-fail s.id _ s.file_storage_key _ (inr refl))
        (λ q. Ends-bind {R = λ r. Start} _ _ (Ends-any _) (λ r. Ends-after_key s d r))

  Ends-process_row :
      (id : ℕ) (d : Option ℕ) (row : Option SimulationModel)
      → Ends
          (λ w. find_row id w.rows ≡ row)
          (Done id (file_of row))
          Anything
          (process_row a o d row)
  unfolding process_row snapshot_of
  Ends-process_row id d none = Ends-pure _ (λ w h. (ap claims h, inl refl))
  Ends-process_row id d (some row) =
      Ends-if (is_pending row.status) _ _
        (λ q. record {
          at = λ w h.
              subst
                (λ n.
                  Post (Done n row.file_storage_key) Anything
                    (process_pending a o (snapshot_of row) d w).0
                    (process_pending a o (snapshot_of row) d w).1)
                (id_of_found id w.rows row h) ((Ends-process_pending (snapshot_of row) d).at w tt);
        })
        (λ q. Ends-pure _ (λ w h. (ap claims h ∙ q, inr refl)))

  pub Ends-process :
      (id : ℕ) (d : Option ℕ) (row : Option SimulationModel)
      → Ends (λ w. find_row id w.rows ≡ row) (Done id (file_of row)) Anything (process a o id d)
  unfolding process
  Ends-process id d row =
      Ends-bind {R = λ u w. find_row id w.rows ≡ row} _ _ (Ends-call _ (λ w p. p) (λ e w p. tt))
        (λ u. Ends-gets _ _ (λ found. record {
          at = λ w p.
              subst
                (λ r.
                  Post (Done id (file_of r)) Anything (process_row a o d found w).0
                    (process_row a o d found w).1)
                (sym p.1 ∙ p.0) ((Ends-process_row id d found).at w p.1);
        }))
