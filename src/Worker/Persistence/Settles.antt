-- ===== src/Worker/Persistence/Settles.antt =====
-- The row's status where save_success or save_failure (worker/persistence.py) returns.
use allocation_key_simulatio.Base.{
  ℕ, suc, ◌≡◌, refl, ◌∙◌, ap, Text, Option, none, some, Bool, true, false, if◌then◌else◌,
}
use allocation_key_simulatio.Simulation.Number.{Arith}
use allocation_key_simulatio.Simulation.Outcome.{KeySimResult}
use allocation_key_simulatio.Shared.Models.{SimulationModel, is_pending}
use allocation_key_simulatio.Worker.World.{World, find_row, update_row}
use allocation_key_simulatio.Worker.World.Rows.{find_row-update_row_same}
use allocation_key_simulatio.Worker.Action.{Exc, call, pure}
use allocation_key_simulatio.Worker.Action.Ends.{
  Ends, Anything, Ends-pure, Ends-bind, Ends-gets, Ends-modify, Ends-call, Ends-Keeps, Ends-after,
  Ends-before,
}
use allocation_key_simulatio.Worker.Outside.{Outside}
use allocation_key_simulatio.Worker.Persistence.{
  set_success, set_failed, commit_success, claims, finish_success, success_of, save_success,
  finish_failure, failure_of, save_failure,
}
use allocation_key_simulatio.Worker.Persistence.Transitions.{
  Saved, saved, Keeps-announce, Keeps-upload_file,
}

module _ {N : Type 0} where
  -- No row of that id is PENDING.
  abbrev pub IsClosed : ℕ → Saved N → Type 0
  IsClosed id s = claims (find_row id s.rows) ≡ false

  abbrev pub Closed : ℕ → World N → Type 0
  Closed id w = IsClosed id (saved w)

module _ (a : Arith) (o : Outside a) (id : ℕ) where
  open a use {Num}

  abbrev Start : World Num → Type 0
  Start w = Unit {0}

  abbrev Found : SimulationModel → Saved Num → Type 0
  Found row s = find_row id s.rows ≡ some row

  abbrev Here : SimulationModel → World Num → Type 0
  Here row w = Found row (saved w)

  Ends-calls :
      {P : World Num → Type 0} (fault : ℕ → Option Exc)
      → ((w : World Num) → P w → P (record w { clock = suc w.clock }))
      → Ends P (λ u. P) Anything (call fault)
  Ends-calls fault h = Ends-call fault h (λ e w p. tt)

  Closed-update :
      (row : SimulationModel) (f : SimulationModel → SimulationModel) (w : World Num)
      → ((r : SimulationModel) → (f r).id ≡ r.id)
      → is_pending (f row).status ≡ false
      → Here row w
      → claims (find_row id (update_row id f w.rows)) ≡ false
  Closed-update row f w same done h =
      ap claims (find_row-update_row_same id f w.rows row same h) ∙ done

  Ends-finish_failure :
      (row : SimulationModel) (community : ℕ) (message : Text)
      → Ends (Here row) (λ u. Closed id) Anything (finish_failure a o id community message)
  unfolding finish_failure set_failed
  Ends-finish_failure row community message = Ends-bind _ _ (Ends-calls _ (λ w p. p)) (λ u.
      Ends-bind {R = λ u. Closed id} _ _
        (Ends-modify _ (λ w h. Closed-update row (set_failed message) w (λ r. refl) refl h))
        (λ v. Ends-after (Ends-Keeps (Keeps-announce a o (IsClosed id) _ _ _ _)) (λ e w p. tt)))

  Ends-failure_of :
      (row : Option SimulationModel) (message : Text)
      → Ends
          (λ w. find_row id w.rows ≡ row)
          (λ u. Closed id)
          Anything
          (failure_of a o row id message)
  unfolding failure_of
  Ends-failure_of none message = Ends-pure _ (λ w h. ap claims h)
  Ends-failure_of (some row) message =
      Ends-bind {R = λ u. Here row} _ _ (Ends-calls _ (λ w p. p))
        (λ u. Ends-gets _ _ (λ claimed. go claimed))
    where
      go :
          (claimed : Bool)
          → Ends
              (λ w. Here row w × (claims (find_row id w.rows) ≡ claimed))
              (λ u. Closed id)
              Anything
              (if claimed then finish_failure a o id row.id_community message else pure tt)
      go true = Ends-before (λ w p. p.0) (Ends-finish_failure row _ message)
      go false = Ends-pure _ (λ w p. p.1)

  pub Ends-save_failure :
      (message : Text) → Ends Start (λ u. Closed id) Anything (save_failure a o id message)
  unfolding save_failure
  Ends-save_failure message =
      Ends-bind {R = λ u. Start} _ _ (Ends-calls _ (λ w p. tt))
        (λ u. Ends-gets _ _ (λ row. Ends-before (λ w p. p.1) (Ends-failure_of row message)))

  Ends-finish_success :
      (row : SimulationModel) (community : ℕ) (r : KeySimResult Num) (path : Text)
      → Ends (Here row) (λ u. Closed id) Anything (finish_success a o id community r path)
  unfolding finish_success commit_success set_success
  Ends-finish_success row community r path =
      Ends-bind {R = λ u. Here row} _ _ (Ends-calls _ (λ w p. p)) (λ u.
        Ends-bind {R = λ u. Here row} _ _
          (Ends-after (Ends-Keeps (Keeps-upload_file a o (Found row) _ _)) (λ e w p. tt))
          (λ v.
            Ends-bind {R = λ u. Closed id} _ _
              (Ends-bind {R = λ u. Here row} _ _ (Ends-calls _ (λ w p. p))
                (λ x. Ends-modify _ (λ w h. Closed-update row _ w (λ q. refl) refl h)))
              (λ x.
                Ends-after (Ends-Keeps (Keeps-announce a o (IsClosed id) _ _ _ _)) (λ e w p. tt))))

  Ends-success_of :
      (row : Option SimulationModel) (r : KeySimResult Num) (path : Text)
      → Ends
          (λ w. find_row id w.rows ≡ row)
          (λ u. Closed id)
          Anything
          (success_of a o row id r path)
  unfolding success_of
  Ends-success_of none r path = Ends-pure _ (λ w h. ap claims h)
  Ends-success_of (some row) r path =
      Ends-bind {R = λ u. Here row} _ _ (Ends-calls _ (λ w p. p))
        (λ u. Ends-gets _ _ (λ claimed. go claimed))
    where
      go :
          (claimed : Bool)
          → Ends
              (λ w. Here row w × (claims (find_row id w.rows) ≡ claimed))
              (λ u. Closed id)
              Anything
              (if claimed then finish_success a o id row.id_community r path else pure tt)
      go true = Ends-before (λ w p. p.0) (Ends-finish_success row _ r path)
      go false = Ends-pure _ (λ w p. p.1)

  pub Ends-save_success :
      (r : KeySimResult Num) (path : Text)
      → Ends Start (λ u. Closed id) Anything (save_success a o id r path)
  unfolding save_success
  Ends-save_success r path =
      Ends-bind {R = λ u. Start} _ _ (Ends-calls _ (λ w p. tt))
        (λ u. Ends-gets _ _ (λ row. Ends-before (λ w p. p.1) (Ends-success_of row r path)))
