-- ===== src/Worker/Persistence/Transitions.antt =====
-- What the two functions may do to the rows and the results: a PENDING row becomes SUCCESS beside
-- its result tree, or FAILED.
use allocation_key_simulatio.Base.{
  ℕ, ◌≡◌, refl, sym, ◌∙◌, ap, Text, List, ◌∷◌, Option, none, some, Bool, true, false, if◌then◌else◌,
}
use allocation_key_simulatio.Simulation.Number.{Arith}
use allocation_key_simulatio.Simulation.Outcome.{KeySimResult}
use allocation_key_simulatio.Shared.Models.{
  SimulationModel, SimulationStatus, SimulationKeyResultModel, is_pending,
}
use allocation_key_simulatio.Shared.Loading.{Bytes}
use allocation_key_simulatio.Worker.World.{World, AuditAction, find_row, update_row}
use allocation_key_simulatio.Worker.Action.{Exc, call, pure}
use allocation_key_simulatio.Worker.Action.Keeps.{
  Keeps, Keeps-pure, Keeps-raise, Keeps-gets, Keeps-bind, Keeps-modify, Keeps-call, Keeps-unless,
  keeps_rules,
}
use allocation_key_simulatio.Worker.Action.Leads.{
  Leads, Leads-Keeps, Leads-modify, Leads-bind, Leads-then, Leads-gets, Keeps-Leads,
}
use allocation_key_simulatio.Worker.Outside.{Outside}
use allocation_key_simulatio.Worker.Persistence.{
  result_storage_key, build_key_result, set_success, set_failed, record_audit, emit_finished,
  announce, upload_content, upload_file, commit_success, claims, finish_success, success_of,
  save_success, finish_failure, failure_of, save_failure,
}

-- What the local database holds.
pub record Saved (N : Type 0) : Type 0 where
  pub rows : List SimulationModel
  pub results : List (SimulationKeyResultModel N)

module _ {N : Type 0} where
  abbrev pub saved : World N → Saved N
  saved w = record { rows = w.rows; results = w.results }

  -- One commit.
  pub data Transition (s t : Saved N) : Type 0 where
    succeeds :
        (id : ℕ) (r : SimulationModel) (tree : SimulationKeyResultModel N)
        → find_row id s.rows ≡ some r
        → is_pending r.status ≡ true
        → tree.id_simulation ≡ id
        → t ≡ record {
          rows = update_row id (set_success (result_storage_key r.id_community id)) s.rows;
          results = tree ∷ s.results;
        }
        → Transition s t
    fails :
        (id : ℕ) (r : SimulationModel) (message : Text)
        → find_row id s.rows ≡ some r
        → is_pending r.status ≡ true
        → t ≡ record { rows = update_row id (set_failed message) s.rows; results = s.results }
        → Transition s t

  -- Any number of commits.
  pub data Reaches (s : Saved N) : Saved N → Type 0 where
    stays : Reaches s s
    moves : {t u : Saved N} → Reaches s t → Transition t u → Reaches s u

  abbrev pub Reached : Saved N → World N → Type 0
  Reached s w = Reaches s (saved w)

module _ (a : Arith) (o : Outside a) (Q : Saved a.Num → Type 0) where
  open a use {Num}

  abbrev pub On : World Num → Type 0
  On w = Q (saved w)

  Keeps-calls : (fault : ℕ → Option Exc) → Keeps On (call fault)
  Keeps-calls fault = Keeps-call fault (λ w p. p)

  pub Keeps-announce :
      (x : AuditAction) (id community : ℕ) (status : SimulationStatus)
      → Keeps On (announce a o x id community status)
  unfolding announce record_audit emit_finished
  Keeps-announce x id community status = Keeps-bind _ _ (Keeps-modify _ (λ w p. p)) (λ u.
      Keeps-bind _ _
        (Keeps-bind _ _ (Keeps-gets _)
          (λ lost. Keeps-bind _ _ (Keeps-calls _) (λ v. Keeps-unless lost _ (λ w p. p))))
        (λ v. Keeps-bind _ _ (Keeps-gets _) (λ lost. Keeps-unless lost _ (λ w p. p))))

  Keeps-upload_content : (key : Text) (c : Option Bytes) → Keeps On (upload_content a o key c)
  Keeps-upload_content key none = Keeps-raise _
  Keeps-upload_content key (some c) =
      Keeps-bind _ _ (Keeps-calls _) (λ u. Keeps-modify _ (λ w p. p))

  pub Keeps-upload_file : (key path : Text) → Keeps On (upload_file a o key path)
  unfolding upload_file
  Keeps-upload_file key path = search (keeps_rules, Keeps-upload_content)

-- The row was read, and the claim found it PENDING.
module _ (a : Arith) (o : Outside a) (s : Saved a.Num) where
  open a use {Num}

  abbrev pub Found : ℕ → Option SimulationModel → Saved Num → Type 0
  Found id row t = Reaches s t × (find_row id t.rows ≡ row)

  abbrev pub Claimed : ℕ → SimulationModel → Bool → Saved Num → Type 0
  Claimed id row claimed t = Found id (some row) t × (claims (find_row id t.rows) ≡ claimed)

  claimed-pending :
      (id : ℕ) (row : SimulationModel) (t : Saved Num)
      → find_row id t.rows ≡ some row
      → claims (find_row id t.rows) ≡ true
      → is_pending row.status ≡ true
  claimed-pending id row t e c = sym (ap claims e) ∙ c

  Leads-commit_success :
      (id : ℕ) (row : SimulationModel) (r : KeySimResult Num)
      → Leads (On a o (Claimed id row true)) (Reached s) (commit_success a o id row.id_community r)
  unfolding commit_success build_key_result
  Leads-commit_success id row r =
      Leads-bind _ _ (λ w p. p.0.0) (Keeps-calls a o (Claimed id row true) _)
        (λ u. Leads-modify _ (λ w p.
          moves p.0.0
            (succeeds id row _ p.0.1 (claimed-pending id row (saved w) p.0.1 p.1) refl refl)))

  Leads-finish_success :
      (id : ℕ) (row : SimulationModel) (r : KeySimResult Num) (path : Text)
      → Leads
          (On a o (Claimed id row true))
          (Reached s)
          (finish_success a o id row.id_community r path)
  unfolding finish_success
  Leads-finish_success id row r path =
      Leads-bind _ _ (λ w p. p.0.0) (Keeps-calls a o (Claimed id row true) _)
        (λ u.
          Leads-bind _ _ (λ w p. p.0.0) (Keeps-upload_file a o (Claimed id row true) _ _)
            (λ v.
              Leads-then _ _ (Leads-commit_success id row r)
                (λ x. Keeps-announce a o (Reaches s) _ _ _ _)))

  Leads-success_of :
      (id : ℕ) (row : Option SimulationModel) (r : KeySimResult Num) (path : Text)
      → Leads (On a o (Found id row)) (Reached s) (success_of a o row id r path)
  unfolding success_of
  Leads-success_of id none r path = Leads-Keeps (λ w p. p.0) (Keeps-pure _)
  Leads-success_of id (some row) r path =
      Leads-bind _ _ (λ w p. p.0) (Keeps-calls a o (Found id (some row)) _)
        (λ u. Leads-gets _ _ (λ claimed. go claimed))
    where
      go :
          (claimed : Bool)
          → Leads
              (On a o (Claimed id row claimed))
              (Reached s)
              (if claimed then finish_success a o id row.id_community r path else pure tt)
      go true = Leads-finish_success id row r path
      go false = Leads-Keeps (λ w p. p.0.0) (Keeps-pure _)

  pub Keeps-save_success :
      (id : ℕ) (r : KeySimResult Num) (path : Text) → Keeps (Reached s) (save_success a o id r path)
  unfolding save_success
  Keeps-save_success id r path = Keeps-Leads (
      Leads-bind _ _ (λ w p. p) (Keeps-calls a o (Reaches s) _)
        (λ u. Leads-gets _ _ (λ row. Leads-success_of id row r path)))

  Leads-finish_failure :
      (id : ℕ) (row : SimulationModel) (message : Text)
      → Leads
          (On a o (Claimed id row true))
          (Reached s)
          (finish_failure a o id row.id_community message)
  unfolding finish_failure
  Leads-finish_failure id row message =
      Leads-bind _ _ (λ w p. p.0.0) (Keeps-calls a o (Claimed id row true) _)
        (λ u.
          Leads-then _ _
            (Leads-modify _ (λ w p.
              moves p.0.0
                (fails id row message p.0.1 (claimed-pending id row (saved w) p.0.1 p.1) refl)))
            (λ x. Keeps-announce a o (Reaches s) _ _ _ _))

  Leads-failure_of :
      (id : ℕ) (row : Option SimulationModel) (message : Text)
      → Leads (On a o (Found id row)) (Reached s) (failure_of a o row id message)
  unfolding failure_of
  Leads-failure_of id none message = Leads-Keeps (λ w p. p.0) (Keeps-pure _)
  Leads-failure_of id (some row) message =
      Leads-bind _ _ (λ w p. p.0) (Keeps-calls a o (Found id (some row)) _)
        (λ u. Leads-gets _ _ (λ claimed. go claimed))
    where
      go :
          (claimed : Bool)
          → Leads
              (On a o (Claimed id row claimed))
              (Reached s)
              (if claimed then finish_failure a o id row.id_community message else pure tt)
      go true = Leads-finish_failure id row message
      go false = Leads-Keeps (λ w p. p.0.0) (Keeps-pure _)

  pub Keeps-save_failure :
      (id : ℕ) (message : Text) → Keeps (Reached s) (save_failure a o id message)
  unfolding save_failure
  Keeps-save_failure id message = Keeps-Leads (
      Leads-bind _ _ (λ w p. p) (Keeps-calls a o (Reaches s) _)
        (λ u. Leads-gets _ _ (λ row. Leads-failure_of id row message)))
