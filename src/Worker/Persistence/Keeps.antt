-- ===== src/Worker/Persistence/Keeps.antt =====
-- What the two functions keep: any property that a call, a commit, a write of an object and a note
-- for others (audit log, hints, counters) keep.
use allocation_key_simulatio.Base.{ℕ, suc, Text, List, Option, none, some}
use allocation_key_simulatio.Simulation.Number.{Arith}
use allocation_key_simulatio.Simulation.Outcome.{KeySimResult}
use allocation_key_simulatio.Shared.Models.{
  SimulationModel, SimulationStatus, SimulationKeyResultModel,
}
use allocation_key_simulatio.Shared.Loading.{Bytes}
use allocation_key_simulatio.Worker.World.{World, AuditAction, AuditEntry, Hint, put_entry}
use allocation_key_simulatio.Worker.Action.{Exc, call}
use allocation_key_simulatio.Worker.Action.Keeps.{
  Keeps, Keeps-pure, Keeps-raise, Keeps-gets, Keeps-bind, Keeps-modify, Keeps-call, Keeps-unless,
  keeps_rules,
}
use allocation_key_simulatio.Worker.Outside.{Outside}
use allocation_key_simulatio.Worker.Persistence.{
  record_audit, emit_finished, announce, upload_content, upload_file, commit_success,
  finish_success, success_of, save_success, finish_failure, failure_of, save_failure,
}

module _ (a : Arith) (o : Outside a) (P : World a.Num → Type 0)
    (tick : (w : World a.Num) → P w → P (record w { clock = suc w.clock }))
    (commit : (w : World a.Num) (rs : List SimulationModel)
        (ts : List (SimulationKeyResultModel a.Num))
      → P w
      → P (record w { rows = rs; results = ts }))
    (put : (w : World a.Num) (k : Text) (v : Bytes)
      → P w
      → P (record w { objects = put_entry k v w.objects }))
    (note : (w : World a.Num) (xs : List AuditEntry) (hs : List Hint) (cs : List SimulationStatus)
      → P w
      → P (record w { audits = xs; hints = hs; completed = cs })) where
  open a use {Num}

  Keeps-calls : (fault : ℕ → Option Exc) → Keeps P (call fault)
  Keeps-calls fault = Keeps-call fault tick

  Keeps-announce :
      (x : AuditAction) (id community : ℕ) (status : SimulationStatus)
      → Keeps P (announce a o x id community status)
  unfolding announce record_audit emit_finished
  Keeps-announce x id community status =
      Keeps-bind _ _ (Keeps-modify _ (λ w p. note w _ _ _ p)) (λ u.
        Keeps-bind _ _
          (Keeps-bind _ _ (Keeps-gets _) (λ lost.
            Keeps-bind _ _ (Keeps-calls _) (λ v. Keeps-unless lost _ (λ w p. note w _ _ _ p))))
          (λ v.
            Keeps-bind _ _ (Keeps-gets _) (λ lost. Keeps-unless lost _ (λ w p. note w _ _ _ p))))

  Keeps-upload_content : (key : Text) (c : Option Bytes) → Keeps P (upload_content a o key c)
  Keeps-upload_content key none = Keeps-raise _
  Keeps-upload_content key (some c) =
      Keeps-bind _ _ (Keeps-calls _) (λ u. Keeps-modify _ (λ w p. put w _ _ p))

  Keeps-upload_file : (key path : Text) → Keeps P (upload_file a o key path)
  unfolding upload_file
  Keeps-upload_file key path = search (keeps_rules, Keeps-upload_content)

  Keeps-commit_success :
      (id community : ℕ) (r : KeySimResult Num) → Keeps P (commit_success a o id community r)
  unfolding commit_success
  Keeps-commit_success id community r =
      Keeps-bind _ _ (Keeps-calls _) (λ u. Keeps-modify _ (λ w p. commit w _ _ p))

  Keeps-success_of :
      (id : ℕ) (row : Option SimulationModel) (r : KeySimResult Num) (path : Text)
      → Keeps P (success_of a o row id r path)
  unfolding success_of finish_success
  Keeps-success_of id none r path = Keeps-pure _
  Keeps-success_of id (some row) r path =
      search (keeps_rules, Keeps-calls, Keeps-upload_file, Keeps-commit_success, Keeps-announce)
        depth 9

  pub Keeps-save_success :
      (id : ℕ) (r : KeySimResult Num) (path : Text) → Keeps P (save_success a o id r path)
  unfolding save_success
  Keeps-save_success id r path = search (keeps_rules, Keeps-calls, Keeps-success_of)

  Keeps-finish_failure :
      (id community : ℕ) (message : Text) → Keeps P (finish_failure a o id community message)
  unfolding finish_failure
  Keeps-finish_failure id community message =
      Keeps-bind _ _ (Keeps-calls _)
        (λ u. Keeps-bind _ _ (Keeps-modify _ (λ w p. commit w _ _ p)) (λ v. Keeps-announce _ _ _ _))

  Keeps-failure_of :
      (id : ℕ) (row : Option SimulationModel) (message : Text)
      → Keeps P (failure_of a o row id message)
  unfolding failure_of
  Keeps-failure_of id none message = Keeps-pure _
  Keeps-failure_of id (some row) message = search (keeps_rules, Keeps-calls, Keeps-finish_failure)

  pub Keeps-save_failure : (id : ℕ) (message : Text) → Keeps P (save_failure a o id message)
  unfolding save_failure
  Keeps-save_failure id message = search (keeps_rules, Keeps-calls, Keeps-failure_of)
