-- ===== src/Api/Service/Marking.antt =====
-- `_mark_failed_to_queue` on a row that is no longer PENDING.
use allocation_key_simulatio.Base.{
  ℕ, ◌≡◌, refl, sym, ap, subst, ◌∙◌, inl, inr, Text, codes, ◌++◌, Option, none, some, Result, ok,
  raised, arith,
}
use allocation_key_simulatio.Simulation.Number.{Arith}
use allocation_key_simulatio.Shared.Models.{SimulationModel, SimulationStatus}
use allocation_key_simulatio.Worker.World.{World, find_row}
use allocation_key_simulatio.Worker.World.Rows.{find_row-update_row_same}
use allocation_key_simulatio.Worker.Action.{Exc}
use allocation_key_simulatio.Worker.Action.Ends.{Post}
use allocation_key_simulatio.Worker.Outside.{Outside}
use allocation_key_simulatio.Worker.Persistence.{set_failed}
use allocation_key_simulatio.Worker.Persistence.Transitions.{saved}
use allocation_key_simulatio.Worker.Persistence.Consistency.{IsConsistent, IsSettled, results_of}
use allocation_key_simulatio.Api.Service.{Front, mark_failed_to_queue}
use allocation_key_simulatio.Api.Service.Started.{
  Kept, kept, IsAt, Fault, with_failure, Halfway, Ends-mark_failed_to_queue,
}

different : (e : Exc) → ◌≡◌ {A = Option Exc} (some e) none → ⊥
different e h = cc

one_or_none : {n m : ℕ} → n ≡ m → m ≡ 1 → n ≡ 0 → ⊥
one_or_none e f g = omega (arith, e, f, g)

failed_none :
    (r : SimulationModel) (id trees : ℕ) → IsSettled SimulationStatus.failed id r trees → trees ≡ 0
unfolding IsSettled
failed_none r id trees h = h.0

module _ (a : Arith) (o : Outside a) (front : Front) (id : ℕ) (reason : Text)
    (row : SimulationModel) (w : World a.Num) where
  marked_row : SimulationModel
  marked_row = set_failed (codes "failed_to_queue: " ++ reason) row

  -- A call that never fails does not raise.
  no-Fault : (f : ℕ → Option Exc) (e : Exc) → ((t : ℕ) → f t ≡ none) → Fault f e → ⊥
  no-Fault f e h (t, p) = let q = h t in absurd (different e (sym p ∙ q))

  -- With working databases the marking returns.
  marking-IsAt :
      (r : Result Exc (Unit {0})) (x : World a.Num)
      → ((t : ℕ) → o.local_db t ≡ none)
      → ((t : ℕ) → o.crm_db t ≡ none)
      → Post
          (λ u. IsAt (with_failure id reason (kept w)))
          (Halfway a o front (kept w) id reason)
          r
          x
      → IsAt (with_failure id reason (kept w)) x
  marking-IsAt (ok u) x l c p = p
  marking-IsAt (raised e) x l c (inl p) = absurd (no-Fault o.local_db e l p.0)
  marking-IsAt (raised e) x l c (inr p) = absurd (no-Fault o.crm_db e c p.0)

  success_once :
      (trees : ℕ)
      → row.status ≡ SimulationStatus.success
      → IsSettled row.status id row trees
      → trees ≡ 1
  unfolding IsSettled
  success_once trees s h = (subst (λ status. IsSettled status id row trees) s h).0

-- Where the databases work, marking a run that has SUCCEEDED, as a publish does that timed out
-- after the broker had stored the message and a worker had run it, makes its row FAILED beside the
-- result tree of the run: the rows and results are consistent before and no longer so after.
pub mark_failed_to_queue-overwrites :
    (a : Arith) (o : Outside a) (front : Front) (id : ℕ) (reason : Text) (row : SimulationModel)
    (w : World a.Num)
    → ((t : ℕ) → o.local_db t ≡ none)
    → ((t : ℕ) → o.crm_db t ≡ none)
    → find_row id w.rows ≡ some row
    → row.status ≡ SimulationStatus.success
    → IsConsistent (saved w)
    → (find_row id (mark_failed_to_queue a o front id reason w).1.rows
        ≡ some (set_failed (codes "failed_to_queue: " ++ reason) row))
      × (¬ IsConsistent (saved (mark_failed_to_queue a o front id reason w).1))
unfolding set_failed
mark_failed_to_queue-overwrites a o front id reason row w l c found s consistent =
    let m = mark_failed_to_queue a o front id reason w in
    let at =
      marking-IsAt a o front id reason row w m.0 m.1 l c
        ((Ends-mark_failed_to_queue a o front (kept w) id reason row found).at w refl) in
    let marked =
      ap (λ (k : Kept a.Num). find_row id k.rows) at
      ∙ find_row-update_row_same id (set_failed (codes "failed_to_queue: " ++ reason)) w.rows row
          (λ r. refl) found in
    (
      marked,
      λ broken.
          one_or_none (ap (λ (k : Kept a.Num). results_of id k.results) at)
            (success_once a o front id reason row w (results_of id w.results) s
              (consistent.settled id row found))
            (failed_none (set_failed (codes "failed_to_queue: " ++ reason) row) id _
              (broken.settled id _ marked)),
    )
