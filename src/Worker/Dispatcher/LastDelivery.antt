-- ===== src/Worker/Dispatcher/LastDelivery.antt =====
-- The delivery limit (worker/dispatcher.py, `_MAX_DELIVERIES`).
use allocation_key_simulatio.Base.{
  ℕ, ◌≡◌, ◌≢◌, ◌≤◌, refl, sym, ◌∙◌, ap, subst, Text, ◌∷◌, Option, none, some, Bool, true, false,
  inl, inr, Result, ok, raised, if◌then◌else◌, arith,
}
use allocation_key_simulatio.Simulation.Number.{Arith}
use allocation_key_simulatio.Shared.Models.{SimulationModel, SimulationStatus, is_pending}
use allocation_key_simulatio.Worker.Json.{Event, id, decode, simulation_id}
use allocation_key_simulatio.Worker.World.{
  World, AuditAction, MessageOutcome, ack, find_row, drop_entry,
}
use allocation_key_simulatio.Worker.World.Rows.{id_of_found, find_row-update_row_same}
use allocation_key_simulatio.Worker.Action.{
  Exc, transient_error, solver_crash, simulation_input, other, object_not_found, transient_storage,
  error_exception, pure, modify, ◌>>◌,
}
use allocation_key_simulatio.Worker.Action.Ends.{
  Ends, Post, Ends-pure, Ends-bind, Ends-gets, Ends-modify, Ends-fault, Ends-working, Ends-before,
  Ends-capture, Ends-beside, Ends-if, Ends-as,
}
use allocation_key_simulatio.Worker.Outside.{Outside}
use allocation_key_simulatio.Worker.Persistence.{
  set_failed, claims, record_audit, emit_finished, announce, finish_failure, failure_of,
  save_failure,
}
use allocation_key_simulatio.Worker.Persistence.Settles.{Closed}
use allocation_key_simulatio.Worker.Sources.{SimulationSnapshot, Terminal, fail}
use allocation_key_simulatio.Worker.Process.{
  reached, max_deliveries, snapshot_of, process_pending, process_row, process,
}
use allocation_key_simulatio.Worker.Dispatcher.{
  Msg, answer_broker, count, delete_safely, settle, handle_id, handle_message,
}
use allocation_key_simulatio.Worker.Dispatcher.Settles.{file_of}
use allocation_key_simulatio.Worker.Dispatcher.Outcomes.{
  IsUnanswered, IsAcked, IsAnswered, handle_message-IsAnswered, handle_message-id, Keeps-processed,
  Keeps-mark,
}

module _ {N : Type 0} where
  -- The exception is not one that asks for a redelivery, and the simulation is closed.
  abbrev pub Final : ℕ → Exc → World N → Type 0
  Final n e w = ((t : Text) → e ≢ transient_error t) × Closed n w

module _ (a : Arith) (o : Outside a) (n : ℕ) (database_answers : (t : ℕ) → o.local_db t ≡ none)
    (crm_is_not_transient : (t : ℕ) (x : Text) → o.crm_db t ≢ some (transient_error x)) where
  open a use {Num}

  abbrev Start : World Num → Type 0
  Start w = Unit {0}

  Ends-unless :
      (lost : Bool) (f : World Num → World Num) (E : Exc → World Num → Type 0)
      → ((w : World Num) → Closed n w → Closed n (f w))
      → Ends (Closed n) (λ u. Closed n) E (modify (λ w. if lost then w else f w))
  Ends-unless true f E h = Ends-modify _ (λ w p. p)
  Ends-unless false f E h = Ends-modify _ h

  Ends-announce :
      (x : AuditAction) (i c : ℕ) (s : SimulationStatus)
      → Ends (Closed n) (λ u. Closed n) (Final n) (announce a o x i c s)
  unfolding announce record_audit emit_finished
  Ends-announce x i c s = Ends-bind {R = λ u. Closed n} _ _ (Ends-modify _ (λ w p. p)) (λ u.
      Ends-bind {R = λ u. Closed n} _ _
        (Ends-gets _ _ (λ lost.
          Ends-before (λ w p. p.0)
            (Ends-bind {R = λ u. Closed n} _ _
              (Ends-fault _ (λ w p. p)
                (λ t e w q p. ((λ y z. crm_is_not_transient t y (q ∙ ap some z)), p)))
              (λ v. Ends-unless lost _ (Final n) (λ w p. p)))))
        (λ v.
          Ends-gets _ _
            (λ lost. Ends-before (λ w p. p.0) (Ends-unless lost _ (Final n) (λ w p. p)))))

  Ends-finish_failure :
      (row : SimulationModel) (c : ℕ) (m : Text)
      → Ends
          (λ w. find_row n w.rows ≡ some row)
          (λ u. Closed n)
          (Final n)
          (finish_failure a o n c m)
  unfolding finish_failure set_failed
  Ends-finish_failure row c m =
      Ends-bind {R = λ u w. find_row n w.rows ≡ some row} _ _
        (Ends-working _ database_answers (λ w p. p))
        (λ u.
          Ends-bind {R = λ u. Closed n} _ _
            (Ends-modify _ (λ w h.
              ap claims (find_row-update_row_same n (set_failed m) w.rows row (λ r. refl) h)))
            (λ v. Ends-announce _ _ _ _))

  Ends-failure_of :
      (row : Option SimulationModel) (m : Text)
      → Ends (λ w. find_row n w.rows ≡ row) (λ u. Closed n) (Final n) (failure_of a o row n m)
  unfolding failure_of
  Ends-failure_of none m = Ends-pure _ (λ w h. ap claims h)
  Ends-failure_of (some row) m =
      Ends-bind {R = λ u w. find_row n w.rows ≡ some row} _ _
        (Ends-working _ database_answers (λ w p. p)) (λ u. Ends-gets _ _ (λ claimed. go claimed))
    where
      go :
          (claimed : Bool)
          → Ends
              (λ w. (find_row n w.rows ≡ some row) × (claims (find_row n w.rows) ≡ claimed))
              (λ u. Closed n)
              (Final n)
              (if claimed then finish_failure a o n row.id_community m else pure tt)
      go true = Ends-before (λ w p. p.0) (Ends-finish_failure row _ m)
      go false = Ends-pure _ (λ w p. p.1)

  Ends-save_failure : (m : Text) → Ends Start (λ u. Closed n) (Final n) (save_failure a o n m)
  unfolding save_failure
  Ends-save_failure m =
      Ends-bind {R = λ u. Start} _ _ (Ends-working _ database_answers (λ w p. tt))
        (λ u. Ends-gets _ _ (λ row. Ends-before (λ w p. p.1) (Ends-failure_of row m)))

  Ends-fail : (m : Text) (k : Option Text) → Ends Start (λ t. Closed n) (Final n) (fail a o n m k)
  unfolding fail
  Ends-fail m k =
      Ends-bind {R = λ u. Closed n} _ _ (Ends-save_failure m) (λ u. Ends-pure _ (λ w p. p))

  Ends-process_pending :
      (s : SimulationSnapshot) (d : Option ℕ)
      → s.id ≡ n
      → reached max_deliveries d ≡ true
      → Ends Start (λ t. Closed n) (Final n) (process_pending a o s d)
  unfolding process_pending
  Ends-process_pending s d i r = rw (r, i) (Ends-fail _ s.file_storage_key)

  Ends-process_row :
      (d : Option ℕ) (row : Option SimulationModel)
      → reached max_deliveries d ≡ true
      → Ends (λ w. find_row n w.rows ≡ row) (λ t. Closed n) (Final n) (process_row a o d row)
  unfolding process_row snapshot_of
  Ends-process_row d none r = Ends-pure _ (λ w h. ap claims h)
  Ends-process_row d (some row) r =
      Ends-if (is_pending row.status) _ _
        (λ q. record {
          at = λ w h.
              (Ends-process_pending (snapshot_of row) d (id_of_found n w.rows row h) r).at w tt;
        })
        (λ q. Ends-pure _ (λ w h. ap claims h ∙ q))

  Ends-process :
      (d : Option ℕ)
      → reached max_deliveries d ≡ true
      → Ends Start (λ t. Closed n) (Final n) (process a o n d)
  unfolding process
  Ends-process d r =
      Ends-bind {R = λ u. Start} _ _ (Ends-working _ database_answers (λ w p. tt))
        (λ u. Ends-gets _ _ (λ row. Ends-before (λ w p. p.1) (Ends-process_row d row r)))

  -- No exception.
  abbrev Never : Exc → World Num → Type 0
  Never e w = true ≡ false

  Ends-failure_again :
      (row : Option SimulationModel) (m : Text)
      → Ends (Closed n) (λ u. Closed n) Never (failure_of a o row n m)
  unfolding failure_of
  Ends-failure_again none m = Ends-pure _ (λ w p. p)
  Ends-failure_again (some row) m =
      Ends-bind {R = λ u. Closed n} _ _ (Ends-working _ database_answers (λ w p. p))
        (λ u. Ends-gets _ _ (λ claimed. go claimed))
    where
      go :
          (claimed : Bool)
          → Ends
              (λ w. Closed n w × (claims (find_row n w.rows) ≡ claimed))
              (λ u. Closed n)
              Never
              (if claimed then finish_failure a o n row.id_community m else pure tt)
      go true = record { at = λ w p. absurd (grind (arith, p.0, p.1)) }
      go false = Ends-pure _ (λ w p. p.0)

  Ends-save_again : (m : Text) → Ends (Closed n) (λ u. Closed n) Never (save_failure a o n m)
  unfolding save_failure
  Ends-save_again m =
      Ends-bind {R = λ u. Closed n} _ _ (Ends-working _ database_answers (λ w p. p))
        (λ u. Ends-gets _ _ (λ row. Ends-before (λ w p. p.0) (Ends-failure_again row m)))

  module _ (broker_answers : (t : ℕ) → o.reply t ≡ none) (v : World a.Num) where
    abbrev Acked : Unit {0} → World Num → Type 0
    Acked u w = w.replies ≡ ack ∷ v.replies

    Ends-ack : Ends (IsUnanswered v) Acked Never (answer_broker a o ack)
    unfolding answer_broker
    Ends-ack =
        Ends-bind {R = λ u. IsUnanswered v} _ _
          (Ends-working _ broker_answers (λ w p. record { replies = p.replies; stored = p.stored }))
          (λ u. Ends-modify _ (λ w p. ap (λ rs. ack ∷ rs) p.replies))

    Ends-count : (m : MessageOutcome) → Ends (Acked tt) Acked Never (count a o m)
    unfolding count
    Ends-count m = Ends-modify _ (λ w p. p)

    Ends-delete_safely : (k : Option Text) → Ends (Acked tt) Acked Never (delete_safely a o k)
    unfolding delete_safely
    Ends-delete_safely none = Ends-pure _ (λ w p. p)
    Ends-delete_safely (some k) = Ends-gets _ _ (λ lost. Ends-modify _ (λ w p. dropped lost w p.0))
      where
        dropped :
            (lost : Bool) (w : World Num)
            → Acked tt w
            → Acked tt (if lost then w else record w { objects = drop_entry k w.objects })
        dropped true w p = p
        dropped false w p = p

    Ends-unhandled :
        (e : Exc) (text : Text)
        → Ends
            (λ w. Final n e w × IsUnanswered v w)
            Acked
            Never
            (do
              save_failure a o n text
              answer_broker a o ack
              count a o MessageOutcome.ack_unhandled)
    Ends-unhandled e text =
        Ends-bind {R = λ u. IsUnanswered v} _ _
          (Ends-before (λ w p. (p.0.1, p.1))
            (Ends-as (λ u w p. p.1) (λ x w p. p.0)
              (Ends-beside _ (Keeps-mark a o n none v n text) (Ends-save_again text))))
          (λ u. Ends-bind {R = Acked} _ _ Ends-ack (λ x. Ends-count MessageOutcome.ack_unhandled))

    Ends-settle :
        (text : Text) (r : Result Exc Terminal)
        → Ends
            (Post (λ t w. Closed n w × IsUnanswered v w) (λ e w. Final n e w × IsUnanswered v w) r)
            Acked
            Never
            (settle a o (save_failure a o n text) r)
    unfolding settle
    Ends-settle text (ok t) =
        Ends-before (λ w p. p.1)
          (Ends-bind {R = Acked} _ _ Ends-ack (λ u.
            Ends-bind {R = Acked} _ _ (Ends-delete_safely t.storage_key)
              (λ x. Ends-count MessageOutcome.ack)))
    Ends-settle text (raised (transient_error m)) = record { at = λ w p. absurd (p.0.0 m refl) }
    Ends-settle text (raised (solver_crash m)) = Ends-unhandled (solver_crash m) text
    Ends-settle text (raised (simulation_input m)) = Ends-unhandled (simulation_input m) text
    Ends-settle text (raised (other m)) = Ends-unhandled (other m) text
    Ends-settle text (raised object_not_found) = Ends-unhandled object_not_found text
    Ends-settle text (raised (transient_storage m)) = Ends-unhandled (transient_storage m) text
    Ends-settle text (raised (error_exception m)) = Ends-unhandled (error_exception m) text

    Ends-handle_id :
        (d : Option ℕ)
        → reached max_deliveries d ≡ true
        → Ends (IsUnanswered v) Acked Never (handle_id a o d (id n))
    unfolding handle_id
    Ends-handle_id d r =
        Ends-bind _ _
          (Ends-capture _ (
            Ends-before (λ w p. (tt, p))
              (Ends-beside _ (Keeps-processed a o n none v d) (Ends-process d r))))
          (λ s. Ends-settle _ s)

    only-Acked :
        (key : Option Text) (r : Result Exc (Unit {0})) (w : World Num)
        → Post Acked Never r w
        → IsAnswered n key v r w
        → (r ≡ ok tt) × IsAcked n key v w
    only-Acked key (ok u) w p (inl q) = (refl, q)
    only-Acked key (ok u) w p (inr q) = absurd (grind (arith, sym p ∙ q.replies))
    only-Acked key (raised e) w p q = absurd (grind (arith, p))

    -- If the local database and the broker answer, and the CRM's exceptions are not the handler's
    -- own transient error, a message that names a simulation and is delivered for the 10th time or
    -- later is acked: the handler returns, no row of that id is PENDING, and every stored object is
    -- still stored but for the row's own uploaded file.
    pub handle_message-IsAcked :
        (msg : Msg) (event : Event) (d : ℕ)
        → decode msg.payload ≡ some event
        → simulation_id event.content ≡ id n
        → msg.delivered ≡ some d
        → max_deliveries ≤ d
        → ((handle_message a o msg v).0 ≡ ok tt)
          × IsAcked n (file_of (find_row n v.rows)) v (handle_message a o msg v).1
    unfolding reached
    handle_message-IsAcked msg event d e i m h =
        let limit : reached max_deliveries msg.delivered ≡ true = rw m (ground arith) in
        only-Acked (file_of (find_row n v.rows)) _ _
          (subst (λ f. Post Acked Never (f v).0 (f v).1)
            (sym (handle_message-id a o msg event n e i))
            ((Ends-handle_id msg.delivered limit).at v
              (record { replies = refl; stored = λ k z. z })))
          (handle_message-IsAnswered a o msg event n v e i)
