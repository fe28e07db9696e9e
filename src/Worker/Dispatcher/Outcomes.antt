-- ===== src/Worker/Dispatcher/Outcomes.antt =====
-- What the handler has done when it is through with a message that names a simulation: the broker's
-- answer, the row's state at an ack, and the objects that are still stored.
use allocation_key_simulatio.Base.{
  ℕ, ◌≡◌, ◌≢◌, refl, sym, ◌∙◌, ap, subst, Text, ◌∷◌, Option, none, some, Bool, true, false, ◌⊎◌,
  inl, inr, if◌then◌else◌, Result, ok, raised,
}
use allocation_key_simulatio.Simulation.Number.{Arith}
use allocation_key_simulatio.Simulation.Outcome.{KeySimResult}
use allocation_key_simulatio.Shared.Loading.{Bytes}
use allocation_key_simulatio.Worker.Json.{Event, id, decode, simulation_id}
use allocation_key_simulatio.Worker.World.{
  World, ack, nak, MessageOutcome, find_row, put_entry, drop_entry,
}
use allocation_key_simulatio.Worker.World.Entries.{
  IsStored, put_entry-IsStored, drop_entry-IsStored,
}
use allocation_key_simulatio.Worker.Action.{
  Exc, transient_error, solver_crash, simulation_input, other, object_not_found, transient_storage,
  error_exception, ◌>>◌,
}
use allocation_key_simulatio.Worker.Action.Keeps.{Keeps}
use allocation_key_simulatio.Worker.Action.Ends.{
  Ends, Post, Ends-pure, Ends-bind, Ends-gets, Ends-modify, Ends-call, Ends-after, Ends-before,
  Ends-capture, Ends-beside,
}
use allocation_key_simulatio.Worker.Outside.{Outside}
use allocation_key_simulatio.Worker.Sources.{Terminal}
use allocation_key_simulatio.Worker.Persistence.{save_success, save_failure}
use allocation_key_simulatio.Worker.Persistence.Settles.{Closed, Ends-save_failure}
use allocation_key_simulatio.Worker.Persistence.Keeps.{Keeps-save_success, Keeps-save_failure}
use allocation_key_simulatio.Worker.Process.{process}
use allocation_key_simulatio.Worker.Dispatcher.{
  Msg, nak_retry_delay_seconds, answer_broker, count, delete_safely, settle, handle_id,
  handle_event, handle_message,
}
use allocation_key_simulatio.Worker.Dispatcher.Keeps.{Keeps-process}
use allocation_key_simulatio.Worker.Dispatcher.Settles.{Releases, Done, file_of, Ends-process}

module _ {N : Type 0} where
  -- From `v` to `w`: the broker has got no answer, and every stored object is still stored.
  pub record IsUnanswered (v w : World N) : Type 0 where
    pub replies : w.replies ≡ v.replies
    pub stored : (k : Text) → IsStored k v.objects → IsStored k w.objects

  -- It has got one ack, no row of the id is PENDING, and only the object of `key` may be gone.
  pub record IsAcked (n : ℕ) (key : Option Text) (v w : World N) : Type 0 where
    pub replies : w.replies ≡ ack ∷ v.replies
    pub closed : Closed n w
    pub stored : (k : Text) → some k ≢ key → IsStored k v.objects → IsStored k w.objects

  -- It has got one NAK, and every stored object is still stored.
  pub record IsReturned (v w : World N) : Type 0 where
    pub replies : w.replies ≡ nak nak_retry_delay_seconds ∷ v.replies
    pub stored : (k : Text) → IsStored k v.objects → IsStored k w.objects

  -- By how the handler ends.
  abbrev pub IsAnswered : ℕ → Option Text → World N → Result Exc (Unit {0}) → World N → Type 0
  IsAnswered n key v (ok u) w = IsAcked n key v w ⊎ IsReturned v w
  IsAnswered n key v (raised e) w = IsUnanswered v w

module _ (a : Arith) (o : Outside a) (n : ℕ) (key : Option Text) (v : World a.Num) where
  open a use {Num}

  abbrev Before : World Num → Type 0
  Before w = IsUnanswered v w

  abbrev Answered : Unit {0} → World Num → Type 0
  Answered u w = IsAcked n key v w ⊎ IsReturned v w

  -- Neither the replies nor the objects are what changes.
  same_answers :
      (w w' : World Num) → w'.replies ≡ w.replies → w'.objects ≡ w.objects → Before w → Before w'
  same_answers w w' r q p = record {
    replies = r ∙ p.replies;
    stored = λ j h. subst (IsStored j) (sym q) (p.stored j h);
  }

  put_answers :
      (w : World Num) (k : Text) (x : Bytes)
      → Before w
      → Before (record w { objects = put_entry k x w.objects })
  put_answers w k x p = record {
    replies = p.replies;
    stored = λ j h. put_entry-IsStored k j x w.objects (p.stored j h);
  }

  Keeps-saved :
      (i : ℕ) (r : KeySimResult Num) (path : Text) → Keeps Before (save_success a o i r path)
  Keeps-saved =
      Keeps-save_success a o Before (λ w. same_answers w _ refl refl)
        (λ w rs ts. same_answers w _ refl refl) put_answers
        (λ w xs hs cs. same_answers w _ refl refl)

  pub Keeps-mark : (i : ℕ) (m : Text) → Keeps Before (save_failure a o i m)
  Keeps-mark =
      Keeps-save_failure a o Before (λ w. same_answers w _ refl refl)
        (λ w rs ts. same_answers w _ refl refl) put_answers
        (λ w xs hs cs. same_answers w _ refl refl)

  pub Keeps-processed : (d : Option ℕ) → Keeps Before (process a o n d)
  Keeps-processed =
      Keeps-process a o Before (λ w. same_answers w _ refl refl)
        (λ w fs. same_answers w _ refl refl) Keeps-saved Keeps-mark n

  abbrev Marked : World Num → Type 0
  Marked w = Closed n w × Before w

  ack-IsAcked :
      (w : World Num) → Marked w → IsAcked n key v (record w { replies = ack ∷ w.replies })
  ack-IsAcked w p = record {
    replies = ap (λ rs. ack ∷ rs) p.1.replies;
    closed = p.0;
    stored = λ j d h. p.1.stored j h;
  }

  Ends-ack : Ends Marked (λ u. IsAcked n key v) (λ e. Before) (answer_broker a o ack)
  unfolding answer_broker
  Ends-ack =
      Ends-bind {R = λ u. Marked} _ _
        (Ends-call _ (λ w p. (p.0, same_answers w _ refl refl p.1))
          (λ e w p. same_answers w _ refl refl p.1))
        (λ u. Ends-modify _ ack-IsAcked)

  Ends-nak :
      Ends Before
        (λ u. IsReturned v)
        (λ e. Before)
        (answer_broker a o (nak nak_retry_delay_seconds))
  unfolding answer_broker
  Ends-nak =
      Ends-bind {R = λ u. Before} _ _
        (Ends-call _ (λ w p. same_answers w _ refl refl p) (λ e w p. same_answers w _ refl refl p))
        (λ u. Ends-modify _ (λ w p. record {
          replies = ap (λ rs. nak nak_retry_delay_seconds ∷ rs) p.replies;
          stored = p.stored;
        }))

  released :
      (k : Text) (w : World Num)
      → some k ≡ key
      → IsAcked n key v w
      → IsAcked n key v (record w { objects = drop_entry k w.objects })
  released k w q p = record {
    replies = p.replies;
    closed = p.closed;
    stored = λ j d h. drop_entry-IsStored k j w.objects (λ e. d (ap some e ∙ q)) (p.stored j d h);
  }

  Ends-delete_safely :
      (t : Option Text)
      → (t ≡ none) ⊎ (t ≡ key)
      → Ends (IsAcked n key v) (λ u. IsAcked n key v) (λ e. Before) (delete_safely a o t)
  unfolding delete_safely
  Ends-delete_safely none r = Ends-pure _ (λ w p. p)
  Ends-delete_safely (some k) (inl e) = cc
  Ends-delete_safely (some k) (inr e) =
      Ends-gets _ _ (λ lost. Ends-modify _ (λ w p. dropped lost w p.0))
    where
      dropped :
          (lost : Bool) (w : World Num)
          → IsAcked n key v w
          → IsAcked n key v (if lost then w else record w { objects = drop_entry k w.objects })
      dropped true w p = p
      dropped false w p = released k w e p

  Ends-count :
      (m : MessageOutcome) {Q : World Num → Type 0}
      → ((w : World Num) → Q w → Answered tt (record w { outcomes = m ∷ w.outcomes }))
      → Ends Q Answered (λ e. Before) (count a o m)
  unfolding count
  Ends-count m h = Ends-modify _ h

  recount :
      (m : MessageOutcome) (w : World Num)
      → IsAcked n key v w
      → Answered tt (record w { outcomes = m ∷ w.outcomes })
  recount m w p = inl (record { replies = p.replies; closed = p.closed; stored = p.stored })

  Ends-unhandled :
      (text : Text)
      → Ends Before Answered
          (λ e. Before)
          (do
            save_failure a o n text
            answer_broker a o ack
            count a o MessageOutcome.ack_unhandled)
  Ends-unhandled text =
      Ends-bind {R = λ u. Marked} _ _
        (Ends-before (λ w p. (tt, p))
          (Ends-after (Ends-beside _ (Keeps-mark n text) (Ends-save_failure a o n text))
            (λ e w p. p.1)))
        (λ u.
          Ends-bind {R = λ x. IsAcked n key v} _ _ Ends-ack
            (λ x. Ends-count MessageOutcome.ack_unhandled (recount MessageOutcome.ack_unhandled)))

  Ends-settle :
      (text : Text) (r : Result Exc Terminal)
      → Ends
          (Post (λ t w. Done n key t w × Before w) (λ e. Before) r)
          Answered
          (λ e. Before)
          (settle a o (save_failure a o n text) r)
  unfolding settle
  Ends-settle text (ok t) = record {
    at = λ w p.
        (Ends-bind {P = λ x. Marked x × Releases key t} {R = λ x y. IsAcked n key v y} _ _
            (Ends-before (λ x q. q.0) Ends-ack)
            (λ u.
              Ends-bind {R = λ x y. IsAcked n key v y} _ _ (Ends-delete_safely t.storage_key p.0.1)
                (λ x. Ends-count MessageOutcome.ack (recount MessageOutcome.ack)))).at
          w ((p.0.0, p.1), p.0.1);
  }
  Ends-settle text (raised (transient_error m)) =
      Ends-bind {R = λ u. IsReturned v} _ _ Ends-nak (λ u.
        Ends-count MessageOutcome.nak
          (λ w p. inr (record { replies = p.replies; stored = p.stored })))
  Ends-settle text (raised (solver_crash m)) = Ends-unhandled text
  Ends-settle text (raised (simulation_input m)) = Ends-unhandled text
  Ends-settle text (raised (other m)) = Ends-unhandled text
  Ends-settle text (raised object_not_found) = Ends-unhandled text
  Ends-settle text (raised (transient_storage m)) = Ends-unhandled text
  Ends-settle text (raised (error_exception m)) = Ends-unhandled text

module _ (a : Arith) (o : Outside a) where
  open a use {Num}

  handle_id-IsAnswered :
      (n : ℕ) (d : Option ℕ) (v : World Num)
      → IsAnswered n
          (file_of (find_row n v.rows))
          v
          (handle_id a o d (id n) v).0
          (handle_id a o d (id n) v).1
  unfolding handle_id
  handle_id-IsAnswered n d v =
      let row = find_row n v.rows in
      let key = file_of row in
      (Ends-bind {P = λ w. (find_row n w.rows ≡ row) × IsUnanswered v w} {E = λ e. IsUnanswered v} _
          _
          (Ends-capture _ (
            Ends-after (Ends-beside _ (Keeps-processed a o n key v d) (Ends-process a o n d row))
              (λ e w p. p.1)))
          (λ r. Ends-settle a o n key v _ r)).at
        v (refl, record { replies = refl; stored = λ k h. h })

  -- A message that names a simulation is handled under its id.
  pub handle_message-id :
      (msg : Msg) (event : Event) (n : ℕ)
      → decode msg.payload ≡ some event
      → simulation_id event.content ≡ id n
      → handle_message a o msg ≡ handle_id a o msg.delivered (id n)
  unfolding handle_message handle_event
  handle_message-id msg event n e i = rw (e, i)

  -- For a message that names a simulation, and whatever fails around the worker: if the handler
  -- returns, it has told the broker exactly one thing. If that is an ack, no row of that id is
  -- PENDING, and every stored object is still stored but for the row's own uploaded file; if it is
  -- a NAK, every stored object is still stored. If it raises, it has told the broker nothing and
  -- every stored object is still stored.
  pub handle_message-IsAnswered :
      (msg : Msg) (event : Event) (n : ℕ) (v : World Num)
      → decode msg.payload ≡ some event
      → simulation_id event.content ≡ id n
      → IsAnswered n
          (file_of (find_row n v.rows))
          v
          (handle_message a o msg v).0
          (handle_message a o msg v).1
  handle_message-IsAnswered msg event n v e i =
      subst (λ h. IsAnswered n (file_of (find_row n v.rows)) v (h v).0 (h v).1)
        (sym (handle_message-id msg event n e i)) (handle_id-IsAnswered n msg.delivered v)
