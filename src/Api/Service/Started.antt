-- ===== src/Api/Service/Started.antt =====
-- What stands in the local database, the store and the stream after the event of a new run was
-- published, or could not be.
use allocation_key_simulatio.Base.{
  ℕ, ◌≡◌, ◌⊎◌, refl, sym, ap, ◌∙◌, inl, inr, Text, codes, List, ◌∷◌, ◌++◌, Option, none, some, Bool,
  true, false, if◌then◌else◌, Result, ok, raised,
}
use allocation_key_simulatio.Simulation.Number.{Arith}
use allocation_key_simulatio.Shared.Errors.{Error}
use allocation_key_simulatio.Shared.Models.{SimulationModel, SimulationKeyResultModel}
use allocation_key_simulatio.Shared.Loading.{Bytes}
use allocation_key_simulatio.Worker.World.{World, AuditAction, find_row, update_row, drop_entry}
use allocation_key_simulatio.Worker.Action.{Action, Exc, error_exception, exc_text, modify, call}
use allocation_key_simulatio.Worker.Action.Ends.{
  Post, Ends, Ends-pure, Ends-raise, Ends-capture, Ends-before, Ends-after, Ends-bind, Ends-gets,
  Ends-modify, Ends-fault,
}
use allocation_key_simulatio.Worker.Outside.{Outside}
use allocation_key_simulatio.Worker.Persistence.{set_failed, record_audit}
use allocation_key_simulatio.Worker.Dispatcher.{delete_safely}
use allocation_key_simulatio.Api.Service.{
  Front, refuse, log_audit, create_row, published, send_event, mark_row, mark_failed_to_queue,
  enqueued, enqueue,
}

pub record Kept (N : Type 0) : Type 0 where
  pub rows : List SimulationModel
  pub results : List (SimulationKeyResultModel N)
  pub objects : List (Text × Bytes)
  pub events : List ℕ

module _ {N : Type 0} where
  abbrev pub kept : World N → Kept N
  kept w = record { rows = w.rows; results = w.results; objects = w.objects; events = w.events }

  abbrev pub IsAt : Kept N → World N → Type 0
  IsAt k w = kept w ≡ k

  abbrev pub with_event : ℕ → Kept N → Kept N
  with_event id k = record k { events = id ∷ k.events }

  abbrev pub with_failure : ℕ → Text → Kept N → Kept N
  with_failure id reason k = record k {
    rows = update_row id (set_failed (codes "failed_to_queue: " ++ reason)) k.rows;
  }

abbrev pub Fault : (ℕ → Option Exc) → Exc → Type 0
Fault f e = (t : ℕ) × (f t ≡ some e)

module _ {a : Arith} (o : Outside a) where
  open a use {Num}

  -- The object is deleted, unless there is none or the store lost its deletion.
  pub data IsCleaned (k : Kept Num) (w : World Num) : Option Text → Type 0 where
    absent : IsAt k w → IsCleaned k w none
    lost : (key : Text) (t : ℕ) → o.delete_lost t ≡ true → IsAt k w → IsCleaned k w (some key)
    deleted :
        (key : Text)
        → IsAt (record k { objects = drop_entry key k.objects }) w
        → IsCleaned k w (some key)

  -- A publish that raised: the row is FAILED, the object deleted and the request answered by a 500;
  -- or a database failed too, and its exception is raised.
  pub data IsUnqueued (id : ℕ) (storage_key : Option Text) (k : Kept Num) (reason : Text) (e : Exc)
      (w : World Num) : Type 0 where
    marked :
        e ≡ error_exception (record { error = Error.start_simulation; status_code = 500 })
        → IsCleaned (with_failure id reason k) w storage_key
        → IsUnqueued id storage_key k reason e w
    unmarked : Fault o.local_db e → IsAt k w → IsUnqueued id storage_key k reason e w
    unlogged :
        Fault o.crm_db e
        → IsAt (with_failure id reason k) w
        → IsUnqueued id storage_key k reason e w

  -- The message may be in the stream all the same.
  pub record NotQueued (id : ℕ) (storage_key : Option Text) (k : Kept Num) (e : Exc) (w : World Num)
      : Type 0 where
    pub reason : Text
    pub stream : Kept Num
    pub stored : (stream ≡ k) ⊎ (stream ≡ with_event id k)
    pub unqueued : IsUnqueued id storage_key stream reason e w

missing : (row : SimulationModel) → ◌≡◌ {A = Option SimulationModel} (some row) none → ⊥
missing row h = cc

module _ (a : Arith) (o : Outside a) (front : Front) where
  open a use {Num}

  -- A marking that a database interrupts.
  abbrev pub Halfway : Kept Num → ℕ → Text → Exc → World Num → Type 0
  Halfway k id reason e w =
      (Fault o.local_db e × IsAt k w) ⊎ (Fault o.crm_db e × IsAt (with_failure id reason k) w)

  Ends-either :
      {A : Type 0} {P P' : World Num → Type 0} {Q : A → World Num → Type 0}
      {E : Exc → World Num → Type 0} (m : Action Num A)
      → Ends P Q E m
      → Ends P' Q E m
      → Ends (λ w. P w ⊎ P' w) Q E m
  Ends-either m l r = record { at = λ w p. elim p [ inl q ↦ l.at w q | inr q ↦ r.at w q ] }

  -- A change that may be lost.
  Ends-unless :
      {P : World Num → Type 0} {Q : Unit {0} → World Num → Type 0} {E : Exc → World Num → Type 0}
      (b : Bool) (f : World Num → World Num)
      → (b ≡ true → (w : World Num) → P w → Q tt w)
      → ((w : World Num) → P w → Q tt (f w))
      → Ends P Q E (modify (λ w. if b then w else f w))
  Ends-unless true f g h = Ends-modify _ (g refl)
  Ends-unless false f g h = Ends-modify _ h

  pub Ends-calls :
      (k : Kept Num) (fault : ℕ → Option Exc)
      → Ends (IsAt k) (λ u. IsAt k) (λ e w. Fault fault e × IsAt k w) (call fault)
  Ends-calls k fault = Ends-fault fault (λ w p. p) (λ t e w h p. ((t, h), p))

  pub Ends-delete_safely :
      {E : Exc → World Num → Type 0} (k : Kept Num) (key : Option Text)
      → Ends (IsAt k) (λ u w. IsCleaned o k w key) E (delete_safely a o key)
  unfolding delete_safely
  Ends-delete_safely k none = Ends-pure _ (λ w p. absent p)
  Ends-delete_safely k (some key) = Ends-gets _ _ (λ b.
      Ends-unless b _ (λ t w p. lost key w.clock (p.1 ∙ t) p.0)
        (λ w p.
          deleted key (ap (λ (x : Kept Num). record x { objects = drop_entry key x.objects }) p.0)))

  pub Ends-log_audit :
      {E : Exc → World Num → Type 0} (k : Kept Num) (action : AuditAction) (id community : ℕ)
      → Ends (IsAt k) (λ u. IsAt k) E (log_audit a o front action id community)
  unfolding log_audit
  Ends-log_audit k action id community =
      Ends-gets _ _ (λ b. Ends-unless b _ (λ t w p. p.0) (λ w p. p.0))

  Ends-published :
      (k : Kept Num) (id : ℕ) (stored : Bool) (r : Result Exc (Unit {0}))
      → Ends
          (Post (λ u. IsAt k) (λ e. IsAt k) r)
          (λ u. IsAt (with_event id k))
          (λ e w. IsAt k w ⊎ IsAt (with_event id k) w)
          (published a o front id stored r)
  unfolding published
  Ends-published k id stored (ok u) = Ends-modify _ (λ w p. ap (with_event id) p)
  Ends-published k id true (raised e) =
      Ends-bind {R = λ u. IsAt (with_event id k)} _ _ (Ends-modify _ (λ w p. ap (with_event id) p))
        (λ u. Ends-raise e (λ w p. inr p))
  Ends-published k id false (raised e) =
      Ends-bind {R = λ u. IsAt k} _ _ (Ends-modify _ (λ w p. p)) (λ u. Ends-raise e (λ w p. inl p))

  Ends-send_event :
      (k : Kept Num) (id : ℕ)
      → Ends
          (IsAt k)
          (λ u. IsAt (with_event id k))
          (λ e w. IsAt k w ⊎ IsAt (with_event id k) w)
          (send_event a o front id)
  unfolding send_event
  Ends-send_event k id = Ends-gets _ _ (λ stored.
      Ends-bind {R = λ r w. Post (λ u. IsAt k) (λ e. IsAt k) r w} _ _
        (Ends-capture _
          (Ends-before (λ w p. p.0) (Ends-after (Ends-calls k front.publish) (λ e w p. p.1))))
        (λ r. Ends-published k id stored r))

  Ends-mark_row :
      (k : Kept Num) (id : ℕ) (reason : Text) (row : SimulationModel)
      → Ends
          (IsAt k)
          (λ u. IsAt (with_failure id reason k))
          (Halfway k id reason)
          (mark_row a o front id reason (some row))
  unfolding mark_row record_audit
  Ends-mark_row k id reason row =
      Ends-bind {R = λ u. IsAt k} _ _ (Ends-after (Ends-calls k o.local_db) (λ e w p. inl p)) (λ u.
        Ends-bind {R = λ u. IsAt (with_failure id reason k)} _ _
          (Ends-modify _ (λ w p. ap (with_failure id reason) p))
          (λ v. Ends-gets _ _ (λ b.
            Ends-bind {R = λ u. IsAt (with_failure id reason k)} _ _
              (Ends-before (λ w p. p.0)
                (Ends-after (Ends-calls (with_failure id reason k) o.crm_db) (λ e w p. inr p)))
              (λ x. Ends-unless b _ (λ t w p. p) (λ w p. p)))))

  Ends-mark_found :
      (k : Kept Num) (id : ℕ) (reason : Text) (row : SimulationModel) (v : Option SimulationModel)
      → find_row id k.rows ≡ some row
      → Ends
          (λ w. IsAt k w × (find_row id w.rows ≡ v))
          (λ u. IsAt (with_failure id reason k))
          (Halfway k id reason)
          (mark_row a o front id reason v)
  Ends-mark_found k id reason row (some q) h =
      Ends-before (λ w p. p.0) (Ends-mark_row k id reason q)
  Ends-mark_found k id reason row none h = record {
    at = λ w p.
        absurd (missing row (sym h ∙ ap (λ (x : Kept Num). find_row id x.rows) (sym p.0) ∙ p.1));
  }

  pub Ends-mark_failed_to_queue :
      (k : Kept Num) (id : ℕ) (reason : Text) (row : SimulationModel)
      → find_row id k.rows ≡ some row
      → Ends
          (IsAt k)
          (λ u. IsAt (with_failure id reason k))
          (Halfway k id reason)
          (mark_failed_to_queue a o front id reason)
  unfolding mark_failed_to_queue
  Ends-mark_failed_to_queue k id reason row h =
      Ends-bind {R = λ u. IsAt k} _ _ (Ends-after (Ends-calls k o.local_db) (λ e w p. inl p))
        (λ u. Ends-gets _ _ (λ v. Ends-mark_found k id reason row v h))

  halfway :
      (k : Kept Num) (id : ℕ) (key : Option Text) (reason : Text) (e : Exc) (w : World Num)
      → Halfway k id reason e w
      → IsUnqueued o id key k reason e w
  halfway k id key reason e w (inl p) = unmarked p.0 p.1
  halfway k id key reason e w (inr p) = unlogged p.0 p.1

  Ends-IsUnqueued :
      {Q : ℕ → World Num → Type 0} (k : Kept Num) (id : ℕ) (key : Option Text) (e : Exc)
      (row : SimulationModel)
      → find_row id k.rows ≡ some row
      → Ends (IsAt k) Q (IsUnqueued o id key k (exc_text e)) (enqueued a o front id key (raised e))
  unfolding enqueued refuse
  Ends-IsUnqueued k id key e row h =
      Ends-bind {R = λ u. IsAt (with_failure id (exc_text e) k)} _ _
        (Ends-after (Ends-mark_failed_to_queue k id (exc_text e) row h)
          (halfway k id key (exc_text e)))
        (λ u.
          Ends-bind {R = λ u w. IsCleaned o (with_failure id (exc_text e) k) w key} _ _
            (Ends-delete_safely _ key) (λ v. Ends-raise _ (λ w p. marked refl p)))

  Ends-enqueued :
      (k : Kept Num) (id : ℕ) (key : Option Text) (row : SimulationModel)
      (r : Result Exc (Unit {0}))
      → find_row id k.rows ≡ some row
      → Ends
          (Post (λ u. IsAt (with_event id k)) (λ e w. IsAt k w ⊎ IsAt (with_event id k) w) r)
          (λ v w. IsAt (with_event id k) w × (v ≡ id))
          (NotQueued o id key k)
          (enqueued a o front id key r)
  Ends-enqueued k id key row (ok u) h = unfold enqueued in Ends-pure _ (λ w p. (p, refl))
  Ends-enqueued k id key row (raised e) h =
      Ends-either _
        (Ends-after (Ends-IsUnqueued k id key e row h)
          (λ x w p. record { reason = exc_text e; stream = k; stored = inl refl; unqueued = p }))
        (Ends-after (Ends-IsUnqueued (with_event id k) id key e row h) (λ x w p. record {
          reason = exc_text e;
          stream = with_event id k;
          stored = inr refl;
          unqueued = p;
        }))

  pub Ends-enqueue :
      (k : Kept Num) (id community : ℕ) (key : Option Text) (row : SimulationModel)
      → find_row id k.rows ≡ some row
      → Ends
          (IsAt k)
          (λ v w. IsAt (with_event id k) w × (v ≡ id))
          (NotQueued o id key k)
          (enqueue a o front community key id)
  unfolding enqueue
  Ends-enqueue k id community key row h =
      Ends-bind {R = λ u. IsAt k} _ _ (Ends-log_audit k _ id community) (λ u.
        Ends-bind
          {R = Post (λ u. IsAt (with_event id k)) (λ e w. IsAt k w ⊎ IsAt (with_event id k) w)} _ _
          (Ends-capture _ (Ends-send_event k id)) (λ r. Ends-enqueued k id key row r h))

  pub Ends-create_row :
      (k : Kept Num) (row : ℕ → SimulationModel)
      → Ends
          (IsAt k)
          (λ id w. IsAt (record k { rows = row id ∷ k.rows }) w × (id ≡ front.next_id k.rows))
          (λ e w. Fault o.local_db e × IsAt k w)
          (create_row a o front row)
  unfolding create_row
  Ends-create_row k row = Ends-bind {R = λ u. IsAt k} _ _ (Ends-calls k o.local_db) (λ u.
      Ends-gets _ _ (λ id.
        Ends-bind {R = λ u w. IsAt k w × (id ≡ front.next_id k.rows)} _ _
          (Ends-fault o.local_db
            (λ w p. (p.0, sym p.1 ∙ ap (λ (x : Kept Num). front.next_id x.rows) p.0))
            (λ t e w h p. ((t, h), p.0)))
          (λ v.
            Ends-bind
              {R = λ u w.
                IsAt (record k { rows = row id ∷ k.rows }) w × (id ≡ front.next_id k.rows)}
              _ _
              (Ends-modify _
                (λ w p. (ap (λ (x : Kept Num). record x { rows = row id ∷ x.rows }) p.0, p.1)))
              (λ x. Ends-pure id (λ w p. p)))))
