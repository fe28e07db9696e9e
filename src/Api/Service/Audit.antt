-- ===== src/Api/Service/Audit.antt =====
-- What a request leaves in the CRM's audit log.
use allocation_key_simulatio.Base.{
  ℕ, suc, ◌≡◌, refl, Text, List, [], ◌∷◌, Option, none, some, Bool, true, false, Result, ok, raised,
}
use allocation_key_simulatio.Simulation.Number.{Arith}
use allocation_key_simulatio.Simulation.Inputs.{AllocationKeyModel}
use allocation_key_simulatio.Shared.Errors.{Error, ErrorException}
use allocation_key_simulatio.Shared.Models.{SimulationModel}
use allocation_key_simulatio.Shared.Loading.{Bytes}
use allocation_key_simulatio.Shared.Preflight.{Preflight, Blocker}
use allocation_key_simulatio.Worker.World.{
  World, AuditAction, AuditEntry, simulation_created, simulation_queue_failed, simulation_succeeded,
  simulation_failed, simulation_deleted,
}
use allocation_key_simulatio.Worker.Action.{Action, Exc, call}
use allocation_key_simulatio.Worker.Action.Keeps.{
  Keeps, Keeps-pure, Keeps-raise, Keeps-gets, Keeps-bind, Keeps-modify, Keeps-call, Keeps-unless,
  keeps_rules,
}
use allocation_key_simulatio.Worker.Outside.{Outside, Period}
use allocation_key_simulatio.Worker.Persistence.{record_audit}
use allocation_key_simulatio.Worker.Process.{read_crm_key}
use allocation_key_simulatio.Worker.Dispatcher.{delete_safely}
use allocation_key_simulatio.Api.Service.{
  Front, UploadFile, SimulateRequest, SimulateFromCrmRequest, refuse, log_audit, create_row,
  published, send_event, mark_row, mark_failed_to_queue, enqueued, enqueue,
}
use allocation_key_simulatio.Api.Service.Requests.{
  upload, created, uploaded, store, check_shape, with_content, start_with_key, start_simulation,
  preview_operation, preview_with_key, preview_crm_data, start_previewed, start_from_key,
  start_simulation_from_crm, route, for_community, post_simulation, post_from_crm,
}

-- The entries that say a simulation was created.
unfoldable pub created_entries : List AuditEntry → ℕ
created_entries [] = 0
created_entries (e ∷ es) =
    let n = created_entries es in
    elim e.action [
      | simulation_created ↦ suc n
      | simulation_queue_failed ↦ n
      | simulation_succeeded ↦ n
      | simulation_failed ↦ n
      | simulation_deleted ↦ n
    ]

module _ (a : Arith) (o : Outside a) (front : Front) (n : ℕ) where
  open a use {Num}

  abbrev Same : World Num → Type 0
  Same w = created_entries w.audits ≡ n

  Keeps-calls : (fault : ℕ → Option Exc) → Keeps Same (call fault)
  Keeps-calls fault = Keeps-call fault (λ w p. p)

  Keeps-refuse :
      {A : Type 0} (e : Error) (status : ℕ) → Keeps Same (refuse {N = Num} {A = A} e status)
  unfolding refuse
  Keeps-refuse e status = Keeps-raise _

  Keeps-delete_safely : (key : Option Text) → Keeps Same (delete_safely a o key)
  unfolding delete_safely
  Keeps-delete_safely none = Keeps-pure _
  Keeps-delete_safely (some key) = Keeps-bind _ _ (Keeps-gets _) (λ b. Keeps-unless b _ (λ w p. p))

  Keeps-log_audit :
      (x : AuditAction) (id community : ℕ) → Keeps Same (log_audit a o front x id community)
  unfolding log_audit
  Keeps-log_audit x id community = Keeps-bind _ _ (Keeps-gets _) (λ b. Keeps-unless b _ (λ w p. p))

  Keeps-create_row : (row : ℕ → SimulationModel) → Keeps Same (create_row a o front row)
  unfolding create_row
  Keeps-create_row row = Keeps-bind _ _ (Keeps-calls _) (λ u. Keeps-bind _ _ (Keeps-gets _) (λ id.
      Keeps-bind _ _ (Keeps-calls _)
        (λ u. Keeps-bind _ _ (Keeps-modify _ (λ w p. p)) (λ u. Keeps-pure _))))

  Keeps-published :
      (id : ℕ) (stored : Bool) (r : Result Exc (Unit {0}))
      → Keeps Same (published a o front id stored r)
  unfolding published
  Keeps-published id stored (ok u) = Keeps-modify _ (λ w p. p)
  Keeps-published id true (raised e) =
      Keeps-bind _ _ (Keeps-modify _ (λ w p. p)) (λ u. Keeps-raise _)
  Keeps-published id false (raised e) =
      Keeps-bind _ _ (Keeps-modify _ (λ w p. p)) (λ u. Keeps-raise _)

  Keeps-mark_row :
      (id : ℕ) (reason : Text) (row : Option SimulationModel)
      → Keeps Same (mark_row a o front id reason row)
  unfolding mark_row record_audit created_entries
  Keeps-mark_row id reason none = Keeps-pure _
  Keeps-mark_row id reason (some row) = Keeps-bind _ _ (Keeps-calls _) (λ u.
      Keeps-bind _ _ (Keeps-modify _ (λ w p. p)) (λ u.
        Keeps-bind _ _ (Keeps-gets _)
          (λ b. Keeps-bind _ _ (Keeps-calls _) (λ u. Keeps-unless b _ (λ w p. p)))))

  Keeps-enqueued :
      (id : ℕ) (key : Option Text) (r : Result Exc (Unit {0}))
      → Keeps Same (enqueued a o front id key r)
  unfolding enqueued mark_failed_to_queue
  Keeps-enqueued id key (ok u) = Keeps-pure _
  Keeps-enqueued id key (raised e) =
      search (keeps_rules, Keeps-calls, Keeps-mark_row, Keeps-delete_safely, Keeps-refuse)

  Keeps-enqueue :
      (community : ℕ) (key : Option Text) (id : ℕ) → Keeps Same (enqueue a o front community key id)
  unfolding enqueue send_event
  Keeps-enqueue community key id =
      search (keeps_rules, Keeps-calls, Keeps-log_audit, Keeps-published, Keeps-enqueued) depth 9

  Keeps-created :
      (community : ℕ) (key : Text) (r : Result Exc ℕ)
      → Keeps Same (created a o front community key r)
  unfolding created
  Keeps-created community key (ok id) = Keeps-enqueue _ _ _
  Keeps-created community key (raised e) = search (keeps_rules, Keeps-delete_safely)

  Keeps-uploaded :
      (req : SimulateRequest) (community : ℕ) (key file_name key_name : Text)
      (r : Result Exc (Unit {0}))
      → Keeps Same (uploaded a o front req community key file_name key_name r)
  unfolding uploaded
  Keeps-uploaded req community key file_name key_name (raised e) = Keeps-refuse _ _
  Keeps-uploaded req community key file_name key_name (ok u) =
      search (keeps_rules, Keeps-create_row, Keeps-created)

  Keeps-upload : (key : Text) (content : Bytes) → Keeps Same (upload a o front key content)
  unfolding upload
  Keeps-upload key content = Keeps-bind _ _ (Keeps-calls _) (λ u. Keeps-modify _ (λ w p. p))

  Keeps-with_content :
      (req : SimulateRequest) (file : UploadFile) (community : ℕ) (key : AllocationKeyModel Num)
      (r : Result ErrorException Bytes)
      → Keeps Same (with_content a o front req file community key r)
  unfolding with_content check_shape store
  Keeps-with_content req file community key (raised e) = Keeps-raise _
  Keeps-with_content req file community key (ok content) =
      search (keeps_rules, Keeps-refuse, Keeps-upload, Keeps-uploaded) depth 9

  Keeps-start_with_key :
      (req : SimulateRequest) (file : UploadFile) (community : ℕ)
      (key : Option (AllocationKeyModel Num))
      → Keeps Same (start_with_key a o front req file community key)
  unfolding start_with_key
  Keeps-start_with_key req file community none = Keeps-refuse _ _
  Keeps-start_with_key req file community (some key) = Keeps-with_content _ _ _ _ _

  Keeps-read_crm_key : (id community : ℕ) → Keeps Same (read_crm_key a o id community)
  unfolding read_crm_key
  Keeps-read_crm_key id community = search (keeps_rules, Keeps-calls)

  Keeps-start_simulation :
      (req : SimulateRequest) (file : UploadFile) (community : ℕ)
      → Keeps Same (start_simulation a o front req file community)
  unfolding start_simulation
  Keeps-start_simulation req file community =
      search (keeps_rules, Keeps-read_crm_key, Keeps-start_with_key)

  Keeps-preview_operation :
      (key : AllocationKeyModel Num) (period : Period) (known : Bool)
      → Keeps Same (preview_operation a o front key period known)
  unfolding preview_operation
  Keeps-preview_operation key period false = Keeps-refuse _ _
  Keeps-preview_operation key period true = search (keeps_rules, Keeps-calls)

  Keeps-preview_with_key :
      (key : Option (AllocationKeyModel Num)) (period : Period)
      → Keeps Same (preview_with_key a o front key period)
  unfolding preview_with_key
  Keeps-preview_with_key none period = Keeps-refuse _ _
  Keeps-preview_with_key (some key) period =
      search (keeps_rules, Keeps-calls, Keeps-preview_operation)

  Keeps-start_previewed :
      (req : SimulateFromCrmRequest) (community : ℕ) (name : Text) (p : Preflight Num)
      (bs : List Blocker)
      → Keeps Same (start_previewed a o front req community name p bs)
  unfolding start_previewed
  Keeps-start_previewed req community name p [] =
      search (keeps_rules, Keeps-create_row, Keeps-enqueue)
  Keeps-start_previewed req community name p (b ∷ bs) = Keeps-refuse _ _

  Keeps-start_from_key :
      (req : SimulateFromCrmRequest) (community : ℕ) (key : Option (AllocationKeyModel Num))
      → Keeps Same (start_from_key a o front req community key)
  unfolding start_from_key preview_crm_data
  Keeps-start_from_key req community none = Keeps-refuse _ _
  Keeps-start_from_key req community (some key) =
      search
        (
          keeps_rules, Keeps-refuse, Keeps-read_crm_key, Keeps-preview_with_key,
          Keeps-start_previewed,
        )
        depth 9

  Keeps-start_simulation_from_crm :
      (req : SimulateFromCrmRequest) (community : ℕ)
      → Keeps Same (start_simulation_from_crm a o front req community)
  unfolding start_simulation_from_crm
  Keeps-start_simulation_from_crm req community =
      search (keeps_rules, Keeps-read_crm_key, Keeps-start_from_key)

  Keeps-route :
      {A : Type 0} (e : Error) (community : Option ℕ) (m : ℕ → Action Num A)
      → ((c : ℕ) → Keeps Same (m c))
      → Keeps Same (route e (for_community community m))
  unfolding route for_community
  Keeps-route e none m k = record { at = (Keeps-refuse Error.unauthorized 401).at }
  Keeps-route e (some c) m k = record { at = (k c).at }

-- Whatever the request and however it ends, starting a simulation from a file or from the CRM
-- leaves the audit log with the entries about created simulations that it had: the entry that the
-- service writes for a new simulation is staged on a session that nothing commits.
pub post-audits :
    (a : Arith) (o : Outside a) (front : Front) (req : SimulateRequest) (file : UploadFile)
    (from_crm : SimulateFromCrmRequest) (community : Option ℕ) (w : World a.Num)
    → (created_entries (post_simulation a o front req file community w).1.audits
        ≡ created_entries w.audits)
      × (created_entries (post_from_crm a o front from_crm community w).1.audits
          ≡ created_entries w.audits)
unfolding post_simulation post_from_crm
post-audits a o front req file from_crm community w =
    let n = created_entries w.audits in
    (
      (Keeps-route a o front n _ community _ (Keeps-start_simulation a o front n req file)).at w
          refl,
      (Keeps-route a o front n _ community _
            (Keeps-start_simulation_from_crm a o front n from_crm)).at
          w refl,
    )
