-- ===== src/Api/Service/Answered.antt =====
-- How a request to simulate an uploaded file ends: the run is queued, or it was refused before
-- anything was stored, or a part of it failed.
use allocation_key_simulatio.Base.{
  ℕ, ◌≤◌, ◌<◌, ◌≡◌, refl, sym, ap, subst, ◌∙◌, Text, [], ◌∷◌, Option, none, some, true, false,
  is_empty, Result, ok, raised, ==_refl,
}
use allocation_key_simulatio.Simulation.Number.{Arith}
use allocation_key_simulatio.Simulation.Inputs.{AllocationKeyModel, from_crm_allocation_key}
use allocation_key_simulatio.Shared.Errors.{Error, ErrorException}
use allocation_key_simulatio.Shared.Models.{SimulationModel}
use allocation_key_simulatio.Shared.Loading.{Bytes}
use allocation_key_simulatio.Worker.World.{World, find_row, put_entry}
use allocation_key_simulatio.Worker.Action.{Exc, error_exception}
use allocation_key_simulatio.Worker.Action.Ends.{
  Post, Ends, Ends-pure, Ends-raise, Ends-if, Ends-capture, Ends-before, Ends-after, Ends-as,
  Ends-bind, Ends-gets, Ends-modify,
}
use allocation_key_simulatio.Worker.Outside.{Outside}
use allocation_key_simulatio.Worker.Process.{read_crm_key}
use allocation_key_simulatio.Shared.ProblemSize.{max_simulation_cells}
use allocation_key_simulatio.Api.Service.Cells.{cells, is_oversize-false, is_oversize-true}
use allocation_key_simulatio.Api.Upload.{Shape, read_within_cap, upload_max_body_bytes, measure}
use allocation_key_simulatio.Api.Service.{
  Front, UploadFile, SimulateRequest, file_name_of, file_row, refuse, upload_storage_key, enqueue,
}
use allocation_key_simulatio.Api.Service.Requests.{
  upload, created, uploaded, store, check_shape, with_content, start_with_key, start_simulation,
}
use allocation_key_simulatio.Api.Service.Started.{
  Kept, kept, IsAt, with_event, IsCleaned, Fault, NotQueued, Ends-calls, Ends-delete_safely,
  Ends-enqueue, Ends-create_row,
}

module _ {N : Type 0} where
  abbrev pub with_object : Text → Bytes → Kept N → Kept N
  with_object key content k = record k { objects = put_entry key content k.objects }

  abbrev pub with_row : SimulationModel → Kept N → Kept N
  with_row row k = record k { rows = row ∷ k.rows }

abbrev pub refusal : Error → ℕ → Exc
refusal error status_code = error_exception (record { error = error; status_code = status_code })

module _ (a : Arith) (o : Outside a) (front : Front) (req : SimulateRequest) (file : UploadFile)
    (community t : ℕ) where
  open a use {Num}

  -- What the CRM has under the request's key in the request's community, at the look-up.
  abbrev pub crm_key : Option (AllocationKeyModel Num)
  crm_key = o.allocation_key t req.id_key community

  abbrev pub shape_of_file : Bytes → Option Shape
  shape_of_file content = measure front.formats content (file_name_of file.filename)

  -- A file that was read whole is not empty, and its run has as many cells as it may at most, where
  -- its rows can be counted.
  pub record IsAccepted (key : AllocationKeyModel Num) (content : Bytes) : Type 0 where
    pub found : crm_key ≡ some key
    pub read : read_within_cap file.chunks upload_max_body_bytes [] ≡ ok content
    pub full : is_empty content ≡ false
    pub fits :
        (s : Shape)
        → shape_of_file content ≡ some s
        → cells (from_crm_allocation_key key) s ≤ max_simulation_cells

  -- The accepted file's key in the store, and the row that stands for it.
  pub record IsUpload (storage_key : Text) (content : Bytes) (row : ℕ → SimulationModel)
      : Type 0 where
    pub key : AllocationKeyModel Num
    pub accepted : IsAccepted key content
    pub uuid : Text
    pub stored_as : storage_key ≡ upload_storage_key community uuid (file_name_of file.filename)
    pub named : row ≡ file_row req community storage_key (file_name_of file.filename) key.name

  -- Why a request is refused before anything of it is stored: the first check that fails.
  pub data Refusal (e : Exc) : Type 0 where
    unread : Fault o.crm_db e → Refusal e
    no_key : crm_key ≡ none → e ≡ refusal Error.key_not_found 404 → Refusal e
    over_cap :
        (key : AllocationKeyModel Num) (x : ErrorException)
        → crm_key ≡ some key
        → read_within_cap file.chunks upload_max_body_bytes [] ≡ raised x
        → e ≡ error_exception x
        → Refusal e
    empty :
        (key : AllocationKeyModel Num) (content : Bytes)
        → crm_key ≡ some key
        → read_within_cap file.chunks upload_max_body_bytes [] ≡ ok content
        → is_empty content ≡ true
        → e ≡ refusal Error.invalid_file 422
        → Refusal e
    oversize :
        (key : AllocationKeyModel Num) (content : Bytes) (s : Shape)
        → crm_key ≡ some key
        → read_within_cap file.chunks upload_max_body_bytes [] ≡ ok content
        → is_empty content ≡ false
        → shape_of_file content ≡ some s
        → max_simulation_cells < cells (from_crm_allocation_key key) s
        → e ≡ refusal Error.simulation_too_large 422
        → Refusal e
    not_stored :
        (key : AllocationKeyModel Num) (content : Bytes) (x : Exc)
        → IsAccepted key content
        → Fault o.upload x
        → e ≡ refusal Error.storage_upload_failed 502
        → Refusal e

  pub record IsQueued (k : Kept Num) (id : ℕ) (w : World Num) : Type 0 where
    pub storage_key : Text
    pub content : Bytes
    pub row : ℕ → SimulationModel
    pub upload : IsUpload storage_key content row
    pub fresh : id ≡ front.next_id k.rows
    pub at : IsAt (with_event id (with_row (row id) (with_object storage_key content k))) w

  pub data IsUnstarted (k : Kept Num) (e : Exc) (w : World Num) : Type 0 where
    refused : Refusal e → IsAt k w → IsUnstarted k e w
    -- The row was not committed: the object is deleted again.
    unsaved :
        (storage_key : Text) (content : Bytes) (row : ℕ → SimulationModel)
        → IsUpload storage_key content row
        → Fault o.local_db e
        → IsCleaned o (with_object storage_key content k) w (some storage_key)
        → IsUnstarted k e w
    unqueued :
        (storage_key : Text) (content : Bytes) (row : ℕ → SimulationModel)
        → IsUpload storage_key content row
        → NotQueued o
            (front.next_id k.rows)
            (some storage_key)
            (with_row (row (front.next_id k.rows)) (with_object storage_key content k))
            e
            w
        → IsUnstarted k e w

  module _ (k : Kept Num) where
    Ends-refuse :
        {Q : ℕ → World Num → Type 0} (error : Error) (status : ℕ)
        → Refusal (refusal error status)
        → Ends (IsAt k) Q (IsUnstarted k) (refuse error status)
    unfolding refuse
    Ends-refuse error status r = Ends-raise _ (λ w p. refused r p)

    module _ (storage_key : Text) (content : Bytes) (row : ℕ → SimulationModel)
        (u : IsUpload storage_key content row) where
      abbrev stored : Kept Num
      stored = with_object storage_key content k

      row_found : (id : ℕ) → find_row id (row id ∷ k.rows) ≡ some (row id)
      unfolding find_row file_row
      row_found id = rw (u.named, ==_refl id) refl

      Ends-IsQueued :
          (id : ℕ)
          → id ≡ front.next_id k.rows
          → Ends
              (IsAt (with_row (row id) stored))
              (IsQueued k)
              (IsUnstarted k)
              (enqueue a o front community (some storage_key) id)
      Ends-IsQueued id h =
          Ends-as
            (λ v w q. record {
              storage_key = storage_key;
              content = content;
              row = row;
              upload = u;
              fresh = q.1 ∙ h;
              at = subst (λ (n : ℕ). IsAt (with_event n (with_row (row n) stored)) w) (sym q.1) q.0;
            })
            (λ e w q. unqueued storage_key content row u (
              subst (λ (n : ℕ). NotQueued o n (some storage_key) (with_row (row n) stored) e w) h
                q))
            (Ends-enqueue a o front (with_row (row id) stored) id community (some storage_key)
              (row id) (row_found id))

      Ends-created :
          (r : Result Exc ℕ)
          → Ends
              (Post
                (λ id w. IsAt (with_row (row id) stored) w × (id ≡ front.next_id k.rows))
                (λ e w. Fault o.local_db e × IsAt stored w)
                r)
              (IsQueued k)
              (IsUnstarted k)
              (created a o front community storage_key r)
      unfolding created
      Ends-created (ok id) = record { at = λ w p. (Ends-IsQueued id p.1).at w p.0 }
      Ends-created (raised e) = record {
        at = λ w p.
            (Ends-bind {R = λ v x. IsCleaned o stored x (some storage_key)} _ _
                (Ends-delete_safely a o front stored (some storage_key))
                (λ v. Ends-raise e (λ x q. unsaved storage_key content row u p.0 q))).at
              w p.1;
      }

    module _ (key : AllocationKeyModel Num) (content : Bytes) (ac : IsAccepted key content) where
      Ends-uploaded :
          (uuid : Text) (r : Result Exc (Unit {0}))
          → Ends
              (Post
                (λ v. IsAt (
                  with_object
                    (upload_storage_key community uuid (file_name_of file.filename))
                    content
                    k))
                (λ e w. Fault o.upload e × IsAt k w)
                r)
              (IsQueued k)
              (IsUnstarted k)
              (uploaded a o front req community
                (upload_storage_key community uuid (file_name_of file.filename))
                (file_name_of file.filename)
                key.name
                r)
      unfolding uploaded
      Ends-uploaded uuid (raised e) =
          unfold refuse in Ends-raise _ (λ w p. refused (not_stored key content e ac p.0 refl) p.1)
      Ends-uploaded uuid (ok v) =
          let storage_key = upload_storage_key community uuid (file_name_of file.filename) in
          let row = file_row req community storage_key (file_name_of file.filename) key.name in
          Ends-bind
            {R = Post
              (λ id w.
                IsAt (with_row (row id) (with_object storage_key content k)) w
                × (id ≡ front.next_id k.rows))
              (λ e w. Fault o.local_db e × IsAt (with_object storage_key content k) w)}
            _ _ (Ends-capture _ (Ends-create_row a o front (with_object storage_key content k) row))
            (λ r.
              Ends-created storage_key content row
                (record { key = key; accepted = ac; uuid = uuid; stored_as = refl; named = refl })
                r)

      Ends-store :
          Ends
            (IsAt k)
            (IsQueued k)
            (IsUnstarted k)
            (store a o front req community (file_name_of file.filename) key.name content)
      unfolding store upload
      Ends-store = Ends-gets _ _ (λ uuid.
          let storage_key = upload_storage_key community uuid (file_name_of file.filename) in
          Ends-bind
            {R = Post (λ v. IsAt (with_object storage_key content k))
              (λ e w. Fault o.upload e × IsAt k w)}
            _ _
            (Ends-capture _ (
              Ends-bind {R = λ v. IsAt k} _ _
                (Ends-before (λ w p. p.0) (Ends-calls a o front k o.upload))
                (λ v. Ends-modify _ (λ w p. ap (with_object storage_key content) p))))
            (λ r. Ends-uploaded uuid r))

    Ends-with_content :
        (key : AllocationKeyModel Num) (r : Result ErrorException Bytes)
        → crm_key ≡ some key
        → read_within_cap file.chunks upload_max_body_bytes [] ≡ r
        → Ends
            (IsAt k)
            (IsQueued k)
            (IsUnstarted k)
            (with_content a o front req file community key r)
    unfolding with_content check_shape
    Ends-with_content key (raised e) f h = Ends-raise _ (λ w p. refused (over_cap key e f h refl) p)
    Ends-with_content key (ok content) f h =
        Ends-if _ _ _ (λ q. Ends-refuse _ _ (empty key content f h q refl))
          (λ q.
            Ends-if _ _ _
              (λ q'.
                let (s, counted, over) =
                  is_oversize-true (shape_of_file content) (from_crm_allocation_key key) q' in
                Ends-refuse _ _ (oversize key content s f h q counted over refl))
              (λ q'. Ends-store key content (record {
                found = f;
                read = h;
                full = q;
                fits = is_oversize-false (shape_of_file content) (from_crm_allocation_key key) q';
              })))

    Ends-start_with_key :
        (key : Option (AllocationKeyModel Num))
        → crm_key ≡ key
        → Ends
            (IsAt k)
            (IsQueued k)
            (IsUnstarted k)
            (start_with_key a o front req file community key)
    unfolding start_with_key
    Ends-start_with_key none f = Ends-refuse _ _ (no_key f refl)
    Ends-start_with_key (some key) f = Ends-with_content key _ f refl

    Ends-start_simulation :
        Ends
          (λ w. IsAt k w × (w.clock ≡ t))
          (IsQueued k)
          (IsUnstarted k)
          (start_simulation a o front req file community)
    unfolding start_simulation read_crm_key
    Ends-start_simulation =
        Ends-bind {R = λ key w. IsAt k w × (crm_key ≡ key)} _ _
          (Ends-gets _ _ (λ key. record {
            at = λ w p.
                (Ends-bind {R = λ v. IsAt k} _ _
                    (Ends-after (Ends-calls a o front k o.crm_db)
                      (λ e w p. refused (unread p.0) p.1))
                    (λ v. Ends-pure key (λ w q. (
                      q,
                      ap (λ (n : ℕ). o.allocation_key n req.id_key community) (sym p.0.1) ∙ p.1,
                    )))).at
                  w p.0.0;
          }))
          (λ key. record { at = λ w p. (Ends-start_with_key key p.1).at w p.0 })

-- A request to simulate an uploaded file has one of these ends. It returns an id: the CRM has the
-- key, the file was read whole, is not empty, and makes no more cells than allowed where its rows can
-- be counted; the id is the next one, the content stands in the store under the key that the new
-- PENDING row names, and the event of the run is published. It is refused with the status and error
-- of the first check that fails (the key is missing, the file over the cap, empty or too large, the
-- upload failed, or the CRM's exception), and rows, results, objects and events are as before. The
-- row of an accepted file cannot be committed: the object is deleted again, or that deletion was
-- lost. The event cannot be published: the row is FAILED, the object deleted or its deletion lost,
-- and the answer a 500, or a database failed too and its exception is raised.
pub start_simulation-IsAnswered :
    (a : Arith) (o : Outside a) (front : Front) (req : SimulateRequest) (file : UploadFile)
    (community : ℕ) (w : World a.Num)
    → Post
        (IsQueued a o front req file community w.clock (kept w))
        (IsUnstarted a o front req file community w.clock (kept w))
        (start_simulation a o front req file community w).0
        (start_simulation a o front req file community w).1
start_simulation-IsAnswered a o front req file community w =
    (Ends-start_simulation a o front req file community w.clock (kept w)).at w (refl, refl)
