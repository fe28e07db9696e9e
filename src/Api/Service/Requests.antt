-- ===== src/Api/Service/Requests.antt =====
-- The service's operations that start a run (api/simulation/service.py), up to the stored row, and
-- the route around them: the community's check, the default error, and the CRM session's end.
use allocation_key_simulatio.Base.{
  ℕ, Text, List, [], ◌∷◌, length, Option, none, some, Bool, true, false, ltb, is_empty,
  if◌then◌else◌, Result, ok, raised,
}
use allocation_key_simulatio.Simulation.Number.{Arith}
use allocation_key_simulatio.Simulation.Inputs.{
  AllocationKeyModel, from_crm_allocation_key, consumer_names_of,
}
use allocation_key_simulatio.Shared.Errors.{Error, ErrorException}
use allocation_key_simulatio.Shared.Preflight.{Blocker, Preflight, evaluate}
use allocation_key_simulatio.Shared.Loading.{Bytes}
use allocation_key_simulatio.Worker.World.{put_entry}
use allocation_key_simulatio.Worker.Action.{
  Action, Exc, error_exception, pure, raise, gets, modify, capture, call, ◌>>=◌, ◌>>◌,
}
use allocation_key_simulatio.Worker.Outside.{Outside, Period}
use allocation_key_simulatio.Worker.Process.{read_crm_key}
use allocation_key_simulatio.Worker.Dispatcher.{delete_safely}
use allocation_key_simulatio.Api.Upload.{read_within_cap, upload_max_body_bytes, measure}
use allocation_key_simulatio.Api.Service.{
  Front, UploadFile, SimulateRequest, SimulateFromCrmRequest, file_name_of, upload_storage_key,
  file_row, crm_row, is_oversize, refuse, create_row, enqueue,
}

module _ (a : Arith) (o : Outside a) (front : Front) where
  open a use {Num}

  -- `storage.upload`
  unfoldable pub upload : Text → Bytes → Action Num (Unit {0})
  upload key content = do
    call o.upload
    modify (λ w. record w { objects = put_entry key content w.objects })

  -- The row behind the upload: if it is not committed, the object is deleted again.
  unfoldable pub created : ℕ → Text → Result Exc ℕ → Action Num ℕ
  created community_id storage_key (ok id) = enqueue a o front community_id (some storage_key) id
  created community_id storage_key (raised e) = do delete_safely a o (some storage_key); raise e

  -- Steps 4 and 5, behind the upload.
  unfoldable pub uploaded :
      SimulateRequest → ℕ → Text → Text → Text → Result Exc (Unit {0}) → Action Num ℕ
  unfolding created
  uploaded req community_id storage_key file_name key_name (raised e) =
      refuse Error.storage_upload_failed 502
  uploaded req community_id storage_key file_name key_name (ok u) = do
    r ← capture (create_row a o front (file_row req community_id storage_key file_name key_name))
    created community_id storage_key r

  -- Step 3.
  unfoldable pub store : SimulateRequest → ℕ → Text → Text → Bytes → Action Num ℕ
  unfolding upload uploaded
  store req community_id file_name key_name content = do
    uuid ← gets (λ w. front.uuid4 w.clock)
    let storage_key = upload_storage_key community_id uuid file_name
    r ← capture (upload storage_key content)
    uploaded req community_id storage_key file_name key_name r

  -- Step 2b.
  unfoldable pub check_shape :
      SimulateRequest → ℕ → Text → AllocationKeyModel Num → Bytes → Action Num ℕ
  check_shape req community_id file_name key content =
      if is_oversize (measure front.formats content file_name) (from_crm_allocation_key key)
      then refuse Error.simulation_too_large 422
      else store req community_id file_name key.name content

  -- Step 2.
  unfoldable pub with_content :
      SimulateRequest
      → UploadFile
      → ℕ
      → AllocationKeyModel Num
      → Result ErrorException Bytes
      → Action Num ℕ
  unfolding check_shape
  with_content req file community_id key (raised e) = raise (error_exception e)
  with_content req file community_id key (ok content) =
      if is_empty content
      then refuse Error.invalid_file 422
      else check_shape req community_id (file_name_of file.filename) key content

  unfoldable pub start_with_key :
      SimulateRequest → UploadFile → ℕ → Option (AllocationKeyModel Num) → Action Num ℕ
  start_with_key req file community_id none = refuse Error.key_not_found 404
  start_with_key req file community_id (some key) =
      with_content req file community_id key (read_within_cap file.chunks upload_max_body_bytes [])

  -- Returns the id of the PENDING row.
  unfoldable pub start_simulation : SimulateRequest → UploadFile → ℕ → Action Num ℕ
  start_simulation req file community_id = do
    key ← read_crm_key a o req.id_key community_id
    start_with_key req file community_id key

  unfoldable pub preview_operation :
      AllocationKeyModel Num → Period → Bool → Action Num (Preflight Num)
  preview_operation key period false = refuse Error.sharing_operation_not_found 404
  preview_operation key period true = do
    summary ← gets (λ w. o.summarize w.clock period)
    call o.crm_db
    let key_input = from_crm_allocation_key key
    pure (evaluate a summary (consumer_names_of key_input) (length key_input.iterations))

  unfoldable pub preview_with_key :
      Option (AllocationKeyModel Num) → Period → Action Num (Preflight Num)
  unfolding preview_operation
  preview_with_key none period = refuse Error.key_not_found 404
  preview_with_key (some key) period = do
    known ← gets (λ w.
        front.sharing_operation_exists w.clock period.id_community period.id_sharing_operation)
    call o.crm_db
    preview_operation key period known

  unfoldable pub preview_crm_data : ℕ → Period → Action Num (Preflight Num)
  unfolding preview_with_key
  preview_crm_data id_key period =
      if ltb period.period_end period.period_start
      then refuse Error.invalid_period 422
      else do key ← read_crm_key a o id_key period.id_community; preview_with_key key period

  unfoldable pub start_previewed :
      SimulateFromCrmRequest → ℕ → Text → Preflight Num → List Blocker → Action Num ℕ
  start_previewed req community_id key_name preflight (b ∷ blockers) = refuse b.error 422
  start_previewed req community_id key_name preflight [] = do
    id ← create_row a o front (crm_row req community_id preflight key_name)
    enqueue a o front community_id none id

  unfoldable pub start_from_key :
      SimulateFromCrmRequest → ℕ → Option (AllocationKeyModel Num) → Action Num ℕ
  unfolding start_previewed preview_crm_data
  start_from_key req community_id none = refuse Error.key_not_found 404
  start_from_key req community_id (some key) = do
    preflight ← preview_crm_data req.id_key (record {
      id_community = community_id;
      id_sharing_operation = req.id_sharing_operation;
      period_start = req.period_start;
      period_end = req.period_end;
    })
    start_previewed req community_id key.name preflight preflight.blockers

  unfoldable pub start_simulation_from_crm : SimulateFromCrmRequest → ℕ → Action Num ℕ
  unfolding start_from_key
  start_simulation_from_crm req community_id = do
    key ← read_crm_key a o req.id_key community_id
    start_from_key req community_id key

-- `with_default_error`: any other exception becomes the route's, with status 400.
unfoldable pub promote : {A : Type 0} → Error → Result Exc A → Result Exc A
promote default_error (ok v) = ok v
promote default_error (raised (error_exception e)) = raised (error_exception e)
promote default_error (raised e) =
    raised (error_exception (record { error = default_error; status_code = 400 }))

module _ {N A : Type 0} where
  -- The route of an operation. Nothing commits the CRM session of a request, so closing it rolls
  -- back what was staged on it.
  unfoldable pub route : Error → Action N A → Action N A
  unfolding promote
  route default_error m w =
      let (r, w') = m w in (promote default_error r, record w' { staged = [] })

  -- A route that needs the community.
  unfoldable pub for_community : Option ℕ → (ℕ → Action N A) → Action N A
  for_community none m = refuse Error.unauthorized 401
  for_community (some community_id) m = m community_id

module _ (a : Arith) (o : Outside a) (front : Front) where
  open a use {Num}

  -- `POST /`
  unfoldable pub post_simulation : SimulateRequest → UploadFile → Option ℕ → Action Num ℕ
  post_simulation req file community =
      route Error.start_simulation (for_community community (start_simulation a o front req file))

  -- `POST /from-crm`
  unfoldable pub post_from_crm : SimulateFromCrmRequest → Option ℕ → Action Num ℕ
  post_from_crm req community =
      route Error.start_simulation
        (for_community community (start_simulation_from_crm a o front req))
