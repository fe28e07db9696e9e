-- ===== src/Api/Service/Tests.antt =====
-- Requests to an API whose calls all succeed, and to one whose broker answers too late.
use allocation_key_simulatio.Base.{
  ℕ, zero, suc, ok, ◌≡◌, ◌≤◌, ◌<◌, ap, append-nil, all, not, is_empty, join, arith, ◌≢◌, ◌++◌, ◌+◌,
  ==_iff, Bool-cases, inl, inr, refl, sym, subst, codes, [], ◌∷◌, length, Option, none, some, true,
  ◌==◌,
}
use allocation_key_simulatio.Simulation.Number.Integers.{ℤ, pos, integers}
use allocation_key_simulatio.Shared.Models.{
  SimulationModel, SimulationStatus, SimulationKeyResultModel,
}
use allocation_key_simulatio.Shared.Tests.{sun}
use allocation_key_simulatio.Worker.World.{World, find_row}
use allocation_key_simulatio.Worker.Action.Ends.{Post}
use allocation_key_simulatio.Worker.Persistence.{set_failed, result_storage_key}
use allocation_key_simulatio.Worker.Persistence.Transitions.{saved}
use allocation_key_simulatio.Worker.Persistence.Consistency.{IsConsistent, IsSettled, results_of}
use allocation_key_simulatio.Worker.Tests.{calm, waiting, start_with, only_row}
use allocation_key_simulatio.Api.Service.{
  Front, UploadFile, SimulateRequest, SimulateFromCrmRequest, mark_failed_to_queue,
}
use allocation_key_simulatio.Api.Service.Requests.{
  start_with_key, with_content, check_shape, store, upload, uploaded, created, start_simulation,
  post_simulation, post_from_crm,
}
use allocation_key_simulatio.Api.Service.Stored.{delete_simulation}
use allocation_key_simulatio.Api.Service.Started.{kept}
use allocation_key_simulatio.Api.Service.Answered.{
  IsQueued, IsUnstarted, start_simulation-IsAnswered,
}
use allocation_key_simulatio.Api.Service.Deleted.{
  Deleted, IsUndeleted, delete_simulation-IsAnswered,
}
use allocation_key_simulatio.Worker.Dispatcher.{handle_message}
use allocation_key_simulatio.Worker.Dispatcher.Outcomes.{IsAnswered}
use allocation_key_simulatio.Api.Service.Delivered.{delivery, IsReady, start_then_handle}
use allocation_key_simulatio.Worker.Action.{◌>>=◌, call, capture, gets, modify, pure}
use allocation_key_simulatio.Worker.Process.{read_crm_key}
use allocation_key_simulatio.Api.Upload.{
  read_within_cap, upload_max_body_bytes, measure, measure_csv, measure_stripped, lstrip_lines,
  first_line, count_newlines, ends_with_newline, drop_returns, count_lines,
}
use allocation_key_simulatio.Base.{same_text}
use allocation_key_simulatio.Shared.Loading.{Bytes, extension}
use allocation_key_simulatio.Api.Service.Oversized.{IsTooLarge, start_simulation-IsTooLarge}
use allocation_key_simulatio.Api.Service.{
  is_oversize, file_name_of, create_row, enqueue, enqueued, send_event, published, log_audit,
}
use allocation_key_simulatio.Shared.ProblemSize.{too_large}
use allocation_key_simulatio.Simulation.Inputs.{
  consumer_names_of, from_crm_allocation_key, sorted, insert_by,
}
use allocation_key_simulatio.Api.Service.Marking.{mark_failed_to_queue-overwrites}
use allocation_key_simulatio.Api.Service.Audit.{created_entries, post-audits}

abbrev front : Front
front = record {
  publish = λ t. none;
  publish_stored = λ t. true;
  sharing_operation_exists = λ t c s. true;
  uuid4 = λ t. codes "x";
  next_id = λ rows. length rows + 1;
  formats = record { decode_text = λ b. b; csv_fields = λ line. some 3; dimension = λ b. none };
}

abbrev asked : SimulateRequest
asked = record { name = codes "run"; id_key = 7; injection_name = sun }

abbrev file : UploadFile
file = record { filename = some (codes "u.csv"); chunks = codes "h,f" ∷ codes ",sun" ∷ [] }

abbrev from_crm : SimulateFromCrmRequest
from_crm = record {
  name = codes "run";
  id_key = 7;
  id_sharing_operation = 2;
  period_start = 1;
  period_end = 9;
}

start_simulation-IsAnswered_example :
    Post
      (IsQueued integers calm front asked file 4 0 (kept (start_with waiting)))
      (IsUnstarted integers calm front asked file 4 0 (kept (start_with waiting)))
      (start_simulation integers calm front asked file 4 (start_with waiting)).0
      (start_simulation integers calm front asked file 4 (start_with waiting)).1
start_simulation-IsAnswered_example =
    start_simulation-IsAnswered integers calm front asked file 4 (start_with waiting)

-- A file of this many bytes.
unfoldable zeros : ℕ → Bytes
zeros zero = []
zeros (suc n) = 0 ∷ zeros n

length-zeros : (n : ℕ) → length (zeros n) ≡ n
unfolding zeros
length-zeros zero = refl
length-zeros (suc n) = ap suc (length-zeros n)

zeros_full : (n : ℕ) → all (λ (c : Bytes). not (is_empty c)) (zeros (suc n) ∷ []) ≡ true
unfolding zeros
zeros_full n = refl

over_cap :
    (n : ℕ) → upload_max_body_bytes ≤ n → upload_max_body_bytes < length (join (zeros (suc n) ∷ []))
over_cap n h = rw (append-nil (zeros (suc n)), length-zeros (suc n)) (omega (arith, h))

-- One byte over the cap.
abbrev large : UploadFile
large = record { filename = some (codes "u.csv"); chunks = zeros (suc upload_max_body_bytes) ∷ [] }

start_simulation-IsTooLarge_example :
    Post
      (λ n v. ⊥)
      (IsTooLarge integers calm front asked large 4 0 (kept (start_with waiting)))
      (start_simulation integers calm front asked large 4 (start_with waiting)).0
      (start_simulation integers calm front asked large 4 (start_with waiting)).1
start_simulation-IsTooLarge_example =
    start_simulation-IsTooLarge integers calm front asked large 4 (start_with waiting)
      (zeros_full upload_max_body_bytes) (over_cap upload_max_body_bytes (omega arith))

post-audits_example :
    (created_entries
        (post_simulation integers calm front asked file (some 4) (start_with waiting)).1.audits
      ≡ created_entries (start_with waiting).audits)
    × (created_entries
          (post_from_crm integers calm front from_crm (some 4) (start_with waiting)).1.audits
        ≡ created_entries (start_with waiting).audits)
post-audits_example =
    post-audits integers calm front asked file from_crm (some 4) (start_with waiting)

delete_simulation-IsAnswered_example :
    Post
      (λ u x.
        Deleted integers calm front (some 4) 1 (kept (start_with waiting)) u x
        × (find_row 1 x.rows ≡ none)
        × (results_of 1 x.results ≡ 0)
        × ((n : ℕ) → n ≢ 1 → find_row n x.rows ≡ find_row n (waiting ∷ [])))
      (IsUndeleted integers calm front (some 4) 1 (kept (start_with waiting)))
      (delete_simulation integers calm front (some 4) 1 (start_with waiting)).0
      (delete_simulation integers calm front (some 4) 1 (start_with waiting)).1
delete_simulation-IsAnswered_example =
    delete_simulation-IsAnswered integers calm front (some 4) 1 (start_with waiting)

abbrev succeeded : SimulationModel
succeeded = record waiting {
  status = SimulationStatus.success;
  file_storage_key = none;
  result_storage_key = some (result_storage_key 4 1);
}

abbrev tree : SimulationKeyResultModel ℤ
tree = record {
  name = codes "k";
  description = [];
  consumption_total = pos 13;
  energy_allocated_total = pos 8;
  energy_allocated_consumed_total = pos 8;
  residual_volume_total = pos 5;
  surplus_total = pos 0;
  self_sufficiency_rate_total = pos 0;
  sharing_rate_total = pos 1;
  id_simulation = 1;
  id_community = 4;
  iterations = [];
}

abbrev finished : World ℤ
finished = record (start_with succeeded) { results = tree ∷ [] }

nothing : (r : SimulationModel) → ◌≡◌ {A = Option SimulationModel} none (some r) → ⊥
nothing r h = cc

only_id : (n : ℕ) (r : SimulationModel) → find_row n (succeeded ∷ []) ≡ some r → 1 ≡ n
unfolding find_row
only_id n r h = elim (Bool-cases (1 == n)) [
  | inl q ↦ (==_iff 1 n).0 q
  | inr q ↦ absurd (nothing r (rw q at h))
]

finished-IsConsistent : IsConsistent (saved finished)
unfolding IsSettled results_of
finished-IsConsistent = record {
  settled = λ n r h.
      subst (λ m. IsSettled r.status m r (results_of m (tree ∷ []))) (only_id n r h)
        (subst (λ q. IsSettled q.status 1 q (results_of 1 (tree ∷ [])))
          (sym (only_row n succeeded r h)) (refl, (refl, refl)));
}

succeeded_found : find_row 1 (succeeded ∷ []) ≡ some succeeded
unfolding find_row
succeeded_found = refl

mark_failed_to_queue-overwrites_example :
    (find_row 1 (mark_failed_to_queue integers calm front 1 (codes "timeout") finished).1.rows
      ≡ some (set_failed (codes "failed_to_queue: " ++ codes "timeout") succeeded))
    × (¬ IsConsistent
        (saved (mark_failed_to_queue integers calm front 1 (codes "timeout") finished).1))
mark_failed_to_queue-overwrites_example =
    mark_failed_to_queue-overwrites integers calm front 1 (codes "timeout") succeeded finished
      (λ t. refl) (λ t. refl) succeeded_found refl finished-IsConsistent

queues : (start_simulation integers calm front asked file 4 (start_with waiting)).0 ≡ ok 2
unfolding start_simulation start_with_key with_content check_shape store upload uploaded created
    ◌>>=◌ call capture gets modify pure read_crm_key read_within_cap upload_max_body_bytes measure
    measure_csv measure_stripped lstrip_lines first_line count_newlines ends_with_newline
    drop_returns count_lines same_text extension is_oversize file_name_of create_row enqueue
    enqueued send_event published log_audit too_large consumer_names_of from_crm_allocation_key
    sorted insert_by
queues = refl

start_then_handle_example :
    (ready : IsReady integers calm front asked file 4 2
      (start_with waiting)
      (start_simulation integers calm front asked file 4 (start_with waiting)).1)
    × IsAnswered 2
        (some ready.storage_key)
        (start_simulation integers calm front asked file 4 (start_with waiting)).1
        (handle_message integers calm
          (delivery 2 (some 1))
          (start_simulation integers calm front asked file 4 (start_with waiting)).1).0
        (handle_message integers calm
          (delivery 2 (some 1))
          (start_simulation integers calm front asked file 4 (start_with waiting)).1).1
start_then_handle_example =
    start_then_handle integers calm front asked file 4 2 (some 1) (start_with waiting) queues
