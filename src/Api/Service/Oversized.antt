-- ===== src/Api/Service/Oversized.antt =====
-- A request whose file is over the upload cap (SimulationService.start_simulation and
-- _read_within_cap in api/simulation/service.py).
use allocation_key_simulatio.Base.{
  ℕ, ◌<◌, ◌≡◌, ◌⊎◌, inl, inr, refl, ap, ◌∙◌, [], join, length, all, not, is_empty, none, true,
  false, leb, Result, ok, raised, arith,
}
use allocation_key_simulatio.Simulation.Number.{Arith}
use allocation_key_simulatio.Shared.Errors.{Error, ErrorException}
use allocation_key_simulatio.Shared.Loading.{Bytes}
use allocation_key_simulatio.Worker.World.{World}
use allocation_key_simulatio.Worker.Action.{Exc, error_exception}
use allocation_key_simulatio.Worker.Action.Ends.{Post}
use allocation_key_simulatio.Worker.Outside.{Outside}
use allocation_key_simulatio.Api.Upload.{read_within_cap, upload_max_body_bytes}
use allocation_key_simulatio.Api.Upload.Bounds.{read_within_cap-join}
use allocation_key_simulatio.Api.Service.{Front, SimulateRequest, UploadFile}
use allocation_key_simulatio.Api.Service.Requests.{start_simulation}
use allocation_key_simulatio.Api.Service.Started.{Kept, kept, IsAt, Fault}
use allocation_key_simulatio.Api.Service.Answered.{
  crm_key, refusal, Refusal, unread, no_key, over_cap, empty, oversize, not_stored, IsQueued,
  IsUnstarted, refused, unsaved, unqueued, start_simulation-IsAnswered,
}

leb-false : (m n : ℕ) → n < m → leb m n ≡ false
leb-false m n h = ground arith

not_read {ℓ} :
    {A : Type ℓ} {m : Result ErrorException A} {x : ErrorException} {v : A}
    → m ≡ raised x
    → m ≡ ok v
    → ⊥
not_read over read = cc

same_error :
    {m : Result ErrorException Bytes} {x y : ErrorException} → m ≡ raised x → m ≡ raised y → y ≡ x
same_error over read = cc

module _ (a : Arith) (o : Outside a) (front : Front) (req : SimulateRequest) (file : UploadFile)
    (community t : ℕ) where
  open a use {Num}

  -- The file is never reached, or it is what the request is refused for; all is as before.
  abbrev pub IsTooLarge : Kept Num → Exc → World Num → Type 0
  IsTooLarge k e w =
      ((Fault o.crm_db e)
        ⊎ (((crm_key a o front req file community t ≡ none) × (e ≡ refusal Error.key_not_found 404))
            ⊎ (e ≡ refusal Error.file_too_large 413)))
      × IsAt k w

  module _
      (over : read_within_cap file.chunks upload_max_body_bytes []
        ≡ raised (record { error = Error.file_too_large; status_code = 413 })) where
    refused_for :
        (k : Kept Num) (e : Exc) (w : World Num)
        → Refusal a o front req file community t e
        → IsAt k w
        → IsTooLarge k e w
    refused_for k e w (unread f) p = (inl f, p)
    refused_for k e w (no_key missing q) p = (inr (inl (missing, q)), p)
    refused_for k e w (over_cap key x f read q) p =
        (inr (inr (q ∙ ap error_exception (same_error over read))), p)
    refused_for k e w (empty key content f read full q) p = absurd (not_read over read)
    refused_for k e w (oversize key content s f read full counted many q) p =
        absurd (not_read over read)
    refused_for k e w (not_stored key content x accepted f q) p =
        absurd (not_read over accepted.read)

    never_started :
        (k : Kept Num) (r : Result Exc ℕ) (w : World Num)
        → Post
            (IsQueued a o front req file community t k)
            (IsUnstarted a o front req file community t k)
            r
            w
        → Post (λ n v. ⊥) (IsTooLarge k) r w
    never_started k (ok n) w q = absurd (not_read over q.upload.accepted.read)
    never_started k (raised e) w (refused r p) = refused_for k e w r p
    never_started k (raised e) w (unsaved key content row u f c) =
        absurd (not_read over u.accepted.read)
    never_started k (raised e) w (unqueued key content row u f) =
        absurd (not_read over u.accepted.read)

-- A request whose file has more bytes than the upload cap, in chunks that are not empty, returns no
-- id, whatever fails meanwhile, and rows, results, objects and events are as before: it is refused
-- with FILE_TOO_LARGE and 413, or the file was not reached, as the CRM has no such key (a 404) or
-- the look-up raised.
pub start_simulation-IsTooLarge :
    (a : Arith) (o : Outside a) (front : Front) (req : SimulateRequest) (file : UploadFile)
    (community : ℕ) (w : World a.Num)
    → all (λ (c : Bytes). not (is_empty c)) file.chunks ≡ true
    → upload_max_body_bytes < length (join file.chunks)
    → Post
        (λ n v. ⊥)
        (IsTooLarge a o front req file community w.clock (kept w))
        (start_simulation a o front req file community w).0
        (start_simulation a o front req file community w).1
start_simulation-IsTooLarge a o front req file community w h l =
    never_started a o front req file community w.clock
      (read_within_cap-join file.chunks upload_max_body_bytes h
        ∙ rw (leb-false (length (join file.chunks)) upload_max_body_bytes l) refl)
      (kept w) (start_simulation a o front req file community w).0
      (start_simulation a o front req file community w).1
      (start_simulation-IsAnswered a o front req file community w)
