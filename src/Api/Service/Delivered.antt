-- ===== src/Api/Service/Delivered.antt =====
-- A run that the API queued, and the worker that its message is delivered to.
use allocation_key_simulatio.Base.{
  ℕ, ◌≡◌, refl, ap, subst, ◌∙◌, Text, List, [], ◌∷◌, ok-injective, Option, some, ==_refl, same_text,
  same_text_refl, Bool-cases, inl, inr, Result, ok, raised,
}
use allocation_key_simulatio.Simulation.Number.{Arith}
use allocation_key_simulatio.Shared.Loading.{Bytes}
use allocation_key_simulatio.Shared.Models.{SimulationModel}
use allocation_key_simulatio.Worker.World.{World, find_row, find_entry, put_entry}
use allocation_key_simulatio.Worker.Action.{Exc}
use allocation_key_simulatio.Worker.Action.Ends.{Post}
use allocation_key_simulatio.Worker.Outside.{Outside}
use allocation_key_simulatio.Worker.Dispatcher.{Msg, handle_message}
use allocation_key_simulatio.Worker.Dispatcher.Settles.{file_of}
use allocation_key_simulatio.Worker.Dispatcher.Outcomes.{IsAnswered, handle_message-IsAnswered}
use allocation_key_simulatio.Core.Queue.{encode, requested}
use allocation_key_simulatio.Core.Queue.RoundTrip.{decode-encode}
use allocation_key_simulatio.Api.Upload.{read_within_cap, upload_max_body_bytes}
use allocation_key_simulatio.Api.Service.{
  Front, UploadFile, SimulateRequest, file_name_of, file_row,
}
use allocation_key_simulatio.Api.Service.Requests.{start_simulation}
use allocation_key_simulatio.Api.Service.Started.{Kept, kept}
use allocation_key_simulatio.Api.Service.Answered.{IsQueued, start_simulation-IsAnswered}

-- The message of a run, as the broker delivers it.
abbrev pub delivery : ℕ → Option ℕ → Msg
delivery n delivered = record { payload = some (encode (requested n)); delivered = delivered }

find_entry-put_entry :
    (key : Text) (content : Bytes) (objects : List (Text × Bytes))
    → find_entry key (put_entry key content objects) ≡ some content
unfolding find_entry put_entry
find_entry-put_entry key content [] = rw (same_text_refl key) refl
find_entry-put_entry key content ((j, v) ∷ objects) = elim (Bool-cases (same_text j key)) [
  | inl q ↦ rw (q, same_text_refl key) refl
  | inr q ↦ rw (q, q) (find_entry-put_entry key content objects)
]

find_row-new :
    (n : ℕ) (row : SimulationModel) (rows : List SimulationModel)
    → row.id ≡ n
    → find_row n (row ∷ rows) ≡ some row
unfolding find_row
find_row-new n row rows e = rw (e, ==_refl n) refl

returned :
    {N A : Type 0} (Q : A → World N → Type 0) (E : Exc → World N → Type 0) (r : Result Exc A)
    (w : World N) (v : A)
    → Post Q E r w
    → r ≡ ok v
    → Q v w
returned Q E (ok u) w v p e = subst (λ (x : _). Q x w) (ok-injective e) p
returned Q E (raised x) w v p e = cc

module _ (a : Arith) (o : Outside a) (front : Front) (req : SimulateRequest) (file : UploadFile)
    (community : ℕ) where
  open a use {Num}

  -- A worker finds the run as it was asked for: its row with the uploaded file behind it.
  pub record IsReady (n : ℕ) (v w : World Num) : Type 0 where
    pub storage_key : Text
    pub content : Bytes
    pub key_name : Text
    pub read : read_within_cap file.chunks upload_max_body_bytes [] ≡ ok content
    pub row :
        find_row n w.rows
        ≡ some (file_row req community storage_key (file_name_of file.filename) key_name n)
    pub stored : find_entry storage_key w.objects ≡ some content
    pub published : w.events ≡ n ∷ v.events

  IsQueued-IsReady :
      (n : ℕ) (v w : World Num)
      → IsQueued a o front req file community v.clock (kept v) n w
      → IsReady n v w
  IsQueued-IsReady n v w q =
      let rows = ap (λ (k : Kept Num). k.rows) q.at in
      let named = ap (λ (f : ℕ → SimulationModel). f n) q.upload.named in
      record {
        storage_key = q.storage_key;
        content = q.content;
        key_name = q.upload.key.name;
        read = q.upload.accepted.read;
        row =
            ap (find_row n) rows
            ∙ find_row-new n (q.row n) v.rows
                (unfold file_row in ap (λ (r : SimulationModel). r.id) named)
            ∙ ap some named;
        stored =
            ap (λ (k : Kept Num). find_entry q.storage_key k.objects) q.at
            ∙ find_entry-put_entry q.storage_key q.content v.objects;
        published = ap (λ (k : Kept Num). k.events) q.at;
      }

-- A request to simulate a file that returns an id leaves a run that a worker finds: the PENDING row
-- of that id, its uploaded file as it was read, and the event. A delivery of that event ends in one
-- of the handler's ways, whatever fails meanwhile: acked once, with the row no longer PENDING and no
-- object but the uploaded file gone; returned by one NAK; or raised before any answer, and then with
-- every object still stored.
pub start_then_handle :
    (a : Arith) (o : Outside a) (front : Front) (req : SimulateRequest) (file : UploadFile)
    (community n : ℕ) (delivered : Option ℕ) (v : World a.Num)
    → (start_simulation a o front req file community v).0 ≡ ok n
    → (ready : IsReady a o front req file community n v
        (start_simulation a o front req file community v).1)
      × IsAnswered n
          (some ready.storage_key)
          (start_simulation a o front req file community v).1
          (handle_message a o
            (delivery n delivered)
            (start_simulation a o front req file community v).1).0
          (handle_message a o
            (delivery n delivered)
            (start_simulation a o front req file community v).1).1
start_then_handle a o front req file community n delivered v e =
    let s = start_simulation a o front req file community v in
    let ready =
      IsQueued-IsReady a o front req file community n v s.1
        (returned _ _ s.0 s.1 n (start_simulation-IsAnswered a o front req file community v) e) in
    let known = decode-encode (requested n) n in
    let msg = delivery n delivered in
    (
      ready,
      subst
          (λ (key : Option Text).
            IsAnswered n key s.1 (handle_message a o msg s.1).0 (handle_message a o msg s.1).1)
          (ap file_of ready.row ∙ (unfold file_row in refl))
          (handle_message-IsAnswered a o msg (requested n) n s.1 known.0 known.1),
    )
