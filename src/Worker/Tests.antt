-- ===== src/Worker/Tests.antt =====
-- A worker with one uploaded file, a PENDING row and the message of its run; nothing fails.
use allocation_key_simulatio.Base.{
  ℕ, ◌≤◌, ltb, if◌then◌else◌, Option, ◌≡◌, refl, sym, subst, [], ◌∷◌, codes, none, some, false, ok,
  same_text, arith,
}
use allocation_key_simulatio.Simulation.Number.Integers.{ℤ, pos, integers}
use allocation_key_simulatio.Simulation.Inputs.{AllocationKeyModel}
use allocation_key_simulatio.Shared.Models.{SimulationModel, SimulationStatus, DataSource}
use allocation_key_simulatio.Shared.Tests.{house, farm, sun, table}
use allocation_key_simulatio.Worker.Json.{
  Json, object, field, end, text, integer, Event, decode, get_field, simulation_id, id,
}
use allocation_key_simulatio.Worker.World.{World, find_row}
use allocation_key_simulatio.Worker.Action.{Exc, other}
use allocation_key_simulatio.Worker.Startup.{
  IsStartup, connect_nats_with_retry, connect_nats_with_retry-IsStartup,
}
use allocation_key_simulatio.Worker.Outside.{Outside}
use allocation_key_simulatio.Worker.Persistence.Transitions.{saved}
use allocation_key_simulatio.Worker.Persistence.Consistency.{IsConsistent, IsSettled, results_of}
use allocation_key_simulatio.Worker.Dispatcher.{Msg, handle_message}
use allocation_key_simulatio.Worker.Dispatcher.Settles.{file_of}
use allocation_key_simulatio.Worker.Dispatcher.Outcomes.{
  IsAcked, IsAnswered, handle_message-IsAnswered,
}
use allocation_key_simulatio.Worker.Dispatcher.LastDelivery.{handle_message-IsAcked}
use allocation_key_simulatio.Worker.Dispatcher.Deliveries.{serve, serve-IsConsistent, serve-final}

abbrev crm_key : AllocationKeyModel ℤ
crm_key = record {
  id = 7;
  id_community = 4;
  name = codes "k";
  description = codes "";
  iterations =
      record {
        number = 1;
        energy_allocated_percentage = pos 1;
        consumers =
            record { name = house; energy_allocated_percentage = pos 1 }
            ∷ record { name = farm; energy_allocated_percentage = pos 0 }
            ∷ [];
      }
      ∷ [];
}

abbrev pub calm : Outside integers
calm = record {
  pandas = table;
  dumps = record { number = λ n. n ∷ []; text = λ t. t; series = λ s. [] };
  local_db = λ t. none;
  crm_db = λ t. none;
  upload = λ t. none;
  download = λ t. none;
  reply = λ t. none;
  solver = λ t. none;
  write_file = λ t. none;
  temp_path = λ t. codes "tmp";
  delete_lost = λ t. false;
  audit_lost = λ t. false;
  hint_lost = λ t. false;
  allocation_key = λ t k c. some crm_key;
  summarize =
      λ t p. record { eans = []; grid_size = 0; first_timestamp = none; last_timestamp = none };
  fetch_rows = λ t p. [];
  input_error_text = λ e. [];
  load_error_text = λ e. [];
}

abbrev pub waiting : SimulationModel
waiting = record {
  id = 1;
  name = codes "run";
  id_community = 4;
  source = DataSource.file;
  file_storage_key = some (codes "u");
  file_name = some (codes "u.csv");
  injection_name = some sun;
  id_sharing_operation = none;
  period_start = none;
  period_end = none;
  id_key = 7;
  key_name = codes "k";
  status = SimulationStatus.pending;
  error_message = none;
  result_storage_key = none;
  data_warnings = none;
}

abbrev pub start_with : SimulationModel → World ℤ
start_with row = record {
  rows = row ∷ [];
  results = [];
  objects = (codes "u", codes "csv") ∷ [];
  files = [];
  audits = [];
  hints = [];
  replies = [];
  outcomes = [];
  completed = [];
  events = [];
  staged = [];
  clock = 0;
}

abbrev content : Json
content = object (field (codes "simulation_id") (integer 1) end)

abbrev message : Msg
message = record {
  payload = some (
      object (
        field (codes "type") (text (codes "simulation.requested"))
          (field (codes "version") (integer 1) (field (codes "data") content end))));
  delivered = some 1;
}

abbrev event : Event
event = record {
  kind = text (codes "simulation.requested");
  version = integer 1;
  content = content;
}

decodes : decode message.payload ≡ some event
unfolding decode get_field same_text
decodes = refl

names_it : simulation_id content ≡ id 1
unfolding simulation_id get_field same_text
names_it = refl

handle_message-IsAnswered_example :
    IsAnswered 1
      (file_of (find_row 1 (waiting ∷ [])))
      (start_with waiting)
      (handle_message integers calm message (start_with waiting)).0
      (handle_message integers calm message (start_with waiting)).1
handle_message-IsAnswered_example =
    handle_message-IsAnswered integers calm message event 1 (start_with waiting) decodes names_it

pub only_row : (n : ℕ) (row r : SimulationModel) → find_row n (row ∷ []) ≡ some r → r ≡ row
unfolding find_row
only_row n row r h = grind (arith, h)

waiting-IsConsistent : IsConsistent (saved (start_with waiting))
unfolding IsSettled results_of
waiting-IsConsistent = record {
  settled = λ n r h. subst (λ q. IsSettled q.status n q 0) (sym (only_row n waiting r h)) refl;
}

serve-IsConsistent_example :
    IsConsistent (saved (serve integers calm (message ∷ message ∷ []) (start_with waiting)))
serve-IsConsistent_example =
    serve-IsConsistent integers calm (message ∷ message ∷ []) (start_with waiting)
      waiting-IsConsistent

abbrev refused : SimulationModel
refused = record waiting { status = SimulationStatus.failed; error_message = some (codes "no") }

refused_found : find_row 1 (refused ∷ []) ≡ some refused
unfolding find_row
refused_found = refl

serve-final_example :
    find_row 1 (serve integers calm (message ∷ message ∷ []) (start_with refused)).rows
    ≡ some refused
serve-final_example =
    serve-final integers calm (message ∷ message ∷ []) (start_with refused) 1 refused refl
      refused_found

abbrev tenth : Msg
tenth = record { payload = message.payload; delivered = some 10 }

handle_message-IsAcked_example :
    ((handle_message integers calm tenth (start_with waiting)).0 ≡ ok tt)
    × IsAcked 1
        (file_of (find_row 1 (waiting ∷ [])))
        (start_with waiting)
        (handle_message integers calm tenth (start_with waiting)).1
handle_message-IsAcked_example =
    handle_message-IsAcked integers calm 1 (λ t. refl) (λ t x e. grind (arith, e)) (λ t. refl)
      (start_with waiting) tenth event 10 decodes names_it refl (omega arith)

-- A broker that answers at the third attempt.
abbrev late : ℕ → Option Exc
late n = if ltb n 3 then some (other (codes "refused")) else none

connect_nats_with_retry-IsStartup_example :
    IsStartup late (connect_nats_with_retry late).0 × ((connect_nats_with_retry late).1 ≤ 180)
connect_nats_with_retry-IsStartup_example = connect_nats_with_retry-IsStartup late
