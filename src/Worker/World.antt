-- ===== src/Worker/World.antt =====
-- What the worker reads and changes: the rows of the local database, its results, the objects of
-- the store, the temporary files, the CRM's audit log, the realtime hints and the broker.
pub mod Rows
pub mod Entries
use allocation_key_simulatio.Base.{
  ℕ, ◌+◌, ◌≡◌, refl, Text, List, [], ◌∷◌, ◌++◌, Option, none, some, Bool, true, false, not, keep,
  ◌==◌, same_text, if◌then◌else◌,
}
use allocation_key_simulatio.Shared.Models.{
  SimulationModel, SimulationKeyResultModel, SimulationStatus,
}
use allocation_key_simulatio.Shared.Loading.{Bytes}

pub data AuditAction : Type 0 where
  simulation_created simulation_queue_failed simulation_succeeded simulation_failed
        simulation_deleted :
      AuditAction

pub record AuditEntry : Type 0 where
  pub action : AuditAction
  pub entity_id : ℕ
  pub id_community : ℕ

-- A `simulation.finished` hint to the managers of a community (core/realtime).
pub record Hint : Type 0 where
  pub simulation : ℕ
  pub community : ℕ
  pub status : SimulationStatus

-- What the broker is told of a message.
pub data Reply : Type 0 where
  ack : Reply
  nak : ℕ → Reply

-- The label of a handled message's counter.
pub data MessageOutcome : Type 0 where
  drop_decode drop_invalid_id nak ack_unhandled ack : MessageOutcome

pub record World (N : Type 0) : Type 0 where
  pub rows : List SimulationModel
  pub results : List (SimulationKeyResultModel N)
  pub objects : List (Text × Bytes)
  pub files : List (Text × Bytes)
  pub audits : List AuditEntry
  pub hints : List Hint
  pub replies : List Reply
  pub outcomes : List MessageOutcome
  pub completed : List SimulationStatus
  pub events : List ℕ  -- the simulations that `simulation.requested` was published for
  pub staged : List AuditEntry  -- of the API's CRM session, until it is closed
  pub clock : ℕ  -- the calls made to anything outside so far

-- `session.get(SimulationModel, id)`: ids are unique.
unfoldable pub find_row : ℕ → List SimulationModel → Option SimulationModel
find_row id [] = none
find_row id (r ∷ rs) = if r.id == id then some r else find_row id rs

unfoldable pub update_row :
    ℕ → (SimulationModel → SimulationModel) → List SimulationModel → List SimulationModel
update_row id f [] = []
update_row id f (r ∷ rs) = if r.id == id then f r ∷ rs else r ∷ update_row id f rs

unfoldable pub find_entry : Text → List (Text × Bytes) → Option Bytes
find_entry k [] = none
find_entry k ((j, v) ∷ es) = if same_text j k then some v else find_entry k es

-- A write replaces what stood under the key.
unfoldable pub put_entry : Text → Bytes → List (Text × Bytes) → List (Text × Bytes)
put_entry k v [] = (k, v) ∷ []
put_entry k v ((j, w) ∷ es) = if same_text j k then (k, v) ∷ es else (j, w) ∷ put_entry k v es

unfoldable pub drop_entry : Text → List (Text × Bytes) → List (Text × Bytes)
drop_entry k [] = []
drop_entry k ((j, v) ∷ es) =
    let rest = drop_entry k es in if same_text j k then rest else (j, v) ∷ rest
