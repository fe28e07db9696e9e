-- ===== src/Worker/Json.antt =====
-- Parsed JSON, and the event that a message carries (core/queue/helper.py, `Event.decode`). Ids are
-- natural numbers; a negative integer is `negative`.
use allocation_key_simulatio.Base.{
  ℕ, Text, codes, same_text, Option, none, some, if◌then◌else◌, Bool, true, false,
}

mutual
  pub data Json : Type 0 where
    null : Json
    bool : Bool → Json
    integer : ℕ → Json
    negative : ℕ → Json
    decimal : Text → Json
    text : Text → Json
    array : Items → Json
    object : Fields → Json

  pub data Items : Type 0 where
    nil : Items
    cons : Json → Items → Items

  pub data Fields : Type 0 where
    end : Fields
    field : Text → Json → Fields → Fields

-- `parsed[name]`, `data.get(name)`
unfoldable pub get_field : Text → Fields → Option Json
get_field name end = none
get_field name (field k v fs) = if same_text k name then some v else get_field name fs

pub record Event : Type 0 where
  pub kind : Json
  pub version : Json
  pub content : Json

abbrev decode_fields : Option Json → Option Json → Option Json → Option Event
decode_fields (some t) (some v) (some d) = some (record { kind = t; version = v; content = d })
decode_fields (some t) (some v) none = none
decode_fields (some t) none d = none
decode_fields none v d = none

-- `Event.decode` behind `json.loads`, which gives `none` on invalid text; `none` where it raises.
unfoldable pub decode : Option Json → Option Event
decode (some (object fs)) =
    decode_fields (get_field (codes "type") fs) (get_field (codes "version") fs)
      (get_field (codes "data") fs)
decode _ = none

-- `isinstance(simulation_id, int)`: a bool is an int in Python, and a negative one names no row.
pub data SimulationId : Type 0 where
  id : ℕ → SimulationId
  below_zero : SimulationId
  invalid : SimulationId

abbrev id_of : Option Json → SimulationId
id_of (some (bool true)) = id 1
id_of (some (bool false)) = id 0
id_of (some (integer n)) = id n
id_of (some (negative n)) = below_zero
id_of _ = invalid

unfoldable pub simulation_id : Json → SimulationId
simulation_id (object fs) = id_of (get_field (codes "simulation_id") fs)
simulation_id _ = invalid
