-- ===== src/Json.antt =====
-- JSON values as Go's interface{} holds them: an object is a map[string]interface{}, listed in some
-- order of iteration. A number is a float64, given by its bits.
pub mod Maps
pub mod Sample
use nexlog_server.Base.{ℕ, String, Bool, Option, none, some, ◌==◌, if◌then◌else◌}

mutual
  pub data Value : Type 0 where
    null : Value
    boolean : Bool → Value
    number : ℕ → Value
    text : String → Value
    array : Items → Value
    object : Fields → Value

  pub data Items : Type 0 where
    nil : Items
    cons : Value → Items → Items

  pub data Fields : Type 0 where
    end : Fields
    field : String → Value → Fields → Fields

-- m[k]
unfoldable pub field_at : String → Fields → Option Value
field_at k end = none
field_at k (field j v fs) = if j == k then some v else field_at k fs

-- m[k] = v
unfoldable pub set_field : String → Value → Fields → Fields
set_field k v end = field k v end
set_field k v (field j u fs) = if j == k then field k v fs else field j u (set_field k v fs)

-- v.(map[string]interface{})
abbrev pub as_object : Value → Option Fields
as_object (object fs) = some fs
as_object _ = none

-- encoding/json and the type JSONB, as parameters: `marshal` and `unmarshal` on maps (none is the
-- nil map, which an error or a null leaves), and the text that the server stores for one, none where
-- it refuses the text.
pub record Codec : Type 0 where
  pub marshal : Option Fields → String
  pub unmarshal : String → Option Fields
  pub jsonb : String → Option String
