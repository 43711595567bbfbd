-- ===== src/Json/Value.antt =====
-- An `interface{}` that `json.Unmarshal` filled, with the type assertions that the program makes.
use edgedelta_lambda_extensi.Common.{ℕ, Bool, Option, none, some, if◌then◌else◌}
use edgedelta_lambda_extensi.Text.Bytes.{Bytes, bytes_eq}

-- A float64 is its 64 bits.
abbrev pub Float64 : Type 0
Float64 = ℕ

mutual
  pub data Value : Type 0 where
    null : Value
    bool : Bool → Value
    number : Float64 → Value
    text : Bytes → Value
    array : Items → Value
    object : Fields → Value

  pub data Items : Type 0 where
    nil : Items
    cons : Value → Items → Items

  -- A `map[string]interface{}`, each key once.
  pub data Fields : Type 0 where
    end : Fields
    field : Bytes → Value → Fields → Fields

-- `content[k]`; a key that is missing gives the nil interface, whose assertions fail.
unfoldable pub find : Bytes → Fields → Value
find k end = null
find k (field j v fs) = if bytes_eq j k then v else find k fs

-- `v.(map[string]interface{})`, `v.(string)` and `v.(float64)`
abbrev pub as_map : Value → Option Fields
as_map (object fs) = some fs
as_map _ = none

abbrev pub as_string : Value → Option Bytes
as_string (text s) = some s
as_string _ = none

abbrev pub as_float64 : Value → Option Float64
as_float64 (number x) = some x
as_float64 _ = none
