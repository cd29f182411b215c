-- ===== src/Json.antt =====
-- `serde_json::Value`, as far as the program reads it. Numbers are the non-negative integers that
-- `as_u64` returns; any other number is an `other` with the text that it prints as.
pub mod Edit
pub mod Reads
use tauri_connector.Prelude.{
  ℕ, String, Bool, true, false, Option, none, some, List, [], ◌∷◌, str_eq, if◌then◌else◌,
}

mutual
  pub data Value : Type 0 where
    null : Value
    bool : Bool → Value
    num : ℕ → Value
    other : String → Value
    str : String → Value
    arr : Items → Value
    obj : Fields → Value

  pub data Fields : Type 0 where
    end : Fields
    field : String → Value → Fields → Fields

  pub data Items : Type 0 where
    no_items : Items
    item : Value → Items → Items

-- map.get(name)
unfoldable pub find_field : String → Fields → Option Value
find_field name end = none
find_field name (field k v fs) = if str_eq k name then some v else find_field name fs

-- value.get(name): `None` unless the value is an object with that field
unfoldable pub get : Value → String → Option Value
unfolding find_field
get (obj fs) name = find_field name fs
get null _ = none
get (bool _) _ = none
get (num _) _ = none
get (other _) _ = none
get (str _) _ = none
get (arr _) _ = none

unfoldable pub as_str : Value → Option String
as_str (str s) = some s
as_str _ = none

unfoldable pub as_bool : Value → Option Bool
as_bool (bool b) = some b
as_bool _ = none

unfoldable pub as_u64 : Value → Option ℕ
as_u64 (num n) = some n
as_u64 _ = none

unfoldable pub is_object : Value → Bool
is_object (obj _) = true
is_object _ = false

unfoldable pub is_string : Value → Bool
is_string (str _) = true
is_string _ = false

abbrev pub list_of : Items → List Value
list_of no_items = []
list_of (item v vs) = v ∷ list_of vs

unfoldable pub as_array : Value → Option (List Value)
as_array (arr vs) = some (list_of vs)
as_array _ = none
