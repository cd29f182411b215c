-- ===== src/Json/Reads.antt =====
-- What the program reads of a `serde_json::Value` by indexing and comparing.
use tauri_connector.Json
use tauri_connector.Json.{
  Value, null, bool, num, other, str, arr, obj, Fields, end, field, Items, no_items, item,
}
use tauri_connector.Prelude.{
  String, Bool, true, false, not, ◌&&◌, none, some, str_eq, if◌then◌else◌, ◌==◌,
}

-- value == other
unfoldable mutual
  pub value_eq : Value → Value → Bool
  value_eq null null = true
  value_eq (bool a) (bool b) = if a then b else not b
  value_eq (num a) (num b) = a == b
  value_eq (other a) (other b) = str_eq a b
  value_eq (str a) (str b) = str_eq a b
  value_eq (arr a) (arr b) = items_eq a b
  value_eq (obj a) (obj b) = fields_eq a b
  value_eq _ _ = false

  pub fields_eq : Fields → Fields → Bool
  fields_eq end end = true
  fields_eq (field k v fs) (field j w gs) = str_eq k j && value_eq v w && fields_eq fs gs
  fields_eq _ _ = false

  pub items_eq : Items → Items → Bool
  items_eq no_items no_items = true
  items_eq (item v vs) (item w ws) = value_eq v w && items_eq vs ws
  items_eq _ _ = false

-- value[name], which is null where there is no such field
abbrev pub at : Value → String → Value
at v name = elim (Json.get v name) [ none ↦ null | some w ↦ w ]

abbrev pub is_text : Value → String → Bool
is_text v text = elim (Json.as_str v) [ none ↦ false | some s ↦ str_eq s text ]

-- value == true and value == false
abbrev pub is_true : Value → Bool
is_true v = elim (Json.as_bool v) [ none ↦ false | some b ↦ b ]

abbrev pub is_false : Value → Bool
is_false v = elim (Json.as_bool v) [ none ↦ false | some b ↦ not b ]
