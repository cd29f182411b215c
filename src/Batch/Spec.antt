-- ===== src/Batch/Spec.antt =====
-- A batch and its scheduling edges. A `Vec` with an entry for each action is a function of the
-- action's index.
use tauri_connector.Json.{Value, null, bool, obj, Fields, end, field}
use tauri_connector.Prelude.{
  ℕ, zero, suc, String, Bool, true, false, not, ◌&&◌, Option, none, some, List, [], ◌∷◌, ◌++◌,
  str_eq, if◌then◌else◌, ◌==◌, any, get_elem?,
}

pub data BatchMode : Type 0 where
  sequential parallel : BatchMode

pub record ActionSpec : Type 0 where
  pub id : Option String
  pub tool : String
  pub args : Value
  pub depends_on : List String
  pub timeout_ms : Option ℕ
  pub omit_result : Bool

pub record BatchSpec : Type 0 where
  pub mode : BatchMode
  pub stop_on_error : Bool
  pub max_parallel : Option ℕ
  pub timeout_ms : Option ℕ
  pub save : Option String
  pub actions : List ActionSpec

abbrev pub is_sequential : BatchMode → Bool
is_sequential sequential = true
is_sequential parallel = false

abbrev pub has_id : String → ActionSpec → Bool
has_id name a = elim a.id [ none ↦ false | some own ↦ str_eq own name ]

-- `id_to_index`, where a later action takes the place of an earlier one with its id
unfoldable pub id_to_index : String → ℕ → List ActionSpec → Option ℕ
id_to_index name i [] = none
id_to_index name i (a ∷ rest) = elim (id_to_index name (suc i) rest) [
  | some j ↦ some j
  | none ↦ if has_id name a then some i else none
]

-- `xs.contains(&x)`
abbrev pub contains : ℕ → List ℕ → Bool
contains x = any (λ y. y == x)

abbrev pub push_new : ℕ → List ℕ → List ℕ
push_new x xs = if contains x xs then xs else xs ++ x ∷ []

-- the loop over `depends_on`, with what it has pushed to `deps` and to `explicit` so far
unfoldable pub named_edges : List ActionSpec → List String → List ℕ → List ℕ → List ℕ × List ℕ
unfolding id_to_index
named_edges actions [] deps explicit = (deps, explicit)
named_edges actions (dep ∷ names) deps explicit =
    let found = id_to_index dep 0 actions in
    named_edges actions names (elim found [ none ↦ deps | some i ↦ push_new i deps ])
      (elim found [ none ↦ explicit | some i ↦ push_new i explicit ])

-- the edge to the previous action
abbrev pub chain_edge : BatchMode → ℕ → List ℕ → List ℕ
chain_edge mode zero deps = deps
chain_edge mode (suc i) deps =
    if is_sequential mode && not (contains i deps) then deps ++ i ∷ [] else deps

abbrev pub Edges : Type 0
Edges = ℕ → List ℕ

unfoldable pub all_deps : BatchSpec → Edges
unfolding named_edges
all_deps spec i = elim (get_elem? spec.actions i) [
  | none ↦ []
  | some a ↦ chain_edge spec.mode i (named_edges spec.actions a.depends_on [] []).0
]

unfoldable pub explicit_deps : BatchSpec → Edges
unfolding named_edges
explicit_deps spec i = elim (get_elem? spec.actions i) [
  | none ↦ []
  | some a ↦ (named_edges spec.actions a.depends_on [] []).1
]

-- `dependency_edges`
unfoldable pub dependency_edges : BatchSpec → Edges × Edges
dependency_edges spec = (all_deps spec, explicit_deps spec)

-- `object.entry(name).or_insert(value)`
abbrev pub or_insert : String → Value → Fields → Fields
or_insert name v end = field name v end
or_insert name v (field k w fs) =
    if str_eq k name then field k w fs else field k w (or_insert name v fs)

abbrev pub with_save : Value → Value
with_save null = obj (field "save" (bool true) end)
with_save (obj fs) = obj (or_insert "save" (bool true) fs)
with_save v = v

unfoldable pub prepare_tool_args : String → Value → Value
prepare_tool_args tool args = if str_eq tool "webview_screenshot" then with_save args else args
