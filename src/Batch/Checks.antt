-- ===== src/Batch/Checks.antt =====
-- The checks of `BatchSpec::validate` on tools, arguments and ids, which come before its search
-- for a cycle.
use tauri_connector.Json.{Value, null, obj}
use tauri_connector.Batch.Spec.{ActionSpec, has_id}
use tauri_connector.Prelude.{
  is_blank, ◌≡◌, String, refl, Bool, true, false, not, ◌&&◌, ◌||◌, none, some, List, [], ◌∷◌, arith,
  str_eq, Result-cases, inl, inr, if◌then◌else◌, any, all, is_empty, Result, ok, err, ◌>>=◌, ◌>>◌,
  refuse_if,
}

-- The errors, with the names that their texts show.
pub data SpecError : Type 0 where
  no_actions empty_tool : SpecError
  args_not_object : String → SpecError
  duplicate_id : String → SpecError
  unknown_dependency : String → String → SpecError
  depends_on_itself : String → SpecError

-- `action.id.as_deref().unwrap_or(&action.tool)`
abbrev pub label : ActionSpec → String
label a = elim a.id [ none ↦ a.tool | some id ↦ id ]

abbrev pub is_object_or_null : Value → Bool
is_object_or_null null = true
is_object_or_null (obj _) = true
is_object_or_null _ = false

abbrev pub is_known : String → List String → Bool
is_known name = any (λ id. str_eq id name)

abbrev pub insert_id : ActionSpec → List String → Result SpecError (List String)
insert_id a ids = elim a.id [
  | none ↦ ok ids
  | some id ↦ if is_known id ids then err (duplicate_id id) else ok (id ∷ ids)
]

-- the first loop, which collects the ids
unfoldable pub check_actions : List ActionSpec → List String → Result SpecError (List String)
check_actions [] ids = ok ids
check_actions (a ∷ rest) ids = do
  refuse_if (is_blank a.tool) empty_tool
  refuse_if (not (is_object_or_null a.args)) (args_not_object (label a))
  insert_id a ids >>= λ more. check_actions rest more

unfoldable pub check_dependencies :
    List String → ActionSpec → List String → Result SpecError (Unit {0})
check_dependencies ids a [] = ok tt
check_dependencies ids a (dep ∷ deps) = do
  refuse_if (not (is_known dep ids)) (unknown_dependency (label a) dep)
  refuse_if (has_id dep a) (depends_on_itself dep)
  check_dependencies ids a deps

-- the second loop
unfoldable pub check_all : List String → List ActionSpec → Result SpecError (Unit {0})
check_all ids [] = ok tt
check_all ids (a ∷ rest) = do check_dependencies ids a a.depends_on; check_all ids rest

unfoldable pub check_names : List ActionSpec → Result SpecError (Unit {0})
check_names actions = do
  refuse_if (is_empty actions) no_actions
  check_actions actions [] >>= λ ids. check_all ids actions

-- what the first loop has collected are the ids of the actions
known_of_checked :
    (actions : List ActionSpec) (ids more : List String) (name : String)
    → check_actions actions ids ≡ ok more
    → is_known name more ≡ (is_known name ids || any (has_id name) actions)
unfolding check_actions
known_of_checked [] ids more name e = ground arith
known_of_checked (a ∷ rest) ids more name e = elim (Result-cases (insert_id a ids)) [
  | inl (bad, q) ↦ absurd (ground arith)
  | inr (next, q) ↦ ground (arith, known_of_checked rest next more name)
]

dependencies_known :
    (ids : List String) (a : ActionSpec) (deps : List String)
    → check_dependencies ids a deps ≡ ok tt
    → all (λ dep. is_known dep ids && not (has_id dep a)) deps ≡ true
unfolding check_dependencies
dependencies_known ids a [] e = refl
dependencies_known ids a (dep ∷ deps) e = ground (arith, dependencies_known ids a deps)

all_known :
    (ids : List String) (actions : List ActionSpec)
    → check_all ids actions ≡ ok tt
    → all (λ a. all (λ dep. is_known dep ids && not (has_id dep a)) a.depends_on) actions ≡ true
unfolding check_all
all_known ids [] e = refl
all_known ids (a ∷ rest) e = elim (Result-cases (check_dependencies ids a a.depends_on)) [
  | inl (bad, q) ↦ absurd (ground arith)
  | inr (done, q) ↦ ground (arith, dependencies_known ids a a.depends_on, all_known ids rest)
]

-- In a batch that passes these checks, each dependency is the id of another action: none is
-- unknown, and no action depends on itself.
pub check_names-resolved :
    (actions : List ActionSpec) (ids : List String)
    → check_actions actions [] ≡ ok ids
    → check_names actions ≡ ok tt
    → (all (λ a. all (λ dep. is_known dep ids && not (has_id dep a)) a.depends_on) actions ≡ true)
      × ((name : String) → is_known name ids ≡ any (has_id name) actions)
unfolding check_names
check_names-resolved actions ids e h =
    (all_known ids actions (ground arith), λ name. known_of_checked actions [] ids name e)
