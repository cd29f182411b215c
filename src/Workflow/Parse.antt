-- ===== src/Workflow/Parse.antt =====
-- validate.rs: `WorkflowSpec::parse`, which looks at the shape of a value before `serde_json` reads it.
use tauri_connector.Json
use tauri_connector.Json.{Value}
use tauri_connector.Outcome.Facts.{WorkflowError, new_error}
use tauri_connector.Workflow.Spec.{WorkflowSpec, Serde}
use tauri_connector.Workflow.Exprs.{max_spec_bytes, exceeds, or_fail}
use tauri_connector.Workflow.Validate.{
  invalid, unsupported, validate, max_steps, max_condition_depth, max_locator_depth, and_then,
}
use tauri_connector.Prelude.{
  ℕ, zero, suc, String, Bool, not, Option, none, some, List, [], ◌∷◌, ◌++◌, str_eq, ltb, ◌==◌, any,
  length, codes, Result, ok, err, ◌>>=◌, ◌>>◌, refuse_if,
}

-- a field that is an array
unfoldable pub array_field : Value → String → List Value
unfolding Json.as_array Json.get
array_field v name = elim (Json.get v name) [
  | none ↦ []
  | some w ↦ elim (Json.as_array w) [ none ↦ [] | some vs ↦ vs ]
]

abbrev pub text_at : Value → String → Option String
text_at v name = elim (Json.get v name) [ none ↦ none | some w ↦ Json.as_str w ]

abbrev pub number_at : Value → String → Option ℕ
number_at v name = elim (Json.get v name) [ none ↦ none | some w ↦ Json.as_u64 w ]

abbrev pub is_in : List String → String → Bool
is_in names name = any (λ n. str_eq n name) names

-- a check of each element, in order
abbrev pub each {ℓ} :
    {A : Type ℓ} → (A → Result WorkflowError (Unit {0})) → List A → Result WorkflowError (Unit {0})
each check [] = ok tt
each check (x ∷ xs) = check x >> each check xs

unfoldable pub unsupported_condition : WorkflowError
unsupported_condition =
    new_error "unsupported_condition" "validating" (codes "Unsupported workflow condition")

abbrev pub condition_kinds : List String
condition_kinds =
    "element" ∷ "valueEquals" ∷ "textContains" ∷ "attributeEquals" ∷ "result" ∷ "all" ∷ "any" ∷ []

abbrev pub refused_fields : List String
refused_fields = "transition" ∷ "stabilityMs" ∷ "correlation" ∷ "invocation" ∷ []

abbrev pub check_absent : Value → String → Result WorkflowError (Unit {0})
check_absent v name = and_then (Json.get v name) (λ _. err (
    new_error "unsupported_condition" "validating"
      (codes "Condition " ++ codes name ++ codes " is not supported")))

-- The first argument is how many levels are left, `MAX_CONDITION_DEPTH - depth + 1`.
unfoldable pub check_condition_shape : ℕ → Value → Result WorkflowError (Unit {0})
unfolding array_field
check_condition_shape zero v = err (invalid "Condition depth exceeds 8")
check_condition_shape (suc left) v = do
  and_then (text_at v "kind")
      (λ kind. refuse_if (not (is_in condition_kinds kind)) unsupported_condition)
  each (check_absent v) refused_fields
  each (check_condition_shape left) (array_field v "conditions")

unfoldable pub check_locator_shape : ℕ → Value → Result WorkflowError (Unit {0})
check_locator_shape zero v = err (invalid "Locator scope depth exceeds 4")
check_locator_shape (suc left) v = and_then (Json.get v "scope") (check_locator_shape left)

abbrev pub operations : List String
operations = "click" ∷ "fill" ∷ "type" ∷ "press" ∷ "wait" ∷ "query" ∷ "tool" ∷ []

unfoldable pub check_step_shape : Value → Result WorkflowError (Unit {0})
check_step_shape step = do
  and_then (Json.get step "target") (check_locator_shape max_locator_depth)
  and_then (text_at step "op")
      (λ op. refuse_if (not (is_in operations op)) (unsupported "Unsupported workflow operation"))
  and_then (Json.get step "expect") (check_condition_shape max_condition_depth)
  and_then (Json.get step "condition") (check_condition_shape max_condition_depth)

abbrev pub check_supported : Value → String → String → Result WorkflowError (Unit {0})
check_supported v name supported = and_then (text_at v name) (λ found.
    refuse_if (not (str_eq found supported)) (
      new_error "unsupported_feature" "validating"
        (codes "Only " ++ codes supported ++ codes " " ++ codes name ++ codes " is supported")))

-- `decode` is `serde_json::from_value`.
unfoldable pub parse :
    Serde → (Value → Option WorkflowSpec) → Value → Result WorkflowError WorkflowSpec
unfolding validate
parse serde decode v = do
  refuse_if (exceeds (serde.size v) max_spec_bytes) (invalid "Workflow spec exceeds 256 KiB")
  and_then (number_at v "schemaVersion")
      (λ version. refuse_if (not (version == 1)) (unsupported "Only schemaVersion 1 is supported"))
  check_supported v "mode" "strict"
  check_supported v "schedule" "sequential"
  refuse_if (ltb max_steps (length (array_field v "steps")))
      (invalid "Workflow cannot exceed 100 steps")
  each check_step_shape (array_field v "steps")
  and_then (Json.get v "goal") (check_condition_shape max_condition_depth)
  or_fail (decode v) (invalid "Workflow fields do not match the strict v1 schema") >>= λ spec.
      validate serde spec >> ok spec
