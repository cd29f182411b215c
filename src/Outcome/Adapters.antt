-- ===== src/Outcome/Adapters.antt =====
-- The adapters of the older tools, which answer with a JSON value or an error text.
use mathlib.Core.Option
use tauri_connector.Json
use tauri_connector.Json.{Value}
use tauri_connector.Outcome.Facts.{
  failed_status, failed_check, passed, inconclusive, no_effect, possible, WorkflowError, new_error,
  ExecutionOutcome, completed, failed, unknown,
}
use tauri_connector.Prelude.{
  String, Bool, true, false, ◌&&◌, ◌||◌, Option, none, some, List, [], ◌∷◌, ◌++◌, any, str_eq,
  codes, Text, text_eq, strip_prefix, if◌then◌else◌,
}

abbrev pub starts_with : Text → Text → Bool
starts_with s part = elim (strip_prefix s part) [ none ↦ false | some _ ↦ true ]

-- `s.contains(part)`
unfoldable pub contains : Text → Text → Bool
contains [] part = starts_with [] part
contains (c ∷ s) part = starts_with (c ∷ s) part || contains s part

-- the name without a leading `webview_`
unfoldable pub canonical : String → Text
canonical tool = Option.get_or (strip_prefix (codes tool) (codes "webview_")) (codes tool)

unfoldable pub is_named : Text → List String → Bool
is_named name names = any (λ n. text_eq name (codes n)) names

-- NON_MUTATING_LEASED_TOOLS
abbrev pub non_mutating_leased_tools : List String
non_mutating_leased_tools =
    "screenshot" ∷ "dom_snapshot" ∷ "find_element" ∷ "get_styles" ∷ "wait_for" ∷ "wait" ∷ []

abbrev snapdom_hint : Text
snapdom_hint =
    codes
      "\n\nhint: the legacy screenshot fallback needs window.snapdom; pass --source webview_native (or window_native) to use the native capture instead"

unfoldable pub legacy_error_outcome : String → WorkflowError → ExecutionOutcome
unfolding failed unknown
legacy_error_outcome tool e =
    if is_named (canonical tool) ("screenshot" ∷ [])
      && contains e.message (codes "snapdom not available")
    then failed (new_error "capability_unavailable" "executing" (e.message ++ snapdom_hint))
        no_effect
    else if is_named (canonical tool) non_mutating_leased_tools
    then record (unknown e) { effect = no_effect }
    else unknown e

-- `value.get(name).and_then(Value::as_bool) == Some(b)`
unfoldable pub has_flag : Value → String → Bool → Bool
unfolding Json.get Json.as_bool
has_flag v name wanted = elim (Json.get v name) [
  | none ↦ false
  | some flag ↦ elim (Json.as_bool flag) [
    | none ↦ false
    | some true ↦ wanted
    | some false ↦ if wanted then false else true
  ]
]

unfoldable pub text_field : Value → String → Option String
unfolding Json.get Json.as_str
text_field v name = elim (Json.get v name) [ none ↦ none | some w ↦ Json.as_str w ]

-- the outcome of a wait
unfoldable pub with_wait : ExecutionOutcome → ExecutionOutcome
with_wait out =
    if has_flag out.data_value "timeout" true && has_flag out.data_value "found" false
    then record out {
      effect = no_effect;
      execution = failed_status;
      error = some (new_error "condition_timeout" "waiting" (codes "Wait condition timed out"));
    }
    else record out { effect = no_effect }

-- the outcome of an action with a verdict
unfoldable pub with_verdict : ExecutionOutcome → ExecutionOutcome
with_verdict out = elim (text_field out.data_value "verdict") [
  | none ↦ out
  | some verdict ↦
      if str_eq verdict "failed"
      then record out {
        verification = failed_check;
        error =
            some
              (new_error "postcondition_failed" "verifying" (codes "Action verification failed"));
      }
      else if str_eq verdict "passed"
      then record out { verification = passed }
      else if str_eq verdict "inconclusive"
      then record out { verification = inconclusive }
      else out
]

unfoldable pub legacy_outcome : String → Value → ExecutionOutcome
unfolding completed
legacy_outcome tool value =
    let out = completed value possible in
    if is_named (canonical tool) ("wait_for" ∷ "wait" ∷ [])
    then with_wait out
    else if is_named (canonical tool) ("act_and_verify" ∷ [])
    then with_verdict out
    else out
