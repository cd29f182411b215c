-- ===== src/Batch/Outcomes.antt =====
-- What the executor makes of the outcome of a call: the adapter of dispatchers that answer with a
-- value or an error text, and the compaction of saved screenshots.
use tauri_connector.Json
use tauri_connector.Json.{Value, obj, Fields, end, field}
use tauri_connector.Outcome.Facts.{
  ExecutionOutcome, possible, new_error, failed, unknown, is_success,
}
use tauri_connector.Outcome.Adapters.{text_field, legacy_outcome}
use tauri_connector.Prelude.{
  is_blank, String, ◌≡◌, refl, Bool, true, false, not, ◌||◌, Option, none, some, List, [], ◌∷◌,
  ◌++◌, arith, str_eq, if◌then◌else◌, any, codes, Text, Result, ok, err,
}

-- the tools whose top-level error text is an error
abbrev pub error_tools : List String
error_tools =
    "webview_interact" ∷ "webview_keyboard" ∷ "webview_wait_for" ∷ "webview_act_and_verify"
    ∷ "webview_locator" ∷ "webview_select_option" ∷ "webview_scroll" ∷ []

abbrev pub reports_errors : String → Bool
reports_errors tool = any (λ n. str_eq tool n) error_tools

-- the text of an error that a tool reports in its value, which `print` writes as JSON
abbrev reported : (Value → Text) → String → Value → Text
reported print message value = codes message ++ codes " — " ++ print value

unfoldable pub adapt_legacy : (Value → Text) → String → Result Text Value → ExecutionOutcome
unfolding unknown failed
adapt_legacy print tool (err message) = unknown (new_error "outcome_unknown" "dispatching" message)
adapt_legacy print tool (ok value) =
    if reports_errors tool
    then elim (text_field value "error") [
      | some message ↦
          record (failed (new_error "execution_failed" "executing" (reported print message value))
            possible) { data_value = value }
      | none ↦ legacy_outcome tool value
    ]
    else legacy_outcome tool value

abbrev pub first_of : Option Value → Option Value → Option Value
first_of (some v) other = some v
first_of none other = other

abbrev pub as_text : Option Value → Option String
as_text none = none
as_text (some v) = Json.as_str v

-- the id of an artifact that is saved: it has an id and a path, neither of them blank
unfoldable pub artifact_id : Value → Option String
unfolding Json.get Json.as_str
artifact_id artifact =
    elim (as_text (first_of (Json.get artifact "artifactId") (Json.get artifact "id"))) [
      | none ↦ none
      | some id ↦ elim (as_text (Json.get artifact "path")) [
        | none ↦ none
        | some path ↦ if is_blank id || is_blank path then none else some id
      ]
    ]

abbrev pub without_field : String → Fields → Fields
without_field name end = end
without_field name (field k v fs) =
    if str_eq k name then without_field name fs else field k v (without_field name fs)

abbrev pub without_image : Value → Value
without_image (obj fs) = obj (without_field "base64" fs)
without_image v = v

abbrev pub add_evidence : String → List String → List String
add_evidence id refs = if any (λ r. str_eq r id) refs then refs else refs ++ id ∷ []

unfoldable pub compact_tool_outcome : String → ExecutionOutcome → ExecutionOutcome
unfolding artifact_id
compact_tool_outcome tool o =
    if not (str_eq tool "webview_screenshot") then o else elim (Json.get o.data_value "artifact") [
      | none ↦ o
      | some artifact ↦ elim (artifact_id artifact) [
        | none ↦ o
        | some id ↦ record o {
          data_value = without_image o.data_value;
          evidence_refs = add_evidence id o.evidence_refs;
        }
      ]
    ]

-- Compaction does not change whether an outcome is a success, and changes nothing for a tool that
-- is not `webview_screenshot`.
pub compact_tool_outcome-is_success :
    (expect : Bool) (tool : String) (o : ExecutionOutcome)
    → (is_success expect (compact_tool_outcome tool o) ≡ is_success expect o)
      × (str_eq tool "webview_screenshot" ≡ false → compact_tool_outcome tool o ≡ o)
compact_tool_outcome-is_success expect tool o = (
  unfold is_success compact_tool_outcome in ground arith,
  unfold compact_tool_outcome in λ h. ground arith,
)

-- Neither the outcome of the dispatcher's error text nor that of a value in which one of the
-- action tools reports an error is a success.
pub adapt_legacy-is_success :
    (print : Value → Text) (tool : String) (expect : Bool) (message : Text) (value : Value)
    (text : String)
    → (is_success expect (adapt_legacy print tool (err message)) ≡ false)
      × (reports_errors tool ≡ true
          → text_field value "error" ≡ some text
          → is_success expect (adapt_legacy print tool (ok value)) ≡ false)
unfolding adapt_legacy is_success
adapt_legacy-is_success print tool expect message value text = (refl, λ h k. ground arith)
