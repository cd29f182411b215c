-- ===== src/Service/Steps/Outcomes.antt =====
-- The execution of a step and the outcome that it comes to.
use tauri_connector.Json
use tauri_connector.Json.{Value, null, bool, num, str, obj, Fields, end, field}
use tauri_connector.Json.Edit.{put_field, edit}
use tauri_connector.Json.Reads.{at, is_true, is_false}
use tauri_connector.Outcome.Facts.{
  ExecutionOutcome, completed_status, not_dispatched_status, failed_status, outcome_unknown,
  inconclusive, EffectStatus, no_effect, possible, confirmed, new_error, completed, not_dispatched,
  failed, unknown,
}
use tauri_connector.Workflow.Spec.{Step}
use tauri_connector.Service.State.{Machine, page_error}
use tauri_connector.Service.Calls.{Answer, wait_condition, execute_loop}
use tauri_connector.Service.Steps.Prepare.{StepWorld, is_writing, is_wait, dispatch_metadata}
use tauri_connector.Prelude.{
  String, Bool, true, false, ◌&&◌, Option, none, some, [], ◌∷◌, ok, err, if◌then◌else◌, any, str_eq,
  codes,
}

abbrev pub effect_if : Bool → EffectStatus → EffectStatus
effect_if writing effect = if writing then effect else no_effect

abbrev pub text_in : Option Value → Option String
text_in none = none
text_in (some v) = Json.as_str v

abbrev pub is_undispatched_code : String → Bool
is_undispatched_code code =
    any (λ c. str_eq c code) ("target_not_found" ∷ "target_changed" ∷ "unauthorized" ∷ [])

-- the match on the response of an execution
unfoldable pub outcome_of : Bool → Answer → ExecutionOutcome
outcome_of writing (ok v) =
    let e = page_error v "protocol_mismatch" in
    let dispatched = at v "dispatched" in
    if is_true (at v "ok") && (if writing then is_true dispatched else is_false dispatched)
    then record (completed (at v "data") (effect_if writing confirmed)) {
      effect_scope = text_in (Json.get v "effectScope");
    }
    else if is_true dispatched
    then failed e (effect_if writing possible)
    else if is_false dispatched
    then not_dispatched e
    else if writing
    then unknown (
        new_error "protocol_mismatch" "executing"
          (codes "Page response did not establish dispatch state"))
    else failed e no_effect
outcome_of writing (err e) =
    if str_eq e.code "outcome_unknown"
    then record (unknown e) { effect = effect_if writing possible }
    else if is_undispatched_code e.code
    then not_dispatched e
    else failed e (effect_if writing possible)

abbrev pub outcome_of_wait : Answer → ExecutionOutcome
outcome_of_wait (ok v) = completed v no_effect
outcome_of_wait (err e) = failed e no_effect

-- the execution of a step, whose index is given
unfoldable pub execute : StepWorld → Step → Machine → ExecutionOutcome × Machine
execute w step m =
    let waited = wait_condition w.observation_id w.rounds m in
    let done = execute_loop m.run.index w.request_id (is_writing step.op) w.tries w.last_try m in
    if is_wait step.op
    then (outcome_of_wait waited.0, waited.1)
    else (outcome_of (is_writing step.op) done.0, done.1)

-- the result as far as the memory budget retains it
unfoldable pub retain : Bool → ExecutionOutcome → ExecutionOutcome
retain retained o = if retained then o else record o {
  data_value = null;
  error = some (
      new_error "capture_incomplete" "retaining"
        (codes "Result exceeded the remaining host retention budget"));
  verification = inconclusive;
  coverage = obj (field "truncated" (bool true) end);
}

abbrev pub was_dispatched : ExecutionOutcome → Bool
was_dispatched o = elim o.execution [
  | not_dispatched_status ↦ false
  | completed_status ↦ true
  | failed_status ↦ true
  | outcome_unknown ↦ true
]

unfoldable pub describe : StepWorld → String → Bool → Value → ExecutionOutcome → ExecutionOutcome
describe w window writing context o = record o {
  timing = w.timing;
  dispatch = obj (
      put_field "dispatched" (bool (writing && was_dispatched o)) (
        put_field "windowId" (str window)
          (put_field "requestId" (str w.request_id) (dispatch_metadata context))));
  coverage =
      edit
        (λ c.
          put_field "businessPersistence" (str "unobserved")
            (put_field "correlation" (str "state_only") c))
        o.coverage;
}

abbrev pub has_effect : ExecutionOutcome → Bool
has_effect o = elim o.effect [ no_effect ↦ false | possible ↦ true | confirmed ↦ true ]

abbrev pub is_possible : ExecutionOutcome → Bool
is_possible o = elim o.effect [ no_effect ↦ false | possible ↦ true | confirmed ↦ false ]
