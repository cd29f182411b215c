-- ===== src/Workflow/Tests.antt =====
-- A workflow of two steps: the second gives what the first has read to a tool.
use tauri_connector.Json
use tauri_connector.Json.{Value, null, str, obj, field, end}
use tauri_connector.Map
use tauri_connector.Map.{Map}
use tauri_connector.Outcome.Facts.{ExecutionOutcome, completed, no_effect, is_success}
use tauri_connector.Workflow.Spec.{
  literal, from_step, css, Locator, locator, no_scope, value_query, visible, element, all_of,
  no_more, also, query, tool, Step, WorkflowSpec, Serde, default_evidence, default_times,
}
use tauri_connector.Workflow.Exprs.{
  validate_pointer, lookup, resolve, bind_all, resolve_op, resolve_step, path_missing,
}
use tauri_connector.Workflow.Validate.{
  nonempty, budget, evidence, check_literal, check_expr, check_locator, count_node, check_condition,
  check_whole, check_bindings, check_overlaps, check_op, check_step, check_steps, check_inputs,
  check_settings, validate,
}
use tauri_connector.Workflow.References.{holds_no_reference}
use tauri_connector.Workflow.Literals.{resolve_step-settled}
use tauri_connector.Workflow.Limits.{
  SettingsAreBounded, AreDistinct, ids, IsBounded, IsSmallIfAny, validate-IsBounded,
}
use tauri_connector.Prelude.{
  true, ◌≡◌, refl, none, some, [], ◌∷◌, str_eq, if◌then◌else◌, All, ok, err,
}

-- objects with the one field `value`
abbrev sample_serde : Serde
sample_serde = record {
  size = λ v. some 1;
  step_size = λ step. some 1;
  pointer = λ v p. if str_eq p "/value" then Json.get v "value" else none;
  assign = λ v p w. if str_eq p "/value" then some (obj (field "value" w end)) else none;
}

abbrev page : Locator
page = locator css (literal (str "#total")) none no_scope none

abbrev reading : Step
reading = record {
  id = "read";
  window_id = none;
  timeout_ms = some 5000;
  expect = some (all_of (also (element page visible) no_more));
  evidence = none;
  op = query page value_query;
}

abbrev reporting : Step
reporting = record {
  id = "report";
  window_id = none;
  timeout_ms = none;
  expect = none;
  evidence = none;
  op =
      tool "report_total" (obj (field "value" null end))
        (("/value", from_step "read" "/value") ∷ []);
}

abbrev sample_spec : WorkflowSpec
sample_spec = record {
  schema_version = 1;
  run_key = "run-1";
  mode = "strict";
  schedule = "sequential";
  window_id = "main";
  inputs = [];
  deadline_ms = 60000;
  defaults = default_times;
  evidence = default_evidence;
  steps = reading ∷ reporting ∷ [];
  goal = none;
}

sample-validates : validate sample_serde sample_spec ≡ ok tt
unfolding validate check_settings nonempty budget evidence check_inputs check_steps check_step
    check_op check_locator check_expr check_literal check_whole check_condition count_node
    check_bindings check_overlaps validate_pointer Json.get Json.is_string Json.as_str
    Json.is_object
sample-validates = refl

abbrev was_read : ExecutionOutcome
was_read = completed (obj (field "value" (str "42 EUR") end)) no_effect

abbrev outcomes_read : Map ExecutionOutcome
outcomes_read = ("read", was_read) ∷ []

abbrev resolved : Step
resolved = record reporting { op = tool "report_total" (obj (field "value" (str "42 EUR") end)) [] }

-- The tool is given what was read.
report-resolves : resolve_step sample_serde [] outcomes_read reporting ≡ ok resolved
unfolding resolve_step resolve_op bind_all resolve lookup validate_pointer Map.get Json.get
    completed is_success
report-resolves = refl

resolve_step-settled_example :
    (holds_no_reference resolved ≡ true) × (resolve_step sample_serde [] [] resolved ≡ ok resolved)
resolve_step-settled_example =
    resolve_step-settled sample_serde [] [] outcomes_read [] reporting resolved report-resolves

validate-IsBounded_example :
    SettingsAreBounded sample_spec
    × AreDistinct (ids sample_spec.steps)
    × All IsBounded sample_spec.steps
    × IsSmallIfAny sample_spec.goal
validate-IsBounded_example = validate-IsBounded sample_serde sample_spec sample-validates

-- What was read may lack the field.
late_error :
    resolve_step sample_serde [] (("read", completed null no_effect) ∷ []) reporting
    ≡ err path_missing
unfolding resolve_step resolve_op bind_all resolve lookup validate_pointer Map.get Json.get
    completed is_success
late_error = refl
