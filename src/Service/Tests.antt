-- ===== src/Service/Tests.antt =====
-- A workflow of two clicks: the first is tried again, the second is left in doubt.
use tauri_connector.Json.{null, bool, str, obj, end, field}
use tauri_connector.Workflow.Spec.{
  literal, css, Locator, locator, no_scope, visible, element, click, Step, WorkflowSpec, Serde,
  default_evidence, default_times,
}
use tauri_connector.Service.State.{Ack, Machine}
use tauri_connector.Service.Calls.{Reply, timed_out, replied, Round, answered, Try}
use tauri_connector.Service.Steps.{StepWorld}
use tauri_connector.Service.Drive.{DriveWorld, start_run}
use tauri_connector.Service.Resume.{
  ResumeArgs, Request, continue_with, reconcile_with, cancel_with, serve_all,
}
use tauri_connector.Service.Registry.{answered}
use tauri_connector.Service.Acts.{AreSafe, may_have_run, is_isolated}
use tauri_connector.Service.Guarantees.{
  start_run-is_isolated, HasPassed, start_run-AreSafe, dispatches, start_run-dispatches,
}
use tauri_connector.Prelude.{
  ℕ, ◌≡◌, ◌≤◌, ◌⊎◌, String, Bool, true, false, none, some, List, [], ◌∷◌, ok, ◌==◌, if◌then◌else◌,
}

abbrev plain_serde : Serde
plain_serde = record {
  size = λ v. some 1;
  step_size = λ step. some 1;
  pointer = λ v p. none;
  assign = λ v p w. none;
}

abbrev button : Locator
button = locator css (literal (str "#save")) none no_scope none

abbrev saving : String → Step
saving id = record {
  id = id;
  window_id = none;
  timeout_ms = none;
  expect = some (element button visible);
  evidence = none;
  op = click button;
}

abbrev pub two_clicks : WorkflowSpec
two_clicks = record {
  schema_version = 1;
  run_key = "run-2";
  mode = "strict";
  schedule = "sequential";
  window_id = "main";
  inputs = [];
  deadline_ms = 60000;
  defaults = default_times;
  evidence = default_evidence;
  steps = saving "first" ∷ saving "second" ∷ [];
  goal = none;
}

abbrev pub written : Ack
written = record { id = "checkpoint"; durable = true }

abbrev ready_page : Reply
ready_page =
    replied (
      ok (obj (field "context" (obj end) (field "ok" (bool true) (field "ready" (bool true) end)))))

abbrev satisfied_page : Round
satisfied_page =
    answered (replied (ok (obj (field "ok" (bool true) (field "satisfied" (bool true) end))))) false

abbrev not_found : Reply
not_found = replied (
    ok (
      obj (
        field "dispatched" (bool false) (
          field "error" (obj (field "code" (str "target_not_found") end))
            (field "ok" (bool false) end)))))

abbrev clicked : Reply
clicked = replied (ok (obj (field "dispatched" (bool true) (field "ok" (bool true) end))))

abbrev attempt : Reply → Bool → Try
attempt reply late = record { cancelled = false; reply = reply; late = late }

-- the first step is found at the second try, the second exceeds its deadline
abbrev page_at : ℕ → StepWorld
page_at i = record {
  cancelled = false;
  expired = false;
  prepared = ready_page;
  prepared_ack = written;
  cancelled_prepared = false;
  expired_prepared = false;
  intent_ack = written;
  cancelled_intent = false;
  expired_intent = false;
  rounds = [];
  tries = attempt not_found false ∷ attempt (if i == 0 then clicked else timed_out) false ∷ [];
  last_try = attempt timed_out true;
  timing = null;
  retained = true;
  result_ack = written;
  verification = satisfied_page ∷ [];
  evidence = none;
  cancelled_end = false;
  verified_ack = written;
  stop_ack = written;
  observation_id = "observation";
  request_id = "request";
  evidence_id = "evidence";
}

abbrev quiet : DriveWorld
quiet = record {
  slot = true;
  cancelled_queued = false;
  leased = true;
  started_ack = written;
  recheck_id = "recheck";
  recheck_prepared = ready_page;
  recheck_rounds = satisfied_page ∷ [];
  cancelled_recheck = false;
  expired_recheck = false;
  steps = page_at;
  cancelled_goal = false;
  goal_id = "goal";
  goal_prepared = ready_page;
  goal_rounds = satisfied_page ∷ [];
  stop_ack = written;
  cancelled = false;
}

-- the caller tries to go on, looks at the step and cancels
abbrev latest : ResumeArgs
latest = record { expected_revision = 10; checkpoint_id = "checkpoint" }

abbrev requests : List Request
requests =
    continue_with latest false written quiet
    ∷ reconcile_with latest written "late" ready_page (satisfied_page ∷ []) written
    ∷ cancel_with written
    ∷ []

abbrev stopped : Machine
stopped = start_run plain_serde "app" written quiet two_clicks

abbrev after : Machine
after = serve_all plain_serde requests stopped

start_run-AreSafe_example : AreSafe after.acts
start_run-AreSafe_example = start_run-AreSafe plain_serde "app" written quiet two_clicks requests

start_run-dispatches_example : dispatches 1 after.acts ≤ 1
start_run-dispatches_example =
    start_run-dispatches plain_serde "app" written quiet two_clicks requests 1

start_run-is_isolated_example :
    (may_have_run 1 after.acts ≡ false) ⊎ (HasPassed 1 after ⊎ (is_isolated after.acts ≡ true))
start_run-is_isolated_example =
    start_run-is_isolated plain_serde "app" written quiet two_clicks requests 1
