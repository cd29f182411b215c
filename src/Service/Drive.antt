-- ===== src/Service/Drive.antt =====
-- `drive`, a segment of a run, and the first one, which `create` starts.
use tauri_connector.Outcome.Facts.{WorkflowError}
use tauri_connector.Json.{null}
use tauri_connector.Workflow.Spec.{Condition, Step, WorkflowSpec, Serde}
use tauri_connector.Workflow.Exprs.{resolve_condition}
use tauri_connector.Service.State.{Machine, Ack, checkpoint, set_report, stop}
use tauri_connector.Service.Calls.{Answer, Reply, Round, observe_condition}
use tauri_connector.Service.Steps.{StepWorld, Flow, drive_step, stage_error, leave}
use tauri_connector.Prelude.{
  ℕ, ◌-◌, String, Bool, true, false, not, ◌&&◌, ◌||◌, Option, none, some, List, [], ◌∷◌, Result, ok,
  err, ◌>>=◌, if◌then◌else◌, ◌==◌, get_elem?, drop,
}

-- What happens around a segment of a run, from its place in the queue to its goal.
pub record DriveWorld : Type 0 where
  pub slot : Bool
  pub cancelled_queued : Bool
  pub leased : Bool
  pub started_ack : Ack
  pub recheck_id : String
  pub recheck_prepared : Reply
  pub recheck_rounds : List Round
  pub cancelled_recheck : Bool
  pub expired_recheck : Bool
  pub steps : ℕ → StepWorld
  pub cancelled_goal : Bool
  pub goal_id : String
  pub goal_prepared : Reply
  pub goal_rounds : List Round
  pub stop_ack : Ack
  -- whether the run is cancelled at any time of the segment
  pub cancelled : Bool

unfoldable pub begin_drive : DriveWorld → Machine → Flow Machine
begin_drive w m =
    let running = set_report (λ r. record r { status = "running" }) m in
    let kept = checkpoint "run_started" w.started_ack running in
    if not w.slot
    then err (
        stop (if w.cancelled_queued then "cancelled" else "failed") (some "condition_timeout") none
          w.stop_ack m)
    else if not w.leased
    then err (
        stop "paused" (some "resource_busy")
          (some (
            stage_error "resource_busy" "acquiring"
              "Another operation owns the required resources"))
          w.stop_ack m)
    else if w.started_ack.durable
    then ok kept
    else err (leave "paused" kept)

-- an expectation that is resolved is observed
abbrev pub look_for :
    Result WorkflowError Condition → String → Reply → List Round → Machine → Answer × Machine
look_for (err e) observation prepared rounds m = (err e, m)
look_for (ok c) observation prepared rounds m = observe_condition observation prepared rounds m

unfoldable pub look :
    Serde → WorkflowSpec → Condition → String → Reply → List Round → Machine → Answer × Machine
look serde spec c observation prepared rounds m =
    look_for (resolve_condition serde spec.inputs m.run.outcomes c) observation prepared rounds m

-- the expectation of the step before the next, where the run goes on after a pause
abbrev pub boundary : WorkflowSpec → Machine → Option Condition
boundary spec m =
    if m.run.report.recovery_occurred && not (m.run.index == 0)
    then elim (get_elem? spec.steps (m.run.index - 1)) [ none ↦ none | some step ↦ step.expect ]
    else none

unfoldable pub judge_boundary : DriveWorld → Answer → Machine → Flow Machine
judge_boundary w (ok v) m = ok m
judge_boundary w (err e) m = err (
    if w.cancelled_recheck
    then stop "cancelled" (some "cancel_requested") none w.stop_ack m
    else if w.expired_recheck
    then stop "failed" (some "condition_timeout") none w.stop_ack m
    else stop "paused" (some "precondition_failed")
        (some (
          stage_error "precondition_failed" "preparing"
            "The last verified boundary no longer holds"))
        w.stop_ack m)

unfoldable pub recheck :
    Serde → DriveWorld → WorkflowSpec → Option Condition → Machine → Flow Machine
unfolding judge_boundary look
recheck serde w spec none m = ok m
recheck serde w spec (some c) m =
    let seen = look serde spec c w.recheck_id w.recheck_prepared w.recheck_rounds m in
    judge_boundary w seen.0 seen.1

-- the loop over the steps that are left
unfoldable pub drive_steps :
    Serde → WorkflowSpec → (ℕ → StepWorld) → List Step → Machine → Flow Machine
unfolding drive_step
drive_steps serde spec worlds [] m = ok m
drive_steps serde spec worlds (step ∷ steps) m =
    drive_step serde spec (worlds m.run.index) step m >>= drive_steps serde spec worlds steps

unfoldable pub judge_goal : DriveWorld → Answer → Machine → Machine
judge_goal w (ok v) m =
    stop "completed" none none w.stop_ack (set_report (λ r. record r { goal_status = "passed" }) m)
judge_goal w (err e) m =
    stop "failed" (some e.code) none w.stop_ack
      (set_report (λ r. record r { goal_status = "failed" }) m)

unfoldable pub reach_goal : Serde → DriveWorld → WorkflowSpec → Option Condition → Machine → Machine
unfolding judge_goal look
reach_goal serde w spec none m = stop "completed" none none w.stop_ack m
reach_goal serde w spec (some goal) m =
    let seen = look serde spec goal w.goal_id w.goal_prepared w.goal_rounds m in
    judge_goal w seen.0 seen.1

unfoldable pub finish_drive : Serde → DriveWorld → WorkflowSpec → Machine → Machine
finish_drive serde w spec m =
    if w.cancelled_goal
    then stop "cancelled" (some "cancel_requested") none w.stop_ack m
    else reach_goal serde w spec spec.goal m

-- the machine where a segment ends
abbrev pub settle : Flow Machine → (Machine → Machine) → Machine
settle (err m) finish = m
settle (ok m) finish = finish m

abbrev pub note_cancel : Bool → Machine → Machine
note_cancel cancelled m = record m { run = record m.run { cancel = m.run.cancel || cancelled } }

unfoldable pub drive : Serde → DriveWorld → WorkflowSpec → Machine → Machine
unfolding begin_drive recheck drive_steps finish_drive
drive serde w spec m = note_cancel w.cancelled (
    settle
      (begin_drive w m >>= λ started.
        recheck serde w spec (boundary spec started) started >>= λ checked.
        drive_steps serde spec w.steps (drop checked.run.index spec.steps) checked)
      (finish_drive serde w spec))

-- the run that `create` starts with
unfoldable pub new_run : String → WorkflowSpec → Machine
new_run app spec = record {
  run = record {
    app_instance_id = app;
    spec = some spec;
    report = record {
      revision = 0;
      checkpoint_id = "";
      status = "queued";
      reason = none;
      original_test_verdict = "not_requested";
      goal_status = elim spec.goal [ none ↦ "not_requested" | some _ ↦ "inconclusive" ];
      recovery_occurred = false;
      may_have_effects = false;
      completed_steps = 0;
      steps = [];
      allowed_next_actions = "get" ∷ "cancel" ∷ [];
      evidence_refs = [];
      blocked_step = none;
      blocked_outcome = none;
      dispatch_context = null;
      quarantined = false;
      truncated = false;
      persistence_warning = false;
      late_outcome = none;
    };
    outcomes = [];
    contexts = [];
    index = 0;
    cancel = false;
    executing = true;
    events = [];
  };
  acts = [];
}

-- the end of `create`: the run is recorded
unfoldable pub record_run : String → Ack → WorkflowSpec → Machine
record_run app ack spec =
    let kept = checkpoint "run_created" ack (new_run app spec) in
    if ack.durable then kept else leave "failed" kept

-- and driven, where its record is durable
unfoldable pub start_run : Serde → String → Ack → DriveWorld → WorkflowSpec → Machine
unfolding drive new_run record_run
start_run serde app ack w spec =
    let recorded = record_run app ack spec in
    let driven = drive serde w spec recorded in if ack.durable then driven else recorded
