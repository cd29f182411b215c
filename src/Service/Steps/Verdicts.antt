-- ===== src/Service/Steps/Verdicts.antt =====
-- How a step ends: its result is recorded, verified, and what is left in doubt is isolated.
use tauri_connector.Json.{Value}
use tauri_connector.Map
use tauri_connector.Map.{Map}
use tauri_connector.Outcome.Facts.{
  ExecutionOutcome, not_requested, passed, failed_check, inconclusive, is_success, is_completed,
  is_error_free,
}
use tauri_connector.Workflow.Spec.{Step, WorkflowSpec}
use tauri_connector.Service.State.{isolated, Machine, checkpoint, set_report, stop}
use tauri_connector.Service.Calls.{Answer, timed_out, act, ask, cleanup, wait_condition}
use tauri_connector.Service.Steps.Prepare.{StepWorld, is_writing, Flow}
use tauri_connector.Service.Steps.Outcomes.{has_effect, is_possible}
use tauri_connector.Prelude.{
  ◌+◌, String, Bool, true, false, ◌&&◌, ◌||◌, Option, none, some, [], ◌∷◌, ◌++◌, ok, err,
  if◌then◌else◌, ◌==◌, str_eq,
}

-- `lease.quarantine`, and what is said of it
unfoldable pub isolate : Machine → Machine
isolate m = act isolated (set_report (λ r. record r { quarantined = true }) m)

-- the completion result is preserved before it is verified
unfoldable pub record_result : StepWorld → Bool → ExecutionOutcome → Machine → Flow Machine
record_result w writing o m =
    let kept =
      checkpoint "step_execution_result" w.result_ack
        (set_report (λ r. record r { blocked_outcome = some o }) m) in
    let cleaned = cleanup w.observation_id kept in
    if w.result_ack.durable
    then ok kept
    else err (
        stop "paused" (some "persistence_unavailable") (some o) w.stop_ack
          (if has_effect o && writing then isolate cleaned else cleaned))

abbrev pub has_expectation : Step → Bool
has_expectation step = elim step.expect [ none ↦ false | some _ ↦ true ]

-- the outcome with the verdict on its expectation
unfoldable pub judge : Answer → ExecutionOutcome → ExecutionOutcome
judge (ok v) o = record o { verification = passed }
judge (err e) o = record o {
  verification = if str_eq e.code "cancel_requested" then inconclusive else failed_check;
  error =
      some (
        if str_eq e.code "condition_timeout"
        then record e { code = "postcondition_failed" }
        else e);
}

unfoldable pub verify : StepWorld → Step → ExecutionOutcome → Machine → ExecutionOutcome × Machine
verify w step o m =
    let seen = wait_condition w.observation_id w.verification m in
    if is_completed o.execution && is_error_free o && has_expectation step
    then (judge seen.0 o, seen.1)
    else (o, m)

abbrev pub is_doubtful : ExecutionOutcome → Bool
is_doubtful o = elim o.verification [
  | failed_check ↦ true
  | inconclusive ↦ true
  | passed ↦ false
  | not_requested ↦ false
]

abbrev pub needs_quarantine : Bool → ExecutionOutcome → Bool
needs_quarantine writing o = writing && (is_possible o || is_completed o.execution && is_doubtful o)

-- the evidence, where it has arrived
unfoldable pub attach :
    String → Option Value → ExecutionOutcome → Machine → ExecutionOutcome × Machine
attach evidence none o m = (o, m)
attach evidence (some v) o m = (
  record o { evidence_refs = o.evidence_refs ++ evidence ∷ [] },
  set_report (λ r. record r { evidence_refs = r.evidence_refs ++ evidence ∷ [] }) m,
)

-- the evidence of a failure, for which there is a grace
unfoldable pub gather :
    StepWorld → WorkflowSpec → ExecutionOutcome → Machine → ExecutionOutcome × Machine
gather w spec o m =
    if spec.defaults.failure_evidence_grace_ms == 0
    then (o, m)
    else attach w.evidence_id w.evidence o (ask "evidence" w.observation_id timed_out m)

abbrev pub reason_of : ExecutionOutcome → String
reason_of o = elim o.error [ none ↦ "execution_failed" | some e ↦ e.code ]

-- the end of a step that did not succeed
unfoldable pub fail_step : StepWorld → WorkflowSpec → Bool → ExecutionOutcome → Machine → Machine
fail_step w spec writing o m =
    let held = if needs_quarantine writing o then isolate m else m in
    let seen = gather w spec o held in
    stop (if w.cancelled_end then "cancelled" else "paused") (some (reason_of seen.0)) (some seen.0)
      w.stop_ack (cleanup w.observation_id seen.1)

-- a step that succeeded is over
unfoldable pub advance : Step → ExecutionOutcome → Machine → Machine
advance step o m =
    let run = m.run in
    record m {
      run = record run {
        outcomes = Map.insert step.id o run.outcomes;
        index = run.index + 1;
        report = record run.report {
          steps = run.report.steps ++ (step.id, o) ∷ [];
          completed_steps = run.index + 1;
          blocked_outcome = none;
          blocked_step = none;
        };
      };
    }

-- the run stops where it stands, as the journal does not take its record
unfoldable pub leave : String → Machine → Machine
leave status m = record m {
  run = record m.run {
    executing = false;
    report = record m.run.report { status = status; reason = some "persistence_unavailable" };
  };
}

-- the end of a step that succeeded
unfoldable pub pass_step : StepWorld → Step → ExecutionOutcome → Machine → Flow Machine
pass_step w step o m =
    let kept =
      checkpoint "step_verification_result" w.verified_ack
        (advance step o (cleanup w.observation_id m)) in
    if w.verified_ack.durable then ok kept else err (leave "paused" kept)

unfoldable pub finish_step :
    StepWorld → WorkflowSpec → Step → ExecutionOutcome → Machine → Flow Machine
finish_step w spec step o m =
    let seen = verify w step o m in
    if is_success (has_expectation step) seen.0
    then pass_step w step seen.0 seen.1
    else err (fail_step w spec (is_writing step.op) seen.0 seen.1)
