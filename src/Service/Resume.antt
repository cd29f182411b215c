-- ===== src/Service/Resume.antt =====
-- What may follow a segment: `resume_run`, `reconcile` and a cancellation.
use tauri_connector.Outcome.Facts.{ExecutionOutcome, WorkflowError}
use tauri_connector.Workflow.Spec.{Condition, WorkflowSpec, Serde}
use tauri_connector.Workflow.Exprs.{resolve_condition}
use tauri_connector.Service.State.{Machine, Ack, checkpoint, set_report, is_dispatched}
use tauri_connector.Service.Calls.{Answer, Reply, Round, observe_condition}
use tauri_connector.Service.Drive.{DriveWorld, drive}
use tauri_connector.Prelude.{
  ℕ, String, Bool, true, false, not, ◌&&◌, ◌||◌, Option, none, some, List, [], ◌∷◌, Result, ok, err,
  if◌then◌else◌, ◌==◌, str_eq, get_elem?,
}

-- whether the blocked outcome says `not_dispatched`
abbrev pub is_undispatched : Option ExecutionOutcome → Bool
is_undispatched none = false
is_undispatched (some o) = not (is_dispatched (some o))

-- What a caller asks for, with the revision and the checkpoint that it has seen.
pub record ResumeArgs : Type 0 where
  pub expected_revision : ℕ
  pub checkpoint_id : String

abbrev pub is_stale : ResumeArgs → Machine → Bool
is_stale args m =
    not (args.expected_revision == m.run.report.revision)
    || not (str_eq args.checkpoint_id m.run.report.checkpoint_id)

-- the guards of a continuation; `expired` says that the deadline of the run has passed
unfoldable pub may_continue : ResumeArgs → Bool → Machine → Bool
may_continue args expired m =
    not (is_stale args m)
    && not m.run.executing
    && not m.run.cancel
    && str_eq m.run.report.status "paused"
    && is_undispatched m.run.report.blocked_outcome
    && not expired

-- a run whose spec is gone stays as it is
abbrev pub with_spec : Option WorkflowSpec → (WorkflowSpec → Machine) → Machine → Machine
with_spec none f m = m
with_spec (some spec) f m = f spec

-- a run waits for its next segment
abbrev pub enqueue : Machine → Machine
enqueue m = record m {
  run = record m.run {
    executing = true;
    report = record m.run.report { recovery_occurred = true; status = "queued" };
  };
}

abbrev pub release : Machine → Machine
release m = record m { run = record m.run { executing = false } }

-- `resume_run` with the intent to continue, and the segment that it starts
unfoldable pub continue_run : Serde → ResumeArgs → Bool → Ack → DriveWorld → Machine → Machine
unfolding drive may_continue
continue_run serde args expired ack w m =
    with_spec m.run.spec
      (λ spec.
        let kept = checkpoint "continue_requested" ack (enqueue m) in
        let driven = drive serde w spec kept in
        if not (may_continue args expired m)
        then m
        else if ack.durable
        then driven
        else release kept)
      m

abbrev pub is_passed_answer : Answer → Bool
is_passed_answer (ok _) = true
is_passed_answer (err _) = false

abbrev pub blocked_expectation : WorkflowSpec → Machine → Option Condition
blocked_expectation spec m = elim (get_elem? spec.steps m.run.index) [
  | none ↦ none
  | some step ↦ step.expect
]

-- what a look at the blocked step comes to
abbrev pub conclude :
    Result WorkflowError Condition → String → Reply → List Round → Ack → Machine → Machine
conclude (err e) observation prepared rounds ack m = m
conclude (ok c) observation prepared rounds ack m =
    let seen = observe_condition observation prepared rounds m in
    checkpoint "reconciliation_result" ack
      (set_report (λ r. record r { late_outcome = some (is_passed_answer seen.0) }) seen.1)

abbrev pub conclude_if :
    Serde → WorkflowSpec → Option Condition → String → Reply → List Round → Ack → Machine → Machine
conclude_if serde spec none observation prepared rounds ack m = m
conclude_if serde spec (some c) observation prepared rounds ack m =
    conclude (resolve_condition serde spec.inputs m.run.outcomes c) observation prepared rounds ack
      m

-- `reconcile`: a look at the expectation of the blocked step, which repeats nothing
unfoldable pub reconcile :
    Serde → WorkflowSpec → String → Reply → List Round → Ack → Machine → Machine
reconcile serde spec observation prepared rounds ack m =
    conclude_if serde spec (blocked_expectation spec m) observation prepared rounds ack m

-- `resume_run` with the intent to reconcile
unfoldable pub reconcile_run :
    Serde → ResumeArgs → Ack → String → Reply → List Round → Ack → Machine → Machine
unfolding reconcile
reconcile_run serde args ack observation prepared rounds result_ack m =
    with_spec m.run.spec
      (λ spec.
        let kept =
          checkpoint "reconciliation_requested" ack
            (set_report (λ r. record r { recovery_occurred = true }) m) in
        let seen = reconcile serde spec observation prepared rounds result_ack kept in
        if is_stale args m || m.run.executing then m else if ack.durable then seen else kept)
      m

-- a run that is asked to stop
abbrev pub mark_cancel : Machine → Machine
mark_cancel m = record m {
  run = record m.run {
    cancel = true;
    report = record m.run.report {
      status =
          if m.run.executing
          then "cancelling"
          else if str_eq m.run.report.status "completed"
          then "completed"
          else "cancelled";
    };
  };
}

-- `workflow_cancel`
unfoldable pub cancel_run : Ack → Machine → Machine
cancel_run ack m =
    with_spec m.run.spec
      (λ spec. if m.run.cancel then m else checkpoint "cancel_requested" ack (mark_cancel m)) m

-- What callers do with a run after its first segment.
pub data Request : Type 0 where
  continue_with : ResumeArgs → Bool → Ack → DriveWorld → Request
  reconcile_with : ResumeArgs → Ack → String → Reply → List Round → Ack → Request
  cancel_with : Ack → Request

unfoldable pub serve : Serde → Request → Machine → Machine
unfolding continue_run reconcile_run cancel_run
serve serde (continue_with args expired ack w) m = continue_run serde args expired ack w m
serve serde (reconcile_with args ack observation prepared rounds result_ack) m =
    reconcile_run serde args ack observation prepared rounds result_ack m
serve serde (cancel_with ack) m = cancel_run ack m

unfoldable pub serve_all : Serde → List Request → Machine → Machine
unfolding serve
serve_all serde [] m = m
serve_all serde (r ∷ rs) m = serve_all serde rs (serve serde r m)
