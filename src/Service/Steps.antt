-- ===== src/Service/Steps.antt =====
-- One round of the loop of `drive`: a step is resolved, prepared, executed, verified and recorded.
-- An `err` is the machine where the run has stopped.
pub mod Prepare
pub mod Outcomes
pub mod Verdicts
unfoldable pub use Prepare.*
unfoldable pub use Outcomes.*
unfoldable pub use Verdicts.*
use tauri_connector.Json
use tauri_connector.Json.{Value, null, bool, num, str, obj, Fields, end, field}
use tauri_connector.Json.Edit.{put_field, edit}
use tauri_connector.Json.Reads.{at, is_true, is_false, value_eq}
use tauri_connector.Map
use tauri_connector.Map.{Map}
use tauri_connector.Outcome.Facts.{
  ExecutionOutcome, completed_status, not_dispatched_status, failed_status, outcome_unknown,
  ExecutionStatus, VerificationStatus, not_requested, passed, failed_check, inconclusive,
  EffectStatus, no_effect, possible, confirmed, WorkflowError, new_error, completed, not_dispatched,
  failed, unknown, is_success, is_completed, is_error_free,
}
use tauri_connector.Workflow.Spec.{
  StepOp, click, fill, type_text, press, wait, query, tool, Step, WorkflowSpec, Serde,
}
use tauri_connector.Workflow.Exprs.{resolve_step}
use tauri_connector.Service.State.{
  Act, isolated, Run, Report, Machine, Ack, checkpoint, set_report, stop, pre_dispatch_stop,
  page_error,
}
use tauri_connector.Service.Calls.{
  Answer, Reply, timed_out, bounded_call, act, ask, cleanup, Round, wait_condition, Try,
  execute_loop, is_ready,
}
use tauri_connector.Prelude.{
  ℕ, ◌+◌, ◌-◌, String, Bool, true, false, not, ◌&&◌, ◌||◌, Option, none, some, List, [], ◌∷◌, ◌++◌,
  Result, ok, err, ◌>>=◌, if◌then◌else◌, ◌==◌, any, str_eq, codes,
}

-- from the execution on
unfoldable pub carry_out : StepWorld → WorkflowSpec → Step → String → Machine → Flow Machine
carry_out w spec step window m =
    let done = execute w step m in
    let o =
      describe w window (is_writing step.op) (context_of window m) (retain w.retained done.0) in
    record_result w (is_writing step.op) o done.1 >>= finish_step w spec step o

-- from the intent on
unfoldable pub dispatch_step : StepWorld → WorkflowSpec → Step → String → Machine → Flow Machine
dispatch_step w spec step window m = record_intent w (is_writing step.op) m >>= λ n.
    check_dispatch w n >>= carry_out w spec step window

-- from the record of the preparation on
unfoldable pub boundary_step :
    StepWorld → WorkflowSpec → Step → String → Machine → Value → Flow Machine
boundary_step w spec step window m page = record_prepared w spec step window page m >>= λ n.
    check_boundary w n >>= dispatch_step w spec step window

-- from the preparation on
unfoldable pub prepare_step : StepWorld → WorkflowSpec → Machine → Step → Flow Machine
prepare_step w spec m step =
    let window = window_of spec step in
    let after = ask "prepare" w.observation_id w.prepared m in
    accept_prepared w (context_of window m) (bounded_call false w.prepared) after
    >>= boundary_step w spec step window after

-- a round of the loop
unfoldable pub drive_step : Serde → WorkflowSpec → StepWorld → Step → Machine → Flow Machine
drive_step serde spec w source m =
    begin_step w m >>= λ n. resolve_now serde w spec source n >>= prepare_step w spec n
