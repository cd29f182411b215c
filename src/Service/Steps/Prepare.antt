-- ===== src/Service/Steps/Prepare.antt =====
-- What a step needs before it is executed: its page, its record and its durable intent.
use tauri_connector.Json
use tauri_connector.Json.{Value, null, bool, num, str, obj, Fields, end, field}
use tauri_connector.Json.Edit.{put_field, edit}
use tauri_connector.Json.Reads.{at, value_eq}
use tauri_connector.Map
use tauri_connector.Map.{Map}
use tauri_connector.Outcome.Facts.{ExecutionOutcome, WorkflowError, new_error, not_dispatched}
use tauri_connector.Workflow.Spec.{
  StepOp, click, fill, type_text, press, wait, query, tool, Step, WorkflowSpec, Serde,
}
use tauri_connector.Workflow.Exprs.{resolve_step}
use tauri_connector.Service.State.{
  Machine, Ack, checkpoint, set_report, stop, pre_dispatch_stop, page_error,
}
use tauri_connector.Service.Calls.{Answer, Reply, cleanup, Round, Try, is_ready}
use tauri_connector.Prelude.{
  String, Bool, true, false, not, ◌||◌, Option, none, some, List, [], ◌∷◌, Result, ok, err,
  if◌then◌else◌, codes,
}

-- What the page, the clock, the canceller, the journal and the memory budget do during a step.
pub record StepWorld : Type 0 where
  -- the readings of the canceller and of the deadlines, in order
  pub cancelled : Bool
  pub expired : Bool
  pub prepared : Reply
  pub prepared_ack : Ack
  pub cancelled_prepared : Bool
  pub expired_prepared : Bool
  pub intent_ack : Ack
  pub cancelled_intent : Bool
  pub expired_intent : Bool
  -- the rounds of a wait, or those of any other operation
  pub rounds : List Round
  pub tries : List Try
  pub last_try : Try
  pub timing : Value
  pub retained : Bool
  pub result_ack : Ack
  pub verification : List Round
  -- the evidence, where it arrives within its grace
  pub evidence : Option Value
  pub cancelled_end : Bool
  pub verified_ack : Ack
  pub stop_ack : Ack
  -- fresh ids
  pub observation_id : String
  pub request_id : String
  pub evidence_id : String

abbrev pub is_writing : StepOp → Bool
is_writing (click _) = true
is_writing (fill _ _) = true
is_writing (type_text _ _) = true
is_writing (press _ _) = true
is_writing (wait _) = false
is_writing (query _ _) = false
is_writing (tool _ _ _) = false

abbrev pub is_wait : StepOp → Bool
is_wait (wait _) = true
is_wait (click _) = false
is_wait (fill _ _) = false
is_wait (type_text _ _) = false
is_wait (press _ _) = false
is_wait (query _ _) = false
is_wait (tool _ _ _) = false

abbrev pub window_of : WorkflowSpec → Step → String
window_of spec step = elim step.window_id [ none ↦ spec.window_id | some w ↦ w ]

-- `pick` of security.rs
unfoldable pub pick : List String → Value → Fields
pick [] v = end
pick (k ∷ ks) v = elim (Json.get v k) [ none ↦ pick ks v | some w ↦ put_field k w (pick ks v) ]

abbrev pub dispatch_keys : List String
dispatch_keys =
    "requestId" ∷ "appId" ∷ "appInstanceId" ∷ "windowInstanceId" ∷ "runtimeId" ∷ "runtimeVersion"
    ∷ "semanticVersion" ∷ "bundleHash" ∷ "windowId" ∷ "pageEpoch" ∷ "attempt" ∷ "dispatched" ∷ []

unfoldable pub dispatch_metadata : Value → Fields
dispatch_metadata v = pick dispatch_keys v

abbrev pub Flow {ℓ} : Type ℓ → Type ℓ
Flow A = Result Machine A

abbrev pub stage_error : String → String → String → ExecutionOutcome
stage_error code stage message = not_dispatched (new_error code stage (codes message))

-- cleanup, then a pause before anything was dispatched
unfoldable pub pause_clean : StepWorld → WorkflowError → Machine → Machine
pause_clean w e m =
    stop "paused" (some e.code) (some (not_dispatched e)) w.stop_ack (cleanup w.observation_id m)

unfoldable pub begin_step : StepWorld → Machine → Flow Machine
begin_step w m =
    if w.cancelled
    then err (stop "cancelled" (some "cancelled_before_dispatch") none w.stop_ack m)
    else if w.expired
    then err (stop "failed" (some "condition_timeout") none w.stop_ack m)
    else ok m

-- a step that does not resolve pauses the run
abbrev pub or_pause {ℓ} : {A : Type ℓ} → StepWorld → Result WorkflowError A → Machine → Flow A
or_pause w (ok a) m = ok a
or_pause w (err e) m = err (stop "paused" (some e.code) (some (not_dispatched e)) w.stop_ack m)

unfoldable pub resolve_now : Serde → StepWorld → WorkflowSpec → Step → Machine → Flow Step
resolve_now serde w spec step m = or_pause w (resolve_step serde spec.inputs m.run.outcomes step) m

abbrev pub new_context : String → String → Value
new_context app window = obj (field "appInstanceId" (str app) (field "windowId" (str window) end))

abbrev pub context_of : String → Machine → Value
context_of window m = elim (Map.get window m.run.contexts) [
  | none ↦ new_context m.run.app_instance_id window
  | some c ↦ c
]

-- a page whose epoch is known has changed
unfoldable pub is_changed : Value → Value → Bool
is_changed context prepared = elim (Json.get context "pageEpoch") [
  | none ↦ false
  | some epoch ↦ not (value_eq epoch (at (at prepared "context") "pageEpoch"))
]

-- the answer to `prepare`: the new context of the window
unfoldable pub accept_prepared : StepWorld → Value → Answer → Machine → Flow Value
accept_prepared w context (err e) m = err (pause_clean w e m)
accept_prepared w context (ok v) m =
    if not (is_ready v)
    then err (pause_clean w (page_error v "observation_failed") m)
    else if is_changed context v
    then err
        (pause_clean w (new_error "target_changed" "preparing" (codes "Page identity changed")) m)
    else ok (at v "context")

-- the context and the identity of the attempt are recorded
unfoldable pub record_prepared :
    StepWorld → WorkflowSpec → Step → String → Value → Machine → Flow Machine
record_prepared w spec step window page m =
    let context = edit (put_field "pollIntervalMs" (num spec.defaults.poll_interval_ms)) page in
    let noted = record m {
      run = record m.run {
        contexts = Map.insert window context m.run.contexts;
        report = record m.run.report {
          blocked_step = some step.id;
          dispatch_context = obj (
              put_field "attempt" (num 1) (
                put_field "windowId" (str window)
                  (put_field "requestId" (str w.request_id) (dispatch_metadata context))));
        };
      };
    } in
    let kept = checkpoint "step_prepared" w.prepared_ack noted in
    if w.prepared_ack.durable
    then ok kept
    else err (
        pause_clean w
          (new_error "persistence_unavailable" "preparing"
            (codes "Cannot persist step preparation"))
          kept)

-- between the preparation and the intent
unfoldable pub check_boundary : StepWorld → Machine → Flow Machine
check_boundary w m =
    let s = pre_dispatch_stop w.cancelled_prepared in
    if w.cancelled_prepared || w.expired_prepared
    then err (stop s.0 (some s.1) none w.stop_ack (cleanup w.observation_id m))
    else ok m

-- the intent to write is made durable first
unfoldable pub record_intent : StepWorld → Bool → Machine → Flow Machine
record_intent w writing m =
    let kept =
      checkpoint "step_dispatch_intent" w.intent_ack
        (set_report (λ r. record r { may_have_effects = true }) m) in
    if not writing
    then ok m
    else if w.intent_ack.durable
    then ok kept
    else err (
        pause_clean w
          (new_error "persistence_unavailable" "dispatching"
            (codes "Dispatch intent is not durable"))
          kept)

unfoldable pub check_dispatch : StepWorld → Machine → Flow Machine
check_dispatch w m =
    let s = pre_dispatch_stop w.cancelled_intent in
    if w.cancelled_intent || w.expired_intent
    then err (
        stop s.0 (some s.1)
          (some
            (stage_error s.1 "dispatching" "Dispatch stopped at deadline or cancellation boundary"))
          w.stop_ack (cleanup w.observation_id m))
    else ok m
