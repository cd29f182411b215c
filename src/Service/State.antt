-- ===== src/Service/State.antt =====
-- A run, what is recorded of it, and how it stops.
use tauri_connector.Json
use tauri_connector.Json.{Value, null, num, str, obj, Fields, end}
use tauri_connector.Json.Reads.{at}
use tauri_connector.Map.{Map}
use tauri_connector.Outcome.Facts.{
  ExecutionOutcome, not_dispatched_status, completed_status, failed_status, outcome_unknown,
  WorkflowError, new_error,
}
use tauri_connector.Workflow.Spec.{WorkflowSpec}
use tauri_connector.Prelude.{
  ℕ, ◌+◌, String, Bool, true, false, not, ◌&&◌, ◌||◌, Option, none, some, List, [], ◌∷◌, ◌++◌,
  Result, if◌then◌else◌, ltb, length, str_eq, codes,
}

-- an entry of `events`
pub record Noted : Type 0 where
  pub seq : ℕ
  pub event : String
  pub status : String

-- The fields of `report` that the program reads again or that say what happened; its identity and
-- its fixed texts are left out.
pub record Report : Type 0 where
  pub revision : ℕ
  pub checkpoint_id : String
  pub status : String
  pub reason : Option String
  pub original_test_verdict : String
  pub goal_status : String
  pub recovery_occurred : Bool
  pub may_have_effects : Bool
  pub completed_steps : ℕ
  pub steps : List (String × ExecutionOutcome)
  pub allowed_next_actions : List String
  pub evidence_refs : List String
  pub blocked_step : Option String
  pub blocked_outcome : Option ExecutionOutcome
  pub dispatch_context : Value
  pub quarantined : Bool
  pub truncated : Bool
  pub persistence_warning : Bool
  -- whether a late look at the blocked step passed, where there was one
  pub late_outcome : Option Bool

pub record Run : Type 0 where
  -- of the service
  pub app_instance_id : String
  pub spec : Option WorkflowSpec
  pub report : Report
  pub outcomes : Map ExecutionOutcome
  pub contexts : Map Value
  pub index : ℕ
  pub cancel : Bool
  pub executing : Bool
  pub events : List Noted

-- What the run does outside of itself, the latest first: calls of the page or of a tool, records
-- that are appended to the journal, and the quarantine of its resources.
pub data Act : Type 0 where
  -- prepare, condition, evidence or cleanup, with the id of the observation
  asked : String → String → Act
  -- the execution of a step: its index, the id of the request, whether it writes, and the answer
  executed : ℕ → String → Bool → Result WorkflowError Value → Act
  -- an event of the journal and whether it was made durable
  appended : String → Bool → Act
  isolated : Act

pub record Machine : Type 0 where
  pub run : Run
  pub acts : List Act

-- The answer of the journal: the fresh id of the checkpoint, and whether the append succeeded.
pub record Ack : Type 0 where
  pub id : String
  pub durable : Bool

-- keeps the last 256
abbrev pub drop_first : List Noted → List Noted
drop_first [] = []
drop_first (e ∷ es) = es

unfoldable pub checkpoint : String → Ack → Machine → Machine
checkpoint event ack m =
    let run = m.run in
    let report = run.report in
    let revision = report.revision + 1 in
    let all = run.events ++ record { seq = revision; event = event; status = report.status } ∷ [] in
    let full = ltb 256 (length all) in
    record {
      run = record run {
        report = record report {
          revision = revision;
          checkpoint_id = ack.id;
          truncated = full || report.truncated;
          persistence_warning = not ack.durable || report.persistence_warning;
        };
        events = if full then drop_first all else all;
      };
      acts = appended event ack.durable ∷ m.acts;
    }

abbrev pub set_report : (Report → Report) → Machine → Machine
set_report f m = record m { run = record m.run { report = f m.run.report } }

abbrev pub is_unknown : Option ExecutionOutcome → Bool
is_unknown none = false
is_unknown (some o) = elim o.execution [
  | outcome_unknown ↦ true
  | not_dispatched_status ↦ false
  | completed_status ↦ false
  | failed_status ↦ false
]

-- `execution` of an outcome that is reported, other than `not_dispatched`
abbrev pub is_dispatched : Option ExecutionOutcome → Bool
is_dispatched none = false
is_dispatched (some o) = elim o.execution [
  | not_dispatched_status ↦ false
  | outcome_unknown ↦ true
  | completed_status ↦ true
  | failed_status ↦ true
]

unfoldable pub terminal_actions : String → Bool → List String
terminal_actions status unknown =
    if unknown
    then "get" ∷ "reconcile" ∷ "cancel" ∷ []
    else if str_eq status "paused"
    then "get" ∷ "continue" ∷ "cancel" ∷ []
    else if str_eq status "queued" || str_eq status "running" || str_eq status "cancelling"
    then "get" ∷ "cancel" ∷ []
    else "get" ∷ []

abbrev pub or_else {ℓ} : {A : Type ℓ} → Option A → Option A → Option A
or_else none b = b
or_else (some a) b = some a

unfoldable pub verdict_after : String → Bool → String → String
verdict_after status unknown old =
    if str_eq old "failed" || str_eq old "inconclusive"
    then old
    else if str_eq status "completed"
    then "passed"
    else if unknown || str_eq status "cancelled"
    then "inconclusive"
    else "failed"

-- `stop`; the reason is none where it is empty.
unfoldable pub stop : String → Option String → Option ExecutionOutcome → Ack → Machine → Machine
unfolding checkpoint
stop status reason outcome ack m =
    let report = m.run.report in
    let unknown = is_unknown outcome in
    let blocked = or_else outcome report.blocked_outcome in
    checkpoint
      (if str_eq status "paused"
        then "run_paused"
        else if str_eq status "cancelled"
        then "run_cancelled"
        else if str_eq status "completed"
        then "run_completed"
        else "run_failed")
      ack
      (record m {
        run = record m.run {
          executing = false;
          report = record report {
            status = status;
            reason = or_else reason report.reason;
            blocked_outcome = blocked;
            original_test_verdict = verdict_after status unknown report.original_test_verdict;
            allowed_next_actions =
                if str_eq status "paused" && is_dispatched blocked
                then "get" ∷ "reconcile" ∷ "cancel" ∷ []
                else terminal_actions status unknown;
          };
        };
      })

-- `pre_dispatch_stop`
unfoldable pub pre_dispatch_stop : Bool → String × String
pre_dispatch_stop cancelled =
    if cancelled
    then ("cancelled", "cancelled_before_dispatch")
    else ("failed", "condition_timeout")

unfoldable pub page_error : Value → String → WorkflowError
page_error v fallback =
    let e = at v "error" in
    new_error (elim (Json.as_str (at e "code")) [ none ↦ fallback | some s ↦ s ])
      (elim (Json.as_str (at e "stage")) [ none ↦ "executing" | some s ↦ s ])
      (codes (elim (Json.as_str (at e "message")) [ none ↦ "Page operation failed" | some s ↦ s ]))
