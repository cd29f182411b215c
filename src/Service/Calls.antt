-- ===== src/Service/Calls.antt =====
-- The calls of the page, each with the rest of its deadline, and the two loops over them. What the
-- page, the clock and the canceller do is handed in, one entry for each round.
use tauri_connector.Json.{Value, bool, str, obj, end, field}
use tauri_connector.Json.Reads.{at, is_text, is_true, is_false}
use tauri_connector.Outcome.Facts.{WorkflowError, new_error}
use tauri_connector.Service.State.{Act, asked, executed, Machine, page_error}
use tauri_connector.Prelude.{
  ℕ, String, Bool, false, not, ◌&&◌, ◌||◌, List, [], ◌∷◌, Result, ok, err, if◌then◌else◌, codes,
}

abbrev pub Answer : Type 0
Answer = Result WorkflowError Value

-- A call with no time left is not made; otherwise it is answered or exceeds its deadline.
pub data Reply : Type 0 where
  no_budget : Reply
  timed_out : Reply
  replied : Answer → Reply

unfoldable pub bounded_call : Bool → Reply → Answer
bounded_call writing no_budget =
    err (new_error "condition_timeout" "preparing" (codes "No remaining execution budget"))
bounded_call writing timed_out = err (
    new_error (if writing then "outcome_unknown" else "condition_timeout") "executing"
      (codes "Operation exceeded its remaining deadline"))
bounded_call writing (replied answer) = answer

abbrev pub act : Act → Machine → Machine
act a m = record m { acts = a ∷ m.acts }

unfoldable pub ask : String → String → Reply → Machine → Machine
ask command observation no_budget m = m
ask command observation timed_out m = act (asked command observation) m
ask command observation (replied _) m = act (asked command observation) m

unfoldable pub cleanup : String → Machine → Machine
cleanup observation m = act (asked "cleanup" observation) m

abbrev pub cancel_requested : WorkflowError
cancel_requested = new_error "cancel_requested" "waiting" (codes "Cancellation requested")

abbrev pub condition_timeout : WorkflowError
condition_timeout =
    new_error "condition_timeout" "waiting"
      (codes "Condition did not become true within the remaining deadline")

-- One round of `wait_condition`: the cancellation is seen at its start, or arrives during the call,
-- or the call is answered, with whether the cancellation arrives during the sleep after it.
pub data Round : Type 0 where
  seen_cancelled : Round
  woken : Round
  answered : Reply → Bool → Round

-- what the answer of a round says; `rest` is what the rounds after it come to
unfoldable pub judge_condition : Answer → Bool → Machine → Answer × Machine → Answer × Machine
judge_condition (err e) wakes m rest = (err e, m)
judge_condition (ok v) wakes m rest =
    if not (is_true (at v "ok"))
    then (err (page_error v "observation_failed"), m)
    else if is_true (at v "satisfied")
    then (ok v, m)
    else if wakes
    then (err cancel_requested, m)
    else rest

-- `wait_condition`; the deadline has come after the last round.
unfoldable pub wait_condition : String → List Round → Machine → Answer × Machine
unfolding judge_condition
wait_condition observation [] m = (err condition_timeout, m)
wait_condition observation (seen_cancelled ∷ rounds) m = (err cancel_requested, m)
wait_condition observation (woken ∷ rounds) m =
    (err cancel_requested, act (asked "condition" observation) m)
wait_condition observation (answered reply wakes ∷ rounds) m =
    let after = ask "condition" observation reply m in
    let rest = wait_condition observation rounds after in
    judge_condition (bounded_call false reply) wakes after rest

abbrev pub is_ready : Value → Bool
is_ready v = is_true (at v "ok") && is_true (at v "ready")

-- what `observe_condition` does once its observation is prepared
unfoldable pub observe_prepared : String → Answer → List Round → Machine → Answer × Machine
observe_prepared observation (err e) rounds m = (err e, m)
observe_prepared observation (ok v) rounds m =
    if is_ready v
    then wait_condition observation rounds m
    else (err (page_error v "observation_failed"), m)

unfoldable pub observe_condition : String → Reply → List Round → Machine → Answer × Machine
unfolding observe_prepared
observe_condition observation prepared rounds m =
    let seen =
      observe_prepared observation (bounded_call false prepared) rounds
        (ask "prepare" observation prepared m) in
    (seen.0, cleanup observation seen.1)

-- One round of the loop that executes a step: whether the cancellation is seen at its start, the
-- reply, and whether the time to locate the target is over.
pub record Try : Type 0 where
  pub cancelled : Bool
  pub reply : Reply
  pub late : Bool

unfoldable pub may_requery : Answer → Bool
may_requery (err e) = false
may_requery (ok v) =
    is_false (at v "ok")
    && is_false (at v "dispatched")
    && (is_text (at (at v "error") "code") "target_not_found"
        || is_text (at (at v "error") "code") "not_actionable")

abbrev pub cancelled_before : Value
cancelled_before = obj (
    field "dispatched" (bool false) (
      field "error"
        (obj (
          field "code" (str "cancel_requested") (
            field "message" (str "Cancellation requested before dispatch")
              (field "stage" (str "preparing") end))))
        (field "ok" (bool false) end)))

-- the call of a round, where it is made
unfoldable pub execute_once : ℕ → String → Bool → Reply → Machine → Machine
execute_once index request writing no_budget m = m
execute_once index request writing timed_out m =
    act (executed index request writing (bounded_call writing timed_out)) m
execute_once index request writing (replied answer) m =
    act (executed index request writing answer) m

unfoldable pub execute_last : ℕ → String → Bool → Try → Machine → Answer × Machine
execute_last index request writing t m =
    if t.cancelled
    then (ok cancelled_before, m)
    else (bounded_call writing t.reply, execute_once index request writing t.reply m)

-- `last` is a round in which the time to locate the target is over.
unfoldable pub execute_loop : ℕ → String → Bool → List Try → Try → Machine → Answer × Machine
execute_loop index request writing [] last m = execute_last index request writing last m
execute_loop index request writing (t ∷ tries) last m =
    let one = execute_last index request writing t m in
    let rest = execute_loop index request writing tries last one.1 in
    if not t.cancelled && may_requery one.0 && not t.late then rest else one
