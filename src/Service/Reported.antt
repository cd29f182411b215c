-- ===== src/Service/Reported.antt =====
-- What the outcome of a step says, from its execution to its verdict.
use tauri_connector.Json.{Value}
use tauri_connector.Json.Reads.{at, is_true, is_false}
use tauri_connector.Outcome.Facts.{
  ExecutionOutcome, WorkflowError, completed, not_dispatched, failed, unknown, confirmed, possible,
  no_effect, is_success, is_completed, is_error_free,
}
use tauri_connector.Workflow.Spec.{StepOp, click, fill, type_text, press, wait, query, tool, Step}
use tauri_connector.Service.State.{Machine}
use tauri_connector.Service.Calls.{Answer, wait_condition, execute_loop}
use tauri_connector.Service.Steps.{
  StepWorld, is_writing, is_wait, effect_if, is_undispatched_code, outcome_of, outcome_of_wait,
  execute, retain, describe, has_effect, is_possible, is_doubtful, needs_quarantine,
  has_expectation, judge, verify,
}
use tauri_connector.Prelude.{
  String, ◌≡◌, refl, Bool, true, false, not, ◌&&◌, ◌||◌, Option, str_eq, ok, err, if◌then◌else◌,
  arith, Bool-cases, inl, inr, if_holds, if_cases,
}

-- An effect is one of a step that writes, and is possible or that of a completed step; a step that
-- completed without an error is not verified yet, and any other that completed is in doubt.
pub record IsReported (writing : Bool) (o : ExecutionOutcome) : Type 0 where
  pub writes : has_effect o ≡ true → writing ≡ true
  pub effect : (is_possible o || is_completed o.execution || not (has_effect o)) ≡ true
  pub verdict :
      (not (is_completed o.execution) || is_doubtful o || is_error_free o && is_success false o)
      ≡ true

done-IsReported :
    (writing : Bool) (v : Value) (scope : Option String)
    → IsReported writing
        (record (completed v (effect_if writing confirmed)) { effect_scope = scope })
unfolding completed is_success
done-IsReported true v scope = record { writes = λ h. refl; effect = refl; verdict = refl }
done-IsReported false v scope = record { writes = λ h. absurd (cc); effect = refl; verdict = refl }

failed-IsReported :
    (writing : Bool) (e : WorkflowError)
    → IsReported writing (failed e (effect_if writing possible))
unfolding failed
failed-IsReported true e = record { writes = λ h. refl; effect = refl; verdict = refl }
failed-IsReported false e = record { writes = λ h. absurd (cc); effect = refl; verdict = refl }

not_dispatched-IsReported :
    (writing : Bool) (e : WorkflowError) → IsReported writing (not_dispatched e)
unfolding not_dispatched
not_dispatched-IsReported writing e = record {
  writes = λ h. absurd (cc);
  effect = refl;
  verdict = refl;
}

unknown-IsReported :
    (writing : Bool) (e : WorkflowError)
    → IsReported writing (record (unknown e) { effect = effect_if writing possible })
unfolding unknown
unknown-IsReported true e = record { writes = λ h. refl; effect = refl; verdict = refl }
unknown-IsReported false e = record { writes = λ h. absurd (cc); effect = refl; verdict = refl }

-- a page that does not say whether it dispatched
unsaid-IsReported :
    (writing : Bool) (e f : WorkflowError)
    → IsReported writing (if writing then unknown e else failed f no_effect)
unfolding unknown failed
unsaid-IsReported true e f = record { writes = λ h. refl; effect = refl; verdict = refl }
unsaid-IsReported false e f = record { writes = λ h. absurd (cc); effect = refl; verdict = refl }

outcome_of-IsReported :
    (writing : Bool) (answer : Answer) → IsReported writing (outcome_of writing answer)
unfolding outcome_of
outcome_of-IsReported writing (ok v) =
    let dispatched = at v "dispatched" in
    if_holds (IsReported writing)
      (is_true (at v "ok") && (if writing then is_true dispatched else is_false dispatched)) _ _
      (done-IsReported writing (at v "data") _)
      (if_holds (IsReported writing) (is_true dispatched) _ _ (failed-IsReported writing _) (
        if_holds (IsReported writing) (is_false dispatched) _ _
          (not_dispatched-IsReported writing _) (unsaid-IsReported writing _ _)))
outcome_of-IsReported writing (err e) =
    if_holds (IsReported writing) (str_eq e.code "outcome_unknown") _ _
      (unknown-IsReported writing e)
      (if_holds (IsReported writing) (is_undispatched_code e.code) _ _
        (not_dispatched-IsReported writing e) (failed-IsReported writing e))

outcome_of_wait-IsReported : (answer : Answer) → IsReported false (outcome_of_wait answer)
unfolding completed failed is_success
outcome_of_wait-IsReported (ok v) = record {
  writes = λ h. absurd (cc);
  effect = refl;
  verdict = refl;
}
outcome_of_wait-IsReported (err e) = record {
  writes = λ h. absurd (cc);
  effect = refl;
  verdict = refl;
}

wait-reads : (op : StepOp) → is_wait op ≡ true → is_writing op ≡ false
wait-reads (wait c) h = refl
wait-reads (click l) h = absurd (cc)
wait-reads (fill l v) h = absurd (cc)
wait-reads (type_text l v) h = absurd (cc)
wait-reads (press l v) h = absurd (cc)
wait-reads (query l k) h = absurd (cc)
wait-reads (tool n a b) h = absurd (cc)

pub execute-IsReported :
    (w : StepWorld) (step : Step) (m : Machine)
    → IsReported (is_writing step.op) (execute w step m).0
unfolding execute
execute-IsReported w step m =
    let waited = wait_condition w.observation_id w.rounds m in
    let done = execute_loop m.run.index w.request_id (is_writing step.op) w.tries w.last_try m in
    if_cases (λ (s : ExecutionOutcome × Machine). IsReported (is_writing step.op) s.0)
      (is_wait step.op) (outcome_of_wait waited.0, waited.1)
      (outcome_of (is_writing step.op) done.0, done.1)
      (λ waits. rw (wait-reads step.op waits) (outcome_of_wait-IsReported waited.0))
      (λ acts. outcome_of-IsReported (is_writing step.op) done.0)

pub describe-IsReported :
    (w : StepWorld) (window : String) (writing : Bool) (context : Value) (o : ExecutionOutcome)
    → IsReported writing o
    → IsReported writing (describe w window writing context (retain w.retained o))
unfolding describe retain is_success
describe-IsReported w window writing context o h = elim (Bool-cases w.retained) [
  | inl kept ↦ rw kept (record { writes = h.writes; effect = h.effect; verdict = h.verdict })
  | inr lost ↦ rw lost (record { writes = h.writes; effect = h.effect; verdict = ground arith })
]

-- A step that did not succeed and may have changed something needs a quarantine.
abbrev Isolates : Bool → Bool → ExecutionOutcome → Type 0
Isolates writing expected v =
    is_success expected v ≡ false → has_effect v ≡ true → needs_quarantine writing v ≡ true

judge-Isolates :
    (writing expected : Bool) (answer : Answer) (o : ExecutionOutcome)
    → IsReported writing o
    → is_completed o.execution ≡ true
    → is_error_free o ≡ true
    → Isolates writing expected (judge answer o)
unfolding judge is_success
judge-Isolates writing true (ok v) o h done clean failure effect =
    absurd (let no = rw (done, clean) at failure in cc)
judge-Isolates writing false (ok v) o h done clean failure effect =
    absurd (let no = rw (done, clean) at failure in cc)
judge-Isolates writing expected (err e) o h done clean failure effect =
    let writes = h.writes effect in
    elim (Bool-cases (str_eq e.code "cancel_requested")) [
      | inl cancelled ↦ rw (writes, done, cancelled) (ground arith)
      | inr other ↦ rw (writes, done, other) (ground arith)
    ]

unjudged-Isolates :
    (writing expected : Bool) (o : ExecutionOutcome)
    → IsReported writing o
    → (is_completed o.execution && is_error_free o && expected) ≡ false
    → Isolates writing expected o
unfolding is_success
unjudged-Isolates writing true o h unjudged failure effect =
    let writes = h.writes effect in let maybe = h.effect in let verdict = h.verdict in ground arith
unjudged-Isolates writing false o h unjudged failure effect =
    let writes = h.writes effect in let maybe = h.effect in let verdict = h.verdict in ground arith

pub verify-Isolates :
    (w : StepWorld) (step : Step) (writing : Bool) (o : ExecutionOutcome) (m : Machine)
    → IsReported writing o
    → Isolates writing (has_expectation step) (verify w step o m).0
unfolding verify
verify-Isolates w step writing o m h =
    let seen = wait_condition w.observation_id w.verification m in
    if_cases (λ (s : ExecutionOutcome × Machine). Isolates writing (has_expectation step) s.0)
      (is_completed o.execution && is_error_free o && has_expectation step) (judge seen.0 o, seen.1)
      (o, m)
      (λ judged.
        judge-Isolates writing (has_expectation step) seen.0 o h (ground arith) (ground arith))
      (λ unjudged. unjudged-Isolates writing (has_expectation step) o h unjudged)
