-- ===== src/Service/Endings.antt =====
-- How the execution of a step and what follows it leave the run.
use tauri_connector.Json.{Value}
use tauri_connector.Outcome.Facts.{ExecutionOutcome, is_success, is_completed, is_error_free}
use tauri_connector.Workflow.Spec.{Step, WorkflowSpec}
use tauri_connector.Service.State.{Report, Machine, Ack, checkpoint, set_report, stop}
use tauri_connector.Service.Calls.{Answer, ask, cleanup, wait_condition, timed_out}
use tauri_connector.Service.Steps.{
  StepWorld, is_writing, execute, retain, describe, isolate, has_effect, record_result, judge,
  verify, has_expectation, attach, gather, needs_quarantine, fail_step, pass_step, advance, leave,
  context_of, finish_step, carry_out,
}
use tauri_connector.Service.Acts.{
  is_isolated, may_have_run, is_intended, AreSafe, Follows, Follows-refl, Follows-trans,
  checkpoint-Follows, stop-Follows,
}
use tauri_connector.Service.Observations.{cleanup-Follows, ask-Follows, wait-Follows}
use tauri_connector.Service.Reported.{
  IsReported, execute-IsReported, describe-IsReported, verify-Isolates,
}
use tauri_connector.Service.Settled.{
  in_doubt, Mid-hold, Ready, Mid, Settled, Ready-Follows, Mid-Follows, Ready-Mid, Mid-same,
  execute-Mid,
}
use tauri_connector.Prelude.{
  All-append, length-append, [], ◌∷◌, ℕ, String, ◌≡◌, refl, Bool, true, false, ◌&&◌, Option, none,
  some, ◌==◌, ok, err, arith, if◌then◌else◌, Bool-cases, inl, inr, Fares, Fares-if, Fares-bind,
  if_holds, if_cases,
}

pub stop-Settled :
    (status : String) (reason : Option String) (o : ExecutionOutcome) (ack : Ack) (m : Machine)
    → Mid (some o) true m
    → Settled (stop status reason (some o) ack m)
unfolding stop checkpoint
stop-Settled status reason o ack m h =
    Mid-Follows (some o) true m (stop status reason (some o) ack m)
      (stop-Follows status reason (some o) ack m) h

set_report-Follows :
    (f : Report → Report) (m : Machine)
    → (f m.run.report).steps ≡ m.run.report.steps
    → Follows m (set_report f m)
set_report-Follows f m same = record {
  index = refl;
  steps = same;
  safe = λ h. h;
  ran = λ i. refl;
  kept = λ h. h;
}

isolate-Follows : (m : Machine) → Follows m (isolate m)
unfolding isolate AreSafe may_have_run is_isolated
isolate-Follows m = record {
  index = refl;
  steps = refl;
  safe = λ h. h;
  ran = λ i. refl;
  kept = λ h. refl;
}

isolate_if-Follows : (b : Bool) (m : Machine) → Follows m (if b then isolate m else m)
isolate_if-Follows true m = isolate-Follows m
isolate_if-Follows false m = Follows-refl m

isolate_if-held :
    (b : Bool) (m : Machine) → b ≡ true → is_isolated (if b then isolate m else m).acts ≡ true
unfolding isolate is_isolated
isolate_if-held true m h = refl
isolate_if-held false m h = absurd (cc)

-- the resources are put in quarantine where the outcome leaves them in doubt
hold-Mid :
    (o : ExecutionOutcome) (b : Bool) (m : Machine)
    → (in_doubt (some o) ≡ true → b ≡ true)
    → Mid (some o) false m
    → Mid (some o) true (if b then isolate m else m)
hold-Mid o b m doubt h =
    Mid-hold (some o) _ (λ d. isolate_if-held b m (doubt d))
      (Mid-Follows (some o) false m _ (isolate_if-Follows b m) h)

record_result-Fares :
    (w : StepWorld) (writing : Bool) (o : ExecutionOutcome) (m : Machine)
    → IsReported writing o
    → Mid (some o) false m
    → Fares Settled (Mid (some o) false) (record_result w writing o m)
unfolding record_result
record_result-Fares w writing o m reported h =
    let noted = set_report (λ r. record r { blocked_outcome = some o }) m in
    let kept = checkpoint "step_execution_result" w.result_ack noted in
    let cleaned = cleanup w.observation_id kept in
    let follows : Follows m kept =
      Follows-trans m noted kept
        (set_report-Follows (λ r. record r { blocked_outcome = some o }) m refl)
        (checkpoint-Follows _ w.result_ack noted) in
    let h1 = Mid-Follows (some o) false m kept follows h in
    let h2 = Mid-Follows (some o) false kept cleaned (cleanup-Follows w.observation_id kept) h1 in
    let h3 =
      hold-Mid o (has_effect o && writing) cleaned
        (λ d. let writes = reported.writes (ground arith) in ground arith) h2 in
    Fares-if Settled (Mid (some o) false) w.result_ack.durable kept _ h1
      (stop-Settled "paused" (some "persistence_unavailable") o w.stop_ack _ h3)

judge-same :
    (answer : Answer) (o : ExecutionOutcome) → in_doubt (some (judge answer o)) ≡ in_doubt (some o)
unfolding judge
judge-same (ok v) o = refl
judge-same (err e) o = refl

-- an outcome and the machine that it was found on
abbrev MidPair : Bool → ExecutionOutcome × Machine → Type 0
MidPair held s = Mid (some s.0) held s.1

verify-Mid :
    (w : StepWorld) (step : Step) (o : ExecutionOutcome) (m : Machine)
    → Mid (some o) false m
    → MidPair false (verify w step o m)
unfolding verify
verify-Mid w step o m h =
    let seen = wait_condition w.observation_id w.verification m in
    let h1 =
      Mid-Follows (some o) false m seen.1 (wait-Follows w.observation_id w.verification m) h in
    if_holds (MidPair false) (is_completed o.execution && is_error_free o && has_expectation step)
      (judge seen.0 o, seen.1) (o, m) (Mid-same _ _ false seen.1 (judge-same seen.0 o) h1) h

attach-Mid :
    (evidence : String) (v : Option Value) (o : ExecutionOutcome) (m : Machine)
    → Mid (some o) true m
    → MidPair true (attach evidence v o m)
unfolding attach
attach-Mid evidence none o m h = h
attach-Mid evidence (some v) o m h = record { passed = h.passed; safe = h.safe; ran = h.ran }

gather-Mid :
    (w : StepWorld) (spec : WorkflowSpec) (o : ExecutionOutcome) (m : Machine)
    → Mid (some o) true m
    → MidPair true (gather w spec o m)
unfolding gather
gather-Mid w spec o m h =
    let asked_page = ask "evidence" w.observation_id timed_out m in
    let h1 =
      Mid-Follows (some o) true m asked_page (ask-Follows "evidence" w.observation_id timed_out m)
        h in
    if_holds (MidPair true) (spec.defaults.failure_evidence_grace_ms == 0) (o, m) _ h
      (attach-Mid w.evidence_id w.evidence o asked_page h1)

fail_step-Settled :
    (w : StepWorld) (spec : WorkflowSpec) (writing : Bool) (o : ExecutionOutcome) (m : Machine)
    → (has_effect o ≡ true → needs_quarantine writing o ≡ true)
    → Mid (some o) false m
    → Settled (fail_step w spec writing o m)
unfolding fail_step
fail_step-Settled w spec writing o m isolates h =
    let held = if needs_quarantine writing o then isolate m else m in
    let seen = gather w spec o held in
    let hm = hold-Mid o (needs_quarantine writing o) m (λ d. isolates (ground arith)) h in
    stop-Settled _ _ seen.0 w.stop_ack (cleanup w.observation_id seen.1) (
      Mid-Follows _ true seen.1 _ (cleanup-Follows w.observation_id seen.1)
        (gather-Mid w spec o held hm))

-- what succeeds where a check was asked for also does where none was
success_without_check :
    (b : Bool) (o : ExecutionOutcome) → is_success b o ≡ true → is_success false o ≡ true
unfolding is_success
success_without_check b o h = ground arith

advance-Ready :
    (step : Step) (o : ExecutionOutcome) (m : Machine)
    → is_success false o ≡ true
    → Mid (some o) false m
    → Ready (advance step o m)
unfolding advance
advance-Ready step o m good h = record {
  passed = (
    All-append (λ e. is_success false e.1 ≡ true) m.run.report.steps ((step.id, o) ∷ []) h.passed.0
        (good, tt),
    let counted = h.passed.1 in omega (arith, length-append m.run.report.steps ((step.id, o) ∷ [])),
  );
  safe = h.safe;
  ran = λ i r. elim (h.ran i r) [
    | inl before ↦ omega arith
    | inr now ↦ let (same, _, _) = now in omega arith
  ];
}

pub leave-Ready : (status : String) (m : Machine) → Ready m → Ready (leave status m)
unfolding leave
leave-Ready status m h = record { passed = h.passed; safe = h.safe; ran = h.ran }

pub leave-Settled : (status : String) (m : Machine) → Ready m → Settled (leave status m)
leave-Settled status m h = Ready-Mid _ true (leave status m) (leave-Ready status m h)

pass_step-Fares :
    (w : StepWorld) (step : Step) (o : ExecutionOutcome) (m : Machine)
    → is_success (has_expectation step) o ≡ true
    → Mid (some o) false m
    → Fares Settled Ready (pass_step w step o m)
unfolding pass_step
pass_step-Fares w step o m good h =
    let cleaned = cleanup w.observation_id m in
    let over = advance step o cleaned in
    let kept = checkpoint "step_verification_result" w.verified_ack over in
    let h1 = Mid-Follows (some o) false m cleaned (cleanup-Follows w.observation_id m) h in
    let h2 =
      Ready-Follows over kept (checkpoint-Follows _ w.verified_ack over)
        (advance-Ready step o cleaned (success_without_check (has_expectation step) o good) h1) in
    Fares-if Settled Ready w.verified_ack.durable kept _ h2 (leave-Settled "paused" kept h2)

finish_step-Fares :
    (w : StepWorld) (spec : WorkflowSpec) (step : Step) (o : ExecutionOutcome) (m : Machine)
    → IsReported (is_writing step.op) o
    → Mid (some o) false m
    → Fares Settled Ready (finish_step w spec step o m)
unfolding finish_step
finish_step-Fares w spec step o m reported h =
    let seen = verify w step o m in
    let h1 = verify-Mid w step o m h in
    if_cases (Fares Settled Ready) (is_success (has_expectation step) seen.0)
      (pass_step w step seen.0 seen.1) _ (λ good. pass_step-Fares w step seen.0 seen.1 good h1)
      (λ failure.
        fail_step-Settled w spec (is_writing step.op) seen.0 seen.1
          (verify-Isolates w step (is_writing step.op) o m reported failure) h1)

describe-same :
    (w : StepWorld) (window : String) (writing : Bool) (context : Value) (o : ExecutionOutcome)
    → in_doubt (some (describe w window writing context (retain w.retained o))) ≡ in_doubt (some o)
unfolding describe retain
describe-same w window writing context o = elim (Bool-cases w.retained) [
  | inl kept ↦ rw kept refl
  | inr lost ↦ rw lost refl
]

-- from the execution on
pub carry_out-Fares :
    (w : StepWorld) (spec : WorkflowSpec) (step : Step) (window : String) (m : Machine)
    → Ready m
    → ((i : ℕ) → is_writing step.op ≡ true → is_intended i m.acts ≡ true)
    → Fares Settled Ready (carry_out w spec step window m)
unfolding carry_out
carry_out-Fares w spec step window m h armed =
    let done = execute w step m in
    let o =
      describe w window (is_writing step.op) (context_of window m) (retain w.retained done.0) in
    let reported =
      describe-IsReported w window (is_writing step.op) (context_of window m) done.0
        (execute-IsReported w step m) in
    let h1 =
      Mid-same (some done.0) (some o) false done.1 (describe-same w window _ _ done.0)
        (execute-Mid w step m h armed) in
    Fares-bind Settled (Mid (some o) false) Ready _ (finish_step w spec step o)
      (record_result-Fares w (is_writing step.op) o done.1 reported h1)
      (λ n hn. finish_step-Fares w spec step o n reported hn)
