-- ===== src/Service/Requests.antt =====
-- What callers ask of a run after its first segment repeats nothing that may have run.
use tauri_connector.Outcome.Facts.{ExecutionOutcome, WorkflowError}
use tauri_connector.Workflow.Spec.{Condition, WorkflowSpec, Serde}
use tauri_connector.Workflow.Exprs.{resolve_condition}
use tauri_connector.Service.State.{Machine, Ack, checkpoint, set_report}
use tauri_connector.Service.Calls.{Reply, Round, observe_condition}
use tauri_connector.Service.Drive.{DriveWorld, new_run, record_run, start_run}
use tauri_connector.Service.Resume.{
  is_undispatched, ResumeArgs, may_continue, with_spec, enqueue, release, continue_run,
  is_passed_answer, conclude, conclude_if, blocked_expectation, reconcile, reconcile_run,
  cancel_run, mark_cancel, is_stale, Request, continue_with, reconcile_with, cancel_with, serve,
  serve_all,
}
use tauri_connector.Service.Acts.{may_have_run, AreSafe, checkpoint-Follows}
use tauri_connector.Service.Observations.{Observes, observe-Observes}
use tauri_connector.Service.Settled.{
  in_doubt, Ready, Settled, Ready-Follows, Mid-Follows, Ready-Mid, Mid-Ready,
}
use tauri_connector.Service.Endings.{leave-Ready}
use tauri_connector.Service.Steps.{leave}
use tauri_connector.Service.Safety.{drive-Settled}
use tauri_connector.Prelude.{
  String, ◌≡◌, refl, sym, ◌∙◌, Bool, true, false, not, ◌||◌, Option, none, some, List, [], ◌∷◌,
  Result, ok, err, arith, if◌then◌else◌, inl, inr, if_holds, if_cases,
}

with_spec-holds :
    (o : Option WorkflowSpec) (f : WorkflowSpec → Machine) (m : Machine)
    → ((spec : WorkflowSpec) → Settled (f spec))
    → Settled m
    → Settled (with_spec o f m)
with_spec-holds none f m each h = h
with_spec-holds (some spec) f m each h = each spec

-- a run that may go on was stopped before it dispatched anything
may_continue-undispatched :
    (args : ResumeArgs) (expired : Bool) (m : Machine)
    → not (may_continue args expired m) ≡ false
    → is_undispatched m.run.report.blocked_outcome ≡ true
unfolding may_continue
may_continue-undispatched args expired m h = ground arith

is_undispatched-not : (o : Option ExecutionOutcome) → is_undispatched o ≡ true → in_doubt o ≡ false
is_undispatched-not none h = refl
is_undispatched-not (some o) h = ground arith

continue_run-Settled :
    (serde : Serde) (args : ResumeArgs) (expired : Bool) (ack : Ack) (w : DriveWorld) (m : Machine)
    → Settled m
    → Settled (continue_run serde args expired ack w m)
unfolding continue_run
continue_run-Settled serde args expired ack w m h =
    let kept = checkpoint "continue_requested" ack (enqueue m) in
    let goes = λ (may : not (may_continue args expired m) ≡ false).
      let nothing =
        is_undispatched-not m.run.report.blocked_outcome
          (may_continue-undispatched args expired m may) in
      let ready = Mid-Ready m.run.report.blocked_outcome true m nothing h in
      Ready-Follows (enqueue m) kept (checkpoint-Follows _ ack (enqueue m))
        (record { passed = ready.passed; safe = ready.safe; ran = ready.ran }) in
    with_spec-holds m.run.spec _ m
      (λ spec.
        if_cases Settled (not (may_continue args expired m)) m _ (λ _. h)
          (λ may. if_holds Settled ack.durable _ _ (drive-Settled serde w spec kept (goes may)) (
            Ready-Mid _ true (release kept)
              (let r = goes may in record { passed = r.passed; safe = r.safe; ran = r.ran }))))
      h

checkpoint-Settled :
    (event : String) (ack : Ack) (m : Machine) → Settled m → Settled (checkpoint event ack m)
unfolding checkpoint
checkpoint-Settled event ack m h =
    Mid-Follows m.run.report.blocked_outcome true m (checkpoint event ack m)
      (checkpoint-Follows event ack m) h

Settled-Observes : (m n : Machine) → Observes m n → Settled m → Settled n
Settled-Observes m n o h = record {
  passed = rw o.same h.passed;
  safe = o.safe h.safe;
  ran = λ i r. elim (h.ran i (sym (o.ran i) ∙ r)) [
    | inl before ↦ rw o.same (inl before)
    | inr now ↦ let (here, doubt, iso) = now in rw o.same (inr (here, doubt, λ e. o.kept (iso e)))
  ];
}

conclude-Settled :
    (c : Result WorkflowError Condition) (observation : String) (prepared : Reply)
    (rounds : List Round) (ack : Ack) (m : Machine)
    → Settled m
    → Settled (conclude c observation prepared rounds ack m)
conclude-Settled (err e) observation prepared rounds ack m h = h
conclude-Settled (ok c) observation prepared rounds ack m h =
    let seen = observe_condition observation prepared rounds m in
    let o = observe-Observes observation prepared rounds m in
    let found =
      set_report (λ r. record r { late_outcome = some (is_passed_answer seen.0) }) seen.1 in
    checkpoint-Settled "reconciliation_result" ack found (
      let h1 = Settled-Observes m seen.1 o h in
      record { passed = h1.passed; safe = h1.safe; ran = h1.ran })

conclude_if-Settled :
    (serde : Serde) (spec : WorkflowSpec) (c : Option Condition) (observation : String)
    (prepared : Reply) (rounds : List Round) (ack : Ack) (m : Machine)
    → Settled m
    → Settled (conclude_if serde spec c observation prepared rounds ack m)
conclude_if-Settled serde spec none observation prepared rounds ack m h = h
conclude_if-Settled serde spec (some c) observation prepared rounds ack m h =
    conclude-Settled (resolve_condition serde spec.inputs m.run.outcomes c) observation prepared
      rounds ack m h

reconcile_run-Settled :
    (serde : Serde) (args : ResumeArgs) (ack : Ack) (observation : String) (prepared : Reply)
    (rounds : List Round) (result_ack : Ack) (m : Machine)
    → Settled m
    → Settled (reconcile_run serde args ack observation prepared rounds result_ack m)
unfolding reconcile_run reconcile
reconcile_run-Settled serde args ack observation prepared rounds result_ack m h =
    let noted = set_report (λ r. record r { recovery_occurred = true }) m in
    let kept = checkpoint "reconciliation_requested" ack noted in
    let hk =
      checkpoint-Settled "reconciliation_requested" ack noted
        (record { passed = h.passed; safe = h.safe; ran = h.ran }) in
    with_spec-holds m.run.spec _ m
      (λ spec. if_holds Settled (is_stale args m || m.run.executing) m _ h (
        if_holds Settled ack.durable _ kept
          (conclude_if-Settled serde spec (blocked_expectation spec kept) observation prepared
            rounds result_ack kept hk)
          hk))
      h

cancel_run-Settled : (ack : Ack) (m : Machine) → Settled m → Settled (cancel_run ack m)
unfolding cancel_run
cancel_run-Settled ack m h =
    with_spec-holds m.run.spec
      (λ _. if m.run.cancel then m else checkpoint "cancel_requested" ack (mark_cancel m)) m
      (λ spec.
        if_holds Settled m.run.cancel m (checkpoint "cancel_requested" ack (mark_cancel m)) h (
          checkpoint-Settled "cancel_requested" ack (mark_cancel m)
            (record { passed = h.passed; safe = h.safe; ran = h.ran })))
      h

record_run-Ready :
    (app : String) (ack : Ack) (spec : WorkflowSpec) → Ready (record_run app ack spec)
unfolding record_run new_run AreSafe may_have_run
record_run-Ready app ack spec =
    let fresh = new_run app spec in
    let kept = checkpoint "run_created" ack fresh in
    let hk =
      Ready-Follows fresh kept (checkpoint-Follows "run_created" ack fresh)
        (record { passed = (tt, refl); safe = tt; ran = λ i r. absurd (cc) }) in
    if_holds Ready ack.durable kept (leave "failed" kept) hk (leave-Ready "failed" kept hk)

pub start_run-Settled :
    (serde : Serde) (app : String) (ack : Ack) (w : DriveWorld) (spec : WorkflowSpec)
    → Settled (start_run serde app ack w spec)
unfolding start_run
start_run-Settled serde app ack w spec =
    let hk = record_run-Ready app ack spec in
    if_holds Settled ack.durable _ (record_run app ack spec)
      (drive-Settled serde w spec (record_run app ack spec) hk) (Ready-Mid _ true _ hk)

serve-Settled : (serde : Serde) (r : Request) (m : Machine) → Settled m → Settled (serve serde r m)
unfolding serve
serve-Settled serde (continue_with args expired ack w) m h =
    continue_run-Settled serde args expired ack w m h
serve-Settled serde (reconcile_with args ack observation prepared rounds result_ack) m h =
    reconcile_run-Settled serde args ack observation prepared rounds result_ack m h
serve-Settled serde (cancel_with ack) m h = cancel_run-Settled ack m h

pub serve_all-Settled :
    (serde : Serde) (rs : List Request) (m : Machine) → Settled m → Settled (serve_all serde rs m)
unfolding serve_all
serve_all-Settled serde [] m h = h
serve_all-Settled serde (r ∷ rs) m h =
    serve_all-Settled serde rs (serve serde r m) (serve-Settled serde r m h)
