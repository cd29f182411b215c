-- ===== src/Service/Rounds.antt =====
-- A round of the loop of `drive` is safe, whichever of its phases ends it.
use tauri_connector.Json.{Value}
use tauri_connector.Workflow.Spec.{Step, WorkflowSpec, Serde}
use tauri_connector.Service.State.{Machine}
use tauri_connector.Service.Calls.{bounded_call, ask}
use tauri_connector.Service.Steps.{
  StepWorld, Flow, is_writing, begin_step, resolve_now, window_of, context_of, accept_prepared,
  record_prepared, check_boundary, record_intent, check_dispatch, carry_out, dispatch_step,
  boundary_step, prepare_step, drive_step,
}
use tauri_connector.Service.Acts.{Follows}
use tauri_connector.Service.Observations.{ask-Follows}
use tauri_connector.Service.Phases.{
  IsArmed, begin_step-Continues, resolve_now-GoesOn, accept_prepared-GoesOn,
  record_prepared-Continues, check_boundary-Continues, record_intent-IsArmed, check_dispatch-same,
}
use tauri_connector.Service.Settled.{Ready, Settled, Ready-Follows, Ready-Mid}
use tauri_connector.Service.Endings.{carry_out-Fares}
use tauri_connector.Prelude.{true, String, ◌≡◌, false, ok, err, Fares, Fares-bind, ◌>>=◌}

-- where what stops goes on from a run between its steps, it has settled
Fares-Settled {ℓ} :
    {A : Type ℓ} (Q : A → Type 0) (m : Machine) (flow : Flow A)
    → Ready m
    → Fares (Follows m) Q flow
    → Fares Settled Q flow
Fares-Settled Q m (ok a) h f = f
Fares-Settled Q m (err n) h f = Ready-Mid _ true n (Ready-Follows m n f h)

Continues-Ready :
    (m : Machine) (flow : Flow Machine)
    → Ready m
    → Fares (Follows m) (Follows m) flow
    → Fares Settled Ready flow
Continues-Ready m (ok n) h f = Ready-Follows m n f h
Continues-Ready m (err n) h f = Ready-Mid _ true n (Ready-Follows m n f h)

-- from the intent on
dispatch_step-Fares :
    (w : StepWorld) (spec : WorkflowSpec) (step : Step) (window : String) (m : Machine)
    → Ready m
    → Fares Settled Ready (dispatch_step w spec step window m)
unfolding dispatch_step
dispatch_step-Fares w spec step window m h =
    let intent = record_intent w (is_writing step.op) m in
    Fares-bind Settled (IsArmed (is_writing step.op) m) Ready intent
      (λ n. check_dispatch w n >>= carry_out w spec step window)
      (Fares-Settled (IsArmed (is_writing step.op) m) m intent h
        (record_intent-IsArmed w (is_writing step.op) m))
      (λ n armed.
        let hn = Ready-Follows m n armed.0 h in
        Fares-bind Settled (λ k. k ≡ n) Ready (check_dispatch w n) (carry_out w spec step window)
          (Fares-Settled (λ k. k ≡ n) n (check_dispatch w n) hn (check_dispatch-same w n))
          (λ k same. rw same (carry_out-Fares w spec step window n hn armed.1)))

boundary_step-Fares :
    (w : StepWorld) (spec : WorkflowSpec) (step : Step) (window : String) (m : Machine)
    (page : Value)
    → Ready m
    → Fares Settled Ready (boundary_step w spec step window m page)
unfolding boundary_step
boundary_step-Fares w spec step window m page h =
    let prepared = record_prepared w spec step window page m in
    Fares-bind Settled Ready Ready prepared
      (λ n. check_boundary w n >>= dispatch_step w spec step window)
      (Continues-Ready m prepared h (record_prepared-Continues w spec step window page m))
      (λ n hn.
        Fares-bind Settled Ready Ready (check_boundary w n) (dispatch_step w spec step window)
          (Continues-Ready n (check_boundary w n) hn (check_boundary-Continues w n))
          (λ k hk. dispatch_step-Fares w spec step window k hk))

prepare_step-Fares :
    (w : StepWorld) (spec : WorkflowSpec) (m : Machine) (step : Step)
    → Ready m
    → Fares Settled Ready (prepare_step w spec m step)
unfolding prepare_step
prepare_step-Fares w spec m step h =
    let window = window_of spec step in
    let after = ask "prepare" w.observation_id w.prepared m in
    let ha = Ready-Follows m after (ask-Follows "prepare" w.observation_id w.prepared m) h in
    let accepted = accept_prepared w (context_of window m) (bounded_call false w.prepared) after in
    Fares-bind Settled (λ _. Unit) Ready accepted (boundary_step w spec step window after)
      (Fares-Settled (λ _. Unit) after accepted ha
        (accept_prepared-GoesOn w (context_of window m) (bounded_call false w.prepared) after))
      (λ page _. boundary_step-Fares w spec step window after page ha)

pub drive_step-Fares :
    (serde : Serde) (spec : WorkflowSpec) (w : StepWorld) (source : Step) (m : Machine)
    → Ready m
    → Fares Settled Ready (drive_step serde spec w source m)
unfolding drive_step
drive_step-Fares serde spec w source m h =
    Fares-bind Settled Ready Ready (begin_step w m)
      (λ n. resolve_now serde w spec source n >>= prepare_step w spec n)
      (Continues-Ready m (begin_step w m) h (begin_step-Continues w m))
      (λ n hn.
        Fares-bind Settled (λ _. Unit) Ready (resolve_now serde w spec source n)
          (prepare_step w spec n)
          (Fares-Settled (λ _. Unit) n (resolve_now serde w spec source n) hn
            (resolve_now-GoesOn serde w spec source n))
          (λ step _. prepare_step-Fares w spec n step hn))
