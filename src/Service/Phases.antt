-- ===== src/Service/Phases.antt =====
-- The phases of a step before its execution dispatch nothing.
use tauri_connector.Json.{Value}
use tauri_connector.Outcome.Facts.{ExecutionOutcome, WorkflowError}
use tauri_connector.Workflow.Spec.{Step, WorkflowSpec, Serde}
use tauri_connector.Workflow.Exprs.{resolve_step}
use tauri_connector.Service.State.{Machine, Ack, checkpoint, stop}
use tauri_connector.Service.Calls.{Answer, cleanup, is_ready}
use tauri_connector.Service.Steps.{
  StepWorld, Flow, pause_clean, begin_step, resolve_now, or_pause, is_changed, accept_prepared,
  record_prepared, check_boundary, record_intent, check_dispatch,
}
use tauri_connector.Service.Acts.{
  is_isolated, is_intended, AreSafe, may_have_run, Follows, Follows-refl, Follows-trans,
  stop-Follows,
}
use tauri_connector.Service.Observations.{cleanup-Follows}
use tauri_connector.Prelude.{
  ℕ, String, ◌≡◌, refl, Bool, true, false, ◌||◌, Option, Result, ok, err, Bool-cases, inl, inr,
  Fares,
}

-- a stop after a cleanup
pub clean_stop-Follows :
    (status : String) (reason : Option String) (outcome : Option ExecutionOutcome) (ack : Ack)
    (observation : String) (m : Machine)
    → Follows m (stop status reason outcome ack (cleanup observation m))
clean_stop-Follows status reason outcome ack observation m =
    Follows-trans m (cleanup observation m) (stop status reason outcome ack (cleanup observation m))
      (cleanup-Follows observation m)
      (stop-Follows status reason outcome ack (cleanup observation m))

pub pause_clean-Follows :
    (w : StepWorld) (e : WorkflowError) (m : Machine) → Follows m (pause_clean w e m)
unfolding pause_clean
pause_clean-Follows w e m = clean_stop-Follows _ _ _ w.stop_ack w.observation_id m

abbrev pub GoesOn {ℓ} : {A : Type ℓ} → Machine → Flow A → Type 0
GoesOn m flow = Fares (Follows m) (λ _. Unit) flow

abbrev pub Continues : Machine → Flow Machine → Type 0
Continues m flow = Fares (Follows m) (Follows m) flow

pub begin_step-Continues : (w : StepWorld) (m : Machine) → Continues m (begin_step w m)
unfolding begin_step
begin_step-Continues w m = elim (Bool-cases w.cancelled) [
  | inl c ↦ rw c (stop-Follows _ _ _ w.stop_ack m)
  | inr c ↦ elim (Bool-cases w.expired) [
    | inl x ↦ rw (c, x) (stop-Follows _ _ _ w.stop_ack m)
    | inr x ↦ rw (c, x) (Follows-refl m)
  ]
]

or_pause-GoesOn :
    (w : StepWorld) (r : Result WorkflowError Step) (m : Machine) → GoesOn m (or_pause w r m)
or_pause-GoesOn w (ok s) m = tt
or_pause-GoesOn w (err e) m = stop-Follows _ _ _ w.stop_ack m

pub resolve_now-GoesOn :
    (serde : Serde) (w : StepWorld) (spec : WorkflowSpec) (step : Step) (m : Machine)
    → GoesOn m (resolve_now serde w spec step m)
unfolding resolve_now
resolve_now-GoesOn serde w spec step m =
    or_pause-GoesOn w (resolve_step serde spec.inputs m.run.outcomes step) m

pub accept_prepared-GoesOn :
    (w : StepWorld) (context : Value) (answer : Answer) (m : Machine)
    → GoesOn m (accept_prepared w context answer m)
unfolding accept_prepared
accept_prepared-GoesOn w context (err e) m = pause_clean-Follows w e m
accept_prepared-GoesOn w context (ok v) m = elim (Bool-cases (is_ready v)) [
  | inr bad ↦ rw bad (pause_clean-Follows w _ m)
  | inl ready ↦ elim (Bool-cases (is_changed context v)) [
    | inl changed ↦ rw (ready, changed) (pause_clean-Follows w _ m)
    | inr same ↦ rw (ready, same) tt
  ]
]

pub record_prepared-Continues :
    (w : StepWorld) (spec : WorkflowSpec) (step : Step) (window : String) (page : Value)
    (m : Machine)
    → Continues m (record_prepared w spec step window page m)
unfolding record_prepared pause_clean stop checkpoint cleanup AreSafe may_have_run is_isolated
record_prepared-Continues w spec step window page m = elim (Bool-cases w.prepared_ack.durable) [
  | inl durable ↦
      rw durable
        (record { index = refl; steps = refl; safe = λ h. h; ran = λ i. refl; kept = λ h. h })
  | inr lost ↦
      rw lost (record { index = refl; steps = refl; safe = λ h. h; ran = λ i. refl; kept = λ h. h })
]

pub check_boundary-Continues : (w : StepWorld) (m : Machine) → Continues m (check_boundary w m)
unfolding check_boundary
check_boundary-Continues w m = elim (Bool-cases (w.cancelled_prepared || w.expired_prepared)) [
  | inl over ↦ rw over (clean_stop-Follows _ _ _ w.stop_ack w.observation_id m)
  | inr on ↦ rw on (Follows-refl m)
]

-- a machine that goes on from `m`, where a writing step has its durable intent
abbrev pub IsArmed : Bool → Machine → Machine → Type 0
IsArmed writing m n = Follows m n × ((i : ℕ) → writing ≡ true → is_intended i n.acts ≡ true)

pub record_intent-IsArmed :
    (w : StepWorld) (writing : Bool) (m : Machine)
    → Fares (Follows m) (IsArmed writing m) (record_intent w writing m)
unfolding record_intent pause_clean stop checkpoint cleanup AreSafe may_have_run is_isolated
    is_intended
record_intent-IsArmed w false m = (Follows-refl m, λ i h. absurd (cc))
record_intent-IsArmed w true m = elim (Bool-cases w.intent_ack.durable) [
  | inl durable ↦ rw durable (
    record { index = refl; steps = refl; safe = λ h. h; ran = λ i. refl; kept = λ h. h },
    λ i h. refl,
  )
  | inr lost ↦
      rw lost (record { index = refl; steps = refl; safe = λ h. h; ran = λ i. refl; kept = λ h. h })
]

pub check_dispatch-same :
    (w : StepWorld) (m : Machine) → Fares (Follows m) (λ n. n ≡ m) (check_dispatch w m)
unfolding check_dispatch
check_dispatch-same w m = elim (Bool-cases (w.cancelled_intent || w.expired_intent)) [
  | inl over ↦ rw over (clean_stop-Follows _ _ _ w.stop_ack w.observation_id m)
  | inr on ↦ rw on refl
]
