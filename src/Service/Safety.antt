-- ===== src/Service/Safety.antt =====
-- A segment of a run is safe, from its place in the queue to its goal.
use tauri_connector.Outcome.Facts.{ExecutionOutcome, WorkflowError}
use tauri_connector.Workflow.Spec.{Condition, Step, WorkflowSpec, Serde}
use tauri_connector.Workflow.Exprs.{resolve_condition}
use tauri_connector.Service.State.{Machine, Ack, checkpoint, set_report, stop}
use tauri_connector.Service.Calls.{Answer, Reply, Round}
use tauri_connector.Service.Steps.{StepWorld, Flow}
use tauri_connector.Service.Drive.{
  DriveWorld, begin_drive, look_for, look, judge_boundary, recheck, boundary, drive_steps,
  judge_goal, reach_goal, finish_drive, settle, drive,
}
use tauri_connector.Service.Acts.{Follows, Follows-refl, checkpoint-Follows, stop-Follows}
use tauri_connector.Service.Observations.{observe-Follows}
use tauri_connector.Service.Settled.{Ready, Settled, Ready-Follows, Ready-Mid}
use tauri_connector.Service.Endings.{leave-Settled}
use tauri_connector.Service.Rounds.{drive_step-Fares}
use tauri_connector.Prelude.{
  true, drop, ℕ, String, not, Option, none, some, List, [], ◌∷◌, Result, ok, err, Fares, Fares-if,
  Fares-bind, if_holds, ◌>>=◌,
}

stopped-Settled :
    (status : String) (reason : Option String) (outcome : Option ExecutionOutcome) (ack : Ack)
    (m : Machine)
    → Ready m
    → Settled (stop status reason outcome ack m)
stopped-Settled status reason outcome ack m h =
    Ready-Mid _ true _ (Ready-Follows m _ (stop-Follows status reason outcome ack m) h)

begin_drive-Fares : (w : DriveWorld) (m : Machine) → Ready m → Fares Settled Ready (begin_drive w m)
unfolding begin_drive
begin_drive-Fares w m h =
    let running = set_report (λ r. record r { status = "running" }) m in
    let kept = checkpoint "run_started" w.started_ack running in
    let hk =
      Ready-Follows running kept (checkpoint-Follows _ w.started_ack running)
        (record { passed = h.passed; safe = h.safe; ran = h.ran }) in
    if_holds (Fares Settled Ready) (not w.slot) _ _ (stopped-Settled _ _ none w.stop_ack m h) (
      if_holds (Fares Settled Ready) (not w.leased) _ _
        (stopped-Settled _ _ (some _) w.stop_ack m h)
        (Fares-if Settled Ready w.started_ack.durable kept _ hk (leave-Settled "paused" kept hk)))

look_for-Follows :
    (c : Result WorkflowError Condition) (observation : String) (prepared : Reply)
    (rounds : List Round) (m : Machine)
    → Follows m (look_for c observation prepared rounds m).1
look_for-Follows (err e) observation prepared rounds m = Follows-refl m
look_for-Follows (ok c) observation prepared rounds m =
    observe-Follows observation prepared rounds m

judge_boundary-Fares :
    (w : DriveWorld) (answer : Answer) (m : Machine)
    → Ready m
    → Fares Settled Ready (judge_boundary w answer m)
unfolding judge_boundary
judge_boundary-Fares w (ok v) m h = h
judge_boundary-Fares w (err e) m h =
    if_holds Settled w.cancelled_recheck _ _ (stopped-Settled _ _ none w.stop_ack m h) (
      if_holds Settled w.expired_recheck _ _ (stopped-Settled _ _ none w.stop_ack m h)
        (stopped-Settled _ _ (some _) w.stop_ack m h))

recheck-Fares :
    (serde : Serde) (w : DriveWorld) (spec : WorkflowSpec) (c : Option Condition) (m : Machine)
    → Ready m
    → Fares Settled Ready (recheck serde w spec c m)
unfolding recheck look
recheck-Fares serde w spec none m h = h
recheck-Fares serde w spec (some c) m h =
    let seen = look serde spec c w.recheck_id w.recheck_prepared w.recheck_rounds m in
    judge_boundary-Fares w seen.0 seen.1 (
      Ready-Follows m seen.1
        (look_for-Follows (resolve_condition serde spec.inputs m.run.outcomes c) w.recheck_id
          w.recheck_prepared w.recheck_rounds m)
        h)

drive_steps-Fares :
    (serde : Serde) (spec : WorkflowSpec) (worlds : ℕ → StepWorld) (steps : List Step) (m : Machine)
    → Ready m
    → Fares Settled Ready (drive_steps serde spec worlds steps m)
unfolding drive_steps
drive_steps-Fares serde spec worlds [] m h = h
drive_steps-Fares serde spec worlds (step ∷ steps) m h =
    Fares-bind Settled Ready Ready _ (drive_steps serde spec worlds steps)
      (drive_step-Fares serde spec (worlds m.run.index) step m h)
      (λ n hn. drive_steps-Fares serde spec worlds steps n hn)

judge_goal-Settled :
    (w : DriveWorld) (answer : Answer) (m : Machine) → Ready m → Settled (judge_goal w answer m)
unfolding judge_goal
judge_goal-Settled w (ok v) m h =
    stopped-Settled _ _ none w.stop_ack _ (record { passed = h.passed; safe = h.safe; ran = h.ran })
judge_goal-Settled w (err e) m h =
    stopped-Settled _ _ none w.stop_ack _ (record { passed = h.passed; safe = h.safe; ran = h.ran })

reach_goal-Settled :
    (serde : Serde) (w : DriveWorld) (spec : WorkflowSpec) (goal : Option Condition) (m : Machine)
    → Ready m
    → Settled (reach_goal serde w spec goal m)
unfolding reach_goal look
reach_goal-Settled serde w spec none m h = stopped-Settled _ _ none w.stop_ack m h
reach_goal-Settled serde w spec (some c) m h =
    let seen = look serde spec c w.goal_id w.goal_prepared w.goal_rounds m in
    judge_goal-Settled w seen.0 seen.1 (
      Ready-Follows m seen.1
        (look_for-Follows (resolve_condition serde spec.inputs m.run.outcomes c) w.goal_id
          w.goal_prepared w.goal_rounds m)
        h)

finish_drive-Settled :
    (serde : Serde) (w : DriveWorld) (spec : WorkflowSpec) (m : Machine)
    → Ready m
    → Settled (finish_drive serde w spec m)
unfolding finish_drive
finish_drive-Settled serde w spec m h =
    if_holds Settled w.cancelled_goal _ _ (stopped-Settled _ _ none w.stop_ack m h)
      (reach_goal-Settled serde w spec spec.goal m h)

settle-Settled :
    (flow : Flow Machine) (finish : Machine → Machine)
    → Fares Settled Ready flow
    → ((m : Machine) → Ready m → Settled (finish m))
    → Settled (settle flow finish)
settle-Settled (ok m) finish h ends = ends m h
settle-Settled (err m) finish h ends = h

pub drive-Settled :
    (serde : Serde) (w : DriveWorld) (spec : WorkflowSpec) (m : Machine)
    → Ready m
    → Settled (drive serde w spec m)
unfolding drive
drive-Settled serde w spec m h =
    let check = λ (started : Machine). recheck serde w spec (boundary spec started) started in
    let steps = λ (checked : Machine).
      drive_steps serde spec w.steps (drop checked.run.index spec.steps) checked in
    let driven = begin_drive w m >>= λ started. check started >>= steps in
    let h1 =
      settle-Settled driven (finish_drive serde w spec)
        (Fares-bind Settled Ready Ready (begin_drive w m) (λ started. check started >>= steps)
          (begin_drive-Fares w m h)
          (λ started hs.
            Fares-bind Settled Ready Ready (check started) steps
              (recheck-Fares serde w spec (boundary spec started) started hs)
              (λ checked hc.
                drive_steps-Fares serde spec w.steps (drop checked.run.index spec.steps) checked
                  hc)))
        (finish_drive-Settled serde w spec) in
    record { passed = h1.passed; safe = h1.safe; ran = h1.ran }
