-- ===== src/Service/Observations.antt =====
-- To ask the page changes nothing of the run and dispatches nothing.
use tauri_connector.Json.Reads.{at, is_true}
use tauri_connector.Service.State.{Run, Machine}
use tauri_connector.Service.Calls.{
  Answer, Reply, no_budget, timed_out, replied, bounded_call, ask, cleanup, Round, seen_cancelled,
  woken, answered, judge_condition, wait_condition, observe_prepared, observe_condition, is_ready,
}
use tauri_connector.Service.Acts.{is_isolated, may_have_run, AreSafe, Follows}
use tauri_connector.Prelude.{
  true, ℕ, String, ◌≡◌, refl, ◌∙◌, ap, Bool, false, List, [], ◌∷◌, ok, err, Bool-cases, inl, inr,
}

-- `n` is the same run as `m`, of which something was asked.
pub record Observes (m n : Machine) : Type 0 where
  pub same : n.run ≡ m.run
  pub safe : AreSafe m.acts → AreSafe n.acts
  pub ran : (i : ℕ) → may_have_run i n.acts ≡ may_have_run i m.acts
  pub kept : is_isolated m.acts ≡ true → is_isolated n.acts ≡ true

Observes-refl : (m : Machine) → Observes m m
Observes-refl m = record { same = refl; safe = λ h. h; ran = λ i. refl; kept = λ h. h }

Observes-trans : (l m n : Machine) → Observes l m → Observes m n → Observes l n
Observes-trans l m n a b = record {
  same = b.same ∙ a.same;
  safe = λ h. b.safe (a.safe h);
  ran = λ i. b.ran i ∙ a.ran i;
  kept = λ h. b.kept (a.kept h);
}

Observes-Follows : (m n : Machine) → Observes m n → Follows m n
Observes-Follows m n o = record {
  index = ap (λ (r : Run). r.index) o.same;
  steps = ap (λ (r : Run). r.report.steps) o.same;
  safe = o.safe;
  ran = o.ran;
  kept = o.kept;
}

ask-Observes :
    (command observation : String) (reply : Reply) (m : Machine)
    → Observes m (ask command observation reply m)
unfolding ask AreSafe may_have_run is_isolated
ask-Observes command observation no_budget m = Observes-refl m
ask-Observes command observation timed_out m = record {
  same = refl;
  safe = λ h. h;
  ran = λ i. refl;
  kept = λ h. h;
}
ask-Observes command observation (replied _) m = record {
  same = refl;
  safe = λ h. h;
  ran = λ i. refl;
  kept = λ h. h;
}

cleanup-Observes : (observation : String) (m : Machine) → Observes m (cleanup observation m)
unfolding cleanup AreSafe may_have_run is_isolated
cleanup-Observes observation m = record {
  same = refl;
  safe = λ h. h;
  ran = λ i. refl;
  kept = λ h. h;
}

judge-Observes :
    (answer : Answer) (wakes : Bool) (m after : Machine) (rest : Answer × Machine)
    → Observes m after
    → Observes m rest.1
    → Observes m (judge_condition answer wakes after rest).1
unfolding judge_condition
judge-Observes (err e) wakes m after rest first later = first
judge-Observes (ok v) wakes m after rest first later = elim (Bool-cases (is_true (at v "ok"))) [
  | inr bad ↦ rw bad first
  | inl good ↦ elim (Bool-cases (is_true (at v "satisfied"))) [
    | inl met ↦ rw (good, met) first
    | inr unmet ↦ elim (Bool-cases wakes) [
      | inl wakened ↦ rw (good, unmet, wakened) first
      | inr asleep ↦ rw (good, unmet, asleep) later
    ]
  ]
]

wait-Observes :
    (observation : String) (rounds : List Round) (m : Machine)
    → Observes m (wait_condition observation rounds m).1
unfolding wait_condition ask AreSafe may_have_run is_isolated
wait-Observes observation [] m = Observes-refl m
wait-Observes observation (seen_cancelled ∷ rounds) m = Observes-refl m
wait-Observes observation (woken ∷ rounds) m = record {
  same = refl;
  safe = λ h. h;
  ran = λ i. refl;
  kept = λ h. h;
}
wait-Observes observation (answered reply wakes ∷ rounds) m =
    let after = ask "condition" observation reply m in
    let first = ask-Observes "condition" observation reply m in
    let rest =
      Observes-trans m after (wait_condition observation rounds after).1 first
        (wait-Observes observation rounds after) in
    judge-Observes (bounded_call false reply) wakes m after
      (wait_condition observation rounds after) first rest

prepared-Observes :
    (observation : String) (answer : Answer) (rounds : List Round) (m : Machine)
    → Observes m (observe_prepared observation answer rounds m).1
unfolding observe_prepared
prepared-Observes observation (err e) rounds m = Observes-refl m
prepared-Observes observation (ok v) rounds m = elim (Bool-cases (is_ready v)) [
  | inl ready ↦ rw ready (wait-Observes observation rounds m)
  | inr not_ready ↦ rw not_ready (Observes-refl m)
]

pub observe-Observes :
    (observation : String) (prepared : Reply) (rounds : List Round) (m : Machine)
    → Observes m (observe_condition observation prepared rounds m).1
unfolding observe_condition
observe-Observes observation prepared rounds m =
    let before = ask "prepare" observation prepared m in
    let seen = observe_prepared observation (bounded_call false prepared) rounds before in
    Observes-trans m before (cleanup observation seen.1)
      (ask-Observes "prepare" observation prepared m)
      (Observes-trans before seen.1 (cleanup observation seen.1)
        (prepared-Observes observation (bounded_call false prepared) rounds before)
        (cleanup-Observes observation seen.1))

pub ask-Follows :
    (command observation : String) (reply : Reply) (m : Machine)
    → Follows m (ask command observation reply m)
ask-Follows command observation reply m =
    Observes-Follows m _ (ask-Observes command observation reply m)

pub cleanup-Follows : (observation : String) (m : Machine) → Follows m (cleanup observation m)
cleanup-Follows observation m = Observes-Follows m _ (cleanup-Observes observation m)

pub wait-Follows :
    (observation : String) (rounds : List Round) (m : Machine)
    → Follows m (wait_condition observation rounds m).1
wait-Follows observation rounds m = Observes-Follows m _ (wait-Observes observation rounds m)

pub observe-Follows :
    (observation : String) (prepared : Reply) (rounds : List Round) (m : Machine)
    → Follows m (observe_condition observation prepared rounds m).1
observe-Follows observation prepared rounds m =
    Observes-Follows m _ (observe-Observes observation prepared rounds m)
