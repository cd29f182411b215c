-- ===== src/Service/Executions.antt =====
-- The execution of a step, retries included.
use tauri_connector.Json.Reads.{at, is_true}
use tauri_connector.Outcome.Facts.{completed, not_dispatched, failed, unknown}
use tauri_connector.Service.State.{Machine}
use tauri_connector.Service.Calls.{
  Answer, Reply, no_budget, timed_out, replied, bounded_call, may_requery, execute_once, Try,
  execute_last, execute_loop,
}
use tauri_connector.Service.Steps.{outcome_of, was_dispatched, has_effect}
use tauri_connector.Service.Acts.{says_undispatched, may_have_run, is_intended, AreSafe}
use tauri_connector.Prelude.{
  ℕ, String, ◌≡◌, refl, ◌∙◌, Bool, true, false, not, ◌&&◌, List, [], ◌∷◌, ◌==◌, str_eq, ok, err,
  arith, Bool-cases, inl, inr,
}

-- nothing of step `i` could have run yet, and where it writes its intent is durable
pub record IsOpen (i : ℕ) (writing : Bool) (m : Machine) : Type 0 where
  pub safe : AreSafe m.acts
  pub fresh : may_have_run i m.acts ≡ false
  pub intended : writing ≡ true → is_intended i m.acts ≡ true

-- Step `i` has been tried, the last time with this answer.
pub record IsTried (i : ℕ) (writing : Bool) (m : Machine) (answer : Answer) (n : Machine)
    : Type 0 where
  pub same : n.run ≡ m.run
  pub safe : AreSafe n.acts
  pub others : (j : ℕ) → (j == i) ≡ false → may_have_run j n.acts ≡ may_have_run j m.acts
  pub ran : may_have_run i n.acts ≡ true → (writing ≡ true) × (says_undispatched answer ≡ false)
  pub intended : writing ≡ true → is_intended i n.acts ≡ true

execute_once-IsTried :
    (i : ℕ) (request : String) (writing : Bool) (reply : Reply) (m : Machine)
    → IsOpen i writing m
    → IsTried i writing m (bounded_call writing reply) (execute_once i request writing reply m)
unfolding execute_once bounded_call AreSafe may_have_run is_intended
execute_once-IsTried i request writing no_budget m h = record {
  same = refl;
  safe = h.safe;
  others = λ j d. refl;
  ran = λ r. absurd (cc);
  intended = h.intended;
}
execute_once-IsTried i request true timed_out m h = record {
  same = refl;
  safe = (h.fresh, h.intended refl, h.safe);
  others = λ j d. ground arith;
  ran = λ r. (refl, refl);
  intended = λ w. ground arith;
}
execute_once-IsTried i request false timed_out m h = record {
  same = refl;
  safe = h.safe;
  others = λ j d. refl;
  ran = λ r. absurd (cc);
  intended = λ w. absurd (cc);
}
execute_once-IsTried i request true (replied answer) m h = record {
  same = refl;
  safe = (h.fresh, h.intended refl, h.safe);
  others = λ j d. ground arith;
  ran = λ r. (refl, ground arith);
  intended = λ w. ground arith;
}
execute_once-IsTried i request false (replied answer) m h = record {
  same = refl;
  safe = h.safe;
  others = λ j d. refl;
  ran = λ r. absurd (cc);
  intended = λ w. absurd (cc);
}

execute_last-IsTried :
    (i : ℕ) (request : String) (writing : Bool) (t : Try) (m : Machine)
    → IsOpen i writing m
    → (let done = execute_last i request writing t m in IsTried i writing m done.0 done.1)
unfolding execute_last
execute_last-IsTried i request writing t m h = elim (Bool-cases t.cancelled) [
  | inr on ↦ rw on (execute_once-IsTried i request writing t.reply m h)
  | inl over ↦ rw over record {
    same = refl;
    safe = h.safe;
    others = λ j d. refl;
    ran = λ r. absurd (cc);
    intended = h.intended;
  }
]

-- an answer after which the step is tried again says that nothing was dispatched
may_requery-undispatched :
    (answer : Answer) → may_requery answer ≡ true → says_undispatched answer ≡ true
unfolding may_requery
may_requery-undispatched (ok v) h = ground arith
may_requery-undispatched (err e) h = absurd (cc)

IsTried-IsOpen :
    (i : ℕ) (writing : Bool) (m n : Machine) (answer : Answer)
    → IsTried i writing m answer n
    → says_undispatched answer ≡ true
    → IsOpen i writing n
IsTried-IsOpen i writing m n answer h nothing = record {
  safe = h.safe;
  fresh = elim (Bool-cases (may_have_run i n.acts)) [
    | inr not_ran ↦ not_ran
    | inl ran ↦ let (_, dispatched) = h.ran ran in absurd (cc)
  ];
  intended = h.intended;
}

IsTried-again :
    (i : ℕ) (writing : Bool) (m n k : Machine) (a b : Answer)
    → IsTried i writing m a n
    → IsTried i writing n b k
    → IsTried i writing m b k
IsTried-again i writing m n k a b first next = record {
  same = next.same ∙ first.same;
  safe = next.safe;
  others = λ j d. next.others j d ∙ first.others j d;
  ran = next.ran;
  intended = next.intended;
}

pub execute_loop-IsTried :
    (i : ℕ) (request : String) (writing : Bool) (tries : List Try) (last : Try) (m : Machine)
    → IsOpen i writing m
    → (let done = execute_loop i request writing tries last m in IsTried i writing m done.0 done.1)
unfolding execute_loop
execute_loop-IsTried i request writing [] last m h = execute_last-IsTried i request writing last m h
execute_loop-IsTried i request writing (t ∷ tries) last m h =
    let one = execute_last i request writing t m in
    let first = execute_last-IsTried i request writing t m h in
    elim (Bool-cases (not t.cancelled && may_requery one.0 && not t.late)) [
      | inr stops ↦ rw stops first
      | inl again ↦
          let asks : may_requery one.0 ≡ true = ground arith in
          let nothing = may_requery-undispatched one.0 asks in
          let open_again = IsTried-IsOpen i writing m one.1 one.0 first nothing in
          rw again (
            IsTried-again i writing m one.1 (execute_loop i request writing tries last one.1).1
              one.0 (execute_loop i request writing tries last one.1).0 first
              (execute_loop-IsTried i request writing tries last one.1 open_again))
    ]

-- what an execution that may have run comes to
pub outcome_of-dispatched :
    (answer : Answer)
    → says_undispatched answer ≡ false
    → was_dispatched (outcome_of true answer) ≡ true
unfolding outcome_of completed failed unknown not_dispatched
outcome_of-dispatched (ok v) h = elim (Bool-cases (is_true (at v "ok"))) [
  | inl good ↦ elim (Bool-cases (is_true (at v "dispatched"))) [
    | inl was ↦ rw (good, was) refl
    | inr was_not ↦ rw (good, was_not, h) refl
  ]
  | inr bad ↦ elim (Bool-cases (is_true (at v "dispatched"))) [
    | inl was ↦ rw (bad, was) refl
    | inr was_not ↦ rw (bad, was_not, h) refl
  ]
]
outcome_of-dispatched (err e) h = elim (Bool-cases (str_eq e.code "outcome_unknown")) [
  | inl unsure ↦ rw unsure refl
  | inr sure ↦ rw (sure, h) refl
]

-- and it may have had an effect
pub outcome_of-has_effect :
    (answer : Answer)
    → says_undispatched answer ≡ false
    → has_effect (outcome_of true answer) ≡ true
unfolding outcome_of completed failed unknown not_dispatched
outcome_of-has_effect (ok v) h = elim (Bool-cases (is_true (at v "ok"))) [
  | inl good ↦ elim (Bool-cases (is_true (at v "dispatched"))) [
    | inl was ↦ rw (good, was) refl
    | inr was_not ↦ rw (good, was_not, h) refl
  ]
  | inr bad ↦ elim (Bool-cases (is_true (at v "dispatched"))) [
    | inl was ↦ rw (bad, was) refl
    | inr was_not ↦ rw (bad, was_not, h) refl
  ]
]
outcome_of-has_effect (err e) h = elim (Bool-cases (str_eq e.code "outcome_unknown")) [
  | inl unsure ↦ rw unsure refl
  | inr sure ↦ rw (sure, h) refl
]
