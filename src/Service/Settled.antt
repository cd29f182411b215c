-- ===== src/Service/Settled.antt =====
-- What holds of a run between its steps, in the middle of one, and where it has stopped.
use tauri_connector.Outcome.Facts.{ExecutionOutcome, is_success}
use tauri_connector.Workflow.Spec.{Step}
use tauri_connector.Service.State.{Run, Machine}
use tauri_connector.Service.Calls.{Answer}
use tauri_connector.Service.Steps.{
  StepWorld, is_writing, is_wait, outcome_of, execute, has_effect, was_dispatched,
}
use tauri_connector.Service.Acts.{
  is_isolated, says_undispatched, may_have_run, is_intended, AreSafe, Follows,
}
use tauri_connector.Service.Observations.{wait-Follows}
use tauri_connector.Service.Executions.{
  IsOpen, IsTried, execute_loop-IsTried, outcome_of-dispatched, outcome_of-has_effect,
}
use tauri_connector.Prelude.{
  All, length, ap, none, ℕ, ◌<◌, ◌≡◌, ◌⊎◌, sym, ◌∙◌, Bool, ◌&&◌, true, false, Option, some, ◌==◌,
  arith, Bool-cases, inl, inr,
}

-- Each step that the run has passed is on record, in its order, with an outcome that succeeded.
abbrev pub HavePassed : Machine → Type 0
HavePassed m =
    All (λ e. is_success false e.1 ≡ true) m.run.report.steps
    × (length m.run.report.steps ≡ m.run.index)

HavePassed-same :
    (m n : Machine)
    → n.run.report.steps ≡ m.run.report.steps
    → n.run.index ≡ m.run.index
    → HavePassed m
    → HavePassed n
HavePassed-same m n steps index h = rw (steps, index) h

-- Only steps that are over may have run.
pub record Ready (m : Machine) : Type 0 where
  pub passed : HavePassed m
  pub safe : AreSafe m.acts
  pub ran : (i : ℕ) → may_have_run i m.acts ≡ true → i < m.run.index

-- The step may have changed something.
abbrev pub in_doubt : Option ExecutionOutcome → Bool
in_doubt none = false
in_doubt (some o) = was_dispatched o && has_effect o

-- Only steps that are over may have run, and the current one where `o` says so; where `held`, the
-- resources are in quarantine then.
pub record Mid (o : Option ExecutionOutcome) (held : Bool) (m : Machine) : Type 0 where
  pub passed : HavePassed m
  pub safe : AreSafe m.acts
  pub ran :
      (i : ℕ)
      → may_have_run i m.acts ≡ true
      → (i < m.run.index)
        ⊎ ((i ≡ m.run.index) × (in_doubt o ≡ true) × (held ≡ true → is_isolated m.acts ≡ true))

-- a run that has stopped
abbrev pub Settled : Machine → Type 0
Settled m = Mid m.run.report.blocked_outcome true m

pub Ready-Follows : (m n : Machine) → Follows m n → Ready m → Ready n
Ready-Follows m n f h = record {
  passed = HavePassed-same m n f.steps f.index h.passed;
  safe = f.safe h.safe;
  ran = λ i r. rw f.index (h.ran i (sym (f.ran i) ∙ r));
}

pub Mid-Follows :
    (o : Option ExecutionOutcome) (held : Bool) (m n : Machine)
    → Follows m n
    → Mid o held m
    → Mid o held n
Mid-Follows o held m n f h = record {
  passed = HavePassed-same m n f.steps f.index h.passed;
  safe = f.safe h.safe;
  ran = λ i r. elim (h.ran i (sym (f.ran i) ∙ r)) [
    | inl before ↦ inl (rw f.index before)
    | inr now ↦ let (here, doubt, iso) = now in inr (rw f.index here, doubt, λ e. f.kept (iso e))
  ];
}

pub Ready-Mid : (o : Option ExecutionOutcome) (held : Bool) (m : Machine) → Ready m → Mid o held m
Ready-Mid o held m h = record { passed = h.passed; safe = h.safe; ran = λ i r. inl (h.ran i r) }

-- where the outcome that blocks was not dispatched, the run may go on
pub Mid-Ready :
    (o : Option ExecutionOutcome) (held : Bool) (m : Machine)
    → in_doubt o ≡ false
    → Mid o held m
    → Ready m
Mid-Ready o held m nothing h = record {
  passed = h.passed;
  safe = h.safe;
  ran = λ i r. elim (h.ran i r) [
    | inl before ↦ before
    | inr now ↦ let (_, d, _) = now in absurd (cc)
  ];
}

pub Mid-same :
    (o p : Option ExecutionOutcome) (held : Bool) (m : Machine)
    → in_doubt p ≡ in_doubt o
    → Mid o held m
    → Mid p held m
Mid-same o p held m same h = record {
  passed = h.passed;
  safe = h.safe;
  ran = λ i r. elim (h.ran i r) [
    | inl before ↦ inl before
    | inr now ↦ let (here, doubt, iso) = now in inr (here, same ∙ doubt, iso)
  ];
}

-- the quarantine of what is in doubt
pub Mid-hold :
    (o : Option ExecutionOutcome) (m : Machine)
    → (in_doubt o ≡ true → is_isolated m.acts ≡ true)
    → Mid o false m
    → Mid o true m
Mid-hold o m iso h = record {
  passed = h.passed;
  safe = h.safe;
  ran = λ i r. elim (h.ran i r) [
    | inl before ↦ inl before
    | inr now ↦ let (here, doubt, _) = now in inr (here, doubt, λ _. iso doubt)
  ];
}

outcome_of-in_doubt :
    (answer : Answer)
    → says_undispatched answer ≡ false
    → in_doubt (some (outcome_of true answer)) ≡ true
outcome_of-in_doubt answer h =
    let dispatched = outcome_of-dispatched answer h in
    let effect = outcome_of-has_effect answer h in ground arith

-- a step that was tried
tried-Mid :
    (writing : Bool) (m n : Machine) (answer : Answer)
    → Ready m
    → IsTried m.run.index writing m answer n
    → Mid (some (outcome_of writing answer)) false n
tried-Mid writing m n answer h tried =
    let here_still : n.run.index ≡ m.run.index = ap (λ (r : Run). r.index) tried.same in
    record {
      passed =
          HavePassed-same m n (ap (λ (r : Run). r.report.steps) tried.same) here_still h.passed;
      safe = tried.safe;
      ran = λ j r. elim (Bool-cases (j == m.run.index)) [
        | inr other ↦ inl (rw here_still (h.ran j (sym (tried.others j other) ∙ r)))
        | inl now ↦
            let same : j ≡ m.run.index = ground arith in
            let (writes, dispatched) = tried.ran (rw (← same) r) in
            inr (
              same ∙ sym here_still,
              rw writes (outcome_of-in_doubt answer dispatched),
              λ e. absurd (cc),
            )
      ];
    }

Ready-IsOpen :
    (writing : Bool) (m : Machine)
    → Ready m
    → ((i : ℕ) → writing ≡ true → is_intended i m.acts ≡ true)
    → IsOpen m.run.index writing m
Ready-IsOpen writing m h armed = record {
  safe = h.safe;
  fresh = elim (Bool-cases (may_have_run m.run.index m.acts)) [
    | inr not_ran ↦ not_ran
    | inl ran ↦ let before = h.ran m.run.index ran in absurd (omega arith)
  ];
  intended = armed m.run.index;
}

-- the execution of a step
pub execute-Mid :
    (w : StepWorld) (step : Step) (m : Machine)
    → Ready m
    → ((i : ℕ) → is_writing step.op ≡ true → is_intended i m.acts ≡ true)
    → (let done = execute w step m in Mid (some done.0) false done.1)
unfolding execute
execute-Mid w step m h armed = elim (Bool-cases (is_wait step.op)) [
  | inl waits ↦
      rw waits (Ready-Mid _ _ _ (Ready-Follows m _ (wait-Follows w.observation_id w.rounds m) h))
  | inr acts ↦ rw acts (
      tried-Mid (is_writing step.op) m _ _ h (
        execute_loop-IsTried m.run.index w.request_id (is_writing step.op) w.tries w.last_try m
          (Ready-IsOpen (is_writing step.op) m h armed)))
]
