-- ===== src/Service/Guarantees.antt =====
-- What the service promises of the writing steps of a run.
use tauri_connector.Workflow.Spec.{WorkflowSpec, Serde}
use tauri_connector.Service.State.{Act, asked, executed, appended, isolated, Machine, Ack}
use tauri_connector.Service.Drive.{DriveWorld, start_run}
use tauri_connector.Service.Resume.{Request, serve_all}
use tauri_connector.Service.Acts.{says_undispatched, may_have_run, AreSafe, is_isolated}
use tauri_connector.Outcome.Facts.{ExecutionOutcome, is_success}
use tauri_connector.Service.Settled.{HavePassed}
use tauri_connector.Service.Requests.{serve_all-Settled, start_run-Settled}
use tauri_connector.Prelude.{
  zero, suc, some, All, length, get_elem?, ℕ, ◌≤◌, ◌+◌, String, ◌≡◌, refl, true, false, not, ◌&&◌,
  List, [], ◌∷◌, ◌==◌, arith, if◌then◌else◌, Bool-cases, inl, inr, ◌⊎◌, ◌<◌,
}

-- Whatever the page, the clock, the journal and the callers do, each call that executes a writing
-- step directly follows a durable intent, retries of the same step aside, and comes when no earlier
-- call of that step may have run.
pub start_run-AreSafe :
    (serde : Serde) (app : String) (ack : Ack) (w : DriveWorld) (spec : WorkflowSpec)
    (rs : List Request)
    → AreSafe (serve_all serde rs (start_run serde app ack w spec)).acts
start_run-AreSafe serde app ack w spec rs =
    let h = serve_all-Settled serde rs _ (start_run-Settled serde app ack w spec) in h.safe

-- how often a call that executes the writing step `i` may have run
unfoldable pub dispatches : ℕ → List Act → ℕ
dispatches i [] = 0
dispatches i (executed j request true answer ∷ acts) =
    (if j == i && not (says_undispatched answer) then 1 else 0) + dispatches i acts
dispatches i (executed j request false answer ∷ acts) = dispatches i acts
dispatches i (asked _ _ ∷ acts) = dispatches i acts
dispatches i (appended _ _ ∷ acts) = dispatches i acts
dispatches i (isolated ∷ acts) = dispatches i acts

dispatches-none : (i : ℕ) (acts : List Act) → may_have_run i acts ≡ false → dispatches i acts ≡ 0
unfolding dispatches may_have_run
dispatches-none i [] h = refl
dispatches-none i (executed j request true answer ∷ acts) h =
    let rest : may_have_run i acts ≡ false = ground arith in
    let now : (j == i && not (says_undispatched answer)) ≡ false = ground arith in
    let none_before = dispatches-none i acts rest in rw now (omega arith)
dispatches-none i (executed j request false answer ∷ acts) h = dispatches-none i acts h
dispatches-none i (asked _ _ ∷ acts) h = dispatches-none i acts h
dispatches-none i (appended _ _ ∷ acts) h = dispatches-none i acts h
dispatches-none i (isolated ∷ acts) h = dispatches-none i acts h

AreSafe-dispatches : (i : ℕ) (acts : List Act) → AreSafe acts → dispatches i acts ≤ 1
unfolding dispatches AreSafe
AreSafe-dispatches i [] h = omega arith
AreSafe-dispatches i (executed j request true answer ∷ acts) (fresh, _, safe) =
    elim (Bool-cases (j == i)) [
      | inr other ↦ let before = AreSafe-dispatches i acts safe in rw other (omega arith)
      | inl now ↦
          let same : j ≡ i = ground arith in
          let before = dispatches-none i acts (rw (← same) fresh) in
          elim (Bool-cases (says_undispatched answer)) [
            | inl nothing ↦ rw (now, nothing, before) (omega arith)
            | inr ran ↦ rw (now, ran, before) (omega arith)
          ]
    ]
AreSafe-dispatches i (executed j request false answer ∷ acts) h = AreSafe-dispatches i acts h
AreSafe-dispatches i (asked _ _ ∷ acts) h = AreSafe-dispatches i acts h
AreSafe-dispatches i (appended _ _ ∷ acts) h = AreSafe-dispatches i acts h
AreSafe-dispatches i (isolated ∷ acts) h = AreSafe-dispatches i acts h

-- A writing step is dispatched at most once, however often its calls are retried, the run is paused
-- and continued, and whatever the page, the clock, the journal and the callers do.
pub start_run-dispatches :
    (serde : Serde) (app : String) (ack : Ack) (w : DriveWorld) (spec : WorkflowSpec)
    (rs : List Request) (i : ℕ)
    → dispatches i (serve_all serde rs (start_run serde app ack w spec)).acts ≤ 1
start_run-dispatches serde app ack w spec rs i =
    AreSafe-dispatches i _ (start_run-AreSafe serde app ack w spec rs)

-- what all have, each has
element_of_All :
    (P : String × ExecutionOutcome → Type 0) (xs : List (String × ExecutionOutcome)) (i : ℕ)
    → i < length xs
    → All P xs
    → (e : String × ExecutionOutcome) × (get_elem? xs i ≡ some e) × P e
element_of_All P [] i h each = absurd (omega arith)
element_of_All P (x ∷ xs) zero h each = (x, refl, each.0)
element_of_All P (x ∷ xs) (suc i) h each = element_of_All P xs i (omega arith) each.1

-- The report of the run has an outcome of step `i`, and it succeeded: it was completed without an
-- error, and no check of it failed or was left open.
unfoldable pub HasPassed : ℕ → Machine → Type 0
HasPassed i m =
    (e : String × ExecutionOutcome) × (get_elem? m.run.report.steps i ≡ some e)
    × (is_success false e.1 ≡ true)

passed_before : (i : ℕ) (m : Machine) → HavePassed m → i < m.run.index → HasPassed i m
unfolding HasPassed
passed_before i m (each, counted) before =
    element_of_All (λ e. is_success false e.1 ≡ true) m.run.report.steps i (omega arith) each

-- Whatever the page, the clock, the journal and the callers do, where a writing step may have run,
-- either the report of the run has an outcome of it that succeeded (completed without an error, and
-- no check of it failed or was left open), or the resources of the run have been put in quarantine.
pub start_run-is_isolated :
    (serde : Serde) (app : String) (ack : Ack) (w : DriveWorld) (spec : WorkflowSpec)
    (rs : List Request) (i : ℕ)
    → (let m = serve_all serde rs (start_run serde app ack w spec) in
        (may_have_run i m.acts ≡ false) ⊎ (HasPassed i m ⊎ (is_isolated m.acts ≡ true)))
start_run-is_isolated serde app ack w spec rs i =
    let m = serve_all serde rs (start_run serde app ack w spec) in
    let h = serve_all-Settled serde rs _ (start_run-Settled serde app ack w spec) in
    elim (Bool-cases (may_have_run i m.acts)) [
      | inr not_ran ↦ inl not_ran
      | inl ran ↦ inr (elim (h.ran i ran) [
        | inl before ↦ inl (passed_before i m h.passed before)
        | inr now ↦ let (_, _, iso) = now in inr (iso refl)
      ])
    ]
