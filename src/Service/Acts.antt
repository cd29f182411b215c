-- ===== src/Service/Acts.antt =====
-- What the list of acts says of the executions of writing steps.
use tauri_connector.Json.Reads.{at, is_false}
use tauri_connector.Outcome.Facts.{ExecutionOutcome}
use tauri_connector.Service.State.{
  Act, asked, executed, appended, isolated, Machine, Ack, checkpoint, stop,
}
use tauri_connector.Service.Calls.{Answer}
use tauri_connector.Service.Steps.{is_undispatched_code}
use tauri_connector.Prelude.{
  ℕ, String, ◌≡◌, refl, ◌∙◌, Bool, true, false, not, ◌&&◌, ◌||◌, Option, List, [], ◌∷◌, ◌==◌,
  str_eq, ok, err,
}

-- an answer that says that nothing was dispatched
abbrev pub says_undispatched : Answer → Bool
says_undispatched (ok v) = is_false (at v "dispatched")
says_undispatched (err e) = is_undispatched_code e.code

-- A writing step has been executed, and not been answered that nothing was dispatched.
unfoldable pub may_have_run : ℕ → List Act → Bool
may_have_run i [] = false
may_have_run i (executed j request true answer ∷ acts) =
    j == i && not (says_undispatched answer) || may_have_run i acts
may_have_run i (executed j request false answer ∷ acts) = may_have_run i acts
may_have_run i (asked _ _ ∷ acts) = may_have_run i acts
may_have_run i (appended _ _ ∷ acts) = may_have_run i acts
may_have_run i (isolated ∷ acts) = may_have_run i acts

-- The last record of the journal is a durable intent, and since then only step `i` was tried.
unfoldable pub is_intended : ℕ → List Act → Bool
is_intended i [] = false
is_intended i (appended event durable ∷ acts) = str_eq event "step_dispatch_intent" && durable
is_intended i (executed j request true answer ∷ acts) = j == i && is_intended i acts
is_intended i (executed j request false answer ∷ acts) = false
is_intended i (asked _ _ ∷ acts) = false
is_intended i (isolated ∷ acts) = false

-- Each execution of a writing step came after a durable record of the intent, and at a time when
-- nothing of that step could have run.
unfoldable pub AreSafe : List Act → Type 0
AreSafe [] = Unit
AreSafe (executed i request true answer ∷ acts) =
    (may_have_run i acts ≡ false) × (is_intended i acts ≡ true) × AreSafe acts
AreSafe (executed i request false answer ∷ acts) = AreSafe acts
AreSafe (asked _ _ ∷ acts) = AreSafe acts
AreSafe (appended _ _ ∷ acts) = AreSafe acts
AreSafe (isolated ∷ acts) = AreSafe acts

-- the resources were put in quarantine
unfoldable pub is_isolated : List Act → Bool
is_isolated [] = false
is_isolated (isolated ∷ acts) = true
is_isolated (executed _ _ _ _ ∷ acts) = is_isolated acts
is_isolated (asked _ _ ∷ acts) = is_isolated acts
is_isolated (appended _ _ ∷ acts) = is_isolated acts

-- `n` goes on from `m` without an execution of a writing step.
pub record Follows (m n : Machine) : Type 0 where
  pub index : n.run.index ≡ m.run.index
  pub steps : n.run.report.steps ≡ m.run.report.steps
  pub safe : AreSafe m.acts → AreSafe n.acts
  pub ran : (i : ℕ) → may_have_run i n.acts ≡ may_have_run i m.acts
  pub kept : is_isolated m.acts ≡ true → is_isolated n.acts ≡ true

pub Follows-refl : (m : Machine) → Follows m m
Follows-refl m = record {
  index = refl;
  steps = refl;
  safe = λ h. h;
  ran = λ i. refl;
  kept = λ h. h;
}

pub Follows-trans : (l m n : Machine) → Follows l m → Follows m n → Follows l n
Follows-trans l m n a b = record {
  index = b.index ∙ a.index;
  steps = b.steps ∙ a.steps;
  safe = λ h. b.safe (a.safe h);
  ran = λ i. b.ran i ∙ a.ran i;
  kept = λ h. b.kept (a.kept h);
}

pub checkpoint-Follows :
    (event : String) (ack : Ack) (m : Machine) → Follows m (checkpoint event ack m)
unfolding checkpoint AreSafe may_have_run is_isolated
checkpoint-Follows event ack m = record {
  index = refl;
  steps = refl;
  safe = λ h. h;
  ran = λ i. refl;
  kept = λ h. h;
}

pub stop-Follows :
    (status : String) (reason : Option String) (outcome : Option ExecutionOutcome) (ack : Ack)
    (m : Machine)
    → Follows m (stop status reason outcome ack m)
unfolding stop checkpoint AreSafe may_have_run is_isolated
stop-Follows status reason outcome ack m = record {
  index = refl;
  steps = refl;
  safe = λ h. h;
  ran = λ i. refl;
  kept = λ h. h;
}
