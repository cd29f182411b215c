-- ===== src/Batch/Schedule.antt =====
-- `run_batch_outcomes`: the scheduler's state and its two loops. What a call of a tool comes to,
-- which one of the running calls ends next, and the readings of the clock are the environment's.
use tauri_connector.Json.{Value, null}
use tauri_connector.Outcome.Facts.{ExecutionOutcome, is_success}
use tauri_connector.Batch.Spec.{Edges}
use tauri_connector.Prelude.{
  ℕ, zero, suc, ◌-◌, Bool, true, false, not, ◌&&◌, ◌||◌, Option, none, some, List, [], ◌∷◌, ◌++◌,
  map, if◌then◌else◌, leb, ◌==◌, find, keep, is_empty, length,
}

pub data ActionState : Type 0 where
  pending running ok failed skipped : ActionState

-- why an action was skipped or has failed
pub data Reason : Type 0 where
  dependency_failed dependency_skipped : ℕ → Reason
  batch_aborted never_ready : Reason
  execution_error : Reason

-- The log of an action; its id and tool are those of the action with the index.
pub record ActionLog : Type 0 where
  pub index : ℕ
  pub status : ActionState
  pub started_at_ms : Option ℕ
  pub duration_ms : Option ℕ
  pub result : Option Value
  pub error : Option Reason
  pub outcome : Option ExecutionOutcome

-- The plan: how many actions, their edges, and the settings.
pub record Plan : Type 0 where
  pub total : ℕ
  pub deps : Edges
  pub explicit : Edges
  pub stop_on_error : Bool
  pub max_parallel : ℕ
  pub omit_result : ℕ → Bool

pub record Scheduler : Type 0 where
  pub state : ℕ → ActionState
  pub logs : ℕ → Option ActionLog
  pub remaining : ℕ → ℕ
  pub ready : List ℕ
  pub in_flight : List ℕ
  pub abort : Bool

-- v[i] = x
abbrev pub put {ℓ} : {A : Type ℓ} → ℕ → A → (ℕ → A) → ℕ → A
put i x v j = if i == j then x else v j

-- 0..n
unfoldable pub indices : ℕ → List ℕ
indices zero = []
indices (suc n) = indices n ++ n ∷ []

-- `dependents[d]`, after the loop has gone through the first `n` actions
unfoldable pub dependents : Edges → ℕ → ℕ → List ℕ
dependents deps zero d = []
dependents deps (suc i) d = dependents deps i d ++ map (λ _. i) (keep (λ x. x == d) (deps i))

unfoldable pub initial : Plan → Scheduler
unfolding indices
initial plan = record {
  state = λ _. pending;
  logs = λ _. none;
  remaining = λ i. length (plan.deps i);
  ready = keep (λ i. is_empty (plan.deps i)) (indices plan.total);
  in_flight = [];
  abort = false;
}

-- the loop that counts an action's end for its dependents
unfoldable pub release_all : List ℕ → (ℕ → ℕ) → List ℕ → (ℕ → ℕ) × List ℕ
release_all [] remaining queue = (remaining, queue)
release_all (d ∷ ds) remaining queue =
    release_all ds (put d (remaining d - 1) remaining)
      (if remaining d - 1 == 0 then queue ++ d ∷ [] else queue)

abbrev pub is_pending : ActionState → Bool
is_pending pending = true
is_pending running = false
is_pending ok = false
is_pending failed = false
is_pending skipped = false

abbrev pub is_failed_or_skipped : ActionState → Bool
is_failed_or_skipped failed = true
is_failed_or_skipped skipped = true
is_failed_or_skipped pending = false
is_failed_or_skipped running = false
is_failed_or_skipped ok = false

abbrev pub reason_of : ActionState → ℕ → Reason
reason_of failed d = dependency_failed d
reason_of pending d = dependency_skipped d
reason_of running d = dependency_skipped d
reason_of ok d = dependency_skipped d
reason_of skipped d = dependency_skipped d

abbrev pub skip_log : ℕ → Reason → ActionLog
skip_log i reason = record {
  index = i;
  status = skipped;
  started_at_ms = none;
  duration_ms = none;
  result = none;
  error = some reason;
  outcome = none;
}

-- `skip_action`, and `ready.append(&mut unblocked)`; `rest` is what is left of the queue
unfoldable pub skip_action : Plan → ℕ → Reason → List ℕ → Scheduler → Scheduler
unfolding release_all dependents
skip_action plan i reason rest s =
    let (left, unblocked) = release_all (dependents plan.deps plan.total i) s.remaining [] in
    record s {
      state = put i skipped s.state;
      logs = put i (some (skip_log i reason)) s.logs;
      remaining = left;
      ready = rest ++ unblocked;
    }

abbrev pub start : ℕ → List ℕ → Scheduler → Scheduler
start i rest s = record s {
  state = put i running s.state;
  ready = rest;
  in_flight = s.in_flight ++ i ∷ [];
}

-- what the inner loop does with the action that it pops; `none` when it breaks
unfoldable pub admit : Plan → ℕ → List ℕ → Scheduler → Option Scheduler
admit plan i rest s =
    if not (is_pending (s.state i))
    then some (record s { ready = rest })
    else elim (find (λ d. is_failed_or_skipped (s.state d)) (plan.explicit i)) [
      | some d ↦ some (skip_action plan i (reason_of (s.state d) d) rest s)
      | none ↦
          if s.abort
          then some (skip_action plan i batch_aborted rest s)
          else if leb plan.max_parallel (length s.in_flight)
          then none
          else some (start i rest s)
    ]

-- a round of the inner loop; `none` when it ends
unfoldable pub pop_ready : Plan → List ℕ → Scheduler → Option Scheduler
pop_ready plan [] s = none
pop_ready plan (i ∷ rest) s = admit plan i rest s

-- What `running.next()` yields: the place of the call among those that run (the last, where there
-- are not so many), its outcome, compacted, and its times.
pub record Completion : Type 0 where
  pub place : ℕ
  pub outcome : ExecutionOutcome
  pub started_at_ms : ℕ
  pub duration_ms : ℕ

abbrev pub take_out : ℕ → ℕ → List ℕ → ℕ × List ℕ
take_out zero x xs = (x, xs)
take_out (suc k) x [] = (x, [])
take_out (suc k) x (y ∷ ys) = let (z, rest) = take_out k y ys in (z, x ∷ rest)

abbrev pub completed_log : Bool → ℕ → Completion → ActionLog
completed_log omit i c = record {
  index = i;
  status = if is_success false c.outcome then ok else failed;
  started_at_ms = some c.started_at_ms;
  duration_ms = some c.duration_ms;
  result = if is_success false c.outcome && not omit then some c.outcome.data_value else none;
  error = if is_success false c.outcome then none else some execution_error;
  outcome = some (if omit then record c.outcome { data_value = null } else c.outcome);
}

-- the rest of the outer loop: a call has ended
unfoldable pub complete : Plan → Completion → ℕ → List ℕ → Scheduler → Scheduler
unfolding release_all dependents is_success
complete plan c i others s =
    let success = is_success false c.outcome in
    let (left, ready) = release_all (dependents plan.deps plan.total i) s.remaining s.ready in
    record s {
      state = put i (if success then ok else failed) s.state;
      logs = put i (some (completed_log (plan.omit_result i) i c)) s.logs;
      remaining = left;
      ready = ready;
      in_flight = others;
      abort = s.abort || not success && plan.stop_on_error;
    }

unfoldable pub complete_next : Plan → Completion → List ℕ → Scheduler → Scheduler
complete_next plan c [] s = s
complete_next plan c (x ∷ xs) s =
    let (i, others) = take_out c.place x xs in complete plan c i others s

-- A round of either loop.
unfoldable pub tick : Plan → Completion → Scheduler → Scheduler
tick plan c s = elim (pop_ready plan s.ready s) [
  | some s' ↦ s'
  | none ↦ complete_next plan c s.in_flight s
]

unfoldable pub run : Plan → List Completion → Scheduler → Scheduler
unfolding tick
run plan [] s = s
run plan (c ∷ cs) s = run plan cs (tick plan c s)
