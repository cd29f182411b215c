-- ===== src/Batch/Limits.antt =====
-- The bounds that the settings put on a run: how many calls run at once, and that none starts after
-- a failure.
use tauri_connector.Batch.Spec.{contains}
use tauri_connector.Batch.Schedule.{
  pending, running, failed, Plan, Scheduler, Completion, initial, is_pending, skip_action, admit,
  pop_ready, take_out, complete, complete_next, tick, run,
}
use tauri_connector.Batch.Readiness.{is_dispatched, IsPlan, IsSound, closed_of_none_open}
use tauri_connector.Batch.Counting.{is_open, count}
use tauri_connector.Batch.Runs.{run-IsSound, initial-IsSound}
use tauri_connector.Prelude.{
  ℕ, zero, suc, ◌≡◌, ◌≤◌, ◌<◌, true, false, some, List, [], ◌∷◌, arith, refl, ◌==◌, any, length,
  length-append, Bool-cases, Option-cases, inl, inr,
}

module _ (plan : Plan) where
  pub length-take_out : (k x : ℕ) (xs : List ℕ) → length (take_out k x xs).1 ≡ length xs
  length-take_out zero x xs = refl
  length-take_out (suc k) x [] = refl
  length-take_out (suc k) x (y ∷ ys) = ground (arith, length-take_out k y ys)

  pop_ready-parallel :
      (queue : List ℕ) (s s' : Scheduler)
      → length s.in_flight ≤ plan.max_parallel
      → pop_ready plan queue s ≡ some s'
      → length s'.in_flight ≤ plan.max_parallel
  unfolding pop_ready admit skip_action
  pop_ready-parallel [] s s' h e = absurd (ground arith)
  pop_ready-parallel (i ∷ rest) s s' h e = ground (arith, length-append s.in_flight (i ∷ []))

  complete_next-parallel :
      (c : Completion) (flight : List ℕ) (s : Scheduler)
      → length flight ≤ plan.max_parallel
      → length s.in_flight ≤ plan.max_parallel
      → length (complete_next plan c flight s).in_flight ≤ plan.max_parallel
  unfolding complete_next complete
  complete_next-parallel c [] s h k = k
  complete_next-parallel c (x ∷ xs) s h k = omega (arith, length-take_out c.place x xs)

  tick-parallel :
      (c : Completion) (s : Scheduler)
      → length s.in_flight ≤ plan.max_parallel
      → length (tick plan c s).in_flight ≤ plan.max_parallel
  unfolding tick
  tick-parallel c s h = elim (Option-cases (pop_ready plan s.ready s)) [
    | inl e ↦ rw (e, tick) (complete_next-parallel c s.in_flight s h h)
    | inr (s', e) ↦ rw (e, tick) (pop_ready-parallel s.ready s s' h e)
  ]

  -- From a state with no more calls in flight than `max_parallel`, no run of the scheduler leads
  -- to more.
  pub run-parallel :
      (cs : List Completion) (s : Scheduler)
      → length s.in_flight ≤ plan.max_parallel
      → length (run plan cs s).in_flight ≤ plan.max_parallel
  unfolding run
  run-parallel [] s h = h
  run-parallel (c ∷ cs) s h = run-parallel cs (tick plan c s) (tick-parallel c s h)

  -- after an abort: it stays, and what was not dispatched never is
  record IsAborted (i : ℕ) (s : Scheduler) : Type 0 where
    aborted : s.abort ≡ true
    undispatched : is_dispatched (s.state i) ≡ false
    grounded : any (λ j. j == i) s.in_flight ≡ false

  pop_ready-IsAborted :
      (i : ℕ) (queue : List ℕ) (s s' : Scheduler)
      → IsAborted i s
      → pop_ready plan queue s ≡ some s'
      → IsAborted i s'
  unfolding pop_ready admit skip_action
  pop_ready-IsAborted i [] s s' h e = absurd (ground arith)
  pop_ready-IsAborted i (j ∷ rest) s s' h e = ground (arith, h.aborted, h.undispatched, h.grounded)

  any-take_out :
      (k x : ℕ) (xs : List ℕ) (i : ℕ)
      → any (λ j. j == i) (x ∷ xs) ≡ false
      → ((take_out k x xs).0 == i ≡ false) × (any (λ j. j == i) (take_out k x xs).1 ≡ false)
  any-take_out zero x xs i h = ground arith
  any-take_out (suc k) x [] i h = ground arith
  any-take_out (suc k) x (y ∷ ys) i h = ground (arith, any-take_out k y ys i)

  complete_next-IsAborted :
      (i : ℕ) (c : Completion) (flight : List ℕ) (s : Scheduler)
      → IsAborted i s
      → any (λ j. j == i) flight ≡ false
      → IsAborted i (complete_next plan c flight s)
  unfolding complete_next complete
  complete_next-IsAborted i c [] s h g = h
  complete_next-IsAborted i c (x ∷ xs) s h g =
      let out = any-take_out c.place x xs i g in
      record {
        aborted = ground (arith, h.aborted);
        undispatched = ground (arith, out, h.undispatched);
        grounded = out.1;
      }

  tick-IsAborted :
      (i : ℕ) (c : Completion) (s : Scheduler) → IsAborted i s → IsAborted i (tick plan c s)
  unfolding tick
  tick-IsAborted i c s h = elim (Option-cases (pop_ready plan s.ready s)) [
    | inl e ↦ rw (e, tick) (complete_next-IsAborted i c s.in_flight s h h.grounded)
    | inr (s', e) ↦ rw (e, tick) (pop_ready-IsAborted i s.ready s s' h e)
  ]

  run-IsAborted :
      (i : ℕ) (cs : List Completion) (s : Scheduler) → IsAborted i s → IsAborted i (run plan cs s)
  unfolding run
  run-IsAborted i [] s h = h
  run-IsAborted i (c ∷ cs) s h = run-IsAborted i cs (tick plan c s) (tick-IsAborted i c s h)

  -- a failure has set `abort`
  HasAborted : Scheduler → Type 0
  HasAborted s = (i : ℕ) → s.state i ≡ failed → s.abort ≡ true

  pop_ready-HasAborted :
      (queue : List ℕ) (s s' : Scheduler)
      → HasAborted s
      → pop_ready plan queue s ≡ some s'
      → HasAborted s'
  unfolding pop_ready admit skip_action HasAborted
  pop_ready-HasAborted [] s s' h e j f = absurd (ground arith)
  pop_ready-HasAborted (i ∷ rest) s s' h e j f = ground (arith, h j)

  complete_next-HasAborted :
      (c : Completion) (flight : List ℕ) (s : Scheduler)
      → plan.stop_on_error ≡ true
      → HasAborted s
      → HasAborted (complete_next plan c flight s)
  unfolding complete_next complete HasAborted
  complete_next-HasAborted c [] s stop h j f = h j f
  complete_next-HasAborted c (x ∷ xs) s stop h j f = ground (arith, h j)

  tick-HasAborted :
      (c : Completion) (s : Scheduler)
      → plan.stop_on_error ≡ true
      → HasAborted s
      → HasAborted (tick plan c s)
  unfolding tick
  tick-HasAborted c s stop h = elim (Option-cases (pop_ready plan s.ready s)) [
    | inl e ↦ rw (e, tick) (complete_next-HasAborted c s.in_flight s stop h)
    | inr (s', e) ↦ rw (e, tick) (pop_ready-HasAborted s.ready s s' h e)
  ]

  run-HasAborted :
      (cs : List Completion) (s : Scheduler)
      → plan.stop_on_error ≡ true
      → HasAborted s
      → HasAborted (run plan cs s)
  unfolding run
  run-HasAborted [] s stop h = h
  run-HasAborted (c ∷ cs) s stop h =
      run-HasAborted cs (tick plan c s) stop (tick-HasAborted c s stop h)

  initial-HasAborted : HasAborted (initial plan)
  unfolding initial HasAborted
  initial-HasAborted j f = absurd (ground arith)

  none_of_count : (i : ℕ) (xs : List ℕ) → count i xs ≡ 0 → any (λ j. j == i) xs ≡ false
  none_of_count i [] z = refl
  none_of_count i (x ∷ xs) z = ground (arith, none_of_count i xs)

  -- In a well-formed plan with `stop_on_error`, where some action has failed, an action that is
  -- pending then is never dispatched, however the run goes on.
  pub nothing_after_failure :
      (cs later : List Completion) (i j : ℕ)
      → IsPlan plan
      → plan.stop_on_error ≡ true
      → (run plan cs (initial plan)).state j ≡ failed
      → (run plan cs (initial plan)).state i ≡ pending
      → is_dispatched ((run plan later (run plan cs (initial plan))).state i) ≡ false
  nothing_after_failure cs later i j sound stop bad waits =
      (run-IsAborted i later (run plan cs (initial plan)) (record {
        aborted =
            unfold HasAborted in run-HasAborted cs (initial plan) stop initial-HasAborted j bad;
        undispatched = ground arith;
        grounded = none_of_count i (run plan cs (initial plan)).in_flight (
            ground (
              arith,
              (run-IsSound plan sound cs (initial plan) (initial-IsSound plan sound)).flying i,
            ));
      })).undispatched

  -- what a sequential plan has: each action waits for the one before it
  abbrev pub IsChain : Type 0
  IsChain = (i : ℕ) → suc i < plan.total → contains i (plan.deps (suc i)) ≡ true

  closed_below :
      (s : Scheduler) (i k : ℕ)
      → IsSound plan s
      → IsChain
      → i < plan.total
      → k < i
      → is_pending (s.state i) ≡ false
      → is_open (s.state k) ≡ false
  closed_below s zero k h chain b lt p = absurd (omega arith)
  closed_below s (suc m) k h chain b lt p =
      let last =
        closed_of_none_open s.state (plan.deps (suc m)) m (h.begun (suc m) p) (chain m b) in
      elim (Bool-cases (k == m)) [
        | inl e ↦ let same : m ≡ k = ground arith in rw (← same) last
        | inr e ↦ closed_below s m k h chain (omega arith) (ground arith) (ground arith)
      ]

  -- In a well-formed plan where each action waits for the one before it, two actions that run at
  -- the same time are the same.
  pub run_alone :
      (cs : List Completion) (i j : ℕ)
      → IsPlan plan
      → IsChain
      → i < plan.total
      → j < plan.total
      → (run plan cs (initial plan)).state i ≡ running
      → (run plan cs (initial plan)).state j ≡ running
      → i ≡ j
  run_alone cs i j sound chain bi bj ri rj =
      let h = run-IsSound plan sound cs (initial plan) (initial-IsSound plan sound) in
      ground (
        arith,
        closed_below (run plan cs (initial plan)) i j h chain bi,
        closed_below (run plan cs (initial plan)) j i h chain bj,
      )
