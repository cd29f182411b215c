-- ===== src/Batch/Runs.antt =====
-- What holds in every run of the scheduler: the order of the starts, and the bound on parallel calls.
use tauri_connector.Batch.Schedule.{
  ActionState, pending, running, Plan, Scheduler, Completion, put, initial, indices, is_pending,
  is_failed_or_skipped, skip_action, start, admit, pop_ready, take_out, complete_next, tick, run,
  reason_of, batch_aborted,
}
use tauri_connector.Batch.Counting.{is_open, open_count, count-append, open_count-start}
use tauri_connector.Batch.Readiness.{
  is_dispatched, is_ok, IsPlan, IsSound, all_ok, all_ok-put, skip-IsSound, complete-IsSound,
  take_out-count,
}
use tauri_connector.Prelude.{
  ℕ, ◌≡◌, ◌∙◌, sym, true, false, not, none, some, List, [], ◌∷◌, arith, refl, ◌==◌, keep, find, all,
  length, is_empty, All, Bool-cases, Option-cases, inl, inr,
}

module _ (plan : Plan) (plan-IsPlan : IsPlan plan) where
  start-IsSound :
      (s : Scheduler) (i : ℕ) (rest : List ℕ)
      → IsSound plan s
      → is_pending (s.state i) ≡ true
      → s.remaining i ≡ 0
      → All (λ i. s.remaining i ≡ 0) rest
      → find (λ d. is_failed_or_skipped (s.state d)) (plan.explicit i) ≡ none
      → IsSound plan (start i rest s)
  start-IsSound s i rest h p z r f = record {
    counted = λ j. h.counted j ∙ sym (open_count-start s.state i running (plan.deps j) open_i);
    awaited = r;
    begun = λ j q. open_count-start s.state i running (plan.deps j) open_i ∙ ended j q;
    cleared = λ j d. all_ok-put s.state i running (plan.explicit j) (ground arith) (ok_before j d);
    flying = λ j. ground (arith, h.flying j, count-append j s.in_flight (i ∷ []));
  }
    where
      open_i : is_open (s.state i) ≡ true
      open_i = ground arith

      ended :
          (j : ℕ)
          → is_pending (put i running s.state j) ≡ false
          → open_count s.state (plan.deps j) ≡ 0
      ended j q = elim (Bool-cases (i == j)) [
        | inl e ↦ let same : i ≡ j = ground arith in rw (← same) (sym (h.counted i) ∙ z)
        | inr e ↦ h.begun j (ground arith)
      ]

      ok_before :
          (j : ℕ)
          → is_dispatched (put i running s.state j) ≡ true
          → all (λ d. is_ok (s.state d)) (plan.explicit j) ≡ true
      ok_before j d = elim (Bool-cases (i == j)) [
        | inl e ↦
            let same : i ≡ j = ground arith in
            rw (← same) (
              all_ok s.state (plan.explicit i) (plan.deps i) (plan-IsPlan.included i)
                (sym (h.counted i) ∙ z) f)
        | inr e ↦ h.cleared j (ground arith)
      ]

  with_queue :
      (s : Scheduler) (rest : List ℕ)
      → IsSound plan s
      → All (λ i. s.remaining i ≡ 0) rest
      → IsSound plan (record s { ready = rest })
  with_queue s rest h r = record {
    counted = h.counted;
    awaited = r;
    begun = h.begun;
    cleared = h.cleared;
    flying = h.flying;
  }

  -- what `admit` does, by cases
  admit-IsSound :
      (s s' : Scheduler) (i : ℕ) (rest : List ℕ)
      → IsSound plan s
      → s.remaining i ≡ 0
      → All (λ i. s.remaining i ≡ 0) rest
      → admit plan i rest s ≡ some s'
      → IsSound plan s'
  admit-IsSound s s' i rest h z r e = elim (Bool-cases (is_pending (s.state i))) [
    | inr gone ↦
        let same : record s { ready = rest } ≡ s' = unfold admit in ground arith in
        rw (← same) (with_queue s rest h r)
    | inl p ↦ elim (Option-cases (find (λ d. is_failed_or_skipped (s.state d)) (plan.explicit i))) [
      | inr (d, f) ↦
          let same : skip_action plan i (reason_of (s.state d) d) rest s ≡ s' =
            unfold admit in ground arith in
          rw (← same) (skip-IsSound plan plan-IsPlan s i _ rest h p z r)
      | inl f ↦ elim (Bool-cases s.abort) [
        | inl a ↦
            let same : skip_action plan i batch_aborted rest s ≡ s' =
              unfold admit in ground arith in
            rw (← same) (skip-IsSound plan plan-IsPlan s i _ rest h p z r)
        | inr a ↦
            let same : start i rest s ≡ s' = unfold admit in ground arith in
            rw (← same) (start-IsSound s i rest h p z r f)
      ]
    ]
  ]

  complete_next-IsSound :
      (s : Scheduler) (c : Completion) (flight : List ℕ)
      → IsSound plan s
      → s.in_flight ≡ flight
      → IsSound plan (complete_next plan c flight s)
  unfolding complete_next
  complete_next-IsSound s c [] h e = h
  complete_next-IsSound s c (x ∷ xs) h e =
      let (i, others) = take_out c.place x xs in
      complete-IsSound plan plan-IsPlan s c i others h
        (λ j. rw e (take_out-count plan plan-IsPlan c.place x xs j))

  pop_ready-IsSound :
      (s s' : Scheduler) (queue : List ℕ)
      → IsSound plan s
      → All (λ i. s.remaining i ≡ 0) queue
      → pop_ready plan queue s ≡ some s'
      → IsSound plan s'
  unfolding pop_ready
  pop_ready-IsSound s s' [] h q e = absurd (ground arith)
  pop_ready-IsSound s s' (i ∷ rest) h q e = admit-IsSound s s' i rest h q.0 q.1 e

  pub tick-IsSound :
      (c : Completion) (s : Scheduler) → IsSound plan s → IsSound plan (tick plan c s)
  unfolding tick
  tick-IsSound c s h = elim (Option-cases (pop_ready plan s.ready s)) [
    | inl e ↦ rw (e, tick) (complete_next-IsSound s c s.in_flight h refl)
    | inr (s', e) ↦ rw (e, tick) (pop_ready-IsSound s s' s.ready h h.awaited e)
  ]

  pub run-IsSound :
      (cs : List Completion) (s : Scheduler) → IsSound plan s → IsSound plan (run plan cs s)
  unfolding run
  run-IsSound [] s h = h
  run-IsSound (c ∷ cs) s h = run-IsSound cs (tick plan c s) (tick-IsSound c s h)

  open_count-pending : (ds : List ℕ) → open_count (λ _. pending) ds ≡ length ds
  open_count-pending [] = refl
  open_count-pending (d ∷ ds) = ground (arith, open_count-pending ds)

  awaited_first :
      (xs : List ℕ) → All (λ i. length (plan.deps i) ≡ 0) (keep (λ i. is_empty (plan.deps i)) xs)
  awaited_first [] = tt
  awaited_first (x ∷ xs) = elim (Bool-cases (is_empty (plan.deps x))) [
    | inl e ↦ rw e (length_of_empty (plan.deps x) e, awaited_first xs)
    | inr e ↦ rw e (awaited_first xs)
  ]
    where
      length_of_empty : (ds : List ℕ) → is_empty ds ≡ true → length ds ≡ 0
      length_of_empty [] e = refl
      length_of_empty (d ∷ ds) e = absurd (ground arith)

  pub initial-IsSound : IsSound plan (initial plan)
  unfolding initial
  initial-IsSound = record {
    counted = λ j. sym (open_count-pending (plan.deps j));
    awaited = awaited_first (indices plan.total);
    begun = λ i p. absurd (ground arith);
    cleared = λ i d. absurd (ground arith);
    flying = λ j. refl;
  }

  -- In a plan whose edges are well formed, whatever the calls come to and in whatever order they
  -- end: when an action has been dispatched, each explicit dependency has succeeded, and all that
  -- it waits for has ended.
  pub dispatch_order :
      (cs : List Completion) (i : ℕ)
      → is_dispatched ((run plan cs (initial plan)).state i) ≡ true
      → (all (λ d. is_ok ((run plan cs (initial plan)).state d)) (plan.explicit i) ≡ true)
        × (all (λ d. not (is_open ((run plan cs (initial plan)).state d))) (plan.deps i) ≡ true)
  dispatch_order cs i d =
      let h = run-IsSound cs (initial plan) initial-IsSound in
      (h.cleared i d, all_closed _ (plan.deps i) (h.begun i (ground arith)))
    where
      all_closed :
          (state : ℕ → ActionState) (ds : List ℕ)
          → open_count state ds ≡ 0
          → all (λ d. not (is_open (state d))) ds ≡ true
      all_closed state [] z = refl
      all_closed state (x ∷ ds) z = ground (arith, all_closed state ds)
