-- ===== src/Batch/Readiness.antt =====
-- An action starts only when what it depends on has ended, in every run of the scheduler.
use tauri_connector.Batch.Spec.{contains}
use tauri_connector.Batch.Schedule.{
  ActionState, pending, running, ok, failed, skipped, Plan, Scheduler, Reason, Completion, put,
  release_all, dependents, is_pending, is_failed_or_skipped, skip_action, take_out, complete,
}
use tauri_connector.Outcome.Facts.{is_success}
use tauri_connector.Batch.Counting.{
  count, is_open, open_count, release_all-count, release_all-queue, count-dependents,
  open_count-close,
}
use tauri_connector.Prelude.{
  ℕ, zero, suc, ◌≡◌, ◌∙◌, sym, Bool, true, false, none, List, [], ◌∷◌, arith, refl, if◌then◌else◌,
  ltb, ◌==◌, find, all, All, All-append, All-map, Bool-cases, inl, inr,
}

-- the action has been given to the dispatcher
abbrev pub is_dispatched : ActionState → Bool
is_dispatched running = true
is_dispatched ok = true
is_dispatched failed = true
is_dispatched pending = false
is_dispatched skipped = false

abbrev pub is_ok : ActionState → Bool
is_ok ok = true
is_ok pending = false
is_ok running = false
is_ok failed = false
is_ok skipped = false

abbrev pub is_running : ActionState → Bool
is_running running = true
is_running pending = false
is_running ok = false
is_running failed = false
is_running skipped = false

-- Edges stand at the actions only, and the explicit ones are among all.
pub record IsPlan (plan : Plan) : Type 0 where
  pub bounded : (i : ℕ) → ltb i plan.total ≡ false → plan.deps i ≡ []
  pub included : (i : ℕ) → all (λ d. contains d (plan.deps i)) (plan.explicit i) ≡ true

-- The state of a scheduler between two rounds.
pub record IsSound (plan : Plan) (s : Scheduler) : Type 0 where
  pub counted : (j : ℕ) → s.remaining j ≡ open_count s.state (plan.deps j)
  pub awaited : All (λ i. s.remaining i ≡ 0) s.ready
  pub begun : (i : ℕ) → is_pending (s.state i) ≡ false → open_count s.state (plan.deps i) ≡ 0
  pub cleared :
      (i : ℕ)
      → is_dispatched (s.state i) ≡ true
      → all (λ d. is_ok (s.state d)) (plan.explicit i) ≡ true
  pub flying : (j : ℕ) → count j s.in_flight ≡ (if is_running (s.state j) then 1 else 0)

pub closed_of_none_open :
    (state : ℕ → ActionState) (ds : List ℕ) (d : ℕ)
    → open_count state ds ≡ 0
    → contains d ds ≡ true
    → is_open (state d) ≡ false
closed_of_none_open state [] d z c = ground arith
closed_of_none_open state (x ∷ ds) d z c = elim (Bool-cases (x == d)) [
  | inl e ↦ let same : x ≡ d = ground arith in rw (← same) (ground arith)
  | inr e ↦ closed_of_none_open state ds d (ground arith) (ground arith)
]

-- what ended well, of those that have ended and are neither failed nor skipped
pub all_ok :
    (state : ℕ → ActionState) (es ds : List ℕ)
    → all (λ d. contains d ds) es ≡ true
    → open_count state ds ≡ 0
    → find (λ d. is_failed_or_skipped (state d)) es ≡ none
    → all (λ d. is_ok (state d)) es ≡ true
all_ok state [] ds i z f = refl
all_ok state (e ∷ es) ds i z f =
    ground (arith, closed_of_none_open state ds e z, all_ok state es ds)

pub all_ok-put :
    (state : ℕ → ActionState) (i : ℕ) (x : ActionState) (es : List ℕ)
    → is_ok (state i) ≡ false
    → all (λ d. is_ok (state d)) es ≡ true
    → all (λ d. is_ok (put i x state d)) es ≡ true
all_ok-put state i x [] h a = refl
all_ok-put state i x (e ∷ es) h a = elim (Bool-cases (i == e)) [
  | inl q ↦
      let same : i ≡ e = ground arith in
      let bad : is_ok (state e) ≡ false = rw (← same) h in absurd (ground arith)
  | inr q ↦ ground (arith, all_ok-put state i x es)
]

module _ (plan : Plan) (plan-IsPlan : IsPlan plan) where
  -- what is left to wait for once action `i` has ended
  counted_close :
      (s : Scheduler) (i : ℕ) (x : ActionState) (queue : List ℕ) (j : ℕ)
      → IsSound plan s
      → is_open (s.state i) ≡ true
      → is_open x ≡ false
      → (release_all (dependents plan.deps plan.total i) s.remaining queue).0 j
        ≡ open_count (put i x s.state) (plan.deps j)
  counted_close s i x queue j h o c = elim (Bool-cases (ltb j plan.total)) [
    | inl e ↦ rw release_all-count (
        ground (
          arith,
          h.counted j,
          count-dependents plan.deps plan.total i j,
          open_count-close s.state i x (plan.deps j) o c,
        ))
    | inr e ↦ rw release_all-count (
        ground
          (arith, h.counted j, count-dependents plan.deps plan.total i j, plan-IsPlan.bounded j e))
  ]

  begun_close :
      (s : Scheduler) (i j : ℕ) (x : ActionState)
      → IsSound plan s
      → is_open (s.state i) ≡ true
      → is_open x ≡ false
      → open_count s.state (plan.deps i) ≡ 0
      → is_pending (put i x s.state j) ≡ false
      → open_count (put i x s.state) (plan.deps j) ≡ 0
  begun_close s i j x h o c z p = elim (Bool-cases (i == j)) [
    | inl e ↦
        let same : i ≡ j = ground arith in
        rw (← same) (omega (arith, open_count-close s.state i x (plan.deps i) o c))
    | inr e ↦
        let before : is_pending (s.state j) ≡ false = ground arith in
        omega (arith, h.begun j before, open_count-close s.state i x (plan.deps j) o c)
  ]

  pub skip-IsSound :
      (s : Scheduler) (i : ℕ) (reason : Reason) (rest : List ℕ)
      → IsSound plan s
      → is_pending (s.state i) ≡ true
      → s.remaining i ≡ 0
      → All (λ i. s.remaining i ≡ 0) rest
      → IsSound plan (skip_action plan i reason rest s)
  unfolding skip_action
  skip-IsSound s i reason rest h p z r = record {
    counted = λ j. counted_close s i skipped [] j h open_i refl;
    awaited =
        All-append _ rest (release_all (dependents plan.deps plan.total i) s.remaining []).1
          (All-map (λ j. s.remaining j ≡ 0) _ rest (λ j e. rw release_all-count (omega (arith, e)))
            r)
          (release_all-queue (dependents plan.deps plan.total i) s.remaining [] tt);
    begun = λ j q. begun_close s i j skipped h open_i refl (sym (h.counted i) ∙ z) q;
    cleared = λ j d.
        all_ok-put s.state i skipped (plan.explicit j) (ground arith) (h.cleared j (ground arith));
    flying = λ j. ground (arith, h.flying j);
  }
    where
      open_i : is_open (s.state i) ≡ true
      open_i = ground arith

  pub take_out-count :
      (k x : ℕ) (xs : List ℕ) (j : ℕ)
      → count j (x ∷ xs) ≡ count j ((take_out k x xs).0 ∷ (take_out k x xs).1)
  take_out-count zero x xs j = refl
  take_out-count (suc k) x [] j = refl
  take_out-count (suc k) x (y ∷ ys) j = ground (arith, take_out-count k y ys j)

  pub complete-IsSound :
      (s : Scheduler) (c : Completion) (i : ℕ) (others : List ℕ)
      → IsSound plan s
      → ((j : ℕ) → count j s.in_flight ≡ count j (i ∷ others))
      → IsSound plan (complete plan c i others s)
  unfolding complete
  complete-IsSound s c i others h q = record {
    counted = λ j. counted_close s i ended s.ready j h open_i closed;
    awaited = release_all-queue (dependents plan.deps plan.total i) s.remaining s.ready h.awaited;
    begun = λ j p. begun_close s i j ended h open_i closed (h.begun i (ground (arith, run_i))) p;
    cleared = λ j d.
        all_ok-put s.state i ended (plan.explicit j) (ground (arith, run_i))
          (h.cleared j (dispatched j d));
    flying = λ j. ground (arith, h.flying j, q j, run_i);
  }
    where
      ended : ActionState
      ended = if is_success false c.outcome then ok else failed

      run_i : is_running (s.state i) ≡ true
      run_i = ground (arith, h.flying i, q i)

      open_i : is_open (s.state i) ≡ true
      open_i = ground (arith, run_i)

      closed : is_open ended ≡ false
      closed = ground arith

      dispatched :
          (j : ℕ) → is_dispatched (put i ended s.state j) ≡ true → is_dispatched (s.state j) ≡ true
      dispatched j d = elim (Bool-cases (i == j)) [
        | inl e ↦ let same : i ≡ j = ground arith in rw (← same) (ground (arith, run_i))
        | inr e ↦ ground arith
      ]
