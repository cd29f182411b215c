-- ===== src/Batch/Ending.antt =====
-- The scheduler's loops end: each round lessens a weight.
use tauri_connector.Batch.Spec.{Edges}
use tauri_connector.Batch.Schedule.{
  ActionState, Plan, Scheduler, Completion, put, release_all, dependents, initial, indices,
  skip_action, admit, pop_ready, take_out, complete, complete_next, tick, run,
}
use tauri_connector.Batch.Readiness.{IsPlan, IsSound, is_running, take_out-count}
use tauri_connector.Batch.Counting.{is_open, count, open_count, count-dependents}
use tauri_connector.Batch.Runs.{initial-IsSound, tick-IsSound}
use tauri_connector.Batch.Limits.{length-take_out}
use tauri_connector.Prelude.{
  ℕ, zero, suc, ◌+◌, ◌-◌, ◌*◌, ◌≡◌, ◌≤◌, ◌<◌, true, none, some, List, [], ◌∷◌, ◌++◌, map, arith,
  refl, if◌then◌else◌, ltb, ◌==◌, keep, all, length, is_empty, length-append, Bool-cases,
  Option-cases, inl, inr, ◌⊎◌, length-keep-le,
}

-- v[0] + ... + v[n - 1]
abbrev pub sum : (ℕ → ℕ) → ℕ → ℕ
sum f zero = 0
sum f (suc n) = sum f n + f n

sum-put_outside : (f : ℕ → ℕ) (i x n : ℕ) → n ≤ i → sum (put i x f) n ≡ sum f n
sum-put_outside f i x zero h = refl
sum-put_outside f i x (suc n) h = ground (arith, sum-put_outside f i x n)

sum-put : (f : ℕ → ℕ) (i x n : ℕ) → i < n → sum (put i x f) n + f i ≡ sum f n + x
sum-put f i x zero h = absurd (omega arith)
sum-put f i x (suc n) h = elim (Bool-cases (i == n)) [
  | inl e ↦ let same : i ≡ n = ground arith in ground (arith, sum-put_outside f i x n)
  | inr e ↦ ground (arith, sum-put f i x n)
]

release_all-weight :
    (ds : List ℕ) (n : ℕ) (remaining : ℕ → ℕ) (queue : List ℕ)
    → all (λ d. ltb d n) ds ≡ true
    → ((d : ℕ) → count d ds ≤ remaining d)
    → length (release_all ds remaining queue).1 + sum (release_all ds remaining queue).0 n
      ≤ length queue + sum remaining n
unfolding release_all
release_all-weight [] n remaining queue b h = omega arith
release_all-weight (d ∷ ds) n remaining queue b h =
    let queue' = if remaining d - 1 == 0 then queue ++ d ∷ [] else queue in
    let rest =
      release_all-weight ds n (put d (remaining d - 1) remaining) queue' (ground arith)
        (λ x. ground (arith, h x)) in
    let one : 1 ≤ remaining d = ground (arith, h d) in
    let less : sum (put d (remaining d - 1) remaining) n + remaining d
        ≡ sum remaining n + (remaining d - 1) =
      sum-put remaining d (remaining d - 1) n (ground arith) in
    let longer : length queue' ≤ length queue + 1 = ground (arith, length-append queue (d ∷ [])) in
    omega arith

all-append_ltb :
    (n : ℕ) (xs ys : List ℕ)
    → all (λ d. ltb d n) xs ≡ true
    → all (λ d. ltb d n) ys ≡ true
    → all (λ d. ltb d n) (xs ++ ys) ≡ true
all-append_ltb n [] ys h k = k
all-append_ltb n (x ∷ xs) ys h k = ground (arith, all-append_ltb n xs ys)

all-map_const : (n k : ℕ) (ys : List ℕ) → k < n → all (λ d. ltb d n) (map (λ _. k) ys) ≡ true
all-map_const n k [] h = refl
all-map_const n k (y ∷ ys) h = ground (arith, all-map_const n k ys)

dependents-bounded :
    (deps : Edges) (m n i : ℕ) → m ≤ n → all (λ d. ltb d n) (dependents deps m i) ≡ true
unfolding dependents
dependents-bounded deps zero n i h = refl
dependents-bounded deps (suc m) n i h =
    all-append_ltb n (dependents deps m i) _ (dependents-bounded deps m n i (omega arith))
      (all-map_const n m (keep (λ x. x == i) (deps m)) (omega arith))

count-open :
    (state : ℕ → ActionState) (i : ℕ) (ds : List ℕ)
    → is_open (state i) ≡ true
    → count i ds ≤ open_count state ds
count-open state i [] h = omega arith
count-open state i (d ∷ ds) h = elim (Bool-cases (d == i)) [
  | inl e ↦
      let same : i ≡ d = ground arith in
      let open_d : is_open (state d) ≡ true = rw (← same) h in ground (arith, count-open state i ds)
  | inr e ↦ ground (arith, count-open state i ds)
]

length-indices : (n : ℕ) → length (indices n) ≡ n
unfolding indices
length-indices zero = refl
length-indices (suc n) = omega (arith, length-indices n, length-append (indices n) (n ∷ []))

module _ (plan : Plan) (plan-IsPlan : IsPlan plan) where
  abbrev pub weight : Scheduler → ℕ
  weight s = 2 * (length s.ready + sum s.remaining plan.total) + length s.in_flight

  -- no more counts are taken back than there are
  dependents-count :
      (s : Scheduler) (i d : ℕ)
      → IsSound plan s
      → is_open (s.state i) ≡ true
      → count d (dependents plan.deps plan.total i) ≤ s.remaining d
  dependents-count s i d h o = ground (
    arith,
    h.counted d,
    count-dependents plan.deps plan.total i d,
    count-open s.state i (plan.deps d) o,
  )

  released_weight :
      (s : Scheduler) (i : ℕ) (queue : List ℕ)
      → IsSound plan s
      → is_open (s.state i) ≡ true
      → length (release_all (dependents plan.deps plan.total i) s.remaining queue).1
          + sum (release_all (dependents plan.deps plan.total i) s.remaining queue).0 plan.total
        ≤ length queue + sum s.remaining plan.total
  released_weight s i queue h o =
      release_all-weight (dependents plan.deps plan.total i) plan.total s.remaining queue
        (dependents-bounded plan.deps plan.total plan.total i (omega arith))
        (λ d. dependents-count s i d h o)

  pop_ready-weight :
      (s s' : Scheduler) (queue : List ℕ)
      → IsSound plan s
      → s.ready ≡ queue
      → pop_ready plan queue s ≡ some s'
      → weight s' < weight s
  unfolding pop_ready admit skip_action
  pop_ready-weight s s' [] h q e = absurd (ground arith)
  pop_ready-weight s s' (i ∷ rest) h q e = ground (
    arith,
    released_weight s i [] h,
    length-append rest (release_all (dependents plan.deps plan.total i) s.remaining []).1,
    length-append s.in_flight (i ∷ []),
  )

  complete_next-weight :
      (c : Completion) (x : ℕ) (xs : List ℕ) (s : Scheduler)
      → IsSound plan s
      → s.in_flight ≡ x ∷ xs
      → weight (complete_next plan c (x ∷ xs) s) < weight s
  unfolding complete_next complete
  complete_next-weight c x xs s h q =
      let i = (take_out c.place x xs).0 in
      let run_i : is_running (s.state i) ≡ true =
        ground (arith, h.flying i, take_out-count plan plan-IsPlan c.place x xs i) in
      let open_i : is_open (s.state i) ≡ true = ground arith in
      let fewer : length (take_out c.place x xs).1 ≡ length xs =
        length-take_out plan c.place x xs in
      let before : length s.in_flight ≡ suc (length xs) = rw q refl in
      omega (arith, released_weight s i s.ready h open_i)

  -- nothing is left to do
  abbrev pub IsDone : Scheduler → Type 0
  IsDone s = (s.ready ≡ []) × (s.in_flight ≡ [])

  ready-nil :
      (queue : List ℕ) (s : Scheduler)
      → 1 ≤ plan.max_parallel
      → s.in_flight ≡ []
      → pop_ready plan queue s ≡ none
      → queue ≡ []
  unfolding pop_ready admit
  ready-nil [] s m q e = refl
  ready-nil (i ∷ rest) s m q e = absurd (ground arith)

  waits_or_IsDone :
      (c : Completion) (s : Scheduler) (flight : List ℕ)
      → 1 ≤ plan.max_parallel
      → IsSound plan s
      → pop_ready plan s.ready s ≡ none
      → s.in_flight ≡ flight
      → IsDone s ⊎ (weight (complete_next plan c flight s) < weight s)
  waits_or_IsDone c s [] m h e q = inl (ready-nil s.ready s m q e, q)
  waits_or_IsDone c s (x ∷ xs) m h e q = inr (complete_next-weight c x xs s h q)

  tick-progress :
      (c : Completion) (s : Scheduler)
      → 1 ≤ plan.max_parallel
      → IsSound plan s
      → IsDone s ⊎ (weight (tick plan c s) < weight s)
  unfolding tick
  tick-progress c s m h = elim (Option-cases (pop_ready plan s.ready s)) [
    | inr (s', e) ↦ inr (rw (e, tick) (pop_ready-weight s s' s.ready h refl e))
    | inl e ↦ rw (e, tick) (waits_or_IsDone c s s.in_flight m h e refl)
  ]

  tick-IsDone : (c : Completion) (s : Scheduler) → IsDone s → IsDone (tick plan c s)
  unfolding tick pop_ready complete_next
  tick-IsDone c s d = rw (d.0, tick) (rw (d.1, complete_next) (d.0, refl))

  run-IsDone : (cs : List Completion) (s : Scheduler) → IsDone s → IsDone (run plan cs s)
  unfolding run
  run-IsDone [] s d = d
  run-IsDone (c ∷ cs) s d = run-IsDone cs (tick plan c s) (tick-IsDone c s d)

  nil_of_length : (xs : List ℕ) → length xs ≤ 0 → xs ≡ []
  nil_of_length [] h = refl
  nil_of_length (x ∷ xs) h = absurd (omega arith)

  run_ends :
      (cs : List Completion) (s : Scheduler)
      → 1 ≤ plan.max_parallel
      → IsSound plan s
      → weight s ≤ length cs
      → IsDone (run plan cs s)
  unfolding run
  run_ends [] s m h w =
      (nil_of_length s.ready (omega arith), nil_of_length s.in_flight (omega arith))
  run_ends (c ∷ cs) s m h w = elim (tick-progress c s m h) [
    | inl d ↦ run-IsDone cs (tick plan c s) (tick-IsDone c s d)
    | inr lt ↦ run_ends cs (tick plan c s) m (tick-IsSound plan plan-IsPlan c s h) (omega arith)
  ]

  -- In a well-formed plan that allows at least one call at a time, after at least twice as many
  -- rounds as it has actions and edges, nothing is ready and no call runs, whatever the calls come
  -- to and in whatever order they end.
  pub batch_ends :
      (cs : List Completion)
      → 1 ≤ plan.max_parallel
      → 2 * (plan.total + sum (λ i. length (plan.deps i)) plan.total) ≤ length cs
      → ((run plan cs (initial plan)).ready ≡ []) × ((run plan cs (initial plan)).in_flight ≡ [])
  batch_ends cs m enough = run_ends cs (initial plan) m (initial-IsSound plan plan-IsPlan) (
      unfold initial in
      omega (
        arith,
        length-indices plan.total,
        length-keep-le (λ i. is_empty (plan.deps i)) (indices plan.total),
      ))
