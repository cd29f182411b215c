-- ===== src/Batch/Report.antt =====
-- The report: a log entry for each action, and their counts.
use tauri_connector.Batch.Schedule.{
  ActionState, pending, running, ok, failed, skipped, ActionLog, Plan, Scheduler, never_ready,
  Completion, initial, is_pending, skip_action, skip_log, admit, pop_ready, complete, complete_next,
  tick, run,
}
use tauri_connector.Batch.Readiness.{is_ok, is_running, IsPlan}
use tauri_connector.Batch.Counting.{is_open, count}
use tauri_connector.Batch.Runs.{run-IsSound, initial-IsSound}
use tauri_connector.Prelude.{
  ℕ, zero, suc, ◌+◌, ◌≡◌, Bool, true, false, ◌&&◌, Option, none, some, List, [], ◌∷◌, ◌++◌, arith,
  refl, if◌then◌else◌, ◌==◌, keep, length, Bool-cases, Option-cases, inl, inr,
}

pub record BatchReport : Type 0 where
  pub success : Bool
  pub total : ℕ
  pub succeeded : ℕ
  pub failed : ℕ
  pub skipped : ℕ
  pub logs : List ActionLog

-- the loop over what is still pending at the end
unfoldable pub skip_pending : (ℕ → ActionState) → (ℕ → Option ActionLog) → ℕ → Option ActionLog
skip_pending state logs i = if is_pending (state i) then some (skip_log i never_ready) else logs i

-- `logs.into_iter().flatten().collect()`, over the first `n` slots
unfoldable pub collect : (ℕ → Option ActionLog) → ℕ → List ActionLog
collect logs zero = []
collect logs (suc n) = collect logs n ++ (elim (logs n) [ none ↦ [] | some l ↦ l ∷ [] ])

abbrev pub is_error : ActionState → Bool
is_error failed = true
is_error pending = false
is_error running = false
is_error ok = false
is_error skipped = false

abbrev pub is_skipped : ActionState → Bool
is_skipped skipped = true
is_skipped pending = false
is_skipped running = false
is_skipped ok = false
is_skipped failed = false

abbrev pub count_logs : (ActionState → Bool) → List ActionLog → ℕ
count_logs p logs = length (keep (λ l. p l.status) logs)

unfoldable pub report : Plan → Scheduler → BatchReport
unfolding skip_pending collect
report plan s =
    let logs = collect (skip_pending s.state s.logs) plan.total in
    record {
      success = count_logs is_error logs == 0 && count_logs is_skipped logs == 0;
      total = plan.total;
      succeeded = count_logs is_ok logs;
      failed = count_logs is_error logs;
      skipped = count_logs is_skipped logs;
      logs = logs;
    }

abbrev status_of : Option ActionLog → Option ActionState
status_of none = none
status_of (some l) = some l.status

-- the log of an action that has ended tells its state
HasLogs : Scheduler → Type 0
HasLogs s = (i : ℕ) → is_open (s.state i) ≡ false → status_of (s.logs i) ≡ some (s.state i)

module _ (plan : Plan) where
  pop_ready-HasLogs :
      (queue : List ℕ) (s s' : Scheduler)
      → HasLogs s
      → pop_ready plan queue s ≡ some s'
      → HasLogs s'
  unfolding pop_ready admit skip_action HasLogs
  pop_ready-HasLogs [] s s' h e j c = absurd (ground arith)
  pop_ready-HasLogs (i ∷ rest) s s' h e j c = ground (arith, h j)

  complete_next-HasLogs :
      (c : Completion) (flight : List ℕ) (s : Scheduler)
      → HasLogs s
      → HasLogs (complete_next plan c flight s)
  unfolding complete_next complete HasLogs
  complete_next-HasLogs c [] s h j o = h j o
  complete_next-HasLogs c (x ∷ xs) s h j o = ground (arith, h j)

  tick-HasLogs : (c : Completion) (s : Scheduler) → HasLogs s → HasLogs (tick plan c s)
  unfolding tick
  tick-HasLogs c s h = elim (Option-cases (pop_ready plan s.ready s)) [
    | inl e ↦ rw (e, tick) (complete_next-HasLogs c s.in_flight s h)
    | inr (s', e) ↦ rw (e, tick) (pop_ready-HasLogs s.ready s s' h e)
  ]

  run-HasLogs : (cs : List Completion) (s : Scheduler) → HasLogs s → HasLogs (run plan cs s)
  unfolding run
  run-HasLogs [] s h = h
  run-HasLogs (c ∷ cs) s h = run-HasLogs cs (tick plan c s) (tick-HasLogs c s h)

  initial-HasLogs : HasLogs (initial plan)
  unfolding initial HasLogs
  initial-HasLogs i c = absurd (ground arith)

  keep-append :
      (p : ActionLog → Bool) (xs ys : List ActionLog)
      → length (keep p (xs ++ ys)) ≡ length (keep p xs) + length (keep p ys)
  keep-append p [] ys = omega arith
  keep-append p (x ∷ xs) ys = ground (arith, keep-append p xs ys)

  -- a log in every slot, of one of the three kinds
  collect-counts :
      (logs : ℕ → Option ActionLog) (n : ℕ)
      → ((i : ℕ) → (l : ActionLog) × (logs i ≡ some l) × (is_open l.status ≡ false))
      → count_logs is_ok (collect logs n)
          + count_logs is_error (collect logs n)
          + count_logs is_skipped (collect logs n)
        ≡ n
  unfolding collect
  collect-counts logs zero h = omega arith
  collect-counts logs (suc n) h =
      let (l, e, o) = h n in
      rw e (
        ground (
          arith,
          collect-counts logs n h,
          keep-append (λ l. is_ok l.status) (collect logs n) (l ∷ []),
          keep-append (λ l. is_error l.status) (collect logs n) (l ∷ []),
          keep-append (λ l. is_skipped l.status) (collect logs n) (l ∷ []),
        ))

  -- In a well-formed plan, once no call is in flight, the report's counts of succeeded, failed and
  -- skipped actions add up to all actions.
  pub report_counts :
      (cs : List Completion)
      → IsPlan plan
      → (run plan cs (initial plan)).in_flight ≡ []
      → (report plan (run plan cs (initial plan))).succeeded
          + (report plan (run plan cs (initial plan))).failed
          + (report plan (run plan cs (initial plan))).skipped
        ≡ plan.total
  unfolding report
  report_counts cs sound landed =
      collect-counts (skip_pending s.state s.logs) plan.total (λ i. slot i)
    where
      s : Scheduler
      s = run plan cs (initial plan)

      logged : HasLogs s
      logged = run-HasLogs cs (initial plan) initial-HasLogs

      flown : (i : ℕ) → count i s.in_flight ≡ (if is_running (s.state i) then 1 else 0)
      flown = (run-IsSound plan sound cs (initial plan) (initial-IsSound plan sound)).flying

      slot :
          (i : ℕ)
          → (l : ActionLog) × (skip_pending s.state s.logs i ≡ some l) × (is_open l.status ≡ false)
      slot i = elim (Bool-cases (is_pending (s.state i))) [
        | inl e ↦ (skip_log i never_ready, unfold skip_pending in rw e refl, refl)
        | inr e ↦
            unfold skip_pending HasLogs in
            elim (Option-cases (s.logs i)) [
              | inl none_yet ↦ absurd (ground (arith, logged i, flown i, landed))
              | inr (l, there) ↦ (l, ground arith, ground (arith, logged i, flown i, landed))
            ]
      ]
