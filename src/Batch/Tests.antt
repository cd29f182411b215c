-- ===== src/Batch/Tests.antt =====
-- The scheduler on small batches.
use tauri_connector.Json.{Value, null, str, obj, end, field}
use tauri_connector.Outcome.Facts.{ExecutionOutcome, completed, possible, failed_check}
use tauri_connector.Batch.Outcomes.{compact_tool_outcome}
use tauri_connector.Batch.Ids.{log_id}
use tauri_connector.Batch.Spec.{
  BatchMode, sequential, parallel, ActionSpec, BatchSpec, contains, explicit_deps, all_deps,
  dependency_edges,
}
use tauri_connector.Batch.Schedule
use tauri_connector.Batch.Schedule.{
  Plan, Scheduler, Completion, running, pending, initial, run, pop_ready, admit, complete_next,
}
use tauri_connector.Batch.Counting.{is_open}
use tauri_connector.Batch.Readiness.{is_dispatched, is_ok}
use tauri_connector.Batch.Runs.{dispatch_order}
use tauri_connector.Batch.Limits.{run-parallel, nothing_after_failure}
use tauri_connector.Batch.Plans.{plan_of, plan_of-IsPlan}
use tauri_connector.Batch.Edges.{is_named, is_previous, contains-dependency_edges}
use tauri_connector.Batch.Ending.{batch_ends}
use tauri_connector.Batch.Report.{report, report_counts}
use tauri_connector.Prelude.{
  ◌||◌, codes, ◌+◌, ◌≡◌, ◌≤◌, List, [], ◌∷◌, true, false, not, none, some, refl, arith, all, length,
  String,
}

abbrev action : String → List String → ActionSpec
action name deps = record {
  id = some name;
  tool = "webview_interact";
  args = null;
  depends_on = deps;
  timeout_ms = none;
  omit_result = false;
}

abbrev batch : BatchMode → BatchSpec
batch mode = record {
  mode = mode;
  stop_on_error = true;
  max_parallel = some 2;
  timeout_ms = none;
  save = none;
  actions = action "a" [] ∷ action "b" ("a" ∷ []) ∷ action "c" [] ∷ [];
}

abbrev plan : BatchMode → Plan
plan mode = plan_of (batch mode)

abbrev ends_well : Completion
ends_well = record {
  place = 0;
  outcome = completed null possible;
  started_at_ms = 1;
  duration_ms = 2;
}

abbrev ends_badly : Completion
ends_badly = record ends_well {
  outcome = record (completed null possible) { verification = failed_check };
}

abbrev four_rounds : List Completion
four_rounds = ends_well ∷ ends_well ∷ ends_well ∷ ends_well ∷ []

-- two starts, then the first call ends and its dependent starts
b_is_running : (run (plan parallel) four_rounds (initial (plan parallel))).state 1 ≡ running
unfolding plan_of dependency_edges all_deps explicit_deps run pop_ready admit complete_next
    Schedule.complete completed initial
b_is_running = refl

dispatch_order_example :
    (all
        (λ d. is_ok ((run (plan parallel) four_rounds (initial (plan parallel))).state d))
        ((plan parallel).explicit 1)
      ≡ true)
    × (all
          (λ d. not (is_open ((run (plan parallel) four_rounds (initial (plan parallel))).state d)))
          ((plan parallel).deps 1)
        ≡ true)
dispatch_order_example =
    dispatch_order (plan parallel) (plan_of-IsPlan (batch parallel)) four_rounds 1
      (rw b_is_running refl)

run-parallel_example :
    length (run (plan parallel) four_rounds (initial (plan parallel))).in_flight
    ≤ (plan parallel).max_parallel
unfolding initial plan_of
run-parallel_example =
    run-parallel (plan parallel) four_rounds (initial (plan parallel)) (omega arith)

abbrev failed_round : List Completion
failed_round = ends_well ∷ ends_badly ∷ []

-- the first action of a sequential batch has failed; the third waits
nothing_after_failure_example :
    is_dispatched (
      (run
          (plan sequential)
          four_rounds
          (run (plan sequential) failed_round (initial (plan sequential)))).state
        2)
    ≡ false
unfolding plan_of dependency_edges all_deps explicit_deps run pop_ready admit complete_next
    Schedule.complete completed initial
nothing_after_failure_example =
    nothing_after_failure (plan sequential) failed_round four_rounds 2 0
      (plan_of-IsPlan (batch sequential)) refl refl refl

contains-dependency_edges_example :
    (contains 0 ((dependency_edges (batch sequential)).1 1)
      ≡ is_named (batch sequential).actions ("a" ∷ []) 0)
    × (contains 0 ((dependency_edges (batch sequential)).0 1)
        ≡ (is_named (batch sequential).actions ("a" ∷ []) 0 || is_previous sequential 1 0))
contains-dependency_edges_example =
    contains-dependency_edges (batch sequential) 1 0 (action "b" ("a" ∷ [])) refl

abbrev rounds : List Completion
rounds =
    ends_well ∷ ends_well ∷ ends_well ∷ ends_well ∷ ends_well ∷ ends_well ∷ ends_well ∷ ends_well
    ∷ []

landed : (run (plan parallel) rounds (initial (plan parallel))).in_flight ≡ []
unfolding plan_of dependency_edges all_deps explicit_deps
landed =
    (batch_ends (plan parallel) (plan_of-IsPlan (batch parallel)) rounds (omega arith)
      (omega arith)).1

batch_ends_example :
    ((run (plan parallel) rounds (initial (plan parallel))).ready ≡ [])
    × ((run (plan parallel) rounds (initial (plan parallel))).in_flight ≡ [])
unfolding plan_of dependency_edges all_deps explicit_deps
batch_ends_example =
    batch_ends (plan parallel) (plan_of-IsPlan (batch parallel)) rounds (omega arith) (omega arith)

report_counts_example :
    (report (plan parallel) (run (plan parallel) rounds (initial (plan parallel)))).succeeded
      + (report (plan parallel) (run (plan parallel) rounds (initial (plan parallel)))).failed
      + (report (plan parallel) (run (plan parallel) rounds (initial (plan parallel)))).skipped
    ≡ (plan parallel).total
report_counts_example =
    report_counts (plan parallel) rounds (plan_of-IsPlan (batch parallel)) landed

abbrev screenshot : ExecutionOutcome
screenshot =
    completed
      (obj (
        field "base64" (str "aGk=") (
          field "artifact" (obj (field "id" (str "shot-1") (field "path" (str "/tmp/a.png") end)))
            end)))
      possible

-- the image of a saved screenshot gives way to a reference
compacted : compact_tool_outcome "webview_screenshot" screenshot ≡ record screenshot {
  data_value = obj (
      field "artifact" (obj (field "id" (str "shot-1") (field "path" (str "/tmp/a.png") end))) end);
  evidence_refs = "shot-1" ∷ [];
}
unfolding compact_tool_outcome completed
compacted = refl

abbrev reported_error : Value
reported_error = obj (field "error" (str "boom") end)

abbrev unnamed : ActionSpec
unnamed = record (action "a0" []) { id = none }

-- "a0" is taken, so the first action shows as "_a0"
nudged : log_id (unnamed ∷ action "a0" [] ∷ []) 0 unnamed ≡ some (codes "_a0")
unfolding log_id
nudged = refl
