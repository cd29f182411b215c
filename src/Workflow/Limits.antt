-- ===== src/Workflow/Limits.antt =====
-- The limits that `validate` enforces, stated on the workflow itself.
use tauri_connector.Json.{Value}
use tauri_connector.Map.{Map}
use tauri_connector.Workflow.Spec.{
  Condition, StepOp, click, fill, type_text, press, wait, query, tool, Step, WorkflowSpec, Serde,
}
use tauri_connector.Workflow.Validate.{
  check_condition, check_whole, check_op, check_step, check_steps, check_settings, check_inputs,
  validate, nonempty, budget, evidence, is_known, and_then, max_steps, max_deadline_ms,
}
use tauri_connector.Workflow.Late.{passed, value_of, not_refused, not_refused_last}
use tauri_connector.Prelude.{
  ℕ, ◌||◌, refuse_if, not, ◌≤◌, ◌≡◌, refl, String, false, Option, none, some, List, [], ◌∷◌, map,
  length, ltb, ◌==◌, is_empty, All, str_eq, eq_iff, arith, ok,
}
use tauri_connector.Workflow.Sizes.{nodes, height, check_condition-counts}

-- at most 100 conditions, at most 8 deep
abbrev pub IsSmall : Condition → Type 0
IsSmall c = (nodes c ≤ 100) × (height c ≤ 8)

abbrev pub IsSmallIfAny : Option Condition → Type 0
IsSmallIfAny none = Unit
IsSmallIfAny (some c) = IsSmall c

abbrev pub awaited : StepOp → Option Condition
awaited (wait c) = some c
awaited _ = none

abbrev pub IsInTime : Option ℕ → Type 0
IsInTime none = Unit
IsInTime (some t) = (1 ≤ t) × (t ≤ 300000)

abbrev pub IsBounded : Step → Type 0
IsBounded step =
    IsInTime step.timeout_ms × IsSmallIfAny step.expect × IsSmallIfAny (awaited step.op)

-- no id stands twice
abbrev pub AreDistinct : List String → Type 0
AreDistinct [] = Unit
AreDistinct (id ∷ ids) = (is_known id ids ≡ false) × AreDistinct ids

abbrev pub ids : List Step → List String
ids = map (λ step. step.id)

in_budget :
    (value most : ℕ) (name : String) → budget value most name ≡ ok tt → (1 ≤ value) × (value ≤ most)
unfolding budget
in_budget value most name h =
    let fits = not_refused_last (value == 0 || ltb most value) _ h in ground arith

in_time :
    (t : Option ℕ) → and_then t (λ t. budget t max_deadline_ms "timeoutMs") ≡ ok tt → IsInTime t
in_time none h = tt
in_time (some t) h = in_budget t max_deadline_ms "timeoutMs" h

module _ (serde : Serde) (inputs : Map Value) where
  whole-IsSmall :
      (seen : List String) (current : Option String) (c : Condition)
      → check_whole serde inputs seen current c ≡ ok tt
      → IsSmall c
  unfolding check_whole
  whole-IsSmall seen current c h =
      let (n, hc, _) = value_of (check_condition serde inputs seen current 1 c 0) _ tt h in
      let counts = check_condition-counts serde inputs seen current 1 c 0 n hc in ground arith

  expect-IsSmall :
      (seen : List String) (current : Option String) (c : Option Condition)
      → and_then c (check_whole serde inputs seen current) ≡ ok tt
      → IsSmallIfAny c
  expect-IsSmall seen current none h = tt
  expect-IsSmall seen current (some c) h = whole-IsSmall seen current c h

  awaited-IsSmall :
      (seen : List String) (op : StepOp)
      → check_op serde inputs seen op ≡ ok tt
      → IsSmallIfAny (awaited op)
  unfolding check_op
  awaited-IsSmall seen (wait c) h = whole-IsSmall seen none c h
  awaited-IsSmall seen (click _) h = tt
  awaited-IsSmall seen (query _ _) h = tt
  awaited-IsSmall seen (fill _ _) h = tt
  awaited-IsSmall seen (type_text _ _) h = tt
  awaited-IsSmall seen (press _ _) h = tt
  awaited-IsSmall seen (tool _ _ _) h = tt

  step-IsBounded :
      (seen : List String) (step : Step)
      → check_step serde inputs seen step ≡ ok tt
      → (is_known step.id seen ≡ false) × IsBounded step
  unfolding check_step
  step-IsBounded seen step h =
      let (_, h1) = passed (nonempty step.id "step id") _ tt h in
      let (fresh, h2) = not_refused (is_known step.id seen) _ _ tt h1 in
      let (_, h3) = passed (and_then step.window_id _) _ tt h2 in
      let (time, h4) = passed (and_then step.timeout_ms _) _ tt h3 in
      let (_, h5) = passed (and_then step.evidence evidence) _ tt h4 in
      let (ho, he) = passed (check_op serde inputs seen step.op) _ tt h5 in
      (
        fresh,
        (
          in_time step.timeout_ms time,
          expect-IsSmall seen (some step.id) step.expect he,
          awaited-IsSmall seen step.op ho,
        ),
      )

  abbrev AreFresh : List String → List Step → Type 0
  AreFresh seen = All (λ step. is_known step.id seen ≡ false)

  unseen :
      (id : String) (seen : List String) (steps : List Step)
      → AreFresh (id ∷ seen) steps
      → AreFresh seen steps × (is_known id (ids steps) ≡ false)
  unseen id seen [] h = (tt, refl)
  unseen id seen (step ∷ steps) h =
      ground (arith, unseen id seen steps, eq_iff id step.id, eq_iff step.id id)

  steps-IsBounded :
      (seen all_ids : List String) (steps : List Step)
      → check_steps serde inputs seen steps ≡ ok all_ids
      → AreFresh seen steps × AreDistinct (ids steps) × All IsBounded steps
  unfolding check_steps
  steps-IsBounded seen all_ids [] h = (tt, tt, tt)
  steps-IsBounded seen all_ids (step ∷ steps) h =
      let (h1, h2) = passed (check_step serde inputs seen step) _ all_ids h in
      let (fresh, bounded) = step-IsBounded seen step h1 in
      let (later, distinct, all_bounded) = steps-IsBounded (step.id ∷ seen) all_ids steps h2 in
      let (rest, new) = unseen step.id seen steps later in
      ((fresh, rest), (new, distinct), (bounded, all_bounded))

in_count :
    (steps : List Step)
    → (is_empty steps || ltb max_steps (length steps)) ≡ false
    → (1 ≤ length steps) × (length steps ≤ 100)
in_count [] h = absurd (cc)
in_count (step ∷ steps) h = ground arith

-- the settings of a workflow, as far as they bound what it does
abbrev pub SettingsAreBounded : WorkflowSpec → Type 0
SettingsAreBounded spec =
    (1 ≤ length spec.steps)
    × (length spec.steps ≤ 100)
    × (1 ≤ spec.deadline_ms)
    × (spec.deadline_ms ≤ 300000)
    × (1 ≤ spec.defaults.step_timeout_ms)
    × (spec.defaults.step_timeout_ms ≤ 300000)
    × (1 ≤ spec.defaults.locator_timeout_ms)
    × (spec.defaults.locator_timeout_ms ≤ 300000)
    × (10 ≤ spec.defaults.poll_interval_ms)
    × (spec.defaults.poll_interval_ms ≤ 1000)
    × (spec.defaults.failure_evidence_grace_ms ≤ 2000)

settings-bounded : (spec : WorkflowSpec) → check_settings spec ≡ ok tt → SettingsAreBounded spec
unfolding check_settings
settings-bounded spec h =
    let (_, h1) =
      passed
        (refuse_if
          (not (spec.schema_version == 1)
            || not (str_eq spec.mode "strict")
            || not (str_eq spec.schedule "sequential"))
          _)
        _ tt h in
    let (_, h2) = passed (nonempty spec.run_key "runKey") _ tt h1 in
    let (_, h3) = passed (nonempty spec.window_id "windowId") _ tt h2 in
    let (count, h4) =
      not_refused (is_empty spec.steps || ltb max_steps (length spec.steps)) _ _ tt h3 in
    let (deadline, h5) = passed (budget spec.deadline_ms _ _) _ tt h4 in
    let (step, h6) = passed (budget spec.defaults.step_timeout_ms _ _) _ tt h5 in
    let (locate, h7) = passed (budget spec.defaults.locator_timeout_ms _ _) _ tt h6 in
    let (poll, h8) = passed (budget spec.defaults.poll_interval_ms _ _) _ tt h7 in
    let (least, h9) = not_refused (ltb spec.defaults.poll_interval_ms 10) _ _ tt h8 in
    let (grace, _) = not_refused (ltb 2000 spec.defaults.failure_evidence_grace_ms) _ _ tt h9 in
    let (deadline_least, deadline_most) = in_budget spec.deadline_ms _ _ deadline in
    let (step_least, step_most) = in_budget spec.defaults.step_timeout_ms _ _ step in
    let (locate_least, locate_most) = in_budget spec.defaults.locator_timeout_ms _ _ locate in
    let (_, poll_most) = in_budget spec.defaults.poll_interval_ms _ _ poll in
    let (count_least, count_most) = in_count spec.steps count in
    (
      count_least,
      count_most,
      deadline_least,
      deadline_most,
      step_least,
      step_most,
      locate_least,
      locate_most,
      ground arith,
      poll_most,
      ground arith,
    )

-- A validated workflow has 1 to 100 steps, whose ids differ, and a deadline, a default
-- timeout for steps and one for locators of 1 to 300000 ms each; it polls every 10 to 1000 ms, with a failure grace of at most 2000 ms. Each step's own timeout, where
-- it has one, is 1 to 300000 ms, and the condition that a step expects or waits for, like the
-- goal, holds at most 100 conditions, at most 8 deep.
pub validate-IsBounded :
    (serde : Serde) (spec : WorkflowSpec)
    → validate serde spec ≡ ok tt
    → SettingsAreBounded spec
      × AreDistinct (ids spec.steps)
      × All IsBounded spec.steps
      × IsSmallIfAny spec.goal
unfolding validate
validate-IsBounded serde spec h =
    let (hs, h1) = passed (check_settings spec) _ tt h in
    let (_, h2) = passed (check_inputs serde spec.inputs) _ tt h1 in
    let (all_ids, h3, hg) = value_of (check_steps serde spec.inputs [] spec.steps) _ tt h2 in
    let (_, distinct, bounded) = steps-IsBounded serde spec.inputs [] all_ids spec.steps h3 in
    (
      settings-bounded spec hs,
      distinct,
      bounded,
      expect-IsSmall serde spec.inputs all_ids none spec.goal hg,
    )
