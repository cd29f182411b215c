-- ===== src/Workflow/Sizes.antt =====
-- validate.rs, `condition`: how many conditions it counts, and how deep it goes.
use tauri_connector.Json.{Value}
use tauri_connector.Map.{Map}
use tauri_connector.Outcome.Facts.{WorkflowError}
use tauri_connector.Workflow.Spec.{
  Condition, element, value_equals, text_contains, attribute_equals, result, all_of, any_of,
  Conditions, no_more, also, Serde,
}
use tauri_connector.Workflow.Validate.{
  count_node, check_condition, check_conditions, check_locator, check_pair, check_result, attribute,
  max_condition_nodes, max_condition_depth,
}
use tauri_connector.Workflow.Late.{passed, value_of, not_refused}
use tauri_connector.Prelude.{
  ℕ, suc, if◌then◌else◌, ◌||◌, ◌+◌, ◌≤◌, ◌≡◌, String, Option, List, ltb, arith, Result, ok, ◌>>=◌,
  ◌>>◌,
}

abbrev larger : ℕ → ℕ → ℕ
larger a b = if ltb a b then b else a

-- the conditions in a condition, with itself, and how deep they nest
unfoldable mutual
  pub nodes : Condition → ℕ
  nodes (all_of cs) = suc (all_nodes cs)
  nodes (any_of cs) = suc (all_nodes cs)
  nodes (element _ _) = 1
  nodes (value_equals _ _) = 1
  nodes (text_contains _ _) = 1
  nodes (attribute_equals _ _ _) = 1
  nodes (result _ _ _ _) = 1

  pub all_nodes : Conditions → ℕ
  all_nodes no_more = 0
  all_nodes (also c cs) = nodes c + all_nodes cs

unfoldable mutual
  pub height : Condition → ℕ
  height (all_of cs) = suc (all_heights cs)
  height (any_of cs) = suc (all_heights cs)
  height (element _ _) = 1
  height (value_equals _ _) = 1
  height (text_contains _ _) = 1
  height (attribute_equals _ _ _) = 1
  height (result _ _ _ _) = 1

  pub all_heights : Conditions → ℕ
  all_heights no_more = 0
  all_heights (also c cs) = larger (height c) (all_heights cs)

counted :
    (depth before after : ℕ)
    → count_node depth before ≡ ok after
    → (after ≡ before + 1) × (after ≤ 100) × (depth ≤ 8)
unfolding count_node
counted depth before after h =
    let (small, h1) =
      not_refused (ltb max_condition_depth depth || ltb max_condition_nodes (before + 1)) _
        (ok (before + 1)) after h in
    let same : before + 1 ≡ after = cc in ground arith

-- a condition that holds no others
counted_once :
    (depth before after : ℕ) (check : Result WorkflowError (Unit {0}))
    → (count_node depth before >>= λ n. check >> ok n) ≡ ok after
    → (after ≡ before + 1) × (after ≤ 100) × (depth + 1 ≤ 9)
counted_once depth before after check h =
    let (m, hn, h1) = value_of (count_node depth before) _ after h in
    let same : m ≡ after = let (_, e) = passed check (ok m) after h1 in cc in
    let now = counted depth before m hn in ground arith

module _ (serde : Serde) (inputs : Map Value) (seen : List String) where
  mutual
    unfolding check_condition check_conditions nodes all_nodes height all_heights

    pub check_condition-counts :
        (current : Option String) (depth : ℕ) (c : Condition) (before after : ℕ)
        → check_condition serde inputs seen current depth c before ≡ ok after
        → (after ≡ before + nodes c) × (after ≤ 100) × (depth + height c ≤ 9)
    check_condition-counts current depth (element target state) before after h =
        counted_once depth before after (check_locator serde inputs seen 1 target) h
    check_condition-counts current depth (value_equals target e) before after h =
        counted_once depth before after (check_pair serde inputs seen target e) h
    check_condition-counts current depth (text_contains target e) before after h =
        counted_once depth before after (check_pair serde inputs seen target e) h
    check_condition-counts current depth (attribute_equals target name e) before after h =
        let (m, hn, h1) = value_of (count_node depth before) _ after h in
        let (_, h2) = passed (check_pair serde inputs seen target e) _ after h1 in
        counted_once depth before after (attribute name) (rw hn h2)
    check_condition-counts current depth (result step pointer operator expected) before after h =
        counted_once depth before after
          (check_result serde inputs seen current step pointer operator expected) h
    check_condition-counts current depth (all_of cs) before after h =
        let (m, hn, h1) = value_of (count_node depth before) _ after h in
        let (_, h2) = passed _ _ after h1 in
        let now = counted depth before m hn in
        let rest = check_conditions-counts current (depth + 1) cs m after h2 in ground arith
    check_condition-counts current depth (any_of cs) before after h =
        let (m, hn, h1) = value_of (count_node depth before) _ after h in
        let (_, h2) = passed _ _ after h1 in
        let now = counted depth before m hn in
        let rest = check_conditions-counts current (depth + 1) cs m after h2 in ground arith

    check_conditions-counts :
        (current : Option String) (depth : ℕ) (cs : Conditions) (before after : ℕ)
        → check_conditions serde inputs seen current depth cs before ≡ ok after
        → (after ≡ before + all_nodes cs)
          × (before ≤ 100 → after ≤ 100)
          × (depth ≤ 9 → depth + all_heights cs ≤ 9)
    check_conditions-counts current depth no_more before after h = ground arith
    check_conditions-counts current depth (also c cs) before after h =
        let (m, hc, h1) =
          value_of (check_condition serde inputs seen current depth c before) _ after h in
        let first = check_condition-counts current depth c before m hc in
        let rest = check_conditions-counts current depth cs m after h1 in ground arith
