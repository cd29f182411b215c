-- ===== src/Workflow/Late.antt =====
-- The parts of a step that `validate` has checked: which errors resolving them can still have.
use tauri_connector.Json
use tauri_connector.Json.{Value}
use tauri_connector.Map
use tauri_connector.Map.{Map}
use tauri_connector.Outcome.Facts.{ExecutionOutcome, WorkflowError}
use tauri_connector.Workflow.Spec.{
  ValueExpr, literal, from_input, from_step, EntityLocator, Locator, locator, Scope, no_scope,
  scoped, Condition, element, value_equals, text_contains, attribute_equals, ResultOperator, result,
  all_of, any_of, Conditions, no_more, also, Serde,
}
use tauri_connector.Workflow.Exprs.{
  lookup, resolve, resolve_expr, resolve_name, resolve_entity, resolve_locator, resolve_scope,
  resolve_pair, resolve_expected, resolve_condition, resolve_conditions, resolve_target, or_fail,
  resolve_expect, input_missing, exceeds, path_missing, value_too_large, not_a_string,
  blank_identity, step_too_large, max_binding_bytes, is_blank_string, succeeded, validate_pointer,
}
use tauri_connector.Workflow.Validate.{
  missing, nonempty, attribute, is_known, and_then, check_input, check_expr, check_entity,
  check_locator, check_scope, check_pair, check_result, count_node, check_condition,
  check_conditions, check_whole,
}
use tauri_connector.Prelude.{
  ℕ, ◌+◌, String, ◌≡◌, refl, Bool, true, false, not, ◌&&◌, Option, none, some, List, arith, Result,
  ok, err, ◌>>=◌, ◌>>◌, refuse_if, Fares,
}

-- A passed sequence of checks has passed each.
pub passed {ℓ} :
    {B : Type ℓ} (m : Result WorkflowError (Unit {0})) (k : Result WorkflowError B) (b : B)
    → (m >> k) ≡ ok b
    → (m ≡ ok tt) × (k ≡ ok b)
passed (ok tt) k b h = (refl, h)
passed (err e) k b h = cc

pub value_of {ℓ κ} :
    {A : Type ℓ} {B : Type κ} (m : Result WorkflowError A) (k : A → Result WorkflowError B) (b : B)
    → (m >>= k) ≡ ok b
    → (a : A) × (m ≡ ok a) × (k a ≡ ok b)
value_of (ok a) k b h = (a, refl, h)
value_of (err e) k b h = cc

pub not_refused {ℓ} :
    {B : Type ℓ} (wrong : Bool) (e : WorkflowError) (k : Result WorkflowError B) (b : B)
    → (refuse_if wrong e >> k) ≡ ok b
    → (wrong ≡ false) × (k ≡ ok b)
not_refused true e k b h = cc
not_refused false e k b h = (refl, h)

pub not_refused_last :
    (wrong : Bool) (e : WorkflowError) → refuse_if wrong e ≡ ok tt → wrong ≡ false
not_refused_last true e h = cc
not_refused_last false e h = refl

-- What can still go wrong in resolving a checked step: a result has no such path, a value is not a
-- string, an identity is blank, or a value or the whole step is too large.
pub data IsLate : WorkflowError → Type 0 where
  path_gone : IsLate path_missing
  too_large : IsLate value_too_large
  no_string : IsLate not_a_string
  no_identity : IsLate blank_identity
  step_large : IsLate step_too_large

abbrev pub Binds {ℓ} : {A : Type ℓ} → Result WorkflowError A → Type 0
Binds r = Fares IsLate (λ _. Unit) r

pub then {ℓ κ} :
    {A : Type ℓ} {B : Type κ} (m : Result WorkflowError A) (k : A → Result WorkflowError B)
    → Binds m
    → ((a : A) → Binds (k a))
    → Binds (m >>= k)
then (ok a) k h next = next a
then (err e) k h next = h

pub unless {ℓ} :
    {B : Type ℓ} (wrong : Bool) (e : WorkflowError) (k : Result WorkflowError B)
    → IsLate e
    → Binds k
    → Binds (refuse_if wrong e >> k)
unless true e k late h = late
unless false e k late h = h

-- A known step has an outcome that has succeeded.
abbrev pub AreDone : List String → Map ExecutionOutcome → Type 0
AreDone seen outcomes =
    (id : String)
    → is_known id seen ≡ true
    → (o : ExecutionOutcome) × (succeeded (Map.get id outcomes) ≡ some o)

module _ (serde : Serde) (inputs : Map Value) (seen : List String) (outcomes : Map ExecutionOutcome)
    (done : AreDone seen outcomes) where
  path_late : (found : Option Value) → Binds (or_fail found path_missing)
  path_late none = path_gone
  path_late (some v) = tt

  input_late :
      (string non_empty : Bool) (found : Option Value)
      → check_input serde inputs seen string non_empty found ≡ ok tt
      → Binds (or_fail found input_missing)
  input_late string non_empty none h = absurd (cc)
  input_late string non_empty (some v) h = tt

  lookup_late :
      (string non_empty : Bool) (e : ValueExpr)
      → check_expr serde inputs seen string non_empty e ≡ ok tt
      → Binds (lookup serde inputs outcomes e)
  unfolding lookup check_expr
  lookup_late string non_empty (literal v) h = tt
  lookup_late string non_empty (from_input key) h =
      input_late string non_empty (Map.get key inputs) (passed (nonempty key "input key") _ tt h).1
  lookup_late string non_empty (from_step step pointer) h =
      let (sound, rest) = passed (validate_pointer pointer) _ tt h in
      let known =
        not_refused_last (not (is_known step seen))
          (missing "Step binding must reference a previous step") rest in
      let (o, there) = done step (ground arith) in
      rw (sound, there) (path_late (serde.pointer o.data_value pointer))

  pub value_late :
      (string non_empty : Bool) (e : ValueExpr)
      → check_expr serde inputs seen string non_empty e ≡ ok tt
      → Binds (resolve serde inputs outcomes e)
  unfolding resolve
  value_late string non_empty e h =
      then (lookup serde inputs outcomes e) _ (lookup_late string non_empty e h)
        (λ v. unless (exceeds (serde.size v) max_binding_bytes) value_too_large (ok v) too_large tt)

  pub expr_late :
      (string non_empty : Bool) (e : ValueExpr)
      → check_expr serde inputs seen string non_empty e ≡ ok tt
      → Binds (resolve_expr serde inputs outcomes string non_empty e)
  unfolding resolve_expr
  expr_late string non_empty e h =
      then (resolve serde inputs outcomes e) _ (value_late string non_empty e h) (λ v.
        unless (string && not (Json.is_string v)) not_a_string _ no_string
          (unless (non_empty && is_blank_string v) blank_identity (ok (literal v)) no_identity tt))

  name_late :
      (name : Option ValueExpr)
      → and_then name (check_expr serde inputs seen true false) ≡ ok tt
      → Binds (resolve_name serde inputs outcomes name)
  name_late none h = tt
  name_late (some e) h =
      then (resolve_expr serde inputs outcomes true false e) _ (expr_late true false e h) (λ e'. tt)

  expected_late :
      (expected : Option ValueExpr)
      → and_then expected (check_expr serde inputs seen false false) ≡ ok tt
      → Binds (resolve_expected serde inputs outcomes expected)
  expected_late none h = tt
  expected_late (some e) h =
      then (resolve_expr serde inputs outcomes false false e) _ (expr_late false false e h)
        (λ e'. tt)

  entity_late :
      (entity : Option EntityLocator)
      → and_then entity (check_entity serde inputs seen) ≡ ok tt
      → Binds (resolve_entity serde inputs outcomes entity)
  entity_late none h = tt
  entity_late (some entity) h =
      then (resolve_expr serde inputs outcomes true true entity.value) _
        (expr_late true true entity.value (passed (attribute entity.attribute) _ tt h).1) (λ e'. tt)

  mutual
    unfolding resolve_locator resolve_scope check_locator check_scope

    pub locator_late :
        (depth : ℕ) (l : Locator)
        → check_locator serde inputs seen depth l ≡ ok tt
        → Binds (resolve_locator serde inputs outcomes l)
    locator_late depth (locator by value name scope entity) h =
        let (_, h1) = passed _ _ tt h in
        let (hv, h2) = passed (check_expr serde inputs seen true true value) _ tt h1 in
        let (hn, h3) = passed (and_then name _) _ tt h2 in
        let (hs, he) = passed (check_scope serde inputs seen depth scope) _ tt h3 in
        then (resolve_expr serde inputs outcomes true true value) _ (expr_late true true value hv)
          (λ value'. then (resolve_name serde inputs outcomes name) _ (name_late name hn) (λ name'.
            then (resolve_scope serde inputs outcomes scope) _ (scope_late depth scope hs)
              (λ scope'.
                then (resolve_entity serde inputs outcomes entity) _ (entity_late entity he)
                  (λ entity'. tt))))

    scope_late :
        (depth : ℕ) (s : Scope)
        → check_scope serde inputs seen depth s ≡ ok tt
        → Binds (resolve_scope serde inputs outcomes s)
    scope_late depth no_scope h = tt
    scope_late depth (scoped l) h =
        then (resolve_locator serde inputs outcomes l) _ (locator_late (depth + 1) l h) (λ l'. tt)

  pub pair_late {ℓ} :
      {A : Type ℓ} (target : Locator) (e : ValueExpr) (make : Locator → ValueExpr → A)
      → check_pair serde inputs seen target e ≡ ok tt
      → Binds (resolve_pair serde inputs outcomes target e make)
  unfolding resolve_pair check_pair
  pair_late target e make h =
      let (hl, he) = passed (check_locator serde inputs seen 1 target) _ tt h in
      then (resolve_locator serde inputs outcomes target) _ (locator_late 1 target hl) (λ l'.
        then (resolve_expr serde inputs outcomes true false e) _ (expr_late true false e he)
          (λ e'. tt))

  result_expected :
      (current : Option String) (step pointer : String) (operator : ResultOperator)
      (expected : Option ValueExpr)
      → check_result serde inputs seen current step pointer operator expected ≡ ok tt
      → and_then expected (check_expr serde inputs seen false false) ≡ ok tt
  unfolding check_result
  result_expected current step pointer operator expected h =
      let (_, h1) = passed (validate_pointer pointer) _ tt h in
      let (_, h2) = passed _ _ tt h1 in (passed _ _ tt h2).1

  mutual
    unfolding resolve_condition resolve_conditions check_condition check_conditions

    condition_late :
        (current : Option String) (depth : ℕ) (c : Condition) (nodes n : ℕ)
        → check_condition serde inputs seen current depth c nodes ≡ ok n
        → Binds (resolve_condition serde inputs outcomes c)
    condition_late current depth (element target state) nodes n h =
        let (m, _, h1) = value_of (count_node depth nodes) _ n h in
        let (hl, _) = passed (check_locator serde inputs seen 1 target) _ n h1 in
        then (resolve_locator serde inputs outcomes target) _ (locator_late 1 target hl) (λ l'. tt)
    condition_late current depth (value_equals target e) nodes n h =
        let (m, _, h1) = value_of (count_node depth nodes) _ n h in
        pair_late target e value_equals (passed (check_pair serde inputs seen target e) _ n h1).0
    condition_late current depth (text_contains target e) nodes n h =
        let (m, _, h1) = value_of (count_node depth nodes) _ n h in
        pair_late target e text_contains (passed (check_pair serde inputs seen target e) _ n h1).0
    condition_late current depth (attribute_equals target name e) nodes n h =
        let (m, _, h1) = value_of (count_node depth nodes) _ n h in
        pair_late target e (λ l' e'. attribute_equals l' name e')
          (passed (check_pair serde inputs seen target e) _ n h1).0
    condition_late current depth (result step pointer operator expected) nodes n h =
        let (m, _, h1) = value_of (count_node depth nodes) _ n h in
        let (hr, _) =
          passed (check_result serde inputs seen current step pointer operator expected) _ n h1 in
        then (resolve_expected serde inputs outcomes expected) _
          (expected_late expected (result_expected current step pointer operator expected hr))
          (λ e'. tt)
    condition_late current depth (all_of cs) nodes n h =
        let (m, _, h1) = value_of (count_node depth nodes) _ n h in
        let (_, h2) = passed _ _ n h1 in
        then (resolve_conditions serde inputs outcomes cs) _
          (conditions_late current (depth + 1) cs m n h2) (λ cs'. tt)
    condition_late current depth (any_of cs) nodes n h =
        let (m, _, h1) = value_of (count_node depth nodes) _ n h in
        let (_, h2) = passed _ _ n h1 in
        then (resolve_conditions serde inputs outcomes cs) _
          (conditions_late current (depth + 1) cs m n h2) (λ cs'. tt)

    conditions_late :
        (current : Option String) (depth : ℕ) (cs : Conditions) (nodes n : ℕ)
        → check_conditions serde inputs seen current depth cs nodes ≡ ok n
        → Binds (resolve_conditions serde inputs outcomes cs)
    conditions_late current depth no_more nodes n h = tt
    conditions_late current depth (also c cs) nodes n h =
        let (m, hc, h1) =
          value_of (check_condition serde inputs seen current depth c nodes) _ n h in
        then (resolve_condition serde inputs outcomes c) _
          (condition_late current depth c nodes m hc)
          (λ c'.
            then (resolve_conditions serde inputs outcomes cs) _
              (conditions_late current depth cs m n h1) (λ cs'. tt))

  pub whole_late :
      (current : Option String) (c : Condition)
      → check_whole serde inputs seen current c ≡ ok tt
      → Binds (resolve_condition serde inputs outcomes c)
  unfolding check_whole
  whole_late current c h =
      let (n, hc, _) = value_of (check_condition serde inputs seen current 1 c 0) _ tt h in
      condition_late current 1 c 0 n hc

  pub expect_late :
      (current : Option String) (expect : Option Condition)
      → and_then expect (check_whole serde inputs seen current) ≡ ok tt
      → Binds (resolve_expect serde inputs outcomes expect)
  expect_late current none h = tt
  expect_late current (some c) h =
      then (resolve_condition serde inputs outcomes c) _ (whole_late current c h) (λ c'. tt)

  pub target_late :
      (target : Option Locator)
      → and_then target (check_locator serde inputs seen 1) ≡ ok tt
      → Binds (resolve_target serde inputs outcomes target)
  target_late none h = tt
  target_late (some l) h =
      then (resolve_locator serde inputs outcomes l) _ (locator_late 1 l h) (λ l'. tt)
