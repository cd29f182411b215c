-- ===== src/Workflow/Validate.antt =====
-- validate.rs: `WorkflowSpec::validate` and the checks of its parts.
use Prim.Native.String.{len}
use tauri_connector.Json
use tauri_connector.Json.{Value}
use tauri_connector.Map
use tauri_connector.Map.{Map}
use tauri_connector.Outcome.Facts.{WorkflowError, new_error}
use tauri_connector.Batch.Ids.{decimal}
use tauri_connector.Workflow.Spec.{
  ValueExpr, literal, from_input, from_step, EntityLocator, Locator, locator, Scope, no_scope,
  scoped, value_query, text_query, attribute_query, Condition, element, value_equals, text_contains,
  attribute_equals, ResultOperator, eq, exists, non_empty_string, result, all_of, any_of,
  Conditions, no_more, also, StepOp, click, fill, type_text, press, wait, query, tool,
  EvidencePolicy, Step, WorkflowSpec, Serde,
}
use tauri_connector.Workflow.Exprs.{validate_pointer, exceeds, max_binding_bytes, is_blank_string}
use tauri_connector.Prelude.{
  ℕ, suc, ◌+◌, String, Bool, true, false, not, ◌&&◌, ◌||◌, Option, none, some, List, [], ◌∷◌, ◌++◌,
  str_eq, if◌then◌else◌, ltb, leb, ◌==◌, any, all, length, is_empty, is_blank, codes, Text,
  strip_prefix, Result, ok, err, ◌>>=◌, ◌>>◌, refuse_if,
}

abbrev pub max_steps : ℕ
max_steps = 100

abbrev pub max_deadline_ms : ℕ
max_deadline_ms = 300000

abbrev pub max_condition_depth : ℕ
max_condition_depth = 8

abbrev pub max_condition_nodes : ℕ
max_condition_nodes = 100

abbrev pub max_locator_depth : ℕ
max_locator_depth = 4

unfoldable pub invalid : String → WorkflowError
invalid message = new_error "invalid_spec" "validating" (codes message)

unfoldable pub unsupported : String → WorkflowError
unsupported message = new_error "unsupported_feature" "validating" (codes message)

unfoldable pub missing : String → WorkflowError
missing message = new_error "binding_missing" "validating" (codes message)

unfoldable pub mismatch : String → WorkflowError
mismatch message = new_error "binding_type_mismatch" "validating" (codes message)

unfoldable pub nonempty : String → String → Result WorkflowError (Unit {0})
nonempty value label = refuse_if (is_blank value || ltb 1024 (len value)) (
    new_error "invalid_spec" "validating"
      (codes label ++ codes " must be non-empty and at most 1024 bytes"))

abbrev pub print_number : ℕ → Text
print_number n = decimal (suc n) n

unfoldable pub budget : ℕ → ℕ → String → Result WorkflowError (Unit {0})
budget value most name = refuse_if (value == 0 || ltb most value) (
    new_error "invalid_spec" "validating"
      (codes name ++ codes " must be between 1 and " ++ print_number most))

unfoldable pub evidence : EvidencePolicy → Result WorkflowError (Unit {0})
evidence policy = do
  refuse_if (not (str_eq policy.success "summary") || not (str_eq policy.failure "scoped"))
      (unsupported "Only summary success and scoped failure evidence are supported")
  refuse_if (not (leb 1024 policy.max_inline_bytes && leb policy.max_inline_bytes 65536))
      (invalid "maxInlineBytes must be between 1024 and 65536")

abbrev pub is_name_char : ℕ → Bool
is_name_char c =
    leb b'0' c && leb c b'9'
    || leb b'a' c && leb c b'z'
    || leb b'A' c && leb c b'Z'
    || c == b'-'
    || c == b'_'
    || c == b':'
    || c == b'.'

unfoldable pub attribute : String → Result WorkflowError (Unit {0})
attribute name =
    refuse_if (is_empty (codes name) || ltb 256 (len name) || not (all is_name_char (codes name)))
      (invalid "Invalid attribute name")

abbrev pub is_known : String → List String → Bool
is_known name = any (λ id. str_eq id name)

abbrev pub and_then {ℓ} :
    {A : Type ℓ}
    → Option A
    → (A → Result WorkflowError (Unit {0}))
    → Result WorkflowError (Unit {0})
and_then none check = ok tt
and_then (some x) check = check x

abbrev pub is_eq_operator : ResultOperator → Bool
is_eq_operator eq = true
is_eq_operator exists = false
is_eq_operator non_empty_string = false

abbrev pub same_bool : Bool → Bool → Bool
same_bool a b = if a then b else not b

abbrev pub is_some {ℓ} : {A : Type ℓ} → Option A → Bool
is_some none = false
is_some (some _) = true

abbrev pub is_current : Option String → String → Bool
is_current none step = false
is_current (some current) step = str_eq current step

abbrev pub has_none : Conditions → Bool
has_none no_more = true
has_none (also _ _) = false

-- the first lines of `condition`: the nodes, with this one
unfoldable pub count_node : ℕ → ℕ → Result WorkflowError ℕ
count_node depth nodes =
    refuse_if (ltb max_condition_depth depth || ltb max_condition_nodes (nodes + 1))
      (invalid "Condition exceeds depth or node limit")
    >> ok (nodes + 1)

-- `other.starts_with(&format!("{key}/"))`
abbrev pub is_under : String → String → Bool
is_under key other = is_some (strip_prefix (codes other) (codes key ++ b'/' ∷ []))

unfoldable pub check_overlaps : Map ValueExpr → Result WorkflowError (Unit {0})
check_overlaps [] = ok tt
check_overlaps ((key, e) ∷ bindings) = do
  refuse_if (any (λ b. is_under key b.0) bindings)
      (invalid "Tool argument binding paths cannot overlap")
  check_overlaps bindings

module _ (serde : Serde) (inputs : Map Value) (seen : List String) where
  -- the checks of a value that is known already
  unfoldable pub check_literal : Bool → Bool → Value → Result WorkflowError (Unit {0})
  check_literal string non_empty v = do
    refuse_if (exceeds (serde.size v) max_binding_bytes)
        (invalid "Literal exceeds binding size limit")
    refuse_if (string && not (Json.is_string v)) (mismatch "Expression requires a string value")
    refuse_if (non_empty && is_blank_string v)
        (mismatch "Identity expression requires a non-empty string")

  abbrev pub check_input : Bool → Bool → Option Value → Result WorkflowError (Unit {0})
  check_input string non_empty none = err (missing "Referenced input does not exist")
  check_input string non_empty (some v) = check_literal string non_empty v

  -- `expr`
  unfoldable pub check_expr : Bool → Bool → ValueExpr → Result WorkflowError (Unit {0})
  check_expr string non_empty (literal v) = check_literal string non_empty v
  check_expr string non_empty (from_input key) = do
    nonempty key "input key"
    check_input string non_empty (Map.get key inputs)
  check_expr string non_empty (from_step step pointer) = do
    validate_pointer pointer
    refuse_if (not (is_known step seen)) (missing "Step binding must reference a previous step")

  abbrev pub check_entity : EntityLocator → Result WorkflowError (Unit {0})
  check_entity entity = attribute entity.attribute >> check_expr true true entity.value

  -- `locator`
  unfoldable mutual
    pub check_locator : ℕ → Locator → Result WorkflowError (Unit {0})
    check_locator depth (locator by value name scope entity) = do
      refuse_if (ltb max_locator_depth depth) (invalid "Locator scope depth exceeds 4")
      check_expr true true value
      and_then name (check_expr true false)
      check_scope depth scope
      and_then entity check_entity

    pub check_scope : ℕ → Scope → Result WorkflowError (Unit {0})
    check_scope depth no_scope = ok tt
    check_scope depth (scoped l) = check_locator (depth + 1) l

  -- the check of a condition that has no others inside
  unfoldable pub check_pair : Locator → ValueExpr → Result WorkflowError (Unit {0})
  check_pair target e = check_locator 1 target >> check_expr true false e

  unfoldable pub check_result :
      Option String
      → String
      → String
      → ResultOperator
      → Option ValueExpr
      → Result WorkflowError (Unit {0})
  check_result current step pointer operator expected = do
    validate_pointer pointer
    refuse_if (not (is_known step seen) && not (is_current current step))
        (missing "Result condition must reference an available step")
    refuse_if (not (same_bool (is_eq_operator operator) (is_some expected)))
        (invalid "Only eq result conditions require an expected expression")
    and_then expected (check_expr false false)

  -- `condition`: the number of nodes so far comes back counted on
  unfoldable mutual
    pub check_condition : Option String → ℕ → Condition → ℕ → Result WorkflowError ℕ
    check_condition current depth (element target state) nodes =
        count_node depth nodes >>= λ n. check_locator 1 target >> ok n
    check_condition current depth (value_equals target e) nodes =
        count_node depth nodes >>= λ n. check_pair target e >> ok n
    check_condition current depth (text_contains target e) nodes =
        count_node depth nodes >>= λ n. check_pair target e >> ok n
    check_condition current depth (attribute_equals target name e) nodes =
        count_node depth nodes >>= λ n. check_pair target e >> (attribute name >> ok n)
    check_condition current depth (result step pointer operator expected) nodes =
        count_node depth nodes >>= λ n. check_result current step pointer operator expected >> ok n
    check_condition current depth (all_of cs) nodes = count_node depth nodes >>= λ n.
        refuse_if (has_none cs) (invalid "all/any conditions must be non-empty")
        >> check_conditions current (depth + 1) cs n
    check_condition current depth (any_of cs) nodes = count_node depth nodes >>= λ n.
        refuse_if (has_none cs) (invalid "all/any conditions must be non-empty")
        >> check_conditions current (depth + 1) cs n

    pub check_conditions : Option String → ℕ → Conditions → ℕ → Result WorkflowError ℕ
    check_conditions current depth no_more nodes = ok nodes
    check_conditions current depth (also c cs) nodes =
        check_condition current depth c nodes >>= λ n. check_conditions current depth cs n

  -- a condition of its own, whose nodes are counted from none
  unfoldable pub check_whole : Option String → Condition → Result WorkflowError (Unit {0})
  check_whole current c = check_condition current 1 c 0 >>= λ n. ok tt

  unfoldable pub check_bindings : Value → Map ValueExpr → Result WorkflowError (Unit {0})
  check_bindings args [] = ok tt
  check_bindings args ((pointer, e) ∷ bindings) = do
    validate_pointer pointer
    refuse_if (is_empty (codes pointer) || not (is_some (serde.pointer args pointer)))
        (invalid "Tool bindings require existing, non-root argument pointers")
    check_expr false false e
    check_bindings args bindings

  -- the match on the operation, with the attribute of a query
  unfoldable pub check_op : StepOp → Result WorkflowError (Unit {0})
  check_op (click target) = check_locator 1 target
  check_op (query target (attribute_query name)) = check_locator 1 target >> attribute name
  check_op (query target value_query) = check_locator 1 target
  check_op (query target text_query) = check_locator 1 target
  check_op (fill target e) = check_pair target e
  check_op (type_text target e) = check_pair target e
  check_op (press target key) = and_then target (check_locator 1) >> check_expr true true key
  check_op (wait c) = check_whole none c
  check_op (tool name args bindings) = do
    nonempty name "tool"
    refuse_if (not (Json.is_object args)) (invalid "tool args must be an object")
    check_bindings args bindings
    check_overlaps bindings

  -- the body of the loop over the steps
  unfoldable pub check_step : Step → Result WorkflowError (Unit {0})
  check_step step = do
    nonempty step.id "step id"
    refuse_if (is_known step.id seen) (invalid "Step IDs must be unique")
    and_then step.window_id (λ w. nonempty w "step windowId")
    and_then step.timeout_ms (λ t. budget t max_deadline_ms "timeoutMs")
    and_then step.evidence evidence
    check_op step.op
    and_then step.expect (check_whole (some step.id))

-- the loop over the steps: the ids of all
unfoldable pub check_steps :
    Serde → Map Value → List String → List Step → Result WorkflowError (List String)
check_steps serde inputs seen [] = ok seen
check_steps serde inputs seen (step ∷ steps) =
    check_step serde inputs seen step >> check_steps serde inputs (step.id ∷ seen) steps

unfoldable pub check_inputs : Serde → Map Value → Result WorkflowError (Unit {0})
check_inputs serde [] = ok tt
check_inputs serde ((key, v) ∷ inputs) = do
  nonempty key "input key"
  refuse_if (exceeds (serde.size v) max_binding_bytes) (invalid "Input exceeds binding size limit")
  check_inputs serde inputs

-- what is checked before the inputs and the steps
unfoldable pub check_settings : WorkflowSpec → Result WorkflowError (Unit {0})
check_settings spec = do
  refuse_if
      (not (spec.schema_version == 1)
        || not (str_eq spec.mode "strict")
        || not (str_eq spec.schedule "sequential"))
      (unsupported "Only strict sequential workflow schemaVersion 1 is supported")
  nonempty spec.run_key "runKey"
  nonempty spec.window_id "windowId"
  refuse_if (is_empty spec.steps || ltb max_steps (length spec.steps))
      (invalid "Workflow needs between 1 and 100 steps")
  budget spec.deadline_ms max_deadline_ms "deadlineMs"
  budget spec.defaults.step_timeout_ms max_deadline_ms "stepTimeoutMs"
  budget spec.defaults.locator_timeout_ms max_deadline_ms "locatorTimeoutMs"
  budget spec.defaults.poll_interval_ms 1000 "pollIntervalMs"
  refuse_if (ltb spec.defaults.poll_interval_ms 10) (invalid "pollIntervalMs must be at least 10")
  refuse_if (ltb 2000 spec.defaults.failure_evidence_grace_ms)
      (invalid "Failure evidence grace cannot exceed 2000 ms")
  evidence spec.evidence

unfoldable pub validate : Serde → WorkflowSpec → Result WorkflowError (Unit {0})
validate serde spec = do
  check_settings spec
  check_inputs serde spec.inputs
  check_steps serde spec.inputs [] spec.steps >>= λ seen.
      and_then spec.goal (check_whole serde spec.inputs seen none)
