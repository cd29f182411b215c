-- ===== src/Workflow/Exprs.antt =====
-- value_expr.rs: the resolution of expressions against the inputs and the outcomes of steps.
use Prim.Native.String.{len}
use tauri_connector.Json
use tauri_connector.Json.{Value}
use tauri_connector.Map
use tauri_connector.Map.{Map}
use tauri_connector.Outcome.Facts.{ExecutionOutcome, WorkflowError, new_error, is_success}
use tauri_connector.Workflow.Spec.{
  ValueExpr, literal, from_input, from_step, EntityLocator, Locator, locator, Scope, no_scope,
  scoped, Condition, element, value_equals, text_contains, attribute_equals, result, all_of, any_of,
  Conditions, no_more, also, StepOp, click, fill, type_text, press, wait, query, tool, Step, Serde,
}
use tauri_connector.Prelude.{
  ℕ, ◌*◌, String, Bool, true, false, not, ◌&&◌, ◌||◌, Option, none, some, [], ◌∷◌, if◌then◌else◌,
  ltb, ◌==◌, is_empty, is_blank, codes, Text, Result, ok, err, ◌>>=◌, ◌>>◌, refuse_if,
}

-- MAX_BINDING_BYTES and MAX_SPEC_BYTES
abbrev pub max_binding_bytes : ℕ
max_binding_bytes = 64 * 1024

abbrev pub max_spec_bytes : ℕ
max_spec_bytes = 256 * 1024

-- the errors of `validate_pointer`
unfoldable pub bad_pointer : WorkflowError
bad_pointer =
    new_error "invalid_spec" "validating"
      (codes "JSON Pointer must be empty or begin with / and fit within 4096 bytes")

unfoldable pub bad_escape : WorkflowError
bad_escape = new_error "invalid_spec" "validating" (codes "JSON Pointer has an invalid escape")

-- the errors of a binding
unfoldable pub input_missing : WorkflowError
input_missing = new_error "binding_missing" "binding" (codes "Required workflow input is missing")

unfoldable pub step_not_succeeded : WorkflowError
step_not_succeeded =
    new_error "binding_missing" "binding" (codes "Referenced step has not succeeded")

unfoldable pub path_missing : WorkflowError
path_missing = new_error "binding_missing" "binding" (codes "Referenced result path is missing")

unfoldable pub value_too_large : WorkflowError
value_too_large =
    new_error "invalid_spec" "binding" (codes "Resolved binding exceeds the value size limit")

unfoldable pub not_a_string : WorkflowError
not_a_string =
    new_error "binding_type_mismatch" "binding" (codes "Expression requires a string value")

unfoldable pub blank_identity : WorkflowError
blank_identity =
    new_error "binding_type_mismatch" "binding"
      (codes "Identity expression requires a non-empty string")

unfoldable pub root_binding : WorkflowError
root_binding =
    new_error "invalid_spec" "binding"
      (codes "Tool binding cannot replace the entire arguments object")

unfoldable pub argument_missing : WorkflowError
argument_missing =
    new_error "binding_missing" "binding" (codes "Tool argument binding path does not exist")

unfoldable pub step_too_large : WorkflowError
step_too_large =
    new_error "invalid_spec" "binding" (codes "Resolved step exceeds the 256 KiB size limit")

-- a `~` that neither `0` nor `1` follows
unfoldable pub has_bad_escape : Text → Bool
has_bad_escape [] = false
has_bad_escape (c ∷ []) = c == b'~'
has_bad_escape (c ∷ d ∷ s) =
    let after_escape = has_bad_escape s in
    let after_char = has_bad_escape (d ∷ s) in
    if c == b'~' then not (d == b'0' || d == b'1') || after_escape else after_char

abbrev pub starts_with_slash : Text → Bool
starts_with_slash [] = false
starts_with_slash (c ∷ s) = c == b'/'

unfoldable pub validate_pointer : String → Result WorkflowError (Unit {0})
unfolding has_bad_escape
validate_pointer p = do
  refuse_if (ltb 4096 (len p) || not (is_empty (codes p)) && not (starts_with_slash (codes p)))
      bad_pointer
  refuse_if (has_bad_escape (codes p)) bad_escape

abbrev pub or_fail {ℓ} : {A : Type ℓ} → Option A → WorkflowError → Result WorkflowError A
or_fail (some x) e = ok x
or_fail none e = err e

-- `serde_json::to_vec(value).map_or(true, |bytes| bytes.len() > limit)`
abbrev pub exceeds : Option ℕ → ℕ → Bool
exceeds none limit = true
exceeds (some n) limit = ltb limit n

-- a step's outcome that has succeeded
abbrev pub succeeded : Option ExecutionOutcome → Option ExecutionOutcome
succeeded none = none
succeeded (some o) = if is_success false o then some o else none

abbrev pub is_blank_string : Value → Bool
is_blank_string v = elim (Json.as_str v) [ none ↦ false | some s ↦ is_blank s ]

module _ (serde : Serde) (inputs : Map Value) (outcomes : Map ExecutionOutcome) where
  -- what an expression stands for, before its size is checked
  unfoldable pub lookup : ValueExpr → Result WorkflowError Value
  unfolding validate_pointer Map.get
  lookup (literal v) = ok v
  lookup (from_input key) = or_fail (Map.get key inputs) input_missing
  lookup (from_step step pointer) = do
    validate_pointer pointer
    or_fail (succeeded (Map.get step outcomes)) step_not_succeeded >>= λ o.
        or_fail (serde.pointer o.data_value pointer) path_missing

  unfoldable pub resolve : ValueExpr → Result WorkflowError Value
  resolve e =
      lookup e >>= λ v. refuse_if (exceeds (serde.size v) max_binding_bytes) value_too_large >> ok v

  -- `resolve_expr`, with the expression that takes the place of `e`
  unfoldable pub resolve_expr : Bool → Bool → ValueExpr → Result WorkflowError ValueExpr
  resolve_expr string nonempty e = resolve e >>= λ v. do
    refuse_if (string && not (Json.is_string v)) not_a_string
    refuse_if (nonempty && is_blank_string v) blank_identity
    ok (literal v)

  abbrev pub resolve_name : Option ValueExpr → Result WorkflowError (Option ValueExpr)
  resolve_name none = ok none
  resolve_name (some e) = resolve_expr true false e >>= λ e'. ok (some e')

  abbrev pub resolve_entity : Option EntityLocator → Result WorkflowError (Option EntityLocator)
  resolve_entity none = ok none
  resolve_entity (some entity) =
      resolve_expr true true entity.value >>= λ e'. ok (some (record entity { value = e' }))

  unfoldable mutual
    pub resolve_locator : Locator → Result WorkflowError Locator
    resolve_locator (locator by value name scope entity) =
        resolve_expr true true value >>= λ value'. resolve_name name >>= λ name'.
        resolve_scope scope >>= λ scope'.
        resolve_entity entity >>= λ entity'. ok (locator by value' name' scope' entity')

    pub resolve_scope : Scope → Result WorkflowError Scope
    resolve_scope no_scope = ok no_scope
    resolve_scope (scoped l) = resolve_locator l >>= λ l'. ok (scoped l')

  -- a target and the expression that goes with it
  unfoldable pub resolve_pair {ℓ} :
      {A : Type ℓ} → Locator → ValueExpr → (Locator → ValueExpr → A) → Result WorkflowError A
  resolve_pair target e make =
      resolve_locator target >>= λ target'. resolve_expr true false e >>= λ e'. ok (make target' e')

  abbrev pub resolve_expected : Option ValueExpr → Result WorkflowError (Option ValueExpr)
  resolve_expected none = ok none
  resolve_expected (some e) = resolve_expr false false e >>= λ e'. ok (some e')

  unfoldable mutual
    pub resolve_condition : Condition → Result WorkflowError Condition
    resolve_condition (element target state) =
        resolve_locator target >>= λ target'. ok (element target' state)
    resolve_condition (value_equals target e) = resolve_pair target e value_equals
    resolve_condition (text_contains target e) = resolve_pair target e text_contains
    resolve_condition (attribute_equals target name e) =
        resolve_pair target e (λ target' e'. attribute_equals target' name e')
    resolve_condition (result step pointer operator expected) =
        resolve_expected expected >>= λ expected'. ok (result step pointer operator expected')
    resolve_condition (all_of cs) = resolve_conditions cs >>= λ cs'. ok (all_of cs')
    resolve_condition (any_of cs) = resolve_conditions cs >>= λ cs'. ok (any_of cs')

    pub resolve_conditions : Conditions → Result WorkflowError Conditions
    resolve_conditions no_more = ok no_more
    resolve_conditions (also c cs) =
        resolve_condition c >>= λ c'. resolve_conditions cs >>= λ cs'. ok (also c' cs')

  -- the loop over the bindings of a tool
  unfoldable pub bind_all : Map ValueExpr → Value → Result WorkflowError Value
  bind_all [] args = ok args
  bind_all ((pointer, e) ∷ bindings) args = do
    validate_pointer pointer
    refuse_if (is_empty (codes pointer)) root_binding
    resolve e >>= λ v.
        or_fail (serde.assign args pointer v) argument_missing >>= λ args'. bind_all bindings args'

  abbrev pub resolve_target : Option Locator → Result WorkflowError (Option Locator)
  resolve_target none = ok none
  resolve_target (some l) = resolve_locator l >>= λ l'. ok (some l')

  unfoldable pub resolve_op : StepOp → Result WorkflowError StepOp
  resolve_op (click target) = resolve_locator target >>= λ target'. ok (click target')
  resolve_op (query target kind) = resolve_locator target >>= λ target'. ok (query target' kind)
  resolve_op (fill target e) = resolve_pair target e fill
  resolve_op (type_text target e) = resolve_pair target e type_text
  resolve_op (press target key) = resolve_target target >>= λ target'.
      resolve_expr true true key >>= λ key'. ok (press target' key')
  resolve_op (wait c) = resolve_condition c >>= λ c'. ok (wait c')
  resolve_op (tool name args bindings) = bind_all bindings args >>= λ args'. ok (tool name args' [])

  abbrev pub resolve_expect : Option Condition → Result WorkflowError (Option Condition)
  resolve_expect none = ok none
  resolve_expect (some c) = resolve_condition c >>= λ c'. ok (some c')

  unfoldable pub resolve_step : Step → Result WorkflowError Step
  resolve_step step = resolve_op step.op >>= λ op'. resolve_expect step.expect >>= λ expect'.
      let step' = record step { op = op'; expect = expect' } in
      refuse_if (exceeds (serde.step_size step') max_spec_bytes) step_too_large >> ok step'
