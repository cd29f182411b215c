-- ===== src/Workflow/Spec.antt =====
-- spec.rs: the types of a workflow. Names of fields and variants are the source's; an optional
-- scope and a list of conditions are types of their own.
use tauri_connector.Json.{Value}
use tauri_connector.Map.{Map}
use tauri_connector.Prelude.{ℕ, String, Option, List}

pub data ValueExpr : Type 0 where
  literal : Value → ValueExpr
  from_input : String → ValueExpr
  -- the step and the pointer
  from_step : String → String → ValueExpr

pub data LocatorBy : Type 0 where
  role label test_id css : LocatorBy

pub record EntityLocator : Type 0 where
  pub attribute : String
  pub value : ValueExpr

mutual
  -- by, value, name, scope and entity
  pub data Locator : Type 0 where
    locator : LocatorBy → ValueExpr → Option ValueExpr → Scope → Option EntityLocator → Locator

  pub data Scope : Type 0 where
    no_scope : Scope
    scoped : Locator → Scope

pub data QueryKind : Type 0 where
  value_query text_query : QueryKind
  attribute_query : String → QueryKind

pub data ElementState : Type 0 where
  visible hidden attached detached enabled editable : ElementState

pub data ResultOperator : Type 0 where
  eq exists non_empty_string : ResultOperator

mutual
  pub data Condition : Type 0 where
    element : Locator → ElementState → Condition
    value_equals : Locator → ValueExpr → Condition
    text_contains : Locator → ValueExpr → Condition
    attribute_equals : Locator → String → ValueExpr → Condition
    -- the step, the pointer, the operator and what is expected
    result : String → String → ResultOperator → Option ValueExpr → Condition
    all_of : Conditions → Condition
    any_of : Conditions → Condition

  pub data Conditions : Type 0 where
    no_more : Conditions
    also : Condition → Conditions → Conditions

pub data StepOp : Type 0 where
  click : Locator → StepOp
  fill : Locator → ValueExpr → StepOp
  type_text : Locator → ValueExpr → StepOp
  press : Option Locator → ValueExpr → StepOp
  wait : Condition → StepOp
  query : Locator → QueryKind → StepOp
  -- the tool, its arguments and the bindings by pointer
  tool : String → Value → Map ValueExpr → StepOp

pub record EvidencePolicy : Type 0 where
  pub success : String
  pub failure : String
  pub max_inline_bytes : ℕ

pub record WorkflowDefaults : Type 0 where
  pub step_timeout_ms : ℕ
  pub locator_timeout_ms : ℕ
  pub poll_interval_ms : ℕ
  pub failure_evidence_grace_ms : ℕ

pub record Step : Type 0 where
  pub id : String
  pub window_id : Option String
  pub timeout_ms : Option ℕ
  pub expect : Option Condition
  pub evidence : Option EvidencePolicy
  pub op : StepOp

pub record WorkflowSpec : Type 0 where
  pub schema_version : ℕ
  pub run_key : String
  pub mode : String
  pub schedule : String
  pub window_id : String
  pub inputs : Map Value
  pub deadline_ms : ℕ
  pub defaults : WorkflowDefaults
  pub evidence : EvidencePolicy
  pub steps : List Step
  pub goal : Option Condition

-- `EvidencePolicy::default()` and `WorkflowDefaults::default()`
abbrev pub default_evidence : EvidencePolicy
default_evidence = record { success = "summary"; failure = "scoped"; max_inline_bytes = 16384 }

abbrev pub default_times : WorkflowDefaults
default_times = record {
  step_timeout_ms = 10000;
  locator_timeout_ms = 3000;
  poll_interval_ms = 100;
  failure_evidence_grace_ms = 2000;
}

-- What the program takes from `serde_json`: the bytes that a value or a step is written in (`none`
-- where it cannot be), the value that a JSON Pointer leads to, and its replacement.
pub record Serde : Type 0 where
  pub size : Value → Option ℕ
  pub step_size : Step → Option ℕ
  pub pointer : Value → String → Option Value
  pub assign : Value → String → Value → Option Value
