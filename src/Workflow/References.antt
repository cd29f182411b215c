-- ===== src/Workflow/References.antt =====
-- Which steps have literals only: no expression refers to an input or to another step, and no
-- binding of a tool is left.
use tauri_connector.Workflow.Spec.{
  ValueExpr, literal, from_input, from_step, EntityLocator, Locator, locator, Scope, no_scope,
  scoped, Condition, element, value_equals, text_contains, attribute_equals, result, all_of, any_of,
  Conditions, no_more, also, StepOp, click, fill, type_text, press, wait, query, tool, Step,
}
use tauri_connector.Prelude.{is_empty, Bool, true, false, ◌&&◌, Option, none, some}

-- an expression that refers to no input and no step
unfoldable pub is_literal : ValueExpr → Bool
is_literal (literal v) = true
is_literal (from_input key) = false
is_literal (from_step step pointer) = false

abbrev pub has_literal_name : Option ValueExpr → Bool
has_literal_name none = true
has_literal_name (some e) = is_literal e

abbrev pub has_literal_entity : Option EntityLocator → Bool
has_literal_entity none = true
has_literal_entity (some entity) = is_literal entity.value

unfoldable mutual
  pub has_literal_locator : Locator → Bool
  has_literal_locator (locator by value name scope entity) =
      is_literal value
      && has_literal_name name
      && has_literal_scope scope
      && has_literal_entity entity

  pub has_literal_scope : Scope → Bool
  has_literal_scope no_scope = true
  has_literal_scope (scoped l) = has_literal_locator l

unfoldable mutual
  pub has_literal_condition : Condition → Bool
  has_literal_condition (element target state) = has_literal_locator target
  has_literal_condition (value_equals target e) = has_literal_locator target && is_literal e
  has_literal_condition (text_contains target e) = has_literal_locator target && is_literal e
  has_literal_condition (attribute_equals target name e) =
      has_literal_locator target && is_literal e
  has_literal_condition (result step pointer operator expected) = has_literal_name expected
  has_literal_condition (all_of cs) = have_literals cs
  has_literal_condition (any_of cs) = have_literals cs

  pub have_literals : Conditions → Bool
  have_literals no_more = true
  have_literals (also c cs) = has_literal_condition c && have_literals cs

abbrev pub has_literal_target : Option Locator → Bool
has_literal_target none = true
has_literal_target (some l) = has_literal_locator l

abbrev pub has_literal_expect : Option Condition → Bool
has_literal_expect none = true
has_literal_expect (some c) = has_literal_condition c

-- every part of the operation is a literal, and a tool has no binding left
unfoldable pub has_literal_op : StepOp → Bool
has_literal_op (click target) = has_literal_locator target
has_literal_op (query target kind) = has_literal_locator target
has_literal_op (fill target e) = has_literal_locator target && is_literal e
has_literal_op (type_text target e) = has_literal_locator target && is_literal e
has_literal_op (press target key) = has_literal_target target && is_literal key
has_literal_op (wait c) = has_literal_condition c
has_literal_op (tool name args bindings) = is_empty bindings

unfoldable pub holds_no_reference : Step → Bool
holds_no_reference step = has_literal_op step.op && has_literal_expect step.expect
