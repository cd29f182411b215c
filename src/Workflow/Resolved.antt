-- ===== src/Workflow/Resolved.antt =====
-- What resolving a step leaves: literals only.
use tauri_connector.Json
use tauri_connector.Json.{Value}
use tauri_connector.Map.{Map}
use tauri_connector.Outcome.Facts.{ExecutionOutcome, WorkflowError}
use tauri_connector.Workflow.Spec.{
  ValueExpr, literal, EntityLocator, Locator, locator, Scope, no_scope, scoped, Condition, element,
  value_equals, text_contains, attribute_equals, result, all_of, any_of, Conditions, no_more, also,
  StepOp, click, fill, type_text, press, wait, query, tool, Step, Serde,
}
use tauri_connector.Workflow.Exprs.{
  resolve, resolve_expr, resolve_name, resolve_entity, resolve_locator, resolve_scope, resolve_pair,
  resolve_expected, resolve_condition, resolve_conditions, bind_all, resolve_target, resolve_op,
  resolve_expect, resolve_step, exceeds, not_a_string, blank_identity, step_too_large,
  max_spec_bytes, is_blank_string,
}
use tauri_connector.Prelude.{
  ◌≡◌, refl, Bool, true, false, not, ◌&&◌, Option, none, some, ok, ◌>>◌, refuse_if, Fares,
  Fares-bind, value_of_Fares, Fares-any, Fares-refuse_if,
}
use tauri_connector.Workflow.References.{
  is_literal, has_literal_name, has_literal_entity, has_literal_locator, has_literal_scope,
  has_literal_condition, have_literals, has_literal_target, has_literal_expect, has_literal_op,
  holds_no_reference,
}

-- any error will do
abbrev AnyError : WorkflowError → Type 0
AnyError e = Unit

module _ (serde : Serde) (inputs : Map Value) (outcomes : Map ExecutionOutcome) where
  abbrev LiteralExpr : ValueExpr → Type 0
  LiteralExpr e = is_literal e ≡ true

  literal_expr :
      (string nonempty : Bool) (e : ValueExpr)
      → Fares AnyError LiteralExpr (resolve_expr serde inputs outcomes string nonempty e)
  unfolding resolve_expr is_literal
  literal_expr string nonempty e =
      Fares-bind AnyError (λ _. Unit) LiteralExpr (resolve serde inputs outcomes e) _
        (Fares-any (resolve serde inputs outcomes e))
        (λ v _.
          Fares-refuse_if {A = ValueExpr} AnyError LiteralExpr (string && not (Json.is_string v))
            not_a_string
            (refuse_if (nonempty && is_blank_string v) blank_identity >> ok (literal v)) tt
            (λ text.
              Fares-refuse_if {A = ValueExpr} AnyError LiteralExpr (nonempty && is_blank_string v)
                blank_identity (ok (literal v)) tt (λ named. refl)))

  abbrev LiteralName : Option ValueExpr → Type 0
  LiteralName name = has_literal_name name ≡ true

  literal_name :
      (name : Option ValueExpr)
      → Fares AnyError LiteralName (resolve_name serde inputs outcomes name)
  literal_name none = refl
  literal_name (some e) =
      Fares-bind AnyError _ LiteralName (resolve_expr serde inputs outcomes true false e) _
        (literal_expr true false e) (λ e' h. rw h refl)

  abbrev LiteralEntity : Option EntityLocator → Type 0
  LiteralEntity entity = has_literal_entity entity ≡ true

  literal_entity :
      (entity : Option EntityLocator)
      → Fares AnyError LiteralEntity (resolve_entity serde inputs outcomes entity)
  literal_entity none = refl
  literal_entity (some entity) =
      Fares-bind AnyError _ LiteralEntity
        (resolve_expr serde inputs outcomes true true entity.value) _
        (literal_expr true true entity.value) (λ e' h. rw h refl)

  abbrev LiteralLocator : Locator → Type 0
  LiteralLocator l = has_literal_locator l ≡ true

  abbrev LiteralScope : Scope → Type 0
  LiteralScope s = has_literal_scope s ≡ true

  mutual
    unfolding resolve_locator resolve_scope has_literal_locator has_literal_scope

    literal_locator :
        (l : Locator) → Fares AnyError LiteralLocator (resolve_locator serde inputs outcomes l)
    literal_locator (locator by value name scope entity) =
        Fares-bind AnyError _ LiteralLocator (resolve_expr serde inputs outcomes true true value) _
          (literal_expr true true value)
          (λ value' hv.
            Fares-bind AnyError _ LiteralLocator (resolve_name serde inputs outcomes name) _
              (literal_name name)
              (λ name' hn.
                Fares-bind AnyError _ LiteralLocator (resolve_scope serde inputs outcomes scope) _
                  (literal_scope scope)
                  (λ scope' hs.
                    Fares-bind AnyError _ LiteralLocator
                      (resolve_entity serde inputs outcomes entity) _ (literal_entity entity)
                      (λ entity' he. rw (hv, hn, hs, he) refl))))

    literal_scope :
        (s : Scope) → Fares AnyError LiteralScope (resolve_scope serde inputs outcomes s)
    literal_scope no_scope = refl
    literal_scope (scoped l) =
        Fares-bind AnyError _ LiteralScope (resolve_locator serde inputs outcomes l) _
          (literal_locator l) (λ l' h. rw h refl)

  literal_pair :
      {A : Type 0} (is_done : A → Bool) (target : Locator) (e : ValueExpr)
      (make : Locator → ValueExpr → A)
      → ((l' : Locator) (e' : ValueExpr)
          → LiteralLocator l'
          → LiteralExpr e'
          → is_done (make l' e') ≡ true)
      → Fares AnyError (λ a. is_done a ≡ true) (resolve_pair serde inputs outcomes target e make)
  unfolding resolve_pair
  literal_pair is_done target e make keeps =
      Fares-bind AnyError _ _ (resolve_locator serde inputs outcomes target) _
        (literal_locator target)
        (λ l' hl.
          Fares-bind AnyError _ _ (resolve_expr serde inputs outcomes true false e) _
            (literal_expr true false e) (λ e' he. keeps l' e' hl he))

  abbrev LiteralExpected : Option ValueExpr → Type 0
  LiteralExpected e = has_literal_name e ≡ true

  literal_expected :
      (e : Option ValueExpr)
      → Fares AnyError LiteralExpected (resolve_expected serde inputs outcomes e)
  literal_expected none = refl
  literal_expected (some e) =
      Fares-bind AnyError _ LiteralExpected (resolve_expr serde inputs outcomes false false e) _
        (literal_expr false false e) (λ e' h. rw h refl)

  abbrev LiteralCondition : Condition → Type 0
  LiteralCondition c = has_literal_condition c ≡ true

  abbrev LiteralConditions : Conditions → Type 0
  LiteralConditions cs = have_literals cs ≡ true

  mutual
    unfolding resolve_condition resolve_conditions resolve_pair has_literal_condition have_literals

    literal_condition :
        (c : Condition)
        → Fares AnyError LiteralCondition (resolve_condition serde inputs outcomes c)
    literal_condition (element target state) =
        Fares-bind AnyError _ LiteralCondition (resolve_locator serde inputs outcomes target) _
          (literal_locator target) (λ l' h. rw h refl)
    literal_condition (value_equals target e) =
        literal_pair has_literal_condition target e value_equals (λ l' e' hl he. rw (hl, he) refl)
    literal_condition (text_contains target e) =
        literal_pair has_literal_condition target e text_contains (λ l' e' hl he. rw (hl, he) refl)
    literal_condition (attribute_equals target name e) =
        literal_pair has_literal_condition target e (λ l' e'. attribute_equals l' name e')
          (λ l' e' hl he. rw (hl, he) refl)
    literal_condition (result step pointer operator expected) =
        Fares-bind AnyError _ LiteralCondition (resolve_expected serde inputs outcomes expected) _
          (literal_expected expected) (λ e' h. rw h refl)
    literal_condition (all_of cs) =
        Fares-bind AnyError _ LiteralCondition (resolve_conditions serde inputs outcomes cs) _
          (literal_conditions cs) (λ cs' h. rw h refl)
    literal_condition (any_of cs) =
        Fares-bind AnyError _ LiteralCondition (resolve_conditions serde inputs outcomes cs) _
          (literal_conditions cs) (λ cs' h. rw h refl)

    literal_conditions :
        (cs : Conditions)
        → Fares AnyError LiteralConditions (resolve_conditions serde inputs outcomes cs)
    literal_conditions no_more = refl
    literal_conditions (also c cs) =
        Fares-bind AnyError _ LiteralConditions (resolve_condition serde inputs outcomes c) _
          (literal_condition c)
          (λ c' hc.
            Fares-bind AnyError _ LiteralConditions (resolve_conditions serde inputs outcomes cs) _
              (literal_conditions cs) (λ cs' hs. rw (hc, hs) refl))

  abbrev LiteralTarget : Option Locator → Type 0
  LiteralTarget t = has_literal_target t ≡ true

  literal_target :
      (t : Option Locator) → Fares AnyError LiteralTarget (resolve_target serde inputs outcomes t)
  literal_target none = refl
  literal_target (some l) =
      Fares-bind AnyError _ LiteralTarget (resolve_locator serde inputs outcomes l) _
        (literal_locator l) (λ l' h. rw h refl)

  abbrev LiteralOp : StepOp → Type 0
  LiteralOp op = has_literal_op op ≡ true

  literal_op : (op : StepOp) → Fares AnyError LiteralOp (resolve_op serde inputs outcomes op)
  unfolding resolve_op resolve_pair has_literal_op
  literal_op (click target) =
      Fares-bind AnyError _ LiteralOp (resolve_locator serde inputs outcomes target) _
        (literal_locator target) (λ l' h. rw h refl)
  literal_op (query target kind) =
      Fares-bind AnyError _ LiteralOp (resolve_locator serde inputs outcomes target) _
        (literal_locator target) (λ l' h. rw h refl)
  literal_op (fill target e) =
      literal_pair has_literal_op target e fill (λ l' e' hl he. rw (hl, he) refl)
  literal_op (type_text target e) =
      literal_pair has_literal_op target e type_text (λ l' e' hl he. rw (hl, he) refl)
  literal_op (press target key) =
      Fares-bind AnyError _ LiteralOp (resolve_target serde inputs outcomes target) _
        (literal_target target)
        (λ t' ht.
          Fares-bind AnyError _ LiteralOp (resolve_expr serde inputs outcomes true true key) _
            (literal_expr true true key) (λ k' hk. rw (ht, hk) refl))
  literal_op (wait c) =
      Fares-bind AnyError _ LiteralOp (resolve_condition serde inputs outcomes c) _
        (literal_condition c) (λ c' h. rw h refl)
  literal_op (tool name args bindings) =
      Fares-bind AnyError (λ _. Unit) LiteralOp (bind_all serde inputs outcomes bindings args) _
        (Fares-any (bind_all serde inputs outcomes bindings args)) (λ args' _. refl)

  abbrev LiteralExpect : Option Condition → Type 0
  LiteralExpect c = has_literal_expect c ≡ true

  literal_expect :
      (c : Option Condition) → Fares AnyError LiteralExpect (resolve_expect serde inputs outcomes c)
  literal_expect none = refl
  literal_expect (some c) =
      Fares-bind AnyError _ LiteralExpect (resolve_condition serde inputs outcomes c) _
        (literal_condition c) (λ c' h. rw h refl)

  abbrev LiteralStep : Step → Type 0
  LiteralStep step = holds_no_reference step ≡ true

  literal_step :
      (step : Step) → Fares AnyError LiteralStep (resolve_step serde inputs outcomes step)
  unfolding resolve_step holds_no_reference
  literal_step step =
      Fares-bind AnyError _ LiteralStep (resolve_op serde inputs outcomes step.op) _
        (literal_op step.op)
        (λ op' ho.
          Fares-bind AnyError _ LiteralStep (resolve_expect serde inputs outcomes step.expect) _
            (literal_expect step.expect)
            (λ expect' he.
              let step' = record step { op = op'; expect = expect' } in
              Fares-refuse_if {A = Step} AnyError LiteralStep
                (exceeds (serde.step_size step') max_spec_bytes) step_too_large (ok step') tt
                (λ small. rw (ho, he) refl)))

  -- A step that has been resolved has literals only, and no binding of a tool's argument is left.
  pub resolve_step-literal :
      (step step' : Step)
      → resolve_step serde inputs outcomes step ≡ ok step'
      → holds_no_reference step' ≡ true
  resolve_step-literal step step' e =
      value_of_Fares AnyError LiteralStep (resolve_step serde inputs outcomes step) step'
        (literal_step step) e
