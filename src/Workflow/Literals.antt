-- ===== src/Workflow/Literals.antt =====
-- What is resolved refers to nothing any more: it resolves to itself, against any inputs and
-- outcomes.
use tauri_connector.Json
use tauri_connector.Json.{Value}
use tauri_connector.Map.{Map}
use tauri_connector.Outcome.Facts.{ExecutionOutcome, WorkflowError}
use tauri_connector.Workflow.Spec.{
  ValueExpr, literal, EntityLocator, Locator, locator, Scope, no_scope, scoped, Condition, element,
  value_equals, text_contains, attribute_equals, result, all_of, any_of, Conditions, no_more, also,
  StepOp, click, fill, type_text, press, wait, query, tool, Step, Serde,
}
use tauri_connector.Workflow.Exprs.{
  lookup, resolve, resolve_expr, resolve_name, resolve_entity, resolve_locator, resolve_scope,
  resolve_pair, resolve_expected, resolve_condition, resolve_conditions, bind_all, resolve_target,
  resolve_op, resolve_expect, resolve_step, exceeds, value_too_large, not_a_string, blank_identity,
  step_too_large, max_binding_bytes, max_spec_bytes, is_blank_string,
}
use tauri_connector.Workflow.References.{holds_no_reference}
use tauri_connector.Workflow.Resolved.{resolve_step-literal}
use tauri_connector.Prelude.{
  ◌≡◌, refl, Bool, true, false, not, ◌&&◌, Option, none, some, Result, ok, ◌>>◌, refuse_if, Fares,
  Fares-bind, value_of_Fares, Fares-any, Fares-refuse_if,
}

-- any error will do
abbrev AnyError : WorkflowError → Type 0
AnyError e = Unit

module _ (serde : Serde) (inputs inputs' : Map Value)
    (outcomes outcomes' : Map ExecutionOutcome) where
  abbrev SettledExpr : Bool → Bool → ValueExpr → Type 0
  SettledExpr string nonempty e = resolve_expr serde inputs' outcomes' string nonempty e ≡ ok e

  settled_value :
      (string nonempty : Bool) (v : Value)
      → exceeds (serde.size v) max_binding_bytes ≡ false
      → (string && not (Json.is_string v)) ≡ false
      → (nonempty && is_blank_string v) ≡ false
      → SettledExpr string nonempty (literal v)
  unfolding resolve_expr resolve lookup
  settled_value string nonempty v small text named = rw (small, text, named) refl

  resolve-small :
      (e : ValueExpr)
      → Fares AnyError
          (λ v. exceeds (serde.size v) max_binding_bytes ≡ false)
          (resolve serde inputs outcomes e)
  unfolding resolve
  resolve-small e =
      Fares-bind AnyError (λ _. Unit) _ (lookup serde inputs outcomes e) _
        (Fares-any (lookup serde inputs outcomes e))
        (λ v _.
          Fares-refuse_if {A = Value} AnyError
            (λ w. exceeds (serde.size w) max_binding_bytes ≡ false)
            (exceeds (serde.size v) max_binding_bytes) value_too_large (ok v) tt (λ small. small))

  settled_expr :
      (string nonempty : Bool) (e : ValueExpr)
      → Fares AnyError
          (SettledExpr string nonempty)
          (resolve_expr serde inputs outcomes string nonempty e)
  unfolding resolve_expr
  settled_expr string nonempty e =
      Fares-bind AnyError _ (SettledExpr string nonempty) (resolve serde inputs outcomes e) _
        (resolve-small e)
        (λ v small.
          Fares-refuse_if {A = ValueExpr} AnyError (SettledExpr string nonempty)
            (string && not (Json.is_string v)) not_a_string
            (refuse_if (nonempty && is_blank_string v) blank_identity >> ok (literal v)) tt
            (λ text.
              Fares-refuse_if {A = ValueExpr} AnyError (SettledExpr string nonempty)
                (nonempty && is_blank_string v) blank_identity (ok (literal v)) tt
                (λ named. settled_value string nonempty v small text named)))

  abbrev SettledName : Option ValueExpr → Type 0
  SettledName name = resolve_name serde inputs' outcomes' name ≡ ok name

  settled_name :
      (name : Option ValueExpr)
      → Fares AnyError SettledName (resolve_name serde inputs outcomes name)
  settled_name none = refl
  settled_name (some e) =
      Fares-bind AnyError _ SettledName (resolve_expr serde inputs outcomes true false e) _
        (settled_expr true false e) (λ e' h. rw h refl)

  abbrev SettledEntity : Option EntityLocator → Type 0
  SettledEntity entity = resolve_entity serde inputs' outcomes' entity ≡ ok entity

  settled_entity :
      (entity : Option EntityLocator)
      → Fares AnyError SettledEntity (resolve_entity serde inputs outcomes entity)
  settled_entity none = refl
  settled_entity (some entity) =
      Fares-bind AnyError _ SettledEntity
        (resolve_expr serde inputs outcomes true true entity.value) _
        (settled_expr true true entity.value) (λ e' h. rw h refl)

  abbrev SettledLocator : Locator → Type 0
  SettledLocator l = resolve_locator serde inputs' outcomes' l ≡ ok l

  abbrev SettledScope : Scope → Type 0
  SettledScope s = resolve_scope serde inputs' outcomes' s ≡ ok s

  mutual
    unfolding resolve_locator resolve_scope

    settled_locator :
        (l : Locator) → Fares AnyError SettledLocator (resolve_locator serde inputs outcomes l)
    settled_locator (locator by value name scope entity) =
        Fares-bind AnyError _ SettledLocator (resolve_expr serde inputs outcomes true true value) _
          (settled_expr true true value)
          (λ value' hv.
            Fares-bind AnyError _ SettledLocator (resolve_name serde inputs outcomes name) _
              (settled_name name)
              (λ name' hn.
                Fares-bind AnyError _ SettledLocator (resolve_scope serde inputs outcomes scope) _
                  (settled_scope scope)
                  (λ scope' hs.
                    Fares-bind AnyError _ SettledLocator
                      (resolve_entity serde inputs outcomes entity) _ (settled_entity entity)
                      (λ entity' he. rw (hv, hn, hs, he) refl))))

    settled_scope :
        (s : Scope) → Fares AnyError SettledScope (resolve_scope serde inputs outcomes s)
    settled_scope no_scope = refl
    settled_scope (scoped l) =
        Fares-bind AnyError _ SettledScope (resolve_locator serde inputs outcomes l) _
          (settled_locator l) (λ l' h. rw h refl)

  settled_pair :
      {A : Type 0} (target : Locator) (e : ValueExpr) (make : Locator → ValueExpr → A)
      (again : A → Result WorkflowError A)
      → ((l' : Locator) (e' : ValueExpr)
          → SettledLocator l'
          → SettledExpr true false e'
          → again (make l' e') ≡ ok (make l' e'))
      → Fares AnyError (λ a. again a ≡ ok a) (resolve_pair serde inputs outcomes target e make)
  unfolding resolve_pair
  settled_pair target e make again keeps =
      Fares-bind AnyError _ _ (resolve_locator serde inputs outcomes target) _
        (settled_locator target)
        (λ l' hl.
          Fares-bind AnyError _ _ (resolve_expr serde inputs outcomes true false e) _
            (settled_expr true false e) (λ e' he. keeps l' e' hl he))

  abbrev SettledExpected : Option ValueExpr → Type 0
  SettledExpected e = resolve_expected serde inputs' outcomes' e ≡ ok e

  settled_expected :
      (e : Option ValueExpr)
      → Fares AnyError SettledExpected (resolve_expected serde inputs outcomes e)
  settled_expected none = refl
  settled_expected (some e) =
      Fares-bind AnyError _ SettledExpected (resolve_expr serde inputs outcomes false false e) _
        (settled_expr false false e) (λ e' h. rw h refl)

  abbrev SettledCondition : Condition → Type 0
  SettledCondition c = resolve_condition serde inputs' outcomes' c ≡ ok c

  abbrev SettledConditions : Conditions → Type 0
  SettledConditions cs = resolve_conditions serde inputs' outcomes' cs ≡ ok cs

  mutual
    unfolding resolve_condition resolve_conditions resolve_pair

    settled_condition :
        (c : Condition)
        → Fares AnyError SettledCondition (resolve_condition serde inputs outcomes c)
    settled_condition (element target state) =
        Fares-bind AnyError _ SettledCondition (resolve_locator serde inputs outcomes target) _
          (settled_locator target) (λ l' h. rw h refl)
    settled_condition (value_equals target e) =
        settled_pair target e value_equals (resolve_condition serde inputs' outcomes')
          (λ l' e' hl he. rw (hl, he) refl)
    settled_condition (text_contains target e) =
        settled_pair target e text_contains (resolve_condition serde inputs' outcomes')
          (λ l' e' hl he. rw (hl, he) refl)
    settled_condition (attribute_equals target name e) =
        settled_pair target e (λ l' e'. attribute_equals l' name e')
          (resolve_condition serde inputs' outcomes') (λ l' e' hl he. rw (hl, he) refl)
    settled_condition (result step pointer operator expected) =
        Fares-bind AnyError _ SettledCondition (resolve_expected serde inputs outcomes expected) _
          (settled_expected expected) (λ e' h. rw h refl)
    settled_condition (all_of cs) =
        Fares-bind AnyError _ SettledCondition (resolve_conditions serde inputs outcomes cs) _
          (settled_conditions cs) (λ cs' h. rw h refl)
    settled_condition (any_of cs) =
        Fares-bind AnyError _ SettledCondition (resolve_conditions serde inputs outcomes cs) _
          (settled_conditions cs) (λ cs' h. rw h refl)

    settled_conditions :
        (cs : Conditions)
        → Fares AnyError SettledConditions (resolve_conditions serde inputs outcomes cs)
    settled_conditions no_more = refl
    settled_conditions (also c cs) =
        Fares-bind AnyError _ SettledConditions (resolve_condition serde inputs outcomes c) _
          (settled_condition c)
          (λ c' hc.
            Fares-bind AnyError _ SettledConditions (resolve_conditions serde inputs outcomes cs) _
              (settled_conditions cs) (λ cs' hs. rw (hc, hs) refl))

  abbrev SettledTarget : Option Locator → Type 0
  SettledTarget t = resolve_target serde inputs' outcomes' t ≡ ok t

  settled_target :
      (t : Option Locator) → Fares AnyError SettledTarget (resolve_target serde inputs outcomes t)
  settled_target none = refl
  settled_target (some l) =
      Fares-bind AnyError _ SettledTarget (resolve_locator serde inputs outcomes l) _
        (settled_locator l) (λ l' h. rw h refl)

  abbrev SettledOp : StepOp → Type 0
  SettledOp op = resolve_op serde inputs' outcomes' op ≡ ok op

  settled_op : (op : StepOp) → Fares AnyError SettledOp (resolve_op serde inputs outcomes op)
  unfolding resolve_op resolve_pair
  settled_op (click target) =
      Fares-bind AnyError _ SettledOp (resolve_locator serde inputs outcomes target) _
        (settled_locator target) (λ l' h. rw h refl)
  settled_op (query target kind) =
      Fares-bind AnyError _ SettledOp (resolve_locator serde inputs outcomes target) _
        (settled_locator target) (λ l' h. rw h refl)
  settled_op (fill target e) =
      settled_pair target e fill (resolve_op serde inputs' outcomes')
        (λ l' e' hl he. rw (hl, he) refl)
  settled_op (type_text target e) =
      settled_pair target e type_text (resolve_op serde inputs' outcomes')
        (λ l' e' hl he. rw (hl, he) refl)
  settled_op (press target key) =
      Fares-bind AnyError _ SettledOp (resolve_target serde inputs outcomes target) _
        (settled_target target)
        (λ t' ht.
          Fares-bind AnyError _ SettledOp (resolve_expr serde inputs outcomes true true key) _
            (settled_expr true true key) (λ k' hk. rw (ht, hk) refl))
  settled_op (wait c) =
      Fares-bind AnyError _ SettledOp (resolve_condition serde inputs outcomes c) _
        (settled_condition c) (λ c' h. rw h refl)
  settled_op (tool name args bindings) =
      Fares-bind AnyError (λ _. Unit) SettledOp (bind_all serde inputs outcomes bindings args) _
        (Fares-any (bind_all serde inputs outcomes bindings args))
        (λ args' _. unfold bind_all in refl)

  abbrev SettledExpect : Option Condition → Type 0
  SettledExpect c = resolve_expect serde inputs' outcomes' c ≡ ok c

  settled_expect :
      (c : Option Condition) → Fares AnyError SettledExpect (resolve_expect serde inputs outcomes c)
  settled_expect none = refl
  settled_expect (some c) =
      Fares-bind AnyError _ SettledExpect (resolve_condition serde inputs outcomes c) _
        (settled_condition c) (λ c' h. rw h refl)

  abbrev SettledStep : Step → Type 0
  SettledStep step = resolve_step serde inputs' outcomes' step ≡ ok step

  settled_step :
      (step : Step) → Fares AnyError SettledStep (resolve_step serde inputs outcomes step)
  unfolding resolve_step
  settled_step step =
      Fares-bind AnyError _ SettledStep (resolve_op serde inputs outcomes step.op) _
        (settled_op step.op)
        (λ op' ho.
          Fares-bind AnyError _ SettledStep (resolve_expect serde inputs outcomes step.expect) _
            (settled_expect step.expect)
            (λ expect' he.
              let step' = record step { op = op'; expect = expect' } in
              Fares-refuse_if {A = Step} AnyError SettledStep
                (exceeds (serde.step_size step') max_spec_bytes) step_too_large (ok step') tt
                (λ small. rw (ho, he, small) refl)))

  -- In a step that has been resolved every expression is a literal, none refers to an input or to
  -- another step, and no binding of a tool is left; and resolving it again, against whatever inputs
  -- and outcomes, succeeds and leaves it as it is.
  pub resolve_step-settled :
      (step step' : Step)
      → resolve_step serde inputs outcomes step ≡ ok step'
      → (holds_no_reference step' ≡ true) × (resolve_step serde inputs' outcomes' step' ≡ ok step')
  resolve_step-settled step step' e = (
    resolve_step-literal serde inputs outcomes step step' e,
    value_of_Fares AnyError SettledStep (resolve_step serde inputs outcomes step) step'
        (settled_step step) e,
  )
