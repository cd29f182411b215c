-- ===== src/Workflow/Bindings.antt =====
-- What can still fail when a checked workflow runs: the steps of `validate` and of `resolve_step`
-- side by side.
use tauri_connector.Json.{Value}
use tauri_connector.Map
use tauri_connector.Map.{Map}
use tauri_connector.Outcome.Facts.{ExecutionOutcome}
use tauri_connector.Workflow.Spec.{ValueExpr, Step, Serde}
use tauri_connector.Workflow.Exprs.{succeeded, validate_pointer}
use tauri_connector.Workflow.Validate.{is_some, check_bindings, is_under}
use tauri_connector.Prelude.{String, ◌≡◌, true, false, some, List, [], ◌∷◌, ok}
use tauri_connector.Workflow.Late.{AreDone}

-- What is relied on of `serde_json`: the place that a sound pointer leads to can be assigned, and
-- a sound pointer that does not go through it leads to a place still.
abbrev pub Assigns : Serde → Type 0
Assigns serde =
    (args : Value) (pointer : String) (v : Value)
    → validate_pointer pointer ≡ ok tt
    → is_some (serde.pointer args pointer) ≡ true
    → (args' : Value) × (serde.assign args pointer v ≡ some args')
      × ((other : String)
          → validate_pointer other ≡ ok tt
          → is_some (serde.pointer args other) ≡ true
          → is_under pointer other ≡ false
          → is_some (serde.pointer args' other) ≡ true)

module _ (serde : Serde) (inputs : Map Value) (seen : List String) (outcomes : Map ExecutionOutcome)
    (done : AreDone seen outcomes) where
  abbrev BindingsChecked : Value → Map ValueExpr → Type 0
  BindingsChecked args bindings = check_bindings serde inputs seen args bindings ≡ ok tt

-- Each of the steps has an outcome that has succeeded.
abbrev pub HaveSucceeded : Map ExecutionOutcome → List Step → Type 0
HaveSucceeded outcomes [] = Unit
HaveSucceeded outcomes (step ∷ steps) =
    ((o : ExecutionOutcome) × (succeeded (Map.get step.id outcomes) ≡ some o))
    × HaveSucceeded outcomes steps
