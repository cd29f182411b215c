-- ===== src/Outcome/Facts.antt =====
-- `ExecutionOutcome`, its constructors and its success test.
use tauri_connector.Json.{Value, null, str, obj, end, field}
use tauri_connector.Prelude.{
  String, Bool, true, false, ◌&&◌, Option, none, some, List, [], if◌then◌else◌, Text,
}

pub data ExecutionStatus : Type 0 where
  not_dispatched_status completed_status failed_status outcome_unknown : ExecutionStatus

pub data VerificationStatus : Type 0 where
  not_requested passed failed_check inconclusive : VerificationStatus

pub data EffectStatus : Type 0 where
  no_effect possible confirmed : EffectStatus

pub record WorkflowError : Type 0 where
  pub code : String
  pub stage : String
  pub message : Text
  pub retryable_before_dispatch : Bool

-- `WorkflowError::new`
abbrev pub new_error : String → String → Text → WorkflowError
new_error code stage message = record {
  code = code;
  stage = stage;
  message = message;
  retryable_before_dispatch = false;
}

pub record ExecutionOutcome : Type 0 where
  pub execution : ExecutionStatus
  pub verification : VerificationStatus
  pub effect : EffectStatus
  pub effect_scope : Option String
  pub data_value : Value
  pub error : Option WorkflowError
  pub timing : Value
  pub dispatch : Value
  pub evidence_refs : List String
  pub coverage : Value
  pub warnings : List String

unfoldable pub completed : Value → EffectStatus → ExecutionOutcome
completed data_value effect = record {
  execution = completed_status;
  verification = not_requested;
  effect = effect;
  effect_scope = none;
  data_value = data_value;
  error = none;
  timing = obj end;
  dispatch = obj end;
  evidence_refs = [];
  coverage = obj (field "businessPersistence" (str "unobserved") end);
  warnings = [];
}

unfoldable pub not_dispatched : WorkflowError → ExecutionOutcome
unfolding completed
not_dispatched e = record (completed null no_effect) {
  execution = not_dispatched_status;
  error = some e;
}

unfoldable pub failed : WorkflowError → EffectStatus → ExecutionOutcome
unfolding completed
failed e effect = record (completed null effect) { execution = failed_status; error = some e }

unfoldable pub unknown : WorkflowError → ExecutionOutcome
unfolding completed
unknown e = record (completed null possible) { execution = outcome_unknown; error = some e }

abbrev pub is_completed : ExecutionStatus → Bool
is_completed completed_status = true
is_completed not_dispatched_status = false
is_completed failed_status = false
is_completed outcome_unknown = false

abbrev pub is_passed : VerificationStatus → Bool
is_passed passed = true
is_passed not_requested = false
is_passed failed_check = false
is_passed inconclusive = false

abbrev pub is_passed_or_not_requested : VerificationStatus → Bool
is_passed_or_not_requested not_requested = true
is_passed_or_not_requested passed = true
is_passed_or_not_requested failed_check = false
is_passed_or_not_requested inconclusive = false

abbrev pub is_error_free : ExecutionOutcome → Bool
is_error_free o = elim o.error [ none ↦ true | some _ ↦ false ]

unfoldable pub is_success : Bool → ExecutionOutcome → Bool
is_success expect o =
    is_completed o.execution
    && is_error_free o
    && (if expect then is_passed o.verification else is_passed_or_not_requested o.verification)
