-- ===== src/Service/Registry.antt =====
-- The runs by the keys of their callers: `create`, up to the start of the run, and `find`.
use tauri_connector.Json
use tauri_connector.Json.{Value, str, obj, field, end}
use tauri_connector.Json.Edit.{edit, remove_field}
use tauri_connector.Json.Reads.{at, is_text}
use tauri_connector.Map
use tauri_connector.Map.{Map}
use tauri_connector.Outcome.Facts.{WorkflowError, new_error}
use tauri_connector.Workflow.Spec.{Step, WorkflowSpec}
use tauri_connector.Service.State.{Machine, Ack}
use tauri_connector.Service.Drive.{record_run}
use tauri_connector.Prelude.{
  ℕ, ◌+◌, String, Bool, not, ◌&&◌, ◌||◌, Option, none, some, List, [], ◌∷◌, map, Result, ok, err,
  ◌>>=◌, ◌>>◌, refuse_if, if◌then◌else◌, leb, length, str_eq, codes,
}

-- `error` of the service
abbrev pub service_error : String → String → WorkflowError
service_error code message = new_error code "workflow" (codes message)

-- `serde_json::to_value` of a step and of a spec, and the text of the HMAC of a value under the
-- key of the journal.
pub record Printing : Type 0 where
  pub encode_step : Step → Option Value
  pub encode : WorkflowSpec → Option Value
  pub hmac : Value → Option String

abbrev pub or_refuse {ℓ} : {A : Type ℓ} → WorkflowError → Option A → Result WorkflowError A
or_refuse e none = err e
or_refuse e (some a) = ok a

-- option.get_or_insert(value)
abbrev pub fill {ℓ} : {A : Type ℓ} → A → Option A → Option A
fill a none = some a
fill a (some b) = some b

unfoldable pub normalize_step : WorkflowSpec → Step → Step
normalize_step spec step = record step {
  window_id = fill spec.window_id step.window_id;
  timeout_ms = fill spec.defaults.step_timeout_ms step.timeout_ms;
  evidence = fill spec.evidence step.evidence;
}

unfoldable pub normalize : WorkflowSpec → WorkflowSpec
normalize spec = record spec { steps = map (normalize_step spec) spec.steps }

-- `canonical_value`; what fails is given the caller's error
unfoldable pub canonical_value : Printing → WorkflowSpec → Option Value
canonical_value p spec = elim (p.encode (normalize spec)) [
  | none ↦ none
  | some v ↦ some (edit (remove_field "runKey") v)
]

-- `fingerprint`; objects are in the order of their keys already
unfoldable pub fingerprint : Printing → Value → Option String
fingerprint p v = p.hmac (edit (remove_field "runKey") v)

abbrev pub allowed_tool : String → Bool
allowed_tool name = str_eq name "bridge_status" || str_eq name "ipc_get_backend_state"

abbrev pub text_of : Value → String
text_of v = elim (Json.as_str v) [ none ↦ "" | some s ↦ s ]

unfoldable pub check_tools : Printing → List Step → Result WorkflowError (Unit {0})
check_tools p [] = ok tt
check_tools p (step ∷ steps) =
    or_refuse (service_error "invalid_spec" "Cannot encode step") (p.encode_step step) >>= λ v.
    refuse_if (is_text (at v "op") "tool" && not (allowed_tool (text_of (at v "tool"))))
      (service_error "unauthorized" "Tool is not in the workflow allowlist")
    >> check_tools p steps

pub record Prints : Type 0 where
  pub spec_hash : String
  pub principal_hash : String
  pub run_key_hash : String

abbrev pub unprinted : String → WorkflowError
unprinted message = service_error "persistence_unavailable" message

unfoldable pub prints : Printing → String → WorkflowSpec → Result WorkflowError Prints
prints p principal spec =
    check_tools p spec.steps
    >> (or_refuse (service_error "invalid_spec" "Cannot encode workflow") (p.encode spec)
        >>= λ normalized.
            or_refuse (service_error "invalid_spec" "Cannot normalize workflow")
              (canonical_value p spec)
            >>= λ canonical.
                or_refuse (unprinted "Cannot fingerprint workflow") (fingerprint p canonical)
                >>= λ spec_hash.
                    or_refuse (unprinted "Cannot fingerprint principal")
                      (fingerprint p (obj (field "principal" (str principal) end)))
                    >>= λ principal_hash.
                        or_refuse (unprinted "Cannot fingerprint run identity") (
                          fingerprint p (
                            obj (
                              field "logicalKey" (str spec.run_key)
                                (field "principal" (str principal) end))))
                        >>= λ run_key_hash. ok (record {
                          spec_hash = spec_hash;
                          principal_hash = principal_hash;
                          run_key_hash = run_key_hash;
                        }))

-- a run and what `create` remembers of its caller
pub record Entry : Type 0 where
  pub run : Machine
  pub prints : Prints

pub record Registry : Type 0 where
  pub by_key : Map String
  pub runs : Map Entry

abbrev pub no_runs : Registry
no_runs = record { by_key = []; runs = [] }

-- Whether the journal is open, whether the memory of the run is reserved, its fresh id, and the
-- answer of the journal to its first record.
pub record Creation : Type 0 where
  pub journal : Bool
  pub reserved : Bool
  pub run_id : String
  pub ack : Ack

-- an index that is not there panics
pub data Created : Type 0 where
  refused : WorkflowError → Created
  answered : String → Created
  panicked : Created

unfoldable pub live : Map Entry → ℕ
live [] = 0
live ((id, e) ∷ runs) = (if e.run.run.executing then 1 else 0) + live runs

unfoldable pub register : String → Creation → Prints → WorkflowSpec → Registry → Registry
register app c prints spec r = record {
  by_key = Map.insert prints.run_key_hash c.run_id r.by_key;
  runs = Map.insert c.run_id (record { run = record_run app c.ack spec; prints = prints }) r.runs;
}

-- a key that is not bound yet
unfoldable pub admit : String → Creation → Prints → WorkflowSpec → Registry → Created × Registry
admit app c prints spec r =
    if leb 1000 (length r.runs)
    then (
      refused (
          service_error "resource_busy"
            "Run retention capacity reached; existing identities are preserved"),
      r,
    )
    else if leb 20 (live r.runs)
    then (refused (service_error "resource_busy" "Active and queued workflow capacity reached"), r)
    else if not c.reserved
    then (
      refused (
          service_error "resource_busy"
            "Host run retention budget is full; existing identities are preserved"),
      r,
    )
    else (answered c.run_id, register app c prints spec r)

abbrev pub run_key_conflict : WorkflowError
run_key_conflict =
    service_error "run_key_conflict"
      "runKey is already bound to a different effective specification"

-- the answer for a key that is bound
unfoldable pub existing : Prints → String → Option Entry → Created
existing prints id none = panicked
existing prints id (some e) =
    if str_eq e.prints.spec_hash prints.spec_hash then answered id else refused run_key_conflict

unfoldable pub bind :
    String → Creation → Prints → WorkflowSpec → Registry → Option String → Created × Registry
bind app c prints spec r none = admit app c prints spec r
bind app c prints spec r (some id) = (existing prints id (Map.get id r.runs), r)

unfoldable pub create_with :
    String → Creation → Result WorkflowError Prints → WorkflowSpec → Registry → Created × Registry
create_with app c (err e) spec r = (refused e, r)
create_with app c (ok prints) spec r =
    bind app c prints spec r (Map.get prints.run_key_hash r.by_key)

unfoldable pub create :
    Printing → String → Creation → String → WorkflowSpec → Registry → Created × Registry
create p app c principal spec r =
    if c.journal then create_with app c (prints p principal spec) spec r else (
      refused (
          service_error "persistence_unavailable"
            "Workflow journal is unavailable; new operations are disabled"),
      r,
    )

-- `find`: a run is found by its own principal only
abbrev pub find_entry : String → Option Entry → Result WorkflowError Entry
find_entry principal_hash none = err (service_error "run_not_found" "Unknown workflow run")
find_entry principal_hash (some e) =
    if str_eq e.prints.principal_hash principal_hash
    then ok e
    else err (service_error "run_not_found" "Unknown workflow run")

unfoldable pub find : String → String → Registry → Result WorkflowError Entry
find id principal_hash r = find_entry principal_hash (Map.get id r.runs)

-- What happens to the registry: a run is created, or one that is there goes on.
pub data Change : Type 0 where
  creates : Creation → String → WorkflowSpec → Change
  changes : String → (Machine → Machine) → Change

abbrev pub go_on : (Machine → Machine) → Entry → Entry
go_on f e = record e { run = f e.run }

unfoldable pub apply : Printing → String → Change → Registry → Registry
unfolding create
apply p app (creates c principal spec) r = (create p app c principal spec r).1
apply p app (changes id f) r = record r { runs = Map.modify id (go_on f) r.runs }

unfoldable pub apply_all : Printing → String → List Change → Registry → Registry
unfolding apply
apply_all p app [] r = r
apply_all p app (c ∷ cs) r = apply_all p app cs (apply p app c r)
