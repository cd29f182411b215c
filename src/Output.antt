-- ===== src/Output.antt =====
-- plugin/src/workflow/output.rs: the bounded presentation of a run's report. `size` is how many
-- bytes `serde_json` writes a value in; `fits` counts them against the budget.
mod Settled
mod Compact
mod Facts
mod Stripped
pub mod Outcome
mod Tests
use Prim.Native.Nat.{ℕ}
use tauri_connector.Json
use tauri_connector.Json.{
  Value, null, bool, num, str, arr, obj, Fields, end, field, Items, no_items, item,
}
use tauri_connector.Json.Edit.{
  put_field, remove_field, modify_field, edit, push_item, drop_last, edit_array,
}
use tauri_connector.Prelude.{
  zero, suc, ◌-◌, String, Bool, true, false, not, ◌||◌, Option, none, some, List, [], ◌∷◌,
  if◌then◌else◌, leb, length, take,
}

abbrev pub max_inline_evidence_refs : ℕ
max_inline_evidence_refs = 64

abbrev pub texts : List String → Items
texts [] = no_items
texts (t ∷ ts) = item (str t) (texts ts)

abbrev pub remove_each : List String → Fields → Fields
remove_each [] fs = fs
remove_each (k ∷ ks) fs = remove_each ks (remove_field k fs)

unfoldable pub strip_outcome : Value → Value
strip_outcome = edit (λ fs.
    modify_field "error" (edit (remove_each ("message" ∷ "details" ∷ "stack" ∷ [])))
      (remove_each ("data" ∷ "warnings" ∷ []) fs))

abbrev pub strip_items : Items → Items
strip_items no_items = no_items
strip_items (item v vs) =
    item (edit (λ fs. modify_field "outcome" strip_outcome (remove_field "data" fs)) v)
      (strip_items vs)

abbrev pub omitted_fields : List String
omitted_fields =
    "/evidence" ∷ "/events" ∷ "/steps/*/outcome/data" ∷ "/blockedOutcome/data"
    ∷ "/blockedOutcome/error/message" ∷ []

unfoldable pub with_coverage : Fields → Fields
with_coverage fs = elim (Json.find_field "coverage" fs) [
  | none ↦ put_field "coverage" (obj end) fs
  | some v ↦ if Json.is_object v then fs else put_field "coverage" (obj end) fs
]

abbrev pub truncated : Value → Value
truncated = edit (λ c.
    put_field "omittedFields" (arr (texts omitted_fields)) (put_field "truncated" (bool true) c))

-- the fields of a report without the bodies of diagnostics
unfoldable pub strip : Fields → Fields
strip fs =
    let bare = remove_each ("evidence" ∷ "events" ∷ "warnings" ∷ []) fs in
    let blocked = modify_field "blockedOutcome" strip_outcome bare in
    let steps = modify_field "steps" (edit_array strip_items) blocked in
    modify_field "coverage" truncated (with_coverage steps)

abbrev pub inside : Option Value → String → Option Value
inside none name = none
inside (some v) name = Json.get v name

abbrev pub or_else : Option Value → Option Value → Option Value
or_else none other = other
or_else (some v) other = some v

abbrev pub list_in : Option Value → Option (List Value)
list_in none = none
list_in (some v) = Json.as_array v

-- `refs`
unfoldable pub evidence_refs_of : Value → Option (List Value)
evidence_refs_of report = list_in (
    or_else (Json.get report "evidenceRefs")
      (inside (Json.get report "blockedOutcome") "evidenceRefs"))

abbrev pub outcome_keys : List String
outcome_keys = "execution" ∷ "verification" ∷ "effect" ∷ []

abbrev pub run_keys : List String
run_keys =
    "runId" ∷ "revision" ∷ "status" ∷ "checkpointId" ∷ "cursor" ∷ "reason" ∷ "originalTestVerdict"
    ∷ "goalStatus" ∷ "recoveryOccurred" ∷ "mayHaveEffects" ∷ "resourceIsolation"
    ∷ "allowedNextActions" ∷ []

abbrev pub detail_keys : List String
detail_keys =
    "summary" ∷ "blockedStep" ∷ "dispatchContext" ∷ "cancellation" ∷ "lateOutcome" ∷ "appInstanceId"
    ∷ "buildId" ∷ []

abbrev pub coverage_keys : List String
coverage_keys = "correlation" ∷ "businessPersistence" ∷ "sources" ∷ []

-- `compact["coverage"]["omittedEvidenceRefs"] = json!(n)`
unfoldable pub set_omitted : ℕ → Fields → Fields
set_omitted n = modify_field "coverage" (edit (put_field "omittedEvidenceRefs" (num n)))

abbrev pub bare_compact : Fields
bare_compact =
    field "coverage" (obj (field "truncated" (bool true) end))
      (field "evidenceRefs" (arr no_items) end)

unfoldable pub first_compact : Option (List Value) → Fields
first_compact none = bare_compact
first_compact (some refs) = set_omitted (length refs) bare_compact

abbrev pub fallback : Value
fallback = obj (
    field "coverage" (obj (field "truncated" (bool true) end))
      (field "reason" (str "output_budget_exceeded") end))

module _ (size : Value → ℕ) (budget : ℕ) where
  abbrev pub fits : Value → Bool
  fits v = leb (size v) budget

  unfoldable pub insert_if_fits : String → Value → Fields → Fields
  insert_if_fits k v fs =
      let after = put_field k v fs in
      if not (fits v) then fs else if fits (obj after) then after else remove_field k after

  -- `if let Some(value)`
  abbrev pub insert_found : String → Option Value → Fields → Fields
  insert_found k none fs = fs
  insert_found k (some v) fs = insert_if_fits k v fs

  -- each field of the value that is there, in this order
  unfoldable pub insert_each : List String → Value → Fields → Fields
  insert_each [] v fs = fs
  insert_each (k ∷ ks) v fs = insert_each ks v (insert_found k (Json.get v k) fs)

  unfoldable pub pick_bounded : Value → List String → Fields
  pick_bounded v keys = insert_each keys v end

  unfoldable pub put_request : Option Value → Fields → Fields
  put_request none facts = facts
  put_request (some request_id) facts =
      put_field "dispatch" (obj (insert_if_fits "requestId" request_id end)) facts

  -- `facts`
  unfoldable pub outcome_facts : Value → Fields
  outcome_facts outcome =
      put_request (inside (Json.get outcome "dispatch") "requestId")
        (pick_bounded outcome outcome_keys)

  unfoldable pub insert_outcome : Option Value → Fields → Fields
  insert_outcome none fs = fs
  insert_outcome (some outcome) fs =
      insert_if_fits "blockedOutcome" (obj (outcome_facts outcome)) fs

  -- the loop over the references, with those that are left; `left` is how many these are
  unfoldable pub add_refs : ℕ → List Value → Fields → Fields
  add_refs left [] fs = fs
  add_refs left (r ∷ rs) fs =
      let pushed =
        set_omitted (left - 1) (modify_field "evidenceRefs" (edit_array (push_item r)) fs) in
      let rest = add_refs (left - 1) rs pushed in
      if not (Json.is_string r) || not (fits r)
      then fs
      else if fits (obj pushed)
      then rest
      else set_omitted left (modify_field "evidenceRefs" (edit_array drop_last) pushed)

  unfoldable pub insert_refs : Option (List Value) → Fields → Fields
  insert_refs none fs = fs
  insert_refs (some refs) fs = add_refs (length refs) (take max_inline_evidence_refs refs) fs

  unfoldable pub insert_coverage : String → Value → Fields → Fields
  insert_coverage k v fs =
      let after = modify_field "coverage" (edit (put_field k v)) fs in
      if not (fits v)
      then fs
      else if fits (obj after)
      then after
      else modify_field "coverage" (edit (remove_field k)) after

  abbrev pub insert_found_coverage : String → Option Value → Fields → Fields
  insert_found_coverage k none fs = fs
  insert_found_coverage k (some v) fs = insert_coverage k v fs

  unfoldable pub insert_coverages : List String → Value → Fields → Fields
  insert_coverages [] coverage fs = fs
  insert_coverages (k ∷ ks) coverage fs =
      insert_coverages ks coverage (insert_found_coverage k (Json.get coverage k) fs)

  unfoldable pub insert_from_coverage : Option Value → Fields → Fields
  insert_from_coverage none fs = fs
  insert_from_coverage (some coverage) fs = insert_coverages coverage_keys coverage fs

  -- `compact`
  unfoldable pub compact : Value → Fields
  compact report =
      let refs = evidence_refs_of report in
      let facts = insert_outcome (Json.get report "blockedOutcome") (first_compact refs) in
      let run = insert_each run_keys report facts in
      let named = insert_refs refs run in
      let detailed = insert_each detail_keys report named in
      insert_from_coverage (Json.get report "coverage") detailed

  unfoldable pub project : Value → Value
  unfolding compact
  project report =
      let stripped = edit strip report in
      let small = obj (compact stripped) in
      if fits report
      then report
      else if fits stripped
      then stripped
      else if fits small
      then small
      else if fits fallback
      then fallback
      else null
