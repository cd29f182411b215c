-- ===== src/Output/Tests.antt =====
-- A report that is far over its budget. The bytes are counted by the pieces of a value here.
use tauri_connector.Json
use tauri_connector.Json.{
  Value, null, bool, num, other, str, arr, obj, Fields, end, field, Items, no_items, item,
}
use tauri_connector.Json.Edit.{put_field, remove_field, modify_field, edit}
use tauri_connector.Output.{
  compact, project, strip, strip_outcome, evidence_refs_of, first_compact, set_omitted, insert_each,
  insert_outcome, insert_if_fits, insert_refs, add_refs, insert_from_coverage, insert_coverages,
  insert_coverage, outcome_facts, pick_bounded, put_request, with_coverage,
}
use tauri_connector.Output.Facts.{all_facts, SameFacts}
use tauri_connector.Output.Compact.{IsSize}
use tauri_connector.Output.Outcome.{HasRoom, project-keeps_outcome}
use tauri_connector.Prelude.{ℕ, ◌+◌, ◌≤◌, ◌≡◌, refl, String, true, none, some, eq_iff, arith}

unfoldable mutual
  weight : Value → ℕ
  weight null = 1
  weight (bool _) = 1
  weight (num _) = 1
  weight (other _) = 1
  weight (str _) = 1
  weight (arr vs) = 1 + weight_of_items vs
  weight (obj fs) = 1 + weight_of_fields fs

  weight_of_fields : Fields → ℕ
  weight_of_fields end = 0
  weight_of_fields (field k v fs) = 1 + weight v + weight_of_fields fs

  weight_of_items : Items → ℕ
  weight_of_items no_items = 0
  weight_of_items (item v vs) = weight v + weight_of_items vs

weight-holds :
    (k : String) (v : Value) (fs : Fields) → weight v ≤ weight_of_fields (put_field k v fs)
unfolding weight_of_fields put_field
weight-holds k v end = omega arith
weight-holds k v (field j w fs) = ground (arith, weight-holds k v fs)

weight-grows :
    (k : String) (v : Value) (fs : Fields)
    → Json.find_field k fs ≡ none
    → weight_of_fields fs ≤ weight_of_fields (put_field k v fs)
unfolding weight_of_fields put_field Json.find_field
weight-grows k v end h = omega arith
weight-grows k v (field j w fs) h = ground (arith, weight-grows k v fs, eq_iff k j, eq_iff j k)

weight-shrinks :
    (k : String) (fs : Fields) → weight_of_fields (remove_field k fs) ≤ weight_of_fields fs
unfolding weight_of_fields remove_field
weight-shrinks k end = omega arith
weight-shrinks k (field j w fs) = ground (arith, weight-shrinks k fs)

weight-edit : (k : String) (v : Value) → weight (edit (remove_field k) v) ≤ weight v
unfolding weight
weight-edit k (obj fs) = omega (arith, weight-shrinks k fs)
weight-edit k (arr vs) = omega arith
weight-edit k null = omega arith
weight-edit k (bool _) = omega arith
weight-edit k (num _) = omega arith
weight-edit k (other _) = omega arith
weight-edit k (str _) = omega arith

weight-shrinks_inside :
    (k j : String) (fs : Fields)
    → weight_of_fields (modify_field k (edit (remove_field j)) fs) ≤ weight_of_fields fs
unfolding weight_of_fields modify_field
weight-shrinks_inside k j end = omega arith
weight-shrinks_inside k j (field i w fs) =
    ground (arith, weight-shrinks_inside k j fs, weight-edit j w)

weight-IsSize : IsSize weight
unfolding weight
weight-IsSize = record {
  holds = λ k v fs. omega (arith, weight-holds k v fs);
  grows = λ k v fs h. omega (arith, weight-grows k v fs h);
  shrinks = λ k fs. omega (arith, weight-shrinks k fs);
  shrinks_inside = λ k j fs. omega (arith, weight-shrinks_inside k j fs);
}

abbrev stuck : Value
stuck = obj (
    field "dispatch" (obj (field "requestId" (str "request-1") end))
      (field "effect" (str "possible") (field "execution" (str "outcome_unknown") end)))

abbrev long_list : Items
long_list =
    item null (item null (item null (item null (item null (item null (item null no_items))))))

abbrev long_report : Value
long_report = obj (
    field "blockedOutcome" stuck (
      field "evidenceRefs" (arr (item (str "artifact-1") no_items))
        (field "runId" (str "run-1") (field "unrecognized" (arr long_list) end))))

long-HasRoom : HasRoom weight 22 weight-IsSize long_report stuck
unfolding weight all_facts first_compact set_omitted evidence_refs_of Json.get Json.find_field
    Json.as_array put_field modify_field
long-HasRoom = omega arith

project-keeps_outcome_example :
    (shown : Value) × (Json.get (project weight 22 long_report) "blockedOutcome" ≡ some shown)
    × SameFacts shown stuck
unfolding Json.get
project-keeps_outcome_example =
    project-keeps_outcome weight 22 long_report stuck weight-IsSize refl long-HasRoom

-- The run's id goes in after the facts, then the reference.
long-shown :
    project weight 22 long_report
    ≡ obj (
        field "blockedOutcome" stuck (
          field "coverage"
            (obj (field "omittedEvidenceRefs" (num 0) (field "truncated" (bool true) end)))
            (field "evidenceRefs"
              (arr (item (str "artifact-1") no_items))
              (field "runId" (str "run-1") end))))
unfolding project compact weight evidence_refs_of first_compact set_omitted strip strip_outcome
    with_coverage insert_outcome insert_if_fits insert_each insert_refs add_refs
    insert_from_coverage insert_coverages insert_coverage outcome_facts pick_bounded put_request
    Json.get Json.find_field Json.as_array Json.is_string Json.is_object put_field modify_field
    remove_field
long-shown = refl
