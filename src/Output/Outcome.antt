-- ===== src/Output/Outcome.antt =====
-- The facts of the outcome that blocked a run come before all else that is shown.
use tauri_connector.Json
use tauri_connector.Json.{Value, null, bool, num, other, str, arr, obj, Fields, end, field}
use tauri_connector.Json.Edit.{put_field, edit, find_field-put_field}
use tauri_connector.Output.{
  set_omitted, bare_compact, first_compact, insert_each, insert_outcome, insert_refs, run_keys,
  detail_keys, compact, project, fits, inside, evidence_refs_of, strip, strip_outcome,
}
use tauri_connector.Output.Settled.{set_omitted-twice, put_field-IsCounted}
use tauri_connector.Output.Compact.{
  IsSize, Shows, AreCounted, keys-Shows, keys-IsCounted, insert_from_coverage-Shows,
  insert_refs-Shows,
}
use tauri_connector.Prelude.{
  ℕ, ◌≤◌, ◌≡◌, refl, ap, arith, Option, none, some, List, length, Bool-cases, inl, inr,
}
use tauri_connector.Output.Facts.{
  all_facts, SameFacts, all_facts-SameFacts, outcome_facts-Fits, insert_found-Fits,
}
use tauri_connector.Output.Stripped.{
  inside-strip_outcome, stripped-outcome, stripped-refs, stripped-facts,
}

module _ (size : Value → ℕ) (budget : ℕ) (is_size : IsSize size) where
  -- The report has room for the facts of its outcome beside the counts of what is left out.
  abbrev pub HasRoom : Value → Value → Type 0
  HasRoom report outcome =
      size (
        obj (
          put_field "blockedOutcome" (obj (all_facts outcome))
            (first_compact (evidence_refs_of report))))
      ≤ budget

  first-AreCounted :
      (refs : Option (List Value)) (facts : Value)
      → AreCounted size budget is_size facts refs
          (put_field "blockedOutcome" facts (first_compact refs))
  unfolding AreCounted first_compact
  first-AreCounted none facts = tt
  first-AreCounted (some refs) facts =
      put_field-IsCounted (length refs) "blockedOutcome" facts
        (set_omitted (length refs) bare_compact) refl
        (set_omitted-twice (length refs) (length refs) bare_compact)

  outcome-inserted :
      (o : Value) (fs : Fields)
      → size (obj (put_field "blockedOutcome" (obj (all_facts o)) fs)) ≤ budget
      → insert_outcome size budget (some o) fs ≡ put_field "blockedOutcome" (obj (all_facts o)) fs
  unfolding insert_outcome
  outcome-inserted o fs room =
      rw
        (outcome_facts-Fits size budget is_size o
          (ground (arith, is_size.holds "blockedOutcome" (obj (all_facts o)) fs)))
        (insert_found-Fits size budget is_size "blockedOutcome" (some (obj (all_facts o))) fs
          (ground arith))

  keys-AreCounted :
      (refs : Option (List Value)) (facts v : Value) (fs : Fields)
      → AreCounted size budget is_size facts refs fs
      → AreCounted size budget is_size facts refs (insert_each size budget run_keys v fs)
  unfolding AreCounted
  keys-AreCounted none facts v fs h = tt
  keys-AreCounted (some refs) facts v fs h =
      keys-IsCounted size budget is_size facts (length refs) run_keys v refl fs h

  compact-Shows :
      (report o : Value)
      → Json.get report "blockedOutcome" ≡ some o
      → HasRoom report o
      → Shows size budget is_size (obj (all_facts o)) (compact size budget report)
  unfolding compact
  compact-Shows report o there room =
      let refs = evidence_refs_of report in
      let facts = obj (all_facts o) in
      let first = put_field "blockedOutcome" facts (first_compact refs) in
      let run = insert_each size budget run_keys report first in
      let named = insert_refs size budget refs run in
      let start : Shows size budget is_size facts first = record {
        shown = find_field-put_field "blockedOutcome" "blockedOutcome" facts (first_compact refs);
        within = ground arith;
      } in
      rw there (
        rw (outcome-inserted o (first_compact refs) room) (
          insert_from_coverage-Shows size budget is_size facts (Json.get report "coverage")
            (insert_each size budget detail_keys report named)
            (keys-Shows size budget is_size facts detail_keys report refl named (
              insert_refs-Shows size budget is_size facts refs run
                (keys-AreCounted refs facts report first (first-AreCounted refs facts))
                (keys-Shows size budget is_size facts run_keys report refl first start)))))

strip_outcome-SameFacts : (o : Value) → SameFacts (strip_outcome o) o
strip_outcome-SameFacts o = (
  inside-strip_outcome o "execution" refl,
  inside-strip_outcome o "verification" refl,
  inside-strip_outcome o "effect" refl,
  ap (λ d. inside d "requestId") (inside-strip_outcome o "dispatch" refl),
)

-- However small the budget, as long as it has room for the facts of the outcome that blocked a run
-- beside the counts of what is left out, the outcome that is shown has the execution, the
-- verification, the effect and the id of the request of that outcome. (The bytes of a value are
-- taken to behave as the laws above say.)
pub project-keeps_outcome :
    (size : Value → ℕ) (budget : ℕ) (report outcome : Value)
    → (is_size : IsSize size) → Json.get report "blockedOutcome" ≡ some outcome
    → HasRoom size budget is_size report outcome
    → (shown : Value) × (Json.get (project size budget report) "blockedOutcome" ≡ some shown)
      × SameFacts shown outcome
unfolding project
project-keeps_outcome size budget report outcome is_size there room =
    let stripped = edit strip report in
    let small = compact size budget stripped in
    let shows : Shows size budget is_size (obj (all_facts outcome)) small =
      rw (stripped-facts outcome) at (
        compact-Shows size budget is_size stripped (strip_outcome outcome)
          (stripped-outcome report outcome there)
          (rw (stripped-facts outcome, stripped-refs report outcome there) room)) in
    elim (Bool-cases (fits size budget report)) [
      | inl whole ↦ (outcome, rw whole there, (refl, refl, refl, refl))
      | inr large ↦ elim (Bool-cases (fits size budget stripped)) [
        | inl bare ↦ (
          strip_outcome outcome,
          rw (large, bare) (stripped-outcome report outcome there),
          strip_outcome-SameFacts outcome,
        )
        | inr larger ↦ (
          obj (all_facts outcome),
          rw (large, larger, shows.within) (unfold Json.get in shows.shown),
          all_facts-SameFacts outcome,
        )
      ]
    ]
