-- ===== src/Output/Stripped.antt =====
-- What `strip` leaves of a report.
use tauri_connector.Json
use tauri_connector.Json.{Value, null, bool, num, other, str, arr, obj, Fields, end, field}
use tauri_connector.Json.Edit.{
  remove_field, modify_field, edit, edit_array, find_field-put_field, find_field-remove_field,
  find_field-modify_field,
}
use tauri_connector.Output.{
  evidence_refs_of, strip, strip_outcome, with_coverage, truncated, remove_each, strip_items,
}
use tauri_connector.Prelude.{
  String, ◌≡◌, refl, ◌∙◌, ap, false, str_eq, arith, some, [], ◌∷◌, ◌||◌, if◌then◌else◌,
}
use mathlib.Core.Option
use tauri_connector.Output.Facts.{all_facts}

pub inside-strip_outcome :
    (o : Value) (k : String)
    → str_eq "data" k || str_eq "warnings" k || str_eq "error" k ≡ false
    → Json.get (strip_outcome o) k ≡ Json.get o k
unfolding strip_outcome Json.get
inside-strip_outcome (obj fs) k h =
    let bare = remove_each ("data" ∷ "warnings" ∷ []) fs in
    ground (
      arith,
      find_field-modify_field "error" k (edit (remove_each ("message" ∷ "details" ∷ "stack" ∷ [])))
          bare,
      find_field-remove_field "warnings" k (remove_field "data" fs),
      find_field-remove_field "data" k fs,
    )
inside-strip_outcome null k h = refl
inside-strip_outcome (bool _) k h = refl
inside-strip_outcome (num _) k h = refl
inside-strip_outcome (other _) k h = refl
inside-strip_outcome (str _) k h = refl
inside-strip_outcome (arr _) k h = refl

with_coverage-find :
    (fs : Fields) (k : String)
    → str_eq "coverage" k ≡ false
    → Json.find_field k (with_coverage fs) ≡ Json.find_field k fs
unfolding with_coverage
with_coverage-find fs k h = ground (arith, find_field-put_field "coverage" k (obj end) fs)

strip-find :
    (fs : Fields) (k : String)
    → str_eq "evidence" k
        || str_eq "events" k
        || str_eq "warnings" k
        || str_eq "steps" k
        || str_eq "coverage" k
      ≡ false
    → Json.find_field k (strip fs) ≡ (
        if str_eq "blockedOutcome" k
        then Option.map strip_outcome (Json.find_field k fs)
        else Json.find_field k fs)
unfolding strip
strip-find fs k h =
    let bare = remove_each ("evidence" ∷ "events" ∷ "warnings" ∷ []) fs in
    let blocked = modify_field "blockedOutcome" strip_outcome bare in
    let steps = modify_field "steps" (edit_array strip_items) blocked in
    ground (
      arith,
      find_field-modify_field "coverage" k truncated (with_coverage steps),
      with_coverage-find steps k,
      find_field-modify_field "steps" k (edit_array strip_items) blocked,
      find_field-modify_field "blockedOutcome" k strip_outcome bare,
      find_field-remove_field "warnings" k (remove_field "events" (remove_field "evidence" fs)),
      find_field-remove_field "events" k (remove_field "evidence" fs),
      find_field-remove_field "evidence" k fs,
    )

pub stripped-outcome :
    (report o : Value)
    → Json.get report "blockedOutcome" ≡ some o
    → Json.get (edit strip report) "blockedOutcome" ≡ some (strip_outcome o)
unfolding Json.get
stripped-outcome (obj fs) o h =
    strip-find fs "blockedOutcome" refl ∙ ap (Option.map strip_outcome) h
stripped-outcome null o h = absurd (cc)
stripped-outcome (bool _) o h = absurd (cc)
stripped-outcome (num _) o h = absurd (cc)
stripped-outcome (other _) o h = absurd (cc)
stripped-outcome (str _) o h = absurd (cc)
stripped-outcome (arr _) o h = absurd (cc)

stripped-named :
    (report : Value) → Json.get (edit strip report) "evidenceRefs" ≡ Json.get report "evidenceRefs"
unfolding Json.get
stripped-named (obj fs) = strip-find fs "evidenceRefs" refl
stripped-named null = refl
stripped-named (bool _) = refl
stripped-named (num _) = refl
stripped-named (other _) = refl
stripped-named (str _) = refl
stripped-named (arr _) = refl

pub stripped-refs :
    (report o : Value)
    → Json.get report "blockedOutcome" ≡ some o
    → evidence_refs_of (edit strip report) ≡ evidence_refs_of report
unfolding evidence_refs_of
stripped-refs report o h =
    rw
      (
        stripped-named report,
        stripped-outcome report o h,
        h,
        inside-strip_outcome o "evidenceRefs" refl,
      )
      refl

pub stripped-facts : (o : Value) → all_facts (strip_outcome o) ≡ all_facts o
unfolding all_facts
stripped-facts o =
    rw
      (
        inside-strip_outcome o "execution" refl,
        inside-strip_outcome o "verification" refl,
        inside-strip_outcome o "effect" refl,
        inside-strip_outcome o "dispatch" refl,
      )
      refl
