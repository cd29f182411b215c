-- ===== src/Outcome/Verdicts.antt =====
-- What the adapters let count as success, and what they say of effects.
use tauri_connector.Json.{Value}
use tauri_connector.Outcome.Facts.{no_effect, possible, WorkflowError, is_success, completed}
use tauri_connector.Outcome.Adapters.{
  canonical, is_named, non_mutating_leased_tools, has_flag, text_field, legacy_error_outcome,
  legacy_outcome, with_wait, with_verdict,
}
use tauri_connector.Prelude.{
  String, ◌≡◌, refl, Bool, true, false, not, ◌&&◌, ◌||◌, none, some, [], ◌∷◌, str_eq, arith, eq_iff,
  if◌then◌else◌, Text, Option-cases, inl, inr,
}

-- the verdict of an action is this
abbrev pub has_verdict : Value → String → Bool
has_verdict v wanted = elim (text_field v "verdict") [
  | none ↦ false
  | some verdict ↦ str_eq verdict wanted
]

abbrev pub is_wait : String → Bool
is_wait tool = is_named (canonical tool) ("wait_for" ∷ "wait" ∷ [])

abbrev pub is_verified_action : String → Bool
is_verified_action tool = is_named (canonical tool) ("act_and_verify" ∷ [])

-- the helper's result on the two tools that it reads
with_wait-is_success :
    (expect : Bool) (v : Value)
    → is_success expect (with_wait (completed v possible))
      ≡ (not expect && not (has_flag v "timeout" true && has_flag v "found" false))
unfolding with_wait is_success completed
with_wait-is_success expect v = ground arith

-- a text is not two words at once
other : (s a b : String) → str_eq a b ≡ false → str_eq s a ≡ true → str_eq s b ≡ false
other s a b d h = rw ((eq_iff s a).0 h) d

with_verdict-is_success :
    (expect : Bool) (v : Value)
    → is_success expect (with_verdict (completed v possible)) ≡ (
        if expect
        then has_verdict v "passed"
        else not (has_verdict v "failed" || has_verdict v "inconclusive"))
unfolding with_verdict is_success completed
with_verdict-is_success expect v = elim (Option-cases (text_field v "verdict")) [
  | inl e ↦ ground arith
  | inr (verdict, e) ↦ ground (
    arith,
    other verdict "failed" "passed" refl,
    other verdict "failed" "inconclusive" refl,
    other verdict "passed" "inconclusive" refl,
  )
]

completed-is_success :
    (expect : Bool) (v : Value) → is_success expect (completed v possible) ≡ not expect
unfolding is_success completed
completed-is_success expect v = ground arith

-- Where a verification is required, the outcome of a value is a success exactly for a tool that is
-- `act_and_verify` and not a wait, with the verdict `passed`.
pub legacy_outcome-is_verified :
    (tool : String) (v : Value)
    → is_success true (legacy_outcome tool v)
      ≡ (not (is_wait tool) && is_verified_action tool && has_verdict v "passed")
legacy_outcome-is_verified tool v =
    unfold legacy_outcome in
    ground (
      arith,
      with_wait-is_success true v,
      with_verdict-is_success true v,
      completed-is_success true v,
    )

-- Where no verification is required, the outcome of a value is a failure exactly when a wait
-- reports its timeout with nothing found, or the verdict of `act_and_verify` is `failed` or
-- `inconclusive`.
pub legacy_outcome-is_success :
    (tool : String) (v : Value)
    → is_success false (legacy_outcome tool v)
      ≡ not (
          if is_wait tool
          then has_flag v "timeout" true && has_flag v "found" false
          else is_verified_action tool && (has_verdict v "failed" || has_verdict v "inconclusive"))
legacy_outcome-is_success tool v =
    unfold legacy_outcome in
    ground (
      arith,
      with_wait-is_success false v,
      with_verdict-is_success false v,
      completed-is_success false v,
    )

screenshot_named :
    (name : Text)
    → is_named name ("screenshot" ∷ []) ≡ true
    → is_named name non_mutating_leased_tools ≡ true
unfolding is_named
screenshot_named name h = ground arith

-- The outcome of an error is never a success, and its effect is none for the tools that only
-- observe the page and possible for all others.
pub legacy_error_outcome-effect :
    (tool : String) (e : WorkflowError) (expect : Bool)
    → (is_success expect (legacy_error_outcome tool e) ≡ false)
      × ((legacy_error_outcome tool e).effect
          ≡ (if is_named (canonical tool) non_mutating_leased_tools then no_effect else possible))
unfolding legacy_error_outcome is_success
legacy_error_outcome-effect tool e expect = ground (arith, screenshot_named (canonical tool))
