-- ===== src/Outcome/Tests.antt =====
-- The adapters on sample answers.
use tauri_connector.Json.{Value, str, bool, obj, end, field}
use tauri_connector.Outcome.Facts.{is_success, completed}
use tauri_connector.Outcome.Adapters.{legacy_outcome, canonical, is_named, with_verdict, text_field}
use tauri_connector.Outcome.Verdicts.{
  legacy_outcome-is_verified, is_wait, is_verified_action, has_verdict,
}
use tauri_connector.Prelude.{◌≡◌, true, false, not, ◌&&◌, refl}

abbrev passed_verdict : Value
passed_verdict = obj (field "verdict" (str "passed") end)

verified : is_success true (legacy_outcome "webview_act_and_verify" passed_verdict) ≡ true
unfolding legacy_outcome canonical is_named with_verdict text_field completed is_success
verified = refl

legacy_outcome-is_verified_example :
    is_success true (legacy_outcome "webview_act_and_verify" passed_verdict) ≡ (
      not (is_wait "webview_act_and_verify")
      && is_verified_action "webview_act_and_verify"
      && has_verdict passed_verdict "passed")
legacy_outcome-is_verified_example =
    legacy_outcome-is_verified "webview_act_and_verify" passed_verdict

abbrev timed_out : Value
timed_out = obj (field "timeout" (bool true) (field "found" (bool false) end))
