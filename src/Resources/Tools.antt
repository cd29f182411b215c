-- ===== src/Resources/Tools.antt =====
-- The resources that each tool takes.
use tauri_connector.Json
use tauri_connector.Json.{Value}
use tauri_connector.Resources.Admission.{try_acquire_iff}
use mathlib.Core.Option
use tauri_connector.Map
use tauri_connector.Map.{
  Map, has_key, get-insert, get-remove, get-modify, get-remove_all, get-remove_kept, has_key-keep,
  none_kept, remove_absent, insert-IsDistinct, remove-IsDistinct, modify-IsDistinct,
  remove_all-IsDistinct,
}
use tauri_connector.Resources.Paths.{overlaps}
use tauri_connector.Resources.Scopes.{conflicts_refl}
use tauri_connector.Resources.State.{ArbiterState}
use tauri_connector.Resources.Arbiter.{try_acquire}
use tauri_connector.Prelude.{
  ℕ, String, ◌≡◌, ◌≢◌, inl, inr, refl, Bool, true, ◌&&◌, Option, none, some, List, [], ◌∷◌, ◌++◌,
  arith, str_eq, if◌then◌else◌, Bool-cases, any, Text, codes, is_ok,
}

abbrev pub one_of : List String → String → Bool
one_of names name = any (λ n. str_eq name n) names

-- tools that only read what the host keeps
abbrev pub diagnostic_tools : List String
diagnostic_tools =
    "console_logs" ∷ "read_logs" ∷ "read_log_file" ∷ "runtime_get_captured" ∷ "event_get_captured"
    ∷ "get_cached_dom" ∷ "list_devices" ∷ "get_setup_instructions" ∷ "ipc_get_captured"
    ∷ "ipc_get_events" ∷ "ipc_get_backend_state" ∷ "get_runtime_events" ∷ "debug_get_runtime"
    ∷ "debug_get_timeline" ∷ "artifact_list" ∷ "artifact_read" ∷ "bridge_status" ∷ "get_app_info"
    ∷ "get_env_info" ∷ "get_tauri_info" ∷ "ping" ∷ "resources" ∷ "workflow_capabilities"
    ∷ "window_list" ∷ "window_info" ∷ "window_focus" ∷ []

-- tools that run input handlers or page code in one window
abbrev pub page_tools : List String
page_tools =
    "webview_interact" ∷ "webview_keyboard" ∷ "webview_screenshot" ∷ "webview_dom_snapshot"
    ∷ "webview_wait_for" ∷ "webview_find_element" ∷ "webview_get_styles" ∷ "webview_locator"
    ∷ "webview_act_and_verify" ∷ []

abbrev pub as_str_or : String → Option Value → String
as_str_or default none = default
as_str_or default (some v) = Option.get_or (Json.as_str v) default

abbrev pub window_of : Value → String
window_of args = elim (Json.get args "windowId") [
  | some v ↦ as_str_or "main" (some v)
  | none ↦ as_str_or "main" (Json.get args "window_id")
]

abbrev pub is_read_action : Value → Bool
is_read_action args =
    one_of ("list" ∷ "info" ∷ "focus" ∷ []) (as_str_or "" (Json.get args "action"))

abbrev page_scopes : Value → List Text
page_scopes args = codes "ui/global-focus" ∷ (codes "ui/window/" ++ codes (window_of args)) ∷ []

unfoldable pub tool_resources : String → Value → List Text
unfolding Json.get Json.as_str
tool_resources name args =
    if one_of diagnostic_tools name
    then []
    else if str_eq name "manage_window" && is_read_action args
    then []
    else if one_of page_tools name
    then codes "backend" ∷ page_scopes args
    else codes "backend" ∷ codes "ui" ∷ []

backend_meets : (xs ys : List Text) → overlaps (codes "backend" ∷ xs) (codes "backend" ∷ ys) ≡ true
unfolding overlaps
backend_meets xs ys = ground (arith, conflicts_refl (codes "backend"))

rest_scopes : String → Value → List Text
rest_scopes name args = if one_of page_tools name then page_scopes args else codes "ui" ∷ []

takes_backend :
    (name : String) (args : Value)
    → tool_resources name args ≢ []
    → tool_resources name args ≡ codes "backend" ∷ rest_scopes name args
takes_backend name args h = elim (Bool-cases (one_of diagnostic_tools name)) [
  | inl free ↦ absurd (h (unfold tool_resources in rw free refl))
  | inr held ↦ elim (Bool-cases (str_eq name "manage_window" && is_read_action args)) [
    | inl free ↦ absurd (h (unfold tool_resources in rw (held, free) refl))
    | inr acts ↦
        unfold tool_resources rest_scopes in
        rw (held, acts)
          (elim (Bool-cases (one_of page_tools name)) [
            | inl page ↦ rw page refl
            | inr other ↦ rw other refl
          ])
  ]
]

-- Any two calls of tools that take resources conflict, whatever their arguments.
pub tool_resources_exclude :
    (name other : String) (args other_args : Value)
    → tool_resources name args ≢ []
    → tool_resources other other_args ≢ []
    → overlaps (tool_resources name args) (tool_resources other other_args) ≡ true
tool_resources_exclude name other args other_args h k =
    rw (takes_backend name args h, takes_backend other other_args k)
      (backend_meets (rest_scopes name args) (rest_scopes other other_args))

-- In a table with distinct keys, a call of a diagnostic tool is granted its lease.
pub diagnostics_admitted :
    (name owner : String) (args : Value) (now : ℕ) (s : ArbiterState)
    → Map.IsDistinct s.held
    → one_of diagnostic_tools name ≡ true
    → is_ok (try_acquire owner now (tool_resources name args) s).0 ≡ true
diagnostics_admitted name owner args now s d h =
    let none_taken : tool_resources name args ≡ [] = unfold tool_resources in ground arith in
    rw none_taken ((try_acquire_iff owner now [] s d).1 (λ id e p. unfold overlaps in refl))
