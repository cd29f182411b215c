-- ===== src/Picker/Entries.antt =====
-- `Entry` and what ends it: the end of the selection, and the loss of the page or of its window.
use tauri_connector.Json
use tauri_connector.Json.{
  Value, null, bool, num, other, str, arr, obj, Fields, end, field, Items, no_items, item,
}
use tauri_connector.Json.Reads.{at, is_text}
use tauri_connector.Prelude.{
  ℕ, ◌+◌, ◌-◌, ◌*◌, min, String, Bool, true, false, not, ◌&&◌, ◌||◌, Option, none, some, List, [],
  ◌∷◌, ◌++◌, if◌then◌else◌, any, str_eq,
}

abbrev pub max_metadata : ℕ
max_metadata = 16 * 1024

abbrev pub retention_ms : ℕ
retention_ms = 300 * 1000

abbrev pub cleanup_ms : ℕ
cleanup_ms = 2200

-- Instant::now() and now_ms(), both in milliseconds
pub record Clock : Type 0 where
  pub instant : ℕ
  pub now_ms : ℕ

pub record Entry : Type 0 where
  pub id : String
  pub nonce : String
  pub window_id : String
  pub deadline : ℕ
  pub retained_until : ℕ
  pub retained_ms : ℕ
  pub context : Value
  pub status : String
  pub revision : ℕ
  pub sequence : ℕ
  pub selection : Option Value
  pub screenshot : Value
  pub image : Option (List ℕ)
  pub image_reservation : Option ℕ
  pub cleanup : String
  pub cleanup_deadline : Option ℕ
  pub complete : Bool
  pub lease : Option String
  pub warnings : List String
  pub cancel_capture : Bool

abbrev pub is_one_of : List String → String → Bool
is_one_of names name = any (λ n. str_eq n name) names

unfoldable pub active : Entry → Bool
active e = is_one_of ("created" ∷ "installing" ∷ "awaiting_selection" ∷ []) e.status

abbrev pub is_pending : Entry → Bool
is_pending e = is_text (at e.screenshot "status") "pending"

abbrev pub cancelled_shot : Value
cancelled_shot = obj (field "status" (str "cancelled") end)

abbrev pub failed_shot : Value
failed_shot = obj (
    field "error" (obj (field "code" (str "capture_context_changed") end))
      (field "status" (str "failed") end))

unfoldable pub terminal : Clock → String → Entry → Entry
unfolding active Json.get Json.as_str
terminal clock status e = if not (active e) then e else record e {
  status = status;
  cleanup_deadline = some (clock.instant + cleanup_ms);
  revision = e.revision + 1;
  retained_until = clock.instant + retention_ms;
  retained_ms = clock.now_ms + retention_ms;
  screenshot =
      if not (str_eq status "selected") && is_pending e then cancelled_shot else e.screenshot;
}

-- the end of a capture that waits still
unfoldable pub end_capture : Value → ℕ → Entry → Entry
end_capture shot more e =
    if is_pending e then record e { screenshot = shot; revision = e.revision + more } else e

unfoldable pub revoke : Clock → Entry → Entry
revoke clock e = end_capture cancelled_shot 1 (record (terminal clock "cancelled" e) {
  cancel_capture = true;
  selection = none;
  image = none;
  image_reservation = none;
})

unfoldable pub begin_target_cleanup : Clock → Entry → Entry
begin_target_cleanup clock e =
    end_capture failed_shot 1 (record (terminal clock "target_changed" e) { cancel_capture = true })

unfoldable pub page_unavailable : Clock → Bool → Entry → Entry
page_unavailable clock destroyed e =
    let lost = begin_target_cleanup clock e in
    if str_eq e.cleanup "context_destroyed"
    then e
    else if destroyed
    then record lost { cleanup = "context_destroyed"; lease = none; revision = lost.revision + 1 }
    else record lost {
      cleanup = "unconfirmed";
      warnings = lost.warnings ++ "cleanup_unconfirmed" ∷ [];
      revision = lost.revision + 1;
    }

-- an entry of the window that is not over yet
abbrev pub is_concerned : String → Entry → Bool
is_concerned window e =
    str_eq e.window_id window && (not e.complete || (elim e.lease [ none ↦ false | some _ ↦ true ]))

-- the body of the loop in `window_closed`
unfoldable pub close_window : Clock → String → Entry → Entry
close_window clock window e =
    let lost = record (terminal clock "target_changed" e) {
      cancel_capture = true;
      cleanup = "context_destroyed";
      lease = none;
    } in
    let ended = end_capture failed_shot 0 lost in
    if is_concerned window e then record ended { revision = ended.revision + 1 } else e

-- how many milliseconds are left for the cleanup
unfoldable pub cleanup_budget : Clock → ℕ → Entry → ℕ
cleanup_budget clock maximum e = elim e.cleanup_deadline [
  | none ↦ maximum
  | some deadline ↦ min (deadline - clock.instant) maximum
]
