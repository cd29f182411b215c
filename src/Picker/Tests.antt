-- ===== src/Picker/Tests.antt =====
-- A selection that is made, reported a second time, and then loses its page.
use tauri_connector.Json
use tauri_connector.Json.{Value, null, num, str, arr, obj, end, field, no_items}
use tauri_connector.Json.Edit.{put_field}
use tauri_connector.Json.Reads.{value_eq}
use tauri_connector.Picker.Entries.{Clock, Entry, active, terminal}
use tauri_connector.Picker.Reports.{
  accept, accept_status, accept_selection, accept_cleanup, sanitize_selection, pick_known, Event,
  reported, revoked, lost, closed, run,
}
use tauri_connector.Picker.Follows.{Follows}
use tauri_connector.Picker.Settled.{run-Follows, accept-once}
use tauri_connector.Prelude.{ℕ, ◌≡◌, refl, true, false, none, some, List, [], ◌∷◌}

abbrev clock_at : ℕ → Clock
clock_at n = record { instant = n; now_ms = 1000000 }

abbrev waiting : Entry
waiting = record {
  id = "app:picker:1";
  nonce = "n";
  window_id = "main";
  deadline = 60000;
  retained_until = 360000;
  retained_ms = 1360000;
  context = null;
  status = "awaiting_selection";
  revision = 3;
  sequence = 1;
  selection = none;
  screenshot = obj (field "status" (str "pending") end);
  image = none;
  image_reservation = none;
  cleanup = "pending";
  cleanup_deadline = none;
  complete = false;
  lease = some "ui/window/main";
  warnings = [];
  cancel_capture = false;
}

abbrev chosen : Value
chosen = obj (
    field "locatorCandidates" (arr no_items) (
      field "name" (str "Pay") (
        field "redaction" (obj (field "status" (str "applied") end))
          (field "secret" (str "x") end))))

abbrev choice : Value
choice = obj (
    field "cleanup" (obj (field "status" (str "confirmed") end)) (
      field "context" null (
        field "nonce" (str "n") (
          field "pickerId" (str "app:picker:1") (
            field "selection" chosen
              (field "sequence" (num 2) (field "status" (str "selected") end)))))))

abbrev short : Value → ℕ
short v = 100

abbrev after_choice : List Event
after_choice = lost (clock_at 7) true ∷ revoked (clock_at 8) ∷ closed (clock_at 9) "main" ∷ []

-- Of the selection only the known fields are kept, and the lease is gone.
choice-taken :
    ((accept short (clock_at 5) choice waiting).0 ≡ true)
    × ((accept short (clock_at 5) choice waiting).1.status ≡ "selected")
    × ((accept short (clock_at 5) choice waiting).1.lease ≡ none)
    × ((accept short (clock_at 5) choice waiting).1.selection
        ≡ some (
            obj (
              field "locatorCandidates" (arr no_items) (
                field "name"
                  (str "Pay")
                  (field "redaction" (obj (field "status" (str "applied") end)) end)))))
unfolding accept accept_status accept_selection accept_cleanup sanitize_selection pick_known
    value_eq active terminal Json.get Json.find_field Json.as_str Json.as_u64 Json.as_array
    Json.is_object put_field
choice-taken = (refl, refl, refl, refl)

-- After its deadline the choice is not accepted.
choice-late : (accept short (clock_at 60000) choice waiting).1.status ≡ "awaiting_selection"
unfolding accept accept_status accept_selection accept_cleanup sanitize_selection pick_known
    value_eq active terminal Json.get Json.find_field Json.as_str Json.as_u64 Json.as_array
    Json.is_object put_field
choice-late = refl

run-Follows_example :
    Follows waiting (run short (reported (clock_at 5) choice ∷ after_choice) waiting)
run-Follows_example = run-Follows short (reported (clock_at 5) choice ∷ after_choice) waiting

accept-once_example :
    accept short
      (clock_at 10)
      choice
      (run short after_choice (accept short (clock_at 5) choice waiting).1)
    ≡ (false, run short after_choice (accept short (clock_at 5) choice waiting).1)
accept-once_example =
    accept-once short (clock_at 5) (clock_at 10) choice after_choice waiting choice-taken.0
