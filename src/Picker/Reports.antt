-- ===== src/Picker/Reports.antt =====
-- The reports of the page that an entry accepts, and all that happens to an entry.
use tauri_connector.Json
use tauri_connector.Json.{
  Value, null, bool, num, other, str, arr, obj, Fields, end, field, Items, no_items, item,
}
use tauri_connector.Json.Edit.{put_field}
use tauri_connector.Prelude.{
  ℕ, ◌+◌, String, Bool, true, false, not, ◌&&◌, ◌||◌, Option, none, some, List, [], ◌∷◌, ◌++◌,
  if◌then◌else◌, ltb, any, length, str_eq,
}
use Prim.Native.String.{len}
use tauri_connector.Json.Reads.{value_eq, at, is_text}
use tauri_connector.Picker.Entries.{
  max_metadata, Clock, Entry, is_one_of, active, terminal, revoke, page_unavailable, close_window,
}

abbrev pub selection_keys : List String
selection_keys =
    "selectionId" ∷ "capturedAtMs" ∷ "context" ∷ "semanticVersion" ∷ "tag" ∷ "role" ∷ "name"
    ∷ "description" ∷ "states" ∷ "rect" ∷ "coordinateSpace" ∷ "visible" ∷ "actionable"
    ∷ "locatorCandidates" ∷ "redaction" ∷ "warnings" ∷ []

unfoldable pub pick_known : List String → Value → Fields → Fields
pick_known [] v out = out
pick_known (k ∷ ks) v out =
    pick_known ks v (elim (Json.get v k) [ none ↦ out | some w ↦ put_field k w out ])

abbrev pub is_long : Option Value → Bool
is_long none = false
is_long (some v) = elim (Json.as_str v) [ none ↦ false | some text ↦ ltb 256 (len text) ]

abbrev pub lacks_candidates : Option Value → Bool
lacks_candidates none = true
lacks_candidates (some v) = elim (Json.as_array v) [ none ↦ true | some vs ↦ ltb 5 (length vs) ]

abbrev pub lacks_redaction : Option Value → Bool
lacks_redaction none = true
lacks_redaction (some v) = not (is_text (at v "status") "applied")

-- `None` is the error `selection_metadata_rejected`.
unfoldable pub sanitize_selection : Value → Option Value
sanitize_selection v =
    let out = pick_known selection_keys v end in
    if any (λ k. is_long (Json.find_field k out)) ("name" ∷ "description" ∷ "tag" ∷ "role" ∷ [])
    then none
    else if lacks_candidates (Json.find_field "locatorCandidates" out)
    then none
    else if lacks_redaction (Json.find_field "redaction" out)
    then none
    else some (obj out)

abbrev pub reject_selection : Clock → Entry → Entry
reject_selection clock e =
    let failed = terminal clock "failed" e in
    record failed { warnings = failed.warnings ++ "selection_metadata_rejected" ∷ [] }

abbrev pub text_or_empty : Value → String
text_or_empty v = elim (Json.as_str v) [ none ↦ "" | some s ↦ s ]

abbrev pub releases : String → Bool
releases cleanup = is_one_of ("confirmed" ∷ "context_destroyed" ∷ []) cleanup

-- the part of `accept` about the cleanup
unfoldable pub accept_cleanup : String → Entry → Entry
accept_cleanup cleanup e =
    let noted =
      if str_eq e.cleanup cleanup
      then e
      else record e { cleanup = cleanup; revision = e.revision + 1 } in
    if not (is_one_of ("confirmed" ∷ "unconfirmed" ∷ "context_destroyed" ∷ []) cleanup)
    then e
    else if releases cleanup
    then record noted { lease = none }
    else noted

abbrev pub is_newer : Value → Entry → Bool
is_newer report e = elim (Json.as_u64 (at report "sequence")) [
  | none ↦ false
  | some n ↦ ltb e.sequence n
]

abbrev pub is_from_page : Value → Entry → Bool
is_from_page report e =
    not (str_eq e.cleanup "context_destroyed")
    && is_text (at report "pickerId") e.id
    && is_text (at report "nonce") e.nonce
    && value_eq (at report "context") e.context

abbrev pub sequence_of : Value → ℕ
sequence_of report = elim (Json.as_u64 (at report "sequence")) [ none ↦ 0 | some n ↦ n ]

abbrev pub take_selection : Clock → Option Value → Entry → Entry
take_selection clock none e = reject_selection clock e
take_selection clock (some clean) e =
    terminal clock "selected" (record e { selection = some clean })

-- `size` is the length of the text that a value prints as.
module _ (size : Value → ℕ) where
  unfoldable pub accept_selection : Clock → Value → Entry → Entry
  accept_selection clock selection e =
      if not (Json.is_object selection) || ltb max_metadata (size selection)
      then reject_selection clock e
      else take_selection clock (sanitize_selection selection) e

  -- the part of `accept` about the status
  unfoldable pub accept_status : Clock → Value → Entry → Entry
  accept_status clock report e =
      let status = text_or_empty (at report "status") in
      let chosen = accept_selection clock (at report "selection") e in
      if str_eq status "selected" && active e && ltb clock.instant e.deadline
      then chosen
      else if is_one_of ("cancelled" ∷ "expired" ∷ "target_changed" ∷ "failed" ∷ []) status
      then terminal clock status e
      else if str_eq status "awaiting_selection"
          && active e
          && not (str_eq e.status "awaiting_selection")
      then record e { status = status; revision = e.revision + 1 }
      else e

  -- whether the report was taken, and the entry after it
  unfoldable pub accept : Clock → Value → Entry → Bool × Entry
  accept clock report e =
      let taken = accept_status clock report (record e { sequence = sequence_of report }) in
      let cleaned = accept_cleanup (text_or_empty (at (at report "cleanup") "status")) taken in
      if not (is_from_page report e) || not (is_newer report e) then (false, e) else (true, cleaned)

pub data Event : Type 0 where
  reported : Clock → Value → Event
  ended : Clock → String → Event
  revoked : Clock → Event
  lost : Clock → Bool → Event
  closed : Clock → String → Event

unfoldable pub step : (Value → ℕ) → Event → Entry → Entry
step size (reported clock report) e = (accept size clock report e).1
step size (ended clock status) e = terminal clock status e
step size (revoked clock) e = revoke clock e
step size (lost clock destroyed) e = page_unavailable clock destroyed e
step size (closed clock window) e = close_window clock window e

unfoldable pub run : (Value → ℕ) → List Event → Entry → Entry
run size [] e = e
run size (v ∷ vs) e = run size vs (step size v e)
