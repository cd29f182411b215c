-- ===== src/Output/Facts.antt =====
-- All the facts of an outcome, and that they are shown where there is room.
use tauri_connector.Json
use tauri_connector.Json.{Value, null, bool, num, other, str, arr, obj, Fields, end, field}
use tauri_connector.Json.Edit.{put_field, find_field-put_field}
use tauri_connector.Output.{
  insert_if_fits, insert_found, insert_each, outcome_facts, put_request, pick_bounded, fits, inside,
}
use tauri_connector.Output.Compact.{IsSize}
use tauri_connector.Prelude.{
  ℕ, String, ◌≡◌, refl, ◌∙◌, ap, true, false, str_eq, eq_iff, arith, Option, none, some,
}

-- what is shown of an outcome where there is room for it
abbrev pub put_found : String → Option Value → Fields → Fields
put_found k none fs = fs
put_found k (some v) fs = put_field k v fs

abbrev pub put_dispatch : Option Value → Fields → Fields
put_dispatch none fs = fs
put_dispatch (some request_id) fs = put_field "dispatch" (obj (field "requestId" request_id end)) fs

unfoldable pub all_facts : Value → Fields
all_facts outcome = put_dispatch (inside (Json.get outcome "dispatch") "requestId") (
    put_found "effect" (Json.get outcome "effect") (
      put_found "verification" (Json.get outcome "verification")
        (put_found "execution" (Json.get outcome "execution") end)))

find_field-put_found :
    (k j : String) (found : Option Value) (fs : Fields)
    → str_eq k j ≡ false
    → Json.find_field j (put_found k found fs) ≡ Json.find_field j fs
find_field-put_found k j none fs h = refl
find_field-put_found k j (some v) fs h = ground (arith, find_field-put_field k j v fs)

module _ (size : Value → ℕ) (budget : ℕ) (is_size : IsSize size) where
  abbrev Fits : Fields → Type 0
  Fits fs = fits size budget (obj fs) ≡ true

  found-Fits :
      (k : String) (found : Option Value) (fs : Fields)
      → Json.find_field k fs ≡ none
      → Fits (put_found k found fs)
      → Fits fs
  found-Fits k none fs new h = h
  found-Fits k (some v) fs new h = ground (arith, is_size.grows k v fs new)

  pub insert_found-Fits :
      (k : String) (found : Option Value) (fs : Fields)
      → Fits (put_found k found fs)
      → insert_found size budget k found fs ≡ put_found k found fs
  unfolding insert_if_fits
  insert_found-Fits k none fs h = refl
  insert_found-Fits k (some v) fs h = ground (arith, is_size.holds k v fs)

  put_request-Fits :
      (found : Option Value) (fs : Fields)
      → Fits (put_dispatch found fs)
      → put_request size budget found fs ≡ put_dispatch found fs
  unfolding put_request
  put_request-Fits none fs h = refl
  put_request-Fits (some r) fs h =
      ap (λ gs. put_field "dispatch" (obj gs) fs)
        (unfold put_field in
          insert_found-Fits "requestId" (some r) end
            (ground (arith, is_size.holds "dispatch" (obj (field "requestId" r end)) fs)))

  dispatch-Fits :
      (found : Option Value) (fs : Fields)
      → Json.find_field "dispatch" fs ≡ none
      → Fits (put_dispatch found fs)
      → Fits fs
  dispatch-Fits none fs new h = h
  dispatch-Fits (some r) fs new h =
      ground (arith, is_size.grows "dispatch" (obj (field "requestId" r end)) fs new)

  pub outcome_facts-Fits :
      (o : Value) → Fits (all_facts o) → outcome_facts size budget o ≡ all_facts o
  unfolding outcome_facts all_facts pick_bounded insert_each Json.find_field
  outcome_facts-Fits o h =
      let execution = Json.get o "execution" in
      let verification = Json.get o "verification" in
      let effect = Json.get o "effect" in
      let one = put_found "execution" execution end in
      let two = put_found "verification" verification one in
      let three = put_found "effect" effect two in
      let request_id = inside (Json.get o "dispatch") "requestId" in
      let fresh_two : Json.find_field "effect" two ≡ none =
        find_field-put_found "verification" "effect" verification one refl
        ∙ find_field-put_found "execution" "effect" execution end refl in
      let fresh_three : Json.find_field "dispatch" three ≡ none =
        find_field-put_found "effect" "dispatch" effect two refl
        ∙ find_field-put_found "verification" "dispatch" verification one refl
        ∙ find_field-put_found "execution" "dispatch" execution end refl in
      let fits_three : Fits three = dispatch-Fits request_id three fresh_three h in
      let fits_two : Fits two = found-Fits "effect" effect two fresh_two fits_three in
      let fits_one : Fits one =
        found-Fits "verification" verification one
          (find_field-put_found "execution" "verification" execution end refl) fits_two in
      rw (insert_found-Fits "execution" execution end fits_one) (
        rw (insert_found-Fits "verification" verification one fits_two) (
          rw (insert_found-Fits "effect" effect two fits_three)
            (put_request-Fits request_id three h)))

-- the facts that keep a side effect from being repeated
abbrev pub SameFacts : Value → Value → Type 0
SameFacts shown outcome =
    (Json.get shown "execution" ≡ Json.get outcome "execution")
    × (Json.get shown "verification" ≡ Json.get outcome "verification")
    × (Json.get shown "effect" ≡ Json.get outcome "effect")
    × (inside (Json.get shown "dispatch") "requestId"
        ≡ inside (Json.get outcome "dispatch") "requestId")

find_field-put_self :
    (k : String) (found : Option Value) (fs : Fields)
    → Json.find_field k fs ≡ none
    → Json.find_field k (put_found k found fs) ≡ found
find_field-put_self k none fs h = h
find_field-put_self k (some v) fs h = ground (arith, find_field-put_field k k v fs, eq_iff k k)

find_field-put_dispatch :
    (k : String) (found : Option Value) (fs : Fields)
    → str_eq "dispatch" k ≡ false
    → Json.find_field k (put_dispatch found fs) ≡ Json.find_field k fs
find_field-put_dispatch k none fs h = refl
find_field-put_dispatch k (some r) fs h =
    ground (arith, find_field-put_field "dispatch" k (obj (field "requestId" r end)) fs)

request_shown :
    (found : Option Value) (fs : Fields)
    → Json.find_field "dispatch" fs ≡ none
    → inside (Json.find_field "dispatch" (put_dispatch found fs)) "requestId" ≡ found
unfolding Json.get Json.find_field
request_shown none fs h = rw h refl
request_shown (some r) fs h =
    rw (find_field-put_field "dispatch" "dispatch" (obj (field "requestId" r end)) fs) refl

fresh : (k : String) → Json.find_field k end ≡ none
unfolding Json.find_field
fresh k = refl

pub all_facts-SameFacts : (o : Value) → SameFacts (obj (all_facts o)) o
unfolding all_facts Json.get
all_facts-SameFacts o =
    let one = put_found "execution" (Json.get o "execution") end in
    let two = put_found "verification" (Json.get o "verification") one in
    let three = put_found "effect" (Json.get o "effect") two in
    let request_id = inside (Json.get o "dispatch") "requestId" in
    (
      find_field-put_dispatch "execution" request_id three refl
          ∙ find_field-put_found "effect" "execution" (Json.get o "effect") two refl
          ∙ find_field-put_found "verification" "execution" (Json.get o "verification") one refl
          ∙ find_field-put_self "execution" (Json.get o "execution") end (fresh "execution"),
      find_field-put_dispatch "verification" request_id three refl
          ∙ find_field-put_found "effect" "verification" (Json.get o "effect") two refl
          ∙ find_field-put_self "verification" (Json.get o "verification") one (
              find_field-put_found "execution" "verification" (Json.get o "execution") end refl
              ∙ fresh "verification"),
      find_field-put_dispatch "effect" request_id three refl
          ∙ find_field-put_self "effect" (Json.get o "effect") two (
              find_field-put_found "verification" "effect" (Json.get o "verification") one refl
              ∙ find_field-put_found "execution" "effect" (Json.get o "execution") end refl
              ∙ fresh "effect"),
      request_shown request_id three (
          find_field-put_found "effect" "dispatch" (Json.get o "effect") two refl
          ∙ find_field-put_found "verification" "dispatch" (Json.get o "verification") one refl
          ∙ find_field-put_found "execution" "dispatch" (Json.get o "execution") end refl
          ∙ fresh "dispatch"),
    )
