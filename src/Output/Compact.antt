-- ===== src/Output/Compact.antt =====
-- What is inserted after the facts of the outcome never pushes them out.
use tauri_connector.Json
use tauri_connector.Json.{Value, num, obj, Fields, end}
use tauri_connector.Json.Edit.{
  put_field, remove_field, modify_field, edit, push_item, edit_array, find_field-put_field,
  find_field-remove_field, find_field-modify_field, remove_field-put_field, modify_field-twice,
  modify_field-same, edit-edit,
}
use tauri_connector.Output.{
  set_omitted, insert_if_fits, insert_found, insert_found_coverage, insert_from_coverage,
  coverage_keys, max_inline_evidence_refs, insert_each, add_refs, insert_refs, insert_coverage,
  insert_coverages, fits,
}
use tauri_connector.Output.Settled.{
  IsCounted, set_omitted-twice, taken_back, put_field-IsCounted, remove_field-IsCounted,
}
use tauri_connector.Prelude.{
  ℕ, ◌-◌, ◌≤◌, String, ◌≡◌, ◌∙◌, Bool, true, false, str_eq, arith, ◌||◌, Option, none, some, List,
  [], ◌∷◌, any, All, All-map, length, take, Bool-cases, inl, inr, not,
}

-- What is relied on of the bytes that a value is written in: a value is no longer than what holds
-- it, and neither a field that is new nor what is in it shortens an object.
pub record IsSize (size : Value → ℕ) : Type 0 where
  pub holds : (k : String) (v : Value) (fs : Fields) → size v ≤ size (obj (put_field k v fs))
  pub grows :
      (k : String) (v : Value) (fs : Fields)
      → Json.find_field k fs ≡ none
      → size (obj fs) ≤ size (obj (put_field k v fs))
  pub shrinks : (k : String) (fs : Fields) → size (obj (remove_field k fs)) ≤ size (obj fs)
  pub shrinks_inside :
      (k j : String) (fs : Fields)
      → size (obj (modify_field k (edit (remove_field j)) fs)) ≤ size (obj fs)

All-of_any :
    (p : String → Bool) (keys : List String) → any p keys ≡ false → All (λ k. p k ≡ false) keys
All-of_any p [] h = tt
All-of_any p (k ∷ ks) h = ground (arith, All-of_any p ks)

module _ (size : Value → ℕ) (budget : ℕ) (is_size : IsSize size) (facts : Value) where
  -- the facts are there, and all of it fits
  pub record Shows (fs : Fields) : Type 0 where
    pub shown : Json.find_field "blockedOutcome" fs ≡ some facts
    pub within : fits size budget (obj fs) ≡ true

  insert_if_fits-Shows :
      (k : String) (v : Value) (fs : Fields)
      → str_eq k "blockedOutcome" ≡ false
      → Shows fs
      → Shows (insert_if_fits size budget k v fs)
  unfolding insert_if_fits
  insert_if_fits-Shows k v fs other h = ground (
    arith,
    find_field-put_field k "blockedOutcome" v fs,
    find_field-remove_field k "blockedOutcome" (put_field k v fs),
    remove_field-put_field k v fs,
    is_size.shrinks k fs,
  )

  insert_if_fits-IsCounted :
      (n : ℕ) (k : String) (v : Value) (fs : Fields)
      → str_eq "coverage" k ≡ false
      → IsCounted n fs
      → IsCounted n (insert_if_fits size budget k v fs)
  unfolding insert_if_fits
  insert_if_fits-IsCounted n k v fs other h =
      let put = put_field-IsCounted n k v fs other h in
      let removed = remove_field-IsCounted n k (put_field k v fs) put in
      elim (Bool-cases (fits size budget v)) [
        | inr large ↦ rw large h
        | inl small ↦ elim (Bool-cases (fits size budget (obj (put_field k v fs)))) [
          | inl room ↦ rw (small, room) put
          | inr full ↦ rw (small, full) removed
        ]
      ]

  insert_found-keeps :
      (P : Fields → Type 0) (k : String) (found : Option Value)
      → ((w : Value) (fs : Fields) → P fs → P (insert_if_fits size budget k w fs))
      → (fs : Fields) → P fs
      → P (insert_found size budget k found fs)
  insert_found-keeps P k none keeps fs h = h
  insert_found-keeps P k (some v) keeps fs h = keeps v fs h

  -- what each insertion of some keys keeps, they all keep
  insert_each-keeps :
      (P : Fields → Type 0) (keys : List String) (v : Value)
      → All (λ k. (w : Value) (fs : Fields) → P fs → P (insert_if_fits size budget k w fs)) keys
      → (fs : Fields) → P fs
      → P (insert_each size budget keys v fs)
  unfolding insert_each
  insert_each-keeps P [] v keeps fs h = h
  insert_each-keeps P (k ∷ ks) v keeps fs h =
      insert_each-keeps P ks v keeps.1 (insert_found size budget k (Json.get v k) fs)
        (insert_found-keeps P k (Json.get v k) keeps.0 fs h)

  set_omitted-shown :
      (n : ℕ) (fs : Fields)
      → Json.find_field "blockedOutcome" (set_omitted n fs) ≡ Json.find_field "blockedOutcome" fs
  unfolding set_omitted
  set_omitted-shown n fs = find_field-modify_field "coverage" "blockedOutcome" _ fs

  add_refs-Shows :
      (left : ℕ) (rs : List Value) (fs : Fields)
      → IsCounted left fs
      → Shows fs
      → Shows (add_refs size budget left rs fs)
  unfolding add_refs
  add_refs-Shows left [] fs counted h = h
  add_refs-Shows left (r ∷ rs) fs counted h =
      let refs = modify_field "evidenceRefs" (edit_array (push_item r)) fs in
      let pushed = set_omitted (left - 1) refs in
      let shown : Json.find_field "blockedOutcome" pushed ≡ some facts =
        set_omitted-shown (left - 1) refs
        ∙ find_field-modify_field "evidenceRefs" "blockedOutcome" _ fs
        ∙ h.shown in
      elim (Bool-cases (not (Json.is_string r) || not (fits size budget r))) [
        | inl ends ↦ rw ends h
        | inr goes ↦ elim (Bool-cases (fits size budget (obj pushed))) [
          | inl room ↦
              rw (goes, room)
                (add_refs-Shows (left - 1) rs pushed (set_omitted-twice (left - 1) (left - 1) refs)
                  (record { shown = shown; within = room }))
          | inr full ↦ rw (goes, full) (rw (taken_back (left - 1) left r fs counted) h)
        ]
      ]

  insert_coverage-Shows :
      (k : String) (v : Value) (fs : Fields) → Shows fs → Shows (insert_coverage size budget k v fs)
  unfolding insert_coverage
  insert_coverage-Shows k v fs h =
      let undone : modify_field "coverage" (edit (remove_field k))
            (modify_field "coverage" (edit (put_field k v)) fs)
          ≡ modify_field "coverage" (edit (remove_field k)) fs =
        modify_field-twice "coverage" (edit (remove_field k)) (edit (put_field k v)) fs
        ∙ modify_field-same "coverage" _ _ fs (λ w.
          edit-edit (remove_field k) (put_field k v) (remove_field k) w
            (remove_field-put_field k v)) in
      ground (
        arith,
        undone,
        find_field-modify_field "coverage" "blockedOutcome" (edit (put_field k v)) fs,
        find_field-modify_field "coverage" "blockedOutcome" (edit (remove_field k)) fs,
        is_size.shrinks_inside "coverage" k fs,
      )

  insert_found_coverage-Shows :
      (k : String) (found : Option Value) (fs : Fields)
      → Shows fs
      → Shows (insert_found_coverage size budget k found fs)
  insert_found_coverage-Shows k none fs h = h
  insert_found_coverage-Shows k (some v) fs h = insert_coverage-Shows k v fs h

  insert_coverages-Shows :
      (ks : List String) (coverage : Value) (fs : Fields)
      → Shows fs
      → Shows (insert_coverages size budget ks coverage fs)
  unfolding insert_coverages
  insert_coverages-Shows [] coverage fs h = h
  insert_coverages-Shows (k ∷ ks) coverage fs h =
      insert_coverages-Shows ks coverage
        (insert_found_coverage size budget k (Json.get coverage k) fs)
        (insert_found_coverage-Shows k (Json.get coverage k) fs h)

  -- the lists of names leave the facts alone, and the first two the count as well
  pub keys-Shows :
      (keys : List String) (v : Value)
      → any (λ k. str_eq k "blockedOutcome") keys ≡ false
      → (fs : Fields) → Shows fs
      → Shows (insert_each size budget keys v fs)
  keys-Shows keys v apart = insert_each-keeps Shows keys v (
      All-map _ _ keys (λ k other w fs h. insert_if_fits-Shows k w fs other h)
        (All-of_any _ keys apart))

  pub keys-IsCounted :
      (n : ℕ) (keys : List String) (v : Value)
      → any (λ k. str_eq "coverage" k) keys ≡ false
      → (fs : Fields) → IsCounted n fs
      → IsCounted n (insert_each size budget keys v fs)
  keys-IsCounted n keys v apart = insert_each-keeps (IsCounted n) keys v (
      All-map _ _ keys (λ k other w fs h. insert_if_fits-IsCounted n k w fs other h)
        (All-of_any _ keys apart))

  pub insert_from_coverage-Shows :
      (found : Option Value) (fs : Fields)
      → Shows fs
      → Shows (insert_from_coverage size budget found fs)
  unfolding insert_from_coverage
  insert_from_coverage-Shows none fs h = h
  insert_from_coverage-Shows (some coverage) fs h =
      insert_coverages-Shows coverage_keys coverage fs h

  unfoldable pub AreCounted : Option (List Value) → Fields → Type 0
  AreCounted none fs = Unit
  AreCounted (some refs) fs = IsCounted (length refs) fs

  pub insert_refs-Shows :
      (refs : Option (List Value)) (fs : Fields)
      → AreCounted refs fs
      → Shows fs
      → Shows (insert_refs size budget refs fs)
  unfolding insert_refs AreCounted
  insert_refs-Shows none fs counted h = h
  insert_refs-Shows (some refs) fs counted h =
      add_refs-Shows (length refs) (take max_inline_evidence_refs refs) fs counted h
