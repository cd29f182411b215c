-- ===== src/Output/Settled.antt =====
-- The loop over the references: what it takes back leaves no trace.
use tauri_connector.Json.{Value, num, Fields}
use tauri_connector.Json.Edit.{
  put_field, remove_field, modify_field, edit, push_item, drop_last, edit_array, put_field-twice,
  modify_field-put_field, modify_field-remove_field, modify_field-modify_field, modify_field-twice,
  modify_field-same, modify_field-id, edit-edit, edit_array-pushed,
}
use tauri_connector.Output.{set_omitted}
use tauri_connector.Prelude.{ℕ, String, ◌≡◌, refl, ◌∙◌, ap, false, str_eq}

-- the count of omitted references is already there
abbrev pub IsCounted : ℕ → Fields → Type 0
IsCounted n fs = set_omitted n fs ≡ fs

pub set_omitted-twice :
    (m n : ℕ) (fs : Fields) → set_omitted n (set_omitted m fs) ≡ set_omitted n fs
unfolding set_omitted
set_omitted-twice m n fs =
    modify_field-twice "coverage" (edit (put_field "omittedEvidenceRefs" (num n)))
      (edit (put_field "omittedEvidenceRefs" (num m))) fs
    ∙ modify_field-same "coverage" _ _ fs (λ v.
      edit-edit (put_field "omittedEvidenceRefs" (num n)) (put_field "omittedEvidenceRefs" (num m))
        (put_field "omittedEvidenceRefs" (num n)) v
        (λ gs. put_field-twice "omittedEvidenceRefs" (num m) (num n) gs))

pub taken_back :
    (m n : ℕ) (r : Value) (fs : Fields)
    → IsCounted n fs
    → set_omitted n (
        modify_field "evidenceRefs"
          (edit_array drop_last)
          (set_omitted m (modify_field "evidenceRefs" (edit_array (push_item r)) fs)))
      ≡ fs
taken_back m n r fs h =
    ap (set_omitted n) apart
    ∙ set_omitted-twice m n (modify_field "evidenceRefs" (edit_array drop_last) pushed)
    ∙ ap (set_omitted n) (
        modify_field-twice "evidenceRefs" (edit_array drop_last) (edit_array (push_item r)) fs
        ∙ modify_field-id "evidenceRefs" _ fs (edit_array-pushed r))
    ∙ h
  where
    pushed : Fields
    pushed = modify_field "evidenceRefs" (edit_array (push_item r)) fs

    apart :
        modify_field "evidenceRefs" (edit_array drop_last) (set_omitted m pushed)
        ≡ set_omitted m (modify_field "evidenceRefs" (edit_array drop_last) pushed)
    apart =
        unfold set_omitted in
        modify_field-modify_field "evidenceRefs" "coverage" (edit_array drop_last)
          (edit (put_field "omittedEvidenceRefs" (num m))) pushed refl

pub put_field-IsCounted :
    (n : ℕ) (k : String) (v : Value) (fs : Fields)
    → str_eq "coverage" k ≡ false
    → IsCounted n fs
    → IsCounted n (put_field k v fs)
unfolding set_omitted
put_field-IsCounted n k v fs h counted =
    modify_field-put_field "coverage" k _ v fs h ∙ ap (put_field k v) counted

pub remove_field-IsCounted :
    (n : ℕ) (k : String) (fs : Fields) → IsCounted n fs → IsCounted n (remove_field k fs)
unfolding set_omitted
remove_field-IsCounted n k fs counted =
    modify_field-remove_field "coverage" k _ fs ∙ ap (remove_field k) counted
