-- ===== src/Batch/Ids.antt =====
-- The ids that the logs show: an action's own, or one made from its index that no action has.
use tauri_connector.Batch.Spec.{ActionSpec}
use tauri_connector.Prelude.{
  ℕ, zero, suc, ◌+◌, ◌/◌, ◌%◌, ◌≡◌, ◌<◌, max, refl, Bool, false, Option, none, some, List, [], ◌∷◌,
  ◌++◌, arith, if◌then◌else◌, ltb, any, length, Bool-cases, inl, inr, codes, Text, text_eq,
  eq_of_text_eq,
}

-- the decimal digits of `n`, of which there are at most as many as the fuel
abbrev pub decimal : ℕ → ℕ → Text
decimal zero n = []
decimal (suc fuel) n =
    let front = decimal fuel (n / 10) in
    if ltb n 10 then (b'0' + n) ∷ [] else front ++ (b'0' + n % 10) ∷ []

-- the ids that the actions have
unfoldable pub explicit_ids : List ActionSpec → List Text
explicit_ids [] = []
explicit_ids (a ∷ rest) = elim a.id [
  | none ↦ explicit_ids rest
  | some id ↦ codes id ∷ explicit_ids rest
]

abbrev pub is_taken : List Text → Text → Bool
is_taken ids c = any (λ t. text_eq t c) ids

-- the loop that puts `_` in front; `none` when the fuel runs out
unfoldable pub nudge : ℕ → List Text → Text → Option Text
nudge zero ids c = none
nudge (suc fuel) ids c = if is_taken ids c then nudge fuel ids (b'_' ∷ c) else some c

abbrev pub longest : List Text → ℕ
longest [] = 0
longest (t ∷ ids) = max (length t) (longest ids)

-- The id in the log of the action with this index; the fuel is past the longest id there is.
unfoldable pub log_id : List ActionSpec → ℕ → ActionSpec → Option Text
unfolding nudge explicit_ids
log_id actions i a = elim a.id [
  | some id ↦ some (codes id)
  | none ↦
      let ids = explicit_ids actions in nudge (suc (longest ids)) ids (b'a' ∷ decimal (suc i) i)
]

free_of_long : (ids : List Text) (c : Text) → longest ids < length c → is_taken ids c ≡ false
free_of_long [] c h = refl
free_of_long (t ∷ ids) c h = elim (Bool-cases (text_eq t c)) [
  | inl e ↦ let same : length t ≡ length c = rw (eq_of_text_eq t c e) refl in absurd (omega arith)
  | inr e ↦ ground (arith, free_of_long ids c (omega arith))
]

nudge-free :
    (fuel : ℕ) (ids : List Text) (c : Text)
    → longest ids < length c + fuel
    → (t : Text) × (nudge (suc fuel) ids c ≡ some t) × (is_taken ids t ≡ false)
unfolding nudge
nudge-free zero ids c h = let free = free_of_long ids c (omega arith) in (c, rw free refl, free)
nudge-free (suc fuel) ids c h = elim (Bool-cases (is_taken ids c)) [
  | inr free ↦ (c, rw free refl, free)
  | inl taken ↦
      let (t, made, free) = nudge-free fuel ids (b'_' ∷ c) (omega arith) in (t, rw taken made, free)
]

-- An action without an id of its own gets an id in the log, and no action has that id.
pub log_id-free :
    (actions : List ActionSpec) (i : ℕ) (a : ActionSpec)
    → a.id ≡ none
    → (t : Text) × (log_id actions i a ≡ some t) × (is_taken (explicit_ids actions) t ≡ false)
unfolding log_id
log_id-free actions i a h =
    let ids = explicit_ids actions in
    let (t, made, free) = nudge-free (longest ids) ids (b'a' ∷ decimal (suc i) i) (omega arith) in
    (t, rw h made, free)
