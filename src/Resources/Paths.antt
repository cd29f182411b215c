-- ===== src/Resources/Paths.antt =====
-- Names of resources: a scope conflicts with itself and with the scopes below it.
use tauri_connector.Prelude.{
  ℕ, ◌≡◌, Bool, false, ◌||◌, Option, none, some, List, [], ◌∷◌, ◌++◌, if◌then◌else◌, ◌==◌, any,
  Text, text_eq, text_le, strip_prefix,
}

-- '/'
abbrev pub slash : ℕ
slash = 47

unfoldable pub starts_with_slash : Option Text → Bool
starts_with_slash (some (c ∷ s)) = c == slash
starts_with_slash (some []) = false
starts_with_slash none = false

unfoldable pub conflicts : Text → Text → Bool
unfolding starts_with_slash
conflicts a b =
    text_eq a b || starts_with_slash (strip_prefix a b) || starts_with_slash (strip_prefix b a)

-- `resources.iter().any(|a| held.iter().any(|b| conflicts(a, b)))`
unfoldable pub overlaps : List Text → List Text → Bool
unfolding conflicts
overlaps wanted held = any (λ a. any (λ b. conflicts a b) held) wanted

-- `resources.sort()`
unfoldable pub insert_sorted : Text → List Text → List Text
insert_sorted a [] = a ∷ []
insert_sorted a (b ∷ l) = if text_le a b then a ∷ b ∷ l else b ∷ insert_sorted a l

unfoldable pub sort : List Text → List Text
unfolding insert_sorted
sort [] = []
sort (a ∷ l) = insert_sorted a (sort l)

-- `resources.dedup()`: of equal neighbours the first stays.
unfoldable pub dedup_after : Text → List Text → List Text
dedup_after a [] = []
dedup_after a (b ∷ l) =
    let rest = dedup_after b l in if text_eq a b then dedup_after a l else b ∷ rest

unfoldable pub dedup : List Text → List Text
unfolding dedup_after
dedup [] = []
dedup (a ∷ l) = a ∷ dedup_after a l

-- What the conflict test means, with the tree of scopes in view: one path is the other, or leads
-- to it over a slash.
abbrev pub IsBelow : Text → Text → Type 0
IsBelow a b = (r : Text) × (a ≡ b ++ slash ∷ r)
