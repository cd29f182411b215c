-- ===== src/Resources/Scopes.antt =====
-- The conflict test against the tree of scopes, and the order of a request's names.
use tauri_connector.Resources.Paths.{
  conflicts, overlaps, insert_sorted, sort, dedup_after, dedup, starts_with_slash, slash, IsBelow,
}
use tauri_connector.Prelude.{
  ◌≡◌, ◌↔◌, ◌⊎◌, inl, inr, refl, ap, ◌∙◌, Bool, true, ◌||◌, List, [], ◌∷◌, arith, ==_iff,
  Option-cases, any, any-any_comm, any_congr, Text, text_eq, text_eq_refl, text_eq_iff,
  strip_prefix, strip_prefix-append, eq-append_of_strip_prefix,
}

slash_iff : (a b : Text) → (starts_with_slash (strip_prefix a b) ≡ true) ↔ IsBelow a b
unfolding starts_with_slash
slash_iff a b = (to a b, λ h. rw (h.1, strip_prefix-append) refl)
  where
    to : (a b : Text) → starts_with_slash (strip_prefix a b) ≡ true → IsBelow a b
    to a b h = elim (Option-cases (strip_prefix a b)) [
      | inl e ↦ absurd (ground arith)
      | inr ([], e) ↦ absurd (ground arith)
      | inr (c ∷ r, e) ↦
          (r, eq-append_of_strip_prefix a b (slash ∷ r) (ground (arith, ==_iff c slash)))
    ]

text_eq_comm : (a b : Text) → text_eq a b ≡ text_eq b a
text_eq_comm [] [] = refl
text_eq_comm [] (d ∷ b) = refl
text_eq_comm (c ∷ a) [] = refl
text_eq_comm (c ∷ a) (d ∷ b) = ground (arith, text_eq_comm a b)

pub conflicts_comm : (a b : Text) → conflicts a b ≡ conflicts b a
unfolding conflicts
conflicts_comm a b = ground (arith, text_eq_comm a b)

pub conflicts_refl : (a : Text) → conflicts a a ≡ true
unfolding conflicts
conflicts_refl a = ground (arith, text_eq_refl a)

-- Two names conflict exactly when they are equal or one is a scope above the other, that is, the
-- other goes on from it after a slash.
pub conflicts_iff : (a b : Text) → (conflicts a b ≡ true) ↔ ((a ≡ b) ⊎ IsBelow a b ⊎ IsBelow b a)
unfolding conflicts
conflicts_iff a b = (
  λ h. ground (arith, text_eq_iff a b, slash_iff a b, slash_iff b a),
  λ h. ground (arith, text_eq_iff a b, slash_iff a b, slash_iff b a),
)

pub overlaps_comm : (xs ys : List Text) → overlaps xs ys ≡ overlaps ys xs
unfolding overlaps
overlaps_comm xs ys =
    any-any_comm conflicts xs ys
    ∙ any_congr _ _ ys (λ b. any_congr _ _ xs (λ a. conflicts_comm a b))

module _ (p : Text → Bool) where
  any-insert_sorted : (a : Text) (l : List Text) → any p (insert_sorted a l) ≡ (p a || any p l)
  unfolding insert_sorted
  any-insert_sorted a [] = refl
  any-insert_sorted a (b ∷ l) = ground (arith, any-insert_sorted a l)

  any-sort : (l : List Text) → any p (sort l) ≡ any p l
  unfolding sort
  any-sort [] = refl
  any-sort (a ∷ l) = any-insert_sorted a (sort l) ∙ ap (λ b. p a || b) (any-sort l)

  any-dedup_after : (a : Text) (l : List Text) → (p a || any p (dedup_after a l)) ≡ (p a || any p l)
  unfolding dedup_after
  any-dedup_after a [] = refl
  any-dedup_after a (b ∷ l) =
      ground (arith, any-dedup_after a l, any-dedup_after b l, text_eq_iff a b)

  any-dedup : (l : List Text) → any p (dedup l) ≡ any p l
  unfolding dedup
  any-dedup [] = refl
  any-dedup (a ∷ l) = any-dedup_after a l

-- Sorting a request and dropping its repeated names changes no conflict.
pub overlaps-wanted :
    (resources held : List Text) → overlaps (dedup (sort resources)) held ≡ overlaps resources held
unfolding overlaps
overlaps-wanted resources held = any-dedup _ (sort resources) ∙ any-sort _ resources
