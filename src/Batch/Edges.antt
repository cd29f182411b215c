-- ===== src/Batch/Edges.antt =====
-- Which edges `dependency_edges` makes, described without its loops: by the names in `depends_on`,
-- the last action with each name, and the action before.
use tauri_connector.Batch.Spec.{
  BatchMode, ActionSpec, BatchSpec, is_sequential, has_id, id_to_index, contains, push_new,
  named_edges, chain_edge, dependency_edges,
}
use tauri_connector.Batch.Plans.{all_deps-at, explicit_deps-at}
use tauri_connector.Prelude.{
  ap, ℕ, zero, suc, ◌+◌, ◌≤◌, String, ◌≡◌, refl, ◌∙◌, Bool, true, false, not, ◌&&◌, ◌||◌, Option,
  none, some, List, [], ◌∷◌, arith, ◌==◌, any, any-append, get_elem?, Option-cases, Bool-cases, inl,
  inr,
}

-- Action `d` has this id, and no later action has it.
unfoldable pub is_last_with : String → ℕ → List ActionSpec → Bool
is_last_with name d [] = false
is_last_with name zero (a ∷ rest) = has_id name a && not (any (has_id name) rest)
is_last_with name (suc d) (a ∷ rest) = is_last_with name d rest

abbrev is_at : ℕ → Option ℕ → Bool
is_at d none = false
is_at d (some i) = i == d

id_to_index-absent :
    (name : String) (k : ℕ) (actions : List ActionSpec)
    → id_to_index name k actions ≡ none
    → any (has_id name) actions ≡ false
unfolding id_to_index
id_to_index-absent name k [] e = refl
id_to_index-absent name k (a ∷ rest) e = ground (arith, id_to_index-absent name (suc k) rest)

id_to_index-present :
    (name : String) (k i : ℕ) (actions : List ActionSpec)
    → id_to_index name k actions ≡ some i
    → (any (has_id name) actions ≡ true) × (k ≤ i)
unfolding id_to_index
id_to_index-present name k i [] e = cc
id_to_index-present name k i (a ∷ rest) e = ground (arith, id_to_index-present name (suc k) i rest)

id_to_index-is_last :
    (name : String) (k d : ℕ) (actions : List ActionSpec)
    → is_at (k + d) (id_to_index name k actions) ≡ is_last_with name d actions
unfolding id_to_index is_last_with
id_to_index-is_last name k d [] = refl
id_to_index-is_last name k zero (a ∷ rest) = elim (Option-cases (id_to_index name (suc k) rest)) [
  | inl e ↦
      let none_later = id_to_index-absent name (suc k) rest e in rw (e, none_later) (ground arith)
  | inr (i, e) ↦
      let (later, above) = id_to_index-present name (suc k) i rest e in rw (e, later) (ground arith)
]
id_to_index-is_last name k (suc d) (a ∷ rest) =
    let after : is_at (k + suc d) (id_to_index name (suc k) rest) ≡ is_last_with name d rest =
      let shifted : k + suc d ≡ suc k + d = omega arith in
      rw shifted (id_to_index-is_last name (suc k) d rest) in
    elim (Option-cases (id_to_index name (suc k) rest)) [
      | inl e ↦ let nowhere = rw e at after in rw e (ground arith)
      | inr (i, e) ↦ rw e (rw e at after)
    ]

contains-push_new : (d i : ℕ) (xs : List ℕ) → contains d (push_new i xs) ≡ (contains d xs || i == d)
contains-push_new d i xs = elim (Bool-cases (contains i xs)) [
  | inl there ↦ rw there (ground (arith, there))
  | inr fresh ↦ rw fresh (ground (arith, any-append (λ y. y == d) xs (i ∷ [])))
]

contains-pushed :
    (d : ℕ) (found : Option ℕ) (xs : List ℕ)
    → contains d (elim found [ none ↦ xs | some i ↦ push_new i xs ])
      ≡ (contains d xs || is_at d found)
contains-pushed d none xs = ground arith
contains-pushed d (some i) xs = contains-push_new d i xs

-- the last action with one of the names
abbrev pub is_named : List ActionSpec → List String → ℕ → Bool
is_named actions names d = any (λ name. is_last_with name d actions) names

contains-named_edges :
    (actions : List ActionSpec) (names : List String) (deps explicit : List ℕ) (d : ℕ)
    → (let edges = named_edges actions names deps explicit in
        (contains d edges.0 ≡ (contains d deps || is_named actions names d))
        × (contains d edges.1 ≡ (contains d explicit || is_named actions names d)))
unfolding named_edges
contains-named_edges actions [] deps explicit d = (ground arith, ground arith)
contains-named_edges actions (name ∷ names) deps explicit d =
    let found = id_to_index name 0 actions in
    let last : is_at d found ≡ is_last_with name d actions =
      let from_first : d ≡ 0 + d = omega arith in
      ap (λ k. is_at k found) from_first ∙ id_to_index-is_last name 0 d actions in
    let (all_later, explicit_later) =
      contains-named_edges actions names (elim found [ none ↦ deps | some i ↦ push_new i deps ])
        (elim found [ none ↦ explicit | some i ↦ push_new i explicit ]) d in
    let first = contains-pushed d found deps in
    let second = contains-pushed d found explicit in
    (ground (arith, all_later, first, last), ground (arith, explicit_later, second, last))

-- the edge of a sequential batch
abbrev pub is_previous : BatchMode → ℕ → ℕ → Bool
is_previous mode i d = is_sequential mode && suc d == i

contains-chain :
    (mode : BatchMode) (i d : ℕ) (deps : List ℕ)
    → contains d (chain_edge mode i deps) ≡ (contains d deps || is_previous mode i d)
contains-chain mode zero d deps = ground arith
contains-chain mode (suc i) d deps =
    elim (Bool-cases (is_sequential mode && not (contains i deps))) [
      | inl adds ↦ rw adds (ground (arith, adds, any-append (λ y. y == d) deps (i ∷ [])))
      | inr keeps ↦ elim (Bool-cases (i == d)) [
        | inl same ↦ let equal : i ≡ d = ground arith in ground (arith, keeps, equal)
        | inr other ↦ rw keeps (ground (arith, other))
      ]
    ]

-- An action waits, by name, for an action exactly when one of the names in its `depends_on` is the
-- id of that action and of no later one; and in all for those and, in a sequential batch, for the
-- action before it. (Ids that no action has make no edge.)
pub contains-dependency_edges :
    (spec : BatchSpec) (i d : ℕ) (a : ActionSpec)
    → get_elem? spec.actions i ≡ some a
    → (contains d ((dependency_edges spec).1 i) ≡ is_named spec.actions a.depends_on d)
      × (contains d ((dependency_edges spec).0 i)
          ≡ (is_named spec.actions a.depends_on d || is_previous spec.mode i d))
unfolding dependency_edges
contains-dependency_edges spec i d a e =
    let (in_all, in_explicit) = contains-named_edges spec.actions a.depends_on [] [] d in
    let edges = named_edges spec.actions a.depends_on [] [] in
    (
      rw (explicit_deps-at spec i a e) in_explicit,
      rw (all_deps-at spec i a e, contains-chain spec.mode i d edges.0, in_all) refl,
    )
