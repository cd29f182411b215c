-- ===== src/Batch/Plans.antt =====
-- The plan that a batch spec comes to.
use mathlib.Core.Option
use tauri_connector.Batch.Spec.{
  BatchMode, sequential, ActionSpec, BatchSpec, contains, chain_edge, named_edges, push_new,
  id_to_index, explicit_deps, all_deps, dependency_edges,
}
use tauri_connector.Batch.Schedule.{Plan}
use tauri_connector.Batch.Readiness.{IsPlan}
use tauri_connector.Batch.Limits.{IsChain}
use tauri_connector.Prelude.{
  String, ℕ, zero, suc, ◌-◌, ◌^◌, max, ◌≡◌, ◌≢◌, ◌≤◌, ◌<◌, true, false, none, some, List, [], ◌∷◌,
  arith, refl, ◌==◌, all, length, get_elem?, any-append, Option-cases, inl, inr,
}

-- usize::MAX
abbrev pub usize_max : ℕ
usize_max = 2 ^ 64 - 1

unfoldable pub plan_of : BatchSpec → Plan
plan_of spec = record {
  total = length spec.actions;
  deps = (dependency_edges spec).0;
  explicit = (dependency_edges spec).1;
  stop_on_error = spec.stop_on_error;
  max_parallel = max (Option.get_or spec.max_parallel usize_max) 1;
  omit_result = λ i. elim (get_elem? spec.actions i) [ none ↦ false | some a ↦ a.omit_result ];
}

get_elem?-absent : (xs : List ActionSpec) (i : ℕ) → length xs ≤ i → get_elem? xs i ≡ none
get_elem?-absent [] i h = refl
get_elem?-absent (x ∷ xs) zero h = absurd (omega arith)
get_elem?-absent (x ∷ xs) (suc i) h = get_elem?-absent xs i (omega arith)

get_elem?-present : (xs : List ActionSpec) (i : ℕ) → i < length xs → get_elem? xs i ≢ none
get_elem?-present [] i h = absurd (omega arith)
get_elem?-present (x ∷ xs) zero h = λ e. cc
get_elem?-present (x ∷ xs) (suc i) h = get_elem?-present xs i (omega arith)

-- a list's elements are in every list that has what it has
all_contained :
    (xs ys : List ℕ)
    → ((x : ℕ) → contains x xs ≡ true → contains x ys ≡ true)
    → all (λ d. contains d ys) xs ≡ true
all_contained [] ys h = refl
all_contained (x ∷ xs) ys h = ground (arith, h x, all_contained xs ys (λ y k. h y (ground arith)))

contains-chain_edge :
    (mode : BatchMode) (i x : ℕ) (deps : List ℕ)
    → contains x deps ≡ true
    → contains x (chain_edge mode i deps) ≡ true
contains-chain_edge mode zero x deps h = h
contains-chain_edge mode (suc i) x deps h = ground (arith, any-append (λ y. y == x) deps (i ∷ []))

-- what the loop pushes to one of its lists it pushes to the other
named_edges-same :
    (actions : List ActionSpec) (names : List String) (found : List ℕ)
    → (named_edges actions names found found).0 ≡ (named_edges actions names found found).1
unfolding named_edges
named_edges-same actions [] found = refl
named_edges-same actions (name ∷ names) found =
    named_edges-same actions names
      (elim (id_to_index name 0 actions) [ none ↦ found | some i ↦ push_new i found ])

pub all_deps-at :
    (spec : BatchSpec) (i : ℕ) (a : ActionSpec)
    → get_elem? spec.actions i ≡ some a
    → all_deps spec i ≡ chain_edge spec.mode i (named_edges spec.actions a.depends_on [] []).0
unfolding all_deps named_edges
all_deps-at spec i a e = rw (all_deps, e) refl

pub explicit_deps-at :
    (spec : BatchSpec) (i : ℕ) (a : ActionSpec)
    → get_elem? spec.actions i ≡ some a
    → explicit_deps spec i ≡ (named_edges spec.actions a.depends_on [] []).1
unfolding explicit_deps named_edges
explicit_deps-at spec i a e = rw (explicit_deps, e) refl

explicit_deps-absent :
    (spec : BatchSpec) (i : ℕ) → get_elem? spec.actions i ≡ none → explicit_deps spec i ≡ []
unfolding explicit_deps
explicit_deps-absent spec i e = rw (explicit_deps, e) refl

contained :
    (spec : BatchSpec) (i : ℕ)
    → all (λ d. contains d (all_deps spec i)) (explicit_deps spec i) ≡ true
contained spec i = elim (Option-cases (get_elem? spec.actions i)) [
  | inl e ↦ rw (explicit_deps-absent spec i e) refl
  | inr (a, e) ↦
      let edges = named_edges spec.actions a.depends_on [] [] in
      rw (all_deps-at spec i a e, explicit_deps-at spec i a e)
        (all_contained edges.1 (chain_edge spec.mode i edges.0) (λ x h.
          contains-chain_edge spec.mode i x edges.0
            (rw (named_edges-same spec.actions a.depends_on []) h)))
]

-- The edges of a spec's plan stand at its actions only, and the explicit ones are among all.
pub plan_of-IsPlan : (spec : BatchSpec) → IsPlan (plan_of spec)
unfolding plan_of dependency_edges
plan_of-IsPlan spec = record {
  bounded = λ i h. unfold all_deps in ground (arith, get_elem?-absent spec.actions i);
  included = λ i. contained spec i;
}

-- In a sequential batch each action waits for the one before it.
pub plan_of-IsChain : (spec : BatchSpec) → spec.mode ≡ sequential → IsChain (plan_of spec)
unfolding plan_of dependency_edges
plan_of-IsChain spec m i b = elim (Option-cases (get_elem? spec.actions (suc i))) [
  | inl gone ↦ absurd (get_elem?-present spec.actions (suc i) (ground arith) gone)
  | inr (a, e) ↦
      let deps = (named_edges spec.actions a.depends_on [] []).0 in
      rw (all_deps-at spec (suc i) a e) (ground (arith, any-append (λ y. y == i) deps (i ∷ [])))
]
