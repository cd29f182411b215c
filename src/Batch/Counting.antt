-- ===== src/Batch/Counting.antt =====
-- How the end of an action changes the counts of the actions that wait for it.
use tauri_connector.Batch.Spec.{Edges}
use tauri_connector.Batch.Schedule.{
  ActionState, pending, running, ok, failed, skipped, put, release_all, dependents,
}
use tauri_connector.Prelude.{
  ℕ, zero, suc, ◌+◌, ◌-◌, ◌≡◌, Bool, true, false, List, [], ◌∷◌, ◌++◌, map, arith, refl,
  if◌then◌else◌, ltb, ◌==◌, keep, length, All, All-append, All-map, Bool-cases, inl, inr,
}

-- how often a number occurs
abbrev pub count : ℕ → List ℕ → ℕ
count x ys = length (keep (λ y. y == x) ys)

-- the action has neither ended nor been skipped
abbrev pub is_open : ActionState → Bool
is_open pending = true
is_open running = true
is_open ok = false
is_open failed = false
is_open skipped = false

abbrev pub open_count : (ℕ → ActionState) → List ℕ → ℕ
open_count state ds = length (keep (λ d. is_open (state d)) ds)

pub release_all-count :
    (ds : List ℕ) (remaining : ℕ → ℕ) (queue : List ℕ) (j : ℕ)
    → (release_all ds remaining queue).0 j ≡ remaining j - count j ds
unfolding release_all
release_all-count [] remaining queue j = omega arith
release_all-count (d ∷ ds) remaining queue j = ground (
  arith,
  release_all-count ds (put d (remaining d - 1) remaining)
      (if remaining d - 1 == 0 then queue ++ d ∷ [] else queue) j,
)

-- What is in the queue waits for nothing.
pub release_all-queue :
    (ds : List ℕ) (remaining : ℕ → ℕ) (queue : List ℕ)
    → All (λ x. remaining x ≡ 0) queue
    → All (λ x. (release_all ds remaining queue).0 x ≡ 0) (release_all ds remaining queue).1
unfolding release_all
release_all-queue [] remaining queue h = h
release_all-queue (d ∷ ds) remaining queue h =
    release_all-queue ds (put d (remaining d - 1) remaining)
      (if remaining d - 1 == 0 then queue ++ d ∷ [] else queue)
      (elim (Bool-cases (remaining d - 1 == 0)) [
        | inl e ↦ rw e (All-append _ queue (d ∷ []) still (ground arith, tt))
        | inr e ↦ rw e still
      ])
  where
    still : All (λ x. put d (remaining d - 1) remaining x ≡ 0) queue
    still = All-map (λ x. remaining x ≡ 0) _ queue (λ x e. ground arith) h

pub count-append : (x : ℕ) (ys zs : List ℕ) → count x (ys ++ zs) ≡ count x ys + count x zs
count-append x [] zs = omega arith
count-append x (y ∷ ys) zs = ground (arith, count-append x ys zs)

count-map_const :
    (k j : ℕ) (ys : List ℕ) → count j (map (λ _. k) ys) ≡ (if k == j then length ys else 0)
count-map_const k j [] = ground arith
count-map_const k j (y ∷ ys) = ground (arith, count-map_const k j ys)

-- An action stands among the dependents of another as often as that is among its dependencies.
pub count-dependents :
    (deps : Edges) (n i j : ℕ)
    → count j (dependents deps n i) ≡ (if ltb j n then count i (deps j) else 0)
unfolding dependents
count-dependents deps zero i j = ground arith
count-dependents deps (suc n) i j = ground (
  arith,
  count-append j (dependents deps n i) (map (λ _. n) (keep (λ x. x == i) (deps n))),
  count-map_const n j (keep (λ x. x == i) (deps n)),
  count-dependents deps n i j,
)

pub open_count-close :
    (state : ℕ → ActionState) (i : ℕ) (x : ActionState) (ds : List ℕ)
    → is_open (state i) ≡ true
    → is_open x ≡ false
    → open_count (put i x state) ds + count i ds ≡ open_count state ds
open_count-close state i x [] h c = omega arith
open_count-close state i x (d ∷ ds) h c = ground (arith, open_count-close state i x ds)

pub open_count-start :
    (state : ℕ → ActionState) (i : ℕ) (x : ActionState) (ds : List ℕ)
    → is_open (state i) ≡ is_open x
    → open_count (put i x state) ds ≡ open_count state ds
open_count-start state i x [] h = refl
open_count-start state i x (d ∷ ds) h = ground (arith, open_count-start state i x ds)
