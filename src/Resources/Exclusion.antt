-- ===== src/Resources/Exclusion.antt =====
-- Mutual exclusion of active leases, under any sequence of operations.
use tauri_connector.Map
use tauri_connector.Map.{
  Map, get-insert, get-remove, none_kept, insert-IsDistinct, remove-IsDistinct, modify-IsDistinct,
  remove_all-IsDistinct,
}
use tauri_connector.Resources.Paths.{overlaps}
use tauri_connector.Resources.Scopes.{overlaps_comm}
use tauri_connector.Resources.State.{
  Held, LateOutcome, ArbiterState, initial, is_active, lock_current,
}
use tauri_connector.Resources.Arbiter.{
  Lease, wanted, blockers, try_acquire, release, settle_late, put_in_quarantine, quarantine_request,
  drop_lease, restore_quarantine, restored,
}
use tauri_connector.Resources.Steps.{
  Op, acquire, look, restore, lift, settle, isolate, give_up, step, run,
}
use tauri_connector.Resources.Entries.{
  held-lock_current, get-lock_current, get-release, get-settle_late, get-quarantine_request,
  get-drop_lease, release-IsDistinct, settle_late-IsDistinct, drop_lease-IsDistinct,
}
use tauri_connector.Prelude.{
  ℕ, String, ◌≡◌, ◌≢◌, inl, inr, true, false, Option, none, some, List, [], ◌∷◌, arith, eq_iff,
  Bool-cases, is_empty, Text,
}

-- Two different leases that are both active hold no conflicting names, and no lease is there twice.
pub record IsExclusive (held : Map Held) : Type 0 where
  pub distinct : Map.IsDistinct held
  pub apart :
      (i j : String) (a b : Held)
      → i ≢ j
      → Map.get i held ≡ some a
      → Map.get j held ≡ some b
      → is_active a ≡ true
      → is_active b ≡ true
      → overlaps a.resources b.resources ≡ false

-- Fewer leases are still apart.
IsExclusive-of_subset :
    (held left : Map Held)
    → IsExclusive held
    → Map.IsDistinct left
    → ((i : String) (a : Held) → Map.get i left ≡ some a → Map.get i held ≡ some a)
    → IsExclusive left
IsExclusive-of_subset held left h d sub = record {
  distinct = d;
  apart = λ i j a b n p q. h.apart i j a b n (sub i a p) (sub j b q);
}

lock_current-IsExclusive :
    (now : ℕ) (s : ArbiterState) → IsExclusive s.held → IsExclusive (lock_current now s).held
lock_current-IsExclusive now s h =
    IsExclusive-of_subset s.held (lock_current now s).held h
      (rw held-lock_current (remove_all-IsDistinct _ s.held h.distinct))
      (λ i a e. ground (arith, get-lock_current now s i h.distinct))

acquire-IsExclusive :
    (owner : String) (now : ℕ) (resources : List Text) (s : ArbiterState)
    → IsExclusive s.held
    → IsExclusive (try_acquire owner now resources s).1.held
unfolding try_acquire blockers
acquire-IsExclusive owner now resources s h =
    elim (Bool-cases (is_empty (blockers (wanted resources) current.held))) [
      | inr busy ↦ rw (busy, try_acquire) safe
      | inl free ↦
          rw (free, try_acquire)
            (record {
              distinct = insert-IsDistinct owner _ current.held safe.distinct;
              apart = λ i j a b n p q x y. ground (
                arith,
                get-insert owner i new current.held,
                get-insert owner j new current.held,
                eq_iff owner i,
                eq_iff owner j,
                safe.apart i j a b n,
                none_kept (λ (e : Held). overlaps (wanted resources) e.resources) i current.held a
                    free,
                none_kept (λ (e : Held). overlaps (wanted resources) e.resources) j current.held b
                    free,
                overlaps_comm (wanted resources) a.resources,
              );
            })
    ]
  where
    current : ArbiterState
    current = lock_current now s

    new : Held
    new = record { resources = wanted resources; quarantine = none }

    safe : IsExclusive current.held
    safe = lock_current-IsExclusive now s h

restore-IsExclusive :
    (id : String) (now : ℕ) (resources : List Text) (s : ArbiterState)
    → IsExclusive s.held
    → IsExclusive (restore_quarantine id now resources s).held
unfolding restore_quarantine
restore-IsExclusive id now resources s h = record {
  distinct = insert-IsDistinct id _ s.held h.distinct;
  apart = λ i j a b n p q x y. ground (
    arith,
    get-insert id i (restored now resources) s.held,
    get-insert id j (restored now resources) s.held,
    h.apart i j a b n,
  );
}

pub isolate-IsExclusive :
    (lease : Lease) (reason : String) (request : Option String) (now : ℕ) (s : ArbiterState)
    → IsExclusive s.held
    → IsExclusive (quarantine_request lease reason request now s).held
unfolding put_in_quarantine
isolate-IsExclusive lease reason request now s h = record {
  distinct =
      unfold quarantine_request in
      ground (
        arith,
        h.distinct,
        modify-IsDistinct lease.owner (put_in_quarantine reason request now) s.held,
      );
  apart = λ i j a b n p q x y. ground (
    arith,
    get-quarantine_request lease reason request now s i,
    get-quarantine_request lease reason request now s j,
    h.apart i j a b n,
  );
}

release-IsExclusive :
    (target : Option String) (now : ℕ) (s : ArbiterState)
    → IsExclusive s.held
    → IsExclusive (release target now s).1.held
release-IsExclusive target now s h =
    IsExclusive-of_subset s.held (release target now s).1.held h
      (release-IsDistinct target now s h.distinct)
      (λ i a e. ground (arith, get-release target now s i h.distinct))

settle-IsExclusive :
    (request : String) (outcome : LateOutcome) (now : ℕ) (s : ArbiterState)
    → IsExclusive s.held
    → IsExclusive (settle_late request outcome now s).1.held
settle-IsExclusive request outcome now s h =
    IsExclusive-of_subset s.held (settle_late request outcome now s).1.held h
      (settle_late-IsDistinct request outcome now s h.distinct)
      (λ i a e. ground (arith, get-settle_late request outcome now s i h.distinct))

drop-IsExclusive :
    (lease : Lease) (s : ArbiterState) → IsExclusive s.held → IsExclusive (drop_lease lease s).held
drop-IsExclusive lease s h =
    IsExclusive-of_subset s.held (drop_lease lease s).held h
      (drop_lease-IsDistinct lease s h.distinct)
      (λ i a e. ground (arith, get-drop_lease lease s i, eq_iff lease.owner i))

pub step-IsExclusive :
    (op : Op) (s : ArbiterState) → IsExclusive s.held → IsExclusive (step op s).held
unfolding step
step-IsExclusive (acquire owner now resources) s h = acquire-IsExclusive owner now resources s h
step-IsExclusive (look now) s h = lock_current-IsExclusive now s h
step-IsExclusive (restore id now resources) s h = restore-IsExclusive id now resources s h
step-IsExclusive (lift target now) s h = release-IsExclusive target now s h
step-IsExclusive (settle request outcome now) s h = settle-IsExclusive request outcome now s h
step-IsExclusive (isolate lease reason request now) s h =
    isolate-IsExclusive lease reason request now s h
step-IsExclusive (give_up lease) s h = drop-IsExclusive lease s h

-- From a table with distinct keys whose active leases do not conflict, any operations in any order
-- lead to such a table.
pub run-IsExclusive :
    (ops : List Op) (s : ArbiterState) → IsExclusive s.held → IsExclusive (run ops s).held
unfolding run
run-IsExclusive [] s h = h
run-IsExclusive (op ∷ ops) s h = run-IsExclusive ops (step op s) (step-IsExclusive op s h)

pub initial-IsExclusive : IsExclusive initial.held
unfolding Map.get
initial-IsExclusive = record { distinct = tt; apart = λ i j a b n p q x y. absurd (ground arith) }
