-- ===== src/Resources/Tests.antt =====
-- The arbiter at concrete inputs.
use tauri_connector.Map
use tauri_connector.Resources.Paths.{conflicts, overlaps, IsBelow}
use tauri_connector.Resources.Scopes.{conflicts_iff}
use tauri_connector.Resources.State.{
  ArbiterState, LateRecord, succeeded, lost, initial, is_active, releases_quarantine,
}
use tauri_connector.Resources.Arbiter.{
  Lease, Busy, busy, describe_all, try_acquire, settle_late, quarantine_request, drop_lease, wanted,
  settled_safely,
}
use tauri_connector.Resources.Steps.{give_up, Op, acquire, look, isolate, settle, lift, run, step}
use tauri_connector.Resources.Exclusion.{IsExclusive, run-IsExclusive, initial-IsExclusive}
use tauri_connector.Resources.Admission.{
  IsFree, try_acquire_iff, remaining, try_acquire-blames, touches, run-keeps_lease,
}
use tauri_connector.Resources.History.{IsBounded, run-IsBounded}
use tauri_connector.Resources.Races.{
  keeps_history, late_result_beats_quarantine, late_result_lifts_quarantine,
}
use tauri_connector.Resources.Waiting.{Round, acquire_within, acquire_within-ends}
use tauri_connector.Prelude.{
  true, false, ◌&&◌, not, List, [], ◌∷◌, ◌≡◌, ◌≢◌, ◌↔◌, ◌⊎◌, refl, codes, arith, Text, is_ok, none,
  some, any, ℕ,
}

abbrev main_window : List Text
main_window = codes "webview/main" ∷ []

abbrev all_windows : List Text
all_windows = codes "webview" ∷ []

abbrev lease_a : Lease
lease_a = record { owner = "a" }

-- one caller holds a window, another asks for all of them and is refused
abbrev two_callers : List Op
two_callers = acquire "a" 5 main_window ∷ acquire "b" 6 all_windows ∷ []

abbrev one_held : ArbiterState
one_held = run (acquire "a" 5 main_window ∷ []) initial

one_held-IsExclusive : IsExclusive one_held.held
one_held-IsExclusive = run-IsExclusive (acquire "a" 5 main_window ∷ []) initial initial-IsExclusive

-- the second caller is refused, and granted once the first has given up its lease
refused_then_granted :
    (is_ok (try_acquire "b" 6 all_windows one_held).0 ≡ false)
    × (is_ok (try_acquire "b" 6 all_windows (drop_lease lease_a one_held)).0 ≡ true)
unfolding run try_acquire drop_lease
refused_then_granted = (refl, refl)

-- a quarantine is lifted when its time to live is over, not before
lifted_after_a_minute :
    (is_ok
        (try_acquire "b" 60006 all_windows (quarantine_request lease_a "timeout" none 7 one_held)).0
      ≡ false)
    × (is_ok
          (try_acquire "b" 60007 all_windows
            (quarantine_request lease_a "timeout" none 7 one_held)).0
        ≡ true)
unfolding run try_acquire quarantine_request
lifted_after_a_minute = (refl, refl)

run-IsExclusive_example : IsExclusive (run two_callers initial).held
run-IsExclusive_example = run-IsExclusive two_callers initial initial-IsExclusive

try_acquire_iff_example :
    (is_ok (try_acquire "b" 6 all_windows one_held).0 ≡ true) ↔ IsFree 6 all_windows one_held
try_acquire_iff_example = try_acquire_iff "b" 6 all_windows one_held one_held-IsExclusive.distinct

abbrev kept : List Op
kept = acquire "b" 6 all_windows ∷ look 7 ∷ lift none 8 ∷ settle "r" lost 9 ∷ []

run-keeps_lease_example :
    Map.get "a" (run kept one_held).held
    ≡ some (record { resources = main_window; quarantine = none })
unfolding run step try_acquire touches
run-keeps_lease_example =
    run-keeps_lease kept one_held "a" (record { resources = main_window; quarantine = none })
      one_held-IsExclusive refl refl refl

conflicts_iff_example : (conflicts (codes "webview") (codes "webview/main") ≡ true) ↔ (
    (codes "webview" ≡ codes "webview/main")
    ⊎ IsBelow (codes "webview") (codes "webview/main")
    ⊎ IsBelow (codes "webview/main") (codes "webview"))
conflicts_iff_example = conflicts_iff (codes "webview") (codes "webview/main")

abbrev isolated : ArbiterState
isolated = run (isolate lease_a "timeout" (some "r1") 7 ∷ []) one_held

initial-IsBounded : IsBounded initial.late
initial-IsBounded = record { short = omega arith; unique = tt }

run-IsBounded_example : IsBounded (run kept initial).late
run-IsBounded_example = run-IsBounded kept initial initial-IsBounded

abbrev lost_r1 : LateRecord
lost_r1 = record { request_id = "r1"; outcome = lost; released = false; at_ms = 1 }

lost_r1-IsBounded : IsBounded (lost_r1 ∷ [])
lost_r1-IsBounded = record { short = omega arith; unique = ground arith }

abbrev between : List Op
between = isolate lease_a "other" (some "r2") 7 ∷ give_up lease_a ∷ []

late_result_beats_quarantine_example :
    (quarantine_request lease_a "timeout"
      (some "r1")
      8
      (run between (settle_late "r1" succeeded 7 one_held).1)).held
    ≡ (run between (settle_late "r1" succeeded 7 one_held).1).held
unfolding releases_quarantine keeps_history
late_result_beats_quarantine_example =
    late_result_beats_quarantine lease_a "timeout" "r1" succeeded 7 8 between one_held
      one_held-IsBounded refl (refl, (refl, tt))
  where
    one_held-IsBounded : IsBounded one_held.late
    one_held-IsBounded = run-IsBounded (acquire "a" 5 main_window ∷ []) initial initial-IsBounded

late_result_lifts_quarantine_example :
    Map.get lease_a.owner
      (settle_late "r1" succeeded 9
        (drop_lease lease_a (quarantine_request lease_a "timeout" (some "r1") 7 one_held))).1.held
    ≡ none
unfolding run settled_safely try_acquire
late_result_lifts_quarantine_example =
    late_result_lifts_quarantine lease_a "timeout" "r1" succeeded 7 9 one_held one_held-IsExclusive
      refl refl

abbrev round_at : ℕ → Round
round_at n = record { owner = "b"; now_ms = 6; state = one_held; instant = n }

acquire_within-ends_example :
    acquire_within all_windows 100 10 (round_at 50 ∷ round_at 120 ∷ []) ≢ none
acquire_within-ends_example =
    acquire_within-ends all_windows 100 10 (round_at 50 ∷ round_at 120 ∷ []) refl

abbrev blamed : Busy
blamed = busy (describe_all 8 isolated.held)

try_acquire-blames_example :
    (blamed.quarantined
      ≡ any
          (λ e. overlaps (wanted all_windows) e.1.resources && not (is_active e.1))
          (remaining 8 isolated))
    × (blamed.retryable_before_dispatch ≡ true)
unfolding run step try_acquire quarantine_request
try_acquire-blames_example = try_acquire-blames "b" 8 all_windows isolated blamed refl

abbrev isolated_at : ℕ → Round
isolated_at n = record { owner = "b"; now_ms = 8; state = isolated; instant = n }
