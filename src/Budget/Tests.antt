-- ===== src/Budget/Tests.antt =====
-- The budget with two threads that race for it.
use tauri_connector.Budget.Charges.{
  Event, enter, exchange, new, step, run, reserved, exhausted, thread_at,
}
use tauri_connector.Budget.Accounting.{IsCharged, run-IsCharged, new-IsCharged, charge_lem}
use tauri_connector.Budget.Ledger.{AnswersAll, taken}
use tauri_connector.Budget.View.{ledger}
use tauri_connector.Budget.Refinement.{call_of, run-refines}
use tauri_connector.Prelude.{map, ◌+◌, ◌≡◌, List, [], ◌∷◌, refl, arith, false, if◌then◌else◌, leb}

-- Both threads read the counter before either exchanges it; the limit has room for one of them.
abbrev race : List Event
race = enter 0 60 ∷ enter 1 60 ∷ exchange 0 false ∷ exchange 1 false ∷ exchange 1 false ∷ []

one_wins :
    (thread_at 0 (run race (new 100 2)) ≡ reserved 60)
    × (thread_at 1 (run race (new 100 2)) ≡ exhausted)
unfolding run
one_wins = (refl, refl)

small-IsCharged : IsCharged (new 100 2)
small-IsCharged = new-IsCharged 100 2 (omega arith)

new-IsCharged_example : IsCharged (new 100 2)
new-IsCharged_example = new-IsCharged 100 2 (omega arith)

run-IsCharged_example : IsCharged (run race (new 100 2))
run-IsCharged_example = run-IsCharged race (new 100 2) small-IsCharged

run-refines_example :
    AnswersAll (map call_of race) (ledger (new 100 2)) (ledger (run race (new 100 2)))
    × (taken (ledger (run race (new 100 2))).clients ≡ (run race (new 100 2)).used)
run-refines_example = run-refines race (new 100 2) small-IsCharged

charge_lem_example :
    ((step (exchange 0 false) (step (enter 0 60) (new 100 2))).used ≡ (
      if leb ((new 100 2).used + 60) (new 100 2).limit
      then (new 100 2).used + 60
      else (new 100 2).used))
    × (thread_at 0 (step (exchange 0 false) (step (enter 0 60) (new 100 2)))
        ≡ (if leb ((new 100 2).used + 60) (new 100 2).limit then reserved 60 else exhausted))
unfolding run
charge_lem_example = charge_lem 0 60 (new 100 2) small-IsCharged refl
