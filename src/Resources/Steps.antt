-- ===== src/Resources/Steps.antt =====
-- Sequences of the arbiter's operations, in any interleaving of the callers. Each operation holds
-- the arbiter's lock from its start to its end.
use tauri_connector.Resources.State.{LateOutcome, ArbiterState, lock_current}
use tauri_connector.Resources.Arbiter.{
  Lease, try_acquire, release, settle_late, quarantine_request, drop_lease, restore_quarantine,
}
use tauri_connector.Prelude.{ℕ, String, Option, List, [], ◌∷◌, Text}

-- The operations that change the state, with the reading of the clock.
pub data Op : Type 0 where
  acquire : String → ℕ → List Text → Op
  look : ℕ → Op
  restore : String → ℕ → List Text → Op
  lift : Option String → ℕ → Op
  settle : String → LateOutcome → ℕ → Op
  isolate : Lease → String → Option String → ℕ → Op
  give_up : Lease → Op

unfoldable pub step : Op → ArbiterState → ArbiterState
step (acquire owner now resources) s = (try_acquire owner now resources s).1
step (look now) s = lock_current now s
step (restore id now resources) s = restore_quarantine id now resources s
step (lift target now) s = (release target now s).1
step (settle request outcome now) s = (settle_late request outcome now s).1
step (isolate lease reason request now) s = quarantine_request lease reason request now s
step (give_up lease) s = drop_lease lease s

unfoldable pub run : List Op → ArbiterState → ArbiterState
unfolding step
run [] s = s
run (op ∷ ops) s = run ops (step op s)
