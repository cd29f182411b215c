-- ===== src/Resources/Waiting.antt =====
-- `ResourceArbiter::acquire_within`: waiting for a lease in use, up to a deadline.
-- A round of its loop is one `try_acquire`, on the state that the arbiter has when the round takes
-- the lock, and one reading of the monotonic clock, in nanoseconds.
use tauri_connector.Resources.State.{ArbiterState}
use tauri_connector.Resources.Arbiter.{Lease, Busy, still_held, busy, try_acquire}
use tauri_connector.Prelude.{
  ℕ, ◌+◌, ◌-◌, ◌/◌, String, ◌≡◌, ◌≢◌, true, false, not, ◌&&◌, ◌||◌, Option, none, some, List, [],
  ◌∷◌, arith, if◌then◌else◌, ltb, leb, any, Text, Result, ok, err,
}

pub record Round : Type 0 where
  pub owner : String
  pub now_ms : ℕ
  pub state : ArbiterState
  pub instant : ℕ

abbrev pub attempt : List Text → Round → Result Busy Lease × ArbiterState
attempt resources r = try_acquire r.owner r.now_ms resources r.state

-- the error of a caller that has waited to the deadline
abbrev pub after_wait : ℕ → ℕ → ℕ → Busy → Busy
after_wait wait started instant b =
    if not b.quarantined && ltb 0 wait
    then record b {
      waited_ms = some ((instant - started) / 1000000);
      message = still_held b.message ((instant - started) / 1000000);
    }
    else b

-- The answer, or `none` while the caller still waits after these rounds.
unfoldable pub acquire_within :
    List Text → ℕ → ℕ → List Round → Option (Result Busy Lease × ArbiterState)
acquire_within resources wait started [] = none
acquire_within resources wait started (r ∷ rounds) =
    let later = acquire_within resources wait started rounds in
    let (answer, s) = attempt resources r in
    elim answer [
      | ok lease ↦ some (ok lease, s)
      | err b ↦
          if b.quarantined || leb (started + wait) r.instant
          then some (err (after_wait wait started r.instant b), s)
          else later
    ]

-- Where all rounds end before the deadline, a caller that is refused is refused for a quarantine,
-- and the error reports no wait.
pub acquire_within-refused :
    (resources : List Text) (wait started : ℕ) (rounds : List Round) (b : Busy) (s : ArbiterState)
    → any (λ r. leb (started + wait) r.instant) rounds ≡ false
    → acquire_within resources wait started rounds ≡ some (err b, s)
    → (b.quarantined ≡ true) × (b.waited_ms ≡ none)
unfolding acquire_within try_acquire busy
acquire_within-refused resources wait started [] b s early h = cc
acquire_within-refused resources wait started (r ∷ rounds) b s early h =
    ground (arith, acquire_within-refused resources wait started rounds b s)

-- Where some round ends at the deadline or after it, the caller has an answer.
pub acquire_within-ends :
    (resources : List Text) (wait started : ℕ) (rounds : List Round)
    → any (λ r. leb (started + wait) r.instant) rounds ≡ true
    → acquire_within resources wait started rounds ≢ none
unfolding acquire_within try_acquire
acquire_within-ends resources wait started [] h e = cc
acquire_within-ends resources wait started (r ∷ rounds) h e =
    ground (arith, acquire_within-ends resources wait started rounds)
