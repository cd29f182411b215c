-- ===== src/Resources/State.antt =====
-- The arbiter's state, the expiry of quarantines, and the history of late settlements.
use tauri_connector.Map
use tauri_connector.Map.{Map}
use tauri_connector.Prelude.{
  ℕ, ◌+◌, ◌-◌, String, Bool, true, false, ◌||◌, Option, none, some, List, [], ◌∷◌, ◌++◌, map,
  str_eq, if◌then◌else◌, ltb, leb, length, drop, keep, find, Text,
}

-- connector_client::QUARANTINE_TTL_MS
abbrev pub quarantine_ttl_ms : ℕ
quarantine_ttl_ms = 60000

-- LATE_HISTORY
abbrev pub late_history : ℕ
late_history = 32

pub record Quarantine : Type 0 where
  pub reason : String
  pub request_id : Option String
  pub since_ms : ℕ

pub record Held : Type 0 where
  pub resources : List Text
  pub quarantine : Option Quarantine

pub data LateOutcome : Type 0 where
  succeeded failed_without_effect failed lost expired : LateOutcome

unfoldable pub releases_quarantine : LateOutcome → Bool
releases_quarantine succeeded = true
releases_quarantine failed_without_effect = true
releases_quarantine failed = false
releases_quarantine lost = false
releases_quarantine expired = false

-- the closure `rank` of `record_late`
unfoldable pub rank : LateOutcome → ℕ
rank lost = 0
rank expired = 0
rank failed = 1
rank succeeded = 2
rank failed_without_effect = 2

pub record LateRecord : Type 0 where
  pub request_id : String
  pub outcome : LateOutcome
  pub released : Bool
  pub at_ms : ℕ

-- `wakeups` counts the calls of `released.notify_waiters()`.
pub record ArbiterState : Type 0 where
  pub held : Map Held
  pub late : List LateRecord
  pub wakeups : ℕ

abbrev pub initial : ArbiterState
initial = record { held = []; late = []; wakeups = 0 }

abbrev pub notify_waiters : ArbiterState → ArbiterState
notify_waiters s = record s { wakeups = s.wakeups + 1 }

abbrev pub is_active : Held → Bool
is_active h = elim h.quarantine [ none ↦ true | some _ ↦ false ]

abbrev pub is_about : String → LateRecord → Bool
is_about request r = str_eq r.request_id request

unfoldable pub remove_first : String → List LateRecord → List LateRecord
remove_first request [] = []
remove_first request (r ∷ l) = if is_about request r then l else r ∷ remove_first request l

unfoldable pub refresh : LateOutcome → Bool → ℕ → LateRecord → LateRecord
unfolding rank
refresh outcome released now r = record r {
  outcome = if leb (rank r.outcome) (rank outcome) then outcome else r.outcome;
  released = r.released || released;
  at_ms = now;
}

-- a full history loses its oldest entry
unfoldable pub evicted : List LateRecord → List LateRecord
evicted late = if leb late_history (length late) then drop 1 late else late

unfoldable pub record_late : String → LateOutcome → Bool → ℕ → List LateRecord → List LateRecord
unfolding remove_first refresh evicted
record_late request outcome released now late = elim (find (is_about request) late) [
  | some r ↦ remove_first request late ++ refresh outcome released now r ∷ []
  | none ↦
      evicted late
      ++ record { request_id = request; outcome = outcome; released = released; at_ms = now } ∷ []
]

unfoldable pub is_expired : ℕ → Held → Bool
is_expired now h = elim h.quarantine [
  | none ↦ false
  | some q ↦ leb quarantine_ttl_ms (now - q.since_ms)
]

abbrev pub ids : List (String × Held) → List String
ids = map (λ e. e.0)

-- the request that an expired quarantine is recorded under
unfoldable pub request_of : String → Held → String
request_of id h = elim h.quarantine [
  | none ↦ id
  | some q ↦ elim q.request_id [ none ↦ id | some request ↦ request ]
]

-- one round of the loop of `expire_quarantines` over the expired ids
unfoldable pub lift_one : ℕ → String → ArbiterState → ArbiterState
unfolding record_late request_of Map.get Map.remove
lift_one now id s = elim (Map.get id s.held) [
  | none ↦ s
  | some h ↦ record s {
    held = Map.remove id s.held;
    late = record_late (request_of id h) expired true now s.late;
  }
]

unfoldable pub lift_expired : ℕ → List String → ArbiterState → ArbiterState
unfolding lift_one
lift_expired now [] s = s
lift_expired now (id ∷ rest) s = lift_expired now rest (lift_one now id s)

unfoldable pub expired_ids : ℕ → Map Held → List String
unfolding is_expired
expired_ids now held = ids (keep (λ e. is_expired now e.1) held)

-- The state, and how many quarantines were lifted.
unfoldable pub expire_quarantines : ℕ → ArbiterState → ArbiterState × ℕ
unfolding lift_expired expired_ids
expire_quarantines now s =
    let expired = expired_ids now s.held in (lift_expired now expired s, length expired)

unfoldable pub lock_current : ℕ → ArbiterState → ArbiterState
unfolding expire_quarantines
lock_current now s =
    let (current, lifted) = expire_quarantines now s in
    if ltb 0 lifted then notify_waiters current else current
