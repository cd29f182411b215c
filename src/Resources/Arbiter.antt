-- ===== src/Resources/Arbiter.antt =====
-- The operations of `ResourceArbiter` and `Lease`. Each takes the arbiter's lock once, so each is
-- one step on the state; the clock's reading and a new identifier are arguments.
use mathlib.Core.List.{reverse}
use mathlib.Core.Option
use tauri_connector.Outcome.Facts.{ExecutionOutcome}
use tauri_connector.Outcome.Adapters.{text_field}
use tauri_connector.Map
use tauri_connector.Map.{Map}
use tauri_connector.Resources.Paths.{overlaps, sort, dedup}
use tauri_connector.Resources.State.{
  Quarantine, Held, LateOutcome, releases_quarantine, LateRecord, ArbiterState, notify_waiters,
  is_active, is_about, record_late, ids, quarantine_ttl_ms, lock_current,
}
use tauri_connector.Prelude.{
  any, ℕ, ◌+◌, ◌-◌, ◌/◌, ◌^◌, min, max, String, Bool, true, false, not, ◌&&◌, ◌||◌, Option, none,
  some, List, [], ◌∷◌, map, str_eq, if◌then◌else◌, length, any, keep, is_empty, Text, Result, ok,
  err,
}

abbrev pub u64_max : ℕ
u64_max = 2 ^ 64 - 1

pub record Lease : Type 0 where
  pub owner : String

-- The JSON object that `describe` builds.
pub record Described : Type 0 where
  pub id : String
  pub request_id : Option String
  pub reason : String
  pub resources : List Text
  pub since_ms : ℕ
  pub expires_in_ms : ℕ

unfoldable pub describe : ℕ → String → Held → Option Described
describe now id h =
    Option.map
      (λ q. record {
        id = id;
        request_id = q.request_id;
        reason = q.reason;
        resources = h.resources;
        since_ms = q.since_ms;
        expires_in_ms = min (q.since_ms + quarantine_ttl_ms) u64_max - now;
      })
      h.quarantine

unfoldable pub describe_all : ℕ → List (String × Held) → List Described
unfolding describe
describe_all now [] = []
describe_all now ((id, h) ∷ l) = elim (describe now id h) [
  | none ↦ describe_all now l
  | some d ↦ d ∷ describe_all now l
]

-- The text of a `resource_busy` error, by its parts: who is named, with the reason, and in how
-- many seconds the last of the quarantines expires.
pub data Message : Type 0 where
  quarantined_by : List (String × String) → ℕ → Message
  in_use : Message
  still_held : Message → ℕ → Message

-- The JSON error of a refused lease.
pub record Busy : Type 0 where
  pub code : String
  pub stage : String
  pub message : Message
  pub quarantined : Bool
  pub quarantines : List Described
  pub retryable_before_dispatch : Bool
  pub waited_ms : Option ℕ

abbrev pub max_of : List ℕ → ℕ
max_of [] = 0
max_of (n ∷ l) = max n (max_of l)

abbrev pub named : Described → String × String
named d = (Option.get_or d.request_id d.id, d.reason)

unfoldable pub busy : List Described → Busy
busy quarantines = record {
  code = "resource_busy";
  stage = "acquiring";
  message =
      if is_empty quarantines
      then in_use
      else quarantined_by (map named quarantines)
          ((max_of (map (λ d. d.expires_in_ms) quarantines) + 999) / 1000);
  quarantined = not (is_empty quarantines);
  quarantines = quarantines;
  retryable_before_dispatch = true;
  waited_ms = none;
}

abbrev pub wanted : List Text → List Text
wanted resources = dedup (sort resources)

unfoldable pub blockers : List Text → Map Held → List (String × Held)
unfolding overlaps
blockers resources held = keep (λ e. overlaps resources e.1.resources) held

unfoldable pub try_acquire :
    String → ℕ → List Text → ArbiterState → Result Busy Lease × ArbiterState
unfolding lock_current blockers busy describe_all Map.insert sort dedup
try_acquire owner now resources s =
    let current = lock_current now s in
    let blocking = blockers (wanted resources) current.held in
    if is_empty blocking
    then (
      ok (record { owner = owner }),
      record current {
        held =
            Map.insert owner (record { resources = wanted resources; quarantine = none })
              current.held;
      },
    )
    else (err (busy (describe_all now blocking)), current)

unfoldable pub quarantined : ℕ → ArbiterState → ℕ × ArbiterState
unfolding lock_current
quarantined now s =
    let current = lock_current now s in
    (length (keep (λ e. not (is_active e.1)) current.held), current)

-- what `restore_quarantine` puts into the table
abbrev pub restored : ℕ → List Text → Held
restored now resources = record {
  resources = resources;
  quarantine = some (record { reason = "interrupted"; request_id = none; since_ms = now });
}

unfoldable pub restore_quarantine : String → ℕ → List Text → ArbiterState → ArbiterState
unfolding Map.insert
restore_quarantine id now resources s = record s {
  held = Map.insert id (restored now resources) s.held;
}

-- The JSON object of `list`; the latest settlement comes first.
pub record Listing : Type 0 where
  pub quarantined : List Described
  pub late_settlements : List LateRecord
  pub quarantine_ttl_ms : ℕ

unfoldable pub list : ℕ → ArbiterState → Listing × ArbiterState
unfolding lock_current describe_all
list now s =
    let current = lock_current now s in
    (
      record {
        quarantined = describe_all now current.held;
        late_settlements = reverse current.late;
        quarantine_ttl_ms = quarantine_ttl_ms;
      },
      current,
    )

abbrev pub has_request : String → Quarantine → Bool
has_request request q = elim q.request_id [ none ↦ false | some r ↦ str_eq r request ]

abbrev pub is_target : Option String → String → Held → Bool
is_target target id h = elim h.quarantine [
  | none ↦ false
  | some q ↦ elim target [ none ↦ true | some t ↦ str_eq id t || has_request t q ]
]

-- the second pass of `release`: removes each id and describes what was there
unfoldable pub release_ids : ℕ → List String → Map Held → List Described × Map Held
unfolding describe Map.get Map.remove
release_ids now [] held = ([], held)
release_ids now (id ∷ rest) held = elim (Map.get id held) [
  | none ↦ release_ids now rest held
  | some h ↦
      let (described, left) = release_ids now rest (Map.remove id held) in
      (elim (describe now id h) [ none ↦ described | some d ↦ d ∷ described ], left)
]

unfoldable pub release : Option String → ℕ → ArbiterState → List Described × ArbiterState
unfolding release_ids
release target now s =
    let targets = ids (keep (λ e. is_target target e.0 e.1) s.held) in
    let (described, left) = release_ids now targets s.held in
    (described, notify_waiters (record s { held = left }))

abbrev pub is_awaiting : String → Held → Bool
is_awaiting request h = elim h.quarantine [ none ↦ false | some q ↦ has_request request q ]

unfoldable pub settle_late : String → LateOutcome → ℕ → ArbiterState → Bool × ArbiterState
unfolding Map.remove_all record_late releases_quarantine
settle_late request outcome now s =
    let matching = ids (keep (λ e. is_awaiting request e.1) s.held) in
    let lifts = releases_quarantine outcome && not (is_empty matching) in
    let settled = record s {
      held = if lifts then Map.remove_all matching s.held else s.held;
      late = record_late request outcome lifts now s.late;
    } in
    (lifts, if lifts then notify_waiters settled else settled)

unfoldable pub settled_safely : String → List LateRecord → Bool
unfolding releases_quarantine
settled_safely request late = any (λ r. is_about request r && releases_quarantine r.outcome) late

-- `late.iter_mut().rev().find(..)`, then `record.released = true`: the last entry of the request
unfoldable pub mark_released : String → List LateRecord → List LateRecord
mark_released request [] = []
mark_released request (r ∷ l) =
    if any (is_about request) l
    then r ∷ mark_released request l
    else if is_about request r
    then record r { released = true } ∷ l
    else r ∷ l

unfoldable pub has_settled : Option String → List LateRecord → Bool
unfolding settled_safely
has_settled none late = false
has_settled (some request) late = settled_safely request late

unfoldable pub mark_settled : Option String → List LateRecord → List LateRecord
unfolding mark_released
mark_settled none late = late
mark_settled (some request) late = mark_released request late

-- `held.quarantine = Some(Quarantine { .. })`
unfoldable pub put_in_quarantine : String → Option String → ℕ → Held → Held
put_in_quarantine reason request now h = record h {
  quarantine = some (record { reason = reason; request_id = request; since_ms = now });
}

unfoldable pub quarantine_request : Lease → String → Option String → ℕ → ArbiterState → ArbiterState
unfolding has_settled mark_settled put_in_quarantine Map.modify
quarantine_request lease reason request now s =
    if has_settled request s.late
    then record s { late = mark_settled request s.late }
    else record s { held = Map.modify lease.owner (put_in_quarantine reason request now) s.held }

unfoldable pub quarantine : Lease → String → ℕ → ArbiterState → ArbiterState
unfolding quarantine_request
quarantine lease reason now s = quarantine_request lease reason none now s

-- the request id of a protocol response, which names it in its outcome
abbrev pub request_in : Option ExecutionOutcome → Option String
request_in none = none
request_in (some o) = text_field o.dispatch "requestId"

unfoldable pub quarantine_response :
    Lease → String → Option ExecutionOutcome → ℕ → ArbiterState → ArbiterState
unfolding quarantine_request text_field
quarantine_response lease reason response now s =
    quarantine_request lease reason (request_in response) now s

-- `impl Drop for Lease`
unfoldable pub drop_lease : Lease → ArbiterState → ArbiterState
unfolding Map.get Map.remove
drop_lease lease s = elim (Map.get lease.owner s.held) [
  | none ↦ s
  | some h ↦
      if is_active h then notify_waiters (record s { held = Map.remove lease.owner s.held }) else s
]
