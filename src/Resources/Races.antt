-- ===== src/Resources/Races.antt =====
-- Orders of events: a late result against the quarantine of its lease, and releases against the
-- callers that wait for them.
use tauri_connector.Resources.Exclusion.{IsExclusive, isolate-IsExclusive}
use tauri_connector.Resources.Admission.{get-try_acquire}
use tauri_connector.Resources.History.{IsBounded, record_late-keeps, late-settle_late}
use tauri_connector.Map
use tauri_connector.Map.{
  Map, has_key, get-insert, get-remove, get-modify, get-remove_all, get-remove_kept, has_key-keep,
  none_kept, remove_absent, insert-IsDistinct, remove-IsDistinct, modify-IsDistinct,
  remove_all-IsDistinct,
}
use tauri_connector.Resources.State.{
  Held, LateOutcome, releases_quarantine, rank, LateRecord, ArbiterState, is_about, lift_one,
  lift_expired, expired_ids, lock_current,
}
use tauri_connector.Resources.Arbiter.{
  mark_released, Lease, try_acquire, release, settle_late, settled_safely, has_settled,
  put_in_quarantine, quarantine_request, drop_lease, restored, restore_quarantine,
}
use tauri_connector.Resources.Entries.{held-lock_current, get-settle_late, get-quarantine_request}
use tauri_connector.Resources.Steps.{
  run, Op, acquire, look, restore, lift, settle, isolate, give_up, step,
}
use tauri_connector.Prelude.{
  Bool, All, ℕ, ◌≤◌, ◌<◌, String, ◌≡◌, refl, ◌∙◌, true, false, Option, none, some, List, [], ◌∷◌,
  arith, eq_iff, eq_refl, length, find,
}

settled_of_find :
    (request : String) (late : List LateRecord) (r : LateRecord)
    → find (is_about request) late ≡ some r
    → releases_quarantine r.outcome ≡ true
    → settled_safely request late ≡ true
unfolding settled_safely
settled_of_find request [] r e h = cc
settled_of_find request (x ∷ late) r e h = ground (arith, settled_of_find request late r)

releases_of_rank :
    (a b : LateOutcome)
    → releases_quarantine a ≡ true
    → rank a ≤ rank b
    → releases_quarantine b ≡ true
unfolding releases_quarantine rank
releases_of_rank a b h le = ground arith

settled_after :
    (request : String) (outcome : LateOutcome) (now : ℕ) (s : ArbiterState)
    → IsBounded s.late
    → releases_quarantine outcome ≡ true
    → settled_safely request (settle_late request outcome now s).1.late ≡ true
settled_after request outcome now s b h =
    let lifts = (settle_late request outcome now s).0 in
    let (r, found, above, kept) = record_late-keeps request outcome lifts now s.late b in
    rw late-settle_late
      (settled_of_find request _ r found (releases_of_rank outcome r.outcome h above))

settled_safely-mark_released :
    (request other : String) (late : List LateRecord)
    → settled_safely request (mark_released other late) ≡ settled_safely request late
unfolding settled_safely mark_released
settled_safely-mark_released request other [] = refl
settled_safely-mark_released request other (r ∷ late) =
    ground (arith, settled_safely-mark_released request other late)

-- quarantines, drops and restorations, which put no record into the history
unfoldable pub keeps_history : Op → Bool
keeps_history (restore other now resources) = true
keeps_history (isolate lease reason request now) = true
keeps_history (give_up lease) = true
keeps_history (acquire owner now resources) = false
keeps_history (look now) = false
keeps_history (lift target now) = false
keeps_history (settle request outcome now) = false

step-settled_safely :
    (request : String) (op : Op) (s : ArbiterState)
    → keeps_history op ≡ true
    → settled_safely request (step op s).late ≡ settled_safely request s.late
unfolding step keeps_history
step-settled_safely request (restore other now resources) s k = unfold restore_quarantine in refl
step-settled_safely request (isolate lease reason none now) s k =
    unfold quarantine_request in ground arith
step-settled_safely request (isolate lease reason (some other) now) s k =
    unfold quarantine_request in ground (arith, settled_safely-mark_released request other s.late)
step-settled_safely request (give_up lease) s k = unfold drop_lease in ground arith
step-settled_safely request (acquire owner now resources) s k = absurd (cc)
step-settled_safely request (look now) s k = absurd (cc)
step-settled_safely request (lift target now) s k = absurd (cc)
step-settled_safely request (settle other outcome now) s k = absurd (cc)

run-settled_safely :
    (request : String) (ops : List Op) (s : ArbiterState)
    → All (λ op. keeps_history op ≡ true) ops
    → settled_safely request (run ops s).late ≡ settled_safely request s.late
unfolding run
run-settled_safely request [] s k = refl
run-settled_safely request (op ∷ ops) s k =
    run-settled_safely request ops (step op s) k.1 ∙ step-settled_safely request op s k.0

-- With a bounded history, once a result with known effects has been settled for a request, a
-- quarantine for this request changes no entry of the table, whatever quarantines, drops and
-- restorations of any leases come in between. (Other settlements, and calls that expire
-- quarantines, may evict the record, and are not covered.)
pub late_result_beats_quarantine :
    (lease : Lease) (reason request : String) (outcome : LateOutcome) (now later : ℕ)
    (ops : List Op) (s : ArbiterState)
    → IsBounded s.late
    → releases_quarantine outcome ≡ true
    → All (λ op. keeps_history op ≡ true) ops
    → (let after = run ops (settle_late request outcome now s).1 in
        (quarantine_request lease reason (some request) later after).held ≡ after.held)
late_result_beats_quarantine lease reason request outcome now later ops s b h keep =
    let settled = (settle_late request outcome now s).1 in
    let known : settled_safely request (run ops settled).late ≡ true =
      run-settled_safely request ops settled keep ∙ settled_after request outcome now s b h in
    unfold quarantine_request has_settled in ground (arith, known)

-- A quarantined lease outlives its owner: dropping it changes nothing.
pub drop-quarantined :
    (lease : Lease) (reason : String) (request : Option String) (now : ℕ) (s : ArbiterState)
    → has_settled request s.late ≡ false
    → drop_lease lease (quarantine_request lease reason request now s)
      ≡ quarantine_request lease reason request now s
unfolding drop_lease
drop-quarantined lease reason request now s fresh =
    unfold put_in_quarantine in
    ground
      (arith, get-quarantine_request lease reason request now s lease.owner, eq_refl lease.owner)

-- Where active leases are apart and the request was not settled before, a result with known
-- effects that comes after the quarantine and the drop of the lease removes the entry.
pub late_result_lifts_quarantine :
    (lease : Lease) (reason request : String) (outcome : LateOutcome) (now later : ℕ)
    (s : ArbiterState)
    → IsExclusive s.held
    → settled_safely request s.late ≡ false
    → releases_quarantine outcome ≡ true
    → Map.get lease.owner
        (settle_late request outcome later
          (drop_lease lease (quarantine_request lease reason (some request) now s))).1.held
      ≡ none
late_result_lifts_quarantine lease reason request outcome now later s x fresh h =
    rw (drop-quarantined lease reason (some request) now s (unfold has_settled in fresh)) (
      unfold has_settled put_in_quarantine in
      ground (
        arith,
        get-settle_late request outcome later isolated lease.owner
            (isolate-IsExclusive lease reason (some request) now s x).distinct,
        get-quarantine_request lease reason (some request) now s lease.owner,
        eq_refl lease.owner,
        eq_refl request,
      ))
  where
    isolated : ArbiterState
    isolated = quarantine_request lease reason (some request) now s

length-pos_of_has_key : (k : String) (ks : List String) → has_key k ks ≡ true → 0 < length ks
length-pos_of_has_key k [] h = cc
length-pos_of_has_key k (j ∷ ks) h = omega arith

wakeups-lift_expired :
    (now : ℕ) (ks : List String) (s : ArbiterState) → (lift_expired now ks s).wakeups ≡ s.wakeups
unfolding lift_expired lift_one
wakeups-lift_expired now [] s = refl
wakeups-lift_expired now (k ∷ ks) s = wakeups-lift_expired now ks (lift_one now k s) ∙ ground arith

lock_current-wakes :
    (now : ℕ) (s : ArbiterState) (id : String) (h : Held)
    → Map.get id s.held ≡ some h
    → Map.get id (lock_current now s).held ≡ none
    → s.wakeups < (lock_current now s).wakeups
lock_current-wakes now s id h e gone =
    unfold lock_current in
    ground (
      arith,
      wakeups-lift_expired now (expired_ids now s.held) s,
      length-pos_of_has_key id (expired_ids now s.held),
      get-remove_all (expired_ids now s.held) id s.held,
      held-lock_current now s,
    )

-- An operation after which an entry is gone from the table has notified the callers that wait.
pub step-wakes :
    (op : Op) (s : ArbiterState) (id : String) (h : Held)
    → Map.get id s.held ≡ some h
    → Map.get id (step op s).held ≡ none
    → s.wakeups < (step op s).wakeups
unfolding step
step-wakes (acquire owner now resources) s id h e gone =
    unfold try_acquire in
    ground (arith, get-try_acquire owner now resources s id, lock_current-wakes now s id h e)
step-wakes (look now) s id h e gone = lock_current-wakes now s id h e gone
step-wakes (restore other now resources) s id h e gone =
    unfold restore_quarantine in ground (arith, get-insert other id (restored now resources) s.held)
step-wakes (lift target now) s id h e gone = unfold release in omega arith
step-wakes (settle request outcome now) s id h e gone = unfold settle_late in ground arith
step-wakes (isolate lease reason request now) s id h e gone =
    ground (arith, get-quarantine_request lease reason request now s id)
step-wakes (give_up lease) s id h e gone =
    unfold drop_lease in ground (arith, get-remove lease.owner id s.held, eq_iff lease.owner id)
