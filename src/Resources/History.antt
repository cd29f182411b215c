-- ===== src/Resources/History.antt =====
-- The history of late settlements, and the race between a late result and a quarantine.
use tauri_connector.Map
use tauri_connector.Map.{
  Map, has_key, get-insert, get-remove, get-modify, get-remove_all, get-remove_kept, has_key-keep,
  none_kept, remove_absent, insert-IsDistinct, remove-IsDistinct, modify-IsDistinct,
  remove_all-IsDistinct,
}
use tauri_connector.Resources.State.{
  Held, LateOutcome, expired, rank, LateRecord, ArbiterState, is_about, remove_first, refresh,
  evicted, record_late, late_history, request_of, lift_one, lift_expired, expired_ids, lock_current,
}
use tauri_connector.Resources.Arbiter.{
  try_acquire, release, settle_late, mark_released, quarantine_request, drop_lease,
  restore_quarantine,
}
use tauri_connector.Resources.Steps.{
  Op, acquire, look, restore, lift, settle, isolate, give_up, step, run,
}
use tauri_connector.Prelude.{
  ℕ, ◌+◌, ◌-◌, ◌≤◌, ◌<◌, String, ◌≡◌, inl, inr, refl, Bool, true, false, Option, none, some, List,
  [], ◌∷◌, ◌++◌, arith, str_eq, eq_iff, eq_refl, if◌then◌else◌, leb, Option-cases, length,
  length-append, drop, find,
}

-- No request has two entries.
abbrev pub IsUnique : List LateRecord → Type 0
IsUnique [] = Unit
IsUnique (r ∷ l) = (find (is_about r.request_id) l ≡ none) × IsUnique l

pub record IsBounded (late : List LateRecord) : Type 0 where
  pub short : length late ≤ late_history
  pub unique : IsUnique late

find-append :
    (p : LateRecord → Bool) (xs : List LateRecord) (r : LateRecord)
    → find p (xs ++ r ∷ [])
      ≡ (elim (find p xs) [ some x ↦ some x | none ↦ if p r then some r else none ])
find-append p [] r = ground arith
find-append p (x ∷ xs) r = ground (arith, find-append p xs r)

IsUnique-append :
    (xs : List LateRecord) (r : LateRecord)
    → IsUnique xs
    → find (is_about r.request_id) xs ≡ none
    → IsUnique (xs ++ r ∷ [])
IsUnique-append [] r u e = (refl, tt)
IsUnique-append (x ∷ xs) r u e = ground (
  arith,
  IsUnique-append xs r,
  find-append (is_about x.request_id) xs r,
  eq_iff r.request_id x.request_id,
  eq_iff x.request_id r.request_id,
)

find-remove_first :
    (request : String) (q : String) (xs : List LateRecord)
    → IsUnique xs
    → find (is_about q) (remove_first request xs)
      ≡ (if str_eq request q then none else find (is_about q) xs)
unfolding remove_first
find-remove_first request q [] u = ground arith
find-remove_first request q (x ∷ xs) u = ground (
  arith,
  find-remove_first request q xs,
  eq_iff request q,
  eq_iff x.request_id q,
  eq_iff x.request_id request,
)

remove_first-IsUnique :
    (request : String) (xs : List LateRecord) → IsUnique xs → IsUnique (remove_first request xs)
unfolding remove_first
remove_first-IsUnique request [] u = tt
remove_first-IsUnique request (x ∷ xs) u =
    ground (arith, remove_first-IsUnique request xs, find-remove_first request x.request_id xs)

length-remove_first :
    (request : String) (xs : List LateRecord) (r : LateRecord)
    → find (is_about request) xs ≡ some r
    → length (remove_first request xs) + 1 ≡ length xs
unfolding remove_first
length-remove_first request [] r e = cc
length-remove_first request (x ∷ xs) r e = ground (arith, length-remove_first request xs r)

drop_one-IsUnique : (xs : List LateRecord) → IsUnique xs → IsUnique (drop 1 xs)
drop_one-IsUnique [] u = tt
drop_one-IsUnique (x ∷ xs) u = u.1

find-drop_one :
    (p : LateRecord → Bool) (xs : List LateRecord) → find p xs ≡ none → find p (drop 1 xs) ≡ none
find-drop_one p [] e = refl
find-drop_one p (x ∷ xs) e = ground arith

length-drop_one : (xs : List LateRecord) → length (drop 1 xs) ≡ length xs - 1
length-drop_one [] = omega arith
length-drop_one (x ∷ xs) = omega arith

about_of_find :
    (request : String) (xs : List LateRecord) (r : LateRecord)
    → find (is_about request) xs ≡ some r
    → r.request_id ≡ request
about_of_find request [] r e = cc
about_of_find request (x ∷ xs) r e =
    ground (arith, eq_iff x.request_id request, about_of_find request xs r)

find-evicted :
    (p : LateRecord → Bool) (xs : List LateRecord) → find p xs ≡ none → find p (evicted xs) ≡ none
unfolding evicted
find-evicted p xs e = ground (arith, find-drop_one p xs)

evicted-IsUnique : (xs : List LateRecord) → IsUnique xs → IsUnique (evicted xs)
unfolding evicted
evicted-IsUnique xs u = ground (arith, drop_one-IsUnique xs)

length-evicted :
    (xs : List LateRecord) → length xs ≤ late_history → length (evicted xs) < late_history
unfolding evicted
length-evicted xs h = ground (arith, length-drop_one xs)

-- Recording a settlement keeps the history within its bound, with one entry for each request.
record_late-IsBounded :
    (request : String) (outcome : LateOutcome) (released : Bool) (now : ℕ) (late : List LateRecord)
    → IsBounded late
    → IsBounded (record_late request outcome released now late)
unfolding record_late
record_late-IsBounded request outcome released now late h =
    elim (Option-cases (find (is_about request) late)) [
      | inl e ↦
          rw (e, record_late)
            (record {
              short =
                  omega
                    (arith, length-append (evicted late) (new ∷ []), length-evicted late h.short);
              unique =
                  IsUnique-append (evicted late) new (evicted-IsUnique late h.unique)
                    (find-evicted (is_about request) late e);
            })
      | inr (r, e) ↦
          let same : r.request_id ≡ request = about_of_find request late r e in
          rw (e, record_late)
            (record {
              short = omega (
                arith,
                h.short,
                length-append (remove_first request late) (old r ∷ []),
                length-remove_first request late r e,
              );
              unique =
                  IsUnique-append (remove_first request late) (old r)
                    (remove_first-IsUnique request late h.unique)
                    (unfold refresh in
                      ground (
                        arith,
                        find-remove_first request r.request_id late,
                        eq_iff request r.request_id,
                      ));
            })
    ]
  where
    new : LateRecord
    new = record { request_id = request; outcome = outcome; released = released; at_ms = now }

    old : LateRecord → LateRecord
    old r = refresh outcome released now r

-- In a bounded history, after a settlement is recorded its request has an entry that ranks at
-- least as high as the settlement and as the entry before; a settlement of lower rank leaves the
-- outcome, and what was released stays so.
pub record_late-keeps :
    (request : String) (outcome : LateOutcome) (released : Bool) (now : ℕ) (late : List LateRecord)
    → IsBounded late
    → (r : LateRecord) × (find (is_about request) (record_late request outcome released now late)
        ≡ some r)
      × (rank outcome ≤ rank r.outcome)
      × ((old : LateRecord)
          → find (is_about request) late ≡ some old
          → (rank old.outcome ≤ rank r.outcome)
            × (old.released ≡ true → r.released ≡ true)
            × (leb (rank old.outcome) (rank outcome) ≡ false → r.outcome ≡ old.outcome))
unfolding record_late refresh
record_late-keeps request outcome released now late h =
    elim (Option-cases (find (is_about request) late)) [
      | inl e ↦
          rw (e, record_late)
            (
              new,
              ground (
                arith,
                find-append (is_about request) (evicted late) new,
                find-evicted (is_about request) late e,
                eq_refl request,
              ),
              omega arith,
              λ old p. cc,
            )
      | inr (r, e) ↦
          let same : r.request_id ≡ request = about_of_find request late r e in
          rw (e, record_late)
            (
              refresh outcome released now r,
              ground (
                arith,
                find-append (is_about request) (remove_first request late)
                    (refresh outcome released now r),
                find-remove_first request request late h.unique,
                eq_refl request,
              ),
              ground arith,
              λ old p. ground arith,
            )
    ]
  where
    new : LateRecord
    new = record { request_id = request; outcome = outcome; released = released; at_ms = now }

length-mark_released :
    (request : String) (late : List LateRecord) → length (mark_released request late) ≡ length late
unfolding mark_released
length-mark_released request [] = refl
length-mark_released request (r ∷ l) = ground (arith, length-mark_released request l)

find-mark_released :
    (request q : String) (late : List LateRecord)
    → find (is_about q) late ≡ none
    → find (is_about q) (mark_released request late) ≡ none
unfolding mark_released
find-mark_released request q [] e = refl
find-mark_released request q (r ∷ l) e = ground (arith, find-mark_released request q l)

mark_released-IsUnique :
    (request : String) (late : List LateRecord)
    → IsUnique late
    → IsUnique (mark_released request late)
unfolding mark_released
mark_released-IsUnique request [] u = tt
mark_released-IsUnique request (r ∷ l) u =
    ground
      (arith, mark_released-IsUnique request l u.1, find-mark_released request r.request_id l, u.0)

mark_released-IsBounded :
    (request : String) (late : List LateRecord)
    → IsBounded late
    → IsBounded (mark_released request late)
mark_released-IsBounded request late h = record {
  short = omega (arith, h.short, length-mark_released request late);
  unique = mark_released-IsUnique request late h.unique;
}

lift_expired-IsBounded :
    (now : ℕ) (ks : List String) (s : ArbiterState)
    → IsBounded s.late
    → IsBounded (lift_expired now ks s).late
unfolding lift_expired lift_one
lift_expired-IsBounded now [] s h = h
lift_expired-IsBounded now (k ∷ ks) s h =
    lift_expired-IsBounded now ks (lift_one now k s) (one (Map.get k s.held))
  where
    one :
        (o : Option Held)
        → IsBounded
            (elim o as (λ _. ArbiterState) [
              | none ↦ s
              | some e ↦ record s {
                held = Map.remove k s.held;
                late = record_late (request_of k e) expired true now s.late;
              }
            ]).late
    one none = h
    one (some e) = record_late-IsBounded (request_of k e) expired true now s.late h

lock_current-IsBounded :
    (now : ℕ) (s : ArbiterState) → IsBounded s.late → IsBounded (lock_current now s).late
unfolding lock_current
lock_current-IsBounded now s h =
    ground (arith, lift_expired-IsBounded now (expired_ids now s.held) s h)

-- A settlement records whether it lifted a quarantine.
pub late-settle_late :
    (request : String) (outcome : LateOutcome) (now : ℕ) (s : ArbiterState)
    → (settle_late request outcome now s).1.late
      ≡ record_late request outcome (settle_late request outcome now s).0 now s.late
unfolding settle_late
late-settle_late request outcome now s = ground arith

step-IsBounded : (op : Op) (s : ArbiterState) → IsBounded s.late → IsBounded (step op s).late
unfolding step
step-IsBounded (acquire owner now resources) s h =
    unfold try_acquire in ground (arith, lock_current-IsBounded now s h)
step-IsBounded (look now) s h = lock_current-IsBounded now s h
step-IsBounded (restore id now resources) s h = unfold restore_quarantine in h
step-IsBounded (lift target now) s h = unfold release in h
step-IsBounded (settle request outcome now) s h =
    rw late-settle_late (record_late-IsBounded request outcome _ now s.late h)
step-IsBounded (isolate lease reason none now) s h = unfold quarantine_request in h
step-IsBounded (isolate lease reason (some request) now) s h =
    unfold quarantine_request in ground (arith, h, mark_released-IsBounded request s.late h)
step-IsBounded (give_up lease) s h = unfold drop_lease in ground (arith, h)

-- From a history of at most 32 settlements with one for each request, any operations lead to such
-- a history.
pub run-IsBounded :
    (ops : List Op) (s : ArbiterState) → IsBounded s.late → IsBounded (run ops s).late
unfolding run
run-IsBounded [] s h = h
run-IsBounded (op ∷ ops) s h = run-IsBounded ops (step op s) (step-IsBounded op s h)
