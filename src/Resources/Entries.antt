-- ===== src/Resources/Entries.antt =====
-- What each operation leaves in the table of leases, entry by entry.
use mathlib.Core.Option
use tauri_connector.Map
use tauri_connector.Map.{
  Map, has_key, get-insert, get-remove, get-modify, get-remove_all, get-remove_kept, has_key-keep,
  none_kept, remove_absent, remove_all-IsDistinct, remove-IsDistinct,
}
use tauri_connector.Resources.State.{
  Held, LateOutcome, releases_quarantine, ArbiterState, is_active, lift_one, lift_expired,
  expired_ids, ids, is_expired, lock_current,
}
use tauri_connector.Resources.Arbiter.{
  Lease, release_ids, release, is_target, is_awaiting, settle_late, has_settled, put_in_quarantine,
  quarantine_request, drop_lease,
}
use tauri_connector.Prelude.{
  keep, ℕ, String, ◌≡◌, inl, inr, refl, ap, ◌∙◌, ◌&&◌, Option, none, some, List, [], ◌∷◌, arith,
  str_eq, eq_iff, if◌then◌else◌, Option-cases,
}

held-lift_one :
    (now : ℕ) (k : String) (s : ArbiterState) → (lift_one now k s).held ≡ Map.remove k s.held
unfolding lift_one
held-lift_one now k s = ground (arith, remove_absent k s.held)

held-lift_expired :
    (now : ℕ) (ks : List String) (s : ArbiterState)
    → (lift_expired now ks s).held ≡ Map.remove_all ks s.held
unfolding lift_expired Map.remove_all
held-lift_expired now [] s = refl
held-lift_expired now (k ∷ ks) s =
    held-lift_expired now ks (lift_one now k s) ∙ ap (Map.remove_all ks) (held-lift_one now k s)

pub held-lock_current :
    (now : ℕ) (s : ArbiterState)
    → (lock_current now s).held ≡ Map.remove_all (expired_ids now s.held) s.held
unfolding lock_current
held-lock_current now s = ground (arith, held-lift_expired now (expired_ids now s.held) s)

-- an entry after the expired quarantines are lifted
abbrev pub unexpired : ℕ → Option Held → Option Held
unexpired now none = none
unexpired now (some h) = if is_expired now h then none else some h

-- In a table with distinct keys, taking the lock removes exactly the quarantines that have
-- outlived their time to live, and changes no other entry.
pub get-lock_current :
    (now : ℕ) (s : ArbiterState) (id : String)
    → Map.IsDistinct s.held
    → Map.get id (lock_current now s).held ≡ unexpired now (Map.get id s.held)
unfolding expired_ids
get-lock_current now s id d =
    rw held-lock_current (ground (arith, get-remove_kept (λ e. is_expired now e.1) id s.held d))

held-release_ids :
    (now : ℕ) (ks : List String) (held : Map Held)
    → (release_ids now ks held).1 ≡ Map.remove_all ks held
unfolding release_ids Map.remove_all
held-release_ids now [] held = refl
held-release_ids now (k ∷ ks) held = elim (Option-cases (Map.get k held)) [
  | inl e ↦ rw (e, release_ids) (rw (remove_absent k held e) (held-release_ids now ks held))
  | inr (h, e) ↦ rw (e, release_ids) (held-release_ids now ks _)
]

abbrev pub released_unless : Option String → String → Option Held → Option Held
released_unless target id none = none
released_unless target id (some h) = if is_target target id h then none else some h

-- An explicit release removes exactly the quarantines that it names, by the identifier or the
-- request, or all of them without a target. Every other lease stays.
pub get-release :
    (target : Option String) (now : ℕ) (s : ArbiterState) (id : String)
    → Map.IsDistinct s.held
    → Map.get id (release target now s).1.held ≡ released_unless target id (Map.get id s.held)
unfolding release
get-release target now s id d =
    rw held-release_ids
      (ground (arith, get-remove_kept (λ e. is_target target e.0 e.1) id s.held d))

abbrev pub settled_unless : String → LateOutcome → Option Held → Option Held
settled_unless request outcome none = none
settled_unless request outcome (some h) =
    if releases_quarantine outcome && is_awaiting request h then none else some h

-- A late settlement with known effects removes exactly the quarantines of its request, and
-- reports whether there were any. Any other settlement leaves every lease as it is.
pub get-settle_late :
    (request : String) (outcome : LateOutcome) (now : ℕ) (s : ArbiterState) (id : String)
    → Map.IsDistinct s.held
    → Map.get id (settle_late request outcome now s).1.held
      ≡ settled_unless request outcome (Map.get id s.held)
unfolding settle_late
get-settle_late request outcome now s id d = ground (
  arith,
  get-remove_kept (λ (e : String × Held). is_awaiting request e.1) id s.held d,
  has_key-keep (λ (e : String × Held). is_awaiting request e.1) id s.held d,
)

-- The lease of another owner, or one that is settled already, is not touched by a quarantine.
pub get-quarantine_request :
    (lease : Lease) (reason : String) (request : Option String) (now : ℕ) (s : ArbiterState)
    (id : String)
    → Map.get id (quarantine_request lease reason request now s).held ≡ (
        if has_settled request s.late
        then Map.get id s.held
        else if str_eq lease.owner id
        then Option.map (put_in_quarantine reason request now) (Map.get id s.held)
        else Map.get id s.held)
unfolding quarantine_request
get-quarantine_request lease reason request now s id =
    ground (arith, get-modify lease.owner id (put_in_quarantine reason request now) s.held)

abbrev pub dropped : Option Held → Option Held
dropped none = none
dropped (some h) = if is_active h then none else some h

-- Dropping a lease removes its own entry unless that is quarantined, and no other.
pub get-drop_lease :
    (lease : Lease) (s : ArbiterState) (id : String)
    → Map.get id (drop_lease lease s).held
      ≡ (if str_eq lease.owner id then dropped (Map.get id s.held) else Map.get id s.held)
unfolding drop_lease
get-drop_lease lease s id = ground (arith, get-remove lease.owner id s.held, eq_iff lease.owner id)

pub release-IsDistinct :
    (target : Option String) (now : ℕ) (s : ArbiterState)
    → Map.IsDistinct s.held
    → Map.IsDistinct (release target now s).1.held
unfolding release
release-IsDistinct target now s d = rw held-release_ids (remove_all-IsDistinct _ s.held d)

pub settle_late-IsDistinct :
    (request : String) (outcome : LateOutcome) (now : ℕ) (s : ArbiterState)
    → Map.IsDistinct s.held
    → Map.IsDistinct (settle_late request outcome now s).1.held
unfolding settle_late
settle_late-IsDistinct request outcome now s d =
    let matching = ids (keep (λ e. is_awaiting request e.1) s.held) in
    ground (arith, d, remove_all-IsDistinct matching s.held)

pub drop_lease-IsDistinct :
    (lease : Lease) (s : ArbiterState)
    → Map.IsDistinct s.held
    → Map.IsDistinct (drop_lease lease s).held
unfolding drop_lease
drop_lease-IsDistinct lease s d = ground (arith, d, remove-IsDistinct lease.owner s.held)
