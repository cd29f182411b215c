-- ===== src/Resources/Admission.antt =====
-- Who is admitted: what `try_acquire` answers, and which operations end an active lease.
use tauri_connector.Map
use tauri_connector.Map.{
  Map, has_key, get-insert, get-remove, get-modify, get-remove_all, get-remove_kept, has_key-keep,
  none_kept, remove_absent, insert-IsDistinct, remove-IsDistinct, modify-IsDistinct,
  remove_all-IsDistinct,
}
use tauri_connector.Resources.Paths.{overlaps}
use tauri_connector.Resources.Scopes.{overlaps-wanted}
use tauri_connector.Resources.State.{Held, ArbiterState, is_active, is_expired, lock_current}
use tauri_connector.Resources.Arbiter.{
  Busy, describe, describe_all, wanted, blockers, busy, try_acquire, restored, restore_quarantine,
}
use tauri_connector.Resources.Entries.{
  held-lock_current, get-lock_current, get-release, get-settle_late, get-quarantine_request,
  get-drop_lease,
}
use tauri_connector.Resources.Exclusion.{IsExclusive, step-IsExclusive}
use tauri_connector.Resources.Steps.{
  Op, acquire, look, restore, lift, settle, isolate, give_up, step, run,
}
use tauri_connector.Prelude.{
  ℕ, String, ◌≡◌, ◌↔◌, inl, inr, refl, sym, ◌∙◌, Bool, true, false, not, ◌&&◌, none, some, List, [],
  ◌∷◌, arith, str_eq, eq_iff, eq_refl, if◌then◌else◌, Bool-cases, any, keep, is_empty, Text, err,
  is_ok,
}

some_kept {ℓ} :
    {V : Type ℓ} (p : V → Bool) (m : Map V)
    → is_empty (keep (λ e. p e.1) m) ≡ false
    → Map.IsDistinct m
    → (k : String) × (v : V) × (Map.get k m ≡ some v) × (p v ≡ true)
unfolding Map.get
some_kept p [] h d = absurd (ground arith)
some_kept p ((j, w) ∷ m) h d = elim (Bool-cases (p w)) [
  | inl e ↦ (j, w, ground (arith, eq_refl j), e)
  | inr e ↦
      let (k, v, found, good) = some_kept p m (ground arith) d.1 in
      (k, v, ground (arith, eq_iff j k), good)
]

-- The leases that are left once the expired quarantines are lifted.
abbrev pub remaining : ℕ → ArbiterState → Map Held
remaining now s = (lock_current now s).held

-- Nothing that is left conflicts with the request.
abbrev pub IsFree : ℕ → List Text → ArbiterState → Type 0
IsFree now resources s =
    (id : String) (h : Held)
    → Map.get id (remaining now s) ≡ some h
    → overlaps resources h.resources ≡ false

IsFree-of_no_blockers :
    (now : ℕ) (resources : List Text) (s : ArbiterState)
    → is_empty (blockers (wanted resources) (remaining now s)) ≡ true
    → IsFree now resources s
unfolding blockers
IsFree-of_no_blockers now resources s e id h p =
    sym (overlaps-wanted resources h.resources)
    ∙ none_kept (λ (e : Held). overlaps (wanted resources) e.resources) id (remaining now s) h e p

no_blockers_of_free :
    (now : ℕ) (resources : List Text) (s : ArbiterState)
    → Map.IsDistinct s.held
    → IsFree now resources s
    → is_empty (blockers (wanted resources) (remaining now s)) ≡ true
unfolding blockers
no_blockers_of_free now resources s d free =
    elim (Bool-cases (is_empty (blockers (wanted resources) (remaining now s)))) [
      | inl e ↦ e
      | inr e ↦
          let (id, h, found, meets) =
            some_kept (λ (e : Held). overlaps (wanted resources) e.resources) (remaining now s) e
              (rw held-lock_current (remove_all-IsDistinct _ s.held d)) in
          absurd (ground (arith, free id h found, overlaps-wanted resources h.resources))
    ]

-- In a table with distinct keys, a lease is granted exactly when no entry that is left after the
-- expiry of quarantines conflicts with what is asked for.
pub try_acquire_iff :
    (owner : String) (now : ℕ) (resources : List Text) (s : ArbiterState)
    → Map.IsDistinct s.held
    → (is_ok (try_acquire owner now resources s).0 ≡ true) ↔ IsFree now resources s
unfolding try_acquire
try_acquire_iff owner now resources s d = (
  λ h. IsFree-of_no_blockers now resources s (ground arith),
  λ h. ground (arith, no_blockers_of_free now resources s d h),
)

-- After a request, the entry of its owner is its own active lease if it was granted; every other
-- entry, and every entry if it was refused, is as the expiry of quarantines left it.
pub get-try_acquire :
    (owner : String) (now : ℕ) (resources : List Text) (s : ArbiterState) (id : String)
    → Map.get id (try_acquire owner now resources s).1.held ≡ (
        if is_ok (try_acquire owner now resources s).0 && str_eq owner id
        then some (record { resources = wanted resources; quarantine = none })
        else Map.get id (remaining now s))
unfolding try_acquire
get-try_acquire owner now resources s id = ground (
  arith,
  get-insert owner id (record { resources = wanted resources; quarantine = none })
      (remaining now s),
)

describe-active :
    (now : ℕ) (l : List (String × Held)) (p : String × Held → Bool)
    → not (is_empty (describe_all now (keep p l))) ≡ any (λ e. p e && not (is_active e.1)) l
unfolding describe_all describe
describe-active now [] p = refl
describe-active now ((id, h) ∷ l) p = ground (arith, describe-active now l p)

-- A refusal says `quarantined` exactly when some entry that is left and conflicts with the request
-- is quarantined, and it always allows a retry before dispatch.
pub try_acquire-blames :
    (owner : String) (now : ℕ) (resources : List Text) (s : ArbiterState) (b : Busy)
    → (try_acquire owner now resources s).0 ≡ err b
    → (b.quarantined
        ≡ any
            (λ e. overlaps (wanted resources) e.1.resources && not (is_active e.1))
            (remaining now s))
      × (b.retryable_before_dispatch ≡ true)
unfolding try_acquire busy blockers
try_acquire-blames owner now resources s b h = ground (
  arith,
  describe-active now (remaining now s)
      (λ (e : String × Held). overlaps (wanted resources) e.1.resources),
)

-- The operations that may end or replace the lease of an owner: its own, and a new entry under the
-- same identifier.
unfoldable pub touches : String → Op → Bool
touches id (acquire owner now resources) = str_eq owner id
touches id (restore other now resources) = str_eq other id
touches id (isolate lease reason request now) = str_eq lease.owner id
touches id (give_up lease) = str_eq lease.owner id
touches id (look now) = false
touches id (lift target now) = false
touches id (settle request outcome now) = false

stays_active :
    (op : Op) (s : ArbiterState) (id : String) (h : Held)
    → Map.IsDistinct s.held
    → Map.get id s.held ≡ some h
    → is_active h ≡ true
    → touches id op ≡ false
    → Map.get id (step op s).held ≡ some h
unfolding step touches
stays_active (acquire owner now resources) s id h d p a t =
    unfold is_expired in
    ground (arith, get-try_acquire owner now resources s id, get-lock_current now s id d)
stays_active (look now) s id h d p a t =
    unfold is_expired in ground (arith, get-lock_current now s id d)
stays_active (restore other now resources) s id h d p a t =
    unfold restore_quarantine in ground (arith, get-insert other id (restored now resources) s.held)
stays_active (lift target now) s id h d p a t = ground (arith, get-release target now s id d)
stays_active (settle request outcome now) s id h d p a t =
    ground (arith, get-settle_late request outcome now s id d)
stays_active (isolate lease reason request now) s id h d p a t =
    ground (arith, get-quarantine_request lease reason request now s id)
stays_active (give_up lease) s id h d p a t = ground (arith, get-drop_lease lease s id)

-- Where active leases are apart, operations that do not name the owner (an acquisition or a
-- restored quarantine under its id, a quarantine or a drop of its lease) leave its active lease as
-- it is.
pub run-keeps_lease :
    (ops : List Op) (s : ArbiterState) (id : String) (h : Held)
    → IsExclusive s.held
    → Map.get id s.held ≡ some h
    → is_active h ≡ true
    → any (touches id) ops ≡ false
    → Map.get id (run ops s).held ≡ some h
unfolding run
run-keeps_lease [] s id h d p a t = p
run-keeps_lease (op ∷ ops) s id h d p a t =
    run-keeps_lease ops (step op s) id h (step-IsExclusive op s d)
      (stays_active op s id h d.distinct p a (ground arith)) a (ground arith)
