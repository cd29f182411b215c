-- ===== src/Picker/Follows.antt =====
-- What each single change of a selection leaves as it is.
use tauri_connector.Json.{Value}
use tauri_connector.Picker.Entries.{
  Clock, Entry, active, terminal, end_capture, revoke, begin_target_cleanup, page_unavailable,
  close_window, is_one_of, is_pending, is_concerned, failed_shot,
}
use tauri_connector.Picker.Reports.{reject_selection, accept_cleanup, releases}
use tauri_connector.Prelude.{
  ℕ, ◌+◌, ◌≤◌, ◌≡◌, refl, ◌∙◌, String, Bool, true, false, none, [], ◌∷◌, str_eq, arith, Bool-cases,
  inl, inr,
}

-- a cleanup after which nothing of the page is held any more
abbrev pub IsReleased : Entry → Type 0
IsReleased e = releases e.cleanup ≡ true → e.lease ≡ none

-- An entry that has ended keeps its status, a lease that is gone stays gone, the sequence and the
-- revision never go back, the revision moves with the status, and where the cleanup is over the
-- lease is gone.
pub record Follows (e e' : Entry) : Type 0 where
  pub ended : active e ≡ false → e'.status ≡ e.status
  pub gone : e.lease ≡ none → e'.lease ≡ none
  pub later : e.revision ≤ e'.revision
  pub newer : e.sequence ≤ e'.sequence
  pub counted : e'.revision ≡ e.revision → e'.status ≡ e.status
  pub released : IsReleased e → IsReleased e'

pub Follows-refl : (e : Entry) → Follows e e
Follows-refl e = record {
  ended = λ h. refl;
  gone = λ h. h;
  later = omega arith;
  newer = omega arith;
  counted = λ h. refl;
  released = λ h. h;
}

pub Follows-trans : (e f g : Entry) → Follows e f → Follows f g → Follows e g
unfolding active
Follows-trans e f g a b = record {
  ended = λ h. let same = a.ended h in b.ended (rw same h) ∙ same;
  gone = λ h. b.gone (a.gone h);
  later = let first = a.later in let second = b.later in omega arith;
  newer = let first = a.newer in let second = b.newer in omega arith;
  counted = λ h.
      let first = a.later in
      let second = b.later in b.counted (omega arith) ∙ a.counted (omega arith);
  released = λ h. b.released (a.released h);
}

-- a change of what these facts do not speak of, or of the revision alone
pub quiet :
    (e f : Entry)
    → f.status ≡ e.status
    → f.lease ≡ e.lease
    → f.cleanup ≡ e.cleanup
    → e.revision ≤ f.revision
    → e.sequence ≤ f.sequence
    → Follows e f
quiet e f status lease cleanup later newer = record {
  ended = λ h. status;
  gone = λ h. lease ∙ h;
  later = later;
  newer = newer;
  counted = λ h. status;
  released = λ h over. lease ∙ h (rw cleanup at over);
}

pub terminal-Follows :
    (clock : Clock) (status : String) (e : Entry) → Follows e (terminal clock status e)
unfolding terminal
terminal-Follows clock status e = ground arith

end_capture-Follows : (shot : Value) (more : ℕ) (e : Entry) → Follows e (end_capture shot more e)
unfolding end_capture
end_capture-Follows shot more e = elim (Bool-cases (is_pending e)) [
  | inl pending ↦ rw pending (
      quiet e (record e { screenshot = shot; revision = e.revision + more }) refl refl refl
        (omega arith) (omega arith))
  | inr quiet_shot ↦ rw quiet_shot (Follows-refl e)
]

-- an end, and what goes with it
pub terminal_with :
    (clock : Clock) (status : String) (e f : Entry)
    → Follows (terminal clock status e) f
    → Follows e f
terminal_with clock status e f h =
    Follows-trans e (terminal clock status e) f (terminal-Follows clock status e) h

pub revoke-Follows : (clock : Clock) (e : Entry) → Follows e (revoke clock e)
unfolding revoke
revoke-Follows clock e =
    let over = terminal clock "cancelled" e in
    let bare = record over {
      cancel_capture = true;
      selection = none;
      image = none;
      image_reservation = none;
    } in
    terminal_with clock "cancelled" e (revoke clock e) (
      Follows-trans over bare (revoke clock e)
        (quiet over bare refl refl refl (omega arith) (omega arith)) (end_capture-Follows _ 1 bare))

begin_target_cleanup-Follows :
    (clock : Clock) (e : Entry) → Follows e (begin_target_cleanup clock e)
unfolding begin_target_cleanup
begin_target_cleanup-Follows clock e =
    let over = terminal clock "target_changed" e in
    let bare = record over { cancel_capture = true } in
    terminal_with clock "target_changed" e (begin_target_cleanup clock e) (
      Follows-trans over bare (begin_target_cleanup clock e)
        (quiet over bare refl refl refl (omega arith) (omega arith)) (end_capture-Follows _ 1 bare))

-- the page is gone, with the lease, or its cleanup is not confirmed
let_go :
    (e f : Entry)
    → f.status ≡ e.status
    → f.lease ≡ none
    → e.revision ≤ f.revision
    → e.sequence ≤ f.sequence
    → Follows e f
let_go e f status lease later newer = record {
  ended = λ h. status;
  gone = λ h. lease;
  later = later;
  newer = newer;
  counted = λ h. status;
  released = λ h over. lease;
}

not_over :
    (e f : Entry)
    → f.status ≡ e.status
    → f.lease ≡ e.lease
    → releases f.cleanup ≡ false
    → e.revision ≤ f.revision
    → e.sequence ≤ f.sequence
    → Follows e f
not_over e f status lease cleanup later newer = record {
  ended = λ h. status;
  gone = λ h. lease ∙ h;
  later = later;
  newer = newer;
  counted = λ h. status;
  released = λ h over. absurd (cc);
}

pub page_unavailable-Follows :
    (clock : Clock) (destroyed : Bool) (e : Entry) → Follows e (page_unavailable clock destroyed e)
unfolding page_unavailable
page_unavailable-Follows clock destroyed e =
    let lost = begin_target_cleanup clock e in
    let before = begin_target_cleanup-Follows clock e in
    elim (Bool-cases (str_eq e.cleanup "context_destroyed")) [
      | inl over ↦ rw over (Follows-refl e)
      | inr held ↦ elim (Bool-cases destroyed) [
        | inl gone ↦
            rw (held, gone)
              (Follows-trans e lost _ before (let_go lost _ refl refl (omega arith) (omega arith)))
        | inr stays ↦
            rw (held, stays)
              (Follows-trans e lost _ before
                (not_over lost _ refl refl refl (omega arith) (omega arith)))
      ]
    ]

pub close_window-Follows :
    (clock : Clock) (window : String) (e : Entry) → Follows e (close_window clock window e)
unfolding close_window
close_window-Follows clock window e =
    let over = terminal clock "target_changed" e in
    let bare = record over { cancel_capture = true; cleanup = "context_destroyed"; lease = none } in
    let stopped = end_capture failed_shot 0 bare in
    let after = end_capture-Follows failed_shot 0 bare in
    let all = terminal_with clock "target_changed" e stopped (
      Follows-trans over bare stopped (let_go over bare refl refl (omega arith) (omega arith))
        after) in
    let closed_entry = record stopped { revision = stopped.revision + 1 } in
    let done =
      Follows-trans e stopped closed_entry all
        (quiet stopped closed_entry refl refl refl (omega arith) (omega arith)) in
    elim (Bool-cases (is_concerned window e)) [
      | inl mine ↦ rw mine done
      | inr not_mine ↦ rw not_mine (Follows-refl e)
    ]

pub reject_selection-Follows : (clock : Clock) (e : Entry) → Follows e (reject_selection clock e)
reject_selection-Follows clock e = terminal_with clock "failed" e (reject_selection clock e) (
    quiet (terminal clock "failed" e) (reject_selection clock e) refl refl refl (omega arith)
      (omega arith))

pub accept_cleanup-Follows : (cleanup : String) (e : Entry) → Follows e (accept_cleanup cleanup e)
unfolding accept_cleanup
accept_cleanup-Follows cleanup e =
    elim (Bool-cases (is_one_of ("confirmed" ∷ "unconfirmed" ∷ "context_destroyed" ∷ []) cleanup)) [
      | inr unknown ↦ rw unknown (Follows-refl e)
      | inl known ↦ elim (Bool-cases (releases cleanup)) [
        | inl over ↦ elim (Bool-cases (str_eq e.cleanup cleanup)) [
          | inl same ↦ rw (known, over, same) (let_go e _ refl refl (omega arith) (omega arith))
          | inr new ↦ rw (known, over, new) (let_go e _ refl refl (omega arith) (omega arith))
        ]
        | inr held ↦ elim (Bool-cases (str_eq e.cleanup cleanup)) [
          | inl same ↦ rw (known, held, same) (Follows-refl e)
          | inr new ↦
              rw (known, held, new) (not_over e _ refl refl held (omega arith) (omega arith))
        ]
      ]
    ]
