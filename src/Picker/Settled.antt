-- ===== src/Picker/Settled.antt =====
-- What no operation on a selection undoes.
use tauri_connector.Json
use tauri_connector.Json.{Value, num, str, obj}
use tauri_connector.Json.Reads.{at}
use tauri_connector.Picker.Entries.{Clock, Entry, active, terminal, is_one_of, max_metadata}
use tauri_connector.Picker.Reports.{
  sanitize_selection, accept_selection, accept_status, accept_cleanup, accept, text_or_empty,
  take_selection, is_from_page, is_newer, sequence_of, Event, reported, ended, revoked, lost,
  closed, step, run,
}
use tauri_connector.Prelude.{
  ℕ, ◌+◌, ◌≤◌, ◌≡◌, refl, String, true, false, not, ◌&&◌, ◌||◌, Option, none, some, List, [], ◌∷◌,
  str_eq, ltb, arith, Bool-cases, inl, inr,
}
use tauri_connector.Picker.Follows.{
  Follows, Follows-refl, Follows-trans, quiet, terminal-Follows, revoke-Follows,
  page_unavailable-Follows, close_window-Follows, reject_selection-Follows, accept_cleanup-Follows,
}

newer_report :
    (report : Value) (e : Entry) → is_newer report e ≡ true → e.sequence ≤ sequence_of report
newer_report report e h = go (Json.as_u64 (at report "sequence")) h
  where
    go :
        (found : Option ℕ)
        → (elim found [ none ↦ false | some n ↦ ltb e.sequence n ]) ≡ true
        → e.sequence ≤ (elim found [ none ↦ 0 | some n ↦ n ])
    go none h = absurd (cc)
    go (some n) h = ground arith

stale :
    (size : Value → ℕ) (clock : Clock) (report : Value) (e : Entry)
    → sequence_of report ≤ e.sequence
    → accept size clock report e ≡ (false, e)
unfolding accept
stale size clock report e h =
    let old : is_newer report e ≡ false = go (Json.as_u64 (at report "sequence")) h in
    let refused : (not (is_from_page report e) || not (is_newer report e)) ≡ true =
      ground (arith, old) in
    rw refused refl
  where
    go :
        (found : Option ℕ)
        → (elim found [ none ↦ 0 | some n ↦ n ]) ≤ e.sequence
        → (elim found [ none ↦ false | some n ↦ ltb e.sequence n ]) ≡ false
    go none h = refl
    go (some n) h = ground arith

module _ (size : Value → ℕ) where
  chosen-Follows :
      (clock : Clock) (found : Option Value) (e : Entry) → Follows e (take_selection clock found e)
  chosen-Follows clock none e = reject_selection-Follows clock e
  chosen-Follows clock (some clean) e =
      let kept = record e { selection = some clean } in
      Follows-trans e kept (terminal clock "selected" kept)
        (quiet e kept refl refl refl (omega arith) (omega arith))
        (terminal-Follows clock "selected" kept)

  accept_selection-Follows :
      (clock : Clock) (selection : Value) (e : Entry)
      → Follows e (accept_selection size clock selection e)
  unfolding accept_selection
  accept_selection-Follows clock selection e =
      elim (Bool-cases (not (Json.is_object selection) || ltb max_metadata (size selection))) [
        | inl refused ↦ rw refused (reject_selection-Follows clock e)
        | inr small ↦ rw small (chosen-Follows clock (sanitize_selection selection) e)
      ]

  moves_on :
      (status : String) (e : Entry)
      → active e ≡ true
      → Follows e (record e { status = status; revision = e.revision + 1 })
  moves_on status e h = record {
    ended = λ over. absurd (cc);
    gone = λ gone. gone;
    later = omega arith;
    newer = omega arith;
    counted = λ same. absurd (omega arith);
    released = λ r. r;
  }

  accept_status-Follows :
      (clock : Clock) (report : Value) (e : Entry) → Follows e (accept_status size clock report e)
  unfolding accept_status
  accept_status-Follows clock report e =
      let status = text_or_empty (at report "status") in
      elim (Bool-cases (str_eq status "selected" && active e && ltb clock.instant e.deadline)) [
        | inl chosen ↦ rw chosen (accept_selection-Follows clock (at report "selection") e)
        | inr not_chosen ↦
            elim (Bool-cases
              (is_one_of ("cancelled" ∷ "expired" ∷ "target_changed" ∷ "failed" ∷ []) status)) [
                | inl ends ↦ rw (not_chosen, ends) (terminal-Follows clock status e)
                | inr goes ↦
                    elim (Bool-cases (
                      str_eq status "awaiting_selection"
                      && active e
                      && not (str_eq e.status "awaiting_selection"))) [
                        | inl awaits ↦
                            rw (not_chosen, goes, awaits) (moves_on status e (ground arith))
                        | inr stays ↦ rw (not_chosen, goes, stays) (Follows-refl e)
                      ]
              ]
      ]

  -- a report that is taken brings its sequence with it
  accept-Follows :
      (clock : Clock) (report : Value) (e : Entry)
      → Follows e (accept size clock report e).1
        × ((accept size clock report e).0 ≡ true
            → sequence_of report ≤ (accept size clock report e).1.sequence)
  unfolding accept
  accept-Follows clock report e =
      let numbered = record e { sequence = sequence_of report } in
      let taken = accept_status size clock report numbered in
      let cleanup = text_or_empty (at (at report "cleanup") "status") in
      let after =
        Follows-trans numbered taken (accept_cleanup cleanup taken)
          (accept_status-Follows clock report numbered) (accept_cleanup-Follows cleanup taken) in
      elim (Bool-cases (not (is_from_page report e) || not (is_newer report e))) [
        | inl refused ↦ rw refused (Follows-refl e, λ h. absurd (cc))
        | inr good ↦ rw good (
          Follows-trans e numbered (accept_cleanup cleanup taken)
              (quiet e numbered refl refl refl (omega arith) (newer_report report e (ground arith)))
              after,
          λ h. after.newer,
        )
      ]

  step-Follows : (v : Event) (e : Entry) → Follows e (step size v e)
  unfolding step
  step-Follows (reported clock report) e = (accept-Follows clock report e).0
  step-Follows (ended clock status) e = terminal-Follows clock status e
  step-Follows (revoked clock) e = revoke-Follows clock e
  step-Follows (lost clock destroyed) e = page_unavailable-Follows clock destroyed e
  step-Follows (closed clock window) e = close_window-Follows clock window e

-- Through any reports of the page, ends, revocations and losses of the page or its window, in any
-- order: a selection that has ended keeps its status, a lease that is gone stays gone, the sequence
-- and the revision never go back, the status changes only with the revision, and where the lease
-- was gone once the cleanup was confirmed or the page destroyed, it is so afterwards.
pub run-Follows : (size : Value → ℕ) (es : List Event) (e : Entry) → Follows e (run size es e)
unfolding run
run-Follows size [] e = Follows-refl e
run-Follows size (v ∷ vs) e =
    Follows-trans e (step size v e) (run size vs (step size v e)) (step-Follows size v e)
      (run-Follows size vs (step size v e))

-- A report of the page that has been taken is never taken again, whatever happens in between.
pub accept-once :
    (size : Value → ℕ) (clock clock' : Clock) (report : Value) (es : List Event) (e : Entry)
    → (accept size clock report e).0 ≡ true
    → accept size clock' report (run size es (accept size clock report e).1)
      ≡ (false, run size es (accept size clock report e).1)
accept-once size clock clock' report es e taken =
    let first = (accept-Follows size clock report e).1 taken in
    let rest = (run-Follows size es (accept size clock report e).1).newer in
    stale size clock' report (run size es (accept size clock report e).1) (omega arith)
