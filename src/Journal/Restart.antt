-- ===== src/Journal/Restart.antt =====
-- A journal that is opened again: after sound writes, after a failed write, and the order of what
-- it holds.
use tauri_connector.Journal.Durability.{IsQueued, IsIntact, OpTrips, step-IsIntact}
use mathlib.Core.List.{append_assoc, append-nil}
use tauri_connector.Journal.Records.{JournalRecord, JournalOptions, corrupt, Codec, newline}
use tauri_connector.Journal.Reader.{
  read_until, ends_line, History, read_record, read_lines, read_history,
}
use tauri_connector.Journal.Writer.{
  Io, fails, Append, Journal, admit, accept, submit, write_line, write_one, Op, append, write,
  write_next, step, run, empty,
}
use tauri_connector.Journal.Recovery.{lines, index_after, read_lines-All, read_history-lines}
use tauri_connector.Prelude.{
  ℕ, zero, suc, ◌+◌, ◌≤◌, ◌<◌, ◌≡◌, inl, inr, refl, ap, ◌∙◌, true, false, some, List, [], ◌∷◌, ◌++◌,
  arith, ◌==◌, Bool-cases, length, length-append, take, any, is_empty, is_ok, All, ok, err,
}

module _ (codec : Codec) (options : JournalOptions) where
  write_next_poisoned :
      (io : Io) (queue : List Append) (j : Journal)
      → j.poisoned ≡ true
      → ((write_next options io queue j).0 ≡ [])
        × ((write_next options io queue j).1.file ≡ j.file)
        × ((write_next options io queue j).1.poisoned ≡ true)
  unfolding write_next write_one accept
  write_next_poisoned io [] j p = (refl, refl, p)
  write_next_poisoned io (a ∷ queue) j p = ground arith

  step_poisoned :
      (op : Op) (j : Journal)
      → j.poisoned ≡ true
      → ((step codec options op j).0 ≡ [])
        × ((step codec options op j).1.file ≡ j.file)
        × ((step codec options op j).1.poisoned ≡ true)
  unfolding step
  step_poisoned (append r) j p = unfold submit admit in ground arith
  step_poisoned (write io) j p = write_next_poisoned io j.queue j p

  run_poisoned :
      (ops : List Op) (j : Journal)
      → j.poisoned ≡ true
      → ((run codec options ops j).0 ≡ [])
        × ((run codec options ops j).1.file ≡ j.file)
        × ((run codec options ops j).1.poisoned ≡ true)
  unfolding run
  run_poisoned [] j p = (refl, refl, p)
  run_poisoned (op ∷ ops) j p =
      let s = step_poisoned op j p in
      let r = run_poisoned ops (step codec options op j).1 s.2 in (cc (s.0, r.0), r.1 ∙ s.1, r.2)

  -- Once the write of an accepted record has failed, no later submission is admitted, and no later
  -- write changes the file or acknowledges a record.
  pub run-failed :
      (n : ℕ) (a : Append) (j : Journal) (ops : List Op) (r : JournalRecord)
      → accept options a j ≡ ok tt
      → (let failed = (write_one options (fails n) a j).1 in
          let later = run codec options ops failed in
          (later.0 ≡ [])
          × (later.1.file ≡ failed.file)
          × (is_ok (submit codec options r later.1).0 ≡ false))
  unfolding write_one write_line submit admit
  run-failed n a j ops r accepted =
      let failed = (write_one options (fails n) a j).1 in
      let p : failed.poisoned ≡ true = rw (accepted, write_one) refl in
      let (none_acked, same, still) = run_poisoned ops failed p in (none_acked, same, rw still refl)

  run-IsIntact :
      (ops : List Op) (h : List JournalRecord) (j : Journal)
      → All (OpTrips codec options) ops
      → IsIntact codec options h j
      → (run codec options ops j).1.poisoned ≡ false
      → IsIntact codec options (h ++ (run codec options ops j).0) (run codec options ops j).1
  unfolding run
  run-IsIntact [] h j t i p = rw append-nil i
  run-IsIntact (op ∷ ops) h j t i p = elim (Bool-cases (step codec options op j).1.poisoned) [
    | inl bad ↦ absurd (ground (arith, (run_poisoned ops (step codec options op j).1 bad).2))
    | inr sound ↦
        rw
          (← append_assoc h (step codec options op j).0
            (run codec options ops (step codec options op j).1).0)
          (run-IsIntact ops (h ++ (step codec options op j).0) (step codec options op j).1 t.1
            (step-IsIntact codec options op h j t.0 i sound) p)
  ]

  read_history-intact :
      (h : List JournalRecord) (j : Journal)
      → IsIntact codec options h j
      → read_history codec options j.file ≡ some (ok ((h, j.index), j.byte_count))
  read_history-intact h j i =
      rw (i.sized, i.indexed, i.contents)
        (read_history-lines codec options h i.good i.continues i.retained
          (rw i.contents at i.bounded))

  -- From a sound journal whose file holds the records `h`, after any submissions (of records that
  -- the codec reads back) and writes none of which failed: reading the file gives `h` and then
  -- exactly the records that were acknowledged, in their order, with the index and the byte count
  -- that the writer has.
  pub restart-acknowledged :
      (ops : List Op) (h : List JournalRecord) (j : Journal)
      → All (OpTrips codec options) ops
      → IsIntact codec options h j
      → (run codec options ops j).1.poisoned ≡ false
      → read_history codec options (run codec options ops j).1.file
        ≡ some (
            ok (
              (h ++ (run codec options ops j).0, (run codec options ops j).1.index),
              (run codec options ops j).1.byte_count,
            ))
  restart-acknowledged ops h j t i p =
      read_history-intact (h ++ (run codec options ops j).0) (run codec options ops j).1
        (run-IsIntact ops h j t i p)

  pub empty-IsIntact : IsIntact codec options [] empty
  unfolding lines index_after
  empty-IsIntact = record {
    contents = refl;
    sized = refl;
    counted = refl;
    indexed = refl;
    good = tt;
    continues = tt;
    retained = omega arith;
    bounded = omega arith;
    sound = refl;
    queued = tt;
  }

  take_none :
      (n : ℕ) (s : List ℕ)
      → any (λ c. c == newline) s ≡ false
      → any (λ c. c == newline) (take n s) ≡ false
  take_none zero s h = refl
  take_none (suc n) [] h = refl
  take_none (suc n) (c ∷ s) h = ground (arith, take_none n s)

  read_until-torn :
      (n : ℕ) (s : List ℕ)
      → any (λ c. c == newline) s ≡ false
      → length s < n
      → read_until n s ≡ (s, [])
  unfolding read_until
  read_until-torn zero s h lt = absurd (omega arith)
  read_until-torn (suc n) [] h lt = refl
  read_until-torn (suc n) (c ∷ s) h lt = ground (arith, read_until-torn n s)

  not-ends_line : (s : List ℕ) → any (λ c. c == newline) s ≡ false → ends_line s ≡ false
  not-ends_line [] h = refl
  not-ends_line (c ∷ []) h = ground arith
  not-ends_line (c ∷ d ∷ s) h = not-ends_line (d ∷ s) (ground arith)

  length-take-le : (n : ℕ) (s : List ℕ) → length (take n s) ≤ length s
  length-take-le zero s = omega arith
  length-take-le (suc n) [] = omega arith
  length-take-le (suc n) (c ∷ s) = omega (arith, length-take-le n s)

  take-append : (n : ℕ) (s t : List ℕ) → n ≤ length s → take n (s ++ t) ≡ take n s
  take-append zero s t h = refl
  take-append (suc n) [] t h = absurd (omega arith)
  take-append (suc n) (c ∷ s) t h = ap (◌∷◌ c) (take-append n s t (omega arith))

  not-is_empty-take : (n : ℕ) (s : List ℕ) → suc n ≤ length s → is_empty (take (suc n) s) ≡ false
  not-is_empty-take n [] h = absurd (omega arith)
  not-is_empty-take n (c ∷ s) h = refl

  read_lines-torn :
      (k : ℕ) (s : List ℕ) (h : History)
      → any (λ c. c == newline) s ≡ false
      → is_empty s ≡ false
      → length s ≤ options.max_record_bytes
      → length h.0 < options.max_records
      → read_lines (suc k) codec options s h
        ≡ some (err (corrupt "partial final record; no automatic repair or replay"))
  unfolding read_lines read_record
  read_lines-torn k s h one_line some_bytes short count = ground (
    arith,
    read_until-torn (options.max_record_bytes + 1) s one_line (omega arith),
    not-ends_line s one_line,
  )

  -- Where a sound journal accepts a record, and its write breaks off after at least one byte and
  -- within the record's own bytes, reading the file is refused as a partial final record.
  pub restart-torn :
      (h : List JournalRecord) (j : Journal) (a : Append) (n : ℕ)
      → IsIntact codec options h j
      → IsQueued codec options a
      → accept options a j ≡ ok tt
      → suc n ≤ length (codec.encode a.entry)
      → read_history codec options (write_one options (fails (suc n)) a j).1.file
        ≡ some (err (corrupt "partial final record; no automatic repair or replay"))
  unfolding write_one write_line
  restart-torn h j a n i q accepted within =
      let torn = take (suc n) (codec.encode a.entry) in
      let same : take (suc n) a.bytes ≡ torn =
        rw q.encoded (take-append (suc n) (codec.encode a.entry) (newline ∷ []) within) in
      let (k, read) = read_lines-All codec options h torn i.good i.continues i.retained in
      let broken =
        read_lines-torn k torn (h, index_after [] h)
          (take_none (suc n) (codec.encode a.entry) q.good.trips.one_line)
          (not-is_empty-take n (codec.encode a.entry) within)
          (omega (arith, length-take-le (suc n) (codec.encode a.entry), q.good.fits))
          (unfold accept in ground (arith, i.counted)) in
      let room : length (lines codec h ++ torn) ≤ options.max_bytes =
        unfold accept in
        ground (
          arith,
          i.sized,
          i.bounded,
          i.contents,
          q.encoded,
          length-append (lines codec h) torn,
          length-append (codec.encode a.entry) (newline ∷ []),
          length-take-le (suc n) (codec.encode a.entry),
        ) in
      rw (accepted, write_one)
        (rw (same, i.contents) (unfold read_history in ground (arith, read, broken, room)))
