-- ===== src/Journal/Durability.antt =====
-- What the writer keeps true of its file, through any submissions and writes.
use mathlib.Core.List.{append_assoc, append-nil}
use tauri_connector.Journal.Records.{
  JournalRecord, JournalOptions, JournalError, Index, remember, validate_sequence, Codec, newline,
  line, RoundTrips,
}
use tauri_connector.Journal.Writer.{
  Io, durable, fails, Append, Journal, admit, submit, accept, write_line, write_one, Op, append,
  write, write_next, step,
}
use tauri_connector.Journal.Recovery.{lines, index_after, Continues, IsGood}
use tauri_connector.Prelude.{
  ◌-◌, ◌≤◌, ◌<◌, ◌≡◌, inl, inr, refl, true, false, List, [], ◌∷◌, ◌++◌, arith, if◌then◌else◌,
  Bool-cases, length, length-append, All, All-append, Result, ok, err, is_ok,
}

index_after-append :
    (index : Index) (h : List JournalRecord) (r : JournalRecord)
    → index_after index (h ++ r ∷ []) ≡ remember r (index_after index h)
unfolding index_after
index_after-append index [] r = refl
index_after-append index (x ∷ h) r = index_after-append (remember x index) h r

Continues-append :
    (index : Index) (h : List JournalRecord) (r : JournalRecord)
    → Continues index h
    → validate_sequence r (index_after index h) ≡ ok tt
    → Continues index (h ++ r ∷ [])
unfolding index_after
Continues-append index [] r c v = (v, tt)
Continues-append index (x ∷ h) r c v = (c.0, Continues-append (remember x index) h r c.1 v)

module _ (codec : Codec) (options : JournalOptions) where
  pub record IsQueued (a : Append) : Type 0 where
    pub encoded : a.bytes ≡ line codec a.entry
    pub good : IsGood codec options a.entry

  -- The file holds exactly the records `h`, within the limits.
  pub record IsIntact (h : List JournalRecord) (j : Journal) : Type 0 where
    pub contents : j.file ≡ lines codec h
    pub sized : j.byte_count ≡ length j.file
    pub counted : j.record_count ≡ length h
    pub indexed : j.index ≡ index_after [] h
    pub good : All (IsGood codec options) h
    pub continues : Continues [] h
    pub retained : length h ≤ options.max_records
    pub bounded : length j.file ≤ options.max_bytes
    pub sound : j.poisoned ≡ false
    pub queued : All IsQueued j.queue

  -- what the environment answers for: `serde_json` writes and reads back the records submitted
  abbrev pub OpTrips : Op → Type 0
  OpTrips (append r) = RoundTrips codec r
  OpTrips (write io) = Unit

  lines-append :
      (h : List JournalRecord) (r : JournalRecord)
      → lines codec (h ++ r ∷ []) ≡ lines codec h ++ line codec r
  unfolding lines
  lines-append [] r = refl
  lines-append (x ∷ h) r =
      rw (lines-append h r, append_assoc (codec.encode x) (newline ∷ lines codec h) (line codec r))

  admit-IsGood :
      (r : JournalRecord) (j : Journal)
      → RoundTrips codec r
      → is_ok (admit codec options r j) ≡ true
      → IsGood codec options r
  admit-IsGood r j t e = record {
    valid = unfold admit in ground arith;
    fits = unfold admit in ground (arith, length-append (codec.encode r) (newline ∷ []));
    trips = t;
  }

  submit-IsIntact :
      (r : JournalRecord) (h : List JournalRecord) (j : Journal)
      → RoundTrips codec r
      → IsIntact h j
      → IsIntact h (submit codec options r j).1
  unfolding submit
  submit-IsIntact r h j t i = elim (Bool-cases (is_ok (admit codec options r j))) [
    | inr refused ↦ rw (refused, submit) i
    | inl queued ↦
        rw (queued, submit)
          (record {
            contents = i.contents;
            sized = i.sized;
            counted = i.counted;
            indexed = i.indexed;
            good = i.good;
            continues = i.continues;
            retained = i.retained;
            bounded = i.bounded;
            sound = i.sound;
            queued =
                All-append IsQueued j.queue _ i.queued
                  (record { encoded = refl; good = admit-IsGood r j t queued }, tt);
          })
  ]

  -- a line that is written whole
  write_line-IsIntact :
      (a : Append) (h : List JournalRecord) (j : Journal)
      → IsQueued a
      → IsIntact h j
      → validate_sequence a.entry j.index ≡ ok tt
      → j.record_count < options.max_records
      → length a.bytes ≤ options.max_bytes - j.byte_count
      → IsIntact (h ++ a.entry ∷ []) (write_line durable a j).1
  unfolding write_line
  write_line-IsIntact a h j q i v count bytes = record {
    contents = rw (lines-append h a.entry, i.contents, q.encoded);
    sized = omega (arith, i.sized, length-append j.file a.bytes);
    counted = omega (arith, i.counted, length-append h (a.entry ∷ []));
    indexed = rw (i.indexed, index_after-append [] h a.entry);
    good = All-append (IsGood codec options) h (a.entry ∷ []) i.good (q.good, tt);
    continues = Continues-append [] h a.entry i.continues (rw i.indexed at v);
    retained = omega (arith, i.counted, length-append h (a.entry ∷ []));
    bounded = omega (arith, i.sized, i.bounded, length-append j.file a.bytes);
    sound = i.sound;
    queued = i.queued;
  }

  write_one-IsIntact :
      (io : Io) (a : Append) (h : List JournalRecord) (j : Journal)
      → IsQueued a
      → IsIntact h j
      → (write_one options io a j).1.poisoned ≡ false
      → IsIntact
          (h ++ (if is_ok (write_one options io a j).0 then a.entry ∷ [] else []))
          (write_one options io a j).1
  write_one-IsIntact io a h j q i p = by_answer (accept options a j) refl io p
    where
      by_answer :
          (answer : Result JournalError (Unit {0}))
          → accept options a j ≡ answer
          → (io : Io) → (write_one options io a j).1.poisoned ≡ false
          → IsIntact
              (h ++ (if is_ok (write_one options io a j).0 then a.entry ∷ [] else []))
              (write_one options io a j).1
      by_answer (err e) refused io p = unfold write_one in rw (refused, write_one) (rw append-nil i)
      by_answer (ok u) accepted (fails n) p = unfold write_one in absurd (ground (arith, accepted))
      by_answer (ok u) accepted durable p =
          unfold write_one in
          rw (accepted, write_one)
            (write_line-IsIntact a h j q i (unfold accept in ground arith)
              (unfold accept in ground arith) (unfold accept in ground arith))

  write_next-IsIntact :
      (io : Io) (queue : List Append) (h : List JournalRecord) (j : Journal)
      → All IsQueued queue
      → IsIntact h j
      → (write_next options io queue j).1.poisoned ≡ false
      → IsIntact (h ++ (write_next options io queue j).0) (write_next options io queue j).1
  unfolding write_next
  write_next-IsIntact io [] h j q i p = rw append-nil i
  write_next-IsIntact io (a ∷ queue) h j q i p =
      write_one-IsIntact io a h (record j { queue = queue }) q.0
        (record {
          contents = i.contents;
          sized = i.sized;
          counted = i.counted;
          indexed = i.indexed;
          good = i.good;
          continues = i.continues;
          retained = i.retained;
          bounded = i.bounded;
          sound = i.sound;
          queued = q.1;
        })
        p

  pub step-IsIntact :
      (op : Op) (h : List JournalRecord) (j : Journal)
      → OpTrips op
      → IsIntact h j
      → (step codec options op j).1.poisoned ≡ false
      → IsIntact (h ++ (step codec options op j).0) (step codec options op j).1
  unfolding step
  step-IsIntact (append r) h j t i p = rw append-nil (submit-IsIntact r h j t i)
  step-IsIntact (write io) h j t i p = write_next-IsIntact io j.queue h j i.queued i p
