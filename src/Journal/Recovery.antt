-- ===== src/Journal/Recovery.antt =====
-- What a restart reads: exactly the records that were acknowledged.
use mathlib.Core.List.{append_assoc, append-nil}
use tauri_connector.Journal.Records.{
  JournalRecord, JournalOptions, Index, remember, validate_sequence, validate_record, Codec,
  newline, line, RoundTrips,
}
use tauri_connector.Journal.Reader.{
  read_until, ends_line, History, read_record, read_lines, read_history,
}
use tauri_connector.Prelude.{
  ℕ, zero, suc, ◌+◌, ◌-◌, ◌≤◌, ◌<◌, ◌≡◌, refl, ap, ◌∙◌, true, false, some, List, [], ◌∷◌, ◌++◌,
  arith, ◌==◌, length, length-append, any, is_empty, All, ok,
}

module _ (codec : Codec) where
  -- the file that holds these records and nothing else
  unfoldable pub lines : List JournalRecord → List ℕ
  lines [] = []
  lines (r ∷ rs) = codec.encode r ++ newline ∷ lines rs

-- the index after these records
unfoldable pub index_after : Index → List JournalRecord → Index
index_after index [] = index
index_after index (r ∷ rs) = index_after (remember r index) rs

-- Each record continues its run, where the records before it leave that.
abbrev pub Continues : Index → List JournalRecord → Type 0
Continues index [] = Unit
Continues index (r ∷ rs) = (validate_sequence r index ≡ ok tt) × Continues (remember r index) rs

pub record IsGood (codec : Codec) (options : JournalOptions) (r : JournalRecord) : Type 0 where
  pub valid : validate_record r ≡ ok tt
  pub fits : length (codec.encode r) < options.max_record_bytes
  pub trips : RoundTrips codec r

read_until-line :
    (n : ℕ) (s rest : List ℕ)
    → any (λ c. c == newline) s ≡ false
    → length s < n
    → read_until n (s ++ newline ∷ rest) ≡ (s ++ newline ∷ [], rest)
unfolding read_until
read_until-line zero s rest h lt = absurd (omega arith)
read_until-line (suc n) [] rest h lt = refl
read_until-line (suc n) (c ∷ s) rest h lt = ground (arith, read_until-line n s rest)

ends_line-append : (s : List ℕ) → ends_line (s ++ newline ∷ []) ≡ true
ends_line-append [] = refl
ends_line-append (c ∷ []) = refl
ends_line-append (c ∷ d ∷ s) = ends_line-append (d ∷ s)

not-is_empty-append : (s : List ℕ) → is_empty (s ++ newline ∷ []) ≡ false
not-is_empty-append [] = refl
not-is_empty-append (c ∷ s) = refl

module _ (codec : Codec) (options : JournalOptions) where
  read_record-good :
      (r : JournalRecord) (h : List JournalRecord) (index : Index)
      → IsGood codec options r
      → validate_sequence r index ≡ ok tt
      → length h < options.max_records
      → read_record codec options (line codec r) (h, index) ≡ ok (h ++ r ∷ [], remember r index)
  unfolding read_record
  read_record-good r h index g v lt = ground (
    arith,
    g.trips.reads_back,
    g.valid,
    g.fits,
    length-append (codec.encode r) (newline ∷ []),
    ends_line-append (codec.encode r),
  )

  read_lines-good :
      (n : ℕ) (r : JournalRecord) (rest : List ℕ) (h : List JournalRecord) (index : Index)
      → IsGood codec options r
      → validate_sequence r index ≡ ok tt
      → length h < options.max_records
      → read_lines (suc n) codec options (codec.encode r ++ newline ∷ rest) (h, index)
        ≡ read_lines n codec options rest (h ++ r ∷ [], remember r index)
  unfolding read_lines
  read_lines-good n r rest h index g v lt = rw (
    read_until-line (options.max_record_bytes + 1) (codec.encode r) rest g.trips.one_line
        (omega (arith, g.fits)),
    not-is_empty-append (codec.encode r),
    read_record-good r h index g v lt,
    read_until-line (options.max_record_bytes + 1) (codec.encode r) rest g.trips.one_line
        (omega (arith, g.fits)),
  )

  abbrev pub rounds : List JournalRecord → ℕ → ℕ
  rounds [] k = k
  rounds (r ∷ rs) k = suc (rounds rs k)

  -- The loop reads good records one after the other and goes on with what follows them.
  read_lines-append :
      (rs h : List JournalRecord) (index : Index) (k : ℕ) (tail : List ℕ)
      → All (IsGood codec options) rs
      → Continues index rs
      → length h + length rs ≤ options.max_records
      → read_lines (rounds rs k) codec options (lines codec rs ++ tail) (h, index)
        ≡ read_lines k codec options tail (h ++ rs, index_after index rs)
  unfolding lines index_after
  read_lines-append [] h index k tail g c le = rw append-nil
  read_lines-append (r ∷ rs) h index k tail g c le =
      rw (append_assoc (codec.encode r) (newline ∷ lines codec rs) tail) (
        read_lines-good (rounds rs k) r (lines codec rs ++ tail) h index g.0 c.0 (omega arith)
        ∙ read_lines-append rs (h ++ r ∷ []) (remember r index) k tail g.1 c.1
            (omega (arith, length-append h (r ∷ [])))
        ∙ rw (append_assoc h (r ∷ []) rs))

  length-lines-ge : (rs : List JournalRecord) → length rs ≤ length (lines codec rs)
  unfolding lines
  length-lines-ge [] = omega arith
  length-lines-ge (r ∷ rs) =
      omega (arith, length-append (codec.encode r) (newline ∷ lines codec rs), length-lines-ge rs)

  rounds_lem :
      (rs : List JournalRecord) (n : ℕ) → length rs ≤ n → suc n ≡ rounds rs (suc (n - length rs))
  rounds_lem [] n h = omega arith
  rounds_lem (r ∷ rs) zero h = absurd (omega arith)
  rounds_lem (r ∷ rs) (suc n) h =
      ap suc (rounds_lem rs n (omega arith) ∙ ap (λ k. rounds rs (suc k)) (omega arith))

  read_until-nil : (n : ℕ) → read_until n [] ≡ ([], [])
  unfolding read_until
  read_until-nil zero = refl
  read_until-nil (suc n) = refl

  pub read_lines-nil : (k : ℕ) (h : History) → read_lines (suc k) codec options [] h ≡ some (ok h)
  unfolding read_lines
  read_lines-nil k h = rw read_until-nil

  pub read_lines-All :
      (rs : List JournalRecord) (tail : List ℕ)
      → All (IsGood codec options) rs
      → Continues [] rs
      → length rs ≤ options.max_records
      → (k : ℕ) × (read_lines
            (suc (length (lines codec rs ++ tail)))
            codec
            options
            (lines codec rs ++ tail)
            ([], [])
          ≡ read_lines (suc k) codec options tail (rs, index_after [] rs))
  read_lines-All rs tail g c le =
      let n = length (lines codec rs ++ tail) in
      (
        n - length rs,
        rw
            (rounds_lem rs n
              (omega (arith, length-append (lines codec rs) tail, length-lines-ge rs)))
            (read_lines-append rs [] [] (suc (n - length rs)) tail g c (omega arith)),
      )

  -- A file of good records reads back as those records.
  pub read_history-lines :
      (rs : List JournalRecord)
      → All (IsGood codec options) rs
      → Continues [] rs
      → length rs ≤ options.max_records
      → length (lines codec rs) ≤ options.max_bytes
      → read_history codec options (lines codec rs)
        ≡ some (ok ((rs, index_after [] rs), length (lines codec rs)))
  unfolding read_history
  read_history-lines rs g c le fits =
      let (k, read) = read_lines-All rs [] g c le in
      ground (arith, read, append-nil (lines codec rs), read_lines-nil k (rs, index_after [] rs))
