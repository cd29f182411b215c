-- ===== src/Journal/Order.antt =====
-- What any readable file guarantees: its runs are in order and keep their identity.
use tauri_connector.Map
use tauri_connector.Map.{Map, get-insert}
use tauri_connector.Journal.Records.{
  JournalRecord, JournalOptions, Index, LastRecord, remember, is_stale, last_of, validate_sequence,
  validate_record, Codec, line,
}
use tauri_connector.Journal.Reader.{read_until, History, read_record, read_lines, read_history}
use tauri_connector.Prelude.{
  ℕ, zero, suc, ◌+◌, ◌≤◌, ◌<◌, ◌≡◌, ◌≢◌, ◌⊎◌, inl, inr, refl, sym, false, none, some, List, [], ◌∷◌,
  ◌++◌, arith, str_eq, eq_iff, eq_refl, Bool-cases, Option-cases, length, is_empty, All, All-append,
  All-map, ok, err, Result-cases,
}

-- `y` may come after `x`: in one run it has a later revision and event, and the same identity.
pub record Precedes (x y : JournalRecord) : Type 0 where
  pub revision : x.run_id ≡ y.run_id → x.revision < y.revision
  pub event_seq : x.run_id ≡ y.run_id → x.event_seq < y.event_seq
  pub spec_hash : x.run_id ≡ y.run_id → x.spec_hash ≡ y.spec_hash
  pub run_key_hash : x.run_id ≡ y.run_id → x.run_key_hash ≡ y.run_key_hash
  pub principal_hash : x.run_id ≡ y.run_id → x.principal_hash ≡ y.principal_hash

-- Each record precedes all that come later.
abbrev pub IsOrdered : List JournalRecord → Type 0
IsOrdered [] = Unit
IsOrdered (x ∷ h) = All (Precedes x) h × IsOrdered h

-- the index has seen the record
record IsSeen (index : Index) (x : JournalRecord) : Type 0 where
  last : LastRecord
  found : Map.get x.run_id index ≡ some last
  revision : x.revision ≤ last.revision
  event_seq : x.event_seq ≤ last.event_seq
  spec_hash : x.spec_hash ≡ last.spec_hash
  run_key_hash : x.run_key_hash ≡ last.run_key_hash
  principal_hash : x.principal_hash ≡ last.principal_hash

IsOrdered-append :
    (h : List JournalRecord) (r : JournalRecord)
    → IsOrdered h
    → All (λ x. Precedes x r) h
    → IsOrdered (h ++ r ∷ [])
IsOrdered-append [] r o p = (tt, tt)
IsOrdered-append (x ∷ h) r o p =
    (All-append (Precedes x) h (r ∷ []) o.0 (p.0, tt), IsOrdered-append h r o.1 p.1)

fresh_of_valid :
    (r : JournalRecord) (index : Index) (last : LastRecord)
    → validate_sequence r index ≡ ok tt
    → Map.get r.run_id index ≡ some last
    → is_stale r last ≡ false
unfolding validate_sequence
fresh_of_valid r index last v e = ground arith

Precedes-of_seen :
    (index : Index) (x r : JournalRecord)
    → validate_sequence r index ≡ ok tt
    → IsSeen index x
    → Precedes x r
Precedes-of_seen index x r v s = record {
  revision = λ e. ground (arith, fresh e);
  event_seq = λ e. ground (arith, fresh e);
  spec_hash = λ e. ground (arith, fresh e, eq_iff r.spec_hash s.last.spec_hash);
  run_key_hash = λ e. ground (arith, fresh e, eq_iff r.run_key_hash s.last.run_key_hash);
  principal_hash = λ e. ground (arith, fresh e, eq_iff r.principal_hash s.last.principal_hash);
}
  where
    fresh : x.run_id ≡ r.run_id → is_stale r s.last ≡ false
    fresh e = fresh_of_valid r index s.last v (rw (← e) s.found)

IsSeen-remember_self : (index : Index) (r : JournalRecord) → IsSeen (remember r index) r
unfolding remember
IsSeen-remember_self index r = record {
  last = last_of r;
  found = rw (get-insert, eq_refl);
  revision = omega arith;
  event_seq = omega arith;
  spec_hash = refl;
  run_key_hash = refl;
  principal_hash = refl;
}

IsSeen-remember :
    (index : Index) (x r : JournalRecord)
    → validate_sequence r index ≡ ok tt
    → IsSeen index x
    → IsSeen (remember r index) x
IsSeen-remember index x r v s = elim (Bool-cases (str_eq r.run_id x.run_id)) [
  | inl same ↦
      let run : x.run_id ≡ r.run_id = sym ((eq_iff r.run_id x.run_id).0 same) in
      let p = Precedes-of_seen index x r v s in
      record {
        last = last_of r;
        found = unfold remember in rw (get-insert, same);
        revision = omega (arith, p.revision run);
        event_seq = omega (arith, p.event_seq run);
        spec_hash = p.spec_hash run;
        run_key_hash = p.run_key_hash run;
        principal_hash = p.principal_hash run;
      }
  | inr other ↦ record {
    last = s.last;
    found = unfold remember in rw (get-insert, other) s.found;
    revision = s.revision;
    event_seq = s.event_seq;
    spec_hash = s.spec_hash;
    run_key_hash = s.run_key_hash;
    principal_hash = s.principal_hash;
  }
]

-- a history, read so far, and its index
record IsKept (h : History) : Type 0 where
  ordered : IsOrdered h.0
  valid : All (λ r. validate_record r ≡ ok tt) h.0
  seen : All (IsSeen h.1) h.0

IsKept-with :
    (h : List JournalRecord) (index : Index) (r : JournalRecord)
    → IsKept (h, index)
    → validate_record r ≡ ok tt
    → validate_sequence r index ≡ ok tt
    → IsKept (h ++ r ∷ [], remember r index)
IsKept-with h index r k g v = record {
  ordered =
      IsOrdered-append h r k.ordered
        (All-map (IsSeen index) _ h (λ x s. Precedes-of_seen index x r v s) k.seen);
  valid = All-append _ h (r ∷ []) k.valid (g, tt);
  seen =
      All-append _ h (r ∷ [])
        (All-map (IsSeen index) _ h (λ x s. IsSeen-remember index x r v s) k.seen)
        (IsSeen-remember_self index r, tt);
}

IsKept-none : IsKept ([], [])
IsKept-none = record { ordered = tt; valid = tt; seen = tt }

module _ (codec : Codec) (options : JournalOptions) where
  read_record-inv :
      (line : List ℕ) (h : List JournalRecord) (index : Index) (h' : History)
      → read_record codec options line (h, index) ≡ ok h'
      → (r : JournalRecord) × (h' ≡ (h ++ r ∷ [], remember r index))
        × (validate_record r ≡ ok tt)
        × (validate_sequence r index ≡ ok tt)
  unfolding read_record
  read_record-inv line h index h' e = elim (Option-cases (codec.decode line)) [
    | inl bad ↦ absurd (ground arith)
    | inr (r, good) ↦ (r, ground arith, ground arith, ground arith)
  ]

  read_record-IsKept :
      (line : List ℕ) (h h' : History)
      → IsKept h
      → read_record codec options line h ≡ ok h'
      → IsKept h'
  read_record-IsKept line h h' k e =
      let (r, same, g, v) = read_record-inv line h.0 h.1 h' e in
      rw same (IsKept-with h.0 h.1 r k g v)

  -- a round that does not end the loop reads a record
  read_lines-inv :
      (fuel : ℕ) (bytes : List ℕ) (h h' : History)
      → read_lines (suc fuel) codec options bytes h ≡ some (ok h')
      → (h ≡ h')
        ⊎ ((h₁ : History) × (read_record codec options
                (read_until (options.max_record_bytes + 1) bytes).0
                h
              ≡ ok h₁)
            × (read_lines fuel codec options (read_until (options.max_record_bytes + 1) bytes).1 h₁
                ≡ some (ok h')))
  unfolding read_lines
  read_lines-inv fuel bytes h h' e =
      let (line, rest) = read_until (options.max_record_bytes + 1) bytes in
      elim (Bool-cases (is_empty line)) [
        | inl stop ↦ inl (ground arith)
        | inr more ↦ elim (Result-cases (read_record codec options line h)) [
          | inl (bad, q) ↦ absurd (ground arith)
          | inr (h₁, q) ↦ inr (h₁, q, ground arith)
        ]
      ]

  read_lines-IsKept :
      (fuel : ℕ) (bytes : List ℕ) (h h' : History)
      → IsKept h
      → read_lines fuel codec options bytes h ≡ some (ok h')
      → IsKept h'
  unfolding read_lines
  read_lines-IsKept zero bytes h h' k e = cc
  read_lines-IsKept (suc fuel) bytes h h' k e = elim (read_lines-inv fuel bytes h h' e) [
    | inl same ↦ rw (← same) k
    | inr (h₁, q, more) ↦
        read_lines-IsKept fuel (read_until (options.max_record_bytes + 1) bytes).1 h₁ h'
          (read_record-IsKept (read_until (options.max_record_bytes + 1) bytes).0 h h₁ k q) more
  ]

  -- Whatever bytes the file has, a history that is read has only valid records, and of two records
  -- of one run the later has the higher revision and event number and the same three hashes.
  pub read_history-IsOrdered :
      (file : List ℕ) (h : History) (n : ℕ)
      → read_history codec options file ≡ some (ok (h, n))
      → IsOrdered h.0 × All (λ r. validate_record r ≡ ok tt) h.0
  unfolding read_history
  read_history-IsOrdered file h n e =
      elim (Option-cases (read_lines (suc (length file)) codec options file ([], []))) [
        | inl q ↦ absurd (ground arith)
        | inr (err bad, q) ↦ absurd (ground arith)
        | inr (ok h', q) ↦
            let k = read_lines-IsKept (suc (length file)) file ([], []) h' IsKept-none q in
            let same : h' ≡ h = ground arith in rw (← same) (k.ordered, k.valid)
      ]

  read_until_parts :
      (n : ℕ) (s : List ℕ) → length (read_until n s).0 + length (read_until n s).1 ≡ length s
  unfolding read_until
  read_until_parts zero s = omega arith
  read_until_parts (suc n) [] = omega arith
  read_until_parts (suc n) (c ∷ s) = ground (arith, read_until_parts n s)

  length-pos_of_not_empty : (s : List ℕ) → is_empty s ≡ false → 0 < length s
  length-pos_of_not_empty [] h = cc
  length-pos_of_not_empty (c ∷ s) h = omega arith

  read_lines_ends :
      (fuel : ℕ) (bytes : List ℕ) (h : History)
      → length bytes < fuel
      → read_lines fuel codec options bytes h ≢ none
  unfolding read_lines
  read_lines_ends zero bytes h lt e = absurd (omega arith)
  read_lines_ends (suc fuel) bytes h lt e =
      let (line, rest) = read_until (options.max_record_bytes + 1) bytes in
      elim (Bool-cases (is_empty line)) [
        | inl stop ↦ ground arith
        | inr more ↦ elim (Result-cases (read_record codec options line h)) [
          | inl (bad, q) ↦ ground arith
          | inr (h₁, q) ↦
              read_lines_ends fuel rest h₁
                (omega (
                  arith,
                  read_until_parts (options.max_record_bytes + 1) bytes,
                  length-pos_of_not_empty line more,
                ))
                (ground arith)
        ]
      ]

  -- With the fuel that `read_history` gives, reading has an answer on every file.
  pub read_history_ends : (file : List ℕ) → read_history codec options file ≢ none
  unfolding read_history
  read_history_ends file e =
      ground (arith, read_lines_ends (suc (length file)) file ([], []) (omega arith))
