-- ===== src/Journal/Reader.antt =====
-- `read_history`, over the bytes of the file.
use tauri_connector.Journal.Records.{
  JournalRecord, JournalOptions, JournalError, unavailable, corrupt, Index, remember,
  validate_sequence, validate_record, Codec, newline,
}
use tauri_connector.Prelude.{
  ℕ, zero, suc, ◌+◌, Bool, false, not, ◌||◌, Option, none, some, List, [], ◌∷◌, ◌++◌, if◌then◌else◌,
  ltb, leb, ◌==◌, length, is_empty, Result, ok, err, ◌>>◌, refuse_if,
}

-- `reader.take(limit).read_until(b'\n')`: the bytes up to a newline, and the bytes after them.
unfoldable pub read_until : ℕ → List ℕ → List ℕ × List ℕ
read_until zero s = ([], s)
read_until (suc n) [] = ([], [])
read_until (suc n) (c ∷ s) =
    let (read, rest) = read_until n s in if c == newline then (c ∷ [], s) else (c ∷ read, rest)

abbrev pub ends_line : List ℕ → Bool
ends_line [] = false
ends_line (c ∷ []) = c == newline
ends_line (c ∷ d ∷ s) = ends_line (d ∷ s)

abbrev pub History : Type 0
History = List JournalRecord × Index

-- what is read so far
abbrev pub Read : Type 0
Read = Result JournalError History

-- the checks of one line, and the history with its record
unfoldable pub read_record : Codec → JournalOptions → List ℕ → History → Read
unfolding validate_record validate_sequence remember
read_record codec options line (history, index) = do
  refuse_if (leb options.max_records (length history) || ltb options.max_record_bytes (length line))
      (unavailable "journal exceeds record limit")
  refuse_if (not (ends_line line)) (corrupt "partial final record; no automatic repair or replay")
  elim (codec.decode line) [
    | none ↦ err (corrupt "invalid record; no automatic repair or replay")
    | some r ↦ do
      validate_record r
      validate_sequence r index
      ok (history ++ r ∷ [], remember r index)
  ]

-- the loop; `none` means that the fuel ran out
unfoldable pub read_lines : ℕ → Codec → JournalOptions → List ℕ → History → Option Read
unfolding read_until
read_lines zero codec options bytes h = none
read_lines (suc fuel) codec options bytes h =
    let (line, rest) = read_until (options.max_record_bytes + 1) bytes in
    if is_empty line then some (ok h) else elim (read_record codec options line h) [
      | err e ↦ some (err e)
      | ok h' ↦ read_lines fuel codec options rest h'
    ]

-- `read_history`, with fuel for a line at every byte
unfoldable pub read_history :
    Codec → JournalOptions → List ℕ → Option (Result JournalError (History × ℕ))
unfolding read_lines
read_history codec options file =
    if ltb options.max_bytes (length file)
    then some (err (unavailable "journal exceeds retention limit"))
    else elim (read_lines (suc (length file)) codec options file ([], [])) [
      | none ↦ none
      | some (err e) ↦ some (err e)
      | some (ok h) ↦ some (ok (h, length file))
    ]
