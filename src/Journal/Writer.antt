-- ===== src/Journal/Writer.antt =====
-- `Journal::append` and the writer thread. A record waits in a bounded queue; the writer takes one
-- at a time, and what its write does on the disk is the environment's choice.
use tauri_connector.Journal.Records.{
  JournalRecord, JournalOptions, JournalError, unavailable, Index, remember, validate_sequence,
  validate_record, Codec, line,
}
use tauri_connector.Prelude.{
  ℕ, ◌+◌, ◌-◌, Bool, true, false, ◌||◌, List, [], ◌∷◌, ◌++◌, if◌then◌else◌, ltb, leb, length, take,
  Result, ok, err, ◌>>◌, refuse_if, is_ok,
}

-- What `write_all` and `sync_data` come to: all is on the disk, or some first bytes of the line
-- are (none of them or all, too) and an error is reported.
pub data Io : Type 0 where
  durable : Io
  fails : ℕ → Io

pub record Append : Type 0 where
  pub entry : JournalRecord
  pub bytes : List ℕ

pub record Journal : Type 0 where
  pub file : List ℕ
  pub index : Index
  pub byte_count : ℕ
  pub record_count : ℕ
  pub poisoned : Bool
  pub queue : List Append

-- the checks of `append`
unfoldable pub admit :
    Codec → JournalOptions → JournalRecord → Journal → Result JournalError (Unit {0})
unfolding validate_record
admit codec options r j = do
  refuse_if j.poisoned (unavailable "journal writer has failed")
  validate_record r
  refuse_if (ltb (options.max_record_bytes - 1) (length (codec.encode r)))
      (unavailable "journal record exceeds byte limit or cannot be encoded")
  refuse_if (ltb options.max_record_bytes (length (line codec r)))
      (unavailable "journal record exceeds byte limit")
  refuse_if (leb options.queue_capacity (length j.queue))
      (unavailable "journal queue is full or closed")

-- The part of `append` before it waits: the checks, and a place in the queue.
unfoldable pub submit :
    Codec → JournalOptions → JournalRecord → Journal → Result JournalError (Unit {0}) × Journal
unfolding admit
submit codec options r j =
    let answer = admit codec options r j in
    (
      answer,
      if is_ok answer
          then record j { queue = j.queue ++ record { entry = r; bytes = line codec r } ∷ [] }
          else j,
    )

-- the write of a line that passed the checks
unfoldable pub write_line : Io → Append → Journal → Result JournalError (Unit {0}) × Journal
unfolding remember
write_line durable a j = (
  ok tt,
  record j {
    file = j.file ++ a.bytes;
    byte_count = j.byte_count + length a.bytes;
    record_count = j.record_count + 1;
    index = remember a.entry j.index;
  },
)
write_line (fails n) a j = (
  err (unavailable "journal I/O failed"),
  record j { file = j.file ++ take n a.bytes; poisoned = true },
)

-- the writer's checks of a line, in their order
unfoldable pub accept : JournalOptions → Append → Journal → Result JournalError (Unit {0})
accept options a j = do
  refuse_if j.poisoned (unavailable "journal writer failed; restart requires inspection")
  refuse_if
      (leb options.max_records j.record_count
        || ltb (options.max_bytes - j.byte_count) (length a.bytes))
      (unavailable "journal retention limit reached")
  validate_sequence a.entry j.index

-- One round of the writer thread: the answer that it sends, and the new state.
unfoldable pub write_one :
    JournalOptions → Io → Append → Journal → Result JournalError (Unit {0}) × Journal
unfolding write_line
write_one options io a j = elim (accept options a j) [
  | err e ↦ (err e, j)
  | ok _ ↦ write_line io a j
]

pub data Op : Type 0 where
  append : JournalRecord → Op
  write : Io → Op

-- A step, and the record that it acknowledged as durable, if any.
unfoldable pub write_next :
    JournalOptions → Io → List Append → Journal → List JournalRecord × Journal
unfolding write_one
write_next options io [] j = ([], j)
write_next options io (a ∷ queue) j =
    let (answer, j') = write_one options io a (record j { queue = queue }) in
    (if is_ok answer then a.entry ∷ [] else [], j')

unfoldable pub step : Codec → JournalOptions → Op → Journal → List JournalRecord × Journal
unfolding submit write_next
step codec options (append r) j = ([], (submit codec options r j).1)
step codec options (write io) j = write_next options io j.queue j

-- All the records that were acknowledged, in order, and the state at the end.
unfoldable pub run : Codec → JournalOptions → List Op → Journal → List JournalRecord × Journal
unfolding step
run codec options [] j = ([], j)
run codec options (op ∷ ops) j =
    let (acked, j') = step codec options op j in
    let (more, end) = run codec options ops j' in (acked ++ more, end)

-- A journal in an empty directory.
abbrev pub empty : Journal
empty = record {
  file = [];
  index = [];
  byte_count = 0;
  record_count = 0;
  poisoned = false;
  queue = [];
}
