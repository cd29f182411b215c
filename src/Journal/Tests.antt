-- ===== src/Journal/Tests.antt =====
-- The journal at concrete inputs, with a codec that writes every record as `{}`.
use tauri_connector.Json.{obj, end}
use tauri_connector.Journal.Records.{
  JournalRecord, default_options, corrupt, Codec, RoundTrips, line, validate_record,
  validate_sequence,
}
use tauri_connector.Journal.Reader.{read_history, read_record}
use tauri_connector.Journal.Writer.{
  submit, durable, fails, Journal, accept, write_one, Op, append, write, run, empty, admit,
}
use tauri_connector.Journal.Recovery.{index_after}
use tauri_connector.Journal.Restart.{restart-acknowledged, run-failed, restart-torn, empty-IsIntact}
use tauri_connector.Journal.Order.{IsOrdered, read_history-IsOrdered, read_history_ends}
use tauri_connector.Prelude.{
  is_ok, false, ℕ, ◌≡◌, ◌≢◌, List, [], ◌∷◌, ◌++◌, some, none, refl, arith, ok, err, All, length,
  String,
}

abbrev hash : String
hash = "0123456789abcdef0123456789ABCDEF0123456789abcdef0123456789abcdef"

abbrev sample : JournalRecord
sample = record {
  run_id = "run-1";
  revision = 1;
  event_seq = 1;
  event = "accepted";
  app_instance_id = "app";
  spec_hash = hash;
  run_key_hash = hash;
  principal_hash = hash;
  report = obj end;
}

-- "{}"
abbrev codec : Codec
codec = record { encode = λ r. 123 ∷ 125 ∷ []; decode = λ bytes. some sample }

sample-RoundTrips : RoundTrips codec sample
sample-RoundTrips = record { one_line = refl; reads_back = refl }

sample-valid : validate_record sample ≡ ok tt
unfolding validate_record
sample-valid = refl

abbrev ops : List Op
ops = append sample ∷ append sample ∷ write durable ∷ write durable ∷ []

-- the second of two equal records is not written, since it does not go on from the first
one_acknowledged : (run codec default_options ops empty).0 ≡ sample ∷ []
unfolding run admit accept validate_sequence
one_acknowledged = refl

restart-acknowledged_example :
    read_history codec default_options (run codec default_options ops empty).1.file
    ≡ some (
        ok (
          (
            [] ++ (run codec default_options ops empty).0,
            (run codec default_options ops empty).1.index,
          ),
          (run codec default_options ops empty).1.byte_count,
        ))
unfolding run admit accept validate_sequence
restart-acknowledged_example =
    restart-acknowledged codec default_options ops [] empty
      (sample-RoundTrips, (sample-RoundTrips, (tt, (tt, tt))))
      (empty-IsIntact codec default_options) refl

abbrev failed_journal : Journal
failed_journal =
    (write_one default_options (fails 1) (record { entry = sample; bytes = line codec sample })
      empty).1

run-failed_example :
    ((run codec default_options ops failed_journal).0 ≡ [])
    × ((run codec default_options ops failed_journal).1.file ≡ failed_journal.file)
    × (is_ok
          (submit codec default_options sample (run codec default_options ops failed_journal).1).0
        ≡ false)
unfolding accept validate_sequence
run-failed_example =
    run-failed codec default_options 1 (record { entry = sample; bytes = line codec sample }) empty
      ops sample refl

restart-torn_example :
    read_history codec default_options failed_journal.file
    ≡ some (err (corrupt "partial final record; no automatic repair or replay"))
unfolding accept validate_sequence
restart-torn_example =
    restart-torn codec default_options [] empty
      (record { entry = sample; bytes = line codec sample }) 0
      (empty-IsIntact codec default_options)
      (record {
        encoded = refl;
        good = record { valid = sample-valid; fits = omega arith; trips = sample-RoundTrips };
      })
      refl (omega arith)

abbrev one_line : List ℕ
one_line = line codec sample

one_line-reads :
    read_history codec default_options one_line
    ≡ some (ok ((sample ∷ [], index_after [] (sample ∷ [])), length one_line))
unfolding read_history read_record validate_record index_after
one_line-reads = refl

read_history-IsOrdered_example :
    IsOrdered (sample ∷ []) × All (λ r. validate_record r ≡ ok tt) (sample ∷ [])
read_history-IsOrdered_example =
    read_history-IsOrdered codec default_options one_line
      (sample ∷ [], index_after [] (sample ∷ [])) (length one_line) one_line-reads

read_history_ends_example : read_history codec default_options (1 ∷ 2 ∷ []) ≢ none
read_history_ends_example = read_history_ends codec default_options (1 ∷ 2 ∷ [])
