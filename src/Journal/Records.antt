-- ===== src/Journal/Records.antt =====
-- Records, their checks, and the index of the last record of each run.
use Prim.Native.String.{len}
use tauri_connector.Json
use tauri_connector.Json.{Value}
use tauri_connector.Map
use tauri_connector.Map.{Map}
use tauri_connector.Prelude.{
  ℕ, ◌*◌, String, ◌≡◌, Bool, false, not, ◌&&◌, ◌||◌, Option, none, some, List, [], ◌∷◌, ◌++◌,
  str_eq, ltb, leb, ◌==◌, any, all, codes, Result, ok, refuse_if,
}

pub record JournalRecord : Type 0 where
  pub run_id : String
  pub revision : ℕ
  pub event_seq : ℕ
  pub event : String
  pub app_instance_id : String
  pub spec_hash : String
  pub run_key_hash : String
  pub principal_hash : String
  pub report : Value

pub record JournalOptions : Type 0 where
  pub max_bytes : ℕ
  pub max_records : ℕ
  pub max_record_bytes : ℕ
  pub queue_capacity : ℕ

-- `JournalOptions::default()`
abbrev pub default_options : JournalOptions
default_options = record {
  max_bytes = 64 * 1024 * 1024;
  max_records = 100000;
  max_record_bytes = 64 * 1024;
  queue_capacity = 64;
}

-- The codes `persistence_unavailable` and `journal_corrupt`, with the message.
pub data JournalError : Type 0 where
  unavailable corrupt : String → JournalError

pub record LastRecord : Type 0 where
  pub revision : ℕ
  pub event_seq : ℕ
  pub spec_hash : String
  pub run_key_hash : String
  pub principal_hash : String

abbrev pub Index : Type 0
Index = Map LastRecord

abbrev pub last_of : JournalRecord → LastRecord
last_of r = record {
  revision = r.revision;
  event_seq = r.event_seq;
  spec_hash = r.spec_hash;
  run_key_hash = r.run_key_hash;
  principal_hash = r.principal_hash;
}

unfoldable pub remember : JournalRecord → Index → Index
unfolding Map.insert
remember r index = Map.insert r.run_id (last_of r) index

abbrev pub is_stale : JournalRecord → LastRecord → Bool
is_stale r previous =
    leb r.revision previous.revision
    || leb r.event_seq previous.event_seq
    || not (str_eq r.spec_hash previous.spec_hash)
    || not (str_eq r.run_key_hash previous.run_key_hash)
    || not (str_eq r.principal_hash previous.principal_hash)

unfoldable pub validate_sequence : JournalRecord → Index → Result JournalError (Unit {0})
unfolding Map.get
validate_sequence r index = elim (Map.get r.run_id index) [
  | none ↦ ok tt
  | some previous ↦
      refuse_if (is_stale r previous) (corrupt "non-monotonic event or changed run identity")
]

-- u8::is_ascii_hexdigit
abbrev pub is_hexdigit : ℕ → Bool
is_hexdigit c = leb b'0' c && leb c b'9' || leb b'a' c && leb c b'f' || leb b'A' c && leb c b'F'

abbrev pub is_hash : String → Bool
is_hash h = len h == 64 && all is_hexdigit (codes h)

abbrev pub is_bounded_name : ℕ → String → Bool
is_bounded_name limit name = ltb 0 (len name) && leb (len name) limit

unfoldable pub validate_record : JournalRecord → Result JournalError (Unit {0})
unfolding Json.is_object
validate_record r =
    refuse_if
      (not (is_bounded_name 256 r.run_id)
        || not (is_bounded_name 256 r.app_instance_id)
        || not (is_bounded_name 128 r.event)
        || not (Json.is_object r.report)
        || not (is_hash r.spec_hash)
        || not (is_hash r.run_key_hash)
        || not (is_hash r.principal_hash))
      (corrupt "invalid journal record metadata")

-- `serde_json`, which writes a record as bytes and reads a line.
pub record Codec : Type 0 where
  pub encode : JournalRecord → List ℕ
  pub decode : List ℕ → Option JournalRecord

-- b'\n'
abbrev pub newline : ℕ
newline = 10

abbrev pub line : Codec → JournalRecord → List ℕ
line codec r = codec.encode r ++ newline ∷ []

-- What the journal relies on for a record: its JSON is one line, and the line reads back.
pub record RoundTrips (codec : Codec) (r : JournalRecord) : Type 0 where
  pub one_line : any (λ c. c == newline) (codec.encode r) ≡ false
  pub reads_back : codec.decode (line codec r) ≡ some r
