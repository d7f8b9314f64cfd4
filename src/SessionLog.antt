-- ===== src/SessionLog.antt =====
-- `SessionLog` of src/session/session_log.rs: the log of a session, bounded in bytes.
pub mod Bounds
use lspctl.Prelude.{
  ℕ, ◌+◌, ◌-◌, String, Bool, true, false, Option, none, some, List, [], ◌∷◌, ◌++◌, if◌then◌else◌,
  ltb, length, drop, u64_max, saturating_add, map,
}
use lspctl.Text.{Bytes, is_char_boundary}
use lspctl.Json.{Json, json, json_array, nat, string}

abbrev pub session_log_capacity_bytes : ℕ
session_log_capacity_bytes = 1048576

-- The text of `message` is its bytes.
pub record SessionLogRecord : Type 0 where
  pub sequence : ℕ
  pub timestamp : String
  pub kind : String
  pub level : String
  pub message : Bytes
  pub truncated : Bool
  pub omitted_bytes : ℕ

pub record SessionLog : Type 0 where
  pub records : List (ℕ × SessionLogRecord)
  pub retained_bytes : ℕ
  pub evicted_records : ℕ
  pub evicted_bytes : ℕ
  pub next_sequence : ℕ

-- `SessionLog::default()`
unfoldable pub new_log : SessionLog
new_log = record {
  records = [];
  retained_bytes = 0;
  evicted_records = 0;
  evicted_bytes = 0;
  next_sequence = 0;
}

-- the loop of `utf8_suffix_start`, which may run as many rounds as bytes are left and one more
unfoldable pub suffix_from : ℕ → Bytes → ℕ → Option ℕ
suffix_from ℕ.zero value start = none
suffix_from (ℕ.suc fuel) value start =
    let rest = suffix_from fuel value (start + 1) in
    if is_char_boundary value start then some start else rest

unfoldable pub utf8_suffix_start : Bytes → ℕ → Option ℕ
unfolding suffix_from is_char_boundary
utf8_suffix_start value keep = suffix_from (ℕ.suc (length value)) value (length value - keep)

-- the loop that evicts records from the front until `size` more bytes fit
unfoldable pub make_room : ℕ → List (ℕ × SessionLogRecord) → SessionLog → SessionLog
make_room size [] log = record log { records = [] }
make_room size ((removed_size, entry) ∷ entries) log =
    let rest = make_room size entries (record log {
      retained_bytes = log.retained_bytes - removed_size;
      evicted_records = saturating_add u64_max log.evicted_records 1;
      evicted_bytes = saturating_add u64_max log.evicted_bytes removed_size;
    }) in
    if ltb session_log_capacity_bytes (saturating_add u64_max log.retained_bytes size)
    then rest
    else record log { records = (removed_size, entry) ∷ entries }

module _ (serialized_size : SessionLogRecord → ℕ) where
  abbrev pub keep_suffix : SessionLogRecord → ℕ → SessionLogRecord
  keep_suffix entry start = record entry {
    omitted_bytes = start;
    message = drop start entry.message;
    truncated = true;
  }

  -- the record as it is kept: an oversized message keeps only its end
  unfoldable pub shorten : SessionLogRecord → Option SessionLogRecord
  unfolding utf8_suffix_start
  shorten entry =
      let size = serialized_size entry in
      if ltb session_log_capacity_bytes size
      then elim (utf8_suffix_start entry.message
          (session_log_capacity_bytes - ((size - length entry.message) + 32))) [
            | none ↦ none
            | some start ↦ some (keep_suffix entry start)
          ]
      else some entry

  abbrev pub append_record : SessionLog → SessionLogRecord → SessionLog
  append_record log entry =
      let size = serialized_size entry in
      let roomy = make_room size log.records log in
      record roomy {
        retained_bytes = saturating_add u64_max roomy.retained_bytes size;
        records = roomy.records ++ (size, entry) ∷ [];
      }

  -- `push` at the time `timestamp`; `none` is a loop that does not end
  unfoldable pub push : SessionLog → String → String → String → Bytes → Option SessionLog
  unfolding shorten make_room
  push log timestamp kind level message =
      let entry : SessionLogRecord = record {
        sequence = log.next_sequence;
        timestamp = timestamp;
        kind = kind;
        level = level;
        message = message;
        truncated = false;
        omitted_bytes = 0;
      } in
      let counted = record log { next_sequence = saturating_add u64_max log.next_sequence 1 } in
      elim (shorten entry) [ none ↦ none | some kept ↦ some (append_record counted kept) ]

-- `render`, with what serde makes of one record
unfoldable pub render : (SessionLogRecord → Json) → SessionLog → String → ℕ → Json
render serialize log owner_generation tail =
    let skip = length log.records - tail in
    json (
      ("ownerGeneration", string owner_generation)
      ∷ ("capacityBytes", nat session_log_capacity_bytes)
      ∷ ("retainedBytes", nat log.retained_bytes)
      ∷ ("evictedRecords", nat log.evicted_records)
      ∷ ("evictedBytes", nat log.evicted_bytes)
      ∷ (
        "records",
        json_array
            (map (λ (entry : ℕ × SessionLogRecord). serialize entry.1) (drop skip log.records)),
      )
      ∷ [])
