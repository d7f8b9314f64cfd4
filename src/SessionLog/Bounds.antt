-- ===== src/SessionLog/Bounds.antt =====
-- What bounds the log, whatever is pushed.
use lspctl.Prelude.{
  ℕ, zero, suc, ◌+◌, ◌-◌, ◌≤◌, ◌<◌, ◌≡◌, refl, ap, true, false, some, List, [], ◌∷◌, ◌++◌, arith,
  length, drop, u64_max, saturating_add, saturating_add_exact, if_rule, String, Bool-cases, inl,
  inr, ltb, ◌==◌, ==_iff, sym,
}
use mathlib.Core.Path.{subst}
use lspctl.Text.{Bytes, is_char_boundary, boundary_in, opens}
use lspctl.SessionLog.{
  SessionLog, SessionLogRecord, session_log_capacity_bytes, suffix_from, utf8_suffix_start,
  make_room, shorten, keep_suffix, append_record, push,
}

boundary_in-length : (s : Bytes) → boundary_in s (length s) ≡ true
unfolding boundary_in opens
boundary_in-length [] = refl
boundary_in-length (b ∷ s) = boundary_in-length s

is_char_boundary-length : (s : Bytes) → is_char_boundary s (length s) ≡ true
unfolding is_char_boundary
is_char_boundary-length [] = refl
is_char_boundary-length (b ∷ s) = boundary_in-length (b ∷ s)

-- The loop finds a place between characters, at or behind where it starts.
suffix_from_lem :
    (fuel : ℕ) (value : Bytes) (start : ℕ)
    → start ≤ length value
    → length value < fuel + start
    → (found : ℕ) × (suffix_from fuel value start ≡ some found)
      × (start ≤ found)
      × (found ≤ length value)
      × (is_char_boundary value found ≡ true)
unfolding suffix_from
suffix_from_lem zero value start h k = absurd (omega arith)
suffix_from_lem (suc fuel) value start h k = elim (Bool-cases (is_char_boundary value start)) [
  | inl here ↦ (start, ground arith, omega arith, h, here)
  | inr between ↦
      let (found, run, after, inside, boundary) =
        suffix_from_lem fuel value (start + 1) (ground (arith, is_char_boundary-length value))
          (omega arith) in
      (found, ground arith, omega arith, inside, boundary)
]

abbrev pub total_size : List (ℕ × SessionLogRecord) → ℕ
total_size [] = 0
total_size ((size, entry) ∷ entries) = size + total_size entries

total_size-append :
    (es : List (ℕ × SessionLogRecord)) (size : ℕ) (entry : SessionLogRecord)
    → total_size (es ++ (size, entry) ∷ []) ≡ total_size es + size
total_size-append [] size entry = omega arith
total_size-append ((n, e) ∷ es) size entry = omega (arith, total_size-append es size entry)

-- The count of retained bytes is exact, and within the capacity.
pub record IsBounded (log : SessionLog) : Type 0 where
  pub exact : log.retained_bytes ≡ total_size log.records
  pub within : log.retained_bytes ≤ session_log_capacity_bytes

-- A log that has lost only its oldest records, and has room for `size` more bytes.
record HasRoom (size : ℕ) (entries : List (ℕ × SessionLogRecord)) (log : SessionLog) : Type 0 where
  dropped : ℕ
  rest : log.records ≡ drop dropped entries
  exact : log.retained_bytes ≡ total_size log.records
  within : log.retained_bytes + size ≤ session_log_capacity_bytes

make_room-HasRoom :
    (size : ℕ) (entries : List (ℕ × SessionLogRecord)) (log : SessionLog)
    → size ≤ session_log_capacity_bytes
    → log.retained_bytes ≡ total_size entries
    → log.retained_bytes ≤ session_log_capacity_bytes
    → HasRoom size entries (make_room size entries log)
unfolding make_room
make_room-HasRoom size [] log h exact within = record {
  dropped = 0;
  rest = refl;
  exact = exact;
  within = omega arith;
}
make_room-HasRoom size ((removed_size, entry) ∷ entries) log h exact within =
    if_rule (HasRoom size ((removed_size, entry) ∷ entries))
      (ltb session_log_capacity_bytes (saturating_add u64_max log.retained_bytes size)) _ _
      (λ _.
        let r =
          make_room-HasRoom size entries
            (record log {
              retained_bytes = log.retained_bytes - removed_size;
              evicted_records = saturating_add u64_max log.evicted_records 1;
              evicted_bytes = saturating_add u64_max log.evicted_bytes removed_size;
            })
            h (omega arith) (omega arith) in
        record { dropped = suc r.dropped; rest = r.rest; exact = r.exact; within = r.within })
      λ fits. record {
        dropped = 0;
        rest = refl;
        exact = exact;
        within = ground (arith, saturating_add_exact u64_max log.retained_bytes size (omega arith));
      }

-- What serde's text of a record is relied on for: it holds the message, each character by itself, so
-- the end of a message takes that much less, but for the digits of the count of omitted bytes; and
-- the record without its message is small.
pub record Serializes (serialized_size : SessionLogRecord → ℕ) (entry : SessionLogRecord)
    : Type 0 where
  pub holds_message : length entry.message ≤ serialized_size entry
  pub shrinks :
      (start : ℕ)
      → start ≤ length entry.message
      → is_char_boundary entry.message start ≡ true
      → serialized_size (keep_suffix serialized_size entry start) + start
        ≤ serialized_size entry + 32
  pub small :
      serialized_size (keep_suffix serialized_size entry (length entry.message))
      ≤ session_log_capacity_bytes

-- The record that is kept for one that is pushed: the whole of it or, marked so, the end of its message.
pub record IsKept (serialized_size : SessionLogRecord → ℕ) (entry kept : SessionLogRecord)
    : Type 0 where
  pub fits : serialized_size kept ≤ session_log_capacity_bytes
  pub same_sequence : kept.sequence ≡ entry.sequence
  pub end_of_message : kept.message ≡ drop kept.omitted_bytes entry.message
  pub boundary : is_char_boundary entry.message kept.omitted_bytes ≡ true

module _ (serialized_size : SessionLogRecord → ℕ) where
  suffix_fits :
      (entry : SessionLogRecord) (start : ℕ)
      → Serializes serialized_size entry
      → (length entry.message
          ≤ (session_log_capacity_bytes - ((serialized_size entry - length entry.message) + 32))
            + start)
      → start ≤ length entry.message
      → is_char_boundary entry.message start ≡ true
      → serialized_size (keep_suffix serialized_size entry start) ≤ session_log_capacity_bytes
  suffix_fits entry start h after inside boundary =
      elim (Bool-cases (start == length entry.message)) [
        | inl all ↦
            subst
              (λ n.
                serialized_size (keep_suffix serialized_size entry n) ≤ session_log_capacity_bytes)
              (sym ((==_iff start (length entry.message)).0 all)) h.small
        | inr part ↦ ground (arith, h.shrinks start inside boundary, h.holds_message)
      ]

  shorten-IsKept :
      (entry : SessionLogRecord)
      → Serializes serialized_size entry
      → entry.omitted_bytes ≡ 0
      → (kept : SessionLogRecord) × (shorten serialized_size entry ≡ some kept)
        × IsKept serialized_size entry kept
  unfolding shorten utf8_suffix_start is_char_boundary
  shorten-IsKept entry h none_omitted =
      let size = serialized_size entry in
      let keep = session_log_capacity_bytes - ((size - length entry.message) + 32) in
      elim (Bool-cases (ltb session_log_capacity_bytes size)) [
        | inl large ↦
            let (start, found, after, inside, boundary) =
              suffix_from_lem (suc (length entry.message)) entry.message
                (length entry.message - keep) (omega arith) (omega arith) in
            (
              keep_suffix serialized_size entry start,
              rw (large, found) refl,
              record {
                fits = suffix_fits entry start h (omega arith) inside boundary;
                same_sequence = refl;
                end_of_message = refl;
                boundary = boundary;
              },
            )
        | inr small ↦ (
          entry,
          rw small refl,
          record {
            fits = ground arith;
            same_sequence = refl;
            end_of_message = rw none_omitted refl;
            boundary = rw none_omitted refl;
          },
        )
      ]

  -- Pushing onto a bounded log always returns, for a message of any length: the log is bounded again,
  -- it has lost its oldest records only, and its newest record is the pushed one, of which the message
  -- is whole or loses its beginning up to a place between two characters. The hypotheses are what is
  -- relied on for serde's text of the new record.
  pub push-IsBounded :
      (log : SessionLog) (timestamp kind level : String) (message : Bytes)
      → IsBounded log
      → Serializes serialized_size (record {
        sequence = log.next_sequence;
        timestamp = timestamp;
        kind = kind;
        level = level;
        message = message;
        truncated = false;
        omitted_bytes = 0;
      })
      → (log' : SessionLog) × (kept : SessionLogRecord) × (dropped : ℕ) × (push serialized_size log
            timestamp kind level message
          ≡ some log')
        × IsBounded log'
        × (log'.records ≡ drop dropped log.records ++ (serialized_size kept, kept) ∷ [])
        × IsKept serialized_size
            (record {
              sequence = log.next_sequence;
              timestamp = timestamp;
              kind = kind;
              level = level;
              message = message;
              truncated = false;
              omitted_bytes = 0;
            })
            kept
  unfolding push
  push-IsBounded log timestamp kind level message b h =
      let entry : SessionLogRecord = record {
        sequence = log.next_sequence;
        timestamp = timestamp;
        kind = kind;
        level = level;
        message = message;
        truncated = false;
        omitted_bytes = 0;
      } in
      let counted = record log { next_sequence = saturating_add u64_max log.next_sequence 1 } in
      let (kept, shortened, is_kept) = shorten-IsKept entry h refl in
      let size = serialized_size kept in
      let room = make_room-HasRoom size log.records counted is_kept.fits b.exact b.within in
      let roomy = make_room size log.records counted in
      (
        append_record serialized_size counted kept,
        kept,
        room.dropped,
        rw (shortened, push) refl,
        record {
          exact = ground (
            arith,
            room.exact,
            room.within,
            total_size-append roomy.records size kept,
            saturating_add_exact u64_max roomy.retained_bytes size (omega (arith, room.within)),
          );
          within = ground (
            arith,
            room.within,
            saturating_add_exact u64_max roomy.retained_bytes size (omega (arith, room.within)),
          );
        },
        ap (λ es. es ++ (size, kept) ∷ []) room.rest,
        is_kept,
      )
