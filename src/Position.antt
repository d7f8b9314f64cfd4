-- ===== src/Position.antt =====
-- Source positions (src/workspace.rs) and protocol positions (src/mutation/planner.rs), over the bytes
-- of a text. Byte 10 is the newline and byte 13 the carriage return; in UTF-8 they stand for nothing
-- else.
pub mod Lines
pub mod Boundary
use lspctl.Prelude.{
  ℕ, zero, suc, ◌+◌, ◌-◌, ◌%◌, ◌^◌, String, Bool, true, false, ◌&&◌, ◌||◌, Option, none, some, List,
  [], ◌∷◌, ◌++◌, ltb, leb, ◌==◌, if◌then◌else◌, length, take, drop, get_elem?, Result, ok, err,
  ◌>>=◌, ◌>>◌, ok_or, u32_max, saturating_add,
}
use lspctl.Text.{Bytes, is_char_boundary, starts_char, len_utf16}
use lspctl.Failure.{ContractFailure, invalid_position_failure}

pub data PositionEncoding : Type 0 where
  utf8 utf16 : PositionEncoding

pub record ProtocolPosition : Type 0 where
  pub line : ℕ
  pub character : ℕ

abbrev pub newline : ℕ
newline = 10

abbrev pub carriage_return : ℕ
carriage_return = 13

-- `&text[start..end]`
abbrev pub slice : Bytes → ℕ → ℕ → Bytes
slice text start end = take (end - start) (drop start text)

abbrev pub byte_is : Option ℕ → ℕ → Bool
byte_is none c = false
byte_is (some b) c = b == c

-- the end of the line that a newline at `offset` closes
abbrev pub line_end : Bytes → ℕ → ℕ → ℕ
line_end text start offset =
    if ltb start offset && byte_is (get_elem? text (offset - 1)) carriage_return
    then offset - 1
    else offset

-- the loop of `line_slice`, at a byte offset, with the bytes that are left
unfoldable pub line_scan : Bytes → ℕ → ℕ → ℕ → ℕ → Bytes → Option (ℕ × Bytes)
line_scan text wanted line start offset [] =
    if line == wanted then some (start, drop start text) else none
line_scan text wanted line start offset (b ∷ rest) =
    let next =
      line_scan text wanted (if b == newline then saturating_add u32_max line 1 else line)
        (if b == newline then offset + 1 else start) (offset + 1) rest in
    if b == newline && line == wanted
    then some (start, slice text start (line_end text start offset))
    else next

unfoldable pub line_slice : Bytes → ℕ → Option (ℕ × Bytes)
unfolding line_scan
line_slice text wanted = line_scan text wanted 0 0 0 text

-- `str::char_indices`: the offset of each character, with its first byte
unfoldable pub char_indices : ℕ → Bytes → List (ℕ × ℕ)
char_indices offset [] = []
char_indices offset (b ∷ rest) =
    if starts_char b
    then (offset, b) ∷ char_indices (offset + 1) rest
    else char_indices (offset + 1) rest

-- `char_indices().nth(n).map(offset)`, or the length where `n` is the number of characters
unfoldable pub nth_offset : ℕ → ℕ → List (ℕ × ℕ) → Option ℕ
nth_offset len zero [] = some len
nth_offset len (suc n) [] = none
nth_offset len zero ((offset, b) ∷ rest) = some offset
nth_offset len (suc n) ((offset, b) ∷ rest) = nth_offset len n rest

unfoldable pub byte_offset_for_scalar : Bytes → ℕ → Option ℕ
unfolding nth_offset char_indices starts_char
byte_offset_for_scalar line zero = some 0
byte_offset_for_scalar line (suc n) = nth_offset (length line) (suc n) (char_indices 0 line)

-- `encode_utf16().count()`
unfoldable pub utf16_count : Bytes → ℕ
utf16_count [] = 0
utf16_count (b ∷ rest) = if starts_char b then len_utf16 b + utf16_count rest else utf16_count rest

unfoldable pub resolve_source_position :
    String → Bytes → ℕ → ℕ → PositionEncoding → Result ContractFailure ProtocolPosition
unfolding line_slice byte_offset_for_scalar utf16_count starts_char len_utf16
resolve_source_position file text line scalar_column encoding = do
  (start, line_text) ←
      ok_or (line_slice text line)
        (invalid_position_failure file line (some scalar_column) "line is outside the Document")
  byte_in_line ← ok_or (byte_offset_for_scalar line_text scalar_column) (
      invalid_position_failure file line (some scalar_column) "column is outside the Document line")
  let character : ℕ = elim encoding [
    | utf8 ↦ byte_in_line
    | utf16 ↦ utf16_count (take byte_in_line line_text)
  ]
  if leb character u32_max
      then ok (record { line = line; character = character })
      else err (invalid_position_failure file line (some scalar_column) "position is too large")

-- the loop of `offset_in_line` at UTF-16
unfoldable pub utf16_scan : ℕ → ℕ → ℕ → List (ℕ × ℕ) → Option ℕ
utf16_scan len wanted units [] = if units == wanted then some len else none
utf16_scan len wanted units ((offset, b) ∷ rest) =
    let next = utf16_scan len wanted (units + len_utf16 b) rest in
    if units == wanted then some offset else if ltb wanted (units + len_utf16 b) then none else next

unfoldable pub offset_in_line : Bytes → ℕ → PositionEncoding → Option ℕ
unfolding utf16_scan char_indices is_char_boundary starts_char len_utf16
offset_in_line line wanted utf8 =
    if is_char_boundary line wanted
    then (if leb wanted (length line) then some wanted else none)
    else none
offset_in_line line wanted utf16 = utf16_scan (length line) wanted 0 (char_indices 0 line)

-- `split_inclusive('\n')`: the lines, each with its newline; `split_terminator` has as many
abbrev pub prepend : ℕ → List Bytes → List Bytes
prepend b [] = (b ∷ []) ∷ []
prepend b (segment ∷ segments) = (b ∷ segment) ∷ segments

unfoldable pub split_inclusive : Bytes → List Bytes
split_inclusive [] = []
split_inclusive (b ∷ rest) =
    let segments = split_inclusive rest in
    if b == newline then (b ∷ []) ∷ segments else prepend b segments

-- `s.strip_suffix(c).unwrap_or(s)`
unfoldable pub strip_suffix : ℕ → Bytes → Bytes
strip_suffix c [] = []
strip_suffix c (b ∷ []) = if b == c then [] else b ∷ []
strip_suffix c (b ∷ b' ∷ rest) = b ∷ strip_suffix c (b' ∷ rest)

unfoldable pub ends_with : ℕ → Bytes → Bool
ends_with c [] = false
ends_with c (b ∷ []) = b == c
ends_with c (b ∷ b' ∷ rest) = ends_with c (b' ∷ rest)

-- The loop of `position_to_offset`: `none` where no segment has the line.
unfoldable pub segment_scan : ℕ → ℕ → PositionEncoding → ℕ → ℕ → List Bytes → Option (Option ℕ)
segment_scan line character encoding number offset [] = none
segment_scan line character encoding number offset (segment ∷ segments) =
    let next =
      segment_scan line character encoding (number + 1) (offset + length segment) segments in
    if number == line
    then some
        (elim (offset_in_line (strip_suffix carriage_return (strip_suffix newline segment))
          character encoding) [ none ↦ none | some line_offset ↦ some (offset + line_offset) ])
    else next

abbrev pub is_empty : Bytes → Bool
is_empty [] = true
is_empty (b ∷ rest) = false

unfoldable pub position_to_offset : Bytes → ProtocolPosition → PositionEncoding → Option ℕ
position_to_offset text position encoding =
    elim (segment_scan position.line position.character encoding 0 0 (split_inclusive text)) [
      | some found ↦ found
      | none ↦
          if (is_empty text && position.line == 0 && position.character == 0)
            || (ends_with newline text
                && position.line == length (split_inclusive text) % 2 ^ 32
                && position.character == 0)
          then some (length text)
          else none
    ]
