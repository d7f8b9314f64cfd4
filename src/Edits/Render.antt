-- ===== src/Edits/Render.antt =====
-- The middle of `plan_text_operation` (src/mutation/planner.rs): sorting the edits, the test for
-- overlaps, and the loop that writes the new text.
use lspctl.Prelude.{
  ℕ, ◌-◌, String, Bool, false, not, ◌&&◌, ◌||◌, Option, none, some, List, [], ◌∷◌, ◌++◌,
  if◌then◌else◌, ltb, leb, ◌==◌, length, take, drop, u64_max, saturating_add,
}
use lspctl.Text.{Bytes, as_bytes}
use lspctl.Edits.{ParsedTextEdit}

pub record CanonicalTextEdit : Type 0 where
  pub start_byte : ℕ
  pub end_byte : ℕ
  pub new_text : String
  pub annotation_id : Option String

-- the order of the keys `(start_byte, end_byte, ordinal)`
unfoldable pub key_le : ParsedTextEdit → ParsedTextEdit → Bool
key_le a b =
    if a.start_byte == b.start_byte
    then (if a.end_byte == b.end_byte then leb a.ordinal b.ordinal else ltb a.end_byte b.end_byte)
    else ltb a.start_byte b.start_byte

unfoldable pub insert_edit : ParsedTextEdit → List ParsedTextEdit → List ParsedTextEdit
insert_edit e [] = e ∷ []
insert_edit e (f ∷ edits) = if key_le e f then e ∷ f ∷ edits else f ∷ insert_edit e edits

-- `edits.sort_by_key(…)`
unfoldable pub sort_edits : List ParsedTextEdit → List ParsedTextEdit
unfolding insert_edit key_le
sort_edits [] = []
sort_edits (e ∷ edits) = insert_edit e (sort_edits edits)

-- the test on two neighbours
abbrev pub clash : ParsedTextEdit → ParsedTextEdit → Bool
clash left right =
    ltb right.start_byte left.end_byte
    || (right.start_byte == left.start_byte
        && (not (right.end_byte == right.start_byte) || not (left.end_byte == left.start_byte)))

-- the loop over `edits.windows(2)`
unfoldable pub overlapping : List ParsedTextEdit → Bool
overlapping [] = false
overlapping (e ∷ []) = false
overlapping (e ∷ f ∷ edits) = clash e f || overlapping (f ∷ edits)

-- `&bytes[start..end]`, which panics outside the bytes
unfoldable pub get_slice : Bytes → ℕ → ℕ → Option Bytes
get_slice bytes start end =
    if leb start end && leb end (length bytes)
    then some (take (end - start) (drop start bytes))
    else none

pub record Rendering : Type 0 where
  pub result : Bytes
  pub cursor : ℕ
  pub total_new_text_bytes : ℕ
  pub canonical_edits : List CanonicalTextEdit

abbrev pub canonical : ParsedTextEdit → CanonicalTextEdit
canonical edit = record {
  start_byte = edit.start_byte;
  end_byte = edit.end_byte;
  new_text = edit.new_text;
  annotation_id = edit.annotation_id;
}

-- the body of the loop: the text kept before an edit, its new text, and the edit itself
abbrev pub written : Rendering → Bytes → ParsedTextEdit → Rendering
written r kept edit = record {
  result = (r.result ++ kept) ++ as_bytes edit.new_text;
  cursor = edit.end_byte;
  total_new_text_bytes =
      saturating_add u64_max r.total_new_text_bytes (length (as_bytes edit.new_text));
  canonical_edits = r.canonical_edits ++ canonical edit ∷ [];
}

-- The loop over the edits and the line behind it; `none` is a panic.
unfoldable pub render : Bytes → Rendering → List ParsedTextEdit → Option Rendering
render bytes r [] = elim (get_slice bytes r.cursor (length bytes)) [
  | none ↦ none
  | some tail ↦ some (record r { result = r.result ++ tail })
]
render bytes r (edit ∷ edits) = elim (get_slice bytes r.cursor edit.start_byte) [
  | none ↦ none
  | some kept ↦ render bytes (written r kept edit) edits
]
