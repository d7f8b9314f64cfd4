-- ===== src/Edits/Staging.antt =====
-- `apply_canonical_text_edits` of src/mutation/application.rs.
use lspctl.Prelude.{
  ℕ, String, Bool, true, false, not, ◌||◌, none, some, List, [], ◌∷◌, ◌++◌, Result, ok, err,
  if◌then◌else◌, ltb, length,
}
use lspctl.Text.{Bytes, is_utf8, is_char_boundary, as_bytes}
use lspctl.Edits.Render.{CanonicalTextEdit, get_slice}

-- A failure is the source's message, or a panic.
pub data StageError : Type 0 where
  reason : String → StageError
  panicked : StageError

abbrev pub bad_range : Bytes → ℕ → CanonicalTextEdit → Bool
bad_range text cursor edit =
    ltb edit.start_byte cursor
    || ltb edit.end_byte edit.start_byte
    || not (is_char_boundary text edit.start_byte)
    || not (is_char_boundary text edit.end_byte)

unfoldable pub stage_edits : Bytes → Bytes → ℕ → List CanonicalTextEdit → Result StageError Bytes
stage_edits text after cursor [] = elim (get_slice text cursor (length text)) [
  | none ↦ err panicked
  | some tail ↦ ok (after ++ tail)
]
stage_edits text after cursor (edit ∷ edits) = elim (bad_range text cursor edit) [
  | true ↦ err (reason "A canonical staged text edit range is invalid.")
  | false ↦ elim (get_slice text cursor edit.start_byte) [
    | none ↦ err panicked
    | some kept ↦ stage_edits text ((after ++ kept) ++ as_bytes edit.new_text) edit.end_byte edits
  ]
]

unfoldable pub apply_canonical_text_edits : Bytes → List CanonicalTextEdit → Result StageError Bytes
unfolding stage_edits get_slice is_utf8 is_char_boundary as_bytes
apply_canonical_text_edits before edits =
    if is_utf8 before
    then stage_edits before [] 0 edits
    else err (reason "A canonical staged text input is not valid UTF-8.")
