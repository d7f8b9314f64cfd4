-- ===== src/Edits/Agreement.antt =====
-- The text that planning writes is the one that staging writes from the recorded edits.
use lspctl.Prelude.{
  ℕ, ◌-◌, ◌≤◌, String, ◌≡◌, sym, ◌∙◌, true, false, Option, some, List, [], ◌∷◌, ◌++◌, map, arith,
  length, take, drop, All, ok, if_rule, Option-cases, inl, inr,
}
use mathlib.Core.List.{append-nil, append_assoc}
use lspctl.Json.{Json, Members, get, as_object}
use lspctl.Text.{Bytes, is_utf8, is_char_boundary}
use lspctl.Position.{PositionEncoding, ProtocolPosition}
use lspctl.Position.Boundary.{position_to_offset-boundary}
use lspctl.Edits.{
  ParsedTextEdit, parse_position, place_edit, parse_range, parse_text_edit, option_str,
  option_object,
}
use lspctl.Edits.Render.{
  key_le, insert_edit, sort_edits, overlapping, get_slice, Rendering, canonical, written, render,
}
use lspctl.Edits.Staging.{stage_edits, bad_range}

-- An edit of a text: a range of it, between characters.
pub record IsRange (text : Bytes) (edit : ParsedTextEdit) : Type 0 where
  pub ordered : edit.start_byte ≤ edit.end_byte
  pub inside : edit.end_byte ≤ length text
  pub start_boundary : is_char_boundary text edit.start_byte ≡ true
  pub end_boundary : is_char_boundary text edit.end_byte ≡ true

-- Ranges that follow one another from a cursor on.
abbrev pub IsChain : Bytes → ℕ → List ParsedTextEdit → Type 0
IsChain text cursor [] = cursor ≤ length text
IsChain text cursor (edit ∷ edits) =
    (cursor ≤ edit.start_byte) × IsRange text edit × IsChain text edit.end_byte edits

get_slice_inside :
    (text : Bytes) (start end : ℕ)
    → start ≤ end
    → end ≤ length text
    → get_slice text start end ≡ some (take (end - start) (drop start text))
unfolding get_slice
get_slice_inside text start end h k = ground arith

good_range :
    (text : Bytes) (cursor : ℕ) (edit : ParsedTextEdit)
    → cursor ≤ edit.start_byte
    → IsRange text edit
    → bad_range text cursor (canonical edit) ≡ false
good_range text cursor edit h r = ground (arith, r.ordered, r.start_boundary, r.end_boundary)

-- Along a chain neither loop panics or fails, and both write the same text.
pub render-stage :
    (text : Bytes) (r : Rendering) (edits : List ParsedTextEdit)
    → IsChain text r.cursor edits
    → (r' : Rendering) × (render text r edits ≡ some r')
      × (stage_edits text r.result r.cursor (map canonical edits) ≡ ok r'.result)
      × (r'.canonical_edits ≡ r.canonical_edits ++ map canonical edits)
unfolding render stage_edits
render-stage text r [] chain =
    let tail = take (length text - r.cursor) (drop r.cursor text) in
    let cut = get_slice_inside text r.cursor (length text) chain (omega arith) in
    (
      record r { result = r.result ++ tail },
      rw (cut, render),
      rw (cut, stage_edits),
      sym (append-nil r.canonical_edits),
    )
render-stage text r (edit ∷ edits) (after, range, chain) =
    let kept = take (edit.start_byte - r.cursor) (drop r.cursor text) in
    let cut = get_slice_inside text r.cursor edit.start_byte after (omega arith) in
    let (r', rendered, staged, recorded) = render-stage text (written r kept edit) edits chain in
    (
      r',
      rw (cut, render) rendered,
      rw (good_range text r.cursor edit after range, cut, stage_edits) staged,
      recorded ∙ append_assoc r.canonical_edits (canonical edit ∷ []) (map canonical edits),
    )

insert_edit-All :
    (P : ParsedTextEdit → Type 0) (e : ParsedTextEdit) (edits : List ParsedTextEdit)
    → P e
    → All P edits
    → All P (insert_edit e edits)
unfolding insert_edit
insert_edit-All P e [] h hs = (h, tt)
insert_edit-All P e (f ∷ edits) h hs =
    if_rule (All P) (key_le e f) (e ∷ f ∷ edits) (f ∷ insert_edit e edits) (λ _. (h, hs))
      λ _. (hs.0, insert_edit-All P e edits h hs.1)

pub sort_edits-All :
    (P : ParsedTextEdit → Type 0) (edits : List ParsedTextEdit)
    → All P edits
    → All P (sort_edits edits)
unfolding sort_edits
sort_edits-All P [] hs = tt
sort_edits-All P (e ∷ edits) hs =
    insert_edit-All P e (sort_edits edits) hs.0 (sort_edits-All P edits hs.1)

-- Ranges of which no two neighbours clash follow one another.
not_overlapping-IsChain :
    (text : Bytes) (cursor : ℕ) (e : ParsedTextEdit) (edits : List ParsedTextEdit)
    → cursor ≤ e.start_byte
    → All (IsRange text) (e ∷ edits)
    → overlapping (e ∷ edits) ≡ false
    → IsChain text cursor (e ∷ edits)
unfolding overlapping
not_overlapping-IsChain text cursor e [] c hs h = (c, hs.0, hs.0.inside)
not_overlapping-IsChain text cursor e (f ∷ edits) c hs h =
    (c, hs.0, not_overlapping-IsChain text e.end_byte f edits (ground arith) hs.1 (ground arith))

pub IsChain-from_start :
    (text : Bytes) (edits : List ParsedTextEdit)
    → All (IsRange text) edits
    → overlapping edits ≡ false
    → IsChain text 0 edits
IsChain-from_start text [] hs h = omega arith
IsChain-from_start text (e ∷ edits) hs h = not_overlapping-IsChain text 0 e edits (omega arith) hs h

place_edit-IsRange :
    (text : Bytes) (start end : ProtocolPosition) (encoding : PositionEncoding) (index : ℕ)
    (path new_text : String) (annotation_id : Option String) (ordinal : ℕ) (e : ParsedTextEdit)
    → is_utf8 text ≡ true
    → place_edit text start end encoding index path new_text annotation_id ordinal ≡ ok e
    → IsRange text e
unfolding place_edit
place_edit-IsRange text start end encoding index path new_text annotation_id ordinal e u h =
    record {
      ordered = ground arith;
      inside = ground (arith, position_to_offset-boundary text end encoding e.end_byte);
      start_boundary = ground (arith, position_to_offset-boundary text start encoding e.start_byte);
      end_boundary = ground (arith, position_to_offset-boundary text end encoding e.end_byte);
    }

parse_range-IsRange :
    (text : Bytes) (range : Members) (encoding : PositionEncoding) (index : ℕ)
    (path new_text : String) (annotation_id : Option String) (ordinal : ℕ) (e : ParsedTextEdit)
    → is_utf8 text ≡ true
    → parse_range text range encoding index path new_text annotation_id ordinal ≡ ok e
    → IsRange text e
unfolding parse_range
parse_range-IsRange text range encoding index path new_text annotation_id ordinal e u h =
    elim (Option-cases (parse_position (get "start" range))) [
      | inl bad ↦ absurd (ground arith)
      | inr (start, p) ↦ elim (Option-cases (parse_position (get "end" range))) [
        | inl bad ↦ absurd (ground arith)
        | inr (end, q) ↦
            place_edit-IsRange text start end encoding index path new_text annotation_id ordinal e u
              (ground arith)
      ]
    ]

-- What `parse_text_edit` accepts for a text in valid UTF-8 is a range of it: it ends no earlier than
-- it starts, it lies in the text, and both ends stand between two characters.
pub parse_text_edit-IsRange :
    (text : Bytes) (edit : Json) (annotations : Members) (encoding : PositionEncoding) (index : ℕ)
    (path : String) (ordinal : ℕ) (e : ParsedTextEdit)
    → is_utf8 text ≡ true
    → parse_text_edit text edit annotations encoding index path ordinal ≡ ok e
    → IsRange text e
unfolding parse_text_edit
parse_text_edit-IsRange text edit annotations encoding index path ordinal e u h =
    elim (Option-cases (as_object edit)) [
      | inl bad ↦ absurd (ground arith)
      | inr (fields, f) ↦ elim (Option-cases (option_str (get "newText" fields))) [
        | inl bad ↦ absurd (ground arith)
        | inr (new_text, n) ↦ elim (Option-cases (option_object (get "range" fields))) [
          | inl bad ↦ absurd (ground arith)
          | inr (range, r) ↦
              parse_range-IsRange text range encoding index path new_text
                (option_str (get "annotationId" fields)) ordinal e u (ground arith)
        ]
      ]
    ]
