-- ===== src/Edits.antt =====
-- Text edits of src/mutation/planner.rs: the data of a plan, and `parse_text_edit`.
pub mod Render
pub mod Staging
pub mod Plan
pub mod Agreement
pub mod Faithful
use lspctl.Prelude.{
  ℕ, zero, suc, ◌+◌, ◌≤◌, String, Bool, true, false, not, ◌||◌, Option, none, some, List, [], ◌∷◌,
  Result, ok, err, ◌>>=◌, ◌>>◌, ok_or, if◌then◌else◌, ltb, leb, str_eq, u32_max,
}
use lspctl.Json.{
  Json, Items, Members, no_members, member, object, array, boolean, null, string, get, has_key,
  json, as_str, as_object, as_u64, as_bool,
}
use lspctl.Text.{Bytes}
use lspctl.Position.{PositionEncoding, ProtocolPosition, position_to_offset}

pub record WorkspaceEditProblem : Type 0 where
  pub code : String
  pub message : String
  pub operation_index : Option ℕ
  pub path : Option String
  pub annotation_id : Option String
  pub details : Option Json

unfoldable pub problem :
    String → String → Option ℕ → Option String → Option Json → WorkspaceEditProblem
problem code message operation_index path details = record {
  code = code;
  message = message;
  operation_index = operation_index;
  path = path;
  annotation_id = none;
  details = details;
}

abbrev pub contains : List String → String → Bool
contains [] key = false
contains (k ∷ ks) key = str_eq k key || contains ks key

-- `object.keys().find(|key| !allowed_keys.contains(key))`
unfoldable pub unknown_key : List String → Members → Option String
unknown_key allowed no_members = none
unknown_key allowed (member key value rest) =
    if contains allowed key then unknown_key allowed rest else some key

unfoldable pub validate_object_keys :
    Members → List String → Option ℕ → Result WorkspaceEditProblem (Unit {0})
unfolding unknown_key problem
validate_object_keys fields allowed index = elim (unknown_key allowed fields) [
  | none ↦ ok tt
  | some key ↦ err (
      problem "unknown_operation" "The Workspace Edit contains an unknown field." index none
        (some (json (("field", string key) ∷ []))))
]

unfoldable pub validate_annotation : Members → Members → ℕ → Result WorkspaceEditProblem (Unit {0})
validate_annotation operation annotations index = elim (get "annotationId" operation) [
  | some (string annotation_id) ↦
      if has_key annotation_id annotations
      then ok tt
      else err (record {
        code = "missing_annotation";
        message = "A resource operation references a missing change annotation.";
        operation_index = some index;
        path = none;
        annotation_id = some annotation_id;
        details = none;
      })
  | _ ↦ ok tt
]

unfoldable pub option_bool : Option Members → String → Bool
option_bool none name = false
option_bool (some options) name = elim (get name options) [ some (boolean b) ↦ b | _ ↦ false ]

-- `options.iter().find(|(_, value)| !value.is_boolean())`
unfoldable pub not_boolean : Members → Option (String × Json)
not_boolean no_members = none
not_boolean (member name value rest) = elim (as_bool value) [
  | none ↦ some (name, value)
  | some _ ↦ not_boolean rest
]

unfoldable pub validate_options :
    Option Json → List String → ℕ → Result WorkspaceEditProblem (Unit {0})
unfolding not_boolean validate_object_keys problem
validate_options none allowed_option_keys index = ok tt
validate_options (some null) allowed_option_keys index = ok tt
validate_options (some (object options)) allowed_option_keys index = do
  validate_object_keys options allowed_option_keys (some index)
  elim (not_boolean options) [
    | none ↦ ok tt
    | some (name, value) ↦ err (
        problem "unknown_operation" "A resource operation option must be boolean." (some index) none
          (some (json (("option", string name) ∷ ("value", value) ∷ []))))
  ]
validate_options (some other) allowed_option_keys index = err (
    problem "unknown_operation" "A resource operation options value must be an object." (some index)
      none (some other))

unfoldable pub validate_resource_operation :
    Members → List String → List String → ℕ → Result WorkspaceEditProblem (Unit {0})
unfolding validate_options validate_object_keys
validate_resource_operation operation allowed_keys allowed_option_keys index = do
  validate_object_keys operation allowed_keys (some index)
  validate_options (get "options" operation) allowed_option_keys index

abbrev u32_of : Json → Option ℕ
u32_of value = elim (as_u64 value) [ none ↦ none | some n ↦ if leb n u32_max then some n else none ]

unfoldable pub parse_position : Option Json → Option ProtocolPosition
parse_position (some (object fields)) = elim (get "line" fields) [
  | none ↦ none
  | some line ↦ elim (u32_of line) [
    | none ↦ none
    | some l ↦ elim (get "character" fields) [
      | none ↦ none
      | some character ↦ elim (u32_of character) [
        | none ↦ none
        | some c ↦ some (record { line = l; character = c })
      ]
    ]
  ]
]
parse_position _ = none

pub record ParsedTextEdit : Type 0 where
  pub start_byte : ℕ
  pub end_byte : ℕ
  pub new_text : String
  pub annotation_id : Option String
  pub ordinal : ℕ

abbrev pub option_str : Option Json → Option String
option_str none = none
option_str (some value) = as_str value

-- The annotation that an edit names has to be declared.
abbrev pub require_annotation :
    Option String → Members → ℕ → String → Result WorkspaceEditProblem (Unit {0})
require_annotation none annotations index path = ok tt
require_annotation (some annotation_id) annotations index path =
    if has_key annotation_id annotations
    then ok tt
    else err (record {
      code = "missing_annotation";
      message = "A text edit references a missing change annotation.";
      operation_index = some index;
      path = some path;
      annotation_id = some annotation_id;
      details = none;
    })

-- the end of `parse_text_edit`: both positions as offsets into the text
unfoldable pub place_edit :
    Bytes
    → ProtocolPosition
    → ProtocolPosition
    → PositionEncoding
    → ℕ
    → String
    → String
    → Option String
    → ℕ
    → Result WorkspaceEditProblem ParsedTextEdit
place_edit text start end encoding index path new_text annotation_id ordinal = do
  let fault = λ (code message : String). problem code message (some index) (some path) none
  start_byte ←
      ok_or (position_to_offset text start encoding)
        (fault "invalid_range" "A text edit start position is outside the UTF-8 Document.")
  end_byte ←
      ok_or (position_to_offset text end encoding)
        (fault "invalid_range" "A text edit end position is outside the UTF-8 Document.")
  if ltb end_byte start_byte
      then err (fault "invalid_range" "A text edit range ends before it starts.")
      else ok (record {
        start_byte = start_byte;
        end_byte = end_byte;
        new_text = new_text;
        annotation_id = annotation_id;
        ordinal = ordinal;
      })

abbrev pub option_object : Option Json → Option Members
option_object none = none
option_object (some value) = as_object value

-- the positions of `parse_text_edit`
unfoldable pub parse_range :
    Bytes
    → Members
    → PositionEncoding
    → ℕ
    → String
    → String
    → Option String
    → ℕ
    → Result WorkspaceEditProblem ParsedTextEdit
parse_range text range encoding index path new_text annotation_id ordinal = do
  let fault = λ (code message : String). problem code message (some index) (some path) none
  start ←
      ok_or (parse_position (get "start" range))
        (fault "invalid_range" "A text edit start position is invalid.")
  end ←
      ok_or (parse_position (get "end" range))
        (fault "invalid_range" "A text edit end position is invalid.")
  place_edit text start end encoding index path new_text annotation_id ordinal

unfoldable pub parse_text_edit :
    Bytes
    → Json
    → Members
    → PositionEncoding
    → ℕ
    → String
    → ℕ
    → Result WorkspaceEditProblem ParsedTextEdit
parse_text_edit text edit annotations encoding index path ordinal = do
  let fault = λ (code message : String). problem code message (some index) (some path) none
  fields ← ok_or (as_object edit) (fault "unknown_operation" "A text edit must be an object.")
  validate_object_keys fields
      ("range" ∷ "newText" ∷ "annotationId" ∷ "insertTextFormat" ∷ "snippet" ∷ []) (some index)
  if has_key "insertTextFormat" fields || has_key "snippet" fields
      then err (fault "snippet_edit_unsupported" "Snippet text edits are unsupported.")
      else do
        new_text ←
            ok_or (option_str (get "newText" fields))
              (fault "snippet_edit_unsupported" "Text edit newText must be a string.")
        let annotation_id = option_str (get "annotationId" fields)
        require_annotation annotation_id annotations index path
        range ←
            ok_or (option_object (get "range" fields))
              (fault "invalid_range" "A text edit requires a range.")
        parse_range text range encoding index path new_text annotation_id ordinal
