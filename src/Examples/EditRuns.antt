-- ===== src/Examples/EditRuns.antt =====
-- The theorems on positions and text edits, at the text "ab" with its newline.
use lspctl.Prelude.{ℕ, ◌≤◌, ◌≡◌, refl, true, none, some, [], ◌∷◌, length}
use lspctl.Json.{Json, no_members, json, json_array, nat, string, get, has_key}
use lspctl.Text.{is_utf8, is_char_boundary}
use lspctl.Map.{lookup}
use lspctl.Position.{
  utf16, position_to_offset, segment_scan, split_inclusive, offset_in_line, strip_suffix,
}
use lspctl.Position.Boundary.{position_to_offset-boundary}
use lspctl.Edits.{parse_text_edit, validate_object_keys, parse_range, parse_position, place_edit}
use lspctl.Edits.Plan.{Planning, ResourceState, ManifestEntry, plan_loaded, file}
use lspctl.Edits.Agreement.{IsRange, parse_text_edit-IsRange}
use lspctl.Edits.Faithful.{Plans, plan_loaded-Plans}
use lspctl.Examples.{text_ab, digest_of}

position_to_offset-boundary_example : (is_char_boundary text_ab 1 ≡ true) × (1 ≤ length text_ab)
unfolding is_utf8 position_to_offset segment_scan split_inclusive offset_in_line strip_suffix
position_to_offset-boundary_example =
    position_to_offset-boundary text_ab (record { line = 0; character = 1 }) utf16 1 refl refl

abbrev position_json : ℕ → ℕ → Json
unfolding json
position_json line character = json (("line", nat line) ∷ ("character", nat character) ∷ [])

-- replaces "b"
abbrev edit_json : Json
unfolding json
edit_json = json (
    ("range", json (("start", position_json 0 1) ∷ ("end", position_json 0 2) ∷ []))
    ∷ ("newText", string "cd")
    ∷ [])

parse_text_edit-IsRange_example :
    IsRange text_ab
      (record { start_byte = 1; end_byte = 2; new_text = "cd"; annotation_id = none; ordinal = 0 })
unfolding is_utf8 parse_text_edit edit_json validate_object_keys has_key get parse_range
    parse_position place_edit position_to_offset segment_scan split_inclusive offset_in_line
    strip_suffix
parse_text_edit-IsRange_example =
    parse_text_edit-IsRange text_ab edit_json no_members utf16 0 "/a" 0
      (record { start_byte = 1; end_byte = 2; new_text = "cd"; annotation_id = none; ordinal = 0 })
      refl refl

abbrev entry : ManifestEntry
entry = record {
  path = "/a";
  exists = true;
  resource_kind = file;
  identity_digest = some "i";
  content_digest = some (digest_of text_ab);
  metadata_digest = some "m";
}

abbrev state : ResourceState
state = record { manifest = entry; text = some text_ab; text_source = none }

abbrev planning : Planning
planning = record {
  workspace = record {
    entries = ("/a", state) ∷ [];
    before = ("/a", entry) ∷ [];
    affected = [];
    rollback_bytes = 0;
  };
  operations = [];
  summary = record { files_changed = 0; text_edits = 0; creates = 0; renames = 0; deletes = 0 };
  total_new_text_bytes = 0;
  problems = [];
}

plan_loaded-Plans_example :
    (planned : Planning) × (plan_loaded digest_of 0 "file:///a" planning "/a"
        (json_array (edit_json ∷ []))
        no_members
        utf16
      ≡ some planned)
    × Plans digest_of 0 "file:///a" "/a" text_ab "sha256:000" planning planned
unfolding lookup is_utf8
plan_loaded-Plans_example =
    plan_loaded-Plans digest_of 0 "file:///a" "/a" planning state text_ab "sha256:000"
      (json_array (edit_json ∷ [])) no_members utf16 refl refl refl refl refl
