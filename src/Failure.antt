-- ===== src/Failure.antt =====
-- `ContractFailure` of src/contract.rs, and the failures that src/workspace.rs builds.
use lspctl.Prelude.{ℕ, String, Option, none, some, List, [], ◌∷◌, map, Result, ok_or, if◌then◌else◌}
use lspctl.Json.{Json, Members, string, object, nat, json, members, json_array, set_member, has_key}

pub record ContractFailure : Type 0 where
  pub exit_code : ℕ
  pub category : String
  pub code : String
  pub message : String
  pub stage : String
  pub delivery : String
  pub retry : String
  pub payload : Json

-- `std::io::Error`, as the failures show it
pub record IoError : Type 0 where
  pub reason : String
  pub os_code : Json

unfoldable pub workspace_failure : String → List String → ContractFailure
workspace_failure reason paths = record {
  exit_code = 3;
  category = "blocked";
  code = "workspace_selection_failed";
  message = "A single Workspace could not be selected.";
  stage = "resolve_workspace";
  delivery = "not_sent";
  retry = "after_change";
  payload = elim paths [
    | [] ↦ json (("reason", string reason) ∷ [])
    | p ∷ ps ↦ json (("reason", string reason) ∷ ("paths", json_array (map string (p ∷ ps))) ∷ [])
  ];
}

unfoldable pub invalid_position_failure : String → ℕ → Option ℕ → String → ContractFailure
invalid_position_failure file line column reason = record {
  exit_code = 2;
  category = "input";
  code = "invalid_source_position";
  message = "A source position is invalid.";
  stage = "synchronize";
  delivery = "not_sent";
  retry = "after_change";
  payload = elim column [
    | none ↦ json (("file", string file) ∷ ("line", nat line) ∷ ("reason", string reason) ∷ [])
    | some c ↦ json (
        ("file", string file)
        ∷ ("line", nat line)
        ∷ ("reason", string reason)
        ∷ ("column", nat c)
        ∷ [])
  ];
}

-- `Url::from_file_path` of the crate `url`, on paths that are texts
module _ (from_file_path : String → Option String) where
  abbrev uri_or_default : String → String
  uri_or_default path = elim (from_file_path path) [ none ↦ "" | some uri ↦ uri ]

  abbrev with_uri : Members → String → Members
  with_uri extra path =
      if has_key "uri" extra then extra else set_member "uri" (string (uri_or_default path)) extra

  unfoldable pub document_failure : String → String → ℕ → Members → ContractFailure
  document_failure code path exit_code extra = record {
    exit_code = exit_code;
    category = "query";
    code = code;
    message = "A Document could not be synchronized.";
    stage = "synchronize";
    delivery = "not_sent";
    retry = "after_change";
    payload = object (with_uri (set_member "path" (string path) extra) path);
  }

  unfoldable pub document_too_large : String → String → ℕ → ℕ → ContractFailure
  unfolding document_failure
  document_too_large path uri size limit =
      document_failure "document_too_large" path 5
        (members (("uri", string uri) ∷ ("size", nat size) ∷ ("limit", nat limit) ∷ []))

  unfoldable pub file_uri : String → Result ContractFailure String
  unfolding workspace_failure
  file_uri path =
      ok_or (from_file_path path)
        (workspace_failure "A file path cannot be represented as a URI." (path ∷ []))
