-- ===== src/Planner/Load.antt =====
-- `WorkspaceEditPlanner`, `path_from_file_uri`, `load_exact_resource` and `require_existing_parent` of
-- src/mutation/planner.rs. The URI parser of the crate url is a parameter.
pub mod Sorted
use lspctl.Prelude.{
  ℕ, String, Bool, true, false, not, ◌&&◌, ◌||◌, Option, none, some, List, [], ◌∷◌, Result, ok, err,
  ◌>>=◌, ◌>>◌, ok_or, if◌then◌else◌, str_eq, u64_max, saturating_add,
}
use lspctl.Json.{string, json}
use lspctl.Text.{Bytes}
use lspctl.Map.{Map, lookup, insert, range_from}
use lspctl.Position.{PositionEncoding}
use lspctl.Edits.{WorkspaceEditProblem, problem}
use lspctl.Edits.Plan.{
  ResourceKind, file, directory, missing, ManifestEntry, ResourceState, VirtualWorkspace,
  is_regular,
}
use lspctl.Planner.Uri.{uri_contains_path_traversal}
use lspctl.Planner.Run.{Run, done, panicked}
use lspctl.Planner.Paths.{path_starts_with, ancestors, parent, lexically_beneath}
use lspctl.Planner.FileSystem.{
  FileSystem, found, PreviewSettings, MutationSettings, missing_resource, resource_rollback_bytes,
}
use lspctl.Planner.Inspect.{read_text_file, inspect_resource, validate_existing_ancestors}

-- `url::Url`: the scheme, and `to_file_path`, which may fail and may give a path that is not UTF-8
pub record Url : Type 0 where
  pub scheme : String
  pub to_file_path : Option (Option String)

-- with what the crates and the file system answer
pub record Planner : Type 0 where
  pub workspace : String
  pub position_encoding : PositionEncoding
  pub preview_limits : PreviewSettings
  pub mutation_limits : MutationSettings
  pub root_device : Option ℕ
  pub file_system : FileSystem
  pub parse_url : String → Option Url

abbrev pub is_directory : ResourceKind → Bool
is_directory directory = true
is_directory _ = false

-- `entries.get(ancestor).is_some_and(|state| !state.manifest.exists)` of any of the ancestors
unfoldable pub any_missing : List String → Map ResourceState → Bool
unfolding lookup
any_missing [] entries = false
any_missing (q ∷ rest) entries =
    elim (lookup q entries) [ none ↦ false | some state ↦ not state.manifest.exists ]
    || any_missing rest entries

-- `range(path..).take_while(|(candidate, _)| candidate.starts_with(path))`
unfoldable pub take_beneath {ℓ} : {V : Type ℓ} → String → Map V → Map V
unfolding path_starts_with
take_beneath path [] = []
take_beneath path ((j, v) ∷ m) =
    if path_starts_with j path then (j, v) ∷ take_beneath path m else []

unfoldable pub beneath {ℓ} : {V : Type ℓ} → String → Map V → Map V
unfolding take_beneath range_from
beneath path m = take_beneath path (range_from path m)

module _ (planner : Planner) where
  abbrev fs : FileSystem
  fs = planner.file_system

  -- the last tests of `path_from_file_uri`, on a path
  unfoldable pub check_path : ℕ → String → Result WorkspaceEditProblem String
  unfolding lexically_beneath validate_existing_ancestors
  check_path index path =
      if str_eq path planner.workspace
      then err (
          problem "workspace_root_mutation" "The Workspace root cannot be mutated." (some index)
            (some path) none)
      else if not (lexically_beneath planner.workspace path)
      then err (
          problem "outside_workspace" "The Mutation path is outside the Workspace." (some index)
            (some path) none)
      else validate_existing_ancestors fs index planner.workspace planner.root_device path
        >> ok path

  unfoldable pub path_from_file_uri : String → ℕ → Result WorkspaceEditProblem String
  unfolding uri_contains_path_traversal check_path
  path_from_file_uri raw index =
      if uri_contains_path_traversal raw
      then err (uri_problem "path_traversal" "Mutation URIs cannot contain dot path segments.")
      else ok_or (planner.parse_url raw)
          (uri_problem "malformed_uri" "The operation URI is malformed.")
        >>= λ uri.
            if not (str_eq uri.scheme "file")
            then err (uri_problem "unsupported_uri_scheme" "Mutation supports only file: URIs.")
            else ok_or uri.to_file_path
                (uri_problem "malformed_uri" "The file URI cannot be converted to a native path.")
              >>= λ native.
                  ok_or native (
                    uri_problem "malformed_uri"
                      "Mutation paths must be representable as UTF-8 JSON strings.")
                  >>= check_path index
    where
      uri_problem : String → String → WorkspaceEditProblem
      uri_problem code message =
          problem code message (some index) none (some (json (("uri", string raw) ∷ [])))

  -- whether the text of a resource is to be read
  abbrev pub lacks_text : ResourceState → Bool
  lacks_text state = elim state.text [
    | some bytes ↦ false
    | none ↦ state.manifest.exists && is_regular state.manifest.resource_kind
  ]

  unfoldable pub inspected : String → ℕ → Bool → Result WorkspaceEditProblem ResourceState
  unfolding inspect_resource
  inspected path index load_text =
      inspect_resource fs index planner.preview_limits.max_document_text_bytes path load_text

  unfoldable pub read_source :
      VirtualWorkspace
      → String
      → ResourceState
      → String
      → ℕ
      → Result WorkspaceEditProblem VirtualWorkspace
  unfolding validate_existing_ancestors read_text_file insert
  read_source w path state source index = do
    validate_existing_ancestors fs index planner.workspace planner.root_device source
    bytes ← read_text_file fs index source planner.preview_limits.max_document_text_bytes
    ok (record w { entries = insert path (record state { text = some bytes }) w.entries })

  -- a resource that is seen for the first time
  unfoldable pub remember : VirtualWorkspace → String → ResourceState → VirtualWorkspace
  unfolding resource_rollback_bytes insert
  remember w path state = record {
    entries = insert path state w.entries;
    before = insert path state.manifest w.before;
    affected = w.affected;
    rollback_bytes =
        if state.manifest.exists
        then saturating_add u64_max w.rollback_bytes (resource_rollback_bytes fs state.manifest)
        else w.rollback_bytes;
  }

  unfoldable pub load_exact_resource :
      VirtualWorkspace → String → ℕ → Bool → Run (Result WorkspaceEditProblem VirtualWorkspace)
  unfolding lookup any_missing ancestors read_source remember inspected missing_resource
  load_exact_resource w path index load_text = elim (lookup path w.entries) [
    | some state ↦
        if load_text && lacks_text state
        then elim state.text_source [
          | none ↦ panicked
          | some source ↦ done (read_source w path state source index)
        ]
        else done (ok w)
    | none ↦
        let state : Result WorkspaceEditProblem ResourceState =
          if any_missing (ancestors path) w.entries
          then ok (missing_resource path)
          else inspected path index load_text in
        done (state >>= λ s. ok (remember w path s))
  ]

  unfoldable pub require_existing_parent :
      VirtualWorkspace → String → ℕ → Result WorkspaceEditProblem (Unit {0})
  unfolding lookup parent
  require_existing_parent w path index =
      let above : String = elim (parent path) [ none ↦ planner.workspace | some q ↦ q ] in
      elim (lookup above w.entries) [
        | some state ↦
            if is_directory state.manifest.resource_kind then ok tt else not_directory above
        | none ↦ elim (fs.symlink_metadata above) [
          | found m ↦ if m.is_dir then ok tt else not_directory above
          | _ ↦ err (
              problem "parent_missing" "The operation parent directory does not exist." (some index)
                (some above) none)
        ]
      ]
    where
      not_directory : String → Result WorkspaceEditProblem (Unit {0})
      not_directory above = err (
          problem "parent_missing" "The operation parent is not a directory." (some index)
            (some above) none)
