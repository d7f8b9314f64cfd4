-- ===== src/Examples/PlanRuns.antt =====
-- A workspace with a directory and a file in it, on a file system of a few paths.
use lspctl.Prelude.{
  String, ◌≡◌, refl, true, false, Option, none, some, List, [], ◌∷◌, Result, ok, err, arith, str_eq,
  if◌then◌else◌,
}
use lspctl.Json.{json, json_array, string, Json}
use lspctl.Map.{Map, lookup}
use lspctl.Map.Order.{IsSorted}
use lspctl.Position.{utf16}
use lspctl.Edits.Plan.{
  ResourceKind, file, directory, ManifestEntry, ResourceState, Planning, rename_operation,
}
use lspctl.Planner.Run.{done}
use lspctl.Planner.Ends.{Ends}
use lspctl.Planner.Paths.{path_starts_with}
use lspctl.Planner.FileSystem.{
  FileSystem, Metadata, Status, found, not_found, DirEntry, regular_file, real_directory,
}
use lspctl.Planner.Load.{Planner, Url, path_from_file_uri, beneath}
use lspctl.Planner.Load.Sorted.{Okay}
use lspctl.Planner.Tree.{load_resource_tree}
use lspctl.Planner.Tree.Fuel.{Kept, load_resource_tree-Kept}
use lspctl.Planner.Subtree.{lookup-beneath}
use lspctl.Planner.Create.{create_loaded}
use lspctl.Planner.Creating.{Creates, create_loaded-Creates}
use lspctl.Planner.Rename.{record_rename}
use lspctl.Planner.Renaming.{renamed, record_rename-renamed}
use lspctl.Planner.Delete.{delete_loaded}
use lspctl.Planner.Deleting.{Deletes, delete_loaded-Deletes}
use lspctl.Planner.Scope.{InWorkspace, path_from_file_uri-InWorkspace}
use lspctl.Planner.Edit.{plan_workspace_edit_with_document_preconditions}
use lspctl.Planner.Sound.Edit.{IsPlanned, plan_workspace_edit-IsPlanned}
use lspctl.Examples.{digest_of}

abbrev a_directory : Metadata
a_directory = record {
  is_symlink = false;
  is_file = false;
  is_dir = true;
  dev = 1;
  ino = 2;
  len = 0;
  blocks = 0;
  nlink = 2;
  mode = 16877;
  uid = 0;
  gid = 0;
}

abbrev a_file : Metadata
a_file = record {
  is_symlink = false;
  is_file = true;
  is_dir = false;
  dev = 1;
  ino = 3;
  len = 2;
  blocks = 8;
  nlink = 1;
  mode = 33188;
  uid = 0;
  gid = 0;
}

-- /w with the directory d, in which the file f stands
abbrev status : String → Status
status path =
    if str_eq path "\0w"
    then found a_directory
    else if str_eq path "\0w\0d"
    then found a_directory
    else if str_eq path "\0w\0d\0f"
    then found a_file
    else not_found

abbrev listing : String → Result String (List (Result String DirEntry))
listing path =
    if str_eq path "\0w\0d"
    then ok (ok (record { name = some "f"; file_type = ok regular_file }) ∷ [])
    else if str_eq path "\0w"
    then ok (ok (record { name = some "d"; file_type = ok real_directory }) ∷ [])
    else err "not a directory"

abbrev file_system : FileSystem
file_system = record {
  symlink_metadata = status;
  metadata = λ path. elim (status path) [ found m ↦ ok m | _ ↦ err "not found" ];
  open_file = λ path. ok (record {
    metadata = ok a_file;
    accessed = ok tt;
    read_to_end = ok (97 ∷ 98 ∷ []);
    restore_accessed = ok tt;
  });
  entries = listing;
  list_attributes = λ path. ok [];
  get_attribute = λ path name. ok none;
  hex_encode = digest_of;
  sha256_hex = digest_of;
}

abbrev parsed : String → Option Url
parsed uri =
    if str_eq uri "file:///w/d"
    then some (record { scheme = "file"; to_file_path = some (some "\0w\0d") })
    else if str_eq uri "file:///w/e"
    then some (record { scheme = "file"; to_file_path = some (some "\0w\0e") })
    else none

abbrev planner : Planner
planner = record {
  workspace = "\0w";
  position_encoding = utf16;
  preview_limits = record {
    max_count = 4;
    max_total_bytes = 1000;
    max_document_text_bytes = 100;
    max_text_bytes = 100;
  };
  mutation_limits = record {
    max_entries = 8;
    max_recursion_depth = 2;
    max_rollback_bytes = 1000;
    max_staged_text_bytes = 100;
    max_preauthorized_callbacks = 0;
  };
  root_device = some 1;
  file_system = file_system;
  parse_url = parsed;
}

abbrev entry_of : String → ResourceKind → ManifestEntry
entry_of path kind = record {
  path = path;
  exists = true;
  resource_kind = kind;
  identity_digest = some "i";
  content_digest = some "c";
  metadata_digest = some "m";
}

abbrev d_state : ResourceState
d_state = record { manifest = entry_of "\0w\0d" directory; text = none; text_source = none }

abbrev f_state : ResourceState
f_state = record {
  manifest = entry_of "\0w\0d\0f" file;
  text = none;
  text_source = some "\0w\0d\0f";
}

abbrev loaded : Map ResourceState
loaded = ("\0w\0d", d_state) ∷ ("\0w\0d\0f", f_state) ∷ []

abbrev planning : Planning
planning = record {
  workspace = record {
    entries = loaded;
    before =
        ("\0w\0d", entry_of "\0w\0d" directory) ∷ ("\0w\0d\0f", entry_of "\0w\0d\0f" file) ∷ [];
    affected = [];
    rollback_bytes = 2;
  };
  operations = [];
  summary = record { files_changed = 0; text_edits = 0; creates = 0; renames = 0; deletes = 0 };
  total_new_text_bytes = 0;
  problems = [];
}

loaded-IsSorted : IsSorted loaded
loaded-IsSorted = ((refl, tt), (tt, tt))

-- renaming d to e
abbrev rename_edit : Json
rename_edit = json (
    (
      "documentChanges",
      json_array (
          json (
            ("kind", string "rename")
            ∷ ("oldUri", string "file:///w/d")
            ∷ ("newUri", string "file:///w/e")
            ∷ [])
          ∷ []),
    )
    ∷ [])

plan_workspace_edit-IsPlanned_example :
    Ends
      (IsPlanned planner)
      (plan_workspace_edit_with_document_preconditions planner rename_edit [])
plan_workspace_edit-IsPlanned_example =
    plan_workspace_edit-IsPlanned planner rename_edit [] (omega arith)

load_resource_tree-Kept_example :
    Ends Kept (load_resource_tree planner planning.workspace "\0w\0d" 0)
load_resource_tree-Kept_example =
    load_resource_tree-Kept planner planning.workspace "\0w\0d" 0
      (loaded-IsSorted, ((refl, tt), (tt, tt)), tt) (omega arith)

path_from_file_uri-InWorkspace_example :
    Okay (InWorkspace planner) (path_from_file_uri planner "file:///w/d" 0)
path_from_file_uri-InWorkspace_example = path_from_file_uri-InWorkspace planner "file:///w/d" 0

record_rename-renamed_example :
    (q : Planning) × (record_rename planner 0 planning "file:///w/d" "file:///w/e" "\0w\0d" "\0w\0e"
        false false
      ≡ done q)
    × ((k : String) → lookup k q.workspace.entries ≡ renamed "\0w\0d" "\0w\0e" loaded k)
    × (q.operations
        ≡ rename_operation 0 "file:///w/d" "file:///w/e" "\0w\0d" "\0w\0e" false false ∷ [])
    × (q.problems ≡ [])
unfolding path_starts_with
record_rename-renamed_example =
    record_rename-renamed "\0w\0d" "\0w\0e" refl refl planner 0 planning "file:///w/d" "file:///w/e"
      false false loaded-IsSorted

delete_loaded-Deletes_example :
    (q : Planning) × (delete_loaded planner 0 planning "file:///w/d" "\0w\0d" true false ≡ done q)
    × Deletes planning 0 "file:///w/d" "\0w\0d" true false d_state q
unfolding lookup
delete_loaded-Deletes_example =
    delete_loaded-Deletes planner 0 planning "file:///w/d" "\0w\0d" true false d_state
      loaded-IsSorted refl

create_loaded-Creates_example :
    (q : Planning) × (create_loaded planner 0 planning "file:///w/d/f" "\0w\0d\0f" true false
      ≡ done q)
    × Creates planner 0 planning "file:///w/d/f" "\0w\0d\0f" true false f_state q
unfolding lookup
create_loaded-Creates_example =
    create_loaded-Creates planner 0 planning "file:///w/d/f" "\0w\0d\0f" true false f_state refl

lookup-beneath_example :
    lookup "\0w\0d\0f" (beneath "\0w\0d" loaded)
    ≡ (if path_starts_with "\0w\0d\0f" "\0w\0d" then lookup "\0w\0d\0f" loaded else none)
lookup-beneath_example = lookup-beneath "\0w\0d\0f" "\0w\0d" loaded loaded-IsSorted
