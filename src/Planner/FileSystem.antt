-- ===== src/Planner/FileSystem.antt =====
-- What src/mutation/planner.rs asks the file system, on Unix, its settings, and a resource that is missing.
-- The file system is a parameter; its answers stay the same while one edit is planned.
use Prim.Native.Nat.{min}
use lspctl.Prelude.{
  ℕ, ◌*◌, String, Bool, false, ◌&&◌, Option, none, some, List, [], ◌∷◌, Result, ok, err, ltb,
  u64_max,
}
use lspctl.Json.{Json, Members, no_members, set_member, object, string, json}
use lspctl.Text.{Bytes}
use lspctl.Map.{Map}
use lspctl.Canonical.{digest_canonical_value}
use lspctl.Edits.Plan.{ResourceKind, file, directory, missing, ManifestEntry, ResourceState}
use lspctl.Planner.Paths.{ancestors}

-- `std::fs::Metadata`, what is read of it
pub record Metadata : Type 0 where
  pub is_symlink : Bool
  pub is_file : Bool
  pub is_dir : Bool
  pub dev : ℕ
  pub ino : ℕ
  pub len : ℕ
  pub blocks : ℕ
  pub nlink : ℕ
  pub mode : ℕ
  pub uid : ℕ
  pub gid : ℕ

-- the answer for a path without following a link; a failure has a text
pub data Status : Type 0 where
  found : Metadata → Status
  not_found : Status
  failed : String → Status

-- an open file: its metadata, its access time, its bytes, and the restoring of the access time
pub record OpenFile : Type 0 where
  pub metadata : Result String Metadata
  pub accessed : Result String (Unit {0})
  pub read_to_end : Result String Bytes
  pub restore_accessed : Result String (Unit {0})

pub data FileType : Type 0 where
  regular_file real_directory other_type : FileType

-- an entry of a directory: its name, where that is UTF-8, and its type
pub record DirEntry : Type 0 where
  pub name : Option String
  pub file_type : Result String FileType

pub record FileSystem : Type 0 where
  pub symlink_metadata : String → Status
  pub metadata : String → Result String Metadata
  pub open_file : String → Result String OpenFile
  -- `open_dir_nofollow` and `entries`, which may fail at each entry
  pub entries : String → Result String (List (Result String DirEntry))
  pub list_attributes : String → Result String (List String)
  pub get_attribute : String → String → Result String (Option Bytes)
  pub hex_encode : Bytes → String
  pub sha256_hex : Bytes → String

pub record PreviewSettings : Type 0 where
  pub max_count : ℕ
  pub max_total_bytes : ℕ
  pub max_document_text_bytes : ℕ
  pub max_text_bytes : ℕ

-- without the timeout of the Application lock, which planning does not read
pub record MutationSettings : Type 0 where
  pub max_entries : ℕ
  pub max_recursion_depth : ℕ
  pub max_rollback_bytes : ℕ
  pub max_staged_text_bytes : ℕ
  pub max_preauthorized_callbacks : ℕ

unfoldable pub missing_manifest : String → ManifestEntry
missing_manifest path = record {
  path = path;
  exists = false;
  resource_kind = missing;
  identity_digest = none;
  content_digest = none;
  metadata_digest = none;
}

unfoldable pub missing_resource : String → ResourceState
unfolding missing_manifest
missing_resource path = record { manifest = missing_manifest path; text = none; text_source = none }

-- `metadata.len() > 0 && metadata.blocks().saturating_mul(512) < metadata.len()`
unfoldable pub metadata_is_sparse : Metadata → Bool
metadata_is_sparse m = ltb 0 m.len && ltb (min u64_max (m.blocks * 512)) m.len

abbrev kind_name : ResourceKind → String
kind_name file = "file"
kind_name directory = "directory"
kind_name missing = "missing"

abbrev children_json : Map ResourceKind → Members
children_json [] = no_members
children_json ((name, kind) ∷ rest) = set_member name (string (kind_name kind)) (children_json rest)

abbrev pub reason : String → Option Json
reason text = some (json (("reason", string text) ∷ []))

module _ (fs : FileSystem) where
  unfoldable pub directory_membership_digest : Map ResourceKind → String
  unfolding digest_canonical_value
  directory_membership_digest children =
      digest_canonical_value fs.sha256_hex "lspctl-directory-membership-v1"
        (object (children_json children))

  -- `resource_rollback_bytes`
  unfoldable pub resource_rollback_bytes : ManifestEntry → ℕ
  resource_rollback_bytes entry = elim entry.resource_kind [
    | file ↦ elim (fs.metadata entry.path) [ ok m ↦ m.len | err _ ↦ u64_max ]
    | _ ↦ 0
  ]

  -- the loop of `nearest_existing_device`
  unfoldable pub first_device : List String → Option ℕ
  first_device [] = none
  first_device (path ∷ rest) = elim (fs.metadata path) [
    | ok m ↦ some m.dev
    | err _ ↦ first_device rest
  ]

  unfoldable pub nearest_existing_device : String → Option ℕ
  unfolding ancestors first_device
  nearest_existing_device path = first_device (path ∷ ancestors path)
