-- ===== src/Planner/Inspect.antt =====
-- `validate_existing_ancestors`, `inspect_resource`, `directory_children` and the readers under them, of
-- src/mutation/planner.rs: what the planner makes of the file system's answers.
use Prim.Native.String.{◌++◌ as str_append}
use lspctl.Prelude.{
  ℕ, ◌+◌, String, Bool, true, not, ◌&&◌, Option, none, some, List, [], ◌∷◌, Result, ok, err, ◌>>=◌,
  ◌>>◌, map_err, ok_or, if◌then◌else◌, ltb, leb, ◌==◌, length,
}
use lspctl.Json.{Members, no_members, set_member, object, string, nat, json}
use lspctl.Text.{Bytes}
use lspctl.Map.{Map, insert}
use lspctl.Canonical.{digest_canonical_value, digest_raw_bytes}
use lspctl.Edits.{WorkspaceEditProblem, problem}
use lspctl.Edits.Plan.{ResourceKind, file, directory, ResourceState}
use lspctl.Planner.Paths.{strip_prefix, descend, join_name}
use lspctl.Planner.FileSystem.{
  FileSystem, Metadata, found, not_found, failed, DirEntry, regular_file, real_directory,
  other_type, missing_resource, metadata_is_sparse, reason,
}

module _ (fs : FileSystem) (index : ℕ) where
  abbrev unavailable : String → String → String → String → WorkspaceEditProblem
  unavailable code message path text = problem code message (some index) (some path) (reason text)

  unfoldable pub hash_file : String → Result WorkspaceEditProblem String
  unfolding digest_raw_bytes
  hash_file path = do
    handle ←
        map_err
          (unavailable "filesystem_capability_unavailable" "A regular file cannot be opened." path)
          (fs.open_file path)
    _ ←
        map_err
          (unavailable "metadata_unsupported" "A regular file access time cannot be inspected."
            path)
          (handle.metadata >>= λ _. handle.accessed)
    bytes ←
        map_err
          (unavailable "filesystem_capability_unavailable" "A regular file cannot be read." path)
          handle.read_to_end
    _ ←
        map_err
          (unavailable "metadata_unsupported"
            "A regular file access time cannot be restored after inspection." path)
          handle.restore_accessed
    ok (digest_raw_bytes fs.sha256_hex bytes)

  -- a file that is longer than the limit when it is opened is not read
  abbrev check_length : String → ℕ → ℕ → Result WorkspaceEditProblem (Unit {0})
  check_length path limit len =
      if ltb limit len
      then err (
          problem "resource_limit_exceeded" "A text Document exceeds the configured Preview limit."
            (some index) (some path)
            (some (
              json (
                ("resource", string "documentTextBytes")
                ∷ ("limit", nat limit)
                ∷ ("observed", nat len)
                ∷ []))))
      else ok tt

  unfoldable pub read_text_file : String → ℕ → Result WorkspaceEditProblem Bytes
  read_text_file path limit = do
    handle ←
        map_err
          (unavailable "filesystem_capability_unavailable" "A text Document cannot be opened." path)
          (fs.open_file path)
    m ←
        map_err
          (unavailable "filesystem_capability_unavailable" "A text Document cannot be inspected."
            path)
          handle.metadata
    _ ← check_length path limit m.len
    _ ←
        map_err
          (unavailable "metadata_unsupported" "A text Document access time cannot be inspected."
            path)
          handle.accessed
    bytes ←
        map_err
          (unavailable "filesystem_capability_unavailable" "A text Document cannot be read." path)
          handle.read_to_end
    _ ←
        map_err
          (unavailable "metadata_unsupported"
            "A text Document access time cannot be restored after inspection." path)
          handle.restore_accessed
    ok bytes

  unfoldable pub identity_digest : Metadata → String
  unfolding digest_canonical_value
  identity_digest m =
      digest_canonical_value fs.sha256_hex "lspctl-resource-identity-v1"
        (json (("device", nat m.dev) ∷ ("inode", nat m.ino) ∷ []))

  -- the loop over the extended attributes; a name is put in as lossy text
  unfoldable pub collect_attributes :
      String → List String → Members → Result WorkspaceEditProblem Members
  unfolding set_member
  collect_attributes path [] attributes = ok attributes
  collect_attributes path (name ∷ rest) attributes = do
    bytes ←
        map_err (unavailable "metadata_unsupported" "An extended attribute cannot be read." path)
          (fs.get_attribute path name)
    collect_attributes path rest (
        set_member name (string (fs.hex_encode (elim bytes [ none ↦ [] | some b ↦ b ]))) attributes)

  unfoldable pub metadata_digest : String → Metadata → Result WorkspaceEditProblem String
  unfolding digest_canonical_value collect_attributes
  metadata_digest path m = do
    names ←
        map_err
          (unavailable "metadata_unsupported" "Extended attributes cannot be enumerated." path)
          (fs.list_attributes path)
    extended ← collect_attributes path names no_members
    ok (
        digest_canonical_value fs.sha256_hex "lspctl-resource-metadata-v1" (
          json (
            ("mode", nat m.mode)
            ∷ ("uid", nat m.uid)
            ∷ ("gid", nat m.gid)
            ∷ ("extendedAttributes", object extended)
            ∷ [])))

  -- `inspect_resource` after the tests on the metadata
  unfoldable pub inspect_supported :
      ℕ → String → Bool → Metadata → ResourceKind → Result WorkspaceEditProblem ResourceState
  unfolding hash_file read_text_file identity_digest metadata_digest
  inspect_supported max_document_text_bytes path load_text m kind = do
    content ← elim kind [ file ↦ hash_file path >>= λ digest. ok (some digest) | _ ↦ ok none ]
    text ←
        (if load_text
          then read_text_file path max_document_text_bytes >>= (λ bytes. ok (some bytes))
          else ok none)
    extended ← metadata_digest path m
    ok (record {
      manifest = record {
        path = path;
        exists = true;
        resource_kind = kind;
        identity_digest = some (identity_digest m);
        content_digest = content;
        metadata_digest = some extended;
      };
      text = text;
      text_source = elim kind [ file ↦ some path | _ ↦ none ];
    })

  unfoldable pub inspect_resource : ℕ → String → Bool → Result WorkspaceEditProblem ResourceState
  unfolding missing_resource metadata_is_sparse inspect_supported
  inspect_resource max_document_text_bytes path load_text = elim (fs.symlink_metadata path) [
    | not_found ↦ ok (missing_resource path)
    | failed text ↦ err (
        unavailable "filesystem_capability_unavailable" "A filesystem resource cannot be inspected."
          path text)
    | found m ↦
        if m.is_symlink
        then err (
            problem "symlink_or_reparse_point"
              "Symlinks and reparse points are unsupported Mutation resources." (some index)
              (some path) none)
        else if m.is_file && ltb 1 m.nlink
        then err (
            problem "hard_link" "Regular files with multiple hard links are unsupported."
              (some index) (some path) none)
        else if m.is_file && metadata_is_sparse m
        then err (
            problem "sparse_file_unsupported" "Sparse files are unsupported Mutation resources."
              (some index) (some path) none)
        else if m.is_file
        then inspect_supported max_document_text_bytes path load_text m file
        else if m.is_dir
        then inspect_supported max_document_text_bytes path load_text m directory
        else err (
            problem "unsupported_resource_kind"
              "The Mutation resource is not a regular file or directory." (some index) (some path)
              none)
  ]

  module _ (root : String) (root_device : Option ℕ) where
    -- `metadata_device(&metadata) != self.root_device`
    abbrev pub other_device : Metadata → Bool
    other_device m = elim root_device [ none ↦ true | some d ↦ not (m.dev == d) ]

    -- the loop of `validate_existing_ancestors`, over the relative places beneath the root
    unfoldable pub validate_places : List String → Result WorkspaceEditProblem (Unit {0})
    validate_places [] = ok tt
    validate_places (relative ∷ rest) =
        let current = str_append root relative in
        let later = validate_places rest in
        elim (fs.symlink_metadata current) [
          | not_found ↦ ok tt
          | failed text ↦ err (
              unavailable "filesystem_capability_unavailable" "A Mutation path cannot be inspected."
                current text)
          | found m ↦
              if m.is_symlink
              then err (
                  problem "symlink_or_reparse_point"
                    "Mutation paths cannot traverse symlinks or reparse points." (some index)
                    (some current) none)
              else if other_device m
              then err (
                  problem "volume_boundary"
                    "Mutation paths cannot cross a nested filesystem volume." (some index)
                    (some current) none)
              else later
        ]

    unfoldable pub validate_existing_ancestors : String → Result WorkspaceEditProblem (Unit {0})
    unfolding validate_places descend
    validate_existing_ancestors path = elim (strip_prefix path root) [
      | none ↦ err (
          problem "outside_workspace" "The Mutation path is outside the Workspace." (some index)
            (some path) none)
      | some relative ↦ validate_places (descend relative)
    ]

    abbrev too_many : String → ℕ → ℕ → WorkspaceEditProblem
    too_many path limit observed =
        problem "resource_limit_exceeded" "A directory has too many entries." (some index)
          (some path)
          (some (
            json (
              ("resource", string "entries")
              ∷ ("limit", nat limit)
              ∷ ("observed", nat observed)
              ∷ [])))

    abbrev entry_kind : String → String → DirEntry → Result WorkspaceEditProblem ResourceKind
    entry_kind path child entry = elim entry.file_type [
      | err text ↦ err (
          unavailable "filesystem_capability_unavailable" "A directory cannot be enumerated." path
            text)
      | ok kind ↦ elim kind [
        | regular_file ↦ ok file
        | real_directory ↦ ok directory
        | other_type ↦ err (
            problem "unsupported_resource_kind"
              "The Mutation resource is not a regular file or directory." (some index) (some child)
              none)
      ]
    ]

    -- the loop of `directory_children`
    unfoldable pub collect_children :
        ℕ
        → String
        → List (Result String DirEntry)
        → Map ResourceKind
        → Result WorkspaceEditProblem (Map ResourceKind)
    unfolding validate_existing_ancestors insert
    collect_children max_entries path [] children = ok children
    collect_children max_entries path (entry ∷ rest) children = do
      e ←
          map_err
            (unavailable "filesystem_capability_unavailable" "A directory cannot be enumerated."
              path)
            entry
      name ← ok_or e.name (
          problem "unsupported_resource_kind"
            "Directory child names must be representable as UTF-8 JSON strings." (some index)
            (some path) none)
      validate_existing_ancestors (join_name path name)
      kind ← entry_kind path (join_name path name) e
      let next = insert name kind children in
          let others = collect_children max_entries path rest next in
          if leb max_entries (length next)
          then err (too_many path max_entries (length next + 1))
          else others

    unfoldable pub directory_children : ℕ → String → Result WorkspaceEditProblem (Map ResourceKind)
    unfolding collect_children validate_existing_ancestors
    directory_children max_entries path = do
      validate_existing_ancestors path
      entries ←
          map_err
            (unavailable "filesystem_capability_unavailable" "A directory cannot be enumerated."
              path)
            (fs.entries path)
      collect_children max_entries path entries []
