-- ===== src/Planner/Create.antt =====
-- `plan_create_operation` of src/mutation/planner.rs.
use lspctl.Prelude.{
  ℕ, String, Bool, true, false, not, ◌&&◌, none, some, [], ◌∷◌, ◌++◌, ok, err, if◌then◌else◌,
  u64_max, saturating_add,
}
use lspctl.Json.{Members}
use lspctl.Map.{lookup}
use lspctl.Edits.{option_bool}
use lspctl.Edits.Plan.{file, ResourceState, Planning, create_operation, is_regular}
use lspctl.Canonical.{digest_raw_bytes}
use lspctl.Planner.Run.{Run, done, ◌>>=◌ as bind, unwrap}
use lspctl.Planner.FileSystem.{missing_resource}
use lspctl.Planner.Load.{Planner, path_from_file_uri, require_existing_parent}
use lspctl.Planner.Tree.{load_exact}
use lspctl.Planner.Operations.{
  str_field, options_of, set_entry, reports, fault_at, after, guards, missing_uri,
}

module _ (planner : Planner) (index : ℕ) where
  unfoldable pub created : ResourceState → String → ResourceState
  unfolding missing_resource digest_raw_bytes
  created current path =
      let base : ResourceState =
        if current.manifest.exists then current else missing_resource path in
      record {
        manifest = record (base.manifest) {
          exists = true;
          resource_kind = file;
          content_digest = some (digest_raw_bytes planner.file_system.sha256_hex []);
        };
        text = some [];
        text_source = none;
      }

  -- `plan_create_operation` where nothing stands in the way
  unfoldable pub record_create : Planning → String → String → Bool → Bool → ResourceState → Planning
  unfolding saturating_add set_entry created
  record_create p uri path overwrite ignore_if_exists current = record p {
    workspace = set_entry path (created current path) p.workspace;
    summary = record (p.summary) { creates = saturating_add u64_max p.summary.creates 1 };
    operations = p.operations ++ create_operation index uri path overwrite ignore_if_exists ∷ [];
  }

  -- from the loaded resource on
  unfoldable pub create_at : Planning → String → String → Bool → Bool → ResourceState → Run Planning
  unfolding record_create require_existing_parent
  create_at p uri path overwrite ignore_if_exists current =
      if current.manifest.exists && not overwrite
      then (if ignore_if_exists
          then done p
          else fault_at planner index "target_exists" "CreateFile target already exists." path p)
      else if current.manifest.exists && not (is_regular current.manifest.resource_kind)
      then fault_at planner index "resource_kind_mismatch"
          "CreateFile overwrite requires a regular file target." path p
      else elim (if current.manifest.exists
          then ok tt
          else require_existing_parent planner p.workspace path index) [
            | err fault ↦ reports planner index p fault
            | ok _ ↦ done (record_create p uri path overwrite ignore_if_exists current)
          ]

  unfoldable pub create_loaded : Planning → String → String → Bool → Bool → Run Planning
  unfolding lookup create_at
  create_loaded p uri path overwrite ignore_if_exists =
      bind (unwrap (lookup path p.workspace.entries))
        (create_at p uri path overwrite ignore_if_exists)

  unfoldable pub plan_create_operation : Planning → Members → Members → Run Planning
  unfolding path_from_file_uri create_loaded
  plan_create_operation p operation annotations =
      elim (guards planner index operation annotations
        ("kind" ∷ "uri" ∷ "options" ∷ "annotationId" ∷ []) ("overwrite" ∷ "ignoreIfExists" ∷ [])) [
          | err fault ↦ reports planner index p fault
          | ok _ ↦ elim (str_field "uri" operation) [
            | none ↦
                reports planner index p (missing_uri planner index "CreateFile is missing uri.")
            | some uri ↦ elim (path_from_file_uri planner uri index) [
              | err fault ↦ reports planner index p fault
              | ok path ↦
                  after planner index p (load_exact planner index p.workspace path false) (λ q.
                    create_loaded q uri path (option_bool (options_of operation) "overwrite")
                      (option_bool (options_of operation) "ignoreIfExists"))
            ]
          ]
        ]
