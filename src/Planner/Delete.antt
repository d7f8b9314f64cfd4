-- ===== src/Planner/Delete.antt =====
-- `plan_delete_operation` of src/mutation/planner.rs.
use lspctl.Prelude.{
  ℕ, String, Bool, not, ◌&&◌, none, some, List, [], ◌∷◌, ◌++◌, ok, err, if◌then◌else◌, ltb, length,
  u64_max, saturating_add,
}
use lspctl.Json.{Members}
use lspctl.Map.{Map, lookup}
use lspctl.Edits.{option_bool}
use lspctl.Edits.Plan.{ResourceState, Planning, delete_operation}
use lspctl.Planner.Run.{Run, done, ◌>>=◌ as bind, unwrap}
use lspctl.Planner.Load.{Planner, beneath, is_directory, path_from_file_uri}
use lspctl.Planner.Tree.{load_resource_tree}
use lspctl.Planner.Operations.{
  str_field, options_of, clear_paths, reports, fault_at, after, guards, missing_uri,
}

-- the paths of a subtree that exist
unfoldable pub existing_paths : Map ResourceState → List String
existing_paths [] = []
existing_paths ((path, state) ∷ rest) =
    if state.manifest.exists then path ∷ existing_paths rest else existing_paths rest

module _ (planner : Planner) (index : ℕ) where
  -- `plan_delete_operation` where nothing stands in the way
  unfoldable pub record_delete : Planning → String → String → Bool → Bool → Planning
  unfolding beneath existing_paths clear_paths saturating_add
  record_delete p uri path recursive ignore_if_not_exists = record p {
    workspace = clear_paths (existing_paths (beneath path p.workspace.entries)) p.workspace;
    summary = record (p.summary) { deletes = saturating_add u64_max p.summary.deletes 1 };
    operations =
        p.operations ++ delete_operation index uri path recursive ignore_if_not_exists ∷ [];
  }

  -- from the loaded tree on
  unfoldable pub delete_loaded : Planning → String → String → Bool → Bool → Run Planning
  unfolding lookup beneath existing_paths record_delete
  delete_loaded p uri path recursive ignore_if_not_exists =
      bind (unwrap (lookup path p.workspace.entries)) (λ source.
        if not source.manifest.exists
        then (if ignore_if_not_exists
            then done p
            else fault_at planner index "source_missing" "DeleteFile target does not exist." path p)
        else let subtree = existing_paths (beneath path p.workspace.entries) in
          if is_directory source.manifest.resource_kind && ltb 1 (length subtree) && not recursive
          then fault_at planner index "directory_not_empty"
              "Deleting a non-empty directory requires recursive=true." path p
          else done (record_delete p uri path recursive ignore_if_not_exists))

  unfoldable pub plan_delete_operation : Planning → Members → Members → Run Planning
  unfolding path_from_file_uri delete_loaded load_resource_tree
  plan_delete_operation p operation annotations =
      elim (guards planner index operation annotations
        ("kind" ∷ "uri" ∷ "options" ∷ "annotationId" ∷ [])
        ("recursive" ∷ "ignoreIfNotExists" ∷ [])) [
          | err fault ↦ reports planner index p fault
          | ok _ ↦ elim (str_field "uri" operation) [
            | none ↦
                reports planner index p (missing_uri planner index "DeleteFile is missing uri.")
            | some uri ↦ elim (path_from_file_uri planner uri index) [
              | err fault ↦ reports planner index p fault
              | ok path ↦
                  after planner index p (load_resource_tree planner p.workspace path index) (λ q.
                    delete_loaded q uri path (option_bool (options_of operation) "recursive")
                      (option_bool (options_of operation) "ignoreIfNotExists"))
            ]
          ]
        ]
