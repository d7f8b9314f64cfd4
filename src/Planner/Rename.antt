-- ===== src/Planner/Rename.antt =====
-- `plan_rename_operation` of src/mutation/planner.rs.
use lspctl.Prelude.{
  ℕ, String, Bool, false, not, ◌&&◌, ◌||◌, none, some, [], ◌∷◌, ◌++◌, ok, err, if◌then◌else◌,
  str_eq, u64_max, saturating_add,
}
use lspctl.Json.{Members}
use lspctl.Map.{Map, lookup, keys}
use lspctl.Edits.{option_bool}
use lspctl.Edits.Plan.{ResourceState, VirtualWorkspace, Planning, rename_operation}
use lspctl.Planner.Run.{Run, done, panicked, ◌>>=◌ as bind, unwrap}
use lspctl.Planner.Paths.{path_starts_with, strip_prefix, join}
use lspctl.Planner.FileSystem.{missing_resource, nearest_existing_device}
use lspctl.Planner.Load.{
  Planner, beneath, is_directory, path_from_file_uri, require_existing_parent,
}
use lspctl.Planner.Tree.{load_exact, load_resource_tree}
use lspctl.Planner.Operations.{
  str_field, options_of, same_kind, same_device, set_entry, clear_paths, reports, fault_at, after,
  guards, missing_uri,
}

-- where a path beneath the old place is after the renaming
unfoldable pub target_of : String → String → String → Run String
unfolding strip_prefix
target_of old_path new_path path = elim (strip_prefix path old_path) [
  | none ↦ panicked
  | some relative ↦ done (join new_path relative)
]

-- the loop over the moved resources
unfoldable pub move_states :
    String → String → Map ResourceState → VirtualWorkspace → Run VirtualWorkspace
unfolding target_of missing_resource set_entry
move_states old_path new_path [] w = done w
move_states old_path new_path ((path, state) ∷ moved) w =
    bind (target_of old_path new_path path) (λ target. move_states old_path new_path moved (
      set_entry target (record state { manifest = record (state.manifest) { path = target } })
        (set_entry path (missing_resource path) w)))

unfoldable pub move_tree : String → String → VirtualWorkspace → Run VirtualWorkspace
unfolding beneath keys clear_paths move_states
move_tree old_path new_path w =
    move_states old_path new_path (beneath old_path w.entries)
      (clear_paths (keys (beneath new_path w.entries)) w)

module _ (planner : Planner) (index : ℕ) where
  -- `plan_rename_operation` where nothing stands in the way
  unfoldable pub record_rename :
      Planning → String → String → String → String → Bool → Bool → Run Planning
  unfolding saturating_add move_tree
  record_rename p old_uri new_uri old_path new_path overwrite ignore_if_exists =
      bind (move_tree old_path new_path p.workspace) (λ w. done (record p {
        workspace = w;
        summary = record (p.summary) { renames = saturating_add u64_max p.summary.renames 1 };
        operations =
            p.operations
            ++ rename_operation index old_uri new_uri old_path new_path overwrite ignore_if_exists
              ∷ [];
      }))

  -- from the loaded destination on
  unfoldable pub rename_ready :
      Planning → String → String → String → String → Bool → Bool → Run Planning
  unfolding require_existing_parent nearest_existing_device record_rename
  rename_ready p old_uri new_uri old_path new_path overwrite ignore_if_exists =
      elim (require_existing_parent planner p.workspace new_path index) [
        | err fault ↦ reports planner index p fault
        | ok _ ↦
            if not (
              same_device (nearest_existing_device planner.file_system old_path)
                (nearest_existing_device planner.file_system new_path))
            then fault_at planner index "cross_volume_rename"
                "RenameFile cannot cross filesystem volumes." new_path p
            else record_rename p old_uri new_uri old_path new_path overwrite ignore_if_exists
      ]

  -- from the two loaded resources on
  unfoldable pub rename_loaded :
      Planning → String → String → String → String → Bool → Bool → Run Planning
  unfolding lookup rename_ready load_resource_tree
  rename_loaded p old_uri new_uri old_path new_path overwrite ignore_if_exists =
      bind (unwrap (lookup old_path p.workspace.entries)) (λ source.
        if not source.manifest.exists
        then fault_at planner index "source_missing" "RenameFile source does not exist." old_path p
        else bind (unwrap (lookup new_path p.workspace.entries)) (λ destination.
          if destination.manifest.exists && not overwrite
          then (if ignore_if_exists
              then done p
              else fault_at planner index "target_exists" "RenameFile destination already exists."
                  new_path p)
          else if destination.manifest.exists
              && not (same_kind destination.manifest.resource_kind source.manifest.resource_kind)
          then fault_at planner index "resource_kind_mismatch"
              "RenameFile overwrite requires matching resource kinds." new_path p
          else if is_directory destination.manifest.resource_kind
          then after planner index p (load_resource_tree planner p.workspace new_path index)
              (λ q. rename_ready q old_uri new_uri old_path new_path overwrite ignore_if_exists)
          else rename_ready p old_uri new_uri old_path new_path overwrite ignore_if_exists))

  -- from the two paths on
  unfoldable pub rename_paths :
      Planning → String → String → String → String → Bool → Bool → Run Planning
  unfolding path_starts_with rename_loaded load_resource_tree
  rename_paths p old_uri new_uri old_path new_path overwrite ignore_if_exists =
      if str_eq old_path new_path
      then fault_at planner index "resource_alias"
          "RenameFile source and destination identify the same path." old_path p
      else if path_starts_with old_path new_path || path_starts_with new_path old_path
      then fault_at planner index "ambiguous_path_sequence"
          "RenameFile cannot move a path into its own ancestor or descendant." old_path p
      else after planner index p (load_resource_tree planner p.workspace old_path index) (λ q.
        after planner index q (load_exact planner index q.workspace new_path false)
          (λ r. rename_loaded r old_uri new_uri old_path new_path overwrite ignore_if_exists))

  unfoldable pub plan_rename_operation : Planning → Members → Members → Run Planning
  unfolding path_from_file_uri rename_paths
  plan_rename_operation p operation annotations =
      elim (guards planner index operation annotations
        ("kind" ∷ "oldUri" ∷ "newUri" ∷ "options" ∷ "annotationId" ∷ [])
        ("overwrite" ∷ "ignoreIfExists" ∷ [])) [
          | err fault ↦ reports planner index p fault
          | ok _ ↦ elim (str_field "oldUri" operation) [
            | none ↦
                reports planner index p
                  (missing_uri planner index "RenameFile requires oldUri and newUri.")
            | some old_uri ↦ elim (str_field "newUri" operation) [
              | none ↦
                  reports planner index p
                    (missing_uri planner index "RenameFile requires oldUri and newUri.")
              | some new_uri ↦ elim (path_from_file_uri planner old_uri index) [
                | err fault ↦ reports planner index p fault
                | ok old_path ↦ elim (path_from_file_uri planner new_uri index) [
                  | err fault ↦ reports planner index p fault
                  | ok new_path ↦
                      rename_paths p old_uri new_uri old_path new_path
                        (option_bool (options_of operation) "overwrite")
                        (option_bool (options_of operation) "ignoreIfExists")
                ]
              ]
            ]
          ]
        ]
