-- ===== src/Planner/Sound/Operations.antt =====
-- The four operations on a planning, each from its guards on.
use mathlib.Core.Path.{subst}
use lspctl.Prelude.{
  ℕ, ◌<◌, String, ◌≡◌, Bool, true, false, not, ◌&&◌, ◌||◌, Option, some, [], ◌∷◌, ok, err, if_rule,
  option_rule, result_rule, str_eq, u64_max, length, if◌then◌else◌, ltb,
}
use lspctl.Json.{Json, Members}
use lspctl.Map.{Map, lookup, keys}
use lspctl.Edits.{problem, option_bool}
use lspctl.Edits.Plan.{ResourceState, VirtualWorkspace, Planning, is_regular, stale_version}
use lspctl.Canonical.{digest_raw_bytes}
use lspctl.Planner.Run.{Run, unwrap}
use lspctl.Planner.Ends.{Ends, bind-Ends, unwrap-Ends}
use lspctl.Planner.Paths.{path_starts_with, strip_prefix}
use lspctl.Planner.FileSystem.{missing_resource, nearest_existing_device}
use lspctl.Planner.Load.{
  Planner, beneath, is_directory, path_from_file_uri, require_existing_parent,
}
use lspctl.Planner.Load.Sorted.{IsOrdered, Okay}
use lspctl.Planner.Tree.{Loaded, load_exact, load_resource_tree}
use lspctl.Planner.Tree.Fuel.{Kept, load_exact-Kept, load_resource_tree-Kept}
use lspctl.Planner.Operations.{
  reports, after, guards, str_field, options_of, same_kind, same_device, set_entry, clear_paths,
  plan_text_operation,
}
use lspctl.Planner.Create.{created, record_create, create_at, create_loaded, plan_create_operation}
use lspctl.Planner.Rename.{
  target_of, move_states, move_tree, record_rename, rename_ready, rename_loaded, rename_paths,
  plan_rename_operation,
}
use lspctl.Planner.Delete.{existing_paths, record_delete, delete_loaded, plan_delete_operation}
use lspctl.Planner.Scope.{InWorkspace, InScope, IsSound, All-snoc, path_from_file_uri-InWorkspace}
use lspctl.Planner.Sound.{set_entry-IsOrdered, clear_paths-IsOrdered, plan_loaded-Sound}

move_states-IsOrdered :
    (old_path new_path : String) (moved : Map ResourceState) (w : VirtualWorkspace)
    → IsOrdered w
    → Ends IsOrdered (move_states old_path new_path moved w)
unfolding move_states target_of
move_states-IsOrdered old_path new_path [] w h = h
move_states-IsOrdered old_path new_path ((path, state) ∷ moved) w h =
    bind-Ends (λ target. Unit {0}) IsOrdered (target_of old_path new_path path) _
      (target_of-Ends path)
      (λ target _.
        move_states-IsOrdered old_path new_path moved
          (set_entry target _ (set_entry path (missing_resource path) w))
          (set_entry-IsOrdered target _ (set_entry path (missing_resource path) w)
            (set_entry-IsOrdered path (missing_resource path) w h)))
  where
    target_of-Ends : (path : String) → Ends (λ target. Unit {0}) (target_of old_path new_path path)
    target_of-Ends path =
        option_rule (Ends (λ target. Unit {0})) (strip_prefix path old_path) _ _ (λ n. tt)
          (λ relative e. tt)

module _ (planner : Planner) (index : ℕ)
    (bounded : planner.mutation_limits.max_recursion_depth < u64_max) where
  abbrev Sound : Planning → Type 0
  Sound = IsSound planner

  after-Sound :
      (p : Planning) (loading : Run Loaded) (go : Planning → Run Planning)
      → Sound p
      → Ends Kept loading
      → ((q : Planning) → Sound q → Ends Sound (go q))
      → Ends Sound (after planner index p loading go)
  after-Sound p loading go h kept g =
      bind-Ends Kept Sound loading _ kept (λ loaded o. went loaded o)
    where
      went :
          (loaded : Loaded)
          → Kept loaded
          → Ends Sound (
              let q = record p { workspace = loaded.0 } in
              elim loaded.1 [ err fault ↦ reports planner index q fault | ok _ ↦ go q ])
      went (w, err fault) o = (o, h.1)
      went (w, ok u) o = g (record p { workspace = w }) (o, h.1)

  -- the path of an accepted URI
  path_at :
      (uri path : String)
      → path_from_file_uri planner uri index ≡ ok path
      → InWorkspace planner path
  path_at uri path e =
      subst (Okay (InWorkspace planner)) e (path_from_file_uri-InWorkspace planner uri index)

  pub plan_text_operation-Sound :
      (p : Planning) (uri : String) (edits_value : Json) (annotations : Members)
      (expected : Option String)
      → Sound p
      → Ends Sound (plan_text_operation planner index p uri edits_value annotations expected)
  unfolding plan_text_operation
  plan_text_operation-Sound p uri edits_value annotations expected h =
      result_rule (Ends Sound) (path_from_file_uri planner uri index) _ _ (λ fault _. h)
        (λ path e.
          after-Sound p (load_exact planner index p.workspace path true) _ h
            (load_exact-Kept planner index p.workspace path true h.0)
            (λ q s.
              option_rule (Ends Sound) (stale_version q path expected) _
                (λ details. reports planner index q (
                  problem "invalid_document_version"
                    "The synchronized Document content no longer matches the originating version."
                    (some index) (some path) (some details)))
                (λ n.
                  plan_loaded-Sound planner (digest_raw_bytes planner.file_system.sha256_hex) index
                    uri path (path_at uri path e) q edits_value annotations
                    planner.position_encoding s)
                (λ details _. s)))

  create_loaded-Sound :
      (p : Planning) (uri path : String) (overwrite ignore_if_exists : Bool)
      → InWorkspace planner path
      → Sound p
      → Ends Sound (create_loaded planner index p uri path overwrite ignore_if_exists)
  unfolding create_loaded create_at record_create
  create_loaded-Sound p uri path overwrite ignore_if_exists inside h =
      bind-Ends (λ current. Unit {0}) Sound (unwrap (lookup path p.workspace.entries)) _
        (unwrap-Ends (λ current. Unit {0}) (lookup path p.workspace.entries) (λ current _. tt))
        (λ current _.
          if_rule (Ends Sound) (current.manifest.exists && not overwrite) _ _
            (λ t. if_rule (Ends Sound) ignore_if_exists _ _ (λ i. h) (λ i. h))
            (λ f.
              if_rule (Ends Sound)
                (current.manifest.exists && not (is_regular current.manifest.resource_kind)) _ _
                (λ t. h)
                (λ g.
                  result_rule (Ends Sound)
                    (if current.manifest.exists
                      then ok tt
                      else require_existing_parent planner p.workspace path index)
                    _ _ (λ fault _. h)
                    (λ u _. (
                      set_entry-IsOrdered path (created planner index current path) p.workspace h.0,
                      All-snoc (InScope planner) p.operations _ h.1 inside,
                    )))))

  pub plan_create_operation-Sound :
      (p : Planning) (operation annotations : Members)
      → Sound p
      → Ends Sound (plan_create_operation planner index p operation annotations)
  unfolding plan_create_operation
  plan_create_operation-Sound p operation annotations h =
      result_rule (Ends Sound) (guards planner index operation annotations _ _) _ _ (λ fault _. h)
        (λ u _.
          option_rule (Ends Sound) (str_field "uri" operation) _ _ (λ n. h)
            (λ uri _.
              result_rule (Ends Sound) (path_from_file_uri planner uri index) _ _ (λ fault _. h)
                (λ path e.
                  after-Sound p (load_exact planner index p.workspace path false) _ h
                    (load_exact-Kept planner index p.workspace path false h.0)
                    (λ q s.
                      create_loaded-Sound q uri path
                        (option_bool (options_of operation) "overwrite")
                        (option_bool (options_of operation) "ignoreIfExists") (path_at uri path e)
                        s))))

  record_rename-Sound :
      (p : Planning) (old_uri new_uri old_path new_path : String) (overwrite ignore : Bool)
      → InWorkspace planner old_path
      → InWorkspace planner new_path
      → Sound p
      → Ends Sound
          (record_rename planner index p old_uri new_uri old_path new_path overwrite ignore)
  unfolding record_rename move_tree
  record_rename-Sound p old_uri new_uri old_path new_path overwrite ignore from to h =
      bind-Ends IsOrdered Sound (move_tree old_path new_path p.workspace) _
        (move_states-IsOrdered old_path new_path (beneath old_path p.workspace.entries)
          (clear_paths (keys (beneath new_path p.workspace.entries)) p.workspace)
          (clear_paths-IsOrdered (keys (beneath new_path p.workspace.entries)) p.workspace h.0))
        (λ w o. (o, All-snoc (InScope planner) p.operations _ h.1 (from, to)))

  rename_ready-Sound :
      (p : Planning) (old_uri new_uri old_path new_path : String) (overwrite ignore : Bool)
      → InWorkspace planner old_path
      → InWorkspace planner new_path
      → Sound p
      → Ends Sound (rename_ready planner index p old_uri new_uri old_path new_path overwrite ignore)
  unfolding rename_ready
  rename_ready-Sound p old_uri new_uri old_path new_path overwrite ignore from to h =
      result_rule (Ends Sound) (require_existing_parent planner p.workspace new_path index) _ _
        (λ fault _. h)
        (λ u _.
          if_rule (Ends Sound)
            (not (
              same_device (nearest_existing_device planner.file_system old_path)
                (nearest_existing_device planner.file_system new_path)))
            _ _ (λ t. h)
            (λ f.
              record_rename-Sound p old_uri new_uri old_path new_path overwrite ignore from to h))

  rename_loaded-Sound :
      (p : Planning) (old_uri new_uri old_path new_path : String) (overwrite ignore : Bool)
      → InWorkspace planner old_path
      → InWorkspace planner new_path
      → Sound p
      → Ends Sound
          (rename_loaded planner index p old_uri new_uri old_path new_path overwrite ignore)
  unfolding rename_loaded
  rename_loaded-Sound p old_uri new_uri old_path new_path overwrite ignore from to h =
      bind-Ends (λ source. Unit {0}) Sound (unwrap (lookup old_path p.workspace.entries)) _
        (unwrap-Ends (λ source. Unit {0}) (lookup old_path p.workspace.entries) (λ source _. tt))
        (λ source _.
          if_rule (Ends Sound) (not source.manifest.exists) _ _ (λ t. h)
            (λ f.
              bind-Ends (λ destination. Unit {0}) Sound
                (unwrap (lookup new_path p.workspace.entries)) _
                (unwrap-Ends (λ destination. Unit {0}) (lookup new_path p.workspace.entries)
                  (λ destination _. tt))
                (λ destination _.
                  if_rule (Ends Sound) (destination.manifest.exists && not overwrite) _ _
                    (λ t. if_rule (Ends Sound) ignore _ _ (λ i. h) (λ i. h))
                    (λ g.
                      if_rule (Ends Sound)
                        (destination.manifest.exists
                          && not (
                              same_kind destination.manifest.resource_kind
                                source.manifest.resource_kind))
                        _ _ (λ t. h)
                        (λ k.
                          if_rule (Ends Sound) (is_directory destination.manifest.resource_kind) _ _
                            (λ d.
                              after-Sound p (load_resource_tree planner p.workspace new_path index)
                                _ h
                                (load_resource_tree-Kept planner p.workspace new_path index h.0
                                  bounded)
                                (λ q s.
                                  rename_ready-Sound q old_uri new_uri old_path new_path overwrite
                                    ignore from to s))
                            (λ n.
                              rename_ready-Sound p old_uri new_uri old_path new_path overwrite
                                ignore from to h))))))

  rename_paths-Sound :
      (p : Planning) (old_uri new_uri old_path new_path : String) (overwrite ignore : Bool)
      → InWorkspace planner old_path
      → InWorkspace planner new_path
      → Sound p
      → Ends Sound (rename_paths planner index p old_uri new_uri old_path new_path overwrite ignore)
  unfolding rename_paths
  rename_paths-Sound p old_uri new_uri old_path new_path overwrite ignore from to h =
      if_rule (Ends Sound) (str_eq old_path new_path) _ _ (λ t. h)
        (λ f.
          if_rule (Ends Sound)
            (path_starts_with old_path new_path || path_starts_with new_path old_path) _ _ (λ t. h)
            (λ g.
              after-Sound p (load_resource_tree planner p.workspace old_path index) _ h
                (load_resource_tree-Kept planner p.workspace old_path index h.0 bounded)
                (λ q s.
                  after-Sound q (load_exact planner index q.workspace new_path false) _ s
                    (load_exact-Kept planner index q.workspace new_path false s.0)
                    (λ r t.
                      rename_loaded-Sound r old_uri new_uri old_path new_path overwrite ignore from
                        to t))))

  pub plan_rename_operation-Sound :
      (p : Planning) (operation annotations : Members)
      → Sound p
      → Ends Sound (plan_rename_operation planner index p operation annotations)
  unfolding plan_rename_operation
  plan_rename_operation-Sound p operation annotations h =
      result_rule (Ends Sound) (guards planner index operation annotations _ _) _ _ (λ fault _. h)
        (λ u _.
          option_rule (Ends Sound) (str_field "oldUri" operation) _ _ (λ n. h)
            (λ old_uri _.
              option_rule (Ends Sound) (str_field "newUri" operation) _ _ (λ n. h)
                (λ new_uri _.
                  result_rule (Ends Sound) (path_from_file_uri planner old_uri index) _ _
                    (λ fault _. h)
                    (λ old_path e.
                      result_rule (Ends Sound) (path_from_file_uri planner new_uri index) _ _
                        (λ fault _. h)
                        (λ new_path f.
                          rename_paths-Sound p old_uri new_uri old_path new_path
                            (option_bool (options_of operation) "overwrite")
                            (option_bool (options_of operation) "ignoreIfExists")
                            (path_at old_uri old_path e) (path_at new_uri new_path f) h)))))

  delete_loaded-Sound :
      (p : Planning) (uri path : String) (recursive ignore : Bool)
      → InWorkspace planner path
      → Sound p
      → Ends Sound (delete_loaded planner index p uri path recursive ignore)
  unfolding delete_loaded record_delete
  delete_loaded-Sound p uri path recursive ignore inside h =
      bind-Ends (λ source. Unit {0}) Sound (unwrap (lookup path p.workspace.entries)) _
        (unwrap-Ends (λ source. Unit {0}) (lookup path p.workspace.entries) (λ source _. tt))
        (λ source _.
          if_rule (Ends Sound) (not source.manifest.exists) _ _
            (λ t. if_rule (Ends Sound) ignore _ _ (λ i. h) (λ i. h))
            (λ f.
              if_rule (Ends Sound)
                (is_directory source.manifest.resource_kind
                  && ltb 1 (length (existing_paths (beneath path p.workspace.entries)))
                  && not recursive)
                _ _ (λ t. h)
                (λ g. (
                  clear_paths-IsOrdered (existing_paths (beneath path p.workspace.entries))
                      p.workspace h.0,
                  All-snoc (InScope planner) p.operations _ h.1 inside,
                ))))

  pub plan_delete_operation-Sound :
      (p : Planning) (operation annotations : Members)
      → Sound p
      → Ends Sound (plan_delete_operation planner index p operation annotations)
  unfolding plan_delete_operation
  plan_delete_operation-Sound p operation annotations h =
      result_rule (Ends Sound) (guards planner index operation annotations _ _) _ _ (λ fault _. h)
        (λ u _.
          option_rule (Ends Sound) (str_field "uri" operation) _ _ (λ n. h)
            (λ uri _.
              result_rule (Ends Sound) (path_from_file_uri planner uri index) _ _ (λ fault _. h)
                (λ path e.
                  after-Sound p (load_resource_tree planner p.workspace path index) _ h
                    (load_resource_tree-Kept planner p.workspace path index h.0 bounded)
                    (λ q s.
                      delete_loaded-Sound q uri path
                        (option_bool (options_of operation) "recursive")
                        (option_bool (options_of operation) "ignoreIfNotExists")
                        (path_at uri path e) s))))
