-- ===== src/Planner/Tree.antt =====
-- `load_resource_tree` of src/mutation/planner.rs: the stack of directories that are still to be
-- loaded, with their depths. The fuel counts the directories that are taken from the stack.
pub mod Fuel
use lspctl.Prelude.{
  ℕ, zero, suc, ◌+◌, ◌*◌, ◌-◌, String, Bool, true, false, ◌&&◌, Option, none, some, List, [], ◌∷◌,
  Result, ok, err, if◌then◌else◌, ltb, str_eq, length, u64_max, saturating_add,
}
use lspctl.Json.{string, nat, json}
use lspctl.Map.{Map, lookup, insert, keys}
use lspctl.Edits.{WorkspaceEditProblem, problem}
use lspctl.Edits.Plan.{ResourceKind, ManifestEntry, ResourceState, VirtualWorkspace}
use lspctl.Planner.Run.{Run, done, panicked, out_of_fuel, ◌>>=◌, unwrap}
use lspctl.Planner.Paths.{parent, join_name}
use lspctl.Planner.FileSystem.{directory_membership_digest}
use lspctl.Planner.Inspect.{directory_children}
use lspctl.Planner.Load.{Planner, beneath, is_directory, load_exact_resource}

-- the virtual workspace after a call that changes it, failing or not
abbrev pub Loaded : Type 0
Loaded = VirtualWorkspace × Result WorkspaceEditProblem (Unit {0})

-- `path.parent() == Some(directory) && state.manifest.exists`
abbrev pub is_child : String → String → ResourceState → Bool
is_child directory path state =
    elim (parent path) [ none ↦ false | some q ↦ str_eq q directory ] && state.manifest.exists

unfoldable pub select_children : String → Map ResourceState → List String
unfolding parent
select_children directory [] = []
select_children directory ((path, state) ∷ rest) =
    if is_child directory path state
    then path ∷ select_children directory rest
    else select_children directory rest

-- the children of a directory that are in the virtual workspace
unfoldable pub child_paths : String → Map ResourceState → List String
unfolding beneath select_children
child_paths directory entries = select_children directory (beneath directory entries)

abbrev pub set_digest : String → ManifestEntry → ManifestEntry
set_digest digest entry = record entry { content_digest = some digest }

module _ (planner : Planner) (index : ℕ) where
  -- `load_exact_resource` where the workspace stays as it is on an error
  unfoldable pub load_exact : VirtualWorkspace → String → Bool → Run Loaded
  unfolding load_exact_resource
  load_exact w path load_text = load_exact_resource planner w path index load_text >>= λ loaded.
      elim loaded [ ok w' ↦ done (w', ok tt) | err fault ↦ done (w, err fault) ]

  -- the loop over the names of the children
  unfoldable pub load_children : VirtualWorkspace → String → List String → Run Loaded
  load_children w directory [] = done (w, ok tt)
  load_children w directory (name ∷ names) =
      load_exact w (join_name directory name) false >>= λ loaded. elim loaded.1 [
        | err fault ↦ done loaded
        | ok _ ↦ load_children loaded.0 directory names
      ]

  -- the certificate of a directory's child set, in the manifest before and in the virtual one
  unfoldable pub certify : VirtualWorkspace → String → ResourceState → String → Run VirtualWorkspace
  unfolding lookup insert
  certify w directory state digest = unwrap (lookup directory w.before) >>= λ entry.
      done (record w {
        before = insert directory (set_digest digest entry) w.before;
        entries =
            insert directory (record state { manifest = set_digest digest state.manifest })
              w.entries;
      })

  -- a directory whose children are not known yet
  unfoldable pub expand : VirtualWorkspace → String → ResourceState → Run Loaded
  unfolding directory_children directory_membership_digest certify load_children keys
  expand w directory state = elim state.manifest.content_digest [
    | some digest ↦ done (w, ok tt)
    | none ↦
        elim (directory_children planner.file_system index planner.workspace planner.root_device
          planner.mutation_limits.max_entries directory) [
            | err fault ↦ done (w, err fault)
            | ok children ↦
                certify w directory state (directory_membership_digest planner.file_system children)
                >>= λ w'. load_children w' directory (keys children)
          ]
  ]

  abbrev too_deep : String → ℕ → WorkspaceEditProblem
  too_deep directory depth =
      problem "resource_limit_exceeded" "A recursive operation exceeds the configured depth."
        (some index) (some directory)
        (some (
          json (
            ("resource", string "recursionDepth")
            ∷ ("limit", nat planner.mutation_limits.max_recursion_depth)
            ∷ ("observed", nat depth)
            ∷ [])))

  abbrev too_many : String → ℕ → WorkspaceEditProblem
  too_many directory observed =
      problem "resource_limit_exceeded" "A recursive operation affects too many entries."
        (some index) (some directory)
        (some (
          json (
            ("resource", string "entries")
            ∷ ("limit", nat planner.mutation_limits.max_entries)
            ∷ ("observed", nat observed)
            ∷ [])))

  -- the loop that pushes the directories among the children
  unfoldable pub push_children :
      Map ResourceState
      → String
      → ℕ
      → List String
      → List (String × ℕ)
      → Run (Result WorkspaceEditProblem (List (String × ℕ)))
  unfolding lookup
  push_children entries directory depth [] pending = done (ok pending)
  push_children entries directory depth (path ∷ paths) pending =
      unwrap (lookup path entries) >>= λ state.
      let next : List (String × ℕ) =
        if is_directory state.manifest.resource_kind
        then (path, saturating_add u64_max depth 1) ∷ pending
        else pending in
      let later = push_children entries directory depth paths next in
      if ltb planner.mutation_limits.max_entries (length entries)
      then done (err (too_many directory (length entries)))
      else later

  unfoldable pub walk : ℕ → VirtualWorkspace → List (String × ℕ) → Run Loaded
  unfolding lookup expand child_paths push_children
  walk fuel w [] = done (w, ok tt)
  walk zero w (top ∷ pending) = out_of_fuel
  walk (suc fuel) w ((directory, depth) ∷ pending) =
      if ltb planner.mutation_limits.max_recursion_depth depth
      then done (w, err (too_deep directory depth))
      else unwrap (lookup directory w.entries) >>= λ state. expand w directory state >>= λ loaded.
          elim loaded.1 [
            | err fault ↦ done loaded
            | ok _ ↦
                push_children loaded.0.entries directory depth
                  (child_paths directory loaded.0.entries) pending
                >>= λ pushed. elim pushed [
                  | err fault ↦ done (loaded.0, err fault)
                  | ok next ↦ walk fuel loaded.0 next
                ]
          ]

-- How many directories a walk may take from the stack, below one that may go `levels` deeper.
unfoldable pub walk_fuel : ℕ → ℕ → ℕ
walk_fuel max_entries zero = 1
walk_fuel max_entries (suc levels) = 1 + max_entries * walk_fuel max_entries levels

module _ (planner : Planner) where
  unfoldable pub load_resource_tree : VirtualWorkspace → String → ℕ → Run Loaded
  unfolding walk walk_fuel lookup
  load_resource_tree w path index = load_exact planner index w path false >>= λ loaded.
      elim loaded.1 [
        | err fault ↦ done loaded
        | ok _ ↦ unwrap (lookup path loaded.0.entries) >>= λ state.
            if is_directory state.manifest.resource_kind
            then walk planner index
                (walk_fuel planner.mutation_limits.max_entries
                  (suc planner.mutation_limits.max_recursion_depth))
                loaded.0 ((path, 0) ∷ [])
            else done loaded
      ]
