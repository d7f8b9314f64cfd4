-- ===== src/Planner/Deleting.antt =====
-- Deleting empties a whole subtree of the virtual workspace and nothing else (src/mutation/planner.rs).
use lspctl.Prelude.{
  ℕ, ◌≤◌, String, ◌≡◌, refl, ◌∙◌, Bool, true, false, not, ◌&&◌, Option, some, none, [], ◌∷◌, ◌++◌,
  arith, eq_iff, if◌then◌else◌, Bool-cases, inl, inr, length, ltb,
}
use lspctl.Map.{Map, lookup}
use lspctl.Map.Laws.{IsDistinct}
use lspctl.Map.Order.{IsSorted, IsSorted-IsDistinct}
use lspctl.Edits.{contains, WorkspaceEditProblem, problem}
use lspctl.Edits.Plan.{ResourceState, Planning, delete_operation, add_problem}
use lspctl.Planner.Run.{done}
use lspctl.Planner.Paths.{path_starts_with}
use lspctl.Planner.FileSystem.{missing_resource}
use lspctl.Planner.Load.{Planner, beneath, is_directory}
use lspctl.Planner.Subtree.{lookup-beneath, beneath-IsSorted}
use lspctl.Planner.Delete.{existing_paths, record_delete, delete_loaded}
use lspctl.Planner.Effects.{lookup-clear_paths, contains-lookup}

-- an existing resource there
abbrev pub is_there : Option ResourceState → Bool
is_there none = false
is_there (some state) = state.manifest.exists

contains-existing_paths :
    (k : String) (m : Map ResourceState)
    → IsDistinct m
    → contains (existing_paths m) k ≡ is_there (lookup k m)
unfolding existing_paths lookup
contains-existing_paths k [] h = refl
contains-existing_paths k ((j, s) ∷ m) h =
    ground (arith, eq_iff j k, contains-existing_paths k m h.1, contains-lookup k m)

-- What stands at a path after the deletion: beneath the path everything that existed is missing.
abbrev pub deleted : String → Map ResourceState → String → Option ResourceState
deleted path entries k =
    if path_starts_with k path && is_there (lookup k entries)
    then some (missing_resource k)
    else lookup k entries

deleted_at :
    (k path : String) (m : Map ResourceState)
    → IsSorted m
    → (if contains (existing_paths (beneath path m)) k
        then some (missing_resource k)
        else lookup k m)
      ≡ deleted path m k
deleted_at k path m h = ground (
  arith,
  lookup-beneath k path m h,
  contains-existing_paths k (beneath path m)
      (IsSorted-IsDistinct (beneath path m) (beneath-IsSorted path m h)),
)

-- How a deletion ends: it is ignored, or refused with one problem, or it is recorded, and then a
-- directory that is not empty was to be deleted recursively.
pub data Deletes (p : Planning) (index : ℕ) (uri path : String) (recursive ignore : Bool)
    (source : ResourceState) (q : Planning) : Type 0 where
  ignored :
      source.manifest.exists ≡ false
      → ignore ≡ true
      → q ≡ p
      → Deletes p index uri path recursive ignore source q
  refused :
      (fault : WorkspaceEditProblem)
      → q ≡ add_problem p fault
      → Deletes p index uri path recursive ignore source q
  recorded :
      source.manifest.exists ≡ true
      → (is_directory source.manifest.resource_kind && not recursive ≡ true
          → length (existing_paths (beneath path p.workspace.entries)) ≤ 1)
      → ((k : String) → lookup k q.workspace.entries ≡ deleted path p.workspace.entries k)
      → q.operations ≡ p.operations ++ (delete_operation index uri path recursive ignore ∷ [])
      → q.problems ≡ p.problems
      → Deletes p index uri path recursive ignore source q

-- From the loaded subtree on, a deletion never panics, and ends in one of the three ways.
pub delete_loaded-Deletes :
    (planner : Planner) (index : ℕ) (p : Planning) (uri path : String) (recursive ignore : Bool)
    (source : ResourceState)
    → IsSorted p.workspace.entries
    → lookup path p.workspace.entries ≡ some source
    → (q : Planning) × (delete_loaded planner index p uri path recursive ignore ≡ done q)
      × Deletes p index uri path recursive ignore source q
unfolding delete_loaded record_delete
delete_loaded-Deletes planner index p uri path recursive ignore source h found =
    elim (Bool-cases source.manifest.exists) [
      | inr gone ↦ elim (Bool-cases ignore) [
        | inl i ↦ (p, rw (found, gone, i) refl, ignored gone i refl)
        | inr i ↦ (
          add_problem p (
              problem "source_missing" "DeleteFile target does not exist." (some index) (some path)
                none),
          rw (found, gone, i) refl,
          refused
              (problem "source_missing" "DeleteFile target does not exist." (some index) (some path)
                none)
              refl,
        )
      ]
      | inl there ↦
          elim (Bool-cases (
            is_directory source.manifest.resource_kind
            && ltb 1 (length (existing_paths (beneath path p.workspace.entries)))
            && not recursive)) [
              | inl full ↦ (
                add_problem p (
                    problem "directory_not_empty"
                      "Deleting a non-empty directory requires recursive=true." (some index)
                      (some path) none),
                rw (found, there, full) refl,
                refused
                    (problem "directory_not_empty"
                      "Deleting a non-empty directory requires recursive=true." (some index)
                      (some path) none)
                    refl,
              )
              | inr free ↦ (
                record_delete planner index p uri path recursive ignore,
                rw (found, there, free) refl,
                recorded there (λ guard. ground arith)
                    (λ k.
                      lookup-clear_paths k (existing_paths (beneath path p.workspace.entries))
                        p.workspace
                      ∙ deleted_at k path p.workspace.entries h)
                    refl refl,
              )
            ]
    ]
