-- ===== src/Planner/Creating/Above.antt =====
-- Whether a directory stands above a path, for `require_existing_parent` of src/mutation/planner.rs.
use mathlib.Core.Path.{subst}
use lspctl.Prelude.{
  ℕ, String, ◌≡◌, ◌⊎◌, refl, sym, true, none, some, Result, ok, err, arith, if◌then◌else◌, inl, inr,
  if_rule, option_rule,
}
use lspctl.Map.{lookup}
use lspctl.Edits.{WorkspaceEditProblem, problem}
use lspctl.Edits.Plan.{file, directory, missing, ResourceKind, ResourceState, VirtualWorkspace}
use lspctl.Planner.Paths.{parent}
use lspctl.Planner.FileSystem.{Metadata, Status, found, not_found, failed}
use lspctl.Planner.Load.{Planner, is_directory, require_existing_parent}

-- where the directory of a new file is looked for
abbrev pub above : Planner → String → String
above planner path = elim (parent path) [ none ↦ planner.workspace | some q ↦ q ]

-- A directory stands above the path: by the operations so far where they have seen it, and else by the
-- file system.
abbrev pub HasParent : Planner → VirtualWorkspace → String → Type 0
HasParent planner w path =
    ((state : ResourceState) × (lookup (above planner path) w.entries ≡ some state)
      × (state.manifest.resource_kind ≡ directory))
    ⊎ (lookup (above planner path) w.entries ≡ none)
      × ((m : Metadata) × (planner.file_system.symlink_metadata (above planner path) ≡ found m)
          × (m.is_dir ≡ true))

module _ (planner : Planner) (index : ℕ) (w : VirtualWorkspace) (path : String) where
  abbrev pub Parent : Result WorkspaceEditProblem (Unit {0}) → Type 0
  Parent r =
      (r ≡ ok tt) × HasParent planner w path
      ⊎ ((fault : WorkspaceEditProblem) × (r ≡ err fault)
          × (fault.code ≡ "parent_missing")
          × (fault.operation_index ≡ some index)
          × ¬ HasParent planner w path)

  seen_directory :
      (state other : ResourceState)
      → lookup (above planner path) w.entries ≡ some state
      → lookup (above planner path) w.entries ≡ some other
      → other.manifest.resource_kind ≡ directory
      → state.manifest.resource_kind ≡ directory
  seen_directory state other e f kind = ground arith

  found_directory :
      (m n : Metadata)
      → planner.file_system.symlink_metadata (above planner path) ≡ found m
      → planner.file_system.symlink_metadata (above planner path) ≡ found n
      → n.is_dir ≡ true
      → m.is_dir ≡ true
  found_directory m n e f there = ground arith

  abbrev KindTest : ResourceKind → Type 0
  KindTest directory = Unit
  KindTest _ = ⊥

  by_kind :
      (kind : ResourceKind) (fault : WorkspaceEditProblem)
      → fault.code ≡ "parent_missing"
      → fault.operation_index ≡ some index
      → (kind ≡ directory → HasParent planner w path)
      → (¬ (kind ≡ directory) → ¬ HasParent planner w path)
      → Parent (if is_directory kind then ok tt else err fault)
  by_kind directory fault c i yes_there none_there = inl (refl, yes_there refl)
  by_kind file fault c i yes_there none_there =
      inr (fault, refl, c, i, none_there (λ h. subst KindTest (sym h) tt))
  by_kind missing fault c i yes_there none_there =
      inr (fault, refl, c, i, none_there (λ h. subst KindTest (sym h) tt))

  pub parent_lem : Parent (require_existing_parent planner w path index)
  unfolding require_existing_parent problem
  parent_lem =
      option_rule Parent (lookup (above planner path) w.entries) _ _
        (λ new. on_disk new (planner.file_system.symlink_metadata (above planner path)) refl)
        (λ state known.
          by_kind state.manifest.resource_kind _ refl refl (λ d. inl (state, known, d))
            (λ other h. elim h [
              | inl (seen, e, d) ↦ other (seen_directory state seen known e d)
              | inr (new, m) ↦ ground arith
            ]))
    where
      on_disk :
          lookup (above planner path) w.entries ≡ none
          → (status : Status) → planner.file_system.symlink_metadata (above planner path) ≡ status
          → Parent (elim status [
            | found m ↦
                if m.is_dir
                then ok tt
                else err (
                    problem "parent_missing" "The operation parent is not a directory."
                      (some index)
                      (some (above planner path))
                      none)
            | _ ↦ err (
                problem "parent_missing" "The operation parent directory does not exist."
                  (some index)
                  (some (above planner path))
                  none)
          ])
      on_disk new not_found e = inr (
        _,
        refl,
        refl,
        refl,
        λ h. elim h [ inl (seen, f, d) ↦ ground arith | inr (_, (n, f, d)) ↦ ground arith ],
      )
      on_disk new (failed text) e = inr (
        _,
        refl,
        refl,
        refl,
        λ h. elim h [ inl (seen, f, d) ↦ ground arith | inr (_, (n, f, d)) ↦ ground arith ],
      )
      on_disk new (found m) e =
          if_rule Parent m.is_dir _ _ (λ there. inl (refl, inr (new, (m, e, there))))
            (λ plain. inr (
              _,
              refl,
              refl,
              refl,
              λ h. elim h [
                | inl (seen, f, d) ↦ ground arith
                | inr (_, (n, f, d)) ↦ ground (arith, found_directory m n e f d)
              ],
            ))
