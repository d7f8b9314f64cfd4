-- ===== src/Planner/Scope.antt =====
-- Every operation that a plan records lies in the workspace (src/mutation/planner.rs).
use Prim.Native.String.{◌++◌ as str_append}
use lspctl.Prelude.{
  ℕ, String, ◌⊎◌, inl, inr, Option, none, some, ◌≡◌, true, false, not, List, [], ◌∷◌, ◌++◌, ok,
  ok_or, All, arith, sym, refl, eq_iff, if_rule, str_eq,
}
use lspctl.Edits.Plan.{
  Planning, CanonicalOperation, text_operation, create_operation, rename_operation,
  delete_operation,
}
use lspctl.Planner.FileSystem.{Metadata, Status, found, not_found, failed}
use lspctl.Planner.Paths.{lexically_beneath, path_starts_with, strip_prefix, descend, join}
use lspctl.Planner.Paths.Prefix.{join-strip_prefix, strip_prefix-relative}
use lspctl.Planner.Paths.Places.{Walk, descend-Walk, has_parent_dir-append_false}
use lspctl.Planner.Inspect.{validate_existing_ancestors, validate_places, other_device}
use lspctl.Planner.Load.{Planner, check_path, path_from_file_uri}
use lspctl.Planner.Uri.{uri_contains_path_traversal}
use lspctl.Planner.Load.Sorted.{IsOrdered, Okay, bind-Okay}

-- A resource that exists.
abbrev pub Exists : Planner → String → Type 0
Exists planner q = (m : Metadata) × (planner.file_system.symlink_metadata q ≡ found m)

-- Nothing is there, or a resource that is no link and stands on the device of the workspace's root.
abbrev pub Clear : Planner → String → Type 0
Clear planner q =
    (planner.file_system.symlink_metadata q ≡ not_found)
    ⊎ ((m : Metadata) × (planner.file_system.symlink_metadata q ≡ found m)
        × (m.is_symlink ≡ false)
        × (planner.root_device ≡ some m.dev))

-- A path in the workspace: it is not the root, but stands beneath it with no component `..` between; and
-- on the way down to it, the path included, each place whose places above it exist is clear.
abbrev pub InWorkspace : Planner → String → Type 0
InWorkspace planner path =
    ¬ (path ≡ planner.workspace)
    × ((relative : String) × (path ≡ join planner.workspace relative)
        × (path_starts_with relative "" ≡ true)
        × ((front behind : String)
            → path_starts_with behind "" ≡ true
            → ¬ (relative ≡ str_append front (str_append "\0.." behind)))
        × ((place : String)
            → path_starts_with relative place ≡ true
            → ¬ (place ≡ "")
            → ((upper : String)
                → path_starts_with place upper ≡ true
                → ¬ (upper ≡ "")
                → ¬ (upper ≡ place)
                → Exists planner (join planner.workspace upper))
            → Clear planner (join planner.workspace place)))

abbrev pub InScope : Planner → CanonicalOperation → Type 0
InScope planner (text_operation index uri path before_digest after_digest edits) =
    InWorkspace planner path
InScope planner (create_operation index uri path overwrite ignore) = InWorkspace planner path
InScope planner (rename_operation index old_uri new_uri old_path new_path overwrite ignore) =
    InWorkspace planner old_path × InWorkspace planner new_path
InScope planner (delete_operation index uri path recursive ignore) = InWorkspace planner path

-- The virtual workspace is in order, and what has been recorded is in scope.
abbrev pub IsSound : Planner → Planning → Type 0
IsSound planner p = IsOrdered p.workspace × All (InScope planner) p.operations

pub All-snoc {ℓ} :
    {A : Type ℓ} (P : A → Type 0) (xs : List A) (x : A) → All P xs → P x → All P (xs ++ (x ∷ []))
All-snoc P [] x h p = (p, tt)
All-snoc P (y ∷ xs) x h p = (h.0, All-snoc P xs x h.1 p)

module _ (planner : Planner) where
  same_root_device :
      (d : Option ℕ) (index : ℕ) (m : Metadata)
      → other_device planner.file_system index planner.workspace d m ≡ false
      → d ≡ some m.dev
  same_root_device none index m h = ground arith
  same_root_device (some d) index m h = ground arith

  validate_places-Walk :
      (index : ℕ) (places : List String)
      → validate_places planner.file_system index planner.workspace planner.root_device places
        ≡ ok tt
      → Walk
          (λ r. Clear planner (join planner.workspace r))
          (λ r. Exists planner (join planner.workspace r))
          places
  unfolding validate_places
  validate_places-Walk index [] h = tt
  validate_places-Walk index (place ∷ rest) h =
      at (planner.file_system.symlink_metadata (join planner.workspace place)) refl
        (validate_places-Walk index rest)
    where
      at :
          (status : Status)
          → planner.file_system.symlink_metadata (join planner.workspace place) ≡ status
          → (validate_places planner.file_system index planner.workspace planner.root_device rest
                ≡ ok tt
              → Walk
                  (λ r. Clear planner (join planner.workspace r))
                  (λ r. Exists planner (join planner.workspace r))
                  rest)
          → Walk
              (λ r. Clear planner (join planner.workspace r))
              (λ r. Exists planner (join planner.workspace r))
              (place ∷ rest)
      at not_found e later = (inl e, λ (m, f). ground arith)
      at (failed text) e later = absurd (ground arith)
      at (found m) e later = (
        inr (m, e, ground arith, same_root_device planner.root_device index m (ground arith)),
        λ _. later (ground arith),
      )

  -- what `validate_existing_ancestors` and `lexically_beneath` say together of a path
  accepted-InWorkspace :
      (index : ℕ) (path : String) (o : Option String)
      → strip_prefix path planner.workspace ≡ o
      → ¬ (path ≡ planner.workspace)
      → lexically_beneath planner.workspace path ≡ true
      → validate_existing_ancestors planner.file_system index planner.workspace planner.root_device
          path
        ≡ ok tt
      → InWorkspace planner path
  unfolding lexically_beneath validate_existing_ancestors
  accepted-InWorkspace index path none e other within valid = absurd (ground arith)
  accepted-InWorkspace index path (some relative) e other within valid =
      let component = strip_prefix-relative path planner.workspace relative e in
      (
        other,
        (
          relative,
          sym (join-strip_prefix path planner.workspace relative e),
          component,
          λ front behind. has_parent_dir-append_false relative front behind (ground arith),
          λ place.
              descend-Walk (λ r. Clear planner (join planner.workspace r))
                (λ r. Exists planner (join planner.workspace r)) relative place component
                (validate_places-Walk index (descend relative) (ground arith)),
        ),
      )

  check_path-InWorkspace :
      (index : ℕ) (path : String) → Okay (InWorkspace planner) (check_path planner index path)
  unfolding check_path
  check_path-InWorkspace index path =
      if_rule (Okay (InWorkspace planner)) (str_eq path planner.workspace) _ _ (λ same. tt)
        (λ other.
          if_rule (Okay (InWorkspace planner)) (not (lexically_beneath planner.workspace path)) _ _
            (λ out. tt)
            (λ within.
              bind-Okay (InWorkspace planner)
                (validate_existing_ancestors planner.file_system index planner.workspace
                  planner.root_device path)
                (λ u. ok path)
                (λ u valid.
                  accepted-InWorkspace index path (strip_prefix path planner.workspace) refl
                    (λ e. ground (arith, eq_iff path planner.workspace)) (ground arith) valid)))

  -- A URI that is accepted names a path which is not the root of the workspace, but stands beneath it
  -- with no component `..` between. On the way down to it, the path included, each place whose places
  -- above it exist is missing, or is no link and stands on the device of the root.
  pub path_from_file_uri-InWorkspace :
      (raw : String) (index : ℕ) → Okay (InWorkspace planner) (path_from_file_uri planner raw index)
  unfolding path_from_file_uri
  path_from_file_uri-InWorkspace raw index =
      if_rule (Okay (InWorkspace planner)) (uri_contains_path_traversal raw) _ _ (λ t. tt)
        (λ f. bind-Okay (InWorkspace planner) (ok_or (planner.parse_url raw) _) _ (λ uri _.
          if_rule (Okay (InWorkspace planner)) (not (str_eq uri.scheme "file")) _ _ (λ t. tt)
            (λ g. bind-Okay (InWorkspace planner) (ok_or uri.to_file_path _) _ (λ native _.
              bind-Okay (InWorkspace planner) (ok_or native _) (check_path planner index)
                (λ path _. check_path-InWorkspace index path)))))
