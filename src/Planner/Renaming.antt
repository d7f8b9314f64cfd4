-- ===== src/Planner/Renaming.antt =====
-- Renaming moves a whole subtree of the virtual workspace and nothing else (src/mutation/planner.rs).
use lspctl.Prelude.{
  ℕ, String, ◌≡◌, refl, ap, ◌∙◌, Bool, false, Option, some, none, [], ◌∷◌, ◌++◌, arith,
  if◌then◌else◌, Bool-cases, Option-cases, inl, inr, saturating_add, u64_max,
}
use lspctl.Map.{Map, lookup, contains_key, keys}
use lspctl.Map.Order.{IsSorted, IsSorted-IsDistinct}
use lspctl.Edits.{contains}
use lspctl.Edits.Plan.{ResourceState, VirtualWorkspace, Planning, rename_operation}
use lspctl.Planner.Run.{done}
use lspctl.Planner.Paths.{path_starts_with, strip_prefix, join}
use lspctl.Planner.Paths.Prefix.{
  starts_with-strip_prefix, strip_prefix-relative, strip_prefix-join, starts_with_comparable,
}
use lspctl.Planner.FileSystem.{missing_resource}
use lspctl.Planner.Load.{Planner, beneath}
use lspctl.Planner.Subtree.{lookup-beneath, beneath-AllBeneath, beneath-IsSorted}
use lspctl.Planner.Operations.{clear_paths}
use lspctl.Planner.Rename.{move_tree, record_rename}
use lspctl.Planner.Effects.{
  lookup-clear_paths, contains-keys, contains-lookup, moved_to, after_move, lookup-move_states,
}

-- What stands at a path after the renaming: nothing at the old place and beneath it; at the new place
-- and beneath it what stood at the same place beneath the old one; elsewhere what stood there.
abbrev pub renamed : String → String → Map ResourceState → String → Option ResourceState
renamed old_path new_path entries k =
    if path_starts_with k old_path then gone k entries else elim (strip_prefix k new_path) [
      | none ↦ lookup k entries
      | some relative ↦ elim (lookup (join old_path relative) entries) [
        | none ↦ gone k entries
        | some state ↦ some (moved_to k state)
      ]
    ]
  where
    gone : String → Map ResourceState → Option ResourceState
    gone k entries = if contains_key k entries then some (missing_resource k) else none

contains-beneath :
    (k path : String) (m : Map ResourceState)
    → IsSorted m
    → contains_key k (beneath path m)
      ≡ (if path_starts_with k path then contains_key k m else false)
contains-beneath k path m h =
    ground
      (arith, contains-lookup k (beneath path m), contains-lookup k m, lookup-beneath k path m h)

module _ (old_path new_path : String) (apart : path_starts_with old_path new_path ≡ false)
    (apart' : path_starts_with new_path old_path ≡ false) where
  -- where the destination's subtree is cleared first
  abbrev cleared_at : String → Map ResourceState → Option ResourceState
  cleared_at k m =
      if contains (keys (beneath new_path m)) k then some (missing_resource k) else lookup k m

  -- the destination cleared, and then the move, at one path
  moved_at :
      (k : String) (m : Map ResourceState)
      → IsSorted m
      → after_move old_path new_path (beneath old_path m) k (cleared_at k m)
        ≡ renamed old_path new_path m k
  moved_at k m h = elim (Bool-cases (path_starts_with k old_path)) [
    | inl b ↦ ground (
      arith,
      contains-keys k (beneath new_path m),
      contains-beneath k new_path m h,
      contains-beneath k old_path m h,
      contains-lookup k m,
      starts_with_comparable k old_path new_path,
    )
    | inr b ↦ elim (Option-cases (strip_prefix k new_path)) [
      | inl n ↦ ground (
        arith,
        contains-keys k (beneath new_path m),
        contains-beneath k new_path m h,
        starts_with-strip_prefix k new_path,
      )
      | inr (r, e) ↦ ground (
        arith,
        contains-keys k (beneath new_path m),
        contains-beneath k new_path m h,
        contains-lookup k m,
        starts_with-strip_prefix k new_path,
        lookup-beneath (join old_path r) old_path m h,
        starts_with-strip_prefix (join old_path r) old_path,
        strip_prefix-join old_path r (strip_prefix-relative k new_path r e),
      )
    ]
  ]

  pub move_tree-renamed :
      (w : VirtualWorkspace)
      → IsSorted w.entries
      → (w' : VirtualWorkspace) × (move_tree old_path new_path w ≡ done w')
        × ((k : String) → lookup k w'.entries ≡ renamed old_path new_path w.entries k)
  unfolding move_tree
  move_tree-renamed w h =
      let cleared = clear_paths (keys (beneath new_path w.entries)) w in
      let (w', runs, leaves) =
        lookup-move_states old_path new_path apart apart' (beneath old_path w.entries) cleared
          (IsSorted-IsDistinct (beneath old_path w.entries) (beneath-IsSorted old_path w.entries h))
          (beneath-AllBeneath old_path w.entries) in
      (
        w',
        runs,
        λ k.
            leaves k
            ∙ ap (after_move old_path new_path (beneath old_path w.entries) k)
                (lookup-clear_paths k (keys (beneath new_path w.entries)) w)
            ∙ moved_at k w.entries h,
      )

  -- Renaming never panics once its guards have passed, records one operation, and leaves in the virtual
  -- workspace: at the old place and beneath it nothing, at the new place and beneath it what stood at
  -- the same place beneath the old one, and elsewhere what stood there.
  pub record_rename-renamed :
      (planner : Planner) (index : ℕ) (p : Planning) (old_uri new_uri : String)
      (overwrite ignore_if_exists : Bool)
      → IsSorted p.workspace.entries
      → (q : Planning) × (record_rename planner index p old_uri new_uri old_path new_path overwrite
            ignore_if_exists
          ≡ done q)
        × ((k : String)
            → lookup k q.workspace.entries ≡ renamed old_path new_path p.workspace.entries k)
        × (q.operations
            ≡ p.operations
              ++ (rename_operation index old_uri new_uri old_path new_path overwrite
                    ignore_if_exists
                  ∷ []))
        × (q.problems ≡ p.problems)
  unfolding record_rename
  record_rename-renamed planner index p old_uri new_uri overwrite ignore_if_exists h =
      let (w, runs, leaves) = move_tree-renamed p.workspace h in
      (
        record p {
          workspace = w;
          summary = record (p.summary) { renames = saturating_add u64_max p.summary.renames 1 };
          operations =
              p.operations
              ++ (rename_operation index old_uri new_uri old_path new_path overwrite
                    ignore_if_exists
                  ∷ []);
        },
        rw runs refl,
        leaves,
        refl,
        refl,
      )
