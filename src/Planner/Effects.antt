-- ===== src/Planner/Effects.antt =====
-- What the loops of renaming and deleting leave at each path.
use text.Mathlib.TextLemmas.{append_cancel_left}
use lspctl.Prelude.{
  String, ◌≡◌, refl, sym, ap, ◌∙◌, true, false, Option, some, none, List, [], ◌∷◌, arith, str_eq,
  eq_iff, if◌then◌else◌, Bool-cases, Option-cases, inl, inr,
}
use lspctl.Map.{Map, lookup, contains_key, keys}
use lspctl.Map.Laws.{lookup-insert, IsDistinct}
use lspctl.Edits.{contains}
use lspctl.Edits.Plan.{ResourceState, VirtualWorkspace}
use lspctl.Planner.Run.{done}
use lspctl.Planner.Paths.{path_starts_with, strip_prefix, join}
use lspctl.Planner.Paths.Prefix.{
  is_some, starts_with-strip_prefix, strip_prefix-relative, join-strip_prefix, strip_prefix-join,
  starts_with_comparable,
}
use lspctl.Planner.FileSystem.{missing_resource}
use lspctl.Planner.Subtree.{AllBeneath}
use lspctl.Planner.Operations.{set_entry, clear_paths}
use lspctl.Planner.Rename.{move_states, target_of}

pub lookup-set_entry :
    (k path : String) (state : ResourceState) (w : VirtualWorkspace)
    → lookup k (set_entry path state w).entries
      ≡ (if str_eq path k then some state else lookup k w.entries)
unfolding set_entry
lookup-set_entry k path state w = lookup-insert path k state w.entries

pub lookup-clear_paths :
    (k : String) (paths : List String) (w : VirtualWorkspace)
    → lookup k (clear_paths paths w).entries
      ≡ (if contains paths k then some (missing_resource k) else lookup k w.entries)
unfolding clear_paths
lookup-clear_paths k [] w = refl
lookup-clear_paths k (path ∷ paths) w = ground (
  arith,
  eq_iff path k,
  lookup-set_entry k path (missing_resource path) w,
  lookup-clear_paths k paths (set_entry path (missing_resource path) w),
)

pub contains-keys {ℓ} :
    {V : Type ℓ} (k : String) (m : Map V) → contains (keys m) k ≡ contains_key k m
unfolding keys contains_key
contains-keys k [] = refl
contains-keys k ((j, v) ∷ m) = ground (arith, contains-keys k m)

pub contains-lookup {ℓ} :
    {V : Type ℓ} (k : String) (m : Map V) → contains_key k m ≡ is_some (lookup k m)
unfolding lookup contains_key
contains-lookup k [] = refl
contains-lookup k ((j, v) ∷ m) = ground (arith, contains-lookup k m)

-- a state that has been moved to a path
abbrev pub moved_to : String → ResourceState → ResourceState
moved_to path state = record state { manifest = record (state.manifest) { path = path } }

-- What moving leaves at a path: nothing is left at the old places, and at a new place stands what stood
-- at the place that has the same path beneath the old one.
abbrev pub after_move :
    String → String → Map ResourceState → String → Option ResourceState → Option ResourceState
after_move old_path new_path moved k before =
    if path_starts_with k old_path
    then (if contains_key k moved then some (missing_resource k) else before)
    else elim (strip_prefix k new_path) [
      | none ↦ before
      | some relative ↦ elim (lookup (join old_path relative) moved) [
        | none ↦ before
        | some state ↦ some (moved_to k state)
      ]
    ]

module _ (old_path new_path : String) (apart : path_starts_with old_path new_path ≡ false)
    (apart' : path_starts_with new_path old_path ≡ false) where
  target_elsewhere :
      (k relative : String)
      → path_starts_with relative "" ≡ true
      → join new_path relative ≡ k
      → path_starts_with k old_path ≡ false
  target_elsewhere k relative r e = ground (
    arith,
    starts_with_comparable k old_path new_path,
    starts_with-strip_prefix k new_path,
    strip_prefix-join new_path relative,
  )

  same_place :
      (path k relative r : String)
      → join old_path relative ≡ path
      → join new_path r ≡ k
      → str_eq path (join old_path r) ≡ str_eq (join new_path relative) k
  same_place path k relative r p e = ground (
    arith,
    eq_iff path (join old_path r),
    eq_iff (join new_path relative) k,
    append_cancel_left old_path relative r,
    append_cancel_left new_path relative r,
  )

  moved_one :
      (k path relative : String) (state : ResourceState) (moved : Map ResourceState)
      (base : Option ResourceState)
      → strip_prefix path old_path ≡ some relative
      → contains_key path moved ≡ false
      → after_move old_path new_path moved k (
          if str_eq (join new_path relative) k
          then some (moved_to (join new_path relative) state)
          else if str_eq path k
          then some (missing_resource path)
          else base)
        ≡ after_move old_path new_path ((path, state) ∷ moved) k base
  unfolding lookup contains_key
  moved_one k path relative state moved base h new =
      elim (Bool-cases (path_starts_with k old_path)) [
        | inl b ↦ ground (
          arith,
          eq_iff path k,
          eq_iff (join new_path relative) k,
          target_elsewhere k relative (strip_prefix-relative path old_path relative h),
        )
        | inr b ↦ elim (Option-cases (strip_prefix k new_path)) [
          | inl n ↦ ground (
            arith,
            eq_iff path k,
            eq_iff (join new_path relative) k,
            starts_with-strip_prefix path old_path,
            strip_prefix-join new_path relative (strip_prefix-relative path old_path relative h),
          )
          | inr (r, e) ↦ ground (
            arith,
            eq_iff path k,
            eq_iff (join new_path relative) k,
            eq_iff path (join old_path r),
            contains-lookup path moved,
            starts_with-strip_prefix path old_path,
            same_place path k relative r (join-strip_prefix path old_path relative h)
                (join-strip_prefix k new_path r e),
          )
        ]
      ]

  -- a step of the loop, at one path
  step_at :
      (k path relative : String) (state : ResourceState) (w : VirtualWorkspace)
      → lookup k
          (set_entry
            (join new_path relative)
            (moved_to (join new_path relative) state)
            (set_entry path (missing_resource path) w)).entries
        ≡ (if str_eq (join new_path relative) k
            then some (moved_to (join new_path relative) state)
            else if str_eq path k
            then some (missing_resource path)
            else lookup k w.entries)
  step_at k path relative state w =
      rw
        (
          lookup-set_entry k (join new_path relative) (moved_to (join new_path relative) state)
              (set_entry path (missing_resource path) w),
          lookup-set_entry k path (missing_resource path) w,
        )
        refl

  after_nothing :
      (k : String) (base : Option ResourceState) → after_move old_path new_path [] k base ≡ base
  unfolding lookup contains_key
  after_nothing k base = ground arith

  move_step :
      (path relative : String) (state : ResourceState) (moved : Map ResourceState)
      (w : VirtualWorkspace)
      → strip_prefix path old_path ≡ some relative
      → move_states old_path new_path ((path, state) ∷ moved) w
        ≡ move_states old_path new_path moved (
            set_entry
              (join new_path relative)
              (moved_to (join new_path relative) state)
              (set_entry path (missing_resource path) w))
  unfolding move_states target_of
  move_step path relative state moved w h = ground (arith, h)

  pub lookup-move_states :
      (moved : Map ResourceState) (w : VirtualWorkspace)
      → IsDistinct moved
      → AllBeneath old_path moved
      → (w' : VirtualWorkspace) × (move_states old_path new_path moved w ≡ done w')
        × ((k : String)
            → lookup k w'.entries ≡ after_move old_path new_path moved k (lookup k w.entries))
  unfolding move_states
  lookup-move_states [] w d b = (w, refl, λ k. sym (after_nothing k (lookup k w.entries)))
  lookup-move_states ((path, state) ∷ moved) w d b =
      elim (Option-cases (strip_prefix path old_path)) [
        | inl n ↦ absurd (ground (arith, starts_with-strip_prefix path old_path))
        | inr (relative, h) ↦
            let target = join new_path relative in
            let next =
              set_entry target (moved_to target state) (set_entry path (missing_resource path) w) in
            let (w', runs, leaves) = lookup-move_states moved next d.1 b.1 in
            (
              w',
              move_step path relative state moved w h ∙ runs,
              λ k.
                  leaves k
                  ∙ ap (after_move old_path new_path moved k) (step_at k path relative state w)
                  ∙ moved_one k path relative state moved (lookup k w.entries) h d.0,
            )
      ]
