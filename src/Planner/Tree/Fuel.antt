-- ===== src/Planner/Tree/Fuel.antt =====
-- The walk over a directory tree takes no more directories from its stack than its fuel counts.
use native.Mathlib.Nat.{mul-le-mul_right}
use lspctl.Prelude.{
  ℕ, zero, suc, ◌+◌, ◌*◌, ◌-◌, ◌≤◌, ◌<◌, String, ◌≡◌, refl, Bool, false, List, [], ◌∷◌, Result, ok,
  err, arith, if◌then◌else◌, ltb, length, u64_max, saturating_add, saturating_add_exact, ap, ◌∙◌,
  inl, inr, ◌⊎◌, if_rule, option_rule,
}
use lspctl.Map.{Map, lookup, range_from, keys}
use lspctl.Map.Order.{insert-IsSorted}
use lspctl.Edits.{WorkspaceEditProblem}
use lspctl.Edits.Plan.{ResourceKind, ResourceState, VirtualWorkspace}
use lspctl.Planner.Run.{Run, done, ◌>>=◌, unwrap}
use lspctl.Planner.Ends.{Ends, bind-Ends, unwrap-Ends, Ends-weaken}
use lspctl.Planner.FileSystem.{directory_membership_digest}
use lspctl.Planner.Inspect.{directory_children}
use lspctl.Planner.Paths.{join_name}
use lspctl.Planner.Load.{Planner, beneath, take_beneath, is_directory, load_exact_resource}
use lspctl.Planner.Load.Sorted.{IsOrdered, Okay, load_exact_resource-IsOrdered}
use lspctl.Planner.Tree.{
  Loaded, load_exact, load_children, certify, expand, push_children, walk, walk_fuel,
  load_resource_tree, select_children, child_paths, set_digest,
}

module _ {ℓ} {V : Type ℓ} where
  length-take_beneath : (path : String) (m : Map V) → length (take_beneath path m) ≤ length m
  unfolding take_beneath
  length-take_beneath path [] = omega arith
  length-take_beneath path ((j, v) ∷ m) = ground (arith, length-take_beneath path m)

  length-range_from : (k : String) (m : Map V) → length (range_from k m) ≤ length m
  unfolding range_from
  length-range_from k [] = omega arith
  length-range_from k ((j, v) ∷ m) = ground (arith, length-range_from k m)

length-select_children :
    (directory : String) (m : Map ResourceState) → length (select_children directory m) ≤ length m
unfolding select_children
length-select_children directory [] = omega arith
length-select_children directory ((path, state) ∷ m) =
    ground (arith, length-select_children directory m)

length-child_paths :
    (directory : String) (m : Map ResourceState) → length (child_paths directory m) ≤ length m
unfolding child_paths beneath
length-child_paths directory m = omega (
  arith,
  length-select_children directory (beneath directory m),
  length-take_beneath directory (range_from directory m),
  length-range_from directory m,
)

-- A load that keeps the virtual workspace in order, failing or not.
abbrev pub Kept : Loaded → Type 0
Kept loaded = IsOrdered loaded.0

module _ (planner : Planner) (index : ℕ) where
  pub load_exact-Kept :
      (w : VirtualWorkspace) (path : String) (load_text : Bool)
      → IsOrdered w
      → Ends Kept (load_exact planner index w path load_text)
  unfolding load_exact
  load_exact-Kept w path load_text h =
      bind-Ends (Okay IsOrdered) Kept (load_exact_resource planner w path index load_text) _
        (load_exact_resource-IsOrdered planner index w path load_text h)
        (λ loaded okay. either loaded okay)
    where
      either :
          (loaded : Result WorkspaceEditProblem VirtualWorkspace)
          → Okay IsOrdered loaded
          → Ends Kept (elim loaded [ ok w' ↦ done (w', ok tt) | err fault ↦ done (w, err fault) ])
      either (ok w') okay = okay
      either (err fault) okay = h

  -- going on where a load succeeds
  pub next-Kept :
      (loaded : Loaded) (go : VirtualWorkspace → Run Loaded)
      → Kept loaded
      → ((w : VirtualWorkspace) → IsOrdered w → Ends Kept (go w))
      → Ends Kept (elim loaded.1 [ err fault ↦ done loaded | ok _ ↦ go loaded.0 ])
  next-Kept (w, ok u) go h g = g w h
  next-Kept (w, err fault) go h g = h

  load_children-Kept :
      (w : VirtualWorkspace) (directory : String) (names : List String)
      → IsOrdered w
      → Ends Kept (load_children planner index w directory names)
  unfolding load_children
  load_children-Kept w directory [] h = h
  load_children-Kept w directory (name ∷ names) h =
      bind-Ends Kept Kept (load_exact planner index w (join_name directory name) false) _
        (load_exact-Kept w (join_name directory name) false h)
        (λ loaded kept.
          next-Kept loaded (λ v. load_children planner index v directory names) kept
            (λ v o. load_children-Kept v directory names o))

  certify-IsOrdered :
      (w : VirtualWorkspace) (directory : String) (state : ResourceState) (digest : String)
      → IsOrdered w
      → Ends IsOrdered (certify planner index w directory state digest)
  unfolding certify
  certify-IsOrdered w directory state digest (e, b, a) =
      bind-Ends (λ entry. Unit {0}) IsOrdered (unwrap (lookup directory w.before)) _
        (unwrap-Ends (λ entry. Unit {0}) (lookup directory w.before) (λ entry _. tt))
        (λ entry _. (
          insert-IsSorted directory (record state { manifest = set_digest digest state.manifest })
              w.entries e,
          insert-IsSorted directory (set_digest digest entry) w.before b,
          a,
        ))

  expand-Kept :
      (w : VirtualWorkspace) (directory : String) (state : ResourceState)
      → IsOrdered w
      → Ends Kept (expand planner index w directory state)
  unfolding expand
  expand-Kept w directory state h =
      option_rule (Ends Kept) state.manifest.content_digest _ _
        (λ n. children (
          directory_children planner.file_system index planner.workspace planner.root_device
            planner.mutation_limits.max_entries directory))
        (λ digest e. h)
    where
      children :
          (found : Result WorkspaceEditProblem (Map ResourceKind))
          → Ends Kept (elim found [
            | err fault ↦ done (w, err fault)
            | ok kinds ↦
                certify planner index w directory state
                  (directory_membership_digest planner.file_system kinds)
                >>= λ w'. load_children planner index w' directory (keys kinds)
          ])
      children (err fault) = h
      children (ok kinds) =
          bind-Ends IsOrdered Kept
            (certify planner index w directory state
              (directory_membership_digest planner.file_system kinds))
            _
            (certify-IsOrdered w directory state
              (directory_membership_digest planner.file_system kinds) h)
            (λ w' o. load_children-Kept w' directory (keys kinds) o)

walk_fuel-pos : (max_entries levels : ℕ) → 1 ≤ walk_fuel max_entries levels
unfolding walk_fuel
walk_fuel-pos max_entries zero = omega arith
walk_fuel-pos max_entries (suc levels) = omega arith

walk_fuel-suc :
    (max_entries levels : ℕ)
    → walk_fuel max_entries (suc levels) ≡ 1 + max_entries * walk_fuel max_entries levels
unfolding walk_fuel
walk_fuel-suc max_entries levels = refl

add_mul : (n x : ℕ) → suc n * x ≡ x + n * x
add_mul n x = omega arith

module _ (planner : Planner) (index : ℕ) where
  abbrev limit : ℕ
  limit = planner.mutation_limits.max_entries

  abbrev levels : ℕ
  levels = planner.mutation_limits.max_recursion_depth

  -- the fuel that the directories on the stack may take
  abbrev weight : List (String × ℕ) → ℕ
  weight [] = 0
  weight ((directory, depth) ∷ pending) = walk_fuel limit (suc levels - depth) + weight pending

  -- What pushing children adds to the stack: at most the weight of each, and only within the limit.
  abbrev Pushed :
      Map ResourceState
      → ℕ
      → List String
      → List (String × ℕ)
      → Result WorkspaceEditProblem (List (String × ℕ))
      → Type 0
  Pushed entries depth paths pending pushed =
      Okay
        (λ next.
          (weight next ≤ weight pending + length paths * walk_fuel limit (levels - depth))
          × ((length paths ≡ 0) ⊎ (length entries ≤ limit)))
        pushed

  abbrev next_of : String → ℕ → ResourceState → List (String × ℕ) → List (String × ℕ)
  next_of path depth state pending =
      if is_directory state.manifest.resource_kind
      then (path, saturating_add u64_max depth 1) ∷ pending
      else pending

  weight-next_of :
      (path : String) (depth : ℕ) (state : ResourceState) (pending : List (String × ℕ))
      → depth ≤ levels
      → levels < u64_max
      → weight (next_of path depth state pending)
        ≤ weight pending + walk_fuel limit (levels - depth)
  weight-next_of path depth state pending d l =
      let deeper : saturating_add u64_max depth 1 ≡ depth + 1 =
        saturating_add_exact u64_max depth 1 (omega arith) in
      let lower : suc levels - saturating_add u64_max depth 1 ≡ levels - depth = omega arith in
      ground (arith, ap (walk_fuel limit) lower)

  push_children-Pushed :
      (entries : Map ResourceState) (directory : String) (depth : ℕ) (paths : List String)
      (pending : List (String × ℕ))
      → depth ≤ levels
      → levels < u64_max
      → Ends
          (Pushed entries depth paths pending)
          (push_children planner index entries directory depth paths pending)
  unfolding push_children
  push_children-Pushed entries directory depth [] pending d l = (omega arith, inl refl)
  push_children-Pushed entries directory depth (path ∷ paths) pending d l =
      bind-Ends (λ state. Unit {0}) (Pushed entries depth (path ∷ paths) pending)
        (unwrap (lookup path entries)) _
        (unwrap-Ends (λ state. Unit {0}) (lookup path entries) (λ state _. tt))
        (λ state _.
          if_rule (Ends (Pushed entries depth (path ∷ paths) pending)) (ltb limit (length entries))
            _ _ (λ e. tt)
            (λ e.
              Ends-weaken (Pushed entries depth paths (next_of path depth state pending))
                (Pushed entries depth (path ∷ paths) pending)
                (push_children planner index entries directory depth paths
                  (next_of path depth state pending))
                (push_children-Pushed entries directory depth paths
                  (next_of path depth state pending) d l)
                (λ pushed okay. heavier path state pushed e okay)))
    where
      heavier :
          (path : String) (state : ResourceState)
          (pushed : Result WorkspaceEditProblem (List (String × ℕ)))
          → ltb limit (length entries) ≡ false
          → Pushed entries depth paths (next_of path depth state pending) pushed
          → Pushed entries depth (path ∷ paths) pending pushed
      heavier path state (err fault) e okay = tt
      heavier path state (ok next) e okay = (
        grind (
          arith,
          okay.0,
          weight-next_of path depth state pending d l,
          add_mul (length paths) (walk_fuel limit (levels - depth)),
        ),
        inr (ground arith),
      )

  -- what is left on the stack weighs less than the directory that was taken
  lighter :
      (depth : ℕ) (directory : String) (m : Map ResourceState) (fuel rest left : ℕ)
      → depth ≤ levels
      → walk_fuel limit (suc levels - depth) + rest ≤ suc fuel
      → left ≤ rest + length (child_paths directory m) * walk_fuel limit (levels - depth)
      → (length (child_paths directory m) ≡ 0) ⊎ (length m ≤ limit)
      → left ≤ fuel
  lighter depth directory m fuel rest left d f h bound =
      let few : length (child_paths directory m) ≤ limit =
        ground (arith, length-child_paths directory m) in
      let below : suc levels - depth ≡ suc (levels - depth) = omega arith in
      omega (
        arith,
        h,
        f,
        ap (walk_fuel limit) below ∙ walk_fuel-suc limit (levels - depth),
        mul-le-mul_right (walk_fuel limit (levels - depth)) few,
      )

  walk-Kept :
      (fuel : ℕ) (w : VirtualWorkspace) (pending : List (String × ℕ))
      → IsOrdered w
      → levels < u64_max
      → weight pending ≤ fuel
      → Ends Kept (walk planner index fuel w pending)
  unfolding walk
  walk-Kept fuel w [] h l f = h
  walk-Kept zero w ((directory, depth) ∷ pending) h l f =
      absurd (omega (arith, walk_fuel-pos limit (suc levels - depth)))
  walk-Kept (suc fuel) w ((directory, depth) ∷ pending) h l f =
      if_rule (Ends Kept) (ltb levels depth) _ _ (λ deep. h)
        (λ deep.
          bind-Ends (λ state. Unit {0}) Kept (unwrap (lookup directory w.entries)) _
            (unwrap-Ends (λ state. Unit {0}) (lookup directory w.entries) (λ state _. tt))
            (λ state _.
              bind-Ends Kept Kept (expand planner index w directory state) _
                (expand-Kept planner index w directory state h)
                (λ loaded kept.
                  next-Kept planner index loaded (λ v. onward v) kept
                    (λ v o.
                      bind-Ends (Pushed v.entries depth (child_paths directory v.entries) pending)
                        Kept
                        (push_children planner index v.entries directory depth
                          (child_paths directory v.entries) pending)
                        _
                        (push_children-Pushed v.entries directory depth
                          (child_paths directory v.entries) pending (ground arith) l)
                        (λ pushed okay.
                          stepped v pushed o okay (ground arith)
                            (λ next lighter. walk-Kept fuel v next o l lighter))))))
    where
      onward : VirtualWorkspace → Run Loaded
      onward v =
          push_children planner index v.entries directory depth (child_paths directory v.entries)
            pending
          >>= λ pushed. elim pushed [
            | err fault ↦ done (v, err fault)
            | ok next ↦ walk planner index fuel v next
          ]

      stepped :
          (v : VirtualWorkspace) (pushed : Result WorkspaceEditProblem (List (String × ℕ)))
          → IsOrdered v
          → Pushed v.entries depth (child_paths directory v.entries) pending pushed
          → depth ≤ levels
          → ((next : List (String × ℕ))
              → weight next ≤ fuel
              → Ends Kept (walk planner index fuel v next))
          → Ends Kept (elim pushed [
            | err fault ↦ done (v, err fault)
            | ok next ↦ walk planner index fuel v next
          ])
      stepped v (err fault) o okay d go = o
      stepped v (ok next) o okay d go =
          go next (
            lighter depth directory v.entries fuel (weight pending) (weight next) d f okay.0 okay.1)

-- Where the greatest depth is not the greatest number, the fuel of loading a tree is enough, whatever the
-- file system answers, and the maps of the virtual workspace stay in order, also where loading fails.
pub load_resource_tree-Kept :
    (planner : Planner) (w : VirtualWorkspace) (path : String) (index : ℕ)
    → IsOrdered w
    → planner.mutation_limits.max_recursion_depth < u64_max
    → Ends Kept (load_resource_tree planner w path index)
unfolding load_resource_tree
load_resource_tree-Kept planner w path index h l =
    bind-Ends Kept Kept (load_exact planner index w path false) _
      (load_exact-Kept planner index w path false h) (λ loaded kept. walked loaded kept)
  where
    top :
        suc planner.mutation_limits.max_recursion_depth - 0
        ≡ suc planner.mutation_limits.max_recursion_depth
    top = omega arith

    walked :
        (loaded : Loaded)
        → Kept loaded
        → Ends Kept (elim loaded.1 [
          | err fault ↦ done loaded
          | ok _ ↦ unwrap (lookup path loaded.0.entries) >>= λ state.
              if is_directory state.manifest.resource_kind
              then walk planner index
                  (walk_fuel planner.mutation_limits.max_entries
                    (suc planner.mutation_limits.max_recursion_depth))
                  loaded.0
                  ((path, 0) ∷ [])
              else done loaded
        ])
    walked (v, err fault) o = o
    walked (v, ok u) o =
        bind-Ends (λ state. Unit {0}) Kept (unwrap (lookup path v.entries)) _
          (unwrap-Ends (λ state. Unit {0}) (lookup path v.entries) (λ state _. tt))
          (λ state _.
            if_rule (Ends Kept) (is_directory state.manifest.resource_kind) _ _
              (λ d.
                walk-Kept planner index
                  (walk_fuel planner.mutation_limits.max_entries
                    (suc planner.mutation_limits.max_recursion_depth))
                  v ((path, 0) ∷ []) o l
                  (omega (arith, ap (walk_fuel planner.mutation_limits.max_entries) top)))
              (λ f. o))
