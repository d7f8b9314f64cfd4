-- ===== src/Planner/Load/Sorted.antt =====
-- Loading resources keeps the maps of the virtual workspace in order, and runs out of no fuel.
use lspctl.Prelude.{
  ℕ, String, ◌≡◌, refl, Bool, ◌&&◌, some, Result, ok, err, if_rule, option_rule, ◌>>=◌,
  if◌then◌else◌,
}
use lspctl.Map.{lookup}
use lspctl.Map.Order.{IsSorted, insert-IsSorted}
use lspctl.Edits.{WorkspaceEditProblem}
use lspctl.Edits.Plan.{ResourceState, VirtualWorkspace}
use lspctl.Planner.Ends.{Ends}
use lspctl.Planner.Paths.{ancestors}
use lspctl.Planner.FileSystem.{missing_resource}
use lspctl.Planner.Inspect.{validate_existing_ancestors, read_text_file}
use lspctl.Planner.Load.{
  Planner, any_missing, lacks_text, read_source, remember, inspected, load_exact_resource,
}

abbrev pub IsOrdered : VirtualWorkspace → Type 0
IsOrdered w = IsSorted w.entries × IsSorted w.before × IsSorted w.affected

-- what holds of the value of a result
abbrev pub Okay {ℓ} : {A : Type ℓ} → (A → Type 0) → Result WorkspaceEditProblem A → Type 0
Okay P (ok a) = P a
Okay P (err fault) = Unit

pub bind-Okay {ℓ κ} :
    {A : Type ℓ} {B : Type κ} (Q : B → Type 0) (m : Result WorkspaceEditProblem A)
    (f : A → Result WorkspaceEditProblem B)
    → ((a : A) → m ≡ ok a → Okay Q (f a))
    → Okay Q (m >>= f)
bind-Okay Q (ok a) f g = g a refl
bind-Okay Q (err fault) f g = tt

module _ (planner : Planner) (index : ℕ) where
  read_source-IsOrdered :
      (w : VirtualWorkspace) (path : String) (state : ResourceState) (source : String)
      → IsOrdered w
      → Okay IsOrdered (read_source planner w path state source index)
  unfolding read_source
  read_source-IsOrdered w path state source h =
      bind-Okay IsOrdered
        (validate_existing_ancestors planner.file_system index planner.workspace planner.root_device
          source)
        _
        (λ u _.
          bind-Okay IsOrdered
            (read_text_file planner.file_system index source
              planner.preview_limits.max_document_text_bytes)
            _
            (λ bytes _.
              (insert-IsSorted path (record state { text = some bytes }) w.entries h.0, h.1, h.2)))

  remember-IsOrdered :
      (w : VirtualWorkspace) (path : String) (state : ResourceState)
      → IsOrdered w
      → IsOrdered (remember planner w path state)
  unfolding remember
  remember-IsOrdered w path state (e, b, a) =
      (insert-IsSorted path state w.entries e, insert-IsSorted path state.manifest w.before b, a)

  pub load_exact_resource-IsOrdered :
      (w : VirtualWorkspace) (path : String) (load_text : Bool)
      → IsOrdered w
      → Ends (Okay IsOrdered) (load_exact_resource planner w path index load_text)
  unfolding load_exact_resource
  load_exact_resource-IsOrdered w path load_text h =
      option_rule (Ends (Okay IsOrdered)) (lookup path w.entries) _ _
        (λ new.
          bind-Okay IsOrdered
            (if any_missing (ancestors path) w.entries
              then ok (missing_resource path)
              else inspected planner path index load_text)
            (λ s. ok (remember planner w path s)) (λ s _. remember-IsOrdered w path s h))
        (λ state known.
          if_rule (Ends (Okay IsOrdered)) (load_text && lacks_text planner state) _ _
            (λ t.
              option_rule (Ends (Okay IsOrdered)) state.text_source _ _ (λ n. tt)
                (λ source e. read_source-IsOrdered w path state source h))
            (λ f. h))
