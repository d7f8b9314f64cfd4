-- ===== src/Planner/Sound.antt =====
-- Each operation of src/mutation/planner.rs keeps the virtual workspace in order, records only what
-- lies in the workspace, and runs out of no fuel.
pub mod Operations
pub mod Edit
use lspctl.Prelude.{
  ℕ, ◌<◌, String, ◌≡◌, refl, Bool, true, false, not, ◌&&◌, ◌||◌, Option, none, some, List, [], ◌∷◌,
  ◌++◌, Result, ok, err, All, arith, if_rule, option_rule, result_rule, str_eq, u64_max,
  saturating_add, length, if◌then◌else◌, Option-cases, inl, inr,
}
use lspctl.Json.{Json, Members, as_array}
use lspctl.Text.{Bytes, is_utf8}
use lspctl.Map.{Map, lookup, insert}
use lspctl.Map.Order.{IsSorted, insert-IsSorted}
use lspctl.Position.{PositionEncoding}
use lspctl.Edits.{WorkspaceEditProblem, problem, ParsedTextEdit}
use lspctl.Edits.Render.{sort_edits, overlapping, Rendering, render}
use lspctl.Edits.Plan.{
  ResourceState, VirtualWorkspace, Planning, CanonicalOperation, text_operation, create_operation,
  rename_operation, delete_operation, add_problem, add_affected, parse_edits, has_problem,
  is_regular, record_operation, with_before_digest, plan_parsed, plan_loaded,
}
use lspctl.Planner.Run.{Run, done, unwrap}
use lspctl.Planner.Ends.{Ends}
use lspctl.Planner.Load.{Planner}
use lspctl.Planner.FileSystem.{missing_resource}
use lspctl.Planner.Load.Sorted.{IsOrdered, Okay, bind-Okay}
use lspctl.Planner.Operations.{set_entry, clear_paths}
use lspctl.Planner.Scope.{InWorkspace, InScope, IsSound, All-snoc}

pub set_entry-IsOrdered :
    (path : String) (state : ResourceState) (w : VirtualWorkspace)
    → IsOrdered w
    → IsOrdered (set_entry path state w)
unfolding set_entry add_affected
set_entry-IsOrdered path state w (e, b, a) =
    (insert-IsSorted path state w.entries e, b, insert-IsSorted path tt w.affected a)

pub clear_paths-IsOrdered :
    (paths : List String) (w : VirtualWorkspace) → IsOrdered w → IsOrdered (clear_paths paths w)
unfolding clear_paths
clear_paths-IsOrdered [] w h = h
clear_paths-IsOrdered (path ∷ paths) w h =
    clear_paths-IsOrdered paths (set_entry path (missing_resource path) w)
      (set_entry-IsOrdered path (missing_resource path) w h)

module _ (planner : Planner) (digest : Bytes → String) (index : ℕ) (uri path : String)
    (inside : InWorkspace planner path) where
  -- What holds of the planning where it goes on without a panic.
  abbrev Sound : Option Planning → Type 0
  Sound none = Unit
  Sound (some p) = IsSound planner p

  record_operation-IsSound :
      (p : Planning) (state : ResourceState) (before_digest : String) (r : Rendering)
      → IsSound planner p
      → IsSound planner (record_operation digest index uri p path state before_digest r)
  unfolding record_operation add_affected
  record_operation-IsSound p state before_digest r ((e, b, a), ops) =
      if_rule (IsSound planner) (str_eq (digest r.result) before_digest) _ _
        (λ same. ((e, b, a), ops))
        (λ other. (
          (
            insert-IsSorted path _ p.workspace.entries e,
            b,
            insert-IsSorted path tt p.workspace.affected a,
          ),
          All-snoc (InScope planner) p.operations _ ops inside,
        ))

  with_before_digest-Sound :
      (p : Planning) (state : ResourceState) (r : Option Rendering)
      → IsSound planner p
      → Sound (with_before_digest digest index uri p path state r)
  with_before_digest-Sound p state none h = tt
  with_before_digest-Sound p state (some r) h =
      option_rule Sound state.manifest.content_digest _ _ (λ n. tt)
        (λ before_digest e. record_operation-IsSound p state before_digest r h)

  plan_parsed-Sound :
      (p : Planning) (state : ResourceState) (bytes : Bytes) (edits : List ParsedTextEdit)
      (faults : List WorkspaceEditProblem)
      → IsSound planner p
      → Sound (plan_parsed digest index uri p path state bytes edits faults)
  unfolding plan_parsed
  plan_parsed-Sound p state bytes edits faults h =
      if_rule Sound (overlapping (sort_edits edits)) _ _ (λ o. h)
        (λ n.
          if_rule Sound (has_problem index (p.problems ++ faults)) _ _ (λ t. h)
            (λ f.
              with_before_digest-Sound (record p { problems = p.problems ++ faults }) state
                (render bytes
                  (record {
                    result = [];
                    cursor = 0;
                    total_new_text_bytes = p.total_new_text_bytes;
                    canonical_edits = [];
                  })
                  (sort_edits edits))
                h))

  pub plan_loaded-Sound :
      (p : Planning) (edits_value : Json) (annotations : Members) (encoding : PositionEncoding)
      → IsSound planner p
      → Ends
          (IsSound planner)
          (unwrap (plan_loaded digest index uri p path edits_value annotations encoding))
  unfolding plan_loaded
  plan_loaded-Sound p edits_value annotations encoding h =
      ends (plan_loaded digest index uri p path edits_value annotations encoding) loaded
    where
      ends : (o : Option Planning) → Sound o → Ends (IsSound planner) (unwrap o)
      ends none s = tt
      ends (some q) s = s

      loaded : Sound (plan_loaded digest index uri p path edits_value annotations encoding)
      loaded =
          option_rule Sound (lookup path p.workspace.entries) _ _ (λ n. tt)
            (λ state _.
              if_rule Sound (not (is_regular state.manifest.resource_kind)) _ _ (λ t. h)
                (λ f.
                  option_rule Sound state.text _ _ (λ n. h)
                    (λ bytes _.
                      if_rule Sound (not (is_utf8 bytes)) _ _ (λ t. h)
                        (λ g.
                          option_rule Sound (as_array edits_value) _ _ (λ n. h)
                            (λ raw _.
                              plan_parsed-Sound p state bytes
                                (parse_edits bytes annotations encoding index path 0 raw).0
                                (parse_edits bytes annotations encoding index path 0 raw).1 h)))))
