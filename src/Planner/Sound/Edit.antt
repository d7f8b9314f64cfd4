-- ===== src/Planner/Sound/Edit.antt =====
-- A whole Workspace Edit: planning ends, and a plan that is returned keeps the limits and the scope.
use lspctl.Prelude.{
  ℕ, suc, ◌<◌, ◌≤◌, String, ◌≡◌, refl, none, some, List, [], ◌∷◌, ◌++◌, Result, ok, err, All, arith,
  if_rule, option_rule, result_rule, u64_max, length,
}
use lspctl.Json.{Json, Members, no_members, member, object, get, as_object, as_array}
use lspctl.Map.{Map, keys}
use lspctl.Edits.{WorkspaceEditProblem, validate_object_keys}
use lspctl.Edits.Plan.{ResourceKind, ManifestEntry, ResourceState, Planning}
use lspctl.Planner.Run.{done, unwrap}
use lspctl.Planner.Ends.{Ends, bind-Ends, unwrap-Ends}
use lspctl.Planner.Paths.{file_name}
use lspctl.Planner.Tree.{is_child}
use lspctl.Planner.Load.{Planner, beneath, is_directory}
use lspctl.Planner.Operations.{plan_text_operation, str_field}
use lspctl.Planner.Manifest.{
  child_kinds, entry_at, intended_entry, intended_entries, complete_before,
}
use lspctl.Planner.Edit.{
  DocumentVersionPrecondition, PlannedWorkspaceEdit, ChangeKind, create, rename, delete,
  unsupported, kind_of, known_version, present, fresh, plan_changes, plan_document_edit,
  plan_change, plan_document_changes, limit_problems, conclude, finish, plan_members,
  plan_workspace_edit_with_document_preconditions,
}
use lspctl.Planner.Scope.{InScope, IsSound}
use lspctl.Planner.Sound.Operations.{
  plan_text_operation-Sound, plan_create_operation-Sound, plan_rename_operation-Sound,
  plan_delete_operation-Sound,
}

kind_rule {ℓ} :
    {A : Type ℓ} (P : A → Type 0) (k : ChangeKind) (a b c d : A)
    → P a
    → P b
    → P c
    → P d
    → P (elim k [ create ↦ a | rename ↦ b | delete ↦ c | unsupported ↦ d ])
kind_rule P create a b c d x y z u = x
kind_rule P rename a b c d x y z u = y
kind_rule P delete a b c d x y z u = z
kind_rule P unsupported a b c d x y z u = u

module _ (planner : Planner) (bounded : planner.mutation_limits.max_recursion_depth < u64_max) where
  abbrev Sound : Planning → Type 0
  Sound = IsSound planner

  plan_changes-Sound :
      (annotations : Members) (index : ℕ) (entries : Members) (p : Planning)
      → Sound p
      → Ends Sound (plan_changes planner annotations index entries p)
  unfolding plan_changes
  plan_changes-Sound annotations index no_members p h = h
  plan_changes-Sound annotations index (member uri edits rest) p h =
      bind-Ends Sound Sound (plan_text_operation planner index p uri edits annotations none) _
        (plan_text_operation-Sound planner index bounded p uri edits annotations none h)
        (λ q s. plan_changes-Sound annotations (suc index) rest q s)

  module _ (annotations : Members) (preconditions : Map DocumentVersionPrecondition) where
    plan_document_edit-Sound :
        (index : ℕ) (change : Members) (text_document : Json) (p : Planning)
        → Sound p
        → Ends Sound
            (plan_document_edit planner annotations preconditions index change text_document p)
    unfolding plan_document_edit
    plan_document_edit-Sound index change text_document p h =
        result_rule (Ends Sound) (validate_object_keys change _ (some index)) _ _ (λ fault _. h)
          (λ u _.
            option_rule (Ends Sound) (as_object text_document) _ _ (λ n. h)
              (λ document _.
                result_rule (Ends Sound) (validate_object_keys document _ (some index)) _ _
                  (λ fault _. h)
                  (λ v _.
                    option_rule (Ends Sound) (str_field "uri" document) _ _ (λ n. h)
                      (λ uri _.
                        option_rule (Ends Sound)
                          (known_version preconditions uri (get "version" document)) _ _
                          (λ n.
                            plan_text_operation-Sound planner index bounded p uri _ annotations none
                              h)
                          (λ known _.
                            option_rule (Ends Sound) known _ _ (λ n. h)
                              (λ k _.
                                plan_text_operation-Sound planner index bounded p uri _ annotations
                                  (some k.digest) h))))))

    plan_change-Sound :
        (index : ℕ) (value : Json) (p : Planning)
        → Sound p
        → Ends Sound (plan_change planner annotations preconditions index value p)
    unfolding plan_change
    plan_change-Sound index value p h =
        option_rule (Ends Sound) (as_object value) _ _ (λ n. h)
          (λ change _.
            option_rule (Ends Sound) (get "textDocument" change) _ _
              (λ n.
                kind_rule (Ends Sound) (kind_of (str_field "kind" change)) _ _ _ _
                  (plan_create_operation-Sound planner index bounded p change annotations h)
                  (plan_rename_operation-Sound planner index bounded p change annotations h)
                  (plan_delete_operation-Sound planner index bounded p change annotations h) h)
              (λ text_document _. plan_document_edit-Sound index change text_document p h))

    plan_document_changes-Sound :
        (index : ℕ) (values : List Json) (p : Planning)
        → Sound p
        → Ends Sound (plan_document_changes planner annotations preconditions index values p)
    unfolding plan_document_changes
    plan_document_changes-Sound index [] p h = h
    plan_document_changes-Sound index (value ∷ rest) p h =
        bind-Ends Sound Sound (plan_change planner annotations preconditions index value p) _
          (plan_change-Sound index value p h)
          (λ q s. plan_document_changes-Sound (suc index) rest q s)

length-keys {ℓ} : {V : Type ℓ} (m : Map V) → length (keys m) ≡ length m
unfolding keys
length-keys [] = refl
length-keys ((k, v) ∷ m) = omega (arith, length-keys m)

append_nothing {ℓ} : {A : Type ℓ} (xs ys : List A) → xs ++ ys ≡ [] → ys ≡ []
append_nothing [] ys h = h
append_nothing (x ∷ xs) ys h = ground arith

abbrev Any {ℓ} : {A : Type ℓ} → A → Type 0
Any a = Unit

child_kinds-Ends :
    (directory : String) (entries : Map ResourceState) (children : Map ResourceKind)
    → Ends Any (child_kinds directory entries children)
unfolding child_kinds
child_kinds-Ends directory [] children = tt
child_kinds-Ends directory ((path, state) ∷ rest) children =
    if_rule (Ends Any) (is_child directory path state) _ _
      (λ t.
        bind-Ends Any Any (unwrap (file_name path)) _ (unwrap-Ends Any (file_name path) (λ n _. tt))
          (λ name _. child_kinds-Ends directory rest _))
      (λ f. child_kinds-Ends directory rest children)

module _ (planner : Planner) where
  intended_entry-Ends :
      (entries : Map ResourceState) (path : String) → Ends Any (intended_entry planner entries path)
  unfolding intended_entry
  intended_entry-Ends entries path =
      if_rule (Ends {A = ManifestEntry} Any) (is_directory (entry_at entries path).resource_kind) _
        (done (entry_at entries path))
        (λ d.
          bind-Ends Any (Any {A = ManifestEntry}) (child_kinds path (beneath path entries) []) _
            (child_kinds-Ends path (beneath path entries) []) (λ children _. tt))
        (λ f. tt)

  intended_entries-length :
      (entries : Map ResourceState) (paths : List String)
      → Ends (λ intended. length intended ≡ length paths) (intended_entries planner entries paths)
  unfolding intended_entries
  intended_entries-length entries [] = refl
  intended_entries-length entries (path ∷ paths) =
      bind-Ends Any (λ intended. length intended ≡ length (path ∷ paths))
        (intended_entry planner entries path) _ (intended_entry-Ends entries path)
        (λ entry _.
          bind-Ends (λ rest. length rest ≡ length paths)
            (λ intended. length intended ≡ length (path ∷ paths))
            (intended_entries planner entries paths) _ (intended_entries-length entries paths)
            (λ rest same. omega (arith, same)))

  -- A plan lies in the workspace and affects no more entries than allowed; a refusal gives a reason.
  abbrev pub IsPlanned : Result (List WorkspaceEditProblem) PlannedWorkspaceEdit → Type 0
  IsPlanned (err faults) = 1 ≤ length faults
  IsPlanned (ok planned) =
      All (InScope planner) planned.plan.operations
      × (length planned.plan.intended_manifest ≤ planner.mutation_limits.max_entries)

  conclude-IsPlanned :
      (annotations : Json) (p : Planning)
      → All (InScope planner) p.operations
      → length p.workspace.affected ≤ planner.mutation_limits.max_entries
      → Ends IsPlanned (conclude planner annotations p)
  unfolding conclude
  conclude-IsPlanned annotations p ops few =
      result_rule (Ends IsPlanned)
        (complete_before planner (keys p.workspace.affected) p.workspace.before) _ _
        (λ fault _. omega arith)
        (λ before _.
          bind-Ends (λ intended. length intended ≡ length (keys p.workspace.affected)) IsPlanned
            (intended_entries planner p.workspace.entries (keys p.workspace.affected)) _
            (intended_entries-length p.workspace.entries (keys p.workspace.affected))
            (λ intended same. (ops, omega (arith, same, few, length-keys p.workspace.affected))))

  limit_problems-none :
      (p : Planning)
      → limit_problems planner p ≡ []
      → length p.workspace.affected ≤ planner.mutation_limits.max_entries
  unfolding limit_problems
  limit_problems-none p h = ground arith

  finish-IsPlanned :
      (annotations : Json) (p : Planning)
      → IsSound planner p
      → Ends IsPlanned (finish planner annotations p)
  unfolding finish
  finish-IsPlanned annotations p h = decided (p.problems ++ limit_problems planner p) refl
    where
      decided :
          (faults : List WorkspaceEditProblem)
          → p.problems ++ limit_problems planner p ≡ faults
          → Ends IsPlanned (elim faults [
            | fault ∷ rest ↦ done (err (fault ∷ rest))
            | [] ↦ conclude planner annotations p
          ])
      decided (fault ∷ rest) e = omega arith
      decided [] e =
          conclude-IsPlanned annotations p h.1
            (limit_problems-none p (append_nothing p.problems (limit_problems planner p) e))

module _ (planner : Planner) where
  fresh-IsSound : IsSound planner fresh
  fresh-IsSound = ((tt, tt, tt), tt)

  plan_members-IsPlanned :
      (edit annotations : Members) (preconditions : Map DocumentVersionPrecondition)
      → planner.mutation_limits.max_recursion_depth < u64_max
      → Ends (IsPlanned planner) (plan_members planner edit annotations preconditions)
  unfolding plan_members
  plan_members-IsPlanned edit annotations preconditions bounded =
      option_rule (Ends (IsPlanned planner)) (present "changes" edit) _ _
        (λ n.
          option_rule (Ends (IsPlanned planner)) (present "documentChanges" edit) _ _
            (λ m. finish-IsPlanned planner (object annotations) fresh fresh-IsSound)
            (λ changes _.
              option_rule (Ends (IsPlanned planner)) (as_array changes) _ _ (λ m. omega arith)
                (λ entries _.
                  bind-Ends (IsSound planner) (IsPlanned planner)
                    (plan_document_changes planner annotations preconditions 0 entries fresh) _
                    (plan_document_changes-Sound planner bounded annotations preconditions 0 entries
                      fresh fresh-IsSound)
                    (λ p h. finish-IsPlanned planner (object annotations) p h))))
        (λ changes _.
          option_rule (Ends (IsPlanned planner)) (present "documentChanges" edit) _ _
            (λ m.
              option_rule (Ends (IsPlanned planner)) (as_object changes) _ _ (λ k. omega arith)
                (λ entries _.
                  bind-Ends (IsSound planner) (IsPlanned planner)
                    (plan_changes planner annotations 0 entries fresh) _
                    (plan_changes-Sound planner bounded annotations 0 entries fresh fresh-IsSound)
                    (λ p h. finish-IsPlanned planner (object annotations) p h)))
            (λ both _. omega arith))

  -- Where the greatest depth is not the greatest number, planning an edit runs out of no fuel, whatever
  -- the file system answers. A refusal gives a problem; every operation of a plan that is returned lies
  -- in the workspace, and the plan intends no more entries than the limit.
  pub plan_workspace_edit-IsPlanned :
      (edit : Json) (preconditions : Map DocumentVersionPrecondition)
      → planner.mutation_limits.max_recursion_depth < u64_max
      → Ends
          (IsPlanned planner)
          (plan_workspace_edit_with_document_preconditions planner edit preconditions)
  unfolding plan_workspace_edit_with_document_preconditions
  plan_workspace_edit-IsPlanned edit preconditions bounded =
      option_rule (Ends (IsPlanned planner)) (as_object edit) _ _ (λ n. omega arith)
        (λ fields _.
          result_rule (Ends (IsPlanned planner)) (validate_object_keys fields _ none) _ _
            (λ fault _. omega arith)
            (λ u _.
              option_rule (Ends (IsPlanned planner)) (get "changeAnnotations" fields) _ _
                (λ n. plan_members-IsPlanned fields no_members preconditions bounded)
                (λ value _.
                  option_rule (Ends (IsPlanned planner)) (as_object value) _ _ (λ n. omega arith)
                    (λ annotations _.
                      plan_members-IsPlanned fields annotations preconditions bounded))))
