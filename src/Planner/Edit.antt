-- ===== src/Planner/Edit.antt =====
-- `plan_workspace_edit_with_document_preconditions` of src/mutation/planner.rs: a whole Workspace Edit.
use Prim.Native.Nat.{min}
use lspctl.Prelude.{
  ℕ, suc, String, ◌||◌, Option, none, some, List, [], ◌∷◌, ◌++◌, Result, ok, err, if◌then◌else◌,
  ltb, leb, length, str_eq, i64_max,
}
use lspctl.Json.{
  Json, Members, no_members, member, null, number, pos_int, neg_int, object, string, nat, Number,
  get, json, as_object, as_array,
}
use lspctl.Map.{Map, lookup, keys, values}
use lspctl.Diagnostics.{same_number}
use lspctl.Edits.{WorkspaceEditProblem, problem, validate_object_keys}
use lspctl.Edits.Plan.{ManifestEntry, CanonicalOperation, PreviewSummary, Planning, add_problem}
use lspctl.Planner.Run.{Run, done, ◌>>=◌ as bind}
use lspctl.Planner.Load.{Planner}
use lspctl.Planner.Operations.{plan_text_operation, str_field}
use lspctl.Planner.Create.{plan_create_operation}
use lspctl.Planner.Rename.{plan_rename_operation}
use lspctl.Planner.Delete.{plan_delete_operation}
use lspctl.Planner.Manifest.{complete_before, intended_entries, by_path, count_changed}

-- the version is an integer of JSON that fits `i64`
pub record DocumentVersionPrecondition : Type 0 where
  pub version : Number
  pub digest : String

pub record CanonicalPlan : Type 0 where
  pub operations : List CanonicalOperation
  pub before_manifest : List ManifestEntry
  pub intended_manifest : List ManifestEntry

pub record PlannedWorkspaceEdit : Type 0 where
  pub plan : CanonicalPlan
  pub annotations : Json
  pub summary : PreviewSummary

-- `Value::as_i64`
abbrev as_i64 : Json → Option Number
as_i64 (number (pos_int n)) = if leb n i64_max then some (pos_int n) else none
as_i64 (number (neg_int n)) = some (neg_int n)
as_i64 _ = none

unfoldable pub document_version_precondition :
    Map DocumentVersionPrecondition → String → Number → Option DocumentVersionPrecondition
unfolding lookup
document_version_precondition preconditions uri version = elim (lookup uri preconditions) [
  | none ↦ none
  | some precondition ↦ if same_number precondition.version version then some precondition else none
]

-- the version that the entry names, where it is not null, and what is known of it
abbrev pub known_version :
    Map DocumentVersionPrecondition
    → String
    → Option Json
    → Option (Option DocumentVersionPrecondition)
known_version preconditions uri none = none
known_version preconditions uri (some null) = none
known_version preconditions uri (some version) = some (elim (as_i64 version) [
  | none ↦ none
  | some v ↦ document_version_precondition preconditions uri v
])

-- `change.get("kind").and_then(Value::as_str)` as it is matched
pub data ChangeKind : Type 0 where
  create rename delete unsupported : ChangeKind

abbrev pub kind_of : Option String → ChangeKind
kind_of none = unsupported
kind_of (some name) =
    if str_eq name "create"
    then create
    else if str_eq name "rename"
    then rename
    else if str_eq name "delete"
    then delete
    else unsupported

-- a member that is there and not null
abbrev pub present : String → Members → Option Json
present name edit = elim (get name edit) [
  | none ↦ none
  | some null ↦ none
  | some value ↦ some value
]

abbrev pub fresh : Planning
fresh = record {
  workspace = record { entries = []; before = []; affected = []; rollback_bytes = 0 };
  operations = [];
  summary = record { files_changed = 0; text_edits = 0; creates = 0; renames = 0; deletes = 0 };
  total_new_text_bytes = 0;
  problems = [];
}

abbrev exceeded : String → String → ℕ → ℕ → WorkspaceEditProblem
exceeded message resource limit observed = problem "resource_limit_exceeded" message none none (
    some (
      json
        (("resource", string resource) ∷ ("limit", nat limit) ∷ ("observed", nat observed) ∷ [])))

abbrev unknown : String → Option ℕ → Option Json → WorkspaceEditProblem
unknown message index details = problem "unknown_operation" message index none details

module _ (planner : Planner) (annotations : Members) where
  -- the loop over `changes`, in the order of the URIs
  unfoldable pub plan_changes : ℕ → Members → Planning → Run Planning
  unfolding plan_text_operation
  plan_changes index no_members p = done p
  plan_changes index (member uri edits rest) p =
      bind (plan_text_operation planner index p uri edits annotations none)
        (λ q. plan_changes (suc index) rest q)

  module _ (preconditions : Map DocumentVersionPrecondition) where
    -- an entry of `documentChanges` with a text document
    unfoldable pub plan_document_edit : ℕ → Members → Json → Planning → Run Planning
    unfolding plan_text_operation document_version_precondition
    plan_document_edit index change text_document p =
        elim (validate_object_keys change ("textDocument" ∷ "edits" ∷ []) (some index)) [
          | err fault ↦ done (add_problem p fault)
          | ok _ ↦ elim (as_object text_document) [
            | none ↦ done (
                add_problem p
                  (unknown "TextDocumentEdit.textDocument must be an object." (some index) none))
            | some document ↦
                elim (validate_object_keys document ("uri" ∷ "version" ∷ []) (some index)) [
                  | err fault ↦ done (add_problem p fault)
                  | ok _ ↦ elim (str_field "uri" document) [
                    | none ↦ done (
                        add_problem p (
                          problem "malformed_uri" "TextDocumentEdit is missing a string uri."
                            (some index) none none))
                    | some uri ↦
                        let edits : Json = elim (get "edits" change) [
                          | none ↦ null
                          | some value ↦ value
                        ] in
                        elim (known_version preconditions uri (get "version" document)) [
                          | none ↦ plan_text_operation planner index p uri edits annotations none
                          | some (some known) ↦
                              plan_text_operation planner index p uri edits annotations
                                (some known.digest)
                          | some none ↦ done (
                              add_problem p (
                                problem "invalid_document_version"
                                  "A local Workspace Edit cannot prove the originating Document version."
                                  (some index) none none))
                        ]
                  ]
                ]
          ]
        ]

    -- an entry of `documentChanges`
    unfoldable pub plan_change : ℕ → Json → Planning → Run Planning
    unfolding plan_document_edit plan_create_operation plan_rename_operation plan_delete_operation
    plan_change index value p = elim (as_object value) [
      | none ↦
          done
            (add_problem p (unknown "A documentChanges entry must be an object." (some index) none))
      | some change ↦ elim (get "textDocument" change) [
        | some text_document ↦ plan_document_edit index change text_document p
        | none ↦ elim (kind_of (str_field "kind" change)) [
          | create ↦ plan_create_operation planner index p change annotations
          | rename ↦ plan_rename_operation planner index p change annotations
          | delete ↦ plan_delete_operation planner index p change annotations
          | unsupported ↦ done (
              add_problem p (
                unknown "The documentChanges operation kind is unsupported." (some index)
                  (some (object change))))
        ]
      ]
    ]

    unfoldable pub plan_document_changes : ℕ → List Json → Planning → Run Planning
    unfolding plan_change
    plan_document_changes index [] p = done p
    plan_document_changes index (value ∷ rest) p =
        bind (plan_change index value p) (λ q. plan_document_changes (suc index) rest q)

module _ (planner : Planner) where
  -- the limits of a whole Mutation
  unfoldable pub limit_problems : Planning → List WorkspaceEditProblem
  limit_problems p =
      (if ltb planner.mutation_limits.max_entries (length p.workspace.affected)
        then exceeded "The Mutation affects too many filesystem entries." "entries"
            planner.mutation_limits.max_entries (length p.workspace.affected)
          ∷ []
        else [])
      ++ ((if ltb planner.mutation_limits.max_rollback_bytes p.workspace.rollback_bytes
            then exceeded "The Mutation needs too much rollback storage." "rollbackBytes"
                planner.mutation_limits.max_rollback_bytes p.workspace.rollback_bytes
              ∷ []
            else [])
          ++ (if ltb planner.preview_limits.max_text_bytes p.total_new_text_bytes
                || ltb planner.mutation_limits.max_staged_text_bytes p.total_new_text_bytes
              then exceeded "The Mutation contains too much replacement text." "stagedTextBytes"
                  (min planner.preview_limits.max_text_bytes
                    planner.mutation_limits.max_staged_text_bytes)
                  p.total_new_text_bytes
                ∷ []
              else []))

  -- the plan of what has been reported without a problem
  unfoldable pub conclude :
      Json → Planning → Run (Result (List WorkspaceEditProblem) PlannedWorkspaceEdit)
  unfolding complete_before intended_entries by_path count_changed keys values
  conclude annotations p =
      elim (complete_before planner (keys p.workspace.affected) p.workspace.before) [
        | err fault ↦ done (err (fault ∷ []))
        | ok before ↦
            bind (intended_entries planner p.workspace.entries (keys p.workspace.affected))
              (λ intended. done (
                ok (record {
                  plan = record {
                    operations = p.operations;
                    before_manifest = values before;
                    intended_manifest = intended;
                  };
                  annotations = annotations;
                  summary = record (p.summary) {
                    files_changed = count_changed (by_path (values before) []) intended;
                  };
                })))
      ]

  unfoldable pub finish :
      Json → Planning → Run (Result (List WorkspaceEditProblem) PlannedWorkspaceEdit)
  unfolding limit_problems conclude
  finish annotations p = elim (p.problems ++ limit_problems p) [
    | fault ∷ faults ↦ done (err (fault ∷ faults))
    | [] ↦ conclude annotations p
  ]

  abbrev refused :
      WorkspaceEditProblem → Run (Result (List WorkspaceEditProblem) PlannedWorkspaceEdit)
  refused fault = done (err (fault ∷ []))

  unfoldable pub plan_members :
      Members
      → Members
      → Map DocumentVersionPrecondition
      → Run (Result (List WorkspaceEditProblem) PlannedWorkspaceEdit)
  unfolding plan_changes plan_document_changes finish
  plan_members edit annotations preconditions = elim (present "changes" edit) [
    | some changes ↦ elim (present "documentChanges" edit) [
      | some both ↦ refused (
          problem "both_changes_and_document_changes"
            "WorkspaceEdit cannot contain both changes and documentChanges." none none none)
      | none ↦ elim (as_object changes) [
        | none ↦ refused (unknown "WorkspaceEdit.changes must be an object." none none)
        | some entries ↦
            bind (plan_changes planner annotations 0 entries fresh) (finish (object annotations))
      ]
    ]
    | none ↦ elim (present "documentChanges" edit) [
      | none ↦ finish (object annotations) fresh
      | some changes ↦ elim (as_array changes) [
        | none ↦ refused (unknown "WorkspaceEdit.documentChanges must be an array." none none)
        | some entries ↦
            bind (plan_document_changes planner annotations preconditions 0 entries fresh)
              (finish (object annotations))
      ]
    ]
  ]

  unfoldable pub plan_workspace_edit_with_document_preconditions :
      Json
      → Map DocumentVersionPrecondition
      → Run (Result (List WorkspaceEditProblem) PlannedWorkspaceEdit)
  unfolding plan_members
  plan_workspace_edit_with_document_preconditions edit preconditions = elim (as_object edit) [
    | none ↦ refused (unknown "WorkspaceEdit must be a JSON object." none none)
    | some fields ↦
        elim (validate_object_keys fields ("changes" ∷ "documentChanges" ∷ "changeAnnotations" ∷ [])
          none) [
            | err fault ↦ refused fault
            | ok _ ↦ elim (get "changeAnnotations" fields) [
              | none ↦ plan_members fields no_members preconditions
              | some value ↦ elim (as_object value) [
                | none ↦ refused (
                    problem "missing_annotation" "changeAnnotations must be an object." none none
                      none)
                | some annotations ↦ plan_members fields annotations preconditions
              ]
            ]
          ]
  ]

  unfoldable pub plan_workspace_edit :
      Json → Run (Result (List WorkspaceEditProblem) PlannedWorkspaceEdit)
  unfolding plan_workspace_edit_with_document_preconditions
  plan_workspace_edit edit = plan_workspace_edit_with_document_preconditions edit []
