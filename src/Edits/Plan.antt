-- ===== src/Edits/Plan.antt =====
-- `plan_text_operation` of src/mutation/planner.rs from the loaded file on, and the virtual workspace.
use lspctl.Prelude.{
  ℕ, ◌+◌, String, Bool, true, false, not, ◌||◌, Option, none, some, List, [], ◌∷◌, ◌++◌, ok, err,
  if◌then◌else◌, ◌==◌, length, str_eq, u64_max, saturating_add,
}
use lspctl.Json.{Json, Members, as_array, string, null, json}
use lspctl.Text.{Bytes, is_utf8}
use lspctl.Map.{Map, lookup, insert}
use lspctl.Position.{PositionEncoding}
use lspctl.Edits.{WorkspaceEditProblem, problem, ParsedTextEdit, parse_text_edit}
use lspctl.Edits.Render.{CanonicalTextEdit, sort_edits, overlapping, Rendering, render}

pub data ResourceKind : Type 0 where
  file directory missing : ResourceKind

pub record ManifestEntry : Type 0 where
  pub path : String
  pub exists : Bool
  pub resource_kind : ResourceKind
  pub identity_digest : Option String
  pub content_digest : Option String
  pub metadata_digest : Option String

pub record ResourceState : Type 0 where
  pub manifest : ManifestEntry
  pub text : Option Bytes
  pub text_source : Option String

pub record VirtualWorkspace : Type 0 where
  pub entries : Map ResourceState
  pub before : Map ManifestEntry
  pub affected : Map (Unit {0})
  pub rollback_bytes : ℕ

pub data CanonicalOperation : Type 0 where
  text_operation :
      ℕ → String → String → String → String → List CanonicalTextEdit → CanonicalOperation
  create_operation : ℕ → String → String → Bool → Bool → CanonicalOperation
  rename_operation : ℕ → String → String → String → String → Bool → Bool → CanonicalOperation
  delete_operation : ℕ → String → String → Bool → Bool → CanonicalOperation

pub record PreviewSummary : Type 0 where
  pub files_changed : ℕ
  pub text_edits : ℕ
  pub creates : ℕ
  pub renames : ℕ
  pub deletes : ℕ

-- What the operations change.
pub record Planning : Type 0 where
  pub workspace : VirtualWorkspace
  pub operations : List CanonicalOperation
  pub summary : PreviewSummary
  pub total_new_text_bytes : ℕ
  pub problems : List WorkspaceEditProblem

abbrev pub add_problem : Planning → WorkspaceEditProblem → Planning
add_problem p fault = record p { problems = p.problems ++ fault ∷ [] }

-- the loop that parses the edits: those that parse, and a problem for each other
unfoldable pub parse_edits :
    Bytes
    → Members
    → PositionEncoding
    → ℕ
    → String
    → ℕ
    → List Json
    → List ParsedTextEdit × List WorkspaceEditProblem
parse_edits text annotations encoding index path ordinal [] = ([], [])
parse_edits text annotations encoding index path ordinal (raw ∷ rest) =
    let (edits, problems) = parse_edits text annotations encoding index path (ordinal + 1) rest in
    elim (parse_text_edit text raw annotations encoding index path ordinal) [
      | ok edit ↦ (edit ∷ edits, problems)
      | err fault ↦ (edits, fault ∷ problems)
    ]

abbrev pub same_index : Option ℕ → ℕ → Bool
same_index none index = false
same_index (some i) index = i == index

-- `problems.iter().any(|problem| problem.operation_index == Some(index))`
unfoldable pub has_problem : ℕ → List WorkspaceEditProblem → Bool
has_problem index [] = false
has_problem index (fault ∷ faults) =
    same_index fault.operation_index index || has_problem index faults

-- `affected.insert(path)`
unfoldable pub add_affected : String → Map (Unit {0}) → Map (Unit {0})
unfolding insert
add_affected path paths = insert path tt paths

-- the digest that the originating document version has, against that of the file
abbrev pub stale_version : Planning → String → Option String → Option Json
stale_version p path none = none
stale_version p path (some expected) =
    let actual : Option String = elim (lookup path p.workspace.before) [
      | none ↦ none
      | some entry ↦ entry.content_digest
    ] in
    elim actual [
      | none ↦ some (json (("expectedDigest", string expected) ∷ ("actualDigest", null) ∷ []))
      | some digest ↦
          if str_eq digest expected
          then none
          else some
              (json (("expectedDigest", string expected) ∷ ("actualDigest", string digest) ∷ []))
    ]

abbrev pub is_regular : ResourceKind → Bool
is_regular file = true
is_regular _ = false

module _ (digest_raw_bytes : Bytes → String) (index : ℕ) (uri : String) where
  -- the last part: the new text, if it has another digest than the old one
  unfoldable pub record_operation :
      Planning → String → ResourceState → String → Rendering → Planning
  unfolding add_affected
  record_operation p path state before_digest r =
      let counted = record p { total_new_text_bytes = r.total_new_text_bytes } in
      let after_digest = digest_raw_bytes r.result in
      if str_eq after_digest before_digest then counted else record counted {
        workspace = record (p.workspace) {
          entries =
              insert path
                (record state {
                  text = some r.result;
                  manifest = record (state.manifest) { content_digest = some after_digest };
                })
                p.workspace.entries;
          affected = add_affected path p.workspace.affected;
        };
        summary = record (p.summary) {
          text_edits = saturating_add u64_max p.summary.text_edits (length r.canonical_edits);
        };
        operations =
            p.operations
            ++ text_operation index uri path before_digest after_digest r.canonical_edits ∷ [];
      }

  -- `content_digest.clone().unwrap()`, after the loop
  abbrev pub with_before_digest :
      Planning → String → ResourceState → Option Rendering → Option Planning
  with_before_digest p path state none = none
  with_before_digest p path state (some r) = elim state.manifest.content_digest [
    | none ↦ none
    | some before_digest ↦ some (record_operation p path state before_digest r)
  ]

  -- from the parsed edits on; `none` is a panic
  unfoldable pub plan_parsed :
      Planning
      → String
      → ResourceState
      → Bytes
      → List ParsedTextEdit
      → List WorkspaceEditProblem
      → Option Planning
  plan_parsed p path state bytes edits faults =
      let sorted = sort_edits edits in
      let known = record p { problems = p.problems ++ faults } in
      if overlapping sorted
      then some (
          add_problem known (
            problem "overlapping_edits" "Text edits overlap or ambiguously share a start position."
              (some index) (some path) none))
      else if has_problem index known.problems
      then some known
      else with_before_digest known path state (
          render bytes
            (record {
              result = [];
              cursor = 0;
              total_new_text_bytes = p.total_new_text_bytes;
              canonical_edits = [];
            })
            sorted)

  abbrev pub fault_at : String → String → String → Planning → Option Planning
  fault_at path code message p =
      some (add_problem p (problem code message (some index) (some path) none))

  -- from `get_mut(&path)` on
  unfoldable pub plan_loaded :
      Planning → String → Json → Members → PositionEncoding → Option Planning
  unfolding parse_edits plan_parsed
  plan_loaded p path edits_value annotations encoding = elim (lookup path p.workspace.entries) [
    | none ↦ none
    | some state ↦
        if not (is_regular state.manifest.resource_kind)
        then fault_at path "unsupported_resource_kind" "Text edits require a regular file." p
        else elim state.text [
          | none ↦
              fault_at path "resource_limit_exceeded"
                "The text Document exceeds the Preview per-Document limit." p
          | some bytes ↦
              if not (is_utf8 bytes)
              then fault_at path "unsupported_resource_kind"
                  "Text edits require a UTF-8 regular file." p
              else elim (as_array edits_value) [
                | none ↦
                    fault_at path "unknown_operation" "TextDocumentEdit.edits must be an array." p
                | some raw_edits ↦
                    let (edits, faults) =
                      parse_edits bytes annotations encoding index path 0 raw_edits in
                    plan_parsed p path state bytes edits faults
              ]
        ]
  ]
