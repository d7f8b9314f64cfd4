-- ===== src/Planner/Operations.antt =====
-- `plan_text_operation` of src/mutation/planner.rs, and what the other operations share with it. Each
-- returns what it has changed, the problems it has reported among it.
use lspctl.Prelude.{
  ℕ, String, Bool, true, false, Option, none, some, List, [], ◌∷◌, Result, ok, err, ◌>>◌, ◌==◌,
}
use lspctl.Json.{Json, Members, get, as_str, as_object}
use lspctl.Map.{insert}
use lspctl.Edits.{WorkspaceEditProblem, problem, validate_resource_operation, validate_annotation}
use lspctl.Edits.Plan.{
  ResourceKind, file, directory, missing, ResourceState, VirtualWorkspace, Planning, add_problem,
  add_affected, stale_version, plan_loaded,
}
use lspctl.Canonical.{digest_raw_bytes}
use lspctl.Planner.Run.{Run, done, ◌>>=◌ as bind, unwrap}
use lspctl.Planner.FileSystem.{missing_resource}
use lspctl.Planner.Load.{Planner, path_from_file_uri}
use lspctl.Planner.Tree.{Loaded, load_exact}

-- `operation.get(name).and_then(Value::as_str)`
abbrev pub str_field : String → Members → Option String
str_field name operation = elim (get name operation) [ none ↦ none | some value ↦ as_str value ]

-- `operation.get("options").and_then(Value::as_object)`
abbrev pub options_of : Members → Option Members
options_of operation = elim (get "options" operation) [ none ↦ none | some value ↦ as_object value ]

abbrev pub same_kind : ResourceKind → ResourceKind → Bool
same_kind file file = true
same_kind directory directory = true
same_kind missing missing = true
same_kind _ _ = false

abbrev pub same_device : Option ℕ → Option ℕ → Bool
same_device none none = true
same_device (some d) (some e) = d == e
same_device _ _ = false

unfoldable pub set_entry : String → ResourceState → VirtualWorkspace → VirtualWorkspace
unfolding insert add_affected
set_entry path state w = record w {
  entries = insert path state w.entries;
  affected = add_affected path w.affected;
}

-- a loop that makes each path a missing resource
unfoldable pub clear_paths : List String → VirtualWorkspace → VirtualWorkspace
unfolding missing_resource set_entry
clear_paths [] w = w
clear_paths (path ∷ paths) w = clear_paths paths (set_entry path (missing_resource path) w)

module _ (planner : Planner) (index : ℕ) where
  abbrev pub reports : Planning → WorkspaceEditProblem → Run Planning
  reports p fault = done (add_problem p fault)

  abbrev pub fault_at : String → String → String → Planning → Run Planning
  fault_at code message path p = reports p (problem code message (some index) (some path) none)

  -- goes on where a load succeeds, with the changed workspace either way
  abbrev pub after : Planning → Run Loaded → (Planning → Run Planning) → Run Planning
  after p loading go = bind loading (λ loaded.
      let q = record p { workspace = loaded.0 } in
      elim loaded.1 [ err fault ↦ reports q fault | ok _ ↦ go q ])

  -- the guards that an operation on resources begins with
  abbrev pub guards :
      Members → Members → List String → List String → Result WorkspaceEditProblem (Unit {0})
  guards operation annotations allowed_keys allowed_option_keys = do
    validate_resource_operation operation allowed_keys allowed_option_keys index
    validate_annotation operation annotations index

  abbrev pub missing_uri : String → WorkspaceEditProblem
  missing_uri message = problem "malformed_uri" message (some index) none none

  unfoldable pub plan_text_operation :
      Planning → String → Json → Members → Option String → Run Planning
  unfolding path_from_file_uri plan_loaded digest_raw_bytes
  plan_text_operation p uri edits_value annotations expected_digest =
      elim (path_from_file_uri planner uri index) [
        | err fault ↦ reports p fault
        | ok path ↦ after p (load_exact planner index p.workspace path true) (λ q.
            elim (stale_version q path expected_digest) [
              | some details ↦ reports q (
                  problem "invalid_document_version"
                    "The synchronized Document content no longer matches the originating version."
                    (some index) (some path) (some details))
              | none ↦ unwrap (
                  plan_loaded (digest_raw_bytes planner.file_system.sha256_hex) index uri q path
                    edits_value annotations planner.position_encoding)
            ])
      ]
