-- ===== src/Planner/Manifest.antt =====
-- The manifests of src/mutation/planner.rs: what stands at the affected paths before and after, the
-- number of files that differ, and `inspect_manifest`, which observes a manifest again.
use lspctl.Prelude.{
  ℕ, suc, String, Bool, true, false, not, ◌&&◌, Option, none, some, List, [], ◌∷◌, Result, ok, err,
  ◌>>=◌, ◌>>◌, if◌then◌else◌, str_eq,
}
use lspctl.Map.{Map, lookup, contains_key, insert, before}
use lspctl.Edits.{WorkspaceEditProblem}
use lspctl.Edits.Plan.{ResourceKind, ManifestEntry, ResourceState}
use lspctl.Planner.Run.{Run, done, ◌>>=◌ as bind, unwrap}
use lspctl.Planner.Paths.{file_name}
use lspctl.Planner.FileSystem.{missing_manifest, directory_membership_digest}
use lspctl.Planner.Inspect.{directory_children, validate_existing_ancestors}
use lspctl.Planner.Load.{Planner, beneath, is_directory, inspected}
use lspctl.Planner.Tree.{is_child, set_digest}
use lspctl.Planner.Operations.{same_kind}

abbrev same_text : Option String → Option String → Bool
same_text none none = true
same_text (some s) (some t) = str_eq s t
same_text _ _ = false

-- `==` of two entries
abbrev pub same_entry : ManifestEntry → ManifestEntry → Bool
same_entry a b =
    str_eq a.path b.path
    && elim a.exists [ true ↦ b.exists | false ↦ not b.exists ]
    && same_kind a.resource_kind b.resource_kind
    && same_text a.identity_digest b.identity_digest
    && same_text a.content_digest b.content_digest
    && same_text a.metadata_digest b.metadata_digest

-- the names and kinds of a directory's children in the virtual workspace
unfoldable pub child_kinds : String → Map ResourceState → Map ResourceKind → Run (Map ResourceKind)
unfolding file_name insert
child_kinds directory [] children = done children
child_kinds directory ((path, state) ∷ rest) children =
    if is_child directory path state
    then bind (unwrap (file_name path))
        (λ name. child_kinds directory rest (insert name state.manifest.resource_kind children))
    else child_kinds directory rest children

-- `manifest.sort_by(|left, right| left.path.cmp(&right.path))`
unfoldable pub insert_entry : ManifestEntry → List ManifestEntry → List ManifestEntry
insert_entry entry [] = entry ∷ []
insert_entry entry (e ∷ es) =
    if before e.path entry.path then e ∷ insert_entry entry es else entry ∷ e ∷ es

unfoldable pub sort_entries : List ManifestEntry → List ManifestEntry
unfolding insert_entry
sort_entries [] = []
sort_entries (e ∷ es) = insert_entry e (sort_entries es)

-- `before_by_path`
unfoldable pub by_path : List ManifestEntry → Map ManifestEntry → Map ManifestEntry
unfolding insert
by_path [] m = m
by_path (entry ∷ rest) m = by_path rest (insert entry.path entry m)

unfoldable pub count_changed : Map ManifestEntry → List ManifestEntry → ℕ
unfolding lookup
count_changed before_by_path [] = 0
count_changed before_by_path (after ∷ rest) =
    let others = count_changed before_by_path rest in
    elim (lookup after.path before_by_path) [
      | none ↦ suc others
      | some entry ↦ if same_entry entry after then others else suc others
    ]

unfoldable pub entry_at : Map ResourceState → String → ManifestEntry
unfolding lookup missing_manifest
entry_at entries path = elim (lookup path entries) [
  | none ↦ missing_manifest path
  | some state ↦ state.manifest
]

module _ (planner : Planner) where
  -- the loop that observes each affected path that has not been observed
  unfoldable pub complete_before :
      List String → Map ManifestEntry → Result WorkspaceEditProblem (Map ManifestEntry)
  unfolding contains_key inspected insert
  complete_before [] entries = ok entries
  complete_before (path ∷ paths) entries =
      let later = complete_before paths entries in
      if contains_key path entries
      then later
      else inspected planner path 0 false >>= λ state.
          complete_before paths (insert path state.manifest entries)

  -- the entry that is intended at an affected path
  unfoldable pub intended_entry : Map ResourceState → String → Run ManifestEntry
  unfolding entry_at beneath child_kinds directory_membership_digest
  intended_entry entries path =
      let entry = entry_at entries path in
      if is_directory entry.resource_kind
      then bind (child_kinds path (beneath path entries) []) (λ children.
        done (set_digest (directory_membership_digest planner.file_system children) entry))
      else done entry

  unfoldable pub intended_entries : Map ResourceState → List String → Run (List ManifestEntry)
  unfolding intended_entry
  intended_entries entries [] = done []
  intended_entries entries (path ∷ paths) =
      bind (intended_entry entries path)
        (λ entry. bind (intended_entries entries paths) (λ rest. done (entry ∷ rest)))

  -- `inspect_manifest_paths`: the loop, and the sorted result
  unfoldable pub inspect_each : List String → List ManifestEntry × List WorkspaceEditProblem
  unfolding validate_existing_ancestors inspected
  inspect_each [] = ([], [])
  inspect_each (path ∷ paths) =
      let (entries, faults) = inspect_each paths in
      elim (validate_existing_ancestors planner.file_system 0 planner.workspace planner.root_device
          path
        >> inspected planner path 0 false) [
          | ok state ↦ (state.manifest ∷ entries, faults)
          | err fault ↦ (entries, fault ∷ faults)
        ]

  unfoldable pub inspect_manifest_paths :
      List String → Result (List WorkspaceEditProblem) (List ManifestEntry)
  unfolding inspect_each sort_entries
  inspect_manifest_paths paths =
      let (entries, faults) = inspect_each paths in
      elim faults [ [] ↦ ok (sort_entries entries) | fault ∷ rest ↦ err (fault ∷ rest) ]

  -- the paths of a template, and of those the directories with a certificate
  unfoldable pub template_paths : List ManifestEntry → List String
  template_paths [] = []
  template_paths (entry ∷ rest) = entry.path ∷ template_paths rest

  unfoldable pub certified : List ManifestEntry → Map (Unit {0})
  unfolding insert
  certified [] = []
  certified (entry ∷ rest) = elim entry.content_digest [
    | none ↦ certified rest
    | some digest ↦
        if is_directory entry.resource_kind
        then insert entry.path tt (certified rest)
        else certified rest
  ]

  unfoldable pub certify_each :
      Map (Unit {0}) → List ManifestEntry → Result (List WorkspaceEditProblem) (List ManifestEntry)
  unfolding contains_key directory_children directory_membership_digest
  certify_each directories [] = ok []
  certify_each directories (entry ∷ rest) =
      observed >>= λ e. certify_each directories rest >>= λ es. ok (e ∷ es)
    where
      observed : Result (List WorkspaceEditProblem) ManifestEntry
      observed =
          if is_directory entry.resource_kind && contains_key entry.path directories
          then elim (directory_children planner.file_system 0 planner.workspace planner.root_device
              planner.mutation_limits.max_entries entry.path) [
                | ok children ↦
                    ok (set_digest (directory_membership_digest planner.file_system children) entry)
                | err fault ↦ err (fault ∷ [])
              ]
          else ok entry

  unfoldable pub inspect_manifest :
      List ManifestEntry → Result (List WorkspaceEditProblem) (List ManifestEntry)
  unfolding inspect_manifest_paths template_paths certified certify_each
  inspect_manifest template = inspect_manifest_paths (template_paths template) >>= λ observed.
      certify_each (certified template) observed
