-- ===== src/Planner/Creating.antt =====
-- How a creation ends (src/mutation/planner.rs).
pub mod Above
use Prim.Native.String.{◌++◌ as str_append}
use mathlib.Core.Path.{subst}
use lspctl.Prelude.{
  ℕ, String, ◌≡◌, ◌⊎◌, refl, sym, ap, ◌∙◌, Bool, true, false, not, ◌&&◌, Option, none, some, [],
  ◌∷◌, ◌++◌, Result, ok, err, arith, str_eq, eq_iff, if◌then◌else◌, Bool-cases, Option-cases, inl,
  inr, if_rule, result_rule, option_rule, u64_max, saturating_add,
}
use lspctl.Map.{lookup, contains_key, insert}
use lspctl.Map.Laws.{lookup-insert, contains_iff_lookup}
use lspctl.Edits.{WorkspaceEditProblem, problem}
use lspctl.Edits.Plan.{
  file, directory, missing, ResourceKind, ResourceState, VirtualWorkspace, Planning,
  create_operation, add_problem, add_affected, is_regular,
}
use lspctl.Planner.Run.{Run, done}
use lspctl.Planner.Paths.{parent}
use lspctl.Planner.FileSystem.{
  Metadata, Status, found, not_found, failed, missing_resource, missing_manifest,
}
use lspctl.Planner.Load.{Planner, is_directory, require_existing_parent}
use lspctl.Planner.Operations.{set_entry, reports}
use lspctl.Canonical.{digest_raw_bytes}
use lspctl.Planner.Effects.{lookup-set_entry}
use lspctl.Planner.Create.{created, record_create, create_at, create_loaded}
use lspctl.Planner.Creating.Above.{HasParent, parent_lem}

-- A state is that of an empty file: of one that is new, or that keeps the identity and the metadata of
-- the file which it takes the place of.
pub record IsEmptyFile (planner : Planner) (path : String) (current state : ResourceState)
    : Type 0 where
  pub text : state.text ≡ some []
  pub text_source : state.text_source ≡ none
  pub exists : state.manifest.exists ≡ true
  pub resource_kind : state.manifest.resource_kind ≡ file
  pub content_digest :
      state.manifest.content_digest
      ≡ some (str_append "sha256:" (planner.file_system.sha256_hex []))
  pub path_kept :
      state.manifest.path ≡ (if current.manifest.exists then current.manifest.path else path)
  pub identity_digest :
      state.manifest.identity_digest
      ≡ (if current.manifest.exists then current.manifest.identity_digest else none)
  pub metadata_digest :
      state.manifest.metadata_digest
      ≡ (if current.manifest.exists then current.manifest.metadata_digest else none)

-- Why a creation may not be: the target exists and is neither to be overwritten nor to be left alone; or
-- it is to be overwritten and is no file; or no directory stands above it. The last is the code of the
-- problem.
pub data Refuses (planner : Planner) (w : VirtualWorkspace) (path : String)
    (overwrite ignore : Bool) (current : ResourceState) (code : String) : Type 0 where
  target_exists :
      current.manifest.exists ≡ true
      → overwrite ≡ false
      → ignore ≡ false
      → code ≡ "target_exists"
      → Refuses planner w path overwrite ignore current code
  resource_kind_mismatch :
      current.manifest.exists ≡ true
      → overwrite ≡ true
      → ¬ (current.manifest.resource_kind ≡ file)
      → code ≡ "resource_kind_mismatch"
      → Refuses planner w path overwrite ignore current code
  parent_missing :
      current.manifest.exists ≡ false
      → ¬ HasParent planner w path
      → code ≡ "parent_missing"
      → Refuses planner w path overwrite ignore current code

-- A plan in which the path is an empty file, and that is else the plan before with the operation behind
-- the others; where the same file is created again, and left alone if it exists, nothing changes.
pub record IsRecorded (planner : Planner) (index : ℕ) (p : Planning) (uri path : String)
    (overwrite ignore : Bool) (current : ResourceState) (q : Planning) : Type 0 where
  pub state : ResourceState
  pub empty_file : IsEmptyFile planner path current state
  pub entries :
      (k : String)
      → lookup k q.workspace.entries
        ≡ (if str_eq path k then some state else lookup k p.workspace.entries)
  pub affected :
      (k : String)
      → contains_key k q.workspace.affected
        ≡ (if str_eq path k then true else contains_key k p.workspace.affected)
  pub before : q.workspace.before ≡ p.workspace.before
  pub operations :
      q.operations ≡ p.operations ++ (create_operation index uri path overwrite ignore ∷ [])
  pub counted : q.summary.creates ≡ saturating_add u64_max p.summary.creates 1
  pub problems : q.problems ≡ p.problems
  pub again : (later : ℕ) → create_loaded planner later q uri path false true ≡ done q

-- A creation is left alone where the target exists and is not to be overwritten, but to be ignored; it
-- is refused with one problem and no other change; or a file is overwritten, or created in a directory.
pub data Creates (planner : Planner) (index : ℕ) (p : Planning) (uri path : String)
    (overwrite ignore : Bool) (current : ResourceState) (q : Planning) : Type 0 where
  ignored :
      current.manifest.exists ≡ true
      → overwrite ≡ false
      → ignore ≡ true
      → q ≡ p
      → Creates planner index p uri path overwrite ignore current q
  refused :
      (fault : WorkspaceEditProblem)
      → Refuses planner p.workspace path overwrite ignore current fault.code
      → fault.operation_index ≡ some index
      → q ≡ add_problem p fault
      → Creates planner index p uri path overwrite ignore current q
  recorded :
      (current.manifest.exists ≡ true)
          × (overwrite ≡ true)
          × (current.manifest.resource_kind ≡ file)
        ⊎ (current.manifest.exists ≡ false) × HasParent planner p.workspace path
      → IsRecorded planner index p uri path overwrite ignore current q
      → Creates planner index p uri path overwrite ignore current q

abbrev FileTest : ResourceKind → Type 0
FileTest file = ⊥
FileTest _ = Unit

-- From the loaded target on, a creation never panics, and ends in one of the three ways.
module _ (planner : Planner) (index : ℕ) (p : Planning) (uri path : String)
    (overwrite ignore : Bool) (current : ResourceState) where
  abbrev Ended : Run Planning → Type 0
  Ended run =
      (q : Planning) × (run ≡ done q) × Creates planner index p uri path overwrite ignore current q

  created-IsEmptyFile : IsEmptyFile planner path current (created planner index current path)
  unfolding created missing_resource missing_manifest digest_raw_bytes
  created-IsEmptyFile = record {
    text = refl;
    text_source = refl;
    exists = refl;
    resource_kind = refl;
    content_digest = refl;
    path_kept = ground arith;
    identity_digest = ground arith;
    metadata_digest = ground arith;
  }

  abbrev result : Planning
  result = record_create planner index p uri path overwrite ignore current

  created_again : (later : ℕ) → create_loaded planner later result uri path false true ≡ done result
  unfolding create_loaded create_at record_create created
  created_again later = rw (there) refl
    where
      there : lookup path result.workspace.entries ≡ some (created planner index current path)
      there = ground (
        arith,
        lookup-set_entry path path (created planner index current path) p.workspace,
        eq_iff path path,
      )

  created-IsRecorded : IsRecorded planner index p uri path overwrite ignore current result
  unfolding record_create set_entry add_affected
  created-IsRecorded = record {
    state = created planner index current path;
    empty_file = created-IsEmptyFile;
    entries = λ k. lookup-set_entry k path (created planner index current path) p.workspace;
    affected = λ k. ground (
      arith,
      contains_iff_lookup k (insert path tt p.workspace.affected),
      contains_iff_lookup k p.workspace.affected,
      lookup-insert path k tt p.workspace.affected,
    );
    before = refl;
    operations = refl;
    counted = refl;
    problems = refl;
    again = created_again;
  }

  refusal :
      (fault : WorkspaceEditProblem)
      → Refuses planner p.workspace path overwrite ignore current fault.code
      → fault.operation_index ≡ some index
      → Ended (done (add_problem p fault))
  refusal fault why at_index = (add_problem p fault, refl, refused fault why at_index refl)

  kind_of_file :
      (kind : ResourceKind)
      → (is_regular kind ≡ true → kind ≡ file) × (is_regular kind ≡ false → ¬ (kind ≡ file))
  kind_of_file file = (λ h. refl, λ h k. ground arith)
  kind_of_file directory = (λ h. ground arith, λ h k. elim (subst FileTest k tt) [ ])
  kind_of_file missing = (λ h. ground arith, λ h k. elim (subst FileTest k tt) [ ])

  created_at : Ended (create_at planner index p uri path overwrite ignore current)
  unfolding create_at problem
  created_at =
      if_rule Ended (current.manifest.exists && not overwrite) _ _
        (λ kept.
          if_rule Ended ignore _ _ (λ i. (p, refl, ignored (ground arith) (ground arith) i refl))
            (λ i. refusal _ (target_exists (ground arith) (ground arith) i refl) refl))
        (λ free.
          if_rule Ended (current.manifest.exists && not (is_regular current.manifest.resource_kind))
            _ _
            (λ odd.
              refusal _
                (resource_kind_mismatch (ground arith) (ground arith)
                  ((kind_of_file current.manifest.resource_kind).1 (ground arith)) refl)
                refl)
            (λ plain. elim (Bool-cases current.manifest.exists) [
              | inl there ↦ overwriting there (ground arith) (ground arith)
              | inr absent ↦ creating absent
            ]))
    where
      checked : Bool → Result WorkspaceEditProblem (Unit {0})
      checked there =
          if there then ok tt else require_existing_parent planner p.workspace path index

      ends : Result WorkspaceEditProblem (Unit {0}) → Run Planning
      ends r = elim r [ err fault ↦ reports planner index p fault | ok _ ↦ done result ]

      overwriting :
          current.manifest.exists ≡ true
          → overwrite ≡ true
          → is_regular current.manifest.resource_kind ≡ true
          → Ended (ends (checked current.manifest.exists))
      overwriting there wanted regular =
          subst (λ b. Ended (ends (checked b))) (sym there)
            (
              result,
              refl,
              recorded
                  (inl (there, wanted, (kind_of_file current.manifest.resource_kind).0 regular))
                  created-IsRecorded,
            )

      creating : current.manifest.exists ≡ false → Ended (ends (checked current.manifest.exists))
      creating absent =
          subst (λ b. Ended (ends (checked b))) (sym absent)
            (elim (parent_lem planner index p.workspace path) [
              | inl (e, there) ↦
                  subst (λ r. Ended (ends r)) (sym e)
                    (result, refl, recorded (inr (absent, there)) created-IsRecorded)
              | inr (fault, e, code, at_index, none_there) ↦
                  subst (λ r. Ended (ends r)) (sym e)
                    (refusal fault (parent_missing absent none_there code) at_index)
            ])

-- If the target of a creation has been loaded, the creation never panics, and ends in one of three ways:
-- the plan stays as it is, where the target exists and is not to be overwritten but to be ignored; or one
-- problem is added, where it exists and is neither to be overwritten nor ignored, or is to be overwritten
-- and is no file, or does not exist and no directory stands above it; or the path, and no other, is an
-- empty file afterwards, with the digest of no bytes, where a file was overwritten or a directory stands
-- above the path, and then creating it again with `ignoreIfExists` changes nothing.
pub create_loaded-Creates :
    (planner : Planner) (index : ℕ) (p : Planning) (uri path : String) (overwrite ignore : Bool)
    (current : ResourceState)
    → lookup path p.workspace.entries ≡ some current
    → (q : Planning) × (create_loaded planner index p uri path overwrite ignore ≡ done q)
      × Creates planner index p uri path overwrite ignore current q
unfolding create_loaded
create_loaded-Creates planner index p uri path overwrite ignore current loaded =
    let (q, runs, ends) = created_at planner index p uri path overwrite ignore current in
    (q, rw loaded runs, ends)
