-- ===== src/Edits/Faithful.antt =====
-- `plan_text_operation` records edits that staging turns into the text that was planned.
use lspctl.Prelude.{
  ℕ, ◌+◌, String, ◌≡◌, refl, ap, ◌∙◌, true, none, some, List, [], ◌∷◌, ◌++◌, arith, All, Result, ok,
  err, if_rule, Bool-cases, Option-cases, inl, inr, str_eq, eq_iff,
}
use lspctl.Json.{Json, Members, as_array}
use lspctl.Text.{Bytes, is_utf8}
use lspctl.Map.{Map, lookup, insert}
use lspctl.Map.Laws.{lookup-insert}
use lspctl.Position.{PositionEncoding}
use lspctl.Edits.{ParsedTextEdit, WorkspaceEditProblem, parse_text_edit, problem}
use lspctl.Edits.Render.{CanonicalTextEdit, Rendering, sort_edits, overlapping}
use lspctl.Edits.Staging.{apply_canonical_text_edits}
use lspctl.Edits.Plan.{
  ResourceState, Planning, text_operation, add_problem, parse_edits, has_problem, record_operation,
  plan_parsed, plan_loaded, is_regular,
}
use lspctl.Edits.Agreement.{
  IsRange, render-stage, sort_edits-All, IsChain-from_start, parse_text_edit-IsRange,
}

parse_edits-IsRange :
    (text : Bytes) (annotations : Members) (encoding : PositionEncoding) (index : ℕ) (path : String)
    (ordinal : ℕ) (raw : List Json)
    → is_utf8 text ≡ true
    → All (IsRange text) (parse_edits text annotations encoding index path ordinal raw).0
unfolding parse_edits
parse_edits-IsRange text annotations encoding index path ordinal [] u = tt
parse_edits-IsRange text annotations encoding index path ordinal (j ∷ raw) u =
    one (parse_text_edit text j annotations encoding index path ordinal)
      (parse_text_edit-IsRange text j annotations encoding index path ordinal)
      (parse_edits-IsRange text annotations encoding index path (ordinal + 1) raw u)
  where
    one :
        (r : Result WorkspaceEditProblem ParsedTextEdit)
        → ((e : ParsedTextEdit) → is_utf8 text ≡ true → r ≡ ok e → IsRange text e)
        → All (IsRange text) (parse_edits text annotations encoding index path (ordinal + 1) raw).0
        → All (IsRange text) (
            let (edits, problems) =
              parse_edits text annotations encoding index path (ordinal + 1) raw in
            let both : List ParsedTextEdit × List WorkspaceEditProblem = elim r [
              | ok edit ↦ (edit ∷ edits, problems)
              | err fault ↦ (edits, fault ∷ problems)
            ] in
            both.0)
    one (ok e) is rest = (is e u refl, rest)
    one (err fault) is rest = rest

lookup_inserted :
    (path : String) (state : ResourceState) (entries : Map ResourceState)
    → lookup path (insert path state entries) ≡ some state
lookup_inserted path state entries =
    ground (arith, lookup-insert path path state entries, eq_iff path path)

-- What planning one `TextDocumentEdit` leads to: nothing is recorded, or one operation, whose edits
-- staging turns into the very text that the virtual workspace has from then on.
pub data Plans (digest : Bytes → String) (index : ℕ) (uri path : String) (bytes : Bytes)
    (before_digest : String) (p p' : Planning) : Type 0 where
  nothing :
      p'.operations ≡ p.operations
      → p'.workspace ≡ p.workspace
      → Plans digest index uri path bytes before_digest p p'
  recorded :
      (edits : List CanonicalTextEdit) (after : Bytes) (state : ResourceState)
      → (p'.operations
          ≡ p.operations ++ text_operation index uri path before_digest (digest after) edits ∷ [])
      → apply_canonical_text_edits bytes edits ≡ ok after
      → lookup path p'.workspace.entries ≡ some state
      → state.text ≡ some after
      → Plans digest index uri path bytes before_digest p p'

module _ (digest : Bytes → String) (index : ℕ) (uri path : String) (bytes : Bytes)
    (before_digest : String) (u : is_utf8 bytes ≡ true) where
  record_operation-Plans :
      (p : Planning) (state : ResourceState) (r : Rendering)
      → apply_canonical_text_edits bytes r.canonical_edits ≡ ok r.result
      → Plans digest index uri path bytes before_digest p
          (record_operation digest index uri p path state before_digest r)
  unfolding record_operation
  record_operation-Plans p state r staged =
      if_rule (Plans digest index uri path bytes before_digest p)
        (str_eq (digest r.result) before_digest) _ _ (λ _. nothing refl refl)
        λ _.
          recorded r.canonical_edits r.result
            (record state {
              text = some r.result;
              manifest = record (state.manifest) { content_digest = some (digest r.result) };
            })
            refl staged (lookup_inserted path _ p.workspace.entries) refl

  same_Plans :
      (p q p' : Planning)
      → q.operations ≡ p.operations
      → q.workspace ≡ p.workspace
      → Plans digest index uri path bytes before_digest q p'
      → Plans digest index uri path bytes before_digest p p'
  same_Plans p q p' o w (nothing o' w') = nothing (o' ∙ o) (w' ∙ w)
  same_Plans p q p' o w (recorded edits after state o' staged found kept) =
      recorded edits after state
        (o'
          ∙ ap (λ os. os ++ text_operation index uri path before_digest (digest after) edits ∷ [])
              o)
        staged found kept

  plan_parsed-Plans :
      (p : Planning) (state : ResourceState) (edits : List ParsedTextEdit)
      (faults : List WorkspaceEditProblem)
      → state.manifest.content_digest ≡ some before_digest
      → All (IsRange bytes) edits
      → (p' : Planning) × (plan_parsed digest index uri p path state bytes edits faults ≡ some p')
        × Plans digest index uri path bytes before_digest p p'
  unfolding plan_parsed apply_canonical_text_edits
  plan_parsed-Plans p state edits faults d hs =
      let known = record p { problems = p.problems ++ faults } in
      elim (Bool-cases (overlapping (sort_edits edits))) [
        | inl overlap ↦ (
          add_problem known (
              problem "overlapping_edits"
                "Text edits overlap or ambiguously share a start position." (some index) (some path)
                none),
          rw overlap,
          nothing refl refl,
        )
        | inr apart ↦ elim (Bool-cases (has_problem index (p.problems ++ faults))) [
          | inl faulty ↦ (known, rw (apart, faulty), nothing refl refl)
          | inr fine ↦
              let (r, rendered, staged, recorded_edits) =
                render-stage bytes
                  (record {
                    result = [];
                    cursor = 0;
                    total_new_text_bytes = p.total_new_text_bytes;
                    canonical_edits = [];
                  })
                  (sort_edits edits)
                  (IsChain-from_start bytes (sort_edits edits)
                    (sort_edits-All (IsRange bytes) edits hs) apart) in
              let planned = record_operation digest index uri known path state before_digest r in
              (
                planned,
                rw (apart, fine, rendered, d),
                same_Plans p known planned refl refl
                    (record_operation-Plans known state r (rw (recorded_edits, u) staged)),
              )
        ]
      ]

loaded_array :
    (digest : Bytes → String) (index : ℕ) (uri path : String) (p : Planning) (state : ResourceState)
    (bytes : Bytes) (edits : Json) (annotations : Members) (encoding : PositionEncoding)
    (raw : List Json)
    → lookup path p.workspace.entries ≡ some state
    → is_regular state.manifest.resource_kind ≡ true
    → state.text ≡ some bytes
    → is_utf8 bytes ≡ true
    → as_array edits ≡ some raw
    → plan_loaded digest index uri p path edits annotations encoding ≡ (
        let (parsed, faults) = parse_edits bytes annotations encoding index path 0 raw in
        plan_parsed digest index uri p path state bytes parsed faults)
unfolding plan_loaded record_operation
loaded_array digest index uri path p state bytes edits annotations encoding raw found regular t u
      is_array =
    rw (found, regular, t, u, is_array, plan_loaded) refl

-- Planning the edits of a UTF-8 regular file that is loaded, with its digest, never panics, whatever
-- the edits are: either it leaves the operations and the workspace as they are, or it records one
-- operation, and staging that operation's edits gives exactly the text that planning computed, whose
-- digest the operation names as the one afterwards, and that the virtual workspace has from then on.
pub plan_loaded-Plans :
    (digest : Bytes → String) (index : ℕ) (uri path : String) (p : Planning) (state : ResourceState)
    (bytes : Bytes) (before_digest : String) (edits : Json) (annotations : Members)
    (encoding : PositionEncoding)
    → lookup path p.workspace.entries ≡ some state
    → is_regular state.manifest.resource_kind ≡ true
    → state.manifest.content_digest ≡ some before_digest
    → state.text ≡ some bytes
    → is_utf8 bytes ≡ true
    → (p' : Planning) × (plan_loaded digest index uri p path edits annotations encoding ≡ some p')
      × Plans digest index uri path bytes before_digest p p'
unfolding plan_loaded
plan_loaded-Plans digest index uri path p state bytes before_digest edits annotations encoding found
      regular d t u =
    elim (Option-cases (as_array edits)) [
      | inl bad ↦ (
        add_problem p (
            problem "unknown_operation" "TextDocumentEdit.edits must be an array." (some index)
              (some path) none),
        rw (found, regular, t, u, bad, plan_loaded),
        nothing refl refl,
      )
      | inr (raw, is_array) ↦
          let parsed = parse_edits bytes annotations encoding index path 0 raw in
          let (p', planned, plans) =
            plan_parsed-Plans digest index uri path bytes before_digest u p state parsed.0 parsed.1
              d (parse_edits-IsRange bytes annotations encoding index path 0 raw u) in
          (
            p',
            loaded_array digest index uri path p state bytes edits annotations encoding raw found
                  regular t u is_array
                ∙ planned,
            plans,
          )
    ]
