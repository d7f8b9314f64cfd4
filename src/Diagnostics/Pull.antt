-- ===== src/Diagnostics/Pull.antt =====
-- The pull reports of `DiagnosticCache`: full and unchanged reports of a document, of its related
-- documents, and of a workspace.
use lspctl.Prelude.{
  ℕ, String, Bool, true, false, not, ◌&&◌, ◌||◌, Option, none, some, List, [], ◌∷◌, ◌++◌,
  if◌then◌else◌, str_eq,
}
use lspctl.Json.{
  Json, Members, no_members, member, null, string, object, json_array, field, as_str, as_array,
  as_object, set_member,
}
use lspctl.Map.{lookup}
use lspctl.Diagnostics.{
  CachedDiagnostics, DiagnosticResult, WorkspaceDiagnosticResult, DiagnosticCache, pull_key,
  render_snapshot,
}
use lspctl.Diagnostics.Cache.{store}

-- `value[name] = …`, which panics on anything but an object or `null`
unfoldable pub set_field : String → Json → Json → Option Json
set_field name v (object m) = some (object (set_member name v m))
set_field name v null = some (object (member name v no_members))
set_field name v _ = none

abbrev pub str_field : String → Json → Option String
str_field name report = elim (field name report) [ none ↦ none | some v ↦ as_str v ]

abbrev pub kind_is : String → Json → Bool
kind_is kind report = elim (str_field "kind" report) [ none ↦ false | some k ↦ str_eq k kind ]

-- `get("items").is_some_and(Value::is_array)`, and the items
abbrev pub items_field : Json → Option Json
items_field report = elim (field "items" report) [
  | none ↦ none
  | some v ↦ elim (as_array v) [ none ↦ none | some _ ↦ some v ]
]

abbrev pub no_result : String → Json → DiagnosticResult
no_result uri report = record {
  uri = uri;
  diagnostics = json_array [];
  raw_report = report;
  effective_report = null;
  result_id = none;
  version = none;
  fresh = false;
  complete = false;
  closed = false;
}

abbrev pub full_result : String → Json → Json → DiagnosticResult
full_result uri report items = record {
  uri = uri;
  diagnostics = items;
  raw_report = report;
  effective_report = report;
  result_id = str_field "resultId" report;
  version = none;
  fresh = true;
  complete = true;
  closed = false;
}

abbrev pub first_some {ℓ} : {A : Type ℓ} → Option A → Option A → Option A
first_some none b = b
first_some (some a) b = some a

abbrev pub bind_field : String → Option Json → Option Json → Option Json
bind_field name none report = report
bind_field name (some v) none = none
bind_field name (some v) (some report) = set_field name v report

abbrev pub option_string : Option String → Option Json
option_string none = none
option_string (some s) = some (string s)

-- the effective report of an unchanged one: the cached one with the new ids
abbrev pub renewed : String → Json → Option String → Json → Option Json
renewed uri report result_id cached = bind_field "version" (field "version" report) (
    bind_field "uri" (some (string uri))
      (bind_field "resultId" (option_string result_id) (some cached)))

abbrev pub unchanged_result : String → Json → CachedDiagnostics → Option DiagnosticResult
unchanged_result uri report snapshot =
    let result = render_snapshot snapshot true true in
    let result_id = first_some (str_field "resultId" report) result.result_id in
    elim (renewed uri report result_id result.effective_report) [
      | none ↦ none
      | some effective ↦ some (record result {
        result_id = result_id;
        effective_report = effective;
        raw_report = report;
      })
    ]

-- `reconstruct_pull_report`; `none` is a panic
unfoldable pub reconstruct_pull_report : DiagnosticCache → String → Json → Option DiagnosticResult
unfolding set_field render_snapshot
reconstruct_pull_report cache uri report =
    if kind_is "unchanged" report
    then elim (lookup (pull_key uri) cache.snapshots) [
      | none ↦ some (no_result uri report)
      | some snapshot ↦ unchanged_result uri report snapshot
    ]
    else if kind_is "full" report
    then elim (items_field report) [
      | none ↦ some (no_result uri report)
      | some items ↦ some (full_result uri report items)
    ]
    else some (no_result uri report)

abbrev pub pulled_snapshot : DiagnosticResult → CachedDiagnostics
pulled_snapshot result = record {
  uri = result.uri;
  version = result.version;
  diagnostics = result.diagnostics;
  raw_report = result.effective_report;
  result_id = result.result_id;
  received_for_version = none;
  closed = result.closed;
  serialized_bytes = 0;
  last_used = 0;
}

-- `reports.iter().map(…)` over the members of an object
unfoldable pub reconstruct_members : DiagnosticCache → Members → Option (List DiagnosticResult)
unfolding reconstruct_pull_report
reconstruct_members cache no_members = some []
reconstruct_members cache (member uri report m) =
    let rest = reconstruct_members cache m in
    elim (reconstruct_pull_report cache uri report) [
      | none ↦ none
      | some r ↦ elim rest [ none ↦ none | some rs ↦ some (r ∷ rs) ]
    ]

abbrev pub related_reports : Json → Option Members
related_reports report = elim (field "relatedDocuments" report) [
  | none ↦ none
  | some v ↦ as_object v
]

unfoldable pub all_complete : List DiagnosticResult → Bool
all_complete [] = true
all_complete (r ∷ rs) = r.complete && all_complete rs

unfoldable pub effective_members : List DiagnosticResult → Members
effective_members [] = no_members
effective_members (r ∷ rs) = set_member r.uri r.effective_report (effective_members rs)

-- an item of a workspace report: no answer (`Err`) where it cannot be reconstructed
unfoldable pub reconstruct_items :
    DiagnosticCache → List Json → Option (Option (List DiagnosticResult))
unfolding reconstruct_pull_report
reconstruct_items cache [] = some (some [])
reconstruct_items cache (report ∷ reports) =
    let rest = reconstruct_items cache reports in
    elim (str_field "uri" report) [
      | none ↦ some none
      | some uri ↦ elim (reconstruct_pull_report cache uri report) [
        | none ↦ none
        | some r ↦
            if r.complete
            then elim rest [
              | none ↦ none
              | some none ↦ some none
              | some (some rs) ↦ some (some (r ∷ rs))
            ]
            else some none
      ]
    ]

unfoldable pub effective_items : List DiagnosticResult → List Json
effective_items [] = []
effective_items (r ∷ rs) = r.effective_report ∷ effective_items rs

unfoldable pub any_unchanged : List DiagnosticResult → Bool
any_unchanged [] = false
any_unchanged (r ∷ rs) = kind_is "unchanged" r.raw_report || any_unchanged rs

abbrev pub incomplete_workspace : Json → WorkspaceDiagnosticResult
incomplete_workspace report = record {
  effective_report = report;
  raw_report = report;
  fresh = false;
  complete = false;
  workspace_complete = false;
}

module _ (serialized_size : Json → ℕ) where
  unfoldable pub store_pull_result : DiagnosticCache → DiagnosticResult → Option DiagnosticCache
  store_pull_result cache result =
      if not result.complete
      then some cache
      else elim (store serialized_size cache (pull_key result.uri) (pulled_snapshot result)) [
        | none ↦ none
        | some (cache', _) ↦ some cache'
      ]

  unfoldable pub store_each : DiagnosticCache → List DiagnosticResult → Option DiagnosticCache
  unfolding store_pull_result
  store_each cache [] = some cache
  store_each cache (r ∷ rs) = elim (store_pull_result cache r) [
    | none ↦ none
    | some cache' ↦ store_each cache' rs
  ]

  unfoldable pub apply_pull_report :
      DiagnosticCache → String → Json → Option (DiagnosticCache × DiagnosticResult)
  unfolding store_pull_result reconstruct_pull_report
  apply_pull_report cache uri report = elim (reconstruct_pull_report cache uri report) [
    | none ↦ none
    | some result ↦ elim (store_pull_result cache result) [
      | none ↦ none
      | some cache' ↦ some (cache', result)
    ]
  ]

  abbrev pub incomplete_result : DiagnosticResult → DiagnosticResult
  incomplete_result result = record result {
    effective_report = null;
    fresh = false;
    complete = false;
  }

  abbrev pub stored_results :
      DiagnosticCache
      → List DiagnosticResult
      → Option DiagnosticResult
      → Option (DiagnosticCache × DiagnosticResult)
  stored_results cache related none = none
  stored_results cache related (some result) = elim (store_each cache (related ++ result ∷ [])) [
    | none ↦ none
    | some cache' ↦ some (cache', result)
  ]

  abbrev pub with_related : DiagnosticResult → List DiagnosticResult → Option DiagnosticResult
  with_related result related =
      elim (set_field "relatedDocuments" (object (effective_members related))
        result.effective_report) [
          | none ↦ none
          | some effective ↦ some (record result { effective_report = effective })
        ]

  abbrev pub applied_document :
      DiagnosticCache
      → Option (List DiagnosticResult)
      → DiagnosticResult
      → Option (DiagnosticCache × DiagnosticResult)
  applied_document cache none result =
      if not result.complete
      then some (cache, incomplete_result result)
      else stored_results cache [] (some result)
  applied_document cache (some related) result =
      if not result.complete || not (all_complete related)
      then some (cache, incomplete_result result)
      else stored_results cache related (with_related result related)

  unfoldable pub apply_document_pull_report :
      DiagnosticCache → String → Json → Option (DiagnosticCache × DiagnosticResult)
  unfolding store_each
  apply_document_pull_report cache uri report = elim (related_reports report) [
    | none ↦ elim (reconstruct_pull_report cache uri report) [
      | none ↦ none
      | some result ↦ applied_document cache none result
    ]
    | some m ↦ elim (reconstruct_members cache m) [
      | none ↦ none
      | some related ↦ elim (reconstruct_pull_report cache uri report) [
        | none ↦ none
        | some result ↦ applied_document cache (some related) result
      ]
    ]
  ]

  abbrev pub applied_workspace :
      DiagnosticCache
      → Json
      → List DiagnosticResult
      → Option (DiagnosticCache × WorkspaceDiagnosticResult)
  applied_workspace cache report rs =
      elim (set_field "items" (json_array (effective_items rs)) report) [
        | none ↦ none
        | some effective ↦ elim (store_each cache rs) [
          | none ↦ none
          | some cache' ↦ some (
            cache',
            record {
              effective_report = effective;
              raw_report = if any_unchanged rs then report else null;
              fresh = true;
              complete = true;
              workspace_complete = true;
            },
          )
        ]
      ]

  abbrev pub item_reports : Json → Option (List Json)
  item_reports report = elim (field "items" report) [ none ↦ none | some v ↦ as_array v ]

  unfoldable pub apply_workspace_pull_report :
      DiagnosticCache → Json → Option (DiagnosticCache × WorkspaceDiagnosticResult)
  unfolding store_each
  apply_workspace_pull_report cache report = elim (item_reports report) [
    | none ↦ some (cache, incomplete_workspace report)
    | some reports ↦ elim (reconstruct_items cache reports) [
      | none ↦ none
      | some none ↦ some (cache, incomplete_workspace report)
      | some (some rs) ↦ applied_workspace cache report rs
    ]
  ]
