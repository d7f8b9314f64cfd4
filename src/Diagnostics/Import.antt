-- ===== src/Diagnostics/Import.antt =====
-- `DiagnosticCache::import_state`: the snapshots that another cache exported.
use lspctl.Prelude.{ℕ, String, Bool, false, Option, none, some, List, [], ◌∷◌, if◌then◌else◌}
use lspctl.Json.{Json, null, json_array, field, as_array, as_bool}
use lspctl.Diagnostics.{DiagnosticResult, DiagnosticCache, I64, as_i64, is_some}
use lspctl.Diagnostics.Cache.{publish, mark_closed}
use lspctl.Diagnostics.Pull.{str_field, kind_is, first_some, apply_pull_report}

abbrev pub current_of : Json → Option I64
current_of imported = elim (field "receivedForVersion" imported) [ none ↦ none | some v ↦ as_i64 v ]

abbrev pub version_of : Json → Option I64
version_of imported = elim (field "version" imported) [ none ↦ none | some v ↦ as_i64 v ]

abbrev pub value_or : Json → Option Json → Json
value_or v none = v
value_or v (some w) = w

abbrev pub is_closed : Json → Bool
is_closed imported = elim (field "closed" imported) [
  | none ↦ false
  | some v ↦ elim (as_bool v) [ none ↦ false | some b ↦ b ]
]

abbrev pub closed_if :
    Bool → String → Option (DiagnosticCache × DiagnosticResult) → Option DiagnosticCache
closed_if b uri none = none
closed_if b uri (some (cache, _)) = some (if b then mark_closed cache uri else cache)

module _ (serialized_size : Json → ℕ) where
  -- one round of the loop of `import_state`
  unfoldable pub import_record : DiagnosticCache → Json → Option DiagnosticCache
  unfolding apply_pull_report
  import_record cache imported = elim (str_field "uri" imported) [
    | none ↦ some cache
    | some uri ↦
        let current_version = first_some (current_of imported) (version_of imported) in
        closed_if (is_closed imported) uri (
          if kind_is "pull" imported
          then apply_pull_report serialized_size cache uri
              (value_or null (field "rawReport" imported))
          else publish serialized_size cache uri (version_of imported)
              (value_or (json_array []) (field "diagnostics" imported)) current_version
              (is_some current_version))
  ]

  unfoldable pub import_each : DiagnosticCache → List Json → Option DiagnosticCache
  unfolding import_record
  import_each cache [] = some cache
  import_each cache (imported ∷ rest) = elim (import_record cache imported) [
    | none ↦ none
    | some cache' ↦ import_each cache' rest
  ]

  unfoldable pub import_state : DiagnosticCache → Json → Option DiagnosticCache
  unfolding import_each
  import_state cache state = elim (as_array state) [
    | none ↦ some cache
    | some imported ↦ import_each cache imported
  ]
