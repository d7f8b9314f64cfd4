-- ===== src/Diagnostics/Cache.antt =====
-- `DiagnosticCache::store` of src/workspace/diagnostics.rs, and the methods for published diagnostics.
use lspctl.Prelude.{
  ℕ, zero, suc, ◌-◌, String, Bool, true, false, not, ◌&&◌, ◌||◌, Option, none, some, List, [], ◌∷◌,
  if◌then◌else◌, ltb, leb, ◌==◌, length, u64_max, saturating_add,
}
use lspctl.Json.{Json, json, string, null, number, boolean, json_array}
use lspctl.Map.{Map, lookup, contains_key, insert, remove, replace}
use lspctl.Diagnostics.{
  CachedDiagnostics, DiagnosticResult, DiagnosticCache, I64, push_key, pull_key, is_push, is_pull,
  render_snapshot, same_version, is_some,
}

abbrev pub removed_bytes : Option CachedDiagnostics → ℕ
removed_bytes none = 0
removed_bytes (some snapshot) = snapshot.serialized_bytes

-- a snapshot removed, and its bytes taken off the total
abbrev pub forget : DiagnosticCache → String → DiagnosticCache
forget cache key = record cache {
  snapshots = remove key cache.snapshots;
  total_bytes = cache.total_bytes - removed_bytes (lookup key cache.snapshots);
}

abbrev pub first_oldest : String × ℕ → Option (String × ℕ) → Option (String × ℕ)
first_oldest a none = some a
first_oldest (k, t) (some (j, n)) = if leb t n then some (k, t) else some (j, n)

-- `.min_by_key(|(_, snapshot)| snapshot.last_used)`: the first of the least
unfoldable pub oldest : Map CachedDiagnostics → Option (String × ℕ)
oldest [] = none
oldest ((key, snapshot) ∷ m) = first_oldest (key, snapshot.last_used) (oldest m)

abbrev pub over : DiagnosticCache → Bool
over cache =
    ltb cache.max_snapshots (length cache.snapshots) || ltb cache.max_total_bytes cache.total_bytes

-- the loop of `store`; `none` is the end of the fuel
unfoldable pub trim : ℕ → DiagnosticCache → Option DiagnosticCache
trim zero cache = none
trim (suc fuel) cache = elim (over cache) [
  | false ↦ some cache
  | true ↦ elim (oldest cache.snapshots) [
    | none ↦ some cache
    | some (key, _) ↦ trim fuel (forget cache key)
  ]
]

-- `self.clock = self.clock.saturating_add(1)`
abbrev pub tick : DiagnosticCache → DiagnosticCache
tick cache = record cache { clock = saturating_add u64_max cache.clock 1 }

abbrev pub put : DiagnosticCache → String → CachedDiagnostics → ℕ → DiagnosticCache
put cache key snapshot bytes = record cache {
  total_bytes = saturating_add u64_max cache.total_bytes bytes;
  snapshots =
      insert key (record snapshot { serialized_bytes = bytes; last_used = cache.clock })
        cache.snapshots;
}

-- `snapshot.last_used = self.clock`
abbrev pub touch : ℕ → CachedDiagnostics → CachedDiagnostics
touch clock snapshot = record snapshot { last_used = clock }

abbrev pub stored_key : String → Option DiagnosticCache → Option (DiagnosticCache × Bool)
stored_key key none = none
stored_key key (some cache) = some (cache, contains_key key cache.snapshots)

-- the snapshot of a publication, as `publish` stores it
abbrev pub published_snapshot :
    String → Option I64 → Json → Json → Option I64 → Bool → CachedDiagnostics
published_snapshot uri version diagnostics raw_report current_version received_after_boundary =
    record {
      uri = uri;
      version = version;
      diagnostics = diagnostics;
      raw_report = raw_report;
      result_id = none;
      received_for_version = if received_after_boundary then current_version else none;
      closed = false;
      serialized_bytes = 0;
      last_used = 0;
    }

abbrev pub version_json : Option I64 → Json
version_json none = null
version_json (some v) = number v

abbrev pub published_report : String → Option I64 → Json → Json
published_report uri version diagnostics =
    json
      (("uri", string uri) ∷ ("version", version_json version) ∷ ("diagnostics", diagnostics) ∷ [])

abbrev pub exact_version : CachedDiagnostics → Option I64 → Bool
exact_version snapshot current_version =
    is_some snapshot.version && same_version snapshot.version current_version

abbrev pub usable_versionless : CachedDiagnostics → Option I64 → Bool
usable_versionless snapshot current_version =
    not (is_some snapshot.version)
    && is_some snapshot.received_for_version
    && same_version snapshot.received_for_version current_version

abbrev pub nothing_published : String → Option I64 → DiagnosticResult
nothing_published uri current_version = record {
  uri = uri;
  diagnostics = json_array [];
  raw_report = null;
  effective_report = null;
  result_id = none;
  version = current_version;
  fresh = false;
  complete = false;
  closed = false;
}

unfoldable pub published :
    DiagnosticCache → String → Option I64 → DiagnosticCache × DiagnosticResult
unfolding same_version
published cache uri current_version =
    let ticked = tick cache in
    elim (lookup (push_key uri) cache.snapshots) [
      | none ↦ (ticked, nothing_published uri current_version)
      | some snapshot ↦
          let used = touch ticked.clock snapshot in
          (
            record ticked { snapshots = replace (push_key uri) used cache.snapshots },
            if exact_version snapshot current_version || usable_versionless snapshot current_version
                then render_snapshot used (exact_version snapshot current_version) true
                else nothing_published uri current_version,
          )
    ]

abbrev pub mark_snapshot_closed : CachedDiagnostics → CachedDiagnostics
mark_snapshot_closed snapshot = record snapshot { closed = true; received_for_version = none }

abbrev pub mark_key : String → DiagnosticCache → DiagnosticCache
mark_key key cache = elim (lookup key cache.snapshots) [
  | none ↦ cache
  | some snapshot ↦ record cache {
    snapshots = replace key (mark_snapshot_closed snapshot) cache.snapshots;
  }
]

unfoldable pub mark_closed : DiagnosticCache → String → DiagnosticCache
mark_closed cache uri = mark_key (pull_key uri) (mark_key (push_key uri) cache)

unfoldable pub pull_keys : Map CachedDiagnostics → List String
pull_keys [] = []
pull_keys ((key, snapshot) ∷ m) = let rest = pull_keys m in if is_pull key then key ∷ rest else rest

unfoldable pub forget_each : List String → DiagnosticCache → DiagnosticCache
forget_each [] cache = cache
forget_each (key ∷ keys) cache = forget_each keys (forget cache key)

unfoldable pub invalidate_pull_result_ids : DiagnosticCache → DiagnosticCache
unfolding pull_keys forget_each
invalidate_pull_result_ids cache = forget_each (pull_keys cache.snapshots) cache

unfoldable pub pull_result_id : DiagnosticCache → String → Option String
pull_result_id cache uri = elim (lookup (pull_key uri) cache.snapshots) [
  | none ↦ none
  | some snapshot ↦ snapshot.result_id
]

abbrev result_id_json : String → CachedDiagnostics → List Json → List Json
result_id_json key snapshot rest = elim snapshot.result_id [
  | none ↦ rest
  | some value ↦
      if is_pull key
      then json (("uri", string snapshot.uri) ∷ ("value", string value) ∷ []) ∷ rest
      else rest
]

unfoldable pub pull_result_ids : Map CachedDiagnostics → List Json
pull_result_ids [] = []
pull_result_ids ((key, snapshot) ∷ m) = result_id_json key snapshot (pull_result_ids m)

abbrev touch_if : Bool → ℕ → CachedDiagnostics → CachedDiagnostics
touch_if b clock snapshot = if b then touch clock snapshot else snapshot

-- the snapshots that `all_known` walks over, used, and what it answers
unfoldable pub touch_pushed : ℕ → Map CachedDiagnostics → Map CachedDiagnostics
touch_pushed clock [] = []
touch_pushed clock ((key, snapshot) ∷ m) =
    (key, touch_if (is_push key) clock snapshot) ∷ touch_pushed clock m

unfoldable pub rendered_pushed : Map CachedDiagnostics → List DiagnosticResult
rendered_pushed [] = []
rendered_pushed ((key, snapshot) ∷ m) =
    let rest = rendered_pushed m in
    if is_push key then render_snapshot snapshot false true ∷ rest else rest

unfoldable pub all_known : DiagnosticCache → DiagnosticCache × List DiagnosticResult
unfolding touch_pushed rendered_pushed
all_known cache =
    let ticked = tick cache in
    let used = touch_pushed ticked.clock cache.snapshots in
    (record ticked { snapshots = used }, rendered_pushed used)

unfoldable pub touch_all : ℕ → Map CachedDiagnostics → Map CachedDiagnostics
touch_all clock [] = []
touch_all clock ((key, snapshot) ∷ m) = (key, touch clock snapshot) ∷ touch_all clock m

abbrev exported_snapshot : String → CachedDiagnostics → Json
exported_snapshot key snapshot = json (
    ("kind", string (if is_push key then "push" else "pull"))
    ∷ ("uri", string snapshot.uri)
    ∷ ("version", version_json snapshot.version)
    ∷ ("diagnostics", snapshot.diagnostics)
    ∷ ("rawReport", snapshot.raw_report)
    ∷ ("receivedForVersion", version_json snapshot.received_for_version)
    ∷ ("closed", boolean snapshot.closed)
    ∷ [])

unfoldable pub exported : Map CachedDiagnostics → List Json
exported [] = []
exported ((key, snapshot) ∷ m) = exported_snapshot key snapshot ∷ exported m

unfoldable pub export_state : DiagnosticCache → DiagnosticCache × Json
unfolding exported touch_all
export_state cache =
    let ticked = tick cache in
    (
      record ticked { snapshots = touch_all ticked.clock cache.snapshots },
      json_array (exported cache.snapshots),
    )

module _ (serialized_size : Json → ℕ) where
  -- `store`, which says whether the snapshot is there in the end
  unfoldable pub store :
      DiagnosticCache → String → CachedDiagnostics → Option (DiagnosticCache × Bool)
  unfolding trim oldest
  store cache key snapshot =
      let ticked = tick cache in
      let bytes = serialized_size snapshot.raw_report in
      let cleared = forget ticked key in
      let entered = put cleared key snapshot bytes in
      if ltb cleared.max_total_bytes bytes || cleared.max_snapshots == 0
      then some (cleared, false)
      else stored_key key (trim (suc (length entered.snapshots)) entered)

  unfoldable pub publish :
      DiagnosticCache
      → String
      → Option I64
      → Json
      → Option I64
      → Bool
      → Option (DiagnosticCache × DiagnosticResult)
  unfolding store published
  publish cache uri version diagnostics current_version received_after_boundary =
      let raw_report = published_report uri version diagnostics in
      elim (store cache (push_key uri) (
        published_snapshot uri version diagnostics raw_report current_version
          received_after_boundary)) [
            | none ↦ none
            | some (cache', true) ↦ some (published cache' uri current_version)
            | some (cache', false) ↦ some (
              cache',
              record {
                uri = uri;
                diagnostics = diagnostics;
                raw_report = raw_report;
                effective_report = raw_report;
                result_id = none;
                version = version;
                fresh = is_some version && same_version version current_version;
                complete = false;
                closed = false;
              },
            )
          ]
