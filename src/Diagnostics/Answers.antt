-- ===== src/Diagnostics/Answers.antt =====
-- Which queries a published report answers (`publish` and `published`).
use lspctl.Prelude.{
  ℕ, ◌≤◌, ◌<◌, String, ◌≡◌, refl, Bool, true, false, ◌&&◌, Option, none, some, [], arith,
  if◌then◌else◌, Bool-cases, inl, inr, u64_max,
}
use lspctl.Json.{Json}
use lspctl.Map.{lookup}
use lspctl.Json.{json_array, pos_int, neg_int, float}
use lspctl.Diagnostics.{
  DiagnosticCache, DiagnosticResult, I64, same_number, same_version, is_some, push_key,
  render_snapshot,
}
use lspctl.Diagnostics.Cache.{published, publish, published_snapshot, published_report, tick}
use lspctl.Diagnostics.Bounds.{IsValid}
use lspctl.Diagnostics.Freshness.{store-keeps}

same_number_refl : (a : I64) → same_number a a ≡ true
unfolding same_number
same_number_refl (pos_int n) = ground arith
same_number_refl (neg_int n) = ground arith
same_number_refl (float n) = ground arith

-- Whether a publication for `version` answers a query at `current_version`: with a version, for that
-- version; without one, for the version that was current when it came, if it came behind the boundary.
abbrev pub is_answer : Option I64 → Option I64 → Bool → Bool
is_answer (some v) current_version received = same_version (some v) current_version
is_answer none (some w) received = received
is_answer none none received = false

published_lem :
    (cache : DiagnosticCache) (uri : String) (version : Option I64) (diagnostics raw_report : Json)
    (current_version : Option I64) (received : Bool) (bytes used : ℕ)
    → (lookup (push_key uri) cache.snapshots
        ≡ some
            (record (published_snapshot uri version diagnostics raw_report current_version
              received) { serialized_bytes = bytes; last_used = used }))
    → (let (_, r) = published cache uri current_version in
        (r.complete ≡ is_answer version current_version received)
        × (r.diagnostics
            ≡ (if is_answer version current_version received then diagnostics else json_array []))
        × (r.fresh ≡ is_answer version current_version received && is_some version))
unfolding published same_version render_snapshot
published_lem cache uri (some v) diagnostics raw_report (some w) received bytes used h =
    elim (Bool-cases (same_number v w)) [
      | inl same ↦ rw (h, same, published) (refl, refl, refl)
      | inr other ↦ rw (h, other, published) (refl, refl, refl)
    ]
published_lem cache uri (some v) diagnostics raw_report none received bytes used h =
    rw (h, published) (refl, refl, refl)
published_lem cache uri none diagnostics raw_report (some w) true bytes used h =
    rw (h, same_number_refl w, published) (refl, refl, refl)
published_lem cache uri none diagnostics raw_report (some w) false bytes used h =
    rw (h, published) (refl, refl, refl)
published_lem cache uri none diagnostics raw_report none true bytes used h =
    rw (h, published) (refl, refl, refl)
published_lem cache uri none diagnostics raw_report none false bytes used h =
    rw (h, published) (refl, refl, refl)

-- Publishing a report that fits a valid cache, which holds one snapshot at least and whose clock has
-- not run out, returns a result that is complete exactly if the report answers the current version:
-- then it has the published diagnostics, and otherwise none. It is fresh exactly if, besides, the
-- diagnostics came with a version.
pub publish-is_answer :
    (serialized_size : Json → ℕ) (cache : DiagnosticCache) (uri : String) (version : Option I64)
    (diagnostics : Json) (current_version : Option I64) (received : Bool)
    → IsValid cache
    → cache.clock < u64_max
    → 1 ≤ cache.max_snapshots
    → serialized_size (published_report uri version diagnostics) ≤ cache.max_total_bytes
    → (cache' : DiagnosticCache) × (r : DiagnosticResult) × (publish serialized_size cache uri
          version diagnostics current_version received
        ≡ some (cache', r))
      × (r.complete ≡ is_answer version current_version received)
      × (r.diagnostics
          ≡ (if is_answer version current_version received then diagnostics else json_array []))
      × (r.fresh ≡ is_answer version current_version received && is_some version)
unfolding publish
publish-is_answer serialized_size cache uri version diagnostics current_version received v early one
      fits =
    let raw_report = published_report uri version diagnostics in
    let (stored, run, _, found) =
      store-keeps serialized_size cache (push_key uri)
        (published_snapshot uri version diagnostics raw_report current_version received) v early one
        fits in
    let answer =
      published_lem stored uri version diagnostics raw_report current_version received
        (serialized_size raw_report) (tick cache).clock found in
    (
      (published stored uri current_version).0,
      (published stored uri current_version).1,
      rw (run, publish) refl,
      answer.0,
      answer.1,
      answer.2,
    )
