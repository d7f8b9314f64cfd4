-- ===== src/Diagnostics/PullLaws.antt =====
-- A full report is kept, so that a later report that it is unchanged has its content.
use lspctl.Prelude.{
  ℕ, ◌≤◌, ◌<◌, String, ◌≡◌, refl, true, false, Option, none, some, arith, u64_max, sym, ap, str_eq,
  eq_iff, ◌∙◌,
}
use mathlib.Core.Path.{subst}
use lspctl.Json.{Json, Members, object, string, null, field, set_member}
use lspctl.Map.{lookup}
use lspctl.Diagnostics.{
  CachedDiagnostics, DiagnosticCache, DiagnosticResult, pull_key, render_snapshot,
}
use lspctl.Diagnostics.Bounds.{IsValid}
use lspctl.Diagnostics.Freshness.{store-keeps}
use lspctl.Diagnostics.Pull.{
  set_field, kind_is, items_field, str_field, full_result, renewed, option_string, first_some,
  reconstruct_pull_report, pulled_snapshot, store_pull_result, apply_pull_report, bind_field,
}

-- A report is an object.
abbrev pub IsObject : Json → Type 0
IsObject j = (m : Members) × (j ≡ object m)

kind-IsObject : (kind : String) (j : Json) → kind_is kind j ≡ true → IsObject j
unfolding field
kind-IsObject kind (object m) h = (m, refl)
kind-IsObject kind null h = cc
kind-IsObject kind (Json.boolean b) h = cc
kind-IsObject kind (Json.number n) h = cc
kind-IsObject kind (string s) h = cc
kind-IsObject kind (Json.array vs) h = cc

bind_field-object :
    (name : String) (v : Option Json) (m : Members)
    → (m' : Members) × (bind_field name v (some (object m)) ≡ some (object m'))
unfolding set_field
bind_field-object name none m = (m, refl)
bind_field-object name (some v) m = (set_member name v m, refl)

-- The new ids can be written into a cached report that is an object.
renewed_object :
    (uri : String) (report : Json) (result_id : Option String) (m : Members)
    → (m' : Members) × (renewed uri report result_id (object m) ≡ some (object m'))
renewed_object uri report result_id m =
    let (m1, one) = bind_field-object "resultId" (option_string result_id) m in
    let (m2, two) = bind_field-object "uri" (some (string uri)) m1 in
    let (m3, three) = bind_field-object "version" (field "version" report) m2 in
    (
      m3,
      ap
            (λ j.
              bind_field "version" (field "version" report)
                (bind_field "uri" (some (string uri)) j))
            one
          ∙ ap (bind_field "version" (field "version" report)) two
          ∙ three,
    )

unchanged_lem :
    (cache : DiagnosticCache) (uri : String) (report effective : Json)
    (snapshot : CachedDiagnostics)
    → kind_is "unchanged" report ≡ true
    → lookup (pull_key uri) cache.snapshots ≡ some snapshot
    → (renewed uri report
          (first_some (str_field "resultId" report) snapshot.result_id)
          snapshot.raw_report
        ≡ some effective)
    → reconstruct_pull_report cache uri report
      ≡ some (record (render_snapshot snapshot true true) {
        result_id = first_some (str_field "resultId" report) snapshot.result_id;
        effective_report = effective;
        raw_report = report;
      })
unfolding reconstruct_pull_report render_snapshot
unchanged_lem cache uri report effective snapshot kind found e = ground (arith, kind, found, e)

unchanged-found :
    (cache : DiagnosticCache) (uri : String) (report : Json) (snapshot : CachedDiagnostics)
    (m : Members)
    → kind_is "unchanged" report ≡ true
    → lookup (pull_key uri) cache.snapshots ≡ some snapshot
    → snapshot.raw_report ≡ object m
    → (r : DiagnosticResult) × (reconstruct_pull_report cache uri report ≡ some r)
      × (r.complete ≡ true)
      × (r.diagnostics ≡ snapshot.diagnostics)
      × (r.raw_report ≡ report)
unfolding render_snapshot
unchanged-found cache uri report snapshot m kind found o =
    let result_id = first_some (str_field "resultId" report) snapshot.result_id in
    let (m', e) = renewed_object uri report result_id m in
    (
      record (render_snapshot snapshot true true) {
        result_id = result_id;
        effective_report = object m';
        raw_report = report;
      },
      unchanged_lem cache uri report (object m') snapshot kind found
          (ap (renewed uri report result_id) o ∙ e),
      refl,
      refl,
      refl,
    )

one_kind : (k : String) → str_eq k "full" ≡ true → str_eq k "unchanged" ≡ false
one_kind k h = subst (λ s. str_eq s "unchanged" ≡ false) (sym ((eq_iff k "full").0 h)) refl

full_not_unchanged :
    (report : Json) → kind_is "full" report ≡ true → kind_is "unchanged" report ≡ false
full_not_unchanged report h = go (str_field "kind" report) h
  where
    go :
        (o : Option String)
        → (elim o [ none ↦ false | some k ↦ str_eq k "full" ]) ≡ true
        → (elim o [ none ↦ false | some k ↦ str_eq k "unchanged" ]) ≡ false
    go none h = refl
    go (some k) h = one_kind k h

full_lem :
    (cache : DiagnosticCache) (uri : String) (report items : Json)
    → kind_is "full" report ≡ true
    → items_field report ≡ some items
    → reconstruct_pull_report cache uri report ≡ some (full_result uri report items)
unfolding reconstruct_pull_report
full_lem cache uri report items kind found =
    ground (arith, full_not_unchanged report kind, kind, found)

-- Applying a full report that fits a valid cache, which holds one snapshot at least and whose clock
-- has not run out, gives its items, and the cache, which stays valid, has them from then on: the
-- next report of the document, if it says that nothing changed, is reconstructed completely, with
-- those items, and does not panic.
pub apply_pull_report-remembers :
    (serialized_size : Json → ℕ) (cache : DiagnosticCache) (uri : String) (report items : Json)
    (next : Json)
    → IsValid cache
    → cache.clock < u64_max
    → 1 ≤ cache.max_snapshots
    → serialized_size report ≤ cache.max_total_bytes
    → kind_is "full" report ≡ true
    → items_field report ≡ some items
    → kind_is "unchanged" next ≡ true
    → (cache' : DiagnosticCache) × (apply_pull_report serialized_size cache uri report
        ≡ some (cache', full_result uri report items))
      × IsValid cache'
      × (r : DiagnosticResult) × (reconstruct_pull_report cache' uri next ≡ some r)
      × (r.complete ≡ true)
      × (r.diagnostics ≡ items)
      × (r.raw_report ≡ next)
unfolding apply_pull_report store_pull_result
apply_pull_report-remembers serialized_size cache uri report items next v early one fits full found
      unchanged =
    let result = full_result uri report items in
    let (cache', stored, valid, there) =
      store-keeps serialized_size cache (pull_key uri) (pulled_snapshot result) v early one fits in
    let (m, o) = kind-IsObject "full" report full in
    let again = unchanged-found cache' uri next _ m unchanged there o in
    (
      cache',
      ground (arith, full_lem cache uri report items full found, stored),
      valid,
      again.0,
      again.1,
      again.2,
      again.3,
      again.4,
    )
