-- ===== src/Diagnostics/Freshness.antt =====
-- A report that fits is never the one that `store` evicts.
use lspctl.Prelude.{
  ℕ, zero, suc, ◌≤◌, ◌<◌, String, ◌≡◌, true, false, some, [], ◌∷◌, arith, str_eq, eq_iff, length,
  Option-cases, Bool-cases, inl, inr, u64_max, saturating_add_exact, sym, ◌∙◌,
}
use mathlib.Core.Path.{subst}
use lspctl.Json.{Json}
use lspctl.Map.{Map, lookup, contains_key, remove}
use lspctl.Map.Laws.{IsDistinct, lookup-insert, lookup-remove, contains_iff_lookup}
use lspctl.Map.Totals.{total}
use lspctl.Diagnostics.{CachedDiagnostics, DiagnosticCache}
use lspctl.Diagnostics.Cache.{forget, oldest, over, trim, tick, put, store}
use lspctl.Diagnostics.Bounds.{
  IsExact, IsValid, bytes_of, forget-IsExact, put-IsExact, oldest_least, trim-stop, trim-next,
  store-IsValid, kept-forget, tick-IsExact, contains-remove_same, trim-Trimmed, oldest_used,
  nothing_oldest, trim-zero,
}

-- The snapshot of a key was used last of all, and fits alone.
record Newest (key : String) (snapshot : CachedDiagnostics) (cache : DiagnosticCache) : Type 0 where
  accounted : IsExact cache
  there : lookup key cache.snapshots ≡ some snapshot
  latest :
      (j : String) (s : CachedDiagnostics)
      → str_eq key j ≡ false
      → lookup j cache.snapshots ≡ some s
      → s.last_used < snapshot.last_used
  one_allowed : 1 ≤ cache.max_snapshots
  fits : snapshot.serialized_bytes ≤ cache.max_total_bytes

forget-Newest :
    (key j : String) (snapshot : CachedDiagnostics) (cache : DiagnosticCache)
    → str_eq j key ≡ false
    → Newest key snapshot cache
    → Newest key snapshot (forget cache j)
forget-Newest key j snapshot cache other n = record {
  accounted = forget-IsExact cache j n.accounted;
  there = ground (arith, n.there, lookup-remove j key cache.snapshots n.accounted.distinct);
  latest = λ i s k p.
      n.latest i s k (ground (arith, lookup-remove j i cache.snapshots n.accounted.distinct));
  one_allowed = n.one_allowed;
  fits = n.fits;
}

-- A key that stands alone in a map.
only_key :
    (key : String) (snapshot : CachedDiagnostics) (m : Map CachedDiagnostics)
    → IsDistinct m
    → lookup key m ≡ some snapshot
    → ((j : String) → str_eq key j ≡ false → contains_key j m ≡ false)
    → (length m ≤ 1) × (total bytes_of m ≡ snapshot.serialized_bytes)
unfolding lookup contains_key
only_key key snapshot [] d there alone = cc
only_key key snapshot ((j, s) ∷ []) d there alone = ground arith
only_key key snapshot ((j, s) ∷ (i, r) ∷ m) d there alone = absurd (
    ground (
      arith,
      d.0,
      alone j,
      alone i,
      eq_iff key j,
      eq_iff key i,
      eq_iff j j,
      eq_iff i i,
      eq_iff i j,
    ))

-- Where the candidate is the newest snapshot, it is alone, and there is nothing to evict.
Newest-alone :
    (key : String) (used : ℕ) (snapshot : CachedDiagnostics) (cache : DiagnosticCache)
    → oldest cache.snapshots ≡ some (key, used)
    → Newest key snapshot cache
    → over cache ≡ false
Newest-alone key used snapshot cache found n = ground (
  arith,
  only_key key snapshot cache.snapshots n.accounted.distinct n.there (λ j other.
      elim (Option-cases (lookup j cache.snapshots)) [
        | inl absent ↦ ground (arith, contains_iff_lookup j cache.snapshots)
        | inr (s, present) ↦ absurd (
            ground (
              arith,
              n.latest j s other present,
              oldest_least cache.snapshots key used j s found present,
              oldest_used cache.snapshots key used snapshot n.accounted.distinct found n.there,
            ))
      ]),
  n.accounted.exact,
  n.one_allowed,
  n.fits,
)

-- The loop never evicts the newest snapshot.
trim-keeps :
    (key : String) (snapshot : CachedDiagnostics) (fuel : ℕ) (cache cache' : DiagnosticCache)
    → Newest key snapshot cache
    → trim fuel cache ≡ some cache'
    → lookup key cache'.snapshots ≡ some snapshot
trim-keeps key snapshot zero cache cache' n run = absurd (trim-zero cache run)
trim-keeps key snapshot (suc fuel) cache cache' n run = elim (Bool-cases (over cache)) [
  | inr fine ↦
      let same : cache ≡ cache' = ground (arith, trim-stop fuel cache fine) in
      subst (λ (c : DiagnosticCache). lookup key c.snapshots ≡ some snapshot) same n.there
  | inl too_much ↦ elim (Option-cases (oldest cache.snapshots)) [
    | inl nobody ↦ absurd (ground (arith, nothing_oldest cache.snapshots nobody, n.there))
    | inr ((j, used), found) ↦ elim (Bool-cases (str_eq j key)) [
      | inl same ↦ absurd (ground (arith, eq_iff j key, Newest-alone key used snapshot cache, n))
      | inr other ↦
          trim-keeps key snapshot fuel (forget cache j) cache'
            (forget-Newest key j snapshot cache other n)
            (sym (trim-next fuel cache j used too_much found) ∙ run)
    ]
  ]
]

module _ (serialized_size : Json → ℕ) (cache : DiagnosticCache) (key : String)
    (snapshot : CachedDiagnostics) where
  abbrev entered_snapshot : CachedDiagnostics
  entered_snapshot = record snapshot {
    serialized_bytes = serialized_size snapshot.raw_report;
    last_used = (tick cache).clock;
  }

  abbrev entered_cache : DiagnosticCache
  entered_cache = put (forget (tick cache) key) key snapshot (serialized_size snapshot.raw_report)

  -- The report that `store` enters is the newest.
  entered-Newest :
      IsValid cache
      → cache.clock < u64_max
      → 1 ≤ cache.max_snapshots
      → serialized_size snapshot.raw_report ≤ cache.max_total_bytes
      → Newest key entered_snapshot entered_cache
  entered-Newest v early one fits =
      let exact = tick-IsExact cache v.accounted in
      record {
        accounted =
            put-IsExact (forget (tick cache) key) key snapshot _
              (forget-IsExact (tick cache) key exact)
              (contains-remove_same key cache.snapshots v.accounted.distinct)
              (omega (arith, fits, v.within, v.room));
        there = ground (
          arith,
          lookup-insert key key entered_snapshot (remove key cache.snapshots),
          eq_iff key key,
        );
        latest = λ j s other p. ground (
          arith,
          lookup-insert key j entered_snapshot (remove key cache.snapshots),
          kept-forget (tick cache) key exact j s,
          v.aged j s,
          saturating_add_exact u64_max cache.clock 1 (omega (arith, early)),
        );
        one_allowed = one;
        fits = fits;
      }

-- A report that fits the limits is stored, and is the one found under its key, used last of all.
pub store-keeps :
    (serialized_size : Json → ℕ) (cache : DiagnosticCache) (key : String)
    (snapshot : CachedDiagnostics)
    → IsValid cache
    → cache.clock < u64_max
    → 1 ≤ cache.max_snapshots
    → serialized_size snapshot.raw_report ≤ cache.max_total_bytes
    → (cache' : DiagnosticCache) × (store serialized_size cache key snapshot ≡ some (cache', true))
      × IsValid cache'
      × (lookup key cache'.snapshots
          ≡ some (record snapshot {
            serialized_bytes = serialized_size snapshot.raw_report;
            last_used = (tick cache).clock;
          }))
unfolding store
store-keeps serialized_size cache key snapshot v early one fits =
    let entered = entered_cache serialized_size cache key snapshot in
    let (trimmed, run, _) =
      trim-Trimmed (suc (length entered.snapshots)) entered
        (entered-Newest serialized_size cache key snapshot v early one fits).accounted
        (omega arith) in
    let found =
      trim-keeps key (entered_snapshot serialized_size cache key snapshot)
        (suc (length entered.snapshots)) entered trimmed
        (entered-Newest serialized_size cache key snapshot v early one fits) run in
    let stepped : store serialized_size cache key snapshot ≡ some (trimmed, true) =
      ground (arith, run, found, contains_iff_lookup key trimmed.snapshots) in
    let (cache', stored, run', valid, _, _) = store-IsValid serialized_size cache key snapshot v in
    let same : cache' ≡ trimmed = ground arith in
    (trimmed, stepped, subst IsValid same valid, found)
