-- ===== src/Diagnostics/Bounds.antt =====
-- `store`: it always returns, within the limits of the cache.
use lspctl.Prelude.{
  ℕ, zero, suc, ◌+◌, ◌≤◌, ◌<◌, String, ◌≡◌, ◌≢◌, refl, Bool, true, false, ◌||◌, none, some, [], ◌∷◌,
  arith, str_eq, eq_iff, length, ltb, ◌==◌, Option-cases, Bool-cases, inl, inr, u64_max,
  saturating_add, saturating_add_exact, saturating_add-le, saturating_add-grows, ◌∙◌,
}
use lspctl.Json.{Json}
use lspctl.Map.{Map, lookup, contains_key, remove}
use lspctl.Map.Laws.{
  IsDistinct, lookup-insert, lookup-remove, insert-IsDistinct, remove-IsDistinct,
  contains_iff_lookup,
}
use lspctl.Map.Totals.{total, total-remove, total-place, length-remove, insert_absent}
use lspctl.Diagnostics.{CachedDiagnostics, DiagnosticCache}
use lspctl.Diagnostics.Cache.{forget, oldest, over, trim, tick, put, store}

abbrev pub bytes_of : CachedDiagnostics → ℕ
bytes_of snapshot = snapshot.serialized_bytes

-- What every step of `store` keeps.
pub record IsExact (cache : DiagnosticCache) : Type 0 where
  pub distinct : IsDistinct cache.snapshots
  pub exact : cache.total_bytes ≡ total bytes_of cache.snapshots

-- What holds between the operations: the keys are distinct, the total is that of the reports, neither
-- limit is exceeded, no snapshot was used later than now, and two reports of the greatest size fit a
-- `u64`.
pub record IsValid (cache : DiagnosticCache) : Type 0 where
  pub accounted : IsExact cache
  pub count : length cache.snapshots ≤ cache.max_snapshots
  pub within : cache.total_bytes ≤ cache.max_total_bytes
  pub aged :
      (key : String) (snapshot : CachedDiagnostics)
      → lookup key cache.snapshots ≡ some snapshot
      → snapshot.last_used ≤ cache.clock
  pub clock_fits : cache.clock ≤ u64_max
  pub room : cache.max_total_bytes + cache.max_total_bytes ≤ u64_max

pub forget-IsExact :
    (cache : DiagnosticCache) (key : String) → IsExact cache → IsExact (forget cache key)
forget-IsExact cache key c = record {
  distinct = remove-IsDistinct key cache.snapshots c.distinct;
  exact = ground (arith, c.exact, total-remove bytes_of key cache.snapshots);
}

pub tick-IsExact : (cache : DiagnosticCache) → IsExact cache → IsExact (tick cache)
tick-IsExact cache c = record { distinct = c.distinct; exact = c.exact }

pub kept-forget :
    (cache : DiagnosticCache) (key : String)
    → IsExact cache
    → (j : String) (snapshot : CachedDiagnostics)
    → lookup j (forget cache key).snapshots ≡ some snapshot
    → lookup j cache.snapshots ≡ some snapshot
kept-forget cache key c j snapshot h =
    ground (arith, lookup-remove key j cache.snapshots c.distinct)

pub contains-remove_same :
    (key : String) (m : Map CachedDiagnostics)
    → IsDistinct m
    → contains_key key (remove key m) ≡ false
contains-remove_same key m d =
    ground
      (arith, contains_iff_lookup key (remove key m), lookup-remove key key m d, eq_iff key key)

pub put-IsExact :
    (cache : DiagnosticCache) (key : String) (snapshot : CachedDiagnostics) (bytes : ℕ)
    → IsExact cache
    → contains_key key cache.snapshots ≡ false
    → cache.total_bytes + bytes ≤ u64_max
    → IsExact (put cache key snapshot bytes)
put-IsExact cache key snapshot bytes c new fits = record {
  distinct = insert-IsDistinct key _ cache.snapshots c.distinct;
  exact =
      let entry : CachedDiagnostics = record snapshot {
        serialized_bytes = bytes;
        last_used = cache.clock;
      } in
      rw (insert_absent key entry cache.snapshots new) (
        omega (
          arith,
          c.exact,
          total-place bytes_of key entry cache.snapshots,
          saturating_add_exact u64_max cache.total_bytes bytes fits,
        ));
}

pub nothing_oldest : (m : Map CachedDiagnostics) → oldest m ≡ none → m ≡ []
unfolding oldest
nothing_oldest [] h = refl
nothing_oldest ((k, s) ∷ m) h = ground arith

-- The candidate is there, and none was used before it.
oldest_there :
    (m : Map CachedDiagnostics) (key : String) (used : ℕ)
    → oldest m ≡ some (key, used)
    → contains_key key m ≡ true
unfolding oldest contains_key
oldest_there [] key used h = cc
oldest_there ((k, s) ∷ m) key used h = elim (Option-cases (oldest m)) [
  | inl nobody ↦ ground (arith, eq_iff k key)
  | inr ((j, n), found) ↦ ground (arith, eq_iff k key, oldest_there m j n found)
]

pub oldest_least :
    (m : Map CachedDiagnostics) (key : String) (used : ℕ) (j : String)
    (snapshot : CachedDiagnostics)
    → oldest m ≡ some (key, used)
    → lookup j m ≡ some snapshot
    → used ≤ snapshot.last_used
unfolding oldest lookup
oldest_least [] key used j snapshot h there = cc
oldest_least ((k, s) ∷ m) key used j snapshot h there = elim (Option-cases (oldest m)) [
  | inl nobody ↦ ground (arith, nothing_oldest m nobody)
  | inr ((i, n), found) ↦ ground (arith, oldest_least m i n j snapshot found)
]

pub oldest_used :
    (m : Map CachedDiagnostics) (key : String) (used : ℕ) (snapshot : CachedDiagnostics)
    → IsDistinct m
    → oldest m ≡ some (key, used)
    → lookup key m ≡ some snapshot
    → snapshot.last_used ≡ used
unfolding oldest lookup
oldest_used [] key used snapshot d h there = cc
oldest_used ((k, s) ∷ m) key used snapshot d h there = elim (Option-cases (oldest m)) [
  | inl nobody ↦ ground (arith, eq_iff k key)
  | inr ((i, n), found) ↦
      ground
        (arith, eq_iff k key, d.0, oldest_there m i n found, oldest_used m i n snapshot d.1 found)
]

-- What `trim` needs and what it reaches.
pub record Trimmed (cache cache' : DiagnosticCache) : Type 0 where
  pub accounted : IsExact cache'
  pub fine : over cache' ≡ false
  pub max_snapshots : cache'.max_snapshots ≡ cache.max_snapshots
  pub max_total_bytes : cache'.max_total_bytes ≡ cache.max_total_bytes
  pub clock : cache'.clock ≡ cache.clock
  pub kept :
      (key : String) (snapshot : CachedDiagnostics)
      → lookup key cache'.snapshots ≡ some snapshot
      → lookup key cache.snapshots ≡ some snapshot

pub trim-zero : (cache : DiagnosticCache) {cache' : DiagnosticCache} → trim zero cache ≢ some cache'
unfolding trim
trim-zero cache = λ h. cc

module _ (fuel : ℕ) (cache : DiagnosticCache) where
  pub trim-stop : over cache ≡ false → trim (suc fuel) cache ≡ some cache
  unfolding trim
  trim-stop h = ground arith

  pub trim-next :
      (key : String) (used : ℕ)
      → over cache ≡ true
      → oldest cache.snapshots ≡ some (key, used)
      → trim (suc fuel) cache ≡ trim fuel (forget cache key)
  unfolding trim
  trim-next key used h found = ground arith

pub trim-Trimmed :
    (fuel : ℕ) (cache : DiagnosticCache)
    → IsExact cache
    → length cache.snapshots < fuel
    → (cache' : DiagnosticCache) × (trim fuel cache ≡ some cache') × Trimmed cache cache'
unfolding trim
trim-Trimmed zero cache c h = absurd (omega arith)
trim-Trimmed (suc fuel) cache c h = elim (Bool-cases (over cache)) [
  | inr fine ↦ (
    cache,
    trim-stop fuel cache fine,
    record {
      accounted = c;
      fine = fine;
      max_snapshots = refl;
      max_total_bytes = refl;
      clock = refl;
      kept = λ j x p. p;
    },
  )
  | inl too_much ↦ elim (Option-cases (oldest cache.snapshots)) [
    | inl nobody ↦ absurd (ground (arith, nothing_oldest cache.snapshots nobody, c.exact))
    | inr ((key, used), found) ↦
        let (cache', run, t) = trim-Trimmed fuel (forget cache key) (forget-IsExact cache key c) (
          ground (
            arith,
            length-remove key cache.snapshots,
            oldest_there cache.snapshots key used found,
          )) in
        (
          cache',
          trim-next fuel cache key used too_much found ∙ run,
          record {
            accounted = t.accounted;
            fine = t.fine;
            max_snapshots = t.max_snapshots;
            max_total_bytes = t.max_total_bytes;
            clock = t.clock;
            kept = λ j x p. kept-forget cache key c j x (t.kept j x p);
          },
        )
  ]
]

aged-tick :
    (cache : DiagnosticCache)
    → IsValid cache
    → (j : String) (snapshot : CachedDiagnostics) → lookup j cache.snapshots ≡ some snapshot
    → snapshot.last_used ≤ saturating_add u64_max cache.clock 1
aged-tick cache v j snapshot h =
    omega (arith, v.aged j snapshot h, saturating_add-grows u64_max cache.clock 1 v.clock_fits)

aged-put :
    (cache : DiagnosticCache)
    → IsValid cache
    → (key : String) (snapshot : CachedDiagnostics) (bytes : ℕ) (j : String) (s : CachedDiagnostics)
    → lookup j (put (forget (tick cache) key) key snapshot bytes).snapshots ≡ some s
    → s.last_used ≤ saturating_add u64_max cache.clock 1
aged-put cache v key snapshot bytes j s h =
    let entry : CachedDiagnostics = record snapshot {
      serialized_bytes = bytes;
      last_used = (tick cache).clock;
    } in
    elim (Bool-cases (str_eq key j)) [
      | inl same ↦ ground (arith, lookup-insert key j entry (remove key cache.snapshots))
      | inr other ↦ aged-tick cache v j s (
          kept-forget (tick cache) key (tick-IsExact cache v.accounted) j s
            (ground (arith, lookup-insert key j entry (remove key cache.snapshots))))
    ]

-- Storing a report always returns: a valid cache stays valid, with the same limits, whatever the report
-- is, also where its key is new, where it replaces another, and where it does not fit at all.
pub store-IsValid :
    (serialized_size : Json → ℕ) (cache : DiagnosticCache) (key : String)
    (snapshot : CachedDiagnostics)
    → IsValid cache
    → (cache' : DiagnosticCache) × (stored : Bool) × (store serialized_size cache key snapshot
        ≡ some (cache', stored))
      × IsValid cache'
      × (cache'.max_snapshots ≡ cache.max_snapshots)
      × (cache'.max_total_bytes ≡ cache.max_total_bytes)
unfolding store
store-IsValid serialized_size cache key snapshot v =
    let bytes = serialized_size snapshot.raw_report in
    let cleared = forget (tick cache) key in
    let exact = forget-IsExact (tick cache) key (tick-IsExact cache v.accounted) in
    let less = total-remove bytes_of key cache.snapshots in
    let fewer = length-remove key cache.snapshots in
    elim (Bool-cases (ltb cleared.max_total_bytes bytes || cleared.max_snapshots == 0)) [
      | inl too_large ↦ (
        cleared,
        false,
        rw (too_large, store) refl,
        record {
          accounted = exact;
          count = omega (arith, fewer, v.count);
          within = omega (arith, v.within);
          aged = λ j x p.
              aged-tick cache v j x
                (kept-forget (tick cache) key (tick-IsExact cache v.accounted) j x p);
          clock_fits = saturating_add-le u64_max cache.clock 1;
          room = v.room;
        },
        refl,
        refl,
      )
      | inr fits ↦
          let entered = put cleared key snapshot bytes in
          let (cache', run, t) =
            trim-Trimmed (suc (length entered.snapshots)) entered
              (put-IsExact cleared key snapshot bytes exact
                (contains-remove_same key cache.snapshots v.accounted.distinct)
                (ground (arith, v.within, v.room)))
              (omega arith) in
          (
            cache',
            contains_key key cache'.snapshots,
            rw (fits, run, store) refl,
            record {
              accounted = t.accounted;
              count = ground (arith, t.fine);
              within = ground (arith, t.fine);
              aged = λ j x p.
                  ground (arith, t.clock, aged-put cache v key snapshot bytes j x (t.kept j x p));
              clock_fits = ground (arith, t.clock, saturating_add-le u64_max cache.clock 1);
              room = ground (arith, t.max_total_bytes, v.room);
            },
            t.max_snapshots,
            t.max_total_bytes,
          )
    ]
