-- ===== src/Map/Totals.antt =====
-- The number of entries of a map and the sum of a size over its entries, after each change.
use lspctl.Prelude.{ℕ, ◌+◌, String, ◌≡◌, false, none, some, [], ◌∷◌, arith, length, if◌then◌else◌}
use lspctl.Map.{Map, lookup, contains_key, place, insert, remove}

module _ {ℓ} {V : Type ℓ} (size : V → ℕ) where
  abbrev pub total : Map V → ℕ
  total [] = 0
  total ((k, v) ∷ m) = size v + total m

  abbrev pub size_at : String → Map V → ℕ
  size_at k m = elim (lookup k m) [ none ↦ 0 | some v ↦ size v ]

  pub total-remove : (k : String) (m : Map V) → total (remove k m) + size_at k m ≡ total m
  unfolding remove lookup
  total-remove k [] = omega arith
  total-remove k ((i, w) ∷ m) = ground (arith, total-remove k m)

  pub total-place : (k : String) (v : V) (m : Map V) → total (place k v m) ≡ total m + size v
  unfolding place
  total-place k v [] = omega arith
  total-place k v ((i, w) ∷ m) = ground (arith, total-place k v m)

module _ {ℓ} {V : Type ℓ} where
  pub length-remove :
      (k : String) (m : Map V)
      → length (remove k m) + (if contains_key k m then 1 else 0) ≡ length m
  unfolding remove contains_key
  length-remove k [] = omega arith
  length-remove k ((i, w) ∷ m) = ground (arith, length-remove k m)

  pub length-place : (k : String) (v : V) (m : Map V) → length (place k v m) ≡ length m + 1
  unfolding place
  length-place k v [] = omega arith
  length-place k v ((i, w) ∷ m) = ground (arith, length-place k v m)

  pub insert_absent :
      (k : String) (v : V) (m : Map V) → contains_key k m ≡ false → insert k v m ≡ place k v m
  unfolding insert
  insert_absent k v m h = rw h
