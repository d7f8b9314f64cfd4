-- ===== src/Planner/Subtree.antt =====
-- What a map of paths holds beneath a path, as a lookup sees it.
use lspctl.Prelude.{
  String, ◌≡◌, refl, true, false, none, [], ◌∷◌, arith, eq_iff, if◌then◌else◌, Bool-cases, inl, inr,
}
use lspctl.Map.{Map, before, lookup, range_from}
use lspctl.Map.Order.{AllAfter, IsSorted, before_trans}
use lspctl.Planner.Paths.{path_starts_with}
use lspctl.Planner.Paths.Order.{starts_with-before, starts_with-between}
use lspctl.Planner.Load.{take_beneath, beneath}

module _ {ℓ} {V : Type ℓ} where
  lookup-AllAfter :
      (k j : String) (m : Map V) → AllAfter j m → before j k ≡ false → lookup k m ≡ none
  unfolding lookup
  lookup-AllAfter k j [] h b = refl
  lookup-AllAfter k j ((i, w) ∷ m) h b = ground (arith, eq_iff i k, lookup-AllAfter k j m)

  abbrev AllFrom : String → Map V → Type 0
  AllFrom path [] = Unit
  AllFrom path ((j, v) ∷ m) = (before j path ≡ false) × AllFrom path m

  AllAfter-AllFrom :
      (j path : String) (m : Map V) → before j path ≡ false → AllAfter j m → AllFrom path m
  AllAfter-AllFrom j path [] b h = tt
  AllAfter-AllFrom j path ((i, v) ∷ m) b h =
      (ground (arith, before_trans j i path), AllAfter-AllFrom j path m b h.1)

  -- Where a key of a sorted map is not beneath the path, but stands after it, no later key is beneath.
  lookup_past :
      (k path j : String) (m : Map V)
      → AllAfter j m
      → before j path ≡ false
      → path_starts_with j path ≡ false
      → path_starts_with k path ≡ true
      → lookup k m ≡ none
  lookup_past k path j m h b n s =
      lookup-AllAfter k j m h (ground (arith, starts_with-between k j path))

  lookup-take_beneath :
      (k path : String) (m : Map V)
      → IsSorted m
      → AllFrom path m
      → lookup k (take_beneath path m) ≡ (if path_starts_with k path then lookup k m else none)
  unfolding lookup take_beneath
  lookup-take_beneath k path [] h b = ground arith
  lookup-take_beneath k path ((j, v) ∷ m) h b =
      ground (arith, eq_iff j k, lookup-take_beneath k path m, lookup_past k path j m)

  -- In a map in order, the scan for a subtree holds exactly the entries whose keys lie beneath the path.
  pub lookup-beneath :
      (k path : String) (m : Map V)
      → IsSorted m
      → lookup k (beneath path m) ≡ (if path_starts_with k path then lookup k m else none)
  unfolding lookup beneath range_from
  lookup-beneath k path [] h = lookup-take_beneath k path [] tt tt
  lookup-beneath k path ((j, v) ∷ m) h = elim (Bool-cases (before j path)) [
    | inl b ↦ ground (arith, eq_iff j k, lookup-beneath k path m, starts_with-before k path)
    | inr b ↦ rw b (lookup-take_beneath k path ((j, v) ∷ m) h (b, AllAfter-AllFrom j path m b h.0))
  ]

  abbrev pub AllBeneath : String → Map V → Type 0
  AllBeneath path [] = Unit
  AllBeneath path ((j, v) ∷ m) = (path_starts_with j path ≡ true) × AllBeneath path m

  take_beneath-AllBeneath : (path : String) (m : Map V) → AllBeneath path (take_beneath path m)
  unfolding take_beneath
  take_beneath-AllBeneath path [] = tt
  take_beneath-AllBeneath path ((j, v) ∷ m) = elim (Bool-cases (path_starts_with j path)) [
    | inl b ↦ rw b (b, take_beneath-AllBeneath path m)
    | inr b ↦ rw b tt
  ]

  pub beneath-AllBeneath : (path : String) (m : Map V) → AllBeneath path (beneath path m)
  unfolding beneath
  beneath-AllBeneath path m = take_beneath-AllBeneath path (range_from path m)

  take_beneath-AllAfter :
      (k path : String) (m : Map V) → AllAfter k m → AllAfter k (take_beneath path m)
  unfolding take_beneath
  take_beneath-AllAfter k path [] h = tt
  take_beneath-AllAfter k path ((j, v) ∷ m) h = elim (Bool-cases (path_starts_with j path)) [
    | inl b ↦ rw b (h.0, take_beneath-AllAfter k path m h.1)
    | inr b ↦ rw b tt
  ]

  take_beneath-IsSorted : (path : String) (m : Map V) → IsSorted m → IsSorted (take_beneath path m)
  unfolding take_beneath
  take_beneath-IsSorted path [] h = tt
  take_beneath-IsSorted path ((j, v) ∷ m) h = elim (Bool-cases (path_starts_with j path)) [
    | inl b ↦ rw b (take_beneath-AllAfter j path m h.0, take_beneath-IsSorted path m h.1)
    | inr b ↦ rw b tt
  ]

  range_from-IsSorted : (k : String) (m : Map V) → IsSorted m → IsSorted (range_from k m)
  unfolding range_from
  range_from-IsSorted k [] h = tt
  range_from-IsSorted k ((j, v) ∷ m) h = elim (Bool-cases (before j k)) [
    | inl b ↦ rw b (range_from-IsSorted k m h.1)
    | inr b ↦ rw b h
  ]

  pub beneath-IsSorted : (path : String) (m : Map V) → IsSorted m → IsSorted (beneath path m)
  unfolding beneath
  beneath-IsSorted path m h =
      take_beneath-IsSorted path (range_from path m) (range_from-IsSorted path m h)
