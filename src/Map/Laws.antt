-- ===== src/Map/Laws.antt =====
-- What a lookup returns after each change of a map, and that keys stay distinct.
use lspctl.Prelude.{
  String, ◌≡◌, refl, true, false, none, some, [], ◌∷◌, arith, str_eq, eq_iff, if◌then◌else◌,
  Bool-cases, inl, inr,
}
use lspctl.Map.{Map, lookup, contains_key, replace, place, insert, remove}

-- Each key stands once: none stands in the part of the map behind it.
abbrev pub IsDistinct {ℓ} : {V : Type ℓ} → Map V → Type 0
IsDistinct [] = Unit
IsDistinct ((k, v) ∷ m) = (contains_key k m ≡ false) × IsDistinct m

module _ {ℓ} {V : Type ℓ} where
  pub lookup-replace :
      (k j : String) (v : V) (m : Map V)
      → contains_key k m ≡ true
      → lookup j (replace k v m) ≡ (if str_eq k j then some v else lookup j m)
  unfolding lookup replace contains_key
  lookup-replace k j v [] h = cc
  lookup-replace k j v ((i, w) ∷ m) h =
      ground (arith, eq_iff k j, eq_iff i k, eq_iff i j, lookup-replace k j v m)

  pub lookup-place :
      (k j : String) (v : V) (m : Map V)
      → contains_key k m ≡ false
      → lookup j (place k v m) ≡ (if str_eq k j then some v else lookup j m)
  unfolding lookup place contains_key
  lookup-place k j v [] h = refl
  lookup-place k j v ((i, w) ∷ m) h =
      ground (arith, eq_iff k j, eq_iff i k, eq_iff i j, lookup-place k j v m)

  pub lookup-insert :
      (k j : String) (v : V) (m : Map V)
      → lookup j (insert k v m) ≡ (if str_eq k j then some v else lookup j m)
  unfolding insert
  lookup-insert k j v m = elim (Bool-cases (contains_key k m)) [
    | inl there ↦ rw there (lookup-replace k j v m there)
    | inr new ↦ rw new (lookup-place k j v m new)
  ]

  pub contains-replace :
      (k j : String) (v : V) (m : Map V) → contains_key j (replace k v m) ≡ contains_key j m
  unfolding contains_key replace
  contains-replace k j v [] = refl
  contains-replace k j v ((i, w) ∷ m) = ground (arith, contains-replace k j v m)

  pub contains-place :
      (k j : String) (v : V) (m : Map V)
      → contains_key j (place k v m) ≡ (if str_eq k j then true else contains_key j m)
  unfolding contains_key place
  contains-place k j v [] = refl
  contains-place k j v ((i, w) ∷ m) = ground (arith, contains-place k j v m)

  replace-IsDistinct : (k : String) (v : V) (m : Map V) → IsDistinct m → IsDistinct (replace k v m)
  unfolding replace
  replace-IsDistinct k v [] h = tt
  replace-IsDistinct k v ((i, w) ∷ m) h =
      ground (arith, contains-replace k i v m, replace-IsDistinct k v m)

  place-IsDistinct :
      (k : String) (v : V) (m : Map V)
      → contains_key k m ≡ false
      → IsDistinct m
      → IsDistinct (place k v m)
  unfolding place contains_key
  place-IsDistinct k v [] new h = (refl, tt)
  place-IsDistinct k v ((i, w) ∷ m) new h =
      ground (arith, contains-place k i v m, place-IsDistinct k v m, eq_iff k i, eq_iff i k)

  pub insert-IsDistinct :
      (k : String) (v : V) (m : Map V) → IsDistinct m → IsDistinct (insert k v m)
  unfolding insert
  insert-IsDistinct k v m h = elim (Bool-cases (contains_key k m)) [
    | inl there ↦ rw there (replace-IsDistinct k v m h)
    | inr new ↦ rw new (place-IsDistinct k v m new h)
  ]

  pub contains-remove_ne :
      (k j : String) (m : Map V) → contains_key j m ≡ false → contains_key j (remove k m) ≡ false
  unfolding contains_key remove
  contains-remove_ne k j [] h = refl
  contains-remove_ne k j ((i, w) ∷ m) h = ground (arith, contains-remove_ne k j m)

  pub remove-IsDistinct : (k : String) (m : Map V) → IsDistinct m → IsDistinct (remove k m)
  unfolding remove
  remove-IsDistinct k [] h = tt
  remove-IsDistinct k ((i, w) ∷ m) h =
      ground (arith, remove-IsDistinct k m, contains-remove_ne k i m)

  pub lookup_absent : (k : String) (m : Map V) → contains_key k m ≡ false → lookup k m ≡ none
  unfolding contains_key lookup
  lookup_absent k [] h = refl
  lookup_absent k ((i, w) ∷ m) h = ground (arith, lookup_absent k m)

  pub lookup-remove :
      (k j : String) (m : Map V)
      → IsDistinct m
      → lookup j (remove k m) ≡ (if str_eq k j then none else lookup j m)
  unfolding lookup remove
  lookup-remove k j [] h = ground arith
  lookup-remove k j ((i, w) ∷ m) h =
      ground (arith, eq_iff k j, eq_iff i k, eq_iff i j, lookup-remove k j m, lookup_absent j m)

  pub contains_iff_lookup :
      (k : String) (m : Map V)
      → contains_key k m ≡ elim (lookup k m) [ none ↦ false | some _ ↦ true ]
  unfolding contains_key lookup
  contains_iff_lookup k [] = refl
  contains_iff_lookup k ((i, w) ∷ m) = ground (arith, contains_iff_lookup k m)
