-- ===== src/Map.antt =====
-- `std::collections::BTreeMap<String, V>`: the entries in the order of their keys. The order is that
-- of the bytes of the keys, which `compare` of the native texts has.
pub mod Laws
pub mod Order
pub mod Totals
use Prim.Native.Nat.{Ordering}
use Prim.Native.String.{compare}
use lspctl.Prelude.{
  String, Bool, true, false, Option, none, some, List, [], ◌∷◌, str_eq, if◌then◌else◌,
}

abbrev pub Map {ℓ} : Type ℓ → Type ℓ
Map V = List (String × V)

abbrev pub is_less : Ordering → Bool
is_less Ordering.lt = true
is_less _ = false

abbrev pub before : String → String → Bool
before j k = is_less (compare j k)

module _ {ℓ} {V : Type ℓ} where
  unfoldable pub lookup : String → Map V → Option V
  lookup k [] = none
  lookup k ((j, v) ∷ m) = if str_eq j k then some v else lookup k m

  unfoldable pub contains_key : String → Map V → Bool
  contains_key k [] = false
  contains_key k ((j, v) ∷ m) = if str_eq j k then true else contains_key k m

  -- the value of a key that is there, changed in place
  unfoldable pub replace : String → V → Map V → Map V
  replace k v [] = []
  replace k v ((j, w) ∷ m) = if str_eq j k then (j, v) ∷ m else (j, w) ∷ replace k v m

  -- a new key, in its place in the order
  unfoldable pub place : String → V → Map V → Map V
  place k v [] = (k, v) ∷ []
  place k v ((j, w) ∷ m) = if before j k then (j, w) ∷ place k v m else (k, v) ∷ (j, w) ∷ m

  unfoldable pub insert : String → V → Map V → Map V
  unfolding contains_key replace place
  insert k v m = if contains_key k m then replace k v m else place k v m

  unfoldable pub remove : String → Map V → Map V
  remove k [] = []
  remove k ((j, v) ∷ m) = if str_eq j k then m else (j, v) ∷ remove k m

  -- `map.range(k..)`
  unfoldable pub range_from : String → Map V → Map V
  range_from k [] = []
  range_from k ((j, v) ∷ m) = if before j k then range_from k m else (j, v) ∷ m

  unfoldable pub keys : Map V → List String
  keys [] = []
  keys ((k, v) ∷ m) = k ∷ keys m

  unfoldable pub values : Map V → List V
  values [] = []
  values ((k, v) ∷ m) = v ∷ values m
