-- ===== src/Map/Order.antt =====
-- The keys of a map stand in their order, and each change keeps that.
use Prim.Native.Nat.{Ordering, compare as compare_ℕ}
use Prim.Native.String.{compare}
use Prim.Native.String.compare.{cons-cons, cons-nil, nil-cons, nil-nil}
use Prim.Native.Char.{code, Char}
use text.Mathlib.TextEquality.{Char-path}
use lspctl.Prelude.{
  String, ◌≡◌, refl, ap, ◌∙◌, true, false, [], ◌∷◌, arith, str_eq, eq_iff, Bool-cases, inl, inr,
}
use lspctl.Map.Laws.{IsDistinct}
use lspctl.Map.{Map, is_less, before, contains_key, replace, place, insert}

pub before-cons :
    (c d : Char) (s t : String)
    → before (String.◌∷◌ c s) (String.◌∷◌ d t) ≡ (elim (compare_ℕ (code c) (code d)) [
      | Ordering.lt ↦ true
      | Ordering.eq ↦ before s t
      | Ordering.gt ↦ false
    ])
before-cons c d s t = ap is_less (cons-cons c d s t) ∙ first (compare_ℕ (code c) (code d))
  where
    first :
        (o : Ordering)
        → is_less (Prim.Native.String.then o (compare s t))
          ≡ (elim o [ Ordering.lt ↦ true | Ordering.eq ↦ before s t | Ordering.gt ↦ false ])
    first Ordering.lt = refl
    first Ordering.eq = refl
    first Ordering.gt = refl

pub before-nil : (s : String) → before s "" ≡ false
before-nil String.[] = refl
before-nil (String.◌∷◌ c s) = ap is_less (cons-nil c s)

pub nil-before : (c : Char) (s : String) → before "" (String.◌∷◌ c s) ≡ true
nil-before c s = ap is_less (nil-cons c s)

pub before_trans : (j k l : String) → before j k ≡ true → before k l ≡ true → before j l ≡ true
before_trans j String.[] l a b = ground (arith, before-nil j)
before_trans j (String.◌∷◌ d t) String.[] a b = ground (arith, before-nil (String.◌∷◌ d t))
before_trans String.[] (String.◌∷◌ d t) (String.◌∷◌ e u) a b = nil-before e u
before_trans (String.◌∷◌ c s) (String.◌∷◌ d t) (String.◌∷◌ e u) a b =
    ground
      (arith, before-cons c d s t, before-cons d e t u, before-cons c e s u, before_trans s t u)

same_code : (c d : Char) (s : String) → code c ≡ code d → String.◌∷◌ c s ≡ String.◌∷◌ d s
same_code c d s h = ap (λ x. String.◌∷◌ x s) (Char-path c d h)

pub before_total : (j k : String) → before j k ≡ false → before k j ≡ false → j ≡ k
before_total String.[] String.[] a b = refl
before_total String.[] (String.◌∷◌ d t) a b = ground (arith, nil-before d t)
before_total (String.◌∷◌ c s) String.[] a b = ground (arith, nil-before c s)
before_total (String.◌∷◌ c s) (String.◌∷◌ d t) a b =
    ap (λ u. String.◌∷◌ c u)
      (before_total s t (ground (arith, before-cons c d s t, before-cons d c t s))
        (ground (arith, before-cons c d s t, before-cons d c t s)))
    ∙ same_code c d t (ground (arith, before-cons c d s t, before-cons d c t s))

before_irrefl : (k : String) → before k k ≡ false
before_irrefl String.[] = refl
before_irrefl (String.◌∷◌ c s) = ground (arith, before-cons c c s s, before_irrefl s)

-- Every key comes after the one given.
abbrev pub AllAfter {ℓ} : {V : Type ℓ} → String → Map V → Type 0
AllAfter k [] = Unit
AllAfter k ((j, v) ∷ m) = (before k j ≡ true) × AllAfter k m

abbrev pub IsSorted {ℓ} : {V : Type ℓ} → Map V → Type 0
IsSorted [] = Unit
IsSorted ((k, v) ∷ m) = AllAfter k m × IsSorted m

module _ {ℓ} {V : Type ℓ} where
  AllAfter-trans : (j k : String) (m : Map V) → before j k ≡ true → AllAfter k m → AllAfter j m
  AllAfter-trans j k [] b h = tt
  AllAfter-trans j k ((i, v) ∷ m) b h = (before_trans j k i b h.0, AllAfter-trans j k m b h.1)

  pub contains-AllAfter : (k : String) (m : Map V) → AllAfter k m → contains_key k m ≡ false
  unfolding contains_key
  contains-AllAfter k [] h = refl
  contains-AllAfter k ((i, v) ∷ m) h =
      ground (arith, eq_iff i k, before_irrefl k, contains-AllAfter k m)

  replace-AllAfter : (j k : String) (v : V) (m : Map V) → AllAfter j m → AllAfter j (replace k v m)
  unfolding replace
  replace-AllAfter j k v [] h = tt
  replace-AllAfter j k v ((i, w) ∷ m) h = elim (Bool-cases (str_eq i k)) [
    | inl e ↦ rw e h
    | inr e ↦ rw e (h.0, replace-AllAfter j k v m h.1)
  ]

  replace-IsSorted : (k : String) (v : V) (m : Map V) → IsSorted m → IsSorted (replace k v m)
  unfolding replace
  replace-IsSorted k v [] h = tt
  replace-IsSorted k v ((i, w) ∷ m) h = elim (Bool-cases (str_eq i k)) [
    | inl e ↦ rw e h
    | inr e ↦ rw e (replace-AllAfter i k v m h.0, replace-IsSorted k v m h.1)
  ]

  place-AllAfter :
      (j k : String) (v : V) (m : Map V)
      → before j k ≡ true
      → AllAfter j m
      → AllAfter j (place k v m)
  unfolding place
  place-AllAfter j k v [] b h = (b, tt)
  place-AllAfter j k v ((i, w) ∷ m) b h = elim (Bool-cases (before i k)) [
    | inl e ↦ rw e (h.0, place-AllAfter j k v m b h.1)
    | inr e ↦ rw e (b, h)
  ]

  pub place_after :
      (k i : String) (w : V) (m : Map V)
      → contains_key k ((i, w) ∷ m) ≡ false
      → before i k ≡ false
      → before k i ≡ true
  unfolding contains_key
  place_after k i w m new e = ground (arith, eq_iff i k, before_total i k)

  place-IsSorted :
      (k : String) (v : V) (m : Map V)
      → contains_key k m ≡ false
      → IsSorted m
      → IsSorted (place k v m)
  unfolding place contains_key
  place-IsSorted k v [] new h = (tt, tt)
  place-IsSorted k v ((i, w) ∷ m) new h = elim (Bool-cases (before i k)) [
    | inl e ↦ rw e (place-AllAfter i k v m e h.0, place-IsSorted k v m (ground arith) h.1)
    | inr e ↦
        let after : before k i ≡ true = place_after k i w m new e in
        rw e ((after, AllAfter-trans k i m after h.0), h)
  ]

  pub insert-IsSorted : (k : String) (v : V) (m : Map V) → IsSorted m → IsSorted (insert k v m)
  unfolding insert
  insert-IsSorted k v m h = elim (Bool-cases (contains_key k m)) [
    | inl there ↦ rw there (replace-IsSorted k v m h)
    | inr new ↦ rw new (place-IsSorted k v m new h)
  ]

  pub IsSorted-IsDistinct : (m : Map V) → IsSorted m → IsDistinct m
  IsSorted-IsDistinct [] h = tt
  IsSorted-IsDistinct ((k, v) ∷ m) h = (contains-AllAfter k m h.0, IsSorted-IsDistinct m h.1)
