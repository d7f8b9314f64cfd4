-- ===== src/Planner/Paths/Prefix.antt =====
-- Taking the beginning of a path away, and putting another one in its place.
use Prim.Native.String.append.{nil, cons}
use Prim.Native.Char.{code, Char}
use text.Mathlib.TextEquality.{Char-path}
use mathlib.Core.Path.{subst}
use lspctl.Prelude.{
  String, ◌≡◌, refl, ap, ◌∙◌, Bool, true, false, Option, some, none, arith, ◌==◌, Bool-cases, inl,
  inr,
}
use lspctl.Planner.Paths.{path_starts_with, strip_prefix, join}

pub same_code : (c d : Char) (s : String) → code c ≡ code d → String.◌∷◌ c s ≡ String.◌∷◌ d s
same_code c d s h = ap (λ x. String.◌∷◌ x s) (Char-path c d h)

abbrev pub is_some {ℓ} : {A : Type ℓ} → Option A → Bool
is_some none = false
is_some (some a) = true

pub some_injective : {s t : String} → some s ≡ some t → s ≡ t
some_injective {s} h = ap (λ o. elim o [ none ↦ s | some u ↦ u ]) h

pub starts_with-strip_prefix : (k p : String) → path_starts_with k p ≡ is_some (strip_prefix k p)
unfolding path_starts_with strip_prefix
starts_with-strip_prefix String.[] String.[] = refl
starts_with-strip_prefix String.[] (String.◌∷◌ d t) = refl
starts_with-strip_prefix (String.◌∷◌ c s) String.[] = ground arith
starts_with-strip_prefix (String.◌∷◌ c s) (String.◌∷◌ d t) =
    ground (arith, starts_with-strip_prefix s t)

-- What stands behind a beginning is a relative path.
pub strip_prefix-relative :
    (k p r : String) → strip_prefix k p ≡ some r → path_starts_with r "" ≡ true
unfolding path_starts_with strip_prefix
strip_prefix-relative String.[] String.[] r h =
    subst (λ u. path_starts_with u "" ≡ true) (some_injective h) refl
strip_prefix-relative String.[] (String.◌∷◌ d t) r h = ground arith
strip_prefix-relative (String.◌∷◌ c s) String.[] r h = elim (Bool-cases (code c == 0)) [
  | inl z ↦ subst (λ u. path_starts_with u "" ≡ true) (some_injective (whole z)) z
  | inr z ↦ ground arith
]
  where
    whole : code c == 0 ≡ true → some (String.◌∷◌ c s) ≡ some r
    whole z = ground arith
strip_prefix-relative (String.◌∷◌ c s) (String.◌∷◌ d t) r h =
    ground (arith, strip_prefix-relative s t r)

pub join-strip_prefix : (k p r : String) → strip_prefix k p ≡ some r → join p r ≡ k
unfolding strip_prefix
join-strip_prefix String.[] String.[] r h = nil r ∙ ground arith
join-strip_prefix String.[] (String.◌∷◌ d t) r h = ground arith
join-strip_prefix (String.◌∷◌ c s) String.[] r h = nil r ∙ ground arith
join-strip_prefix (String.◌∷◌ c s) (String.◌∷◌ d t) r h =
    cons d t r
    ∙ ap (λ u. String.◌∷◌ d u) (join-strip_prefix s t r (ground arith))
    ∙ same_code d c s (ground arith)

strip_prefix_whole : (r : String) → path_starts_with r "" ≡ true → strip_prefix r "" ≡ some r
unfolding strip_prefix path_starts_with
strip_prefix_whole String.[] h = refl
strip_prefix_whole (String.◌∷◌ c s) h = rw h refl

pub strip_prefix-join :
    (p r : String) → path_starts_with r "" ≡ true → strip_prefix (join p r) p ≡ some r
unfolding strip_prefix path_starts_with
strip_prefix-join String.[] r h = rw (nil r) (strip_prefix_whole r h)
strip_prefix-join (String.◌∷◌ c s) r h = rw (cons c s r) (ground (arith, strip_prefix-join s r))

-- Two beginnings of one path are beginnings of one another.
pub starts_with_comparable :
    (k p q : String)
    → path_starts_with k p ≡ true
    → path_starts_with k q ≡ true
    → path_starts_with p q ≡ false
    → path_starts_with q p ≡ true
unfolding path_starts_with
starts_with_comparable k String.[] String.[] h g n = refl
starts_with_comparable String.[] String.[] (String.◌∷◌ e u) h g n = ground arith
starts_with_comparable (String.◌∷◌ c s) String.[] (String.◌∷◌ e u) h g n = ground arith
starts_with_comparable String.[] (String.◌∷◌ d t) q h g n = ground arith
starts_with_comparable (String.◌∷◌ c s) (String.◌∷◌ d t) String.[] h g n = ground arith
starts_with_comparable (String.◌∷◌ c s) (String.◌∷◌ d t) (String.◌∷◌ e u) h g n =
    ground (arith, starts_with_comparable s t u)
