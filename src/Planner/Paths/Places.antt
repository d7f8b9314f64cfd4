-- ===== src/Planner/Paths/Places.antt =====
-- The places that a walk down a path of src/mutation/planner.rs leads through, and components `..`.
use Prim.Native.String.{◌++◌ as str_append}
use Prim.Native.String.append.{nil, cons}
use Prim.Native.Char.{code}
use mathlib.Core.Path.{subst}
use lspctl.Prelude.{
  String, ◌≡◌, refl, sym, ap, Bool, true, false, List, [], ◌∷◌, map, drop, arith, ◌==◌,
  if◌then◌else◌,
}
use lspctl.Planner.Paths.{path_starts_with, beginnings, descend, has_parent_dir}
use lspctl.Planner.Paths.Prefix.{same_code, starts_with-strip_prefix, strip_prefix-join}

-- `Q` holds along a list, up to a place for which `E` does not hold, that place included.
abbrev pub Walk {ℓ} : (String → Type ℓ) → (String → Type ℓ) → List String → Type ℓ
Walk Q E [] = Unit
Walk Q E (place ∷ rest) = Q place × (E place → Walk Q E rest)

Walk-map {ℓ} :
    (Q E : String → Type ℓ) (f : String → String) (places : List String)
    → Walk Q E (map f places)
    → Walk (λ s. Q (f s)) (λ s. E (f s)) places
Walk-map Q E f [] h = tt
Walk-map Q E f (place ∷ rest) h = (h.0, λ e. Walk-map Q E f rest (h.1 e))

abbrev IsCons : String → Type 0
IsCons String.[] = ⊥
IsCons (String.◌∷◌ c s) = Unit

abbrev behind_first : String → String
behind_first String.[] = ""
behind_first (String.◌∷◌ c s) = s

-- The walk from the second beginning on: past the empty one, if that is a beginning.
later-Walk {ℓ} :
    (Q E : String → Type ℓ) (b : Bool) (rest : List String)
    → Walk Q E (if b then "" ∷ rest else rest)
    → (b ≡ true → E "")
    → Walk Q E rest
later-Walk Q E true rest walk root = walk.1 (root refl)
later-Walk Q E false rest walk root = walk

-- Each beginning of a path is met by the walk over its beginnings, if it does not end above it.
beginnings-Walk {ℓ} :
    (Q E : String → Type ℓ) (s place : String)
    → Walk Q E (beginnings s)
    → path_starts_with s place ≡ true
    → ((upper : String) → path_starts_with place upper ≡ true → ¬ (upper ≡ place) → E upper)
    → Q place
unfolding beginnings path_starts_with
beginnings-Walk Q E String.[] String.[] walk h above = walk.0
beginnings-Walk Q E String.[] (String.◌∷◌ d t) walk h above = absurd (ground arith)
beginnings-Walk Q E (String.◌∷◌ c s) String.[] walk h above = first (code c == 0) walk h
  where
    first :
        (b : Bool)
        → Walk Q E (
            if b
            then "" ∷ map (λ q. String.◌∷◌ c q) (beginnings s)
            else map (λ q. String.◌∷◌ c q) (beginnings s))
        → b ≡ true
        → Q ""
    first true walk h = walk.0
    first false walk h = absurd (ground arith)
beginnings-Walk Q E (String.◌∷◌ c s) (String.◌∷◌ d t) walk h above =
    subst Q (same_code c d t (ground arith)) (
      beginnings-Walk (λ u. Q (String.◌∷◌ c u)) (λ u. E (String.◌∷◌ c u)) s t
        (Walk-map Q E (λ q. String.◌∷◌ c q) (beginnings s)
          (later-Walk Q E (code c == 0) (map (λ q. String.◌∷◌ c q) (beginnings s)) walk
            (λ z. above "" (ground arith) (λ e. subst IsCons (sym e) tt))))
        (ground arith)
        (λ u below other.
          subst E (same_code d c u (ground arith))
            (above (String.◌∷◌ d u) (ground arith) (λ e. other (ap behind_first e)))))

-- The same of the places beneath a root, for a relative path.
pub descend-Walk {ℓ} :
    (Q E : String → Type ℓ) (relative place : String)
    → path_starts_with relative "" ≡ true
    → Walk Q E (descend relative)
    → path_starts_with relative place ≡ true
    → ¬ (place ≡ "")
    → ((upper : String)
        → path_starts_with place upper ≡ true
        → ¬ (upper ≡ "")
        → ¬ (upper ≡ place)
        → E upper)
    → Q place
unfolding beginnings descend path_starts_with
descend-Walk Q E relative String.[] r walk h some_place above = absurd (some_place refl)
descend-Walk Q E String.[] (String.◌∷◌ d t) r walk h some_place above = absurd (ground arith)
descend-Walk Q E (String.◌∷◌ c s) (String.◌∷◌ d t) r walk h some_place above =
    subst Q (same_code c d t (ground arith)) (
      beginnings-Walk (λ u. Q (String.◌∷◌ c u)) (λ u. E (String.◌∷◌ c u)) s t
        (Walk-map Q E (λ q. String.◌∷◌ c q) (beginnings s) (behind_root (code c == 0) r walk))
        (ground arith)
        (λ u below other. subst E (same_code d c u (ground arith)) (
          above (String.◌∷◌ d u) (ground arith) (λ e. subst IsCons e tt)
            (λ e. other (ap behind_first e)))))
  where
    behind_root :
        (b : Bool)
        → b ≡ true
        → Walk Q E (
            drop 1 (
              if b
              then "" ∷ map (λ q. String.◌∷◌ c q) (beginnings s)
              else map (λ q. String.◌∷◌ c q) (beginnings s)))
        → Walk Q E (map (λ q. String.◌∷◌ c q) (beginnings s))
    behind_root true h walk = walk
    behind_root false h walk = absurd (ground arith)

has_parent_dir_here : (s : String) → path_starts_with s "\0.." ≡ true → has_parent_dir s ≡ true
unfolding has_parent_dir path_starts_with
has_parent_dir_here String.[] h = absurd (ground arith)
has_parent_dir_here (String.◌∷◌ c s) h = ground arith

has_parent_dir-append :
    (front s : String) → has_parent_dir s ≡ true → has_parent_dir (str_append front s) ≡ true
unfolding has_parent_dir
has_parent_dir-append String.[] s h = rw (nil s) h
has_parent_dir-append (String.◌∷◌ c front) s h =
    rw (cons c front s) (ground (arith, has_parent_dir-append front s h))

-- A path in which no component is found to be `..` is not made of one between two others.
pub has_parent_dir-append_false :
    (relative front behind : String)
    → has_parent_dir relative ≡ false
    → path_starts_with behind "" ≡ true
    → ¬ (relative ≡ str_append front (str_append "\0.." behind))
has_parent_dir-append_false relative front behind none_there component e = ground (
  arith,
  ap has_parent_dir e,
  has_parent_dir-append front (str_append "\0.." behind),
  has_parent_dir_here (str_append "\0.." behind),
  starts_with-strip_prefix (str_append "\0.." behind) "\0..",
  strip_prefix-join "\0.." behind,
)
