-- ===== src/Planner/Paths.antt =====
-- `std::path::Path` of src/mutation/planner.rs on Unix. A path is a text in which each component
-- stands behind a NUL, which no component has, so the order of texts is that of component lists; the
-- root is the empty text, and a relative path is written the same way.
pub mod Order
pub mod Prefix
pub mod Places
use Prim.Native.String.{◌++◌ as str_append}
use Prim.Native.Char.{code}
use lspctl.Prelude.{
  String, Bool, true, false, ◌&&◌, ◌||◌, Option, none, some, List, [], ◌∷◌, ◌==◌, if◌then◌else◌,
  map, drop, ◌++◌,
}

-- `path.starts_with(base)`: whole components
unfoldable pub path_starts_with : String → String → Bool
path_starts_with String.[] String.[] = true
path_starts_with String.[] (String.◌∷◌ d t) = false
path_starts_with (String.◌∷◌ c s) String.[] = code c == 0
path_starts_with (String.◌∷◌ c s) (String.◌∷◌ d t) = code c == code d && path_starts_with s t

-- `path.strip_prefix(base)`
unfoldable pub strip_prefix : String → String → Option String
strip_prefix String.[] String.[] = some ""
strip_prefix String.[] (String.◌∷◌ d t) = none
strip_prefix (String.◌∷◌ c s) String.[] = if code c == 0 then some (String.◌∷◌ c s) else none
strip_prefix (String.◌∷◌ c s) (String.◌∷◌ d t) = if code c == code d then strip_prefix s t else none

-- `base.join(relative)`
abbrev pub join : String → String → String
join base relative = str_append base relative

-- `directory.join(name)` of one component
abbrev pub join_name : String → String → String
join_name directory name = str_append directory (str_append "\0" name)

-- `path.parent()`
unfoldable pub parent : String → Option String
parent String.[] = none
parent (String.◌∷◌ c s) = elim (parent s) [
  | some q ↦ some (String.◌∷◌ c q)
  | none ↦ if code c == 0 then some "" else none
]

-- `path.file_name()`
unfoldable pub file_name : String → Option String
file_name String.[] = none
file_name (String.◌∷◌ c s) = elim (file_name s) [
  | some name ↦ some name
  | none ↦ if code c == 0 then some s else none
]

-- `path.ancestors().skip(1)`: the nearest first
unfoldable pub ancestors : String → List String
ancestors String.[] = []
ancestors (String.◌∷◌ c s) =
    map (λ q. String.◌∷◌ c q) (ancestors s) ++ (if code c == 0 then "" ∷ [] else [])

-- the beginnings of a path that are whole components, the empty one first
unfoldable pub beginnings : String → List String
beginnings String.[] = "" ∷ []
beginnings (String.◌∷◌ c s) =
    let rest = map (λ q. String.◌∷◌ c q) (beginnings s) in if code c == 0 then "" ∷ rest else rest

-- what pushing the components of a relative path one after the other leads through
unfoldable pub descend : String → List String
unfolding beginnings
descend relative = drop 1 (beginnings relative)

-- a component `..`
unfoldable pub has_parent_dir : String → Bool
unfolding path_starts_with
has_parent_dir String.[] = false
has_parent_dir (String.◌∷◌ c s) = path_starts_with (String.◌∷◌ c s) "\0.." || has_parent_dir s

-- `lexically_beneath`: a path that has been parsed is absolute, and on Unix only its beginning is a root
unfoldable pub lexically_beneath : String → String → Bool
unfolding strip_prefix has_parent_dir
lexically_beneath root path = elim (strip_prefix path root) [
  | none ↦ false
  | some relative ↦ if has_parent_dir relative then false else true
]
