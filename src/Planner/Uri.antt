-- ===== src/Planner/Uri.antt =====
-- `uri_contains_path_traversal` of src/mutation/planner.rs: a path segment of the URI is `.` or `..`.
use lspctl.Prelude.{
  ℕ, zero, suc, ◌==◌, String, Bool, false, ◌&&◌, ◌||◌, Option, none, some, List, [], ◌∷◌,
  if◌then◌else◌,
}
use lspctl.Text.{Bytes, as_bytes}

-- `uri_contains_path_traversal`, over the bytes of the text: what stands behind "://",
unfoldable pub after_scheme : Bytes → Option Bytes
after_scheme [] = none
after_scheme (b ∷ rest) =
    let later = after_scheme rest in
    elim rest [
      | c ∷ d ∷ path ↦ if b == 58 && c == 47 && d == 47 then some path else later
      | _ ↦ later
    ]

-- up to a `?` or `#`,
unfoldable pub until_query : Bytes → Bytes
until_query [] = []
until_query (b ∷ rest) = if b == 63 || b == 35 then [] else b ∷ until_query rest

-- split at each `/`,
unfoldable pub segments : Bytes → List Bytes
segments [] = [] ∷ []
segments (b ∷ rest) = elim (segments rest) [
  | [] ↦ []
  | segment ∷ others ↦ if b == 47 then [] ∷ segment ∷ others else (b ∷ segment) ∷ others
]

abbrev encoded_dot : Bytes → Bool
encoded_dot (b ∷ c ∷ d ∷ rest) = b == 37 && c == 50 && (d == 101 || d == 69)
encoded_dot _ = false

-- with each `%2e` and `%2E` read as a dot; the number is of bytes that have been read already
unfoldable pub decode_dots : ℕ → Bytes → Bytes
decode_dots n [] = []
decode_dots (suc n) (b ∷ rest) = decode_dots n rest
decode_dots zero (b ∷ rest) =
    let dot = encoded_dot (b ∷ rest) in
    (if dot then 46 else b) ∷ decode_dots (if dot then 2 else 0) rest

abbrev is_dots : Bytes → Bool
is_dots (b ∷ []) = b == 46
is_dots (b ∷ c ∷ []) = b == 46 && c == 46
is_dots _ = false

unfoldable pub any_dots : List Bytes → Bool
unfolding decode_dots
any_dots [] = false
any_dots (segment ∷ rest) = is_dots (decode_dots 0 segment) || any_dots rest

unfoldable pub uri_contains_path_traversal : String → Bool
unfolding after_scheme until_query segments any_dots as_bytes
uri_contains_path_traversal raw =
    let bytes = as_bytes raw in
    any_dots
      (segments (until_query (elim (after_scheme bytes) [ none ↦ bytes | some path ↦ path ])))
