-- ===== src/Rpc/Header.antt =====
-- `parse_content_length` and `validate_content_type`, on the bytes of an ASCII header.
use lspctl.Prelude.{
  ℕ, ◌+◌, ◌-◌, ◌*◌, Bool, true, false, not, ◌&&◌, ◌||◌, Option, none, some, List, [], ◌∷◌, ◌++◌,
  Result, ok, err, ◌>>=◌, ok_or, if◌then◌else◌, ◌==◌, ltb, leb, length, take, u64_max,
}
use lspctl.Text.{Bytes, as_bytes}
use lspctl.Rpc.{
  JsonRpcTransportError, non_ascii_header, malformed_header_line, missing_content_length,
  duplicate_content_length, invalid_content_length, unsupported_content_type,
  duplicate_content_type,
}

-- `is_ascii`
unfoldable pub is_ascii : Bytes → Bool
is_ascii [] = true
is_ascii (b ∷ s) = ltb b 128 && is_ascii s

-- `split("\r\n")`, with what stands before in the current line
unfoldable pub split_lines : Bytes → Bytes → List Bytes
split_lines line [] = line ∷ []
split_lines line (b ∷ []) = (line ++ b ∷ []) ∷ []
split_lines line (b ∷ c ∷ s) = elim (b == 13 && c == 10) [
  | true ↦ line ∷ split_lines [] s
  | false ↦ split_lines (line ++ b ∷ []) (c ∷ s)
]

-- `split(c)`
unfoldable pub split_at : ℕ → Bytes → Bytes → List Bytes
split_at c part [] = part ∷ []
split_at c part (b ∷ s) = elim (b == c) [
  | true ↦ part ∷ split_at c [] s
  | false ↦ split_at c (part ++ b ∷ []) s
]

-- `split_once(c)`, with what stands before
unfoldable pub split_once : ℕ → Bytes → Bytes → Option (Bytes × Bytes)
split_once c part [] = none
split_once c part (b ∷ s) = elim (b == c) [
  | true ↦ some (part, s)
  | false ↦ split_once c (part ++ b ∷ []) s
]

abbrev is_space : ℕ → Bool
is_space b = b == 32 || leb 9 b && leb b 13

unfoldable pub trim_start : Bytes → Bytes
trim_start [] = []
trim_start (b ∷ s) = let rest = trim_start s in if is_space b then rest else b ∷ s

abbrev space_before : ℕ → Bytes → Bytes
space_before b [] = if is_space b then [] else b ∷ []
space_before b (c ∷ s) = b ∷ c ∷ s

unfoldable pub trim_end : Bytes → Bytes
trim_end [] = []
trim_end (b ∷ s) = space_before b (trim_end s)

-- `trim`, of ASCII
abbrev pub trim : Bytes → Bytes
unfolding trim_start trim_end
trim s = trim_end (trim_start s)

abbrev lower : ℕ → ℕ
lower b = if leb 65 b && leb b 90 then b + 32 else b

-- `eq_ignore_ascii_case`
unfoldable pub eq_ignore_ascii_case : Bytes → Bytes → Bool
eq_ignore_ascii_case [] [] = true
eq_ignore_ascii_case (a ∷ s) (b ∷ t) = lower a == lower b && eq_ignore_ascii_case s t
eq_ignore_ascii_case _ _ = false

abbrev is_digit : ℕ → Bool
is_digit b = leb 48 b && leb b 57

unfoldable pub all_digits : Bytes → Bool
all_digits [] = true
all_digits (b ∷ s) = is_digit b && all_digits s

unfoldable pub decimal : ℕ → Bytes → ℕ
decimal n [] = n
decimal n (b ∷ s) = decimal (n * 10 + (b - 48)) s

abbrev is_empty : Bytes → Bool
is_empty [] = true
is_empty (b ∷ s) = false

-- the digits of `Content-Length`, and `parse::<usize>()`
unfoldable pub length_value : Bytes → Result JsonRpcTransportError ℕ
unfolding all_digits decimal
length_value value =
    if is_empty value || not (all_digits value) || ltb u64_max (decimal 0 value)
    then err invalid_content_length
    else ok (decimal 0 value)

-- a quoted value without its quotes
abbrev strip_last_quote : Bytes → Option Bytes
strip_last_quote s = elim (trim_quote s) [ none ↦ none | some r ↦ some r ]
  where
    trim_quote : Bytes → Option Bytes
    trim_quote [] = none
    trim_quote (b ∷ []) = if b == 34 then some [] else none
    trim_quote (b ∷ c ∷ s) = elim (trim_quote (c ∷ s)) [ none ↦ none | some r ↦ some (b ∷ r) ]

abbrev unquoted : Bytes → Bytes
unquoted [] = []
unquoted (b ∷ s) =
    if b == 34 then elim (strip_last_quote s) [ none ↦ b ∷ s | some r ↦ r ] else b ∷ s

abbrev is_utf8_name : Bytes → Bool
unfolding eq_ignore_ascii_case as_bytes
is_utf8_name value =
    eq_ignore_ascii_case value (as_bytes "utf-8") || eq_ignore_ascii_case value (as_bytes "utf8")

-- the loop over the parameters
unfoldable pub check_parameters : Bool → List Bytes → Result JsonRpcTransportError (Unit {0})
unfolding is_utf8_name split_once
check_parameters charset_seen [] = ok tt
check_parameters charset_seen (parameter ∷ parameters) = elim (split_once 61 [] parameter) [
  | none ↦ err unsupported_content_type
  | some (name, value) ↦ elim (eq_ignore_ascii_case (trim name) (as_bytes "charset")) [
    | false ↦ check_parameters charset_seen parameters
    | true ↦
        if charset_seen || not (is_utf8_name (unquoted (trim value)))
        then err unsupported_content_type
        else check_parameters true parameters
  ]
]

abbrev check_media_type : List Bytes → Result JsonRpcTransportError (Unit {0})
unfolding check_parameters
check_media_type [] = err unsupported_content_type
check_media_type (media_type ∷ parameters) =
    if eq_ignore_ascii_case (trim media_type) (as_bytes "application/vscode-jsonrpc")
    then check_parameters false parameters
    else err unsupported_content_type

unfoldable pub validate_content_type : Bytes → Result JsonRpcTransportError (Unit {0})
unfolding check_media_type split_at
validate_content_type content_type = check_media_type (split_at 59 [] content_type)

-- the loop over the lines
unfoldable pub read_lines : Option ℕ → Bool → List Bytes → Result JsonRpcTransportError (Option ℕ)
unfolding length_value validate_content_type
read_lines content_length content_type_seen [] = ok content_length
read_lines content_length content_type_seen (line ∷ lines) = elim (split_once 58 [] line) [
  | none ↦ err malformed_header_line
  | some (name, value) ↦ elim (is_empty (trim name)) [
    | true ↦ err malformed_header_line
    | false ↦ elim (eq_ignore_ascii_case (trim name) (as_bytes "content-length")) [
      | true ↦ elim content_length [
        | some n ↦ err duplicate_content_length
        | none ↦ elim (length_value (trim value)) [
          | err e ↦ err e
          | ok n ↦ read_lines (some n) content_type_seen lines
        ]
      ]
      | false ↦ elim (eq_ignore_ascii_case (trim name) (as_bytes "content-type")) [
        | false ↦ read_lines content_length content_type_seen lines
        | true ↦ elim content_type_seen [
          | true ↦ err duplicate_content_type
          | false ↦ elim (validate_content_type (trim value)) [
            | err e ↦ err e
            | ok _ ↦ read_lines content_length true lines
          ]
        ]
      ]
    ]
  ]
]

unfoldable pub parse_content_length : Bytes → Result JsonRpcTransportError ℕ
unfolding is_ascii split_lines read_lines
parse_content_length header = if not (is_ascii header) then err non_ascii_header else do
  content_length ← read_lines none false (split_lines [] (take (length header - 4) header))
  ok_or content_length missing_content_length
