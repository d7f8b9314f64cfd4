-- ===== src/Text.antt =====
-- Rust's `str`: its bytes, which are valid UTF-8, and what the standard library computes from them.
use Prim.Native.Char.{code}
use lspctl.Prelude.{
  ℕ, zero, suc, ◌+◌, ◌/◌, ◌%◌, String, Bool, true, false, ◌&&◌, ◌||◌, Option, none, some, List, [],
  ◌∷◌, ◌++◌, ltb, leb, ◌==◌, if◌then◌else◌,
}

abbrev pub Bytes : Type 0
Bytes = List ℕ

-- What may follow a first byte: how many bytes, and the range of the next of them.
unfoldable pub lead_byte : ℕ → Option (ℕ × ℕ × ℕ)
lead_byte b =
    if ltb b 0x80
    then some (0, 0, 0)
    else if leb 0xC2 b && leb b 0xDF
    then some (1, 0x80, 0xBF)
    else if b == 0xE0
    then some (2, 0xA0, 0xBF)
    else if b == 0xED
    then some (2, 0x80, 0x9F)
    else if leb 0xE1 b && leb b 0xEF
    then some (2, 0x80, 0xBF)
    else if b == 0xF0
    then some (3, 0x90, 0xBF)
    else if leb 0xF1 b && leb b 0xF3
    then some (3, 0x80, 0xBF)
    else if b == 0xF4
    then some (3, 0x80, 0x8F)
    else none

-- `str::from_utf8(bytes).is_ok()`, from a place where `n` more bytes of a character are due
unfoldable pub utf8_from : ℕ → ℕ → ℕ → Bytes → Bool
utf8_from zero lo hi [] = true
utf8_from (suc n) lo hi [] = false
utf8_from zero lo hi (b ∷ rest) = elim (lead_byte b) [
  | none ↦ false
  | some (n, lo', hi') ↦ utf8_from n lo' hi' rest
]
utf8_from (suc n) lo hi (b ∷ rest) = leb lo b && leb b hi && utf8_from n 0x80 0xBF rest

unfoldable pub is_utf8 : Bytes → Bool
unfolding utf8_from lead_byte
is_utf8 = utf8_from 0 0 0

-- A byte that begins a character.
unfoldable pub starts_char : ℕ → Bool
starts_char b = ltb b 0x80 || leb 0xC0 b

-- `char::len_utf16` of the character with this first byte
unfoldable pub len_utf16 : ℕ → ℕ
len_utf16 b = if leb 0xF0 b then 2 else 1

-- A character, or the end, stands at the front.
unfoldable pub opens : Bytes → Bool
opens [] = true
opens (b ∷ s) = starts_char b

-- A character begins at the index, or the text ends there.
unfoldable pub boundary_in : Bytes → ℕ → Bool
boundary_in s zero = opens s
boundary_in [] (suc i) = false
boundary_in (b ∷ s) (suc i) = boundary_in s i

-- `str::is_char_boundary`
unfoldable pub is_char_boundary : Bytes → ℕ → Bool
unfolding boundary_in opens starts_char
is_char_boundary s zero = true
is_char_boundary s (suc i) = boundary_in s (suc i)

-- the bytes of a native text
encode_char : ℕ → Bytes
encode_char c =
    if ltb c 0x80
    then c ∷ []
    else if ltb c 0x800
    then (0xC0 + c / 64) ∷ (0x80 + c % 64) ∷ []
    else if ltb c 0x10000
    then (0xE0 + c / 4096) ∷ (0x80 + c / 64 % 64) ∷ (0x80 + c % 64) ∷ []
    else (0xF0 + c / 262144) ∷ (0x80 + c / 4096 % 64) ∷ (0x80 + c / 64 % 64) ∷ (0x80 + c % 64) ∷ []

unfoldable pub as_bytes : String → Bytes
unfolding encode_char
as_bytes String.[] = []
as_bytes (String.◌∷◌ c s) = encode_char (code c) ++ as_bytes s
