-- ===== src/Position/Lines.antt =====
-- A text as its lines: the induction that the two ways of finding a line share.
use lspctl.Prelude.{
  ℕ, zero, suc, ◌≤◌, ◌≡◌, refl, ap, sym, ◌∙◌, true, false, none, some, [], ◌∷◌, ◌++◌, arith, ◌==◌,
  All, ◌⊎◌, inl, inr, Bool-cases, Option-cases,
}
use lspctl.Text.{Bytes, lead_byte, utf8_from, is_utf8, starts_char}
use lspctl.Position.{newline, split_inclusive, strip_suffix}

abbrev pub NoNewline : Bytes → Type 0
NoNewline c = All (λ b. (b == newline) ≡ false) c

pub data Lines : Bytes → Type 0 where
  empty : {text : Bytes} → text ≡ [] → Lines text
  last : {text : Bytes} (b : ℕ) (c : Bytes) → NoNewline (b ∷ c) → text ≡ b ∷ c → Lines text
  line : {text : Bytes} (c r : Bytes) → NoNewline c → text ≡ c ++ newline ∷ r → Lines r → Lines text

extend_line : (b : ℕ) {rest : Bytes} → (b == newline) ≡ false → Lines rest → Lines (b ∷ rest)
extend_line b other (empty e) = last b [] (other, tt) (ap (λ t. b ∷ t) e)
extend_line b other (last b' c h e) = last b (b' ∷ c) (other, h) (ap (λ t. b ∷ t) e)
extend_line b other (line c r h e ls) = line (b ∷ c) r (other, h) (ap (λ t. b ∷ t) e) ls

extend : (b : ℕ) (rest : Bytes) → Lines rest → Lines (b ∷ rest)
extend b rest ls = elim (Bool-cases (b == newline)) [
  | inl here ↦ line [] rest tt (ground arith) ls
  | inr other ↦ extend_line b other ls
]

pub lines : (text : Bytes) → Lines text
lines [] = empty refl
lines (b ∷ rest) = extend b rest (lines rest)

-- How the lines split.
pub split-last : (b : ℕ) (c : Bytes) → NoNewline (b ∷ c) → split_inclusive (b ∷ c) ≡ (b ∷ c) ∷ []
unfolding split_inclusive
split-last b [] h = ground arith
split-last b (b' ∷ c) h = ground (arith, split-last b' c)

pub split-line :
    (c r : Bytes)
    → NoNewline c
    → split_inclusive (c ++ newline ∷ r) ≡ (c ++ newline ∷ []) ∷ split_inclusive r
unfolding split_inclusive
split-line [] r h = ground arith
split-line (b ∷ c) r h = ground (arith, split-line c r)

pub strip-last : (c : Bytes) → NoNewline c → strip_suffix newline c ≡ c
unfolding strip_suffix
strip-last [] h = refl
strip-last (b ∷ []) h = ground arith
strip-last (b ∷ b' ∷ c) h = ground (arith, strip-last (b' ∷ c))

pub strip-line : (c : Bytes) → strip_suffix newline (c ++ newline ∷ []) ≡ c
unfolding strip_suffix
strip-line [] = ground arith
strip-line (b ∷ []) = ground arith
strip-line (b ∷ b' ∷ c) = ground (arith, strip-line (b' ∷ c))

-- What a first byte leads to: nothing, or bytes above the ASCII range.
lead_byte-above : (b n lo hi : ℕ) → lead_byte b ≡ some (n, lo, hi) → (n ≡ 0) ⊎ (0x80 ≤ lo)
unfolding lead_byte
lead_byte-above b n lo hi h = ground arith

utf8_from-lead :
    (lo hi b n lo' hi' : ℕ) (rest : Bytes)
    → lead_byte b ≡ some (n, lo', hi')
    → utf8_from 0 lo hi (b ∷ rest) ≡ utf8_from n lo' hi' rest
unfolding utf8_from
utf8_from-lead lo hi b n lo' hi' rest e = ground arith

utf8_from-bad :
    (lo hi b : ℕ) (rest : Bytes) → lead_byte b ≡ none → utf8_from 0 lo hi (b ∷ rest) ≡ false
unfolding utf8_from
utf8_from-bad lo hi b rest e = ground arith

-- Behind a newline of a valid text stands a valid text.
utf8_from-line :
    (n lo hi : ℕ) (c r : Bytes)
    → (n ≡ 0) ⊎ (0x80 ≤ lo)
    → utf8_from n lo hi (c ++ newline ∷ r) ≡ true
    → is_utf8 r ≡ true
unfolding utf8_from
utf8_from-line zero lo hi [] r h u = unfold is_utf8 in u
utf8_from-line (suc n) lo hi [] r h u = ground arith
utf8_from-line zero lo hi (b ∷ c) r h u = elim (Option-cases (lead_byte b)) [
  | inl e ↦ cc (utf8_from-bad lo hi b (c ++ newline ∷ r) e, u)
  | inr ((n, lo', hi'), e) ↦
      utf8_from-line n lo' hi' c r (lead_byte-above b n lo' hi' e)
        (sym (utf8_from-lead lo hi b n lo' hi' (c ++ newline ∷ r) e) ∙ u)
]
utf8_from-line (suc n) lo hi (b ∷ c) r h u =
    utf8_from-line n 0x80 0xBF c r (inr (omega arith)) (ground arith)

pub utf8-line : (c r : Bytes) → is_utf8 (c ++ newline ∷ r) ≡ true → is_utf8 r ≡ true
unfolding is_utf8
utf8-line c r = utf8_from-line 0 0 0 c r (inl refl)

-- A valid text begins with a first byte.
pub utf8-head : (b : ℕ) (c : Bytes) → is_utf8 (b ∷ c) ≡ true → starts_char b ≡ true
unfolding is_utf8 starts_char utf8_from lead_byte
utf8-head b c h = ground arith
