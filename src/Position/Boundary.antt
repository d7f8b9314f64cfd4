-- ===== src/Position/Boundary.antt =====
-- The offset that `position_to_offset` finds in a valid text is a character boundary of it.
use lspctl.Prelude.{
  ℕ, zero, suc, ◌+◌, ◌≤◌, ◌≡◌, refl, ap, ◌∙◌, ◌⊎◌, inl, inr, true, some, List, [], ◌∷◌, ◌++◌, arith,
  ◌==◌, length, length-append, Bool-cases, Option-cases,
}
use mathlib.Core.List.{append-nil, append_assoc}
use lspctl.Text.{Bytes, is_utf8, starts_char, len_utf16, opens, boundary_in, is_char_boundary}
use lspctl.Position.{
  PositionEncoding, utf8, utf16, ProtocolPosition, newline, carriage_return, char_indices,
  utf16_scan, offset_in_line, strip_suffix, segment_scan, split_inclusive, position_to_offset,
}
use lspctl.Position.Lines.{
  NoNewline, Lines, empty, last, line, lines, split-last, split-line, strip-last, strip-line,
  utf8-line, utf8-head,
}

boundary_in-append :
    (pre s : Bytes) (i j : ℕ) → j ≡ length pre + i → boundary_in (pre ++ s) j ≡ boundary_in s i
unfolding boundary_in
boundary_in-append [] s i j e = ap (boundary_in s) (e ∙ omega arith)
boundary_in-append (b ∷ pre) s i zero e = absurd (omega arith)
boundary_in-append (b ∷ pre) s i (suc j) e = boundary_in-append pre s i j (omega arith)

boundary_in-extend :
    (l tail : Bytes) (i : ℕ)
    → boundary_in l i ≡ true
    → opens tail ≡ true
    → (boundary_in (l ++ tail) i ≡ true) × (i ≤ length l)
unfolding boundary_in opens
boundary_in-extend [] tail zero h t = ground arith
boundary_in-extend [] tail (suc i) h t = cc
boundary_in-extend (b ∷ l) tail zero h t = ground arith
boundary_in-extend (b ∷ l) tail (suc i) h t = ground (arith, boundary_in-extend l tail i)

-- `strip_suffix` takes off nothing or that byte.
strip_suffix-append :
    (c : ℕ) (s : Bytes)
    → (tail : Bytes) × (s ≡ strip_suffix c s ++ tail) × ((tail ≡ []) ⊎ (tail ≡ c ∷ []))
unfolding strip_suffix
strip_suffix-append c [] = ([], refl, inl refl)
strip_suffix-append c (b ∷ []) = elim (Bool-cases (b == c)) [
  | inl same ↦ (c ∷ [], ground arith, inr refl)
  | inr other ↦ ([], ground arith, inl refl)
]
strip_suffix-append c (b ∷ b' ∷ s) =
    let (tail, e, which) = strip_suffix-append c (b' ∷ s) in (tail, ap (λ t. b ∷ t) e, which)

utf16_scan-boundary :
    (k wanted units : ℕ) (l : Bytes) (len o : ℕ)
    → len ≡ k + length l
    → utf16_scan len wanted units (char_indices k l) ≡ some o
    → (i : ℕ) × (o ≡ k + i) × (boundary_in l i ≡ true)
unfolding utf16_scan char_indices boundary_in opens
utf16_scan-boundary k wanted units [] len o e h = (0, ground arith, refl)
utf16_scan-boundary k wanted units (b ∷ l) len o e h = elim (Bool-cases (starts_char b)) [
  | inr within ↦
      let (i, at, p) =
        utf16_scan-boundary (k + 1) wanted units l len o (omega arith) (ground arith) in
      (suc i, omega arith, p)
  | inl starts ↦ elim (Bool-cases (units == wanted)) [
    | inl here ↦ (0, ground arith, starts)
    | inr before ↦
        let (i, at, p) =
          utf16_scan-boundary (k + 1) wanted (units + len_utf16 b) l len o (omega arith)
            (ground arith) in
        (suc i, omega arith, p)
  ]
]

-- In a line, with whatever follows it: a newline, or the end.
offset_in_line-boundary :
    (l tail : Bytes) (wanted : ℕ) (encoding : PositionEncoding) (o : ℕ)
    → opens (l ++ tail) ≡ true
    → opens tail ≡ true
    → offset_in_line l wanted encoding ≡ some o
    → (boundary_in (l ++ tail) o ≡ true) × (o ≤ length l)
unfolding offset_in_line boundary_in
offset_in_line-boundary l tail zero utf8 o start t h = ground arith
offset_in_line-boundary l tail (suc w) utf8 o start t h =
    ground (arith, boundary_in-extend l tail (suc w))
offset_in_line-boundary l tail wanted utf16 o start t h =
    let (i, at, p) = utf16_scan-boundary 0 wanted 0 l (length l) o (omega arith) h in
    let same : o ≡ i = omega arith in rw same (boundary_in-extend l tail i p t)

-- What `segment_scan` finds, from a line on: an offset into the rest of the text, a boundary there.
abbrev IsFound : Bytes → ℕ → ℕ → Type 0
IsFound text offset o = (i : ℕ) × (o ≡ offset + i) × (boundary_in text i ≡ true) × (i ≤ length text)

opens_tail :
    (tail rest : Bytes)
    → (tail ≡ []) ⊎ (tail ≡ carriage_return ∷ [])
    → opens rest ≡ true
    → opens (tail ++ rest) ≡ true
unfolding opens starts_char
opens_tail tail rest (inl none_) follows = rw none_ follows
opens_tail tail rest (inr one) follows = rw one refl

-- a line, its end taken off, with what follows it
stripped-IsFound :
    (c rest : Bytes) (wanted : ℕ) (encoding : PositionEncoding) (offset o i : ℕ)
    → opens (c ++ rest) ≡ true
    → opens rest ≡ true
    → offset_in_line (strip_suffix carriage_return c) wanted encoding ≡ some i
    → o ≡ offset + i
    → IsFound (c ++ rest) offset o
stripped-IsFound c rest wanted encoding offset o i start follows h e =
    let (tail, split, which) = strip_suffix-append carriage_return c in
    let whole : c ++ rest ≡ strip_suffix carriage_return c ++ (tail ++ rest) =
      ap (λ t. t ++ rest) split ∙ append_assoc (strip_suffix carriage_return c) tail rest in
    let found =
      offset_in_line-boundary (strip_suffix carriage_return c) (tail ++ rest) wanted encoding i
        (rw whole at start) (opens_tail tail rest which follows) h in
    (
      i,
      e,
      rw whole found.0,
      omega (
        arith,
        found.1,
        ap length split,
        length-append (strip_suffix carriage_return c) tail,
        length-append c rest,
      ),
    )

utf8-opens : (text : Bytes) → is_utf8 text ≡ true → opens text ≡ true
unfolding opens
utf8-opens [] h = refl
utf8-opens (b ∷ text) h = utf8-head b text h

-- One round of the loop: it finds an offset in its segment, or goes on.
segment_scan-cons :
    (wanted character : ℕ) (encoding : PositionEncoding) (number offset o : ℕ) (segment : Bytes)
    (segments : List Bytes)
    → segment_scan wanted character encoding number offset (segment ∷ segments) ≡ some (some o)
    → ((i : ℕ) × (offset_in_line
            (strip_suffix carriage_return (strip_suffix newline segment))
            character
            encoding
          ≡ some i)
        × (o ≡ offset + i))
      ⊎ (segment_scan wanted character encoding (number + 1) (offset + length segment) segments
          ≡ some (some o))
unfolding segment_scan
segment_scan-cons wanted character encoding number offset o segment segments h =
    elim (Bool-cases (number == wanted)) [
      | inr other ↦ inr (ground arith)
      | inl here ↦
          elim (Option-cases (
            offset_in_line (strip_suffix carriage_return (strip_suffix newline segment)) character
              encoding)) [
                | inl nothing ↦ inr (ground arith)
                | inr (i, found) ↦ inl (i, found, ground arith)
              ]
    ]

module _ (wanted character : ℕ) (encoding : PositionEncoding) (number offset o : ℕ) where
  last-IsFound :
      (c : Bytes)
      → NoNewline c
      → is_utf8 c ≡ true
      → segment_scan wanted character encoding number offset (c ∷ []) ≡ some (some o)
      → IsFound c offset o
  last-IsFound c n u h = elim (segment_scan-cons wanted character encoding number offset o c [] h) [
    | inl (i, found, at) ↦ rw (append-nil c) at (
        stripped-IsFound c [] character encoding offset o i (rw append-nil (utf8-opens c u))
          (unfold opens in refl) (rw (strip-last c n) at found) at)
    | inr more ↦ unfold segment_scan in cc
  ]

  line-IsFound :
      (c r : Bytes)
      → is_utf8 (c ++ newline ∷ r) ≡ true
      → segment_scan wanted character encoding number offset
          ((c ++ newline ∷ []) ∷ split_inclusive r)
        ≡ some (some o)
      → (segment_scan wanted character encoding
              (number + 1)
              (offset + length (c ++ newline ∷ []))
              (split_inclusive r)
            ≡ some (some o)
          → IsFound r (offset + length (c ++ newline ∷ [])) o)
      → IsFound (c ++ newline ∷ r) offset o
  line-IsFound c r u h later =
      elim (segment_scan-cons wanted character encoding number offset o (c ++ newline ∷ [])
        (split_inclusive r) h) [
          | inl (i, found, at) ↦
              stripped-IsFound c (newline ∷ r) character encoding offset o i
                (utf8-opens (c ++ newline ∷ r) u) (unfold opens starts_char in refl)
                (rw strip-line at found) at
          | inr more ↦
              let (i, at, boundary, le) = later more in
              (
                length c + 1 + i,
                omega (arith, at, length-append c (newline ∷ [])),
                boundary_in-append c (newline ∷ r) (suc i) (length c + 1 + i) (omega arith)
                    ∙ unfold boundary_in in boundary,
                omega (arith, le, length-append c (newline ∷ r)),
              )
        ]

segment_scan-IsFound :
    (wanted character : ℕ) (encoding : PositionEncoding) (number offset o : ℕ) {text : Bytes}
    → Lines text
    → is_utf8 text ≡ true
    → segment_scan wanted character encoding number offset (split_inclusive text) ≡ some (some o)
    → IsFound text offset o
unfolding segment_scan split_inclusive
segment_scan-IsFound wanted character encoding number offset o {text} (empty e) u h = cc (rw e at h)
segment_scan-IsFound wanted character encoding number offset o {text} (last b c n e) u h = rw e (
    last-IsFound wanted character encoding number offset o (b ∷ c) n (rw e at u)
      (rw (e, split-last b c n) at h))
segment_scan-IsFound wanted character encoding number offset o {text} (line c r n e ls) u h = rw e (
    line-IsFound wanted character encoding number offset o c r (rw e at u)
      (rw (e, split-line c r n) at h)
      λ more.
        segment_scan-IsFound wanted character encoding (number + 1)
          (offset + length (c ++ newline ∷ [])) o ls (utf8-line c r (rw e at u)) more)

boundary_in-end : (text : Bytes) → boundary_in text (length text) ≡ true
unfolding boundary_in opens
boundary_in-end [] = refl
boundary_in-end (b ∷ text) = boundary_in-end text

is_char_boundary-in :
    (text : Bytes) (o : ℕ) → boundary_in text o ≡ true → is_char_boundary text o ≡ true
unfolding is_char_boundary
is_char_boundary-in text zero h = refl
is_char_boundary-in text (suc o) h = h

position_to_offset-cases :
    (text : Bytes) (position : ProtocolPosition) (encoding : PositionEncoding) (o : ℕ)
    → position_to_offset text position encoding ≡ some o
    → (segment_scan position.line position.character encoding 0 0 (split_inclusive text)
        ≡ some (some o))
      ⊎ (o ≡ length text)
unfolding position_to_offset
position_to_offset-cases text position encoding o h =
    elim (Option-cases
      (segment_scan position.line position.character encoding 0 0 (split_inclusive text))) [
        | inl e ↦ inr (ground arith)
        | inr (found, e) ↦ inl (ground arith)
      ]

-- An offset that `position_to_offset` finds in valid UTF-8 lies in the text, between two characters.
pub position_to_offset-boundary :
    (text : Bytes) (position : ProtocolPosition) (encoding : PositionEncoding) (o : ℕ)
    → is_utf8 text ≡ true
    → position_to_offset text position encoding ≡ some o
    → (is_char_boundary text o ≡ true) × (o ≤ length text)
position_to_offset-boundary text position encoding o u h =
    elim (position_to_offset-cases text position encoding o h) [
      | inl found ↦
          let (i, at, boundary, le) =
            segment_scan-IsFound position.line position.character encoding 0 0 o (lines text) u
              found in
          let same : o ≡ i = omega arith in
          (is_char_boundary-in text o (rw same boundary), omega arith)
      | inr end ↦ (is_char_boundary-in text o (rw end (boundary_in-end text)), omega arith)
    ]
