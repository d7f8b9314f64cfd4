-- ===== src/Rpc/Chunks.antt =====
-- How the stream comes in does not matter for the header that is read.
use lspctl.Prelude.{
  ℕ, zero, suc, ◌+◌, ◌-◌, ◌≤◌, ◌<◌, ◌≡◌, refl, Bool, true, false, Option, none, some, List, [], ◌∷◌,
  ◌++◌, Result, ok, err, if◌then◌else◌, ◌==◌, length, arith, Bool-cases, inl, inr, length-append,
  All, ap, ◌∙◌, sym,
}
use lspctl.Text.{Bytes}
use lspctl.Rpc.{
  JsonRpcTransportError, truncated_header, header_too_large, json_rpc_header_limit_bytes,
  ends_with_blank_line, take_header, read_bounded_header, HeaderResult, at_end,
}

abbrev pub joined : List Bytes → Bytes
joined [] = []
joined (chunk ∷ chunks) = chunk ++ joined chunks

-- A chunk that is not the stream's end.
abbrev pub IsChunk : Bytes → Type 0
IsChunk [] = ⊥
IsChunk (b ∷ chunk) = Unit

-- What is read, with what is left as one text.
abbrev pub Outcome : Type 0
Outcome = Result JsonRpcTransportError (Option (Bytes × Bytes))

abbrev pub outcome : HeaderResult → Outcome
outcome (ok none) = ok none
outcome (ok (some (header, chunks))) = ok (some (header, joined chunks))
outcome (err e) = err e

abbrev ended : Bytes → Outcome
ended [] = ok none
ended (b ∷ header) = err truncated_header

-- Reading byte by byte: up to the first blank line, or the limit.
unfoldable pub header_of : Bytes → Bytes → Outcome
header_of header [] = ended header
header_of header (b ∷ stream) =
    let longer = header ++ b ∷ [] in
    let rest = header_of longer stream in
    if ends_with_blank_line longer
    then ok (some (longer, stream))
    else if length longer == json_rpc_header_limit_bytes
    then err (header_too_large json_rpc_header_limit_bytes)
    else rest

-- what follows one buffer
abbrev go_on : List Bytes → Bytes × Bytes × Bool → Outcome
go_on chunks (longer, left, true) = ok (some (longer, left ++ joined chunks))
go_on chunks (longer, left, false) =
    if length longer == json_rpc_header_limit_bytes
    then err (header_too_large json_rpc_header_limit_bytes)
    else header_of longer (joined chunks)

take_header_lem :
    (header available : Bytes) (n : ℕ) (chunks : List Bytes)
    → length header + suc n ≡ json_rpc_header_limit_bytes
    → go_on chunks (take_header header available (suc n))
      ≡ header_of header (available ++ joined chunks)
unfolding take_header header_of
take_header_lem header [] n chunks h = ground arith
take_header_lem header (b ∷ available) zero chunks h =
    elim (Bool-cases (ends_with_blank_line (header ++ b ∷ []))) [
      | inl complete ↦ rw complete refl
      | inr more ↦ rw more (ground (arith, length-append header (b ∷ [])))
    ]
take_header_lem header (b ∷ available) (suc n) chunks h =
    elim (Bool-cases (ends_with_blank_line (header ++ b ∷ []))) [
      | inl complete ↦ rw complete refl
      | inr more ↦ rw more (
          take_header_lem (header ++ b ∷ []) available n chunks
            (omega (arith, length-append header (b ∷ [])))
          ∙ ground (arith, length-append header (b ∷ [])))
    ]

take_header_short :
    (header available : Bytes) (n : ℕ)
    → length (take_header header available n).0 ≤ length header + n
unfolding take_header
take_header_short header available zero = omega arith
take_header_short header [] (suc n) = omega arith
take_header_short header (b ∷ available) (suc n) =
    elim (Bool-cases (ends_with_blank_line (header ++ b ∷ []))) [
      | inl complete ↦ rw complete (omega (arith, length-append header (b ∷ [])))
      | inr more ↦ rw more (
          omega (
            arith,
            length-append header (b ∷ []),
            take_header_short (header ++ b ∷ []) available n,
          ))
    ]

at_end-ended : (header : Bytes) → outcome (at_end header) ≡ header_of header []
unfolding header_of
at_end-ended [] = refl
at_end-ended (b ∷ header) = refl

after_buffer :
    (chunks : List Bytes) (taken : Bytes × Bytes × Bool)
    → length taken.0 ≤ json_rpc_header_limit_bytes
    → (length taken.0 < json_rpc_header_limit_bytes
        → outcome (read_bounded_header taken.0 chunks) ≡ header_of taken.0 (joined chunks))
    → outcome (
        if taken.2
        then ok (some (taken.0, taken.1 ∷ chunks))
        else if length taken.0 == json_rpc_header_limit_bytes
        then err (header_too_large json_rpc_header_limit_bytes)
        else read_bounded_header taken.0 chunks)
      ≡ go_on chunks taken
after_buffer chunks (longer, left, true) h next = refl
after_buffer chunks (longer, left, false) h next =
    elim (Bool-cases (length longer == json_rpc_header_limit_bytes)) [
      | inl full ↦ rw full refl
      | inr room ↦ rw room (next (ground arith))
    ]

-- However the stream is cut into chunks that are not empty, the header that is read and the stream
-- that is left, or the error, are those of reading it byte by byte: up to the first blank line,
-- within the limit; also from a header on that is begun and short of the limit.
pub read_bounded_header-header_of :
    (header : Bytes) (chunks : List Bytes)
    → All IsChunk chunks
    → length header < json_rpc_header_limit_bytes
    → outcome (read_bounded_header header chunks) ≡ header_of header (joined chunks)
unfolding read_bounded_header
read_bounded_header-header_of header [] all short = at_end-ended header
read_bounded_header-header_of header ([] ∷ chunks) all short = absurd all.0
read_bounded_header-header_of header ((b ∷ chunk) ∷ chunks) all short =
    let n = json_rpc_header_limit_bytes - length header in
    let exact : suc (n - 1) ≡ n = omega arith in
    after_buffer chunks (take_header header (b ∷ chunk) n)
      (omega (arith, take_header_short header (b ∷ chunk) n))
      (read_bounded_header-header_of (take_header header (b ∷ chunk) n).0 chunks all.1)
    ∙ ap (λ k. go_on chunks (take_header header (b ∷ chunk) k)) (sym exact)
    ∙ take_header_lem header (b ∷ chunk) (n - 1) chunks (omega arith)
