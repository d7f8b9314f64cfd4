-- ===== src/Rpc/Wire.antt =====
-- A frame that is read is what stands at the front of the stream.
use lspctl.Prelude.{
  ℕ, suc, zero, ◌≤◌, ◌≡◌, refl, true, Option, none, some, List, [], ◌∷◌, ◌++◌, Result, ok, err,
  length, take, drop, arith, Bool-cases, inl, inr, length-take, All, ap, sym, ◌∙◌,
}
use mathlib.Core.List.{append_assoc}
use mathlib.Core.Path.{subst}
use lspctl.Text.{Bytes, is_utf8}
use lspctl.Json.{Json, object}
use lspctl.Rpc.{JsonRpcTransportError, read_bounded_header, HeaderResult, ends_with_blank_line}
use lspctl.Rpc.Header.{parse_content_length}
use lspctl.Rpc.Chunks.{joined, IsChunk, outcome, header_of, read_bounded_header-header_of}
use lspctl.Rpc.Frame.{
  JsonRpcFrame, frame_of, read_body_of, behind_header, read_json_rpc_frame_with_bytes,
}

header_of-prefix :
    (header stream found rest : Bytes)
    → header_of header stream ≡ ok (some (found, rest))
    → header ++ stream ≡ found ++ rest
unfolding header_of
header_of-prefix [] [] found rest h = cc
header_of-prefix (b ∷ header) [] found rest h = cc
header_of-prefix header (b ∷ stream) found rest h =
    elim (Bool-cases (ends_with_blank_line (header ++ b ∷ []))) [
      | inl complete ↦ sym (append_assoc header (b ∷ []) stream) ∙ ground (arith, complete)
      | inr more ↦
          sym (append_assoc header (b ∷ []) stream)
          ∙ header_of-prefix (header ++ b ∷ []) stream found rest (ground (arith, more))
    ]

take-drop : (n : ℕ) (s : Bytes) → take n s ++ drop n s ≡ s
take-drop zero s = refl
take-drop (suc n) [] = refl
take-drop (suc n) (b ∷ s) = ap (λ t. b ∷ t) (take-drop n s)

-- A frame with its place in a stream.
pub record IsOnWire (from_str : Bytes → Option Json) (max_body_bytes : ℕ) (stream : Bytes)
    (frame : JsonRpcFrame) (rest : Bytes) : Type 0 where
  pub in_order : stream ≡ frame.header ++ (frame.body ++ rest)
  pub bounded : length frame.body ≤ max_body_bytes
  pub declared : parse_content_length frame.header ≡ ok (length frame.body)
  pub text : is_utf8 frame.body ≡ true
  pub parsed : from_str frame.body ≡ some frame.message

module _ (from_str : Bytes → Option Json) (max_body_bytes : ℕ) where
  frame_of_lem :
      (header body behind rest : Bytes) (frame : JsonRpcFrame) (parsed : Option Json)
      → frame_of from_str max_body_bytes header body behind parsed ≡ ok (some (frame, rest))
      → (frame.header ≡ header)
        × (frame.body ≡ body)
        × (rest ≡ behind)
        × (parsed ≡ some frame.message)
  frame_of_lem header body behind rest frame none h = cc
  frame_of_lem header body behind rest frame (some (object m)) h = ground (arith, h)
  frame_of_lem header body behind rest frame (some Json.null) h = cc
  frame_of_lem header body behind rest frame (some (Json.boolean b)) h = cc
  frame_of_lem header body behind rest frame (some (Json.number n)) h = cc
  frame_of_lem header body behind rest frame (some (Json.string s)) h = cc
  frame_of_lem header body behind rest frame (some (Json.array vs)) h = cc

  read_body_of-IsOnWire :
      (header stream rest : Bytes) (frame : JsonRpcFrame)
      (declared : Result JsonRpcTransportError ℕ)
      → parse_content_length header ≡ declared
      → read_body_of from_str max_body_bytes header stream declared ≡ ok (some (frame, rest))
      → IsOnWire from_str max_body_bytes (header ++ stream) frame rest
  read_body_of-IsOnWire header stream rest frame (err e) d h = cc
  read_body_of-IsOnWire header stream rest frame (ok n) d h =
      let body = take n stream in
      let small : n ≤ max_body_bytes = ground arith in
      let enough : n ≤ length stream = ground arith in
      let text : is_utf8 body ≡ true = ground arith in
      let (of_header, of_body, of_rest, parsed) =
        frame_of_lem header body (drop n stream) rest frame (from_str body) (ground arith) in
      let exact : length body ≡ n = omega (arith, length-take n stream) in
      record {
        in_order =
            rw (of_header, of_body, of_rest) (ap (λ s. header ++ s) (sym (take-drop n stream)));
        bounded = rw of_body (omega arith);
        declared = rw (of_header, of_body, exact) d;
        text = rw of_body text;
        parsed = rw of_body parsed;
      }

  behind_header-IsOnWire :
      (stream rest : Bytes) (frame : JsonRpcFrame) (r : HeaderResult)
      → outcome r ≡ header_of [] stream
      → behind_header from_str max_body_bytes r ≡ ok (some (frame, rest))
      → IsOnWire from_str max_body_bytes stream frame rest
  behind_header-IsOnWire stream rest frame (err e) same h = cc
  behind_header-IsOnWire stream rest frame (ok none) same h = cc
  behind_header-IsOnWire stream rest frame (ok (some (header, chunks))) same h =
      let split = header_of-prefix [] stream header (joined chunks) (sym same) in
      subst (λ s. IsOnWire from_str max_body_bytes s frame rest) (sym split)
        (read_body_of-IsOnWire header (joined chunks) rest frame (parse_content_length header) refl
          h)

  -- However the stream is cut into chunks that are not empty, a frame that is read is what stands at
  -- the front of it, byte for byte: the header, then a body of the length that the header declares,
  -- within the limit, which is UTF-8 and parses to the message; and what is left is the stream
  -- behind it.
  pub read_json_rpc_frame-IsOnWire :
      (chunks : List Bytes) (frame : JsonRpcFrame) (rest : Bytes)
      → All IsChunk chunks
      → (read_json_rpc_frame_with_bytes from_str max_body_bytes chunks ≡ ok (some (frame, rest)))
      → IsOnWire from_str max_body_bytes (joined chunks) frame rest
  unfolding read_json_rpc_frame_with_bytes
  read_json_rpc_frame-IsOnWire chunks frame rest all h =
      behind_header-IsOnWire (joined chunks) rest frame (read_bounded_header [] chunks)
        (read_bounded_header-header_of [] chunks all (omega arith)) h
