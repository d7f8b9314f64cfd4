-- ===== src/Rpc.antt =====
-- The reader of src/session/json_rpc_transport.rs: the header of a frame. What one call of `fill_buf`
-- finds in the buffer is a chunk of the stream; an empty one is the stream's end.
pub mod Header
pub mod Frame
pub mod Chunks
pub mod Wire
use lspctl.Prelude.{
  ℕ, zero, suc, ◌+◌, ◌-◌, Bool, true, false, Option, none, some, List, [], ◌∷◌, ◌++◌, Result, ok,
  err, if◌then◌else◌, ◌==◌, length, drop, ◌&&◌,
}
use lspctl.Text.{Bytes}

abbrev pub json_rpc_header_limit_bytes : ℕ
json_rpc_header_limit_bytes = 8192

-- What the errors of the system and of serde carry is left out.
pub data JsonRpcTransportError : Type 0 where
  read_header truncated_header : JsonRpcTransportError
  header_too_large : ℕ → JsonRpcTransportError
  non_ascii_header malformed_header_line missing_content_length duplicate_content_length :
      JsonRpcTransportError
  invalid_content_length unsupported_content_type duplicate_content_type : JsonRpcTransportError
  inbound_body_too_large : ℕ → ℕ → JsonRpcTransportError
  read_body non_utf8_body invalid_json_body batch_unsupported message_not_object :
      JsonRpcTransportError
  serialize_body write_frame : JsonRpcTransportError
  outbound_body_too_large : ℕ → ℕ → JsonRpcTransportError

abbrev pub is_blank_line : Bytes → Bool
is_blank_line (a ∷ b ∷ c ∷ d ∷ []) = a == 13 && b == 10 && c == 13 && d == 10
is_blank_line _ = false

-- `header.ends_with(b"\r\n\r\n")`
unfoldable pub ends_with_blank_line : Bytes → Bool
ends_with_blank_line header = is_blank_line (drop (length header - 4) header)

-- The loop over one buffer: the header so far, the bytes that are left in the buffer, and whether the
-- header is complete.
unfoldable pub take_header : Bytes → Bytes → ℕ → Bytes × Bytes × Bool
take_header header available zero = (header, available, false)
take_header header [] (suc n) = (header, [], false)
take_header header (b ∷ available) (suc n) =
    let longer = header ++ b ∷ [] in
    let rest = take_header longer available n in
    if ends_with_blank_line longer then (longer, available, true) else rest

-- A header, or none at the stream's end, with the stream that is left.
abbrev pub HeaderResult : Type 0
HeaderResult = Result JsonRpcTransportError (Option (Bytes × List Bytes))

-- the stream's end
abbrev pub at_end : Bytes → HeaderResult
at_end [] = ok none
at_end (b ∷ header) = err truncated_header

-- The loop of `read_bounded_header`. Where it goes on, it has consumed the whole of its chunk.
unfoldable pub read_bounded_header : Bytes → List Bytes → HeaderResult
unfolding take_header
read_bounded_header header [] = at_end header
read_bounded_header header ([] ∷ chunks) = at_end header
read_bounded_header header ((b ∷ chunk) ∷ chunks) =
    let (longer, left, complete) =
      take_header header (b ∷ chunk) (json_rpc_header_limit_bytes - length header) in
    let rest = read_bounded_header longer chunks in
    if complete
    then ok (some (longer, left ∷ chunks))
    else if length longer == json_rpc_header_limit_bytes
    then err (header_too_large json_rpc_header_limit_bytes)
    else rest
