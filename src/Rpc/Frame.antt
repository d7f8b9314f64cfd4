-- ===== src/Rpc/Frame.antt =====
-- `read_json_rpc_frame_with_bytes`. The stream behind a header is taken as one text, of which
-- `read_exact` takes the body.
use lspctl.Prelude.{
  ℕ, not, Option, none, some, List, [], Result, ok, err, ltb, length, take, drop, if◌then◌else◌,
}
use lspctl.Text.{Bytes, is_utf8}
use lspctl.Json.{Json, object, array}
use lspctl.Rpc.{
  JsonRpcTransportError, inbound_body_too_large, read_body, non_utf8_body, invalid_json_body,
  batch_unsupported, message_not_object, read_bounded_header, HeaderResult,
}
use lspctl.Rpc.Header.{parse_content_length}
use lspctl.Rpc.Chunks.{joined}

pub record JsonRpcFrame : Type 0 where
  pub message : Json
  pub header : Bytes
  pub body : Bytes

-- A frame and the stream behind it, or none at the stream's end.
abbrev pub FrameResult : Type 0
FrameResult = Result JsonRpcTransportError (Option (JsonRpcFrame × Bytes))

module _ (from_str : Bytes → Option Json) (max_body_bytes : ℕ) where
  -- the kinds of message
  abbrev pub frame_of : Bytes → Bytes → Bytes → Option Json → FrameResult
  frame_of header body rest none = err invalid_json_body
  frame_of header body rest (some (object m)) =
      ok (some (record { message = object m; header = header; body = body }, rest))
  frame_of header body rest (some (array vs)) = err batch_unsupported
  frame_of header body rest (some _) = err message_not_object

  abbrev pub read_body_of : Bytes → Bytes → Result JsonRpcTransportError ℕ → FrameResult
  read_body_of header stream (err e) = err e
  read_body_of header stream (ok content_length) =
      if ltb max_body_bytes content_length
      then err (inbound_body_too_large content_length max_body_bytes)
      else if ltb (length stream) content_length
      then err read_body
      else if not (is_utf8 (take content_length stream))
      then err non_utf8_body
      else frame_of header (take content_length stream) (drop content_length stream)
          (from_str (take content_length stream))

  abbrev pub behind_header : HeaderResult → FrameResult
  behind_header (err e) = err e
  behind_header (ok none) = ok none
  behind_header (ok (some (header, chunks))) =
      read_body_of header (joined chunks) (parse_content_length header)

  unfoldable pub read_json_rpc_frame_with_bytes : List Bytes → FrameResult
  unfolding read_bounded_header parse_content_length is_utf8
  read_json_rpc_frame_with_bytes chunks = behind_header (read_bounded_header [] chunks)
