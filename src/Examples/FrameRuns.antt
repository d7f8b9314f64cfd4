-- ===== src/Examples/FrameRuns.antt =====
-- The theorems on frames, at a stream that comes in two chunks.
use lspctl.Prelude.{◌≡◌, refl, Option, some, List, [], ◌∷◌, ◌++◌, arith}
use lspctl.Text.{Bytes, as_bytes, is_utf8}
use lspctl.Json.{Json, object, no_members}
use lspctl.Rpc.{read_bounded_header, take_header, ends_with_blank_line}
use lspctl.Rpc.Header.{
  parse_content_length, is_ascii, split_lines, split_once, trim_start, trim_end,
  eq_ignore_ascii_case, read_lines, length_value, all_digits, decimal,
}
use lspctl.Rpc.Chunks.{joined, outcome, header_of, read_bounded_header-header_of}
use lspctl.Rpc.Frame.{JsonRpcFrame, read_json_rpc_frame_with_bytes}
use lspctl.Rpc.Wire.{IsOnWire, read_json_rpc_frame-IsOnWire}

-- "Content-Length: 2", a blank line, and an object
abbrev header_start : Bytes
unfolding as_bytes
header_start = as_bytes "Content-Le"

abbrev header_end : Bytes
unfolding as_bytes
header_end = as_bytes "ngth: 2\r\n\r\n"

abbrev stream : List Bytes
unfolding header_start header_end
stream = header_start ∷ (header_end ++ 123 ∷ []) ∷ (125 ∷ []) ∷ []

abbrev parse_object : Bytes → Option Json
parse_object text = some (object no_members)

read_bounded_header-header_of_example :
    outcome (read_bounded_header [] stream) ≡ header_of [] (joined stream)
unfolding stream
read_bounded_header-header_of_example =
    read_bounded_header-header_of [] stream (tt, (tt, (tt, tt))) (omega arith)

abbrev frame : JsonRpcFrame
unfolding header_start header_end
frame = record {
  message = object no_members;
  header = header_start ++ header_end;
  body = 123 ∷ 125 ∷ [];
}

read_json_rpc_frame-IsOnWire_example : IsOnWire parse_object 100 (joined stream) frame []
unfolding stream frame read_json_rpc_frame_with_bytes read_bounded_header take_header
    ends_with_blank_line parse_content_length is_ascii split_lines split_once trim_start trim_end
    eq_ignore_ascii_case read_lines length_value all_digits decimal as_bytes is_utf8
read_json_rpc_frame-IsOnWire_example =
    read_json_rpc_frame-IsOnWire parse_object 100 stream frame [] (tt, (tt, (tt, tt))) refl
