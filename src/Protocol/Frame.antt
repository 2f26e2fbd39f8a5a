-- ===== src/Protocol/Frame.antt =====
-- protocol/frame.go: `[TotalLength 4B][OpCode 1B][Payload]` on a byte stream.
pub mod Stream
pub mod Progress
use keva.Prelude.{ℕ, ◌%◌, ◌^◌, ◌++◌, Bytes, length, ltb, ◌&&◌, map_err, put_uint32, uint}
use keva.Prelude.Reader.{IoError, Read, ◌>>=◌, ◌>>◌, return, fail_if, read_full}
use keva.Protocol.Errors.{DecodeError}
use keva.Protocol.Message.{Message, encode_message, decode_message}

-- `malformed` wraps the decode error; `io_error` is an error of `io.ReadFull`.
pub data FrameError : Type 0 where
  frame_too_large : FrameError
  io_error : IoError → FrameError
  malformed : DecodeError → FrameError

unfoldable pub encode_frame : Message → Bytes
encode_frame msg = put_uint32 (length (encode_message msg) % 2 ^ 32) ++ encode_message msg

-- `maxLen == 0` is no limit.
unfoldable pub read_frame : ℕ → Read FrameError Message
unfolding read_full
read_frame max_len = do
  header ← read_full io_error 4
  let msg_len = uint header
  fail_if (ltb 0 max_len && ltb max_len msg_len) frame_too_large
  body ← read_full io_error msg_len
  return (map_err malformed (decode_message body))
