-- ===== src/Protocol/Frame/Stream.antt =====
-- Reading frames from a stream: whole, too large, cut off, and one after the other.
use keva.Prelude.{
  ℕ, zero, suc, ◌%◌, ◌^◌, ◌≤◌, ◌<◌, ◌≡◌, ◌⊎◌, refl, ◌∙◌, List, [], ◌∷◌, ◌++◌, append_assoc, arith,
  Bytes, length, All, ltb, ◌==◌, ◌&&◌, Bool, false, if◌then◌else◌, ok, err, map_err, put_uint32,
  uint-put_uint32,
}
use keva.Protocol.Message.{Message, encode_message, decode_message}
use keva.Protocol.Message.RoundTrip.{Fits, decode_message-encode_message}
use keva.Prelude.Reader.{
  eof, unexpected_eof, Read, ◌>>=◌, ◌>>◌, return, fail_if, read_full, read_full-append,
  read_full_short,
}
use keva.Protocol.Frame.{FrameError, frame_too_large, io_error, malformed, encode_frame, read_frame}

abbrev over_limit : ℕ → ℕ → Bool
over_limit max_len msg_len = ltb 0 max_len && ltb max_len msg_len

-- What `read_frame` does once it has the length from the header.
read_frame_header :
    (max_len len : ℕ) (s : Bytes)
    → len < 2 ^ 32
    → read_frame max_len (put_uint32 len ++ s)
      ≡ (do
        fail_if (over_limit max_len len) frame_too_large
        body ← read_full io_error len
        return (map_err malformed (decode_message body)))
          s
unfolding read_frame
read_frame_header max_len len s h = rw (
  read_full-append io_error (put_uint32 len) s 4 (unfold put_uint32 in refl),
  uint-put_uint32 len h,
)

-- A frame above the limit is refused, and its body is left on the stream.
pub read_frame_too_large :
    (max_len len : ℕ) (s : Bytes)
    → len < 2 ^ 32
    → 0 < max_len
    → max_len < len
    → read_frame max_len (put_uint32 len ++ s) ≡ (err frame_too_large, s)
read_frame_too_large max_len len s h pos over = read_frame_header max_len len s h ∙ ground arith

abbrev pub WithinLimit : ℕ → ℕ → Type 0
WithinLimit max_len len = (max_len ≡ 0) ⊎ (len ≤ max_len)

not_over_limit : (max_len len : ℕ) → WithinLimit max_len len → over_limit max_len len ≡ false
not_over_limit max_len len w = ground arith

-- Whatever the body of a frame within the limit decodes to, exactly the frame is taken from the
-- stream: a malformed message leaves the reader at the next frame.
pub read_frame_aligned :
    (max_len : ℕ) (body rest : Bytes)
    → length body < 2 ^ 32
    → WithinLimit max_len (length body)
    → read_frame max_len (put_uint32 (length body) ++ (body ++ rest))
      ≡ (map_err malformed (decode_message body), rest)
read_frame_aligned max_len body rest h w =
    read_frame_header max_len (length body) (body ++ rest) h
    ∙ rw (
      not_over_limit max_len (length body) w,
      read_full-append io_error body rest (length body) refl,
    )

-- A stream that ends inside the body of a frame within the limit gives an I/O error, and nothing
-- is decoded.
pub read_frame_cut :
    (max_len len : ℕ) (s : Bytes)
    → len < 2 ^ 32
    → WithinLimit max_len len
    → length s < len
    → read_frame max_len (put_uint32 len ++ s)
      ≡ (err (io_error (if length s == 0 then eof else unexpected_eof)), [])
read_frame_cut max_len len s h w cut =
    read_frame_header max_len len s h
    ∙ rw (not_over_limit max_len len w, read_full_short io_error s len cut)

abbrev pub FrameFits : ℕ → Message → Type 0
FrameFits max_len m =
    Fits m × (length (encode_message m) < 2 ^ 32) × WithinLimit max_len (length (encode_message m))

-- A frame that is written is read back, and what follows it stays on the stream.
pub read_frame-encode_frame :
    (max_len : ℕ) (m : Message) (rest : Bytes)
    → FrameFits max_len m
    → read_frame max_len (encode_frame m ++ rest) ≡ (ok m, rest)
unfolding encode_frame
read_frame-encode_frame max_len m rest (fits, small, within) =
    let exact : length (encode_message m) % 2 ^ 32 ≡ length (encode_message m) = omega arith in
    rw (exact, append_assoc (put_uint32 (length (encode_message m))) (encode_message m) rest)
      (read_frame_aligned max_len (encode_message m) rest small within
        ∙ rw (decode_message-encode_message m fits))

-- A connection's reads in a row, ended by the first error.
pub read_frames : ℕ → ℕ → Read FrameError (List Message)
read_frames max_len zero = return (ok [])
read_frames max_len (suc n) = do
  m ← read_frame max_len
  ms ← read_frames max_len n
  return (ok (m ∷ ms))

abbrev pub encode_frames : List Message → Bytes
encode_frames [] = []
encode_frames (m ∷ ms) = encode_frame m ++ encode_frames ms

-- Frames of messages that fit and are within the limit, written one after the other, are read back
-- in order, and what follows stays.
pub read_frames-encode_frames :
    (max_len : ℕ) (ms : List Message) (rest : Bytes)
    → All (FrameFits max_len) ms
    → read_frames max_len (length ms) (encode_frames ms ++ rest) ≡ (ok ms, rest)
unfolding read_frames
read_frames-encode_frames max_len [] rest h = refl
read_frames-encode_frames max_len (m ∷ ms) rest h = rw (
  append_assoc (encode_frame m) (encode_frames ms) rest,
  read_frame-encode_frame max_len m (encode_frames ms ++ rest) h.0,
  read_frames-encode_frames max_len ms rest h.1,
)
