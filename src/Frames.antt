-- ===== src/Frames.antt =====
-- internal/sessd/proto.go: the frames between a client and a session host. A reader is the bytes
-- that are still to come before the peer hangs up; a writer accepts a Write or refuses it. writeJSON
-- is writeFrame of what the JSON encoder returns.
pub mod RoundTrip
mod Tests
use wharf_tui.Base.{
  ℕ, zero, suc, ◌+◌, ◌*◌, ◌/◌, ◌%◌, Bool, true, false, Option, none, some, List, [], ◌∷◌, ◌++◌,
  if◌then◌else◌, ◌==◌, ltb, leb, length, take, drop,
}
use wharf_tui.Base.Reader.{ReadError, eof, unexpected_eof, read_full}
use wharf_tui.Base.Results.{Result, ok, err}

-- 1 << 20
abbrev pub max_frame : ℕ
max_frame = 1048576

-- ErrClosed, an error of the connection, and a length above the limit.
pub data FrameError : Type 0 where
  closed : FrameError
  read_failed : ReadError → FrameError
  write_failed : FrameError
  too_long : ℕ → FrameError

-- binary.BigEndian.PutUint32
unfoldable pub put_uint32 : ℕ → List ℕ
put_uint32 n = (n / 16777216 % 256) ∷ (n / 65536 % 256) ∷ (n / 256 % 256) ∷ (n % 256) ∷ []

-- binary.BigEndian.Uint32 of the last four bytes of a head.
unfoldable pub frame_length : List ℕ → ℕ
frame_length (k ∷ a ∷ b ∷ c ∷ d ∷ rest) = a * 16777216 + b * 65536 + c * 256 + d
frame_length _ = 0

-- head[0]
unfoldable pub frame_kind : List ℕ → ℕ
frame_kind [] = 0
frame_kind (k ∷ rest) = k

-- writeFrame: the error, and the bytes of the accepted writes. The two tests tell whether the writer
-- accepts the head and the payload.
unfoldable pub write_frame : Bool → Bool → ℕ → List ℕ → Option FrameError × List ℕ
write_frame head_accepted payload_accepted kind payload =
    let head = kind ∷ put_uint32 (length payload) in
    if ltb max_frame (length payload)
    then (some (too_long (length payload)), [])
    else if head_accepted
    then (if length payload == 0
        then (none, head)
        else if payload_accepted
        then (none, head ++ payload)
        else (some write_failed, head))
    else (some write_failed, [])

-- readFrame after the head was read: the kind, the payload and what is left to read.
unfoldable pub read_body : ℕ → ℕ → List ℕ → Result FrameError ((ℕ × List ℕ) × List ℕ)
read_body kind n s =
    if ltb max_frame n
    then err (too_long n)
    else if n == 0
    then ok ((kind, []), s)
    else elim (read_full n s) [ err e ↦ err (read_failed e) | ok out ↦ ok ((kind, out.0), out.1) ]

-- readFrame
unfoldable pub read_frame : List ℕ → Result FrameError ((ℕ × List ℕ) × List ℕ)
read_frame s = elim (read_full 5 s) [
  | err eof ↦ err closed
  | err unexpected_eof ↦ err (read_failed unexpected_eof)
  | ok out ↦ read_body (frame_kind out.0) (frame_length out.0) out.1
]

-- A reader's loop: the frames that `fuel` calls of readFrame return, and the error that ends it.
unfoldable pub read_frames : ℕ → List ℕ → List (ℕ × List ℕ) × Option FrameError
read_frames zero s = ([], none)
read_frames (suc fuel) s = elim (read_frame s) [
  | err e ↦ ([], some e)
  | ok out ↦ let (frames, e) = read_frames fuel out.1 in (out.0 ∷ frames, e)
]

-- The bytes of a frame whose writes were accepted.
unfoldable pub encoded : ℕ × List ℕ → List ℕ
encoded frame = (write_frame true true frame.0 frame.1).1
