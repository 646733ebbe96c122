-- ===== src/Frames/RoundTrip.antt =====
-- What readFrame makes of a stream of frames, whole or cut.
use wharf_tui.Base.{
  ℕ, zero, suc, ◌+◌, ◌<◌, ◌≤◌, ◌≡◌, refl, ◌∙◌, ap, some, List, [], ◌∷◌, ◌++◌, if◌then◌else◌, ◌==◌,
  length, take, map, concat, arith, length-append, length-take, append_assoc, append-nil,
}
use wharf_tui.Base.Reader.{eof, unexpected_eof, read_full, read_full-append, read_full_short}
use wharf_tui.Base.Results.{ok, err}
use wharf_tui.Frames.{
  max_frame, closed, read_failed, put_uint32, frame_length, frame_kind, write_frame, read_body,
  read_frame, read_frames, encoded,
}

frame_length-put_uint32 : (k n : ℕ) → n < 4294967296 → frame_length (k ∷ put_uint32 n) ≡ n
unfolding frame_length put_uint32
frame_length-put_uint32 k n h = omega arith

-- A head and a payload.
encoded_lem :
    (kind : ℕ) (payload : List ℕ)
    → length payload ≤ max_frame
    → encoded (kind, payload) ≡ (kind ∷ put_uint32 (length payload)) ++ payload
unfolding encoded write_frame
encoded_lem kind [] h = ground (arith, append-nil (kind ∷ put_uint32 0))
encoded_lem kind (x ∷ payload) h = ground arith

read_body-append :
    (kind : ℕ) (payload rest : List ℕ)
    → length payload ≤ max_frame
    → read_body kind (length payload) (payload ++ rest) ≡ ok ((kind, payload), rest)
unfolding read_body
read_body-append kind [] rest h = ground arith
read_body-append kind (x ∷ payload) rest h =
    rw (read_full-append (x ∷ payload) rest (suc (length payload)) refl, read_body) (ground arith)

length-put_uint32 : (k n : ℕ) → 5 ≡ length (k ∷ put_uint32 n)
unfolding put_uint32
length-put_uint32 k n = refl

-- readFrame once the head is there.
read_frame-head :
    (kind n : ℕ) (s : List ℕ)
    → n < 4294967296
    → read_frame ((kind ∷ put_uint32 n) ++ s) ≡ read_body kind n s
unfolding read_frame frame_kind
read_frame-head kind n s h =
    rw (read_full-append (kind ∷ put_uint32 n) s 5 (length-put_uint32 kind n), read_frame)
      (rw (frame_length-put_uint32 kind n h) refl)

-- readFrame of what writeFrame wrote gives the kind and the payload, and leaves what follows.
pub read_frame-encoded :
    (kind : ℕ) (payload rest : List ℕ)
    → length payload ≤ max_frame
    → read_frame (encoded (kind, payload) ++ rest) ≡ ok ((kind, payload), rest)
read_frame-encoded kind payload rest h =
    rw (encoded_lem kind payload h, append_assoc (kind ∷ put_uint32 (length payload)) payload rest)
      (read_frame-head kind (length payload) (payload ++ rest) (omega arith)
        ∙ read_body-append kind payload rest h)

read_frame_nil : read_frame [] ≡ err closed
unfolding read_frame read_full
read_frame_nil = refl

-- Every payload is within the limit.
abbrev pub AllBounded : List (ℕ × List ℕ) → Type 0
AllBounded [] = Unit
AllBounded (frame ∷ frames) = (length frame.1 ≤ max_frame) × AllBounded frames

-- A reader's loop over the frames that a peer wrote before it hung up returns them in order and then
-- ErrClosed, if every payload is within the limit.
pub read_frames-encoded :
    (frames : List (ℕ × List ℕ))
    → AllBounded frames
    → read_frames (suc (length frames)) (concat (map encoded frames)) ≡ (frames, some closed)
unfolding read_frames concat
read_frames-encoded [] b = rw (read_frame_nil, read_frames) refl
read_frames-encoded (frame ∷ frames) b =
    rw (read_frame-encoded frame.0 frame.1 (concat (map encoded frames)) b.0, read_frames)
      (rw (read_frames-encoded frames b.1) refl)

read_body_short :
    (kind : ℕ) (payload : List ℕ) (j : ℕ)
    → length payload ≤ max_frame
    → j < length payload
    → read_body kind (length payload) (take j payload)
      ≡ err (read_failed (if j == 0 then eof else unexpected_eof))
unfolding read_body
read_body_short kind payload j h l =
    let n : length (take j payload) ≡ j = omega (arith, length-take j payload) in
    rw (read_full_short (length payload) (take j payload) (omega arith), read_body)
      (rw n (ground arith))

read_frame_short :
    (s : List ℕ) → length s < 5 → 0 < length s → read_frame s ≡ err (read_failed unexpected_eof)
unfolding read_frame
read_frame_short s h p = rw (read_full_short 5 s h, read_frame) (ground arith)

take-head :
    (kind n j : ℕ) (payload : List ℕ)
    → take (suc (suc (suc (suc (suc j))))) ((kind ∷ put_uint32 n) ++ payload)
      ≡ (kind ∷ put_uint32 n) ++ take j payload
unfolding put_uint32
take-head kind n j payload = refl

-- A head that is cut.
cut_head :
    (kind : ℕ) (payload : List ℕ) (k : ℕ)
    → 0 < k
    → k < 5
    → read_frame (take k ((kind ∷ put_uint32 (length payload)) ++ payload))
      ≡ err (read_failed unexpected_eof)
cut_head kind payload k p h =
    let file = (kind ∷ put_uint32 (length payload)) ++ payload in
    let n : length (take k file) ≡ k = omega (
      arith,
      length-take k file,
      length-append (kind ∷ put_uint32 (length payload)) payload,
      length-put_uint32 kind (length payload),
    ) in
    read_frame_short (take k file) (omega arith) (omega arith)

-- A frame that is cut is refused wherever it is cut: before its first byte the peer has closed, and
-- anywhere else the read has failed, with EOF at the border between head and payload.
pub read_frame_cut :
    (kind : ℕ) (payload : List ℕ) (k : ℕ)
    → length payload ≤ max_frame
    → k < 5 + length payload
    → read_frame (take k (encoded (kind, payload)))
      ≡ err (if k == 0 then closed else read_failed (if k == 5 then eof else unexpected_eof))
read_frame_cut kind payload zero h l = read_frame_nil
read_frame_cut kind payload (suc zero) h l =
    rw (encoded_lem kind payload h) (cut_head kind payload 1 (omega arith) (omega arith))
read_frame_cut kind payload (suc (suc zero)) h l =
    rw (encoded_lem kind payload h) (cut_head kind payload 2 (omega arith) (omega arith))
read_frame_cut kind payload (suc (suc (suc zero))) h l =
    rw (encoded_lem kind payload h) (cut_head kind payload 3 (omega arith) (omega arith))
read_frame_cut kind payload (suc (suc (suc (suc zero)))) h l =
    rw (encoded_lem kind payload h) (cut_head kind payload 4 (omega arith) (omega arith))
read_frame_cut kind payload (suc (suc (suc (suc (suc j))))) h l =
    ap read_frame (
      ap (take (suc (suc (suc (suc (suc j)))))) (encoded_lem kind payload h)
      ∙ take-head kind (length payload) j payload)
    ∙ read_frame-head kind (length payload) (take j payload) (omega arith)
    ∙ read_body_short kind payload j h (omega arith)
    ∙ ground arith
