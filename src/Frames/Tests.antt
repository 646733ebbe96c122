-- ===== src/Frames/Tests.antt =====
-- A short exchange, and the theorems applied to it.
use wharf_tui.Base.{ℕ, ◌≡◌, refl, arith, List, [], ◌∷◌, some, true, false, map, concat, take}
use wharf_tui.Base.Reader.{unexpected_eof}
use wharf_tui.Base.Results.{err}
use wharf_tui.Frames.{
  closed, read_failed, write_failed, write_frame, read_frame, read_frames, encoded, put_uint32,
}
use wharf_tui.Frames.RoundTrip.{read_frames-encoded, read_frame_cut}

-- kindData with two bytes, and kindDetach.
abbrev sent : List (ℕ × List ℕ)
sent = (3, 104 ∷ 105 ∷ []) ∷ (5, []) ∷ []

write_frame_run :
    write_frame true false 3 (104 ∷ 105 ∷ []) ≡ (some write_failed, 3 ∷ 0 ∷ 0 ∷ 0 ∷ 2 ∷ [])
unfolding write_frame put_uint32
write_frame_run = refl

read_frames-encoded_example : read_frames 3 (concat (map encoded sent)) ≡ (sent, some closed)
read_frames-encoded_example = read_frames-encoded sent (omega arith, (omega arith, tt))

read_frame_cut_example :
    read_frame (take 6 (encoded (3, 104 ∷ 105 ∷ []))) ≡ err (read_failed unexpected_eof)
read_frame_cut_example = read_frame_cut 3 (104 ∷ 105 ∷ []) 6 (omega arith) (omega arith)
