-- ===== src/Ring.antt =====
-- internal/sshx/ring.go: the scrollback ring and the tee that feeds it.
-- A byte is a number that is only moved. Lengths are those of slices in memory, so `int` does not
-- overflow in them. The mutex makes each method one step.
pub mod Copy
pub mod Index
pub mod Segments
pub mod Round
pub mod Write
pub mod Stream
pub mod Tee
mod Tests
use wharf_tui.Base.{
  ℕ, ◌+◌, ◌-◌, ◌%◌, ◌*◌, ◌≤◌, min, ◌≡◌, List, leb, ltb, ◌==◌, if◌then◌else◌, length, take, drop,
  replicate,
}
use Copy.{copy_at}

-- ringSize
abbrev pub ring_size : ℕ
ring_size = 256 * 1024

pub record Ring : Type 0 where
  pub buf : List ℕ
  pub cap : ℕ
  pub start : ℕ
  pub len : ℕ

-- newRing
unfoldable pub new_ring : ℕ → Ring
new_ring n = record { buf = replicate n 0; cap = n; start = 0; len = 0 }

-- The bytes after the two segments of a write shorter than the buffer.
unfoldable pub write_segments : List ℕ → ℕ → List ℕ → List ℕ
write_segments buf write_pos p =
    let total = length p in
    let n1 = min (length buf - write_pos) total in
    let first = copy_at buf write_pos p in
    if ltb n1 total then copy_at first 0 (drop n1 p) else first

-- ring.Write: the new ring, and the count returned.
unfoldable pub write : Ring → List ℕ → Ring × ℕ
write r p =
    let total = length p in
    let new_len = r.len + total in
    if total == 0
    then (r, 0)
    else if leb r.cap total
    then (
      record r { buf = copy_at r.buf 0 (drop (total - r.cap) p); start = 0; len = r.cap },
      total,
    )
    else if ltb r.cap new_len
    then (
      record r {
        buf = write_segments r.buf ((r.start + r.len) % r.cap) p;
        start = (r.start + (new_len - r.cap)) % r.cap;
        len = r.cap;
      },
      total,
    )
    else (
      record r { buf = write_segments r.buf ((r.start + r.len) % r.cap) p; len = new_len },
      total,
    )

-- ring.Snapshot
unfoldable pub snapshot : Ring → List ℕ
snapshot r =
    let out = replicate r.len 0 in
    let tail = r.cap - r.start in
    if leb r.len tail
    then copy_at out 0 (take r.len (drop r.start r.buf))
    else copy_at (copy_at out 0 (drop r.start r.buf)) tail (take (r.len - tail) r.buf)

-- What every method keeps: the buffer has `cap` bytes, of which `len` are valid, from `start` on.
pub record IsValid (r : Ring) : Type 0 where
  pub sized : length r.buf ≡ r.cap
  pub len_in : r.len ≤ r.cap
  pub start_in : r.start ≤ r.cap - 1
