-- ===== src/Ring/Write.antt =====
-- A write keeps the invariant, and a snapshot after it is the newest bytes.
use native.Mathlib.Nat.{mod-add-mod, mod-lt}
use wharf_tui.Base.{
  ℕ, ◌+◌, ◌-◌, ◌%◌, ◌≤◌, ◌<◌, ◌≡◌, ◌∙◌, ap, sym, inl, inr, arith, Bool-cases, ltb, leb, leb→le,
  ◌==◌, List, [], ◌∷◌, ◌++◌, append-nil, length, get_elem?, drop, list_ext, length-append,
  length-drop, get_elem?-drop, get_elem?-append_right,
}
use wharf_tui.Ring.{Ring, write, write_segments, snapshot, IsValid}
use wharf_tui.Ring.Copy.{copy_at, length-copy_at, get_elem?-copy_at_in}
use wharf_tui.Ring.Index.{mod_once, length-snapshot, get_elem?-snapshot}
use wharf_tui.Ring.Segments.{length-write_segments}
use wharf_tui.Ring.Round.{segments_round}

-- The last `n` entries.
abbrev pub newest : ℕ → List ℕ → List ℕ
newest n xs = drop (length xs - n) xs

-- A slice whose byte at each index stands round the ring from `start` is the snapshot.
snapshot_eq :
    (r : Ring) (xs : List ℕ) (d : ℕ)
    → IsValid r
    → r.len ≡ length xs - d
    → ((i : ℕ) → i < r.len → get_elem? r.buf ((r.start + i) % r.cap) ≡ get_elem? xs (d + i))
    → snapshot r ≡ drop d xs
snapshot_eq r xs d v e at =
    list_ext (snapshot r) (drop d xs) (omega (arith, length-snapshot r, length-drop d xs)) λ i h.
      let h' : i < r.len = omega (arith, length-snapshot r) in
      get_elem?-snapshot r v i h' ∙ at i h' ∙ sym (get_elem?-drop d xs i)

-- A write keeps the ring valid: a buffer of `cap` bytes, and `len` and `start` in range.
pub write-IsValid : (r : Ring) (p : List ℕ) → IsValid r → IsValid (write r p).0
unfolding write
write-IsValid r p v = ground (
  arith,
  length-write_segments r.buf ((r.start + r.len) % r.cap) p,
  length-copy_at r.buf 0 (drop (length p - r.cap) p),
)

-- A write of at least `cap` bytes leaves their tail.
long_write :
    (r : Ring) (p : List ℕ)
    → IsValid r
    → r.cap ≤ length p
    → snapshot
        (record r { buf = copy_at r.buf 0 (drop (length p - r.cap) p); start = 0; len = r.cap })
      ≡ newest r.cap (snapshot r ++ p)
long_write r p v h =
    snapshot_eq r' xs (length xs - r.cap)
      (omega (arith, v, length-copy_at r.buf 0 (drop (length p - r.cap) p))) (omega (arith, sizes))
      λ i k.
        let m : (0 + i) % r.cap ≡ i = mod_small i (omega arith) in
        rw m (
          get_elem?-copy_at_in r.buf 0 (drop (length p - r.cap) p) i i (omega arith)
            (omega (arith, length-drop (length p - r.cap) p)) (omega (arith, v))
          ∙ get_elem?-drop (length p - r.cap) p i
          ∙ sym (get_elem?-append_right (snapshot r) p (length p - r.cap + i))
          ∙ ap (get_elem? xs) (omega (arith, sizes)))
  where
    r' : Ring
    r' = record r { buf = copy_at r.buf 0 (drop (length p - r.cap) p); start = 0; len = r.cap }

    xs : List ℕ
    xs = snapshot r ++ p

    sizes : (length xs ≡ length (snapshot r) + length p) × (length (snapshot r) ≡ r.len)
    sizes = (length-append (snapshot r) p, length-snapshot r)

    mod_small : (i : ℕ) → i < r.cap → (0 + i) % r.cap ≡ i
    mod_small i l = omega (arith, mod_once (0 + i) r.cap (omega arith))

-- A shorter write that does not fill the ring.
short_write :
    (r : Ring) (p : List ℕ)
    → IsValid r
    → length p < r.cap
    → r.len + length p ≤ r.cap
    → snapshot (record r {
      buf = write_segments r.buf ((r.start + r.len) % r.cap) p;
      len = r.len + length p;
    })
      ≡ newest r.cap (snapshot r ++ p)
short_write r p v h k =
    snapshot_eq r' xs (length xs - r.cap)
      (omega (arith, v, length-write_segments r.buf ((r.start + r.len) % r.cap) p))
      (omega (arith, sizes))
      λ i l. segments_round r v p h i (omega arith) l ∙ ap (get_elem? xs) (omega (arith, sizes))
  where
    r' : Ring
    r' = record r {
      buf = write_segments r.buf ((r.start + r.len) % r.cap) p;
      len = r.len + length p;
    }

    xs : List ℕ
    xs = snapshot r ++ p

    sizes : (length xs ≡ length (snapshot r) + length p) × (length (snapshot r) ≡ r.len)
    sizes = (length-append (snapshot r) p, length-snapshot r)

-- A shorter write that overwrites the oldest bytes.
over_write :
    (r : Ring) (p : List ℕ)
    → IsValid r
    → length p < r.cap
    → r.cap < r.len + length p
    → snapshot (record r {
      buf = write_segments r.buf ((r.start + r.len) % r.cap) p;
      start = (r.start + (r.len + length p - r.cap)) % r.cap;
      len = r.cap;
    })
      ≡ newest r.cap (snapshot r ++ p)
over_write r p v h k =
    snapshot_eq r' xs (length xs - r.cap)
      (omega (arith, v, length-write_segments r.buf ((r.start + r.len) % r.cap) p, mod-lt))
      (omega (arith, sizes))
      λ i l. rw (mod-add-mod (r.start + over) r.cap i) (
        ap (λ n. get_elem? r'.buf (n % r.cap)) (omega arith)
        ∙ segments_round r v p h (over + i) (omega arith) (omega (arith, v))
        ∙ ap (get_elem? xs) (omega (arith, sizes)))
  where
    r' : Ring
    r' = record r {
      buf = write_segments r.buf ((r.start + r.len) % r.cap) p;
      start = (r.start + (r.len + length p - r.cap)) % r.cap;
      len = r.cap;
    }

    xs : List ℕ
    xs = snapshot r ++ p

    sizes : (length xs ≡ length (snapshot r) + length p) × (length (snapshot r) ≡ r.len)
    sizes = (length-append (snapshot r) p, length-snapshot r)

    over : ℕ
    over = r.len + length p - r.cap

-- An empty write.
empty_write :
    (r : Ring) (p : List ℕ) → IsValid r → length p ≡ 0 → snapshot r ≡ newest r.cap (snapshot r ++ p)
empty_write r [] v e =
    let short : length (snapshot r) - r.cap ≡ 0 = omega (arith, v, length-snapshot r) in
    rw (append-nil, short)
empty_write r (x ∷ p) v e = absurd (omega arith)

-- After a write, `Snapshot` is the last `cap` bytes of the old snapshot followed by the write.
pub snapshot-write :
    (r : Ring) (p : List ℕ) → IsValid r → snapshot (write r p).0 ≡ newest r.cap (snapshot r ++ p)
unfolding write
snapshot-write r p v = elim (Bool-cases (length p == 0)) [
  | inl e ↦ rw e (empty_write r p v (ground arith))
  | inr e ↦ rw e (elim (Bool-cases (leb r.cap (length p))) [
    | inl l ↦ rw l (long_write r p v (leb→le r.cap (length p) l))
    | inr l ↦ rw l (elim (Bool-cases (ltb r.cap (r.len + length p))) [
      | inl o ↦ rw o (over_write r p v (ground arith) (ground arith))
      | inr o ↦ rw o (short_write r p v (ground arith) (ground arith))
    ])
  ])
]
