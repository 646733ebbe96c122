-- ===== src/Ring/Round.antt =====
-- After a short write, the bytes round the ring from `start` are the old snapshot and the write.
use native.Mathlib.Nat.{mod-add-mod}
use wharf_tui.Base.{
  ℕ, ◌+◌, ◌-◌, ◌%◌, ◌≤◌, ◌<◌, ◌≡◌, ◌∙◌, ap, refl, sym, inl, inr, arith, Bool-cases, ltb, ltb→lt,
  List, ◌++◌, length, get_elem?, get_elem?-append_left, get_elem?-append_right,
}
use wharf_tui.Ring.{Ring, write_segments, snapshot, IsValid}
use wharf_tui.Ring.Index.{mod_once, length-snapshot, get_elem?-snapshot}
use wharf_tui.Ring.Segments.{written_high, written_low, kept}

module _ (r : Ring) (v : IsValid r) (p : List ℕ) (fits : length p < r.cap) where
  open r use {buf, cap, start, len}

  abbrev pub write_pos : ℕ
  write_pos = (start + len) % cap

  abbrev pub segments : List ℕ
  segments = write_segments buf write_pos p

  pos_in : write_pos < length buf
  pos_in = omega (arith, v, mod_once (start + len) cap (omega (arith, v)))

  old_byte :
      (k : ℕ)
      → len + length p ≤ k + cap
      → k < len
      → get_elem? segments ((start + k) % cap) ≡ get_elem? (snapshot r ++ p) k
  old_byte k old h =
      kept buf write_pos p pos_in (omega (arith, v)) ((start + k) % cap) (
        omega (
          arith,
          v,
          mod_once (start + len) cap (omega (arith, v)),
          mod_once (start + k) cap (omega (arith, v)),
        ))
      ∙ sym (get_elem?-snapshot r v k h)
      ∙ sym (get_elem?-append_left (snapshot r) p k (omega (arith, length-snapshot r)))

  new_byte :
      (k : ℕ)
      → k < len + length p
      → len ≤ k
      → get_elem? segments ((start + k) % cap) ≡ get_elem? (snapshot r ++ p) k
  new_byte k new h = landed ∙ sym read
    where
      t : ℕ
      t = k - len

      round : (start + k) % cap ≡ (write_pos + t) % cap
      round = ap (λ n. n % cap) (omega arith) ∙ sym (mod-add-mod (start + len) cap t)

      read : get_elem? (snapshot r ++ p) k ≡ get_elem? p t
      read =
          ap (get_elem? (snapshot r ++ p)) (omega (arith, length-snapshot r))
          ∙ get_elem?-append_right (snapshot r) p t

      landed : get_elem? segments ((start + k) % cap) ≡ get_elem? p t
      landed = rw round (elim (mod_once (write_pos + t) cap (omega (arith, v, pos_in))) [
        | inl (lo, m) ↦ rw m (
            written_high buf write_pos p pos_in (omega (arith, v)) t (write_pos + t) (omega arith)
              refl (omega (arith, v)))
        | inr (hi, m) ↦ rw m (
            written_low buf write_pos p pos_in (omega (arith, v)) t (write_pos + t - cap)
              (omega arith) (omega (arith, v)))
      ])

  -- After a short write the buffer holds, round from `start`, the old snapshot and then the write,
  -- up to what was overwritten.
  pub segments_round :
      (k : ℕ)
      → len + length p ≤ k + cap
      → k < len + length p
      → get_elem? segments ((start + k) % cap) ≡ get_elem? (snapshot r ++ p) k
  segments_round k old new = elim (Bool-cases (ltb k len)) [
    | inl e ↦ old_byte k old (ltb→lt k len e)
    | inr e ↦ new_byte k new (ground arith)
  ]
