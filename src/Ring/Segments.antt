-- ===== src/Ring/Segments.antt =====
-- The two segments of a short write: what they leave at each index of the buffer.
use wharf_tui.Base.{
  ℕ, ◌+◌, ◌-◌, ◌≤◌, ◌<◌, min, ◌≡◌, ◌∙◌, ap, ◌⊎◌, inl, inr, arith, Bool-cases, ltb, lt→ltb, List,
  length, get_elem?, drop, length-drop, get_elem?-drop,
}
use wharf_tui.Ring.{write_segments}
use wharf_tui.Ring.Copy.{
  copy_at, length-copy_at, get_elem?-copy_at_in, get_elem?-copy_at_before, get_elem?-copy_at_after,
}

module _ (buf : List ℕ) (wp : ℕ) (p : List ℕ) where
  pub length-write_segments : length (write_segments buf wp p) ≡ length buf
  unfolding write_segments
  length-write_segments =
      let n1 = min (length buf - wp) (length p) in
      ground (arith, length-copy_at buf wp p, length-copy_at (copy_at buf wp p) 0 (drop n1 p))

module _ (buf : List ℕ) (wp : ℕ) (p : List ℕ) (at : wp < length buf)
    (fits : length p < length buf) where
  abbrev pub n1 : ℕ
  n1 = min (length buf - wp) (length p)

  abbrev pub first : List ℕ
  first = copy_at buf wp p

  in_rest : length (drop n1 p) ≡ length p - n1
  in_rest = length-drop n1 p

  -- Byte `t` of the write, where it has not gone round the end of the buffer.
  pub written_high :
      (t j : ℕ)
      → t < length p
      → j ≡ wp + t
      → j < length buf
      → get_elem? (write_segments buf wp p) j ≡ get_elem? p t
  unfolding write_segments
  written_high t j h e k =
      let once : get_elem? first j ≡ get_elem? p t = get_elem?-copy_at_in buf wp p j t e h k in
      elim (Bool-cases (ltb n1 (length p))) [
        | inl more ↦
            rw more (get_elem?-copy_at_after first 0 (drop n1 p) j (omega (arith, in_rest)) ∙ once)
        | inr done ↦ rw done once
      ]

  -- The same, where it has.
  pub written_low :
      (t j : ℕ)
      → t < length p
      → j + length buf ≡ wp + t
      → get_elem? (write_segments buf wp p) j ≡ get_elem? p t
  unfolding write_segments
  written_low t j h e = rw (lt→ltb n1 (length p) (omega arith)) (
      get_elem?-copy_at_in first 0 (drop n1 p) j j (omega arith) (omega (arith, in_rest))
        (omega (arith, length-copy_at buf wp p))
      ∙ get_elem?-drop n1 p j
      ∙ ap (get_elem? p) (omega arith))

  -- A byte that the write does not reach.
  pub kept :
      (j : ℕ)
      → (j < wp) × (wp + length p ≤ j + length buf) ⊎ (wp + length p ≤ j)
      → get_elem? (write_segments buf wp p) j ≡ get_elem? buf j
  unfolding write_segments
  kept j (inl (h, k)) =
      let once : get_elem? first j ≡ get_elem? buf j = get_elem?-copy_at_before buf wp p j h in
      elim (Bool-cases (ltb n1 (length p))) [
        | inl more ↦
            rw more (get_elem?-copy_at_after first 0 (drop n1 p) j (omega (arith, in_rest)) ∙ once)
        | inr done ↦ rw done once
      ]
  kept j (inr h) =
      let once : get_elem? first j ≡ get_elem? buf j = get_elem?-copy_at_after buf wp p j h in
      elim (Bool-cases (ltb n1 (length p))) [
        | inl more ↦
            rw more (get_elem?-copy_at_after first 0 (drop n1 p) j (omega (arith, in_rest)) ∙ once)
        | inr done ↦ rw done once
      ]
