-- ===== src/Ring/Index.antt =====
-- Which byte of the buffer stands at each index of a snapshot.
use native.Mathlib.Nat.{mod-eq_of_lt, mod-eq-sub-mod}
use wharf_tui.Base.{
  ℕ, ◌+◌, ◌-◌, ◌%◌, true, false, ◌≤◌, ◌<◌, ◌≡◌, ◌∙◌, ap, ◌⊎◌, inl, inr, arith, Bool-cases, leb,
  leb→le, length, get_elem?, take, drop, replicate, length-take, length-drop, length-replicate,
  get_elem?-take, get_elem?-drop,
}
use wharf_tui.Ring.{Ring, snapshot, IsValid}
use wharf_tui.Ring.Copy.{copy_at, length-copy_at, get_elem?-copy_at_in, get_elem?-copy_at_before}

-- A number below twice the capacity, reduced.
pub mod_once : (a c : ℕ) → a < c + c → ((a < c) × (a % c ≡ a)) ⊎ ((c ≤ a) × (a % c ≡ a - c))
mod_once a c h = elim (Bool-cases (leb c a)) [
  | inl p ↦ inr (
    ground arith,
    omega (
      arith,
      mod-eq-sub-mod {n = a} {m = c} (ground arith),
      mod-eq_of_lt {n = a - c} {m = c} (omega arith),
    ),
  )
  | inr p ↦ inl (ground arith, mod-eq_of_lt (ground arith))
]

-- `make([]byte, n)`
length-blank : (n : ℕ) → length (replicate {A = ℕ} n 0) ≡ n
length-blank n = length-replicate n 0

pub length-snapshot : (r : Ring) → length (snapshot r) ≡ r.len
unfolding snapshot
length-snapshot r = ground (
  arith,
  length-copy_at (replicate r.len 0) 0 (take r.len (drop r.start r.buf)),
  length-copy_at (replicate r.len 0) 0 (drop r.start r.buf),
  length-copy_at (copy_at (replicate r.len 0) 0 (drop r.start r.buf)) (r.cap - r.start)
      (take (r.len - (r.cap - r.start)) r.buf),
  length-blank r.len,
)

module _ (r : Ring) (v : IsValid r) (i : ℕ) (h : i < r.len) where
  open r use {buf, cap, start, len}

  -- The snapshot is one segment.
  straight : leb len (cap - start) ≡ true → get_elem? (snapshot r) i ≡ get_elem? buf (start + i)
  unfolding snapshot
  straight e = rw e (
      get_elem?-copy_at_in (replicate len 0) 0 (take len (drop start buf)) i i (omega arith)
        (omega (
          arith,
          v,
          leb→le len (cap - start) e,
          length-take len (drop start buf),
          length-drop start buf,
        ))
        (omega (arith, length-blank len))
      ∙ get_elem?-take len (drop start buf) i h
      ∙ get_elem?-drop start buf i)

  -- It is two segments, and the index lies in the first.
  wrapped_first :
      leb len (cap - start) ≡ false
      → start + i < cap
      → get_elem? (snapshot r) i ≡ get_elem? buf (start + i)
  unfolding snapshot
  wrapped_first e k = rw e (
      get_elem?-copy_at_before (copy_at (replicate len 0) 0 (drop start buf)) (cap - start)
        (take (len - (cap - start)) buf) i (omega arith)
      ∙ get_elem?-copy_at_in (replicate len 0) 0 (drop start buf) i i (omega arith)
          (omega (arith, v, length-drop start buf)) (omega (arith, length-blank len))
      ∙ get_elem?-drop start buf i)

  wrapped_rest :
      leb len (cap - start) ≡ false
      → cap ≤ start + i
      → get_elem? (snapshot r) i ≡ get_elem? buf (start + i - cap)
  unfolding snapshot
  wrapped_rest e k = rw e (
      get_elem?-copy_at_in (copy_at (replicate len 0) 0 (drop start buf)) (cap - start)
        (take (len - (cap - start)) buf) i (i - (cap - start)) (omega arith)
        (omega (arith, v, length-take (len - (cap - start)) buf))
        (omega (arith, length-blank len, length-copy_at (replicate len 0) 0 (drop start buf)))
      ∙ get_elem?-take (len - (cap - start)) buf (i - (cap - start)) (omega arith)
      ∙ ap (get_elem? buf) (omega (arith, v)))

  -- Byte `i` of a snapshot is the one `i` places round the ring from `start`.
  pub get_elem?-snapshot : get_elem? (snapshot r) i ≡ get_elem? buf ((start + i) % cap)
  get_elem?-snapshot = elim (mod_once (start + i) cap (omega (arith, v))) [
    | inl (k, m) ↦ rw m (elim (Bool-cases (leb len (cap - start))) [
      | inl e ↦ straight e
      | inr e ↦ wrapped_first e k
    ])
    | inr (k, m) ↦ rw m (elim (Bool-cases (leb len (cap - start))) [
      | inl e ↦ absurd (omega (arith, v, leb→le len (cap - start) e))
      | inr e ↦ wrapped_rest e k
    ])
  ]
