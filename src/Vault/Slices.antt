-- ===== src/Vault/Slices.antt =====
-- Slices of a concatenation, and little-endian integers.
use wharf_tui.Base.{
  ℕ, zero, suc, ◌+◌, ◌-◌, ◌<◌, ◌≡◌, refl, ◌∙◌, ap, ap₂, sym, List, [], ◌∷◌, ◌++◌, arith, length,
  take, drop, concat, some, get_elem?, append_assoc, append-nil, length-append, take-append_left,
}
use wharf_tui.Vault.{put_uint, uint, slice}

-- The length of the first `i` segments.
unfoldable pub offset : List (List ℕ) → ℕ → ℕ
offset segs zero = 0
offset [] (suc i) = 0
offset (s ∷ segs) (suc i) = length s + offset segs i

slice-skip :
    (s xs : List ℕ) (lo hi : ℕ) → slice (length s + lo) (length s + hi) (s ++ xs) ≡ slice lo hi xs
unfolding slice
slice-skip [] xs lo hi =
    ap₂ take {x = 0 + hi - (0 + lo)} (omega arith) (ap (λ n. drop n xs) (omega arith))
slice-skip (x ∷ s) xs lo hi =
    let e : suc (length s) + lo ≡ suc (length s + lo) = omega arith in
    let d : suc (length s) + hi - suc (length s + lo) ≡ length s + hi - (length s + lo) =
      omega arith in
    rw (e, d) (slice-skip s xs lo hi)

slice-here : (s xs : List ℕ) → slice 0 (length s) (s ++ xs) ≡ s
unfolding slice
slice-here s xs = let e : length s - 0 ≡ length s = omega arith in rw e (take-append_left s xs)

-- The slice from the offset of a segment, of its length, is the segment.
slice-offset :
    (segs : List (List ℕ)) (i : ℕ) (s : List ℕ)
    → get_elem? segs i ≡ some s
    → slice (offset segs i) (offset segs i + length s) (concat segs) ≡ s
unfolding offset concat
slice-offset [] i s h = absurd (ground arith)
slice-offset (t ∷ segs) zero s h =
    let e : t ≡ s = ground arith in
    let n : 0 + length s ≡ length s = omega arith in rw (e, n) (slice-here s (concat segs))
slice-offset (t ∷ segs) (suc i) s h =
    let e : length t + offset segs i + length s ≡ length t + (offset segs i + length s) =
      omega arith in
    rw e (
      slice-skip t (concat segs) (offset segs i) (offset segs i + length s)
      ∙ slice-offset segs i s h)

pub slice-concat :
    (segs : List (List ℕ)) (i : ℕ) (s : List ℕ) (lo hi : ℕ)
    → get_elem? segs i ≡ some s
    → lo ≡ offset segs i
    → hi ≡ offset segs i + length s
    → slice lo hi (concat segs) ≡ s
slice-concat segs i s lo hi h l r = rw (l, r) (slice-offset segs i s h)

pub length-concat : (segs : List (List ℕ)) → length (concat segs) ≡ offset segs (length segs)
unfolding concat offset
length-concat [] = refl
length-concat (s ∷ segs) = omega (arith, length-append s (concat segs), length-concat segs)

pub concat-snoc : (segs : List (List ℕ)) (s : List ℕ) → concat (segs ++ (s ∷ [])) ≡ concat segs ++ s
unfolding concat
concat-snoc [] s = append-nil s
concat-snoc (t ∷ segs) s =
    ap (λ l. t ++ l) (concat-snoc segs s) ∙ sym (append_assoc t (concat segs) s)

pub uint-put_uint_2 : (n : ℕ) → n < 65536 → uint (put_uint 2 n) ≡ n
unfolding uint put_uint
uint-put_uint_2 n h = omega arith

pub uint-put_uint_4 : (n : ℕ) → n < 4294967296 → uint (put_uint 4 n) ≡ n
unfolding uint put_uint
uint-put_uint_4 n h = omega arith

pub uint_byte : (b : ℕ) → uint (b ∷ []) ≡ b
unfolding uint
uint_byte b = omega arith
