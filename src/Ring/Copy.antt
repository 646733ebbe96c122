-- ===== src/Ring/Copy.antt =====
-- Go's `copy(dst[off:], src)`: what it leaves at each index.
use wharf_tui.Base.{
  ℕ, zero, suc, ◌+◌, ◌≤◌, ◌<◌, ◌≡◌, refl, ap, List, [], ◌∷◌, arith, length, get_elem?,
}

-- It stops at the end of the shorter slice.
unfoldable pub copy_at {ℓ} : {A : Type ℓ} → List A → ℕ → List A → List A
copy_at [] off src = []
copy_at (x ∷ dst) (suc off) src = x ∷ copy_at dst off src
copy_at (x ∷ dst) zero [] = x ∷ dst
copy_at (x ∷ dst) zero (y ∷ src) = y ∷ copy_at dst zero src

module _ {ℓ} {A : Type ℓ} where
  pub length-copy_at :
      (dst : List A) (off : ℕ) (src : List A) → length (copy_at dst off src) ≡ length dst
  unfolding copy_at
  length-copy_at [] off src = refl
  length-copy_at (x ∷ dst) (suc off) src = ap suc (length-copy_at dst off src)
  length-copy_at (x ∷ dst) zero [] = refl
  length-copy_at (x ∷ dst) zero (y ∷ src) = ap suc (length-copy_at dst zero src)

  pub get_elem?-copy_at_in :
      (dst : List A) (off : ℕ) (src : List A) (j k : ℕ)
      → j ≡ off + k
      → k < length src
      → j < length dst
      → get_elem? (copy_at dst off src) j ≡ get_elem? src k
  unfolding copy_at
  get_elem?-copy_at_in [] off src j k e h l = absurd (omega arith)
  get_elem?-copy_at_in (x ∷ dst) (suc off) src zero k e h l = absurd (omega arith)
  get_elem?-copy_at_in (x ∷ dst) (suc off) src (suc j) k e h l =
      get_elem?-copy_at_in dst off src j k (omega arith) h (omega arith)
  get_elem?-copy_at_in (x ∷ dst) zero [] j k e h l = absurd (omega arith)
  get_elem?-copy_at_in (x ∷ dst) zero (y ∷ src) zero zero e h l = refl
  get_elem?-copy_at_in (x ∷ dst) zero (y ∷ src) zero (suc k) e h l = absurd (omega arith)
  get_elem?-copy_at_in (x ∷ dst) zero (y ∷ src) (suc j) zero e h l = absurd (omega arith)
  get_elem?-copy_at_in (x ∷ dst) zero (y ∷ src) (suc j) (suc k) e h l =
      get_elem?-copy_at_in dst zero src j k (omega arith) (omega arith) (omega arith)

  pub get_elem?-copy_at_before :
      (dst : List A) (off : ℕ) (src : List A) (j : ℕ)
      → j < off
      → get_elem? (copy_at dst off src) j ≡ get_elem? dst j
  unfolding copy_at
  get_elem?-copy_at_before [] off src j h = refl
  get_elem?-copy_at_before (x ∷ dst) (suc off) src zero h = refl
  get_elem?-copy_at_before (x ∷ dst) (suc off) src (suc j) h =
      get_elem?-copy_at_before dst off src j (omega arith)
  get_elem?-copy_at_before (x ∷ dst) zero src j h = absurd (omega arith)

  pub get_elem?-copy_at_after :
      (dst : List A) (off : ℕ) (src : List A) (j : ℕ)
      → off + length src ≤ j
      → get_elem? (copy_at dst off src) j ≡ get_elem? dst j
  unfolding copy_at
  get_elem?-copy_at_after [] off src j h = refl
  get_elem?-copy_at_after (x ∷ dst) (suc off) src zero h = absurd (omega arith)
  get_elem?-copy_at_after (x ∷ dst) (suc off) src (suc j) h =
      get_elem?-copy_at_after dst off src j (omega arith)
  get_elem?-copy_at_after (x ∷ dst) zero [] j h = refl
  get_elem?-copy_at_after (x ∷ dst) zero (y ∷ src) zero h = absurd (omega arith)
  get_elem?-copy_at_after (x ∷ dst) zero (y ∷ src) (suc j) h =
      get_elem?-copy_at_after dst zero src j (omega arith)
