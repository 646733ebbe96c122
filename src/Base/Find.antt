-- ===== src/Base/Find.antt =====
-- Searching a slice for the first entry that passes a test, removing the entry at an index, and
-- slices whose entries have different keys.
use Prim.Native.Nat.{ℕ, zero, suc}
use mathlib.Core.Path.{◌≡◌, refl}
use mathlib.Core.Bool.{Bool, true, false, ◌||◌}
use mathlib.Core.List.{List, [], ◌∷◌, ◌++◌, map}
use mathlib.Core.Option.{Option, none, some}
use native.Mathlib.Omega.{arith}
use wharf_tui.Base.Tests.{if◌then◌else◌}
use wharf_tui.Base.Lists.{get_elem?, set}
use wharf_tui.Base.Text.{Str, str_eq, str_eq_iff}

abbrev pub bump : Option ℕ → Option ℕ
bump none = none
bump (some i) = some (suc i)

module _ {ℓ} {A : Type ℓ} where
  -- The index of the first entry that passes; `none` stands for Go's -1.
  unfoldable pub index_where : (A → Bool) → List A → Option ℕ
  index_where p [] = none
  index_where p (x ∷ xs) = if p x then some 0 else bump (index_where p xs)

  unfoldable pub any : (A → Bool) → List A → Bool
  any p [] = false
  any p (x ∷ xs) = p x || any p xs

  -- `append(s[:i], s[i+1:]...)`
  unfoldable pub remove_at : ℕ → List A → List A
  remove_at i [] = []
  remove_at zero (x ∷ xs) = xs
  remove_at (suc i) (x ∷ xs) = x ∷ remove_at i xs

module _ {ℓ} {A : Type ℓ} (p : A → Bool) where
  pub index_where-none : (xs : List A) → index_where p xs ≡ none → any p xs ≡ false
  unfolding index_where any
  index_where-none [] h = refl
  index_where-none (x ∷ xs) h = ground (arith, index_where-none xs)

  pub index_where-of_any : (xs : List A) → any p xs ≡ false → index_where p xs ≡ none
  unfolding index_where any
  index_where-of_any [] h = refl
  index_where-of_any (x ∷ xs) h = ground (arith, index_where-of_any xs)

  -- A hit has an entry there, and the entry passes.
  pub index_where-some :
      (xs : List A) (i : ℕ)
      → index_where p xs ≡ some i
      → (x : A) × (get_elem? xs i ≡ some x) × (p x ≡ true)
  unfolding index_where
  index_where-some [] i h = cc
  index_where-some (x ∷ xs) zero h = (x, refl, ground arith)
  index_where-some (x ∷ xs) (suc i) h = index_where-some xs i (ground arith)

  pub any-append : (xs ys : List A) → any p (xs ++ ys) ≡ any p xs || any p ys
  unfolding any
  any-append [] ys = refl
  any-append (x ∷ xs) ys = ground (arith, any-append xs ys)

-- No entry of the slice has the key `k`, and no two entries have one key.
module _ {ℓ} {A : Type ℓ} (key : A → Str) where
  unfoldable pub taken : Str → List A → Bool
  taken k [] = false
  taken k (x ∷ xs) = str_eq (key x) k || taken k xs

  abbrev pub IsDistinct : List A → Type 0
  IsDistinct [] = Unit
  IsDistinct (x ∷ xs) = (taken (key x) xs ≡ false) × IsDistinct xs

  pub taken-append : (k : Str) (xs ys : List A) → taken k (xs ++ ys) ≡ (taken k xs || taken k ys)
  unfolding taken
  taken-append k [] ys = refl
  taken-append k (x ∷ xs) ys = ground (arith, taken-append k xs ys)

  -- An entry with a key that is not taken may be appended.
  pub IsDistinct-snoc :
      (xs : List A) (y : A) → taken (key y) xs ≡ false → IsDistinct xs → IsDistinct (xs ++ (y ∷ []))
  unfolding taken
  IsDistinct-snoc [] y h d = (refl, tt)
  IsDistinct-snoc (x ∷ xs) y h d = (
    ground (
      arith,
      taken-append (key x) xs (y ∷ []),
      str_eq_iff (key x) (key y),
      str_eq_iff (key y) (key x),
      d.0,
    ),
    IsDistinct-snoc xs y (ground arith) d.1,
  )

  pub taken-remove_at :
      (k : Str) (i : ℕ) (xs : List A) → taken k xs ≡ false → taken k (remove_at i xs) ≡ false
  unfolding taken remove_at
  taken-remove_at k i [] h = refl
  taken-remove_at k zero (x ∷ xs) h = ground arith
  taken-remove_at k (suc i) (x ∷ xs) h = ground (arith, taken-remove_at k i xs)

  pub IsDistinct-remove_at : (i : ℕ) (xs : List A) → IsDistinct xs → IsDistinct (remove_at i xs)
  unfolding remove_at
  IsDistinct-remove_at i [] d = tt
  IsDistinct-remove_at zero (x ∷ xs) d = d.1
  IsDistinct-remove_at (suc i) (x ∷ xs) d =
      (taken-remove_at (key x) i xs d.0, IsDistinct-remove_at i xs d.1)

  -- Where an entry is overwritten, only its own new key is added.
  pub taken-set :
      (k : Str) (i : ℕ) (xs : List A) (y : A)
      → taken k (remove_at i xs) ≡ false
      → str_eq (key y) k ≡ false
      → taken k (set xs i y) ≡ false
  unfolding taken remove_at
  taken-set k i [] y h e = refl
  taken-set k zero (x ∷ xs) y h e = ground arith
  taken-set k (suc i) (x ∷ xs) y h e = ground (arith, taken-set k i xs y)

  pub IsDistinct-set :
      (i : ℕ) (xs : List A) (y : A)
      → taken (key y) (remove_at i xs) ≡ false
      → IsDistinct xs
      → IsDistinct (set xs i y)
  unfolding taken remove_at
  IsDistinct-set i [] y h d = tt
  IsDistinct-set zero (x ∷ xs) y h d = (h, d.1)
  IsDistinct-set (suc i) (x ∷ xs) y h d = (
    taken-set (key x) i xs y (taken-remove_at (key x) i xs d.0)
        (ground (arith, str_eq_iff (key x) (key y), str_eq_iff (key y) (key x))),
    IsDistinct-set i xs y (ground arith) d.1,
  )

-- Every entry of the slice satisfies `P`.
abbrev pub All {ℓ κ} : {A : Type ℓ} → (A → Type κ) → List A → Type κ
All P [] = Unit
All P (x ∷ xs) = P x × All P xs

pub All-append {ℓ κ} :
    {A : Type ℓ} (P : A → Type κ) (xs ys : List A) → All P xs → All P ys → All P (xs ++ ys)
All-append P [] ys hx hy = hy
All-append P (x ∷ xs) ys hx hy = (hx.0, All-append P xs ys hx.1 hy)

pub All-map {ℓ κ} :
    {A : Type ℓ} (P Q : A → Type κ) (f : A → A)
    → ((x : A) → P x → Q (f x))
    → (xs : List A) → All P xs
    → All Q (map f xs)
All-map P Q f h [] a = tt
All-map P Q f h (x ∷ xs) a = (h x a.0, All-map P Q f h xs a.1)

-- A change of the entries that leaves their keys alone.
module _ {ℓ} {A : Type ℓ} (key : A → Str) (f : A → A) (same : (x : A) → key (f x) ≡ key x) where
  pub taken-map : (k : Str) (xs : List A) → taken key k (map f xs) ≡ taken key k xs
  unfolding taken
  taken-map k [] = refl
  taken-map k (x ∷ xs) = rw (same x, taken-map k xs)

  pub IsDistinct-map : (xs : List A) → IsDistinct key xs → IsDistinct key (map f xs)
  IsDistinct-map [] d = tt
  IsDistinct-map (x ∷ xs) d = (rw (same x, taken-map (key x) xs) (d.0), IsDistinct-map xs d.1)
