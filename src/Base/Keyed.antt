-- ===== src/Base/Keyed.antt =====
-- Slices that are searched by a string key: what a search finds after an entry is appended,
-- overwritten or removed.
use wharf_tui.Base.Tests.{if◌then◌else◌}
use wharf_tui.Base.Lists.{get_elem?, set}
use wharf_tui.Base.Text.{Str, str_eq, str_eq_iff}
use wharf_tui.Base.Find.{index_where, bump, remove_at, taken, IsDistinct}
use Prim.Native.Nat.{ℕ, zero, suc}
use mathlib.Core.Path.{◌≡◌, refl}
use mathlib.Core.Logic.{◌≢◌}
use mathlib.Core.Bool.{true, false}
use mathlib.Core.List.{List, [], ◌∷◌, ◌++◌}
use mathlib.Core.Option.{Option, none, some}
use native.Mathlib.Omega.{arith}

module _ {ℓ} {A : Type ℓ} (key : A → Str) where
  abbrev pub index_of : List A → Str → Option ℕ
  index_of xs k = index_where (λ x. str_eq (key x) k) xs

  -- The entry at an index that may be Go's -1.
  abbrev pub at_index : List A → Option ℕ → Option A
  at_index xs none = none
  at_index xs (some i) = get_elem? xs i

  -- The first entry with the key.
  unfoldable pub find : List A → Str → Option A
  find [] k = none
  find (x ∷ xs) k = if str_eq (key x) k then some x else find xs k

  at_index-bump : (x : A) (xs : List A) (o : Option ℕ) → at_index (x ∷ xs) (bump o) ≡ at_index xs o
  at_index-bump x xs none = refl
  at_index-bump x xs (some i) = refl

  pub find-eq-at_index : (xs : List A) (k : Str) → find xs k ≡ at_index xs (index_of xs k)
  unfolding find index_where
  find-eq-at_index [] k = refl
  find-eq-at_index (x ∷ xs) k =
      ground (arith, find-eq-at_index xs k, at_index-bump x xs (index_of xs k))

  pub find-none : (xs : List A) (k : Str) → taken key k xs ≡ false → find xs k ≡ none
  unfolding find taken
  find-none [] k h = refl
  find-none (x ∷ xs) k h = ground (arith, find-none xs k)

  pub taken-of_index_none : (xs : List A) (k : Str) → index_of xs k ≡ none → taken key k xs ≡ false
  unfolding index_where taken
  taken-of_index_none [] k h = refl
  taken-of_index_none (x ∷ xs) k h = ground (arith, taken-of_index_none xs k)

  pub taken-of_index_some :
      (xs : List A) (k : Str) (i : ℕ) → index_of xs k ≡ some i → taken key k xs ≡ true
  unfolding index_where taken
  taken-of_index_some [] k i h = cc
  taken-of_index_some (x ∷ xs) k zero h = ground arith
  taken-of_index_some (x ∷ xs) k (suc i) h = ground (arith, taken-of_index_some xs k i)

  -- With one entry to a key, removing that entry frees the key.
  pub taken-remove_at_index :
      (xs : List A) (k : Str) (i : ℕ)
      → IsDistinct key xs
      → index_of xs k ≡ some i
      → taken key k (remove_at i xs) ≡ false
  unfolding index_where taken remove_at
  taken-remove_at_index [] k i d h = refl
  taken-remove_at_index (x ∷ xs) k zero d h = ground (arith, d.0, str_eq_iff (key x) k)
  taken-remove_at_index (x ∷ xs) k (suc i) d h = ground (arith, taken-remove_at_index xs k i d.1)

  pub find-remove_at :
      (xs : List A) (k j : Str) (i : ℕ)
      → index_of xs k ≡ some i
      → j ≢ k
      → find (remove_at i xs) j ≡ find xs j
  unfolding index_where find remove_at
  find-remove_at [] k j i h n = refl
  find-remove_at (x ∷ xs) k j zero h n = ground (arith, str_eq_iff (key x) k, str_eq_iff (key x) j)
  find-remove_at (x ∷ xs) k j (suc i) h n = ground (arith, find-remove_at xs k j i)

  pub find-set :
      (xs : List A) (k j : Str) (i : ℕ) (y : A)
      → index_of xs k ≡ some i
      → key y ≡ k
      → find (set xs i y) j ≡ (if str_eq k j then some y else find xs j)
  unfolding index_where find
  find-set [] k j i y h e = cc
  find-set (x ∷ xs) k j zero y h e =
      ground (arith, str_eq_iff (key x) k, str_eq_iff (key x) j, str_eq_iff k j)
  find-set (x ∷ xs) k j (suc i) y h e =
      ground
        (arith, find-set xs k j i y, str_eq_iff (key x) k, str_eq_iff (key x) j, str_eq_iff k j)

  pub find-snoc :
      (xs : List A) (y : A) (j : Str)
      → taken key (key y) xs ≡ false
      → find (xs ++ (y ∷ [])) j ≡ (if str_eq (key y) j then some y else find xs j)
  unfolding find taken
  find-snoc [] y j h = refl
  find-snoc (x ∷ xs) y j h = ground (
    arith,
    find-snoc xs y j,
    str_eq_iff (key x) (key y),
    str_eq_iff (key x) j,
    str_eq_iff (key y) j,
  )

  pub taken-remove_at_ne :
      (xs : List A) (k j : Str) (i : ℕ)
      → index_of xs k ≡ some i
      → j ≢ k
      → taken key j (remove_at i xs) ≡ taken key j xs
  unfolding index_where taken remove_at
  taken-remove_at_ne [] k j i h n = refl
  taken-remove_at_ne (x ∷ xs) k j zero h n =
      ground (arith, str_eq_iff (key x) k, str_eq_iff (key x) j)
  taken-remove_at_ne (x ∷ xs) k j (suc i) h n = ground (arith, taken-remove_at_ne xs k j i)
