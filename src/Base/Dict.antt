-- ===== src/Base/Dict.antt =====
-- Go maps with string keys, as lists of entries in the order in which a loop over the map would find
-- them. Go leaves that order open; what holds for every list holds for every order.
use mathlib.Core.Path.{◌≡◌, refl}
use mathlib.Core.Bool.{false}
use mathlib.Core.List.{List, [], ◌∷◌}
use mathlib.Core.Option.{Option, none, some}
use native.Mathlib.Omega.{arith}
use wharf_tui.Base.Tests.{if◌then◌else◌}
use wharf_tui.Base.Text.{Str, str_eq, str_eq_refl, str_eq_iff}

abbrev pub Dict {ℓ} : Type ℓ → Type ℓ
Dict A = List (Str × A)

module _ {ℓ} {A : Type ℓ} where
  unfoldable pub lookup : Str → Dict A → Option A
  lookup k [] = none
  lookup k ((j, a) ∷ d) = if str_eq j k then some a else lookup k d

  unfoldable pub erase : Str → Dict A → Dict A
  erase k [] = []
  erase k ((j, a) ∷ d) = let rest = erase k d in if str_eq j k then rest else (j, a) ∷ rest

  -- d[k] = a
  unfoldable pub insert : Str → A → Dict A → Dict A
  insert k a d = (k, a) ∷ erase k d

  pub lookup-erase_same : (k : Str) (d : Dict A) → lookup k (erase k d) ≡ none
  unfolding lookup erase
  lookup-erase_same k [] = refl
  lookup-erase_same k ((j, a) ∷ d) = ground (arith, lookup-erase_same k d)

  pub lookup-erase_other :
      (k i : Str) (d : Dict A) → str_eq k i ≡ false → lookup i (erase k d) ≡ lookup i d
  unfolding lookup erase
  lookup-erase_other k i [] h = refl
  lookup-erase_other k i ((j, a) ∷ d) h =
      ground (arith, lookup-erase_other k i d h, str_eq_iff j k, str_eq_iff j i, str_eq_iff k i)

  pub lookup-insert_same : (k : Str) (a : A) (d : Dict A) → lookup k (insert k a d) ≡ some a
  unfolding lookup insert
  lookup-insert_same k a d = ground (arith, str_eq_refl k)

  pub lookup-insert_other :
      (k i : Str) (a : A) (d : Dict A) → str_eq k i ≡ false → lookup i (insert k a d) ≡ lookup i d
  unfolding lookup insert
  lookup-insert_other k i a d h = ground (arith, lookup-erase_other k i d h)
