-- ===== src/Base/Text.antt =====
-- Go strings as lists of code points, with the functions of the packages strings and unicode that
-- the program calls on them. Beyond ASCII the case and space tables are those of a parameter.
use Prim.Native.Nat.{ℕ, ◌+◌, ◌-◌}
use Prim.Native.Char.{code}
use Prim.Native.String.{String}
use mathlib.Core.Path.{◌≡◌, refl}
use mathlib.Core.Logic.{◌↔◌}
use mathlib.Core.Bool.{Bool, true, false, ◌&&◌, ◌||◌}
use mathlib.Core.List.{List, [], ◌∷◌, map}
use native.Mathlib.Omega.{arith}
use wharf_tui.Base.Tests.{ltb, leb, ◌==◌, if◌then◌else◌}

abbrev pub Str : Type 0
Str = List ℕ

-- The code points of a literal.
abbrev pub codes : String → Str
codes String.[] = []
codes (String.◌∷◌ c s) = code c ∷ codes s

unfoldable pub str_eq : Str → Str → Bool
str_eq [] [] = true
str_eq [] (_ ∷ _) = false
str_eq (_ ∷ _) [] = false
str_eq (x ∷ xs) (y ∷ ys) = (x == y) && str_eq xs ys

pub str_eq_refl : (s : Str) → str_eq s s ≡ true
unfolding str_eq
str_eq_refl [] = refl
str_eq_refl (x ∷ xs) = ground (arith, str_eq_refl xs)

pub str_eq→eq : (s t : Str) → str_eq s t ≡ true → s ≡ t
unfolding str_eq
str_eq→eq [] [] h = refl
str_eq→eq [] (y ∷ ys) h = cc
str_eq→eq (x ∷ xs) [] h = cc
str_eq→eq (x ∷ xs) (y ∷ ys) h = ground (arith, str_eq→eq xs ys)

pub str_eq_iff : (s t : Str) → (str_eq s t ≡ true) ↔ (s ≡ t)
str_eq_iff s t = (str_eq→eq s t, λ e. rw e (str_eq_refl t))

-- unicode.ToLower, unicode.ToUpper and unicode.IsSpace above ASCII.
pub record Unicode : Type 0 where
  pub lower : ℕ → ℕ
  pub upper : ℕ → ℕ
  pub space : ℕ → Bool

module _ (u : Unicode) where
  unfoldable pub lower_rune : ℕ → ℕ
  lower_rune r = if leb b'A' r && leb r b'Z' then r + 32 else if ltb r 128 then r else u.lower r

  -- strings.ToLower
  unfoldable pub to_lower : Str → Str
  unfolding lower_rune
  to_lower = map lower_rune

  unfoldable pub upper_rune : ℕ → ℕ
  upper_rune r = if leb b'a' r && leb r b'z' then r - 32 else if ltb r 128 then r else u.upper r

  -- strings.ToUpper
  unfoldable pub to_upper : Str → Str
  unfolding upper_rune
  to_upper = map upper_rune

  unfoldable pub is_space : ℕ → Bool
  is_space r = if ltb r 128 then (leb 9 r && leb r 13) || (r == 32) else u.space r

  unfoldable pub trim_left : Str → Str
  unfolding is_space
  trim_left [] = []
  trim_left (r ∷ s) = if is_space r then trim_left s else r ∷ s

  unfoldable pub trim_right : Str → Str
  unfolding is_space
  trim_right [] = []
  trim_right (r ∷ s) = elim (trim_right s) [
    | [] ↦ if is_space r then [] else r ∷ []
    | x ∷ t ↦ r ∷ x ∷ t
  ]

  -- strings.TrimSpace
  unfoldable pub trim_space : Str → Str
  unfolding trim_left trim_right
  trim_space s = trim_right (trim_left s)

-- strings.HasPrefix
unfoldable pub has_prefix : Str → Str → Bool
has_prefix s [] = true
has_prefix [] (_ ∷ _) = false
has_prefix (x ∷ s) (y ∷ t) = (x == y) && has_prefix s t

-- No letter and no space above ASCII, for the tests.
abbrev pub ascii : Unicode
ascii = record { lower = λ r. r; upper = λ r. r; space = λ _. false }
