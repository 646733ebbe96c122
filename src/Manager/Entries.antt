-- ===== src/Manager/Entries.antt =====
-- What is expected of a registry of the manager: a list of entries, in the order in which their IDs
-- came.
use wharf_tui.Base.{
  ℕ, false, ◌≡◌, refl, ◌∙◌, subst, none, some, List, [], ◌∷◌, ◌++◌, map, if◌then◌else◌, Bool-cases,
  Option-cases, inl, inr,
}
use native.Mathlib.Omega.{arith}
use wharf_tui.Base.Text.{Str, str_eq, str_eq_refl, str_eq→eq, str_eq_iff}
use wharf_tui.Base.Dict.{Dict, lookup, erase, lookup-erase_other}
use wharf_tui.Manager.{cut, points_at, has_entry}

-- What is expected of a registry: the entries, in the order in which their IDs came.
unfoldable pub place : Str → ℕ → Dict ℕ → Dict ℕ
place id s [] = (id, s) ∷ []
place id s ((j, r) ∷ d) =
    let rest = place id s d in if str_eq j id then (j, s) ∷ d else (j, r) ∷ rest

unfoldable pub unplace : Str → ℕ → Dict ℕ → Dict ℕ
unplace id s d = if points_at (lookup id d) s then erase id d else d

abbrev pub ids : Dict ℕ → List Str
ids d = map (λ e. e.0) d

-- No ID has two entries.
abbrev pub IsDistinct : Dict ℕ → Type 0
IsDistinct [] = Unit
IsDistinct ((j, s) ∷ d) = (lookup j d ≡ none) × IsDistinct d

pub str_eq_flip : (i j : Str) → str_eq i j ≡ false → str_eq j i ≡ false
str_eq_flip i j h = ground (arith, str_eq_iff i j, str_eq_iff j i)

pub lookup-place_same : (id : Str) (s : ℕ) (d : Dict ℕ) → lookup id (place id s d) ≡ some s
unfolding place lookup
lookup-place_same id s [] = ground (arith, str_eq_refl id)
lookup-place_same id s ((j, r) ∷ d) = ground (arith, lookup-place_same id s d)

pub lookup-place_other :
    (id i : Str) (s : ℕ) (d : Dict ℕ) → str_eq id i ≡ false → lookup i (place id s d) ≡ lookup i d
unfolding place lookup
lookup-place_other id i s [] h = ground arith
lookup-place_other id i s ((j, r) ∷ d) h =
    ground (arith, lookup-place_other id i s d h, str_eq_iff j id)

pub ids-place :
    (id : Str) (s : ℕ) (d : Dict ℕ)
    → ids (place id s d) ≡ (if has_entry (lookup id d) then ids d else ids d ++ (id ∷ []))
unfolding place lookup
ids-place id s [] = refl
ids-place id s ((j, r) ∷ d) = elim (Bool-cases (str_eq j id)) [
  | inl e ↦ simp (place, lookup, e) refl
  | inr e ↦ elim (Option-cases (lookup id d)) [
    | inl f ↦ simp (place, lookup, e, f, ids-place id s d) refl
    | inr (x, f) ↦ simp (place, lookup, e, f, ids-place id s d) refl
  ]
]

pub place-IsDistinct : (id : Str) (s : ℕ) (d : Dict ℕ) → IsDistinct d → IsDistinct (place id s d)
unfolding place lookup
place-IsDistinct id s [] h = (refl, tt)
place-IsDistinct id s ((j, r) ∷ d) h = elim (Bool-cases (str_eq j id)) [
  | inl e ↦ simp (place, e) h
  | inr e ↦
      simp (place, e)
        (lookup-place_other id j s d (str_eq_flip j id e) ∙ h.0, place-IsDistinct id s d h.1)
]

erase_missing : (id : Str) (d : Dict ℕ) → lookup id d ≡ none → erase id d ≡ d
unfolding lookup erase
erase_missing id [] h = refl
erase_missing id ((j, r) ∷ d) h = ground (arith, erase_missing id d)

pub ids-erase : (id : Str) (d : Dict ℕ) → IsDistinct d → ids (erase id d) ≡ cut id (ids d)
unfolding lookup erase cut
ids-erase id [] h = refl
ids-erase id ((j, r) ∷ d) h = elim (Bool-cases (str_eq j id)) [
  | inl e ↦
      let none_left : lookup id d ≡ none = subst (λ k. lookup k d ≡ none) (str_eq→eq j id e) h.0 in
      simp (erase, cut, e, erase_missing id d none_left) refl
  | inr e ↦ simp (erase, cut, e, ids-erase id d h.1) refl
]

pub erase-IsDistinct : (id : Str) (d : Dict ℕ) → IsDistinct d → IsDistinct (erase id d)
unfolding erase
erase-IsDistinct id [] h = tt
erase-IsDistinct id ((j, r) ∷ d) h = elim (Bool-cases (str_eq j id)) [
  | inl e ↦ simp (erase, e) (erase-IsDistinct id d h.1)
  | inr e ↦
      simp (erase, e)
        (lookup-erase_other id j d (str_eq_flip j id e) ∙ h.0, erase-IsDistinct id d h.1)
]
