-- ===== src/DetachKey/Bindable.antt =====
-- What a hotkey can be bound to.
use wharf_tui.Base.{
  ℕ, false, ◌≡◌, ◌≢◌, ◌↔◌, ◌⊎◌, inl, inr, refl, ◌∙◌, ap, sym, subst, none, some, List, [], ◌∷◌,
  ==_iff, Bool-cases, Option-cases, arith,
}
use wharf_tui.Base.Text.{Str, codes, str_eq, str_eq→eq, Unicode, to_lower, trim_space, trim_left}
use wharf_tui.Base.Results.{Result, ok, err, Result-cases, ok-injective}
use wharf_tui.DetachKey.{
  Binding, detach, remote_access, other, allowed, reserved, entry, Refusal, reserved_key, name_of,
  resolve_name, parse, byte_of, parse_against,
}

-- A predicate holds of every entry of a table.
abbrev AllEntries {ℓ} : {A : Type ℓ} → (Str → A → Type ℓ) → List (Str × A) → Type ℓ
AllEntries P [] = Unit
AllEntries P ((key, val) ∷ table) = P key val × AllEntries P table

entry-AllEntries {ℓ} :
    {A : Type ℓ} (P : Str → A → Type ℓ) (table : List (Str × A)) (name : Str) {val : A}
    → AllEntries P table
    → entry table name ≡ some val
    → P name val
unfolding entry
entry-AllEntries P [] name a h = absurd (ground arith)
entry-AllEntries P ((key, v) ∷ table) name {val} a h = elim (Bool-cases (str_eq key name)) [
  | inl e ↦ let k : v ≡ val = ground arith in rw (sym (str_eq→eq key name e), sym k) a.0
  | inr e ↦ entry-AllEntries P table name a.1 (ground arith)
]

-- One of the two bindings that there are.
abbrev pub IsHotkey : Binding → Type 0
IsHotkey b = (b ≡ detach) ⊎ (b ≡ remote_access)

module _ (u : Unicode) where
  -- A bindable key is the name of its byte, and resolves to it.
  abbrev IsPaired : Binding → Str → ℕ → Type 0
  IsPaired b n v = (name_of b v ≡ n) × (parse u b n ≡ ok v)

  allowed-IsPaired : (b : Binding) → AllEntries (IsPaired b) allowed
  unfolding name_of parse to_lower trim_space trim_left entry str_eq
  allowed-IsPaired b = ground arith

  -- Name and Parse are inverse on the table of bindable keys: such a key is the name of its byte, and
  -- resolves to it, for either binding.
  pub parse-name_of :
      (b : Binding) (name : Str) (v : ℕ)
      → entry allowed name ≡ some v
      → (name_of b v ≡ name) × (parse u b name ≡ ok v)
  parse-name_of b name v h = entry-AllEntries (IsPaired b) allowed name (allowed-IsPaired b) h

  -- A reserved key is not in the other table, and not empty.
  abbrev IsApart : Str → Str → Type 0
  IsApart n why = (entry allowed n ≡ none) × (str_eq n [] ≡ false)

  reserved-IsApart : AllEntries IsApart reserved
  unfolding entry str_eq
  reserved-IsApart = ground arith

  -- A reserved key, in any case and with any space around it, is refused for its reason.
  pub parse-reserved :
      (b : Binding) (name why : Str)
      → entry reserved (to_lower u (trim_space u name)) ≡ some why
      → parse u b name ≡ err (reserved_key (to_lower u (trim_space u name)) why)
  unfolding parse
  parse-reserved b name why h =
      let (free, full) =
        entry-AllEntries IsApart reserved (to_lower u (trim_space u name)) reserved-IsApart h in
      rw full (rw (free, resolve_name) (rw (h, resolve_name) refl))

  default_byte-IsBindable :
      (b : Binding) → IsHotkey b → (n : Str) × (entry allowed n ≡ some (Binding.default_byte b))
  unfolding entry str_eq
  default_byte-IsBindable b (inl e) = (codes "ctrl+\\", rw e refl)
  default_byte-IsBindable b (inr e) = (codes "ctrl+]", rw e refl)

  resolve_name-IsBindable :
      (b : Binding) (n : Str) {v : ℕ} → resolve_name u b n ≡ ok v → entry allowed n ≡ some v
  unfolding resolve_name
  resolve_name-IsBindable b n h = elim (Option-cases (entry allowed n)) [
    | inr (w, e) ↦ ground (arith, rw (e, resolve_name) at h)
    | inl e ↦ elim (Option-cases (entry reserved n)) [
      | inr (w, f) ↦ absurd (ground (arith, rw (e, resolve_name, f) at h))
      | inl f ↦ absurd (ground (arith, rw (e, resolve_name, f) at h))
    ]
  ]

  parse-IsBindable :
      (b : Binding) (name : Str) {v : ℕ}
      → IsHotkey b
      → parse u b name ≡ ok v
      → (n : Str) × (entry allowed n ≡ some v)
  unfolding parse
  parse-IsBindable b name {v} hot h =
      elim (Bool-cases (str_eq (to_lower u (trim_space u name)) [])) [
        | inl e ↦
            let (n, k) = default_byte-IsBindable b hot in
            let w : Binding.default_byte b ≡ v = ground (arith, rw e at h) in (n, k ∙ ap some w)
        | inr e ↦ (
          to_lower u (trim_space u name),
          resolve_name-IsBindable b (to_lower u (trim_space u name)) (rw e at h),
        )
      ]

  byte_of-resolved :
      (b : Binding) (name : Str) (r : Result Refusal ℕ)
      → IsHotkey b
      → parse u b name ≡ r
      → (n : Str) × (entry allowed n ≡ some (byte_of u b name))
  unfolding byte_of
  byte_of-resolved b name (err e) hot h = rw (h, byte_of) (default_byte-IsBindable b hot)
  byte_of-resolved b name (ok v) hot h = rw (h, byte_of) (parse-IsBindable b name hot h)

  -- Whatever the stored name is, Byte gives a bindable byte: the session can always be left.
  pub byte_of-IsBindable :
      (b : Binding) (name : Str)
      → IsHotkey b
      → (n : Str) × (entry allowed n ≡ some (byte_of u b name))
  byte_of-IsBindable b name hot = byte_of-resolved b name (parse u b name) hot refl

  -- A byte that the other hotkey does not have: that one has the byte that its name resolves to, or
  -- its default where its name is refused.
  abbrev pub IsUnbound : Binding → Str → ℕ → Type 0
  IsUnbound b name v =
      (w : ℕ) × (v ≢ w)
      × ((parse u b name ≡ ok w)
          ⊎ ((why : Refusal) × (parse u b name ≡ err why) × (w ≡ Binding.default_byte b)))

  byte_of-cases : (b : Binding) (name : Str) (v : ℕ) → (v ≢ byte_of u b name) ↔ IsUnbound b name v
  unfolding byte_of
  byte_of-cases b name v = elim (Result-cases (parse u b name)) [
    | inl (why, e) ↦ (
      λ n. (Binding.default_byte b, rw (byte_of, e) at n, inr (why, e, refl)),
      λ (w, n, c). elim c [
        | inl f ↦ absurd (cc)
        | inr (why', f, q) ↦ rw (byte_of, e) (subst (λ x. v ≢ x) q n)
      ],
    )
    | inr (x, e) ↦ (
      λ n. (x, rw (byte_of, e) at n, inl e),
      λ (w, n, c). elim c [
        | inl f ↦
            let same : x ≡ w = ok-injective (sym e ∙ f) in
            rw (byte_of, e) (subst (λ y. v ≢ y) (sym same) n)
        | inr (why', f, q) ↦ absurd (cc)
      ],
    )
  ]

  parse_against-unless :
      (b o : Binding) (name other_name : Str) (v : ℕ)
      → other b ≡ o
      → (parse_against u b name other_name ≡ ok v)
        ↔ ((parse u b name ≡ ok v) × (v ≢ byte_of u o other_name))
  unfolding parse_against
  parse_against-unless b o name other_name v e =
      rw (sym e) (ground (arith, ==_iff v (byte_of u (other b) other_name)))

  -- ParseAgainst accepts a name for one of the two hotkeys, as a byte, exactly when Parse does and the
  -- other of the two does not have that byte, be it by its name or by its default.
  pub parse_against_iff :
      (name other_name : Str) (v : ℕ)
      → ((parse_against u detach name other_name ≡ ok v)
          ↔ ((parse u detach name ≡ ok v) × IsUnbound remote_access other_name v))
        × ((parse_against u remote_access name other_name ≡ ok v)
            ↔ ((parse u remote_access name ≡ ok v) × IsUnbound detach other_name v))
  unfolding other
  parse_against_iff name other_name v =
      let (to, from) = parse_against-unless detach remote_access name other_name v refl in
      let (to', from') = parse_against-unless remote_access detach name other_name v refl in
      let (split, join) = byte_of-cases remote_access other_name v in
      let (split', join') = byte_of-cases detach other_name v in
      (
        (λ h. let (p, n) = to h in (p, split n), λ h. from (h.0, join h.1)),
        (λ h. let (p, n) = to' h in (p, split' n), λ h. from' (h.0, join' h.1)),
      )
