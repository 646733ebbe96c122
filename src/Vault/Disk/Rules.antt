-- ===== src/Vault/Disk/Rules.antt =====
-- Rules to prove what a sequence of calls leaves, one call at a time.
use wharf_tui.Base.{
  ℕ, ◌≡◌, refl, Bool, true, false, Bool-cases, Option, none, some, Option-cases, ◌⊎◌, inl, inr,
  subst, sym, if◌then◌else◌,
}
use wharf_tui.Base.Results.{Result, ok, err}
use wharf_tui.Vault.{Error, os_error, not_found, locked}
use wharf_tui.Vault.Disk.{
  Bytes, World, Os, Action, pure, raise, ◌>>=◌, on_error, tick, call, rand_read, acquire_lock,
  unchanged, read_file, exists,
}

module _ {ℓ} {A : Type ℓ} where
  -- The action ends with a result and a world that are in `Q`.
  abbrev pub Ends : Action A → (Result Error A → World → Type 0) → World → Type 0
  Ends m Q w = Q (m w).0 (m w).1

  abbrev pub AndThen {κ} :
      {B : Type κ}
      → (A → Action B)
      → (Result Error B → World → Type 0)
      → Result Error A
      → World
      → Type 0
  AndThen f Q (ok a) w = Q (f a w).0 (f a w).1
  AndThen f Q (err e) w = Q (err e) w

  abbrev pub Undone :
      (World → World) → (Result Error A → World → Type 0) → Result Error A → World → Type 0
  Undone undo Q (ok a) w = Q (ok a) w
  Undone undo Q (err e) w = Q (err e) (undo w)

-- The rules for `>>=` and `on_error`: what is to be shown of the rest is the claim on the first part.
module _ {ℓ κ} {A : Type ℓ} {B : Type κ} (f : A → Action B)
    (Q : Result Error B → World → Type 0) where
  then_at : (r : Result Error A) (w : World) → AndThen f Q r w → Ends ((λ _. (r, w)) >>= f) Q w
  then_at (ok a) w h = h
  then_at (err e) w h = h

  pub Ends-bind : (m : Action A) (w : World) → Ends m (AndThen f Q) w → Ends (m >>= f) Q w
  Ends-bind m w h = then_at (m w).0 (m w).1 h

module _ {ℓ} {A : Type ℓ} (undo : World → World) (Q : Result Error A → World → Type 0) where
  undone_at :
      (r : Result Error A) (w : World) → Undone undo Q r w → Ends (on_error undo (λ _. (r, w))) Q w
  undone_at (ok a) w h = h
  undone_at (err e) w h = h

  pub Ends-on_error :
      (m : Action A) (w : World) → Ends m (Undone undo Q) w → Ends (on_error undo m) Q w
  Ends-on_error m w h = undone_at (m w).0 (m w).1 h

module _ (os : Os) where
  pub Ends-call :
      (partly done : World → World) (Q : Result Error (Unit {0}) → World → Type 0) (w : World)
      → Q (err os_error) (tick (partly w))
      → Q (ok tt) (tick (done w))
      → Ends (call os partly done) Q w
  unfolding call
  Ends-call partly done Q w fails works = elim (Bool-cases (Os.fails os (World.clock w))) [
    | inl e ↦ rw (e, call) fails
    | inr e ↦ rw (e, call) works
  ]

  pub Ends-rand_read :
      (n : ℕ) (Q : Result Error Bytes → World → Type 0) (w : World)
      → Q (err os_error) (tick w)
      → Q (ok (Os.random os (World.clock w) n)) (tick w)
      → Ends (rand_read os n) Q w
  unfolding rand_read
  Ends-rand_read n Q w fails works = elim (Bool-cases (Os.fails os (World.clock w))) [
    | inl e ↦ rw (e, rand_read) fails
    | inr e ↦ rw (e, rand_read) works
  ]

  -- Whether random bytes could be had.
  pub rand_read-cases :
      (n : ℕ) (w : World)
      → (rand_read os n w ≡ (err os_error, tick w))
        ⊎ (rand_read os n w ≡ (ok (Os.random os (World.clock w) n), tick w))
  unfolding rand_read
  rand_read-cases n w = elim (Bool-cases (Os.fails os (World.clock w))) [
    | inl e ↦ inl (rw (e, rand_read) refl)
    | inr e ↦ inr (rw (e, rand_read) refl)
  ]

  -- The same with the reason: a call fails only when the system says so.
  pub Ends-call_if :
      (partly done : World → World) (Q : Result Error (Unit {0}) → World → Type 0) (w : World)
      → (Os.fails os (World.clock w) ≡ true → Q (err os_error) (tick (partly w)))
      → Q (ok tt) (tick (done w))
      → Ends (call os partly done) Q w
  unfolding call
  Ends-call_if partly done Q w fails works = elim (Bool-cases (Os.fails os (World.clock w))) [
    | inl e ↦ rw (e, call) (fails e)
    | inr e ↦ rw (e, call) works
  ]

  -- The lock: no sidecar, held by another process, not to be had, or taken.
  pub Ends-acquire_lock :
      (Q : Result Error (Unit {0}) → World → Type 0) (w : World)
      → ((t : ℕ)
          → Os.fails os t ≡ true
          → Q (err os_error) (tick w) × Q (err os_error) (tick (tick w)))
      → (World.is_locked w ≡ true → Q (err locked) (tick (tick w)))
      → (World.is_locked w ≡ false → Q (ok tt) (tick (record (tick w) { is_locked = true })))
      → Ends (acquire_lock os) Q w
  unfolding acquire_lock
  Ends-acquire_lock Q w fails held free =
      let rest : Unit {0} → Action (Unit {0}) = λ _ w.
        if World.is_locked w
        then raise locked (tick w)
        else call os unchanged (λ w. record w { is_locked = true }) w in
      Ends-bind rest Q (call os unchanged unchanged) w (
        Ends-call_if unchanged unchanged (AndThen rest Q) w (λ e. (fails (World.clock w) e).0)
          (elim (Bool-cases (World.is_locked w)) [
            | inl e ↦
                subst
                  (λ b.
                    let (r, w') =
                      if b
                      then raise locked (tick (tick w))
                      else call os unchanged (λ w. record w { is_locked = true }) (tick w) in
                    Q r w')
                  (sym e) (held e)
            | inr e ↦
                subst
                  (λ b.
                    let (r, w') =
                      if b
                      then raise locked (tick (tick w))
                      else call os unchanged (λ w. record w { is_locked = true }) (tick w) in
                    Q r w')
                  (sym e)
                  (Ends-call_if unchanged (λ w. record w { is_locked = true }) Q (tick w)
                    (λ f. (fails (World.clock (tick w)) f).1) (free e))
          ]))

  -- Reading the vault file: gone, unreadable, or read.
  pub Ends-read_file :
      (Q : Result Error Bytes → World → Type 0) (w : World)
      → (World.file w ≡ none → Q (err not_found) (tick w))
      → (Os.fails os (World.clock w) ≡ true → Q (err os_error) (tick w))
      → ((data' : Bytes) → World.file w ≡ some data' → Q (ok data') (tick w))
      → Ends (read_file os) Q w
  unfolding read_file
  Ends-read_file Q w gone fails works =
      let answer : Option Bytes → Bool → Result Error Bytes × World = λ f b. elim f [
        | none ↦ raise not_found (tick w)
        | some data' ↦ if b then raise os_error (tick w) else pure data' (tick w)
      ] in
      let from : Option Bytes → Type 0 = λ f.
        Q (answer f (Os.fails os (World.clock w))).0 (answer f (Os.fails os (World.clock w))).1 in
      let from_read : (data' : Bytes) → Bool → Type 0 =
        λ data' b. Q (answer (some data') b).0 (answer (some data') b).1 in
      elim (Option-cases (World.file w)) [
        | inl e ↦ subst from (sym e) (gone e)
        | inr (data', e) ↦ subst from (sym e) (elim (Bool-cases (Os.fails os (World.clock w))) [
          | inl f ↦ subst (from_read data') (sym f) (fails f)
          | inr f ↦ subst (from_read data') (sym f) (works data' e)
        ])
      ]

  -- Whether the file is seen.
  pub exists-cases :
      (w : World)
      → (exists os w ≡ (false, tick w))
          × ((World.file w ≡ none) ⊎ (Os.fails os (World.clock w) ≡ true))
        ⊎ ((data' : Bytes) × (exists os w ≡ (true, tick w)) × (World.file w ≡ some data'))
  unfolding exists
  exists-cases w = elim (Bool-cases (Os.fails os (World.clock w))) [
    | inl f ↦ inl (rw (exists, f) refl, inr f)
    | inr f ↦ elim (Option-cases (World.file w)) [
      | inl e ↦ inl (simp (exists, f, e) refl, inl e)
      | inr (data', e) ↦ inr (data', simp (exists, f, e) refl, e)
    ]
  ]
