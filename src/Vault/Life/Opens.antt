-- ===== src/Vault/Life/Opens.antt =====
-- Open, OpenWithRecovery and OpenPayload: what they answer, and that a vault opens.
use wharf_tui.Base.{
  ℕ, ◌≡◌, refl, true, false, Option, none, some, length, if◌then◌else◌, inl, inr, sym, subst, ◌∙◌,
}
use wharf_tui.Base.Text.{Str, Unicode}
use wharf_tui.Base.Results.{Result, ok, err}
use wharf_tui.Vault.{Error, Header, not_found, locked}
use wharf_tui.Vault.Recovery.{encode_crockford}
use wharf_tui.Vault.Recovery.Digits.{AllBelow}
use wharf_tui.Vault.Recovery.Typed.{IsTyped, recovery_secret-typed}
use wharf_tui.Vault.Disk.{
  Bytes, World, Os, Action, tick, acquire_lock, release_lock, read_file, on_error, ◌>>=◌, ◌>>◌,
}
use wharf_tui.Vault.Disk.Rules.{
  Ends, AndThen, Undone, Ends-bind, Ends-on_error, Ends-acquire_lock, Ends-read_file, exists-cases,
}
use wharf_tui.Vault.Life.{
  Crypto, Vault, unwrap_password, unwrap_code, decrypt, of_result, open_vault, open_with_password,
  open_with_recovery,
}
use wharf_tui.Vault.Life.Sealed.{IsSealed, decrypt-IsSealed}
use wharf_tui.Vault.Life.Written.{Contents, IsOpen, IsStored}

-- A system on which no call fails.
abbrev pub IsSound : Os → Type 0
IsSound os = (t : ℕ) → Os.fails os t ≡ false

-- What opening answers where no call fails: that the file is missing, that another process has the
-- lock, or else what the bytes of the file give.
abbrev pub answer : Crypto → (Header → Option Bytes) → World → Result Error Vault
answer c unwrap w = elim (World.file w) [
  | none ↦ err not_found
  | some data' ↦ if World.is_locked w then err locked else decrypt c unwrap data'
]

contradiction {ℓ} : {A : Type ℓ} (os : Os) (t : ℕ) → IsSound os → Os.fails os t ≡ true → A
contradiction os t sound f = let no : true ≡ false = sym f ∙ sound t in cc

module _ (os : Os) (c : Crypto) (unwrap : Header → Option Bytes) (w : World) where
  -- The lock after an attempt to open: taken, or as it was.
  abbrev pub LockAfter {ℓ} : {A : Type ℓ} → Result Error A → World → Type 0
  LockAfter (ok _) w' = (World.is_locked w ≡ false) × (World.is_locked w' ≡ true)
  LockAfter (err _) w' = World.is_locked w' ≡ World.is_locked w

  abbrev pub IsOpened : Result Error Vault → World → Type 0
  IsOpened r w' =
      (World.file w' ≡ World.file w) × LockAfter r w' × (IsSound os → r ≡ answer c unwrap w)

  answer-gone : World.file w ≡ none → answer c unwrap w ≡ err not_found
  answer-gone e = cc

  answer-locked :
      (data' : Bytes)
      → World.file w ≡ some data'
      → World.is_locked w ≡ true
      → answer c unwrap w ≡ err locked
  answer-locked data' e l = cc

  answer-free :
      (data' : Bytes)
      → World.file w ≡ some data'
      → World.is_locked w ≡ false
      → answer c unwrap w ≡ decrypt c unwrap data'
  answer-free data' e l = cc

  after_decrypt :
      (r : Result Error Vault) (w' : World)
      → World.file w' ≡ World.file w
      → World.is_locked w ≡ false
      → World.is_locked w' ≡ true
      → answer c unwrap w ≡ r
      → Ends (of_result r) (Undone release_lock IsOpened) w'
  unfolding release_lock
  after_decrypt (ok v) w' same free held e = (same, (free, held), λ _. sym e)
  after_decrypt (err why) w' same free held e = (same, sym free, λ _. sym e)

  open_locked : Action Vault
  open_locked =
      acquire_lock os
      >> on_error release_lock (read_file os >>= λ data'. of_result (decrypt c unwrap data'))

  open_locked-IsOpened :
      (data' : Bytes) → World.file w ≡ some data' → Ends open_locked IsOpened (tick w)
  unfolding open_locked release_lock
  open_locked-IsOpened data' e =
      let read : Bytes → Action Vault = λ data'. of_result (decrypt c unwrap data') in
      let locked_rest = on_error release_lock (read_file os >>= read) in
      Ends-bind (λ _. locked_rest) IsOpened (acquire_lock os) (tick w)
        (Ends-acquire_lock os (AndThen (λ _. locked_rest) IsOpened) (tick w)
          (λ t f. (
            (refl, refl, λ sound. contradiction os t sound f),
            (refl, refl, λ sound. contradiction os t sound f),
          ))
          (λ held. (refl, refl, λ sound. sym (answer-locked data' e held)))
          (λ free.
            let w1 = tick (record (tick (tick w)) { is_locked = true }) in
            Ends-on_error release_lock IsOpened (read_file os >>= read) w1 (
              Ends-bind read (Undone release_lock IsOpened) (read_file os) w1 (
                Ends-read_file os (AndThen read (Undone release_lock IsOpened)) w1 (λ gone. cc)
                  (λ f. (refl, sym free, λ sound. contradiction os (World.clock w1) sound f))
                  (λ data' e.
                    after_decrypt (decrypt c unwrap data') (tick w1) refl free refl
                      (answer-free data' e free))))))

  pub open_vault-IsOpened : Ends (open_vault os c unwrap) IsOpened w
  unfolding open_vault open_locked
  open_vault-IsOpened = elim (exists-cases os w) [
    | inl (e, inl gone) ↦ rw (open_vault, e) (refl, refl, λ _. sym (answer-gone gone))
    | inl (e, inr fails) ↦
        rw (open_vault, e) (refl, refl, λ sound. contradiction os (World.clock w) sound fails)
    | inr (data', e, there) ↦ rw (open_vault, e) (open_locked-IsOpened data' there)
  ]

  -- On a system where no call fails, openVault answers what is to be answered, leaves the file as it
  -- was, and has the lock afterwards if and only if it opened the vault.
  pub open_vault-answer :
      IsSound os
      → let (r, w') = open_vault os c unwrap w in
        (r ≡ answer c unwrap w) × (World.file w' ≡ World.file w) × LockAfter r w'
  open_vault-answer sound = let (same, lock, e) = open_vault-IsOpened in (e sound, same, lock)

module _ (os : Os) (c : Crypto) (sound : IsSound os) (w : World) (k : Contents) where
  -- The vault is open, and this process has its lock.
  abbrev pub IsOpenedAs : Result Error Vault × World → Type 0
  IsOpenedAs (r, w') = (v : Vault) × (r ≡ ok v) × IsOpen c v k × (World.is_locked w' ≡ true)

  open_stored :
      (unwrap : Header → Option Bytes) (s : IsStored c (World.file w) k)
      → unwrap (IsStored.h s) ≡ some (IsStored.dek s)
      → World.is_locked w ≡ false
      → IsOpenedAs (open_vault os c unwrap w)
  open_stored unwrap s u free =
      let (e, same, lock) = open_vault-answer os c unwrap w sound in
      let v : Vault = record {
        hdr = IsStored.h s;
        dek = some (IsStored.dek s);
        payload = Contents.payload k;
        has_lock = true;
      } in
      let opened =
        e
        ∙ answer-free os c unwrap w (IsStored.data' s) (IsStored.there s) free
        ∙ decrypt-IsSealed c unwrap (IsStored.sealed s) u in
      (
        v,
        opened,
        record {
          dek = IsStored.dek s;
          has_dek = refl;
          dek_len = IsStored.dek_len s;
          usable = IsSealed.usable (IsStored.sealed s);
          opens_with = IsStored.opens_with s;
          holds = refl;
        },
        (subst (λ r. LockAfter os c unwrap w r (open_vault os c unwrap w).1) opened lock).1,
      )

  unwrap_typed :
      (u : Unicode) (typed : Str) (s : IsStored c (World.file w) k)
      → length (Contents.secret k) ≡ 25
      → AllBelow 256 (Contents.secret k)
      → IsTyped typed (encode_crockford (Contents.secret k))
      → unwrap_code c u typed (IsStored.h s) ≡ some (IsStored.dek s)
  unfolding unwrap_code
  unwrap_typed u typed s l b t =
      rw (unwrap_code, (recovery_secret-typed u (Contents.secret k) typed l b t).1)
        (IsStored.opens_with s).1

  -- A vault file of contents opens under their password, and under the recovery code of their secret
  -- in any spelling, where no call fails and no other process has the lock.
  pub open-stored :
      (u : Unicode) (typed : Str)
      → IsStored c (World.file w) k
      → World.is_locked w ≡ false
      → length (Contents.secret k) ≡ 25
      → AllBelow 256 (Contents.secret k)
      → IsTyped typed (encode_crockford (Contents.secret k))
      → IsOpenedAs (open_with_password os c (Contents.password k) w)
        × IsOpenedAs (open_with_recovery os c u typed w)
  unfolding open_with_password open_with_recovery
  open-stored u typed s free l b t = (
    open_stored (unwrap_password c (Contents.password k)) s ((IsStored.opens_with s).0) free,
    open_stored (unwrap_code c u typed) s (unwrap_typed u typed s l b t) free,
  )
