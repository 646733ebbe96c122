-- ===== src/Vault/Life/Slots.antt =====
-- The slot that ChangePassword, RegenerateRecovery and Create draw, on every branch.
use wharf_tui.Base.{ℕ, ◌≡◌, refl, Option, [], length, arith, ◌∙◌}
use wharf_tui.Base.Results.{Result, ok, err}
use wharf_tui.Vault.{Error, bad_key, Params}
use wharf_tui.Vault.Recovery.{recovery_secret_len}
use wharf_tui.Vault.Disk.{Bytes, World, Os, Action, pure, tick, rand_read, ◌>>=◌}
use wharf_tui.Vault.Disk.Rules.{Ends, AndThen, Ends-bind, Ends-rand_read}
use wharf_tui.Vault.Disk.Atomic.{Always, IsAsBefore}
use wharf_tui.Vault.Life.{Crypto, Slot, wrap_dek, unwrap_dek, or_raise, fresh_slot, new_recovery}
use wharf_tui.Vault.Life.Sealed.{IsLawful, IsSlotOf}

-- rand.Read fills the slice that it is given.
abbrev pub IsRandom : Os → Type 0
IsRandom os = (t n : ℕ) → length (Os.random os t n) ≡ n

module _ (c : Crypto) (P : Option Bytes → Type 0) (w : World) (p : Params) (dek : Bytes) where
  abbrev pub IsFresh : Bytes → Result Error Slot → World → Type 0
  IsFresh secret (ok slot) w' = IsSlotOf c slot secret p dek × IsAsBefore P w w'
  IsFresh secret (err e) w' = IsAsBefore P w w'

  abbrev pub IsNewCode : Result Error (Bytes × Slot) → World → Type 0
  IsNewCode (ok (secret, slot)) w' =
      (length secret ≡ recovery_secret_len) × IsSlotOf c slot secret p dek × IsAsBefore P w w'
  IsNewCode (err e) w' = IsAsBefore P w w'

module _ (os : Os) (c : Crypto) (lawful : IsLawful c) (random : IsRandom os)
    (P : Option Bytes → Type 0) (w : World) (p : Params) (dek : Bytes) (l : length dek ≡ 32) where
  wrap_with : Bytes → Bytes → Bytes → Action Slot
  wrap_with secret salt nonce =
      or_raise (wrap_dek c (Crypto.derive_kek c secret salt p) nonce dek) bad_key >>= λ wrap.
      pure (record { salt = salt; nonce = nonce; wrap = wrap })

  wrap_with-IsFresh :
      (secret salt nonce : Bytes) (w' : World)
      → length salt ≡ 16
      → length nonce ≡ 24
      → IsAsBefore P w w'
      → Ends (wrap_with secret salt nonce) (IsFresh c P w p dek secret) w'
  unfolding wrap_with wrap_dek unwrap_dek
  wrap_with-IsFresh secret salt nonce w' ls ln kept =
      let (wrap, e, lw, opens) =
        IsLawful.seals lawful (Crypto.derive_kek c secret salt p) nonce dek []
          (IsLawful.kek_len lawful secret salt p) ln in
      rw e (
        record { salt_len = ls; nonce_len = ln; wrap_len = lw ∙ omega (arith, l); gives = opens },
        kept,
      )

  pub fresh_slot-IsFresh :
      (secret : Bytes) (w' : World)
      → IsAsBefore P w w'
      → Ends (fresh_slot os c secret p dek) (IsFresh c P w p dek secret) w'
  unfolding fresh_slot wrap_with
  fresh_slot-IsFresh secret w' (same, lock, (now, before)) =
      let Q = IsFresh c P w p dek secret in
      let salt = Os.random os (World.clock w') 16 in
      let nonce = Os.random os (World.clock (tick w')) 24 in
      Ends-bind (λ salt. rand_read os 24 >>= wrap_with secret salt) Q (rand_read os 16) w'
        (Ends-rand_read os 16 (AndThen (λ salt. rand_read os 24 >>= wrap_with secret salt) Q) w'
          (same, lock, (now, (now, before)))
          (Ends-bind (wrap_with secret salt) Q (rand_read os 24) (tick w') (
            Ends-rand_read os 24 (AndThen (wrap_with secret salt) Q) (tick w')
              (same, lock, (now, (now, (now, before))))
              (wrap_with-IsFresh secret salt nonce (tick (tick w')) (random (World.clock w') 16)
                (random (World.clock (tick w')) 24) (same, lock, (now, (now, (now, before))))))))

  with_secret :
      (secret : Bytes) (r : Result Error Slot) (w' : World)
      → length secret ≡ recovery_secret_len
      → IsFresh c P w p dek secret r w'
      → AndThen (λ slot. pure (secret, slot)) (IsNewCode c P w p dek) r w'
  with_secret secret (ok slot) w' ls (s, kept) = (ls, s, kept)
  with_secret secret (err e) w' ls kept = kept

  pub new_recovery-IsNewCode : Always P w → Ends (new_recovery os c p dek) (IsNewCode c P w p dek) w
  unfolding new_recovery
  new_recovery-IsNewCode (now, before) =
      let Q = IsNewCode c P w p dek in
      let secret = Os.random os (World.clock w) recovery_secret_len in
      let rest : Bytes → Action (Bytes × Slot) =
        λ secret. fresh_slot os c secret p dek >>= λ slot. pure (secret, slot) in
      Ends-bind rest Q (rand_read os recovery_secret_len) w (
        Ends-rand_read os recovery_secret_len (AndThen rest Q) w (refl, refl, (now, (now, before)))
          (Ends-bind (λ slot. pure (secret, slot)) Q (fresh_slot os c secret p dek) (tick w)
            (with_secret secret (fresh_slot os c secret p dek (tick w)).0
              (fresh_slot os c secret p dek (tick w)).1 (random (World.clock w) recovery_secret_len)
              (fresh_slot-IsFresh secret (tick w) (refl, refl, (now, (now, before)))))))
