-- ===== src/Vault/Life/Installed.antt =====
-- InstallBlob, on every branch: the blob verbatim and opened, or the directory as it was.
use wharf_tui.Base.{◌≡◌, refl, sym, true, false, Option, some, ◌∙◌}
use wharf_tui.Base.Results.{Result, ok, err}
use wharf_tui.Vault.{Error}
use wharf_tui.Vault.Disk.{
  Bytes, World, Os, pure, tick, unchanged, call, acquire_lock, release_lock, on_error,
  write_file_atomic, ◌>>=◌, ◌>>◌,
}
use wharf_tui.Vault.Disk.Rules.{
  Ends, AndThen, Undone, Ends-bind, Ends-on_error, Ends-call, Ends-acquire_lock,
}
use wharf_tui.Vault.Disk.Atomic.{Always, IsAsBefore, IsReplaced, write_file_atomic-IsReplaced}
use wharf_tui.Vault.Life.{Crypto, Vault, unwrap_password, decrypt, of_result, install_blob}

module _ (os : Os) (c : Crypto) (P : Option Bytes → Type 0) (w : World)
    (blob password : Bytes) where
  -- The vault of the blob and the lock, with the blob itself in the file; or all as it was.
  abbrev pub IsInstalled : Result Error Vault → World → Type 0
  IsInstalled (ok v) w' =
      (decrypt c (unwrap_password c password) blob ≡ ok v)
      × (World.file w' ≡ some blob)
      × ((World.is_locked w ≡ false) × (World.is_locked w' ≡ true))
      × Always P w'
  IsInstalled (err e) w' = IsAsBefore P w w'

  after_write :
      (v : Vault) (w1 : World) (r : Result Error (Unit {0})) (w' : World)
      → decrypt c (unwrap_password c password) blob ≡ ok v
      → World.is_locked w ≡ false
      → World.is_locked w1 ≡ true
      → World.file w1 ≡ World.file w
      → IsReplaced P blob w1 r w'
      → Undone release_lock (AndThen (λ _. pure v) IsInstalled) r w'
  unfolding release_lock
  after_write v w1 (ok _) w' d free held same (there, lock, always) =
      (d, there, (free, lock ∙ held), always)
  after_write v w1 (err e) w' d free held same (same', lock, (now, before)) =
      (same' ∙ same, sym free, (now, (now, before)))

  after_decrypt :
      (r : Result Error Vault)
      → decrypt c (unwrap_password c password) blob ≡ r
      → P (some blob)
      → Always P w
      → Ends
          (of_result r >>= λ v.
            call os unchanged unchanged
            >> (acquire_lock os >> (on_error release_lock (write_file_atomic os blob) >> pure v)))
          IsInstalled
          w
  after_decrypt (err e) d new always = (refl, refl, always)
  after_decrypt (ok v) d new (now, before) =
      let write = on_error release_lock (write_file_atomic os blob) in
      let rest = acquire_lock os >> (write >> pure v) in
      let w1 = tick (record (tick (tick w)) { is_locked = true }) in
      let written = write_file_atomic os blob w1 in
      Ends-bind (λ _. rest) IsInstalled (call os unchanged unchanged) w
        (Ends-call os unchanged unchanged (AndThen (λ _. rest) IsInstalled) w
          (refl, refl, (now, (now, before)))
          (Ends-bind (λ _. write >> pure v) IsInstalled (acquire_lock os) (tick w)
            (Ends-acquire_lock os (AndThen (λ _. write >> pure v) IsInstalled) (tick w)
              (λ t f. (
                (refl, refl, (now, (now, (now, before)))),
                (refl, refl, (now, (now, (now, (now, before))))),
              ))
              (λ held. (refl, refl, (now, (now, (now, (now, before))))))
              (λ free.
                Ends-bind (λ _. pure v) IsInstalled write w1
                  (Ends-on_error release_lock (AndThen (λ _. pure v) IsInstalled)
                    (write_file_atomic os blob) w1
                    (after_write v w1 written.0 written.1 d free refl refl (
                      write_file_atomic-IsReplaced os P blob w1 new
                        (now, (now, (now, (now, before)))))))))))

  -- An installation answers the vault that the blob is under the password, holds the lock, which was
  -- free, and the file is the blob itself; or it fails and leaves the file and the lock as they were.
  -- At every moment the file is in `P`, if the old file always was and the blob is.
  pub install_blob-IsInstalled :
      P (some blob) → Always P w → Ends (install_blob os c blob password) IsInstalled w
  unfolding install_blob
  install_blob-IsInstalled new always =
      after_decrypt (decrypt c (unwrap_password c password) blob) refl new always
