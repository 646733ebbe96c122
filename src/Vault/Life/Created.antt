-- ===== src/Vault/Life/Created.antt =====
-- CreateWithParams, on every branch: a vault of an empty payload, or the directory as it was.
use wharf_tui.Base.{
  ◌<◌, ◌≡◌, refl, sym, true, false, Option, some, [], length, arith, Bool-cases, inl, inr, ◌∙◌,
}
use wharf_tui.Base.Text.{Str}
use wharf_tui.Base.Results.{Result, ok, err}
use wharf_tui.Vault.{Error, Params, valid_params}
use wharf_tui.Vault.Recovery.{encode_crockford}
use wharf_tui.Vault.Disk.{
  Bytes, World, Os, Action, pure, tick, unchanged, rand_read, call, acquire_lock, release_lock,
  on_error, ◌>>=◌, ◌>>◌,
}
use wharf_tui.Vault.Disk.Rules.{
  Ends, AndThen, Undone, Ends-bind, Ends-on_error, Ends-call, Ends-rand_read, Ends-acquire_lock,
}
use wharf_tui.Vault.Disk.Atomic.{Always, IsAsBefore}
use wharf_tui.Vault.Life.{
  Crypto, Vault, Slot, put_password, put_recovery, blank, fresh_slot, new_recovery, save, save_new,
  create_locked, create_with_params,
}
use wharf_tui.Vault.Life.Slots.{
  IsRandom, IsFresh, IsNewCode, fresh_slot-IsFresh, new_recovery-IsNewCode,
}
use wharf_tui.Vault.Life.Sealed.{
  IsLawful, IsSlotOf, IsUsable, put_password-IsUsable, put_recovery-IsUsable,
}
use wharf_tui.Vault.Life.Written.{Contents, IsOpen, IsStored, IsWritten, save-IsWritten}

-- A new vault.
abbrev pub empty_vault : Bytes → Bytes → Contents
empty_vault password secret = record { password = password; secret = secret; payload = [] }

blank-IsUsable :
    (p : Params) → valid_params p ≡ true → Params.parallelism p < 256 → IsUsable (blank p)
unfolding blank valid_params
blank-IsUsable p v l = record {
  sized = record {
    version_in = omega arith;
    kdf_in = omega arith;
    time_in = ground arith;
    memory_in = ground arith;
    parallelism_in = l;
    pw_salt_len = refl;
    pw_nonce_len = refl;
    pw_wrap_len = refl;
    rec_salt_len = refl;
    rec_nonce_len = refl;
    rec_wrap_len = refl;
    body_nonce_len = refl;
  };
  version_1 = refl;
  kdf_1 = refl;
  params_valid = v;
}

module _ (c : Crypto) (password : Bytes) (p : Params) (dek : Bytes) where
  new_vault : Slot → Slot → Vault
  new_vault pw recovery = record {
    hdr = put_recovery recovery (put_password pw (blank p));
    dek = some dek;
    payload = [];
    has_lock = true;
  }

  new_vault-IsOpen :
      (pw recovery : Slot) (secret : Bytes)
      → length dek ≡ 32
      → IsUsable (blank p)
      → IsSlotOf c pw password p dek
      → IsSlotOf c recovery secret p dek
      → IsOpen c (new_vault pw recovery) (empty_vault password secret)
  unfolding new_vault put_password blank
  new_vault-IsOpen pw recovery secret l i s t =
      let (usable1, opens1, _) = put_password-IsUsable c (blank p) pw password dek s i in
      let (usable2, opens2, others2) =
        put_recovery-IsUsable c (put_password pw (blank p)) recovery secret dek t usable1 in
      record {
        dek = dek;
        has_dek = refl;
        dek_len = l;
        usable = usable2;
        opens_with = (others2 password ∙ opens1, opens2);
        holds = refl;
      }

module _ (os : Os) (c : Crypto) (lawful : IsLawful c) (random : IsRandom os)
    (P : Option Bytes → Type 0) (w : World) (password : Bytes) where
  -- What a creation leaves: an open vault of the password and of the code that is given out, with
  -- nothing in it, and its file; or the file and the lock as they were.
  abbrev pub IsCreated : Result Error (Vault × Str) → World → Type 0
  IsCreated (ok (v, code)) w' =
      (secret : Bytes) × (length secret ≡ 25)
      × (code ≡ encode_crockford secret)
      × IsOpen c v (empty_vault password secret)
      × IsStored c (World.file w') (empty_vault password secret)
      × (World.is_locked w' ≡ World.is_locked w)
      × Always P w'
  IsCreated (err e) w' = IsAsBefore P w w'

  after_save_new :
      (secret : Bytes) (w1 : World) (r : Result Error (Unit {0})) (v' : Vault) (w' : World)
      → length secret ≡ 25
      → IsAsBefore P w w1
      → IsWritten c P w1 (empty_vault password secret) (empty_vault password secret) r v' w'
      → let pair = elim r as (λ _. Result Error Vault × World) [
        | err e ↦ (err e, w')
        | ok _ ↦ (ok v', w')
      ] in
        AndThen (λ v. pure (v, encode_crockford secret)) IsCreated pair.0 pair.1
  after_save_new secret w1 (ok _) v' w' l (same, lock, _) (i, s, lock', always) =
      (secret, l, refl, i, s, lock' ∙ lock, always)
  after_save_new secret w1 (err e) v' w' l (same, lock, _) (i, (same', lock', always)) =
      (same' ∙ same, lock' ∙ lock, always)

  module _ (p : Params) (usable : IsUsable (blank p))
      (new : (secret data' : Bytes)
        → IsStored c (some data') (empty_vault password secret)
        → P (some data')) where
    saved_new : Bytes → Slot → Bytes × Slot → Action (Vault × Str)
    saved_new dek pw (secret, recovery) =
        save_new os c (new_vault c password p dek pw recovery) >>= λ v.
        pure (v, encode_crockford secret)

    after_code :
        (dek : Bytes) (pw : Slot) (w0 : World) (r : Result Error (Bytes × Slot)) (w1 : World)
        → length dek ≡ 32
        → IsSlotOf c pw password p dek
        → IsAsBefore P w w0
        → IsNewCode c P w0 p dek r w1
        → AndThen (saved_new dek pw) IsCreated r w1
    unfolding saved_new save_new new_vault
    after_code dek pw w0 (err e) w1 l s (same, lock, _) (same', lock', always) =
        (same' ∙ same, lock' ∙ lock, always)
    after_code dek pw w0 (ok (secret, recovery)) w1 l s (same, lock, _)
          (ls, t, (same', lock', always)) =
        let v = new_vault c password p dek pw recovery in
        let k = empty_vault password secret in
        let saved = save os c (Vault.payload v) v w1 in
        Ends-bind (λ v. pure (v, encode_crockford secret)) IsCreated (save_new os c v) w1
          (after_save_new secret w1 saved.0 saved.1.0 saved.1.1 ls
            (same' ∙ same, lock' ∙ lock, always)
            (save-IsWritten os c lawful random P [] v w1 k
              (new_vault-IsOpen c password p dek pw recovery secret l usable s t) (new secret)
              always))

    with_code : Bytes → Slot → Action (Vault × Str)
    with_code dek pw = new_recovery os c p dek >>= saved_new dek pw

    after_password :
        (dek : Bytes) (r : Result Error Slot) (w1 : World)
        → length dek ≡ 32
        → IsFresh c P w p dek password r w1
        → AndThen (with_code dek) IsCreated r w1
    unfolding with_code
    after_password dek (err e) w1 l kept = kept
    after_password dek (ok pw) w1 l (s, kept) =
        let drawn = new_recovery os c p dek w1 in
        Ends-bind (saved_new dek pw) IsCreated (new_recovery os c p dek) w1 (
          after_code dek pw w1 drawn.0 drawn.1 l s kept
            (new_recovery-IsNewCode os c lawful random P w1 p dek l kept.2))

    with_dek : Bytes → Action (Vault × Str)
    with_dek dek = fresh_slot os c password p dek >>= with_code dek

    create_locked-IsCreated : Always P w → Ends (create_locked os c p password) IsCreated w
    unfolding create_locked with_dek with_code saved_new new_vault
    create_locked-IsCreated (now, before) =
        let dek = Os.random os (World.clock w) 32 in
        let l = random (World.clock w) 32 in
        let slot = fresh_slot os c password p dek (tick w) in
        Ends-bind with_dek IsCreated (rand_read os 32) w (
          Ends-rand_read os 32 (AndThen with_dek IsCreated) w (refl, refl, (now, (now, before)))
            (Ends-bind (with_code dek) IsCreated (fresh_slot os c password p dek) (tick w) (
              after_password dek slot.0 slot.1 l (
                fresh_slot-IsFresh os c lawful random P w p dek l password (tick w)
                  (refl, refl, (now, (now, before)))))))

module _ (os : Os) (c : Crypto) (P : Option Bytes → Type 0) (w : World) (password : Bytes) where
  -- A new vault and the lock, or all as it was.
  abbrev pub IsNew : Result Error (Vault × Str) → World → Type 0
  IsNew (ok (v, code)) w' =
      (secret : Bytes) × (length secret ≡ 25)
      × (code ≡ encode_crockford secret)
      × IsOpen c v (empty_vault password secret)
      × IsStored c (World.file w') (empty_vault password secret)
      × ((World.is_locked w ≡ false) × (World.is_locked w' ≡ true))
      × Always P w'
  IsNew (err e) w' = IsAsBefore P w w'

  after_create :
      (lawful : IsLawful c) (random : IsRandom os) (w1 : World) (r : Result Error (Vault × Str))
      (w' : World)
      → World.is_locked w ≡ false
      → World.is_locked w1 ≡ true
      → World.file w1 ≡ World.file w
      → IsCreated os c lawful random P w1 password r w'
      → Undone release_lock IsNew r w'
  unfolding release_lock
  after_create lawful random w1 (ok (v, code)) w' free held same
        (secret, l, e, i, s, lock, always) =
      (secret, l, e, i, s, (free, lock ∙ held), always)
  after_create lawful random w1 (err e) w' free held same (same', lock, (now, before)) =
      (same' ∙ same, sym free, (now, (now, before)))

  locked_creation : Params → Action (Vault × Str)
  locked_creation p = acquire_lock os >> on_error release_lock (create_locked os c p password)

  locked_creation-IsNew :
      (p : Params)
      → IsLawful c
      → IsRandom os
      → IsUsable (blank p)
      → ((secret data' : Bytes)
          → IsStored c (some data') (empty_vault password secret)
          → P (some data'))
      → Always P w
      → Ends (locked_creation p) IsNew (tick w)
  unfolding locked_creation
  locked_creation-IsNew p lawful random usable new (now, before) =
      let rest = on_error release_lock (create_locked os c p password) in
      let w1 = tick (record (tick (tick w)) { is_locked = true }) in
      let made = create_locked os c p password w1 in
      Ends-bind (λ _. rest) IsNew (acquire_lock os) (tick w)
        (Ends-acquire_lock os (AndThen (λ _. rest) IsNew) (tick w)
          (λ t f. (
            (refl, refl, (now, (now, (now, before)))),
            (refl, refl, (now, (now, (now, (now, before))))),
          ))
          (λ held. (refl, refl, (now, (now, (now, (now, before))))))
          (λ free. Ends-on_error release_lock IsNew (create_locked os c p password) w1 (
            after_create lawful random w1 made.0 made.1 free refl refl (
              create_locked-IsCreated os c lawful random P w1 password p usable new
                (now, (now, (now, (now, before))))))))

  -- Where the parameters are a byte's parallelism and whatever else, what is random fills its slice,
  -- and the laws of the ciphers hold: a creation leaves an open vault of the password and of the code
  -- that is given out, with an empty payload, in the file too, and it takes the lock, which was free;
  -- or it fails and leaves the file and the lock as they were. At every moment the file is in `P`, if
  -- the old file always was and every new vault of that password is.
  pub create-IsNew :
      (p : Params)
      → IsLawful c
      → IsRandom os
      → Params.parallelism p < 256
      → ((secret data' : Bytes)
          → IsStored c (some data') (empty_vault password secret)
          → P (some data'))
      → Always P w
      → Ends (create_with_params os c p password) IsNew w
  unfolding create_with_params locked_creation
  create-IsNew p lawful random par new (now, before) = elim (Bool-cases (valid_params p)) [
    | inl e ↦
        rw (create_with_params, e)
          (Ends-bind (λ _. locked_creation p) IsNew (call os unchanged unchanged) w
            (Ends-call os unchanged unchanged (AndThen (λ _. locked_creation p) IsNew) w
              (refl, refl, (now, (now, before)))
              (locked_creation-IsNew p lawful random (blank-IsUsable p e par) new (now, before))))
    | inr e ↦ rw (create_with_params, e) (refl, refl, (now, before))
  ]
