-- ===== src/Vault/Life.antt =====
-- internal/vault/vault.go: a vault is created, opened, saved, given a new password or recovery code,
-- and closed. The key derivation and the ciphers of x/crypto are the parameter `Crypto`.
pub mod Sealed
pub mod Slots
pub mod Opens
pub mod Created
pub mod Installed
pub mod Written
pub mod Changed
pub mod Refines
mod Tests
use wharf_tui.Base.{
  ℕ, zero, suc, Bool, true, false, not, Option, none, some, List, [], ◌∷◌, ◌++◌, if◌then◌else◌,
  take, drop, length, replicate,
}
use wharf_tui.Base.Text.{Str, Unicode}
use wharf_tui.Base.Results.{Result, ok, err}
use wharf_tui.Vault.{
  Error, corrupt, not_found, wrong_secret, closed, invalid_params, bad_key, os_error, Params,
  Header, header_len, valid_params, marshal, parse_header,
}
use wharf_tui.Vault.Recovery.{recovery_secret_len, encode_crockford, recovery_secret}
use wharf_tui.Vault.Disk.{
  Bytes, World, Os, Action, pure, raise, ◌>>=◌, ◌>>◌, on_error, call, unchanged, tick, rand_read,
  acquire_lock, release_lock, exists, read_file, write_file_atomic,
}

-- argon2.IDKey for 32 bytes, XChaCha20-Poly1305 as Seal and Open of chacha20poly1305.NewX (none on a
-- key of the wrong length, and where Open refuses), and HKDF-SHA256 for 32 bytes.
pub record Crypto : Type 0 where
  pub derive_kek : Bytes → Bytes → Params → Bytes
  pub seal : Bytes → Bytes → Bytes → Bytes → Option Bytes
  pub unseal : Bytes → Bytes → Bytes → Bytes → Option Bytes
  pub subkey : Bytes → Str → Bytes

-- Vault, without its path. The DEK is nil after Close.
pub record Vault : Type 0 where
  pub hdr : Header
  pub dek : Option Bytes
  pub payload : Bytes
  pub has_lock : Bool

-- A salt, a nonce and the DEK wrapped under them: one of the two slots of the header.
pub record Slot : Type 0 where
  pub salt : Bytes
  pub nonce : Bytes
  pub wrap : Bytes

-- copy(dst[:], src)
unfoldable pub copy_into : Bytes → Bytes → Bytes
copy_into dst src = take (length dst) src ++ drop (length src) dst

-- A nil slice is an empty one to the functions that read it.
unfoldable pub key_bytes : Option Bytes → Bytes
key_bytes none = []
key_bytes (some dek) = dek

unfoldable pub put_password : Slot → Header → Header
put_password slot h = record h {
  pw_salt = Slot.salt slot;
  pw_nonce = Slot.nonce slot;
  pw_wrap = copy_into (Header.pw_wrap h) (Slot.wrap slot);
}

unfoldable pub put_recovery : Slot → Header → Header
put_recovery slot h = record h {
  rec_salt = Slot.salt slot;
  rec_nonce = Slot.nonce slot;
  rec_wrap = copy_into (Header.rec_wrap h) (Slot.wrap slot);
}

-- The header that Create starts from: arrays of zeros.
unfoldable pub blank : Params → Header
blank params = record {
  version = 1;
  kdf = 1;
  params = params;
  pw_salt = replicate 16 0;
  pw_nonce = replicate 24 0;
  pw_wrap = replicate 48 0;
  rec_salt = replicate 16 0;
  rec_nonce = replicate 24 0;
  rec_wrap = replicate 48 0;
  body_nonce = replicate 24 0;
}

-- A method that changes the vault.
abbrev pub Method {ℓ} : Type ℓ → Type ℓ
Method A = Vault → World → Result Error A × (Vault × World)

module _ (c : Crypto) where
  -- wrapDEK and unwrapDEK
  unfoldable pub wrap_dek : Bytes → Bytes → Bytes → Option Bytes
  wrap_dek kek nonce dek = Crypto.seal c kek nonce dek []

  unfoldable pub unwrap_dek : Bytes → Bytes → Bytes → Option Bytes
  unwrap_dek kek nonce wrapped = Crypto.unseal c kek nonce wrapped []

  -- sealBody and openBody
  unfoldable pub seal_body : Bytes → Bytes → Bytes → Bytes → Option Bytes
  seal_body dek nonce payload aad = Crypto.seal c dek nonce payload aad

  unfoldable pub open_body : Bytes → Bytes → Bytes → Bytes → Option Bytes
  open_body dek nonce body aad = Crypto.unseal c dek nonce body aad

  -- The password slot of a header under a password, and the recovery slot under a secret.
  unfoldable pub unwrap_password : Bytes → Header → Option Bytes
  unwrap_password password h =
      unwrap_dek (Crypto.derive_kek c password (Header.pw_salt h) (Header.params h))
        (Header.pw_nonce h) (Header.pw_wrap h)

  unfoldable pub unwrap_secret : Bytes → Header → Option Bytes
  unwrap_secret secret h =
      unwrap_dek (Crypto.derive_kek c secret (Header.rec_salt h) (Header.params h))
        (Header.rec_nonce h) (Header.rec_wrap h)

  -- The recovery slot under a code, as a person types it.
  unfoldable pub unwrap_code : Unicode → Str → Header → Option Bytes
  unwrap_code u code h = elim (recovery_secret u code) [
    | err e ↦ none
    | ok secret ↦ unwrap_secret secret h
  ]

  -- The DEK and the payload of the bytes of a vault: what Open, OpenPayload and InstallBlob share.
  unfoldable pub decrypt : (Header → Option Bytes) → Bytes → Result Error Vault
  decrypt unwrap data' = elim (parse_header data') [
    | err e ↦ err e
    | ok (h, body) ↦ elim (unwrap h) [
      | none ↦ err wrong_secret
      | some dek ↦ elim (open_body dek (Header.body_nonce h) body (take header_len data')) [
        | none ↦ err corrupt
        | some payload ↦ ok (record { hdr = h; dek = some dek; payload = payload; has_lock = true })
      ]
    ]
  ]

  -- OpenPayload
  unfoldable pub open_payload : Bytes → Bytes → Result Error Bytes
  open_payload blob password = elim (decrypt (unwrap_password password) blob) [
    | err e ↦ err e
    | ok v ↦ ok (Vault.payload v)
  ]

  -- Vault.DeriveKey
  unfoldable pub derive_key : Str → Vault → Result Error Bytes
  derive_key info v = elim (Vault.dek v) [
    | none ↦ err closed
    | some dek ↦ ok (Crypto.subkey c dek info)
  ]

abbrev pub or_raise {ℓ} : {A : Type ℓ} → Option A → Error → Action A
or_raise none e = raise e
or_raise (some a) _ = pure a

abbrev pub of_result {ℓ} : {A : Type ℓ} → Result Error A → Action A
of_result (err e) = raise e
of_result (ok a) = pure a

module _ (os : Os) (c : Crypto) where
  -- openVault
  unfoldable pub open_vault : (Header → Option Bytes) → Action Vault
  open_vault unwrap w =
      let (there, w') = exists os w in
      if not there
      then raise not_found w'
      else (do
        acquire_lock os
        on_error release_lock (read_file os >>= λ data'. of_result (decrypt c unwrap data')))
          w'

  -- Open
  unfoldable pub open_with_password : Bytes → Action Vault
  open_with_password password = open_vault (unwrap_password c password)

  -- OpenWithRecovery
  unfoldable pub open_with_recovery : Unicode → Str → Action Vault
  open_with_recovery u code = open_vault (unwrap_code c u code)

  -- InstallBlob
  unfoldable pub install_blob : Bytes → Bytes → Action Vault
  install_blob blob password = do
    v ← of_result (decrypt c (unwrap_password c password) blob)
    call os unchanged unchanged
    acquire_lock os
    on_error release_lock (write_file_atomic os blob)
    pure v

  -- The end of save: the file is written, and the payload is taken over.
  unfoldable pub save_sealed : Bytes → Bytes → Method (Unit {0})
  save_sealed payload file_bytes v w =
      let (r, w') = write_file_atomic os file_bytes w in
      elim r [ err e ↦ (err e, (v, w')) | ok _ ↦ (ok tt, (record v { payload = payload }, w')) ]

  -- Vault.save after the body nonce is drawn.
  unfoldable pub save_under : Bytes → Method (Unit {0})
  save_under payload v w =
      let hdr_bytes = marshal (Vault.hdr v) in
      elim (seal_body c (key_bytes (Vault.dek v)) (Header.body_nonce (Vault.hdr v)) payload
        hdr_bytes) [
          | none ↦ (err bad_key, (v, w))
          | some body ↦ save_sealed payload (hdr_bytes ++ body) v w
        ]

  -- Vault.Save
  unfoldable pub save : Bytes → Method (Unit {0})
  save payload v w =
      let (r, w') = rand_read os 24 w in
      elim r [
        | err e ↦ (err e, (v, w'))
        | ok nonce ↦
            save_under payload (record v { hdr = record (Vault.hdr v) { body_nonce = nonce } }) w'
      ]

  -- A slot of the DEK under a new salt and nonce.
  unfoldable pub fresh_slot : Bytes → Params → Bytes → Action Slot
  fresh_slot secret params dek = do
    salt ← rand_read os 16
    nonce ← rand_read os 24
    wrap ← or_raise (wrap_dek c (Crypto.derive_kek c secret salt params) nonce dek) bad_key
    pure (record { salt = salt; nonce = nonce; wrap = wrap })

  -- Vault.ChangePassword, from the slot that was drawn.
  unfoldable pub replace_password : Result Error Slot → Method (Unit {0})
  replace_password (err e) v w = (err e, (v, w))
  replace_password (ok slot) v w =
      save (Vault.payload v) (record v { hdr = put_password slot (Vault.hdr v) }) w

  -- Vault.ChangePassword
  unfoldable pub change_password : Bytes → Method (Unit {0})
  change_password new_password v w =
      let (r, w') =
        fresh_slot new_password (Header.params (Vault.hdr v)) (key_bytes (Vault.dek v)) w in
      replace_password r v w'

  -- newRecoveryCode, and the slot of its secret.
  unfoldable pub new_recovery : Params → Bytes → Action (Bytes × Slot)
  new_recovery params dek = do
    secret ← rand_read os recovery_secret_len
    slot ← fresh_slot secret params dek
    pure (secret, slot)

  -- Vault.RegenerateRecovery, from the slot that was drawn.
  unfoldable pub replace_recovery : Result Error (Bytes × Slot) → Method Str
  replace_recovery (err e) v w = (err e, (v, w))
  replace_recovery (ok (secret, slot)) v w =
      let (s, after) =
        save (Vault.payload v) (record v { hdr = put_recovery slot (Vault.hdr v) }) w in
      (elim s [ err e ↦ err e | ok _ ↦ ok (encode_crockford secret) ], after)

  -- Vault.RegenerateRecovery
  unfoldable pub regenerate_recovery : Method Str
  regenerate_recovery v w =
      let (r, w') = new_recovery (Header.params (Vault.hdr v)) (key_bytes (Vault.dek v)) w in
      replace_recovery r v w'

  -- Vault.Close
  unfoldable pub close : Method (Unit {0})
  close v w =
      let v' = record v { dek = none; has_lock = false } in
      if not (Vault.has_lock v)
      then (ok tt, (v', w))
      else (if Os.fails os (World.clock w) then err os_error else ok tt, (v', release_lock w))

  -- The first save of a vault that nobody has a reference to yet.
  unfoldable pub save_new : Vault → Action Vault
  save_new v w =
      let (r, (v', w')) = save (Vault.payload v) v w in
      elim r [ err e ↦ (err e, w') | ok _ ↦ (ok v', w') ]

  -- CreateWithParams after the lock is taken.
  unfoldable pub create_locked : Params → Bytes → Action (Vault × Str)
  create_locked params password = do
    dek ← rand_read os 32
    pw ← fresh_slot password params dek
    (secret, recovery) ← new_recovery params dek
    v ← save_new (record {
      hdr = put_recovery recovery (put_password pw (blank params));
      dek = some dek;
      payload = [];
      has_lock = true;
    })
    pure (v, encode_crockford secret)

  -- CreateWithParams
  unfoldable pub create_with_params : Params → Bytes → Action (Vault × Str)
  create_with_params params password =
      if not (valid_params params) then raise invalid_params else (do
        call os unchanged unchanged
        acquire_lock os
        on_error release_lock (create_locked params password))
