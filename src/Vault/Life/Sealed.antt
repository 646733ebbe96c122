-- ===== src/Vault/Life/Sealed.antt =====
-- The bytes of a vault: what they hold, and who can open them. The laws of the ciphers are those
-- that x/crypto documents.
use wharf_tui.Base.{
  ◌+◌, ◌≡◌, refl, true, ◌&&◌, Option, some, [], ◌++◌, length, take, take-append_left, take-length,
  drop-length, append-nil, drop, ◌==◌, sym, ◌∙◌,
}
use wharf_tui.Base.Results.{ok}
use wharf_tui.Vault.{Params, Header, header_len, valid_params, marshal, parse_header, IsSized}
use wharf_tui.Vault.Format.{length-marshal, parse_header-marshal}
use wharf_tui.Vault.Disk.{Bytes}
use wharf_tui.Vault.Life.{
  Crypto, Slot, unwrap_password, unwrap_secret, open_body, decrypt, unwrap_dek, seal_body,
  copy_into, put_password, put_recovery,
}

-- argon2 gives as many bytes as it is asked for. Seal takes keys of 32 bytes and nonces of 24, adds a
-- tag of 16 bytes, and Open with the same key, nonce and data gives back what was sealed.
pub record IsLawful (c : Crypto) : Type 0 where
  pub kek_len : (secret salt : Bytes) (p : Params) → length (Crypto.derive_kek c secret salt p) ≡ 32
  pub seals :
      (key nonce plain aad : Bytes)
      → length key ≡ 32
      → length nonce ≡ 24
      → (sealed : Bytes) × (Crypto.seal c key nonce plain aad ≡ some sealed)
        × (length sealed ≡ length plain + 16)
        × (Crypto.unseal c key nonce sealed aad ≡ some plain)

-- A header that marshal and parseHeader agree on.
pub record IsUsable (h : Header) : Type 0 where
  pub sized : IsSized h
  pub version_1 : Header.version h ≡ 1
  pub kdf_1 : Header.kdf h ≡ 1
  pub params_valid : valid_params (Header.params h) ≡ true

-- What a slot holds: its bytes and their lengths, and the key that it gives.
pub record IsSlotOf (c : Crypto) (slot : Slot) (secret : Bytes) (p : Params) (dek : Bytes)
    : Type 0 where
  pub salt_len : length (Slot.salt slot) ≡ 16
  pub nonce_len : length (Slot.nonce slot) ≡ 24
  pub wrap_len : length (Slot.wrap slot) ≡ 48
  pub gives :
      unwrap_dek c
        (Crypto.derive_kek c secret (Slot.salt slot) p)
        (Slot.nonce slot)
        (Slot.wrap slot)
      ≡ some dek

-- A header whose nonce or slots are replaced by others of the right lengths.
pub with_nonce-IsUsable :
    (h : Header) (nonce : Bytes)
    → length nonce ≡ 24
    → IsUsable h
    → IsUsable (record h { body_nonce = nonce })
with_nonce-IsUsable h nonce l i =
    let z = IsUsable.sized i in
    record {
      sized = record {
        version_in = IsSized.version_in z;
        kdf_in = IsSized.kdf_in z;
        time_in = IsSized.time_in z;
        memory_in = IsSized.memory_in z;
        parallelism_in = IsSized.parallelism_in z;
        pw_salt_len = IsSized.pw_salt_len z;
        pw_nonce_len = IsSized.pw_nonce_len z;
        pw_wrap_len = IsSized.pw_wrap_len z;
        rec_salt_len = IsSized.rec_salt_len z;
        rec_nonce_len = IsSized.rec_nonce_len z;
        rec_wrap_len = IsSized.rec_wrap_len z;
        body_nonce_len = l;
      };
      version_1 = IsUsable.version_1 i;
      kdf_1 = IsUsable.kdf_1 i;
      params_valid = IsUsable.params_valid i;
    }

-- A slot is read back as it was filled.
pub copy_into_all : (dst src : Bytes) → length dst ≡ length src → copy_into dst src ≡ src
unfolding copy_into
copy_into_all dst src h =
    let rest : drop (length src) dst ≡ [] = rw (sym h) (drop-length dst) in
    rw (rest, h, take-length src) (append-nil src)

-- The password slot, replaced: the other slot is left alone.
pub put_password-IsUsable :
    (c : Crypto) (h : Header) (slot : Slot) (secret dek : Bytes)
    → IsSlotOf c slot secret (Header.params h) dek
    → IsUsable h
    → IsUsable (put_password slot h)
      × (unwrap_password c secret (put_password slot h) ≡ some dek)
      × ((other : Bytes) → unwrap_secret c other (put_password slot h) ≡ unwrap_secret c other h)
unfolding put_password unwrap_password unwrap_secret
put_password-IsUsable c h slot secret dek s i =
    let z = IsUsable.sized i in
    let copied : copy_into (Header.pw_wrap h) (Slot.wrap slot) ≡ Slot.wrap slot =
      copy_into_all (Header.pw_wrap h) (Slot.wrap slot)
        (IsSized.pw_wrap_len z ∙ sym (IsSlotOf.wrap_len s)) in
    (
      record {
        sized = record {
          version_in = IsSized.version_in z;
          kdf_in = IsSized.kdf_in z;
          time_in = IsSized.time_in z;
          memory_in = IsSized.memory_in z;
          parallelism_in = IsSized.parallelism_in z;
          pw_salt_len = IsSlotOf.salt_len s;
          pw_nonce_len = IsSlotOf.nonce_len s;
          pw_wrap_len = rw (copied) (IsSlotOf.wrap_len s);
          rec_salt_len = IsSized.rec_salt_len z;
          rec_nonce_len = IsSized.rec_nonce_len z;
          rec_wrap_len = IsSized.rec_wrap_len z;
          body_nonce_len = IsSized.body_nonce_len z;
        };
        version_1 = IsUsable.version_1 i;
        kdf_1 = IsUsable.kdf_1 i;
        params_valid = IsUsable.params_valid i;
      },
      rw copied (IsSlotOf.gives s),
      (λ other. refl),
    )

-- The recovery slot, replaced: the other slot is left alone.
pub put_recovery-IsUsable :
    (c : Crypto) (h : Header) (slot : Slot) (secret dek : Bytes)
    → IsSlotOf c slot secret (Header.params h) dek
    → IsUsable h
    → IsUsable (put_recovery slot h)
      × (unwrap_secret c secret (put_recovery slot h) ≡ some dek)
      × ((other : Bytes)
          → unwrap_password c other (put_recovery slot h) ≡ unwrap_password c other h)
unfolding put_recovery unwrap_password unwrap_secret
put_recovery-IsUsable c h slot secret dek s i =
    let z = IsUsable.sized i in
    let copied : copy_into (Header.rec_wrap h) (Slot.wrap slot) ≡ Slot.wrap slot =
      copy_into_all (Header.rec_wrap h) (Slot.wrap slot)
        (IsSized.rec_wrap_len z ∙ sym (IsSlotOf.wrap_len s)) in
    (
      record {
        sized = record {
          version_in = IsSized.version_in z;
          kdf_in = IsSized.kdf_in z;
          time_in = IsSized.time_in z;
          memory_in = IsSized.memory_in z;
          parallelism_in = IsSized.parallelism_in z;
          pw_salt_len = IsSized.pw_salt_len z;
          pw_nonce_len = IsSized.pw_nonce_len z;
          pw_wrap_len = IsSized.pw_wrap_len z;
          rec_salt_len = IsSlotOf.salt_len s;
          rec_nonce_len = IsSlotOf.nonce_len s;
          rec_wrap_len = rw (copied) (IsSlotOf.wrap_len s);
          body_nonce_len = IsSized.body_nonce_len z;
        };
        version_1 = IsUsable.version_1 i;
        kdf_1 = IsUsable.kdf_1 i;
        params_valid = IsUsable.params_valid i;
      },
      rw copied (IsSlotOf.gives s),
      (λ other. refl),
    )

module _ (c : Crypto) where
  -- `data'` is a vault file with the header `h`, whose body is `payload` under `dek`.
  pub record IsSealed (data' : Bytes) (h : Header) (dek payload : Bytes) : Type 0 where
    pub body : Bytes
    pub layout : data' ≡ marshal h ++ body
    pub usable : IsUsable h
    pub opens : open_body c dek (Header.body_nonce h) body (marshal h) ≡ some payload

  parse_header-IsUsable :
      (h : Header) (body : Bytes) → IsUsable h → parse_header (marshal h ++ body) ≡ ok (h, body)
  parse_header-IsUsable h body i =
      let e : (Header.version h == 1) && ((Header.kdf h == 1) && valid_params (Header.params h))
          ≡ true =
        rw (IsUsable.version_1 i, IsUsable.kdf_1 i, IsUsable.params_valid i) refl in
      rw e at (parse_header-marshal h (IsUsable.sized i) body)

  pub decrypt-IsSealed :
      {data' : Bytes} {h : Header} {dek payload : Bytes} (unwrap : Header → Option Bytes)
      → IsSealed data' h dek payload
      → unwrap h ≡ some dek
      → decrypt c unwrap data'
        ≡ ok (record { hdr = h; dek = some dek; payload = payload; has_lock = true })
  unfolding decrypt
  decrypt-IsSealed {h = h} unwrap i e =
      let at_header : take header_len (marshal h ++ IsSealed.body i) ≡ marshal h =
        rw (sym (length-marshal h (IsUsable.sized (IsSealed.usable i))))
          (take-append_left (marshal h) (IsSealed.body i)) in
      rw (IsSealed.layout i) (
        rw
          (
            decrypt,
            parse_header-IsUsable h (IsSealed.body i) (IsSealed.usable i),
            e,
            at_header,
            IsSealed.opens i,
          )
          refl)

module _ (c : Crypto) (lawful : IsLawful c) where
  -- A header and what a body was sealed to under it make a vault file.
  pub seal_body-IsSealed :
      (h : Header) (dek payload : Bytes)
      → IsUsable h
      → length dek ≡ 32
      → (body : Bytes) × (seal_body c dek (Header.body_nonce h) payload (marshal h) ≡ some body)
        × IsSealed c (marshal h ++ body) h dek payload
  unfolding seal_body open_body
  seal_body-IsSealed h dek payload i l =
      let (body, sealed, _, opens) =
        IsLawful.seals lawful dek (Header.body_nonce h) payload (marshal h) l
          (IsSized.body_nonce_len (IsUsable.sized i)) in
      (body, sealed, record { body = body; layout = refl; usable = i; opens = opens })
