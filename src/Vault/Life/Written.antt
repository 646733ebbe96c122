-- ===== src/Vault/Life/Written.antt =====
-- What Save, ChangePassword and RegenerateRecovery leave in memory and on the disk, on every branch.
use wharf_tui.Base.{◌≡◌, refl, Option, some, ◌++◌, length, ◌⊎◌, inl, inr}
use wharf_tui.Base.Results.{Result, ok, err}
use wharf_tui.Vault.{Error, Header, marshal}
use wharf_tui.Vault.Disk.{Bytes, World, Os, tick, write_file_atomic}
use wharf_tui.Vault.Disk.Rules.{rand_read-cases}
use wharf_tui.Vault.Disk.Atomic.{Always, IsAsBefore, IsReplaced, write_file_atomic-IsReplaced}
use wharf_tui.Vault.Life.{
  Crypto, Vault, unwrap_password, unwrap_secret, key_bytes, save_sealed, save_under, save,
}
use wharf_tui.Vault.Life.Slots.{IsRandom}
use wharf_tui.Vault.Life.Sealed.{
  IsLawful, IsUsable, with_nonce-IsUsable, IsSealed, seal_body-IsSealed,
}

-- What a vault holds, and the password and the recovery secret that open it.
pub record Contents : Type 0 where
  pub password : Bytes
  pub secret : Bytes
  pub payload : Bytes

module _ (c : Crypto) where
  abbrev pub OpensWith : Header → Bytes → Contents → Type 0
  OpensWith h dek k =
      (unwrap_password c (Contents.password k) h ≡ some dek)
      × (unwrap_secret c (Contents.secret k) h ≡ some dek)

  -- An open vault that would write `k`.
  pub record IsOpen (v : Vault) (k : Contents) : Type 0 where
    pub dek : Bytes
    pub has_dek : Vault.dek v ≡ some dek
    pub dek_len : length dek ≡ 32
    pub usable : IsUsable (Vault.hdr v)
    pub opens_with : OpensWith (Vault.hdr v) dek k
    pub holds : Vault.payload v ≡ Contents.payload k

  -- A vault file that holds `k`.
  pub record IsStored (f : Option Bytes) (k : Contents) : Type 0 where
    pub data' : Bytes
    pub h : Header
    pub dek : Bytes
    pub there : f ≡ some data'
    pub dek_len : length dek ≡ 32
    pub sealed : IsSealed c data' h dek (Contents.payload k)
    pub opens_with : OpensWith h dek k

  -- A method that gives the vault new means of access: where it fails it may have them in memory.
  abbrev pub IsChanged {ℓ} :
      {A : Type ℓ}
      → (Option Bytes → Type 0)
      → World
      → Contents
      → Contents
      → Result Error A
      → Vault
      → World
      → Type 0
  IsChanged P w before after (ok _) v' w' =
      IsOpen v' after
      × IsStored (World.file w') after
      × (World.is_locked w' ≡ World.is_locked w)
      × Always P w'
  IsChanged P w before after (err e) v' w' =
      (IsOpen v' before ⊎ IsOpen v' after) × IsAsBefore P w w'

  module _ (P : Option Bytes → Type 0) (w : World) (before after : Contents) where
    -- A method that writes `after`, from a vault of `before`: it is open and stored if the method
    -- succeeds, and else the file is the old one.
    abbrev pub IsWritten {ℓ} : {A : Type ℓ} → Result Error A → Vault → World → Type 0
    IsWritten (ok _) v' w' =
        IsOpen v' after
        × IsStored (World.file w') after
        × (World.is_locked w' ≡ World.is_locked w)
        × Always P w'
    IsWritten (err e) v' w' = IsOpen v' before × IsAsBefore P w w'

module _ (c : Crypto) where
  pub key_bytes-IsOpen :
      (v : Vault) (k : Contents) (i : IsOpen c v k) → key_bytes (Vault.dek v) ≡ IsOpen.dek i
  unfolding key_bytes
  key_bytes-IsOpen v k i = rw (IsOpen.has_dek i) refl

  -- A new body nonce opens nothing else.
  with_nonce-IsOpen :
      (v : Vault) (nonce : Bytes) (k : Contents)
      → IsOpen c v k
      → length nonce ≡ 24
      → IsOpen c (record v { hdr = record (Vault.hdr v) { body_nonce = nonce } }) k
  unfolding unwrap_password unwrap_secret
  with_nonce-IsOpen v nonce k i l = record {
    dek = IsOpen.dek i;
    has_dek = IsOpen.has_dek i;
    dek_len = IsOpen.dek_len i;
    usable = with_nonce-IsUsable (Vault.hdr v) nonce l (IsOpen.usable i);
    opens_with = IsOpen.opens_with i;
    holds = IsOpen.holds i;
  }

module _ (os : Os) (c : Crypto) (P : Option Bytes → Type 0) (w : World) where
  -- The result of the write, given to the vault.
  finish :
      (payload data' : Bytes) (v : Vault) (k : Contents)
      → IsOpen c v k
      → IsStored c (some data') (record k { payload = payload })
      → (r : Result Error (Unit {0})) (w' : World) → IsReplaced P data' w r w'
      → let (r', (v', w'')) = elim r as (λ _. Result Error (Unit {0}) × (Vault × World)) [
        | err e ↦ (err e, (v, w'))
        | ok _ ↦ (ok tt, (record v { payload = payload }, w'))
      ] in
        IsWritten c P w k (record k { payload = payload }) r' v' w''
  finish payload data' v k i s (err e) w' kept = (i, kept)
  finish payload data' v k i s (ok _) w' (there, lock, always) = (
    record {
      dek = IsOpen.dek i;
      has_dek = IsOpen.has_dek i;
      dek_len = IsOpen.dek_len i;
      usable = IsOpen.usable i;
      opens_with = IsOpen.opens_with i;
      holds = refl;
    },
    rw there s,
    lock,
    always,
  )

module _ (os : Os) (c : Crypto) (lawful : IsLawful c) (random : IsRandom os)
    (P : Option Bytes → Type 0) where
  save_under-IsWritten :
      (payload : Bytes) (v : Vault) (w : World) (k : Contents)
      → IsOpen c v k
      → ((data' : Bytes)
          → IsStored c (some data') (record k { payload = payload })
          → P (some data'))
      → Always P w
      → let (r, (v', w')) = save_under os c payload v w in
        IsWritten c P w k (record k { payload = payload }) r v' w'
  unfolding save_under save_sealed
  save_under-IsWritten payload v w k i new always =
      let h = Vault.hdr v in
      let (body, e, sealed) =
        seal_body-IsSealed c lawful h (IsOpen.dek i) payload (IsOpen.usable i) (IsOpen.dek_len i) in
      let stored : IsStored c (some (marshal h ++ body)) (record k { payload = payload }) = record {
        data' = marshal h ++ body;
        h = h;
        dek = IsOpen.dek i;
        there = refl;
        dek_len = IsOpen.dek_len i;
        sealed = sealed;
        opens_with = IsOpen.opens_with i;
      } in
      let written =
        write_file_atomic-IsReplaced os P (marshal h ++ body) w (new (marshal h ++ body) stored)
          always in
      rw (save_under, key_bytes-IsOpen c v k i, e)
        (finish os c P w payload (marshal h ++ body) v k i stored
          (write_file_atomic os (marshal h ++ body) w).0
          (write_file_atomic os (marshal h ++ body) w).1 written)

  pub save-IsWritten :
      (payload : Bytes) (v : Vault) (w : World) (k : Contents)
      → IsOpen c v k
      → ((data' : Bytes)
          → IsStored c (some data') (record k { payload = payload })
          → P (some data'))
      → Always P w
      → let (r, (v', w')) = save os c payload v w in
        IsWritten c P w k (record k { payload = payload }) r v' w'
  unfolding save
  save-IsWritten payload v w k i new (now, before) =
      let nonce = Os.random os (World.clock w) 24 in
      let v1 : Vault = record v { hdr = record (Vault.hdr v) { body_nonce = nonce } } in
      elim (rand_read-cases os 24 w) [
        | inl e ↦ rw (save, e, e) (i, (refl, refl, (now, (now, before))))
        | inr e ↦
            rw (save, e, e)
              (save_under-IsWritten payload v1 (tick w) k
                (with_nonce-IsOpen c v nonce k i (random (World.clock w) 24)) new
                (now, (now, before)))
      ]
