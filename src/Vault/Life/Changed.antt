-- ===== src/Vault/Life/Changed.antt =====
-- ChangePassword and RegenerateRecovery, on every branch.
use wharf_tui.Base.{◌≡◌, refl, Option, some, length, inl, inr, ◌∙◌}
use wharf_tui.Base.Text.{Str}
use wharf_tui.Base.Results.{Result, ok, err}
use wharf_tui.Vault.{Error, Header}
use wharf_tui.Vault.Recovery.{recovery_secret_len, encode_crockford}
use wharf_tui.Vault.Disk.{Bytes, World, Os}
use wharf_tui.Vault.Disk.Atomic.{Always, IsAsBefore}
use wharf_tui.Vault.Life.{
  Crypto, Vault, Slot, put_password, put_recovery, fresh_slot, new_recovery, save, replace_password,
  replace_recovery, change_password, regenerate_recovery,
}
use wharf_tui.Vault.Life.Slots.{
  IsRandom, IsFresh, IsNewCode, fresh_slot-IsFresh, new_recovery-IsNewCode,
}
use wharf_tui.Vault.Life.Sealed.{IsLawful, IsSlotOf, put_password-IsUsable, put_recovery-IsUsable}
use wharf_tui.Vault.Life.Written.{
  Contents, IsOpen, IsStored, IsWritten, IsChanged, key_bytes-IsOpen, save-IsWritten,
}

module _ (c : Crypto) where
  with_password-IsOpen :
      (v : Vault) (slot : Slot) (password : Bytes) (k : Contents) (i : IsOpen c v k)
      → IsSlotOf c slot password (Header.params (Vault.hdr v)) (IsOpen.dek i)
      → IsOpen c
          (record v { hdr = put_password slot (Vault.hdr v) })
          (record k { password = password })
  with_password-IsOpen v slot password k i s =
      let (usable, opens, others) =
        put_password-IsUsable c (Vault.hdr v) slot password (IsOpen.dek i) s (IsOpen.usable i) in
      record {
        dek = IsOpen.dek i;
        has_dek = IsOpen.has_dek i;
        dek_len = IsOpen.dek_len i;
        usable = usable;
        opens_with = (opens, others (Contents.secret k) ∙ (IsOpen.opens_with i).1);
        holds = IsOpen.holds i;
      }

  with_recovery-IsOpen :
      (v : Vault) (slot : Slot) (secret : Bytes) (k : Contents) (i : IsOpen c v k)
      → IsSlotOf c slot secret (Header.params (Vault.hdr v)) (IsOpen.dek i)
      → IsOpen c (record v { hdr = put_recovery slot (Vault.hdr v) }) (record k { secret = secret })
  with_recovery-IsOpen v slot secret k i s =
      let (usable, opens, others) =
        put_recovery-IsUsable c (Vault.hdr v) slot secret (IsOpen.dek i) s (IsOpen.usable i) in
      record {
        dek = IsOpen.dek i;
        has_dek = IsOpen.has_dek i;
        dek_len = IsOpen.dek_len i;
        usable = usable;
        opens_with = (others (Contents.password k) ∙ (IsOpen.opens_with i).0, opens);
        holds = IsOpen.holds i;
      }

-- What is written after calls that leave the file alone is written.
module _ (c : Crypto) (P : Option Bytes → Type 0) (w w1 : World) (before after : Contents) where
  IsWritten-later {ℓ} :
      {A : Type ℓ} (r : Result Error A) (v' : Vault) (w' : World)
      → IsAsBefore P w w1
      → IsWritten c P w1 after after r v' w'
      → IsChanged c P w before after r v' w'
  IsWritten-later (ok _) v' w' (same, lock, _) (i, s, lock', always) = (i, s, lock' ∙ lock, always)
  IsWritten-later (err e) v' w' (same, lock, _) (i, (same', lock', always)) =
      (inr i, (same' ∙ same, lock' ∙ lock, always))

module _ (os : Os) (c : Crypto) (lawful : IsLawful c) (random : IsRandom os)
    (P : Option Bytes → Type 0) (v : Vault) (w : World) (k : Contents) (i : IsOpen c v k) where
  -- A save of the same payload under new means of access.
  rewritten :
      (payload : Bytes) (v1 : Vault) (w1 : World) (after : Contents)
      → payload ≡ Contents.payload after
      → IsOpen c v1 after
      → ((data' : Bytes) → IsStored c (some data') after → P (some data'))
      → IsAsBefore P w w1
      → let (r, (v', w')) = save os c payload v1 w1 in IsChanged c P w k after r v' w'
  rewritten payload v1 w1 after e i1 new (same, lock, always) =
      let (r, (v', w')) = save os c (Contents.payload after) v1 w1 in
      rw e (
        IsWritten-later c P w w1 k after r v' w' (same, lock, always)
          (save-IsWritten os c lawful random P (Contents.payload after) v1 w1 after i1 new always))

  replace_password-IsChanged :
      (password : Bytes)
      → ((data' : Bytes)
          → IsStored c (some data') (record k { password = password })
          → P (some data'))
      → (r : Result Error Slot) (w1 : World)
      → IsFresh c P w (Header.params (Vault.hdr v)) (IsOpen.dek i) password r w1
      → let (r', (v', w')) = replace_password os c r v w1 in
        IsChanged c P w k (record k { password = password }) r' v' w'
  unfolding replace_password
  replace_password-IsChanged password new (err e) w1 kept = (inl i, kept)
  replace_password-IsChanged password new (ok slot) w1 (s, kept) =
      rewritten (Vault.payload v) (record v { hdr = put_password slot (Vault.hdr v) }) w1
        (record k { password = password }) (IsOpen.holds i)
        (with_password-IsOpen c v slot password k i s) new kept

  pub change_password-IsChanged :
      (password : Bytes)
      → ((data' : Bytes)
          → IsStored c (some data') (record k { password = password })
          → P (some data'))
      → Always P w
      → let (r, (v', w')) = change_password os c password v w in
        IsChanged c P w k (record k { password = password }) r v' w'
  unfolding change_password
  change_password-IsChanged password new always =
      let p = Header.params (Vault.hdr v) in
      let drawn = fresh_slot os c password p (IsOpen.dek i) w in
      rw (change_password, key_bytes-IsOpen c v k i)
        (replace_password-IsChanged password new drawn.0 drawn.1 (
          fresh_slot-IsFresh os c lawful random P w p (IsOpen.dek i) (IsOpen.dek_len i) password w
            (refl, refl, always)))

  -- A vault with a new recovery secret, which the code that is given out stands for.
  abbrev pub IsRecoded : Result Error Str → Vault → World → Type 0
  IsRecoded (ok code) v' w' =
      (secret : Bytes) × (length secret ≡ recovery_secret_len)
      × (code ≡ encode_crockford secret)
      × IsOpen c v' (record k { secret = secret })
      × IsStored c (World.file w') (record k { secret = secret })
      × (World.is_locked w' ≡ World.is_locked w)
      × Always P w'
  IsRecoded (err e) v' w' =
      ((secret : Bytes) × IsOpen c v' (record k { secret = secret })) × IsAsBefore P w w'

  give_code-IsRecoded :
      (secret : Bytes)
      → length secret ≡ recovery_secret_len
      → (r : Result Error (Unit {0})) (v' : Vault) (w' : World)
      → IsChanged c P w k (record k { secret = secret }) r v' w'
      → IsRecoded
          (elim r as (λ _. Result Error Str) [
            | err e ↦ err e
            | ok _ ↦ ok (encode_crockford secret)
          ])
          v'
          w'
  give_code-IsRecoded secret l (ok _) v' w' (j, s, lock, always) =
      (secret, l, refl, j, s, lock, always)
  give_code-IsRecoded secret l (err e) v' w' (inl j, kept) = ((Contents.secret k, j), kept)
  give_code-IsRecoded secret l (err e) v' w' (inr j, kept) = ((secret, j), kept)

  replace_recovery-IsRecoded :
      ((secret data' : Bytes)
        → IsStored c (some data') (record k { secret = secret })
        → P (some data'))
      → (r : Result Error (Bytes × Slot)) (w1 : World)
      → IsNewCode c P w (Header.params (Vault.hdr v)) (IsOpen.dek i) r w1
      → let (r', (v', w')) = replace_recovery os c r v w1 in IsRecoded r' v' w'
  unfolding replace_recovery
  replace_recovery-IsRecoded new (err e) w1 kept = ((Contents.secret k, i), kept)
  replace_recovery-IsRecoded new (ok (secret, slot)) w1 (l, s, kept) =
      let v1 : Vault = record v { hdr = put_recovery slot (Vault.hdr v) } in
      let saved = save os c (Vault.payload v) v1 w1 in
      give_code-IsRecoded secret l saved.0 saved.1.0 saved.1.1 (
        rewritten (Vault.payload v) v1 w1 (record k { secret = secret }) (IsOpen.holds i)
          (with_recovery-IsOpen c v slot secret k i s) (new secret) kept)

  pub regenerate_recovery-IsRecoded :
      ((secret data' : Bytes)
        → IsStored c (some data') (record k { secret = secret })
        → P (some data'))
      → Always P w
      → let (r, (v', w')) = regenerate_recovery os c v w in IsRecoded r v' w'
  unfolding regenerate_recovery
  regenerate_recovery-IsRecoded new always =
      let p = Header.params (Vault.hdr v) in
      let drawn = new_recovery os c p (IsOpen.dek i) w in
      rw (regenerate_recovery, key_bytes-IsOpen c v k i)
        (replace_recovery-IsRecoded new drawn.0 drawn.1 (
          new_recovery-IsNewCode os c lawful random P w p (IsOpen.dek i) (IsOpen.dek_len i) always))
