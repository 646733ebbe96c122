-- ===== src/Vault/Life/Refines.antt =====
-- An open vault against what it is for: somebody's password, recovery code and payload, in memory
-- and on the disk. A call that fails may leave new means of access in memory, and so does this view.
use wharf_tui.Base.{◌≡◌, sym, subst, true, Option, none, some, List, [], ◌∷◌, length, inl, inr, ◌∙◌}
use wharf_tui.Base.Text.{Str}
use wharf_tui.Base.Results.{Result, ok, err}
use wharf_tui.Vault.{Error}
use wharf_tui.Vault.Recovery.{recovery_secret_len, encode_crockford}
use wharf_tui.Vault.Disk.{Bytes, World, Os}
use wharf_tui.Vault.Disk.Atomic.{Always, IsAsBefore}
use wharf_tui.Vault.Life.{Crypto, Vault, save, change_password, regenerate_recovery}
use wharf_tui.Vault.Life.Slots.{IsRandom}
use wharf_tui.Vault.Life.Sealed.{IsLawful}
use wharf_tui.Vault.Life.Written.{Contents, IsOpen, IsStored, IsWritten, IsChanged, save-IsWritten}
use wharf_tui.Vault.Life.Changed.{
  IsRecoded, change_password-IsChanged, regenerate_recovery-IsRecoded,
}

-- What the interface asks of an open vault, and what it is told.
pub data Command : Type 0 where
  save_payload : Bytes → Command
  set_password : Bytes → Command
  new_code : Command

abbrev pub Reply : Type 0
Reply = Result Error (Option Str)

module _ (os : Os) (c : Crypto) where
  unfoldable pub exec : Command → Vault → World → Reply × (Vault × World)
  exec (save_payload payload) v w =
      let (r, after) = save os c payload v w in (elim r [ err e ↦ err e | ok _ ↦ ok none ], after)
  exec (set_password password) v w =
      let (r, after) = change_password os c password v w in
      (elim r [ err e ↦ err e | ok _ ↦ ok none ], after)
  exec new_code v w =
      let (r, after) = regenerate_recovery os c v w in
      (elim r [ err e ↦ err e | ok code ↦ ok (some code) ], after)

  unfoldable pub run : List Command → Vault → World → List Reply × (Vault × World)
  unfolding exec
  run [] v w = ([], (v, w))
  run (x ∷ xs) v w =
      let (r, (v', w')) = exec x v w in let (rs, after) = run xs v' w' in (r ∷ rs, after)

-- What the vault would write, and what the file holds.
pub record Account : Type 0 where
  pub memory : Contents
  pub disk : Contents

abbrev pub both : Contents → Account
both k = record { memory = k; disk = k }

-- What a command with its reply may do to an account.
pub data IsAllowed : Command → Reply → Account → Account → Type 0 where
  failed : (x : Command) (e : Error) (a : Account) → IsAllowed x (err e) a a
  saved :
      (payload : Bytes) (a : Account)
      → IsAllowed
          (save_payload payload)
          (ok none)
          a
          (both (record (Account.memory a) { payload = payload }))
  changed :
      (password : Bytes) (a : Account)
      → IsAllowed
          (set_password password)
          (ok none)
          a
          (both (record (Account.memory a) { password = password }))
  change_pending :
      (password : Bytes) (e : Error) (a : Account)
      → IsAllowed
          (set_password password)
          (err e)
          a
          (record a { memory = record (Account.memory a) { password = password } })
  recoded :
      (secret : Bytes) (a : Account)
      → length secret ≡ recovery_secret_len
      → IsAllowed new_code
          (ok (some (encode_crockford secret)))
          a
          (both (record (Account.memory a) { secret = secret }))
  recode_pending :
      (secret : Bytes) (e : Error) (a : Account)
      → IsAllowed new_code
          (err e)
          a
          (record a { memory = record (Account.memory a) { secret = secret } })

pub data IsHistory : List Command → List Reply → Account → Account → Type 0 where
  done : (a : Account) → IsHistory [] [] a a
  next :
      (x : Command) (r : Reply) (xs : List Command) (rs : List Reply) (a b d : Account)
      → IsAllowed x r a b
      → IsHistory xs rs b d
      → IsHistory (x ∷ xs) (r ∷ rs) a d

module _ (c : Crypto) where
  -- Some contents that somebody can open.
  abbrev pub IsReadable : Option Bytes → Type 0
  IsReadable f = (k : Contents) × IsStored c f k

  -- The vault and the file agree with an account, and the file could be opened at every moment.
  abbrev pub Agrees : Vault → World → Account → Type 0
  Agrees v w a =
      IsOpen c v (Account.memory a)
      × IsStored c (World.file w) (Account.disk a)
      × (World.is_locked w ≡ true)
      × Always IsReadable w

module _ (os : Os) (c : Crypto) (lawful : IsLawful c) (random : IsRandom os) where
  -- One command, and the account after it.
  IsStepped : Command → Account → Reply → Vault → World → Type 0
  IsStepped x a r v w = (b : Account) × IsAllowed x r a b × Agrees c v w b

  -- What a call that kept the file keeps.
  kept :
      (a : Account) (m : Contents) (v' : Vault) (w w' : World)
      → Agrees c v' w (record a { memory = m })
      → IsAsBefore (IsReadable c) w w'
      → Agrees c v' w' (record a { memory = m })
  kept a m v' w w' (i, s, l, _) (same, lock, always) =
      (i, subst (λ f. IsStored c f (Account.disk a)) (sym same) s, lock ∙ l, always)

  after_save :
      (payload : Bytes) (v : Vault) (w : World) (a : Account) (r : Result Error (Unit {0}))
      (v' : Vault) (w' : World)
      → Agrees c v w a
      → IsWritten c
          (IsReadable c)
          w
          (Account.memory a)
          (record (Account.memory a) { payload = payload })
          r
          v'
          w'
      → IsStepped
          (save_payload payload)
          a
          (elim r as (λ _. Reply) [ err e ↦ err e | ok _ ↦ ok none ])
          v'
          w'
  unfolding IsStepped
  after_save payload v w a (ok _) v' w' (_, st, l, _) (i, s, lock, always) = (
    both (record (Account.memory a) { payload = payload }),
    saved payload a,
    (i, s, lock ∙ l, always),
  )
  after_save payload v w a (err e) v' w' (_, st, l, al) (i, h) =
      (a, failed (save_payload payload) e a, kept a (Account.memory a) v' w w' (i, st, l, al) h)

  after_change :
      (password : Bytes) (v : Vault) (w : World) (a : Account) (r : Result Error (Unit {0}))
      (v' : Vault) (w' : World)
      → Agrees c v w a
      → IsChanged c
          (IsReadable c)
          w
          (Account.memory a)
          (record (Account.memory a) { password = password })
          r
          v'
          w'
      → IsStepped
          (set_password password)
          a
          (elim r as (λ _. Reply) [ err e ↦ err e | ok _ ↦ ok none ])
          v'
          w'
  unfolding IsStepped
  after_change password v w a (ok _) v' w' (_, st, l, _) (i, s, lock, always) = (
    both (record (Account.memory a) { password = password }),
    changed password a,
    (i, s, lock ∙ l, always),
  )
  after_change password v w a (err e) v' w' (_, st, l, al) (inl i, h) =
      (a, failed (set_password password) e a, kept a (Account.memory a) v' w w' (i, st, l, al) h)
  after_change password v w a (err e) v' w' (_, st, l, al) (inr i, h) =
      let m = record (Account.memory a) { password = password } in
      (record a { memory = m }, change_pending password e a, kept a m v' w w' (i, st, l, al) h)

  after_recode :
      (v : Vault) (w : World) (a : Account) (i0 : IsOpen c v (Account.memory a))
      (r : Result Error Str) (v' : Vault) (w' : World)
      → Agrees c v w a
      → IsRecoded os c lawful random (IsReadable c) v w (Account.memory a) i0 r v' w'
      → IsStepped new_code a
          (elim r as (λ _. Reply) [ err e ↦ err e | ok code ↦ ok (some code) ])
          v'
          w'
  unfolding IsStepped
  after_recode v w a i0 (ok code) v' w' (_, st, l, _) (secret, len, e, i, s, lock, always) = (
    both (record (Account.memory a) { secret = secret }),
    rw e (recoded secret a len),
    (i, s, lock ∙ l, always),
  )
  after_recode v w a i0 (err e) v' w' (_, st, l, al) ((secret, i), h) =
      let m = record (Account.memory a) { secret = secret } in
      (record a { memory = m }, recode_pending secret e a, kept a m v' w w' (i, st, l, al) h)

  exec-IsStepped :
      (x : Command) (v : Vault) (w : World) (a : Account)
      → Agrees c v w a
      → let (r, (v', w')) = exec os c x v w in IsStepped x a r v' w'
  unfolding exec
  exec-IsStepped (save_payload payload) v w a g =
      let s = save os c payload v w in
      after_save payload v w a s.0 s.1.0 s.1.1 g (
        save-IsWritten os c lawful random (IsReadable c) payload v w (Account.memory a) g.0
          (λ _ s. (record (Account.memory a) { payload = payload }, s)) g.3)
  exec-IsStepped (set_password password) v w a g =
      let s = change_password os c password v w in
      after_change password v w a s.0 s.1.0 s.1.1 g (
        change_password-IsChanged os c lawful random (IsReadable c) v w (Account.memory a) g.0
          password (λ _ s. (record (Account.memory a) { password = password }, s)) g.3)
  exec-IsStepped new_code v w a g =
      let s = regenerate_recovery os c v w in
      after_recode v w a g.0 s.0 s.1.0 s.1.1 g (
        regenerate_recovery-IsRecoded os c lawful random (IsReadable c) v w (Account.memory a) g.0
          (λ secret _ s. (record (Account.memory a) { secret = secret }, s)) g.3)

  -- Whatever an open vault is asked for, and whichever calls fail or find the process killed: what
  -- it answers is a history of the account, the vault and the file agree with the account at the
  -- end, and the file could be opened at every moment.
  pub run-IsHistory :
      (xs : List Command) (v : Vault) (w : World) (a : Account)
      → Agrees c v w a
      → let (rs, (v', w')) = run os c xs v w in
        (b : Account) × IsHistory xs rs a b × Agrees c v' w' b
  unfolding run IsStepped
  run-IsHistory [] v w a g = (a, done a, g)
  run-IsHistory (x ∷ xs) v w a g =
      let e = exec os c x v w in
      let (b, allowed, g') = exec-IsStepped x v w a g in
      let (d, history, g'') = run-IsHistory xs e.1.0 e.1.1 b g' in
      (d, next x e.0 xs (run os c xs e.1.0 e.1.1).0 a b d allowed history, g'')
