-- ===== src/Vault/Disk.antt =====
-- What internal/vault/vault.go and lock.go ask of the operating system: the vault file beside its
-- temporary file, the lock, random bytes. Every call may fail, as `Os` says for its time.
pub mod Rules
pub mod Atomic
use wharf_tui.Base.{
  ℕ, zero, suc, Bool, true, false, Option, none, some, List, [], ◌∷◌, if◌then◌else◌, take,
}
use wharf_tui.Base.Results.{Result, ok, err}
use wharf_tui.Vault.{Error, locked, not_found, os_error}

abbrev pub Bytes : Type 0
Bytes = List ℕ

-- The directory of one vault. `past` lists what the vault file was after each call, the latest
-- first: what a process that was killed there leaves behind.
pub record World : Type 0 where
  pub file : Option Bytes
  pub tmp : Option Bytes
  pub is_locked : Bool
  pub clock : ℕ
  pub past : List (Option Bytes)

-- Whether the call at a time fails, how much a write that fails leaves, and the random bytes.
pub record Os : Type 0 where
  pub fails : ℕ → Bool
  pub written : ℕ → ℕ
  pub random : ℕ → ℕ → Bytes

-- A sequence of calls: a result, and the world after it. What was done stays done after an error.
abbrev pub Action {ℓ} : Type ℓ → Type ℓ
Action A = World → Result Error A × World

module _ {ℓ} {A : Type ℓ} where
  abbrev pub pure : A → Action A
  pure a w = (ok a, w)

  abbrev pub raise : Error → Action A
  raise e w = (err e, w)

infixl 5 ◌>>=◌ ◌>>◌
abbrev pub ◌>>=◌ {ℓ κ} : {A : Type ℓ} {B : Type κ} → Action A → (A → Action B) → Action B
◌>>=◌ m f w = let (r, w') = m w in elim r [ ok a ↦ f a w' | err e ↦ raise e w' ]

abbrev pub ◌>>◌ {ℓ κ} : {A : Type ℓ} {B : Type κ} → Action A → Action B → Action B
m >> k = m >>= λ _. k

-- `undo`, whose own error is dropped, where the action fails.
abbrev pub on_error {ℓ} : {A : Type ℓ} → (World → World) → Action A → Action A
on_error undo m w = let (r, w') = m w in elim r [ ok a ↦ pure a w' | err e ↦ raise e (undo w') ]

-- The end of a call.
abbrev pub tick : World → World
tick w = record w { clock = suc (World.clock w); past = World.file w ∷ World.past w }

abbrev pub unchanged : World → World
unchanged w = w

-- lock.Close()
unfoldable pub release_lock : World → World
release_lock w = tick (record w { is_locked = false })

-- errors.Is(err, ErrLocked)
unfoldable pub is_locked_error : Error → Bool
is_locked_error locked = true
is_locked_error _ = false

module _ (os : Os) where
  -- A call that has `done` as its effect, and `partly` when it fails.
  unfoldable pub call : (World → World) → (World → World) → Action (Unit {0})
  call partly done w =
      if Os.fails os (World.clock w)
      then raise os_error (tick (partly w))
      else pure tt (tick (done w))

  unfoldable pub rand_read : ℕ → Action Bytes
  rand_read n w =
      if Os.fails os (World.clock w)
      then raise os_error (tick w)
      else pure (Os.random os (World.clock w) n) (tick w)

  -- os.Remove(tmpPath)
  unfoldable pub remove_tmp : World → World
  remove_tmp w = (call unchanged (λ w. record w { tmp = none }) w).1

  -- os.OpenFile(tmpPath, os.O_CREATE|os.O_TRUNC|os.O_WRONLY, 0600)
  abbrev pub create_tmp : Action (Unit {0})
  create_tmp = call unchanged (λ w. record w { tmp = some [] })

  -- f.Write
  abbrev pub write_tmp : Bytes → Action (Unit {0})
  write_tmp data' =
      call (λ w. record w { tmp = some (take (Os.written os (World.clock w)) data') })
        (λ w. record w { tmp = some data' })

  -- f.Sync, and f.Close
  abbrev pub flush : Action (Unit {0})
  flush = call unchanged unchanged

  -- os.Rename
  abbrev pub rename_tmp : Action (Unit {0})
  rename_tmp = call unchanged (λ w. record w { file = World.tmp w; tmp = none })

  unfoldable pub fill_tmp : Bytes → Action (Unit {0})
  fill_tmp data' = do write_tmp data'; flush; flush; rename_tmp

  -- writeFileAtomic. What the last calls, on the directory, answer is not looked at.
  unfoldable pub write_file_atomic : Bytes → Action (Unit {0})
  write_file_atomic data' = do
    create_tmp
    on_error remove_tmp (fill_tmp data')
    λ w. pure tt (flush w).1

  -- acquireLock: the sidecar is opened, and locked unless it is.
  unfoldable pub acquire_lock : Action (Unit {0})
  acquire_lock = do
    call unchanged unchanged
    λ w.
        if World.is_locked w
        then raise locked (tick w)
        else call unchanged (λ w. record w { is_locked = true }) w

  -- InUse
  unfoldable pub in_use : World → Bool × World
  in_use w =
      let (r, w') = acquire_lock w in
      elim r [ ok _ ↦ (false, release_lock w') | err e ↦ (is_locked_error e, w') ]

  -- Exists
  unfoldable pub exists : World → Bool × World
  exists w = (
    if Os.fails os (World.clock w)
        then false
        else elim (World.file w) [ none ↦ false | some _ ↦ true ],
    tick w,
  )

  -- os.ReadFile, with the test for a file that is gone.
  unfoldable pub read_file : Action Bytes
  read_file w = elim (World.file w) [
    | none ↦ raise not_found (tick w)
    | some data' ↦
        if Os.fails os (World.clock w) then raise os_error (tick w) else pure data' (tick w)
  ]
