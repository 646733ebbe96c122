-- ===== src/Vault/Disk/Atomic.antt =====
-- writeFileAtomic at every point at which a call may fail or the process may be killed.
use wharf_tui.Base.{◌≡◌, refl, Option, none, some, [], take}
use wharf_tui.Base.Results.{Result, ok, err}
use wharf_tui.Base.Find.{All}
use wharf_tui.Vault.{Error}
use wharf_tui.Vault.Disk.{
  Bytes, World, Os, Action, pure, ◌>>=◌, ◌>>◌, on_error, tick, call, remove_tmp, unchanged,
  fill_tmp, write_file_atomic, flush, rename_tmp,
}
use wharf_tui.Vault.Disk.Rules.{Ends, AndThen, Undone, Ends-bind, Ends-on_error, Ends-call}

-- The vault file satisfies `P` now and at every earlier moment.
abbrev pub Always : (Option Bytes → Type 0) → World → Type 0
Always P w = P (World.file w) × All P (World.past w)

module _ (P : Option Bytes → Type 0) (w : World) where
  -- The file and the lock as they were, and a file in `P` at every moment.
  abbrev pub IsAsBefore : World → Type 0
  IsAsBefore w' =
      (World.file w' ≡ World.file w) × (World.is_locked w' ≡ World.is_locked w) × Always P w'

module _ (P : Option Bytes → Type 0) (data' : Bytes) (w : World) where
  -- What a write of `data'` from `w` leaves: the data if it succeeds, else the old file; the lock as
  -- it was; and a file in `P` at every moment, if the old file and the data are.
  abbrev pub IsReplaced : Result Error (Unit {0}) → World → Type 0
  IsReplaced (ok _) w' =
      (World.file w' ≡ some data') × (World.is_locked w' ≡ World.is_locked w) × Always P w'
  IsReplaced (err e) w' = IsAsBefore P w w'

module _ (os : Os) (P : Option Bytes → Type 0) (data' : Bytes) (w : World) where
  -- A call, and then the rest.
  step :
      (partly done : World → World) (rest : Action (Unit {0})) (w' : World)
      → IsAsBefore P w (tick (partly w'))
      → Ends rest (IsReplaced P data' w) (tick (done w'))
      → Ends (call os partly done >> rest) (IsReplaced P data' w) w'
  step partly done rest w' fails works =
      Ends-bind (λ _. rest) (IsReplaced P data' w) (call os partly done) w'
        (Ends-call os partly done (AndThen (λ _. rest) (IsReplaced P data' w)) w' fails works)

  fill_tmp-IsReplaced :
      (w' : World)
      → P (some data')
      → IsAsBefore P w w'
      → Ends (fill_tmp os data') (IsReplaced P data' w) w'
  unfolding fill_tmp
  fill_tmp-IsReplaced w' new (same, lock, (now, before)) =
      step (λ w. record w { tmp = some (take (Os.written os (World.clock w)) data') })
        (λ w. record w { tmp = some data' }) (flush os >> (flush os >> rename_tmp os)) w'
        (same, lock, (now, (now, before)))
        (step unchanged unchanged (flush os >> rename_tmp os)
          (tick (record w' { tmp = some data' })) (same, lock, (now, (now, (now, before))))
          (step unchanged unchanged (rename_tmp os) (tick (tick (record w' { tmp = some data' })))
            (same, lock, (now, (now, (now, (now, before)))))
            (Ends-call os unchanged (λ w. record w { file = World.tmp w; tmp = none })
              (IsReplaced P data' w) (tick (tick (tick (record w' { tmp = some data' }))))
              (same, lock, (now, (now, (now, (now, (now, before))))))
              (refl, lock, (new, (new, (now, (now, (now, before)))))))))

  sync_dir : Unit {0} → Action (Unit {0})
  sync_dir _ w = pure tt (flush os w).1

  -- What is left to do after the temporary file was filled or not.
  after_fill :
      (r : Result Error (Unit {0})) (w' : World)
      → (IsReplaced P data' w) r w'
      → Undone (remove_tmp os) (AndThen sync_dir (IsReplaced P data' w)) r w'
  unfolding remove_tmp sync_dir
  after_fill (ok _) w' (same, lock, (now, before)) =
      Ends-call os unchanged unchanged (λ _ w'. (IsReplaced P data' w) (ok tt) w') w'
        (same, lock, (now, (now, before))) (same, lock, (now, (now, before)))
  after_fill (err e) w' (same, lock, (now, before)) =
      Ends-call os unchanged (λ w. record w { tmp = none })
        (λ _ w'. (IsReplaced P data' w) (err e) w') w' (same, lock, (now, (now, before)))
        (same, lock, (now, (now, before)))

  pub write_file_atomic-IsReplaced :
      P (some data') → Always P w → Ends (write_file_atomic os data') (IsReplaced P data' w) w
  unfolding write_file_atomic sync_dir
  write_file_atomic-IsReplaced new (now, before) =
      let w1 = tick (record w { tmp = some [] }) in
      let filled = on_error (remove_tmp os) (fill_tmp os data') in
      step unchanged (λ w. record w { tmp = some [] }) (filled >>= sync_dir) w
        (refl, refl, (now, (now, before)))
        (Ends-bind sync_dir (IsReplaced P data' w) filled w1 (
          Ends-on_error (remove_tmp os) (AndThen sync_dir (IsReplaced P data' w))
            (fill_tmp os data') w1
            (after_fill (fill_tmp os data' w1).0 (fill_tmp os data' w1).1
              (fill_tmp-IsReplaced w1 new (refl, refl, (now, (now, before)))))))
