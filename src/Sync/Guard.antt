-- ===== src/Sync/Guard.antt =====
-- What a sync may overwrite: every upload names a version that the backend has just reported, of a
-- vault that this device last agreed with or that holds no hosts.
use wharf_tui.Base.{
  ℕ, suc, ◌≤◌, false, not, ◌&&◌, ◌≡◌, refl, inl, inr, Option, none, some, List, [], ◌∷◌, arith,
  Bool-cases, ◌==◌, ==_iff,
}
use wharf_tui.Base.Int.{ℤ, pos, int_eq, int_eq→eq}
use wharf_tui.Base.Text.{Str, str_eq}
use wharf_tui.Base.Results.{Result, ok, err}
use wharf_tui.Sync.{
  Bytes, SyncSession, Remote, Failure, no_vault, vault_conflict, email_not_verified,
  session_expired, other, Call, get_vault, put_vault, read_blob, save_session, remove_session, Env,
  State, Step,
}
use wharf_tui.Sync.Engine.{
  called, failure, count_hosts, commit, after_commit, after_put, after_blob, push_locked, diverged,
  after_agreement, after_open, after_get, sync_pass, sync_locked, rotate, persist_rotation, sync,
  active,
}

module _ (env : Env) (sess : SyncSession) (password : Bytes) where
  -- The last call was GetVault, and its answer allows to overwrite version `v`.
  pub data IsJustified (v : ℤ) : List Call → Type 0 where
    first_upload :
        {cs : List Call}
        → Env.get_answer env (get_vault ∷ cs) ≡ err no_vault
        → v ≡ pos 0
        → IsJustified v (get_vault ∷ cs)
    agreed :
        {cs : List Call} (r : Remote)
        → Env.get_answer env (get_vault ∷ cs) ≡ ok r
        → v ≡ Remote.version r
        → v ≡ SyncSession.last_version sess
        → IsJustified v (get_vault ∷ cs)
    empty_remote :
        {cs : List Call} (r : Remote) (p : Bytes)
        → Env.get_answer env (get_vault ∷ cs) ≡ ok r
        → v ≡ Remote.version r
        → Env.open_blob env (Remote.blob r) password ≡ ok p
        → count_hosts env p ≡ 0
        → IsJustified v (get_vault ∷ cs)

  -- The calls grew from `old` with `n` uploads, each of them justified.
  pub data Grew (old : List Call) : ℕ → List Call → Type 0 where
    same : {n : ℕ} → n ≡ 0 → Grew old n old
    asked : {n : ℕ} {cs : List Call} → Grew old n cs → Grew old n (get_vault ∷ cs)
    saved :
        {n : ℕ} {cs : List Call} (d : SyncSession)
        → Grew old n cs
        → Grew old n (save_session d ∷ cs)
    read : {n : ℕ} {cs : List Call} → Grew old n cs → Grew old n (read_blob ∷ cs)
    removed : {n : ℕ} {cs : List Call} → Grew old n cs → Grew old n (remove_session ∷ cs)
    uploaded :
        {n : ℕ} {cs : List Call} (b : Bytes) (v : ℤ)
        → Grew old n cs
        → IsJustified v cs
        → Grew old (suc n) (put_vault b v ∷ read_blob ∷ cs)

  module _ (old : List Call) where
    abbrev GrewBy : ℕ → State → Type 0
    GrewBy m s = (k : ℕ) × (k ≤ m) × Grew old k (State.calls s)

    -- From a state with `n` uploads the step makes no more than `m` in all.
    abbrev Ends : ℕ → ℕ → Step → Type 0
    Ends n m f =
        (s : State) → State.password s ≡ password → Grew old n (State.calls s) → GrewBy m (f s).1

    abbrev EndsAgain : ℕ → ℕ → Option Step → Type 0
    EndsAgain n m none = Unit {0}
    EndsAgain n m (some f) = Ends n m f

    failure-Ends : (e : Failure) (n m : ℕ) → n ≤ m → Ends n m (failure e)
    unfolding failure
    failure-Ends email_not_verified n m l s p g = (n, l, g)
    failure-Ends session_expired n m l s p g = (n, l, removed g)
    failure-Ends no_vault n m l s p g = (n, l, g)
    failure-Ends vault_conflict n m l s p g = (n, l, g)
    failure-Ends (other x) n m l s p g = (n, l, g)

    commit-Grew :
        (d : SyncSession) (v : ℤ) (fp : Str) (s : State) {n : ℕ}
        → Grew old n (State.calls s)
        → Grew old n (State.calls (commit env d v fp s).1)
    unfolding commit
    commit-Grew d v fp s g = saved _ g

    after_commit-Ends :
        (v : ℤ) (o : Option Failure) (n m : ℕ) → n ≤ m → Ends n m (after_commit env v o)
    unfolding after_commit
    after_commit-Ends v (some e) n m l s p g = (n, l, g)
    after_commit-Ends v none n m l s p g = (n, l, g)

    after_put-Ends :
        (again : Option Step) (fp : Str) (r : Result Failure ℤ) (n m : ℕ)
        → n ≤ m
        → EndsAgain n m again
        → Ends n m (after_put env again sess fp r)
    unfolding after_put
    after_put-Ends again fp (ok v) n m l a s p g =
        let (e, s') = commit env sess v fp s in
        after_commit-Ends v e n m l s' p (commit-Grew sess v fp s g)
    after_put-Ends none fp (err vault_conflict) n m l a s p g = (n, l, g)
    after_put-Ends (some f) fp (err vault_conflict) n m l a s p g = a s p g
    after_put-Ends again fp (err no_vault) n m l a s p g = failure-Ends no_vault n m l s p g
    after_put-Ends again fp (err email_not_verified) n m l a s p g =
        failure-Ends email_not_verified n m l s p g
    after_put-Ends again fp (err session_expired) n m l a s p g =
        failure-Ends session_expired n m l s p g
    after_put-Ends again fp (err (other x)) n m l a s p g = failure-Ends (other x) n m l s p g

    after_blob-Ends :
        (again : Option Step) (fp : Str) (v : ℤ) (r : Result Failure Bytes) (n m : ℕ) (s : State)
        → suc n ≤ m
        → EndsAgain (suc n) m again
        → State.password s ≡ password
        → Grew old n (State.calls s)
        → IsJustified v (State.calls s)
        → GrewBy m (after_blob env again sess fp v r (called read_blob s)).1
    unfolding after_blob
    after_blob-Ends again fp v (err e) n m s l a p g j = (n, omega arith, read g)
    after_blob-Ends again fp v (ok blob) n m s l a p g j =
        let s' = called (put_vault blob v) (called read_blob s) in
        after_put-Ends again fp (Env.put_answer env (State.calls s')) (suc n) m l a s' p
          (uploaded blob v g j)

    push_locked-Ends :
        (again : Option Step) (fp : Str) (v : ℤ) (n m : ℕ) (s : State)
        → suc n ≤ m
        → EndsAgain (suc n) m again
        → State.password s ≡ password
        → Grew old n (State.calls s)
        → IsJustified v (State.calls s)
        → GrewBy m (push_locked env again sess fp v s).1
    unfolding push_locked
    push_locked-Ends again fp v n m s l a p g j =
        after_blob-Ends again fp v (Env.blob_answer env (read_blob ∷ State.calls s)) n m s l a p g j

    after_agreement-Grew :
        (v : ℤ) (n m : ℕ) (o : Option Failure × State)
        → n ≤ m
        → Grew old n (State.calls o.1)
        → GrewBy m (after_agreement env v o).1
    unfolding after_agreement
    after_agreement-Grew v n m (some e, s) l g = (n, l, g)
    after_agreement-Grew v n m (none, s) l g = (n, l, g)

    module _ (again : Option Step) (payload : Bytes) (n m : ℕ) (l : suc n ≤ m)
        (a : EndsAgain (suc n) m again) (s : State) (p : State.password s ≡ password)
        (g : Grew old n (State.calls s)) where
      -- Nothing was uploaded.
      stays : (k : ℕ) × (k ≤ m) × Grew old k (State.calls s)
      stays = (n, omega arith, g)

      diverged-Grew :
          (r : Remote) (q : Bytes)
          → (count_hosts env q ≡ 0 → IsJustified (Remote.version r) (State.calls s))
          → GrewBy m (diverged env again sess payload r q s).1
      unfolding diverged
      diverged-Grew r q j = elim (Bool-cases (count_hosts env payload == 0)) [
        | inl e ↦ rw e stays
        | inr e ↦ rw e (elim (Bool-cases (count_hosts env q == 0)) [
          | inl z ↦ rw z (
              push_locked-Ends again (Env.fingerprint env payload) (Remote.version r) n m s l a p g
                (j ((==_iff _ 0).0 z)))
          | inr z ↦ rw z stays
        ])
      ]

      after_open-Grew :
          (r : Remote) (o : Result Failure Bytes)
          → ((q : Bytes)
              → o ≡ ok q
              → count_hosts env q ≡ 0
              → IsJustified (Remote.version r) (State.calls s))
          → GrewBy m (after_open env again sess payload r o s).1
      unfolding after_open
      after_open-Grew r (err e) j = stays
      after_open-Grew r (ok q) j =
          elim (Bool-cases (str_eq (Env.fingerprint env q) (Env.fingerprint env payload))) [
            | inl e ↦ rw e (
                after_agreement-Grew (Remote.version r) n m
                  (commit env sess (Remote.version r) (Env.fingerprint env payload) s) (omega arith)
                  (commit-Grew sess (Remote.version r) (Env.fingerprint env payload) s g))
            | inr e ↦
                rw e
                  (elim (Bool-cases
                    (str_eq (Env.fingerprint env payload) (SyncSession.last_fingerprint sess))) [
                      | inl f ↦ rw f stays
                      | inr f ↦ rw f (diverged-Grew r q (j q refl))
                    ])
          ]

    module _ (again : Option Step) (payload : Bytes) (n m : ℕ) (l : suc n ≤ m)
        (a : EndsAgain (suc n) m again) (cs : List Call) (s : State)
        (c : State.calls s ≡ get_vault ∷ cs) (p : State.password s ≡ password)
        (g : Grew old n (State.calls s)) where
      after_get-Grew :
          (o : Result Failure Remote)
          → Env.get_answer env (get_vault ∷ cs) ≡ o
          → GrewBy m (after_get env again sess payload o s).1
      unfolding after_get
      after_get-Grew (err no_vault) e = elim (Bool-cases (count_hosts env payload == 0)) [
        | inl z ↦ rw z (n, omega arith, g)
        | inr z ↦ rw z (
            push_locked-Ends again (Env.fingerprint env payload) (pos 0) n m s l a p g
              (rw c (first_upload e refl)))
      ]
      after_get-Grew (err vault_conflict) e = failure-Ends vault_conflict n m (omega arith) s p g
      after_get-Grew (err email_not_verified) e =
          failure-Ends email_not_verified n m (omega arith) s p g
      after_get-Grew (err session_expired) e = failure-Ends session_expired n m (omega arith) s p g
      after_get-Grew (err (other x)) e = failure-Ends (other x) n m (omega arith) s p g
      after_get-Grew (ok r) e =
          elim (Bool-cases (int_eq (Remote.version r) (SyncSession.last_version sess))) [
            | inl v ↦
                rw v
                  (elim (Bool-cases
                    (str_eq (Env.fingerprint env payload) (SyncSession.last_fingerprint sess))) [
                      | inl f ↦ rw f (n, omega arith, g)
                      | inr f ↦ rw f (
                          push_locked-Ends again (Env.fingerprint env payload) (Remote.version r) n
                            m s l a p g (rw c (agreed r e refl (int_eq→eq _ _ v))))
                    ])
            | inr v ↦
                rw v
                  (elim (Bool-cases
                    (str_eq (Env.fingerprint env payload) (SyncSession.last_fingerprint sess))) [
                      | inl f ↦ rw f (opened r e)
                      | inr f ↦ rw f (opened r e)
                    ])
          ]
        where
          opened :
              (r : Remote)
              → Env.get_answer env (get_vault ∷ cs) ≡ ok r
              → GrewBy m
                  (after_open env again sess payload r
                    (Env.open_blob env (Remote.blob r) (State.password s))
                    s).1
          opened r e =
              after_open-Grew again payload n m l a s p g r
                (Env.open_blob env (Remote.blob r) (State.password s))
                (λ q o z. rw c (empty_remote r q e refl (rw p at o) z))

    sync_pass-Ends :
        (again : Option Step) (payload : Bytes) (n m : ℕ)
        → suc n ≤ m
        → EndsAgain (suc n) m again
        → Ends n m (sync_pass env again sess payload)
    unfolding sync_pass
    sync_pass-Ends again payload n m l a s p g =
        after_get-Grew again payload n m l a (State.calls s) (called get_vault s) refl p (asked g)
          (Env.get_answer env (get_vault ∷ State.calls s)) refl

    sync_locked-Ends :
        (payload : Bytes) (n : ℕ) → Ends n (suc (suc n)) (sync_locked env sess payload)
    unfolding sync_locked
    sync_locked-Ends payload n =
        sync_pass-Ends (some (sync_pass env none sess payload)) payload n (suc (suc n))
          (omega arith) (sync_pass-Ends none payload (suc n) (suc (suc n)) (omega arith) tt)

rotate-Grew :
    (env : Env) (sess : SyncSession) (password : Bytes) (old : List Call) (o : Option SyncSession)
    (s : State) {n : ℕ}
    → Grew env sess password old n (State.calls s)
    → Grew env sess password old n (State.calls (rotate env o s))
unfolding rotate
rotate-Grew env sess password old none s g = g
rotate-Grew env sess password old (some d) s g =
    elim (Bool-cases (not (str_eq rt []) && not (str_eq rt (SyncSession.refresh_token d)))) [
      | inl e ↦ rw e (saved _ g)
      | inr e ↦ rw e g
    ]
  where
    rt : Str
    rt = Env.current_token env (State.calls s)

pub active-some :
    (env : Env) (s : State) (sess : SyncSession)
    → State.sess s ≡ some sess
    → State.closed s ≡ false
    → active env s ≡ some sess
unfolding active
active-some env s sess e c = ground arith

-- A sync makes at most two uploads. Each comes right after a GetVault (and the read of the blob),
-- and names as the version to replace: 0, where the backend has no vault; or else the version that
-- GetVault reported, where that is the one this device last agreed with, or where the payload of
-- that remote vault opens and holds no hosts.
pub sync-Grew :
    (env : Env) (payload : Bytes) (s : State) (sess : SyncSession)
    → State.sess s ≡ some sess
    → State.closed s ≡ false
    → (n : ℕ) × (n ≤ 2)
      × Grew env sess (State.password s) (State.calls s) n (State.calls (sync env payload s).1)
unfolding sync persist_rotation
sync-Grew env payload s sess e c =
    let (n, l, g) =
      sync_locked-Ends env sess (State.password s) (State.calls s) payload 0 s refl (same refl) in
    (
      n,
      l,
      simp (active-some env s sess e c)
          (rotate-Grew env sess (State.password s) (State.calls s) _ _ g),
    )
