-- ===== src/Sync/Session.antt =====
-- What a sync leaves of the session: a push is recorded, and the pairing is dropped only where the
-- backend says that the session is dead.
use wharf_tui.Base.{
  true, false, not, ◌&&◌, ◌≡◌, refl, ◌∙◌, ap, sym, inl, inr, Option, none, some, [], ◌∷◌, arith,
  Bool-cases, ◌==◌,
}
use wharf_tui.Base.Int.{ℤ, pos, int_eq}
use wharf_tui.Base.Text.{Str, str_eq}
use wharf_tui.Base.Results.{Result, ok, err}
use wharf_tui.Sync.{
  Bytes, SyncSession, Remote, Failure, no_vault, vault_conflict, email_not_verified,
  session_expired, other, Outcome, get_vault, put_vault, read_blob, Env, State, Step,
}
use wharf_tui.Sync.Engine.{
  called, failure, count_hosts, commit, after_commit, after_put, after_blob, push_locked, diverged,
  after_agreement, after_open, after_get, sync_pass, sync_locked, rotate, persist_rotation, sync,
}
use wharf_tui.Sync.Guard.{active-some}

-- The account of a session.
abbrev pub SameAccount : SyncSession → SyncSession → Type 0
SameAccount a b =
    (SyncSession.email a ≡ SyncSession.email b) × (SyncSession.user_id a ≡ SyncSession.user_id b)

-- What an operation leaves, of a session `sess` and a payload with the fingerprint `fp`.
pub record IsSound (sess : SyncSession) (fp : Str) (o : Outcome × State) : Type 0 where
  -- A push is recorded as agreed, and settles a conflict.
  pub recorded :
      Outcome.pushed o.0 ≡ true
      → (d : SyncSession) × (State.sess o.1 ≡ some d)
        × (SyncSession.last_version d ≡ Outcome.version o.0)
        × (SyncSession.last_fingerprint d ≡ fp)
        × (State.pending o.1 ≡ none)
  -- A dead session leaves nothing.
  pub dead : Outcome.session_dead o.0 ≡ true → (State.sess o.1 ≡ none) × (State.pending o.1 ≡ none)
  -- Any other leaves the pairing, with its account.
  pub paired :
      Outcome.session_dead o.0 ≡ false
      → (d : SyncSession) × (State.sess o.1 ≡ some d) × SameAccount d sess

module _ (env : Env) (sess : SyncSession) (payload : Bytes) where
  abbrev fp : Str
  fp = Env.fingerprint env payload

  abbrev Sound : Step → Type 0
  Sound f = (s : State) → State.sess s ≡ some sess → IsSound sess fp (f s)

  abbrev SoundAgain : Option Step → Type 0
  SoundAgain none = Unit {0}
  SoundAgain (some f) = Sound f

  -- An outcome that neither pushed nor ended the session.
  still :
      (res : Outcome) (s : State) (d : SyncSession)
      → Outcome.pushed res ≡ false
      → Outcome.session_dead res ≡ false
      → State.sess s ≡ some d
      → SameAccount d sess
      → IsSound sess fp (res, s)
  still res s d p q e a = record {
    recorded = λ t. absurd (ground arith);
    dead = λ t. absurd (ground arith);
    paired = λ t. (d, e, a);
  }

  failure-Sound : (e : Failure) → Sound (failure e)
  unfolding failure
  failure-Sound email_not_verified s h = still _ s sess refl refl h (refl, refl)
  failure-Sound session_expired s h = record {
    recorded = λ t. absurd (ground arith);
    dead = λ t. (refl, refl);
    paired = λ t. absurd (ground arith);
  }
  failure-Sound no_vault s h = still _ s sess refl refl h (refl, refl)
  failure-Sound vault_conflict s h = still _ s sess refl refl h (refl, refl)
  failure-Sound (other x) s h = still _ s sess refl refl h (refl, refl)

  after_commit-Sound :
      (v : ℤ) (o : Option Failure) (s : State) (d : SyncSession)
      → State.sess s ≡ some d
      → SameAccount d sess
      → SyncSession.last_version d ≡ v
      → SyncSession.last_fingerprint d ≡ fp
      → IsSound sess fp (after_commit env v o s)
  unfolding after_commit
  after_commit-Sound v (some e) s d h a p q = still _ s d refl refl h a
  after_commit-Sound v none s d h a p q = record {
    recorded = λ t. (d, h, p, q, refl);
    dead = λ t. absurd (ground arith);
    paired = λ t. (d, h, a);
  }

  after_put-Sound :
      (again : Option Step) (r : Result Failure ℤ)
      → SoundAgain again
      → Sound (after_put env again sess fp r)
  unfolding after_put commit
  after_put-Sound again (ok v) a s h =
      let (e, s') = commit env sess v fp s in
      after_commit-Sound v e s' (record sess { last_version = v; last_fingerprint = fp }) refl
        (refl, refl) refl refl
  after_put-Sound none (err vault_conflict) a s h = still _ s sess refl refl h (refl, refl)
  after_put-Sound (some f) (err vault_conflict) a s h = a s h
  after_put-Sound again (err no_vault) a s h = failure-Sound no_vault s h
  after_put-Sound again (err email_not_verified) a s h = failure-Sound email_not_verified s h
  after_put-Sound again (err session_expired) a s h = failure-Sound session_expired s h
  after_put-Sound again (err (other x)) a s h = failure-Sound (other x) s h

  after_blob-Sound :
      (again : Option Step) (v : ℤ) (r : Result Failure Bytes)
      → SoundAgain again
      → Sound (after_blob env again sess fp v r)
  unfolding after_blob
  after_blob-Sound again v (err e) a s h = still _ s sess refl refl h (refl, refl)
  after_blob-Sound again v (ok blob) a s h =
      let s' = called (put_vault blob v) s in
      after_put-Sound again (Env.put_answer env (State.calls s')) a s' h

  push_locked-Sound :
      (again : Option Step) (v : ℤ) → SoundAgain again → Sound (push_locked env again sess fp v)
  unfolding push_locked
  push_locked-Sound again v a s h =
      after_blob-Sound again v (Env.blob_answer env (read_blob ∷ State.calls s)) a
        (called read_blob s) h

  after_agreement-Sound :
      (v : ℤ) (o : Option Failure × State) (d : SyncSession)
      → State.sess o.1 ≡ some d
      → SameAccount d sess
      → IsSound sess fp (after_agreement env v o)
  unfolding after_agreement
  after_agreement-Sound v (some e, s) d h a = still _ s d refl refl h a
  after_agreement-Sound v (none, s) d h a = still _ s d refl refl h a

  diverged-Sound :
      (again : Option Step) (r : Remote) (q : Bytes)
      → SoundAgain again
      → Sound (diverged env again sess payload r q)
  unfolding diverged
  diverged-Sound again r q a s h = elim (Bool-cases (count_hosts env payload == 0)) [
    | inl e ↦ rw e (still _ s sess refl refl h (refl, refl))
    | inr e ↦ rw e (elim (Bool-cases (count_hosts env q == 0)) [
      | inl z ↦ rw z (push_locked-Sound again (Remote.version r) a s h)
      | inr z ↦ rw z (still _ _ sess refl refl h (refl, refl))
    ])
  ]

  after_open-Sound :
      (again : Option Step) (r : Remote) (o : Result Failure Bytes)
      → SoundAgain again
      → Sound (after_open env again sess payload r o)
  unfolding after_open commit
  after_open-Sound again r (err e) a s h = still _ s sess refl refl h (refl, refl)
  after_open-Sound again r (ok q) a s h = elim (Bool-cases (str_eq (Env.fingerprint env q) fp)) [
    | inl e ↦ rw e (
        after_agreement-Sound (Remote.version r) (commit env sess (Remote.version r) fp s)
          (record sess { last_version = Remote.version r; last_fingerprint = fp }) refl
          (refl, refl))
    | inr e ↦ rw e (elim (Bool-cases (str_eq fp (SyncSession.last_fingerprint sess))) [
      | inl f ↦ rw f (still _ s sess refl refl h (refl, refl))
      | inr f ↦ rw f (diverged-Sound again r q a s h)
    ])
  ]

  after_get-Sound :
      (again : Option Step) (o : Result Failure Remote)
      → SoundAgain again
      → Sound (after_get env again sess payload o)
  unfolding after_get
  after_get-Sound again (err no_vault) a s h = elim (Bool-cases (count_hosts env payload == 0)) [
    | inl z ↦ rw z (still _ s sess refl refl h (refl, refl))
    | inr z ↦ rw z (push_locked-Sound again (pos 0) a s h)
  ]
  after_get-Sound again (err vault_conflict) a s h = failure-Sound vault_conflict s h
  after_get-Sound again (err email_not_verified) a s h = failure-Sound email_not_verified s h
  after_get-Sound again (err session_expired) a s h = failure-Sound session_expired s h
  after_get-Sound again (err (other x)) a s h = failure-Sound (other x) s h
  after_get-Sound again (ok r) a s h =
      elim (Bool-cases (int_eq (Remote.version r) (SyncSession.last_version sess))) [
        | inl v ↦ rw v (elim (Bool-cases (str_eq fp (SyncSession.last_fingerprint sess))) [
          | inl f ↦ rw f (still _ s sess refl refl h (refl, refl))
          | inr f ↦ rw f (push_locked-Sound again (Remote.version r) a s h)
        ])
        | inr v ↦ rw v (elim (Bool-cases (str_eq fp (SyncSession.last_fingerprint sess))) [
          | inl f ↦ rw f (
              after_open-Sound again r (Env.open_blob env (Remote.blob r) (State.password s)) a s h)
          | inr f ↦ rw f (
              after_open-Sound again r (Env.open_blob env (Remote.blob r) (State.password s)) a s h)
        ])
      ]

  sync_pass-Sound :
      (again : Option Step) → SoundAgain again → Sound (sync_pass env again sess payload)
  unfolding sync_pass
  sync_pass-Sound again a s h =
      after_get-Sound again (Env.get_answer env (get_vault ∷ State.calls s)) a (called get_vault s)
        h

  sync_locked-Sound : Sound (sync_locked env sess payload)
  unfolding sync_locked
  sync_locked-Sound =
      sync_pass-Sound (some (sync_pass env none sess payload)) (sync_pass-Sound none tt)

  -- Saving a rotated token changes nothing else.
  rotate-Sound :
      (res : Outcome) (s : State) (o : Option SyncSession)
      → State.sess s ≡ o
      → IsSound sess fp (res, s)
      → IsSound sess fp (res, rotate env o s)
  unfolding rotate
  rotate-Sound res s none e i = i
  rotate-Sound res s (some d) e i =
      elim (Bool-cases (not (str_eq rt []) && not (str_eq rt (SyncSession.refresh_token d)))) [
        | inr n ↦ rw n i
        | inl y ↦ rw y (record {
          recorded = λ t.
              let (d', h, p, q, z) = i.recorded t in
              let k = found d' h in
              (
                record d { refresh_token = rt },
                refl,
                ap SyncSession.last_version (sym k) ∙ p,
                ap SyncSession.last_fingerprint (sym k) ∙ q,
                z,
              );
          dead = λ t. absurd (ground (arith, i.dead t, e));
          paired = λ t.
              let (d', h, a) = i.paired t in
              let k = found d' h in
              (
                record d { refresh_token = rt },
                refl,
                (ap SyncSession.email (sym k) ∙ a.0, ap SyncSession.user_id (sym k) ∙ a.1),
              );
        })
      ]
    where
      rt : Str
      rt = Env.current_token env (State.calls s)

      found : (d' : SyncSession) → State.sess s ≡ some d' → d' ≡ d
      found d' h = cc

-- After a sync of a paired, open engine: a push is recorded in the session (the version that was
-- returned and the fingerprint of the payload) and settles a pending conflict; an outcome of
-- `SessionDead` leaves neither session nor conflict; any other outcome leaves a session of the same
-- account.
pub sync-IsSound :
    (env : Env) (payload : Bytes) (s : State) (sess : SyncSession)
    → State.sess s ≡ some sess
    → State.closed s ≡ false
    → IsSound sess (Env.fingerprint env payload) (sync env payload s)
unfolding sync persist_rotation
sync-IsSound env payload s sess e c =
    let (res, s') = sync_locked env sess payload s in
    simp (active-some env s sess e c) (
      rotate-Sound env sess payload res s' (State.sess s') refl
        (sync_locked-Sound env sess payload s e))
