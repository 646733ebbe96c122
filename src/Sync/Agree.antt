-- ===== src/Sync/Agree.antt =====
-- What an agreement is worth: once a payload and a version are recorded, by a push or by an
-- adoption, the engine has nothing to do until one of the sides changes.
use wharf_tui.Base.{
  [], if◌then◌else◌, true, false, ◌≡◌, refl, ◌∙◌, ap, sym, Option, none, some, ◌∷◌,
}
use wharf_tui.Base.Int.{ℤ, int_eq_refl}
use wharf_tui.Base.Text.{Str, str_eq_refl}
use wharf_tui.Base.Results.{Result, ok, err}
use wharf_tui.Sync.{
  Bytes, SyncSession, Remote, Failure, Outcome, nothing_done, get_vault, set_tokens, Env, State,
  Step,
}
use wharf_tui.Sync.Engine.{called, commit, after_get, sync_pass, sync_locked, sync, commit_adopt}
use wharf_tui.Sync.Lifecycle.{Refused, engine_closed, Account, new_session, attach}
use wharf_tui.Sync.Guard.{active-some}
use wharf_tui.Sync.Session.{IsSound, sync-IsSound}

after_get-agreed :
    (env : Env) (again : Option Step) (sess : SyncSession) (payload : Bytes) (r : Remote)
    (s : State)
    → Remote.version r ≡ SyncSession.last_version sess
    → SyncSession.last_fingerprint sess ≡ Env.fingerprint env payload
    → after_get env again sess payload (ok r) s
      ≡ (record nothing_done { version = Remote.version r }, s)
unfolding after_get
after_get-agreed env again sess payload r s v f =
    rw
      (v, f, int_eq_refl (SyncSession.last_version sess), str_eq_refl (Env.fingerprint env payload))
      refl

-- A sync of a payload on which both sides agree, at the version that the backend reports.
sync-agreed :
    (env : Env) (payload : Bytes) (s : State) (sess : SyncSession) (r : Remote)
    → State.sess s ≡ some sess
    → State.closed s ≡ false
    → Env.get_answer env (get_vault ∷ State.calls s) ≡ ok r
    → Remote.version r ≡ SyncSession.last_version sess
    → SyncSession.last_fingerprint sess ≡ Env.fingerprint env payload
    → (sync env payload s).0 ≡ record nothing_done { version = Remote.version r }
unfolding sync sync_locked sync_pass
sync-agreed env payload s sess r e c g v f =
    simp (active-some env s sess e c, g)
      (ap (λ p. p.0)
        (after_get-agreed env (some (sync_pass env none sess payload)) sess payload r
          (called get_vault s) v f))

-- After a sync that pushed, a sync of the same payload does nothing but report the version, as long
-- as the engine is open and the backend still reports the version of the push.
pub sync_after_push :
    (env : Env) (payload : Bytes) (s : State) (sess : SyncSession) (r : Remote)
    → State.sess s ≡ some sess
    → State.closed s ≡ false
    → Outcome.pushed (sync env payload s).0 ≡ true
    → State.closed (sync env payload s).1 ≡ false
    → Env.get_answer env (get_vault ∷ State.calls (sync env payload s).1) ≡ ok r
    → Remote.version r ≡ Outcome.version (sync env payload s).0
    → (sync env payload (sync env payload s).1).0
      ≡ record nothing_done { version = Remote.version r }
sync_after_push env payload s sess r e c p c' g v =
    let (d, h, lv, lf, q) = IsSound.recorded (sync-IsSound env payload s sess e c) p in
    sync-agreed env payload (sync env payload s).1 d r h c' g (v ∙ sym lv) lf

-- After the adoption of a payload at a version, a sync of that payload does nothing but report the
-- version, as long as the backend still reports it.
pub sync_after_adopt :
    (env : Env) (payload : Bytes) (s : State) (sess : SyncSession) (r : Remote)
    → State.sess s ≡ some sess
    → State.closed s ≡ false
    → Env.get_answer env (get_vault ∷ State.calls (commit_adopt env (Remote.version r) payload s).1)
      ≡ ok r
    → (sync env payload (commit_adopt env (Remote.version r) payload s).1).0
      ≡ record nothing_done { version = Remote.version r }
unfolding commit_adopt commit
sync_after_adopt env payload s sess r e c g =
    sync-agreed env payload (commit_adopt env (Remote.version r) payload s).1
      (record sess {
        last_version = Remote.version r;
        last_fingerprint = Env.fingerprint env payload;
      })
      r (rw e refl) (rw e c) g refl refl

-- The session that Attach leaves, and its engine.
abbrev agreed_session : Env → Account → ℤ → Bytes → SyncSession
agreed_session env a version payload = record (new_session a) {
  last_version = version;
  last_fingerprint = Env.fingerprint env payload;
}

abbrev attached : Env → Account → ℤ → Bytes → State → State
attached env a version payload s =
    (commit env (new_session a) version (Env.fingerprint env payload)
      (called (set_tokens [] (Account.refresh_token a)) s)).1

attach_open :
    (env : Env) (a : Account) (version : ℤ) (payload : Bytes) (s : State)
    → State.closed s ≡ false
    → (attach env a version payload s).1 ≡ attached env a version payload s
unfolding attach
attach_open env a version payload s c =
    ap
      (λ b.
        (if◌then◌else◌ {A = Result Refused (Option Failure) × State} b (err engine_closed, s)
          (ok agreed.0, agreed.1)).1)
      c
  where
    agreed : Option Failure × State
    agreed =
        commit env (new_session a) version (Env.fingerprint env payload)
          (called (set_tokens [] (Account.refresh_token a)) s)

closed-commit :
    (env : Env) (d : SyncSession) (version : ℤ) (fp : Str) (s : State)
    → State.closed (commit env d version fp s).1 ≡ State.closed s
unfolding commit
closed-commit env d version fp s = refl

sess-commit :
    (env : Env) (d : SyncSession) (version : ℤ) (fp : Str) (s : State)
    → State.sess (commit env d version fp s).1
      ≡ some (record d { last_version = version; last_fingerprint = fp })
unfolding commit
sess-commit env d version fp s = refl

-- After Attach with the payload of a version that the device installed, the first sync of that payload
-- does nothing but report the version, as long as the engine is open and the backend still reports it.
pub sync_after_attach :
    (env : Env) (a : Account) (payload : Bytes) (s : State) (r : Remote)
    → State.closed s ≡ false
    → Env.get_answer env (get_vault ∷ State.calls (attach env a (Remote.version r) payload s).1)
      ≡ ok r
    → (sync env payload (attach env a (Remote.version r) payload s).1).0
      ≡ record nothing_done { version = Remote.version r }
sync_after_attach env a payload s r c g =
    let e = attach_open env a (Remote.version r) payload s c in
    let fp = Env.fingerprint env payload in
    let s' = called (set_tokens [] (Account.refresh_token a)) s in
    rw e (
      sync-agreed env payload (attached env a (Remote.version r) payload s)
        (agreed_session env a (Remote.version r) payload) r
        (sess-commit env (new_session a) (Remote.version r) fp s')
        (closed-commit env (new_session a) (Remote.version r) fp s' ∙ c) (rw e at g) refl refl)
