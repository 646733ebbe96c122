-- ===== src/Sync/Engine.antt =====
-- internal/sync/engine.go: the operations of the engine on the personal vault.
use wharf_tui.Base.{
  ℕ, Bool, true, false, not, ◌&&◌, Option, none, some, [], ◌∷◌, if◌then◌else◌, ◌==◌,
}
use wharf_tui.Base.Int.{ℤ, pos, int_eq}
use wharf_tui.Base.Text.{Str, str_eq}
use wharf_tui.Base.Results.{Result, ok, err}
use wharf_tui.Sync.{
  Bytes, SyncSession, Pending, Remote, Failure, no_vault, vault_conflict, email_not_verified,
  session_expired, other, Outcome, nothing_done, Call, get_vault, put_vault, read_blob,
  save_session, remove_session, set_tokens, Env, State, Step,
}

abbrev pub called : Call → State → State
called c s = record s { calls = c ∷ State.calls s }

-- Result{Err: err}
abbrev pub failed_with : Failure → Outcome
failed_with e = record nothing_done { failed = some e }

-- failure
unfoldable pub failure : Failure → Step
failure email_not_verified s = (record nothing_done { email_unverified = true }, s)
failure session_expired s = (
  record nothing_done { session_dead = true },
  record (called remove_session s) { sess = none; pending = none },
)
failure no_vault s = (failed_with no_vault, s)
failure vault_conflict s = (failed_with vault_conflict, s)
failure (other n) s = (failed_with (other n), s)

module _ (env : Env) where
  -- countHosts
  unfoldable pub count_hosts : Bytes → ℕ
  count_hosts [] = 0
  count_hosts (b ∷ payload) = elim (Env.parsed_hosts env (b ∷ payload)) [ none ↦ 0 | some n ↦ n ]

  -- commit, of a session that is there.
  unfoldable pub commit : SyncSession → ℤ → Str → State → Option Failure × State
  commit sess version fp s =
      let sess' = record sess { last_version = version; last_fingerprint = fp } in
      let s' = record (called (save_session sess') s) { sess = some sess' } in
      (Env.save_answer env (State.calls s'), s')

  -- The end of a push: what the failure to save the session makes of it.
  unfoldable pub after_commit : ℤ → Option Failure → Step
  after_commit version (some e) s = (failed_with e, s)
  after_commit version none s =
      (record nothing_done { pushed = true; version = version }, record s { pending = none })

  -- pushLocked after PutVault. `again` is the pass to make on a lost race; `none` for
  -- `retryOn409 == false`.
  unfoldable pub after_put : Option Step → SyncSession → Str → Result Failure ℤ → Step
  unfolding commit after_commit failure
  after_put again sess fp (ok version) s =
      let (e, s') = commit sess version fp s in after_commit version e s'
  after_put none sess fp (err vault_conflict) s = (failed_with vault_conflict, s)
  after_put (some again) sess fp (err vault_conflict) s = again s
  after_put again sess fp (err no_vault) s = failure no_vault s
  after_put again sess fp (err email_not_verified) s = failure email_not_verified s
  after_put again sess fp (err session_expired) s = failure session_expired s
  after_put again sess fp (err (other n)) s = failure (other n) s

  unfoldable pub after_blob : Option Step → SyncSession → Str → ℤ → Result Failure Bytes → Step
  after_blob again sess fp expected (err e) s = (failed_with e, s)
  after_blob again sess fp expected (ok blob) s =
      let s' = called (put_vault blob expected) s in
      after_put again sess fp (Env.put_answer env (State.calls s')) s'

  -- pushLocked
  unfoldable pub push_locked : Option Step → SyncSession → Str → ℤ → Step
  push_locked again sess fp expected s =
      let s' = called read_blob s in
      after_blob again sess fp expected (Env.blob_answer env (State.calls s')) s'

  -- Both sides changed, and the remote payload differs.
  unfoldable pub diverged : Option Step → SyncSession → Bytes → Remote → Bytes → Step
  diverged again sess payload remote remote_payload s =
      let lh = count_hosts payload in
      let rh = count_hosts remote_payload in
      if lh == 0
      then (
        record nothing_done { adopt = some remote_payload; adopt_version = Remote.version remote },
        s,
      )
      else if rh == 0
      then push_locked again sess (Env.fingerprint env payload) (Remote.version remote) s
      else (
        record nothing_done {
          conflict = some (record {
            local_hosts = lh;
            remote_hosts = rh;
            remote_version = Remote.version remote;
            remote_updated_at = Remote.updated_at remote;
          });
        },
        record s {
          pending = some (record { payload = remote_payload; version = Remote.version remote });
        },
      )

  -- The agreement is recorded where both sides hold the same content.
  unfoldable pub after_agreement : ℤ → Option Failure × State → Outcome × State
  after_agreement version (some e, s) = (failed_with e, s)
  after_agreement version (none, s) = (record nothing_done { version = version }, s)

  -- The remote moved: its payload decides.
  unfoldable pub after_open :
      Option Step → SyncSession → Bytes → Remote → Result Failure Bytes → Step
  after_open again sess payload remote (err e) s = (failed_with e, s)
  after_open again sess payload remote (ok remote_payload) s =
      let fp = Env.fingerprint env payload in
      if str_eq (Env.fingerprint env remote_payload) fp
      then after_agreement (Remote.version remote) (commit sess (Remote.version remote) fp s)
      else if str_eq fp (SyncSession.last_fingerprint sess)
      then (
        record nothing_done { adopt = some remote_payload; adopt_version = Remote.version remote },
        s,
      )
      else diverged again sess payload remote remote_payload s

  -- syncLocked after GetVault.
  unfoldable pub after_get : Option Step → SyncSession → Bytes → Result Failure Remote → Step
  unfolding failure
  after_get again sess payload (err no_vault) s =
      if count_hosts payload == 0
      then (nothing_done, s)
      else push_locked again sess (Env.fingerprint env payload) (pos 0) s
  after_get again sess payload (err vault_conflict) s = failure vault_conflict s
  after_get again sess payload (err email_not_verified) s = failure email_not_verified s
  after_get again sess payload (err session_expired) s = failure session_expired s
  after_get again sess payload (err (other n)) s = failure (other n) s
  after_get again sess payload (ok remote) s =
      let local_changed =
        not (str_eq (Env.fingerprint env payload) (SyncSession.last_fingerprint sess)) in
      let remote_moved = not (int_eq (Remote.version remote) (SyncSession.last_version sess)) in
      if not local_changed && not remote_moved
      then (record nothing_done { version = Remote.version remote }, s)
      else if local_changed && not remote_moved
      then push_locked again sess (Env.fingerprint env payload) (Remote.version remote) s
      else after_open again sess payload remote
          (Env.open_blob env (Remote.blob remote) (State.password s)) s

  -- One evaluation pass of syncLocked.
  unfoldable pub sync_pass : Option Step → SyncSession → Bytes → Step
  sync_pass again sess payload s =
      let s' = called get_vault s in
      after_get again sess payload (Env.get_answer env (State.calls s')) s'

  -- syncLocked with `retryOn409`: a lost race leaves the session as it is, so the second pass has
  -- the same one.
  unfoldable pub sync_locked : SyncSession → Bytes → Step
  sync_locked sess payload = sync_pass (some (sync_pass none sess payload)) sess payload

  -- persistRotation, of a session that is there.
  unfoldable pub rotate : Option SyncSession → State → State
  rotate none s = s
  rotate (some sess) s =
      let rt = Env.current_token env (State.calls s) in
      let sess' = record sess { refresh_token = rt } in
      if not (str_eq rt []) && not (str_eq rt (SyncSession.refresh_token sess))
      then record (called (save_session sess') s) { sess = some sess' }
      else s

  -- persistRotation
  unfoldable pub persist_rotation : State → State
  unfolding rotate
  persist_rotation s = rotate (State.sess s) s

  abbrev pub rotated : Outcome × State → Outcome × State
  rotated (res, s) = (res, persist_rotation s)

  abbrev pub signed_out_result : Outcome
  signed_out_result = record nothing_done { signed_out = true }

  -- `e.sess == nil || e.closed`
  unfoldable pub active : State → Option SyncSession
  active s = if State.closed s then none else State.sess s

  unfoldable pub sync_active : Option SyncSession → Bytes → Step
  sync_active none payload s = (signed_out_result, s)
  sync_active (some sess) payload s = rotated (sync_locked sess payload s)

  -- Sync
  unfoldable pub sync : Bytes → Step
  unfolding sync_active active
  sync payload s = sync_active (active s) payload s

  -- `e.syncLocked(ctx, payload, true)`; without a session the outcome is left alone.
  unfoldable pub start_over : Option SyncSession → Bytes → Outcome × State → Outcome × State
  start_over none payload o = o
  start_over (some sess) payload (res, s) = sync_locked sess payload s

  -- Resolve with keepLocal, after the push: a new conflict starts over.
  unfoldable pub after_keep : Bytes → Outcome × State → Outcome × State
  after_keep payload (res, s) = elim (Outcome.failed res) [
    | some vault_conflict ↦ start_over (State.sess s) payload (res, record s { pending = none })
    | _ ↦ (res, s)
  ]

  unfoldable pub resolve_pending : SyncSession → Pending → Bool → Bytes → Step
  resolve_pending sess p true payload s =
      after_keep payload (push_locked none sess (Env.fingerprint env payload) (Pending.version p) s)
  resolve_pending sess p false payload s = (
    record nothing_done { adopt = some (Pending.payload p); adopt_version = Pending.version p },
    s,
  )

  unfoldable pub resolve_active : Option SyncSession → Option Pending → Bool → Bytes → Step
  unfolding resolve_pending after_keep
  resolve_active none p keep_local payload s = (signed_out_result, s)
  resolve_active (some sess) none keep_local payload s = rotated (sync_locked sess payload s)
  resolve_active (some sess) (some p) keep_local payload s =
      rotated (resolve_pending sess p keep_local payload s)

  -- Resolve
  unfoldable pub resolve : Bool → Bytes → Step
  unfolding resolve_active active
  resolve keep_local payload s = resolve_active (active s) (State.pending s) keep_local payload s

  -- CommitAdopt
  unfoldable pub commit_adopt : ℤ → Bytes → State → Option Failure × State
  commit_adopt version payload s = elim (State.sess s) [
    | none ↦ (none, s)
    | some sess ↦ commit sess version (Env.fingerprint env payload) (record s { pending = none })
  ]

-- SignOut
unfoldable pub sign_out : State → State
sign_out s = record (called (set_tokens [] []) (called remove_session s)) {
  sess = none;
  pending = none;
}
