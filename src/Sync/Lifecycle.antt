-- ===== src/Sync/Lifecycle.antt =====
-- internal/sync/engine.go: how an engine gets a session and loses it. What the session file, the
-- device code exchange and the password change answer is an argument, as are the derived auth keys.
use wharf_tui.Base.{Bool, true, false, Option, none, some, List, [], map, if◌then◌else◌}
use wharf_tui.Base.Int.{ℤ, pos}
use wharf_tui.Base.Text.{Str}
use wharf_tui.Base.Results.{Result, ok, err}
use wharf_tui.Sync.{
  Bytes, SyncSession, Failure, Call, read_blob, save_session, remove_session, set_tokens,
  exchange_device_code, change_password, Env, State,
}
use wharf_tui.Sync.Engine.{called, commit, persist_rotation, active}

-- Why loadSession fails: there is no file, or it cannot be opened.
pub data LoadError : Type 0 where
  no_session unreadable : LoadError

-- What a call of the lifecycle refuses.
pub data Refused : Type 0 where
  engine_closed signed_out : Refused
  failed : Failure → Refused

-- Pairing, and the account that ExchangeDeviceCode returns.
pub record Account : Type 0 where
  pub refresh_token : Str
  pub email : Str
  pub user_id : Str

-- zero
unfoldable pub zeroed : Bytes → Bytes
zeroed bs = map (λ b. 0) bs

-- Close
unfoldable pub close : State → State
unfolding zeroed
close s = record s {
  password = zeroed (State.password s);
  sess = none;
  pending = none;
  closed = true;
}

-- SignedIn
unfoldable pub signed_in : State → Bool
signed_in s = elim (State.sess s) [ none ↦ false | some sess ↦ true ]

-- Email
unfoldable pub email : State → Str
email s = elim (State.sess s) [ none ↦ [] | some sess ↦ SyncSession.email sess ]

-- Resume once loadSession has answered.
unfoldable pub resume_loaded : Result LoadError SyncSession → State → Option Str × State
resume_loaded (err no_session) s = (none, s)
resume_loaded (err unreadable) s = (none, called remove_session s)
resume_loaded (ok sess) s = (
  some (SyncSession.email sess),
  record (called (set_tokens [] (SyncSession.refresh_token sess)) s) { sess = some sess },
)

-- Resume
unfoldable pub resume : Result LoadError SyncSession → State → Option Str × State
unfolding resume_loaded
resume loaded s = if State.closed s then (none, s) else resume_loaded loaded s

-- A session that has agreed on nothing yet.
abbrev pub new_session : Account → SyncSession
new_session a = record {
  refresh_token = Account.refresh_token a;
  email = Account.email a;
  user_id = Account.user_id a;
  last_version = pos 0;
  last_fingerprint = [];
}

-- MasterPassword; an engine without a password holds an empty one.
unfoldable pub master_password : State → Option Bytes
master_password s = if State.closed s then none else some (State.password s)

-- SetPassword
unfoldable pub set_password : Bytes → State → State
set_password new_password s = record s { password = new_password }

module _ (env : Env) where
  -- Pair once the code was exchanged.
  unfoldable pub pair_exchanged : Result Failure Account → State → Option Failure × State
  pair_exchanged (err e) s = (some e, s)
  pair_exchanged (ok a) s =
      let s' = record (called (save_session (new_session a)) s) { sess = some (new_session a) } in
      (Env.save_answer env (State.calls s'), s')

  -- Pair
  unfoldable pub pair :
      Result Failure Account → Bytes → State → Result Refused (Option Failure) × State
  unfolding pair_exchanged
  pair answer code s =
      if State.closed s
      then (err engine_closed, s)
      else (let (e, s') = pair_exchanged answer (called (exchange_device_code code) s) in
          (ok e, s'))

  -- Attach
  unfoldable pub attach : Account → ℤ → Bytes → State → Result Refused (Option Failure) × State
  attach a version payload s =
      if State.closed s
      then (err engine_closed, s)
      else (let (e, s') =
            commit env (new_session a) version (Env.fingerprint env payload)
              (called (set_tokens [] (Account.refresh_token a)) s) in
          (ok e, s'))

  -- ChangePassword once the backend has answered: that the session could not be saved is ignored.
  unfoldable pub password_changed :
      SyncSession → Bytes → Bytes → Result Failure ℤ → State → Option Refused × State
  password_changed sess new_password payload (err e) s = (some (failed e), s)
  password_changed sess new_password payload (ok version) s =
      let (e, s') =
        commit env sess version (Env.fingerprint env payload) (set_password new_password s) in
      (none, persist_rotation env s')

  unfoldable pub change_blob :
      (List Call → Result Failure ℤ)
      → SyncSession
      → Bytes
      → Bytes
      → Result Failure Bytes
      → State
      → Option Refused × State
  unfolding password_changed
  change_blob answer sess new_password payload (err e) s = (some (failed e), s)
  change_blob answer sess new_password payload (ok blob) s =
      let s' = called (change_password blob) s in
      password_changed sess new_password payload (answer (State.calls s')) s'

  -- ChangePassword once both auth keys were derived.
  unfoldable pub change_with_keys :
      Result Failure Bytes
      → Result Failure Bytes
      → (List Call → Result Failure ℤ)
      → SyncSession
      → Bytes
      → Bytes
      → State
      → Option Refused × State
  unfolding change_blob
  change_with_keys (err e) new_key answer sess new_password payload s = (some (failed e), s)
  change_with_keys (ok k) (err e) answer sess new_password payload s = (some (failed e), s)
  change_with_keys (ok k) (ok k') answer sess new_password payload s =
      let s' = called read_blob s in
      change_blob answer sess new_password payload (Env.blob_answer env (State.calls s')) s'

  -- ChangePassword; `auth_key` derives a key from a password and an email.
  unfoldable pub change_master_password :
      (Bytes → Str → Result Failure Bytes)
      → (List Call → Result Failure ℤ)
      → Bytes
      → Bytes
      → Bytes
      → State
      → Option Refused × State
  unfolding change_with_keys
  change_master_password auth_key answer current_password new_password payload s =
      elim (active env s) [
        | none ↦ (some signed_out, s)
        | some sess ↦
            change_with_keys (auth_key current_password (SyncSession.email sess))
              (auth_key new_password (SyncSession.email sess)) answer sess new_password payload s
      ]
