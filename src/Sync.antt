-- ===== src/Sync.antt =====
-- internal/sync/engine.go: the vault side of the sync engine. What it does not implement is an
-- `Env`: the backend, the local blob, the session file and the crypto answer as functions of the
-- calls made so far, newest first, so an answer may depend on anything that was asked before.
-- The lock makes every operation one step. Project bookkeeping is not part of this state.
pub mod Engine
pub mod Guard
pub mod Lifecycle
pub mod Agree
pub mod Session
mod Tests
use wharf_tui.Base.{ℕ, Bool, Option, none, some, List, [], ◌∷◌, true, false}
use wharf_tui.Base.Int.{ℤ, pos}
use wharf_tui.Base.Text.{Str}
use wharf_tui.Base.Results.{Result, ok, err}

abbrev pub Bytes : Type 0
Bytes = List ℕ

-- The session file's document, without the project map.
pub record SyncSession : Type 0 where
  pub refresh_token : Str
  pub email : Str
  pub user_id : Str
  pub last_version : ℤ
  pub last_fingerprint : Str

-- pendingRemote
pub record Pending : Type 0 where
  pub payload : Bytes
  pub version : ℤ

-- api.Vault
pub record Remote : Type 0 where
  pub blob : Bytes
  pub version : ℤ
  pub updated_at : ℕ

-- What errors.Is tells apart; `other` is any other error.
pub data Failure : Type 0 where
  no_vault vault_conflict email_not_verified session_expired : Failure
  other : ℕ → Failure

-- Conflict
pub record Conflict : Type 0 where
  pub local_hosts : ℕ
  pub remote_hosts : ℕ
  pub remote_version : ℤ
  pub remote_updated_at : ℕ

-- Result
pub record Outcome : Type 0 where
  pub signed_out : Bool
  pub session_dead : Bool
  pub email_unverified : Bool
  pub failed : Option Failure
  pub conflict : Option Conflict
  pub adopt : Option Bytes
  pub adopt_version : ℤ
  pub pushed : Bool
  pub version : ℤ

-- Result{}
abbrev pub nothing_done : Outcome
nothing_done = record {
  signed_out = false;
  session_dead = false;
  email_unverified = false;
  failed = none;
  conflict = none;
  adopt = none;
  adopt_version = pos 0;
  pushed = false;
  version = pos 0;
}

pub data Call : Type 0 where
  get_vault read_blob remove_session : Call
  put_vault : Bytes → ℤ → Call
  save_session : SyncSession → Call
  set_tokens : Str → Str → Call
  exchange_device_code change_password : Bytes → Call

pub record Env : Type 0 where
  pub get_answer : List Call → Result Failure Remote
  pub put_answer : List Call → Result Failure ℤ
  pub blob_answer : List Call → Result Failure Bytes
  pub save_answer : List Call → Option Failure
  pub current_token : List Call → Str
  pub open_blob : Bytes → Bytes → Result Failure Bytes
  pub fingerprint : Bytes → Str
  -- How many entries `hosts` of a JSON payload has; `none` if it does not parse.
  pub parsed_hosts : Bytes → Option ℕ

-- Engine, with the calls that were made.
pub record State : Type 0 where
  pub sess : Option SyncSession
  pub pending : Option Pending
  pub closed : Bool
  pub password : Bytes
  pub calls : List Call

abbrev pub Step : Type 0
Step = State → Outcome × State
