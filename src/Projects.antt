-- ===== src/Projects.antt =====
-- internal/sync/projects.go: the shared projects of the sync engine. As in Sync, what the engine does
-- not implement is a record of answers, each a function of the calls made so far, newest first; the
-- lock makes every operation one step. Maps are `Dict`s.
pub mod Pass
pub mod Change
pub mod Finalize
pub mod Cached
pub mod Views
pub mod Settled
pub mod Kept
pub mod Granted
pub mod Recorded
mod Tests
use wharf_tui.Base.{
  ℕ, Bool, true, false, not, ◌&&◌, Option, none, some, List, [], ◌∷◌, if◌then◌else◌, map,
}
use wharf_tui.Base.Int.{ℤ, pos}
use wharf_tui.Base.Text.{Str, str_eq}
use wharf_tui.Base.Results.{Result, ok, err}
use wharf_tui.Base.Dict.{Dict, lookup, insert, erase}
use wharf_tui.Sync.{Bytes, Pending}

-- What errors.Is tells apart of an answer of the backend; `other` is any other error.
pub data ApiError : Type 0 where
  conflict_409 expired project_not_found : ApiError
  other_error : ℕ → ApiError

-- The errors of the engine itself, and those that it passes on.
pub data OpError : Type 0 where
  signed_out no_identity no_project_key : OpError
  api_error : ApiError → OpError

-- api.ProjectSummary
pub record Summary : Type 0 where
  pub id : Str
  pub name : Str
  pub description : Str
  pub role : Str
  pub member_count : ℤ
  pub pending_invite_count : ℤ
  pub vault_version : ℤ
  pub awaiting_key : Bool

-- api.ProjectVault
pub record RemoteProject : Type 0 where
  pub blob : Bytes
  pub wrapped_dek : Option Bytes
  pub version : ℤ
  pub updated_at : ℕ

-- api.PendingKey, without the address
pub record PendingKey : Type 0 where
  pub user_id : Str
  pub public_key : Bytes

-- api.ProjectDetail, as far as CreateProject reads it
pub record Detail : Type 0 where
  pub id : Str
  pub name : Str
  pub description : Str
  pub role : Str
  pub vault_version : ℤ
  pub members : ℤ

pub record ProjectSyncState : Type 0 where
  pub name : Str
  pub role : Str
  pub last_synced_version : ℤ
  pub last_synced_fingerprint : Str
  pub wrapped_dek : Str

-- The zero value, which a missing entry of the map gives.
abbrev pub no_sync_state : ProjectSyncState
no_sync_state = record {
  name = [];
  role = [];
  last_synced_version = pos 0;
  last_synced_fingerprint = [];
  wrapped_dek = [];
}

pub record ProjectView : Type 0 where
  pub id : Str
  pub name : Str
  pub description : Str
  pub role : Str
  pub awaiting_key : Bool
  pub version : ℤ
  pub member_count : ℤ
  pub pending_invite_count : ℤ
  pub payload : Option Bytes

pub record ProjectConflict : Type 0 where
  pub id : Str
  pub name : Str
  pub local_hosts : ℕ
  pub remote_hosts : ℕ
  pub remote_version : ℤ
  pub remote_updated_at : ℕ

pub record ProjectsResult : Type 0 where
  pub signed_out : Bool
  pub session_dead : Bool
  pub no_identity : Bool
  pub failed : Option ApiError
  pub views : List ProjectView
  pub removed : List Str
  pub conflicts : List ProjectConflict

abbrev pub nothing_synced : ProjectsResult
nothing_synced = record {
  signed_out = false;
  session_dead = false;
  no_identity = false;
  failed = none;
  views = [];
  removed = [];
  conflicts = [];
}

pub record ProjectOpResult : Type 0 where
  pub payload : Option Bytes
  pub version : ℤ
  pub pushed : Bool
  pub adopted : Bool
  pub removed : Bool
  pub conflict : Option ProjectConflict
  pub failed : Option OpError

abbrev pub nothing_changed : ProjectOpResult
nothing_changed = record {
  payload = none;
  version = pos 0;
  pushed = false;
  adopted = false;
  removed = false;
  conflict = none;
  failed = none;
}

-- identityKeys
pub record IdentityKeys : Type 0 where
  pub public_key : Bytes
  pub private_key : Bytes

-- The session as far as projects read and change it.
pub record ProjectSession : Type 0 where
  pub refresh_token : Str
  pub user_id : Str
  pub projects : Dict ProjectSyncState

-- A call of the backend or of the session file.
pub data ProjectCall : Type 0 where
  list_projects delete_session : ProjectCall
  store_session : ProjectSession → ProjectCall
  get_project_vault get_pending_keys : Str → ProjectCall
  put_project_vault : Str → Bytes → ℤ → ProjectCall
  create_project : Bytes → Bytes → ProjectCall
  rotate_project : Str → Str → Bytes → ℤ → List (Str × Bytes) → ProjectCall
  submit_member_key : Str → Str → Bytes → ℤ → ProjectCall

-- Engine, as far as projects read and change it, with the files of the blob cache.
pub record ProjectsState : Type 0 where
  pub sess : Option ProjectSession
  pub closed : Bool
  pub pending_vault : Bool
  pub deks : Dict Bytes
  pub pending : Dict Pending
  pub identity : Option IdentityKeys
  pub identity_mismatch : Bool
  pub cache : Dict Bytes
  pub calls : List ProjectCall

-- The backend, the crypto of projects, base64 and the fingerprint. Whether a file of the cache can be
-- written and removed is `can_write` and `can_remove`.
pub record ProjectsEnv : Type 0 where
  pub has_crypto : Bool
  pub current_token : List ProjectCall → Str
  pub listed : List ProjectCall → Result ApiError (List Summary)
  pub fetched : List ProjectCall → Result ApiError RemoteProject
  pub put_version : List ProjectCall → Result ApiError ℤ
  pub created : List ProjectCall → Result ApiError Detail
  pub rotated_version : List ProjectCall → Result ApiError ℤ
  pub pending_keys : List ProjectCall → Result ApiError (List PendingKey)
  pub submitted : List ProjectCall → Option ApiError
  pub new_dek : List ProjectCall → Result ApiError Bytes
  pub seal : List ProjectCall → Bytes → Bytes → Result ApiError Bytes
  pub unseal : Bytes → Bytes → Option Bytes
  pub wrap : List ProjectCall → Bytes → Bytes → Result ApiError Bytes
  pub unwrap : Bytes → Bytes → Bytes → Option Bytes
  pub encode_base64 : Bytes → Str
  pub decode_base64 : Str → Option Bytes
  pub fingerprint : Bytes → Str
  pub count_hosts : Bytes → ℕ
  pub can_write : List ProjectCall → Bool
  pub can_remove : List ProjectCall → Bool

abbrev pub asked : ProjectCall → ProjectsState → ProjectsState
asked call s = record s { calls = call ∷ ProjectsState.calls s }

-- e.sess.Projects[id]
unfoldable pub sync_state : Str → ProjectSession → ProjectSyncState
sync_state id sess = elim (lookup id (ProjectSession.projects sess)) [
  | none ↦ no_sync_state
  | some st ↦ st
]

-- e.sess.Projects[id] = st, for a session that is there.
unfoldable pub set_sync_state : Str → ProjectSyncState → ProjectsState → ProjectsState
set_sync_state id st s = record s {
  sess = elim (ProjectsState.sess s) [
    | none ↦ none
    | some sess ↦ some (record sess { projects = insert id st (ProjectSession.projects sess) })
  ];
}

-- saveSession, whose error is dropped.
unfoldable pub save_projects : ProjectsState → ProjectsState
save_projects s = elim (ProjectsState.sess s) [
  | none ↦ s
  | some sess ↦ asked (store_session sess) s
]

-- persistRotation
unfoldable pub persist_token : ProjectsEnv → ProjectsState → ProjectsState
persist_token env s = elim (ProjectsState.sess s) [
  | none ↦ s
  | some sess ↦
      let token = ProjectsEnv.current_token env (ProjectsState.calls s) in
      if not (str_eq token []) && not (str_eq token (ProjectSession.refresh_token sess))
      then save_projects (record s { sess = some (record sess { refresh_token = token }) })
      else s
]

-- writeBlobCache
unfoldable pub write_blob_cache : ProjectsEnv → Str → Bytes → ProjectsState → ProjectsState
write_blob_cache env id blob s =
    if ProjectsEnv.can_write env (ProjectsState.calls s)
    then record s { cache = insert id blob (ProjectsState.cache s) }
    else s

-- deadLocked
unfoldable pub dead_locked : ProjectsState → ProjectsState
dead_locked s = record (asked delete_session s) { sess = none; pending_vault = false; pending = [] }

-- dropProjectLocked; the error of os.Remove is dropped.
unfoldable pub drop_project_locked : ProjectsEnv → Str → ProjectsState → ProjectsState
drop_project_locked env id s = record s {
  deks = erase id (ProjectsState.deks s);
  pending = erase id (ProjectsState.pending s);
  sess = elim (ProjectsState.sess s) [
    | none ↦ none
    | some sess ↦ some (record sess { projects = erase id (ProjectSession.projects sess) })
  ];
  cache =
      if ProjectsEnv.can_remove env (ProjectsState.calls s)
      then erase id (ProjectsState.cache s)
      else ProjectsState.cache s;
}

-- SetIdentity and SetIdentityMismatch
unfoldable pub set_identity : Bytes → Bytes → ProjectsState → ProjectsState
set_identity [] private_key s = record s { identity = none }
set_identity (b ∷ public_key) [] s = record s { identity = none }
set_identity (b ∷ public_key) (p ∷ private_key) s = record s {
  identity = some (record { public_key = b ∷ public_key; private_key = p ∷ private_key });
}

unfoldable pub set_identity_mismatch : Bool → ProjectsState → ProjectsState
set_identity_mismatch mismatch s = record s { identity_mismatch = mismatch }

-- `e.sess == nil || e.closed`
unfoldable pub open_session : ProjectsState → Option ProjectSession
open_session s = if ProjectsState.closed s then none else ProjectsState.sess s
