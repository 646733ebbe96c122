-- ===== src/Projects/Cached.antt =====
-- internal/sync/projects.go: LoadCachedProjects, the projects of a client that is offline.
use wharf_tui.Base.{true, false, not, Option, none, some, List, [], ◌∷◌, if◌then◌else◌}
use wharf_tui.Base.Int.{pos}
use wharf_tui.Base.Text.{Str}
use wharf_tui.Base.Dict.{Dict, lookup, insert}
use wharf_tui.Sync.{Bytes}
use wharf_tui.Projects.{
  ProjectSyncState, ProjectView, IdentityKeys, ProjectSession, ProjectsState, ProjectsEnv,
  open_session,
}

-- The view without a payload.
unfoldable pub cached_view : Str → ProjectSyncState → ProjectView
cached_view id st = record {
  id = id;
  name = ProjectSyncState.name st;
  description = [];
  role = ProjectSyncState.role st;
  awaiting_key = false;
  version = ProjectSyncState.last_synced_version st;
  member_count = pos 0;
  pending_invite_count = pos 0;
  payload = none;
}

module _ (env : ProjectsEnv) where
  -- The DEK of a wrapped one: it must decode and unwrap.
  unfoldable pub stored_dek : IdentityKeys → ProjectSyncState → Option Bytes
  stored_dek keys st = elim (ProjectsEnv.decode_base64 env (ProjectSyncState.wrapped_dek st)) [
    | none ↦ none
    | some [] ↦ none
    | some (b ∷ wrapped) ↦
        ProjectsEnv.unwrap env (b ∷ wrapped) (IdentityKeys.public_key keys)
          (IdentityKeys.private_key keys)
  ]

  -- The payload of the cached blob.
  unfoldable pub cached_payload : Str → Bytes → ProjectsState → Option Bytes
  cached_payload id dek s = elim (lookup id (ProjectsState.cache s)) [
    | none ↦ none
    | some blob ↦ ProjectsEnv.unseal env dek blob
  ]

  -- The body of the loop.
  unfoldable pub load_cached :
      IdentityKeys → Str → ProjectSyncState → ProjectsState → ProjectView × ProjectsState
  load_cached keys id st s =
      let waiting = record (cached_view id st) { awaiting_key = true } in
      elim (stored_dek keys st) [
        | none ↦ (waiting, s)
        | some dek ↦ elim (cached_payload id dek s) [
          | none ↦ (waiting, s)
          | some payload ↦ (
            record (cached_view id st) { payload = some payload },
            record s { deks = insert id dek (ProjectsState.deks s) },
          )
        ]
      ]

  unfoldable pub load_each :
      IdentityKeys → Dict ProjectSyncState → ProjectsState → List ProjectView × ProjectsState
  load_each keys [] s = ([], s)
  load_each keys ((id, st) ∷ ps) s =
      let (view, s') = load_cached keys id st s in
      let (views, s'') = load_each keys ps s' in (view ∷ views, s'')

  -- LoadCachedProjects
  unfoldable pub load_cached_projects : ProjectsState → List ProjectView × ProjectsState
  load_cached_projects s = elim (open_session s) [
    | none ↦ ([], s)
    | some sess ↦
        if not (ProjectsEnv.has_crypto env) then ([], s) else elim (ProjectsState.identity s) [
          | none ↦ ([], s)
          | some keys ↦ load_each keys (ProjectSession.projects sess) s
        ]
  ]
