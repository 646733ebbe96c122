-- ===== src/Projects/Pass.antt =====
-- internal/sync/projects.go: SyncProjects, one pass over the projects of the account.
use wharf_tui.Base.{
  Bool, true, false, not, ◌&&◌, Option, none, some, List, [], ◌∷◌, ◌++◌, if◌then◌else◌, map,
}
use wharf_tui.Base.Int.{ℤ, int_eq}
use wharf_tui.Base.Text.{Str, str_eq}
use wharf_tui.Base.Find.{any}
use wharf_tui.Base.Results.{Result, ok, err}
use wharf_tui.Base.Dict.{insert, erase}
use wharf_tui.Sync.{Bytes}
use wharf_tui.Projects.{
  ApiError, conflict_409, expired, project_not_found, other_error, Summary, RemoteProject,
  ProjectSyncState, ProjectView, ProjectConflict, ProjectsResult, nothing_synced, IdentityKeys,
  ProjectSession, list_projects, get_project_vault, put_project_vault, ProjectsState, ProjectsEnv,
  asked, sync_state, set_sync_state, save_projects, persist_token, write_blob_cache, dead_locked,
  drop_project_locked, open_session,
}

-- What the loop carries: the engine, and what it has found so far.
pub record Progress : Type 0 where
  pub state : ProjectsState
  pub views : List ProjectView
  pub removed : List Str
  pub conflicts : List ProjectConflict
  pub first_err : Option ApiError

-- What became of one project of the loop.
pub data Advance : Type 0 where
  going : Progress → Advance
  dead : ProjectsState → Advance

-- One project while it is looked at: its bookkeeping and its view.
pub record Entry : Type 0 where
  pub sync : ProjectSyncState
  pub view : ProjectView

abbrev pub on_state : (ProjectsState → ProjectsState) → Progress → Progress
on_state f p = record p { state = f (Progress.state p) }

-- if firstErr == nil { firstErr = err }
unfoldable pub note_error : ApiError → Progress → Progress
note_error e p = record p {
  first_err = elim (Progress.first_err p) [ none ↦ some e | some first ↦ some first ];
}

-- dropProjectLocked, and its mark in the result
unfoldable pub remove_project : ProjectsEnv → Str → Progress → Progress
remove_project env id p = record p {
  state = drop_project_locked env id (Progress.state p);
  removed = Progress.removed p ++ (id ∷ []);
}

-- The end of the loop's body: the bookkeeping and the view are kept.
unfoldable pub keep_entry : Str → Entry → Progress → Progress
keep_entry id entry p = record p {
  state = set_sync_state id (Entry.sync entry) (Progress.state p);
  views = Progress.views p ++ (Entry.view entry ∷ []);
}

-- markAwaiting
unfoldable pub mark_awaiting : Str → Entry → Progress → Progress
mark_awaiting id entry p = record p {
  state =
      set_sync_state id (Entry.sync entry)
        (record (Progress.state p) { deks = erase id (ProjectsState.deks (Progress.state p)) });
  views =
      Progress.views p ++ (record (Entry.view entry) { awaiting_key = true; payload = none } ∷ []);
}

-- The start of the loop's body.
unfoldable pub start_entry : Summary → ProjectSession → Entry
start_entry sum sess = record {
  sync = record (sync_state (Summary.id sum) sess) {
    name = Summary.name sum;
    role = Summary.role sum;
  };
  view = record {
    id = Summary.id sum;
    name = Summary.name sum;
    description = Summary.description sum;
    role = Summary.role sum;
    awaiting_key = false;
    version = Summary.vault_version sum;
    member_count = Summary.member_count sum;
    pending_invite_count = Summary.pending_invite_count sum;
    payload = none;
  };
}

abbrev pub shows : Option Bytes → Entry → Entry
shows payload entry = record entry { view = record (Entry.view entry) { payload = payload } }

module _ (env : ProjectsEnv) where
  -- The bookkeeping and the view at a version and a payload.
  unfoldable pub agree_on : ℤ → Bytes → Entry → Entry
  agree_on version payload entry = record {
    sync = record (Entry.sync entry) {
      last_synced_version = version;
      last_synced_fingerprint = ProjectsEnv.fingerprint env payload;
    };
    view = record (Entry.view entry) { version = version; payload = some payload };
  }

  -- A conflict that is left to the user.
  unfoldable pub queue_conflict : Summary → Bytes → Bytes → RemoteProject → Progress → Progress
  queue_conflict sum local_payload remote_payload v p = record p {
    state = record (Progress.state p) {
      pending =
          insert (Summary.id sum)
            (record { payload = remote_payload; version = RemoteProject.version v })
            (ProjectsState.pending (Progress.state p));
    };
    conflicts =
        Progress.conflicts p
        ++ (record {
          id = Summary.id sum;
          name = Summary.name sum;
          local_hosts = ProjectsEnv.count_hosts env local_payload;
          remote_hosts = ProjectsEnv.count_hosts env remote_payload;
          remote_version = RemoteProject.version v;
          remote_updated_at = RemoteProject.updated_at v;
        }
            ∷ []);
  }

  -- Local and remote payload of a project that changed on both sides.
  unfoldable pub compare_payloads :
      Summary → Bytes → Bytes → RemoteProject → Entry → Progress → Progress
  compare_payloads sum local_payload remote_payload v entry p =
      if str_eq (ProjectsEnv.fingerprint env local_payload)
        (ProjectsEnv.fingerprint env remote_payload)
      then keep_entry (Summary.id sum) (agree_on (RemoteProject.version v) remote_payload entry) p
      else keep_entry (Summary.id sum) (shows (some local_payload) entry)
          (queue_conflict sum local_payload remote_payload v p)

  -- refetchProjectConflict, from the answer of the second fetch.
  unfoldable pub refetched :
      Summary → Bytes → Bytes → Entry → Result ApiError RemoteProject → Progress → Progress
  refetched sum dek local_payload entry (err e) p =
      keep_entry (Summary.id sum) (shows (some local_payload) entry) p
  refetched sum dek local_payload entry (ok v) p =
      let as_it_was = keep_entry (Summary.id sum) (shows (some local_payload) entry) p in
      elim (RemoteProject.wrapped_dek v) [
        | none ↦ as_it_was
        | some wrapped ↦ elim (ProjectsEnv.unseal env dek (RemoteProject.blob v)) [
          | none ↦ as_it_was
          | some remote_payload ↦ compare_payloads sum local_payload remote_payload v entry p
        ]
      ]

  -- refetchProjectConflict
  unfoldable pub refetch_project_conflict : Summary → Bytes → Bytes → Entry → Progress → Progress
  refetch_project_conflict sum dek local_payload entry p =
      let p' = on_state (asked (get_project_vault (Summary.id sum))) p in
      refetched sum dek local_payload entry
        (ProjectsEnv.fetched env (ProjectsState.calls (Progress.state p'))) p'

  -- After PutProjectVault.
  unfoldable pub after_project_put :
      Summary → Bytes → Bytes → Bytes → Entry → Result ApiError ℤ → Progress → Advance
  after_project_put sum dek local_payload blob entry (ok version) p = going (
      keep_entry (Summary.id sum) (agree_on version local_payload entry)
        (on_state (write_blob_cache env (Summary.id sum) blob) p))
  after_project_put sum dek local_payload blob entry (err conflict_409) p =
      going (refetch_project_conflict sum dek local_payload entry p)
  after_project_put sum dek local_payload blob entry (err expired) p =
      dead (dead_locked (Progress.state p))
  after_project_put sum dek local_payload blob entry (err project_not_found) p = going (
      keep_entry (Summary.id sum) (shows (some local_payload) entry)
        (note_error project_not_found p))
  after_project_put sum dek local_payload blob entry (err (other_error n)) p = going (
      keep_entry (Summary.id sum) (shows (some local_payload) entry) (note_error (other_error n) p))

  -- The case of a local change alone.
  unfoldable pub push_project_changes :
      Summary → Bytes → Bytes → RemoteProject → Entry → Progress → Advance
  push_project_changes sum dek local_payload v entry p =
      elim (ProjectsEnv.seal env (ProjectsState.calls (Progress.state p)) dek local_payload) [
        | err e ↦
            going (keep_entry (Summary.id sum) (shows (some local_payload) entry) (note_error e p))
        | ok blob ↦
            let p' =
              on_state (asked (put_project_vault (Summary.id sum) blob (RemoteProject.version v)))
                p in
            after_project_put sum dek local_payload blob entry
              (ProjectsEnv.put_version env (ProjectsState.calls (Progress.state p'))) p'
      ]

  -- The switch on what has changed, for a project whose two payloads are known.
  unfoldable pub settle :
      Summary → Bytes → Option Bytes → Bytes → RemoteProject → Entry → Progress → Advance
  settle sum dek none remote_payload v entry p =
      going
        (keep_entry (Summary.id sum) (agree_on (RemoteProject.version v) remote_payload entry) p)
  settle sum dek (some local_payload) remote_payload v entry p =
      let pushed = push_project_changes sum dek local_payload v entry p in
      let local_changed = not (
        str_eq (ProjectsEnv.fingerprint env local_payload)
          (ProjectSyncState.last_synced_fingerprint (Entry.sync entry))) in
      let remote_moved = not (
        int_eq (RemoteProject.version v)
          (ProjectSyncState.last_synced_version (Entry.sync entry))) in
      if local_changed && not remote_moved
      then pushed
      else if local_changed
      then going (compare_payloads sum local_payload remote_payload v entry p)
      else going
          (keep_entry (Summary.id sum) (agree_on (RemoteProject.version v) remote_payload entry) p)

  -- With the DEK of the project: it is kept, the blob is cached and opened.
  unfoldable pub with_key :
      Summary → Bytes → Bytes → Option Bytes → RemoteProject → Entry → Progress → Advance
  with_key sum wrapped dek local_payload v entry p =
      let entry' = record entry {
        sync = record (Entry.sync entry) { wrapped_dek = ProjectsEnv.encode_base64 env wrapped };
      } in
      let p' =
        on_state
          (λ s.
            write_blob_cache env (Summary.id sum) (RemoteProject.blob v)
              (record s { deks = insert (Summary.id sum) dek (ProjectsState.deks s) }))
          p in
      elim (ProjectsEnv.unseal env dek (RemoteProject.blob v)) [
        | none ↦ going (mark_awaiting (Summary.id sum) entry' p')
        | some remote_payload ↦ settle sum dek local_payload remote_payload v entry' p'
      ]

  -- After GetProjectVault.
  unfoldable pub after_fetch :
      Summary
      → IdentityKeys
      → Option Bytes
      → Entry
      → Result ApiError RemoteProject
      → Progress
      → Advance
  after_fetch sum keys local_payload entry (err project_not_found) p =
      going (remove_project env (Summary.id sum) p)
  after_fetch sum keys local_payload entry (err expired) p = dead (dead_locked (Progress.state p))
  after_fetch sum keys local_payload entry (err conflict_409) p = going (note_error conflict_409 p)
  after_fetch sum keys local_payload entry (err (other_error n)) p =
      going (note_error (other_error n) p)
  after_fetch sum keys local_payload entry (ok v) p = elim (RemoteProject.wrapped_dek v) [
    | none ↦ going (mark_awaiting (Summary.id sum) entry p)
    | some wrapped ↦
        elim (ProjectsEnv.unwrap env wrapped (IdentityKeys.public_key keys)
          (IdentityKeys.private_key keys)) [
            | none ↦ going (mark_awaiting (Summary.id sum) entry p)
            | some dek ↦ with_key sum wrapped dek local_payload v entry p
          ]
  ]

  -- The body of the loop over the projects.
  unfoldable pub sync_project :
      (Str → Option Bytes) → IdentityKeys → ProjectSession → Summary → Progress → Advance
  sync_project local keys sess sum p =
      let entry = start_entry sum sess in
      let p' = on_state (asked (get_project_vault (Summary.id sum))) p in
      if Summary.awaiting_key sum
      then going (mark_awaiting (Summary.id sum) entry p)
      else after_fetch sum keys (local (Summary.id sum)) entry
          (ProjectsEnv.fetched env (ProjectsState.calls (Progress.state p'))) p'

  -- The loop. The session is there until it is found dead, which ends the loop.
  unfoldable pub sync_each : (Str → Option Bytes) → IdentityKeys → List Summary → Progress → Advance
  sync_each local keys [] p = going p
  sync_each local keys (sum ∷ sums) p = elim (ProjectsState.sess (Progress.state p)) [
    | none ↦ dead (Progress.state p)
    | some sess ↦ elim (sync_project local keys sess sum p) [
      | dead s ↦ dead s
      | going p' ↦ sync_each local keys sums p'
    ]
  ]

  abbrev pub is_listed : List Summary → Str → Bool
  is_listed list id = any (λ sum. str_eq (Summary.id sum) id) list

  -- The loop over the projects of the session, which drops those that are not listed.
  unfoldable pub drop_vanished : List Summary → List Str → Progress → Progress
  drop_vanished list [] p = p
  drop_vanished list (id ∷ ids) p =
      drop_vanished list ids (if is_listed list id then p else remove_project env id p)

  -- The end of syncProjectsLocked.
  unfoldable pub finish_pass : Advance → ProjectsResult × ProjectsState
  finish_pass (dead s) = (record nothing_synced { session_dead = true }, s)
  finish_pass (going p) = (
    record nothing_synced {
      failed = Progress.first_err p;
      views = Progress.views p;
      removed = Progress.removed p;
      conflicts = Progress.conflicts p;
    },
    save_projects (Progress.state p),
  )

  abbrev pub starting : ProjectsState → Progress
  starting s = record { state = s; views = []; removed = []; conflicts = []; first_err = none }

  -- syncProjectsLocked, from the answer of ListProjects.
  unfoldable pub with_list :
      (Str → Option Bytes)
      → IdentityKeys
      → ProjectSession
      → Result ApiError (List Summary)
      → ProjectsState
      → ProjectsResult × ProjectsState
  with_list local keys sess (err expired) s =
      (record nothing_synced { session_dead = true }, dead_locked s)
  with_list local keys sess (err conflict_409) s =
      (record nothing_synced { failed = some conflict_409 }, s)
  with_list local keys sess (err project_not_found) s =
      (record nothing_synced { failed = some project_not_found }, s)
  with_list local keys sess (err (other_error n)) s =
      (record nothing_synced { failed = some (other_error n) }, s)
  with_list local keys sess (ok list) s = finish_pass (
      sync_each local keys list
        (drop_vanished list (map (λ e. e.0) (ProjectSession.projects sess)) (starting s)))

  -- syncProjectsLocked
  unfoldable pub sync_projects_locked :
      (Str → Option Bytes)
      → IdentityKeys
      → ProjectSession
      → ProjectsState
      → ProjectsResult × ProjectsState
  sync_projects_locked local keys sess s =
      let s' = asked list_projects s in
      with_list local keys sess (ProjectsEnv.listed env (ProjectsState.calls s')) s'

  -- SyncProjects
  unfoldable pub sync_projects :
      (Str → Option Bytes) → ProjectsState → ProjectsResult × ProjectsState
  sync_projects local s = elim (open_session s) [
    | none ↦ (record nothing_synced { signed_out = true }, s)
    | some sess ↦
        if not (ProjectsEnv.has_crypto env)
        then (nothing_synced, s)
        else elim (ProjectsState.identity s) [
          | none ↦ (record nothing_synced { no_identity = true }, s)
          | some keys ↦
              let (res, s') = sync_projects_locked local keys sess s in (res, persist_token env s')
        ]
  ]
