-- ===== src/Projects/Change.antt =====
-- internal/sync/projects.go: CreateProject, ResolveProject, PushProject and RemoveMember.
use wharf_tui.Base.{Bool, true, false, not, Option, none, some, List, [], ◌∷◌, if◌then◌else◌}
use wharf_tui.Base.Int.{ℤ, pos}
use wharf_tui.Base.Text.{Str, str_eq}
use wharf_tui.Base.Results.{Result, ok, err}
use wharf_tui.Base.Dict.{lookup, insert, erase}
use wharf_tui.Sync.{Bytes, Pending}
use wharf_tui.Projects.{
  ApiError, conflict_409, expired, project_not_found, other_error, OpError, signed_out, no_identity,
  no_project_key, api_error, RemoteProject, PendingKey, Detail, ProjectSyncState, ProjectView,
  ProjectConflict, ProjectOpResult, nothing_changed, IdentityKeys, ProjectSession, ProjectCall,
  get_project_vault, put_project_vault, create_project, rotate_project, ProjectsState, ProjectsEnv,
  asked, sync_state, set_sync_state, save_projects, write_blob_cache, drop_project_locked,
  open_session,
}

-- ProjectOpResult{Err: err}
abbrev pub failed_op : OpError → ProjectOpResult
failed_op e = record nothing_changed { failed = some e }

-- &ProjectConflict{ID: id}
abbrev pub bare_conflict : Str → ProjectConflict
bare_conflict id = record {
  id = id;
  name = [];
  local_hosts = 0;
  remote_hosts = 0;
  remote_version = pos 0;
  remote_updated_at = 0;
}

abbrev pub conflicting : Str → ProjectOpResult
conflicting id = record nothing_changed { conflict = some (bare_conflict id) }

abbrev pub Operation : Type 0
Operation = ProjectsState → ProjectOpResult × ProjectsState

abbrev pub forget_pending : Str → ProjectsState → ProjectsState
forget_pending id s = record s { pending = erase id (ProjectsState.pending s) }

module _ (env : ProjectsEnv) where
  abbrev pub at_version : ℤ → Bytes → ProjectSyncState → ProjectSyncState
  at_version version payload st = record st {
    last_synced_version = version;
    last_synced_fingerprint = ProjectsEnv.fingerprint env payload;
  }

  -- The end of a push that succeeded.
  unfoldable pub record_push : Str → Bytes → Bytes → ℤ → ProjectSyncState → Operation
  record_push id payload blob version st s = (
    record nothing_changed { pushed = true; version = version; payload = some payload },
    set_sync_state id (at_version version payload st) (write_blob_cache env id blob s),
  )

  abbrev pub saving : ProjectOpResult × ProjectsState → ProjectOpResult × ProjectsState
  saving (res, s) = (res, save_projects s)

  -- ResolveProject, after the upload of the local side.
  unfoldable pub after_resolve_put :
      Str → Bytes → Bytes → ProjectSyncState → Result ApiError ℤ → Operation
  after_resolve_put id payload blob st (ok version) s =
      let (res, s') = record_push id payload blob version st s in
      (res, save_projects (forget_pending id s'))
  after_resolve_put id payload blob st (err conflict_409) s = (conflicting id, forget_pending id s)
  after_resolve_put id payload blob st (err expired) s = (failed_op (api_error expired), s)
  after_resolve_put id payload blob st (err project_not_found) s =
      (failed_op (api_error project_not_found), s)
  after_resolve_put id payload blob st (err (other_error n)) s =
      (failed_op (api_error (other_error n)), s)

  unfoldable pub push_over : Str → Bytes → ℤ → ProjectSyncState → Bytes → Operation
  push_over id payload expected st dek s =
      elim (ProjectsEnv.seal env (ProjectsState.calls s) dek payload) [
        | err e ↦ (failed_op (api_error e), s)
        | ok blob ↦
            let s' = asked (put_project_vault id blob expected) s in
            after_resolve_put id payload blob st
              (ProjectsEnv.put_version env (ProjectsState.calls s')) s'
      ]

  -- The remote side is taken.
  unfoldable pub adopt_project : Str → Pending → ProjectSyncState → Operation
  adopt_project id pend st s = (
    record nothing_changed {
      adopted = true;
      version = Pending.version pend;
      payload = some (Pending.payload pend);
    },
    save_projects (
        forget_pending id
          (set_sync_state id (at_version (Pending.version pend) (Pending.payload pend) st) s)),
  )

  -- ResolveProject
  unfoldable pub resolve_project : Str → Bool → Bytes → Operation
  resolve_project id keep_local local_payload s = elim (open_session s) [
    | none ↦ (failed_op signed_out, s)
    | some sess ↦ elim (lookup id (ProjectsState.pending s)) [
      | none ↦ (nothing_changed, s)
      | some pend ↦
          if not keep_local
          then adopt_project id pend (sync_state id sess) s
          else elim (lookup id (ProjectsState.deks s)) [
            | none ↦ (failed_op no_project_key, s)
            | some dek ↦
                push_over id local_payload (Pending.version pend) (sync_state id sess) dek s
          ]
    ]
  ]

  -- PushProject, after the upload.
  unfoldable pub after_push_put :
      Str → Bytes → Bytes → ProjectSyncState → Result ApiError ℤ → Operation
  after_push_put id payload blob st (ok version) s =
      saving (record_push id payload blob version st s)
  after_push_put id payload blob st (err conflict_409) s = (conflicting id, s)
  after_push_put id payload blob st (err project_not_found) s =
      (record nothing_changed { removed = true }, drop_project_locked env id s)
  after_push_put id payload blob st (err expired) s = (failed_op (api_error expired), s)
  after_push_put id payload blob st (err (other_error n)) s =
      (failed_op (api_error (other_error n)), s)

  unfoldable pub push_edit : Str → Bytes → ProjectSyncState → Bytes → Operation
  push_edit id payload st dek s = elim (ProjectsEnv.seal env (ProjectsState.calls s) dek payload) [
    | err e ↦ (failed_op (api_error e), s)
    | ok blob ↦
        let s' = asked (put_project_vault id blob (ProjectSyncState.last_synced_version st)) s in
        after_push_put id payload blob st (ProjectsEnv.put_version env (ProjectsState.calls s')) s'
  ]

  -- PushProject
  unfoldable pub push_project : Str → Bytes → Operation
  push_project id payload s = elim (open_session s) [
    | none ↦ (failed_op signed_out, s)
    | some sess ↦ elim (lookup id (ProjectsState.deks s)) [
      | none ↦ (failed_op no_project_key, s)
      | some dek ↦ push_edit id payload (sync_state id sess) dek s
    ]
  ]

  -- wrapForRecipients: the wrapped keys, and the caller's own.
  unfoldable pub wrap_for_recipients :
      List ProjectCall
      → Str
      → Bytes
      → List PendingKey
      → Result ApiError (List (Str × Bytes) × Option Bytes)
  wrap_for_recipients calls user_id dek [] = ok ([], none)
  wrap_for_recipients calls user_id dek (r ∷ rs) =
      let rest = wrap_for_recipients calls user_id dek rs in
      elim (PendingKey.public_key r) [
        | [] ↦ rest
        | b ∷ bs ↦ elim (ProjectsEnv.wrap env calls dek (b ∷ bs)) [
          | err e ↦ err e
          | ok w ↦ elim rest [
            | err e ↦ err e
            | ok (wraps, self) ↦ ok (
              (PendingKey.user_id r, w) ∷ wraps,
              elim self [
                | some later ↦ some later
                | none ↦ if str_eq (PendingKey.user_id r) user_id then some w else none
              ],
            )
          ]
        ]
      ]

  -- A rotation: what is posted, and what is kept if it succeeds.
  pub record Rotation : Type 0 where
    pub project_id : Str
    pub remove_user_id : Str
    pub dek : Bytes
    pub wraps : List (Str × Bytes)
    pub self_wrapped : Option Bytes
    pub sync : ProjectSyncState

  -- RotateProject
  unfoldable pub post_rotation :
      Rotation → Bytes → ℤ → ProjectsState → Result ApiError ℤ × ProjectsState
  post_rotation r blob expected s =
      let s' =
        asked
          (rotate_project (Rotation.project_id r) (Rotation.remove_user_id r) blob expected
            (Rotation.wraps r))
          s in
      (ProjectsEnv.rotated_version env (ProjectsState.calls s'), s')

  -- The end of RemoveMember.
  unfoldable pub finish_rotation : Rotation → Bytes → Bytes → Result ApiError ℤ → Operation
  finish_rotation r payload blob (err conflict_409) s = (conflicting (Rotation.project_id r), s)
  finish_rotation r payload blob (err expired) s = (failed_op (api_error expired), s)
  finish_rotation r payload blob (err project_not_found) s =
      (failed_op (api_error project_not_found), s)
  finish_rotation r payload blob (err (other_error n)) s =
      (failed_op (api_error (other_error n)), s)
  finish_rotation r payload blob (ok version) s =
      let st : ProjectSyncState = elim (Rotation.self_wrapped r) [
        | none ↦ Rotation.sync r
        | some w ↦ record (Rotation.sync r) { wrapped_dek = ProjectsEnv.encode_base64 env w }
      ] in
      let s' = record s {
        deks = insert (Rotation.project_id r) (Rotation.dek r) (ProjectsState.deks s);
      } in
      saving (record_push (Rotation.project_id r) payload blob version st s')

  -- The second attempt, with the remote payload; `again` is the result of the first.
  unfoldable pub retry_rotation : Rotation → Bytes → Bytes → Bytes → RemoteProject → Operation
  retry_rotation r fresh payload blob v s =
      elim (ProjectsEnv.seal env (ProjectsState.calls s) (Rotation.dek r) fresh) [
        | err e ↦ finish_rotation r fresh blob (err conflict_409) s
        | ok blob' ↦
            let (answer, s') = post_rotation r blob' (RemoteProject.version v) s in
            finish_rotation r fresh blob' answer s'
      ]

  -- The refetch after a stale version.
  unfoldable pub refetch_rotation :
      Rotation → IdentityKeys → Bytes → Bytes → Result ApiError RemoteProject → Operation
  refetch_rotation r keys payload blob (err e) s =
      finish_rotation r payload blob (err conflict_409) s
  refetch_rotation r keys payload blob (ok v) s =
      let stale = finish_rotation r payload blob (err conflict_409) s in
      elim (RemoteProject.wrapped_dek v) [
        | none ↦ stale
        | some wrapped ↦
            elim (ProjectsEnv.unwrap env wrapped (IdentityKeys.public_key keys)
              (IdentityKeys.private_key keys)) [
                | none ↦ stale
                | some old_dek ↦ elim (ProjectsEnv.unseal env old_dek (RemoteProject.blob v)) [
                  | none ↦ stale
                  | some fresh ↦ retry_rotation r fresh payload blob v s
                ]
              ]
      ]

  unfoldable pub after_rotation :
      Rotation → IdentityKeys → Bytes → Bytes → Result ApiError ℤ → Operation
  after_rotation r keys payload blob (err conflict_409) s =
      let s' = asked (get_project_vault (Rotation.project_id r)) s in
      refetch_rotation r keys payload blob (ProjectsEnv.fetched env (ProjectsState.calls s')) s'
  after_rotation r keys payload blob (err expired) s =
      finish_rotation r payload blob (err expired) s
  after_rotation r keys payload blob (err project_not_found) s =
      finish_rotation r payload blob (err project_not_found) s
  after_rotation r keys payload blob (err (other_error n)) s =
      finish_rotation r payload blob (err (other_error n)) s
  after_rotation r keys payload blob (ok version) s = finish_rotation r payload blob (ok version) s

  unfoldable pub rotate_with : Rotation → IdentityKeys → Bytes → Operation
  rotate_with r keys payload s =
      elim (ProjectsEnv.seal env (ProjectsState.calls s) (Rotation.dek r) payload) [
        | err e ↦ (failed_op (api_error e), s)
        | ok blob ↦
            let (answer, s') =
              post_rotation r blob (ProjectSyncState.last_synced_version (Rotation.sync r)) s in
            after_rotation r keys payload blob answer s'
      ]

  -- RemoveMember
  unfoldable pub remove_member : Str → Str → Bytes → List PendingKey → Operation
  remove_member project_id remove_user_id payload recipients s = elim (open_session s) [
    | none ↦ (failed_op signed_out, s)
    | some sess ↦
        if not (ProjectsEnv.has_crypto env)
        then (failed_op no_identity, s)
        else elim (ProjectsState.identity s) [
          | none ↦ (failed_op no_identity, s)
          | some keys ↦ elim (ProjectsEnv.new_dek env (ProjectsState.calls s)) [
            | err e ↦ (failed_op (api_error e), s)
            | ok dek ↦
                elim (wrap_for_recipients (ProjectsState.calls s) (ProjectSession.user_id sess) dek
                  recipients) [
                    | err e ↦ (failed_op (api_error e), s)
                    | ok (wraps, self) ↦
                        rotate_with
                          (record {
                            project_id = project_id;
                            remove_user_id = remove_user_id;
                            dek = dek;
                            wraps = wraps;
                            self_wrapped = self;
                            sync = sync_state project_id sess;
                          })
                          keys payload s
                  ]
          ]
        ]
  ]

-- CreateProject: what is told, or the error.
abbrev pub Created : Type 0
Created = Result OpError ProjectView × ProjectsState

module _ (env : ProjectsEnv) where
  -- CreateProject, from the answer of the backend. `empty_document` is what Marshal makes of an empty
  -- document.
  unfoldable pub after_create :
      Bytes
      → Bytes
      → Bytes
      → Bytes
      → ProjectSession
      → Result ApiError Detail
      → ProjectsState
      → Created
  after_create payload dek blob wrapped sess (err e) s = (err (api_error e), s)
  after_create payload dek blob wrapped sess (ok detail) s =
      let st : ProjectSyncState = record {
        name = Detail.name detail;
        role = Detail.role detail;
        last_synced_version = Detail.vault_version detail;
        last_synced_fingerprint = ProjectsEnv.fingerprint env payload;
        wrapped_dek = ProjectsEnv.encode_base64 env wrapped;
      } in
      let s' = record s { deks = insert (Detail.id detail) dek (ProjectsState.deks s) } in
      (
        ok (record {
          id = Detail.id detail;
          name = Detail.name detail;
          description = Detail.description detail;
          role = Detail.role detail;
          awaiting_key = false;
          version = Detail.vault_version detail;
          member_count = Detail.members detail;
          pending_invite_count = pos 0;
          payload = some payload;
        }),
        save_projects (
            write_blob_cache env (Detail.id detail) blob (set_sync_state (Detail.id detail) st s')),
      )

  unfoldable pub create_with_dek :
      Bytes → IdentityKeys → ProjectSession → Bytes → ProjectsState → Created
  create_with_dek payload keys sess dek s =
      elim (ProjectsEnv.seal env (ProjectsState.calls s) dek payload) [
        | err e ↦ (err (api_error e), s)
        | ok blob ↦
            elim (ProjectsEnv.wrap env (ProjectsState.calls s) dek (IdentityKeys.public_key keys)) [
              | err e ↦ (err (api_error e), s)
              | ok wrapped ↦
                  let s' = asked (create_project blob wrapped) s in
                  after_create payload dek blob wrapped sess
                    (ProjectsEnv.created env (ProjectsState.calls s')) s'
            ]
      ]

  -- CreateProject
  unfoldable pub create_new_project : Bytes → ProjectsState → Created
  create_new_project empty_document s = elim (open_session s) [
    | none ↦ (err signed_out, s)
    | some sess ↦
        if not (ProjectsEnv.has_crypto env)
        then (err no_identity, s)
        else elim (ProjectsState.identity s) [
          | none ↦ (err no_identity, s)
          | some keys ↦ elim (ProjectsEnv.new_dek env (ProjectsState.calls s)) [
            | err e ↦ (err (api_error e), s)
            | ok dek ↦ create_with_dek empty_document keys sess dek s
          ]
        ]
  ]
