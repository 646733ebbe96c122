-- ===== src/Projects/Recorded.antt =====
-- What PushProject, ResolveProject and RemoveMember leave in the bookkeeping of the project.
use wharf_tui.Base.{
  Bool, true, false, ◌≡◌, refl, sym, ◌∙◌, ap, none, some, Bool-cases, Option-cases, ◌⊎◌, inl, inr,
}
use wharf_tui.Base.Int.{ℤ}
use wharf_tui.Base.Text.{Str}
use wharf_tui.Base.Results.{Result, ok, err, Result-cases}
use wharf_tui.Base.Dict.{lookup, insert, erase, lookup-insert_same, lookup-erase_same}
use wharf_tui.Sync.{Bytes, Pending}
use wharf_tui.Projects.{
  ApiError, conflict_409, expired, project_not_found, other_error, ProjectSyncState,
  ProjectOpResult, ProjectSession, put_project_vault, ProjectsState, ProjectsEnv, asked, sync_state,
  set_sync_state, save_projects, write_blob_cache, drop_project_locked, open_session,
}
use wharf_tui.Projects.Change.{
  record_push, at_version, after_push_put, push_edit, push_project, after_resolve_put, push_over,
  adopt_project, resolve_project, forget_pending,
}

module _ (env : ProjectsEnv) (id : Str) where
  -- The bookkeeping of the project is at the version that is reported, with the fingerprint of the
  -- payload that is reported.
  abbrev pub IsRecorded : ProjectOpResult → ProjectsState → Type 0
  IsRecorded res s =
      (payload : Bytes) × (sess : ProjectSession) × (ProjectOpResult.payload res ≡ some payload)
      × (ProjectsState.sess s ≡ some sess)
      × (ProjectSyncState.last_synced_version (sync_state id sess) ≡ ProjectOpResult.version res)
      × (ProjectSyncState.last_synced_fingerprint (sync_state id sess)
          ≡ ProjectsEnv.fingerprint env payload)

  -- Nothing is reported as done, and the session is as it was.
  abbrev pub IsUntouched : ProjectsState → ProjectOpResult → ProjectsState → Type 0
  IsUntouched s res s' =
      (ProjectOpResult.pushed res ≡ false)
      × (ProjectOpResult.adopted res ≡ false)
      × (ProjectOpResult.removed res ≡ false)
      × (ProjectsState.sess s' ≡ ProjectsState.sess s)

  -- The project is reported as removed, and its key, the remote side of a conflict over it and its
  -- bookkeeping are gone, and so is its cached blob, unless its file could not be removed.
  abbrev pub IsForgotten : ProjectOpResult → ProjectsState → Type 0
  IsForgotten res s' =
      (ProjectOpResult.removed res ≡ true)
      × (lookup id (ProjectsState.deks s') ≡ none)
      × (lookup id (ProjectsState.pending s') ≡ none)
      × ((sess : ProjectSession) × (ProjectsState.sess s' ≡ some sess)
          × (lookup id (ProjectSession.projects sess) ≡ none))
      × ((lookup id (ProjectsState.cache s') ≡ none)
          ⊎ (ProjectsEnv.can_remove env (ProjectsState.calls s') ≡ false))

  abbrev pub IsSettled : ProjectsState → ProjectOpResult × ProjectsState → Type 0
  IsSettled s (res, s') = IsUntouched s res s' ⊎ (IsRecorded res s' ⊎ IsForgotten res s')

  save-sess : (s : ProjectsState) → ProjectsState.sess (save_projects s) ≡ ProjectsState.sess s
  unfolding save_projects
  save-sess s = elim (Option-cases (ProjectsState.sess s)) [
    | inl e ↦ simp (save_projects, e) refl
    | inr (sess, e) ↦ simp (save_projects, e) refl
  ]

  cached-sess :
      (blob : Bytes) (s : ProjectsState)
      → ProjectsState.sess (write_blob_cache env id blob s) ≡ ProjectsState.sess s
  unfolding write_blob_cache
  cached-sess blob s = elim (Bool-cases (ProjectsEnv.can_write env (ProjectsState.calls s))) [
    | inl e ↦ simp (write_blob_cache, e) refl
    | inr e ↦ simp (write_blob_cache, e) refl
  ]

  -- The bookkeeping after it was set, through a session that is there.
  set-sess :
      (st : ProjectSyncState) (s : ProjectsState) (sess : ProjectSession)
      → ProjectsState.sess s ≡ some sess
      → ProjectsState.sess (set_sync_state id st s)
        ≡ some (record sess { projects = insert id st (ProjectSession.projects sess) })
  unfolding set_sync_state
  set-sess st s sess e = simp (set_sync_state, e) refl

  sync_state-insert :
      (st : ProjectSyncState) (sess : ProjectSession)
      → sync_state id (record sess { projects = insert id st (ProjectSession.projects sess) }) ≡ st
  unfolding sync_state
  sync_state-insert st sess =
      rw (sync_state, lookup-insert_same id st (ProjectSession.projects sess)) refl

  record-IsRecorded :
      (payload blob : Bytes) (version : ℤ) (st : ProjectSyncState) (s : ProjectsState)
      (sess : ProjectSession)
      → ProjectsState.sess s ≡ some sess
      → (f : ProjectsState → ProjectsState)
      → ((t : ProjectsState) → ProjectsState.sess (f t) ≡ ProjectsState.sess t)
      → IsRecorded
          ((record_push env id payload blob version st s).0)
          (f ((record_push env id payload blob version st s).1))
  unfolding record_push
  record-IsRecorded payload blob version st s sess e f keeps =
      let new = at_version env version payload st in
      let s' = write_blob_cache env id blob s in
      (
        payload,
        record sess { projects = insert id new (ProjectSession.projects sess) },
        refl,
        keeps (set_sync_state id new s') ∙ set-sess new s' sess (cached-sess blob s ∙ e),
        ap ProjectSyncState.last_synced_version (sync_state-insert new sess),
        ap ProjectSyncState.last_synced_fingerprint (sync_state-insert new sess),
      )

  forgotten-cache :
      (s : ProjectsState)
      → (lookup id (ProjectsState.cache (drop_project_locked env id s)) ≡ none)
        ⊎ (ProjectsEnv.can_remove env (ProjectsState.calls s) ≡ false)
  unfolding drop_project_locked
  forgotten-cache s = elim (Bool-cases (ProjectsEnv.can_remove env (ProjectsState.calls s))) [
    | inl e ↦ inl (simp (drop_project_locked, e) (lookup-erase_same id (ProjectsState.cache s)))
    | inr e ↦ inr e
  ]

  forgotten-sess :
      (s : ProjectsState) (sess : ProjectSession)
      → ProjectsState.sess s ≡ some sess
      → (sess' : ProjectSession) × (ProjectsState.sess (drop_project_locked env id s) ≡ some sess')
        × (lookup id (ProjectSession.projects sess') ≡ none)
  unfolding drop_project_locked
  forgotten-sess s sess e = (
    record sess { projects = erase id (ProjectSession.projects sess) },
    simp (drop_project_locked, e) refl,
    lookup-erase_same id (ProjectSession.projects sess),
  )

  after_push_put-IsSettled :
      (payload blob : Bytes) (st : ProjectSyncState) (answer : Result ApiError ℤ)
      (s : ProjectsState) (sess : ProjectSession)
      → ProjectsState.sess s ≡ some sess
      → IsSettled s (after_push_put env id payload blob st answer s)
  unfolding after_push_put drop_project_locked
  after_push_put-IsSettled payload blob st (ok version) s sess e =
      inr (inl (record-IsRecorded payload blob version st s sess e save_projects save-sess))
  after_push_put-IsSettled payload blob st (err conflict_409) s sess e =
      inl (refl, refl, refl, refl)
  after_push_put-IsSettled payload blob st (err expired) s sess e = inl (refl, refl, refl, refl)
  after_push_put-IsSettled payload blob st (err project_not_found) s sess e = inr (
      inr (
        refl,
        lookup-erase_same id (ProjectsState.deks s),
        lookup-erase_same id (ProjectsState.pending s),
        forgotten-sess s sess e,
        forgotten-cache s,
      ))
  after_push_put-IsSettled payload blob st (err (other_error n)) s sess e =
      inl (refl, refl, refl, refl)

  after_resolve_put-IsSettled :
      (payload blob : Bytes) (st : ProjectSyncState) (answer : Result ApiError ℤ)
      (s : ProjectsState) (sess : ProjectSession)
      → ProjectsState.sess s ≡ some sess
      → IsSettled s (after_resolve_put env id payload blob st answer s)
  unfolding after_resolve_put
  after_resolve_put-IsSettled payload blob st (ok version) s sess e = inr (
      inl (
        record-IsRecorded payload blob version st s sess e
          (λ t. save_projects (forget_pending id t)) (λ t. save-sess (forget_pending id t))))
  after_resolve_put-IsSettled payload blob st (err conflict_409) s sess e =
      inl (refl, refl, refl, refl)
  after_resolve_put-IsSettled payload blob st (err expired) s sess e = inl (refl, refl, refl, refl)
  after_resolve_put-IsSettled payload blob st (err project_not_found) s sess e =
      inl (refl, refl, refl, refl)
  after_resolve_put-IsSettled payload blob st (err (other_error n)) s sess e =
      inl (refl, refl, refl, refl)

  adopt-IsSettled :
      (pend : Pending) (st : ProjectSyncState) (s : ProjectsState) (sess : ProjectSession)
      → ProjectsState.sess s ≡ some sess
      → IsSettled s (adopt_project env id pend st s)
  unfolding adopt_project
  adopt-IsSettled pend st s sess e =
      let new = at_version env (Pending.version pend) (Pending.payload pend) st in
      inr (
        inl (
          Pending.payload pend,
          record sess { projects = insert id new (ProjectSession.projects sess) },
          refl,
          save-sess (forget_pending id (set_sync_state id new s)) ∙ set-sess new s sess e,
          ap ProjectSyncState.last_synced_version (sync_state-insert new sess),
          ap ProjectSyncState.last_synced_fingerprint (sync_state-insert new sess),
        ))

  open_session-sess :
      (s : ProjectsState) (sess : ProjectSession)
      → open_session s ≡ some sess
      → ProjectsState.sess s ≡ some sess
  unfolding open_session
  open_session-sess s sess e = elim (Bool-cases (ProjectsState.closed s)) [
    | inl shut ↦ let none_yet : open_session s ≡ none = simp (open_session, shut) refl in cc
    | inr running ↦ sym (simp (open_session, running) refl) ∙ e
  ]

  push_edit-IsSettled :
      (payload : Bytes) (st : ProjectSyncState) (dek : Bytes) (s : ProjectsState)
      (sess : ProjectSession)
      → ProjectsState.sess s ≡ some sess
      → IsSettled s (push_edit env id payload st dek s)
  unfolding push_edit
  push_edit-IsSettled payload st dek s sess e =
      elim (Result-cases (ProjectsEnv.seal env (ProjectsState.calls s) dek payload)) [
        | inl (n, f) ↦ simp (push_edit, f) (inl (refl, refl, refl, refl))
        | inr (blob, f) ↦
            let s' =
              asked (put_project_vault id blob (ProjectSyncState.last_synced_version st)) s in
            let answer = ProjectsEnv.put_version env (ProjectsState.calls s') in
            rw (push_edit, f) (after_push_put-IsSettled payload blob st answer s' sess e)
      ]

  push_over-IsSettled :
      (payload : Bytes) (expected : ℤ) (st : ProjectSyncState) (dek : Bytes) (s : ProjectsState)
      (sess : ProjectSession)
      → ProjectsState.sess s ≡ some sess
      → IsSettled s (push_over env id payload expected st dek s)
  unfolding push_over
  push_over-IsSettled payload expected st dek s sess e =
      elim (Result-cases (ProjectsEnv.seal env (ProjectsState.calls s) dek payload)) [
        | inl (n, f) ↦ simp (push_over, f) (inl (refl, refl, refl, refl))
        | inr (blob, f) ↦
            let s' = asked (put_project_vault id blob expected) s in
            let answer = ProjectsEnv.put_version env (ProjectsState.calls s') in
            rw (push_over, f) (after_resolve_put-IsSettled payload blob st answer s' sess e)
      ]

  push_project-IsSettled :
      (payload : Bytes) (s : ProjectsState) → IsSettled s (push_project env id payload s)
  unfolding push_project
  push_project-IsSettled payload s = elim (Option-cases (open_session s)) [
    | inl e ↦ simp (push_project, e) (inl (refl, refl, refl, refl))
    | inr (sess, e) ↦ elim (Option-cases (lookup id (ProjectsState.deks s))) [
      | inl f ↦ simp (push_project, e, f) (inl (refl, refl, refl, refl))
      | inr (dek, f) ↦
          rw (push_project, e, f)
            (push_edit-IsSettled payload (sync_state id sess) dek s sess
              (open_session-sess s sess e))
    ]
  ]

  resolve_project-IsSettled :
      (keep_local : Bool) (local_payload : Bytes) (s : ProjectsState)
      → IsSettled s (resolve_project env id keep_local local_payload s)
  unfolding resolve_project
  resolve_project-IsSettled keep_local payload s = elim (Option-cases (open_session s)) [
    | inl e ↦ simp (resolve_project, e) (inl (refl, refl, refl, refl))
    | inr (sess, e) ↦ elim (Option-cases (lookup id (ProjectsState.pending s))) [
      | inl f ↦ simp (resolve_project, e, f) (inl (refl, refl, refl, refl))
      | inr (pend, f) ↦
          let is_open = open_session-sess s sess e in
          elim (Bool-cases keep_local) [
            | inl ours ↦ elim (Option-cases (lookup id (ProjectsState.deks s))) [
              | inl g ↦ simp (resolve_project, e, f, ours, g) (inl (refl, refl, refl, refl))
              | inr (dek, g) ↦
                  rw (resolve_project, e, f, ours, g)
                    (push_over-IsSettled payload (Pending.version pend) (sync_state id sess) dek s
                      sess is_open)
            ]
            | inr theirs ↦
                rw (resolve_project, e, f, theirs)
                  (adopt-IsSettled pend (sync_state id sess) s sess is_open)
          ]
    ]
  ]

  -- Whatever the backend answers: PushProject and ResolveProject either report nothing as done and
  -- leave the session as it was; or they report a version and a payload, at which the bookkeeping of
  -- the project then is; or they report the project as removed, and its key, its bookkeeping and the
  -- remote side of a conflict over it are gone, and so is its cached blob, unless its file could not
  -- be removed.
  pub push_resolve-IsSettled :
      (keep_local : Bool) (payload : Bytes) (s : ProjectsState)
      → IsSettled s (push_project env id payload s)
        × IsSettled s (resolve_project env id keep_local payload s)
  push_resolve-IsSettled keep_local payload s =
      (push_project-IsSettled payload s, resolve_project-IsSettled keep_local payload s)
