-- ===== src/Projects/Kept.antt =====
-- A pass over the projects never shows somebody else's payload over local edits.
use wharf_tui.Base.{
  ◌≡◌, refl, sym, subst, Option, some, List, [], ◌∷◌, append-nil, Bool-cases, Option-cases, ◌⊎◌,
  inl, inr,
}
use wharf_tui.Base.Text.{Str}
use wharf_tui.Base.Results.{Result, ok, err, ok-injective}
use wharf_tui.Base.Dict.{insert}
use wharf_tui.Sync.{Bytes}
use wharf_tui.Projects.{
  ProjectCall, ApiError, conflict_409, expired, project_not_found, other_error, Summary,
  RemoteProject, ProjectSyncState, IdentityKeys, ProjectSession, ProjectsState, ProjectsEnv,
  sync_state, dead_locked, write_blob_cache, asked, get_project_vault, put_project_vault,
}
use wharf_tui.Projects.Pass.{
  Progress, Entry, on_state, note_error, remove_project, start_entry, with_key, after_fetch,
  sync_project,
}
use wharf_tui.Projects.Views.{ShowsKept, IsSource, IsSecond, mark_awaiting-ShowsKept}
use wharf_tui.Projects.Settled.{settle-ShowsKept}

module _ (env : ProjectsEnv) where
  -- A payload of the backend: what the account's key of the project opens of the blob that the backend
  -- gave, when it was asked after the calls `cs`, or was asked again after the upload that followed.
  pub record IsRemote (keys : IdentityKeys) (id : Str) (cs : List ProjectCall) (theirs : Bytes)
      : Type 0 where
    pub found : RemoteProject
    pub given : RemoteProject
    pub wrapped : Bytes
    pub dek : Bytes
    pub before : List ProjectCall
    pub fetch : ProjectsEnv.fetched env (get_project_vault id ∷ cs) ≡ ok found
    pub has_key : RemoteProject.wrapped_dek found ≡ some wrapped
    pub unwrap :
        ProjectsEnv.unwrap env wrapped
          (IdentityKeys.public_key keys)
          (IdentityKeys.private_key keys)
        ≡ some dek
    pub asked_when :
        (before ≡ cs)
        ⊎ ((blob : Bytes) × (before
              ≡ put_project_vault id blob (RemoteProject.version found)
                ∷ get_project_vault id
                ∷ cs))
    pub answer : ProjectsEnv.fetched env (get_project_vault id ∷ before) ≡ ok given
    pub opened : ProjectsEnv.unseal env dek (RemoteProject.blob given) ≡ some theirs

  cached-calls :
      (id : Str) (blob : Bytes) (s : ProjectsState)
      → ProjectsState.calls (write_blob_cache env id blob s) ≡ ProjectsState.calls s
  unfolding write_blob_cache
  cached-calls id blob s = elim (Bool-cases (ProjectsEnv.can_write env (ProjectsState.calls s))) [
    | inl e ↦ simp (write_blob_cache, e) refl
    | inr e ↦ simp (write_blob_cache, e) refl
  ]

  module _ (Remote : Bytes → Type 0) (synced : Str) where
    with_key-ShowsKept :
        (sum : Summary) (wrapped dek : Bytes) (mine : Option Bytes) (v : RemoteProject)
        (entry : Entry) (p : Progress)
        → ProjectSyncState.last_synced_fingerprint (Entry.sync entry) ≡ synced
        → IsSource env Remote dek (ok v)
        → IsSecond env Remote sum dek v p
        → ShowsKept env Remote mine synced
            (Progress.views p)
            (with_key env sum wrapped dek mine v entry p)
    unfolding with_key
    with_key-ShowsKept sum wrapped dek mine v entry p s far again =
        let entry' : Entry = record entry {
          sync = record (Entry.sync entry) { wrapped_dek = ProjectsEnv.encode_base64 env wrapped };
        } in
        let p' =
          on_state
            (λ s.
              write_blob_cache env (Summary.id sum) (RemoteProject.blob v)
                (record s { deks = insert (Summary.id sum) dek (ProjectsState.deks s) }))
            p in
        elim (Option-cases (ProjectsEnv.unseal env dek (RemoteProject.blob v))) [
          | inl e ↦
              simp (with_key, e)
                (mark_awaiting-ShowsKept env Remote mine synced (Summary.id sum) entry' p')
          | inr (theirs, e) ↦
              simp (with_key, e)
                (settle-ShowsKept env Remote synced sum dek mine theirs v entry' p' s
                  (far v theirs refl e)
                  (λ blob.
                    subst
                      (λ cs. IsSource env Remote dek (
                        ProjectsEnv.fetched env (
                          get_project_vault (Summary.id sum)
                          ∷ put_project_vault (Summary.id sum) blob (RemoteProject.version v)
                          ∷ cs)))
                      (sym (
                        cached-calls (Summary.id sum) (RemoteProject.blob v)
                          (record (Progress.state p) {
                            deks =
                                insert (Summary.id sum) dek (ProjectsState.deks (Progress.state p));
                          })))
                      (again blob)))
        ]

    after_fetch-ShowsKept :
        (sum : Summary) (keys : IdentityKeys) (mine : Option Bytes) (entry : Entry)
        (r : Result ApiError RemoteProject) (p : Progress)
        → ProjectSyncState.last_synced_fingerprint (Entry.sync entry) ≡ synced
        → ((v : RemoteProject) (wrapped dek : Bytes)
            → r ≡ ok v
            → RemoteProject.wrapped_dek v ≡ some wrapped
            → ProjectsEnv.unwrap env wrapped
                (IdentityKeys.public_key keys)
                (IdentityKeys.private_key keys)
              ≡ some dek
            → IsSource env Remote dek (ok v) × IsSecond env Remote sum dek v p)
        → ShowsKept env Remote mine synced
            (Progress.views p)
            (after_fetch env sum keys mine entry r p)
    unfolding after_fetch with_key note_error dead_locked remove_project
    after_fetch-ShowsKept sum keys mine entry (err project_not_found) p s far =
        ([], sym (append-nil (Progress.views p)), tt)
    after_fetch-ShowsKept sum keys mine entry (err expired) p s far = refl
    after_fetch-ShowsKept sum keys mine entry (err conflict_409) p s far =
        ([], sym (append-nil (Progress.views p)), tt)
    after_fetch-ShowsKept sum keys mine entry (err (other_error n)) p s far =
        ([], sym (append-nil (Progress.views p)), tt)
    after_fetch-ShowsKept sum keys mine entry (ok v) p s far =
        elim (Option-cases (RemoteProject.wrapped_dek v)) [
          | inl e ↦
              simp (after_fetch, e)
                (mark_awaiting-ShowsKept env Remote mine synced (Summary.id sum) entry p)
          | inr (wrapped, e) ↦
              elim (Option-cases (
                ProjectsEnv.unwrap env wrapped (IdentityKeys.public_key keys)
                  (IdentityKeys.private_key keys))) [
                    | inl f ↦
                        simp (after_fetch, e, f)
                          (mark_awaiting-ShowsKept env Remote mine synced (Summary.id sum) entry p)
                    | inr (dek, f) ↦
                        simp (after_fetch, e, f)
                          (let both = far v wrapped dek refl e f in
                            with_key-ShowsKept sum wrapped dek mine v entry p s both.0 both.1)
                  ]
        ]

  -- One project of a pass: if the session is found dead it is dropped, and else what the pass shows
  -- of the project is nothing, the payload that the interface has, or the payload of the backend, as
  -- this account opens it, where the interface has none, or has one with the fingerprint of the last
  -- sync or with that of the backend's.
  pub sync_project-ShowsKept :
      (local : Str → Option Bytes) (keys : IdentityKeys) (sess : ProjectSession) (sum : Summary)
      (p : Progress)
      → ShowsKept env
          (IsRemote keys (Summary.id sum) (ProjectsState.calls (Progress.state p)))
          (local (Summary.id sum))
          (ProjectSyncState.last_synced_fingerprint (sync_state (Summary.id sum) sess))
          (Progress.views p)
          (sync_project env local keys sess sum p)
  unfolding sync_project start_entry
  sync_project-ShowsKept local keys sess sum p =
      let id = Summary.id sum in
      let mine = local id in
      let synced = ProjectSyncState.last_synced_fingerprint (sync_state id sess) in
      let entry = start_entry sum sess in
      let p' = on_state (asked (get_project_vault id)) p in
      let cs = ProjectsState.calls (Progress.state p) in
      let Remote = IsRemote keys id cs in
      elim (Bool-cases (Summary.awaiting_key sum)) [
        | inl e ↦ simp (sync_project, e) (mark_awaiting-ShowsKept env Remote mine synced id entry p)
        | inr e ↦
            simp (sync_project, e)
              (after_fetch-ShowsKept Remote synced sum keys mine entry
                (ProjectsEnv.fetched env (ProjectsState.calls (Progress.state p'))) p' refl
                (λ v wrapped dek f has u. (
                  λ v' theirs same o. record {
                    found = v;
                    given = v;
                    wrapped = wrapped;
                    dek = dek;
                    before = cs;
                    fetch = f;
                    has_key = has;
                    unwrap = u;
                    asked_when = inl refl;
                    answer = f;
                    opened =
                        subst (λ x. ProjectsEnv.unseal env dek (RemoteProject.blob x) ≡ some theirs)
                          (sym (ok-injective same)) o;
                  },
                  λ blob v' theirs g o. record {
                    found = v;
                    given = v';
                    wrapped = wrapped;
                    dek = dek;
                    before =
                        put_project_vault id blob (RemoteProject.version v)
                        ∷ get_project_vault id
                        ∷ cs;
                    fetch = f;
                    has_key = has;
                    unwrap = u;
                    asked_when = inr (blob, refl);
                    answer = g;
                    opened = o;
                  },
                )))
      ]
