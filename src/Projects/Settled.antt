-- ===== src/Projects/Settled.antt =====
-- What the switch on local and remote changes shows of a project.
use wharf_tui.Base.{
  true, ◌≡◌, refl, sym, Option, none, some, ◌∷◌, Bool-cases, Option-cases, inl, inr,
}
use wharf_tui.Base.Int.{ℤ, int_eq}
use wharf_tui.Base.Text.{Str, str_eq}
use wharf_tui.Base.Results.{Result, ok, err, Result-cases}
use wharf_tui.Sync.{Bytes}
use wharf_tui.Projects.{
  ApiError, conflict_409, expired, project_not_found, other_error, Summary, RemoteProject,
  ProjectSyncState, ProjectsState, ProjectsEnv, dead_locked, write_blob_cache, asked,
  get_project_vault, put_project_vault,
}
use wharf_tui.Projects.Pass.{
  Progress, going, Entry, on_state, note_error, keep_entry, shows, agree_on, queue_conflict,
  compare_payloads, refetched, refetch_project_conflict, after_project_put, push_project_changes,
  settle,
}
use wharf_tui.Projects.Views.{ShowsKept, IsSource, IsSecond, keep-ShowsKept}

module _ (env : ProjectsEnv) where
  module _ (Remote : Bytes → Type 0) where
    module _ (mine : Bytes) (synced : Str) where
      compare-ShowsKept :
          (sum : Summary) (theirs : Bytes) (v : RemoteProject) (entry : Entry) (p : Progress)
          → Remote theirs
          → ShowsKept env Remote
              (some mine)
              synced
              (Progress.views p)
              (going (compare_payloads env sum mine theirs v entry p))
      unfolding compare_payloads queue_conflict agree_on
      compare-ShowsKept sum theirs v entry p far =
          elim (Bool-cases
            (str_eq (ProjectsEnv.fingerprint env mine) (ProjectsEnv.fingerprint env theirs))) [
              | inl e ↦
                  rw (compare_payloads, e)
                    (keep-ShowsKept env Remote (some mine) synced (Summary.id sum)
                      (agree_on env (RemoteProject.version v) theirs entry) p
                      (inr (inr (theirs, refl, far, inr e))))
              | inr e ↦
                  rw (compare_payloads, e)
                    (keep-ShowsKept env Remote (some mine) synced (Summary.id sum)
                      (shows (some mine) entry) (queue_conflict env sum mine theirs v p)
                      (inr (inl refl)))
            ]

      as_it_was :
          (id : Str) (entry : Entry) (p : Progress)
          → ShowsKept env Remote
              (some mine)
              synced
              (Progress.views p)
              (going (keep_entry id (shows (some mine) entry) p))
      as_it_was id entry p =
          keep-ShowsKept env Remote (some mine) synced id (shows (some mine) entry) p
            (inr (inl refl))

      refetched-ShowsKept :
          (sum : Summary) (dek : Bytes) (entry : Entry) (r : Result ApiError RemoteProject)
          (p : Progress)
          → IsSource env Remote dek r
          → ShowsKept env Remote
              (some mine)
              synced
              (Progress.views p)
              (going (refetched env sum dek mine entry r p))
      unfolding refetched
      refetched-ShowsKept sum dek entry (err e) p far = as_it_was (Summary.id sum) entry p
      refetched-ShowsKept sum dek entry (ok v) p far =
          elim (Option-cases (RemoteProject.wrapped_dek v)) [
            | inl e ↦ rw (refetched, e) (as_it_was (Summary.id sum) entry p)
            | inr (wrapped, e) ↦
                elim (Option-cases (ProjectsEnv.unseal env dek (RemoteProject.blob v))) [
                  | inl f ↦ simp (refetched, e, f) (as_it_was (Summary.id sum) entry p)
                  | inr (theirs, f) ↦
                      simp (refetched, e, f)
                        (compare-ShowsKept sum theirs v entry p (far v theirs refl f))
                ]
          ]

      after_put-ShowsKept :
          (sum : Summary) (dek blob : Bytes) (entry : Entry) (r : Result ApiError ℤ) (p : Progress)
          → IsSource env Remote dek (
              ProjectsEnv.fetched env
                (get_project_vault (Summary.id sum) ∷ ProjectsState.calls (Progress.state p)))
          → ShowsKept env Remote
              (some mine)
              synced
              (Progress.views p)
              (after_project_put env sum dek mine blob entry r p)
      unfolding after_project_put agree_on note_error dead_locked refetch_project_conflict
      after_put-ShowsKept sum dek blob entry (ok version) p far =
          keep-ShowsKept env Remote (some mine) synced (Summary.id sum)
            (agree_on env version mine entry)
            (on_state (write_blob_cache env (Summary.id sum) blob) p) (inr (inl refl))
      after_put-ShowsKept sum dek blob entry (err conflict_409) p far =
          let p' = on_state (asked (get_project_vault (Summary.id sum))) p in
          refetched-ShowsKept sum dek entry
            (ProjectsEnv.fetched env (ProjectsState.calls (Progress.state p'))) p' far
      after_put-ShowsKept sum dek blob entry (err expired) p far = refl
      after_put-ShowsKept sum dek blob entry (err project_not_found) p far =
          as_it_was (Summary.id sum) entry (note_error project_not_found p)
      after_put-ShowsKept sum dek blob entry (err (other_error n)) p far =
          as_it_was (Summary.id sum) entry (note_error (other_error n) p)

      push-ShowsKept :
          (sum : Summary) (dek : Bytes) (v : RemoteProject) (entry : Entry) (p : Progress)
          → IsSecond env Remote sum dek v p
          → ShowsKept env Remote
              (some mine)
              synced
              (Progress.views p)
              (push_project_changes env sum dek mine v entry p)
      unfolding push_project_changes note_error
      push-ShowsKept sum dek v entry p again =
          elim (Result-cases
            (ProjectsEnv.seal env (ProjectsState.calls (Progress.state p)) dek mine)) [
              | inl (e, f) ↦
                  simp (push_project_changes, f) (as_it_was (Summary.id sum) entry (note_error e p))
              | inr (blob, f) ↦
                  let p' =
                    on_state
                      (asked (put_project_vault (Summary.id sum) blob (RemoteProject.version v)))
                      p in
                  simp (push_project_changes, f)
                    (after_put-ShowsKept sum dek blob entry
                      (ProjectsEnv.put_version env (ProjectsState.calls (Progress.state p'))) p'
                      (again blob))
            ]

      settle-some-ShowsKept :
          (sum : Summary) (dek theirs : Bytes) (v : RemoteProject) (entry : Entry) (p : Progress)
          → ProjectSyncState.last_synced_fingerprint (Entry.sync entry) ≡ synced
          → Remote theirs
          → IsSecond env Remote sum dek v p
          → ShowsKept env Remote
              (some mine)
              synced
              (Progress.views p)
              (settle env sum dek (some mine) theirs v entry p)
      unfolding settle agree_on
      settle-some-ShowsKept sum dek theirs v entry p s far again =
          let same =
            str_eq (ProjectsEnv.fingerprint env mine)
              (ProjectSyncState.last_synced_fingerprint (Entry.sync entry)) in
          let still =
            int_eq (RemoteProject.version v)
              (ProjectSyncState.last_synced_version (Entry.sync entry)) in
          elim (Bool-cases same) [
            | inl e ↦
                let e' : str_eq (ProjectsEnv.fingerprint env mine) synced ≡ true = rw (sym s) e in
                rw (settle, e)
                  (keep-ShowsKept env Remote (some mine) synced (Summary.id sum)
                    (agree_on env (RemoteProject.version v) theirs entry) p
                    (inr (inr (theirs, refl, far, inl e'))))
            | inr e ↦ elim (Bool-cases still) [
              | inl f ↦ rw (settle, e, f) (push-ShowsKept sum dek v entry p again)
              | inr f ↦ rw (settle, e, f) (compare-ShowsKept sum theirs v entry p far)
            ]
          ]

    module _ (synced : Str) where
      pub settle-ShowsKept :
          (sum : Summary) (dek : Bytes) (mine : Option Bytes) (theirs : Bytes) (v : RemoteProject)
          (entry : Entry) (p : Progress)
          → ProjectSyncState.last_synced_fingerprint (Entry.sync entry) ≡ synced
          → Remote theirs
          → IsSecond env Remote sum dek v p
          → ShowsKept env Remote mine synced
              (Progress.views p)
              (settle env sum dek mine theirs v entry p)
      unfolding settle agree_on
      settle-ShowsKept sum dek none theirs v entry p s far again =
          keep-ShowsKept env Remote none synced (Summary.id sum)
            (agree_on env (RemoteProject.version v) theirs entry) p (inr (theirs, refl, far))
      settle-ShowsKept sum dek (some mine) theirs v entry p s far again =
          settle-some-ShowsKept mine synced sum dek theirs v entry p s far again
