-- ===== src/Projects/Tests.antt =====
-- A backend of two projects, and the theorems applied to it.
use wharf_tui.Base.{true, false, ◌≡◌, refl, Option, none, some, [], ◌∷◌, ◌++◌}
use wharf_tui.Base.Int.{pos}
use wharf_tui.Base.Text.{Str, codes, ascii, str_eq}
use wharf_tui.Base.Results.{ok, err}
use wharf_tui.Base.Dict.{lookup, insert, erase}
use wharf_tui.Base.Find.{any}
use wharf_tui.Sync.{Bytes}
use wharf_tui.Projects.{
  Summary, ProjectSyncState, ProjectSession, ProjectsState, ProjectsEnv, ProjectsResult,
  conflict_409, sync_state, set_sync_state, drop_project_locked, save_projects, persist_token,
  open_session, write_blob_cache,
}
use wharf_tui.Projects.Pass.{
  sync_projects, sync_projects_locked, with_list, sync_each, sync_project, after_fetch, with_key,
  settle, compare_payloads, queue_conflict, keep_entry, start_entry, drop_vanished, remove_project,
  finish_pass, starting,
}
use wharf_tui.Projects.Finalize.{finalize_projects}
use wharf_tui.Projects.Kept.{IsRemote, sync_project-ShowsKept}
use wharf_tui.Projects.Change.{push_project, resolve_project}
use wharf_tui.Projects.Recorded.{IsSettled, push_resolve-IsSettled}
use wharf_tui.Projects.Views.{ShowsKept}
use wharf_tui.Projects.Granted.{IsWithin, finalize_projects-IsWithin}

abbrev ops : Str
ops = codes "ops"

abbrev summary : Summary
summary = record {
  id = ops;
  name = codes "Ops";
  description = [];
  role = codes "admin";
  member_count = pos 2;
  pending_invite_count = pos 0;
  vault_version = pos 4;
  awaiting_key = false;
}

-- A DEK of one byte, which is put in front of what is sealed; somebody else's payload is 9.
abbrev env : ProjectsEnv
env = record {
  has_crypto = true;
  current_token = λ cs. [];
  listed = λ cs. ok (summary ∷ []);
  fetched = λ cs.
      ok (record {
        blob = 5 ∷ 9 ∷ [];
        wrapped_dek = some (5 ∷ []);
        version = pos 4;
        updated_at = 0;
      });
  put_version = λ cs. ok (pos 5);
  created = λ cs. err conflict_409;
  rotated_version = λ cs. ok (pos 5);
  pending_keys = λ cs. ok (
      record { user_id = codes "eve"; public_key = [] }
      ∷ record { user_id = codes "ann"; public_key = 1 ∷ [] }
      ∷ []);
  submitted = λ cs. none;
  new_dek = λ cs. ok (6 ∷ []);
  seal = λ cs dek payload. ok (dek ++ payload);
  unseal = λ dek blob. elim blob [ [] ↦ none | b ∷ payload ↦ some payload ];
  wrap = λ cs dek key. ok dek;
  unwrap = λ wrapped public private. some wrapped;
  encode_base64 = λ b. b;
  decode_base64 = λ s. some s;
  fingerprint = λ b. b;
  count_hosts = λ b. 1;
  can_write = λ cs. true;
  can_remove = λ cs. true;
}

abbrev at_version_3 : ProjectSyncState
at_version_3 = record {
  name = codes "Ops";
  role = codes "admin";
  last_synced_version = pos 3;
  last_synced_fingerprint = 7 ∷ [];
  wrapped_dek = [];
}

abbrev session : ProjectSession
session = record {
  refresh_token = [];
  user_id = codes "me";
  projects = (ops, at_version_3) ∷ (codes "old", at_version_3) ∷ [];
}

abbrev engine : ProjectsState
engine = record {
  sess = some session;
  closed = false;
  pending_vault = false;
  deks = (ops, 5 ∷ []) ∷ [];
  pending = [];
  identity = some (record { public_key = 1 ∷ []; private_key = 2 ∷ [] });
  identity_mismatch = false;
  cache = [];
  calls = [];
}

-- The interface has edited the project.
abbrev edits : Str → Option Bytes
edits id = some (8 ∷ [])

-- The project that is gone is dropped, and both edits of the other are a conflict.
sync_projects_conflict :
    let (res, s) = sync_projects env edits engine in
    (ProjectsResult.removed res ≡ codes "old" ∷ [])
    × (lookup ops (ProjectsState.pending s) ≡ some (record { payload = 9 ∷ []; version = pos 4 }))
unfolding sync_projects sync_projects_locked with_list sync_each sync_project after_fetch with_key
    settle compare_payloads queue_conflict keep_entry start_entry sync_state set_sync_state
    drop_vanished remove_project drop_project_locked finish_pass save_projects persist_token
    open_session write_blob_cache insert erase lookup any str_eq
sync_projects_conflict = (refl, refl)

sync_project-ShowsKept_example :
    ShowsKept env
      (IsRemote env (record { public_key = 1 ∷ []; private_key = 2 ∷ [] }) ops [])
      (some (8 ∷ []))
      (7 ∷ [])
      []
      (sync_project env edits
        (record { public_key = 1 ∷ []; private_key = 2 ∷ [] })
        session
        summary
        (starting env engine))
unfolding sync_state lookup str_eq
sync_project-ShowsKept_example =
    sync_project-ShowsKept env edits (record { public_key = 1 ∷ []; private_key = 2 ∷ [] }) session
      summary (starting env engine)

-- One key is sent: the other member has published none.
finalize_projects-IsWithin_example :
    IsWithin ascii env engine
      ((ops, at_version_3) ∷ (codes "old", at_version_3) ∷ [])
      (finalize_projects ascii env engine)
unfolding open_session
finalize_projects-IsWithin_example = finalize_projects-IsWithin ascii env engine

abbrev undecided : ProjectsState
undecided = record engine { pending = (ops, record { payload = 9 ∷ []; version = pos 4 }) ∷ [] }

-- The upload is taken as version 5, from the edit and from the decision for the local side alike.
push_resolve-IsSettled_example :
    IsSettled env ops undecided (push_project env ops (8 ∷ []) undecided)
    × IsSettled env ops undecided (resolve_project env ops true (8 ∷ []) undecided)
unfolding open_session
push_resolve-IsSettled_example = push_resolve-IsSettled env ops true (8 ∷ []) undecided
