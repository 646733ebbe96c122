-- ===== src/Sync/Tests.antt =====
-- Runs of the engine against a backend that holds one vault, and the theorems applied to them.
use wharf_tui.Base.{ℕ, true, false, ◌≤◌, ◌≡◌, refl, none, some, List, [], ◌∷◌}
use wharf_tui.Base.Int.{pos}
use wharf_tui.Base.Results.{Result, ok}
use wharf_tui.Sync.{Bytes, SyncSession, Remote, Failure, nothing_done, Call, put_vault, Env, State}
use wharf_tui.Sync.Engine.{
  sync, commit_adopt, active, sync_active, sync_locked, sync_pass, after_get, push_locked,
  after_blob, after_put, commit, after_commit, persist_rotation, rotate,
}
use wharf_tui.Sync.Guard.{Grew, sync-Grew}
use wharf_tui.Sync.Session.{IsSound, sync-IsSound}
use wharf_tui.Sync.Agree.{sync_after_push, sync_after_adopt, sync_after_attach}
use wharf_tui.Sync.Lifecycle.{Account, attach}
use wharf_tui.Base.Text.{str_eq}

abbrev vault : ℕ → Remote
vault n = record { blob = 9 ∷ []; version = pos n; updated_at = 0 }

-- The vault stands at version 3; the first upload makes it 4.
abbrev answer : List Call → Result Failure Remote
answer [] = ok (vault 3)
answer (put_vault b v ∷ cs) = ok (vault 4)
answer (_ ∷ cs) = answer cs

-- One host in every payload but the empty one; the password opens any blob to a payload of two.
abbrev env : Env
env = record {
  get_answer = answer;
  put_answer = λ cs. ok (pos 4);
  blob_answer = λ cs. ok (7 ∷ []);
  save_answer = λ cs. none;
  current_token = λ cs. [];
  open_blob = λ b p. ok (2 ∷ 2 ∷ []);
  fingerprint = λ b. b;
  parsed_hosts = λ b. some 1;
}

abbrev session : SyncSession
session = record {
  refresh_token = [];
  email = [];
  user_id = [];
  last_version = pos 3;
  last_fingerprint = 1 ∷ [];
}

abbrev paired : State
paired = record { sess = some session; pending = none; closed = false; password = []; calls = [] }

abbrev edited : Bytes
edited = 5 ∷ []

-- A local edit is pushed.
push_edited : (sync env edited paired).0 ≡ record nothing_done { pushed = true; version = pos 4 }
unfolding sync active sync_active sync_locked sync_pass after_get push_locked after_blob after_put
    commit after_commit persist_rotation rotate str_eq
push_edited = refl

sync-Grew_example :
    (n : ℕ) × (n ≤ 2) × Grew env session [] [] n (State.calls (sync env edited paired).1)
sync-Grew_example = sync-Grew env edited paired session refl refl

sync-IsSound_example : IsSound session edited (sync env edited paired)
sync-IsSound_example = sync-IsSound env edited paired session refl refl

sync_after_push_example :
    (sync env edited (sync env edited paired).1).0 ≡ record nothing_done { version = pos 4 }
unfolding sync active sync_active sync_locked sync_pass after_get push_locked after_blob after_put
    commit after_commit persist_rotation rotate str_eq
sync_after_push_example =
    sync_after_push env edited paired session (vault 4) refl refl refl refl refl refl

sync_after_adopt_example :
    (sync env edited (commit_adopt env (pos 3) edited paired).1).0
    ≡ record nothing_done { version = pos 3 }
unfolding commit_adopt commit
sync_after_adopt_example = sync_after_adopt env edited paired session (vault 3) refl refl refl

abbrev fresh : State
fresh = record { sess = none; pending = none; closed = false; password = []; calls = [] }

abbrev account : Account
account = record { refresh_token = 1 ∷ []; email = 2 ∷ []; user_id = 3 ∷ [] }

attach_agrees_run :
    (sync env edited (attach env account (pos 3) edited fresh).1).0
    ≡ record nothing_done { version = pos 3 }
unfolding attach commit
attach_agrees_run = sync_after_attach env account edited fresh (vault 3) refl refl
