-- ===== src/Projects/Finalize.antt =====
-- internal/sync/projects.go: FinalizeProjects, which hands the keys of projects to pending members.
use wharf_tui.Base.{ℕ, suc, Bool, not, ◌||◌, none, some, List, [], ◌∷◌, if◌then◌else◌}
use wharf_tui.Base.Text.{Str, Unicode, codes, str_eq, to_upper}
use wharf_tui.Base.Results.{ok, err}
use wharf_tui.Base.Dict.{Dict, lookup}
use wharf_tui.Sync.{Bytes}
use wharf_tui.Projects.{
  PendingKey, ProjectSyncState, ProjectSession, get_pending_keys, submit_member_key, ProjectsState,
  ProjectsEnv, asked, open_session,
}

-- The number of keys granted, and the engine after it.
abbrev pub Granting : Type 0
Granting = ℕ × ProjectsState

module _ (u : Unicode) (env : ProjectsEnv) where
  -- The test on the role.
  unfoldable pub may_grant : ProjectSyncState → Bool
  may_grant st =
      let role = to_upper u (ProjectSyncState.role st) in
      str_eq role (codes "ADMIN") || str_eq role (codes "OWNER")

  -- SubmitMemberKey, and the count.
  unfoldable pub submit_key : Str → ProjectSyncState → PendingKey → Bytes → Granting → Granting
  submit_key id st pk wrapped (granted, s) =
      let s' =
        asked
          (submit_member_key id (PendingKey.user_id pk) wrapped
            (ProjectSyncState.last_synced_version st))
          s in
      (
        elim (ProjectsEnv.submitted env (ProjectsState.calls s')) [
          | none ↦ suc granted
          | some e ↦ granted
        ],
        s',
      )

  -- The body of the inner loop.
  unfoldable pub grant_one : Str → ProjectSyncState → Bytes → PendingKey → Granting → Granting
  grant_one id st dek pk (granted, s) = elim (PendingKey.public_key pk) [
    | [] ↦ (granted, s)
    | b ∷ bs ↦ elim (ProjectsEnv.wrap env (ProjectsState.calls s) dek (b ∷ bs)) [
      | err e ↦ (granted, s)
      | ok wrapped ↦ submit_key id st pk wrapped (granted, s)
    ]
  ]

  -- The inner loop.
  unfoldable pub grant_each : Str → ProjectSyncState → Bytes → List PendingKey → Granting → Granting
  grant_each id st dek [] g = g
  grant_each id st dek (pk ∷ pks) g = grant_each id st dek pks (grant_one id st dek pk g)

  unfoldable pub grant_pending : Str → ProjectSyncState → Bytes → Granting → Granting
  grant_pending id st dek (granted, s) =
      let s' = asked (get_pending_keys id) s in
      elim (ProjectsEnv.pending_keys env (ProjectsState.calls s')) [
        | err e ↦ (granted, s')
        | ok pks ↦ grant_each id st dek pks (granted, s')
      ]

  -- The body of the outer loop.
  unfoldable pub grant_project : Str → ProjectSyncState → Granting → Granting
  grant_project id st (granted, s) =
      if not (may_grant st) then (granted, s) else elim (lookup id (ProjectsState.deks s)) [
        | none ↦ (granted, s)
        | some dek ↦ grant_pending id st dek (granted, s)
      ]

  -- The outer loop.
  unfoldable pub grant_projects : Dict ProjectSyncState → Granting → Granting
  grant_projects [] g = g
  grant_projects ((id, st) ∷ ps) g = grant_projects ps (grant_project id st g)

  -- FinalizeProjects
  unfoldable pub finalize_projects : ProjectsState → Granting
  finalize_projects s = elim (open_session s) [
    | none ↦ (0, s)
    | some sess ↦
        if not (ProjectsEnv.has_crypto env) then (0, s) else elim (ProjectsState.identity s) [
          | none ↦ (0, s)
          | some keys ↦
              if ProjectsState.identity_mismatch s
              then (0, s)
              else grant_projects (ProjectSession.projects sess) (0, s)
        ]
  ]
