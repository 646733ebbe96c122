-- ===== src/Projects/Granted.antt =====
-- What FinalizeProjects may hand out, and to whom.
use wharf_tui.Base.{
  ℕ, suc, ◌≤◌, true, ◌≡◌, refl, sym, Option, none, some, List, [], ◌∷◌, if◌then◌else◌, Bool-cases,
  Option-cases, ◌⊎◌, inl, inr, arith,
}
use wharf_tui.Base.Text.{Str, Unicode}
use wharf_tui.Base.Int.{ℤ}
use wharf_tui.Base.Results.{ok, Result-cases}
use wharf_tui.Base.Dict.{Dict, lookup}
use wharf_tui.Sync.{Bytes}
use wharf_tui.Projects.{
  ApiError, PendingKey, ProjectSyncState, ProjectSession, ProjectCall, get_pending_keys,
  submit_member_key, ProjectsState, ProjectsEnv, asked, open_session,
}
use wharf_tui.Projects.Finalize.{
  Granting, may_grant, submit_key, grant_one, grant_each, grant_pending, grant_project,
  grant_projects, finalize_projects,
}

List-cases : (xs : Bytes) → (xs ≡ []) ⊎ ((b : ℕ) × ((bs : Bytes) × (xs ≡ b ∷ bs)))
List-cases [] = inl refl
List-cases (b ∷ bs) = inr (b, (bs, refl))

-- One of the members of an answer.
pub data IsAmong (pk : PendingKey) : List PendingKey → Type 0 where
  first : (pks : List PendingKey) → IsAmong pk (pk ∷ pks)
  next : (other : PendingKey) (pks : List PendingKey) → IsAmong pk pks → IsAmong pk (other ∷ pks)

-- An entry of a map.
pub data IsEntry (id : Str) (st : ProjectSyncState) : Dict ProjectSyncState → Type 0 where
  here : (ps : Dict ProjectSyncState) → IsEntry id st ((id, st) ∷ ps)
  later :
      (e : Str × ProjectSyncState) (ps : Dict ProjectSyncState)
      → IsEntry id st ps
      → IsEntry id st (e ∷ ps)

module _ (u : Unicode) (env : ProjectsEnv) (s0 : ProjectsState) where
  -- The backend has listed the member as pending in the project, in its answer to the last question
  -- among the calls: what follows that question only sends keys.
  pub data IsAnswered (id : Str) (pk : PendingKey) : List ProjectCall → Type 0 where
    answered :
        (cs : List ProjectCall) (pks : List PendingKey)
        → ProjectsEnv.pending_keys env (get_pending_keys id ∷ cs) ≡ ok pks
        → IsAmong pk pks
        → IsAnswered id pk (get_pending_keys id ∷ cs)
    since :
        (cs : List ProjectCall) (project user : Str) (wrapped : Bytes) (version : ℤ)
        → IsAnswered id pk cs
        → IsAnswered id pk (submit_member_key project user wrapped version ∷ cs)

  -- The calls of a pass from `s0`, with the number of keys that it sends: it asks for pending keys,
  -- and sends a member whom the backend listed as pending in a project the DEK of that project,
  -- wrapped under the public key that the backend listed for that member, which is not empty. The
  -- project is one of the account in which it may grant keys, and the version is that of the last
  -- sync.
  pub data IsGranting (ps : Dict ProjectSyncState) : ℕ → List ProjectCall → Type 0 where
    start : IsGranting ps 0 (ProjectsState.calls s0)
    ask :
        (n : ℕ) (cs : List ProjectCall) (id : Str)
        → IsGranting ps n cs
        → IsGranting ps n (get_pending_keys id ∷ cs)
    send :
        (n : ℕ) (cs : List ProjectCall) (id : Str) (st : ProjectSyncState) (dek wrapped : Bytes)
        (pk : PendingKey) (b : ℕ) (bs : Bytes)
        → IsEntry id st ps
        → may_grant u env st ≡ true
        → lookup id (ProjectsState.deks s0) ≡ some dek
        → IsAnswered id pk cs
        → PendingKey.public_key pk ≡ b ∷ bs
        → ProjectsEnv.wrap env cs dek (b ∷ bs) ≡ ok wrapped
        → IsGranting ps n cs
        → IsGranting ps (suc n) (
            submit_member_key id
              (PendingKey.user_id pk)
              wrapped
              (ProjectSyncState.last_synced_version st)
            ∷ cs)

  -- The calls so far, of which at least as many sent a key as were counted; the DEKs are untouched.
  abbrev pub IsWithin : Dict ProjectSyncState → Granting → Type 0
  IsWithin ps (granted, s) =
      (n : ℕ) × IsGranting ps n (ProjectsState.calls s)
      × (granted ≤ n)
      × (ProjectsState.deks s ≡ ProjectsState.deks s0)

  module _ (ps : Dict ProjectSyncState) (id : Str) (st : ProjectSyncState)
      (entry : IsEntry id st ps) (may : may_grant u env st ≡ true) where
    counted :
        (o : Option ApiError) (granted n : ℕ)
        → granted ≤ n
        → elim o as (λ _. ℕ) [ none ↦ suc granted | some e ↦ granted ] ≤ suc n
    counted none granted n l = omega arith
    counted (some e) granted n l = omega arith

    grant_one-IsWithin :
        (dek : Bytes) (pk : PendingKey) (g : Granting)
        → lookup id (ProjectsState.deks s0) ≡ some dek
        → IsAnswered id pk (ProjectsState.calls g.1)
        → IsWithin ps g
        → IsWithin ps (grant_one u env id st dek pk g)
    unfolding grant_one submit_key
    grant_one-IsWithin dek pk (granted, s) d ans (n, calls, l, same) =
        elim (List-cases (PendingKey.public_key pk)) [
          | inl e ↦ simp (grant_one, e) (n, calls, l, same)
          | inr (b, (bs, e)) ↦
              elim (Result-cases (ProjectsEnv.wrap env (ProjectsState.calls s) dek (b ∷ bs))) [
                | inl (why, f) ↦ simp (grant_one, e, f) (n, calls, l, same)
                | inr (wrapped, f) ↦
                    simp (grant_one, e, f)
                      (
                        suc n,
                        send n (ProjectsState.calls s) id st dek wrapped pk b bs entry may d ans e f
                            calls,
                        counted
                            (ProjectsEnv.submitted env (
                              submit_member_key id (PendingKey.user_id pk) wrapped
                                (ProjectSyncState.last_synced_version st)
                              ∷ ProjectsState.calls s))
                            granted n l,
                        same,
                      )
              ]
        ]

    -- What was answered stays so while keys are sent.
    grant_one-IsAnswered :
        (dek : Bytes) (pk q : PendingKey) (g : Granting)
        → IsAnswered id q (ProjectsState.calls g.1)
        → IsAnswered id q (ProjectsState.calls ((grant_one u env id st dek pk g).1))
    unfolding grant_one submit_key
    grant_one-IsAnswered dek pk q (granted, s) ans = elim (List-cases (PendingKey.public_key pk)) [
      | inl e ↦ simp (grant_one, e) ans
      | inr (b, (bs, e)) ↦
          elim (Result-cases (ProjectsEnv.wrap env (ProjectsState.calls s) dek (b ∷ bs))) [
            | inl (why, f) ↦ simp (grant_one, e, f) ans
            | inr (wrapped, f) ↦
                simp (grant_one, e, f)
                  (since (ProjectsState.calls s) id (PendingKey.user_id pk) wrapped
                    (ProjectSyncState.last_synced_version st) ans)
          ]
    ]

    grant_each-IsWithin :
        (dek : Bytes) (pks : List PendingKey) (g : Granting)
        → lookup id (ProjectsState.deks s0) ≡ some dek
        → ((pk : PendingKey) → IsAmong pk pks → IsAnswered id pk (ProjectsState.calls g.1))
        → IsWithin ps g
        → IsWithin ps (grant_each u env id st dek pks g)
    unfolding grant_each
    grant_each-IsWithin dek [] g d ans w = w
    grant_each-IsWithin dek (pk ∷ pks) g d ans w =
        grant_each-IsWithin dek pks (grant_one u env id st dek pk g) d
          (λ q m. grant_one-IsAnswered dek pk q g (ans q (next pk pks m)))
          (grant_one-IsWithin dek pk g d (ans pk (first pks)) w)

    grant_pending-IsWithin :
        (dek : Bytes) (g : Granting)
        → lookup id (ProjectsState.deks s0) ≡ some dek
        → IsWithin ps g
        → IsWithin ps (grant_pending u env id st dek g)
    unfolding grant_pending
    grant_pending-IsWithin dek (granted, s) d (n, calls, l, same) =
        let s' = asked (get_pending_keys id) s in
        let w' : IsWithin ps (granted, s') = (n, ask n (ProjectsState.calls s) id calls, l, same) in
        elim (Result-cases (ProjectsEnv.pending_keys env (ProjectsState.calls s'))) [
          | inl (e, f) ↦ simp (grant_pending, f) w'
          | inr (pks, f) ↦
              simp (grant_pending, f)
                (grant_each-IsWithin dek pks (granted, s') d
                  (λ q m. answered (ProjectsState.calls s) pks f m) w')
        ]

  grant_project-IsWithin :
      (ps : Dict ProjectSyncState) (id : Str) (st : ProjectSyncState) (g : Granting)
      → IsEntry id st ps
      → IsWithin ps g
      → IsWithin ps (grant_project u env id st g)
  unfolding grant_project
  grant_project-IsWithin ps id st (granted, s) entry w = elim (Bool-cases (may_grant u env st)) [
    | inr e ↦ simp (grant_project, e) w
    | inl e ↦ elim (Option-cases (lookup id (ProjectsState.deks s))) [
      | inl f ↦ simp (grant_project, e, f) w
      | inr (dek, f) ↦
          let (n, calls, l, same) = w in
          simp (grant_project, e, f)
            (grant_pending-IsWithin ps id st entry e dek (granted, s) (rw (sym same) f) w)
    ]
  ]

  grant_projects-IsWithin :
      (ps qs : Dict ProjectSyncState) (g : Granting)
      → ((id : Str) (st : ProjectSyncState) → IsEntry id st qs → IsEntry id st ps)
      → IsWithin ps g
      → IsWithin ps (grant_projects u env qs g)
  unfolding grant_projects
  grant_projects-IsWithin ps [] g sub w = w
  grant_projects-IsWithin ps ((id, st) ∷ qs) g sub w =
      grant_projects-IsWithin ps qs (grant_project u env id st g)
        (λ i t e. sub i t (later (id, st) qs e))
        (grant_project-IsWithin ps id st g (sub id st (here qs)) w)

  -- The projects of the session, and none while the published key is in doubt.
  abbrev pub grantable : Dict ProjectSyncState
  grantable =
      if ProjectsState.identity_mismatch s0
      then []
      else elim (open_session s0) [ none ↦ [] | some sess ↦ ProjectSession.projects sess ]

  nothing : (ps : Dict ProjectSyncState) → IsWithin ps (0, s0)
  nothing ps = (0, start, omega arith, refl)

  -- FinalizeProjects counts no more keys than it sends, and every key that it sends is the DEK of a
  -- project of the session in which the account's role may grant keys, to a member whom the backend
  -- listed as pending in that project, wrapped under the public key that it listed for the member;
  -- while the published key of the account is in doubt it sends none.
  pub finalize_projects-IsWithin : IsWithin grantable (finalize_projects u env s0)
  unfolding finalize_projects
  finalize_projects-IsWithin = elim (Option-cases (open_session s0)) [
    | inl e ↦ simp (finalize_projects, e) (nothing _)
    | inr (sess, e) ↦ elim (Bool-cases (ProjectsEnv.has_crypto env)) [
      | inr f ↦ simp (finalize_projects, e, f) (nothing _)
      | inl f ↦ elim (Option-cases (ProjectsState.identity s0)) [
        | inl g ↦ simp (finalize_projects, e, f, g) (nothing _)
        | inr (keys, g) ↦ elim (Bool-cases (ProjectsState.identity_mismatch s0)) [
          | inl h ↦ simp (finalize_projects, e, f, g, h) (nothing _)
          | inr h ↦
              simp (finalize_projects, e, f, g, h)
                (grant_projects-IsWithin (ProjectSession.projects sess)
                  (ProjectSession.projects sess) (0, s0) (λ id st i. i)
                  (nothing (ProjectSession.projects sess)))
        ]
      ]
    ]
  ]
