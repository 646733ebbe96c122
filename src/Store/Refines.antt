-- ===== src/Store/Refines.antt =====
-- The hosts of a store against a map from IDs to hosts, over any sequence of edits.
use wharf_tui.Base.{
  false, ◌≡◌, refl, ◌∙◌, ◌≢◌, Option, none, some, List, [], ◌∷◌, if◌then◌else◌, ap, inl, inr,
}
use wharf_tui.Base.Text.{Str, str_eq, Unicode}
use wharf_tui.Base.Find.{taken}
use wharf_tui.Base.Results.{ok, err, Result-cases}
use wharf_tui.Store.{Host, normalize_auth_method}
use wharf_tui.Store.Edit.{add_host_to, update_host_in, delete_host_in}
use wharf_tui.Store.Hosts.{IsWellFormed, new_host_id, add_host_to-IsWellFormed, add_host_to-ok}
use wharf_tui.Store.Update.{
  update_host_in-IsWellFormed, delete_host_in-IsWellFormed, host_by_id-update_host_in,
  host_by_id-delete_host_in, host_by_id-add_host_to, host_by_id,
}

-- An edit of the hosts; an addition comes with the ID that newID returns.
pub data HostEdit : Type 0 where
  add : Str → Host → HostEdit
  update : Host → HostEdit
  delete : Str → HostEdit

-- What an edit did to the map.
pub data Change : Type 0 where
  refused : Change
  put : Host → Change
  drop : Str → Change

abbrev pub HostMap : Type 0
HostMap = Str → Option Host

abbrev pub apply : Change → HostMap → HostMap
apply refused m = m
apply (put h) m = λ id. if str_eq (Host.id h) id then some h else m id
apply (drop id) m = λ j. if str_eq id j then none else m j

abbrev pub replay : List Change → HostMap → HostMap
replay [] m = m
replay (x ∷ xs) m = replay xs (apply x m)

module _ (u : Unicode) where
  -- The host as updateHostIn stores it.
  unfoldable pub normalised : Host → Host
  normalised h = elim (normalize_auth_method (Host.auth_method h)) [
    | ok am ↦ record h { auth_method = am }
    | err e ↦ h
  ]

  -- One edit: an error leaves the hosts as they were.
  unfoldable pub edit : HostEdit → List Host → List Host × Change
  edit (add fresh h) hosts = elim (add_host_to u fresh hosts h) [
    | err e ↦ (hosts, refused)
    | ok (hosts', stored) ↦ (hosts', put stored)
  ]
  edit (update h) hosts = elim (update_host_in u hosts h) [
    | err e ↦ (hosts, refused)
    | ok hosts' ↦ (hosts', put (normalised h))
  ]
  edit (delete id) hosts = elim (delete_host_in hosts id) [
    | err e ↦ (hosts, refused)
    | ok hosts' ↦ (hosts', drop id)
  ]

  unfoldable pub edit_all : List HostEdit → List Host → List Host × List Change
  edit_all [] hosts = (hosts, [])
  edit_all (x ∷ xs) hosts =
      let (hosts', c) = edit x hosts in let (hosts'', cs) = edit_all xs hosts' in (hosts'', c ∷ cs)

  -- newID returns an ID that is not empty, and an addition brings one that no host has.
  abbrev pub IsNewId : HostEdit → List Host → Type 0
  IsNewId (add fresh h) hosts = (fresh ≢ []) × (taken Host.id (new_host_id u fresh h) hosts ≡ false)
  IsNewId (update h) hosts = Unit
  IsNewId (delete id) hosts = Unit

  abbrev pub AreNewIds : List HostEdit → List Host → Type 0
  AreNewIds [] hosts = Unit
  AreNewIds (x ∷ xs) hosts = IsNewId x hosts × AreNewIds xs (edit x hosts).0

  -- The hosts after an edit, and the map that they stand for.
  abbrev IsEdited : List Host → List Host × Change → Type 0
  IsEdited hosts (hosts', c) =
      IsWellFormed u hosts' × ((id : Str) → host_by_id hosts' id ≡ apply c (host_by_id hosts) id)

  added :
      (fresh : Str) (h : Host) (hosts hosts' : List Host) (stored : Host) (id : Str)
      → taken Host.id (new_host_id u fresh h) hosts ≡ false
      → add_host_to u fresh hosts h ≡ ok (hosts', stored)
      → host_by_id hosts' id ≡ apply (put stored) (host_by_id hosts) id
  added fresh h hosts hosts' stored id t f =
      let (am, p, q, a, free) = add_host_to-ok u fresh hosts h f in
      let same : Host.id stored ≡ new_host_id u fresh h = ap (λ out. Host.id (out.1)) q in
      simp same (host_by_id-add_host_to u fresh hosts h id t f)

  updated :
      (h : Host) (hosts hosts' : List Host) (id : Str)
      → update_host_in u hosts h ≡ ok hosts'
      → host_by_id hosts' id ≡ apply (put (normalised h)) (host_by_id hosts) id
  unfolding normalised
  updated h hosts hosts' id f =
      let (am, p, e) = host_by_id-update_host_in u hosts h id f in
      let same : normalised h ≡ record h { auth_method = am } = rw (normalised, p) refl in rw same e

  edit-IsEdited :
      (x : HostEdit) (hosts : List Host)
      → IsWellFormed u hosts
      → IsNewId x hosts
      → IsEdited hosts (edit x hosts)
  unfolding edit normalised
  edit-IsEdited (add fresh h) hosts w (n, t) = elim (Result-cases (add_host_to u fresh hosts h)) [
    | inl (e, f) ↦ simp (edit, f) (w, λ id. refl)
    | inr ((hosts', stored), f) ↦
        simp (edit, f)
          (
            add_host_to-IsWellFormed u fresh hosts h w n t f,
            λ id. added fresh h hosts hosts' stored id t f,
          )
  ]
  edit-IsEdited (update h) hosts w n = elim (Result-cases (update_host_in u hosts h)) [
    | inl (e, f) ↦ simp (edit, f) (w, λ id. refl)
    | inr (hosts', f) ↦
        simp (edit, f)
          (update_host_in-IsWellFormed u hosts h w f, λ id. updated h hosts hosts' id f)
  ]
  edit-IsEdited (delete id) hosts w n = elim (Result-cases (delete_host_in hosts id)) [
    | inl (e, f) ↦ simp (edit, f) (w, λ id. refl)
    | inr (hosts', f) ↦
        simp (edit, f)
          (
            delete_host_in-IsWellFormed u hosts id w f,
            λ j. host_by_id-delete_host_in u hosts id j w f,
          )
  ]

  replay_ext :
      (cs : List Change) (m n : HostMap)
      → ((id : Str) → m id ≡ n id)
      → (id : Str) → replay cs m id ≡ replay cs n id
  replay_ext [] m n e id = e id
  replay_ext (refused ∷ cs) m n e id = replay_ext cs m n e id
  replay_ext (put h ∷ cs) m n e id =
      replay_ext cs (apply (put h) m) (apply (put h) n) (λ j. rw (e j) refl) id
  replay_ext (drop k ∷ cs) m n e id =
      replay_ext cs (apply (drop k) m) (apply (drop k) n) (λ j. rw (e j) refl) id

  -- From a well-formed list, any edits with new IDs for their additions lead to a well-formed list,
  -- and HostByID finds in it what the changes that the edits report make of a map from IDs to hosts.
  pub edit_all-replay :
      (xs : List HostEdit) (hosts : List Host)
      → IsWellFormed u hosts
      → AreNewIds xs hosts
      → let (hosts', changes) = edit_all xs hosts in
        IsWellFormed u hosts'
        × ((id : Str) → host_by_id hosts' id ≡ replay changes (host_by_id hosts) id)
  unfolding edit_all
  edit_all-replay [] hosts w n = (w, λ id. refl)
  edit_all-replay (x ∷ xs) hosts w (n, ns) =
      let (w', e) = edit-IsEdited x hosts w n in
      let step = edit x hosts in
      let rest = edit_all xs step.0 in
      let (w'', e') = edit_all-replay xs step.0 w' ns in
      (
        w'',
        λ id. e' id ∙ replay_ext rest.1 (host_by_id step.0) (apply step.1 (host_by_id hosts)) e id,
      )
