-- ===== src/Store/Update.antt =====
-- updateHostIn and deleteHostIn on a well-formed list, and HostByID after each edit.
use wharf_tui.Base.{
  ℕ, false, ◌≡◌, refl, sym, inl, inr, Option, none, some, List, [], if◌then◌else◌, arith,
  Bool-cases, Option-cases, set,
}
use wharf_tui.Base.Text.{Str, str_eq, str_eq_refl, str_eq→eq, str_eq_iff, Unicode}
use wharf_tui.Base.Find.{
  remove_at, taken, IsDistinct-set, IsDistinct-remove_at, taken-remove_at, taken-set,
}
use wharf_tui.Base.Keyed.{
  at_index, find, find-eq-at_index, find-none, taken-of_index_some, taken-remove_at_index,
  find-remove_at, find-set, find-snoc,
}
use wharf_tui.Base.Results.{ok, >>=-eq-ok, ok-injective}
use wharf_tui.Store.{Host, normalize_auth_method, index_by_id, name_clash, validate_host}
use wharf_tui.Store.Edit.{add_host_to, replace_at, update_host_in, delete_host_in}
use wharf_tui.Store.Hosts.{
  IsWellFormed, name_key, taken-of_name_clash, IsAcceptable, validate_host-ok, stored_host,
  new_host_id, add_host_to-ok,
}

-- HostByID
unfoldable pub host_by_id : List Host → Str → Option Host
unfolding index_by_id
host_by_id hosts id = at_index Host.id hosts (index_by_id hosts id)

host_by_id-eq-find : (hosts : List Host) (id : Str) → host_by_id hosts id ≡ find Host.id hosts id
unfolding host_by_id
host_by_id-eq-find hosts id = sym (find-eq-at_index Host.id hosts id)

module _ (u : Unicode) where
  pub update_host_in-ok :
      (hosts : List Host) (h : Host) {out : List Host}
      → update_host_in u hosts h ≡ ok out
      → (i : ℕ) × (am : Str) × (index_by_id hosts (Host.id h) ≡ some i)
        × (normalize_auth_method (Host.auth_method h) ≡ ok am)
        × (out ≡ set hosts i (record h { auth_method = am }))
        × IsAcceptable u (record h { auth_method = am })
        × (name_clash u hosts (name_key u h) (Host.id h) ≡ false)
  unfolding update_host_in
  update_host_in-ok hosts h {out} e = elim (Option-cases (index_by_id hosts (Host.id h))) [
    | inl p ↦ absurd (ground arith)
    | inr (i, p) ↦
        let e' : replace_at u hosts h i ≡ ok out = ground arith in
        let (am, q, e'') = >>=-eq-ok (normalize_auth_method (Host.auth_method h)) _ e' in
        let h' : Host = record h { auth_method = am } in
        let (t, v, r) = >>=-eq-ok (validate_host u hosts h' (Host.id h)) _ e'' in
        let (a, free) = validate_host-ok u hosts h' (Host.id h) v in
        (i, am, p, q, sym (ok-injective r), a, free)
  ]

  -- An update keeps the list well formed.
  pub update_host_in-IsWellFormed :
      (hosts : List Host) (h : Host) {out : List Host}
      → IsWellFormed u hosts
      → update_host_in u hosts h ≡ ok out
      → IsWellFormed u out
  unfolding index_by_id
  update_host_in-IsWellFormed hosts h w e =
      let (i, am, p, q, r, a, free) = update_host_in-ok hosts h e in
      let h' : Host = record h { auth_method = am } in
      rw r (record {
        names =
            IsDistinct-set (name_key u) i hosts h'
              (taken-of_name_clash u hosts (name_key u h) (Host.id h) i w.ids p free) w.names;
        ids =
            IsDistinct-set Host.id i hosts h'
              (taken-remove_at_index Host.id hosts (Host.id h) i w.ids p) w.ids;
        identified =
            taken-set Host.id [] i hosts h' (taken-remove_at Host.id [] i hosts w.identified) (
              ground (
                arith,
                str_eq_iff (Host.id h) [],
                w.identified,
                taken-of_index_some Host.id hosts (Host.id h) i p,
              ));
      })

  -- A deletion keeps the list well formed.
  pub delete_host_in-IsWellFormed :
      (hosts : List Host) (id : Str) {out : List Host}
      → IsWellFormed u hosts
      → delete_host_in hosts id ≡ ok out
      → IsWellFormed u out
  unfolding delete_host_in
  delete_host_in-IsWellFormed hosts id {out} w e = elim (Option-cases (index_by_id hosts id)) [
    | inl p ↦ absurd (ground arith)
    | inr (i, p) ↦
        let r : out ≡ remove_at i hosts = ground arith in
        rw r (record {
          names = IsDistinct-remove_at (name_key u) i hosts w.names;
          ids = IsDistinct-remove_at Host.id i hosts w.ids;
          identified = taken-remove_at Host.id [] i hosts w.identified;
        })
  ]

-- HostByID after an update: the updated host under its ID, with the auth method normalised, and
-- every other host as it was.
pub host_by_id-update_host_in :
    (u : Unicode) (hosts : List Host) (h : Host) (id : Str) {out : List Host}
    → update_host_in u hosts h ≡ ok out
    → (am : Str) × (normalize_auth_method (Host.auth_method h) ≡ ok am)
      × (host_by_id out id ≡ (
          if str_eq (Host.id h) id
          then some (record h { auth_method = am })
          else host_by_id hosts id))
unfolding index_by_id
host_by_id-update_host_in u hosts h id e =
    let (i, am, p, q, r, a, free) = update_host_in-ok u hosts h e in
    (
      am,
      q,
      rw (host_by_id-eq-find, host_by_id-eq-find)
          (rw r (find-set Host.id hosts (Host.id h) id i (record h { auth_method = am }) p refl)),
    )

-- HostByID after a deletion: nothing under the deleted ID, and every other host as it was.
pub host_by_id-delete_host_in :
    (u : Unicode) (hosts : List Host) (id j : Str) {out : List Host}
    → IsWellFormed u hosts
    → delete_host_in hosts id ≡ ok out
    → host_by_id out j ≡ (if str_eq id j then none else host_by_id hosts j)
unfolding delete_host_in index_by_id
host_by_id-delete_host_in u hosts id j {out} w e = elim (Option-cases (index_by_id hosts id)) [
  | inl p ↦ absurd (ground arith)
  | inr (i, p) ↦
      let r : out ≡ remove_at i hosts = ground arith in
      rw (host_by_id-eq-find, host_by_id-eq-find)
        (rw r (elim (Bool-cases (str_eq id j)) [
          | inl s ↦ rw s (
              find-none Host.id (remove_at i hosts) j
                (rw (← str_eq→eq id j s) (taken-remove_at_index Host.id hosts id i w.ids p)))
          | inr d ↦
              rw d (find-remove_at Host.id hosts id j i p (λ q. cc (rw (q, str_eq_refl) at d)))
        ]))
]

-- HostByID after an add: the stored host under its ID, and every other host as it was.
pub host_by_id-add_host_to :
    (u : Unicode) (fresh : Str) (hosts : List Host) (h : Host) (id : Str) {out : List Host × Host}
    → taken Host.id (new_host_id u fresh h) hosts ≡ false
    → add_host_to u fresh hosts h ≡ ok out
    → host_by_id out.0 id
      ≡ (if str_eq (new_host_id u fresh h) id then some out.1 else host_by_id hosts id)
host_by_id-add_host_to u fresh hosts h id n e =
    let (am, p, q, a, free) = add_host_to-ok u fresh hosts h e in
    rw (host_by_id-eq-find, host_by_id-eq-find)
      (rw q (find-snoc Host.id hosts (stored_host u fresh am h) id n))
