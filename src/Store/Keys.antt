-- ===== src/Store/Keys.antt =====
-- Synced keys: AddKey keeps their names apart, and RemoveKey unbinds the hosts of the key.
use wharf_tui.Base.{
  ℕ, true, false, ◌≡◌, refl, ◌≢◌, ◌∙◌, ◌⊎◌, inl, inr, some, List, [], ◌∷◌, ◌++◌, arith, Bool-cases,
  Option-cases, map,
}
use wharf_tui.Base.Text.{Str, str_eq, str_eq_refl, str_eq_iff, Unicode, trim_space}
use wharf_tui.Base.Find.{remove_at, taken, IsDistinct, IsDistinct-snoc, All, All-map}
use wharf_tui.Base.Keyed.{
  taken-remove_at_ne, find, find-remove_at, taken-of_index_none, taken-remove_at_index,
}
use wharf_tui.Base.Results.{ok}
use wharf_tui.Store.{Time, Host, VaultKey, fold, index_key_by_id, index_key_by_name}
use wharf_tui.Store.Edit.{Store, add_key_to, remove_key_in, unbind, remove_key}

-- A host is bound to a key that the vault holds, or to none.
abbrev pub IsBound : List VaultKey → Host → Type 0
IsBound keys h = (Host.key_id h ≡ []) ⊎ (taken VaultKey.id (Host.key_id h) keys ≡ true)

module _ (u : Unicode) where
  abbrev pub key_name : VaultKey → Str
  key_name k = fold u (VaultKey.name k)

  -- AddKey appends a key with a name that is not blank and that no other key has.
  pub add_key_to-ok :
      (fresh : Str) (now : Time) (keys : List VaultKey) (k : VaultKey)
      {out : List VaultKey × VaultKey}
      → add_key_to u fresh now keys k ≡ ok out
      → (out.0 ≡ keys ++ (out.1 ∷ []))
        × (VaultKey.name out.1 ≡ VaultKey.name k)
        × (VaultKey.material out.1 ≡ VaultKey.material k)
        × (trim_space u (VaultKey.name k) ≢ [])
        × (trim_space u (VaultKey.material k) ≢ [])
        × (taken key_name (key_name k) keys ≡ false)
  unfolding add_key_to index_key_by_name
  add_key_to-ok fresh now keys k e = ground (
    arith,
    str_eq_iff (trim_space u (VaultKey.name k)) [],
    str_eq_iff (trim_space u (VaultKey.material k)) [],
    taken-of_index_none key_name keys (key_name k),
  )

  -- AddKey keeps the names of the keys apart.
  pub add_key_to-IsDistinct :
      (fresh : Str) (now : Time) (keys : List VaultKey) (k : VaultKey)
      {out : List VaultKey × VaultKey}
      → IsDistinct key_name keys
      → add_key_to u fresh now keys k ≡ ok out
      → IsDistinct key_name out.0
  add_key_to-IsDistinct fresh now keys k {out} d e =
      let (a, n, m, p, q, free) = add_key_to-ok fresh now keys k e in
      rw a (IsDistinct-snoc key_name keys out.1 (rw n free) d)

unbound :
    (id : Str) (hosts : List Host) → id ≢ [] → taken Host.key_id id (map (unbind id) hosts) ≡ false
unfolding taken unbind
unbound id [] n = refl
unbound id (h ∷ hosts) n = ground (arith, unbound id hosts, str_eq_iff [] id)

unbind-IsBound :
    (keys : List VaultKey) (id : Str) (i : ℕ) (h : Host)
    → index_key_by_id keys id ≡ some i
    → IsBound keys h
    → IsBound (remove_at i keys) (unbind id h)
unfolding unbind index_key_by_id
unbind-IsBound keys id i h e (inl z) = inl (ground arith)
unbind-IsBound keys id i h e (inr t) = elim (Bool-cases (str_eq (Host.key_id h) id)) [
  | inl same ↦ rw same (inl refl)
  | inr other ↦ rw other (
      inr (
        taken-remove_at_ne VaultKey.id keys id (Host.key_id h) i e
          (λ q. cc (rw (q, str_eq_refl) at other))
        ∙ t))
]

-- RemoveKey, where keys have IDs of their own and every host is bound to a key of the vault or to
-- none: the key is gone and no host is bound to it, KeyByID finds the other keys as before, and
-- every host is bound to a key that is left or to none.
pub remove_key_lem :
    (s : Store) (id : Str) {s' : Store}
    → IsDistinct VaultKey.id (Store.keys s)
    → id ≢ []
    → All (IsBound (Store.keys s)) (Store.hosts s)
    → remove_key s id ≡ ok s'
    → (taken VaultKey.id id (Store.keys s') ≡ false)
      × (taken Host.key_id id (Store.hosts s') ≡ false)
      × ((j : Str)
          → j ≢ id
          → find VaultKey.id (Store.keys s') j ≡ find VaultKey.id (Store.keys s) j)
      × All (IsBound (Store.keys s')) (Store.hosts s')
unfolding remove_key remove_key_in index_key_by_id
remove_key_lem s id {s'} d n b e = elim (Option-cases (index_key_by_id (Store.keys s) id)) [
  | inl p ↦ absurd (ground arith)
  | inr (i, p) ↦
      let r : s' ≡ record s {
        keys = remove_at i (Store.keys s);
        hosts = map (unbind id) (Store.hosts s);
      } =
        ground arith in
      rw r (
        taken-remove_at_index VaultKey.id (Store.keys s) id i d p,
        unbound id (Store.hosts s) n,
        (λ j q. find-remove_at VaultKey.id (Store.keys s) id j i p q),
        All-map (IsBound (Store.keys s)) (IsBound (remove_at i (Store.keys s))) (unbind id)
            (λ h q. unbind-IsBound (Store.keys s) id i h p q) (Store.hosts s) b,
      )
]
