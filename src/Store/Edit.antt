-- ===== src/Store/Edit.antt =====
-- internal/store/store.go: adding, updating and removing hosts and keys, as the personal store and
-- a project document do.
use wharf_tui.Base.{ℕ, Option, none, some, List, [], ◌∷◌, ◌++◌, if◌then◌else◌, ◌==◌, set, map}
use wharf_tui.Base.Text.{Str, str_eq, Unicode, trim_space}
use wharf_tui.Base.Find.{remove_at}
use wharf_tui.Base.Results.{Result, ok, err, ◌>>=◌, ◌>>◌}
use wharf_tui.Store.{
  Time, Host, Settings, Identity, VaultKey, Error, key_name_required, material_required, key_exists,
  no_host, no_key, normalize_auth_method, index_by_id, index_key_by_id, index_key_by_name,
  with_defaults, validate_host,
}

module _ (u : Unicode) where
  -- addHostTo; `fresh` is what newID returns.
  unfoldable pub add_host_to : Str → List Host → Host → Result Error (List Host × Host)
  add_host_to fresh hosts h = do
    am ← normalize_auth_method (Host.auth_method h)
    let h' = record (with_defaults u h) { auth_method = am }
    validate_host u hosts h' []
    let stored = record h' { id = if str_eq (Host.id h) [] then fresh else Host.id h }
    ok (hosts ++ (stored ∷ []), stored)

  -- The rest of updateHostIn, once the host stands at index `i`.
  unfoldable pub replace_at : List Host → Host → ℕ → Result Error (List Host)
  replace_at hosts h i = do
    am ← normalize_auth_method (Host.auth_method h)
    let h' = record h { auth_method = am }
    validate_host u hosts h' (Host.id h)
    ok (set hosts i h')

  -- updateHostIn
  unfoldable pub update_host_in : List Host → Host → Result Error (List Host)
  unfolding replace_at
  update_host_in hosts h = elim (index_by_id hosts (Host.id h)) [
    | none ↦ err (no_host (Host.id h))
    | some i ↦ replace_at hosts h i
  ]

  -- addKeyTo; `now` is what time.Now returns.
  unfoldable pub add_key_to :
      Str → Time → List VaultKey → VaultKey → Result Error (List VaultKey × VaultKey)
  add_key_to fresh now keys k =
      if str_eq (trim_space u (VaultKey.name k)) []
      then err key_name_required
      else if str_eq (trim_space u (VaultKey.material k)) []
      then err material_required
      else elim (index_key_by_name u keys (VaultKey.name k)) [
        | some i ↦ err (key_exists (trim_space u (VaultKey.name k)))
        | none ↦
            let stored = record k {
              id = if str_eq (VaultKey.id k) [] then fresh else VaultKey.id k;
              added_at = if VaultKey.added_at k == 0 then now else VaultKey.added_at k;
            } in
            ok (keys ++ (stored ∷ []), stored)
      ]

-- deleteHostIn
unfoldable pub delete_host_in : List Host → Str → Result Error (List Host)
delete_host_in hosts id = elim (index_by_id hosts id) [
  | none ↦ err (no_host id)
  | some i ↦ ok (remove_at i hosts)
]

-- removeKeyIn
unfoldable pub remove_key_in : List VaultKey → Str → Result Error (List VaultKey)
remove_key_in keys id = elim (index_key_by_id keys id) [
  | none ↦ err (no_key id)
  | some i ↦ ok (remove_at i keys)
]

pub record Store : Type 0 where
  pub hosts : List Host
  pub settings : Settings
  pub identity : Option Identity
  pub keys : List VaultKey

-- The loop of RemoveKey over the hosts.
unfoldable pub unbind : Str → Host → Host
unbind id h = if str_eq (Host.key_id h) id then record h { key_id = [] } else h

-- Store.RemoveKey
unfoldable pub remove_key : Store → Str → Result Error Store
remove_key s id = do
  keys' ← remove_key_in (Store.keys s) id
  ok (record s { keys = keys'; hosts = map (unbind id) (Store.hosts s) })

module _ (u : Unicode) where
  -- Store.AddHost: on an error the store stays as it was.
  unfoldable pub add_host : Str → Store → Host → Result Error (Store × Host)
  add_host fresh s h = do
    (hosts', stored) ← add_host_to u fresh (Store.hosts s) h
    ok (record s { hosts = hosts' }, stored)

  -- Store.UpdateHost
  unfoldable pub update_host : Store → Host → Result Error Store
  update_host s h = do hosts' ← update_host_in u (Store.hosts s) h; ok (record s { hosts = hosts' })

  -- Store.AddKey
  unfoldable pub add_key : Str → Time → Store → VaultKey → Result Error (Store × VaultKey)
  add_key fresh now s k = do
    (keys', stored) ← add_key_to u fresh now (Store.keys s) k
    ok (record s { keys = keys' }, stored)

-- Store.DeleteHost
unfoldable pub delete_host : Store → Str → Result Error Store
delete_host s id = do hosts' ← delete_host_in (Store.hosts s) id; ok (record s { hosts = hosts' })
