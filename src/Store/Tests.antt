-- ===== src/Store/Tests.antt =====
-- Runs of the store, and its theorems at concrete inputs.
use wharf_tui.Base.{ℕ, ◌≡◌, ◌≢◌, ◌↔◌, refl, true, false, none, List, [], ◌∷◌, ◌++◌, inr}
use wharf_tui.Base.Int.{pos}
use wharf_tui.Base.Text.{Str, codes, str_eq, ascii, to_lower, trim_space}
use wharf_tui.Base.Find.{remove_at, index_where, taken, All}
use wharf_tui.Base.Keyed.{find}
use wharf_tui.Base.Results.{ok, err}
use wharf_tui.Store.{
  Host, VaultKey, host_exists, normalize_auth_method, fold, name_clash, validate_host,
  with_defaults, index_by_id, index_key_by_id,
}
use wharf_tui.Store.Edit.{
  Store, add_host_to, update_host_in, delete_host_in, remove_key_in, remove_key, unbind,
}
use wharf_tui.Store.Hosts.{
  IsWellFormed, stored_host, add_host_to_iff, IsKnownAuth, IsAddable, IsFree, with_port,
  add_host_to_unidentified,
}
use wharf_tui.Store.Refines.{HostEdit, add, update, delete, replay, edit_all, edit_all-replay}
use wharf_tui.Store.Update.{host_by_id}
use wharf_tui.Store.Keys.{IsBound, remove_key_lem}

abbrev host : Str → Str → Host
host id name = record {
  id = id;
  name = name;
  user = codes "root";
  addr = codes "10.0.0.1";
  port = pos 22;
  tags = none;
  key_path = [];
  key_id = [];
  auth_method = codes "key";
  password = [];
  source = codes "manual";
  last_seen = 0;
}

abbrev fleet : List Host
fleet = host (codes "a1") (codes "Prod") ∷ host (codes "b2") (codes "web") ∷ []

abbrev key : Str → Str → VaultKey
key id name = record {
  id = id;
  name = name;
  type = codes "ED25519";
  material = codes "TWF0";
  public_key = [];
  source_path = [];
  added_at = 5;
}

abbrev f1 : Str
f1 = codes "f1"

fleet-IsWellFormed : IsWellFormed ascii fleet
unfolding taken fold str_eq to_lower trim_space
fleet-IsWellFormed = record {
  names = (refl, (refl, tt));
  ids = (refl, (refl, tt));
  identified = refl;
}

-- A name is taken in any case and with any space around it.
add_host_to_taken :
    add_host_to ascii f1 fleet (host [] (codes " PROD ")) ≡ err (host_exists (codes "PROD"))
unfolding add_host_to normalize_auth_method validate_host with_defaults name_clash fold str_eq
    to_lower trim_space
add_host_to_taken = refl

add_host_to_db :
    add_host_to ascii f1 fleet (host [] (codes "db"))
    ≡ ok (fleet ++ (host f1 (codes "db") ∷ []), host f1 (codes "db"))
unfolding add_host_to normalize_auth_method validate_host with_defaults name_clash fold str_eq
    to_lower trim_space
add_host_to_db = refl

add_host_to_iff_example :
    (add_host_to ascii f1 fleet (host [] (codes "db"))
      ≡ ok (fleet ++ (host f1 (codes "db") ∷ []), host f1 (codes "db")))
    ↔ ((am : Str) × (n : ℕ) × IsKnownAuth ascii (codes "key") am
        × IsAddable ascii (host [] (codes "db")) n
        × IsFree ascii (codes "db") fleet
        × (fleet ++ (host f1 (codes "db") ∷ []) ≡ fleet ++ (host f1 (codes "db") ∷ []))
        × (host f1 (codes "db") ≡ with_port ascii f1 am (host [] (codes "db")) n))
add_host_to_iff_example =
    add_host_to_iff ascii f1 fleet (host [] (codes "db"))
      (fleet ++ (host f1 (codes "db") ∷ []), host f1 (codes "db"))

update_host_in_rename :
    update_host_in ascii fleet (host (codes "b2") (codes "www"))
    ≡ ok (host (codes "a1") (codes "Prod") ∷ host (codes "b2") (codes "www") ∷ [])
unfolding update_host_in normalize_auth_method validate_host name_clash fold str_eq to_lower
    trim_space index_by_id index_where
update_host_in_rename = refl

delete_host_in_web : delete_host_in fleet (codes "b2") ≡ ok (host (codes "a1") (codes "Prod") ∷ [])
unfolding delete_host_in index_by_id index_where str_eq remove_at
delete_host_in_web = refl

-- Two hosts of one name in one list.
add_host_to_unidentified_example :
    add_host_to ascii f1 (host [] (codes "db") ∷ []) (host [] (codes "db"))
    ≡ ok (
      host [] (codes "db") ∷ stored_host ascii f1 (codes "key") (host [] (codes "db")) ∷ [],
      stored_host ascii f1 (codes "key") (host [] (codes "db")),
    )
unfolding normalize_auth_method with_defaults trim_space str_eq
add_host_to_unidentified_example =
    add_host_to_unidentified ascii f1 (codes "key") (host [] (codes "db") ∷ [])
      (host [] (codes "db")) (refl, tt) refl
      (record { named = cc; addressed = cc; port_low = refl; port_high = refl })

abbrev bound_store : Store
bound_store = record {
  hosts = record (host (codes "a1") (codes "Prod")) { key_id = codes "k1" } ∷ [];
  settings = record { theme = []; agent = true; keepalive = true; telemetry = false };
  identity = none;
  keys = key (codes "k1") (codes "laptop") ∷ [];
}

remove_key_lem_example :
    (taken VaultKey.id (codes "k1") [] ≡ false)
    × (taken Host.key_id (codes "k1") (host (codes "a1") (codes "Prod") ∷ []) ≡ false)
    × ((j : Str)
        → j ≢ codes "k1"
        → find VaultKey.id [] j ≡ find VaultKey.id (key (codes "k1") (codes "laptop") ∷ []) j)
    × All (IsBound []) (host (codes "a1") (codes "Prod") ∷ [])
unfolding remove_key remove_key_in unbind index_key_by_id index_where str_eq remove_at taken
remove_key_lem_example =
    remove_key_lem bound_store (codes "k1")
      {s' = record bound_store { hosts = host (codes "a1") (codes "Prod") ∷ []; keys = [] }}
      (refl, tt) (cc) (inr refl, tt) refl

-- A host is added, another is renamed to a name that is taken, and a third is deleted.
abbrev edits : List HostEdit
edits =
    add f1 (host [] (codes "db"))
    ∷ update (host (codes "b2") (codes "PROD"))
    ∷ delete (codes "a1")
    ∷ []

edit_all-replay_example :
    let (hosts', changes) = edit_all ascii edits fleet in
    IsWellFormed ascii hosts'
    × ((id : Str) → host_by_id hosts' id ≡ replay changes (host_by_id fleet) id)
unfolding taken str_eq
edit_all-replay_example =
    edit_all-replay ascii edits fleet fleet-IsWellFormed ((cc, refl), (tt, (tt, tt)))
