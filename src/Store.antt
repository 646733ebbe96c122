-- ===== src/Store.antt =====
-- internal/store: hosts, keys and settings. This file has the data of store.go and the rules that
-- Store and ProjectDoc share.
-- Go values are immutable here, so `cloneHost` and `cloneIdentity`, which only break aliasing, are
-- the identity and are left out. Each new random ID is an argument, in the order of the calls.
pub mod Edit
pub mod Hosts
pub mod Update
pub mod Refines
pub mod Views
pub mod Keys
pub mod Import
pub mod Merge
pub mod Document
mod Tests
use wharf_tui.Base.{
  ℕ, Bool, ◌&&◌, ◌||◌, Option, none, some, List, [], ◌∷◌, ◌++◌, if◌then◌else◌, ◌==◌, true, false,
  set, get_elem?,
}
use wharf_tui.Base.Int.{ℤ, pos, int_eq, int_lt}
use wharf_tui.Base.Text.{Str, codes, str_eq, Unicode, to_lower, trim_space}
use wharf_tui.Base.Find.{index_where, remove_at}
use wharf_tui.Base.Results.{Result, ok, err, ◌>>=◌, ◌>>◌}

-- time.Time: an instant, 0 for the zero value.
abbrev pub Time : Type 0
Time = ℕ

-- `tags` is `none` for a nil slice.
pub record Host : Type 0 where
  pub id : Str
  pub name : Str
  pub user : Str
  pub addr : Str
  pub port : ℤ
  pub tags : Option (List Str)
  pub key_path : Str
  pub key_id : Str
  pub auth_method : Str
  pub password : Str
  pub source : Str
  pub last_seen : Time

pub record Settings : Type 0 where
  pub theme : Str
  pub agent : Bool
  pub keepalive : Bool
  pub telemetry : Bool

-- DefaultSettings
unfoldable pub default_settings : Settings
default_settings = record {
  theme = codes "abyss";
  agent = true;
  keepalive = true;
  telemetry = false;
}

pub record Identity : Type 0 where
  pub x25519_priv : Str
  pub x25519_pub : Str
  pub mlkem_seed : Str
  pub created_at : Time

pub record VaultKey : Type 0 where
  pub id : Str
  pub name : Str
  pub type : Str
  pub material : Str
  pub public_key : Str
  pub source_path : Str
  pub added_at : Time

-- What the functions refuse, with the value that the message quotes.
pub data Error : Type 0 where
  name_required addr_required key_name_required material_required : Error
  port_out_of_range : ℤ → Error
  host_exists key_exists bad_auth_method no_host no_key : Str → Error

-- normalizeAuthMethod
unfoldable pub normalize_auth_method : Str → Result Error Str
normalize_auth_method v =
    if str_eq v [] || str_eq v (codes "auto") || str_eq v (codes "key")
    then ok (codes "key")
    else if str_eq v (codes "password")
    then ok (codes "password")
    else err (bad_auth_method v)

-- indexByIDIn
unfoldable pub index_by_id : List Host → Str → Option ℕ
index_by_id hosts id = index_where (λ h. str_eq (Host.id h) id) hosts

-- indexKeyByIDIn
unfoldable pub index_key_by_id : List VaultKey → Str → Option ℕ
index_key_by_id keys id = index_where (λ k. str_eq (VaultKey.id k) id) keys

module _ (u : Unicode) where
  -- `strings.ToLower(strings.TrimSpace(name))`: two names are one if these are equal.
  unfoldable pub fold : Str → Str
  fold s = to_lower u (trim_space u s)

  -- indexByNameIn
  unfoldable pub index_by_name : List Host → Str → Option ℕ
  index_by_name hosts name = index_where (λ h. str_eq (fold (Host.name h)) (fold name)) hosts

  -- indexKeyByNameIn
  unfoldable pub index_key_by_name : List VaultKey → Str → Option ℕ
  index_key_by_name keys name = index_where (λ k. str_eq (fold (VaultKey.name k)) (fold name)) keys

  -- The loop of validateHostIn over the other hosts.
  unfoldable pub name_clash : List Host → Str → Str → Bool
  name_clash [] name exclude = false
  name_clash (other ∷ hosts) name exclude =
      let rest = name_clash hosts name exclude in
      if str_eq (Host.id other) exclude
      then rest
      else if str_eq (fold (Host.name other)) name
      then true
      else rest

  -- validateHostIn
  unfoldable pub validate_host : List Host → Host → Str → Result Error (Unit {0})
  validate_host hosts h exclude =
      if str_eq (trim_space u (Host.name h)) []
      then err name_required
      else if str_eq (trim_space u (Host.addr h)) []
      then err addr_required
      else if int_lt (Host.port h) (pos 1) || int_lt (pos 65535) (Host.port h)
      then err (port_out_of_range (Host.port h))
      else if name_clash hosts (fold (Host.name h)) exclude
      then err (host_exists (trim_space u (Host.name h)))
      else ok tt

  -- The defaults of addHostTo.
  unfoldable pub with_defaults : Host → Host
  with_defaults h = record h {
    port = if int_eq (Host.port h) (pos 0) then pos 22 else Host.port h;
    source = if str_eq (Host.source h) [] then codes "manual" else Host.source h;
  }
