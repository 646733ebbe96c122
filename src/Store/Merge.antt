-- ===== src/Store/Merge.antt =====
-- internal/store/merge.go: folding this machine's vault into the account's.
pub mod Base
pub mod Binding
pub mod Ids
mod Tests
use wharf_tui.Base.{
  ℕ, ◌+◌, Bool, true, false, Option, none, some, List, [], ◌∷◌, ◌++◌, if◌then◌else◌, get_elem?,
  ◌||◌, ◌<◌, ltb,
}
use wharf_tui.Base.Text.{Str, str_eq, Unicode}
use wharf_tui.Base.Find.{index_where}
use wharf_tui.Base.Keyed.{find}
use wharf_tui.Base.Results.{Result, ok, err, ◌>>=◌}
use wharf_tui.Store.{Host, VaultKey, index_by_id, index_key_by_id, index_by_name, index_key_by_name}
use wharf_tui.Store.Document.{Document, Json, ParseError, parse_document, schema_version}

pub record MergeResult : Type 0 where
  pub hosts_added : ℕ
  pub hosts_skipped : ℕ
  pub keys_added : ℕ
  pub keys_skipped : ℕ

-- MergeResult.Any
unfoldable pub carried_any : MergeResult → Bool
carried_any r = ltb 0 (MergeResult.hosts_added r) || ltb 0 (MergeResult.keys_added r)

-- `rebind`: local key IDs and the IDs that stand for them, the last write first.
abbrev pub Rebind : Type 0
Rebind = List (Str × Str)

unfoldable pub rebind_to : Rebind → Str → Option Str
rebind_to [] k = none
rebind_to ((from, to) ∷ r) k = if str_eq from k then some to else rebind_to r k

-- What the loop over the keys has done. `next` numbers the calls of newID.
pub record KeyState : Type 0 where
  pub keys : List VaultKey
  pub rebind : Rebind
  pub next : ℕ
  pub num_added : ℕ
  pub num_skipped : ℕ

pub record HostState : Type 0 where
  pub hosts : List Host
  pub next : ℕ
  pub num_added : ℕ
  pub num_skipped : ℕ

unfoldable pub is_some {ℓ} : {A : Type ℓ} → Option A → Bool
is_some none = false
is_some (some a) = true

-- The key at an index that was found.
abbrev pub key_id_at : List VaultKey → ℕ → Option Str
key_id_at [] i = none
key_id_at (k ∷ keys) ℕ.zero = some (VaultKey.id k)
key_id_at (k ∷ keys) (ℕ.suc i) = key_id_at keys i

abbrev pub keys_start : Document → KeyState
keys_start base = record {
  keys = Document.keys base;
  rebind = [];
  next = 0;
  num_added = 0;
  num_skipped = 0;
}

abbrev pub hosts_start : Document → ℕ → HostState
hosts_start base n = record {
  hosts = Document.hosts base;
  next = n;
  num_added = 0;
  num_skipped = 0;
}

-- The body for a key whose name is taken, by the key with the ID `to`.
unfoldable pub skip_key : KeyState → VaultKey → Option Str → KeyState
skip_key s k none = s
skip_key s k (some to) = record s {
  rebind = (VaultKey.id k, to) ∷ KeyState.rebind s;
  num_skipped = KeyState.num_skipped s + 1;
}

-- The KeyID of a host that is carried over.
unfoldable pub rebound : List VaultKey → Rebind → Str → Str
unfolding rebind_to is_some
rebound keys rebind key_id = if str_eq key_id [] then key_id else elim (rebind_to rebind key_id) [
  | some to ↦ to
  | none ↦ if is_some (index_key_by_id keys key_id) then key_id else []
]

module _ (u : Unicode) (new_id : ℕ → Str) where
  -- The body for a key whose name is free.
  unfoldable pub carry_key : KeyState → VaultKey → KeyState
  unfolding is_some
  carry_key s k =
      let renew =
        str_eq (VaultKey.id k) [] || is_some (index_key_by_id (KeyState.keys s) (VaultKey.id k)) in
      let id' = if renew then new_id (KeyState.next s) else VaultKey.id k in
      record s {
        keys = KeyState.keys s ++ (record k { id = id' } ∷ []);
        rebind = (VaultKey.id k, id') ∷ KeyState.rebind s;
        next = if renew then KeyState.next s + 1 else KeyState.next s;
        num_added = KeyState.num_added s + 1;
      }

  unfoldable pub merge_key : KeyState → VaultKey → KeyState
  unfolding skip_key carry_key
  merge_key s k = elim (index_key_by_name u (KeyState.keys s) (VaultKey.name k)) [
    | some i ↦ skip_key s k (key_id_at (KeyState.keys s) i)
    | none ↦ carry_key s k
  ]

  unfoldable pub merge_keys : KeyState → List VaultKey → KeyState
  unfolding merge_key
  merge_keys s [] = s
  merge_keys s (k ∷ ks) = merge_keys (merge_key s k) ks

  unfoldable pub carry_host : List VaultKey → Rebind → HostState → Host → HostState
  unfolding rebound
  carry_host keys rebind s h =
      let renew = str_eq (Host.id h) [] || is_some (index_by_id (HostState.hosts s) (Host.id h)) in
      record s {
        hosts =
            HostState.hosts s
            ++ (record h {
              id = if renew then new_id (HostState.next s) else Host.id h;
              key_id = rebound keys rebind (Host.key_id h);
            }
                ∷ []);
        next = if renew then HostState.next s + 1 else HostState.next s;
        num_added = HostState.num_added s + 1;
      }

  unfoldable pub merge_host : List VaultKey → Rebind → HostState → Host → HostState
  unfolding carry_host
  merge_host keys rebind s h = elim (index_by_name u (HostState.hosts s) (Host.name h)) [
    | some i ↦ record s { num_skipped = HostState.num_skipped s + 1 }
    | none ↦ carry_host keys rebind s h
  ]

  unfoldable pub merge_hosts : List VaultKey → Rebind → HostState → List Host → HostState
  unfolding merge_host
  merge_hosts keys rebind s [] = s
  merge_hosts keys rebind s (h ∷ hs) = merge_hosts keys rebind (merge_host keys rebind s h) hs

  -- Merge between the decoding and the encoding.
  unfoldable pub merge_documents : Document → Document → Document × MergeResult
  merge_documents base local =
      let ks = merge_keys (keys_start base) (Document.keys local) in
      let hs =
        merge_hosts (KeyState.keys ks) (KeyState.rebind ks) (hosts_start base (KeyState.next ks))
          (Document.hosts local) in
      (
        record base {
          schema = schema_version;
          hosts = HostState.hosts hs;
          keys = KeyState.keys ks;
        },
        record {
          hosts_added = HostState.num_added hs;
          hosts_skipped = HostState.num_skipped hs;
          keys_added = KeyState.num_added ks;
          keys_skipped = KeyState.num_skipped ks;
        },
      )

pub data MergeError : Type 0 where
  account_vault local_vault : ParseError → MergeError
  marshal_failed : MergeError

abbrev pub label {ℓ} :
    {A : Type ℓ} → (ParseError → MergeError) → Result ParseError A → Result MergeError A
label f (ok a) = ok a
label f (err e) = err (f e)

abbrev pub encoded : MergeResult → Option (List ℕ) → Result MergeError (List ℕ × MergeResult)
encoded r none = err marshal_failed
encoded r (some payload) = ok (payload, r)

-- Merge
unfoldable pub merge :
    Unicode → (ℕ → Str) → Json Document → List ℕ → List ℕ → Result MergeError (List ℕ × MergeResult)
merge u new_id json base local = do
  base_doc ← label account_vault (parse_document json base)
  local_doc ← label local_vault (parse_document json local)
  let (merged, res) = merge_documents u new_id base_doc local_doc
  encoded res (Json.marshal json merged)
