-- ===== src/Store/Merge/Tests.antt =====
-- A run of the merge, and its theorems at concrete inputs.
use wharf_tui.Base.{
  ℕ, ◌≡◌, ◌+◌, refl, true, false, none, some, List, [], ◌∷◌, ◌++◌, arith, length, inr,
}
use wharf_tui.Base.Int.{pos}
use wharf_tui.Base.Text.{Str, codes, str_eq, ascii, to_lower, trim_space}
use wharf_tui.Base.Find.{index_where, taken, IsDistinct, All}
use wharf_tui.Store.{
  Host, VaultKey, fold, index_by_name, index_by_id, index_key_by_name, index_key_by_id,
}
use wharf_tui.Store.Keys.{IsBound}
use wharf_tui.Store.Document.{Document, Json, schema_version}
use wharf_tui.Store.Merge.{MergeResult, merge_documents, merge_keys, merge_hosts}
use wharf_tui.Store.Merge.Binding.{merge_documents_prefix, merge_documents-IsBound}
use wharf_tui.Store.Merge.Ids.{IsFresh, merge_documents-ids}

abbrev host : Str → Str → Str → Host
host id name key_id = record {
  id = id;
  name = name;
  user = codes "root";
  addr = codes "10.0.0.1";
  port = pos 22;
  tags = none;
  key_path = [];
  key_id = key_id;
  auth_method = codes "key";
  password = [];
  source = codes "manual";
  last_seen = 0;
}

abbrev key : Str → Str → VaultKey
key id name = record {
  id = id;
  name = name;
  type = codes "ED25519";
  material = codes "TWF0";
  public_key = [];
  source_path = [];
  added_at = 5;
}

abbrev account : Document
account = record {
  schema = pos 4;
  hosts = host (codes "a1") (codes "prod") (codes "k1") ∷ [];
  settings = record { theme = codes "abyss"; agent = true; keepalive = true; telemetry = false };
  identity = none;
  keys = key (codes "k1") (codes "laptop") ∷ [];
}

-- The local key has a taken name, its host a taken ID.
abbrev machine : Document
machine = record account {
  hosts = host (codes "a1") (codes "db") (codes "k9") ∷ host (codes "a2") (codes "PROD") [] ∷ [];
  keys = key (codes "k9") (codes "Laptop") ∷ [];
}

abbrev fresh_id : ℕ → Str
fresh_id n = n ∷ []

merge_documents_run : merge_documents ascii fresh_id account machine ≡ (
  record account {
    schema = pos 5;
    hosts =
        host (codes "a1") (codes "prod") (codes "k1")
        ∷ host (0 ∷ []) (codes "db") (codes "k1")
        ∷ [];
  },
  record { hosts_added = 1; hosts_skipped = 1; keys_added = 0; keys_skipped = 1 },
)
unfolding merge_documents merge_keys merge_hosts index_by_name index_by_id index_key_by_name
    index_key_by_id index_where fold to_lower trim_space str_eq
merge_documents_run = refl

merge_documents_prefix_example :
    let (merged, res) = merge_documents ascii fresh_id account machine in
    (hs : List Host) × (ks : List VaultKey) × (merged ≡ record account {
      schema = schema_version;
      hosts = Document.hosts account ++ hs;
      keys = Document.keys account ++ ks;
    })
    × (length hs ≡ MergeResult.hosts_added res)
    × (length ks ≡ MergeResult.keys_added res)
    × (MergeResult.hosts_added res + MergeResult.hosts_skipped res ≡ 2)
    × (MergeResult.keys_added res + MergeResult.keys_skipped res ≡ 1)
merge_documents_prefix_example = merge_documents_prefix ascii fresh_id account machine

merge_documents-IsBound_example :
    let merged = (merge_documents ascii fresh_id account machine).0 in
    All (IsBound (Document.keys merged)) (Document.hosts merged)
unfolding taken str_eq
merge_documents-IsBound_example =
    merge_documents-IsBound ascii fresh_id account machine (inr refl, tt)

machine-IsFresh : IsFresh fresh_id machine
machine-IsFresh = record {
  once = λ i j e. cc;
  new_to_hosts = ((λ m e. cc), ((λ m e. cc), tt));
  new_to_keys = ((λ m e. cc), tt);
}

merge_documents-ids_example :
    let merged = (merge_documents ascii fresh_id account machine).0 in
    IsDistinct Host.id (Document.hosts merged) × IsDistinct VaultKey.id (Document.keys merged)
unfolding taken str_eq
merge_documents-ids_example =
    merge_documents-ids ascii fresh_id account machine machine-IsFresh (λ m. ground arith)
      (λ m. ground arith) (refl, tt) (refl, tt)

abbrev json : Json Document
json = record {
  marshal = λ d. some (1 ∷ []);
  unmarshal = λ b. some (record account { schema = pos 5 });
}
