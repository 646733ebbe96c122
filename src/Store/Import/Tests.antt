-- ===== src/Store/Import/Tests.antt =====
-- Runs of the import, and its theorems at concrete inputs.
use wharf_tui.Base.{ℕ, ◌≡◌, refl, false, none, some, List, [], ◌∷◌, get_elem?}
use wharf_tui.Base.Int.{pos}
use wharf_tui.Base.Text.{Str, codes, str_eq, ascii, to_lower, trim_space}
use wharf_tui.Base.Find.{index_where, taken, IsDistinct}
use wharf_tui.Store.{Host, fold, index_by_name}
use wharf_tui.Store.Hosts.{name_key}
use wharf_tui.Store.Import.{upsert_imported, upsert_one, merged_host, host_eq}
use wharf_tui.Store.Import.Kept.{IsKept, upsert_imported-IsKept}
use wharf_tui.Store.Import.Names.{upsert_imported-IsDistinct}
use wharf_tui.Store.Import.Again.{upsert_imported_again}

abbrev imported : Str → Str → Str → Host
imported id name password = record {
  id = id;
  name = codes "Prod";
  user = name;
  addr = codes "10.0.0.1";
  port = pos 22;
  tags = none;
  key_path = [];
  key_id = [];
  auth_method = [];
  password = password;
  source = codes "ssh_config";
  last_seen = 0;
}

abbrev old : List Host
old = imported (codes "a1") (codes "root") (codes "secret") ∷ []

abbrev incoming : List Host
incoming = imported [] (codes "admin") [] ∷ []

abbrev fresh_id : ℕ → Str
fresh_id n = n ∷ 0 ∷ []

-- The user changes, the ID and the password stay.
upsert_imported_run : upsert_imported ascii false fresh_id 0 old incoming ≡ (
  imported (codes "a1") (codes "admin") (codes "secret") ∷ [],
  record { num_added = 0; num_updated = 1; num_skipped = 0 },
)
unfolding upsert_imported upsert_one index_by_name index_where fold to_lower trim_space str_eq
    merged_host host_eq
upsert_imported_run = refl

upsert_imported-IsKept_example :
    (y : Host) × (get_elem? (upsert_imported ascii false fresh_id 0 old incoming).0 0 ≡ some y)
    × IsKept ascii false (imported (codes "a1") (codes "root") (codes "secret")) y
upsert_imported-IsKept_example =
    upsert_imported-IsKept ascii false fresh_id incoming 0 old 0
      (imported (codes "a1") (codes "root") (codes "secret")) refl

imported_distinct_run :
    IsDistinct (name_key ascii) (upsert_imported ascii false fresh_id 0 old incoming).0
unfolding taken
imported_distinct_run = upsert_imported-IsDistinct ascii false fresh_id incoming 0 old (refl, tt)

upsert_imported_again_example :
    let hosts' = (upsert_imported ascii false fresh_id 0 old incoming).0 in
    upsert_imported ascii false fresh_id 0 hosts' incoming
    ≡ (hosts', record { num_added = 0; num_updated = 0; num_skipped = 1 })
unfolding taken
upsert_imported_again_example =
    upsert_imported_again ascii false fresh_id fresh_id incoming 0 0 old (refl, tt)
