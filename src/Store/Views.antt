-- ===== src/Store/Views.antt =====
-- internal/store/store.go and project.go: the accessors of a store, NewMemory, and the edits of a
-- project's document, which go through the same functions as those of a store.
use wharf_tui.Base.{
  ℕ, suc, false, ◌≡◌, ◌≢◌, refl, ap, inl, inr, Option, none, List, [], ◌∷◌, if◌then◌else◌, arith,
  Bool-cases, length,
}
use wharf_tui.Base.Text.{Str, str_eq, str_eq_iff, Unicode}
use wharf_tui.Base.Find.{taken}
use wharf_tui.Base.Keyed.{at_index}
use wharf_tui.Base.Results.{Result, ok, ◌>>=◌}
use wharf_tui.Store.{Host, Settings, Identity, VaultKey, Error, index_key_by_id}
use wharf_tui.Store.Edit.{Store, add_host_to, update_host_in, delete_host_in}
use wharf_tui.Store.Document.{ProjectDoc}
use wharf_tui.Store.Update.{host_by_id}

-- The loop of NewMemory; `new_id n` is the n-th ID that newID returns.
unfoldable pub seeded : (ℕ → Str) → ℕ → List Host → List Host
seeded new_id n [] = []
seeded new_id n (h ∷ hosts) =
    if str_eq (Host.id h) []
    then record h { id = new_id n } ∷ seeded new_id (suc n) hosts
    else h ∷ seeded new_id n hosts

-- NewMemory
unfoldable pub new_memory : (ℕ → Str) → List Host → Settings → Store
unfolding seeded
new_memory new_id hosts settings = record {
  hosts = seeded new_id 0 hosts;
  settings = settings;
  identity = none;
  keys = [];
}

-- SetSettings
unfoldable pub set_settings : Settings → Store → Store
set_settings v s = record s { settings = v }

-- SetIdentity
unfoldable pub set_identity : Option Identity → Store → Store
set_identity id s = record s { identity = id }

-- KeyByID
unfoldable pub key_by_id : List VaultKey → Str → Option VaultKey
unfolding index_key_by_id
key_by_id keys id = at_index VaultKey.id keys (index_key_by_id keys id)

-- ProjectDoc.HostByID
unfoldable pub project_host_by_id : ProjectDoc → Str → Option Host
unfolding host_by_id
project_host_by_id d id = host_by_id (ProjectDoc.hosts d) id

-- ProjectDoc.DeleteHost
unfoldable pub project_delete_host : ProjectDoc → Str → Result Error ProjectDoc
project_delete_host d id = do
  hosts' ← delete_host_in (ProjectDoc.hosts d) id
  ok (record d { hosts = hosts' })

module _ (u : Unicode) where
  -- ProjectDoc.AddHost
  unfoldable pub project_add_host : Str → ProjectDoc → Host → Result Error (ProjectDoc × Host)
  project_add_host fresh d h = do
    (hosts', stored) ← add_host_to u fresh (ProjectDoc.hosts d) h
    ok (record d { hosts = hosts' }, stored)

  -- ProjectDoc.UpdateHost
  unfoldable pub project_update_host : ProjectDoc → Host → Result Error ProjectDoc
  project_update_host d h = do
    hosts' ← update_host_in u (ProjectDoc.hosts d) h
    ok (record d { hosts = hosts' })

seeded_lem :
    (new_id : ℕ → Str) (n : ℕ) (hosts : List Host)
    → ((m : ℕ) → new_id m ≢ [])
    → (taken Host.id [] (seeded new_id n hosts) ≡ false)
      × (length (seeded new_id n hosts) ≡ length hosts)
unfolding seeded taken
seeded_lem new_id n [] f = (refl, refl)
seeded_lem new_id n (h ∷ hosts) f = elim (Bool-cases (str_eq (Host.id h) [])) [
  | inl e ↦
      let (t, l) = seeded_lem new_id (suc n) hosts f in
      rw e (ground (arith, str_eq_iff (new_id n) [], f n), ap suc l)
  | inr e ↦ let (t, l) = seeded_lem new_id n hosts f in rw e (ground arith, ap suc l)
]

-- Every host of a store that NewMemory made has an ID, and there are as many as were given, where
-- newID returns no empty one.
pub new_memory_identified :
    (new_id : ℕ → Str) (hosts : List Host) (settings : Settings)
    → ((m : ℕ) → new_id m ≢ [])
    → (taken Host.id [] (Store.hosts (new_memory new_id hosts settings)) ≡ false)
      × (length (Store.hosts (new_memory new_id hosts settings)) ≡ length hosts)
unfolding new_memory
new_memory_identified new_id hosts settings f = seeded_lem new_id 0 hosts f
