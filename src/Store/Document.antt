-- ===== src/Store/Document.antt =====
-- internal/store: the versioned documents, and what is read from a payload. encoding/json is a
-- parameter: `unmarshal` gives `none` for a payload that is no document, `marshal` on an error.
pub mod RoundTrip
use wharf_tui.Base.{ℕ, ◌||◌, Option, none, some, List, [], ◌∷◌, if◌then◌else◌}
use wharf_tui.Base.Int.{ℤ, pos, int_lt, int_eq}
use wharf_tui.Base.Results.{Result, ok, err, ◌>>=◌}
use mathlib.Core.Bool.{not}
use wharf_tui.Store.{Host, Settings, Identity, VaultKey, default_settings}
use wharf_tui.Store.Edit.{Store}

abbrev pub schema_version : ℤ
schema_version = pos 5

-- projectSchemaVersion
abbrev pub project_schema_version : ℤ
project_schema_version = pos 1

pub record Document : Type 0 where
  pub schema : ℤ
  pub hosts : List Host
  pub settings : Settings
  pub identity : Option Identity
  pub keys : List VaultKey

pub record ProjectDoc : Type 0 where
  pub schema : ℤ
  pub hosts : List Host

pub data ParseError : Type 0 where
  invalid_payload : ParseError
  unsupported_schema : ℤ → ParseError

-- encoding/json on one type of document.
pub record Json (D : Type 0) : Type 0 where
  pub marshal : D → Option (List ℕ)
  pub unmarshal : List ℕ → Option D

abbrev pub decoded {ℓ} : {A : Type ℓ} → Option A → Result ParseError A
decoded none = err invalid_payload
decoded (some d) = ok d

-- The store that Open makes of a document.
abbrev pub store_of : Document → Store
store_of doc = record {
  hosts = Document.hosts doc;
  settings = Document.settings doc;
  identity = Document.identity doc;
  keys = Document.keys doc;
}

module _ (json : Json Document) where
  -- parseDocument
  unfoldable pub parse_document : List ℕ → Result ParseError Document
  parse_document [] = ok (record {
    schema = schema_version;
    hosts = [];
    settings = default_settings;
    identity = none;
    keys = [];
  })
  parse_document (b ∷ payload) = do
    doc ← decoded (Json.unmarshal json (b ∷ payload))
    if int_lt (Document.schema doc) (pos 1) || int_lt schema_version (Document.schema doc)
        then err (unsupported_schema (Document.schema doc))
        else ok doc

  -- Open, on the backend's payload.
  unfoldable pub open_store : List ℕ → Result ParseError Store
  open_store [] =
      ok (record { hosts = []; settings = default_settings; identity = none; keys = [] })
  open_store (b ∷ payload) = do
    doc ← decoded (Json.unmarshal json (b ∷ payload))
    if int_lt (Document.schema doc) (pos 1) || int_lt schema_version (Document.schema doc)
        then err (unsupported_schema (Document.schema doc))
        else ok (store_of doc)

  -- The document that Save marshals.
  abbrev pub saved_document : Store → Document
  saved_document s = record {
    schema = schema_version;
    hosts = Store.hosts s;
    settings = Store.settings s;
    identity = Store.identity s;
    keys = Store.keys s;
  }

  -- Save, up to the write through the backend: the payload that it writes.
  unfoldable pub save : Store → Option (List ℕ)
  save s = Json.marshal json (saved_document s)

module _ (json : Json ProjectDoc) where
  -- OpenProjectDoc
  unfoldable pub open_project_doc : List ℕ → Result ParseError ProjectDoc
  open_project_doc [] = ok (record { schema = project_schema_version; hosts = [] })
  open_project_doc (b ∷ payload) = do
    doc ← decoded (Json.unmarshal json (b ∷ payload))
    if not (int_eq (ProjectDoc.schema doc) project_schema_version)
        then err (unsupported_schema (ProjectDoc.schema doc))
        else ok doc

  -- ProjectDoc.Marshal stamps the current version.
  unfoldable pub marshal_project_doc : ProjectDoc → Option (List ℕ)
  marshal_project_doc d =
      Json.marshal json (record { schema = project_schema_version; hosts = ProjectDoc.hosts d })
