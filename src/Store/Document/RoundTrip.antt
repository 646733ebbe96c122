-- ===== src/Store/Document/RoundTrip.antt =====
-- What is saved is what is opened again.
use wharf_tui.Base.{ℕ, ◌≡◌, ◌≢◌, refl, some, List, [], ◌∷◌}
use wharf_tui.Base.Results.{ok}
use wharf_tui.Store.Edit.{Store}
use wharf_tui.Store.Document.{
  Document, ProjectDoc, Json, open_project_doc, marshal_project_doc, project_schema_version,
}

-- A project document that was marshalled is opened with the same hosts, whatever schema it had in
-- memory.
pub open_project_doc-marshal_project_doc :
    (json : Json ProjectDoc) (d : ProjectDoc) (payload : List ℕ)
    → marshal_project_doc json d ≡ some payload
    → payload ≢ []
    → Json.unmarshal json payload ≡ some (record d { schema = project_schema_version })
    → open_project_doc json payload ≡ ok (record d { schema = project_schema_version })
unfolding open_project_doc
open_project_doc-marshal_project_doc json d [] e n r = absurd (n refl)
open_project_doc-marshal_project_doc json d (b ∷ payload) e n r = rw r
