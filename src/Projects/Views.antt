-- ===== src/Projects/Views.antt =====
-- What the views of a pass over the projects may show.
use wharf_tui.Base.{true, ◌≡◌, refl, Option, none, some, List, [], ◌∷◌, ◌++◌, ◌⊎◌, inl}
use wharf_tui.Base.Text.{Str, str_eq}
use wharf_tui.Base.Find.{All}
use wharf_tui.Base.Results.{Result, ok}
use wharf_tui.Sync.{Bytes}
use wharf_tui.Projects.{
  ApiError, Summary, RemoteProject, ProjectView, ProjectsState, ProjectsEnv, get_project_vault,
  put_project_vault,
}
use wharf_tui.Projects.Pass.{Progress, Advance, going, dead, Entry, keep_entry, mark_awaiting}

module _ (env : ProjectsEnv) where
  module _ (Remote : Bytes → Type 0) where
    -- What a view may show of a project, when `synced` is the fingerprint of the last sync: nothing,
    -- the payload that the interface has, or the remote one where the interface has none, or where its
    -- payload is as the last sync left it, or has the fingerprint of the remote one.
    abbrev pub IsKept : Option Bytes → Str → ProjectView → Type 0
    IsKept none synced view =
        (ProjectView.payload view ≡ none)
        ⊎ ((theirs : Bytes) × (ProjectView.payload view ≡ some theirs) × Remote theirs)
    IsKept (some mine) synced view =
        (ProjectView.payload view ≡ none)
        ⊎ ((ProjectView.payload view ≡ some mine)
            ⊎ ((theirs : Bytes) × (ProjectView.payload view ≡ some theirs)
                × Remote theirs
                × ((str_eq (ProjectsEnv.fingerprint env mine) synced ≡ true)
                    ⊎ (str_eq (ProjectsEnv.fingerprint env mine)
                          (ProjectsEnv.fingerprint env theirs)
                        ≡ true))))

    -- After one project: a session that is found dead is gone, and else the views are those from
    -- before and such views.
    abbrev pub ShowsKept : Option Bytes → Str → List ProjectView → Advance → Type 0
    ShowsKept mine synced before (dead s) = ProjectsState.sess s ≡ none
    ShowsKept mine synced before (going p) =
        (views : List ProjectView) × (Progress.views p ≡ before ++ views)
        × All (IsKept mine synced) views

    -- What is opened of an answer is a remote payload.
    abbrev pub IsSource : Bytes → Result ApiError RemoteProject → Type 0
    IsSource dek r =
        (v : RemoteProject) (theirs : Bytes)
        → r ≡ ok v
        → ProjectsEnv.unseal env dek (RemoteProject.blob v) ≡ some theirs
        → Remote theirs

    -- So it is of the answer to a second fetch, after an upload.
    abbrev pub IsSecond : Summary → Bytes → RemoteProject → Progress → Type 0
    IsSecond sum dek v p =
        (blob : Bytes)
        → IsSource dek (
            ProjectsEnv.fetched env (
              get_project_vault (Summary.id sum)
              ∷ put_project_vault (Summary.id sum) blob (RemoteProject.version v)
              ∷ ProjectsState.calls (Progress.state p)))

    awaiting-IsKept :
        (mine : Option Bytes) (synced : Str) (view : ProjectView)
        → ProjectView.payload view ≡ none
        → IsKept mine synced view
    awaiting-IsKept none synced view e = inl e
    awaiting-IsKept (some mine) synced view e = inl e

    module _ (mine : Option Bytes) (synced : Str) where
      pub keep-ShowsKept :
          (id : Str) (entry : Entry) (p : Progress)
          → IsKept mine synced (Entry.view entry)
          → ShowsKept mine synced (Progress.views p) (going (keep_entry id entry p))
      unfolding keep_entry
      keep-ShowsKept id entry p k = (Entry.view entry ∷ [], refl, (k, tt))

      pub mark_awaiting-ShowsKept :
          (id : Str) (entry : Entry) (p : Progress)
          → ShowsKept mine synced (Progress.views p) (going (mark_awaiting id entry p))
      unfolding mark_awaiting
      mark_awaiting-ShowsKept id entry p =
          let view = record (Entry.view entry) { awaiting_key = true; payload = none } in
          (view ∷ [], refl, (awaiting-IsKept mine synced view refl, tt))
