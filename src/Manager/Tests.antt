-- ===== src/Manager/Tests.antt =====
-- Two dials of one host, and a forward.
use wharf_tui.Base.{true, ◌≡◌, refl, some, List, [], ◌∷◌}
use wharf_tui.Base.Text.{Str, codes, str_eq}
use wharf_tui.Base.Dict.{lookup, insert, erase}
use wharf_tui.Manager.{
  ManagerCall, new_manager, list, get, forwards, dialed, ended, forward_started, add_entry,
  drop_entry, serve, serve_all, collect, cut, points_at,
}
use wharf_tui.Manager.Entries.{place, unplace}
use wharf_tui.Manager.Order.{expected, expected_sessions, expected_forwards, Shows, serve_all-Shows}

abbrev web : Str
web = codes "web"

abbrev db : Str
db = codes "db"

-- The first session of web ends after the host was dialed again.
abbrev calls : List ManagerCall
calls =
    dialed web 1
    ∷ dialed db 2
    ∷ dialed web 3
    ∷ forward_started web 4
    ∷ ended web 1
    ∷ ended db 2
    ∷ []

-- The second session of web stays.
calls_run :
    let m = serve_all calls (new_manager true) in
    (list m ≡ 3 ∷ []) × (get web m ≡ some 3) × (forwards m ≡ 4 ∷ [])
unfolding serve_all serve add_entry drop_entry collect cut points_at lookup insert erase str_eq
calls_run = (refl, refl, refl)

serve_all-Shows_example : Shows (serve_all calls (new_manager true)) ((web, 3) ∷ []) ((web, 4) ∷ [])
unfolding expected expected_sessions expected_forwards place unplace lookup erase points_at str_eq
serve_all-Shows_example = serve_all-Shows true calls
