-- ===== src/Manager.antt =====
-- internal/sshx/manager.go: the live sessions and the live port forwards of the manager. A pointer to
-- a session or a forward is a number; a Go map is a dictionary, beside which the manager keeps the
-- order in which the IDs came. Each method holds the manager's lock, so a run is a list of calls.
pub mod Entries
pub mod Order
mod Tests
use wharf_tui.Base.{
  ℕ, Bool, true, false, Option, none, some, List, [], ◌∷◌, ◌++◌, if◌then◌else◌, ◌==◌,
}
use wharf_tui.Base.Text.{Str, str_eq}
use wharf_tui.Base.Dict.{Dict, lookup, insert, erase}

-- A map with the order of its IDs: sessions and order, forwards and forwardOrder.
pub record Registry : Type 0 where
  pub entries : Dict ℕ
  pub order : List Str

pub record Manager : Type 0 where
  pub keepalive : Bool
  pub use_agent : Bool
  pub sessions : Registry
  pub forwards : Registry

-- NewManager, but the known-hosts path
abbrev pub new_manager : Bool → Manager
new_manager keepalive = record {
  keepalive = keepalive;
  use_agent = true;
  sessions = record { entries = []; order = [] };
  forwards = record { entries = []; order = [] };
}

-- The loop of remove: the first occurrence is cut out.
unfoldable pub cut : Str → List Str → List Str
cut id [] = []
cut id (x ∷ xs) = let rest = cut id xs in if str_eq x id then xs else x ∷ rest

-- m.sessions[id] == s
unfoldable pub points_at : Option ℕ → ℕ → Bool
points_at none s = false
points_at (some r) s = r == s

abbrev pub has_entry : Option ℕ → Bool
has_entry none = false
has_entry (some r) = true

unfoldable pub add_entry : Str → ℕ → Registry → Registry
add_entry id s m = record {
  entries = insert id s (Registry.entries m);
  order =
      if has_entry (lookup id (Registry.entries m))
      then Registry.order m
      else Registry.order m ++ (id ∷ []);
}

unfoldable pub drop_entry : Str → ℕ → Registry → Registry
drop_entry id s m =
    if points_at (lookup id (Registry.entries m)) s
    then record { entries = erase id (Registry.entries m); order = cut id (Registry.order m) }
    else m

-- The loop of List.
unfoldable pub collect : List Str → Dict ℕ → List ℕ
collect [] entries = []
collect (id ∷ ids) entries =
    let rest = collect ids entries in elim (lookup id entries) [ none ↦ rest | some s ↦ s ∷ rest ]

abbrev pub listed : Registry → List ℕ
listed m = collect (Registry.order m) (Registry.entries m)

-- register
abbrev pub register : Str → ℕ → Manager → Manager
register id s m = record m { sessions = add_entry id s (Manager.sessions m) }

-- remove
abbrev pub remove : Str → ℕ → Manager → Manager
remove id s m = record m { sessions = drop_entry id s (Manager.sessions m) }

-- Get
abbrev pub get : Str → Manager → Option ℕ
get id m = lookup id (Registry.entries (Manager.sessions m))

-- List
abbrev pub list : Manager → List ℕ
list m = listed (Manager.sessions m)

-- registerForward
abbrev pub register_forward : Str → ℕ → Manager → Manager
register_forward id f m = record m { forwards = add_entry id f (Manager.forwards m) }

-- removeForward
abbrev pub remove_forward : Str → ℕ → Manager → Manager
remove_forward id f m = record m { forwards = drop_entry id f (Manager.forwards m) }

-- GetForward
abbrev pub get_forward : Str → Manager → Option ℕ
get_forward id m = lookup id (Registry.entries (Manager.forwards m))

-- Forwards
abbrev pub forwards : Manager → List ℕ
forwards m = listed (Manager.forwards m)

-- A call that changes the manager, with the host ID of a session or the ID of a forward.
pub data ManagerCall : Type 0 where
  dialed ended forward_started forward_ended : Str → ℕ → ManagerCall
  keepalive_set use_agent_set : Bool → ManagerCall

unfoldable pub serve : ManagerCall → Manager → Manager
serve (dialed id s) m = register id s m
serve (ended id s) m = remove id s m
serve (forward_started id f) m = register_forward id f m
serve (forward_ended id f) m = remove_forward id f m
serve (keepalive_set on) m = record m { keepalive = on }
serve (use_agent_set on) m = record m { use_agent = on }

unfoldable pub serve_all : List ManagerCall → Manager → Manager
serve_all [] m = m
serve_all (c ∷ cs) m = serve_all cs (serve c m)
