-- ===== src/Manager/Order.antt =====
-- The map of the manager and its order of IDs together are one list of entries: a new ID goes to the
-- end, an ID that is there keeps its place, and only the entry that points at what ended goes.
use wharf_tui.Base.{
  ℕ, Bool, ◌≡◌, refl, sym, ◌∙◌, ap, subst, none, some, List, [], ◌∷◌, map, Bool-cases, inl, inr,
}
use wharf_tui.Base.Text.{Str, str_eq, str_eq_refl, str_eq→eq}
use wharf_tui.Base.Dict.{
  Dict, lookup, lookup-insert_same, lookup-insert_other, lookup-erase_same, lookup-erase_other,
}
use wharf_tui.Manager.{
  Registry, Manager, cut, points_at, add_entry, drop_entry, collect, listed, get, list, get_forward,
  forwards, ManagerCall, dialed, ended, forward_started, forward_ended, keepalive_set,
  use_agent_set, serve, serve_all, new_manager,
}
use wharf_tui.Manager.Entries.{
  place, unplace, ids, IsDistinct, lookup-place_same, lookup-place_other, ids-place,
  place-IsDistinct, ids-erase, erase-IsDistinct,
}

-- The registry holds the entries of d, and its order is theirs.
pub record Follows (m : Registry) (d : Dict ℕ) : Type 0 where
  is_distinct : IsDistinct d
  in_order : Registry.order m ≡ ids d
  same_entries : (i : Str) → lookup i (Registry.entries m) ≡ lookup i d

add_entry-Follows :
    (id : Str) (s : ℕ) (m : Registry) (d : Dict ℕ)
    → Follows m d
    → Follows (add_entry id s m) (place id s d)
unfolding add_entry
add_entry-Follows id s m d h = record {
  is_distinct = place-IsDistinct id s d (Follows.is_distinct h);
  in_order = rw (Follows.same_entries h id, Follows.in_order h) (sym (ids-place id s d));
  same_entries = λ i. elim (Bool-cases (str_eq id i)) [
    | inl e ↦
        rw (sym (str_eq→eq id i e))
          (lookup-insert_same id s (Registry.entries m) ∙ sym (lookup-place_same id s d))
    | inr e ↦
        lookup-insert_other id i s (Registry.entries m) e
        ∙ Follows.same_entries h i
        ∙ sym (lookup-place_other id i s d e)
  ];
}

drop_entry-Follows :
    (id : Str) (s : ℕ) (m : Registry) (d : Dict ℕ)
    → Follows m d
    → Follows (drop_entry id s m) (unplace id s d)
unfolding drop_entry unplace
drop_entry-Follows id s m d h = elim (Bool-cases (points_at (lookup id d) s)) [
  | inr e ↦ rw (drop_entry, unplace, Follows.same_entries h id, e) h
  | inl e ↦
      rw (drop_entry, unplace, Follows.same_entries h id, e)
        (record {
          is_distinct = erase-IsDistinct id d (Follows.is_distinct h);
          in_order =
              ap (cut id) (Follows.in_order h) ∙ sym (ids-erase id d (Follows.is_distinct h));
          same_entries = λ i. elim (Bool-cases (str_eq id i)) [
            | inl f ↦
                rw (sym (str_eq→eq id i f))
                  (lookup-erase_same id (Registry.entries m) ∙ sym (lookup-erase_same id d))
            | inr f ↦
                lookup-erase_other id i (Registry.entries m) f
                ∙ Follows.same_entries h i
                ∙ sym (lookup-erase_other id i d f)
          ];
        })
]

lookup-first : (j : Str) (r : ℕ) (d : Dict ℕ) → lookup j ((j, r) ∷ d) ≡ some r
unfolding lookup
lookup-first j r d = simp (lookup, str_eq_refl j) refl

lookup-later :
    (j i : Str) (r s : ℕ) (d : Dict ℕ)
    → lookup j d ≡ none
    → lookup i d ≡ some s
    → lookup i ((j, r) ∷ d) ≡ some s
unfolding lookup
lookup-later j i r s d absent found = elim (Bool-cases (str_eq j i)) [
  | inl e ↦
      let none_there : lookup i d ≡ none =
        subst (λ k. lookup k d ≡ none) (str_eq→eq j i e) absent in
      cc
  | inr e ↦ simp (lookup, e) found
]

collect-found :
    (id : Str) (s : ℕ) (later : List Str) (entries : Dict ℕ)
    → lookup id entries ≡ some s
    → collect (id ∷ later) entries ≡ s ∷ collect later entries
unfolding collect
collect-found id s later entries e = simp (collect, e) refl

-- The list of references is read off the order.
collect-lookup :
    (d : Dict ℕ) (entries : Dict ℕ)
    → IsDistinct d
    → ((i : Str) (s : ℕ) → lookup i d ≡ some s → lookup i entries ≡ some s)
    → collect (ids d) entries ≡ map (λ e. e.1) d
unfolding collect
collect-lookup [] entries distinct agree = refl
collect-lookup ((j, r) ∷ d) entries distinct agree =
    let first = agree j r (lookup-first j r d) in
    let rest =
      collect-lookup d entries distinct.1
        (λ i s e. agree i s (lookup-later j i r s d distinct.0 e)) in
    collect-found j r (ids d) entries first ∙ ap (λ rs. r ∷ rs) rest

listed-Follows : (m : Registry) (d : Dict ℕ) → Follows m d → listed m ≡ map (λ e. e.1) d
listed-Follows m d h = rw (Follows.in_order h) (
    collect-lookup d (Registry.entries m) (Follows.is_distinct h)
      (λ i s e. Follows.same_entries h i ∙ e))

-- What is expected of the sessions, and of the forwards, after a call.
unfoldable pub expected_sessions : ManagerCall → Dict ℕ → Dict ℕ
expected_sessions (dialed id s) d = place id s d
expected_sessions (ended id s) d = unplace id s d
expected_sessions (forward_started id f) d = d
expected_sessions (forward_ended id f) d = d
expected_sessions (keepalive_set on) d = d
expected_sessions (use_agent_set on) d = d

unfoldable pub expected_forwards : ManagerCall → Dict ℕ → Dict ℕ
expected_forwards (dialed id s) d = d
expected_forwards (ended id s) d = d
expected_forwards (forward_started id f) d = place id f d
expected_forwards (forward_ended id f) d = unplace id f d
expected_forwards (keepalive_set on) d = d
expected_forwards (use_agent_set on) d = d

unfoldable pub expected : (ManagerCall → Dict ℕ → Dict ℕ) → List ManagerCall → Dict ℕ → Dict ℕ
expected f [] d = d
expected f (c ∷ cs) d = expected f cs (f c d)

serve-Follows :
    (c : ManagerCall) (m : Manager) (ss fs : Dict ℕ)
    → Follows (Manager.sessions m) ss
    → Follows (Manager.forwards m) fs
    → Follows (Manager.sessions (serve c m)) (expected_sessions c ss)
      × Follows (Manager.forwards (serve c m)) (expected_forwards c fs)
unfolding serve expected_sessions expected_forwards
serve-Follows (dialed id s) m ss fs h k = (add_entry-Follows id s (Manager.sessions m) ss h, k)
serve-Follows (ended id s) m ss fs h k = (drop_entry-Follows id s (Manager.sessions m) ss h, k)
serve-Follows (forward_started id f) m ss fs h k =
    (h, add_entry-Follows id f (Manager.forwards m) fs k)
serve-Follows (forward_ended id f) m ss fs h k =
    (h, drop_entry-Follows id f (Manager.forwards m) fs k)
serve-Follows (keepalive_set on) m ss fs h k = (h, k)
serve-Follows (use_agent_set on) m ss fs h k = (h, k)

serve_all-Follows :
    (cs : List ManagerCall) (m : Manager) (ss fs : Dict ℕ)
    → Follows (Manager.sessions m) ss
    → Follows (Manager.forwards m) fs
    → Follows (Manager.sessions (serve_all cs m)) (expected expected_sessions cs ss)
      × Follows (Manager.forwards (serve_all cs m)) (expected expected_forwards cs fs)
unfolding serve_all expected
serve_all-Follows [] m ss fs h k = (h, k)
serve_all-Follows (c ∷ cs) m ss fs h k =
    let after = serve-Follows c m ss fs h k in
    serve_all-Follows cs (serve c m) (expected_sessions c ss) (expected_forwards c fs) after.0
      after.1

-- The lookup and the list of the sessions, and those of the forwards, are those of the entries.
abbrev pub Shows : Manager → Dict ℕ → Dict ℕ → Type 0
Shows m ss fs =
    (list m ≡ map (λ e. e.1) ss)
    × (forwards m ≡ map (λ e. e.1) fs)
    × ((id : Str) → (get id m ≡ lookup id ss) × (get_forward id m ≡ lookup id fs))

-- After any calls on a new manager, List and Get, and Forwards and GetForward, show one list of
-- entries each, into which the calls alone lead: a new ID goes to the end, an ID that is there keeps
-- its place and gets the new reference, and an end takes the entry away only if it still points at
-- what ended.
pub serve_all-Shows :
    (keepalive : Bool) (cs : List ManagerCall)
    → Shows
        (serve_all cs (new_manager keepalive))
        (expected expected_sessions cs [])
        (expected expected_forwards cs [])
unfolding lookup
serve_all-Shows keepalive cs =
    let fresh : Follows (record { entries = []; order = [] }) [] = record {
      is_distinct = tt;
      in_order = refl;
      same_entries = λ i. refl;
    } in
    let after = serve_all-Follows cs (new_manager keepalive) [] [] fresh fresh in
    let m = serve_all cs (new_manager keepalive) in
    (
      listed-Follows (Manager.sessions m) (expected expected_sessions cs []) after.0,
      listed-Follows (Manager.forwards m) (expected expected_forwards cs []) after.1,
      λ id. (Follows.same_entries after.0 id, Follows.same_entries after.1 id),
    )
