-- ===== src/Store/Import.antt =====
-- internal/store/store.go, upsertImported: merging imported hosts into the list.
pub mod Kept
pub mod Names
pub mod Again
mod Tests
use wharf_tui.Base.{
  ℕ, ◌+◌, Bool, true, false, ◌&&◌, Option, none, some, List, [], ◌∷◌, ◌++◌, if◌then◌else◌, ◌==◌,
  get_elem?, set, zero, suc, ◌≡◌, refl, arith, not,
}
use wharf_tui.Base.Int.{ℤ, pos, negsuc, int_eq}
use wharf_tui.Base.Text.{Str, codes, str_eq, Unicode}
use wharf_tui.Base.Find.{index_where}
use wharf_tui.Store.{Host, index_by_name}

unfoldable pub strs_eq : List Str → List Str → Bool
strs_eq [] [] = true
strs_eq [] (_ ∷ _) = false
strs_eq (_ ∷ _) [] = false
strs_eq (x ∷ xs) (y ∷ ys) = str_eq x y && strs_eq xs ys

unfoldable pub tags_eq : Option (List Str) → Option (List Str) → Bool
unfolding strs_eq
tags_eq none none = true
tags_eq none (some _) = false
tags_eq (some _) none = false
tags_eq (some xs) (some ys) = strs_eq xs ys

-- reflect.DeepEqual on two hosts: a nil and an empty slice of tags differ.
unfoldable pub host_eq : Host → Host → Bool
unfolding tags_eq
host_eq a b =
    str_eq (Host.id a) (Host.id b)
    && str_eq (Host.name a) (Host.name b)
    && str_eq (Host.user a) (Host.user b)
    && str_eq (Host.addr a) (Host.addr b)
    && int_eq (Host.port a) (Host.port b)
    && tags_eq (Host.tags a) (Host.tags b)
    && str_eq (Host.key_path a) (Host.key_path b)
    && str_eq (Host.key_id a) (Host.key_id b)
    && str_eq (Host.auth_method a) (Host.auth_method b)
    && str_eq (Host.password a) (Host.password b)
    && str_eq (Host.source a) (Host.source b)
    && (Host.last_seen a == Host.last_seen b)

-- What a re-import writes over `existing`.
unfoldable pub merged_host : Bool → Host → Host → Host
merged_host with_secrets existing in' = record in' {
  id = Host.id existing;
  last_seen = Host.last_seen existing;
  key_id = if str_eq (Host.key_id in') [] then Host.key_id existing else Host.key_id in';
  auth_method = if with_secrets then Host.auth_method in' else Host.auth_method existing;
  password =
      if with_secrets
      then (if str_eq (Host.password in') [] then Host.password existing else Host.password in')
      else Host.password existing;
}

pub data Outcome : Type 0 where
  added updated skipped : Outcome

unfoldable pub is_manual : Host → Bool
is_manual h = str_eq (Host.source h) (codes "manual")

-- The body of the loop for a host that is there, at index `i`.
unfoldable pub reimport : Bool → List Host → Host → ℕ → Option Host → List Host × Outcome
unfolding is_manual
reimport with_secrets hosts in' i none = (hosts, skipped)
reimport with_secrets hosts in' i (some existing) =
    let merged = merged_host with_secrets existing in' in
    if is_manual existing
    then (hosts, skipped)
    else if host_eq existing merged
    then (hosts, skipped)
    else (set hosts i merged, updated)

-- What upsertImported returns.
pub record Counts : Type 0 where
  pub num_added : ℕ
  pub num_updated : ℕ
  pub num_skipped : ℕ

unfoldable pub tally : Outcome → Counts → Counts
tally added c = record c { num_added = Counts.num_added c + 1 }
tally updated c = record c { num_updated = Counts.num_updated c + 1 }
tally skipped c = record c { num_skipped = Counts.num_skipped c + 1 }

-- The number of the next ID, once the body has run.
unfoldable pub next_id : Outcome → Host → ℕ → ℕ
next_id added in' n = if str_eq (Host.id in') [] then n + 1 else n
next_id updated in' n = n
next_id skipped in' n = n

module _ (u : Unicode) (with_secrets : Bool) where
  -- The body of the loop; `fresh` is what newID returns, if it is called. An index that was found
  -- is in range.
  unfoldable pub upsert_one : Str → List Host → Host → List Host × Outcome
  unfolding reimport
  upsert_one fresh hosts in' = elim (index_by_name u hosts (Host.name in')) [
    | none ↦ (
      hosts ++ (record in' { id = if str_eq (Host.id in') [] then fresh else Host.id in' } ∷ []),
      added,
    )
    | some i ↦ reimport with_secrets hosts in' i (get_elem? hosts i)
  ]

  -- upsertImported; `new_id n` is the n-th ID that newID returns.
  unfoldable pub upsert_imported : (ℕ → Str) → ℕ → List Host → List Host → List Host × Counts
  unfolding tally next_id
  upsert_imported new_id n hosts [] =
      (hosts, record { num_added = 0; num_updated = 0; num_skipped = 0 })
  upsert_imported new_id n hosts (in' ∷ ins) =
      let (hosts', o) = upsert_one (new_id n) hosts in' in
      let (hosts'', c) = upsert_imported new_id (next_id o in' n) hosts' ins in (hosts'', tally o c)
