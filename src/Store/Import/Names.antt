-- ===== src/Store/Import/Names.antt =====
-- An import keeps the folded names of the hosts apart.
use wharf_tui.Base.{
  ℕ, Bool, false, ◌≡◌, refl, ◌∙◌, sym, inl, inr, some, List, [], ◌∷◌, Bool-cases, Option-cases,
}
use wharf_tui.Base.Text.{Str, Unicode}
use wharf_tui.Base.Find.{IsDistinct, IsDistinct-snoc, IsDistinct-set, remove_at, taken}
use wharf_tui.Base.Keyed.{index_of, taken-of_index_none, taken-remove_at_index}
use wharf_tui.Store.{Host, fold, index_by_name}
use wharf_tui.Store.Hosts.{name_key}
use wharf_tui.Store.Import.{is_manual, merged_host, host_eq, reimport, upsert_one, upsert_imported}
use wharf_tui.Store.Import.Kept.{index_by_name-some}

module _ (u : Unicode) (with_secrets : Bool) where
  pub index_by_name-eq :
      (hosts : List Host) (name : Str)
      → index_by_name u hosts name ≡ index_of (name_key u) hosts (fold u name)
  unfolding index_by_name
  index_by_name-eq hosts name = refl

  reimport-IsDistinct :
      (hosts : List Host) (in' : Host) (i : ℕ) (x : Host)
      → IsDistinct (name_key u) hosts
      → taken (name_key u) (name_key u in') (remove_at i hosts) ≡ false
      → IsDistinct (name_key u) (reimport with_secrets hosts in' i (some x)).0
  unfolding reimport
  reimport-IsDistinct hosts in' i x d free = elim (Bool-cases (is_manual x)) [
    | inl m ↦ rw m d
    | inr m ↦ rw m (elim (Bool-cases (host_eq x (merged_host with_secrets x in'))) [
      | inl s ↦ rw s d
      | inr s ↦ rw s (
          IsDistinct-set (name_key u) i hosts (merged_host with_secrets x in')
            (unfold merged_host in free) d)
    ])
  ]

  pub upsert_one-IsDistinct :
      (fresh : Str) (hosts : List Host) (in' : Host)
      → IsDistinct (name_key u) hosts
      → IsDistinct (name_key u) (upsert_one u with_secrets fresh hosts in').0
  unfolding upsert_one
  upsert_one-IsDistinct fresh hosts in' d =
      elim (Option-cases (index_by_name u hosts (Host.name in'))) [
        | inl p ↦
            rw (p, upsert_one)
              (IsDistinct-snoc (name_key u) hosts _
                (taken-of_index_none (name_key u) hosts (name_key u in')
                  (sym (index_by_name-eq hosts (Host.name in')) ∙ p))
                d)
        | inr (i, p) ↦
            let (x, e, k) = index_by_name-some u with_secrets hosts (Host.name in') i p in
            rw (p, upsert_one)
              (rw e (
                reimport-IsDistinct hosts in' i x d (
                  taken-remove_at_index (name_key u) hosts (name_key u in') i d
                    (sym (index_by_name-eq hosts (Host.name in')) ∙ p))))
      ]

  -- An import keeps the folded names of the hosts apart, whatever names the input repeats.
  pub upsert_imported-IsDistinct :
      (new_id : ℕ → Str) (ins : List Host) (n : ℕ) (hosts : List Host)
      → IsDistinct (name_key u) hosts
      → IsDistinct (name_key u) (upsert_imported u with_secrets new_id n hosts ins).0
  unfolding upsert_imported
  upsert_imported-IsDistinct new_id [] n hosts d = d
  upsert_imported-IsDistinct new_id (in' ∷ ins) n hosts d =
      upsert_imported-IsDistinct new_id ins _ (upsert_one u with_secrets (new_id n) hosts in').0
        (upsert_one-IsDistinct (new_id n) hosts in' d)
