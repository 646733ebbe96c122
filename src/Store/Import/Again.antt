-- ===== src/Store/Import/Again.antt =====
-- Importing the same hosts again changes nothing.
use wharf_tui.Base.{
  ℕ, Bool, true, false, ◌≡◌, ◌≢◌, refl, ◌∙◌, ap, sym, ◌⊎◌, inl, inr, Option, none, some, List, [],
  ◌∷◌, if◌then◌else◌, arith, Bool-cases, Option-cases, get_elem?, length,
}
use wharf_tui.Base.Int.{int_eq_refl}
use wharf_tui.Base.Text.{Str, str_eq, str_eq_refl, str_eq_iff, Unicode}
use wharf_tui.Base.Find.{IsDistinct, taken}
use wharf_tui.Base.Keyed.{
  find, find-eq-at_index, at_index, index_of, find-snoc, find-set, taken-of_index_none,
}
use wharf_tui.Store.{Host, index_by_name}
use wharf_tui.Store.Hosts.{name_key}
use wharf_tui.Store.Import.{
  skipped, strs_eq, tags_eq, is_manual, merged_host, host_eq, reimport, upsert_one, upsert_imported,
  next_id, tally,
}
use wharf_tui.Store.Import.Kept.{index_by_name-some}
use wharf_tui.Store.Import.Names.{index_by_name-eq}

strs_eq_refl : (xs : List Str) → strs_eq xs xs ≡ true
unfolding strs_eq
strs_eq_refl [] = refl
strs_eq_refl (x ∷ xs) = rw (str_eq_refl x, strs_eq_refl xs)

tags_eq_refl : (t : Option (List Str)) → tags_eq t t ≡ true
unfolding tags_eq
tags_eq_refl none = refl
tags_eq_refl (some xs) = strs_eq_refl xs

host_eq_refl : (h : Host) → host_eq h h ≡ true
unfolding host_eq
host_eq_refl h = simp (str_eq_refl, tags_eq_refl) (ground (arith, int_eq_refl (Host.port h)))

merged_host_twice :
    (w : Bool) (x in' : Host) → merged_host w (merged_host w x in') in' ≡ merged_host w x in'
unfolding merged_host
merged_host_twice w x in' = ground arith

str_ne : (s t : Str) → s ≢ t → str_eq s t ≡ false
str_ne s t n = ground (arith, str_eq_iff s t)

module _ (u : Unicode) (w : Bool) where
  -- The host that an input meets is manual, or is what a re-import would write.
  abbrev IsSettled : List Host → Host → Type 0
  IsSettled hosts in' =
      (x : Host) × (find (name_key u) hosts (name_key u in') ≡ some x)
      × ((is_manual x ≡ true) ⊎ (host_eq x (merged_host w x in') ≡ true))

  name_key-merged : (x in' : Host) → name_key u (merged_host w x in') ≡ name_key u in'
  unfolding merged_host
  name_key-merged x in' = refl

  -- An added host is what its input would write over it.
  merged_host_fresh :
      (fresh : Str) (in' : Host)
      → let stored : Host = record in' {
        id = if str_eq (Host.id in') [] then fresh else Host.id in';
      } in
        merged_host w stored in' ≡ stored
  unfolding merged_host
  merged_host_fresh fresh in' = ground arith

  -- What indexByNameIn points at is what a search finds.
  meets :
      (hosts : List Host) (in' : Host) {o : Option ℕ}
      → index_by_name u hosts (Host.name in') ≡ o
      → find (name_key u) hosts (name_key u in') ≡ at_index (name_key u) hosts o
  meets hosts in' p =
      find-eq-at_index (name_key u) hosts (name_key u in')
      ∙ ap (at_index (name_key u) hosts) (sym (index_by_name-eq u w hosts (Host.name in')) ∙ p)

  unchanged :
      (hosts : List Host) (in' : Host) (i : ℕ) (x : Host)
      → (is_manual x ≡ true) ⊎ (host_eq x (merged_host w x in') ≡ true)
      → reimport w hosts in' i (some x) ≡ (hosts, skipped)
  unfolding reimport
  unchanged hosts in' i x (inl m) = rw m
  unchanged hosts in' i x (inr q) = elim (Bool-cases (is_manual x)) [
    | inl m ↦ rw m
    | inr m ↦ rw m (rw q)
  ]

  skip_settled :
      (fresh : Str) (hosts : List Host) (in' : Host)
      → IsSettled hosts in'
      → upsert_one u w fresh hosts in' ≡ (hosts, skipped)
  unfolding upsert_one reimport
  skip_settled fresh hosts in' (x, f, s) =
      elim (Option-cases (index_by_name u hosts (Host.name in'))) [
        | inl p ↦ absurd (ground (arith, meets hosts in' p))
        | inr (i, p) ↦
            let e : get_elem? hosts i ≡ some x = sym (meets hosts in' p) ∙ f in
            rw (p, upsert_one) (rw e (unchanged hosts in' i x s))
      ]

  -- After its own turn an input is settled.
  IsSettled-reimport :
      (hosts : List Host) (in' : Host) (i : ℕ) (x : Host)
      → index_of (name_key u) hosts (name_key u in') ≡ some i
      → find (name_key u) hosts (name_key u in') ≡ some x
      → name_key u x ≡ name_key u in'
      → IsSettled (reimport w hosts in' i (some x)).0 in'
  unfolding reimport
  IsSettled-reimport hosts in' i x p f n = elim (Bool-cases (is_manual x)) [
    | inl m ↦ rw m (x, f, inl m)
    | inr m ↦ rw m (elim (Bool-cases (host_eq x (merged_host w x in'))) [
      | inl q ↦ rw q (x, f, inr q)
      | inr q ↦ rw q (
        merged_host w x in',
        find-set (name_key u) hosts (name_key u in') (name_key u in') i (merged_host w x in') p
              (name_key-merged x in')
            ∙ rw (str_eq_refl (name_key u in')) refl,
        inr (rw (merged_host_twice w x in') (host_eq_refl (merged_host w x in'))),
      )
    ])
  ]

  IsSettled-after :
      (fresh : Str) (hosts : List Host) (in' : Host)
      → IsSettled (upsert_one u w fresh hosts in').0 in'
  unfolding upsert_one
  IsSettled-after fresh hosts in' = elim (Option-cases (index_by_name u hosts (Host.name in'))) [
    | inl p ↦
        let stored : Host = record in' {
          id = if str_eq (Host.id in') [] then fresh else Host.id in';
        } in
        rw (p, upsert_one)
          (
            stored,
            find-snoc (name_key u) hosts stored (name_key u in') (
                  taken-of_index_none (name_key u) hosts (name_key u in')
                    (sym (index_by_name-eq u w hosts (Host.name in')) ∙ p))
                ∙ rw (str_eq_refl (name_key u in')) refl,
            inr (rw (merged_host_fresh fresh in') (host_eq_refl stored)),
          )
    | inr (i, p) ↦
        let (x, e, k) = index_by_name-some u w hosts (Host.name in') i p in
        rw (p, upsert_one)
          (rw e (
            IsSettled-reimport hosts in' i x (sym (index_by_name-eq u w hosts (Host.name in')) ∙ p)
              (meets hosts in' p ∙ e) k))
  ]

  -- The turn of an input of another name leaves it so.
  IsSettled-reimport_ne :
      (hosts : List Host) (in' other : Host) (i : ℕ) (x : Host)
      → index_of (name_key u) hosts (name_key u other) ≡ some i
      → name_key u in' ≢ name_key u other
      → IsSettled hosts in'
      → IsSettled (reimport w hosts other i (some x)).0 in'
  unfolding reimport merged_host
  IsSettled-reimport_ne hosts in' other i x p n (y, f, s) = elim (Bool-cases (is_manual x)) [
    | inl m ↦ rw m (y, f, s)
    | inr m ↦ rw m (elim (Bool-cases (host_eq x (merged_host w x other))) [
      | inl q ↦ rw q (y, f, s)
      | inr q ↦ rw q (
        y,
        find-set (name_key u) hosts (name_key u other) (name_key u in') i (merged_host w x other) p
              (name_key-merged x other)
            ∙ rw (str_ne (name_key u other) (name_key u in') (λ t. n (sym t))) f,
        s,
      )
    ])
  ]

  IsSettled-keep :
      (fresh : Str) (hosts : List Host) (in' other : Host)
      → name_key u in' ≢ name_key u other
      → IsSettled hosts in'
      → IsSettled (upsert_one u w fresh hosts other).0 in'
  unfolding upsert_one
  IsSettled-keep fresh hosts in' other n s =
      elim (Option-cases (index_by_name u hosts (Host.name other))) [
        | inl p ↦
            rw (p, upsert_one)
              (
                s.0,
                find-snoc (name_key u) hosts
                      (record other {
                        id = if str_eq (Host.id other) [] then fresh else Host.id other;
                      })
                      (name_key u in')
                      (taken-of_index_none (name_key u) hosts (name_key u other)
                        (sym (index_by_name-eq u w hosts (Host.name other)) ∙ p))
                    ∙ rw (str_ne (name_key u other) (name_key u in') (λ t. n (sym t))) s.1,
                s.2,
              )
        | inr (i, p) ↦
            let (x, e, k) = index_by_name-some u w hosts (Host.name other) i p in
            rw (p, upsert_one)
              (rw e (
                IsSettled-reimport_ne hosts in' other i x
                  (sym (index_by_name-eq u w hosts (Host.name other)) ∙ p) n s))
      ]

  -- Every input is settled.
  abbrev pub AllSettled : List Host → List Host → Type 0
  AllSettled hosts [] = Unit
  AllSettled hosts (in' ∷ ins) = IsSettled hosts in' × AllSettled hosts ins

  IsSettled-run :
      (new_id : ℕ → Str) (ins : List Host) (n : ℕ) (hosts : List Host) (in' : Host)
      → taken (name_key u) (name_key u in') ins ≡ false
      → IsSettled hosts in'
      → IsSettled (upsert_imported u w new_id n hosts ins).0 in'
  unfolding upsert_imported taken
  IsSettled-run new_id [] n hosts in' t s = s
  IsSettled-run new_id (other ∷ ins) n hosts in' t s =
      IsSettled-run new_id ins _ (upsert_one u w (new_id n) hosts other).0 in' (ground arith) (
        IsSettled-keep (new_id n) hosts in' other
          (λ e. absurd (ground (arith, str_eq_iff (name_key u other) (name_key u in')))) s)

  AllSettled-run :
      (new_id : ℕ → Str) (ins : List Host) (n : ℕ) (hosts : List Host)
      → IsDistinct (name_key u) ins
      → AllSettled (upsert_imported u w new_id n hosts ins).0 ins
  unfolding upsert_imported
  AllSettled-run new_id [] n hosts d = tt
  AllSettled-run new_id (in' ∷ ins) n hosts d = (
    IsSettled-run new_id ins _ (upsert_one u w (new_id n) hosts in').0 in' d.0
        (IsSettled-after (new_id n) hosts in'),
    AllSettled-run new_id ins _ (upsert_one u w (new_id n) hosts in').0 d.1,
  )

  skip_all :
      (new_id : ℕ → Str) (ins : List Host) (n : ℕ) (hosts : List Host)
      → AllSettled hosts ins
      → upsert_imported u w new_id n hosts ins
        ≡ (hosts, record { num_added = 0; num_updated = 0; num_skipped = length ins })
  unfolding upsert_imported
  skip_all new_id [] n hosts a = refl
  skip_all new_id (in' ∷ ins) n hosts a =
      rw (skip_settled (new_id n) hosts in' a.0, skip_all new_id ins n hosts a.1, tally, next_id)
        (ground arith)

  -- Importing again what was just imported, with no two inputs of one folded name, skips every
  -- host and changes nothing.
  pub upsert_imported_again :
      (new_id more_id : ℕ → Str) (ins : List Host) (n m : ℕ) (hosts : List Host)
      → IsDistinct (name_key u) ins
      → let hosts' = (upsert_imported u w new_id n hosts ins).0 in
        upsert_imported u w more_id m hosts' ins
        ≡ (hosts', record { num_added = 0; num_updated = 0; num_skipped = length ins })
  upsert_imported_again new_id more_id ins n m hosts d =
      skip_all more_id ins m (upsert_imported u w new_id n hosts ins).0
        (AllSettled-run new_id ins n hosts d)
