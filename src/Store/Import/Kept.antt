-- ===== src/Store/Import/Kept.antt =====
-- What an import leaves of the hosts that were there.
use wharf_tui.Base.{
  ℕ, zero, suc, ◌+◌, Bool, true, false, ◌≡◌, refl, ◌≢◌, ◌∙◌, ap, sym, inl, inr, some, List, [], ◌∷◌,
  ◌++◌, arith, Bool-cases, Option-cases, get_elem?, set, length, length-append, length-set,
}
use wharf_tui.Base.Text.{Str, str_eq, str_eq→eq, str_eq_iff, Unicode}
use wharf_tui.Base.Find.{index_where-some}
use wharf_tui.Store.{Host, fold, index_by_name}
use wharf_tui.Store.Import.{
  Counts, Outcome, added, updated, skipped, is_manual, merged_host, host_eq, reimport, upsert_one,
  upsert_imported, tally, next_id,
}

module _ (u : Unicode) (with_secrets : Bool) where
  -- `y` stands where `x` stood before the import: the same ID, time and folded name; a manual host
  -- is untouched; a password or a key binding is not lost, and without secrets in the source the
  -- password and the auth method are untouched.
  pub record IsKept (x y : Host) : Type 0 where
    pub same_id : Host.id y ≡ Host.id x
    pub same_seen : Host.last_seen y ≡ Host.last_seen x
    pub same_name : fold u (Host.name y) ≡ fold u (Host.name x)
    pub manual_kept : is_manual x ≡ true → y ≡ x
    pub password_kept : Host.password x ≢ [] → Host.password y ≢ []
    pub binding_kept : Host.key_id x ≢ [] → Host.key_id y ≢ []
    pub secrets_kept :
        with_secrets ≡ false
        → (Host.password y ≡ Host.password x) × (Host.auth_method y ≡ Host.auth_method x)

  IsKept-refl : (x : Host) → IsKept x x
  IsKept-refl x = record {
    same_id = refl;
    same_seen = refl;
    same_name = refl;
    manual_kept = λ _. refl;
    password_kept = λ p. p;
    binding_kept = λ p. p;
    secrets_kept = λ _. (refl, refl);
  }

  IsKept-trans : {x y z : Host} → IsKept x y → IsKept y z → IsKept x z
  IsKept-trans a b = record {
    same_id = b.same_id ∙ a.same_id;
    same_seen = b.same_seen ∙ a.same_seen;
    same_name = b.same_name ∙ a.same_name;
    manual_kept = λ m. b.manual_kept (ap is_manual (a.manual_kept m) ∙ m) ∙ a.manual_kept m;
    password_kept = λ p. b.password_kept (a.password_kept p);
    binding_kept = λ p. b.binding_kept (a.binding_kept p);
    secrets_kept = λ w.
        ((b.secrets_kept w).0 ∙ (a.secrets_kept w).0, (b.secrets_kept w).1 ∙ (a.secrets_kept w).1);
  }

  IsKept-merged :
      (x in' : Host)
      → is_manual x ≡ false
      → fold u (Host.name in') ≡ fold u (Host.name x)
      → IsKept x (merged_host with_secrets x in')
  unfolding merged_host
  IsKept-merged x in' m n = record {
    same_id = refl;
    same_seen = refl;
    same_name = n;
    manual_kept = λ t. absurd (ground arith);
    password_kept = λ p q. p (ground (arith, str_eq_iff (Host.password in') []));
    binding_kept = λ p q. p (ground (arith, str_eq_iff (Host.key_id in') []));
    secrets_kept = λ w. (ground arith, ground arith);
  }

  -- The same host, or one that is kept, at every index of the old list.
  abbrev pub AllKept : List Host → List Host → Type 0
  AllKept hosts hosts' =
      (i : ℕ) (x : Host)
      → get_elem? hosts i ≡ some x
      → (y : Host) × (get_elem? hosts' i ≡ some y) × IsKept x y

  AllKept-append : (hosts more : List Host) → AllKept hosts (hosts ++ more)
  AllKept-append [] more i x h = absurd (ground arith)
  AllKept-append (h ∷ hosts) more zero x e = (x, e, IsKept-refl x)
  AllKept-append (h ∷ hosts) more (suc i) x e = AllKept-append hosts more i x e

  AllKept-set :
      (hosts : List Host) (j : ℕ) (x y : Host)
      → get_elem? hosts j ≡ some x
      → IsKept x y
      → AllKept hosts (set hosts j y)
  AllKept-set [] j x y h k i z e = absurd (ground arith)
  AllKept-set (a ∷ hosts) zero x y h k zero z e = (y, refl, let q : z ≡ x = ground arith in rw q k)
  AllKept-set (a ∷ hosts) zero x y h k (suc i) z e = (z, e, IsKept-refl z)
  AllKept-set (a ∷ hosts) (suc j) x y h k zero z e = (z, e, IsKept-refl z)
  AllKept-set (a ∷ hosts) (suc j) x y h k (suc i) z e = AllKept-set hosts j x y h k i z e

  AllKept-refl : (hosts : List Host) → AllKept hosts hosts
  AllKept-refl hosts i x e = (x, e, IsKept-refl x)

  reimport-AllKept :
      (hosts : List Host) (in' : Host) (i : ℕ) (x : Host)
      → get_elem? hosts i ≡ some x
      → fold u (Host.name in') ≡ fold u (Host.name x)
      → AllKept hosts (reimport with_secrets hosts in' i (some x)).0
  unfolding reimport
  reimport-AllKept hosts in' i x e n = elim (Bool-cases (is_manual x)) [
    | inl m ↦ rw m (AllKept-refl hosts)
    | inr m ↦ rw m (elim (Bool-cases (host_eq x (merged_host with_secrets x in'))) [
      | inl s ↦ rw s (AllKept-refl hosts)
      | inr s ↦
          rw s (AllKept-set hosts i x (merged_host with_secrets x in') e (IsKept-merged x in' m n))
    ])
  ]

  -- A hit of indexByNameIn is a host of that folded name.
  pub index_by_name-some :
      (hosts : List Host) (name : Str) (i : ℕ)
      → index_by_name u hosts name ≡ some i
      → (x : Host) × (get_elem? hosts i ≡ some x) × (fold u (Host.name x) ≡ fold u name)
  unfolding index_by_name
  index_by_name-some hosts name i p =
      let (x, e, k) =
        index_where-some (λ h. str_eq (fold u (Host.name h)) (fold u name)) hosts i p in
      (x, e, str_eq→eq _ _ k)

  upsert_one-AllKept :
      (fresh : Str) (hosts : List Host) (in' : Host)
      → AllKept hosts (upsert_one u with_secrets fresh hosts in').0
  unfolding upsert_one
  upsert_one-AllKept fresh hosts in' = elim (Option-cases (index_by_name u hosts (Host.name in'))) [
    | inl p ↦ rw (p, upsert_one) (AllKept-append hosts _)
    | inr (i, p) ↦
        let (x, e, k) = index_by_name-some hosts (Host.name in') i p in
        rw (p, upsert_one) (rw e (reimport-AllKept hosts in' i x e (sym k)))
  ]

  -- An import keeps every host that was there, at its index, in the sense of `IsKept`.
  pub upsert_imported-IsKept :
      (new_id : ℕ → Str) (ins : List Host) (n : ℕ) (hosts : List Host) (i : ℕ) (x : Host)
      → get_elem? hosts i ≡ some x
      → (y : Host) × (get_elem? (upsert_imported u with_secrets new_id n hosts ins).0 i ≡ some y)
        × IsKept x y
  unfolding upsert_imported
  upsert_imported-IsKept new_id [] n hosts i x e = AllKept-refl hosts i x e
  upsert_imported-IsKept new_id (in' ∷ ins) n hosts i x e =
      let (y, e', k) = upsert_one-AllKept (new_id n) hosts in' i x e in
      let (z, e'', l) =
        upsert_imported-IsKept new_id ins _ (upsert_one u with_secrets (new_id n) hosts in').0 i y
          e' in
      (z, e'', IsKept-trans k l)

  -- 1 for a host that was appended.
  abbrev added_count : Outcome → ℕ
  added_count added = 1
  added_count updated = 0
  added_count skipped = 0

  length-upsert_one :
      (fresh : Str) (hosts : List Host) (in' : Host)
      → let (hosts', o) = upsert_one u with_secrets fresh hosts in' in
        length hosts' ≡ length hosts + added_count o
  unfolding upsert_one
  length-upsert_one fresh hosts in' = elim (Option-cases (index_by_name u hosts (Host.name in'))) [
    | inl p ↦ rw (p, upsert_one) (length-append hosts _)
    | inr (i, p) ↦
        let (x, e, k) = index_by_name-some hosts (Host.name in') i p in
        rw (p, upsert_one)
          (rw e (ground (arith, length-set hosts i (merged_host with_secrets x in'))))
  ]

  count-tally :
      (o : Outcome) (c : Counts)
      → (Counts.num_added (tally o c)
            + Counts.num_updated (tally o c)
            + Counts.num_skipped (tally o c)
          ≡ suc (Counts.num_added c + Counts.num_updated c + Counts.num_skipped c))
        × (Counts.num_added (tally o c) ≡ added_count o + Counts.num_added c)
  unfolding tally
  count-tally added c = (omega arith, omega arith)
  count-tally updated c = (omega arith, omega arith)
  count-tally skipped c = (omega arith, omega arith)

  -- Every input is counted once, and the list grows by the hosts that are counted as added.
  pub upsert_imported_counts :
      (new_id : ℕ → Str) (ins : List Host) (n : ℕ) (hosts : List Host)
      → let (hosts', c) = upsert_imported u with_secrets new_id n hosts ins in
        (Counts.num_added c + Counts.num_updated c + Counts.num_skipped c ≡ length ins)
        × (length hosts' ≡ length hosts + Counts.num_added c)
  unfolding upsert_imported
  upsert_imported_counts new_id [] n hosts = (omega arith, omega arith)
  upsert_imported_counts new_id (in' ∷ ins) n hosts =
      let (hosts', o) = upsert_one u with_secrets (new_id n) hosts in' in
      let n' = next_id o in' n in
      let c = (upsert_imported u with_secrets new_id n' hosts' ins).1 in
      omega (
        arith,
        length-upsert_one (new_id n) hosts in',
        count-tally o c,
        upsert_imported_counts new_id ins n' hosts',
      )
