-- ===== src/Store/Merge/Ids.antt =====
-- Merge keeps IDs apart: an entry whose ID is taken gets a new one.
use wharf_tui.Base.{
  ℕ, ◌+◌, ◌≤◌, Bool, false, ◌≡◌, ◌≢◌, refl, ◌∙◌, sym, inl, inr, List, [], ◌∷◌, ◌++◌, arith,
  Bool-cases, ◌||◌,
}
use wharf_tui.Base.Text.{Str, str_eq, str_eq_iff, Unicode}
use wharf_tui.Base.Find.{taken, taken-append, IsDistinct, IsDistinct-snoc, All}
use wharf_tui.Store.{Host, VaultKey, index_by_id, index_key_by_id}
use wharf_tui.Store.Document.{Document}
use wharf_tui.Store.Merge.{
  Rebind, KeyState, HostState, is_some, skip_key, carry_key, merge_key, merge_keys, carry_host,
  merge_host, merge_hosts, merge_documents, keys_start, hosts_start,
}
use wharf_tui.Store.Merge.Base.{
  index_key_by_id-taken, index_by_id-taken, merge_key-cases, merge_host-cases,
}

-- newID repeats no ID, and never returns one of the local vault's.
pub record IsFresh (new_id : ℕ → Str) (local : Document) : Type 0 where
  pub once : (i j : ℕ) → new_id i ≡ new_id j → i ≡ j
  pub new_to_hosts : All (λ h. (m : ℕ) → Host.id h ≢ new_id m) (Document.hosts local)
  pub new_to_keys : All (λ k. (m : ℕ) → VaultKey.id k ≢ new_id m) (Document.keys local)

-- IDs are apart, and none is one that newID has yet to return.
record HasRoom {ℓ} {A : Type ℓ} (new_id : ℕ → Str) (id : A → Str) (next : ℕ) (xs : List A)
    : Type 0 where
  apart : IsDistinct id xs
  room : (m : ℕ) → next ≤ m → taken id (new_id m) xs ≡ false

module _ {ℓ} {A : Type ℓ} (new_id : ℕ → Str) (once : (i j : ℕ) → new_id i ≡ new_id j → i ≡ j)
    (id : A → Str) where
  HasRoom-renew :
      (next : ℕ) (xs : List A) (x : A)
      → id x ≡ new_id next
      → HasRoom new_id id next xs
      → HasRoom new_id id (next + 1) (xs ++ (x ∷ []))
  unfolding taken
  HasRoom-renew next xs x e r = record {
    apart = IsDistinct-snoc id xs x (rw e (r.room next (omega arith))) r.apart;
    room = λ m h.
        rw (taken-append id (new_id m) xs (x ∷ []), r.room m (omega arith))
          (ground
            (arith, str_eq_iff (id x) (new_id m), λ (q : new_id next ≡ new_id m). once next m q));
  }

  HasRoom-keep :
      (next : ℕ) (xs : List A) (x : A)
      → ((m : ℕ) → id x ≢ new_id m)
      → taken id (id x) xs ≡ false
      → HasRoom new_id id next xs
      → HasRoom new_id id next (xs ++ (x ∷ []))
  unfolding taken
  HasRoom-keep next xs x n t r = record {
    apart = IsDistinct-snoc id xs x t r.apart;
    room = λ m h.
        rw (taken-append id (new_id m) xs (x ∷ []), r.room m h)
          (ground (arith, str_eq_iff (id x) (new_id m), n m));
  }

module _ (u : Unicode) (new_id : ℕ → Str) (once : (i j : ℕ) → new_id i ≡ new_id j → i ≡ j) where
  carry_key-HasRoom :
      (s : KeyState) (k : VaultKey)
      → ((m : ℕ) → VaultKey.id k ≢ new_id m)
      → HasRoom new_id VaultKey.id (KeyState.next s) (KeyState.keys s)
      → let s' = carry_key u new_id s k in
        HasRoom new_id VaultKey.id (KeyState.next s') (KeyState.keys s')
  unfolding carry_key
  carry_key-HasRoom s k n r = elim (Bool-cases renew) [
    | inl e ↦
        rw e (HasRoom-renew new_id once VaultKey.id (KeyState.next s) (KeyState.keys s) _ refl r)
    | inr e ↦ rw e (
        HasRoom-keep new_id once VaultKey.id (KeyState.next s) (KeyState.keys s) _ n
          (sym (index_key_by_id-taken (KeyState.keys s) (VaultKey.id k)) ∙ ground arith) r)
  ]
    where
      renew : Bool
      renew =
          str_eq (VaultKey.id k) [] || is_some (index_key_by_id (KeyState.keys s) (VaultKey.id k))

  merge_keys-HasRoom :
      (ks : List VaultKey) (s : KeyState)
      → All (λ k. (m : ℕ) → VaultKey.id k ≢ new_id m) ks
      → HasRoom new_id VaultKey.id (KeyState.next s) (KeyState.keys s)
      → let s' = merge_keys u new_id s ks in
        HasRoom new_id VaultKey.id (KeyState.next s') (KeyState.keys s')
  unfolding merge_keys
  merge_keys-HasRoom [] s n r = r
  merge_keys-HasRoom (k ∷ ks) s n r =
      merge_keys-HasRoom ks (merge_key u new_id s k) n.1 (elim (merge_key-cases u new_id s k) [
        | inl (to, e, h, t) ↦ rw e (unfold skip_key in r)
        | inr (e, t) ↦ rw e (carry_key-HasRoom s k n.0 r)
      ])

  module _ (keys : List VaultKey) (rebind : Rebind) where
    carry_host-HasRoom :
        (s : HostState) (h : Host)
        → ((m : ℕ) → Host.id h ≢ new_id m)
        → HasRoom new_id Host.id (HostState.next s) (HostState.hosts s)
        → let s' = carry_host u new_id keys rebind s h in
          HasRoom new_id Host.id (HostState.next s') (HostState.hosts s')
    unfolding carry_host
    carry_host-HasRoom s h n r = elim (Bool-cases renew) [
      | inl e ↦
          rw e (HasRoom-renew new_id once Host.id (HostState.next s) (HostState.hosts s) _ refl r)
      | inr e ↦ rw e (
          HasRoom-keep new_id once Host.id (HostState.next s) (HostState.hosts s) _ n
            (sym (index_by_id-taken (HostState.hosts s) (Host.id h)) ∙ ground arith) r)
    ]
      where
        renew : Bool
        renew = str_eq (Host.id h) [] || is_some (index_by_id (HostState.hosts s) (Host.id h))

    merge_hosts-HasRoom :
        (hs : List Host) (s : HostState)
        → All (λ h. (m : ℕ) → Host.id h ≢ new_id m) hs
        → HasRoom new_id Host.id (HostState.next s) (HostState.hosts s)
        → let s' = merge_hosts u new_id keys rebind s hs in
          HasRoom new_id Host.id (HostState.next s') (HostState.hosts s')
    unfolding merge_hosts
    merge_hosts-HasRoom [] s n r = r
    merge_hosts-HasRoom (h ∷ hs) s n r =
        merge_hosts-HasRoom hs (merge_host u new_id keys rebind s h) n.1
          (elim (merge_host-cases u new_id keys rebind s h) [
            | inl (e, t) ↦ rw e r
            | inr (e, t) ↦ rw e (carry_host-HasRoom s h n.0 r)
          ])

-- Merge keeps IDs apart that are apart in the account's vault, whatever the local vault repeats,
-- where newID repeats none and returns none of either vault.
pub merge_documents-ids :
    (u : Unicode) (new_id : ℕ → Str) (base local : Document)
    → IsFresh new_id local
    → ((m : ℕ) → taken Host.id (new_id m) (Document.hosts base) ≡ false)
    → ((m : ℕ) → taken VaultKey.id (new_id m) (Document.keys base) ≡ false)
    → IsDistinct Host.id (Document.hosts base)
    → IsDistinct VaultKey.id (Document.keys base)
    → let merged = (merge_documents u new_id base local).0 in
      IsDistinct Host.id (Document.hosts merged) × IsDistinct VaultKey.id (Document.keys merged)
unfolding merge_documents
merge_documents-ids u new_id base local f rh rk dh dk =
    let ks = merge_keys u new_id (keys_start base) (Document.keys local) in
    let hosts_room =
      merge_hosts-HasRoom u new_id f.once (KeyState.keys ks) (KeyState.rebind ks)
        (Document.hosts local) (hosts_start base (KeyState.next ks)) f.new_to_hosts
        (record { apart = dh; room = λ m _. rh m }) in
    let keys_room =
      merge_keys-HasRoom u new_id f.once (Document.keys local) (keys_start base) f.new_to_keys
        (record { apart = dk; room = λ m _. rk m }) in
    (hosts_room.apart, keys_room.apart)
