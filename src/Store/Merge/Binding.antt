-- ===== src/Store/Merge/Binding.antt =====
-- The documents that Merge makes: the account's entries come first and unchanged, names stay
-- apart, the counts are right, and no carried host is bound to a key that is not there.
use wharf_tui.Base.{
  ℕ, ◌+◌, true, ◌≡◌, refl, ap₂, ◌⊎◌, inl, inr, some, List, [], ◌∷◌, ◌++◌, arith, Option-cases,
  length,
}
use wharf_tui.Base.Text.{Str, str_eq_iff, str_eq_refl, Unicode}
use wharf_tui.Base.Find.{taken, taken-append, IsDistinct, All, All-append}
use wharf_tui.Store.{Host, VaultKey}
use wharf_tui.Store.Hosts.{name_key}
use wharf_tui.Store.Keys.{key_name, IsBound}
use wharf_tui.Store.Document.{Document, schema_version}
use wharf_tui.Store.Merge.{
  Rebind, MergeResult, KeyState, rebind_to, rebound, skip_key, carry_key, merge_key, merge_keys,
  merge_documents, keys_start, hosts_start,
}
use wharf_tui.Store.Merge.Base.{
  index_key_by_id-taken, merge_key-cases, merge_keys_lem, merge_keys-IsDistinct, IsRebound,
  merge_hosts_lem, merge_hosts-IsDistinct,
}

-- Every target of `rebind` is the ID of a key.
abbrev pub HasTargets : List VaultKey → Rebind → Type 0
HasTargets keys = All (λ p. taken VaultKey.id p.1 keys ≡ true)

taken_mono :
    (keys more : List VaultKey) (k : Str)
    → taken VaultKey.id k keys ≡ true
    → taken VaultKey.id k (keys ++ more) ≡ true
taken_mono keys more k h = rw (taken-append VaultKey.id k keys more, h) refl

HasTargets-mono :
    (keys more : List VaultKey) (r : Rebind) → HasTargets keys r → HasTargets (keys ++ more) r
HasTargets-mono keys more [] t = tt
HasTargets-mono keys more ((a, b) ∷ r) t =
    (taken_mono keys more b t.0, HasTargets-mono keys more r t.1)

taken-snoc :
    (keys : List VaultKey) (k : VaultKey)
    → taken VaultKey.id (VaultKey.id k) (keys ++ (k ∷ [])) ≡ true
unfolding taken
taken-snoc [] k = rw (str_eq_refl (VaultKey.id k)) refl
taken-snoc (x ∷ keys) k = ground (arith, taken-snoc keys k)

HasTargets-rebind_to :
    (keys : List VaultKey) (r : Rebind) (k : Str) {to : Str}
    → HasTargets keys r
    → rebind_to r k ≡ some to
    → taken VaultKey.id to keys ≡ true
unfolding rebind_to
HasTargets-rebind_to keys [] k t e = absurd (ground arith)
HasTargets-rebind_to keys ((a, b) ∷ r) k {to} t e =
    ground (arith, t.0, HasTargets-rebind_to keys r k {to = to} t.1)

All-IsBound-mono :
    (keys more : List VaultKey) (hs : List Host)
    → All (IsBound keys) hs
    → All (IsBound (keys ++ more)) hs
All-IsBound-mono keys more [] a = tt
All-IsBound-mono keys more (h ∷ hs) a = (grow a.0, All-IsBound-mono keys more hs a.1)
  where
    grow : IsBound keys h → IsBound (keys ++ more) h
    grow (inl e) = inl e
    grow (inr e) = inr (taken_mono keys more (Host.key_id h) e)

module _ (u : Unicode) (new_id : ℕ → Str) where
  merge_keys-HasTargets :
      (ks : List VaultKey) (s : KeyState)
      → HasTargets (KeyState.keys s) (KeyState.rebind s)
      → let s' = merge_keys u new_id s ks in HasTargets (KeyState.keys s') (KeyState.rebind s')
  unfolding merge_keys
  merge_keys-HasTargets [] s t = t
  merge_keys-HasTargets (k ∷ ks) s t =
      merge_keys-HasTargets ks (merge_key u new_id s k) (elim (merge_key-cases u new_id s k) [
        | inl (to, e, h, n) ↦ rw e (unfold skip_key in (h, t))
        | inr (e, n) ↦ rw e (
            unfold carry_key in
            (
              taken-snoc (KeyState.keys s) _,
              HasTargets-mono (KeyState.keys s) _ (KeyState.rebind s) t,
            ))
      ])

  -- A binding that is carried over resolves, or is dropped.
  rebound-IsBound :
      (keys : List VaultKey) (r : Rebind) (kid : Str)
      → HasTargets keys r
      → (rebound keys r kid ≡ []) ⊎ (taken VaultKey.id (rebound keys r kid) keys ≡ true)
  unfolding rebound
  rebound-IsBound keys r kid t = elim (Option-cases (rebind_to r kid)) [
    | inl p ↦ ground (arith, p, index_key_by_id-taken keys kid, str_eq_iff kid [])
    | inr (to, p) ↦ ground (arith, p, HasTargets-rebind_to keys r kid t p, str_eq_iff kid [])
  ]

  All-rebound :
      (keys : List VaultKey) (r : Rebind) (hs : List Host)
      → HasTargets keys r
      → All (IsRebound u new_id keys r) hs
      → All (IsBound keys) hs
  All-rebound keys r [] t a = tt
  All-rebound keys r (h ∷ hs) t a =
      (rw (a.0.1) (rebound-IsBound keys r a.0.0 t), All-rebound keys r hs t a.1)

  -- Merge keeps the account's hosts and keys in front and unchanged, with its settings and its
  -- identity, but not its schema: the current one is stamped, against what the doc comment of Merge
  -- says. Every local host and key is counted once, as added or as skipped, and as many as are counted
  -- as added are appended.
  pub merge_documents_prefix :
      (base local : Document)
      → let (merged, res) = merge_documents u new_id base local in
        (hs : List Host) × (ks : List VaultKey) × (merged ≡ record base {
          schema = schema_version;
          hosts = Document.hosts base ++ hs;
          keys = Document.keys base ++ ks;
        })
        × (length hs ≡ MergeResult.hosts_added res)
        × (length ks ≡ MergeResult.keys_added res)
        × (MergeResult.hosts_added res + MergeResult.hosts_skipped res
            ≡ length (Document.hosts local))
        × (MergeResult.keys_added res + MergeResult.keys_skipped res ≡ length (Document.keys local))
  unfolding merge_documents
  merge_documents_prefix base local =
      let ks = merge_keys u new_id (keys_start base) (Document.keys local) in
      let (km, a, b, c) = merge_keys_lem u new_id (Document.keys local) (keys_start base) in
      let (hm, a', b', c', d') =
        merge_hosts_lem u new_id (KeyState.keys ks) (KeyState.rebind ks) (Document.hosts local)
          (hosts_start base (KeyState.next ks)) in
      (
        hm,
        km,
        ap₂ (λ h k. record base { schema = schema_version; hosts = h; keys = k }) a' a,
        omega arith,
        omega arith,
        omega arith,
        omega arith,
      )

  -- Merge keeps names apart that are apart in the account's vault, whatever the local vault repeats.
  pub merge_documents-IsDistinct :
      (base local : Document)
      → IsDistinct (name_key u) (Document.hosts base)
      → IsDistinct (key_name u) (Document.keys base)
      → let merged = (merge_documents u new_id base local).0 in
        IsDistinct (name_key u) (Document.hosts merged)
        × IsDistinct (key_name u) (Document.keys merged)
  unfolding merge_documents
  merge_documents-IsDistinct base local dh dk =
      let ks = merge_keys u new_id (keys_start base) (Document.keys local) in
      (
        merge_hosts-IsDistinct u new_id (KeyState.keys ks) (KeyState.rebind ks)
            (Document.hosts local) (hosts_start base (KeyState.next ks)) dh,
        merge_keys-IsDistinct u new_id (Document.keys local) (keys_start base) dk,
      )

  -- Where every host of the account is bound to a key of the account or to none, every host of the
  -- merged vault is bound to a key of the merged vault or to none.
  pub merge_documents-IsBound :
      (base local : Document)
      → All (IsBound (Document.keys base)) (Document.hosts base)
      → let merged = (merge_documents u new_id base local).0 in
        All (IsBound (Document.keys merged)) (Document.hosts merged)
  unfolding merge_documents
  merge_documents-IsBound base local b =
      let ks = merge_keys u new_id (keys_start base) (Document.keys local) in
      let (km, a, x, y) = merge_keys_lem u new_id (Document.keys local) (keys_start base) in
      let (hm, a', x', y', d) =
        merge_hosts_lem u new_id (KeyState.keys ks) (KeyState.rebind ks) (Document.hosts local)
          (hosts_start base (KeyState.next ks)) in
      let targets : HasTargets (KeyState.keys ks) (KeyState.rebind ks) =
        merge_keys-HasTargets (Document.keys local) (keys_start base) tt in
      rw a' (
        All-append (IsBound (KeyState.keys ks)) (Document.hosts base) hm
          (rw a (All-IsBound-mono (Document.keys base) km (Document.hosts base) b))
          (All-rebound (KeyState.keys ks) (KeyState.rebind ks) hm targets d))
