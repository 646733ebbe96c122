-- ===== src/Store/Merge/Base.antt =====
-- One round of each loop of Merge, and what the loops make of the account's entries.
use wharf_tui.Base.{
  ℕ, zero, suc, ◌+◌, Bool, true, false, ◌≡◌, refl, ◌∙◌, ap, sym, ◌⊎◌, inl, inr, some, List, [], ◌∷◌,
  ◌++◌, if◌then◌else◌, arith, Option-cases, append_assoc, append-nil, length, length-append, ◌||◌,
}
use wharf_tui.Base.Text.{Str, str_eq, str_eq_refl, Unicode}
use wharf_tui.Base.Find.{index_where, taken, IsDistinct, IsDistinct-snoc, All, All-append}
use wharf_tui.Base.Keyed.{index_of, taken-of_index_none, taken-of_index_some}
use wharf_tui.Store.{Host, VaultKey, index_by_id, index_key_by_id, index_by_name, index_key_by_name}
use wharf_tui.Store.Hosts.{name_key}
use wharf_tui.Store.Keys.{key_name}
use wharf_tui.Store.Merge.{
  Rebind, KeyState, HostState, is_some, key_id_at, skip_key, carry_key, merge_key, merge_keys,
  carry_host, merge_host, merge_hosts, rebound,
}

-- An index that was found has an entry, whose ID is then taken.
key_id_at-found :
    (p : VaultKey → Bool) (keys : List VaultKey) (i : ℕ)
    → index_where p keys ≡ some i
    → (to : Str) × (key_id_at keys i ≡ some to) × (taken VaultKey.id to keys ≡ true)
unfolding index_where taken
key_id_at-found p [] i h = absurd (ground arith)
key_id_at-found p (k ∷ keys) zero h = (VaultKey.id k, refl, rw (str_eq_refl (VaultKey.id k)) refl)
key_id_at-found p (k ∷ keys) (suc i) h =
    let (to, e, t) = key_id_at-found p keys i (ground arith) in (to, e, ground arith)

pub index_key_by_id-taken :
    (keys : List VaultKey) (id : Str)
    → is_some (index_key_by_id keys id) ≡ taken VaultKey.id id keys
unfolding is_some index_key_by_id
index_key_by_id-taken keys id = elim (Option-cases (index_of VaultKey.id keys id)) [
  | inl p ↦ rw p (sym (taken-of_index_none VaultKey.id keys id p))
  | inr (i, p) ↦ rw p (sym (taken-of_index_some VaultKey.id keys id i p))
]

pub index_by_id-taken :
    (hosts : List Host) (id : Str) → is_some (index_by_id hosts id) ≡ taken Host.id id hosts
unfolding is_some index_by_id
index_by_id-taken hosts id = elim (Option-cases (index_of Host.id hosts id)) [
  | inl p ↦ rw p (sym (taken-of_index_none Host.id hosts id p))
  | inr (i, p) ↦ rw p (sym (taken-of_index_some Host.id hosts id i p))
]

module _ (u : Unicode) (new_id : ℕ → Str) where
  -- The ID that a carried key gets.
  abbrev pub carried_key_id : KeyState → VaultKey → Str
  carried_key_id s k =
      if str_eq (VaultKey.id k) [] || is_some (index_key_by_id (KeyState.keys s) (VaultKey.id k))
      then new_id (KeyState.next s)
      else VaultKey.id k

  -- The two rounds of the loop over the keys: the name is taken and its key is bound to, or the
  -- name is free and the key is appended.
  pub merge_key-cases :
      (s : KeyState) (k : VaultKey)
      → ((to : Str) × (merge_key u new_id s k ≡ skip_key s k (some to))
          × (taken VaultKey.id to (KeyState.keys s) ≡ true)
          × (taken (key_name u) (key_name u k) (KeyState.keys s) ≡ true))
        ⊎ ((merge_key u new_id s k ≡ carry_key u new_id s k)
            × (taken (key_name u) (key_name u k) (KeyState.keys s) ≡ false))
  unfolding merge_key index_key_by_name
  merge_key-cases s k =
      elim (Option-cases (index_of (key_name u) (KeyState.keys s) (key_name u k))) [
        | inl p ↦
            inr (
              rw (p, merge_key),
              taken-of_index_none (key_name u) (KeyState.keys s) (key_name u k) p,
            )
        | inr (i, p) ↦
            let (to, e, t) = key_id_at-found _ (KeyState.keys s) i p in
            inl (
              to,
              rw (p, merge_key) (rw e refl),
              t,
              taken-of_index_some (key_name u) (KeyState.keys s) (key_name u k) i p,
            )
      ]

  -- What one round keeps.
  pub merge_key_lem :
      (s : KeyState) (k : VaultKey)
      → let s' = merge_key u new_id s k in
        (more : List VaultKey) × (KeyState.keys s' ≡ KeyState.keys s ++ more)
        × (KeyState.num_added s' ≡ KeyState.num_added s + length more)
        × (KeyState.num_added s' + KeyState.num_skipped s'
            ≡ suc (KeyState.num_added s + KeyState.num_skipped s))
  merge_key_lem s k = elim (merge_key-cases s k) [
    | inl (to, e, t, n) ↦
        rw e (unfold skip_key in ([], sym (append-nil _), omega arith, omega arith))
    | inr (e, n) ↦ rw e (unfold carry_key in (_, refl, omega arith, omega arith))
  ]

  pub merge_keys_lem :
      (ks : List VaultKey) (s : KeyState)
      → let s' = merge_keys u new_id s ks in
        (more : List VaultKey) × (KeyState.keys s' ≡ KeyState.keys s ++ more)
        × (KeyState.num_added s' ≡ KeyState.num_added s + length more)
        × (KeyState.num_added s' + KeyState.num_skipped s'
            ≡ length ks + (KeyState.num_added s + KeyState.num_skipped s))
  unfolding merge_keys
  merge_keys_lem [] s = ([], sym (append-nil _), omega arith, omega arith)
  merge_keys_lem (k ∷ ks) s =
      let (m1, a, b, c) = merge_key_lem s k in
      let (m2, a', b', c') = merge_keys_lem ks (merge_key u new_id s k) in
      (
        m1 ++ m2,
        a' ∙ ap (λ l. l ++ m2) a ∙ append_assoc (KeyState.keys s) m1 m2,
        omega (arith, length-append m1 m2),
        omega arith,
      )

  pub merge_keys-IsDistinct :
      (ks : List VaultKey) (s : KeyState)
      → IsDistinct (key_name u) (KeyState.keys s)
      → IsDistinct (key_name u) (KeyState.keys (merge_keys u new_id s ks))
  unfolding merge_keys
  merge_keys-IsDistinct [] s d = d
  merge_keys-IsDistinct (k ∷ ks) s d =
      merge_keys-IsDistinct ks (merge_key u new_id s k) (elim (merge_key-cases s k) [
        | inl (to, e, t, n) ↦ rw e (unfold skip_key in d)
        | inr (e, n) ↦
            rw e (unfold carry_key in IsDistinct-snoc (key_name u) (KeyState.keys s) _ n d)
      ])

  module _ (keys : List VaultKey) (rebind : Rebind) where
    -- The two rounds of the loop over the hosts.
    pub merge_host-cases :
        (s : HostState) (h : Host)
        → ((merge_host u new_id keys rebind s h
              ≡ record s { num_skipped = HostState.num_skipped s + 1 })
            × (taken (name_key u) (name_key u h) (HostState.hosts s) ≡ true))
          ⊎ ((merge_host u new_id keys rebind s h ≡ carry_host u new_id keys rebind s h)
              × (taken (name_key u) (name_key u h) (HostState.hosts s) ≡ false))
    unfolding merge_host index_by_name
    merge_host-cases s h =
        elim (Option-cases (index_of (name_key u) (HostState.hosts s) (name_key u h))) [
          | inl p ↦ inr (
            rw (p, merge_host),
            taken-of_index_none (name_key u) (HostState.hosts s) (name_key u h) p,
          )
          | inr (i, p) ↦ inl (
            rw (p, merge_host),
            taken-of_index_some (name_key u) (HostState.hosts s) (name_key u h) i p,
          )
        ]

    -- The key binding of a carried host.
    abbrev pub IsRebound : Host → Type 0
    IsRebound h = (kid : Str) × (Host.key_id h ≡ rebound keys rebind kid)

    merge_host_lem :
        (s : HostState) (h : Host)
        → let s' = merge_host u new_id keys rebind s h in
          (more : List Host) × (HostState.hosts s' ≡ HostState.hosts s ++ more)
          × (HostState.num_added s' ≡ HostState.num_added s + length more)
          × (HostState.num_added s' + HostState.num_skipped s'
              ≡ suc (HostState.num_added s + HostState.num_skipped s))
          × All IsRebound more
    merge_host_lem s h = elim (merge_host-cases s h) [
      | inl (e, n) ↦ rw e ([], sym (append-nil _), omega arith, omega arith, tt)
      | inr (e, n) ↦
          rw e
            (unfold carry_host in (_, refl, omega arith, omega arith, ((Host.key_id h, refl), tt)))
    ]

    pub merge_hosts_lem :
        (hs : List Host) (s : HostState)
        → let s' = merge_hosts u new_id keys rebind s hs in
          (more : List Host) × (HostState.hosts s' ≡ HostState.hosts s ++ more)
          × (HostState.num_added s' ≡ HostState.num_added s + length more)
          × (HostState.num_added s' + HostState.num_skipped s'
              ≡ length hs + (HostState.num_added s + HostState.num_skipped s))
          × All IsRebound more
    unfolding merge_hosts
    merge_hosts_lem [] s = ([], sym (append-nil _), omega arith, omega arith, tt)
    merge_hosts_lem (h ∷ hs) s =
        let (m1, a, b, c, d) = merge_host_lem s h in
        let (m2, a', b', c', d') = merge_hosts_lem hs (merge_host u new_id keys rebind s h) in
        (
          m1 ++ m2,
          a' ∙ ap (λ l. l ++ m2) a ∙ append_assoc (HostState.hosts s) m1 m2,
          omega (arith, length-append m1 m2),
          omega arith,
          All-append IsRebound m1 m2 d d',
        )

    pub merge_hosts-IsDistinct :
        (hs : List Host) (s : HostState)
        → IsDistinct (name_key u) (HostState.hosts s)
        → IsDistinct (name_key u) (HostState.hosts (merge_hosts u new_id keys rebind s hs))
    unfolding merge_hosts
    merge_hosts-IsDistinct [] s d = d
    merge_hosts-IsDistinct (h ∷ hs) s d =
        merge_hosts-IsDistinct hs (merge_host u new_id keys rebind s h)
          (elim (merge_host-cases s h) [
            | inl (e, n) ↦ rw e d
            | inr (e, n) ↦
                rw e (unfold carry_host in IsDistinct-snoc (name_key u) (HostState.hosts s) _ n d)
          ])
