-- ===== src/Store/Hosts.antt =====
-- A list of hosts is well formed when no two share an ID or a folded name and each has an ID; what
-- addHostTo, updateHostIn and deleteHostIn do to such a list.
use wharf_tui.Base.{
  ℕ, zero, suc, true, false, ◌≡◌, refl, ◌≢◌, ◌↔◌, ◌∙◌, sym, ap, ap₂, some, List, [], ◌∷◌, ◌++◌,
  if◌then◌else◌, arith, ◌⊎◌, ◌≤◌,
}
use wharf_tui.Base.Int.{ℤ, pos, negsuc, int_lt, int_eq}
use wharf_tui.Base.Text.{Str, str_eq, str_eq→eq, str_eq_iff, Unicode, trim_space, to_lower, codes}
use wharf_tui.Base.Find.{
  All, index_where, remove_at, taken, IsDistinct, IsDistinct-snoc, taken-append,
}
use wharf_tui.Base.Results.{ok, >>=-eq-ok, ok-injective}
use wharf_tui.Store.{
  Host, normalize_auth_method, index_by_id, fold, name_clash, validate_host, with_defaults,
}
use wharf_tui.Store.Edit.{add_host_to}

pub record IsWellFormed (u : Unicode) (hosts : List Host) : Type 0 where
  pub names : IsDistinct (λ h. fold u (Host.name h)) hosts
  pub ids : IsDistinct Host.id hosts
  pub identified : taken Host.id [] hosts ≡ false

module _ (u : Unicode) where
  abbrev pub name_key : Host → Str
  name_key h = fold u (Host.name h)

  -- Where no host has the excluded ID, every host is compared.
  pub name_clash-eq-taken :
      (hosts : List Host) (name ex : Str)
      → taken Host.id ex hosts ≡ false
      → name_clash u hosts name ex ≡ taken name_key name hosts
  unfolding name_clash taken
  name_clash-eq-taken [] name ex h = refl
  name_clash-eq-taken (x ∷ hosts) name ex h = ground (arith, name_clash-eq-taken hosts name ex)

  -- Where every host has the excluded ID, none is compared.
  name_clash_unidentified :
      (hosts : List Host) (name : Str)
      → All (λ other. Host.id other ≡ []) hosts
      → name_clash u hosts name [] ≡ false
  unfolding name_clash
  name_clash_unidentified [] name a = refl
  name_clash_unidentified (x ∷ hosts) name a =
      ground (arith, name_clash_unidentified hosts name a.1, str_eq_iff (Host.id x) [], a.0)

  -- An update is compared with every host but its own.
  pub taken-of_name_clash :
      (hosts : List Host) (name ex : Str) (i : ℕ)
      → IsDistinct Host.id hosts
      → index_by_id hosts ex ≡ some i
      → name_clash u hosts name ex ≡ false
      → taken name_key name (remove_at i hosts) ≡ false
  unfolding name_clash taken index_by_id index_where remove_at
  taken-of_name_clash [] name ex i d e h = refl
  taken-of_name_clash (x ∷ hosts) name ex zero d e h =
      let same : str_eq (Host.id x) ex ≡ true = ground arith in
      sym (name_clash-eq-taken hosts name ex (rw (str_eq→eq (Host.id x) ex same) at (d.0)))
      ∙ ground arith
  taken-of_name_clash (x ∷ hosts) name ex (suc i) d e h =
      ground (arith, taken-of_name_clash hosts name ex i d.1)

  -- What validateHostIn asks of a host, apart from its name being free.
  pub record IsAcceptable (h : Host) : Type 0 where
    pub named : trim_space u (Host.name h) ≢ []
    pub addressed : trim_space u (Host.addr h) ≢ []
    pub port_low : int_lt (Host.port h) (pos 1) ≡ false
    pub port_high : int_lt (pos 65535) (Host.port h) ≡ false

  pub validate_host-ok :
      (hosts : List Host) (h : Host) (ex : Str)
      → validate_host u hosts h ex ≡ ok tt
      → IsAcceptable h × (name_clash u hosts (name_key h) ex ≡ false)
  unfolding validate_host
  validate_host-ok hosts h ex e = ground (
    arith,
    str_eq_iff (trim_space u (Host.name h)) [],
    str_eq_iff (trim_space u (Host.addr h)) [],
  )

  pub validate_host-of_acceptable :
      (hosts : List Host) (h : Host) (ex : Str)
      → IsAcceptable h
      → (name_clash u hosts (name_key h) ex ≡ false)
      → validate_host u hosts h ex ≡ ok tt
  unfolding validate_host
  validate_host-of_acceptable hosts h ex a e = ground (
    arith,
    str_eq_iff (trim_space u (Host.name h)) [],
    str_eq_iff (trim_space u (Host.addr h)) [],
  )

  -- The ID that an added host gets.
  abbrev pub new_host_id : Str → Host → Str
  new_host_id fresh h = if str_eq (Host.id h) [] then fresh else Host.id h

  -- The host that addHostTo stores, when it accepts.
  abbrev pub stored_host : Str → Str → Host → Host
  stored_host fresh am h = record (with_defaults u h) { auth_method = am; id = new_host_id fresh h }

  pub add_host_to-ok :
      (fresh : Str) (hosts : List Host) (h : Host) {out : List Host × Host}
      → add_host_to u fresh hosts h ≡ ok out
      → (am : Str) × (normalize_auth_method (Host.auth_method h) ≡ ok am)
        × (out ≡ (hosts ++ (stored_host fresh am h ∷ []), stored_host fresh am h))
        × IsAcceptable (stored_host fresh am h)
        × (name_clash u hosts (name_key h) [] ≡ false)
  unfolding add_host_to with_defaults
  add_host_to-ok fresh hosts h e =
      let (am, p, q) = >>=-eq-ok (normalize_auth_method (Host.auth_method h)) _ e in
      let (t, v, r) =
        >>=-eq-ok (validate_host u hosts (record (with_defaults u h) { auth_method = am }) []) _
          q in
      let (a, free) =
        validate_host-ok hosts (record (with_defaults u h) { auth_method = am }) [] v in
      (
        am,
        p,
        sym (ok-injective r),
        record {
          named = a.named;
          addressed = a.addressed;
          port_low = a.port_low;
          port_high = a.port_high;
        },
        free,
      )

  -- The auth methods that a host may name, and what each of them is stored as.
  abbrev pub IsKnownAuth : Str → Str → Type 0
  IsKnownAuth v am =
      (((v ≡ []) ⊎ ((v ≡ codes "auto") ⊎ (v ≡ codes "key"))) × (am ≡ codes "key"))
      ⊎ ((v ≡ codes "password") × (am ≡ codes "password"))

  -- No host that has an ID has the name, whatever its case and the space around it.
  abbrev pub IsFree : Str → List Host → Type 0
  IsFree name hosts =
      All
        (λ other.
          (Host.id other ≡ [])
          ⊎ (to_lower u (trim_space u (Host.name other)) ≢ to_lower u (trim_space u name)))
        hosts

  -- The port that is stored for port `n`.
  abbrev pub stored_port : ℕ → ℕ
  stored_port zero = 22
  stored_port (suc n) = suc n

  -- A host with a name and an address that are not blank and a port from 0 to 65535.
  pub record IsAddable (h : Host) (n : ℕ) : Type 0 where
    pub named : trim_space u (Host.name h) ≢ []
    pub addressed : trim_space u (Host.addr h) ≢ []
    pub port : Host.port h ≡ pos n
    pub in_range : n ≤ 65535

  normalize_auth_method_iff : (v am : Str) → (normalize_auth_method v ≡ ok am) ↔ IsKnownAuth v am
  unfolding normalize_auth_method
  normalize_auth_method_iff v am = ground (
    arith,
    str_eq_iff v [],
    str_eq_iff v (codes "auto"),
    str_eq_iff v (codes "key"),
    str_eq_iff v (codes "password"),
  )

  name_clash_iff :
      (hosts : List Host) (name : Str)
      → (name_clash u hosts (to_lower u (trim_space u name)) [] ≡ false) ↔ IsFree name hosts
  unfolding name_clash fold
  name_clash_iff [] name = (λ e. tt, λ t. refl)
  name_clash_iff (x ∷ hosts) name = ground (
    arith,
    name_clash_iff hosts name,
    str_eq_iff (Host.id x) [],
    str_eq_iff (to_lower u (trim_space u (Host.name x))) (to_lower u (trim_space u name)),
  )

  port_iff :
      (p : ℤ)
      → (let p' = if int_eq p (pos 0) then pos 22 else p in
          (int_lt p' (pos 1) ≡ false) × (int_lt (pos 65535) p' ≡ false))
        ↔ ((n : ℕ) × (p ≡ pos n) × (n ≤ 65535))
  port_iff (pos zero) = (λ r. (0, refl, omega arith), λ q. (refl, refl))
  port_iff (pos (suc n)) = (λ r. (suc n, refl, ground arith), λ (m, e, l). ground arith)
  port_iff (negsuc n) = (λ r. absurd (cc), λ (m, e, l). absurd (cc))

  stored_host_check :
      (fresh am : Str) (h : Host)
      → IsAcceptable (stored_host fresh am h) ↔ ((n : ℕ) × IsAddable h n)
  unfolding with_defaults
  stored_host_check fresh am h =
      let (to, from) = port_iff (Host.port h) in
      (
        λ a.
            let (n, e, l) = to (a.port_low, a.port_high) in
            (n, record { named = a.named; addressed = a.addressed; port = e; in_range = l }),
        λ (n, b).
            let (low, high) = from (n, b.port, b.in_range) in
            record { named = b.named; addressed = b.addressed; port_low = low; port_high = high },
      )

  -- The host that is stored, with its port spelled out.
  abbrev pub with_port : Str → Str → Host → ℕ → Host
  with_port fresh am h n = record h {
    auth_method = am;
    id = if str_eq (Host.id h) [] then fresh else Host.id h;
    port = pos (stored_port n);
    source = if str_eq (Host.source h) [] then codes "manual" else Host.source h;
  }

  default_port : (n : ℕ) → (if int_eq (pos n) (pos 0) then pos 22 else pos n) ≡ pos (stored_port n)
  default_port zero = refl
  default_port (suc n) = ground arith

  stored_host-with_port :
      (fresh am : Str) (h : Host) (n : ℕ)
      → Host.port h ≡ pos n
      → stored_host fresh am h ≡ with_port fresh am h n
  unfolding with_defaults
  stored_host-with_port fresh am h n e =
      let port : (if int_eq (Host.port h) (pos 0) then pos 22 else Host.port h)
          ≡ pos (stored_port n) =
        rw e (default_port n) in
      ap (λ p. record (with_port fresh am h n) { port = p }) port

  add_host_to-of_acceptable :
      (fresh am : Str) (hosts : List Host) (h : Host)
      → normalize_auth_method (Host.auth_method h) ≡ ok am
      → IsAcceptable (stored_host fresh am h)
      → name_clash u hosts (name_key h) [] ≡ false
      → add_host_to u fresh hosts h
        ≡ ok (hosts ++ (stored_host fresh am h ∷ []), stored_host fresh am h)
  unfolding add_host_to with_defaults
  add_host_to-of_acceptable fresh am hosts h p a free = rw (
    p,
    validate_host-of_acceptable hosts (record (with_defaults u h) { auth_method = am }) []
        (record {
          named = a.named;
          addressed = a.addressed;
          port_low = a.port_low;
          port_high = a.port_high;
        })
        free,
  )

  -- addHostTo accepts exactly the hosts with an auth method that is empty, "auto", "key" or
  -- "password", a name and an address that are not blank, a port from 0 to 65535, and a name that no
  -- stored host with an ID has, in any case and with any space around it. What it stores, at the end
  -- of the list, is the host with its auth method, an ID, and defaults for port 0 and for no source.
  pub add_host_to_iff :
      (fresh : Str) (hosts : List Host) (h : Host) (out : List Host × Host)
      → (add_host_to u fresh hosts h ≡ ok out) ↔ (
          (am : Str) × (n : ℕ) × IsKnownAuth (Host.auth_method h) am
          × IsAddable h n
          × IsFree (Host.name h) hosts
          × (out.0 ≡ hosts ++ (out.1 ∷ []))
          × (out.1 ≡ with_port fresh am h n))
  unfolding fold
  add_host_to_iff fresh hosts h out = (
    λ r.
        let (am, p, q, a, free) = add_host_to-ok fresh hosts h r in
        let (n, b) = (stored_host_check fresh am h).0 a in
        (
          am,
          n,
          (normalize_auth_method_iff (Host.auth_method h) am).0 p,
          b,
          (name_clash_iff hosts (Host.name h)).0 free,
          ap (λ o. o.0) q ∙ ap (λ x. hosts ++ (x ∷ [])) (sym (ap (λ o. o.1) q)),
          ap (λ o. o.1) q ∙ stored_host-with_port fresh am h n b.port,
        ),
    λ (am, n, k, b, f, e, e').
        let stored : out.1 ≡ stored_host fresh am h =
          e' ∙ sym (stored_host-with_port fresh am h n b.port) in
        let listed : out.0 ≡ hosts ++ (stored_host fresh am h ∷ []) =
          e ∙ ap (λ x. hosts ++ (x ∷ [])) stored in
        add_host_to-of_acceptable fresh am hosts h
          ((normalize_auth_method_iff (Host.auth_method h) am).1 k)
          ((stored_host_check fresh am h).1 (n, b)) ((name_clash_iff hosts (Host.name h)).1 f)
        ∙ sym (ap ok (ap₂ (λ x y. (x, y)) listed stored)),
  )

  -- Adding a host whose ID is new keeps the list well formed.
  pub add_host_to-IsWellFormed :
      (fresh : Str) (hosts : List Host) (h : Host) {out : List Host × Host}
      → IsWellFormed u hosts
      → fresh ≢ []
      → taken Host.id (new_host_id fresh h) hosts ≡ false
      → add_host_to u fresh hosts h ≡ ok out
      → IsWellFormed u out.0
  unfolding with_defaults taken
  add_host_to-IsWellFormed fresh hosts h w f n e =
      let (am, p, q, a, free) = add_host_to-ok fresh hosts h e in
      let s : Host = stored_host fresh am h in
      rw q (record {
        names =
            IsDistinct-snoc name_key hosts s
              (sym (name_clash-eq-taken hosts (name_key h) [] w.identified) ∙ free) w.names;
        ids = IsDistinct-snoc Host.id hosts s n w.ids;
        identified = ground (
          arith,
          taken-append Host.id [] hosts (s ∷ []),
          w.identified,
          str_eq_iff fresh [],
          str_eq_iff (Host.id h) [],
        );
      })

  -- Hosts without an ID are not compared: beside such hosts alone, addHostTo takes any acceptable
  -- host, also one whose name is taken.
  pub add_host_to_unidentified :
      (fresh am : Str) (hosts : List Host) (h : Host)
      → All (λ other. Host.id other ≡ []) hosts
      → normalize_auth_method (Host.auth_method h) ≡ ok am
      → IsAcceptable (stored_host fresh am h)
      → add_host_to u fresh hosts h
        ≡ ok (hosts ++ (stored_host fresh am h ∷ []), stored_host fresh am h)
  add_host_to_unidentified fresh am hosts h n p a =
      add_host_to-of_acceptable fresh am hosts h p a (name_clash_unidentified hosts (name_key h) n)
