-- ===== src/Forwards/Once.antt =====
-- A forward ends once, for the first reason there is.
use wharf_tui.Base.{
  ℕ, Bool, true, false, ◌≡◌, refl, sym, ◌∙◌, ap, subst, Option, none, some, List, [], ◌∷◌, ◌++◌,
  if◌then◌else◌, Bool-cases, Option-cases, ◌==◌, inl, inr,
}
use native.Mathlib.Omega.{arith}
use wharf_tui.Base.Text.{Str}
use wharf_tui.Base.Results.{Result, ok, err, Result-cases}
use wharf_tui.Base.Dict.{lookup-insert_same, lookup-erase_same}
use wharf_tui.Manager.{
  Registry, Manager, get_forward, add_entry, drop_entry, points_at, remove_forward,
  register_forward,
}
use wharf_tui.Forwards.{
  ForwardSpec, Forward, Running, end_forward, ForwardEvent, close_called, accept_failed,
  connection_ended, timer_ticked, on_event, on_events, start_forward, normalize, started_forward,
  connect_failed, listen_failed,
}

-- Why an event ends a forward, if it does. The error of a failed keepalive request is not told: it
-- counts as a Close.
unfoldable pub reason : Bool → ForwardEvent → Option (Option ℕ)
reason keepalive close_called = some none
reason keepalive (accept_failed e) = some (some e)
reason keepalive (connection_ended e) = some e
reason keepalive (timer_ticked none) = none
reason keepalive (timer_ticked (some e)) = if keepalive then some none else none

unfoldable pub first_reason : Bool → List ForwardEvent → Option (Option ℕ)
first_reason keepalive [] = none
first_reason keepalive (e ∷ es) =
    let rest = first_reason keepalive es in
    elim (reason keepalive e) [ none ↦ rest | some why ↦ some why ]

-- A forward that runs: the manager has it, and nothing was told.
pub record IsUp (r : Running) : Type 0 where
  running : Running.ended_once r ≡ false
  alive : Forward.is_alive (Running.forward r) ≡ true
  listening : Forward.is_listening (Running.forward r) ≡ true
  registered :
      get_forward (Forward.id (Running.forward r)) (Running.manager r)
      ≡ some (Forward.pointer (Running.forward r))
  silent : Running.told r ≡ []

-- A forward that ended for a reason: its listener and its connection are closed, the manager has it
-- no more, and the interface was told once.
pub record IsDown (why : Option ℕ) (r : Running) : Type 0 where
  once : Running.ended_once r ≡ true
  dead : Forward.is_alive (Running.forward r) ≡ false
  deaf : Forward.is_listening (Running.forward r) ≡ false
  cut_off : Forward.is_connected (Running.forward r) ≡ false
  finished : Forward.is_done (Running.forward r) ≡ true
  gone : get_forward (Forward.id (Running.forward r)) (Running.manager r) ≡ none
  message :
      Running.told r
      ≡ (record {
        forward_id = Forward.id (Running.forward r);
        host_id = Forward.host_id (Running.forward r);
        failure = why;
      })
        ∷ []

abbrev pub IsAfter : Option (Option ℕ) → Running → Type 0
IsAfter none r = IsUp r
IsAfter (some why) r = IsDown why r

remove_forward-gone :
    (id : Str) (pointer : ℕ) (m : Manager)
    → get_forward id m ≡ some pointer
    → get_forward id (remove_forward id pointer m) ≡ none
unfolding drop_entry points_at
remove_forward-gone id pointer m h =
    let same : (pointer == pointer) ≡ true = ground arith in
    rw (drop_entry, h, points_at, same)
      (lookup-erase_same id (Registry.entries (Manager.forwards m)))

end_forward-IsDown : (why : Option ℕ) (r : Running) → IsUp r → IsDown why (end_forward why r)
unfolding end_forward
end_forward-IsDown why r up =
    rw (end_forward, IsUp.running up)
      (record {
        once = refl;
        dead = refl;
        deaf = refl;
        cut_off = refl;
        finished = refl;
        gone =
            remove_forward-gone (Forward.id (Running.forward r))
              (Forward.pointer (Running.forward r)) (Running.manager r) (IsUp.registered up);
        message =
            ap
              (λ told.
                told
                ++ (record {
                  forward_id = Forward.id (Running.forward r);
                  host_id = Forward.host_id (Running.forward r);
                  failure = why;
                }
                    ∷ []))
              (IsUp.silent up);
      })

end_forward-again : (why again : Option ℕ) (r : Running) → IsDown why r → end_forward again r ≡ r
unfolding end_forward
end_forward-again why again r down = simp (end_forward, IsDown.once down) refl

on_event-IsDown :
    (e : ForwardEvent) (why : Option ℕ) (r : Running) → IsDown why r → IsDown why (on_event e r)
unfolding on_event
on_event-IsDown close_called why r down = rw (end_forward-again why none r down) down
on_event-IsDown (accept_failed e) why r down = rw (end_forward-again why (some e) r down) down
on_event-IsDown (connection_ended e) why r down = rw (end_forward-again why e r down) down
on_event-IsDown (timer_ticked none) why r down =
    elim (Bool-cases (Manager.keepalive (Running.manager r))) [
      | inr e ↦ simp (on_event, e) down
      | inl e ↦ simp (on_event, e) down
    ]
on_event-IsDown (timer_ticked (some x)) why r down =
    elim (Bool-cases (Manager.keepalive (Running.manager r))) [
      | inr e ↦ simp (on_event, e) down
      | inl e ↦
          let fires : on_event (timer_ticked (some x)) r ≡ end_forward none r =
            simp (on_event, e) refl in
          subst (IsDown why) (sym (fires ∙ end_forward-again why none r down)) down
    ]

on_events-IsDown :
    (es : List ForwardEvent) (why : Option ℕ) (r : Running)
    → IsDown why r
    → IsDown why (on_events es r)
unfolding on_events
on_events-IsDown [] why r down = down
on_events-IsDown (e ∷ es) why r down =
    on_events-IsDown es why (on_event e r) (on_event-IsDown e why r down)

on_event-IsAfter :
    (e : ForwardEvent) (r : Running)
    → IsUp r
    → IsAfter (reason (Manager.keepalive (Running.manager r)) e) (on_event e r)
unfolding on_event reason
on_event-IsAfter close_called r up = end_forward-IsDown none r up
on_event-IsAfter (accept_failed e) r up = end_forward-IsDown (some e) r up
on_event-IsAfter (connection_ended e) r up = end_forward-IsDown e r up
on_event-IsAfter (timer_ticked none) r up =
    elim (Bool-cases (Manager.keepalive (Running.manager r))) [
      | inr e ↦ simp (on_event, e) up
      | inl e ↦ simp (on_event, e) up
    ]
on_event-IsAfter (timer_ticked (some x)) r up =
    elim (Bool-cases (Manager.keepalive (Running.manager r))) [
      | inr e ↦ simp (on_event, reason, e) up
      | inl e ↦
          let fires : on_event (timer_ticked (some x)) r ≡ end_forward none r =
            simp (on_event, e) refl in
          let ends : reason (Manager.keepalive (Running.manager r)) (timer_ticked (some x))
              ≡ some none =
            simp (reason, e) refl in
          subst (λ o. IsAfter o (on_event (timer_ticked (some x)) r)) (sym ends)
            (subst (IsDown none) (sym fires) (end_forward-IsDown none r up))
    ]

-- What does not end a forward does not change it.
on_event-same :
    (e : ForwardEvent) (r : Running)
    → reason (Manager.keepalive (Running.manager r)) e ≡ none
    → on_event e r ≡ r
unfolding on_event reason
on_event-same close_called r h = cc
on_event-same (accept_failed e) r h = cc
on_event-same (connection_ended e) r h = cc
on_event-same (timer_ticked none) r h = elim (Bool-cases (Manager.keepalive (Running.manager r))) [
  | inr e ↦ simp (on_event, e) refl
  | inl e ↦ simp (on_event, e) refl
]
on_event-same (timer_ticked (some x)) r h =
    elim (Bool-cases (Manager.keepalive (Running.manager r))) [
      | inr e ↦ simp (on_event, e) refl
      | inl e ↦
          let ends : reason (Manager.keepalive (Running.manager r)) (timer_ticked (some x))
              ≡ some none =
            simp (reason, e) refl in
          cc
    ]

on_events-IsAfter :
    (es : List ForwardEvent) (r : Running)
    → IsUp r
    → IsAfter (first_reason (Manager.keepalive (Running.manager r)) es) (on_events es r)
unfolding on_events first_reason
on_events-IsAfter [] r up = up
on_events-IsAfter (e ∷ es) r up =
    elim (Option-cases (reason (Manager.keepalive (Running.manager r)) e)) [
      | inl h ↦ rw (first_reason, on_events, h, on_event-same e r h) (on_events-IsAfter es r up)
      | inr (why, h) ↦
          let down = subst (λ o. IsAfter o (on_event e r)) h (on_event-IsAfter e r up) in
          rw (first_reason, on_events, h) (on_events-IsDown es why (on_event e r) down)
    ]

registered-IsUp :
    (id : Str) (pointer : ℕ) (m : Manager)
    → get_forward id (register_forward id pointer m) ≡ some pointer
unfolding add_entry
registered-IsUp id pointer m = lookup-insert_same id pointer (Registry.entries (Manager.forwards m))

-- What StartForward gives when it succeeds.
start_forward-ok :
    (id : Str) (pointer : ℕ) (host_id : Str) (spec : ForwardSpec)
    (connected listening : Result ℕ (Unit {0})) (m : Manager) (r : Running)
    → start_forward id pointer host_id spec connected listening m ≡ ok r
    → (s : ForwardSpec) × (started_forward id pointer host_id s m ≡ r)
unfolding start_forward
start_forward-ok id pointer host_id spec connected listening m r h =
    elim (Result-cases (normalize spec)) [
      | inl (e, f) ↦
          let refused : start_forward id pointer host_id spec connected listening m ≡ err e =
            simp (start_forward, f) refl in
          cc
      | inr (s, f) ↦ elim (Result-cases connected) [
        | inl (e, g) ↦
            let refused : start_forward id pointer host_id spec connected listening m
                ≡ err (connect_failed e) =
              simp (start_forward, f, g) refl in
            cc
        | inr (c, g) ↦ elim (Result-cases listening) [
          | inl (e, k) ↦
              let refused : start_forward id pointer host_id spec connected listening m
                  ≡ err (listen_failed e) =
                simp (start_forward, f, g, k) refl in
              cc
          | inr (l, k) ↦
              let made : start_forward id pointer host_id spec connected listening m
                  ≡ ok (started_forward id pointer host_id s m) =
                simp (start_forward, f, g, k) refl in
              (s, cc)
        ]
      ]
    ]

started_forward-IsUp :
    (id : Str) (pointer : ℕ) (host_id : Str) (s : ForwardSpec) (m : Manager)
    → IsUp (started_forward id pointer host_id s m)
started_forward-IsUp id pointer host_id s m = record {
  running = refl;
  alive = refl;
  listening = refl;
  registered = registered-IsUp id pointer m;
  silent = refl;
}

-- A forward that StartForward gave runs, and the manager has it, until the first event that ends it:
-- a Close, a failed Accept, the end of its connection, or a failed keepalive request while keepalives
-- are on. From then on it is dead, its listener and its connection are closed, the manager has it no
-- more, and the interface was told once, whatever else happens: with the error of that first Accept or
-- connection, and with nil for a Close and for a failed keepalive request alike.
pub on_events-start_forward :
    (id : Str) (pointer : ℕ) (host_id : Str) (spec : ForwardSpec)
    (connected listening : Result ℕ (Unit {0})) (m : Manager) (r : Running) (es : List ForwardEvent)
    → start_forward id pointer host_id spec connected listening m ≡ ok r
    → IsAfter (first_reason (Manager.keepalive m) es) (on_events es r)
on_events-start_forward id pointer host_id spec connected listening m r es h =
    let made = start_forward-ok id pointer host_id spec connected listening m r h in
    let up = started_forward-IsUp id pointer host_id made.0 m in
    subst (λ r'. IsAfter (first_reason (Manager.keepalive m) es) (on_events es r')) made.1
      (on_events-IsAfter es (started_forward id pointer host_id made.0 m) up)
