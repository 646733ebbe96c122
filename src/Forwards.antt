-- ===== src/Forwards.antt =====
-- internal/sshx/forward.go: how a port forward is checked, started and ended. What the network
-- answers is given: to StartForward as the results of its two calls, and after that as the events that
-- the goroutines of a forward see. What is piped through a forward, with the count of connections,
-- and the connection that StartForward closes again when it cannot listen are left out.
pub mod Once
mod Tests
use wharf_tui.Base.{
  ℕ, Bool, true, false, not, ◌≡◌, Option, none, some, List, [], ◌∷◌, ◌++◌, if◌then◌else◌, leb,
}
use wharf_tui.Base.Int.{ℤ, pos, negsuc}
use wharf_tui.Base.Text.{Str, codes}
use wharf_tui.Base.Results.{Result, ok, err}
use wharf_tui.Manager.{Manager, register_forward, remove_forward}

-- The kinds that StartForward takes, and any other string.
pub data ForwardKind : Type 0 where
  local_kind remote_kind dynamic_kind : ForwardKind
  other_kind : Str → ForwardKind

pub record ForwardSpec : Type 0 where
  pub kind : ForwardKind
  pub bind_addr : Str
  pub bind_port : ℤ
  pub target_addr : Str
  pub target_port : ℤ

pub data ForwardError : Type 0 where
  unknown_kind : Str → ForwardError
  bind_port_out_of_range target_port_out_of_range : ℤ → ForwardError
  connect_failed listen_failed : ℕ → ForwardError

-- defaultForwardAddr
abbrev pub default_forward_addr : Str
default_forward_addr = codes "127.0.0.1"

unfoldable pub or_loopback : Str → Str
or_loopback [] = default_forward_addr
or_loopback (c ∷ cs) = c ∷ cs

-- lo <= port && port <= 65535
unfoldable pub in_range : ℕ → ℤ → Bool
in_range lo (pos n) = if leb lo n then leb n 65535 else false
in_range lo (negsuc n) = false

-- normalize for a local or a remote forward, from the target on.
unfoldable pub normalize_target : ForwardSpec → Result ForwardError ForwardSpec
normalize_target s =
    if not (in_range 1 (ForwardSpec.target_port s))
    then err (target_port_out_of_range (ForwardSpec.target_port s))
    else ok (record s { target_addr = or_loopback (ForwardSpec.target_addr s) })

unfoldable pub normalize_kind : ForwardKind → ForwardSpec → Result ForwardError ForwardSpec
normalize_kind local_kind s = normalize_target s
normalize_kind remote_kind s = normalize_target s
normalize_kind dynamic_kind s = ok s
normalize_kind (other_kind k) s = err (unknown_kind k)

unfoldable pub normalize_bind : ForwardSpec → Result ForwardError ForwardSpec
normalize_bind s =
    if not (in_range 0 (ForwardSpec.bind_port s))
    then err (bind_port_out_of_range (ForwardSpec.bind_port s))
    else normalize_kind (ForwardSpec.kind s)
        (record s { bind_addr = or_loopback (ForwardSpec.bind_addr s) })

-- normalize
unfoldable pub normalize : ForwardSpec → Result ForwardError ForwardSpec
normalize s = elim (ForwardSpec.kind s) [
  | local_kind ↦ normalize_bind s
  | remote_kind ↦ normalize_bind s
  | dynamic_kind ↦ normalize_bind s
  | other_kind k ↦ err (unknown_kind k)
]

-- A forward, with the number that stands for its pointer.
pub record Forward : Type 0 where
  pub id : Str
  pub pointer : ℕ
  pub host_id : Str
  pub spec : ForwardSpec
  pub is_alive : Bool
  pub is_listening : Bool
  pub is_connected : Bool
  pub is_done : Bool

-- ForwardEndedMsg; the error is nil after a deliberate Close.
pub record ForwardEnded : Type 0 where
  pub forward_id : Str
  pub host_id : Str
  pub failure : Option ℕ

-- A forward with its manager and what the interface was told. endOnce has run when `ended_once` holds.
pub record Running : Type 0 where
  pub forward : Forward
  pub ended_once : Bool
  pub manager : Manager
  pub told : List ForwardEnded

-- end
unfoldable pub end_forward : Option ℕ → Running → Running
end_forward failure r =
    if Running.ended_once r
    then r
    else let f = Running.forward r in
      record {
        forward = record f {
          is_alive = false;
          is_listening = false;
          is_connected = false;
          is_done = true;
        };
        ended_once = true;
        manager = remove_forward (Forward.id f) (Forward.pointer f) (Running.manager r);
        told =
            Running.told r
            ++ (record { forward_id = Forward.id f; host_id = Forward.host_id f; failure = failure }
                ∷ []);
      }

-- What the goroutines see: Close is called, Accept fails, the connection ends, the keepalive timer
-- ticks and its request fails with an error or not.
pub data ForwardEvent : Type 0 where
  close_called : ForwardEvent
  accept_failed : ℕ → ForwardEvent
  connection_ended : Option ℕ → ForwardEvent
  timer_ticked : Option ℕ → ForwardEvent

unfoldable pub on_event : ForwardEvent → Running → Running
on_event close_called r = end_forward none r
on_event (accept_failed e) r = end_forward (some e) r
on_event (connection_ended e) r = end_forward e r
on_event (timer_ticked failure) r =
    if not (Manager.keepalive (Running.manager r))
    then r
    else elim failure [ none ↦ r | some e ↦ end_forward none r ]

unfoldable pub on_events : List ForwardEvent → Running → Running
on_events [] r = r
on_events (e ∷ es) r = on_events es (on_event e r)

-- The forward that StartForward registers.
abbrev pub started_forward : Str → ℕ → Str → ForwardSpec → Manager → Running
started_forward id pointer host_id s m = record {
  forward = record {
    id = id;
    pointer = pointer;
    host_id = host_id;
    spec = s;
    is_alive = true;
    is_listening = true;
    is_connected = true;
    is_done = false;
  };
  ended_once = false;
  manager = register_forward id pointer m;
  told = [];
}

-- StartForward, for an ID and a pointer, with what connecting and listening gave.
unfoldable pub start_forward :
    Str
    → ℕ
    → Str
    → ForwardSpec
    → Result ℕ (Unit {0})
    → Result ℕ (Unit {0})
    → Manager
    → Result ForwardError Running
start_forward id pointer host_id spec connected listening m = elim (normalize spec) [
  | err e ↦ err e
  | ok s ↦ elim connected [
    | err e ↦ err (connect_failed e)
    | ok c ↦ elim listening [
      | err e ↦ err (listen_failed e)
      | ok l ↦ ok (started_forward id pointer host_id s m)
    ]
  ]
]
