-- ===== src/Forwards/Tests.antt =====
-- A dynamic forward whose listener fails after it was closed.
use wharf_tui.Base.{true, ◌≡◌, refl, none, List, [], ◌∷◌}
use wharf_tui.Base.Int.{pos}
use wharf_tui.Base.Text.{codes}
use wharf_tui.Base.Results.{ok, err}
use wharf_tui.Manager.{new_manager}
use wharf_tui.Forwards.{
  ForwardSpec, dynamic_kind, local_kind, normalize, normalize_bind, normalize_kind,
  normalize_target, or_loopback, in_range, default_forward_addr, target_port_out_of_range,
  start_forward, started_forward, ForwardEvent, timer_ticked, close_called, accept_failed,
  on_events,
}
use wharf_tui.Forwards.Once.{reason, first_reason, IsDown, on_events-start_forward}

abbrev socks : ForwardSpec
socks = record {
  kind = dynamic_kind;
  bind_addr = [];
  bind_port = pos 1080;
  target_addr = [];
  target_port = pos 0;
}

-- A local forward needs a target port, a dynamic one does not.
normalize_run :
    (normalize socks ≡ ok (record socks { bind_addr = default_forward_addr }))
    × (normalize (record socks { kind = local_kind }) ≡ err (target_port_out_of_range (pos 0)))
unfolding normalize normalize_bind normalize_kind normalize_target or_loopback in_range
normalize_run = (refl, refl)

abbrev closed_first : List ForwardEvent
closed_first = timer_ticked none ∷ close_called ∷ accept_failed 9 ∷ []

-- The error of the listener is not told.
on_events-start_forward_example : IsDown none (
    on_events closed_first (
      started_forward
        (codes "f1")
        4
        (codes "web")
        (record socks { bind_addr = default_forward_addr })
        (new_manager true)))
unfolding reason first_reason start_forward normalize normalize_bind normalize_kind or_loopback
    in_range
on_events-start_forward_example =
    on_events-start_forward (codes "f1") 4 (codes "web") socks (ok tt) (ok tt) (new_manager true)
      (started_forward (codes "f1") 4 (codes "web")
        (record socks { bind_addr = default_forward_addr }) (new_manager true))
      closed_first refl
