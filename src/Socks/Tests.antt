-- ===== src/Socks/Tests.antt =====
-- Clients, and the theorem applied to one.
use wharf_tui.Base.{◌≡◌, ◌++◌, refl, arith, [], ◌∷◌, true}
use wharf_tui.Base.Text.{codes}
use wharf_tui.Base.Reader.{read_full}
use wharf_tui.Base.Results.{ok, err}
use wharf_tui.Socks.{
  domain, Target, no_acceptable_method, bad_command, after, recv, byte_at, contains, send,
  select_method, read_request, socks5_reply, socks5_negotiate,
}
use wharf_tui.Socks.Negotiate.{
  greeting, request, address_type, address_bytes, port_bytes, IsAddress, socks5_negotiate_connect,
  socks5_negotiate_refused,
}

abbrev site : Target
site = record { host = domain (codes "a.io"); port = 443 }

-- A client that offers a password only.
no_method_run :
    socks5_negotiate true (record { input = greeting (2 ∷ []); sent = [] })
    ≡ (err no_acceptable_method, record { input = []; sent = (5 ∷ 255 ∷ []) ∷ [] })
unfolding socks5_negotiate greeting after recv read_full byte_at contains send select_method
no_method_run = refl

-- A client that asks to bind a port.
bind_run :
    socks5_negotiate true (record { input = greeting (0 ∷ []) ++ request 2 0 site; sent = [] }) ≡ (
      err (bad_command 2),
      record {
        input = address_bytes (domain (codes "a.io")) ++ port_bytes 443;
        sent = (5 ∷ 0 ∷ []) ∷ (5 ∷ 7 ∷ 0 ∷ 1 ∷ 0 ∷ 0 ∷ 0 ∷ 0 ∷ 0 ∷ 0 ∷ []) ∷ [];
      },
    )
unfolding socks5_negotiate greeting after recv read_full byte_at contains send select_method request
    read_request socks5_reply address_type address_bytes port_bytes
bind_run = refl

socks5_negotiate_connect_example :
    socks5_negotiate true
      (record { input = greeting (2 ∷ 0 ∷ []) ++ (request 1 0 site ++ (22 ∷ [])); sent = [] })
    ≡ (ok site, record { input = 22 ∷ []; sent = (5 ∷ 0 ∷ []) ∷ [] })
unfolding contains IsAddress
socks5_negotiate_connect_example =
    socks5_negotiate_connect (2 ∷ 0 ∷ []) 0 site (22 ∷ []) refl (omega arith) (omega arith)

socks5_negotiate_refused_example :
    socks5_negotiate true (record { input = greeting (2 ∷ []) ++ (7 ∷ []); sent = [] })
    ≡ (err no_acceptable_method, record { input = 7 ∷ []; sent = (5 ∷ 255 ∷ []) ∷ [] })
unfolding contains
socks5_negotiate_refused_example = socks5_negotiate_refused true (2 ∷ []) (7 ∷ []) refl
