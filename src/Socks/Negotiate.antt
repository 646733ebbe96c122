-- ===== src/Socks/Negotiate.antt =====
-- What the server makes of a client that asks for a connection.
use wharf_tui.Base.{
  ℕ, ◌+◌, ◌*◌, ◌/◌, ◌%◌, ◌<◌, ◌≡◌, refl, ◌∙◌, ap, sym, Bool, true, false, List, [], ◌∷◌, ◌++◌,
  arith, length, append_assoc,
}
use wharf_tui.Base.Reader.{read_full-append}
use wharf_tui.Base.Results.{ok, err}
use wharf_tui.Socks.{
  Address, ipv4, ipv6, domain, Target, no_acceptable_method, after, recv, send, byte_at, contains,
  socks5_read_addr, read_target, read_request, select_method, socks5_negotiate,
}

recv-append :
    (xs ys : List ℕ) (n : ℕ) (sent : List (List ℕ))
    → n ≡ length xs
    → recv n (record { input = xs ++ ys; sent = sent })
      ≡ (ok xs, record { input = ys; sent = sent })
unfolding recv
recv-append xs ys n sent e = rw (read_full-append xs ys n e, recv) refl

-- How a client writes an address.
unfoldable pub address_type : Address → ℕ
address_type (ipv4 a) = 1
address_type (ipv6 a) = 4
address_type (domain a) = 3

unfoldable pub address_bytes : Address → List ℕ
address_bytes (ipv4 a) = a
address_bytes (ipv6 a) = a
address_bytes (domain a) = length a ∷ a

-- An address of the length that its type has.
unfoldable pub IsAddress : Address → Type 0
IsAddress (ipv4 a) = length a ≡ 4
IsAddress (ipv6 a) = length a ≡ 16
IsAddress (domain a) = length a < 256

socks5_read_addr_lem :
    (a : Address) (ys : List ℕ) (sent : List (List ℕ))
    → IsAddress a
    → socks5_read_addr (address_type a) (record { input = address_bytes a ++ ys; sent = sent })
      ≡ (ok a, record { input = ys; sent = sent })
unfolding socks5_read_addr address_type address_bytes IsAddress after byte_at
socks5_read_addr_lem (ipv4 a) ys sent z = rw (recv-append a ys 4 sent (sym z), after) refl
socks5_read_addr_lem (ipv6 a) ys sent z = rw (recv-append a ys 16 sent (sym z), after) refl
socks5_read_addr_lem (domain a) ys sent z =
    rw (recv-append (length a ∷ []) (a ++ ys) 1 sent refl, after)
      (rw (recv-append a ys (length a) sent refl, after) refl)

unfoldable pub port_bytes : ℕ → List ℕ
port_bytes port = (port / 256 % 256) ∷ (port % 256) ∷ []

target_lem :
    (a : Address) (port : ℕ)
    → port < 65536
    → ◌≡◌ {A = Target}
        (record {
          host = a;
          port = byte_at (port_bytes port) 0 * 256 + byte_at (port_bytes port) 1;
        })
        (record { host = a; port = port })
unfolding byte_at port_bytes
target_lem a port h =
    let e : port / 256 % 256 * 256 + port % 256 ≡ port = omega arith in
    ap (λ p. record { host = a; port = p }) e

read_target_lem :
    (t : Target) (ys : List ℕ) (sent : List (List ℕ))
    → IsAddress (Target.host t)
    → Target.port t < 65536
    → read_target (address_type (Target.host t)) (record {
      input = address_bytes (Target.host t) ++ (port_bytes (Target.port t) ++ ys);
      sent = sent;
    })
      ≡ (ok t, record { input = ys; sent = sent })
unfolding read_target port_bytes
read_target_lem t ys sent z h =
    rw (socks5_read_addr_lem (Target.host t) (port_bytes (Target.port t) ++ ys) sent z, after)
      (rw (recv-append (port_bytes (Target.port t)) ys 2 sent refl, after)
        (ap (λ x. (ok x, record { input = ys; sent = sent }))
          (target_lem (Target.host t) (Target.port t) h)))

-- What a client sends: the methods that it offers, and a request with a command and a target.
unfoldable pub greeting : List ℕ → List ℕ
greeting methods = 5 ∷ length methods ∷ methods

unfoldable pub request : ℕ → ℕ → Target → List ℕ
request command reserved t =
    5
    ∷ command
    ∷ reserved
    ∷ address_type (Target.host t)
    ∷ (address_bytes (Target.host t) ++ port_bytes (Target.port t))

read_request_lem :
    (reserved : ℕ) (t : Target) (ys : List ℕ) (sent : List (List ℕ))
    → IsAddress (Target.host t)
    → Target.port t < 65536
    → read_request (record { input = request 1 reserved t ++ ys; sent = sent })
      ≡ (ok t, record { input = ys; sent = sent })
unfolding read_request request byte_at
read_request_lem reserved t ys sent z h =
    rw (append_assoc (address_bytes (Target.host t)) (port_bytes (Target.port t)) ys) (
      rw
        (
          recv-append (5 ∷ 1 ∷ reserved ∷ address_type (Target.host t) ∷ [])
              (address_bytes (Target.host t) ++ (port_bytes (Target.port t) ++ ys)) 4 sent refl,
          after,
        )
        (read_target_lem t ys sent z h))

-- The server up to the choice of a method.
select_lem :
    (accepted : Bool) (methods ys : List ℕ)
    → socks5_negotiate accepted (record { input = greeting methods ++ ys; sent = [] })
      ≡ select_method accepted methods (record { input = ys; sent = [] })
unfolding socks5_negotiate greeting byte_at
select_lem accepted methods ys =
    rw (recv-append (5 ∷ length methods ∷ []) (methods ++ ys) 2 [] refl, after)
      (rw (recv-append methods ys (length methods) [] refl, after) refl)

-- A client that offers no authentication among its methods and asks to connect to a target gets that
-- target resolved: the server answers the method selection alone, and has read the request to its
-- last byte and no further.
pub socks5_negotiate_connect :
    (methods : List ℕ) (reserved : ℕ) (t : Target) (ys : List ℕ)
    → contains methods 0 ≡ true
    → IsAddress (Target.host t)
    → Target.port t < 65536
    → socks5_negotiate true
        (record { input = greeting methods ++ (request 1 reserved t ++ ys); sent = [] })
      ≡ (ok t, record { input = ys; sent = (5 ∷ 0 ∷ []) ∷ [] })
unfolding select_method send after
socks5_negotiate_connect methods reserved t ys c z h =
    select_lem true methods (request 1 reserved t ++ ys)
    ∙ rw c (read_request_lem reserved t ys ((5 ∷ 0 ∷ []) ∷ []) z h)

-- A client that does not offer to go without authentication is told that no method is acceptable, and
-- nothing after its greeting is read.
pub socks5_negotiate_refused :
    (accepted : Bool) (methods ys : List ℕ)
    → contains methods 0 ≡ false
    → socks5_negotiate accepted (record { input = greeting methods ++ ys; sent = [] })
      ≡ (err no_acceptable_method, record { input = ys; sent = (5 ∷ 255 ∷ []) ∷ [] })
unfolding select_method send after
socks5_negotiate_refused accepted methods ys c = select_lem accepted methods ys ∙ rw c refl
