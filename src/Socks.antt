-- ===== src/Socks.antt =====
-- internal/sshx/socks5.go: the SOCKS5 server of dynamic forwards. A connection is what the client is
-- still to send and what it was sent. The only write whose failure matters is the method selection;
-- whether it is accepted is a parameter. The string that package net makes of a target is left out.
pub mod Negotiate
mod Tests
use wharf_tui.Base.{ℕ, ◌+◌, ◌*◌, Bool, true, false, not, List, [], ◌∷◌, ◌++◌, if◌then◌else◌, ◌==◌}
use wharf_tui.Base.Reader.{ReadError, read_full}
use wharf_tui.Base.Results.{Result, ok, err}

pub data Address : Type 0 where
  ipv4 ipv6 domain : List ℕ → Address

pub record Target : Type 0 where
  pub host : Address
  pub port : ℕ

-- The errors, with the bytes that the messages quote.
pub data Error : Type 0 where
  read_failed : ReadError → Error
  write_failed no_acceptable_method : Error
  bad_version bad_request_version bad_command bad_address_type : ℕ → Error

pub record Wire : Type 0 where
  pub input : List ℕ
  pub sent : List (List ℕ)

abbrev pub Conn : Type 0 → Type 0
Conn A = Wire → Result Error A × Wire

-- The steps after the first, unless it failed.
unfoldable pub after : {A B : Type 0} → Result Error A × Wire → (A → Conn B) → Result Error B × Wire
after (ok a, w) next = next a w
after (err e, w) next = (err e, w)

infixl 5 ◌>>=◌
abbrev pub ◌>>=◌ : {A B : Type 0} → Conn A → (A → Conn B) → Conn B
(step >>= next) w = after (step w) next

abbrev pub done : {A : Type 0} → A → Conn A
done a w = (ok a, w)

abbrev pub fail : {A : Type 0} → Error → Conn A
fail e w = (err e, w)

-- io.ReadFull; of a read that fails, nothing is left.
unfoldable pub recv : ℕ → Conn (List ℕ)
recv n w = elim (read_full n (Wire.input w)) [
  | ok out ↦ (ok out.0, record w { input = out.1 })
  | err e ↦ (err (read_failed e), record w { input = [] })
]

-- A write whose error is dropped.
unfoldable pub send : List ℕ → Conn (Unit {0})
send bytes w = (ok tt, record w { sent = Wire.sent w ++ (bytes ∷ []) })

unfoldable pub byte_at : List ℕ → ℕ → ℕ
byte_at [] i = 0
byte_at (b ∷ bs) ℕ.zero = b
byte_at (b ∷ bs) (ℕ.suc i) = byte_at bs i

-- bytes.Contains of one byte.
unfoldable pub contains : List ℕ → ℕ → Bool
contains [] b = false
contains (x ∷ xs) b = let rest = contains xs b in if x == b then true else rest

-- socks5Reply
unfoldable pub socks5_reply : ℕ → Conn (Unit {0})
socks5_reply code = send (5 ∷ code ∷ 0 ∷ 1 ∷ 0 ∷ 0 ∷ 0 ∷ 0 ∷ 0 ∷ 0 ∷ [])

-- socks5ReadAddr
unfoldable pub socks5_read_addr : ℕ → Conn Address
unfolding socks5_reply recv send
socks5_read_addr atyp =
    if atyp == 1
    then (recv 4 >>= λ addr. done (ipv4 addr))
    else if atyp == 4
    then (recv 16 >>= λ addr. done (ipv6 addr))
    else if atyp == 3
    then (recv 1 >>= λ len_byte. recv (byte_at len_byte 0) >>= λ name. done (domain name))
    else (socks5_reply 8 >>= λ replied. fail (bad_address_type atyp))

-- socks5Negotiate after the command was accepted.
unfoldable pub read_target : ℕ → Conn Target
unfolding socks5_read_addr recv after
read_target atyp = do
  host ← socks5_read_addr atyp
  port_bytes ← recv 2
  done (record { host = host; port = byte_at port_bytes 0 * 256 + byte_at port_bytes 1 })

-- socks5Negotiate from the request on.
unfoldable pub read_request : Conn Target
unfolding read_target socks5_reply recv send
read_request = recv 4 >>= λ req.
    if not (byte_at req 0 == 5)
    then fail (bad_request_version (byte_at req 0))
    else if not (byte_at req 1 == 1)
    then (socks5_reply 7 >>= λ replied. fail (bad_command (byte_at req 1)))
    else read_target (byte_at req 3)

-- socks5Negotiate once the methods were read.
unfoldable pub select_method : Bool → List ℕ → Conn Target
unfolding read_request send
select_method accepted methods =
    if not (contains methods 0)
    then (send (5 ∷ 255 ∷ []) >>= λ replied. fail no_acceptable_method)
    else if accepted
    then (send (5 ∷ 0 ∷ []) >>= λ replied. read_request)
    else fail write_failed

-- socks5Negotiate
unfoldable pub socks5_negotiate : Bool → Conn Target
unfolding select_method recv
socks5_negotiate accepted = recv 2 >>= λ header.
    if not (byte_at header 0 == 5)
    then fail (bad_version (byte_at header 0))
    else (recv (byte_at header 1) >>= λ methods. select_method accepted methods)
