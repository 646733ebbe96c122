-- ===== src/Base/Reader.antt =====
-- What package io makes of a connection: the bytes that are still to come before the peer hangs up.
use wharf_tui.Base.Tests.{leb, ◌==◌, if◌then◌else◌}
use wharf_tui.Base.Lists.{length, take, drop, length-append, take-append_left, drop-append_left}
use wharf_tui.Base.Results.{Result, ok, err}
use Prim.Native.Nat.{ℕ, ◌<◌}
use mathlib.Core.Path.{◌≡◌}
use mathlib.Core.List.{List, ◌++◌}
use native.Mathlib.Omega.{arith}

-- io.EOF and io.ErrUnexpectedEOF
pub data ReadError : Type 0 where
  eof unexpected_eof : ReadError

-- io.ReadFull: all `n` bytes, or EOF where there are none, or else ErrUnexpectedEOF.
unfoldable pub read_full : ℕ → List ℕ → Result ReadError (List ℕ × List ℕ)
read_full n s =
    if leb n (length s)
    then ok (take n s, drop n s)
    else if length s == 0
    then err eof
    else err unexpected_eof

pub read_full-append :
    (xs ys : List ℕ) (n : ℕ) → n ≡ length xs → read_full n (xs ++ ys) ≡ ok (xs, ys)
unfolding read_full
read_full-append xs ys n e =
    ground (arith, e, take-append_left xs ys, drop-append_left xs ys, length-append xs ys)

pub read_full_short :
    (n : ℕ) (s : List ℕ)
    → length s < n
    → read_full n s ≡ (if length s == 0 then err eof else err unexpected_eof)
unfolding read_full
read_full_short n s h = ground arith
