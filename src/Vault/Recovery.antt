-- ===== src/Vault/Recovery.antt =====
-- internal/vault/recovery.go: the recovery code, Crockford base32 of 25 random bytes. A uint64 keeps
-- its wrap-around; `buf<<8 | uint64(c)` is a sum, since the shift leaves the low bits empty.
pub mod Digits
pub mod Typed
mod Tests
use wharf_tui.Base.{
  ℕ, zero, suc, ◌+◌, ◌-◌, ◌*◌, ◌/◌, ◌%◌, ◌^◌, Bool, true, false, not, ◌||◌, Option, none, some,
  List, [], ◌∷◌, ◌++◌, if◌then◌else◌, ◌==◌, ltb, leb, length, get_elem?,
}
use wharf_tui.Base.Text.{Str, codes, Unicode, to_upper}
use wharf_tui.Base.Find.{index_where}
use wharf_tui.Base.Results.{Result, ok, err, ◌>>=◌}

abbrev pub crockford : Str
crockford = codes "0123456789ABCDEFGHJKMNPQRSTVWXYZ"

abbrev pub recovery_secret_len : ℕ
recovery_secret_len = 25

-- errBadRecovery
pub data BadRecovery : Type 0 where
  bad_recovery : BadRecovery

-- crockford[v]
unfoldable pub char_at : ℕ → ℕ
char_at v = elim (get_elem? crockford v) [ none ↦ 0 | some c ↦ c ]

-- 1 << 64
abbrev pub two_to_64 : ℕ
two_to_64 = 18446744073709551616

-- The inner loop of encodeCrockford: the digits, and the bits that are left. Every round takes five
-- bits, so `bits` is fuel enough.
unfoldable pub drain : ℕ → ℕ → ℕ → List ℕ × ℕ
drain zero buf bits = ([], bits)
drain (suc fuel) buf bits =
    let (digits, left) = drain fuel buf (bits - 5) in
    if leb 5 bits then (buf / 2 ^ (bits - 5) % 32 ∷ digits, left) else ([], bits)

-- The outer loop, from a state of it.
unfoldable pub encode_from : ℕ → ℕ → List ℕ → List ℕ
unfolding drain
encode_from buf bits [] = []
encode_from buf bits (c ∷ b) =
    let buf' = buf * 256 % two_to_64 + c in
    let (digits, left) = drain (bits + 8) buf' (bits + 8) in digits ++ encode_from buf' left b

unfoldable pub chars : List ℕ → Str
unfolding char_at
chars [] = []
chars (v ∷ vs) = char_at v ∷ chars vs

-- encodeCrockford
unfoldable pub encode_crockford : List ℕ → Str
unfolding chars encode_from
encode_crockford b = chars (encode_from 0 0 b)

-- strings.IndexByte(crockford, byte(r)), with the test that follows it.
unfoldable pub digit_value : ℕ → Option ℕ
digit_value r = if ltb 127 r then none else index_where (λ c. c == r % 256) crockford

-- The loop of decodeCrockford, from a state of it.
unfoldable pub decode_from : ℕ → ℕ → Str → Result BadRecovery (List ℕ)
unfolding digit_value
decode_from buf bits [] = ok []
decode_from buf bits (r ∷ s) = elim (digit_value r) [
  | none ↦ err bad_recovery
  | some v ↦
      let buf' = buf * 32 % two_to_64 + v in
      let rest = decode_from buf' (if leb 8 (bits + 5) then bits + 5 - 8 else bits + 5) s in
      if leb 8 (bits + 5)
      then (rest >>= λ out. ok ((buf' / 2 ^ (bits + 5 - 8) % 256) ∷ out))
      else rest
]

-- decodeCrockford
unfoldable pub decode_crockford : Str → Result BadRecovery (List ℕ)
unfolding decode_from
decode_crockford s = decode_from 0 0 s

-- The loop of normalizeRecovery.
unfoldable pub fold_lookalikes : Str → Str
fold_lookalikes [] = []
fold_lookalikes (r ∷ s) =
    let rest = fold_lookalikes s in
    if (r == b'-') || (r == b' ')
    then rest
    else if (r == b'I') || (r == b'L')
    then b'1' ∷ rest
    else if r == b'O'
    then b'0' ∷ rest
    else r ∷ rest

module _ (u : Unicode) where
  -- normalizeRecovery
  unfoldable pub normalize_recovery : Str → Str
  unfolding fold_lookalikes
  normalize_recovery code = fold_lookalikes (to_upper u code)

  -- recoverySecret
  unfoldable pub recovery_secret : Str → Result BadRecovery (List ℕ)
  unfolding decode_crockford normalize_recovery
  recovery_secret code = decode_crockford (normalize_recovery code) >>= λ secret.
      if not (length secret == recovery_secret_len) then err bad_recovery else ok secret
