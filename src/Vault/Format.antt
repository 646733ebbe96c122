-- ===== src/Vault/Format.antt =====
-- What parseHeader makes of a file: a marshalled header is read back, and what it accepts is bounded.
use wharf_tui.Base.{
  ℕ, ◌+◌, ◌≤◌, ◌≡◌, refl, ◌∙◌, sym, ◌&&◌, List, [], ◌∷◌, ◌++◌, arith, if◌then◌else◌, ◌==◌, length,
  drop, concat, some, get_elem?, length-append, drop-append_left,
}
use wharf_tui.Base.Text.{str_eq, str_eq→eq}
use wharf_tui.Base.Results.{ok, err}
use wharf_tui.Vault.{
  magic, header_len, Params, Header, corrupt, put_uint, slice, segments, marshal, valid_params,
  read_header, check_header, parse_header, IsSized,
}
use wharf_tui.Vault.Slices.{
  offset, length-concat, slice-concat, concat-snoc, uint-put_uint_2, uint-put_uint_4, uint_byte,
}

pub length-marshal : (h : Header) → IsSized h → length (marshal h) ≡ 218
unfolding marshal segments put_uint offset
length-marshal h z = length-concat (segments h) ∙ omega arith

-- The tests on data that is long enough and starts with the magic.
check_header_lem :
    (len : ℕ) (h : Header) (rest : List ℕ)
    → 218 ≤ len
    → check_header len magic h rest ≡ (
        if (Header.version h == 1) && ((Header.kdf h == 1) && valid_params (Header.params h))
        then ok (h, rest)
        else err corrupt)
unfolding check_header str_eq
check_header_lem len h rest l = ground arith

check_header-bounded :
    (len : ℕ) (prefix : List ℕ) (h h' : Header) (rest body : List ℕ)
    → check_header len prefix h rest ≡ ok (h', body)
    → (218 ≤ len)
      × (prefix ≡ magic)
      × (1 ≤ Params.time (Header.params h'))
      × (Params.time (Header.params h') ≤ 1024)
      × (1 ≤ Params.memory_kib (Header.params h'))
      × (Params.memory_kib (Header.params h') ≤ 2097152)
      × (1 ≤ Params.parallelism (Header.params h'))
      × (body ≡ rest)
unfolding check_header valid_params
check_header-bounded len prefix h h' rest body e = ground (arith, str_eq→eq prefix magic)

module _ (h : Header) (z : IsSized h) (body : List ℕ) where
  -- The file as the segments of its header, and the body.
  abbrev file : List (List ℕ)
  file = segments h ++ (body ∷ [])

  marshal-file : marshal h ++ body ≡ concat file
  unfolding marshal
  marshal-file = sym (concat-snoc (segments h) body)

  field :
      (i : ℕ) (s : List ℕ) (lo hi : ℕ)
      → get_elem? file i ≡ some s
      → lo ≡ offset file i
      → hi ≡ offset file i + length s
      → slice lo hi (marshal h ++ body) ≡ s
  field i s lo hi e l r = rw marshal-file (slice-concat file i s lo hi e l r)

  magic_at : slice 0 6 (marshal h ++ body) ≡ magic
  unfolding segments put_uint offset
  magic_at = field 0 magic 0 6 refl (omega arith) (omega arith)

  version_at : slice 6 8 (marshal h ++ body) ≡ put_uint 2 (Header.version h)
  unfolding segments put_uint offset
  version_at = field 1 (put_uint 2 (Header.version h)) 6 8 refl (omega arith) (omega arith)

  kdf_at : slice 8 9 (marshal h ++ body) ≡ Header.kdf h ∷ []
  unfolding segments put_uint offset
  kdf_at = field 2 (Header.kdf h ∷ []) 8 9 refl (omega arith) (omega arith)

  time_at : slice 9 13 (marshal h ++ body) ≡ put_uint 4 (Params.time (Header.params h))
  unfolding segments put_uint offset
  time_at =
      field 3 (put_uint 4 (Params.time (Header.params h))) 9 13 refl (omega arith) (omega arith)

  memory_at : slice 13 17 (marshal h ++ body) ≡ put_uint 4 (Params.memory_kib (Header.params h))
  unfolding segments put_uint offset
  memory_at =
      field 4 (put_uint 4 (Params.memory_kib (Header.params h))) 13 17 refl (omega arith)
        (omega arith)

  parallelism_at : slice 17 18 (marshal h ++ body) ≡ Params.parallelism (Header.params h) ∷ []
  unfolding segments put_uint offset
  parallelism_at =
      field 5 (Params.parallelism (Header.params h) ∷ []) 17 18 refl (omega arith) (omega arith)

  pw_salt_at : slice 18 34 (marshal h ++ body) ≡ Header.pw_salt h
  unfolding segments put_uint offset
  pw_salt_at = field 6 (Header.pw_salt h) 18 34 refl (omega arith) (omega arith)

  pw_nonce_at : slice 34 58 (marshal h ++ body) ≡ Header.pw_nonce h
  unfolding segments put_uint offset
  pw_nonce_at = field 7 (Header.pw_nonce h) 34 58 refl (omega arith) (omega arith)

  pw_wrap_at : slice 58 106 (marshal h ++ body) ≡ Header.pw_wrap h
  unfolding segments put_uint offset
  pw_wrap_at = field 8 (Header.pw_wrap h) 58 106 refl (omega arith) (omega arith)

  rec_salt_at : slice 106 122 (marshal h ++ body) ≡ Header.rec_salt h
  unfolding segments put_uint offset
  rec_salt_at = field 9 (Header.rec_salt h) 106 122 refl (omega arith) (omega arith)

  rec_nonce_at : slice 122 146 (marshal h ++ body) ≡ Header.rec_nonce h
  unfolding segments put_uint offset
  rec_nonce_at = field 10 (Header.rec_nonce h) 122 146 refl (omega arith) (omega arith)

  rec_wrap_at : slice 146 194 (marshal h ++ body) ≡ Header.rec_wrap h
  unfolding segments put_uint offset
  rec_wrap_at = field 11 (Header.rec_wrap h) 146 194 refl (omega arith) (omega arith)

  body_nonce_at : slice 194 218 (marshal h ++ body) ≡ Header.body_nonce h
  unfolding segments put_uint offset
  body_nonce_at = field 12 (Header.body_nonce h) 194 218 refl (omega arith) (omega arith)

  read_header-marshal : read_header (marshal h ++ body) ≡ h
  unfolding read_header
  read_header-marshal =
      simp
        (
          version_at,
          kdf_at,
          time_at,
          memory_at,
          parallelism_at,
          pw_salt_at,
          pw_nonce_at,
          pw_wrap_at,
          rec_salt_at,
          rec_nonce_at,
          rec_wrap_at,
          body_nonce_at,
          uint_byte,
          uint-put_uint_2 (Header.version h) z.version_in,
          uint-put_uint_4 (Params.time (Header.params h)) z.time_in,
          uint-put_uint_4 (Params.memory_kib (Header.params h)) z.memory_in,
        )
        refl

  rest : drop header_len (marshal h ++ body) ≡ body
  rest = rw (sym (length-marshal h z)) (drop-append_left (marshal h) body)

  -- parseHeader of what `marshal` wrote, with anything after it, gives the header and the rest, if the
  -- version is 1, the KDF is argon2id and the cost parameters are in range; and ErrCorrupt otherwise.
  pub parse_header-marshal : parse_header (marshal h ++ body) ≡ (
      if (Header.version h == 1) && ((Header.kdf h == 1) && valid_params (Header.params h))
      then ok (h, body)
      else err corrupt)
  unfolding parse_header
  parse_header-marshal =
      simp (magic_at, read_header-marshal, rest)
        (check_header_lem (length (marshal h ++ body)) h body
          (omega (arith, length-append (marshal h) body, length-marshal h z)))

-- Whatever the file holds: what parseHeader accepts is long enough and starts with the magic, has
-- cost parameters within the caps, and the body is what follows the header.
pub parse_header-bounded :
    (data' : List ℕ) (h : Header) (body : List ℕ)
    → parse_header data' ≡ ok (h, body)
    → (218 ≤ length data')
      × (slice 0 6 data' ≡ magic)
      × (1 ≤ Params.time (Header.params h))
      × (Params.time (Header.params h) ≤ 1024)
      × (1 ≤ Params.memory_kib (Header.params h))
      × (Params.memory_kib (Header.params h) ≤ 2097152)
      × (1 ≤ Params.parallelism (Header.params h))
      × (body ≡ drop 218 data')
unfolding parse_header
parse_header-bounded data' h body e =
    check_header-bounded (length data') (slice 0 6 data') (read_header data') h
      (drop header_len data') body e
