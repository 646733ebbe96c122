-- ===== src/Vault/Tests.antt =====
-- A header with the default parameters, and the theorems applied to it.
use wharf_tui.Base.{ℕ, zero, suc, ◌≡◌, ◌≤◌, refl, List, [], ◌∷◌, ◌++◌, arith, length, drop}
use wharf_tui.Base.Text.{str_eq}
use wharf_tui.Base.Results.{ok, err}
use wharf_tui.Vault.{
  magic, Header, corrupt, slice, segments, put_uint, uint, marshal, valid_params, read_header,
  check_header, parse_header, IsSized,
}
use wharf_tui.Vault.Format.{parse_header-marshal, parse_header-bounded}

abbrev zeros : ℕ → List ℕ
zeros zero = []
zeros (suc n) = 0 ∷ zeros n

abbrev sample : Header
sample = record {
  version = 1;
  kdf = 1;
  params = record { time = 3; memory_kib = 65536; parallelism = 4 };
  pw_salt = zeros 16;
  pw_nonce = zeros 24;
  pw_wrap = zeros 48;
  rec_salt = zeros 16;
  rec_nonce = zeros 24;
  rec_wrap = zeros 48;
  body_nonce = zeros 24;
}

sample-IsSized : IsSized sample
sample-IsSized = record {
  version_in = omega arith;
  kdf_in = omega arith;
  time_in = omega arith;
  memory_in = omega arith;
  parallelism_in = omega arith;
  pw_salt_len = refl;
  pw_nonce_len = refl;
  pw_wrap_len = refl;
  rec_salt_len = refl;
  rec_nonce_len = refl;
  rec_wrap_len = refl;
  body_nonce_len = refl;
}

-- A file that is too short.
parse_header_short : parse_header magic ≡ err corrupt
unfolding parse_header check_header
parse_header_short = refl

parse_header-marshal_example :
    parse_header (marshal sample ++ (7 ∷ 8 ∷ [])) ≡ ok (sample, 7 ∷ 8 ∷ [])
unfolding valid_params
parse_header-marshal_example = parse_header-marshal sample sample-IsSized (7 ∷ 8 ∷ [])

parse_header-bounded_example :
    (218 ≤ length (marshal sample))
    × (slice 0 6 (marshal sample) ≡ magic)
    × (1 ≤ 3)
    × (3 ≤ 1024)
    × (1 ≤ 65536)
    × (65536 ≤ 2097152)
    × (1 ≤ 4)
    × ([] ≡ drop 218 (marshal sample))
unfolding parse_header check_header read_header valid_params marshal segments put_uint uint slice
    str_eq
parse_header-bounded_example = parse_header-bounded (marshal sample) sample [] refl
