-- ===== src/Vault.antt =====
-- internal/vault/format.go: the fixed header of the vault file. A byte array of Go is a list; that
-- its length is the array's is `IsSized`, so the copies of `marshal` fill consecutive ranges. The
-- key derivation and the ciphers that format.go wraps are calls of x/crypto and are left out.
pub mod Slices
pub mod Format
pub mod Recovery
pub mod Disk
pub mod Life
mod Tests
use wharf_tui.Base.{
  ℕ, zero, suc, ◌+◌, ◌-◌, ◌*◌, ◌/◌, ◌%◌, ◌<◌, ◌≡◌, Bool, true, false, not, ◌&&◌, List, [], ◌∷◌,
  ◌++◌, if◌then◌else◌, ◌==◌, ltb, leb, length, take, drop, concat,
}
use wharf_tui.Base.Text.{codes, str_eq}
use wharf_tui.Base.Results.{Result, ok, err}

abbrev pub magic : List ℕ
magic = codes "WHARFV"

abbrev pub header_len : ℕ
header_len = 218

abbrev pub max_time : ℕ
max_time = 1024

-- 2 GiB, in KiB.
abbrev pub max_memory_kib : ℕ
max_memory_kib = 2097152

pub record Params : Type 0 where
  pub time : ℕ
  pub memory_kib : ℕ
  pub parallelism : ℕ

pub record Header : Type 0 where
  pub version : ℕ
  pub kdf : ℕ
  pub params : Params
  pub pw_salt : List ℕ
  pub pw_nonce : List ℕ
  pub pw_wrap : List ℕ
  pub rec_salt : List ℕ
  pub rec_nonce : List ℕ
  pub rec_wrap : List ℕ
  pub body_nonce : List ℕ

-- The errors that format.go and vault.go return. `bad_key` is that of a cipher whose key has the wrong
-- length, and `os_error` that of any call of the system.
pub data Error : Type 0 where
  corrupt not_found locked wrong_secret closed invalid_params bad_key os_error : Error

-- binary.LittleEndian, for `width` bytes.
unfoldable pub put_uint : ℕ → ℕ → List ℕ
put_uint zero n = []
put_uint (suc width) n = (n % 256) ∷ put_uint width (n / 256)

unfoldable pub uint : List ℕ → ℕ
uint [] = 0
uint (b ∷ bs) = b + 256 * uint bs

-- data[lo:hi]
unfoldable pub slice : ℕ → ℕ → List ℕ → List ℕ
slice lo hi data' = take (hi - lo) (drop lo data')

-- The fields in the order of their offsets.
unfoldable pub segments : Header → List (List ℕ)
unfolding put_uint
segments h =
    magic
    ∷ put_uint 2 (Header.version h)
    ∷ (Header.kdf h ∷ [])
    ∷ put_uint 4 (Params.time (Header.params h))
    ∷ put_uint 4 (Params.memory_kib (Header.params h))
    ∷ (Params.parallelism (Header.params h) ∷ [])
    ∷ Header.pw_salt h
    ∷ Header.pw_nonce h
    ∷ Header.pw_wrap h
    ∷ Header.rec_salt h
    ∷ Header.rec_nonce h
    ∷ Header.rec_wrap h
    ∷ Header.body_nonce h
    ∷ []

-- header.marshal
unfoldable pub marshal : Header → List ℕ
unfolding concat
marshal h = concat (segments h)

-- validParams
unfoldable pub valid_params : Params → Bool
valid_params p =
    leb 1 (Params.time p)
    && leb (Params.time p) max_time
    && leb 1 (Params.memory_kib p)
    && leb (Params.memory_kib p) max_memory_kib
    && leb 1 (Params.parallelism p)

-- The header that the offsets of format.go cut out.
unfoldable pub read_header : List ℕ → Header
read_header data' = record {
  version = uint (slice 6 8 data');
  kdf = uint (slice 8 9 data');
  params = record {
    time = uint (slice 9 13 data');
    memory_kib = uint (slice 13 17 data');
    parallelism = uint (slice 17 18 data');
  };
  pw_salt = slice 18 34 data';
  pw_nonce = slice 34 58 data';
  pw_wrap = slice 58 106 data';
  rec_salt = slice 106 122 data';
  rec_nonce = slice 122 146 data';
  rec_wrap = slice 146 194 data';
  body_nonce = slice 194 218 data';
}

-- The tests of parseHeader, on the length, the first bytes, the header and the rest of the data.
unfoldable pub check_header : ℕ → List ℕ → Header → List ℕ → Result Error (Header × List ℕ)
check_header len prefix h rest =
    if ltb len header_len
    then err corrupt
    else if not (str_eq prefix magic)
    then err corrupt
    else if not (Header.version h == 1)
    then err corrupt
    else if not (Header.kdf h == 1)
    then err corrupt
    else if not (valid_params (Header.params h))
    then err corrupt
    else ok (h, rest)

-- parseHeader
unfoldable pub parse_header : List ℕ → Result Error (Header × List ℕ)
parse_header data' =
    check_header (length data') (slice 0 6 data') (read_header data') (drop header_len data')

-- The lengths of the arrays, and the widths of the integers.
pub record IsSized (h : Header) : Type 0 where
  pub version_in : Header.version h < 65536
  pub kdf_in : Header.kdf h < 256
  pub time_in : Params.time (Header.params h) < 4294967296
  pub memory_in : Params.memory_kib (Header.params h) < 4294967296
  pub parallelism_in : Params.parallelism (Header.params h) < 256
  pub pw_salt_len : length (Header.pw_salt h) ≡ 16
  pub pw_nonce_len : length (Header.pw_nonce h) ≡ 24
  pub pw_wrap_len : length (Header.pw_wrap h) ≡ 48
  pub rec_salt_len : length (Header.rec_salt h) ≡ 16
  pub rec_nonce_len : length (Header.rec_nonce h) ≡ 24
  pub rec_wrap_len : length (Header.rec_wrap h) ≡ 48
  pub body_nonce_len : length (Header.body_nonce h) ≡ 24
