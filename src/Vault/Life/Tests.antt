-- ===== src/Vault/Life/Tests.antt =====
-- A vault under a cipher of the tests' own, and the theorems applied to it.
use wharf_tui.Base.{
  ℕ, ◌≡◌, refl, true, false, Option, none, some, List, [], ◌∷◌, ◌++◌, if◌then◌else◌, ◌==◌, length,
  take, drop, replicate, length-take, length-append, length-replicate, take-append_left,
  drop-append_left, arith, ltb,
}
use wharf_tui.Base.Text.{Str, codes, ascii, str_eq, str_eq_refl}
use wharf_tui.Vault.{Params, Header, marshal, valid_params}
use wharf_tui.Vault.Disk.{Bytes, World, Os, write_file_atomic}
use wharf_tui.Vault.Disk.Atomic.{IsReplaced, write_file_atomic-IsReplaced}
use wharf_tui.Vault.Life.{
  Crypto, Vault, create_with_params, open_with_password, open_with_recovery, install_blob,
  unwrap_password, unwrap_secret, unwrap_dek, open_body,
}
use wharf_tui.Vault.Life.Sealed.{IsLawful, IsUsable}
use wharf_tui.Vault.Life.Written.{Contents, IsOpen, IsStored}
use wharf_tui.Vault.Recovery.{encode_crockford, chars, char_at, encode_from, drain}
use wharf_tui.Vault.Life.Created.{IsNew, create-IsNew}
use wharf_tui.Vault.Life.Opens.{LockAfter, answer, open_vault-answer, IsOpenedAs, open-stored}
use wharf_tui.Vault.Recovery.Digits.{in_range-AllBelow}
use wharf_tui.Vault.Recovery.Typed.{reads_as-IsTyped}
use wharf_tui.Vault.Life.Refines.{
  Command, save_payload, set_password, new_code, Account, both, run, IsHistory, Agrees,
  run-IsHistory,
}
use wharf_tui.Vault.Life.Installed.{IsInstalled, install_blob-IsInstalled}
use wharf_tui.Vault.Life.Slots.{IsRandom}

-- The tag is the start of the key, and the data is left readable.
toy : Crypto
toy = record {
  derive_kek = λ secret salt p. take 32 (secret ++ replicate 32 0);
  seal = λ key nonce plain aad. if length key == 32 then some (take 16 key ++ plain) else none;
  unseal = λ key nonce sealed aad.
      if str_eq (take 16 sealed) (take 16 key) then some (drop 16 sealed) else none;
  subkey = λ key info. key;
}

tag_len : (key : Bytes) → length key ≡ 32 → length (take 16 key) ≡ 16
tag_len key l = omega (arith, length-take 16 key)

take-tag : (key plain : Bytes) → length key ≡ 32 → take 16 (take 16 key ++ plain) ≡ take 16 key
take-tag key plain l = let e = take-append_left (take 16 key) plain in rw (tag_len key l) at e

drop-tag : (key plain : Bytes) → length key ≡ 32 → drop 16 (take 16 key ++ plain) ≡ plain
drop-tag key plain l = let e = drop-append_left (take 16 key) plain in rw (tag_len key l) at e

toy-IsLawful : IsLawful toy
unfolding toy
toy-IsLawful = record {
  kek_len = λ secret salt p. omega (
    arith,
    length-take 32 (secret ++ replicate 32 0),
    length-append secret (replicate 32 0),
    length-replicate {A = ℕ} 32 0,
  );
  seals = λ key nonce plain aad l n. (
    take 16 key ++ plain,
    rw l refl,
    omega (arith, length-append (take 16 key) plain, tag_len key l),
    rw (take-tag key plain l, str_eq_refl (take 16 key), drop-tag key plain l) refl,
  );
}

-- A system on which no call fails, and all random bytes are sevens.
abbrev quiet : Os
quiet = record { fails = λ _. false; written = λ _. 0; random = λ _ n. replicate n 7 }

quiet-IsRandom : IsRandom quiet
quiet-IsRandom t n = length-replicate n 7

abbrev empty_dir : World
empty_dir = record { file = none; tmp = none; is_locked = false; clock = 0; past = [] }

abbrev params : Params
params = record { time = 1; memory_kib = 8; parallelism = 1 }

abbrev password : Bytes
password = codes "hunter2"

-- Anything at all.
abbrev Anything : Option Bytes → Type 0
Anything f = Unit

create-IsNew_example :
    let (r, w') = create_with_params quiet toy params password empty_dir in
    IsNew quiet toy Anything empty_dir password r w'
create-IsNew_example =
    create-IsNew quiet toy Anything empty_dir password params toy-IsLawful quiet-IsRandom
      (omega arith) (λ _ _ _. tt) (tt, tt)

abbrev dek : Bytes
dek = replicate 32 7

abbrev secret : Bytes
secret = replicate 25 9

-- The DEK under the key of a secret.
abbrev wrapped : Bytes → Bytes
wrapped key = take 16 (take 32 (key ++ replicate 32 0)) ++ dek

abbrev header : Header
header = record {
  version = 1;
  kdf = 1;
  params = params;
  pw_salt = replicate 16 0;
  pw_nonce = replicate 24 0;
  pw_wrap = wrapped password;
  rec_salt = replicate 16 0;
  rec_nonce = replicate 24 0;
  rec_wrap = wrapped secret;
  body_nonce = replicate 24 0;
}

header-IsUsable : IsUsable header
unfolding valid_params
header-IsUsable = record {
  sized = record {
    version_in = omega arith;
    kdf_in = omega arith;
    time_in = omega arith;
    memory_in = omega arith;
    parallelism_in = omega arith;
    pw_salt_len = refl;
    pw_nonce_len = refl;
    pw_wrap_len = refl;
    rec_salt_len = refl;
    rec_nonce_len = refl;
    rec_wrap_len = refl;
    body_nonce_len = refl;
  };
  version_1 = refl;
  kdf_1 = refl;
  params_valid = refl;
}

abbrev contents : Contents
contents = record { password = password; secret = secret; payload = 1 ∷ 2 ∷ [] }

abbrev file_bytes : Bytes
file_bytes = marshal header ++ (take 16 dek ++ (1 ∷ 2 ∷ []))

contents-IsStored : IsStored toy (some file_bytes) contents
unfolding toy unwrap_password unwrap_secret unwrap_dek str_eq open_body
contents-IsStored = record {
  data' = file_bytes;
  h = header;
  dek = dek;
  there = refl;
  dek_len = refl;
  sealed = record {
    body = take 16 dek ++ (1 ∷ 2 ∷ []);
    layout = refl;
    usable = header-IsUsable;
    opens = refl;
  };
  opens_with = (refl, refl);
}

abbrev vault_dir : World
vault_dir = record { file = some file_bytes; tmp = none; is_locked = false; clock = 0; past = [] }

open_vault-answer_example :
    let (r, w') = open_with_password quiet toy password vault_dir in
    (r ≡ answer toy (unwrap_password toy password) vault_dir)
    × (World.file w' ≡ some file_bytes)
    × LockAfter quiet toy (unwrap_password toy password) vault_dir r w'
unfolding open_with_password
open_vault-answer_example =
    open_vault-answer quiet toy (unwrap_password toy password) vault_dir (λ _. refl)

abbrev typed : Str
typed = codes "i44gj-289L4-4GJ28-9144G-J2891-44GJ2-89144-gj289"

open-stored_example :
    IsOpenedAs quiet toy
      (λ _. refl)
      vault_dir
      contents
      (open_with_password quiet toy password vault_dir)
    × IsOpenedAs quiet toy
        (λ _. refl)
        vault_dir
        contents
        (open_with_recovery quiet toy ascii typed vault_dir)
unfolding encode_crockford chars char_at encode_from drain
open-stored_example =
    open-stored quiet toy (λ _. refl) vault_dir contents ascii typed contents-IsStored refl refl
      (in_range-AllBelow secret refl) (reads_as-IsTyped typed (encode_crockford secret) refl)

abbrev vault : Vault
vault = record { hdr = header; dek = some dek; payload = 1 ∷ 2 ∷ []; has_lock = true }

vault-IsOpen : IsOpen toy vault contents
unfolding toy unwrap_password unwrap_secret unwrap_dek str_eq
vault-IsOpen = record {
  dek = dek;
  has_dek = refl;
  dek_len = refl;
  usable = header-IsUsable;
  opens_with = (refl, refl);
  holds = refl;
}

-- The vault is saved, and then the password is changed while the disk is full.
abbrev full_disk : Os
full_disk = record { fails = λ t. ltb 15 t; written = λ _. 3; random = λ _ n. replicate n 7 }

abbrev opened_dir : World
opened_dir = record { file = some file_bytes; tmp = none; is_locked = true; clock = 0; past = [] }

abbrev commands : List Command
commands = save_payload (3 ∷ []) ∷ set_password (codes "correct horse") ∷ new_code ∷ []

run-IsHistory_example :
    let (rs, (v', w')) = run full_disk toy commands vault opened_dir in
    (b : Account) × IsHistory commands rs (both contents) b × Agrees toy v' w' b
run-IsHistory_example =
    run-IsHistory full_disk toy toy-IsLawful (λ _ n. length-replicate n 7) commands vault opened_dir
      (both contents) (vault-IsOpen, contents-IsStored, refl, ((contents, contents-IsStored), tt))

install_blob-IsInstalled_example :
    let (r, w') = install_blob quiet toy file_bytes password empty_dir in
    IsInstalled quiet toy Anything empty_dir file_bytes password r w'
install_blob-IsInstalled_example =
    install_blob-IsInstalled quiet toy Anything empty_dir file_bytes password tt (tt, tt)

write_file_atomic-IsReplaced_example :
    let (r, w') = write_file_atomic full_disk (1 ∷ 2 ∷ []) vault_dir in
    IsReplaced Anything (1 ∷ 2 ∷ []) vault_dir r w'
write_file_atomic-IsReplaced_example =
    write_file_atomic-IsReplaced full_disk Anything (1 ∷ 2 ∷ []) vault_dir tt (tt, tt)
