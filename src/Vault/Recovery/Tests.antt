-- ===== src/Vault/Recovery/Tests.antt =====
-- A recovery code, typed as people do, and the theorem applied to it.
use wharf_tui.Base.{ℕ, ◌≡◌, refl, List, [], ◌∷◌, length}
use wharf_tui.Base.Text.{Str, codes, ascii, to_upper}
use wharf_tui.Base.Find.{index_where}
use wharf_tui.Vault.Recovery.Digits.{in_range-AllBelow}
use wharf_tui.Base.Results.{ok, err}
use wharf_tui.Vault.Recovery.{
  bad_recovery, char_at, chars, drain, encode_from, encode_crockford, recovery_secret,
}
use wharf_tui.Vault.Recovery.Typed.{reads_as-IsTyped, recovery_secret-typed}

abbrev secret : List ℕ
secret =
    0 ∷ 68 ∷ 50 ∷ 20 ∷ 199 ∷ 66 ∷ 84 ∷ 182 ∷ 53 ∷ 207 ∷ 132 ∷ 101 ∷ 58 ∷ 86 ∷ 215 ∷ 198 ∷ 117 ∷ 190
    ∷ 119 ∷ 223 ∷ 255 ∷ 1 ∷ 2 ∷ 3 ∷ 4 ∷ []

code_of_secret : encode_crockford secret ≡ codes "0123456789ABCDEFGHJKMNPQRSTVWXYZZW0G40R4"
unfolding encode_crockford chars char_at encode_from drain
code_of_secret = refl

-- The code in groups, in lower case and with letters for 0 and 1.
abbrev typed : Str
typed = codes "oi234 56789-abcde fghjk-MNPQR-STVWX-YZZWO G4oR4"

typed_wrong : recovery_secret ascii (codes "01234-56789") ≡ err bad_recovery
unfolding recovery_secret to_upper index_where
typed_wrong = refl

recovery_secret-typed_example :
    (length (encode_crockford secret) ≡ 40) × (recovery_secret ascii typed ≡ ok secret)
unfolding encode_crockford chars char_at encode_from drain
recovery_secret-typed_example =
    recovery_secret-typed ascii secret typed refl (in_range-AllBelow secret refl)
      (reads_as-IsTyped typed (encode_crockford secret) refl)
