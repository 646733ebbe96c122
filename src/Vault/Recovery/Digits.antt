-- ===== src/Vault/Recovery/Digits.antt =====
-- Base32 and back, five bytes at a time.
use wharf_tui.Base.{
  ℕ, zero, suc, ◌+◌, ◌-◌, ◌*◌, ◌/◌, ◌%◌, ◌^◌, ◌<◌, ◌≡◌, refl, ◌∙◌, Bool, true, ◌&&◌, List, [], ◌∷◌,
  ◌++◌, if◌then◌else◌, ltb, leb, length, arith, and_split, ltb→lt,
}
use wharf_tui.Vault.Recovery.{two_to_64, encode_from}

-- Every byte, and every digit.
abbrev pub AllBelow : ℕ → List ℕ → Type 0
AllBelow n [] = Unit
AllBelow n (x ∷ xs) = (x < n) × AllBelow n xs

abbrev pub in_range : List ℕ → Bool
in_range [] = true
in_range (b ∷ bs) = ltb b 256 && in_range bs

pub in_range-AllBelow : (bs : List ℕ) → in_range bs ≡ true → AllBelow 256 bs
in_range-AllBelow [] h = tt
in_range-AllBelow (b ∷ bs) h =
    let (l, r) = and_split (ltb b 256) (in_range bs) h in (ltb→lt b 256 l, in_range-AllBelow bs r)

-- Five bytes as eight digits.
abbrev group_digits : ℕ → ℕ → ℕ → ℕ → ℕ → List ℕ
group_digits a b c d e =
    (a / 8)
    ∷ (a % 8 * 4 + b / 64)
    ∷ (b / 2 % 32)
    ∷ (b % 2 * 16 + c / 16)
    ∷ (c % 16 * 2 + d / 128)
    ∷ (d / 4 % 32)
    ∷ (d % 4 * 8 + e / 32)
    ∷ (e % 32)
    ∷ []

cons_eq : {x y : ℕ} {xs ys : List ℕ} → x ≡ y → xs ≡ ys → x ∷ xs ≡ y ∷ ys
cons_eq p q = rw (p, q) refl

-- The buffer after a byte, and after a digit.
abbrev add_byte : ℕ → ℕ → ℕ
add_byte x c = x * 256 % two_to_64 + c

abbrev pub add_digit : ℕ → ℕ → ℕ
add_digit x v = x * 32 % two_to_64 + v

-- The digits of a byte `c` after `p`, by the number of bits that `p` left over.
digits_0 : (x c : ℕ) → c < 256 → add_byte x c / 8 % 32 ≡ c / 8
digits_0 x c h = omega arith

digits_3 :
    (x p c : ℕ)
    → p < 256
    → c < 256
    → (add_byte (add_byte x p) c / 64 % 32 ≡ p % 8 * 4 + c / 64)
      × (add_byte (add_byte x p) c / 2 % 32 ≡ c / 2 % 32)
digits_3 x p c g h = (omega arith, omega arith)

digits_1 :
    (x p c : ℕ) → p < 256 → c < 256 → add_byte (add_byte x p) c / 16 % 32 ≡ p % 2 * 16 + c / 16
digits_1 x p c g h = omega arith

digits_4 :
    (x p c : ℕ)
    → p < 256
    → c < 256
    → (add_byte (add_byte x p) c / 128 % 32 ≡ p % 16 * 2 + c / 128)
      × (add_byte (add_byte x p) c / 4 % 32 ≡ c / 4 % 32)
digits_4 x p c g h = (omega arith, omega arith)

digits_2 :
    (x p c : ℕ)
    → p < 256
    → c < 256
    → (add_byte (add_byte x p) c / 32 % 32 ≡ p % 4 * 8 + c / 32)
      × (add_byte (add_byte x p) c / 1 % 32 ≡ c % 32)
digits_2 x p c g h = (omega arith, omega arith)

encode_group :
    (x a b c d e : ℕ) (bs : List ℕ)
    → AllBelow 256 (a ∷ b ∷ c ∷ d ∷ e ∷ [])
    → encode_from x 0 (a ∷ b ∷ c ∷ d ∷ e ∷ bs)
      ≡ group_digits a b c d e
        ++ encode_from (add_byte (add_byte (add_byte (add_byte (add_byte x a) b) c) d) e) 0 bs
unfolding encode_from
encode_group x a b c d e bs (ha, (hb, (hc, (hd, (he, _))))) =
    let y = add_byte x a in
    let z = add_byte (add_byte y b) c in
    let (e1, e2) = digits_3 x a b ha hb in
    let (e4, e5) = digits_4 (add_byte y b) c d hc hd in
    let (e6, e7) = digits_2 z d e hd he in
    cons_eq (digits_0 x a ha) (
      cons_eq e1 (
        cons_eq e2 (
          cons_eq (digits_1 y b c hb hc) (cons_eq e4 (cons_eq e5 (cons_eq e6 (cons_eq e7 refl)))))))

-- The bytes of eight digits, from the state before them.
abbrev pub decode_digits : ℕ → ℕ → List ℕ → List ℕ
decode_digits buf bits [] = []
decode_digits buf bits (v ∷ vs) =
    let buf' = add_digit buf v in
    let rest = decode_digits buf' (if leb 8 (bits + 5) then bits + 5 - 8 else bits + 5) vs in
    if leb 8 (bits + 5) then (buf' / 2 ^ (bits + 5 - 8) % 256) ∷ rest else rest

byte_2 : (x p q : ℕ) → p < 32 → q < 32 → add_digit (add_digit x p) q / 4 % 256 ≡ p * 8 + q / 4
byte_2 x p q g h = omega arith

byte_4 :
    (x p q r : ℕ)
    → p < 32
    → q < 32
    → r < 32
    → add_digit (add_digit (add_digit x p) q) r / 16 % 256 ≡ p % 4 * 64 + q * 2 + r / 16
byte_4 x p q r f g h = omega arith

byte_1 : (x p q : ℕ) → p < 32 → q < 32 → add_digit (add_digit x p) q / 2 % 256 ≡ p % 16 * 16 + q / 2
byte_1 x p q g h = omega arith

byte_3 :
    (x p q r : ℕ)
    → p < 32
    → q < 32
    → r < 32
    → add_digit (add_digit (add_digit x p) q) r / 8 % 256 ≡ p % 2 * 128 + q * 4 + r / 8
byte_3 x p q r f g h = omega arith

byte_0 : (x p q : ℕ) → p < 32 → q < 32 → add_digit (add_digit x p) q / 1 % 256 ≡ p % 8 * 32 + q
byte_0 x p q g h = omega arith

-- The buffer after some digits.
abbrev add_digits : ℕ → List ℕ → ℕ
add_digits x [] = x
add_digits x (v ∷ vs) = add_digits (add_digit x v) vs

decode_group :
    (x a b c d e : ℕ) (vs : List ℕ)
    → AllBelow 256 (a ∷ b ∷ c ∷ d ∷ e ∷ [])
    → decode_digits x 0 (group_digits a b c d e ++ vs)
      ≡ a ∷ b ∷ c ∷ d ∷ e ∷ decode_digits (add_digits x (group_digits a b c d e)) 0 vs
decode_group x a b c d e vs (ha, (hb, (hc, (hd, (he, _))))) =
    let y = add_digit (add_digit x (a / 8)) (a % 8 * 4 + b / 64) in
    let z = add_digit (add_digit y (b / 2 % 32)) (b % 2 * 16 + c / 16) in
    let w = add_digit (add_digit z (c % 16 * 2 + d / 128)) (d / 4 % 32) in
    cons_eq (byte_2 x (a / 8) (a % 8 * 4 + b / 64) (omega arith) (omega arith) ∙ omega arith) (
      cons_eq
        (byte_4 (add_digit x (a / 8)) (a % 8 * 4 + b / 64) (b / 2 % 32) (b % 2 * 16 + c / 16)
            (omega arith) (omega arith) (omega arith)
          ∙ omega arith)
        (cons_eq
          (byte_1 (add_digit y (b / 2 % 32)) (b % 2 * 16 + c / 16) (c % 16 * 2 + d / 128)
              (omega arith) (omega arith)
            ∙ omega arith)
          (cons_eq
            (byte_3 z (c % 16 * 2 + d / 128) (d / 4 % 32) (d % 4 * 8 + e / 32) (omega arith)
                (omega arith) (omega arith)
              ∙ omega arith)
            (cons_eq
              (byte_0 w (d % 4 * 8 + e / 32) (e % 32) (omega arith) (omega arith) ∙ omega arith)
              refl))))

-- The digits that an encoding writes are digits.
group_digits-AllBelow :
    (a b c d e : ℕ) (vs : List ℕ)
    → AllBelow 256 (a ∷ b ∷ c ∷ d ∷ e ∷ [])
    → AllBelow 32 vs
    → AllBelow 32 (group_digits a b c d e ++ vs)
group_digits-AllBelow a b c d e vs (ha, (hb, (hc, (hd, (he, _))))) rest =
    let l6 : e / 32 < 8 = omega arith in
    let l3 : c / 16 < 16 = omega arith in
    (
      omega arith,
      (
        omega arith,
        (
          omega arith,
          (omega arith, (omega arith, (omega arith, (omega arith, (omega arith, rest))))),
        ),
      ),
    )

-- A list of whole groups of five bytes.
pub data IsGrouped : List ℕ → Type 0 where
  empty : IsGrouped []
  group :
      (a b c d e : ℕ) (bs : List ℕ)
      → AllBelow 256 (a ∷ b ∷ c ∷ d ∷ e ∷ [])
      → IsGrouped bs
      → IsGrouped (a ∷ b ∷ c ∷ d ∷ e ∷ bs)

pub length-IsGrouped : (n : ℕ) (bs : List ℕ) → length bs ≡ 5 * n → AllBelow 256 bs → IsGrouped bs
length-IsGrouped zero [] h b = empty
length-IsGrouped zero (_ ∷ _) h b = absurd (omega arith)
length-IsGrouped (suc n) [] h b = absurd (omega arith)
length-IsGrouped (suc n) (_ ∷ []) h b = absurd (omega arith)
length-IsGrouped (suc n) (_ ∷ _ ∷ []) h b = absurd (omega arith)
length-IsGrouped (suc n) (_ ∷ _ ∷ _ ∷ []) h b = absurd (omega arith)
length-IsGrouped (suc n) (_ ∷ _ ∷ _ ∷ _ ∷ []) h b = absurd (omega arith)
length-IsGrouped (suc n) (a ∷ b ∷ c ∷ d ∷ e ∷ bs) h (ha, (hb, (hc, (hd, (he, rest))))) =
    group a b c d e bs (ha, (hb, (hc, (hd, (he, tt))))) (length-IsGrouped n bs (omega arith) rest)

encode_from-nil : (x : ℕ) → encode_from x 0 [] ≡ []
unfolding encode_from
encode_from-nil x = refl

-- The digits of whole groups are digits, and they stand for the groups.
pub decode_digits-encode_from :
    (x y : ℕ) (bs : List ℕ)
    → IsGrouped bs
    → AllBelow 32 (encode_from x 0 bs) × (decode_digits y 0 (encode_from x 0 bs) ≡ bs)
decode_digits-encode_from x y _ empty = (rw (encode_from-nil x) tt, rw (encode_from-nil x) refl)
decode_digits-encode_from x y _ (group a b c d e bs h g) =
    let x' = add_byte (add_byte (add_byte (add_byte (add_byte x a) b) c) d) e in
    let y' = add_digits y (group_digits a b c d e) in
    let (below, same) = decode_digits-encode_from x' y' bs g in
    (
      rw (encode_group x a b c d e bs h)
          (group_digits-AllBelow a b c d e (encode_from x' 0 bs) h below),
      rw (encode_group x a b c d e bs h, decode_group y a b c d e (encode_from x' 0 bs) h, same)
          refl,
    )

-- Five bytes take eight digits.
pub length-encode_from :
    (x : ℕ) (bs : List ℕ) → IsGrouped bs → 5 * length (encode_from x 0 bs) ≡ 8 * length bs
length-encode_from x _ empty = rw (encode_from-nil x) refl
length-encode_from x _ (group a b c d e bs h g) =
    let x' = add_byte (add_byte (add_byte (add_byte (add_byte x a) b) c) d) e in
    rw (encode_group x a b c d e bs h) (omega (arith, length-encode_from x' bs g))
