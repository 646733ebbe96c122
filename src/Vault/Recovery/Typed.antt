-- ===== src/Vault/Recovery/Typed.antt =====
-- What a person may type for a recovery code, and that it is read as the code's secret.
use wharf_tui.Base.{
  ℕ, zero, suc, ◌+◌, ◌-◌, ◌<◌, ◌≡◌, refl, subst, ap, sym, Bool, true, false, not, ◌&&◌, ◌||◌,
  Option, none, some, List, [], ◌∷◌, ◌++◌, if◌then◌else◌, ◌==◌, ==_iff, leb, length, arith, inl,
  inr, Bool-cases, or_split, and_split, implied,
}
use wharf_tui.Base.Text.{Str, Unicode, str_eq, str_eq→eq, upper_rune, to_upper}
use wharf_tui.Base.Find.{index_where}
use wharf_tui.Base.Results.{ok}
use wharf_tui.Vault.Recovery.{
  recovery_secret_len, char_at, chars, encode_from, encode_crockford, digit_value, decode_from,
  decode_crockford, fold_lookalikes, normalize_recovery, recovery_secret,
}
use wharf_tui.Vault.Recovery.Digits.{
  AllBelow, add_digit, decode_digits, length-IsGrouped, decode_digits-encode_from,
  length-encode_from,
}

-- A test that every number below `n` passes.
all_below : ℕ → (ℕ → Bool) → Bool
all_below zero p = true
all_below (suc n) p = p n && all_below n p

all_below_at : (p : ℕ → Bool) (n v : ℕ) → all_below n p ≡ true → v < n → p v ≡ true
unfolding all_below
all_below_at p zero v h l = absurd (omega arith)
all_below_at p (suc n) v h l = elim (Bool-cases (v == n)) [
  | inl e ↦ let here : v ≡ n = (==_iff v n).0 e in ground (arith, here)
  | inr e ↦ all_below_at p n v (ground arith) (ground arith)
]

-- The digit of a character of the alphabet.
some_is : ℕ → Option ℕ → Bool
some_is v none = false
some_is v (some w) = w == v

some_is-eq : (v : ℕ) (o : Option ℕ) → some_is v o ≡ true → o ≡ some v
unfolding some_is
some_is-eq v none h = cc
some_is-eq v (some w) h = ap some ((==_iff w v).0 h)

digit_value-char_at : (v : ℕ) → v < 32 → digit_value (char_at v) ≡ some v
unfolding digit_value char_at index_where all_below some_is
digit_value-char_at v l =
    some_is-eq v (digit_value (char_at v))
      (all_below_at (λ v. some_is v (digit_value (char_at v))) 32 v refl l)

decode_from-chars :
    (buf bits : ℕ) (vs : List ℕ)
    → AllBelow 32 vs
    → decode_from buf bits (chars vs) ≡ ok (decode_digits buf bits vs)
unfolding decode_from chars
decode_from-chars buf bits [] h = refl
decode_from-chars buf bits (v ∷ vs) (hv, hvs) = ground (
  arith,
  digit_value-char_at v hv,
  decode_from-chars (add_digit buf v) (if leb 8 (bits + 5) then bits + 5 - 8 else bits + 5) vs hvs,
)

length-chars : (vs : List ℕ) → length (chars vs) ≡ length vs
unfolding chars
length-chars [] = refl
length-chars (v ∷ vs) = ap suc (length-chars vs)

length-encode_crockford :
    (secret : List ℕ)
    → length secret ≡ 25
    → AllBelow 256 secret
    → length (encode_crockford secret) ≡ 40
unfolding encode_crockford
length-encode_crockford secret l b =
    let vs = encode_from 0 0 secret in
    omega (arith, length-chars vs, length-encode_from 0 secret (length-IsGrouped 5 secret l b))

-- A character that may be typed for `c`: itself, its lower case, or one that looks like it.
abbrev pub is_lower_of : ℕ → ℕ → Bool
is_lower_of x c = (x == c + 32) && leb b'A' c

abbrev pub looks_like_one : ℕ → Bool
looks_like_one x = (x == b'I') || ((x == b'L') || ((x == b'i') || (x == b'l')))

abbrev pub looks_like_zero : ℕ → Bool
looks_like_zero x = (x == b'O') || (x == b'o')

abbrev pub stands_for : ℕ → ℕ → Bool
stands_for x c =
    (x == c)
    || (is_lower_of x c
        || (((c == b'1') && looks_like_one x) || ((c == b'0') && looks_like_zero x)))

abbrev pub is_separator : ℕ → Bool
is_separator x = (x == b'-') || (x == b' ')

-- The text `t` is `code`, typed with separators anywhere.
pub data IsTyped : Str → Str → Type 0 where
  end : IsTyped [] []
  separator :
      (x : ℕ) (t code : Str)
      → (x == b'-') || (x == b' ') ≡ true
      → IsTyped t code
      → IsTyped (x ∷ t) code
  letter :
      (x c : ℕ) (t code : Str) → stands_for x c ≡ true → IsTyped t code → IsTyped (x ∷ t) (c ∷ code)

abbrev pub reads_as : Str → Str → Bool
reads_as [] [] = true
reads_as [] (_ ∷ _) = false
reads_as (x ∷ t) [] = is_separator x && reads_as t []
reads_as (x ∷ t) (c ∷ code) =
    let skipped = reads_as t (c ∷ code) in
    let read = reads_as t code in if is_separator x then skipped else (stands_for x c && read)

-- Typing can be tested.
pub reads_as-IsTyped : (t code : Str) → reads_as t code ≡ true → IsTyped t code
reads_as-IsTyped [] [] h = end
reads_as-IsTyped [] (_ ∷ _) h = cc
reads_as-IsTyped (x ∷ t) [] h =
    let (s, r) = and_split (is_separator x) (reads_as t []) h in
    separator x t [] s (reads_as-IsTyped t [] r)
reads_as-IsTyped (x ∷ t) (c ∷ code) h = elim (Bool-cases (is_separator x)) [
  | inl s ↦ separator x t (c ∷ code) s (
      reads_as-IsTyped t (c ∷ code) (
        subst
          (λ b. (if b then reads_as t (c ∷ code) else (stands_for x c && reads_as t code)) ≡ true) s
          h))
  | inr s ↦
      let (l, r) = and_split (stands_for x c) (reads_as t code) (
        subst
          (λ b. (if b then reads_as t (c ∷ code) else (stands_for x c && reads_as t code)) ≡ true) s
          h) in
      letter x c t code l (reads_as-IsTyped t code r)
]

fold_cons :
    (y : ℕ) (r : Str) → fold_lookalikes (y ∷ r) ≡ fold_lookalikes (y ∷ []) ++ fold_lookalikes r
unfolding fold_lookalikes
fold_cons y r = ground arith

module _ (u : Unicode) where
  -- What the normalisation makes of one character.
  fold_one : ℕ → Str
  fold_one x = fold_lookalikes (upper_rune u x ∷ [])

  fold_separator : (x : ℕ) → (x == b'-') || (x == b' ') ≡ true → fold_one x ≡ []
  unfolding fold_one fold_lookalikes upper_rune
  fold_separator x h = elim (or_split (x == b'-') (x == b' ') h) [
    | inl e ↦ let eq : x ≡ b'-' = (==_iff x b'-').0 e in rw eq refl
    | inr e ↦ let eq : x ≡ b' ' = (==_iff x b' ').0 e in rw eq refl
  ]

  -- The characters of the alphabet, as they are, and the letters in lower case.
  fold_alphabet : (v : ℕ) → v < 32 → fold_one (char_at v) ≡ char_at v ∷ []
  unfolding fold_one fold_lookalikes upper_rune char_at all_below str_eq
  fold_alphabet v l =
      str_eq→eq (fold_one (char_at v)) (char_at v ∷ [])
        (all_below_at (λ v. str_eq (fold_one (char_at v)) (char_at v ∷ [])) 32 v refl l)

  fold_lower_case :
      (v : ℕ) → v < 32 → leb b'A' (char_at v) ≡ true → fold_one (char_at v + 32) ≡ char_at v ∷ []
  unfolding fold_one fold_lookalikes upper_rune char_at all_below str_eq
  fold_lower_case v l h =
      let p : ℕ → Bool =
        λ v. not (leb b'A' (char_at v)) || str_eq (fold_one (char_at v + 32)) (char_at v ∷ []) in
      let q : p v ≡ true = all_below_at p 32 v refl l in
      str_eq→eq (fold_one (char_at v + 32)) (char_at v ∷ [])
        (implied (leb b'A' (char_at v)) (str_eq (fold_one (char_at v + 32)) (char_at v ∷ [])) q h)

  fold_one_eq : (x y : ℕ) (s : Str) → fold_one y ≡ s → x == y ≡ true → fold_one x ≡ s
  fold_one_eq x y s f e = rw ((==_iff x y).0 e) f

  fold_like_one : (x : ℕ) → looks_like_one x ≡ true → fold_one x ≡ b'1' ∷ []
  unfolding fold_one fold_lookalikes upper_rune
  fold_like_one x h = elim (or_split (x == b'I') ((x == b'L') || ((x == b'i') || (x == b'l'))) h) [
    | inl e ↦ fold_one_eq x b'I' (b'1' ∷ []) refl e
    | inr h' ↦ elim (or_split (x == b'L') ((x == b'i') || (x == b'l')) h') [
      | inl e ↦ fold_one_eq x b'L' (b'1' ∷ []) refl e
      | inr h'' ↦ elim (or_split (x == b'i') (x == b'l') h'') [
        | inl e ↦ fold_one_eq x b'i' (b'1' ∷ []) refl e
        | inr e ↦ fold_one_eq x b'l' (b'1' ∷ []) refl e
      ]
    ]
  ]

  fold_like_zero : (x : ℕ) → looks_like_zero x ≡ true → fold_one x ≡ b'0' ∷ []
  unfolding fold_one fold_lookalikes upper_rune
  fold_like_zero x h = elim (or_split (x == b'O') (x == b'o') h) [
    | inl e ↦ fold_one_eq x b'O' (b'0' ∷ []) refl e
    | inr e ↦ fold_one_eq x b'o' (b'0' ∷ []) refl e
  ]

  fold_like :
      (x c d : ℕ) (like : Bool)
      → (like ≡ true → fold_one x ≡ d ∷ [])
      → (c == d) && like ≡ true
      → fold_one x ≡ c ∷ []
  fold_like x c d like f h =
      let (e, g) = and_split (c == d) like h in let eq : c ≡ d = (==_iff c d).0 e in rw eq (f g)

  fold_letter : (x v : ℕ) → v < 32 → stands_for x (char_at v) ≡ true → fold_one x ≡ char_at v ∷ []
  fold_letter x v l h =
      let c = char_at v in
      let one = (c == b'1') && looks_like_one x in
      let nought = (c == b'0') && looks_like_zero x in
      elim (or_split (x == c) (is_lower_of x c || (one || nought)) h) [
        | inl e ↦ fold_one_eq x c (c ∷ []) (fold_alphabet v l) e
        | inr h' ↦ elim (or_split (is_lower_of x c) (one || nought) h') [
          | inl e ↦
              let (e', g) = and_split (x == c + 32) (leb b'A' c) e in
              fold_one_eq x (c + 32) (c ∷ []) (fold_lower_case v l g) e'
          | inr h'' ↦ elim (or_split one nought h'') [
            | inl e ↦ fold_like x c b'1' (looks_like_one x) (fold_like_one x) e
            | inr e ↦ fold_like x c b'0' (looks_like_zero x) (fold_like_zero x) e
          ]
        ]
      ]

  normalize_cons :
      (x : ℕ) (t : Str) → normalize_recovery u (x ∷ t) ≡ fold_one x ++ normalize_recovery u t
  unfolding normalize_recovery to_upper fold_one
  normalize_cons x t = fold_cons (upper_rune u x) (to_upper u t)

  normalize_nil : normalize_recovery u [] ≡ []
  unfolding normalize_recovery to_upper fold_lookalikes
  normalize_nil = refl

  -- A typed code is normalised to the code.
  normalize-typed :
      (t code : Str)
      → IsTyped t code
      → (vs : List ℕ) → code ≡ chars vs
      → AllBelow 32 vs
      → normalize_recovery u t ≡ chars vs
  unfolding chars
  normalize-typed _ _ end vs e h = rw normalize_nil e
  normalize-typed _ _ (separator x t code p i) vs e h =
      rw (normalize_cons x t, fold_separator x p, normalize-typed t code i vs e h) refl
  normalize-typed _ _ (letter x c t code p i) [] e h = cc
  normalize-typed _ _ (letter x c t code p i) (v ∷ vs) e (l, ls) =
      let here : c ≡ char_at v = cc in
      let rest : code ≡ chars vs = cc in
      let q : stands_for x (char_at v) ≡ true = rw (sym here) p in
      rw (normalize_cons x t, fold_letter x v l q, normalize-typed t code i vs rest ls) refl

  read_typed :
      (secret t : List ℕ)
      → length secret ≡ recovery_secret_len
      → AllBelow 256 secret
      → IsTyped t (encode_crockford secret)
      → recovery_secret u t ≡ ok secret
  unfolding recovery_secret encode_crockford decode_crockford
  read_typed secret t l b i =
      let (below, same) = decode_digits-encode_from 0 0 secret (length-IsGrouped 5 secret l b) in
      rw
        (
          normalize-typed t (chars (encode_from 0 0 secret)) i (encode_from 0 0 secret) refl below,
          decode_from-chars 0 0 (encode_from 0 0 secret) below,
          same,
          l,
        )
        refl

  -- The recovery code of a secret of 25 bytes has 40 characters, and `recovery_secret` reads the
  -- secret from it however it is typed: with dashes and spaces anywhere, in either case, and with
  -- I or L for 1 and O for 0.
  pub recovery_secret-typed :
      (secret t : List ℕ)
      → length secret ≡ 25
      → AllBelow 256 secret
      → IsTyped t (encode_crockford secret)
      → (length (encode_crockford secret) ≡ 40) × (recovery_secret u t ≡ ok secret)
  recovery_secret-typed secret t l b i =
      (length-encode_crockford secret l b, read_typed secret t l b i)
