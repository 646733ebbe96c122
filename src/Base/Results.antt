-- ===== src/Base/Results.antt =====
-- A value or an error, as Go returns them.
use mathlib.Core.Path.{◌≡◌, refl}
use mathlib.Core.Logic.{◌⊎◌, inl, inr}

pub data Result {ε ℓ} (E : Type ε) (A : Type ℓ) : Type (ℓ ⊔ ε) where
  err : E → Result E A
  ok : A → Result E A

-- What a successful result holds.
pub ok-injective {ε ℓ} :
    {E : Type ε} {A : Type ℓ} {a b : A} → ◌≡◌ {A = Result E A} (ok a) (ok b) → a ≡ b
ok-injective h = cc

infixl 5 ◌>>=◌
abbrev pub ◌>>=◌ {ε ℓ κ} :
    {E : Type ε} {A : Type ℓ} {B : Type κ} → Result E A → (A → Result E B) → Result E B
err why >>= next = err why
ok val >>= next = next val

-- A bind that succeeds has a first step that succeeds.
pub >>=-eq-ok {ε ℓ κ} :
    {E : Type ε} {A : Type ℓ} {B : Type κ} (first : Result E A) (next : A → Result E B) {b : B}
    → (first >>= next) ≡ ok b
    → (val : A) × (first ≡ ok val) × (next val ≡ ok b)
>>=-eq-ok (err why) next h = cc
>>=-eq-ok (ok val) next h = (val, refl, h)

infixl 5 ◌>>◌
abbrev pub ◌>>◌ {ε ℓ} : {E : Type ε} {B : Type ℓ} → Result E (Unit {0}) → Result E B → Result E B
checked >> rest = checked >>= λ done. rest

pub Result-cases {ε ℓ} :
    {E : Type ε} {A : Type ℓ} (r : Result E A) → ((e : E) × (r ≡ err e)) ⊎ ((a : A) × (r ≡ ok a))
Result-cases (err e) = inl (e, refl)
Result-cases (ok a) = inr (a, refl)
