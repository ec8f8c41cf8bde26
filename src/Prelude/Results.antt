-- ===== src/Prelude/Results.antt =====
-- Results with errors as values, for `do` blocks.
use mathlib.Core.Path.{◌≡◌, refl}

pub data Result {ℓ κ} (E : Type κ) (A : Type ℓ) : Type (ℓ ⊔ κ) where
  ok : A → Result E A
  err : E → Result E A

infixl 5 ◌>>=◌
abbrev pub ◌>>=◌ {ℓ κ θ} :
    {E : Type θ} {A : Type ℓ} {B : Type κ} → Result E A → (A → Result E B) → Result E B
ok a >>= f = f a
err e >>= f = err e

-- What a successful chain says of its parts.
pub >>=-inv {ℓ κ θ} :
    {E : Type θ} {A : Type ℓ} {B : Type κ} (m : Result E A) (f : A → Result E B) {b : B}
    → (m >>= f) ≡ ok b
    → (a : A) × (m ≡ ok a) × (f a ≡ ok b)
>>=-inv (ok a) f h = (a, refl, h)
>>=-inv (err e) f h = cc

-- A property of the value of a success.
abbrev pub OnOk {ℓ κ θ} : {E : Type θ} {A : Type ℓ} → (A → Type κ) → Result E A → Type κ
OnOk P (err e) = Unit {κ}
OnOk P (ok a) = P a

pub OnOk->>= {ℓ κ θ μ ν} :
    {E : Type θ} {A : Type ℓ} {B : Type κ} (P : A → Type μ) (Q : B → Type ν) (m : Result E A)
    (f : A → Result E B)
    → OnOk P m
    → ((a : A) → P a → OnOk Q (f a))
    → OnOk Q (m >>= f)
OnOk->>= P Q (ok a) f p q = q a p
OnOk->>= P Q (err e) f p q = tt

pub OnOk-map {ℓ θ μ ν} :
    {E : Type θ} {A : Type ℓ} {P : A → Type μ} (Q : A → Type ν) (m : Result E A)
    → ((a : A) → P a → Q a)
    → OnOk P m
    → OnOk Q m
OnOk-map Q (ok a) f p = f a p
OnOk-map Q (err e) f p = tt

pub OnOk-any {ℓ θ} : {E : Type θ} {A : Type ℓ} (m : Result E A) → OnOk (λ _. Unit {0}) m
OnOk-any (ok a) = tt
OnOk-any (err e) = tt
