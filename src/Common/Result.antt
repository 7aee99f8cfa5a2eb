-- ===== src/Common/Result.antt =====
-- A Go function that returns `(T, error)`: the value, or the error that it reports.
use mathlib.Core.Path.{◌≡◌, refl}
use mathlib.Core.Logic.{◌⊎◌, inl, inr}
use mathlib.Core.Bool.{Bool, true, false}

pub data Result {ℓ} (E : Type 0) (A : Type ℓ) : Type ℓ where
  err : E → Result E A
  ok : A → Result E A

infixl 5 ◌>>=◌
-- `v, err := m; if err != nil { return err }`
abbrev pub ◌>>=◌ {ℓ ℓ'} :
    {E : Type 0} {A : Type ℓ} {B : Type ℓ'} (m : Result E A) (k : A → Result E B) → Result E B
err e >>= k = err e
ok v >>= k = k v

-- Inversion of a successful bind.
pub >>=-eq-ok {ℓ ℓ'} :
    {E : Type 0} {A : Type ℓ} {B : Type ℓ'} (m : Result E A) (k : A → Result E B) {last : B}
    → (m >>= k) ≡ ok last
    → (v : A) × (m ≡ ok v) × (k v ≡ ok last)
>>=-eq-ok (err e) k done = cc
>>=-eq-ok (ok v) k done = (v, refl, done)

-- `if b { return e }`
abbrev pub fail_if : {E : Type 0} → Bool → E → Result E (Unit {0})
fail_if true e = err e
fail_if false e = ok tt

infixl 5 ◌>>◌
abbrev pub ◌>>◌ {ℓ} :
    {E : Type 0} {B : Type ℓ} (first : Result E (Unit {0})) (next : Result E B) → Result E B
first >> next = first >>= λ _. next

-- An error, with the type of the value that it stands in for.
abbrev pub err_at {ℓ} : {E : Type 0} (A : Type ℓ) → E → Result E A
err_at A e = err e

pub err-ne-ok {ℓ} : {E : Type 0} {A : Type ℓ} {e : E} {a : A} → ¬ (err_at A e ≡ ok a)
err-ne-ok h = cc

-- To split on a computed result and keep the equation.
pub Result-cases {ℓ} :
    {E : Type 0} {A : Type ℓ} (r : Result E A) → ((v : A) × (r ≡ ok v)) ⊎ ((e : E) × (r ≡ err e))
Result-cases (ok v) = inl (v, refl)
Result-cases (err e) = inr (e, refl)

-- A check that has passed, and what came after it.
pub fail_if-ok {ℓ} :
    {E : Type 0} {B : Type ℓ} (b : Bool) (e : E) (next : Result E B) {last : B}
    → (fail_if b e >> next) ≡ ok last
    → (b ≡ false) × (next ≡ ok last)
fail_if-ok true e next h = absurd (err-ne-ok h)
fail_if-ok false e next h = (refl, h)
