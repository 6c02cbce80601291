-- ===== src/Base/Results.antt =====
-- Code that may throw: a value, or the error that is thrown.
use mathlib.Core.Path.{◌≡◌, refl}
use mathlib.Core.Bool.{Bool, true, false}

pub data Result {ℓ κ} (E : Type ℓ) (A : Type κ) : Type (ℓ ⊔ κ) where
  ok : A → Result E A
  err : E → Result E A

-- `if (test) throw error;`
abbrev pub throw_if {ℓ} : {E : Type ℓ} → Bool → E → Result E (Unit {0})
throw_if false e = ok tt
throw_if true e = err e

abbrev pub ◌>>=◌ {ℓ κ μ} :
    {E : Type ℓ} {A : Type κ} {B : Type μ} → Result E A → (A → Result E B) → Result E B
err thrown >>= next = err thrown
ok value >>= next = next value

infixl 5 ◌>>=◌
-- A statement, and what is done if it does not throw.
abbrev pub ◌>>◌ {ℓ μ} : {E : Type ℓ} {B : Type μ} → Result E (Unit {0}) → Result E B → Result E B
statement >> next = statement >>= λ done. next

infixl 5 ◌>>◌
-- What follows runs only on a value.
pub >>=-eq-ok {ℓ κ μ} :
    {E : Type ℓ} {A : Type κ} {B : Type μ} (first : Result E A) (next : A → Result E B) {b : B}
    → (first >>= next) ≡ ok b
    → (value : A) × (first ≡ ok value) × (next value ≡ ok b)
>>=-eq-ok (err thrown) next h = cc
>>=-eq-ok (ok value) next h = (value, refl, h)

-- What a statement `if (test) throw e;` tells of code that returns.
pub throw_if-passed {ℓ κ} :
    {E : Type ℓ} {A : Type κ} (test : Bool) (e : E) (next : Result E A) {a : A}
    → (throw_if test e >>= λ _. next) ≡ ok a
    → (test ≡ false) × (next ≡ ok a)
throw_if-passed true e next h = cc
throw_if-passed false e next h = (refl, h)
