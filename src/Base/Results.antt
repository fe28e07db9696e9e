-- ===== src/Base/Results.antt =====
-- The result of code that may raise.
use mathlib.Core.Path.{◌≡◌, refl}
use mathlib.Core.Logic.{◌⊎◌, inl, inr}
use mathlib.Core.Bool.{Bool, true, false}
use allocation_key_simulatio.Base.Tests.{if◌then◌else◌}

pub data Result {ℓ κ} (E : Type ℓ) (A : Type κ) : Type (ℓ ⊔ κ) where
  ok : A → Result E A
  raised : E → Result E A

infixl 5 ◌>>=◌
abbrev pub ◌>>=◌ {ℓ κ μ} :
    {E : Type ℓ} {A : Type κ} {B : Type μ} → Result E A → (A → Result E B) → Result E B
ok a >>= f = f a
raised e >>= f = raised e

abbrev pub raise_if {ℓ} : {E : Type ℓ} → Bool → E → Result E (Unit {0})
raise_if true e = raised e
raise_if false e = ok tt

pub >>=-eq-ok {ℓ κ μ} :
    {E : Type ℓ} {A : Type κ} {B : Type μ} (m : Result E A) (f : A → Result E B) {b : B}
    → (m >>= f) ≡ ok b
    → (v : A) × (m ≡ ok v) × (f v ≡ ok b)
>>=-eq-ok (ok v) f h = (v, refl, h)
>>=-eq-ok (raised e) f h = cc

-- A guard that a successful run has passed.
pub if-raised-eq-ok {ℓ κ} :
    {E : Type ℓ} {A : Type κ} (test : Bool) (e : E) (m : Result E A) {v : A}
    → (if test then raised e else m) ≡ ok v
    → (test ≡ false) × (m ≡ ok v)
if-raised-eq-ok true e m h = cc
if-raised-eq-ok false e m h = (refl, h)

pub Result-cases {ℓ κ} :
    {E : Type ℓ} {A : Type κ} (m : Result E A) → ((v : A) × (m ≡ ok v)) ⊎ ((e : E) × (m ≡ raised e))
Result-cases (ok v) = inl (v, refl)
Result-cases (raised e) = inr (e, refl)

pub ok-injective {ℓ κ} :
    {E : Type ℓ} {A : Type κ} {v w : A} → ◌≡◌ {A = Result E A} (ok v) (ok w) → v ≡ w
ok-injective h = cc
