-- ===== src/Simulation/Number.antt =====
-- The 64-bit floats of numpy, as the operations that the source uses on them (`Arith`), and the
-- laws of exact arithmetic (`IsExact`) under which the theorems about energy are stated: rounding,
-- overflow and NaN are outside those laws. `Integers` meets them.
pub mod Laws
pub mod Integers
use allocation_key_simulatio.Base.{◌≡◌, ◌⊎◌, Bool, true, false}

pub record Arith : Type 1 where
  pub Num : Type 0
  pub nought : Num
  pub unit : Num
  pub two : Num
  pub minus_one : Num
  pub ◌⊕◌ : Num → Num → Num
  pub ◌⊖◌ : Num → Num → Num
  pub ◌⊗◌ : Num → Num → Num
  pub ◌⊘◌ : Num → Num → Num
  pub abs : Num → Num
  pub minimum : Num → Num → Num
  pub same : Num → Num → Bool  -- `==`
  pub leq : Num → Num → Bool  -- `<=`
  pub less : Num → Num → Bool  -- `<`

module _ (a : Arith) where
  open a use {Num, nought, unit, two, minus_one, ◌⊕◌, ◌⊖◌, ◌⊗◌, ◌⊘◌, abs, minimum, same, leq, less}

  infixl 65 ◌⊕◌ ◌⊖◌
  infixl 70 ◌⊗◌ ◌⊘◌
  -- An ordered commutative ring with a division of which only this is used: half of a doubled number,
  -- and a quotient of a smaller non-negative number by a positive one.
  pub record IsExact : Type 0 where
    pub add_comm : (x y : Num) → x ⊕ y ≡ y ⊕ x
    pub add_assoc : (x y z : Num) → x ⊕ y ⊕ z ≡ x ⊕ (y ⊕ z)
    pub add-nought : (x : Num) → x ⊕ nought ≡ x
    pub sub-add : (x y : Num) → x ⊖ y ⊕ y ≡ x
    pub add-sub : (x y : Num) → x ⊕ y ⊖ y ≡ x
    pub mul_comm : (x y : Num) → x ⊗ y ≡ y ⊗ x
    pub mul-add : (x y z : Num) → x ⊗ (y ⊕ z) ≡ x ⊗ y ⊕ x ⊗ z
    pub mul-unit : (x : Num) → x ⊗ unit ≡ x
    pub mul-nought : (x : Num) → x ⊗ nought ≡ nought
    pub half_double : (x : Num) → (x ⊕ x) ⊘ two ≡ x
    pub abs_of_nonneg : (x : Num) → leq nought x ≡ true → abs x ≡ x
    pub add-abs_of_nonpos : (x : Num) → leq x nought ≡ true → x ⊕ abs x ≡ nought
    pub minimum_left : (x y : Num) → leq x y ≡ true → minimum x y ≡ x
    pub minimum_right : (x y : Num) → leq y x ≡ true → minimum x y ≡ y
    pub same_eq : (x y : Num) → same x y ≡ true → x ≡ y
    pub same_refl : (x : Num) → same x x ≡ true
    pub leq_refl : (x : Num) → leq x x ≡ true
    pub leq_total : (x y : Num) → (leq x y ≡ true) ⊎ (leq y x ≡ true)
    pub leq_trans : (x y z : Num) → leq x y ≡ true → leq y z ≡ true → leq x z ≡ true
    pub leq_antisymm : (x y : Num) → leq x y ≡ true → leq y x ≡ true → x ≡ y
    pub leq-add : (x y z w : Num) → leq x y ≡ true → leq z w ≡ true → leq (x ⊕ z) (y ⊕ w) ≡ true
    pub leq-sub : (x y : Num) → leq x y ≡ true → leq nought (y ⊖ x) ≡ true
    pub leq-of_sub : (x y : Num) → leq nought (y ⊖ x) ≡ true → leq x y ≡ true
    pub leq-mul :
        (x y : Num) → leq nought x ≡ true → leq nought y ≡ true → leq nought (x ⊗ y) ≡ true
    pub leq-div :
        (x y : Num)
        → leq nought x ≡ true
        → leq x y ≡ true
        → same y nought ≡ false
        → (leq nought (x ⊘ y) ≡ true) × (leq (x ⊘ y) unit ≡ true)
    pub less_of_nonneg : (x : Num) → leq nought x ≡ true → less minus_one x ≡ true
