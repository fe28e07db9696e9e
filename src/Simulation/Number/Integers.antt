-- ===== src/Simulation/Number/Integers.antt =====
-- Whole numbers with truncated division: a concrete arithmetic that is exact.
use allocation_key_simulatio.Base.{
  ℕ, suc, ◌+◌, ◌-◌, ◌*◌, ◌/◌, ◌≤◌, ◌≡◌, ap, ◌⊎◌, Bool, true, false, not, arith, leb, ◌==◌,
  if◌then◌else◌,
}
use allocation_key_simulatio.Simulation.Number.{Arith, IsExact}

-- `negsuc n` is -(n + 1).
pub data ℤ : Type 0 where
  pos : ℕ → ℤ
  negsuc : ℕ → ℤ

abbrev pub pos_part : ℤ → ℕ
pos_part (pos n) = n
pos_part (negsuc n) = 0

abbrev pub neg_part : ℤ → ℕ
neg_part (pos n) = 0
neg_part (negsuc n) = suc n

-- a - b, as an integer.
abbrev pub sub_ℕ : ℕ → ℕ → ℤ
sub_ℕ a b = if leb b a then pos (a - b) else negsuc (b - a - 1)

infixl 65 ◌+ℤ◌ ◌-ℤ◌
infixl 70 ◌*ℤ◌ ◌/ℤ◌
unfoldable pub ◌+ℤ◌ : ℤ → ℤ → ℤ
a +ℤ b = sub_ℕ (pos_part a + pos_part b) (neg_part a + neg_part b)

unfoldable pub ◌-ℤ◌ : ℤ → ℤ → ℤ
a -ℤ b = sub_ℕ (pos_part a + neg_part b) (neg_part a + pos_part b)

unfoldable pub ◌*ℤ◌ : ℤ → ℤ → ℤ
a *ℤ b =
    sub_ℕ (pos_part a * pos_part b + neg_part a * neg_part b)
      (pos_part a * neg_part b + neg_part a * pos_part b)

-- Truncated towards 0; a negative divisor does not occur below.
unfoldable pub ◌/ℤ◌ : ℤ → ℤ → ℤ
a /ℤ b = sub_ℕ (pos_part a / pos_part b) (neg_part a / pos_part b)

abbrev pub leq_ℤ : ℤ → ℤ → Bool
leq_ℤ a b = leb (pos_part a + neg_part b) (pos_part b + neg_part a)

abbrev pub same_ℤ : ℤ → ℤ → Bool
same_ℤ a b = (pos_part a + neg_part b) == (pos_part b + neg_part a)

unfoldable pub abs_ℤ : ℤ → ℤ
abs_ℤ a = pos (pos_part a + neg_part a)

+ℤ_parts :
    (a b : ℤ)
    → pos_part (a +ℤ b) + neg_part a + neg_part b ≡ neg_part (a +ℤ b) + pos_part a + pos_part b
unfolding ◌+ℤ◌
+ℤ_parts a b = ground arith

-ℤ_parts :
    (a b : ℤ)
    → pos_part (a -ℤ b) + neg_part a + pos_part b ≡ neg_part (a -ℤ b) + pos_part a + neg_part b
unfolding ◌-ℤ◌
-ℤ_parts a b = ground arith

*ℤ_parts :
    (a b : ℤ)
    → pos_part (a *ℤ b) + (pos_part a * neg_part b + neg_part a * pos_part b)
      ≡ neg_part (a *ℤ b) + (pos_part a * pos_part b + neg_part a * neg_part b)
unfolding ◌*ℤ◌
*ℤ_parts a b = sub_ℕ_parts _ _
  where
    sub_ℕ_parts : (m n : ℕ) → pos_part (sub_ℕ m n) + n ≡ neg_part (sub_ℕ m n) + m
    sub_ℕ_parts m n = ground arith

eq_of_parts : (a b : ℤ) → pos_part a + neg_part b ≡ pos_part b + neg_part a → a ≡ b
eq_of_parts a b h = ground arith

ruleset integer_laws = (arith, +ℤ_parts, -ℤ_parts, eq_of_parts)

-- One of the parts is 0, so a product is determined by its difference.
mul-add_ℤ : (a b c : ℤ) → a *ℤ (b +ℤ c) ≡ a *ℤ b +ℤ a *ℤ c
mul-add_ℤ a b c = eq_of_parts _ _ (
    omega (
      integer_laws,
      *ℤ_parts a (b +ℤ c),
      *ℤ_parts a b,
      *ℤ_parts a c,
      ap (λ t. pos_part a * t) (+ℤ_parts b c),
      ap (λ t. neg_part a * t) (+ℤ_parts b c),
    ))

half_double_ℤ : (a : ℤ) → (a +ℤ a) /ℤ pos 2 ≡ a
unfolding ◌+ℤ◌ ◌/ℤ◌
half_double_ℤ a = ground arith

leq_ℤ_le : (a b : ℤ) → leq_ℤ a b ≡ true → pos_part a + neg_part b ≤ pos_part b + neg_part a
leq_ℤ_le a b h = ground arith

le-leq_ℤ : (a b : ℤ) → pos_part a + neg_part b ≤ pos_part b + neg_part a → leq_ℤ a b ≡ true
le-leq_ℤ a b h = ground arith

mul_comm_ℤ : (a b : ℤ) → a *ℤ b ≡ b *ℤ a
mul_comm_ℤ a b = eq_of_parts _ _ (omega (integer_laws, *ℤ_parts a b, *ℤ_parts b a))

mul-unit_ℤ : (a : ℤ) → a *ℤ pos 1 ≡ a
mul-unit_ℤ a = eq_of_parts _ _ (omega (integer_laws, *ℤ_parts a (pos 1)))

mul-nought_ℤ : (a : ℤ) → a *ℤ pos 0 ≡ pos 0
mul-nought_ℤ a = eq_of_parts _ _ (omega (integer_laws, *ℤ_parts a (pos 0)))

abs_of_nonneg_ℤ : (a : ℤ) → leq_ℤ (pos 0) a ≡ true → abs_ℤ a ≡ a
unfolding abs_ℤ
abs_of_nonneg_ℤ a h = ground arith

add-abs_of_nonpos_ℤ : (a : ℤ) → leq_ℤ a (pos 0) ≡ true → a +ℤ abs_ℤ a ≡ pos 0
unfolding abs_ℤ ◌+ℤ◌
add-abs_of_nonpos_ℤ a h = ground arith

minimum_right_ℤ : (a b : ℤ) → leq_ℤ b a ≡ true → (if leq_ℤ a b then a else b) ≡ b
minimum_right_ℤ a b h = ground arith

leq_total_ℤ : (a b : ℤ) → (leq_ℤ a b ≡ true) ⊎ (leq_ℤ b a ≡ true)
leq_total_ℤ a b = ground arith

leq-add_ℤ : (a b c d : ℤ) → leq_ℤ a b ≡ true → leq_ℤ c d ≡ true → leq_ℤ (a +ℤ c) (b +ℤ d) ≡ true
leq-add_ℤ a b c d h k =
    le-leq_ℤ (a +ℤ c) (b +ℤ d) (omega (integer_laws, leq_ℤ_le a b h, leq_ℤ_le c d k))

leq-sub_ℤ : (a b : ℤ) → leq_ℤ a b ≡ true → leq_ℤ (pos 0) (b -ℤ a) ≡ true
leq-sub_ℤ a b h = le-leq_ℤ (pos 0) (b -ℤ a) (omega (integer_laws, leq_ℤ_le a b h))

leq-of_sub_ℤ : (a b : ℤ) → leq_ℤ (pos 0) (b -ℤ a) ≡ true → leq_ℤ a b ≡ true
leq-of_sub_ℤ a b h = le-leq_ℤ a b (omega (integer_laws, leq_ℤ_le (pos 0) (b -ℤ a) h))

leq-mul_ℤ :
    (a b : ℤ) → leq_ℤ (pos 0) a ≡ true → leq_ℤ (pos 0) b ≡ true → leq_ℤ (pos 0) (a *ℤ b) ≡ true
unfolding ◌*ℤ◌
leq-mul_ℤ (pos m) (pos n) h k = ground arith
leq-mul_ℤ (pos m) (negsuc n) h k = absurd (ground arith)
leq-mul_ℤ (negsuc m) b h k = absurd (ground arith)

div-le-one : (m n : ℕ) → m ≤ n → m / n ≤ 1
div-le-one m n h = grind arith

leq-div_ℤ :
    (a b : ℤ)
    → leq_ℤ (pos 0) a ≡ true
    → leq_ℤ a b ≡ true
    → same_ℤ b (pos 0) ≡ false
    → (leq_ℤ (pos 0) (a /ℤ b) ≡ true) × (leq_ℤ (a /ℤ b) (pos 1) ≡ true)
unfolding ◌/ℤ◌
leq-div_ℤ (pos m) (pos n) h k e = (ground arith, ground (arith, div-le-one m n))
leq-div_ℤ (pos m) (negsuc n) h k e = absurd (ground arith)
leq-div_ℤ (negsuc m) b h k e = absurd (ground arith)

abbrev pub integers : Arith
integers = record {
  Num = ℤ;
  nought = pos 0;
  unit = pos 1;
  two = pos 2;
  minus_one = negsuc 0;
  ◌⊕◌ = ◌+ℤ◌;
  ◌⊖◌ = ◌-ℤ◌;
  ◌⊗◌ = ◌*ℤ◌;
  ◌⊘◌ = ◌/ℤ◌;
  abs = abs_ℤ;
  minimum = λ a b. if leq_ℤ a b then a else b;
  same = same_ℤ;
  leq = leq_ℤ;
  less = λ a b. not (leq_ℤ b a);
}

pub integers-IsExact : IsExact integers
integers-IsExact = record {
  add_comm = λ a b. omega integer_laws;
  add_assoc = λ a b c. omega integer_laws;
  add-nought = λ a. omega integer_laws;
  sub-add = λ a b. omega integer_laws;
  add-sub = λ a b. omega integer_laws;
  mul_comm = mul_comm_ℤ;
  mul-add = mul-add_ℤ;
  mul-unit = mul-unit_ℤ;
  mul-nought = mul-nought_ℤ;
  half_double = half_double_ℤ;
  abs_of_nonneg = abs_of_nonneg_ℤ;
  add-abs_of_nonpos = add-abs_of_nonpos_ℤ;
  minimum_left = λ a b h. ground arith;
  minimum_right = minimum_right_ℤ;
  same_eq = λ a b h. ground arith;
  same_refl = λ a. ground arith;
  leq_refl = λ a. ground arith;
  leq_total = leq_total_ℤ;
  leq_trans = λ a b c h k. ground arith;
  leq_antisymm = λ a b h k. ground arith;
  leq-add = leq-add_ℤ;
  leq-sub = leq-sub_ℤ;
  leq-of_sub = leq-of_sub_ℤ;
  leq-mul = leq-mul_ℤ;
  leq-div = leq-div_ℤ;
  less_of_nonneg = λ a h. ground arith;
}
