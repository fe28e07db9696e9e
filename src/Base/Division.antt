-- ===== src/Base/Division.antt =====
-- Division rounded up, and lists cut into pieces of one length.
use Prim.Native.Nat.{ℕ, zero, suc, ◌+◌, ◌-◌, ◌*◌, ◌/◌, ◌≤◌, ◌<◌}
use mathlib.Core.Path.{◌≡◌, refl, ap, sym, ◌∙◌}
use mathlib.Core.List.{List, [], ◌∷◌, ◌++◌}
use native.Mathlib.Nat.{lt-div-mul-add, div-mul-le_self}
use native.Mathlib.Omega.{arith}
use allocation_key_simulatio.Base.Lists.{length, take, All}

-- `-(-n // d)` and `math.ceil(n / d)`, for a positive d.
unfoldable pub ceil_div : ℕ → ℕ → ℕ
ceil_div n d = (n + (d - 1)) / d

pub ceil_div-mul : (n d : ℕ) → 1 ≤ d → n ≤ ceil_div n d * d
unfolding ceil_div
ceil_div-mul n d h = omega (arith, h, lt-div-mul-add {a = n + (d - 1)} {b = d} h)

pub ceil_div-lt : (n d : ℕ) → 1 ≤ d → ceil_div n d * d < n + d
unfolding ceil_div
ceil_div-lt n d h = omega (arith, h, div-mul-le_self (n + (d - 1)) d)

module _ {ℓ} {A : Type ℓ} where
  abbrev pub drop : ℕ → List A → List A
  drop zero xs = xs
  drop (suc n) [] = []
  drop (suc n) (x ∷ xs) = drop n xs

  take-nil : (k : ℕ) → ◌≡◌ {A = List A} (take k []) []
  take-nil zero = refl
  take-nil (suc k) = refl

  pub All-drop : (P : A → Type ℓ) (n : ℕ) (xs : List A) → All P xs → All P (drop n xs)
  All-drop P zero xs h = h
  All-drop P (suc n) [] h = h
  All-drop P (suc n) (x ∷ xs) (p, h) = All-drop P n xs h

  pub take-add : (m k : ℕ) (xs : List A) → take (m + k) xs ≡ take m xs ++ take k (drop m xs)
  take-add zero k xs = ap (λ (n : ℕ). take n xs) (omega arith)
  take-add (suc m) k [] = take-nil (suc m + k) ∙ sym (take-nil k)
  take-add (suc m) k (x ∷ xs) =
      let e : suc m + k ≡ suc (m + k) = omega arith in
      rw e (ap (λ (r : List A). x ∷ r) (take-add m k xs))

  pub take_of_length-le : (n : ℕ) (xs : List A) → length xs ≤ n → take n xs ≡ xs
  take_of_length-le zero [] h = refl
  take_of_length-le zero (x ∷ xs) h = absurd (omega (arith, h))
  take_of_length-le (suc n) [] h = refl
  take_of_length-le (suc n) (x ∷ xs) h =
      ap (λ (r : List A). x ∷ r) (take_of_length-le n xs (omega (arith, h)))
