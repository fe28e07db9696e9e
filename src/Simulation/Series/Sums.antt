-- ===== src/Simulation/Series/Sums.antt =====
-- Sums over timesteps and over consumers: `total` and `sum_axis0` are additive.
use allocation_key_simulatio.Base.{
  ℕ, zero, suc, ◌≡◌, refl, sym, ap, ap₂, ◌∙◌, List, [], ◌∷◌, map, true, length, zip_with, All,
  arith,
}
use allocation_key_simulatio.Simulation.Number.{Arith, IsExact}
use allocation_key_simulatio.Simulation.Number.Laws.{add_interchange, nonneg-add}
use allocation_key_simulatio.Simulation.Series.{Series, Matrix, plus, total, sum_axis0, zeros}

-- Every row has `t` timesteps.
abbrev pub IsWide {ℓ} : {A : Type ℓ} → ℕ → List (List A) → Type 0
IsWide t [] = Unit
IsWide t (row ∷ rows) = (length row ≡ t) × IsWide t rows

pub length-zip_with {ℓ} :
    {A B C : Type ℓ} (f : A → B → C) (t : ℕ) (ps : List A) (qs : List B)
    → length ps ≡ t
    → length qs ≡ t
    → length (zip_with f ps qs) ≡ t
length-zip_with f t [] qs hp hq = hp
length-zip_with f t (p ∷ ps) [] hp hq = hq
length-zip_with f zero (p ∷ ps) (q ∷ qs) hp hq = absurd (omega arith)
length-zip_with f (suc t) (p ∷ ps) (q ∷ qs) hp hq =
    ap suc (length-zip_with f t ps qs (omega arith) (omega arith))

module _ (a : Arith) (x : IsExact a) where
  open a use {Num, nought, ◌⊕◌, leq}

  infixl 65 ◌⊕◌
  pub total-plus :
      (t : ℕ) (ps qs : Series a)
      → length ps ≡ t
      → length qs ≡ t
      → total a (plus a ps qs) ≡ total a ps ⊕ total a qs
  total-plus t [] [] hp hq = sym (x.add-nought nought)
  total-plus t [] (q ∷ qs) hp hq = absurd (omega arith)
  total-plus t (p ∷ ps) [] hp hq = absurd (omega arith)
  total-plus zero (p ∷ ps) (q ∷ qs) hp hq = absurd (omega arith)
  total-plus (suc t) (p ∷ ps) (q ∷ qs) hp hq =
      ap (λ s. p ⊕ q ⊕ s) (total-plus t ps qs (omega arith) (omega arith))
      ∙ add_interchange a x p q (total a ps) (total a qs)

  pub total-zeros : (t : ℕ) → total a (zeros a t) ≡ nought
  total-zeros zero = refl
  total-zeros (suc t) = ap (λ s. nought ⊕ s) (total-zeros t) ∙ x.add-nought nought

  pub plus-zeros : (t : ℕ) → plus a (zeros a t) (zeros a t) ≡ zeros a t
  plus-zeros zero = refl
  plus-zeros (suc t) = ap₂ ◌∷◌ (x.add-nought nought) (plus-zeros t)

  pub length-zeros : (t : ℕ) → length (zeros a t) ≡ t
  length-zeros zero = refl
  length-zeros (suc t) = ap suc (length-zeros t)

  pub plus_interchange :
      (ps qs rs ss : Series a)
      → plus a (plus a ps qs) (plus a rs ss) ≡ plus a (plus a ps rs) (plus a qs ss)
  plus_interchange (p ∷ ps) (q ∷ qs) (r ∷ rs) (s ∷ ss) =
      ap₂ ◌∷◌ (add_interchange a x p q r s) (plus_interchange ps qs rs ss)
  plus_interchange [] qs rs ss = refl
  plus_interchange (p ∷ ps) [] [] ss = refl
  plus_interchange (p ∷ ps) [] (r ∷ rs) ss = refl
  plus_interchange (p ∷ ps) (q ∷ qs) [] ss = refl
  plus_interchange (p ∷ ps) (q ∷ qs) (r ∷ rs) [] = refl

  pub length-sum_axis0 : (t : ℕ) (rows : Matrix a) → IsWide t rows → length (sum_axis0 a t rows) ≡ t
  length-sum_axis0 t [] h = length-zeros t
  length-sum_axis0 t (row ∷ rows) h =
      length-zip_with ◌⊕◌ t row (sum_axis0 a t rows) h.0 (length-sum_axis0 t rows h.1)

  -- A sum over consumers of sums is the sum of the two sums over consumers.
  pub sum_axis0-plus {ℓ} :
      {A : Type ℓ} (f g h : A → Series a) (t : ℕ) (cs : List A)
      → All (λ c. plus a (f c) (g c) ≡ h c) cs
      → plus a (sum_axis0 a t (map f cs)) (sum_axis0 a t (map g cs)) ≡ sum_axis0 a t (map h cs)
  sum_axis0-plus f g h t [] e = plus-zeros t
  sum_axis0-plus f g h t (c ∷ cs) e =
      plus_interchange (f c) (sum_axis0 a t (map f cs)) (g c) (sum_axis0 a t (map g cs))
      ∙ ap₂ (plus a) e.0 (sum_axis0-plus f g h t cs e.1)

  -- The total over timesteps of a sum over consumers is the sum of the consumers' totals.
  pub total-sum_axis0 :
      (t : ℕ) (rows : Matrix a)
      → IsWide t rows
      → total a (sum_axis0 a t rows) ≡ total a (map (total a) rows)
  total-sum_axis0 t [] h = total-zeros t
  total-sum_axis0 t (row ∷ rows) h =
      total-plus t row (sum_axis0 a t rows) h.0 (length-sum_axis0 t rows h.1)
      ∙ ap (λ s. total a row ⊕ s) (total-sum_axis0 t rows h.1)

  abbrev pub IsNonneg : Num → Type 0
  IsNonneg p = leq nought p ≡ true

  pub total-IsNonneg : (ps : Series a) → All IsNonneg ps → IsNonneg (total a ps)
  total-IsNonneg [] h = x.leq_refl nought
  total-IsNonneg (p ∷ ps) h = nonneg-add a x p (total a ps) h.0 (total-IsNonneg ps h.1)

  pub plus-IsNonneg :
      (ps qs : Series a) → All IsNonneg ps → All IsNonneg qs → All IsNonneg (plus a ps qs)
  plus-IsNonneg [] qs hp hq = tt
  plus-IsNonneg (p ∷ ps) [] hp hq = tt
  plus-IsNonneg (p ∷ ps) (q ∷ qs) hp hq =
      (nonneg-add a x p q hp.0 hq.0, plus-IsNonneg ps qs hp.1 hq.1)

  pub zeros-IsNonneg : (t : ℕ) → All IsNonneg (zeros a t)
  zeros-IsNonneg zero = tt
  zeros-IsNonneg (suc t) = (x.leq_refl nought, zeros-IsNonneg t)

  pub sum_axis0-IsNonneg :
      (t : ℕ) (rows : Matrix a) → All (All IsNonneg) rows → All IsNonneg (sum_axis0 a t rows)
  sum_axis0-IsNonneg t [] h = zeros-IsNonneg t
  sum_axis0-IsNonneg t (row ∷ rows) h =
      plus-IsNonneg row (sum_axis0 a t rows) h.0 (sum_axis0-IsNonneg t rows h.1)

  pub total_leq :
      (t : ℕ) (ps qs : Series a)
      → length ps ≡ t
      → length qs ≡ t
      → All (λ b. b ≡ true) (zip_with leq ps qs)
      → leq (total a ps) (total a qs) ≡ true
  total_leq t [] [] hp hq h = x.leq_refl nought
  total_leq t [] (q ∷ qs) hp hq h = absurd (omega arith)
  total_leq t (p ∷ ps) [] hp hq h = absurd (omega arith)
  total_leq zero (p ∷ ps) (q ∷ qs) hp hq h = absurd (omega arith)
  total_leq (suc t) (p ∷ ps) (q ∷ qs) hp hq h =
      x.leq-add p q (total a ps) (total a qs) h.0
        (total_leq t ps qs (omega arith) (omega arith) h.1)
