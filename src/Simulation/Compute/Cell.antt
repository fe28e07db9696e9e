-- ===== src/Simulation/Compute/Cell.antt =====
-- One consumer at one timestep: where an allocation goes, and what stays of a consumption.
use allocation_key_simulatio.Base.{◌≡◌, sym, ap, ap₂, ◌∙◌, ◌⊎◌, inl, inr, true}
use allocation_key_simulatio.Simulation.Number.{Arith, IsExact}
use allocation_key_simulatio.Simulation.Number.Laws.{sub_nonpos}
use allocation_key_simulatio.Simulation.Series.{relu_at}

module _ (a : Arith) (x : IsExact a) where
  open a use {Num, nought, two, ◌⊕◌, ◌⊖◌, ◌⊘◌, abs, minimum, leq}

  infixl 65 ◌⊕◌ ◌⊖◌
  infixl 70 ◌⊘◌
  pub relu_at_of_nonneg : (p : Num) → leq nought p ≡ true → relu_at a p ≡ p
  unfolding relu_at
  relu_at_of_nonneg p h = ap (λ t. (p ⊕ t) ⊘ two) (x.abs_of_nonneg p h) ∙ x.half_double p

  pub relu_at_of_nonpos : (p : Num) → leq p nought ≡ true → relu_at a p ≡ nought
  unfolding relu_at
  relu_at_of_nonpos p h =
      ap (λ t. t ⊘ two) (x.add-abs_of_nonpos p h ∙ sym (x.add-nought nought)) ∙ x.half_double nought

  pub relu_at_nonneg : (p : Num) → leq nought (relu_at a p) ≡ true
  relu_at_nonneg p = elim (x.leq_total nought p) [
    | inl h ↦ rw (relu_at_of_nonneg p h) h
    | inr h ↦ rw (relu_at_of_nonpos p h) (x.leq_refl nought)
  ]

  -- What is taken and what is left over make the whole.
  pub minimum-add-relu : (p q : Num) → minimum p q ⊕ relu_at a (p ⊖ q) ≡ p
  minimum-add-relu p q = elim (x.leq_total p q) [
    | inl h ↦
        ap₂ ◌⊕◌ (x.minimum_left p q h) (relu_at_of_nonpos (p ⊖ q) (sub_nonpos a x p q h))
        ∙ x.add-nought p
    | inr h ↦
        ap₂ ◌⊕◌ (x.minimum_right p q h) (relu_at_of_nonneg (p ⊖ q) (x.leq-sub q p h))
        ∙ x.add_comm q (p ⊖ q)
        ∙ x.sub-add p q
  ]

  pub minimum_comm : (p q : Num) → minimum p q ≡ minimum q p
  minimum_comm p q = elim (x.leq_total p q) [
    | inl h ↦ x.minimum_left p q h ∙ sym (x.minimum_right q p h)
    | inr h ↦ x.minimum_right p q h ∙ sym (x.minimum_left q p h)
  ]

  pub minimum-add-relu_right : (p q : Num) → minimum p q ⊕ relu_at a (q ⊖ p) ≡ q
  minimum-add-relu_right p q =
      ap (λ t. t ⊕ relu_at a (q ⊖ p)) (minimum_comm p q) ∙ minimum-add-relu q p

  pub minimum_leq_left : (p q : Num) → leq (minimum p q) p ≡ true
  minimum_leq_left p q = elim (x.leq_total p q) [
    | inl h ↦ rw (x.minimum_left p q h) (x.leq_refl p)
    | inr h ↦ rw (x.minimum_right p q h) h
  ]

  pub minimum_leq_right : (p q : Num) → leq (minimum p q) q ≡ true
  minimum_leq_right p q = rw (minimum_comm p q) (minimum_leq_left q p)

  pub minimum_nonneg :
      (p q : Num) → leq nought p ≡ true → leq nought q ≡ true → leq nought (minimum p q) ≡ true
  minimum_nonneg p q hp hq = elim (x.leq_total p q) [
    | inl h ↦ rw (x.minimum_left p q h) hp
    | inr h ↦ rw (x.minimum_right p q h) hq
  ]

  -- A consumer is never left short and given too much at once.
  pub relu_one_side : (p q : Num) → (relu_at a (p ⊖ q) ≡ nought) ⊎ (relu_at a (q ⊖ p) ≡ nought)
  relu_one_side p q = elim (x.leq_total p q) [
    | inl h ↦ inl (relu_at_of_nonpos (p ⊖ q) (sub_nonpos a x p q h))
    | inr h ↦ inr (relu_at_of_nonpos (q ⊖ p) (sub_nonpos a x q p h))
  ]
