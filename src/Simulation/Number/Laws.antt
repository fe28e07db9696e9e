-- ===== src/Simulation/Number/Laws.antt =====
-- What follows from the laws of exact arithmetic: cancellation, signs, and one cell of the solver.
use allocation_key_simulatio.Base.{◌≡◌, sym, ap, ap₂, ◌∙◌, true, ◌≡⟨◌⟩◌, ◌∎}
use allocation_key_simulatio.Simulation.Number.{Arith, IsExact}

module _ (a : Arith) (x : IsExact a) where
  open a use {Num, nought, two, ◌⊕◌, ◌⊖◌, ◌⊗◌, ◌⊘◌, abs, minimum, leq}

  infixl 65 ◌⊕◌ ◌⊖◌
  infixl 70 ◌⊗◌ ◌⊘◌
  pub nought-add : (p : Num) → nought ⊕ p ≡ p
  nought-add p = x.add_comm nought p ∙ x.add-nought p

  pub add_right_cancel : (p q r : Num) → p ⊕ r ≡ q ⊕ r → p ≡ q
  add_right_cancel p q r h = sym (x.add-sub p r) ∙ ap (λ s. s ⊖ r) h ∙ x.add-sub q r

  pub add_left_cancel : (p q r : Num) → r ⊕ p ≡ r ⊕ q → p ≡ q
  add_left_cancel p q r h = add_right_cancel p q r (x.add_comm p r ∙ h ∙ x.add_comm r q)

  -- (p + q) + (r + s) = (p + r) + (q + s)
  pub add_interchange : (p q r s : Num) → p ⊕ q ⊕ (r ⊕ s) ≡ p ⊕ r ⊕ (q ⊕ s)
  add_interchange p q r s =
      p ⊕ q ⊕ (r ⊕ s)
      ≡⟨ x.add_assoc p q (r ⊕ s) ⟩ p ⊕ (q ⊕ (r ⊕ s))
      ≡⟨ ap (λ t. p ⊕ t) (sym (x.add_assoc q r s)) ⟩ p ⊕ (q ⊕ r ⊕ s)
      ≡⟨ ap (λ t. p ⊕ (t ⊕ s)) (x.add_comm q r) ⟩ p ⊕ (r ⊕ q ⊕ s)
      ≡⟨ ap (λ t. p ⊕ t) (x.add_assoc r q s) ⟩ p ⊕ (r ⊕ (q ⊕ s))
      ≡⟨ sym (x.add_assoc p r (q ⊕ s)) ⟩ p ⊕ r ⊕ (q ⊕ s) ∎

  pub sub_self : (p : Num) → p ⊖ p ≡ nought
  sub_self p = add_right_cancel (p ⊖ p) nought p (x.sub-add p p ∙ sym (nought-add p))

  -- p - q and q - p are opposite.
  pub sub-add-sub : (p q : Num) → (p ⊖ q) ⊕ (q ⊖ p) ≡ nought
  sub-add-sub p q = add_right_cancel _ _ p (
      x.add_assoc (p ⊖ q) (q ⊖ p) p
      ∙ ap (λ t. (p ⊖ q) ⊕ t) (x.sub-add q p)
      ∙ x.sub-add p q
      ∙ sym (nought-add p))

  pub nonneg-add :
      (p q : Num) → leq nought p ≡ true → leq nought q ≡ true → leq nought (p ⊕ q) ≡ true
  nonneg-add p q hp hq =
      rw (ap (λ t. leq t (p ⊕ q)) (sym (x.add-nought nought))) (x.leq-add nought p nought q hp hq)

  pub sub_nonpos : (p q : Num) → leq p q ≡ true → leq (p ⊖ q) nought ≡ true
  sub_nonpos p q h =
      ap₂ leq (sym (x.add-nought (p ⊖ q))) (sym (sub-add-sub p q))
      ∙ x.leq-add (p ⊖ q) (p ⊖ q) nought (q ⊖ p) (x.leq_refl _) (x.leq-sub p q h)

  pub leq-mul_right :
      (p q r : Num) → leq p q ≡ true → leq nought r ≡ true → leq (r ⊗ p) (r ⊗ q) ≡ true
  leq-mul_right p q r h hr =
      x.leq-of_sub (r ⊗ p) (r ⊗ q)
        (ap (leq nought) (sym factor) ∙ x.leq-mul r (q ⊖ p) hr (x.leq-sub p q h))
    where
      factor : r ⊗ (q ⊖ p) ≡ r ⊗ q ⊖ r ⊗ p
      factor =
          sym (x.add-sub (r ⊗ (q ⊖ p)) (r ⊗ p))
          ∙ ap (λ t. t ⊖ r ⊗ p) (sym (x.mul-add r (q ⊖ p) p) ∙ ap (λ t. r ⊗ t) (x.sub-add q p))
