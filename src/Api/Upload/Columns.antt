-- ===== src/Api/Upload/Columns.antt =====
-- The letters of a spreadsheet column, and their number.
use allocation_key_simulatio.Base.{
  ℕ, zero, suc, ◌+◌, ◌-◌, ◌/◌, ◌%◌, ◌≤◌, ◌<◌, ◌≡◌, refl, sym, inl, inr, Bool-cases, ==_iff, ◌∙◌, ap,
  Text, [], ◌∷◌, false, ◌==◌, leb, if◌then◌else◌, arith,
}
use allocation_key_simulatio.Api.Upload.{upper, column_from, column_number}

-- The letters of column `n` from the right: A to Z for 1 to 26, then AA.
letters_from : ℕ → ℕ → Text → Text
letters_from zero n acc = acc
letters_from (suc fuel) n acc =
    let rest = letters_from fuel ((n - 1) / 26) ((b'A' + (n - 1) % 26) ∷ acc) in
    if n == 0 then acc else rest

unfoldable pub column_letters : ℕ → Text
unfolding letters_from
column_letters n = letters_from n n []

leb-false : (a b : ℕ) → b < a → leb a b ≡ false
leb-false a b h = ground arith

not_zero : (n : ℕ) → (n == 0) ≡ false → 1 ≤ n
not_zero n h = ground arith

upper-capital : (c : ℕ) → c ≤ b'Z' → upper c ≡ c
unfolding upper
upper-capital c l = rw (leb-false b'a' c (omega (arith, l))) refl

column-letters_from :
    (fuel n : ℕ) (acc : Text)
    → n ≤ fuel
    → column_from 0 (letters_from fuel n acc) ≡ column_from n acc
unfolding letters_from
column-letters_from zero n acc l = ap (λ (k : ℕ). column_from k acc) (omega (arith, l))
column-letters_from (suc fuel) n acc l = elim (Bool-cases (n == 0)) [
  | inl q ↦ rw q (ap (λ (k : ℕ). column_from k acc) (sym ((==_iff n 0).0 q)))
  | inr q ↦
      let positive = not_zero n q in
      let digit = b'A' + (n - 1) % 26 in
      rw q (
        column-letters_from fuel ((n - 1) / 26) (digit ∷ acc) (omega (arith, l, positive))
        ∙ (unfold column_from in
            ap (λ (k : ℕ). column_from k acc)
              (rw (upper-capital digit (omega arith)) (omega (arith, positive)))))
]

-- The number computed from the letters of a column is the column's.
pub column_number-letters : (n : ℕ) → column_number (column_letters n) ≡ n
unfolding column_number column_letters
column_number-letters n = column-letters_from n n [] (omega arith)
