-- ===== src/Api/Timeseries/Response/Replacing.antt =====
-- Replacing across a byte that no token has.
use allocation_key_simulatio.Base.{
  ℕ, zero, suc, ◌-◌, ◌≤◌, ◌≡◌, refl, ap, sym, List, [], ◌∷◌, ◌++◌, append_assoc, Bool, true, false,
  ◌==◌, ◌||◌, length, any, All, inl, inr, Bool-cases, arith,
}
use allocation_key_simulatio.Shared.Loading.{Bytes}
use allocation_key_simulatio.Api.Timeseries.Response.{
  starts_with, replace_from, replace, null, non_finite, replace_all, nulls, is_non_finite,
}

abbrev Lacks : ℕ → Bytes → Type 0
Lacks c token = any (λ (d : ℕ). c == d) token ≡ false

pub or-false : (a b : Bool) → (a || b) ≡ false → (a ≡ false) × (b ≡ false)
or-false false b h = (refl, h)
or-false true b h = cc

module _ (c : ℕ) (after : Bytes) where
  -- A token without `c` that starts at a place before `c` ends before it.
  starts_with-append :
      (token run : Bytes)
      → Lacks c token
      → starts_with token (run ++ c ∷ after) ≡ starts_with token run
  unfolding starts_with
  starts_with-append [] run h = refl
  starts_with-append (x ∷ xs) [] h = ground arith
  starts_with-append (x ∷ xs) (d ∷ run) h =
      rw (starts_with-append xs run (or-false (c == x) (any (λ (e : ℕ). c == e) xs) h).1) refl

  not-starts :
      (token : Bytes) → Lacks c token → 1 ≤ length token → starts_with token (c ∷ after) ≡ false
  unfolding starts_with
  not-starts [] h p = absurd (omega (arith, p))
  not-starts (x ∷ xs) h p = ground arith

  starts_with-le : (token run : Bytes) → starts_with token run ≡ true → length token ≤ length run
  unfolding starts_with
  starts_with-le [] run h = omega arith
  starts_with-le (x ∷ xs) [] h = cc
  starts_with-le (x ∷ xs) (d ∷ run) h = let ih = starts_with-le xs run in ground (arith, ih)

  replace_from-append :
      (token by : Bytes) (skip : ℕ) (run : Bytes)
      → Lacks c token
      → 1 ≤ length token
      → skip ≤ length run
      → replace_from token by skip (run ++ c ∷ after)
        ≡ replace_from token by skip run ++ c ∷ replace_from token by zero after
  unfolding replace_from
  replace_from-append token by zero [] h p l = rw (not-starts token h p) refl
  replace_from-append token by (suc skip) [] h p l = absurd (omega (arith, l))
  replace_from-append token by (suc skip) (d ∷ run) h p l =
      replace_from-append token by skip run h p (omega (arith, l))
  replace_from-append token by zero (d ∷ run) h p l =
      rw (starts_with-append token (d ∷ run) h) (elim (Bool-cases (starts_with token (d ∷ run))) [
        | inl q ↦ rw q (
            rw
              (replace_from-append token by (length token - 1) run h p
                (omega (arith, starts_with-le token (d ∷ run) q)))
              (sym (append_assoc by _ _)))
        | inr q ↦
            rw q
              (ap (λ (r : Bytes). d ∷ r) (replace_from-append token by zero run h p (omega arith)))
      ])

replace_all-append :
    (c : ℕ) (tokens : List Bytes) (run after : Bytes)
    → All (λ token. Lacks c token × (1 ≤ length token)) tokens
    → replace_all tokens (run ++ c ∷ after) ≡ replace_all tokens run ++ c ∷ replace_all tokens after
unfolding replace
replace_all-append c [] run after h = refl
replace_all-append c (token ∷ tokens) run after (h, hs) =
    rw (replace_from-append c after token null zero run h.0 h.1 (omega arith))
      (replace_all-append c tokens (replace token null run) (replace token null after) hs)

nulls-append :
    (c : ℕ) (run after : Bytes)
    → is_non_finite c ≡ false
    → nulls (run ++ c ∷ after) ≡ nulls run ++ c ∷ nulls after
unfolding nulls is_non_finite
nulls-append c run after h =
    let first = or-false _ _ h in
    let second = or-false _ _ first.1 in
    let third = or-false _ _ second.1 in
    replace_all-append c non_finite run after
      ((first.0, omega arith), ((second.0, omega arith), ((third.0, omega arith), tt)))

pub nulls-nil : nulls [] ≡ []
unfolding nulls replace replace_from
nulls-nil = refl

pub nulls-split :
    (c : ℕ) (run after : Bytes)
    → is_non_finite c ≡ false
    → nulls (run ++ c ∷ after) ≡ nulls (run ++ c ∷ []) ++ nulls after
nulls-split c run after h =
    rw (nulls-append c run after h, nulls-append c run [] h, nulls-nil)
      (sym (append_assoc (nulls run) (c ∷ []) (nulls after)))
