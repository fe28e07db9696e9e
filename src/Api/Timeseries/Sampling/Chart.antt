-- ===== src/Api/Timeseries/Sampling/Chart.antt =====
-- How many values of a series a chart gets, and which.
use allocation_key_simulatio.Base.{
  ℕ, zero, suc, ◌+◌, ◌-◌, ◌*◌, ◌≤◌, ◌<◌, ◌≡◌, refl, ap, ◌∙◌, List, [], ◌∷◌, length, length-map, map,
  Option, none, some, leb, if◌then◌else◌, ceil_div, ceil_div-mul, arith,
}
use native.Mathlib.Nat.{suc-mul, zero-mul, lt_of_mul-lt-mul_right, mul-le-mul_right, mul_comm}
use allocation_key_simulatio.Api.Timeseries.Sampling.{Decoder, every, stride_for, finite, sample}

module _ {A : Type 0} where
  -- `xs[i]`
  unfoldable pub nth : ℕ → List A → Option A
  nth i [] = none
  nth zero (x ∷ xs) = some x
  nth (suc i) (x ∷ xs) = nth i xs

  length-every :
      (s skip : ℕ) (xs : List A) → skip < s → length (every s skip xs) * s + skip < length xs + s
  unfolding every
  length-every s skip [] h = omega (arith, h, zero-mul s)
  length-every s zero (x ∷ xs) h =
      let ih = length-every s (s - 1) xs (omega (arith, h)) in
      rw (suc-mul (length (every s (s - 1) xs)) s) (omega (arith, ih, h))
  length-every s (suc skip) (x ∷ xs) h =
      let ih = length-every s skip xs (omega (arith, h)) in omega (arith, ih, h)

  nth-every : (s i skip : ℕ) (xs : List A) → 1 ≤ s → nth i (every s skip xs) ≡ nth (i * s + skip) xs
  unfolding nth every
  nth-every s i skip [] h = refl
  nth-every s zero zero (x ∷ xs) h = rw (zero-mul s) refl
  nth-every s (suc i) zero (x ∷ xs) h =
      let e : suc i * s + 0 ≡ suc (i * s + (s - 1)) = omega (arith, h, suc-mul i s) in
      nth-every s i (s - 1) xs h ∙ rw e refl
  nth-every s i (suc skip) (x ∷ xs) h =
      let e : i * s + suc skip ≡ suc (i * s + skip) = omega arith in
      nth-every s i skip xs h ∙ rw e refl

module _ {N : Type 0} (d : Decoder N) (max_points : ℕ) where
  stride-one : (n : ℕ) → 1 ≤ (if leb 1 n then n else 1)
  stride-one n = ground arith

  stride-cover : (n : ℕ) → n ≤ (if leb 1 n then n else 1)
  stride-cover n = ground arith

  abbrev pub finite_value : Option N → Option (Option N)
  finite_value none = none
  finite_value (some x) = some (finite d max_points x)

  nth-map : (i : ℕ) (xs : List N) → nth i (map (finite d max_points) xs) ≡ finite_value (nth i xs)
  unfolding nth
  nth-map i [] = refl
  nth-map zero (x ∷ xs) = refl
  nth-map (suc i) (x ∷ xs) = nth-map i xs

  -- The stride that the first series sets gives it, and every series that is no longer, at most
  -- `max_points` values; the value `i` is the one of timestep `i * stride`, null where it is not
  -- finite, and there are no others.
  pub sample-length :
      (count : ℕ) (values : List N)
      → 1 ≤ max_points
      → length values ≤ count
      → (length (sample d max_points (stride_for d max_points none count) values) ≤ max_points)
        × ((i : ℕ)
            → nth i (sample d max_points (stride_for d max_points none count) values)
              ≡ finite_value (nth (i * stride_for d max_points none count) values))
  unfolding sample
  sample-length count values h l =
      let s = stride_for d max_points none count in
      let one = stride-one (ceil_div count max_points) in
      let taken = length-every s 0 values one in
      let covered = ceil_div-mul count max_points h in
      let wide = mul-le-mul_right max_points (stride-cover (ceil_div count max_points)) in
      let small : length (every s 0 values) * s < suc max_points * s =
        omega (arith, taken, covered, wide, l, suc-mul max_points s, mul_comm max_points s) in
      (
        rw (length-map (finite d max_points) (every s 0 values))
            (omega (arith, lt_of_mul-lt-mul_right s small)),
        λ i.
            nth-map i (every s 0 values)
            ∙ ap finite_value
                (nth-every s i 0 values one ∙ ap (λ (j : ℕ). nth j values) (omega arith)),
      )
