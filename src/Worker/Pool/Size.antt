-- ===== src/Worker/Pool/Size.antt =====
-- Bounds on the number of solver processes.
use allocation_key_simulatio.Base.{
  ℕ, zero, suc, ◌-◌, ◌*◌, ◌/◌, ◌≤◌, ◌<◌, ◌≡◌, ◌⊎◌, refl, sym, inl, inr, Text, codes, same_text,
  List, [], ◌∷◌, Option, none, some, false, leb, Bool-cases, arith,
}
use native.Mathlib.Nat.{div-mul-le_self, mul-le-mul_right}
use allocation_key_simulatio.Simulation.Number.Integers.{ℤ, pos, negsuc}
use allocation_key_simulatio.Worker.Pool.{
  System, at_least_one, quota_cpus, from_cpu_max, read_int, first_known, from_affinity, from_count,
  detect_available_cpus, solver_pool_size,
}

at_least_one-le : (n : ℕ) → 1 ≤ at_least_one n
at_least_one-le n = ground arith

pool_of :
    (cpus : ℕ)
    → (1 ≤ at_least_one (cpus - 1))
      × ((at_least_one (cpus - 1) ≡ 1) ⊎ (at_least_one (cpus - 1) < cpus))
pool_of cpus = (
  at_least_one-le (cpus - 1),
  elim (Bool-cases (leb 1 (cpus - 1))) [
    | inl t ↦ rw t (inr (ground arith))
    | inr f ↦ rw f (inl refl)
  ],
)

-- More than one solver process leaves a CPU of the quota.
within_quota : (q p n : ℕ) → n < at_least_one (suc q / suc p) → 1 ≤ n → suc n * suc p ≤ suc q
within_quota q p n l h = elim (Bool-cases (leb 1 (suc q / suc p))) [
  | inl t ↦
      let l' : n < suc q / suc p = rw t at l in
      omega (
        arith,
        mul-le-mul_right {m = suc n} {n = suc q / suc p} (suc p) l',
        div-mul-le_self (suc q) (suc p),
      )
  | inr f ↦ let l' : n < 1 = rw f at l in absurd (omega (arith, l', h))
]

within_count : (c n : ℕ) → n < at_least_one c → 1 ≤ n → suc n ≤ c
within_count c n l h = ground arith

-- The quota and the period of cgroup v2, both positive: the first two words of `cpu.max`, or its
-- only word and the period that the kernel takes then.
pub data IsQuotaV2 (s : System) (q p : ℕ) : Type 0 where
  two_words :
      (quota period : Text) (rest : List Text)
      → s.cpu_max ≡ some (quota ∷ period ∷ rest)
      → same_text quota (codes "max") ≡ false
      → s.parse_int quota ≡ some (pos (suc q))
      → s.parse_int period ≡ some (pos (suc p))
      → IsQuotaV2 s q p
  one_word :
      (quota : Text)
      → s.cpu_max ≡ some (quota ∷ [])
      → same_text quota (codes "max") ≡ false
      → s.parse_int quota ≡ some (pos (suc q))
      → suc p ≡ 100000
      → IsQuotaV2 s q p

-- Those of cgroup v1, in two files.
pub data IsQuotaV1 (s : System) (q p : ℕ) : Type 0 where
  two_files :
      (quota period : Text)
      → s.cfs_quota_us ≡ some quota
      → s.cfs_period_us ≡ some period
      → s.parse_int quota ≡ some (pos (suc q))
      → s.parse_int period ≡ some (pos (suc p))
      → IsQuotaV1 s q p

-- So many processes are within what the first source that says something allows.
pub data IsWithin (s : System) (n : ℕ) : Type 0 where
  by_v2 : (q p : ℕ) → IsQuotaV2 s q p → n * suc p ≤ suc q → IsWithin s n
  by_v1 :
      ((q p : ℕ) → ¬ IsQuotaV2 s q p)
      → (q p : ℕ) → IsQuotaV1 s q p
      → n * suc p ≤ suc q
      → IsWithin s n
  by_affinity :
      ((q p : ℕ) → ¬ IsQuotaV2 s q p)
      → ((q p : ℕ) → ¬ IsQuotaV1 s q p)
      → (c : ℕ) → s.affinity ≡ some c
      → n ≤ c
      → IsWithin s n
  by_count :
      ((q p : ℕ) → ¬ IsQuotaV2 s q p)
      → ((q p : ℕ) → ¬ IsQuotaV1 s q p)
      → s.affinity ≡ none
      → (c : ℕ) → s.cpu_count ≡ some c
      → n ≤ c
      → IsWithin s n

-- Both numbers are positive, or the source says nothing.
quota_cases :
    (a b : Option ℤ)
    → (quota_cpus a b ≡ none)
      ⊎ ((q : ℕ) × (p : ℕ) × (a ≡ some (pos (suc q))) × (b ≡ some (pos (suc p))))
unfolding quota_cpus
quota_cases (some (pos (suc q))) (some (pos (suc p))) = inr (q, p, refl, refl)
quota_cases none b = inl refl
quota_cases (some (pos zero)) b = inl refl
quota_cases (some (negsuc q)) b = inl refl
quota_cases (some (pos (suc q))) none = inl refl
quota_cases (some (pos (suc q))) (some (pos zero)) = inl refl
quota_cases (some (pos (suc q))) (some (negsuc p)) = inl refl

suc_of : (p : ℕ) → some (pos 100000) ≡ some (pos (suc p)) → 100000 ≡ suc p
suc_of p e = cc e

module _ (s : System) where
  v2-says :
      (q p : ℕ) → IsQuotaV2 s q p → from_cpu_max s s.cpu_max ≡ some (at_least_one (suc q / suc p))
  unfolding from_cpu_max quota_cpus
  v2-says q p (two_words quota period rest e m eq ep) = rw (e, m, eq, ep) refl
  v2-says q p (one_word quota e m eq ep) = rw (e, m, eq, ep) refl

  read_int-some :
      (file : Option Text) {n : ℤ}
      → read_int s file ≡ some n
      → (text : Text) × (file ≡ some text) × (s.parse_int text ≡ some n)
  read_int-some none h = cc
  read_int-some (some text) h = (text, refl, h)

  v1-says :
      (q p : ℕ)
      → IsQuotaV1 s q p
      → quota_cpus (read_int s s.cfs_quota_us) (read_int s s.cfs_period_us)
        ≡ some (at_least_one (suc q / suc p))
  unfolding quota_cpus
  v1-says q p (two_files quota period e e' eq ep) = rw (e, e', eq, ep) refl

  v2_cases :
      (words : Option (List Text))
      → s.cpu_max ≡ words
      → (from_cpu_max s words ≡ none) ⊎ ((q : ℕ) × (p : ℕ) × IsQuotaV2 s q p)
  unfolding from_cpu_max
  v2_cases none e = inl refl
  v2_cases (some []) e = inl refl
  v2_cases (some (quota ∷ [])) e = elim (Bool-cases (same_text quota (codes "max"))) [
    | inl m ↦ rw m (inl refl)
    | inr m ↦ rw m (elim (quota_cases (s.parse_int quota) (some (pos 100000))) [
      | inl n ↦ inl n
      | inr (q, p, eq, ep) ↦ inr (q, p, one_word quota e m eq (sym (suc_of p ep)))
    ])
  ]
  v2_cases (some (quota ∷ period ∷ rest)) e = elim (Bool-cases (same_text quota (codes "max"))) [
    | inl m ↦ rw m (inl refl)
    | inr m ↦ rw m (elim (quota_cases (s.parse_int quota) (s.parse_int period)) [
      | inl n ↦ inl n
      | inr (q, p, eq, ep) ↦ inr (q, p, two_words quota period rest e m eq ep)
    ])
  ]

  no_v2 : from_cpu_max s s.cpu_max ≡ none → (q p : ℕ) → ¬ IsQuotaV2 s q p
  no_v2 n q p is = cc (n, v2-says q p is)

  no_v1 :
      quota_cpus (read_int s s.cfs_quota_us) (read_int s s.cfs_period_us) ≡ none
      → (q p : ℕ) → ¬ IsQuotaV1 s q p
  no_v1 n q p is = cc (n, v1-says q p is)

  within_counted :
      (n : ℕ) (affinity count : Option ℕ)
      → s.affinity ≡ affinity
      → s.cpu_count ≡ count
      → ((q p : ℕ) → ¬ IsQuotaV2 s q p)
      → ((q p : ℕ) → ¬ IsQuotaV1 s q p)
      → 1 ≤ n
      → n < first_known s (from_affinity s affinity) (from_count s count)
      → IsWithin s (suc n)
  within_counted n (some c) count ea ec no2 no1 h l =
      by_affinity no2 no1 c ea (within_count c n l h)
  within_counted n none (some c) ea ec no2 no1 h l = by_count no2 no1 ea c ec (within_count c n l h)
  within_counted n none none ea ec no2 no1 h l = absurd (omega (arith, h, l))

  within_v1 :
      (n : ℕ)
      → ((q p : ℕ) → ¬ IsQuotaV2 s q p)
      → 1 ≤ n
      → n
        < first_known s
            (quota_cpus (read_int s s.cfs_quota_us) (read_int s s.cfs_period_us))
            (first_known s (from_affinity s s.affinity) (from_count s s.cpu_count))
      → IsWithin s (suc n)
  within_v1 n no2 h l =
      elim (quota_cases (read_int s s.cfs_quota_us) (read_int s s.cfs_period_us)) [
        | inr (q, p, eq, ep) ↦
            let (quota, e, eq') = read_int-some s.cfs_quota_us eq in
            let (period, e', ep') = read_int-some s.cfs_period_us ep in
            let is : IsQuotaV1 s q p = two_files quota period e e' eq' ep' in
            let l' : n < at_least_one (suc q / suc p) = rw (v1-says q p is) at l in
            by_v1 no2 q p is (within_quota q p n l' h)
        | inl none1 ↦
            within_counted n s.affinity s.cpu_count refl refl no2 (no_v1 none1) h (rw none1 at l)
      ]

  -- More than one process is within what the CPUs detected allow.
  within : (n : ℕ) → n < detect_available_cpus s → 1 ≤ n → IsWithin s (suc n)
  unfolding detect_available_cpus
  within n l h = elim (v2_cases s.cpu_max refl) [
    | inr (q, p, is) ↦
        let l' : n < at_least_one (suc q / suc p) = rw (v2-says q p is) at l in
        by_v2 q p is (within_quota q p n l' h)
    | inl none2 ↦ within_v1 n (no_v2 none2) h (rw none2 at l)
  ]

  -- There is always a solver process, and there is either one or so few that with one more CPU for
  -- the worker's own loop they are within what the first source that says something allows: the
  -- quota of cgroup v2 (with the kernel's period where `cpu.max` leaves it out), that of cgroup v1,
  -- the CPUs of the affinity, or those that are counted. Where none says anything there is one.
  pub solver_pool_size-IsWithin :
      (1 ≤ solver_pool_size s) × ((solver_pool_size s ≡ 1) ⊎ IsWithin s (suc (solver_pool_size s)))
  unfolding solver_pool_size
  solver_pool_size-IsWithin =
      let bounds = pool_of (detect_available_cpus s) in
      (bounds.0, elim bounds.1 [ inl one ↦ inl one | inr few ↦ inr (within _ few bounds.0) ])
