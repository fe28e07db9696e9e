-- ===== src/Worker/Pool/Tests.antt =====
-- A container with a quota of two and a half CPUs.
use allocation_key_simulatio.Base.{
  suc, ◌≤◌, ◌≡◌, ◌⊎◌, Text, codes, same_text, [], ◌∷◌, Option, none, some, if◌then◌else◌,
}
use allocation_key_simulatio.Simulation.Number.Integers.{ℤ, pos}
use allocation_key_simulatio.Worker.Pool.{System, solver_pool_size}
use allocation_key_simulatio.Worker.Pool.Size.{IsWithin, solver_pool_size-IsWithin}

-- `int`, of the two words of the file.
abbrev parse_word : Text → Option ℤ
parse_word t = if same_text t (codes "5") then some (pos 5) else some (pos 2)

abbrev container : System
container = record {
  cpu_max = some (codes "5" ∷ codes "2" ∷ []);
  cfs_quota_us = none;
  cfs_period_us = none;
  affinity = some 8;
  cpu_count = some 8;
  parse_int = parse_word;
}

solver_pool_size-IsWithin_example :
    (1 ≤ solver_pool_size container)
    × ((solver_pool_size container ≡ 1) ⊎ IsWithin container (suc (solver_pool_size container)))
solver_pool_size-IsWithin_example = solver_pool_size-IsWithin container
