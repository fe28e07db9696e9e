-- ===== src/Worker/Pool.antt =====
-- The solver processes (worker/main.py): how many there are, and the pool that is rebuilt when one
-- of them dies.
pub mod Size
mod Tests
use allocation_key_simulatio.Base.{
  ℕ, suc, ◌-◌, ◌/◌, Text, codes, same_text, List, [], ◌∷◌, Option, none, some, Bool, true, false,
  not, leb, if◌then◌else◌, Result, ok, raised,
}
use allocation_key_simulatio.Simulation.Number.Integers.{ℤ, pos, negsuc}

-- What the system says of the CPUs: the words of `cpu.max`, the two files of cgroup v1, the
-- affinity and `os.cpu_count()`, `none` where one cannot be read; and `int`, `none` where it raises.
pub record System : Type 0 where
  pub cpu_max : Option (List Text)
  pub cfs_quota_us : Option Text
  pub cfs_period_us : Option Text
  pub affinity : Option ℕ
  pub cpu_count : Option ℕ
  pub parse_int : Text → Option ℤ

abbrev pub at_least_one : ℕ → ℕ
at_least_one n = if leb 1 n then n else 1

-- `max(1, math.floor(quota / period))`, of a positive quota and period.
unfoldable pub quota_cpus : Option ℤ → Option ℤ → Option ℕ
quota_cpus (some (pos (suc q))) (some (pos (suc p))) = some (at_least_one (suc q / suc p))
quota_cpus _ _ = none

module _ (s : System) where
  -- cgroup v2: "<quota> <period>", or "max" for no limit; the period may be left out.
  unfoldable pub from_cpu_max : Option (List Text) → Option ℕ
  from_cpu_max none = none
  from_cpu_max (some []) = none
  from_cpu_max (some (quota ∷ [])) =
      if same_text quota (codes "max")
      then none
      else quota_cpus (s.parse_int quota) (some (pos 100000))
  from_cpu_max (some (quota ∷ period ∷ rest)) =
      if same_text quota (codes "max")
      then none
      else quota_cpus (s.parse_int quota) (s.parse_int period)

  abbrev pub read_int : Option Text → Option ℤ
  read_int none = none
  read_int (some text) = s.parse_int text

  abbrev pub first_known : Option ℕ → ℕ → ℕ
  first_known none other = other
  first_known (some n) other = n

  abbrev pub from_affinity : Option ℕ → Option ℕ
  from_affinity none = none
  from_affinity (some n) = some (at_least_one n)

  abbrev pub from_count : Option ℕ → ℕ
  from_count none = 1
  from_count (some n) = at_least_one n

  -- `_detect_available_cpus`
  unfoldable pub detect_available_cpus : ℕ
  unfolding from_cpu_max quota_cpus
  detect_available_cpus = first_known (from_cpu_max s.cpu_max) (
      first_known (quota_cpus (read_int s.cfs_quota_us) (read_int s.cfs_period_us))
        (first_known (from_affinity s.affinity) (from_count s.cpu_count)))

  -- `_solver_pool_size`
  unfoldable pub solver_pool_size : ℕ
  solver_pool_size = at_least_one (detect_available_cpus - 1)

-- A `ProcessPoolExecutor`, by its number; what `submit` on it answers, a broken pool raising.
pub data Broken : Type 0 where
  broken_process_pool : Broken

module _ {F : Type 0} where
  abbrev pub resubmit : (ℕ → Result Broken F) → ℕ → Result Broken F → Result Broken F × ℕ
  resubmit answers pool (ok future) = (ok future, pool)
  resubmit answers pool (raised e) = (answers (suc pool), suc pool)

  -- `_SolverPool.submit`: a broken pool is replaced, and the new one is asked.
  unfoldable pub submit : (ℕ → Result Broken F) → ℕ → Result Broken F × ℕ
  submit answers pool = resubmit answers pool (answers pool)
