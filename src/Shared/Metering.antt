-- ===== src/Shared/Metering.antt =====
-- The CRM's metering data as the service reads it (shared/crm_meter_repository.py): the aggregate
-- of a period per meter, and its derived properties. The queries themselves run in PostgreSQL.
use allocation_key_simulatio.Base.{
  ℕ, ◌+◌, Text, List, [], ◌∷◌, map, Option, Bool, not, keep, ltb, ◌==◌,
}
use allocation_key_simulatio.Simulation.Number.{Arith}
use allocation_key_simulatio.Simulation.Series.{total}

pub record EanCoverage (N : Type 0) : Type 0 where
  pub ean : Text
  pub row_count : ℕ
  pub distinct_ts : ℕ
  pub consumption_kwh : N
  pub injection_kwh : N

pub record CrmDataSummary (N : Type 0) : Type 0 where
  pub eans : List (EanCoverage N)
  pub grid_size : ℕ
  pub first_timestamp : Option ℕ
  pub last_timestamp : Option ℕ

-- One reading, as the pivot takes it.
pub record ConsumptionRow (N : Type 0) : Type 0 where
  pub timestamp : ℕ
  pub ean : Text
  pub gross : N
  pub inj_gross : N

module _ {N : Type 0} where
  abbrev pub has_duplicate_rows : EanCoverage N → Bool
  has_duplicate_rows e = not (e.row_count == e.distinct_ts)

  abbrev pub sum_rows : List (EanCoverage N) → ℕ
  sum_rows [] = 0
  sum_rows (e ∷ es) = e.row_count + sum_rows es

  abbrev pub total_rows : CrmDataSummary N → ℕ
  total_rows s = sum_rows s.eans

  abbrev pub all_eans : CrmDataSummary N → List Text
  all_eans s = map (λ e. e.ean) s.eans

  abbrev pub duplicate_eans : CrmDataSummary N → List Text
  duplicate_eans s = map (λ e. e.ean) (keep has_duplicate_rows s.eans)

  abbrev pub incomplete : CrmDataSummary N → List (EanCoverage N)
  incomplete s = keep (λ e. ltb e.distinct_ts s.grid_size) s.eans

module _ (a : Arith) where
  open a use {Num}

  abbrev pub is_consumer : EanCoverage Num → Bool
  is_consumer e = a.less a.nought e.consumption_kwh

  abbrev pub consumer_eans : CrmDataSummary Num → List Text
  consumer_eans s = map (λ e. e.ean) (keep is_consumer s.eans)

  abbrev pub total_consumption_kwh : CrmDataSummary Num → Num
  total_consumption_kwh s = total a (map (λ e. e.consumption_kwh) s.eans)

  abbrev pub total_injection_kwh : CrmDataSummary Num → Num
  total_injection_kwh s = total a (map (λ e. e.injection_kwh) s.eans)
