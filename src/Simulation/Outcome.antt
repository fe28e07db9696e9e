-- ===== src/Simulation/Outcome.antt =====
-- The result of a run (simulation/result.py): series per timestep, and totals.
use allocation_key_simulatio.Base.{ℕ, Text, List}

pub record ConsumerSimResult (N : Type 0) : Type 0 where
  pub name : Text
  pub energy_allocated_percentage : N
  pub consumption : List N
  pub consumption_total : N
  pub energy_allocated : List N
  pub energy_allocated_total : N
  pub energy_allocated_consumed : List N
  pub energy_allocated_consumed_total : N
  pub residual_volume : List N
  pub residual_volume_total : N
  pub surplus : List N
  pub surplus_total : N

pub record IterationSimResult (N : Type 0) : Type 0 where
  pub number : ℕ
  pub energy_allocated_percentage : N
  pub consumption : List N
  pub consumption_total : N
  pub energy_allocated : List N
  pub energy_allocated_total : N
  pub energy_allocated_consumed : List N
  pub energy_allocated_consumed_total : N
  pub residual_volume : List N
  pub residual_volume_total : N
  pub surplus : List N
  pub surplus_total : N
  pub sharing_rate : List N
  pub sharing_rate_total : N
  pub self_sufficiency_rate : List N
  pub self_sufficiency_rate_total : N
  pub consumers : List (ConsumerSimResult N)

pub record KeySimResult (N : Type 0) : Type 0 where
  pub name : Text
  pub description : Text
  pub consumption_total : N
  pub energy_allocated_total : N
  pub energy_allocated_consumed_total : N
  pub residual_volume_total : N
  pub surplus_total : N
  pub self_sufficiency_rate_total : N
  pub sharing_rate_total : N
  pub iterations : List (IterationSimResult N)
