-- ===== src/Simulation.antt =====
-- The pure domain logic of the service (simulation/): the solver, its inputs and its results.
pub mod Number
pub mod Inputs
pub mod Outcome
pub mod Series
pub mod Compute
