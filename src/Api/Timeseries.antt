-- ===== src/Api/Timeseries.antt =====
-- Reading a run's stored time-series object while storage streams it.
pub mod Pieces
pub mod Response
pub mod Sampling
mod Tests
