-- ===== src/Api.antt =====
-- The API process: the simulations it starts, lists and deletes, and the stored time series it
-- serves.
pub mod Timeseries
pub mod Upload
pub mod Service
pub mod Repository
pub mod Security
pub mod Mappers
pub mod Limits
mod Tests
