-- ===== src/Shared.antt =====
-- The code that the API and the worker share (shared/).
pub mod Models
pub mod Errors
pub mod ProblemSize
pub mod Metering
pub mod Preflight
pub mod Loading
pub mod Tests
