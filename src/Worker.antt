-- ===== src/Worker.antt =====
-- The background worker (worker/): its state, the actions on it, and the handler of a message.
pub mod Json
pub mod Timeseries
pub mod World
pub mod Action
pub mod Outside
pub mod Persistence
pub mod Sources
pub mod Solving
pub mod Process
pub mod Dispatcher
pub mod Startup
pub mod Tests
pub mod Pool
