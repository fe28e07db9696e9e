-- ===== src/Core.antt =====
-- The shared services of both processes: the stream's consumer and events, and realtime hints.
pub mod Queue
pub mod Realtime
mod Tests
