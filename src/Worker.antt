-- ===== src/Worker.antt =====
-- main/core/worker.ts: the reply engine.
pub mod Status
pub mod Trim
pub mod Effects
pub mod Records
pub mod Store
pub mod Process
pub mod Lifecycle
pub mod Fetch
pub mod Run
pub mod Sends
pub mod Sample
mod Tests
