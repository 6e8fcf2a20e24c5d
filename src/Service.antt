-- ===== src/Service.antt =====
-- main/core/service.ts: the parts of `LuckyTagService` that decide what is kept and shown.
pub mod Connections
pub mod Reset
pub mod Save
pub mod Selection
mod Tests
