-- ===== src/Config.antt =====
-- shared/validation.ts: what the program accepts as a configuration, from values of any shape.
pub mod Value
pub mod Agent
pub mod App
pub mod Input
pub mod Migrate
mod Canonical
pub mod Kept
pub mod Defaults
pub mod Sound
pub mod Bounds
mod Tests
