-- ===== src/Worker/Sends.antt =====
-- worker.ts: which calls of `sendMessage` the engine makes.
pub mod Quiet
pub mod Gate
pub mod Authorised
pub mod Delivery
pub mod Final
pub mod Stages
pub mod Authority
pub mod Silent
pub mod Passes
pub mod Whole
