-- ===== src/Tests.antt =====
-- Concrete inputs, and the theorems at them.
pub mod Samples
pub mod Server
pub mod Sessions
pub mod Storage
pub mod Sources
pub mod Clients
