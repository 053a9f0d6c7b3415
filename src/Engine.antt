-- ===== src/Engine.antt =====
-- Engine drivers (packages/shared/engine).
pub mod Registry
