-- ===== src/Archive.antt =====
-- Archives (packages/shared/archiveutil).
pub mod Trailer
pub mod Extract
