-- ===== src/Process.antt =====
-- packages/server/internal/platform/process: what a subprocess may write.
pub mod Buffer
pub mod Stream
