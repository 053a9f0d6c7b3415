-- ===== src/Project.antt =====
-- packages/server/internal/project: the server's store of sources and results.
pub mod Pins
pub mod Publication
pub mod Names
pub mod State
pub mod Snapshots
pub mod Blobs
pub mod Uploads
pub mod Puts
pub mod Commits
pub mod Sweep
pub mod Trace
