-- ===== src/Jobs.antt =====
-- packages/server/internal/jobs: the compile queue and the realtime sessions, for a server without
-- a database (`m.db == nil`), which keeps its jobs in memory.
pub mod State
pub mod History
pub mod Store
pub mod Queue
pub mod Lifecycle
pub mod Counting
pub mod Admission
pub mod Exec
pub mod Session
pub mod Sessions
pub mod Submit
pub mod Create
pub mod Cleanup
pub mod Worker
