-- ===== src/Lib.antt =====
-- The job service of latexmk, a LaTeX compiler behind HTTP: packages/server takes uploaded projects,
-- keeps compile jobs in a queue, runs them on workers and keeps their results; packages/cli is its
-- client, packages/shared what both use. Clients either enqueue one job or open a realtime session
-- and submit revisions of a project, of which only the newest waiting one is compiled.
--
-- Parts, and the files that model them:
--   Protocol          packages/shared/protocol/protocol.go: the records on the wire.
--   Project/State     The state of Store (packages/server/internal/project/store.go): upload
--                     sessions, snapshots, pins, and the blobs, which are files.
--   Project/Names     The names of files, digests and keys that the store accepts.
--   Project/Pins      PinSnapshot and ReleaseSnapshot, which keep the sources of a job alive.
--   Project/Snapshots NewSnapshot and ValidateSnapshot; theorems in Project/Snapshots/Canonical.
--   Project/Uploads   Plan; theorems in Project/Uploads/Planning, and on a whole upload in
--                     Project/Uploads/Completion.
--   Project/Puts      PutBlob, with CopyVerified of packages/shared/safefs/root.go; theorems in
--                     Project/Puts/Change.
--   Project/Commits   Commit, Snapshot, SnapshotStats and DeleteSnapshot; theorems in
--                     Project/Commits/Outcome.
--   Project/Blobs     Where a blob stands, and the walks that remove files.
--   Project/Sweep     Prune and CollectUnreferencedBlobs, as far as they are about snapshots, upload
--                     sessions and blobs; theorems in the files below it.
--   Project/Trace     The calls of the store in any order, and what they keep.
--   Jobs/State        The state of Manager (packages/server/internal/jobs/manager.go) and of its
--                     sessions (sessions.go); Env holds the limits of its configuration, and the
--                     functions of other packages that it calls.
--   Jobs/Store        load, save, transition, cancel, endPublication, pruneTerminal.
--   Jobs/History      indexHistoryLocked, pruneHistoryLocked, with sort.Search of Go's library as it
--                     is documented; theorems on the search in Jobs/History/Search, on the order in
--                     Jobs/History/Sorted.
--   Jobs/Queue        Enqueue, Cancel, pendingCount. Its theorems are in Jobs/Admission.
--   Jobs/Worker       run around the compilation, finish, deferCompletion, retryCompletions;
--                     Jobs/Worker/Loop is worker.
--   Jobs/Session      Events, receipts and the rate limiter of one session; theorems in
--                     Jobs/Session/Events and Jobs/Session/Rate.
--   Jobs/Sessions     Leases, turns and closing of sessions.
--   Jobs/Submit       SubmitRevision, with PrepareUpload and ConsumeUpload (project/uploads.go);
--                     theorems in Jobs/Submit/Refused.
--   Jobs/Create       CreateSession, GetSession, SessionEvents, maintainSessions; theorems in
--                     Jobs/Create/Once and Jobs/Create/Again.
--   Jobs/Cleanup      CleanupProject and CleanupProjectWithPlan; the removal itself is in
--                     Jobs/Cleanup/Removal, its theorems in Jobs/Cleanup/Safety.
--   Jobs/Exec         The monad in which Jobs/Sessions and Jobs/Submit are written; what its
--                     actions keep is shown from what its parts keep (Jobs/Exec/Respects).
--   Jobs/Counting, Jobs/Lifecycle
--                     The invariants of the stored jobs, and that every operation keeps them.
--   Process           packages/server/internal/platform/process: the capped buffer and the
--                     limited stream of a subprocess's output.
--   Project/Publication
--                     packages/server/internal/project/publication.go: the storage that a state
--                     file holds reserved until it is published.
--   Archive/Trailer   packages/shared/archiveutil/trailer.go.
--   Archive/Extract   packages/server/internal/archive/extract.go: ExtractTarGz; theorems
--                     in Archive/Extract/Bounds.
--   Auth              packages/server/internal/auth/auth.go: Authenticate and the middlewares;
--                     theorems in Auth/Granted.
--   Engine/Registry   packages/shared/engine: the registry of TeX engines.
--   Cli/Watch         packages/cli/internal/watch/watch.go: Wait, which waits for a change of a file;
--                     theorems in Cli/Watch/Timely.
--   Cli/Exports       packages/cli/internal/exporthistory/history.go: Publish and the retention
--                     of older exports, with packages/shared/safefs/remove.go; theorems in
--                     Cli/Exports/Retention.
--   Cli/Ignore        packages/cli/internal/archive/ignore.go: the matching of compiled ignore rules;
--                     theorems in Cli/Ignore/Last.
--   Prelude           Lists, maps, results, the order of texts and sorting.
--   Tests             The theorems at concrete inputs.
--
-- The manager pins a snapshot of the store for each job and session, and a sweep of the store reads
-- the pins, the marks of running commits and the stored snapshots. A revision of a session names
-- a snapshot that an upload through Plan, PutBlob and Commit has left.
--
-- An operation takes the state and returns its result with the new state; an error is a value, and
-- what was written before it stays written. An operation of the manager is one step: Go holds
-- admissionMu over it, except for the reads of Get and of run before the lock, whose interleavings
-- are not modelled. Commit, Prune and PutBlob let go of the store's lock, and each hold of it is a
-- function of its own; in Project/Trace a whole call is one step. The
-- instant that time.Now returns and the text that randomID returns are arguments, and so are the
-- checks of other packages and the answers of a stream's destination or of the file system. Numbers
-- that are uint64 in Go wrap around at 2^64 where they are counted up without a check. The
-- float64 of the rate limiter is given by its bits, and its arithmetic is an argument.
-- transitionWithRetry runs on the number of attempts that its deadline leaves; every theorem holds
-- for any number. The binary search of Jobs/History runs on the length of the history, which it
-- halves in every round.
--
-- Not modelled: the database behind the manager and the store and the recovery from it, the results
-- of jobs in the store, the compilation itself and the files that it leaves, the HTTP interface,
-- configuration, the compilation of ignore rules, and the rest of the client. Files that another
-- process changes while an operation runs are not modelled for the export history.
pub mod Prelude
pub mod Protocol
pub mod Project
pub mod Jobs
pub mod Process
pub mod Archive
pub mod Engine
pub mod Auth
pub mod Cli
pub mod Tests
