-- ===== src/Project/Commits.antt =====
-- `Commit`, `Snapshot`, `SnapshotStats` and `DeleteSnapshot` of
-- packages/server/internal/project/store.go, without a database. What `Commit` does between two
-- holds of `mu` is a function of its own.
pub mod Outcome
use text.Mathlib.Text.{◌==◌ as same}
use latexmk.Prelude.{
  ℕ, ◌+◌, String, Bool, true, false, not, Option, none, some, List, [], ◌∷◌, Map, lookup, put,
  delete, Result, ok, err, ltb, if◌then◌else◌, length,
}
use latexmk.Protocol.{CompileRequest, ProjectFile}
use latexmk.Project.Pins.{Snapshot}
use latexmk.Project.Names.{snapshot_key}
use latexmk.Project.State.{Upload, StoredSnapshot, Store, Sources}
use latexmk.Project.Snapshots.{new_snapshot}
use latexmk.Project.Blobs.{has_blob}

abbrev pub not_found : String
not_found = "upload session not found or expired"

-- The first hold of the lock, for the session that is there.
abbrev pub begin_with : String → String → ℕ → Option Upload → Sources → Result Upload × Sources
begin_with owner id now none s = (err not_found, s)
begin_with owner id now (some u) s =
    if ltb u.expires now
    then (err not_found, record s { sessions = delete id s.sessions })
    else if not (same u.owner_id owner)
    then (err not_found, s)
    else if u.committing
    then (err "upload session is already being committed", s)
    else (ok u, record s { sessions = put id (record u { committing = true }) s.sessions })

unfoldable pub begin_commit : String → String → ℕ → Sources → Result Upload × Sources
begin_commit owner id now s = begin_with owner id now (lookup id s.sessions) s

-- The function `release` of `Commit`.
abbrev pub release_session : String → String → Option Upload → Sources → Sources
release_session owner id none s = s
release_session owner id (some u) s =
    if same u.owner_id owner
    then record s { sessions = put id (record u { committing = false }) s.sessions }
    else s

unfoldable pub release : String → String → Sources → Sources
release owner id s = release_session owner id (lookup id s.sessions) s

-- The loop over the expected digests, which stops at one that is not stored.
unfoldable pub first_missing : (String → ℕ → Bool) → Map ℕ → Option String
first_missing stored [] = none
first_missing stored ((digest, size) ∷ expected) =
    let rest = first_missing stored expected in if stored digest size then rest else some digest

abbrev pub refused : Option String → Result Snapshot → Result Snapshot
refused none r = r
refused (some digest) r = err "missing required digest"

-- The checks that `Commit` makes without a lock.
unfoldable pub checked_snapshot : Store → String → Upload → Sources → Result Snapshot
checked_snapshot env owner u s =
    refused (first_missing (has_blob env.codec s.blobs owner) u.expected)
      (new_snapshot env owner u.project_id u.files)

-- The last two holds: the snapshot is stored and the session goes.
unfoldable pub save : String → String → ℕ → Upload → Snapshot → Sources → Sources
save owner id now u snapshot s = record s {
  snapshots =
      put (snapshot_key owner u.project_id) (record { snapshot = snapshot; updated_at = now })
        s.snapshots;
  sessions = delete id s.sessions;
}

abbrev pub finish_with :
    String
    → String
    → ℕ
    → Upload
    → Result Snapshot
    → Sources
    → Result (Snapshot × CompileRequest) × Sources
finish_with owner id now u (err e) s = (err e, release owner id s)
finish_with owner id now u (ok snapshot) s =
    (ok (snapshot, u.request), save owner id now u snapshot s)

abbrev pub continue_commit :
    Store
    → String
    → String
    → ℕ
    → Result Upload × Sources
    → Result (Snapshot × CompileRequest) × Sources
continue_commit env owner id now (err e, s) = (err e, s)
continue_commit env owner id now (ok u, s) =
    finish_with owner id now u (checked_snapshot env owner u s) s

-- Commit, with nothing between its holds of the lock. It reads the clock twice.
unfoldable pub commit :
    Store → String → String → ℕ → ℕ → Sources → Result (Snapshot × CompileRequest) × Sources
commit env owner id now later s = continue_commit env owner id later (begin_commit owner id now s)

abbrev pub stored_snapshot : Option StoredSnapshot → Result Snapshot
stored_snapshot none = err "project snapshot not found"
stored_snapshot (some stored) = ok stored.snapshot

-- Snapshot
unfoldable pub snapshot : String → String → Sources → Result Snapshot
snapshot owner project s = stored_snapshot (lookup (snapshot_key owner project) s.snapshots)

abbrev pub sum_sizes : List ProjectFile → ℕ
sum_sizes [] = 0
sum_sizes (f ∷ files) = f.size + sum_sizes files

-- SnapshotStats: whether there is one, its files and their bytes.
unfoldable pub snapshot_stats : String → String → Sources → Bool × ℕ × ℕ
snapshot_stats owner project s = elim (snapshot owner project s) [
  | err _ ↦ (false, 0, 0)
  | ok found ↦ (true, length found.files, sum_sizes found.files)
]

abbrev pub delete_if : String → Option StoredSnapshot → Sources → Bool × Sources
delete_if key none s = (false, s)
delete_if key (some _) s = (true, record s { snapshots = delete key s.snapshots })

-- DeleteSnapshot
unfoldable pub delete_snapshot : String → String → Sources → Bool × Sources
delete_snapshot owner project s =
    delete_if (snapshot_key owner project) (lookup (snapshot_key owner project) s.snapshots) s
