-- ===== src/Project/State.antt =====
-- The state of packages/server/internal/project/store.go, for a server without a database: the upload
-- sessions, the snapshots, the pins, and the files under `blobs` of the state directory.
-- An instant is a number of nanoseconds; a size is not negative.
use latexmk.Prelude.{ℕ, ◌*◌, ◌^◌, String, Bool, List, [], Map}
use latexmk.Protocol.{CompileRequest, ProjectFile}
use latexmk.Project.Pins.{Snapshot, Pins}
use latexmk.Project.Names.{Codec}
use latexmk.Project.Publication.{Quota}

-- type session struct
pub record Upload : Type 0 where
  pub id : String
  pub owner_id : String
  pub project_id : String
  pub request : CompileRequest
  pub files : List ProjectFile
  pub expected : Map ℕ
  pub expires : ℕ
  pub committing : Bool

pub record StoredSnapshot : Type 0 where
  pub snapshot : Snapshot
  pub updated_at : ℕ

-- A file below a directory: its path from there, and what `Info` says of it.
pub record StateFile : Type 0 where
  pub parts : List String
  pub size : ℕ
  pub mod_time : ℕ
  pub regular : Bool

-- The limits of config.Config that the store reads, and the library's functions: `identify` is
-- the identifier of a canonical manifest (JSON, SHA-256 and hexadecimal).
pub record Store : Type 0 where
  pub max_files : ℕ
  pub max_expanded_bytes : ℕ
  pub max_upload_bytes : ℕ
  pub max_upload_sessions : ℕ
  pub snapshot_retention : ℕ
  pub blob_retention : ℕ
  pub codec : Codec
  pub identify : String → String → List ProjectFile → String
  pub hash : List ℕ → String  -- SHA-256 of some bytes, in hexadecimal

pub record Sources : Type 0 where
  pub sessions : Map Upload
  pub snapshots : Map StoredSnapshot
  pub pins : Pins
  pub blobs : List StateFile
  pub quota : Quota  -- stateBytes, pendingBytes and cfg.MaxStateBytes

-- 15 * time.Minute
abbrev pub upload_lifetime : ℕ
upload_lifetime = 15 * 60 * 10 ^ 9

-- New, over an empty state directory.
unfoldable pub empty : ℕ → Sources
empty max_state_bytes = record {
  sessions = [];
  snapshots = [];
  pins = [];
  blobs = [];
  quota = record { max_state_bytes = max_state_bytes; state_bytes = 0; pending_bytes = 0 };
}
