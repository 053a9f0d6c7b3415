-- ===== src/Jobs/State.antt =====
-- The state of packages/server/internal/jobs/manager.go: what `Manager` keeps behind `mu` and
-- `admissionMu`, and the records of sessions.go. A set is a map into `Unit`, and a channel that
-- is only closed is the number of times that it was replaced.
use latexmk.Prelude.{ℕ, String, Bool, Option, List, [], Map, Result}
use latexmk.Protocol.{
  Status, CompileRequest, ProjectFile, Session, SessionEvent, RevisionRequest, Job,
}
use latexmk.Project.Pins.{Snapshot, Pins}
use latexmk.Project.State.{Upload}

-- type record struct
pub record Record : Type 0 where
  pub invalidate_checkpoint : Bool
  pub completion_from : Status
  pub job : Job
  pub owner_id : String
  pub request : CompileRequest
  pub snapshot : Snapshot

pub record RevisionReceipt : Type 0 where
  pub request : RevisionRequest
  pub job_id : String

pub record LiveSession : Type 0 where
  pub creation_key : String
  pub subscribers : ℕ
  pub cache_expires : ℕ
  pub cache_path : String
  pub cache_inputs : List ProjectFile
  pub cache_hashes : Map String
  pub cache_stamps : Map ℕ
  pub owner_id : String
  pub request : CompileRequest
  pub state : Session
  pub snapshot : Snapshot
  pub scheduled : Bool
  pub receipts : Map RevisionReceipt
  pub receipt_order : List String
  pub events : List SessionEvent
  pub changed : ℕ

-- A float64 of Go, given by its bits (math.Float64bits), and what the code computes with them:
-- float64(n), Duration.Seconds, the arithmetic, min, and the comparison.
abbrev pub Float64 : Type 0
Float64 = ℕ

pub record Floats : Type 0 where
  pub of_int : ℕ → Float64
  pub seconds : ℕ → Float64
  pub add : Float64 → Float64 → Float64
  pub subtract : Float64 → Float64 → Float64
  pub multiply : Float64 → Float64 → Float64
  pub least : Float64 → Float64 → Float64
  pub less : Float64 → Float64 → Bool

pub record RevisionBudget : Type 0 where
  pub tokens : Float64
  pub updated : ℕ

-- The limits of config.Config, and the checks and builders of the packages that the manager calls.
pub record Env : Type 0 where
  pub max_queued_jobs : ℕ
  pub max_realtime_sessions : ℕ
  pub max_realtime_sessions_per_owner : ℕ
  pub realtime_session_ttl : ℕ
  pub max_realtime_revision_rate : ℕ
  pub max_compile_cache_bytes : ℕ
  pub isolated : Bool  -- RunnerImage != ""
  pub validate_source_paths : List ProjectFile → Option String
  pub validate_request : CompileRequest → Option String
  pub new_snapshot : String → String → List ProjectFile → Result Snapshot
  pub has_blob : String → String → ℕ → Bool
  pub valid_project_id : String → Bool
  pub floats : Floats

pub record Manager : Type 0 where
  pub jobs : Map Record
  pub job_history : Map (List String)
  pub queued : ℕ
  pub completions : Map Record
  pub publications : Map (Unit {0})
  pub publication_version : ℕ  -- uint64
  pub queue : List String
  pub sessions : Map LiveSession
  pub revision_budgets : Map RevisionBudget
  pub active : Map (Unit {0})
  pub interrupted : List String  -- the jobs whose context was cancelled, latest first
  pub pins : Pins  -- projects.pins
  pub uploads : Map Upload  -- projects.sessions

-- New, without a database.
unfoldable pub new : Manager
new = record {
  jobs = [];
  job_history = [];
  queued = 0;
  completions = [];
  publications = [];
  publication_version = 0;
  queue = [];
  sessions = [];
  revision_budgets = [];
  active = [];
  interrupted = [];
  pins = [];
  uploads = [];
}
