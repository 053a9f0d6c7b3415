-- ===== src/Protocol.antt =====
-- packages/shared/protocol/protocol.go: the wire records that the server's components share.
-- An instant is a number of nanoseconds, a pointer to one an `Option`; the texts that the code
-- writes into a job's status are the constructors of `Status`, `unset` the empty text.
use native.Mathlib.Decide.{ℕ_discrete}
use latexmk.Prelude.{ℕ, String, String-discrete, Bool, true, Option, List, ◌≡◌, ◌==◌, arith}

pub data Status : Type 0 where
  unset queued running succeeded failed cancelled : Status

abbrev rank : Status → ℕ
rank unset = 0
rank queued = 1
rank running = 2
rank succeeded = 3
rank failed = 4
rank cancelled = 5

-- job.Status == s
abbrev pub same : Status → Status → Bool
same s t = rank s == rank t

pub same-eq : (s t : Status) → same s t ≡ true → s ≡ t
same-eq s t h = ground arith

pub record AuxiliaryOptions : Type 0 where
  pub local : String
  pub server_ttl : String
  pub server : String

pub record CompileCache : Type 0 where
  pub cold_retry : Bool
  pub status : String
  pub reason : String
  pub restored_files : ℕ
  pub stored_files : ℕ
  pub warning : String

pub record CompileRequest : Type 0 where
  pub auxiliary : AuxiliaryOptions
  pub protocol_version : ℕ
  pub entry : String
  pub engine : String
  pub interaction : String
  pub synctex : Bool
  pub halt_on_error : Bool
  pub file_line_error : Bool
  pub shell_escape : Bool
  pub job_name : String
  pub force : Bool
  pub quiet : Bool
  pub record_inputs : Bool
  pub detect_missing_files : Bool

-- Go compares the request structs field by field with `==`.
pub AuxiliaryOptions-discrete : Discrete AuxiliaryOptions
AuxiliaryOptions-discrete = hlevel String-discrete

pub CompileRequest-discrete : Discrete CompileRequest
CompileRequest-discrete = hlevel (AuxiliaryOptions-discrete, String-discrete, ℕ_discrete)

pub record Artifact : Type 0 where
  pub path : String
  pub size : ℕ
  pub sha256 : String
  pub kind : String

-- The fields of a result that the server's own code reads or writes.
pub record CompileResult : Type 0 where
  pub session_id : String
  pub revision : ℕ
  pub auxiliary_expires_at : Option ℕ
  pub compile_cache : Option CompileCache
  pub request_id : String
  pub success : Bool
  pub timed_out : Bool
  pub duration_ms : ℕ
  pub artifacts : List Artifact
  pub error : String

pub record ProjectFile : Type 0 where
  pub path : String
  pub sha256 : String
  pub size : ℕ

pub record UploadPlanRequest : Type 0 where
  pub project_id : String
  pub request : CompileRequest
  pub files : List ProjectFile

pub record UploadPlan : Type 0 where
  pub upload_id : String
  pub missing : List String
  pub expires_at : ℕ

pub record RevisionRequest : Type 0 where
  pub upload_id : String
  pub base_revision : ℕ  -- uint64
  pub idempotency_key : String

pub RevisionRequest-discrete : Discrete RevisionRequest
RevisionRequest-discrete = hlevel (String-discrete, ℕ_discrete)

pub record SessionRequest : Type 0 where
  pub idempotency_key : String
  pub project_id : String
  pub request : CompileRequest
  pub workspace : String

pub record Session : Type 0 where
  pub id : String
  pub project_id : String
  pub workspace : String
  pub revision : ℕ  -- uint64
  pub latest_job_id : String
  pub running_job_id : String
  pub pending_job_id : String
  pub last_successful_job_id : String
  pub event_sequence : ℕ  -- uint64
  pub expires_at : ℕ

pub record SessionEvent : Type 0 where
  pub sequence : ℕ  -- uint64
  pub kind : String
  pub revision : ℕ
  pub job_id : String
  pub status : Status

pub record Job : Type 0 where
  pub session_id : String
  pub revision : ℕ  -- uint64
  pub id : String
  pub project_id : String
  pub snapshot_id : String
  pub status : Status
  pub created_at : ℕ
  pub started_at : Option ℕ
  pub finished_at : Option ℕ
  pub result : Option CompileResult
  pub error : String

pub record CleanupReport : Type 0 where
  pub active_sessions : List String
  pub compile_caches : ℕ
  pub compile_cache_bytes : ℕ
  pub compile_cache_digest : String
  pub project_id : String
  pub scope : String
  pub dry_run : Bool
  pub plan_digest : String
  pub snapshot_present : Bool
  pub snapshot_files : ℕ
  pub snapshot_bytes : ℕ
  pub jobs : ℕ
  pub results : ℕ
  pub result_bytes : ℕ
  pub reclaimed_bytes : ℕ
  pub active_jobs : List String
