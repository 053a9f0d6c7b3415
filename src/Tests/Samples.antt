-- ===== src/Tests/Samples.antt =====
-- The limits, sources and compile options that the tests share.
use Prim.Native.Nat.{min}
use latexmk.Prelude.{◌+◌, ◌-◌, ◌*◌, ◌/◌, ltb, true, false, none, [], ok}
use latexmk.Protocol.{CompileRequest}
use latexmk.Project.Pins.{Snapshot}
use latexmk.Jobs.State.{Floats, Env}

abbrev pub options : CompileRequest
options = record {
  auxiliary = record { local = ""; server_ttl = ""; server = "" };
  protocol_version = 2;
  entry = "main.tex";
  engine = "pdflatex";
  interaction = "";
  synctex = false;
  halt_on_error = false;
  file_line_error = false;
  shell_escape = false;
  job_name = "";
  force = false;
  quiet = false;
  record_inputs = false;
  detect_missing_files = false;
}

abbrev pub sources : Snapshot
sources = record { id = "snap_a"; owner_id = "ann"; project_id = "thesis"; files = [] }

-- Arithmetic on whole numbers of tokens, each standing for itself.
abbrev pub whole_floats : Floats
whole_floats = record {
  of_int = λ n. n;
  seconds = λ t. t / 1_000_000_000;
  add = λ a b. a + b;
  subtract = λ a b. a - b;
  multiply = λ a b. a * b;
  least = λ a b. min a b;
  less = λ a b. ltb a b;
}

abbrev pub small : Env
small = record {
  max_queued_jobs = 2;
  max_realtime_sessions = 2;
  max_realtime_sessions_per_owner = 1;
  realtime_session_ttl = 1000;
  max_realtime_revision_rate = 1;
  max_compile_cache_bytes = 0;
  isolated = false;
  validate_source_paths = λ files. none;
  validate_request = λ request. none;
  new_snapshot = λ owner project files. ok sources;
  has_blob = λ owner digest size. true;
  valid_project_id = λ id. true;
  floats = whole_floats;
}
