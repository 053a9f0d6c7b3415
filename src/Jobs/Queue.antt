-- ===== src/Jobs/Queue.antt =====
-- Admission to the compile queue (manager.go): `Enqueue`, `pendingCount` and `Cancel`. The caller
-- gives the instant and what `randomID` returned. A body runs under `admissionMu`, in one step.
use latexmk.Prelude.{
  ℕ, ◌+◌, ◌*◌, String, String-discrete, ite, Bool, true, false, not, ◌&&◌, Option, none, some, [],
  ◌∷◌, ◌++◌, length, Result, ok, err, ltb, leb, if◌then◌else◌, ◌>>=◌, ◌>>◌,
}
use latexmk.Protocol.{unset, queued, running, same, CompileRequest, Job}
use latexmk.Project.Pins.{Snapshot, pin_snapshot}
use latexmk.Jobs.State.{Record, Env, Manager}
use latexmk.Jobs.Store.{load, save, transition, cancel, has, release, cancelled_job}

unfoldable pub pending_count : Manager → ℕ
pending_count m = m.queued + length m.completions

abbrev pub check : Option String → Result (Unit {0})
check none = ok tt
check (some e) = err e

-- project.ValidateSnapshot
unfoldable pub validate_snapshot : Env → Snapshot → Result (Unit {0})
validate_snapshot env s = do
  expected ← env.new_snapshot s.owner_id s.project_id s.files
  ite (String-discrete s.id "") (err "snapshot ID does not match its manifest") (
      ite (String-discrete s.id expected.id) (ok tt)
        (err "snapshot ID does not match its manifest"))

-- What `Enqueue` checks before it pins the sources.
unfoldable pub validate_enqueue : Env → String → Snapshot → CompileRequest → Result (Unit {0})
validate_enqueue env owner s request = do
  if env.isolated then check (env.validate_source_paths s.files) else ok tt
  check (env.validate_request request)
  ite (String-discrete s.owner_id owner) (ok tt)
      (err "snapshot owner does not match authenticated owner")
  validate_snapshot env s

abbrev pub queued_record : String → ℕ → String → Snapshot → CompileRequest → Record
queued_record id now owner s request = record {
  invalidate_checkpoint = false;
  completion_from = unset;
  job = record {
    session_id = "";
    revision = 0;
    id = id;
    project_id = s.project_id;
    snapshot_id = s.id;
    status = queued;
    created_at = now;
    started_at = none;
    finished_at = none;
    result = none;
    error = "";
  };
  owner_id = owner;
  request = request;
  snapshot = s;
}

-- The capacity of `m.queue`.
abbrev pub queue_room : Env → Manager → Bool
queue_room env m = ltb (length m.queue) (env.max_queued_jobs * 2)

-- The saved job goes to the channel; where that is full, the job is cancelled again, which also
-- gives its pin back.
unfoldable pub offer : Env → ℕ → Record → Manager → Result Job × Manager
offer env now r m =
    if queue_room env m
    then (ok r.job, record m { queue = m.queue ++ r.job.id ∷ [] })
    else (err "compile queue is full", (cancel r.job.id "compile queue is full" now m).1)

abbrev pub store_queued : Env → ℕ → Record → Result (Unit {0}) × Manager → Result Job × Manager
store_queued env now r (err e, m) = (err e, release r.snapshot.id m)
store_queued env now r (ok _, m) = offer env now r m

abbrev pub with_id :
    Env → ℕ → String → Snapshot → CompileRequest → Result String → Manager → Result Job × Manager
with_id env now owner s request (err e) m = (err e, release s.id m)
with_id env now owner s request (ok id) m =
    let r = queued_record id now owner s request in store_queued env now r (save r m)

-- With the sources pinned: the test of the queue's limit, and the storing of the job.
unfoldable pub admit :
    Env → ℕ → Result String → String → Snapshot → CompileRequest → Manager → Result Job × Manager
admit env now random owner s request m =
    if leb env.max_queued_jobs (pending_count m)
    then (err "compile queue is full", release s.id m)
    else with_id env now owner s request random m

unfoldable pub enqueue :
    Env → ℕ → Result String → String → Snapshot → CompileRequest → Manager → Result Job × Manager
enqueue env now random owner s request m = elim (validate_enqueue env owner s request) [
  | err e ↦ (err e, m)
  | ok _ ↦ admit env now random owner s request (record m { pins = pin_snapshot s m.pins })
]

abbrev pub interrupt : String → Bool → Manager → Manager
interrupt id running_here m =
    if running_here then record m { interrupted = id ∷ m.interrupted } else m

abbrev pub after_stop : Bool → String → Result Bool × Manager → Result (Unit {0}) × Manager
after_stop here id (err e, m) = (err e, m)
after_stop here id (ok false, m) = (err "job already finished", m)
after_stop here id (ok true, m) = (ok tt, interrupt id here m)

-- `Cancel` of a running job: its worker's context is cancelled, and the pin stays with the worker.
unfoldable pub stop_running : ℕ → Record → Manager → Result (Unit {0}) × Manager
stop_running now r m =
    let here = has r.job.id m.active in
    if not here && not (has r.job.id m.completions)
    then (err "job is not running on this instance", m)
    else after_stop here r.job.id (transition (cancelled_job "cancelled by user" now r) running m)

-- The guards of `Cancel` and its effect, up to the reading of the job that it returns.
unfoldable pub cancel_job : String → String → ℕ → Manager → Result (Unit {0}) × Manager
cancel_job owner id now m = elim (load id m) [
  | err e ↦ (err e, m)
  | ok r ↦
      ite (String-discrete r.owner_id owner)
        (if same r.job.status queued
          then cancel id "cancelled by user" now m
          else if same r.job.status running
          then stop_running now r m
          else (err "only queued or running jobs can be cancelled", m))
        (err "job not found", m)
]
