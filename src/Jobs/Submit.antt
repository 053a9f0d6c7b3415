-- ===== src/Jobs/Submit.antt =====
-- `SubmitRevision` (packages/server/internal/jobs/sessions.go), and `PrepareUpload` and `ConsumeUpload`
-- (packages/server/internal/project/uploads.go).
pub mod Refused
use Prim.Native.Char.{code}
use Prim.Native.String.{len}
use latexmk.Prelude.{
  ℕ, ◌+◌, ◌-◌, String, ite, Bool, true, false, not, ◌&&◌, ◌||◌, Option, none, some, List, [], ◌∷◌,
  Map, lookup, put, delete, Result, ok, err, ltb, leb, ◌==◌, if◌then◌else◌,
}
use latexmk.Protocol.{
  Job, queued, same, Artifact, CompileResult, CompileRequest, CompileRequest-discrete,
  RevisionRequest, RevisionRequest-discrete,
}
use latexmk.Project.Pins.{Snapshot, PinnedSnapshot, pin_snapshot}
use latexmk.Project.State.{Upload}
use latexmk.Project.Commits.{first_missing}
use latexmk.Jobs.State.{LiveSession, Record, RevisionReceipt, Env, Manager}
use latexmk.Jobs.Store.{load, save, cancel, release}
use latexmk.Jobs.Queue.{pending_count, check, queued_record, validate_snapshot}
use latexmk.Jobs.Session.{publish, add_receipt, spend, max_session_revision}
use latexmk.Jobs.Sessions.{same_text, is_blank, session_locked, update_session, schedule_session}
use latexmk.Jobs.Exec.{Exec, pure, lift, modify, gets, fail_if, releasing, ◌>>=◌, ◌>>◌}

abbrev drop_auxiliary : List Artifact → List Artifact
drop_auxiliary [] = []
drop_auxiliary (a ∷ artifacts) =
    let rest = drop_auxiliary artifacts in if same_text a.kind "auxiliary" then rest else a ∷ rest

abbrev lapsed : ℕ → Option ℕ → Bool
lapsed now none = false
lapsed now (some t) = leb t now

abbrev public_result : ℕ → Option CompileResult → Option CompileResult
public_result now none = none
public_result now (some r) =
    if lapsed now r.auxiliary_expires_at
    then some (record r { artifacts = drop_auxiliary r.artifacts })
    else some r

-- withoutExpiredAuxiliary
unfoldable pub without_expired_auxiliary : ℕ → Job → Job
without_expired_auxiliary now job = record job { result = public_result now job.result }

-- `Get`, once the publication that it waits for has ended.
unfoldable pub get : String → String → ℕ → Manager → Result Job
get owner id now m = elim (load id m) [
  | err e ↦ err e
  | ok r ↦
      if same_text r.owner_id owner
      then ok (without_expired_auxiliary now r.job)
      else err "job not found"
]

-- allowRevisionLocked
unfoldable pub allow_revision : Env → String → ℕ → Manager → Bool × Manager
allow_revision env owner now m =
    let p = spend env.floats env.max_realtime_revision_rate now (lookup owner m.revision_budgets) in
    if env.max_realtime_revision_rate == 0
    then (true, m)
    else (p.0, record m { revision_budgets = put owner p.1 m.revision_budgets })

abbrev pub repin : Snapshot → Option PinnedSnapshot → PinnedSnapshot
repin s none = record { snapshot = s; count = 1 }
repin s (some pin) = record { snapshot = s; count = pin.count + 1 }

abbrev pub find_upload : String → ℕ → Option Upload → Result Upload
find_upload owner now none = err "upload session not found or expired"
find_upload owner now (some u) =
    if not (same_text u.owner_id owner) || ltb u.expires now || u.committing
    then err "upload session not found or expired"
    else ok u

abbrev pub pin_upload : Snapshot → Manager → Manager
pin_upload s m = record m { pins = put s.id (repin s (lookup s.id m.pins)) m.pins }

-- PrepareUpload
unfoldable pub prepare_upload : Env → String → String → ℕ → Exec (Snapshot × CompileRequest)
prepare_upload env owner upload_id now = do
  found ← gets (λ m. find_upload owner now (lookup upload_id m.uploads))
  u ← lift found
  lift (check (first_missing (env.has_blob owner) u.expected))
  s ← lift (env.new_snapshot owner u.project_id u.files)
  modify (pin_upload s)
  pure (s, u.request)

abbrev pub consume_at : String → String → Option Upload → Manager → Manager
consume_at owner id none m = m
consume_at owner id (some u) m =
    if same_text u.owner_id owner then record m { uploads = delete id m.uploads } else m

-- ConsumeUpload
unfoldable pub consume_upload : String → String → Manager → Manager
consume_upload owner id m = consume_at owner id (lookup id m.uploads) m

-- The pending job of the session, which the new one replaces, does not count.
abbrev pub discount : Result Job → ℕ → Result ℕ
discount (err e) pending = err e
discount (ok previous) pending = ok (if same previous.status queued then pending - 1 else pending)

abbrev pub pending_without : String → LiveSession → ℕ → Manager → Result ℕ
pending_without owner s now m =
    if is_blank s.state.pending_job_id
    then ok (pending_count m)
    else discount (get owner s.state.pending_job_id now m) (pending_count m)

abbrev pub same_request : CompileRequest → CompileRequest → Bool
same_request a b = ite (CompileRequest-discrete a b) true false

-- A record of a session's next revision. The identifier by which the session was found is that of
-- its state, under which it is stored.
abbrev pub revision_record : String → String → ℕ → LiveSession → Snapshot → CompileRequest → Record
revision_record job_id owner now s snapshot request =
    let r = queued_record job_id now owner snapshot request in
    record r { job = record r.job { session_id = s.state.id; revision = s.state.revision + 1 } }

-- From the pinned upload to the saved job; an error gives the pin back.
unfoldable pub store_revision :
    Env → ℕ → Result String → String → LiveSession → Snapshot → CompileRequest → Exec Record
store_revision env now random owner s snapshot request = releasing snapshot.id (do
  fail_if
      (not (same_text snapshot.project_id s.state.project_id)
        || not (same_request s.request request))
      "upload project or compile options do not match the session"
  lift (check (env.validate_source_paths snapshot.files))
  counted ← gets (pending_without owner s now)
  pending ← lift counted
  fail_if (leb env.max_queued_jobs pending) "compile queue is full"
  job_id ← lift random
  let r = revision_record job_id owner now s snapshot request
  save r
  pure r)

abbrev pub undo : String → String → ℕ → String → Exec (Unit {0})
undo id message now e m = (err e, (cancel id message now m).1)

abbrev pub or_undo : String → String → ℕ → Result (Unit {0}) → Manager → Result (Unit {0}) × Manager
or_undo id message now (ok _) m = (ok tt, m)
or_undo id message now (err e) m = undo id message now e m

-- The job that was pending is cancelled; if it cannot be, the new one is.
abbrev pub supersede : LiveSession → Record → ℕ → Exec (Unit {0})
supersede s r now m =
    let p = cancel s.state.pending_job_id "superseded by a newer session revision" now m in
    if is_blank s.state.pending_job_id
    then (ok tt, m)
    else or_undo r.job.id "session admission failed" now p.0 p.1

abbrev pub pin_for_session : Env → Record → ℕ → Exec (Unit {0})
pin_for_session env r now m = elim (validate_snapshot env r.snapshot) [
  | err e ↦ undo r.job.id "session snapshot pin failed" now e m
  | ok _ ↦ (ok tt, record m { pins = pin_snapshot r.snapshot m.pins })
]

abbrev pub adopt : Env → ℕ → Record → RevisionRequest → LiveSession → LiveSession
adopt env now r req s = add_receipt req r.job.id (record s {
  snapshot = r.snapshot;
  state = record s.state {
    revision = r.job.revision;
    latest_job_id = r.job.id;
    pending_job_id = r.job.id;
    expires_at = now + env.realtime_session_ttl;
  };
})

abbrev pub release_old : LiveSession → Manager → Manager
release_old s m = if is_blank s.snapshot.id then m else release s.snapshot.id m

-- From the saved job to the session that waits for it.
unfoldable pub admit_revision : Env → ℕ → String → LiveSession → RevisionRequest → Record → Exec Job
admit_revision env now owner s req r = do
  supersede s r now
  pin_for_session env r now
  modify (release_old s)
  modify (update_session s.state.id (adopt env now r req))
  modify (consume_upload owner req.upload_id)
  modify (update_session s.state.id (publish "submitted" r.job))
  modify (schedule_session env s.state.id)
  pure r.job

-- A revision with a fresh idempotency key.
unfoldable pub submit_new :
    Env → ℕ → Result String → String → LiveSession → RevisionRequest → Exec Job
submit_new env now random owner s req = do
  fail_if (not (req.base_revision == s.state.revision) || leb max_session_revision s.state.revision)
      "session revision conflict; refresh session state"
  allowed ← (λ m. let p = allow_revision env owner now m in (ok p.0, p.1))
  fail_if (not allowed) "realtime revision rate exhausted"
  prepared ← prepare_upload env owner req.upload_id now
  r ← store_revision env now random owner s prepared.0 prepared.1
  admit_revision env now owner s req r

abbrev pub resubmit : String → ℕ → RevisionRequest → RevisionReceipt → Exec Job
resubmit owner now req receipt m =
    ite (RevisionRequest-discrete receipt.request req) (get owner receipt.job_id now m, m)
      (err "idempotency key was used for a different revision", m)

abbrev pub submit_to :
    Env
    → ℕ
    → Result String
    → String
    → RevisionRequest
    → LiveSession
    → Option RevisionReceipt
    → Exec Job
submit_to env now random owner req s (some receipt) = resubmit owner now req receipt
submit_to env now random owner req s none = submit_new env now random owner s req

-- unicode.IsControl
abbrev is_control : ℕ → Bool
is_control c = ltb c 32 || leb 127 c && ltb c 160

abbrev any_control : String → Bool
any_control String.[] = false
any_control (String.◌∷◌ c s) = is_control (code c) || any_control s

-- validateIdempotencyKey; the length is in bytes.
unfoldable pub valid_idempotency_key : String → Bool
valid_idempotency_key key = not (ltb (len key) 16 || ltb 64 (len key) || any_control key)

-- SubmitRevision
unfoldable pub submit_revision :
    Env → ℕ → Result String → String → String → RevisionRequest → Exec Job
submit_revision env now random owner id req = do
  fail_if (not (valid_idempotency_key req.idempotency_key))
      "idempotencyKey must have 16-64 characters without control characters"
  found ← gets (session_locked owner id now)
  s ← lift found
  submit_to env now random owner req s (lookup req.idempotency_key s.receipts)
