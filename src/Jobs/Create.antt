-- ===== src/Jobs/Create.antt =====
-- The opening of sessions, and the readers of one (packages/server/internal/jobs/sessions.go):
-- `CreateSession`, `GetSession`, `SessionEvents`, and the body of `maintainSessions`.
pub mod Once
pub mod Again
use latexmk.Prelude.{
  ℕ, ◌+◌, ◌≤◌, ◌≡◌, refl, String, String-discrete, Bool, true, false, not, ◌&&◌, ◌||◌, Option, none,
  some, List, [], ◌∷◌, Map, put, length, count_if, Result, ok, err, leb, ltb, ◌==◌, if◌then◌else◌,
  arith,
}
use latexmk.Protocol.{Job, unset, CompileRequest, Session, SessionEvent, SessionRequest}
use latexmk.Project.Pins.{no_snapshot}
use latexmk.Jobs.State.{LiveSession, Env, Manager}
use latexmk.Jobs.Queue.{check}
use latexmk.Jobs.Session.{publish, replay}
use latexmk.Jobs.Sessions.{
  same_text, session_locked, expire_sessions, schedule_session, close_session_locked, keys,
}
use latexmk.Jobs.Submit.{valid_idempotency_key, same_request}
use latexmk.Jobs.Exec.{Exec, pure, lift, modify, gets, fail_if, ◌>>=◌, ◌>>◌}

abbrev pub created_by : String → String → LiveSession → Bool
created_by owner key s = same_text s.owner_id owner && same_text s.creation_key key

abbrev pub find_created : (LiveSession → Bool) → Map LiveSession → Option LiveSession
find_created p [] = none
find_created p ((id, s) ∷ rest) = let later = find_created p rest in if p s then some s else later

abbrev pub owned_by : String → LiveSession → Bool
owned_by owner s = same_text s.owner_id owner

-- No session more fits, in all or for the owner; without a limit for an owner it is not tested.
abbrev pub is_full : Env → String → Map LiveSession → Bool
is_full env owner sessions =
    leb env.max_realtime_sessions (length sessions)
    || not (env.max_realtime_sessions_per_owner == 0)
      && leb env.max_realtime_sessions_per_owner (count_if (owned_by owner) sessions)

-- protocol.Job{}
abbrev pub no_job : Job
no_job = record {
  session_id = "";
  revision = 0;
  id = "";
  project_id = "";
  snapshot_id = "";
  status = unset;
  created_at = 0;
  started_at = none;
  finished_at = none;
  result = none;
  error = "";
}

abbrev pub new_session : Env → ℕ → String → String → SessionRequest → LiveSession
new_session env now id owner req = record {
  creation_key = req.idempotency_key;
  subscribers = 0;
  cache_expires = 0;
  cache_path = "";
  cache_inputs = [];
  cache_hashes = [];
  cache_stamps = [];
  owner_id = owner;
  request = req.request;
  state = record {
    id = id;
    project_id = req.project_id;
    workspace = req.workspace;
    revision = 0;
    latest_job_id = "";
    running_job_id = "";
    pending_job_id = "";
    last_successful_job_id = "";
    event_sequence = 0;
    expires_at = now + env.realtime_session_ttl;
  };
  snapshot = no_snapshot;
  scheduled = false;
  receipts = [];
  receipt_order = [];
  events = [];
  changed = 0;
}

abbrev pub insert_session : LiveSession → Manager → Result Session × Manager
insert_session s m = (ok s.state, record m { sessions = put s.state.id s m.sessions })

abbrev pub create_new : Env → ℕ → Result String → String → SessionRequest → Exec Session
create_new env now (err e) owner req m = (err e, m)
create_new env now (ok id) owner req m =
    insert_session (publish "created" no_job (new_session env now id owner req)) m

abbrev pub fits_request : SessionRequest → LiveSession → Bool
fits_request req s =
    same_text s.state.project_id req.project_id
    && same_text s.state.workspace req.workspace
    && same_request s.request req.request

abbrev pub create_or_find :
    Env → ℕ → Result String → String → SessionRequest → Option LiveSession → Exec Session
create_or_find env now random owner req (some s) m =
    if fits_request req s
    then (ok s.state, m)
    else (err "idempotency key was used for a different session", m)
create_or_find env now random owner req none m =
    if is_full env owner m.sessions
    then (err "realtime session capacity exhausted", m)
    else create_new env now random owner req m

-- `CreateSession` behind the sweep. Of the sessions that were created with the key, there is one.
unfoldable pub create_locked : Env → ℕ → Result String → String → SessionRequest → Exec Session
create_locked env now random owner req m =
    create_or_find env now random owner req
      (find_created (created_by owner req.idempotency_key) m.sessions) m

-- CreateSession
unfoldable pub create_session : Env → ℕ → Result String → String → SessionRequest → Exec Session
create_session env now random owner req = do
  fail_if (not (valid_idempotency_key req.idempotency_key))
      "idempotencyKey must have 16-64 characters without control characters"
  fail_if (env.max_realtime_sessions == 0) "realtime sessions are disabled"
  fail_if (not (env.valid_project_id req.project_id)) "invalid project ID"
  fail_if (not (same_text req.workspace "fresh" || same_text req.workspace "reuse"))
      "workspace must be fresh or reuse"
  fail_if
      (same_text req.workspace "reuse"
        && (not env.isolated
            || not (same_text req.request.auxiliary.server "reuse")
            || env.max_compile_cache_bytes == 0))
      "workspace reuse requires an isolated runner and auxiliary.server=reuse"
  lift (check (env.validate_request req.request))
  fail_if (env.isolated && req.request.shell_escape)
      "isolated realtime workspaces do not allow shell escape"
  modify (expire_sessions env now)
  create_locked env now random owner req

-- GetSession
unfoldable pub get_session : Env → String → String → ℕ → Exec Session
get_session env owner id now = do
  modify (expire_sessions env now)
  found ← gets (session_locked owner id now)
  s ← lift found
  pure s.state

-- SessionEvents
unfoldable pub session_events : String → String → ℕ → ℕ → Manager → Result (List SessionEvent)
session_events owner id now after m = elim (session_locked owner id now m) [
  | err e ↦ err e
  | ok s ↦ ok (replay after s)
]

abbrev pub schedule_each : Env → List String → Manager → Manager
schedule_each env [] m = m
schedule_each env (id ∷ ids) m = schedule_each env ids (schedule_session env id m)

-- One tick of `maintainSessions`.
unfoldable pub maintain_sessions : Env → ℕ → Manager → Manager
maintain_sessions env now m =
    let m' = expire_sessions env now m in schedule_each env (keys m'.sessions) m'
