-- ===== src/Jobs/Sessions.antt =====
-- The realtime sessions of the manager (packages/server/internal/jobs/sessions.go), below
-- submission: leases, the queue token of a session, the turn of a job, closing. A function that Go
-- calls with a `*liveSession` takes the session's identifier.
use latexmk.Prelude.{
  ℕ, ◌+◌, ◌-◌, String, String-discrete, ite, Bool, true, false, not, ◌&&◌, ◌||◌, Option, none, some,
  List, [], ◌∷◌, ◌++◌, Map, lookup, put, delete, delete_where, Result, ok, err, ltb, leb,
  if◌then◌else◌,
}
use latexmk.Protocol.{Job, running, succeeded, same, Session}
use latexmk.Jobs.State.{LiveSession, Record, Env, Manager}
use latexmk.Jobs.Store.{load, transition, cancel, has, is_none, release, cancelled_job}
use latexmk.Jobs.Queue.{queue_room, interrupt}
use latexmk.Jobs.Session.{publish, clear_cache, max_session_subscribers}
use latexmk.Jobs.Exec.{Exec, pure, modify, continue, ◌>>◌}

abbrev pub same_text : String → String → Bool
same_text s t = ite (String-discrete s t) true false

abbrev pub is_blank : String → Bool
is_blank s = same_text s ""

abbrev no_session : String
no_session = "realtime session not found or expired"

abbrev pub usable : String → ℕ → Option LiveSession → Result LiveSession
usable owner now none = err no_session
usable owner now (some s) =
    if not (same_text s.owner_id owner) || ltb s.state.expires_at now then err no_session else ok s

-- sessionLocked
unfoldable pub session_locked : String → String → ℕ → Manager → Result LiveSession
session_locked owner id now m = usable owner now (lookup id m.sessions)

abbrev pub update_at : String → (LiveSession → LiveSession) → Option LiveSession → Manager → Manager
update_at id f none m = m
update_at id f (some s) m = record m { sessions = put id (f s) m.sessions }

-- A change of the session behind a pointer.
unfoldable pub update_session : String → (LiveSession → LiveSession) → Manager → Manager
update_session id f m = update_at id f (lookup id m.sessions) m

abbrev pub wants_token : LiveSession → Bool
wants_token s =
    not (s.scheduled || not (is_blank s.state.running_job_id) || is_blank s.state.pending_job_id)

abbrev pub schedule_at : Env → String → Option LiveSession → Manager → Manager
schedule_at env id none m = m
schedule_at env id (some s) m =
    if wants_token s && queue_room env m
    then record m {
      queue = m.queue ++ s.state.id ∷ [];
      sessions = put id (record s { scheduled = true }) m.sessions;
    }
    else m

-- scheduleSessionLocked
unfoldable pub schedule_session : Env → String → Manager → Manager
schedule_session env id m = schedule_at env id (lookup id m.sessions) m

-- protocol.Job{ID: id, Revision: revision, Status: "running"}
abbrev running_notice : String → ℕ → Job
running_notice id revision = record {
  session_id = "";
  revision = revision;
  id = id;
  project_id = "";
  snapshot_id = "";
  status = running;
  created_at = 0;
  started_at = none;
  finished_at = none;
  result = none;
  error = "";
}

abbrev pub start_turn : LiveSession → LiveSession
start_turn s =
    let job_id = s.state.pending_job_id in
    publish "running" (running_notice job_id s.state.revision) (record s {
      scheduled = false;
      state = record s.state { pending_job_id = ""; running_job_id = job_id };
    })

abbrev pub take_from : String → Option LiveSession → Manager → String × Manager
take_from id none m = ("", m)
take_from id (some s) m =
    if not (is_blank s.state.running_job_id) || is_blank s.state.pending_job_id
    then ("", record m { sessions = put id (record s { scheduled = false }) m.sessions })
    else (s.state.pending_job_id, record m { sessions = put id (start_turn s) m.sessions })

-- takeSession: the job whose turn it is, or the empty text.
unfoldable pub take_session : String → Manager → String × Manager
take_session id m = take_from id (lookup id m.sessions) m

abbrev pub end_turn : Bool → Job → LiveSession → LiveSession
end_turn invalidate job s =
    let t = record s {
      state = record s.state {
        running_job_id = "";
        last_successful_job_id =
            if same job.status succeeded then job.id else s.state.last_successful_job_id;
      };
    } in
    publish "finished" job (if invalidate then clear_cache t else t)

abbrev pub finish_at : Env → Record → Job → Option LiveSession → Manager → Manager
finish_at env r job none m = m
finish_at env r job (some s) m =
    if same_text s.state.running_job_id r.job.id
    then schedule_session env r.job.session_id
        (update_session r.job.session_id (end_turn r.invalidate_checkpoint job) m)
    else m

abbrev pub finish_with : Env → Record → Job → Manager → Manager
finish_with env r job m =
    if is_none job.finished_at
    then m
    else finish_at env r job (lookup r.job.session_id m.sessions) m

abbrev pub reread : Record → Manager → Option Record → Job
reread r m none = r.job
reread r m (some current) = current.job

-- finishSession: the session whose running job has ended for good may have the next turn.
unfoldable pub finish_session : Env → Record → Manager → Manager
finish_session env r m =
    if is_blank r.job.session_id || has r.job.id m.completions
    then m
    else finish_with env r
        (if is_none r.job.finished_at then reread r m (lookup r.job.id m.jobs) else r.job) m

-- validateSessionJobLocked
unfoldable pub validate_session_job : Record → ℕ → Manager → Result (Unit {0})
validate_session_job r now m =
    if is_blank r.job.session_id
    then ok tt
    else elim (session_locked r.owner_id r.job.session_id now m) [
      | err e ↦ err e
      | ok s ↦
          if same_text s.state.running_job_id r.job.id
          then ok tt
          else err "session no longer owns this compile attempt"
    ]

-- SubscribeSession, and the function that it returns.
unfoldable pub subscribe : String → String → ℕ → Exec (Unit {0})
subscribe owner id now m = elim (session_locked owner id now m) [
  | err e ↦ (err e, m)
  | ok s ↦
      if leb max_session_subscribers s.subscribers
      then (err "realtime session capacity exhausted", m)
      else (ok tt, update_session id (λ t. record t { subscribers = t.subscribers + 1 }) m)
]

unfoldable pub unsubscribe : String → Manager → Manager
unsubscribe id = update_session id (λ t. record t { subscribers = t.subscribers - 1 })

-- RenewSession, behind the sweep of expired sessions.
unfoldable pub renew_session : Env → String → String → ℕ → Exec Session
renew_session env owner id now m = elim (session_locked owner id now m) [
  | err e ↦ (err e, m)
  | ok s ↦
      let s' = record s.state { expires_at = now + env.realtime_session_ttl } in
      (ok s', update_session id (λ t. record t { state = s' }) m)
]

abbrev pub drop_session : LiveSession → Manager → Manager
drop_session s m =
    let m' = if is_blank s.snapshot.id then m else release s.snapshot.id m in
    record m' { sessions = delete s.state.id m'.sessions }

abbrev pub stop_job : LiveSession → ℕ → Exec (Unit {0})
stop_job s now m =
    let here = has s.state.running_job_id m.active in
    if here || has s.state.running_job_id m.completions
    then continue
        (λ r m'.
          continue (λ _ m''. (ok tt, interrupt s.state.running_job_id here m''))
            (transition (cancelled_job "session closed" now r) running m').0
            (transition (cancelled_job "session closed" now r) running m').1)
        (load s.state.running_job_id m) m
    else (ok tt, m)

abbrev pub cancel_pending : LiveSession → ℕ → Exec (Unit {0})
cancel_pending s now =
    if is_blank s.state.pending_job_id
    then pure tt
    else cancel s.state.pending_job_id "session closed" now

-- closeSessionLocked; an error leaves the session in place.
unfoldable pub close_session_locked : LiveSession → ℕ → Exec (Unit {0})
close_session_locked s now = do cancel_pending s now; stop_job s now; modify (drop_session s)

-- CloseSession
unfoldable pub close_session : String → String → ℕ → Exec (Unit {0})
close_session owner id now m = elim (session_locked owner id now m) [
  | err e ↦ (err e, m)
  | ok s ↦ close_session_locked s now m
]

abbrev pub close_expired : ℕ → LiveSession → Manager → Manager
close_expired now s m = if ltb s.state.expires_at now then (close_session_locked s now m).1 else m

abbrev pub is_stale : ℕ → LiveSession → Bool
is_stale now s = not (is_blank s.cache_path) && ltb s.cache_expires now

abbrev pub expire_at : ℕ → Option LiveSession → Manager → Manager
expire_at now none m = m
expire_at now (some s) m =
    if is_stale now s
    then close_expired now (clear_cache s)
        (record m { sessions = put s.state.id (clear_cache s) m.sessions })
    else close_expired now s m

abbrev pub expire_each : ℕ → List String → Manager → Manager
expire_each now [] m = m
expire_each now (id ∷ ids) m = expire_each now ids (expire_at now (lookup id m.sessions) m)

abbrev pub keys {ℓ} : {V : Type ℓ} → Map V → List String
keys [] = []
keys ((k, v) ∷ m) = k ∷ keys m

-- expireSessionsLocked; a session that cannot be closed is logged and kept.
unfoldable pub expire_sessions : Env → ℕ → Manager → Manager
expire_sessions env now m = expire_each now (keys m.sessions) (record m {
  revision_budgets =
      delete_where (λ _ b. ltb env.realtime_session_ttl (now - b.updated)) m.revision_budgets;
})
