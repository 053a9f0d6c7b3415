-- ===== src/Jobs/Lifecycle/Sessions.antt =====
-- The operations of the realtime sessions move the stored jobs as their life allows.
use latexmk.Prelude.{
  ℕ, ◌≡◌, refl, String, Option, none, some, lookup, Result, ok, arith, Option-cases, Result-cases,
  inl, inr,
}
use latexmk.Protocol.{running, CompileRequest, RevisionRequest}
use latexmk.Project.Pins.{Snapshot}
use latexmk.Jobs.State.{Record, Env, Manager, LiveSession, RevisionReceipt}
use latexmk.Jobs.Store.{load, save, transition, cancel, cancelled_job, release, has}
use latexmk.Jobs.Queue.{interrupt}
use latexmk.Jobs.Sessions.{
  update_session, schedule_session, close_session, close_session_locked, session_locked,
  cancel_pending, stop_job, drop_session,
}
use latexmk.Jobs.Submit.{
  submit_revision, submit_new, submit_to, store_revision, admit_revision, prepare_upload,
  consume_upload, allow_revision, supersede, pin_for_session, release_old, pin_upload,
}
use latexmk.Jobs.Exec.{pure}
use latexmk.Jobs.Exec.Respects.{Respects, respects_rules}
use latexmk.Jobs.Lifecycle.{Writes, save-Writes, transition-Writes, cancel-Writes}
use latexmk.Jobs.Lifecycle.Operations.{Writes-Closed}

cancel_pending-Writes : (s : LiveSession) (now : ℕ) → Respects Writes (cancel_pending s now)
unfolding pure
cancel_pending-Writes s now = record {
  at = λ m.
      ground
        (arith, Writes.nothing m m, cancel-Writes s.state.pending_job_id "session closed" now m);
}

stop_job-Writes : (s : LiveSession) (now : ℕ) → Respects Writes (stop_job s now)
unfolding load
stop_job-Writes s now = record {
  at = λ m. elim (Option-cases (lookup s.state.running_job_id m.jobs)) [
    | inl e ↦ ground (arith, e, Writes.nothing m m)
    | inr (r, e) ↦
        let p = transition (cancelled_job "session closed" now r) running m in
        let q = interrupt s.state.running_job_id (has s.state.running_job_id m.active) p.1 in
        ground (
          arith,
          e,
          Writes.nothing m m,
          transition-Writes (cancelled_job "session closed" now r) running m,
          Writes.both m p.1 q,
          Writes.nothing p.1 q,
        )
  ];
}

drop_session-Writes : (s : LiveSession) (m : Manager) → Writes m (drop_session s m)
drop_session-Writes s m = Writes.nothing m _ (ground arith)

pub close_session_locked-Writes :
    (s : LiveSession) (now : ℕ) → Respects Writes (close_session_locked s now)
unfolding close_session_locked
close_session_locked-Writes s now =
    search
      (respects_rules, Writes-Closed, cancel_pending-Writes, stop_job-Writes, drop_session-Writes)
      depth 12

jobs-update_session :
    (id : String) (f : LiveSession → LiveSession) (m : Manager)
    → (m.jobs ≡ (update_session id f m).jobs) × (m.queued ≡ (update_session id f m).queued)
unfolding update_session
jobs-update_session id f m = ground arith

jobs-schedule_session :
    (env : Env) (id : String) (m : Manager)
    → (m.jobs ≡ (schedule_session env id m).jobs) × (m.queued ≡ (schedule_session env id m).queued)
unfolding schedule_session
jobs-schedule_session env id m = ground arith

jobs-consume_upload :
    (owner id : String) (m : Manager)
    → (m.jobs ≡ (consume_upload owner id m).jobs) × (m.queued ≡ (consume_upload owner id m).queued)
unfolding consume_upload
jobs-consume_upload owner id m = ground arith

pin_upload-Writes : (s : Snapshot) (m : Manager) → Writes m (pin_upload s m)
pin_upload-Writes s m = Writes.nothing m _ (refl, refl)

prepare_upload-Writes :
    (env : Env) (owner upload_id : String) (now : ℕ)
    → Respects Writes (prepare_upload env owner upload_id now)
unfolding prepare_upload
prepare_upload-Writes env owner upload_id now =
    search (respects_rules, Writes-Closed, pin_upload-Writes) depth 20

supersede-Writes : (s : LiveSession) (r : Record) (now : ℕ) → Respects Writes (supersede s r now)
supersede-Writes s r now = record {
  at = λ m.
      let p = cancel s.state.pending_job_id "superseded by a newer session revision" now m in
      let q = cancel r.job.id "session admission failed" now p.1 in
      ground (
        arith,
        Writes.nothing m m,
        cancel-Writes s.state.pending_job_id "superseded by a newer session revision" now m,
        cancel-Writes r.job.id "session admission failed" now p.1,
        Writes.both m p.1 q.1,
      );
}

pin_for_session-Writes :
    (env : Env) (r : Record) (now : ℕ) → Respects Writes (pin_for_session env r now)
pin_for_session-Writes env r now = record {
  at = λ m. ground (
    arith,
    Writes.nothing m (pin_for_session env r now m).1,
    cancel-Writes r.job.id "session snapshot pin failed" now m,
  );
}

save-Respects : (r : Record) → Respects Writes (save r)
save-Respects r = record { at = save-Writes r }

release-Writes : (id : String) (m : Manager) → Writes m (release id m)
release-Writes id m = Writes.nothing m _ (refl, refl)

release_old-Writes : (s : LiveSession) (m : Manager) → Writes m (release_old s m)
release_old-Writes s m = Writes.nothing m _ (ground arith)

update_session-Writes :
    (id : String) (f : LiveSession → LiveSession) (m : Manager) → Writes m (update_session id f m)
update_session-Writes id f m = Writes.nothing m _ (jobs-update_session id f m)

consume_upload-Writes : (owner id : String) (m : Manager) → Writes m (consume_upload owner id m)
consume_upload-Writes owner id m = Writes.nothing m _ (jobs-consume_upload owner id m)

pub schedule_session-Writes :
    (env : Env) (id : String) (m : Manager) → Writes m (schedule_session env id m)
schedule_session-Writes env id m = Writes.nothing m _ (jobs-schedule_session env id m)

store_revision-Writes :
    (env : Env) (now : ℕ) (random : Result String) (owner : String) (s : LiveSession)
    (snapshot : Snapshot) (request : CompileRequest)
    → Respects Writes (store_revision env now random owner s snapshot request)
unfolding store_revision
store_revision-Writes env now random owner s snapshot request =
    search (respects_rules, Writes-Closed, save-Respects, release-Writes) depth 30

admit_revision-Writes :
    (env : Env) (now : ℕ) (owner : String) (s : LiveSession) (req : RevisionRequest) (r : Record)
    → Respects Writes (admit_revision env now owner s req r)
unfolding admit_revision
admit_revision-Writes env now owner s req r =
    search
      (
        respects_rules, Writes-Closed, supersede-Writes, pin_for_session-Writes, release_old-Writes,
        update_session-Writes, consume_upload-Writes, schedule_session-Writes,
      )
      depth 30

allow_revision-Writes :
    (env : Env) (owner : String) (now : ℕ)
    → Respects Writes (λ m. let p = allow_revision env owner now m in (ok p.0, p.1))
unfolding allow_revision
allow_revision-Writes env owner now = record { at = λ m. Writes.nothing m _ (ground arith) }

submit_new-Writes :
    (env : Env) (now : ℕ) (random : Result String) (owner : String) (s : LiveSession)
    (req : RevisionRequest)
    → Respects Writes (submit_new env now random owner s req)
unfolding submit_new
submit_new-Writes env now random owner s req =
    search
      (
        respects_rules, Writes-Closed, allow_revision-Writes, prepare_upload-Writes,
        store_revision-Writes, admit_revision-Writes,
      )
      depth 20

submit_to-Writes :
    (env : Env) (now : ℕ) (random : Result String) (owner : String) (req : RevisionRequest)
    (s : LiveSession) (o : Option RevisionReceipt)
    → Respects Writes (submit_to env now random owner req s o)
submit_to-Writes env now random owner req s none = submit_new-Writes env now random owner s req
submit_to-Writes env now random owner req s (some receipt) = record {
  at = λ m. Writes.nothing m _ (ground arith);
}

pub submit_revision-Writes :
    (env : Env) (now : ℕ) (random : Result String) (owner id : String) (req : RevisionRequest)
    → Respects Writes (submit_revision env now random owner id req)
unfolding submit_revision
submit_revision-Writes env now random owner id req =
    search (respects_rules, Writes-Closed, submit_to-Writes) depth 20

pub close_session-Writes :
    (owner id : String) (now : ℕ) → Respects Writes (close_session owner id now)
unfolding close_session
close_session-Writes owner id now = record {
  at = λ m. elim (Result-cases (session_locked owner id now m)) [
    | inl (s, e) ↦ rw (e, close_session) ((close_session_locked-Writes s now).at m)
    | inr (message, e) ↦ rw (e, close_session) (Writes.nothing m m (refl, refl))
  ];
}
