-- ===== src/Jobs/Lifecycle/Operations.antt =====
-- Every operation of the manager moves the stored jobs as their life allows.
use latexmk.Prelude.{
  ℕ, zero, suc, ◌≡◌, refl, String, Bool, true, false, Option, none, some, ◌∷◌, lookup, delete,
  Result, ok, err, arith, Option-cases, Bool-cases, inl, inr,
}
use latexmk.Protocol.{Status, queued, running, same, CompileRequest, CompileResult}
use latexmk.Project.Pins.{Snapshot, pin_snapshot}
use latexmk.Jobs.State.{Record, Env, Manager}
use latexmk.Jobs.Store.{load, save, transition, cancel, end_publication, cancelled_job, release}
use latexmk.Jobs.Queue.{
  enqueue, admit, offer, cancel_job, stop_running, store_queued, with_id, queued_record,
}
use latexmk.Jobs.Sessions.{update_session, schedule_session, finish_session, validate_session_job}
use latexmk.Jobs.Worker.{
  not_active, begin_or_leave, begin_checked, begin_loaded, conclude, settled, settle,
  release_if_running, begin_run, finish, finished, retry_completion, transition_with_retry, requeue,
  leave, started, defer_completion,
}
use latexmk.Jobs.Exec.Respects.{Closed}
use latexmk.Jobs.Lifecycle.{Writes, save-Writes, transition-Writes, cancel-Writes, may_become}

pub Writes-Closed : Closed Writes
Writes-Closed = record { stays = λ m. Writes.nothing m m (refl, refl); joins = Writes.both }

offer-Writes : (env : Env) (now : ℕ) (r : Record) (m : Manager) → Writes m (offer env now r m).1
unfolding offer
offer-Writes env now r m = ground (
  arith,
  cancel-Writes r.job.id "compile queue is full" now m,
  Writes.nothing m (offer env now r m).1,
)

store_queued-Writes :
    (env : Env) (now : ℕ) (r : Record) (p : Result (Unit {0}) × Manager)
    → Writes p.1 (store_queued env now r p).1
store_queued-Writes env now r (err e, m) = Writes.nothing m _ (refl, refl)
store_queued-Writes env now r (ok _, m) = offer-Writes env now r m

with_id-Writes :
    (env : Env) (now : ℕ) (owner : String) (s : Snapshot) (request : CompileRequest)
    (random : Result String) (m : Manager)
    → Writes m (with_id env now owner s request random m).1
with_id-Writes env now owner s request (err e) m = Writes.nothing m _ (refl, refl)
with_id-Writes env now owner s request (ok id) m =
    let r = queued_record id now owner s request in
    Writes.both m (save r m).1 _ (save-Writes r m) (store_queued-Writes env now r (save r m))

pub enqueue-Writes :
    (env : Env) (now : ℕ) (random : Result String) (owner : String) (s : Snapshot)
    (request : CompileRequest) (m : Manager)
    → Writes m (enqueue env now random owner s request m).1
unfolding enqueue admit
enqueue-Writes env now random owner s request m =
    let m' = record m { pins = pin_snapshot s m.pins } in
    ground (
      arith,
      Writes.nothing m m,
      Writes.nothing m (record m' { pins = (release s.id m').pins }),
      Writes.both m m' (with_id env now owner s request random m').1,
      Writes.nothing m m',
      with_id-Writes env now owner s request random m',
    )

jobs-finish_session :
    (env : Env) (r : Record) (m : Manager)
    → (m.jobs ≡ (finish_session env r m).jobs) × (m.queued ≡ (finish_session env r m).queued)
unfolding finish_session update_session schedule_session
jobs-finish_session env r m = ground arith

jobs-end_publication :
    (id : String) (m : Manager)
    → (m.jobs ≡ (end_publication id m).jobs) × (m.queued ≡ (end_publication id m).queued)
unfolding end_publication
jobs-end_publication id m = ground arith

pub jobs-leave :
    (env : Env) (r : Record) (m : Manager)
    → (m.jobs ≡ (leave env r m).jobs) × (m.queued ≡ (leave env r m).queued)
unfolding leave
jobs-leave env r m =
    let m' = finish_session env r m in
    ground (arith, jobs-finish_session env r m, jobs-end_publication r.job.id m')

leave-Writes : (env : Env) (r : Record) (m : Manager) → Writes m (leave env r m)
leave-Writes env r m = Writes.nothing m (leave env r m) (jobs-leave env r m)

begin_or_leave-Writes :
    (env : Env) (r : Record) (p : Result Bool × Manager) → Writes p.1 (begin_or_leave env r p).1
unfolding requeue
begin_or_leave-Writes env r (err e, m) = Writes.nothing m _ (refl, refl)
begin_or_leave-Writes env r (ok false, m) = Writes.nothing m _ (jobs-leave env r (not_active r m))
begin_or_leave-Writes env r (ok true, m) = Writes.nothing m _ (refl, refl)

begin_checked-Writes :
    (env : Env) (now : ℕ) (r : Record) (valid : Result (Unit {0})) (m : Manager)
    → Writes m (begin_checked env now r valid m).1
begin_checked-Writes env now r (err e) m =
    Writes.both m (cancel r.job.id e now m).1 _ (cancel-Writes r.job.id e now m)
      (leave-Writes env r (cancel r.job.id e now m).1)
begin_checked-Writes env now r (ok _) m =
    let p = transition (started now r) queued m in
    Writes.both m p.1 _ (transition-Writes (started now r) queued m refl)
      (begin_or_leave-Writes env (started now r) p)

begin_loaded-Writes :
    (env : Env) (now : ℕ) (id : String) (r : Result Record) (m : Manager)
    → Writes m (begin_loaded env now id r m).1
unfolding requeue
begin_loaded-Writes env now id (err e) m = Writes.nothing m _ (refl, refl)
begin_loaded-Writes env now id (ok r) m = elim (Bool-cases (same r.job.status queued)) [
  | inl waiting ↦ rw waiting (begin_checked-Writes env now r (validate_session_job r now m) m)
  | inr other ↦ rw other (leave-Writes env r m)
]

pub begin_run-Writes :
    (env : Env) (now : ℕ) (id : String) (m : Manager) → Writes m (begin_run env now id m).1
unfolding begin_run
begin_run-Writes env now id m = begin_loaded-Writes env now id (load id m) m

pub transition_with_retry-Writes :
    (attempts : ℕ) (r : Record) (expected : Status) (m : Manager)
    → may_become expected r.job.status ≡ true
    → Writes m (transition_with_retry attempts r expected m).1
unfolding transition_with_retry
transition_with_retry-Writes zero r expected m h = Writes.nothing m m (refl, refl)
transition_with_retry-Writes (suc attempts) r expected m h = ground (
  arith,
  transition-Writes r expected m h,
  transition_with_retry-Writes attempts r expected (transition r expected m).1 h,
  Writes.both m (transition r expected m).1
      (transition_with_retry attempts r expected (transition r expected m).1).1,
)

conclude-Writes : (r : Record) (p : Result Bool × Manager) → Writes p.1 (conclude r p).1
unfolding defer_completion
conclude-Writes r (err e, m) = Writes.nothing m _ (refl, refl)
conclude-Writes r (ok true, m) = Writes.nothing m _ (refl, refl)
conclude-Writes r (ok false, m) = Writes.nothing m _ (ground arith)

pub finish-Writes :
    (attempts now : ℕ) (r : Record) (result : Option CompileResult) (message : String)
    (archived : Bool) (m : Manager)
    → Writes m (finish attempts now r result message archived m).1
unfolding finish
finish-Writes attempts now r result message archived m =
    let r' = finished now result message archived r in
    let p = transition_with_retry attempts r' running m in
    Writes.both m p.1 _ (transition_with_retry-Writes attempts r' running m (ground arith))
      (conclude-Writes r' p)

settle-Writes :
    (env : Env) (id : String) (o : Option Record) (m : Manager) → Writes m (settle env id o m)
settle-Writes env id none m = Writes.nothing m m (refl, refl)
settle-Writes env id (some r) m =
    let m' = release_if_running r (record m { completions = delete id m.completions }) in
    ground (
      arith,
      Writes.nothing m (settle env id (some r) m),
      jobs-finish_session env r m',
      jobs-end_publication id (finish_session env r m'),
    )

-- A deferred completion is lawful if its status may follow the one that it waits for.
pub retry_completion-Writes :
    (env : Env) (r : Record) (m : Manager)
    → may_become r.completion_from r.job.status ≡ true
    → Writes m (retry_completion env r m)
unfolding retry_completion
retry_completion-Writes env r m h =
    let p = transition r r.completion_from m in
    Writes.both m p.1 _ (transition-Writes r r.completion_from m h)
      (settle-Writes env r.job.id (settled r p) p.1)

pub cancel_job-Writes :
    (owner id : String) (now : ℕ) (m : Manager) → Writes m (cancel_job owner id now m).1
unfolding cancel_job load stop_running
cancel_job-Writes owner id now m = elim (Option-cases (lookup id m.jobs)) [
  | inl e ↦ rw (e, cancel_job, load) (Writes.nothing m m (refl, refl))
  | inr (r, e) ↦
      let p = transition (cancelled_job "cancelled by user" now r) running m in
      rw (e, cancel_job, load)
        (ground (
          arith,
          Writes.nothing m m,
          cancel-Writes id "cancelled by user" now m,
          transition-Writes (cancelled_job "cancelled by user" now r) running m,
          Writes.both m p.1 (record p.1 { interrupted = r.job.id ∷ p.1.interrupted }),
          Writes.nothing p.1 (record p.1 { interrupted = r.job.id ∷ p.1.interrupted }),
        ))
]
