-- ===== src/Jobs/Lifecycle/Trace.antt =====
-- The manager over time: one step for each operation, and what holds of every step.
use latexmk.Prelude.{
  ℕ, ◌≡◌, ◌≢◌, ◌⊎◌, surviving, lookup-delete_where, String, Bool, true, Option, none, some, lookup,
  Result, arith, Bool-cases, inl, inr,
}
use latexmk.Protocol.{CompileRequest, CompileResult, RevisionRequest, SessionRequest}
use latexmk.Project.Pins.{Snapshot}
use latexmk.Jobs.State.{Record, Env, Manager, new}
use latexmk.Jobs.Store.{is_terminal, prune_terminal, expired}
use latexmk.Jobs.Queue.{enqueue, cancel_job}
use latexmk.Jobs.Sessions.{close_session, expire_sessions, take_session}
use latexmk.Jobs.Create.{create_session}
use latexmk.Jobs.Submit.{submit_revision}
use latexmk.Jobs.Worker.{begin_run, end_run, finish, retry_completion}
use latexmk.Jobs.Lifecycle.{Lawful, Moves, Moves-refl, Writes, Writes-Lawful, may_become}
use latexmk.Jobs.Counting.{
  Sound, new-Sound, Writes-Sound, jobs-prune_histories, prune_terminal-Sound,
}
use latexmk.Jobs.Lifecycle.Operations.{
  enqueue-Writes, cancel_job-Writes, begin_run-Writes, finish-Writes, retry_completion-Writes,
}
use latexmk.Jobs.Lifecycle.Expiry.{
  take_session-Writes, end_run-Writes, create_session-Writes, expire_sessions-Writes,
}
use latexmk.Jobs.Create.{maintain_sessions}
use latexmk.Jobs.Worker.Loop.{worker, after}
use latexmk.Jobs.Cleanup.{Files}
use latexmk.Jobs.Cleanup.Removal.{cleanup_project}
use latexmk.Jobs.Lifecycle.Upkeep.{worker-Writes, maintain_sessions-Writes, cleanup_project-Sound}
use latexmk.Jobs.Lifecycle.Sessions.{submit_revision-Writes, close_session-Writes}

-- One operation. A deferred completion is one that `finish` or `updatePublishedCache` made: its
-- status follows the one that it waits for. A sweep has the instant before which ended jobs go.
pub data Step (env : Env) (m m' : Manager) : Type 0 where
  enqueues :
      (now : ℕ) (random : Result String) (owner : String) (s : Snapshot) (request : CompileRequest)
      → m' ≡ (enqueue env now random owner s request m).1
      → Step env m m'
  cancels : (owner id : String) (now : ℕ) → m' ≡ (cancel_job owner id now m).1 → Step env m m'
  begins : (now : ℕ) (id : String) → m' ≡ (begin_run env now id m).1 → Step env m m'
  finishes :
      (attempts now : ℕ) (r : Record) (result : Option CompileResult) (message : String)
      (archived : Bool)
      → m' ≡ (finish attempts now r result message archived m).1
      → Step env m m'
  retries :
      (r : Record)
      → may_become r.completion_from r.job.status ≡ true
      → m' ≡ retry_completion env r m
      → Step env m m'
  submits :
      (now : ℕ) (random : Result String) (owner id : String) (req : RevisionRequest)
      → m' ≡ (submit_revision env now random owner id req m).1
      → Step env m m'
  closes : (owner id : String) (now : ℕ) → m' ≡ (close_session owner id now m).1 → Step env m m'
  takes : (id : String) → m' ≡ (take_session id m).1 → Step env m m'
  ends : (r : Record) → m' ≡ end_run env r m → Step env m m'
  creates :
      (now : ℕ) (random : Result String) (owner : String) (req : SessionRequest)
      → m' ≡ (create_session env now random owner req m).1
      → Step env m m'
  expires : (now : ℕ) → m' ≡ expire_sessions env now m → Step env m m'
  prunes : (cutoff : ℕ) → m' ≡ prune_terminal cutoff m → Step env m m'

-- What may become of an entry of the store: its status moves as it may, and it goes only when
-- the job has ended and was finished.
abbrev pub Evolves : Option Record → Option Record → Type 0
Evolves none after = Unit {0}
Evolves (some r) none = (is_terminal r.job.status ≡ true) × (r.job.finished_at ≢ none)
Evolves (some r) (some r') = may_become r.job.status r'.job.status ≡ true

Moves-Evolves : (a b : Option Record) → Moves a b → Evolves a b
Moves-Evolves none b h = tt
Moves-Evolves (some a) none h = elim h [ ]
Moves-Evolves (some a) (some b) h = h

Lawful-Evolves :
    (m m' : Manager) (id : String) → Lawful m m' → Evolves (lookup id m.jobs) (lookup id m'.jobs)
Lawful-Evolves m m' id h = Moves-Evolves (lookup id m.jobs) (lookup id m'.jobs) (h.at id)

surviving-Evolves :
    (id : String) (cutoff : ℕ) (m : Manager) (o : Option Record)
    → Evolves o (surviving (expired cutoff m id) o)
unfolding is_terminal
surviving-Evolves id cutoff m none = tt
surviving-Evolves id cutoff m (some r) = elim (Bool-cases (expired cutoff m id r)) [
  | inl gone ↦ rw (gone, surviving) (ground arith, ground arith)
  | inr kept ↦ rw (kept, surviving) (Moves-refl (some r))
]

prune_terminal-Evolves :
    (id : String) (cutoff : ℕ) (m : Manager)
    → Sound m
    → Evolves (lookup id m.jobs) (lookup id (prune_terminal cutoff m).jobs)
unfolding prune_terminal
prune_terminal-Evolves id cutoff m h =
    rw (jobs-prune_histories, lookup-delete_where id (expired cutoff m) m.jobs h.distinct)
      (surviving-Evolves id cutoff m (lookup id m.jobs))

-- A step is a series of writes, or it is a sweep.
Step-cases :
    (env : Env) (m m' : Manager)
    → Step env m m'
    → Writes m m' ⊎ ((cutoff : ℕ) × (m' ≡ prune_terminal cutoff m))
Step-cases env m m' (prunes cutoff e) = inr (cutoff, e)
Step-cases env m m' (enqueues now random owner s request e) =
    inl (rw e (enqueue-Writes env now random owner s request m))
Step-cases env m m' (cancels owner job now e) = inl (rw e (cancel_job-Writes owner job now m))
Step-cases env m m' (begins now job e) = inl (rw e (begin_run-Writes env now job m))
Step-cases env m m' (finishes attempts now r result message archived e) =
    inl (rw e (finish-Writes attempts now r result message archived m))
Step-cases env m m' (retries r fits e) = inl (rw e (retry_completion-Writes env r m fits))
Step-cases env m m' (submits now random owner session req e) =
    inl (rw e ((submit_revision-Writes env now random owner session req).at m))
Step-cases env m m' (closes owner session now e) =
    inl (rw e ((close_session-Writes owner session now).at m))
Step-cases env m m' (takes session e) = inl (rw e (take_session-Writes session m))
Step-cases env m m' (ends r e) = inl (rw e (end_run-Writes env r m))
Step-cases env m m' (creates now random owner req e) =
    inl (rw e ((create_session-Writes env now random owner req).at m))
Step-cases env m m' (expires now e) = inl (rw e (expire_sessions-Writes env now m))

-- In one step from a sound store, whichever of the operations it is, a job's status only moves on:
-- a queued job may start or end, a running one may end, and one that has ended keeps its status;
-- and a job leaves the store only when it has ended, with the instant of its end recorded.
pub Step-Evolves :
    (env : Env) (m m' : Manager) (id : String)
    → Sound m
    → Step env m m'
    → Evolves (lookup id m.jobs) (lookup id m'.jobs)
Step-Evolves env m m' id h step = elim (Step-cases env m m' step) [
  | inl writes ↦ Lawful-Evolves m m' id (Writes-Lawful writes)
  | inr (cutoff, e) ↦ rw e (prune_terminal-Evolves id cutoff m h)
]

-- A manager that is reached by steps, by rounds of a worker, by ticks of the upkeep of sessions, and
-- by cleanups and previews of cleanups, in whatever order.
pub data Reach (env : Env) (m : Manager) : Manager → Type 0 where
  here : Reach env m m
  next : {a b : Manager} → Reach env m a → Step env a b → Reach env m b
  works : {a : Manager} (now : ℕ) → Reach env m a → Reach env m (after a (worker env now a))
  maintains : {a : Manager} (now : ℕ) → Reach env m a → Reach env m (maintain_sessions env now a)
  cleans :
      {a : Manager} (files : Files) (owner project scope : String) (dry : Bool) (expected : String)
      → Reach env m a
      → Reach env m (cleanup_project env files owner project scope dry expected a).1

pub Step-Sound : (env : Env) (m m' : Manager) → Step env m m' → Sound m → Sound m'
Step-Sound env m m' step h = elim (Step-cases env m m' step) [
  | inl writes ↦ Writes-Sound writes h
  | inr (cutoff, e) ↦ rw e (prune_terminal-Sound cutoff m h)
]

-- From a new manager on, after any of these operations one after the other (enqueueing,
-- cancelling, rounds of a worker, the beginning, the end and the deferred completion of a
-- compilation, the opening, submission, turn, closing, expiry and upkeep of sessions, the sweep of ended jobs, and the cleanup of a
-- project): the counter of queued jobs, by which admission is limited, is the number of stored jobs
-- that are queued, and no identifier is stored twice.
pub Reach-Sound : {env : Env} {m : Manager} → Reach env new m → Sound m
Reach-Sound here = new-Sound
Reach-Sound {env} (next {a = a} {b = b} r step) = Step-Sound env a b step (Reach-Sound r)
Reach-Sound {env} (works {a = a} now r) = Writes-Sound (worker-Writes env now a) (Reach-Sound r)
Reach-Sound {env} (maintains {a = a} now r) =
    Writes-Sound (maintain_sessions-Writes env now a) (Reach-Sound r)
Reach-Sound {env} (cleans {a = a} files owner project scope dry expected r) =
    cleanup_project-Sound env files owner project scope dry expected a (Reach-Sound r)
