-- ===== src/Jobs/Worker.antt =====
-- A worker's turn at a job (manager.go): `run` up to the compilation and behind it, `finish`,
-- `deferCompletion` and `retryCompletions`. What the compilation returns is an argument.
pub mod Loop
use latexmk.Prelude.{
  ℕ, zero, suc, String, Bool, true, false, not, ◌&&◌, Option, none, some, List, [], ◌∷◌, ◌++◌, Map,
  lookup, put, delete, Result, ok, err, if◌then◌else◌,
}
use latexmk.Protocol.{CompileResult, Status, unset, queued, running, succeeded, failed, same}
use latexmk.Jobs.State.{Record, Env, Manager}
use latexmk.Jobs.Store.{load, transition, cancel, end_publication, is_none, release}
use latexmk.Jobs.Sessions.{is_blank, finish_session, validate_session_job}

-- What became of a job that a worker took from the queue.
pub data Turn : Type 0 where
  requeued : Turn
  left : Turn
  began : Record → Turn

-- `requeue`: after a second the identifier goes to the end of the queue again.
unfoldable pub requeue : String → Manager → Manager
requeue id m = record m { queue = m.queue ++ id ∷ [] }

-- The deferred calls of `run` where no compilation was started.
unfoldable pub leave : Env → Record → Manager → Manager
leave env r m = end_publication r.job.id (finish_session env r m)

abbrev pub started : ℕ → Record → Record
started now r = record r { job = record r.job { status = running; started_at = some now } }

-- The deferred `delete(m.active, id)`.
abbrev pub not_active : Record → Manager → Manager
not_active r m = record m { active = delete r.job.id m.active }

abbrev pub begin_or_leave : Env → Record → Result Bool × Manager → Turn × Manager
begin_or_leave env r (err e, m) = (requeued, requeue r.job.id (not_active r m))
begin_or_leave env r (ok false, m) = (left, leave env r (not_active r m))
begin_or_leave env r (ok true, m) = (began r, record m { active = put r.job.id tt m.active })

abbrev pub begin_checked : Env → ℕ → Record → Result (Unit {0}) → Manager → Turn × Manager
begin_checked env now r (err e) m = (left, leave env r (cancel r.job.id e now m).1)
begin_checked env now r (ok _) m =
    begin_or_leave env (started now r) (transition (started now r) queued m)

abbrev pub begin_loaded : Env → ℕ → String → Result Record → Manager → Turn × Manager
begin_loaded env now id (err e) m = (requeued, requeue id m)
begin_loaded env now id (ok r) m =
    if same r.job.status queued
    then begin_checked env now r (validate_session_job r now m) m
    else (left, leave env r m)

-- `run` up to the compilation. The store in memory reports a job that it lacks by an error of its
-- own and never by `store.ErrJobNotFound`, so `run` queues the identifier again.
unfoldable pub begin_run : Env → ℕ → String → Manager → Turn × Manager
begin_run env now id m = begin_loaded env now id (load id m) m

-- The deferred calls of `run` behind a compilation.
unfoldable pub end_run : Env → Record → Manager → Manager
end_run env r m = leave env r (not_active r m)

-- `transitionWithRetry`, with the number of attempts that the deadline leaves time for.
unfoldable pub transition_with_retry : ℕ → Record → Status → Manager → Result Bool × Manager
transition_with_retry zero r expected m = (err "context deadline exceeded", m)
transition_with_retry (suc attempts) r expected m =
    let again = transition_with_retry attempts r expected (transition r expected m).1 in
    elim (transition r expected m).0 [
      | ok changed ↦ (ok changed, (transition r expected m).1)
      | err e ↦ again
    ]

unfoldable pub defer_completion : Record → Manager → Manager
defer_completion r m =
    let r' = record r {
      completion_from = if same r.completion_from unset then running else r.completion_from;
    } in
    record m { completions = put r.job.id r' m.completions }

abbrev or_text : String → String → String
or_text s t = if is_blank s then t else s

abbrev blame : Bool → String → CompileResult → CompileResult
blame archived message r =
    if not archived && r.success
    then record r { success = false; error = or_text r.error message }
    else r

abbrev map_option {ℓ} : {A : Type ℓ} → (A → A) → Option A → Option A
map_option f none = none
map_option f (some a) = some (f a)

abbrev or_else {ℓ} : {A : Type ℓ} → Option A → Option A → Option A
or_else none b = b
or_else (some a) b = some a

abbrev succeeded_in : Option CompileResult → Bool
succeeded_in none = false
succeeded_in (some r) = r.success

-- The record that `finish` wants stored.
abbrev pub finished : ℕ → Option CompileResult → String → Bool → Record → Record
finished now result message archived r =
    let result' = map_option (blame archived message) result in
    record r {
      job = record r.job {
        finished_at = some now;
        result = or_else result' r.job.result;
        error = message;
        status = if archived && succeeded_in result' then succeeded else failed;
      };
    }

abbrev pub accept_current : Record → Option Record → Manager → (Record × Bool) × Manager
accept_current r none m = ((r, false), defer_completion r m)
accept_current r (some current) m =
    if is_none current.job.finished_at then ((r, false), defer_completion r m) else (
      (record r { job = current.job }, same current.job.status succeeded),
      release r.snapshot.id m,
    )

abbrev pub conclude : Record → Result Bool × Manager → (Record × Bool) × Manager
conclude r (err e, m) = ((r, false), defer_completion r m)
conclude r (ok false, m) = accept_current r (lookup r.job.id m.jobs) m
conclude r (ok true, m) = ((r, same r.job.status succeeded), release r.snapshot.id m)

-- `finish`: the record as it is durably known, and whether it may be published as a success.
unfoldable pub finish :
    ℕ → ℕ → Record → Option CompileResult → String → Bool → Manager → (Record × Bool) × Manager
finish attempts now r result message archived m =
    let r' = finished now result message archived r in
    conclude r' (transition_with_retry attempts r' running m)

-- The outcome of one deferred completion: the record to clean up with, if the store has settled.
abbrev pub settled : Record → Result Bool × Manager → Option Record
settled r (err e, m) = none
settled r (ok true, m) = some r
settled r (ok false, m) = elim (lookup r.job.id m.jobs) [
  | none ↦ none
  | some current ↦
      if is_none current.job.finished_at then none else some (record r { job = current.job })
]

abbrev pub release_if_running : Record → Manager → Manager
release_if_running r m = if same r.completion_from running then release r.snapshot.id m else m

abbrev pub settle : Env → String → Option Record → Manager → Manager
settle env id none m = m
settle env id (some r) m = end_publication id (
    finish_session env r
      (release_if_running r (record m { completions = delete id m.completions })))

-- One record of `retryCompletions`.
unfoldable pub retry_completion : Env → Record → Manager → Manager
retry_completion env r m =
    let p = transition r r.completion_from m in settle env r.job.id (settled r p) p.1

abbrev values {ℓ} : {V : Type ℓ} → Map V → List V
values [] = []
values ((k, v) ∷ m) = v ∷ values m

abbrev retry_each : Env → List Record → Manager → Manager
retry_each env [] m = m
retry_each env (r ∷ rs) m = retry_each env rs (retry_completion env r m)

unfoldable pub retry_completions : Env → Manager → Manager
retry_completions env m = retry_each env (values m.completions) m
