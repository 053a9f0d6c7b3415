-- ===== src/Jobs/Lifecycle/Upkeep.antt =====
-- What the operations that are made of others do to the stored jobs: a round of a worker, the upkeep
-- of sessions, and the cleanup of a project.
use text.Mathlib.Text.{starts_with}
use latexmk.Prelude.{
  ℕ, ◌≡◌, refl, sym, ◌∙◌, String, Bool, true, false, ◌&&◌, List, [], ◌∷◌, count_if-delete_where,
  delete_where-Distinct, arith, Bool-cases, inl, inr,
}
use latexmk.Protocol.{CleanupReport}
use latexmk.Jobs.State.{Record, Env, Manager}
use latexmk.Jobs.History.{prune_history}
use latexmk.Jobs.Store.{is_terminal}
use latexmk.Jobs.Sessions.{same_text, is_blank, expire_sessions, schedule_session, keys}
use latexmk.Jobs.Create.{schedule_each, maintain_sessions}
use latexmk.Jobs.Worker.Loop.{exchange, run_unless_blank, serve, worker, after}
use latexmk.Jobs.Cleanup.{
  Files, Plan, Outcome, stop, go, of_project, delete_terminal_project_records,
}
use latexmk.Jobs.Cleanup.Removal.{follow, remove, finish_removal, delete_records, cleanup_project}
use latexmk.Jobs.Counting.{Sound, is_queued}
use latexmk.Jobs.Lifecycle.{Writes}
use latexmk.Jobs.Lifecycle.Operations.{begin_run-Writes}
use latexmk.Jobs.Lifecycle.Expiry.{take_session-Writes, expire_sessions-Writes}
use latexmk.Jobs.Lifecycle.Sessions.{schedule_session-Writes}

schedule_each-Writes :
    (env : Env) (ids : List String) (m : Manager) → Writes m (schedule_each env ids m)
schedule_each-Writes env [] m = Writes.nothing m m (refl, refl)
schedule_each-Writes env (id ∷ ids) m =
    Writes.both m (schedule_session env id m) _ (schedule_session-Writes env id m)
      (schedule_each-Writes env ids (schedule_session env id m))

pub maintain_sessions-Writes :
    (env : Env) (now : ℕ) (m : Manager) → Writes m (maintain_sessions env now m)
unfolding maintain_sessions
maintain_sessions-Writes env now m =
    Writes.both m (expire_sessions env now m) _ (expire_sessions-Writes env now m)
      (schedule_each-Writes env (keys (expire_sessions env now m).sessions) _)

exchange-Writes : (id : String) (m : Manager) → Writes m (exchange id m).1
exchange-Writes id m = elim (Bool-cases (starts_with id "ses_")) [
  | inl session ↦ rw session (take_session-Writes id m)
  | inr job ↦ rw job (Writes.nothing m m (refl, refl))
]

run_unless_blank-Writes :
    (env : Env) (now : ℕ) (taken : String × Manager)
    → Writes taken.1 (run_unless_blank env now taken).1
run_unless_blank-Writes env now (id, m) = elim (Bool-cases (is_blank id)) [
  | inl blank ↦ rw blank (Writes.nothing m m (refl, refl))
  | inr named ↦ rw named (begin_run-Writes env now id m)
]

pub worker-Writes : (env : Env) (now : ℕ) (m : Manager) → Writes m (after m (worker env now m))
unfolding worker
worker-Writes env now m = served m.queue
  where
    served : (queue : List String) → Writes m (after m (serve env now queue m))
    served [] = Writes.nothing m m (refl, refl)
    served (id ∷ rest) =
        let m' = record m { queue = rest } in
        Writes.both m m' _ (Writes.nothing m m' (refl, refl)) (
          Writes.both m' (exchange id m').1 _ (exchange-Writes id m')
            (run_unless_blank-Writes env now (exchange id m')))

ended-not-queued :
    (owner project : String) (r : Record)
    → (of_project owner project r && is_terminal r.job.status) ≡ true
    → is_queued r ≡ false
unfolding is_terminal
ended-not-queued owner project r h = ground arith

delete_records-Sound :
    (owner project scope : String) (m : Manager)
    → Sound m
    → Sound (delete_records owner project scope m)
unfolding delete_terminal_project_records prune_history
delete_records-Sound owner project scope m h = elim (Bool-cases (same_text scope "project")) [
  | inl all ↦ rw all (record {
    counted = record {
      exact =
          h.counted.exact
          ∙ sym
              (count_if-delete_where is_queued _ m.jobs (λ id r. ended-not-queued owner project r));
    };
    distinct = delete_where-Distinct _ m.jobs h.distinct;
  })
  | inr some_of_it ↦ rw some_of_it h
]

-- The cleanup of a project keeps the counter of queued jobs exact and the identifiers unique.
pub cleanup_project-Sound :
    (env : Env) (files : Files) (owner project scope : String) (dry : Bool) (expected : String)
    (m : Manager)
    → Sound m
    → Sound (cleanup_project env files owner project scope dry expected m).1
unfolding cleanup_project remove
cleanup_project-Sound env files owner project scope dry expected m h = followed dry _
  where
    removed : (o : Outcome CleanupReport) → Sound (finish_removal files owner project scope o m).1
    removed (stop report e) = h
    removed (go report) = delete_records-Sound owner project scope m h

    followed :
        (b : Bool) (o : Outcome Plan) → Sound (follow files owner project scope b expected o m).1
    followed b (stop report e) = h
    followed true (go p) = h
    followed false (go p) = elim (Bool-cases (same_text expected p.report.plan_digest)) [
      | inl planned ↦ rw planned (removed _)
      | inr changed ↦ rw changed h
    ]
