-- ===== src/Jobs/Cleanup/Safety.antt =====
-- What the cleanup of a project spares (packages/server/internal/jobs/manager.go).
use latexmk.Prelude.{
  ◌≡◌, refl, String, Bool, true, false, ◌&&◌, Option, none, some, lookup, Distinct, surviving,
  lookup-delete_where, arith, Bool-cases, inl, inr,
}
use latexmk.Protocol.{CleanupReport}
use latexmk.Jobs.State.{Record, Env, Manager}
use latexmk.Jobs.History.{prune_history}
use latexmk.Jobs.Store.{is_terminal}
use latexmk.Jobs.Sessions.{same_text}
use latexmk.Jobs.Cleanup.{
  Files, Plan, Outcome, stop, go, of_project, delete_terminal_project_records,
}
use latexmk.Jobs.Cleanup.Removal.{follow, remove, finish_removal, delete_records, cleanup_project}

-- What may become of a stored job: it stays as it is, or it goes, if it has ended and belongs to
-- the owner and the project.
abbrev pub Spares : String → String → Option Record → Option Record → Type 0
Spares owner project none after = after ≡ none
Spares owner project (some r) none =
    (of_project owner project r ≡ true) × (is_terminal r.job.status ≡ true)
Spares owner project (some r) (some r') = r' ≡ r

Spares-refl : (owner project : String) (o : Option Record) → Spares owner project o o
Spares-refl owner project none = refl
Spares-refl owner project (some r) = refl

surviving-Spares :
    (owner project : String) (o : Option Record)
    → Spares owner project o
        (surviving (λ r. of_project owner project r && is_terminal r.job.status) o)
surviving-Spares owner project none = refl
surviving-Spares owner project (some r) =
    elim (Bool-cases (of_project owner project r && is_terminal r.job.status)) [
      | inl gone ↦ rw (gone, surviving) (ground arith, ground arith)
      | inr kept ↦ rw (kept, surviving) refl
    ]

module _ (owner project id : String) where
  delete_records-Spares :
      (scope : String) (m : Manager)
      → Distinct m.jobs
      → Spares owner project
          (lookup id m.jobs)
          (lookup id (delete_records owner project scope m).jobs)
  unfolding delete_terminal_project_records prune_history
  delete_records-Spares scope m h = elim (Bool-cases (same_text scope "project")) [
    | inl all ↦
        rw (all, lookup-delete_where id _ m.jobs h)
          (surviving-Spares owner project (lookup id m.jobs))
    | inr some_of_it ↦ rw some_of_it (Spares-refl owner project (lookup id m.jobs))
  ]

  finish_removal-Spares :
      (files : Files) (scope : String) (o : Outcome CleanupReport) (m : Manager)
      → Distinct m.jobs
      → Spares owner project
          (lookup id m.jobs)
          (lookup id (finish_removal files owner project scope o m).1.jobs)
  finish_removal-Spares files scope (stop report e) m h =
      Spares-refl owner project (lookup id m.jobs)
  finish_removal-Spares files scope (go report) m h = delete_records-Spares scope m h

  follow-Spares :
      (files : Files) (scope : String) (dry : Bool) (expected : String) (o : Outcome Plan)
      (m : Manager)
      → Distinct m.jobs
      → Spares owner project
          (lookup id m.jobs)
          (lookup id (follow files owner project scope dry expected o m).1.jobs)
  unfolding remove
  follow-Spares files scope dry expected (stop report e) m h =
      Spares-refl owner project (lookup id m.jobs)
  follow-Spares files scope true expected (go p) m h = Spares-refl owner project (lookup id m.jobs)
  follow-Spares files scope false expected (go p) m h =
      elim (Bool-cases (same_text expected p.report.plan_digest)) [
        | inl planned ↦ rw planned (finish_removal-Spares files scope _ m h)
        | inr changed ↦ rw changed (Spares-refl owner project (lookup id m.jobs))
      ]

  -- Where no identifier is stored twice, a cleanup of any scope, whatever it answers, leaves every stored job exactly as it was, or
  -- removes it if it has ended and belongs to the owner and the project: no queued or running job,
  -- and no job of another owner or project, is lost.
  pub cleanup_project-Spares :
      (env : Env) (files : Files) (scope : String) (dry : Bool) (expected : String) (m : Manager)
      → Distinct m.jobs
      → Spares owner project
          (lookup id m.jobs)
          (lookup id (cleanup_project env files owner project scope dry expected m).1.jobs)
  unfolding cleanup_project
  cleanup_project-Spares env files scope dry expected m h =
      follow-Spares files scope dry expected _ m h
