-- ===== src/Jobs/Store.antt =====
-- The job store in memory (manager.go): `load`, `save`, `transition`, `cancel`, publications, the
-- removal of old jobs.
use latexmk.Prelude.{
  ℕ, ◌+◌, ◌-◌, ◌%◌, ◌^◌, String, Bool, true, false, not, ◌&&◌, ◌||◌, Option, none, some, List, [],
  ◌∷◌, Map, lookup, put, delete, delete_where, Result, ok, err, ltb, if◌then◌else◌,
}
use latexmk.Protocol.{Status, queued, succeeded, failed, cancelled, same}
use latexmk.Project.Pins.{no_snapshot, Snapshot, release_snapshot}
use latexmk.Jobs.State.{Record, Manager}
use latexmk.Jobs.History.{index_history, prune_history}

unfoldable pub load : String → Manager → Result Record
load id m = elim (lookup id m.jobs) [ none ↦ err "job not found" | some r ↦ ok r ]

-- The publication gate of a job is open while its identifier is a key of `publications`.
unfoldable pub save : Record → Manager → Result (Unit {0}) × Manager
save r m = elim (lookup r.job.id m.jobs) [
  | some _ ↦ (err "job already exists", m)
  | none ↦
      let m' = index_history r (record m { jobs = put r.job.id r m.jobs }) in
      (
        ok tt,
        record m' {
          queued = if same r.job.status queued then m'.queued + 1 else m'.queued;
          publications = put r.job.id tt m'.publications;
        },
      )
]

abbrev pub is_none {ℓ} : {A : Type ℓ} → Option A → Bool
is_none none = true
is_none (some _) = false

-- The stored record after a transition: the job is replaced, and a finished one lets its sources go.
abbrev pub advance : Record → Record → Record
advance current r = record current {
  job = r.job;
  snapshot = if is_none r.job.finished_at then current.snapshot else no_snapshot;
}

-- The queue counter after a transition from one status to another. It is decremented only when a
-- queued job is stored, so that it is not 0 there.
abbrev pub recount : Status → Status → ℕ → ℕ
recount before after n =
    let n' = if same before queued && not (same after queued) then n - 1 else n in
    if not (same before queued) && same after queued then n' + 1 else n'

unfoldable pub transition : Record → Status → Manager → Result Bool × Manager
transition r expected m = elim (lookup r.job.id m.jobs) [
  | none ↦ (err "job not found", m)
  | some current ↦ if not (same current.job.status expected) then (ok false, m) else (
    ok true,
    record m {
      queued = recount current.job.status r.job.status m.queued;
      jobs = put r.job.id (advance current r) m.jobs;
    },
  )
]

abbrev pub has {ℓ} : {V : Type ℓ} → String → Map V → Bool
has k m = not (is_none (lookup k m))

unfoldable pub begin_publication : String → Manager → Manager
begin_publication id m =
    if has id m.publications then m else record m { publications = put id tt m.publications }

unfoldable pub end_publication : String → Manager → Manager
end_publication id m =
    if has id m.completions
    then m
    else if has id m.publications
    then record m {
      publications = delete id m.publications;
      publication_version = (m.publication_version + 1) % 2 ^ 64;
    }
    else m

abbrev pub release : String → Manager → Manager
release id m = record m { pins = release_snapshot id m.pins }

abbrev pub cancelled_job : String → ℕ → Record → Record
cancelled_job message now r = record r {
  job = record r.job { status = cancelled; error = message; finished_at = some now };
}

abbrev pub after_cancel : String → Snapshot → Result Bool × Manager → Result (Unit {0}) × Manager
after_cancel id s (err e, m) = (err e, m)
after_cancel id s (ok false, m) = (err "job is no longer queued", m)
after_cancel id s (ok true, m) = (ok tt, end_publication id (release s.id m))

-- Cancels a queued job; a job that is already cancelled is left alone.
unfoldable pub cancel : String → String → ℕ → Manager → Result (Unit {0}) × Manager
cancel id message now m = elim (load id m) [
  | err e ↦ (err e, m)
  | ok r ↦
      if same r.job.status cancelled
      then (ok tt, m)
      else after_cancel id r.snapshot (transition (cancelled_job message now r) queued m)
]

unfoldable pub is_terminal : Status → Bool
is_terminal s = same s succeeded || same s failed || same s cancelled

abbrev pub finished_before : ℕ → Option ℕ → Bool
finished_before cutoff none = false
finished_before cutoff (some t) = ltb t cutoff

abbrev pub expired : ℕ → Manager → String → Record → Bool
expired cutoff m id r =
    is_terminal r.job.status
    && not (has id m.publications)
    && finished_before cutoff r.job.finished_at

-- The owners of the records that a sweep drops.
abbrev pub owners_of : (String → Record → Bool) → Map Record → List String
owners_of p [] = []
owners_of p ((id, r) ∷ jobs) =
    let rest = owners_of p jobs in if p id r then r.owner_id ∷ rest else rest

abbrev pub prune_histories : List String → Manager → Manager
prune_histories [] m = m
prune_histories (o ∷ os) m = prune_histories os (prune_history o m)

unfoldable pub prune_terminal : ℕ → Manager → Manager
prune_terminal cutoff m =
    prune_histories (owners_of (expired cutoff m) m.jobs)
      (record m { jobs = delete_where (expired cutoff m) m.jobs })
