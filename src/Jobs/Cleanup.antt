-- ===== src/Jobs/Cleanup.antt =====
-- The cleanup of a project (packages/server/internal/jobs/manager.go): `CleanupProject`,
-- `CleanupProjectWithPlan` and what they call. The files of the project manager and the digest of
-- a report are reached through `Files`; their removal changes nothing in `Manager`.
pub mod Removal
pub mod Safety
use latexmk.Prelude.{
  ℕ, ◌+◌, String, Bool, true, false, not, ◌&&◌, ◌||◌, Option, none, some, List, [], ◌∷◌, ◌++◌, Map,
  delete_where, length, Result, ok, err, if◌then◌else◌,
}
use latexmk.Protocol.{queued, running, same, CleanupReport}
use latexmk.Jobs.State.{LiveSession, Record, Env, Manager}
use latexmk.Jobs.History.{prune_history}
use latexmk.Jobs.Store.{has, is_terminal}
use latexmk.Jobs.Sessions.{same_text, is_blank}

-- type cleanupResultTarget struct
pub record CleanupResultTarget : Type 0 where
  pub id : String
  pub size : ℕ

-- The answers of the project manager for one owner and project, and the library's sorting.
pub record Files : Type 0 where
  pub result_info : String → Result (Option ℕ)
  pub compile_cache_stats : Result (ℕ × ℕ × String)
  pub snapshot_stats : Result (Bool × ℕ × ℕ)
  pub snapshot_id : Result String
  pub digest : CleanupReport → List String → List CleanupResultTarget → String → Result String
  pub delete_compile_caches : Result ℕ
  pub delete_result : String → Result ℕ
  pub delete_snapshot : Result (Unit {0})
  pub collect_unreferenced_blobs : Result ℕ
  pub sorted : List String → List String
  pub sorted_targets : List CleanupResultTarget → List CleanupResultTarget

-- A part of the body: it returns early, with the report so far and an error, or goes on.
pub data Outcome {ℓ} (A : Type ℓ) : Type ℓ where
  stop : CleanupReport → String → Outcome A
  go : A → Outcome A

infixl 5 ◌>>=◌ ◌>>◌
abbrev pub ◌>>=◌ {ℓ κ} : {A : Type ℓ} {B : Type κ} → Outcome A → (A → Outcome B) → Outcome B
o >>= then_do = elim o [ stop report e ↦ stop report e | go a ↦ then_do a ]

abbrev pub ◌>>◌ {ℓ} : {B : Type ℓ} → Outcome (Unit {0}) → Outcome B → Outcome B
o >> rest = elim o [ stop report e ↦ stop report e | go _ ↦ rest ]

abbrev pub stop_if : Bool → CleanupReport → String → Outcome (Unit {0})
stop_if bad report e = if bad then stop report e else go tt

abbrev pub or_stop {ℓ} : {A : Type ℓ} → CleanupReport → Result A → Outcome A
or_stop report (ok a) = go a
or_stop report (err e) = stop report e

-- sessionProjectIDsLocked
unfoldable pub session_project_ids : String → String → Map LiveSession → List String
session_project_ids owner project [] = []
session_project_ids owner project ((id, s) ∷ rest) =
    let others = session_project_ids owner project rest in
    if same_text s.owner_id owner && same_text s.state.project_id project
    then s.state.id ∷ others
    else others

abbrev pub of_project : String → String → Record → Bool
of_project owner project r = same_text r.owner_id owner && same_text r.job.project_id project

-- projectRecords
unfoldable pub project_records : String → String → Map Record → List Record
project_records owner project [] = []
project_records owner project ((id, r) ∷ jobs) =
    let rest = project_records owner project jobs in
    if of_project owner project r then r ∷ rest else rest

-- deleteTerminalProjectRecords
unfoldable pub delete_terminal_project_records : String → String → Manager → Manager
delete_terminal_project_records owner project m = prune_history owner (record m {
  jobs = delete_where (λ id r. of_project owner project r && is_terminal r.job.status) m.jobs;
})

pub record Plan : Type 0 where
  pub report : CleanupReport
  pub terminal_ids : List String
  pub targets : List CleanupResultTarget

abbrev pub is_scope : String → String → String → Bool
is_scope a b scope = same_text scope a || same_text scope b

abbrev add_active : String → Plan → Plan
add_active id p = record p {
  report = record p.report { active_jobs = p.report.active_jobs ++ id ∷ [] };
}

abbrev add_terminal : String → Plan → Plan
add_terminal id p = record p { terminal_ids = p.terminal_ids ++ id ∷ [] }

abbrev add_result : String → Option ℕ → Plan → Plan
add_result id none p = p
add_result id (some size) p = record p {
  report = record p.report {
    results = p.report.results + 1;
    result_bytes = p.report.result_bytes + size;
  };
  targets = p.targets ++ record { id = id; size = size } ∷ [];
}

abbrev add_ended : Files → String → String → Plan → Outcome Plan
add_ended files scope id p =
    if is_scope "results" "project" scope
    then (or_stop p.report (files.result_info id) >>= λ found. go (add_result id found p))
    else go p

-- One record of the loop in `cleanupProject`.
abbrev pub plan_record : Files → String → Manager → Record → Plan → Outcome Plan
plan_record files scope m r p =
    let id = r.job.id in
    if has id m.active || has id m.completions
    then go (add_active id p)
    else if same r.job.status queued || same r.job.status running
    then go (add_active id p)
    else if is_terminal r.job.status
    then add_ended files scope id (add_terminal id p)
    else go p

abbrev pub plan_records : Files → String → Manager → List Record → Plan → Outcome Plan
plan_records files scope m [] p = go p
plan_records files scope m (r ∷ rs) p =
    plan_record files scope m r p >>= λ p'. plan_records files scope m rs p'

abbrev is_some_active : CleanupReport → Bool
is_some_active report = elim report.active_jobs [ [] ↦ false | id ∷ ids ↦ true ]

abbrev still_active : String
still_active = "project has active jobs; wait for them to finish or cancel queued jobs"

abbrev plan_caches : Files → String → CleanupReport → Outcome CleanupReport
plan_caches files scope report = if not (is_scope "cache" "project" scope) then go report else (do
  stop_if (is_some_active report && not report.dry_run) report still_active
  stats ← or_stop report files.compile_cache_stats
  go (record report {
    compile_caches = stats.0;
    compile_cache_bytes = stats.1;
    compile_cache_digest = stats.2;
  }))

abbrev known_snapshot : Files → CleanupReport → Outcome (CleanupReport × String)
known_snapshot files report =
    if report.snapshot_present
    then (or_stop report files.snapshot_id >>= λ id. go (report, id))
    else go (report, "")

abbrev plan_snapshot : Files → String → CleanupReport → Outcome (CleanupReport × String)
plan_snapshot files scope report =
    if not (is_scope "snapshot" "project" scope) then go (report, "") else (do
      stats ← or_stop report files.snapshot_stats
      let found = record report {
        snapshot_present = stats.0;
        snapshot_files = stats.1;
        snapshot_bytes = stats.2;
      }
      stop_if (is_some_active report && not report.dry_run) found still_active
      known_snapshot files found)

abbrev count_jobs : String → Plan → CleanupReport
count_jobs scope p =
    if same_text scope "project" then record p.report { jobs = length p.terminal_ids } else p.report

-- `cleanupProject` up to the digest of what it would delete.
unfoldable pub plan : Files → String → String → String → CleanupReport → Manager → Outcome Plan
plan files owner project scope report m = do
  p ←
      plan_records files scope m (project_records owner project m.jobs)
        (record { report = report; terminal_ids = []; targets = [] })
  caches ← plan_caches files scope (count_jobs scope p)
  found ← plan_snapshot files scope caches
  let ids = files.sorted p.terminal_ids
  let targets = files.sorted_targets p.targets
  digest ← or_stop found.0 (files.digest found.0 ids targets found.1)
  go (record {
    report = record found.0 { plan_digest = digest };
    terminal_ids = ids;
    targets = targets;
  })
