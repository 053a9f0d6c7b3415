-- ===== src/Jobs/Cleanup/Removal.antt =====
-- `cleanupProject` behind its plan, and what it removes (packages/server/internal/jobs/manager.go).
use latexmk.Prelude.{
  ℕ, ◌+◌, String, Bool, true, false, not, ◌&&◌, ◌||◌, Option, none, some, List, [], ◌∷◌, Result, ok,
  err, if◌then◌else◌,
}
use latexmk.Protocol.{CleanupReport}
use latexmk.Jobs.State.{Env, Manager}
use latexmk.Jobs.Sessions.{same_text, is_blank}
use latexmk.Jobs.Cleanup.{
  Files, Plan, Outcome, stop, go, or_stop, stop_if, ◌>>=◌, ◌>>◌, plan, session_project_ids,
  is_scope, delete_terminal_project_records,
}

abbrev reclaim : CleanupReport → Result ℕ → Outcome CleanupReport
reclaim report (ok n) = go (record report { reclaimed_bytes = report.reclaimed_bytes + n })
reclaim report (err e) = stop report e

abbrev delete_caches : Files → String → CleanupReport → Outcome CleanupReport
delete_caches files scope report =
    if is_scope "cache" "project" scope
    then reclaim report files.delete_compile_caches
    else go report

abbrev delete_each : Files → List String → CleanupReport → Outcome CleanupReport
delete_each files [] report = go report
delete_each files (id ∷ ids) report =
    reclaim report (files.delete_result id) >>= λ report'. delete_each files ids report'

abbrev delete_results : Files → String → List String → CleanupReport → Outcome CleanupReport
delete_results files scope ids report =
    if is_scope "results" "project" scope then delete_each files ids report else go report

abbrev delete_sources : Files → String → CleanupReport → Outcome CleanupReport
delete_sources files scope report =
    if not (is_scope "snapshot" "project" scope)
    then go report
    else (do or_stop report files.delete_snapshot; reclaim report files.collect_unreferenced_blobs)

abbrev answer : Outcome CleanupReport → CleanupReport × Option String
answer (stop report e) = (report, some e)
answer (go report) = (report, none)

abbrev pub delete_records : String → String → String → Manager → Manager
delete_records owner project scope m =
    if same_text scope "project" then delete_terminal_project_records owner project m else m

abbrev pub finish_removal :
    Files
    → String
    → String
    → String
    → Outcome CleanupReport
    → Manager
    → (CleanupReport × Option String) × Manager
finish_removal files owner project scope (stop report e) m = ((report, some e), m)
finish_removal files owner project scope (go report) m =
    (answer (delete_sources files scope report), delete_records owner project scope m)

-- The removal, in the order of the code; what is removed before an error stays removed.
unfoldable pub remove :
    Files → String → String → String → Plan → Manager → (CleanupReport × Option String) × Manager
remove files owner project scope p m =
    finish_removal files owner project scope
      (delete_caches files scope p.report >>= λ report.
        delete_results files scope p.terminal_ids report)
      m

abbrev pub follow :
    Files
    → String
    → String
    → String
    → Bool
    → String
    → Outcome Plan
    → Manager
    → (CleanupReport × Option String) × Manager
follow files owner project scope dry expected (stop report e) m = ((report, some e), m)
follow files owner project scope dry expected (go p) m =
    if dry
    then ((p.report, none), m)
    else if same_text expected p.report.plan_digest
    then remove files owner project scope p m
    else ((p.report, some "cleanup targets changed since preview; create a new plan"), m)

abbrev empty_report : String → String → Bool → CleanupReport
empty_report project scope dry = record {
  active_sessions = [];
  compile_caches = 0;
  compile_cache_bytes = 0;
  compile_cache_digest = "";
  project_id = project;
  scope = scope;
  dry_run = dry;
  plan_digest = "";
  snapshot_present = false;
  snapshot_files = 0;
  snapshot_bytes = 0;
  jobs = 0;
  results = 0;
  result_bytes = 0;
  reclaimed_bytes = 0;
  active_jobs = [];
}

abbrev some_live : List String → Bool
some_live [] = false
some_live (id ∷ ids) = true

-- What `cleanupProject` checks before it looks at the jobs.
abbrev pub guarded : Env → Files → String → String → String → Bool → Manager → Outcome CleanupReport
guarded env files owner project scope dry m = do
  let report = empty_report project scope dry
  stop_if (not (env.valid_project_id project)) report "project ID is invalid"
  stop_if (not (is_scope "results" "snapshot" scope || is_scope "project" "cache" scope)) report
      "cleanup scope must be results, snapshot, cache, or project"
  let live = files.sorted (session_project_ids owner project m.sessions)
  let noted = record report { active_sessions = live }
  stop_if (some_live live && not dry) noted "project has live sessions; close them before cleanup"
  go noted

-- cleanupProject
unfoldable pub cleanup_project :
    Env
    → Files
    → String
    → String
    → String
    → Bool
    → String
    → Manager
    → (CleanupReport × Option String) × Manager
cleanup_project env files owner project scope dry expected m =
    follow files owner project scope dry expected
      (guarded env files owner project scope dry m >>= λ report.
        plan files owner project scope report m)
      m

-- CleanupProject
unfoldable pub preview_cleanup :
    Env → Files → String → String → String → Manager → (CleanupReport × Option String) × Manager
preview_cleanup env files owner project scope m =
    cleanup_project env files owner project scope true "" m

-- CleanupProjectWithPlan
unfoldable pub cleanup_with_plan :
    Env
    → Files
    → String
    → String
    → String
    → String
    → Manager
    → (CleanupReport × Option String) × Manager
cleanup_with_plan env files owner project scope expected m =
    if is_blank expected
    then ((empty_report "" "" false, some "cleanup plan digest is required"), m)
    else cleanup_project env files owner project scope false expected m
