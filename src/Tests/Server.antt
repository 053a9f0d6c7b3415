-- ===== src/Tests/Server.antt =====
-- The theorems of the job manager at concrete inputs.
use latexmk.Prelude.{
  arith, inr, keep, put, delete, delete_where, ◌+◌, String-discrete, Bool-cases, ◌≡◌, refl, false,
  none, [], ◌∷◌, lookup, ok,
}
use latexmk.Project.Pins.{pin_snapshot, release_snapshot, pin_count, one_if}
use latexmk.Jobs.State.{Record, Manager, new}
use latexmk.Jobs.History.{
  index_history, prune_history, position, search_from, insert_at, history_of,
}
use latexmk.Jobs.History.Sorted.{IsSorted, Inserts, index_history-IsSorted}
use latexmk.Jobs.Store.{
  prune_terminal, cancel, load, save, transition, end_publication, is_terminal,
}
use latexmk.Jobs.Queue.{
  cancel_job, admit, offer, validate_enqueue, validate_snapshot, queued_record, enqueue,
  pending_count,
}
use latexmk.Jobs.Admission.{held, Within, enqueue_pins, enqueue_pending}
use latexmk.Jobs.Counting.{Sound, new-Sound}
use latexmk.Jobs.Lifecycle.Trace.{Step, Evolves, Step-Evolves, Reach, Reach-Sound}
use latexmk.Jobs.Worker.Loop.{rounds, rounds_lost_tokens, worker, after}
use latexmk.Jobs.Cleanup.{Files}
use latexmk.Jobs.Cleanup.Removal.{cleanup_project}
use latexmk.Jobs.Cleanup.Safety.{Spares, cleanup_project-Spares}
use latexmk.Tests.Samples.{options, sources, small}

abbrev one_job : Manager
one_job = (enqueue small 10 (ok "job_1") "ann" sources options new).1

one_job-Step : Step small new one_job
one_job-Step = Step.enqueues 10 (ok "job_1") "ann" sources options refl

one_job-Reach : Reach small new one_job
one_job-Reach = Reach.next Reach.here one_job-Step

enqueue_pins_example :
    pin_count "snap_a" (enqueue small 10 (ok "job_1") "ann" sources options new).1.pins
    ≡ pin_count "snap_a" new.pins
      + held
          (enqueue small 10 (ok "job_1") "ann" sources options new).0
          (one_if sources.id "snap_a")
enqueue_pins_example = enqueue_pins small 10 (ok "job_1") "ann" sources options new "snap_a"

enqueue_pending_example :
    (pending_count (enqueue small 10 (ok "job_1") "ann" sources options new).1
      ≡ pending_count new + held (enqueue small 10 (ok "job_1") "ann" sources options new).0 1)
    × Within
        (enqueue small 10 (ok "job_1") "ann" sources options new).0
        (pending_count (enqueue small 10 (ok "job_1") "ann" sources options new).1)
        small.max_queued_jobs
enqueue_pending_example = enqueue_pending small 10 (ok "job_1") "ann" sources options new

Step-Evolves_example : Evolves (lookup "job_1" new.jobs) (lookup "job_1" one_job.jobs)
Step-Evolves_example = Step-Evolves small new one_job "job_1" new-Sound one_job-Step

-- Of two jobs the first is cancelled while it waits and then swept, with its token left in the queue.
abbrev two_jobs : Manager
two_jobs = (enqueue small 12 (ok "job_2") "ann" sources options one_job).1

abbrev lost : Manager
lost = prune_terminal 1000 (cancel_job "ann" "job_1" 20 two_jobs).1

lost_token : (lost.queue ≡ "job_1" ∷ "job_2" ∷ []) × (lookup "job_1" lost.jobs ≡ none)
unfolding enqueue admit offer validate_enqueue validate_snapshot pending_count cancel_job cancel
    load save transition end_publication prune_terminal prune_history index_history is_terminal
    position search_from insert_at history_of keep lookup put delete delete_where new
    String-discrete Bool-cases pin_snapshot release_snapshot
lost_token = (refl, refl)

rounds_lost_tokens_example :
    rounds small (1 ∷ []) lost ≡ record lost { queue = "job_2" ∷ "job_1" ∷ [] }
unfolding String-discrete Bool-cases
rounds_lost_tokens_example =
    rounds_lost_tokens small (1 ∷ []) ("job_1" ∷ []) ("job_2" ∷ []) lost lost_token.0 refl
      (record { job = refl; named = refl; gone = lost_token.1 }, tt)

abbrev no_files : Files
no_files = record {
  result_info = λ id. ok none;
  compile_cache_stats = ok (0, 0, "");
  snapshot_stats = ok (false, 0, 0);
  snapshot_id = ok "";
  digest = λ report ids targets snapshot. ok "plan";
  delete_compile_caches = ok 0;
  delete_result = λ id. ok 0;
  delete_snapshot = ok tt;
  collect_unreferenced_blobs = ok 0;
  sorted = λ ids. ids;
  sorted_targets = λ targets. targets;
}

cleanup_project-Spares_example : Spares "ann" "thesis" (lookup "job_1" one_job.jobs) (
    lookup "job_1"
      (cleanup_project small no_files "ann" "thesis" "project" false "plan" one_job).1.jobs)
cleanup_project-Spares_example =
    cleanup_project-Spares "ann" "thesis" "job_1" small no_files "project" false "plan" one_job
      (Reach-Sound one_job-Reach).distinct

-- A job is enqueued, a worker begins it, and a cleanup of its project is refused.
abbrev cleaned : Manager
cleaned =
    (cleanup_project small no_files "ann" "thesis" "project" false "plan"
      (after one_job (worker small 11 one_job))).1

Reach-Sound_example : Sound cleaned
Reach-Sound_example =
    Reach-Sound {env = small}
      (Reach.cleans no_files "ann" "thesis" "project" false "plan" (Reach.works 11 one_job-Reach))

-- A second job is stored, and not yet in the history.
abbrev second : Record
second = queued_record "job_2" 20 "ann" sources options

abbrev unlisted : Manager
unlisted = record one_job { jobs = put "job_2" second one_job.jobs }

unlisted-IsSorted : IsSorted unlisted.jobs (history_of "ann" unlisted)
unfolding IsSorted enqueue admit offer validate_enqueue validate_snapshot pending_count save
    index_history position search_from insert_at history_of lookup put new String-discrete
    Bool-cases pin_snapshot
unlisted-IsSorted i j l u =
    let a : i ≡ 0 = omega arith in let b : j ≡ 0 = omega arith in rw (a, b) (inr (refl, inr refl))

index_history-IsSorted_example :
    IsSorted (index_history second unlisted).jobs (history_of "ann" (index_history second unlisted))
    × Inserts second "ann"
        (history_of "ann" unlisted)
        (history_of "ann" (index_history second unlisted))
unfolding enqueue admit offer validate_enqueue validate_snapshot pending_count save index_history
    position search_from insert_at history_of lookup put new String-discrete Bool-cases pin_snapshot
index_history-IsSorted_example = index_history-IsSorted second unlisted "ann" refl unlisted-IsSorted
