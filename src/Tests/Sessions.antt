-- ===== src/Tests/Sessions.antt =====
-- The theorems of the realtime sessions at concrete inputs.
use Prim.Native.Nat.{min}
use latexmk.Prelude.{
  String-discrete, Bool-cases, put, delete_where, lookup, drop, count_if, inr, ◌+◌, ◌-◌, ◌≡◌, refl,
  false, none, [], ◌∷◌, ok, arith,
}
use latexmk.Protocol.{queued, Session, SessionRequest, RevisionRequest, Job}
use latexmk.Jobs.State.{Manager, LiveSession, new}
use latexmk.Jobs.Session.{publish, replay, resync}
use latexmk.Jobs.Session.Events.{IsLog, Runs, publish-IsLog, replay_complete, replay-resync}
use latexmk.Jobs.Session.Rate.{IsExact, requests_by, allowed, allowed_at_once}
use latexmk.Jobs.Submit.{submit_revision, valid_idempotency_key}
use latexmk.Jobs.Submit.Refused.{KeptBy, submit_revision_refused}
use latexmk.Jobs.Exec.{◌>>=◌}
use latexmk.Jobs.Sessions.{expire_sessions}
use latexmk.Jobs.Create.{create_locked, create_session}
use latexmk.Jobs.Create.Once.{Capacity, create_locked-Capacity}
use latexmk.Jobs.Create.Again.{swept_budgets, create_session_again}
use latexmk.Tests.Samples.{options, sources, whole_floats, small}

abbrev blank_session : LiveSession
blank_session = record {
  creation_key = "";
  subscribers = 0;
  cache_expires = 0;
  cache_path = "";
  cache_inputs = [];
  cache_hashes = [];
  cache_stamps = [];
  owner_id = "ann";
  request = options;
  state = record {
    id = "ses_1";
    project_id = "thesis";
    workspace = "w";
    revision = 0;
    latest_job_id = "";
    running_job_id = "";
    pending_job_id = "";
    last_successful_job_id = "";
    event_sequence = 0;
    expires_at = 1000;
  };
  snapshot = sources;
  scheduled = false;
  receipts = [];
  receipt_order = [];
  events = [];
  changed = 0;
}

abbrev a_job : Job
a_job = record {
  session_id = "ses_1";
  revision = 1;
  id = "job_1";
  project_id = "thesis";
  snapshot_id = "snap_a";
  status = queued;
  created_at = 0;
  started_at = none;
  finished_at = none;
  result = none;
  error = "";
}

blank_session-IsLog : IsLog blank_session
blank_session-IsLog = record {
  start = 0;
  runs = refl;
  bounded = omega arith;
  filled = λ h. absurd (omega arith);
}

publish-IsLog_example :
    IsLog (publish "submitted" a_job blank_session)
    × ((publish "submitted" a_job blank_session).state.event_sequence
        ≡ blank_session.state.event_sequence + 1)
publish-IsLog_example =
    publish-IsLog "submitted" a_job blank_session (omega arith) blank_session-IsLog

abbrev spoken_session : LiveSession
spoken_session = publish "submitted" a_job blank_session

abbrev spoken_session-IsLog : IsLog spoken_session
unfolding publish
spoken_session-IsLog = record {
  start = 0;
  runs = (refl, refl);
  bounded = omega arith;
  filled = λ h. omega arith;
}

replay_complete_example :
    (replay 0 spoken_session ≡ drop (0 - spoken_session-IsLog.start) spoken_session.events)
    × Runs 0 (replay 0 spoken_session) spoken_session.state.event_sequence
unfolding publish
replay_complete_example =
    replay_complete 0 spoken_session spoken_session-IsLog (omega arith) (omega arith) (omega arith)

replay-resync_example : replay 9 spoken_session ≡ resync spoken_session.state ∷ []
unfolding publish
replay-resync_example =
    replay-resync 9 spoken_session spoken_session-IsLog (omega arith) (inr (omega arith))

whole_floats-IsExact : IsExact whole_floats
whole_floats-IsExact = record {
  sum = λ m n l. refl;
  difference = λ m n l k. refl;
  product = λ m n l k j. refl;
  smaller = λ m n l k. refl;
  comparison = λ m n l k. refl;
  no_time = omega arith;
}

allowed_at_once_example :
    allowed small "ann" 5 ("ann" ∷ "bob" ∷ "ann" ∷ "ann" ∷ []) new
    ≡ min (requests_by "ann" ("ann" ∷ "bob" ∷ "ann" ∷ "ann" ∷ [])) 2
unfolding new lookup
allowed_at_once_example =
    allowed_at_once small "ann" 5 whole_floats-IsExact (omega arith) (omega arith)
      ("ann" ∷ "bob" ∷ "ann" ∷ "ann" ∷ []) new refl

abbrev opening : SessionRequest
opening = record {
  idempotency_key = "0123456789abcdef";
  project_id = "thesis";
  request = options;
  workspace = "fresh";
}

new-Capacity : Capacity small "ann" new
unfolding new count_if
new-Capacity = record { total = omega arith; own = refl }

create_locked-Capacity_example :
    Capacity small "ann" (create_locked small 10 (ok "ses_1") "ann" opening new).1
create_locked-Capacity_example =
    create_locked-Capacity small 10 (ok "ses_1") "ann" opening new new-Capacity

abbrev opened : Session
opened = record {
  id = "ses_1";
  project_id = "thesis";
  workspace = "fresh";
  revision = 0;
  latest_job_id = "";
  running_job_id = "";
  pending_job_id = "";
  last_successful_job_id = "";
  event_sequence = 1;
  expires_at = 1010;
}

create_session_again_example :
    create_session small 20
      (ok "ses_2")
      "ann"
      opening
      (create_session small 10 (ok "ses_1") "ann" opening new).1
    ≡ (ok opened, swept_budgets small 20 (create_session small 10 (ok "ses_1") "ann" opening new).1)
unfolding create_session ◌>>=◌ create_locked expire_sessions valid_idempotency_key new publish
    count_if put delete_where String-discrete Bool-cases
create_session_again_example =
    create_session_again small 10 20 (ok "ses_1") (ok "ses_2") "ann" opening new opened refl
      ((refl, refl), tt)

abbrev revising : RevisionRequest
revising = record { upload_id = "up_1"; base_revision = 3; idempotency_key = "fedcba9876543210" }

abbrev with_session : Manager
with_session = (create_locked small 10 (ok "ses_1") "ann" opening new).1

submit_revision_refused_example :
    KeptBy with_session (submit_revision small 20 (ok "job_2") "ann" "ses_1" revising with_session)
submit_revision_refused_example =
    submit_revision_refused small 20 (ok "job_2") "ann" "ses_1" revising with_session
