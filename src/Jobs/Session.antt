-- ===== src/Jobs/Session.antt =====
-- One realtime session (packages/server/internal/jobs/sessions.go): its events, its receipts and
-- the limiter of revisions.
pub mod Events
pub mod Rate
use latexmk.Prelude.{
  ℕ, ◌+◌, ◌-◌, ◌*◌, ◌%◌, ◌^◌, String, String-discrete, ite, Bool, true, false, ◌||◌, Option, none,
  some, List, [], ◌∷◌, ◌++◌, Map, lookup, put, delete, length, drop, keep, Result, ok, err, ltb,
  ◌==◌, if◌then◌else◌,
}
use latexmk.Protocol.{Job, unset, ProjectFile, RevisionRequest, Session, SessionEvent}
use latexmk.Project.Pins.{Snapshot}
use latexmk.Jobs.State.{LiveSession, RevisionReceipt, RevisionBudget, Env, Float64, Floats}

abbrev pub max_session_receipts : ℕ
max_session_receipts = 128

abbrev pub max_session_events : ℕ
max_session_events = 64

abbrev pub max_session_subscribers : ℕ
max_session_subscribers = 4

abbrev pub max_session_revision : ℕ
max_session_revision = 2 ^ 31

abbrev pub revision_burst_seconds : ℕ
revision_burst_seconds = 2

-- The last entries of a list, at most so many.
unfoldable pub last_entries {ℓ} : {A : Type ℓ} → ℕ → List A → List A
last_entries n xs = if ltb n (length xs) then drop (length xs - n) xs else xs

-- publishSessionLocked
unfoldable pub publish : String → Job → LiveSession → LiveSession
unfolding last_entries
publish kind job s =
    let sequence = (s.state.event_sequence + 1) % 2 ^ 64 in
    let event : SessionEvent = record {
      sequence = sequence;
      kind = kind;
      revision = job.revision;
      job_id = job.id;
      status = job.status;
    } in
    record s {
      state = record s.state { event_sequence = sequence };
      events = last_entries max_session_events (s.events ++ event ∷ []);
      changed = s.changed + 1;
    }

abbrev pub first_sequence : List SessionEvent → Option ℕ
first_sequence [] = none
first_sequence (e ∷ es) = some e.sequence

abbrev pub gap : ℕ → Option ℕ → Bool
gap after none = false
gap after (some first) = ltb ((after + 1) % 2 ^ 64) first

abbrev pub resync : Session → SessionEvent
resync state = record {
  sequence = state.event_sequence;
  kind = "resync";
  revision = state.revision;
  job_id = "";
  status = unset;
}

-- The events that `SessionEvents` replays to a client that has seen those up to `after`.
unfoldable pub replay : ℕ → LiveSession → List SessionEvent
unfolding keep
replay after s =
    if ltb s.state.event_sequence after || gap after (first_sequence s.events)
    then resync s.state ∷ []
    else keep (λ e. ltb after e.sequence) s.events

abbrev trim_receipts : List String → Map RevisionReceipt → List String × Map RevisionReceipt
trim_receipts [] receipts = ([], receipts)
trim_receipts (key ∷ keys) receipts =
    if ltb max_session_receipts (length (key ∷ keys))
    then (keys, delete key receipts)
    else (key ∷ keys, receipts)

-- The receipt of an admitted revision is kept, and beyond the limit the oldest is dropped.
unfoldable pub add_receipt : RevisionRequest → String → LiveSession → LiveSession
add_receipt req job_id s =
    let (order, receipts) =
      trim_receipts (s.receipt_order ++ req.idempotency_key ∷ [])
        (put req.idempotency_key (record { request = req; job_id = job_id }) s.receipts) in
    record s { receipts = receipts; receipt_order = order }

-- clearSessionCacheLocked, without the removal of the checkpoint file.
unfoldable pub clear_cache : LiveSession → LiveSession
clear_cache s = record s {
  cache_expires = 0;
  cache_path = "";
  cache_inputs = [];
  cache_stamps = [];
  cache_hashes = [];
}

abbrev pub burst : Floats → ℕ → Float64
burst float rate = float.multiply (float.of_int rate) (float.of_int revision_burst_seconds)

abbrev pub or_full : Floats → ℕ → ℕ → Option RevisionBudget → RevisionBudget
or_full float rate now none = record { tokens = burst float rate; updated = now }
or_full float rate now (some b) = b

-- The bucket of `allowRevisionLocked` at the instant of a request. The clock of `now.Sub` does not
-- go back.
unfoldable pub refill : Floats → ℕ → ℕ → Option RevisionBudget → RevisionBudget
refill float rate now o =
    let b = or_full float rate now o in
    let gained = float.multiply (float.seconds (now - b.updated)) (float.of_int rate) in
    record { tokens = float.least (burst float rate) (float.add b.tokens gained); updated = now }

-- Whether a revision is allowed, and the bucket afterwards.
unfoldable pub spend : Floats → ℕ → ℕ → Option RevisionBudget → Bool × RevisionBudget
unfolding refill
spend float rate now o =
    let b = refill float rate now o in
    if float.less b.tokens (float.of_int 1)
    then (false, b)
    else (true, record b { tokens = float.subtract b.tokens (float.of_int 1) })
