-- ===== src/Jobs/Admission.antt =====
-- What admission to the queue does: `Enqueue` of manager.go against the limits and the pins.
use latexmk.Prelude.{
  ℕ, ◌+◌, ◌-◌, ◌≤◌, ◌<◌, ◌≡◌, refl, String, false, some, lookup, lookup-put_self, Result, ok, err,
  arith, leb,
}
use latexmk.Protocol.{queued, CompileRequest, Job}
use latexmk.Project.Pins.{
  Snapshot, pin_snapshot, release_snapshot, pin_count, one_if, pin_count-pin_snapshot,
  pin_count-release_snapshot,
}
use latexmk.Jobs.State.{Record, Env, Manager}
use latexmk.Jobs.History.{index_history}
use latexmk.Jobs.Store.{load, save, transition, cancel, end_publication}
use latexmk.Jobs.Queue.{pending_count, enqueue, admit, offer, store_queued, with_id, queued_record}

-- The job stands in the store as it was saved, queued, and its pin is the caller's.
record Saved (r : Record) (m : Manager) : Type 0 where
  stored : lookup r.job.id m.jobs ≡ some r
  waiting : r.job.status ≡ queued

save-Saved :
    (r : Record) (m : Manager) → r.job.status ≡ queued → (save r m).0 ≡ ok tt → Saved r (save r m).1
unfolding save index_history
save-Saved r m q h = ground (arith, lookup-put_self r.job.id r m.jobs)

save-pins : (r : Record) (m : Manager) → (save r m).1.pins ≡ m.pins
unfolding save index_history
save-pins r m = ground arith

save-queued :
    (r : Record) (m : Manager)
    → r.job.status ≡ queued
    → (save r m).0 ≡ ok tt
    → ((save r m).1.queued ≡ m.queued + 1) × ((save r m).1.completions ≡ m.completions)
unfolding save index_history
save-queued r m q h = ground arith

-- A saved job can be cancelled, which gives its pin back.
cancel-Saved :
    (r : Record) (message : String) (now : ℕ) (m : Manager)
    → Saved r m
    → let m' = (cancel r.job.id message now m).1 in
      (m'.pins ≡ release_snapshot r.snapshot.id m.pins)
      × (m'.queued ≡ m.queued - 1)
      × (m'.completions ≡ m.completions)
unfolding cancel load transition end_publication
cancel-Saved r message now m s = ground (arith, s.stored, s.waiting)

abbrev pub held : Result Job → ℕ → ℕ
held (ok _) n = n
held (err _) n = 0

-- A bound that an answer without an error keeps.
abbrev pub Within : Result Job → ℕ → ℕ → Type 0
Within (ok _) n max = n ≤ max
Within (err _) n max = Unit {0}

-- An offer that fails drops the pin that came with the job.
offer-pins :
    (env : Env) (now : ℕ) (r : Record) (j : String) (m : Manager)
    → Saved r m
    → one_if r.snapshot.id j ≤ pin_count j m.pins
    → pin_count j (offer env now r m).1.pins + one_if r.snapshot.id j
      ≡ pin_count j m.pins + held (offer env now r m).0 (one_if r.snapshot.id j)
unfolding offer
offer-pins env now r j m s h = ground (
  arith,
  cancel-Saved r "compile queue is full" now m s,
  pin_count-release_snapshot r.snapshot.id j m.pins,
)

offer-pending :
    (env : Env) (now : ℕ) (r : Record) (m : Manager)
    → Saved r m
    → 0 < m.queued
    → pending_count (offer env now r m).1 + 1 ≡ pending_count m + held (offer env now r m).0 1
unfolding offer pending_count
offer-pending env now r m s h = ground (arith, cancel-Saved r "compile queue is full" now m s)

store-pins :
    (env : Env) (now : ℕ) (r : Record) (j : String) (m : Manager) (p : Result (Unit {0}) × Manager)
    → p.1.pins ≡ m.pins
    → (p.0 ≡ ok tt → Saved r p.1)
    → one_if r.snapshot.id j ≤ pin_count j m.pins
    → pin_count j (store_queued env now r p).1.pins + one_if r.snapshot.id j
      ≡ pin_count j m.pins + held (store_queued env now r p).0 (one_if r.snapshot.id j)
store-pins env now r j m (err e, m') same_pins saved h =
    rw (← same_pins) (ground (arith, pin_count-release_snapshot r.snapshot.id j m'.pins, same_pins))
store-pins env now r j m (ok tt, m') same_pins saved h =
    rw (← same_pins) (offer-pins env now r j m' (saved refl) (rw same_pins h))

store-pending :
    (env : Env) (now : ℕ) (r : Record) (m : Manager) (p : Result (Unit {0}) × Manager)
    → ((e : String) → p.0 ≡ err e → p.1 ≡ m)
    → (p.0 ≡ ok tt → Saved r p.1 × (p.1.queued ≡ m.queued + 1) × (p.1.completions ≡ m.completions))
    → pending_count (store_queued env now r p).1
      ≡ pending_count m + held (store_queued env now r p).0 1
unfolding pending_count
store-pending env now r m (err e, m') unchanged saved = ground (arith, unchanged e refl)
store-pending env now r m (ok tt, m') unchanged saved =
    let (s, q, c) = saved refl in ground (arith, offer-pending env now r m' s)

save_error_unchanged :
    (r : Record) (m : Manager) (e : String) → (save r m).0 ≡ err e → (save r m).1 ≡ m
unfolding save
save_error_unchanged r m e h = ground arith

with_id-pins :
    (env : Env) (now : ℕ) (owner : String) (s : Snapshot) (request : CompileRequest) (j : String)
    (random : Result String) (m : Manager)
    → one_if s.id j ≤ pin_count j m.pins
    → pin_count j (with_id env now owner s request random m).1.pins + one_if s.id j
      ≡ pin_count j m.pins + held (with_id env now owner s request random m).0 (one_if s.id j)
with_id-pins env now owner s request j (err e) m h =
    ground (arith, pin_count-release_snapshot s.id j m.pins)
with_id-pins env now owner s request j (ok id) m h =
    let r = queued_record id now owner s request in
    store-pins env now r j m (save r m) (save-pins r m) (save-Saved r m refl) h

with_id-pending :
    (env : Env) (now : ℕ) (owner : String) (s : Snapshot) (request : CompileRequest)
    (random : Result String) (m : Manager)
    → pending_count (with_id env now owner s request random m).1
      ≡ pending_count m + held (with_id env now owner s request random m).0 1
with_id-pending env now owner s request (err e) m = unfold pending_count in omega arith
with_id-pending env now owner s request (ok id) m =
    let r = queued_record id now owner s request in
    store-pending env now r m (save r m) (save_error_unchanged r m)
      (λ h. let (q, c) = save-queued r m refl h in (save-Saved r m refl h, q, c))

module _ (env : Env) (now : ℕ) (random : Result String) (owner : String) (s : Snapshot)
    (request : CompileRequest) (m : Manager) where
  pinned : Manager
  pinned = record m { pins = pin_snapshot s m.pins }

  -- A job that is admitted holds one pin of its sources; one that is refused, wherever the
  -- admission stops, leaves the number of pins of every snapshot as it was.
  pub enqueue_pins :
      (j : String)
      → let p = enqueue env now random owner s request m in
        pin_count j p.1.pins ≡ pin_count j m.pins + held p.0 (one_if s.id j)
  unfolding enqueue admit pinned
  enqueue_pins j = ground (
    arith,
    pin_count-pin_snapshot s j m.pins,
    pin_count-release_snapshot s.id j (pin_snapshot s m.pins),
    with_id-pins env now owner s request j random pinned,
  )

  -- Admission adds one to the pending work if it returns a job, and nothing if it fails; and a job
  -- is returned only while the pending work stays within the configured maximum.
  pub enqueue_pending :
      let p = enqueue env now random owner s request m in
      (pending_count p.1 ≡ pending_count m + held p.0 1)
      × Within p.0 (pending_count p.1) env.max_queued_jobs
  unfolding enqueue admit pinned pending_count
  enqueue_pending =
      let accepted : (leb env.max_queued_jobs (pending_count m) ≡ false)
          → pending_count m + 1 ≤ env.max_queued_jobs =
        λ h. ground arith in
      (
        ground (arith, with_id-pending env now owner s request random pinned),
        ground (arith, with_id-pending env now owner s request random pinned, accepted),
      )
