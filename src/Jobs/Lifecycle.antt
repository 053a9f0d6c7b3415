-- ===== src/Jobs/Lifecycle.antt =====
-- The life of a job: how the operations of the manager may change the status that is stored.
pub mod Operations
pub mod Sessions
pub mod Trace
pub mod Expiry
pub mod Upkeep
use latexmk.Prelude.{
  ℕ, zero, suc, ◌≡◌, refl, String, String-discrete, Bool, true, false, not, ◌||◌, ◌&&◌, Option,
  none, some, List, [], ◌∷◌, Map, lookup, put, delete_where, lookup-put, lookup-put_self,
  lookup-put_ne, Bool-cases, sym, Result, ok, err, arith, Option-cases, inl, inr, if◌then◌else◌,
}
use latexmk.Protocol.{
  Status, unset, queued, running, succeeded, failed, cancelled, same, same-eq, CompileRequest,
  CompileResult,
}
use latexmk.Project.Pins.{Snapshot, pin_snapshot}
use latexmk.Jobs.State.{Record, Env, Manager}
use latexmk.Jobs.History.{index_history, prune_history}
use latexmk.Jobs.Store.{
  load, save, advance, transition, cancel, end_publication, cancelled_job, is_terminal,
  prune_terminal, after_cancel, prune_histories, owners_of, expired,
}
use latexmk.Jobs.Queue.{
  enqueue, admit, offer, cancel_job, stop_running, store_queued, with_id, queued_record,
}

-- A queued job may start, and end in any way; a running one may end; an ended one stays as it is.
abbrev pub may_become : Status → Status → Bool
may_become queued running = true
may_become queued succeeded = true
may_become queued failed = true
may_become queued cancelled = true
may_become running succeeded = true
may_become running failed = true
may_become running cancelled = true
may_become s t = same s t

may_become_refl : (s : Status) → may_become s s ≡ true
may_become_refl queued = refl
may_become_refl _ = refl

may_become_trans :
    (a b c : Status) → may_become a b ≡ true → may_become b c ≡ true → may_become a c ≡ true
may_become_trans queued queued c p q = q
may_become_trans queued running c p q = ground arith
may_become_trans queued b c p q = ground arith
may_become_trans running running c p q = q
may_become_trans running b c p q = ground arith
may_become_trans a b c p q = ground arith

-- What an operation may do to the stored jobs and their counter, in one or more parts: nothing;
-- add a job; or replace one whose status may become the new one.
pub data Writes : Manager → Manager → Type 0 where
  nothing : (a b : Manager) → (a.jobs ≡ b.jobs) × (a.queued ≡ b.queued) → Writes a b
  adds : (r : Record) (a b : Manager) → b ≡ (save r a).1 → Writes a b
  moves :
      (r : Record) (expected : Status) (a b : Manager)
      → may_become expected r.job.status ≡ true
      → b ≡ (transition r expected a).1
      → Writes a b
  both : (a b c : Manager) → Writes a b → Writes b c → Writes a c

pub save-Writes : (r : Record) (m : Manager) → Writes m (save r m).1
save-Writes r m = Writes.adds r m _ refl

-- A conditional update is lawful if the status that it expects may become the one that it writes.
pub transition-Writes :
    (r : Record) (expected : Status) (m : Manager)
    → may_become expected r.job.status ≡ true
    → Writes m (transition r expected m).1
transition-Writes r expected m h = Writes.moves r expected m _ h refl

-- A job that is stored stays stored, and its status moves as it may.
abbrev pub Moves : Option Record → Option Record → Type 0
Moves none after = Unit {0}
Moves (some r) none = ⊥
Moves (some r) (some r') = may_become r.job.status r'.job.status ≡ true

pub record Lawful (m m' : Manager) : Type 0 where
  pub at : (id : String) → Moves (lookup id m.jobs) (lookup id m'.jobs)

pub Moves-refl : (o : Option Record) → Moves o o
Moves-refl none = tt
Moves-refl (some r) = may_become_refl r.job.status

Moves-trans : (a b c : Option Record) → Moves a b → Moves b c → Moves a c
Moves-trans none b c p q = tt
Moves-trans (some a) none c p q = elim p [ ]
Moves-trans (some a) (some b) none p q = elim q [ ]
Moves-trans (some a) (some b) (some c) p q =
    may_become_trans a.job.status b.job.status c.job.status p q

Moves-put :
    (id j : String) (r : Record) (jobs : Map Record)
    → Moves (lookup id jobs) (some r)
    → Moves (lookup j jobs) (lookup j (put id r jobs))
Moves-put id j r jobs h = elim (String-discrete id j) [
  | yes e ↦ rw (← e, lookup-put_self) h
  | no n ↦ rw (lookup-put_ne id j r jobs n) (Moves-refl (lookup j jobs))
]

save-Lawful : (r : Record) (m : Manager) → Lawful m (save r m).1
unfolding save index_history
save-Lawful r m = elim (Option-cases (lookup r.job.id m.jobs)) [
  | inl e ↦ rw (e, save) (record { at = λ id. Moves-put r.job.id id r m.jobs (rw e tt) })
  | inr (old, e) ↦ rw (e, save) (record { at = λ id. Moves-refl (lookup id m.jobs) })
]

-- A conditional update is lawful if the status that it expects may become the one that it writes.
transition-Lawful :
    (r : Record) (expected : Status) (m : Manager)
    → may_become expected r.job.status ≡ true
    → Lawful m (transition r expected m).1
unfolding transition
transition-Lawful r expected m h = elim (Option-cases (lookup r.job.id m.jobs)) [
  | inl e ↦ rw (e, transition) (record { at = λ id. Moves-refl (lookup id m.jobs) })
  | inr (old, e) ↦
      rw (e, transition)
        (elim (Bool-cases (same old.job.status expected)) [
          | inr other ↦ rw other (record { at = λ id. Moves-refl (lookup id m.jobs) })
          | inl match ↦ rw match (record {
            at = λ id.
                Moves-put r.job.id id (advance old r) m.jobs
                  (rw (e, same-eq old.job.status expected match) h);
          })
        ])
]

-- Whatever parts an operation has, every stored job stays stored, and its status moves as it may.
pub Writes-Lawful : {a b : Manager} → Writes a b → Lawful a b
Writes-Lawful (Writes.nothing a b (e, q)) = record {
  at = λ id. rw e (Moves-refl (lookup id b.jobs));
}
Writes-Lawful (Writes.adds r a b e) = rw e (save-Lawful r a)
Writes-Lawful (Writes.moves r expected a b h e) = rw e (transition-Lawful r expected a h)
Writes-Lawful (Writes.both a b c p q) = record {
  at = λ id.
      Moves-trans (lookup id a.jobs) (lookup id b.jobs) (lookup id c.jobs) ((Writes-Lawful p).at id)
        ((Writes-Lawful q).at id);
}

after_cancel-same :
    (id : String) (s : Snapshot) (p : Result Bool × Manager)
    → (p.1.jobs ≡ (after_cancel id s p).1.jobs) × (p.1.queued ≡ (after_cancel id s p).1.queued)
unfolding end_publication
after_cancel-same id s (err e, m) = (refl, refl)
after_cancel-same id s (ok false, m) = (refl, refl)
after_cancel-same id s (ok true, m) = ground arith

pub cancel-Writes :
    (id message : String) (now : ℕ) (m : Manager) → Writes m (cancel id message now m).1
unfolding cancel load
cancel-Writes id message now m = elim (Option-cases (lookup id m.jobs)) [
  | inl e ↦ rw (e, cancel, load) (Writes.nothing m m (refl, refl))
  | inr (r, e) ↦
      rw (e, cancel, load)
        (elim (Bool-cases (same r.job.status cancelled)) [
          | inl done ↦ rw done (Writes.nothing m m (refl, refl))
          | inr live ↦
              let p = transition (cancelled_job message now r) queued m in
              rw live (
                Writes.both m p.1 _ (transition-Writes (cancelled_job message now r) queued m refl)
                  (Writes.nothing p.1 _ (after_cancel-same id r.snapshot p)))
        ])
]
