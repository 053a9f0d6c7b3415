-- ===== src/Jobs/Counting.antt =====
-- The queue counter of the store in memory, against the jobs that are queued.
use latexmk.Prelude.{
  ap, Distinct, put-Distinct, delete_where-Distinct, List, [], ◌∷◌, sym, ◌∙◌, ℕ, ◌≡◌, refl, String,
  Bool, true, false, lookup, count_if, count_if-put, count_if-delete_where, arith, Option-cases,
  inl, inr,
}
use latexmk.Protocol.{Status, queued, same}
use latexmk.Jobs.State.{Record, Manager, new}
use latexmk.Jobs.History.{index_history, prune_history}
use latexmk.Jobs.Store.{
  save, advance, transition, is_terminal, prune_terminal, prune_histories, owners_of, expired,
}
use latexmk.Jobs.Lifecycle.{Writes}

abbrev pub is_queued : Record → Bool
is_queued r = same r.job.status queued

-- The counter is the number of stored jobs that are queued.
pub record Counted (m : Manager) : Type 0 where
  pub exact : m.queued ≡ count_if is_queued m.jobs

pub new-Counted : Counted new
unfolding new count_if
new-Counted = record { exact = refl }

pub save-Counted : (r : Record) (m : Manager) → Counted m → Counted (save r m).1
unfolding save index_history
save-Counted r m h = ground (arith, count_if-put is_queued r.job.id r m.jobs)

pub transition-Counted :
    (r : Record) (expected : Status) (m : Manager) → Counted m → Counted (transition r expected m).1
unfolding transition
transition-Counted r expected m h = elim (Option-cases (lookup r.job.id m.jobs)) [
  | inl e ↦ rw (e, transition) h
  | inr (current, e) ↦ ground (arith, e, count_if-put is_queued r.job.id (advance current r) m.jobs)
]

prune_histories-Counted :
    (os : List String) (m : Manager) → Counted m → Counted (prune_histories os m)
unfolding prune_history
prune_histories-Counted [] m h = h
prune_histories-Counted (o ∷ os) m h =
    prune_histories-Counted os (prune_history o m) (record { exact = h.exact })

expired-not-queued :
    (cutoff : ℕ) (m : Manager) (id : String) (r : Record)
    → expired cutoff m id r ≡ true
    → is_queued r ≡ false
unfolding is_terminal
expired-not-queued cutoff m id r h = ground arith

-- The sweep of old jobs keeps the counter exact: it drops no queued job.
pub prune_terminal-Counted :
    (cutoff : ℕ) (m : Manager) → Counted m → Counted (prune_terminal cutoff m)
unfolding prune_terminal
prune_terminal-Counted cutoff m h =
    prune_histories-Counted (owners_of (expired cutoff m) m.jobs) _ (record {
      exact =
          h.exact
          ∙ sym (
              count_if-delete_where is_queued (expired cutoff m) m.jobs
                (expired-not-queued cutoff m));
    })

pub jobs-prune_histories : (os : List String) (m : Manager) → (prune_histories os m).jobs ≡ m.jobs
unfolding prune_history
jobs-prune_histories [] m = refl
jobs-prune_histories (o ∷ os) m = jobs-prune_histories os (prune_history o m)

-- The store has one entry for each identifier, and the counter is exact.
pub record Sound (m : Manager) : Type 0 where
  pub counted : Counted m
  pub distinct : Distinct m.jobs

pub new-Sound : Sound new
unfolding new
new-Sound = record { counted = new-Counted; distinct = tt }

save-Distinct : (r : Record) (m : Manager) → Distinct m.jobs → Distinct (save r m).1.jobs
unfolding save index_history
save-Distinct r m h = ground (arith, put-Distinct r.job.id r m.jobs h)

transition-Distinct :
    (r : Record) (expected : Status) (m : Manager)
    → Distinct m.jobs
    → Distinct (transition r expected m).1.jobs
unfolding transition
transition-Distinct r expected m h = elim (Option-cases (lookup r.job.id m.jobs)) [
  | inl e ↦ rw (e, transition) h
  | inr (current, e) ↦
      rw (e, transition) (ground (arith, put-Distinct r.job.id (advance current r) m.jobs h))
]

-- Whatever parts an operation has, it keeps the store sound.
pub Writes-Sound : {a b : Manager} → Writes a b → Sound a → Sound b
Writes-Sound (Writes.nothing a b (e, q)) h = record {
  counted = record { exact = sym q ∙ h.counted.exact ∙ ap (count_if is_queued) e };
  distinct = rw (← e) h.distinct;
}
Writes-Sound (Writes.adds r a b e) h =
    rw e (record { counted = save-Counted r a h.counted; distinct = save-Distinct r a h.distinct })
Writes-Sound (Writes.moves r expected a b _ e) h = rw e (record {
  counted = transition-Counted r expected a h.counted;
  distinct = transition-Distinct r expected a h.distinct;
})
Writes-Sound (Writes.both a b c p q) h = Writes-Sound q (Writes-Sound p h)

pub prune_terminal-Sound : (cutoff : ℕ) (m : Manager) → Sound m → Sound (prune_terminal cutoff m)
unfolding prune_terminal
prune_terminal-Sound cutoff m h = record {
  counted = prune_terminal-Counted cutoff m h.counted;
  distinct = rw jobs-prune_histories (delete_where-Distinct (expired cutoff m) m.jobs h.distinct);
}
