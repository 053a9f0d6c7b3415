-- ===== src/Jobs/History.antt =====
-- The index of jobs by owner (manager.go): `indexHistoryLocked` and `pruneHistoryLocked`.
pub mod Search
pub mod Sorted
use latexmk.Prelude.{
  ℕ, zero, suc, ◌+◌, ◌/◌, String, Bool, true, false, ◌&&◌, ◌||◌, Option, none, some, List, [], ◌∷◌,
  ◌++◌, Map, lookup, put, delete, keep, length, get_elem?, take, drop, ltb, ◌==◌, text_lt,
}
use latexmk.Jobs.State.{Record, Manager}

-- `sort.Search(n, f)` of Go's library, on the range from i to j: halving, with the middle rounded
-- down.
unfoldable pub search_from : ℕ → ℕ → ℕ → (ℕ → Bool) → ℕ
search_from zero i j f = i
search_from (suc fuel) i j f =
    let h = (i + j) / 2 in
    elim (ltb i j) [
      | false ↦ i
      | true ↦ elim (f h) [ true ↦ search_from fuel i h f | false ↦ search_from fuel (h + 1) j f ]
    ]

-- When a job was created, and its identifier; those of `record{}` for a job that is not there.
abbrev pub stamp : Option Record → ℕ × String
stamp none = (0, "")
stamp (some r) = (r.job.created_at, r.job.id)

-- job.CreatedAt.After(rec) || (job.CreatedAt.Equal(rec) && job.ID > rec.ID)
abbrev pub comes_after : ℕ × String → ℕ × String → Bool
comes_after a b = ltb b.0 a.0 || (a.0 == b.0 && text_lt b.1 a.1)

abbrev pub or_empty : Option (List String) → List String
or_empty none = []
or_empty (some ids) = ids

unfoldable pub history_of : String → Manager → List String
history_of owner m = or_empty (lookup owner m.job_history)

abbrev pub stamp_of : Map Record → Option String → ℕ × String
stamp_of jobs none = (0, "")
stamp_of jobs (some id) = stamp (lookup id jobs)

abbrev pub stamp_at : Map Record → List String → ℕ → ℕ × String
stamp_at jobs ids i = stamp_of jobs (get_elem? ids i)

-- slices.Insert(history, position, id)
unfoldable pub insert_at : ℕ → String → List String → List String
insert_at i id ids = take i ids ++ (id ∷ drop i ids)

unfoldable pub position : Map Record → List String → Record → ℕ
unfolding search_from
position jobs ids r =
    search_from (length ids) 0 (length ids)
      (λ i. comes_after (stamp_at jobs ids i) (r.job.created_at, r.job.id))

unfoldable pub index_history : Record → Manager → Manager
unfolding history_of position insert_at
index_history r m =
    let ids = history_of r.owner_id m in
    record m {
      job_history = put r.owner_id (insert_at (position m.jobs ids r) r.job.id ids) m.job_history;
    }

abbrev present : Map Record → String → Bool
present jobs id = elim (lookup id jobs) [ none ↦ false | some _ ↦ true ]

abbrev store_history : String → List String → Map (List String) → Map (List String)
store_history owner [] h = delete owner h
store_history owner (id ∷ ids) h = put owner (id ∷ ids) h

unfoldable pub prune_history : String → Manager → Manager
unfolding history_of keep
prune_history owner m = record m {
  job_history = store_history owner (keep (present m.jobs) (history_of owner m)) m.job_history;
}
