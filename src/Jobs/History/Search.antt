-- ===== src/Jobs/History/Search.antt =====
-- The binary search by which the history of an owner is kept in order (sort.Search, used by
-- `indexHistoryLocked` of packages/server/internal/jobs/manager.go).
use latexmk.Prelude.{
  ℕ, zero, suc, ◌+◌, ◌/◌, ◌≤◌, ◌<◌, ◌≡◌, Bool, true, false, String, List, Map, length, ltb, arith,
  Bool-cases, inl, inr,
}
use latexmk.Jobs.State.{Record}
use latexmk.Jobs.History.{search_from, position, stamp_at, comes_after}

-- A test that, below n, stays true where it is true once.
pub record Monotone (n : ℕ) (f : ℕ → Bool) : Type 0 where
  pub stays : (a b : ℕ) → a ≤ b → b < n → f a ≡ true → f b ≡ true

-- The first index from i up to j at which the test is true, or j.
pub record Divides (f : ℕ → Bool) (i j p : ℕ) : Type 0 where
  pub low : i ≤ p
  pub high : p ≤ j
  pub before : (k : ℕ) → i ≤ k → k < p → f k ≡ false
  pub behind : (k : ℕ) → p ≤ k → k < j → f k ≡ true

false_below :
    (n : ℕ) (f : ℕ → Bool) (h k : ℕ) → Monotone n f → h < n → f h ≡ false → k ≤ h → f k ≡ false
false_below n f h k mono inside out l = elim (Bool-cases (f k)) [
  | inl yes_at ↦ absurd (ground (arith, mono.stays k h l inside yes_at))
  | inr no_at ↦ no_at
]

-- With as much fuel as the range is long, the search finds where a monotone test turns true.
search_from-Divides :
    (n fuel i j : ℕ) (f : ℕ → Bool)
    → Monotone n f
    → j ≤ n
    → i ≤ j
    → j ≤ i + fuel
    → Divides f i j (search_from fuel i j f)
unfolding search_from
search_from-Divides n zero i j f mono top l enough = record {
  low = omega arith;
  high = l;
  before = λ k a b. absurd (omega arith);
  behind = λ k a b. absurd (omega arith);
}
search_from-Divides n (suc fuel) i j f mono top l enough = elim (Bool-cases (ltb i j)) [
  | inr done ↦
      let e : i ≡ j = ground arith in
      rw (done, search_from)
        (record {
          low = omega arith;
          high = l;
          before = λ k a b. absurd (omega arith);
          behind = λ k a b. absurd (omega arith);
        })
  | inl wide ↦
      let h = (i + j) / 2 in
      let less : i < j = ground arith in
      let lo : i ≤ h = omega arith in
      let hi : h < j = omega arith in
      elim (Bool-cases (f h)) [
        | inl here ↦
            let d = search_from-Divides n fuel i h f mono (omega arith) lo (omega arith) in
            rw (wide, here, search_from)
              (record {
                low = d.low;
                high = omega (arith, d.high);
                before = d.before;
                behind = λ k a b. elim (Bool-cases (ltb k h)) [
                  | inl left ↦ d.behind k a (ground arith)
                  | inr right ↦ mono.stays h k (ground arith) (omega arith) here
                ];
              })
        | inr later ↦
            let d = search_from-Divides n fuel (h + 1) j f mono top (omega arith) (omega arith) in
            rw (wide, later, search_from)
              (record {
                low = omega (arith, d.low);
                high = d.high;
                before = λ k a b. elim (Bool-cases (ltb h k)) [
                  | inl right ↦ d.before k (ground arith) b
                  | inr left ↦ false_below n f h k mono (omega arith) later (ground arith)
                ];
                behind = d.behind;
              })
      ]
]

-- Whether the job at an index of a history comes after a new one.
abbrev pub is_later : Map Record → List String → Record → ℕ → Bool
is_later jobs ids r i = comes_after (stamp_at jobs ids i) (r.job.created_at, r.job.id)

-- In a history where the jobs that come after a new one are all behind those that do not, the new
-- one is given its place between them: every job before the place does not come after it, and
-- every job from the place on does.
pub position-Divides :
    (jobs : Map Record) (ids : List String) (r : Record)
    → Monotone (length ids) (is_later jobs ids r)
    → Divides (is_later jobs ids r) 0 (length ids) (position jobs ids r)
unfolding position
position-Divides jobs ids r mono =
    search_from-Divides (length ids) (length ids) 0 (length ids) (is_later jobs ids r) mono
      (omega arith) (omega arith) (omega arith)
