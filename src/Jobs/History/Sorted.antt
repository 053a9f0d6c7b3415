-- ===== src/Jobs/History/Sorted.antt =====
-- The history of an owner is kept in the order of creation (`indexHistoryLocked` of
-- packages/server/internal/jobs/manager.go).
use latexmk.Prelude.{
  ℕ, zero, suc, ◌≤◌, ◌<◌, ◌≡◌, ◌≢◌, refl, sym, ◌∙◌, ap, subst, ◌⊎◌, inl, inr, String,
  String-discrete, true, false, some, List, [], ◌∷◌, ◌++◌, Map, lookup, lookup-put_self,
  lookup-put_ne, length, get_elem?, take, drop, ltb, text_lt, text_lt_trans, text_lt_total, arith,
  Bool-cases,
}
use latexmk.Jobs.State.{Record, Manager}
use latexmk.Jobs.History.{
  stamp, stamp_of, stamp_at, comes_after, insert_at, position, history_of, index_history,
}
use latexmk.Jobs.History.Search.{Monotone, Divides, is_later, position-Divides}

-- The order of jobs: by the instant of creation, and at one instant by identifier.
abbrev pub Precedes : ℕ × String → ℕ × String → Type 0
Precedes a b = (a.0 < b.0) ⊎ ((a.0 ≡ b.0) × ((text_lt a.1 b.1 ≡ true) ⊎ (a.1 ≡ b.1)))

-- Of two jobs of a history the one that stands first precedes the other.
unfoldable pub IsSorted : Map Record → List String → Type 0
IsSorted jobs ids =
    (i j : ℕ) → i ≤ j → j < length ids → Precedes (stamp_at jobs ids i) (stamp_at jobs ids j)

after-Precedes : (a b : ℕ × String) → comes_after a b ≡ true → Precedes b a
after-Precedes a b h = elim (Bool-cases (ltb b.0 a.0)) [
  | inl later ↦ inl (ground arith)
  | inr other ↦ inr (ground arith, inl (ground arith))
]

not_after-Precedes : (a b : ℕ × String) → comes_after a b ≡ false → Precedes a b
not_after-Precedes a b h = elim (Bool-cases (ltb a.0 b.0)) [
  | inl sooner ↦ inl (ground arith)
  | inr other ↦
      let e : a.0 ≡ b.0 = ground arith in
      let f : text_lt b.1 a.1 ≡ false = ground (arith, e) in
      inr (
        e,
        elim (Bool-cases (text_lt a.1 b.1)) [
          | inl lower ↦ inl lower
          | inr equal ↦ inr (text_lt_total a.1 b.1 equal f)
        ],
      )
]

moved : {a a' b b' : ℕ × String} → a ≡ a' → b ≡ b' → Precedes a' b' → Precedes a b
moved {a} {a'} {b} {b'} e q h =
    subst (λ x. Precedes x b) (sym e) (subst (λ y. Precedes a' y) (sym q) h)

after_trans : (a b r : ℕ × String) → Precedes a b → comes_after a r ≡ true → comes_after b r ≡ true
after_trans a b r (inl l) h = ground arith
after_trans a b r (inr (e, inl l)) h = ground (arith, text_lt_trans r.1 a.1 b.1)
after_trans a b r (inr (e, inr q)) h = ground (arith, ap (text_lt r.1) q)

module _ {ℓ} {A : Type ℓ} where
  get-before :
      (p k : ℕ) (x : A) (xs : List A)
      → k < p
      → p ≤ length xs
      → get_elem? (take p xs ++ (x ∷ drop p xs)) k ≡ get_elem? xs k
  get-before zero k x xs l u = absurd (omega arith)
  get-before (suc p) k x [] l u = absurd (omega arith)
  get-before (suc p) zero x (y ∷ xs) l u = refl
  get-before (suc p) (suc k) x (y ∷ xs) l u = get-before p k x xs (omega arith) (omega arith)

  get-here :
      (p : ℕ) (x : A) (xs : List A)
      → p ≤ length xs
      → get_elem? (take p xs ++ (x ∷ drop p xs)) p ≡ some x
  get-here zero x xs u = refl
  get-here (suc p) x [] u = absurd (omega arith)
  get-here (suc p) x (y ∷ xs) u = get-here p x xs (omega arith)

  get-behind :
      (p k : ℕ) (x : A) (xs : List A)
      → p ≤ k
      → p ≤ length xs
      → get_elem? (take p xs ++ (x ∷ drop p xs)) (suc k) ≡ get_elem? xs k
  get-behind zero k x xs l u = refl
  get-behind (suc p) k x [] l u = absurd (omega arith)
  get-behind (suc p) zero x (y ∷ xs) l u = absurd (omega arith)
  get-behind (suc p) (suc k) x (y ∷ xs) l u = get-behind p k x xs (omega arith) (omega arith)

  length-inserted :
      (p : ℕ) (x : A) (xs : List A)
      → p ≤ length xs
      → length (take p xs ++ (x ∷ drop p xs)) ≡ suc (length xs)
  length-inserted zero x xs u = refl
  length-inserted (suc p) x [] u = absurd (omega arith)
  length-inserted (suc p) x (y ∷ xs) u = omega (arith, length-inserted p x xs (omega arith))

-- Where an index stands to a place: before it, at it, or behind it.
data Side (p : ℕ) : ℕ → Type 0 where
  ahead : (k : ℕ) → k < p → Side p k
  at_place : Side p p
  behind : (k : ℕ) → p ≤ k → Side p (suc k)

side : (p k : ℕ) → Side p k
side zero zero = Side.at_place
side zero (suc k) = Side.behind k (omega arith)
side (suc p) zero = Side.ahead 0 (omega arith)
side (suc p) (suc k) = up (side p k)
  where
    up : {n : ℕ} → Side p n → Side (suc p) (suc n)
    up (Side.ahead k l) = Side.ahead (suc k) (omega arith)
    up Side.at_place = Side.at_place
    up (Side.behind k l) = Side.behind (suc k) (omega arith)

module _ (jobs : Map Record) (ids : List String) (r : Record)
    (stored : lookup r.job.id jobs ≡ some r) (sorted : IsSorted jobs ids) where
  later-Monotone : Monotone (length ids) (is_later jobs ids r)
  unfolding IsSorted
  later-Monotone = record {
    stays = λ a b l u h. after_trans _ _ (r.job.created_at, r.job.id) (sorted a b l u) h;
  }

  place : Divides (is_later jobs ids r) 0 (length ids) (position jobs ids r)
  place = position-Divides jobs ids r later-Monotone

  abbrev inserted : List String
  inserted = take (position jobs ids r) ids ++ (r.job.id ∷ drop (position jobs ids r) ids)

  stamp_ahead : (k : ℕ) → k < position jobs ids r → stamp_at jobs inserted k ≡ stamp_at jobs ids k
  stamp_ahead k a =
      ap (stamp_of jobs) (get-before (position jobs ids r) k r.job.id ids a place.high)

  stamp_here : stamp_at jobs inserted (position jobs ids r) ≡ (r.job.created_at, r.job.id)
  stamp_here =
      ap (stamp_of jobs) (get-here (position jobs ids r) r.job.id ids place.high) ∙ ap stamp stored

  stamp_behind :
      (k : ℕ) → position jobs ids r ≤ k → stamp_at jobs inserted (suc k) ≡ stamp_at jobs ids k
  stamp_behind k b =
      ap (stamp_of jobs) (get-behind (position jobs ids r) k r.job.id ids b place.high)

  inside : (k : ℕ) → suc k < length inserted → k < length ids
  inside k u = omega (arith, length-inserted (position jobs ids r) r.job.id ids place.high)

  ordered :
      {i j : ℕ}
      → Side (position jobs ids r) i
      → Side (position jobs ids r) j
      → i ≤ j
      → j < length inserted
      → Precedes (stamp_at jobs inserted i) (stamp_at jobs inserted j)
  unfolding IsSorted
  ordered (Side.ahead i a) (Side.ahead j b) l u =
      moved (stamp_ahead i a) (stamp_ahead j b) (sorted i j l (omega (arith, place.high)))
  ordered (Side.ahead i a) Side.at_place l u =
      moved (stamp_ahead i a) stamp_here
        (not_after-Precedes _ (r.job.created_at, r.job.id) (place.before i (omega arith) a))
  ordered (Side.ahead i a) (Side.behind j b) l u =
      moved (stamp_ahead i a) (stamp_behind j b) (sorted i j (omega arith) (inside j u))
  ordered Side.at_place (Side.ahead j b) l u = absurd (omega arith)
  ordered Side.at_place Side.at_place l u = inr (refl, inr refl)
  ordered Side.at_place (Side.behind j b) l u =
      moved stamp_here (stamp_behind j b)
        (after-Precedes _ (r.job.created_at, r.job.id) (place.behind j b (inside j u)))
  ordered (Side.behind i a) (Side.ahead j b) l u = absurd (omega arith)
  ordered (Side.behind i a) Side.at_place l u = absurd (omega arith)
  ordered (Side.behind i a) (Side.behind j b) l u =
      moved (stamp_behind i a) (stamp_behind j b) (sorted i j (omega arith) (inside j u))

  inserted-IsSorted : IsSorted jobs inserted
  unfolding IsSorted
  inserted-IsSorted i j l u = ordered (side _ i) (side _ j) l u

-- The histories before and after: that of the job's owner has the job inserted, others are the same.
abbrev pub Inserts : Record → String → List String → List String → Type 0
Inserts r owner before after =
    ((owner ≢ r.owner_id) × (after ≡ before))
    ⊎ ((owner ≡ r.owner_id)
        × ((p : ℕ) × (p ≤ length before) × (after ≡ take p before ++ (r.job.id ∷ drop p before))))

-- Where a stored job is entered in the history of its owner, and the jobs of a history stand in the
-- order of their creation, those of one instant in the order of their identifiers: every history
-- still has that order afterwards. That of the owner has all its jobs as before and the new one among
-- them, and the histories of other owners are as they were.
pub index_history-IsSorted :
    (r : Record) (m : Manager) (owner : String)
    → lookup r.job.id m.jobs ≡ some r
    → IsSorted m.jobs (history_of owner m)
    → IsSorted (index_history r m).jobs (history_of owner (index_history r m))
      × Inserts r owner (history_of owner m) (history_of owner (index_history r m))
unfolding index_history history_of insert_at
index_history-IsSorted r m owner stored sorted = elim (String-discrete r.owner_id owner) [
  | no d ↦
      rw (lookup-put_ne r.owner_id owner _ m.job_history d) (sorted, inl (λ q. d (sym q), refl))
  | yes e ↦
      subst
        (λ o.
          IsSorted m.jobs (history_of o m)
          → IsSorted m.jobs (history_of o (index_history r m))
            × Inserts r o (history_of o m) (history_of o (index_history r m)))
        e
        (λ h. rw (lookup-put_self) (
          inserted-IsSorted m.jobs (history_of r.owner_id m) r stored h,
          inr (
            refl,
            (
              position m.jobs (history_of r.owner_id m) r,
              (place m.jobs (history_of r.owner_id m) r stored h).high,
              refl,
            ),
          ),
        ))
        sorted
]
