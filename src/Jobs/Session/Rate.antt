-- ===== src/Jobs/Session/Rate.antt =====
-- How many revisions the limiter of `allowRevisionLocked` lets through at one instant.
use Prim.Native.Nat.{min}
use latexmk.Prelude.{
  ℕ, zero, suc, ◌+◌, ◌-◌, ◌*◌, ◌^◌, ◌≤◌, ◌<◌, ◌≡◌, ◌≢◌, refl, sym, ◌∙◌, ap, subst, if_pos, if_neg,
  String, String-discrete, Bool, true, false, ◌&&◌, Option, none, some, List, [], ◌∷◌, lookup,
  lookup-put_self, lookup-put_ne, ltb, ◌==◌, arith, if◌then◌else◌,
}
use latexmk.Jobs.State.{RevisionBudget, Floats, Env, Manager}
use latexmk.Jobs.Session.{burst, refill, spend, revision_burst_seconds}
use latexmk.Jobs.Sessions.{same_text}
use latexmk.Jobs.Submit.{allow_revision}

-- IEEE 754: a float64 holds every integer up to 2^53, and computes exactly with them as long as the
-- result is one; no time is zero seconds.
pub record IsExact (float : Floats) : Type 0 where
  pub sum :
      (m n : ℕ)
      → m + n ≤ 2 ^ 53
      → float.add (float.of_int m) (float.of_int n) ≡ float.of_int (m + n)
  pub difference :
      (m n : ℕ)
      → n ≤ m
      → m ≤ 2 ^ 53
      → float.subtract (float.of_int m) (float.of_int n) ≡ float.of_int (m - n)
  pub product :
      (m n : ℕ)
      → m * n ≤ 2 ^ 53
      → m ≤ 2 ^ 53
      → n ≤ 2 ^ 53
      → float.multiply (float.of_int m) (float.of_int n) ≡ float.of_int (m * n)
  pub smaller :
      (m n : ℕ)
      → m ≤ 2 ^ 53
      → n ≤ 2 ^ 53
      → float.least (float.of_int m) (float.of_int n) ≡ float.of_int (min m n)
  pub comparison :
      (m n : ℕ) → m ≤ 2 ^ 53 → n ≤ 2 ^ 53 → float.less (float.of_int m) (float.of_int n) ≡ ltb m n
  pub no_time : float.seconds 0 ≡ float.of_int 0

-- Of requests at one instant, each by some owner, the number of those that are by one owner, and the
-- number of those that are allowed.
pub requests_by : String → List String → ℕ
requests_by owner [] = 0
requests_by owner (o ∷ os) =
    let rest = requests_by owner os in if same_text o owner then rest + 1 else rest

pub allowed : Env → String → ℕ → List String → Manager → ℕ
allowed env owner now [] m = 0
allowed env owner now (o ∷ os) m =
    let (yes_now, m') = allow_revision env o now m in
    let rest = allowed env owner now os m' in
    if yes_now && same_text o owner then rest + 1 else rest

module _ (float : Floats) (rate now : ℕ) (exact : IsExact float)
    (fits : rate * revision_burst_seconds ≤ 2 ^ 53) where
  burst_exact : burst float rate ≡ float.of_int (rate * revision_burst_seconds)
  burst_exact = exact.product rate revision_burst_seconds fits (omega arith) (omega arith)

  gained_nothing : float.multiply (float.seconds (now - now)) (float.of_int rate) ≡ float.of_int 0
  gained_nothing =
      let e : now - now ≡ 0 = omega arith in
      rw (e, exact.no_time)
        (exact.product 0 rate (omega arith) (omega arith) (omega arith)
          ∙ ap float.of_int (omega arith))

  least_exact :
      (n : ℕ)
      → n ≤ rate * revision_burst_seconds
      → float.least (burst float rate) (
          float.add
            (float.of_int n)
            (float.multiply (float.seconds (now - now)) (float.of_int rate)))
        ≡ float.of_int n
  least_exact n l =
      rw (burst_exact, gained_nothing, exact.sum n 0 (omega arith))
        (exact.smaller (rate * revision_burst_seconds) (n + 0) fits (omega arith)
          ∙ ap float.of_int (omega arith))

  -- What the bucket of an owner holds at the instant: so many whole tokens.
  HasTokens : ℕ → Option RevisionBudget → Type 0
  HasTokens n o =
      (n ≤ rate * revision_burst_seconds)
      × (refill float rate now o ≡ record { tokens = float.of_int n; updated = now })

  full-HasTokens : HasTokens (rate * revision_burst_seconds) none
  unfolding refill HasTokens
  full-HasTokens = (
    omega arith,
    ap (λ t. record { tokens = t; updated = now })
        (ap
            (λ t.
              float.least (burst float rate)
                (float.add t (float.multiply (float.seconds (now - now)) (float.of_int rate))))
            burst_exact
          ∙ least_exact (rate * revision_burst_seconds) (omega arith)),
  )

  spent-HasTokens :
      (n : ℕ)
      → n ≤ rate * revision_burst_seconds
      → HasTokens n (some (record { tokens = float.of_int n; updated = now }))
  unfolding refill HasTokens
  spent-HasTokens n l = (l, ap (λ t. record { tokens = t; updated = now }) (least_exact n l))

  pay : RevisionBudget → Bool × RevisionBudget
  pay b =
      if float.less b.tokens (float.of_int 1)
      then (false, b)
      else (true, record b { tokens = float.subtract b.tokens (float.of_int 1) })

  pay_exact :
      (n : ℕ)
      → n ≤ rate * revision_burst_seconds
      → pay (record { tokens = float.of_int n; updated = now })
        ≡ (ltb 0 n, record { tokens = float.of_int (n - 1); updated = now })
  unfolding pay
  pay_exact zero l = rw (exact.comparison 0 1 (omega arith) (omega arith)) refl
  pay_exact (suc n) l =
      let some_left : ltb (suc n) 1 ≡ false = ground arith in
      rw
        (
          exact.comparison (suc n) 1 (omega arith) (omega arith),
          some_left,
          exact.difference (suc n) 1 (omega arith) (omega arith),
        )
        (ap (λ b. (b, record { tokens = float.of_int (suc n - 1); updated = now })) (ground arith))

  -- A request takes a token, or is refused when there is none.
  spend-HasTokens :
      (n : ℕ) (o : Option RevisionBudget)
      → HasTokens n o
      → spend float rate now o ≡ (ltb 0 n, record { tokens = float.of_int (n - 1); updated = now })
  unfolding spend HasTokens pay
  spend-HasTokens n o (l, e) = ap pay e ∙ pay_exact n l

min_step :
    (k n : ℕ) → (if ltb 0 n && true then min k (n - 1) + 1 else min k (n - 1)) ≡ min (k + 1) n
min_step k n = ground arith

same_text_self : (t : String) → same_text t t ≡ true
same_text_self t = if_pos (String-discrete t t) refl true false

no_mine : (b : Bool) (k : ℕ) → (if b && false then k + 1 else k) ≡ k
no_mine true k = refl
no_mine false k = refl

module _ (env : Env) (owner : String) (now : ℕ) (exact : IsExact env.floats)
    (limited : 0 < env.max_realtime_revision_rate)
    (fits : env.max_realtime_revision_rate * revision_burst_seconds ≤ 2 ^ 53) where
  Holds : ℕ → Manager → Type 0
  Holds n m =
      HasTokens env.floats env.max_realtime_revision_rate now exact fits n
        (lookup owner m.revision_budgets)

  is_limited : (env.max_realtime_revision_rate == 0) ≡ false
  is_limited = ground arith

  own_request :
      (n : ℕ) (m : Manager)
      → Holds n m
      → ((allow_revision env owner now m).0 ≡ ltb 0 n)
        × Holds (n - 1) (allow_revision env owner now m).1
  unfolding allow_revision Holds HasTokens
  own_request n m h =
      rw
        (
          is_limited,
          spend-HasTokens env.floats env.max_realtime_revision_rate now exact fits n _ h,
          lookup-put_self,
        )
        (
          refl,
          spent-HasTokens env.floats env.max_realtime_revision_rate now exact fits (n - 1)
              (omega (arith, h.0)),
        )

  other_request :
      (n : ℕ) (o : String) (m : Manager)
      → o ≢ owner
      → Holds n m
      → Holds n (allow_revision env o now m).1
  unfolding allow_revision Holds
  other_request n o m d h = rw (is_limited, lookup-put_ne o owner _ m.revision_budgets d) h

  allowed_tokens :
      (os : List String) (n : ℕ) (m : Manager)
      → Holds n m
      → allowed env owner now os m ≡ min (requests_by owner os) n
  unfolding allowed requests_by
  allowed_tokens [] n m h = omega arith
  allowed_tokens (o ∷ os) n m h = elim (String-discrete o owner) [
    | yes e ↦
        subst (λ x. allowed env owner now (x ∷ os) m ≡ min (requests_by owner (x ∷ os)) n) (sym e)
          (rw
            (
              same_text_self owner,
              (own_request n m h).0,
              allowed_tokens os (n - 1) (allow_revision env owner now m).1 (own_request n m h).1,
            )
            (min_step (requests_by owner os) n))
    | no d ↦
        rw
          (
            if_neg (String-discrete o owner) d,
            allowed_tokens os n (allow_revision env o now m).1 (other_request n o m d h),
          )
          (no_mine (allow_revision env o now m).0 (min (requests_by owner os) n))
  ]

-- Where arithmetic on whole numbers is exact and there is a rate, of which two seconds' worth is at
-- most 2^53: of the requests of an owner without a bucket that come at one instant, in whatever order
-- with those of other owners, the limiter lets through as many as two seconds of the rate allow, or
-- all, if they are fewer. No owner takes from another's.
pub allowed_at_once :
    (env : Env) (owner : String) (now : ℕ)
    → IsExact env.floats
    → 0 < env.max_realtime_revision_rate
    → env.max_realtime_revision_rate * revision_burst_seconds ≤ 2 ^ 53
    → (os : List String) (m : Manager) → lookup owner m.revision_budgets ≡ none
    → allowed env owner now os m
      ≡ min (requests_by owner os) (env.max_realtime_revision_rate * revision_burst_seconds)
unfolding Holds
allowed_at_once env owner now exact limited fits os m fresh =
    allowed_tokens env owner now exact limited fits os
      (env.max_realtime_revision_rate * revision_burst_seconds) m
      (rw fresh (full-HasTokens env.floats env.max_realtime_revision_rate now exact fits))
