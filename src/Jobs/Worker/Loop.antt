-- ===== src/Jobs/Worker/Loop.antt =====
-- The loop of a worker (packages/server/internal/jobs/manager.go): one job or session token from
-- the queue after the other. The compilation itself is not run here.
use text.Mathlib.Text.{starts_with}
use mathlib.Core.List.{append-nil, append_assoc}
use latexmk.Prelude.{
  ℕ, ◌≡◌, refl, ◌++◌, String, false, Option, none, some, List, [], ◌∷◌, lookup, if◌then◌else◌, ap,
  sym, ◌∙◌, All, length, arith,
}
use latexmk.Jobs.State.{Env, Manager}
use latexmk.Jobs.Store.{load}
use latexmk.Jobs.Sessions.{is_blank, take_session}
use latexmk.Jobs.Worker.{Turn, left, requeued, begin_run, requeue}

-- A session token is exchanged for the job whose turn it is.
abbrev pub exchange : String → Manager → String × Manager
exchange id m = if starts_with id "ses_" then take_session id m else (id, m)

abbrev pub run_unless_blank : Env → ℕ → String × Manager → Turn × Manager
run_unless_blank env now (id, m) = if is_blank id then (left, m) else begin_run env now id m

abbrev pub serve : Env → ℕ → List String → Manager → Option (Turn × Manager)
serve env now [] m = none
serve env now (id ∷ rest) m =
    some (run_unless_blank env now (exchange id (record m { queue = rest })))

-- One round of `worker`, where the queue is not empty.
unfoldable pub worker : Env → ℕ → Manager → Option (Turn × Manager)
worker env now m = serve env now m.queue m

-- The state behind a round, and that behind a series of them.
abbrev pub after : Manager → Option (Turn × Manager) → Manager
after m none = m
after m (some (turn, m')) = m'

unfoldable pub rounds : Env → List ℕ → Manager → Manager
rounds env [] m = m
rounds env (now ∷ later) m = rounds env later (after m (worker env now m))

lost_round :
    (env : Env) (now : ℕ) (id : String) (rest : List String) (m : Manager)
    → m.queue ≡ id ∷ rest
    → starts_with id "ses_" ≡ false
    → is_blank id ≡ false
    → lookup id m.jobs ≡ none
    → worker env now m ≡ some (requeued, record m { queue = rest ++ id ∷ [] })
unfolding worker begin_run load requeue
lost_round env now id rest m q job named gone = rw (q, job, named, begin_run, load, gone) refl

-- The tokens of jobs that the store does not hold: none is blank, nor the token of a session.
pub record IsLost (m : Manager) (id : String) : Type 0 where
  pub job : starts_with id "ses_" ≡ false
  pub named : is_blank id ≡ false
  pub gone : lookup id m.jobs ≡ none

turns :
    (env : Env) (instants : List ℕ) (ids others : List String) (m : Manager)
    → length instants ≡ length ids
    → All (IsLost m) ids
    → rounds env instants (record m { queue = ids ++ others }) ≡ record m { queue = others ++ ids }
unfolding rounds
turns env [] [] others m n h = ap (λ q. record m { queue = q }) (sym (append-nil others))
turns env [] (id ∷ ids) others m n h = absurd (omega arith)
turns env (now ∷ later) [] others m n h = absurd (omega arith)
turns env (now ∷ later) (id ∷ ids) others m n (lost, h) =
    let a = record m { queue = id ∷ ids ++ others } in
    rw (lost_round env now id (ids ++ others) a refl lost.job lost.named lost.gone) (
      rw (append_assoc ids others (id ∷ [])) (
        turns env later ids (others ++ id ∷ []) m (omega arith) h
        ∙ ap (λ q. record m { queue = q }) (append_assoc others (id ∷ []) ids)))

-- The tokens of jobs that are no longer stored are never dropped, and none holds up those behind it:
-- when such tokens, neither blank nor of a session, stand at the head of the queue before any
-- others, as many rounds of a worker as there are such tokens move them behind the others, in their
-- order, and change nothing else of the manager.
pub rounds_lost_tokens :
    (env : Env) (instants : List ℕ) (ids others : List String) (m : Manager)
    → m.queue ≡ ids ++ others
    → length instants ≡ length ids
    → All (IsLost m) ids
    → rounds env instants m ≡ record m { queue = others ++ ids }
rounds_lost_tokens env instants ids others m q n h =
    ap (λ q. rounds env instants (record m { queue = q })) q ∙ turns env instants ids others m n h
