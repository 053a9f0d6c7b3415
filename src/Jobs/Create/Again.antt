-- ===== src/Jobs/Create/Again.antt =====
-- One session for each key: `CreateSession`, called again with the same request.
use latexmk.Prelude.{
  ℕ, ◌≡◌, refl, String, String-discrete, Bool, true, false, if_pos, Option, none, some, [], ◌∷◌,
  Map, put, Result, ok, err, arith, Bool-cases, inl, inr, sym, ◌-◌, ap, ◌∙◌, List, lookup,
  delete_where, Values, Values-lookup, ltb,
}
use latexmk.Protocol.{CompileRequest, CompileRequest-discrete, Session, SessionRequest}
use latexmk.Jobs.State.{LiveSession, Env, Manager}
use latexmk.Jobs.Session.{publish}
use latexmk.Jobs.Exec.{Exec, lift, modify, fail_if, ◌>>=◌, ◌>>◌}
use latexmk.Jobs.Sessions.{same_text, is_stale, expire_at, expire_each, expire_sessions, keys}
use latexmk.Jobs.Submit.{same_request}
use latexmk.Jobs.Create.{
  create_session, create_locked, find_created, created_by, is_full, create_or_find, fits_request,
  new_session, no_job,
}

same_text_self : (s : String) → same_text s s ≡ true
same_text_self s = if_pos (String-discrete s s) refl true false

same_request_self : (r : CompileRequest) → same_request r r ≡ true
same_request_self r = if_pos (CompileRequest-discrete r r) refl true false

find-put :
    (p : LiveSession → Bool) (k : String) (s : LiveSession) (m : Map LiveSession)
    → find_created p m ≡ none
    → p s ≡ true
    → find_created p (put k s m) ≡ some s
unfolding put
find-put p k s [] h q = rw q refl
find-put p k s ((j, t) ∷ m) h q = ground (arith, find-put p k s m)

-- A session that the key of a request finds, that fits it, and that has the given state.
record Finds (owner : String) (req : SessionRequest) (m : Manager) (s : Session) : Type 0 where
  session : LiveSession
  found : find_created (created_by owner req.idempotency_key) m.sessions ≡ some session
  suits : fits_request req session ≡ true
  state : session.state ≡ s

create_or_find-Finds :
    (env : Env) (now : ℕ) (random : Result String) (owner : String) (req : SessionRequest)
    (o : Option LiveSession) (m : Manager) (s : Session)
    → find_created (created_by owner req.idempotency_key) m.sessions ≡ o
    → (create_or_find env now random owner req o m).0 ≡ ok s
    → Finds owner req (create_or_find env now random owner req o m).1 s
unfolding publish
create_or_find-Finds env now random owner req (some t) m s e h =
    elim (Bool-cases (fits_request req t)) [
      | inl suits ↦
          rw suits (record { session = t; found = e; suits = suits; state = ground arith })
      | inr other ↦ absurd (ground arith)
    ]
create_or_find-Finds env now (err w) owner req none m s e h = absurd (ground arith)
create_or_find-Finds env now (ok id) owner req none m s e h =
    elim (Bool-cases (is_full env owner m.sessions)) [
      | inl full ↦ absurd (ground arith)
      | inr room ↦
          let t = publish "created" no_job (new_session env now id owner req) in
          rw room (record {
            session = t;
            found =
                find-put (created_by owner req.idempotency_key) id t m.sessions e
                  (rw (same_text_self owner, same_text_self req.idempotency_key) refl);
            suits =
                rw
                  (
                    same_text_self req.project_id,
                    same_text_self req.workspace,
                    same_request_self req.request,
                  )
                  refl;
            state = ground arith;
          })
    ]

create_locked_again :
    (env : Env) (now later : ℕ) (random random' : Result String) (owner : String)
    (req : SessionRequest) (m m' : Manager) (s : Session)
    → (create_locked env now random owner req m).0 ≡ ok s
    → m'.sessions ≡ (create_locked env now random owner req m).1.sessions
    → create_locked env later random' owner req m' ≡ (ok s, m')
unfolding create_locked
create_locked_again env now later random random' owner req m m' s h e =
    let f =
      create_or_find-Finds env now random owner req
        (find_created (created_by owner req.idempotency_key) m.sessions) m s refl h in
    rw (ap (find_created (created_by owner req.idempotency_key)) e ∙ f.found, f.suits, f.state) refl

-- At an instant neither the lease of a session nor its compile cache has expired.
abbrev pub IsCurrent : ℕ → LiveSession → Type 0
IsCurrent now s = (ltb s.state.expires_at now ≡ false) × (is_stale now s ≡ false)

expire_at-current :
    (now : ℕ) (o : Option LiveSession) (id : String) (m : Manager)
    → lookup id m.sessions ≡ o
    → Values (IsCurrent now) m.sessions
    → expire_at now o m ≡ m
expire_at-current now none id m e h = refl
expire_at-current now (some s) id m e h =
    let c = Values-lookup (IsCurrent now) id s m.sessions h e in rw (c.1, c.0) refl

expire_each-current :
    (now : ℕ) (ids : List String) (m : Manager)
    → Values (IsCurrent now) m.sessions
    → expire_each now ids m ≡ m
expire_each-current now [] m h = refl
expire_each-current now (id ∷ ids) m h =
    rw (expire_at-current now (lookup id m.sessions) id m refl h) (expire_each-current now ids m h)

-- A sweep at which nothing has expired but idle budgets.
pub swept_budgets : Env → ℕ → Manager → Manager
swept_budgets env now m = record m {
  revision_budgets =
      delete_where (λ _ b. ltb env.realtime_session_ttl (now - b.updated)) m.revision_budgets;
}

expire_sessions-current :
    (env : Env) (now : ℕ) (m : Manager)
    → Values (IsCurrent now) m.sessions
    → expire_sessions env now m ≡ swept_budgets env now m
unfolding expire_sessions swept_budgets
expire_sessions-current env now m h =
    expire_each-current now (keys m.sessions) (swept_budgets env now m) h

-- Two actions behind the same checks come to two others, where the first of them ends well.
module _ (s : Session) (m m' : Manager) where
  ComesTo : Exec Session → Exec Session → Exec Session → Exec Session → Type 0
  ComesTo f f' g g' = (f m).0 ≡ ok s → (f m ≡ f' m) × (g m' ≡ g' m')

  unchecked : (f g : Exec Session) → ComesTo f f g g
  unfolding ComesTo
  unchecked f g h = (refl, refl)

  fail_if-ComesTo :
      (b : Bool) (e : String) (f f' g g' : Exec Session)
      → ComesTo f f' g g'
      → ComesTo (fail_if b e >> f) f' (fail_if b e >> g) g'
  unfolding ComesTo ◌>>=◌
  fail_if-ComesTo true e f f' g g' k h = ground arith
  fail_if-ComesTo false e f f' g g' k h = k h

  lift-ComesTo :
      (r : Result (Unit {0})) (f f' g g' : Exec Session)
      → ComesTo f f' g g'
      → ComesTo (lift r >> f) f' (lift r >> g) g'
  unfolding ComesTo ◌>>=◌
  lift-ComesTo (err e) f f' g g' k h = ground arith
  lift-ComesTo (ok u) f f' g g' k h = k h

-- CreateSession behind its checks.
behind_checks : Env → ℕ → Result String → String → SessionRequest → Exec Session
behind_checks env now random owner req = do
  modify (expire_sessions env now)
  create_locked env now random owner req

swept_and_locked :
    (env : Env) (now : ℕ) (random : Result String) (owner : String) (req : SessionRequest)
    (m : Manager)
    → behind_checks env now random owner req m
      ≡ create_locked env now random owner req (expire_sessions env now m)
unfolding behind_checks ◌>>=◌
swept_and_locked env now random owner req m = refl

passed :
    (env : Env) (now later : ℕ) (random random' : Result String) (owner : String)
    (req : SessionRequest) (m m' : Manager) (s : Session)
    → ComesTo s m m'
        (create_session env now random owner req)
        (behind_checks env now random owner req)
        (create_session env later random' owner req)
        (behind_checks env later random' owner req)
unfolding create_session behind_checks
passed env now later random random' owner req m m' s = fail_if-ComesTo s m m' _ _ _ _ _ _ (
    fail_if-ComesTo s m m' _ _ _ _ _ _ (
      fail_if-ComesTo s m m' _ _ _ _ _ _ (
        fail_if-ComesTo s m m' _ _ _ _ _ _ (
          fail_if-ComesTo s m m' _ _ _ _ _ _ (
            lift-ComesTo s m m' _ _ _ _ _
              (fail_if-ComesTo s m m' _ _ _ _ _ _ (unchecked s m m' _ _)))))))

-- A request that CreateSession answered with a session, sent again at a later time while nothing else
-- happened and no lease or compile cache has expired, is answered with the same session: no other one
-- is opened, and only idle revision budgets are dropped.
pub create_session_again :
    (env : Env) (now later : ℕ) (random random' : Result String) (owner : String)
    (req : SessionRequest) (m : Manager) (s : Session)
    → let first = create_session env now random owner req m in
      first.0 ≡ ok s
      → Values (IsCurrent later) first.1.sessions
      → create_session env later random' owner req first.1 ≡ (ok s, swept_budgets env later first.1)
unfolding ComesTo swept_budgets
create_session_again env now later random random' owner req m s h c =
    let first = (create_session env now random owner req m).1 in
    let both = passed env now later random random' owner req m first s h in
    let e = both.0 ∙ swept_and_locked env now random owner req m in
    both.1
    ∙ swept_and_locked env later random' owner req first
    ∙ ap (create_locked env later random' owner req) (expire_sessions-current env later first c)
    ∙ create_locked_again env now later random random' owner req (expire_sessions env now m)
        (swept_budgets env later first) s (sym (ap (λ r. r.0) e) ∙ h) (ap (λ r. r.1.sessions) e)
