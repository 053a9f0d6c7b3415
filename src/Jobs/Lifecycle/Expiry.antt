-- ===== src/Jobs/Lifecycle/Expiry.antt =====
-- The sweep and the opening of sessions, and the end of a worker's turn, move the stored jobs as
-- their life allows.
use latexmk.Prelude.{
  ℕ, refl, String, Option, none, some, List, [], ◌∷◌, ltb, put, lookup, Result, arith, Bool-cases,
  inl, inr,
}
use latexmk.Protocol.{SessionRequest}
use latexmk.Jobs.State.{Record, Env, Manager, LiveSession}
use latexmk.Jobs.Sessions.{
  close_expired, is_stale, expire_at, expire_each, expire_sessions, take_session, keys,
}
use latexmk.Jobs.Session.{clear_cache}
use latexmk.Jobs.Create.{create_session, create_locked}
use latexmk.Jobs.Worker.{end_run, not_active}
use latexmk.Jobs.Exec.Respects.{Respects, respects_rules}
use latexmk.Jobs.Lifecycle.{Writes}
use latexmk.Jobs.Lifecycle.Operations.{Writes-Closed, jobs-leave}
use latexmk.Jobs.Lifecycle.Sessions.{close_session_locked-Writes}

close_expired-Writes : (now : ℕ) (s : LiveSession) (m : Manager) → Writes m (close_expired now s m)
close_expired-Writes now s m = elim (Bool-cases (ltb s.state.expires_at now)) [
  | inl over ↦ rw over ((close_session_locked-Writes s now).at m)
  | inr lives ↦ rw lives (Writes.nothing m m (refl, refl))
]

expire_at-Writes : (now : ℕ) (o : Option LiveSession) (m : Manager) → Writes m (expire_at now o m)
expire_at-Writes now none m = Writes.nothing m m (refl, refl)
expire_at-Writes now (some s) m = elim (Bool-cases (is_stale now s)) [
  | inl stale ↦
      let m' = record m { sessions = put s.state.id (clear_cache s) m.sessions } in
      rw stale (
        Writes.both m m' _ (Writes.nothing m m' (refl, refl))
          (close_expired-Writes now (clear_cache s) m'))
  | inr fresh ↦ rw fresh (close_expired-Writes now s m)
]

expire_each-Writes : (now : ℕ) (ids : List String) (m : Manager) → Writes m (expire_each now ids m)
expire_each-Writes now [] m = Writes.nothing m m (refl, refl)
expire_each-Writes now (id ∷ ids) m =
    let m' = expire_at now (lookup id m.sessions) m in
    Writes.both m m' _ (expire_at-Writes now (lookup id m.sessions) m)
      (expire_each-Writes now ids m')

pub expire_sessions-Writes :
    (env : Env) (now : ℕ) (m : Manager) → Writes m (expire_sessions env now m)
unfolding expire_sessions
expire_sessions-Writes env now m =
    Writes.both m _ _ (Writes.nothing m _ (refl, refl)) (expire_each-Writes now (keys m.sessions) _)

create_locked-Writes :
    (env : Env) (now : ℕ) (random : Result String) (owner : String) (req : SessionRequest)
    → Respects Writes (create_locked env now random owner req)
unfolding create_locked
create_locked-Writes env now random owner req = record {
  at = λ m. Writes.nothing m _ (ground arith);
}

pub create_session-Writes :
    (env : Env) (now : ℕ) (random : Result String) (owner : String) (req : SessionRequest)
    → Respects Writes (create_session env now random owner req)
unfolding create_session
create_session-Writes env now random owner req =
    search (respects_rules, Writes-Closed, expire_sessions-Writes, create_locked-Writes) depth 30

pub end_run-Writes : (env : Env) (r : Record) (m : Manager) → Writes m (end_run env r m)
unfolding end_run
end_run-Writes env r m = Writes.nothing m _ (jobs-leave env r (not_active r m))

pub take_session-Writes : (id : String) (m : Manager) → Writes m (take_session id m).1
unfolding take_session
take_session-Writes id m = Writes.nothing m _ (ground arith)
