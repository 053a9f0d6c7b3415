-- ===== src/Jobs/Create/Once.antt =====
-- What the opening of a session keeps: the limits on sessions.
use latexmk.Prelude.{
  ℕ, ◌+◌, ◌≤◌, ◌≡◌, String, true, false, Option, none, some, [], ◌∷◌, Map, put, length, count_if,
  count_if-put, Result, ok, err, leb, ◌==◌, arith, Bool-cases, ◌||◌, inl, inr,
}
use latexmk.Protocol.{SessionRequest}
use latexmk.Jobs.State.{LiveSession, Env, Manager}
use latexmk.Jobs.Create.{
  create_locked, find_created, created_by, owned_by, is_full, create_or_find, fits_request,
  insert_session,
}

length-put-le :
    (k : String) (s : LiveSession) (m : Map LiveSession) → length (put k s m) ≤ length m + 1
unfolding put
length-put-le k s [] = omega arith
length-put-le k s ((j, t) ∷ m) = ground (arith, length-put-le k s m)

-- The limits on the number of sessions, in all and for an owner.
pub record Capacity (env : Env) (owner : String) (m : Manager) : Type 0 where
  pub total : length m.sessions ≤ env.max_realtime_sessions
  pub own :
      (env.max_realtime_sessions_per_owner == 0
        || leb (count_if (owned_by owner) m.sessions) env.max_realtime_sessions_per_owner)
      ≡ true

insert_session-Capacity :
    (env : Env) (owner : String) (s : LiveSession) (m : Manager)
    → Capacity env owner m
    → is_full env owner m.sessions ≡ false
    → Capacity env owner (insert_session s m).1
insert_session-Capacity env owner s m h room = record {
  total = ground (arith, length-put-le s.state.id s m.sessions);
  own = ground (arith, count_if-put (owned_by owner) s.state.id s m.sessions);
}

create_or_find-Capacity :
    (env : Env) (now : ℕ) (random : Result String) (owner : String) (req : SessionRequest)
    (o : Option LiveSession) (m : Manager)
    → Capacity env owner m
    → Capacity env owner (create_or_find env now random owner req o m).1
create_or_find-Capacity env now random owner req (some s) m h =
    elim (Bool-cases (fits_request req s)) [ inl same ↦ rw same h | inr other ↦ rw other h ]
create_or_find-Capacity env now (err e) owner req none m h =
    elim (Bool-cases (is_full env owner m.sessions)) [ inl full ↦ rw full h | inr room ↦ rw room h ]
create_or_find-Capacity env now (ok id) owner req none m h =
    elim (Bool-cases (is_full env owner m.sessions)) [
      | inl full ↦ rw full h
      | inr room ↦ rw room (insert_session-Capacity env owner _ m h room)
    ]

-- Opening a session, whatever the answer, keeps both limits where they hold: that on all sessions,
-- and where there is one, that on the sessions of the owner.
pub create_locked-Capacity :
    (env : Env) (now : ℕ) (random : Result String) (owner : String) (req : SessionRequest)
    (m : Manager)
    → Capacity env owner m
    → Capacity env owner (create_locked env now random owner req m).1
unfolding create_locked
create_locked-Capacity env now random owner req m h =
    create_or_find-Capacity env now random owner req
      (find_created (created_by owner req.idempotency_key) m.sessions) m h
