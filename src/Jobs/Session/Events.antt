-- ===== src/Jobs/Session/Events.antt =====
-- The bounded event log of a session, and what a client that reconnects is told from it.
use latexmk.Prelude.{
  ℕ, zero, suc, ◌+◌, ◌-◌, ◌%◌, ◌^◌, ◌≤◌, ◌<◌, ◌≡◌, refl, sym, ◌⊎◌, inl, inr, String, true, false,
  List, [], ◌∷◌, ◌++◌, length, length-append, drop, length-drop, keep, ltb, arith, Bool-cases,
}
use latexmk.Protocol.{Job, SessionEvent}
use latexmk.Jobs.State.{LiveSession}
use latexmk.Jobs.Session.{
  publish, replay, resync, last_entries, max_session_events, first_sequence, gap,
}

-- The events are numbered one by one from behind `a` up to `b`.
abbrev pub Runs : ℕ → List SessionEvent → ℕ → Type 0
Runs a [] b = a ≡ b
Runs a (e ∷ es) b = (e.sequence ≡ suc a) × Runs (suc a) es b

Runs-append :
    (a : ℕ) (es : List SessionEvent) (b : ℕ) (e : SessionEvent)
    → Runs a es b
    → e.sequence ≡ suc b
    → Runs a (es ++ e ∷ []) e.sequence
Runs-append a [] b e h q = (rw h q, sym (rw h q))
Runs-append a (x ∷ es) b e (p, h) q = (p, Runs-append (suc a) es b e h q)

Runs-drop :
    (k a : ℕ) (es : List SessionEvent) (b : ℕ)
    → Runs a es b
    → k ≤ length es
    → Runs (a + k) (drop k es) b
Runs-drop zero a es b h l = let e : a ≡ a + 0 = omega arith in rw (← e) h
Runs-drop (suc k) a [] b h l = absurd (omega arith)
Runs-drop (suc k) a (x ∷ es) b (p, h) l =
    let e : suc a + k ≡ a + suc k = omega arith in
    rw (← e) (Runs-drop k (suc a) es b h (omega arith))

Runs-length : (a : ℕ) (es : List SessionEvent) (b : ℕ) → Runs a es b → a + length es ≡ b
Runs-length a [] b h = omega arith
Runs-length a (x ∷ es) b (p, h) = omega (arith, Runs-length (suc a) es b h)

-- The log holds the latest events of the session, without a gap, and at most 64.
pub record IsLog (s : LiveSession) : Type 0 where
  pub start : ℕ
  pub runs : Runs start s.events s.state.event_sequence
  pub bounded : length s.events ≤ max_session_events
  pub filled : 0 < s.state.event_sequence → 0 < length s.events

last_entries-IsLog :
    (n a : ℕ) (es : List SessionEvent) (b : ℕ)
    → 0 < n
    → 0 < length es
    → Runs a es b
    → (a' : ℕ) × Runs a' (last_entries n es) b
      × (length (last_entries n es) ≤ n)
      × (0 < length (last_entries n es))
unfolding last_entries
last_entries-IsLog n a es b pos some_event h = elim (Bool-cases (ltb n (length es))) [
  | inl long ↦ (
    a + (length es - n),
    rw long (Runs-drop (length es - n) a es b h (omega arith)),
    rw long (ground (arith, length-drop (length es - n) es)),
    rw long (ground (arith, length-drop (length es - n) es)),
  )
  | inr short ↦ (a, rw short h, rw short (ground arith), rw short some_event)
]

abbrev event_of : String → Job → LiveSession → SessionEvent
event_of kind job s = record {
  sequence = (s.state.event_sequence + 1) % 2 ^ 64;
  kind = kind;
  revision = job.revision;
  job_id = job.id;
  status = job.status;
}

-- While the sequence number fits in 64 bits, publishing an event on a gapless log keeps it gapless
-- and within its bound of 64 events, and numbers the event next.
pub publish-IsLog :
    (kind : String) (job : Job) (s : LiveSession)
    → s.state.event_sequence + 1 < 2 ^ 64
    → IsLog s
    → IsLog (publish kind job s)
      × ((publish kind job s).state.event_sequence ≡ s.state.event_sequence + 1)
unfolding publish
publish-IsLog kind job s small h =
    let e = event_of kind job s in
    let next : e.sequence ≡ suc s.state.event_sequence = omega arith in
    let log =
      last_entries-IsLog max_session_events h.start (s.events ++ e ∷ []) e.sequence (omega arith)
        (omega (arith, length-append s.events (e ∷ [])))
        (Runs-append h.start s.events s.state.event_sequence e h.runs next) in
    (record { start = log.0; runs = log.1; bounded = log.2; filled = λ _. log.3 }, omega arith)

keep-all :
    (after a : ℕ) (es : List SessionEvent) (b : ℕ)
    → after ≤ a
    → Runs a es b
    → keep (λ e. ltb after e.sequence) es ≡ es
unfolding keep
keep-all after a [] b l h = refl
keep-all after a (e ∷ es) b l (p, h) = ground (arith, keep-all after (suc a) es b (omega arith) h)

keep-Runs :
    (after a : ℕ) (es : List SessionEvent) (b : ℕ)
    → a ≤ after
    → after ≤ b
    → Runs a es b
    → Runs after (keep (λ e. ltb after e.sequence) es) b
unfolding keep
keep-Runs after a [] b l u h = omega arith
keep-Runs after a (e ∷ es) b l u (p, h) = elim (Bool-cases (ltb after e.sequence)) [
  | inl now ↦
      let here : a ≡ after = ground arith in
      rw (now, keep) (ground (arith, keep-all after (suc a) es b (omega arith) h, here))
  | inr later ↦ rw (later, keep) (keep-Runs after (suc a) es b (ground arith) u h)
]

no-gap :
    (after a : ℕ) (es : List SessionEvent) (b : ℕ)
    → Runs a es b
    → a ≤ after
    → after ≤ b
    → b + 1 < 2 ^ 64
    → gap after (first_sequence es) ≡ false
no-gap after a [] b h l u small = refl
no-gap after a (e ∷ es) b (p, h) l u small = ground arith

is-gap :
    (after a : ℕ) (es : List SessionEvent) (b : ℕ)
    → Runs a es b
    → 0 < length es
    → after < a
    → a < 2 ^ 64
    → gap after (first_sequence es) ≡ true
is-gap after a [] b h l u small = absurd (omega arith)
is-gap after a (e ∷ es) b (p, h) l u small = ground arith

keep-drop :
    (after a : ℕ) (es : List SessionEvent) (b : ℕ)
    → a ≤ after
    → Runs a es b
    → keep (λ e. ltb after e.sequence) es ≡ drop (after - a) es
unfolding keep
keep-drop after a [] b l h = sym (drop-nil (after - a))
  where
    drop-nil : (n : ℕ) → drop {A = SessionEvent} n [] ≡ []
    drop-nil zero = refl
    drop-nil (suc n) = refl
keep-drop after a (e ∷ es) b l (p, h) = elim (Bool-cases (ltb after e.sequence)) [
  | inl now ↦
      let here : after - a ≡ 0 = ground arith in
      rw (now, keep, here) (ground (arith, keep-all after (suc a) es b (omega arith) h))
  | inr later ↦
      let there : after - a ≡ suc (after - suc a) = ground arith in
      rw (later, keep, there) (keep-drop after (suc a) es b (ground arith) h)
]

-- With a gapless log and a sequence number that fits in 64 bits, a client that has seen the events
-- up to `after`, where the log still has all later ones, is told the events of the log without those
-- that it has seen, unchanged; and these are the events behind `after`, each once and in order, up
-- to the latest.
pub replay_complete :
    (after : ℕ) (s : LiveSession) (log : IsLog s)
    → s.state.event_sequence + 1 < 2 ^ 64
    → log.start ≤ after
    → after ≤ s.state.event_sequence
    → (replay after s ≡ drop (after - log.start) s.events)
      × Runs after (replay after s) s.state.event_sequence
unfolding replay
replay_complete after s log small l u =
    let current : ltb s.state.event_sequence after ≡ false = ground arith in
    rw (current, replay, no-gap after log.start s.events s.state.event_sequence log.runs l u small)
      (
        keep-drop after log.start s.events s.state.event_sequence l log.runs,
        keep-Runs after log.start s.events s.state.event_sequence l u log.runs,
      )

-- With a gapless log and a sequence number that fits in 64 bits, if some events behind `after` have left the log, or the client claims events that were not
-- published, it is told to read the state again, and nothing else.
pub replay-resync :
    (after : ℕ) (s : LiveSession) (log : IsLog s)
    → s.state.event_sequence + 1 < 2 ^ 64
    → (after < log.start) ⊎ (s.state.event_sequence < after)
    → replay after s ≡ resync s.state ∷ []
unfolding replay
replay-resync after s log small lost = ground (
  arith,
  Runs-length log.start s.events s.state.event_sequence log.runs,
  is-gap after log.start s.events s.state.event_sequence log.runs,
  log.filled,
  lost,
)
