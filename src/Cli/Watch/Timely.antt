-- ===== src/Cli/Watch/Timely.antt =====
-- Every change that the loop of `Wait` notices is reported in time.
use latexmk.Cli.Watch.Quiet.{Reconciled, Told, reconcile-Reconciled}
use Prim.Native.Nat.{min}
use latexmk.Prelude.{
  ℕ, ◌+◌, ◌-◌, ◌≤◌, ◌≡◌, refl, sym, ◌∙◌, inl, inr, subst, String, Bool, true, false, Option, none,
  some, [], ◌∷◌, Map, Result, ok, err, ltb, sort_by, arith, Bool-cases,
}
use latexmk.Cli.Watch.{
  Target, World, Tracker, Loop, reconcile, first_of, arm, refresh_due, Turn, armed_after,
  find_target, noted, on_event, mark_all, arm_pending, after_error, on_watcher_error, on_tick,
  report, report_after, on_settle, Input, turn, begin, first_loop, names_in, text_of,
}

-- When the timer runs out: not later than the longest wait behind the first change; without a
-- timer there is no first change.
abbrev pub Deadline : ℕ → Option ℕ → Option ℕ → Type 0
Deadline max_wait none first = first ≡ none
Deadline max_wait (some d) none = ⊥
Deadline max_wait (some d) (some first) = d ≤ first + max_wait

abbrev pub IsArmed : Map (Unit {0}) → Option ℕ → Type 0
IsArmed [] settle = Unit
IsArmed (_ ∷ _) none = ⊥
IsArmed (_ ∷ _) (some d) = Unit

pub record Timely (l : Loop) : Type 0 where
  pub armed : IsArmed l.pending l.settle
  pub bounded : Deadline l.tracker.max_wait l.settle l.first_change

-- The loop gets an input before its timer runs out, and no clock goes back.
abbrev pub InTime : ℕ → Option ℕ → Option ℕ → Type 0
InTime now (some d) (some first) = (now ≤ d) × (first ≤ now)
InTime now settle first = Unit

IsArmed-some : (pending : Map (Unit {0})) (d : ℕ) → IsArmed pending (some d)
IsArmed-some [] d = tt
IsArmed-some (_ ∷ _) d = tt

arm-Deadline :
    (max_wait debounce now : ℕ) (settle first : Option ℕ)
    → Deadline max_wait settle first
    → InTime now settle first
    → now + min debounce (max_wait - (now - first_of now first)) ≤ first_of now first + max_wait
arm-Deadline max_wait debounce now none none b t = ground arith
arm-Deadline max_wait debounce now none (some f) b t = ground (arith, b)
arm-Deadline max_wait debounce now (some d) none b t = absurd b
arm-Deadline max_wait debounce now (some d) (some f) b t = omega (arith, b, t.0, t.1)

arm-Timely :
    (now : ℕ) (l : Loop)
    → Deadline l.tracker.max_wait l.settle l.first_change
    → InTime now l.settle l.first_change
    → Timely (arm now l)
unfolding arm
arm-Timely now l b t = record {
  armed = IsArmed-some l.pending _;
  bounded = arm-Deadline l.tracker.max_wait l.tracker.debounce now l.settle l.first_change b t;
}

abbrev pub StaysTimely : Turn → Type 0
StaysTimely (Turn.going l) = Timely l
StaysTimely (Turn.failed e) = Unit
StaysTimely (Turn.reported names) = Unit

Told-Deadline :
    (l k : Loop) (changed : Bool)
    → Told l changed k
    → Deadline l.tracker.max_wait l.settle l.first_change
    → Deadline k.tracker.max_wait k.settle k.first_change
Told-Deadline l k changed t b = rw (t.max_wait, t.settle, t.first) b

Told-InTime :
    (now : ℕ) (l k : Loop) (changed : Bool)
    → Told l changed k
    → InTime now l.settle l.first_change
    → InTime now k.settle k.first_change
Told-InTime now l k changed t b = rw (t.settle, t.first) b

Told-Timely : (l k : Loop) → Told l false k → Timely l → Timely k
Told-Timely l k t h = record {
  armed = elim t.told [ inl e ↦ absurd (ground (arith, e)) | inr e ↦ rw (e, t.settle) h.armed ];
  bounded = Told-Deadline l k false t h.bounded;
}

armed_after-StaysTimely :
    (now : ℕ) (l : Loop) (r : Result (Bool × Loop))
    → Reconciled l r
    → Timely l
    → InTime now l.settle l.first_change
    → StaysTimely (armed_after now r)
armed_after-StaysTimely now l (err e) t h i = tt
armed_after-StaysTimely now l (ok (true, k)) t h i =
    arm-Timely now k (Told-Deadline l k true t h.bounded) (Told-InTime now l k true t i)
armed_after-StaysTimely now l (ok (false, k)) t h i = Told-Timely l k t h

noted-Timely :
    (w : World) (now : ℕ) (o : Option Target) (l : Loop)
    → Timely l
    → InTime now l.settle l.first_change
    → Timely (noted w now o l)
noted-Timely w now (some target) l h i = arm-Timely now _ h.bounded i
noted-Timely w now none l h i = by_pending l.pending refl
  where
    by_pending :
        (p : Map (Unit {0})) → l.pending ≡ p → Timely (elim p [ [] ↦ arm now l | _ ∷ _ ↦ l ])
    by_pending [] e = arm-Timely now l h.bounded i
    by_pending (_ ∷ _) e = h

on_event-StaysTimely :
    (w : World) (name : String) (now : ℕ) (l : Loop)
    → Timely l
    → InTime now l.settle l.first_change
    → StaysTimely (on_event w name now l)
unfolding on_event
on_event-StaysTimely w name now l h i = elim (Bool-cases (ltb 0 l.tracker.refresh_interval)) [
  | inl e ↦
      rw (on_event, e) (noted-Timely w now (find_target w (w.clean name) l.tracker.targets) l h i)
  | inr e ↦
      rw (on_event, e)
        (armed_after-StaysTimely now l (reconcile w name now true l)
          (reconcile-Reconciled w name now true l) h i)
]

arm_pending-Timely :
    (now : ℕ) (l : Loop)
    → Deadline l.tracker.max_wait l.settle l.first_change
    → InTime now l.settle l.first_change
    → Timely (arm_pending now l)
arm_pending-Timely now l b i = by_pending l.pending refl
  where
    by_pending :
        (p : Map (Unit {0})) → l.pending ≡ p → Timely (elim p [ [] ↦ l | _ ∷ _ ↦ arm now l ])
    by_pending [] e = record { armed = subst (λ q. IsArmed q l.settle) (sym e) tt; bounded = b }
    by_pending (_ ∷ _) e = arm-Timely now l b i

after_error-StaysTimely :
    (now : ℕ) (l : Loop) (r : Result (Bool × Loop))
    → Reconciled l r
    → Timely l
    → InTime now l.settle l.first_change
    → StaysTimely (after_error now r)
after_error-StaysTimely now l (err e) t h i = tt
after_error-StaysTimely now l (ok (changed, k)) t h i =
    arm_pending-Timely now (record k { pending = mark_all k.tracker.targets k.pending })
      (Told-Deadline l k changed t h.bounded) (Told-InTime now l k changed t i)

report-StaysTimely : (l : Loop) → l.settle ≡ none → StaysTimely (report l)
report-StaysTimely l s = by_pending l.pending refl
  where
    by_pending :
        (p : Map (Unit {0}))
        → l.pending ≡ p
        → StaysTimely (elim p [
          | [] ↦ Turn.going (record l { first_change = none })
          | _ ∷ _ ↦ Turn.reported (sort_by text_of (names_in l.pending))
        ])
    by_pending [] e = record {
      armed = subst (λ q. IsArmed q l.settle) (sym e) tt;
      bounded = subst (λ o. Deadline l.tracker.max_wait o none) (sym s) refl;
    }
    by_pending (_ ∷ _) e = tt

report_after-StaysTimely :
    (l : Loop) (r : Result (Bool × Loop))
    → l.settle ≡ none
    → Reconciled l r
    → StaysTimely (report_after r)
report_after-StaysTimely l (err e) s t = tt
report_after-StaysTimely l (ok (changed, k)) s t = report-StaysTimely k (t.settle ∙ s)

on_settle-StaysTimely : (w : World) (now : ℕ) (l : Loop) → StaysTimely (on_settle w now l)
unfolding on_settle
on_settle-StaysTimely w now l =
    let idle = record l { settle = none } in
    elim (Bool-cases (ltb 0 l.tracker.refresh_interval)) [
      | inl e ↦
          rw (on_settle, e)
            (report_after-StaysTimely idle (reconcile w "" now true idle) refl
              (reconcile-Reconciled w "" now true idle))
      | inr e ↦ rw (on_settle, e) (report-StaysTimely idle refl)
    ]

-- When an input may come: the timer only when it has run out, everything else before that.
abbrev pub Comes : ℕ → Input → Loop → Type 0
Comes now Input.settled l = Unit
Comes now input l = InTime now l.settle l.first_change

turn-StaysTimely :
    (w : World) (now : ℕ) (input : Input) (l : Loop)
    → Timely l
    → Comes now input l
    → StaysTimely (turn w now input l)
unfolding turn on_watcher_error on_tick
turn-StaysTimely w now (Input.event name) l h i = on_event-StaysTimely w name now l h i
turn-StaysTimely w now Input.no_more_events l h i = record { armed = h.armed; bounded = h.bounded }
turn-StaysTimely w now Input.watcher_error l h i =
    after_error-StaysTimely now l (reconcile w "" now true l) (reconcile-Reconciled w "" now true l)
      h i
turn-StaysTimely w now Input.tick l h i =
    armed_after-StaysTimely now l (reconcile w "" now (refresh_due w now l) l)
      (reconcile-Reconciled w "" now (refresh_due w now l) l) h i
turn-StaysTimely w now Input.settled l h i = on_settle-StaysTimely w now l

begin-StaysTimely :
    (w : World) (now : ℕ) (has_events : Bool) (t : Tracker) → StaysTimely (begin w now has_events t)
unfolding begin on_tick
begin-StaysTimely w now has_events t =
    let l = first_loop has_events t in
    armed_after-StaysTimely now l (reconcile w "" now (refresh_due w now l) l)
      (reconcile-Reconciled w "" now (refresh_due w now l) l)
      (record { armed = tt; bounded = refl }) tt

-- A run of the loop: what came, and when.
pub data Runs (t : Tracker) : Loop → Type 0 where
  begun :
      (w : World) (now : ℕ) (has_events : Bool) (l : Loop)
      → begin w now has_events t ≡ Turn.going l
      → Runs t l
  turned :
      (w : World) (now : ℕ) (input : Input) (k l : Loop)
      → Runs t k
      → Comes now input k
      → turn w now input k ≡ Turn.going l
      → Runs t l

-- After any inputs of a call of `Wait`, each in time: while a change is pending the timer runs, and it
-- runs out at the latest `maxWait` after the first change, however many events put it off.
pub Runs-Timely : (t : Tracker) {l : Loop} → Runs t l → Timely l
Runs-Timely t (Runs.begun w now has_events l e) =
    subst StaysTimely e (begin-StaysTimely w now has_events t)
Runs-Timely t (Runs.turned w now input k l r c e) =
    subst StaysTimely e (turn-StaysTimely w now input k (Runs-Timely t r) c)
