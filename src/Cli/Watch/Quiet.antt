-- ===== src/Cli/Watch/Quiet.antt =====
-- Marking is told: a reconciliation that adds a pending change reports a change.
use text.Mathlib.Text.{◌==◌ as same}
use latexmk.Prelude.{
  ℕ, ◌≡◌, refl, ◌⊎◌, inl, inr, String, Bool, true, false, not, ◌&&◌, Option, none, some, List, [],
  ◌∷◌, Map, lookup, Result, ok, err, if◌then◌else◌,
}
use latexmk.Cli.Watch.{
  Target, World, Loop, Marks, mark, mark_added, has_path, dropped, mark_dropped, same_state,
  restated, mark_changed, marks_of, compare_files, with_targets, normalized, refreshed_with,
  reconcile, is_known, state_or,
}

-- Nothing was marked without saying so.
IsQuiet : Map (Unit {0}) → Marks → Type 0
IsQuiet pending m = (m.changed ≡ true) ⊎ (m.pending ≡ pending)

mark_if-IsQuiet :
    (pending : Map (Unit {0})) (b : Bool) (m n : Marks)
    → n.changed ≡ true
    → IsQuiet pending m
    → IsQuiet pending (if b then m else n)
unfolding IsQuiet
mark_if-IsQuiet pending true m n e h = h
mark_if-IsQuiet pending false m n e h = inl e

mark_added-IsQuiet :
    (pending : Map (Unit {0})) (targets : List Target) (m : Marks)
    → IsQuiet pending m
    → IsQuiet pending (mark_added targets m)
unfolding mark_added
mark_added-IsQuiet pending [] m h = h
mark_added-IsQuiet pending (target ∷ targets) m h =
    mark_added-IsQuiet pending targets _ (
      mark_if-IsQuiet pending (is_known (lookup target.path m.states)) m (mark target.name m) refl
        h)

mark_dropped-IsQuiet :
    (pending : Map (Unit {0})) (next targets : List Target) (m : Marks)
    → IsQuiet pending m
    → IsQuiet pending (mark_dropped next targets m)
unfolding mark_dropped
mark_dropped-IsQuiet pending next [] m h = h
mark_dropped-IsQuiet pending next (target ∷ targets) m h =
    mark_dropped-IsQuiet pending next targets _
      (mark_if-IsQuiet pending (has_path target.path next) m (dropped target m) refl h)

mark_changed-IsQuiet :
    (pending : Map (Unit {0})) (w : World) (event : String) (targets : List Target) (m : Marks)
    → IsQuiet pending m
    → IsQuiet pending (mark_changed w event targets m)
unfolding mark_changed
mark_changed-IsQuiet pending w event [] m h = h
mark_changed-IsQuiet pending w event (target ∷ targets) m h =
    mark_changed-IsQuiet pending w event targets _ (
      mark_if-IsQuiet pending
        (same_state (w.stat target.path) (state_or (lookup target.path m.states))
          && not (same (w.clean event) (w.clean target.path)))
        m (restated target (w.stat target.path) m) refl h)

-- A loop whose timer is as before, and whose pending changes are the same or told of.
pub record Told (l : Loop) (changed : Bool) (k : Loop) : Type 0 where
  pub first : k.first_change ≡ l.first_change
  pub settle : k.settle ≡ l.settle
  pub max_wait : k.tracker.max_wait ≡ l.tracker.max_wait
  pub told : (changed ≡ true) ⊎ (k.pending ≡ l.pending)

abbrev pub Reconciled : Loop → Result (Bool × Loop) → Type 0
Reconciled l (err e) = Unit
Reconciled l (ok (changed, k)) = Told l changed k

with_targets-Reconciled :
    (w : World) (event : String) (now : ℕ) (r : Result (List Target)) (l : Loop)
    → Reconciled l (with_targets w event now r l)
unfolding IsQuiet
with_targets-Reconciled w event now (err e) l = tt
with_targets-Reconciled w event now (ok targets) l = record {
  first = refl;
  settle = refl;
  max_wait = refl;
  told = mark_changed-IsQuiet l.pending w event targets _ (
      mark_dropped-IsQuiet l.pending targets l.tracker.targets _
        (mark_added-IsQuiet l.pending targets (marks_of l) (inr refl)));
}

compared :
    (w : World) (event : String) (l : Loop)
    → Reconciled l (ok (compare_files w event (marks_of l) l))
unfolding IsQuiet
compared w event l = record {
  first = refl;
  settle = refl;
  max_wait = refl;
  told = mark_changed-IsQuiet l.pending w event l.tracker.targets (marks_of l) (inr refl);
}

pub reconcile-Reconciled :
    (w : World) (event : String) (now : ℕ) (refresh : Bool) (l : Loop)
    → Reconciled l (reconcile w event now refresh l)
unfolding reconcile
reconcile-Reconciled w event now refresh l = refreshed refresh w.refresh
  where
    refreshed :
        (b : Bool) (answer : Option (Result (List Target)))
        → Reconciled l (refreshed_with w event now b answer l)
    refreshed true (some answer) = with_targets-Reconciled w event now (normalized answer) l
    refreshed true none = compared w event l
    refreshed false answer = compared w event l
