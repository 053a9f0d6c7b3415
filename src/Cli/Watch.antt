-- ===== src/Cli/Watch.antt =====
-- packages/cli/internal/watch/watch.go: the tracker of files and the loop of `Wait`. The file system, the
-- refresh of the targets and filepath.Clean are arguments; an instant is a number of nanoseconds.
pub mod Quiet
pub mod Timely
use Prim.Native.Nat.{min}
use text.Mathlib.Text.{◌==◌ as same}
use latexmk.Prelude.{
  ℕ, ◌+◌, ◌-◌, String, Bool, true, false, not, ◌&&◌, ◌||◌, Option, none, some, List, [], ◌∷◌, Map,
  lookup, put, delete, Result, ok, err, ltb, leb, ◌==◌, if◌then◌else◌, sort_by,
}

pub record Target : Type 0 where
  pub name : String
  pub path : String

pub record FileState : Type 0 where
  pub exists : Bool
  pub mode : ℕ
  pub size : ℕ
  pub mod_time : ℕ

-- What the loop asks of its surroundings: os.Lstat, Refresh (if it is set), filepath.Clean, and
-- whether some directory is watched.
pub record World : Type 0 where
  pub stat : String → FileState
  pub refresh : Option (Result (List Target))
  pub clean : String → String
  pub watching : Bool

pub record Tracker : Type 0 where
  pub refresh_interval : ℕ
  pub targets : List Target
  pub states : Map FileState
  pub refreshed : ℕ
  pub debounce : ℕ
  pub max_wait : ℕ

-- The variables of `Wait`: `settle` is when the timer fires, if it runs.
pub record Loop : Type 0 where
  pub tracker : Tracker
  pub pending : Map (Unit {0})
  pub first_change : Option ℕ
  pub settle : Option ℕ
  pub has_events : Bool

abbrev name_of : Target → String
name_of target = target.name

unfoldable pub unique_targets : List Target → Map Target → Result (Map Target)
unique_targets [] unique = ok unique
unique_targets (target ∷ targets) unique =
    let rest = unique_targets targets (put target.path target unique) in
    if same target.name "" || same target.path ""
    then err "watch target must have a name and path"
    else rest

abbrev values_of : Map Target → List Target
values_of [] = []
values_of ((_, target) ∷ unique) = target ∷ values_of unique

-- normalizeTargets; targets of one name stand in any order.
unfoldable pub normalize_targets : List Target → Result (List Target)
normalize_targets targets = elim (unique_targets targets []) [
  | err e ↦ err e
  | ok unique ↦ ok (sort_by name_of (values_of unique))
]

-- fileState{}, the value of a path that is not in the map.
abbrev unknown : FileState
unknown = record { exists = false; mode = 0; size = 0; mod_time = 0 }

abbrev pub state_or : Option FileState → FileState
state_or none = unknown
state_or (some s) = s

abbrev same_bool : Bool → Bool → Bool
same_bool true b = b
same_bool false b = not b

abbrev pub same_state : FileState → FileState → Bool
same_state a b =
    same_bool a.exists b.exists && a.mode == b.mode && a.size == b.size && a.mod_time == b.mod_time

-- What a reconciliation collects: `pending`, `changed` and `t.states`.
pub record Marks : Type 0 where
  pub pending : Map (Unit {0})
  pub changed : Bool
  pub states : Map FileState

abbrev pub mark : String → Marks → Marks
mark name m = record m { pending = put name tt m.pending; changed = true }

abbrev pub is_known : Option FileState → Bool
is_known none = false
is_known (some _) = true

-- The targets that a refresh adds, and those that it drops.
unfoldable pub mark_added : List Target → Marks → Marks
mark_added [] m = m
mark_added (target ∷ targets) m =
    mark_added targets (if is_known (lookup target.path m.states) then m else mark target.name m)

abbrev pub has_path : String → List Target → Bool
has_path path [] = false
has_path path (target ∷ targets) = same target.path path || has_path path targets

abbrev pub dropped : Target → Marks → Marks
dropped target m = record (mark target.name m) { states = delete target.path m.states }

unfoldable pub mark_dropped : List Target → List Target → Marks → Marks
mark_dropped next [] m = m
mark_dropped next (target ∷ targets) m =
    mark_dropped next targets (if has_path target.path next then m else dropped target m)

abbrev pub restated : Target → FileState → Marks → Marks
restated target now m = record (mark target.name m) { states = put target.path now m.states }

-- The loop that compares every target with its file.
unfoldable pub mark_changed : World → String → List Target → Marks → Marks
mark_changed w event [] m = m
mark_changed w event (target ∷ targets) m =
    let now = w.stat target.path in
    mark_changed w event targets (
      if same_state now (state_or (lookup target.path m.states))
        && not (same (w.clean event) (w.clean target.path))
      then m
      else restated target now m)

abbrev pub marks_of : Loop → Marks
marks_of l = record { pending = l.pending; changed = false; states = l.tracker.states }

-- The loop with what was marked, and whether anything was.
abbrev pub with_marks : Marks → Loop → Bool × Loop
with_marks m l =
    (m.changed, record l { pending = m.pending; tracker = record l.tracker { states = m.states } })

abbrev pub compare_files : World → String → Marks → Loop → Bool × Loop
compare_files w event m l = with_marks (mark_changed w event l.tracker.targets m) l

abbrev pub retarget : ℕ → List Target → Loop → Loop
retarget now targets l = record l {
  tracker = record l.tracker { targets = targets; refreshed = now };
}

abbrev pub with_targets : World → String → ℕ → Result (List Target) → Loop → Result (Bool × Loop)
with_targets w event now (err e) l = err e
with_targets w event now (ok targets) l = ok (
    compare_files w event (mark_dropped targets l.tracker.targets (mark_added targets (marks_of l)))
      (retarget now targets l))

abbrev pub normalized : Result (List Target) → Result (List Target)
normalized (err e) = err e
normalized (ok targets) = normalize_targets targets

-- The function `reconcile` of `Wait`.
abbrev pub refreshed_with :
    World → String → ℕ → Bool → Option (Result (List Target)) → Loop → Result (Bool × Loop)
refreshed_with w event now true (some answer) l = with_targets w event now (normalized answer) l
refreshed_with w event now true none l = ok (compare_files w event (marks_of l) l)
refreshed_with w event now false answer l = ok (compare_files w event (marks_of l) l)

unfoldable pub reconcile : World → String → ℕ → Bool → Loop → Result (Bool × Loop)
reconcile w event now refresh l = refreshed_with w event now refresh w.refresh l

abbrev pub first_of : ℕ → Option ℕ → ℕ
first_of now none = now
first_of now (some first) = first

-- The function `arm`.
unfoldable pub arm : ℕ → Loop → Loop
arm now l =
    let first = first_of now l.first_change in
    record l {
      first_change = some first;
      settle = some (now + min l.tracker.debounce (l.tracker.max_wait - (now - first)));
    }

abbrev pub refresh_due : World → ℕ → Loop → Bool
refresh_due w now l =
    l.tracker.refresh_interval == 0
    || leb l.tracker.refresh_interval (now - l.tracker.refreshed)
    || not l.has_events
    || not w.watching

-- What a turn of the loop comes to: it goes on, or `Wait` returns.
pub data Turn : Type 0 where
  going : Loop → Turn
  failed : String → Turn
  reported : List String → Turn

abbrev pub arm_if : ℕ → Bool × Loop → Loop
arm_if now (changed, l) = if changed then arm now l else l

abbrev pub armed_after : ℕ → Result (Bool × Loop) → Turn
armed_after now (err e) = Turn.failed e
armed_after now (ok r) = Turn.going (arm_if now r)

-- A target by its cleaned path; of several the last one.
unfoldable pub find_target : World → String → List Target → Option Target
find_target w path [] = none
find_target w path (target ∷ targets) =
    let later = find_target w path targets in
    elim later [
      | some t ↦ some t
      | none ↦ if same (w.clean target.path) path then some target else none
    ]

abbrev pub noted : World → ℕ → Option Target → Loop → Loop
noted w now (some target) l = arm now (record l {
  pending = put target.name tt l.pending;
  tracker = record l.tracker { states = put target.path (w.stat target.path) l.tracker.states };
})
noted w now none l = elim l.pending [ [] ↦ arm now l | _ ∷ _ ↦ l ]

-- case event := <-events
unfoldable pub on_event : World → String → ℕ → Loop → Turn
on_event w name now l =
    if ltb 0 l.tracker.refresh_interval
    then Turn.going (noted w now (find_target w (w.clean name) l.tracker.targets) l)
    else armed_after now (reconcile w name now true l)

unfoldable pub mark_all : List Target → Map (Unit {0}) → Map (Unit {0})
mark_all [] pending = pending
mark_all (target ∷ targets) pending = mark_all targets (put target.name tt pending)

abbrev pub arm_pending : ℕ → Loop → Loop
arm_pending now l = elim l.pending [ [] ↦ l | _ ∷ _ ↦ arm now l ]

abbrev pub after_error : ℕ → Result (Bool × Loop) → Turn
after_error now (err e) = Turn.failed e
after_error now (ok (changed, l)) =
    Turn.going (arm_pending now (record l { pending = mark_all l.tracker.targets l.pending }))

-- case <-watcherErrors
unfoldable pub on_watcher_error : World → ℕ → Loop → Turn
on_watcher_error w now l = after_error now (reconcile w "" now true l)

-- case <-ticker.C
unfoldable pub on_tick : World → ℕ → Loop → Turn
on_tick w now l = armed_after now (reconcile w "" now (refresh_due w now l) l)

abbrev pub names_in : Map (Unit {0}) → List String
names_in [] = []
names_in ((name, _) ∷ pending) = name ∷ names_in pending

abbrev pub text_of : String → String
text_of s = s

abbrev pub report : Loop → Turn
report l = elim l.pending [
  | [] ↦ Turn.going (record l { first_change = none })
  | _ ∷ _ ↦ Turn.reported (sort_by text_of (names_in l.pending))
]

abbrev pub report_after : Result (Bool × Loop) → Turn
report_after (err e) = Turn.failed e
report_after (ok (changed, l)) = report l

-- case <-settle.C; the timer has run out.
unfoldable pub on_settle : World → ℕ → Loop → Turn
on_settle w now l =
    let idle = record l { settle = none } in
    if ltb 0 l.tracker.refresh_interval
    then report_after (reconcile w "" now true idle)
    else report idle

-- The events of the loop, but the end of the context, at which it returns.
pub data Input : Type 0 where
  event : String → Input
  no_more_events : Input
  watcher_error : Input
  tick : Input
  settled : Input

unfoldable pub turn : World → ℕ → Input → Loop → Turn
turn w now (Input.event name) l = on_event w name now l
turn w now Input.no_more_events l = Turn.going (record l { has_events = false })
turn w now Input.watcher_error l = on_watcher_error w now l
turn w now Input.tick l = on_tick w now l
turn w now Input.settled l = on_settle w now l

-- The variables of `Wait` at its start, and the reconciliation before the loop.
abbrev pub first_loop : Bool → Tracker → Loop
first_loop has_events t = record {
  tracker = t;
  pending = [];
  first_change = none;
  settle = none;
  has_events = has_events;
}

unfoldable pub begin : World → ℕ → Bool → Tracker → Turn
begin w now has_events t = on_tick w now (first_loop has_events t)

unfoldable pub stat_all : (String → FileState) → List Target → Map FileState → Map FileState
stat_all stat [] states = states
stat_all stat (target ∷ targets) states =
    stat_all stat targets (put target.path (stat target.path) states)

abbrev pub tracked : World → ℕ → ℕ → Result (List Target) → Result Tracker
tracked w debounce max_wait (err e) = err e
tracked w debounce max_wait (ok ordered) = ok (record {
  refresh_interval = 0;
  targets = ordered;
  states = stat_all w.stat ordered [];
  refreshed = 0;
  debounce = debounce;
  max_wait = max_wait;
})

-- New; a debounce below zero, which it refuses, is no number here.
unfoldable pub new : World → List Target → ℕ → ℕ → ℕ → Result Tracker
new w targets interval debounce max_wait =
    if interval == 0
    then err "watch interval must be positive"
    else if max_wait == 0
    then err "watch max wait must be positive"
    else tracked w debounce max_wait (normalize_targets targets)
