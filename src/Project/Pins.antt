-- ===== src/Project/Pins.antt =====
-- packages/server/internal/project/store.go: the pins that keep the sources of a snapshot alive
-- while a job or a session uses them.
use latexmk.Prelude.{
  ℕ, ◌+◌, ◌-◌, ◌≡◌, refl, String, String-discrete, ite, Option, none, some, List, [], Map, lookup,
  put, delete, lookup-put, lookup-delete, leb, ◌==◌, if◌then◌else◌, arith,
}
use latexmk.Protocol.{ProjectFile}

pub record Snapshot : Type 0 where
  pub id : String
  pub owner_id : String
  pub project_id : String
  pub files : List ProjectFile

-- project.Snapshot{}
abbrev pub no_snapshot : Snapshot
no_snapshot = record { id = ""; owner_id = ""; project_id = ""; files = [] }

pub record PinnedSnapshot : Type 0 where
  pub snapshot : Snapshot
  pub count : ℕ

abbrev pub Pins : Type 0
Pins = Map PinnedSnapshot

abbrev add_pin : Snapshot → Option PinnedSnapshot → PinnedSnapshot
add_pin s none = record { snapshot = s; count = 1 }
add_pin s (some pin) = record {
  snapshot = if pin.count == 0 then s else pin.snapshot;
  count = pin.count + 1;
}

-- The part of `PinSnapshot` behind its validation.
unfoldable pub pin_snapshot : Snapshot → Pins → Pins
pin_snapshot s pins = put s.id (add_pin s (lookup s.id pins)) pins

abbrev drop_pin : String → Option PinnedSnapshot → Pins → Pins
drop_pin id none pins = pins
drop_pin id (some pin) pins =
    if leb pin.count 1 then delete id pins else put id (record pin { count = pin.count - 1 }) pins

unfoldable pub release_snapshot : String → Pins → Pins
release_snapshot id pins = drop_pin id (lookup id pins) pins

abbrev count_of : Option PinnedSnapshot → ℕ
count_of none = 0
count_of (some pin) = pin.count

-- How many holders a snapshot has.
unfoldable pub pin_count : String → Pins → ℕ
pin_count id pins = count_of (lookup id pins)

abbrev pub one_if : String → String → ℕ
one_if k j = ite (String-discrete k j) 1 0

-- A pin adds one holder to its own snapshot, and changes no other.
pub pin_count-pin_snapshot :
    (s : Snapshot) (j : String) (pins : Pins)
    → pin_count j (pin_snapshot s pins) ≡ pin_count j pins + one_if s.id j
unfolding pin_count pin_snapshot
pin_count-pin_snapshot s j pins =
    ground (arith, lookup-put s.id j (add_pin s (lookup s.id pins)) pins)

pin_count-drop_pin :
    (id j : String) (o : Option PinnedSnapshot) (pins : Pins)
    → lookup id pins ≡ o
    → pin_count j (drop_pin id o pins) ≡ pin_count j pins - one_if id j
unfolding pin_count
pin_count-drop_pin id j none pins h = ground arith
pin_count-drop_pin id j (some pin) pins h =
    ground
      (arith, lookup-put id j (record pin { count = pin.count - 1 }) pins, lookup-delete id j pins)

-- A release takes one holder from its own snapshot, if there is one, and changes no other.
pub pin_count-release_snapshot :
    (id j : String) (pins : Pins)
    → pin_count j (release_snapshot id pins) ≡ pin_count j pins - one_if id j
unfolding release_snapshot
pin_count-release_snapshot id j pins = pin_count-drop_pin id j (lookup id pins) pins refl
