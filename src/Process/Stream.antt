-- ===== src/Process/Stream.antt =====
-- The writer that passes a subprocess's output on within a limit
-- (packages/server/internal/platform/process/stream.go). What the destination answers to a write,
-- the bytes that it took and its error, is an argument.
use latexmk.Prelude.{
  ℕ, ◌+◌, ◌-◌, ◌≤◌, ◌<◌, ◌≡◌, refl, String, Bool, true, false, Option, none, some, List, [], ◌∷◌,
  ltb, Bool-cases, inl, inr, if◌then◌else◌, arith,
}

pub record StreamWriter : Type 0 where
  pub remaining : ℕ
  pub cancelled : Bool
  pub error : Option String

abbrev pub has_error : Option String → Bool
has_error none = false
has_error (some e) = true

-- One answer of `dst.Write`.
pub record Answer : Type 0 where
  pub taken : ℕ
  pub error : Option String

abbrev short : ℕ → Answer → Option String
short size a = elim a.error [
  | some e ↦ some e
  | none ↦ if ltb a.taken size then some "short write" else none
]

abbrev note : Option String → StreamWriter → StreamWriter
note none w = w
note (some e) w = record w { error = some e; cancelled = true }

abbrev attempt : ℕ → Answer → StreamWriter → StreamWriter × ℕ × Option String
attempt size a w =
    let e = short size a in (note e (record w { remaining = w.remaining - a.taken }), a.taken, e)

abbrev offer : Option String → ℕ → Answer → StreamWriter → StreamWriter × ℕ × Option String
offer (some e) size a w = (w, 0, some e)
offer none size a w =
    if ltb w.remaining size
    then (
      record w { error = some "subprocess output exceeds stream limit"; cancelled = true },
      0,
      some "subprocess output exceeds stream limit",
    )
    else attempt size a w

-- `Write` of so many bytes: the writer afterwards, and the count and error that it returns.
unfoldable pub write : ℕ → Answer → StreamWriter → StreamWriter × ℕ × Option String
write size a w = offer w.error size a w

-- A destination takes no more than it is given.
abbrev pub Fair : List (ℕ × Answer) → Type 0
Fair [] = Unit
Fair ((size, a) ∷ rest) = (a.taken ≤ size) × Fair rest

-- The number of bytes that a series of writes passes on, and the writer afterwards.
unfoldable pub write_each : List (ℕ × Answer) → StreamWriter → ℕ × StreamWriter
write_each [] w = (0, w)
write_each ((size, a) ∷ rest) w =
    let (w', n, e) = write size a w in let (total, w'') = write_each rest w' in (n + total, w'')

write_limit :
    (size : ℕ) (a : Answer) (w : StreamWriter)
    → a.taken ≤ size
    → (write size a w).1 + (write size a w).0.remaining ≡ w.remaining
unfolding write
write_limit size a w f = ground arith

-- Over any series of writes to a destination that takes no more than it is given, what is passed on and what remains add up to the limit, so that the
-- limit is never passed.
pub write_each_limit :
    (ps : List (ℕ × Answer)) (w : StreamWriter)
    → Fair ps
    → (write_each ps w).0 + (write_each ps w).1.remaining ≡ w.remaining
unfolding write_each
write_each_limit [] w f = omega arith
write_each_limit ((size, a) ∷ rest) w (f, fs) =
    omega (arith, write_each_limit rest (write size a w).0 fs, write_limit size a w f)

-- A write that is within what remains, and that the destination takes whole and without an error.
abbrev pub IsWhole : ℕ → ℕ → Answer → Type 0
IsWhole left size a = (size ≤ left) × (size ≤ a.taken) × (a.error ≡ none)

-- Why a write fails: it is past what remains, or the destination fails, or it takes less; with the
-- bytes that were passed on.
pub data Fails (left size : ℕ) (a : Answer) : ℕ → String → Type 0 where
  past_limit : left < size → Fails left size a 0 "subprocess output exceeds stream limit"
  refused : (e : String) → size ≤ left → a.error ≡ some e → Fails left size a a.taken e
  too_short :
      size ≤ left → a.error ≡ none → a.taken < size → Fails left size a a.taken "short write"

-- The course of a series of writes, from what remains of the limit: all are whole, or some are, and
-- then one fails. With it what is passed on in all, what remains, and the error that is left.
pub data Course : ℕ → List (ℕ × Answer) → ℕ → ℕ → Option String → Type 0 where
  all_passed : (left : ℕ) → Course left [] 0 left none
  whole :
      (left size : ℕ) (a : Answer) (rest : List (ℕ × Answer)) (total remaining : ℕ)
      (error : Option String)
      → IsWhole left size a
      → Course (left - a.taken) rest total remaining error
      → Course left ((size, a) ∷ rest) (a.taken + total) remaining error
  failed :
      (left size : ℕ) (a : Answer) (rest : List (ℕ × Answer)) (taken : ℕ) (e : String)
      → Fails left size a taken e
      → Course left ((size, a) ∷ rest) taken (left - taken) (some e)

-- A writer that has not failed, and one that has.
abbrev pub open_writer : ℕ → StreamWriter
open_writer left = record { remaining = left; cancelled = false; error = none }

abbrev halted : ℕ → String → StreamWriter
halted left e = record { remaining = left; cancelled = true; error = some e }

stopped :
    (ps : List (ℕ × Answer)) (left : ℕ) (e : String)
    → write_each ps (halted left e) ≡ (0, halted left e)
unfolding write_each write
stopped [] left e = refl
stopped ((size, a) ∷ rest) left e = rw (stopped rest left e) refl

-- What a series of writes leaves of an open writer.
abbrev pub Runs : ℕ → List (ℕ × Answer) → ℕ × StreamWriter → Type 0
Runs left ps (total, w) =
    Course left ps total w.remaining w.error × (w.cancelled ≡ has_error w.error)

failed_first :
    (left size : ℕ) (a : Answer) (rest : List (ℕ × Answer)) (taken : ℕ) (e : String)
    → Fails left size a taken e
    → write size a (open_writer left) ≡ (halted (left - taken) e, taken, some e)
    → Runs left ((size, a) ∷ rest) (write_each ((size, a) ∷ rest) (open_writer left))
unfolding write_each
failed_first left size a rest taken e f q =
    let z : taken + 0 ≡ taken = omega arith in
    rw (q, stopped rest (left - taken) e, z) (Course.failed left size a rest taken e f, refl)

whole_first :
    (left size : ℕ) (a : Answer) (rest : List (ℕ × Answer))
    → IsWhole left size a
    → write size a (open_writer left) ≡ (open_writer (left - a.taken), a.taken, none)
    → Runs (left - a.taken) rest (write_each rest (open_writer (left - a.taken)))
    → Runs left ((size, a) ∷ rest) (write_each ((size, a) ∷ rest) (open_writer left))
unfolding write_each
whole_first left size a rest f q next = rw q (Course.whole left size a rest _ _ _ f next.0, next.1)

within_limit :
    (left size : ℕ) (a : Answer) (rest : List (ℕ × Answer)) (o : Option String)
    → a.error ≡ o
    → ltb left size ≡ false
    → Runs (left - a.taken) rest (write_each rest (open_writer (left - a.taken)))
    → Runs left ((size, a) ∷ rest) (write_each ((size, a) ∷ rest) (open_writer left))
unfolding write
within_limit left size a rest (some e) q within next =
    failed_first left size a rest a.taken e (Fails.refused e (ground arith) q) (rw (within, q) refl)
within_limit left size a rest none q within next = elim (Bool-cases (ltb a.taken size)) [
  | inl less ↦
      failed_first left size a rest a.taken "short write"
        (Fails.too_short (ground arith) q (ground arith)) (rw (within, q, less) refl)
  | inr all ↦
      whole_first left size a rest (ground arith, ground arith, q) (rw (within, q, all) refl) next
]

-- From a writer without an error, a series of writes passes on exactly the writes before the first
-- that fails, and of that one what the destination took of it, or nothing if it is past what remains
-- of the limit. The error of that write, a write past the limit, an error of the destination or a
-- short write, is what is left, and the process is cancelled exactly if there is one.
pub write_each-Runs :
    (ps : List (ℕ × Answer)) (left : ℕ) → Runs left ps (write_each ps (open_writer left))
unfolding write_each write
write_each-Runs [] left = (Course.all_passed left, refl)
write_each-Runs ((size, a) ∷ rest) left =
    let next = write_each-Runs rest (left - a.taken) in
    elim (Bool-cases (ltb left size)) [
      | inl past ↦
          let z : left - 0 ≡ left = omega arith in
          failed_first left size a rest 0 _ (Fails.past_limit (ground arith)) (rw (past, z) refl)
      | inr within ↦ within_limit left size a rest a.error refl within next
    ]
