-- ===== src/Project/Publication.antt =====
-- packages/server/internal/project/publication.go: the reservation of storage that a state file
-- holds from its staging until it is published or given up. What the file system answers is an
-- argument of an operation; a size is a number of bytes, so that it is not negative.
use latexmk.Prelude.{
  ℕ, ◌+◌, ◌-◌, ◌≤◌, ◌≡◌, ◌⊎◌, String, Bool, true, false, not, Option, none, some, Result, ok, err,
  ltb, ◌==◌, ◌&&◌, if◌then◌else◌, arith,
}

-- The part of the project manager that counts storage.
pub record Quota : Type 0 where
  pub max_state_bytes : ℕ
  pub state_bytes : ℕ
  pub pending_bytes : ℕ

-- `pending` is the size of the staged file, where there is one.
pub record StatePublication : Type 0 where
  pub rooted : Bool
  pub pending : Option ℕ
  pub size : ℕ
  pub reserved : Bool

-- What `Lstat` finds at the destination.
pub data Destination : Type 0 where
  absent : Destination
  file : ℕ → Destination
  other : Destination
  unreadable : String → Destination

abbrev over_limit : String
over_limit = "state storage limit prevents publication"

abbrev is_open : Option ℕ → Bool
is_open none = false
is_open (some size) = true

abbrev let_go : StatePublication → Quota → StatePublication × Quota
let_go p q =
    if p.reserved
    then (record p { reserved = false }, record q { pending_bytes = q.pending_bytes - p.size })
    else (p, q)

abbrev close_root :
    Option String → StatePublication → Quota → Option String × StatePublication × Quota
close_root root_close p q =
    let r = let_go (record p { rooted = false; pending = none }) q in
    (if p.rooted then root_close else none, r.0, r.1)

-- `Close`, with the answers of `pending.Close` and `root.Close`: the error, and what is left.
unfoldable pub close :
    Option String
    → Option String
    → StatePublication
    → Quota
    → Option String × StatePublication × Quota
close (some e) root_close p q =
    if is_open p.pending then (some e, p, q) else close_root root_close p q
close none root_close p q = close_root root_close p q

abbrev replaced : Destination → Result ℕ
replaced absent = ok 0
replaced (file size) = ok size
replaced other = err "state destination is not a regular file"
replaced (unreadable e) = err e

abbrev publish_file :
    ℕ → Option String → ℕ → StatePublication → Quota → Result (Unit {0}) × StatePublication × Quota
publish_file old (some e) size p q = (err e, p, q)
publish_file old none size p q = (
  ok tt,
  record p { reserved = false },
  record q { state_bytes = q.state_bytes + size - old; pending_bytes = q.pending_bytes - size },
)

abbrev commit_over :
    Result ℕ
    → Option String
    → ℕ
    → StatePublication
    → Quota
    → Result (Unit {0}) × StatePublication × Quota
commit_over (err e) renamed size p q = (err e, p, q)
commit_over (ok old) renamed size p q =
    if ltb q.max_state_bytes (q.state_bytes + q.pending_bytes)
    then (err over_limit, p, q)
    else publish_file old renamed size p q

abbrev closed_already : String
closed_already = "state publication is already closed"

-- `commitLocked`, with what stands at the destination and the answer of `pending.Commit`.
unfoldable pub commit :
    Destination
    → Option String
    → StatePublication
    → Quota
    → Result (Unit {0}) × StatePublication × Quota
commit there renamed p q = elim p.pending [
  | none ↦ (err closed_already, p, q)
  | some size ↦
      if not p.reserved
      then (err closed_already, p, q)
      else commit_over (replaced there) renamed size p q
]

-- What happens to the files while one is staged: an error before the directory is open, one of
-- `Stage` behind that, or a staged file of some size.
pub data Staging : Type 0 where
  no_directory : String → Staging
  not_staged : String → Staging
  staged : ℕ → Staging

abbrev reservation : ℕ → StatePublication
reservation size = record { rooted = false; pending = none; size = size; reserved = true }

-- The deferred `Close` of a publication that was not completed.
abbrev abandon :
    Option String
    → Option String
    → String
    → StatePublication
    → Quota
    → Result StatePublication × Quota
abandon pending_close root_close e p q = (err e, (close pending_close root_close p q).2)

abbrev stage_in :
    Option String → Option String → ℕ → Staging → Quota → Result StatePublication × Quota
stage_in pending_close root_close size (no_directory e) q =
    abandon pending_close root_close e (reservation size) q
stage_in pending_close root_close size (not_staged e) q =
    abandon pending_close root_close e (record (reservation size) { rooted = true }) q
stage_in pending_close root_close size (staged n) q =
    let p = record (reservation size) { rooted = true; pending = some n } in
    if n == size
    then (ok p, q)
    else abandon pending_close root_close "state publication size changed" p q

-- `stageState`. In Go the test reads `size > max - state - pending` over signed integers.
unfoldable pub stage_state :
    Option String → Option String → ℕ → Staging → Quota → Result StatePublication × Quota
stage_state pending_close root_close size outcome q =
    if ltb q.max_state_bytes (q.state_bytes + q.pending_bytes + size)
    then (err over_limit, q)
    else stage_in pending_close root_close size outcome
        (record q { pending_bytes = q.pending_bytes + size })

-- The bytes that a publication holds reserved.
abbrev pub reserved_bytes : StatePublication → ℕ
reserved_bytes p = if p.reserved then p.size else 0

abbrev Fits : Option ℕ → ℕ → Type 0
Fits none size = Unit {0}
Fits (some n) size = n ≡ size

-- The counters when other publications hold so many bytes reserved, and this one its own: nothing
-- else is pending, and the limit is kept.
pub record Accounts (others : ℕ) (p : StatePublication) (q : Quota) : Type 0 where
  pub exact : q.pending_bytes ≡ others + reserved_bytes p
  pub limited : q.state_bytes + q.pending_bytes ≤ q.max_state_bytes
  pub whole : Fits p.pending p.size

-- The size of what a publication replaces, and whether it may be replaced.
abbrev pub old_size : Destination → ℕ
old_size (file size) = size
old_size _ = 0

abbrev pub may_replace : Destination → Bool
may_replace absent = true
may_replace (file size) = true
may_replace other = false
may_replace (unreadable e) = false

-- A file is staged and reserved, the destination may be replaced, and the renaming succeeds.
abbrev no_error : Option String → Bool
no_error none = true
no_error (some e) = false

abbrev pub can_publish : Destination → Option String → StatePublication → Bool
can_publish there renamed p =
    is_open p.pending && (p.reserved && (may_replace there && no_error renamed))

-- What publishing leaves: where it fails, everything as it was; otherwise the size of the file takes
-- the place of the old one, and the reservation goes.
abbrev pub Settled :
    Destination
    → Option String
    → StatePublication
    → Quota
    → Result (Unit {0})
    → StatePublication
    → Quota
    → Type 0
Settled there renamed p q (err e) p' q' =
    (can_publish there renamed p ≡ false) × (p' ≡ p) × (q' ≡ q)
Settled there renamed p q (ok _) p' q' =
    (can_publish there renamed p ≡ true)
    × (p' ≡ record p { reserved = false })
    × (q'.state_bytes ≡ q.state_bytes + p.size - old_size there)
    × (q'.pending_bytes + p.size ≡ q.pending_bytes)

-- From counters that are exact and within the limit, publishing a file keeps them so, whatever
-- stands at the destination. It succeeds exactly if a file is staged and reserved, the destination is
-- absent or a regular file, and the renaming succeeds: then the stored bytes grow by the size of the
-- file and shrink by that of the file replaced, and its reservation is taken off the pending bytes. An
-- error changes neither the publication nor a counter.
pub commit-Accounts :
    (there : Destination) (renamed : Option String) (others : ℕ) (p : StatePublication) (q : Quota)
    → Accounts others p q
    → let (answer, p', q') = commit there renamed p q in
      Accounts others p' q' × Settled there renamed p q answer p' q'
unfolding commit
commit-Accounts absent none others p q h = ground (arith, h.exact, h.limited, h.whole)
commit-Accounts absent (some e) others p q h = ground (arith, h.exact, h.limited, h.whole)
commit-Accounts (file n) none others p q h = ground (arith, h.exact, h.limited, h.whole)
commit-Accounts (file n) (some e) others p q h = ground (arith, h.exact, h.limited, h.whole)
commit-Accounts other renamed others p q h = ground (arith, h.exact, h.limited, h.whole)
commit-Accounts (unreadable e) renamed others p q h = ground (arith, h.exact, h.limited, h.whole)

-- What is held behind a close: nothing, or what an error in removing the staged file kept.
abbrev pub LetGo : Option String → StatePublication → Type 0
LetGo none p = reserved_bytes p ≡ 0
LetGo (some e) p = Unit {0}

-- From counters that are exact and within the limit, closing a publication, published or not, gives back what it still holds
-- reserved, once: the counters stay exact and within the limit, and nothing is held afterwards unless the removal of
-- the staged file failed.
pub close-Accounts :
    (pending_close root_close : Option String) (others : ℕ) (p : StatePublication) (q : Quota)
    → Accounts others p q
    → let (answer, p', q') = close pending_close root_close p q in
      Accounts others p' q' × LetGo pending_close p'
unfolding close
close-Accounts none root_close others p q h = ground (arith, h.exact, h.limited, h.whole)
close-Accounts (some e) root_close others p q h = ground (arith, h.exact, h.limited, h.whole)

-- What a failed staging leaves reserved: nothing, or, where a file was staged with another size and
-- could not be removed, the bytes that were reserved for it.
abbrev pub Retained : Option String → ℕ → Staging → Quota → Quota → Type 0
Retained (some _) size (staged n) q q' =
    (q' ≡ q)
    ⊎ ((n == size) ≡ false)
      × (q'.pending_bytes ≡ q.pending_bytes + size)
      × (q'.state_bytes ≡ q.state_bytes)
      × (q'.state_bytes + q'.pending_bytes ≤ q.max_state_bytes)
Retained pending_close size outcome q q' = q' ≡ q

-- The size is within the limit, and a file of that size could be staged.
abbrev pub can_stage : ℕ → Staging → Quota → Bool
can_stage size (staged n) q =
    not (ltb q.max_state_bytes (q.state_bytes + q.pending_bytes + size)) && n == size
can_stage size _ q = false

-- What staging leaves: a publication that holds its size, or the counters with what is retained.
abbrev pub Staged : Option String → ℕ → Staging → Quota → Result StatePublication → Quota → Type 0
Staged pending_close size outcome q (ok p) q' =
    (can_stage size outcome q ≡ true)
    × Accounts q.pending_bytes p q'
    × (reserved_bytes p ≡ size)
    × (q'.state_bytes ≡ q.state_bytes)
Staged pending_close size outcome q (err e) q' =
    (can_stage size outcome q ≡ false) × Retained pending_close size outcome q q'

-- From counters within the limit, staging succeeds exactly if the size still fits into the limit and
-- a file of that size could be staged; then it reserves the size, within the limit. Failing changes no counter, but for one case: a file was staged with another size, and
-- its removal failed too; then the counters are as they were, or the size stays reserved, within the
-- limit. The stored bytes never change.
pub stage_state-Staged :
    (pending_close root_close : Option String) (size : ℕ) (outcome : Staging) (q : Quota)
    → q.state_bytes + q.pending_bytes ≤ q.max_state_bytes
    → let (answer, q') = stage_state pending_close root_close size outcome q in
      Staged pending_close size outcome q answer q'
unfolding stage_state close
stage_state-Staged none root_close size (no_directory e) q h = ground (arith, h)
stage_state-Staged none root_close size (not_staged e) q h = ground (arith, h)
stage_state-Staged none root_close size (staged n) q h = ground (arith, h)
stage_state-Staged (some e) root_close size (no_directory w) q h = ground (arith, h)
stage_state-Staged (some e) root_close size (not_staged w) q h = ground (arith, h)
stage_state-Staged (some e) root_close size (staged n) q h = ground (arith, h)
