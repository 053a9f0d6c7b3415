-- ===== src/Project/Sweep.antt =====
-- `Prune` and `CollectUnreferencedBlobs` of packages/server/internal/project/store.go, without a
-- database: what they collect at each hold of the lock, and the walk over the blobs.
pub mod Kept
pub mod Collected
pub mod Spared
pub mod Exact
use latexmk.Prelude.{
  ℕ, ◌+◌, String, Bool, true, false, Option, none, some, List, [], ◌∷◌, Map, delete_where, Result,
  ok, err, ltb, ◌==◌, if◌then◌else◌,
}
use latexmk.Project.Pins.{PinnedSnapshot, Pins}
use latexmk.Project.Names.{Codec, owner_key}
use latexmk.Project.Publication.{Quota}
use latexmk.Project.State.{Upload, StoredSnapshot, StateFile, Store, Sources}
use latexmk.Project.Uploads.{sweep_sessions}
use latexmk.Project.Blobs.{
  References, Walked, add_expected_references, add_snapshot_references,
  remove_expired_regular_files, remove_unreferenced_regular_files, directory_size,
}

-- A loop over the entries of a map that adds the references of each.
unfoldable pub add_each {ℓ} :
    {V : Type ℓ} → (References → V → References) → References → Map V → References
add_each add refs [] = refs
add_each add refs ((_, v) ∷ m) = add_each add (add refs v) m

abbrev pub add_session : Codec → References → Upload → References
add_session c refs u = add_expected_references refs (owner_key c u.owner_id) u.expected

abbrev pub add_pin : Codec → References → PinnedSnapshot → References
add_pin c refs pin = add_snapshot_references c refs pin.snapshot

abbrev pub add_stored : Codec → References → StoredSnapshot → References
add_stored c refs stored = add_snapshot_references c refs stored.snapshot

-- A hold of `mu` over the sessions and the pins; `Prune` drops the expired sessions first.
abbrev pub add_held : Codec → References → Sources → References
add_held c refs s = add_each (add_pin c) (add_each (add_session c) refs s.sessions) s.pins

unfoldable pub drop_expired : ℕ → Sources → Sources
drop_expired now s = record s { sessions = sweep_sessions now s.sessions }

-- The hold of `mu` over the snapshots, of which `Prune` drops the old ones.
unfoldable pub drop_old : Store → ℕ → Sources → Sources
drop_old env now s = record s {
  snapshots =
      delete_where (λ key stored. ltb (stored.updated_at + env.snapshot_retention) now) s.snapshots;
}

-- The references that `Prune` has behind its first two holds, and those of its last one.
unfoldable pub first_references : Store → ℕ → Sources → References
first_references env now s = add_held env.codec [] (drop_expired now s)

unfoldable pub second_references : Store → ℕ → References → Sources → References
second_references env now refs s =
    add_each (add_stored env.codec) refs (drop_old env now s).snapshots

abbrev pub total_size : Result ℕ → Result ℕ → Result ℕ
total_size (err e) r = err e
total_size (ok n) (err e) = err e
total_size (ok n) (ok m) = ok (n + m)

abbrev pub measured : Result ℕ → Walked → Sources → Result ℕ × Sources
measured (ok bytes) (ok n, files) s =
    (ok n, record s { blobs = files; quota = record s.quota { state_bytes = bytes } })
measured (err e) (ok n, files) s = (err e, record s { blobs = files })
measured total (err e, files) s = (err e, record s { blobs = files })

-- The removal of old blobs, for a positive retention of blobs.
unfoldable pub pruned_blobs :
    Store → (List String → Option String) → ℕ → References → List StateFile → Walked
pruned_blobs env removal now refs blobs =
    if ltb 0 env.blob_retention
    then remove_expired_regular_files env.codec removal now env.blob_retention (some refs) blobs
    else (ok 0, blobs)

-- That removal, and the measure of the state directory behind it; `others` are the files besides
-- the blobs.
unfoldable pub prune_blobs :
    Store
    → (List String → Option String)
    → ℕ
    → References
    → List StateFile
    → Sources
    → Result ℕ × Sources
prune_blobs env removal now refs others s =
    let walked = pruned_blobs env removal now refs s.blobs in
    measured (total_size (directory_size env.codec others) (directory_size env.codec walked.1))
      walked s

-- The last hold of `Prune`, as far as it is about blobs.
unfoldable pub finish_prune :
    Store
    → (List String → Option String)
    → ℕ
    → References
    → List StateFile
    → Sources
    → Result ℕ × Sources
finish_prune env removal now refs others s =
    let swept = drop_expired now s in
    prune_blobs env removal now (add_held env.codec refs swept) others swept

-- Prune over the blobs, with nothing between its holds of the lock.
unfoldable pub prune :
    Store → (List String → Option String) → ℕ → List StateFile → Sources → Result ℕ × Sources
prune env removal now others s =
    let a = drop_expired now s in
    let refs = first_references env now s in
    let b = drop_old env now a in
    finish_prune env removal now (second_references env now refs a) others b

-- CollectUnreferencedBlobs, with nothing between its holds of the lock.
unfoldable pub collect_unreferenced_blobs :
    Store → (List String → Option String) → List StateFile → Sources → Result ℕ × Sources
collect_unreferenced_blobs env removal others s =
    let refs =
      add_held env.codec (add_each (add_stored env.codec) (add_held env.codec [] s) s.snapshots)
        s in
    let walked = remove_unreferenced_regular_files env.codec removal refs s.blobs in
    measured (total_size (directory_size env.codec others) (directory_size env.codec walked.1))
      walked s
