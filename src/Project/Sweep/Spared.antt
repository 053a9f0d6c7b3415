-- ===== src/Project/Sweep/Spared.antt =====
-- No sweep removes a blob that a snapshot, a pin or a session of the store needs.
use latexmk.Prelude.{
  ℕ, ◌≡◌, refl, sym, subst, String, true, Option, some, List, [], ◌∷◌, All, lookup, Result, ok, err,
  inl, inr, ltb, Bool-cases,
}
use latexmk.Protocol.{ProjectFile}
use latexmk.Project.Names.{Codec, valid_sha256, owner_key, reference_key}
use latexmk.Project.Pins.{Snapshot, PinnedSnapshot}
use latexmk.Project.State.{Upload, StoredSnapshot, StateFile, Store, Sources}
use latexmk.Project.Blobs.{
  References, Verdict, Walked, blob_path, has_blob, walk, expired_verdict, unreferenced_verdict,
  remove_expired_regular_files, remove_unreferenced_regular_files,
}
use latexmk.Project.Sweep.{
  add_each, add_stored, add_held, drop_expired, drop_old, second_references, measured, pruned_blobs,
  prune_blobs, finish_prune, first_references, prune, collect_unreferenced_blobs,
}
use latexmk.Project.Sweep.Kept.{
  Holds, Referenced, Spares, has_blob-walk, has_blob-valid_sha256, expired_verdict-Spares,
  unreferenced_verdict-Spares,
}
use latexmk.Project.Sweep.Collected.{
  Wanted, Referenced-IsMonotone, add_held-keeps, add_held-session, add_held-pin, add_each_stored,
}

-- Every file of a snapshot is stored with its size.
abbrev pub HasFiles : Codec → List StateFile → Snapshot → Type 0
HasFiles c blobs s = All (λ f. has_blob c blobs s.owner_id f.sha256 f.size ≡ true) s.files

-- The blobs behind a step, for those that the store holds behind it.
pub record Kept (c : Codec) (before : List StateFile) (after : Sources) : Type 0 where
  pub of_sessions :
      (id digest : String) (size : ℕ) (u : Upload)
      → lookup id after.sessions ≡ some u
      → lookup digest u.expected ≡ some size
      → has_blob c before u.owner_id digest size ≡ true
      → has_blob c after.blobs u.owner_id digest size ≡ true
  pub of_pins :
      (id : String) (pin : PinnedSnapshot)
      → lookup id after.pins ≡ some pin
      → HasFiles c before pin.snapshot
      → HasFiles c after.blobs pin.snapshot
  pub of_snapshots :
      (key : String) (st : StoredSnapshot)
      → lookup key after.snapshots ≡ some st
      → HasFiles c before st.snapshot
      → HasFiles c after.blobs st.snapshot

-- A set of blobs from which only some that no reference names are gone.
Thins : Codec → References → List StateFile → List StateFile → Type 0
Thins c refs before after =
    (owner digest : String) (size : ℕ)
    → Holds refs (reference_key (owner_key c owner) digest)
    → has_blob c before owner digest size ≡ true
    → has_blob c after owner digest size ≡ true

walk-Thins :
    (c : Codec) (refs : References) (removal : List String → Option String)
    (verdict : StateFile → Verdict) (files : List StateFile)
    → ((owner digest : String)
        → valid_sha256 c digest ≡ true
        → Holds refs (reference_key (owner_key c owner) digest)
        → Spares verdict (blob_path c owner digest))
    → Thins c refs files (walk removal verdict files).1
unfolding Thins
walk-Thins c refs removal verdict files spared owner digest size h e =
    has_blob-walk c removal verdict files owner digest size
      (spared owner digest (has_blob-valid_sha256 c files owner digest size e) h) e

HasFiles-Thins :
    (c : Codec) (refs : References) (before after : List StateFile) (owner : String)
    (files : List ProjectFile)
    → Thins c refs before after
    → Referenced c refs (owner_key c owner) files
    → All (λ f. has_blob c before owner f.sha256 f.size ≡ true) files
    → All (λ f. has_blob c after owner f.sha256 f.size ≡ true) files
unfolding Thins
HasFiles-Thins c refs before after owner [] t r h = tt
HasFiles-Thins c refs before after owner (f ∷ files) t (r, rs) (h, hs) = (
  t owner f.sha256 f.size (r (has_blob-valid_sha256 c before owner f.sha256 f.size h)) h,
  HasFiles-Thins c refs before after owner files t rs hs,
)

-- The sources with other blobs.
pub record Swept (a b : Sources) : Type 0 where
  pub sessions : b.sessions ≡ a.sessions
  pub snapshots : b.snapshots ≡ a.snapshots
  pub pins : b.pins ≡ a.pins

pub measured-Swept : (total : Result ℕ) (w : Walked) (s : Sources) → Swept s (measured total w s).1
measured-Swept (ok n) (ok m, files) s = record { sessions = refl; snapshots = refl; pins = refl }
measured-Swept (err e) (ok m, files) s = record { sessions = refl; snapshots = refl; pins = refl }
measured-Swept total (err e, files) s = record { sessions = refl; snapshots = refl; pins = refl }

pub measured_blobs :
    (total : Result ℕ) (w : Walked) (s : Sources) → (measured total w s).1.blobs ≡ w.1
measured_blobs (ok n) (ok m, files) s = refl
measured_blobs (err e) (ok m, files) s = refl
measured_blobs total (err e, files) s = refl

-- References that name everything that the store holds.
record Names (c : Codec) (refs : References) (s : Sources) : Type 0 where
  sessions :
      (id digest : String) (size : ℕ) (u : Upload)
      → lookup id s.sessions ≡ some u
      → lookup digest u.expected ≡ some size
      → Holds refs (reference_key (owner_key c u.owner_id) digest)
  pins :
      (id : String) (pin : PinnedSnapshot)
      → lookup id s.pins ≡ some pin
      → Wanted c refs pin.snapshot
  snapshots :
      (key : String) (st : StoredSnapshot)
      → lookup key s.snapshots ≡ some st
      → Wanted c refs st.snapshot

Names-Kept :
    (c : Codec) (refs : References) (s : Sources) (total : Result ℕ) (w : Walked)
    → Names c refs s
    → Thins c refs s.blobs w.1
    → Kept c s.blobs (measured total w s).1
unfolding Thins
Names-Kept c refs s total w n t =
    let q = measured-Swept total w s in
    let blobs = sym (measured_blobs total w s) in
    record {
      of_sessions = λ id digest size u h e. λ b.
          subst (λ l. has_blob c l u.owner_id digest size ≡ true) blobs
            (t u.owner_id digest size
              (n.sessions id digest size u (subst (λ m. lookup id m ≡ some u) q.sessions h) e) b);
      of_pins = λ id pin h b.
          subst (λ l. HasFiles c l pin.snapshot) blobs
            (HasFiles-Thins c refs s.blobs w.1 pin.snapshot.owner_id pin.snapshot.files t
              (n.pins id pin (subst (λ m. lookup id m ≡ some pin) q.pins h)) b);
      of_snapshots = λ key st h b.
          subst (λ l. HasFiles c l st.snapshot) blobs
            (HasFiles-Thins c refs s.blobs w.1 st.snapshot.owner_id st.snapshot.files t
              (n.snapshots key st (subst (λ m. lookup key m ≡ some st) q.snapshots h)) b);
    }

add_held-Names :
    (c : Codec) (refs : References) (s : Sources)
    → Names c (add_held c (add_each (add_stored c) refs s.snapshots) s) s
add_held-Names c refs s = record {
  sessions = λ id digest size u h e.
      add_held-session c (add_each (add_stored c) refs s.snapshots) id digest size u s h e;
  pins = λ id pin h. add_held-pin c (add_each (add_stored c) refs s.snapshots) id pin s h;
  snapshots = λ key st h.
      add_held-keeps c (λ r. Wanted c r st.snapshot)
        (Referenced-IsMonotone c (owner_key c st.snapshot.owner_id) st.snapshot.files)
        (add_each (add_stored c) refs s.snapshots) s (add_each_stored c refs key st s.snapshots h);
}

expired-Thins :
    (env : Store) (removal : List String → Option String) (now : ℕ) (refs : References)
    (files : List StateFile)
    → Thins env.codec refs files
        (remove_expired_regular_files env.codec removal now env.blob_retention (some refs) files).1
unfolding remove_expired_regular_files
expired-Thins env removal now refs files =
    walk-Thins env.codec refs removal (expired_verdict env.codec now env.blob_retention (some refs))
      files (expired_verdict-Spares env.codec now env.blob_retention refs)

Thins-refl : (c : Codec) (refs : References) (files : List StateFile) → Thins c refs files files
unfolding Thins
Thins-refl c refs files owner digest size h e = e

pruned_blobs-Thins :
    (env : Store) (removal : List String → Option String) (now : ℕ) (refs : References)
    (files : List StateFile)
    → Thins env.codec refs files (pruned_blobs env removal now refs files).1
unfolding pruned_blobs
pruned_blobs-Thins env removal now refs files = elim (Bool-cases (ltb 0 env.blob_retention)) [
  | inl e ↦ rw (pruned_blobs, e) (expired-Thins env removal now refs files)
  | inr e ↦ rw (pruned_blobs, e) (Thins-refl env.codec refs files)
]

prune_blobs-Kept :
    (env : Store) (removal : List String → Option String) (now : ℕ) (refs : References)
    (others : List StateFile) (s : Sources)
    → Names env.codec refs s
    → Kept env.codec s.blobs (prune_blobs env removal now refs others s).1
unfolding prune_blobs
prune_blobs-Kept env removal now refs others s n =
    Names-Kept env.codec refs s _ (pruned_blobs env removal now refs s.blobs) n
      (pruned_blobs-Thins env removal now refs s.blobs)

-- Whatever the other methods did before the last hold of `Prune`, as long as it alone changed the
-- snapshots since it read them (`snapshotMu`): every blob that was stored at that hold, and that a
-- snapshot, a pin or an unexpired session of the store needs then, is still stored behind it, also
-- where the removal stops with an error.
pub finish_prune-Kept :
    (env : Store) (removal : List String → Option String) (now : ℕ) (refs : References)
    (others : List StateFile) (a b : Sources)
    → b.snapshots ≡ (drop_old env now a).snapshots
    → let later = (finish_prune env removal now (second_references env now refs a) others b).1 in
      Kept env.codec b.blobs later
unfolding finish_prune second_references drop_expired
finish_prune-Kept env removal now refs others a b h =
    prune_blobs-Kept env removal now _ others (drop_expired now b) (
      subst
        (λ m.
          Names env.codec
            (add_held env.codec (add_each (add_stored env.codec) refs m) (drop_expired now b))
            (drop_expired now b))
        h (add_held-Names env.codec refs (drop_expired now b)))

pub prune-Kept :
    (env : Store) (removal : List String → Option String) (now : ℕ) (others : List StateFile)
    (s : Sources)
    → Kept env.codec s.blobs (prune env removal now others s).1
unfolding prune drop_expired drop_old
prune-Kept env removal now others s =
    finish_prune-Kept env removal now (first_references env now s) others (drop_expired now s)
      (drop_old env now (drop_expired now s)) refl

unreferenced-Thins :
    (c : Codec) (removal : List String → Option String) (refs : References) (files : List StateFile)
    → Thins c refs files (remove_unreferenced_regular_files c removal refs files).1
unfolding remove_unreferenced_regular_files
unreferenced-Thins c removal refs files =
    walk-Thins c refs removal (unreferenced_verdict c refs) files
      (unreferenced_verdict-Spares c refs)

-- The same of `CollectUnreferencedBlobs`, for all sessions that the store holds.
pub collect_unreferenced_blobs-Kept :
    (env : Store) (removal : List String → Option String) (others : List StateFile) (s : Sources)
    → Kept env.codec s.blobs (collect_unreferenced_blobs env removal others s).1
unfolding collect_unreferenced_blobs
collect_unreferenced_blobs-Kept env removal others s =
    Names-Kept env.codec _ s _ _ (add_held-Names env.codec (add_held env.codec [] s) s)
      (unreferenced-Thins env.codec removal _ s.blobs)
