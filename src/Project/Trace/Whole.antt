-- ===== src/Project/Trace/Whole.antt =====
-- No stored snapshot ever misses a blob.
use latexmk.Project.Trace.Uploads.{Whole, commit-Whole, empty-Whole, kept_Whole, put_blob-Whole}
use latexmk.Prelude.{
  ℕ, ◌+◌, ◌≡◌, refl, sym, ap, ◌∙◌, subst, String, true, false, Option, none, some, List, lookup,
  lookup-delete, lookup-delete_where, Distinct, surviving, delete-Distinct, delete_where-Distinct,
  Result, ltb, arith, inl, inr, Bool-cases,
}
use latexmk.Protocol.{UploadPlanRequest}
use latexmk.Project.State.{StoredSnapshot, StateFile, Store, Sources, empty}
use latexmk.Project.Blobs.{
  References, expired_verdict, unreferenced_verdict, remove_expired_regular_files,
  remove_unreferenced_regular_files,
}
use latexmk.Project.Uploads.{plan}
use latexmk.Project.Puts.Change.{put_blob-Change}
use latexmk.Project.Commits.{delete_snapshot, delete_if}
use latexmk.Project.Sweep.{
  drop_expired, drop_old, pruned_blobs, prune_blobs, finish_prune, prune,
  collect_unreferenced_blobs,
}
use latexmk.Project.Sweep.Spared.{
  measured-Swept, measured_blobs, prune-Kept, collect_unreferenced_blobs-Kept,
}
use latexmk.Project.Trace.{Step, Steps}
use latexmk.Project.Trace.Blobs.{IsCollisionFree, IsHonest, walk-IsHonest}
use latexmk.Project.Trace.Sessions.{
  plan-Sized, plan_rest, prune-Sized, collect_unreferenced_blobs-Sized,
}

lookup-drop_old :
    (env : Store) (now : ℕ) (s : Sources) (key : String) (st : StoredSnapshot)
    → Distinct s.snapshots
    → lookup key (drop_old env now s).snapshots ≡ some st
    → lookup key s.snapshots ≡ some st
unfolding drop_old
lookup-drop_old env now s key st h e = survivor (lookup key s.snapshots) (
    sym (
      lookup-delete_where key (λ k x. ltb (x.updated_at + env.snapshot_retention) now) s.snapshots
        h)
    ∙ e)
  where
    survivor :
        (o : Option StoredSnapshot)
        → surviving (λ x. ltb (x.updated_at + env.snapshot_retention) now) o ≡ some st
        → o ≡ some st
    survivor none q = ground arith
    survivor (some x) q = elim (Bool-cases (ltb (x.updated_at + env.snapshot_retention) now)) [
      | inl t ↦ ground (arith, q, t)
      | inr t ↦ sym (ap (λ b. elim b [ true ↦ none | false ↦ some x ]) t) ∙ q
    ]

drop_old-Distinct :
    (env : Store) (now : ℕ) (s : Sources)
    → Distinct s.snapshots
    → Distinct (drop_old env now s).snapshots
unfolding drop_old
drop_old-Distinct env now s h =
    delete_where-Distinct (λ key x. ltb (x.updated_at + env.snapshot_retention) now) s.snapshots h

prune_snapshots :
    (env : Store) (removal : List String → Option String) (now : ℕ) (others : List StateFile)
    (s : Sources)
    → (prune env removal now others s).1.snapshots ≡ (drop_old env now s).snapshots
unfolding prune finish_prune prune_blobs drop_expired drop_old
prune_snapshots env removal now others s = (measured-Swept _ _ _).snapshots

pruned_blobs-IsHonest :
    (env : Store) (P : List ℕ → Type 0) (removal : List String → Option String) (now : ℕ)
    (refs : References) (files : List StateFile)
    → IsHonest env P files
    → IsHonest env P (pruned_blobs env removal now refs files).1
unfolding pruned_blobs remove_expired_regular_files
pruned_blobs-IsHonest env P removal now refs files h =
    elim (Bool-cases (ltb 0 env.blob_retention)) [
      | inl e ↦
          rw (pruned_blobs, e)
            (walk-IsHonest env P removal
              (expired_verdict env.codec now env.blob_retention (some refs)) files h)
      | inr e ↦ rw (pruned_blobs, e) h
    ]

prune-IsHonest :
    (env : Store) (P : List ℕ → Type 0) (removal : List String → Option String) (now : ℕ)
    (others : List StateFile) (s : Sources)
    → IsHonest env P s.blobs
    → IsHonest env P (prune env removal now others s).1.blobs
unfolding prune finish_prune prune_blobs drop_expired drop_old
prune-IsHonest env P removal now others s h =
    subst (IsHonest env P) (sym (measured_blobs _ _ _))
      (pruned_blobs-IsHonest env P removal now _ s.blobs h)

prune-Whole :
    (env : Store) (P : List ℕ → Type 0) (removal : List String → Option String) (now : ℕ)
    (others : List StateFile) (s : Sources)
    → Whole env P s
    → Whole env P (prune env removal now others s).1
prune-Whole env P removal now others s h = record {
  honest = prune-IsHonest env P removal now others s h.honest;
  sized = prune-Sized env removal now others s h.sized;
  distinct =
      subst Distinct (sym (prune_snapshots env removal now others s))
        (drop_old-Distinct env now s h.distinct);
  complete = λ key st e. (prune-Kept env removal now others s).of_snapshots key st e (
      h.complete key st (
        lookup-drop_old env now s key st h.distinct
          (subst (λ m. lookup key m ≡ some st) (prune_snapshots env removal now others s) e)));
}

collect-IsHonest :
    (env : Store) (P : List ℕ → Type 0) (removal : List String → Option String)
    (others : List StateFile) (s : Sources)
    → IsHonest env P s.blobs
    → IsHonest env P (collect_unreferenced_blobs env removal others s).1.blobs
unfolding collect_unreferenced_blobs remove_unreferenced_regular_files
collect-IsHonest env P removal others s h =
    subst (IsHonest env P) (sym (measured_blobs _ _ s))
      (walk-IsHonest env P removal (unreferenced_verdict env.codec _) s.blobs h)

collect_snapshots :
    (env : Store) (removal : List String → Option String) (others : List StateFile) (s : Sources)
    → (collect_unreferenced_blobs env removal others s).1.snapshots ≡ s.snapshots
unfolding collect_unreferenced_blobs
collect_snapshots env removal others s = (measured-Swept _ _ s).snapshots

collect-Whole :
    (env : Store) (P : List ℕ → Type 0) (removal : List String → Option String)
    (others : List StateFile) (s : Sources)
    → Whole env P s
    → Whole env P (collect_unreferenced_blobs env removal others s).1
collect-Whole env P removal others s h = record {
  honest = collect-IsHonest env P removal others s h.honest;
  sized = collect_unreferenced_blobs-Sized env removal others s h.sized;
  distinct = subst Distinct (sym (collect_snapshots env removal others s)) h.distinct;
  complete = λ key st e.
      (collect_unreferenced_blobs-Kept env removal others s).of_snapshots key st e (
        h.complete key st
          (subst (λ m. lookup key m ≡ some st) (collect_snapshots env removal others s) e));
}

delete_if-Whole :
    (env : Store) (P : List ℕ → Type 0) (key : String) (o : Option StoredSnapshot) (s : Sources)
    → Whole env P s
    → Whole env P (delete_if key o s).1
delete_if-Whole env P key none s h = h
delete_if-Whole env P key (some x) s h = record {
  honest = h.honest;
  sized = h.sized;
  distinct = delete-Distinct key s.snapshots h.distinct;
  complete = λ k st e. h.complete k st (ground (arith, e, lookup-delete key k s.snapshots));
}

delete_snapshot-Whole :
    (env : Store) (P : List ℕ → Type 0) (owner project : String) (s : Sources)
    → Whole env P s
    → Whole env P (delete_snapshot owner project s).1
unfolding delete_snapshot
delete_snapshot-Whole env P owner project s h = delete_if-Whole env P _ _ s h

plan-Whole :
    (env : Store) (P : List ℕ → Type 0) (owner : String) (request : UploadPlanRequest)
    (id : Result String) (now : ℕ) (s : Sources)
    → Whole env P s
    → Whole env P (plan env owner request id now s).1
plan-Whole env P owner request id now s h =
    let same = plan_rest env owner request id now s in
    kept_Whole env P s _ same.0 same.1 (plan-Sized env owner request id now s h.sized) h

Step-Whole :
    (env : Store) (P : List ℕ → Type 0) {a b : Sources}
    → IsCollisionFree env P
    → Step env P a b
    → Whole env P a
    → Whole env P b
Step-Whole env P free (Step.planned owner request id now) h =
    plan-Whole env P owner request id now _ h
Step-Whole env P {a = a} free (Step.uploaded io body owner id digest now known) h =
    put_blob-Whole env P owner body.bytes a _ known free
      (put_blob-Change env io body owner id digest now a) h
Step-Whole env P free (Step.committed owner id now later) h =
    commit-Whole env P owner id now later _ h
Step-Whole env P free (Step.deleted owner project) h = delete_snapshot-Whole env P owner project _ h
Step-Whole env P {a = a} free (Step.pinned found) h = kept_Whole env P a _ refl refl h.sized h
Step-Whole env P {a = a} free (Step.unpinned id) h = kept_Whole env P a _ refl refl h.sized h
Step-Whole env P free (Step.pruned removal now others) h = prune-Whole env P removal now others _ h
Step-Whole env P free (Step.collected removal others) h = collect-Whole env P removal others _ h

-- Whatever plans, uploads, commits, deletions, pins and sweeps run one after another on an empty
-- store, in whatever order and with whatever answers of the file system: every file of every
-- stored snapshot is stored with its size, where no two uploaded contents of one digest differ in
-- length.
pub Steps-Whole :
    (env : Store) (P : List ℕ → Type 0) (max : ℕ) {s : Sources}
    → IsCollisionFree env P
    → Steps env P (empty max) s
    → Whole env P s
Steps-Whole env P max free Steps.done = empty-Whole env P max
Steps-Whole env P max free (Steps.next steps step) =
    Step-Whole env P free step (Steps-Whole env P max free steps)
