-- ===== src/Project/Trace/Sessions.antt =====
-- Every upload session expects of each of its files the size that its manifest gives.
use text.Mathlib.Text.{◌==◌ as same}
use latexmk.Prelude.{
  ℕ, ◌≡◌, refl, sym, subst, String, Bool, true, false, Option, none, some, List, All, Map, lookup,
  Result, ok, err, ltb, inl, inr, Bool-cases, Values, Values-lookup, Values-put, Values-delete,
  Values-delete_where,
}
use latexmk.Protocol.{UploadPlanRequest}
use latexmk.Project.Pins.{Snapshot}
use latexmk.Project.State.{Upload, StateFile, Store, Sources}
use latexmk.Project.Blobs.{has_blob}
use latexmk.Project.Uploads.{
  accept_manifest, missing_digests, store_plan, open_session, is_full, begin_plan, plan, swept,
  sweep_sessions,
}
use latexmk.Project.Uploads.Planning.{accept_manifest-AcceptedManifest}
use latexmk.Project.Commits.{
  begin_with, begin_commit, release_session, release, save, finish_with, continue_commit,
  checked_snapshot, commit,
}
use latexmk.Project.Commits.Outcome.{begun}
use latexmk.Project.Sweep.{
  drop_expired, drop_old, prune_blobs, finish_prune, prune, collect_unreferenced_blobs,
}
use latexmk.Project.Sweep.Spared.{measured-Swept}

abbrev pub IsSized : Upload → Type 0
IsSized u = All (λ f. lookup f.sha256 u.expected ≡ some f.size) u.files

abbrev pub Sized : Sources → Type 0
Sized s = Values IsSized s.sessions

swept-Sized : (now : ℕ) (s : Sources) → Sized s → Values IsSized (sweep_sessions now s.sessions)
unfolding sweep_sessions
swept-Sized now s h = Values-delete_where IsSized (λ id u. ltb u.expires now) s.sessions h

begin_plan-Sized :
    (env : Store) (owner : String) (request : UploadPlanRequest) (r : Result (Map ℕ))
    (id : Result String) (now : ℕ) (s : Sources)
    → accept_manifest env owner request ≡ r
    → Sized s
    → Sized (begin_plan env owner request r id now s).1
begin_plan-Sized env owner request (err e) id now s a h = h
begin_plan-Sized env owner request (ok expected) (err e) now s a h = h
begin_plan-Sized env owner request (ok expected) (ok id) now s a h =
    opened (is_full env (swept now s))
  where
    stored :
        (r : Result (List String))
        → Sized (store_plan owner request expected id now r (swept now s)).1
    stored (err e) = swept-Sized now s h
    stored (ok ms) =
        Values-put IsSized id _ (sweep_sessions now s.sessions) (swept-Sized now s h)
          (accept_manifest-AcceptedManifest env owner request expected a).sized

    opened :
        (full : Bool) → Sized (open_session full env owner request expected id now (swept now s)).1
    opened true = swept-Sized now s h
    opened false = stored (missing_digests env (has_blob env.codec s.blobs owner) expected)

pub plan-Sized :
    (env : Store) (owner : String) (request : UploadPlanRequest) (id : Result String) (now : ℕ)
    (s : Sources)
    → Sized s
    → Sized (plan env owner request id now s).1
unfolding plan
plan-Sized env owner request id now s h =
    begin_plan-Sized env owner request (accept_manifest env owner request) id now s refl h

begin_with-Sized :
    (owner id : String) (now : ℕ) (o : Option Upload) (s : Sources)
    → lookup id s.sessions ≡ o
    → Sized s
    → Sized (begin_with owner id now o s).1
begin_with-Sized owner id now none s l h = h
begin_with-Sized owner id now (some u) s l h =
    begun_cases (ltb u.expires now) (same u.owner_id owner) u.committing
  where
    begun_cases : (e o c : Bool) → Sized (begun id u s e o c).1
    begun_cases true o c = Values-delete IsSized id s.sessions h
    begun_cases false false c = h
    begun_cases false true true = h
    begun_cases false true false =
        Values-put IsSized id (record u { committing = true }) s.sessions h
          (Values-lookup IsSized id u s.sessions h l)

release_session-Sized :
    (owner id : String) (o : Option Upload) (s : Sources)
    → lookup id s.sessions ≡ o
    → Sized s
    → Sized (release_session owner id o s)
release_session-Sized owner id none s l h = h
release_session-Sized owner id (some u) s l h = elim (Bool-cases (same u.owner_id owner)) [
  | inl e ↦ rw e (
      Values-put IsSized id (record u { committing = false }) s.sessions h
        (Values-lookup IsSized id u s.sessions h l))
  | inr e ↦ rw e h
]

finish_with-Sized :
    (owner id : String) (later : ℕ) (u : Upload) (r : Result Snapshot) (s : Sources)
    → Sized s
    → Sized (finish_with owner id later u r s).1
unfolding release save
finish_with-Sized owner id later u (err e) s h =
    release_session-Sized owner id (lookup id s.sessions) s refl h
finish_with-Sized owner id later u (ok found) s h = Values-delete IsSized id s.sessions h

continue_commit-Sized :
    (env : Store) (owner id : String) (later : ℕ) (began : Result Upload × Sources)
    → Sized began.1
    → Sized (continue_commit env owner id later began).1
continue_commit-Sized env owner id later (err e, s) h = h
continue_commit-Sized env owner id later (ok u, s) h =
    finish_with-Sized owner id later u (checked_snapshot env owner u s) s h

pub commit-Sized :
    (env : Store) (owner id : String) (now later : ℕ) (s : Sources)
    → Sized s
    → Sized (commit env owner id now later s).1
unfolding commit begin_commit
commit-Sized env owner id now later s h =
    continue_commit-Sized env owner id later (begin_commit owner id now s)
      (begin_with-Sized owner id now (lookup id s.sessions) s refl h)

pub prune-Sized :
    (env : Store) (removal : List String → Option String) (now : ℕ) (others : List StateFile)
    (s : Sources)
    → Sized s
    → Sized (prune env removal now others s).1
unfolding prune finish_prune prune_blobs drop_expired drop_old
prune-Sized env removal now others s h =
    subst (Values IsSized) (sym (measured-Swept _ _ _).sessions)
      (swept-Sized now (drop_expired now s) (swept-Sized now s h))

pub collect_unreferenced_blobs-Sized :
    (env : Store) (removal : List String → Option String) (others : List StateFile) (s : Sources)
    → Sized s
    → Sized (collect_unreferenced_blobs env removal others s).1
unfolding collect_unreferenced_blobs
collect_unreferenced_blobs-Sized env removal others s h =
    subst (Values IsSized) (sym (measured-Swept _ _ s).sessions) h

begin_plan_rest :
    (env : Store) (owner : String) (request : UploadPlanRequest) (r : Result (Map ℕ))
    (id : Result String) (now : ℕ) (s : Sources)
    → ((begin_plan env owner request r id now s).1.blobs ≡ s.blobs)
      × ((begin_plan env owner request r id now s).1.snapshots ≡ s.snapshots)
begin_plan_rest env owner request (err e) id now s = (refl, refl)
begin_plan_rest env owner request (ok expected) (err e) now s = (refl, refl)
begin_plan_rest env owner request (ok expected) (ok id) now s = opened (is_full env (swept now s))
  where
    stored :
        (r : Result (List String))
        → ((store_plan owner request expected id now r (swept now s)).1.blobs ≡ s.blobs)
          × ((store_plan owner request expected id now r (swept now s)).1.snapshots ≡ s.snapshots)
    stored (err e) = (refl, refl)
    stored (ok ms) = (refl, refl)

    opened :
        (full : Bool)
        → ((open_session full env owner request expected id now (swept now s)).1.blobs ≡ s.blobs)
          × ((open_session full env owner request expected id now (swept now s)).1.snapshots
              ≡ s.snapshots)
    opened true = (refl, refl)
    opened false = stored (missing_digests env (has_blob env.codec s.blobs owner) expected)

-- A plan changes neither the blobs nor the snapshots.
pub plan_rest :
    (env : Store) (owner : String) (request : UploadPlanRequest) (id : Result String) (now : ℕ)
    (s : Sources)
    → ((plan env owner request id now s).1.blobs ≡ s.blobs)
      × ((plan env owner request id now s).1.snapshots ≡ s.snapshots)
unfolding plan
plan_rest env owner request id now s =
    begin_plan_rest env owner request (accept_manifest env owner request) id now s
