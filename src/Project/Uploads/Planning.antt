-- ===== src/Project/Uploads/Planning.antt =====
-- What `Plan` makes sure of before it opens an upload session.
use text.Mathlib.Text.{◌==◌ as same}
use latexmk.Prelude.{
  ℕ, ◌+◌, ◌-◌, ◌≤◌, ◌≡◌, ◌≢◌, refl, subst, String, Bool, true, false, not, Option, none, some, List,
  [], ◌∷◌, All, length, Map, lookup, put, lookup-put, lookup-put_self, Result, ok, err, passed, ltb,
  arith, Apart,
}
use latexmk.Protocol.{ProjectFile, UploadPlanRequest, UploadPlan}
use latexmk.Project.Names.{valid_project_path, valid_sha256, valid_project_id}
use latexmk.Project.State.{Store, Sources}
use latexmk.Project.Snapshots.{path_of, is_empty}
use latexmk.Project.Snapshots.Canonical.{IsValidFile}
use latexmk.Project.Commits.{sum_sizes}
use latexmk.Project.Uploads.{
  has, differs, plan_files, accept_manifest, missing_digests, store_plan, open_session, begin_plan,
  plan, swept, is_full,
}
use latexmk.Project.Blobs.{has_blob}

record Planned (env : Store) (files : List ProjectFile) (paths : Map (Unit {0})) (expected : Map ℕ)
    (total : ℕ) (out : Map ℕ) : Type 0 where
  fresh : All (λ f. lookup f.path paths ≡ none) files
  apart : Apart path_of files
  valid : All (IsValidFile env.codec) files
  bounded : total + sum_sizes files ≤ env.max_expanded_bytes
  sized : All (λ f. lookup f.sha256 out ≡ some f.size) files
  kept : (d : String) (n : ℕ) → lookup d expected ≡ some n → lookup d out ≡ some n

has-none : (o : Option (Unit {0})) → has o ≡ false → o ≡ none
has-none none h = refl
has-none (some u) h = ground arith

not-false : (b : Bool) → not b ≡ false → b ≡ true
not-false b h = ground arith

-- Behind a write to the paths, what was not seen then was not seen before, and is another path.
unseen :
    (p : String) (paths : Map (Unit {0})) (files : List ProjectFile)
    → All (λ f. lookup f.path (put p tt paths) ≡ none) files
    → All (λ f. p ≢ f.path) files × All (λ f. lookup f.path paths ≡ none) files
unseen p paths [] h = (tt, tt)
unseen p paths (f ∷ files) (h, hs) =
    let r = unseen p paths files hs in
    (
      (ground (arith, h, lookup-put p f.path tt paths), r.0),
      (ground (arith, h, lookup-put p f.path tt paths), r.1),
    )

kept_put :
    (key : String) (size : ℕ) (m : Map ℕ) (d : String) (n : ℕ)
    → differs size (lookup key m) ≡ false
    → lookup d m ≡ some n
    → lookup d (put key size m) ≡ some n
kept_put key size m d n h e = ground (arith, h, e, lookup-put key d size m)

plan_files-Planned :
    (env : Store) (files : List ProjectFile) (paths : Map (Unit {0})) (expected : Map ℕ) (total : ℕ)
    (out : Map ℕ)
    → total ≤ env.max_expanded_bytes
    → plan_files env files paths expected total ≡ ok out
    → Planned env files paths expected total out
unfolding plan_files
plan_files-Planned env [] paths expected total out b h = record {
  fresh = tt;
  apart = tt;
  valid = tt;
  bounded = ground (arith, b);
  sized = tt;
  kept = λ d n e. subst (λ m. lookup d m ≡ some n) (cc h) e;
}
plan_files-Planned env (f ∷ files) paths expected total out b h =
    let p = passed (not (valid_project_path env.codec f.path)) "invalid project path" _ out h in
    let q = passed (has (lookup f.path paths)) "duplicate project path" _ out p.1 in
    let v = passed (not (valid_sha256 env.codec f.sha256)) "invalid manifest entry" _ out q.1 in
    let d =
      passed (differs f.size (lookup f.sha256 expected)) "inconsistent size for digest" _ out v.1 in
    let l =
      passed (ltb (env.max_expanded_bytes - total) f.size) "project expands beyond the limit" _ out
        d.1 in
    let rest =
      plan_files-Planned env files (put f.path tt paths) (put f.sha256 f.size expected)
        (total + f.size) out (ground (arith, b, l.0)) l.1 in
    let new = unseen f.path paths files rest.fresh in
    record {
      fresh = (has-none (lookup f.path paths) q.0, new.1);
      apart = (new.0, rest.apart);
      valid = ((not-false _ p.0, not-false _ v.0), rest.valid);
      bounded = omega (arith, rest.bounded);
      sized = (rest.kept f.sha256 f.size (lookup-put_self f.sha256 f.size expected), rest.sized);
      kept = λ key n e. rest.kept key n (kept_put f.sha256 f.size expected key n d.0 e);
    }

-- How a plan that succeeded went: what each step of it gave.
pub record Opened (env : Store) (owner : String) (request : UploadPlanRequest) (now : ℕ)
    (p : UploadPlan) (before : Sources) (answer : Result UploadPlan × Sources) : Type 0 where
  pub expected : Map ℕ
  pub id : String
  pub missing : List String
  pub accepted : accept_manifest env owner request ≡ ok expected
  pub found : missing_digests env (has_blob env.codec before.blobs owner) expected ≡ ok missing
  pub ended : answer ≡ store_plan owner request expected id now (ok missing) (swept now before)
  pub planned : (store_plan owner request expected id now (ok missing) (swept now before)).0 ≡ ok p

module _ (env : Store) (owner : String) (request : UploadPlanRequest) (now : ℕ) (p : UploadPlan)
    (before : Sources) where
  store_plan-Opened :
      (expected : Map ℕ) (id : String) (r : Result (List String))
      → accept_manifest env owner request ≡ ok expected
      → missing_digests env (has_blob env.codec before.blobs owner) expected ≡ r
      → (store_plan owner request expected id now r (swept now before)).0 ≡ ok p
      → Opened env owner request now p before
          (store_plan owner request expected id now r (swept now before))
  store_plan-Opened expected id (err e) a f h = ground arith
  store_plan-Opened expected id (ok ms) a f h = record {
    expected = expected;
    id = id;
    missing = ms;
    accepted = a;
    found = f;
    ended = refl;
    planned = h;
  }

  open_session-Opened :
      (full : Bool) (expected : Map ℕ) (id : String)
      → accept_manifest env owner request ≡ ok expected
      → (open_session full env owner request expected id now (swept now before)).0 ≡ ok p
      → Opened env owner request now p before
          (open_session full env owner request expected id now (swept now before))
  open_session-Opened true expected id a h = ground arith
  open_session-Opened false expected id a h =
      store_plan-Opened expected id
        (missing_digests env (has_blob env.codec before.blobs owner) expected) a refl h

  begin_plan-Opened :
      (r : Result (Map ℕ)) (id : Result String)
      → accept_manifest env owner request ≡ r
      → (begin_plan env owner request r id now before).0 ≡ ok p
      → Opened env owner request now p before (begin_plan env owner request r id now before)
  begin_plan-Opened (err e) id a h = ground arith
  begin_plan-Opened (ok expected) (err e) a h = ground arith
  begin_plan-Opened (ok expected) (ok id) a h =
      open_session-Opened (is_full env (swept now before)) expected id a h

  pub plan-Opened :
      (id : Result String)
      → (plan env owner request id now before).0 ≡ ok p
      → Opened env owner request now p before (plan env owner request id now before)
  unfolding plan
  plan-Opened id h = begin_plan-Opened (accept_manifest env owner request) id refl h

pub accept_manifest-plan_files :
    (env : Store) (owner : String) (request : UploadPlanRequest) (expected : Map ℕ)
    → accept_manifest env owner request ≡ ok expected
    → plan_files env request.files [] [] 0 ≡ ok expected
unfolding accept_manifest
accept_manifest-plan_files env owner request expected h =
    let p = passed (same owner "") "authenticated owner is required" _ expected h in
    let q =
      passed (not (valid_project_id request.project_id)) "project ID is invalid" _ expected p.1 in
    let r =
      passed (is_empty request.files) "project must contain at least one file" _ expected q.1 in
    (passed (ltb env.max_files (length request.files)) "project contains too many files" _ expected
      r.1).1

-- The manifest that `Plan` accepts.
pub record AcceptedManifest (env : Store) (owner : String) (request : UploadPlanRequest)
    (expected : Map ℕ) : Type 0 where
  pub owned : same owner "" ≡ false
  pub named : valid_project_id request.project_id ≡ true
  pub some_file : is_empty request.files ≡ false
  pub counted : length request.files ≤ env.max_files
  pub apart : Apart path_of request.files
  pub valid : All (IsValidFile env.codec) request.files
  pub bounded : sum_sizes request.files ≤ env.max_expanded_bytes
  pub sized : All (λ f. lookup f.sha256 expected ≡ some f.size) request.files

-- Where the manifest of a plan is accepted, it has a valid project and at least one file and at
-- most `MaxFiles`; no two files have one path, every path and digest is valid, the sizes sum up to at
-- most `MaxExpandedBytes`, and each digest is to have the size that every file of it has.
pub accept_manifest-AcceptedManifest :
    (env : Store) (owner : String) (request : UploadPlanRequest) (expected : Map ℕ)
    → accept_manifest env owner request ≡ ok expected
    → AcceptedManifest env owner request expected
unfolding accept_manifest
accept_manifest-AcceptedManifest env owner request expected h =
    let p = passed (same owner "") "authenticated owner is required" _ expected h in
    let q =
      passed (not (valid_project_id request.project_id)) "project ID is invalid" _ expected p.1 in
    let r =
      passed (is_empty request.files) "project must contain at least one file" _ expected q.1 in
    let l =
      passed (ltb env.max_files (length request.files)) "project contains too many files" _ expected
        r.1 in
    let planned =
      plan_files-Planned env request.files [] [] 0 expected (ground arith)
        (accept_manifest-plan_files env owner request expected h) in
    record {
      owned = p.0;
      named = not-false _ q.0;
      some_file = r.0;
      counted = ground (arith, l.0);
      apart = planned.apart;
      valid = planned.valid;
      bounded = omega (arith, planned.bounded);
      sized = planned.sized;
    }
