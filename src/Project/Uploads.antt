-- ===== src/Project/Uploads.antt =====
-- Upload sessions and `Plan` (packages/server/internal/project/store.go), without a database. What
-- `Plan` does at each hold of `mu` is a function of its own.
pub mod Planning
pub mod Completion
use text.Mathlib.Text.{◌==◌ as same}
use latexmk.Prelude.{
  ℕ, suc, ◌+◌, ◌-◌, String, Bool, true, false, not, ◌&&◌, ◌||◌, Option, none, some, List, [], ◌∷◌,
  Map, lookup, put, delete, delete_where, Result, ok, err, ◌>>=◌, ◌>>◌, refuse, ltb, leb, ◌==◌,
  if◌then◌else◌, length, take, sort_by,
}
use latexmk.Protocol.{CompileRequest, ProjectFile, UploadPlanRequest, UploadPlan}
use latexmk.Project.Pins.{Snapshot}
use latexmk.Project.Names.{valid_project_id, valid_project_path, valid_sha256, snapshot_key}
use latexmk.Project.State.{Upload, StoredSnapshot, StateFile, Store, Sources, upload_lifetime}
use latexmk.Project.Publication.{
  Destination, Staging, StatePublication, Quota, stage_state, commit, close,
}
use latexmk.Project.Snapshots.{is_empty, new_snapshot}
use latexmk.Project.Blobs.{find_file, put_file, blob_path, has_blob}

abbrev pub has : Option (Unit {0}) → Bool
has none = false
has (some _) = true

abbrev pub differs : ℕ → Option ℕ → Bool
differs size none = false
differs size (some prior) = not (prior == size)

-- The loop of `Plan` over the files: the paths that it has seen, the size that each digest is to
-- have, and the sum of the sizes.
unfoldable pub plan_files : Store → List ProjectFile → Map (Unit {0}) → Map ℕ → ℕ → Result (Map ℕ)
plan_files env [] paths expected total = ok expected
plan_files env (file ∷ files) paths expected total = do
  refuse (not (valid_project_path env.codec file.path)) "invalid project path"
  refuse (has (lookup file.path paths)) "duplicate project path"
  refuse (not (valid_sha256 env.codec file.sha256)) "invalid manifest entry"
  refuse (differs file.size (lookup file.sha256 expected)) "inconsistent size for digest"
  refuse (ltb (env.max_expanded_bytes - total) file.size) "project expands beyond the limit"
  plan_files env files (put file.path tt paths) (put file.sha256 file.size expected)
      (total + file.size)

-- The part of `Plan` before it takes the lock.
unfoldable pub accept_manifest : Store → String → UploadPlanRequest → Result (Map ℕ)
accept_manifest env owner request = do
  refuse (same owner "") "authenticated owner is required"
  refuse (not (valid_project_id request.project_id)) "project ID is invalid"
  refuse (is_empty request.files) "project must contain at least one file"
  refuse (ltb env.max_files (length request.files)) "project contains too many files"
  plan_files env request.files [] [] 0

-- The loop over the expected digests: those that are not stored yet.
unfoldable pub missing_digests : Store → (String → ℕ → Bool) → Map ℕ → Result (List String)
missing_digests env stored [] = ok []
missing_digests env stored ((digest, size) ∷ expected) = do
  refuse (ltb 0 env.max_upload_bytes && ltb env.max_upload_bytes size)
      "file exceeds the per-blob upload limit"
  missing ← missing_digests env stored expected
  ok (if stored digest size then missing else digest ∷ missing)

-- The sessions that a plan or a prune finds expired go.
unfoldable pub sweep_sessions : ℕ → Map Upload → Map Upload
sweep_sessions now sessions = delete_where (λ id u. ltb u.expires now) sessions

abbrev pub text_of : String → String
text_of s = s

-- The part of `Plan` under the lock.
abbrev pub store_plan :
    String
    → UploadPlanRequest
    → Map ℕ
    → String
    → ℕ
    → Result (List String)
    → Sources
    → Result UploadPlan × Sources
store_plan owner request expected id now (err e) s = (err e, s)
store_plan owner request expected id now (ok missing) s = (
  ok (record {
    upload_id = id;
    missing = sort_by text_of missing;
    expires_at = now + upload_lifetime;
  }),
  record s {
    sessions =
        put id
          (record {
            id = id;
            owner_id = owner;
            project_id = request.project_id;
            request = request.request;
            files = request.files;
            expected = expected;
            expires = now + upload_lifetime;
            committing = false;
          })
          s.sessions;
  },
)

-- With whether there are as many sessions as there may be.
abbrev pub open_session :
    Bool
    → Store
    → String
    → UploadPlanRequest
    → Map ℕ
    → String
    → ℕ
    → Sources
    → Result UploadPlan × Sources
open_session true env owner request expected id now s =
    (err "upload session limit has been reached", s)
open_session false env owner request expected id now s =
    store_plan owner request expected id now
      (missing_digests env (has_blob env.codec s.blobs owner) expected) s

abbrev pub is_full : Store → Sources → Bool
is_full env s = ltb 0 env.max_upload_sessions && leb env.max_upload_sessions (length s.sessions)

abbrev pub swept : ℕ → Sources → Sources
swept now s = record s { sessions = sweep_sessions now s.sessions }

abbrev pub begin_plan :
    Store
    → String
    → UploadPlanRequest
    → Result (Map ℕ)
    → Result String
    → ℕ
    → Sources
    → Result UploadPlan × Sources
begin_plan env owner request (err e) id now s = (err e, s)
begin_plan env owner request (ok expected) (err e) now s = (err e, s)
begin_plan env owner request (ok expected) (ok id) now s =
    open_session (is_full env (swept now s)) env owner request expected id now (swept now s)

-- The method `Plan`; the answer of `randomID` is an argument.
unfoldable pub plan :
    Store → String → UploadPlanRequest → Result String → ℕ → Sources → Result UploadPlan × Sources
plan env owner request id now s =
    begin_plan env owner request (accept_manifest env owner request) id now s
