-- ===== src/Tests/Sources.antt =====
-- The theorems of the store of sources at concrete inputs.
use mathlib.Core.Bool.{true≢false}
use text.Mathlib.Text.{◌==◌ as same}
use mathlib.Core.List.{Permᴰ as Perm}
use latexmk.Prelude.{
  ℕ, ◌+◌, ◌≡◌, ◌≢◌, refl, sym, ap, String, true, none, List, [], ◌∷◌, All, lookup, put,
  delete_where, String-discrete, Bool-cases, text_lt, insert_by, ok, arith, Ascending, sort_by,
}
use latexmk.Protocol.{ProjectFile, UploadPlanRequest, UploadPlan}
use latexmk.Project.Names.{
  valid_project_id, all_id_chars, valid_project_path, has_forbidden, valid_sha256, is_staged_name,
}
use latexmk.Project.Pins.{Snapshot}
use latexmk.Project.State.{Store, Sources, StateFile, empty, upload_lifetime}
use latexmk.Project.Blobs.{has_blob, find_file, walk, remove_unreferenced_regular_files}
use latexmk.Project.Snapshots.{
  path_of, new_snapshot, validate_snapshot, identified, check_canonical,
}
use latexmk.Project.Snapshots.Canonical.{
  IsValidFile, new_snapshot-IsCanonical, new_snapshot_perm, validate_snapshot-new_snapshot,
}
use latexmk.Project.Uploads.{accept_manifest, plan, plan_files, sweep_sessions, missing_digests}
use latexmk.Project.Uploads.Planning.{AcceptedManifest, accept_manifest-AcceptedManifest}
use latexmk.Project.Uploads.Completion.{commit-plan}
use latexmk.Project.Puts.{Body, Answers, put_blob}
use latexmk.Project.Puts.Change.{Change, put_blob-Change}
use latexmk.Project.Commits.{commit}
use latexmk.Project.Commits.Outcome.{Outcome, commit-Outcome}
use latexmk.Project.Sweep.{finish_prune, second_references, drop_old}
use latexmk.Project.Sweep.Spared.{Kept, finish_prune-Kept}
use latexmk.Project.Sweep.Exact.{Belongs, bytes_of, remove_unreferenced_regular_files_exact}
use latexmk.Project.Trace.{Step, Steps}
use latexmk.Project.Trace.Whole.{Steps-Whole}
use latexmk.Project.Trace.Uploads.{Whole}
use latexmk.Tests.Samples.{options}

abbrev digest_a : String
digest_a = "0123456789abcdef0123456789abcdef0123456789abcdef0123456789abcdef"

abbrev identifier : String
identifier = "src_1"

abbrev library : Store
library = record {
  max_files = 10;
  max_expanded_bytes = 100;
  max_upload_bytes = 50;
  max_upload_sessions = 2;
  snapshot_retention = 1000;
  blob_retention = 100;
  codec = record {
    decodes_hex = λ text. true;
    short_hash = λ owner. owner;
    is_local = λ name. true;
  };
  identify = λ owner project files. identifier;
  hash = λ bytes. digest_a;
}

abbrev main_tex : ProjectFile
main_tex = record { path = "main.tex"; sha256 = digest_a; size = 1 }

abbrev copy_tex : ProjectFile
copy_tex = record { path = "copy.tex"; sha256 = digest_a; size = 1 }

abbrev manifest : UploadPlanRequest
manifest = record { project_id = "thesis"; request = options; files = main_tex ∷ copy_tex ∷ [] }

abbrev quiet_disk : Answers
quiet_disk = record {
  directory = none;
  write = none;
  renamed = none;
  pending_close = none;
  root_close = none;
  mod_time = 6;
}

abbrev one_byte : Body
one_byte = record { bytes = 7 ∷ []; failure = none }

abbrev state_0 : Sources
state_0 = empty 100

abbrev state_1 : Sources
state_1 = (plan library "ann" manifest (ok "upl_1") 5 state_0).1

abbrev state_2 : Sources
state_2 = (put_blob library quiet_disk one_byte "ann" "upl_1" digest_a 6 state_1).1

abbrev state_3 : Sources
state_3 = (commit library "ann" "upl_1" 7 8 state_2).1

abbrev planned_1 : UploadPlan
planned_1 = record {
  upload_id = "upl_1";
  missing = digest_a ∷ [];
  expires_at = 5 + upload_lifetime;
}

abbrev OneByte : List ℕ → Type 0
OneByte bytes = bytes ≡ 7 ∷ []

Steps-Whole_example : Whole library OneByte state_3
Steps-Whole_example =
    Steps-Whole library OneByte 100 (λ a b p q e. rw (p, q) refl)
      (Steps.next
        (Steps.next (Steps.next Steps.done (Step.planned "ann" manifest (ok "upl_1") 5))
          (Step.uploaded quiet_disk one_byte "ann" "upl_1" digest_a 6 refl))
        (Step.committed "ann" "upl_1" 7 8))

planned_1-plan : (plan library "ann" manifest (ok "upl_1") 5 state_0).0 ≡ ok planned_1
unfolding plan empty accept_manifest valid_project_id all_id_chars plan_files valid_project_path
    has_forbidden lookup valid_sha256 put String-discrete Bool-cases sweep_sessions delete_where
    missing_digests sort_by has_blob find_file text_lt insert_by
planned_1-plan = refl

-- Behind a plan, and with the one missing blob.
abbrev blob_a : StateFile
blob_a = record { parts = "ann" ∷ "01" ∷ digest_a ∷ []; size = 1; mod_time = 6; regular = true }

abbrev brought : Sources
brought = record state_1 { blobs = blob_a ∷ [] }

commit-plan_example :
    (commit library "ann" "upl_1" 7 8 brought).0
    ≡ ok (identified library "ann" "thesis" (sort_by path_of (main_tex ∷ copy_tex ∷ [])), options)
unfolding has_blob find_file valid_sha256 empty
commit-plan_example =
    commit-plan library "ann" manifest 5 planned_1 state_0 (ok "upl_1") planned_1-plan brought 7 8
      refl (omega arith) (λ d n h. ground (arith, h)) ((λ _. refl), ((λ _. refl), tt))

commit-Outcome_example :
    Outcome library "ann" "upl_1" 7 state_2 (commit library "ann" "upl_1" 7 8 state_2)
commit-Outcome_example = commit-Outcome library "ann" "upl_1" 7 8 state_2

put_blob-Change_example : Change library "ann" (7 ∷ []) state_1 state_2
put_blob-Change_example =
    put_blob-Change library quiet_disk one_byte "ann" "upl_1" digest_a 6 state_1

finish_prune-Kept_example :
    Kept library.codec state_3.blobs
      (finish_prune library
        (λ path. none)
        500
        (second_references library 500 [] state_3)
        []
        (drop_old library 500 state_3)).1
unfolding drop_old
finish_prune-Kept_example =
    finish_prune-Kept library (λ path. none) 500 [] [] state_3 (drop_old library 500 state_3) refl

abbrev stale : StateFile
stale = record { parts = "bob" ∷ "01" ∷ digest_a ∷ []; size = 9; mod_time = 1; regular = true }

stale_goes :
    (remove_unreferenced_regular_files library.codec (λ path. none) [] (stale ∷ [])).0 ≡ ok 9
unfolding remove_unreferenced_regular_files walk is_staged_name valid_sha256 lookup
stale_goes = refl

remove_unreferenced_regular_files_exact_example :
    let left = (remove_unreferenced_regular_files library.codec (λ path. none) [] (stale ∷ [])).1 in
    All (Belongs library.codec []) left × (9 ≡ bytes_of left + 9)
remove_unreferenced_regular_files_exact_example =
    remove_unreferenced_regular_files_exact library.codec (λ path. none) [] (stale ∷ []) 9
      stale_goes

abbrev canonical_files : List ProjectFile
canonical_files = copy_tex ∷ main_tex ∷ []

abbrev canonical : Snapshot
canonical = identified library "ann" "thesis" canonical_files

canonical-new_snapshot :
    new_snapshot library "ann" "thesis" (main_tex ∷ copy_tex ∷ []) ≡ ok canonical
unfolding new_snapshot valid_project_id all_id_chars check_canonical valid_project_path
    has_forbidden valid_sha256 sort_by insert_by text_lt
canonical-new_snapshot = refl

new_snapshot-IsCanonical_example :
    Perm (main_tex ∷ copy_tex ∷ []) canonical_files
    × Ascending path_of canonical_files
    × All (IsValidFile library.codec) canonical_files
new_snapshot-IsCanonical_example =
    new_snapshot-IsCanonical library "ann" "thesis" (main_tex ∷ copy_tex ∷ []) canonical
      canonical-new_snapshot

new_snapshot_perm_example :
    new_snapshot library "ann" "thesis" (copy_tex ∷ main_tex ∷ []) ≡ ok canonical
new_snapshot_perm_example =
    new_snapshot_perm library "ann" "thesis" (main_tex ∷ copy_tex ∷ []) (copy_tex ∷ main_tex ∷ [])
      canonical (Perm.swap refl refl) canonical-new_snapshot

identifier_ne : identifier ≢ ""
identifier_ne h = true≢false (sym (ap (λ t. same t "") h))

validate_snapshot-new_snapshot_example : validate_snapshot library canonical ≡ ok tt
validate_snapshot-new_snapshot_example =
    validate_snapshot-new_snapshot library "ann" "thesis" (main_tex ∷ copy_tex ∷ []) canonical
      (λ o p l. identifier_ne) canonical-new_snapshot

manifest_accepted : accept_manifest library "ann" manifest ≡ ok ((digest_a, 1) ∷ [])
unfolding accept_manifest valid_project_id all_id_chars plan_files valid_project_path has_forbidden
    lookup valid_sha256 put String-discrete Bool-cases
manifest_accepted = refl

accept_manifest-AcceptedManifest_example :
    AcceptedManifest library "ann" manifest ((digest_a, 1) ∷ [])
accept_manifest-AcceptedManifest_example =
    accept_manifest-AcceptedManifest library "ann" manifest ((digest_a, 1) ∷ []) manifest_accepted
