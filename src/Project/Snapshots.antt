-- ===== src/Project/Snapshots.antt =====
-- `NewSnapshot` and `ValidateSnapshot` of packages/server/internal/project/store.go.
pub mod Canonical
use text.Mathlib.Text.{◌==◌ as same}
use latexmk.Prelude.{
  String, Bool, true, false, not, ◌&&◌, ◌||◌, List, [], ◌∷◌, Result, ok, err, ◌>>=◌, ◌>>◌, refuse,
  sort_by,
}
use latexmk.Protocol.{ProjectFile}
use latexmk.Project.Pins.{Snapshot}
use latexmk.Project.Names.{Codec, valid_project_id, valid_project_path, valid_sha256}
use latexmk.Project.State.{Store}

abbrev pub path_of : ProjectFile → String
path_of f = f.path

-- canonical[i-1].Path == file.Path, for i > 0
abbrev pub repeats : List ProjectFile → ProjectFile → Bool
repeats [] file = false
repeats (previous ∷ _) file = same previous.path file.path

-- The loop over the canonical files, behind the one before them.
unfoldable pub check_canonical : Codec → List ProjectFile → List ProjectFile → Result (Unit {0})
check_canonical c before [] = ok tt
check_canonical c before (file ∷ files) = do
  refuse (not (valid_project_path c file.path) || not (valid_sha256 c file.sha256))
      "snapshot contains invalid file"
  refuse (repeats before file) "snapshot contains duplicate path"
  check_canonical c (file ∷ []) files

abbrev pub is_empty : List ProjectFile → Bool
is_empty [] = true
is_empty (_ ∷ _) = false

abbrev pub identified : Store → String → String → List ProjectFile → Snapshot
identified env owner project files = record {
  id = env.identify owner project files;
  owner_id = owner;
  project_id = project;
  files = files;
}

-- NewSnapshot
unfoldable pub new_snapshot : Store → String → String → List ProjectFile → Result Snapshot
new_snapshot env owner project files = do
  refuse (same owner "") "snapshot owner is required"
  refuse (not (valid_project_id project)) "snapshot project ID is invalid"
  refuse (is_empty files) "snapshot must contain at least one file"
  check_canonical env.codec [] (sort_by path_of files)
  ok (identified env owner project (sort_by path_of files))

-- ValidateSnapshot
unfoldable pub validate_snapshot : Store → Snapshot → Result (Unit {0})
validate_snapshot env s = do
  expected ← new_snapshot env s.owner_id s.project_id s.files
  refuse (same s.id "" || not (same s.id expected.id)) "snapshot ID does not match its manifest"
