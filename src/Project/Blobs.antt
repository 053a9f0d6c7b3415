-- ===== src/Project/Blobs.antt =====
-- The files under `blobs` of the state directory (packages/server/internal/project/store.go): where a
-- blob stands, and the two walks that remove files. A directory is the list of its files in the
-- order of the walk; what `os.Remove` answers is an argument.
use text.Mathlib.Text.{◌==◌ as same}
use latexmk.Prelude.{
  ℕ, ◌+◌, String, Bool, true, false, not, ◌&&◌, Option, none, some, List, [], ◌∷◌, Map, lookup, put,
  Result, ok, err, ◌==◌, ltb, if◌then◌else◌,
}
use latexmk.Protocol.{ProjectFile}
use latexmk.Project.Names.{Codec, valid_sha256, owner_key, fan_out, reference_key, is_staged_name}
use latexmk.Project.Pins.{Snapshot}
use latexmk.Project.State.{StateFile}

-- Whether two paths are the same.
abbrev pub same_parts : List String → List String → Bool
same_parts [] [] = true
same_parts [] (_ ∷ _) = false
same_parts (_ ∷ _) [] = false
same_parts (a ∷ p) (b ∷ q) = same a b && same_parts p q

-- os.Stat
unfoldable pub find_file : List String → List StateFile → Option StateFile
find_file p [] = none
find_file p (f ∷ files) =
    let rest = find_file p files in elim (same_parts f.parts p) [ true ↦ some f | false ↦ rest ]

-- A rename over the file of a path.
unfoldable pub put_file : StateFile → List StateFile → List StateFile
put_file g [] = g ∷ []
put_file g (f ∷ files) =
    let rest = put_file g files in
    elim (same_parts f.parts g.parts) [ true ↦ g ∷ files | false ↦ f ∷ rest ]

-- blobPath, from the directory of the blobs.
abbrev pub blob_path : Codec → String → String → List String
blob_path c owner digest = owner_key c owner ∷ fan_out digest ∷ digest ∷ []

abbrev pub is_regular_of : ℕ → Option StateFile → Bool
is_regular_of size none = false
is_regular_of size (some f) = f.regular && f.size == size

-- hasBlob
unfoldable pub has_blob : Codec → List StateFile → String → String → ℕ → Bool
has_blob c blobs owner digest size =
    valid_sha256 c digest && is_regular_of size (find_file (blob_path c owner digest) blobs)

abbrev pub References : Type 0
References = Map (Unit {0})

-- addExpectedReferences
unfoldable pub add_expected_references : References → String → Map ℕ → References
add_expected_references refs owner [] = refs
add_expected_references refs owner ((digest, _) ∷ expected) =
    add_expected_references (put (reference_key owner digest) tt refs) owner expected

abbrev pub add_reference : Codec → References → String → ProjectFile → References
add_reference c refs owner file =
    if valid_sha256 c file.sha256 then put (reference_key owner file.sha256) tt refs else refs

unfoldable pub add_file_references : Codec → References → String → List ProjectFile → References
add_file_references c refs owner [] = refs
add_file_references c refs owner (file ∷ files) =
    add_file_references c (add_reference c refs owner file) owner files

-- addSnapshotReferences
unfoldable pub add_snapshot_references : Codec → References → Snapshot → References
add_snapshot_references c refs s = add_file_references c refs (owner_key c s.owner_id) s.files

abbrev is_some : Option (Unit {0}) → Bool
is_some none = false
is_some (some _) = true

abbrev pub last_part : List String → String
last_part [] = ""
last_part (a ∷ []) = a
last_part (a ∷ b ∷ p) = last_part (b ∷ p)

-- Whether a path is that of a blob, and whether it is one that is referenced.
abbrev pub is_blob_path : Codec → List String → Bool
is_blob_path c (owner ∷ fan ∷ digest ∷ []) = valid_sha256 c digest && same fan (fan_out digest)
is_blob_path c _ = false

abbrev pub is_referenced : References → List String → Bool
is_referenced refs (owner ∷ fan ∷ digest ∷ []) = is_some (lookup (reference_key owner digest) refs)
is_referenced refs _ = false

-- What a walk does with a file: it leaves it, removes it, or stops.
pub data Verdict : Type 0 where
  leave : Verdict
  remove : Verdict
  stop : String → Verdict

abbrev pub expired_verdict : Codec → ℕ → ℕ → Option References → StateFile → Verdict
expired_verdict c now retention refs f =
    if is_staged_name c (last_part f.parts)
    then Verdict.leave
    else if not f.regular
    then Verdict.stop "state directory contains unsupported file"
    else if not (ltb (f.mod_time + retention) now)
    then Verdict.leave
    else elim refs [
      | none ↦ Verdict.remove
      | some r ↦
          if is_blob_path c f.parts && is_referenced r f.parts
          then Verdict.leave
          else Verdict.remove
    ]

abbrev pub unreferenced_verdict : Codec → References → StateFile → Verdict
unreferenced_verdict c refs f =
    if is_staged_name c (last_part f.parts)
    then Verdict.leave
    else if not f.regular
    then Verdict.stop "state directory contains unsupported file"
    else if not (is_blob_path c f.parts)
    then Verdict.stop "state blob directory contains invalid path"
    else if is_referenced refs f.parts
    then Verdict.leave
    else Verdict.remove

-- What a walk reclaimed or why it stopped, and the files that are left.
abbrev pub Walked : Type 0
Walked = Result ℕ × List StateFile

abbrev pub more : ℕ → Result ℕ → Result ℕ
more n (err e) = err e
more n (ok m) = ok (n + m)

abbrev pub walk_file : Option String → Verdict → StateFile → List StateFile → Walked → Walked
walk_file removed Verdict.leave f files rest = (rest.0, f ∷ rest.1)
walk_file removed (Verdict.stop e) f files rest = (err e, f ∷ files)
walk_file (some e) Verdict.remove f files rest = (err e, f ∷ files)
walk_file none Verdict.remove f files rest = (more f.size rest.0, rest.1)

-- filepath.WalkDir with such a verdict.
unfoldable pub walk :
    (List String → Option String) → (StateFile → Verdict) → List StateFile → Walked
walk removal verdict [] = (ok 0, [])
walk removal verdict (f ∷ files) =
    let rest = walk removal verdict files in walk_file (removal f.parts) (verdict f) f files rest

-- removeExpiredRegularFiles, for a cutoff at `now` less the retention.
unfoldable pub remove_expired_regular_files :
    Codec → (List String → Option String) → ℕ → ℕ → Option References → List StateFile → Walked
remove_expired_regular_files c removal now retention refs files =
    walk removal (expired_verdict c now retention refs) files

-- removeUnreferencedRegularFiles
unfoldable pub remove_unreferenced_regular_files :
    Codec → (List String → Option String) → References → List StateFile → Walked
remove_unreferenced_regular_files c removal refs files =
    walk removal (unreferenced_verdict c refs) files

-- directorySize
unfoldable pub directory_size : Codec → List StateFile → Result ℕ
directory_size c [] = ok 0
directory_size c (f ∷ files) =
    let rest = directory_size c files in
    if is_staged_name c (last_part f.parts)
    then rest
    else if not f.regular
    then err "state directory contains unsupported file"
    else more f.size rest
