-- ===== src/Cli/Exports.antt =====
-- packages/cli/internal/exporthistory/history.go: the publication of an export and the retention of
-- older ones, with RemoveVerified (packages/shared/safefs/remove.go), while no other process touches the
-- files. The disk is a map from paths to what stands there; JSON, hexadecimal and the spelling of
-- paths are parameters.
pub mod Retention
use text.Mathlib.Text.{◌==◌ as same}
use latexmk.Prelude.{
  ℕ, suc, ◌-◌, String, Bool, true, false, not, ◌&&◌, ◌||◌, Option, none, some, List, [], ◌∷◌, ◌++◌,
  Map, lookup, delete, Result, ok, err, ◌>>=◌, ◌>>◌, refuse, ltb, leb, ◌==◌, if◌then◌else◌, length,
  take, drop,
}

pub record File : Type 0 where
  pub path : String
  pub size : ℕ
  pub sha256 : String

-- What stands at a path: which file it is (os.SameFile), and its content.
pub record Object : Type 0 where
  pub inode : ℕ
  pub regular : Bool
  pub bytes : ℕ
  pub digest : String

abbrev pub Disk : Type 0
Disk = Map Object

-- safefs.Clean gives the path itself, its extension is `.pdf` or `.zip`, and the digest is 32 bytes in
-- hexadecimal; and strings.ToLower.
pub record Forms : Type 0 where
  pub is_export_path : String → Bool
  pub is_digest : String → Bool
  pub lower : String → String

-- 1<<63 - 1
abbrev pub max_int64 : ℕ
max_int64 = 9223372036854775807

unfoldable pub validate : Forms → File → Result (Unit {0})
validate forms file = do
  refuse (not (forms.is_export_path file.path)) "export history contains an invalid PDF/ZIP path"
  refuse (not (forms.is_digest file.sha256) || file.size == max_int64)
      "export history contains invalid content metadata"

-- What reading a manifest gives: it is not there, or cannot be read, or its decoded version and files.
pub data Found : Type 0 where
  missing : Found
  unreadable : String → Found
  decoded : ℕ → List File → Found

abbrev pub holds : String → List File → Bool
holds path [] = false
holds path (f ∷ files) = same f.path path || holds path files

unfoldable pub check_files : Forms → List File → List File → Result (Unit {0})
check_files forms seen [] = ok tt
check_files forms seen (f ∷ files) = do
  validate forms f
  refuse (holds f.path seen) "duplicate export history path"
  check_files forms (f ∷ seen) files

abbrev pub with_files : List File → Result (Unit {0}) → Result (List File)
with_files files (err e) = err e
with_files files (ok _) = ok files

-- read
unfoldable pub read : Forms → Found → Result (List File)
read forms Found.missing = ok []
read forms (Found.unreadable e) = err e
read forms (Found.decoded version files) =
    if not (version == 1)
    then err "unsupported export history version"
    else with_files files (check_files forms [] files)

-- sameAsAny
abbrev pub same_as_any : ℕ → List ℕ → Bool
same_as_any inode [] = false
same_as_any inode (other ∷ protected) = inode == other || same_as_any inode protected

abbrev pub matches : File → Object → Bool
matches f o = o.bytes == f.size && same o.digest f.sha256

-- safefs.RemoveVerified of a file whose recorded digest is in lower case; `failure` is what the
-- unlinking answers.
abbrev pub remove_object :
    Option String → List ℕ → File → Option Object → Disk → Option String × Disk
remove_object failure protected f none disk = (none, disk)
remove_object failure protected f (some o) disk =
    if not o.regular || same_as_any o.inode protected || not (matches f o)
    then (none, disk)
    else elim failure [ some e ↦ (some e, disk) | none ↦ (none, delete f.path disk) ]

unfoldable pub remove_verified : Option String → List ℕ → File → Disk → Option String × Disk
remove_verified failure protected f disk =
    remove_object failure protected f (lookup f.path disk) disk

abbrev pub and_then : (Disk → Option String × Disk) → Option String × Disk → Option String × Disk
and_then rest (some e, disk) = (some e, disk)
and_then rest (none, disk) = rest disk

abbrev pub lowered : Forms → File → File
lowered forms f = record f { sha256 = forms.lower f.sha256 }

-- The loop that removes the files before the cut. It skips what RemoveVerified would keep too.
unfoldable pub remove_files :
    Forms → (String → Option String) → List ℕ → List File → Disk → Option String × Disk
remove_files forms failure protected [] disk = (none, disk)
remove_files forms failure protected (f ∷ files) disk =
    and_then (remove_files forms failure protected files)
      (remove_verified (failure f.path) protected (lowered forms f) disk)

abbrev pub inode_of : Option Object → List ℕ
inode_of none = []
inode_of (some o) = o.inode ∷ []

-- The files that stand at some paths.
unfoldable pub inodes : List String → Disk → List ℕ
inodes [] disk = []
inodes (path ∷ paths) disk = inode_of (lookup path disk) ++ inodes paths disk

abbrev pub paths_of : List File → List String
paths_of [] = []
paths_of (f ∷ files) = f.path ∷ paths_of files

abbrev pub is_alias : ℕ → Option Object → Bool
is_alias inode none = false
is_alias inode (some o) = o.inode == inode

-- The history without other spellings of the file that was just published.
unfoldable pub without_aliases : ℕ → Disk → List File → List File
without_aliases inode disk [] = []
without_aliases inode disk (f ∷ files) =
    let rest = without_aliases inode disk files in
    if is_alias inode (lookup f.path disk) then rest else f ∷ rest

unfoldable pub without_path : String → List File → List File
without_path path [] = []
without_path path (f ∷ files) =
    let rest = without_path path files in if same f.path path then rest else f ∷ rest

-- An entry of the directory of histories: whether it is a manifest of another group, and what reading it
-- gives.
pub record Entry : Type 0 where
  pub is_other : Bool
  pub found : Found

-- otherGroupPaths, of the entries of the directory.
unfoldable pub other_group_paths : Forms → List Entry → Result (List String)
other_group_paths forms [] = ok []
other_group_paths forms (entry ∷ entries) =
    let rest = other_group_paths forms entries in
    if not entry.is_other
    then rest
    else (do files ← read forms entry.found; paths ← rest; ok (paths_of files ++ paths))

abbrev pub others_of : Forms → Result (List Entry) → Result (List String)
others_of forms (err e) = err e
others_of forms (ok entries) = other_group_paths forms entries

-- What the calls of `Publish` answer that this model does not compute: `fits` is
-- whether the history is small enough, `write` the writing of the export, with the disk behind it.
pub record Calls : Type 0 where
  pub own : Found
  pub fits : Bool
  pub staged : Option String
  pub groups : Result (List Entry)
  pub write : Result Disk
  pub committed : Option String
  pub failure : String → Option String
  pub saved : Option String

-- What `Publish` leaves: its error, the disk, and the history of the group that is stored.
pub record Outcome : Type 0 where
  pub error : Option String
  pub disk : Disk
  pub history : Option (List File)

abbrev pub stored_as : Option String → Disk → List File → List File → Outcome
stored_as (some e) disk old new = record { error = some e; disk = disk; history = some old }
stored_as none disk old new = record { error = none; disk = disk; history = some new }

abbrev pub after_removal : Calls → List File → List File → Option String × Disk → Outcome
after_removal calls old new (some e, disk) = record {
  error = some e;
  disk = disk;
  history = some old;
}
after_removal calls old new (none, disk) = stored_as calls.saved disk old new

-- The paths that no removal may touch.
abbrev pub protected_by : ℕ → List String → List File → Disk → List ℕ
protected_by inode others kept disk = inode ∷ inodes (paths_of kept ++ others) disk

abbrev pub retain :
    Forms → Calls → ℕ → List String → Option ℕ → List File → List File → Disk → Outcome
retain forms calls inode others none history unique disk =
    if length unique == length history
    then record { error = none; disk = disk; history = some history }
    else stored_as calls.saved disk history unique
retain forms calls inode others (some keep_last) history unique disk =
    if leb (length unique) keep_last
    then (if length unique == length history
        then record { error = none; disk = disk; history = some history }
        else stored_as calls.saved disk history unique)
    else (let cut = length unique - keep_last in
        after_removal calls history (drop cut unique) (
          remove_files forms calls.failure (protected_by inode others (drop cut unique) disk)
            (take cut unique) disk))

abbrev pub is_published : Forms → File → Object → Bool
is_published forms file o = o.regular && matches (lowered forms file) o

abbrev pub is_kept : Option ℕ → Bool
is_kept none = true
is_kept (some _) = false

-- Behind the write and the commit of the history.
abbrev pub after_write :
    Forms → Calls → File → List String → Option ℕ → List File → Option Object → Disk → Outcome
after_write forms calls file others keep_last before none disk = record {
  error = some "file does not exist";
  disk = disk;
  history = some (before ++ file ∷ []);
}
after_write forms calls file others keep_last before (some o) disk =
    if is_kept keep_last || is_published forms file o
    then retain forms calls o.inode others keep_last (before ++ file ∷ [])
        (without_aliases o.inode disk before ++ file ∷ []) disk
    else record {
      error = some "published export changed before retention";
      disk = disk;
      history = some (before ++ file ∷ []);
    }

abbrev pub failed : String → Disk → Outcome
failed e disk = record { error = some e; disk = disk; history = none }

abbrev pub commit_then :
    Forms → Calls → File → List String → Option ℕ → List File → Option String → Disk → Outcome
commit_then forms calls file others keep_last before (some e) disk = failed e disk
commit_then forms calls file others keep_last before none disk =
    after_write forms calls file others keep_last before (lookup file.path disk) disk

abbrev pub write_then :
    Forms → Calls → File → List String → Option ℕ → List File → Result Disk → Disk → Outcome
write_then forms calls file others keep_last before (err e) disk = failed e disk
write_then forms calls file others keep_last before (ok written) disk =
    commit_then forms calls file others keep_last before calls.committed written

abbrev pub with_others :
    Forms → Calls → File → Option ℕ → List File → Result (List String) → Disk → Outcome
with_others forms calls file keep_last before (err e) disk = failed e disk
with_others forms calls file keep_last before (ok others) disk =
    write_then forms calls file others keep_last before calls.write disk

abbrev pub stage_then : Forms → Calls → File → Option ℕ → List File → Option String → Disk → Outcome
stage_then forms calls file keep_last before (some e) disk = failed e disk
stage_then forms calls file keep_last before none disk =
    with_others forms calls file keep_last before (others_of forms calls.groups) disk

abbrev pub with_history : Forms → Calls → File → Option ℕ → Result (List File) → Disk → Outcome
with_history forms calls file keep_last (err e) disk = failed e disk
with_history forms calls file keep_last (ok history) disk =
    if not calls.fits
    then failed "export history exceeds 16 MiB" disk
    else stage_then forms calls file keep_last (without_path file.path history) calls.staged disk

abbrev pub is_bad : Option ℕ → Bool
is_bad none = false
is_bad (some n) = ltb n 1

abbrev pub validated : Forms → Calls → File → Option ℕ → Result (Unit {0}) → Disk → Outcome
validated forms calls file keep_last (err e) disk = failed e disk
validated forms calls file keep_last (ok _) disk =
    if is_bad keep_last
    then failed "keepLast must be positive" disk
    else with_history forms calls file keep_last (read forms calls.own) disk

-- Publish, behind the opening and locking of the history.
unfoldable pub publish : Forms → Calls → File → Option ℕ → Disk → Outcome
publish forms calls file keep_last disk =
    validated forms calls file keep_last (validate forms file) disk
