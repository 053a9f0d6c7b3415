-- ===== src/Project/Puts.antt =====
-- `PutBlob` of packages/server/internal/project/store.go, with safefs.CopyVerified
-- (packages/shared/safefs/root.go). What the file system and the reader answer are arguments.
pub mod Change
use text.Mathlib.Text.{◌==◌ as same}
use latexmk.Prelude.{
  ℕ, suc, String, Bool, true, false, not, ◌||◌, Option, none, some, List, [], ◌∷◌, Map, lookup,
  delete, Result, ok, err, ◌>>=◌, ◌>>◌, refuse, ltb, ◌==◌, if◌then◌else◌, length, take,
}
use latexmk.Project.Names.{valid_sha256}
use latexmk.Project.State.{Upload, StateFile, Store, Sources}
use latexmk.Project.Publication.{
  Destination, Staging, StatePublication, Quota, stage_state, commit, close,
}
use latexmk.Project.Blobs.{find_file, put_file, blob_path, has_blob}

-- The bytes of a request's body, and the error that its reader ends with.
pub record Body : Type 0 where
  pub bytes : List ℕ
  pub failure : Option String

-- What the file system answers: to the opening of the directory, to the staged write, to the
-- rename, and to the two closes; and the time of the write.
pub record Answers : Type 0 where
  pub directory : Option String
  pub write : Option String
  pub renamed : Option String
  pub pending_close : Option String
  pub root_close : Option String
  pub mod_time : ℕ

abbrev pub fail_with : Option String → Result (Unit {0})
fail_with none = ok tt
fail_with (some e) = err e

-- math.MaxInt64
abbrev pub max_int64 : ℕ
max_int64 = 9223372036854775807

-- safefs.CopyVerified: one byte more than `size` is read at most.
unfoldable pub copy_verified : (List ℕ → String) → Body → ℕ → String → Result (Unit {0})
copy_verified hash body size digest = do
  refuse (size == max_int64) "invalid content size"
  fail_with (if ltb size (length body.bytes) then none else body.failure)
  refuse (not (length (take (suc size) body.bytes) == size)) "content has another size"
  refuse (not (same (hash (take (suc size) body.bytes)) digest))
      "content does not match its SHA-256 digest"

abbrev pub staging_of : Answers → ℕ → Result (Unit {0}) → Staging
staging_of io size copied = elim io.directory [
  | some e ↦ Staging.no_directory e
  | none ↦ elim io.write [
    | some e ↦ Staging.not_staged e
    | none ↦ elim copied [ err e ↦ Staging.not_staged e | ok _ ↦ Staging.staged size ]
  ]
]

-- What `Lstat` finds where the blob goes.
abbrev pub destination_of : Option StateFile → Destination
destination_of none = Destination.absent
destination_of (some f) = if f.regular then Destination.file f.size else Destination.other

abbrev pub closed :
    Answers
    → Result (Unit {0})
    → Option String × StatePublication × Quota
    → Sources
    → Result (Unit {0}) × Sources
closed io (err e) (_, _, q) s = (err e, record s { quota = q })
closed io (ok _) (some e, _, q) s = (err e, record s { quota = q })
closed io (ok _) (none, _, q) s = (ok tt, record s { quota = q })

-- The rename and the deferred `Close`.
abbrev pub published :
    Answers
    → StateFile
    → Result (Unit {0}) × StatePublication × Quota
    → Sources
    → Result (Unit {0}) × Sources
published io f (err e, p, q) s = closed io (err e) (close io.pending_close io.root_close p q) s
published io f (ok _, p, q) s =
    closed io (ok tt) (close io.pending_close io.root_close p q)
      (record s { blobs = put_file f s.blobs })

-- The part of `PutBlob` behind the staging, which looks for the blob again.
unfoldable pub publish_blob :
    Store → Answers → String → String → ℕ → StatePublication → Sources → Result (Unit {0}) × Sources
publish_blob env io owner digest size p s =
    if has_blob env.codec s.blobs owner digest size
    then closed io (ok tt) (close io.pending_close io.root_close p s.quota) s
    else published io
        (record {
          parts = blob_path env.codec owner digest;
          size = size;
          mod_time = io.mod_time;
          regular = true;
        })
        (commit (destination_of (find_file (blob_path env.codec owner digest) s.blobs)) io.renamed p
          s.quota)
        s

abbrev pub staged_blob :
    Store
    → Answers
    → String
    → String
    → ℕ
    → Result StatePublication × Quota
    → Sources
    → Result (Unit {0}) × Sources
staged_blob env io owner digest size (err e, q) s = (err e, record s { quota = q })
staged_blob env io owner digest size (ok p, q) s =
    publish_blob env io owner digest size p (record s { quota = q })

abbrev pub put_expected :
    Store → Answers → Body → String → String → Option ℕ → Sources → Result (Unit {0}) × Sources
put_expected env io body owner digest none s = (err "digest is not required by this upload", s)
put_expected env io body owner digest (some size) s =
    if not (valid_sha256 env.codec digest)
    then (err "digest is not required by this upload", s)
    else if has_blob env.codec s.blobs owner digest size
    then (ok tt, s)
    else staged_blob env io owner digest size
        (stage_state io.pending_close io.root_close size
          (staging_of io size (copy_verified env.hash body size digest)) s.quota)
        s

abbrev pub put_in :
    Store
    → Answers
    → Body
    → String
    → String
    → String
    → ℕ
    → Option Upload
    → Sources
    → Result (Unit {0}) × Sources
put_in env io body owner id digest now none s = (err "upload session not found", s)
put_in env io body owner id digest now (some u) s =
    if not (same u.owner_id owner)
    then (err "upload session not found", s)
    else if ltb u.expires now
    then (err "upload session expired", record s { sessions = delete id s.sessions })
    else put_expected env io body owner digest (lookup digest u.expected) s

-- PutBlob, with nothing between its holds of the lock.
unfoldable pub put_blob :
    Store → Answers → Body → String → String → String → ℕ → Sources → Result (Unit {0}) × Sources
put_blob env io body owner id digest now s =
    put_in env io body owner id digest now (lookup id s.sessions) s
