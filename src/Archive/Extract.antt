-- ===== src/Archive/Extract.antt =====
-- The extraction of an uploaded archive (packages/server/internal/archive/extract.go). What the tar
-- reader gives and what the file system answers are arguments; a size is not negative.
pub mod Bounds
use latexmk.Prelude.{
  ℕ, suc, ◌+◌, ◌-◌, ◌≤◌, ◌≡◌, ◌≢◌, ◌⊎◌, inl, inr, refl, sym, ap, ◌∙◌, String, Bool, true, false,
  ◌&&◌, Option, none, some, List, [], ◌∷◌, ◌++◌, All, Map, lookup, put, lookup-put, lookup-put_self,
  Bool-cases, Result, ok, err, ltb, ◌==◌, if◌then◌else◌, arith,
}
use latexmk.Archive.Trailer.{Reader, verify_trailer}

pub record Limits : Type 0 where
  pub max_files : ℕ
  pub max_bytes : ℕ

pub record Stats : Type 0 where
  pub files : ℕ
  pub bytes : ℕ

pub data EntryType : Type 0 where
  directory regular other : EntryType

-- A header, with the answers of safefs.Clean and of the call that makes the directory or writes the
-- file; or the error of `Next`.
pub record Header : Type 0 where
  pub kind : EntryType
  pub size : ℕ
  pub clean : Result String
  pub made : Option String

pub data Next : Type 0 where
  header : Header → Next
  broken : String → Next

-- What the loop has: its counters, the paths that it has seen, and what it has written.
pub record Extraction : Type 0 where
  pub stats : Stats
  pub seen : Map (Unit {0})
  pub written : List (String × ℕ)

-- math.MaxInt64
abbrev pub max_int64 : ℕ
max_int64 = 9223372036854775807

unfoldable pub byte_limit : Limits → ℕ
byte_limit limits = if limits.max_bytes == 0 then max_int64 else limits.max_bytes

abbrev pub is_seen : Option (Unit {0}) → Bool
is_seen none = false
is_seen (some _) = true

-- A file that fails to be written is removed again.
abbrev pub write_file : String → ℕ → Option String → Extraction → Option String × Extraction
write_file path size (some e) x =
    (some e, record x { stats = record x.stats { bytes = x.stats.bytes + size } })
write_file path size none x = (
  none,
  record x {
    stats = record x.stats { bytes = x.stats.bytes + size };
    written = (path, size) ∷ x.written;
  },
)

-- The body of the switch.
abbrev pub extract_as :
    Limits → String → Header → EntryType → Extraction → Option String × Extraction
extract_as limits path h EntryType.directory x = (h.made, x)
extract_as limits path h EntryType.other x = (some "unsupported archive entry type", x)
extract_as limits path h EntryType.regular x =
    if ltb (byte_limit limits - x.stats.bytes) h.size
    then (some "archive expands beyond the limit", x)
    else write_file path h.size h.made x

abbrev pub counted : String → Extraction → Extraction
counted path x = record x {
  seen = put path tt x.seen;
  stats = record x.stats { files = suc x.stats.files };
}

abbrev pub extract_path : Limits → String → Header → Extraction → Option String × Extraction
extract_path limits path h x =
    if is_seen (lookup path x.seen)
    then (some "duplicate archive path", x)
    else if ltb 0 limits.max_files && ltb limits.max_files (suc x.stats.files)
    then (some "archive exceeds maximum entry count", counted path x)
    else extract_as limits path h h.kind (counted path x)

-- One turn of the loop: why it returns, if it does.
unfoldable pub extract_entry : Limits → Next → Extraction → Option String × Extraction
extract_entry limits (Next.broken e) x = (some e, x)
extract_entry limits (Next.header h) x = elim h.clean [
  | err e ↦ (some e, x)
  | ok path ↦ extract_path limits path h x
]

abbrev pub go_on :
    (Extraction → Option String × Extraction)
    → Option String × Extraction
    → Option String × Extraction
go_on rest (some e, x) = (some e, x)
go_on rest (none, x) = rest x

-- The loop up to the end of the archive.
unfoldable pub extract_entries : Limits → List Next → Extraction → Option String × Extraction
extract_entries limits [] x = (none, x)
extract_entries limits (n ∷ entries) x =
    go_on (extract_entries limits entries) (extract_entry limits n x)

abbrev pub start : Extraction
start = record { stats = record { files = 0; bytes = 0 }; seen = []; written = [] }

abbrev pub error_of : Result (Unit {0}) → Option String
error_of (ok _) = none
error_of (err e) = some e

abbrev pub trailed : Reader → Option String × Extraction → Option String × Extraction
trailed rest (some e, x) = (some e, x)
trailed rest (none, x) = (error_of (verify_trailer rest), x)

-- ExtractTarGz, behind the opening of the directory and of the stream.
unfoldable pub extract_tar_gz : Limits → List Next → Reader → Option String × Extraction
extract_tar_gz limits entries rest = trailed rest (extract_entries limits entries start)
