-- ===== src/Tests/Clients.antt =====
-- The theorems of authentication, extraction and watching at concrete inputs.
use text.Mathlib.Text.{◌==◌ as same}
use latexmk.Prelude.{
  false, ℕ, ◌≡◌, refl, String, true, none, some, List, [], ◌∷◌, ok, inl, lookup, put, delete,
  String-discrete, Bool-cases, arith,
}
use latexmk.Archive.Trailer.{last}
use latexmk.Archive.Extract.{Limits, EntryType, Next, extract_tar_gz}
use latexmk.Archive.Extract.Bounds.{Extracted, extract_tar_gz-Extracted}
use latexmk.Auth.{Config, middleware}
use latexmk.Auth.Granted.{LetThrough, middleware-LetThrough}
use latexmk.Cli.Exports.{
  File, Object, Disk, Forms, Found, Calls, other_group_paths, others_of, publish, validate, read,
  check_files, without_path, without_aliases, inodes, remove_files, remove_verified,
}
use latexmk.Cli.Exports.Retention.{Untouched, publish-Untouched}
use latexmk.Cli.Ignore.{IgnoreMatcher, Library, inside, matches_path_how}
use latexmk.Cli.Ignore.Last.{verdict, deciding, matches_path_how_last}
use latexmk.Cli.Watch.{
  FileState, World, Tracker, Loop, Turn, Input, begin, on_tick, reconcile, mark_changed, arm, turn,
  on_event,
}
use latexmk.Cli.Watch.Timely.{Timely, Runs, Runs-Timely}

abbrev narrow : Limits
narrow = record { max_files = 2; max_bytes = 10 }

abbrev entry : String → ℕ → Next
entry name size =
    Next.header (record { kind = EntryType.regular; size = size; clean = ok name; made = none })

abbrev archive : List Next
archive = entry "a.tex" 6 ∷ entry "b.tex" 3 ∷ []

extract_tar_gz-Extracted_example : Extracted narrow (extract_tar_gz narrow archive (last [] none))
extract_tar_gz-Extracted_example = extract_tar_gz-Extracted narrow archive (last [] none)

abbrev static_token : Config
static_token = record {
  auth_mode = "token";
  api_token = "secret";
  bootstrap_token = "";
  fields = λ header. "Bearer" ∷ header ∷ [];
  is_bearer = λ scheme. same scheme "Bearer";
  valid_bearer_token = λ token. true;
  hash = λ token. token;
  db = none;
}

middleware-LetThrough_example :
    LetThrough static_token true ("secret" ∷ []) (middleware static_token true ("secret" ∷ []))
middleware-LetThrough_example = middleware-LetThrough static_token true ("secret" ∷ [])

abbrev written : FileState
written = record { exists = true; mode = 0; size = 1; mod_time = 2 }

abbrev disk : World
disk = record { stat = λ path. written; refresh = none; clean = λ path. path; watching = true }

abbrev tracker : Tracker
tracker = record {
  refresh_interval = 0;
  targets = record { name = "a"; path = "/a.tex" } ∷ [];
  states = [];
  refreshed = 0;
  debounce = 5;
  max_wait = 20;
}

abbrev waiting : ℕ → Loop
waiting settle = record {
  tracker = record tracker { states = ("/a.tex", written) ∷ [] };
  pending = ("a", tt) ∷ [];
  first_change = some 100;
  settle = some settle;
  has_events = true;
}

begin-going : begin disk 100 true tracker ≡ Turn.going (waiting 105)
unfolding begin on_tick reconcile mark_changed lookup put arm
begin-going = refl

turn-going : turn disk 103 (Input.event "/a.tex") (waiting 105) ≡ Turn.going (waiting 108)
unfolding turn on_event reconcile mark_changed lookup put arm String-discrete Bool-cases
turn-going = refl

Runs-Timely_example : Timely (waiting 108)
Runs-Timely_example = Runs-Timely tracker (
    Runs.turned disk 103 (Input.event "/a.tex") (waiting 105) (waiting 108)
      (Runs.begun disk 100 true (waiting 105) begin-going) (omega arith, omega arith) turn-going)

abbrev old_export : Object
old_export = record { inode = 1; regular = true; bytes = 4; digest = "d1" }

abbrev new_export : Object
new_export = record { inode = 2; regular = true; bytes = 5; digest = "d2" }

abbrev behind_write : Disk
behind_write = ("out-1.pdf", old_export) ∷ ("out-2.pdf", new_export) ∷ []

abbrev exported : File
exported = record { path = "out-2.pdf"; size = 5; sha256 = "d2" }

abbrev forms : Forms
forms = record {
  is_export_path = λ path. true;
  is_digest = λ digest. true;
  lower = λ digest. digest;
}

-- One older export is recorded and goes; another group has recorded `out-3.pdf`.
abbrev calls : Calls
calls = record {
  own = Found.decoded 1 (record { path = "out-1.pdf"; size = 4; sha256 = "d1" } ∷ []);
  fits = true;
  staged = none;
  groups = ok (
      record {
        is_other = true;
        found = Found.decoded 1 (record { path = "out-3.pdf"; size = 1; sha256 = "d3" } ∷ []);
      }
      ∷ []);
  write = ok behind_write;
  committed = none;
  failure = λ path. none;
  saved = none;
}

groups_read : others_of forms calls.groups ≡ ok ("out-3.pdf" ∷ [])
unfolding other_group_paths read check_files validate
groups_read = refl

publish-Untouched_example :
    Untouched forms calls exported
      (some 1)
      "out-2.pdf"
      (("out-1.pdf", old_export) ∷ [])
      behind_write
      (publish forms calls exported (some 1) (("out-1.pdf", old_export) ∷ []))
publish-Untouched_example =
    publish-Untouched forms calls exported (some 1) (("out-1.pdf", old_export) ∷ []) behind_write
      ("out-3.pdf" ∷ []) "out-2.pdf" refl groups_read (inl refl)

-- The older export is gone behind that call.
publish_removes :
    (publish forms calls exported (some 1) (("out-1.pdf", old_export) ∷ [])).disk
    ≡ ("out-2.pdf", new_export) ∷ []
unfolding other_group_paths publish validate read check_files without_path without_aliases lookup
    delete inodes remove_files remove_verified String-discrete Bool-cases
publish_removes = refl

abbrev plain_text : Library
plain_text = record {
  has_suffix = λ text suffix. false;
  trim_suffix = λ text suffix. text;
  cut_base = λ base text. none;
  last_element = λ path. path;
  glob = λ pattern text. same pattern text;
}

abbrev rules : IgnoreMatcher
rules = record {
  rules =
      record {
        line = "a.log";
        pattern = "a.log";
        negate = false;
        directory = false;
        anchored = true;
      }
      ∷ record {
        line = "!a.log";
        pattern = "a.log";
        negate = true;
        directory = false;
        anchored = true;
      }
      ∷ [];
  base = "";
}

matches_path_how_last_example :
    matches_path_how plain_text rules "a.log"
    ≡ verdict (deciding plain_text rules (inside plain_text rules "a.log")) (false, none)
matches_path_how_last_example = matches_path_how_last plain_text rules "a.log"
