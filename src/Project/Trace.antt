-- ===== src/Project/Trace.antt =====
-- The store of sources as a system of steps: each is a call of
-- packages/server/internal/project/store.go by some client, or a sweep.
pub mod Uploads
pub mod Blobs
pub mod Sessions
pub mod Whole
use latexmk.Prelude.{ℕ, String, Option, List, Result}
use latexmk.Protocol.{UploadPlanRequest}
use latexmk.Project.State.{StateFile, Store, Sources}
use latexmk.Project.Pins.{Snapshot, pin_snapshot, release_snapshot}
use latexmk.Project.Uploads.{plan}
use latexmk.Project.Puts.{Body, Answers, put_blob}
use latexmk.Project.Commits.{commit, delete_snapshot}
use latexmk.Project.Sweep.{prune, collect_unreferenced_blobs}

-- `P` holds of the contents that clients upload.
pub data Step (env : Store) (P : List ℕ → Type 0) (s : Sources) : Sources → Type 0 where
  planned :
      (owner : String) (request : UploadPlanRequest) (id : Result String) (now : ℕ)
      → Step env P s (plan env owner request id now s).1
  uploaded :
      (io : Answers) (body : Body) (owner id digest : String) (now : ℕ)
      → P body.bytes
      → Step env P s (put_blob env io body owner id digest now s).1
  committed : (owner id : String) (now later : ℕ) → Step env P s (commit env owner id now later s).1
  deleted : (owner project : String) → Step env P s (delete_snapshot owner project s).1
  pinned : (found : Snapshot) → Step env P s (record s { pins = pin_snapshot found s.pins })
  unpinned : (id : String) → Step env P s (record s { pins = release_snapshot id s.pins })
  pruned :
      (removal : List String → Option String) (now : ℕ) (others : List StateFile)
      → Step env P s (prune env removal now others s).1
  collected :
      (removal : List String → Option String) (others : List StateFile)
      → Step env P s (collect_unreferenced_blobs env removal others s).1

pub data Steps (env : Store) (P : List ℕ → Type 0) (s : Sources) : Sources → Type 0 where
  done : Steps env P s s
  next : {t u : Sources} → Steps env P s t → Step env P t u → Steps env P s u
