-- ===== src/Project/Sweep/Exact.antt =====
-- What a sweep that succeeds has removed, and what it reports.
use latexmk.Prelude.{
  ◌⊎◌, ℕ, ◌+◌, ◌≡◌, refl, String, true, Option, none, some, List, [], ◌∷◌, All, ok, err, arith,
}
use latexmk.Project.State.{StateFile}
use latexmk.Project.Names.{Codec, is_staged_name}
use latexmk.Project.Blobs.{
  References, Verdict, Walked, walk, walk_file, unreferenced_verdict, is_blob_path, is_referenced,
  last_part, remove_unreferenced_regular_files,
}

-- The bytes of some files.
abbrev pub bytes_of : List StateFile → ℕ
bytes_of [] = 0
bytes_of (f ∷ files) = f.size + bytes_of files

walk-exact_step :
    (o : Option String) (v : Verdict) (verdict : StateFile → Verdict) (f : StateFile)
    (files : List StateFile) (n : ℕ) (rest : Walked)
    → verdict f ≡ v
    → (walk_file o v f files rest).0 ≡ ok n
    → ((m : ℕ)
        → rest.0 ≡ ok m
        → All (λ g. verdict g ≡ Verdict.leave) rest.1 × (bytes_of files ≡ bytes_of rest.1 + m))
    → All (λ g. verdict g ≡ Verdict.leave) (walk_file o v f files rest).1
      × (f.size + bytes_of files ≡ bytes_of (walk_file o v f files rest).1 + n)
walk-exact_step o Verdict.leave verdict f files n rest e h ih =
    let r = ih n h in ((e, r.0), omega (arith, r.1))
walk-exact_step o (Verdict.stop m) verdict f files n rest e h ih = ground arith
walk-exact_step (some m) Verdict.remove verdict f files n rest e h ih = ground arith
walk-exact_step none Verdict.remove verdict f files n (ok k, left) e h ih =
    let r = ih k refl in (r.0, ground (arith, r.1, h))
walk-exact_step none Verdict.remove verdict f files n (err m, left) e h ih = ground arith

-- Where a walk succeeds, it leaves nothing but what it is to leave, and reports the bytes that are
-- gone.
walk_exact :
    (removal : List String → Option String) (verdict : StateFile → Verdict) (files : List StateFile)
    (n : ℕ)
    → (walk removal verdict files).0 ≡ ok n
    → All (λ g. verdict g ≡ Verdict.leave) (walk removal verdict files).1
      × (bytes_of files ≡ bytes_of (walk removal verdict files).1 + n)
unfolding walk
walk_exact removal verdict [] n h = (tt, ground (arith, h))
walk_exact removal verdict (f ∷ files) n h =
    walk-exact_step (removal f.parts) (verdict f) verdict f files n (walk removal verdict files)
      refl h (λ m e. walk_exact removal verdict files m e)

-- A file that a collection may leave: one that is being staged, or a blob that is referenced.
abbrev pub Belongs : Codec → References → StateFile → Type 0
Belongs c refs f =
    (is_staged_name c (last_part f.parts) ≡ true)
    ⊎ ((is_blob_path c f.parts ≡ true) × (is_referenced refs f.parts ≡ true))

leave-Belongs :
    (c : Codec) (refs : References) (f : StateFile)
    → unreferenced_verdict c refs f ≡ Verdict.leave
    → Belongs c refs f
leave-Belongs c refs f h = ground (arith, h)

All-leave-Belongs :
    (c : Codec) (refs : References) (files : List StateFile)
    → All (λ g. unreferenced_verdict c refs g ≡ Verdict.leave) files
    → All (Belongs c refs) files
All-leave-Belongs c refs [] h = tt
All-leave-Belongs c refs (f ∷ files) (h, hs) =
    (leave-Belongs c refs f h, All-leave-Belongs c refs files hs)

-- Where the removal of unreferenced blobs succeeds, nothing is left but the files that are being
-- staged and the blobs that are referenced, and it reports the number of bytes that are gone.
pub remove_unreferenced_regular_files_exact :
    (c : Codec) (removal : List String → Option String) (refs : References) (files : List StateFile)
    (n : ℕ)
    → (remove_unreferenced_regular_files c removal refs files).0 ≡ ok n
    → let left = (remove_unreferenced_regular_files c removal refs files).1 in
      All (Belongs c refs) left × (bytes_of files ≡ bytes_of left + n)
unfolding remove_unreferenced_regular_files
remove_unreferenced_regular_files_exact c removal refs files n h =
    let r = walk_exact removal (unreferenced_verdict c refs) files n h in
    (All-leave-Belongs c refs (walk removal (unreferenced_verdict c refs) files).1 r.0, r.1)
