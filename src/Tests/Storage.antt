-- ===== src/Tests/Storage.antt =====
-- The theorems of the storage, the streams and the registry at concrete inputs.
use latexmk.Prelude.{
  ◌&&◌, leb, ℕ, List, ◌+◌, ◌≡◌, refl, true, false, none, some, [], ◌∷◌, arith, ltb, length, take,
}
use latexmk.Project.Publication.{
  Quota, Settled, StatePublication, file, staged, stage_state, commit, close, Accounts, LetGo,
  Staged, stage_state-Staged, commit-Accounts, close-Accounts,
}
use latexmk.Archive.Trailer.{
  next, last, verify_trailer, accepts, contents, all_zero, comes_to_end, max_tar_padding_bytes,
  verify_trailer_iff,
}
use latexmk.Engine.Registry.{Driver, register, Registered, register-Registered}
use latexmk.Process.Buffer.{write_all, new_capped_buffer, concat, write_all_prefix}
use latexmk.Process.Stream.{
  StreamWriter, write_each, Answer, write_each_limit, open_writer, Runs, write_each-Runs,
}

write_all_prefix_example :
    ((write_all ((1 ∷ 2 ∷ []) ∷ (3 ∷ 4 ∷ []) ∷ []) (new_capped_buffer 3)).buf
      ≡ take 3 (concat ((1 ∷ 2 ∷ []) ∷ (3 ∷ 4 ∷ []) ∷ [])))
    × ((write_all ((1 ∷ 2 ∷ []) ∷ (3 ∷ 4 ∷ []) ∷ []) (new_capped_buffer 3)).truncated
        ≡ ltb 3 (length (concat ((1 ∷ 2 ∷ []) ∷ (3 ∷ 4 ∷ []) ∷ []))))
write_all_prefix_example = write_all_prefix ((1 ∷ 2 ∷ []) ∷ (3 ∷ 4 ∷ []) ∷ []) 3

abbrev fresh_writer : StreamWriter
fresh_writer = record { remaining = 10; cancelled = false; error = none }

abbrev two_writes : List (ℕ × Answer)
two_writes = (4, record { taken = 4; error = none }) ∷ (9, record { taken = 9; error = none }) ∷ []

write_each_limit_example :
    (write_each two_writes fresh_writer).0 + (write_each two_writes fresh_writer).1.remaining ≡ 10
write_each_limit_example = write_each_limit two_writes fresh_writer (omega arith, (omega arith, tt))

write_each-Runs_example : Runs 10 two_writes (write_each two_writes (open_writer 10))
write_each-Runs_example = write_each-Runs two_writes 10

abbrev empty_quota : Quota
empty_quota = record { max_state_bytes = 100; state_bytes = 30; pending_bytes = 20 }

stage_state-Staged_example :
    Staged none 40
      (staged 40)
      empty_quota
      (stage_state none none 40 (staged 40) empty_quota).0
      (stage_state none none 40 (staged 40) empty_quota).1
stage_state-Staged_example = stage_state-Staged none none 40 (staged 40) empty_quota (omega arith)

abbrev held_quota : Quota
held_quota = record { max_state_bytes = 100; state_bytes = 30; pending_bytes = 60 }

abbrev held_file : StatePublication
held_file = record { rooted = true; pending = some 40; size = 40; reserved = true }

held_file-Accounts : Accounts 20 held_file held_quota
held_file-Accounts = record { exact = refl; limited = omega arith; whole = refl }

commit-Accounts_example :
    Accounts 20
      (commit (file 10) none held_file held_quota).1
      (commit (file 10) none held_file held_quota).2
    × Settled
        (file 10)
        none
        held_file
        held_quota
        (commit (file 10) none held_file held_quota).0
        (commit (file 10) none held_file held_quota).1
        (commit (file 10) none held_file held_quota).2
commit-Accounts_example = commit-Accounts (file 10) none 20 held_file held_quota held_file-Accounts

close-Accounts_example :
    Accounts 20 (close none none held_file held_quota).1 (close none none held_file held_quota).2
    × LetGo none (close none none held_file held_quota).1
close-Accounts_example = close-Accounts none none 20 held_file held_quota held_file-Accounts

verify_trailer_iff_example : accepts (verify_trailer (next (0 ∷ 0 ∷ []) (last (0 ∷ []) none))) ≡ (
    leb (length (contents (next (0 ∷ 0 ∷ []) (last (0 ∷ []) none)))) max_tar_padding_bytes
    && (all_zero (contents (next (0 ∷ 0 ∷ []) (last (0 ∷ []) none)))
        && comes_to_end (next (0 ∷ 0 ∷ []) (last (0 ∷ []) none))))
verify_trailer_iff_example = verify_trailer_iff (next (0 ∷ 0 ∷ []) (last (0 ∷ []) none))

abbrev lab : Driver
lab = record {
  latexmk_args = "-pdf" ∷ [];
  graphics_extensions = [];
  version_probe = record { name = "lab"; args = [] };
}

register-Registered_example :
    Registered "lab" (some lab) [] (register "lab" (some lab) []).0 (register "lab" (some lab) []).1
register-Registered_example = register-Registered "lab" (some lab) []
