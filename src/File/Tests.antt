-- ===== src/File/Tests.antt =====
-- A run of files that are moved, assigned and destroyed, and the theorem at it.
use localsoftware.Common.{◌+◌, ◌≡◌, refl, List, [], ◌∷◌, none, some}
use localsoftware.Common.Int.{pos}
use localsoftware.Runtime.Types.{ok}
use localsoftware.File.{
  Files, Op, make, move_from, assign_to, drop_file, no_fd, destroy, move, assign, step, run,
}
use localsoftware.File.Ownership.{count, owners, run_lem}

abbrev two_files : List Op
two_files =
    make (pos 5) ∷ make (pos 6) ∷ move_from 0 ∷ assign_to 2 1 ∷ assign_to 2 2 ∷ drop_file 0 ∷ []

abbrev files_left : Files
files_left = none ∷ some (record { fd_ = no_fd }) ∷ some (record { fd_ = pos 6 }) ∷ []

two_files_run : run [] two_files ≡ ok (files_left, pos 5 ∷ [])
unfolding run step move assign destroy
two_files_run = refl

run_lem_example : count (pos 5) (pos 5 ∷ []) + owners (pos 5) files_left ≡ 1
run_lem_example = run_lem (pos 5) two_files files_left (pos 5 ∷ []) refl two_files_run
