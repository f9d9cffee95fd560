-- ===== src/File.antt =====
-- src/common/file.{h,cpp}: `File`, which owns a descriptor and closes it when it is destroyed. The objects
-- that a run makes stand in a list, in the order of their making; a destroyed one leaves an empty slot.
-- What is closed is returned.
pub mod Ownership
mod Tests
use localsoftware.Common.{
  ℕ, Bool, List, [], ◌∷◌, ◌++◌, Option, none, some, get_elem?, set, ◌==◌, if◌then◌else◌,
}
use localsoftware.Common.Int.{ℤ, negsuc, beq_ℤ}
use localsoftware.Runtime.Types.{Result, ok, err, ◌>>=◌, or_fault, undefined_behaviour}

pub record File : Type 0 where
  pub fd_ : ℤ

-- -1 is no descriptor.
abbrev pub no_fd : ℤ
no_fd = negsuc 0

abbrev pub close_fd : ℤ → List ℤ
close_fd fd = if beq_ℤ fd no_fd then [] else fd ∷ []

-- `~File`.
unfoldable pub destroy : File → List ℤ
destroy f = close_fd f.fd_

-- `File(File&& other)`: the new object and what remains of `other`.
unfoldable pub move : File → File × File
move other = (record { fd_ = other.fd_ }, record { fd_ = no_fd })

-- `operator=(File&& other)` for two objects: the objects afterwards, and what is closed.
unfoldable pub assign : File → File → File × File × List ℤ
assign this other = (record { fd_ = other.fd_ }, record { fd_ = no_fd }, close_fd this.fd_)

-- What a program does with files.
pub data Op : Type 0 where
  make : ℤ → Op
  move_from : ℕ → Op
  assign_to : (this other : ℕ) → Op
  drop_file : ℕ → Op

abbrev pub Files : Type 0
Files = List (Option File)

-- An object that is alive.
abbrev pub live : Files → ℕ → Result File
live fs i = or_fault (elim (get_elem? fs i) [ none ↦ none | some f ↦ f ]) undefined_behaviour

unfoldable pub step : Files → Op → Result (Files × List ℤ)
unfolding destroy move assign
step fs (make fd) = ok (fs ++ some (record { fd_ = fd }) ∷ [], [])
step fs (move_from i) = do
  other ← live fs i
  let (new, rest) = move other
  ok (set fs i (some rest) ++ some new ∷ [], [])
step fs (assign_to i j) = if i == j then (do this ← live fs i; ok (fs, [])) else (do
  this ← live fs i
  other ← live fs j
  let (this', other', closed) = assign this other
  ok (set (set fs i (some this')) j (some other'), closed))
step fs (drop_file i) = do f ← live fs i; ok (set fs i none, destroy f)

unfoldable pub run : Files → List Op → Result (Files × List ℤ)
unfolding step
run fs [] = ok (fs, [])
run fs (op ∷ ops) = do first ← step fs op; rest ← run first.0 ops; ok (rest.0, first.1 ++ rest.1)
