-- ===== src/Alloc/Tests.antt =====
-- Runs of the allocator, and the theorems about it at concrete arenas.
use localsoftware.Common.{
  ℕ, ◌∷◌, ◌≡◌, refl, ◌⊎◌, inl, inr, ◌==◌, Bool-cases, true, false, List, [], Option, none, some,
  arith, replicate,
}
use localsoftware.Common.Maps.{lookup, insert, erase}
use localsoftware.Alloc.{
  SegmentInfo, blank, scan, occupy, release, set_back, merge_forward, merge_back, vacate, seg,
  records, init, bmalloc, bfree, bfree_in, owner, remove, add_arena, insert_sorted, find_block,
  carve, Allocator,
}
use localsoftware.Alloc.Tiling.{Segments, Tiles, header}
use localsoftware.Alloc.Scan.{Searched, scan-Searched}
use localsoftware.Alloc.Release.{release-Tiles}
use localsoftware.Alloc.Blocks.{View, Apart}
use localsoftware.Alloc.Heap.{IsValid, live}
use localsoftware.Alloc.Grow.{IsFree}
use localsoftware.Alloc.Small.{Allocated}
use localsoftware.Alloc.Malloc.{bmalloc-Allocated}
use localsoftware.Alloc.Free.{Freed, bfree-Freed}
use localsoftware.Alloc.History.{
  Held, update, Execution, started, malloc_call, held-Apart, bmalloc-Apart,
}

-- Two blocks in use, then 62 free ones.
abbrev arena : List SegmentInfo
arena = header 2 0 true ∷ blank ∷ header 62 0 false ∷ replicate 61 blank

abbrev in_arena : Segments
in_arena = (2, true) ∷ (62, false) ∷ []

arena-Tiles : Tiles arena in_arena
arena-Tiles = record {
  size = refl;
  run = (refl, omega arith, (refl, omega arith, tt));
  covers = refl;
  coalesced = (tt, tt);
}

scan-Searched_example : Searched in_arena 5 (scan 65 arena 5 0 none)
scan-Searched_example = scan-Searched arena in_arena 5 arena-Tiles

release-Tiles_example : Tiles (release arena 0) ((64, false) ∷ [])
release-Tiles_example = release-Tiles arena [] ((62, false) ∷ []) 2 arena-Tiles

-- Take `num` blocks of a fresh allocator and give them back: the address and the first segment.
abbrev give_back : ℕ → Option (List ℕ)
unfolding init bmalloc bfree bfree_in find_block scan occupy release set_back merge_forward
    merge_back vacate owner remove add_arena insert_sorted carve lookup insert erase
give_back num = elim (bmalloc (init 1048576) num 4194304) [
  | none ↦ none
  | some (a, p) ↦ some (p ∷ (seg (records (bfree a p).0 1048576) 0).len ∷ [])
]

give_back_two : give_back 2 ≡ some (1048576 ∷ 64 ∷ [])
unfolding init bmalloc bfree bfree_in find_block scan occupy release set_back merge_forward
    merge_back vacate owner remove add_arena insert_sorted carve lookup insert erase
give_back_two = refl

-- One arena that holds the records above.
abbrev one_arena : Allocator
one_arena = record {
  arenas = 1048576 ∷ [];
  custom_arenas = [];
  segment_info = (1048576, (64, arena)) ∷ [];
}

abbrev one_view : View
one_view = (1048576, in_arena) ∷ []

one_arena-IsValid : IsValid one_arena one_view
unfolding lookup
one_arena-IsValid = record {
  names = refl;
  spaced = (omega arith, tt);
  tiled = (arena-Tiles, tt);
  sizes = λ x. elim (Bool-cases (1048576 == x)) [ inl e ↦ ground arith | inr e ↦ ground arith ];
  clear = λ c k e. absurd (cc);
  apart = λ c k d j e f. absurd (cc);
}

above-IsFree : IsFree one_arena 4194304 64
unfolding lookup
above-IsFree = record { arenas = (inr (omega arith), tt); custom = λ c j e. absurd (cc) }

bmalloc-Allocated_example :
    (r : Allocator × ℕ) × (bmalloc one_arena 5 4194304 ≡ some r) × Allocated one_arena one_view 5 r
bmalloc-Allocated_example =
    bmalloc-Allocated one_arena one_view 5 4194304 one_arena-IsValid (omega arith) above-IsFree

held_two : live one_arena one_view 1048576 ≡ some 2
unfolding lookup
held_two = refl

bfree-Freed_example : Freed one_arena one_view 1048576 (bfree one_arena 1048576).0
bfree-Freed_example = bfree-Freed one_arena one_view 1048576 2 one_arena-IsValid held_two

-- Two blocks and then three, in the first arena.
init-IsFree : IsFree (init 1048576) 4194304 64
unfolding init add_arena insert_sorted insert lookup
init-IsFree = record { arenas = (inr (omega arith), tt); custom = λ c j e. absurd (cc) }

abbrev after_two : Allocator × ℕ
after_two = elim (bmalloc (init 1048576) 2 4194304) [ none ↦ (init 0, 0) | some r ↦ r ]

two_blocks : bmalloc (init 1048576) 2 4194304 ≡ some after_two
unfolding init bmalloc find_block scan occupy set_back add_arena insert_sorted lookup insert
two_blocks = refl

execution_two : Execution after_two.0 (update (λ _. none) after_two.1 (some 2))
execution_two =
    malloc_call (init 1048576) after_two.0 (λ _. none) 2 4194304 after_two.1 (started 1048576)
      (omega arith) init-IsFree two_blocks

abbrev holds_two : Held
holds_two = update (λ _. none) after_two.1 (some 2)

still-IsFree : IsFree after_two.0 4194304 64
unfolding init bmalloc find_block scan occupy set_back add_arena insert_sorted lookup insert
still-IsFree = record { arenas = (inr (omega arith), tt); custom = λ c j e. absurd (cc) }

abbrev after_five : Allocator × ℕ
after_five = elim (bmalloc after_two.0 3 4194304) [ none ↦ (init 0, 0) | some r ↦ r ]

three_blocks : bmalloc after_two.0 3 4194304 ≡ some after_five
unfolding init bmalloc find_block scan occupy set_back add_arena insert_sorted lookup insert
three_blocks = refl

abbrev holds_five : Held
holds_five = update holds_two after_five.1 (some 3)

execution_five : Execution after_five.0 holds_five
execution_five =
    malloc_call after_two.0 after_five.0 holds_two 3 4194304 after_five.1 execution_two
      (omega arith) still-IsFree three_blocks

bmalloc-Apart_example :
    (b : Allocator) × (p : ℕ) × (bmalloc after_two.0 3 4194304 ≡ some (b, p))
    × (holds_two p ≡ none)
    × ((x n : ℕ) → holds_two x ≡ some n → Apart x n p 3)
bmalloc-Apart_example =
    bmalloc-Apart after_two.0 holds_two 3 4194304 execution_two (omega arith) still-IsFree

-- The second block starts right behind the first.
holds_first : holds_five 1048576 ≡ some 2
unfolding init bmalloc find_block scan occupy set_back add_arena insert_sorted lookup insert
holds_first = refl

holds_second : holds_five 1081344 ≡ some 3
unfolding init bmalloc find_block scan occupy set_back add_arena insert_sorted lookup insert
holds_second = refl

held-Apart_example : (◌≡◌ {A = ℕ} 1048576 1081344) ⊎ Apart 1048576 2 1081344 3
held-Apart_example =
    held-Apart after_five.0 holds_five 1048576 2 1081344 3 execution_five holds_first holds_second
