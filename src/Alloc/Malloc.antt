-- ===== src/Alloc/Malloc.antt =====
-- `bmalloc` of src/alloc/alloc_wrapper.cpp on the whole allocator, against the map of the blocks in
-- use.
use localsoftware.Common.{
  ℕ, ◌+◌, ◌*◌, ◌≤◌, ◌≡◌, refl, sym, subst, inl, inr, true, false, Option, none, some, if◌then◌else◌,
  ltb, leb, arith, Bool-cases,
}
use localsoftware.Common.Maps.{contains, nat_eq}
use localsoftware.Alloc.{
  Allocator, records, with_records, add_arena, find_block, carve, bmalloc, occupy, block_size,
  blocks_in_arena,
}
use localsoftware.Alloc.Tiling.{total}
use localsoftware.Alloc.Blocks.{View, bases}
use localsoftware.Alloc.Heap.{Clear, IsValid}
use localsoftware.Alloc.Grow.{IsFree, with_arena, add_arena_small}
use localsoftware.Alloc.Search.{Found, in_arena, nowhere, find_block-Found}
use localsoftware.Alloc.Small.{Allocated, in_arena-Allocated, new_arena-Allocated}
use localsoftware.Alloc.Large.{custom_fresh, with_custom, custom_arena-Allocated}

-- The size of the memory that `bmalloc` asks `mmap` for.
abbrev pub mapped : ℕ → ℕ
mapped num = if ltb blocks_in_arena num then num else blocks_in_arena

-- The three ways of `bmalloc`.
bmalloc_large :
    (a : Allocator) (num base : ℕ)
    → ltb 64 num ≡ true
    → contains base a.custom_arenas ≡ false
    → bmalloc a num base ≡ some (with_custom a num base, base)
unfolding bmalloc add_arena
bmalloc_large a num base h e =
    let small : leb num 64 ≡ false = ground arith in rw (h, small, e) refl

bmalloc_found :
    (a : Allocator) (num base from block : ℕ)
    → ltb 64 num ≡ false
    → find_block a num a.arenas ≡ some (some (from, block))
    → bmalloc a num base
      ≡ some (with_records a from (occupy (records a from) block num), from + block * block_size)
unfolding bmalloc
bmalloc_found a num base from block h e = rw (h, e) refl

bmalloc_new :
    (a : Allocator) (num base : ℕ)
    → ltb 64 num ≡ false
    → find_block a num a.arenas ≡ some none
    → let b = with_arena a base in
      bmalloc a num base ≡ some (with_records b base (carve (records b base) num), base)
unfolding bmalloc
bmalloc_new a num base h e = rw (h, e, add_arena_small a base) refl

small-Allocated :
    (a : Allocator) (v : View) (num base : ℕ) (o : Option (Option (ℕ × ℕ)))
    → IsValid a v
    → 1 ≤ num
    → num ≤ 64
    → IsFree a base 64
    → Found v num o
    → find_block a num a.arenas ≡ o
    → (r : Allocator × ℕ) × (bmalloc a num base ≡ some r) × Allocated a v num r
small-Allocated a v num base _ h one fits free (in_arena xs ys from before after n e k) found =
    let r : Allocator × ℕ = (
      with_records a from (occupy (records a from) (total before) num),
      from + total before * block_size,
    ) in
    (
      r,
      bmalloc_found a num base from (total before) (ground arith) found,
      subst (λ w. Allocated a w num r) (sym e)
          (in_arena-Allocated a xs ys from before after n num (subst (IsValid a) e h) one k),
    )
small-Allocated a v num base _ h one fits free nowhere found =
    let b = with_arena a base in
    (
      (with_records b base (carve (records b base) num), base),
      bmalloc_new a num base (ground arith) found,
      new_arena-Allocated a v num base h one fits free,
    )

-- On an allocator in order, when `num` is not 0 and `mmap` returns memory that nothing else uses,
-- `bmalloc` returns. The address that it returns was not in use and is now in use with `num` blocks,
-- every other address has as many blocks in use as before, and the allocator stays in order.
pub bmalloc-Allocated :
    (a : Allocator) (v : View) (num base : ℕ)
    → IsValid a v
    → 1 ≤ num
    → IsFree a base (mapped num)
    → (r : Allocator × ℕ) × (bmalloc a num base ≡ some r) × Allocated a v num r
bmalloc-Allocated a v num base h one free = elim (Bool-cases (ltb 64 num)) [
  | inl large ↦
      let there : IsFree a base num = rw large at free in
      let (new, _) = custom_fresh a v base num h (ground arith) there in
      (
        (with_custom a num base, base),
        bmalloc_large a num base large (ground (arith, new)),
        custom_arena-Allocated a v num base h (ground arith) there,
      )
  | inr small ↦
      let there : IsFree a base 64 = rw small at free in
      let clear : Clear a.custom_arenas (bases v) = rw h.names h.clear in
      small-Allocated a v num base (find_block a num a.arenas) h one (ground arith) there
        (rw h.names at (find_block-Found a num v h.tiled clear)) refl
]
