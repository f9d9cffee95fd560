-- ===== src/Alloc.antt =====
-- src/alloc/alloc_wrapper.{h,cpp}: the per-thread arena allocator. An arena is 64 blocks of 16 KiB;
-- `segment_info_` holds an array of 64 records for it, of which those at the start of a segment
-- (the headers) count. Addresses are numbers. `mmap` is the kernel's: the address that it returns is
-- an argument, and an allocator call makes at most one such call. `munmap` calls are returned.
pub mod Tiling
pub mod Scan
pub mod Occupy
pub mod Join
pub mod Merge
pub mod Release
pub mod Blocks
pub mod Ordered
pub mod Heap
pub mod Arenas
pub mod Carve
pub mod Grow
pub mod Search
pub mod Small
pub mod Large
pub mod Malloc
pub mod Locate
pub mod Free
pub mod History
mod Tests
use localsoftware.Common.{
  ℕ, zero, suc, ◌+◌, ◌-◌, ◌*◌, ◌/◌, ◌%◌, Bool, true, false, not, ◌&&◌, ◌||◌, List, [], ◌∷◌, ◌++◌,
  Option, none, some, length, get_or, set, replicate, ltb, leb, ◌==◌, if◌then◌else◌,
}
use localsoftware.Common.Maps.{Map, lookup, insert, erase, contains, nat_eq}

-- `BLOCK_SIZE_MMAP` and `BLOCKS_IN_ARENA`.
abbrev pub block_size : ℕ
block_size = 16384

abbrev pub blocks_in_arena : ℕ
blocks_in_arena = 64

pub record SegmentInfo : Type 0 where
  pub len : ℕ
  pub back : ℕ
  pub occupied : Bool
  pub interior : Bool

-- A value stored in a bit field of seven bits.
abbrev pub u7 : ℕ → ℕ
u7 n = n % 128

-- The default member initialisers of `SegmentInfo`.
abbrev pub blank : SegmentInfo
blank = record { len = 0; back = 0; occupied = false; interior = true }

-- `arr[i]`; every access that the allocator's invariant allows is in range.
abbrev pub seg : List SegmentInfo → ℕ → SegmentInfo
seg arr i = get_or arr i blank

abbrev pub usable : SegmentInfo → ℕ → Bool
usable s num = not (s.interior || s.occupied) && leb num s.len

-- The loop of `bmalloc` over one arena: `i` walks the headers, and the last usable one is kept.
-- The outer `none` means that the fuel ran out, where the source would loop for ever.
unfoldable pub scan : ℕ → List SegmentInfo → ℕ → ℕ → Option ℕ → Option (Option ℕ)
scan zero arr num i found = none
scan (suc fuel) arr num i found =
    let rest =
      scan fuel arr num (i + (seg arr i).len) (if usable (seg arr i) num then some i else found) in
    if ltb i (length arr) then rest else some found

-- `if (i < arr.size()) arr[i].back = b`.
unfoldable pub set_back : List SegmentInfo → ℕ → ℕ → List SegmentInfo
set_back arr i b =
    if ltb i (length arr) then set arr i (record (seg arr i) { back = u7 b }) else arr

-- The split of the rest off the found segment.
abbrev pub remainder : List SegmentInfo → ℕ → ℕ → SegmentInfo
remainder arr found num = record {
  len = u7 ((seg arr found).len - num);
  back = u7 found;
  occupied = false;
  interior = false;
}

abbrev pub mark_used : List SegmentInfo → ℕ → ℕ → List SegmentInfo
mark_used arr found num = set arr found (record (seg arr found) { len = u7 num; occupied = true })

-- What `bmalloc` writes into the found arena's records.
unfoldable pub occupy : List SegmentInfo → ℕ → ℕ → List SegmentInfo
unfolding set_back
occupy arr found num =
    let size = (seg arr found).len in
    if (size == num) && ltb (found + size) (length arr)
    then mark_used (set_back arr (found + size) found) found num
    else if ltb num size
    then mark_used
        (set_back (set arr (found + num) (remainder arr found num)) (found + size) (found + num))
        found num
    else mark_used arr found num

-- `bfree`'s first half: take in the segment after this one if it is free.
unfoldable pub merge_forward : List SegmentInfo → ℕ → List SegmentInfo
merge_forward arr position =
    let forward = position + (seg arr position).len in
    if ltb forward (length arr) && not (seg arr forward).occupied
    then (let grown = set arr position (record (seg arr position) {
      len = u7 ((seg arr position).len + (seg arr forward).len);
    }) in
        set grown forward (record (seg grown forward) { interior = true }))
    else arr

-- The segment joins the free one before it.
unfoldable pub merge_back : List SegmentInfo → ℕ → ℕ → List SegmentInfo
unfolding set_back
merge_back arr position back =
    let grown =
      set arr back
        (record (seg arr back) { len = u7 ((seg arr back).len + (seg arr position).len) }) in
    let hidden = set grown position (record (seg grown position) { interior = true }) in
    set_back hidden (back + (seg hidden back).len) back

-- The segment becomes free where it stands.
unfoldable pub vacate : List SegmentInfo → ℕ → List SegmentInfo
unfolding set_back
vacate arr position =
    let vacant = set arr position (record (seg arr position) { occupied = false }) in
    set_back vacant (position + (seg vacant position).len) position

-- What `bfree` writes into the records of the arena that holds the block.
unfoldable pub release : List SegmentInfo → ℕ → List SegmentInfo
unfolding merge_forward merge_back vacate
release arr position =
    let back = (seg arr position).back in
    let merged = merge_forward arr position in
    if not (position == 0) && not (seg merged back).occupied
    then merge_back merged position back
    else vacate merged position

pub record Allocator : Type 0 where
  pub arenas : List ℕ
  pub custom_arenas : Map ℕ ℕ
  pub segment_info : Map ℕ (ℕ × List SegmentInfo)

-- `arenas_.insert(find_if(…, p > arena), arena)`.
unfoldable pub insert_sorted : ℕ → List ℕ → List ℕ
insert_sorted arena [] = arena ∷ []
insert_sorted arena (p ∷ ps) = if ltb arena p then arena ∷ p ∷ ps else p ∷ insert_sorted arena ps

-- The records of an arena that was never written, and those of a new one of `num` blocks.
abbrev pub default_records : List SegmentInfo
default_records = replicate 64 blank

abbrev pub whole : ℕ → SegmentInfo
whole num = record { len = u7 num; back = 0; occupied = false; interior = false }

-- `segment_info_[arena]`, which makes a default entry if there is none.
abbrev pub info : Allocator → ℕ → ℕ × List SegmentInfo
info a arena = elim (lookup arena a.segment_info) [ none ↦ (0, default_records) | some e ↦ e ]

abbrev pub records : Allocator → ℕ → List SegmentInfo
records a arena = (info a arena).1

abbrev pub with_records : Allocator → ℕ → List SegmentInfo → Allocator
with_records a arena arr = record a {
  segment_info = insert arena ((info a arena).0, arr) a.segment_info;
}

-- `arena` is what `mmap` returned.
unfoldable pub add_arena : Allocator → ℕ → ℕ → Allocator
unfolding insert_sorted insert lookup
add_arena a num arena =
    if leb num blocks_in_arena
    then record a {
      arenas = insert_sorted arena a.arenas;
      segment_info = insert arena (num, set (records a arena) 0 (whole num)) a.segment_info;
    }
    else record a {
      custom_arenas =
          if contains arena a.custom_arenas
          then a.custom_arenas
          else insert arena num a.custom_arenas;
    }

-- The constructor.
unfoldable pub init : ℕ → Allocator
unfolding add_arena
init arena =
    add_arena (record { arenas = []; custom_arenas = []; segment_info = [] }) blocks_in_arena arena

-- The loop of `bmalloc` over the arenas, up to the first that has a usable segment.
unfoldable pub find_block : Allocator → ℕ → List ℕ → Option (Option (ℕ × ℕ))
unfolding scan lookup
find_block a num [] = some none
find_block a num (arena ∷ rest) =
    let later = find_block a num rest in
    if contains arena a.custom_arenas then later else elim (scan 65 (records a arena) num 0 none) [
      | none ↦ none
      | some none ↦ later
      | some (some block) ↦ some (some (arena, block))
    ]

-- The first `num` blocks of the arena that `add_arena` made.
unfoldable pub carve : List SegmentInfo → ℕ → List SegmentInfo
carve arr num =
    let used = set arr 0 (record (seg arr 0) { occupied = true; len = u7 num }) in
    if ltb num blocks_in_arena
    then set used num
        (record { len = u7 (blocks_in_arena - num); back = 0; occupied = false; interior = false })
    else used

-- `none` means that the search did not end. `arena` is what `mmap` returns, if it is called.
unfoldable pub bmalloc : Allocator → ℕ → ℕ → Option (Allocator × ℕ)
unfolding add_arena find_block occupy carve
bmalloc a num arena =
    if ltb blocks_in_arena num
    then some (add_arena a num arena, arena)
    else elim (find_block a num a.arenas) [
      | none ↦ none
      | some none ↦
          let a' = add_arena a blocks_in_arena arena in
          some (with_records a' arena (carve (records a' arena) num), arena)
      | some (some (from, block)) ↦
          some (with_records a from (occupy (records a from) block num), from + block * block_size)
    ]

-- `list::remove`.
unfoldable pub remove : ℕ → List ℕ → List ℕ
remove p [] = []
remove p (x ∷ xs) = let rest = remove p xs in if x == p then rest else x ∷ rest

-- The reverse loop of `bfree`: the highest arena that does not lie above `p`.
unfoldable pub owner : ℕ → List ℕ → Option ℕ → Option ℕ
owner p [] best = best
owner p (arena ∷ rest) best = owner p rest (if leb arena p then some arena else best)

-- The calls of `munmap`: address and size.
abbrev pub Unmaps : Type 0
Unmaps = List (ℕ × ℕ)

-- The end of `bfree`: an empty arena is given back if more than three are held.
abbrev pub is_spare : Allocator → ℕ → Bool
is_spare a arena =
    let arr = records a arena in
    not (seg arr 0).occupied && (((seg arr 0).len == blocks_in_arena) && ltb 3 (length a.arenas))

unfoldable pub bfree_in : Allocator → ℕ → ℕ → Allocator × Unmaps
unfolding release remove erase insert lookup
bfree_in a p arena =
    let freed = with_records a arena (release (records a arena) ((p - arena) / block_size)) in
    if is_spare freed arena
    then (
      record freed {
        arenas = remove arena freed.arenas;
        segment_info = erase arena freed.segment_info;
      },
      (arena, blocks_in_arena * block_size) ∷ [],
    )
    else (freed, [])

unfoldable pub bfree : Allocator → ℕ → Allocator × Unmaps
unfolding bfree_in owner lookup erase remove
bfree a p = elim (lookup p a.custom_arenas) [
  | some num ↦ (
    record a { arenas = remove p a.arenas; custom_arenas = erase p a.custom_arenas },
    (p, num * block_size) ∷ [],
  )
  | none ↦ elim (owner p a.arenas none) [ none ↦ (a, []) | some arena ↦ bfree_in a p arena ]
]
