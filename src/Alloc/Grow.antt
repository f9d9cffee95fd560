-- ===== src/Alloc/Grow.antt =====
-- Changing and adding arenas keeps the allocator of src/alloc/alloc_wrapper.cpp in order.
use localsoftware.Common.{
  ℕ, ◌≡◌, ◌≢◌, refl, ap, subst, ◌∙◌, inl, inr, false, List, [], ◌∷◌, ◌++◌, some, ◌==◌,
  if◌then◌else◌, set, arith, Bool-cases,
}
use localsoftware.Common.Maps.{lookup, insert, nat_eq, lookup-insert}
use localsoftware.Alloc.{
  SegmentInfo, Allocator, records, with_records, insert_sorted, add_arena, whole, info,
}
use localsoftware.Alloc.Tiling.{Segments, Tiles}
use localsoftware.Alloc.Blocks.{View, bases, Apart}
use localsoftware.Alloc.Ordered.{Tiled, Outside}
use localsoftware.Alloc.Heap.{IsValid, valid-Spaced, bases-change}
use localsoftware.Alloc.Arenas.{
  Spaced-insert_sorted, Outside-insert_sorted, bases-insert_sorted, Tiled-drop, Tiled-agree,
  Tiled-add,
}
use localsoftware.Alloc.Carve.{whole-Tiles}

-- Writing one arena's records.
pub records-insert :
    (a : Allocator) (base n : ℕ) (arr : List SegmentInfo) (x : ℕ)
    → records (record a { segment_info = insert base (n, arr) a.segment_info }) x
      ≡ (if base == x then arr else records a x)
records-insert a base n arr x = elim (Bool-cases (base == x)) [
  | inl e ↦ ground (arith, lookup-insert base x (n, arr) a.segment_info)
  | inr e ↦ ground (arith, lookup-insert base x (n, arr) a.segment_info)
]

-- Changing the segments of one arena keeps the allocator in order.
pub change-IsValid :
    (a : Allocator) (xs ys : View) (base : ℕ) (s t : Segments) (arr : List SegmentInfo)
    → IsValid a (xs ++ (base, s) ∷ ys)
    → Tiles arr t
    → IsValid (with_records a base arr) (xs ++ (base, t) ∷ ys)
change-IsValid a xs ys base s t arr h tiles =
    let b = with_records a base arr in
    let seen : (x : ℕ) → records b x ≡ (if base == x then arr else records a x) =
      records-insert a base (info a base).0 arr in
    let here : records b base ≡ arr = ground (arith, seen base) in
    let others : (x : ℕ) → base ≢ x → records b x ≡ records a x = λ x ne. ground (arith, seen x) in
    let kept =
      Tiled-agree a b 0 base s xs ys (valid-Spaced a (xs ++ (base, s) ∷ ys) h) others
        (Tiled-drop a xs ys base s h.tiled).1 in
    record {
      names = bases-change xs ys base t s ∙ h.names;
      spaced = h.spaced;
      tiled = Tiled-add b xs ys base t (rw here tiles) kept;
      sizes = λ x. ground (arith, seen x, tiles.size, h.sizes x);
      clear = h.clear;
      apart = h.apart;
    }

-- What `mmap` promises of the memory that it returns: no arena and no large mapping overlaps it.
pub record IsFree (a : Allocator) (base k : ℕ) : Type 0 where
  pub arenas : Outside base k a.arenas
  pub custom : (c j : ℕ) → lookup c a.custom_arenas ≡ some j → Apart base k c j

abbrev pub with_arena : Allocator → ℕ → Allocator
with_arena a base = record a {
  arenas = insert_sorted base a.arenas;
  segment_info = insert base (64, set (records a base) 0 (whole 64)) a.segment_info;
}

pub add_arena_small : (a : Allocator) (base : ℕ) → add_arena a 64 base ≡ with_arena a base
unfolding add_arena
add_arena_small a base = refl

-- Where a new arena stands in the view.
pub record Added (a : Allocator) (v : View) (base : ℕ) : Type 0 where
  pub before : View
  pub after : View
  pub split : v ≡ before ++ after
  pub valid : IsValid (with_arena a base) (before ++ (base, (64, false) ∷ []) ∷ after)

pub with_arena-Added :
    (a : Allocator) (v : View) (base : ℕ) → IsValid a v → IsFree a base 64 → Added a v base
with_arena-Added a v base h free =
    let b = with_arena a base in
    let arr = set (records a base) 0 (whole 64) in
    let (xs, ys, split, names) = bases-insert_sorted base ((64, false) ∷ []) v in
    let seen : (x : ℕ) → records b x ≡ (if base == x then arr else records a x) =
      records-insert a base 64 arr in
    let here : records b base ≡ arr = ground (arith, seen base) in
    let others : (x : ℕ) → base ≢ x → records b x ≡ records a x = λ x ne. ground (arith, seen x) in
    let tiles = whole-Tiles (records a base) (h.sizes base) in
    let named : bases (xs ++ (base, (64, false) ∷ []) ∷ ys) ≡ insert_sorted base a.arenas =
      names ∙ ap (insert_sorted base) h.names in
    let spaced = Spaced-insert_sorted 0 base a.arenas (omega arith) h.spaced free.arenas in
    let kept =
      Tiled-agree a b 0 base ((64, false) ∷ []) xs ys (rw named spaced) others
        (subst (Tiled a) split h.tiled) in
    record {
      before = xs;
      after = ys;
      split = split;
      valid = record {
        names = named;
        spaced = spaced;
        tiled = Tiled-add b xs ys base ((64, false) ∷ []) (rw here tiles) kept;
        sizes = λ x. ground (arith, seen x, tiles.size, h.sizes x);
        clear = λ c k e.
            let (large, out) = h.clear c k e in
            (
              large,
              Outside-insert_sorted c k base a.arenas
                  (elim (free.custom c k e) [ inl l ↦ inr l | inr r ↦ inl r ]) out,
            );
        apart = h.apart;
      };
    }
