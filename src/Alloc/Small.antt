-- ===== src/Alloc/Small.antt =====
-- `bmalloc` of src/alloc/alloc_wrapper.cpp in an arena, against the map of the blocks in use.
use localsoftware.Common.{
  ℕ, ◌+◌, ◌-◌, ◌*◌, ◌≤◌, ◌≡◌, refl, sym, ap, subst, ◌∙◌, true, false, [], ◌∷◌, ◌++◌, none, some,
  ◌==◌, if◌then◌else◌, arith,
}
use localsoftware.Common.Maps.{nat_eq}
use localsoftware.Alloc.{Allocator, records, with_records, carve, occupy, block_size}
use localsoftware.Alloc.Tiling.{Segments, total}
use localsoftware.Alloc.Occupy.{occupy-Tiles, rest_of}
use localsoftware.Alloc.Blocks.{View, blocks, Inserted, blocks-free, taken-occupy}
use localsoftware.Alloc.Heap.{IsValid, live, live-Inserted, Inserted-change}
use localsoftware.Alloc.Arenas.{Tiled-drop}
use localsoftware.Alloc.Carve.{carve-Tiles}
use localsoftware.Alloc.Grow.{change-IsValid, IsFree, with_arena, with_arena-Added}

-- What `bmalloc` does to the map of the blocks in use.
pub record Allocated (a : Allocator) (v : View) (num : ℕ) (r : Allocator × ℕ) : Type 0 where
  pub view : View
  pub valid : IsValid r.0 view
  pub fresh : live a v r.1 ≡ none
  pub change : (x : ℕ) → live r.0 view x ≡ (if r.1 == x then some num else live a v x)

pub in_arena-Allocated :
    (a : Allocator) (xs ys : View) (base : ℕ) (before after : Segments) (n num : ℕ)
    → IsValid a (xs ++ (base, before ++ (n, false) ∷ after) ∷ ys)
    → 1 ≤ num
    → num ≤ n
    → Allocated a (xs ++ (base, before ++ (n, false) ∷ after) ∷ ys) num (
      with_records a base (occupy (records a base) (total before) num),
      base + total before * block_size,
    )
in_arena-Allocated a xs ys base before after n num h one fits =
    let s = before ++ (n, false) ∷ after in
    let t = before ++ (num, true) ∷ rest_of (n - num) after in
    let old = (Tiled-drop a xs ys base s h.tiled).0 in
    let b = with_records a base (occupy (records a base) (total before) num) in
    let valid =
      change-IsValid a xs ys base s t (occupy (records a base) (total before) num) h
        (occupy-Tiles (records a base) before after n num old one fits) in
    let p = base + total before * block_size in
    let inserted =
      Inserted-change xs ys base s t (p, num) (taken-occupy base before after n num fits) in
    let (fresh, change) =
      live-Inserted a b (xs ++ (base, s) ∷ ys) (xs ++ (base, t) ∷ ys) p num refl valid inserted in
    record { view = xs ++ (base, t) ∷ ys; valid = valid; fresh = fresh; change = change }

pub new_arena-Allocated :
    (a : Allocator) (v : View) (num base : ℕ)
    → IsValid a v
    → 1 ≤ num
    → num ≤ 64
    → IsFree a base 64
    → let b = with_arena a base in
      Allocated a v num (with_records b base (carve (records b base) num), base)
new_arena-Allocated a v num base h one fits free =
    let b = with_arena a base in
    let added = with_arena-Added a v base h free in
    let s : Segments = (64, false) ∷ [] in
    let t : Segments = (num, true) ∷ rest_of (64 - num) [] in
    let xs = added.before in
    let ys = added.after in
    let tiles = (Tiled-drop b xs ys base s added.valid.tiled).0 in
    let arr = carve (records b base) num in
    let valid =
      change-IsValid b xs ys base s t arr added.valid
        (carve-Tiles (records b base) num tiles one fits) in
    let start : base + 0 * block_size ≡ base = omega arith in
    let inserted : Inserted (base, num) (blocks v) (blocks (xs ++ (base, t) ∷ ys)) =
      subst (λ p. Inserted (p, num) (blocks v) (blocks (xs ++ (base, t) ∷ ys))) start
        (subst (λ l. Inserted (base + 0 * block_size, num) l (blocks (xs ++ (base, t) ∷ ys)))
          (blocks-free xs ys base ∙ sym (ap blocks added.split))
          (Inserted-change xs ys base s t (base + 0 * block_size, num)
            (taken-occupy base [] [] 64 num fits))) in
    let (fresh, change) =
      live-Inserted a (with_records b base arr) v (xs ++ (base, t) ∷ ys) base num refl valid
        inserted in
    record { view = xs ++ (base, t) ∷ ys; valid = valid; fresh = fresh; change = change }
