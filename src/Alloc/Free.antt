-- ===== src/Alloc/Free.antt =====
-- `bfree` of src/alloc/alloc_wrapper.cpp on the whole allocator, against the map of the blocks in use.
use localsoftware.Common.{
  ℕ, ◌+◌, ◌-◌, ◌*◌, ◌/◌, ◌≤◌, ◌≡◌, ◌≢◌, refl, sym, ap, subst, ◌∙◌, inl, inr, true, false, [], ◌∷◌,
  ◌++◌, none, some, ◌==◌, if◌then◌else◌, length, arith, Bool-cases, Option-cases,
}
use localsoftware.Common.Maps.{lookup, erase, nat_eq, lookup-erase}
use localsoftware.Alloc.{
  Allocator, block_size, blocks_in_arena, seg, records, with_records, release, remove, owner,
  is_spare, bfree_in, bfree,
}
use localsoftware.Alloc.Tiling.{Segments, total, total-append}
use localsoftware.Alloc.Join.{grown, beyond, join}
use localsoftware.Alloc.Release.{release-Tiles}
use localsoftware.Alloc.Blocks.{View, bases, blocks, blocks-free, taken-release}
use localsoftware.Alloc.Ordered.{lookup_least}
use localsoftware.Alloc.Heap.{
  IsValid, live, valid-Spaced, valid-Ordered, custom_at_block, live-Inserted, Inserted-change,
}
use localsoftware.Alloc.Arenas.{
  remove-bases, Spaced-drop, Outside-drop, owner-bases, Tiled-drop, Tiled-agree,
}
use localsoftware.Alloc.Grow.{change-IsValid}
use localsoftware.Alloc.Locate.{locate, spare_segments, remove-Outside}

-- What `bfree` does to the map of the blocks in use.
pub record Freed (a : Allocator) (v : View) (p : ℕ) (b : Allocator) : Type 0 where
  pub view : View
  pub valid : IsValid b view
  pub change : (x : ℕ) → live b view x ≡ (if p == x then none else live a v x)

-- Giving a free arena back to the kernel.
abbrev without_arena : Allocator → ℕ → Allocator
without_arena a base = record a {
  arenas = remove base a.arenas;
  segment_info = erase base a.segment_info;
}

erase-size :
    (a : Allocator) (base : ℕ)
    → ((x : ℕ) → length (records a x) ≡ 64)
    → (x : ℕ) → length (records (without_arena a base) x) ≡ 64
erase-size a base h x = ground (arith, lookup-erase base x a.segment_info, h x)

without_arena-IsValid :
    (a : Allocator) (xs ys : View) (base : ℕ) (s : Segments)
    → IsValid a (xs ++ (base, s) ∷ ys)
    → IsValid (without_arena a base) (xs ++ ys)
without_arena-IsValid a xs ys base s h =
    let b = without_arena a base in
    let spaced = valid-Spaced a (xs ++ (base, s) ∷ ys) h in
    let others : (x : ℕ) → base ≢ x → records b x ≡ records a x =
      λ x ne. ground (arith, lookup-erase base x a.segment_info) in
    let names : bases (xs ++ ys) ≡ remove base a.arenas =
      sym (remove-bases 0 base s xs ys spaced) ∙ ap (remove base) h.names in
    record {
      names = names;
      spaced = rw (← names) (Spaced-drop 0 base s xs ys spaced);
      tiled = Tiled-agree a b 0 base s xs ys spaced others (Tiled-drop a xs ys base s h.tiled).1;
      sizes = erase-size a base h.sizes;
      clear = λ c k e.
          let (large, out) = h.clear c k e in
          (large, rw (← names) (Outside-drop c k base s xs ys (rw (← h.names) at out)));
      apart = h.apart;
    }

-- Freeing a segment of an arena, before the arena is looked at.
release-Freed :
    (a : Allocator) (xs ys : View) (base : ℕ) (before after : Segments) (n : ℕ)
    → IsValid a (xs ++ (base, before ++ (n, true) ∷ after) ∷ ys)
    → let b = with_records a base (release (records a base) (total before)) in
      let w = xs ++ (base, join before (grown n after) (beyond after)) ∷ ys in
      IsValid b w
      × ((x : ℕ)
          → live b w x ≡ (
              if base + total before * block_size == x
              then none
              else live a (xs ++ (base, before ++ (n, true) ∷ after) ∷ ys) x))
release-Freed a xs ys base before after n h =
    let s = before ++ (n, true) ∷ after in
    let t = join before (grown n after) (beyond after) in
    let arr = release (records a base) (total before) in
    let b = with_records a base arr in
    let p = base + total before * block_size in
    let tiles = (Tiled-drop a xs ys base s h.tiled).0 in
    let valid =
      change-IsValid a xs ys base s t arr h (release-Tiles (records a base) before after n tiles) in
    let inserted = Inserted-change xs ys base t s (p, n) (taken-release base before after n) in
    let (gone, change) =
      live-Inserted b a (xs ++ (base, t) ∷ ys) (xs ++ (base, s) ∷ ys) p n refl h inserted in
    (
      valid,
      λ x. elim (Bool-cases (p == x)) [
        | inl e ↦ let same : p ≡ x = ground arith in rw e (rw (← same) gone)
        | inr e ↦ rw e (sym (rw e at (change x)))
      ],
    )

-- `bfree` in an arena, by whether the arena is given back.
bfree_in_kept :
    (a : Allocator) (p base pos : ℕ)
    → (p - base) / block_size ≡ pos
    → is_spare (with_records a base (release (records a base) pos)) base ≡ false
    → bfree_in a p base ≡ (with_records a base (release (records a base) pos), [])
unfolding bfree_in
bfree_in_kept a p base pos e spare = rw (e, spare) refl

bfree_in_spare :
    (a : Allocator) (p base pos : ℕ)
    → (p - base) / block_size ≡ pos
    → is_spare (with_records a base (release (records a base) pos)) base ≡ true
    → bfree_in a p base ≡ (
      without_arena (with_records a base (release (records a base) pos)) base,
      (base, blocks_in_arena * block_size) ∷ [],
    )
unfolding bfree_in
bfree_in_spare a p base pos e spare = rw (e, spare) refl

without_arena-live :
    (a : Allocator) (xs ys : View) (base : ℕ) (s : Segments)
    → s ≡ (64, false) ∷ []
    → (x : ℕ) → live (without_arena a base) (xs ++ ys) x ≡ live a (xs ++ (base, s) ∷ ys) x
without_arena-live a xs ys base s e x =
    let same : blocks (xs ++ (base, s) ∷ ys) ≡ blocks (xs ++ ys) =
      ap (λ t. blocks (xs ++ (base, t) ∷ ys)) e ∙ blocks-free xs ys base in
    ground (arith, ap (λ m. lookup x m) same)

is_spare_cases :
    (a : Allocator) (base : ℕ)
    → is_spare a base ≡ true
    → ((seg (records a base) 0).occupied ≡ false) × ((seg (records a base) 0).len ≡ 64)
is_spare_cases a base h = ground arith

bfree_in-Freed :
    (a : Allocator) (xs ys : View) (base : ℕ) (before after : Segments) (n : ℕ)
    → let v = xs ++ (base, before ++ (n, true) ∷ after) ∷ ys in
      IsValid a v
      → Freed a v
          (base + total before * block_size)
          (bfree_in a (base + total before * block_size) base).0
bfree_in-Freed a xs ys base before after n h =
    let t = join before (grown n after) (beyond after) in
    let b = with_records a base (release (records a base) (total before)) in
    let p = base + total before * block_size in
    let pos : (p - base) / block_size ≡ total before = omega arith in
    let (valid, change) = release-Freed a xs ys base before after n h in
    elim (Bool-cases (is_spare b base)) [
      | inl spare ↦
          let (empty, full) = is_spare_cases b base spare in
          let whole =
            spare_segments (records b base) t (Tiled-drop b xs ys base t valid.tiled).0 empty
              full in
          rw (bfree_in_spare a p base (total before) pos spare) (record {
            view = xs ++ ys;
            valid = without_arena-IsValid b xs ys base t valid;
            change = λ x. without_arena-live b xs ys base t whole x ∙ change x;
          })
      | inr kept ↦
          rw (bfree_in_kept a p base (total before) pos kept)
            (record { view = xs ++ (base, t) ∷ ys; valid = valid; change = change })
    ]

-- `bfree` of a large mapping.
abbrev without_custom : Allocator → ℕ → Allocator
without_custom a p = record a {
  arenas = remove p a.arenas;
  custom_arenas = erase p a.custom_arenas;
}

bfree_custom :
    (a : Allocator) (p num : ℕ)
    → lookup p a.custom_arenas ≡ some num
    → bfree a p ≡ (without_custom a p, (p, num * block_size) ∷ [])
unfolding bfree
bfree_custom a p num e = rw (bfree, e) refl

not_block :
    (a : Allocator) (v : View) (p num : ℕ)
    → IsValid a v
    → lookup p a.custom_arenas ≡ some num
    → lookup p (blocks v) ≡ none
not_block a v p num h e = elim (Option-cases (lookup p (blocks v))) [
  | inl q ↦ q
  | inr (n, q) ↦ absurd (ground (arith, custom_at_block a v p n h q))
]

custom-Freed :
    (a : Allocator) (v : View) (p num : ℕ)
    → IsValid a v
    → lookup p a.custom_arenas ≡ some num
    → Freed a v p (without_custom a p)
custom-Freed a v p num h e =
    let (large, out) = h.clear p num e in
    let same : remove p a.arenas ≡ a.arenas = remove-Outside p num a.arenas (omega arith) out in
    let seen = λ (x : ℕ). lookup-erase p x a.custom_arenas in
    let inside = not_block a v p num h e in
    record {
      view = v;
      valid = record {
        names = rw same h.names;
        spaced = rw same h.spaced;
        tiled = h.tiled;
        sizes = h.sizes;
        clear = λ c k q. rw same (h.clear c k (ground (arith, seen c)));
        apart = λ c k d j q r. h.apart c k d j (ground (arith, seen c)) (ground (arith, seen d));
      };
      change = λ x. ground (arith, seen x, inside);
    }

bfree_arena :
    (a : Allocator) (p base : ℕ)
    → lookup p a.custom_arenas ≡ none
    → owner p a.arenas none ≡ some base
    → bfree a p ≡ bfree_in a p base
unfolding bfree
bfree_arena a p base e f = rw (bfree, e, f) refl

block-Freed :
    (a : Allocator) (v : View) (p n : ℕ)
    → IsValid a v
    → lookup p a.custom_arenas ≡ none
    → lookup p (blocks v) ≡ some n
    → Freed a v p (bfree a p).0
block-Freed a v p n h e q =
    let l = locate v p n q in
    let s = l.before ++ (n, true) ∷ l.after in
    let there : IsValid a (l.lower ++ (l.base, s) ∷ l.upper) = subst (IsValid a) l.splits h in
    let tiles = (Tiled-drop a l.lower l.upper l.base s there.tiled).0 in
    let pos = (lookup_least 0 p n (blocks v) (valid-Ordered a v h) q).1 in
    let fits : total l.before + n ≤ 64 =
      omega (arith, total-append l.before ((n, true) ∷ l.after), tiles.covers) in
    let owned : owner p a.arenas none ≡ some l.base = rw (← there.names) (
      owner-bases 0 l.base p s l.lower l.upper none
        (valid-Spaced a (l.lower ++ (l.base, s) ∷ l.upper) there) (omega (arith, l.starts))
        (omega (arith, l.starts, fits, pos))) in
    let freed = bfree_in-Freed a l.lower l.upper l.base l.before l.after n there in
    rw (bfree_arena a p l.base e owned) (
      subst (λ w. Freed a w p (bfree_in a p l.base).0) (sym l.splits)
        (subst (λ x. Freed a (l.lower ++ (l.base, s) ∷ l.upper) x (bfree_in a x l.base).0)
          (sym l.starts) freed))

-- On an allocator in order, `bfree` of an address that is in use: the address is no longer in use,
-- every other address has as many blocks in use as before, and the allocator stays in order.
pub bfree-Freed :
    (a : Allocator) (v : View) (p n : ℕ)
    → IsValid a v
    → live a v p ≡ some n
    → Freed a v p (bfree a p).0
bfree-Freed a v p n h q = elim (Option-cases (lookup p a.custom_arenas)) [
  | inl e ↦ block-Freed a v p n h e (ground arith)
  | inr (num, e) ↦ rw (bfree_custom a p num e) (custom-Freed a v p num h e)
]
