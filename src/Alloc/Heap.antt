-- ===== src/Alloc/Heap.antt =====
-- The allocator as a map from the addresses of the blocks in use to their sizes, and when its
-- records are in order. For src/alloc/alloc_wrapper.cpp.
use localsoftware.Common.{
  ℕ, ◌<◌, ◌≡◌, refl, ap, ◌⊎◌, inl, inr, List, [], ◌∷◌, ◌++◌, Option, none, some, ◌==◌,
  if◌then◌else◌, length, arith,
}
use localsoftware.Common.Maps.{Map, lookup, nat_eq}
use localsoftware.Alloc.{Allocator, records}
use localsoftware.Alloc.Tiling.{Segments}
use localsoftware.Alloc.Blocks.{
  View, bases, taken, blocks, Apart, Ordered, Spaced, Inserted, blocks-append, Inserted-frame,
}
use localsoftware.Alloc.Ordered.{
  Tiled, Outside, blocks-Ordered, lookup_least, lookup-Inserted, lookup-Apart, blocks-Apart,
}

-- The mappings of `bmalloc` for more than 64 blocks, and what they keep clear of.
abbrev pub Clear : Map ℕ ℕ → List ℕ → Type 0
Clear custom arenas = (c k : ℕ) → lookup c custom ≡ some k → (64 < k) × Outside c k arenas

abbrev pub CustomApart : Map ℕ ℕ → Type 0
CustomApart custom =
    (c k d j : ℕ) → lookup c custom ≡ some k → lookup d custom ≡ some j → (c ≡ d) ⊎ Apart c k d j

-- The arenas are in order and do not overlap, each one's records hold the segments of the view, and
-- the large mappings are apart from each other and from the arenas.
pub record IsValid (a : Allocator) (v : View) : Type 0 where
  pub names : bases v ≡ a.arenas
  pub spaced : Spaced 0 a.arenas
  pub tiled : Tiled a v
  pub sizes : (x : ℕ) → length (records a x) ≡ 64
  pub clear : Clear a.custom_arenas a.arenas
  pub apart : CustomApart a.custom_arenas

-- The number of blocks in use at an address.
abbrev pub live : Allocator → View → ℕ → Option ℕ
live a v x = elim (lookup x a.custom_arenas) [ some k ↦ some k | none ↦ lookup x (blocks v) ]

pub valid-Spaced : (a : Allocator) (v : View) → IsValid a v → Spaced 0 (bases v)
valid-Spaced a v h = rw h.names h.spaced

pub valid-Ordered : (a : Allocator) (v : View) → IsValid a v → Ordered 0 (blocks v)
valid-Ordered a v h = blocks-Ordered a 0 v (valid-Spaced a v h) h.tiled

-- What is live is a large mapping or a block of an arena.
pub live_cases :
    (a : Allocator) (v : View) (x n : ℕ)
    → live a v x ≡ some n
    → (lookup x a.custom_arenas ≡ some n) ⊎ (lookup x (blocks v) ≡ some n)
live_cases a v x n h = ground arith

custom_block :
    (a : Allocator) (v : View) (x n y m : ℕ)
    → IsValid a v
    → lookup x a.custom_arenas ≡ some n
    → lookup y (blocks v) ≡ some m
    → Apart x n y m
custom_block a v x n y m h p q =
    let out : Outside x n (bases v) = rw h.names (h.clear x n p).1 in
    blocks-Apart a x n y m v h.tiled out q

-- In a valid allocator two blocks in use do not overlap.
pub live-Apart :
    (a : Allocator) (v : View) (x n y m : ℕ)
    → IsValid a v
    → live a v x ≡ some n
    → live a v y ≡ some m
    → (x ≡ y) ⊎ Apart x n y m
live-Apart a v x n y m h p q = elim (live_cases a v x n p) [
  | inl cx ↦ elim (live_cases a v y m q) [
    | inl cy ↦ h.apart x n y m cx cy
    | inr by ↦ inr (custom_block a v x n y m h cx by)
  ]
  | inr bx ↦ elim (live_cases a v y m q) [
    | inl cy ↦ elim (custom_block a v y m x n h cy bx) [
      | inl left ↦ inr (inr left)
      | inr right ↦ inr (inl right)
    ]
    | inr by ↦ lookup-Apart 0 x n y m (blocks v) (valid-Ordered a v h) bx by
  ]
]

-- Every block in use has at least one block, so its address is no other's.
pub custom_at_block :
    (a : Allocator) (v : View) (x n : ℕ)
    → IsValid a v
    → lookup x (blocks v) ≡ some n
    → lookup x a.custom_arenas ≡ none
custom_at_block a v x n h q = elim (custom_cases (lookup x a.custom_arenas)) [
  | inl e ↦ e
  | inr (k, e) ↦
      let least = lookup_least 0 x n (blocks v) (valid-Ordered a v h) q in
      absurd (elim (custom_block a v x k x n h e q) [
        | inl l ↦ omega (arith, l, (h.clear x k e).0)
        | inr r ↦ omega (arith, r, least.1)
      ])
]
  where
    custom_cases : (o : Option ℕ) → (o ≡ none) ⊎ ((k : ℕ) × (o ≡ some k))
    custom_cases none = inl refl
    custom_cases (some k) = inr (k, refl)

-- Putting a block into the view makes it live, and changes nothing else.
pub live-Inserted :
    (a b : Allocator) (v w : View) (p n : ℕ)
    → a.custom_arenas ≡ b.custom_arenas
    → IsValid b w
    → Inserted (p, n) (blocks v) (blocks w)
    → (live a v p ≡ none) × ((x : ℕ) → live b w x ≡ (if p == x then some n else live a v x))
live-Inserted a b v w p n same h i =
    let (fresh, others) = lookup-Inserted 0 p n (blocks v) (blocks w) i (valid-Ordered b w h) in
    let there : lookup p (blocks w) ≡ some n = ground (arith, others p) in
    let clear : lookup p b.custom_arenas ≡ none = custom_at_block b w p n h there in
    let agree : (x : ℕ) → lookup x a.custom_arenas ≡ lookup x b.custom_arenas =
      λ x. ap (λ c. lookup x c) same in
    (ground (arith, fresh, agree p, clear), λ x. ground (arith, others x, agree x, clear))

-- Changing one arena of the view.
pub bases-change :
    (xs ys : View) (base : ℕ) (s t : Segments)
    → bases (xs ++ (base, s) ∷ ys) ≡ bases (xs ++ (base, t) ∷ ys)
bases-change [] ys base s t = refl
bases-change ((b, r) ∷ xs) ys base s t = ap (λ l. b ∷ l) (bases-change xs ys base s t)

pub Inserted-change :
    (xs ys : View) (base : ℕ) (s t : Segments) (x : ℕ × ℕ)
    → Inserted x (taken base 0 s) (taken base 0 t)
    → Inserted x (blocks (xs ++ (base, s) ∷ ys)) (blocks (xs ++ (base, t) ∷ ys))
Inserted-change xs ys base s t x i =
    let framed = Inserted-frame x _ _ (blocks xs) (blocks ys) i in
    rw (blocks-append xs ((base, s) ∷ ys), blocks-append xs ((base, t) ∷ ys)) framed
