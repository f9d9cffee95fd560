-- ===== src/Alloc/Ordered.antt =====
-- Looking up an address in an ordered list of blocks.
use localsoftware.Common.{
  ℕ, ◌+◌, ◌*◌, ◌≤◌, ◌<◌, ◌≡◌, refl, ◌⊎◌, inl, inr, true, false, List, [], ◌∷◌, ◌++◌, none, some,
  ◌==◌, if◌then◌else◌, arith, Bool-cases,
}
use localsoftware.Common.Maps.{Map, lookup, nat_eq}
use localsoftware.Alloc.{SegmentInfo, block_size, records, Allocator}
use localsoftware.Alloc.Tiling.{Segments, total, Run, Tiles}
use localsoftware.Alloc.Blocks.{
  View, bases, taken, blocks, Apart, Ordered, Spaced, Inserted, arena_size,
}

-- Ordered blocks between two bounds.
abbrev Within : ℕ → ℕ → Map ℕ ℕ → Type 0
Within lo hi [] = lo ≤ hi
Within lo hi ((p, n) ∷ r) = (lo ≤ p) × (1 ≤ n) × Within (p + n * block_size) hi r

Ordered-mono : (lo mid : ℕ) (l : Map ℕ ℕ) → lo ≤ mid → Ordered mid l → Ordered lo l
Ordered-mono lo mid [] h o = tt
Ordered-mono lo mid ((p, n) ∷ r) h o = (omega (arith, h, o.0), o.1, o.2)

Ordered-append :
    (lo mid : ℕ) (xs ys : Map ℕ ℕ) → Within lo mid xs → Ordered mid ys → Ordered lo (xs ++ ys)
Ordered-append lo mid [] ys h o = Ordered-mono lo mid ys h o
Ordered-append lo mid ((p, n) ∷ xs) ys h o =
    (h.0, h.1, Ordered-append (p + n * block_size) mid xs ys h.2 o)

taken-Within :
    (arr : List SegmentInfo) (base lo pos back : ℕ) (segs : Segments)
    → lo ≤ base + pos * block_size
    → Run arr pos back segs
    → Within lo (base + (pos + total segs) * block_size) (taken base pos segs)
taken-Within arr base lo pos back [] h r = omega arith
taken-Within arr base lo pos back ((n, true) ∷ segs) h r =
    let e : pos + (n + total segs) ≡ pos + n + total segs = omega arith in
    (
      h,
      r.1,
      rw e (
          taken-Within arr base (base + pos * block_size + n * block_size) (pos + n) pos segs
            (omega arith) r.2),
    )
taken-Within arr base lo pos back ((n, false) ∷ segs) h r =
    let e : pos + (n + total segs) ≡ pos + n + total segs = omega arith in
    rw e (taken-Within arr base lo (pos + n) pos segs (omega (arith, h)) r.2)

-- Each arena of the view has the records of its segments.
abbrev pub Tiled : Allocator → View → Type 0
Tiled a [] = Unit {0}
Tiled a ((base, segs) ∷ v) = Tiles (records a base) segs × Tiled a v

taken_Tiles :
    (a : Allocator) (base : ℕ) (segs : Segments)
    → Tiles (records a base) segs
    → Within base (base + arena_size) (taken base 0 segs)
taken_Tiles a base segs t =
    let e : base + (0 + total segs) * block_size ≡ base + arena_size = omega (arith, t.covers) in
    rw e at (taken-Within (records a base) base base 0 0 segs (omega arith) t.run)

pub blocks-Ordered :
    (a : Allocator) (lo : ℕ) (v : View) → Spaced lo (bases v) → Tiled a v → Ordered lo (blocks v)
blocks-Ordered a lo [] s t = tt
blocks-Ordered a lo ((base, segs) ∷ v) s t =
    Ordered-mono lo base (taken base 0 segs ++ blocks v) s.0 (
      Ordered-append base (base + arena_size) (taken base 0 segs) (blocks v)
        (taken_Tiles a base segs t.0) (blocks-Ordered a (base + arena_size) v s.1 t.1))

pub lookup_below : (lo x : ℕ) (l : Map ℕ ℕ) → Ordered lo l → x < lo → lookup x l ≡ none
unfolding lookup
lookup_below lo x [] o h = refl
lookup_below lo x ((p, n) ∷ r) o h =
    ground (arith, o.0, o.1, lookup_below (p + n * block_size) x r o.2)

pub lookup_least :
    (lo x n : ℕ) (l : Map ℕ ℕ) → Ordered lo l → lookup x l ≡ some n → (lo ≤ x) × (1 ≤ n)
unfolding lookup
lookup_least lo x n [] o h = absurd (cc)
lookup_least lo x n ((p, m) ∷ r) o h = elim (Bool-cases (p == x)) [
  | inl e ↦ ground (arith, o.0, o.1)
  | inr e ↦
      let rest = lookup_least (p + m * block_size) x n r o.2 (rw e at h) in
      (omega (arith, rest.0, o.0), rest.1)
]

-- An inserted block is the only change, and it was not there before.
insert_into :
    (lo p n : ℕ) (before after : Map ℕ ℕ)
    → Ordered lo (before ++ (p, n) ∷ after)
    → (lo ≤ p)
      × (lookup p (before ++ after) ≡ none)
      × ((x : ℕ)
          → lookup x (before ++ (p, n) ∷ after)
            ≡ (if p == x then some n else lookup x (before ++ after)))
unfolding lookup
insert_into lo p n [] after o =
    (o.0, lookup_below (p + n * block_size) p after o.2 (omega (arith, o.1)), λ x. refl)
insert_into lo p n ((q, m) ∷ before) after o =
    let (least, fresh, same) = insert_into (q + m * block_size) p n before after o.2 in
    (
      omega (arith, least, o.0),
      ground (arith, fresh, least, o.1),
      λ x. ground (arith, same x, least, o.1),
    )

pub lookup-Inserted :
    (lo p n : ℕ) (xs ys : Map ℕ ℕ)
    → Inserted (p, n) xs ys
    → Ordered lo ys
    → (lookup p xs ≡ none) × ((x : ℕ) → lookup x ys ≡ (if p == x then some n else lookup x xs))
lookup-Inserted lo p n xs ys i o =
    let there : Ordered lo (i.before ++ (p, n) ∷ i.after) = rw (i.within) at o in
    let into = insert_into lo p n i.before i.after there in
    rw (i.without, i.within) (into.1, into.2)

-- Two blocks of an ordered list do not overlap.
pub lookup-Apart :
    (lo x n y m : ℕ) (l : Map ℕ ℕ)
    → Ordered lo l
    → lookup x l ≡ some n
    → lookup y l ≡ some m
    → (x ≡ y) ⊎ Apart x n y m
unfolding lookup
lookup-Apart lo x n y m [] o h k = absurd (cc)
lookup-Apart lo x n y m ((p, j) ∷ r) o h k = elim (Bool-cases (p == x)) [
  | inl e ↦ elim (Bool-cases (p == y)) [
    | inl f ↦ inl (ground arith)
    | inr f ↦
        let rest = lookup_least (p + j * block_size) y m r o.2 (rw f at k) in
        let same : j ≡ n = ground arith in inr (inl (ground (arith, rest.0)))
  ]
  | inr e ↦ elim (Bool-cases (p == y)) [
    | inl f ↦
        let rest = lookup_least (p + j * block_size) x n r o.2 (rw e at h) in
        let same : j ≡ m = ground arith in inr (inr (ground (arith, rest.0)))
    | inr f ↦ lookup-Apart (p + j * block_size) x n y m r o.2 (rw e at h) (rw f at k)
  ]
]

-- A block of an arena keeps clear of what the arena keeps clear of.
abbrev pub Outside : ℕ → ℕ → List ℕ → Type 0
Outside x n [] = Unit {0}
Outside x n (base ∷ r) = Apart x n base 64 × Outside x n r

lookup-append_bounds :
    (lo hi x n : ℕ) (l rest : Map ℕ ℕ)
    → Within lo hi l
    → lookup x (l ++ rest) ≡ some n
    → ((lo ≤ x) × (x + n * block_size ≤ hi)) ⊎ (lookup x rest ≡ some n)
unfolding lookup
lookup-append_bounds lo hi x n [] rest w h = inr h
lookup-append_bounds lo hi x n ((p, m) ∷ l) rest w h = elim (Bool-cases (p == x)) [
  | inl e ↦ inl (ground (arith, w.0), ground (arith, bounds_le (p + m * block_size) hi l w.2))
  | inr e ↦ elim (lookup-append_bounds (p + m * block_size) hi x n l rest w.2 (rw e at h)) [
    | inl b ↦ inl (omega (arith, b.0, w.0), b.1)
    | inr later ↦ inr later
  ]
]
  where
    bounds_le : (lo hi : ℕ) (l : Map ℕ ℕ) → Within lo hi l → lo ≤ hi
    bounds_le lo hi [] w = w
    bounds_le lo hi ((p, m) ∷ l) w = omega (arith, w.0, bounds_le (p + m * block_size) hi l w.2)

pub blocks-Apart :
    (a : Allocator) (c k x n : ℕ) (v : View)
    → Tiled a v
    → Outside c k (bases v)
    → lookup x (blocks v) ≡ some n
    → Apart c k x n
unfolding lookup
blocks-Apart a c k x n [] t o h = absurd (cc)
blocks-Apart a c k x n ((base, segs) ∷ v) t o h =
    elim (lookup-append_bounds base (base + arena_size) x n (taken base 0 segs) (blocks v)
      (taken_Tiles a base segs t.0) h) [
        | inl b ↦ elim o.0 [
          | inl left ↦ inl (omega (arith, left, b.0))
          | inr right ↦ inr (omega (arith, right, b.1))
        ]
        | inr later ↦ blocks-Apart a c k x n v t.1 o.1 later
      ]
