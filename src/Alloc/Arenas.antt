-- ===== src/Alloc/Arenas.antt =====
-- The list of arenas of src/alloc/alloc_wrapper.cpp: adding one in order, taking one away, and the
-- records of the others.
use localsoftware.Common.{
  ℕ, ◌+◌, ◌≤◌, ◌<◌, ◌≡◌, ◌≢◌, refl, ap, ◌∙◌, inl, inr, true, false, List, [], ◌∷◌, ◌++◌, Option,
  some, if◌then◌else◌, ltb, leb, arith, Bool-cases,
}
use localsoftware.Alloc.{Allocator, records, insert_sorted, remove, owner}
use localsoftware.Alloc.Tiling.{Segments, Tiles}
use localsoftware.Alloc.Blocks.{View, bases, Spaced, Apart, arena_size}
use localsoftware.Alloc.Ordered.{Tiled, Outside}

pub Spaced-mono : (lo mid : ℕ) (l : List ℕ) → lo ≤ mid → Spaced mid l → Spaced lo l
Spaced-mono lo mid [] h s = tt
Spaced-mono lo mid (b ∷ l) h s = (omega (arith, h, s.0), s.1)

pub Spaced-insert_sorted :
    (lo base : ℕ) (l : List ℕ)
    → lo ≤ base
    → Spaced lo l
    → Outside base 64 l
    → Spaced lo (insert_sorted base l)
unfolding insert_sorted
Spaced-insert_sorted lo base [] h s o = (h, tt)
Spaced-insert_sorted lo base (b ∷ l) h s o = elim (Bool-cases (ltb base b)) [
  | inl e ↦ rw e (h, (ground (arith, o.0), s.1))
  | inr e ↦ rw e (s.0, Spaced-insert_sorted (b + arena_size) base l (ground (arith, o.0)) s.1 o.1)
]

pub Outside-insert_sorted :
    (x n base : ℕ) (l : List ℕ)
    → Apart x n base 64
    → Outside x n l
    → Outside x n (insert_sorted base l)
unfolding insert_sorted
Outside-insert_sorted x n base [] h o = (h, tt)
Outside-insert_sorted x n base (b ∷ l) h o = elim (Bool-cases (ltb base b)) [
  | inl e ↦ rw e (h, o)
  | inr e ↦ rw e (o.0, Outside-insert_sorted x n base l h o.1)
]

-- Where a new arena goes.
pub bases-insert_sorted :
    (base : ℕ) (s : Segments) (v : View)
    → (xs : View) × (ys : View) × (v ≡ xs ++ ys)
      × (bases (xs ++ (base, s) ∷ ys) ≡ insert_sorted base (bases v))
unfolding insert_sorted
bases-insert_sorted base s [] = ([], [], refl, refl)
bases-insert_sorted base s ((b, t) ∷ v) = elim (Bool-cases (ltb base b)) [
  | inl e ↦ ([], (b, t) ∷ v, refl, rw e refl)
  | inr e ↦
      let (xs, ys, p, q) = bases-insert_sorted base s v in
      ((b, t) ∷ xs, ys, ap (λ l. (b, t) ∷ l) p, rw e (ap (λ l. b ∷ l) q))
]

pub Spaced-least :
    (lo base : ℕ) (s : Segments) (xs ys : View)
    → Spaced lo (bases (xs ++ (base, s) ∷ ys))
    → lo ≤ base
Spaced-least lo base s [] ys h = h.0
Spaced-least lo base s ((b, t) ∷ xs) ys h =
    omega (arith, h.0, Spaced-least (b + arena_size) base s xs ys h.1)

-- `list::remove` takes away just this arena.
remove_above : (lo x : ℕ) (l : List ℕ) → Spaced lo l → x < lo → remove x l ≡ l
unfolding remove
remove_above lo x [] s h = refl
remove_above lo x (b ∷ l) s h =
    let rest = remove_above (b + arena_size) x l s.1 (omega (arith, s.0, h)) in
    ground (arith, s.0, h, rest)

pub remove-bases :
    (lo base : ℕ) (s : Segments) (xs ys : View)
    → Spaced lo (bases (xs ++ (base, s) ∷ ys))
    → remove base (bases (xs ++ (base, s) ∷ ys)) ≡ bases (xs ++ ys)
unfolding remove
remove-bases lo base s [] ys h =
    ground (arith, remove_above (base + arena_size) base (bases ys) h.1 (omega arith))
remove-bases lo base s ((b, t) ∷ xs) ys h = ground (
  arith,
  Spaced-least (b + arena_size) base s xs ys h.1,
  remove-bases (b + arena_size) base s xs ys h.1,
)

pub Spaced-drop :
    (lo base : ℕ) (s : Segments) (xs ys : View)
    → Spaced lo (bases (xs ++ (base, s) ∷ ys))
    → Spaced lo (bases (xs ++ ys))
Spaced-drop lo base s [] ys h =
    Spaced-mono lo (base + arena_size) (bases ys) (omega (arith, h.0)) h.1
Spaced-drop lo base s ((b, t) ∷ xs) ys h = (h.0, Spaced-drop (b + arena_size) base s xs ys h.1)

pub Outside-drop :
    (x n base : ℕ) (s : Segments) (xs ys : View)
    → Outside x n (bases (xs ++ (base, s) ∷ ys))
    → Outside x n (bases (xs ++ ys))
Outside-drop x n base s [] ys o = o.1
Outside-drop x n base s ((b, t) ∷ xs) ys o = (o.0, Outside-drop x n base s xs ys o.1)

-- The reverse loop of `bfree` finds the arena that holds an address.
owner_above :
    (lo p : ℕ) (l : List ℕ) (best : Option ℕ) → Spaced lo l → p < lo → owner p l best ≡ best
unfolding owner
owner_above lo p [] best s h = refl
owner_above lo p (b ∷ l) best s h =
    let e : leb b p ≡ false = ground (arith, s.0, h) in
    rw e (owner_above (b + arena_size) p l best s.1 (omega (arith, s.0, h)))

pub owner-bases :
    (lo base p : ℕ) (s : Segments) (xs ys : View) (best : Option ℕ)
    → Spaced lo (bases (xs ++ (base, s) ∷ ys))
    → base ≤ p
    → p < base + arena_size
    → owner p (bases (xs ++ (base, s) ∷ ys)) best ≡ some base
unfolding owner
owner-bases lo base p s [] ys best h l u =
    let e : leb base p ≡ true = ground arith in
    ap (λ t. owner p (bases ys) (if t then some base else best)) e
    ∙ owner_above (base + arena_size) p (bases ys) (some base) h.1 u
owner-bases lo base p s ((b, t) ∷ xs) ys best h l u =
    owner-bases (b + arena_size) base p s xs ys (if leb b p then some b else best) h.1 l u

-- Records that change only at one arena.
pub Tiled-drop :
    (a : Allocator) (xs ys : View) (base : ℕ) (s : Segments)
    → Tiled a (xs ++ (base, s) ∷ ys)
    → Tiles (records a base) s × Tiled a (xs ++ ys)
Tiled-drop a [] ys base s t = t
Tiled-drop a ((b, r) ∷ xs) ys base s t =
    let (here, rest) = Tiled-drop a xs ys base s t.1 in (here, (t.0, rest))

Tiled-above :
    (a b : Allocator) (lo base : ℕ) (v : View)
    → Spaced lo (bases v)
    → base < lo
    → ((x : ℕ) → base ≢ x → records b x ≡ records a x)
    → Tiled a v
    → Tiled b v
Tiled-above a b lo base [] s h e t = tt
Tiled-above a b lo base ((c, r) ∷ v) s h e t =
    let ne : base ≢ c = omega (arith, s.0, h) in
    (rw (e c ne) t.0, Tiled-above a b (c + arena_size) base v s.1 (omega (arith, s.0, h)) e t.1)

pub Tiled-agree :
    (a b : Allocator) (lo base : ℕ) (s : Segments) (xs ys : View)
    → Spaced lo (bases (xs ++ (base, s) ∷ ys))
    → ((x : ℕ) → base ≢ x → records b x ≡ records a x)
    → Tiled a (xs ++ ys)
    → Tiled b (xs ++ ys)
Tiled-agree a b lo base s [] ys h e t =
    Tiled-above a b (base + arena_size) base ys h.1 (omega arith) e t
Tiled-agree a b lo base s ((c, r) ∷ xs) ys h e t =
    let ne : base ≢ c = omega (arith, Spaced-least (c + arena_size) base s xs ys h.1) in
    (rw (e c ne) t.0, Tiled-agree a b (c + arena_size) base s xs ys h.1 e t.1)

pub Tiled-add :
    (a : Allocator) (xs ys : View) (base : ℕ) (s : Segments)
    → Tiles (records a base) s
    → Tiled a (xs ++ ys)
    → Tiled a (xs ++ (base, s) ∷ ys)
Tiled-add a [] ys base s here t = (here, t)
Tiled-add a ((b, r) ∷ xs) ys base s here t = (t.0, Tiled-add a xs ys base s here t.1)
