-- ===== src/Alloc/Search.antt =====
-- The search of `bmalloc` over all arenas (src/alloc/alloc_wrapper.cpp).
use localsoftware.Common.{
  ℕ, ◌≤◌, ◌≡◌, refl, ap, inl, inr, false, List, [], ◌∷◌, ◌++◌, Option, none, some, arith,
}
use localsoftware.Common.Maps.{Map, lookup, contains, nat_eq}
use localsoftware.Alloc.{Allocator, records, find_block, scan}
use localsoftware.Alloc.Tiling.{Segments, total}
use localsoftware.Alloc.Scan.{Searched, hit, miss, scan-Searched}
use localsoftware.Alloc.Blocks.{View, bases}
use localsoftware.Alloc.Ordered.{Tiled}
use localsoftware.Alloc.Heap.{Clear}

-- What the search over the arenas of a view returns.
pub data Found (v : View) (num : ℕ) : Option (Option (ℕ × ℕ)) → Type 0 where
  in_arena :
      (xs ys : View) (base : ℕ) (before after : Segments) (n : ℕ)
      → v ≡ xs ++ (base, before ++ (n, false) ∷ after) ∷ ys
      → num ≤ n
      → Found v num (some (some (base, total before)))
  nowhere : Found v num (some none)

Found-later :
    (v : View) (num base : ℕ) (s : Segments) (o : Option (Option (ℕ × ℕ)))
    → Found v num o
    → Found ((base, s) ∷ v) num o
Found-later v num base s o (in_arena xs ys b before after n e h) =
    in_arena ((base, s) ∷ xs) ys b before after n (ap (λ l. (base, s) ∷ l) e) h
Found-later v num base s o nowhere = nowhere

-- One arena's turn.
Found-step :
    (v : View) (num base : ℕ) (s : Segments) (o : Option (Option ℕ))
    (later : Option (Option (ℕ × ℕ)))
    → Searched s num o
    → Found v num later
    → Found
        ((base, s) ∷ v)
        num
        (elim o [ none ↦ none | some none ↦ later | some (some block) ↦ some (some (base, block)) ])
Found-step v num base s o later (miss _) f = Found-later v num base s later f
Found-step v num base s o later (hit block fits) f = rw fits.starts (
    in_arena [] v base fits.before fits.after fits.blocks (ap (λ l. (base, l) ∷ v) fits.splits)
      fits.enough)

not_custom :
    (custom : Map ℕ ℕ) (base : ℕ) (r : List ℕ)
    → Clear custom (base ∷ r)
    → (o : Option ℕ) → lookup base custom ≡ o
    → contains base custom ≡ false
not_custom custom base r c none e = ground arith
not_custom custom base r c (some k) e =
    let (large, out) = c base k e in
    absurd (elim out.0 [ inl l ↦ omega (arith, l, large) | inr l ↦ omega (arith, l) ])

pub find_block-Found :
    (a : Allocator) (num : ℕ) (v : View)
    → Tiled a v
    → Clear a.custom_arenas (bases v)
    → Found v num (find_block a num (bases v))
unfolding find_block
find_block-Found a num [] t c = nowhere
find_block-Found a num ((base, s) ∷ v) t c =
    let later =
      find_block-Found a num v t.1 (λ x k e. let (large, out) = c x k e in (large, out.1)) in
    rw (not_custom a.custom_arenas base (bases v) c (lookup base a.custom_arenas) refl) (
      Found-step v num base s (scan 65 (records a base) num 0 none) (find_block a num (bases v))
        (scan-Searched (records a base) s num t.0) later)
