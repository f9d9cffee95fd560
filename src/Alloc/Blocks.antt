-- ===== src/Alloc/Blocks.antt =====
-- The blocks in use of all arenas, as an abstract view of the allocator: address and number of
-- blocks, in the order of their addresses. For src/alloc/alloc_wrapper.cpp.
use localsoftware.Common.{
  ℕ, zero, suc, ◌+◌, ◌-◌, ◌*◌, ◌≤◌, ◌≡◌, refl, sym, ap, ◌∙◌, ◌⊎◌, true, false, List, [], ◌∷◌, ◌++◌,
  arith, append_assoc,
}
use localsoftware.Common.Maps.{Map, nat_eq}
use localsoftware.Alloc.{block_size}
use localsoftware.Alloc.Tiling.{Segments, total}
use localsoftware.Alloc.Occupy.{rest_of}
use localsoftware.Alloc.Join.{grown, beyond, join}

-- An arena of 64 blocks takes this many bytes.
abbrev pub arena_size : ℕ
arena_size = 1048576

-- The arenas in order, each with its segments.
abbrev pub View : Type 0
View = List (ℕ × Segments)

abbrev pub bases : View → List ℕ
bases [] = []
bases ((base, _) ∷ v) = base ∷ bases v

abbrev pub taken : ℕ → ℕ → Segments → Map ℕ ℕ
taken base pos [] = []
taken base pos ((n, true) ∷ r) = (base + pos * block_size, n) ∷ taken base (pos + n) r
taken base pos ((n, false) ∷ r) = taken base (pos + n) r

abbrev pub blocks : View → Map ℕ ℕ
blocks [] = []
blocks ((base, segs) ∷ v) = taken base 0 segs ++ blocks v

-- Two ranges of blocks that do not overlap.
abbrev pub Apart : ℕ → ℕ → ℕ → ℕ → Type 0
Apart x n y m = (x + n * block_size ≤ y) ⊎ (y + m * block_size ≤ x)

-- Blocks from `lo` on, one behind the other.
abbrev pub Ordered : ℕ → Map ℕ ℕ → Type 0
Ordered lo [] = Unit {0}
Ordered lo ((p, n) ∷ r) = (lo ≤ p) × (1 ≤ n) × Ordered (p + n * block_size) r

-- Arenas from `lo` on, one behind the other.
abbrev pub Spaced : ℕ → List ℕ → Type 0
Spaced lo [] = Unit {0}
Spaced lo (base ∷ r) = (lo ≤ base) × Spaced (base + arena_size) r

pub record Inserted {ℓ} {A : Type ℓ} (x : A) (xs ys : List A) : Type ℓ where
  pub before : List A
  pub after : List A
  pub without : xs ≡ before ++ after
  pub within : ys ≡ before ++ x ∷ after

pub Inserted-frame {ℓ} :
    {A : Type ℓ} (x : A) (xs ys pre post : List A)
    → Inserted x xs ys
    → Inserted x (pre ++ (xs ++ post)) (pre ++ (ys ++ post))
Inserted-frame x xs ys pre post i = record {
  before = pre ++ i.before;
  after = i.after ++ post;
  without = simp (i.without, append_assoc);
  within = simp (i.within, append_assoc);
}

pub taken-append :
    (base pos : ℕ) (xs ys : Segments)
    → taken base pos (xs ++ ys) ≡ taken base pos xs ++ taken base (pos + total xs) ys
taken-append base pos [] ys = let e : pos + 0 ≡ pos = omega arith in rw e refl
taken-append base pos ((n, true) ∷ xs) ys =
    let e : pos + (n + total xs) ≡ pos + n + total xs = omega arith in
    rw e (ap (λ l. (base + pos * block_size, n) ∷ l) (taken-append base (pos + n) xs ys))
taken-append base pos ((n, false) ∷ xs) ys =
    let e : pos + (n + total xs) ≡ pos + n + total xs = omega arith in
    rw e (taken-append base (pos + n) xs ys)

-- The same from the start of an arena.
taken-cut :
    (base : ℕ) (xs ys : Segments)
    → taken base 0 (xs ++ ys) ≡ taken base 0 xs ++ taken base (total xs) ys
taken-cut base xs ys =
    let e : 0 + total xs ≡ total xs = omega arith in rw e at (taken-append base 0 xs ys)

taken-rest_of :
    (base pos k : ℕ) (after : Segments)
    → taken base pos (rest_of k after) ≡ taken base (pos + k) after
taken-rest_of base pos zero after = let e : pos + 0 ≡ pos = omega arith in rw e refl
taken-rest_of base pos (suc k) after = refl

taken-beyond :
    (base pos n : ℕ) (after : Segments)
    → taken base (pos + grown n after) (beyond after) ≡ taken base (pos + n) after
taken-beyond base pos n [] = refl
taken-beyond base pos n ((m, true) ∷ r) = refl
taken-beyond base pos n ((m, false) ∷ r) =
    let e : pos + (n + m) ≡ pos + n + m = omega arith in rw e refl

taken-join :
    (base pos : ℕ) (before : Segments) (n : ℕ) (after : Segments)
    → taken base pos (join before n after)
      ≡ taken base pos before ++ taken base (pos + total before + n) after
taken-join base pos [] n after = let e : pos + 0 + n ≡ pos + n = omega arith in rw e refl
taken-join base pos ((m, true) ∷ before) n after =
    let e : pos + (m + total before) + n ≡ pos + m + total before + n = omega arith in
    rw e (ap (λ l. (base + pos * block_size, m) ∷ l) (taken-join base (pos + m) before n after))
taken-join base pos ((m, false) ∷ []) n after =
    let e : pos + (m + 0) + n ≡ pos + (m + n) = omega arith in rw e refl
taken-join base pos ((m, false) ∷ x ∷ before) n after =
    let e : pos + (m + total (x ∷ before)) + n ≡ pos + m + total (x ∷ before) + n = omega arith in
    rw e (taken-join base (pos + m) (x ∷ before) n after)

-- Taking blocks of a free segment puts one block in,
pub taken-occupy :
    (base : ℕ) (before after : Segments) (n num : ℕ)
    → num ≤ n
    → Inserted
        (base + total before * block_size, num)
        (taken base 0 (before ++ (n, false) ∷ after))
        (taken base 0 (before ++ (num, true) ∷ rest_of (n - num) after))
taken-occupy base before after n num h =
    let e : total before + num + (n - num) ≡ total before + n = omega arith in
    record {
      before = taken base 0 before;
      after = taken base (total before + n) after;
      without = taken-cut base before ((n, false) ∷ after);
      within =
          taken-cut base before ((num, true) ∷ rest_of (n - num) after)
          ∙ ap (λ l. taken base 0 before ++ (base + total before * block_size, num) ∷ l)
              (taken-rest_of base (total before + num) (n - num) after
                ∙ ap (λ q. taken base q after) e);
    }

-- and freeing a segment takes it out.
pub taken-release :
    (base : ℕ) (before after : Segments) (n : ℕ)
    → Inserted
        (base + total before * block_size, n)
        (taken base 0 (join before (grown n after) (beyond after)))
        (taken base 0 (before ++ (n, true) ∷ after))
taken-release base before after n = record {
  before = taken base 0 before;
  after = taken base (total before + n) after;
  without =
      let e : 0 + total before ≡ total before = omega arith in
      (rw e at (taken-join base 0 before (grown n after) (beyond after)))
      ∙ ap (λ l. taken base 0 before ++ l) (taken-beyond base (total before) n after);
  within = taken-cut base before ((n, true) ∷ after);
}

pub blocks-append : (v w : View) → blocks (v ++ w) ≡ blocks v ++ blocks w
blocks-append [] w = refl
blocks-append ((base, segs) ∷ v) w =
    ap (λ l. taken base 0 segs ++ l) (blocks-append v w)
    ∙ sym (append_assoc (taken base 0 segs) (blocks v) (blocks w))

-- An arena that is free has no blocks in use.
pub blocks-free :
    (xs ys : View) (base : ℕ) → blocks (xs ++ (base, (64, false) ∷ []) ∷ ys) ≡ blocks (xs ++ ys)
blocks-free [] ys base = refl
blocks-free ((b, s) ∷ xs) ys base = ap (λ l. taken b 0 s ++ l) (blocks-free xs ys base)
