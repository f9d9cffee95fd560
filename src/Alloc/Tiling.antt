-- ===== src/Alloc/Tiling.antt =====
-- An arena's records seen as a list of segments: lengths with occupancy, in address order.
use localsoftware.Common.{
  ℕ, ◌+◌, ◌≤◌, ◌<◌, ◌≡◌, ◌≢◌, ◌⊎◌, Bool, true, false, List, [], ◌∷◌, ◌++◌, length, set, length-set,
  get_or-set_self, get_or-set_ne, lt→ltb, arith,
}
use localsoftware.Alloc.{SegmentInfo, seg, blank, set_back, u7}

abbrev pub Segments : Type 0
Segments = List (ℕ × Bool)

abbrev pub total : Segments → ℕ
total [] = 0
total ((n, _) ∷ r) = n + total r

abbrev pub header : ℕ → ℕ → Bool → SegmentInfo
header n back occ = record { len = n; back = back; occupied = occ; interior = false }

-- The records from `pos` on hold these segments, linked backwards, the first one to `back`.
abbrev pub Run : List SegmentInfo → ℕ → ℕ → Segments → Type 0
Run arr pos back [] = Unit {0}
Run arr pos back ((n, occ) ∷ r) =
    (seg arr pos ≡ header n back occ) × (1 ≤ n) × Run arr (pos + n) pos r

-- The start of the last segment of a run, to which what follows it is linked.
abbrev pub last_of : ℕ → ℕ → Segments → ℕ
last_of pos back [] = back
last_of pos back ((n, _) ∷ r) = last_of (pos + n) pos r

abbrev pub HeadUsed : Segments → Type 0
HeadUsed [] = Unit {0}
HeadUsed ((_, occ) ∷ r) = occ ≡ true

-- No two neighbours are both free.
abbrev pub Coalesced : Segments → Type 0
Coalesced [] = Unit {0}
Coalesced ((n, true) ∷ r) = Coalesced r
Coalesced ((n, false) ∷ r) = HeadUsed r × Coalesced r

-- The segments cover the arena's 64 blocks, and no two free ones touch.
pub record Tiles (arr : List SegmentInfo) (segs : Segments) : Type 0 where
  pub size : length arr ≡ 64
  pub run : Run arr 0 0 segs
  pub covers : total segs ≡ 64
  pub coalesced : Coalesced segs

pub total-append : (xs ys : Segments) → total (xs ++ ys) ≡ total xs + total ys
total-append [] ys = omega arith
total-append ((n, o) ∷ xs) ys = omega (arith, total-append xs ys)

pub Run-split :
    (arr : List SegmentInfo) (pos back : ℕ) (xs ys : Segments)
    → Run arr pos back (xs ++ ys)
    → Run arr pos back xs × Run arr (pos + total xs) (last_of pos back xs) ys
Run-split arr pos back [] ys r = let e : pos + 0 ≡ pos = omega arith in rw e (tt, r)
Run-split arr pos back ((n, o) ∷ xs) ys r =
    let e : pos + (n + total xs) ≡ pos + n + total xs = omega arith in
    let ih = Run-split arr (pos + n) pos xs ys r.2 in rw e ((r.0, r.1, ih.0), ih.1)

pub Run-join :
    (arr : List SegmentInfo) (pos back : ℕ) (xs ys : Segments)
    → Run arr pos back xs
    → Run arr (pos + total xs) (last_of pos back xs) ys
    → Run arr pos back (xs ++ ys)
Run-join arr pos back [] ys r s = let e : pos + 0 ≡ pos = omega arith in rw e at s
Run-join arr pos back ((n, o) ∷ xs) ys r s =
    let e : pos + (n + total xs) ≡ pos + n + total xs = omega arith in
    (r.0, r.1, Run-join arr (pos + n) pos xs ys r.2 (rw e at s))

-- A run from the start of the arena, cut at a segment.
pub Run-cut :
    (arr : List SegmentInfo) (xs ys : Segments)
    → Run arr 0 0 (xs ++ ys)
    → Run arr 0 0 xs × Run arr (total xs) (last_of 0 0 xs) ys
Run-cut arr xs ys r =
    let e : 0 + total xs ≡ total xs = omega arith in rw e at (Run-split arr 0 0 xs ys r)

pub Run-paste :
    (arr : List SegmentInfo) (xs ys : Segments)
    → Run arr 0 0 xs
    → Run arr (total xs) (last_of 0 0 xs) ys
    → Run arr 0 0 (xs ++ ys)
Run-paste arr xs ys r s =
    let e : total xs ≡ 0 + total xs = omega arith in Run-join arr 0 0 xs ys r (rw e at s)

-- A write below or above a run does not touch it.
pub Run-set :
    (arr : List SegmentInfo) (pos back i : ℕ) (v : SegmentInfo) (xs : Segments)
    → (i < pos) ⊎ (pos + total xs ≤ i)
    → Run arr pos back xs
    → Run (set arr i v) pos back xs
Run-set arr pos back i v [] h r = tt
Run-set arr pos back i v ((n, o) ∷ xs) h r =
    let ne : i ≢ pos = omega arith in
    (
      rw (get_or-set_ne arr i pos v blank ne) r.0,
      r.1,
      Run-set arr (pos + n) pos i v xs (omega arith) r.2,
    )

pub length-set_back : (arr : List SegmentInfo) (i b : ℕ) → length (set_back arr i b) ≡ length arr
unfolding set_back
length-set_back arr i b = ground (arith, length-set arr i (record (seg arr i) { back = u7 b }))

set_back_lt :
    (arr : List SegmentInfo) (i b : ℕ)
    → i < length arr
    → b < 128
    → set_back arr i b ≡ set arr i (record (seg arr i) { back = b })
unfolding set_back
set_back_lt arr i b h k = let e : u7 b ≡ b = omega arith in rw (e, lt→ltb _ _ h)

-- It leaves the other records alone.
pub seg-set_back_ne :
    (arr : List SegmentInfo) (i j b : ℕ) → i ≢ j → seg (set_back arr i b) j ≡ seg arr j
unfolding set_back
seg-set_back_ne arr i j b h =
    ground (arith, get_or-set_ne arr i j (record (seg arr i) { back = u7 b }) blank)

pub Run-set_back_below :
    (arr : List SegmentInfo) (pos back i b : ℕ) (xs : Segments)
    → (i < pos) ⊎ (pos + total xs ≤ i)
    → Run arr pos back xs
    → Run (set_back arr i b) pos back xs
Run-set_back_below arr pos back i b [] h r = tt
Run-set_back_below arr pos back i b ((n, o) ∷ xs) h r =
    let ne : i ≢ pos = omega arith in
    (
      rw (seg-set_back_ne arr i pos b ne) r.0,
      r.1,
      Run-set_back_below arr (pos + n) pos i b xs (omega arith) r.2,
    )

-- Relinking what follows a changed segment.
pub Run-set_back :
    (arr : List SegmentInfo) (pos back b : ℕ) (xs : Segments)
    → pos + total xs ≡ length arr
    → b < 128
    → Run arr pos back xs
    → Run (set_back arr pos b) pos b xs
Run-set_back arr pos back b [] h k r = tt
Run-set_back arr pos back b ((n, o) ∷ xs) h k r =
    let inside : pos < length arr = omega arith in
    (
      rw (
        set_back_lt arr pos b inside k,
        get_or-set_self arr pos (record (seg arr pos) { back = b }) blank inside,
        r.0,
      ),
      r.1,
      Run-set_back_below arr (pos + n) pos pos b xs (omega arith) r.2,
    )
