-- ===== src/Alloc/Scan.antt =====
-- The search of `bmalloc` inside one arena.
use localsoftware.Common.{
  ℕ, zero, suc, ◌+◌, ◌≤◌, ◌<◌, ◌≡◌, ◌≢◌, refl, ◌⊎◌, inl, inr, Bool, true, false, not, ◌&&◌, List,
  [], ◌∷◌, ◌++◌, Option, none, some, length, leb, if◌then◌else◌, arith, ap, Bool-cases,
}
use localsoftware.Alloc.{SegmentInfo, scan}
use localsoftware.Alloc.Tiling.{Segments, total, Run, Tiles}

-- The search on the list of segments: the last free one of enough blocks.
abbrev pub last_fit : ℕ → ℕ → Segments → Option ℕ → Option ℕ
last_fit num pos [] found = found
last_fit num pos ((n, occ) ∷ r) found =
    last_fit num (pos + n) r (if not occ && leb num n then some pos else found)

-- Where a free segment of at least `num` blocks stands.
pub record FitsAt (segs : Segments) (num block : ℕ) : Type 0 where
  pub before : Segments
  pub blocks : ℕ
  pub after : Segments
  pub splits : segs ≡ before ++ (blocks, false) ∷ after
  pub starts : block ≡ total before
  pub enough : num ≤ blocks

scan-Run :
    (fuel : ℕ) (arr : List SegmentInfo) (num pos back : ℕ) (segs : Segments) (found : Option ℕ)
    → Run arr pos back segs
    → pos + total segs ≡ length arr
    → total segs < fuel
    → scan fuel arr num pos found ≡ some (last_fit num pos segs found)
unfolding scan
scan-Run zero arr num pos back segs found r e h = absurd (omega arith)
scan-Run (suc fuel) arr num pos back [] found r e h = ground arith
scan-Run (suc fuel) arr num pos back ((n, occ) ∷ segs) found r e h = rw r.0 (
    ground (
      arith,
      scan-Run fuel arr num (pos + n) pos segs (if not occ && leb num n then some pos else found)
          r.2,
    ))

last_fit-FitsAt :
    (num pos : ℕ) (segs : Segments) (found : Option ℕ) (block : ℕ)
    → last_fit num pos segs found ≡ some block
    → (found ≡ some block)
      ⊎ ((before : Segments) × (n : ℕ) × (after : Segments) × (segs ≡ before ++ (n, false) ∷ after)
          × (block ≡ pos + total before)
          × (num ≤ n))
last_fit-FitsAt num pos [] found block h = inl h
last_fit-FitsAt num pos ((n, occ) ∷ segs) found block h =
    elim (last_fit-FitsAt num (pos + n) segs (if not occ && leb num n then some pos else found)
      block h) [
        | inr (before, m, after, e, s, f) ↦
            inr ((n, occ) ∷ before, m, after, ap (λ l. (n, occ) ∷ l) e, omega arith, f)
        | inl here ↦ first occ n here
      ]
  where
    first :
        (occ : Bool) (n : ℕ)
        → (if not occ && leb num n then some pos else found) ≡ some block
        → (found ≡ some block)
          ⊎ ((before : Segments) × (m : ℕ) × (after : Segments) × ((n, occ) ∷ segs
                ≡ before ++ (m, false) ∷ after)
              × (block ≡ pos + total before)
              × (num ≤ m))
    first true n here = inl here
    first false n here = elim (Bool-cases (leb num n)) [
      | inl fits ↦ inr ([], n, segs, refl, ground arith, ground arith)
      | inr small ↦ inl (ground arith)
    ]

-- A search that finds nothing leaves no free segment of `num` blocks.
abbrev pub NoneFits : ℕ → Segments → Type 0
NoneFits num [] = Unit {0}
NoneFits num ((n, true) ∷ r) = NoneFits num r
NoneFits num ((n, false) ∷ r) = (n < num) × NoneFits num r

last_fit-some : (num pos : ℕ) (segs : Segments) (b : ℕ) → last_fit num pos segs (some b) ≢ none
last_fit-some num pos [] b h = cc
last_fit-some num pos ((n, true) ∷ segs) b h = last_fit-some num (pos + n) segs b h
last_fit-some num pos ((n, false) ∷ segs) b h = elim (Bool-cases (leb num n)) [
  | inl e ↦ last_fit-some num (pos + n) segs pos (rw e at h)
  | inr e ↦ last_fit-some num (pos + n) segs b (rw e at h)
]

last_fit-NoneFits :
    (num pos : ℕ) (segs : Segments) → last_fit num pos segs none ≡ none → NoneFits num segs
last_fit-NoneFits num pos [] h = tt
last_fit-NoneFits num pos ((n, true) ∷ segs) h = last_fit-NoneFits num (pos + n) segs h
last_fit-NoneFits num pos ((n, false) ∷ segs) h = elim (Bool-cases (leb num n)) [
  | inl e ↦ absurd (last_fit-some num (pos + n) segs pos (rw e at h))
  | inr e ↦ (ground arith, last_fit-NoneFits num (pos + n) segs (rw e at h))
]

-- What the search of one arena returns.
pub data Searched (segs : Segments) (num : ℕ) : Option (Option ℕ) → Type 0 where
  hit : (block : ℕ) → FitsAt segs num block → Searched segs num (some (some block))
  miss : NoneFits num segs → Searched segs num (some none)

-- On a well-formed arena the search of `bmalloc` ends within 65 rounds. It returns the start of a
-- free segment of at least `num` blocks, or nothing, and then every free segment is smaller.
pub scan-Searched :
    (arr : List SegmentInfo) (segs : Segments) (num : ℕ)
    → Tiles arr segs
    → Searched segs num (scan 65 arr num 0 none)
scan-Searched arr segs num t =
    rw (scan-Run 65 arr num 0 0 segs none t.run (omega arith) (omega arith))
      (found (last_fit num 0 segs none) refl)
  where
    open t use {size, covers}

    found : (o : Option ℕ) → last_fit num 0 segs none ≡ o → Searched segs num (some o)
    found none e = miss (last_fit-NoneFits num 0 segs e)
    found (some block) e = elim (last_fit-FitsAt num 0 segs none block e) [
      | inl h ↦ absurd (cc)
      | inr (before, n, after, s, b, f) ↦ hit block (record {
        before = before;
        blocks = n;
        after = after;
        splits = s;
        starts = omega arith;
        enough = f;
      })
    ]
