-- ===== src/Alloc/Locate.antt =====
-- Where a block in use stands in the arenas, for `bfree` of src/alloc/alloc_wrapper.cpp.
use localsoftware.Common.{
  ℕ, ◌+◌, ◌*◌, ◌≤◌, ◌≡◌, refl, ap, ◌⊎◌, inl, inr, true, false, List, [], ◌∷◌, ◌++◌, some, ◌==◌,
  arith, Bool-cases,
}
use localsoftware.Common.Maps.{Map, lookup, nat_eq}
use localsoftware.Alloc.{SegmentInfo, block_size, seg, remove}
use localsoftware.Alloc.Tiling.{Segments, total, Tiles}
use localsoftware.Alloc.Blocks.{View, taken, blocks}
use localsoftware.Alloc.Ordered.{Outside}

record InArena (base pos p n : ℕ) (segs : Segments) : Type 0 where
  before : Segments
  after : Segments
  splits : segs ≡ before ++ (n, true) ∷ after
  starts : p ≡ base + (pos + total before) * block_size

locate_taken :
    (base pos p n : ℕ) (segs : Segments) (rest : Map ℕ ℕ)
    → lookup p (taken base pos segs ++ rest) ≡ some n
    → InArena base pos p n segs ⊎ (lookup p rest ≡ some n)
unfolding lookup
locate_taken base pos p n [] rest h = inr h
locate_taken base pos p n ((m, false) ∷ segs) rest h =
    elim (locate_taken base (pos + m) p n segs rest h) [
      | inl i ↦ inl (record {
        before = (m, false) ∷ i.before;
        after = i.after;
        splits = ap (λ l. (m, false) ∷ l) i.splits;
        starts = omega (arith, i.starts);
      })
      | inr r ↦ inr r
    ]
locate_taken base pos p n ((m, true) ∷ segs) rest h =
    elim (Bool-cases (base + pos * block_size == p)) [
      | inl e ↦
          let same : m ≡ n = ground arith in
          inl (record {
            before = [];
            after = segs;
            splits = ap (λ k. (k, true) ∷ segs) same;
            starts = ground arith;
          })
      | inr e ↦ elim (locate_taken base (pos + m) p n segs rest (rw e at h)) [
        | inl i ↦ inl (record {
          before = (m, true) ∷ i.before;
          after = i.after;
          splits = ap (λ l. (m, true) ∷ l) i.splits;
          starts = omega (arith, i.starts);
        })
        | inr r ↦ inr r
      ]
    ]

pub record Located (v : View) (p n : ℕ) : Type 0 where
  pub lower : View
  pub upper : View
  pub base : ℕ
  pub before : Segments
  pub after : Segments
  pub splits : v ≡ lower ++ (base, before ++ (n, true) ∷ after) ∷ upper
  pub starts : p ≡ base + total before * block_size

pub locate : (v : View) (p n : ℕ) → lookup p (blocks v) ≡ some n → Located v p n
unfolding lookup
locate [] p n h = absurd (cc)
locate ((base, segs) ∷ v) p n h = elim (locate_taken base 0 p n segs (blocks v) h) [
  | inl i ↦ record {
    lower = [];
    upper = v;
    base = base;
    before = i.before;
    after = i.after;
    splits = ap (λ s. (base, s) ∷ v) i.splits;
    starts = omega (arith, i.starts);
  }
  | inr r ↦
      let l = locate v p n r in
      record {
        lower = (base, segs) ∷ l.lower;
        upper = l.upper;
        base = l.base;
        before = l.before;
        after = l.after;
        splits = ap (λ w. (base, segs) ∷ w) l.splits;
        starts = l.starts;
      }
]

-- An arena whose first record is a free segment of 64 blocks has no other.
pub spare_segments :
    (arr : List SegmentInfo) (segs : Segments)
    → Tiles arr segs
    → (seg arr 0).occupied ≡ false
    → (seg arr 0).len ≡ 64
    → segs ≡ (64, false) ∷ []
spare_segments arr [] t o l = absurd (omega (arith, t.covers))
spare_segments arr ((n, occ) ∷ []) t o l =
    let first : n ≡ 64 = ground (arith, t.run.0) in
    let unused : occ ≡ false = ground (arith, t.run.0) in rw (first, unused) refl
spare_segments arr ((n, occ) ∷ (m, occ') ∷ r) t o l =
    let first : n ≡ 64 = ground (arith, t.run.0) in absurd (omega (arith, first, t.covers, t.run))

-- A large mapping is no arena.
pub remove-Outside : (p n : ℕ) (l : List ℕ) → 1 ≤ n → Outside p n l → remove p l ≡ l
unfolding remove
remove-Outside p n [] h o = refl
remove-Outside p n (b ∷ l) h o =
    let ne : b == p ≡ false = ground (arith, o.0) in
    rw ne (ap (λ r. b ∷ r) (remove-Outside p n l h o.1))
