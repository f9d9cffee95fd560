-- ===== src/Alloc/Carve.antt =====
-- The records of a new arena when `bmalloc` of src/alloc/alloc_wrapper.cpp takes its first blocks.
use localsoftware.Common.{
  ℕ, zero, suc, ◌+◌, ◌-◌, ◌≤◌, ◌≡◌, refl, ap, ◌∙◌, true, false, List, [], ◌∷◌, length, set, ltb,
  arith, length-set, get_or-set_self, get_or-set_ne,
}
use localsoftware.Common.Maps.{nat_eq}
use localsoftware.Alloc.{SegmentInfo, carve, whole, seg, blank, u7}
use localsoftware.Alloc.Tiling.{header, Tiles}
use localsoftware.Alloc.Occupy.{rest_of}

pub whole-Tiles :
    (arr : List SegmentInfo) → length arr ≡ 64 → Tiles (set arr 0 (whole 64)) ((64, false) ∷ [])
whole-Tiles arr size = record {
  size = length-set arr 0 (whole 64) ∙ size;
  run = (get_or-set_self arr 0 (whole 64) blank (omega (arith, size)), omega arith, tt);
  covers = refl;
  coalesced = (tt, tt);
}

-- The records of a new arena when its first blocks are taken.
carve_all :
    (arr : List SegmentInfo)
    → Tiles arr ((64, false) ∷ [])
    → carve arr 64 ≡ set arr 0 (header 64 0 true)
unfolding carve
carve_all arr t =
    ap (λ (r : SegmentInfo). set arr 0 (record r { occupied = true; len = 64 })) t.run.0

carve_part :
    (arr : List SegmentInfo) (num k : ℕ)
    → Tiles arr ((64, false) ∷ [])
    → num + suc k ≡ 64
    → carve arr num ≡ set (set arr 0 (header num 0 true)) num (header (suc k) 0 false)
unfolding carve
carve_part arr num k t e =
    let less : ltb num 64 ≡ true = ground arith in
    let short : u7 num ≡ num = omega (arith, e) in
    let rest : u7 (64 - num) ≡ suc k = omega (arith, e) in rw (less, rest, t.run.0, short) refl

part-Tiles :
    (arr : List SegmentInfo) (num k : ℕ)
    → length arr ≡ 64
    → 1 ≤ num
    → num + suc k ≡ 64
    → Tiles
        (set (set arr 0 (header num 0 true)) num (header (suc k) 0 false))
        ((num, true) ∷ (suc k, false) ∷ [])
part-Tiles arr num k size one e =
    let used = set arr 0 (header num 0 true) in
    let start : 0 + num ≡ num = omega arith in
    let long : length used ≡ 64 = length-set arr 0 (header num 0 true) ∙ size in
    record {
      size = length-set used num (header (suc k) 0 false) ∙ long;
      run = (
        get_or-set_ne used num 0 (header (suc k) 0 false) blank (omega arith)
            ∙ get_or-set_self arr 0 (header num 0 true) blank (omega (arith, size)),
        one,
        (
          ap (λ i. seg (set used num (header (suc k) 0 false)) i) start
              ∙ get_or-set_self used num (header (suc k) 0 false) blank (omega (arith, long, e)),
          omega arith,
          tt,
        ),
      );
      covers = omega (arith, e);
      coalesced = (tt, tt);
    }

pub carve-Tiles :
    (arr : List SegmentInfo) (num : ℕ)
    → Tiles arr ((64, false) ∷ [])
    → 1 ≤ num
    → num ≤ 64
    → Tiles (carve arr num) ((num, true) ∷ rest_of (64 - num) [])
carve-Tiles arr num t one fits = go (64 - num) refl
  where
    go : (k : ℕ) → 64 - num ≡ k → Tiles (carve arr num) ((num, true) ∷ rest_of k [])
    go zero e =
        let all : num ≡ 64 = omega (arith, e, fits) in
        rw (all, carve_all arr t)
          (record {
            size = length-set arr 0 (header 64 0 true) ∙ t.size;
            run = (
              get_or-set_self arr 0 (header 64 0 true) blank (omega (arith, t.size)),
              omega arith,
              tt,
            );
            covers = refl;
            coalesced = tt;
          })
    go (suc k) e =
        let sum : num + suc k ≡ 64 = omega (arith, e, fits) in
        rw (carve_part arr num k t sum) (part-Tiles arr num k t.size one sum)
