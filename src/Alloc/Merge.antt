-- ===== src/Alloc/Merge.antt =====
-- The steps of `bfree` of src/alloc/alloc_wrapper.cpp on the records of an arena.
use localsoftware.Common.{
  ℕ, ◌+◌, ◌≤◌, ◌<◌, ◌≡◌, ◌⊎◌, true, false, List, [], ◌∷◌, ◌++◌, length, set, length-set,
  get_or-set_self, get_or-set_ne, arith, ◌∙◌,
}
use localsoftware.Alloc.{
  SegmentInfo, seg, blank, set_back, release, merge_forward, merge_back, vacate,
}
use localsoftware.Alloc.Tiling.{
  Segments, total, header, Run, last_of, Run-paste, Run-set, Run-set_back, Run-set_back_below,
  length-set_back, seg-set_back_ne,
}
use localsoftware.Alloc.Join.{grown, beyond}

-- What `merge_forward` leaves: the link of the segment after the freed one may be stale.
pub record Merged (arr arr' : List SegmentInfo) (p n back : ℕ) (later : Segments) : Type 0 where
  pub size : length arr' ≡ 64
  pub here : seg arr' p ≡ header n back true
  pub stale : ℕ
  pub tail : Run arr' (p + n) stale later
  pub below :
      (pos b : ℕ) (xs : Segments) → pos + total xs ≤ p → Run arr pos b xs → Run arr' pos b xs

pub merge_forward-Merged :
    (arr : List SegmentInfo) (p n back : ℕ) (after : Segments)
    → length arr ≡ 64
    → p + (n + total after) ≡ 64
    → seg arr p ≡ header n back true
    → 1 ≤ n
    → Run arr (p + n) p after
    → Merged arr (merge_forward arr p) p (grown n after) back (beyond after)
unfolding merge_forward
merge_forward-Merged arr p n back [] size ends here pos r =
    let same : merge_forward arr p ≡ arr = ground arith in
    rw same (record { size = size; here = here; stale = p; tail = tt; below = λ _ _ _ _ h. h })
merge_forward-Merged arr p n back ((m, true) ∷ after) size ends here pos r =
    let same : merge_forward arr p ≡ arr = ground (arith, r.0) in
    rw same (record { size = size; here = here; stale = p; tail = r; below = λ _ _ _ _ h. h })
merge_forward-Merged arr p n back ((m, false) ∷ after) size ends here pos r =
    let v : SegmentInfo = header (n + m) back true in
    let w : SegmentInfo = record (header m p false) { interior = true } in
    let bigger = set arr p v in
    let at_forward : seg bigger (p + n) ≡ header m p false =
      ground (arith, get_or-set_ne arr p (p + n) v blank, r.0) in
    let result : merge_forward arr p ≡ set bigger (p + n) w =
      ground (arith, here, r.0, at_forward) in
    rw result (record {
      size = omega (arith, length-set bigger (p + n) w, length-set arr p v);
      here = ground (
        arith,
        get_or-set_ne bigger (p + n) p w blank,
        get_or-set_self arr p v blank (omega arith),
      );
      stale = p + n;
      tail =
          let e : p + (n + m) ≡ p + n + m = omega arith in
          rw e (
            Run-set bigger (p + n + m) (p + n) (p + n) w after (omega arith)
              (Run-set arr (p + n + m) (p + n) p v after (omega arith) r.2));
      below = λ q b xs h run.
          Run-set bigger q b (p + n) w xs (omega arith) (Run-set arr q b p v xs (omega arith) run);
    })

pub vacate-Run :
    (arr : List SegmentInfo) (before after : Segments) (n stale : ℕ)
    → length arr ≡ 64
    → total before + (n + total after) ≡ 64
    → 1 ≤ n
    → seg arr (total before) ≡ header n (last_of 0 0 before) true
    → Run arr (total before + n) stale after
    → Run arr 0 0 before
    → (length (vacate arr (total before)) ≡ 64)
      × Run (vacate arr (total before)) 0 0 (before ++ (n, false) ∷ after)
unfolding vacate
vacate-Run arr before after n stale size ends pos here r first =
    let p = total before in
    let v : SegmentInfo = header n (last_of 0 0 before) false in
    let vacant = set arr p v in
    let result : vacate arr p ≡ set_back vacant (p + n) p =
      ground (arith, here, get_or-set_self arr p v blank (omega arith)) in
    rw result (
      omega (arith, length-set_back vacant (p + n) p, length-set arr p v),
      Run-paste (set_back vacant (p + n) p) before ((n, false) ∷ after)
          (Run-set_back_below vacant 0 0 (p + n) p before (omega arith)
            (Run-set arr 0 0 p v before (omega arith) first))
          (
            ground (
              arith,
              seg-set_back_ne vacant (p + n) p p,
              get_or-set_self arr p v blank (omega arith),
            ),
            pos,
            Run-set_back vacant (p + n) stale p after (omega (arith, length-set arr p v))
                (omega arith) (Run-set arr (p + n) stale p v after (omega arith) r),
          ),
    )

pub merge_back-Run :
    (arr : List SegmentInfo) (pre after : Segments) (m n stale : ℕ)
    → length arr ≡ 64
    → total pre + m + (n + total after) ≡ 64
    → 1 ≤ m
    → 1 ≤ n
    → seg arr (total pre) ≡ header m (last_of 0 0 pre) false
    → seg arr (total pre + m) ≡ header n (total pre) true
    → Run arr (total pre + m + n) stale after
    → Run arr 0 0 pre
    → (length (merge_back arr (total pre + m) (total pre)) ≡ 64)
      × Run (merge_back arr (total pre + m) (total pre)) 0 0 (pre ++ (m + n, false) ∷ after)
unfolding merge_back
merge_back-Run arr pre after m n stale size ends pos pos_n prev here r first =
    let q = total pre in
    let p = total pre + m in
    let v : SegmentInfo = header (m + n) (last_of 0 0 pre) false in
    let w : SegmentInfo = record (header n q true) { interior = true } in
    let bigger = set arr q v in
    let hidden = set bigger p w in
    let sizes : length hidden ≡ 64 = omega (arith, length-set bigger p w, length-set arr q v) in
    let at_p : seg bigger p ≡ header n q true = ground (arith, get_or-set_ne arr q p v blank) in
    let at_q : seg hidden q ≡ v =
      ground
        (arith, get_or-set_ne bigger p q w blank, get_or-set_self arr q v blank (omega arith)) in
    let shift : q + (m + n) ≡ p + n = omega arith in
    let result : merge_back arr p q ≡ set_back hidden (q + (m + n)) q =
      ground (arith, prev, here, at_p, at_q) in
    rw result (
      omega (arith, length-set_back hidden (q + (m + n)) q),
      Run-paste (set_back hidden (q + (m + n)) q) pre ((m + n, false) ∷ after)
          (Run-set_back_below hidden 0 0 (q + (m + n)) q pre (omega arith) (
            Run-set bigger 0 0 p w pre (omega arith) (Run-set arr 0 0 q v pre (omega arith) first)))
          (
            seg-set_back_ne hidden (q + (m + n)) q q (omega arith) ∙ at_q,
            omega arith,
            Run-set_back hidden (q + (m + n)) stale q after (omega arith) (omega arith) (
                rw shift (
                  Run-set bigger (p + n) stale p w after (omega arith)
                    (Run-set arr (p + n) stale q v after (omega arith) r))),
          ),
    )

-- The two ends of `bfree`.
pub release-vacate :
    (arr : List SegmentInfo) (p b : ℕ)
    → (seg arr p).back ≡ b
    → (p ≡ 0) ⊎ ((seg (merge_forward arr p) b).occupied ≡ true)
    → release arr p ≡ vacate (merge_forward arr p) p
unfolding release
release-vacate arr p b e h = ground arith

pub release-merge_back :
    (arr : List SegmentInfo) (p b : ℕ)
    → (seg arr p).back ≡ b
    → 0 < p
    → (seg (merge_forward arr p) b).occupied ≡ false
    → release arr p ≡ merge_back (merge_forward arr p) p b
unfolding release
release-merge_back arr p b e h k = ground arith
