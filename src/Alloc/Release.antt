-- ===== src/Alloc/Release.antt =====
-- Giving blocks back: `bfree` on an arena's records against the list of segments.
use localsoftware.Common.{
  ℕ, ◌+◌, ◌≤◌, ◌≡◌, refl, ◌⊎◌, inl, inr, Bool, true, false, List, [], ◌∷◌, ◌++◌, length, ap, arith,
  ◌∙◌,
}
use localsoftware.Alloc.{SegmentInfo, seg, release, merge_forward, merge_back}
use localsoftware.Alloc.Tiling.{Segments, total, header, Run, last_of, Tiles, total-append, Run-cut}
use localsoftware.Alloc.Join.{
  grown, beyond, join, n-le-grown, total-grown, total-join, beyond-HeadUsed, beyond-Coalesced,
  join-Coalesced, tail-Coalesced, snoc_cases, last_of-snoc, join-snoc_used, join-snoc_free,
}
use localsoftware.Alloc.Merge.{
  Merged, merge_forward-Merged, vacate-Run, merge_back-Run, release-vacate, release-merge_back,
}

join_of_nil :
    (before : Segments) (n : ℕ) (after : Segments)
    → before ≡ []
    → join before n after ≡ before ++ (n, false) ∷ after
join_of_nil before n after e = rw e

join_of_used :
    (before pre : Segments) (m n : ℕ) (after : Segments)
    → before ≡ pre ++ (m, true) ∷ []
    → join before n after ≡ before ++ (n, false) ∷ after
join_of_used before pre m n after e = rw e (join-snoc_used pre m n after)

-- The segment before the freed one.
record Previous (arr : List SegmentInfo) (before pre : Segments) (m : ℕ) (occ : Bool) : Type 0 where
  run : Run arr 0 0 pre
  at : seg arr (total pre) ≡ header m (last_of 0 0 pre) occ
  pos : 1 ≤ m
  link : last_of 0 0 before ≡ total pre
  sum : total before ≡ total pre + m

previous :
    (arr : List SegmentInfo) (before pre : Segments) (m : ℕ) (occ : Bool)
    → before ≡ pre ++ (m, occ) ∷ []
    → Run arr 0 0 before
    → Previous arr before pre m occ
previous arr before pre m occ e r =
    let cut = Run-cut arr pre ((m, occ) ∷ []) (rw e at r) in
    record {
      run = cut.0;
      at = cut.1.0;
      pos = cut.1.1;
      link = rw e (last_of-snoc 0 0 pre m occ ∙ omega arith);
      sum = rw e (omega (arith, total-append pre ((m, occ) ∷ [])));
    }

-- The run of the freed arena, by what stands before the segment.
release-Run :
    (arr : List SegmentInfo) (before after : Segments) (n : ℕ)
    → Tiles arr (before ++ (n, true) ∷ after)
    → (length (release arr (total before)) ≡ 64)
      × Run (release arr (total before)) 0 0 (join before (grown n after) (beyond after))
release-Run arr before after n t = go (snoc_cases before)
  where
    Goal : Segments → Type 0
    Goal xs = (length (release arr (total before)) ≡ 64) × Run (release arr (total before)) 0 0 xs

    p : ℕ
    p = total before

    cut : Run arr 0 0 before × Run arr (total before) (last_of 0 0 before) ((n, true) ∷ after)
    cut = Run-cut arr before ((n, true) ∷ after) t.run

    ends : total before + (n + total after) ≡ 64
    ends = omega (arith, total-append before ((n, true) ∷ after), t.covers)

    k : ℕ
    k = grown n after

    arr1 : List SegmentInfo
    arr1 = merge_forward arr (total before)

    merged :
        Merged arr
          (merge_forward arr (total before))
          (total before)
          (grown n after)
          (last_of 0 0 before)
          (beyond after)
    merged =
        merge_forward-Merged arr p n (last_of 0 0 before) after t.size ends cut.1.0 cut.1.1 cut.1.2

    kept : Run arr1 0 0 before
    kept = merged.below 0 0 before (omega arith) cut.0

    link : (seg arr (total before)).back ≡ last_of 0 0 before
    link = ap (λ s. s.back) cut.1.0

    pos : 1 ≤ grown n after
    pos = omega (arith, cut.1.1, total-grown n after, n-le-grown n after)

    ends' : total before + (grown n after + total (beyond after)) ≡ 64
    ends' = omega (arith, ends, total-grown n after)

    vacated :
        (total before ≡ 0) ⊎ ((seg arr1 (last_of 0 0 before)).occupied ≡ true)
        → Goal (before ++ (k, false) ∷ beyond after)
    vacated h = rw (release-vacate arr p (last_of 0 0 before) link h) (
        vacate-Run arr1 before (beyond after) k merged.stale merged.size ends' pos merged.here
          merged.tail kept)

    go :
        (before ≡ [])
          ⊎ ((pre : Segments) × (m : ℕ) × (occ : Bool) × (before ≡ pre ++ (m, occ) ∷ []))
        → Goal (join before k (beyond after))
    go (inl e) = rw (join_of_nil before k (beyond after) e) (vacated (inl (rw e refl)))
    go (inr (pre, m, true, e)) =
        let prev = previous arr1 before pre m true e kept in
        rw (join_of_used before pre m k (beyond after) e) (vacated (inr (rw (prev.link, prev.at))))
    go (inr (pre, m, false, e)) =
        let prev = previous arr1 before pre m false e kept in
        let sum : total before ≡ total pre + m = prev.sum in
        let here : seg arr1 (total pre + m) ≡ header k (total pre) true =
          rw (← prev.sum, ← prev.link) merged.here in
        let tail : Run arr1 (total pre + m + k) merged.stale (beyond after) =
          rw (← prev.sum) merged.tail in
        let done =
          merge_back-Run arr1 pre (beyond after) m k merged.stale merged.size
            (omega (arith, ends', prev.sum)) prev.pos pos prev.at here tail prev.run in
        let joined : join before k (beyond after) ≡ pre ++ (m + k, false) ∷ beyond after =
          rw e (join-snoc_free pre m k (beyond after)) in
        let moved : release arr (total before) ≡ merge_back arr1 (total pre + m) (total pre) =
          release-merge_back arr p (total pre) (link ∙ prev.link)
            (omega (arith, prev.pos, prev.sum)) (ap (λ s. s.occupied) prev.at)
          ∙ ap (λ q. merge_back arr1 q (total pre)) prev.sum in
        rw (joined, moved) done

-- `bfree` on the well-formed records of an arena, at an occupied segment: the segment becomes free and
-- joins the free segments on both its sides, the others stay as they were, the records stay well formed
-- and no two free segments touch.
pub release-Tiles :
    (arr : List SegmentInfo) (before after : Segments) (n : ℕ)
    → Tiles arr (before ++ (n, true) ∷ after)
    → Tiles (release arr (total before)) (join before (grown n after) (beyond after))
release-Tiles arr before after n t =
    let done = release-Run arr before after n t in
    record {
      size = done.0;
      run = done.1;
      covers = omega (
        arith,
        total-join before (grown n after) (beyond after),
        total-grown n after,
        total-append before ((n, true) ∷ after),
        t.covers,
      );
      coalesced =
          join-Coalesced before n (grown n after) after (beyond after)
            (beyond-HeadUsed after (tail-Coalesced before n after t.coalesced))
            (beyond-Coalesced after (tail-Coalesced before n after t.coalesced)) t.coalesced;
    }
