-- ===== src/Alloc/Occupy.antt =====
-- Taking blocks from a free segment: `bmalloc` on an arena's records against the list of segments.
use localsoftware.Common.{
  ℕ, zero, suc, ◌+◌, ◌-◌, ◌≤◌, ◌<◌, ◌≡◌, refl, true, false, List, [], ◌∷◌, ◌++◌, length, set,
  length-set, get_or-set_self, get_or-set_ne, ap, arith,
}
use localsoftware.Alloc.{SegmentInfo, seg, blank, set_back, u7, occupy, mark_used, remainder}
use localsoftware.Alloc.Tiling.{
  Segments, total, header, Run, last_of, HeadUsed, Coalesced, Tiles, total-append, Run-cut,
  Run-paste, Run-set, Run-set_back, Run-set_back_below, length-set_back, seg-set_back_ne,
}

-- What is left of a free segment stays free in front of what follows it.
abbrev pub rest_of : ℕ → Segments → Segments
rest_of zero after = after
rest_of (suc k) after = (suc k, false) ∷ after

total-rest_of : (k : ℕ) (after : Segments) → total (rest_of k after) ≡ k + total after
total-rest_of zero after = omega arith
total-rest_of (suc k) after = refl

HeadUsed-append :
    (xs ys zs : Segments) → (HeadUsed ys → HeadUsed zs) → HeadUsed (xs ++ ys) → HeadUsed (xs ++ zs)
HeadUsed-append [] ys zs f h = f h
HeadUsed-append (x ∷ xs) ys zs f h = h

rest_of-Coalesced :
    (k n : ℕ) (after : Segments) → Coalesced ((n, false) ∷ after) → Coalesced (rest_of k after)
rest_of-Coalesced zero n after c = c.1
rest_of-Coalesced (suc k) n after c = c

occupy-Coalesced :
    (before after : Segments) (n num k : ℕ)
    → Coalesced (before ++ (n, false) ∷ after)
    → Coalesced (before ++ (num, true) ∷ rest_of k after)
occupy-Coalesced [] after n num k c = rest_of-Coalesced k n after c
occupy-Coalesced ((m, true) ∷ before) after n num k c = occupy-Coalesced before after n num k c
occupy-Coalesced ((m, false) ∷ before) after n num k c =
    (HeadUsed-append before _ _ (λ h. cc) c.0, occupy-Coalesced before after n num k c.1)

-- The two shapes of the update.
occupy-exact :
    (arr : List SegmentInfo) (p num : ℕ)
    → (seg arr p).len ≡ num
    → occupy arr p num ≡ mark_used (set_back arr (p + num) p) p num
unfolding occupy set_back
occupy-exact arr p num e = ground arith

occupy-split :
    (arr : List SegmentInfo) (p num n : ℕ)
    → (seg arr p).len ≡ n
    → num < n
    → occupy arr p num
      ≡ mark_used (set_back (set arr (p + num) (remainder arr p num)) (p + n) (p + num)) p num
unfolding occupy
occupy-split arr p num n e h = ground arith

module _ (arr : List SegmentInfo) (before after : Segments) (n : ℕ)
    (t : Tiles arr (before ++ (n, false) ∷ after)) where
  -- What the tiling says at the segment.
  pub at_segment :
      Run arr 0 0 before
      × (seg arr (total before) ≡ header n (last_of 0 0 before) false)
      × (1 ≤ n)
      × Run arr (total before + n) (total before) after
  at_segment =
      let cut = Run-cut arr before ((n, false) ∷ after) t.run in (cut.0, cut.1.0, cut.1.1, cut.1.2)

  pub ends : total before + (n + total after) ≡ 64
  ends = omega (arith, total-append before ((n, false) ∷ after), t.covers)

  exact-Tiles :
      Tiles
        (mark_used (set_back arr (total before + n) (total before)) (total before) n)
        (before ++ (n, true) ∷ after)
  exact-Tiles =
      let p = total before in
      let back = last_of 0 0 before in
      let linked = set_back arr (p + n) p in
      let v : SegmentInfo = record (seg linked p) { len = u7 n; occupied = true } in
      let (first, here, pos, later) = at_segment in
      let inside : p < length linked = omega (arith, length-set_back arr (p + n) p, t.size, ends) in
      record {
        size = omega (arith, length-set linked p v, length-set_back arr (p + n) p, t.size);
        run =
            Run-paste (set linked p v) before ((n, true) ∷ after)
              (Run-set linked 0 0 p v before (omega arith)
                (Run-set_back_below arr 0 0 (p + n) p before (omega arith) first))
              (
                ground (
                  arith,
                  get_or-set_self linked p v blank inside,
                  seg-set_back_ne arr (p + n) p p,
                  here,
                  ends,
                ),
                pos,
                Run-set linked (p + n) p p v after (omega arith) (
                    Run-set_back arr (p + n) p p after (omega (arith, ends, t.size))
                      (omega (arith, ends)) later),
              );
        covers = omega (arith, total-append before ((n, true) ∷ after), ends);
        coalesced = occupy-Coalesced before after n n 0 t.coalesced;
      }

  split-Tiles :
      (num k : ℕ)
      → 1 ≤ num
      → num + suc k ≡ n
      → let p = total before in
        Tiles
          (mark_used (set_back (set arr (p + num) (remainder arr p num)) (p + n) (p + num)) p num)
          (before ++ (num, true) ∷ (suc k, false) ∷ after)
  split-Tiles num k one e =
      let p = total before in
      let back = last_of 0 0 before in
      let (first, here, pos, later) = at_segment in
      let rest : SegmentInfo = remainder arr p num in
      let arr1 = set arr (p + num) rest in
      let linked = set_back arr1 (p + n) (p + num) in
      let v : SegmentInfo = record (seg linked p) { len = u7 num; occupied = true } in
      let size1 : length arr1 ≡ 64 = omega (arith, length-set arr (p + num) rest, t.size) in
      let size2 : length linked ≡ 64 =
        omega (arith, size1, length-set_back arr1 (p + n) (p + num)) in
      let shift : p + num + suc k ≡ p + n = omega arith in
      record {
        size = omega (arith, length-set linked p v, size2);
        run =
            Run-paste (set linked p v) before ((num, true) ∷ (suc k, false) ∷ after)
              (Run-set linked 0 0 p v before (omega arith) (
                Run-set_back_below arr1 0 0 (p + n) (p + num) before (omega arith)
                  (Run-set arr 0 0 (p + num) rest before (omega arith) first)))
              (
                ground (
                  arith,
                  get_or-set_self linked p v blank (omega (arith, size2, ends)),
                  seg-set_back_ne arr1 (p + n) p (p + num),
                  get_or-set_ne arr (p + num) p rest blank,
                  here,
                  ends,
                ),
                one,
                (
                  ground (
                    arith,
                    get_or-set_ne linked p (p + num) v blank,
                    seg-set_back_ne arr1 (p + n) (p + num) (p + num),
                    get_or-set_self arr (p + num) rest blank (omega (arith, t.size, ends)),
                    here,
                    ends,
                  ),
                  omega arith,
                  rw shift (
                      Run-set linked (p + n) (p + num) p v after (omega arith) (
                        Run-set_back arr1 (p + n) p (p + num) after (omega (arith, ends, size1))
                          (omega (arith, ends))
                          (Run-set arr (p + n) p (p + num) rest after (omega arith) later))),
                ),
              );
        covers = omega (arith, total-append before ((num, true) ∷ (suc k, false) ∷ after), ends);
        coalesced = occupy-Coalesced before after n num (suc k) t.coalesced;
      }

-- `bmalloc` on the well-formed records of an arena, at a free segment of at least `num` blocks, where
-- `num` is not 0: the first `num` blocks become an occupied segment, what is left stays a free one, the
-- other segments stay as they were, and the records stay well formed.
pub occupy-Tiles :
    (arr : List SegmentInfo) (before after : Segments) (n num : ℕ)
    → Tiles arr (before ++ (n, false) ∷ after)
    → 1 ≤ num
    → num ≤ n
    → Tiles (occupy arr (total before) num) (before ++ (num, true) ∷ rest_of (n - num) after)
occupy-Tiles arr before after n num t one fits = go (n - num) refl
  where
    here : seg arr (total before) ≡ header n (last_of 0 0 before) false
    here = (at_segment arr before after n t).1

    go :
        (k : ℕ)
        → n - num ≡ k
        → Tiles (occupy arr (total before) num) (before ++ (num, true) ∷ rest_of k after)
    go zero e =
        let whole : num ≡ n = omega arith in
        rw (whole, occupy-exact arr (total before) n (ap (λ s. s.len) here))
          (exact-Tiles arr before after n t)
    go (suc k) e =
        rw (occupy-split arr (total before) num n (ap (λ s. s.len) here) (omega arith))
          (split-Tiles arr before after n t num k one (omega arith))
