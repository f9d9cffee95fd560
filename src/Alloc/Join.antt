-- ===== src/Alloc/Join.antt =====
-- The list of segments when an occupied one becomes free, for `bfree` of src/alloc/alloc_wrapper.cpp.
use localsoftware.Common.{
  ℕ, ◌+◌, ◌≤◌, ◌≡◌, refl, ◌⊎◌, inl, inr, Bool, true, false, [], ◌∷◌, ◌++◌, ap, arith, ◌∙◌,
}
use localsoftware.Alloc.Tiling.{Segments, total, last_of, HeadUsed, Coalesced}

-- The freed segment takes in a free one after it,
abbrev pub grown : ℕ → Segments → ℕ
grown n [] = n
grown n ((m, true) ∷ r) = n
grown n ((m, false) ∷ r) = n + m

abbrev pub beyond : Segments → Segments
beyond [] = []
beyond ((m, true) ∷ r) = (m, true) ∷ r
beyond ((m, false) ∷ r) = r

-- and is taken in by a free one before it.
abbrev pub join : Segments → ℕ → Segments → Segments
join [] n after = (n, false) ∷ after
join ((m, true) ∷ before) n after = (m, true) ∷ join before n after
join ((m, false) ∷ []) n after = (m + n, false) ∷ after
join ((m, false) ∷ x ∷ before) n after = (m, false) ∷ join (x ∷ before) n after

pub n-le-grown : (n : ℕ) (after : Segments) → n ≤ grown n after
n-le-grown n [] = omega arith
n-le-grown n ((m, true) ∷ r) = omega arith
n-le-grown n ((m, false) ∷ r) = omega arith

pub total-grown :
    (n : ℕ) (after : Segments) → grown n after + total (beyond after) ≡ n + total after
total-grown n [] = refl
total-grown n ((m, true) ∷ r) = refl
total-grown n ((m, false) ∷ r) = omega arith

pub total-join :
    (before : Segments) (n : ℕ) (after : Segments)
    → total (join before n after) ≡ total before + n + total after
total-join [] n after = omega arith
total-join ((m, true) ∷ before) n after = omega (arith, total-join before n after)
total-join ((m, false) ∷ []) n after = omega arith
total-join ((m, false) ∷ x ∷ before) n after = omega (arith, total-join (x ∷ before) n after)

pub beyond-HeadUsed : (after : Segments) → Coalesced after → HeadUsed (beyond after)
beyond-HeadUsed [] c = tt
beyond-HeadUsed ((m, true) ∷ r) c = refl
beyond-HeadUsed ((m, false) ∷ r) c = c.0

pub beyond-Coalesced : (after : Segments) → Coalesced after → Coalesced (beyond after)
beyond-Coalesced [] c = tt
beyond-Coalesced ((m, true) ∷ r) c = c
beyond-Coalesced ((m, false) ∷ r) c = c.1

pub join-Coalesced :
    (before : Segments) (n k : ℕ) (after later : Segments)
    → HeadUsed later
    → Coalesced later
    → Coalesced (before ++ (n, true) ∷ after)
    → Coalesced (join before k later)
join-Coalesced [] n k after later h d c = (h, d)
join-Coalesced ((m, true) ∷ before) n k after later h d c =
    join-Coalesced before n k after later h d c
join-Coalesced ((m, false) ∷ []) n k after later h d c = (h, d)
join-Coalesced ((m, false) ∷ (j, true) ∷ before) n k after later h d c =
    (refl, join-Coalesced ((j, true) ∷ before) n k after later h d c.1)
join-Coalesced ((m, false) ∷ (j, false) ∷ before) n k after later h d c =
    absurd (ground (arith, c.0))

pub tail-Coalesced :
    (before : Segments) (n : ℕ) (after : Segments)
    → Coalesced (before ++ (n, true) ∷ after)
    → Coalesced after
tail-Coalesced [] n after c = c
tail-Coalesced ((m, true) ∷ before) n after c = tail-Coalesced before n after c
tail-Coalesced ((m, false) ∷ before) n after c = tail-Coalesced before n after c.1

-- The last segment before the freed one.
pub snoc_cases :
    (xs : Segments)
    → (xs ≡ []) ⊎ ((pre : Segments) × (m : ℕ) × (occ : Bool) × (xs ≡ pre ++ (m, occ) ∷ []))
snoc_cases [] = inl refl
snoc_cases ((n, o) ∷ xs) = elim (snoc_cases xs) [
  | inl e ↦ inr ([], n, o, ap (λ l. (n, o) ∷ l) e)
  | inr (pre, m, occ, e) ↦ inr ((n, o) ∷ pre, m, occ, ap (λ l. (n, o) ∷ l) e)
]

pub last_of-snoc :
    (pos back : ℕ) (pre : Segments) (m : ℕ) (occ : Bool)
    → last_of pos back (pre ++ (m, occ) ∷ []) ≡ pos + total pre
last_of-snoc pos back [] m occ = omega arith
last_of-snoc pos back ((n, o) ∷ pre) m occ = last_of-snoc (pos + n) pos pre m occ ∙ omega arith

pub join-snoc_used :
    (pre : Segments) (m n : ℕ) (after : Segments)
    → join (pre ++ (m, true) ∷ []) n after ≡ (pre ++ (m, true) ∷ []) ++ (n, false) ∷ after
join-snoc_used [] m n after = refl
join-snoc_used ((k, true) ∷ pre) m n after = ap (λ l. (k, true) ∷ l) (join-snoc_used pre m n after)
join-snoc_used ((k, false) ∷ []) m n after = refl
join-snoc_used ((k, false) ∷ x ∷ pre) m n after =
    ap (λ l. (k, false) ∷ l) (join-snoc_used (x ∷ pre) m n after)

pub join-snoc_free :
    (pre : Segments) (m n : ℕ) (after : Segments)
    → join (pre ++ (m, false) ∷ []) n after ≡ pre ++ (m + n, false) ∷ after
join-snoc_free [] m n after = refl
join-snoc_free ((k, true) ∷ pre) m n after = ap (λ l. (k, true) ∷ l) (join-snoc_free pre m n after)
join-snoc_free ((k, false) ∷ []) m n after = refl
join-snoc_free ((k, false) ∷ x ∷ pre) m n after =
    ap (λ l. (k, false) ∷ l) (join-snoc_free (x ∷ pre) m n after)
