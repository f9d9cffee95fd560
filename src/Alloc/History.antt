-- ===== src/Alloc/History.antt =====
-- The allocator of src/alloc/alloc_wrapper.cpp over any history of calls, against the caller's own
-- account of the blocks that it holds.
use localsoftware.Common.{
  ℕ, ◌≤◌, ◌≡◌, refl, sym, ap, subst, ◌∙◌, ◌⊎◌, inl, inr, [], ◌∷◌, ◌++◌, Option, none, some, ◌==◌,
  if◌then◌else◌, arith, Bool-cases, false,
}
use localsoftware.Common.Maps.{lookup, nat_eq}
use localsoftware.Alloc.{Allocator, add_arena, init, bmalloc, bfree}
use localsoftware.Alloc.Blocks.{View, Apart, blocks, blocks-free}
use localsoftware.Alloc.Heap.{IsValid, live, live-Apart}
use localsoftware.Alloc.Grow.{IsFree, with_arena-Added}
use localsoftware.Alloc.Malloc.{mapped, bmalloc-Allocated}
use localsoftware.Alloc.Small.{Allocated}
use localsoftware.Alloc.Free.{bfree-Freed}

-- The caller's account: how many blocks it holds at an address.
abbrev pub Held : Type 0
Held = ℕ → Option ℕ

abbrev pub update : Held → ℕ → Option ℕ → Held
update held p n x = if p == x then n else held x

-- Calls of a program that asks for at least one block, and frees what it holds and nothing else.
-- `mmap` returns memory that nothing else uses.
pub data Execution : Allocator → Held → Type 0 where
  started : (base : ℕ) → Execution (init base) (λ _. none)
  malloc_call :
      (a b : Allocator) (held : Held) (num base p : ℕ)
      → Execution a held
      → 1 ≤ num
      → IsFree a base (mapped num)
      → bmalloc a num base ≡ some (b, p)
      → Execution b (update held p (some num))
  free_call :
      (a : Allocator) (held : Held) (p n : ℕ)
      → Execution a held
      → held p ≡ some n
      → Execution (bfree a p).0 (update held p none)

-- The allocator is in order, and what is live is what the caller holds.
pub record Accounted (a : Allocator) (held : Held) : Type 0 where
  pub view : View
  pub valid : IsValid a view
  pub same : (x : ℕ) → live a view x ≡ held x

abbrev empty : Allocator
empty = record { arenas = []; custom_arenas = []; segment_info = [] }

empty-IsValid : IsValid empty []
unfolding lookup
empty-IsValid = record {
  names = refl;
  spaced = tt;
  tiled = tt;
  sizes = λ x. refl;
  clear = λ c k e. absurd (cc);
  apart = λ c k d j e f. absurd (cc);
}

init-Accounted : (base : ℕ) → Accounted (init base) (λ _. none)
unfolding init add_arena lookup
init-Accounted base =
    let unused : IsFree empty base 64 = record { arenas = tt; custom = λ c j e. absurd (cc) } in
    let added = with_arena-Added empty [] base empty-IsValid unused in
    let none_used = blocks-free added.before added.after base ∙ sym (ap blocks added.split) in
    record {
      view = added.before ++ (base, (64, false) ∷ []) ∷ added.after;
      valid = added.valid;
      same = λ x. ap (λ m. lookup x m) none_used;
    }

malloc-Accounted :
    (a b : Allocator) (held : Held) (num base p : ℕ)
    → Accounted a held
    → 1 ≤ num
    → IsFree a base (mapped num)
    → bmalloc a num base ≡ some (b, p)
    → Accounted b (update held p (some num))
malloc-Accounted a b held num base p h one free e =
    let (r, done, t) = bmalloc-Allocated a h.view num base h.valid one free in
    let same : r ≡ (b, p) = ground (arith, done, e) in
    let t' : Allocated a h.view num (b, p) = subst (Allocated a h.view num) same t in
    record { view = t'.view; valid = t'.valid; same = λ x. ground (arith, t'.change x, h.same x) }

pub Execution-Accounted : (a : Allocator) (held : Held) → Execution a held → Accounted a held
Execution-Accounted _ _ (started base) = init-Accounted base
Execution-Accounted _ _ (malloc_call a b held num base p x one free e) =
    malloc-Accounted a b held num base p (Execution-Accounted a held x) one free e
Execution-Accounted _ _ (free_call a held p n x e) =
    let h = Execution-Accounted a held x in
    let f = bfree-Freed a h.view p n h.valid (h.same p ∙ e) in
    record { view = f.view; valid = f.valid; same = λ y. ground (arith, f.change y, h.same y) }

-- Over any history of calls, two blocks that the caller holds do not overlap.
pub held-Apart :
    (a : Allocator) (held : Held) (x n y m : ℕ)
    → Execution a held
    → held x ≡ some n
    → held y ≡ some m
    → (x ≡ y) ⊎ Apart x n y m
held-Apart a held x n y m h p q =
    let t = Execution-Accounted a held h in
    live-Apart a t.view x n y m t.valid (t.same x ∙ p) (t.same y ∙ q)

at_self : (held : Held) (p num : ℕ) → update held p (some num) p ≡ some num
at_self held p num = ground arith

not_held : (held : Held) (p x n : ℕ) → held p ≡ none → held x ≡ some n → p == x ≡ false
not_held held p x n h e = elim (Bool-cases (p == x)) [
  | inl q ↦ let same : p ≡ x = ground arith in absurd (ground (arith, ap held same))
  | inr q ↦ q
]

-- After any history of calls, `bmalloc` of at least one block returns. The caller did not hold the
-- address that it returns, and the new blocks overlap none that the caller holds.
pub bmalloc-Apart :
    (a : Allocator) (held : Held) (num base : ℕ)
    → Execution a held
    → 1 ≤ num
    → IsFree a base (mapped num)
    → (b : Allocator) × (p : ℕ) × (bmalloc a num base ≡ some (b, p))
      × (held p ≡ none)
      × ((x n : ℕ) → held x ≡ some n → Apart x n p num)
bmalloc-Apart a held num base h one free =
    let t = Execution-Accounted a held h in
    let (r, done, new) = bmalloc-Allocated a t.view num base t.valid one free in
    let more = malloc_call a r.0 held num base r.1 h one free done in
    let unheld : held r.1 ≡ none = sym (t.same r.1) ∙ new.fresh in
    (
      r.0,
      r.1,
      done,
      unheld,
      λ x n e.
          let other : r.1 == x ≡ false = not_held held r.1 x n unheld e in
          elim (held-Apart r.0 (update held r.1 (some num)) x n r.1 num more (rw other e)
            (at_self held r.1 num)) [
              | inl same ↦ absurd (ground (arith, other))
              | inr apart ↦ apart
            ],
    )
