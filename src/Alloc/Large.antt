-- ===== src/Alloc/Large.antt =====
-- `bmalloc` of src/alloc/alloc_wrapper.cpp in a mapping of its own, for more than 64 blocks.
use localsoftware.Common.{
  ℕ, ◌<◌, ◌≡◌, inl, inr, none, some, ◌==◌, if◌then◌else◌, arith, Bool-cases, Option-cases,
}
use localsoftware.Common.Maps.{Map, lookup, insert, nat_eq, lookup-insert}
use localsoftware.Alloc.{Allocator}
use localsoftware.Alloc.Blocks.{View, bases, blocks, Apart}
use localsoftware.Alloc.Ordered.{Outside, lookup_least, blocks-Apart}
use localsoftware.Alloc.Heap.{CustomApart, IsValid, valid-Ordered}
use localsoftware.Alloc.Grow.{IsFree}
use localsoftware.Alloc.Small.{Allocated}

pub custom_fresh :
    (a : Allocator) (v : View) (base num : ℕ)
    → IsValid a v
    → 64 < num
    → IsFree a base num
    → (lookup base a.custom_arenas ≡ none) × (lookup base (blocks v) ≡ none)
custom_fresh a v base num h large free = (custom, inside)
  where
    custom : lookup base a.custom_arenas ≡ none
    custom = elim (Option-cases (lookup base a.custom_arenas)) [
      | inl e ↦ e
      | inr (k, e) ↦
          let big = (h.clear base k e).0 in
          absurd (elim (free.custom base k e) [
            | inl l ↦ omega (arith, l, large)
            | inr r ↦ omega (arith, r, big)
          ])
    ]

    inside : lookup base (blocks v) ≡ none
    inside = elim (Option-cases (lookup base (blocks v))) [
      | inl e ↦ e
      | inr (k, e) ↦
          let out : Outside base num (bases v) = rw h.names free.arenas in
          let least = lookup_least 0 base k (blocks v) (valid-Ordered a v h) e in
          absurd (elim (blocks-Apart a base num base k v h.tiled out e) [
            | inl l ↦ omega (arith, l, large)
            | inr r ↦ omega (arith, r, least.1)
          ])
    ]

insert-CustomApart :
    (custom : Map ℕ ℕ) (base num : ℕ)
    → CustomApart custom
    → ((c j : ℕ) → lookup c custom ≡ some j → Apart base num c j)
    → CustomApart (insert base num custom)
insert-CustomApart custom base num h free c k d j e f =
    let seen : (x : ℕ)
        → lookup x (insert base num custom) ≡ (if base == x then some num else lookup x custom) =
      λ x. lookup-insert base x num custom in
    elim (Bool-cases (base == c)) [
      | inl p ↦ elim (Bool-cases (base == d)) [
        | inl q ↦ inl (ground arith)
        | inr q ↦
            let same : base ≡ c = ground arith in
            let size : num ≡ k = ground (arith, seen c) in
            inr (rw (← same, ← size) (free d j (ground (arith, seen d))))
      ]
      | inr p ↦ elim (Bool-cases (base == d)) [
        | inl q ↦
            let same : base ≡ d = ground arith in
            let size : num ≡ j = ground (arith, seen d) in
            inr (
              rw (← same, ← size)
                (elim (free c k (ground (arith, seen c))) [ inl l ↦ inr l | inr r ↦ inl r ]))
        | inr q ↦ h c k d j (ground (arith, seen c)) (ground (arith, seen d))
      ]
    ]

abbrev pub with_custom : Allocator → ℕ → ℕ → Allocator
with_custom a num base = record a { custom_arenas = insert base num a.custom_arenas }

pub custom_arena-Allocated :
    (a : Allocator) (v : View) (num base : ℕ)
    → IsValid a v
    → 64 < num
    → IsFree a base num
    → Allocated a v num (with_custom a num base, base)
custom_arena-Allocated a v num base h large free =
    let (new, inside) = custom_fresh a v base num h large free in
    let seen : (x : ℕ)
        → lookup x (insert base num a.custom_arenas)
          ≡ (if base == x then some num else lookup x a.custom_arenas) =
      λ x. lookup-insert base x num a.custom_arenas in
    record {
      view = v;
      valid = record {
        names = h.names;
        spaced = h.spaced;
        tiled = h.tiled;
        sizes = h.sizes;
        clear = λ c k e. elim (Bool-cases (base == c)) [
          | inl eq ↦
              let same : base ≡ c = ground arith in
              let size : num ≡ k = ground (arith, seen c) in
              rw (← same, ← size) (large, free.arenas)
          | inr ne ↦ h.clear c k (ground (arith, seen c))
        ];
        apart = insert-CustomApart a.custom_arenas base num h.apart free.custom;
      };
      fresh = ground (arith, new, inside);
      change = λ x. ground (arith, seen x);
    }
