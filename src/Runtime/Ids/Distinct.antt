-- ===== src/Runtime/Ids/Distinct.antt =====
-- The identifiers that a schedule of requests to src/common/thread_data.cpp is given.
use localsoftware.Common.{
  ℕ, ◌+◌, ◌*◌, ◌≤◌, ◌<◌, ◌≡◌, ◌≢◌, ◌⊎◌, inl, inr, true, List, [], ◌∷◌, length, Bool-cases, arith,
}
use native.Mathlib.Decide.{ℕ_discrete}
use localsoftware.Runtime.Ids.{IdRange, Pool, update, get_id, step, run, initial}

-- What can still be handed out from a range, and from the pool.
abbrev InRange : IdRange → ℕ → Type 0
InRange r x = (r.started ≡ true) × (r.curr ≤ x) × (x < r.base + 1000)

data Available (p : Pool) (x : ℕ) : Type 0 where
  from_blocks : 1000 * p.block ≤ x → Available p x
  from_range : (i : ℕ) → InRange (p.ranges i) x → Available p x

abbrev Held : IdRange → ℕ → Type 0
Held r block =
    r.started ≡ true → (r.base ≤ r.curr) × (r.curr ≤ r.base + 1000) × (r.base + 1000 ≤ 1000 * block)

abbrev Apart : IdRange → IdRange → Type 0
Apart r s =
    r.started ≡ true → s.started ≡ true → (r.base + 1000 ≤ s.base) ⊎ (s.base + 1000 ≤ r.base)

-- The ranges that the threads hold lie in blocks already taken, and do not overlap.
record IsValid (p : Pool) : Type 0 where
  held : (i : ℕ) → Held (p.ranges i) p.block
  apart : (i j : ℕ) → i ≢ j → Apart (p.ranges i) (p.ranges j)

-- Below this many blocks no product wraps.
abbrev pub max_block : ℕ
max_block = 18446744073709550

get_id-fresh_block :
    (r : IdRange) (block : ℕ)
    → block < max_block
    → Held r block
    → (r.started ≡ true → r.curr ≡ r.base + 1000)
    → get_id r block ≡ (
      1000 * block,
      record { base = 1000 * block; curr = 1000 * block + 1; started = true },
      block + 1,
    )
unfolding get_id
get_id-fresh_block r block h held full = elim (Bool-cases r.started) [
  | inl e ↦ ground (arith, held e, full e)
  | inr e ↦ ground arith
]

get_id-next :
    (r : IdRange) (block : ℕ)
    → block < max_block
    → Held r block
    → r.started ≡ true
    → r.curr ≢ r.base + 1000
    → get_id r block ≡ (r.curr, record r { curr = r.curr + 1 }, block)
unfolding get_id
get_id-next r block h held e ne = ground (arith, held e)

abbrev fresh_block : ℕ → ℕ × IdRange × ℕ
fresh_block block = (
  1000 * block,
  record { base = 1000 * block; curr = 1000 * block + 1; started = true },
  block + 1,
)

abbrev next_id : IdRange → ℕ → ℕ × IdRange × ℕ
next_id r block = (r.curr, record r { curr = r.curr + 1 }, block)

-- A call opens a new block, or goes on in the thread's own.
get_id_cases :
    (r : IdRange) (block : ℕ)
    → block < max_block
    → Held r block
    → (get_id r block ≡ fresh_block block)
      ⊎ ((get_id r block ≡ next_id r block) × (r.started ≡ true) × (r.curr < r.base + 1000))
get_id_cases r block h held = elim (Bool-cases r.started) [
  | inr e ↦ inl (get_id-fresh_block r block h held (λ s. absurd (ground (arith, s))))
  | inl e ↦ elim (ℕ_discrete r.curr (r.base + 1000)) [
    | yes full ↦ inl (get_id-fresh_block r block h held (λ _. full))
    | no ne ↦ inr (get_id-next r block h held e ne, e, omega (arith, held e))
  ]
]

-- What one call does to what is available.
record Stepped (p : Pool) (id : ℕ) (p' : Pool) : Type 0 where
  valid : IsValid p'
  taken : Available p id
  gone : ¬ Available p' id
  kept : (x : ℕ) → Available p' x → Available p x
  grows : p'.block ≤ p.block + 1

update_self : (f : ℕ → IdRange) (i : ℕ) (r : IdRange) → update f i r i ≡ r
update_self f i r = ground arith

update_at : (f : ℕ → IdRange) (i : ℕ) (r : IdRange) (j : ℕ) → i ≡ j → update f i r j ≡ r
update_at f i r j e = ground arith

update_ne : (f : ℕ → IdRange) (i : ℕ) (r : IdRange) (j : ℕ) → i ≢ j → update f i r j ≡ f j
update_ne f i r j h = ground arith

-- Split a claim about all ranges after an update.
at_update :
    (P : IdRange → Type 0) (f : ℕ → IdRange) (i : ℕ) (r : IdRange)
    → P r
    → ((j : ℕ) → i ≢ j → P (f j))
    → (j : ℕ) → P (update f i r j)
at_update P f i r here other j = elim (ℕ_discrete i j) [
  | yes e ↦ rw (← e, update_self f i r) here
  | no ne ↦ rw (update_ne f i r j ne) (other j ne)
]

Apart-sym : (r s : IdRange) → Apart r s → Apart s r
Apart-sym r s a hs hr = elim (a hr hs) [ inl h ↦ inr h | inr h ↦ inl h ]

Apart-update :
    (f : ℕ → IdRange) (i : ℕ) (r : IdRange)
    → ((j : ℕ) → i ≢ j → Apart r (f j))
    → ((a b : ℕ) → a ≢ b → Apart (f a) (f b))
    → (a b : ℕ) → a ≢ b
    → Apart (update f i r a) (update f i r b)
Apart-update f i r new old a b ne = elim (ℕ_discrete i a) [
  | yes ea ↦ elim (ℕ_discrete i b) [
    | yes eb ↦ absurd (ne (omega arith))
    | no nb ↦ rw (update_at f i r a ea, update_ne f i r b nb) (new b nb)
  ]
  | no na ↦ elim (ℕ_discrete i b) [
    | yes eb ↦ rw (update_at f i r b eb, update_ne f i r a na) (Apart-sym r (f a) (new a na))
    | no nb ↦ rw (update_ne f i r a na, update_ne f i r b nb) (old a b ne)
  ]
]

module _ (p : Pool) (i : ℕ) (v : IsValid p) (h : p.block < max_block) where
  -- A new block: its first identifier is handed out.
  abbrev opened : Pool
  opened = record { ranges = update p.ranges i (fresh_block p.block).1; block = p.block + 1 }

  opened-Stepped : Stepped p (1000 * p.block) opened
  opened-Stepped = record {
    valid = record {
      held =
          at_update (λ r. Held r (p.block + 1)) p.ranges i _ (λ _. omega arith)
            (λ j _ s. omega (arith, v.held j s));
      apart = Apart-update p.ranges i _ (λ j ne _ s. inr (omega (arith, v.held j s))) v.apart;
    };
    taken = from_blocks (omega arith);
    gone = λ a. gone_from a;
    kept = λ x a. kept_from x a;
    grows = omega arith;
  }
    where
      gone_from : Available opened (1000 * p.block) → ⊥
      gone_from (from_blocks e) = omega arith
      gone_from (from_range j r) =
          at_update (λ s. InRange s (1000 * p.block) → ⊥) p.ranges i _ (λ q. omega (arith, q.1))
            (λ k _ q. omega (arith, v.held k q.0, q.1, q.2)) j r

      kept_from : (x : ℕ) → Available opened x → Available p x
      kept_from x (from_blocks e) = from_blocks (omega arith)
      kept_from x (from_range j r) =
          at_update (λ s. InRange s x → Available p x) p.ranges i _
            (λ q. from_blocks (omega (arith, q.1))) (λ k _ q. from_range k q) j r

  -- The thread goes on in its block.
  abbrev advanced : Pool
  advanced = record { ranges = update p.ranges i (next_id (p.ranges i) p.block).1; block = p.block }

  advanced-Stepped :
      (p.ranges i).started ≡ true
      → (p.ranges i).curr < (p.ranges i).base + 1000
      → Stepped p (p.ranges i).curr advanced
  advanced-Stepped s room = record {
    valid = record {
      held =
          at_update (λ r. Held r p.block) p.ranges i _ (λ _. omega (arith, v.held i s))
            (λ j _. v.held j);
      apart = Apart-update p.ranges i _ (λ j ne. v.apart i j ne) v.apart;
    };
    taken = from_range i (s, omega arith, room);
    gone = λ a. gone_from a;
    kept = λ x a. kept_from x a;
    grows = omega arith;
  }
    where
      gone_from : Available advanced (p.ranges i).curr → ⊥
      gone_from (from_blocks e) = omega (arith, v.held i s)
      gone_from (from_range j r) =
          at_update (λ q. InRange q (p.ranges i).curr → ⊥) p.ranges i _ (λ q. omega (arith, q.1))
            (λ k ne q. omega (arith, v.apart i k ne s q.0, v.held i s, q.1, q.2)) j r

      kept_from : (x : ℕ) → Available advanced x → Available p x
      kept_from x (from_blocks e) = from_blocks e
      kept_from x (from_range j r) =
          at_update (λ q. InRange q x → Available p x) p.ranges i _
            (λ q. from_range i (s, omega (arith, q.1), q.2)) (λ k _ q. from_range k q) j r

  step-Stepped : Stepped p (step p i).0 (step p i).1
  unfolding step
  step-Stepped = elim (get_id_cases (p.ranges i) p.block h (v.held i)) [
    | inl e ↦ rw (e, step) opened-Stepped
    | inr (e, s, room) ↦ rw (e, step) (advanced-Stepped s room)
  ]

abbrev AllAvailable : Pool → List ℕ → Type 0
AllAvailable p [] = Unit {0}
AllAvailable p (x ∷ xs) = Available p x × AllAvailable p xs

abbrev pub NotIn : ℕ → List ℕ → Type 0
NotIn x [] = Unit {0}
NotIn x (y ∷ ys) = (x ≢ y) × NotIn x ys

abbrev pub Distinct : List ℕ → Type 0
Distinct [] = Unit {0}
Distinct (x ∷ xs) = NotIn x xs × Distinct xs

AllAvailable-mono :
    (p q : Pool) (xs : List ℕ)
    → ((x : ℕ) → Available p x → Available q x)
    → AllAvailable p xs
    → AllAvailable q xs
AllAvailable-mono p q [] f a = tt
AllAvailable-mono p q (x ∷ xs) f a = (f x a.0, AllAvailable-mono p q xs f a.1)

NotIn-of_gone : (p : Pool) (x : ℕ) (xs : List ℕ) → ¬ Available p x → AllAvailable p xs → NotIn x xs
NotIn-of_gone p x [] g a = tt
NotIn-of_gone p x (y ∷ ys) g a = ((λ e. g (rw e a.0)), NotIn-of_gone p x ys g a.1)

run_lem :
    (p : Pool) (schedule : List ℕ)
    → IsValid p
    → p.block + length schedule ≤ max_block
    → AllAvailable p (run p schedule) × Distinct (run p schedule)
unfolding run
run_lem p [] v h = (tt, tt)
run_lem p (i ∷ schedule) v h =
    let s = step-Stepped p i v (omega arith) in
    let (all, rest) = run_lem (step p i).1 schedule s.valid (omega (arith, s.grows)) in
    (
      (s.taken, AllAvailable-mono (step p i).1 p _ s.kept all),
      (NotIn-of_gone (step p i).1 (step p i).0 _ s.gone all, rest),
    )

-- Whatever the threads' uninitialised ranges hold, and in whatever order the threads and the handler
-- ask, no identifier is handed out twice in the first 18446744073709550 calls.
pub run-Distinct :
    (base curr : ℕ → ℕ) (schedule : List ℕ)
    → length schedule ≤ max_block
    → Distinct (run (initial base curr) schedule)
run-Distinct base curr schedule h =
    (run_lem (initial base curr) schedule
      (record { held = λ i e. absurd (cc); apart = λ i j _ e. absurd (cc) }) (omega arith)).1
