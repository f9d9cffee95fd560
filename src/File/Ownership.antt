-- ===== src/File/Ownership.antt =====
-- Every descriptor has one owner until it is closed once.
use localsoftware.Common.{
  ℕ, suc, ◌+◌, ◌≡◌, refl, false, List, [], ◌∷◌, ◌++◌, Option, none, some, set, ◌==◌, if◌then◌else◌,
  arith, Bool-cases, zero, ◌∙◌, subst, ◌⊎◌, inl, inr,
}
use localsoftware.Common.Int.{ℤ, beq_ℤ}
use localsoftware.Runtime.Types.{Result, ok, err, Fault}
use localsoftware.File.{
  File, Files, Op, make, move_from, assign_to, drop_file, no_fd, close_fd, destroy, move, assign,
  live, step, run,
}

-- How often a descriptor stands in a list of closed ones.
abbrev pub count : ℤ → List ℤ → ℕ
count k [] = 0
count k (fd ∷ fds) = (if beq_ℤ fd k then 1 else 0) + count k fds

abbrev holds : ℤ → Option File → ℕ
holds k none = 0
holds k (some f) = if beq_ℤ f.fd_ k then 1 else 0

-- How many of the objects own the descriptor.
abbrev pub owners : ℤ → Files → ℕ
owners k [] = 0
owners k (f ∷ fs) = holds k f + owners k fs

-- How often it is handed to a new object.
abbrev pub made : ℤ → List Op → ℕ
made k [] = 0
made k (make fd ∷ ops) = (if beq_ℤ fd k then 1 else 0) + made k ops
made k (move_from i ∷ ops) = made k ops
made k (assign_to i j ∷ ops) = made k ops
made k (drop_file i ∷ ops) = made k ops

count-append : (k : ℤ) (a b : List ℤ) → count k (a ++ b) ≡ count k a + count k b
count-append k [] b = omega arith
count-append k (fd ∷ a) b = omega (arith, count-append k a b)

owners-append : (k : ℤ) (a b : Files) → owners k (a ++ b) ≡ owners k a + owners k b
owners-append k [] b = omega arith
owners-append k (f ∷ a) b = omega (arith, owners-append k a b)

owners-set :
    (k : ℤ) (fs : Files) (i : ℕ) (f : File) (v : Option File)
    → live fs i ≡ ok f
    → owners k (set fs i v) + holds k (some f) ≡ owners k fs + holds k v
owners-set k [] i f v h = ground arith
owners-set k (some g ∷ fs) zero f v h = ground arith
owners-set k (none ∷ fs) zero f v h = ground arith
owners-set k (g ∷ fs) (suc i) f v h = omega (arith, owners-set k fs i f v h)

live-set_ne :
    (fs : Files) (i j : ℕ) (v : Option File) → (i == j) ≡ false → live (set fs i v) j ≡ live fs j
live-set_ne [] i j v h = refl
live-set_ne (f ∷ fs) zero zero v h = ground arith
live-set_ne (f ∷ fs) zero (suc j) v h = refl
live-set_ne (f ∷ fs) (suc i) zero v h = refl
live-set_ne (f ∷ fs) (suc i) (suc j) v h = live-set_ne fs i j v (ground arith)

count-close_fd :
    (k fd : ℤ)
    → beq_ℤ k no_fd ≡ false
    → count k (close_fd fd) ≡ holds k (some (record { fd_ = fd }))
count-close_fd k fd h = ground arith

Result-cases {ℓ} :
    {A : Type ℓ} (r : Result A) → ((a : A) × (r ≡ ok a)) ⊎ ((e : Fault) × (r ≡ err e))
Result-cases (ok a) = inl (a, refl)
Result-cases (err e) = inr (e, refl)

-- What a step leaves of the descriptor's owners, if the step is defined.
abbrev Conserved : ℤ → ℕ → Result (Files × List ℤ) → Type 0
Conserved k n (ok (fs, closed)) = owners k fs + count k closed ≡ n
Conserved k n (err e) = Unit {0}

make_lem :
    (k fd : ℤ) (fs : Files) → Conserved k (owners k fs + made k (make fd ∷ [])) (step fs (make fd))
unfolding step
make_lem k fd fs = ground (arith, owners-append k fs (some (record { fd_ = fd }) ∷ []))

move_lem :
    (k : ℤ) (fs : Files) (i : ℕ)
    → beq_ℤ k no_fd ≡ false
    → Conserved k (owners k fs) (step fs (move_from i))
unfolding step move
move_lem k fs i h = elim (Result-cases (live fs i)) [
  | inl (f, e) ↦
      let rest : File = record { fd_ = no_fd } in
      rw e (
        ground (
          arith,
          owners-append k (set fs i (some rest)) (some f ∷ []),
          owners-set k fs i f (some rest) e,
        ))
  | inr (e, q) ↦ rw q tt
]

assign_lem :
    (k : ℤ) (fs : Files) (i j : ℕ)
    → beq_ℤ k no_fd ≡ false
    → Conserved k (owners k fs) (step fs (assign_to i j))
unfolding step assign
assign_lem k fs i j h = elim (Bool-cases (i == j)) [
  | inl e ↦
      rw e
        (elim (Result-cases (live fs i)) [ inl (f, g) ↦ rw g (omega arith) | inr (f, g) ↦ rw g tt ])
  | inr e ↦ rw e (elim (Result-cases (live fs i)) [
    | inr (f, g) ↦ rw g tt
    | inl (f, g) ↦ elim (Result-cases (live fs j)) [
      | inr (f', g') ↦ rw (g, g') tt
      | inl (f', g') ↦
          let rest : File = record { fd_ = no_fd } in
          let fs1 = set fs i (some f') in
          rw (g, g')
            (ground (
              arith,
              owners-set k fs i f (some f') g,
              owners-set k fs1 j f' (some rest) (live-set_ne fs i j (some f') e ∙ g'),
              count-close_fd k f.fd_ h,
            ))
    ]
  ])
]

drop_lem :
    (k : ℤ) (fs : Files) (i : ℕ)
    → beq_ℤ k no_fd ≡ false
    → Conserved k (owners k fs) (step fs (drop_file i))
unfolding step destroy
drop_lem k fs i h = elim (Result-cases (live fs i)) [
  | inl (f, e) ↦ rw e (ground (arith, owners-set k fs i f none e, count-close_fd k f.fd_ h))
  | inr (e, q) ↦ rw q tt
]

add_zero : (n : ℕ) → n + 0 ≡ n
add_zero n = omega arith

step_lem :
    (k : ℤ) (fs : Files) (op : Op)
    → beq_ℤ k no_fd ≡ false
    → Conserved k (owners k fs + made k (op ∷ [])) (step fs op)
step_lem k fs (make fd) h = make_lem k fd fs
step_lem k fs (move_from i) h = rw (add_zero (owners k fs)) (move_lem k fs i h)
step_lem k fs (assign_to i j) h = rw (add_zero (owners k fs)) (assign_lem k fs i j h)
step_lem k fs (drop_file i) h = rw (add_zero (owners k fs)) (drop_lem k fs i h)

made-cons : (k : ℤ) (op : Op) (ops : List Op) → made k (op ∷ ops) ≡ made k (op ∷ []) + made k ops
made-cons k (make fd) ops = omega arith
made-cons k (move_from i) ops = omega arith
made-cons k (assign_to i j) ops = omega arith
made-cons k (drop_file i) ops = omega arith

run_from :
    (k : ℤ) (fs : Files) (ops : List Op)
    → beq_ℤ k no_fd ≡ false
    → Conserved k (owners k fs + made k ops) (run fs ops)
unfolding run
run_from k fs [] h = omega arith
run_from k fs (op ∷ ops) h = elim (Result-cases (step fs op)) [
  | inr (e, q) ↦ rw q tt
  | inl ((fs1, closed), q) ↦
      let one : owners k fs1 + count k closed ≡ owners k fs + made k (op ∷ []) =
        subst (Conserved k (owners k fs + made k (op ∷ []))) q (step_lem k fs op h) in
      elim (Result-cases (run fs1 ops)) [
        | inr (e, q') ↦ rw (q, q') tt
        | inl ((fs2, later), q') ↦
            let two : owners k fs2 + count k later ≡ owners k fs1 + made k ops =
              subst (Conserved k (owners k fs1 + made k ops)) q' (run_from k fs1 ops h) in
            rw (q, q') (omega (arith, count-append k closed later, made-cons k op ops))
      ]
]

-- After any sequence of constructions, moves, assignments and destructions of files (an assignment of an
-- object to itself and one that replaces an owner included), in which only living objects are used: a
-- descriptor other than -1 has been closed, or is owned by an object that is alive, as often in all as
-- it was given to a new object. So a descriptor that one object was made for is never closed twice,
-- is closed if no object owns it any more, and has one owner until then.
pub run_lem :
    (k : ℤ) (ops : List Op) (fs : Files) (closed : List ℤ)
    → beq_ℤ k no_fd ≡ false
    → run [] ops ≡ ok (fs, closed)
    → count k closed + owners k fs ≡ made k ops
run_lem k ops fs closed h e =
    let whole : owners k fs + count k closed ≡ 0 + made k ops =
      subst (Conserved k (0 + made k ops)) e (run_from k [] ops h) in
    omega arith
