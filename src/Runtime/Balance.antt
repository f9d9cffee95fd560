-- ===== src/Runtime/Balance.antt =====
-- `ThreadData::find_target_thread` of src/common/thread_data.cpp. Loads are in thousandths: 0.8 is
-- 800, 0.02 is 20, 0.2 is 200 and 1.0 is 1000. The locals `min_thread` and `min_thread_0` are
-- options: `min_thread` starts uninitialised, `min_thread_0` at -1.
use localsoftware.Common.{
  ℕ, zero, suc, ◌+◌, ◌<◌, ◌≤◌, ◌≡◌, ◌≢◌, refl, get_elem?, ◌⊎◌, inl, Bool, true, false, not, ◌&&◌,
  ◌||◌, List, [], ◌∷◌, Option, none, some, get_or, length, ltb, ◌==◌, if◌then◌else◌, arith,
}

abbrev pub elem : ℕ → List ℕ → Bool
elem x [] = false
elem x (y ∷ ys) = (y == x) || elem x ys

abbrev pub is_empty : List ℕ → Bool
is_empty [] = true
is_empty (x ∷ xs) = false

pub record Best : Type 0 where
  pub min_thread : Option ℕ
  pub min_thread_0 : Option ℕ
  pub min_amt : ℕ

-- One round of the loop: thread `i` with its load.
abbrev pub consider : List ℕ → ℕ → ℕ → Best → Best
consider threads i load b =
    if not (is_empty threads) && not (elem i threads)
    then b
    else if ltb load b.min_amt
    then if ltb 20 load
      then record b { min_thread = some i; min_amt = load }
      else record b { min_thread_0 = some i }
    else b

unfoldable pub survey : List ℕ → List ℕ → ℕ → Best → Best
survey threads [] i b = b
survey threads (load ∷ loads) i b = survey threads loads (i + 1) (consider threads i load b)

abbrev pub choice : Best → Option ℕ
choice b =
    if ltb 200 b.min_amt
    then elim b.min_thread_0 [ none ↦ b.min_thread | some t ↦ some t ]
    else b.min_thread

-- `none`: the value returned is an uninitialised variable.
unfoldable pub find_target_thread : ℕ → List ℕ → List ℕ → Option ℕ
unfolding survey
find_target_thread thread loads threads =
    if (is_empty threads || elem thread threads) && ltb (get_or loads thread 0) 800
    then some thread
    else choice
        (survey threads loads 0 (record { min_thread = none; min_thread_0 = none; min_amt = 1000 }))

abbrev pub allowed : List ℕ → ℕ → Bool
allowed threads t = is_empty threads || elem t threads

-- What holds of the candidates after the threads below `n`.
record Candidates (threads : List ℕ) (n : ℕ) (b : Best) : Type 0 where
  busy : (t : ℕ) → b.min_thread ≡ some t → (t < n) × (allowed threads t ≡ true)
  idle : (t : ℕ) → b.min_thread_0 ≡ some t → (t < n) × (allowed threads t ≡ true)
  lowered : b.min_amt < 1000 → b.min_thread ≢ none
  start : b.min_amt ≤ 1000

consider-Candidates :
    (threads : List ℕ) (n load : ℕ) (b : Best)
    → Candidates threads n b
    → Candidates threads (n + 1) (consider threads n load b)
consider-Candidates threads n load b c = record {
  busy = λ t e. ground (arith, c.busy t);
  idle = λ t e. ground (arith, c.idle t);
  lowered = λ h. ground (arith, c.lowered);
  start = ground (arith, c.start);
}

survey-Candidates :
    (threads loads : List ℕ) (n m : ℕ) (b : Best)
    → n + length loads ≡ m
    → Candidates threads n b
    → Candidates threads m (survey threads loads n b)
unfolding survey
survey-Candidates threads [] n m b e c = let e' : n ≡ m = omega arith in rw (← e') c
survey-Candidates threads (load ∷ loads) n m b e c =
    survey-Candidates threads loads (n + 1) m (consider threads n load b) (omega arith)
      (consider-Candidates threads n load b c)

abbrev begin : Best
begin = record { min_thread = none; min_thread_0 = none; min_amt = 1000 }

begin-Candidates : (threads : List ℕ) → Candidates threads 0 begin
begin-Candidates threads = record {
  busy = λ t e. absurd (cc);
  idle = λ t e. absurd (cc);
  lowered = λ h. omega arith;
  start = omega arith;
}

elem-get_or : (x : ℕ) (xs : List ℕ) → elem x xs ≡ true → xs ≢ []
elem-get_or x [] h e = cc
elem-get_or x (y ∷ ys) h e = cc

-- If the calling thread exists then a thread that is chosen exists, and it is one of those asked for if
-- any were.
find_target_thread_sound :
    (thread : ℕ) (loads threads : List ℕ) (t : ℕ)
    → thread < length loads
    → find_target_thread thread loads threads ≡ some t
    → (t < length loads) × (allowed threads t ≡ true)
unfolding find_target_thread
find_target_thread_sound thread loads threads t inside h =
    let best = survey threads loads 0 begin in
    let c : Candidates threads (length loads) best =
      survey-Candidates threads loads 0 (length loads) begin (omega arith)
        (begin-Candidates threads) in
    ground (arith, c.busy t, c.idle t)

-- Once a candidate is found it is never given up,
survey_kept :
    (threads loads : List ℕ) (n : ℕ) (b : Best)
    → (b.min_thread ≢ none) ⊎ ((b.min_amt ≡ 1000) × (b.min_thread_0 ≢ none))
    → let r = survey threads loads n b in
      (r.min_thread ≢ none) ⊎ ((r.min_amt ≡ 1000) × (r.min_thread_0 ≢ none))
unfolding survey
survey_kept threads [] n b h = h
survey_kept threads (load ∷ loads) n b h =
    survey_kept threads loads (n + 1) (consider threads n load b) (ground arith)

-- and a thread that is allowed and not fully loaded gives one.
survey_found :
    (threads loads : List ℕ) (n i load : ℕ) (b : Best)
    → (b.min_amt ≡ 1000) ⊎ (b.min_thread ≢ none)
    → get_elem? loads i ≡ some load
    → load < 1000
    → allowed threads (n + i) ≡ true
    → let r = survey threads loads n b in
      (r.min_thread ≢ none) ⊎ ((r.min_amt ≡ 1000) × (r.min_thread_0 ≢ none))
unfolding survey
survey_found threads [] n i load b h e k a = cc
survey_found threads (x ∷ loads) n zero load b h e k a =
    let s : n + 0 ≡ n = omega arith in
    let a' : allowed threads n ≡ true = rw (← s) a in
    survey_kept threads loads (n + 1) (consider threads n x b) (ground arith)
survey_found threads (x ∷ loads) n (suc i) load b h e k a =
    let s : n + 1 + i ≡ n + suc i = omega arith in
    survey_found threads loads (n + 1) i load (consider threads n x b) (ground arith) e k (rw s a)

-- A thread is chosen whenever some thread carries less than the full load that is one of those asked for,
-- if any were.
pub find_target_thread_total :
    (thread : ℕ) (loads threads : List ℕ) (i load : ℕ)
    → get_elem? loads i ≡ some load
    → load < 1000
    → allowed threads i ≡ true
    → find_target_thread thread loads threads ≢ none
unfolding find_target_thread
find_target_thread_total thread loads threads i load e k a =
    let s : 0 + i ≡ i = omega arith in
    ground (arith, survey_found threads loads 0 i load begin (inl refl) e k (rw s a))
