-- ===== src/Program/Usage/Decimal.antt =====
-- A number that is printed is read back.
use localsoftware.Common.{
  ℕ, suc, zero, ◌+◌, ◌-◌, ◌*◌, ◌/◌, ◌%◌, ◌^◌, ◌<◌, ◌≡◌, refl, true, false, List, [], ◌∷◌, ◌++◌,
  some, ltb, arith, Bool-cases, inl, inr, ltb→lt, lt→ltb, ap, ◌∙◌,
}
use localsoftware.Program.Usage.{
  is_digit, is_space, digits, decimal, digits_value, skip_spaces, extract, read_bytes, or_zero,
}

-- What ends a number: the end of the text or a byte that is no digit.
abbrev pub Ends : List ℕ → Type 0
Ends [] = Unit {0}
Ends (c ∷ cs) = is_digit c ≡ false

-- The value of digits in any base position, with `10 ^ length` as the weight of what stands before.
abbrev pub AllDigits : List ℕ → Type 0
AllDigits [] = Unit {0}
AllDigits (c ∷ cs) = (is_digit c ≡ true) × AllDigits cs

digits_value-append :
    (n : ℕ) (a b : List ℕ)
    → AllDigits a
    → digits_value n (a ++ b) ≡ digits_value (digits_value n a) b
unfolding digits_value
digits_value-append n [] b h = refl
digits_value-append n (c ∷ a) b (h, hs) =
    rw (h, digits_value-append (10 * n + (c - 48)) a b hs) refl

AllDigits-append : (a b : List ℕ) → AllDigits a → AllDigits b → AllDigits (a ++ b)
AllDigits-append [] b h k = k
AllDigits-append (c ∷ a) b (h, hs) k = (h, AllDigits-append a b hs k)

one_digit : (n : ℕ) → n < 10 → is_digit (48 + n) ≡ true
one_digit n h = ground arith

pub digits-AllDigits : (fuel n : ℕ) → AllDigits (digits fuel n)
unfolding digits
digits-AllDigits zero n = tt
digits-AllDigits (suc fuel) n = elim (Bool-cases (ltb n 10)) [
  | inl h ↦ rw h (one_digit n (ltb→lt n 10 h), tt)
  | inr h ↦ rw h (
      AllDigits-append (digits fuel (n / 10)) ((48 + n % 10) ∷ []) (digits-AllDigits fuel (n / 10))
        (one_digit (n % 10) (omega arith), tt))
]

digits_value-one : (n m : ℕ) → m < 10 → digits_value n ((48 + m) ∷ []) ≡ 10 * n + m
unfolding digits_value
digits_value-one n m h = rw (one_digit m h) (omega arith)

pub digits_value-digits : (fuel n : ℕ) → n < 10 ^ fuel → digits_value 0 (digits fuel n) ≡ n
unfolding digits digits_value
digits_value-digits zero n h = omega arith
digits_value-digits (suc fuel) n h = elim (Bool-cases (ltb n 10)) [
  | inl k ↦ rw k (digits_value-one 0 n (ltb→lt n 10 k) ∙ omega arith)
  | inr k ↦
      rw
        (
          k,
          digits_value-append 0 (digits fuel (n / 10)) ((48 + n % 10) ∷ [])
              (digits-AllDigits fuel (n / 10)),
          digits_value-digits fuel (n / 10) (omega arith),
          digits_value-one (n / 10) (n % 10) (omega arith),
        )
        (omega arith)
]

-- What follows the digits of a number does not change it.
pub digits_value-Ends :
    (n : ℕ) (a b : List ℕ) → AllDigits a → Ends b → digits_value n (a ++ b) ≡ digits_value n a
unfolding digits_value
digits_value-Ends n [] [] h e = refl
digits_value-Ends n [] (c ∷ b) h e = rw e refl
digits_value-Ends n (c ∷ a) b (h, hs) e =
    rw (h, digits_value-Ends (10 * n + (c - 48)) a b hs e) refl

no_space : (c : ℕ) → is_digit c ≡ true → is_space c ≡ false
no_space c h = ground arith

-- A number has a digit.
abbrev pub Begins : List ℕ → Type 0
Begins [] = ⊥
Begins (c ∷ cs) = is_digit c ≡ true

Begins-append : (a b : List ℕ) → Begins a → Begins (a ++ b)
Begins-append [] b h = elim h [ ]
Begins-append (c ∷ a) b h = h

pub digits-Begins : (fuel n : ℕ) → n < 10 ^ suc fuel → Begins (digits (suc fuel) n)
unfolding digits
digits-Begins zero n h = rw (lt→ltb n 10 (omega arith)) (one_digit n (omega arith))
digits-Begins (suc fuel) n h = elim (Bool-cases (ltb n 10)) [
  | inl k ↦ rw k (one_digit n (ltb→lt n 10 k))
  | inr k ↦ rw k (
      Begins-append (digits (suc fuel) (n / 10)) ((48 + n % 10) ∷ [])
        (digits-Begins fuel (n / 10) (omega arith)))
]

pub skip_spaces-Begins : (a b : List ℕ) → Begins a → skip_spaces (a ++ b) ≡ a ++ b
unfolding skip_spaces
skip_spaces-Begins [] b h = elim h [ ]
skip_spaces-Begins (c ∷ a) b h = rw (no_space c h) refl

extract-Begins :
    (a b : List ℕ) (n : ℕ)
    → Begins a
    → digits_value 0 (a ++ b) ≡ n
    → n < 2 ^ 64
    → extract (a ++ b) ≡ some n
unfolding extract
extract-Begins [] b n h e small = elim h [ ]
extract-Begins (c ∷ a) b n h e small = rw (e, h, lt→ltb n (2 ^ 64) small) refl

-- A counter file that holds a number below 2 ^ 64 in decimal digits, with anything after it that does not
-- begin with a digit (the kernel ends it with a newline), is read as that number.
pub read_bytes-decimal :
    (n : ℕ) (rest : List ℕ) → n < 2 ^ 64 → Ends rest → read_bytes (some (decimal n ++ rest)) ≡ n
unfolding read_bytes decimal
read_bytes-decimal n rest small e =
    let fits : n < 10 ^ 20 = omega arith in
    let start = digits-Begins 19 n fits in
    let value =
      digits_value-Ends 0 (digits 20 n) rest (digits-AllDigits 20 n) e
      ∙ digits_value-digits 20 n fits in
    ap or_zero (
      ap extract (skip_spaces-Begins (digits 20 n) rest start)
      ∙ extract-Begins (digits 20 n) rest n start value small)
