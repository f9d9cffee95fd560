-- ===== src/Monitor/Lines.antt =====
-- The lines that the program logs are those that the monitor reads.
use localsoftware.Common.{
  ℕ, ◌^◌, ◌<◌, ◌≡◌, refl, List, [], ◌∷◌, ◌++◌, some, ltb, ap, ◌∙◌, arith, Bool-cases, inl, inr, sym,
  append-nil,
}
use localsoftware.Program.Usage.{Entry, decimal, digits_value, skip_spaces, two_wide, log_line}
use localsoftware.Program.Usage.Decimal.{
  Ends, Begins, AllDigits, digits_value-Ends, digits-AllDigits, digits_value-digits, digits-Begins,
  skip_spaces-Begins,
}
use localsoftware.Monitor.Format.{rest_of_digits, scan_digits, scan_number, scan_char, scan_line}

rest_of_digits-append : (a b : List ℕ) → AllDigits a → Ends b → rest_of_digits (a ++ b) ≡ b
unfolding rest_of_digits
rest_of_digits-append [] [] h e = refl
rest_of_digits-append [] (c ∷ b) h e = rw e refl
rest_of_digits-append (c ∷ a) b (h, hs) e = rw h (rest_of_digits-append a b hs e)

-- A text of digits with the value `n`.
record Writes (n : ℕ) (text : List ℕ) : Type 0 where
  all_digits : AllDigits text
  begins : Begins text
  value : digits_value 0 text ≡ n

scan_digits_lem :
    (n : ℕ) (text rest : List ℕ)
    → Begins text
    → digits_value 0 (text ++ rest) ≡ n
    → rest_of_digits (text ++ rest) ≡ rest
    → scan_digits (text ++ rest) ≡ some (n, rest)
unfolding scan_digits
scan_digits_lem n [] rest b v r = elim b [ ]
scan_digits_lem n (c ∷ text) rest b v r = rw (b, v, r) refl

scan_number_lem :
    (n : ℕ) (text rest : List ℕ)
    → Writes n text
    → Ends rest
    → scan_number (text ++ rest) ≡ some (n, rest)
scan_number_lem n text rest w e =
    ap scan_digits (skip_spaces-Begins text rest w.begins)
    ∙ scan_digits_lem n text rest w.begins (digits_value-Ends 0 text rest w.all_digits e ∙ w.value)
        (rest_of_digits-append text rest w.all_digits e)

-- White space before a number is skipped.
scan_number_space :
    (n : ℕ) (text rest : List ℕ)
    → Writes n text
    → Ends rest
    → scan_number (32 ∷ (text ++ rest)) ≡ some (n, rest)
unfolding skip_spaces
scan_number_space n text rest w e = scan_number_lem n text rest w e

scan_number_end : (n : ℕ) (text : List ℕ) → Writes n text → scan_number (32 ∷ text) ≡ some (n, [])
scan_number_end n text w =
    ap (λ t. scan_number (32 ∷ t)) (sym (append-nil text)) ∙ scan_number_space n text [] w tt

decimal-Writes : (n : ℕ) → n < 2 ^ 64 → Writes n (decimal n)
unfolding decimal
decimal-Writes n small =
    let fits : n < 10 ^ 20 = omega arith in
    record {
      all_digits = digits-AllDigits 20 n;
      begins = digits-Begins 19 n fits;
      value = digits_value-digits 20 n fits;
    }

zero_first : (n : ℕ) (text : List ℕ) → Writes n text → Writes n (48 ∷ text)
unfolding digits_value
zero_first n text w = record { all_digits = (refl, w.all_digits); begins = refl; value = w.value }

two_wide-Writes : (n : ℕ) → n < 2 ^ 64 → Writes n (two_wide n)
two_wide-Writes n small =
    let w = decimal-Writes n small in
    elim (Bool-cases (ltb n 10)) [ inl e ↦ rw e (zero_first n (decimal n) w) | inr e ↦ rw e w ]

-- Every line that the program logs, for an hour or for a day, is read by the monitor as the record with the
-- same time, sent and received bytes and hour, if the numbers are below 2 ^ 64.
pub scan_line-log_line :
    (e : Entry)
    → e.ts < 2 ^ 64
    → e.d < 2 ^ 64
    → e.m < 2 ^ 64
    → e.y < 2 ^ 64
    → e.h < 2 ^ 64
    → e.tx < 2 ^ 64
    → e.rx < 2 ^ 64
    → scan_line (log_line e)
      ≡ some (record { timestamp = e.ts; tx_bytes = e.tx; rx_bytes = e.rx; hour = e.h })
unfolding scan_line log_line scan_char
scan_line-log_line e ts d m y h tx rx =
    rw
      (
        scan_number_lem e.ts (decimal e.ts) _ (decimal-Writes e.ts ts) refl,
        scan_number_space e.d (two_wide e.d) _ (two_wide-Writes e.d d) refl,
        scan_number_lem e.m (two_wide e.m) _ (two_wide-Writes e.m m) refl,
        scan_number_lem e.y (decimal e.y) _ (decimal-Writes e.y y) refl,
        scan_number_space e.h (decimal e.h) _ (decimal-Writes e.h h) refl,
        scan_number_space e.tx (decimal e.tx) _ (decimal-Writes e.tx tx) refl,
        scan_number_end e.rx (decimal e.rx) (decimal-Writes e.rx rx),
      )
      refl
