-- ===== src/Socket/Frame/Parse.antt =====
-- Frames against a reader of them after RFC 6455.
use localsoftware.Common.{
  ℕ, ◌+◌, ◌*◌, ◌/◌, ◌%◌, ◌^◌, ◌≤◌, ◌<◌, ◌≡◌, refl, ap, true, List, [], ◌∷◌, ◌++◌, append_assoc,
  Option, none, some, length, length-append, take, drop, leb, ltb, arith, if◌then◌else◌, Bool-cases,
  leb→le, ◌==◌, inl, inr,
}
use localsoftware.Socket.Frame.{frame_header, frame_len, frame}

-- A length and the bytes after it, or nothing if the bytes do not begin so.
abbrev pub Announced : Type 0
Announced = Option (ℕ × List ℕ)

abbrev pub two_bytes : List ℕ → Announced
two_bytes (a ∷ b ∷ rest) = some (256 * a + b, rest)
two_bytes bytes = none

abbrev pub eight_bytes : List ℕ → Announced
eight_bytes (a ∷ b ∷ c ∷ d ∷ e ∷ f ∷ g ∷ h ∷ rest) =
    some (256 * (256 * (256 * (256 * (256 * (256 * (256 * a + b) + c) + d) + e) + f) + g) + h, rest)
eight_bytes bytes = none

-- What an unmasked final binary frame announces: the second byte is a length below 126, or says in how
-- many bytes, most significant first, the length follows.
abbrev pub announced : List ℕ → Announced
announced (first ∷ second ∷ rest) =
    if first == 130
    then (if ltb second 126
        then some (second, rest)
        else if second == 126
        then two_bytes rest
        else if second == 127
        then eight_bytes rest
        else none)
    else none
announced bytes = none

abbrev pub payload : Announced → Option (List ℕ × List ℕ)
payload none = none
payload (some (len, rest)) =
    if leb len (length rest) then some (take len rest, drop len rest) else none

-- The payload of the frame at the front, and the bytes after it.
abbrev pub parse : List ℕ → Option (List ℕ × List ℕ)
parse bytes = payload (announced bytes)

header_small :
    (len : ℕ) (rest : List ℕ) → len ≤ 125 → announced (frame_header len ++ rest) ≡ some (len, rest)
unfolding frame_header
header_small len rest h = ground arith

header_medium :
    (len : ℕ) (rest : List ℕ)
    → 125 < len
    → len ≤ 65535
    → announced (frame_header len ++ rest) ≡ some (256 * (len / 256 % 256) + len % 256, rest)
unfolding frame_header
header_medium len rest h k = ground arith

header_large :
    (len : ℕ) (rest : List ℕ)
    → 65535 < len
    → announced (frame_header len ++ rest)
      ≡ some (
        256 * (256 * (256 * (len / 16777216 % 256) + len / 65536 % 256) + len / 256 % 256)
            + len % 256,
        rest,
      )
unfolding frame_header
header_large len rest h = ground arith

digits_two : (n : ℕ) → n ≤ 65535 → 256 * (n / 256 % 256) + n % 256 ≡ n
digits_two n h = omega arith

digits_four :
    (n : ℕ)
    → 256 * (256 * (256 * (n / 16777216 % 256) + n / 65536 % 256) + n / 256 % 256) + n % 256
      ≡ n % 2 ^ 32
digits_four n = omega arith

-- The header that `write_frame` writes for `len` bytes announces the low 32 bits of `len`, and a reader
-- finds behind it what follows it.
announced-frame_header :
    (len : ℕ) (rest : List ℕ) → announced (frame_header len ++ rest) ≡ some (len % 2 ^ 32, rest)
announced-frame_header len rest = elim (Bool-cases (leb len 125)) [
  | inl e ↦
      let m : len % 2 ^ 32 ≡ len = omega (arith, leb→le len 125 e) in
      rw m (header_small len rest (leb→le len 125 e))
  | inr e ↦ elim (Bool-cases (leb len 65535)) [
    | inl f ↦
        let le = leb→le len 65535 f in
        let m : len % 2 ^ 32 ≡ len = omega (arith, le) in
        let big : 125 < len = ground (arith, e) in
        rw (m, header_medium len rest big le, digits_two len le) refl
    | inr f ↦
        let big : 65535 < len = ground (arith, f) in
        rw (header_large len rest big, digits_four len) refl
  ]
]

take-append : (xs ys : List ℕ) → take (length xs) (xs ++ ys) ≡ xs
take-append [] ys = refl
take-append (x ∷ xs) ys = ap (λ l. x ∷ l) (take-append xs ys)

drop-append : (xs ys : List ℕ) → drop (length xs) (xs ++ ys) ≡ ys
drop-append [] ys = refl
drop-append (x ∷ xs) ys = drop-append xs ys

-- A reader gets back the bytes that `write_frame` was given, and leaves what follows the frame, if they
-- are fewer than 2 ^ 32.
pub parse-frame :
    (buf rest : List ℕ) → length buf < 2 ^ 32 → parse (frame buf ++ rest) ≡ some (buf, rest)
unfolding frame
parse-frame buf rest h =
    let whole : length buf % 2 ^ 32 ≡ length buf = omega arith in
    let fits : leb (length buf) (length (buf ++ rest)) ≡ true =
      ground (arith, length-append buf rest) in
    rw
      (
        append_assoc (frame_header (length buf)) buf rest,
        announced-frame_header (length buf) (buf ++ rest),
        whole,
        fits,
        take-append buf rest,
        drop-append buf rest,
      )
      refl

-- `write_frame` writes the header and the payload into a buffer of exactly their length.
length-frame : (buf : List ℕ) → length (frame buf) ≡ frame_len (length buf)
unfolding frame frame_header frame_len
length-frame buf = ground (arith, length-append (frame_header (length buf)) buf)
