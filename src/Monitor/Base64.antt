-- ===== src/Monitor/Base64.antt =====
-- `base64_encode` writes what a decoder of RFC 4648 reads back.
use localsoftware.Common.{
  ℕ, ◌+◌, ◌-◌, ◌*◌, ◌/◌, ◌%◌, ◌^◌, zero, suc, ◌≤◌, ◌<◌, ◌≡◌, refl, Bool, true, false, not, ◌&&◌,
  List, [], ◌∷◌, ◌++◌, leb, ◌==◌, if◌then◌else◌, length, take, replicate, get_or, arith, ap, ◌∙◌,
  Bool-cases, inl, inr, ==_iff, ap₂,
}
use mathlib.Core.Bool.{false≢true}
use localsoftware.Monitor.Format.{
  encoding_table, mod_table, encode_triple, encode_all, base64_encode,
}

-- The value of a character of the alphabet.
abbrev pub sextet : ℕ → ℕ
sextet c =
    if leb 65 c && leb c 90
    then c - 65
    else if leb 97 c && leb c 122
    then c - 71
    else if leb 48 c && leb c 57
    then c + 4
    else if c == 43
    then 62
    else 63

abbrev pub octet_1 : ℕ → ℕ → ℕ
octet_1 a b = sextet a * 4 + sextet b / 16

abbrev pub octet_2 : ℕ → ℕ → ℕ
octet_2 b c = sextet b % 16 * 16 + sextet c / 4

abbrev pub octet_3 : ℕ → ℕ → ℕ
octet_3 c d = sextet c % 4 * 64 + sextet d

-- Groups of four characters; `=` stands for what is missing in the last one.
unfoldable pub base64_decode : List ℕ → List ℕ
base64_decode (a ∷ b ∷ c ∷ d ∷ cs) =
    let rest = base64_decode cs in
    if c == 61
    then octet_1 a b ∷ []
    else if d == 61
    then octet_1 a b ∷ octet_2 b c ∷ []
    else octet_1 a b ∷ octet_2 b c ∷ octet_3 c d ∷ rest
base64_decode _ = []

-- A test that holds below a bound.
abbrev all_below : ℕ → (ℕ → Bool) → Bool
all_below zero test = true
all_below (suc n) test = test n && all_below n test

and_left : (a b : Bool) → a && b ≡ true → a ≡ true
and_left true b h = refl
and_left false b h = h

and_right : (a b : Bool) → a && b ≡ true → b ≡ true
and_right true b h = h
and_right false b h = ground arith

all_below_lem : (n i : ℕ) (test : ℕ → Bool) → all_below n test ≡ true → i < n → test i ≡ true
all_below_lem zero i test h less = absurd (omega arith)
all_below_lem (suc n) i test h less = elim (Bool-cases (i == n)) [
  | inl e ↦ let same : i ≡ n = ground arith in ap test same ∙ and_left (test n) (all_below n test) h
  | inr e ↦ all_below_lem n i test (and_right (test n) (all_below n test) h) (ground arith)
]

abbrev character : ℕ → ℕ
character i = get_or encoding_table i 0

abbrev good : ℕ → Bool
good i = (sextet (character i) == i) && not (character i == 61)

all_good : all_below 64 good ≡ true
all_good = refl

reads_of_test :
    (c i : ℕ) → (sextet c == i) && not (c == 61) ≡ true → (sextet c ≡ i) × ((c == 61) ≡ false)
reads_of_test c i h =
    let same = and_left (sextet c == i) (not (c == 61)) h in
    let other = and_right (sextet c == i) (not (c == 61)) h in
    (
      (==_iff (sextet c) i).0 same,
      elim (Bool-cases (c == 61)) [ inl e ↦ absurd (false≢true (rw e at other)) | inr e ↦ e ],
    )

character_lem : (i : ℕ) → i < 64 → (sextet (character i) ≡ i) × ((character i == 61) ≡ false)
character_lem i less = reads_of_test (character i) i (all_below_lem 64 i good all_good less)

-- The three octets of four values.
octets_lem :
    (a b c : ℕ)
    → a < 256
    → b < 256
    → c < 256
    → let t = a * 2 ^ 16 + b * 2 ^ 8 + c in
      (t / 2 ^ 18 % 64 * 4 + t / 2 ^ 12 % 64 / 16 ≡ a)
      × (t / 2 ^ 12 % 64 % 16 * 16 + t / 2 ^ 6 % 64 / 4 ≡ b)
      × (t / 2 ^ 6 % 64 % 4 * 64 + t % 64 ≡ c)
octets_lem a b c la lb lc = (omega arith, omega arith, omega arith)

decode_full :
    (p q r s : ℕ) (rest : List ℕ)
    → (r == 61) ≡ false
    → (s == 61) ≡ false
    → base64_decode (p ∷ q ∷ r ∷ s ∷ rest)
      ≡ octet_1 p q ∷ octet_2 q r ∷ octet_3 r s ∷ base64_decode rest
unfolding base64_decode
decode_full p q r s rest h k = rw (base64_decode, h, k) refl

decode_two :
    (p q r : ℕ)
    → (r == 61) ≡ false
    → base64_decode (p ∷ q ∷ r ∷ 61 ∷ []) ≡ octet_1 p q ∷ octet_2 q r ∷ []
unfolding base64_decode
decode_two p q r h = rw (base64_decode, h) refl

decode_one : (p q : ℕ) → base64_decode (p ∷ q ∷ 61 ∷ 61 ∷ []) ≡ octet_1 p q ∷ []
unfolding base64_decode
decode_one p q = refl

abbrev pub Octets : List ℕ → Type 0
Octets [] = Unit {0}
Octets (a ∷ l) = (a < 256) × Octets l

abbrev triple : ℕ → ℕ → ℕ → ℕ
triple a b c = a * 2 ^ 16 + b * 2 ^ 8 + c

-- The octets that the characters of a triple stand for.
record Group (a b c : ℕ) : Type 0 where
  first :
      octet_1 (character (triple a b c / 2 ^ 18 % 64)) (character (triple a b c / 2 ^ 12 % 64)) ≡ a
  second :
      octet_2 (character (triple a b c / 2 ^ 12 % 64)) (character (triple a b c / 2 ^ 6 % 64)) ≡ b
  third : octet_3 (character (triple a b c / 2 ^ 6 % 64)) (character (triple a b c % 64)) ≡ c
  third_there : (character (triple a b c / 2 ^ 6 % 64) == 61) ≡ false
  last_there : (character (triple a b c % 64) == 61) ≡ false

group_lem : (a b c : ℕ) → a < 256 → b < 256 → c < 256 → Group a b c
group_lem a b c la lb lc =
    let t = triple a b c in
    let (e0, _) = character_lem (t / 2 ^ 18 % 64) (omega arith) in
    let (e1, _) = character_lem (t / 2 ^ 12 % 64) (omega arith) in
    let (e2, n2) = character_lem (t / 2 ^ 6 % 64) (omega arith) in
    let (e3, n3) = character_lem (t % 64) (omega arith) in
    let (o1, o2, o3) = octets_lem a b c la lb lc in
    record {
      first = ap₂ (λ p q. p * 4 + q / 16) e0 e1 ∙ o1;
      second = ap₂ (λ p q. p % 16 * 16 + q / 4) e1 e2 ∙ o2;
      third = ap₂ (λ p q. p % 4 * 64 + q) e2 e3 ∙ o3;
      third_there = n2;
      last_there = n3;
    }

mod_table_le : (n : ℕ) → mod_table n ≤ 2
mod_table_le zero = omega arith
mod_table_le (suc zero) = omega arith
mod_table_le (suc (suc zero)) = omega arith
mod_table_le (suc (suc (suc n))) = omega arith

padding_le : (l : List ℕ) → mod_table (length l % 3) ≤ length (encode_all l)
unfolding encode_all
padding_le [] = omega arith
padding_le (a ∷ []) = omega arith
padding_le (a ∷ b ∷ []) = omega arith
padding_le (a ∷ b ∷ c ∷ l) = omega (arith, mod_table_le (length (a ∷ b ∷ c ∷ l) % 3))

encode_more :
    (a b c : ℕ) (l : List ℕ)
    → base64_encode (a ∷ b ∷ c ∷ l) ≡ encode_triple a b c ++ base64_encode l
unfolding base64_encode encode_all
encode_more a b c l =
    let same : length (a ∷ b ∷ c ∷ l) % 3 ≡ length l % 3 = omega arith in
    let padding = mod_table (length l % 3) in
    let all = encode_all l in
    let fits = padding_le l in
    let behind : length (encode_triple a b c ++ all) - padding
        ≡ suc (suc (suc (suc (length all - padding)))) =
      omega arith in
    ap
      (λ k.
        take (length (encode_triple a b c ++ all) - mod_table k) (encode_triple a b c ++ all)
        ++ replicate (mod_table k) 61)
      same
    ∙ ap (λ k. take k (encode_triple a b c ++ all) ++ replicate padding 61) behind

decode_nothing : base64_decode (base64_encode []) ≡ []
unfolding base64_encode encode_all base64_decode
decode_nothing = refl

encode_one :
    (a : ℕ)
    → base64_decode (base64_encode (a ∷ []))
      ≡ base64_decode (
          character (triple a 0 0 / 2 ^ 18 % 64)
          ∷ character (triple a 0 0 / 2 ^ 12 % 64)
          ∷ 61
          ∷ 61
          ∷ [])
unfolding base64_encode encode_all
encode_one a = refl

encode_two :
    (a b : ℕ)
    → base64_decode (base64_encode (a ∷ b ∷ []))
      ≡ base64_decode (
          character (triple a b 0 / 2 ^ 18 % 64)
          ∷ character (triple a b 0 / 2 ^ 12 % 64)
          ∷ character (triple a b 0 / 2 ^ 6 % 64)
          ∷ 61
          ∷ [])
unfolding base64_encode encode_all
encode_two a b = refl

-- Whatever octets are encoded, with one, two or no octets left over in the last group, the decoder of RFC 4648
-- gives the same octets back. An octet is a number below 256.
pub base64_decode-base64_encode :
    (octets : List ℕ) → Octets octets → base64_decode (base64_encode octets) ≡ octets
base64_decode-base64_encode [] h = decode_nothing
base64_decode-base64_encode (a ∷ []) (la, _) =
    let g = group_lem a 0 0 la (omega arith) (omega arith) in
    encode_one a ∙ decode_one _ _ ∙ ap (λ k. k ∷ []) g.first
base64_decode-base64_encode (a ∷ b ∷ []) (la, (lb, _)) =
    let g = group_lem a b 0 la lb (omega arith) in
    encode_two a b ∙ decode_two _ _ _ g.third_there ∙ ap₂ (λ k l. k ∷ l ∷ []) g.first g.second
base64_decode-base64_encode (a ∷ b ∷ c ∷ l) (la, (lb, (lc, h))) =
    let g = group_lem a b c la lb lc in
    let later = base64_decode-base64_encode l h in
    ap base64_decode (encode_more a b c l)
    ∙ decode_full _ _ _ _ (base64_encode l) g.third_there g.last_there
    ∙ ap₂
        (λ k m.
          k
          ∷ m
          ∷ octet_3 (character (triple a b c / 2 ^ 6 % 64)) (character (triple a b c % 64))
          ∷ base64_decode (base64_encode l))
        g.first g.second
    ∙ ap₂ (λ k m. a ∷ b ∷ k ∷ m) g.third later
