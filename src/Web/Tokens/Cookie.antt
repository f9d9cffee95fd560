-- ===== src/Web/Tokens/Cookie.antt =====
-- The token in a cookie header.
use localsoftware.Common.{
  ℕ, ◌≡◌, ◌≢◌, ◌⊎◌, inl, inr, refl, true, false, ◌||◌, List, [], ◌∷◌, ◌++◌, Option, none, some,
  ◌==◌, arith, ap, ◌∙◌, subst, Bool-cases, append-nil,
}
use localsoftware.Web.Tokens.{
  Token, starts_with, drop_len, after, until_delimiter, token_name, get_token,
}

-- A token has neither semicolon nor space.
abbrev pub Plain : Token → Type 0
Plain [] = Unit {0}
Plain (c ∷ s) = (c ≢ 59) × (c ≢ 32) × Plain s

-- What ends a token: the end of the header, a semicolon or a space.
abbrev pub Ends : List ℕ → Type 0
Ends [] = Unit {0}
Ends (c ∷ s) = (c ≡ 59) ⊎ (c ≡ 32)

-- No occurrence of the name begins in the first part.
abbrev pub NoEarlier : List ℕ → List ℕ → Type 0
NoEarlier [] rest = Unit {0}
NoEarlier (c ∷ s) rest = (starts_with token_name (c ∷ (s ++ rest)) ≡ false) × NoEarlier s rest

-- What `get_token` may answer.
pub data Sought (cookies : List ℕ) : Option Token → Type 0 where
  found :
      (front token rest : List ℕ)
      → cookies ≡ front ++ (token_name ++ (token ++ rest))
      → NoEarlier front (token_name ++ (token ++ rest))
      → Plain token
      → Ends rest
      → Sought cookies (some token)
  absent : NoEarlier cookies [] → Sought cookies none

starts_with-drop_len : (p s : List ℕ) → starts_with p s ≡ true → s ≡ p ++ drop_len p s
starts_with-drop_len [] s h = refl
starts_with-drop_len (c ∷ p) [] h = cc
starts_with-drop_len (c ∷ p) (d ∷ s) h =
    let same : d ≡ c = ground (arith, h) in
    let more : starts_with p s ≡ true = ground (arith, h) in
    rw same (ap (λ l. c ∷ l) (starts_with-drop_len p s more))

until_delimiter_lem :
    (s : List ℕ)
    → (rest : List ℕ) × (s ≡ until_delimiter s ++ rest) × Plain (until_delimiter s) × Ends rest
unfolding until_delimiter
until_delimiter_lem [] = ([], refl, tt, tt)
until_delimiter_lem (c ∷ s) =
    let (rest, e, p, f) = until_delimiter_lem s in
    elim (Bool-cases ((c == 59) || (c == 32))) [
      | inl h ↦ rw (h, until_delimiter) (c ∷ s, refl, tt, delimits c h)
      | inr h ↦
          rw (h, until_delimiter)
            (rest, ap (λ l. c ∷ l) e, (ground (arith, h), ground (arith, h), p), f)
    ]
  where
    delimits : (c : ℕ) → (c == 59) || (c == 32) ≡ true → (c ≡ 59) ⊎ (c ≡ 32)
    delimits c h = elim (Bool-cases (c == 59)) [
      | inl e ↦ inl (ground arith)
      | inr e ↦ inr (ground (arith, h))
    ]

-- Where the name occurs first.
data Occurs (s : List ℕ) : Option (List ℕ) → Type 0 where
  here :
      (front rest : List ℕ)
      → s ≡ front ++ (token_name ++ rest)
      → NoEarlier front (token_name ++ rest)
      → Occurs s (some rest)
  nowhere : NoEarlier s [] → Occurs s none

Occurs-later :
    (c : ℕ) (s : List ℕ) (o : Option (List ℕ))
    → starts_with token_name (c ∷ s) ≡ false
    → Occurs s o
    → Occurs (c ∷ s) o
Occurs-later c s _ h (here front rest e n) =
    here (c ∷ front) rest (ap (λ l. c ∷ l) e) (rw e at h, n)
Occurs-later c s _ h (nowhere n) = nowhere (rw (append-nil s) h, n)

after-Occurs : (s : List ℕ) → Occurs s (after token_name s)
unfolding after
after-Occurs [] = nowhere tt
after-Occurs (c ∷ s) = elim (Bool-cases (starts_with token_name (c ∷ s))) [
  | inl h ↦ rw (h, after) (here [] _ (starts_with-drop_len token_name (c ∷ s) h) tt)
  | inr h ↦ rw (h, after) (Occurs-later c s (after token_name s) h (after-Occurs s))
]

-- Whatever the cookie header holds, `get_token` looks for the first occurrence of `token=`, be it the whole
-- name of a cookie or only the end of one. If there is none, it returns nothing; otherwise it returns
-- what follows that occurrence up to the first semicolon or space, or up to the end of the header.
pub get_token-Sought : (cookies : List ℕ) → Sought cookies (get_token cookies)
unfolding get_token
get_token-Sought cookies = go (after token_name cookies) (after-Occurs cookies)
  where
    go :
        (o : Option (List ℕ))
        → Occurs cookies o
        → Sought cookies (elim o [ none ↦ none | some rest ↦ some (until_delimiter rest) ])
    go _ (nowhere n) = absent n
    go _ (here front s e n) =
        let (rest, f, p, d) = until_delimiter_lem s in
        found front (until_delimiter s) rest (e ∙ ap (λ l. front ++ (token_name ++ l)) f)
          (subst (λ l. NoEarlier front (token_name ++ l)) f n) p d
