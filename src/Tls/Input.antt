-- ===== src/Tls/Input.antt =====
-- The encrypted input: it is handed to OpenSSL in order, and the socket is asked for more only when none is
-- left, for as many bytes as the space that the code allows for holds.
use localsoftware.Common.{
  ℕ, ◌+◌, ◌-◌, zero, suc, min, ◌≤◌, ◌≡◌, refl, false, List, [], ◌∷◌, ◌++◌, none, some, ◌==◌, length,
  take, drop, arith, length-take, length-drop, length-append, append_assoc, ap, sym, ◌∙◌, subst,
}
use localsoftware.Socket.Bytes.Transfer.{sum}
use localsoftware.Tls.{osslcb_read}

take-append : (n : ℕ) (a b : List ℕ) → n ≡ length a → take n (a ++ b) ≡ a
take-append zero [] b h = refl
take-append zero (x ∷ a) b h = absurd (omega arith)
take-append (suc n) [] b h = absurd (omega arith)
take-append (suc n) (x ∷ a) b h = ap (λ l. x ∷ l) (take-append n a b (omega arith))

take_nil : (n : ℕ) → take {A = ℕ} n [] ≡ []
take_nil zero = refl
take_nil (suc n) = refl

take-take-drop : (n m : ℕ) (l : List ℕ) → n ≤ m → take n l ++ take (m - n) (drop n l) ≡ take m l
take-take-drop zero m l h = ap (λ k. take k l) (omega arith)
take-take-drop (suc n) zero l h = absurd (omega arith)
take-take-drop (suc n) (suc m) [] h = take_nil (suc m - suc n)
take-take-drop (suc n) (suc m) (x ∷ l) h =
    let less : suc m - suc n ≡ m - n = omega arith in
    ap (λ k. x ∷ take n l ++ take k (drop n l)) less
    ∙ ap (λ k. x ∷ k) (take-take-drop n m l (omega arith))

-- One callback.
pub record Given (block : List ℕ) (size len : ℕ) : Type 0 where
  pub block' : List ℕ
  pub size' : ℕ
  pub given : List ℕ
  pub some_given : osslcb_read block size len ≡ some (block', size', given)
  pub left : size' ≡ size - len
  pub in_order : given ++ take size' block' ≡ take size block
  pub same_length : length block' ≡ length block

pub osslcb_read_lem :
    (block : List ℕ) (size len : ℕ) → 1 ≤ size → size ≤ length block → Given block size len
unfolding osslcb_read
osslcb_read_lem block size len one fits =
    let n = min size len in
    let left = size - n in
    let moved = take left (drop n block) in
    let exact : left ≡ length moved =
      omega (arith, length-take left (drop n block), length-drop n block) in
    let not_empty : (size == 0) ≡ false = ground arith in
    record {
      block' = moved ++ drop left block;
      size' = left;
      given = take n block;
      some_given = rw not_empty refl;
      left = omega arith;
      in_order =
          ap (λ l. take n block ++ l) (take-append left moved (drop left block) exact)
          ∙ take-take-drop n size block (omega arith);
      same_length = omega (arith, length-append moved (drop left block), length-drop left block);
    }

pub osslcb_read_empty : (block : List ℕ) (len : ℕ) → osslcb_read block 0 len ≡ none
unfolding osslcb_read
osslcb_read_empty block len = refl

-- What several callbacks give, with the block and the number of bytes that they leave.
unfoldable pub callbacks : List ℕ → ℕ → List ℕ → List ℕ × List ℕ × ℕ
callbacks block size [] = ([], block, size)
callbacks block size (len ∷ lens) = elim (osslcb_read block size len) [
  | none ↦ callbacks block size lens
  | some (block', size', given) ↦
      let (later, last, left) = callbacks block' size' lens in (given ++ later, last, left)
]

callbacks-none :
    (block : List ℕ) (size len : ℕ) (lens : List ℕ)
    → osslcb_read block size len ≡ none
    → callbacks block size (len ∷ lens) ≡ callbacks block size lens
unfolding callbacks
callbacks-none block size len lens h = rw (callbacks, h) refl

callbacks-some :
    (block : List ℕ) (size len : ℕ) (lens block' : List ℕ) (size' : ℕ) (given : List ℕ)
    → osslcb_read block size len ≡ some (block', size', given)
    → callbacks block size (len ∷ lens) ≡ (
      given ++ (callbacks block' size' lens).0,
      (callbacks block' size' lens).1,
      (callbacks block' size' lens).2,
    )
unfolding callbacks
callbacks-some block size len lens block' size' given h = rw (callbacks, h) refl

abbrev InOrder : List ℕ → ℕ → ℕ → List ℕ × List ℕ × ℕ → Type 0
InOrder block size asked (given, block', size') =
    (given ++ take size' block' ≡ take size block)
    × (size' ≡ size - asked)
    × (length block' ≡ length block)

callbacks_from :
    (block : List ℕ) (size : ℕ) (lens : List ℕ)
    → size ≤ length block
    → InOrder block size (sum lens) (callbacks block size lens)
unfolding callbacks
callbacks_from block size [] fits = (refl, omega arith, refl)
callbacks_from block zero (len ∷ lens) fits =
    let (a, b, c) = callbacks_from block 0 lens fits in
    subst (InOrder block 0 (len + sum lens))
      (sym (callbacks-none block 0 len lens (osslcb_read_empty block len))) (a, omega arith, c)
callbacks_from block (suc size) (len ∷ lens) fits =
    let g = osslcb_read_lem block (suc size) len (omega arith) fits in
    let left = g.left in
    let same = g.same_length in
    let (a, b, c) = callbacks_from g.block' g.size' lens (omega arith) in
    let later = (callbacks g.block' g.size' lens).0 in
    subst (InOrder block (suc size) (len + sum lens))
      (sym (callbacks-some block (suc size) len lens g.block' g.size' g.given g.some_given))
      (append_assoc g.given later _ ∙ ap (λ l. g.given ++ l) a ∙ g.in_order, omega arith, c ∙ same)

-- While the buffered bytes fit in the block: whatever lengths OpenSSL asks its callback for, one after the
-- other, what it is given, followed by what is still buffered, is what was buffered, in order, and
-- the callbacks take as many bytes as were asked for in all, or all there are.
callbacks_in_order :
    (block : List ℕ) (size : ℕ) (lens : List ℕ)
    → size ≤ length block
    → let (given, block', size') = callbacks block size lens in
      (given ++ take size' block' ≡ take size block)
      × (size' ≡ size - sum lens)
      × (length block' ≡ length block)
callbacks_in_order block size lens fits = callbacks_from block size lens fits
