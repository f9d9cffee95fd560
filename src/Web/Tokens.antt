-- ===== src/Web/Tokens.antt =====
-- `ReverseProxyManager` of src/reverse_proxy/reverse_proxy_manager.cpp: the tokens of logged-in clients, in
-- bins of 20 minutes, and the token in a cookie. The clock, which is not negative, and the random token
-- are arguments. `cleanup_tokens` works on `authd_uuids`, which nothing else fills, and is left out.
pub mod Check
pub mod Cookie
use localsoftware.Common.{
  ℕ, ◌+◌, ◌*◌, ◌-◌, ◌/◌, Bool, true, false, not, ◌&&◌, ◌||◌, List, [], ◌∷◌, Option, none, some,
  length, ltb, ◌==◌, if◌then◌else◌,
}
use localsoftware.Common.Maps.{Map, lookup, insert, erase, contains, nat_eq, bytes_eq}

abbrev pub Token : Type 0
Token = List ℕ

-- The stamps of the tokens of one bin, and `authd_uuids_`.
abbrev pub Bin : Type 0
Bin = Map Token ℕ

abbrev pub Tokens : Type 0
Tokens = Map ℕ Bin

abbrev pub current_bin : ℕ → ℕ
current_bin now = now / 1200 * 1200

-- `(current_time / 1200 - 1) * 1200`; before 1200 this is negative, and no bin has such a name.
abbrev pub previous_bin : ℕ → Option ℕ
previous_bin now = if ltb now 1200 then none else some ((now / 1200 - 1) * 1200)

-- `authd_uuids_[k]`.
abbrev pub bin_at : Tokens → ℕ → Bin
bin_at m k = elim (lookup k m) [ none ↦ [] | some b ↦ b ]

-- `insert` keeps an entry that is there.
unfoldable pub insert_token : Tokens → ℕ → Token → ℕ → Tokens
unfolding lookup insert
insert_token m k token stamp =
    let b = bin_at m k in insert k (if contains token b then b else insert token stamp b) m

unfoldable pub create_new_token : Tokens → Token → ℕ → Tokens
unfolding insert_token
create_new_token m token now = insert_token m (current_bin now) token now

-- `prevbucket` for the bin `k`.
abbrev pub is_old : Tokens → ℕ → Token → ℕ → Bool
is_old m k token now = elim (lookup k m) [
  | none ↦ false
  | some b ↦ elim (lookup token b) [ none ↦ false | some stamp ↦ ltb (stamp + 1200) now ]
]

abbrev pub is_empty_bin : Bin → Bool
is_empty_bin [] = true
is_empty_bin (x ∷ b) = false

-- The token leaves the bin `k`, which goes if it is empty, and enters the current one.
unfoldable pub renew : Tokens → ℕ → Token → ℕ → Tokens
unfolding lookup insert erase
renew m k token now =
    let b = erase token (bin_at m k) in
    let left = if is_empty_bin b then erase k m else insert k b m in
    insert (current_bin now) (insert token now (bin_at left (current_bin now))) left

unfoldable pub in_current : Tokens → Token → ℕ → Bool
unfolding lookup
in_current m token now = elim (lookup (current_bin now) m) [
  | none ↦ false
  | some b ↦ contains token b
]

unfoldable pub check_auth : Tokens → Token → ℕ → Tokens × Bool
unfolding lookup renew in_current
check_auth m token now = elim (previous_bin now) [
  | none ↦ (m, in_current m token now)
  | some k ↦
      if is_old m k token now then (renew m k token now, true) else (m, in_current m token now)
]

abbrev pub starts_with : List ℕ → List ℕ → Bool
starts_with [] s = true
starts_with (p ∷ ps) [] = false
starts_with (p ∷ ps) (c ∷ s) = (c == p) && starts_with ps s

abbrev pub drop_len : List ℕ → List ℕ → List ℕ
drop_len [] s = s
drop_len (p ∷ ps) [] = []
drop_len (p ∷ ps) (c ∷ s) = drop_len ps s

-- What follows the first occurrence, `s.find(p)` and `pos += 6`.
unfoldable pub after : List ℕ → List ℕ → Option (List ℕ)
after p [] = if starts_with p [] then some [] else none
after p (c ∷ s) =
    let later = after p s in if starts_with p (c ∷ s) then some (drop_len p (c ∷ s)) else later

-- Up to the first semicolon or space, `find_first_of("; ")`.
unfoldable pub until_delimiter : List ℕ → List ℕ
until_delimiter [] = []
until_delimiter (c ∷ s) =
    let later = until_delimiter s in if (c == 59) || (c == 32) then [] else c ∷ later

-- "token=".
abbrev pub token_name : List ℕ
token_name = 116 ∷ 111 ∷ 107 ∷ 101 ∷ 110 ∷ 61 ∷ []

unfoldable pub get_token : List ℕ → Option Token
unfolding after until_delimiter
get_token cookies = elim (after token_name cookies) [
  | none ↦ none
  | some rest ↦ some (until_delimiter rest)
]
