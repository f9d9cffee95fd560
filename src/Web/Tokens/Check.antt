-- ===== src/Web/Tokens/Check.antt =====
-- Which tokens `check_auth` accepts.
use localsoftware.Common.{
  ℕ, ◌+◌, ◌*◌, ◌-◌, ◌/◌, ◌<◌, ◌≤◌, ◌≡◌, refl, ap, true, false, some, ltb, if◌then◌else◌, arith,
  Option-cases, Bool-cases, inl, inr,
}
use localsoftware.Common.Maps.{lookup, insert, contains, nat_eq, bytes_eq, lookup-insert_self}
use localsoftware.Web.Tokens.{
  Token, Tokens, Bin, current_bin, previous_bin, bin_at, insert_token, create_new_token, is_old,
  renew, in_current, check_auth,
}

accepts :
    (m : Tokens) (token : Token) (now : ℕ)
    → in_current m token now ≡ true
    → (check_auth m token now).1 ≡ true
unfolding check_auth
accepts m token now h = elim (Option-cases (previous_bin now)) [
  | inl e ↦ rw (check_auth, e) h
  | inr (k, e) ↦ elim (Bool-cases (is_old m k token now)) [
    | inl o ↦ rw (check_auth, e, o) refl
    | inr o ↦ rw (check_auth, e, o) h
  ]
]

in_current-insert :
    (m : Tokens) (token : Token) (b : Bin) (now : ℕ)
    → contains token b ≡ true
    → in_current (insert (current_bin now) b m) token now ≡ true
unfolding in_current
in_current-insert m token b now h = rw (in_current, lookup-insert_self (current_bin now) b m) h

contains-insert :
    (token : Token) (stamp : ℕ) (b : Bin) → contains token (insert token stamp b) ≡ true
contains-insert token stamp b = rw (contains, lookup-insert_self token stamp b) refl

contains-keep :
    (token : Token) (stamp : ℕ) (b : Bin)
    → contains token (if contains token b then b else insert token stamp b) ≡ true
contains-keep token stamp b = elim (Bool-cases (contains token b)) [
  | inl e ↦ rw (e, e) refl
  | inr e ↦ rw e (contains-insert token stamp b)
]

-- A new token is accepted as long as the bin of 20 minutes in which it was created is the current one.
pub check_auth-create_new_token :
    (m : Tokens) (token : Token) (created now : ℕ)
    → created / 1200 ≡ now / 1200
    → (check_auth (create_new_token m token created) token now).1 ≡ true
unfolding create_new_token insert_token
check_auth-create_new_token m token created now h =
    let same : current_bin created ≡ current_bin now = ap (λ n. n * 1200) h in
    rw same (
      accepts _ token now (
        in_current-insert m token _ now (contains-keep token created (bin_at m (current_bin now)))))

previous_bin-some : (now : ℕ) → 1200 ≤ now → previous_bin now ≡ some ((now / 1200 - 1) * 1200)
previous_bin-some now h = ground arith

is_old-some :
    (m : Tokens) (token : Token) (b : Bin) (k stamp now : ℕ)
    → lookup k m ≡ some b
    → lookup token b ≡ some stamp
    → is_old m k token now ≡ ltb (stamp + 1200) now
is_old-some m token b k stamp now e h = rw (is_old, e, h) refl

renewed :
    (m : Tokens) (token : Token) (k now later : ℕ)
    → current_bin now ≡ current_bin later
    → in_current (renew m k token now) token later ≡ true
unfolding renew
renewed m token k now later bin =
    rw bin (in_current-insert _ token _ later (contains-insert token now _))

-- A token of the previous bin is accepted if its stamp is more than 1200 seconds old: it gets a new
-- stamp, and from then on it is accepted throughout the current bin.
check_auth_old :
    (m : Tokens) (token : Token) (b : Bin) (stamp now later : ℕ)
    → 1200 ≤ now
    → lookup ((now / 1200 - 1) * 1200) m ≡ some b
    → lookup token b ≡ some stamp
    → stamp + 1200 < now
    → now / 1200 ≡ later / 1200
    → ((check_auth m token now).1 ≡ true)
      × ((check_auth (check_auth m token now).0 token later).1 ≡ true)
unfolding check_auth renew
check_auth_old m token b stamp now later past e k old same =
    let yes : ltb (stamp + 1200) now ≡ true = ground arith in
    let bin : current_bin now ≡ current_bin later = ap (λ n. n * 1200) same in
    let moved : check_auth m token now ≡ (renew m ((now / 1200 - 1) * 1200) token now, true) =
      rw (check_auth, previous_bin-some now past, is_old-some m token b _ stamp now e k, yes)
        refl in
    rw moved (
      refl,
      accepts (renew m ((now / 1200 - 1) * 1200) token now) token later
          (renewed m token _ now later bin),
    )

-- A token of the previous bin whose stamp is at most 1200 seconds old, and which the current bin does
-- not have, is refused, and nothing changes.
check_auth_young :
    (m : Tokens) (token : Token) (b : Bin) (stamp now : ℕ)
    → 1200 ≤ now
    → lookup ((now / 1200 - 1) * 1200) m ≡ some b
    → lookup token b ≡ some stamp
    → now ≤ stamp + 1200
    → in_current m token now ≡ false
    → check_auth m token now ≡ (m, false)
unfolding check_auth
check_auth_young m token b stamp now past e k young not_current =
    let no : ltb (stamp + 1200) now ≡ false = ground arith in
    rw
      (
        check_auth,
        previous_bin-some now past,
        is_old-some m token b _ stamp now e k,
        no,
        not_current,
      )
      refl
