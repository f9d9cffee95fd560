-- ===== src/Tls/Handlers.antt =====
-- Every handler asks for input only when it has none left.
use localsoftware.Common.{
  ℕ, ◌+◌, ◌-◌, zero, suc, min, ◌≤◌, ◌≡◌, refl, true, false, not, ◌&&◌, ◌||◌, List, ◌++◌, none, some,
  ltb, ◌==◌, if◌then◌else◌, length, take, drop, arith, Bool-cases, inl, inr, ◌⊎◌, length-take, ap,
  sym, ◌∙◌, subst, ltb→lt,
}
use localsoftware.Runtime.Types.{IoUringData, Result, ok, err, ◌>>=◌}
use localsoftware.Common.Maps.{nat_eq}
use localsoftware.Runtime.Event.{Queues}
use localsoftware.Socket.Bytes.{Yield, minus}
use localsoftware.Tls.Input.{osslcb_read_lem, osslcb_read_empty}
use localsoftware.Tls.{
  SslError, ssl_error_none, ssl_error_want_read, ssl_error_other, Ssl, Child, Tls, State, TlsState,
  full, failed, osslcb_read, pull, encrypted, want_read, handle_handshake, read_loop, full_read,
  handle_read, full_write, wrote, handle_write, is_wait_hello, is_full, max_uframe_length,
}
use localsoftware.Tls.Requests.{
  Hungry, Asked, nothing, a_write, a_read, fault, with_none, want_read-Asked, arm_write-Asked,
  arm_read-Asked, Fits, Kept, Kept-refl, since,
}

module _ {S : Type 0} where
  pull-some :
      (t : Tls S) (n : ℕ) (block : List ℕ) (size : ℕ) (given : List ℕ)
      → osslcb_read t.e_read t.e_read_s_ n ≡ some (block, size, given)
      → pull t n ≡ record t { e_read = block; e_read_s_ = size }
  unfolding pull
  pull-some t n block size given h = rw (pull, h) refl

  pull-none : (t : Tls S) (n : ℕ) → osslcb_read t.e_read t.e_read_s_ n ≡ none → pull t n ≡ t
  unfolding pull
  pull-none t n h = rw (pull, h) refl

  abbrev Pulled : Tls S → ℕ → Tls S → Type 0
  Pulled t n t' = Kept t t' × (t'.e_read_s_ ≡ t.e_read_s_ - n) × (t'.state_ ≡ t.state_)

  pull-Fits : (t : Tls S) (n : ℕ) → Fits t → Pulled t n (pull t n)
  pull-Fits t n fits = elim (Bool-cases (ltb 0 t.e_read_s_)) [
    | inl e ↦
        let g = osslcb_read_lem t.e_read t.e_read_s_ n (ltb→lt 0 t.e_read_s_ e) fits in
        let left = g.left in
        let same = g.same_length in
        subst (Pulled t n) (sym (pull-some t n g.block' g.size' g.given g.some_given)) (
          record {
            same_flag = refl;
            same_read = refl;
            less_left = omega arith;
            same_block = same;
            fits = omega arith;
          },
          left,
          refl,
        )
    | inr e ↦
        let z : t.e_read_s_ ≡ 0 = ground arith in
        let empty : osslcb_read t.e_read t.e_read_s_ n ≡ none =
          ap (λ k. osslcb_read t.e_read k n) z ∙ osslcb_read_empty t.e_read n in
        subst (Pulled t n) (sym (pull-none t n empty)) (Kept-refl t fits, omega arith, refl)
  ]

  pull_all : (t : Tls S) (n : ℕ) → Fits t → length (encrypted t) ≤ n → (pull t n).e_read_s_ ≡ 0
  pull_all t n fits h =
      let (_, left, _) = pull-Fits t n fits in omega (arith, length-take t.e_read_s_ t.e_read)

module _ {S : Type 0} where
  -- What else the handlers change does not matter to the read.
  read-Kept :
      (t : Tls S) (n : ℕ) (ssl : S) (bytes : List ℕ)
      → Kept t (pull t n)
      → Kept t (record (pull t n) { ssl = ssl; u_read = bytes })
  read-Kept t n ssl bytes k = record {
    same_flag = k.same_flag;
    same_read = k.same_read;
    less_left = k.less_left;
    same_block = k.same_block;
    fits = k.fits;
  }

  write-Kept :
      (t : Tls S) (n : ℕ) (ssl : S) (p : ℕ)
      → Kept t (pull t n)
      → Kept t (record (pull t n) { ssl = ssl; u_write_p_ = p })
  write-Kept t n ssl p k = record {
    same_flag = k.same_flag;
    same_read = k.same_read;
    less_left = k.less_left;
    same_block = k.same_block;
    fits = k.fits;
  }

  hello-Kept :
      (t : Tls S) (n : ℕ) (ssl : S) (st : TlsState)
      → Kept t (pull t n)
      → Kept t (record (pull t n) { ssl = ssl; state_ = st })
  hello-Kept t n ssl st k = record {
    same_flag = k.same_flag;
    same_read = k.same_read;
    less_left = k.less_left;
    same_block = k.same_block;
    fits = k.fits;
  }

abbrev pub Any : {S : Type 0} → Tls S → Type 0
Any t = Unit {0}

abbrev NotFull : TlsState → Type 0
NotFull st = is_full st ≡ false

module _ {S : Type 0} (child : Child) where
  kept :
      {keeps : Tls S → Type 0} {t0 : Tls S} {q : Queues} {s : State S} {y : Yield}
      → Asked child keeps t0 q (ok (s, y))
      → keeps s.0
  kept (nothing a b k) = k
  kept (a_write f b a e c k) = k
  kept (a_read f a e free now id z b k) = k

  forget :
      {keeps : Tls S → Type 0} {t0 : Tls S} {q : Queues} {r : Result (State S × Yield)}
      → Asked child keeps t0 q r
      → Asked child Any t0 q r
  forget (nothing a b k) = nothing a b tt
  forget (a_write f b a e c k) = a_write f b a e c tt
  forget (a_read f a e free now id z b k) = a_read f a e free now id z b tt
  forget fault = fault

  -- What follows a wait leaves it as it is.
  after_wait :
      (keeps : Tls S → Type 0) (t0 : Tls S) (q : Queues) (r : Result (State S))
      (after : State S → Result (State S × Yield))
      → Asked child keeps t0 q (with_none r)
      → ((s : State S) → keeps s.0 → after s ≡ ok (s, none))
      → Asked child Any t0 q (do
        (s1, result) ← with_none r
        elim result [ some r ↦ ok (s1, some r) | none ↦ after s1 ])
  after_wait keeps t0 q (err e) after a same = fault
  after_wait keeps t0 q (ok s) after a same = rw (same s (kept a)) (forget a)

hello_NotFull : (st : TlsState) → is_wait_hello st ≡ true → NotFull st
hello_NotFull st h = ground arith

error-cases :
    (e : SslError) → (e ≡ ssl_error_none) ⊎ ((e ≡ ssl_error_want_read) ⊎ (e ≡ ssl_error_other))
error-cases ssl_error_none = inl refl
error-cases ssl_error_want_read = inr (inl refl)
error-cases ssl_error_other = inr (inr refl)

module _ {S : Type 0} (openssl : Ssl S) (child : Child) (hungry : Hungry openssl) where
  read_loop-Asked :
      (fuel : ℕ) (t : Tls S) (q : Queues) (d : IoUringData)
      → Fits t
      → Asked child Any t q (read_loop openssl child fuel (t, q, d))
  unfolding read_loop
  read_loop-Asked zero t q d fits = fault
  read_loop-Asked (suc fuel) t q d fits =
      let (ssl', n, bytes, error) =
        openssl.read t.ssl (encrypted t) (minus t.u_readlen_ (length t.u_read)) in
      let t1 = record (pull t n) { ssl = ssl'; u_read = t.u_read ++ bytes } in
      let now = read-Kept t n ssl' (t.u_read ++ bytes) (pull-Fits t n fits).0 in
      elim (error-cases error) [
        | inl e ↦
            let finished =
              (minus t1.u_readlen_ (length t1.u_read) == 0)
              || (not t1.sticky_read_ && not (length t1.u_read == 0)) in
            elim (Bool-cases finished) [
              | inl f ↦ rw (read_loop, e, f) (nothing refl now tt)
              | inr f ↦ elim (Bool-cases (t1.e_read_s_ == 0)) [
                | inl z ↦
                    let empty : t1.e_read_s_ ≡ 0 = ground arith in
                    rw (read_loop, e, f, z)
                      (since now (
                        forget child
                          (arm_read-Asked openssl child (λ st. Unit {0}) (t1, q, d) tt empty)))
                | inr z ↦ rw (read_loop, e, f, z) (since now (read_loop-Asked fuel t1 q d now.fits))
              ]
            ]
        | inr (inl e) ↦
            let empty = pull_all t n fits (hungry.read_hungry t.ssl (encrypted t) _ e) in
            rw (read_loop, e)
              (since now
                (forget child (want_read-Asked openssl child (λ st. Unit {0}) (t1, q, d) tt empty)))
        | inr (inr e) ↦ rw (read_loop, e) (nothing refl now tt)
      ]

  full_read-Asked :
      (t : Tls S) (q : Queues) (d : IoUringData)
      → Fits t
      → Asked child Any t q (full_read openssl child (t, q, d))
  unfolding full_read
  full_read-Asked t q d fits = elim (Bool-cases (is_full t.state_)) [
    | inl e ↦ rw e (read_loop-Asked (suc t.u_readlen_) t q d fits)
    | inr e ↦ rw e (nothing refl (Kept-refl t fits) tt)
  ]

  full_write-Asked :
      (t : Tls S) (q : Queues) (d : IoUringData)
      → Fits t
      → Asked child Any t q (full_write openssl child (t, q, d))
  unfolding full_write wrote
  full_write-Asked t q d fits =
      let part =
        take (min (minus (length t.u_write) t.u_write_p_) max_uframe_length)
          (drop t.u_write_p_ t.u_write) in
      let (ssl', n, numread, error) = openssl.write t.ssl (encrypted t) part in
      let t1 = record (pull t n) { ssl = ssl'; u_write_p_ = t.u_write_p_ + numread } in
      let now = write-Kept t n ssl' (t.u_write_p_ + numread) (pull-Fits t n fits).0 in
      elim (Bool-cases (is_full t.state_)) [
        | inr f ↦ rw f (nothing refl (Kept-refl t fits) tt)
        | inl f ↦ elim (error-cases error) [
          | inl e ↦
              let more =
                ltb 0 (openssl.pending t1.ssl)
                || not (minus (length t1.u_write) t1.u_write_p_ == 0) in
              elim (Bool-cases more) [
                | inl m ↦
                    rw (f, e, m)
                      (since now (
                        forget child
                          (arm_write-Asked openssl child (λ st. Unit {0}) (t1, q, d) tt now.fits)))
                | inr m ↦ rw (f, e, m) (nothing refl now tt)
              ]
          | inr (inl e) ↦
              let empty = pull_all t n fits (hungry.write_hungry t.ssl (encrypted t) part e) in
              rw (f, e)
                (since now (
                  forget child
                    (want_read-Asked openssl child (λ st. Unit {0}) (t1, q, d) tt empty)))
          | inr (inr e) ↦ rw (f, e) (nothing refl now tt)
        ]
      ]

  handshake_hungry :
      (t : Tls S)
      → let input = encrypted t in
        let (_, n, error) =
          if t.server_ then openssl.accept t.ssl input else openssl.connect t.ssl input in
        error ≡ ssl_error_want_read → length input ≤ n
  handshake_hungry t e = elim (Bool-cases t.server_) [
    | inl s ↦ rw s (hungry.accept_hungry t.ssl (encrypted t) (rw s at e))
    | inr s ↦ rw s (hungry.connect_hungry t.ssl (encrypted t) (rw s at e))
  ]

  -- A handshake and what follows it.
  handshake-Asked :
      (after : State S → Result (State S × Yield)) (t : Tls S) (q : Queues) (d : IoUringData)
      → ((t : Tls S) → Fits t → Asked child Any t q (after (t, q, d)))
      → ((s : State S) → NotFull s.0.state_ → after s ≡ ok (s, none))
      → is_wait_hello t.state_ ≡ true
      → Fits t
      → Asked child Any t q (do
        (s1, result) ← handle_handshake openssl child (t, q, d)
        elim result [ some r ↦ ok (s1, some r) | none ↦ after s1 ])
  unfolding handle_handshake
  handshake-Asked after t q d go_on stay hello fits =
      let (ssl', n, error) =
        if t.server_
        then openssl.accept t.ssl (encrypted t)
        else openssl.connect t.ssl (encrypted t) in
      let t1 = record (pull t n) { ssl = ssl' } in
      let (pulled, _, same) = pull-Fits t n fits in
      let now = hello-Kept t n ssl' t1.state_ pulled in
      let not_full : NotFull t1.state_ = ap is_full same ∙ hello_NotFull t.state_ hello in
      elim (error-cases error) [
        | inl e ↦
            rw (handle_handshake, e)
              (since (hello-Kept t n ssl' full pulled)
                (go_on (record t1 { state_ = full }) now.fits))
        | inr (inl e) ↦
            let empty = pull_all t n fits (handshake_hungry t e) in
            rw (handle_handshake, e)
              (since now (
                after_wait child (λ t. NotFull t.state_) t1 q (want_read openssl child (t1, q, d))
                  after (want_read-Asked openssl child NotFull (t1, q, d) not_full empty) stay))
        | inr (inr e) ↦
            rw (handle_handshake, e) (nothing refl (hello-Kept t n ssl' failed pulled) tt)
      ]

  full_read_stays : (s : State S) → NotFull s.0.state_ → full_read openssl child s ≡ ok (s, none)
  unfolding full_read
  full_read_stays (t, q, d) h = rw h refl

  full_write_stays : (s : State S) → NotFull s.0.state_ → full_write openssl child s ≡ ok (s, none)
  unfolding full_write
  full_write_stays (t, q, d) h = rw h refl

  pub handle_read-Asked :
      (t : Tls S) (q : Queues) (d : IoUringData)
      → Fits t
      → Asked child Any t q (handle_read openssl child (t, q, d))
  unfolding handle_read
  handle_read-Asked t q d fits = elim (Bool-cases (is_wait_hello t.state_)) [
    | inr e ↦ rw e (full_read-Asked t q d fits)
    | inl e ↦ rw e (
        handshake-Asked (full_read openssl child) t q d (λ t f. full_read-Asked t q d f)
          full_read_stays e fits)
  ]

  pub handle_write-Asked :
      (t : Tls S) (q : Queues) (d : IoUringData)
      → Fits t
      → Asked child Any t q (handle_write openssl child (t, q, d))
  unfolding handle_write
  handle_write-Asked t q d fits = elim (Bool-cases (is_wait_hello t.state_)) [
    | inr e ↦ rw e (full_write-Asked t q d fits)
    | inl e ↦ rw e (
        handshake-Asked (full_write openssl child) t q d (λ t f. full_write-Asked t q d f)
          full_write_stays e fits)
  ]
