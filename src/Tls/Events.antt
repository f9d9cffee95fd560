-- ===== src/Tls/Events.antt =====
-- A TLS socket over any history of calls and completions, and a call that is answered at once.
use localsoftware.Common.{
  ℕ, suc, ◌≤◌, ◌<◌, ◌^◌, ◌≡◌, refl, Bool, true, false, not, ◌&&◌, List, [], ◌++◌, some, ◌==◌,
  if◌then◌else◌, length, take, drop, arith, Bool-cases, inl, inr, length-take, length-drop,
  length-append, ap, sym, subst, ◌∙◌, Option-cases,
}
use localsoftware.Common.Int.{ℤ, pos, leb_ℤ, pos_part}
use localsoftware.Runtime.Types.{
  IoUringData, CallStatus, child_task_completion, Result, ok, err, ◌>>=◌,
}
use localsoftware.Runtime.Event.{Queues}
use localsoftware.Socket.Bytes.{Yield, minus, to_int}
use localsoftware.Tls.{
  ssl_error_none, Ssl, Child, Tls, State, full, encrypted, arrived, note_completion, on_yield,
  handle_read, full_read, read_loop, pull, read, write, osslcb_read, sizeof_pointer,
}
use localsoftware.Tls.Requests.{
  Hungry, Fits, Kept-refl, since, Asked, nothing, a_write, a_read, fault, with_none,
}
use localsoftware.Tls.Handlers.{Any, handle_read-Asked, handle_write-Asked}

-- What the socket is asked to do or told: its caller reads or writes, or a child's task has completed, and
-- `area` is what has been put at the beginning of the block if it was a read.
pub data Op : Type 0 where
  asks_read : (id len : ℕ) (read_all : Bool) → Op
  asks_write : (id : ℕ) (buf : List ℕ) → Op
  told : (area : List ℕ) (calling task : ℕ) (status : CallStatus) (code : ℤ) → Op

module _ {S : Type 0} where
  -- The block has room for what is asked for, and while a read is under way, no byte is buffered.
  pub record Quiet (t : Tls S) : Type 0 where
    pub fits : Fits t
    pub has_room : sizeof_pointer ≤ length t.e_read
    pub empty : t.task_bytes_r_fin_ ≡ false → t.e_read_s_ ≡ 0

  -- The read under way brings at most as many bytes as were asked for.
  abbrev pub Brings : Tls S → Op → Type 0
  Brings t (asks_read id len read_all) = Unit {0}
  Brings t (asks_write id buf) = Unit {0}
  Brings t (told area calling task status code) =
      task ≡ t.task_bytes_read_ → (pos_part code ≤ sizeof_pointer) × (pos_part code ≤ length area)

  -- The socket with what the completion tells: only the completion of the read under way, with a positive
  -- code, ends this read and buffers its bytes.
  abbrev pub heard : Tls S → Op → Tls S
  heard t (asks_read id len read_all) = t
  heard t (asks_write id buf) = t
  heard t (told area calling task status code) =
      if leb_ℤ code (pos 0) then t else note_completion t area task (pos_part code)

  arrived_length :
      (t : Tls S) (area : List ℕ) (n : ℕ)
      → n ≤ length t.e_read
      → n ≤ length area
      → length (take n area ++ drop n t.e_read) ≡ length t.e_read
  arrived_length t area n a b = omega (
    arith,
    length-append (take n area) (drop n t.e_read),
    length-take n area,
    length-drop n t.e_read,
  )

  note_completion-Quiet :
      (t : Tls S) (area : List ℕ) (task n : ℕ)
      → Quiet t
      → (task ≡ t.task_bytes_read_ → (n ≤ sizeof_pointer) × (n ≤ length area))
      → Quiet (note_completion t area task n)
  unfolding note_completion
  note_completion-Quiet t area task n h brings = elim (Bool-cases (task == t.task_bytes_read_)) [
    | inl e ↦ elim (Bool-cases t.task_bytes_r_fin_) [
      | inr f ↦
          let (few, room) = brings (ground (arith, e)) in
          let room' = h.has_room in
          let same = arrived_length t area n (omega arith) room in
          let nothing_yet = h.empty f in
          let both : (task == t.task_bytes_read_) && not t.task_bytes_r_fin_ ≡ true =
            ground (arith, e, f) in
          subst Quiet (sym (noted_read t area task n both))
            (record { fits = omega arith; has_room = omega arith; empty = λ e. cc })
      | inl f ↦ other_noted t area task n h (ground (arith, f))
    ]
    | inr e ↦ other_noted t area task n h (ground (arith, e))
  ]
    where
      noted_read :
          (t : Tls S) (area : List ℕ) (task n : ℕ)
          → (task == t.task_bytes_read_) && not t.task_bytes_r_fin_ ≡ true
          → note_completion t area task n ≡ arrived t area n
      noted_read t area task n e = rw e refl

      other_noted :
          (t : Tls S) (area : List ℕ) (task n : ℕ)
          → Quiet t
          → (task == t.task_bytes_read_) && not t.task_bytes_r_fin_ ≡ false
          → Quiet (note_completion t area task n)
      other_noted t area task n h e = elim (Bool-cases (task == t.task_bytes_write_)) [
        | inl f ↦ rw (e, f) (record { fits = h.fits; has_room = h.has_room; empty = h.empty })
        | inr f ↦ rw (e, f) h
      ]

  heard-Quiet : (t : Tls S) (op : Op) → Quiet t → Brings t op → Quiet (heard t op)
  heard-Quiet t (asks_read id len read_all) h b = h
  heard-Quiet t (asks_write id buf) h b = h
  heard-Quiet t (told area calling task status code) h b = elim (Bool-cases (leb_ℤ code (pos 0))) [
    | inl e ↦ rw e h
    | inr e ↦ rw e (note_completion-Quiet t area task (pos_part code) h b)
  ]

  Asked-Quiet :
      {child : Child} {t0 t : Tls S} {q q' : Queues} {d : IoUringData} {y : Yield}
      → Quiet t0
      → Asked child Any t0 q (ok ((t, q', d), y))
      → Quiet t
  Asked-Quiet h (nothing e k a) = record {
    fits = k.fits;
    has_room = omega (arith, h.has_room, k.same_block);
    empty = λ f. omega (arith, h.empty (sym k.same_flag ∙ f), k.less_left);
  }
  Asked-Quiet h (a_write f bytes e g k a) = record {
    fits = k.fits;
    has_room = omega (arith, h.has_room, k.same_block);
    empty = λ f. omega (arith, h.empty (sym k.same_flag ∙ f), k.less_left);
  }
  Asked-Quiet h (a_read f e g free now id z block a) = record {
    fits = omega arith;
    has_room = omega (arith, h.has_room, block);
    empty = λ f. z;
  }

module _ {S : Type 0} (openssl : Ssl S) (child : Child) where
  unfoldable pub perform : Op → State S → Result (State S × Yield)
  perform (asks_read id len read_all) s = with_none (read openssl child s id len read_all)
  perform (asks_write id buf) s = with_none (write openssl child s id buf)
  perform (told area calling task status code) s =
      on_yield openssl child s area (child_task_completion calling task status code)

  -- What the socket can come to.
  pub data Reached (s0 : State S) : State S → Type 0 where
    at_first : Reached s0 s0
    after_op :
        (t : Tls S) (q : Queues) (d : IoUringData) (op : Op) (s : State S) (y : Yield)
        → Reached s0 (t, q, d)
        → Brings t op
        → perform op (t, q, d) ≡ ok (s, y)
        → Reached s0 s

module _ {S : Type 0} (openssl : Ssl S) (child : Child) (hungry : Hungry openssl) where
  -- What `read` and `write` throw away makes no difference to what was asked for.
  silent :
      (t0 : Tls S) (q : Queues) (r : Result (State S × Yield))
      → Asked child Any t0 q r
      → Asked child Any t0 q (with_none (r >>= λ x. ok x.0))
  silent t0 q (ok (s, y)) (nothing e k a) = nothing e k a
  silent t0 q (ok (s, y)) (a_write f bytes e g k a) = a_write f bytes e g k a
  silent t0 q (ok (s, y)) (a_read f e g free now id z block a) = a_read f e g free now id z block a
  silent t0 q (err e) fault = fault

  on_yield-Asked :
      (t : Tls S) (q : Queues) (d : IoUringData) (area : List ℕ) (calling task : ℕ)
      (status : CallStatus) (code : ℤ)
      → Fits t
      → Fits (heard t (told area calling task status code))
      → Asked child Any
          (heard t (told area calling task status code))
          q
          (on_yield openssl child (t, q, d) area (child_task_completion calling task status code))
  unfolding on_yield
  on_yield-Asked t q d area calling task status code fits fits1 =
      let t1 = note_completion t area task (pos_part code) in
      elim (Bool-cases (leb_ℤ code (pos 0))) [
        | inl e ↦ rw e (nothing refl (Kept-refl t fits) tt)
        | inr e ↦
            let fits2 : Fits t1 = rw e at fits1 in
            elim (Bool-cases (calling == t1.task_read_)) [
              | inl r ↦ rw (e, r) (handle_read-Asked openssl child hungry t1 q d fits2)
              | inr r ↦ elim (Bool-cases (calling == t1.task_write_)) [
                | inl w ↦ rw (e, r, w) (handle_write-Asked openssl child hungry t1 q d fits2)
                | inr w ↦ rw (e, r, w) fault
              ]
            ]
      ]

  perform-Asked :
      (op : Op) (t : Tls S) (q : Queues) (d : IoUringData)
      → Quiet t
      → Brings t op
      → Asked child Any (heard t op) q (perform openssl child op (t, q, d))
  unfolding perform read write
  perform-Asked (asks_read id len read_all) t q d h b =
      let t1 = record t {
        sticky_read_ = read_all;
        task_read_ = id;
        u_readlen_ = len;
        u_read = [];
      } in
      since
        (record {
          same_flag = refl;
          same_read = refl;
          less_left = omega arith;
          same_block = refl;
          fits = h.fits;
        })
        (silent t1 q _ (handle_read-Asked openssl child hungry t1 q d h.fits))
  perform-Asked (asks_write id buf) t q d h b =
      let t1 = record t { task_write_ = id; u_write = buf; u_write_p_ = 0 } in
      since
        (record {
          same_flag = refl;
          same_read = refl;
          less_left = omega arith;
          same_block = refl;
          fits = h.fits;
        })
        (silent t1 q _ (handle_write-Asked openssl child hungry t1 q d h.fits))
  perform-Asked (told area calling task status code) t q d h b =
      on_yield-Asked t q d area calling task status code h.fits
        (heard-Quiet t (told area calling task status code) h b).fits

  Reached-Quiet : (s0 s : State S) → Quiet s0.0 → Reached openssl child s0 s → Quiet s.0
  Reached-Quiet s0 s h at_first = h
  Reached-Quiet s0 s h (after_op t q d op _ y r b e) =
      let before = Reached-Quiet s0 (t, q, d) h r in
      Asked-Quiet (heard-Quiet t op before b)
        (subst (Asked child Any (heard t op) q) e (perform-Asked op t q d before b))

  -- OpenSSL is any whose calls want input only after the callback has given it all there was; at first no byte
  -- is buffered if a read of the plain socket is under way, and the block has room. After any calls of
  -- `read` and `write` and any completions, in any order, of any tasks and with any codes, while no read
  -- brings more bytes than it was asked for: whatever comes next, if the socket goes on at all, it queues
  -- at most one call, and this is either a write or a read for all of the space of `sizeof_pointer` bytes.
  -- It is a read only when no byte is buffered and the last read, if any, has been reported complete;
  -- this read is then the one under way, under the identifier of its call, and it stays so until its own
  -- completion is told. So a read never overwrites bytes that OpenSSL has not seen, nor meets
  -- another one, though each stores its bytes at the beginning of the block.
  pub Reached-Asked :
      (s0 : State S) (t : Tls S) (q : Queues) (d : IoUringData) (op : Op)
      → Quiet s0.0
      → Reached openssl child s0 (t, q, d)
      → Brings t op
      → Quiet t × Asked child Any (heard t op) q (perform openssl child op (t, q, d))
  Reached-Asked s0 t q d op h r b =
      let now = Reached-Quiet s0 (t, q, d) h r in (now, perform-Asked op t q d now b)

module _ {S : Type 0} (openssl : Ssl S) (child : Child) where
  read_loop_done :
      (t : Tls S) (q : Queues) (d : IoUringData) (fuel : ℕ)
      → let (ssl', n, bytes, error) =
          openssl.read t.ssl (encrypted t) (minus t.u_readlen_ (length t.u_read)) in
        error ≡ ssl_error_none
        → (minus (pull t n).u_readlen_ (length (t.u_read ++ bytes)) == 0) ≡ true
        → read_loop openssl child (suc fuel) (t, q, d)
          ≡ ok (
            (record (pull t n) { ssl = ssl'; u_read = t.u_read ++ bytes }, q, d),
            some (false, to_int (length (t.u_read ++ bytes))),
          )
  unfolding read_loop
  read_loop_done t q d fuel e all = rw (read_loop, e, all) refl

  pull-u_readlen_ : (t : Tls S) (n : ℕ) → (pull t n).u_readlen_ ≡ t.u_readlen_
  unfolding pull
  pull-u_readlen_ t n = elim (Option-cases (osslcb_read t.e_read t.e_read_s_ n)) [
    | inl e ↦ rw (pull, e) refl
    | inr (r, e) ↦ rw (pull, e) refl
  ]

  -- When the connection is established and OpenSSL has all of the bytes asked for at once, `read` returns
  -- without a result, although it asks for a later completion, and leaves the queues and the context as they
  -- are: nothing was queued or attached whose completion could report the read. The length is below
  -- 2 ^ 64.
  read_unreported :
      (t : Tls S) (q : Queues) (d : IoUringData) (id len : ℕ) (read_all : Bool)
      → let (ssl', n, bytes, error) = openssl.read t.ssl (encrypted t) len in
        len < 2 ^ 64
        → length bytes ≡ len
        → error ≡ ssl_error_none
        → (t' : Tls S) × (read openssl child (record t { state_ = full }, q, d) id len read_all
            ≡ ok (t', q, d))
          × (t'.u_read ≡ bytes)
  unfolding read handle_read full_read
  read_unreported t q d id len read_all small whole e =
      let t1 = record t {
        state_ = full;
        sticky_read_ = read_all;
        task_read_ = id;
        u_readlen_ = len;
        u_read = [];
      } in
      let ask = λ (k : ℕ). openssl.read t.ssl (encrypted t) k in
      let all_left : minus len 0 ≡ len = omega arith in
      let got : length (ask (minus len 0)).2 ≡ len = ap (λ k. length (ask k).2) all_left ∙ whole in
      let none_left : (minus len len == 0) ≡ true = ground arith in
      let (ssl', n, bytes, error) = ask (minus len 0) in
      let done = read_loop_done t1 q d len (ap (λ k. (ask k).3) all_left ∙ e) (
        ap (λ k. minus k (length bytes) == 0) (pull-u_readlen_ t1 n)
        ∙ ap (λ k. minus len k == 0) got
        ∙ none_left) in
      (
        record (pull t1 n) { ssl = ssl'; u_read = bytes },
        rw done refl,
        ap (λ k. (ask k).2) all_left,
      )
