-- ===== src/Tls.antt =====
-- src/common/tls_socket.{h,cpp}: `TLSSocket`, which puts TLS between its caller and a plain socket. OpenSSL is
-- an argument: what its calls answer, and how many of the encrypted bytes each pulls through the
-- callback `osslcb_read`. The block behind `e_read_` is the list of its bytes. What a child read has
-- put there is an argument of the event that reports it.
pub mod Flush
pub mod Handlers
pub mod Input
pub mod Requests
pub mod Events
mod Tests
use localsoftware.Common.{
  ℕ, ◌+◌, ◌-◌, zero, suc, min, Bool, true, false, not, ◌&&◌, ◌||◌, List, [], ◌∷◌, ◌++◌, Option,
  none, some, ltb, ◌==◌, if◌then◌else◌, length, take, drop,
}
use localsoftware.Common.Int.{ℤ, pos, negsuc, leb_ℤ, pos_part}
use localsoftware.Runtime.Types.{
  TypeIndex, FunctionFunc, IoUringData, EventType, call_started, timeout, io_uring_result, wakeup,
  child_task_completion, Result, ok, err, ◌>>=◌, undefined_behaviour, runtime_error,
}
use localsoftware.Runtime.Event.{Queues, call_first, attach}
use localsoftware.Socket.Bytes.{Yield, to_int, minus}

-- `SSL_get_error` after a call.
pub data SslError : Type 0 where
  ssl_error_none ssl_error_want_read ssl_error_other : SslError

-- The SSL object together with `writebuf_`, whose pending bytes are encrypted output. A call is given the
-- encrypted bytes that `osslcb_read` has, and tells how many it pulled. `read` gives plain bytes, at most as
-- many as asked for; `write` takes some of the plain bytes and tells how many.
pub record Ssl (S : Type 0) : Type 0 where
  pub new : S
  pub accept : S → List ℕ → S × ℕ × SslError
  pub connect : S → List ℕ → S × ℕ × SslError
  pub read : S → List ℕ → ℕ → S × ℕ × List ℕ × SslError
  pub write : S → List ℕ → List ℕ → S × ℕ × ℕ × SslError
  pub pending : S → ℕ
  pub bio_read : S → ℕ → S × List ℕ

-- The plain socket below, and the names of the closures for calls of it.
pub record Child : Type 0 where
  pub class : TypeIndex
  pub read : ℕ → FunctionFunc
  pub write : List ℕ → FunctionFunc

pub data TlsState : Type 0 where
  wait_hello full failed : TlsState

-- `u_read` is what has been read into the caller's buffer, `u_read_p_` bytes, and `u_write` the caller's
-- bytes to write.
pub record Tls (S : Type 0) : Type 0 where
  pub ssl : S
  pub state_ : TlsState
  pub server_ : Bool
  pub sticky_read_ : Bool
  pub task_bytes_read_ : ℕ
  pub task_bytes_write_ : ℕ
  pub task_bytes_r_fin_ : Bool
  pub task_bytes_w_fin_ : Bool
  pub task_read_ : ℕ
  pub task_write_ : ℕ
  pub u_read : List ℕ
  pub u_readlen_ : ℕ
  pub u_write : List ℕ
  pub u_write_p_ : ℕ
  pub e_read : List ℕ
  pub e_read_s_ : ℕ

abbrev pub State : Type 0 → Type 0
State S = Tls S × Queues × IoUringData

abbrev pub max_uframe_length : ℕ
max_uframe_length = 15360

-- `sizeof(e_read_)` and `sizeof(e_write_)`: of pointers.
abbrev pub sizeof_pointer : ℕ
sizeof_pointer = 8

abbrev pub is_wait_hello : TlsState → Bool
is_wait_hello wait_hello = true
is_wait_hello full = false
is_wait_hello failed = false

abbrev pub is_full : TlsState → Bool
is_full wait_hello = false
is_full full = true
is_full failed = false

-- `osslcb_read` for `len` bytes: the block, the number of bytes in it and the bytes given; `none` is a
-- retry, with nothing given.
unfoldable pub osslcb_read : List ℕ → ℕ → ℕ → Option (List ℕ × ℕ × List ℕ)
osslcb_read block size len =
    let towrite = min size len in
    let left = size - towrite in
    if size == 0
    then none
    else some (take left (drop towrite block) ++ drop left block, left, take towrite block)

-- What the callbacks of one call leave of the input, when `n` bytes are pulled in all.
unfoldable pub pull : {S : Type 0} → Tls S → ℕ → Tls S
pull t n = elim (osslcb_read t.e_read t.e_read_s_ n) [
  | none ↦ t
  | some (block, size, given) ↦ record t { e_read = block; e_read_s_ = size }
]

abbrev pub encrypted : {S : Type 0} → Tls S → List ℕ
encrypted t = take t.e_read_s_ t.e_read

-- The bytes that have arrived stand at the beginning of the block.
abbrev pub arrived : {S : Type 0} → Tls S → List ℕ → ℕ → Tls S
arrived t area n = record t {
  task_bytes_r_fin_ = true;
  e_read = take n area ++ drop n t.e_read;
  e_read_s_ = t.e_read_s_ + n;
}

unfoldable pub note_completion : {S : Type 0} → Tls S → List ℕ → ℕ → ℕ → Tls S
note_completion t area task_id n =
    if (task_id == t.task_bytes_read_) && not t.task_bytes_r_fin_
    then arrived t area n
    else if task_id == t.task_bytes_write_
    then record t { task_bytes_w_fin_ = true }
    else t

module _ {S : Type 0} (openssl : Ssl S) (child : Child) where
  unfoldable pub arm_read : State S → Result (State S)
  arm_read (t, q, d) =
      if t.task_bytes_r_fin_
      then (do
        (q', d', taskid) ←
            call_first q d child.class (child.read (minus sizeof_pointer t.e_read_s_))
        ok (record t { task_bytes_read_ = taskid; task_bytes_r_fin_ = false }, q', d'))
      else ok (t, attach q t.task_bytes_read_, d)

  unfoldable pub arm_write : State S → Result (State S)
  arm_write (t, q, d) =
      if t.task_bytes_w_fin_
      then (do
        let (ssl', e_write) = openssl.bio_read t.ssl sizeof_pointer
        (q', d', taskid) ← call_first q d child.class (child.write e_write)
        ok (record t { ssl = ssl'; task_bytes_write_ = taskid; task_bytes_w_fin_ = false }, q', d'))
      else ok (t, attach q t.task_bytes_write_, d)

  -- What follows when OpenSSL wants input: its output goes first.
  unfoldable pub want_read : State S → Result (State S)
  want_read (t, q, d) =
      if ltb 0 (openssl.pending t.ssl) then arm_write (t, q, d) else arm_read (t, q, d)

  unfoldable pub handle_handshake : State S → Result (State S × Yield)
  handle_handshake (t, q, d) = do
    let (ssl', pulled, error) =
        if t.server_
        then openssl.accept t.ssl (encrypted t)
        else openssl.connect t.ssl (encrypted t)
    let t1 = record (pull t pulled) { ssl = ssl' }
    elim error [
      | ssl_error_want_read ↦ do s ← want_read (t1, q, d); ok (s, none)
      | ssl_error_other ↦ ok ((record t1 { state_ = failed }, q, d), some (true, negsuc 0))
      | ssl_error_none ↦ ok ((record t1 { state_ = full }, q, d), none)
    ]

  -- The loop of `handle_read`, in at most `fuel` passes; without an end it is undefined.
  unfoldable pub read_loop : ℕ → State S → Result (State S × Yield)
  read_loop zero s = err undefined_behaviour
  read_loop (suc fuel) (t, q, d) =
      let (ssl', pulled, bytes, error) =
        openssl.read t.ssl (encrypted t) (minus t.u_readlen_ (length t.u_read)) in
      let t1 = record (pull t pulled) { ssl = ssl'; u_read = t.u_read ++ bytes } in
      let again = read_loop fuel (t1, q, d) in
      elim error [
        | ssl_error_want_read ↦ do s ← want_read (t1, q, d); ok (s, none)
        | ssl_error_other ↦ ok ((t1, q, d), some (true, negsuc 0))
        | ssl_error_none ↦
            if (minus t1.u_readlen_ (length t1.u_read) == 0)
              || (not t1.sticky_read_ && not (length t1.u_read == 0))
            then ok ((t1, q, d), some (false, to_int (length t1.u_read)))
            else if t1.e_read_s_ == 0
            then (do s ← arm_read (t1, q, d); ok (s, none))
            else again
      ]

  -- Each pass but the last reads a byte at least, so `u_readlen_` passes and one are enough.
  unfoldable pub full_read : State S → Result (State S × Yield)
  full_read s = if is_full s.0.state_ then read_loop (suc s.0.u_readlen_) s else ok (s, none)

  unfoldable pub handle_read : State S → Result (State S × Yield)
  handle_read s =
      if is_wait_hello s.0.state_
      then (do
        (s1, result) ← handle_handshake s
        elim result [ some r ↦ ok (s1, some r) | none ↦ full_read s1 ])
      else full_read s

  -- What follows `SSL_write_ex`.
  unfoldable pub wrote : Tls S → Queues → IoUringData → SslError → Result (State S × Yield)
  wrote t1 q d ssl_error_want_read = do s ← want_read (t1, q, d); ok (s, none)
  wrote t1 q d ssl_error_other = ok ((t1, q, d), some (true, negsuc 0))
  wrote t1 q d ssl_error_none =
      if ltb 0 (openssl.pending t1.ssl) || not (minus (length t1.u_write) t1.u_write_p_ == 0)
      then (do s ← arm_write (t1, q, d); ok (s, none))
      else ok ((t1, q, d), some (false, to_int (length t1.u_write)))

  abbrev pub advance : Tls S → S × ℕ × ℕ × SslError → Tls S
  advance t (ssl', pulled, numread, error) = record (pull t pulled) {
    ssl = ssl';
    u_write_p_ = t.u_write_p_ + numread;
  }

  unfoldable pub full_write : State S → Result (State S × Yield)
  full_write (t, q, d) =
      let left = minus (length t.u_write) t.u_write_p_ in
      let part = take (min left max_uframe_length) (drop t.u_write_p_ t.u_write) in
      let answer = openssl.write t.ssl (encrypted t) part in
      if is_full t.state_ then wrote (advance t answer) q d answer.3 else ok ((t, q, d), none)

  unfoldable pub handle_write : State S → Result (State S × Yield)
  handle_write s =
      if is_wait_hello s.0.state_
      then (do
        (s1, result) ← handle_handshake s
        elim result [ some r ↦ ok (s1, some r) | none ↦ full_write s1 ])
      else full_write s

  -- `read` and `write` do not look at what the handlers report.
  unfoldable pub read : State S → ℕ → ℕ → Bool → Result (State S)
  read (t, q, d) id len read_all = do
    let t1 = record t { sticky_read_ = read_all; task_read_ = id; u_readlen_ = len; u_read = [] }
    (s, result) ← handle_read (t1, q, d)
    ok s

  unfoldable pub write : State S → ℕ → List ℕ → Result (State S)
  write (t, q, d) id buf = do
    let t1 = record t { task_write_ = id; u_write = buf; u_write_p_ = 0 }
    (s, result) ← handle_write (t1, q, d)
    ok s

  unfoldable pub on_yield : State S → List ℕ → EventType → Result (State S × Yield)
  on_yield (t, q, d) area (child_task_completion calling_id task_id status return_code) =
      let t1 = note_completion t area task_id (pos_part return_code) in
      if leb_ℤ return_code (pos 0)
      then ok ((t, q, d), some (true, return_code))
      else if calling_id == t1.task_read_
      then handle_read (t1, q, d)
      else if calling_id == t1.task_write_
      then handle_write (t1, q, d)
      else err runtime_error
  on_yield s area (call_started x y z) = err runtime_error
  on_yield s area (timeout x) = err runtime_error
  on_yield s area (io_uring_result x y z) = err runtime_error
  on_yield s area (wakeup x) = err runtime_error
