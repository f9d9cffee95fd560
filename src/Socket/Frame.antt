-- ===== src/Socket/Frame.antt =====
-- src/common/websocket_socket.{h,cpp}: `WebsocketSocket`, which writes binary frames. Bytes are numbers
-- below 256, `w_buf_` is the list of them, or nothing when it is null. `read_frame` is a stub in the
-- source and is not modelled, nor is `arm_read`, which nothing calls. The children that carry the
-- bytes are found and called by `call_first`; `classes` names their types and closures.
pub mod Parse
use localsoftware.Common.{
  ℕ, ◌+◌, ◌/◌, ◌%◌, ◌^◌, Bool, true, false, List, [], ◌∷◌, ◌++◌, Option, none, some, length, leb,
  ltb, if◌then◌else◌,
}
use localsoftware.Common.Int.{ℤ, pos, leb_ℤ}
use localsoftware.Runtime.Types.{
  TypeIndex, FunctionFunc, IoUringData, EventType, io_uring_result, call_started, timeout, wakeup,
  child_task_completion, Result, ok, err, ◌>>=◌, runtime_error, Fault,
}
use localsoftware.Runtime.Event.{Queues, call_first}

pub record Socket : Type 0 where
  pub tls_enabled : Bool
  pub w_buf : Option (List ℕ)
  pub w_len : ℕ
  pub taskid_writer : ℕ

-- The classes below, and the closures that `c` makes of their `write` with a buffer and a length.
pub record Classes : Type 0 where
  pub tls_socket : TypeIndex
  pub readwrite_bytes : TypeIndex
  pub tls_write : List ℕ → ℕ → FunctionFunc
  pub bytes_write : List ℕ → ℕ → FunctionFunc

-- The first bytes of a frame: `FIN | Binary`, and the length in 7, 16 or 64 bits.
unfoldable pub frame_header : ℕ → List ℕ
frame_header len =
    if leb len 125
    then 130 ∷ len ∷ []
    else if leb len 65535
    then 130 ∷ 126 ∷ len / 256 % 256 ∷ len % 256 ∷ []
    else 130
      ∷ 127
      ∷ 0
      ∷ 0
      ∷ 0
      ∷ 0
      ∷ len / 16777216 % 256
      ∷ len / 65536 % 256
      ∷ len / 256 % 256
      ∷ len % 256
      ∷ []

-- `w_len_`, a `size_t`.
unfoldable pub frame_len : ℕ → ℕ
frame_len len = 2 + (if ltb 125 len then (if ltb 65535 len then 8 else 2) else 0) + len

unfoldable pub frame : List ℕ → List ℕ
unfolding frame_header
frame buf = frame_header (length buf) ++ buf

module _ (classes : Classes) where
  unfoldable pub arm_write :
      Socket → List ℕ → Queues → IoUringData → Result (Socket × Queues × IoUringData)
  arm_write s buf q d = do
    called ←
        if s.tls_enabled
        then call_first q d classes.tls_socket (classes.tls_write buf s.w_len)
        else call_first q d classes.readwrite_bytes (classes.bytes_write buf s.w_len)
    let (q', d', taskid) = called
    ok (record s { taskid_writer = taskid }, q', d')

  unfoldable pub write_frame :
      Socket → List ℕ → Queues → IoUringData → Result (Socket × Queues × IoUringData)
  unfolding frame frame_len arm_write
  write_frame s buf q d =
      arm_write (record s { w_buf = some (frame buf); w_len = frame_len (length buf) }) (frame buf)
        q d

unfoldable pub on_yield : Socket → EventType → Result (Socket × Option (Bool × ℤ))
on_yield s (child_task_completion calling_id task_id status return_code) =
    if leb_ℤ return_code (pos 0)
    then ok (s, some (true, return_code))
    else ok (record s { w_buf = none }, some (false, return_code))
on_yield s (call_started a b c) = err runtime_error
on_yield s (timeout a) = err runtime_error
on_yield s (io_uring_result a b c) = err runtime_error
on_yield s (wakeup a) = err runtime_error
