-- ===== src/Socket/Bytes.antt =====
-- src/common/readwrite_bytes.{h,cpp}: `ReadWriteBytes`, which reads and writes a socket in as many ring
-- operations as the kernel needs. Buffers are addresses. An operation returns the ring calls that it
-- queues with `c`, and `on_yield` the result of the procedure, if it has ended.
pub mod Transfer
use localsoftware.Common.{
  ℕ, ◌+◌, ◌-◌, ◌%◌, ◌^◌, Bool, true, false, ◌&&◌, List, [], ◌∷◌, ◌++◌, Option, none, some, ltb,
  ◌==◌, if◌then◌else◌,
}
use localsoftware.Common.Int.{ℤ, pos, negsuc, leb_ℤ, pos_part}
use localsoftware.Runtime.Types.{
  EventType, io_uring_result, call_started, timeout, wakeup, child_task_completion, Fault, Result,
  ok, err, ◌>>=◌, runtime_error,
}
use localsoftware.Runtime.Ids.{u64}

-- `ID_READ` and `ID_WRITE`.
abbrev pub id_read : ℕ
id_read = 2

abbrev pub id_write : ℕ
id_write = 4

-- `io_uring_prep_recv` and `io_uring_prep_send`.
pub data Io : Type 0 where
  recv send : (fd address len : ℕ) → Io

pub record Bytes : Type 0 where
  pub fd : ℕ
  pub sticky_read : Bool
  pub read_buffer : ℕ
  pub read_bytes_left : ℕ
  pub read_total_processed : ℕ
  pub write_buffer : ℕ
  pub write_bytes_left : ℕ
  pub write_total_processed : ℕ

-- A `size_t` stored in an `int`.
abbrev pub to_int : ℕ → ℤ
to_int n = if ltb (n % 2 ^ 32) (2 ^ 31) then pos (n % 2 ^ 32) else negsuc (2 ^ 32 - 1 - n % 2 ^ 32)

-- `a -= b` on a `size_t`.
abbrev pub minus : ℕ → ℕ → ℕ
minus a b = u64 (a + 2 ^ 64 - b)

unfoldable pub read : Bytes → ℕ → ℕ → Bool → Bytes × List Io
read s buf len read_all = (
  record s {
    sticky_read = read_all;
    read_buffer = buf;
    read_bytes_left = len;
    read_total_processed = 0;
  },
  recv s.fd buf len ∷ [],
)

unfoldable pub write : Bytes → ℕ → ℕ → Bytes × List Io
write s buf len = (
  record s { write_buffer = buf; write_bytes_left = len; write_total_processed = 0 },
  send s.fd buf len ∷ [],
)

abbrev pub Yield : Type 0
Yield = Option (Bool × ℤ)

unfoldable pub prepare_read : Bytes → ℕ → Bytes × List Io × Yield
prepare_read s res =
    let left = minus s.read_bytes_left res in
    let total = u64 (s.read_total_processed + res) in
    let s' = record s { read_bytes_left = left; read_total_processed = total } in
    if s.sticky_read && ltb 0 left
    then (s', recv s.fd (s.read_buffer + total) left ∷ [], none)
    else (s', [], some (false, to_int total))

unfoldable pub prepare_write : Bytes → ℕ → Bytes × List Io × Yield
prepare_write s res =
    let left = minus s.write_bytes_left res in
    let total = u64 (s.write_total_processed + res) in
    let s' = record s { write_bytes_left = left; write_total_processed = total } in
    if ltb 0 left
    then (s', send s.fd (s.write_buffer + total) left ∷ [], none)
    else (s', [], some (false, to_int total))

-- `get<IoUringResult>` throws for the other events.
unfoldable pub on_yield : Bytes → EventType → Result (Bytes × List Io × Yield)
unfolding prepare_read prepare_write
on_yield s (io_uring_result calling_id op res) =
    if leb_ℤ res (pos 0)
    then ok (s, [], some (true, res))
    else if op == id_read
    then ok (prepare_read s (pos_part res))
    else if op == id_write
    then ok (prepare_write s (pos_part res))
    else ok (s, [], none)
on_yield s (call_started a b c) = err runtime_error
on_yield s (timeout a) = err runtime_error
on_yield s (wakeup a) = err runtime_error
on_yield s (child_task_completion a b c d) = err runtime_error

-- The procedure over several completions of its operation, up to its result.
unfoldable pub feed : Bytes → ℕ → List ℤ → Result (Bytes × List Io × Yield)
unfolding on_yield
feed s op [] = ok (s, [], none)
feed s op (res ∷ later) = do
  step ← on_yield s (io_uring_result 0 op res)
  let (s', io, result) = step
  elim result [
    | some r ↦ ok (s', io, some r)
    | none ↦ do rest ← feed s' op later; ok (rest.0, io ++ rest.1, rest.2)
  ]
