-- ===== src/Http.antt =====
-- src/common/readwrite_http.{h,cpp}: `ReadWriteHTTP`, which reads requests from a socket and writes responses
-- to it. The parser, the serializer and the buffers' memory are Boost's: the first two are arguments,
-- and a buffer is the list of its readable bytes. What a child read has put into the prepared space is
-- an argument of the event that reports it.
pub mod Drain
pub mod Feed
pub mod Respond
pub mod Client
mod Tests
use localsoftware.Common.{
  ℕ, ◌+◌, zero, suc, Bool, true, false, not, ◌&&◌, ◌||◌, List, [], ◌∷◌, ◌++◌, Option, none, some,
  ltb, ◌==◌, if◌then◌else◌, length, take, drop,
}
use localsoftware.Common.Int.{ℤ, pos, leb_ℤ, pos_part}
use localsoftware.Runtime.Types.{
  TypeIndex, FunctionFunc, IoUringData, EventType, call_started, timeout, io_uring_result, wakeup,
  child_task_completion, Result, ok, err, ◌>>=◌, or_fault, undefined_behaviour, runtime_error,
}
use localsoftware.Runtime.Event.{Queues, call_first}
use localsoftware.Socket.Bytes.{Yield}

-- `boost::system::error_code`, as far as the code tells errors apart.
pub data ErrorCode : Type 0 where
  success need_more failure : ErrorCode

abbrev pub is_error : ErrorCode → Bool
is_error success = false
is_error need_more = true
is_error failure = true

abbrev pub is_need_more : ErrorCode → Bool
is_need_more success = false
is_need_more need_more = true
is_need_more failure = false

-- `http::request_parser`.
pub record Parser (P : Type 0) : Type 0 where
  pub new : P
  pub put : P → List ℕ → P × ℕ × ErrorCode
  pub is_done : P → Bool

-- `http::response_serializer`: `next` gives the bytes that its visitor consumes. A serializer that is
-- done after `calls` further calls of `next` at most is a loop of so many passes.
pub record Serializer (R S : Type 0) : Type 0 where
  pub start : R → S
  pub is_done : S → Bool
  pub next : S → S × List ℕ × ErrorCode
  pub calls : S → ℕ

-- The children, one of which the object has, and the names of the closures for their calls.
pub record Children : Type 0 where
  pub tls_socket : TypeIndex
  pub read_write_bytes : TypeIndex
  pub read : TypeIndex → ℕ → FunctionFunc
  pub write : TypeIndex → List ℕ → FunctionFunc

pub record Http (P : Type 0) : Type 0 where
  pub read_op_ : Bool
  pub taskid_writer_ : ℕ
  pub taskid_reader_ : ℕ
  pub parser_ : Option P
  pub buffer_ : List ℕ
  pub write_buffer_ : List ℕ
  pub tls_enabled_ : Bool

abbrev pub State : Type 0 → Type 0
State P = Http P × Queues × IoUringData

abbrev pub child_class : Children → Bool → TypeIndex
child_class c tls = if tls then c.tls_socket else c.read_write_bytes

module _ {P : Type 0} (children : Children) where
  unfoldable pub arm_read : State P → Result (State P)
  arm_read (h, q, d) = do
    let ty = child_class children h.tls_enabled_
    (q', d', taskid) ← call_first q d ty (children.read ty 4096)
    ok (record h { taskid_reader_ = taskid }, q', d')

  unfoldable pub arm_write : State P → Result (State P)
  arm_write (h, q, d) = if length h.write_buffer_ == 0 then ok (h, q, d) else (do
    let ty = child_class children h.tls_enabled_
    (q', d', taskid) ← call_first q d ty (children.write ty h.write_buffer_)
    ok (record h { taskid_writer_ = taskid }, q', d'))

  unfoldable pub handle_write : State P → ℤ → Result (State P × Yield)
  handle_write (h, q, d) res =
      let left =
        if leb_ℤ res (pos 0) then h.write_buffer_ else drop (pos_part res) h.write_buffer_ in
      let h1 = record h { write_buffer_ = left } in
      if ltb 0 (length left)
      then (do s ← arm_write (h1, q, d); ok (s, none))
      else ok ((h1, q, d), some (false, pos 1))

-- `get_data` moves the parser out.
unfoldable pub get_data : {P : Type 0} → Http P → Http P × Option P
get_data h = (record h { parser_ = none }, h.parser_)

module _ {P : Type 0} (parser : Parser P) where
  -- The loop of `try_parse`, in at most `fuel` passes; without an end it is undefined.
  unfoldable pub parse_loop : ℕ → P → List ℕ → ErrorCode → Result (P × List ℕ × ErrorCode)
  parse_loop zero p buf ec =
      if not (is_error ec) && (not (parser.is_done p) && ltb 0 (length buf))
      then err undefined_behaviour
      else ok (p, buf, ec)
  parse_loop (suc fuel) p buf ec =
      let (p', consumed, ec') = parser.put p buf in
      let rest = parse_loop fuel p' (drop consumed buf) ec' in
      if not (is_error ec) && (not (parser.is_done p) && ltb 0 (length buf))
      then rest
      else ok (p, buf, ec)

  unfoldable pub try_parse : Http P → Result (Http P × Bool)
  try_parse h = do
    p ← or_fault h.parser_ undefined_behaviour
    let (p1, consumed, ec1) = parser.put p h.buffer_
    let buf = drop consumed h.buffer_
    (p2, rest, ec2) ← parse_loop (length buf) p1 buf ec1
    ok (
      record h { parser_ = some p2; buffer_ = rest },
      (is_error ec2 && not (is_need_more ec2)) || parser.is_done p2,
    )

module _ {P : Type 0} (parser : Parser P) (children : Children) where
  unfoldable pub read_http : State P → Result (State P)
  read_http (h, q, d) =
      arm_read children (record h { read_op_ = true; parser_ = some parser.new }, q, d)

  -- `area` is the space that `arm_read` has prepared; `commit` appends its first bytes.
  unfoldable pub handle_read : State P → List ℕ → ℤ → Result (State P × Yield)
  handle_read (h, q, d) area res = do
    let got = if leb_ℤ res (pos 0) then h.buffer_ else h.buffer_ ++ take (pos_part res) area
    (h1, done) ← try_parse parser (record h { buffer_ = got })
    if done
        then ok ((h1, q, d), some (false, pos 1))
        else (do s ← arm_read children (h1, q, d); ok (s, none))

  unfoldable pub on_yield : State P → List ℕ → EventType → Result (State P × Yield)
  on_yield s area (child_task_completion calling_id task_id status return_code) =
      if leb_ℤ return_code (pos 0)
      then ok (s, some (true, return_code))
      else if s.0.read_op_
      then handle_read s area return_code
      else handle_write children s return_code
  on_yield s area (call_started x y z) = err runtime_error
  on_yield s area (timeout x) = err runtime_error
  on_yield s area (io_uring_result x y z) = err runtime_error
  on_yield s area (wakeup x) = err runtime_error

module _ {R S : Type 0} (serializer : Serializer R S) where
  -- The loop of `write_http`, in at most `fuel` passes: the buffer that it leaves.
  unfoldable pub serialize : ℕ → S → List ℕ → Result (List ℕ)
  serialize zero sr buf = if serializer.is_done sr then ok buf else err undefined_behaviour
  serialize (suc fuel) sr buf =
      let (sr', src, ec) = serializer.next sr in
      let rest = serialize fuel sr' (buf ++ src) in
      if serializer.is_done sr then ok buf else if is_error ec then ok (buf ++ src) else rest

  unfoldable pub write_http : {P : Type 0} → Children → State P → R → Result (State P)
  write_http children (h, q, d) res = do
    let sr = serializer.start res
    buf ← serialize (serializer.calls sr) sr h.write_buffer_
    arm_write children (record h { read_op_ = false; write_buffer_ = buf }, q, d)
