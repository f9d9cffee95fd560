-- ===== src/Servers/Landing.antt =====
-- `AioLandingHTTP` of src/aio_landing/landing_server.{h,cpp}: one HTTP connection, which reads a request,
-- writes the response and begins again, and is closed by a timer of three minutes or by an error. The
-- HTTP child, the closures and the response to the request that it has parsed are named by `http`.
pub mod Rounds
use localsoftware.Common.{ℕ, Bool, true, false, List, Option, none, some, if◌then◌else◌}
use localsoftware.Common.Int.{ℤ, pos, negsuc, leb_ℤ}
use localsoftware.Runtime.Types.{
  TypeIndex, FunctionFunc, IoUringData, EventType, Timespec, io_uring_result, call_started, timeout,
  wakeup, child_task_completion, Result, ok, err, ◌>>=◌, or_fault, bad_optional,
}
use localsoftware.Runtime.Event.{Queues, call_first, start_timer, cancel_timer, direct_access}

pub record Http : Type 0 where
  pub class : TypeIndex
  pub read_http : FunctionFunc
  -- `write_http` with what `HTTPManager::handle_request` answers to the request that the object holds.
  pub respond : ℕ → Result FunctionFunc
  -- `weak_ptr::lock`.
  pub alive : ℕ → Bool

pub record Connection : Type 0 where
  pub op_read : Bool
  pub timer_ : ℕ

abbrev pub ts : Timespec
ts = record { tv_sec = 180; tv_nsec = 0 }

abbrev pub State : Type 0
State = Connection × Queues × IoUringData

module _ (http : Http) where
  unfoldable pub start : Queues → IoUringData → Result State
  start q d = do
    (q1, d1, _) ← call_first q d http.class http.read_http
    let (q2, d2, timer) = start_timer q1 d1 ts
    ok (record { op_read = true; timer_ = timer }, q2, d2)

  unfoldable pub handle_request : Connection → Queues → IoUringData → Result State
  handle_request c q d = do
    found ← direct_access d http.alive http.class 0
    obj ← or_fault found bad_optional
    write_http ← http.respond obj
    called ← call_first q d http.class write_http
    ok (record c { op_read = false }, called.0, called.1)

  unfoldable pub handle_response : Connection → Queues → IoUringData → Result State
  handle_response c q d = do
    called ← call_first q d http.class http.read_http
    ok (record c { op_read = true }, called.0, called.1)

  unfoldable pub on_yield :
      Connection → Queues → IoUringData → EventType → Result (State × Option (Bool × ℤ))
  unfolding handle_request handle_response
  on_yield c q d (child_task_completion calling_id task_id status return_code) =
      if leb_ℤ return_code (pos 0)
      then ok ((c, q, d), some (true, return_code))
      else if c.op_read
      then (do s ← handle_request c (cancel_timer q c.timer_) d; ok (s, none))
      else (let (q1, d1, timer) = start_timer q d ts in
          handle_response (record c { timer_ = timer }) q1 d1 >>= λ s. ok (s, none))
  on_yield c q d (timeout timer_id) = ok ((c, q, d), some (true, negsuc 0))
  on_yield c q d (io_uring_result x y z) = ok ((c, q, d), none)
  on_yield c q d (call_started x y z) = ok ((c, q, d), none)
  on_yield c q d (wakeup x) = ok ((c, q, d), none)
