-- ===== src/Servers/Accept.antt =====
-- `LandingAccept` (src/aio_landing/landing_accept.{h,cpp}) and `BandwidthMonitorAccept`
-- (src/bandwidth_monitor/bandwidth_accept.{h,cpp}): a listening socket for IPv4, operation 0, and one for
-- IPv6, operation 1. Each connection is a child that is constructed, started, and destroyed when its
-- procedure ends. `service` names the class of the children and the closures; log output and the
-- endpoints that the constructor of `LandingAccept` registers are left out.
pub mod Lifecycle
use localsoftware.Common.{ℕ, Bool, true, false, Option, none, some, ◌==◌, if◌then◌else◌}
use localsoftware.Common.Int.{ℤ, pos, leb_ℤ, pos_part}
use localsoftware.Common.Maps.{Map, lookup, insert, erase, nat_eq}
use localsoftware.Runtime.Types.{
  TypeIndex, FunctionFunc, SqeFunc, IoUringData, EventType, io_uring_result, call_started, timeout,
  wakeup, child_task_completion, Result, ok, err, ◌>>=◌, runtime_error,
}
use localsoftware.Runtime.Event.{Queues, construct, call_at, call_uring, destroy, subscript}

pub record Service : Type 0 where
  pub class : TypeIndex
  -- The object of the class for a connection's descriptor, and its `start`.
  pub connection : ℕ → ℕ
  pub start : FunctionFunc
  -- `io_uring_prep_accept` for an operation and its descriptor.
  pub accept : ℕ → ℕ → SqeFunc

-- `own` names the acceptor's context.
pub record Acceptor : Type 0 where
  pub own : ℕ
  pub ipv4 : ℕ
  pub ipv6 : ℕ
  pub indices : Map ℕ ℕ

module _ (service : Service) where
  unfoldable pub queue_accept : Acceptor → Queues → ℕ → Queues
  queue_accept a q op = call_uring q op (service.accept op (if op == 0 then a.ipv4 else a.ipv6))

  unfoldable pub init : Acceptor → Queues → Queues
  unfolding queue_accept
  init a q = queue_accept a (queue_accept a q 0) 1

  -- A new connection, if `res` is its descriptor.
  unfoldable pub take_connection :
      Acceptor → Queues → IoUringData → ℤ → Acceptor × Queues × IoUringData
  unfolding insert
  take_connection a q d res =
      if leb_ℤ (pos 0) res
      then (let (q1, d1, idx) =
            construct q d a.own service.class (service.connection (pos_part res)) false in
          let (q2, d2, taskid) = call_at q1 d1 service.class idx service.start in
          (record a { indices = insert taskid idx a.indices }, q2, d2))
      else (a, q, d)

  unfoldable pub accepted :
      Acceptor → Queues → IoUringData → ℕ → ℤ → Acceptor × Queues × IoUringData
  unfolding take_connection queue_accept
  accepted a q d op res =
      let (a', q', d') = take_connection a q d res in (a', queue_accept a' q' op, d')

  -- `LandingAccept::on_yield`, which always returns `nullopt`.
  unfoldable pub landing_on_yield :
      Acceptor → Queues → IoUringData → EventType → Result (Acceptor × Queues × IoUringData)
  unfolding accepted erase
  landing_on_yield a q d (child_task_completion calling_id task_id status return_code) = do
    let (idx, indices) = subscript a.indices task_id
    gone ← destroy q d service.class idx
    ok (record a { indices = erase task_id indices }, gone.0, gone.1)
  landing_on_yield a q d (io_uring_result calling_id op res) = ok (accepted a q d op res)
  landing_on_yield a q d (call_started x y z) = err runtime_error
  landing_on_yield a q d (timeout x) = err runtime_error
  landing_on_yield a q d (wakeup x) = err runtime_error

  -- `BandwidthMonitorAccept::on_yield` keeps the index of a connection that is gone.
  unfoldable pub monitor_on_yield :
      Acceptor → Queues → IoUringData → EventType → Result (Acceptor × Queues × IoUringData)
  unfolding accepted
  monitor_on_yield a q d (child_task_completion calling_id task_id status return_code) = do
    let (idx, indices) = subscript a.indices task_id
    gone ← destroy q d service.class idx
    ok (record a { indices = indices }, gone.0, gone.1)
  monitor_on_yield a q d (io_uring_result calling_id op res) = ok (accepted a q d op res)
  monitor_on_yield a q d (call_started x y z) = err runtime_error
  monitor_on_yield a q d (timeout x) = err runtime_error
  monitor_on_yield a q d (wakeup x) = err runtime_error
