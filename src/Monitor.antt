-- ===== src/Monitor.antt =====
-- src/bandwidth_monitor/monitoring_server.{h,cpp}: `BandwidthMonitoringServer`, one connection of the bandwidth
-- monitor: pages over HTTP, and after an upgrade the log, then a record each second over a WebSocket.
-- The request that the HTTP child has parsed, SHA-1 and the names of the closures are arguments, and so
-- are the clock and the global speeds where a live record is made.
pub mod Base64
pub mod Format
pub mod Lines
pub mod Live
pub mod Logs
mod Tests
use localsoftware.Common.{
  ℕ, ◌+◌, ◌-◌, ◌*◌, ◌/◌, ◌%◌, ◌^◌, zero, suc, Bool, true, false, not, ◌&&◌, ◌||◌, List, [], ◌∷◌,
  ◌++◌, Option, none, some, ltb, ◌==◌, if◌then◌else◌, length, take, replicate, get_or,
}
use localsoftware.Common.Int.{ℤ, pos, negsuc, leb_ℤ}
use localsoftware.Common.Maps.{bytes_beq}
use localsoftware.Common.Text.{codes}
use localsoftware.Runtime.Types.{
  TypeIndex, FunctionFunc, IoUringData, EventType, Timespec, io_uring_result, call_started, timeout,
  wakeup, child_task_completion, Result, ok, err, ◌>>=◌, or_fault, bad_optional, out_of_range,
}
use localsoftware.Runtime.Event.{
  Queues, construct, call_first, start_timer, cancel_timer, direct_access,
}
use localsoftware.Socket.Bytes.{Yield}
use localsoftware.Monitor.Format.{LogRecord, base64_encode, guid, scan_line, take_records}

-- What a handler looks at in a request.
pub record Request : Type 0 where
  pub is_get : Bool
  pub connection : Option (List ℕ)
  pub upgrade : Option (List ℕ)
  pub sec_websocket_key : Option (List ℕ)

-- The children and the closures for their calls. `respond` is `write_http` with what
-- `HTTPManager::handle_request` answers, `switching` with the response that accepts a WebSocket.
pub record Children : Type 0 where
  pub http : TypeIndex
  pub data_timer : TypeIndex
  pub websocket : TypeIndex
  pub read_http : FunctionFunc
  pub respond : Request → FunctionFunc
  pub switching : List ℕ → FunctionFunc
  pub prepare_timer : FunctionFunc
  pub write_marker : FunctionFunc
  pub write_record : LogRecord → FunctionFunc
  pub write_records : List LogRecord → FunctionFunc
  pub get_data : ℕ → Result Request
  pub alive : ℕ → Bool
  pub sha1 : List ℕ → List ℕ

pub data Stage : Type 0 where
  http_read http_write websocket_init websocket_logs websocket_live : Stage

-- `log_` is the lines that are still to be read.
pub record Monitor : Type 0 where
  pub timer_ : ℕ
  pub timerid_ : ℕ
  pub websocket_writerid_ : ℕ
  pub write_occurred_ : Bool
  pub timeout_occurred_ : Bool
  pub log_ : List (List ℕ)
  pub current_op_ : Stage

abbrev pub State : Type 0
State = Monitor × Queues × IoUringData

abbrev pub ts : Timespec
ts = record { tv_sec = 60; tv_nsec = 0 }

abbrev streaming : Timespec
streaming = record { tv_sec = 1200; tv_nsec = 0 }

abbrev pub chunk_size : ℕ
chunk_size = 15

-- What is read of the clock and the speeds.
pub record Reading : Type 0 where
  pub now : ℕ
  pub now_hours : ℕ
  pub global_rx_speed : ℕ
  pub global_tx_speed : ℕ

-- The two flags, once a completion has been seen.
abbrev pub noted : Monitor → ℕ → Monitor
noted m task_id =
    if task_id == m.websocket_writerid_
    then record m { write_occurred_ = true }
    else if task_id == m.timerid_
    then record m { timeout_occurred_ = true }
    else m

module _ (children : Children) where
  unfoldable pub start : Monitor → Queues → IoUringData → Result State
  start m q d = do
    (q1, d1, _) ← call_first q d children.http children.read_http
    let (q2, d2, timer) = start_timer q1 d1 ts
    ok (record m { timer_ = timer; current_op_ = http_read }, q2, d2)

  unfoldable pub stage_http_read : State → Result (State × Yield)
  stage_http_read (m, q, d) = do
    found ← direct_access d children.alive children.http 0
    obj ← or_fault found bad_optional
    req ← children.get_data obj
    if not req.is_get then ok ((m, q, d), some (true, negsuc 0)) else elim req.connection [
      | none ↦ answer req
      | some connection ↦ elim req.upgrade [
        | none ↦ answer req
        | some upgrade ↦
            if not (bytes_beq connection (codes "Upgrade"))
              || not (bytes_beq upgrade (codes "websocket"))
            then ok ((m, q, d), some (true, negsuc 0))
            else accept req
      ]
    ]
    where
      answer : Request → Result (State × Yield)
      answer req = do
        called ← call_first q d children.http (children.respond req)
        ok ((record m { current_op_ = http_write }, called.0, called.1), none)

      accept : Request → Result (State × Yield)
      accept req = do
        key ← or_fault req.sec_websocket_key out_of_range
        let accept_key = base64_encode (children.sha1 (key ++ guid))
        called ← call_first q d children.http (children.switching accept_key)
        ok ((record m { current_op_ = websocket_init }, called.0, called.1), none)

  -- The file is opened: `log` is its lines. The new children are made with the event's context, `own`.
  unfoldable pub stage_websocket_init : List (List ℕ) → ℕ → ℕ → ℕ → State → State
  stage_websocket_init log own new_timer new_websocket (m, q, d) =
      let (q1, d1, _) = construct q d own children.data_timer new_timer true in
      let (q2, d2, _) = construct q1 d1 own children.websocket new_websocket true in
      (record m { log_ = log; current_op_ = websocket_logs }, q2, d2)

  unfoldable pub stage_websocket_logs : State → Result State
  stage_websocket_logs (m, q, d) =
      let (records, rest) = take_records chunk_size m.log_ in
      let m1 = record m { log_ = rest } in
      if length records == 0
      then (do
        called ← call_first q d children.websocket children.write_marker
        ok (record m1 { current_op_ = websocket_live }, called.0, called.1))
      else (do
        called ← call_first q d children.websocket (children.write_records records)
        ok (m1, called.0, called.1))

  unfoldable pub stage_websocket_live : Reading → State → ℕ → Result State
  stage_websocket_live r (m, q, d) task_id =
      let m1 = noted m task_id in
      if (m1.write_occurred_ && m1.timeout_occurred_) || (m1.timerid_ == 0)
      then (do
        let rec : LogRecord = record {
          timestamp = r.now;
          tx_bytes = r.global_tx_speed;
          rx_bytes = r.global_rx_speed;
          hour = r.now_hours;
        }
        (q1, d1, tid) ← call_first q d children.data_timer children.prepare_timer
        (q2, d2, wid) ← call_first q1 d1 children.websocket (children.write_record rec)
        ok (
          record m1 {
            write_occurred_ = false;
            timeout_occurred_ = false;
            timerid_ = tid;
            websocket_writerid_ = wid;
          },
          q2,
          d2,
        ))
      else ok (m1, q, d)

  unfoldable pub stage_http_write : State → Result (State × Yield)
  stage_http_write (m, q, d) = do
    let (q1, d1, timer) = start_timer q d ts
    called ← call_first q1 d1 children.http children.read_http
    ok ((record m { timer_ = timer; current_op_ = http_read }, called.0, called.1), none)

  -- The stream of 20 minutes begins; the code goes on with the first of the log.
  unfoldable pub begin_stream : List (List ℕ) → ℕ → ℕ → ℕ → State → Result (State × Yield)
  begin_stream log own new_timer new_websocket (m, q, d) = do
    let (q1, d1, timer) = start_timer q d streaming
    s ←
        stage_websocket_logs (
          stage_websocket_init log own new_timer new_websocket
            (record m { timer_ = timer }, q1, d1))
    ok (s, none)

  unfoldable pub dispatch :
      Stage → List (List ℕ) → ℕ → ℕ → ℕ → Reading → State → ℕ → Result (State × Yield)
  dispatch http_read log own new_timer new_websocket r (m, q, d) task_id =
      stage_http_read (m, cancel_timer q m.timer_, d)
  dispatch http_write log own new_timer new_websocket r s task_id = stage_http_write s
  dispatch websocket_init log own new_timer new_websocket r s task_id =
      begin_stream log own new_timer new_websocket s
  dispatch websocket_logs log own new_timer new_websocket r s task_id = do
    s' ← stage_websocket_logs s
    ok (s', none)
  dispatch websocket_live log own new_timer new_websocket r s task_id = do
    s' ← stage_websocket_live r s task_id
    ok (s', none)

  -- `log` is the lines of the log file, should it be opened now, and `r` what a live record would read.
  unfoldable pub on_yield :
      List (List ℕ) → ℕ → ℕ → ℕ → Reading → State → EventType → Result (State × Yield)
  on_yield log own new_timer new_websocket r s
        (child_task_completion calling_id task_id status return_code) =
      if leb_ℤ return_code (pos 0)
      then ok (s, some (true, return_code))
      else dispatch s.0.current_op_ log own new_timer new_websocket r s task_id
  on_yield log own new_timer new_websocket r s (timeout timer_id) = ok (s, some (true, negsuc 0))
  on_yield log own new_timer new_websocket r s (io_uring_result x y z) = ok (s, none)
  on_yield log own new_timer new_websocket r s (call_started x y z) = ok (s, none)
  on_yield log own new_timer new_websocket r s (wakeup x) = ok (s, none)
