-- ===== src/Monitor/Live.antt =====
-- The live stage sends one record for each second, and never two frames at a time.
use localsoftware.Common.{
  ℕ, ◌≡◌, refl, ◌≢◌, true, false, ◌&&◌, ◌||◌, List, [], ◌∷◌, ◌++◌, Option, some, ◌==◌, arith,
}
use localsoftware.Common.Maps.{lookup, nat_eq}
use localsoftware.Runtime.Types.{IoUringData, EventInfo, Result, ok}
use localsoftware.Runtime.Event.{Queues, call_at}
use localsoftware.Runtime.Event.First.{call_first-zero}
use localsoftware.Monitor.Format.{LogRecord}
use localsoftware.Monitor.{Children, Monitor, State, Reading, noted, stage_websocket_live}

abbrev pub record_of : Reading → LogRecord
record_of r = record {
  timestamp = r.now;
  tx_bytes = r.global_tx_speed;
  rx_bytes = r.global_rx_speed;
  hour = r.now_hours;
}

-- A frame and a timer are under way.
abbrev pub sent : Monitor → Monitor
sent m = record m { write_occurred_ = false; timeout_occurred_ = false }

module _ (children : Children) where
  waits :
      (r : Reading) (m : Monitor) (q : Queues) (d : IoUringData) (task : ℕ)
      → let m1 = noted m task in
        (m1.write_occurred_ && m1.timeout_occurred_) || (m1.timerid_ == 0) ≡ false
        → stage_websocket_live children r (m, q, d) task ≡ ok (m1, q, d)
  unfolding stage_websocket_live
  waits r m q d task h = rw h refl

  -- The next frame: its timer and its record, under the identifiers that are remembered.
  pub data Fired (r : Reading) (q : Queues) : Result State → Type 0 where
    fired :
        (m' : Monitor) (q' : Queues) (d' : IoUringData)
        → m'.write_occurred_ ≡ false
        → m'.timeout_occurred_ ≡ false
        → q'.function_
          ≡ (q.function_
              ++ record {
                idx = children.data_timer;
                vidx = 0;
                local_id = m'.timerid_;
                fun = children.prepare_timer;
              }
                ∷ [])
            ++ record {
              idx = children.websocket;
              vidx = 0;
              local_id = m'.websocket_writerid_;
              fun = children.write_record (record_of r);
            }
              ∷ []
        → Fired r q (ok (m', q', d'))

  fires :
      (r : Reading) (m : Monitor) (q : Queues) (d : IoUringData) (task : ℕ) (e e' : EventInfo)
      (v v' : List (Option EventInfo))
      → let m1 = noted m task in
        (m1.write_occurred_ && m1.timeout_occurred_) || (m1.timerid_ == 0) ≡ true
        → lookup children.data_timer d.sub_events ≡ some (some e ∷ v)
        → lookup children.websocket d.sub_events ≡ some (some e' ∷ v')
        → Fired r q (stage_websocket_live children r (m, q, d) task)
  unfolding stage_websocket_live call_at
  fires r m q d task e e' v v' h l l' =
      let (q1, d1, tid) = call_at q d children.data_timer 0 children.prepare_timer in
      rw
        (
          h,
          call_first-zero q d children.data_timer children.prepare_timer e v l,
          call_first-zero q1 d1 children.websocket (children.write_record (record_of r)) e' v' l',
        )
        (fired _ _ _ refl refl refl)

  -- While a frame and its timer are under way in the live stage, under different identifiers, that of the timer
  -- not 0, and both children are there: whichever of the two completes first, nothing is sent for it,
  -- whatever the speeds are, and when the other completes, exactly the timer of the next second and
  -- one record are queued, the record with the clock and the speeds of that moment, the flags are
  -- false again, and the remembered identifiers are those of the two new calls.
  pub stage_websocket_live_paced :
      (r r' : Reading) (m : Monitor) (q : Queues) (d : IoUringData) (e e' : EventInfo)
      (v v' : List (Option EventInfo))
      → m.timerid_ ≢ 0
      → m.websocket_writerid_ ≢ m.timerid_
      → lookup children.data_timer d.sub_events ≡ some (some e ∷ v)
      → lookup children.websocket d.sub_events ≡ some (some e' ∷ v')
      → let frame_first = noted (sent m) m.websocket_writerid_ in
        let timer_first = noted (sent m) m.timerid_ in
        (stage_websocket_live children r (sent m, q, d) m.websocket_writerid_
          ≡ ok (frame_first, q, d))
        × Fired r' q (stage_websocket_live children r' (frame_first, q, d) m.timerid_)
        × (stage_websocket_live children r (sent m, q, d) m.timerid_ ≡ ok (timer_first, q, d))
        × Fired r' q (stage_websocket_live children r' (timer_first, q, d) m.websocket_writerid_)
  stage_websocket_live_paced r r' m q d e e' v v' some_timer differ l l' =
      let frame_first = noted (sent m) m.websocket_writerid_ in
      let timer_first = noted (sent m) m.timerid_ in
      (
        waits r (sent m) q d m.websocket_writerid_ (ground arith),
        fires r' frame_first q d m.timerid_ e e' v v' (ground arith) l l',
        waits r (sent m) q d m.timerid_ (ground arith),
        fires r' timer_first q d m.websocket_writerid_ e e' v v' (ground arith) l l',
      )
