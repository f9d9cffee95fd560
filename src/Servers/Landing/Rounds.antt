-- ===== src/Servers/Landing/Rounds.antt =====
-- One round of a landing connection: a request is read and answered, and the next one is awaited.
use localsoftware.Common.{
  ℕ, suc, ◌≡◌, refl, ap, map, true, false, List, [], ◌∷◌, ◌++◌, Option, none, some,
}
use localsoftware.Common.Int.{pos, positive}
use localsoftware.Common.Maps.{lookup, nat_eq}
use localsoftware.Runtime.Types.{
  EventInfo, IoUringData, CallStatus, FunctionFunc, QueuedFunction, child_task_completion, ok,
}
use localsoftware.Runtime.Event.{Queues, call_at, start_timer, cancel_timer}
use localsoftware.Runtime.Event.First.{call_first-zero, direct_access-zero}
use localsoftware.Servers.Landing.{
  Http, Connection, State, ts, handle_request, handle_response, on_yield,
}

map_one :
    (fs : List QueuedFunction) (f : QueuedFunction)
    → map (λ f. f.fun) (fs ++ f ∷ []) ≡ map (λ f. f.fun) fs ++ f.fun ∷ []
map_one [] f = refl
map_one (x ∷ fs) f = ap (λ l. x.fun ∷ l) (map_one fs f)

module _ (http : Http) where
  read_done :
      (c : Connection) (q : Queues) (d : IoUringData) (calling task n obj : ℕ) (status : CallStatus)
      (e : EventInfo) (v : List (Option EventInfo)) (write_http : FunctionFunc)
      → c.op_read ≡ true
      → lookup http.class d.sub_events ≡ some (some e ∷ v)
      → e.event ≡ some obj
      → http.alive obj ≡ true
      → http.respond obj ≡ ok write_http
      → let (q1, d1, _) = call_at (cancel_timer q c.timer_) d http.class 0 write_http in
        on_yield http c q d (child_task_completion calling task status (pos (suc n)))
        ≡ ok ((record c { op_read = false }, q1, d1), none)
  unfolding on_yield handle_request
  read_done c q d calling task n obj status e v write_http r h k a s =
      rw
        (
          positive n,
          r,
          direct_access-zero d http.alive http.class obj e v h k a,
          s,
          call_first-zero (cancel_timer q c.timer_) d http.class write_http e v h,
        )
        refl

  write_done :
      (c : Connection) (q : Queues) (d : IoUringData) (calling task n : ℕ) (status : CallStatus)
      (e : EventInfo) (v : List (Option EventInfo))
      → c.op_read ≡ false
      → lookup http.class d.sub_events ≡ some (some e ∷ v)
      → let (q1, d1, timer) = start_timer q d ts in
        let (q2, d2, _) = call_at q1 d1 http.class 0 http.read_http in
        on_yield http c q d (child_task_completion calling task status (pos (suc n)))
        ≡ ok ((record { op_read = true; timer_ = timer }, q2, d2), none)
  unfolding on_yield handle_response start_timer
  write_done c q d calling task n status e v r h =
      rw
        (
          positive n,
          r,
          call_first-zero (start_timer q d ts).0 (start_timer q d ts).1 http.class http.read_http e
              v h,
        )
        refl

  -- While a connection reads and its HTTP child is alive: when the request has come, exactly one call is
  -- queued, the write of the response to it, and the timer is cancelled, nothing else being done to the
  -- timers, and the connection does not read; when the response is written, exactly one further read is
  -- called and exactly one new timer of three minutes is started, and the connection reads again. It
  -- does not end in between.
  pub on_yield_round :
      (c : Connection) (q : Queues) (d : IoUringData) (calling task task' n n' obj : ℕ)
      (status : CallStatus) (e : EventInfo) (v : List (Option EventInfo))
      (write_http : FunctionFunc)
      → c.op_read ≡ true
      → lookup http.class d.sub_events ≡ some (some e ∷ v)
      → e.event ≡ some obj
      → http.alive obj ≡ true
      → http.respond obj ≡ ok write_http
      → (s : State) × (s' : State) × (on_yield http c q d
            (child_task_completion calling task status (pos (suc n)))
          ≡ ok (s, none))
        × (on_yield http s.0 s.1 s.2 (child_task_completion calling task' status (pos (suc n')))
            ≡ ok (s', none))
        × (s.0.op_read ≡ false)
        × (map (λ f. f.fun) s.1.function_ ≡ map (λ f. f.fun) q.function_ ++ write_http ∷ [])
        × (s.1.timer_
            ≡ q.timer_
              ++ record { local_id = c.timer_; time = record { tv_sec = 0; tv_nsec = 0 } } ∷ [])
        × (s'.0.op_read ≡ true)
        × (map (λ f. f.fun) s'.1.function_ ≡ map (λ f. f.fun) s.1.function_ ++ http.read_http ∷ [])
        × (s'.1.timer_
            ≡ s.1.timer_
              ++ record { local_id = s'.0.timer_; time = record { tv_sec = 180; tv_nsec = 0 } }
                ∷ [])
  unfolding start_timer cancel_timer call_at
  on_yield_round c q d calling task task' n n' obj status e v write_http r h k a s =
      let (q1, d1, _) = call_at (cancel_timer q c.timer_) d http.class 0 write_http in
      let (q2, d2, timer) = start_timer q1 d1 ts in
      let (q3, d3, _) = call_at q2 d2 http.class 0 http.read_http in
      let c1 : Connection = record c { op_read = false } in
      (
        (c1, q1, d1),
        (record { op_read = true; timer_ = timer }, q3, d3),
        read_done c q d calling task n obj status e v write_http r h k a s,
        write_done c1 q1 d1 calling task' n' status e v refl h,
        refl,
        map_one q.function_ _,
        refl,
        refl,
        map_one q1.function_ _,
        refl,
      )
