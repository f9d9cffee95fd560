-- ===== src/Servers/Tests.antt =====
-- The theorems about the acceptors at concrete states.
use localsoftware.Common.{ℕ, ◌+◌, ◌≡◌, ◌≢◌, refl, false, [], ◌∷◌, ◌++◌, none, some}
use localsoftware.Common.Int.{pos, negsuc}
use localsoftware.Common.Maps.{lookup, nat_eq}
use localsoftware.Runtime.Types.{
  EventInfo, IoUringData, QueuedUring, fresh_data, finished, child_task_completion, io_uring_result,
  ok,
}
use localsoftware.Runtime.Event.{Queues, cleared, construct}
use localsoftware.Runtime.Event.Slots.{child, emptied, Constructed}
use localsoftware.Servers.Accept.{Service, Acceptor, landing_on_yield, monitor_on_yield}
use localsoftware.Servers.Accept.Lifecycle.{accepted_lem, closed_lem}
use localsoftware.Common.{map, true}
use localsoftware.Servers.Landing.{Http, Connection, State, on_yield}
use localsoftware.Servers.Landing.Rounds.{on_yield_round}

abbrev landing : Service
landing = record { class = 1; connection = λ fd. fd; start = 7; accept = λ op fd. 10 + op }

abbrev acceptor : Acceptor
acceptor = record { own = 9; ipv4 = 3; ipv6 = 4; indices = (0, 0) ∷ [] }

abbrev client : EventInfo
client = record { locator = some (record { object_id = 5; thread_id = 1 ∷ [] }); event = some 5 }

abbrev context : IoUringData
context = record fresh_data { sub_events = (1, some client ∷ []) ∷ []; local_proc_id = 1 }

accepted_lem_example :
    let idx = (construct cleared context 9 1 20 false).2 in
    let next : QueuedUring = record { op = 0; fun = 10 } in
    ((a' : Acceptor) × (q' : Queues) × (d' : IoUringData) × (landing_on_yield landing acceptor
          cleared context
          (io_uring_result 2 0 (pos 20))
        ≡ ok (a', q', d'))
      × Constructed cleared context 9 1 20 false q' d' idx
      × (q'.function_ ≡ record { idx = 1; vidx = idx; local_id = 1; fun = 7 } ∷ [])
      × (q'.uring_ ≡ next ∷ [])
      × (lookup 1 a'.indices ≡ some idx))
    × (landing_on_yield landing acceptor cleared context (io_uring_result 2 0 (negsuc 3))
        ≡ ok (acceptor, record cleared { uring_ = next ∷ [] }, context))
accepted_lem_example = accepted_lem landing acceptor cleared context 2 0 20 3

closed_lem_example :
    let gone = record cleared { delete_ = record { thread = 1 ∷ []; obj_id = 5 } ∷ [] } in
    let event = child_task_completion 2 0 finished (pos 1) in
    ((a' : Acceptor) × (landing_on_yield landing acceptor cleared context event
        ≡ ok (a', gone, emptied context 1 0))
      × (lookup 0 a'.indices ≡ none))
    × (monitor_on_yield landing acceptor cleared context event
        ≡ ok (acceptor, gone, emptied context 1 0))
    × (child (emptied context 1 0) 1 0 ≡ none)
    × ((i : ℕ) → i ≢ 0 → child (emptied context 1 0) 1 i ≡ child context 1 i)
unfolding lookup
closed_lem_example =
    closed_lem landing acceptor cleared context 2 0 0 finished (pos 1) client
      (record { object_id = 5; thread_id = 1 ∷ [] }) refl refl refl

abbrev http : Http
http = record { class = 1; read_http = 3; respond = λ obj. ok (100 + obj); alive = λ obj. true }

abbrev reading : Connection
reading = record { op_read = true; timer_ = 0 }

abbrev http_context : IoUringData
http_context = record context { local_timer_id = 1 }

on_yield_round_example :
    (s : State) × (s' : State) × (on_yield http reading cleared http_context
        (child_task_completion 2 0 finished (pos 1))
      ≡ ok (s, none))
    × (on_yield http s.0 s.1 s.2 (child_task_completion 2 1 finished (pos 1)) ≡ ok (s', none))
    × (s.0.op_read ≡ false)
    × (map (λ f. f.fun) s.1.function_ ≡ 105 ∷ [])
    × (s.1.timer_ ≡ record { local_id = 0; time = record { tv_sec = 0; tv_nsec = 0 } } ∷ [])
    × (s'.0.op_read ≡ true)
    × (map (λ f. f.fun) s'.1.function_ ≡ map (λ f. f.fun) s.1.function_ ++ 3 ∷ [])
    × (s'.1.timer_
        ≡ s.1.timer_
          ++ record { local_id = s'.0.timer_; time = record { tv_sec = 180; tv_nsec = 0 } } ∷ [])
unfolding lookup
on_yield_round_example =
    on_yield_round http reading cleared http_context 2 0 1 0 0 5 finished client [] 105 refl refl
      refl refl refl
