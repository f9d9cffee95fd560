-- ===== src/Runtime/Tests.antt =====
-- Runs of the runtime, and the theorems about it at concrete states.
use localsoftware.Common.{
  ℕ, ◌+◌, ◌∷◌, ◌++◌, ◌≡◌, ◌≢◌, refl, Bool, true, false, List, [], none, some, set, ◌≤◌, arith,
}
use localsoftware.Common.Int.{ℤ, pos, negsuc}
use localsoftware.Common.Maps.{lookup, erase, nat_eq}
use localsoftware.Runtime.Ids.{IdRange, run, initial, step, get_id}
use localsoftware.Runtime.Ids.Distinct.{Distinct, run-Distinct}
use localsoftware.Runtime.Types.{
  EventInfo, IoUringData, fresh_data, QueuedFunction, CallResponse, CallStatus, running, CallerInfo,
  TargetInfo, EventType, Message, function_call, delete, child_task_completion, ok, nobody,
}
use localsoftware.Runtime.Event.{
  cleared, construct, get_evinfo, destroy, map_event_data, translate_proc_local,
}
use localsoftware.Runtime.Event.Slots.{
  child, emptied, Constructed, construct-Constructed, destroy-construct,
}
use localsoftware.Runtime.Balance.{find_target_thread, survey, find_target_thread_total}
use localsoftware.Runtime.State.{World, Object, context_of, get_proc_id, push}
use localsoftware.Runtime.Dispatch.{function_one}
use localsoftware.Runtime.Thread.{Code, finish_call, delete_children, delete_object, handle_dequeue}
use localsoftware.Runtime.Thread.Calls.{Ended, finish_call-Ended}
use localsoftware.Runtime.Thread.Notify.{AllTold, receive_all, function_one_lem, delete_object_lem}
use localsoftware.Runtime.Order.Handlers.{Dequeued, handle_dequeue-Dequeued}

-- A class whose functions count their calls and return 7, and whose `on_yield` goes on.
abbrev counting : Code ℕ
counting = record {
  make = λ o d. ok (o, cleared, d);
  call = λ f s q d p.
      ok (s + 1, q, d, record { success = true; ret = some (false, pos 7); op_hint = 0 });
  on_yield = λ s q d e. ok (s, q, d, none);
  resume = λ h w. [];
}

abbrev no_ids : IdRange
no_ids = record { base = 0; curr = 0; started = false }

-- Where the child 5 is, in slot 0 of type 1.
abbrev placed : EventInfo
placed = record { locator = some (record { object_id = 5; thread_id = 1 ∷ [] }); event = some 5 }

abbrev parent_context : IoUringData
parent_context = record fresh_data { sub_events = (1, some placed ∷ none ∷ []) ∷ [] }

abbrev parent : Object ℕ
parent = record {
  ptr = some (record { state = 0; queues = cleared; context = 9 });
  assoc_procs = [];
  parents = [];
  children = (5, record { thread = 1; procedures = [] }) ∷ [];
}

abbrev caller : CallerInfo
caller = record { thread_id = pos 1; obj_id = 8; proc_id = 80 }

abbrev target : TargetInfo
target = record { obj_id = 4; proc_id = 40 }

-- Thread 0 of two, with one call in its queue.
abbrev world : World ℕ
world = record {
  thread = 0;
  proc_to_dat = [];
  obj_info = (4, parent) ∷ [];
  timers = [];
  also_notify = [];
  readiness_waiters = [];
  sqes = [];
  proc_ids = no_ids;
  obj_ids = no_ids;
  tim_ids = no_ids;
  work = (function_call 3 caller target ∷ []) ∷ (delete caller target ∷ []) ∷ [];
  load_avg = 100 ∷ 50 ∷ [];
  proc_block = 0;
  obj_block = 0;
  tim_block = 0;
  contexts = (9, parent_context) ∷ [];
  next_context = 10;
  ring = [];
  sq_space = 512;
  submitted = [];
  cells = [];
  resumed = [];
}

handle_dequeue-Dequeued_example : Dequeued counting world (handle_dequeue counting world)
handle_dequeue-Dequeued_example = handle_dequeue-Dequeued counting world

abbrev queued_call : QueuedFunction
queued_call = record { idx = 1; vidx = 0; local_id = 0; fun = 3 }

abbrev told : List Message
told = delete caller target ∷ []

function_one_lem_example :
    (w' : World ℕ) × (function_one world 9 target queued_call ≡ ok w')
    × (w'.work
        ≡ set world.work 1 (
            told
            ++ function_call 3
                (record { thread_id = pos 0; obj_id = 4; proc_id = 40 })
                (record { obj_id = 5; proc_id = (get_proc_id world).0 })
              ∷ []))
    × ((calling_id : ℕ) (status : CallStatus) (code : ℤ)
        → (map_event_data
            (context_of w' 9)
            (child_task_completion calling_id (get_proc_id world).0 status code)).0
          ≡ child_task_completion calling_id 0 status code)
    × (translate_proc_local (context_of w' 9) 0 ≡ (get_proc_id world).0)
unfolding lookup find_target_thread survey get_evinfo
function_one_lem_example =
    function_one_lem world 9 target queued_call placed
      (record { object_id = 5; thread_id = 1 ∷ [] }) 1 told refl refl refl refl

abbrev returned : CallResponse
returned = record { success = true; ret = some (true, negsuc 3); op_hint = 2 }

finish_call-Ended_example :
    Ended world caller target returned (finish_call counting world caller target returned)
finish_call-Ended_example = finish_call-Ended counting world caller target returned

-- The procedure 40, called by nobody.
abbrev root_world : World ℕ
root_world = record world {
  proc_to_dat =
      (
        40,
        record {
          assoc_obj = 4;
          status = running;
          op_hint = 0;
          back_notify = record { thread_id = negsuc 0; obj_id = nobody; proc_id = nobody };
          return_code = pos 0;
        },
      )
      ∷ [];
}

abbrev deleted_world : World ℕ
deleted_world = record world {
  obj_info = [];
  work =
      (function_call 3 caller target ∷ [])
      ∷ (delete caller target ∷ delete caller (record { obj_id = 5; proc_id = nobody }) ∷ [])
      ∷ [];
}

delete_object_lem_example :
    AllTold deleted_world.work caller parent.children
    × (lookup 4 deleted_world.obj_info ≡ none)
    × ((id : ℕ) → id ≢ 4 → lookup id deleted_world.obj_info ≡ lookup id world.obj_info)
    × ((events : List (CallerInfo × ℕ × EventType))
        → receive_all counting deleted_world 4 events ≡ ok deleted_world)
unfolding lookup erase delete_object delete_children push
delete_object_lem_example = delete_object_lem counting world deleted_world caller target refl

abbrev in_order : List ℕ
in_order = 0 ∷ 1 ∷ 0 ∷ 2 ∷ 1 ∷ []

run-Distinct_example : Distinct (run (initial (λ i. 5) (λ i. 1005)) in_order)
run-Distinct_example = run-Distinct (λ i. 5) (λ i. 1005) in_order (omega arith)

run_blocks : run (initial (λ i. 5) (λ i. 1005)) in_order ≡ 0 ∷ 1000 ∷ 1 ∷ 2000 ∷ 1001 ∷ []
unfolding run step get_id
run_blocks = refl

construct-Constructed_example :
    let (q', d', loc) = construct cleared parent_context 9 1 3 true in
    Constructed cleared parent_context 9 1 3 true q' d' loc
construct-Constructed_example = construct-Constructed cleared parent_context 9 1 3 true

destroy-construct_example :
    (destroy cleared parent_context 1 0
      ≡ ok (
        record cleared { delete_ = record { thread = 1 ∷ []; obj_id = 5 } ∷ [] },
        emptied parent_context 1 0,
      ))
    × (child (emptied parent_context 1 0) 1 0 ≡ none)
    × ((i : ℕ) → i ≢ 0 → child (emptied parent_context 1 0) 1 i ≡ child parent_context 1 i)
    × ((own object : ℕ) (shared : Bool)
        → (construct cleared (emptied parent_context 1 0) own 1 object shared).2 ≤ 0)
unfolding lookup
destroy-construct_example =
    destroy-construct cleared parent_context 1 0 placed
      (record { object_id = 5; thread_id = 1 ∷ [] }) refl refl

find_target_thread_total_example : find_target_thread 0 (900 ∷ 50 ∷ []) [] ≢ none
find_target_thread_total_example =
    find_target_thread_total 0 (900 ∷ 50 ∷ []) [] 1 50 refl (omega arith) refl
