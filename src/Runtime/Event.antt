-- ===== src/Runtime/Event.antt =====
-- src/common/event.{h,cpp} and event.t.cpp: the base class of every event. An event queues what it
-- wants done (constructions, calls, ring operations, timers, deletions, attachments), and the thread
-- carries the queues out afterwards. An operation takes the event's queues and the context
-- `uring_data_`, which events may share, and returns both.
pub mod First
pub mod Slots
pub mod Translate
use localsoftware.Common.{
  ℕ, ◌+◌, Bool, true, false, List, [], ◌∷◌, ◌++◌, Option, none, some, get_elem?, set, if◌then◌else◌,
}
use localsoftware.Common.Maps.{Map, lookup, insert, contains, nat_eq}
use localsoftware.Runtime.Ids.{u64}
use localsoftware.Runtime.Types.{
  TypeIndex, ConstructFunc, FunctionFunc, SqeFunc, EventInfo, IoUringData, QueuedConstruct,
  QueuedFunction, QueuedUring, QueuedTimer, QueuedDelete, Timespec, Locator, EventType, Fault,
  Result, ok, err, ◌>>=◌, or_fault, out_of_range, bad_optional, runtime_error, undefined_behaviour,
  nobody, call_started, timeout, io_uring_result, wakeup, child_task_completion,
}

pub record Queues : Type 0 where
  pub construct_ : List QueuedConstruct
  pub function_ : List QueuedFunction
  pub uring_ : List QueuedUring
  pub timer_ : List QueuedTimer
  pub delete_ : List QueuedDelete
  pub attach_ : List ℕ

-- `Event::clear`.
abbrev pub cleared : Queues
cleared = record {
  construct_ = [];
  function_ = [];
  uring_ = [];
  timer_ = [];
  delete_ = [];
  attach_ = [];
}

abbrev pub push_back {ℓ} : {A : Type ℓ} → List A → A → List A
push_back xs x = xs ++ x ∷ []

-- `sub_events[ty]`, an empty vector if there is none.
abbrev pub slots : IoUringData → TypeIndex → List (Option EventInfo)
slots d ty = elim (lookup ty d.sub_events) [ none ↦ [] | some v ↦ v ]

abbrev pub unresolved : EventInfo
unresolved = record { locator = none; event = none }

-- `find(vec.begin(), vec.end(), nullopt) - vec.begin()`.
pub find_empty : List (Option EventInfo) → ℕ
find_empty [] = 0
find_empty (none ∷ v) = 0
find_empty (some _ ∷ v) = find_empty v + 1

-- The slot that was found is filled, or a new one appended.
pub fill_empty : List (Option EventInfo) → EventInfo → List (Option EventInfo)
fill_empty [] e = some e ∷ []
fill_empty (none ∷ v) e = some e ∷ v
fill_empty (some x ∷ v) e = some x ∷ fill_empty v e

-- `construct`, behind `i` and `i_s` (`shared`). `own` names the event's context, `object` the class
-- and the arguments.
unfoldable pub construct :
    Queues → IoUringData → ℕ → TypeIndex → ℕ → Bool → Queues × IoUringData × ℕ
unfolding find_empty fill_empty insert lookup
construct q d own ty object shared =
    let loc = find_empty (slots d ty) in
    (
      record q {
        construct_ = push_back q.construct_ (record {
          idx = ty;
          vidx = loc;
          fun = record { object = object; slot = some (own, ty, loc) };
          uring_data = if shared then some own else none;
        });
      },
      record d { sub_events = insert ty (fill_empty (slots d ty) unresolved) d.sub_events },
      loc,
    )

-- The closure that `construct` queues, when it runs: the new object is entered in its slot.
pub enter_slot : IoUringData → TypeIndex → ℕ → ℕ → Result IoUringData
unfolding insert lookup
enter_slot d ty loc obj = elim (get_elem? (slots d ty) loc) [
  | some (some e) ↦ ok (record d {
    sub_events =
        insert ty (set (slots d ty) loc (some (record e { event = some obj }))) d.sub_events;
  })
  | _ ↦ err undefined_behaviour
]

-- `c(idx, fun, args...)`.
unfoldable pub call_at :
    Queues → IoUringData → TypeIndex → ℕ → FunctionFunc → Queues × IoUringData × ℕ
call_at q d ty idx fun = (
  record q {
    function_ =
        push_back q.function_
          (record { idx = ty; vidx = idx; local_id = d.local_proc_id; fun = fun });
  },
  record d { local_proc_id = u64 (d.local_proc_id + 1) },
  d.local_proc_id,
)

-- `find_if_not(…, ev == nullopt)`.
unfoldable pub find_filled : List (Option EventInfo) → Option ℕ
find_filled [] = none
find_filled (some _ ∷ v) = some 0
find_filled (none ∷ v) = elim (find_filled v) [ none ↦ none | some i ↦ some (i + 1) ]

-- `c(fun, args...)`: the call goes to the first child of the type.
unfoldable pub call_first :
    Queues → IoUringData → TypeIndex → FunctionFunc → Result (Queues × IoUringData × ℕ)
unfolding call_at find_filled lookup
call_first q d ty fun = do
  v ← or_fault (lookup ty d.sub_events) out_of_range
  idx ← or_fault (find_filled v) runtime_error
  ok (call_at q d ty idx fun)

-- `c(op, liburing, args...)`.
unfoldable pub call_uring : Queues → ℕ → SqeFunc → Queues
call_uring q op fun = record q { uring_ = push_back q.uring_ (record { op = op; fun = fun }) }

-- `d<Obj>(idx)`.
unfoldable pub destroy : Queues → IoUringData → TypeIndex → ℕ → Result (Queues × IoUringData)
unfolding insert lookup
destroy q d ty idx = do
  v ← or_fault (lookup ty d.sub_events) out_of_range
  slot ← or_fault (get_elem? v idx) out_of_range
  e ← or_fault slot bad_optional
  l ← or_fault e.locator undefined_behaviour
  ok (
    record q {
      delete_ = push_back q.delete_ (record { thread = l.thread_id; obj_id = l.object_id });
    },
    record d { sub_events = insert ty (set v idx none) d.sub_events },
  )

-- `direct_access`: the object to call, `none` if it has expired. `alive` is `weak_ptr::lock`.
unfoldable pub direct_access : IoUringData → (ℕ → Bool) → TypeIndex → ℕ → Result (Option ℕ)
unfolding lookup
direct_access d alive ty idx = do
  v ← or_fault (lookup ty d.sub_events) out_of_range
  slot ← or_fault (get_elem? v idx) out_of_range
  e ← or_fault slot bad_optional
  ok (elim e.event [ none ↦ none | some obj ↦ if alive obj then some obj else none ])

unfoldable pub attach : Queues → ℕ → Queues
attach q id = record q { attach_ = push_back q.attach_ id }

-- `timer`.
unfoldable pub start_timer : Queues → IoUringData → Timespec → Queues × IoUringData × ℕ
start_timer q d ts = (
  record q { timer_ = push_back q.timer_ (record { local_id = d.local_timer_id; time = ts }) },
  record d { local_timer_id = u64 (d.local_timer_id + 1) },
  d.local_timer_id,
)

unfoldable pub cancel_timer : Queues → ℕ → Queues
cancel_timer q id = record q {
  timer_ = push_back q.timer_ (record { local_id = id; time = record { tv_sec = 0; tv_nsec = 0 } });
}

pub global_to_local : IoUringData → ℕ → ℕ → IoUringData
unfolding insert
global_to_local d global local = record d {
  global_proc_to_local_proc = insert global local d.global_proc_to_local_proc;
  local_proc_to_global_proc = insert local global d.local_proc_to_global_proc;
}

pub global_to_local_tim : IoUringData → ℕ → ℕ → IoUringData
unfolding insert
global_to_local_tim d global local = record d {
  global_tim_to_local_tim = insert global local d.global_tim_to_local_tim;
  local_tim_to_global_tim = insert local global d.local_tim_to_global_tim;
}

abbrev pub or_nobody : Option ℕ → ℕ
or_nobody none = nobody
or_nobody (some n) = n

pub translate_proc_local : IoUringData → ℕ → ℕ
unfolding lookup
translate_proc_local d local = or_nobody (lookup local d.local_proc_to_global_proc)

pub translate_proc_global : IoUringData → ℕ → ℕ
unfolding lookup
translate_proc_global d global = or_nobody (lookup global d.global_proc_to_local_proc)

pub translate_tim_local : IoUringData → ℕ → ℕ
unfolding lookup
translate_tim_local d local = or_nobody (lookup local d.local_tim_to_global_tim)

pub translate_tim_global : IoUringData → ℕ → ℕ
unfolding lookup
translate_tim_global d global = or_nobody (lookup global d.global_tim_to_local_tim)

-- `m[k]` on a map: a missing key is entered with 0.
unfoldable pub subscript : Map ℕ ℕ → ℕ → ℕ × Map ℕ ℕ
unfolding lookup insert
subscript m k = elim (lookup k m) [ none ↦ (0, insert k 0 m) | some v ↦ (v, m) ]

pub map_event_data : IoUringData → EventType → EventType × IoUringData
unfolding subscript
map_event_data d (child_task_completion calling_id task_id status return_code) =
    let (id, m) = subscript d.global_proc_to_local_proc task_id in
    (
      child_task_completion calling_id id status return_code,
      record d { global_proc_to_local_proc = m },
    )
map_event_data d (timeout timer_id) =
    let (id, m) = subscript d.global_tim_to_local_tim timer_id in
    (timeout id, record d { global_tim_to_local_tim = m })
map_event_data d (call_started procedure_id type obj_idx) =
    let (id, m) = subscript d.global_proc_to_local_proc procedure_id in
    (call_started id type obj_idx, record d { global_proc_to_local_proc = m })
map_event_data d (io_uring_result calling_id op res) = (io_uring_result calling_id op res, d)
map_event_data d (wakeup task_id) = (wakeup task_id, d)

-- `get_evinfo`: `none` is an empty optional.
unfoldable pub get_evinfo : IoUringData → TypeIndex → ℕ → Result (Option EventInfo)
unfolding lookup
get_evinfo d ty idx = or_fault (get_elem? (slots d ty) idx) undefined_behaviour
