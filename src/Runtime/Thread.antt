-- ===== src/Runtime/Thread.antt =====
-- `ThreadData`'s message loop (src/common/thread_data.cpp): `handle_dequeue` and the handlers of the
-- messages, and `process_uring`, which turns ring completions into messages. The code of the event
-- classes, their constructors, their functions and `on_yield`, is the parameter `code`; it works on
-- the event's state and queues and on its context, and may throw.
pub mod Calls
pub mod Notify
use localsoftware.Common.{
  ℕ, zero, suc, ◌+◌, ◌-◌, ◌^◌, Bool, true, false, not, ◌||◌, List, [], ◌∷◌, ◌++◌, Option, none,
  some, get_elem?, set, length, ltb, if◌then◌else◌,
}
use localsoftware.Common.Int.{ℤ, pos, negsuc, leb_ℤ, beq_ℤ}
use localsoftware.Common.Maps.{Map, lookup, insert, erase, contains, nat_eq}
use localsoftware.Runtime.Types.{
  IoUringData, TypeIndex, fresh_data, ConstructFunc, FunctionFunc, SqeFunc, CallStatus, degraded,
  failed, running, finished, EventType, io_uring_result, timeout, child_task_completion,
  CallResponse, CallerInfo, TargetInfo, Message, constructor_call, function_call, delete, deliver,
  root_start, cqe_ready, Attached, event_data, timer, timer_update, co_event, Result, ok, err,
  ◌>>=◌, or_fault, undefined_behaviour, nobody,
}
use localsoftware.Runtime.Coro.{CoCall, co_calls}
use localsoftware.Runtime.Event.{Queues, cleared, enter_slot, map_event_data}
use localsoftware.Runtime.State.{
  World, Object, Instance, CallData, ChildInfo, push, object, set_object, no_object, call_of,
  set_call, context_of, set_context, get_proc_id,
}
use localsoftware.Runtime.Dispatch.{process_queued, each}

-- What the event classes do.
pub record Code (S : Type 0) : Type 0 where
  pub make : ℕ → IoUringData → Result (S × Queues × IoUringData)
  pub call :
      FunctionFunc → S → Queues → IoUringData → ℕ → Result (S × Queues × IoUringData × CallResponse)
  pub on_yield :
      S → Queues → IoUringData → EventType → Result (S × Queues × IoUringData × Option (Bool × ℤ))
  -- `coroutine_handle::resume`: what the coroutine calls until it is suspended again or ends, as it finds
  -- the thread.
  pub resume : ℕ → World S → List CoCall

-- The originator of a message that no event sent.
abbrev pub no_caller : CallerInfo
no_caller = record { thread_id = negsuc 0; obj_id = nobody; proc_id = nobody }

-- `static_cast<uint64_t>(thread_id)`.
abbrev pub as_index : ℤ → ℕ
as_index (pos n) = n
as_index (negsuc n) = 2 ^ 64 - (n + 1)

abbrev pub outcome : Bool → CallStatus
outcome fail = if fail then failed else finished

module _ {S : Type 0} (code : Code S) where
  -- `event_init`: the context that was handed over, or a new one.
  unfoldable pub adopt_context : World S → Option ℕ → ℕ × World S
  adopt_context w (some ctx) = (ctx, w)
  adopt_context w none = (
    w.next_context,
    record w {
      next_context = w.next_context + 1;
      contexts = insert w.next_context fresh_data w.contexts;
    },
  )

  -- The constructor's closure: the object is made, and entered in its parent's slot.
  unfoldable pub enter_parent :
      World S → Instance S → ℕ → Option (ℕ × TypeIndex × ℕ) → Result (Instance S × World S)
  enter_parent w e obj none = ok (e, w)
  enter_parent w e obj (some (parent, ty, loc)) = do
    d ← enter_slot (context_of w parent) ty loc obj
    ok (e, set_context w parent d)

  unfoldable pub run_constructor :
      World S → ConstructFunc → Option ℕ → ℕ → Result (Instance S × World S)
  run_constructor w f shared obj = do
    let (ctx, w1) = adopt_context w shared
    made ← code.make f.object (context_of w1 ctx)
    let (state, queues, d) = made
    enter_parent (set_context w1 ctx d) (record { state = state; queues = queues; context = ctx })
        obj f.slot

  -- `emplace` keeps an entry that is there already.
  abbrev pub emplace_object : World S → Instance S → CallerInfo → TargetInfo → World S
  emplace_object w e ci ti = elim (lookup ti.obj_id w.obj_info) [
    | some _ ↦ w
    | none ↦ set_object w ti.obj_id (record {
      ptr = some e;
      assoc_procs = [];
      parents = (ci.thread_id, ci.obj_id) ∷ [];
      children = [];
    })
  ]

  unfoldable pub construct_call :
      World S → ConstructFunc → CallerInfo → TargetInfo → Option ℕ → Result (World S)
  construct_call w f ci ti shared = do
    made ← run_constructor w f shared ti.obj_id
    let w2 = emplace_object made.1 made.0 ci ti
    held ← or_fault (object w2 ti.obj_id).ptr undefined_behaviour
    process_queued w2 held.queues held.context ti

  -- Run the class's code on the object: its state, queues and context change.
  unfoldable pub store_instance : World S → ℕ → Instance S → IoUringData → World S
  store_instance w obj e d =
      set_context (set_object w obj (record (object w obj) { ptr = some e })) e.context d

  -- What `function_call` notes of a call before and after it runs.
  abbrev pub enter_call : World S → CallerInfo → TargetInfo → World S
  enter_call w ci ti =
      let o = object w ti.obj_id in
      let w1 =
        set_object w ti.obj_id (record o { assoc_procs = o.assoc_procs ++ ti.proc_id ∷ [] }) in
      set_call w1 ti.proc_id (record (call_of w1 ti.proc_id) {
        assoc_obj = ti.obj_id;
        back_notify = ci;
        status = running;
      })

  abbrev pub note_response : World S → ℕ → CallResponse → World S
  note_response w proc resp = set_call w proc (record (call_of w proc) {
    op_hint = resp.op_hint;
    status = if resp.success then running else degraded;
  })

  abbrev pub note_return : World S → ℕ → Bool → ℤ → World S
  note_return w proc fail ret =
      set_call w proc (record (call_of w proc) { status = outcome fail; return_code = ret })

  -- The notification that `ti` is done, from this thread to the procedure that called it.
  abbrev pub completion : World S → TargetInfo → CallerInfo → Bool → ℤ → Message
  completion w ti ci fail ret =
      deliver (record { thread_id = pos w.thread; obj_id = ti.obj_id; proc_id = ti.proc_id })
        (record { obj_id = ci.obj_id; proc_id = ci.proc_id })
        (child_task_completion ci.proc_id ti.proc_id (outcome fail) ret)

  -- The end of `function_call`.
  unfoldable pub finish_call : World S → CallerInfo → TargetInfo → CallResponse → Result (World S)
  finish_call w ci ti resp =
      let w1 = note_response w ti.proc_id resp in
      elim resp.ret [
        | none ↦ ok w1
        | some (fail, ret) ↦
            let w2 = note_return w1 ti.proc_id fail ret in
            if ltb (as_index ci.thread_id) (length w2.work)
            then push w2 (as_index ci.thread_id) (completion w2 ti ci fail ret)
            else ok w2
      ]

  unfoldable pub call_function : World S → FunctionFunc → CallerInfo → TargetInfo → Result (World S)
  call_function w f ci ti = do
    let w1 = enter_call w ci ti
    e ← or_fault (object w1 ti.obj_id).ptr undefined_behaviour
    done ← code.call f e.state e.queues (context_of w1 e.context) ti.proc_id
    let (state, queues, d, resp) = done
    let w2 = store_instance w1 ti.obj_id (record e { state = state; queues = queues }) d
    w3 ← process_queued w2 queues e.context ti
    finish_call w3 ci ti resp

  -- The completion that `data_received` sends: here the thread is not checked.
  unfoldable pub report_yield : World S → TargetInfo → Option (Bool × ℤ) → Result (World S)
  report_yield w ti none = ok w
  report_yield w ti (some (fail, ret)) =
      let w1 = set_call w ti.proc_id (record (call_of w ti.proc_id) { status = outcome fail }) in
      let back = (call_of w1 ti.proc_id).back_notify in
      push w1 (as_index back.thread_id) (completion w1 ti back fail ret)

  -- The copies for the procedures attached to this one, on this thread.
  unfoldable pub notify_attached : World S → CallerInfo → ℕ → EventType → Result (World S)
  notify_attached w ci proc event = elim (lookup proc w.also_notify) [
    | none ↦ ok w
    | some l ↦
        each (λ w p. push w w.thread (deliver ci (record { obj_id = p.0; proc_id = p.1 }) event)) w
          l
  ]

  -- `data_received` once the object and the procedure are known to exist.
  unfoldable pub deliver_to :
      World S → Instance S → CallerInfo → TargetInfo → EventType → Result (World S)
  deliver_to w e ci ti event = do
    let (mapped, d) = map_event_data (context_of w e.context) event
    done ← code.on_yield e.state e.queues d mapped
    let (state, queues, d', res) = done
    let w1 = store_instance w ti.obj_id (record e { state = state; queues = queues }) d'
    w2 ← process_queued w1 queues e.context ti
    w3 ← report_yield w2 ti res
    notify_attached w3 ci ti.proc_id mapped

  unfoldable pub data_received : World S → CallerInfo → TargetInfo → EventType → Result (World S)
  data_received w ci ti event =
      if not (contains ti.obj_id w.obj_info) || not (contains ti.proc_id w.proc_to_dat)
      then ok w
      else (do
        e ← or_fault (object w ti.obj_id).ptr undefined_behaviour
        deliver_to w e ci ti event)

  -- The handler of `Delete`: the children are deleted on behalf of the caller.
  unfoldable pub delete_children : World S → CallerInfo → Map ℕ ChildInfo → Result (World S)
  delete_children w ci [] = ok w
  delete_children w ci ((id, c) ∷ rest) = do
    w' ← push w c.thread (delete ci (record { obj_id = id; proc_id = nobody }))
    delete_children w' ci rest

  abbrev pub erase_calls : Map ℕ CallData → List ℕ → Map ℕ CallData
  erase_calls m [] = m
  erase_calls m (p ∷ ps) = erase_calls (erase p m) ps

  abbrev pub deleted : World S → TargetInfo → Object S → Result (World S)
  deleted w ti o = ok (record w {
    proc_to_dat = erase_calls w.proc_to_dat o.assoc_procs;
    obj_info = erase ti.obj_id w.obj_info;
  })

  unfoldable pub delete_object : World S → CallerInfo → TargetInfo → Result (World S)
  delete_object w ci ti = do
    let o = object w ti.obj_id
    w1 ← delete_children w ci o.children
    deleted w1 ti o

  -- A root event becomes a construction and a call, both from nobody.
  unfoldable pub start_root : World S → ConstructFunc → FunctionFunc → TargetInfo → Result (World S)
  start_root w f init ti = do
    w1 ←
        push w w.thread
          (constructor_call f no_caller (record { obj_id = ti.obj_id; proc_id = nobody }) none)
    push w1 w1.thread (function_call init no_caller ti)

  -- The result is stored where the awaitable waits, and the coroutine goes on.
  unfoldable pub wake : World S → ℕ → ℤ → World S
  wake w id result = elim (lookup id w.readiness_waiters) [
    | none ↦ w
    | some r ↦ elim r.handle [
      | none ↦ w
      | some h ↦
          let w1 = record w {
            cells = insert r.result result w.cells;
            resumed = w.resumed ++ h ∷ [];
          } in
          co_calls w1 (code.resume h w1)
    ]
  ]

  unfoldable pub handle : World S → Message → Result (World S)
  handle w (constructor_call f ci ti shared) = construct_call w f ci ti shared
  handle w (function_call f ci ti) = call_function w f ci ti
  handle w (delete ci ti) = delete_object w ci ti
  handle w (deliver ci ti event) = data_received w ci ti event
  handle w (root_start f init ti) = start_root w f init ti
  handle w (cqe_ready id result) = ok (wake w id result)

  -- `io_uring_submit`: the kernel takes the queue, whose `entries` are free again.
  abbrev pub submit : ℕ → World S → World S
  submit entries w = record w { submitted = w.submitted ++ w.ring; ring = []; sq_space = entries }

  -- Whether a message was handled, and the state after it. The ring has 512 entries.
  unfoldable pub handle_dequeue : World S → Result (Bool × World S)
  handle_dequeue w = do
    q ← or_fault (get_elem? w.work w.thread) undefined_behaviour
    elim q [
      | [] ↦ ok (false, w)
      | m ∷ rest ↦ do
        w' ← handle (record w { work = set w.work w.thread rest }) m
        ok (true, submit 512 w')
    ]

  -- One completion of `process_uring`; -62 is -ETIME.
  unfoldable pub complete_one : World S → Attached × ℤ → Result (World S)
  complete_one w (event_data op obj_id proc_id, res) = push w w.thread (
      deliver no_caller (record { obj_id = obj_id; proc_id = proc_id })
        (io_uring_result proc_id op res))
  complete_one w (timer timer_id obj_id proc_id, res) =
      if beq_ℤ res (negsuc 61)
      then push w w.thread
          (deliver no_caller (record { obj_id = obj_id; proc_id = proc_id }) (timeout timer_id))
      else ok w
  complete_one w (timer_update timer_id remove, res) =
      if leb_ℤ (pos 0) res
      then (if remove then ok (record w { timers = erase timer_id w.timers }) else ok w)
      else ok w
  complete_one w (co_event id, res) = push w w.thread (cqe_ready id res)

  unfoldable pub process_uring : World S → List (Attached × ℤ) → Result (World S)
  process_uring w cqes = each complete_one w cqes

  -- The rounds of the inner loop of `run`, up to 256: whether the queue was still not empty.
  unfoldable pub drain : ℕ → World S → Result (Bool × World S)
  drain zero w = ok (true, w)
  drain (suc rounds) w = do
    done ← handle_dequeue w
    if done.0 then drain rounds done.1 else ok (false, done.1)

  -- One round of `run`, with the completions that the wait returned.
  unfoldable pub tick : World S → List (Attached × ℤ) → Result (Bool × World S)
  tick w cqes = do w1 ← process_uring w cqes; drain 256 w1
