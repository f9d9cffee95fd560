-- ===== src/Runtime/Dispatch.antt =====
-- `ThreadData::process_queued` and its six parts (src/common/thread_data.cpp): what an event queued
-- is turned into messages for the threads, ring submissions and entries of the thread's tables.
-- `q` holds the queues of the event and `ctx` names its context.
use localsoftware.Common.{
  ℕ, true, false, ◌&&◌, List, [], ◌∷◌, ◌++◌, Option, none, some, set, ◌==◌, if◌then◌else◌,
}
use localsoftware.Common.Int.{pos}
use localsoftware.Common.Maps.{lookup, insert, erase, nat_eq}
use localsoftware.Runtime.Types.{
  EventInfo, Locator, IoUringData, QueuedConstruct, QueuedFunction, QueuedUring, QueuedTimer,
  QueuedDelete, Timespec, TargetInfo, constructor_call, function_call, delete, event_data, timer,
  timer_update, Result, ok, ◌>>=◌, or_fault, undefined_behaviour, invalid_argument, nobody,
}
use localsoftware.Runtime.Event.{
  Queues, cleared, slots, get_evinfo, global_to_local, global_to_local_tim, translate_tim_local,
  translate_proc_local,
}
use localsoftware.Runtime.Balance.{find_target_thread}
use localsoftware.Runtime.State.{
  World, Object, TimerData, ChildInfo, prepared, start_timeout, remove_timeout, update_timeout,
  push, object, set_object, context_of, set_context, get_proc_id, get_obj_id, get_tim_id, put_sqe,
}

abbrev pub with_locator : IoUringData → ℕ → ℕ → EventInfo → Locator → IoUringData
with_locator d ty idx e l = record d {
  sub_events = insert ty (set (slots d ty) idx (some (record e { locator = some l }))) d.sub_events;
}

abbrev pub default_child : ChildInfo
default_child = record { thread = 0; procedures = [] }

module _ {S : Type 0} where
  abbrev pub child_of : Object S → ℕ → ChildInfo
  child_of o id = elim (lookup id o.children) [ none ↦ default_child | some c ↦ c ]

  abbrev pub set_child : World S → ℕ → ℕ → ChildInfo → World S
  set_child w obj child c =
      set_object w obj (record (object w obj) { children = insert child c (object w obj).children })

  abbrev pub target_of : World S → List ℕ → Result ℕ
  target_of w threads =
      or_fault (find_target_thread w.thread w.load_avg threads) undefined_behaviour

  -- An empty slot is passed over.
  unfoldable pub construct_in :
      World S → ℕ → TargetInfo → QueuedConstruct → Option EventInfo → Result (World S)
  construct_in w ctx ti c none = ok w
  construct_in w ctx ti c (some e) = do
    run_thread ← target_of w []
    let (new_obj_id, w1) = get_obj_id w
    let w2 = set_context w1 ctx (
        with_locator (context_of w1 ctx) c.idx c.vidx e
          (record { object_id = new_obj_id; thread_id = run_thread ∷ [] }))
    let w3 = set_child w2 ti.obj_id new_obj_id default_child
    push w3 w3.thread (
        constructor_call c.fun
          (record { thread_id = pos run_thread; obj_id = ti.obj_id; proc_id = ti.proc_id })
          (record { obj_id = new_obj_id; proc_id = nobody }) c.uring_data)

  unfoldable pub construct_one : World S → ℕ → TargetInfo → QueuedConstruct → Result (World S)
  unfolding construct_in
  construct_one w ctx ti c = do
    opt_ev ← get_evinfo (context_of w ctx) c.idx c.vidx
    construct_in w ctx ti c opt_ev

  unfoldable pub function_in :
      World S → ℕ → TargetInfo → QueuedFunction → Option EventInfo → Result (World S)
  function_in w ctx ti f none = ok w
  function_in w ctx ti f (some e) = do
    l ← or_fault e.locator invalid_argument
    target_thread ← target_of w l.thread_id
    let (proc_id, w1) = get_proc_id w
    let info = child_of (object w1 ti.obj_id) l.object_id
    let w2 =
        set_child w1 ti.obj_id l.object_id
          (record { thread = w1.thread; procedures = proc_id ∷ info.procedures })
    let w3 = set_context w2 ctx (global_to_local (context_of w2 ctx) proc_id f.local_id)
    push w3 target_thread (
        function_call f.fun
          (record { thread_id = pos w3.thread; obj_id = ti.obj_id; proc_id = ti.proc_id })
          (record { obj_id = l.object_id; proc_id = proc_id }))

  unfoldable pub function_one : World S → ℕ → TargetInfo → QueuedFunction → Result (World S)
  unfolding function_in
  function_one w ctx ti f = do
    opt_ev ← get_evinfo (context_of w ctx) f.idx f.vidx
    function_in w ctx ti f opt_ev

  -- With no free entry the operation is dropped.
  unfoldable pub uring_one : World S → TargetInfo → QueuedUring → World S
  uring_one w ti u = elim (put_sqe w (prepared u.fun) (event_data u.op ti.obj_id ti.proc_id)) [
    | none ↦ w
    | some w' ↦ w'
  ]

  -- The timers do not check the entry. A timer of the thread is removed or changed,
  unfoldable pub change_timer : World S → ℕ → TimerData → Timespec → Result (World S)
  change_timer w id old time =
      if (time.tv_nsec == 0) && (time.tv_sec == 0)
      then or_fault (put_sqe w (remove_timeout id) (timer_update id true)) undefined_behaviour
      else or_fault
          (put_sqe (record w { timers = insert id (record old { ts = time }) w.timers })
            (update_timeout id time) (timer_update id false))
          undefined_behaviour

  -- and one that it does not have is started.
  unfoldable pub add_timer : World S → ℕ → TargetInfo → QueuedTimer → Result (World S)
  add_timer w ctx ti t =
      let (id, w1) = get_tim_id w in
      let w2 = set_context w1 ctx (global_to_local_tim (context_of w1 ctx) id t.local_id) in
      or_fault
        (put_sqe
          (record w2 { timers = insert id (record { obj_id = ti.obj_id; ts = t.time }) w2.timers })
          (start_timeout id t.time) (timer id ti.obj_id ti.proc_id))
        undefined_behaviour

  unfoldable pub timer_one : World S → ℕ → TargetInfo → QueuedTimer → Result (World S)
  unfolding change_timer add_timer
  timer_one w ctx ti t =
      let id = translate_tim_local (context_of w ctx) t.local_id in
      elim (lookup id w.timers) [
        | some old ↦ change_timer w id old t.time
        | none ↦ add_timer w ctx ti t
      ]

  unfoldable pub delete_on : World S → TargetInfo → ℕ → List ℕ → Result (World S)
  delete_on w ti obj_id [] = ok w
  delete_on w ti obj_id (id ∷ threads) = do
    w' ← push w id (
        delete (record { thread_id = pos w.thread; obj_id = ti.obj_id; proc_id = ti.proc_id })
          (record { obj_id = obj_id; proc_id = nobody }))
    delete_on w' ti obj_id threads

  unfoldable pub delete_one : World S → TargetInfo → QueuedDelete → Result (World S)
  delete_one w ti d = do
    w' ← delete_on w ti d.obj_id d.thread
    ok (
        set_object w' ti.obj_id (record (object w' ti.obj_id) {
          children = erase d.obj_id (object w' ti.obj_id).children;
        }))

  unfoldable pub attach_one : World S → ℕ → TargetInfo → ℕ → World S
  attach_one w ctx ti local =
      let id = translate_proc_local (context_of w ctx) local in
      let notified : List (ℕ × ℕ) = elim (lookup id w.also_notify) [ none ↦ [] | some l ↦ l ] in
      record w { also_notify = insert id (notified ++ (ti.obj_id, ti.proc_id) ∷ []) w.also_notify }

  -- The loops over the queues, in their order.
  unfoldable pub each {ℓ} :
      {A : Type ℓ} → (World S → A → Result (World S)) → World S → List A → Result (World S)
  each body w [] = ok w
  each body w (x ∷ xs) = do w' ← body w x; each body w' xs

  -- `ptr->clear()`: the queues of the event object `obj`.
  abbrev pub clear_queues : World S → ℕ → World S
  clear_queues w obj = set_object w obj (record (object w obj) {
    ptr = elim (object w obj).ptr [ none ↦ none | some e ↦ some (record e { queues = cleared }) ];
  })

  unfoldable pub process_queued : World S → Queues → ℕ → TargetInfo → Result (World S)
  process_queued w q ctx ti = do
    w1 ← each (λ w c. construct_one w ctx ti c) w q.construct_
    w2 ← each (λ w f. function_one w ctx ti f) w1 q.function_
    w3 ← each (λ w u. ok (uring_one w ti u)) w2 q.uring_
    w4 ← each (λ w t. timer_one w ctx ti t) w3 q.timer_
    w5 ← each (λ w d. delete_one w ti d) w4 q.delete_
    w6 ← each (λ w a. ok (attach_one w ctx ti a)) w5 q.attach_
    ok (clear_queues w6 ti.obj_id)
