-- ===== src/Runtime/Order/Handlers.antt =====
-- The work queues before and after every handler of src/common/thread_data.cpp and `handle_dequeue`.
use localsoftware.Common.{
  ℕ, ◌≡◌, refl, Bool, true, false, List, [], ◌∷◌, ◌++◌, Option, none, some, get_elem?, set, inl,
  inr, ◌≢◌, get_elem?-set_ne, Option-cases, arith, ◌∙◌,
}
use localsoftware.Common.Int.{ℤ}
use localsoftware.Common.Maps.{Map, lookup, insert, nat_eq}
use localsoftware.Runtime.Types.{
  ConstructFunc, FunctionFunc, CallerInfo, TargetInfo, EventType, CallResponse, Message,
  constructor_call, function_call, delete, deliver, root_start, cqe_ready, Result, ok, err, ◌>>=◌,
  or_fault, undefined_behaviour, IoUringData, Fault, TypeIndex,
}
use localsoftware.Runtime.Event.{Queues, enter_slot}
use localsoftware.Runtime.State.{
  World, Instance, ChildInfo, Waiter, object, push, context_of, set_context,
}
use localsoftware.Runtime.Coro.{co_calls, co_calls-work}
use localsoftware.Runtime.Dispatch.{process_queued}
use localsoftware.Runtime.Thread.{
  Code, adopt_context, enter_parent, emplace_object, run_constructor, construct_call,
  store_instance, enter_call, finish_call, call_function, report_yield, notify_attached, deliver_to,
  data_received, delete_children, delete_object, start_root, wake, handle, submit, handle_dequeue,
}
use localsoftware.Runtime.Order.Loops.{
  Grows-refl, Extends, keeps, faults, push-Extends, get_elem?-set-some, Extends-bind, Extends-let,
  Extends-if, each-Extends, process_queued-Extends,
}

module _ {S : Type 0} (code : Code S) where
  -- The rule for a state with the same queues, where the rest is `process_queued`.
  same-Extends :
      (w v : World S) (r : Result (World S)) → w.work ≡ v.work → Extends v r → Extends w r
  same-Extends w v (ok u) e (keeps g) = keeps (rw e g)
  same-Extends w v (err f) e g = faults

  pub notify_attached-Extends :
      (w : World S) (ci : CallerInfo) (proc : ℕ) (event : EventType)
      → Extends w (notify_attached code w ci proc event)
  unfolding notify_attached
  notify_attached-Extends w ci proc event = elim (Option-cases (lookup proc w.also_notify)) [
    | inl e ↦ rw (e, notify_attached) (keeps (Grows-refl w.work))
    | inr (l, e) ↦ rw (e, notify_attached) (each-Extends _ w l (λ u p. push-Extends u u _ _ refl))
  ]

  pub finish_call-Extends :
      (w : World S) (ci : CallerInfo) (ti : TargetInfo) (resp : CallResponse)
      → Extends w (finish_call code w ci ti resp)
  unfolding finish_call
  finish_call-Extends w ci ti resp = elim (Option-cases resp.ret) [
    | inl e ↦ rw (e, finish_call) (keeps (Grows-refl w.work))
    | inr ((fail, ret), e) ↦
        rw (e, finish_call)
          (Extends-if w _ _ _ (push-Extends w _ _ _ refl) (keeps (Grows-refl w.work)))
  ]

  pub report_yield-Extends :
      (w : World S) (ti : TargetInfo) (res : Option (Bool × ℤ))
      → Extends w (report_yield code w ti res)
  unfolding report_yield
  report_yield-Extends w ti none = keeps (Grows-refl w.work)
  report_yield-Extends w ti (some (fail, ret)) = push-Extends w _ _ _ refl

  deliver_to-Extends :
      (w : World S) (e : Instance S) (ci : CallerInfo) (ti : TargetInfo) (event : EventType)
      → Extends w (deliver_to code w e ci ti event)
  unfolding deliver_to store_instance
  deliver_to-Extends w e ci ti event = Extends-let w (code.on_yield e.state e.queues _ _) _ λ done.
      Extends-bind w (process_queued _ done.1 e.context ti) _
        (same-Extends w _ _ refl (process_queued-Extends _ done.1 e.context ti))
        λ w2.
          Extends-bind w2 (report_yield code w2 ti done.3) _ (report_yield-Extends w2 ti done.3)
            λ w3. notify_attached-Extends w3 ci ti.proc_id _

  data_received-Extends :
      (w : World S) (ci : CallerInfo) (ti : TargetInfo) (event : EventType)
      → Extends w (data_received code w ci ti event)
  unfolding data_received
  data_received-Extends w ci ti event = Extends-if w _ _ _ (keeps (Grows-refl w.work)) (
      Extends-let w (or_fault (object w ti.obj_id).ptr undefined_behaviour) _
        λ e. deliver_to-Extends w e ci ti event)

  call_function-Extends :
      (w : World S) (f : FunctionFunc) (ci : CallerInfo) (ti : TargetInfo)
      → Extends w (call_function code w f ci ti)
  unfolding call_function store_instance
  call_function-Extends w f ci ti =
      Extends-let w (or_fault (object (enter_call code w ci ti) ti.obj_id).ptr undefined_behaviour)
        _
        λ e. Extends-let w (code.call f e.state e.queues _ ti.proc_id) _ λ done.
          Extends-bind w (process_queued _ done.1 e.context ti) _
            (same-Extends w _ _ refl (process_queued-Extends _ done.1 e.context ti))
            λ w3. finish_call-Extends w3 ci ti done.3

  pub delete_children-Extends :
      (w : World S) (ci : CallerInfo) (children : Map ℕ ChildInfo)
      → Extends w (delete_children code w ci children)
  unfolding delete_children
  delete_children-Extends w ci [] = keeps (Grows-refl w.work)
  delete_children-Extends w ci ((id, c) ∷ rest) =
      Extends-bind w (push w c.thread _) _ (push-Extends w w _ _ refl)
        (λ u. delete_children-Extends u ci rest)

  delete_object-Extends :
      (w : World S) (ci : CallerInfo) (ti : TargetInfo) → Extends w (delete_object code w ci ti)
  unfolding delete_object
  delete_object-Extends w ci ti =
      Extends-bind w (delete_children code w ci (object w ti.obj_id).children) _
        (delete_children-Extends w ci (object w ti.obj_id).children)
        (λ u. keeps (Grows-refl u.work))

  start_root-Extends :
      (w : World S) (f : ConstructFunc) (init : FunctionFunc) (ti : TargetInfo)
      → Extends w (start_root code w f init ti)
  unfolding start_root
  start_root-Extends w f init ti =
      Extends-bind w (push w w.thread _) _ (push-Extends w w _ _ refl)
        (λ u. push-Extends u u _ _ refl)

  wake-Extends : (w : World S) (id : ℕ) (res : ℤ) → Extends w (ok (wake code w id res))
  unfolding wake
  wake-Extends w id res = woken (lookup id w.readiness_waiters)
    where
      resumed_by : Waiter → ℕ → World S
      resumed_by r h = record w {
        cells = insert r.result res w.cells;
        resumed = w.resumed ++ h ∷ [];
      }

      handled :
          (r : Waiter) (o : Option ℕ)
          → Extends w (
              ok (elim o [
                | none ↦ w
                | some h ↦ co_calls (resumed_by r h) (code.resume h (resumed_by r h))
              ]))
      handled r none = keeps (Grows-refl w.work)
      handled r (some h) =
          let same : (co_calls (resumed_by r h) (code.resume h (resumed_by r h))).work ≡ w.work =
            co_calls-work (resumed_by r h) (code.resume h (resumed_by r h)) in
          keeps (rw same (Grows-refl w.work))

      woken :
          (o : Option Waiter)
          → Extends w (
              ok (elim o [
                | none ↦ w
                | some r ↦ elim r.handle [
                  | none ↦ w
                  | some h ↦ co_calls (resumed_by r h) (code.resume h (resumed_by r h))
                ]
              ]))
      woken none = keeps (Grows-refl w.work)
      woken (some r) = handled r r.handle

  -- A constructor leaves the queues alone.
  data Makes (w : World S) : Result (Instance S × World S) → Type 0 where
    made : {e : Instance S} {u : World S} → w.work ≡ u.work → Makes w (ok (e, u))
    threw : {f : Fault} → Makes w (err f)

  adopt_context-work :
      (w : World S) (shared : Option ℕ) → w.work ≡ (adopt_context code w shared).1.work
  unfolding adopt_context
  adopt_context-work w none = refl
  adopt_context-work w (some ctx) = refl

  enter-Makes :
      (w v : World S) (e : Instance S) (obj : ℕ) (slot : Option (ℕ × TypeIndex × ℕ))
      → w.work ≡ v.work
      → Makes w (enter_parent code v e obj slot)
  unfolding enter_parent
  enter-Makes w v e obj none h = made h
  enter-Makes w v e obj (some (parent, ty, loc)) h =
      go (enter_slot (context_of v parent) ty loc obj)
    where
      go : (r : Result IoUringData) → Makes w (r >>= λ d. ok (e, set_context v parent d))
      go (ok d) = made h
      go (err f) = threw

  run_constructor-Makes :
      (w : World S) (f : ConstructFunc) (shared : Option ℕ) (obj : ℕ)
      → Makes w (run_constructor code w f shared obj)
  unfolding run_constructor
  run_constructor-Makes w f shared obj = go (
      code.make f.object
        (context_of (adopt_context code w shared).1 (adopt_context code w shared).0))
    where
      go :
          (r : Result (S × Queues × IoUringData))
          → Makes w (
              r >>= λ m.
              enter_parent code
                (set_context (adopt_context code w shared).1 (adopt_context code w shared).0 m.2)
                (record { state = m.0; queues = m.1; context = (adopt_context code w shared).0 })
                obj
                f.slot)
      go (ok m) = enter-Makes w _ _ obj f.slot (adopt_context-work w shared)
      go (err f) = threw

  Extends-made :
      (w : World S) (r : Result (Instance S × World S))
      (f : Instance S × World S → Result (World S))
      → Makes w r
      → ((e : Instance S) (u : World S) → Extends u (f (e, u)))
      → Extends w (r >>= f)
  Extends-made w (ok (e, u)) f (made h) k = same-Extends w u (f (e, u)) h (k e u)
  Extends-made w (err e) f m k = faults

  construct_call-Extends :
      (w : World S) (f : ConstructFunc) (ci : CallerInfo) (ti : TargetInfo) (shared : Option ℕ)
      → Extends w (construct_call code w f ci ti shared)
  unfolding construct_call
  construct_call-Extends w f ci ti shared =
      Extends-made w (run_constructor code w f shared ti.obj_id) _
        (run_constructor-Makes w f shared ti.obj_id)
        λ e u.
          Extends-let u
            (or_fault (object (emplace_object code u e ci ti) ti.obj_id).ptr undefined_behaviour) _
            λ held.
              same-Extends u (emplace_object code u e ci ti) _ (ground arith)
                (process_queued-Extends _ held.queues held.context ti)

  -- Whatever the event classes do: a handler that succeeds keeps every queue of every thread and only
  -- adds messages at its end.
  pub handle-Extends : (w : World S) (m : Message) → Extends w (handle code w m)
  unfolding handle
  handle-Extends w (constructor_call f ci ti shared) = construct_call-Extends w f ci ti shared
  handle-Extends w (function_call f ci ti) = call_function-Extends w f ci ti
  handle-Extends w (delete ci ti) = delete_object-Extends w ci ti
  handle-Extends w (deliver ci ti event) = data_received-Extends w ci ti event
  handle-Extends w (root_start f init ti) = start_root-Extends w f init ti
  handle-Extends w (cqe_ready id res) = wake-Extends w id res

  -- What a successful `handle_dequeue` does to the queues.
  pub data Dequeued (w : World S) : Result (Bool × World S) → Type 0 where
    idle : get_elem? w.work w.thread ≡ some [] → Dequeued w (ok (false, w))
    took :
        {w' : World S} (m : Message) (rest : List Message)
        → get_elem? w.work w.thread ≡ some (m ∷ rest)
        → ((r : List Message) × (get_elem? w'.work w.thread ≡ some (rest ++ r)))
        → ((i : ℕ) (q : List Message)
            → w.thread ≢ i
            → get_elem? w.work i ≡ some q
            → (r : List Message) × (get_elem? w'.work i ≡ some (q ++ r)))
        → Dequeued w (ok (true, w'))
    stopped : {f : Fault} → Dequeued w (err f)

  handled :
      (w : World S) (m : Message) (rest : List Message)
      → get_elem? w.work w.thread ≡ some (m ∷ rest)
      → (r : Result (World S)) → Extends (record w { work = set w.work w.thread rest }) r
      → Dequeued w (r >>= λ u. ok (true, submit code 512 u))
  handled w m rest h (err f) g = stopped
  handled w m rest h (ok u) (keeps g) =
      took m rest h (g w.thread rest (get_elem?-set-some w.work w.thread (m ∷ rest) rest h))
        (λ i q ne k. g i q (get_elem?-set_ne w.work rest ne ∙ k))

  -- The loop is first in, first out: when it does not fault, it takes the oldest message of its own
  -- queue, or reports that there is none and changes nothing; all that waited behind that message and
  -- in the other threads' queues still waits in the same order, with new messages only behind it.
  pub handle_dequeue-Dequeued : (w : World S) → Dequeued w (handle_dequeue code w)
  unfolding handle_dequeue
  handle_dequeue-Dequeued w = elim (Option-cases (get_elem? w.work w.thread)) [
    | inl e ↦ rw (e, handle_dequeue, or_fault) stopped
    | inr ([], e) ↦ rw (e, handle_dequeue, or_fault) (idle e)
    | inr (m ∷ rest, e) ↦
        rw (e, handle_dequeue, or_fault) (handled w m rest e _ (handle-Extends _ m))
  ]
