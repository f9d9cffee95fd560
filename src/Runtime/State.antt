-- ===== src/Runtime/State.antt =====
-- src/common/thread_data.h and the run-time records of defs.h: what one `ThreadData` keeps, what it
-- shares with the other threads (work queues, load figures, identifier blocks, contexts), and its
-- ring. `S` is the state of the event classes.
use localsoftware.Common.{
  ℕ, zero, suc, List, [], ◌∷◌, ◌++◌, Option, none, some, get_elem?, set, ◌≡◌, ap,
}
use localsoftware.Common.Int.{ℤ, pos}
use localsoftware.Common.Maps.{Map, lookup, insert, nat_eq, lookup-insert_self}
use localsoftware.Runtime.Ids.{IdRange, get_id}
use localsoftware.Runtime.Types.{
  CallStatus, degraded, Message, Attached, Timespec, SqeFunc, IoUringData, fresh_data, CallerInfo,
  Result, ok, ◌>>=◌, or_fault, undefined_behaviour,
}
use localsoftware.Runtime.Event.{Queues}

pub record CallData : Type 0 where
  pub assoc_obj : ℕ
  pub status : CallStatus
  pub op_hint : ℕ
  pub back_notify : CallerInfo
  pub return_code : ℤ

pub record ChildInfo : Type 0 where
  pub thread : ℕ
  pub procedures : List ℕ

-- An event object: the state of its class, the queues and the context of the base class.
pub record Instance (S : Type 0) : Type 0 where
  pub state : S
  pub queues : Queues
  pub context : ℕ

-- `ptr` is empty in an entry that `obj_info[id]` made.
pub record Object (S : Type 0) : Type 0 where
  pub ptr : Option (Instance S)
  pub assoc_procs : List ℕ
  pub parents : List (ℤ × ℕ)
  pub children : Map ℕ ChildInfo

abbrev pub no_object : {S : Type 0} → Object S
no_object = record { ptr = none; assoc_procs = []; parents = []; children = [] }

pub record TimerData : Type 0 where
  pub obj_id : ℕ
  pub ts : Timespec

-- `Waiters`: the cell to write the result to, and the suspended coroutine.
pub record Waiter : Type 0 where
  pub result : ℕ
  pub handle : Option ℕ

pub data Request : Type 0 where
  prepared : SqeFunc → Request
  start_timeout : (timer_id : ℕ) → Timespec → Request
  remove_timeout : (timer_id : ℕ) → Request
  update_timeout : (timer_id : ℕ) → Timespec → Request

pub record World (S : Type 0) : Type 0 where
  pub thread : ℕ
  pub proc_to_dat : Map ℕ CallData
  pub obj_info : Map ℕ (Object S)
  pub timers : Map ℕ TimerData
  pub also_notify : Map ℕ (List (ℕ × ℕ))
  pub readiness_waiters : Map ℕ Waiter
  pub sqes : List SqeFunc
  pub proc_ids : IdRange
  pub obj_ids : IdRange
  pub tim_ids : IdRange
  -- Shared with the other threads. A load is in thousandths.
  pub work : List (List Message)
  pub load_avg : List ℕ
  pub proc_block : ℕ
  pub obj_block : ℕ
  pub tim_block : ℕ
  pub contexts : Map ℕ IoUringData
  pub next_context : ℕ
  -- The submission queue: what is in it, and the entries left. `submitted` is what the kernel has.
  pub ring : List (Request × Attached)
  pub sq_space : ℕ
  pub submitted : List (Request × Attached)
  -- Memory that the awaitables wait on, and the coroutines resumed.
  pub cells : Map ℕ ℤ
  pub resumed : List ℕ

abbrev pub no_call : CallData
no_call = record {
  assoc_obj = 0;
  status = degraded;
  op_hint = 0;
  back_notify = record { thread_id = pos 0; obj_id = 0; proc_id = 0 };
  return_code = pos 0;
}

module _ {S : Type 0} where
  -- `per_thread_data[thread].q.push(message)`.
  unfoldable pub push : World S → ℕ → Message → Result (World S)
  push w i m = do
    q ← or_fault (get_elem? w.work i) undefined_behaviour
    ok (record w { work = set w.work i (q ++ m ∷ []) })

  -- `obj_info[id]`, `proc_to_dat[id]`: a default entry if there is none.
  abbrev pub object : World S → ℕ → Object S
  object w id = elim (lookup id w.obj_info) [ none ↦ no_object | some o ↦ o ]

  abbrev pub set_object : World S → ℕ → Object S → World S
  set_object w id o = record w { obj_info = insert id o w.obj_info }

  abbrev pub call_of : World S → ℕ → CallData
  call_of w id = elim (lookup id w.proc_to_dat) [ none ↦ no_call | some c ↦ c ]

  abbrev pub set_call : World S → ℕ → CallData → World S
  set_call w id c = record w { proc_to_dat = insert id c w.proc_to_dat }

  pub call_of-set_call : (w : World S) (id : ℕ) (c : CallData) → call_of (set_call w id c) id ≡ c
  call_of-set_call w id c =
      ap (λ o. elim o [ none ↦ no_call | some d ↦ d ]) (lookup-insert_self id c w.proc_to_dat)

  -- The context behind an event's pointer.
  abbrev pub context_of : World S → ℕ → IoUringData
  context_of w ctx = elim (lookup ctx w.contexts) [ none ↦ fresh_data | some d ↦ d ]

  abbrev pub set_context : World S → ℕ → IoUringData → World S
  set_context w ctx d = record w { contexts = insert ctx d w.contexts }

  unfoldable pub get_proc_id : World S → ℕ × World S
  get_proc_id w =
      let (id, r, b) = get_id w.proc_ids w.proc_block in
      (id, record w { proc_ids = r; proc_block = b })

  unfoldable pub get_obj_id : World S → ℕ × World S
  get_obj_id w =
      let (id, r, b) = get_id w.obj_ids w.obj_block in (id, record w { obj_ids = r; obj_block = b })

  unfoldable pub get_tim_id : World S → ℕ × World S
  get_tim_id w =
      let (id, r, b) = get_id w.tim_ids w.tim_block in (id, record w { tim_ids = r; tim_block = b })

  -- `io_uring_get_sqe`: no entry if the queue is full.
  unfoldable pub put_sqe : World S → Request → Attached → Option (World S)
  put_sqe w request attached = elim w.sq_space [
    | zero ↦ none
    | suc n ↦ some (record w { ring = w.ring ++ (request, attached) ∷ []; sq_space = n })
  ]
