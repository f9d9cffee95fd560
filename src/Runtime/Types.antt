-- ===== src/Runtime/Types.antt =====
-- The data of src/common/defs.h and src/common/async_thread_shared.h. A `type_index`, a closure and a
-- pointer to a shared context are names here (numbers): what a closure does when it runs is a
-- parameter of the modules that run it.
use localsoftware.Common.{ℕ, Bool, List, [], Option, none, some, ◌^◌, ◌-◌}
use localsoftware.Common.Int.{ℤ}
use localsoftware.Common.Maps.{Map}

abbrev pub TypeIndex : Type 0
TypeIndex = ℕ

-- The closure of `Event::construct`: the object to make (its class and arguments), and the slot in
-- its parent's context in which the parent finds it, if it has a parent.
pub record ConstructFunc : Type 0 where
  pub object : ℕ
  pub slot : Option (ℕ × TypeIndex × ℕ)

abbrev pub FunctionFunc : Type 0
FunctionFunc = ℕ

-- A prepared liburing call, `function<void(io_uring_sqe*)>`.
abbrev pub SqeFunc : Type 0
SqeFunc = ℕ

-- `numeric_limits<uint64_t>::max()`, the identifier of nobody.
abbrev pub nobody : ℕ
nobody = 2 ^ 64 - 1

pub data CallStatus : Type 0 where
  degraded failed running finished stopped : CallStatus

pub data EventType : Type 0 where
  call_started : (procedure_id type obj_idx : ℕ) → EventType
  timeout : (timer_id : ℕ) → EventType
  io_uring_result : (calling_id op : ℕ) (res : ℤ) → EventType
  wakeup : (task_id : ℕ) → EventType
  child_task_completion :
      (calling_id task_id : ℕ) (status : CallStatus) (return_code : ℤ) → EventType

-- `IoUringAttached`: the user data of a submission.
pub data Attached : Type 0 where
  event_data : (op obj_id proc_id : ℕ) → Attached
  timer : (timer_id obj_id proc_id : ℕ) → Attached
  timer_update : (timer_id : ℕ) (remove : Bool) → Attached
  co_event : (id : ℕ) → Attached

pub record Timespec : Type 0 where
  pub tv_sec : ℕ
  pub tv_nsec : ℕ

pub record Locator : Type 0 where
  pub object_id : ℕ
  pub thread_id : List ℕ

-- The weak pointer is the identifier of the object that it points to.
pub record EventInfo : Type 0 where
  pub locator : Option Locator
  pub event : Option ℕ

pub record IoUringData : Type 0 where
  pub sub_events : Map TypeIndex (List (Option EventInfo))
  pub local_proc_id : ℕ
  pub local_timer_id : ℕ
  pub global_proc_to_local_proc : Map ℕ ℕ
  pub local_proc_to_global_proc : Map ℕ ℕ
  pub global_tim_to_local_tim : Map ℕ ℕ
  pub local_tim_to_global_tim : Map ℕ ℕ

abbrev pub fresh_data : IoUringData
fresh_data = record {
  sub_events = [];
  local_proc_id = 0;
  local_timer_id = 0;
  global_proc_to_local_proc = [];
  local_proc_to_global_proc = [];
  global_tim_to_local_tim = [];
  local_tim_to_global_tim = [];
}

pub record QueuedConstruct : Type 0 where
  pub idx : TypeIndex
  pub vidx : ℕ
  pub fun : ConstructFunc
  pub uring_data : Option ℕ

pub record QueuedFunction : Type 0 where
  pub idx : TypeIndex
  pub vidx : ℕ
  pub local_id : ℕ
  pub fun : FunctionFunc

pub record QueuedUring : Type 0 where
  pub op : ℕ
  pub fun : SqeFunc

pub record QueuedTimer : Type 0 where
  pub local_id : ℕ
  pub time : Timespec

pub record QueuedDelete : Type 0 where
  pub thread : List ℕ
  pub obj_id : ℕ

pub record CallResponse : Type 0 where
  pub success : Bool
  pub ret : Option (Bool × ℤ)
  pub op_hint : ℕ

pub record CallerInfo : Type 0 where
  pub thread_id : ℤ
  pub obj_id : ℕ
  pub proc_id : ℕ

pub record TargetInfo : Type 0 where
  pub obj_id : ℕ
  pub proc_id : ℕ

-- The messages of a thread's work queue (`PerThread::EventVariant`).
pub data Message : Type 0 where
  constructor_call :
      (constructor_ : ConstructFunc) (ci : CallerInfo) (ti : TargetInfo) (uring_data : Option ℕ)
      → Message
  function_call : (call : FunctionFunc) (ci : CallerInfo) (ti : TargetInfo) → Message
  delete : (ci : CallerInfo) (ti : TargetInfo) → Message
  deliver : (ci : CallerInfo) (ti : TargetInfo) (event : EventType) → Message
  root_start : (constructor_ : ConstructFunc) (init : FunctionFunc) (ti : TargetInfo) → Message
  cqe_ready : (id : ℕ) (result : ℤ) → Message

-- What the runtime throws, or does outside the language's guarantees.
pub data Fault : Type 0 where
  out_of_range bad_optional runtime_error invalid_argument undefined_behaviour : Fault

pub data Result {ℓ} (A : Type ℓ) : Type ℓ where
  ok : A → Result A
  err : Fault → Result A

infixl 5 ◌>>=◌
abbrev pub ◌>>=◌ {ℓ κ} : {A : Type ℓ} {B : Type κ} → Result A → (A → Result B) → Result B
ok a >>= f = f a
err e >>= f = err e

abbrev pub or_fault {ℓ} : {A : Type ℓ} → Option A → Fault → Result A
or_fault none e = err e
or_fault (some a) e = ok a
