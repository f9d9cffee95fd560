-- ===== src/Runtime/Coro.antt =====
-- The coroutine side of the thread loop: `co_register`, `co_update`, `co_deregister` and `co_handle` of
-- src/common/thread_data.cpp, and the awaitable of src/common/coro_types.{h,cpp}. An awaitable is the
-- identifier of its waiter and the address of its `ret`, which the waiter points to. A coroutine is a
-- number; the null handle is `none`. `co_preferred` returns its own thread. What runs in a coroutine
-- reaches the thread only through these functions and the memory of its awaitables.
use localsoftware.Common.{ℕ, ◌≡◌, refl, ◌∙◌, arith, List, [], ◌∷◌, ◌++◌, Option, none, some}
use localsoftware.Common.Int.{ℤ, pos}
use localsoftware.Common.Maps.{lookup, insert, erase, nat_eq}
use localsoftware.Runtime.Types.{SqeFunc}
use localsoftware.Runtime.State.{World, Waiter, get_proc_id}

-- `readiness_waiters[id]`.
abbrev pub waiter : {S : Type 0} → World S → ℕ → Waiter
waiter w id = elim (lookup id w.readiness_waiters) [
  | none ↦ record { result = 0; handle = none }
  | some r ↦ r
]

abbrev pub set_waiter : {S : Type 0} → World S → ℕ → Waiter → World S
set_waiter w id r = record w { readiness_waiters = insert id r w.readiness_waiters }

pub record Awaitable : Type 0 where
  pub id : ℕ
  pub ret : ℕ

-- What a coroutine calls while it runs.
pub data CoCall : Type 0 where
  registers : SqeFunc → (cell : ℕ) → CoCall
  updates : (id cell : ℕ) → CoCall
  deregisters : (id : ℕ) → CoCall
  handles : (id : ℕ) → Option ℕ → CoCall
  stores : (cell : ℕ) → ℤ → CoCall

module _ {S : Type 0} where
  unfoldable pub co_register : World S → SqeFunc → ℕ → ℕ × World S
  unfolding get_proc_id
  co_register w sfunc res =
      let (id, w1) = get_proc_id w in
      let w2 = set_waiter w1 id (record (waiter w1 id) { result = res }) in
      (id, record w2 { sqes = w2.sqes ++ sfunc ∷ [] })

  unfoldable pub co_update : World S → ℕ → ℕ → World S
  co_update w id res = elim (lookup id w.readiness_waiters) [
    | none ↦ w
    | some r ↦ set_waiter w id (record r { result = res })
  ]

  unfoldable pub co_deregister : World S → ℕ → World S
  co_deregister w id = record w { readiness_waiters = erase id w.readiness_waiters }

  unfoldable pub co_handle : World S → ℕ → Option ℕ → World S
  co_handle w id none = w
  co_handle w id (some h) = elim (lookup id w.readiness_waiters) [
    | none ↦ w
    | some r ↦ set_waiter w id (record r { handle = some h })
  ]

  -- Those calls in their order; `stores` is a write to an awaitable's memory.
  unfoldable pub co_call : World S → CoCall → World S
  unfolding co_register co_update co_deregister co_handle insert
  co_call w (registers sfunc cell) = (co_register w sfunc cell).1
  co_call w (updates id cell) = co_update w id cell
  co_call w (deregisters id) = co_deregister w id
  co_call w (handles id h) = co_handle w id h
  co_call w (stores cell value) = record w { cells = insert cell value w.cells }

  unfoldable pub co_calls : World S → List CoCall → World S
  unfolding co_call
  co_calls w [] = w
  co_calls w (c ∷ cs) = co_calls (co_call w c) cs

  pub co_call-work : (w : World S) (c : CoCall) → (co_call w c).work ≡ w.work
  unfolding co_call
  co_call-work w (registers sfunc cell) = refl
  co_call-work w (updates id cell) = ground arith
  co_call-work w (deregisters id) = refl
  co_call-work w (handles id none) = refl
  co_call-work w (handles id (some h)) = ground arith
  co_call-work w (stores cell value) = refl

  -- The work queues are not touched.
  pub co_calls-work : (w : World S) (cs : List CoCall) → (co_calls w cs).work ≡ w.work
  unfolding co_calls
  co_calls-work w [] = refl
  co_calls-work w (c ∷ cs) = co_calls-work (co_call w c) cs ∙ co_call-work w c

  -- The constructor, for an awaitable whose `ret` lies at `cell`.
  unfoldable pub await : World S → SqeFunc → ℕ → Awaitable × World S
  unfolding co_register
  await w sfunc cell =
      let (id, w1) = co_register w sfunc cell in (record { id = id; ret = cell }, w1)

  abbrev pub read_cell : World S → ℕ → ℤ
  read_cell w cell = elim (lookup cell w.cells) [ none ↦ pos 0 | some r ↦ r ]

  -- The move constructor, into an awaitable whose `ret` lies at `cell`.
  unfoldable pub move : World S → Awaitable → ℕ → Awaitable × World S
  unfolding co_update insert
  move w other cell = (
    record { id = other.id; ret = cell },
    co_update (record w { cells = insert cell (read_cell w other.ret) w.cells }) other.id cell,
  )

  unfoldable pub await_suspend : World S → Awaitable → Option ℕ → World S
  unfolding co_handle
  await_suspend w a handle = co_handle w a.id handle

  abbrev pub await_resume : World S → Awaitable → ℤ
  await_resume w a = read_cell w a.ret
