-- ===== src/Runtime/Event/Translate.antt =====
-- The translation between a thread's identifiers (global) and an event's own (local).
use localsoftware.Common.{ℕ, ◌≡◌, ◌≢◌, none, some, arith, ap}
use localsoftware.Common.Int.{ℤ}
use localsoftware.Common.Maps.{Map, lookup, insert, nat_eq, lookup-insert, lookup-insert_self}
use localsoftware.Runtime.Types.{
  IoUringData, CallStatus, call_started, timeout, child_task_completion,
}
use localsoftware.Runtime.Event.{
  global_to_local, global_to_local_tim, translate_proc_local, translate_proc_global,
  translate_tim_local, translate_tim_global, map_event_data, subscript, or_nobody,
}

-- After a pair of identifiers is entered both translations of procedures find it, and those of every
-- other identifier are as before.
pub translate-global_to_local :
    (d : IoUringData) (global local : ℕ)
    → let d' = global_to_local d global local in
      (translate_proc_local d' local ≡ global)
      × (translate_proc_global d' global ≡ local)
      × ((l : ℕ) → local ≢ l → translate_proc_local d' l ≡ translate_proc_local d l)
      × ((g : ℕ) → global ≢ g → translate_proc_global d' g ≡ translate_proc_global d g)
unfolding global_to_local translate_proc_local translate_proc_global
translate-global_to_local d global local = (
  ap or_nobody (lookup-insert_self local global d.local_proc_to_global_proc),
  ap or_nobody (lookup-insert_self global local d.global_proc_to_local_proc),
  (λ l ne. ground (arith, lookup-insert local l global d.local_proc_to_global_proc)),
  λ g ne. ground (arith, lookup-insert global g local d.global_proc_to_local_proc),
)

subscript-some : (m : Map ℕ ℕ) (k v : ℕ) → lookup k m ≡ some v → subscript m k ≡ (v, m)
unfolding subscript
subscript-some m k v h = rw (h, subscript)

subscript-none : (m : Map ℕ ℕ) (k : ℕ) → lookup k m ≡ none → subscript m k ≡ (0, insert k 0 m)
unfolding subscript
subscript-none m k h = rw (h, subscript)

-- A completion or a started call whose global identifier was entered with a local one reaches
-- `on_yield` with the local one, and the context is unchanged.
pub map_event_data-procedure :
    (d : IoUringData) (global local calling_id type obj_idx : ℕ) (status : CallStatus) (code : ℤ)
    → let d' = global_to_local d global local in
      (map_event_data d' (child_task_completion calling_id global status code)
        ≡ (child_task_completion calling_id local status code, d'))
      × (map_event_data d' (call_started global type obj_idx)
          ≡ (call_started local type obj_idx, d'))
unfolding map_event_data global_to_local
map_event_data-procedure d global local calling_id type obj_idx status code =
    let found =
      subscript-some (insert global local d.global_proc_to_local_proc) global local
        (lookup-insert_self global local d.global_proc_to_local_proc) in
    (rw found, rw found)

-- A timeout of a timer that was entered with a local identifier reaches `on_yield` with that one, the
-- context is unchanged, and the two translations of the timer's identifiers are inverse to each other.
map_event_data-timer :
    (d : IoUringData) (global local : ℕ)
    → let d' = global_to_local_tim d global local in
      (map_event_data d' (timeout global) ≡ (timeout local, d'))
      × (translate_tim_local d' local ≡ global)
      × (translate_tim_global d' global ≡ local)
unfolding map_event_data global_to_local_tim translate_tim_local translate_tim_global
map_event_data-timer d global local =
    let found =
      subscript-some (insert global local d.global_tim_to_local_tim) global local
        (lookup-insert_self global local d.global_tim_to_local_tim) in
    (
      rw found,
      ap or_nobody (lookup-insert_self local global d.local_tim_to_global_tim),
      ap or_nobody (lookup-insert_self global local d.global_tim_to_local_tim),
    )

-- A completion under a global identifier that was never entered reaches `on_yield` with the local
-- identifier 0.
map_event_data-unknown :
    (d : IoUringData) (global calling_id : ℕ) (status : CallStatus) (code : ℤ)
    → lookup global d.global_proc_to_local_proc ≡ none
    → (map_event_data d (child_task_completion calling_id global status code)).0
      ≡ child_task_completion calling_id 0 status code
unfolding map_event_data
map_event_data-unknown d global calling_id status code h =
    rw (subscript-none d.global_proc_to_local_proc global h)
