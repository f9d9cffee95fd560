-- ===== src/Runtime/Ids.antt =====
-- `get_proc_id`, `get_obj_id` and `get_tim_id` of src/common/thread_data.cpp and those of
-- src/common/async_handler.cpp: every thread takes blocks of 1000 identifiers from a shared atomic
-- counter and hands them out one by one. The five functions are one function over the range that a
-- thread holds and the counter; the handler's tests stand in the other order. A step of one thread
-- is atomic here, since only the counter is shared and it is read and advanced by one `fetch_add`.
pub mod Distinct
use localsoftware.Common.{
  ℕ, ◌+◌, ◌*◌, ◌%◌, ◌^◌, Bool, true, false, not, ◌||◌, List, [], ◌∷◌, ◌==◌, if◌then◌else◌,
}

-- `…_id_base`, `…_id_curr` and the `…_init` flag of one thread.
pub record IdRange : Type 0 where
  pub base : ℕ
  pub curr : ℕ
  pub started : Bool

-- A `uint64_t`.
abbrev pub u64 : ℕ → ℕ
u64 n = n % 2 ^ 64

-- The identifier, the thread's range and the shared counter after the call.
unfoldable pub get_id : IdRange → ℕ → ℕ × IdRange × ℕ
get_id r block =
    if not r.started || (r.curr == u64 (r.base + 1000))
    then (let first = u64 (1000 * block) in
        (first, record { base = first; curr = u64 (first + 1); started = true }, u64 (block + 1)))
    else (r.curr, record r { curr = u64 (r.curr + 1) }, block)

-- All holders of a range (the threads and the handler) and the counter of `IdBlocks`.
pub record Pool : Type 0 where
  pub ranges : ℕ → IdRange
  pub block : ℕ

abbrev pub update : (ℕ → IdRange) → ℕ → IdRange → ℕ → IdRange
update f i r j = if i == j then r else f j

unfoldable pub step : Pool → ℕ → ℕ × Pool
unfolding get_id
step p i =
    let (id, r, block) = get_id (p.ranges i) p.block in
    (id, record { ranges = update p.ranges i r; block = block })

-- The identifiers handed out under a schedule: who asks, in order.
unfoldable pub run : Pool → List ℕ → List ℕ
unfolding step
run p [] = []
run p (i ∷ schedule) = let (id, p') = step p i in id ∷ run p' schedule

-- `proc_block_ = 0`, and the flags are false; the ranges themselves are uninitialised memory.
abbrev pub initial : (ℕ → ℕ) → (ℕ → ℕ) → Pool
initial base curr = record {
  ranges = λ i. record { base = base i; curr = curr i; started = false };
  block = 0;
}
