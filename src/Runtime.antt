-- ===== src/Runtime.antt =====
-- src/common: the multi-threaded event runtime (thread_data, event, async_handler and their data).
pub mod Ids
pub mod Types
pub mod Event
pub mod State
pub mod Balance
pub mod Dispatch
pub mod Thread
pub mod Order
pub mod Coro
mod Tests
