-- ===== src/Runtime/Order.antt =====
-- The work queues of src/common/thread_data.cpp while messages are handled.
pub mod Loops
pub mod Handlers
