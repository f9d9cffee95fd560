-- ===== src/Servers.antt =====
-- The acceptors and servers that are built on the runtime.
pub mod Accept
pub mod Landing
mod Tests
