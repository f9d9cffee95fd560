-- ===== src/Web.antt =====
-- The services behind the HTTP servers: visit counts, proxy tokens, files and handlers.
pub mod Stats
pub mod Tokens
pub mod Manager
mod Tests
