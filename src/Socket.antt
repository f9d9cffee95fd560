-- ===== src/Socket.antt =====
-- src/common: the events that move bytes over a connection, from plain sockets to HTTP and WebSocket.
pub mod Bytes
pub mod Frame
mod Tests
