-- ===== src/Program.antt =====
-- src/localsoftware.cpp: the program, which opens the listening sockets, starts the servers and keeps
-- the account of the interface's traffic.
pub mod Sockets
pub mod Usage
mod Tests
