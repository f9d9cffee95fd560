-- ===== src/Lib.antt =====
-- localsoftware: models and proofs of the server's event runtime and of the parts built on it.
--
-- The server runs event objects on a pool of threads. An event queues what it wants done (objects to
-- construct, functions of them to call, ring operations, timers, deletions); after each of its
-- functions the thread turns the queues into messages for the work queues of all threads and into
-- submissions to io_uring, and turns ring completions back into messages. Connections are events:
-- plain sockets, TLS, HTTP and WebSocket, each calling the one below. TLS buffers come from an arena
-- allocator.
--
-- Files, and the sources they model:
--   Common            names of the libraries, Boolean tests, lists, integers, dictionaries
--   Alloc             src/alloc/alloc_wrapper.{h,cpp}: `bmalloc`, `bfree`, `add_arena`. `scan`, `occupy`
--                     and `carve` are parts of `bmalloc`; `release` with its three parts is `bfree` on
--                     the records of one arena. Alloc/Tiling reads the records as a list of segments;
--                     Alloc/Scan, Occupy and Release (over Join and Merge) relate the three
--                     parts to it.
--   Runtime/Types     src/common/defs.h, src/common/async_thread_shared.h: messages, events, queues
--   Runtime/Ids       `get_proc_id`, `get_obj_id`, `get_tim_id` of src/common/thread_data.cpp and those of
--                     src/common/async_handler.cpp, over the shared counters; Ids/Distinct
--   Runtime/Event     src/common/event.{h,cpp}, event.t.cpp: `construct` is `i` and `i_s`; `call_at`,
--                     `call_first` and `call_uring` are the overloads of `c`; `destroy` is `d`.
--                     Event/Slots and Event/Translate prove the slots and the identifiers.
--   Runtime/State     the state of `ThreadData` with what it shares: `World`
--   Runtime/Balance   `find_target_thread`
--   Runtime/Dispatch  `process_queued` and its six parts
--   Runtime/Thread    the handlers of `handle_dequeue`, `process_uring` and a round of `run`.
--                     Thread/Calls and Thread/Notify follow a call and its completion; Order/Loops and
--                     Order/Handlers follow the work queues through every handler.
--   Socket/Bytes      src/common/readwrite_bytes.{h,cpp}; Bytes/Transfer follows a whole transfer
--   Socket/Frame      src/common/websocket_socket.{h,cpp}; Frame/Parse reads the frames back
--   Runtime/Coro      the `co_` functions of thread_data.cpp and src/common/coro_types.{h,cpp}
--   Servers/Accept    src/aio_landing/landing_accept.{h,cpp} and src/bandwidth_monitor/bandwidth_accept.{h,cpp};
--                     Accept/Lifecycle
--   Servers/Landing   src/aio_landing/landing_server.{h,cpp}; Landing/Rounds
--   Tls               src/common/tls_socket.{h,cpp}: `read_loop` is the loop of `handle_read`, `full_read` and
--                     `full_write` what the handlers do after the handshake, `want_read` the branch
--                     that three places share. Tls/Input is about the callback, Tls/Requests and
--                     Tls/Handlers about what is asked of the socket, Tls/Events about any history, and
--                     Tls/Flush about the end of a write.
--   Http              src/common/readwrite_http.{h,cpp}; Http/Feed reads, Http/Drain and Http/Respond write.
--                     Http/Client is src/common/readwrite_httpc.cpp.
--   Web/Stats         src/logging/visit_stats.{h,cpp}; Stats/Count
--   Web/Tokens        src/reverse_proxy/reverse_proxy_manager.cpp; Tokens/Check and Tokens/Cookie
--   Web/Manager       src/common/http_manager.{h,cpp}, http_manager.t.cpp; Manager/Serve
--   Monitor           src/bandwidth_monitor/monitoring_server.{h,cpp}; Monitor/Format has base64 and the scan
--                     of a line; Monitor/Base64, Lines, Logs and Live
--   Proxy             src/reverse_proxy/reverse_proxy_server.cpp; Proxy/Auth and Proxy/Relay
--   Thermostat        src/aio_landing/s40_client.{h,cpp}: Thermostat/Fetch is `fetch_data`. Thermostat/Read reads a
--                     reply, Rounds follows the requests of one update, Cycles the values shown
--   File              src/common/file.{h,cpp}; File/Ownership
--   Program           src/localsoftware.cpp: Program/Usage is `read_bytes`, `log_entry` and the loop of `main`,
--                     Program/Sockets is `server_func` and what it calls
--
-- Conventions. Numbers are natural numbers with the wrap of the machine type written out (`u64`, `u7`,
-- `minus`, `to_int`); `int` results are integers. An exception, and an access outside the guarantees of
-- C++, is a `Fault` in `Result`. A closure, a class and a context behind a shared pointer are named by
-- numbers; what closures and classes do, and what a resumed coroutine calls, is the parameter `Code` of
-- Runtime/Thread. Loads are in thousandths. One thread's step is atomic: threads share only queues with
-- atomic push and pop, atomic counters, and load figures under a mutex.
--
-- Bounds. `scan` has fuel 65, one more than an arena has blocks, and every segment of a well-formed
-- arena has at least one block. `drain` has the 256 rounds of the source. The parse loop of Http has
-- fuel for one pass for each buffered byte, since a pass that reports no error consumes one; the loop
-- of Tls has one for each byte asked for and one more; a loop that runs out of fuel is undefined
-- behaviour, as an endless loop without effects is. `decimal` has 20 digits, enough for 64 bits.
--
-- Not modelled: the kernel, OpenSSL, Boost.Beast and oneTBB, which the sources only call and which are
-- arguments here; log output; the acceptor of the proxy with its log-in handler; the front end. The
-- proxied connection and the HTTP client are written for an earlier interface of the runtime and are
-- not built: their calls of it are values here.
pub mod Alloc
pub mod Common
pub mod File
pub mod Http
pub mod Monitor
pub mod Program
pub mod Proxy
pub mod Runtime
pub mod Servers
pub mod Socket
pub mod Thermostat
pub mod Tls
pub mod Web
