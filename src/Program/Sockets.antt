-- ===== src/Program/Sockets.antt =====
-- `setup_server_socket6`, `setup_server_socket` and `server_func` of src/localsoftware.cpp. What the
-- kernel answers to the calls is an argument, and the calls made are returned in their order.
pub mod Closing
use localsoftware.Common.{
  ℕ, ◌%◌, ◌^◌, Bool, true, false, List, [], ◌∷◌, ◌++◌, Option, none, some, if◌then◌else◌, map,
}
use localsoftware.Common.Int.{ℤ, pos, negsuc, beq_ℤ, ltb_ℤ}
use localsoftware.File.{File, destroy}

pub data Domain : Type 0 where
  af_inet af_inet6 : Domain

pub data SocketOption : Type 0 where
  so_reuseaddr ipv6_v6only : SocketOption

-- A call with its result, where it gives a descriptor.
pub data SysCall : Type 0 where
  socket : Domain → ℤ → SysCall
  setsockopt : ℤ → SocketOption → SysCall
  bind : ℤ → Domain → ℕ → SysCall
  listen : ℤ → ℤ → SysCall
  close : ℤ → SysCall

pub record Answers : Type 0 where
  pub socket_fd : ℤ
  pub reuseaddr : ℤ
  pub v6only : ℤ
  pub bound : ℤ
  pub listening : ℤ

abbrev minus_one : ℤ
minus_one = negsuc 0

-- The value of an `int` as a condition.
abbrev truth : ℤ → Bool
truth r = if beq_ℤ r (pos 0) then false else true

abbrev negative : ℤ → Bool
negative r = ltb_ℤ r (pos 0)

-- `htons` keeps the low 16 bits of the port.
unfoldable pub setup_server_socket6 : Answers → ℕ → ℤ × List SysCall
setup_server_socket6 a port =
    let fd = a.socket_fd in
    let made = socket af_inet6 fd ∷ [] in
    let reused = made ++ setsockopt fd so_reuseaddr ∷ [] in
    let only = reused ++ setsockopt fd ipv6_v6only ∷ [] in
    let named = only ++ bind fd af_inet6 (port % 2 ^ 16) ∷ [] in
    let served = named ++ listen fd minus_one ∷ [] in
    if beq_ℤ fd (pos 0)
    then (minus_one, made)
    else if truth a.reuseaddr
    then (minus_one, reused ++ close fd ∷ [])
    else if truth a.v6only
    then (minus_one, only ++ close fd ∷ [])
    else if negative a.bound
    then (minus_one, named ++ close fd ∷ [])
    else if negative a.listening
    then (minus_one, served ++ close fd ∷ [])
    else (fd, served)

unfoldable pub setup_server_socket : Answers → ℕ → ℤ × List SysCall
setup_server_socket a port =
    let fd = a.socket_fd in
    let made = socket af_inet fd ∷ [] in
    let reused = made ++ setsockopt fd so_reuseaddr ∷ [] in
    let named = reused ++ bind fd af_inet (port % 2 ^ 16) ∷ [] in
    let served = named ++ listen fd minus_one ∷ [] in
    if beq_ℤ fd (pos 0)
    then (minus_one, made)
    else if truth a.reuseaddr
    then (minus_one, reused ++ close fd ∷ [])
    else if negative a.bound
    then (minus_one, named ++ close fd ∷ [])
    else if negative a.listening
    then (minus_one, served ++ close fd ∷ [])
    else (fd, served)

abbrev pub server_port : ℕ
server_port = 8443

abbrev pub http_port : ℕ
http_port = 80

abbrev pub https_port : ℕ
https_port = 443

-- The root events that `server_func` initializes, with the files that each is given.
pub data Root : Type 0 where
  bandwidth_monitor_accept landing_accept : (use_ssl : Bool) (files : List File) → Root

-- The destructors of the files, which close what they own.
unfoldable pub destroy_all : List File → List SysCall
unfolding destroy
destroy_all [] = []
destroy_all (f ∷ fs) = map close (destroy f) ++ destroy_all fs

-- One socket put into a file: without a descriptor the function returns, which destroys the files made
-- so far, the last one first.
unfoldable pub make_file :
    ℤ × List SysCall
    → List File
    → (File → List SysCall × Option (List Root))
    → List SysCall × Option (List Root)
make_file (fd, calls) earlier next =
    let f : File = record { fd_ = fd } in
    let (later, roots) = next f in
    if negative fd then (calls ++ destroy_all (f ∷ earlier), none) else (calls ++ later, roots)

-- `none` is an early return; otherwise the runtime is started, with its roots.
unfoldable pub server_func :
    (ws ws6 http6 http https https6 : Answers) → List SysCall × Option (List Root)
server_func ws ws6 http6 http https https6 =
    make_file (setup_server_socket ws server_port) [] (λ ws_fd.
      make_file (setup_server_socket6 ws6 server_port) (ws_fd ∷ []) (λ ws6_fd.
        make_file (setup_server_socket6 http6 http_port) (ws6_fd ∷ ws_fd ∷ []) (λ http6_fd.
          make_file (setup_server_socket http http_port) (http6_fd ∷ ws6_fd ∷ ws_fd ∷ [])
            (λ http_fd.
              make_file (setup_server_socket https https_port)
                (http_fd ∷ http6_fd ∷ ws6_fd ∷ ws_fd ∷ [])
                (λ https_fd.
                  make_file (setup_server_socket6 https6 https_port)
                    (https_fd ∷ http_fd ∷ http6_fd ∷ ws6_fd ∷ ws_fd ∷ [])
                    (λ https6_fd. (
                      [],
                      some (
                          bandwidth_monitor_accept true (ws_fd ∷ ws6_fd ∷ [])
                          ∷ landing_accept false (http_fd ∷ http6_fd ∷ [])
                          ∷ landing_accept true (https_fd ∷ https6_fd ∷ [])
                          ∷ []),
                    )))))))
