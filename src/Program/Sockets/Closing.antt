-- ===== src/Program/Sockets/Closing.antt =====
-- No listening socket is lost: what is opened is closed once, or belongs to the servers.
use localsoftware.Common.{
  ℕ, suc, ◌+◌, ◌≡◌, refl, Bool, true, false, List, [], ◌∷◌, ◌++◌, Option, none, some, if◌then◌else◌,
  arith,
}
use localsoftware.Common.Int.{ℤ, pos, beq_ℤ}
use localsoftware.File.{File, destroy}
use localsoftware.Program.Sockets.{
  SysCall, socket, setsockopt, bind, listen, close, Answers, Root, bandwidth_monitor_accept,
  landing_accept, setup_server_socket, setup_server_socket6, destroy_all, make_file, server_func,
}

abbrev one_if : Bool → ℕ
one_if b = if b then 1 else 0

-- How often a descriptor is opened, and closed.
abbrev pub opens : ℤ → List SysCall → ℕ
opens k [] = 0
opens k (socket d fd ∷ cs) = (if beq_ℤ fd k then 1 else 0) + opens k cs
opens k (setsockopt fd o ∷ cs) = opens k cs
opens k (bind fd d p ∷ cs) = opens k cs
opens k (listen fd b ∷ cs) = opens k cs
opens k (close fd ∷ cs) = opens k cs

abbrev pub closes : ℤ → List SysCall → ℕ
closes k [] = 0
closes k (socket d fd ∷ cs) = closes k cs
closes k (setsockopt fd o ∷ cs) = closes k cs
closes k (bind fd d p ∷ cs) = closes k cs
closes k (listen fd b ∷ cs) = closes k cs
closes k (close fd ∷ cs) = (if beq_ℤ fd k then 1 else 0) + closes k cs

abbrev pub owned : ℤ → List File → ℕ
owned k [] = 0
owned k (f ∷ fs) = (if beq_ℤ f.fd_ k then 1 else 0) + owned k fs

-- What the roots that run were given.
abbrev pub served : ℤ → List Root → ℕ
served k [] = 0
served k (bandwidth_monitor_accept ssl fs ∷ rs) = owned k fs + served k rs
served k (landing_accept ssl fs ∷ rs) = owned k fs + served k rs

abbrev pub served_by : ℤ → Option (List Root) → ℕ
served_by k none = 0
served_by k (some rs) = served k rs

opens-append : (k : ℤ) (a b : List SysCall) → opens k (a ++ b) ≡ opens k a + opens k b
opens-append k [] b = omega arith
opens-append k (socket d fd ∷ a) b = omega (arith, opens-append k a b)
opens-append k (setsockopt fd o ∷ a) b = opens-append k a b
opens-append k (bind fd d p ∷ a) b = opens-append k a b
opens-append k (listen fd l ∷ a) b = opens-append k a b
opens-append k (close fd ∷ a) b = opens-append k a b

closes-append : (k : ℤ) (a b : List SysCall) → closes k (a ++ b) ≡ closes k a + closes k b
closes-append k [] b = omega arith
closes-append k (socket d fd ∷ a) b = closes-append k a b
closes-append k (setsockopt fd o ∷ a) b = closes-append k a b
closes-append k (bind fd d p ∷ a) b = closes-append k a b
closes-append k (listen fd l ∷ a) b = closes-append k a b
closes-append k (close fd ∷ a) b = omega (arith, closes-append k a b)

-- The calls of a step and the descriptor that it returns.
abbrev Balanced : ℤ → ℤ × List SysCall → Type 0
Balanced k (fd, calls) = opens k calls ≡ closes k calls + (if beq_ℤ fd k then 1 else 0)

setup_server_socket6-Balanced :
    (n : ℕ) (a : Answers) (port : ℕ) → Balanced (pos (suc n)) (setup_server_socket6 a port)
unfolding setup_server_socket6
setup_server_socket6-Balanced n a port = ground arith

setup_server_socket-Balanced :
    (n : ℕ) (a : Answers) (port : ℕ) → Balanced (pos (suc n)) (setup_server_socket a port)
unfolding setup_server_socket
setup_server_socket-Balanced n a port = ground arith

-- The rest of the run, when files own `n` times the descriptor.
record Settled (k : ℤ) (n : ℕ) (run : List SysCall × Option (List Root)) : Type 0 where
  counted : opens k run.0 + n ≡ closes k run.0 + served_by k run.1

destroy_all_lem :
    (n : ℕ) (fs : List File)
    → let k = pos (suc n) in
      (opens k (destroy_all fs) ≡ 0) × (closes k (destroy_all fs) ≡ owned k fs)
unfolding destroy_all destroy
destroy_all_lem n [] = (refl, refl)
destroy_all_lem n (f ∷ fs) = let (a, b) = destroy_all_lem n fs in ground arith

make_file_lem :
    (n : ℕ) (made : ℤ × List SysCall) (earlier : List File)
    (next : File → List SysCall × Option (List Root))
    → Balanced (pos (suc n)) made
    → ((f : File) → Settled (pos (suc n)) (owned (pos (suc n)) (f ∷ earlier)) (next f))
    → Settled (pos (suc n)) (owned (pos (suc n)) earlier) (make_file made earlier next)
unfolding make_file
make_file_lem n (fd, calls) earlier next b rest =
    let k = pos (suc n) in
    let f : File = record { fd_ = fd } in
    let later = (rest f).counted in
    let (none_opened, all_closed) = destroy_all_lem n (f ∷ earlier) in
    record {
      counted = ground (
        arith,
        opens-append k calls (next f).0,
        closes-append k calls (next f).0,
        opens-append k calls (destroy_all (f ∷ earlier)),
        closes-append k calls (destroy_all (f ∷ earlier)),
      );
    }

roots-Settled :
    (n : ℕ) (f1 f2 f3 f4 f5 f6 : File)
    → Settled (pos (suc n)) (owned (pos (suc n)) (f6 ∷ f5 ∷ f4 ∷ f3 ∷ f2 ∷ f1 ∷ [])) (
      [],
      some (
          bandwidth_monitor_accept true (f1 ∷ f2 ∷ [])
          ∷ landing_accept false (f4 ∷ f3 ∷ [])
          ∷ landing_accept true (f5 ∷ f6 ∷ [])
          ∷ []),
    )
roots-Settled n f1 f2 f3 f4 f5 f6 = record { counted = omega arith }

-- Whatever the kernel answers, to every call on each of the six sockets: every descriptor above 0 is closed
-- as often as it was opened, less the files of the servers that are started. So when a socket
-- fails and `server_func` returns early, every socket opened by then is closed exactly once, and when the
-- servers start, no socket of theirs has been closed.
pub server_func_settled :
    (n : ℕ) (ws ws6 http6 http https https6 : Answers)
    → let k = pos (suc n) in
      let (calls, roots) = server_func ws ws6 http6 http https https6 in
      opens k calls ≡ closes k calls + served_by k roots
unfolding server_func
server_func_settled n ws ws6 http6 http https https6 =
    let whole : Settled (pos (suc n)) 0 (server_func ws ws6 http6 http https https6) =
      make_file_lem n (setup_server_socket ws 8443) [] _ (setup_server_socket-Balanced n ws 8443)
        (λ f1.
          make_file_lem n (setup_server_socket6 ws6 8443) (f1 ∷ []) _
            (setup_server_socket6-Balanced n ws6 8443)
            (λ f2.
              make_file_lem n (setup_server_socket6 http6 80) (f2 ∷ f1 ∷ []) _
                (setup_server_socket6-Balanced n http6 80)
                (λ f3.
                  make_file_lem n (setup_server_socket http 80) (f3 ∷ f2 ∷ f1 ∷ []) _
                    (setup_server_socket-Balanced n http 80)
                    (λ f4.
                      make_file_lem n (setup_server_socket https 443) (f4 ∷ f3 ∷ f2 ∷ f1 ∷ []) _
                        (setup_server_socket-Balanced n https 443)
                        (λ f5.
                          make_file_lem n (setup_server_socket6 https6 443)
                            (f5 ∷ f4 ∷ f3 ∷ f2 ∷ f1 ∷ []) _
                            (setup_server_socket6-Balanced n https6 443)
                            (λ f6. roots-Settled n f1 f2 f3 f4 f5 f6)))))) in
    let counted = whole.counted in omega arith
