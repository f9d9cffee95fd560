-- ===== src/Tls/Tests.antt =====
-- A TLS library that encrypts nothing, and the theorems at it.
use localsoftware.Common.{
  ℕ, ◌+◌, ◌-◌, ◌≡◌, refl, true, false, [], ◌∷◌, some, ◌==◌, if◌then◌else◌, length, take, replicate,
  min, arith, ap, List, map, zero, suc, none,
}
use localsoftware.Common.Int.{pos}
use localsoftware.Common.Maps.{lookup, nat_eq}
use localsoftware.Runtime.Types.{IoUringData, EventInfo, fresh_data, finished, ok}
use localsoftware.Runtime.Event.{Queues, cleared, call_at, call_first, find_filled}
use localsoftware.Tls.{
  Ssl, Child, Tls, State, ssl_error_none, ssl_error_want_read, full, on_yield, handle_write,
  full_write, wrote, arm_write, note_completion, pull, osslcb_read,
}
use localsoftware.Tls.Requests.{Hungry, Asked}
use localsoftware.Tls.Handlers.{Any}
use localsoftware.Tls.Events.{
  Op, told, Quiet, Brings, heard, perform, Reached, at_first, after_op, Reached-Asked,
}
use localsoftware.Tls.Flush.{Drains, bytes_in, flushed, flushed_lem}

-- The state is the number of pending bytes.
abbrev plain : Ssl ℕ
plain = record {
  new = 0;
  accept = λ s input. (s, length input, ssl_error_none);
  connect = λ s input. (s, length input, ssl_error_none);
  read = λ s input n.
      if length input == 0
      then (s, 0, [], ssl_error_want_read)
      else (s, n, take n input, ssl_error_none);
  write = λ s input bytes. (s + length bytes, 0, length bytes, ssl_error_none);
  pending = λ s. s;
  bio_read = λ s n. (s - n, replicate (min s n) 0);
}

plain-Hungry : Hungry plain
plain-Hungry = record {
  accept_hungry = λ s input e. omega arith;
  connect_hungry = λ s input e. omega arith;
  read_hungry = λ s input n e. ground arith;
  write_hungry = λ s input bytes e. ground arith;
}

length-replicate : (n : ℕ) → length (replicate {A = ℕ} n 0) ≡ n
length-replicate zero = refl
length-replicate (suc n) = ap suc (length-replicate n)

plain-Drains : Drains plain
plain-Drains = record {
  write_nothing = λ s input. ap (λ n. (n, 0, 0, ssl_error_none)) (omega arith);
  takes_pending = λ s n. refl;
  gives_taken = λ s n. length-replicate (min s n);
}

abbrev child : Child
child = record { class = 5; read = λ n. n; write = λ bytes. 100 + length bytes }

abbrev socket_child : EventInfo
socket_child = record {
  locator = some (record { object_id = 5; thread_id = 1 ∷ [] });
  event = some 5;
}

abbrev context : IoUringData
context = record fresh_data { sub_events = (5, some socket_child ∷ []) ∷ [] }

abbrev tls : Tls ℕ
tls = record {
  ssl = 20;
  state_ = full;
  server_ = true;
  sticky_read_ = false;
  task_bytes_read_ = 1;
  task_bytes_write_ = 2;
  task_bytes_r_fin_ = true;
  task_bytes_w_fin_ = false;
  task_read_ = 8;
  task_write_ = 9;
  u_read = [];
  u_readlen_ = 4;
  u_write = 1 ∷ 2 ∷ 3 ∷ [];
  u_write_p_ = 3;
  e_read = 5 ∷ 6 ∷ 7 ∷ 8 ∷ 0 ∷ 0 ∷ 0 ∷ 0 ∷ [];
  e_read_s_ = 3;
}

-- A socket whose read is under way, and which has been told that a write of its has completed.
abbrev waiting : Tls ℕ
waiting = record tls { task_bytes_r_fin_ = false; e_read_s_ = 0 }

abbrev write_done : Op
write_done = told [] 9 2 finished (pos 5)

abbrev read_done : Op
read_done = told (1 ∷ 2 ∷ []) 8 1 finished (pos 2)

abbrev queued : Queues × IoUringData × ℕ
queued = call_at cleared context 5 0 (child.write (replicate 8 0))

abbrev after_write : State ℕ
after_write = (
  record waiting { ssl = 12; task_bytes_write_ = queued.2; task_bytes_w_fin_ = false },
  queued.0,
  queued.1,
)

waiting-Quiet : Quiet waiting
waiting-Quiet = record { fits = omega arith; has_room = omega arith; empty = λ e. refl }

write_done-Brings : Brings waiting write_done
write_done-Brings e = absurd (omega (arith, e))

read_done-Brings : Brings after_write.0 read_done
read_done-Brings e = (omega arith, omega arith)

after_write-Reached : Reached plain child (waiting, cleared, context) after_write
unfolding perform on_yield handle_write full_write wrote arm_write call_first call_at lookup
    note_completion pull osslcb_read find_filled
after_write-Reached =
    after_op waiting cleared context write_done after_write none at_first write_done-Brings refl

Reached-Asked_example :
    Quiet after_write.0
    × Asked child Any
        (heard after_write.0 read_done)
        after_write.1
        (perform plain child read_done after_write)
Reached-Asked_example =
    Reached-Asked plain child plain-Hungry (waiting, cleared, context) after_write.0 after_write.1
      after_write.2 read_done waiting-Quiet after_write-Reached read_done-Brings

flushed_lem_example :
    (s : State ℕ) × (parts : List (List ℕ)) × (flushed plain child
        (0 ∷ 7 ∷ 7 ∷ 3 ∷ [])
        (tls, cleared, context)
      ≡ ok (s, some (false, pos 3)))
    × (map (λ f. f.fun) s.1.function_ ≡ map child.write parts)
    × (bytes_in parts ≡ 20)
    × (s.0.ssl ≡ 0)
unfolding lookup
flushed_lem_example =
    flushed_lem plain child plain-Drains 0 (7 ∷ 7 ∷ 3 ∷ []) tls cleared context socket_child []
      (ground arith) (omega arith) refl
