-- ===== src/Program/Tests.antt =====
-- Runs of the account and of the start, and the theorems about them at concrete arguments.
use localsoftware.Common.{◌+◌, ◌≡◌, refl, List, [], ◌∷◌, ◌++◌, some, arith, ℕ}
use localsoftware.Common.Int.{pos, negsuc}
use localsoftware.Common.Text.{codes}
use localsoftware.Program.Usage.{
  Sample, Now, read_bytes, skip_spaces, extract, digits_value, decimal, digits, init, pass,
  add_sample, turn_clock, loop, log_entry, log_line,
}
use localsoftware.Program.Usage.Totals.{sum_rx, sum_tx, loop_accounts}
use localsoftware.Program.Usage.Decimal.{read_bytes-decimal}
use localsoftware.Program.Sockets.{Answers, server_func}
use localsoftware.Program.Sockets.Closing.{opens, closes, served_by, server_func_settled}

abbrev at : ℕ → ℕ → Now
at day hours = record { count = 0; year = 2025; month = 3; day = day; hours = hours }

abbrev sample : ℕ → ℕ → Now → Sample
sample rx tx now = record {
  rx_file = some (decimal rx ++ 10 ∷ []);
  tx_file = some (decimal tx ++ 10 ∷ []);
  now = now;
}

abbrev before : Sample
before = sample 100 10 (at 4 22)

abbrev later : List Sample
later = sample 130 11 (at 4 22) ∷ sample 150 15 (at 4 23) ∷ sample 155 17 (at 5 0) ∷ []

rx_100 : read_bytes (some (decimal 100 ++ 10 ∷ [])) ≡ 100
rx_100 = read_bytes-decimal 100 (10 ∷ []) (omega arith) refl

loop_accounts_example :
    let (u, hours, days) = loop (init before) later in
    (sum_rx hours + u.hourly_rx ≡ 55)
    × (sum_rx days + u.daily_rx ≡ 55)
    × (sum_tx hours + u.hourly_tx ≡ 7)
    × (sum_tx days + u.daily_tx ≡ 7)
unfolding read_bytes decimal digits skip_spaces extract digits_value
loop_accounts_example =
    loop_accounts before later (omega arith, (omega arith, (omega arith, tt)))
      (omega arith, (omega arith, (omega arith, tt))) (omega arith) (omega arith)

-- Two days with an hour in between, and the log's line for the last hour.
days_logged :
    (loop (init before) later).2
    ≡ record { ts = 0; d = 5; m = 3; y = 2025; h = 0; tx = 7; rx = 55 } ∷ []
unfolding loop pass init add_sample turn_clock read_bytes decimal digits skip_spaces extract
    digits_value
days_logged = refl

line_logged :
    log_entry (record { ts = 9; d = 5; m = 3; y = 2025; h = 0; tx = 7; rx = 55 })
    ≡ codes "[9] 05/03/2025 0 7 55\n"
unfolding log_entry log_line decimal digits
line_logged = refl

abbrev granted : ℕ → Answers
granted fd = record {
  socket_fd = pos fd;
  reuseaddr = pos 0;
  v6only = pos 0;
  bound = pos 0;
  listening = pos 0;
}

abbrev refused : ℕ → Answers
refused fd = record (granted fd) { bound = negsuc 0 }

server_func_settled_example :
    let (calls, roots) =
      server_func (granted 3) (granted 4) (refused 5) (granted 6) (granted 7) (granted 8) in
    opens (pos 3) calls ≡ closes (pos 3) calls + served_by (pos 3) roots
server_func_settled_example =
    server_func_settled 2 (granted 3) (granted 4) (refused 5) (granted 6) (granted 7) (granted 8)
