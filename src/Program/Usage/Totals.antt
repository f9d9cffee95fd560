-- ===== src/Program/Usage/Totals.antt =====
-- The hours and the days of the log together account for all the traffic.
use localsoftware.Common.{
  ℕ, ◌+◌, ◌-◌, ◌^◌, ◌≤◌, ◌<◌, ◌≡◌, List, [], ◌∷◌, Option, none, some, ap, arith,
}
use localsoftware.Program.Usage.{
  Entry, Usage, Sample, Now, read_bytes, diff, add_sample, turn_clock, pass, loop, init, cons_some,
}

abbrev pub sum_rx : List Entry → ℕ
sum_rx [] = 0
sum_rx (e ∷ es) = e.rx + sum_rx es

abbrev pub sum_tx : List Entry → ℕ
sum_tx [] = 0
sum_tx (e ∷ es) = e.tx + sum_tx es

-- What the counters advance over some samples.
abbrev pub traffic : (Sample → ℕ) → ℕ → List Sample → ℕ
traffic read prev [] = 0
traffic read prev (s ∷ ss) = diff prev (read s) + traffic read (read s) ss

abbrev pub rx_read : Sample → ℕ
rx_read s = read_bytes s.rx_file

abbrev pub tx_read : Sample → ℕ
tx_read s = read_bytes s.tx_file

-- The open shares and the logged ones, for one direction.
abbrev Moved : (hourly daily hourly' daily' hours days n : ℕ) → Type 0
Moved hourly daily hourly' daily' hours days n =
    (hours + hourly' ≡ hourly + n) × (days + daily' ≡ daily + n)

abbrev RxMoved : Usage → ℕ → Usage × List Entry × List Entry → Type 0
RxMoved u n r = Moved u.hourly_rx u.daily_rx r.0.hourly_rx r.0.daily_rx (sum_rx r.1) (sum_rx r.2) n

abbrev TxMoved : Usage → ℕ → Usage × List Entry × List Entry → Type 0
TxMoved u n r = Moved u.hourly_tx u.daily_tx r.0.hourly_tx r.0.daily_tx (sum_tx r.1) (sum_tx r.2) n

abbrev logged : Usage × Option Entry × Option Entry → Usage × List Entry × List Entry
logged (u, hour, day) = (u, cons_some hour [], cons_some day [])

turn_clock_moved :
    (u : Usage) (now : Now)
    → RxMoved u 0 (logged (turn_clock u now)) × TxMoved u 0 (logged (turn_clock u now))
unfolding turn_clock
turn_clock_moved u now = ground arith

turn_clock_kept :
    (u : Usage) (now : Now)
    → let u' = (turn_clock u now).0 in (u'.rx_prev ≡ u.rx_prev) × (u'.tx_prev ≡ u.tx_prev)
unfolding turn_clock
turn_clock_kept u now = ground arith

sum_rx-cons_some :
    (o : Option Entry) (es : List Entry)
    → sum_rx (cons_some o es) ≡ sum_rx (cons_some o []) + sum_rx es
sum_rx-cons_some none es = omega arith
sum_rx-cons_some (some e) es = omega arith

sum_tx-cons_some :
    (o : Option Entry) (es : List Entry)
    → sum_tx (cons_some o es) ≡ sum_tx (cons_some o []) + sum_tx es
sum_tx-cons_some none es = omega arith
sum_tx-cons_some (some e) es = omega arith

pass_rx :
    (u : Usage) (s : Sample)
    → u.hourly_rx + diff u.rx_prev (rx_read s) < 2 ^ 64
    → u.daily_rx + diff u.rx_prev (rx_read s) < 2 ^ 64
    → RxMoved u (diff u.rx_prev (rx_read s)) (logged (pass u s))
      × ((pass u s).0.rx_prev ≡ rx_read s)
unfolding pass add_sample
pass_rx u s h d =
    let u1 = add_sample u (rx_read s) (tx_read s) in
    let ((a, b), _) = turn_clock_moved u1 s.now in
    ((omega arith, omega arith), (turn_clock_kept u1 s.now).0)

pass_tx :
    (u : Usage) (s : Sample)
    → u.hourly_tx + diff u.tx_prev (tx_read s) < 2 ^ 64
    → u.daily_tx + diff u.tx_prev (tx_read s) < 2 ^ 64
    → TxMoved u (diff u.tx_prev (tx_read s)) (logged (pass u s))
      × ((pass u s).0.tx_prev ≡ tx_read s)
unfolding pass add_sample
pass_tx u s h d =
    let u1 = add_sample u (rx_read s) (tx_read s) in
    let (_, (a, b)) = turn_clock_moved u1 s.now in
    ((omega arith, omega arith), (turn_clock_kept u1 s.now).1)

loop_rx :
    (u : Usage) (ss : List Sample)
    → u.hourly_rx + traffic rx_read u.rx_prev ss < 2 ^ 64
    → u.daily_rx + traffic rx_read u.rx_prev ss < 2 ^ 64
    → RxMoved u (traffic rx_read u.rx_prev ss) (loop u ss)
unfolding loop
loop_rx u [] h d = (omega arith, omega arith)
loop_rx u (s ∷ ss) h d =
    let (u1, hour, day) = pass u s in
    let ((a, b), e) = pass_rx u s (omega arith) (omega arith) in
    let same : traffic rx_read u1.rx_prev ss ≡ traffic rx_read (rx_read s) ss =
      ap (λ p. traffic rx_read p ss) e in
    let (a', b') = loop_rx u1 ss (omega arith) (omega arith) in
    let (_, hours, days) = loop u1 ss in
    (omega (arith, sum_rx-cons_some hour hours), omega (arith, sum_rx-cons_some day days))

loop_tx :
    (u : Usage) (ss : List Sample)
    → u.hourly_tx + traffic tx_read u.tx_prev ss < 2 ^ 64
    → u.daily_tx + traffic tx_read u.tx_prev ss < 2 ^ 64
    → TxMoved u (traffic tx_read u.tx_prev ss) (loop u ss)
unfolding loop
loop_tx u [] h d = (omega arith, omega arith)
loop_tx u (s ∷ ss) h d =
    let (u1, hour, day) = pass u s in
    let ((a, b), e) = pass_tx u s (omega arith) (omega arith) in
    let same : traffic tx_read u1.tx_prev ss ≡ traffic tx_read (tx_read s) ss =
      ap (λ p. traffic tx_read p ss) e in
    let (a', b') = loop_tx u1 ss (omega arith) (omega arith) in
    let (_, hours, days) = loop u1 ss in
    (omega (arith, sum_tx-cons_some hour hours), omega (arith, sum_tx-cons_some day days))

-- The counter never falls between two samples.
abbrev pub Rising : (Sample → ℕ) → ℕ → List Sample → Type 0
Rising read prev [] = Unit {0}
Rising read prev (s ∷ ss) = (prev ≤ read s) × Rising read (read s) ss

abbrev pub last_read : (Sample → ℕ) → ℕ → List Sample → ℕ
last_read read prev [] = prev
last_read read prev (s ∷ ss) = last_read read (read s) ss

traffic-Rising :
    (read : Sample → ℕ) (prev : ℕ) (ss : List Sample)
    → Rising read prev ss
    → traffic read prev ss + prev ≡ last_read read prev ss
traffic-Rising read prev [] r = omega arith
traffic-Rising read prev (s ∷ ss) (le, r) =
    let later = traffic-Rising read (read s) ss r in ground arith

-- After the start, over any samples and at any local times in between: while neither counter falls and each
-- advances by less than 2 ^ 64 in all, the shares of the hours that are logged and the open share of
-- the hour add up to exactly what the counter has advanced since the first sample, and so do the
-- shares of the days with the open share of the day, for the received and for the sent bytes. Every
-- byte is in one hour and in one day, whenever the shares are closed.
pub loop_accounts :
    (first : Sample) (ss : List Sample)
    → Rising rx_read (rx_read first) ss
    → Rising tx_read (tx_read first) ss
    → last_read rx_read (rx_read first) ss < 2 ^ 64 + rx_read first
    → last_read tx_read (tx_read first) ss < 2 ^ 64 + tx_read first
    → let (u, hours, days) = loop (init first) ss in
      let rx = last_read rx_read (rx_read first) ss - rx_read first in
      let tx = last_read tx_read (tx_read first) ss - tx_read first in
      (sum_rx hours + u.hourly_rx ≡ rx)
      × (sum_rx days + u.daily_rx ≡ rx)
      × (sum_tx hours + u.hourly_tx ≡ tx)
      × (sum_tx days + u.daily_tx ≡ tx)
unfolding init
loop_accounts first ss rise_rx rise_tx small_rx small_tx =
    let all_rx = traffic-Rising rx_read (rx_read first) ss rise_rx in
    let all_tx = traffic-Rising tx_read (tx_read first) ss rise_tx in
    let (a, b) = loop_rx (init first) ss (omega arith) (omega arith) in
    let (a', b') = loop_tx (init first) ss (omega arith) (omega arith) in
    (omega arith, omega arith, omega arith, omega arith)
