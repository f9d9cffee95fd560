-- ===== src/Program/Usage.antt =====
-- `read_bytes`, `log_entry` and the loop of `main` in src/localsoftware.cpp. The clock and the contents
-- of the counter files are arguments: one sample for each pass of the loop. A speed is the number that
-- the source converts to a double.
pub mod Decimal
pub mod Totals
use localsoftware.Common.{
  ℕ, ◌+◌, ◌-◌, ◌*◌, ◌/◌, ◌%◌, ◌^◌, zero, suc, Bool, true, false, not, ◌&&◌, ◌||◌, List, [], ◌∷◌,
  ◌++◌, Option, none, some, ltb, leb, ◌==◌, if◌then◌else◌,
}
use localsoftware.Common.Text.{codes}
use localsoftware.Runtime.Ids.{u64}

abbrev pub is_digit : ℕ → Bool
is_digit c = leb 48 c && leb c 57

-- Decimal digits, the highest first. A number below 10 ^ fuel needs `fuel` digits at most.
unfoldable pub digits : ℕ → ℕ → List ℕ
digits zero n = []
digits (suc fuel) n =
    let higher = digits fuel (n / 10) in
    if ltb n 10 then (48 + n) ∷ [] else higher ++ ((48 + n % 10) ∷ [])

-- `<<` on an unsigned number of 64 bits.
unfoldable pub decimal : ℕ → List ℕ
decimal n = digits 20 n

-- The value of the digits that a text begins with, after a value so far.
unfoldable pub digits_value : ℕ → List ℕ → ℕ
digits_value n [] = n
digits_value n (c ∷ cs) =
    let rest = digits_value (10 * n + (c - 48)) cs in if is_digit c then rest else n

-- White space, which `>>` skips.
abbrev pub is_space : ℕ → Bool
is_space c = (c == 32) || (leb 9 c && leb c 13)

unfoldable pub skip_spaces : List ℕ → List ℕ
skip_spaces [] = []
skip_spaces (c ∷ cs) = let rest = skip_spaces cs in if is_space c then rest else c ∷ cs

-- `>>` into an unsigned long long, for a text without a sign: it fails without a digit, and when the
-- number does not fit.
unfoldable pub extract : List ℕ → Option ℕ
unfolding digits_value
extract [] = none
extract (c ∷ cs) =
    let n = digits_value 0 (c ∷ cs) in if is_digit c && ltb n (2 ^ 64) then some n else none

abbrev pub or_zero : Option ℕ → ℕ
or_zero none = 0
or_zero (some bytes) = bytes

-- `read_bytes`: `none` is a file that cannot be opened.
unfoldable pub read_bytes : Option (List ℕ) → ℕ
read_bytes none = 0
read_bytes (some text) = or_zero (extract (skip_spaces text))

-- The local time of a sample.
pub record Now : Type 0 where
  pub count : ℕ
  pub year : ℕ
  pub month : ℕ
  pub day : ℕ
  pub hours : ℕ

-- The arguments of `log_entry`.
pub record Entry : Type 0 where
  pub ts : ℕ
  pub d : ℕ
  pub m : ℕ
  pub y : ℕ
  pub h : ℕ
  pub tx : ℕ
  pub rx : ℕ

-- `setw(2) << setfill('0')`.
abbrev pub two_wide : ℕ → List ℕ
two_wide n = if ltb n 10 then 48 ∷ decimal n else decimal n

-- The line that `log_entry` appends, without its end.
unfoldable pub log_line : Entry → List ℕ
log_line e =
    codes "["
    ++ (decimal e.ts
        ++ (codes "] "
            ++ (two_wide e.d
                ++ (codes "/"
                    ++ (two_wide e.m
                        ++ (codes "/"
                            ++ (decimal e.y
                                ++ (codes " "
                                    ++ (decimal e.h
                                        ++ (codes " "
                                            ++ (decimal e.tx
                                                ++ (codes " " ++ decimal e.rx))))))))))))

unfoldable pub log_entry : Entry → List ℕ
log_entry e = log_line e ++ 10 ∷ []

-- The variables of `main` and the global speeds.
pub record Usage : Type 0 where
  pub rx_prev : ℕ
  pub tx_prev : ℕ
  pub hourly_rx : ℕ
  pub hourly_tx : ℕ
  pub daily_rx : ℕ
  pub daily_tx : ℕ
  pub prev_day : ℕ
  pub prev_hours : ℕ
  pub global_rx_speed : ℕ
  pub global_tx_speed : ℕ

-- What one pass of the loop reads.
pub record Sample : Type 0 where
  pub rx_file : Option (List ℕ)
  pub tx_file : Option (List ℕ)
  pub now : Now

unfoldable pub init : Sample → Usage
unfolding read_bytes
init s = record {
  rx_prev = read_bytes s.rx_file;
  tx_prev = read_bytes s.tx_file;
  hourly_rx = 0;
  hourly_tx = 0;
  daily_rx = 0;
  daily_tx = 0;
  prev_day = s.now.day;
  prev_hours = s.now.hours;
  global_rx_speed = 0;
  global_tx_speed = 0;
}

-- A counter that falls counts as standing still.
abbrev pub diff : ℕ → ℕ → ℕ
diff prev curr = if leb prev curr then curr - prev else 0

abbrev pub entry_of : Now → ℕ → ℕ → Entry
entry_of now tx rx = record {
  ts = now.count;
  d = now.day;
  m = now.month;
  y = now.year;
  h = now.hours;
  tx = tx;
  rx = rx;
}

-- The first part of a pass: the counters.
unfoldable pub add_sample : Usage → ℕ → ℕ → Usage
add_sample u rx_curr tx_curr =
    let rx_diff = diff u.rx_prev rx_curr in
    let tx_diff = diff u.tx_prev tx_curr in
    record u {
      global_rx_speed = rx_diff;
      global_tx_speed = tx_diff;
      hourly_rx = u64 (u.hourly_rx + rx_diff);
      hourly_tx = u64 (u.hourly_tx + tx_diff);
      daily_rx = u64 (u.daily_rx + rx_diff);
      daily_tx = u64 (u.daily_tx + tx_diff);
      rx_prev = rx_curr;
      tx_prev = tx_curr;
    }

-- The second part, with the entries of the hour and of the day, in this order.
unfoldable pub turn_clock : Usage → Now → Usage × Option Entry × Option Entry
turn_clock u now =
    if now.hours == u.prev_hours
    then (u, none, none)
    else (let u1 = record u { hourly_rx = 0; hourly_tx = 0 } in
        let hour = entry_of now u.hourly_tx u.hourly_rx in
        if not (u1.prev_day == now.day)
        then (
          record u1 { daily_rx = 0; daily_tx = 0; prev_day = now.day; prev_hours = now.hours },
          some hour,
          some (entry_of now u1.daily_tx u1.daily_rx),
        )
        else (record u1 { prev_day = now.day; prev_hours = now.hours }, some hour, none))

unfoldable pub pass : Usage → Sample → Usage × Option Entry × Option Entry
unfolding add_sample turn_clock read_bytes
pass u s = turn_clock (add_sample u (read_bytes s.rx_file) (read_bytes s.tx_file)) s.now

-- Several passes, with the entries of the hours and those of the days.
abbrev pub cons_some : Option Entry → List Entry → List Entry
cons_some none es = es
cons_some (some e) es = e ∷ es

unfoldable pub loop : Usage → List Sample → Usage × List Entry × List Entry
unfolding pass
loop u [] = (u, [], [])
loop u (s ∷ ss) =
    let (u1, hour, day) = pass u s in
    let (u2, hours, days) = loop u1 ss in (u2, cons_some hour hours, cons_some day days)
