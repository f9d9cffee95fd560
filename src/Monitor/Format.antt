-- ===== src/Monitor/Format.antt =====
-- The formats of the bandwidth monitor, in src/bandwidth_monitor/monitoring_server.{h,cpp}: base64 for the
-- WebSocket handshake, and the scan of a line of the log.
use localsoftware.Common.{
  ℕ, ◌+◌, ◌-◌, ◌*◌, ◌/◌, ◌%◌, ◌^◌, zero, suc, List, [], ◌∷◌, ◌++◌, Option, none, some, ◌==◌,
  if◌then◌else◌, length, take, replicate, get_or,
}
use localsoftware.Common.Text.{codes}
use localsoftware.Program.Usage.{is_digit, digits_value, skip_spaces}

-- The packed `LogRecord`, of 28 bytes.
pub record LogRecord : Type 0 where
  pub timestamp : ℕ
  pub tx_bytes : ℕ
  pub rx_bytes : ℕ
  pub hour : ℕ

abbrev pub encoding_table : List ℕ
encoding_table = codes "ABCDEFGHIJKLMNOPQRSTUVWXYZabcdefghijklmnopqrstuvwxyz0123456789+/"

abbrev pub mod_table : ℕ → ℕ
mod_table n = get_or (0 ∷ 2 ∷ 1 ∷ []) n 0

-- The four characters of three octets.
abbrev pub encode_triple : ℕ → ℕ → ℕ → List ℕ
encode_triple a b c =
    let triple = a * 2 ^ 16 + b * 2 ^ 8 + c in
    get_or encoding_table (triple / 2 ^ 18 % 64) 0
    ∷ get_or encoding_table (triple / 2 ^ 12 % 64) 0
    ∷ get_or encoding_table (triple / 2 ^ 6 % 64) 0
    ∷ get_or encoding_table (triple % 64) 0
    ∷ []

-- Missing octets are 0.
unfoldable pub encode_all : List ℕ → List ℕ
encode_all [] = []
encode_all (a ∷ []) = encode_triple a 0 0
encode_all (a ∷ b ∷ []) = encode_triple a b 0
encode_all (a ∷ b ∷ c ∷ data') = encode_triple a b c ++ encode_all data'

-- `base64_encode`: the last characters are overwritten with `=`.
unfoldable pub base64_encode : List ℕ → List ℕ
base64_encode octets =
    let encoded_data = encode_all octets in
    let padding = mod_table (length octets % 3) in
    take (length encoded_data - padding) encoded_data ++ replicate padding 61

abbrev pub guid : List ℕ
guid = codes "258EAFA5-E914-47DA-95CA-C5AB0DC85B11"

-- `%lld`, `%d` or `%llu` of `sscanf` on a text without signs, whose numbers fit.
unfoldable pub rest_of_digits : List ℕ → List ℕ
rest_of_digits [] = []
rest_of_digits (c ∷ cs) = let rest = rest_of_digits cs in if is_digit c then rest else c ∷ cs

unfoldable pub scan_digits : List ℕ → Option (ℕ × List ℕ)
scan_digits [] = none
scan_digits (c ∷ cs) =
    if is_digit c then some (digits_value 0 (c ∷ cs), rest_of_digits (c ∷ cs)) else none

abbrev pub scan_number : List ℕ → Option (ℕ × List ℕ)
scan_number text = scan_digits (skip_spaces text)

-- A character of the format that is not white space.
unfoldable pub scan_char : ℕ → List ℕ → Option (List ℕ)
scan_char k [] = none
scan_char k (c ∷ cs) = if k == c then some cs else none

infixl 5 ◌>>=◌
abbrev ◌>>=◌ {ℓ κ} : {A : Type ℓ} {B : Type κ} → Option A → (A → Option B) → Option B
none >>= f = none
some a >>= f = f a

-- `sscanf` with "[%lld] %d/%d/%d %d %llu %llu": the record, if all seven are converted.
unfoldable pub scan_line : List ℕ → Option LogRecord
scan_line line = do
  text ← scan_char 91 line
  (ts, text) ← scan_number text
  text ← scan_char 93 text
  (d, text) ← scan_number text
  text ← scan_char 47 text
  (m, text) ← scan_number text
  text ← scan_char 47 text
  (y, text) ← scan_number text
  (h, text) ← scan_number text
  (tx, text) ← scan_number text
  (rx, text) ← scan_number text
  some (record { timestamp = ts; tx_bytes = tx; rx_bytes = rx; hour = h })

-- The loop of `stage_websocket_logs`: up to `room` records, and the lines after them.
unfoldable pub take_records : ℕ → List (List ℕ) → List LogRecord × List (List ℕ)
take_records zero lines = ([], lines)
take_records (suc room) [] = ([], [])
take_records (suc room) (line ∷ lines) =
    let skipped = take_records (suc room) lines in
    let (records, rest) = take_records room lines in
    elim (scan_line line) [ none ↦ skipped | some r ↦ (r ∷ records, rest) ]
