-- ===== src/Monitor/Tests.antt =====
-- A monitor connection, and the theorems at it.
use localsoftware.Common.{
  ℕ, suc, ◌+◌, ◌≡◌, refl, true, false, List, [], ◌∷◌, ◌++◌, some, length, map, arith,
}
use localsoftware.Common.Maps.{lookup, nat_eq}
use localsoftware.Common.Text.{codes}
use localsoftware.Runtime.Types.{IoUringData, EventInfo, fresh_data, ok, err, out_of_range}
use localsoftware.Runtime.Event.{cleared}
use localsoftware.Program.Usage.{Entry, log_line, digits_value, skip_spaces}
use localsoftware.Monitor.Format.{
  LogRecord, base64_encode, encode_all, scan_line, scan_char, scan_digits, rest_of_digits,
}
use localsoftware.Monitor.{
  Children, Monitor, State, Reading, websocket_logs, websocket_live, noted, stage_websocket_live,
}
use localsoftware.Monitor.Base64.{base64_decode, base64_decode-base64_encode}
use localsoftware.Monitor.Lines.{scan_line-log_line}
use localsoftware.Monitor.Logs.{records_of, concat, Chunks, streamed, streamed_lem}
use localsoftware.Monitor.Live.{Fired, sent, stage_websocket_live_paced}

abbrev children : Children
children = record {
  http = 1;
  data_timer = 2;
  websocket = 3;
  read_http = 10;
  respond = λ r. 11;
  switching = λ key. 12;
  prepare_timer = 13;
  write_marker = 14;
  write_record = λ r. 1000 + r.timestamp;
  write_records = λ rs. 100 + length rs;
  get_data = λ obj. err out_of_range;
  alive = λ obj. true;
  sha1 = λ text. text;
}

abbrev child : EventInfo
child = record { locator = some (record { object_id = 5; thread_id = 1 ∷ [] }); event = some 5 }

abbrev context : IoUringData
context = record fresh_data {
  sub_events = (2, some child ∷ []) ∷ (3, some child ∷ []) ∷ [];
  local_proc_id = 9;
}

abbrev midnight : Entry
midnight = record { ts = 9; d = 5; m = 3; y = 2025; h = 0; tx = 7; rx = 55 }

abbrev lines : List (List ℕ)
lines = codes "[9] 05/03/2025 0 7 55" ∷ codes "rubbish" ∷ codes "[8] 5/3/2025 1 2 3" ∷ []

abbrev monitor : Monitor
monitor = record {
  timer_ = 0;
  timerid_ = 7;
  websocket_writerid_ = 8;
  write_occurred_ = false;
  timeout_occurred_ = false;
  log_ = lines;
  current_op_ = websocket_logs;
}

scan_line-log_line_example :
    scan_line (log_line midnight)
    ≡ some (record { timestamp = 9; tx_bytes = 7; rx_bytes = 55; hour = 0 })
scan_line-log_line_example =
    scan_line-log_line midnight (omega arith) (omega arith) (omega arith) (omega arith)
      (omega arith) (omega arith) (omega arith)

lines_scanned : length (records_of lines) ≡ 2
unfolding scan_line scan_char scan_digits rest_of_digits digits_value skip_spaces
lines_scanned = refl

streamed_lem_example :
    (s : State) × (cs : List (List LogRecord)) × (streamed children
        (suc (length (records_of lines)))
        (monitor, cleared, context)
      ≡ ok s)
    × (s.0.current_op_ ≡ websocket_live)
    × (concat cs ≡ records_of lines)
    × Chunks cs
    × (map (λ f. f.fun) s.1.function_ ≡ map children.write_records cs ++ 14 ∷ [])
unfolding lookup
streamed_lem_example = streamed_lem children monitor cleared context child [] refl refl

abbrev reading : ℕ → Reading
reading now = record { now = now; now_hours = 3; global_rx_speed = 40; global_tx_speed = 50 }

stage_websocket_live_paced_example :
    (stage_websocket_live children (reading 1) (sent monitor, cleared, context) 8
      ≡ ok (noted (sent monitor) 8, cleared, context))
    × Fired children
        (reading 2)
        cleared
        (stage_websocket_live children (reading 2) (noted (sent monitor) 8, cleared, context) 7)
    × (stage_websocket_live children (reading 1) (sent monitor, cleared, context) 7
        ≡ ok (noted (sent monitor) 7, cleared, context))
    × Fired children
        (reading 2)
        cleared
        (stage_websocket_live children (reading 2) (noted (sent monitor) 7, cleared, context) 8)
unfolding lookup
stage_websocket_live_paced_example =
    stage_websocket_live_paced children (reading 1) (reading 2) monitor cleared context child child
      [] [] (ground arith) (ground arith) refl refl

-- The octets of RFC 4648.
encoded : base64_encode (codes "fooba") ≡ codes "Zm9vYmE="
unfolding base64_encode encode_all
encoded = refl

base64_decode-base64_encode_example : base64_decode (base64_encode (codes "fooba")) ≡ codes "fooba"
base64_decode-base64_encode_example =
    base64_decode-base64_encode (codes "fooba")
      (omega arith, (omega arith, (omega arith, (omega arith, (omega arith, tt)))))
