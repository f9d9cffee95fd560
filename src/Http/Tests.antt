-- ===== src/Http/Tests.antt =====
-- A small parser and serializer, and the theorems at them: a message is three bytes long.
use localsoftware.Common.{
  ℕ, ◌+◌, ◌≡◌, refl, true, false, List, [], ◌∷◌, ◌++◌, some, leb, ◌==◌, if◌then◌else◌, length, take,
  drop, arith, map, inl, sym, take-append-drop, length-drop,
}
use localsoftware.Common.Int.{pos}
use localsoftware.Common.Maps.{lookup, nat_eq}
use localsoftware.Runtime.Types.{
  IoUringData, EventInfo, fresh_data, finished, child_task_completion, ok,
}
use localsoftware.Runtime.Event.{Queues, cleared}
use localsoftware.Http.{
  success, need_more, Parser, Serializer, Children, Http, State, write_http, on_yield,
}
use localsoftware.Http.Feed.{Progress, Remembers, Read, on_yield_read}
use localsoftware.Http.Respond.{Serializes, write_http_whole}
use localsoftware.Http.Drain.{written}

-- The bytes so far; the parser takes one byte for each call.
abbrev three_bytes : Parser (List ℕ)
three_bytes = record {
  new = [];
  put = λ p buf. (p ++ take 1 buf, 1, success);
  is_done = λ p. leb 3 (length p);
}

abbrev pieces : Serializer (List ℕ) (List ℕ)
pieces = record {
  start = λ res. res;
  is_done = λ sr. length sr == 0;
  next = λ sr. (drop 2 sr, take 2 sr, success);
  calls = λ sr. length sr;
}

abbrev children : Children
children = record {
  tls_socket = 4;
  read_write_bytes = 5;
  read = λ ty n. ty + n;
  write = λ ty buf. 10000 + length buf;
}

abbrev socket_child : EventInfo
socket_child = record {
  locator = some (record { object_id = 5; thread_id = 1 ∷ [] });
  event = some 5;
}

abbrev context : IoUringData
context = record fresh_data { sub_events = (5, some socket_child ∷ []) ∷ [] }

abbrev reader : Http (List ℕ)
reader = record {
  read_op_ = true;
  taskid_writer_ = 0;
  taskid_reader_ = 0;
  parser_ = some (7 ∷ []);
  buffer_ = [];
  write_buffer_ = [];
  tls_enabled_ = false;
}

three_bytes-Progress : Progress three_bytes
three_bytes-Progress p c buf = inl (omega arith)

three_bytes-Remembers : Remembers three_bytes (λ p. p)
three_bytes-Remembers p buf = refl

on_yield_read_example :
    Read three_bytes children
      (λ p. p)
      reader
      cleared
      context
      (7 ∷ 8 ∷ 9 ∷ [])
      (on_yield three_bytes children
        (reader, cleared, context)
        (8 ∷ 9 ∷ 0 ∷ [])
        (child_task_completion 0 0 finished (pos 2)))
unfolding lookup
on_yield_read_example =
    on_yield_read three_bytes children (λ p. p) (7 ∷ []) reader cleared context (8 ∷ 9 ∷ 0 ∷ []) 0 0
      1 finished socket_child [] three_bytes-Progress three_bytes-Remembers refl refl refl

no_bytes : (sr : List ℕ) → (length sr == 0) ≡ true → sr ≡ []
no_bytes [] h = refl
no_bytes (x ∷ sr) h = ground arith

pieces-Serializes : Serializes pieces (λ sr. sr)
pieces-Serializes = record {
  done_body = no_bytes;
  no_error = λ sr h. refl;
  next_body = λ sr h. sym (take-append-drop 2 sr);
  fewer_calls = λ sr h. ground (arith, length-drop 2 sr);
}

write_http_whole_example :
    (s : State (List ℕ)) × (h' : Http (List ℕ)) × (q' : Queues) × (d' : IoUringData) × (write_http
        pieces children
        (reader, cleared, context)
        (1 ∷ 2 ∷ 3 ∷ 4 ∷ 5 ∷ [])
      ≡ ok s)
    × (written three_bytes children s (2 ∷ 3 ∷ []) ≡ ok ((h', q', d'), some (false, pos 1)))
    × (h'.write_buffer_ ≡ [])
    × (map (λ f. f.fun) q'.function_ ≡ 10005 ∷ 10003 ∷ [])
unfolding lookup
write_http_whole_example =
    write_http_whole pieces (λ sr. sr) pieces-Serializes three_bytes children reader cleared context
      (1 ∷ 2 ∷ 3 ∷ 4 ∷ 5 ∷ []) (2 ∷ 3 ∷ []) socket_child []
      (omega arith, omega arith, (omega arith, refl)) refl

-- A parser that takes its three bytes at once or none.
abbrev whole_header : Parser (List ℕ)
whole_header = record {
  new = [];
  put = λ p buf. if leb 3 (length buf) then (take 3 buf, 3, success) else (p, 0, need_more);
  is_done = λ p. leb 3 (length p);
}

abbrev waiting : Http (List ℕ)
waiting = record reader { parser_ = some []; buffer_ = 8 ∷ [] }
