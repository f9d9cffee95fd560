-- ===== src/Monitor/Logs.antt =====
-- The log is streamed whole, in order and in small frames.
use localsoftware.Common.{
  ℕ, ◌+◌, zero, suc, ◌≤◌, ◌<◌, ◌≡◌, refl, Bool, true, false, List, [], ◌∷◌, ◌++◌, Option, none,
  some, ◌==◌, if◌then◌else◌, length, length-append, arith, Bool-cases, Option-cases, inl, inr, ap,
  ◌∙◌, sym, subst, map, append-nil,
}
use localsoftware.Common.Maps.{lookup, nat_eq}
use localsoftware.Runtime.Types.{FunctionFunc, IoUringData, EventInfo, Result, ok, ◌>>=◌}
use localsoftware.Runtime.Event.{Queues, call_at}
use localsoftware.Runtime.Event.First.{call_first-zero, map_push}
use localsoftware.Monitor.Format.{LogRecord, scan_line, take_records}
use localsoftware.Monitor.{
  Children, Monitor, State, Stage, websocket_logs, websocket_live, chunk_size, stage_websocket_logs,
}

-- The records of the lines, those that cannot be scanned left out.
abbrev pub cons_scanned : Option LogRecord → List LogRecord → List LogRecord
cons_scanned none rs = rs
cons_scanned (some r) rs = r ∷ rs

abbrev pub records_of : List (List ℕ) → List LogRecord
records_of [] = []
records_of (line ∷ lines) = cons_scanned (scan_line line) (records_of lines)

abbrev Taken : ℕ → List (List ℕ) → List LogRecord × List (List ℕ) → Type 0
Taken room lines (records, rest) =
    (records ++ records_of rest ≡ records_of lines)
    × (length records ≤ room)
    × ((length records ≡ 0) → (1 ≤ room) → records_of lines ≡ [])

take_none :
    (room : ℕ) (line : List ℕ) (lines : List (List ℕ))
    → scan_line line ≡ none
    → take_records (suc room) (line ∷ lines) ≡ take_records (suc room) lines
unfolding take_records
take_none room line lines e = rw (take_records, e) refl

take_some :
    (room : ℕ) (line : List ℕ) (lines : List (List ℕ)) (r : LogRecord)
    → scan_line line ≡ some r
    → take_records (suc room) (line ∷ lines)
      ≡ (r ∷ (take_records room lines).0, (take_records room lines).1)
unfolding take_records
take_some room line lines r e = rw (take_records, e) refl

take_records_lem : (room : ℕ) (lines : List (List ℕ)) → Taken room lines (take_records room lines)
unfolding take_records
take_records_lem zero lines = (refl, omega arith, λ e one. absurd (omega arith))
take_records_lem (suc room) [] = (refl, omega arith, λ e one. refl)
take_records_lem (suc room) (line ∷ lines) = elim (Option-cases (scan_line line)) [
  | inl e ↦
      let (all, few, more) = take_records_lem (suc room) lines in
      subst (Taken (suc room) (line ∷ lines)) (sym (take_none room line lines e))
        (rw e (all, few, more))
  | inr (r, e) ↦
      let (all, few, _) = take_records_lem room lines in
      subst (Taken (suc room) (line ∷ lines)) (sym (take_some room line lines r e))
        (rw e (ap (λ l. r ∷ l) all, omega arith, λ none_taken one. absurd (omega arith)))
]

-- The stage over the completions of its frames, at most `fuel` of them, up to the live stage.
abbrev is_live : Stage → Bool
is_live websocket_live = true
is_live _ = false

unfoldable pub streamed : Children → ℕ → State → Result State
streamed children zero s = ok s
streamed children (suc fuel) s = do
  s' ← stage_websocket_logs children s
  if is_live s'.0.current_op_ then ok s' else streamed children fuel s'

abbrev pub concat : List (List LogRecord) → List LogRecord
concat [] = []
concat (c ∷ cs) = c ++ concat cs

-- Every frame has a record at least and `chunk_size` at most.
abbrev pub Chunks : List (List LogRecord) → Type 0
Chunks [] = Unit {0}
Chunks (c ∷ cs) = (1 ≤ length c) × (length c ≤ chunk_size) × Chunks cs

abbrev frames : Children → List (List LogRecord) → List FunctionFunc
frames children cs = map children.write_records cs ++ children.write_marker ∷ []

record Streams (children : Children) (m : Monitor) (q : Queues) (r : Result State) : Type 0 where
  s : State
  cs : List (List LogRecord)
  done : r ≡ ok s
  live : s.0.current_op_ ≡ websocket_live
  whole : concat cs ≡ records_of m.log_
  chunks : Chunks cs
  queued : map (λ f. f.fun) s.1.function_ ≡ map (λ f. f.fun) q.function_ ++ frames children cs

no_records : (rs : List LogRecord) → length rs ≡ 0 → rs ≡ []
no_records [] e = refl
no_records (r ∷ rs) e = absurd (omega arith)

module _ (children : Children) where
  stage_last :
      (m : Monitor) (q : Queues) (d : IoUringData) (e : EventInfo) (v : List (Option EventInfo))
      → (take_records chunk_size m.log_).0 ≡ []
      → lookup children.websocket d.sub_events ≡ some (some e ∷ v)
      → let (q', d', _) = call_at q d children.websocket 0 children.write_marker in
        stage_websocket_logs children (m, q, d)
        ≡ ok (
          record m { log_ = (take_records chunk_size m.log_).1; current_op_ = websocket_live },
          q',
          d',
        )
  unfolding stage_websocket_logs
  stage_last m q d e v empty l =
      rw (empty, call_first-zero q d children.websocket children.write_marker e v l) refl

  stage_more :
      (m : Monitor) (q : Queues) (d : IoUringData) (e : EventInfo) (v : List (Option EventInfo))
      → let (records, rest) = take_records chunk_size m.log_ in
        let (q', d', _) = call_at q d children.websocket 0 (children.write_records records) in
        (length records == 0) ≡ false
        → lookup children.websocket d.sub_events ≡ some (some e ∷ v)
        → stage_websocket_logs children (m, q, d) ≡ ok (record m { log_ = rest }, q', d')
  unfolding stage_websocket_logs
  stage_more m q d e v some_left l =
      let records = (take_records chunk_size m.log_).0 in
      rw (some_left, call_first-zero q d children.websocket (children.write_records records) e v l)
        refl

  streamed_last :
      (fuel : ℕ) (s s' : State)
      → stage_websocket_logs children s ≡ ok s'
      → is_live s'.0.current_op_ ≡ true
      → streamed children (suc fuel) s ≡ ok s'
  unfolding streamed
  streamed_last fuel s s' h e = rw (streamed, h, e) refl

  streamed_more :
      (fuel : ℕ) (s s' : State)
      → stage_websocket_logs children s ≡ ok s'
      → is_live s'.0.current_op_ ≡ false
      → streamed children (suc fuel) s ≡ streamed children fuel s'
  unfolding streamed
  streamed_more fuel s s' h e = rw (streamed, h, e) refl

  streamed_from :
      (fuel : ℕ) (m : Monitor) (q : Queues) (d : IoUringData) (e : EventInfo)
      (v : List (Option EventInfo))
      → m.current_op_ ≡ websocket_logs
      → lookup children.websocket d.sub_events ≡ some (some e ∷ v)
      → length (records_of m.log_) < fuel
      → Streams children m q (streamed children fuel (m, q, d))
  unfolding call_at
  streamed_from zero m q d e v logs l enough = absurd (omega arith)
  streamed_from (suc fuel) m q d e v logs l enough =
      let (records, rest) = take_records chunk_size m.log_ in
      let (all, few, more) = take_records_lem chunk_size m.log_ in
      elim (Bool-cases (length records == 0)) [
        | inl z ↦
            let none_taken : length records ≡ 0 = ground arith in
            let (q', d', _) = call_at q d children.websocket 0 children.write_marker in
            let s' : State = (record m { log_ = rest; current_op_ = websocket_live }, q', d') in
            record {
              s = s';
              cs = [];
              done =
                  streamed_last fuel (m, q, d) s'
                    (stage_last m q d e v (no_records records none_taken) l) refl;
              live = refl;
              whole = sym (more none_taken (omega arith));
              chunks = tt;
              queued = sym (append-nil _) ∙ map_push q.function_ _ _;
            }
        | inr z ↦
            let some_taken : 1 ≤ length records = ground arith in
            let (q', d', _) = call_at q d children.websocket 0 (children.write_records records) in
            let m' : Monitor = record m { log_ = rest } in
            let left : length records + length (records_of rest) ≡ length (records_of m.log_) =
              sym (length-append records (records_of rest)) ∙ ap length all in
            let later = streamed_from fuel m' q' d' e v logs l (omega arith) in
            record {
              s = later.s;
              cs = records ∷ later.cs;
              done =
                  streamed_more fuel (m, q, d) (m', q', d') (stage_more m q d e v z l)
                    (ap is_live logs)
                  ∙ later.done;
              live = later.live;
              whole = ap (λ k. records ++ k) later.whole ∙ all;
              chunks = (some_taken, few, later.chunks);
              queued = later.queued ∙ map_push q.function_ _ _;
            }
      ]

  -- While a monitor connection is in the stage of the log and its WebSocket child is there, each of its
  -- frames completes in turn: whatever lines are left of the log, the stage ends, and the
  -- connection is live. By then exactly these frames have been written: the records of all lines that
  -- can be scanned, each once and in the order of the lines, in frames of one to `chunk_size` of them,
  -- and the marker after them.
  pub streamed_lem :
      (m : Monitor) (q : Queues) (d : IoUringData) (e : EventInfo) (v : List (Option EventInfo))
      → m.current_op_ ≡ websocket_logs
      → lookup children.websocket d.sub_events ≡ some (some e ∷ v)
      → (s : State) × (cs : List (List LogRecord)) × (streamed children
            (suc (length (records_of m.log_)))
            (m, q, d)
          ≡ ok s)
        × (s.0.current_op_ ≡ websocket_live)
        × (concat cs ≡ records_of m.log_)
        × Chunks cs
        × (map (λ f. f.fun) s.1.function_
            ≡ map (λ f. f.fun) q.function_
              ++ (map children.write_records cs ++ children.write_marker ∷ []))
  streamed_lem m q d e v logs l =
      let r = streamed_from (suc (length (records_of m.log_))) m q d e v logs l (omega arith) in
      (r.s, r.cs, r.done, r.live, r.whole, r.chunks, r.queued)
