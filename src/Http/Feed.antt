-- ===== src/Http/Feed.antt =====
-- Reading: the parser gets every byte once, in order, and the parse loop ends.
use localsoftware.Common.{
  ℕ, zero, suc, ◌≤◌, ◌≡◌, refl, Bool, true, false, not, ◌&&◌, ◌||◌, List, [], ◌∷◌, ◌++◌, Option,
  none, some, ltb, if◌then◌else◌, length, take, drop, arith, Bool-cases, inl, inr, length-drop,
  take-append-drop, append_assoc, ap, ◌∙◌, ◌⊎◌, lt→ltb,
}
use localsoftware.Common.Int.{pos, positive}
use localsoftware.Runtime.Types.{
  IoUringData, EventInfo, CallStatus, child_task_completion, Result, ok,
}
use localsoftware.Common.Maps.{lookup, nat_eq}
use localsoftware.Runtime.Event.{Queues, call_at}
use localsoftware.Runtime.Event.First.{call_first-zero}
use localsoftware.Socket.Bytes.{Yield}
use localsoftware.Http.{
  ErrorCode, is_error, is_need_more, success, need_more, failure, Parser, Children, Http, State,
  parse_loop, try_parse, handle_read, handle_write, on_yield, arm_read, child_class,
}

-- What the parser's documentation says of `put`: it consumes bytes of the buffer that it is given, and
-- unless it reports an error it consumes one at least of a buffer that is not empty.
abbrev pub Progress : {P : Type 0} → Parser P → Type 0
Progress {P = P} parser =
    (p : P) (c : ℕ) (buf : List ℕ)
    → (1 ≤ (parser.put p (c ∷ buf)).1) ⊎ (is_error (parser.put p (c ∷ buf)).2 ≡ true)

-- `seen` names the bytes that a parser has been fed so far: those that `put` consumes are added.
abbrev pub Remembers : {P : Type 0} → Parser P → (P → List ℕ) → Type 0
Remembers {P = P} parser seen =
    (p : P) (buf : List ℕ) → seen (parser.put p buf).0 ≡ seen p ++ take (parser.put p buf).1 buf

module _ {P : Type 0} (parser : Parser P) where
  -- `put` left the parser `p'` and the bytes `buf'`, and reported `ec`.
  pub data Put (p' : P) (buf' : List ℕ) (ec : ErrorCode) : Type 0 where
    put_of :
        (p : P) (buf : List ℕ)
        → (parser.put p buf).0 ≡ p'
        → drop (parser.put p buf).1 buf ≡ buf'
        → (parser.put p buf).2 ≡ ec
        → Put p' buf' ec

  -- The loop ended, and the parser has been fed what the buffer lost.
  record Parsed (seen : P → List ℕ) (p : P) (buf : List ℕ) (r : Result (P × List ℕ × ErrorCode))
      : Type 0 where
    p' : P
    buf' : List ℕ
    ec' : ErrorCode
    ended : r ≡ ok (p', buf', ec')
    stopped : (is_error ec' ≡ true) ⊎ ((parser.is_done p' ≡ true) ⊎ (buf' ≡ []))
    last : Put p' buf' ec'
    fed : seen p' ++ buf' ≡ seen p ++ buf

  fed_once :
      (seen : P → List ℕ) (p : P) (buf : List ℕ)
      → Remembers parser seen
      → seen (parser.put p buf).0 ++ drop (parser.put p buf).1 buf ≡ seen p ++ buf
  fed_once seen p buf m =
      let n = (parser.put p buf).1 in
      ap (λ l. l ++ drop n buf) (m p buf)
      ∙ append_assoc (seen p) (take n buf) (drop n buf)
      ∙ ap (λ l. seen p ++ l) (take-append-drop n buf)

  at_rest :
      (seen : P → List ℕ) (fuel : ℕ) (p : P) (buf : List ℕ) (ec : ErrorCode)
      → (is_error ec ≡ true) ⊎ ((parser.is_done p ≡ true) ⊎ (buf ≡ []))
      → not (is_error ec) && (not (parser.is_done p) && ltb 0 (length buf)) ≡ false
      → Put p buf ec
      → Parsed seen p buf (parse_loop parser fuel p buf ec)
  unfolding parse_loop
  at_rest seen zero p buf ec why h last = record {
    p' = p;
    buf' = buf;
    ec' = ec;
    ended = rw h refl;
    stopped = why;
    last = last;
    fed = refl;
  }
  at_rest seen (suc fuel) p buf ec why h last = record {
    p' = p;
    buf' = buf;
    ec' = ec;
    ended = rw h refl;
    stopped = why;
    last = last;
    fed = refl;
  }

  parse_on :
      (fuel : ℕ) (p : P) (c : ℕ) (buf : List ℕ) (ec : ErrorCode)
      → is_error ec ≡ false
      → parser.is_done p ≡ false
      → let (p1, n, ec1) = parser.put p (c ∷ buf) in
        parse_loop parser (suc fuel) p (c ∷ buf) ec
        ≡ parse_loop parser fuel p1 (drop n (c ∷ buf)) ec1
  unfolding parse_loop
  parse_on fuel p c buf ec e d = rw (e, d, lt→ltb 0 (suc (length buf)) (omega arith)) refl

  parse_loop_lem :
      (seen : P → List ℕ) (fuel : ℕ) (p : P) (buf : List ℕ) (ec : ErrorCode)
      → Progress parser
      → Remembers parser seen
      → length buf ≤ fuel
      → Put p buf ec
      → Parsed seen p buf (parse_loop parser fuel p buf ec)
  parse_loop_lem seen fuel p [] ec go m le last =
      at_rest seen fuel p [] ec (inr (inr refl)) (ground arith) last
  parse_loop_lem seen zero p (c ∷ buf) ec go m le last = absurd (omega arith)
  parse_loop_lem seen (suc fuel) p (c ∷ buf) ec go m le last = elim (Bool-cases (is_error ec)) [
    | inl e ↦ at_rest seen (suc fuel) p (c ∷ buf) ec (inl e) (rw e refl) last
    | inr e ↦ elim (Bool-cases (parser.is_done p)) [
      | inl d ↦ at_rest seen (suc fuel) p (c ∷ buf) ec (inr (inl d)) (ground arith) last
      | inr d ↦
          let (p1, n, ec1) = parser.put p (c ∷ buf) in
          let rest = drop n (c ∷ buf) in
          let now : Put p1 rest ec1 = put_of p (c ∷ buf) refl refl refl in
          let next : Parsed seen p1 rest (parse_loop parser fuel p1 rest ec1) = elim (go p c buf) [
            | inl one ↦
                parse_loop_lem seen fuel p1 rest ec1 go m (omega (arith, length-drop n (c ∷ buf)))
                  now
            | inr bad ↦ at_rest seen fuel p1 rest ec1 (inl bad) (rw bad refl) now
          ] in
          record {
            p' = next.p';
            buf' = next.buf';
            ec' = next.ec';
            ended = parse_on fuel p c buf ec e d ∙ next.ended;
            stopped = next.stopped;
            last = next.last;
            fed = next.fed ∙ fed_once seen p (c ∷ buf) m;
          }
    ]
  ]

  -- The message is complete, or the last call of `put` reported a failure.
  abbrev pub Over : P → List ℕ → Type 0
  Over p' buf' = (parser.is_done p' ≡ true) ⊎ Put p' buf' failure

  -- There are no bytes left, or the last call of `put` asked for more.
  abbrev pub Hungry : P → List ℕ → Type 0
  Hungry p' buf' = (buf' ≡ []) ⊎ Put p' buf' need_more

  over_lem :
      (p' : P) (buf' : List ℕ) (ec : ErrorCode)
      → Put p' buf' ec
      → (is_error ec && not (is_need_more ec)) || parser.is_done p' ≡ true
      → Over p' buf'
  over_lem p' buf' success last h = inl h
  over_lem p' buf' need_more last h = inl h
  over_lem p' buf' failure last h = inr last

  hungry_lem :
      (p' : P) (buf' : List ℕ) (ec : ErrorCode)
      → Put p' buf' ec
      → (is_error ec ≡ true) ⊎ ((parser.is_done p' ≡ true) ⊎ (buf' ≡ []))
      → (is_error ec && not (is_need_more ec)) || parser.is_done p' ≡ false
      → Hungry p' buf'
  hungry_lem p' buf' ec last (inr (inr e)) h = inl e
  hungry_lem p' buf' success last (inl e) h = cc
  hungry_lem p' buf' success last (inr (inl d)) h = absurd (ground (arith, h, d))
  hungry_lem p' buf' need_more last why h = inr last
  hungry_lem p' buf' failure last why h = cc

  -- `try_parse` under a parser's promises.
  pub record Tried (seen : P → List ℕ) (p : P) (buf : List ℕ) (h : Http P) : Type 0 where
    pub p' : P
    pub buf' : List ℕ
    pub done : Bool
    pub tried : try_parse parser h ≡ ok (record h { parser_ = some p'; buffer_ = buf' }, done)
    pub fed : seen p' ++ buf' ≡ seen p ++ buf
    pub waits : done ≡ false → parser.is_done p' ≡ false
    pub over : done ≡ true → Over p' buf'
    pub hungry : done ≡ false → Hungry p' buf'

  try_parse_lem :
      (seen : P → List ℕ) (p : P) (h : Http P)
      → Progress parser
      → Remembers parser seen
      → h.parser_ ≡ some p
      → Tried seen p h.buffer_ h
  unfolding try_parse
  try_parse_lem seen p h go m e =
      let (p1, n, ec1) = parser.put p h.buffer_ in
      let rest = drop n h.buffer_ in
      let loop =
        parse_loop_lem seen (length rest) p1 rest ec1 go m (omega arith)
          (put_of p h.buffer_ refl refl refl) in
      record {
        p' = loop.p';
        buf' = loop.buf';
        done = (is_error loop.ec' && not (is_need_more loop.ec')) || parser.is_done loop.p';
        tried = rw (e, loop.ended) refl;
        fed = loop.fed ∙ fed_once seen p h.buffer_ m;
        waits = λ k. ground arith;
        over = over_lem loop.p' loop.buf' loop.ec' loop.last;
        hungry = hungry_lem loop.p' loop.buf' loop.ec' loop.last loop.stopped;
      }

module _ {P : Type 0} (parser : Parser P) (children : Children) where
  arm_read_lem :
      (h : Http P) (q : Queues) (d : IoUringData) (e : EventInfo) (v : List (Option EventInfo))
      → lookup (child_class children h.tls_enabled_) d.sub_events ≡ some (some e ∷ v)
      → let ty = child_class children h.tls_enabled_ in
        let (q', d', id) = call_at q d ty 0 (children.read ty 4096) in
        arm_read children (h, q, d) ≡ ok (record h { taskid_reader_ = id }, q', d')
  unfolding arm_read
  arm_read_lem h q d e v l =
      let ty = child_class children h.tls_enabled_ in
      rw (call_first-zero q d ty (children.read ty 4096) e v l) refl

  abbrev next_read : Queues → IoUringData → Bool → Queues × IoUringData × ℕ
  next_read q d tls = let ty = child_class children tls in call_at q d ty 0 (children.read ty 4096)

  -- What the object is after a completed read of `n` bytes, and what it reports.
  pub data Read (seen : P → List ℕ) (h : Http P) (q : Queues) (d : IoUringData) (got : List ℕ)
      : Result (State P × Yield) → Type 0 where
    complete :
        (p' : P) (buf' : List ℕ)
        → seen p' ++ buf' ≡ got
        → Over parser p' buf'
        → Read seen h q d got
            (ok ((record h { parser_ = some p'; buffer_ = buf' }, q, d), some (false, pos 1)))
    goes_on :
        (p' : P) (buf' : List ℕ)
        → seen p' ++ buf' ≡ got
        → parser.is_done p' ≡ false
        → Hungry parser p' buf'
        → Read seen h q d got (
            ok (
              (
                record h {
                  parser_ = some p';
                  buffer_ = buf';
                  taskid_reader_ = (next_read q d h.tls_enabled_).2;
                },
                (next_read q d h.tls_enabled_).0,
                (next_read q d h.tls_enabled_).1,
              ),
              none,
            ))

  handle_read_lem :
      (seen : P → List ℕ) (p : P) (h : Http P) (q : Queues) (d : IoUringData) (area : List ℕ)
      (n : ℕ) (e : EventInfo) (v : List (Option EventInfo))
      → Progress parser
      → Remembers parser seen
      → h.parser_ ≡ some p
      → lookup (child_class children h.tls_enabled_) d.sub_events ≡ some (some e ∷ v)
      → Read seen h q d
          (seen p ++ (h.buffer_ ++ take (suc n) area))
          (handle_read parser children (h, q, d) area (pos (suc n)))
  unfolding handle_read
  handle_read_lem seen p h q d area n e v go m k l =
      let got = h.buffer_ ++ take (suc n) area in
      let t = try_parse_lem parser seen p (record h { buffer_ = got }) go m k in
      elim (Bool-cases t.done) [
        | inl done ↦ rw (positive n, t.tried, done) (complete t.p' t.buf' t.fed (t.over done))
        | inr not_done ↦
            let h1 = record h { parser_ = some t.p'; buffer_ = t.buf' } in
            rw (positive n, t.tried, not_done, arm_read_lem h1 q d e v l)
              (goes_on t.p' t.buf' t.fed (t.waits not_done) (t.hungry not_done))
      ]

  reads :
      (h : Http P) (q : Queues) (d : IoUringData) (area : List ℕ) (calling task n : ℕ)
      (status : CallStatus)
      → h.read_op_ ≡ true
      → on_yield parser children
          (h, q, d)
          area
          (child_task_completion calling task status (pos (suc n)))
        ≡ handle_read parser children (h, q, d) area (pos (suc n))
  unfolding on_yield
  reads h q d area calling task n status r = rw (positive n) (
      ap
        (λ b.
          if b
          then handle_read parser children (h, q, d) area (pos (suc n))
          else handle_write children (h, q, d) (pos (suc n)))
        r)

  -- The parser is any with the two promises `Progress` and `Remembers`, the object reads and has a parser,
  -- and its socket child is there. When a read of one byte or more completes, `on_yield` returns: the
  -- parse loop ends. What the parser has consumed so far, followed by what the buffer keeps, is what
  -- these were before followed by the bytes that were read: no byte is lost, repeated or moved. Either
  -- the parser is done or its last call reported a failure, and then the result 1 is reported and
  -- nothing is queued; or the parser is not done, and no bytes are left or its last call asked for more,
  -- and then exactly one further read of 4096 bytes is queued and no result reported.
  pub on_yield_read :
      (seen : P → List ℕ) (p : P) (h : Http P) (q : Queues) (d : IoUringData) (area : List ℕ)
      (calling task n : ℕ) (status : CallStatus) (e : EventInfo) (v : List (Option EventInfo))
      → Progress parser
      → Remembers parser seen
      → h.read_op_ ≡ true
      → h.parser_ ≡ some p
      → lookup (child_class children h.tls_enabled_) d.sub_events ≡ some (some e ∷ v)
      → Read seen h q d (seen p ++ (h.buffer_ ++ take (suc n) area)) (
          on_yield parser children
            (h, q, d)
            area
            (child_task_completion calling task status (pos (suc n))))
  on_yield_read seen p h q d area calling task n status e v go m r k l =
      rw (reads h q d area calling task n status r)
        (handle_read_lem seen p h q d area n e v go m k l)
