-- ===== src/Http/Client.antt =====
-- src/common/readwrite_httpc.{h,cpp}: `ReadWriteHTTPC`, the client's side, which writes requests and reads
-- responses. It is written for an earlier interface of the runtime, in which a result is reported by
-- `finalize_current_task`; a reported result is returned here. Its `arm_read`, `arm_write` and
-- `handle_write` do what those of `ReadWriteHTTP` do. The loop of its `try_parse` runs in at most `fuel`
-- passes; without an end it is undefined.
use localsoftware.Common.{
  ℕ, zero, suc, ◌≡◌, refl, Bool, true, false, not, ◌&&◌, ◌||◌, List, [], ◌∷◌, ◌++◌, none, some, ltb,
  if◌then◌else◌, length, take, drop, lt→ltb, arith,
}
use localsoftware.Common.Int.{ℤ, pos, leb_ℤ, pos_part}
use localsoftware.Runtime.Types.{
  EventType, call_started, timeout, io_uring_result, wakeup, child_task_completion, Result, ok, err,
  ◌>>=◌, or_fault, undefined_behaviour, runtime_error,
}
use localsoftware.Socket.Bytes.{Yield}
use localsoftware.Http.{
  ErrorCode, need_more, is_error, is_need_more, Parser, Children, Http, State, arm_read,
  handle_write,
}

module _ {P : Type 0} (parser : Parser P) where
  -- The loop goes on when more bytes are needed.
  abbrev goes_on : P → List ℕ → ErrorCode → Bool
  goes_on p buf ec =
      (not (is_error ec) || is_need_more ec) && (not (parser.is_done p) && ltb 0 (length buf))

  unfoldable pub parse_loop : ℕ → P → List ℕ → ErrorCode → Result (P × List ℕ × ErrorCode)
  parse_loop zero p buf ec = if goes_on p buf ec then err undefined_behaviour else ok (p, buf, ec)
  parse_loop (suc fuel) p buf ec =
      let (p', consumed, ec') = parser.put p buf in
      let rest = parse_loop fuel p' (drop consumed buf) ec' in
      if goes_on p buf ec then rest else ok (p, buf, ec)

  unfoldable pub try_parse : ℕ → Http P → Result (Http P × Bool)
  try_parse fuel h = do
    p ← or_fault h.parser_ undefined_behaviour
    let (p1, consumed, ec1) = parser.put p h.buffer_
    (p2, rest, ec2) ← parse_loop fuel p1 (drop consumed h.buffer_) ec1
    ok (
      record h { parser_ = some p2; buffer_ = rest },
      (is_error ec2 && not (is_need_more ec2)) || parser.is_done p2,
    )

  module _ (children : Children) where
    unfoldable pub handle_read : ℕ → State P → List ℕ → ℤ → Result (State P × Yield)
    handle_read fuel (h, q, d) area res = do
      let got = if leb_ℤ res (pos 0) then h.buffer_ else h.buffer_ ++ take (pos_part res) area
      (h1, done) ← try_parse fuel (record h { buffer_ = got })
      if done
          then ok ((h1, q, d), some (false, pos 1))
          else (do s ← arm_read children (h1, q, d); ok (s, none))

    -- What the last response left in the buffer is parsed first.
    unfoldable pub read_http : ℕ → State P → Result (State P × Yield)
    read_http fuel (h, q, d) =
        handle_read fuel (record h { read_op_ = true; parser_ = some parser.new }, q, d) [] (pos 0)

    unfoldable pub on_new_data : ℕ → State P → List ℕ → EventType → Result (State P × Yield)
    on_new_data fuel s area (child_task_completion calling_id task_id status return_code) =
        if leb_ℤ return_code (pos 0)
        then ok (s, some (true, return_code))
        else if s.0.read_op_
        then handle_read fuel s area return_code
        else handle_write children s return_code
    on_new_data fuel s area (call_started x y z) = err runtime_error
    on_new_data fuel s area (timeout x) = err runtime_error
    on_new_data fuel s area (io_uring_result x y z) = err runtime_error
    on_new_data fuel s area (wakeup x) = err runtime_error

  -- A parser that is not done and that answers the buffer with `need_more` and consumes none of it, as it does
  -- for a part of a header.
  abbrev pub Waits : P → List ℕ → Type 0
  Waits p buf = (parser.is_done p ≡ false) × (parser.put p buf ≡ (p, 0, need_more))

  parse_loop-Waits :
      (fuel : ℕ) (p : P) (c : ℕ) (buf : List ℕ)
      → Waits p (c ∷ buf)
      → parse_loop fuel p (c ∷ buf) need_more ≡ err undefined_behaviour
  unfolding parse_loop
  parse_loop-Waits zero p c buf (d, e) = rw (d, lt→ltb 0 (suc (length buf)) (omega arith)) refl
  parse_loop-Waits (suc fuel) p c buf (d, e) =
      rw (d, lt→ltb 0 (suc (length buf)) (omega arith), e) (parse_loop-Waits fuel p c buf (d, e))

  -- While the client's buffer holds bytes of which the parser consumes none before more have come, the loop
  -- of the client's `try_parse` does not end: it has no result after any number of passes, so the
  -- read for more bytes is never queued.
  try_parse-Waits :
      (fuel : ℕ) (p : P) (h : Http P) (c : ℕ) (buf : List ℕ)
      → h.parser_ ≡ some p
      → h.buffer_ ≡ c ∷ buf
      → Waits p (c ∷ buf)
      → try_parse fuel h ≡ err undefined_behaviour
  unfolding try_parse
  try_parse-Waits fuel p h c buf k b (d, e) =
      rw (k, b, e, parse_loop-Waits fuel p c buf (d, e)) refl
