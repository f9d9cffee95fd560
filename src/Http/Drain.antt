-- ===== src/Http/Drain.antt =====
-- Writing: the whole response goes out.
use localsoftware.Common.{
  ℕ, ◌-◌, zero, suc, ◌≤◌, ◌<◌, ◌≡◌, refl, Bool, false, List, [], ◌∷◌, ◌++◌, Option, none, some,
  ◌==◌, if◌then◌else◌, length, drop, arith, length-drop, lt→ltb, append-nil, ap, sym, subst, ◌∙◌,
  map,
}
use localsoftware.Common.Int.{pos, positive}
use localsoftware.Common.Maps.{lookup, nat_eq}
use localsoftware.Runtime.Types.{
  TypeIndex, IoUringData, EventInfo, child_task_completion, finished, Result, ok, ◌>>=◌,
}
use localsoftware.Runtime.Event.{Queues, call_at}
use localsoftware.Runtime.Event.First.{call_first-zero, map_push}
use localsoftware.Socket.Bytes.{Yield}
use localsoftware.Http.{
  Parser, Children, Http, State, child_class, arm_write, handle_read, handle_write, on_yield,
}

-- The object after the completions of its child's writes, each with the number of bytes it took, and
-- the result that it reports.
module _ {P : Type 0} (parser : Parser P) (children : Children) where
  unfoldable pub written : State P → List ℕ → Result (State P × Yield)
  written s [] = ok (s, none)
  written s (n ∷ ns) = do
    (s', result) ← on_yield parser children s [] (child_task_completion 0 0 finished (pos n))
    elim result [ none ↦ written s' ns | some r ↦ ok (s', some r) ]

-- The child takes some bytes each time, and all of them in the end.
abbrev pub Takes : ℕ → List ℕ → Type 0
Takes left [] = ⊥
Takes left (n ∷ []) = (1 ≤ n) × (n ≡ left)
Takes left (n ∷ m ∷ ns) = (1 ≤ n) × (n < left) × Takes (left - n) (m ∷ ns)

drop_all : (n : ℕ) (l : List ℕ) → n ≡ length l → drop n l ≡ []
drop_all zero [] h = refl
drop_all zero (x ∷ l) h = absurd (omega arith)
drop_all (suc n) [] h = refl
drop_all (suc n) (x ∷ l) h = drop_all n l (omega arith)

-- What is left to write after each part but the last.
abbrev pub rests : List ℕ → List ℕ → List (List ℕ)
rests buf [] = []
rests buf (n ∷ []) = []
rests buf (n ∷ m ∷ ns) = drop n buf ∷ rests (drop n buf) (m ∷ ns)

module _ {P : Type 0} (parser : Parser P) (children : Children) where
  abbrev pub queue_write : Queues → IoUringData → Bool → List ℕ → Queues × IoUringData × ℕ
  queue_write q d tls buf =
      let ty = child_class children tls in call_at q d ty 0 (children.write ty buf)

  pub arm_write_lem :
      (h : Http P) (q : Queues) (d : IoUringData) (e : EventInfo) (v : List (Option EventInfo))
      → 1 ≤ length h.write_buffer_
      → lookup (child_class children h.tls_enabled_) d.sub_events ≡ some (some e ∷ v)
      → let (q', d', id) = queue_write q d h.tls_enabled_ h.write_buffer_ in
        arm_write children (h, q, d) ≡ ok (record h { taskid_writer_ = id }, q', d')
  unfolding arm_write
  arm_write_lem h q d e v one l =
      let ty = child_class children h.tls_enabled_ in
      let some_left : (length h.write_buffer_ == 0) ≡ false = ground arith in
      rw (some_left, call_first-zero q d ty (children.write ty h.write_buffer_) e v l) refl

  writes :
      (h : Http P) (q : Queues) (d : IoUringData) (n : ℕ)
      → h.read_op_ ≡ false
      → on_yield parser children (h, q, d) [] (child_task_completion 0 0 finished (pos (suc n)))
        ≡ handle_write children (h, q, d) (pos (suc n))
  unfolding on_yield
  writes h q d n r = rw (positive n) (
      ap
        (λ b.
          if b
          then handle_read parser children (h, q, d) [] (pos (suc n))
          else handle_write children (h, q, d) (pos (suc n)))
        r)

  write_more :
      (h : Http P) (q : Queues) (d : IoUringData) (n : ℕ) (e : EventInfo)
      (v : List (Option EventInfo))
      → h.read_op_ ≡ false
      → suc n < length h.write_buffer_
      → lookup (child_class children h.tls_enabled_) d.sub_events ≡ some (some e ∷ v)
      → let buf = drop (suc n) h.write_buffer_ in
        let (q', d', id) = queue_write q d h.tls_enabled_ buf in
        on_yield parser children (h, q, d) [] (child_task_completion 0 0 finished (pos (suc n)))
        ≡ ok ((record h { write_buffer_ = buf; taskid_writer_ = id }, q', d'), none)
  unfolding handle_write
  write_more h q d n e v r less l =
      let buf = drop (suc n) h.write_buffer_ in
      let left : 1 ≤ length buf = omega (arith, length-drop (suc n) h.write_buffer_) in
      writes h q d n r
      ∙ rw
          (
            positive n,
            lt→ltb 0 (length buf) left,
            arm_write_lem (record h { write_buffer_ = buf }) q d e v left l,
          )
          refl

  write_last :
      (h : Http P) (q : Queues) (d : IoUringData) (n : ℕ)
      → h.read_op_ ≡ false
      → suc n ≡ length h.write_buffer_
      → on_yield parser children (h, q, d) [] (child_task_completion 0 0 finished (pos (suc n)))
        ≡ ok ((record h { write_buffer_ = [] }, q, d), some (false, pos 1))
  unfolding handle_write
  write_last h q d n r whole =
      writes h q d n r ∙ rw (positive n, drop_all (suc n) h.write_buffer_ whole) refl

  -- Everything is written: the result, and the calls that were queued for it.
  unfoldable pub Written : TypeIndex → Queues → List ℕ → List ℕ → Result (State P × Yield) → Type 0
  Written ty q buf ns r =
      (h' : Http P) × (q' : Queues) × (d' : IoUringData) × (r
        ≡ ok ((h', q', d'), some (false, pos 1)))
      × (h'.write_buffer_ ≡ [])
      × (map (λ f. f.fun) q'.function_
          ≡ map (λ f. f.fun) q.function_ ++ map (children.write ty) (rests buf ns))

  written_last :
      (h : Http P) (q : Queues) (d : IoUringData) (n : ℕ)
      → h.read_op_ ≡ false
      → suc n ≡ length h.write_buffer_
      → written parser children (h, q, d) (suc n ∷ [])
        ≡ ok ((record h { write_buffer_ = [] }, q, d), some (false, pos 1))
  unfolding written
  written_last h q d n r whole = rw (write_last h q d n r whole) refl

  written_more :
      (h : Http P) (q : Queues) (d : IoUringData) (n : ℕ) (ns : List ℕ) (e : EventInfo)
      (v : List (Option EventInfo))
      → h.read_op_ ≡ false
      → suc n < length h.write_buffer_
      → lookup (child_class children h.tls_enabled_) d.sub_events ≡ some (some e ∷ v)
      → let buf = drop (suc n) h.write_buffer_ in
        let (q', d', id) = queue_write q d h.tls_enabled_ buf in
        written parser children (h, q, d) (suc n ∷ ns)
        ≡ written parser children (record h { write_buffer_ = buf; taskid_writer_ = id }, q', d') ns
  unfolding written
  written_more h q d n ns e v r less l = rw (write_more h q d n e v r less l) refl

  pub written_lem :
      (h : Http P) (q : Queues) (d : IoUringData) (ns : List ℕ) (e : EventInfo)
      (v : List (Option EventInfo))
      → h.read_op_ ≡ false
      → Takes (length h.write_buffer_) ns
      → lookup (child_class children h.tls_enabled_) d.sub_events ≡ some (some e ∷ v)
      → Written
          (child_class children h.tls_enabled_)
          q
          h.write_buffer_
          ns
          (written parser children (h, q, d) ns)
  unfolding Written call_at
  written_lem h q d [] e v r t l = elim t [ ]
  written_lem h q d (zero ∷ []) e v r t l = absurd (omega (arith, t.0))
  written_lem h q d (suc n ∷ []) e v r t l =
      (record h { write_buffer_ = [] }, q, d, written_last h q d n r t.1, refl, sym (append-nil _))
  written_lem h q d (zero ∷ m ∷ ns) e v r t l = absurd (omega (arith, t.0))
  written_lem h q d (suc n ∷ m ∷ ns) e v r (one, less, t) l =
      let buf = drop (suc n) h.write_buffer_ in
      let (q1, d1, id) = queue_write q d h.tls_enabled_ buf in
      let h1 = record h { write_buffer_ = buf; taskid_writer_ = id } in
      let rest : Takes (length buf) (m ∷ ns) =
        subst (λ k. Takes k (m ∷ ns)) (sym (length-drop (suc n) h.write_buffer_)) t in
      let (h2, q2, d2, done, empty, calls) = written_lem h1 q1 d1 (m ∷ ns) e v r rest l in
      (
        h2,
        q2,
        d2,
        written_more h q d n (m ∷ ns) e v r less l ∙ done,
        empty,
        calls ∙ map_push q.function_ _ _,
      )
