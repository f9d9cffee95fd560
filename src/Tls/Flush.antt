-- ===== src/Tls/Flush.antt =====
-- A write comes to its end: the encrypted output is sent, and the write reported.
use localsoftware.Common.{
  ℕ, ◌+◌, ◌-◌, ◌*◌, suc, min, ◌≤◌, ◌≡◌, refl, ◌≢◌, Bool, true, false, ◌&&◌, List, [], ◌∷◌, Option,
  none, some, ltb, lt→ltb, ◌==◌, if◌then◌else◌, length, take, drop, arith, Bool-cases, inl, inr, ap,
  ◌∙◌, ap₂, ◌++◌, take-append-drop, ltb→lt, map, append-nil, sym,
}
use localsoftware.Common.Int.{pos, positive}
use localsoftware.Common.Maps.{lookup, nat_eq}
use localsoftware.Runtime.Types.{
  IoUringData, EventInfo, QueuedFunction, finished, child_task_completion, Result, ok, ◌>>=◌,
}
use localsoftware.Runtime.Event.{Queues, call_at}
use localsoftware.Runtime.Event.First.{call_first-zero, map_push}
use localsoftware.Socket.Bytes.{Yield, minus, to_int}
use localsoftware.Tls.{
  ssl_error_none, Ssl, Child, Tls, State, full, sizeof_pointer, max_uframe_length, pull, encrypted,
  osslcb_read, arm_write, advance, wrote, full_write, handle_write, note_completion, on_yield,
}

-- OpenSSL accepts a write of no bytes, changes nothing by it and pulls nothing; `BIO_read_ex` takes as many
-- bytes as are asked for from the pending ones, or all of them, and gives these.
pub record Drains {S : Type 0} (openssl : Ssl S) : Type 0 where
  pub write_nothing :
      (s : S) (input : List ℕ) → openssl.write s input [] ≡ (s, 0, 0, ssl_error_none)
  pub takes_pending :
      (s : S) (n : ℕ) → openssl.pending (openssl.bio_read s n).0 ≡ openssl.pending s - n
  pub gives_taken : (s : S) (n : ℕ) → length (openssl.bio_read s n).1 ≡ min (openssl.pending s) n

-- Exactly one call, under this identifier.
unfoldable pub one_call : List QueuedFunction → ℕ → Bool
one_call [] id = false
one_call (f ∷ []) id = f.local_id == id
one_call (f ∷ g ∷ fs) id = false

-- How many bytes there are in some parts.
unfoldable pub bytes_in : List (List ℕ) → ℕ
bytes_in [] = 0
bytes_in (b ∷ bs) = length b + bytes_in bs

module _ {S : Type 0} (openssl : Ssl S) (child : Child) where
  -- The socket while its writes complete, with the code `c + 1` for each `c` of the list, up to the result. After
  -- a completion there is a further one only if it has queued exactly one call, whose identifier is
  -- the one that the socket remembers.
  unfoldable pub flushed : List ℕ → State S → Result (State S × Yield)
  unfolding one_call
  flushed [] s = ok (s, none)
  flushed (c ∷ cs) (t, q, d) = do
    (s', result) ←
        on_yield openssl child (t, q, d) []
          (child_task_completion t.task_write_ t.task_bytes_write_ finished (pos (suc c)))
    elim result [
      | some r ↦ ok (s', some r)
      | none ↦
          if one_call (drop (length q.function_) s'.1.function_) s'.0.task_bytes_write_
          then flushed cs s'
          else ok (s', none)
    ]

-- All plain bytes are with OpenSSL, a write of the plain socket is under way and no read of it.
abbrev pub flushing : {S : Type 0} → Tls S → Tls S
flushing t = record t { state_ = full; u_write_p_ = length t.u_write; task_bytes_r_fin_ = true }

module _ {S : Type 0} where
  same_block :
      (t : Tls S) (l : List ℕ) (n : ℕ)
      → l ≡ t.e_read
      → n ≡ t.e_read_s_
      → record t { e_read = l; e_read_s_ = n } ≡ t
  same_block t l n a b =
      ap (λ k. record t { e_read = k; e_read_s_ = n }) a ∙ ap (λ k. record t { e_read_s_ = k }) b

  pull_zero : (t : Tls S) → pull t 0 ≡ t
  unfolding pull osslcb_read
  pull_zero t = elim (Bool-cases (t.e_read_s_ == 0)) [
    | inl e ↦ rw (pull, e) refl
    | inr e ↦
        let size = t.e_read_s_ in
        let all : size - min size 0 ≡ size = omega arith in
        let here : min size 0 ≡ 0 = omega arith in
        let block =
          ap₂ (λ k n. take k (drop n t.e_read) ++ drop k t.e_read) all here
          ∙ take-append-drop size t.e_read in
        rw (pull, e) (same_block t _ _ block all)
  ]

drop-append :
    (l : List QueuedFunction) (f : QueuedFunction) → drop (length l) (l ++ f ∷ []) ≡ f ∷ []
drop-append [] f = refl
drop-append (x ∷ l) f = drop-append l f

one_call_lem :
    (l : List QueuedFunction) (f : QueuedFunction)
    → one_call (drop (length l) (l ++ f ∷ [])) f.local_id ≡ true
unfolding one_call
one_call_lem l f = rw (drop-append l f) (ground arith)

module _ {S : Type 0} (openssl : Ssl S) (child : Child) (drains : Drains openssl) where
  nothing_left :
      (t : Tls S) (l : List ℕ)
      → take (min (minus (length l) (length l)) max_uframe_length) (drop (length l) l) ≡ []
  nothing_left t l =
      let none_left : min (minus (length l) (length l)) max_uframe_length ≡ 0 = omega arith in
      ap (λ k. take k (drop (length l) l)) none_left

  written_all :
      (t : Tls S) (q : Queues) (d : IoUringData)
      → (minus (length t.u_write) t.u_write_p_ == 0) ≡ true
      → wrote openssl child t q d ssl_error_none ≡ (
          if ltb 0 (openssl.pending t.ssl)
          then (do s ← arm_write openssl child (t, q, d); ok (s, none))
          else ok ((t, q, d), some (false, to_int (length t.u_write))))
  unfolding wrote
  written_all t q d h = elim (Bool-cases (ltb 0 (openssl.pending t.ssl))) [
    | inl e ↦ rw e refl
    | inr e ↦ rw (e, h) refl
  ]

  full_write_end :
      (t : Tls S) (q : Queues) (d : IoUringData)
      → full_write openssl child (flushing t, q, d) ≡ (
          if ltb 0 (openssl.pending t.ssl)
          then (do s ← arm_write openssl child (flushing t, q, d); ok (s, none))
          else ok ((flushing t, q, d), some (false, to_int (length t.u_write))))
  unfolding full_write wrote
  full_write_end t q d =
      let s : Tls S = flushing t in
      let answer =
        ap (λ p. openssl.write t.ssl (encrypted t) p) (nothing_left s t.u_write)
        ∙ drains.write_nothing t.ssl (encrypted t) in
      let here : length t.u_write + 0 ≡ length t.u_write = omega arith in
      let same : advance openssl child s (t.ssl, 0, 0, ssl_error_none) ≡ s =
        ap (λ (p : Tls S). record p { ssl = t.ssl; u_write_p_ = length t.u_write + 0 })
          (pull_zero s)
        ∙ ap (λ (n : ℕ). record s { u_write_p_ = n }) here in
      let no_more : (minus (length t.u_write) (length t.u_write) == 0) ≡ true = ground arith in
      ap (λ a. wrote openssl child (advance openssl child s a) q d a.3) answer
      ∙ ap (λ s. wrote openssl child s q d ssl_error_none) same
      ∙ written_all s q d no_more

  note_done :
      (t : Tls S) (n : ℕ)
      → note_completion (flushing t) [] t.task_bytes_write_ n
        ≡ flushing (record t { task_bytes_w_fin_ = true })
  unfolding note_completion
  note_done t n =
      let no_read : ((t.task_bytes_write_ == t.task_bytes_read_) && false) ≡ false = ground arith in
      let own : (t.task_bytes_write_ == t.task_bytes_write_) ≡ true = ground arith in
      rw (no_read, own) refl

  completed :
      (t : Tls S) (q : Queues) (d : IoUringData) (c : ℕ)
      → t.task_write_ ≢ t.task_read_
      → on_yield openssl child
          (flushing t, q, d)
          []
          (child_task_completion t.task_write_ t.task_bytes_write_ finished (pos (suc c)))
        ≡ full_write openssl child (flushing (record t { task_bytes_w_fin_ = true }), q, d)
  unfolding on_yield handle_write
  completed t q d c differ =
      let other : (t.task_write_ == t.task_read_) ≡ false = ground arith in
      let own : (t.task_write_ == t.task_write_) ≡ true = ground arith in
      rw (positive c, note_done t (suc c), other, own) refl

  flush_last :
      (t : Tls S) (q : Queues) (d : IoUringData) (c : ℕ) (cs : List ℕ)
      → t.task_write_ ≢ t.task_read_
      → openssl.pending t.ssl ≡ 0
      → flushed openssl child (c ∷ cs) (flushing t, q, d)
        ≡ ok (
          (flushing (record t { task_bytes_w_fin_ = true }), q, d),
          some (false, to_int (length t.u_write)),
        )
  unfolding flushed
  flush_last t q d c cs differ empty =
      let t1 : Tls S = record t { task_bytes_w_fin_ = true } in
      let none_pending : ltb 0 (openssl.pending t.ssl) ≡ false = ground arith in
      rw (flushed, completed t q d c differ, full_write_end t1 q d, none_pending) refl

  flush_more :
      (t : Tls S) (q : Queues) (d : IoUringData) (c : ℕ) (cs : List ℕ) (e : EventInfo)
      (v : List (Option EventInfo))
      → t.task_write_ ≢ t.task_read_
      → 1 ≤ openssl.pending t.ssl
      → lookup child.class d.sub_events ≡ some (some e ∷ v)
      → let (ssl', bytes) = openssl.bio_read t.ssl sizeof_pointer in
        let (q', d', id) = call_at q d child.class 0 (child.write bytes) in
        flushed openssl child (c ∷ cs) (flushing t, q, d)
        ≡ flushed openssl child cs (
          flushing (record t { ssl = ssl'; task_bytes_write_ = id; task_bytes_w_fin_ = false }),
          q',
          d',
        )
  unfolding flushed arm_write call_at
  flush_more t q d c cs e v differ some_left l =
      let t1 : Tls S = record t { task_bytes_w_fin_ = true } in
      let bytes = (openssl.bio_read t.ssl sizeof_pointer).1 in
      let queued = one_call_lem q.function_ (record {
        idx = child.class;
        vidx = 0;
        local_id = d.local_proc_id;
        fun = child.write bytes;
      }) in
      rw
        (
          flushed,
          completed t q d c differ,
          full_write_end t1 q d,
          lt→ltb 0 (openssl.pending t.ssl) some_left,
          call_first-zero q d child.class (child.write bytes) e v l,
          queued,
        )
        refl

  -- OpenSSL is any with the promises `Drains`. While all plain bytes of a write are with OpenSSL, a write of
  -- the plain socket, which is there, is under way, and no read of it: when its writes go on to be
  -- completed, with whatever positive codes, but only as long as each completion has queued the next
  -- one, the TLS write is reported with the length of the caller's bytes, without an error, after one
  -- completion for every `sizeof_pointer` pending bytes of encrypted output and one more, at the latest.
  -- By then exactly as many bytes as were pending have been queued in writes of the plain socket, no other
  -- call has been queued, and no output is pending.
  pub flushed_lem :
      (c : ℕ) (cs : List ℕ) (t : Tls S) (q : Queues) (d : IoUringData) (e : EventInfo)
      (v : List (Option EventInfo))
      → t.task_write_ ≢ t.task_read_
      → openssl.pending t.ssl ≤ sizeof_pointer * length cs
      → lookup child.class d.sub_events ≡ some (some e ∷ v)
      → (s : State S) × (parts : List (List ℕ)) × (flushed openssl child (c ∷ cs) (flushing t, q, d)
          ≡ ok (s, some (false, to_int (length t.u_write))))
        × (map (λ f. f.fun) s.1.function_ ≡ map (λ f. f.fun) q.function_ ++ map child.write parts)
        × (bytes_in parts ≡ openssl.pending t.ssl)
        × (openssl.pending s.0.ssl ≡ 0)
  unfolding call_at bytes_in
  flushed_lem c [] t q d e v differ few l =
      let empty : openssl.pending t.ssl ≡ 0 = omega arith in
      (_, [], flush_last t q d c [] differ empty, sym (append-nil _), sym empty, empty)
  flushed_lem c (c' ∷ cs) t q d e v differ few l =
      elim (Bool-cases (ltb 0 (openssl.pending t.ssl))) [
        | inr none_left ↦
            let empty : openssl.pending t.ssl ≡ 0 = ground arith in
            (_, [], flush_last t q d c (c' ∷ cs) differ empty, sym (append-nil _), sym empty, empty)
        | inl left ↦
            let (ssl', bytes) = openssl.bio_read t.ssl sizeof_pointer in
            let (q', d', id) = call_at q d child.class 0 (child.write bytes) in
            let t1 : Tls S = record t {
              ssl = ssl';
              task_bytes_write_ = id;
              task_bytes_w_fin_ = false;
            } in
            let (s, parts, done, asked, all, empty) =
              flushed_lem c' cs t1 q' d' e v differ
                (omega (arith, drains.takes_pending t.ssl sizeof_pointer)) l in
            (
              s,
              bytes ∷ parts,
              flush_more t q d c (c' ∷ cs) e v differ (ltb→lt 0 (openssl.pending t.ssl) left) l
                  ∙ done,
              asked ∙ map_push q.function_ _ _,
              omega (
                arith,
                all,
                drains.takes_pending t.ssl sizeof_pointer,
                drains.gives_taken t.ssl sizeof_pointer,
              ),
              empty,
            )
      ]
