-- ===== src/Http/Respond.antt =====
-- A response is serialized whole and written whole.
use localsoftware.Common.{
  ℕ, zero, suc, ◌≤◌, ◌<◌, ◌≡◌, refl, true, false, List, [], ◌∷◌, ◌++◌, Option, some, length, arith,
  Bool-cases, inl, inr, append_assoc, append-nil, ap, sym, ◌∙◌, map,
}
use localsoftware.Common.Int.{pos}
use localsoftware.Common.Maps.{lookup, nat_eq}
use localsoftware.Runtime.Types.{IoUringData, EventInfo, ok}
use localsoftware.Runtime.Event.{Queues, call_at}
use localsoftware.Runtime.Event.First.{map_push}
use localsoftware.Http.{
  is_error, Parser, Serializer, Children, Http, State, child_class, serialize, write_http,
}
use localsoftware.Http.Drain.{
  Takes, rests, written, Written, written_lem, arm_write_lem, queue_write,
}

-- What the serializer's documentation says: until it is done, `next` gives the next bytes of the message
-- without an error, and it is done after `calls` of them. `body` names what is still to come.
pub record Serializes {R S : Type 0} (serializer : Serializer R S) (body : S → List ℕ)
    : Type 0 where
  pub done_body : (sr : S) → serializer.is_done sr ≡ true → body sr ≡ []
  pub no_error : (sr : S) → serializer.is_done sr ≡ false → is_error (serializer.next sr).2 ≡ false
  pub next_body :
      (sr : S)
      → serializer.is_done sr ≡ false
      → body sr ≡ (serializer.next sr).1 ++ body (serializer.next sr).0
  pub fewer_calls :
      (sr : S)
      → serializer.is_done sr ≡ false
      → serializer.calls (serializer.next sr).0 < serializer.calls sr

Takes-length : (buf ns : List ℕ) → Takes (length buf) ns → 1 ≤ length buf
Takes-length buf [] t = elim t [ ]
Takes-length buf (n ∷ []) t = omega (arith, t.0, t.1)
Takes-length buf (n ∷ m ∷ ns) t = omega (arith, t.0, t.1)

module _ {R S : Type 0} (serializer : Serializer R S) (body : S → List ℕ)
    (laws : Serializes serializer body) where
  serialize_lem :
      (fuel : ℕ) (sr : S) (buf : List ℕ)
      → serializer.calls sr ≤ fuel
      → serialize serializer fuel sr buf ≡ ok (buf ++ body sr)
  unfolding serialize
  serialize_lem zero sr buf le = elim (Bool-cases (serializer.is_done sr)) [
    | inl d ↦ rw (d, laws.done_body sr d) (ap ok (sym (append-nil buf)))
    | inr d ↦ absurd (omega (arith, laws.fewer_calls sr d))
  ]
  serialize_lem (suc fuel) sr buf le = elim (Bool-cases (serializer.is_done sr)) [
    | inl d ↦ rw (d, laws.done_body sr d) (ap ok (sym (append-nil buf)))
    | inr d ↦
        let (sr', src, ec) = serializer.next sr in
        rw (d, laws.no_error sr d, laws.next_body sr d)
          (serialize_lem fuel sr' (buf ++ src) (omega (arith, laws.fewer_calls sr d))
            ∙ ap ok (append_assoc buf src (body sr')))
  ]

  module _ {P : Type 0} (parser : Parser P) (children : Children) where
    write_http_lem :
        (h : Http P) (q : Queues) (d : IoUringData) (res : R) (e : EventInfo)
        (v : List (Option EventInfo))
        → let buf = h.write_buffer_ ++ body (serializer.start res) in
          let (q', d', id) = queue_write parser children q d h.tls_enabled_ buf in
          1 ≤ length buf
          → lookup (child_class children h.tls_enabled_) d.sub_events ≡ some (some e ∷ v)
          → write_http serializer children (h, q, d) res
            ≡ ok (record h { read_op_ = false; write_buffer_ = buf; taskid_writer_ = id }, q', d')
    unfolding write_http
    write_http_lem h q d res e v one l =
        let sr = serializer.start res in
        let buf = h.write_buffer_ ++ body sr in
        rw
          (
            serialize_lem (serializer.calls sr) sr h.write_buffer_ (omega arith),
            arm_write_lem parser children (record h { read_op_ = false; write_buffer_ = buf }) q d e
                v one l,
          )
          refl

    -- The serializer is any with the promises `Serializes`, and the socket child is there. Writing a response
    -- serializes all of it, behind what an earlier write has left in the buffer, if anything. Whatever
    -- positive parts of these bytes the child takes in its writes, each next write offers exactly the
    -- bytes that are left, in their order, and with the last part the object
    -- reports the result 1 and its buffer is empty.
    pub write_http_whole :
        (h : Http P) (q : Queues) (d : IoUringData) (res : R) (ns : List ℕ) (e : EventInfo)
        (v : List (Option EventInfo))
        → let buf = h.write_buffer_ ++ body (serializer.start res) in
          let ty = child_class children h.tls_enabled_ in
          Takes (length buf) ns
          → lookup ty d.sub_events ≡ some (some e ∷ v)
          → (s : State P) × (h' : Http P) × (q' : Queues) × (d' : IoUringData) × (write_http
                serializer children
                (h, q, d)
                res
              ≡ ok s)
            × (written parser children s ns ≡ ok ((h', q', d'), some (false, pos 1)))
            × (h'.write_buffer_ ≡ [])
            × (map (λ f. f.fun) q'.function_
                ≡ map (λ f. f.fun) q.function_ ++ map (children.write ty) (buf ∷ rests buf ns))
    unfolding Written call_at
    write_http_whole h q d res ns e v takes l =
        let buf = h.write_buffer_ ++ body (serializer.start res) in
        let (q1, d1, id) = queue_write parser children q d h.tls_enabled_ buf in
        let h1 = record h { read_op_ = false; write_buffer_ = buf; taskid_writer_ = id } in
        let (h2, q2, d2, done, empty, calls) =
          written_lem parser children h1 q1 d1 ns e v refl takes l in
        (
          (h1, q1, d1),
          h2,
          q2,
          d2,
          write_http_lem h q d res e v (Takes-length buf ns takes) l,
          done,
          empty,
          calls ∙ map_push q.function_ _ _,
        )
