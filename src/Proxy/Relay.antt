-- ===== src/Proxy/Relay.antt =====
-- After the switch to a WebSocket, each direction has its own buffer and one call under way on it, whose
-- completion alone leads to the next.
use localsoftware.Common.{
  ℕ, ◌≡◌, ◌≢◌, Bool, true, false, List, [], ◌∷◌, ◌==◌, arith, Bool-cases, inl, inr, refl,
}
use localsoftware.Common.Int.{ℤ}
use localsoftware.Proxy.{
  Call, external_read_http, internal_read_http, external_write_http, internal_write_http, tls_read,
  tls_write, bytes_read, bytes_write, Proxy, buffer_size, relay,
}

-- Completions in any order: the identifier of the next call, the task that completed and its code.
pub record Completion : Type 0 where
  pub id : ℕ
  pub task_id : ℕ
  pub return_code : ℤ

-- The completions, each with the calls that it leads to.
abbrev pub Trace : Type 0
Trace = List (Completion × List Call)

unfoldable pub relayed : Proxy → List Completion → Trace
relayed p [] = []
relayed p (c ∷ cs) =
    let (p', calls) = relay p c.id c.task_id c.return_code in (c, calls) ∷ relayed p' cs

-- What a call does with a buffer: it fills it, asking for so many bytes, or it sends so many from it.
pub data Move : Type 0 where
  fill : ℕ → Move
  send : ℤ → Move

-- The calls on the buffer from the client to the peer,
abbrev pub out_moves : List Call → List Move
out_moves [] = []
out_moves (bytes_write n ∷ cs) = send n ∷ out_moves cs
out_moves (tls_read n ∷ cs) = fill n ∷ out_moves cs
out_moves (tls_write n ∷ cs) = out_moves cs
out_moves (bytes_read n ∷ cs) = out_moves cs
out_moves (external_read_http ∷ cs) = out_moves cs
out_moves (internal_read_http ∷ cs) = out_moves cs
out_moves (external_write_http r ∷ cs) = out_moves cs
out_moves (internal_write_http r ∷ cs) = out_moves cs

-- and on that from the peer to the client.
abbrev pub in_moves : List Call → List Move
in_moves [] = []
in_moves (tls_write n ∷ cs) = send n ∷ in_moves cs
in_moves (bytes_read n ∷ cs) = fill n ∷ in_moves cs
in_moves (bytes_write n ∷ cs) = in_moves cs
in_moves (tls_read n ∷ cs) = in_moves cs
in_moves (external_read_http ∷ cs) = in_moves cs
in_moves (internal_read_http ∷ cs) = in_moves cs
in_moves (external_write_http r ∷ cs) = in_moves cs
in_moves (internal_write_http r ∷ cs) = in_moves cs

-- On one buffer the call `pending` is under way, a read into it if `reading`. Until it completes there is no
-- other call on the buffer; its completion leads to exactly one, which is then the one under way:
-- after a read the write of what it brought, and after a write a read for the whole buffer.
pub data Turns (moves : List Call → List Move) : ℕ → Bool → Trace → Type 0 where
  over : {pending : ℕ} {reading : Bool} → Turns moves pending reading []
  waits :
      {pending : ℕ} {reading : Bool} {c : Completion} {calls : List Call} {rest : Trace}
      → c.task_id ≢ pending
      → moves calls ≡ []
      → Turns moves pending reading rest
      → Turns moves pending reading ((c, calls) ∷ rest)
  sends :
      {pending : ℕ} {reading : Bool} {c : Completion} {calls : List Call} {rest : Trace}
      → reading ≡ true
      → c.task_id ≡ pending
      → moves calls ≡ send c.return_code ∷ []
      → Turns moves c.id false rest
      → Turns moves pending reading ((c, calls) ∷ rest)
  fills :
      {pending : ℕ} {reading : Bool} {c : Completion} {calls : List Call} {rest : Trace}
      → reading ≡ false
      → c.task_id ≡ pending
      → moves calls ≡ fill buffer_size ∷ []
      → Turns moves c.id true rest
      → Turns moves pending reading ((c, calls) ∷ rest)

-- A new call has an identifier that is not under way.
abbrev pub Fresh : Proxy → List Completion → Type 0
Fresh p [] = Unit {0}
Fresh p (c ∷ cs) =
    (c.id ≢ p.e_to_i_) × (c.id ≢ p.i_to_e_) × Fresh (relay p c.id c.task_id c.return_code).0 cs

abbrev Under : Proxy → Trace → Type 0
Under p trace = Turns out_moves p.e_to_i_ p.e_read_ trace × Turns in_moves p.i_to_e_ p.i_read_ trace

-- One completion, before whatever follows.
abbrev Step : Proxy → Completion → Trace → Proxy × List Call → Type 0
Step p c rest (p', calls) = Under p' rest → Under p ((c, calls) ∷ rest)

out-Step :
    (p : Proxy) (c : Completion) (rest : Trace)
    → p.e_to_i_ ≢ p.i_to_e_
    → c.task_id ≡ p.e_to_i_
    → Step p c rest (relay p c.id c.task_id c.return_code)
unfolding relay
out-Step p c rest differ mine =
    let this : (c.task_id == p.e_to_i_) ≡ true = ground arith in
    let other : c.task_id ≢ p.i_to_e_ = λ e. differ (omega arith) in
    elim (Bool-cases p.e_read_) [
      | inl r ↦ rw (this, r, relay) (λ h. (sends refl mine refl h.0, waits other refl h.1))
      | inr r ↦ rw (this, r, relay) (λ h. (fills refl mine refl h.0, waits other refl h.1))
    ]

in-Step :
    (p : Proxy) (c : Completion) (rest : Trace)
    → c.task_id ≢ p.e_to_i_
    → c.task_id ≡ p.i_to_e_
    → Step p c rest (relay p c.id c.task_id c.return_code)
unfolding relay
in-Step p c rest other mine =
    let not_this : (c.task_id == p.e_to_i_) ≡ false = ground arith in
    let this : (c.task_id == p.i_to_e_) ≡ true = ground arith in
    elim (Bool-cases p.i_read_) [
      | inl r ↦
          rw (not_this, this, r, relay) (λ h. (waits other refl h.0, sends refl mine refl h.1))
      | inr r ↦
          rw (not_this, this, r, relay) (λ h. (waits other refl h.0, fills refl mine refl h.1))
    ]

no-Step :
    (p : Proxy) (c : Completion) (rest : Trace)
    → c.task_id ≢ p.e_to_i_
    → c.task_id ≢ p.i_to_e_
    → Step p c rest (relay p c.id c.task_id c.return_code)
unfolding relay
no-Step p c rest other other' =
    let not_this : (c.task_id == p.e_to_i_) ≡ false = ground arith in
    let nor_this : (c.task_id == p.i_to_e_) ≡ false = ground arith in
    rw (not_this, nor_this, relay) (λ h. (waits other refl h.0, waits other' refl h.1))

relay-Step :
    (p : Proxy) (c : Completion) (rest : Trace)
    → p.e_to_i_ ≢ p.i_to_e_
    → Step p c rest (relay p c.id c.task_id c.return_code)
relay-Step p c rest differ = elim (Bool-cases (c.task_id == p.e_to_i_)) [
  | inl this ↦ out-Step p c rest differ (ground arith)
  | inr other ↦ elim (Bool-cases (c.task_id == p.i_to_e_)) [
    | inl this ↦ in-Step p c rest (ground arith) (ground arith)
    | inr other' ↦ no-Step p c rest (ground arith) (ground arith)
  ]
]

relay-differ :
    (p : Proxy) (c : Completion)
    → p.e_to_i_ ≢ p.i_to_e_
    → c.id ≢ p.e_to_i_
    → c.id ≢ p.i_to_e_
    → let (p', calls) = relay p c.id c.task_id c.return_code in p'.e_to_i_ ≢ p'.i_to_e_
unfolding relay
relay-differ p c differ out_fresh in_fresh = λ same. ground arith

-- While the two directions have different calls under way, and each new call gets an identifier that is not
-- under way: however the completions interleave, of these calls or of others, and whatever their codes,
-- on the buffer of each direction there is no call until the call under way on it has completed, and
-- then exactly one: after a read the write of as many bytes as it brought, and after a write a read
-- for the whole buffer. So a buffer is never read into before the write from it has completed, nor
-- written before the read into it has.
pub relayed_lem :
    (p : Proxy) (cs : List Completion)
    → p.e_to_i_ ≢ p.i_to_e_
    → Fresh p cs
    → Turns out_moves p.e_to_i_ p.e_read_ (relayed p cs)
      × Turns in_moves p.i_to_e_ p.i_read_ (relayed p cs)
unfolding relayed
relayed_lem p [] differ fresh = (over, over)
relayed_lem p (c ∷ cs) differ fresh =
    let p' = (relay p c.id c.task_id c.return_code).0 in
    relay-Step p c (relayed p' cs) differ
      (relayed_lem p' cs (relay-differ p c differ fresh.0 fresh.1) fresh.2)
