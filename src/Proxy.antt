-- ===== src/Proxy.antt =====
-- `ReverseProxyServer` of src/reverse_proxy/reverse_proxy_server.cpp: a client's connection, whose requests are
-- forwarded to an internal peer once the client has logged in. The file is written for an earlier
-- interface of the runtime: a call is returned as a value, with the identifier that the runtime gives it
-- as an argument, and so is a reported result. What the HTTP children have parsed, the clock and what the
-- kernel answers are arguments.
pub mod Auth
pub mod Relay
mod Tests
use localsoftware.Common.{
  ℕ, Bool, true, false, not, ◌&&◌, ◌||◌, List, [], ◌∷◌, ◌++◌, Option, none, some, ◌==◌,
  if◌then◌else◌,
}
use localsoftware.Common.Int.{ℤ, pos, negsuc, beq_ℤ, leb_ℤ}
use localsoftware.Common.Maps.{bytes_beq}
use localsoftware.Common.Text.{codes}
use localsoftware.Runtime.Types.{Result, ok, err, ◌>>=◌}
use localsoftware.Socket.Bytes.{Yield}
use localsoftware.Web.Stats.{Visits}
use localsoftware.Web.Tokens.{Tokens, check_auth, get_token}
use localsoftware.Web.Manager.{
  Bytes, Request, Response, Manager, FileSystem, endpoint_serviceable, error_response,
  handle_request_with_pred,
}

-- A request with the headers that the proxy looks at besides.
pub record ClientRequest : Type 0 where
  pub base : Request
  pub cookie : Option Bytes
  pub upgrade : Option Bytes

pub data Call : Type 0 where
  external_read_http internal_read_http : Call
  external_write_http : Response → Call
  internal_write_http : ClientRequest → Call
  tls_read bytes_read : ℕ → Call
  tls_write bytes_write : ℤ → Call

pub data Stage : Type 0 where
  read_external_peer read_internal_peer write_external_peer write_peer_branch websocket : Stage

pub record Proxy : Type 0 where
  pub check_websocket_ : Bool
  pub e_read_ : Bool
  pub i_read_ : Bool
  pub e_to_i_ : ℕ
  pub i_to_e_ : ℕ
  pub connected_intern_peer_ : Bool
  pub next_op_ : Stage
  pub tokens : Tokens
  pub visits : Visits

abbrev pub switching_protocols : ℕ
switching_protocols = 101

abbrev pub unauthorized : ℕ
unauthorized = 401

abbrev pub buffer_size : ℕ
buffer_size = 16384

-- What `init_peer` is told: the code of `getaddrinfo` and whether it gives an address, the socket, and the
-- result of `connect`.
pub record PeerAnswers : Type 0 where
  pub errcode : ℤ
  pub has_address : Bool
  pub socket_fd : ℤ
  pub connected : ℤ

-- The result, what is closed, and the descriptor that the HTTP child is made with.
unfoldable pub init_peer : PeerAnswers → Bool × List ℤ × Option ℤ
init_peer a =
    if not (beq_ℤ a.errcode (pos 0))
    then (false, [], none)
    else if not a.has_address
    then (false, [], none)
    else if beq_ℤ a.socket_fd (negsuc 0)
    then (false, [], none)
    else if not (beq_ℤ a.connected (pos 0))
    then (false, a.socket_fd ∷ [], none)
    else (true, [], some a.socket_fd)

unfoldable pub check_websocket : ClientRequest → Bool
check_websocket req = elim req.base.connection_header [
  | none ↦ false
  | some connection ↦ elim req.upgrade [
    | none ↦ false
    | some upgrade ↦ bytes_beq connection (codes "Upgrade") && bytes_beq upgrade (codes "websocket")
  ]
]

-- What one event brings.
pub record Input : Type 0 where
  pub req : ClientRequest
  pub resp : Response
  pub now : ℕ
  pub answers : PeerAnswers
  pub first_id : ℕ
  pub second_id : ℕ
  pub third_id : ℕ

-- The first event after the switch: the sockets below the HTTP children are taken over and read.
unfoldable pub take_over : Proxy → Input → Proxy × List Call
take_over p i =
    if p.check_websocket_
    then (
      record p { e_to_i_ = i.first_id; i_to_e_ = i.second_id; check_websocket_ = false },
      tls_read buffer_size ∷ bytes_read buffer_size ∷ [],
    )
    else (p, [])

-- One completion of a relayed direction, the identifier of whose next call is `id`.
unfoldable pub relay : Proxy → ℕ → ℕ → ℤ → Proxy × List Call
relay p id task_id return_code =
    if task_id == p.e_to_i_
    then (if p.e_read_
        then (record p { e_to_i_ = id; e_read_ = false }, bytes_write return_code ∷ [])
        else (record p { e_to_i_ = id; e_read_ = true }, tls_read buffer_size ∷ []))
    else if task_id == p.i_to_e_
    then (if p.i_read_
        then (record p { i_to_e_ = id; i_read_ = false }, tls_write return_code ∷ [])
        else (record p { i_to_e_ = id; i_read_ = true }, bytes_read buffer_size ∷ []))
    else (p, [])

module _ (prepare_payload : Response → Response) (manager : Manager) (fs : FileSystem) where
  -- The predicate, for a request whose cookie has this token: the tokens and the connection afterwards, the
  -- response, and what is left in `skip`.
  abbrev pub refused : Request → Option Response × Bool
  refused req = if endpoint_serviceable manager fs req.target then (none, true) else (
    some (error_response prepare_payload req unauthorized (codes "No authentication.")),
    true,
  )

  unfoldable pub pred : Proxy → Input → Request → Tokens × Bool × (Option Response × Bool)
  pred p i req = elim i.req.cookie [
    | none ↦ (p.tokens, p.connected_intern_peer_, (none, true))
    | some cookie ↦ elim (get_token cookie) [
      | none ↦ (p.tokens, p.connected_intern_peer_, refused req)
      | some token ↦
          let (tokens, accepted) = check_auth p.tokens token i.now in
          let connected = p.connected_intern_peer_ || (init_peer i.answers).0 in
          if not accepted
          then (tokens, p.connected_intern_peer_, refused req)
          else if connected
          then (tokens, true, (none, false))
          else (tokens, false, refused req)
    ]
  ]

  unfoldable pub write_peer : Proxy → Input → Result (Proxy × List Call)
  write_peer p i = do
    let (tokens, connected, outcome) = pred p i i.req.base
    (resp, visits) ←
        handle_request_with_pred prepare_payload manager fs p.visits i.now i.req.base
          (λ req. outcome)
    let p1 = record p { tokens = tokens; connected_intern_peer_ = connected; visits = visits }
    elim resp [
      | some r ↦ ok (record p1 { next_op_ = read_external_peer }, external_write_http r ∷ [])
      | none ↦ ok (
        record p1 {
          check_websocket_ = p1.check_websocket_ || check_websocket i.req;
          next_op_ = read_internal_peer;
        },
        internal_write_http i.req ∷ [],
      )
    ]

  unfoldable pub stage : Stage → Proxy → Input → ℕ → ℤ → Result (Proxy × List Call)
  stage write_peer_branch p i task_id return_code = write_peer p i
  stage read_internal_peer p i task_id return_code =
      ok (record p { next_op_ = write_external_peer }, internal_read_http ∷ [])
  stage write_external_peer p i task_id return_code =
      let switched = p.check_websocket_ && (i.resp.status == switching_protocols) in
      ok (
        record p { next_op_ = if switched then websocket else read_external_peer },
        external_write_http i.resp ∷ [],
      )
  stage read_external_peer p i task_id return_code =
      ok (record p { next_op_ = write_peer_branch }, external_read_http ∷ [])
  stage websocket p i task_id return_code =
      let (p1, opened) = take_over p i in
      let (p2, relayed) = relay p1 i.third_id task_id return_code in ok (p2, opened ++ relayed)

  unfoldable pub on_new_data : Proxy → Input → ℕ → ℤ → Result (Proxy × List Call × Yield)
  on_new_data p i task_id return_code =
      if leb_ℤ return_code (pos 0)
      then ok (p, [], some (true, negsuc 0))
      else (do (p', calls) ← stage p.next_op_ p i task_id return_code; ok (p', calls, none))

  -- `start`.
  abbrev pub started : Proxy → Proxy × List Call
  started p = (record p { next_op_ = write_peer_branch }, external_read_http ∷ [])
