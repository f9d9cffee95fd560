-- ===== src/Thermostat/Fetch.antt =====
-- `fetch_data` of src/aio_landing/s40_client.cpp: the requests of one update. The network is given by
-- what each request is answered with; `none` is an exception of the write or of the read. The header
-- fields for the host and the user agent are left out.
use localsoftware.Common.{
  ℕ, zero, suc, Bool, not, ◌&&◌, List, [], ◌∷◌, ◌++◌, Option, none, some, ◌==◌, if◌then◌else◌,
}
use localsoftware.Common.Text.{codes}
use localsoftware.Thermostat.{
  Value, string_value, object, no_members, member, ZoneData, no_data, Walk, finished, going, raised,
  read_reply,
}

pub data Verb : Type 0 where
  get post : Verb

pub record Request : Type 0 where
  pub verb : Verb
  pub target : List ℕ
  pub body : Option Value

pub record Reply : Type 0 where
  pub status : ℕ
  pub body : List ℕ

abbrev pub client_id : List ℕ
client_id = codes "simple_zone_requester_cpp"

abbrev pub connect_request : Request
connect_request = record {
  verb = post;
  target = codes "/Endpoints/" ++ (client_id ++ codes "/Connect");
  body = none;
}

abbrev pub data_payload : Value
data_payload = object (
    member (codes "MessageId") (string_value (codes "1")) (
      member (codes "MessageType") (string_value (codes "RequestData")) (
        member (codes "SenderId") (string_value client_id) (
          member (codes "TargetId") (string_value (codes "LCC")) (
            member (codes "AdditionalParameters")
              (object (member (codes "JSONPath") (string_value (codes "1;/zones")) no_members))
              no_members)))))

abbrev pub data_request : Request
data_request = record {
  verb = post;
  target = codes "/Messages/RequestData";
  body = some data_payload;
}

abbrev pub retrieve_request : Request
retrieve_request = record {
  verb = get;
  target = codes "/Messages/" ++ (client_id ++ codes "/Retrieve");
  body = none;
}

abbrev pub disconnect_request : Request
disconnect_request = record {
  verb = post;
  target = codes "/Endpoints/" ++ (client_id ++ codes "/Disconnect");
  body = none;
}

-- `ok` and `no_content`.
abbrev pub is_accepted : Reply → Bool
is_accepted reply = not (not (reply.status == 200) && not (reply.status == 204))

-- How the connection is made: it throws, or the server's name cannot be set, or it is made.
pub data Connected : Type 0 where
  connect_throws no_host_name connected : Connected

-- What the thermostat does: `answer` is what the last of the requests sent so far is answered with,
-- `parse` is `json::parse`, where `none` is an exception.
pub record Network : Type 0 where
  pub connection : Connected
  pub answer : List Request → Option Reply
  pub parse : List ℕ → Option Value

-- The requests that were written, or whose write threw, and the result so far.
pub data Polled : Type 0 where
  done threw : List Request → ZoneData → Polled

-- `json::parse` and what follows it, in the inner `try`.
abbrev pub take_document : Option Value → ZoneData → Walk
take_document none r = raised r
take_document (some jv) r = read_reply jv r

module _ (net : Network) where
  -- What one reply to a retrieval changes.
  unfoldable pub take_reply : Reply → ZoneData → Walk
  take_reply reply r =
      if reply.status == 200 then take_document (net.parse reply.body) r else going r

  -- The loop of retrievals, of which `n` are left.
  unfoldable pub poll : ℕ → List Request → ZoneData → Polled
  poll zero sent r = done sent r
  poll (suc n) sent r =
      let now = sent ++ retrieve_request ∷ [] in
      elim (net.answer now) [
        | none ↦ threw now r
        | some reply ↦ elim (take_reply reply r) [
          | finished r' ↦ done now r'
          | going r' ↦ poll n now r'
          | raised r' ↦ poll n now r'
        ]
      ]

  -- The label `finished`; the exceptions of the last request are caught.
  abbrev pub finish : Polled → List Request × ZoneData
  finish (done sent r) = (sent ++ disconnect_request ∷ [], r)
  finish (threw sent r) = (sent, r)

  -- The first two requests, which end the update unless they are accepted.
  unfoldable pub ask :
      List Request → Request → (List Request → List Request × ZoneData) → List Request × ZoneData
  ask sent req next =
      let now = sent ++ req ∷ [] in
      elim (net.answer now) [
        | none ↦ (now, no_data)
        | some reply ↦ if is_accepted reply then next now else (now, no_data)
      ]

  unfoldable pub fetch_data : List Request × ZoneData
  fetch_data = elim net.connection [
    | connect_throws ↦ ([], no_data)
    | no_host_name ↦ ([], no_data)
    | connected ↦
        ask [] connect_request λ sent. ask sent data_request λ sent. finish (poll 60 sent no_data)
  ]
