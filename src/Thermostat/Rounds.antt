-- ===== src/Thermostat/Rounds.antt =====
-- The requests of one update of the thermostat's data, in their order, and what the answers make of them.
use localsoftware.Common.{
  ℕ, zero, suc, ◌+◌, ◌<◌, ◌≡◌, ◌≢◌, refl, ap, sym, ◌∙◌, subst, ◌⊎◌, inl, inr, Bool, true, false,
  List, [], ◌∷◌, ◌++◌, append_assoc, Option, none, some, ◌==◌, if◌then◌else◌, replicate, arith,
  Bool-cases, Option-cases,
}
use localsoftware.Thermostat.{Value, ZoneData, no_data, Walk, finished, going, raised, read_reply}
use localsoftware.Thermostat.Fetch.{
  Request, Reply, Network, Connected, connect_throws, no_host_name, connected, Polled, done, threw,
  connect_request, data_request, retrieve_request, disconnect_request, is_accepted, take_reply,
  take_document, poll, finish, ask, fetch_data,
}
use localsoftware.Thermostat.Read.{IsSound, read_reply-IsSound}

-- `n` retrievals in a row.
abbrev pub retrievals : ℕ → List Request
retrievals n = replicate n retrieve_request

-- A request after which the update goes on: it was answered with 200 or with 204.
pub data Accepted (net : Network) (sent : List Request) : Type 0 where
  accepted :
      (reply : Reply)
      → net.answer sent ≡ some reply
      → (reply.status ≡ 200) ⊎ (reply.status ≡ 204)
      → Accepted net sent

-- The exchange failed, or the answer has another status.
pub data Refused (net : Network) (sent : List Request) : Type 0 where
  failed : net.answer sent ≡ none → Refused net sent
  rejected :
      (reply : Reply)
      → net.answer sent ≡ some reply
      → reply.status ≢ 200
      → reply.status ≢ 204
      → Refused net sent

-- What a reply to a retrieval makes of the data: it ends the reading only if its status is 200, its body is a
-- document, and reading that finishes; otherwise the data are what has been read.
pub data Taken (net : Network) (reply : Reply) (r : ZoneData) : Walk → Type 0 where
  no_news : reply.status ≢ 200 → Taken net reply r (going r)
  no_document : reply.status ≡ 200 → net.parse reply.body ≡ none → Taken net reply r (raised r)
  document :
      (jv : Value)
      → reply.status ≡ 200
      → net.parse reply.body ≡ some jv
      → Taken net reply r (read_reply jv r)

-- Retrievals that did not end the reading: each was answered, and the data go from one to the next.
pub data Retried (net : Network) (sent : List Request) (r : ZoneData) : ℕ → ZoneData → Type 0 where
  start : Retried net sent r 0 r
  again :
      {k : ℕ} {r1 : ZoneData} (reply : Reply) (r2 : ZoneData) (w : Walk)
      → Retried net sent r k r1
      → net.answer (sent ++ retrievals (suc k)) ≡ some reply
      → Taken net reply r1 w
      → (w ≡ going r2) ⊎ (w ≡ raised r2)
      → Retried net sent r (suc k) r2

-- How a loop ends of which `n` retrievals were left after the `k` that did not end the reading.
data Polls (net : Network) (sent : List Request) (r : ZoneData) (all : ℕ) : Polled → Type 0 where
  given_up :
      (r1 : ZoneData)
      → Retried net sent r all r1
      → Polls net sent r all (done (sent ++ retrievals all) r1)
  ended :
      (k : ℕ) (r1 r2 : ZoneData) (reply : Reply)
      → k < all
      → Retried net sent r k r1
      → net.answer (sent ++ retrievals (suc k)) ≡ some reply
      → Taken net reply r1 (finished r2)
      → r2.valid ≡ true
      → Polls net sent r all (done (sent ++ retrievals (suc k)) r2)
  lost :
      (k : ℕ) (r1 : ZoneData)
      → k < all
      → Retried net sent r k r1
      → net.answer (sent ++ retrievals (suc k)) ≡ none
      → Polls net sent r all (threw (sent ++ retrievals (suc k)) r1)

abbrev pub first_two : List Request
first_two = connect_request ∷ data_request ∷ []

-- One update.
pub data Fetched (net : Network) : List Request × ZoneData → Type 0 where
  not_connected : net.connection ≢ connected → Fetched net ([], no_data)
  refused :
      net.connection ≡ connected
      → Refused net (connect_request ∷ [])
      → Fetched net (connect_request ∷ [], no_data)
  not_asked :
      net.connection ≡ connected
      → Accepted net (connect_request ∷ [])
      → Refused net first_two
      → Fetched net (first_two, no_data)
  broken :
      (k : ℕ) (r : ZoneData)
      → Accepted net (connect_request ∷ [])
      → Accepted net first_two
      → k < 60
      → Retried net first_two no_data k r
      → net.answer (first_two ++ retrievals (suc k)) ≡ none
      → Fetched net (first_two ++ retrievals (suc k), r)
  complete :
      (k : ℕ) (r1 r2 : ZoneData) (reply : Reply)
      → Accepted net (connect_request ∷ [])
      → Accepted net first_two
      → k < 60
      → Retried net first_two no_data k r1
      → net.answer (first_two ++ retrievals (suc k)) ≡ some reply
      → Taken net reply r1 (finished r2)
      → r2.valid ≡ true
      → Fetched net ((first_two ++ retrievals (suc k)) ++ disconnect_request ∷ [], r2)
  gave_up :
      (r : ZoneData)
      → Accepted net (connect_request ∷ [])
      → Accepted net first_two
      → Retried net first_two no_data 60 r
      → Fetched net ((first_two ++ retrievals 60) ++ disconnect_request ∷ [], r)

one_more : (k : ℕ) → retrievals k ++ retrieve_request ∷ [] ≡ retrievals (suc k)
one_more zero = refl
one_more (suc k) = ap (λ l. retrieve_request ∷ l) (one_more k)

sent_more :
    (sent : List Request) (k : ℕ)
    → (sent ++ retrievals k) ++ retrieve_request ∷ [] ≡ sent ++ retrievals (suc k)
sent_more sent k = append_assoc sent (retrievals k) _ ∙ ap (λ l. sent ++ l) (one_more k)

take_document-IsSound : (o : Option Value) (r : ZoneData) → IsSound (take_document o r)
take_document-IsSound none r = tt
take_document-IsSound (some jv) r = read_reply-IsSound jv r

is_accepted-cases :
    (reply : Reply) → is_accepted reply ≡ true → (reply.status ≡ 200) ⊎ (reply.status ≡ 204)
is_accepted-cases reply h = elim (Bool-cases (reply.status == 200)) [
  | inl e ↦ inl (ground arith)
  | inr e ↦ inr (ground (arith, h))
]

module _ (net : Network) where
  take_reply-Taken : (reply : Reply) (r : ZoneData) → Taken net reply r (take_reply net reply r)
  unfolding take_reply
  take_reply-Taken reply r = elim (Bool-cases (reply.status == 200)) [
    | inr e ↦ rw (e, take_reply) (no_news (ground arith))
    | inl e ↦ elim (Option-cases (net.parse reply.body)) [
      | inl f ↦ rw (e, f, take_reply) (no_document (ground arith) f)
      | inr (jv, f) ↦ rw (e, f, take_reply) (document jv (ground arith) f)
    ]
  ]

  take_reply-IsSound : (reply : Reply) (r : ZoneData) → IsSound (take_reply net reply r)
  unfolding take_reply
  take_reply-IsSound reply r = go (reply.status == 200)
    where
      go : (b : Bool) → IsSound (if b then take_document (net.parse reply.body) r else going r)
      go true = take_document-IsSound (net.parse reply.body) r
      go false = tt

  poll_step :
      (n k : ℕ) (sent : List Request) (r r1 : ZoneData)
      → Retried net sent r k r1
      → ((r2 : ZoneData)
          → Retried net sent r (suc k) r2
          → Polls net sent r (k + suc n) (poll net n (sent ++ retrievals (suc k)) r2))
      → Polls net sent r (k + suc n) (poll net (suc n) (sent ++ retrievals k) r1)
  unfolding poll
  poll_step n k sent r r1 so_far later =
      subst
        (λ now. Polls net sent r (k + suc n) (elim (net.answer now) [
          | none ↦ threw now r1
          | some reply ↦ elim (take_reply net reply r1) [
            | finished r' ↦ done now r'
            | going r' ↦ poll net n now r'
            | raised r' ↦ poll net n now r'
          ]
        ]))
        (sym (sent_more sent k)) (answered (net.answer now) refl)
    where
      now : List Request
      now = sent ++ retrievals (suc k)

      taken :
          (reply : Reply) (x : Walk)
          → net.answer (sent ++ retrievals (suc k)) ≡ some reply
          → Taken net reply r1 x
          → IsSound x
          → Polls net sent r (k + suc n) (elim x [
            | finished r' ↦ done (sent ++ retrievals (suc k)) r'
            | going r' ↦ poll net n (sent ++ retrievals (suc k)) r'
            | raised r' ↦ poll net n (sent ++ retrievals (suc k)) r'
          ])
      taken reply (finished r') e t v = ended k r1 r' reply (omega arith) so_far e t v
      taken reply (going r') e t v = later r' (again reply r' _ so_far e t (inl refl))
      taken reply (raised r') e t v = later r' (again reply r' _ so_far e t (inr refl))

      answered :
          (o : Option Reply)
          → net.answer (sent ++ retrievals (suc k)) ≡ o
          → Polls net sent r (k + suc n) (elim o [
            | none ↦ threw (sent ++ retrievals (suc k)) r1
            | some reply ↦ elim (take_reply net reply r1) [
              | finished r' ↦ done (sent ++ retrievals (suc k)) r'
              | going r' ↦ poll net n (sent ++ retrievals (suc k)) r'
              | raised r' ↦ poll net n (sent ++ retrievals (suc k)) r'
            ]
          ])
      answered none e = lost k r1 (omega arith) so_far e
      answered (some reply) e =
          taken reply (take_reply net reply r1) e (take_reply-Taken reply r1)
            (take_reply-IsSound reply r1)

  -- The loop with `n` retrievals left, `k` having been made.
  poll-Polls :
      (n k : ℕ) (sent : List Request) (r r1 : ZoneData)
      → Retried net sent r k r1
      → Polls net sent r (k + n) (poll net n (sent ++ retrievals k) r1)
  unfolding poll
  poll-Polls zero k sent r r1 so_far =
      let all : k + 0 ≡ k = omega arith in
      subst (λ m. Polls net sent r m (done (sent ++ retrievals k) r1)) (sym all)
        (given_up r1 so_far)
  poll-Polls (suc n) k sent r r1 so_far =
      let same : suc k + n ≡ k + suc n = omega arith in
      poll_step n k sent r r1 so_far λ r2 more.
        subst (λ m. Polls net sent r m (poll net n (sent ++ retrievals (suc k)) r2)) same
          (poll-Polls n (suc k) sent r r2 more)

  finish-Fetched :
      (p : Polled)
      → Accepted net (connect_request ∷ [])
      → Accepted net first_two
      → Polls net first_two no_data 60 p
      → Fetched net (finish net p)
  finish-Fetched _ a b (given_up r s) = gave_up r a b s
  finish-Fetched _ a b (ended k r1 r2 reply h s e t v) = complete k r1 r2 reply a b h s e t v
  finish-Fetched _ a b (lost k r1 h s e) = broken k r1 a b h s e

  ask-Fetched :
      (sent : List Request) (req : Request) (next : List Request → List Request × ZoneData)
      → (Refused net (sent ++ req ∷ []) → Fetched net (sent ++ req ∷ [], no_data))
      → (Accepted net (sent ++ req ∷ []) → Fetched net (next (sent ++ req ∷ [])))
      → Fetched net (ask net sent req next)
  unfolding ask
  ask-Fetched sent req next stop on = elim (Option-cases (net.answer (sent ++ req ∷ []))) [
    | inl e ↦ rw (e, ask) (stop (failed e))
    | inr (reply, e) ↦ elim (Bool-cases (is_accepted reply)) [
      | inl a ↦ rw (e, a, ask) (on (accepted reply e (is_accepted-cases reply a)))
      | inr a ↦ rw (e, a, ask) (stop (rejected reply e (ground (arith, a)) (ground (arith, a))))
    ]
  ]

  -- Whatever the thermostat answers, one update ends. Without a connection it sends nothing. Otherwise it
  -- sends the request to connect; if this is answered with 200 or 204, and only then, the request for
  -- the data; and if this is answered so too, and only then, retrievals, at most 60. If one of the first
  -- two is refused or fails, the update ends with no data. It makes a further retrieval exactly as long
  -- as the last one was answered, its answer did not finish the reading, and there were fewer than 60;
  -- the data are those of the answers with status 200, read one after the other. The request to
  -- disconnect follows exactly if no retrieval failed, and if there were fewer than 60 and none failed,
  -- the data are valid.
  pub fetch_data-Fetched : Fetched net (fetch_data net)
  unfolding fetch_data
  fetch_data-Fetched = go net.connection refl
    where
      polled : List Request → List Request × ZoneData
      polled sent = finish net (poll net 60 sent no_data)

      go :
          (c : Connected)
          → net.connection ≡ c
          → Fetched net (elim c [
            | connect_throws ↦ ([], no_data)
            | no_host_name ↦ ([], no_data)
            | connected ↦ ask net [] connect_request λ sent. ask net sent data_request polled
          ])
      go connect_throws e = not_connected (λ h. cc)
      go no_host_name e = not_connected (λ h. cc)
      go connected e =
          ask-Fetched [] connect_request (λ sent. ask net sent data_request polled) (refused e)
            (λ a. ask-Fetched (connect_request ∷ []) data_request polled (not_asked e a) (λ b.
              finish-Fetched (poll net 60 first_two no_data) a b
                (poll-Polls 60 0 first_two no_data no_data start)))
