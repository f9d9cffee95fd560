-- ===== src/Proxy/Auth.antt =====
-- Only the requests of clients that are logged in are forwarded.
use localsoftware.Common.{
  ℕ, ◌≡◌, refl, Bool, true, false, not, ◌||◌, List, [], ◌∷◌, Option, none, some, Bool-cases,
  Option-cases, inl, inr, ◌⊎◌, ◌∙◌, sym,
}
use mathlib.Core.Bool.{false≢true}
use localsoftware.Runtime.Types.{Result, Fault, ok, err}
use localsoftware.Web.Tokens.{Token, check_auth, get_token}
use localsoftware.Common.Maps.{Map, lookup, nat_eq, bytes_eq}
use localsoftware.Web.Stats.{Visits}
use localsoftware.Web.Manager.{
  Bytes, Request, Response, Handler, Manager, FileSystem, endpoint_serviceable, without_query,
  handle_request_with_pred,
}
use localsoftware.Web.Manager.Serve.{
  Served, handled, thrown, wrong_method, file, missing, handle_request-Served,
}
use localsoftware.Proxy.{
  Call, external_write_http, internal_write_http, Proxy, Input, read_external_peer,
  read_internal_peer, init_peer, refused, pred, write_peer,
}

-- The client has sent a token that is accepted now, and the peer is connected.
pub record LoggedIn (p : Proxy) (i : Input) : Type 0 where
  cookie : Bytes
  token : Token
  has_cookie : i.req.cookie ≡ some cookie
  has_token : get_token cookie ≡ some token
  accepted : (check_auth p.tokens token i.now).1 ≡ true
  reachable : p.connected_intern_peer_ || (init_peer i.answers).0 ≡ true

module _ (prepare_payload : Response → Response) (manager : Manager) (fs : FileSystem) where
  -- The predicate leaves the request to be forwarded exactly for such a client.
  abbrev forwards : Option Response × Bool → Bool
  forwards (none, skip) = not skip
  forwards (some r, skip) = false

  refused_stays : (req : Request) → forwards (refused prepare_payload manager fs req) ≡ false
  refused_stays req = elim (Bool-cases (endpoint_serviceable manager fs req.target)) [
    | inl e ↦ rw e refl
    | inr e ↦ rw e refl
  ]

  pred-LoggedIn :
      (p : Proxy) (i : Input) (req : Request)
      → forwards (pred prepare_payload manager fs p i req).2 ≡ true
      → LoggedIn p i × ((pred prepare_payload manager fs p i req).1 ≡ true)
  unfolding pred
  pred-LoggedIn p i req h = elim (Option-cases i.req.cookie) [
    | inl e ↦ absurd (false≢true (rw (pred, e) at h))
    | inr (cookie, e) ↦ elim (Option-cases (get_token cookie)) [
      | inl k ↦ absurd (false≢true (sym (refused_stays req) ∙ (rw (pred, e, k) at h)))
      | inr (token, k) ↦ elim (Bool-cases (check_auth p.tokens token i.now).1) [
        | inr a ↦ absurd (false≢true (sym (refused_stays req) ∙ (rw (pred, e, k, a) at h)))
        | inl a ↦ elim (Bool-cases (p.connected_intern_peer_ || (init_peer i.answers).0)) [
          | inr c ↦ absurd (false≢true (sym (refused_stays req) ∙ (rw (pred, e, k, a, c) at h)))
          | inl c ↦ (
            record {
              cookie = cookie;
              token = token;
              has_cookie = e;
              has_token = k;
              accepted = a;
              reachable = c;
            },
            rw (pred, e, k, a, c) refl,
          )
        ]
      ]
    ]
  ]

  LoggedIn-pred :
      (p : Proxy) (i : Input) (req : Request)
      → LoggedIn p i
      → forwards (pred prepare_payload manager fs p i req).2 ≡ true
  unfolding pred
  LoggedIn-pred p i req l = rw (pred, l.has_cookie, l.has_token, l.accepted, l.reachable) refl

  -- The handler for a request throws.
  abbrev Throws : Request → Bytes → Fault → Type 0
  Throws req target e =
      (verbs : Map ℕ Handler) × (handler : Handler) × (lookup target manager.handlers ≡ some verbs)
      × (lookup req.method verbs ≡ some handler)
      × (handler req ≡ err e)

  served_response :
      {visits : Visits} {now : ℕ} {req : Request} {target : Bytes} {r : Result (Response × Visits)}
      → Served prepare_payload manager fs visits now req target r
      → ((a : Response × Visits) × (r ≡ ok a)) ⊎ ((e : Fault) × (r ≡ err e) × Throws req target e)
  served_response (handled verbs handler resp a b c) = inl (_, refl)
  served_response (thrown verbs handler e a b c) = inr (e, refl, (verbs, handler, a, b, c))
  served_response (wrong_method verbs a b) = inl (_, refl)
  served_response (file asked rest content a b c d) = inl (_, refl)
  served_response (missing a b) = inl (_, refl)

  -- What the predicate's outcome leads to.
  outcome_cases :
      (visits : Visits) (now : ℕ) (req : Request) (outcome : Option Response × Bool)
      → req.string_body ≡ true
      → ((forwards outcome ≡ true)
          × (handle_request_with_pred prepare_payload manager fs visits now req (λ req. outcome)
              ≡ ok (none, visits)))
        ⊎ ((forwards outcome ≡ false)
            × (((r : Response) × (visits' : Visits) × (handle_request_with_pred prepare_payload
                      manager fs visits now req
                      (λ req. outcome)
                    ≡ ok (some r, visits')))
                ⊎ ((e : Fault) × (handle_request_with_pred prepare_payload manager fs visits now req
                        (λ req. outcome)
                      ≡ err e)
                    × Throws req (without_query req.target) e)))
  unfolding handle_request_with_pred
  outcome_cases visits now req (some r, skip) s = inr (refl, inl (r, visits, refl))
  outcome_cases visits now req (none, false) s = inl (refl, refl)
  outcome_cases visits now req (none, true) s = inr (
    refl,
    elim (served_response (handle_request-Served prepare_payload manager fs visits now req s)) [
      | inl ((r, visits'), e) ↦ inl (r, visits', rw e refl)
      | inr (x, e, h) ↦ inr (x, rw e refl, h)
    ],
  )

  -- The one call that a request leads to.
  pub data Branched (p : Proxy) (i : Input) : Result (Proxy × List Call) → Type 0 where
    forwarded :
        (p' : Proxy)
        → LoggedIn p i
        → p'.next_op_ ≡ read_internal_peer
        → p'.connected_intern_peer_ ≡ true
        → Branched p i (ok (p', internal_write_http i.req ∷ []))
    answered :
        (p' : Proxy) (r : Response)
        → (LoggedIn p i → ⊥)
        → p'.next_op_ ≡ read_external_peer
        → Branched p i (ok (p', external_write_http r ∷ []))
    thrown_away :
        (e : Fault) (verbs : Map ℕ Handler) (handler : Handler)
        → (LoggedIn p i → ⊥)
        → lookup (without_query i.req.base.target) manager.handlers ≡ some verbs
        → lookup i.req.base.method verbs ≡ some handler
        → handler i.req.base ≡ err e
        → Branched p i (err e)

  -- A request with a string body leads to exactly one call, whatever it holds, the file system throws and
  -- the kernel answers, unless its own handler throws. If its cookie has a token that `check_auth`
  -- accepts at that time, and the internal peer is connected or can be connected now, it is the write of
  -- that request to the peer, and the proxy then waits for the peer and is connected; in every other
  -- case nothing goes to the peer, and the client is answered, or the exception of the handler that the
  -- target has for the method is passed on.
  pub write_peer-Branched :
      (p : Proxy) (i : Input)
      → i.req.base.string_body ≡ true
      → Branched p i (write_peer prepare_payload manager fs p i)
  unfolding write_peer
  write_peer-Branched p i s =
      let (tokens, connected, outcome) = pred prepare_payload manager fs p i i.req.base in
      elim (outcome_cases p.visits i.now i.req.base outcome s) [
        | inl (f, e) ↦
            let (logged_in, c) = pred-LoggedIn p i i.req.base f in
            rw e (forwarded _ logged_in refl c)
        | inr (f, inr (x, e, (verbs, handler, a, b, c))) ↦ rw e (
            thrown_away x verbs handler (λ l. false≢true (sym f ∙ LoggedIn-pred p i i.req.base l)) a
              b c)
        | inr (f, inl (r, visits', e)) ↦
            rw e (answered _ r (λ l. false≢true (sym f ∙ LoggedIn-pred p i i.req.base l)) refl)
      ]
