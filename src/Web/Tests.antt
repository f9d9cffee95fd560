-- ===== src/Web/Tests.antt =====
-- Runs of the services, and the theorems about them at concrete inputs.
use localsoftware.Common.{ℕ, ◌∷◌, ◌≡◌, refl, true, false, List, [], none, some}
use localsoftware.Common.Text.{codes}
use localsoftware.Runtime.Types.{ok}
use localsoftware.Runtime.Ids.{u64}
use localsoftware.Web.Stats.{Visits, register_service, get_endpoint_stats}
use localsoftware.Web.Stats.Log.{
  Access, add_accesses, count_matches, get_endpoint_stats-add_accesses,
}
use localsoftware.Web.Tokens.{Tokens, get_token, check_auth, create_new_token}
use localsoftware.Web.Tokens.Cookie.{Sought, get_token-Sought}
use localsoftware.Web.Tokens.Check.{check_auth-create_new_token}
use localsoftware.Web.Manager.{
  Request, FileSystem, Manager, without_query, handle_request, get_mime_type,
}
use localsoftware.Web.Manager.Serve.{Served, handle_request-Served}

abbrev visits : Visits
visits = (codes "site", (codes "/", (240, 3) ∷ []) ∷ []) ∷ []

-- Two accesses of an endpoint and one of another, half an hour after the epoch.
abbrev accesses : List Access
accesses =
    record { service = codes "site"; endpoint = codes "/"; time = 1800 }
    ∷ record { service = codes "site"; endpoint = codes "/a"; time = 1900 }
    ∷ record { service = codes "site"; endpoint = codes "/"; time = 2500 }
    ∷ []

get_endpoint_stats-add_accesses_example :
    get_endpoint_stats
      (add_accesses (register_service [] (codes "site")) accesses)
      (codes "site")
      (codes "/")
      240
      10
    ≡ u64 (count_matches (codes "site") (codes "/") 240 10 accesses)
get_endpoint_stats-add_accesses_example =
    get_endpoint_stats-add_accesses [] accesses (codes "site") (codes "/") 240 10 refl

-- The end of another cookie's name is taken for the name.
abbrev shadowed : List ℕ
shadowed = codes "xtoken=abc; token=good"

get_token-Sought_example : Sought shadowed (get_token shadowed)
get_token-Sought_example = get_token-Sought shadowed

other_token : get_token shadowed ≡ some (codes "abc")
unfolding get_token
other_token = refl

abbrev held : Tokens
held = (2400, (codes "c0ffee", 2500) ∷ []) ∷ []

check_auth-create_new_token_example :
    (check_auth (create_new_token held (codes "beef") 2500) (codes "beef") 3500).1 ≡ true
check_auth-create_new_token_example = check_auth-create_new_token held (codes "beef") 2500 3500 refl

-- A file beside the base directory.
abbrev files : FileSystem
files = record {
  is_directory = λ p. ok false;
  canonical = λ p. ok (codes "/srv/site_old/key");
  exists = λ p. ok true;
  read = λ p. ok (some (codes "secret"));
}

abbrev manager : Manager
manager = record { service = codes "site"; base_path = codes "/srv/site"; handlers = [] }

abbrev request : Request
request = record {
  method = 1;
  target = codes "/index.html?v=2";
  connection_header = none;
  string_body = true;
}

handle_request-Served_example :
    Served
      (λ r. r)
      manager
      files
      visits
      500
      request
      (without_query request.target)
      (handle_request (λ r. r) manager files visits 500 request)
handle_request-Served_example = handle_request-Served (λ r. r) manager files visits 500 request refl

mime_types :
    (get_mime_type (codes "/srv/a.b/c.tar.css") ≡ codes "text/css")
    × (get_mime_type (codes "/srv/a.css/.js") ≡ codes "application/octet-stream")
unfolding get_mime_type
mime_types = (refl, refl)
