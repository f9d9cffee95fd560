-- ===== src/Proxy/Tests.antt =====
-- A proxied connection, and the theorems at it.
use localsoftware.Common.{◌≡◌, refl, true, false, List, [], ◌∷◌, none, some, map, arith}
use localsoftware.Common.Int.{pos}
use localsoftware.Common.Text.{codes}
use localsoftware.Runtime.Types.{ok}
use localsoftware.Web.Manager.{FileSystem, Manager}
use localsoftware.Proxy.{
  ClientRequest, Input, Proxy, write_peer_branch, write_peer, relay, bytes_write, tls_write,
  tls_read,
}
use localsoftware.Proxy.Auth.{Branched, write_peer-Branched}
use localsoftware.Proxy.Relay.{Completion, relayed, Turns, out_moves, in_moves, relayed_lem}

abbrev files : FileSystem
files = record {
  is_directory = λ p. ok false;
  canonical = λ p. ok (codes "/srv/rp/login");
  exists = λ p. ok true;
  read = λ p. ok (some (codes "login"));
}

abbrev manager : Manager
manager = record { service = codes "rp"; base_path = codes "/srv/rp"; handlers = [] }

abbrev request : ClientRequest
request = record {
  base = record { method = 1; target = codes "/app"; connection_header = none; string_body = true };
  cookie = some (codes "token=c0ffee");
  upgrade = none;
}

abbrev input : Input
input = record {
  req = request;
  resp = record { status = 200; headers = []; body = [] };
  now = 2600;
  answers = record { errcode = pos 0; has_address = true; socket_fd = pos 9; connected = pos 0 };
  first_id = 4;
  second_id = 5;
  third_id = 6;
}

abbrev proxy : Proxy
proxy = record {
  check_websocket_ = false;
  e_read_ = true;
  i_read_ = true;
  e_to_i_ = 1;
  i_to_e_ = 2;
  connected_intern_peer_ = false;
  next_op_ = write_peer_branch;
  tokens = (2400, (codes "c0ffee", 2500) ∷ []) ∷ [];
  visits = [];
}

write_peer-Branched_example :
    Branched (λ r. r) manager files proxy input (write_peer (λ r. r) manager files proxy input)
write_peer-Branched_example = write_peer-Branched (λ r. r) manager files proxy input refl

abbrev completions : List Completion
completions =
    record { id = 3; task_id = 1; return_code = pos 10 }
    ∷ record { id = 4; task_id = 2; return_code = pos 20 }
    ∷ record { id = 5; task_id = 3; return_code = pos 10 }
    ∷ []

relayed_lem_example :
    Turns out_moves 1 true (relayed proxy completions)
    × Turns in_moves 2 true (relayed proxy completions)
unfolding relay
relayed_lem_example =
    relayed_lem proxy completions (omega arith)
      (omega arith, omega arith, (omega arith, omega arith, (omega arith, omega arith, tt)))

three_calls :
    map (λ t. t.1) (relayed proxy completions)
    ≡ (bytes_write (pos 10) ∷ []) ∷ (tls_write (pos 20) ∷ []) ∷ (tls_read 16384 ∷ []) ∷ []
unfolding relayed relay
three_calls = refl
