-- ===== src/Tests/Services.antt =====
-- Runs of the services and of requests in a row.
use warp_api.Headers.{add_key}
use warp_api.Session.Parser.{start_request}
use warp_api.Response
use warp_api.Response.{set_version, new_response}
use warp_api.Session.Epoll.{Wire, again, accepts}
use warp_api.Tests.Wire.{farewell}
use warp_api.Prelude.{Option, false, drop, length}
use warp_api.Prelude.{
  ℕ, ◌≡◌, ◌++◌, refl, true, none, some, List, [], ◌∷◌, take, codes, arith, bytes_eq, if◌then◌else◌,
}
use warp_api.Headers.{has_header}
use warp_api.Endpoints.{EndpointManager, new_manager}
use warp_api.Request.{Method, post, new_request}
use warp_api.Session.Handler.{Session, handle_request}
use warp_api.Session.Handler.Bodies.{ok_text}
use warp_api.Services.{EnhancedJson, value, Endpoint, ws_echo, register_all_endpoints, lookups}
use warp_api.Services.Registered.{find, table_of, register_all_endpoints-lookups}
use warp_api.Services.Benchmark.{apibenchmark_answer}
use warp_api.Session.Parser.Printed.{ClientRequest}
use warp_api.Session.Serve.Pipeline.{IsSized, pipelined, handle_all}
use warp_api.Tests.Parsing.{
  host, accept, posted, posted_fields, host-ArePlain, accept-ArePlain, posted-IsRequest,
}
use warp_api.Tests.Given.{flat_ring}
use warp_api.Tests.Serving.{no_digest, client, function_tree}
use warp_api.WebSocket.Dispatch.{WebSocketRoute}

-- JSON values as the text that they print.
abbrev pub texts : EnhancedJson
texts = record {
  Json = List ℕ;
  new = [];
  meta = codes "{}";
  set_text = λ j key text. j ++ text;
  set_number = λ j key n. n ∷ j;
  c_string = λ bytes. bytes;
  load_from_string = λ text. value text;
  items = λ j. [];
  to_pretty_string = λ j. j;
  to_compact_string = λ j. j;
}

abbrev Manager : Type 0
Manager =
    EndpointManager (function_tree (Endpoint flat_ring no_digest)) (function_tree WebSocketRoute)

register_all_endpoints-lookups_example :
    (m : Manager) × (register_all_endpoints flat_ring no_digest
        (function_tree (Endpoint flat_ring no_digest))
        (function_tree WebSocketRoute)
        texts
        (new_manager (function_tree (Endpoint flat_ring no_digest)) (function_tree WebSocketRoute))
      ≡ some m)
    × ((method : Method) (path : List ℕ)
        → (lookups flat_ring no_digest
              (function_tree (Endpoint flat_ring no_digest))
              (function_tree WebSocketRoute)
              m).get_endpoint
            method path
          ≡ find
              (table_of flat_ring no_digest
                (function_tree (Endpoint flat_ring no_digest))
                (function_tree WebSocketRoute)
                texts)
              method
              path)
    × ((path : List ℕ)
        → (lookups flat_ring no_digest
              (function_tree (Endpoint flat_ring no_digest))
              (function_tree WebSocketRoute)
              m).get_web_socket_endpoint
            path
          ≡ (if bytes_eq path (codes "/ws/echo") then some ws_echo else none))
register_all_endpoints-lookups_example =
    register_all_endpoints-lookups flat_ring no_digest
      (function_tree (Endpoint flat_ring no_digest)) (function_tree WebSocketRoute) texts

abbrev benchmark : Session flat_ring no_digest
benchmark = record client {
  req = record {
    fields = record new_request.fields {
      method = post;
      path = codes "/apibenchmark";
      body = codes "hello";
    };
    present_headers = 0;
  };
}

apibenchmark_answer_example :
    (m : Manager) × (register_all_endpoints flat_ring no_digest
        (function_tree (Endpoint flat_ring no_digest))
        (function_tree WebSocketRoute)
        texts
        (new_manager (function_tree (Endpoint flat_ring no_digest)) (function_tree WebSocketRoute))
      ≡ some m)
    × (s' : Session flat_ring no_digest) × (handle_request flat_ring no_digest
          (lookups flat_ring no_digest
            (function_tree (Endpoint flat_ring no_digest))
            (function_tree WebSocketRoute)
            m)
          benchmark
        ≡ some s')
    × (s'.out.0 ≡ [] ++ take 4096 (ok_text true (codes "hello")))
    × (s'.keep_alive ≡ true)
unfolding has_header
apibenchmark_answer_example =
    apibenchmark_answer flat_ring no_digest (function_tree (Endpoint flat_ring no_digest))
      (function_tree WebSocketRoute) texts benchmark refl refl refl

-- The same request three times in a row.
abbrev pub sized : IsSized 100 posted
sized = record {
  before = host ∷ [];
  after = accept ∷ [];
  fields = posted_fields;
  before_plain = host-ArePlain;
  after_plain = accept-ArePlain;
  parts = posted-IsRequest;
  has_body = omega arith;
  limited = omega arith;
}

abbrev pub three : List ClientRequest
three = posted ∷ posted ∷ posted ∷ []

-- A client that sends the three requests in one piece.
abbrev pub three_rest : List ℕ
three_rest = drop 1 (pipelined three)

pub three_bytes : pipelined three ≡ 80 ∷ three_rest
unfolding pipelined
three_bytes = refl

abbrev pub posting : Wire flat_ring no_digest
posting = record {
  conn = record {
    session = record client { req = new_request; keep_alive = false };
    input = ([], 4096);
  };
  socket = record {
    arriving = (80, three_rest) ∷ [];
    ending = again;
    answers = accepts 100 ∷ [];
    sent = [];
  };
  is_open = true;
}

pub served_session : Option (Session flat_ring no_digest) → Session flat_ring no_digest
served_session none = client
served_session (some s) = s

abbrev pub behind_three : Session flat_ring no_digest
behind_three = served_session (handle_all flat_ring no_digest farewell posting.conn.session three)

pub three_handled :
    handle_all flat_ring no_digest farewell posting.conn.session three ≡ some behind_three
unfolding handle_all served_session handle_request has_header add_key start_request new_request
    Response.add_header set_version new_response
three_handled = refl

pub three_answered : (behind_three.closing ≡ false) × (length behind_three.out.0 ≡ 9)
unfolding handle_all served_session handle_request has_header add_key start_request new_request
    Response.add_header set_version new_response
three_answered = (refl, refl)
